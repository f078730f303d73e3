-- ===== src/Interpreters/Tests.antt =====
-- Runs of the interpreter registry.
use cpp_inter_op.Common.{
  ℕ, ◌+◌, ltb, ◌≡◌, refl, Bool, true, false, List, [], ◌∷◌, Option, none, some,
}
use cpp_inter_op.Errors.Encoding.{Address}
use cpp_inter_op.Interpreters.Slots.{InterpreterInfo, empty_stores}
use cpp_inter_op.Interpreters.Registry.{
  Registry, activate_interpreter, delete_interpreter, get_interpreter, get_interp_info,
  register_interpreter, use_external_interpreter,
}
use cpp_inter_op.Interpreters.Registry.Order.{
  Command, create, use_external, activate, delete, holdings, stack_of,
}
use cpp_inter_op.Interpreters.Registry.History.{run, run_lem, Acts}
use cpp_inter_op.Interpreters.Registry.Ownership.{run-known, deletions, owners, handed_over}
use cpp_inter_op.Interpreters.Registry.Places.{activate-place, place_of}

abbrev no_interps : Registry
no_interps = record { interps = []; consumers = []; deleted = []; skip_shut_down = false }

-- The standard library's choice: the shorter side.
abbrev shorter : ℕ → ℕ → Bool
shorter n m = ltb n m

-- An interpreter is adopted, two are made; the one in the middle is activated, the adopted one and
-- the last are deleted, and one that is not there.
abbrev session : List Command
session =
    use_external 200 2
    ∷ create 100 1 []
    ∷ create 300 3 []
    ∷ activate 1
    ∷ delete 2
    ∷ delete 0
    ∷ delete 7
    ∷ []

abbrev deleted_by : Option (Registry × List Bool) → Option (List Address)
deleted_by none = none
deleted_by (some (r, answers)) = some r.deleted

after_session : deleted_by (run shorter session no_interps) ≡ some (1 ∷ [])
unfolding run cpp_inter_op.Interpreters.Registry.History.step delete_interpreter
    activate_interpreter register_interpreter use_external_interpreter
after_session = refl

-- An interpreter cannot be adopted beside another one.
second_interp : run shorter (create 100 1 [] ∷ use_external 200 2 ∷ []) no_interps ≡ none
unfolding run cpp_inter_op.Interpreters.Registry.History.step register_interpreter
    use_external_interpreter
second_interp = refl

run_lem_example : Acts shorter true session (stack_of no_interps) (run shorter session no_interps)
run_lem_example = run_lem shorter session no_interps

run-known_example :
    (r' : Registry) × (answers : List Bool) × (run shorter session no_interps ≡ some (r', answers))
    × (deletions 1 r'.deleted + owners 1 (holdings r'.interps)
        ≡ deletions 1 [] + owners 1 [] + handed_over 1 session)
run-known_example = run-known shorter 1 session no_interps refl

-- Interpreter 1 has pending wrappers, interpreter 2 none.
abbrev slot : Address → Address → List (Address × Address) → InterpreterInfo
slot at i wrappers = record {
  address = at;
  holding = record { interpreter = i; is_owned = true; argv_storage = []; odr_use_counter = 0 };
  stores = record empty_stores { wrapper_store = wrappers };
}

abbrev two_interps : Registry
two_interps = record {
  interps = slot 100 1 ((11, 12) ∷ []) ∷ slot 200 2 [] ∷ [];
  consumers = (2, 200) ∷ (1, 100) ∷ [];
  deleted = [];
  skip_shut_down = false;
}

activate-place_example :
    (get_interpreter (activate_interpreter 1 two_interps).0 ≡ 1)
    × (place_of (get_interp_info 0 (activate_interpreter 1 two_interps).0)
        ≡ place_of (get_interp_info 0 two_interps))
    × ((activate_interpreter 1 two_interps).0.consumers ≡ two_interps.consumers)
activate-place_example = activate-place 1 two_interps refl refl

-- The wrappers of interpreter 1 are now found for interpreter 2.
wrappers_changed_hands :
    place_of (get_interp_info 2 (activate_interpreter 1 two_interps).0)
    ≡ some (100, record empty_stores { wrapper_store = (11, 12) ∷ [] })
unfolding get_interp_info activate_interpreter
wrappers_changed_hands = refl

-- An interpreter that is not registered has the place of the one in use.
unknown_interp : place_of (get_interp_info 9 two_interps) ≡ place_of (get_interp_info 0 two_interps)
unfolding get_interp_info
unknown_interp = refl
