-- ===== src/Interpreters/Registry/Calls.antt =====
-- Interpreters/Registry: one call against a plain list of interpreters.
use mathlib.Core.List.{append-nil}
use mathlib.Core.Path.{ap₂}
use cpp_inter_op.Common.{
  ℕ, ◌≡◌, refl, sym, ap, ◌∙◌, Bool, true, false, ◌&&◌, not, List, [], ◌∷◌, ◌++◌, Option, none, some,
  ◌==◌, if◌then◌else◌, arith, Bool-cases, inl, inr, is_empty,
}
use cpp_inter_op.Errors.Encoding.{Address}
use cpp_inter_op.Interpreters.Slots.{Holding, InterpreterInfo}
use cpp_inter_op.Interpreters.Registry.{
  Registry, delete_from, delete_interpreter, activate_from, activate_interpreter, last_interp,
  get_interpreter,
}
use cpp_inter_op.Interpreters.Registry.Order.{
  holdings, Stack, has_interp, to_end, drop_first, Command, create, use_external, activate, delete,
  stack_step, stack_of,
}
use cpp_inter_op.Interpreters.Registry.Searches.{
  delete_from-Deletes, Deletes, Activates, pop_back-holdings, activate_from-Activates,
}

-- Whether a call reports success; the calls that report nothing count as successes.
abbrev pub stack_answer : Command → Stack → Bool
stack_answer (create at i argv) s = true
stack_answer (use_external at i) s = true
stack_answer (activate i) s = not (i == 0) && has_interp i s.held
stack_answer (delete i) s = if i == 0 then not (is_empty s.held) else has_interp i s.held

abbrev pub stack_answers : List Command → Stack → List Bool
stack_answers [] s = []
stack_answers (c ∷ cs) s = stack_answer c s ∷ stack_answers cs (stack_step c s)

-- The interpreter that the calls without one use.
abbrev pub active : List Holding → Address
active [] = 0
active (h ∷ []) = h.interpreter
active (h ∷ k ∷ hs) = active (k ∷ hs)

-- How one call does what the list does.
abbrev pub Agrees : Command → Registry → Registry × Bool → Type 0
Agrees c r (r', done) =
    (stack_of r' ≡ stack_step c (stack_of r)) × (done ≡ stack_answer c (stack_of r))

drop_first-absent :
    (i : Address) (hs : List Holding) → has_interp i hs ≡ false → drop_first i hs ≡ (hs, [])
drop_first-absent i [] h = refl
drop_first-absent i (k ∷ hs) h = ground (arith, drop_first-absent i hs)

pub holdings-append :
    (xs : List InterpreterInfo) (x : InterpreterInfo)
    → holdings (xs ++ x ∷ []) ≡ holdings xs ++ x.holding ∷ []
holdings-append [] x = refl
holdings-append (y ∷ xs) x = ap (λ hs. y.holding ∷ hs) (holdings-append xs x)

abbrev pub stack : List Holding → List Address → Stack
stack hs gone = record { held = hs; gone = gone }

abbrev Gives : Stack → Bool → Registry × Bool → Type 0
Gives s answer (r', done) = (stack_of r' ≡ s) × (done ≡ answer)

activated :
    (i : Address) (r : Registry)
    → (o : Option (List InterpreterInfo × List Address)) → Activates i (holdings r.interps) o
    → Gives
        (stack (to_end i (holdings r.interps)) r.deleted)
        (has_interp i (holdings r.interps))
        (elim o [
          | none ↦ (r, false)
          | some (xs, deleted) ↦ (record r { interps = xs; deleted = r.deleted ++ deleted }, true)
        ])
activated i r none (has, same) = (ap (λ hs. stack hs r.deleted) (sym same), sym has)
activated i r (some (xs, deleted)) (has, order, gone) =
    (ap₂ stack order (ap (λ g. r.deleted ++ g) gone ∙ append-nil r.deleted), sym has)

pub activate-Agrees :
    (i : Address) (r : Registry) → Agrees (activate i) r (activate_interpreter i r)
unfolding activate_interpreter
activate-Agrees i r = elim (Bool-cases (i == 0)) [
  | inl z ↦ rw (activate_interpreter, z) (refl, refl)
  | inr nz ↦
      rw (activate_interpreter, nz)
        (activated i r (activate_from i r.interps) (activate_from-Activates i r.interps))
]

taken_out :
    (i : Address) (r : Registry)
    → (o : Option (List InterpreterInfo × List Address)) → Deletes [] i (holdings r.interps) o
    → Gives
        (stack
          (drop_first i (holdings r.interps)).0
          (r.deleted ++ (drop_first i (holdings r.interps)).1))
        (has_interp i (holdings r.interps))
        (elim o [
          | none ↦ (r, false)
          | some (rest, deleted) ↦
              (record r { interps = rest; deleted = r.deleted ++ deleted }, true)
        ])
taken_out i r none has = (
  sym (
      ap₂ stack (ap (λ d. d.0) (drop_first-absent i _ has))
        (ap (λ d. r.deleted ++ d.1) (drop_first-absent i _ has) ∙ append-nil r.deleted)),
  sym has,
)
taken_out i r (some (rest, deleted)) (has, order, gone) =
    (ap₂ stack order (ap (λ g. r.deleted ++ g) gone), sym has)

active-holdings :
    (xs : List InterpreterInfo)
    → active (holdings xs) ≡ elim (last_interp xs) [ none ↦ 0 | some x ↦ x.holding.interpreter ]
unfolding last_interp
active-holdings [] = refl
active-holdings (x ∷ []) = refl
active-holdings (x ∷ y ∷ ys) = active-holdings (y ∷ ys)

pub get_interpreter-active : (r : Registry) → get_interpreter r ≡ active (stack_of r).held
unfolding get_interpreter
get_interpreter-active r = sym (active-holdings r.interps)

module _ (front : ℕ → ℕ → Bool) where
  -- A registry without interpreters, and one with some.
  deleted_in :
      (i : Address) (xs : List InterpreterInfo) (consumers : List (Address × Address))
      (gone : List Address) (skip : Bool)
      → (let r : Registry = record {
        interps = xs;
        consumers = consumers;
        deleted = gone;
        skip_shut_down = skip;
      } in
          Agrees (delete i) r (delete_interpreter front i r))
  unfolding delete_interpreter delete_from
  deleted_in i [] consumers gone skip = elim (Bool-cases (i == 0)) [
    | inl z ↦ rw (z) (ap (stack []) (sym (append-nil gone)), refl)
    | inr nz ↦ rw (nz) (ap (stack []) (sym (append-nil gone)), refl)
  ]
  deleted_in i (x ∷ xs) consumers gone skip = elim (Bool-cases (i == 0)) [
    | inl z ↦
        let (order, more) = pop_back-holdings (x ∷ xs) in
        rw (z) (ap₂ stack order (ap (λ g. gone ++ g) more), refl)
    | inr nz ↦
        let r : Registry = record {
          interps = x ∷ xs;
          consumers = consumers;
          deleted = gone;
          skip_shut_down = skip;
        } in
        rw (nz) (
          taken_out i r (delete_from front i [] (x ∷ xs)) (delete_from-Deletes front i [] (x ∷ xs)))
  ]

  pub delete-Agrees :
      (i : Address) (r : Registry) → Agrees (delete i) r (delete_interpreter front i r)
  delete-Agrees i r = deleted_in i r.interps r.consumers r.deleted r.skip_shut_down
