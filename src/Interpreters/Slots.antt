-- ===== src/Interpreters/Slots.antt =====
-- lib/CppInterOp/InterpreterInfo.h: an element of the deque of interpreters, and how it is moved.
use cpp_inter_op.Common.{ℕ, Bool, false, List, [], ◌∷◌, if◌then◌else◌, Str}
use cpp_inter_op.Errors.Encoding.{Address}
use cpp_inter_op.Errors.Slices.{StoredDiagView}

-- The members that the constructor sets: `Interpreter`, `isOwned`, `ArgvStorage` and the counter
-- `OdrUseCounter`. 0 is the null pointer.
pub record Holding : Type 0 where
  pub interpreter : Address
  pub is_owned : Bool
  pub argv_storage : List Str
  pub odr_use_counter : ℕ

-- The members that the move operations leave out: the builtin types by name, the caches by AST
-- node, and the diagnostics.
pub record Stores : Type 0 where
  pub builtin_map : List (Str × ℕ)
  pub wrapper_store : List (Address × Address)
  pub dtor_wrapper_store : List (Address × Address)
  pub const_array_value_store : List (Address × ℕ)
  pub stored_diags : List StoredDiagView

-- An element of the deque at its address, which stays where it is while the element's value is moved.
pub record InterpreterInfo : Type 0 where
  pub address : Address
  pub holding : Holding
  pub stores : Stores

abbrev pub empty_stores : Stores
empty_stores = record {
  builtin_map = [];
  wrapper_store = [];
  dtor_wrapper_store = [];
  const_array_value_store = [];
  stored_diags = [];
}

-- InterpreterInfo(I, Owned, ArgvStrs), at an address.
unfoldable pub construct : Address → Address → Bool → List Str → InterpreterInfo
construct at i owned argv = record {
  address = at;
  holding = record { interpreter = i; is_owned = owned; argv_storage = argv; odr_use_counter = 0 };
  stores = empty_stores;
}

-- What a move leaves in its source.
abbrev pub moved_from : InterpreterInfo → InterpreterInfo
moved_from o = record o {
  holding = record {
    interpreter = 0;
    is_owned = false;
    argv_storage = [];
    odr_use_counter = o.holding.odr_use_counter;
  };
}

-- The move constructor, at an address: the new element and the source.
unfoldable pub move_construct : Address → InterpreterInfo → InterpreterInfo × InterpreterInfo
move_construct at o =
    (record { address = at; holding = o.holding; stores = empty_stores }, moved_from o)

-- The destructor: the interpreters it deletes.
unfoldable pub destroy : InterpreterInfo → List Address
destroy x = if x.holding.is_owned then x.holding.interpreter ∷ [] else []

-- The move assignment between two elements: the target, the source, and what is deleted.
unfoldable pub move_assign :
    InterpreterInfo → InterpreterInfo → InterpreterInfo × InterpreterInfo × List Address
move_assign self o = (
  record self { holding = o.holding },
  moved_from o,
  if self.holding.is_owned then self.holding.interpreter ∷ [] else [],
)
