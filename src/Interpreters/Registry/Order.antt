-- ===== src/Interpreters/Registry/Order.antt =====
-- Interpreters/Registry: the registered interpreters in the order of their activation.
use mathlib.Core.List.{append-nil}
use cpp_inter_op.Common.{
  ℕ, ◌≡◌, refl, ap, ◌∙◌, Bool, true, false, ◌||◌, ◌&&◌, is_empty, List, [], ◌∷◌, ◌++◌, map, ◌==◌,
  if◌then◌else◌, Str, arith, Bool-cases, inl, inr, length,
}
use cpp_inter_op.Errors.Encoding.{Address}
use cpp_inter_op.Interpreters.Slots.{
  Holding, InterpreterInfo, move_assign, move_construct, destroy, moved_from,
}
use cpp_inter_op.Interpreters.Registry.{Registry, swap, rotate, shift_back, rev_append, erase}

abbrev pub holdings : List InterpreterInfo → List Holding
holdings xs = map (λ (x : InterpreterInfo). x.holding) xs

-- The abstract registry: a list of what is held, the active interpreter last, and the
-- interpreters deleted so far.
pub record Stack : Type 0 where
  pub held : List Holding
  pub gone : List Address

abbrev pub has_interp : Address → List Holding → Bool
has_interp i [] = false
has_interp i (h ∷ hs) = (h.interpreter == i) || has_interp i hs

-- The first entry of an interpreter goes to the end.
abbrev pub to_end : Address → List Holding → List Holding
to_end i [] = []
to_end i (h ∷ hs) = let rest = to_end i hs in if h.interpreter == i then hs ++ h ∷ [] else h ∷ rest

abbrev pub freed : Holding → List Address
freed h = if h.is_owned then h.interpreter ∷ [] else []

-- The list without the first entry of an interpreter, and what goes with it.
abbrev pub drop_first : Address → List Holding → List Holding × List Address
drop_first i [] = ([], [])
drop_first i (h ∷ hs) =
    let rest = drop_first i hs in if h.interpreter == i then (hs, freed h) else (h ∷ rest.0, rest.1)

abbrev pub drop_last : List Holding → List Holding × List Address
drop_last [] = ([], [])
drop_last (h ∷ []) = ([], freed h)
drop_last (h ∷ k ∷ hs) = (h ∷ (drop_last (k ∷ hs)).0, (drop_last (k ∷ hs)).1)

-- The calls that change the registry.
pub data Command : Type 0 where
  create : Address → Address → List Str → Command
  use_external : Address → Address → Command
  activate delete : Address → Command

abbrev pub held_new : Address → Bool → List Str → Holding
held_new i owned argv = record {
  interpreter = i;
  is_owned = owned;
  argv_storage = argv;
  odr_use_counter = 0;
}

abbrev pub stack_step : Command → Stack → Stack
stack_step (create at i argv) s = record s { held = s.held ++ held_new i true argv ∷ [] }
stack_step (use_external at i) s = record s { held = s.held ++ held_new i false [] ∷ [] }
stack_step (activate i) s = record s { held = if i == 0 then s.held else to_end i s.held }
stack_step (delete i) s =
    let out = if i == 0 then drop_last s.held else drop_first i s.held in
    record { held = out.0; gone = s.gone ++ out.1 }

abbrev pub stack_run : List Command → Stack → Stack
stack_run [] s = s
stack_run (c ∷ cs) s = stack_run cs (stack_step c s)

-- An interpreter is adopted only where there is none.
abbrev pub is_allowed : Command → List Holding → Bool
is_allowed (create at i argv) hs = true
is_allowed (use_external at i) hs = is_empty hs
is_allowed (activate i) hs = true
is_allowed (delete i) hs = true

abbrev pub are_allowed : List Command → Stack → Bool
are_allowed [] s = true
are_allowed (c ∷ cs) s = is_allowed c s.held && are_allowed cs (stack_step c s)

-- The view of a registry.
abbrev pub stack_of : Registry → Stack
stack_of r = record { held = holdings r.interps; gone = r.deleted }

pub rotate-holdings :
    (x : InterpreterInfo) (xs : List InterpreterInfo)
    → (holdings (rotate x xs).0 ≡ holdings xs ++ x.holding ∷ []) × ((rotate x xs).1 ≡ [])
unfolding rotate swap move_construct move_assign destroy
rotate-holdings x [] = (refl, refl)
rotate-holdings x (y ∷ ys) =
    let (order, none_gone) = rotate-holdings (record y { holding = x.holding }) ys in
    (ap (λ hs. y.holding ∷ hs) order, none_gone)

shift_back-holdings :
    (x : InterpreterInfo) (xs : List InterpreterInfo)
    → (holdings (shift_back x xs).0 ≡ holdings xs) × ((shift_back x xs).1 ≡ freed x.holding)
unfolding shift_back move_assign destroy
shift_back-holdings x [] = (refl, refl)
shift_back-holdings x (y ∷ ys) =
    let (order, gone) = shift_back-holdings (moved_from y) ys in
    (
      ap (λ hs. y.holding ∷ hs) order,
      ap (λ g. freed x.holding ++ g) gone ∙ append-nil (freed x.holding),
    )

rev_append-holdings :
    (xs ys : List InterpreterInfo)
    → holdings (rev_append xs ys) ≡ rev_append (holdings xs) (holdings ys)
rev_append-holdings [] ys = refl
rev_append-holdings (x ∷ xs) ys = rev_append-holdings xs (x ∷ ys)

-- Whichever side is moved, an erasure takes one entry out.
pub erase-holdings :
    (front : ℕ → ℕ → Bool) (before : List InterpreterInfo) (x : InterpreterInfo)
    (after : List InterpreterInfo)
    → (holdings (erase front before x after).0 ≡ rev_append (holdings before) (holdings after))
      × ((erase front before x after).1 ≡ freed x.holding)
unfolding erase
erase-holdings front before x after = elim (Bool-cases (front (length before) (length after))) [
  | inl e ↦
      let (order, gone) = shift_back-holdings x before in
      rw (erase, e)
        (
          rev_append-holdings (shift_back x before).0 after
              ∙ ap (λ hs. rev_append hs (holdings after)) order,
          gone,
        )
  | inr e ↦
      let (order, gone) = shift_back-holdings x after in
      rw (erase, e)
        (
          rev_append-holdings before (shift_back x after).0
              ∙ ap (rev_append (holdings before)) order,
          gone,
        )
]

module _ (i : Address) (h : Holding) (hs : List Holding) where
  pub drop_first-head : (h.interpreter == i) ≡ true → drop_first i (h ∷ hs) ≡ (hs, freed h)
  drop_first-head e = ground (arith, e)

  pub drop_first-tail :
      (h.interpreter == i) ≡ false
      → drop_first i (h ∷ hs) ≡ (h ∷ (drop_first i hs).0, (drop_first i hs).1)
  drop_first-tail e = ground (arith, e)

  pub to_end-head : (h.interpreter == i) ≡ true → to_end i (h ∷ hs) ≡ hs ++ h ∷ []
  to_end-head e = ground (arith, e)

  pub to_end-tail : (h.interpreter == i) ≡ false → to_end i (h ∷ hs) ≡ h ∷ to_end i hs
  to_end-tail e = ground (arith, e)

  pub has_interp-head : (h.interpreter == i) ≡ true → has_interp i (h ∷ hs) ≡ true
  has_interp-head e = ground (arith, e)

  pub has_interp-tail : (h.interpreter == i) ≡ false → has_interp i (h ∷ hs) ≡ has_interp i hs
  has_interp-tail e = ground (arith, e)
