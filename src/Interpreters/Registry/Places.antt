-- ===== src/Interpreters/Registry/Places.antt =====
-- Interpreters/Registry: what an activation leaves where it is.
use cpp_inter_op.Common.{
  ◌≡◌, refl, sym, ap, ◌∙◌, Bool, true, false, List, [], ◌∷◌, ◌++◌, map, Option, none, some, ◌==◌,
  arith, Bool-cases, inl, inr,
}
use cpp_inter_op.Errors.Encoding.{Address}
use cpp_inter_op.Interpreters.Slots.{
  Holding, Stores, InterpreterInfo, move_construct, move_assign, destroy,
}
use cpp_inter_op.Interpreters.Registry.{
  Registry, swap, rotate, activate_from, activate_interpreter, last_interp, get_interpreter,
  get_interp_info,
}
use cpp_inter_op.Interpreters.Registry.Order.{
  holdings, has_interp, to_end, Stack, has_interp-tail, to_end-head, to_end-tail,
}
use cpp_inter_op.Interpreters.Registry.Calls.{active, activate-Agrees, get_interpreter-active}

-- The address of an element and the members that are not moved.
abbrev pub Place : Type 0
Place = Address × Stores

abbrev pub place : InterpreterInfo → Place
place x = (x.address, x.stores)

rotate-place :
    (x : InterpreterInfo) (xs : List InterpreterInfo)
    → map place (rotate x xs).0 ≡ map place (x ∷ xs)
unfolding rotate swap move_construct move_assign destroy
rotate-place x [] = refl
rotate-place x (y ∷ ys) =
    ap (λ ps. place x ∷ ps) (rotate-place (record y { holding = x.holding }) ys)

-- The same places in the same order, if there is a result.
abbrev Stays : List InterpreterInfo → Option (List InterpreterInfo × List Address) → Type 0
Stays xs none = map place xs ≡ map place xs
Stays xs (some (ys, deleted)) = map place ys ≡ map place xs

further :
    (x : InterpreterInfo) (xs : List InterpreterInfo)
    (o : Option (List InterpreterInfo × List Address))
    → Stays xs o
    → Stays (x ∷ xs) (elim o [ none ↦ none | some (ys, deleted) ↦ some (x ∷ ys, deleted) ])
further x xs none h = refl
further x xs (some (ys, deleted)) h = ap (λ ps. place x ∷ ps) h

activate_from-Stays : (i : Address) (xs : List InterpreterInfo) → Stays xs (activate_from i xs)
unfolding activate_from
activate_from-Stays i [] = refl
activate_from-Stays i (x ∷ xs) =
    let rest = activate_from-Stays i xs in
    elim (Bool-cases (x.holding.interpreter == i)) [
      | inl e ↦ rw (activate_from, e) (rotate-place x xs)
      | inr e ↦ rw (activate_from, e) (further x xs (activate_from i xs) rest)
    ]

-- The places and the consumers.
abbrev pub Kept : Registry → Registry → Type 0
Kept r r' = (map place r'.interps ≡ map place r.interps) × (r'.consumers ≡ r.consumers)

abbrev settled : Registry → Option (List InterpreterInfo × List Address) → Registry × Bool
settled r none = (r, false)
settled r (some (xs, deleted)) = (record r { interps = xs; deleted = r.deleted ++ deleted }, true)

found_or_not :
    (r : Registry) (o : Option (List InterpreterInfo × List Address))
    → Stays r.interps o
    → Kept r (settled r o).0
found_or_not r none h = (refl, refl)
found_or_not r (some (xs, deleted)) h = (h, refl)

activate-Kept : (i : Address) (r : Registry) → Kept r (activate_interpreter i r).0
unfolding activate_interpreter
activate-Kept i r = elim (Bool-cases (i == 0)) [
  | inl z ↦ rw (activate_interpreter, z) (refl, refl)
  | inr nz ↦
      rw (activate_interpreter, nz)
        (found_or_not r (activate_from i r.interps) (activate_from-Stays i r.interps))
]

-- The place of the last element.
abbrev pub place_of : Option InterpreterInfo → Option Place
place_of none = none
place_of (some x) = some (place x)

abbrev last_place : List Place → Option Place
last_place [] = none
last_place (p ∷ []) = some p
last_place (p ∷ q ∷ ps) = last_place (q ∷ ps)

last_interp-place :
    (xs : List InterpreterInfo) → place_of (last_interp xs) ≡ last_place (map place xs)
unfolding last_interp
last_interp-place [] = refl
last_interp-place (x ∷ []) = refl
last_interp-place (x ∷ y ∷ ys) = last_interp-place (y ∷ ys)

active-last : (hs : List Holding) (h : Holding) → active (hs ++ h ∷ []) ≡ h.interpreter
active-last [] h = refl
active-last (k ∷ []) h = refl
active-last (k ∷ l ∷ hs) h = active-last (l ∷ hs) h

active-behind :
    (i : Address) (k : Holding) (hs : List Holding)
    → (i == 0) ≡ false
    → active hs ≡ i
    → active (k ∷ hs) ≡ i
active-behind i k [] nz e = ground (arith, nz, e)
active-behind i k (l ∷ hs) nz e = e

active-to_end :
    (i : Address) (hs : List Holding)
    → (i == 0) ≡ false
    → has_interp i hs ≡ true
    → active (to_end i hs) ≡ i
active-to_end i [] nz h = cc
active-to_end i (k ∷ hs) nz h = elim (Bool-cases (k.interpreter == i)) [
  | inl e ↦ ap active (to_end-head i k hs e) ∙ active-last hs k ∙ ground (arith, e)
  | inr e ↦
      ap active (to_end-tail i k hs e)
      ∙ active-behind i k (to_end i hs) nz
          (active-to_end i hs nz (sym (has_interp-tail i k hs e) ∙ h))
]

null_info-place : (r : Registry) → place_of (get_interp_info 0 r) ≡ last_place (map place r.interps)
unfolding get_interp_info
null_info-place r = last_interp-place r.interps

-- Activating a registered interpreter makes it the one in use and moves neither the addresses nor the
-- caches and diagnostics with it: what GetInterpInfo finds for the interpreter in use is still the
-- place, caches and diagnostics included, of the interpreter that was in use before, and the
-- installed diagnostic consumers point where they did.
pub activate-place :
    (i : Address) (r : Registry)
    → (i == 0) ≡ false
    → has_interp i (holdings r.interps) ≡ true
    → (let after = (activate_interpreter i r).0 in
        (get_interpreter after ≡ i)
        × (place_of (get_interp_info 0 after) ≡ place_of (get_interp_info 0 r))
        × (after.consumers ≡ r.consumers))
activate-place i r nz has =
    let (places, consumers) = activate-Kept i r in
    let after = (activate_interpreter i r).0 in
    let order = ap (λ (s : Stack). active s.held) (activate-Agrees i r).0 in
    (
      get_interpreter-active after ∙ order ∙ rw (nz) (active-to_end i (holdings r.interps) nz has),
      null_info-place after ∙ ap last_place places ∙ sym (null_info-place r),
      consumers,
    )
