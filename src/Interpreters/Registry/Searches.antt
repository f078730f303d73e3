-- ===== src/Interpreters/Registry/Searches.antt =====
-- Interpreters/Registry: what deleting and activating find and do to the list of what is held.
use cpp_inter_op.Common.{
  ℕ, ◌≡◌, refl, sym, ap, ◌∙◌, Bool, true, false, List, [], ◌∷◌, Option, none, some, ◌==◌,
  Bool-cases, inl, inr,
}
use cpp_inter_op.Errors.Encoding.{Address}
use cpp_inter_op.Interpreters.Slots.{Holding, InterpreterInfo, destroy}
use cpp_inter_op.Interpreters.Registry.{rev_append, delete_from, pop_back, activate_from}
use cpp_inter_op.Interpreters.Registry.Order.{
  holdings, has_interp, to_end, drop_first, drop_last, rotate-holdings, erase-holdings,
  drop_first-head, drop_first-tail, to_end-head, to_end-tail, has_interp-head, has_interp-tail,
}

-- What deleting finds, against the entry taken out of the list.
abbrev pub Deletes :
    List Holding → Address → List Holding → Option (List InterpreterInfo × List Address) → Type 0
Deletes before i hs none = has_interp i hs ≡ false
Deletes before i hs (some (rest, gone)) =
    (has_interp i hs ≡ true)
    × (holdings rest ≡ rev_append before (drop_first i hs).0)
    × (gone ≡ (drop_first i hs).1)

passed :
    (before : List InterpreterInfo) (i : Address) (x : InterpreterInfo)
    (after : List InterpreterInfo)
    → (x.holding.interpreter == i) ≡ false
    → (o : Option (List InterpreterInfo × List Address))
    → Deletes (holdings (x ∷ before)) i (holdings after) o
    → Deletes (holdings before) i (holdings (x ∷ after)) o
passed before i x after e none h = has_interp-tail i x.holding (holdings after) e ∙ h
passed before i x after e (some (rest, deleted)) (has, order, gone) =
    let tail = drop_first-tail i x.holding (holdings after) e in
    (
      has_interp-tail i x.holding (holdings after) e ∙ has,
      order ∙ ap (λ d. rev_append (holdings before) d.0) (sym tail),
      gone ∙ ap (λ d. d.1) (sym tail),
    )

pub delete_from-Deletes :
    (front : ℕ → ℕ → Bool) (i : Address) (before xs : List InterpreterInfo)
    → Deletes (holdings before) i (holdings xs) (delete_from front i before xs)
unfolding delete_from
delete_from-Deletes front i before [] = refl
delete_from-Deletes front i before (x ∷ after) = elim (Bool-cases (x.holding.interpreter == i)) [
  | inl e ↦
      let (order, gone) = erase-holdings front before x after in
      let head = drop_first-head i x.holding (holdings after) e in
      rw (delete_from, e)
        (
          has_interp-head i x.holding (holdings after) e,
          order ∙ ap (λ d. rev_append (holdings before) d.0) (sym head),
          gone ∙ ap (λ d. d.1) (sym head),
        )
  | inr e ↦
      rw (delete_from, e)
        (passed before i x after e _ (delete_from-Deletes front i (x ∷ before) after))
]

pub pop_back-holdings :
    (xs : List InterpreterInfo)
    → (holdings (pop_back xs).0 ≡ (drop_last (holdings xs)).0)
      × ((pop_back xs).1 ≡ (drop_last (holdings xs)).1)
unfolding pop_back destroy
pop_back-holdings [] = (refl, refl)
pop_back-holdings (x ∷ []) = (refl, refl)
pop_back-holdings (x ∷ y ∷ ys) =
    let (order, gone) = pop_back-holdings (y ∷ ys) in (ap (λ hs. x.holding ∷ hs) order, gone)

abbrev pub Activates :
    Address → List Holding → Option (List InterpreterInfo × List Address) → Type 0
Activates i hs none = (has_interp i hs ≡ false) × (to_end i hs ≡ hs)
Activates i hs (some (xs, gone)) =
    (has_interp i hs ≡ true) × (holdings xs ≡ to_end i hs) × (gone ≡ [])

deeper :
    (i : Address) (x : InterpreterInfo) (xs : List InterpreterInfo)
    → (x.holding.interpreter == i) ≡ false
    → (o : Option (List InterpreterInfo × List Address)) → Activates i (holdings xs) o
    → Activates i
        (holdings (x ∷ xs))
        (elim o [ none ↦ none | some (ys, deleted) ↦ some (x ∷ ys, deleted) ])
deeper i x xs e none (has, same) = (
  has_interp-tail i x.holding (holdings xs) e ∙ has,
  to_end-tail i x.holding (holdings xs) e ∙ ap (λ hs. x.holding ∷ hs) same,
)
deeper i x xs e (some (ys, deleted)) (has, order, gone) = (
  has_interp-tail i x.holding (holdings xs) e ∙ has,
  ap (λ hs. x.holding ∷ hs) order ∙ sym (to_end-tail i x.holding (holdings xs) e),
  gone,
)

pub activate_from-Activates :
    (i : Address) (xs : List InterpreterInfo) → Activates i (holdings xs) (activate_from i xs)
unfolding activate_from
activate_from-Activates i [] = (refl, refl)
activate_from-Activates i (x ∷ xs) =
    let rest = activate_from-Activates i xs in
    elim (Bool-cases (x.holding.interpreter == i)) [
      | inl e ↦
          let (order, gone) = rotate-holdings x xs in
          rw (activate_from, e)
            (
              has_interp-head i x.holding (holdings xs) e,
              order ∙ sym (to_end-head i x.holding (holdings xs) e),
              gone,
            )
      | inr e ↦ rw (activate_from, e) (deeper i x xs e (activate_from i xs) rest)
    ]
