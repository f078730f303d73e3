-- ===== src/Symbols/RealPath/Entries.antt =====
-- Symbols/RealPath: the entries of a cache.
use cpp_inter_op.Common.{
  ◌≡◌, refl, List, [], ◌∷◌, ◌++◌, Option, none, some, Str, str_eq, str_eq_refl, arith, Bool-cases,
  Option-cases, inl, inr,
}
use cpp_inter_op.Symbols.RealPath.{find_entry, insert_entry}

module _ {ℓ} {A : Type ℓ} where
  find_entry-append :
      (key : Str) (es : List (Str × A)) (k : Str) (v w : A)
      → find_entry k es ≡ some v
      → find_entry k (es ++ (key, w) ∷ []) ≡ some v
  unfolding find_entry
  find_entry-append key [] k v w e = absurd (ground (arith, e))
  find_entry-append key (x ∷ es) k v w e = elim (Bool-cases (str_eq x.0 k)) [
    | inl same ↦ ground (arith, same, e)
    | inr other ↦ ground (arith, other, e, find_entry-append key es k v w)
  ]

  -- An entry that is there stays.
  pub find_entry-insert_entry :
      (key : Str) (w : A) (es : List (Str × A)) (k : Str) (v : A)
      → find_entry k es ≡ some v
      → find_entry k (insert_entry key w es) ≡ some v
  unfolding insert_entry
  find_entry-insert_entry key w es k v e = elim (Option-cases (find_entry key es)) [
    | inl new ↦ rw (insert_entry, new) (find_entry-append key es k v w e)
    | inr (x, old) ↦ rw (insert_entry, old) e
  ]

  find_entry-last :
      (key : Str) (es : List (Str × A)) (w : A)
      → find_entry key es ≡ none
      → find_entry key (es ++ (key, w) ∷ []) ≡ some w
  unfolding find_entry
  find_entry-last key [] w e = rw (str_eq_refl key) refl
  find_entry-last key (x ∷ es) w e = elim (Bool-cases (str_eq x.0 key)) [
    | inl same ↦ absurd (ground (arith, same, e))
    | inr other ↦ ground (arith, other, e, find_entry-last key es w)
  ]

  -- There is an entry after an insertion.
  pub insert_entry-there :
      (key : Str) (w : A) (es : List (Str × A))
      → (v : A) × (find_entry key (insert_entry key w es) ≡ some v)
  unfolding insert_entry
  insert_entry-there key w es = elim (Option-cases (find_entry key es)) [
    | inl new ↦ (w, rw (insert_entry, new) (find_entry-last key es w new))
    | inr (x, old) ↦ (x, rw (insert_entry, old) old)
  ]

-- Every entry is what a function tells.
abbrev pub IsTable : {A : Type 0} → (Str → Option A) → List (Str × A) → Type 0
IsTable f [] = Unit
IsTable f (e ∷ es) = (f e.0 ≡ some e.1) × IsTable f es

IsTable-append :
    {A : Type 0} (f : Str → Option A) (key : Str) (w : A) (es : List (Str × A))
    → f key ≡ some w
    → IsTable f es
    → IsTable f (es ++ (key, w) ∷ [])
IsTable-append f key w [] e t = (e, tt)
IsTable-append f key w (x ∷ es) e t = (t.0, IsTable-append f key w es e t.1)

pub IsTable-insert_entry :
    {A : Type 0} (f : Str → Option A) (key : Str) (w : A) (es : List (Str × A))
    → f key ≡ some w
    → IsTable f es
    → IsTable f (insert_entry key w es)
unfolding insert_entry
IsTable-insert_entry f key w es e t = elim (Option-cases (find_entry key es)) [
  | inl new ↦ rw (insert_entry, new) (IsTable-append f key w es e t)
  | inr (x, old) ↦ rw (insert_entry, old) t
]
