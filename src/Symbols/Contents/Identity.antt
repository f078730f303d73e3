-- ===== src/Symbols/Contents/Identity.antt =====
-- Symbols/Contents: a query leaves a library what it is.
use mathlib.Core.Path.{subst}
use cpp_inter_op.Common.{
  ℕ, ◌%◌, ◌^◌, ◌≡◌, refl, ◌∙◌, Bool, List, [], ◌∷◌, Option, none, some, ◌==◌, if◌then◌else◌, Str,
  length, Bool-cases, Option-cases, inl, inr, both-branches,
}
use cpp_inter_op.Symbols.Filter.{
  gnu_hash, LibraryPath, has_bloom_filter, may_exist_symbol, add_symbol, add_bloom, add_hash,
  initialize_bloom_filter,
}
use cpp_inter_op.Symbols.Registry.{Pointer, address}
use cpp_inter_op.Symbols.Contents.{
  ObjectFile, Settings, elf_filter, symbol_names, add_each, build_bloom_filter, filtered,
  contains_symbol,
}

-- A result is about the library of a pointer.
abbrev IsAt : Pointer → Option LibraryPath → Type 0
IsAt p none = Unit
IsAt p (some l) = address l ≡ p

abbrev AnswersAt : Pointer → Option (Bool × LibraryPath) → Type 0
AnswersAt p none = Unit
AnswersAt p (some (b, l)) = address l ≡ p

add_bloom-IsAt : (s : Str) (l : LibraryPath) → IsAt (address l) (add_bloom s l)
unfolding add_bloom
add_bloom-IsAt s l = elim (Option-cases (add_hash (gnu_hash s) l.filter)) [
  | inl e ↦ rw (add_bloom, e) tt
  | inr (f, e) ↦ rw (add_bloom, e) refl
]

add_symbol-address : (s : Str) (l : LibraryPath) → address (add_symbol s l) ≡ address l
unfolding add_symbol
add_symbol-address s l = refl

module _ (cfg : Settings) where
  -- The library that the next step of the loop starts with.
  hashed_address :
      (s : Str) (l : LibraryPath)
      → address (if cfg.use_hash_table then add_symbol s l else l) ≡ address l
  hashed_address s l =
      both-branches (λ k. address k ≡ address l) cfg.use_hash_table _ _ (add_symbol-address s l)
        refl

  add_each-IsAt :
      (p : Pointer) (names : List Str) (l : LibraryPath)
      → address l ≡ p
      → IsAt p (add_each cfg names l)
  unfolding add_each
  add_each-IsAt p [] l e = e
  add_each-IsAt p (s ∷ names) l e =
      let l1 : LibraryPath = if cfg.use_hash_table then add_symbol s l else l in
      elim (Option-cases (add_bloom s l1)) [
        | inl run ↦ rw (add_each, run) tt
        | inr (l2, run) ↦
            let e2 : address l2 ≡ address l1 =
              subst (IsAt (address l1)) run (add_bloom-IsAt s l1) in
            rw (add_each, run) (add_each-IsAt p names l2 (e2 ∙ hashed_address s l ∙ e))
      ]

  build_bloom_filter-IsAt :
      (l : LibraryPath) (file : ObjectFile) (ignore : ℕ)
      → IsAt (address l) (build_bloom_filter cfg l file ignore)
  unfolding build_bloom_filter initialize_bloom_filter
  build_bloom_filter-IsAt l file ignore =
      both-branches (IsAt (address l)) (length (symbol_names cfg file ignore) % 2 ^ 32 == 0) _ _
        refl (add_each-IsAt (address l) (symbol_names cfg file ignore) _ refl)

  filter_of-IsAt :
      (l : LibraryPath) (file : ObjectFile) (ignore : ℕ)
      → IsAt
          (address l)
          (if has_bloom_filter l then some l else build_bloom_filter cfg l file ignore)
  filter_of-IsAt l file ignore =
      both-branches (IsAt (address l)) (has_bloom_filter l) _ _ refl
        (build_bloom_filter-IsAt l file ignore)

  filtered-AnswersAt :
      (l : LibraryPath) (file : ObjectFile) (q : Str) (ignore : ℕ)
      → AnswersAt (address l) (filtered cfg l file q ignore)
  unfolding filtered
  filtered-AnswersAt l file q ignore =
      elim (Option-cases
        (if has_bloom_filter l then some l else build_bloom_filter cfg l file ignore)) [
          | inl run ↦ rw (filtered, run) tt
          | inr (built, run) ↦
              let e : address built ≡ address l =
                subst (IsAt (address l)) run (filter_of-IsAt l file ignore) in
              elim (Option-cases (may_exist_symbol (gnu_hash q) built)) [
                | inl asked ↦ rw (filtered, run, asked) tt
                | inr (b, asked) ↦ elim (Bool-cases b) [
                  | inl may ↦ rw (filtered, run, asked, may) e
                  | inr not_there ↦ rw (filtered, run, asked, not_there) e
                ]
              ]
        ]

  contains_symbol-AnswersAt :
      (l : LibraryPath) (o : Option ObjectFile) (q : Str) (ignore : ℕ)
      → AnswersAt (address l) (contains_symbol cfg l o q ignore)
  unfolding contains_symbol
  contains_symbol-AnswersAt l none q ignore = refl
  contains_symbol-AnswersAt l (some file) q ignore =
      elim (Option-cases (elf_filter file (gnu_hash q))) [
        | inl e ↦ rw (contains_symbol, e) tt
        | inr (b, e) ↦ elim (Bool-cases b) [
          | inl may ↦
              rw (contains_symbol, e, may)
                (both-branches (AnswersAt (address l)) cfg.use_bloom_filter _ _
                  (filtered-AnswersAt l file q ignore) refl)
          | inr ruled ↦ rw (contains_symbol, e, ruled) refl
        ]
      ]

  -- A query of a library leaves its path and its name.
  pub contains_symbol-address :
      (l l' : LibraryPath) (o : Option ObjectFile) (q : Str) (ignore : ℕ) (b : Bool)
      → contains_symbol cfg l o q ignore ≡ some (b, l')
      → address l' ≡ address l
  contains_symbol-address l l' o q ignore b run =
      subst (AnswersAt (address l)) run (contains_symbol-AnswersAt l o q ignore)
