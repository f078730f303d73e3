-- ===== src/Tracing/Output/Comments.antt =====
-- Tracing/Output: the comments that hold the version and the build's description.
use mathlib.Core.Path.{subst}
use cpp_inter_op.Common.{
  ℕ, zero, suc, ◌<◌, ◌≡◌, ◌≢◌, refl, sym, ap, ◌∙◌, false, List, [], ◌∷◌, ◌++◌, ◌⊎◌, inl, inr,
  if◌then◌else◌, ◌==◌, Str, codes, is_empty, length, length-append, arith, Bool-cases,
  both-branches,
}
use cpp_inter_op.Paths.Split.Pieces.{Absent, IsSplit, AllAbsent}
use cpp_inter_op.Tracing.Output.{commented, version_comment}

abbrev pub add_first : ℕ → List Str → List Str
add_first c [] = (c ∷ []) ∷ []
add_first c (l ∷ ls) = (c ∷ l) ∷ ls

-- The lines of a text, the last one without its end.
abbrev pub split_lines : Str → List Str
split_lines [] = [] ∷ []
split_lines (c ∷ s) = let rest = split_lines s in if c == 10 then [] ∷ rest else add_first c rest

-- The lines that are not empty, behind what starts a comment.
abbrev pub behind_start : Str → List Str → List Str
behind_start start [] = []
behind_start start (l ∷ ls) =
    let later = behind_start start ls in if is_empty l then later else (start ++ l) ∷ later

-- The first line of a text.
abbrev Cut : Str → Type 0
Cut s = Absent 10 s ⊎ ((p : Str) × (rest : Str) × Absent 10 p × (s ≡ p ++ 10 ∷ rest))

cut : (s : Str) → Cut s
cut [] = inl tt
cut (c ∷ s) = elim (Bool-cases (c == 10)) [
  | inl e ↦ inr ([], s, tt, ap (λ d. d ∷ s) (ground (arith, e)))
  | inr ne ↦ elim (cut s) [
    | inl a ↦ inl (ground (arith, ne), a)
    | inr (p, rest, a, e) ↦ inr (c ∷ p, rest, (ground (arith, ne), a), ap (λ t. c ∷ t) e)
  ]
]

not_end : (c : ℕ) → c ≢ 10 → (c == 10) ≡ false
not_end c h = ground (arith, h)

split_lines-Absent : (p : Str) → Absent 10 p → split_lines p ≡ p ∷ []
split_lines-Absent [] a = refl
split_lines-Absent (c ∷ p) (h, a) = rw (not_end c h) (ap (add_first c) (split_lines-Absent p a))

split_lines-append :
    (p rest : Str) → Absent 10 p → split_lines (p ++ 10 ∷ rest) ≡ p ∷ split_lines rest
split_lines-append [] rest a = refl
split_lines-append (c ∷ p) rest (h, a) =
    rw (not_end c h) (ap (add_first c) (split_lines-append p rest a))

add_first-AllAbsent :
    (c : ℕ) (ls : List Str) → c ≢ 10 → AllAbsent 10 ls → AllAbsent 10 (add_first c ls)
add_first-AllAbsent c [] h a = ((h, tt), tt)
add_first-AllAbsent c (l ∷ ls) h (b, a) = ((h, b), a)

split_lines-AllAbsent : (s : Str) → AllAbsent 10 (split_lines s)
split_lines-AllAbsent [] = (tt, tt)
split_lines-AllAbsent (c ∷ s) = elim (Bool-cases (c == 10)) [
  | inl e ↦ rw (e) (tt, split_lines-AllAbsent s)
  | inr ne ↦
      rw (ne) (add_first-AllAbsent c (split_lines s) (ground (arith, ne)) (split_lines-AllAbsent s))
]

Absent-append : (p q : Str) → Absent 10 p → Absent 10 q → Absent 10 (p ++ q)
Absent-append [] q a b = b
Absent-append (c ∷ p) q (h, a) b = (h, Absent-append p q a b)

behind_start-AllAbsent :
    (start : Str) (ls : List Str)
    → Absent 10 start
    → AllAbsent 10 ls
    → AllAbsent 10 (behind_start start ls)
behind_start-AllAbsent start [] a b = tt
behind_start-AllAbsent start (l ∷ ls) a (h, b) =
    both-branches (AllAbsent 10) (is_empty l) _ _ (behind_start-AllAbsent start ls a b)
      (Absent-append start l a h, behind_start-AllAbsent start ls a b)

module _ (split : Str → Str → Str × Str) (laws : IsSplit split) (start : Str) where
  commented-empty : (fuel : ℕ) → commented split start fuel [] ≡ []
  unfolding commented
  commented-empty zero = refl
  commented-empty (suc fuel) = refl

  -- One round on a text that is not empty.
  commented-round :
      (fuel : ℕ) (s line rest : Str)
      → is_empty s ≡ false
      → split s (10 ∷ []) ≡ (line, rest)
      → (let later = commented split start fuel rest in
          commented split start (suc fuel) s
          ≡ (if is_empty line then later else (start ++ line) ∷ later))
  unfolding commented
  commented-round fuel s line rest full e = rw (full, e) refl

  commented-lines :
      (fuel : ℕ) (s : Str)
      → length s < fuel
      → commented split start fuel s ≡ behind_start start (split_lines s)
  commented-lines zero s h = absurd (omega arith)
  commented-lines (suc fuel) [] h = commented-empty (suc fuel)
  commented-lines (suc fuel) (c ∷ s) h = elim (cut (c ∷ s)) [
    | inl a ↦
        commented-round fuel (c ∷ s) (c ∷ s) [] refl (laws.absent 10 (c ∷ s) a)
        ∙ ap (λ ls. (start ++ c ∷ s) ∷ ls) (commented-empty fuel)
        ∙ ap (behind_start start) (sym (split_lines-Absent (c ∷ s) a))
    | inr (p, rest, a, e) ↦
        let longer = length-append p (10 ∷ rest) in
        let same = ap (length {A = ℕ}) e in
        commented-round fuel (c ∷ s) p rest refl
          (ap (λ t. split t (10 ∷ [])) e ∙ laws.at_first 10 p rest a)
        ∙ ap (λ later. if is_empty p then later else (start ++ p) ∷ later)
            (commented-lines fuel rest (omega (arith, h, longer, same)))
        ∙ ap (behind_start start) (sym (ap split_lines e ∙ split_lines-append p rest a))
  ]

-- A version of any number of lines is written as comments: the lines that are not empty, all of them
-- and in order, each behind its own slashes and on a line of its own.
pub version_comment-AllAbsent :
    (split : Str → Str → Str × Str) (laws : IsSplit split) (version : Str)
    → (version_comment split version ≡ behind_start (codes "// ") (split_lines version))
      × AllAbsent 10 (version_comment split version)
unfolding version_comment
version_comment-AllAbsent split laws version =
    let e = commented-lines split laws (codes "// ") (suc (length version)) version (omega arith) in
    (
      e,
      subst (AllAbsent 10) (sym e) (
          behind_start-AllAbsent (codes "// ") (split_lines version)
            (slashes, (slashes, (space, tt))) (split_lines-AllAbsent version)),
    )
  where
    slashes : ◌≢◌ {A = ℕ} 47 10
    slashes = ground arith

    space : ◌≢◌ {A = ℕ} 32 10
    space = ground arith
