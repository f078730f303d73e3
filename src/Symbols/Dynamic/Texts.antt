-- ===== src/Symbols/Dynamic/Texts.antt =====
-- Symbols/Dynamic: the texts of a string table and their pieces.
use cpp_inter_op.Common.{
  ℕ, suc, ◌≤◌, ◌≡◌, ◌≢◌, refl, sym, ap, ◌∙◌, Bool, true, false, List, [], ◌∷◌, ◌==◌, ==_iff,
  if◌then◌else◌, Str, length, is_empty, arith,
}
use cpp_inter_op.Paths.Split.{allow_non_existent}
use cpp_inter_op.Paths.Split.Pieces.{AllAbsent, join, kept}
use cpp_inter_op.Symbols.Dynamic.{until_zero}

-- The pieces of a text between the occurrences of a character, the first one apart.
abbrev pub add_char : Bool → ℕ → Str × List Str → Str × List Str
add_char true c (p, ps) = ([], p ∷ ps)
add_char false c (p, ps) = (c ∷ p, ps)

abbrev pub pieces : ℕ → Str → Str × List Str
pieces d [] = ([], [])
pieces d (c ∷ s) = add_char (c == d) c (pieces d s)

abbrev pub nonempty : List Str → List Str
nonempty [] = []
nonempty (p ∷ ps) = let rest = nonempty ps in if is_empty p then rest else p ∷ rest

join-add_char :
    (b : Bool) (d c : ℕ) (p : Str) (ps : List Str)
    → (b ≡ true → c ≡ d)
    → join d (add_char b c (p, ps)).0 (add_char b c (p, ps)).1 ≡ c ∷ join d p ps
join-add_char true d c p ps e = ap (λ x. x ∷ join d p ps) (sym (e refl))
join-add_char false d c p [] e = refl
join-add_char false d c p (q ∷ ps) e = refl

pub join-pieces : (d : ℕ) (s : Str) → join d (pieces d s).0 (pieces d s).1 ≡ s
join-pieces d [] = refl
join-pieces d (c ∷ s) =
    join-add_char (c == d) d c (pieces d s).0 (pieces d s).1 (==_iff c d).0
    ∙ ap (λ r. c ∷ r) (join-pieces d s)

AllAbsent-add_char :
    (b : Bool) (d c : ℕ) (p : Str) (ps : List Str)
    → (b ≡ false → c ≢ d)
    → AllAbsent d (p ∷ ps)
    → AllAbsent d ((add_char b c (p, ps)).0 ∷ (add_char b c (p, ps)).1)
AllAbsent-add_char true d c p ps e h = ground (arith, h)
AllAbsent-add_char false d c p ps e (absent, others) = ((e refl, absent), others)

pub AllAbsent-pieces : (d : ℕ) (s : Str) → AllAbsent d ((pieces d s).0 ∷ (pieces d s).1)
AllAbsent-pieces d [] = ground arith
AllAbsent-pieces d (c ∷ s) =
    AllAbsent-add_char (c == d) d c (pieces d s).0 (pieces d s).1
      (λ e z. absurd (ground (arith, e, z))) (AllAbsent-pieces d s)

length-add_char :
    (b : Bool) (c : ℕ) (p : Str) (ps : List Str) → length (add_char b c (p, ps)).1 ≤ suc (length ps)
length-add_char true c p ps = omega arith
length-add_char false c p ps = omega arith

pub length-pieces : (d : ℕ) (s : Str) → length (pieces d s).1 ≤ length s
length-pieces d [] = omega arith
length-pieces d (c ∷ s) =
    omega (arith, length-add_char (c == d) c (pieces d s).0 (pieces d s).1, length-pieces d s)

pub kept-allow :
    (exists : Str → Bool) (ps : List Str) → kept exists allow_non_existent ps ≡ nonempty ps
kept-allow exists [] = refl
kept-allow exists (p ∷ ps) = ground (arith, kept-allow exists ps)

pub length-until_zero : (s : Str) → length (until_zero s) ≤ length s
length-until_zero [] = omega arith
length-until_zero (c ∷ s) = ground (arith, length-until_zero s)

-- The directories that a text lists: its pieces that are not empty.
abbrev pub directories : Str → List Str
directories s = nonempty ((pieces b':' s).0 ∷ (pieces b':' s).1)
