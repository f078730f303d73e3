-- ===== src/Paths/Split/FirstAt.antt =====
-- Paths/Split: a function that splits the way `llvm::StringRef::split` documents, for the tests.
use cpp_inter_op.Common.{ℕ, ◌≡◌, refl, [], ◌∷◌, ◌++◌, ◌==◌, if◌then◌else◌, Str, arith}
use cpp_inter_op.Paths.Split.Pieces.{Absent, IsSplit}

-- A split around the first occurrence of a character.
abbrev pub split_char : ℕ → Str → Str × Str
split_char d [] = ([], [])
split_char d (c ∷ s) = if c == d then ([], s) else (c ∷ (split_char d s).0, (split_char d s).1)

abbrev pub split_any : Str → Str → Str × Str
split_any s [] = (s, [])
split_any s (d ∷ sep) = split_char d s

split_any-at_first :
    (d : ℕ) (p rest : Str) → Absent d p → split_any (p ++ d ∷ rest) (d ∷ []) ≡ (p, rest)
split_any-at_first d [] rest h = ground arith
split_any-at_first d (c ∷ p) rest h = ground (arith, split_any-at_first d p rest h.1)

split_any-Absent : (d : ℕ) (p : Str) → Absent d p → split_any p (d ∷ []) ≡ (p, [])
split_any-Absent d [] h = refl
split_any-Absent d (c ∷ p) h = ground (arith, split_any-Absent d p h.1)

pub split_any-IsSplit : IsSplit split_any
split_any-IsSplit = record { at_first = split_any-at_first; absent = split_any-Absent }
