-- ===== src/Tracing/Literals.antt =====
-- lib/CppInterOp/Tracing.h: appendRaw, and how C++ reads the literals that it writes.
use mathlib.Core.List.{append_assoc}
use cpp_inter_op.Common.{
  ℕ, ◌≡◌, refl, ap, ◌∙◌, Bool, true, false, ◌||◌, [], ◌∷◌, ◌++◌, Option, none, some, if◌then◌else◌,
  ◌==◌, Str, codes, starts_with, arith, Bool-cases, inl, inr,
}
use cpp_inter_op.Tracing.Buffer.{needs_raw, append_raw}

-- The end of a raw literal.
abbrev pub closing : Str
closing = 41 ∷ 67 ∷ 80 ∷ 80 ∷ 73 ∷ 34 ∷ []

abbrev cons_first : ℕ → Option (Str × Str) → Option (Str × Str)
cons_first c none = none
cons_first c (some (s, rest)) = some (c ∷ s, rest)

-- A plain literal without escapes, from behind its first quote: the content and the text behind it.
abbrev pub read_plain : Str → Option (Str × Str)
read_plain [] = none
read_plain (c ∷ s) =
    let rest = read_plain s in
    if c == 34 then some ([], s) else if (c == 92) || (c == 10) then none else cons_first c rest

abbrev pub drop_closing : Str → Str
drop_closing (a ∷ b ∷ c ∷ d ∷ e ∷ f ∷ s) = s
drop_closing s = []

-- A raw literal with the delimiter CPPI, from behind its parenthesis.
abbrev pub read_raw : Str → Option (Str × Str)
read_raw [] = none
read_raw (c ∷ s) =
    let rest = read_raw s in
    if starts_with (c ∷ s) closing then some ([], drop_closing (c ∷ s)) else cons_first c rest

-- A literal of either kind.
abbrev pub read_literal : Str → Option (Str × Str)
read_literal [] = none
read_literal (c ∷ s) =
    if c == 34
    then read_plain s
    else if starts_with (c ∷ s) (codes "R\"CPPI(")
    then read_raw (drop_closing_open s)
    else none
  where
    drop_closing_open : Str → Str
    drop_closing_open (a ∷ b ∷ d ∷ e ∷ f ∷ g ∷ t) = t
    drop_closing_open t = []

-- Whether the end of a raw literal is somewhere in a text.
unfoldable pub has_closing : Str → Bool
has_closing [] = false
has_closing (c ∷ s) = starts_with (c ∷ s) closing || has_closing s

needs_raw-head :
    (c : ℕ) (s : Str)
    → needs_raw (c ∷ s) ≡ false
    → ((c == 34) ≡ false) × (((c == 92) || (c == 10)) ≡ false) × (needs_raw s ≡ false)
unfolding needs_raw
needs_raw-head c s h = (ground (arith, h), ground (arith, h), ground (arith, h))

read_plain-lem : (s rest : Str) → needs_raw s ≡ false → read_plain (s ++ 34 ∷ rest) ≡ some (s, rest)
unfolding needs_raw
read_plain-lem [] rest h = refl
read_plain-lem (c ∷ s) rest h =
    let (quote, control, rest_plain) = needs_raw-head c s h in
    rw (quote, control) (ap (cons_first c) (read_plain-lem s rest rest_plain))

-- The closing does not overlap itself.
starts_with-closing :
    (c : ℕ) (s rest : Str)
    → starts_with (c ∷ s) closing ≡ false
    → starts_with ((c ∷ s) ++ (closing ++ rest)) closing ≡ false
unfolding starts_with
starts_with-closing a [] rest h = ground arith
starts_with-closing a (b ∷ []) rest h = ground arith
starts_with-closing a (b ∷ c ∷ []) rest h = ground arith
starts_with-closing a (b ∷ c ∷ d ∷ []) rest h = ground arith
starts_with-closing a (b ∷ c ∷ d ∷ e ∷ []) rest h = ground arith
starts_with-closing a (b ∷ c ∷ d ∷ e ∷ f ∷ s) rest h = h

has_closing-head :
    (c : ℕ) (s : Str)
    → has_closing (c ∷ s) ≡ false
    → (starts_with (c ∷ s) closing ≡ false) × (has_closing s ≡ false)
unfolding has_closing
has_closing-head c s h = or-false (starts_with (c ∷ s) closing) (has_closing s) h
  where
    or-false : (a b : Bool) → (a || b) ≡ false → (a ≡ false) × (b ≡ false)
    or-false true b e = cc
    or-false false b e = (refl, e)

read_raw-lem :
    (s rest : Str) → has_closing s ≡ false → read_raw (s ++ (closing ++ rest)) ≡ some (s, rest)
unfolding starts_with
read_raw-lem [] rest h = refl
read_raw-lem (c ∷ s) rest h =
    let (here, later) = has_closing-head c s h in
    ap
      (λ b.
        if b
        then some ([], drop_closing (c ∷ (s ++ (closing ++ rest))))
        else cons_first c (read_raw (s ++ (closing ++ rest))))
      (starts_with-closing c s rest here)
    ∙ ap (cons_first c) (read_raw-lem s rest later)

-- A text that does not hold the end of a raw literal, whatever else it holds, is written as a literal
-- that C++ reads back as that text, up to where the literal ends.
pub read_literal-append_raw :
    (s rest : Str) → has_closing s ≡ false → read_literal (append_raw s ++ rest) ≡ some (s, rest)
unfolding append_raw starts_with
read_literal-append_raw s rest h = elim (Bool-cases (needs_raw s)) [
  | inl raw ↦
      rw (append_raw, raw) (ap read_raw (append_assoc s closing rest) ∙ read_raw-lem s rest h)
  | inr plain ↦
      rw (append_raw, plain)
        (ap read_plain (append_assoc s (34 ∷ []) rest) ∙ read_plain-lem s rest plain)
]
