-- ===== src/Tracing/Signatures.antt =====
-- lib/CppInterOp/Tracing.h: countParams, which counts the parameters in a function's signature.
use mathlib.Core.List.{append_assoc}
use cpp_inter_op.Paths.Split.Pieces.{Absent}
use cpp_inter_op.Common.{
  ℕ, ◌<◌, ◌≢◌, zero, suc, ◌+◌, ◌%◌, ◌^◌, ◌≡◌, refl, ap, ◌∙◌, Bool, true, false, ◌||◌, List, [], ◌∷◌,
  ◌++◌, Option, none, some, if◌then◌else◌, ◌==◌, Str, codes, starts_with, length, arith,
}

abbrev pub opens : ℕ → Bool
opens c = (c == 60) || (c == 40) || (c == 91)

abbrev pub closes : ℕ → Bool
closes c = (c == 62) || (c == 41) || (c == 93)

-- Behind the first parenthesis, if there is one.
unfoldable pub behind_paren : Str → Option Str
behind_paren [] = none
behind_paren (c ∷ s) = let later = behind_paren s in if c == 40 then some s else later

unfoldable pub skip_spaces : Str → Str
skip_spaces [] = []
skip_spaces (c ∷ s) = let later = skip_spaces s in if c == 32 then later else c ∷ s

-- The loop, at a count and a depth. The count is of 32 bits.
unfoldable pub count_from : ℕ → ℕ → Str → ℕ
count_from count depth [] = count
count_from count zero (c ∷ s) =
    let deeper = count_from count 1 s in
    let another = count_from ((count + 1) % 2 ^ 32) zero s in
    let onward = count_from count zero s in
    if opens c then deeper else if closes c then count else if c == 44 then another else onward
count_from count (suc depth) (c ∷ s) =
    let deeper = count_from count (suc (suc depth)) s in
    let out = count_from count depth s in
    let onward = count_from count (suc depth) s in
    if opens c then deeper else if closes c then out else onward

unfoldable pub count_list : Str → ℕ
count_list s =
    if starts_with s (codes ")")
      || (starts_with s (codes "void)") || starts_with s (codes "void )"))
    then 0
    else count_from 1 0 s

unfoldable pub count_params : Str → ℕ
count_params sig = elim (behind_paren sig) [ none ↦ 0 | some s ↦ count_list (skip_spaces s) ]

-- A text in which every bracket is closed.
pub data Nested : Type 0 where
  done : Nested
  plain : ℕ → Nested → Nested
  group : ℕ → Nested → ℕ → Nested → Nested

abbrev pub flat : Nested → Str
flat done = []
flat (plain c t) = c ∷ flat t
flat (group o t c u) = o ∷ (flat t ++ c ∷ flat u)

-- Outside brackets there is no comma; inside there may be.
abbrev pub IsInside : Nested → Type 0
IsInside done = Unit
IsInside (plain c t) = (opens c ≡ false) × (closes c ≡ false) × IsInside t
IsInside (group o t c u) =
    (opens o ≡ true) × (opens c ≡ false) × (closes c ≡ true) × IsInside t × IsInside u

abbrev pub IsParameter : Nested → Type 0
IsParameter done = Unit
IsParameter (plain c t) =
    (opens c ≡ false) × (closes c ≡ false) × ((c == 44) ≡ false) × IsParameter t
IsParameter (group o t c u) =
    (opens o ≡ true) × (opens c ≡ false) × (closes c ≡ true) × IsInside t × IsParameter u

count_from-open :
    (n d c : ℕ) (s : Str) → opens c ≡ true → count_from n d (c ∷ s) ≡ count_from n (suc d) s
unfolding count_from
count_from-open n zero c s o = rw (o) refl
count_from-open n (suc d) c s o = rw (o) refl

module _ (n d c : ℕ) (s : Str) where
  count_from-close :
      opens c ≡ false → closes c ≡ true → count_from n (suc d) (c ∷ s) ≡ count_from n d s
  unfolding count_from
  count_from-close o e = rw (o, e) refl

  count_from-inside :
      opens c ≡ false → closes c ≡ false → count_from n (suc d) (c ∷ s) ≡ count_from n (suc d) s
  unfolding count_from
  count_from-inside o e = rw (o, e) refl

  count_from-plain :
      opens c ≡ false
      → closes c ≡ false
      → (c == 44) ≡ false
      → count_from n 0 (c ∷ s) ≡ count_from n 0 s
  unfolding count_from
  count_from-plain o e f = rw (o, e, f) refl

-- A group is passed by, at any depth.
inside-passed :
    (n d : ℕ) (t : Nested) (rest : Str)
    → IsInside t
    → count_from n (suc d) (flat t ++ rest) ≡ count_from n (suc d) rest
inside-passed n d done rest h = refl
inside-passed n d (plain c t) rest (o, e, h) =
    count_from-inside n d c (flat t ++ rest) o e ∙ inside-passed n d t rest h
inside-passed n d (group o t c u) rest (x, y, z, h, k) =
    count_from-open n (suc d) o ((flat t ++ c ∷ flat u) ++ rest) x
    ∙ ap (count_from n (suc (suc d))) (append_assoc (flat t) (c ∷ flat u) rest)
    ∙ inside-passed n (suc d) t (c ∷ (flat u ++ rest)) h
    ∙ count_from-close n (suc d) c (flat u ++ rest) y z
    ∙ inside-passed n d u rest k

parameter-passed :
    (n : ℕ) (t : Nested) (rest : Str)
    → IsParameter t
    → count_from n 0 (flat t ++ rest) ≡ count_from n 0 rest
parameter-passed n done rest h = refl
parameter-passed n (plain c t) rest (o, e, f, h) =
    count_from-plain n 0 c (flat t ++ rest) o e f ∙ parameter-passed n t rest h
parameter-passed n (group o t c u) rest (x, y, z, h, k) =
    count_from-open n 0 o ((flat t ++ c ∷ flat u) ++ rest) x
    ∙ ap (count_from n 1) (append_assoc (flat t) (c ∷ flat u) rest)
    ∙ inside-passed n 0 t (c ∷ (flat u ++ rest)) h
    ∙ count_from-close n 0 c (flat u ++ rest) y z
    ∙ parameter-passed n u rest k

-- The parameters of a signature, of which there is at least one.
abbrev pub parameter_list : Nested → List Nested → Str
parameter_list p [] = flat p
parameter_list p (q ∷ qs) = flat p ++ 44 ∷ parameter_list q qs

abbrev pub AreParameters : List Nested → Type 0
AreParameters [] = Unit
AreParameters (p ∷ ps) = IsParameter p × AreParameters ps

count_from-end : (n : ℕ) (rest : Str) → count_from n 0 (41 ∷ rest) ≡ n
unfolding count_from
count_from-end n rest = refl

count_from-comma :
    (n : ℕ) (rest : Str) → n + 1 < 2 ^ 32 → count_from n 0 (44 ∷ rest) ≡ count_from (n + 1) 0 rest
unfolding count_from
count_from-comma n rest h = ap (λ m. count_from m 0 rest) (omega (arith, h))

counted :
    (n : ℕ) (p : Nested) (qs : List Nested) (rest : Str)
    → n + length qs < 2 ^ 32
    → AreParameters (p ∷ qs)
    → count_from n 0 (parameter_list p qs ++ 41 ∷ rest) ≡ n + length qs
counted n p [] rest h (a, b) =
    parameter-passed n p (41 ∷ rest) a ∙ count_from-end n rest ∙ omega arith
counted n p (q ∷ qs) rest h (a, b) =
    ap (count_from n 0) (append_assoc (flat p) (44 ∷ parameter_list q qs) (41 ∷ rest))
    ∙ parameter-passed n p (44 ∷ (parameter_list q qs ++ 41 ∷ rest)) a
    ∙ count_from-comma n (parameter_list q qs ++ 41 ∷ rest) (omega (arith, h))
    ∙ counted (n + 1) q qs rest (omega (arith, h)) b
    ∙ omega arith

behind_paren-name :
    (name rest : Str) → Absent 40 name → behind_paren (name ++ 40 ∷ rest) ≡ some rest
unfolding behind_paren
behind_paren-name [] rest a = refl
behind_paren-name (c ∷ name) rest (h, a) = rw (other c h) (behind_paren-name name rest a)
  where
    other : (c : ℕ) → c ≢ 40 → (c == 40) ≡ false
    other c h = ground (arith, h)

-- A list of parameters that is not written as empty or void and does not begin with a space.
abbrev pub IsList : Str → Type 0
IsList s =
    (skip_spaces s ≡ s)
    × ((starts_with s (codes ")")
          || (starts_with s (codes "void)") || starts_with s (codes "void )")))
        ≡ false)

-- However brackets are nested in the parameters of a signature, and whatever commas stand inside them,
-- the parameters are counted right, up to the size of the counter.
pub count_params_lem :
    (name : Str) (p : Nested) (qs : List Nested) (rest : Str)
    → Absent 40 name
    → AreParameters (p ∷ qs)
    → IsList (parameter_list p qs ++ 41 ∷ rest)
    → 1 + length qs < 2 ^ 32
    → count_params (name ++ 40 ∷ (parameter_list p qs ++ 41 ∷ rest)) ≡ 1 + length qs
unfolding count_params count_list
count_params_lem name p qs rest a b (unspaced, listed) h =
    ap (λ (o : Option Str). elim o as (λ x. ℕ) [ none ↦ 0 | some s ↦ count_list (skip_spaces s) ])
      (behind_paren-name name (parameter_list p qs ++ 41 ∷ rest) a)
    ∙ ap count_list unspaced
    ∙ ap (λ b. if b then 0 else count_from 1 0 (parameter_list p qs ++ 41 ∷ rest)) listed
    ∙ counted 1 p qs rest h b
