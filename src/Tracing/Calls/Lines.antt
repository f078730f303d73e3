-- ===== src/Tracing/Calls/Lines.antt =====
-- Tracing/Calls: which names a line uses and declares, and logs whose names are declared before use.
use mathlib.Core.Path.{subst}
use mathlib.Core.Option.{some-injective, none-ne-some}
use cpp_inter_op.Common.{
  ℕ, zero, suc, ◌≡◌, List, [], ◌∷◌, ◌++◌, some, ◌⊎◌, inl, inr, set, get_elem?,
}
use cpp_inter_op.Tracing.Names.{Name, chars, mention, refer, declare, Line}

-- Every name that the line uses is one of those.
abbrev pub Uses : (Name → Type 0) → Line → Type 0
Uses K [] = Unit
Uses K (chars s ∷ ps) = Uses K ps
Uses K (mention n ∷ ps) = Uses K ps
Uses K (refer n ∷ ps) = K n × Uses K ps
Uses K (declare n ∷ ps) = Uses K ps

abbrev pub Declares : Line → Name → Type 0
Declares [] n = ⊥
Declares (chars s ∷ ps) n = Declares ps n
Declares (mention m ∷ ps) n = Declares ps n
Declares (refer m ∷ ps) n = Declares ps n
Declares (declare m ∷ ps) n = (n ≡ m) ⊎ Declares ps n

abbrev pub Declared : List Line → Name → Type 0
Declared [] n = ⊥
Declared (l ∷ ls) n = Declares l n ⊎ Declared ls n

-- Every line uses names that are given or that lines above it declare.
abbrev pub Scoped : (Name → Type 0) → List Line → Type 0
Scoped K [] = Unit
Scoped K (l ∷ ls) = Uses K l × Scoped (λ n. K n ⊎ Declares l n) ls

pub Uses-mono : (K K' : Name → Type 0) (l : Line) → ((n : Name) → K n → K' n) → Uses K l → Uses K' l
Uses-mono K K' [] f u = tt
Uses-mono K K' (chars s ∷ ps) f u = Uses-mono K K' ps f u
Uses-mono K K' (mention n ∷ ps) f u = Uses-mono K K' ps f u
Uses-mono K K' (refer n ∷ ps) f (k, u) = (f n k, Uses-mono K K' ps f u)
Uses-mono K K' (declare n ∷ ps) f u = Uses-mono K K' ps f u

pub Uses-append : (K : Name → Type 0) (l m : Line) → Uses K l → Uses K m → Uses K (l ++ m)
Uses-append K [] m u v = v
Uses-append K (chars s ∷ ps) m u v = Uses-append K ps m u v
Uses-append K (mention n ∷ ps) m u v = Uses-append K ps m u v
Uses-append K (refer n ∷ ps) m (k, u) v = (k, Uses-append K ps m u v)
Uses-append K (declare n ∷ ps) m u v = Uses-append K ps m u v

pub Uses-front : (K : Name → Type 0) (l m : Line) → Uses K (l ++ m) → Uses K l
Uses-front K [] m u = tt
Uses-front K (chars s ∷ ps) m u = Uses-front K ps m u
Uses-front K (mention n ∷ ps) m u = Uses-front K ps m u
Uses-front K (refer n ∷ ps) m (k, u) = (k, Uses-front K ps m u)
Uses-front K (declare n ∷ ps) m u = Uses-front K ps m u

pub Declares-front : (l m : Line) (n : Name) → Declares l n → Declares (l ++ m) n
Declares-front [] m n d = elim d [ ]
Declares-front (chars s ∷ ps) m n d = Declares-front ps m n d
Declares-front (mention k ∷ ps) m n d = Declares-front ps m n d
Declares-front (refer k ∷ ps) m n d = Declares-front ps m n d
Declares-front (declare k ∷ ps) m n (inl e) = inl e
Declares-front (declare k ∷ ps) m n (inr d) = inr (Declares-front ps m n d)

pub Declares-back : (l m : Line) (n : Name) → Declares m n → Declares (l ++ m) n
Declares-back [] m n d = d
Declares-back (chars s ∷ ps) m n d = Declares-back ps m n d
Declares-back (mention k ∷ ps) m n d = Declares-back ps m n d
Declares-back (refer k ∷ ps) m n d = Declares-back ps m n d
Declares-back (declare k ∷ ps) m n d = inr (Declares-back ps m n d)

pub Declares-split : (l m : Line) (n : Name) → Declares (l ++ m) n → Declares l n ⊎ Declares m n
Declares-split [] m n d = inr d
Declares-split (chars s ∷ ps) m n d = Declares-split ps m n d
Declares-split (mention k ∷ ps) m n d = Declares-split ps m n d
Declares-split (refer k ∷ ps) m n d = Declares-split ps m n d
Declares-split (declare k ∷ ps) m n (inl e) = inl (inl e)
Declares-split (declare k ∷ ps) m n (inr d) = elim (Declares-split ps m n d) [
  | inl a ↦ inl (inr a)
  | inr b ↦ inr b
]

abbrev pub Or : (Name → Type 0) → (Name → Type 0) → Name → Type 0
Or K L n = K n ⊎ L n

pub Scoped-mono :
    (K K' : Name → Type 0) (ls : List Line) → ((n : Name) → K n → K' n) → Scoped K ls → Scoped K' ls
Scoped-mono K K' [] f s = tt
Scoped-mono K K' (l ∷ ls) f (u, s) = (
  Uses-mono K K' l f u,
  Scoped-mono (Or K (Declares l)) (Or K' (Declares l)) ls
      (λ n k. elim k [ inl a ↦ inl (f n a) | inr b ↦ inr b ]) s,
)

pub Declared-keep :
    (ls : List Line) (l : Line) (n : Name) → Declared ls n → Declared (ls ++ l ∷ []) n
Declared-keep [] l n d = elim d [ ]
Declared-keep (k ∷ ls) l n (inl d) = inl d
Declared-keep (k ∷ ls) l n (inr d) = inr (Declared-keep ls l n d)

pub Declared-new : (ls : List Line) (l : Line) (n : Name) → Declares l n → Declared (ls ++ l ∷ []) n
Declared-new [] l n d = inl d
Declared-new (k ∷ ls) l n d = inr (Declared-new ls l n d)

pub Scoped-append :
    (K : Name → Type 0) (ls : List Line) (l : Line)
    → Scoped K ls
    → Uses (Or K (Declared ls)) l
    → Scoped K (ls ++ l ∷ [])
Scoped-append K [] l s u =
    (Uses-mono (Or K (Declared [])) K l (λ n k. elim k [ inl a ↦ a | inr b ↦ absurd b ]) u, tt)
Scoped-append K (k ∷ ls) l (v, s) u = (
  v,
  Scoped-append (Or K (Declares k)) ls l s (
      Uses-mono (Or K (Declared (k ∷ ls))) (Or (Or K (Declares k)) (Declared ls)) l
        (λ n h. elim h [ inl a ↦ inl (inl a) | inr (inl b) ↦ inl (inr b) | inr (inr c) ↦ inr c ])
        u),
)

-- A line that is rewritten to use no more and to declare no less.
module _ (l l' : Line) (uses : (K : Name → Type 0) → Uses K l → Uses K l')
    (declares : (n : Name) → Declares l n → Declares l' n) where
  pub Declared-set :
      (ls : List Line) (i : ℕ) (n : Name)
      → get_elem? ls i ≡ some l
      → Declared ls n
      → Declared (set ls i l') n
  Declared-set [] i n e h = elim h [ ]
  Declared-set (k ∷ ls) zero n e (inl h) =
      inl (declares n (subst (λ (o : Line). Declares o n) (some-injective k l e) h))
  Declared-set (k ∷ ls) zero n e (inr h) = inr h
  Declared-set (k ∷ ls) (suc i) n e (inl h) = inl h
  Declared-set (k ∷ ls) (suc i) n e (inr h) = inr (Declared-set ls i n e h)

  pub Scoped-set :
      (K : Name → Type 0) (ls : List Line) (i : ℕ)
      → get_elem? ls i ≡ some l
      → Scoped K ls
      → Scoped K (set ls i l')
  Scoped-set K [] i e s = s
  Scoped-set K (k ∷ ls) zero e (u, s) = (
    uses K (subst (λ (o : Line). Uses K o) (some-injective k l e) u),
    Scoped-mono (Or K (Declares k)) (Or K (Declares l')) ls
        (λ n h. elim h [
          | inl a ↦ inl a
          | inr b ↦ inr (declares n (subst (λ (o : Line). Declares o n) (some-injective k l e) b))
        ])
        s,
  )
  Scoped-set K (k ∷ ls) (suc i) e (u, s) = (u, Scoped-set (Or K (Declares k)) ls i e s)

pub Declared-set_new :
    (ls : List Line) (i : ℕ) (l l' : Line) (n : Name)
    → get_elem? ls i ≡ some l
    → Declares l' n
    → Declared (set ls i l') n
Declared-set_new [] i l l' n e d = absurd (none-ne-some l e)
Declared-set_new (k ∷ ls) zero l l' n e d = inl d
Declared-set_new (k ∷ ls) (suc i) l l' n e d = inr (Declared-set_new ls i l l' n e d)
