-- ===== src/Boxes/Counting.antt =====
-- Boxes: the counts of the payloads.
use mathlib.Core.Path.{subst}
use cpp_inter_op.Common.{
  ℕ, zero, suc, ◌+◌, ◌-◌, ◌%◌, ◌^◌, ◌<◌, ◌≤◌, ◌≡◌, refl, ap, true, false, List, [], ◌∷◌, Option,
  none, some, ◌==◌, ==_iff, if◌then◌else◌, get_elem?, set, length, arith, Bool-cases, inl, inr,
}
use cpp_inter_op.Boxes.{
  Box, ValueRefCount, Heap, write, retain, release, owned, retain_owned, release_owned,
}
use cpp_inter_op.Boxes.Commands.{remove_at}

-- How often an address is owned.
abbrev pub count : ℕ → Option ℕ → ℕ
count a none = 0
count a (some p) = if p == a then 1 else 0

abbrev pub holds : ℕ → Box → ℕ
holds a b = count a (owned b.kind b.storage)

abbrev pub holders : ℕ → List Box → ℕ
holders a [] = 0
holders a (b ∷ bs) = holds a b + holders a bs

-- A payload that is alive has this count, which is not 0; nothing else is counted.
abbrev pub Agrees : Option ValueRefCount → ℕ → Type 0
Agrees none n = n ≡ 0
Agrees (some v) n = (v.rc ≡ n) × (0 < n)

abbrev pub CountedBy : Heap → (ℕ → ℕ) → Type 0
CountedBy h f = (a : ℕ) → Agrees (h a) (f a)

pub CountedBy-same :
    (h : Heap) {f g : ℕ → ℕ} → CountedBy h f → ((a : ℕ) → f a ≡ g a) → CountedBy h g
CountedBy-same h c e a = subst (Agrees (h a)) (e a) (c a)

Agrees-after_retain :
    (o : Option ValueRefCount) (n : ℕ)
    → Agrees o n
    → 0 < n
    → n + 1 < 2 ^ 32
    → (v : ValueRefCount) × (o ≡ some v)
      × Agrees (some (record v { rc = (v.rc + 1) % 2 ^ 32 })) (1 + n)
Agrees-after_retain none n e pos room = absurd (omega arith)
Agrees-after_retain (some v) n (e, pos) _ room = (v, refl, (omega arith, omega arith))

Agrees-after_release :
    (o : Option ValueRefCount) (n : ℕ)
    → Agrees o (1 + n)
    → n + 1 < 2 ^ 32
    → (v : ValueRefCount) × (o ≡ some v)
      × Agrees
          (if v.rc == 1 then none else some (record v { rc = (v.rc + (2 ^ 32 - 1)) % 2 ^ 32 }))
          n
Agrees-after_release none n e room = absurd (omega arith)
Agrees-after_release (some v) n (e, pos) room = elim (Bool-cases (v.rc == 1)) [
  | inl last ↦ let one = (==_iff v.rc 1).0 last in (v, refl, rw (last) (omega (arith, one)))
  | inr more ↦
      let many : 0 < n = ground (arith, more, e) in (v, refl, rw (more) (omega (arith, many), many))
]

-- A write at one address.
pub CountedBy-write :
    (p : ℕ) (o : Option ValueRefCount) (h : Heap) (f g : ℕ → ℕ)
    → CountedBy h f
    → Agrees o (g p)
    → ((a : ℕ) → (p == a) ≡ false → f a ≡ g a)
    → CountedBy (write p o h) g
CountedBy-write p o h f g c here there a = elim (Bool-cases (p == a)) [
  | inl same ↦ rw (same) (subst (λ q. Agrees o (g q)) ((==_iff p a).0 same) here)
  | inr other ↦ rw (other) (subst (Agrees (h a)) (there a other) (c a))
]

pub same_count : (p : ℕ) → (p == p) ≡ true
same_count p = (==_iff p p).1 refl

-- One more owner of what has one.
pub retain_owned-CountedBy :
    (o : Option ℕ) (h : Heap) (f : ℕ → ℕ)
    → CountedBy h f
    → ((a : ℕ) → count a o ≤ f a)
    → ((a : ℕ) → f a + 1 < 2 ^ 32)
    → (h' : Heap) × (retain_owned o h ≡ some h') × CountedBy h' (λ a. count a o + f a)
unfolding retain
retain_owned-CountedBy none h f c least room = (h, refl, CountedBy-same h c (λ a. omega arith))
retain_owned-CountedBy (some p) h f c least room =
    let some_there : 0 < f p = ground (arith, least p, same_count p) in
    let (v, alive, agrees) = Agrees-after_retain (h p) (f p) (c p) some_there (room p) in
    (
      write p (some (record v { rc = (v.rc + 1) % 2 ^ 32 })) h,
      rw (retain, alive) refl,
      CountedBy-write p _ h f (λ a. count a (some p) + f a) c (rw (same_count p) agrees)
          (λ a other. rw (other) (omega arith)),
    )

-- One owner less.
pub release_owned-CountedBy :
    (o : Option ℕ) (h : Heap) (f : ℕ → ℕ)
    → CountedBy h (λ a. count a o + f a)
    → ((a : ℕ) → f a + 1 < 2 ^ 32)
    → (h' : Heap) × (release_owned o h ≡ some h') × CountedBy h' f
unfolding release
release_owned-CountedBy none h f c room = (h, refl, CountedBy-same h c (λ a. omega arith))
release_owned-CountedBy (some p) h f c room =
    let at_p : Agrees (h p) (1 + f p) =
      subst (λ b. Agrees (h p) ((if b then 1 else 0) + f p)) (same_count p) (c p) in
    let (v, alive, agrees) = Agrees-after_release (h p) (f p) at_p (room p) in
    (
      write p (if v.rc == 1 then none else some (record v { rc = (v.rc + (2 ^ 32 - 1)) % 2 ^ 32 }))
          h,
      rw (release, alive) refl,
      CountedBy-write p _ h (λ a. count a (some p) + f a) f c agrees
          (λ a other. rw (other) (omega arith)),
    )

from_some : (x b : Box) → some x ≡ some b → x ≡ b
from_some x b e = cc

-- A box by its position counts apart from the others.
pub holders-remove_at :
    (a : ℕ) (bs : List Box) (i : ℕ) (b : Box)
    → get_elem? bs i ≡ some b
    → holders a bs ≡ holds a b + holders a (remove_at bs i)
holders-remove_at a [] i b e = absurd (ground (arith, e))
holders-remove_at a (x ∷ bs) zero b e = ap (λ y. holds a y + holders a bs) (from_some x b e)
holders-remove_at a (x ∷ bs) (suc i) b e = omega (arith, holders-remove_at a bs i b e)

pub holders-set :
    (a : ℕ) (bs : List Box) (i : ℕ) (b x : Box)
    → get_elem? bs i ≡ some b
    → holders a (set bs i x) ≡ holds a x + holders a (remove_at bs i)
holders-set a [] i b x e = absurd (ground (arith, e))
holders-set a (y ∷ bs) zero b x e = refl
holders-set a (y ∷ bs) (suc i) b x e = omega (arith, holders-set a bs i b x e)

count-one : (a : ℕ) (o : Option ℕ) → count a o ≤ 1
count-one a none = omega arith
count-one a (some p) = ground arith

pub holders-length : (a : ℕ) (bs : List Box) → holders a bs ≤ length bs
holders-length a [] = omega arith
holders-length a (b ∷ bs) = omega (arith, holders-length a bs, count-one a (owned b.kind b.storage))
