-- ===== src/Errors/Ownership/Counts.antt =====
-- Errors/Ownership: one retain or release against the counts.
use cpp_inter_op.Common.{
  ℕ, suc, ◌+◌, ◌-◌, ◌%◌, ◌^◌, ◌≤◌, ◌<◌, ◌≡◌, true, [], ◌∷◌, none, some, arith, ◌==◌, if◌then◌else◌,
  length, Option-cases, Bool-cases, inl, inr,
}
use cpp_inter_op.Errors.Encoding.{ErrorRef, Address, is_slice}
use cpp_inter_op.Errors.Slices.{
  World, ErrorSlice, done, update, retain_error_ref, release_error_ref,
}
use cpp_inter_op.Errors.Ownership.{CapturedError, Handles, handles_on, Counted, Agrees}

pub handles_on-le-length : (a : Address) (hs : Handles) → handles_on a hs ≤ length hs
handles_on-le-length a [] = omega arith
handles_on-le-length a (c ∷ hs) = ground (arith, handles_on-le-length a hs)

-- A slice with a handle on it is alive.
pub live_of_held :
    (w : World) (hs : Handles) (a : Address)
    → Agrees (w.slices a) (handles_on a hs)
    → 0 < handles_on a hs
    → (s : ErrorSlice) × (w.slices a ≡ some s) × (s.refcount ≡ handles_on a hs)
live_of_held w hs a k h = elim (Option-cases (w.slices a)) [
  | inl e ↦ absurd (ground arith)
  | inr (s, e) ↦ (s, e, ground arith)
]

-- What is true of an address that a handle may be made for.
abbrev pub IsLive : World → ErrorRef → Type 0
IsLive w e = is_slice e ≡ true → (s : ErrorSlice) × (w.slices e.bits ≡ some s)

-- The world with another count on a slice.
abbrev pub recount : World → Address → ErrorSlice → ℕ → World
recount w a s n = record w { slices = update w.slices a (some (record s { refcount = n })) }

-- On a live slice a retain adds one.
pub retain-live :
    (e : ErrorRef) (w : World) (s : ErrorSlice)
    → is_slice e ≡ true
    → w.slices e.bits ≡ some s
    → s.refcount + 1 < 2 ^ 32
    → retain_error_ref e w ≡ done tt (recount w e.bits s (s.refcount + 1))
unfolding retain_error_ref
retain-live e w s sl es room =
    let wrap : (s.refcount + 1) % 2 ^ 32 ≡ s.refcount + 1 = omega arith in ground arith

pub retain_error_ref-Counted :
    (e : ErrorRef) (w : World) (hs : Handles)
    → Counted w hs
    → IsLive w e
    → length hs + 1 < 2 ^ 32
    → (w' : World) × (retain_error_ref e w ≡ done tt w') × Counted w' (record { ref = e } ∷ hs)
unfolding retain_error_ref
retain_error_ref-Counted e w hs c live room = elim (Bool-cases (is_slice e)) [
  | inr other ↦ (w, ground arith, λ a ha. ground (arith, c a ha))
  | inl sl ↦
      let (s, es) = live sl in
      let n : s.refcount ≡ handles_on e.bits hs = ground (arith, c e.bits sl) in
      (
        recount w e.bits s (s.refcount + 1),
        retain-live e w s sl es (omega (arith, handles_on-le-length e.bits hs)),
        λ a ha. ground (arith, c a ha),
      )
]

-- The world after a release of a live slice.
abbrev pub released : World → Address → ErrorSlice → World
released w a s =
    if s.refcount == 1
    then record w { slices = update w.slices a none }
    else recount w a s (s.refcount - 1)

-- On a live slice that is counted a release takes one off, and frees the slice at the last one.
pub release-live :
    (e : ErrorRef) (w : World) (s : ErrorSlice)
    → is_slice e ≡ true
    → w.slices e.bits ≡ some s
    → 0 < s.refcount
    → s.refcount < 2 ^ 32
    → release_error_ref e w ≡ done tt (released w e.bits s)
unfolding release_error_ref
release-live e w s sl es pos room =
    let wrap : (s.refcount + 2 ^ 32 - 1) % 2 ^ 32 ≡ s.refcount - 1 = omega arith in ground arith

pub release_error_ref-Counted :
    (c : CapturedError) (w : World) (hs : Handles)
    → Counted w (c ∷ hs)
    → length hs + 1 < 2 ^ 32
    → (w' : World) × (release_error_ref c.ref w ≡ done tt w') × Counted w' hs
unfolding release_error_ref
release_error_ref-Counted c w hs k room = elim (Bool-cases (is_slice c.ref)) [
  | inr other ↦ (w, ground arith, λ a ha. ground (arith, k a ha))
  | inl sl ↦
      let here : handles_on c.ref.bits (c ∷ hs) ≡ suc (handles_on c.ref.bits hs) = ground arith in
      let (s, es, n) = live_of_held w (c ∷ hs) c.ref.bits (k c.ref.bits sl) (omega arith) in
      (
        released w c.ref.bits s,
        release-live c.ref w s sl es (omega arith)
            (omega (arith, handles_on-le-length c.ref.bits hs)),
        λ a ha. ground (arith, k a ha),
      )
]
