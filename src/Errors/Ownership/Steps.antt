-- ===== src/Errors/Ownership/Steps.antt =====
-- Errors/Ownership: the commands against the counts.
use cpp_inter_op.Common.{
  ℕ, zero, suc, ◌+◌, ◌^◌, ◌<◌, ◌≡◌, refl, [], ◌∷◌, some, arith, ◌==◌, if◌then◌else◌, length,
  get_elem?, set, length-set,
}
use cpp_inter_op.Errors.Encoding.{Address, ok_ref, is_slice}
use cpp_inter_op.Errors.Slices.{World, done}
use cpp_inter_op.Errors.Ownership.{
  CapturedError, Handles, remove_at, handles_on, Counted, Command, copy, move, destroy, step,
  live_after,
}
use cpp_inter_op.Errors.Ownership.Counts.{
  live_of_held, IsLive, retain_error_ref-Counted, release_error_ref-Counted,
}

pub get_of_lt :
    (hs : Handles) (i : ℕ) → i < length hs → (c : CapturedError) × (get_elem? hs i ≡ some c)
get_of_lt [] i h = elim h [ ]
get_of_lt (c ∷ hs) zero h = (c, refl)
get_of_lt (c ∷ hs) (suc i) h = get_of_lt hs i (omega arith)

-- One handle's share in the count.
abbrev pub share : Address → CapturedError → ℕ
share a c = if c.ref.bits == a then 1 else 0

pub handles_on-set :
    (a : Address) (hs : Handles) (i : ℕ) (c v : CapturedError)
    → get_elem? hs i ≡ some c
    → handles_on a (set hs i v) + share a c ≡ handles_on a hs + share a v
handles_on-set a [] i c v h = cc
handles_on-set a (d ∷ hs) zero c v h = ground arith
handles_on-set a (d ∷ hs) (suc i) c v h = omega (arith, handles_on-set a hs i c v h)

handles_on-remove_at :
    (a : Address) (hs : Handles) (i : ℕ) (c : CapturedError)
    → get_elem? hs i ≡ some c
    → handles_on a (remove_at hs i) + share a c ≡ handles_on a hs
handles_on-remove_at a [] i c h = cc
handles_on-remove_at a (d ∷ hs) zero c h = ground arith
handles_on-remove_at a (d ∷ hs) (suc i) c h = omega (arith, handles_on-remove_at a hs i c h)

length-remove_at : (hs : Handles) (i : ℕ) → i < length hs → length (remove_at hs i) + 1 ≡ length hs
length-remove_at [] i h = elim h [ ]
length-remove_at (d ∷ hs) zero h = omega arith
length-remove_at (d ∷ hs) (suc i) h = omega (arith, length-remove_at hs i (omega arith))

handles_on_of_get :
    (hs : Handles) (i : ℕ) (c : CapturedError)
    → get_elem? hs i ≡ some c
    → 0 < handles_on c.ref.bits hs
handles_on_of_get [] i c h = cc
handles_on_of_get (d ∷ hs) zero c h = ground arith
handles_on_of_get (d ∷ hs) (suc i) c h = omega (arith, handles_on_of_get hs i c h)

-- A live handle refers to nothing that is gone.
pub IsLive-of_get :
    (w : World) (hs : Handles) (i : ℕ) (c : CapturedError)
    → Counted w hs
    → get_elem? hs i ≡ some c
    → IsLive w c.ref
IsLive-of_get w hs i c k h sl =
    let (s, e, n) = live_of_held w hs c.ref.bits (k c.ref.bits sl) (handles_on_of_get hs i c h) in
    (s, e)

-- A handle that refers to nothing.
abbrev pub empty_handle : CapturedError
empty_handle = record { ref = ok_ref }

-- The two halves of an assignment to a handle: what it held is set free, then it holds `v`.
pub Counted-vacate :
    (w : World) (hs : Handles) (i : ℕ) (c : CapturedError)
    → Counted w hs
    → get_elem? hs i ≡ some c
    → Counted w (c ∷ set hs i empty_handle)
unfolding is_slice
Counted-vacate w hs i c k h a ha = ground (arith, k a ha, handles_on-set a hs i c empty_handle h)

pub Counted-fill :
    (w : World) (hs : Handles) (i : ℕ) (c v : CapturedError)
    → Counted w (v ∷ set hs i empty_handle)
    → get_elem? hs i ≡ some c
    → Counted w (set hs i v)
unfolding is_slice
Counted-fill w hs i c v k h a ha =
    ground (arith, k a ha, handles_on-set a hs i c empty_handle h, handles_on-set a hs i c v h)

-- What a command must leave behind.
abbrev pub Steps : Command → Handles → World → Type 0
Steps c hs w =
    (hs' : Handles) × (w' : World) × (step c hs w ≡ done hs' w')
    × Counted w' hs'
    × (length hs' ≡ live_after c (length hs))

pub copy-Steps :
    (i : ℕ) (hs : Handles) (w : World)
    → Counted w hs
    → i < length hs
    → length hs + 1 < 2 ^ 32
    → Steps (copy i) hs w
unfolding step
copy-Steps i hs w k h room =
    let (c, e) = get_of_lt hs i h in
    let (w', r, k') = retain_error_ref-Counted c.ref w hs k (IsLive-of_get w hs i c k e) room in
    (c ∷ hs, w', ground arith, k', omega arith)

pub move-Steps :
    (i : ℕ) (hs : Handles) (w : World) → Counted w hs → i < length hs → Steps (move i) hs w
unfolding step
move-Steps i hs w k h =
    let (c, e) = get_of_lt hs i h in
    (
      c ∷ set hs i empty_handle,
      w,
      ground arith,
      Counted-vacate w hs i c k e,
      omega (arith, length-set hs i empty_handle),
    )

pub destroy-Steps :
    (i : ℕ) (hs : Handles) (w : World)
    → Counted w hs
    → i < length hs
    → length hs + 1 < 2 ^ 32
    → Steps (destroy i) hs w
unfolding step
destroy-Steps i hs w k h room =
    let (c, e) = get_of_lt hs i h in
    let k1 : Counted w (c ∷ remove_at hs i) =
      λ a ha. ground (arith, k a ha, handles_on-remove_at a hs i c e) in
    let (w', r, k') =
      release_error_ref-Counted c w (remove_at hs i) k1 (omega (arith, length-remove_at hs i h)) in
    (remove_at hs i, w', ground arith, k', omega (arith, length-remove_at hs i h))
