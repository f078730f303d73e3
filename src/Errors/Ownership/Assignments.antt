-- ===== src/Errors/Ownership/Assignments.antt =====
-- Errors/Ownership: assignments between handles, and whole histories of commands.
use cpp_inter_op.Common.{
  ℕ, ◌+◌, ◌^◌, ◌≤◌, ◌<◌, ◌≡◌, ◌≢◌, refl, List, [], ◌∷◌, some, arith, ◌==◌, length, get_elem?, set,
  length-set, get_elem?-set_ne, Bool-cases, inl, inr, ◌∙◌,
}
use cpp_inter_op.Errors.Encoding.{is_slice}
use cpp_inter_op.Errors.Slices.{World, done}
use cpp_inter_op.Errors.Ownership.{
  Handles, Counted, Command, copy, move, destroy, assign_copy, assign_move, step, run, Names,
  AllNamed, live_after,
}
use cpp_inter_op.Errors.Ownership.Counts.{retain_error_ref-Counted, release_error_ref-Counted}
use cpp_inter_op.Errors.Ownership.Steps.{
  Steps, get_of_lt, empty_handle, Counted-vacate, Counted-fill, IsLive-of_get, handles_on-set,
  copy-Steps, move-Steps, destroy-Steps,
}

-- An assignment to itself: nothing happens.
self_copy-Steps :
    (i : ℕ) (hs : Handles) (w : World) → Counted w hs → i < length hs → Steps (assign_copy i i) hs w
unfolding step
self_copy-Steps i hs w k h = let (c, e) = get_of_lt hs i h in (hs, w, ground arith, k, omega arith)

self_move-Steps :
    (i : ℕ) (hs : Handles) (w : World) → Counted w hs → i < length hs → Steps (assign_move i i) hs w
unfolding step
self_move-Steps i hs w k h = let (c, e) = get_of_lt hs i h in (hs, w, ground arith, k, omega arith)

other_copy-Steps :
    (i j : ℕ) (hs : Handles) (w : World)
    → Counted w hs
    → i < length hs
    → j < length hs
    → i ≢ j
    → length hs + 1 < 2 ^ 32
    → Steps (assign_copy i j) hs w
unfolding step
other_copy-Steps i j hs w k h g ne room =
    let (c, e) = get_of_lt hs i h in
    let (o, f) = get_of_lt hs j g in
    let rest : Handles = set hs i empty_handle in
    let len : length rest ≡ length hs = length-set hs i empty_handle in
    let (w1, r1, k1) =
      release_error_ref-Counted c w rest (Counted-vacate w hs i c k e) (omega arith) in
    let still : get_elem? rest j ≡ some o = get_elem?-set_ne hs empty_handle ne ∙ f in
    let (w2, r2, k2) =
      retain_error_ref-Counted o.ref w1 rest k1 (IsLive-of_get w1 rest j o k1 still)
        (omega arith) in
    (set hs i o, w2, ground arith, Counted-fill w2 hs i c o k2 e, omega (arith, length-set hs i o))

other_move-Steps :
    (i j : ℕ) (hs : Handles) (w : World)
    → Counted w hs
    → i < length hs
    → j < length hs
    → i ≢ j
    → length hs + 1 < 2 ^ 32
    → Steps (assign_move i j) hs w
unfolding step is_slice
other_move-Steps i j hs w k h g ne room =
    let (c, e) = get_of_lt hs i h in
    let (o, f) = get_of_lt hs j g in
    let rest : Handles = set hs i empty_handle in
    let len : length rest ≡ length hs = length-set hs i empty_handle in
    let (w1, r1, k1) =
      release_error_ref-Counted c w rest (Counted-vacate w hs i c k e) (omega arith) in
    let still : get_elem? (set hs i o) j ≡ some o = get_elem?-set_ne hs o ne ∙ f in
    (
      set (set hs i o) j empty_handle,
      w1,
      ground arith,
      (λ a ha. ground (
        arith,
        k1 a ha,
        handles_on-set a hs i c empty_handle e,
        handles_on-set a hs i c o e,
        handles_on-set a (set hs i o) j o empty_handle still,
      )),
      omega (arith, length-set (set hs i o) j empty_handle, length-set hs i o),
    )

live_after_le : (c : Command) (n : ℕ) → live_after c n ≤ n + 1
live_after_le (copy i) n = omega arith
live_after_le (move i) n = omega arith
live_after_le (destroy i) n = omega arith
live_after_le (assign_copy i j) n = omega arith
live_after_le (assign_move i j) n = omega arith

-- A command on live handles, of which there are fewer than 2 ^ 32 - 1, neither uses a freed slice
-- nor aborts, and leaves every slice counted once for each handle on it: a slice is freed when
-- and only when its last handle goes.
pub step-Counted :
    (cmd : Command) (hs : Handles) (w : World)
    → Counted w hs
    → Names cmd (length hs)
    → length hs + 1 < 2 ^ 32
    → Steps cmd hs w
step-Counted (copy i) hs w k h room = copy-Steps i hs w k h room
step-Counted (move i) hs w k h room = move-Steps i hs w k h
step-Counted (destroy i) hs w k h room = destroy-Steps i hs w k h room
step-Counted (assign_copy i j) hs w k (h, g) room = elim (Bool-cases (i == j)) [
  | inl same ↦ let e : i ≡ j = ground arith in rw (← e) (self_copy-Steps i hs w k h)
  | inr other ↦ other_copy-Steps i j hs w k h g (ground arith) room
]
step-Counted (assign_move i j) hs w k (h, g) room = elim (Bool-cases (i == j)) [
  | inl same ↦ let e : i ≡ j = ground arith in rw (← e) (self_move-Steps i hs w k h)
  | inr other ↦ other_move-Steps i j hs w k h g (ground arith) room
]

-- Any history of commands that name live handles, fewer than 2 ^ 32 with the handles at its start,
-- runs to its end without a fault, and there every slice is counted once for each handle on it.
pub run-Counted :
    (cs : List Command) (hs : Handles) (w : World)
    → Counted w hs
    → AllNamed cs (length hs)
    → length hs + length cs < 2 ^ 32
    → (hs' : Handles) × (w' : World) × (run cs hs w ≡ done hs' w') × Counted w' hs'
unfolding run
run-Counted [] hs w k names room = (hs, w, refl, k)
run-Counted (c ∷ cs) hs w k (named, rest) room =
    let (hs1, w1, r1, k1, len) = step-Counted c hs w k named (omega arith) in
    let (hs2, w2, r2, k2) =
      run-Counted cs hs1 w1 k1 (rw len rest) (omega (arith, live_after_le c (length hs))) in
    (hs2, w2, rw (r1, run) r2, k2)
