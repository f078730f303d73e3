-- ===== src/Errors/Ownership.antt =====
-- include/CppInterOp/Error.h: CapturedError, the handle that keeps a slice alive, and what any
-- history of such handles does to the counts.
pub mod Counts
pub mod Steps
pub mod Assignments
use cpp_inter_op.Common.{
  ℕ, zero, suc, ◌+◌, ◌-◌, ◌<◌, ◌≡◌, true, List, [], ◌∷◌, Option, none, some, ◌==◌, if◌then◌else◌,
  get_elem?, set,
}
use cpp_inter_op.Errors.Encoding.{ErrorRef, Address, ok_ref, is_slice}
use cpp_inter_op.Errors.Slices.{
  World, ErrorSlice, done, fault, abort, M, ◌>>=◌, ◌>>◌, pure, retain_error_ref, release_error_ref,
}

pub record CapturedError : Type 0 where
  pub ref : ErrorRef

-- The constructors and the destructor.
unfoldable pub captured : ErrorRef → M CapturedError
captured e = do retain_error_ref e; pure (record { ref = e })

unfoldable pub captured_copy : CapturedError → M CapturedError
captured_copy o = do retain_error_ref o.ref; pure (record { ref = o.ref })

-- The new handle and what is left of the old one.
unfoldable pub captured_move : CapturedError → CapturedError × CapturedError
captured_move o = (record { ref = o.ref }, record { ref = ok_ref })

-- The assignments between different objects; an assignment to itself does nothing.
unfoldable pub copy_assign : CapturedError → CapturedError → M CapturedError
copy_assign self o = do
  release_error_ref self.ref
  retain_error_ref o.ref
  pure (record { ref = o.ref })

unfoldable pub move_assign : CapturedError → CapturedError → M (CapturedError × CapturedError)
move_assign self o = do
  release_error_ref self.ref
  pure (record { ref = o.ref }, record { ref = ok_ref })

unfoldable pub captured_destroy : CapturedError → M (Unit {0})
captured_destroy c = release_error_ref c.ref

-- The live handles. A handle that goes out of scope leaves its place in the list.
abbrev pub Handles : Type 0
Handles = List CapturedError

abbrev pub remove_at {ℓ} : {A : Type ℓ} → List A → ℕ → List A
remove_at [] i = []
remove_at (x ∷ xs) zero = xs
remove_at (x ∷ xs) (suc i) = x ∷ remove_at xs i

pub data Command : Type 0 where
  copy move destroy : ℕ → Command
  assign_copy assign_move : ℕ → ℕ → Command

-- A handle by its position; there is none past the end.
at : Handles → ℕ → M CapturedError
at hs i w = elim (get_elem? hs i) [ none ↦ fault | some c ↦ done c w ]

-- One use of a live handle.
unfoldable pub step : Command → Handles → M Handles
unfolding at captured_copy captured_move copy_assign move_assign captured_destroy
step (copy i) hs = do c ← at hs i; new ← captured_copy c; pure (new ∷ hs)
step (move i) hs = do c ← at hs i; let moved = captured_move c; pure (moved.0 ∷ set hs i moved.1)
step (destroy i) hs = do c ← at hs i; captured_destroy c; pure (remove_at hs i)
step (assign_copy i j) hs = do
  c ← at hs i
  o ← at hs j
  if i == j then pure hs else (do new ← copy_assign c o; pure (set hs i new))
step (assign_move i j) hs = do
  c ← at hs i
  o ← at hs j
  if i == j then pure hs else (do (new, rest) ← move_assign c o; pure (set (set hs i new) j rest))

unfoldable pub run : List Command → Handles → M Handles
run [] hs w = done hs w
run (c ∷ cs) hs w = elim (step c hs w) [
  | done hs' w' ↦ run cs hs' w'
  | fault ↦ fault
  | abort ↦ abort
]

-- The handles on the slice at an address.
abbrev pub handles_on : Address → Handles → ℕ
handles_on a [] = 0
handles_on a (c ∷ hs) = (if c.ref.bits == a then 1 else 0) + handles_on a hs

-- A slice that is alive is counted once for each handle on it, and has one; on one that is not
-- alive there is no handle.
abbrev pub Agrees : Option ErrorSlice → ℕ → Type 0
Agrees none n = n ≡ 0
Agrees (some s) n = (s.refcount ≡ n) × (0 < n)

abbrev pub Counted : World → Handles → Type 0
Counted w hs =
    (a : Address) → is_slice (record { bits = a }) ≡ true → Agrees (w.slices a) (handles_on a hs)

-- A command that names live handles.
abbrev pub Names : Command → ℕ → Type 0
Names (copy i) n = i < n
Names (move i) n = i < n
Names (destroy i) n = i < n
Names (assign_copy i j) n = (i < n) × (j < n)
Names (assign_move i j) n = (i < n) × (j < n)

-- How many handles live after a command.
abbrev pub live_after : Command → ℕ → ℕ
live_after (copy i) n = n + 1
live_after (move i) n = n + 1
live_after (destroy i) n = n - 1
live_after (assign_copy i j) n = n
live_after (assign_move i j) n = n

-- A history each of whose commands names handles that are live when it runs.
abbrev pub AllNamed : List Command → ℕ → Type 0
AllNamed [] n = Unit
AllNamed (c ∷ cs) n = Names c n × AllNamed cs (live_after c n)
