-- ===== src/Boxes/Commands.antt =====
-- include/CppInterOp/Box.h: the boxes that live, and what is done with them.
use cpp_inter_op.Common.{
  ℕ, zero, suc, List, [], ◌∷◌, Option, none, some, ◌==◌, if◌then◌else◌, get_elem?, set,
}
use cpp_inter_op.Boxes.{
  Builtin, value_ops, Box, ValueRefCount, Heap, write, create_box, adopt_object, destroy_box,
  copy_box, move_box, copy_assign_box, move_assign_box,
}

-- The boxes that live.
abbrev pub remove_at : List Box → ℕ → List Box
remove_at [] i = []
remove_at (b ∷ bs) zero = bs
remove_at (b ∷ bs) (suc i) = b ∷ remove_at bs i

pub data Command : Type 0 where
  create_value : Builtin → ℕ → ℕ → Command
  make_value_box : ℕ → ℕ → ℕ → Command
  copy move destroy : ℕ → Command
  assign_copy assign_move : ℕ → ℕ → Command

-- MakeValueBox, at an address that `new` gives; there the value is copied and counted once.
unfoldable pub make_value : ℕ → ℕ → ℕ → Heap → Box × Heap
make_value address value qual_type h = (
  adopt_object address (some value_ops) qual_type,
  write address (some (record { rc = 1; value = value })) h,
)

abbrev pub BoxState : Type 0
BoxState = List Box × Heap

abbrev pub copied : List Box → Option (Box × Heap) → Option BoxState
copied bs none = none
copied bs (some (b, h)) = some (b ∷ bs, h)

abbrev pub stored : List Box → ℕ → Option (Box × Heap) → Option BoxState
stored bs i none = none
stored bs i (some (b, h)) = some (set bs i b, h)

abbrev pub moved : List Box → ℕ → ℕ → Option ((Box × Box) × Heap) → Option BoxState
moved bs i j none = none
moved bs i j (some ((b, rest), h)) = some (set (set bs i b) j rest, h)

abbrev pub dropped : List Box → ℕ → Option Heap → Option BoxState
dropped bs i none = none
dropped bs i (some h) = some (remove_at bs i, h)

-- A use of boxes by their positions. It does nothing where there is no such box, or where `new`
-- would give memory that is in use.
abbrev pub step_copy : List Box → Heap → Option Box → Option BoxState
step_copy bs h none = some (bs, h)
step_copy bs h (some b) = copied bs (copy_box b h)

abbrev pub step_move : List Box → ℕ → Heap → Option Box → Option BoxState
step_move bs i h none = some (bs, h)
step_move bs i h (some b) = some ((move_box b).0 ∷ set bs i (move_box b).1, h)

abbrev pub step_destroy : List Box → ℕ → Heap → Option Box → Option BoxState
step_destroy bs i h none = some (bs, h)
step_destroy bs i h (some b) = dropped bs i (destroy_box b h)

abbrev pub step_assign_copy : List Box → ℕ → ℕ → Heap → Option Box → Option Box → Option BoxState
step_assign_copy bs i j h none o = some (bs, h)
step_assign_copy bs i j h (some b) none = some (bs, h)
step_assign_copy bs i j h (some b) (some o) =
    if i == j then some (bs, h) else stored bs i (copy_assign_box b o h)

abbrev pub step_assign_move : List Box → ℕ → ℕ → Heap → Option Box → Option Box → Option BoxState
step_assign_move bs i j h none o = some (bs, h)
step_assign_move bs i j h (some b) none = some (bs, h)
step_assign_move bs i j h (some b) (some o) =
    if i == j then some (bs, h) else moved bs i j (move_assign_box b o h)

abbrev pub step_make : List Box → Heap → Box × Heap → Option ValueRefCount → Option BoxState
step_make bs h (b, h') none = some (b ∷ bs, h')
step_make bs h (b, h') (some used) = some (bs, h)

unfoldable pub step : Command → BoxState → Option BoxState
step (create_value t x qual_type) (bs, h) = some (create_box t x qual_type ∷ bs, h)
step (make_value_box address value qual_type) (bs, h) =
    step_make bs h (make_value address value qual_type h) (h address)
step (copy i) (bs, h) = step_copy bs h (get_elem? bs i)
step (move i) (bs, h) = step_move bs i h (get_elem? bs i)
step (destroy i) (bs, h) = step_destroy bs i h (get_elem? bs i)
step (assign_copy i j) (bs, h) = step_assign_copy bs i j h (get_elem? bs i) (get_elem? bs j)
step (assign_move i j) (bs, h) = step_assign_move bs i j h (get_elem? bs i) (get_elem? bs j)

unfoldable pub run : List Command → BoxState → Option BoxState
run [] s = some s
run (c ∷ cs) s = elim (step c s) [ none ↦ none | some s' ↦ run cs s' ]
