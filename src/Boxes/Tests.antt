-- ===== src/Boxes/Tests.antt =====
-- Runs of boxes, and their theorems at concrete data.
use cpp_inter_op.Common.{
  ℕ, ◌+◌, ◌≡◌, ◌↔◌, refl, true, List, [], ◌∷◌, none, some, ◌==◌, if◌then◌else◌, arith,
}
use cpp_inter_op.Boxes.{
  new_box, int, unsigned_char, kind_of, Box, Heap, value_ops, create_box, adopt_object, unbox,
  visit_value, convert_to, get_object_ptr, owned,
}
use cpp_inter_op.Boxes.Commands.{
  make_value, Command, make_value_box, create_value, copy, destroy, assign_copy, assign_move, run,
}
use cpp_inter_op.Boxes.Counting.{holders}
use cpp_inter_op.Boxes.Histories.{IsCounted, run-IsCounted}
use cpp_inter_op.Boxes.Evaluation.{Value, char_u, evaluate, evaluate-visit_value}

-- A payload at 16, in one box.
abbrev heap : Heap
heap a = if 16 == a then some (record { rc = 1; value = 5 }) else none

abbrev boxes : List Box
boxes =
    record (create_box int 0 0) {
      kind = (adopt_object 16 (some value_ops) 3).kind;
      storage = (adopt_object 16 (some value_ops) 3).storage;
    }
    ∷ []

boxes-IsCounted : IsCounted (boxes, heap)
unfolding adopt_object owned
boxes-IsCounted a = ground arith

-- The copy, the fundamental value that it is assigned to, and a second payload.
abbrev history : List Command
history =
    copy 0
    ∷ create_value int 7 2
    ∷ assign_copy 0 1
    ∷ make_value_box 32 6 4
    ∷ assign_move 1 0
    ∷ destroy 2
    ∷ []

run-IsCounted_example :
    (bs' : List Box) × (h' : Heap) × (run history (boxes, heap) ≡ some (bs', h'))
    × IsCounted (bs', h')
    × ((a : ℕ) → (h' a ≡ none) ↔ (holders a bs' ≡ 0))
run-IsCounted_example = run-IsCounted history boxes heap boxes-IsCounted (omega arith)

-- clang's unsigned `char`, whose value is 65.
abbrev letter : Value
letter = record {
  has_value = true;
  builtin = some char_u;
  qual_type = 9;
  convert = λ t. 65;
  contents = 0;
}

evaluate-visit_value_example :
    (b : Box) × (evaluate 0 letter 48 heap ≡ some (b, heap))
    × (b.kind ≡ kind_of unsigned_char)
    × (b.qual_type ≡ 9)
    × (unbox unsigned_char b ≡ some 65)
    × (visit_value (λ t x. x + 1) b ≡ some 66)
    × (convert_to (λ t x. x) b ≡ some 65)
    × (get_object_ptr b ≡ 0)
    × (evaluate 3 letter 48 heap ≡ some (new_box, heap))
    × (evaluate 0 (record letter { builtin = none }) 48 heap ≡ some (make_value 48 0 9 heap))
    × (get_object_ptr (make_value 48 0 9 heap).0 ≡ 48)
evaluate-visit_value_example =
    evaluate-visit_value (λ t x. x + 1) (λ t x. x) letter char_u unsigned_char 2 48 heap refl refl
      refl
