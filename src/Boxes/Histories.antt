-- ===== src/Boxes/Histories.antt =====
-- Boxes: histories of boxes and their payloads.
use mathlib.Core.Path.{subst}
use cpp_inter_op.Common.{
  ℕ, zero, suc, ◌+◌, ◌^◌, ◌<◌, ◌≤◌, ◌≡◌, refl, sym, ◌∙◌, false, List, [], ◌∷◌, Option, none, some,
  ◌==◌, get_elem?, get_elem?-set_ne, set, length, length-set, arith, Bool-cases, inl, inr,
  both-branches, ◌↔◌,
}
use cpp_inter_op.Boxes.{
  Builtin, kind_of, kind_code, Box, ValueRefCount, Heap, owned, create_box, adopt_object,
  destroy_box, copy_box, move_box, copy_assign_box, move_assign_box,
}
use cpp_inter_op.Boxes.Commands.{
  remove_at, Command, create_value, make_value_box, copy, move, destroy, assign_copy, assign_move,
  make_value, BoxState, step_copy, step_move, step_destroy, step_assign_copy, step_assign_move,
  step_make, step, run,
}
use cpp_inter_op.Boxes.Counting.{
  count, holds, holders, Agrees, CountedBy, CountedBy-same, CountedBy-write, retain_owned-CountedBy,
  release_owned-CountedBy, holders-remove_at, holders-set, holders-length, same_count,
}

-- Each payload is counted once for each box that owns it; one that no box owns is not there.
abbrev pub IsCounted : BoxState → Type 0
IsCounted (bs, h) = CountedBy h (λ a. holders a bs)

-- How a use of some boxes goes well.
abbrev Ends : List Box → Option BoxState → Type 0
Ends bs o = (s : BoxState) × (o ≡ some s) × IsCounted s × (length s.0 ≤ 1 + length bs)

abbrev pub IsRoomFor : ℕ → Type 0
IsRoomFor n = n + 1 < 2 ^ 32

holders-room : (bs : List Box) → IsRoomFor (length bs) → (a : ℕ) → holders a bs + 1 < 2 ^ 32
holders-room bs room a = omega (arith, holders-length a bs, room)

-- A fundamental value owns nothing.
create_box-holds : (t : Builtin) (x qual_type a : ℕ) → holds a (create_box t x qual_type) ≡ 0
unfolding create_box owned kind_of
create_box-holds t x qual_type a =
    both-branches (λ o. count a o ≡ 0) (kind_code (kind_of t) == 17) none none refl refl

length-remove_at : (bs : List Box) (i : ℕ) → length (remove_at bs i) ≤ length bs
length-remove_at [] i = omega arith
length-remove_at (b ∷ bs) zero = omega arith
length-remove_at (b ∷ bs) (suc i) = omega (arith, length-remove_at bs i)

-- Another box than the one at a place is among the rest.
holds-other :
    (a : ℕ) (bs : List Box) (i j : ℕ) (o : Box)
    → (i == j) ≡ false
    → get_elem? bs j ≡ some o
    → holds a o ≤ holders a (remove_at bs i)
holds-other a [] i j o other f = absurd (ground (arith, f))
holds-other a (x ∷ bs) zero zero o other f = absurd (ground (arith, other))
holds-other a (x ∷ bs) zero (suc j) o other f = omega (arith, holders-remove_at a bs j o f)
holds-other a (x ∷ bs) (suc i) zero o other f = omega (arith, holders-remove_at a (x ∷ bs) zero o f)
holds-other a (x ∷ bs) (suc i) (suc j) o other f =
    omega (arith, holds-other a bs i j o (ground (arith, other)) f)

module _ (bs : List Box) (h : Heap) (c : IsCounted (bs, h)) (room : IsRoomFor (length bs)) where
  unchanged : Ends bs (some (bs, h))
  unchanged = ((bs, h), refl, c, omega arith)

  step_copy-Ends : (i : ℕ) (o : Option Box) → get_elem? bs i ≡ o → Ends bs (step_copy bs h o)
  unfolding copy_box
  step_copy-Ends i none e = unchanged
  step_copy-Ends i (some b) e =
      let (h', run, c') =
        retain_owned-CountedBy (owned b.kind b.storage) h (λ a. holders a bs) c
          (λ a. omega (arith, holders-remove_at a bs i b e)) (holders-room bs room) in
      rw (copy_box, run) (_, refl, c', omega arith)

  create_box-Ends :
      (t : Builtin) (x qual_type : ℕ) → Ends bs (some (create_box t x qual_type ∷ bs, h))
  create_box-Ends t x qual_type = (
    _,
    refl,
    CountedBy-same h c (λ a. omega (arith, create_box-holds t x qual_type a)),
    omega arith,
  )

  step_make-Ends :
      (address value qual_type : ℕ) (o : Option ValueRefCount)
      → h address ≡ o
      → Ends bs (step_make bs h (make_value address value qual_type h) o)
  unfolding make_value adopt_object owned
  step_make-Ends address value qual_type (some used) e = unchanged
  step_make-Ends address value qual_type none e =
      let nobody : holders address bs ≡ 0 =
        subst (λ o. Agrees o (holders address bs)) e (c address) in
      (
        _,
        refl,
        CountedBy-write address (some (record { rc = 1; value = value })) h (λ a. holders a bs)
            (λ a. count a (some address) + holders a bs) c
            (rw (same_count address) (omega (arith, nobody), omega arith))
            (λ a other. rw (other) (omega arith)),
        omega arith,
      )

  step_move-Ends : (i : ℕ) (o : Option Box) → get_elem? bs i ≡ o → Ends bs (step_move bs i h o)
  unfolding move_box owned
  step_move-Ends i none e = unchanged
  step_move-Ends i (some b) e = (
    _,
    refl,
    CountedBy-same h c
        (λ a. omega (arith, holders-remove_at a bs i b e, holders-set a bs i b (move_box b).1 e)),
    omega (arith, length-set bs i (move_box b).1),
  )

  step_destroy-Ends :
      (i : ℕ) (o : Option Box) → get_elem? bs i ≡ o → Ends bs (step_destroy bs i h o)
  unfolding destroy_box
  step_destroy-Ends i none e = unchanged
  step_destroy-Ends i (some b) e =
      let (h', run, c') =
        release_owned-CountedBy (owned b.kind b.storage) h (λ a. holders a (remove_at bs i))
          (CountedBy-same h c (λ a. holders-remove_at a bs i b e))
          (λ a. omega (arith, holders-room bs room a, holders-remove_at a bs i b e)) in
      rw (destroy_box, run) (_, refl, c', omega (arith, length-remove_at bs i))

  fewer_room :
      (i : ℕ) (b : Box)
      → get_elem? bs i ≡ some b
      → (a : ℕ) → holders a (remove_at bs i) + 1 < 2 ^ 32
  fewer_room i b e a = omega (arith, holders-room bs room a, holders-remove_at a bs i b e)

  -- The box that is assigned to gives its payload back.
  give_back :
      (i : ℕ) (b : Box)
      → get_elem? bs i ≡ some b
      → (h' : Heap) × (destroy_box b h ≡ some h') × CountedBy h' (λ a. holders a (remove_at bs i))
  unfolding destroy_box
  give_back i b e =
      release_owned-CountedBy (owned b.kind b.storage) h (λ a. holders a (remove_at bs i))
        (CountedBy-same h c (λ a. holders-remove_at a bs i b e)) (fewer_room i b e)

  step_assign_copy-Ends :
      (i j : ℕ) (b o : Option Box)
      → get_elem? bs i ≡ b
      → get_elem? bs j ≡ o
      → Ends bs (step_assign_copy bs i j h b o)
  unfolding copy_assign_box copy_box
  step_assign_copy-Ends i j none o e f = unchanged
  step_assign_copy-Ends i j (some b) none e f = unchanged
  step_assign_copy-Ends i j (some b) (some o) e f = elim (Bool-cases (i == j)) [
    | inl same ↦ rw (same) unchanged
    | inr other ↦
        let (h1, run1, c1) = give_back i b e in
        let (h2, run2, c2) =
          retain_owned-CountedBy (owned o.kind o.storage) h1 (λ a. holders a (remove_at bs i)) c1
            (λ a. holds-other a bs i j o other f) (fewer_room i b e) in
        rw (other, copy_assign_box, run1, copy_box, run2)
          (
            _,
            refl,
            CountedBy-same h2 c2 (λ a. sym (holders-set a bs i b o e)),
            omega (arith, length-set bs i o),
          )
  ]

  -- The payload of the box that is moved from is counted where it went.
  after_move :
      (a i j : ℕ) (b o : Box)
      → (i == j) ≡ false
      → get_elem? bs i ≡ some b
      → get_elem? bs j ≡ some o
      → holders a (remove_at bs i) ≡ holders a (set (set bs i (move_box o).0) j (move_box o).1)
  unfolding move_box owned
  after_move a i j b o other e f =
      let s1 = set bs i (move_box o).0 in
      let at_j : get_elem? s1 j ≡ some o =
        get_elem?-set_ne bs (move_box o).0 (λ same. absurd (ground (arith, other, same))) ∙ f in
      omega (
        arith,
        holders-set a s1 j o (move_box o).1 at_j,
        holders-remove_at a s1 j o at_j,
        holders-set a bs i b (move_box o).0 e,
      )

  step_assign_move-Ends :
      (i j : ℕ) (b o : Option Box)
      → get_elem? bs i ≡ b
      → get_elem? bs j ≡ o
      → Ends bs (step_assign_move bs i j h b o)
  unfolding move_assign_box move_box owned
  step_assign_move-Ends i j none o e f = unchanged
  step_assign_move-Ends i j (some b) none e f = unchanged
  step_assign_move-Ends i j (some b) (some o) e f = elim (Bool-cases (i == j)) [
    | inl same ↦ rw (same) unchanged
    | inr other ↦
        let (h1, run1, c1) = give_back i b e in
        rw (other, move_assign_box, run1)
          (
            _,
            refl,
            CountedBy-same h1 c1 (λ a. after_move a i j b o other e f),
            omega (arith, length-set (set bs i o) j (move_box o).1, length-set bs i o),
          )
  ]

step-Ends :
    (command : Command) (bs : List Box) (h : Heap)
    → IsCounted (bs, h)
    → IsRoomFor (length bs)
    → Ends bs (step command (bs, h))
unfolding step
step-Ends (create_value t x qual_type) bs h c room = create_box-Ends bs h c room t x qual_type
step-Ends (make_value_box address value qual_type) bs h c room =
    step_make-Ends bs h c room address value qual_type (h address) refl
step-Ends (copy i) bs h c room = step_copy-Ends bs h c room i (get_elem? bs i) refl
step-Ends (move i) bs h c room = step_move-Ends bs h c room i (get_elem? bs i) refl
step-Ends (destroy i) bs h c room = step_destroy-Ends bs h c room i (get_elem? bs i) refl
step-Ends (assign_copy i j) bs h c room =
    step_assign_copy-Ends bs h c room i j (get_elem? bs i) (get_elem? bs j) refl refl
step-Ends (assign_move i j) bs h c room =
    step_assign_move-Ends bs h c room i j (get_elem? bs i) (get_elem? bs j) refl refl

Agrees-gone : (o : Option ValueRefCount) (n : ℕ) → Agrees o n → (o ≡ none) ↔ (n ≡ 0)
Agrees-gone none n e = (λ _. e, λ _. refl)
Agrees-gone (some v) n (e, pos) = (λ x. absurd (cc), λ z. absurd (omega (arith, pos, z)))

-- Any history of boxes that are made, of fundamental values and of payloads, copied, moved,
-- assigned, to themselves as well, and destroyed, runs without a use of a payload that was
-- deleted: a payload counted once for each box that owns it before, and there only while some box
-- does, is so afterwards. So a payload is deleted exactly when no box owns it any more. It is enough
-- that fewer than 2^32 boxes can come to be.
pub run-IsCounted :
    (commands : List Command) (bs : List Box) (h : Heap)
    → IsCounted (bs, h)
    → length commands + length bs < 2 ^ 32
    → (bs' : List Box) × (h' : Heap) × (run commands (bs, h) ≡ some (bs', h'))
      × IsCounted (bs', h')
      × ((a : ℕ) → (h' a ≡ none) ↔ (holders a bs' ≡ 0))
unfolding run
run-IsCounted [] bs h c room = (bs, h, refl, c, λ a. Agrees-gone (h a) (holders a bs) (c a))
run-IsCounted (command ∷ commands) bs h c room =
    let (s, ran, c', longer) = step-Ends command bs h c (omega (arith, room)) in
    let (bs', h', ran', c'', gone) =
      run-IsCounted commands s.0 s.1 c' (omega (arith, room, longer)) in
    (bs', h', rw (run, ran) ran', c'', gone)
