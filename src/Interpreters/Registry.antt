-- ===== src/Interpreters/Registry.antt =====
-- lib/CppInterOp/CppInterOp.cpp: the deque of interpreters, from RegisterInterpreter to
-- DeleteInterpreter; lib/CppInterOp/ErrorInternal.cpp: InstallDiagConsumer.
pub mod Order
pub mod Searches
pub mod Calls
pub mod History
pub mod Ownership
pub mod Places
use cpp_inter_op.Common.{
  ℕ, suc, ◌+◌, ◌≡◌, Bool, true, false, ◌&&◌, ◌||◌, not, List, [], ◌∷◌, ◌++◌, Option, none, some,
  ◌==◌, if◌then◌else◌, Str, length, is_empty,
}
use cpp_inter_op.Errors.Encoding.{Address}
use cpp_inter_op.Interpreters.Slots.{
  InterpreterInfo, construct, move_construct, move_assign, destroy,
}

-- The deque, the consumers that are installed at interpreters with the element that each of them
-- points to, the interpreters deleted so far, and SkipShutDown.
pub record Registry : Type 0 where
  pub interps : List InterpreterInfo
  pub consumers : List (Address × Address)
  pub deleted : List Address
  pub skip_shut_down : Bool

-- std::swap, by a temporary: the two elements and what is deleted on the way.
unfoldable pub swap :
    InterpreterInfo → InterpreterInfo → InterpreterInfo × InterpreterInfo × List Address
unfolding move_construct move_assign destroy
swap a b =
    let (tmp, a1) = move_construct 0 a in
    let (a2, b1, deleted_a) = move_assign a1 b in
    let (b2, tmp', deleted_b) = move_assign b1 tmp in
    (a2, b2, deleted_a ++ (deleted_b ++ destroy tmp'))

-- std::rotate by one to the left: the first element goes behind the others, by swaps.
unfoldable pub rotate : InterpreterInfo → List InterpreterInfo → List InterpreterInfo × List Address
unfolding swap
rotate x [] = (x ∷ [], [])
rotate x (y ∷ ys) =
    let (x', y', deleted) = swap x y in
    let (rest, later) = rotate y' ys in (x' ∷ rest, deleted ++ later)

-- std::deque::erase moves the elements behind the erased one, or those before it, by one, and
-- destroys the last or the first element. The elements before it are given from the nearest on.
unfoldable pub shift_back :
    InterpreterInfo → List InterpreterInfo → List InterpreterInfo × List Address
unfolding move_assign destroy
shift_back x [] = ([], destroy x)
shift_back x (y ∷ ys) =
    let (x', y', deleted) = move_assign x y in
    let (rest, later) = shift_back y' ys in (x' ∷ rest, deleted ++ later)

abbrev pub rev_append {ℓ} : {A : Type ℓ} → List A → List A → List A
rev_append [] ys = ys
rev_append (x ∷ xs) ys = rev_append xs (x ∷ ys)

-- pop_back
unfoldable pub pop_back : List InterpreterInfo → List InterpreterInfo × List Address
unfolding destroy
pop_back [] = ([], [])
pop_back (x ∷ []) = ([], destroy x)
pop_back (x ∷ y ∷ ys) = let (rest, deleted) = pop_back (y ∷ ys) in (x ∷ rest, deleted)

-- `front` is the choice of the standard library, from the number of elements on either side.
module _ (front : ℕ → ℕ → Bool) where
  unfoldable pub erase :
      List InterpreterInfo
      → InterpreterInfo
      → List InterpreterInfo
      → List InterpreterInfo × List Address
  unfolding shift_back
  erase before x after =
      if front (length before) (length after)
      then (let (shifted, deleted) = shift_back x before in (rev_append shifted after, deleted))
      else (let (shifted, deleted) = shift_back x after in (rev_append before shifted, deleted))

  -- DeleteInterpreter from the element after those that were passed.
  unfoldable pub delete_from :
      Address
      → List InterpreterInfo
      → List InterpreterInfo
      → Option (List InterpreterInfo × List Address)
  unfolding erase
  delete_from i before [] = none
  delete_from i before (x ∷ after) =
      let rest = delete_from i (x ∷ before) after in
      if x.holding.interpreter == i then some (erase before x after) else rest

  unfoldable pub delete_interpreter : Address → Registry → Registry × Bool
  unfolding delete_from pop_back
  delete_interpreter i r = elim r.interps [
    | [] ↦ (r, false)
    | x ∷ xs ↦
        if i == 0
        then (let (rest, deleted) = pop_back (x ∷ xs) in
            (record r { interps = rest; deleted = r.deleted ++ deleted }, true))
        else (elim (delete_from i [] (x ∷ xs)) [
          | none ↦ (r, false)
          | some (rest, deleted) ↦
              (record r { interps = rest; deleted = r.deleted ++ deleted }, true)
        ])
  ]

-- ActivateInterpreter from the first element that is not passed yet.
unfoldable pub activate_from :
    Address → List InterpreterInfo → Option (List InterpreterInfo × List Address)
unfolding rotate
activate_from i [] = none
activate_from i (x ∷ xs) =
    let rest = activate_from i xs in
    if x.holding.interpreter == i
    then some (rotate x xs)
    else (elim rest [ none ↦ none | some (ys, deleted) ↦ some (x ∷ ys, deleted) ])

unfoldable pub activate_interpreter : Address → Registry → Registry × Bool
unfolding activate_from
activate_interpreter i r = if i == 0 then (r, false) else (elim (activate_from i r.interps) [
  | none ↦ (r, false)
  | some (xs, deleted) ↦ (record r { interps = xs; deleted = r.deleted ++ deleted }, true)
])

-- `at` is the address of the new element.
unfoldable pub register_interpreter : Address → Address → Bool → List Str → Registry → Registry
unfolding construct
register_interpreter at i owned argv r = record r {
  interps = r.interps ++ construct at i owned argv ∷ [];
  consumers = (i, at) ∷ r.consumers;
}

-- `none` is the failed assertion that the deque is empty.
unfoldable pub use_external_interpreter : Address → Address → Registry → Option Registry
unfolding register_interpreter
use_external_interpreter at i r =
    if is_empty r.interps
    then some (register_interpreter at i false [] (record r { skip_shut_down = true }))
    else none

unfoldable pub last_interp : List InterpreterInfo → Option InterpreterInfo
last_interp [] = none
last_interp (x ∷ []) = some x
last_interp (x ∷ y ∷ ys) = last_interp (y ∷ ys)

unfoldable pub get_interpreter : Registry → Address
unfolding last_interp
get_interpreter r = elim (last_interp r.interps) [ none ↦ 0 | some x ↦ x.holding.interpreter ]

unfoldable pub find_interp : Address → List InterpreterInfo → Option InterpreterInfo
find_interp i [] = none
find_interp i (x ∷ xs) =
    let rest = find_interp i xs in if x.holding.interpreter == i then some x else rest

-- `none` is the failed assertion that the deque is not empty. An interpreter that is not registered
-- gives the last one.
unfoldable pub get_interp_info : Address → Registry → Option InterpreterInfo
unfolding find_interp last_interp
get_interp_info i r =
    if i == 0
    then last_interp r.interps
    else (elim (find_interp i r.interps) [ none ↦ last_interp r.interps | some x ↦ some x ])
