-- ===== src/Boxes.antt =====
-- include/CppInterOp/Box.h, with the payload that lib/CppInterOp/Compatibility.h puts into a box.
pub mod Commands
pub mod Counting
pub mod Histories
pub mod Evaluation
mod Tests
use cpp_inter_op.Common.{
  ℕ, zero, suc, ◌+◌, ◌-◌, ◌%◌, ◌^◌, Bool, true, false, List, [], ◌∷◌, Option, none, some, ◌==◌,
  if◌then◌else◌, get_elem?, set,
}

-- The fundamental types of CPP_BOX_BUILTIN_TYPES.
pub data Builtin : Type 0 where
  bool char signed_char unsigned_char short unsigned_short int unsigned_int long unsigned_long
        long_long unsigned_long_long float double long_double :
      Builtin

pub data Kind : Type 0 where
  k_bool k_char_s k_s_char k_u_char k_short k_u_short k_int k_u_int k_long k_u_long k_long_long
        k_u_long_long k_float k_double k_long_double k_char_u k_void k_ptr_or_obj k_unspecified :
      Kind

-- KindOf, and the cases that the macro makes in a switch over the kind.
unfoldable pub kind_of : Builtin → Kind
kind_of bool = k_bool
kind_of char = k_char_s
kind_of signed_char = k_s_char
kind_of unsigned_char = k_u_char
kind_of short = k_short
kind_of unsigned_short = k_u_short
kind_of int = k_int
kind_of unsigned_int = k_u_int
kind_of long = k_long
kind_of unsigned_long = k_u_long
kind_of long_long = k_long_long
kind_of unsigned_long_long = k_u_long_long
kind_of float = k_float
kind_of double = k_double
kind_of long_double = k_long_double

unfoldable pub builtin_of : Kind → Option Builtin
builtin_of k_bool = some bool
builtin_of k_char_s = some char
builtin_of k_s_char = some signed_char
builtin_of k_u_char = some unsigned_char
builtin_of k_short = some short
builtin_of k_u_short = some unsigned_short
builtin_of k_int = some int
builtin_of k_u_int = some unsigned_int
builtin_of k_long = some long
builtin_of k_u_long = some unsigned_long
builtin_of k_long_long = some long_long
builtin_of k_u_long_long = some unsigned_long_long
builtin_of k_float = some float
builtin_of k_double = some double
builtin_of k_long_double = some long_double
builtin_of k_char_u = none
builtin_of k_void = none
builtin_of k_ptr_or_obj = none
builtin_of k_unspecified = none

-- The value of an enumerator.
abbrev pub kind_code : Kind → ℕ
kind_code k_bool = 0
kind_code k_char_s = 1
kind_code k_s_char = 2
kind_code k_u_char = 3
kind_code k_short = 4
kind_code k_u_short = 5
kind_code k_int = 6
kind_code k_u_int = 7
kind_code k_long = 8
kind_code k_u_long = 9
kind_code k_long_long = 10
kind_code k_u_long_long = 11
kind_code k_float = 12
kind_code k_double = 13
kind_code k_long_double = 14
kind_code k_char_u = 15
kind_code k_void = 16
kind_code k_ptr_or_obj = 17
kind_code k_unspecified = 18

-- The only table of operations there is, that of ValueRefCount.
pub data ObjectOps : Type 0 where
  value_ops : ObjectOps

-- The active member of the union; a fundamental value is told by a number. `{}` zeroes it.
pub data Storage : Type 0 where
  zeroed : Storage
  slot : Builtin → ℕ → Storage
  object : ℕ → Option ObjectOps → Storage

pub record Box : Type 0 where
  pub kind : Kind
  pub qual_type : ℕ
  pub storage : Storage

-- ValueRefCount, at the addresses that are alive. `none` as a result is undefined behaviour.
pub record ValueRefCount : Type 0 where
  pub rc : ℕ
  pub value : ℕ

abbrev pub Heap : Type 0
Heap = ℕ → Option ValueRefCount

abbrev pub write : ℕ → Option ValueRefCount → Heap → Heap
write p o h a = if p == a then o else h a

abbrev after_retain : ValueRefCount → ValueRefCount
after_retain v = record v { rc = (v.rc + 1) % 2 ^ 32 }

-- What `delete` or the decrement leave.
abbrev after_release : ValueRefCount → Option ValueRefCount
after_release v =
    if v.rc == 1 then none else some (record v { rc = (v.rc + (2 ^ 32 - 1)) % 2 ^ 32 })

unfoldable pub retain : ℕ → Heap → Option Heap
retain p h = elim (h p) [ none ↦ none | some v ↦ some (write p (some (after_retain v)) h) ]

unfoldable pub release : ℕ → Heap → Option Heap
release p h = elim (h p) [ none ↦ none | some v ↦ some (write p (after_release v) h) ]

-- The payload that a box owns: an object with operations.
abbrev pub object_with_ops : Storage → Option ℕ
object_with_ops (object p (some ops)) = some p
object_with_ops (object p none) = none
object_with_ops zeroed = none
object_with_ops (slot t x) = none

unfoldable pub owned : Kind → Storage → Option ℕ
owned kind storage = if kind_code kind == 17 then object_with_ops storage else none

-- The default constructor, Create and AdoptObject.
unfoldable pub new_box : Box
new_box = record { kind = k_unspecified; qual_type = 0; storage = zeroed }

unfoldable pub create_box : Builtin → ℕ → ℕ → Box
create_box t x qual_type = record { kind = kind_of t; qual_type = qual_type; storage = slot t x }

unfoldable pub adopt_object : ℕ → Option ObjectOps → ℕ → Box
adopt_object obj ops qual_type = record {
  kind = k_ptr_or_obj;
  qual_type = qual_type;
  storage = object obj ops;
}

-- What the copies do after the bits, and what the destructor does.
abbrev pub retain_owned : Option ℕ → Heap → Option Heap
retain_owned none h = some h
retain_owned (some p) h = retain p h

abbrev pub release_owned : Option ℕ → Heap → Option Heap
release_owned none h = some h
release_owned (some p) h = release p h

unfoldable pub destroy_box : Box → Heap → Option Heap
destroy_box b h = release_owned (owned b.kind b.storage) h

unfoldable pub copy_box : Box → Heap → Option (Box × Heap)
copy_box o h = elim (retain_owned (owned o.kind o.storage) h) [
  | none ↦ none
  | some h' ↦ some (record { kind = o.kind; qual_type = o.qual_type; storage = o.storage }, h')
]

-- The new box, and what is left of the old one.
unfoldable pub move_box : Box → Box × Box
move_box o = (
  record { kind = o.kind; qual_type = o.qual_type; storage = o.storage },
  record o { kind = k_unspecified },
)

-- The assignments between different boxes.
unfoldable pub copy_assign_box : Box → Box → Heap → Option (Box × Heap)
copy_assign_box self o h = elim (destroy_box self h) [ none ↦ none | some h' ↦ copy_box o h' ]

unfoldable pub move_assign_box : Box → Box → Heap → Option ((Box × Box) × Heap)
move_assign_box self o h = elim (destroy_box self h) [
  | none ↦ none
  | some h' ↦ some (move_box o, h')
]

abbrev pub object_ptr : Storage → ℕ
object_ptr (object p ops) = p
object_ptr zeroed = 0
object_ptr (slot t x) = 0

unfoldable pub get_object_ptr : Box → ℕ
get_object_ptr b = if kind_code b.kind == 17 then object_ptr b.storage else 0

-- The read of a member of the union; it is undefined unless that is the active one.
abbrev pub read_slot : Builtin → Storage → Option ℕ
read_slot t (slot s x) = if kind_code (kind_of s) == kind_code (kind_of t) then some x else none
read_slot t zeroed = none
read_slot t (object p ops) = none

-- `none` where the assertion fails.
unfoldable pub unbox : Builtin → Box → Option ℕ
unbox t b = if kind_code b.kind == kind_code (kind_of t) then read_slot t b.storage else none

abbrev visit_as {ℓ} : {R : Type ℓ} → (Builtin → ℕ → R) → Builtin → Option ℕ → Option R
visit_as vis t none = none
visit_as vis t (some x) = some (vis t x)

-- `none` where the kind is not dispatched.
unfoldable pub visit_value {ℓ} : {R : Type ℓ} → (Builtin → ℕ → R) → Box → Option R
visit_value vis b = elim (builtin_of b.kind) [ none ↦ none | some t ↦ visit_as vis t (unbox t b) ]

-- The conversion of a value of one type to another is that of the compiler.
unfoldable pub convert_to : (Builtin → ℕ → ℕ) → Box → Option ℕ
convert_to static_cast b = visit_value static_cast b
