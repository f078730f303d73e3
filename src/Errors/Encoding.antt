-- ===== src/Errors/Encoding.antt =====
-- include/CppInterOp/Error.h: Status, DiagnosticSeverity and the one-word encoding ErrorRef.
pub mod RoundTrip
use cpp_inter_op.Common.{
  ℕ, ◌+◌, ◌*◌, ◌/◌, ◌%◌, ◌^◌, ◌≡◌, ◌≢◌, Bool, ◌&&◌, not, Option, none, some, ◌==◌, if◌then◌else◌,
}

-- `enum class Status : uint8_t`. `unnamed` is a value of the underlying type that no enumerator
-- names: a cast of an integer can make one.
pub data Status : Type 0 where
  ok not_found invalid_argument ambiguous parse_error compile_error : Status
  unnamed : ℕ → Status

-- The value of an enumerator.
unfoldable pub status_code : Status → ℕ
status_code ok = 0
status_code not_found = 1
status_code invalid_argument = 2
status_code ambiguous = 3
status_code parse_error = 4
status_code compile_error = 5
status_code (unnamed n) = n

-- `static_cast<Status>` of a word: the low byte counts.
unfoldable pub cast_status : ℕ → Status
cast_status word =
    let n = word % 256 in
    if n == 0
    then ok
    else if n == 1
    then not_found
    else if n == 2
    then invalid_argument
    else if n == 3
    then ambiguous
    else if n == 4
    then parse_error
    else if n == 5
    then compile_error
    else unnamed n

pub data DiagnosticSeverity : Type 0 where
  note warning error fatal : DiagnosticSeverity

-- The address is 0 for a null pointer.
abbrev pub Address : Type 0
Address = ℕ

pub record ErrorRef : Type 0 where
  pub bits : ℕ

-- `ErrorRef{}`
abbrev pub ok_ref : ErrorRef
ok_ref = record { bits = 0 }

unfoldable pub is_ok : ErrorRef → Bool
is_ok e = e.bits == 0

-- `bits & 1U` is the remainder by 2.
unfoldable pub is_inline : ErrorRef → Bool
is_inline e = e.bits % 2 == 1

unfoldable pub is_slice : ErrorRef → Bool
is_slice e = not (e.bits == 0) && e.bits % 2 == 0

-- A shift by one leaves bit 0 clear, so `| 1U` adds one.
unfoldable pub make_inline : Status → ErrorRef
unfolding status_code
make_inline s =
    if status_code s == 0 then ok_ref else record { bits = (status_code s * 2) % 2 ^ 64 + 1 }

unfoldable pub inline_status : ErrorRef → Status
unfolding cast_status
inline_status e = cast_status (e.bits / 2)

unfoldable pub make_slice : Address → ErrorRef
make_slice s = record { bits = s }

-- `none` is the null pointer.
unfoldable pub slice : ErrorRef → Option Address
unfolding is_slice
slice e = if is_slice e then some e.bits else none

-- What the allocator guarantees of an `alignas(16)` object.
abbrev pub IsSliceAddress : Address → Type 0
IsSliceAddress a = (a ≢ 0) × (a % 16 ≡ 0)

-- A status that an enumerator names.
abbrev pub IsNamed : Status → Type 0
IsNamed (unnamed n) = ⊥
IsNamed s = Unit {0}
