-- ===== src/Errors/Encoding/RoundTrip.antt =====
-- Errors/Encoding: what goes into an ErrorRef comes out, and the three encodings exclude each other.
use cpp_inter_op.Common.{◌≡◌, ◌≢◌, ◌⊎◌, refl, true, false, none, some, arith}
use cpp_inter_op.Errors.Encoding.{
  Status, ok, not_found, invalid_argument, ambiguous, parse_error, compile_error, unnamed, IsNamed,
  ErrorRef, Address, IsSliceAddress, is_ok, is_inline, is_slice, make_inline, inline_status,
  make_slice, slice,
}

-- Exactly one of the three encodings applies to a word.
encodings_exclusive :
    (e : ErrorRef)
    → ((is_ok e ≡ true) × (is_inline e ≡ false) × (is_slice e ≡ false))
      ⊎ ((is_ok e ≡ false) × (is_inline e ≡ true) × (is_slice e ≡ false))
      ⊎ ((is_ok e ≡ false) × (is_inline e ≡ false) × (is_slice e ≡ true))
unfolding is_ok is_inline is_slice
encodings_exclusive e = ground arith

-- A status that an enumerator names, other than Ok, comes back from its inline encoding, which is
-- no pointer.
make_inline_roundtrip :
    (s : Status)
    → IsNamed s
    → s ≢ ok
    → (is_inline (make_inline s) ≡ true)
      × (inline_status (make_inline s) ≡ s)
      × (slice (make_inline s) ≡ none)
unfolding is_inline make_inline inline_status slice
make_inline_roundtrip ok named h = absurd (h refl)
make_inline_roundtrip not_found named h = (refl, refl, refl)
make_inline_roundtrip invalid_argument named h = (refl, refl, refl)
make_inline_roundtrip ambiguous named h = (refl, refl, refl)
make_inline_roundtrip parse_error named h = (refl, refl, refl)
make_inline_roundtrip compile_error named h = (refl, refl, refl)
make_inline_roundtrip (unnamed n) named h = absurd named

-- A pointer to a slice comes back, and is neither Ok nor an inline status.
make_slice_roundtrip :
    (a : Address)
    → IsSliceAddress a
    → (slice (make_slice a) ≡ some a)
      × (is_ok (make_slice a) ≡ false)
      × (is_inline (make_slice a) ≡ false)
unfolding is_ok is_inline slice make_slice
make_slice_roundtrip a (nz, al) = ground arith

-- Exactly one of the three encodings applies to a word; a status that an enumerator names, other
-- than Ok, comes back from its inline encoding, which is no pointer; and a pointer to a slice
-- comes back, and is neither Ok nor an inline status.
pub encodings_roundtrip :
    (e : ErrorRef) (s : Status) (a : Address)
    → IsNamed s
    → s ≢ ok
    → IsSliceAddress a
    → (((is_ok e ≡ true) × (is_inline e ≡ false) × (is_slice e ≡ false))
        ⊎ ((is_ok e ≡ false) × (is_inline e ≡ true) × (is_slice e ≡ false))
        ⊎ ((is_ok e ≡ false) × (is_inline e ≡ false) × (is_slice e ≡ true)))
      × ((is_inline (make_inline s) ≡ true)
          × (inline_status (make_inline s) ≡ s)
          × (slice (make_inline s) ≡ none))
      × ((slice (make_slice a) ≡ some a)
          × (is_ok (make_slice a) ≡ false)
          × (is_inline (make_slice a) ≡ false))
encodings_roundtrip e s a named other at =
    (encodings_exclusive e, make_inline_roundtrip s named other, make_slice_roundtrip a at)
