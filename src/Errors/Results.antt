-- ===== src/Errors/Results.antt =====
-- include/CppInterOp/Error.h: Result<T> and Result<void>, the values of fallible calls, in a build
-- with assertions, where an error that nobody looked at stops the program.
pub mod Lifecycle
pub mod Void
pub mod Checks
use cpp_inter_op.Common.{
  ℕ, ◌≡◌, refl, Bool, true, false, not, ◌&&◌, List, Option, none, some, if◌then◌else◌, Str,
}
use cpp_inter_op.Errors.Encoding.{Status, ok, Address, ErrorRef, ok_ref, is_ok}
use cpp_inter_op.Errors.Slices.{
  World, Run, done, fault, abort, M, ◌>>=◌, ◌>>◌, pure, get_status, retain_error_ref,
  release_error_ref,
}
use cpp_inter_op.Errors.Ownership.{CapturedError, captured}
use cpp_inter_op.Errors.Producers.{Payload, drain_error}

-- The union: which member was made last.
pub data Content {ℓ} (A : Type ℓ) : Type ℓ where
  val : A → Content A
  err_state : ErrorRef → Content A

pub record Result {ℓ} (A : Type ℓ) : Type ℓ where
  pub content : Content A
  pub has_error : Bool
  pub unchecked : Bool

-- llvm::Expected<T>: a value, or an llvm::Error by its payloads.
pub data Expected {ℓ} (A : Type ℓ) : Type ℓ where
  value_of : A → Expected A
  error_of : List Payload → Expected A

-- `A` is the value type. Its destructor does nothing if `trivial`.
module _ {ℓ} {A : Type ℓ} where
  -- `*valuePtr()`: a fault where the storage holds no value.
  read_value : Content A → M A
  read_value (val a) w = done a w
  read_value (err_state e) w = fault

  read_error : Content A → M ErrorRef
  read_error (val a) w = fault
  read_error (err_state e) w = done e w

  destroy_value : Bool → Content A → M (Unit {0})
  destroy_value trivial (val a) w = done tt w
  destroy_value true (err_state e) w = done tt w
  destroy_value false (err_state e) w = fault

  unfoldable pub of_value : A → Result A
  of_value a = record { content = val a; has_error = false; unchecked = true }

  unfoldable pub of_error : ErrorRef → M (Result A)
  of_error e =
      let r : Result A = record {
        content = err_state e;
        has_error = not (is_ok e);
        unchecked = true;
      } in
      if is_ok e then pure r else (do retain_error_ref e; pure r)

  mark_checked : Result A → Result A
  mark_checked r = record r { unchecked = false }

  -- The copy, and the source as it is left.
  unfoldable pub result_copy : Result A → M (Result A × Result A)
  unfolding read_value read_error mark_checked
  result_copy o =
      if o.has_error
      then (do
        e ← read_error o.content
        retain_error_ref e
        pure (
          record { content = err_state e; has_error = true; unchecked = o.unchecked },
          mark_checked o,
        ))
      else (do
        a ← read_value o.content
        pure (
          record { content = val a; has_error = false; unchecked = o.unchecked },
          mark_checked o,
        ))

  -- The new object, and the source as it is left. A value is left in place, moved from.
  unfoldable pub result_move : Result A → M (Result A × Result A)
  unfolding read_value read_error mark_checked
  result_move o =
      if o.has_error
      then (do
        e ← read_error o.content
        pure (
          record { content = err_state e; has_error = true; unchecked = o.unchecked },
          record { content = err_state ok_ref; has_error = false; unchecked = false },
        ))
      else (do
        a ← read_value o.content
        pure (
          record { content = val a; has_error = false; unchecked = o.unchecked },
          mark_checked o,
        ))

  unfoldable pub result_destroy : Bool → Result A → M (Unit {0})
  unfolding read_error destroy_value
  result_destroy trivial r =
      if r.unchecked && r.has_error
      then (λ w. abort)
      else if r.has_error
      then (do e ← read_error r.content; release_error_ref e)
      else destroy_value trivial r.content

  -- The observers return the object with its mark.
  unfoldable pub ignore : Result A → Result A
  unfolding mark_checked
  ignore r = mark_checked r

  unfoldable pub result_ok : Result A → Result A × Bool
  unfolding mark_checked
  result_ok r = (mark_checked r, not r.has_error)

  unfoldable pub result_status : Result A → M (Result A × Status)
  unfolding mark_checked read_error
  result_status r =
      if r.has_error
      then (do e ← read_error r.content; s ← get_status e; pure (mark_checked r, s))
      else pure (mark_checked r, ok)

  unfoldable pub result_error : Result A → M (Result A × ErrorRef)
  unfolding mark_checked read_error
  result_error r =
      if r.has_error
      then (do e ← read_error r.content; pure (mark_checked r, e))
      else pure (mark_checked r, ok_ref)

  unfoldable pub share : Result A → M (Result A × CapturedError)
  unfolding mark_checked read_error captured
  share r =
      if r.has_error
      then (do e ← read_error r.content; c ← captured e; pure (mark_checked r, c))
      else pure (mark_checked r, record { ref = ok_ref })

  unfoldable pub value : Result A → M (Result A × A)
  unfolding mark_checked read_value
  value r =
      if r.has_error then (λ w. abort) else (do a ← read_value r.content; pure (mark_checked r, a))

  unfoldable pub value_or : Result A → A → M (Result A × A)
  unfolding mark_checked read_value
  value_or r fallback =
      if r.has_error
      then pure (mark_checked r, fallback)
      else (do a ← read_value r.content; pure (mark_checked r, a))

  -- lib/CppInterOp/ErrorInternal.h
  unfoldable pub make_result :
      Address → Address → Expected A → Option Str → Option Str → M (Result A)
  unfolding of_value of_error
  make_result new ii (value_of a) producer sig = pure (of_value a)
  make_result new ii (error_of ps) producer sig = do
    e ← drain_error new ii ps producer sig
    of_error e
