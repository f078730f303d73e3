-- ===== src/Errors/Results/Void.antt =====
-- include/CppInterOp/Error.h: Result<void>.
use cpp_inter_op.Common.{Bool, true, false, not, ◌&&◌, if◌then◌else◌}
use cpp_inter_op.Errors.Encoding.{Status, ErrorRef, ok_ref, is_ok}
use cpp_inter_op.Errors.Slices.{
  abort, M, ◌>>=◌, ◌>>◌, pure, get_status, retain_error_ref, release_error_ref,
}
use cpp_inter_op.Errors.Ownership.{CapturedError, captured}

pub record VoidResult : Type 0 where
  pub err_state : ErrorRef
  pub unchecked : Bool

abbrev pub void_default : VoidResult
void_default = record { err_state = ok_ref; unchecked = true }

unfoldable pub void_of_error : ErrorRef → M VoidResult
void_of_error e =
    let r : VoidResult = record { err_state = e; unchecked = true } in
    if is_ok e then pure r else (do retain_error_ref e; pure r)

abbrev pub void_checked : VoidResult → VoidResult
void_checked r = record r { unchecked = false }

unfoldable pub void_copy : VoidResult → M (VoidResult × VoidResult)
void_copy o =
    let new : VoidResult = record { err_state = o.err_state; unchecked = o.unchecked } in
    if is_ok o.err_state
    then pure (new, void_checked o)
    else (do retain_error_ref o.err_state; pure (new, void_checked o))

unfoldable pub void_move : VoidResult → VoidResult × VoidResult
void_move o = (
  record { err_state = o.err_state; unchecked = o.unchecked },
  record { err_state = ok_ref; unchecked = false },
)

unfoldable pub void_destroy : VoidResult → M (Unit {0})
void_destroy r =
    if r.unchecked && not (is_ok r.err_state)
    then (λ w. abort)
    else if is_ok r.err_state
    then pure tt
    else release_error_ref r.err_state

unfoldable pub void_ok : VoidResult → VoidResult × Bool
void_ok r = (void_checked r, is_ok r.err_state)

unfoldable pub void_status : VoidResult → M (VoidResult × Status)
void_status r = do s ← get_status r.err_state; pure (void_checked r, s)

unfoldable pub void_error : VoidResult → VoidResult × ErrorRef
void_error r = (void_checked r, r.err_state)

unfoldable pub void_share : VoidResult → M (VoidResult × CapturedError)
void_share r = do c ← captured r.err_state; pure (void_checked r, c)
