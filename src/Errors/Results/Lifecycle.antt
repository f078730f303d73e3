-- ===== src/Errors/Results/Lifecycle.antt =====
-- Errors/Results: the life of a Result from its making to its destructor.
use cpp_inter_op.Common.{
  ◌+◌, ◌≡◌, ◌∙◌, refl, Bool, true, false, List, [], Option, none, some, arith, Str,
}
use cpp_inter_op.Errors.Encoding.{
  Status, compile_error, Address, is_ok, is_slice, make_slice, IsSliceAddress,
}
use cpp_inter_op.Errors.Slices.{
  World, ErrorSlice, done, M, ◌>>=◌, ◌>>◌, pure, get_status, retain_error_ref, bind_done,
}
use cpp_inter_op.Errors.Ownership.Counts.{recount, released, retain-live, release-live}
use cpp_inter_op.Errors.Producers.{Payload, build_slice}
use cpp_inter_op.Errors.Producers.Record.{
  build_slice_lem, drain_error_lem, built, last_status, first_message,
}
use cpp_inter_op.Errors.Results.{
  err_state, Result, error_of, of_error, result_destroy, result_status, make_result,
}

-- A pointer to a slice is no other encoding.
slice_bits :
    (a : Address)
    → IsSliceAddress a
    → (is_ok (make_slice a) ≡ false) × (is_slice (make_slice a) ≡ true)
unfolding is_ok is_slice make_slice
slice_bits a (nz, al) = ground arith

get_status-slice :
    (w : World) (a : Address) (s : ErrorSlice)
    → IsSliceAddress a
    → w.slices a ≡ some s
    → get_status (make_slice a) w ≡ done s.code w
unfolding get_status make_slice
get_status-slice w a s (nz, al) e = ground arith

-- The world after a fresh slice is held once, and after it is dropped.
abbrev held : World → Address → ErrorSlice → World
held w new s = recount w new s (s.refcount + 1)

abbrev dropped : World → Address → ErrorSlice → World
dropped w new s = released (held w new s) new (record s { refcount = s.refcount + 1 })

module _ {ℓ} (A : Type ℓ) where
  abbrev error_result : Address → Result A
  error_result new = record {
    content = err_state (make_slice new);
    has_error = true;
    unchecked = true;
  }

  of_error-fresh :
      (w : World) (new : Address) (s : ErrorSlice)
      → IsSliceAddress new
      → w.slices new ≡ some s
      → s.refcount ≡ 0
      → of_error {A = A} (make_slice new) w ≡ done (error_result new) (held w new s)
  unfolding of_error make_slice
  of_error-fresh w new s addr live fresh =
      let (not_ok, sl) = slice_bits new addr in
      rw not_ok (
        bind_done (retain_error_ref (make_slice new)) (λ _. pure (error_result new))
          (retain-live (make_slice new) w s sl live (omega arith)))

  -- A result is looked at and dropped.
  abbrev pub look_and_drop : Bool → Result A → M Status
  look_and_drop trivial r = do (r', s) ← result_status r; result_destroy trivial r'; pure s

  look_and_drop-held :
      (trivial : Bool) (w : World) (new : Address) (s : ErrorSlice)
      → IsSliceAddress new
      → s.refcount ≡ 0
      → look_and_drop trivial (error_result new) (held w new s) ≡ done s.code (dropped w new s)
  unfolding result_status result_destroy make_slice
  look_and_drop-held trivial w new s addr fresh =
      let s1 : ErrorSlice = record s { refcount = s.refcount + 1 } in
      let here : (held w new s).slices new ≡ some s1 = ground arith in
      let (not_ok, sl) = slice_bits new addr in
      rw (get_status-slice (held w new s) new s1 addr here, ◌>>=◌)
        (rw (
          release-live (make_slice new) (held w new s) s1 sl here (omega arith) (omega arith),
          ◌>>=◌,
        ))

  -- A fallible call that ends in an llvm::Error, at a fresh address that can be a slice's: its
  -- result reports the code of the last StatusError, CompileError if there is none, and after a
  -- look at the status the destructor runs to its end and frees the slice, so the live slices are
  -- those from before the call. The interpreter's waiting diagnostics are gone.
  pub make_result-lifecycle :
      (trivial : Bool) (w : World) (new ii : Address) (ps : List Payload) (p sig : Option Str)
      → IsSliceAddress new
      → w.slices new ≡ none
      → (w' : World) × ((make_result {A = A} new ii (error_of ps) p sig >>= look_and_drop trivial) w
          ≡ done (last_status compile_error ps) w')
        × ((a : Address) → w'.slices a ≡ w.slices a)
        × (w'.stored_diags ii ≡ [])
  unfolding make_result
  make_result-lifecycle trivial w new ii ps p sig addr unused =
      let code : Status = last_status compile_error ps in
      let msg : Str = first_message ps in
      let s : ErrorSlice = built w ii code msg p sig in
      let (w1, runs, slices, diags) = build_slice_lem w new ii code msg p sig in
      let live : w1.slices new ≡ some s = ground (arith, slices new) in
      (
        dropped w1 new s,
        rw (drain_error_lem new ii ps p sig) (
            bind_done (build_slice new ii code msg p sig >>= of_error {A = A})
              (look_and_drop trivial)
              (bind_done (build_slice new ii code msg p sig) (of_error {A = A}) runs
                ∙ of_error-fresh w1 new s addr live refl)
            ∙ look_and_drop-held trivial w1 new s addr refl),
        (λ a. ground (arith, slices a)),
        ground (arith, diags ii),
      )
