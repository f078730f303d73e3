-- ===== src/Errors/Tests.antt =====
-- Runs of the error component, and its theorems at concrete data.
use cpp_inter_op.Common.{
  ℕ, ◌≡◌, ◌≢◌, refl, Bool, true, false, List, [], ◌∷◌, ◌↔◌, none, some, arith, codes, if◌then◌else◌,
  ◌==◌, ◌⊎◌,
}
use cpp_inter_op.Errors.Encoding.{
  not_found, parse_error, error, warning, Address, ok_ref, is_ok, is_inline, is_slice, make_inline,
  inline_status, make_slice, slice,
}
use cpp_inter_op.Errors.Encoding.RoundTrip.{encodings_roundtrip}
use cpp_inter_op.Errors.Slices.{
  World, ErrorSlice, done, fault, abort, ◌>>=◌, error_record, retain_error_ref, release_error_ref,
  load, StoredDiagView, diagnostic_info,
}
use cpp_inter_op.Errors.Ownership.{
  Handles, Counted, Command, copy, move, destroy, assign_copy, assign_move, run, step,
}
use cpp_inter_op.Errors.Ownership.Assignments.{run-Counted}
use cpp_inter_op.Errors.Producers.{Payload, status_error, other_info, drain_error}
use cpp_inter_op.Errors.Producers.Record.{error_record-drain_error}
use cpp_inter_op.Errors.Results.{
  Result, err_state, error_of, of_error, make_result, result_copy, result_move, result_destroy,
  result_ok, value,
}
use cpp_inter_op.Errors.Results.Lifecycle.{look_and_drop, make_result-lifecycle}
use cpp_inter_op.Errors.Results.Checks.{Copied, result_copy-duty, of_error-result_move}
use cpp_inter_op.Errors.Diagnostics.{
  Level, warning_level, error_level, Diagnostic, CppInteropDiagConsumer, handle_all,
  get_pending_diagnostic, as_view,
}
use cpp_inter_op.Errors.Diagnostics.Reports.{views, handle_all_lem, as_view-get_pending_diagnostic}

abbrev a_view : StoredDiagView
a_view = record { message = codes "note"; file = codes "a.h"; line = 3; column = 1; sev = warning }

abbrev a_slice : ErrorSlice
a_slice = record {
  refcount = 1;
  owner = 7;
  code = not_found;
  diagnostics = a_view ∷ [];
  producer = none;
  producer_signature = none;
}

-- One slice at 16, one diagnostic waiting at interpreter 7.
abbrev world : World
world = record {
  slices = λ a. if 16 == a then some a_slice else none;
  stored_diags = λ a. if 7 == a then a_view ∷ [] else [];
}

abbrev handles : Handles
handles = record { ref = record { bits = 16 } } ∷ []

handles-Counted : Counted world handles
handles-Counted a h = ground arith

abbrev history : List Command
history =
    copy 0 ∷ move 1 ∷ assign_copy 2 0 ∷ assign_move 1 0 ∷ destroy 0 ∷ destroy 0 ∷ destroy 0 ∷ []

run-Counted_example :
    (hs' : Handles) × (w' : World) × (run history handles world ≡ done hs' w') × Counted w' hs'
run-Counted_example = run-Counted history handles world handles-Counted (omega arith) (omega arith)

-- The last handle takes the slice with it.
history_frees : (run history handles >>= (λ _. load 16)) world ≡ fault
unfolding run step load retain_error_ref release_error_ref
history_frees = refl

encodings_roundtrip_example :
    (((is_ok (record { bits = 48 }) ≡ true)
        × (is_inline (record { bits = 48 }) ≡ false)
        × (is_slice (record { bits = 48 }) ≡ false))
      ⊎ ((is_ok (record { bits = 48 }) ≡ false)
          × (is_inline (record { bits = 48 }) ≡ true)
          × (is_slice (record { bits = 48 }) ≡ false))
      ⊎ ((is_ok (record { bits = 48 }) ≡ false)
          × (is_inline (record { bits = 48 }) ≡ false)
          × (is_slice (record { bits = 48 }) ≡ true)))
    × ((is_inline (make_inline parse_error) ≡ true)
        × (inline_status (make_inline parse_error) ≡ parse_error)
        × (slice (make_inline parse_error) ≡ none))
    × ((slice (make_slice 48) ≡ some 48)
        × (is_ok (make_slice 48) ≡ false)
        × (is_inline (make_slice 48) ≡ false))
encodings_roundtrip_example =
    encodings_roundtrip (record { bits = 48 }) parse_error 48 tt (λ e. cc)
      (omega arith, omega arith)

abbrev payloads : List Payload
payloads = other_info [] ∷ status_error not_found (codes "no f") ∷ other_info (codes "late") ∷ []

error_record-drain_error_example :
    (w' : World) × ((drain_error 32 7 payloads none none >>= error_record) world
      ≡ done
          (record {
            code = not_found;
            diagnostics =
                record { severity = error; message = codes "no f"; file = []; line = 0; column = 0 }
                ∷ diagnostic_info a_view
                ∷ [];
            producer = none;
            producer_signature = none;
          })
          w')
    × (w'.stored_diags 7 ≡ [])
    × ((a : Address) → a ≢ 32 → w'.slices a ≡ world.slices a)
error_record-drain_error_example =
    error_record-drain_error world 32 7 payloads none none (omega arith, omega arith)

make_result-lifecycle_example :
    (w' : World) × ((make_result {A = ℕ} 32 7 (error_of payloads) none none
          >>= look_and_drop ℕ false)
        world
      ≡ done not_found w')
    × ((a : Address) → w'.slices a ≡ world.slices a)
    × (w'.stored_diags 7 ≡ [])
make_result-lifecycle_example =
    make_result-lifecycle ℕ false world 32 7 payloads none none (omega arith, omega arith) refl

-- A result with an inline error that nobody looked at.
abbrev fresh_error : Result ℕ
fresh_error = record {
  content = err_state (record { bits = 3 });
  has_error = true;
  unchecked = true;
}

abbrev seen_error : Result ℕ
seen_error = record {
  content = err_state (record { bits = 3 });
  has_error = true;
  unchecked = false;
}

abbrev moved_from : Result ℕ
moved_from = record { content = err_state ok_ref; has_error = false; unchecked = false }

result_copy-duty_example :
    ((result_destroy true fresh_error world ≡ abort) ↔ ◌≡◌ {A = Bool} true true)
    × Copied true true world (result_copy fresh_error world)
result_copy-duty_example = result_copy-duty true fresh_error world world refl refl

-- The copy of a result with a code alone succeeds.
copy_succeeds : result_copy fresh_error world ≡ done (fresh_error, seen_error) world
unfolding result_copy retain_error_ref
copy_succeeds = refl

of_error-result_move_example :
    ((made : Result ℕ) × (of_error {A = ℕ} ok_ref world ≡ done made world)
      × ((result_ok made).1 ≡ true)
      × (value made world ≡ fault))
    × (((result_ok moved_from).1 ≡ true)
        × (result_destroy false moved_from world ≡ fault)
        × (result_destroy true moved_from world ≡ done tt world))
unfolding result_move
of_error-result_move_example =
    of_error-result_move fresh_error fresh_error moved_from world world world refl refl refl

abbrev reports : List (Level × Diagnostic)
reports =
    (warning_level, record { text = codes "w"; location = none })
    ∷ (
      error_level,
      record {
        text = codes "e";
        location = some (record { filename = none; line = 4; column = 2 });
      },
    )
    ∷ []

abbrev consumer : CppInteropDiagConsumer
consumer = record { interp = 7; raw = true }

handle_all_lem_example :
    ((handle_all consumer reports world).0.stored_diags 7 ≡ a_view ∷ views reports)
    × ((handle_all consumer reports world).1 ≡ reports)
    × ((a : Address)
        → a ≢ 7
        → (handle_all consumer reports world).0.stored_diags a ≡ world.stored_diags a)
    × ((handle_all consumer reports world).0.slices ≡ world.slices)
handle_all_lem_example = handle_all_lem consumer reports world

as_view-get_pending_diagnostic_example :
    as_view (get_pending_diagnostic 0 7 world) world ≡ done (some a_view) world
as_view-get_pending_diagnostic_example = as_view-get_pending_diagnostic 0 7 world
