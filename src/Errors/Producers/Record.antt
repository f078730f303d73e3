-- ===== src/Errors/Producers/Record.antt =====
-- Errors/Producers: what an error made from an llvm::Error tells.
use cpp_inter_op.Common.{
  ◌≡◌, ◌≢◌, ◌∙◌, refl, List, [], ◌∷◌, ◌++◌, map, Option, none, some, arith, if◌then◌else◌, ◌==◌,
  Str, is_empty,
}
use cpp_inter_op.Errors.Encoding.{Status, ok, compile_error, Address, make_slice, IsSliceAddress}
use cpp_inter_op.Errors.Slices.{
  World, ErrorSlice, done, ◌>>=◌, update, error_record, bind_done, diagnostic_info, ErrorRecord,
}
use cpp_inter_op.Errors.Producers.{
  build_slice, message_diagnostics, drain_error, handle_payloads, Payload, status_error, other_info,
}

-- The code of the last StatusError among the payloads.
abbrev pub last_status : Status → List Payload → Status
last_status c [] = c
last_status c (status_error d m ∷ ps) = last_status d ps
last_status c (other_info log ∷ ps) = last_status c ps

-- The first text that is not empty, of a StatusError's message or another's log.
abbrev pub first_message : List Payload → Str
first_message [] = []
first_message (status_error d m ∷ ps) = if is_empty m then first_message ps else m
first_message (other_info log ∷ ps) = if is_empty log then first_message ps else log

handle_payloads_code :
    (ps : List Payload) (c : Status) (m : Str) → (handle_payloads ps (c, m)).0 ≡ last_status c ps
unfolding handle_payloads
handle_payloads_code [] c m = refl
handle_payloads_code (status_error d n ∷ ps) c m = handle_payloads_code ps d _
handle_payloads_code (other_info log ∷ ps) c m = handle_payloads_code ps c _

handle_payloads_message :
    (ps : List Payload) (c : Status) (m : Str)
    → (handle_payloads ps (c, m)).1 ≡ (if is_empty m then first_message ps else m)
unfolding handle_payloads
handle_payloads_message [] c [] = refl
handle_payloads_message [] c (x ∷ m) = refl
handle_payloads_message (status_error d n ∷ ps) c [] = handle_payloads_message ps d n
handle_payloads_message (status_error d n ∷ ps) c (x ∷ m) = handle_payloads_message ps d (x ∷ m)
handle_payloads_message (other_info log ∷ ps) c [] = handle_payloads_message ps c log
handle_payloads_message (other_info log ∷ ps) c (x ∷ m) = handle_payloads_message ps c (x ∷ m)

-- The slice that an error is built as.
abbrev pub built : World → Address → Status → Str → Option Str → Option Str → ErrorSlice
built w ii code msg p sig = record {
  refcount = 0;
  owner = ii;
  code = code;
  diagnostics = message_diagnostics msg ++ w.stored_diags ii;
  producer = p;
  producer_signature = sig;
}

module _ (w : World) (new ii : Address) (code : Status) (msg : Str) (p sig : Option Str) where
  abbrev blank : ErrorSlice
  blank = record {
    refcount = 0;
    owner = ii;
    code = ok;
    diagnostics = [];
    producer = none;
    producer_signature = none;
  }

  abbrev filled : ErrorSlice
  filled = record {
    refcount = 0;
    owner = ii;
    code = code;
    diagnostics = [] ++ message_diagnostics msg;
    producer = p;
    producer_signature = sig;
  }

  abbrev built_world : World
  built_world = record {
    slices =
        update (update (update w.slices new (some blank)) new (some filled)) new
          (some (built w ii code msg p sig));
    stored_diags = update w.stored_diags ii [];
  }

  build_slice-runs : build_slice new ii code msg p sig w ≡ done (make_slice new) built_world
  unfolding build_slice
  build_slice-runs = ground arith

  -- The slice is new, all others are as they were, and the interpreter's diagnostics are gone.
  pub build_slice_lem :
      (w' : World) × (build_slice new ii code msg p sig w ≡ done (make_slice new) w')
      × ((a : Address)
          → w'.slices a ≡ (if new == a then some (built w ii code msg p sig) else w.slices a))
      × ((a : Address) → w'.stored_diags a ≡ (if ii == a then [] else w.stored_diags a))
  build_slice_lem = (built_world, build_slice-runs, (λ a. ground arith), (λ a. refl))

pub drain_error_lem :
    (new ii : Address) (ps : List Payload) (p sig : Option Str)
    → drain_error new ii ps p sig
      ≡ build_slice new ii (last_status compile_error ps) (first_message ps) p sig
unfolding drain_error
drain_error_lem new ii ps p sig =
    rw (handle_payloads_code ps compile_error [], handle_payloads_message ps compile_error [])

-- An error at a live slice tells what the slice holds.
error_record-slice :
    (w : World) (a : Address) (s : ErrorSlice)
    → IsSliceAddress a
    → w.slices a ≡ some s
    → error_record (make_slice a) w
      ≡ done
          (record {
            code = s.code;
            diagnostics = map diagnostic_info s.diagnostics;
            producer = s.producer;
            producer_signature = s.producer_signature;
          })
          w
unfolding error_record make_slice
error_record-slice w a s (nz, al) e = ground arith

-- What an error that `drain_error` makes tells of itself.
abbrev pub drained_record : World → Address → List Payload → Option Str → Option Str → ErrorRecord
drained_record w ii ps p sig = record {
  code = last_status compile_error ps;
  diagnostics = map diagnostic_info (message_diagnostics (first_message ps) ++ w.stored_diags ii);
  producer = p;
  producer_signature = sig;
}

-- The snapshot of an error drained from an llvm::Error, at an address that can be a slice's, has
-- the code of the last StatusError (CompileError if there is none), the first text that is not
-- empty as its first diagnostic, then the interpreter's waiting diagnostics in order, and the
-- producer. No diagnostic waits any more, and no other slice has changed.
pub error_record-drain_error :
    (w : World) (new ii : Address) (ps : List Payload) (p sig : Option Str)
    → IsSliceAddress new
    → (w' : World) × ((drain_error new ii ps p sig >>= error_record) w
        ≡ done (drained_record w ii ps p sig) w')
      × (w'.stored_diags ii ≡ [])
      × ((a : Address) → a ≢ new → w'.slices a ≡ w.slices a)
error_record-drain_error w new ii ps p sig ok_new =
    let code : Status = last_status compile_error ps in
    let msg : Str = first_message ps in
    let (w', runs, slices, diags) = build_slice_lem w new ii code msg p sig in
    (
      w',
      rw (drain_error_lem new ii ps p sig) (
          bind_done (build_slice new ii code msg p sig) error_record runs
          ∙ error_record-slice w' new (built w ii code msg p sig) ok_new
              (ground (arith, slices new))),
      ground (arith, diags ii),
      λ a ne. ground (arith, slices a),
    )
