-- ===== src/Errors/Producers.antt =====
-- lib/CppInterOp/ErrorInternal.h and ErrorInternal.cpp: how an error is made from a status, a
-- message, an llvm::Error and the diagnostics that wait at the interpreter.
pub mod Record
use cpp_inter_op.Common.{
  ℕ, ◌≡◌, refl, Bool, true, false, List, [], ◌∷◌, ◌++◌, map, Option, none, some, arith,
  if◌then◌else◌, Str, is_empty,
}
use cpp_inter_op.Errors.Encoding.{
  Status, ok, compile_error, DiagnosticSeverity, error, Address, ErrorRef, make_inline, make_slice,
}
use cpp_inter_op.Errors.Slices.{
  World, StoredDiagView, ErrorSlice, Run, done, fault, abort, M, ◌>>=◌, ◌>>◌, pure, update, load,
  store, alloc_slice,
}

-- Moves the waiting diagnostics of an interpreter behind those of a slice.
unfoldable pub drain_pending_into : Address → Address → M (Unit {0})
unfolding load store
drain_pending_into ii s w =
    (do
      slc ← load s
      store s (some (record slc { diagnostics = slc.diagnostics ++ w.stored_diags ii }))
      λ w'. done tt (record w' { stored_diags = update w'.stored_diags ii [] }))
      w

-- A message becomes the first diagnostic of the slice.
abbrev pub message_view : Str → StoredDiagView
message_view m = record { message = m; file = []; line = 0; column = 0; sev = error }

abbrev pub message_diagnostics : Str → List StoredDiagView
message_diagnostics m = if is_empty m then [] else message_view m ∷ []

-- The common end of `makeError` and `drainError`; `new` is the address the allocator gives.
unfoldable pub build_slice : Address → Address → Status → Str → Option Str → Option Str → M ErrorRef
unfolding alloc_slice load store drain_pending_into make_slice
build_slice new ii code msg producer producer_sig = do
  s ← alloc_slice new ii
  slc ← load s
  store s (
      some (record slc {
        code = code;
        producer = producer;
        producer_signature = producer_sig;
        diagnostics = slc.diagnostics ++ message_diagnostics msg;
      }))
  drain_pending_into ii s
  pure (make_slice s)

unfoldable pub make_error : Address → Address → Status → Str → Option Str → Option Str → M ErrorRef
make_error new ii s message producer producer_sig =
    build_slice new ii s message producer producer_sig

-- `makeError(Status)`
unfoldable pub make_status_error : Status → ErrorRef
unfolding make_inline
make_status_error s = make_inline s

-- The payloads of an llvm::Error: a StatusError, or another ErrorInfo with what its `log` prints.
pub data Payload : Type 0 where
  status_error : Status → Str → Payload
  other_info : Str → Payload

-- The handlers' variables after one payload and after all of them.
handle_payload : Payload → Status × Str → Status × Str
handle_payload (status_error c m) (code, msg) = (c, if is_empty msg then m else msg)
handle_payload (other_info log) (code, msg) = (code, if is_empty msg then log else msg)

unfoldable pub handle_payloads : List Payload → Status × Str → Status × Str
unfolding handle_payload
handle_payloads [] r = r
handle_payloads (p ∷ ps) r = handle_payloads ps (handle_payload p r)

unfoldable pub drain_error : Address → Address → List Payload → Option Str → Option Str → M ErrorRef
unfolding handle_payloads
drain_error new ii ps producer producer_sig =
    let (code, msg) = handle_payloads ps (compile_error, []) in
    build_slice new ii code msg producer producer_sig
