-- ===== src/Errors/Diagnostics.antt =====
-- lib/CppInterOp/ErrorInternal.cpp: the accessors of one diagnostic, the consumer that stores what
-- Clang reports, and the diagnostics that wait at an interpreter.
pub mod Reports
use cpp_inter_op.Common.{
  ℕ, zero, suc, ◌≡◌, refl, Bool, true, false, List, [], ◌∷◌, ◌++◌, map, Option, none, some, arith,
  if◌then◌else◌, Str, length, get_elem?, ltb,
}
use cpp_inter_op.Errors.Encoding.{DiagnosticSeverity, note, warning, error, fatal, Address}
use cpp_inter_op.Errors.Slices.{
  World, StoredDiagView, ErrorSlice, Run, done, fault, abort, M, ◌>>=◌, ◌>>◌, pure, update, load,
  store, DiagnosticRef, null, in_slice, pending,
}

-- The record that a reference points to; `none` for a null reference.
unfoldable pub as_view : DiagnosticRef → M (Option StoredDiagView)
unfolding load
as_view null w = done none w
as_view (in_slice a i) w = elim (w.slices a) [
  | none ↦ fault
  | some s ↦ elim (get_elem? s.diagnostics i) [ none ↦ fault | some d ↦ done (some d) w ]
]
as_view (pending ii i) w = elim (get_elem? (w.stored_diags ii) i) [
  | none ↦ fault
  | some d ↦ done (some d) w
]

unfoldable pub get_diagnostic_severity : DiagnosticRef → M DiagnosticSeverity
unfolding as_view
get_diagnostic_severity d = do v ← as_view d; elim v [ some s ↦ pure s.sev | none ↦ pure note ]

unfoldable pub get_diagnostic_message : DiagnosticRef → M Str
unfolding as_view
get_diagnostic_message d = do v ← as_view d; elim v [ some s ↦ pure s.message | none ↦ pure [] ]

unfoldable pub get_diagnostic_file : DiagnosticRef → M Str
unfolding as_view
get_diagnostic_file d = do v ← as_view d; elim v [ some s ↦ pure s.file | none ↦ pure [] ]

unfoldable pub get_diagnostic_line : DiagnosticRef → M ℕ
unfolding as_view
get_diagnostic_line d = do v ← as_view d; elim v [ some s ↦ pure s.line | none ↦ pure 0 ]

unfoldable pub get_diagnostic_column : DiagnosticRef → M ℕ
unfolding as_view
get_diagnostic_column d = do v ← as_view d; elim v [ some s ↦ pure s.column | none ↦ pure 0 ]

-- clang::DiagnosticsEngine::Level
pub data Level : Type 0 where
  ignored note_level remark warning_level error_level fatal_level : Level

unfoldable pub map_clang_severity : Level → DiagnosticSeverity
map_clang_severity ignored = note
map_clang_severity note_level = note
map_clang_severity remark = note
map_clang_severity warning_level = warning
map_clang_severity error_level = error
map_clang_severity fatal_level = fatal

-- What the handler reads off a clang::Diagnostic: its text, and the presumed location if the
-- diagnostic has a valid one.
pub record PresumedLoc : Type 0 where
  pub filename : Option Str
  pub line : ℕ
  pub column : ℕ

pub record Diagnostic : Type 0 where
  pub text : Str
  pub location : Option PresumedLoc

abbrev or_empty : Option Str → Str
or_empty none = []
or_empty (some f) = f

unfoldable pub stored_view : Level → Diagnostic → StoredDiagView
unfolding map_clang_severity
stored_view level info = elim info.location [
  | none ↦ record {
    message = info.text;
    file = [];
    line = 0;
    column = 0;
    sev = map_clang_severity level;
  }
  | some loc ↦ record {
    message = info.text;
    file = or_empty loc.filename;
    line = loc.line;
    column = loc.column;
    sev = map_clang_severity level;
  }
]

-- CppInteropDiagConsumer: the interpreter it stores for and whether a consumer is chained behind
-- it. What that consumer is handed is the second result.
pub record CppInteropDiagConsumer : Type 0 where
  pub interp : Address
  pub raw : Bool

unfoldable pub handle_diagnostic :
    CppInteropDiagConsumer → Level → Diagnostic → World → World × List (Level × Diagnostic)
unfolding stored_view
handle_diagnostic c level info w = (
  record w {
    stored_diags =
        update w.stored_diags c.interp (w.stored_diags c.interp ++ stored_view level info ∷ []);
  },
  if c.raw then (level, info) ∷ [] else [],
)

unfoldable pub clear_pending : Address → World → World
clear_pending ii w = record w { stored_diags = update w.stored_diags ii [] }

unfoldable pub get_pending_diagnostic_count : Address → World → ℕ
get_pending_diagnostic_count ii w = length (w.stored_diags ii)

unfoldable pub get_pending_diagnostic : ℕ → Address → World → DiagnosticRef
get_pending_diagnostic i ii w = if ltb i (length (w.stored_diags ii)) then pending ii i else null

-- A run of reports, oldest first.
unfoldable pub handle_all :
    CppInteropDiagConsumer → List (Level × Diagnostic) → World → World × List (Level × Diagnostic)
unfolding handle_diagnostic
handle_all c [] w = (w, [])
handle_all c ((level, info) ∷ rest) w =
    let (w1, out) = handle_diagnostic c level info w in
    let (w2, outs) = handle_all c rest w1 in (w2, out ++ outs)
