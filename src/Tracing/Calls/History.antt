-- ===== src/Tracing/Calls/History.antt =====
-- lib/CppInterOp/CppInterOp.cpp: the trace hooks of JIT calls and the log of a wrapper's source;
-- sequences of what reaches the log.
use cpp_inter_op.Common.{
  ℕ, Bool, true, false, List, [], ◌∷◌, ◌++◌, Option, none, some, if◌then◌else◌, Str, codes,
  is_empty,
}
use cpp_inter_op.Errors.Encoding.{Address}
use cpp_inter_op.Tracing.Names.{ℤ, decimal, signed, Name, var, chars, mention, Line}
use cpp_inter_op.Tracing.Info.{TraceInfo, Found, unseen, null, known, lookup_handle, append_to_log}
use cpp_inter_op.Tracing.Buffer.{Param}
use cpp_inter_op.Tracing.Calls.{TraceData, Returned, enter, resolve, leave}

-- The text of a handle in a comment.
abbrev pub shown : Found → Str → Line
shown unseen unknown = chars unknown ∷ []
shown null unknown = chars (codes "nullptr") ∷ []
shown (known n) unknown = mention (var n) ∷ []

-- CppInterOpTraceJitCallInvokeImpl, with the qualified name of the function.
unfoldable pub trace_invoke : Str → ℕ → Address → TraceInfo → TraceInfo
trace_invoke name nargs self ti =
    (append_to_log
      (chars (codes "  // JitCall::Invoke ")
        ∷ chars name
        ∷ chars (codes "(nargs=")
        ∷ chars (decimal nargs)
        ∷ chars (codes ", self=")
        ∷ (shown (lookup_handle self ti) (codes "nullptr") ++ chars (codes ")") ∷ []))
      ti).0

-- CppInterOpTraceJitCallInvokeDestructorImpl: an object that was not seen has no text.
unfoldable pub trace_invoke_destructor : Str → Address → ℕ → ℤ → TraceInfo → TraceInfo
trace_invoke_destructor name object nary with_free ti =
    (append_to_log
      (chars (codes "  // JitCall::InvokeDestructor ")
        ∷ chars name
        ∷ chars (codes "(object=")
        ∷ (shown (lookup_handle object ti) []
            ++ chars (codes ", nary=")
              ∷ chars (decimal nary)
              ∷ chars (codes ", withFree=")
              ∷ chars (signed with_free)
              ∷ chars (codes ")")
              ∷ []))
      ti).0

-- CppInterOpTraceJitCallInvokeReturnImpl, where the function is a constructor or returns a pointer
-- or reference, and the pointer is what the result holds.
unfoldable pub trace_invoke_return : Address → TraceInfo → TraceInfo
trace_invoke_return p ti = (resolve p ti).0

-- make_wrapper: the lines of the wrapper's source as comments, without the empty ones.
unfoldable pub comment_lines : List Str → TraceInfo → TraceInfo
comment_lines [] ti = ti
comment_lines (s ∷ ss) ti =
    let logged = comment_lines ss (append_to_log (chars (codes "  // ") ∷ chars s ∷ []) ti).0 in
    let skipped = comment_lines ss ti in if is_empty s then skipped else logged

unfoldable pub log_wrapper : Str → List Str → TraceInfo → TraceInfo
log_wrapper name source ti =
    let ti1 =
      (append_to_log
        (chars (codes "  // === Wrapper for ") ∷ chars name ∷ chars (codes " ===") ∷ []) ti).0 in
    (append_to_log (chars (codes "  // === End wrapper ===") ∷ []) (comment_lines source ti1)).0

-- What happens, in order: a traced call starts or returns, or code is run or compiled.
pub data Event : Type 0 where
  call : Str → List Param → Event
  return : Returned → ℤ → (Address → List Address) → Event
  invoke : Str → ℕ → Address → Event
  invoke_destructor : Str → Address → ℕ → ℤ → Event
  invoke_return : Address → Event
  wrapper : Str → List Str → Event

-- The calls that are active, the innermost first, and the names that results of JIT calls were given.
pub record State : Type 0 where
  pub info : TraceInfo
  pub active : List TraceData
  pub given : List Name

abbrev pub new_name : Option (ℕ × Bool) → List Name
new_name none = []
new_name (some (n, true)) = var n ∷ []
new_name (some (n, false)) = []

abbrev pub leave_innermost :
    List TraceData → Returned → ℤ → (Address → List Address) → State → State
leave_innermost [] result ns filled s = s
leave_innermost (td ∷ tds) result ns filled s = record s {
  info = leave td result ns filled s.info;
  active = tds;
}

unfoldable pub step : Event → State → State
step (call name args) s =
    let (ti, td) = enter name args s.info in record s { info = ti; active = td ∷ s.active }
step (return result ns filled) s = leave_innermost s.active result ns filled s
step (invoke name nargs self) s = record s { info = trace_invoke name nargs self s.info }
step (invoke_destructor name object nary with_free) s = record s {
  info = trace_invoke_destructor name object nary with_free s.info;
}
step (invoke_return p) s = record s {
  info = trace_invoke_return p s.info;
  given = new_name (resolve p s.info).1 ++ s.given;
}
step (wrapper name source) s = record s { info = log_wrapper name source s.info }

unfoldable pub run : List Event → State → State
run [] s = s
run (e ∷ es) s = run es (step e s)
