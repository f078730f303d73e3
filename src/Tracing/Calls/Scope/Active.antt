-- ===== src/Tracing/Calls/Scope/Active.antt =====
-- Tracing/Calls: what every event keeps of the log and of the active calls.
use mathlib.Core.Path.{subst, ap₂}
use mathlib.Core.Option.{none-ne-some}
use cpp_inter_op.Common.{
  ℕ, zero, suc, ◌≡◌, refl, sym, ap, ◌∙◌, true, false, not, List, [], ◌∷◌, ◌++◌, map, some, inr, Str,
  get_elem?, both-branches, is_empty,
}
use cpp_inter_op.Errors.Encoding.{Address}
use cpp_inter_op.Tracing.Names.{ℤ, Name, Line}
use cpp_inter_op.Tracing.Info.{
  TraceInfo, Found, unseen, null, known, lookup_handle, append_to_log, push_timer, pop_timer,
  inside_traced_region,
}
use cpp_inter_op.Tracing.Buffer.{Param}
use cpp_inter_op.Tracing.Calls.{TraceData, Returned, enter, leave, placeholder}
use cpp_inter_op.Tracing.Calls.History.{
  shown, trace_invoke, trace_invoke_destructor, comment_lines, log_wrapper,
}
use cpp_inter_op.Tracing.Calls.Lines.{Uses, Uses-append}
use cpp_inter_op.Tracing.Calls.Keeping.{
  Nothing, InLog, Keeps, append-Keeps, append-log, append-rest,
}
use cpp_inter_op.Tracing.Calls.Keeping.Results.{OutsInLog-Grows, append-Grows}
use cpp_inter_op.Tracing.Calls.Keeping.Timers.{behind, pop-behind}
use cpp_inter_op.Tracing.Calls.Scope.{
  Placed, leave-Keeps, pop_timer-Keeps, pop_timer-log, push_timer-Keeps,
}
use cpp_inter_op.Tracing.Calls.Scope.Entering.{enter-Entered}

get_elem?-append :
    (ls : List Line) (l m : Line) (i : ℕ)
    → get_elem? ls i ≡ some m
    → get_elem? (ls ++ l ∷ []) i ≡ some m
get_elem?-append [] l m i e = absurd (none-ne-some m e)
get_elem?-append (k ∷ ls) l m zero e = e
get_elem?-append (k ∷ ls) l m (suc i) e = get_elem?-append ls l m i e

module _ (given : Name → Type 0) where
  -- Of the active calls only the outermost is in the log.
  abbrev pub ActiveIn : List TraceData → List Line → Type 0
  ActiveIn [] ls = Unit
  ActiveIn (td ∷ []) ls = (td.nested ≡ false) × Placed given td ls
  ActiveIn (td ∷ u ∷ tds) ls = (td.nested ≡ true) × ActiveIn (u ∷ tds) ls

  -- The log and the active calls, between two events.
  abbrev pub Holds : List TraceData → TraceInfo → Type 0
  Holds tds ti =
      Keeps given Nothing ti
      × ActiveIn tds ti.log
      × (ti.timer_stack ≡ map (λ (td : TraceData). td.name) tds)

  ActiveIn-append :
      (tds : List TraceData) (l : Line) (ti : TraceInfo)
      → ti.dumping ≡ false
      → ActiveIn tds ti.log
      → ActiveIn tds (append_to_log l ti).0.log
  ActiveIn-append [] l ti w a = tt
  ActiveIn-append (td ∷ []) l ti w (outer, (at, os)) = (
    outer,
    (
      subst (λ ls. get_elem? ls td.log_index ≡ some (placeholder td.name td.arg_str))
          (sym (append-log given l ti w).0)
          (get_elem?-append ti.log l (placeholder td.name td.arg_str) td.log_index at),
      OutsInLog-Grows given ti (append_to_log l ti).0 td.out_indices (append-Grows given l ti w) os,
    ),
  )
  ActiveIn-append (td ∷ u ∷ tds) l ti w (inner, a) = (inner, ActiveIn-append (u ∷ tds) l ti w a)

  -- A comment.
  comment-Holds :
      (l : Line) (tds : List TraceData) (ti : TraceInfo)
      → Uses (InLog given ti.log) l
      → Holds tds ti
      → Holds tds (append_to_log l ti).0
  comment-Holds l tds ti u (k, a, t) = (
    append-Keeps given Nothing Nothing l ti u (λ n z. inr z) k,
    ActiveIn-append tds l ti k.writing a,
    (append-rest given l ti).3 ∙ t,
  )

  shown-Uses : (K : Name → Type 0) (f : Found) (unknown : Str) → Uses K (shown f unknown)
  shown-Uses K unseen unknown = tt
  shown-Uses K null unknown = tt
  shown-Uses K (known n) unknown = tt

  pub trace_invoke-Holds :
      (name : Str) (nargs : ℕ) (self : Address) (tds : List TraceData) (ti : TraceInfo)
      → Holds tds ti
      → Holds tds (trace_invoke name nargs self ti)
  unfolding trace_invoke
  trace_invoke-Holds name nargs self tds ti h =
      comment-Holds _ tds ti
        (Uses-append (InLog given ti.log) (shown (lookup_handle self ti) _) _
          (shown-Uses (InLog given ti.log) (lookup_handle self ti) _) tt)
        h

  pub trace_invoke_destructor-Holds :
      (name : Str) (object : Address) (nary : ℕ) (with_free : ℤ) (tds : List TraceData)
      (ti : TraceInfo)
      → Holds tds ti
      → Holds tds (trace_invoke_destructor name object nary with_free ti)
  unfolding trace_invoke_destructor
  trace_invoke_destructor-Holds name object nary with_free tds ti h =
      comment-Holds _ tds ti
        (Uses-append (InLog given ti.log) (shown (lookup_handle object ti) []) _
          (shown-Uses (InLog given ti.log) (lookup_handle object ti) []) tt)
        h

  comment_lines-Holds :
      (source : List Str) (tds : List TraceData) (ti : TraceInfo)
      → Holds tds ti
      → Holds tds (comment_lines source ti)
  unfolding comment_lines
  comment_lines-Holds [] tds ti h = h
  comment_lines-Holds (s ∷ ss) tds ti h =
      both-branches (Holds tds) (is_empty s) _ _ (comment_lines-Holds ss tds ti h)
        (comment_lines-Holds ss tds _ (comment-Holds _ tds ti tt h))

  pub log_wrapper-Holds :
      (name : Str) (source : List Str) (tds : List TraceData) (ti : TraceInfo)
      → Holds tds ti
      → Holds tds (log_wrapper name source ti)
  unfolding log_wrapper
  log_wrapper-Holds name source tds ti h =
      comment-Holds _ tds _ tt (comment_lines-Holds source tds _ (comment-Holds _ tds ti tt h))

  ActiveIn-same :
      (tds : List TraceData) (ls ls' : List Line) → ls' ≡ ls → ActiveIn tds ls → ActiveIn tds ls'
  ActiveIn-same tds ls ls' e a = subst (ActiveIn tds) (sym e) a

  -- A call starts.
  nested-Holds :
      (name : Str) (args : List Param) (td : TraceData) (tds : List TraceData) (ti : TraceInfo)
      → inside_traced_region ti ≡ true
      → Holds (td ∷ tds) ti
      → Holds ((enter name args ti).1 ∷ td ∷ tds) (enter name args ti).0
  unfolding enter push_timer
  nested-Holds name args td tds ti inside (k, a, t) =
      rw (enter, inside)
        (push_timer-Keeps given Nothing name ti k, (refl, a), ap (λ ts. name ∷ ts) t)

  enter-name :
      (name : Str) (args : List Param) (ti : TraceInfo) → (enter name args ti).1.name ≡ name
  unfolding enter
  enter-name name args ti =
      both-branches (λ (r : TraceInfo × TraceData). r.1.name ≡ name) (inside_traced_region ti) _ _
        refl refl

  outer-Holds :
      (name : Str) (args : List Param) (ti : TraceInfo)
      → inside_traced_region ti ≡ false
      → Holds [] ti
      → Holds ((enter name args ti).1 ∷ []) (enter name args ti).0
  outer-Holds name args ti outside (k, a, t) =
      let (k', t', outer, placed) = enter-Entered given name args ti outside k in
      (k', (outer, placed), t' ∙ ap₂ (λ n ts. n ∷ ts) (sym (enter-name name args ti)) t)

  leave-nested :
      (td : TraceData) (result : Returned) (ns : ℤ) (filled : Address → List Address)
      (ti : TraceInfo)
      → td.nested ≡ true
      → leave td result ns filled ti ≡ pop_timer ti
  unfolding leave
  leave-nested td result ns filled ti inner = rw (leave, inner) refl

  pop-Holds :
      (td : TraceData) (tds : List TraceData) (ti : TraceInfo)
      → Keeps given Nothing ti
      → ActiveIn tds ti.log
      → (ti.timer_stack ≡ map (λ (u : TraceData). u.name) (td ∷ tds))
      → Holds tds (pop_timer ti)
  pop-Holds td tds ti k a t = (
    pop_timer-Keeps given Nothing ti k,
    ActiveIn-same tds ti.log (pop_timer ti).log (pop_timer-log given ti) a,
    pop-behind ti ∙ ap behind t,
  )

  -- A call returns.
  pub leave-Holds :
      (td : TraceData) (tds : List TraceData) (result : Returned) (ns : ℤ)
      (filled : Address → List Address) (ti : TraceInfo)
      → Holds (td ∷ tds) ti
      → Holds tds (leave td result ns filled ti)
  leave-Holds td [] result ns filled ti (k, (outer, placed), t) =
      let (k', t') = leave-Keeps given td result ns filled ti outer placed k in
      (k', tt, t' ∙ ap behind t)
  leave-Holds td (u ∷ tds) result ns filled ti (k, (inner, a), t) =
      subst (Holds (u ∷ tds)) (sym (leave-nested td result ns filled ti inner))
        (pop-Holds td (u ∷ tds) ti k a t)

  pub call-Holds :
      (name : Str) (args : List Param) (tds : List TraceData) (ti : TraceInfo)
      → Holds tds ti
      → Holds ((enter name args ti).1 ∷ tds) (enter name args ti).0
  unfolding inside_traced_region
  call-Holds name args [] ti (k, a, t) =
      outer-Holds name args ti (ap (λ ts. not (is_empty ts)) t) (k, a, t)
  call-Holds name args (td ∷ tds) ti (k, a, t) =
      nested-Holds name args td tds ti (ap (λ ts. not (is_empty ts)) t) (k, a, t)
