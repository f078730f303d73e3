-- ===== src/Tracing/Calls/Scope/Entering.antt =====
-- Tracing/Calls: the start of an outermost call.
use mathlib.Core.Path.{ap₂}
use cpp_inter_op.Common.{
  ℕ, ◌≡◌, refl, ap, ◌∙◌, Bool, true, false, List, [], ◌∷◌, ◌++◌, map, some, inl, inr, Str, length,
  get_elem?,
}
use cpp_inter_op.Errors.Encoding.{Address}
use cpp_inter_op.Tracing.Names.{Name, var, out, Line}
use cpp_inter_op.Tracing.Info.{TraceInfo, find, append_to_log, push_timer, inside_traced_region}
use cpp_inter_op.Tracing.Buffer.{Param, format}
use cpp_inter_op.Tracing.Calls.{TraceData, capture_slots, declare_outs, placeholder, enter}
use cpp_inter_op.Tracing.Calls.Lines.{Uses, Uses-mono, Uses-append, Or}
use cpp_inter_op.Tracing.Calls.Keeping.{
  Nothing, Named, Named-mono, InLog, Keeps, Keeps-mono, append-Keeps, append-log, append-rest,
}
use cpp_inter_op.Tracing.Calls.Keeping.Results.{InLog-Grows, OutsInLog, append-Grows}
use cpp_inter_op.Tracing.Calls.Keeping.Outs.{
  Fresh, AllNamed, AllNamed-mono, capture_slots-Keeps, declare_outs-Keeps,
}
use cpp_inter_op.Tracing.Calls.Keeping.Timers.{declare_outs-SameTimers, capture_slots-SameTimers}
use cpp_inter_op.Tracing.Calls.Keeping.Arguments.{AllOut, format-Uses}
use cpp_inter_op.Tracing.Calls.Scope.{Placed, push_timer-Keeps}

module _ (given : Name → Type 0) where
  -- The outermost call.
  AllNamed-AllOut :
      (ti : TraceInfo) (slots : List (ℕ × Bool)) (K : Name → Type 0)
      (h : (p : Address) (n : ℕ) → find p ti.handle_map ≡ some n → K (var n))
      → AllNamed given K slots
      → AllOut K ti h (map (λ (s : ℕ × Bool). s.0) slots)
  AllNamed-AllOut ti [] K h a = tt
  AllNamed-AllOut ti ((k, b) ∷ slots) K h (x, a) = (x, AllNamed-AllOut ti slots K h a)

  AllNamed-OutsInLog :
      (ls : List Line) (slots : List (ℕ × Bool)) (K : Name → Type 0)
      → ((n : Name) → K n → InLog given ls n)
      → AllNamed given K slots
      → OutsInLog given ls (map (λ (s : ℕ × Bool). s.0) slots)
  AllNamed-OutsInLog ls [] K f a = tt
  AllNamed-OutsInLog ls ((k, b) ∷ slots) K f (x, a) =
      (f (out k) x, AllNamed-OutsInLog ls slots K f a)

  get_elem?-last : (ls : List Line) (l : Line) → get_elem? (ls ++ l ∷ []) (length ls) ≡ some l
  get_elem?-last [] l = refl
  get_elem?-last (k ∷ ls) l = get_elem?-last ls l

  abbrev pub Entered : Str → TraceInfo → TraceInfo × TraceData → Type 0
  Entered name ti (ti', td) =
      Keeps given Nothing ti'
      × (ti'.timer_stack ≡ name ∷ ti.timer_stack)
      × (td.nested ≡ false)
      × Placed given td ti'.log

  pub enter-Entered :
      (name : Str) (args : List Param) (ti : TraceInfo)
      → inside_traced_region ti ≡ false
      → Keeps given Nothing ti
      → Entered name ti (enter name args ti)
  unfolding enter push_timer
  enter-Entered name args ti outer k =
      let ti1 = (capture_slots args ti).0 in
      let slots = (capture_slots args ti).1 in
      let (k1, named, same1) = capture_slots-Keeps given Nothing args ti k in
      let P = Or Nothing (Fresh given slots) in
      let k1' =
        Keeps-mono given P (Fresh given slots) ti1
          (λ n x. elim x [ inl z ↦ elim z [ ] | inr f ↦ f ]) k1 in
      let ti2 = declare_outs slots ti1 in
      let (k2, settles) = declare_outs-Keeps given slots ti1 k1' in
      let K = Named given (Fresh given slots) ti1.log in
      let named' =
        AllNamed-mono given (Named given P ti1.log) K slots
          (λ n x.
            Named-mono given P (Fresh given slots) ti1.log
              (λ m y. elim y [ inl z ↦ elim z [ ] | inr f ↦ f ]) n x)
          named in
      let indices = map (λ (s : ℕ × Bool). s.0) slots in
      let arg_str = format true indices args ti1 in
      let used =
        format-Uses K ti1 k1'.handles true indices args
          (AllNamed-AllOut ti1 slots K k1'.handles named') in
      let line = placeholder name arg_str in
      let line_used : Uses (InLog given ti2.log) line =
        Uses-append (InLog given ti2.log) arg_str _
          (Uses-mono K (InLog given ti2.log) arg_str settles used) tt in
      let ti3 = (append_to_log line ti2).0 in
      let (e, i) = append-log given line ti2 k2.writing in
      let k3 = append-Keeps given Nothing Nothing line ti2 line_used (λ n z. inr z) k2 in
      let grows = append-Grows given line ti2 k2.writing in
      let same =
        (append-rest given line ti2).3
        ∙ declare_outs-SameTimers slots ti1
        ∙ capture_slots-SameTimers args ti in
      rw (enter, outer)
        (
          push_timer-Keeps given Nothing name ti3 k3,
          ap (λ ts. name ∷ ts) same,
          refl,
          (
            ap₂ get_elem? e i ∙ get_elem?-last ti2.log line,
            AllNamed-OutsInLog ti3.log slots K
                (λ n x. InLog-Grows given ti2 ti3 n grows (settles n x)) named',
          ),
        )
