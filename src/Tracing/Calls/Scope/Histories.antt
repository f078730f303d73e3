-- ===== src/Tracing/Calls/Scope/Histories.antt =====
-- Tracing/Calls: the names in the log of a sequence of calls.
use mathlib.Core.Path.{subst}
use mathlib.Core.Option.{none-ne-some}
use cpp_inter_op.Common.{
  ℕ, ◌≡◌, refl, sym, ◌∙◌, Bool, true, false, List, [], ◌∷◌, ◌++◌, Option, none, some, ◌⊎◌, inl, inr,
}
use cpp_inter_op.Errors.Encoding.{Address}
use cpp_inter_op.Tracing.Names.{ℤ, Name, var, out, Line}
use cpp_inter_op.Tracing.Info.{TraceInfo, initial}
use cpp_inter_op.Tracing.Calls.{TraceData, Returned, resolve}
use cpp_inter_op.Tracing.Calls.History.{
  trace_invoke_return, Event, call, return, invoke, invoke_destructor, invoke_return, wrapper,
  State, new_name, leave_innermost, step, run,
}
use cpp_inter_op.Tracing.Calls.Lines.{Scoped, Scoped-mono, Or}
use cpp_inter_op.Tracing.Calls.Keeping.{Nothing, Named, Keeps, New, resolve-Keeps}
use cpp_inter_op.Tracing.Calls.Keeping.Results.{OutsInLog}
use cpp_inter_op.Tracing.Calls.Keeping.Timers.{resolve-SameTimers}
use cpp_inter_op.Tracing.Calls.Scope.Active.{
  ActiveIn, Holds, trace_invoke-Holds, trace_invoke_destructor-Holds, log_wrapper-Holds,
  leave-Holds, call-Holds,
}

abbrev pub Among : List Name → Name → Type 0
Among [] n = ⊥
Among (m ∷ ms) n = (n ≡ m) ⊎ Among ms n

-- More names are given.
module _ (given given' : Name → Type 0) (more : (n : Name) → given n → given' n) where
  Named-given :
      (pend : Name → Type 0) (ls : List Line) (n : Name)
      → ((m : Name) → pend m → given' m)
      → Named given pend ls n
      → Named given' Nothing ls n
  Named-given pend ls n f (inl g) = inl (more n g)
  Named-given pend ls n f (inr (inl d)) = inr (inl d)
  Named-given pend ls n f (inr (inr q)) = inl (f n q)

  Keeps-given :
      (pend : Name → Type 0) (ti : TraceInfo)
      → ((m : Name) → pend m → given' m)
      → Keeps given pend ti
      → Keeps given' Nothing ti
  Keeps-given pend ti f k = record {
    writing = k.writing;
    handles = λ p n e. Named-given pend ti.log (var n) f (k.handles p n e);
    outs = λ a n e. Named-given pend ti.log (out n) f (k.outs a n e);
    scoped = Scoped-mono given given' ti.log more k.scoped;
  }

  OutsInLog-given : (ls : List Line) (ns : List ℕ) → OutsInLog given ls ns → OutsInLog given' ls ns
  OutsInLog-given ls [] o = tt
  OutsInLog-given ls (n ∷ ns) (inl g, os) = (inl (more (out n) g), OutsInLog-given ls ns os)
  OutsInLog-given ls (n ∷ ns) (inr d, os) = (inr d, OutsInLog-given ls ns os)

  ActiveIn-given :
      (tds : List TraceData) (ls : List Line) → ActiveIn given tds ls → ActiveIn given' tds ls
  ActiveIn-given [] ls a = tt
  ActiveIn-given (td ∷ []) ls (outer, (at, os)) =
      (outer, (at, OutsInLog-given ls td.out_indices os))
  ActiveIn-given (td ∷ u ∷ tds) ls (inner, a) = (inner, ActiveIn-given (u ∷ tds) ls a)

Among-append : (ms ns : List Name) (n : Name) → Among ns n → Among (ms ++ ns) n
Among-append [] ns n a = a
Among-append (m ∷ ms) ns n a = inr (Among-append ms ns n a)

New-Among :
    (name : Option (ℕ × Bool)) (ns : List Name) (n : Name)
    → New Nothing name n
    → Among (new_name name ++ ns) n
New-Among none ns n z = elim z [ ]
New-Among (some (k, true)) ns n e = inl e
New-Among (some (k, false)) ns n z = elim z [ ]

-- The state between two events.
abbrev pub IsSound : State → Type 0
IsSound s = Holds (Among s.given) s.active s.info

return-IsSound :
    (tds : List TraceData) (result : Returned) (ns : ℤ) (filled : Address → List Address)
    (ti : TraceInfo) (given : List Name)
    → Holds (Among given) tds ti
    → IsSound
        (leave_innermost tds result ns filled (record { info = ti; active = tds; given = given }))
return-IsSound [] result ns filled ti given h = h
return-IsSound (td ∷ tds) result ns filled ti given h =
    leave-Holds (Among given) td tds result ns filled ti h

step-IsSound : (e : Event) (s : State) → IsSound s → IsSound (step e s)
unfolding step trace_invoke_return
step-IsSound (call name args) s h = call-Holds (Among s.given) name args s.active s.info h
step-IsSound (return result ns filled) s h =
    return-IsSound s.active result ns filled s.info s.given h
step-IsSound (invoke name nargs self) s h =
    trace_invoke-Holds (Among s.given) name nargs self s.active s.info h
step-IsSound (invoke_destructor name object nary with_free) s h =
    trace_invoke_destructor-Holds (Among s.given) name object nary with_free s.active s.info h
step-IsSound (invoke_return p) s (k, a, t) =
    let name = (resolve p s.info).1 in
    let more = Among-append (new_name name) s.given in
    let (k1, same) = resolve-Keeps (Among s.given) Nothing p s.info k in
    (
      Keeps-given (Among s.given) (Among (new_name name ++ s.given)) more
          (Or Nothing (New (Among s.given) name)) (resolve p s.info).0
          (λ n x. elim x [ inl z ↦ elim z [ ] | inr new ↦ New-Among name s.given n new ]) k1,
      subst (ActiveIn (Among (new_name name ++ s.given)) s.active) (sym same) (
          ActiveIn-given (Among s.given) (Among (new_name name ++ s.given)) more s.active s.info.log
            a),
      resolve-SameTimers p s.info ∙ t,
    )
step-IsSound (wrapper name source) s h =
    log_wrapper-Holds (Among s.given) name source s.active s.info h

pub run-IsSound : (es : List Event) (s : State) → IsSound s → IsSound (run es s)
unfolding run
run-IsSound [] s h = h
run-IsSound (e ∷ es) s h = run-IsSound es (step e s) (step-IsSound e s h)

-- Whatever is called and whatever JIT code runs, finished or not, every variable that a line of the
-- log uses is declared by a line above it, or is the name that the result of a JIT call was given.
pub run-Scoped :
    (es : List Event)
    → (let s = run es (record { info = initial; active = []; given = [] }) in
        Scoped (Among s.given) s.info.log)
run-Scoped es =
    (run-IsSound es (record { info = initial; active = []; given = [] }) initial_sound).0.scoped
  where
    initial_sound : IsSound (record { info = initial; active = []; given = [] })
    initial_sound = (
      record {
        writing = refl;
        handles = λ p n e. absurd (none-ne-some n e);
        outs = λ a n e. absurd (none-ne-some n e);
        scoped = tt;
      },
      tt,
      refl,
    )
