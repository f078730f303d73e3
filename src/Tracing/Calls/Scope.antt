-- ===== src/Tracing/Calls/Scope.antt =====
-- Tracing/Calls: in the log of any sequence of calls, names are declared before they are used.
pub mod Entering
pub mod Active
pub mod Histories
use mathlib.Core.Path.{subst, ap₂}
use cpp_inter_op.Common.{
  ℕ, zero, suc, ◌+◌, ◌≡◌, refl, sym, ap, ◌∙◌, Bool, true, false, not, List, [], ◌∷◌, ◌++◌, map,
  Option, none, some, ◌⊎◌, inl, inr, Str, length, set, get_elem?, both-branches, Bool-cases,
  is_empty,
}
use cpp_inter_op.Errors.Encoding.{Address}
use cpp_inter_op.Tracing.Names.{ℤ, Name, var, out, ret, Line}
use cpp_inter_op.Tracing.Info.{
  TraceInfo, find, append_to_log, set_log_entry, push_timer, pop_timer, pop_from,
  inside_traced_region,
}
use cpp_inter_op.Tracing.Buffer.{Param, format}
use cpp_inter_op.Tracing.Calls.{
  TraceData, Returned, capture_slots, callbacks, declare_outs, placeholder, completed, enter, leave,
  record_result, run_callbacks, declare_results,
}
use cpp_inter_op.Tracing.Calls.Lines.{
  Uses, Uses-mono, Declares, Declared, Scoped, Uses-append, Uses-front, Declares-front,
  Declares-back, Declares-split, Scoped-set, Declared-set, Declared-set_new, Or,
}
use cpp_inter_op.Tracing.Calls.Keeping.{
  Nothing, Named, Named-mono, InLog, Keeps, Keeps-mono, Keeps-log, append-Keeps, append-log,
  append-rest,
}
use cpp_inter_op.Tracing.Calls.Keeping.Results.{
  Grows, Pending, Readable, InLog-Grows, OutsInLog, OutsInLog-Grows, run_callbacks-Keeps,
  declare_results-Keeps, append-Grows,
}
use cpp_inter_op.Tracing.Calls.Keeping.Returns.{record_result-Keeps}
use cpp_inter_op.Tracing.Calls.Keeping.Outs.{
  Fresh, AllNamed, AllNamed-mono, capture_slots-Keeps, Settles, declare_outs-Keeps,
}
use cpp_inter_op.Tracing.Calls.Keeping.Timers.{
  SameTimers, set-SameTimers, record_result-SameTimers, run_callbacks-SameTimers,
  declare_results-SameTimers, declare_outs-SameTimers, capture_slots-SameTimers, behind, pop-behind,
}
use cpp_inter_op.Tracing.Calls.Keeping.Arguments.{AllOut, format-Uses}

-- The line of a finished call uses what its placeholder uses.
module _ (start : Line) (name : Str) (args : Line) (ns : ℤ)
    (plain : (K : Name → Type 0) → Uses K start) where
  completed-Uses :
      (K : Name → Type 0) → Uses K (placeholder name args) → Uses K (completed start name args ns)
  completed-Uses K u =
      Uses-append K start _ (plain K) (Uses-append K args _ (Uses-front K args _ u) tt)

  completed-Declares :
      (n : Name) → Declares (placeholder name args) n → Declares (completed start name args ns) n
  completed-Declares n d =
      Declares-back start _ n (elim (Declares-split args _ n d) [
        | inl a ↦ Declares-front args _ n a
        | inr z ↦ elim z [ ]
      ])

  completed-start : (n : Name) → Declares start n → Declares (completed start name args ns) n
  completed-start n d = Declares-front start _ n d

module _ (given : Name → Type 0) where
  -- The outermost call: its placeholder is in the log, and its containers have names.
  abbrev pub Placed : TraceData → List Line → Type 0
  Placed td ls =
      (get_elem? ls td.log_index ≡ some (placeholder td.name td.arg_str))
      × OutsInLog given ls td.out_indices

  pop_from-Keeps :
      (pend : Name → Type 0) (ts : List Str) (ti : TraceInfo)
      → Keeps given pend ti
      → Keeps given pend (pop_from ts ti)
  pop_from-Keeps pend [] ti k = k
  pop_from-Keeps pend (t ∷ ts) ti k = record {
    writing = k.writing;
    handles = k.handles;
    outs = k.outs;
    scoped = k.scoped;
  }

  pop_from-log : (ts : List Str) (ti : TraceInfo) → (pop_from ts ti).log ≡ ti.log
  pop_from-log [] ti = refl
  pop_from-log (t ∷ ts) ti = refl

  pub pop_timer-log : (ti : TraceInfo) → (pop_timer ti).log ≡ ti.log
  unfolding pop_timer
  pop_timer-log ti = pop_from-log ti.timer_stack ti

  pub pop_timer-Keeps :
      (pend : Name → Type 0) (ti : TraceInfo)
      → Keeps given pend ti
      → Keeps given pend (pop_timer ti)
  unfolding pop_timer
  pop_timer-Keeps pend ti k = pop_from-Keeps pend ti.timer_stack ti k

  pub push_timer-Keeps :
      (pend : Name → Type 0) (t : Str) (ti : TraceInfo)
      → Keeps given pend ti
      → Keeps given pend (push_timer t ti)
  unfolding push_timer
  push_timer-Keeps pend t ti k = record {
    writing = k.writing;
    handles = k.handles;
    outs = k.outs;
    scoped = k.scoped;
  }

  set-rest :
      (i : ℕ) (l : Line) (ti : TraceInfo)
      → ti.dumping ≡ false
      → (let ti' = set_log_entry i l ti in
          (ti'.dumping ≡ ti.dumping)
          × (ti'.handle_map ≡ ti.handle_map)
          × (ti'.out_aliases ≡ ti.out_aliases)
          × (ti'.log ≡ set ti.log i l))
  unfolding set_log_entry
  set-rest i l ti e = rw (set_log_entry, e) (refl, refl, refl, refl)

  -- The placeholder of a call gives way to its line.
  set-Keeps :
      (pend pend' : Name → Type 0) (i : ℕ) (l l' : Line) (ti : TraceInfo)
      → get_elem? ti.log i ≡ some l
      → ((K : Name → Type 0) → Uses K l → Uses K l')
      → ((n : Name) → Declares l n → Declares l' n)
      → ((n : Name) → pend n → Declares l' n ⊎ pend' n)
      → Keeps given pend ti
      → Keeps given pend' (set_log_entry i l' ti)
        × Grows given ti (set_log_entry i l' ti)
        × ((n : Name) → Declares l' n → Declared (set_log_entry i l' ti).log n)
  set-Keeps pend pend' i l l' ti at uses declares new k =
      let (same_d, same_h, same_o, e) = set-rest i l' ti k.writing in
      let ti' = set_log_entry i l' ti in
      let old : Grows given ti ti' = λ n d.
        subst (λ ls. Declared ls n) (sym e) (Declared-set l l' uses declares ti.log i n at d) in
      let added : (n : Name) → Declares l' n → Declared ti'.log n =
        λ n d. subst (λ ls. Declared ls n) (sym e) (Declared-set_new ti.log i l l' n at d) in
      (
        Keeps-log given pend pend' ti ti' same_d same_h same_o old
            (λ n q. elim (new n q) [ inl d ↦ inl (added n d) | inr r ↦ inr r ])
            (subst (Scoped given) (sym e)
              (Scoped-set l l' uses declares given ti.log i at k.scoped))
            k,
        old,
        added,
      )

  Readable-Declared :
      (start : Line) (ls : List Line) (r : ℕ) (ds : List (ℕ × ℕ))
      → ((n : Name) → Declares start n → Declared ls n)
      → Readable given (start ∷ []) r ds
      → Readable given ls r ds
  Readable-Declared start ls r [] f x = tt
  Readable-Declared start ls r (d ∷ ds) f (inl x) = f (ret r) x
  Readable-Declared start ls r (d ∷ ds) f (inr z) = elim z [ ]

  pub leave-Keeps :
      (td : TraceData) (result : Returned) (ns : ℤ) (filled : Address → List Address)
      (ti : TraceInfo)
      → td.nested ≡ false
      → Placed td ti.log
      → Keeps given Nothing ti
      → Keeps given Nothing (leave td result ns filled ti)
        × ((leave td result ns filled ti).timer_stack ≡ behind ti.timer_stack)
  unfolding leave
  leave-Keeps td result ns filled ti outer (at, os) k =
      let popped = pop_timer ti in
      let ti1 = (record_result result popped).0 in
      let start = (record_result result popped).1 in
      let r = (record_result result popped).2 in
      let ds = (record_result result popped).3 in
      let (k1, same, plain, readable) =
        record_result-Keeps given result popped (pop_timer-Keeps Nothing ti k) in
      let log1 = same ∙ pop_timer-log ti in
      let l = placeholder td.name td.arg_str in
      let l' = completed start td.name td.arg_str ns in
      let ti2 = set_log_entry td.log_index l' ti1 in
      let (k2, grows, added) =
        set-Keeps (Or (Declares start) (Pending given ds)) (Pending given ds) td.log_index l l' ti1
          (ap (λ ls. get_elem? ls td.log_index) log1 ∙ at)
          (completed-Uses start td.name td.arg_str ns plain)
          (completed-Declares start td.name td.arg_str ns plain)
          (λ n x. elim x [
            | inl d ↦ inl (completed-start start td.name td.arg_str ns plain n d)
            | inr q ↦ inr q
          ])
          k1 in
      let os2 =
        OutsInLog-Grows given ti1 ti2 td.out_indices grows
          (subst (λ ls. OutsInLog given ls td.out_indices) (sym log1) os) in
      let ti3 = run_callbacks filled td.out_callbacks td.out_indices ti2 in
      let (k3, grows3) =
        run_callbacks-Keeps given (Pending given ds) filled td.out_callbacks td.out_indices ti2 os2
          k2 in
      let readable3 =
        Readable-Declared start ti3.log r ds
          (λ n d. grows3 n (added n (completed-start start td.name td.arg_str ns plain n d)))
          readable in
      rw (leave, outer)
        (
          declare_results-Keeps given r ds ti3 readable3 k3,
          declare_results-SameTimers r ds ti3
              ∙ run_callbacks-SameTimers filled td.out_callbacks td.out_indices ti2
              ∙ set-SameTimers td.log_index l' ti1
              ∙ record_result-SameTimers result popped
              ∙ pop-behind ti,
        )
