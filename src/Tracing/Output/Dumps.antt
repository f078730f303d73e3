-- ===== src/Tracing/Output/Dumps.antt =====
-- Tracing/Output: what writing a reproducer leaves of the tracer's state.
use mathlib.Core.Path.{subst, ap₂}
use cpp_inter_op.Common.{
  ◌≡◌, refl, sym, ap, ◌∙◌, true, false, List, [], ◌∷◌, ◌++◌, Option, none, some, if◌then◌else◌, Str,
  codes, is_empty, inl, inr, Bool-cases, both-branches,
}
use cpp_inter_op.Tracing.Names.{ℤ}
use cpp_inter_op.Tracing.Info.{
  TraceInfo, TimerCall, set_dumping, inside_traced_region, append_to_log, set_log_entry, push_timer,
  pop_timer, on_top, start_timer, stop_timer,
}
use cpp_inter_op.Tracing.Calls.{
  enter, leave, capture_slots, callbacks, declare_outs, record_result, run_callbacks,
  declare_results,
}
use cpp_inter_op.Tracing.Timers.{IsPaired, push_timer-IsPaired, pop_timer-IsPaired}
use cpp_inter_op.Tracing.Output.{Texts, text_call, while_dumping, write_to_file}

-- The timer's calls of a call that calls nothing.
abbrev timed : Str → List Str → List TimerCall
timed name ts =
    (on_top stop_timer ts ++ start_timer name ∷ []) ++ (stop_timer name ∷ on_top start_timer ts)

abbrev dumping_with : List TimerCall → TraceInfo → TraceInfo
dumping_with calls ti = record ti { dumping = true; timer_calls = calls }

text_call-dumping :
    (name : Str) (ns : ℤ) (calls : List TimerCall) (ti : TraceInfo)
    → text_call name ns (dumping_with calls ti)
      ≡ pop_timer (push_timer name (dumping_with calls ti))
unfolding text_call enter leave capture_slots callbacks declare_outs append_to_log set_log_entry
    push_timer pop_timer record_result run_callbacks declare_results inside_traced_region
text_call-dumping name ns calls ti = elim (Bool-cases (is_empty ti.timer_stack)) [
  | inl e ↦ rw (e) refl
  | inr e ↦ rw (e) refl
]

-- Only the timers have been used since.
abbrev Timed : TraceInfo → TraceInfo → Type 0
Timed ti ti' =
    (calls : List TimerCall) × (ti' ≡ dumping_with calls ti) × (IsPaired ti → IsPaired ti')

text_call-Timed :
    (name : Str) (ns : ℤ) (calls : List TimerCall) (ti : TraceInfo)
    → Timed (dumping_with calls ti) (text_call name ns (dumping_with calls ti))
unfolding push_timer pop_timer
text_call-Timed name ns calls ti = (
  _,
  text_call-dumping name ns calls ti,
  λ h. subst IsPaired (sym (text_call-dumping name ns calls ti)) (
      pop_timer-IsPaired (push_timer name (dumping_with calls ti))
        (push_timer-IsPaired name (dumping_with calls ti) h)),
)

Timed-next :
    (name : Str) (ns : ℤ) (ti ti' : TraceInfo) → Timed ti ti' → Timed ti (text_call name ns ti')
Timed-next name ns ti ti' (calls, e, paired) =
    let (calls', e', paired') = text_call-Timed name ns calls ti in
    (
      calls',
      ap (text_call name ns) e ∙ e',
      λ h.
          subst (λ t. IsPaired (text_call name ns t)) (sym e)
            (paired' (subst IsPaired e (paired h))),
    )

Timed-version :
    (version : Str) (ns : ℤ) (ti ti' : TraceInfo)
    → Timed ti ti'
    → Timed ti (if is_empty version then text_call (codes "GetVersion") ns ti' else ti')
Timed-version version ns ti ti' h =
    both-branches (Timed ti) (is_empty version) _ _ (Timed-next (codes "GetVersion") ns ti ti' h) h

while_dumping-Timed :
    (version : Str) (ns : ℤ) (ti : TraceInfo)
    → ((calls : List TimerCall) × (while_dumping version ns ti
          ≡ record ti { dumping = false; timer_calls = calls })
        × (IsPaired ti → IsPaired (while_dumping version ns ti)))
unfolding while_dumping set_dumping
while_dumping-Timed version ns ti =
    let ti1 = dumping_with ti.timer_calls ti in
    let ti2 = if is_empty version then text_call (codes "GetVersion") ns ti1 else ti1 in
    let first = Timed-version version ns ti ti1 (ti.timer_calls, refl, λ h. h) in
    let (calls, e, paired) = Timed-next (codes "GetBuildInfo") ns ti ti2 first in
    (calls, ap (set_dumping false) e, paired)

-- Writing a reproducer, which calls the traced GetVersion and GetBuildInfo itself, leaves the log, the
-- handles, the counters and the active calls as they are, whether a call is active or not, and starts
-- and stops timers in pairs.
pub write_to_file-IsPaired :
    (split : Str → Str → Str × Str) (created : Option Str) (version : Str) (ns : ℤ) (texts : Texts)
    (ti : TraceInfo)
    → ti.dumping ≡ false
    → IsPaired ti
    → (let ti' = (write_to_file split created version ns texts ti).0 in
        (ti' ≡ record ti { timer_calls = ti'.timer_calls }) × IsPaired ti')
unfolding write_to_file
write_to_file-IsPaired split none version ns texts ti w h = (refl, h)
write_to_file-IsPaired split (some path) version ns texts ti w h =
    let (calls, e, paired) = while_dumping-Timed version ns ti in
    (
      e
          ∙ ap₂ (λ b cs. record ti { dumping = b; timer_calls = cs }) (sym w)
              (sym (ap (λ (t : TraceInfo). t.timer_calls) e)),
      paired h,
    )
