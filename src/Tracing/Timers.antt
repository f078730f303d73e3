-- ===== src/Tracing/Timers.antt =====
-- lib/CppInterOp/Tracing.h: how the timers of nested calls are started and stopped.
use cpp_inter_op.Common.{
  ℕ, suc, ◌≡◌, refl, sym, ap, ◌∙◌, false, List, [], ◌∷◌, ◌++◌, Option, none, some, if◌then◌else◌,
  Str, str_eq, str_eq_refl, length, leb, arith,
}
use cpp_inter_op.Tracing.Info.{
  TimerCall, start_timer, stop_timer, TraceInfo, push_timer, pop_timer, pop_from, clear, on_top,
  stop_all,
}

-- One timer at a time: a start while one runs and a stop of one that does not run are wrong.
abbrev pub after_call : TimerCall → Option Str → Option (Option Str)
after_call (start_timer t) none = some (some t)
after_call (start_timer t) (some u) = none
after_call (stop_timer t) none = none
after_call (stop_timer t) (some u) = if str_eq t u then some none else none

abbrev chain : Option (Option Str) → (Option Str → Option (Option Str)) → Option (Option Str)
chain none f = none
chain (some r) f = f r

-- What runs after the calls, if they are right.
abbrev pub replay : List TimerCall → Option Str → Option (Option Str)
replay [] running = some running
replay (c ∷ cs) running = chain (after_call c running) (replay cs)

chain-replay :
    (o : Option (Option Str)) (xs ys : List TimerCall)
    → ((r : Option Str) → replay (xs ++ ys) r ≡ chain (replay xs r) (replay ys))
    → chain o (replay (xs ++ ys)) ≡ chain (chain o (replay xs)) (replay ys)
chain-replay none xs ys ih = refl
chain-replay (some r) xs ys ih = ih r

replay-append :
    (xs ys : List TimerCall) (running : Option Str)
    → replay (xs ++ ys) running ≡ chain (replay xs running) (replay ys)
replay-append [] ys running = refl
replay-append (c ∷ cs) ys running = chain-replay (after_call c running) cs ys (replay-append cs ys)

abbrev top : List Str → Option Str
top [] = none
top (t ∷ ts) = some t

-- The timer of the innermost call runs, and no other.
abbrev pub IsPaired : TraceInfo → Type 0
IsPaired ti = replay ti.timer_calls none ≡ some (top ti.timer_stack)

-- More calls from there on.
continue-replay :
    (ti : TraceInfo) (cs : List TimerCall)
    → IsPaired ti
    → replay (ti.timer_calls ++ cs) none ≡ replay cs (top ti.timer_stack)
continue-replay ti cs h = replay-append ti.timer_calls cs none ∙ ap (λ o. chain o (replay cs)) h

stop-running :
    (t : Str) (cs : List TimerCall) → replay (stop_timer t ∷ cs) (some t) ≡ replay cs none
stop-running t cs = rw (str_eq_refl t) refl

pushed :
    (t : Str) (ts : List Str)
    → replay (on_top stop_timer ts ++ start_timer t ∷ []) (top ts) ≡ some (some t)
pushed t [] = refl
pushed t (u ∷ ts) = stop-running u (start_timer t ∷ [])

popped :
    (t : Str) (ts : List Str)
    → replay (stop_timer t ∷ on_top start_timer ts) (some t) ≡ some (top ts)
popped t [] = stop-running t []
popped t (u ∷ ts) = stop-running t (start_timer u ∷ [])

pub push_timer-IsPaired : (t : Str) (ti : TraceInfo) → IsPaired ti → IsPaired (push_timer t ti)
unfolding push_timer
push_timer-IsPaired t ti h =
    continue-replay ti (on_top stop_timer ti.timer_stack ++ start_timer t ∷ []) h
    ∙ pushed t ti.timer_stack

pop_from-IsPaired :
    (ts : List Str) (ti : TraceInfo) → ti.timer_stack ≡ ts → IsPaired ti → IsPaired (pop_from ts ti)
pop_from-IsPaired [] ti e h = h
pop_from-IsPaired (t ∷ ts) ti e h =
    continue-replay ti (stop_timer t ∷ on_top start_timer ts) h
    ∙ ap (λ s. replay (stop_timer t ∷ on_top start_timer ts) (top s)) e
    ∙ popped t ts

pub pop_timer-IsPaired : (ti : TraceInfo) → IsPaired ti → IsPaired (pop_timer ti)
unfolding pop_timer
pop_timer-IsPaired ti h = pop_from-IsPaired ti.timer_stack ti refl h

-- Calls that start (with a name) and return.
unfoldable pub run_timers : List (Option Str) → TraceInfo → TraceInfo
run_timers [] ti = ti
run_timers (some t ∷ cs) ti = run_timers cs (push_timer t ti)
run_timers (none ∷ cs) ti = run_timers cs (pop_timer ti)

run_timers-IsPaired :
    (cs : List (Option Str)) (ti : TraceInfo) → IsPaired ti → IsPaired (run_timers cs ti)
unfolding run_timers
run_timers-IsPaired [] ti h = h
run_timers-IsPaired (some t ∷ cs) ti h =
    run_timers-IsPaired cs (push_timer t ti) (push_timer-IsPaired t ti h)
run_timers-IsPaired (none ∷ cs) ti h =
    run_timers-IsPaired cs (pop_timer ti) (pop_timer-IsPaired ti h)

two_left : (n : ℕ) → leb (suc (suc n)) 1 ≡ false
two_left n = ground arith

stopped :
    (ts : List Str)
    → replay (stop_all ts) (top ts) ≡ (if leb (length ts) 1 then some none else none)
stopped [] = refl
stopped (t ∷ []) = stop-running t []
stopped (t ∷ u ∷ ts) =
    stop-running t (stop_all (u ∷ ts))
    ∙ sym (ap (λ b. if b then some none else none) (two_left (length ts)))

-- However calls start and return, a timer is only started while none runs and only stopped while it
-- runs, and the timer of the innermost active call is the one that runs; and clear keeps to this
-- exactly if at most one call is active.
pub run_timers_lem :
    (cs : List (Option Str)) (ti : TraceInfo)
    → IsPaired ti
    → (let ti' = run_timers cs ti in
        IsPaired ti'
        × (replay (clear ti').timer_calls none
            ≡ (if leb (length ti'.timer_stack) 1 then some none else none)))
unfolding clear
run_timers_lem cs ti h =
    let after = run_timers cs ti in
    let paired = run_timers-IsPaired cs ti h in
    (paired, continue-replay after (stop_all after.timer_stack) paired ∙ stopped after.timer_stack)
