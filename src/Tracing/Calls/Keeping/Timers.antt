-- ===== src/Tracing/Calls/Keeping/Timers.antt =====
-- Tracing/Calls: only entering and leaving a call change the stack of timers.
use cpp_inter_op.Common.{
  ℕ, suc, ◌≡◌, refl, ◌∙◌, Bool, true, false, List, [], ◌∷◌, Option, none, some, both-branches, Str,
}
use cpp_inter_op.Errors.Encoding.{Address}
use cpp_inter_op.Tracing.Names.{Line}
use cpp_inter_op.Tracing.Info.{
  TraceInfo, find, out_index_for, find_or_add_out, append_to_log, set_log_entry, next_ret_index,
  pop_timer, pop_from,
}
use cpp_inter_op.Tracing.Buffer.{Param, input, output}
use cpp_inter_op.Tracing.Calls.{
  Returned, nothing, value, pointer, pointers, resolve, register_results, append_element,
  register_elements, run_callbacks, declare_results, record_result, capture_slots, declare_outs,
  out_line, element_line,
}
use cpp_inter_op.Tracing.Names.{ret, out}
use cpp_inter_op.Tracing.Calls.Keeping.{Nothing, append-rest, resolve-cases}

-- The same timers are running.
abbrev pub SameTimers : TraceInfo → TraceInfo → Type 0
SameTimers ti ti' = ti'.timer_stack ≡ ti.timer_stack

append-SameTimers : (l : Line) (ti : TraceInfo) → SameTimers ti (append_to_log l ti).0
append-SameTimers l ti = (append-rest Nothing l ti).3

pub set-SameTimers : (i : ℕ) (l : Line) (ti : TraceInfo) → SameTimers ti (set_log_entry i l ti)
unfolding set_log_entry
set-SameTimers i l ti = both-branches (SameTimers ti) ti.dumping _ _ refl refl

pub resolve-SameTimers : (p : Address) (ti : TraceInfo) → SameTimers ti (resolve p ti).0
resolve-SameTimers p ti =
    resolve-cases Nothing (λ r. SameTimers ti r.0) p ti refl (λ n e. refl) refl

register_results-SameTimers :
    (i : ℕ) (ps : List Address) (ti : TraceInfo) → SameTimers ti (register_results i ps ti).0
unfolding register_results
register_results-SameTimers i [] ti = refl
register_results-SameTimers i (p ∷ ps) ti =
    register_results-SameTimers (suc i) ps (resolve p ti).0 ∙ resolve-SameTimers p ti

pub record_result-SameTimers :
    (result : Returned) (ti : TraceInfo) → SameTimers ti (record_result result ti).0
unfolding record_result next_ret_index
record_result-SameTimers nothing ti = refl
record_result-SameTimers value ti = refl
record_result-SameTimers (pointer p) ti = resolve-SameTimers p ti
record_result-SameTimers (pointers ps) ti = register_results-SameTimers 0 ps (next_ret_index ti).0

append_element-SameTimers :
    (index i : ℕ) (name : Option (ℕ × Bool)) (ti : TraceInfo)
    → SameTimers ti (append_element index i name ti)
append_element-SameTimers index i none ti = refl
append_element-SameTimers index i (some (n, true)) ti =
    append-SameTimers (element_line n (out index) i) ti
append_element-SameTimers index i (some (n, false)) ti = refl

register_elements-SameTimers :
    (index i : ℕ) (ps : List Address) (ti : TraceInfo)
    → SameTimers ti (register_elements index i ps ti)
unfolding register_elements
register_elements-SameTimers index i [] ti = refl
register_elements-SameTimers index i (p ∷ ps) ti =
    register_elements-SameTimers index (suc i) ps
      (append_element index i (resolve p ti).1 (resolve p ti).0)
    ∙ append_element-SameTimers index i (resolve p ti).1 (resolve p ti).0
    ∙ resolve-SameTimers p ti

pub run_callbacks-SameTimers :
    (filled : Address → List Address) (addresses : List Address) (ns : List ℕ) (ti : TraceInfo)
    → SameTimers ti (run_callbacks filled addresses ns ti)
unfolding run_callbacks
run_callbacks-SameTimers filled [] ns ti = refl
run_callbacks-SameTimers filled (a ∷ addresses) [] ti = refl
run_callbacks-SameTimers filled (a ∷ addresses) (n ∷ ns) ti =
    run_callbacks-SameTimers filled addresses ns (register_elements n 0 (filled a) ti)
    ∙ register_elements-SameTimers n 0 (filled a) ti

pub declare_results-SameTimers :
    (r : ℕ) (ds : List (ℕ × ℕ)) (ti : TraceInfo) → SameTimers ti (declare_results r ds ti)
unfolding declare_results
declare_results-SameTimers r [] ti = refl
declare_results-SameTimers r ((i, n) ∷ ds) ti =
    declare_results-SameTimers r ds (append_to_log (element_line n (ret r) i) ti).0
    ∙ append-SameTimers (element_line n (ret r) i) ti

pub declare_outs-SameTimers :
    (slots : List (ℕ × Bool)) (ti : TraceInfo) → SameTimers ti (declare_outs slots ti)
unfolding declare_outs
declare_outs-SameTimers [] ti = refl
declare_outs-SameTimers ((k, true) ∷ slots) ti =
    declare_outs-SameTimers slots (append_to_log (out_line k) ti).0
    ∙ append-SameTimers (out_line k) ti
declare_outs-SameTimers ((k, false) ∷ slots) ti = declare_outs-SameTimers slots ti

find_or_add_out-SameTimers :
    (o : Option ℕ) (a : Address) (ti : TraceInfo) → SameTimers ti (find_or_add_out o a ti).0
find_or_add_out-SameTimers none a ti = refl
find_or_add_out-SameTimers (some n) a ti = refl

pub capture_slots-SameTimers :
    (ps : List Param) (ti : TraceInfo) → SameTimers ti (capture_slots ps ti).0
unfolding capture_slots out_index_for
capture_slots-SameTimers [] ti = refl
capture_slots-SameTimers (input a ∷ ps) ti = capture_slots-SameTimers ps ti
capture_slots-SameTimers (output o ∷ ps) ti =
    both-branches (λ (r : TraceInfo × List (ℕ × Bool)). SameTimers ti r.0) o.is_pointer_container _
      _
      (capture_slots-SameTimers ps (out_index_for o.source_addr ti).0
        ∙ find_or_add_out-SameTimers (find o.source_addr ti.out_aliases) o.source_addr ti)
      (capture_slots-SameTimers ps ti)

-- The timers below the innermost call's.
abbrev pub behind : List Str → List Str
behind [] = []
behind (t ∷ ts) = ts

pub pop-behind : (ti : TraceInfo) → (pop_timer ti).timer_stack ≡ behind ti.timer_stack
unfolding pop_timer
pop-behind ti = from ti.timer_stack refl
  where
    from : (ts : List Str) → ti.timer_stack ≡ ts → (pop_from ts ti).timer_stack ≡ behind ts
    from [] e = e
    from (t ∷ ts) e = refl
