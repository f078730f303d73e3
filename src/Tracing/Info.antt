-- ===== src/Tracing/Info.antt =====
-- lib/CppInterOp/Tracing.h: TraceInfo.
use cpp_inter_op.Common.{
  ℕ, ◌+◌, ◌%◌, ◌^◌, Bool, true, false, ◌&&◌, not, List, [], ◌∷◌, ◌++◌, Option, none, some, ◌==◌,
  if◌then◌else◌, Str, length, set, is_empty,
}
use cpp_inter_op.Errors.Encoding.{Address}
use cpp_inter_op.Tracing.Names.{Line}

-- The calls of llvm::Timer, which is told by its name.
pub data TimerCall : Type 0 where
  start_timer stop_timer : Str → TimerCall

-- The maps are association lists, the newest entry first; `errs` is what goes to the error stream.
pub record TraceInfo : Type 0 where
  pub timer_stack : List Str
  pub timer_calls : List TimerCall
  pub handle_map : List (Address × ℕ)
  pub var_count : ℕ
  pub ret_count : ℕ
  pub out_count : ℕ
  pub out_aliases : List (Address × ℕ)
  pub log : List Line
  pub region_start : ℕ
  pub in_region : Bool
  pub dumping : Bool
  pub write_on_std_err : Bool
  pub region_path : Str
  pub errs : List Line

-- A new TraceInfo.
abbrev pub initial : TraceInfo
initial = record {
  timer_stack = [];
  timer_calls = [];
  handle_map = [];
  var_count = 0;
  ret_count = 0;
  out_count = 0;
  out_aliases = [];
  log = [];
  region_start = 0;
  in_region = false;
  dumping = false;
  write_on_std_err = false;
  region_path = [];
  errs = [];
}

-- The counters are of 32 bits.
abbrev pub next : ℕ → ℕ
next n = (n + 1) % 2 ^ 32

abbrev pub find : Address → List (Address × ℕ) → Option ℕ
find p [] = none
find p ((q, n) ∷ m) = let rest = find p m in if q == p then some n else rest

-- What lookupHandle gives: the empty string, "nullptr" or the handle's name.
pub data Found : Type 0 where
  unseen null : Found
  known : ℕ → Found

abbrev pub as_found : Option ℕ → Found
as_found none = unseen
as_found (some n) = known n

unfoldable pub lookup_handle : Address → TraceInfo → Found
lookup_handle p ti = if p == 0 then null else as_found (find p ti.handle_map)

-- The new entry and its name.
abbrev pub register_handle : Address → TraceInfo → TraceInfo × ℕ
register_handle p ti =
    let n = next ti.var_count in
    (record ti { var_count = n; handle_map = (p, n) ∷ ti.handle_map }, n)

abbrev pub get_or_register : Option ℕ → Address → TraceInfo → TraceInfo × Option ℕ
get_or_register none p ti = let (ti', n) = register_handle p ti in (ti', some n)
get_or_register (some n) p ti = (ti, some n)

-- `none` is the empty string, for a null pointer.
unfoldable pub get_or_register_handle : Address → TraceInfo → TraceInfo × Option ℕ
get_or_register_handle p ti =
    if p == 0 then (ti, none) else get_or_register (find p ti.handle_map) p ti

unfoldable pub next_ret_index : TraceInfo → TraceInfo × ℕ
next_ret_index ti = (record ti { ret_count = next ti.ret_count }, ti.ret_count)

-- The index and whether it is new.
abbrev pub find_or_add_out : Option ℕ → Address → TraceInfo → TraceInfo × ℕ × Bool
find_or_add_out none a ti = (
  record ti { out_count = next ti.out_count; out_aliases = (a, ti.out_count) ∷ ti.out_aliases },
  ti.out_count,
  true,
)
find_or_add_out (some n) a ti = (ti, n, false)

unfoldable pub out_index_for : Address → TraceInfo → TraceInfo × ℕ × Bool
out_index_for a ti = find_or_add_out (find a ti.out_aliases) a ti

unfoldable pub append_to_log : Line → TraceInfo → TraceInfo × ℕ
append_to_log line ti = if ti.dumping then (ti, 0) else (
  record ti {
    log = ti.log ++ line ∷ [];
    errs = if ti.in_region && ti.write_on_std_err then ti.errs ++ line ∷ [] else ti.errs;
  },
  length ti.log,
)

-- An index out of range is undefined behaviour; no write is made then.
unfoldable pub set_log_entry : ℕ → Line → TraceInfo → TraceInfo
set_log_entry i line ti = if ti.dumping then ti else record ti { log = set ti.log i line }

unfoldable pub set_dumping : Bool → TraceInfo → TraceInfo
set_dumping b ti = record ti { dumping = b }

-- True when at least one region is active.
unfoldable pub inside_traced_region : TraceInfo → Bool
inside_traced_region ti = not (is_empty ti.timer_stack)

-- The call of the timer on top of the stack, if there is one.
abbrev pub on_top : (Str → TimerCall) → List Str → List TimerCall
on_top f [] = []
on_top f (t ∷ ts) = f t ∷ []

unfoldable pub push_timer : Str → TraceInfo → TraceInfo
push_timer t ti = record ti {
  timer_stack = t ∷ ti.timer_stack;
  timer_calls = ti.timer_calls ++ (on_top stop_timer ti.timer_stack ++ start_timer t ∷ []);
}

abbrev pub pop_from : List Str → TraceInfo → TraceInfo
pop_from [] ti = ti
pop_from (t ∷ ts) ti = record ti {
  timer_stack = ts;
  timer_calls = ti.timer_calls ++ (stop_timer t ∷ on_top start_timer ts);
}

unfoldable pub pop_timer : TraceInfo → TraceInfo
pop_timer ti = pop_from ti.timer_stack ti

-- The timers that clear stops, from the top of the stack on.
abbrev pub stop_all : List Str → List TimerCall
stop_all [] = []
stop_all (t ∷ ts) = stop_timer t ∷ stop_all ts

-- The flags of a region and its start stay.
unfoldable pub clear : TraceInfo → TraceInfo
clear ti = record ti {
  timer_stack = [];
  timer_calls = ti.timer_calls ++ stop_all ti.timer_stack;
  handle_map = [];
  log = [];
  var_count = 0;
  ret_count = 0;
  out_count = 0;
  out_aliases = [];
}
