-- ===== src/Tracing/Calls.antt =====
-- lib/CppInterOp/Tracing.h: TraceRegion and OutParam; lib/CppInterOp/CppInterOp.cpp: the hooks for
-- JIT calls.
pub mod History
pub mod Lines
pub mod Keeping
pub mod Scope
use cpp_inter_op.Common.{
  ℕ, zero, suc, ◌+◌, ◌≡◌, Bool, true, false, not, List, [], ◌∷◌, ◌++◌, map, Option, none, some,
  ◌==◌, if◌then◌else◌, Str, codes,
}
use cpp_inter_op.Errors.Encoding.{Address}
use cpp_inter_op.Tracing.Names.{
  ℤ, decimal, signed, Name, var, out, ret, Piece, chars, mention, refer, declare, Line,
}
use cpp_inter_op.Tracing.Info.{
  TraceInfo, Found, unseen, null, known, lookup_handle, get_or_register_handle, next_ret_index,
  out_index_for, append_to_log, set_log_entry, inside_traced_region, push_timer, pop_timer,
}
use cpp_inter_op.Tracing.Buffer.{Param, input, output, OutParam, format}

-- TraceData, without what leaving it is given. The callbacks are the addresses of their containers.
pub record TraceData : Type 0 where
  pub name : Str
  pub arg_str : Line
  pub nested : Bool
  pub log_index : ℕ
  pub out_callbacks : List Address
  pub out_indices : List ℕ

-- What record is given: nothing (recordVoid), a value that is no pointer, a pointer or handle, and a
-- vector of pointers or handles.
pub data Returned : Type 0 where
  nothing value : Returned
  pointer : Address → Returned
  pointers : List Address → Returned

-- captureArg: the slots of the containers in a call that is not nested, and whether each is new.
unfoldable pub capture_slots : List Param → TraceInfo → TraceInfo × List (ℕ × Bool)
capture_slots [] ti = (ti, [])
capture_slots (input a ∷ ps) ti = capture_slots ps ti
capture_slots (output o ∷ ps) ti =
    let skipped = capture_slots ps ti in
    let (ti1, index, first_use) = out_index_for o.source_addr ti in
    let (ti2, slots) = capture_slots ps ti1 in
    if o.is_pointer_container then (ti2, (index, first_use) ∷ slots) else skipped

-- captureArg: only containers of pointers register handles.
unfoldable pub callbacks : List Param → List Address
callbacks [] = []
callbacks (input a ∷ ps) = callbacks ps
callbacks (output o ∷ ps) =
    let rest = callbacks ps in if o.is_pointer_container then o.source_addr ∷ rest else rest

abbrev pub out_line : ℕ → Line
out_line n = chars (codes "  std::vector<void*> ") ∷ declare (out n) ∷ chars (codes ";") ∷ []

unfoldable pub declare_outs : List (ℕ × Bool) → TraceInfo → TraceInfo
declare_outs [] ti = ti
declare_outs ((n, true) ∷ slots) ti = declare_outs slots (append_to_log (out_line n) ti).0
declare_outs ((n, false) ∷ slots) ti = declare_outs slots ti

abbrev pub placeholder : Str → Line → Line
placeholder name args =
    chars (codes "  Cpp::")
    ∷ chars name
    ∷ chars (codes "(")
    ∷ (args ++ chars (codes "); // [aborted before return]") ∷ [])

-- The constructor.
unfoldable pub enter : Str → List Param → TraceInfo → TraceInfo × TraceData
enter name args ti =
    let nested_data : TraceData = record {
      name = name;
      arg_str = [];
      nested = true;
      log_index = 0;
      out_callbacks = callbacks args;
      out_indices = [];
    } in
    let (ti1, slots) = capture_slots args ti in
    let indices = map (λ (s : ℕ × Bool). s.0) slots in
    let arg_str = format true indices args ti1 in
    let (ti2, i) = append_to_log (placeholder name arg_str) (declare_outs slots ti1) in
    let td : TraceData = record {
      name = name;
      arg_str = arg_str;
      nested = false;
      log_index = i;
      out_callbacks = callbacks args;
      out_indices = indices;
    } in
    if inside_traced_region ti then (push_timer name ti, nested_data) else (push_timer name ti2, td)

abbrev is_unseen : Found → Bool
is_unseen unseen = true
is_unseen null = false
is_unseen (known n) = false

abbrev with_flag : Bool → Option ℕ → Option (ℕ × Bool)
with_flag is_new none = none
with_flag is_new (some n) = some (n, is_new)

-- The name of a pointer and whether it is new; a null pointer has no name and is not new.
unfoldable pub resolve : Address → TraceInfo → TraceInfo × Option (ℕ × Bool)
resolve p ti =
    let is_new = is_unseen (lookup_handle p ti) in
    let (ti', name) = get_or_register_handle p ti in (ti', with_flag is_new name)

abbrev pub noted : ℕ → Option (ℕ × Bool) → List (ℕ × ℕ) → List (ℕ × ℕ)
noted i none decls = decls
noted i (some (n, true)) decls = (i, n) ∷ decls
noted i (some (n, false)) decls = decls

-- The elements of a returned vector: the new ones with their positions.
unfoldable pub register_results : ℕ → List Address → TraceInfo → TraceInfo × List (ℕ × ℕ)
register_results i [] ti = (ti, [])
register_results i (p ∷ ps) ti =
    let (ti1, name) = resolve p ti in
    let (ti2, decls) = register_results (suc i) ps ti1 in (ti2, noted i name decls)

abbrev pub element_line : ℕ → Name → ℕ → Line
element_line n from i =
    chars (codes "  void* ")
    ∷ declare (var n)
    ∷ chars (codes " = ")
    ∷ refer from
    ∷ chars (codes ".size() > ")
    ∷ chars (decimal i)
    ∷ chars (codes " ? ")
    ∷ refer from
    ∷ chars (codes "[")
    ∷ chars (decimal i)
    ∷ chars (codes "] : nullptr;")
    ∷ []

abbrev pub append_element : ℕ → ℕ → Option (ℕ × Bool) → TraceInfo → TraceInfo
append_element index i none ti = ti
append_element index i (some (n, true)) ti = (append_to_log (element_line n (out index) i) ti).0
append_element index i (some (n, false)) ti = ti

-- RegisterHandles, on the container as the call leaves it.
unfoldable pub register_elements : ℕ → ℕ → List Address → TraceInfo → TraceInfo
register_elements index i [] ti = ti
register_elements index i (p ∷ ps) ti =
    let (ti1, name) = resolve p ti in
    register_elements index (suc i) ps (append_element index i name ti1)

-- There are as many indices as callbacks.
unfoldable pub run_callbacks :
    (Address → List Address) → List Address → List ℕ → TraceInfo → TraceInfo
run_callbacks filled [] indices ti = ti
run_callbacks filled (a ∷ as_) [] ti = ti
run_callbacks filled (a ∷ as_) (n ∷ indices) ti =
    run_callbacks filled as_ indices (register_elements n 0 (filled a) ti)

unfoldable pub declare_results : ℕ → List (ℕ × ℕ) → TraceInfo → TraceInfo
declare_results r [] ti = ti
declare_results r ((i, n) ∷ decls) ti =
    declare_results r decls (append_to_log (element_line n (ret r) i) ti).0

abbrev pub result_start : Option (ℕ × Bool) → Line
result_start none = chars (codes "/*nullptr*/ ") ∷ []
result_start (some (n, true)) = chars (codes "auto ") ∷ declare (var n) ∷ chars (codes " = ") ∷ []
result_start (some (n, false)) = chars (codes "/*") ∷ mention (var n) ∷ chars (codes "*/ ") ∷ []

abbrev pub vector_start : ℕ → Line
vector_start r = chars (codes "auto ") ∷ declare (ret r) ∷ chars (codes " = ") ∷ []

-- What the returned value does: the state, how the line of the call starts, and the declarations
-- to come with the index they read from. The source keeps that index in an int, this model as it is
-- counted.
unfoldable pub record_result : Returned → TraceInfo → TraceInfo × Line × ℕ × List (ℕ × ℕ)
record_result nothing ti = (ti, [], 0, [])
record_result value ti = (ti, [], 0, [])
record_result (pointer p) ti = let (ti1, name) = resolve p ti in (ti1, result_start name, 0, [])
record_result (pointers ps) ti =
    let (ti1, r) = next_ret_index ti in
    let (ti2, decls) = register_results 0 ps ti1 in (ti2, vector_start r, r, decls)

abbrev pub completed : Line → Str → Line → ℤ → Line
completed start name args ns =
    chars (codes "  ")
    ∷ (start
        ++ chars (codes "Cpp::")
          ∷ chars name
          ∷ chars (codes "(")
          ∷ (args ++ chars (codes "); // [") ∷ chars (signed ns) ∷ chars (codes " ns]") ∷ []))

-- The destructor, with the nanoseconds and the containers as they are then.
unfoldable pub leave : TraceData → Returned → ℤ → (Address → List Address) → TraceInfo → TraceInfo
leave td result ns filled ti =
    let popped = pop_timer ti in
    let (ti1, start, r, decls) = record_result result popped in
    let ti2 = set_log_entry td.log_index (completed start td.name td.arg_str ns) ti1 in
    let ti3 = run_callbacks filled td.out_callbacks td.out_indices ti2 in
    if td.nested then popped else declare_results r decls ti3
