-- ===== src/Tracing/Tests.antt =====
-- Runs of the tracer.
use cpp_inter_op.Common.{
  arith, ◌≡◌, refl, true, false, List, [], ◌∷◌, ◌++◌, map, Option, none, some, Str, codes, length,
  leb, if◌then◌else◌, starts_with,
}
use cpp_inter_op.Errors.Encoding.{Address}
use cpp_inter_op.Tracing.Names.{pos, digits, decimal, signed, spell, render_piece, render}
use cpp_inter_op.Tracing.Info.{
  TraceInfo, initial, clear, inside_traced_region, set_log_entry, get_or_register_handle, pop_timer,
  push_timer, append_to_log, lookup_handle, next_ret_index, out_index_for,
}
use cpp_inter_op.Tracing.Buffer.{
  pointer, text, input, output, append, append_elements, append_pointer, append_raw, format,
  needs_raw,
}
use cpp_inter_op.Tracing.Calls.{
  Returned, nothing, pointers, enter, leave, declare_results, record_result, run_callbacks,
  callbacks, resolve, declare_outs, capture_slots, register_elements, register_results,
}
use cpp_inter_op.Tracing.Calls
use cpp_inter_op.Tracing.Calls.History.{
  Event, call, return, invoke_return, State, step, run, trace_invoke_return,
}
use cpp_inter_op.Tracing.Calls.Lines.{Scoped}
use cpp_inter_op.Tracing.Timers.{IsPaired, replay, run_timers, run_timers_lem}
use cpp_inter_op.Paths.Split.Pieces.{AllAbsent}
use cpp_inter_op.Paths.Split.FirstAt.{split_any, split_any-IsSplit}
use cpp_inter_op.Tracing.Output.{Texts, version_comment, write_to_file, start_region, stop_region}
use cpp_inter_op.Tracing.Output.Dumps.{write_to_file-IsPaired}
use cpp_inter_op.Tracing.Output.Comments.{behind_start, split_lines, version_comment-AllAbsent}
use cpp_inter_op.Tracing.Signatures.{
  Nested, done, plain, group, parameter_list, skip_spaces, count_params, count_params_lem,
}
use cpp_inter_op.Tracing.Literals.{read_literal, has_closing, read_literal-append_raw}
use cpp_inter_op.Tracing.Calls.Scope.Histories.{Among, run-Scoped}

abbrev no_calls : State
no_calls = record { info = initial; active = []; given = [] }

abbrev no_outs : Address → List Address
no_outs a = []

-- A call that returns a handle, one that takes it and fills a container, and one that is not finished.
abbrev session : List Event
session =
    call (codes "GetScope") (input (text (codes "A")) ∷ [])
    ∷ return (Calls.pointer 500) (pos 7) no_outs
    ∷ call (codes "GetMethods") (
        input (pointer 500)
        ∷ output
            (record { is_pointer_container = true; is_scalar_pointer = false; source_addr = 900 })
        ∷ [])
    ∷ return nothing (pos 8) (λ a. 600 ∷ 500 ∷ [])
    ∷ call (codes "Process") (input (pointer 600) ∷ input (pointer 601) ∷ [])
    ∷ []

session_log :
    map render (run session no_calls).info.log
    ≡ codes "  auto v1 = Cpp::GetScope(\"A\"); // [7 ns]"
      ∷ codes "  std::vector<void*> _out0;"
      ∷ codes "  Cpp::GetMethods(v1, _out0); // [8 ns]"
      ∷ codes "  void* v2 = _out0.size() > 0 ? _out0[0] : nullptr;"
      ∷ codes "  Cpp::Process(v2, nullptr /*unknown*/); // [aborted before return]"
      ∷ []
unfolding run step enter leave inside_traced_region declare_results record_result run_callbacks
    callbacks set_log_entry resolve get_or_register_handle pop_timer push_timer append_to_log
    declare_outs capture_slots register_elements append append_elements append_pointer append_raw
    format needs_raw trace_invoke_return register_results lookup_handle next_ret_index out_index_for
    digits decimal signed spell render_piece render
session_log = refl

run-Scoped_example : Scoped (Among (run session no_calls).given) (run session no_calls).info.log
run-Scoped_example = run-Scoped session

-- The name of a JIT call's result is declared nowhere.
abbrev jit_session : List Event
jit_session =
    invoke_return 500
    ∷ call (codes "Destruct") (input (pointer 500) ∷ [])
    ∷ return nothing (pos 1) no_outs
    ∷ []

jit_log :
    map render (run jit_session no_calls).info.log ≡ codes "  Cpp::Destruct(v1); // [1 ns]" ∷ []
unfolding run step enter leave inside_traced_region declare_results record_result run_callbacks
    callbacks set_log_entry resolve get_or_register_handle pop_timer push_timer append_to_log
    declare_outs capture_slots register_elements append append_elements append_pointer append_raw
    format needs_raw trace_invoke_return register_results lookup_handle next_ret_index out_index_for
    digits decimal signed spell render_piece render
jit_log = refl

-- A log that goes to the error stream holds the call as it was started.
streamed :
    map render
      (run (call (codes "GetScope") [] ∷ return (Calls.pointer 500) (pos 7) no_outs ∷ []) (record {
        info = record initial { in_region = true; write_on_std_err = true };
        active = [];
        given = [];
      })).info.errs
    ≡ codes "  Cpp::GetScope(); // [aborted before return]" ∷ []
unfolding run step enter leave inside_traced_region declare_results record_result run_callbacks
    callbacks set_log_entry resolve get_or_register_handle pop_timer push_timer append_to_log
    declare_outs capture_slots register_elements append append_elements append_pointer append_raw
    format needs_raw trace_invoke_return register_results lookup_handle next_ret_index out_index_for
    digits decimal signed spell render_piece render
streamed = refl

abbrev three_calls : List (Option Str)
three_calls = some (codes "A") ∷ some (codes "A") ∷ none ∷ some (codes "B") ∷ []

run_timers_lem_example :
    IsPaired (run_timers three_calls initial)
    × (replay (clear (run_timers three_calls initial)).timer_calls none
        ≡ (if leb (length (run_timers three_calls initial).timer_stack) 1 then some none else none))
run_timers_lem_example = run_timers_lem three_calls initial refl

read_literal-append_raw_example :
    read_literal (append_raw (codes "say \"hi\"\n") ++ codes ");")
    ≡ some (codes "say \"hi\"\n", codes ");")
unfolding has_closing starts_with
read_literal-append_raw_example = read_literal-append_raw (codes "say \"hi\"\n") (codes ");") refl

-- A text that holds the end of a raw literal is cut there.
cut_literal : read_literal (append_raw (codes "x)CPPI\"y")) ≡ some (codes "x", codes "y)CPPI\"")
unfolding append_raw needs_raw starts_with
cut_literal = refl

abbrev no_texts : Texts
no_texts = record { version = []; build_info = []; lib_path = [] }

-- A crash in a call.
abbrev crashed : TraceInfo
crashed = run_timers (some (codes "Process") ∷ []) initial

write_to_file-IsPaired_example :
    ((write_to_file split_any (some (codes "r.cpp")) [] (pos 1) no_texts crashed).0
      ≡ record crashed {
        timer_calls =
            (write_to_file split_any
              (some (codes "r.cpp"))
              []
              (pos 1)
              no_texts
              crashed).0.timer_calls;
      })
    × IsPaired (write_to_file split_any (some (codes "r.cpp")) [] (pos 1) no_texts crashed).0
unfolding run_timers push_timer
write_to_file-IsPaired_example =
    write_to_file-IsPaired split_any (some (codes "r.cpp")) [] (pos 1) no_texts crashed refl refl

version_comment-AllAbsent_example :
    (version_comment split_any (codes "1.0\n\nclang")
      ≡ behind_start (codes "// ") (split_lines (codes "1.0\n\nclang")))
    × AllAbsent 10 (version_comment split_any (codes "1.0\n\nclang"))
version_comment-AllAbsent_example =
    version_comment-AllAbsent split_any split_any-IsSplit (codes "1.0\n\nclang")

abbrev file_of : Option (Str × Str) → Option Str
file_of none = none
file_of (some (path, content)) = some path

-- A region whose file could not be made is written over the file of the region before.
overwritten :
    file_of
      (stop_region split_any true []
        (pos 1)
        no_texts
        (start_region false none (record initial { region_path = codes "first.cpp" })).0).1
    ≡ some (codes "first.cpp")
unfolding stop_region start_region
overwritten = refl

abbrev letter_a : Nested
letter_a = plain 97 done

abbrev template_b : Nested
template_b = plain 98 (group 60 (plain 99 (plain 44 (plain 100 done))) 62 done)

-- The signature foo(a,b<c,d>).
count_params_lem_example :
    count_params (codes "foo" ++ 40 ∷ (parameter_list letter_a (template_b ∷ []) ++ 41 ∷ [])) ≡ 2
unfolding skip_spaces starts_with
count_params_lem_example =
    count_params_lem (codes "foo") letter_a (template_b ∷ []) []
      (ground arith, (ground arith, (ground arith, tt)))
      (
        (refl, refl, refl, tt),
        (
          (refl, refl, refl, (refl, refl, refl, (refl, refl, (refl, refl, (refl, refl, tt))), tt)),
          tt,
        ),
      )
      (refl, refl) (omega arith)
