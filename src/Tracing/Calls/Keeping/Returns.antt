-- ===== src/Tracing/Calls/Keeping/Returns.antt =====
-- Tracing/Calls: what a returned value does.
use cpp_inter_op.Common.{
  ℕ, ◌≡◌, refl, ◌∙◌, Bool, true, false, List, [], ◌∷◌, Option, none, some, inl, inr,
}
use cpp_inter_op.Tracing.Names.{Name}
use cpp_inter_op.Tracing.Info.{TraceInfo, next_ret_index}
use cpp_inter_op.Tracing.Calls.{
  Returned, nothing, value, pointer, pointers, resolve, register_results, result_start,
  vector_start, record_result,
}
use cpp_inter_op.Tracing.Calls.Lines.{Uses, Declares, Or}
use cpp_inter_op.Tracing.Calls.Keeping.{Nothing, Keeps, Keeps-mono, New, resolve-Keeps}
use cpp_inter_op.Tracing.Calls.Keeping.Results.{Pending, Readable, register_results-Keeps}

module _ (given : Name → Type 0) where
  result_start-Uses : (name : Option (ℕ × Bool)) (K : Name → Type 0) → Uses K (result_start name)
  result_start-Uses none K = tt
  result_start-Uses (some (n, true)) K = tt
  result_start-Uses (some (n, false)) K = tt

  result_start-New :
      (name : Option (ℕ × Bool)) (n : Name) → New given name n → Declares (result_start name) n
  result_start-New none n x = x
  result_start-New (some (k, true)) n e = inl e
  result_start-New (some (k, false)) n x = x

  Readable-vector : (r : ℕ) (ds : List (ℕ × ℕ)) → Readable given ((vector_start r) ∷ []) r ds
  Readable-vector r [] = tt
  Readable-vector r (d ∷ ds) = inl (inl refl)

  next_ret-Keeps :
      (ti : TraceInfo) → Keeps given Nothing ti → Keeps given Nothing (next_ret_index ti).0
  unfolding next_ret_index
  next_ret-Keeps ti k = record {
    writing = k.writing;
    handles = k.handles;
    outs = k.outs;
    scoped = k.scoped;
  }

  next_ret-log : (ti : TraceInfo) → (next_ret_index ti).0.log ≡ ti.log
  unfolding next_ret_index
  next_ret-log ti = refl

  -- A result's names are declared by the line of the call or come after it.
  pub record_result-Keeps :
      (result : Returned) (ti : TraceInfo)
      → Keeps given Nothing ti
      → (let (ti', start, r, ds) = record_result result ti in
          Keeps given (Or (Declares start) (Pending given ds)) ti'
          × (ti'.log ≡ ti.log)
          × ((K : Name → Type 0) → Uses K start)
          × Readable given (start ∷ []) r ds)
  unfolding record_result
  record_result-Keeps nothing ti k = (
    Keeps-mono given Nothing (Or (Declares []) (Pending given [])) ti (λ n x. inl x) k,
    refl,
    λ K. tt,
    tt,
  )
  record_result-Keeps value ti k = (
    Keeps-mono given Nothing (Or (Declares []) (Pending given [])) ti (λ n x. inl x) k,
    refl,
    λ K. tt,
    tt,
  )
  record_result-Keeps (pointer p) ti k =
      let name = (resolve p ti).1 in
      let (k1, same) = resolve-Keeps given Nothing p ti k in
      (
        Keeps-mono given (Or Nothing (New given name))
            (Or (Declares (result_start name)) (Pending given [])) (resolve p ti).0
            (λ n x. elim x [ inl z ↦ elim z [ ] | inr new ↦ inl (result_start-New name n new) ]) k1,
        same,
        result_start-Uses name,
        tt,
      )
  record_result-Keeps (pointers ps) ti k =
      let ti1 = (next_ret_index ti).0 in
      let r = (next_ret_index ti).1 in
      let ds = (register_results 0 ps ti1).1 in
      let (k2, same) = register_results-Keeps given Nothing 0 ps ti1 (next_ret-Keeps ti k) in
      (
        Keeps-mono given (Or Nothing (Pending given ds))
            (Or (Declares (vector_start r)) (Pending given ds)) (register_results 0 ps ti1).0
            (λ n x. elim x [ inl z ↦ elim z [ ] | inr d ↦ inr d ]) k2,
        same ∙ next_ret-log ti,
        λ K. tt,
        Readable-vector r ds,
      )
