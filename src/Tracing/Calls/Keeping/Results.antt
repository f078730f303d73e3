-- ===== src/Tracing/Calls/Keeping/Results.antt =====
-- Tracing/Calls: the lines that declare handles, and what a returned value does.
use mathlib.Core.Path.{subst}
use cpp_inter_op.Common.{
  ℕ, suc, ◌≡◌, refl, sym, ◌∙◌, Bool, true, false, List, [], ◌∷◌, Option, none, some, ◌⊎◌, inl, inr,
}
use cpp_inter_op.Errors.Encoding.{Address}
use cpp_inter_op.Tracing.Names.{Name, var, out, ret, Line}
use cpp_inter_op.Tracing.Info.{TraceInfo, append_to_log}
use cpp_inter_op.Tracing.Calls.{
  resolve, register_results, noted, element_line, append_element, register_elements, run_callbacks,
  declare_results,
}
use cpp_inter_op.Tracing.Calls.Lines.{Uses, Declares, Declared, Declared-keep, Declared-new, Or}
use cpp_inter_op.Tracing.Calls.Keeping.{
  Nothing, InLog, Keeps, Keeps-mono, New, append-Keeps, append-log, resolve-Keeps,
}

module _ (given : Name → Type 0) where
  -- A log that only gets longer.
  abbrev pub Grows : TraceInfo → TraceInfo → Type 0
  Grows ti ti' = (n : Name) → Declared ti.log n → Declared ti'.log n

  pub append-Grows :
      (l : Line) (ti : TraceInfo) → ti.dumping ≡ false → Grows ti (append_to_log l ti).0
  append-Grows l ti e n d =
      subst (λ ls. Declared ls n) (sym (append-log given l ti e).0) (Declared-keep ti.log l n d)

  pub append-Declares :
      (l : Line) (ti : TraceInfo)
      → ti.dumping ≡ false
      → (n : Name) → Declares l n
      → Declared (append_to_log l ti).0.log n
  append-Declares l ti e n d =
      subst (λ ls. Declared ls n) (sym (append-log given l ti e).0) (Declared-new ti.log l n d)

  -- The names of the declarations to come.
  abbrev pub Pending : List (ℕ × ℕ) → Name → Type 0
  Pending [] n = ⊥
  Pending ((i, k) ∷ ds) n = (n ≡ var k) ⊎ Pending ds n

  noted-Pending :
      (i : ℕ) (name : Option (ℕ × Bool)) (ds : List (ℕ × ℕ)) (n : Name)
      → New given name n ⊎ Pending ds n
      → Pending (noted i name ds) n
  noted-Pending i none ds n (inl x) = elim x [ ]
  noted-Pending i none ds n (inr x) = x
  noted-Pending i (some (k, true)) ds n (inl e) = inl e
  noted-Pending i (some (k, true)) ds n (inr x) = inr x
  noted-Pending i (some (k, false)) ds n (inl x) = elim x [ ]
  noted-Pending i (some (k, false)) ds n (inr x) = x

  pub register_results-Keeps :
      (pend : Name → Type 0) (i : ℕ) (ps : List Address) (ti : TraceInfo)
      → Keeps given pend ti
      → (let out = register_results i ps ti in
          Keeps given (Or pend (Pending out.1)) out.0 × (out.0.log ≡ ti.log))
  unfolding register_results
  register_results-Keeps pend i [] ti k =
      (Keeps-mono given pend (Or pend (Pending [])) ti (λ n x. inl x) k, refl)
  register_results-Keeps pend i (p ∷ ps) ti k =
      let name = (resolve p ti).1 in
      let ti1 = (resolve p ti).0 in
      let later = register_results (suc i) ps ti1 in
      let (k1, same1) = resolve-Keeps given pend p ti k in
      let (k2, same2) = register_results-Keeps (Or pend (New given name)) (suc i) ps ti1 k1 in
      (
        Keeps-mono given (Or (Or pend (New given name)) (Pending later.1))
            (Or pend (Pending (noted i name later.1))) later.0
            (λ n x. elim x [
              | inl (inl q) ↦ inl q
              | inl (inr new) ↦ inr (noted-Pending i name later.1 n (inl new))
              | inr d ↦ inr (noted-Pending i name later.1 n (inr d))
            ])
            k2,
        same2 ∙ same1,
      )

  element_line-Uses :
      (ls : List Line) (n : ℕ) (from : Name) (i : ℕ)
      → InLog given ls from
      → Uses (InLog given ls) (element_line n from i)
  element_line-Uses ls n from i k = (k, (k, tt))

  append_element-Keeps :
      (pend : Name → Type 0) (index i : ℕ) (name : Option (ℕ × Bool)) (ti : TraceInfo)
      → InLog given ti.log (out index)
      → Keeps given (Or pend (New given name)) ti
      → Keeps given pend (append_element index i name ti)
        × Grows ti (append_element index i name ti)
  append_element-Keeps pend index i none ti o k = (
    Keeps-mono given (Or pend (New given none)) pend ti
        (λ n x. elim x [ inl q ↦ q | inr z ↦ elim z [ ] ]) k,
    λ n d. d,
  )
  append_element-Keeps pend index i (some (n, true)) ti o k = (
    append-Keeps given (Or pend (New given (some (n, true)))) pend (element_line n (out index) i) ti
        (element_line-Uses ti.log n (out index) i o)
        (λ m x. elim x [ inl q ↦ inr q | inr e ↦ inl (inl e) ]) k,
    append-Grows (element_line n (out index) i) ti k.writing,
  )
  append_element-Keeps pend index i (some (n, false)) ti o k = (
    Keeps-mono given (Or pend (New given (some (n, false)))) pend ti
        (λ m x. elim x [ inl q ↦ q | inr z ↦ elim z [ ] ]) k,
    λ m d. d,
  )

  pub InLog-Grows :
      (ti ti' : TraceInfo) (n : Name) → Grows ti ti' → InLog given ti.log n → InLog given ti'.log n
  InLog-Grows ti ti' n g (inl x) = inl x
  InLog-Grows ti ti' n g (inr d) = inr (g n d)

  register_elements-Keeps :
      (pend : Name → Type 0) (index i : ℕ) (ps : List Address) (ti : TraceInfo)
      → InLog given ti.log (out index)
      → Keeps given pend ti
      → (let ti' = register_elements index i ps ti in Keeps given pend ti' × Grows ti ti')
  unfolding register_elements
  register_elements-Keeps pend index i [] ti o k = (k, λ n d. d)
  register_elements-Keeps pend index i (p ∷ ps) ti o k =
      let name = (resolve p ti).1 in
      let ti1 = (resolve p ti).0 in
      let ti2 = append_element index i name ti1 in
      let (k1, same) = resolve-Keeps given pend p ti k in
      let o1 = subst (λ ls. InLog given ls (out index)) (sym same) o in
      let (k2, g2) = append_element-Keeps pend index i name ti1 o1 k1 in
      let (k3, g3) =
        register_elements-Keeps pend index (suc i) ps ti2 (InLog-Grows ti1 ti2 (out index) g2 o1)
          k2 in
      (k3, λ n d. g3 n (g2 n (subst (λ ls. Declared ls n) (sym same) d)))

  -- The containers of a call have names.
  abbrev pub OutsInLog : List Line → List ℕ → Type 0
  OutsInLog ls [] = Unit
  OutsInLog ls (n ∷ ns) = InLog given ls (out n) × OutsInLog ls ns

  pub OutsInLog-Grows :
      (ti ti' : TraceInfo) (ns : List ℕ) → Grows ti ti' → OutsInLog ti.log ns → OutsInLog ti'.log ns
  OutsInLog-Grows ti ti' [] g o = tt
  OutsInLog-Grows ti ti' (n ∷ ns) g (o, os) =
      (InLog-Grows ti ti' (out n) g o, OutsInLog-Grows ti ti' ns g os)

  pub run_callbacks-Keeps :
      (pend : Name → Type 0) (filled : Address → List Address) (addresses : List Address)
      (ns : List ℕ) (ti : TraceInfo)
      → OutsInLog ti.log ns
      → Keeps given pend ti
      → (let ti' = run_callbacks filled addresses ns ti in Keeps given pend ti' × Grows ti ti')
  unfolding run_callbacks
  run_callbacks-Keeps pend filled [] ns ti os k = (k, λ n d. d)
  run_callbacks-Keeps pend filled (a ∷ addresses) [] ti os k = (k, λ n d. d)
  run_callbacks-Keeps pend filled (a ∷ addresses) (n ∷ ns) ti (o, os) k =
      let ti1 = register_elements n 0 (filled a) ti in
      let (k1, g1) = register_elements-Keeps pend n 0 (filled a) ti o k in
      let (k2, g2) =
        run_callbacks-Keeps pend filled addresses ns ti1 (OutsInLog-Grows ti ti1 ns g1 os) k1 in
      (k2, λ m d. g2 m (g1 m d))

  -- The declarations read from a vector that the log names, if there are any.
  abbrev pub Readable : List Line → ℕ → List (ℕ × ℕ) → Type 0
  Readable ls r [] = Unit
  Readable ls r (d ∷ ds) = Declared ls (ret r)

  pub declare_results-Keeps :
      (r : ℕ) (ds : List (ℕ × ℕ)) (ti : TraceInfo)
      → Readable ti.log r ds
      → Keeps given (Pending ds) ti
      → Keeps given Nothing (declare_results r ds ti)
  unfolding declare_results
  declare_results-Keeps r [] ti x k = Keeps-mono given (Pending []) Nothing ti (λ n z. z) k
  declare_results-Keeps r ((i, n) ∷ ds) ti x k =
      let l = element_line n (ret r) i in
      declare_results-Keeps r ds (append_to_log l ti).0
        (still (append_to_log l ti).0.log ds (append-Grows l ti k.writing (ret r) x))
        (append-Keeps given (Pending ((i, n) ∷ ds)) (Pending ds) l ti
          (element_line-Uses ti.log n (ret r) i (inr x))
          (λ m q. elim q [ inl e ↦ inl (inl e) | inr d ↦ inr d ]) k)
    where
      still : (ls : List Line) (ds : List (ℕ × ℕ)) → Declared ls (ret r) → Readable ls r ds
      still ls [] d = tt
      still ls (e ∷ es) d = d
