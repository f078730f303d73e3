-- ===== src/Tracing/Calls/Keeping/Outs.antt =====
-- Tracing/Calls: the containers that a call fills.
use mathlib.Core.Path.{subst}
use cpp_inter_op.Common.{
  ℕ, ◌≡◌, refl, sym, ap, ◌∙◌, Bool, true, false, List, [], ◌∷◌, Option, none, some, ◌⊎◌, inl, inr,
  both-branches,
}
use cpp_inter_op.Errors.Encoding.{Address}
use cpp_inter_op.Tracing.Names.{Name, var, out}
use cpp_inter_op.Tracing.Info.{TraceInfo, find, out_index_for, find_or_add_out, append_to_log}
use cpp_inter_op.Tracing.Buffer.{Param, input, output}
use cpp_inter_op.Tracing.Calls.{capture_slots, declare_outs, out_line}
use cpp_inter_op.Tracing.Calls.Lines.{Or}
use cpp_inter_op.Tracing.Calls.Keeping.{
  find-cons, Nothing, Named, Named-mono, InLog, Keeps, Keeps-mono, append-Keeps,
}
use cpp_inter_op.Tracing.Calls.Keeping.Results.{append-Grows, append-Declares}

module _ (given : Name → Type 0) where
  -- The slots that are new.
  abbrev pub Fresh : List (ℕ × Bool) → Name → Type 0
  Fresh [] n = ⊥
  Fresh ((k, true) ∷ slots) n = (n ≡ out k) ⊎ Fresh slots n
  Fresh ((k, false) ∷ slots) n = Fresh slots n

  Fresh-cons :
      (s : ℕ × Bool) (slots : List (ℕ × Bool)) (n : Name)
      → Fresh (s ∷ []) n ⊎ Fresh slots n
      → Fresh (s ∷ slots) n
  Fresh-cons (k, true) slots n (inl (inl e)) = inl e
  Fresh-cons (k, true) slots n (inl (inr z)) = elim z [ ]
  Fresh-cons (k, true) slots n (inr x) = inr x
  Fresh-cons (k, false) slots n (inl z) = elim z [ ]
  Fresh-cons (k, false) slots n (inr x) = x

  abbrev pub AllNamed : (Name → Type 0) → List (ℕ × Bool) → Type 0
  AllNamed K [] = Unit
  AllNamed K ((k, first_use) ∷ slots) = K (out k) × AllNamed K slots

  pub AllNamed-mono :
      (K K' : Name → Type 0) (slots : List (ℕ × Bool))
      → ((n : Name) → K n → K' n)
      → AllNamed K slots
      → AllNamed K' slots
  AllNamed-mono K K' [] f a = tt
  AllNamed-mono K K' ((k, first_use) ∷ slots) f (x, a) = (f (out k) x, AllNamed-mono K K' slots f a)

  -- One slot: its name is known or new, and the log stays.
  abbrev Slots : (Name → Type 0) → TraceInfo → TraceInfo × ℕ × Bool → Type 0
  Slots pend ti (ti', n, first_use) =
      Keeps given (Or pend (Fresh ((n, first_use) ∷ []))) ti'
      × Named given (Or pend (Fresh ((n, first_use) ∷ []))) ti'.log (out n)
      × (ti'.log ≡ ti.log)

  find_or_add_out-Slots :
      (pend : Name → Type 0) (o : Option ℕ) (a : Address) (ti : TraceInfo)
      → find a ti.out_aliases ≡ o
      → Keeps given pend ti
      → Slots pend ti (find_or_add_out o a ti)
  find_or_add_out-Slots pend none a ti e k = (
    record {
      writing = k.writing;
      handles = λ p n h. Named-mono given pend more ti.log (λ m x. inl x) (var n) (k.handles p n h);
      outs = λ b n h. elim (find-cons b a ti.out_count n ti.out_aliases h) [
        | inl new ↦ inr (inr (inr (inl (ap out new))))
        | inr old ↦ Named-mono given pend more ti.log (λ m x. inl x) (out n) (k.outs b n old)
      ];
      scoped = k.scoped;
    },
    inr (inr (inr (inl refl))),
    refl,
  )
    where
      more : Name → Type 0
      more = Or pend (Fresh ((ti.out_count, true) ∷ []))
  find_or_add_out-Slots pend (some n) a ti e k = (
    Keeps-mono given pend (Or pend (Fresh ((n, false) ∷ []))) ti (λ m x. inl x) k,
    Named-mono given pend (Or pend (Fresh ((n, false) ∷ []))) ti.log (λ m x. inl x) (out n)
        (k.outs a n e),
    refl,
  )

  out_index_for-Slots :
      (pend : Name → Type 0) (a : Address) (ti : TraceInfo)
      → Keeps given pend ti
      → Slots pend ti (out_index_for a ti)
  unfolding out_index_for
  out_index_for-Slots pend a ti k = find_or_add_out-Slots pend (find a ti.out_aliases) a ti refl k

  abbrev Captured : (Name → Type 0) → TraceInfo → TraceInfo × List (ℕ × Bool) → Type 0
  Captured pend ti (ti', slots) =
      Keeps given (Or pend (Fresh slots)) ti'
      × AllNamed (Named given (Or pend (Fresh slots)) ti'.log) slots
      × (ti'.log ≡ ti.log)

  pub capture_slots-Keeps :
      (pend : Name → Type 0) (ps : List Param) (ti : TraceInfo)
      → Keeps given pend ti
      → Captured pend ti (capture_slots ps ti)
  unfolding capture_slots
  capture_slots-Keeps pend [] ti k =
      (Keeps-mono given pend (Or pend (Fresh [])) ti (λ n x. inl x) k, tt, refl)
  capture_slots-Keeps pend (input a ∷ ps) ti k = capture_slots-Keeps pend ps ti k
  capture_slots-Keeps pend (output o ∷ ps) ti k =
      let skipped = capture_slots-Keeps pend ps ti k in
      let i = (out_index_for o.source_addr ti).1 in
      let first_use = (out_index_for o.source_addr ti).2 in
      let ti1 = (out_index_for o.source_addr ti).0 in
      let later = capture_slots ps ti1 in
      let (k1, here, same1) = out_index_for-Slots pend o.source_addr ti k in
      let (k2, rest, same2) =
        capture_slots-Keeps (Or pend (Fresh ((i, first_use) ∷ []))) ps ti1 k1 in
      let all = Or pend (Fresh ((i, first_use) ∷ later.1)) in
      let widen : (n : Name)
          → Or (Or pend (Fresh ((i, first_use) ∷ []))) (Fresh later.1) n
          → all n =
        λ n x. elim x [
          | inl (inl q) ↦ inl q
          | inl (inr f) ↦ inr (Fresh-cons (i, first_use) later.1 n (inl f))
          | inr f ↦ inr (Fresh-cons (i, first_use) later.1 n (inr f))
        ] in
      both-branches (Captured pend ti) o.is_pointer_container (later.0, (i, first_use) ∷ later.1)
        (capture_slots ps ti)
        (
          Keeps-mono given (Or (Or pend (Fresh ((i, first_use) ∷ []))) (Fresh later.1)) all later.0
              widen k2,
          (
            subst (λ ls. Named given all ls (out i)) (sym (same2))
                (Named-mono given (Or pend (Fresh ((i, first_use) ∷ []))) all ti1.log
                  (λ n x. widen n (inl x)) (out i) here),
            AllNamed-mono
                (Named given (Or (Or pend (Fresh ((i, first_use) ∷ []))) (Fresh later.1))
                  later.0.log)
                (Named given all later.0.log) later.1
                (λ n x.
                  Named-mono given (Or (Or pend (Fresh ((i, first_use) ∷ []))) (Fresh later.1)) all
                    later.0.log widen n x)
                rest,
          ),
          same2 ∙ same1,
        )
        skipped

  -- Every name in use is declared by then.
  abbrev pub Settles : (Name → Type 0) → TraceInfo → TraceInfo → Type 0
  Settles pend ti ti' = (n : Name) → Named given pend ti.log n → InLog given ti'.log n

  pub declare_outs-Keeps :
      (slots : List (ℕ × Bool)) (ti : TraceInfo)
      → Keeps given (Fresh slots) ti
      → (let ti' = declare_outs slots ti in Keeps given Nothing ti' × Settles (Fresh slots) ti ti')
  unfolding declare_outs
  declare_outs-Keeps [] ti k = (
    Keeps-mono given (Fresh []) Nothing ti (λ n z. z) k,
    λ n x. elim x [ inl g ↦ inl g | inr (inl d) ↦ inr d | inr (inr z) ↦ elim z [ ] ],
  )
  declare_outs-Keeps ((k, true) ∷ slots) ti keeps =
      let ti1 = (append_to_log (out_line k) ti).0 in
      let k1 =
        append-Keeps given (Fresh ((k, true) ∷ slots)) (Fresh slots) (out_line k) ti tt
          (λ n x. elim x [ inl e ↦ inl (inl e) | inr f ↦ inr f ]) keeps in
      let grows = append-Grows given (out_line k) ti keeps.writing in
      let (k2, settles) = declare_outs-Keeps slots ti1 k1 in
      (
        k2,
        λ n x. elim x [
          | inl g ↦ inl g
          | inr (inl d) ↦ settles n (inr (inl (grows n d)))
          | inr (inr (inl e)) ↦
              settles n (inr (inl (append-Declares given (out_line k) ti keeps.writing n (inl e))))
          | inr (inr (inr f)) ↦ settles n (inr (inr f))
        ],
      )
  declare_outs-Keeps ((k, false) ∷ slots) ti keeps = declare_outs-Keeps slots ti keeps
