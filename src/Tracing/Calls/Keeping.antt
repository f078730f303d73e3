-- ===== src/Tracing/Calls/Keeping.antt =====
-- Tracing/Calls: what the steps of a call keep of the log and of the names that are in use.
pub mod Results
pub mod Returns
pub mod Outs
pub mod Arguments
pub mod Timers
use mathlib.Core.Path.{subst}
use mathlib.Core.Option.{some-injective, none-ne-some}
use cpp_inter_op.Common.{
  ℕ, zero, suc, ◌+◌, ◌≡◌, refl, sym, ap, ◌∙◌, Bool, true, false, not, List, [], ◌∷◌, ◌++◌, map,
  Option, none, some, ◌⊎◌, inl, inr, ◌==◌, if◌then◌else◌, Str, length, set, get_elem?, arith,
  Bool-cases, Option-cases,
}
use cpp_inter_op.Errors.Encoding.{Address}
use cpp_inter_op.Tracing.Names.{Name, var, out, ret, Line}
use cpp_inter_op.Tracing.Info.{
  TraceInfo, find, next, lookup_handle, get_or_register_handle, get_or_register, register_handle,
  append_to_log, set_log_entry,
}
use cpp_inter_op.Tracing.Calls.{TraceData, placeholder, resolve}
use cpp_inter_op.Tracing.Calls.Lines.{
  Uses, Declares, Declared, Scoped, Uses-mono, Scoped-append, Declared-keep, Declared-new,
  Scoped-set, Declared-set, Declared-set_new, Or,
}

pub find-cons :
    (q p : Address) (k n : ℕ) (m : List (Address × ℕ))
    → find q ((p, k) ∷ m) ≡ some n
    → (n ≡ k) ⊎ (find q m ≡ some n)
find-cons q p k n m e = elim (Bool-cases (p == q)) [
  | inl same ↦ inl (sym (some-injective k n (rw (same) at e)))
  | inr other ↦ inr (rw (other) at e)
]

abbrev pub Nothing : Name → Type 0
Nothing n = ⊥

module _ (given : Name → Type 0) where
  -- A name that is given, declared in the log or about to be declared.
  abbrev pub Named : (Name → Type 0) → List Line → Name → Type 0
  Named pend ls n = given n ⊎ (Declared ls n ⊎ pend n)

  abbrev pub InLog : List Line → Name → Type 0
  InLog ls n = given n ⊎ Declared ls n

  -- Handles and containers have names, and the log declares what it uses.
  pub record Keeps (pend : Name → Type 0) (ti : TraceInfo) : Type 0 where
    pub writing : ti.dumping ≡ false
    pub handles : (p : Address) (n : ℕ) → find p ti.handle_map ≡ some n → Named pend ti.log (var n)
    pub outs : (a : Address) (n : ℕ) → find a ti.out_aliases ≡ some n → Named pend ti.log (out n)
    pub scoped : Scoped given ti.log

  pub Named-mono :
      (pend pend' : Name → Type 0) (ls : List Line)
      → ((n : Name) → pend n → pend' n)
      → (n : Name) → Named pend ls n
      → Named pend' ls n
  Named-mono pend pend' ls f n (inl g) = inl g
  Named-mono pend pend' ls f n (inr (inl d)) = inr (inl d)
  Named-mono pend pend' ls f n (inr (inr q)) = inr (inr (f n q))

  pub Keeps-mono :
      (pend pend' : Name → Type 0) (ti : TraceInfo)
      → ((n : Name) → pend n → pend' n)
      → Keeps pend ti
      → Keeps pend' ti
  Keeps-mono pend pend' ti f k = record {
    writing = k.writing;
    handles = λ p n e. Named-mono pend pend' ti.log f (var n) (k.handles p n e);
    outs = λ a n e. Named-mono pend pend' ti.log f (out n) (k.outs a n e);
    scoped = k.scoped;
  }

  -- A log that declares no less, and what was about to be declared.
  pub Keeps-log :
      (pend pend' : Name → Type 0) (ti ti' : TraceInfo)
      → (ti'.dumping ≡ ti.dumping)
      → (ti'.handle_map ≡ ti.handle_map)
      → (ti'.out_aliases ≡ ti.out_aliases)
      → ((n : Name) → Declared ti.log n → Declared ti'.log n)
      → ((n : Name) → pend n → Declared ti'.log n ⊎ pend' n)
      → Scoped given ti'.log
      → Keeps pend ti
      → Keeps pend' ti'
  Keeps-log pend pend' ti ti' same_d same_h same_o old new s k = record {
    writing = same_d ∙ k.writing;
    handles = λ p n e. more (k.handles p n (ap (find p) (sym same_h) ∙ e));
    outs = λ a n e. more (k.outs a n (ap (find a) (sym same_o) ∙ e));
    scoped = s;
  }
    where
      more : {n : Name} → Named pend ti.log n → Named pend' ti'.log n
      more (inl g) = inl g
      more {n} (inr (inl d)) = inr (inl (old n d))
      more {n} (inr (inr q)) = inr (new n q)

  pub append-log :
      (l : Line) (ti : TraceInfo)
      → ti.dumping ≡ false
      → ((append_to_log l ti).0.log ≡ ti.log ++ l ∷ []) × ((append_to_log l ti).1 ≡ length ti.log)
  unfolding append_to_log
  append-log l ti e = rw (append_to_log, e) (refl, refl)

  pub append-rest :
      (l : Line) (ti : TraceInfo)
      → (let ti' = (append_to_log l ti).0 in
          (ti'.dumping ≡ ti.dumping)
          × (ti'.handle_map ≡ ti.handle_map)
          × (ti'.out_aliases ≡ ti.out_aliases)
          × (ti'.timer_stack ≡ ti.timer_stack))
  unfolding append_to_log
  append-rest l ti = elim (Bool-cases ti.dumping) [
    | inl e ↦ rw (append_to_log, e) (refl, refl, refl, refl)
    | inr e ↦ rw (append_to_log, e) (refl, refl, refl, refl)
  ]

  -- A line that uses known names.
  pub append-Keeps :
      (pend pend' : Name → Type 0) (l : Line) (ti : TraceInfo)
      → Uses (InLog ti.log) l
      → ((n : Name) → pend n → Declares l n ⊎ pend' n)
      → Keeps pend ti
      → Keeps pend' (append_to_log l ti).0
  append-Keeps pend pend' l ti u new k =
      let (same_d, same_h, same_o, same_t) = append-rest l ti in
      let e = (append-log l ti k.writing).0 in
      Keeps-log pend pend' ti (append_to_log l ti).0 same_d same_h same_o
        (λ n d. subst (λ ls. Declared ls n) (sym e) (Declared-keep ti.log l n d))
        (λ n q. elim (new n q) [
          | inl d ↦ inl (subst (λ ls. Declared ls n) (sym e) (Declared-new ti.log l n d))
          | inr r ↦ inr r
        ])
        (subst (Scoped given) (sym e) (Scoped-append given ti.log l k.scoped u)) k

  -- What resolving a pointer can do.
  pub resolve-cases :
      (P : TraceInfo × Option (ℕ × Bool) → Type 0) (p : Address) (ti : TraceInfo)
      → P (ti, none)
      → ((n : ℕ) → find p ti.handle_map ≡ some n → P (ti, some (n, false)))
      → P ((register_handle p ti).0, some (next ti.var_count, true))
      → P (resolve p ti)
  unfolding resolve lookup_handle get_or_register_handle
  resolve-cases P p ti a b c = elim (Bool-cases (p == 0)) [
    | inl z ↦ rw (z) a
    | inr nz ↦ elim (Option-cases (find p ti.handle_map)) [
      | inl e ↦ rw (nz, e) c
      | inr (n, e) ↦ rw (nz, e) (b n e)
    ]
  ]

  abbrev pub New : Option (ℕ × Bool) → Name → Type 0
  New none n = ⊥
  New (some (k, true)) n = n ≡ var k
  New (some (k, false)) n = ⊥

  register-Keeps :
      (pend : Name → Type 0) (p : Address) (ti : TraceInfo)
      → Keeps pend ti
      → Keeps (Or pend (New (some (next ti.var_count, true)))) (register_handle p ti).0
  register-Keeps pend p ti k = record {
    writing = k.writing;
    handles = λ q n e. elim (find-cons q p (next ti.var_count) n ti.handle_map e) [
      | inl new ↦ inr (inr (inr (ap var new)))
      | inr old ↦ Named-mono pend more ti.log (λ m x. inl x) (var n) (k.handles q n old)
    ];
    outs = λ a n e. Named-mono pend more ti.log (λ m x. inl x) (out n) (k.outs a n e);
    scoped = k.scoped;
  }
    where
      more : Name → Type 0
      more = Or pend (New (some (next ti.var_count, true)))

  -- A resolved pointer's name is known or about to be declared, and the log stays.
  pub resolve-Keeps :
      (pend : Name → Type 0) (p : Address) (ti : TraceInfo)
      → Keeps pend ti
      → Keeps (Or pend (New (resolve p ti).1)) (resolve p ti).0 × ((resolve p ti).0.log ≡ ti.log)
  resolve-Keeps pend p ti k =
      resolve-cases (λ r. Keeps (Or pend (New r.1)) r.0 × (r.0.log ≡ ti.log)) p ti
        (Keeps-mono pend (Or pend (New none)) ti (λ n x. inl x) k, refl)
        (λ n e. (Keeps-mono pend (Or pend (New (some (n, false)))) ti (λ m x. inl x) k, refl))
        (register-Keeps pend p ti k, refl)
