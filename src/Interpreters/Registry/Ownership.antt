-- ===== src/Interpreters/Registry/Ownership.antt =====
-- Interpreters/Registry: which interpreters are deleted, and how often.
use cpp_inter_op.Common.{
  ℕ, suc, ◌+◌, ◌≡◌, refl, ap, ◌∙◌, Bool, true, false, List, [], ◌∷◌, ◌++◌, Option, none, some, ◌==◌,
  if◌then◌else◌, arith, Bool-cases, inl, inr,
}
use cpp_inter_op.Errors.Encoding.{Address}
use cpp_inter_op.Interpreters.Slots.{Holding}
use cpp_inter_op.Interpreters.Registry.{Registry}
use cpp_inter_op.Interpreters.Registry.Order.{
  holdings, Stack, to_end, freed, drop_first, drop_last, Command, create, use_external, activate,
  delete, held_new, stack_step, stack_run, are_allowed, stack_of, drop_first-head, drop_first-tail,
  to_end-head, to_end-tail,
}
use cpp_inter_op.Interpreters.Registry.History.{run, Acts, run_lem}

module _ (p : Address) where
  -- How often an interpreter occurs among those deleted.
  abbrev pub deletions : List Address → ℕ
  deletions [] = 0
  deletions (x ∷ xs) = let rest = deletions xs in if x == p then suc rest else rest

  -- How many entries own it.
  abbrev pub owners : List Holding → ℕ
  owners [] = 0
  owners (h ∷ hs) = deletions (freed h) + owners hs

  -- How often it is handed over.
  abbrev pub handed_over : List Command → ℕ
  handed_over [] = 0
  handed_over (create at i argv ∷ cs) = deletions (i ∷ []) + handed_over cs
  handed_over (use_external at i ∷ cs) = handed_over cs
  handed_over (activate i ∷ cs) = handed_over cs
  handed_over (delete i ∷ cs) = handed_over cs

  deletions-append : (xs ys : List Address) → deletions (xs ++ ys) ≡ deletions xs + deletions ys
  deletions-append [] ys = omega arith
  deletions-append (x ∷ xs) ys = ground (arith, deletions-append xs ys)

  owners-append : (hs ks : List Holding) → owners (hs ++ ks) ≡ owners hs + owners ks
  owners-append [] ks = omega arith
  owners-append (h ∷ hs) ks = let ih = owners-append hs ks in omega (arith, ih)

  owners-to_end : (i : Address) (hs : List Holding) → owners (to_end i hs) ≡ owners hs
  owners-to_end i [] = refl
  owners-to_end i (h ∷ hs) = elim (Bool-cases (h.interpreter == i)) [
    | inl e ↦ ap owners (to_end-head i h hs e) ∙ owners-append hs (h ∷ []) ∙ omega arith
    | inr e ↦
        ap owners (to_end-tail i h hs e) ∙ ap (λ n. deletions (freed h) + n) (owners-to_end i hs)
  ]

  -- What goes and what stays.
  abbrev Shares : ℕ → List Holding × List Address → Type 0
  Shares n out = deletions out.1 + owners out.0 ≡ n

  drop_first-Shares : (i : Address) (hs : List Holding) → Shares (owners hs) (drop_first i hs)
  drop_first-Shares i [] = refl
  drop_first-Shares i (h ∷ hs) = elim (Bool-cases (h.interpreter == i)) [
    | inl e ↦
        ap (λ (o : List Holding × List Address). deletions o.1 + owners o.0)
          (drop_first-head i h hs e)
    | inr e ↦
        let ih = drop_first-Shares i hs in
        ap (λ (o : List Holding × List Address). deletions o.1 + owners o.0)
          (drop_first-tail i h hs e)
        ∙ omega (arith, ih)
  ]

  drop_last-Shares : (hs : List Holding) → Shares (owners hs) (drop_last hs)
  drop_last-Shares [] = refl
  drop_last-Shares (h ∷ []) = refl
  drop_last-Shares (h ∷ k ∷ hs) = let ih = drop_last-Shares (k ∷ hs) in omega (arith, ih)

  abbrev pub known : Stack → ℕ
  known s = deletions s.gone + owners s.held

  gone-known :
      (gone : List Address) (hs : List Holding) (out : List Holding × List Address)
      → Shares (owners hs) out
      → deletions (gone ++ out.1) + owners out.0 ≡ deletions gone + owners hs
  gone-known gone hs out e = let more = deletions-append gone out.1 in omega (arith, e, more)

  step-known : (c : Command) (s : Stack) → known (stack_step c s) ≡ known s + handed_over (c ∷ [])
  step-known (create at i argv) s =
      let more = owners-append s.held (held_new i true argv ∷ []) in omega (arith, more)
  step-known (use_external at i) s =
      let more = owners-append s.held (held_new i false [] ∷ []) in omega (arith, more)
  step-known (activate i) s = elim (Bool-cases (i == 0)) [
    | inl z ↦ rw (z) (omega arith)
    | inr nz ↦ let same = owners-to_end i s.held in rw (nz) (omega (arith, same))
  ]
  step-known (delete i) s = elim (Bool-cases (i == 0)) [
    | inl z ↦
        let e = gone-known s.gone s.held (drop_last s.held) (drop_last-Shares s.held) in
        rw (z) (omega (arith, e))
    | inr nz ↦
        let e = gone-known s.gone s.held (drop_first i s.held) (drop_first-Shares i s.held) in
        rw (nz) (omega (arith, e))
  ]

  handed_over-first :
      (c : Command) (cs : List Command)
      → handed_over (c ∷ cs) ≡ handed_over (c ∷ []) + handed_over cs
  handed_over-first (create at i argv) cs = omega arith
  handed_over-first (use_external at i) cs = omega arith
  handed_over-first (activate i) cs = omega arith
  handed_over-first (delete i) cs = omega arith

  pub stack_run-known :
      (cs : List Command) (s : Stack) → known (stack_run cs s) ≡ known s + handed_over cs
  stack_run-known [] s = omega arith
  stack_run-known (c ∷ cs) s =
      let now = step-known c s in
      let later = stack_run-known cs (stack_step c s) in
      let first = handed_over-first c cs in omega (arith, now, later, first)

-- How a sequence of calls that is allowed ends.
abbrev Settles : (ℕ → ℕ → Bool) → Address → List Command → Registry → Type 0
Settles front p cs r =
    (r' : Registry) × (answers : List Bool) × (run front cs r ≡ some (r', answers))
    × (deletions p r'.deleted + owners p (holdings r'.interps)
        ≡ deletions p r.deleted + owners p (holdings r.interps) + handed_over p cs)

settled :
    (front : ℕ → ℕ → Bool) (p : Address) (cs : List Command) (r : Registry)
    (o : Option (Registry × List Bool))
    → are_allowed cs (stack_of r) ≡ true
    → run front cs r ≡ o
    → Acts front (are_allowed cs (stack_of r)) cs (stack_of r) o
    → Settles front p cs r
settled front p cs r none allowed e fails = absurd (ground (arith, allowed, fails))
settled front p cs r (some (r', answers)) allowed e (ok, state, same, last) =
    (r', answers, e, ap (known p) state ∙ stack_run-known p cs (stack_of r))

-- In every sequence of calls that adopts an interpreter only while the deque is empty, as the
-- assertion of UseExternalInterpreter demands: the calls have an outcome, and every interpreter is
-- deleted as often as it is handed over to the registry to own, less the entries that still own it.
-- Whichever side an erasure shifts, the moves of elements delete nothing twice and lose no
-- interpreter that is owned, and one that was only adopted is never deleted.
pub run-known :
    (front : ℕ → ℕ → Bool) (p : Address) (cs : List Command) (r : Registry)
    → are_allowed cs (stack_of r) ≡ true
    → (r' : Registry) × (answers : List Bool) × (run front cs r ≡ some (r', answers))
      × (deletions p r'.deleted + owners p (holdings r'.interps)
          ≡ deletions p r.deleted + owners p (holdings r.interps) + handed_over p cs)
run-known front p cs r allowed =
    settled front p cs r (run front cs r) allowed refl (run_lem front cs r)
