-- ===== src/Interpreters/Registry/History.antt =====
-- Interpreters/Registry: histories of calls against a plain list of interpreters.
use mathlib.Core.Path.{ap₂, subst}
use cpp_inter_op.Common.{ℕ, ◌≡◌, refl, ap, Bool, true, false, List, [], ◌∷◌, Option, none, some}
use cpp_inter_op.Errors.Encoding.{Address}
use cpp_inter_op.Interpreters.Slots.{InterpreterInfo, construct}
use cpp_inter_op.Interpreters.Registry.{
  Registry, delete_interpreter, activate_interpreter, register_interpreter,
  use_external_interpreter, get_interpreter,
}
use cpp_inter_op.Interpreters.Registry.Calls.{
  stack_answer, stack_answers, active, Agrees, stack, holdings-append, activate-Agrees,
  delete-Agrees, get_interpreter-active,
}
use cpp_inter_op.Interpreters.Registry.Order.{
  holdings, Stack, Command, create, use_external, activate, delete, stack_step, stack_run,
  is_allowed, are_allowed, stack_of,
}

module _ (front : ℕ → ℕ → Bool) where
  -- The outcome of a call with what it reports; `none` is a failed assertion.
  unfoldable pub step : Command → Registry → Option (Registry × Bool)
  step (create at i argv) r = some (register_interpreter at i true argv r, true)
  step (use_external at i) r = elim (use_external_interpreter at i r) [
    | none ↦ none
    | some r' ↦ some (r', true)
  ]
  step (activate i) r = some (activate_interpreter i r)
  step (delete i) r = some (delete_interpreter front i r)

  unfoldable pub run : List Command → Registry → Option (Registry × List Bool)
  run [] r = some (r, [])
  run (c ∷ cs) r = elim (step c r) [
    | none ↦ none
    | some (r', done) ↦ elim (run cs r') [
      | none ↦ none
      | some (r'', answers) ↦ some (r'', done ∷ answers)
    ]
  ]

  -- A call of the assertion build.
  abbrev StepAgrees : Command → Registry → Option (Registry × Bool) → Type 0
  StepAgrees c r none = is_allowed c (holdings r.interps) ≡ false
  StepAgrees c r (some out) = (is_allowed c (holdings r.interps) ≡ true) × Agrees c r out

  adopted :
      (at i : Address) (r : Registry) (xs : List InterpreterInfo)
      → r.interps ≡ xs
      → StepAgrees (use_external at i) r (step (use_external at i) r)
  unfolding step use_external_interpreter register_interpreter construct
  adopted at i r [] e = rw (use_external_interpreter, e) (refl, (refl, refl))
  adopted at i r (x ∷ xs) e = rw (use_external_interpreter, e) refl

  step-Agrees : (c : Command) (r : Registry) → StepAgrees c r (step c r)
  unfolding step register_interpreter construct
  step-Agrees (create at i argv) r = (
    refl,
    (ap (λ hs. stack hs r.deleted) (holdings-append r.interps (construct at i true argv)), refl),
  )
  step-Agrees (use_external at i) r = adopted at i r r.interps refl
  step-Agrees (activate i) r = (refl, activate-Agrees i r)
  step-Agrees (delete i) r = (refl, delete-Agrees front i r)

  -- What a sequence of calls does against the list: it fails the assertion where the calls are not
  -- allowed, and otherwise has an outcome that agrees with the list.
  abbrev pub Acts : Bool → List Command → Stack → Option (Registry × List Bool) → Type 0
  Acts allowed cs s none = allowed ≡ false
  Acts allowed cs s (some (r, answers)) =
      (allowed ≡ true)
      × (stack_of r ≡ stack_run cs s)
      × (answers ≡ stack_answers cs s)
      × (get_interpreter r ≡ active (stack_run cs s).held)

  behind_call :
      (c : Command) (cs : List Command) (s : Stack) (done : Bool)
      → is_allowed c s.held ≡ true
      → done ≡ stack_answer c s
      → (o : Option (Registry × List Bool))
      → Acts (are_allowed cs (stack_step c s)) cs (stack_step c s) o
      → Acts
          (are_allowed (c ∷ cs) s)
          (c ∷ cs)
          s
          (elim o [ none ↦ none | some (r, answers) ↦ some (r, done ∷ answers) ])
  behind_call c cs s done ok answer none later = rw (ok, later) refl
  behind_call c cs s done ok answer (some (r, answers)) (allowed, state, same, last) =
      (rw (ok, allowed) refl, state, ap₂ (λ d ds. d ∷ ds) answer same, last)

  after_call :
      (c : Command) (cs : List Command) (r : Registry)
      → ((r' : Registry) → Acts (are_allowed cs (stack_of r')) cs (stack_of r') (run cs r'))
      → (o : Option (Registry × Bool)) → StepAgrees c r o
      → Acts (are_allowed (c ∷ cs) (stack_of r)) (c ∷ cs) (stack_of r) (elim o [
        | none ↦ none
        | some (r', done) ↦ elim (run cs r') [
          | none ↦ none
          | some (r'', answers) ↦ some (r'', done ∷ answers)
        ]
      ])
  after_call c cs r later none fails = rw (fails) refl
  after_call c cs r later (some (r', done)) (ok, (now, answer)) =
      behind_call c cs (stack_of r) done ok answer (run cs r')
        (subst (λ s. Acts (are_allowed cs s) cs s (run cs r')) now (later r'))

  -- Any sequence of creating, adopting, activating and deleting interpreters fails an assertion
  -- exactly if it adopts an interpreter while the deque has entries. Otherwise it acts on what the
  -- entries hold (the interpreter, whether it is owned, its arguments and its counter), by element
  -- moves and whichever side the standard library shifts on an erasure, as on a plain list:
  -- activating takes the first entry of the interpreter to the end, deleting takes one entry out and
  -- frees its interpreter exactly when it is owned, and no other interpreter is freed or leaves the
  -- list. Every call reports success as that list says, and the interpreter in use afterwards is the
  -- last of the list. The caches and diagnostics of the entries are no part of it.
  pub run_lem :
      (cs : List Command) (r : Registry)
      → Acts (are_allowed cs (stack_of r)) cs (stack_of r) (run cs r)
  unfolding run
  run_lem [] r = (refl, refl, refl, get_interpreter-active r)
  run_lem (c ∷ cs) r = after_call c cs r (run_lem cs) (step c r) (step-Agrees c r)
