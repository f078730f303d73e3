-- ===== src/Errors/Results/Checks.antt =====
-- Errors/Results: what a result that nobody looked at does, and two ways to a result whose storage
-- holds no value.
use mathlib.Core.Path.{subst}
use cpp_inter_op.Common.{
  ◌≡◌, ◌≢◌, ◌↔◌, refl, sym, Bool, true, false, arith, ◌⊎◌, ◌+◌, ◌%◌, ◌^◌, Bool-cases, Option-cases,
  inl, inr,
}
use cpp_inter_op.Errors.Encoding.{ErrorRef, ok_ref, is_ok, is_slice}
use cpp_inter_op.Errors.Ownership.Counts.{recount}
use cpp_inter_op.Errors.Slices.{World, Run, done, fault, abort, retain_error_ref, release_error_ref}
use cpp_inter_op.Errors.Results.{
  Content, val, err_state, Result, of_error, result_copy, result_move, result_destroy, result_ok,
  value,
}

-- A retain and a release succeed or are a fault: they never abort.
retain_error_ref-cases :
    (e : ErrorRef) (w : World)
    → ((w' : World) × (retain_error_ref e w ≡ done tt w')) ⊎ (retain_error_ref e w ≡ fault)
unfolding retain_error_ref
retain_error_ref-cases e w = elim (Bool-cases (is_slice e)) [
  | inr other ↦ inl (w, ground arith)
  | inl sl ↦ elim (Option-cases (w.slices e.bits)) [
    | inl gone ↦ inr (ground arith)
    | inr (s, live) ↦ inl (recount w e.bits s ((s.refcount + 1) % 2 ^ 32), ground arith)
  ]
]

release_error_ref-ne-abort : (e : ErrorRef) (w : World) → release_error_ref e w ≢ abort
unfolding release_error_ref
release_error_ref-ne-abort e w = ground arith

module _ {ℓ} {A : Type ℓ} where
  -- The mark and the storage agree: an error is stored exactly where the mark says so.
  abbrev pub Stores : Content A → Bool → Type 0
  Stores (val a) b = b ≡ false
  Stores (err_state e) b = b ≡ true

  abbrev pub IsFormed : Result A → Type 0
  IsFormed r = Stores r.content r.has_error

  -- What a copy leaves: the copy has the duty and the source has none. It may be a fault where there
  -- is an error to retain, and it never aborts.
  abbrev pub Copied : Bool → Bool → World → Run (Result A × Result A) → Type 0
  Copied trivial has_error v (done (new, old) w') =
      ((result_destroy trivial new v ≡ abort) ↔ (has_error ≡ true))
      × (result_destroy trivial old v ≢ abort)
  Copied trivial has_error v fault = has_error ≡ true
  Copied trivial has_error v abort = ⊥

  duty :
      (trivial : Bool) (c : Content A) (b u : Bool) (v : World)
      → Stores c b
      → u ≡ true
      → (result_destroy trivial (record { content = c; has_error = b; unchecked = u }) v ≡ abort)
        ↔ (b ≡ true)
  unfolding result_destroy
  duty trivial (val a) true u v formed fresh = absurd (cc)
  duty trivial (val a) false u v formed fresh = ground arith
  duty trivial (err_state e) false u v formed fresh = absurd (cc)
  duty trivial (err_state e) true u v formed fresh = ground arith

  copied :
      (trivial : Bool) (c : Content A) (b u : Bool) (w v : World)
      → Stores c b
      → u ≡ true
      → Copied trivial b v (result_copy (record { content = c; has_error = b; unchecked = u }) w)
  unfolding result_copy result_destroy
  copied trivial (val a) true u w v formed fresh = absurd (cc)
  copied trivial (val a) false u w v formed fresh = ground arith
  copied trivial (err_state e) false u w v formed fresh = absurd (cc)
  copied trivial (err_state e) true u w v formed fresh =
      let r : Result A = record { content = err_state e; has_error = true; unchecked = u } in
      elim (retain_error_ref-cases e w) [
        | inl (w1, ran) ↦
            let e1 : result_copy r w ≡ done (r, record r { unchecked = false }) w1 =
              ground (arith, ran) in
            subst (Copied trivial true v) (sym e1)
              (ground (arith, fresh), release_error_ref-ne-abort e v)
        | inr failed ↦
            let e1 : result_copy r w ≡ fault = ground (arith, failed) in
            subst (Copied trivial true v) (sym e1) refl
      ]

  -- A well-formed result that was not looked at: its destructor aborts exactly if it holds an
  -- error, whatever the world is and whether the value type's destructor is trivial. A copy of it
  -- never aborts, and is a fault at most where there is an error to retain; where it succeeds, the
  -- copy takes over that duty from its source, whose destructor then does not abort.
  pub result_copy-duty :
      (trivial : Bool) (r : Result A) (w v : World)
      → IsFormed r
      → r.unchecked ≡ true
      → ((result_destroy trivial r v ≡ abort) ↔ (r.has_error ≡ true))
        × Copied trivial r.has_error v (result_copy r w)
  result_copy-duty trivial r w v formed fresh = (
    duty trivial r.content r.has_error r.unchecked v formed fresh,
    copied trivial r.content r.has_error r.unchecked w v formed fresh,
  )

  -- An error reference that encodes Ok makes a result that calls itself a success and has no
  -- value: taking the value is a fault, for every value type.
  of_error-ok_ref :
      (w : World)
      → (r : Result A) × (of_error {A = A} ok_ref w ≡ done r w)
        × ((result_ok r).1 ≡ true)
        × (value r w ≡ fault)
  unfolding of_error is_ok result_ok value
  of_error-ok_ref w =
      (record { content = err_state ok_ref; has_error = false; unchecked = true }, refl, refl, refl)

  -- A result with an error that is moved from calls itself a success, and its destructor runs the
  -- value type's destructor on storage that holds no value: a fault unless that one is trivial.
  result_move-leaves :
      (r new old : Result A) (w w' v : World)
      → IsFormed r
      → r.has_error ≡ true
      → result_move r w ≡ done (new, old) w'
      → ((result_ok old).1 ≡ true)
        × (result_destroy false old v ≡ fault)
        × (result_destroy true old v ≡ done tt v)
  unfolding result_move result_ok result_destroy
  result_move-leaves r new old w w' v formed err h = ground arith

  -- Two ways to a result that calls itself a success and whose storage holds no value. An error
  -- reference that encodes Ok makes one: taking the value is a fault, for every value type. A
  -- well-formed result with an error that is moved from becomes one: its destructor runs the value
  -- type's destructor on that storage, a fault unless that one is trivial.
  pub of_error-result_move :
      (r new old : Result A) (w w' v : World)
      → IsFormed r
      → r.has_error ≡ true
      → result_move r w ≡ done (new, old) w'
      → ((made : Result A) × (of_error {A = A} ok_ref v ≡ done made v)
          × ((result_ok made).1 ≡ true)
          × (value made v ≡ fault))
        × (((result_ok old).1 ≡ true)
            × (result_destroy false old v ≡ fault)
            × (result_destroy true old v ≡ done tt v))
  of_error-result_move r new old w w' v formed err h =
      (of_error-ok_ref v, result_move-leaves r new old w w' v formed err h)
