-- ===== src/Errors/Diagnostics/Reports.antt =====
-- Errors/Diagnostics: what a run of reports leaves behind.
use mathlib.Core.List.{append-nil, append_assoc}
use cpp_inter_op.Common.{
  ℕ, zero, suc, ◌⊎◌, ◌≡◌, ◌≢◌, ◌∙◌, refl, true, false, List, [], ◌∷◌, ◌++◌, map, none, some, arith,
  if◌then◌else◌, length, get_elem?, ltb, inl, inr,
}
use cpp_inter_op.Errors.Encoding.{Address}
use cpp_inter_op.Errors.Slices.{World, StoredDiagView, done}
use cpp_inter_op.Errors.Diagnostics.{
  Level, Diagnostic, CppInteropDiagConsumer, stored_view, handle_diagnostic, handle_all,
  get_pending_diagnostic, as_view,
}

abbrev pub Report : Type 0
Report = Level × Diagnostic

abbrev pub views : List Report → List StoredDiagView
views = map (λ (r : Report). stored_view r.0 r.1)

-- A run of reports is stored in order behind what waited at the consumer's interpreter, reaches
-- the chained consumer, if there is one, in the same order, and touches no other interpreter and
-- no slice.
pub handle_all_lem :
    (c : CppInteropDiagConsumer) (rs : List Report) (w : World)
    → ((handle_all c rs w).0.stored_diags c.interp ≡ w.stored_diags c.interp ++ views rs)
      × ((handle_all c rs w).1 ≡ (if c.raw then rs else []))
      × ((a : Address) → a ≢ c.interp → (handle_all c rs w).0.stored_diags a ≡ w.stored_diags a)
      × ((handle_all c rs w).0.slices ≡ w.slices)
unfolding handle_all
handle_all_lem c [] w = (rw append-nil, ground arith, (λ a h. refl), refl)
handle_all_lem c ((level, info) ∷ rs) w =
    let w1 = (handle_diagnostic c level info w).0 in
    let (stored, sent, others, slices) = handle_all_lem c rs w1 in
    (
      stored
          ∙ ground (
            arith,
            append_assoc (w.stored_diags c.interp) (stored_view level info ∷ []) (views rs),
          ),
      ground arith,
      (λ a h. others a h ∙ ground arith),
      slices,
    )

ltb-length {ℓ} :
    {A : Type ℓ} (xs : List A) (i : ℕ)
    → ((ltb i (length xs) ≡ true) × ((x : A) × (get_elem? xs i ≡ some x)))
      ⊎ ((ltb i (length xs) ≡ false) × (get_elem? xs i ≡ none))
ltb-length [] i = inr (ground arith, refl)
ltb-length (x ∷ xs) zero = inl (ground arith, (x, refl))
ltb-length (x ∷ xs) (suc i) = ground (arith, ltb-length xs i)

-- A reference to a waiting diagnostic is null exactly past the end, and otherwise reads the
-- diagnostic at that place.
pub as_view-get_pending_diagnostic :
    (i : ℕ) (ii : Address) (w : World)
    → as_view (get_pending_diagnostic i ii w) w ≡ done (get_elem? (w.stored_diags ii) i) w
unfolding as_view get_pending_diagnostic
as_view-get_pending_diagnostic i ii w = elim (ltb-length (w.stored_diags ii) i) [
  | inl (inside, (d, e)) ↦ rw inside (rw (e, as_view))
  | inr (outside, e) ↦ rw outside (rw e)
]
