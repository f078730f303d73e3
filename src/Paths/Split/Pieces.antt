-- ===== src/Paths/Split/Pieces.antt =====
-- Paths/Split: what SplitPaths does, told by the pieces of its text.
use mathlib.Core.List.{append-nil, append_assoc}
use mathlib.Core.Path.{subst₂}
use cpp_inter_op.Common.{
  ℕ, zero, suc, ◌⊎◌, ◌+◌, ◌-◌, ◌<◌, ◌≡◌, ◌≢◌, ◌∙◌, refl, sym, ap, Bool, true, false, ◌&&◌, ◌||◌,
  List, [], ◌∷◌, ◌++◌, Option, none, some, if◌then◌else◌, Str, is_empty, str_eq, str_eq_refl,
  length, take, drop, arith, length-append, Bool-cases, inl, inr,
}
use cpp_inter_op.Paths.Split.{
  SplitMode, prune_non_existent, fail_non_existent, allow_non_existent, Platform, Progress, push,
  log_non_existent, LoopEnd, finished, returned, Round, go_on, stop, stuck, ends_with, visit,
  fail_early, split_loop, trim_delim, visit_last, after_loop, split_paths,
}

-- A text without the character.
abbrev pub Absent : ℕ → Str → Type 0
Absent d [] = Unit
Absent d (c ∷ s) = (c ≢ d) × Absent d s

-- The documented behaviour of `split` at a separator of one character.
pub record IsSplit (split : Str → Str → Str × Str) : Type 0 where
  pub at_first : (d : ℕ) (p rest : Str) → Absent d p → split (p ++ d ∷ rest) (d ∷ []) ≡ (p, rest)
  pub absent : (d : ℕ) (p : Str) → Absent d p → split p (d ∷ []) ≡ (p, [])

-- The text that joins the pieces, of which there is at least one.
abbrev pub join : ℕ → Str → List Str → Str
join d p [] = p
join d p (q ∷ ps) = p ++ d ∷ join d q ps

abbrev pub AllAbsent : ℕ → List Str → Type 0
AllAbsent d [] = Unit
AllAbsent d (p ∷ ps) = Absent d p × AllAbsent d ps

-- The paths that a mode keeps of the pieces: empty pieces never, and of the others those that
-- exist; kAllowNonExistent keeps the missing ones too, and kFailNonExistent stops at the first.
abbrev pub kept : (Str → Bool) → SplitMode → List Str → List Str
kept exists mode [] = []
kept exists mode (p ∷ ps) =
    let rest = kept exists mode ps in
    if is_empty p then rest else if exists p then p ∷ rest else (elim mode [
      | prune_non_existent ↦ rest
      | fail_non_existent ↦ []
      | allow_non_existent ↦ p ∷ rest
    ])

-- Whether every piece that is not empty exists.
abbrev pub all_exist : (Str → Bool) → List Str → Bool
all_exist exists [] = true
all_exist exists (p ∷ ps) = (is_empty p || exists p) && all_exist exists ps

drop-append {ℓ} : {A : Type ℓ} (xs ys : List A) → drop (length xs) (xs ++ ys) ≡ ys
drop-append [] ys = refl
drop-append (x ∷ xs) ys = drop-append xs ys

take-append {ℓ} : {A : Type ℓ} (xs ys : List A) → take (length xs) (xs ++ ys) ≡ xs
take-append [] ys = refl
take-append (x ∷ xs) ys = rw (take-append xs ys)

ends_with-snoc : (d : ℕ) (p : Str) → ends_with (p ++ d ∷ []) (d ∷ []) ≡ true
unfolding ends_with
ends_with-snoc d p =
    let n : length (p ++ d ∷ []) ≡ length p + 1 = omega (arith, length-append p (d ∷ [])) in
    let m : length (p ++ d ∷ []) - 1 ≡ length p = omega arith in
    rw (m, drop-append p (d ∷ []), str_eq_refl (d ∷ [])) (ground arith)

Absent-drop : (d n : ℕ) (p : Str) → Absent d p → Absent d (drop n p)
Absent-drop d zero p h = h
Absent-drop d (suc n) [] h = h
Absent-drop d (suc n) (c ∷ p) h = Absent-drop d n p h.1

str_eq-Absent : (d : ℕ) (p : Str) → Absent d p → str_eq p (d ∷ []) ≡ false
unfolding str_eq
str_eq-Absent d [] h = refl
str_eq-Absent d (c ∷ p) h = ground arith

ends_with-Absent : (d : ℕ) (p : Str) → Absent d p → ends_with p (d ∷ []) ≡ false
unfolding ends_with
ends_with-Absent d p h =
    ground (arith, str_eq-Absent d (drop (length p - 1) p) (Absent-drop d (length p - 1) p h))

SplitMode-cases :
    (m : SplitMode) → (m ≡ prune_non_existent) ⊎ (m ≡ fail_non_existent) ⊎ (m ≡ allow_non_existent)
SplitMode-cases prune_non_existent = inl refl
SplitMode-cases fail_non_existent = inr (inl refl)
SplitMode-cases allow_non_existent = inr (inr refl)

snoc-not-empty : (d : ℕ) (p : Str) → is_empty (p ++ d ∷ []) ≡ false
snoc-not-empty d [] = refl
snoc-not-empty d (c ∷ p) = refl

module _ (fs : Platform) (mode : SplitMode) (d : ℕ) (verbose : Bool) where
  open fs use {split, is_directory}

  trim_delim-snoc : (p : Str) → trim_delim fs mode (d ∷ []) verbose (p ++ d ∷ []) ≡ p
  unfolding trim_delim
  trim_delim-snoc p =
      let n : length (p ++ d ∷ []) - 1 ≡ length p = omega (arith, length-append p (d ∷ [])) in
      rw (ends_with-snoc d p, n, take-append p (d ∷ []), snoc-not-empty d p)

  trim_delim-Absent : (p : Str) → Absent d p → trim_delim fs mode (d ∷ []) verbose p ≡ p
  unfolding trim_delim
  trim_delim-Absent p h = rw (ends_with-Absent d p h) (ground arith)

  -- A loop that cannot log for ever.
  abbrev pub IsQuiet : Type 0
  IsQuiet = (mode ≡ fail_non_existent) → verbose ≡ false

  -- The outcome for a list of pieces, from the progress before them.
  abbrev pub Outcome : Option (Bool × Progress) → List Str → Progress → Type 0
  Outcome r ps s =
      (s' : Progress) × (r ≡ some (s.all_existed && all_exist is_directory ps, s'))
      × (s'.paths ≡ s.paths ++ kept is_directory mode ps)

  visit_last-Outcome :
      (p : Str) (s : Progress)
      → Outcome
          (some (
            (visit_last fs mode (d ∷ []) verbose p s).all_existed,
            visit_last fs mode (d ∷ []) verbose p s,
          ))
          (p ∷ [])
          s
  unfolding visit_last
  visit_last-Outcome p s =
      let s' = visit_last fs mode (d ∷ []) verbose p s in
      (s', ground arith, ground (arith, append-nil s.paths))

  -- A round on a piece that is not empty.
  abbrev RoundOutcome : Str → Progress → Round → Type 0
  RoundOutcome p s r =
      ((s' : Progress) × (r ≡ go_on s')
        × (s'.all_existed ≡ s.all_existed && is_directory p)
        × ((rest : List Str)
            → s'.paths ++ kept is_directory mode rest
              ≡ s.paths ++ kept is_directory mode (p ∷ rest)))
      ⊎ ((s' : Progress) × (r ≡ stop s')
          × (is_directory p ≡ false)
          × (s'.paths ≡ s.paths)
          × (mode ≡ fail_non_existent))

  visit-Outcome :
      IsQuiet
      → (fuel : ℕ) (path_str p rest : Str) (s : Progress) → is_empty p ≡ false
      → RoundOutcome p s (visit fs mode (d ∷ []) verbose fuel path_str (p, rest) s)
  unfolding visit fail_early
  visit-Outcome quiet fuel path_str p rest s full = elim (Bool-cases (is_directory p)) [
    | inl here ↦ inl (
      push p (record s { all_existed = s.all_existed && true }),
      ground arith,
      ground arith,
      λ more. ground (arith, append_assoc s.paths (p ∷ []) (kept is_directory mode more)),
    )
    | inr gone ↦
        let s1 : Progress = record s { all_existed = s.all_existed && false } in
        elim (SplitMode-cases mode) [
          | inl e ↦ inl (
            if verbose then log_non_existent p s1 else s1,
            ground arith,
            ground arith,
            λ more. ground arith,
          )
          | inr (inl e) ↦ inr (s1, ground (arith, quiet e), ground arith, ground arith, e)
          | inr (inr e) ↦ inl (
            push p s1,
            ground arith,
            ground arith,
            λ more. ground (arith, append_assoc s.paths (p ∷ []) (kept is_directory mode more)),
          )
        ]
  ]

  -- What the loop and its end make of the pieces.
  abbrev outcome_of : ℕ → Str → Progress → Option (Bool × Progress)
  outcome_of fuel path_str s =
      after_loop fs mode (d ∷ []) verbose (split_loop fs mode (d ∷ []) verbose fuel path_str s)

  at_end :
      (fuel : ℕ) (path_str p : Str) (s : Progress)
      → split path_str (d ∷ []) ≡ (p, [])
      → outcome_of (suc fuel) path_str s ≡ (
          let s' =
            visit_last fs mode (d ∷ []) verbose (trim_delim fs mode (d ∷ []) verbose path_str) s in
          some (s'.all_existed, s'))
  unfolding split_loop after_loop
  at_end fuel path_str p s e = rw (e, split_loop)

  -- The rest of the loop after a round.
  abbrev continue_with : ℕ → Str → Round → Option LoopEnd
  continue_with fuel rest r = elim r [
    | go_on s' ↦ split_loop fs mode (d ∷ []) verbose fuel rest s'
    | stop s' ↦ some (returned s')
    | stuck ↦ none
  ]

  round_body : ℕ → Str → Progress → Str × Str → Option LoopEnd
  round_body fuel path_str s sp = elim (is_empty sp.1) [
    | true ↦ some (finished path_str s)
    | false ↦
        continue_with fuel sp.1
          (if is_empty sp.0 then go_on s else visit fs mode (d ∷ []) verbose fuel path_str sp s)
  ]

  at_piece :
      (fuel : ℕ) (path_str p rest : Str) (s : Progress)
      → split path_str (d ∷ []) ≡ (p, rest)
      → is_empty rest ≡ false
      → split_loop fs mode (d ∷ []) verbose (suc fuel) path_str s
        ≡ continue_with fuel rest (
            if is_empty p
            then go_on s
            else visit fs mode (d ∷ []) verbose fuel path_str (p, rest) s)
  unfolding split_loop round_body
  at_piece fuel path_str p rest s e more = ap (round_body fuel path_str s) e ∙ rw (more, round_body)

  one_piece :
      IsSplit split
      → (fuel : ℕ) (p : Str) (s : Progress) → Absent d p
      → Outcome (outcome_of (suc fuel) p s) (p ∷ []) s
  one_piece laws fuel p s h =
      let (s', e, k) = visit_last-Outcome p s in
      (s', at_end fuel p p s (laws.absent d p h) ∙ rw (trim_delim-Absent p h) e, k)

  -- A separator at the end of the text.
  trailing :
      IsSplit split
      → (fuel : ℕ) (p : Str) (s : Progress) → Absent d p
      → Outcome (outcome_of (suc fuel) (p ++ d ∷ []) s) (p ∷ [] ∷ []) s
  trailing laws fuel p s h =
      let (s', e, k) = visit_last-Outcome p s in
      (s', at_end fuel (p ++ d ∷ []) p s (laws.at_first d p [] h) ∙ rw (trim_delim-snoc p) e, k)

  after_round :
      (fuel : ℕ) (p q : Str) (ps : List Str) (s : Progress) (r : Round)
      → is_empty p ≡ false
      → RoundOutcome p s r
      → ((s' : Progress) → Outcome (outcome_of fuel (join d q ps) s') (q ∷ ps) s')
      → Outcome
          (after_loop fs mode (d ∷ []) verbose (continue_with fuel (join d q ps) r))
          (p ∷ q ∷ ps)
          s
  unfolding after_loop
  after_round fuel p q ps s r full (inl (s1, e, b, k)) ih =
      let (s2, e2, k2) = ih s1 in (s2, rw e (e2 ∙ ground arith), k2 ∙ k (q ∷ ps))
  after_round fuel p q ps s r full (inr (s1, e, gone, k, m)) ih =
      (s1, rw e (ground arith), ground (arith, append-nil s.paths))

  rest_cases : (q : Str) (ps : List Str) → (is_empty (join d q ps) ≡ false) ⊎ ((q ≡ []) × (ps ≡ []))
  rest_cases [] [] = inr (refl, refl)
  rest_cases (c ∷ q) [] = inl refl
  rest_cases [] (r ∷ ps) = inl refl
  rest_cases (c ∷ q) (r ∷ ps) = inl refl

  loop-Outcome :
      IsSplit split
      → IsQuiet
      → (ps : List Str) (fuel : ℕ) (p : Str) (s : Progress) → AllAbsent d (p ∷ ps)
      → length ps < fuel
      → Outcome (outcome_of fuel (join d p ps) s) (p ∷ ps) s
  loop-Outcome laws quiet ps zero p s h room = elim room [ ]
  loop-Outcome laws quiet [] (suc fuel) p s h room = one_piece laws fuel p s h.0
  loop-Outcome laws quiet (q ∷ ps) (suc fuel) p s h room =
      let ih = λ (s' : Progress). loop-Outcome laws quiet ps fuel q s' h.1 (omega arith) in
      let e = laws.at_first d p (join d q ps) h.0 in
      elim (rest_cases q ps) [
        | inr (eq, eps) ↦
            subst₂
              (λ q' ps'. Outcome (outcome_of (suc fuel) (join d p (q' ∷ ps')) s) (p ∷ q' ∷ ps') s)
              (sym eq) (sym eps) (trailing laws fuel p s h.0)
        | inl more ↦ elim (Bool-cases (is_empty p)) [
          | inl none_here ↦
              let (s', r, k) = ih s in
              (
                s',
                ap (after_loop fs mode (d ∷ []) verbose)
                      (at_piece fuel _ p (join d q ps) s e more ∙ rw none_here)
                    ∙ r
                    ∙ ground arith,
                k ∙ ground arith,
              )
          | inr full ↦
              let r = visit fs mode (d ∷ []) verbose fuel (join d p (q ∷ ps)) (p, join d q ps) s in
              let (s', eq, k) =
                after_round fuel p q ps s r full (visit-Outcome quiet fuel _ p (join d q ps) s full)
                  ih in
              (
                s',
                ap (after_loop fs mode (d ∷ []) verbose)
                      (at_piece fuel _ p (join d q ps) s e more ∙ rw full)
                    ∙ eq,
                k,
              )
        ]
      ]

  -- For a text of pieces joined by a separator of one character, fuel for each piece is enough,
  -- in every mode but a verbose kFailNonExistent: the result says whether every piece that is not
  -- empty is a directory, and the paths that the mode keeps of the pieces are appended in order.
  pub split_paths-pieces :
      IsSplit split
      → IsQuiet
      → (fuel : ℕ) (p : Str) (ps paths : List Str) → AllAbsent d (p ∷ ps)
      → length ps < fuel
      → (s : Progress) × (split_paths fs mode (d ∷ []) verbose fuel (join d p ps) paths
          ≡ some (all_exist is_directory (p ∷ ps), s))
        × (s.paths ≡ paths ++ kept is_directory mode (p ∷ ps))
  unfolding split_paths
  split_paths-pieces laws quiet fuel p ps paths h room =
      loop-Outcome laws quiet ps fuel p (record { paths = paths; all_existed = true; logged = [] })
        h room
