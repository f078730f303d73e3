-- ===== src/Paths/Split.antt =====
-- lib/CppInterOp/Paths.cpp: SplitPaths, as built on Unix.
pub mod Pieces
pub mod Verbose
pub mod FirstAt
use cpp_inter_op.Common.{
  ℕ, zero, suc, ◌+◌, ◌-◌, ◌≡◌, Bool, true, false, ◌&&◌, not, List, [], ◌∷◌, ◌++◌, Option, none,
  some, ◌==◌, if◌then◌else◌, Str, is_empty, str_eq, length, take, drop, leb,
}

pub data SplitMode : Type 0 where
  prune_non_existent fail_non_existent allow_non_existent : SplitMode

-- What is called of LLVM: `llvm::StringRef::split` around the first separator, and
-- `llvm::sys::fs::is_directory`.
pub record Platform : Type 0 where
  pub split : Str → Str → Str × Str
  pub is_directory : Str → Bool

-- The output vector, whether all existed, and the directories that were logged.
pub record Progress : Type 0 where
  pub paths : List Str
  pub all_existed : Bool
  pub logged : List Str

abbrev pub push : Str → Progress → Progress
push p s = record s { paths = s.paths ++ p ∷ [] }

abbrev pub log_non_existent : Str → Progress → Progress
log_non_existent p s = record s { logged = s.logged ++ p ∷ [] }

-- How the loop ends: by its condition, with the rest of the text, or by an early `return false`.
pub data LoopEnd : Type 0 where
  finished : Str → Progress → LoopEnd
  returned : Progress → LoopEnd

-- How one round ends: with the next, with the early return, or without fuel.
pub data Round : Type 0 where
  go_on stop : Progress → Round
  stuck : Round

unfoldable pub ends_with : Str → Str → Bool
ends_with s suffix =
    leb (length suffix) (length s) && str_eq (drop (length s - length suffix) s) suffix

module _ (fs : Platform) (mode : SplitMode) (delim : Str) (verbose : Bool) where
  open fs use {split, is_directory}

  -- The loop that logs the rest of the text before the early return. `path_str` does not change
  -- in it. `none` means that the fuel ran out.
  unfoldable pub log_loop : ℕ → Str → Str × Str → Progress → Option ((Str × Str) × Progress)
  log_loop zero path_str sp s = none
  log_loop (suc fuel) path_str sp s = elim (is_empty sp.1) [
    | true ↦ some (sp, s)
    | false ↦
        let sp1 : Str × Str = split path_str delim in
        log_loop fuel path_str (split sp1.1 delim)
          (if is_directory sp1.0 then s else log_non_existent sp1.0 s)
  ]

  -- The early return of kFailNonExistent.
  unfoldable pub fail_early : ℕ → Str → Str × Str → Progress → Option Progress
  unfolding log_loop
  fail_early fuel path_str sp s =
      if verbose
      then (elim (log_loop fuel path_str sp (log_non_existent sp.0 s)) [
        | none ↦ none
        | some (sp2, s2) ↦ some (if is_directory sp2.0 then s2 else log_non_existent sp2.0 s2)
      ])
      else some s

  -- One round on a piece that is not empty.
  unfoldable pub visit : ℕ → Str → Str × Str → Progress → Round
  unfolding fail_early
  visit fuel path_str sp s =
      let exists = is_directory sp.0 in
      let s1 : Progress = record s { all_existed = s.all_existed && exists } in
      if exists then go_on (push sp.0 s1) else elim mode [
        | fail_non_existent ↦ elim (fail_early fuel path_str sp s1) [
          | none ↦ stuck
          | some s2 ↦ stop s2
        ]
        | allow_non_existent ↦ go_on (push sp.0 s1)
        | prune_non_existent ↦ go_on (if verbose then log_non_existent sp.0 s1 else s1)
      ]

  unfoldable pub split_loop : ℕ → Str → Progress → Option LoopEnd
  unfolding visit
  split_loop zero path_str s = none
  split_loop (suc fuel) path_str s =
      let sp : Str × Str = split path_str delim in
      elim (is_empty sp.1) [
        | true ↦ some (finished path_str s)
        | false ↦ elim (if is_empty sp.0 then go_on s else visit fuel path_str sp s) [
          | go_on s' ↦ split_loop fuel sp.1 s'
          | stop s' ↦ some (returned s')
          | stuck ↦ none
        ]
      ]

  -- A separator at the end is trimmed in case of A:B:C:D:
  unfoldable pub trim_delim : Str → Str
  unfolding ends_with
  trim_delim path_str =
      if not (is_empty path_str) && ends_with path_str delim
      then take (length path_str - length delim) path_str
      else path_str

  -- The last piece, which the loop leaves.
  unfoldable pub visit_last : Str → Progress → Progress
  visit_last p s =
      if is_empty p
      then s
      else if is_directory p
      then push p s
      else (let s1 : Progress = record s { all_existed = false } in
          elim mode [
            | allow_non_existent ↦ push p s1
            | _ ↦ if verbose then log_non_existent p s1 else s1
          ])

  -- What follows the loop, if it was not left early.
  unfoldable pub after_loop : Option LoopEnd → Option (Bool × Progress)
  unfolding trim_delim visit_last
  after_loop none = none
  after_loop (some (returned s)) = some (false, s)
  after_loop (some (finished rest s)) =
      let s' = visit_last (trim_delim rest) s in some (s'.all_existed, s')

  -- The result and the progress made; `none` means that the fuel ran out.
  unfoldable pub split_paths : ℕ → Str → List Str → Option (Bool × Progress)
  unfolding split_loop after_loop
  split_paths fuel path_str paths =
      after_loop
        (split_loop fuel path_str (record { paths = paths; all_existed = true; logged = [] }))
