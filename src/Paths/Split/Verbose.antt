-- ===== src/Paths/Split/Verbose.antt =====
-- Paths/Split: the loop that logs the rest of the text before an early return.
use cpp_inter_op.Common.{
  ℕ, zero, suc, ◌≡◌, refl, true, false, List, [], none, Str, is_empty, ◌&&◌, arith,
}
use cpp_inter_op.Paths.Split.{
  fail_non_existent, Platform, Progress, log_non_existent, log_loop, fail_early, visit, split_loop,
  split_paths, stuck,
}

module _ (fs : Platform) (delim : Str) where
  open fs use {split, is_directory}

  log_loop-stuck :
      (fuel : ℕ) (path_str : Str) (sp : Str × Str) (s : Progress)
      → is_empty sp.1 ≡ false
      → is_empty (split (split path_str delim).1 delim).1 ≡ false
      → log_loop fs fail_non_existent delim true fuel path_str sp s ≡ none
  unfolding log_loop
  log_loop-stuck zero path_str sp s h three = refl
  log_loop-stuck (suc fuel) path_str sp s h three =
      rw (h, log_loop)
        (log_loop-stuck fuel path_str (split (split path_str delim).1 delim) _ three three)

  visit-stuck :
      (fuel : ℕ) (path_str : Str) (sp : Str × Str) (s : Progress)
      → is_directory sp.0 ≡ false
      → is_empty sp.1 ≡ false
      → is_empty (split (split path_str delim).1 delim).1 ≡ false
      → visit fs fail_non_existent delim true fuel path_str sp s ≡ stuck
  unfolding visit fail_early
  visit-stuck fuel path_str sp s gone more three = ground (
    arith,
    log_loop-stuck fuel path_str sp
        (log_non_existent sp.0 (record s { all_existed = s.all_existed && false })) more three,
  )

  -- A verbose kFailNonExistent on a text whose first piece is not empty and no directory, and which
  -- has text behind its second separator, never returns: no amount of fuel is enough.
  pub split_paths-diverges :
      (fuel : ℕ) (path_str : Str) (paths : List Str)
      → is_empty (split path_str delim).0 ≡ false
      → is_directory (split path_str delim).0 ≡ false
      → is_empty (split path_str delim).1 ≡ false
      → is_empty (split (split path_str delim).1 delim).1 ≡ false
      → split_paths fs fail_non_existent delim true fuel path_str paths ≡ none
  unfolding split_paths split_loop
  split_paths-diverges zero path_str paths full gone more three = refl
  split_paths-diverges (suc fuel) path_str paths full gone more three =
      let s : Progress = record { paths = paths; all_existed = true; logged = [] } in
      rw (more, split_loop)
        (rw (full, split_loop)
          (rw (visit-stuck fuel path_str (split path_str delim) s gone more three, split_loop)))
