-- ===== src/Paths/System/Spaces.antt =====
-- Paths/System: which paths are read out of the loader's output.
use cpp_inter_op.Common.{
  ℕ, zero, suc, ◌+◌, ◌-◌, ◌%◌, ◌^◌, ◌≤◌, ◌<◌, ◌≡◌, ◌∙◌, refl, ap, true, false, ◌&&◌, List, [], ◌∷◌,
  ◌++◌, Option, some, Str, codes, ltb, take, drop, get_or, length, arith, Bool-cases, inl, inr,
}
use cpp_inter_op.Paths.Split.{Platform, prune_non_existent}
use cpp_inter_op.Paths.Split.Pieces.{IsSplit, join, AllAbsent, kept, split_paths-pieces}
use cpp_inter_op.Paths.System.{
  is_space, remove_spaces, trim_to, start_of, sys_path, split_sys_path, get_system_library_paths,
}

-- A space at the end of what is taken makes no difference.
remove_spaces-take :
    (n : ℕ) (s : Str)
    → is_space (get_or s n 0) ≡ true
    → remove_spaces (take (suc n) s) ≡ remove_spaces (take n s)
unfolding remove_spaces
remove_spaces-take zero [] h = refl
remove_spaces-take (suc n) [] h = refl
remove_spaces-take zero (c ∷ s) h = ground arith
remove_spaces-take (suc n) (c ∷ s) h = ground (arith, remove_spaces-take n s h)

get_or-drop : (f n : ℕ) (s : Str) → get_or (drop f s) n 0 ≡ get_or s (f + n) 0
get_or-drop zero n s = ap (λ k. get_or s k 0) (omega arith)
get_or-drop (suc f) n [] = refl
get_or-drop (suc f) n (c ∷ s) =
    let e : suc f + n ≡ suc (f + n) = omega arith in rw e (get_or-drop f n s)

trim_to_bounds :
    (to from : ℕ) (s : Str) → from ≤ to → (from ≤ trim_to to from s) × (trim_to to from s ≤ to)
unfolding trim_to
trim_to_bounds zero from s h = omega arith
trim_to_bounds (suc t) from s h = ground (arith, trim_to_bounds t from s)

remove_spaces-trim_to :
    (to from : ℕ) (s : Str)
    → remove_spaces (take (trim_to to from s - from) (drop from s))
      ≡ remove_spaces (take (to - from) (drop from s))
unfolding trim_to
remove_spaces-trim_to zero from s = refl
remove_spaces-trim_to (suc t) from s =
    elim (Bool-cases (ltb from (suc t) && is_space (get_or s t 0))) [
      | inr stays ↦ rw stays
      | inl goes ↦
          let le : from ≤ t = ground arith in
          let index : from + (t - from) ≡ t = omega arith in
          let size : suc t - from ≡ suc (t - from) = omega arith in
          let space : is_space (get_or (drop from s) (t - from) 0) ≡ true =
            rw (get_or-drop from (t - from) s, index) (ground arith) in
          rw goes (
            remove_spaces-trim_to t from s
            ∙ rw size (rw (remove_spaces-take (t - from) (drop from s) space)))
    ]

sys_path-trimmed :
    (output : Str) (from to : ℕ)
    → from ≤ to
    → to < 2 ^ 64
    → sys_path output from to ≡ remove_spaces (take (to - from) (drop from output))
unfolding sys_path
sys_path-trimmed output from to le small =
    let (lo, hi) = trim_to_bounds to from output le in
    let size : (trim_to to from output + 2 ^ 64 - from) % 2 ^ 64 ≡ trim_to to from output - from =
      omega arith in
    rw size (remove_spaces-trim_to to from output)

-- Where the loader's output shows a search path from `at` to `to`, both found as the code looks
-- for them, and what stands between without white space is a list of pieces joined by colons,
-- with fuel for each, the paths that are appended are the pieces that exist, in order.
pub get_system_library_paths_lem :
    (find : Str → Str → ℕ → Option ℕ) (fs : Platform)
    → IsSplit fs.split
    → (fuel : ℕ) (output p : Str) (ps paths : List Str) (at to : ℕ)
    → find output (codes "search path=") (start_of (find output (codes "(LD_LIBRARY_PATH)") 0))
      ≡ some at
    → find output (codes "(system search path)") at ≡ some to
    → at + 12 ≤ to
    → to < 2 ^ 64
    → remove_spaces (take (to - (at + 12)) (drop (at + 12) output)) ≡ join b':' p ps
    → AllAbsent b':' (p ∷ ps)
    → length ps < fuel
    → get_system_library_paths find fs fuel output paths
      ≡ some (paths ++ kept fs.is_directory prune_non_existent (p ∷ ps))
unfolding get_system_library_paths split_sys_path
get_system_library_paths_lem find fs laws fuel output p ps paths at to found_at found_to le small
      text h room =
    let text' = sys_path-trimmed output (at + 12) to le small ∙ text in
    let (s, e, k) =
      split_paths-pieces fs prune_non_existent b':' false laws (λ c. refl) fuel p ps [] h room in
    rw (found_at, get_system_library_paths)
      (rw (found_to, get_system_library_paths)
        (ap (λ t. split_sys_path fs fuel t paths) text'
          ∙ rw (e, split_sys_path) (ap (λ x. some (paths ++ x)) k)))
