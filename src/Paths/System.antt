-- ===== src/Paths/System.antt =====
-- lib/CppInterOp/Paths.cpp: GetSystemLibraryPaths on Linux, which reads the paths out of what the
-- dynamic loader prints.
pub mod Spaces
use cpp_inter_op.Common.{
  ℕ, zero, suc, ◌+◌, ◌-◌, ◌%◌, ◌^◌, ◌≡◌, Bool, true, false, ◌&&◌, ◌||◌, List, [], ◌∷◌, ◌++◌, Option,
  none, some, ◌==◌, if◌then◌else◌, Str, codes, ltb, leb, take, drop, get_or,
}
use cpp_inter_op.Paths.Split.{Platform, Progress, prune_non_existent, split_paths}

-- `isspace` of the C locale.
unfoldable pub is_space : ℕ → Bool
is_space c = c == 32 || leb 9 c && leb c 13

-- `std::remove_if(…, ::isspace)` and `erase`
unfoldable pub remove_spaces : Str → Str
unfolding is_space
remove_spaces [] = []
remove_spaces (c ∷ s) = let rest = remove_spaces s in if is_space c then rest else c ∷ rest

-- `while (To > From && isspace(Result[To - 1])) --To;`
unfoldable pub trim_to : ℕ → ℕ → Str → ℕ
unfolding is_space
trim_to zero from s = zero
trim_to (suc t) from s =
    let rest = trim_to t from s in
    if ltb from (suc t) && is_space (get_or s t 0) then rest else suc t

-- `size_t` subtraction wraps, and `substr` clamps the length to what there is.
abbrev substr : Str → ℕ → ℕ → Str
substr s from n = take n (drop from s)

abbrev sub_size : ℕ → ℕ → ℕ
sub_size a b = (a + 2 ^ 64 - b) % 2 ^ 64

-- The path text between two positions: trimmed, then without white space.
unfoldable pub sys_path : Str → ℕ → ℕ → Str
unfolding remove_spaces trim_to
sys_path output from to =
    remove_spaces (substr output from (sub_size (trim_to to from output) from))

-- The split with the default mode, and the copy into the vector.
unfoldable pub split_sys_path : Platform → ℕ → Str → List Str → Option (List Str)
split_sys_path fs fuel text paths =
    elim (split_paths fs prune_non_existent (codes ":") false fuel text []) [
      | none ↦ none
      | some (existed, s) ↦ some (paths ++ s.paths)
    ]

-- `LD == NPos ? 0 : LD`
abbrev pub start_of : Option ℕ → ℕ
start_of none = 0
start_of (some ld) = ld

-- `find` is StringRef::find with a start, `none` for npos; `output` is what the loader printed.
-- The result is the vector of paths; the outer `none` means that the fuel ran out.
unfoldable pub get_system_library_paths :
    (Str → Str → ℕ → Option ℕ) → Platform → ℕ → Str → List Str → Option (List Str)
get_system_library_paths find fs fuel output paths =
    elim (find output (codes "search path=")
      (start_of (find output (codes "(LD_LIBRARY_PATH)") 0))) [
        | none ↦ some paths
        | some at ↦ elim (find output (codes "(system search path)") at) [
          | none ↦ some paths
          | some to ↦ split_sys_path fs fuel (sys_path output (at + 12) to) paths
        ]
      ]
