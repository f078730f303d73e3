-- ===== src/Paths/Tests.antt =====
-- Runs of the path functions, and their theorems at concrete data.
use cpp_inter_op.Common.{
  ℕ, ◌+◌, ◌≡◌, refl, Bool, true, false, ◌||◌, List, [], ◌∷◌, ◌++◌, Option, none, some,
  if◌then◌else◌, Str, codes, str_eq, arith, starts_with, drop, contains,
}
use cpp_inter_op.Paths.Split.{
  Platform, Progress, prune_non_existent, fail_non_existent, split_paths,
}
use cpp_inter_op.Paths.Split.Pieces.{split_paths-pieces}
use cpp_inter_op.Paths.Split.FirstAt.{split_any, split_any-IsSplit}
use cpp_inter_op.Paths.Split.Verbose.{split_paths-diverges}
use cpp_inter_op.Paths.Includes.{
  Group, angled, system, HeaderSearchOptions, has_path, copy_include_paths, add_include_paths,
}
use cpp_inter_op.Paths.Includes.Options.{read_words, defaults}
use cpp_inter_op.Paths.Includes.Laws.{IsAddPath, add_include_paths_idem}
use cpp_inter_op.Paths.System.{remove_spaces, get_system_library_paths}
use cpp_inter_op.Paths.System.Spaces.{get_system_library_paths_lem}

-- Directories begin with a slash.
abbrev disk : Platform
disk = record { split = split_any; is_directory = λ p. starts_with p (codes "/") }

abbrev pieces : List Str
pieces = codes "x" ∷ codes "/b" ∷ [] ∷ []

split_paths-pieces_example :
    (s : Progress) × (split_paths disk prune_non_existent (codes ":") true 9 (codes "/a:x:/b:") []
      ≡ some (false, s))
    × (s.paths ≡ codes "/a" ∷ codes "/b" ∷ [])
unfolding starts_with
split_paths-pieces_example =
    split_paths-pieces disk prune_non_existent b':' true split_any-IsSplit (λ e. absurd (cc)) 9
      (codes "/a") pieces [] (omega arith) (omega arith)

split_paths-diverges_example :
    split_paths disk fail_non_existent (codes ":") true 100 (codes "x:y:z") [] ≡ none
unfolding starts_with
split_paths-diverges_example =
    split_paths-diverges disk (codes ":") 100 (codes "x:y:z") [] refl refl refl refl

abbrev options : HeaderSearchOptions
options = record {
  sysroot = codes "/";
  user_entries =
      record { path = codes "/inc"; group = angled; is_framework = false }
      ∷ record { path = codes "/usr"; group = system; is_framework = false }
      ∷ [];
  resource_dir = codes "/res";
  module_cache_path = [];
  use_standard_system_includes = true;
  use_standard_cxx_includes = true;
  use_libcxx = true;
  verbose = false;
}

abbrev words : List Str
words =
    codes "-I"
    ∷ codes "/inc"
    ∷ codes "-isystem"
    ∷ codes "/usr"
    ∷ codes "-resource-dir"
    ∷ codes "/res"
    ∷ codes "-stdlib=libc++"
    ∷ []

copies_all : copy_include_paths options [] true true ≡ some words
unfolding copy_include_paths str_eq
copies_all = refl

reads_back : read_words words (defaults, none) ≡ (options, none)
unfolding str_eq
reads_back = refl

abbrev append_path : Str → Group → Bool → Bool → HeaderSearchOptions → HeaderSearchOptions
append_path p g f i o = record o {
  user_entries = o.user_entries ++ record { path = p; group = g; is_framework = f } ∷ [];
}

append_path-IsAddPath : IsAddPath append_path
append_path-IsAddPath = record { appends = λ p g f i o. refl }

add_include_paths_idem_example :
    (o' : HeaderSearchOptions) × (add_include_paths disk append_path 9
        (codes "/inc:n")
        options
        (some (codes ":"))
      ≡ some o')
    × ((q : Str)
        → has_path q o'.user_entries
          ≡ (has_path q options.user_entries || contains q (codes "/inc" ∷ codes "n" ∷ [])))
    × (add_include_paths disk append_path 9 (codes "/inc:n") o' (some (codes ":")) ≡ some o')
unfolding starts_with
add_include_paths_idem_example =
    add_include_paths_idem disk append_path split_any-IsSplit append_path-IsAddPath 9 b':'
      (codes "/inc") (codes "n" ∷ []) options (omega arith) (omega arith)

-- The first occurrence of a text from a position on, with fuel.
abbrev find_from : Str → Str → ℕ → Option ℕ
find_from [] needle i = none
find_from (c ∷ s) needle i =
    if starts_with (c ∷ s) needle then some i else find_from s needle (i + 1)

abbrev find_text : Str → Str → ℕ → Option ℕ
find_text s needle from = find_from (drop from s) needle from

abbrev loader_text : Str
loader_text = codes "x: search path=/a:/b:c  (system search path)"

get_system_library_paths_lem_example :
    get_system_library_paths find_text disk 9 loader_text [] ≡ some (codes "/a" ∷ codes "/b" ∷ [])
unfolding starts_with remove_spaces
get_system_library_paths_lem_example =
    get_system_library_paths_lem find_text disk split_any-IsSplit 9 loader_text (codes "/a")
      (codes "/b" ∷ codes "c" ∷ []) [] 3 24 refl refl (omega arith) (omega arith) refl (omega arith)
      (omega arith)
