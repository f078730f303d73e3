-- ===== src/Libraries/Lookup.antt =====
-- lib/CppInterOp/DynamicLibraryManager.cpp: from the name of a library to the path of a file.
pub mod Candidates
use cpp_inter_op.Common.{
  ℕ, ◌+◌, ◌-◌, ◌<◌, ◌≡◌, Bool, true, false, ◌&&◌, ◌||◌, not, List, [], ◌∷◌, ◌++◌, Option, none,
  some, ◌==◌, if◌then◌else◌, Str, codes, is_empty, str_eq, length, ltb, take, drop, starts_with,
}
use cpp_inter_op.Libraries.Manager.{SearchPathInfo}

pub data FileType : Type 0 where
  regular_file status_error other_type : FileType

-- What is asked of the system and of LLVM: file types and contents (`none` if the file cannot be
-- read), whether a header is that of an ELF shared object, stat, real_path (`none` on an error),
-- the path functions and the running program's path.
pub record System : Type 0 where
  pub file_type : Str → FileType
  pub contents : Str → Option Str
  pub is_elf_shared_object : Str → Bool
  pub stat : Str → Bool
  pub real_path : Str → Option Str
  pub is_absolute : Str → Bool
  pub append : Str → Str → Str
  pub filename : Str → Str
  pub remove_filename : Str → Str
  pub starts_with_insensitive : Str → Str → Bool
  pub main_executable : Str

module _ (sys : System) where
  open sys use {
    file_type, contents, is_elf_shared_object, stat, real_path, is_absolute, append, filename,
    remove_filename, starts_with_insensitive, main_executable,
  }

  -- A read of 1024 bytes fails on a file that has fewer. The second result is what is written to
  -- `*exists`, if anything is.
  abbrev pub is_shared_file : FileType → Option Str → Bool × Option Bool
  is_shared_file regular_file none = (false, some false)
  is_shared_file regular_file (some bytes) =
      if ltb (length bytes) 1024
      then (false, some false)
      else (is_elf_shared_object (take 1024 bytes), none)
  is_shared_file status_error bytes = (false, some false)
  is_shared_file other_type bytes = (false, some true)

  unfoldable pub is_shared_library : Str → Bool × Option Bool
  is_shared_library path = is_shared_file (file_type path) (contents path)

  -- platform::NormalizePath
  unfoldable pub platform_normalize_path : Str → Str
  platform_normalize_path path = elim (real_path path) [ none ↦ [] | some p ↦ p ]

  -- DynamicLibraryManager::normalizePath
  unfoldable pub normalize_path : Str → Str
  unfolding platform_normalize_path
  normalize_path path = if stat path then platform_normalize_path path else []

  unfoldable pub subst_front : Str → Str → Str → Str
  subst_front original pattern replacement =
      if starts_with_insensitive original pattern
      then replacement ++ drop (length pattern) original
      else original

  unfoldable pub subst_all : Str → Str → Str
  unfolding subst_front
  subst_all original lib_loader =
      subst_front original (codes "$origin")
        (remove_filename (if is_empty lib_loader then main_executable else lib_loader))

  -- The loops of lookupLibInPaths, over RPATH or RUNPATH and over the search paths. `none` is the
  -- end of the loop.
  unfoldable pub try_paths : List Str → Str → Str → Option Str
  unfolding subst_all is_shared_library
  try_paths [] lib_stem lib_loader = none
  try_paths (info ∷ infos) lib_stem lib_loader =
      let this_path = append (subst_all info lib_loader) lib_stem in
      let rest = try_paths infos lib_stem lib_loader in
      if (is_shared_library this_path).0 then some this_path else rest

  unfoldable pub try_search_paths : List SearchPathInfo → Str → Option Str
  unfolding is_shared_library
  try_search_paths [] lib_stem = none
  try_search_paths (info ∷ infos) lib_stem =
      let this_path = append info.path lib_stem in
      let rest = try_search_paths infos lib_stem in
      if (is_shared_library this_path).0 then some this_path else rest

  module _ (search_paths : List SearchPathInfo) (rpath run_path : List Str) (lib_loader : Str) where
    unfoldable pub lookup_lib_in_paths : Str → Str
    unfolding try_paths try_search_paths
    lookup_lib_in_paths lib_stem = elim (try_paths rpath lib_stem lib_loader) [
      | some p ↦ p
      | none ↦ elim (try_search_paths search_paths lib_stem) [
        | some p ↦ p
        | none ↦ elim (try_paths run_path lib_stem lib_loader) [ some p ↦ p | none ↦ [] ]
      ]
    ]

    unfoldable pub lookup_lib_maybe_add_ext : Str → Str
    unfolding lookup_lib_in_paths platform_normalize_path
    lookup_lib_maybe_add_ext lib_stem =
        let plain = lookup_lib_in_paths lib_stem in
        let found =
          if is_empty plain then lookup_lib_in_paths (lib_stem ++ codes ".so") else plain in
        let path = platform_normalize_path found in
        if is_empty found then [] else if is_empty path then found else path

    -- `libStem.str().insert(libStem.size() - libStemName.size(), "lib")`
    abbrev pub insert_lib : Str → Str → Str
    insert_lib lib_stem name =
        let at = length lib_stem - length name in
        take at lib_stem ++ (codes "lib" ++ drop at lib_stem)

    unfoldable pub lookup_library : Str → Bool → Str
    unfolding is_shared_library normalize_path subst_all lookup_lib_maybe_add_ext
        lookup_lib_in_paths platform_normalize_path
    lookup_library lib_stem variate =
        if is_absolute lib_stem
        then if (is_shared_library lib_stem).0 then normalize_path lib_stem else []
        else (let result = subst_all lib_stem lib_loader in
            let name = filename lib_stem in
            let direct = lookup_lib_maybe_add_ext lib_stem in
            let found : Str =
              if variate
              then if is_empty direct && not (starts_with name (codes "lib"))
                then lookup_lib_maybe_add_ext (insert_lib lib_stem name)
                else direct
              else lookup_lib_in_paths lib_stem in
            if (is_shared_library result).0
            then normalize_path result
            else if is_empty found
            then []
            else platform_normalize_path found)
