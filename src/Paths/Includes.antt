-- ===== src/Paths/Includes.antt =====
-- lib/CppInterOp/Paths.cpp: CopyIncludePaths and AddIncludePaths.
pub mod Laws
pub mod Options
pub mod RoundTrip
use cpp_inter_op.Common.{
  ℕ, ◌≡◌, Bool, true, false, ◌&&◌, ◌||◌, not, List, [], ◌∷◌, ◌++◌, map, Option, none, some,
  if◌then◌else◌, Str, codes, is_empty, str_eq,
}
use cpp_inter_op.Paths.Split.{Platform, allow_non_existent, split_paths}

-- clang::frontend::IncludeDirGroup, as far as the switch names it.
pub data Group : Type 0 where
  quoted angled system c_system extern_c_system cxx_system objc_system objcxx_system after : Group

-- clang::HeaderSearchOptions, the fields that are read.
pub record Entry : Type 0 where
  pub path : Str
  pub group : Group
  pub is_framework : Bool

pub record HeaderSearchOptions : Type 0 where
  pub sysroot : Str
  pub user_entries : List Entry
  pub resource_dir : Str
  pub module_cache_path : Str
  pub use_standard_system_includes : Bool
  pub use_standard_cxx_includes : Bool
  pub use_libcxx : Bool
  pub verbose : Bool

-- The option in front of an entry's path.
unfoldable pub flag : Entry → Str
flag e = elim e.group [
  | after ↦ codes "-idirafter"
  | quoted ↦ codes "-iquote"
  | system ↦ codes "-isystem"
  | c_system ↦ codes "-c-isystem"
  | extern_c_system ↦ codes "-extern-c-isystem"
  | cxx_system ↦ codes "-cxx-isystem"
  | objc_system ↦ codes "-objc-isystem"
  | objcxx_system ↦ codes "-objcxx-isystem"
  | angled ↦ if e.is_framework then codes "-F" else codes "-I"
]

-- The groups that the switch skips if the system paths are not wanted.
unfoldable pub is_system_group : Group → Bool
is_system_group after = false
is_system_group quoted = false
is_system_group angled = false
is_system_group _ = true

-- `report_fatal_error("Invalid option set!")`
unfoldable pub is_invalid : Entry → Bool
is_invalid e = e.is_framework && elim e.group [ angled ↦ false | system ↦ false | _ ↦ true ]

-- The loop over the entries; `none` is the fatal error.
unfoldable pub copy_entries : List Entry → List Str → Bool → Bool → Option (List Str)
unfolding flag is_system_group is_invalid
copy_entries [] out with_system with_flags = some out
copy_entries (e ∷ es) out with_system with_flags =
    let skipped = copy_entries es out with_system with_flags in
    let copied =
      copy_entries es ((if with_flags then out ++ flag e ∷ [] else out) ++ e.path ∷ []) with_system
        with_flags in
    if is_invalid e
    then none
    else if is_system_group e.group && not with_system
    then skipped
    else copied

-- What is appended behind the entries.
unfoldable pub copy_options : HeaderSearchOptions → Bool → Bool → List Str
copy_options o with_system with_flags =
    (if with_system && not (is_empty o.resource_dir)
      then (if with_flags then codes "-resource-dir" ∷ [] else []) ++ o.resource_dir ∷ []
      else [])
    ++ (if with_system && with_flags && not (is_empty o.module_cache_path)
        then codes "-fmodule-cache-path" ∷ o.module_cache_path ∷ []
        else [])
    ++ (if with_system && with_flags && not o.use_standard_system_includes
        then codes "-nostdinc" ∷ []
        else [])
    ++ (if with_system && with_flags && not o.use_standard_cxx_includes
        then codes "-nostdinc++" ∷ []
        else [])
    ++ (if with_system && with_flags && o.use_libcxx then codes "-stdlib=libc++" ∷ [] else [])
    ++ (if with_system && with_flags && o.verbose then codes "-v" ∷ [] else [])

unfoldable pub copy_include_paths : HeaderSearchOptions → List Str → Bool → Bool → Option (List Str)
unfolding copy_entries copy_options
copy_include_paths o incpaths with_system with_flags =
    elim (copy_entries o.user_entries
      (if with_flags && not (str_eq o.sysroot (codes "/"))
        then incpaths ++ codes "-isysroot" ∷ o.sysroot ∷ []
        else incpaths)
      with_system with_flags) [
        | none ↦ none
        | some out ↦ some (out ++ copy_options o with_system with_flags)
      ]

-- Whether an entry has the path.
unfoldable pub has_path : Str → List Entry → Bool
has_path p [] = false
has_path p (e ∷ es) = str_eq e.path p || has_path p es

-- The paths that no entry has.
unfoldable pub paths_checked : List Entry → List Str → List Str
unfolding has_path
paths_checked es [] = []
paths_checked es (p ∷ ps) =
    let rest = paths_checked es ps in if has_path p es then rest else p ∷ rest

-- `add_path` is HeaderSearchOptions::AddPath: path, group, framework, ignore sysroot.
module _ (fs : Platform)
    (add_path : Str → Group → Bool → Bool → HeaderSearchOptions → HeaderSearchOptions) where
  unfoldable pub add_all : List Str → HeaderSearchOptions → HeaderSearchOptions
  add_all [] o = o
  add_all (p ∷ ps) o = add_all ps (add_path p angled false true o)

  -- No delimiter is a null pointer or an empty text. `none` means that the fuel ran out.
  unfoldable pub add_include_paths :
      ℕ → Str → HeaderSearchOptions → Option Str → Option HeaderSearchOptions
  unfolding add_all paths_checked
  add_include_paths fuel path_str o delim =
      let whole = some (add_all (paths_checked o.user_entries (path_str ∷ [])) o) in
      elim delim [
        | none ↦ whole
        | some [] ↦ whole
        | some (c ∷ cs) ↦
            elim (split_paths fs allow_non_existent (c ∷ cs) o.verbose fuel path_str []) [
              | none ↦ none
              | some (existed, s) ↦ some (add_all (paths_checked o.user_entries s.paths) o)
            ]
      ]
