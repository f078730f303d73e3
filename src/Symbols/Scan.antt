-- ===== src/Symbols/Scan.antt =====
-- lib/CppInterOp/DynamicLibraryManagerSymbol.cpp: ScanForLibraries of Dyld.
use cpp_inter_op.Common.{
  ℕ, zero, suc, Bool, true, false, ◌&&◌, ◌||◌, not, List, [], ◌∷◌, ◌++◌, Option, none, some, ◌==◌,
  if◌then◌else◌, Str, codes, is_empty, str_eq, contains,
}
use cpp_inter_op.Paths.Split.{Platform, allow_non_existent, split_paths}
use cpp_inter_op.Libraries.Manager.{SearchPathInfo, DynamicLibraryManager, has_search_path}
use cpp_inter_op.Libraries.Lookup.{System, lookup_library}
pub mod Growth
pub mod Registration
pub mod Steps
pub mod Totality
use cpp_inter_op.Symbols.Filter.{LibraryPath, empty_filter}
use cpp_inter_op.Symbols.Registry.{
  LibraryPaths, get_registered_lib, has_registered_lib, register_lib, unregister_lib,
}
use cpp_inter_op.Symbols.Ignore.{SectionedFile, should_permanently_ignore}
use cpp_inter_op.Symbols.Dynamic.{Dyn, DynTab, handle_dyn_tab}
use cpp_inter_op.Symbols.RealPath.{Unix, Caches, real_path_of}

-- The state of Dyld, with the caches of cached_realpath.
pub record Dyld : Type 0 where
  pub first_run : Bool
  pub first_run_sys_lib : Bool
  pub base_paths : List Str
  pub libraries : LibraryPaths
  pub sys_libraries : LibraryPaths
  pub queried_libraries : LibraryPaths
  pub caches : Caches

unfoldable pub new_dyld : Caches → Dyld
new_dyld c = record {
  first_run = true;
  first_run_sys_lib = true;
  base_paths = [];
  libraries = record { libs = []; libs_h = [] };
  sys_libraries = record { libs = []; libs_h = [] };
  queried_libraries = record { libs = []; libs_h = [] };
  caches = c;
}

-- BasePaths::RegisterBasePath. A base path is told by its text.
unfoldable pub register_base_path : Str → Dyld → Dyld
register_base_path path d = record d {
  base_paths = if contains path d.base_paths then d.base_paths else d.base_paths ++ path ∷ [];
}

-- LibraryPath's constructor.
unfoldable pub new_library_path : Str → Str → LibraryPath
new_library_path path lib_name = record {
  path = path;
  lib_name = lib_name;
  filter = empty_filter;
  symbols = [];
}

-- What LLVM reads of an object file: the tables of an ELF file, as HandleDynTab asks for them, or
-- the load commands of a Mach-O file.
pub data LoadCommand : Type 0 where
  lc_load_dylib lc_rpath : Str → LoadCommand
  lc_other : LoadCommand

pub data BinObj : Type 0 where
  elf : Option Str → Option (List Dyn) → BinObj
  mach_o : List LoadCommand → BinObj
  other_object : BinObj

-- An entry of a directory.
pub data EntryType : Type 0 where
  regular_entry symlink_entry other_entry : EntryType

-- What is called of LLVM and of the other parts: the path functions, is_directory, the entries of
-- a directory up to an error, and the object file of a path, `none` if it cannot be read.
pub record Scanner : Type 0 where
  pub sys : System
  pub fs : Platform
  pub unix : Unix
  pub parent_path : Str → Str
  pub directory : Str → List (Str × EntryType)
  pub bin_obj : Str → Option BinObj
  pub sections_of : Str → Option SectionedFile
  pub shf_alloc : ℕ
  pub df_1_pie : ℕ
  pub callback : Str → Bool
  pub executable_format : Str

abbrev pub no_deps : DynTab
no_deps = record { rpath = []; run_path = []; deps = []; is_pie_executable = false }

unfoldable pub is_handled : LibraryPath → Dyld → Bool
is_handled lib d = has_registered_lib lib d.sys_libraries || has_registered_lib lib d.libraries

unfoldable pub register_in : Bool → LibraryPath → Dyld → Dyld
register_in search_system lib d =
    if search_system
    then record d { sys_libraries = register_lib lib d.sys_libraries }
    else record d { libraries = register_lib lib d.libraries }

unfoldable pub unregister_in : Bool → LibraryPath → Dyld → Dyld
unregister_in search_system lib d =
    if search_system
    then record d { sys_libraries = unregister_lib lib d.sys_libraries }
    else record d { libraries = unregister_lib lib d.libraries }

-- The second heuristic: whether each directory is a search path.
unfoldable pub are_search_paths : List Str → List SearchPathInfo → Bool
are_search_paths [] infos = true
are_search_paths (item ∷ items) infos = has_search_path item infos && are_search_paths items infos

unfoldable pub skips_deps : DynamicLibraryManager → DynTab → Bool
skips_deps m t =
    (is_empty t.rpath && is_empty t.run_path)
    || (are_search_paths t.rpath m.search_paths && are_search_paths t.run_path m.search_paths)

abbrev pub for_each : (Str → Dyld → Option Dyld) → (Str → Str) → List Str → Dyld → Option Dyld
for_each f full [] d = some d
for_each f full (dep ∷ deps) d = elim (f (full dep) d) [
  | none ↦ none
  | some d' ↦ for_each f full deps d'
]

module _ (sc : Scanner) where
  open sc use {sys, parent_path, sections_of, shf_alloc, callback, executable_format}

  -- The library of a file, which is told by its directory and its name.
  unfoldable pub library_of : Str → LibraryPath
  library_of file_name = new_library_path (parent_path file_name) (sys.filename file_name)

  unfoldable pub ignores : DynamicLibraryManager → Str → Bool
  ignores m file_name =
      should_permanently_ignore sys sections_of shf_alloc callback m executable_format file_name

  module _ (m : DynamicLibraryManager) (search_system : Bool) where
    -- The path of a dependency.
    unfoldable pub dep_full : DynTab → Str → Str → Str
    dep_full t file_name dep =
        lookup_library sys m.search_paths t.rpath t.run_path file_name dep false

    -- After the registration, with the recursive call as an argument.
    abbrev pub with_deps :
        (Str → Dyld → Option Dyld) → Str → ℕ → LibraryPath → Dyld → DynTab → Option Dyld
    with_deps rec_call file_name level lib d t =
        if (level == 0) && t.is_pie_executable
        then some (unregister_in search_system lib d)
        else if skips_deps m t
        then some d
        else for_each rec_call (dep_full t file_name) t.deps d

module _ (sc : Scanner) (split_fuel : ℕ) where
  open sc use {fs, unix, parent_path, directory, bin_obj, df_1_pie}

  -- `none` in what follows means that fuel ran out.
  unfoldable pub handle_load_command : LoadCommand → DynTab → Option DynTab
  handle_load_command (lc_load_dylib name) t = some (record t { deps = t.deps ++ name ∷ [] })
  handle_load_command (lc_rpath path) t =
      elim (split_paths fs allow_non_existent (codes ":") false split_fuel path t.rpath) [
        | none ↦ none
        | some (existed, s) ↦ some (record t { rpath = s.paths })
      ]
  handle_load_command lc_other t = some t

  unfoldable pub handle_load_commands : List LoadCommand → DynTab → Option DynTab
  handle_load_commands [] t = some t
  handle_load_commands (command ∷ commands) t = elim (handle_load_command command t) [
    | none ↦ none
    | some t' ↦ handle_load_commands commands t'
  ]

  -- The dependencies of an object file.
  unfoldable pub read_deps : BinObj → Option DynTab
  read_deps (elf strings entries) = handle_dyn_tab fs split_fuel df_1_pie strings entries no_deps
  read_deps (mach_o commands) = handle_load_commands commands no_deps
  read_deps other_object = some no_deps

  module _ (m : DynamicLibraryManager) (search_system : Bool) where
    abbrev pub with_object :
        (Str → Dyld → Option Dyld) → Str → ℕ → LibraryPath → Dyld → Option BinObj → Option Dyld
    with_object rec_call file_name level lib d none = some d
    with_object rec_call file_name level lib d (some obj) = elim (read_deps obj) [
      | none ↦ none
      | some t ↦ with_deps sc m search_system rec_call file_name level lib d t
    ]

    unfoldable pub handle_lib : ℕ → ℕ → Str → Dyld → Option Dyld
    handle_lib zero level file_name d = none
    handle_lib (suc fuel) level file_name d =
        let lib = library_of sc file_name in
        let d1 = register_base_path (parent_path file_name) d in
        let later : Option Dyld =
          with_object (λ f e. handle_lib fuel (suc level) f e) file_name level lib
            (register_in search_system lib d1) (bin_obj file_name) in
        if is_handled lib d1 then some d1 else if ignores sc m file_name then some d1 else later

    -- The file behind a link, unless that is a directory.
    abbrev pub handle_link : ℕ → Dyld → Str × Caches → Option Dyld
    handle_link fuel d (file_name, c) =
        let d1 : Dyld = record d { caches = c } in
        if fs.is_directory file_name then some d1 else handle_lib fuel 0 file_name d1

    unfoldable pub handle_dir_entry : ℕ → Str × EntryType → Dyld → Option Dyld
    handle_dir_entry fuel (path, regular_entry) d = handle_lib fuel 0 path d
    handle_dir_entry fuel (path, symlink_entry) d =
        handle_link fuel d (real_path_of unix path d.caches)
    handle_dir_entry fuel (path, other_entry) d = some d

    unfoldable pub handle_dir_entries : ℕ → List (Str × EntryType) → Dyld → Option Dyld
    handle_dir_entries fuel [] d = some d
    handle_dir_entries fuel (e ∷ es) d = elim (handle_dir_entry fuel e d) [
      | none ↦ none
      | some d' ↦ handle_dir_entries fuel es d'
    ]

    -- A search path, with the base paths that are scanned already.
    abbrev pub scan_real : ℕ → List Str → Dyld → Str × Caches → Option (List Str × Dyld)
    scan_real fuel scanned d (real_path, c) =
        let d1 : Dyld = record d { caches = c } in
        let d2 = register_base_path real_path d1 in
        if not (fs.is_directory real_path) || is_empty real_path
        then some (scanned, d1)
        else if contains real_path scanned
        then some (scanned, d2)
        else (elim (handle_dir_entries fuel (directory real_path) d2) [
          | none ↦ none
          | some d3 ↦ some (real_path ∷ scanned, d3)
        ])

    unfoldable pub scan_path : ℕ → SearchPathInfo → List Str → Dyld → Option (List Str × Dyld)
    scan_path fuel info scanned d =
        let scanning = if info.is_user then not search_system else search_system in
        if scanning
        then scan_real fuel scanned d (real_path_of unix info.path d.caches)
        else some (scanned, d)

    unfoldable pub scan_paths : ℕ → List SearchPathInfo → List Str → Dyld → Option Dyld
    scan_paths fuel [] scanned d = some d
    scan_paths fuel (info ∷ infos) scanned d = elim (scan_path fuel info scanned d) [
      | none ↦ none
      | some (scanned', d') ↦ scan_paths fuel infos scanned' d'
    ]

    unfoldable pub scan_for_libraries : ℕ → Dyld → Option Dyld
    scan_for_libraries fuel d = scan_paths fuel m.search_paths [] d
