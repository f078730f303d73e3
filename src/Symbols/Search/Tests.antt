-- ===== src/Symbols/Search/Tests.antt =====
-- A scan and a search on a small disk.
use mathlib.Core.Path.{subst}
use cpp_inter_op.Common.{
  ℕ, ◌<◌, ◌≡◌, refl, sym, Bool, true, false, not, List, [], ◌∷◌, ◌++◌, Option, none, some,
  if◌then◌else◌, ◌==◌, Str, codes, str_eq, str_eq_iff, contains, replicate, starts_with, length,
  arith, Bool-cases, inl, inr, drop, both-branches, bit_and, ◌^◌,
}
use cpp_inter_op.Paths.Split.FirstAt.{split_any, split_any-IsSplit}
use cpp_inter_op.Libraries.Manager.{has_search_path, DynamicLibraryManager}
use cpp_inter_op.Libraries.Lookup.{System, regular_file, status_error, is_shared_library}
use cpp_inter_op.Libraries.Loading.{is_library_loaded}
use cpp_inter_op.Symbols.Filter.{gnu_hash}
use cpp_inter_op.Symbols.Registry.{Pointer, address, same_library, get_libraries}
use cpp_inter_op.Symbols.Registry.Order.{has_pointer}
use cpp_inter_op.Symbols.Ignore.{SectionedFile, should_permanently_ignore}
use cpp_inter_op.Symbols.Dynamic.{dt_needed, dt_runpath}
use cpp_inter_op.Symbols.Contents.{
  ObjectFile, Settings, elf_filter, symbol_names, collect_names, may_exist_in_elf_object_file,
}
use cpp_inter_op.Symbols.RealPath.{Unix, Caches, real_path_of, find_entry, insert_entry}
use cpp_inter_op.Symbols.RealPath.Caching.{IsTrue, after_calls, real_path_of-stable}
use cpp_inter_op.Symbols.Scan.{
  Dyld, new_dyld, elf, Scanner, regular_entry, ignores, library_of, new_library_path,
  scan_for_libraries,
}
use cpp_inter_op.Symbols.Scan.Growth.{IsSound, Extends}
use cpp_inter_op.Symbols.Scan.Totality.{IsReadable, AreAll, scan_for_libraries-Ends}
use cpp_inter_op.Symbols.Search.{get_full_name, search_libraries_for_symbol}
use cpp_inter_op.Symbols.Search.Matches.{IsAskable}
use cpp_inter_op.Symbols.Search.States.{IsGood}
use cpp_inter_op.Symbols.Search.Answers.{IsAnswer}
use cpp_inter_op.Symbols.Search.Order.{search_libraries_for_symbol-Answers}
use cpp_inter_op.Symbols.Scan.{
  register_base_path, is_handled, register_in, unregister_in, are_search_paths, skips_deps,
  dep_full, handle_load_command, handle_load_commands, read_deps, handle_lib, handle_dir_entry,
  handle_dir_entries, scan_path, scan_paths,
}
use cpp_inter_op.Symbols.RealPath.{
  is_link, cached_lstat, cached_readlink, is_home, start_items, collapse, handle_item, handle_items,
  cached_realpath,
}
use cpp_inter_op.Symbols.Search.{
  write_back, write_lib, remember_query, find_match, drop_loaded, search_system_libraries,
  first_scan, first_system_scan, search_libraries,
}
use cpp_inter_op.Symbols.Registry.{
  find_lib, get_registered_lib, has_registered_lib, register_lib, erase_pointer, erase_lib,
  unregister_lib,
}
use cpp_inter_op.Symbols.Contents.{
  read_le, foreach_symbol, add_each, build_bloom_filter, look_through, filtered, contains_symbol,
}
use cpp_inter_op.Symbols.Filter.{
  gnu_hash_from, log2u_steps, log2u, index_of, mask_of, test_hash, add_hash, has_bloom_filter,
  is_bloom_filter_empty, may_exist_symbol, exist_symbol, add_symbol, add_bloom, resize_table,
  initialize_bloom_filter,
}
use cpp_inter_op.Symbols.Ignore.{is_stripped}
use cpp_inter_op.Symbols.Dynamic.{text_at, handle_entry, handle_entries, handle_dyn_tab}
use cpp_inter_op.Paths.Split.{
  ends_with, log_loop, fail_early, visit, split_loop, trim_delim, visit_last, after_loop,
  split_paths,
}
use cpp_inter_op.Libraries.Lookup.{
  platform_normalize_path, normalize_path, subst_front, subst_all, try_paths, try_search_paths,
  lookup_lib_in_paths, lookup_library,
}

abbrev system : System
system = record {
  file_type = λ p. if starts_with p (codes "/") then regular_file else status_error;
  contents = λ p. some (replicate 1024 0);
  is_elf_shared_object = λ bytes. true;
  stat = λ p. true;
  real_path = λ p. some p;
  is_absolute = λ p. starts_with p (codes "/");
  append = λ d f. d ++ (codes "/" ++ f);
  filename = λ p. drop 3 p;
  remove_filename = λ p. [];
  starts_with_insensitive = starts_with;
  main_executable = codes "/bin/x";
}

abbrev unix : Unix
unix = record {
  lstat = λ p. some 16384;
  readlink = λ p. none;
  is_relative = λ p. not (starts_with p (codes "/"));
  is_separator = λ c. c == b'/';
  get_separator = codes "/";
  append = λ d f. codes "/" ++ f;
  split = λ s sep. drop 1 s ∷ [];
  rfind = λ s sep. none;
  home_directory = codes "/home";
  current_path = codes "/";
}

abbrev lib_a : Str
lib_a = codes "/l/a.so"

abbrev lib_b : Str
lib_b = codes "/l/b.so"

-- Two libraries, of which one is in the directory and needs the other.
abbrev sections : SectionedFile
sections = record {
  format = codes "elf64";
  is_elf = true;
  sections = record { name = codes ".text"; is_nobits = false; flags = 2 } ∷ [];
}

abbrev small : Scanner
small = record {
  sys = system;
  fs = record { split = split_any; is_directory = λ p. true };
  unix = unix;
  parent_path = λ p. codes "/l";
  directory = λ p. (lib_a, regular_entry) ∷ [];
  bin_obj = λ p.
      if str_eq p lib_a
      then some (elf (some (codes "b.so" ++ 0 ∷ [])) (some (dt_needed 0 ∷ dt_runpath 0 ∷ [])))
      else none;
  sections_of =
      λ p. if str_eq p lib_a then some sections else if str_eq p lib_b then some sections else none;
  shf_alloc = 2;
  df_1_pie = 1;
  callback = λ p. false;
  executable_format = codes "elf64";
}

abbrev manager : DynamicLibraryManager
manager = record {
  dy_libs = [];
  loaded_libraries = [];
  search_paths = record { path = codes "/l"; is_user = true } ∷ [];
}

abbrev caches : Caches
caches = record { lstat_cache = []; readlink_cache = []; cache = []; home = []; current = [] }

abbrev two_libraries : List Pointer
two_libraries =
    record { path = codes "/l"; lib_name = codes "a.so" }
    ∷ record { path = codes "/l"; lib_name = codes "b.so" }
    ∷ []

here_a : has_pointer (address (library_of small lib_a)) two_libraries ≡ true
unfolding library_of new_library_path same_library str_eq
here_a = refl

here_b : has_pointer (address (library_of small lib_b)) two_libraries ≡ true
unfolding library_of new_library_path same_library str_eq
here_b = refl

always : (b c : Bool) → (if b then true else if c then true else true) ≡ true
always b c = ground arith

no_sections : (f : Str) → small.sections_of f ≡ none → ignores small manager f ≡ false → ⊥
unfolding ignores should_permanently_ignore
no_sections f none_there e =
    let ignored : ignores small manager f ≡ true =
      rw (should_permanently_ignore, none_there) (always _ _) in
    absurd (ground (arith, e, ignored))

two_libraries-AreAll : AreAll small manager two_libraries
two_libraries-AreAll f kept = elim (Bool-cases (str_eq f lib_a)) [
  | inl e ↦
      subst (λ g. has_pointer (address (library_of small g)) two_libraries ≡ true)
        (sym ((str_eq_iff f lib_a).0 e)) here_a
  | inr not_a ↦ elim (Bool-cases (str_eq f lib_b)) [
    | inl e ↦
        subst (λ g. has_pointer (address (library_of small g)) two_libraries ≡ true)
          (sym ((str_eq_iff f lib_b).0 e)) here_b
    | inr not_b ↦ absurd (no_sections f (rw (not_a, not_b) refl) kept)
  ]
]

small-IsReadable : (f : Str) → IsReadable 9 (small.bin_obj f)
small-IsReadable f = elim (Bool-cases (str_eq f lib_a)) [
  | inl e ↦ rw (e) (omega arith, (refl, (refl, tt)))
  | inr e ↦ rw (e) tt
]

abbrev start : Dyld
start = new_dyld caches

start-IsSound : IsSound start
unfolding new_dyld
start-IsSound = record {
  users = record { distinct = tt; same = refl };
  systems = record { distinct = tt; same = refl };
  apart = λ p there. absurd (ground (arith, there));
}

scan_for_libraries-Ends_example :
    (d' : Dyld) × (scan_for_libraries small 9 manager false 3 start ≡ some d')
    × IsSound d'
    × Extends false start d'
unfolding new_dyld
scan_for_libraries-Ends_example =
    scan_for_libraries-Ends small 9 split_any-IsSplit manager two_libraries two_libraries-AreAll
      small-IsReadable false 3 start start-IsSound (omega arith)

abbrev settings : Settings
settings = record {
  use_bloom_filter = true;
  use_hash_table = true;
  sf_undefined = 1;
  table_size = λ n. n;
}

-- The library that is needed has a symbol `f`.
abbrev file : ObjectFile
file = record {
  is_elf = true;
  bytes_in_address = 8;
  gnu_hash_section = [];
  symbols = record { flags = 0; name = some (codes "f") } ∷ [];
  dynamic_symbols = [];
}

abbrev object_of : Str → Option ObjectFile
object_of p = if str_eq p lib_b then some file else none

all-IsAskable :
    (ignore : ℕ) (p : Str)
    → IsAskable settings refl system object_of (codes "f") ignore (object_of p)
unfolding symbol_names collect_names elf_filter may_exist_in_elf_object_file
all-IsAskable ignore p = elim (Bool-cases (str_eq p lib_b)) [
  | inl e ↦ rw (e) (
    both-branches (λ (ns : List Str). length (ns ++ []) < 2 ^ 32) (bit_and 0 ignore == 0) _ _
        (omega arith) (omega arith),
    true,
    refl,
  )
  | inr e ↦ rw (e) tt
]

start-IsGood : IsGood small settings object_of 4 refl start
unfolding new_dyld
start-IsGood = record {
  sound = start-IsSound;
  queried = record { distinct = tt; same = refl };
  users_ready = tt;
  systems_ready = tt;
}

search_libraries_for_symbol-Answers_example :
    (answer : Str) × (d' : Dyld) × (search_libraries_for_symbol small 9 settings object_of 4 manager
        3
        (codes "f")
        true
        start
      ≡ some (answer, d'))
    × IsAnswer small settings object_of 4 refl manager (codes "f") true [] answer d'
unfolding get_libraries new_dyld
search_libraries_for_symbol-Answers_example =
    search_libraries_for_symbol-Answers small 9 settings object_of 4 refl refl (λ n h. h)
      (codes "f") split_any-IsSplit manager two_libraries two_libraries-AreAll small-IsReadable 3
      (omega arith) (λ p. all-IsAskable 1 (get_full_name system p))
      (λ p. all-IsAskable 5 (get_full_name system p)) true start start-IsGood

caches-IsTrue : IsTrue unix caches
caches-IsTrue = record { modes = tt; links = tt }

real_path_of-stable_example :
    (answer : Str) × (real_path_of unix lib_a (after_calls unix (lib_a ∷ lib_b ∷ []) caches)
      ≡ (answer, after_calls unix (lib_a ∷ lib_b ∷ []) caches))
    × (real_path_of unix lib_a (after_calls unix (lib_a ∷ []) caches)
        ≡ (answer, after_calls unix (lib_a ∷ []) caches))
    × IsTrue unix (after_calls unix (lib_a ∷ lib_b ∷ []) caches)
unfolding starts_with
real_path_of-stable_example =
    real_path_of-stable unix lib_a (lib_b ∷ []) caches caches-IsTrue refl refl

-- The search finds the library that the one in the directory needs.
abbrev answer : Option (Str × Dyld) → Str
answer none = []
answer (some (a, d)) = a

found_b :
    answer
      (search_libraries_for_symbol small 9 settings object_of 4 manager 3 (codes "f") false start)
    ≡ lib_b
unfolding new_dyld register_base_path new_library_path is_handled register_in unregister_in
    are_search_paths skips_deps library_of ignores dep_full handle_load_command handle_load_commands
    read_deps handle_lib handle_dir_entry handle_dir_entries scan_path scan_paths scan_for_libraries
    find_entry insert_entry is_link cached_lstat cached_readlink is_home start_items collapse
    handle_item handle_items cached_realpath real_path_of write_back write_lib get_full_name
    remember_query find_match drop_loaded search_system_libraries first_scan first_system_scan
    search_libraries search_libraries_for_symbol same_library find_lib get_registered_lib
    has_registered_lib register_lib erase_pointer erase_lib unregister_lib get_libraries read_le
    may_exist_in_elf_object_file elf_filter collect_names foreach_symbol symbol_names add_each
    build_bloom_filter look_through filtered contains_symbol gnu_hash_from gnu_hash log2u_steps
    log2u index_of mask_of test_hash add_hash has_bloom_filter is_bloom_filter_empty
    may_exist_symbol exist_symbol add_symbol add_bloom resize_table initialize_bloom_filter
    is_stripped should_permanently_ignore text_at handle_entry handle_entries handle_dyn_tab
    ends_with log_loop fail_early visit split_loop trim_delim visit_last after_loop split_paths
    is_shared_library platform_normalize_path normalize_path subst_front subst_all try_paths
    try_search_paths lookup_lib_in_paths lookup_library is_library_loaded str_eq starts_with
    contains has_search_path
found_b = refl

-- The home directory does not take the place of the "~" in front of it, but goes before it.
abbrev homely : Unix
homely = record unix {
  split = λ s sep. if starts_with s sep then drop 1 s ∷ [] else s ∷ [];
  append = λ d f. if str_eq d (codes "/") then d ++ f else d ++ (codes "/" ++ f);
}

home_kept : (real_path_of homely (codes "~") caches).0 ≡ codes "/home/~"
unfolding real_path_of cached_realpath start_items is_home starts_with str_eq handle_items
    handle_item is_link cached_lstat find_entry insert_entry
home_kept = refl
