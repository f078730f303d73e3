-- ===== src/Libraries/Tests.antt =====
-- Runs of the manager, and its theorems at concrete data.
use mathlib.Core.Path.{subst}
use cpp_inter_op.Common.{
  ℕ, suc, ◌≡◌, refl, sym, Bool-cases, inl, inr, str_eq_iff, true, false, [], ◌∷◌, ◌++◌, map, none,
  some, ◌==◌, if◌then◌else◌, Str, codes, str_eq, str_eq_refl, ◌-◌, arith, starts_with, contains,
  replicate,
}
use cpp_inter_op.Paths.Split.{Platform}
use cpp_inter_op.Paths.Split.FirstAt.{split_any, split_any-IsSplit}
use cpp_inter_op.Libraries.Manager.{
  SearchPathInfo, DyLibHandle, DynamicLibraryManager, add_search_path, has_search_path,
  initial_search_paths,
}
use cpp_inter_op.Libraries.Manager.SearchPaths.{
  AreDistinct, add_search_path-AreDistinct, initial_search_paths_lem, infos_of,
}
use cpp_inter_op.Libraries.Lookup.{
  System, regular_file, status_error, is_shared_library, lookup_lib_in_paths, lookup_library,
  lookup_lib_maybe_add_ext, normalize_path,
}
use cpp_inter_op.Libraries.Lookup.Candidates.{
  IsRealPath, HasNoTilde, lookup_lib_in_paths-candidates, candidates, lookup_library-IsShared,
  first_shared,
}
use cpp_inter_op.Libraries.Loading.{
  Linker, load_lib_success, load_lib_already_loaded, load_library, load_canonical, has_handle,
  dl_close, dl_open, is_library_loaded, unload_library,
}
use cpp_inter_op.Libraries.Loading.Consistency.{
  IsConsistent, load, unload, add_path, run, run-IsConsistent,
}
use cpp_inter_op.Libraries.Loading.RoundTrip.{load_library_roundtrip}
use cpp_inter_op.Libraries.Loading.References.{IsCounting, load_library-second_path}

-- A disk with one library, /l/libm.so, and every other path missing.
abbrev library : Str
library = codes "/l/libm.so"

abbrev disk : System
disk = record {
  file_type = λ p. if str_eq p library then regular_file else status_error;
  contents = λ p. if str_eq p library then some (replicate 1024 0) else none;
  is_elf_shared_object = λ bytes. true;
  stat = λ p. str_eq p library;
  real_path = λ p. if str_eq p library then some library else none;
  is_absolute = λ p. starts_with p (codes "/");
  append = λ d f. d ++ (codes "/" ++ f);
  filename = λ p. p;
  remove_filename = λ p. [];
  starts_with_insensitive = starts_with;
  main_executable = codes "/bin/x";
}

abbrev manager : DynamicLibraryManager
manager = record {
  dy_libs = [];
  loaded_libraries = [];
  search_paths =
      record { path = codes "/k"; is_user = true }
      ∷ record { path = codes "/l"; is_user = false }
      ∷ [];
}

-- A file is its own real path here, and only the library has one.
real_path-inv : (p q : Str) → disk.real_path p ≡ some q → (str_eq p library ≡ true) × (q ≡ library)
real_path-inv p q e = ground arith

disk-IsRealPath : IsRealPath disk
disk-IsRealPath = record {
  same_type = λ p q t e. ground (arith, real_path-inv p q e, str_eq_refl library);
  same_contents = λ p q t e. ground (arith, real_path-inv p q e, str_eq_refl library);
  is_real = λ p q e. ground (arith, real_path-inv p q e, str_eq_refl library);
  exists = λ p q e. ground (arith, real_path-inv p q e, str_eq_refl library);
}

not_library : (p : Str) → str_eq p library ≡ false → (is_shared_library disk p).0 ≡ false
unfolding is_shared_library
not_library p e = rw (e, is_shared_library) refl

library-starts : starts_with library (codes "~") ≡ false
unfolding starts_with
library-starts = refl

disk-HasNoTilde : HasNoTilde disk
disk-HasNoTilde p h = elim (Bool-cases (str_eq p library)) [
  | inl e ↦
      subst (λ q. starts_with q (codes "~") ≡ false) (sym ((str_eq_iff p library).0 e))
        library-starts
  | inr e ↦ absurd (ground (arith, h, not_library p e))
]

-- A linker with one library, of handle 5, whose state is the number of its references.
abbrev linker : Linker ℕ
linker = record { dlopen = λ w p. (suc w, 5); dlclose = λ w h. w - 1; dlerror = λ w. (w, none) }

abbrev references : ℕ → DyLibHandle → ℕ
references w h = if h == 5 then w else 0

linker-IsCounting : IsCounting linker references
linker-IsCounting = record {
  opens = λ w p h. refl;
  others = λ w p h ne. ground arith;
  asks = λ w h. refl;
}

manager-IsConsistent : IsConsistent manager
manager-IsConsistent = record { libraries = ground arith; same_names = refl }

lookup_m : lookup_library disk manager.search_paths [] [] [] (codes "m") true ≡ library
unfolding lookup_library lookup_lib_maybe_add_ext normalize_path starts_with str_eq
lookup_m = refl

loaded_m : (load_library linker disk manager 0 (codes "m") false true).result ≡ load_lib_success
unfolding load_library
loaded_m = rw (load_library, lookup_m) refl

lookup_library-IsShared_example :
    ((is_shared_library disk (lookup_library disk manager.search_paths [] [] [] (codes "m") true)).0
      ≡ true)
    × (disk.real_path (lookup_library disk manager.search_paths [] [] [] (codes "m") true)
        ≡ some (lookup_library disk manager.search_paths [] [] [] (codes "m") true))
lookup_library-IsShared_example =
    lookup_library-IsShared disk disk-IsRealPath disk-HasNoTilde manager.search_paths [] [] []
      (codes "m") true (rw (lookup_m) refl)

lookup_lib_in_paths-candidates_example :
    lookup_lib_in_paths disk manager.search_paths
      (codes "$origin" ∷ [])
      (codes "/r" ∷ [])
      []
      (codes "libm.so")
    ≡ first_shared disk (
        candidates disk manager.search_paths
          (codes "$origin" ∷ [])
          (codes "/r" ∷ [])
          []
          (codes "libm.so"))
lookup_lib_in_paths-candidates_example =
    lookup_lib_in_paths-candidates disk manager.search_paths (codes "$origin" ∷ [])
      (codes "/r" ∷ []) [] (codes "libm.so")

add_search_path-AreDistinct_example : AreDistinct (
    map
      (λ (i : SearchPathInfo). i.path)
      (add_search_path (codes "/a") true true manager.search_paths))
unfolding str_eq contains
add_search_path-AreDistinct_example =
    add_search_path-AreDistinct (codes "/a") true true manager.search_paths (ground arith)

run-IsConsistent_example :
    IsConsistent
      (run linker disk
        (load (codes "m") false true ∷ add_path (codes "/z") true false ∷ unload (codes "m") ∷ [])
        (manager, 0)).0
run-IsConsistent_example =
    run-IsConsistent linker disk
      (load (codes "m") false true ∷ add_path (codes "/z") true false ∷ unload (codes "m") ∷ [])
      manager 0 manager-IsConsistent

load_library_roundtrip_example :
    let r = load_library linker disk manager 0 (codes "m") false true in
    let lib = lookup_library disk manager.search_paths [] [] [] (codes "m") true in
    (is_library_loaded disk r.manager lib ≡ true)
    × (load_library linker disk r.manager r.linker (codes "m") false true ≡ record {
      result = load_lib_already_loaded;
      manager = r.manager;
      linker = r.linker;
      err_msg = none;
      cerr = none;
    })
    × (unload_library linker disk r.manager r.linker (codes "m")
        ≡ (manager, dl_close linker r.linker (dl_open linker 0 lib).1.0))
load_library_roundtrip_example =
    load_library_roundtrip linker disk disk-IsRealPath disk-HasNoTilde manager 0 (codes "m") true
      manager-IsConsistent loaded_m

load_library-second_path_example :
    let r = load_library linker disk manager 0 (codes "/a.so") true true in
    let second = load_library linker disk r.manager r.linker (codes "/b.so") true true in
    (second.result ≡ load_lib_already_loaded)
    × (second.manager ≡ r.manager)
    × (references second.linker 5 ≡ 2)
unfolding load_library load_canonical has_handle contains str_eq
load_library-second_path_example =
    load_library-second_path linker disk references linker-IsCounting manager 0 (codes "/a.so")
      (codes "/b.so") true refl refl refl

-- Directories begin with a slash.
abbrev platform : Platform
platform = record { split = split_any; is_directory = λ p. starts_with p (codes "/") }

initial_search_paths_lem_example :
    initial_search_paths platform 9
      (some (codes "/a::x:/b:/a"))
      (codes "/b" ∷ codes "/usr/lib" ∷ [])
    ≡ some (
        infos_of true (codes "/a" ∷ codes "/b" ∷ codes "." ∷ [])
        ++ infos_of false (codes "/usr/lib" ∷ []))
unfolding str_eq has_search_path starts_with
initial_search_paths_lem_example =
    initial_search_paths_lem platform 9 (codes "/a") ([] ∷ codes "x" ∷ codes "/b" ∷ codes "/a" ∷ [])
      (codes "/b" ∷ codes "/usr/lib" ∷ []) split_any-IsSplit (ground arith) (omega arith)
