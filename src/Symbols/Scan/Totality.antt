-- ===== src/Symbols/Scan/Totality.antt =====
-- Symbols/Scan: the scan ends.
use cpp_inter_op.Common.{
  ℕ, zero, suc, ◌<◌, ◌≡◌, refl, sym, ◌∙◌, Bool, true, false, ◌&&◌, ◌||◌, not, List, [], ◌∷◌, Option,
  none, some, if◌then◌else◌, ◌==◌, Str, is_empty, arith, Bool-cases, both-branches, inl, inr,
  contains,
}
use cpp_inter_op.Paths.Split.Pieces.{IsSplit}
use cpp_inter_op.Libraries.Manager.{SearchPathInfo, DynamicLibraryManager}
use cpp_inter_op.Symbols.Filter.{LibraryPath}
use cpp_inter_op.Symbols.Registry.{Pointer, address}
use cpp_inter_op.Symbols.Registry.Order.{has_pointer}
use cpp_inter_op.Symbols.Dynamic.{DynTab}
use cpp_inter_op.Symbols.RealPath.{Caches, real_path_of}
use cpp_inter_op.Symbols.Scan.{
  Dyld, new_library_path, BinObj, EntryType, regular_entry, symlink_entry, other_entry, Scanner,
  is_handled, register_in, skips_deps, register_base_path, library_of, ignores, dep_full, with_deps,
  with_object, handle_lib, handle_link, handle_dir_entry, handle_dir_entries, scan_real, scan_path,
  scan_paths, scan_for_libraries,
}
use cpp_inter_op.Symbols.Scan.Growth.{
  IsSound, Extends, Extends-same, Extends-trans, Ends, is_known, is_handled-known, fresh,
}
use cpp_inter_op.Symbols.Scan.Registration.{register_in_lem, unregister_in-register_in}
use cpp_inter_op.Symbols.Scan.Steps.{
  missing, missing-Extends, missing-register_in, IsShort, read_deps-total, Serves, then_Ends,
  for_each-Ends,
}

-- What a scan does not use of the state may change.
register_base_path-Extends :
    {search_system : Bool} (path : Str) (d : Dyld)
    → IsSound d
    → IsSound (register_base_path path d) × Extends search_system d (register_base_path path d)
unfolding register_base_path
register_base_path-Extends path d s = (
  record { users = s.users; systems = s.systems; apart = s.apart },
  Extends-same (refl, refl) (refl, refl) refl,
)

caches-Extends :
    {search_system : Bool} (c : Caches) (d : Dyld)
    → IsSound d
    → IsSound (record d { caches = c }) × Extends search_system d (record d { caches = c })
caches-Extends c d s = (
  record { users = s.users; systems = s.systems; apart = s.apart },
  Extends-same (refl, refl) (refl, refl) refl,
)

abbrev pub IsReadable : ℕ → Option BinObj → Type 0
IsReadable n none = Unit
IsReadable n (some obj) = IsShort n obj

-- The libraries that are not ignored are some files.
abbrev pub AreAll : Scanner → DynamicLibraryManager → List Pointer → Type 0
AreAll sc m files =
    (f : Str) → ignores sc m f ≡ false → has_pointer (address (library_of sc f)) files ≡ true

module _ (sc : Scanner) (split_fuel : ℕ) (laws : IsSplit sc.fs.split) (m : DynamicLibraryManager)
    (files : List Pointer) (all : AreAll sc m files)
    (readable : (f : Str) → IsReadable split_fuel (sc.bin_obj f)) (search_system : Bool) where
  with_deps-Ends :
      (rec_call : Str → Dyld → Option Dyld) (fuel : ℕ)
      → Serves search_system rec_call files fuel
      → (f : Str) (level : ℕ) (lib : LibraryPath) (d : Dyld) (t : DynTab) → IsSound d
      → is_known (address lib) d ≡ false
      → lib ≡ fresh (address lib)
      → has_pointer (address lib) files ≡ true
      → missing files d < suc fuel
      → Ends search_system d
          (with_deps sc m search_system rec_call f level lib (register_in search_system lib d) t)
  with_deps-Ends rec_call fuel serves f level lib d t s new unread here room =
      let (s1, x1, there) = register_in_lem search_system lib d s new unread in
      let less = missing-register_in (address lib) files x1 here new there in
      elim (Bool-cases ((level == 0) && t.is_pie_executable)) [
        | inl pie ↦
            let (s2, x2) = unregister_in-register_in search_system lib d s new in
            rw (with_deps, pie) (_, refl, s2, x2)
        | inr no_pie ↦ elim (Bool-cases (skips_deps m t)) [
          | inl skips ↦ rw (with_deps, no_pie, skips) (_, refl, s1, x1)
          | inr follows ↦
              rw (with_deps, no_pie, follows)
                (then_Ends _ x1 (
                  for_each-Ends rec_call (dep_full sc m search_system t f) files fuel serves t.deps
                    _ s1 (omega (arith, less, room))))
        ]
      ]

  with_object-Ends :
      (rec_call : Str → Dyld → Option Dyld) (fuel : ℕ)
      → Serves search_system rec_call files fuel
      → (f : Str) (level : ℕ) (lib : LibraryPath) (d : Dyld) (obj : Option BinObj)
      → IsReadable split_fuel obj
      → IsSound d
      → is_known (address lib) d ≡ false
      → lib ≡ fresh (address lib)
      → has_pointer (address lib) files ≡ true
      → missing files d < suc fuel
      → Ends search_system d (
          with_object sc split_fuel m search_system rec_call f level lib
            (register_in search_system lib d)
            obj)
  with_object-Ends rec_call fuel serves f level lib d none short s new unread here room =
      let (s1, x1, _) = register_in_lem search_system lib d s new unread in (_, refl, s1, x1)
  with_object-Ends rec_call fuel serves f level lib d (some obj) short s new unread here room =
      let (t, run) = read_deps-total sc split_fuel laws obj short in
      rw (with_object, run)
        (with_deps-Ends rec_call fuel serves f level lib d t s new unread here room)

  handle_lib-Ends :
      (fuel level : ℕ)
      → Serves search_system
          (λ f d. handle_lib sc split_fuel m search_system fuel level f d)
          files
          fuel
  unfolding handle_lib library_of new_library_path
  handle_lib-Ends zero level f d s room = absurd (omega (arith, room))
  handle_lib-Ends (suc fuel) level f d s room =
      let (s1, x1) = register_base_path-Extends (sc.parent_path f) d s in
      let lib = library_of sc f in
      let d1 = register_base_path (sc.parent_path f) d in
      elim (Bool-cases (is_handled lib d1)) [
        | inl there ↦ rw (handle_lib, there) (_, refl, s1, x1)
        | inr new ↦ elim (Bool-cases (ignores sc m f)) [
          | inl ignored ↦ rw (handle_lib, new, ignored) (_, refl, s1, x1)
          | inr kept ↦
              rw (handle_lib, new, kept)
                (then_Ends _ x1 (
                  with_object-Ends _ fuel (handle_lib-Ends fuel (suc level)) f level lib d1
                    (sc.bin_obj f) (readable f) s1 (sym (is_handled-known lib d1 s1) ∙ new) refl
                    (all f kept) (omega (arith, room, missing-Extends files x1))))
        ]
      ]

  module _ (fuel : ℕ) where
    handle_link-Ends :
        (d : Dyld) (found : Str × Caches)
        → IsSound d
        → missing files d < fuel
        → Ends search_system d (handle_link sc split_fuel m search_system fuel d found)
    handle_link-Ends d (file_name, c) s room =
        let (s1, x1) = caches-Extends c d s in
        both-branches (Ends search_system d) (sc.fs.is_directory file_name) _ _ (_, refl, s1, x1)
          (then_Ends _ x1
            (handle_lib-Ends fuel 0 file_name _ s1 (omega (arith, room, missing-Extends files x1))))

    handle_dir_entry-Ends :
        (e : Str × EntryType) (d : Dyld)
        → IsSound d
        → missing files d < fuel
        → Ends search_system d (handle_dir_entry sc split_fuel m search_system fuel e d)
    unfolding handle_dir_entry
    handle_dir_entry-Ends (path, regular_entry) d s room = handle_lib-Ends fuel 0 path d s room
    handle_dir_entry-Ends (path, symlink_entry) d s room =
        handle_link-Ends d (real_path_of sc.unix path d.caches) s room
    handle_dir_entry-Ends (path, other_entry) d s room =
        (d, refl, s, Extends-same (refl, refl) (refl, refl) refl)

    handle_dir_entries-Ends :
        (es : List (Str × EntryType)) (d : Dyld)
        → IsSound d
        → missing files d < fuel
        → Ends search_system d (handle_dir_entries sc split_fuel m search_system fuel es d)
    unfolding handle_dir_entries
    handle_dir_entries-Ends [] d s room = (d, refl, s, Extends-same (refl, refl) (refl, refl) refl)
    handle_dir_entries-Ends (e ∷ es) d s room =
        let (d1, run, s1, x1) = handle_dir_entry-Ends e d s room in
        rw (handle_dir_entries, run)
          (then_Ends _ x1
            (handle_dir_entries-Ends es d1 s1 (omega (arith, room, missing-Extends files x1))))

    -- How the scan of a search path goes well.
    abbrev PathEnds : Dyld → Option (List Str × Dyld) → Type 0
    PathEnds d o =
        (scanned : List Str) × (d' : Dyld) × (o ≡ some (scanned, d'))
        × IsSound d'
        × Extends search_system d d'

    scan_real-Ends :
        (scanned : List Str) (d : Dyld) (found : Str × Caches)
        → IsSound d
        → missing files d < fuel
        → PathEnds d (scan_real sc split_fuel m search_system fuel scanned d found)
    scan_real-Ends scanned d (real_path, c) s room =
        let (s1, x1) = caches-Extends c d s in
        let (s2, x2) = register_base_path-Extends real_path (record d { caches = c }) s1 in
        let d2 = register_base_path real_path (record d { caches = c }) in
        let x : Extends search_system d d2 = Extends-trans x1 x2 in
        let (d3, run, s3, x3) =
          handle_dir_entries-Ends (sc.directory real_path) d2 s2
            (omega (arith, room, missing-Extends files x)) in
        both-branches (PathEnds d) (not (sc.fs.is_directory real_path) || is_empty real_path) _ _
          (scanned, _, refl, s1, x1)
          (both-branches (PathEnds d) (contains real_path scanned) _ _ (scanned, _, refl, s2, x)
            (rw (run) (real_path ∷ scanned, d3, refl, s3, Extends-trans x x3)))

    scan_path-Ends :
        (info : SearchPathInfo) (scanned : List Str) (d : Dyld)
        → IsSound d
        → missing files d < fuel
        → PathEnds d (scan_path sc split_fuel m search_system fuel info scanned d)
    unfolding scan_path
    scan_path-Ends info scanned d s room =
        both-branches (PathEnds d) (if info.is_user then not search_system else search_system) _ _
          (scan_real-Ends scanned d (real_path_of sc.unix info.path d.caches) s room)
          (scanned, d, refl, s, Extends-same (refl, refl) (refl, refl) refl)

    scan_paths-Ends :
        (infos : List SearchPathInfo) (scanned : List Str) (d : Dyld)
        → IsSound d
        → missing files d < fuel
        → Ends search_system d (scan_paths sc split_fuel m search_system fuel infos scanned d)
    unfolding scan_paths
    scan_paths-Ends [] scanned d s room = (d, refl, s, Extends-same (refl, refl) (refl, refl) refl)
    scan_paths-Ends (info ∷ infos) scanned d s room =
        let (scanned1, d1, run, s1, x1) = scan_path-Ends info scanned d s room in
        rw (scan_paths, run)
          (then_Ends _ x1
            (scan_paths-Ends infos scanned1 d1 s1 (omega (arith, room, missing-Extends files x1))))

    -- A scan ends, cycles of dependencies and of links included, with fuel for the files that are
    -- not permanently ignored and in neither registry, of which there are finitely many, and
    -- for the texts that are split, where the texts that the dynamic entries of an ELF file name
    -- lie within its string table. Both registries then have what they had, in its order, and
    -- perhaps more, each library once in its vector and in its set, and none in both; the
    -- queried libraries are the same.
    pub scan_for_libraries-Ends :
        (d : Dyld)
        → IsSound d
        → missing files d < fuel
        → (d' : Dyld) × (scan_for_libraries sc split_fuel m search_system fuel d ≡ some d')
          × IsSound d'
          × Extends search_system d d'
    unfolding scan_for_libraries
    scan_for_libraries-Ends d s room = scan_paths-Ends m.search_paths [] d s room
