-- ===== src/Symbols/Search.antt =====
-- lib/CppInterOp/DynamicLibraryManagerSymbol.cpp: searchLibrariesForSymbol of Dyld.
pub mod Matches
pub mod States
pub mod Answers
pub mod Order
mod Tests
use cpp_inter_op.Common.{
  ℕ, zero, suc, Bool, true, false, ◌&&◌, ◌||◌, not, List, [], ◌∷◌, ◌++◌, Option, none, some,
  if◌then◌else◌, bit_or, Str, is_empty,
}
use cpp_inter_op.Libraries.Manager.{DynamicLibraryManager}
use cpp_inter_op.Libraries.Lookup.{System}
use cpp_inter_op.Libraries.Loading.{is_library_loaded}
use cpp_inter_op.Symbols.Filter.{LibraryPath}
use cpp_inter_op.Symbols.Registry.{
  Pointer, address, same_library, LibraryPaths, find_lib, has_registered_lib, register_lib,
  unregister_lib, get_libraries,
}
use cpp_inter_op.Symbols.Contents.{ObjectFile, Settings, contains_symbol}
use cpp_inter_op.Symbols.Scan.{Dyld, Scanner, new_library_path, scan_for_libraries}

-- The library that ContainsSymbol has changed, in its place in the set.
unfoldable pub write_back : LibraryPath → List LibraryPath → List LibraryPath
write_back lib [] = []
write_back lib (l ∷ ls) =
    let rest = write_back lib ls in
    if same_library (address l) (address lib) then lib ∷ ls else l ∷ rest

unfoldable pub write_lib : LibraryPath → LibraryPaths → LibraryPaths
write_lib lib r = record r { libs_h = write_back lib r.libs_h }

-- LibraryPath::GetFullName
unfoldable pub get_full_name : System → Pointer → Str
get_full_name sys p = sys.append p.path p.lib_name

-- What a pointer points to.
abbrev pub pointed : Pointer → LibraryPaths → LibraryPath
pointed p r = elim (find_lib p r.libs_h) [ none ↦ new_library_path p.path p.lib_name | some l ↦ l ]

-- How a search through a list of libraries ends: with the library that has the symbol, or with
-- none, or undefined.
pub data SearchEnd : Type 0 where
  match : LibraryPath → LibraryPaths → SearchEnd
  no_match : LibraryPaths → SearchEnd
  undefined : SearchEnd

unfoldable pub remember_query : LibraryPath → Dyld → Dyld
remember_query lib d = record d {
  queried_libraries =
      if has_registered_lib lib d.queried_libraries
      then d.queried_libraries
      else register_lib lib d.queried_libraries;
}

-- The scans on the first use.
abbrev pub scanned_users : Option Dyld → Option Dyld
scanned_users none = none
scanned_users (some d) = some (record d { first_run = false })

abbrev pub scanned_system : Option Dyld → Option Dyld
scanned_system none = none
scanned_system (some d) = some (record d { first_run_sys_lib = false })

-- The search through some libraries, with the object file of a path, `none` if it cannot be read.
module _ (sys : System) (cfg : Settings) (object_of : Str → Option ObjectFile) where
  unfoldable pub find_match : Str → ℕ → List Pointer → LibraryPaths → SearchEnd
  find_match name ignore [] r = no_match r
  find_match name ignore (p ∷ ps) r =
      elim (contains_symbol cfg (pointed p r) (object_of (get_full_name sys p)) name ignore) [
        | none ↦ undefined
        | some (true, lib) ↦ match lib (write_lib lib r)
        | some (false, lib) ↦ find_match name ignore ps (write_lib lib r)
      ]

-- The libraries that were asked for and are loaded since.
unfoldable pub drop_loaded : System → DynamicLibraryManager → List Pointer → Dyld → Dyld
drop_loaded sys m [] d = d
drop_loaded sys m (p ∷ ps) d =
    let lib = new_library_path p.path p.lib_name in
    drop_loaded sys m ps (
      if not (is_library_loaded sys m (get_full_name sys p)) then d else record d {
        libraries = unregister_lib lib d.libraries;
        sys_libraries = unregister_lib lib d.sys_libraries;
      })

-- The search through the system's libraries.
abbrev pub answer_system : System → Dyld → SearchEnd → Option (Str × Dyld)
answer_system sys d (match lib r) =
    some (get_full_name sys (address lib), remember_query lib (record d { sys_libraries = r }))
answer_system sys d (no_match r) = some ([], record d { sys_libraries = r })
answer_system sys d undefined = none

-- With LLVM's flag of weak symbols.
module _ (sc : Scanner) (split_fuel : ℕ) (cfg : Settings) (object_of : Str → Option ObjectFile)
    (sf_weak : ℕ) where
  unfoldable pub search_system_libraries : Str → Dyld → Option (Str × Dyld)
  search_system_libraries name d = answer_system sc.sys d (
      find_match sc.sys cfg object_of name (bit_or cfg.sf_undefined sf_weak)
        (get_libraries d.sys_libraries) d.sys_libraries)

  unfoldable pub first_scan : DynamicLibraryManager → ℕ → Dyld → Option Dyld
  first_scan m fuel d =
      let run = scanned_users (scan_for_libraries sc split_fuel m false fuel d) in
      if d.first_run then run else some d

  unfoldable pub first_system_scan : DynamicLibraryManager → ℕ → Dyld → Option Dyld
  first_system_scan m fuel d =
      let run = scanned_system (scan_for_libraries sc split_fuel m true fuel d) in
      if d.first_run_sys_lib then run else some d

  abbrev pub then_system : Str → Option Dyld → Option (Str × Dyld)
  then_system name none = none
  then_system name (some d) = search_system_libraries name d

  -- The search through the user's libraries, and what follows it.
  abbrev pub answer_user :
      DynamicLibraryManager → ℕ → Str → Bool → Dyld → SearchEnd → Option (Str × Dyld)
  answer_user m fuel name search_system d (match lib r) =
      some (get_full_name sc.sys (address lib), remember_query lib (record d { libraries = r }))
  answer_user m fuel name search_system d (no_match r) =
      let d1 : Dyld = record d { libraries = r } in
      let rest = then_system name (first_system_scan m fuel d1) in
      if not search_system then some ([], d1) else rest
  answer_user m fuel name search_system d undefined = none

  unfoldable pub search_libraries :
      DynamicLibraryManager → ℕ → Str → Bool → Dyld → Option (Str × Dyld)
  search_libraries m fuel name search_system d =
      let d1 = drop_loaded sc.sys m (get_libraries d.queried_libraries) d in
      answer_user m fuel name search_system d1 (
        find_match sc.sys cfg object_of name cfg.sf_undefined (get_libraries d1.libraries)
          d1.libraries)

  abbrev pub then_search :
      DynamicLibraryManager → ℕ → Str → Bool → Option Dyld → Option (Str × Dyld)
  then_search m fuel name search_system none = none
  then_search m fuel name search_system (some d) = search_libraries m fuel name search_system d

  -- `none` means that fuel ran out, or undefined behaviour.
  unfoldable pub search_libraries_for_symbol :
      DynamicLibraryManager → ℕ → Str → Bool → Dyld → Option (Str × Dyld)
  search_libraries_for_symbol m fuel name search_system d =
      then_search m fuel name search_system (first_scan m fuel d)
