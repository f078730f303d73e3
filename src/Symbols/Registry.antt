-- ===== src/Symbols/Registry.antt =====
-- lib/CppInterOp/DynamicLibraryManagerSymbol.cpp: LibraryPaths, the libraries in the order of their
-- registration, with a set for the lookup.
pub mod Order
use cpp_inter_op.Common.{
  ℕ, Bool, true, false, ◌&&◌, ◌||◌, not, List, [], ◌∷◌, ◌++◌, map, Option, none, some,
  if◌then◌else◌, Str, str_eq, length,
}
use cpp_inter_op.Symbols.Filter.{LibraryPath}

-- A `const LibraryPath*` into the set, told by the base path and the name of the element, which
-- occur there once.
pub record Pointer : Type 0 where
  pub path : Str
  pub lib_name : Str

abbrev pub address : LibraryPath → Pointer
address l = record { path = l.path; lib_name = l.lib_name }

-- LibraryPath::operator==
unfoldable pub same_library : Pointer → Pointer → Bool
same_library p q = str_eq p.path q.path && str_eq p.lib_name q.lib_name

-- m_Libs and m_LibsH.
pub record LibraryPaths : Type 0 where
  pub libs : List Pointer
  pub libs_h : List LibraryPath

unfoldable pub find_lib : Pointer → List LibraryPath → Option LibraryPath
find_lib p [] = none
find_lib p (l ∷ ls) =
    let rest = find_lib p ls in if same_library (address l) p then some l else rest

unfoldable pub get_registered_lib : LibraryPath → LibraryPaths → Option LibraryPath
get_registered_lib lib r = find_lib (address lib) r.libs_h

unfoldable pub has_registered_lib : LibraryPath → LibraryPaths → Bool
has_registered_lib lib r = elim (get_registered_lib lib r) [ none ↦ false | some l ↦ true ]

-- A second registration adds a pointer again, which the source asserts not to happen.
unfoldable pub register_lib : LibraryPath → LibraryPaths → LibraryPaths
register_lib lib r = record {
  libs = r.libs ++ address lib ∷ [];
  libs_h = if has_registered_lib lib r then r.libs_h else r.libs_h ++ lib ∷ [];
}

unfoldable pub erase_pointer : Pointer → List Pointer → List Pointer
erase_pointer p [] = []
erase_pointer p (q ∷ qs) =
    let rest = erase_pointer p qs in if same_library q p then qs else q ∷ rest

unfoldable pub erase_lib : Pointer → List LibraryPath → List LibraryPath
erase_lib p [] = []
erase_lib p (l ∷ ls) =
    let rest = erase_lib p ls in if same_library (address l) p then ls else l ∷ rest

unfoldable pub unregister_lib : LibraryPath → LibraryPaths → LibraryPaths
unregister_lib lib r =
    if has_registered_lib lib r
    then record {
      libs = erase_pointer (address lib) r.libs;
      libs_h = erase_lib (address lib) r.libs_h;
    }
    else r

unfoldable pub get_libraries : LibraryPaths → List Pointer
get_libraries r = r.libs
