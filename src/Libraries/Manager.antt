-- ===== src/Libraries/Manager.antt =====
-- lib/CppInterOp/DynamicLibraryManager.h: the manager's state and its search paths.
use cpp_inter_op.Common.{
  ℕ, ◌<◌, ◌≡◌, Bool, true, false, ◌&&◌, ◌||◌, not, List, [], ◌∷◌, ◌++◌, Option, none, some, ◌==◌,
  if◌then◌else◌, Str, codes, is_empty, str_eq, length, ltb, contains,
}
use cpp_inter_op.Paths.Split.{Platform, Progress, prune_non_existent, split_paths}
pub mod SearchPaths

pub record SearchPathInfo : Type 0 where
  pub path : Str
  pub is_user : Bool

-- A `void*` from dlopen; 0 is the null pointer.
abbrev pub DyLibHandle : Type 0
DyLibHandle = ℕ

-- m_DyLibs, m_LoadedLibraries and m_SearchPaths.
pub record DynamicLibraryManager : Type 0 where
  pub dy_libs : List (DyLibHandle × Str)
  pub loaded_libraries : List Str
  pub search_paths : List SearchPathInfo

unfoldable pub has_search_path : Str → List SearchPathInfo → Bool
has_search_path dir [] = false
has_search_path dir (i ∷ is) = str_eq dir i.path || has_search_path dir is

unfoldable pub add_search_path : Str → Bool → Bool → List SearchPathInfo → List SearchPathInfo
unfolding has_search_path
add_search_path dir is_user prepend infos =
    let info : SearchPathInfo = record { path = dir; is_user = is_user } in
    if is_empty dir || has_search_path dir infos
    then infos
    else if prepend
    then info ∷ infos
    else infos ++ info ∷ []

unfoldable pub add_search_paths : List Str → Bool → List SearchPathInfo → List SearchPathInfo
add_search_paths [] is_user infos = infos
add_search_paths (p ∷ ps) is_user infos =
    add_search_paths ps is_user (add_search_path p is_user false infos)

-- The constructor's search paths: LD_LIBRARY_PATH, if it is set, then the current directory, then
-- the system's. `none` means that the fuel ran out.
unfoldable pub initial_search_paths :
    Platform → ℕ → Option Str → List Str → Option (List SearchPathInfo)
unfolding add_search_paths add_search_path
initial_search_paths fs fuel env sys_paths =
    let close = λ (user : List Str). some (
      add_search_paths sys_paths false
        (add_search_path (codes ".") true false (add_search_paths user true []))) in
    elim env [
      | none ↦ close []
      | some text ↦ elim (split_paths fs prune_non_existent (codes ":") false fuel text []) [
        | none ↦ none
        | some (existed, s) ↦ close s.paths
      ]
    ]

-- DynamicLibraryManager::dump, as its lines.
unfoldable pub dump : List SearchPathInfo → List Str
dump [] = []
dump (i ∷ is) = (if i.is_user then i.path else codes "[system] " ++ i.path) ∷ dump is
