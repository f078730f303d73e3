-- ===== src/Libraries/Loading.antt =====
-- lib/CppInterOp/DynamicLibraryManager.cpp: loading and unloading, with DLOpen and DLClose of
-- lib/CppInterOp/Paths.cpp.
pub mod Consistency
pub mod RoundTrip
pub mod References
use cpp_inter_op.Common.{
  ℕ, ◌+◌, ◌-◌, ◌<◌, ◌≡◌, Bool, true, false, ◌&&◌, ◌||◌, not, List, [], ◌∷◌, ◌++◌, Option, none,
  some, ◌==◌, if◌then◌else◌, Str, codes, is_empty, str_eq, contains,
}
use cpp_inter_op.Libraries.Manager.{DyLibHandle, DynamicLibraryManager}
use cpp_inter_op.Libraries.Lookup.{System, normalize_path, lookup_library}

-- dlopen, dlclose and dlerror, on the state of the dynamic linker.
pub record Linker (W : Type 0) : Type 0 where
  pub dlopen : W → Str → W × DyLibHandle
  pub dlclose : W → DyLibHandle → W
  pub dlerror : W → W × Option Str

pub data LoadLibResult : Type 0 where
  load_lib_success load_lib_already_loaded load_lib_not_found load_lib_load_error : LoadLibResult

-- What a call of loadLibrary leaves: its result, the manager, the linker, and the text that is
-- written through `errMsg` or to the standard error.
pub record Loaded (W : Type 0) : Type 0 where
  pub result : LoadLibResult
  pub manager : DynamicLibraryManager
  pub linker : W
  pub err_msg : Option Str
  pub cerr : Option Str

-- DenseMap: whether there is an entry of a handle, and the removal of one.
unfoldable pub has_handle : DyLibHandle → List (DyLibHandle × Str) → Bool
has_handle h [] = false
has_handle h (d ∷ ds) = (h == d.0) || has_handle h ds

unfoldable pub erase_handle : DyLibHandle → List (DyLibHandle × Str) → List (DyLibHandle × Str)
erase_handle h [] = []
erase_handle h (d ∷ ds) = let rest = erase_handle h ds in if h == d.0 then rest else d ∷ rest

-- The removal of a text from the set.
unfoldable pub erase_name : Str → List Str → List Str
erase_name n [] = []
erase_name n (m ∷ ms) = let rest = erase_name n ms in if str_eq m n then rest else m ∷ rest

-- The loop of unloadLibrary: the handle of a library, and null if there is none.
unfoldable pub handle_of : Str → List (DyLibHandle × Str) → DyLibHandle
handle_of n [] = 0
handle_of n (d ∷ ds) = let rest = handle_of n ds in if str_eq d.1 n then d.0 else rest

unfoldable pub is_library_loaded : System → DynamicLibraryManager → Str → Bool
unfolding normalize_path contains
is_library_loaded sys m full_path = contains (normalize_path sys full_path) m.loaded_libraries

module _ {W : Type 0} (linker : Linker W) where
  -- platform::DLOpen and platform::DLClose; the text is what `*Err` holds afterwards.
  unfoldable pub dl_open : W → Str → W × (DyLibHandle × Str)
  dl_open w path =
      let opened = linker.dlopen w path in
      let after = linker.dlerror opened.0 in
      (after.0, (opened.1, elim after.1 [ none ↦ [] | some message ↦ message ]))

  unfoldable pub dl_close : W → DyLibHandle → W
  dl_close w h = (linker.dlerror (linker.dlclose w h)).0

  -- The part of loadLibrary that follows the lookup.
  unfoldable pub load_canonical : DynamicLibraryManager → W → Str → Bool → Loaded W
  unfolding dl_open has_handle contains
  load_canonical m w lib with_err_msg =
      let opened = dl_open w lib in
      let w' = opened.0 in
      let h = opened.1.0 in
      let load_err = opened.1.1 in
      if contains lib m.loaded_libraries
      then record {
        result = load_lib_already_loaded;
        manager = m;
        linker = w;
        err_msg = none;
        cerr = none;
      }
      else if h == 0
      then record {
        result = load_lib_load_error;
        manager = m;
        linker = w';
        err_msg = if with_err_msg then some load_err else none;
        cerr = if with_err_msg || is_empty load_err then none else some load_err;
      }
      else if has_handle h m.dy_libs
      then record {
        result = load_lib_already_loaded;
        manager = m;
        linker = w';
        err_msg = none;
        cerr = none;
      }
      else record {
        result = load_lib_success;
        manager = record m {
          dy_libs = m.dy_libs ++ (h, lib) ∷ [];
          loaded_libraries = m.loaded_libraries ++ lib ∷ [];
        };
        linker = w';
        err_msg = none;
        cerr = none;
      }

  module _ (sys : System) where
    -- `permanent` is not read.
    unfoldable pub load_library : DynamicLibraryManager → W → Str → Bool → Bool → Loaded W
    unfolding load_canonical lookup_library
    load_library m w lib_stem resolved with_err_msg =
        let found = lookup_library sys m.search_paths [] [] [] lib_stem true in
        if resolved
        then load_canonical m w lib_stem with_err_msg
        else if is_empty found
        then record {
          result = load_lib_not_found;
          manager = m;
          linker = w;
          err_msg = none;
          cerr = none;
        }
        else load_canonical m w found with_err_msg

    unfoldable pub unload_library : DynamicLibraryManager → W → Str → DynamicLibraryManager × W
    unfolding is_library_loaded handle_of erase_handle erase_name dl_close lookup_library
    unload_library m w lib_stem =
        let lib = lookup_library sys m.search_paths [] [] [] lib_stem true in
        let h = handle_of lib m.dy_libs in
        if not (is_library_loaded sys m lib) then (m, w) else (
          record m {
            dy_libs = erase_handle h m.dy_libs;
            loaded_libraries = erase_name lib m.loaded_libraries;
          },
          dl_close w h,
        )
