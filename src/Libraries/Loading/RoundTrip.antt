-- ===== src/Libraries/Loading/RoundTrip.antt =====
-- Libraries/Loading: what a load leaves, and what the unload after it does.
use mathlib.Core.Path.{subst}
use cpp_inter_op.Common.{
  ◌≡◌, ◌≢◌, refl, sym, ap, ◌∙◌, Bool, true, false, List, [], ◌∷◌, ◌++◌, none, ◌==◌, if◌then◌else◌,
  Str, is_empty, str_eq_refl, contains, arith, Bool-cases, inl, inr,
}
use cpp_inter_op.Libraries.Manager.{DyLibHandle, DynamicLibraryManager}
use cpp_inter_op.Libraries.Lookup.{System, normalize_path, platform_normalize_path, lookup_library}
use cpp_inter_op.Libraries.Lookup.Candidates.{IsRealPath, HasNoTilde, lookup_library-IsShared}
use cpp_inter_op.Libraries.Loading.{
  Linker, Loaded, LoadLibResult, load_lib_success, load_lib_already_loaded, has_handle,
  erase_handle, erase_name, handle_of, dl_open, dl_close, load_canonical, load_library,
  is_library_loaded, unload_library,
}
use cpp_inter_op.Libraries.Loading.Consistency.{names, IsConsistent}

-- The manager with one more library.
abbrev pub with_library : DyLibHandle → Str → DynamicLibraryManager → DynamicLibraryManager
with_library h lib m = record m {
  dy_libs = m.dy_libs ++ (h, lib) ∷ [];
  loaded_libraries = m.loaded_libraries ++ lib ∷ [];
}

contains-append_self : (p : Str) (ps : List Str) → contains p (ps ++ p ∷ []) ≡ true
unfolding contains
contains-append_self p [] = ground (arith, str_eq_refl p)
contains-append_self p (q ∷ ps) = ground (arith, contains-append_self p ps)

erase_name-append :
    (n : Str) (ns : List Str) → contains n ns ≡ false → erase_name n (ns ++ n ∷ []) ≡ ns
unfolding contains erase_name
erase_name-append n [] e = ground (arith, str_eq_refl n)
erase_name-append n (m ∷ ns) e = ground (arith, erase_name-append n ns)

erase_handle-append :
    (h : DyLibHandle) (n : Str) (ds : List (DyLibHandle × Str))
    → has_handle h ds ≡ false
    → erase_handle h (ds ++ (h, n) ∷ []) ≡ ds
unfolding has_handle erase_handle
erase_handle-append h n [] e = ground arith
erase_handle-append h n (d ∷ ds) e = ground (arith, erase_handle-append h n ds)

handle_of-append :
    (h : DyLibHandle) (n : Str) (ds : List (DyLibHandle × Str))
    → contains n (names ds) ≡ false
    → handle_of n (ds ++ (h, n) ∷ []) ≡ h
unfolding handle_of contains
handle_of-append h n [] e = ground (arith, str_eq_refl n)
handle_of-append h n (d ∷ ds) e = ground (arith, handle_of-append h n ds)

IsFailure : LoadLibResult → Type 0
IsFailure r = r ≢ load_lib_success

only_last :
    {W : Type 0} (a b c : Bool) (q r s t : Loaded W)
    → IsFailure q.result
    → IsFailure r.result
    → IsFailure s.result
    → (if a then q else (if b then r else (if c then s else t))).result ≡ load_lib_success
    → (a ≡ false)
      × (b ≡ false)
      × (c ≡ false)
      × ((if a then q else (if b then r else (if c then s else t))) ≡ t)
unfolding IsFailure
only_last true b c q r s t fq fr fs e = absurd (fq e)
only_last false true c q r s t fq fr fs e = absurd (fr e)
only_last false false true q r s t fq fr fs e = absurd (fs e)
only_last false false false q r s t fq fr fs e = (refl, refl, refl, refl)

module _ {W : Type 0} (linker : Linker W) where
  -- What a success leaves.
  abbrev pub loaded : DynamicLibraryManager → W → Str → Loaded W
  loaded m w lib = record {
    result = load_lib_success;
    manager = with_library (dl_open linker w lib).1.0 lib m;
    linker = (dl_open linker w lib).0;
    err_msg = none;
    cerr = none;
  }

  -- What a success says of the linker's answer and of what was there.
  pub success-inv :
      (m : DynamicLibraryManager) (w : W) (lib : Str) (err : Bool)
      → (load_canonical linker m w lib err).result ≡ load_lib_success
      → (contains lib m.loaded_libraries ≡ false)
        × (((dl_open linker w lib).1.0 == 0) ≡ false)
        × (has_handle (dl_open linker w lib).1.0 m.dy_libs ≡ false)
        × (load_canonical linker m w lib err ≡ loaded m w lib)
  unfolding load_canonical IsFailure
  success-inv m w lib err h =
      only_last (contains lib m.loaded_libraries) ((dl_open linker w lib).1.0 == 0)
        (has_handle (dl_open linker w lib).1.0 m.dy_libs) _ _ _ (loaded m w lib) (λ e. absurd (cc))
        (λ e. absurd (cc)) (λ e. absurd (cc)) h

module _ {W : Type 0} (linker : Linker W) (sys : System) (real : IsRealPath sys)
    (no_tilde : HasNoTilde sys) where
  -- A result of the lookup is loaded exactly if the set holds it.
  is_library_loaded-lookup :
      (m : DynamicLibraryManager) (stem : Str) (variate : Bool)
      → is_empty (lookup_library sys m.search_paths [] [] [] stem variate) ≡ false
      → is_library_loaded sys m (lookup_library sys m.search_paths [] [] [] stem variate)
        ≡ contains (lookup_library sys m.search_paths [] [] [] stem variate) m.loaded_libraries
  unfolding is_library_loaded normalize_path platform_normalize_path
  is_library_loaded-lookup m stem variate h =
      let p = lookup_library sys m.search_paths [] [] [] stem variate in
      let e =
        (lookup_library-IsShared sys real no_tilde m.search_paths [] [] [] stem variate h).1 in
      ground (arith, e, real.exists p p e)

  from_found :
      (m : DynamicLibraryManager) (w : W) (stem : Str) (err : Bool)
      → is_empty (lookup_library sys m.search_paths [] [] [] stem true) ≡ false
      → (load_library linker sys m w stem false err).result ≡ load_lib_success
      → (load_canonical linker m w
          (lookup_library sys m.search_paths [] [] [] stem true)
          err).result
        ≡ load_lib_success
  unfolding load_library
  from_found m w stem err e h = ground (arith, e)

  found-inv :
      (m : DynamicLibraryManager) (w : W) (stem : Str) (err : Bool)
      → (load_library linker sys m w stem false err).result ≡ load_lib_success
      → let lib = lookup_library sys m.search_paths [] [] [] stem true in
        (is_empty lib ≡ false)
        × (contains lib m.loaded_libraries ≡ false)
        × (has_handle (dl_open linker w lib).1.0 m.dy_libs ≡ false)
        × (load_library linker sys m w stem false err ≡ loaded linker m w lib)
  unfolding load_library
  found-inv m w stem err h =
      let lib = lookup_library sys m.search_paths [] [] [] stem true in
      elim (Bool-cases (is_empty lib)) [
        | inl e ↦ absurd (ground (arith, e))
        | inr e ↦
            rw (e, load_library)
              (let (new_name, nz, new_handle, eq) =
                  success-inv linker m w lib err (from_found m w stem err e h) in
                (refl, new_name, new_handle, eq))
      ]

  there :
      (m : DynamicLibraryManager) (w : W) (stem : Str)
      → let lib = lookup_library sys m.search_paths [] [] [] stem true in
        is_empty lib ≡ false → is_library_loaded sys (loaded linker m w lib).manager lib ≡ true
  there m w stem found =
      let lib = lookup_library sys m.search_paths [] [] [] stem true in
      is_library_loaded-lookup (loaded linker m w lib).manager stem true found
      ∙ contains-append_self lib m.loaded_libraries

  again :
      (m : DynamicLibraryManager) (w : W) (stem : Str) (err : Bool)
      → let lib = lookup_library sys m.search_paths [] [] [] stem true in
        let r = loaded linker m w lib in
        is_empty lib ≡ false
        → load_library linker sys r.manager r.linker stem false err ≡ record {
          result = load_lib_already_loaded;
          manager = r.manager;
          linker = r.linker;
          err_msg = none;
          cerr = none;
        }
  unfolding load_library dl_open lookup_library
  again m w stem err found =
      let lib = lookup_library sys m.search_paths [] [] [] stem true in
      rw (load_library, found, load_canonical, contains-append_self lib m.loaded_libraries) refl

  undone :
      (m : DynamicLibraryManager) (w : W) (stem : Str)
      → let lib = lookup_library sys m.search_paths [] [] [] stem true in
        let h = (dl_open linker w lib).1.0 in
        let r = loaded linker m w lib in
        IsConsistent m
        → is_empty lib ≡ false
        → contains lib m.loaded_libraries ≡ false
        → has_handle h m.dy_libs ≡ false
        → unload_library linker sys r.manager r.linker stem ≡ (m, dl_close linker r.linker h)
  unfolding unload_library dl_close
  undone m w stem c found new_name new_handle =
      let lib = lookup_library sys m.search_paths [] [] [] stem true in
      let h = (dl_open linker w lib).1.0 in
      rw
        (
          unload_library,
          there m w stem found,
          handle_of-append h lib m.dy_libs (ap (contains lib) (sym c.same_names) ∙ new_name),
          erase_handle-append h lib m.dy_libs new_handle,
          erase_name-append lib m.loaded_libraries new_name,
        )
        refl

  -- A load by name that succeeds, with a manager whose tables agree, the documented behaviour of
  -- real_path, and no shared library that a path beginning with "~" names as it stands: afterwards the file that the name stands for counts as loaded, a second load of
  -- the name reports that it is and changes neither the manager nor the linker, and an unload of
  -- the name gives back the manager of before and closes the handle that the load opened.
  pub load_library_roundtrip :
      (m : DynamicLibraryManager) (w : W) (stem : Str) (err : Bool)
      → IsConsistent m
      → (load_library linker sys m w stem false err).result ≡ load_lib_success
      → let r = load_library linker sys m w stem false err in
        let lib = lookup_library sys m.search_paths [] [] [] stem true in
        (is_library_loaded sys r.manager lib ≡ true)
        × (load_library linker sys r.manager r.linker stem false err ≡ record {
          result = load_lib_already_loaded;
          manager = r.manager;
          linker = r.linker;
          err_msg = none;
          cerr = none;
        })
        × (unload_library linker sys r.manager r.linker stem
            ≡ (m, dl_close linker r.linker (dl_open linker w lib).1.0))
  load_library_roundtrip m w stem err c h =
      let (found, new_name, new_handle, e) = found-inv m w stem err h in
      let lib = lookup_library sys m.search_paths [] [] [] stem true in
      subst
        (λ (r : Loaded W).
          (is_library_loaded sys r.manager lib ≡ true)
          × (load_library linker sys r.manager r.linker stem false err ≡ record {
            result = load_lib_already_loaded;
            manager = r.manager;
            linker = r.linker;
            err_msg = none;
            cerr = none;
          })
          × (unload_library linker sys r.manager r.linker stem
              ≡ (m, dl_close linker r.linker (dl_open linker w lib).1.0)))
        (sym e)
        (
          there m w stem found,
          again m w stem err found,
          undone m w stem c found new_name new_handle,
        )
