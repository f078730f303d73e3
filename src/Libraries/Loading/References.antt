-- ===== src/Libraries/Loading/References.antt =====
-- Libraries/Loading: the references that loadLibrary takes of the dynamic linker.
use mathlib.Core.Path.{subst}
use cpp_inter_op.Common.{
  ℕ, suc, ◌+◌, ◌≡◌, ◌≢◌, refl, sym, ap, ◌∙◌, Bool, true, false, List, [], ◌∷◌, ◌++◌, none, ◌==◌,
  Str, contains, arith,
}
use cpp_inter_op.Libraries.Manager.{DyLibHandle, DynamicLibraryManager}
use cpp_inter_op.Libraries.Lookup.{System}
use cpp_inter_op.Libraries.Loading.RoundTrip.{loaded, success-inv}
use cpp_inter_op.Libraries.Loading.{
  Linker, Loaded, load_lib_success, load_lib_already_loaded, has_handle, dl_open, load_canonical,
  load_library,
}

-- What dlopen(3) and dlclose(3) document: each successful dlopen adds a reference to its handle.
pub record IsCounting {W : Type 0} (linker : Linker W) (references : W → DyLibHandle → ℕ)
    : Type 0 where
  pub opens :
      (w : W) (p : Str)
      → (linker.dlopen w p).1 ≢ 0
      → references (linker.dlopen w p).0 (linker.dlopen w p).1
        ≡ suc (references w (linker.dlopen w p).1)
  pub others :
      (w : W) (p : Str) (h : DyLibHandle)
      → h ≢ (linker.dlopen w p).1
      → references (linker.dlopen w p).0 h ≡ references w h
  pub asks : (w : W) (h : DyLibHandle) → references (linker.dlerror w).0 h ≡ references w h

pub add_handle-has :
    (h : DyLibHandle) (n : Str) (ds : List (DyLibHandle × Str))
    → has_handle h (ds ++ (h, n) ∷ []) ≡ true
unfolding has_handle
add_handle-has h n [] = ground arith
add_handle-has h n (d ∷ ds) = ground (arith, add_handle-has h n ds)

module _ {W : Type 0} (linker : Linker W) (sys : System) (references : W → DyLibHandle → ℕ)
    (counts : IsCounting linker references) where
  references-dl_open :
      (w : W) (p : Str)
      → (dl_open linker w p).1.0 ≢ 0
      → references (dl_open linker w p).0 (dl_open linker w p).1.0
        ≡ suc (references w (dl_open linker w p).1.0)
  unfolding dl_open
  references-dl_open w p h =
      counts.asks (linker.dlopen w p).0 (linker.dlopen w p).1 ∙ counts.opens w p h

  counted :
      (w : W) (p : Str) (h : DyLibHandle)
      → (h == 0) ≡ false
      → (dl_open linker w p).1.0 ≡ h
      → references (dl_open linker w p).0 h ≡ suc (references w h)
  counted w p h nz same =
      subst (λ g. (g == 0) ≡ false → references (dl_open linker w p).0 g ≡ suc (references w g))
        same (λ n. references-dl_open w p (λ z. absurd (ground (arith, z, n)))) nz

  known_handle :
      (m : DynamicLibraryManager) (w : W) (b : Str) (err : Bool)
      → contains b m.loaded_libraries ≡ false
      → ((dl_open linker w b).1.0 == 0) ≡ false
      → has_handle (dl_open linker w b).1.0 m.dy_libs ≡ true
      → load_canonical linker m w b err ≡ record {
        result = load_lib_already_loaded;
        manager = m;
        linker = (dl_open linker w b).0;
        err_msg = none;
        cerr = none;
      }
  unfolding load_canonical dl_open
  known_handle m w b err new nz known = rw (load_canonical, new, nz, known) refl

  after_first :
      (m : DynamicLibraryManager) (w : W) (a b : Str) (err : Bool)
      → ((dl_open linker w a).1.0 == 0) ≡ false
      → let r = loaded linker m w a in
        let h = (dl_open linker w a).1.0 in
        let second = load_canonical linker r.manager r.linker b err in
        contains b r.manager.loaded_libraries ≡ false
        → (dl_open linker r.linker b).1.0 ≡ h
        → (second.result ≡ load_lib_already_loaded)
          × (second.manager ≡ r.manager)
          × (references second.linker h ≡ references w h + 2)
  after_first m w a b err nz new same =
      let r = loaded linker m w a in
      let h = (dl_open linker w a).1.0 in
      let nz' = ap (λ g. g == 0) same ∙ nz in
      let known = ap (λ g. has_handle g r.manager.dy_libs) same ∙ add_handle-has h a m.dy_libs in
      let e = known_handle r.manager r.linker b err new nz' known in
      (
        ap (λ (l : Loaded W). l.result) e,
        ap (λ (l : Loaded W). l.manager) e,
        ap (λ (l : Loaded W). references l.linker h) e
            ∙ counted r.linker b h nz same
            ∙ ap suc (counted w a h nz refl)
            ∙ omega arith,
      )

  -- Two resolved paths that the dynamic linker knows to be one library, such as a file and a hard
  -- link to it: when loading the first succeeds, loading the second reports that the library is
  -- already loaded and leaves the manager alone, but the linker counts two references to the
  -- handle more than before, for the one entry that an unload will close once.
  pub load_library-second_path :
      (m : DynamicLibraryManager) (w : W) (a b : Str) (err : Bool)
      → (load_library linker sys m w a true err).result ≡ load_lib_success
      → let r = load_library linker sys m w a true err in
        let h = (dl_open linker w a).1.0 in
        let second = load_library linker sys r.manager r.linker b true err in
        contains b r.manager.loaded_libraries ≡ false
        → (dl_open linker r.linker b).1.0 ≡ h
        → (second.result ≡ load_lib_already_loaded)
          × (second.manager ≡ r.manager)
          × (references second.linker h ≡ references w h + 2)
  unfolding load_library load_canonical
  load_library-second_path m w a b err success new same =
      let (new_name, nz, new_handle, e) = success-inv linker m w a err success in
      subst
        (λ (r : Loaded W).
          contains b r.manager.loaded_libraries ≡ false
          → (dl_open linker r.linker b).1.0 ≡ (dl_open linker w a).1.0
          → ((load_canonical linker r.manager r.linker b err).result ≡ load_lib_already_loaded)
            × ((load_canonical linker r.manager r.linker b err).manager ≡ r.manager)
            × (references (load_canonical linker r.manager r.linker b err).linker
                  (dl_open linker w a).1.0
                ≡ references w (dl_open linker w a).1.0 + 2))
        (sym e) (after_first m w a b err nz) new same
