-- ===== src/Libraries/Loading/Consistency.antt =====
-- Libraries/Loading: the two tables of the manager agree after any history of calls.
use cpp_inter_op.Common.{
  ◌≡◌, ◌≢◌, refl, sym, ap, ◌∙◌, Bool, true, false, ◌||◌, List, [], ◌∷◌, ◌++◌, map, ◌==◌,
  if◌then◌else◌, Str, str_eq, str_eq_iff, contains, arith, Bool-cases, inl, inr,
}
use cpp_inter_op.Libraries.Manager.{DyLibHandle, DynamicLibraryManager, add_search_path}
use cpp_inter_op.Libraries.Lookup.{System, lookup_library}
use cpp_inter_op.Libraries.Loading.{
  Linker, Loaded, has_handle, erase_handle, erase_name, handle_of, dl_open, load_canonical,
  load_library, is_library_loaded, unload_library,
}

abbrev pub names : List (DyLibHandle × Str) → List Str
names ds = map (λ (d : DyLibHandle × Str). d.1) ds

-- Handles that are not null, and neither a handle nor a name twice.
abbrev pub AreLibraries : List (DyLibHandle × Str) → Type 0
AreLibraries [] = Unit
AreLibraries (d ∷ ds) =
    (d.0 ≢ 0) × (has_handle d.0 ds ≡ false) × (contains d.1 (names ds) ≡ false) × AreLibraries ds

-- The two tables hold the same libraries.
pub record IsConsistent (m : DynamicLibraryManager) : Type 0 where
  pub libraries : AreLibraries m.dy_libs
  pub same_names : m.loaded_libraries ≡ names m.dy_libs

pub has_handle-append :
    (h : DyLibHandle) (ds : List (DyLibHandle × Str)) (d : DyLibHandle × Str)
    → has_handle h (ds ++ d ∷ []) ≡ (has_handle h ds || (h == d.0))
unfolding has_handle
has_handle-append h [] d = ground arith
has_handle-append h (e ∷ ds) d = ground (arith, has_handle-append h ds d)

pub contains-names_append :
    (n : Str) (ds : List (DyLibHandle × Str)) (d : DyLibHandle × Str)
    → contains n (names (ds ++ d ∷ [])) ≡ (contains n (names ds) || str_eq d.1 n)
unfolding contains
contains-names_append n [] d = ground arith
contains-names_append n (e ∷ ds) d = ground (arith, contains-names_append n ds d)

pub names-append :
    (ds : List (DyLibHandle × Str)) (d : DyLibHandle × Str)
    → names (ds ++ d ∷ []) ≡ names ds ++ d.1 ∷ []
names-append [] d = refl
names-append (e ∷ ds) d = ap (λ r. e.1 ∷ r) (names-append ds d)

AreLibraries-append :
    (ds : List (DyLibHandle × Str)) (h : DyLibHandle) (n : Str)
    → AreLibraries ds
    → h ≢ 0
    → has_handle h ds ≡ false
    → contains n (names ds) ≡ false
    → AreLibraries (ds ++ (h, n) ∷ [])
unfolding has_handle contains
AreLibraries-append [] h n ok nz new_handle new_name = ground arith
AreLibraries-append (d ∷ ds) h n ok nz new_handle new_name = ground (
  arith,
  has_handle-append d.0 ds (h, n),
  contains-names_append d.1 ds (h, n),
  str_eq_iff n d.1,
  str_eq_iff d.1 n,
  AreLibraries-append ds h n,
)

has_handle-handle_of :
    (n : Str) (ds : List (DyLibHandle × Str))
    → contains n (names ds) ≡ true
    → has_handle (handle_of n ds) ds ≡ true
unfolding has_handle handle_of contains
has_handle-handle_of n [] h = ground arith
has_handle-handle_of n (d ∷ ds) h = ground (arith, has_handle-handle_of n ds)

handle_of-absent :
    (n : Str) (ds : List (DyLibHandle × Str)) → contains n (names ds) ≡ false → handle_of n ds ≡ 0
unfolding handle_of contains
handle_of-absent n [] h = refl
handle_of-absent n (d ∷ ds) h = ground (arith, handle_of-absent n ds)

pub erase_handle-absent :
    (h : DyLibHandle) (ds : List (DyLibHandle × Str))
    → has_handle h ds ≡ false
    → erase_handle h ds ≡ ds
unfolding has_handle erase_handle
erase_handle-absent h [] e = refl
erase_handle-absent h (d ∷ ds) e = ground (arith, erase_handle-absent h ds)

pub erase_name-absent : (n : Str) (ns : List Str) → contains n ns ≡ false → erase_name n ns ≡ ns
unfolding contains erase_name
erase_name-absent n [] e = refl
erase_name-absent n (m ∷ ns) e = ground (arith, erase_name-absent n ns)

has_handle-erase :
    (g h : DyLibHandle) (ds : List (DyLibHandle × Str))
    → has_handle g ds ≡ false
    → has_handle g (erase_handle h ds) ≡ false
unfolding has_handle erase_handle
has_handle-erase g h [] e = refl
has_handle-erase g h (d ∷ ds) e = ground (arith, has_handle-erase g h ds)

contains-names_erase :
    (n : Str) (h : DyLibHandle) (ds : List (DyLibHandle × Str))
    → contains n (names ds) ≡ false
    → contains n (names (erase_handle h ds)) ≡ false
unfolding contains erase_handle
contains-names_erase n h [] e = refl
contains-names_erase n h (d ∷ ds) e = ground (arith, contains-names_erase n h ds)

AreLibraries-erase :
    (h : DyLibHandle) (ds : List (DyLibHandle × Str))
    → AreLibraries ds
    → AreLibraries (erase_handle h ds)
unfolding erase_handle
AreLibraries-erase h [] ok = ok
AreLibraries-erase h (d ∷ ds) ok =
    ground
      (arith, has_handle-erase d.0 h ds, contains-names_erase d.1 h ds, AreLibraries-erase h ds)

-- The handle found in the rest of the table is not the first one's.
handle_of-ne :
    (n : Str) (d : DyLibHandle × Str) (ds : List (DyLibHandle × Str))
    → AreLibraries (d ∷ ds)
    → handle_of n ds ≢ d.0
handle_of-ne n d ds (nz, new_handle, new_name, ok) = elim (Bool-cases (contains n (names ds))) [
  | inl there ↦ λ e.
      absurd
        (ground (arith, has_handle-handle_of n ds there, ap (λ h. has_handle h ds) e, new_handle))
  | inr absent ↦ λ e. absurd (ground (arith, handle_of-absent n ds absent))
]

-- A library is at one place of both tables.
names-erase_handle :
    (n : Str) (ds : List (DyLibHandle × Str))
    → AreLibraries ds
    → names (erase_handle (handle_of n ds) ds) ≡ erase_name n (names ds)
unfolding has_handle erase_handle erase_name handle_of contains
names-erase_handle n [] ok = refl
names-erase_handle n (d ∷ ds) ok = ground (
  arith,
  handle_of-ne n d ds ok,
  str_eq_iff d.1 n,
  erase_handle-absent d.0 ds,
  erase_name-absent d.1 (names ds),
  names-erase_handle n ds,
)

-- The calls that change the manager.
pub data Command : Type 0 where
  load : Str → Bool → Bool → Command
  unload : Str → Command
  add_path : Str → Bool → Bool → Command

module _ {W : Type 0} (linker : Linker W) (sys : System) where
  unfoldable pub step : Command → DynamicLibraryManager × W → DynamicLibraryManager × W
  unfolding load_library unload_library add_search_path
  step (load stem resolved with_err_msg) (m, w) =
      let r = load_library linker sys m w stem resolved with_err_msg in (r.manager, r.linker)
  step (unload stem) (m, w) = unload_library linker sys m w stem
  step (add_path dir is_user prepend) (m, w) =
      (record m { search_paths = add_search_path dir is_user prepend m.search_paths }, w)

  unfoldable pub run : List Command → DynamicLibraryManager × W → DynamicLibraryManager × W
  unfolding step
  run [] s = s
  run (c ∷ cs) s = run cs (step c s)

  if-IsConsistent :
      (b : Bool) (r s : Loaded W)
      → (b ≡ true → IsConsistent r.manager)
      → (b ≡ false → IsConsistent s.manager)
      → IsConsistent (if b then r else s).manager
  if-IsConsistent true r s h k = h refl
  if-IsConsistent false r s h k = k refl

  added-IsConsistent :
      (m : DynamicLibraryManager) (h : DyLibHandle) (lib : Str)
      → IsConsistent m
      → contains lib m.loaded_libraries ≡ false
      → (h == 0) ≡ false
      → has_handle h m.dy_libs ≡ false
      → IsConsistent (record m {
        dy_libs = m.dy_libs ++ (h, lib) ∷ [];
        loaded_libraries = m.loaded_libraries ++ lib ∷ [];
      })
  added-IsConsistent m h lib c new_name nz new_handle = record {
    libraries =
        AreLibraries-append m.dy_libs h lib c.libraries (λ e. absurd (ground arith)) new_handle
          (ap (contains lib) (sym c.same_names) ∙ new_name);
    same_names = ap (λ r. r ++ lib ∷ []) c.same_names ∙ sym (names-append m.dy_libs (h, lib));
  }

  load_canonical-IsConsistent :
      (m : DynamicLibraryManager) (w : W) (lib : Str) (with_err_msg : Bool)
      → IsConsistent m
      → IsConsistent (load_canonical linker m w lib with_err_msg).manager
  unfolding load_canonical
  load_canonical-IsConsistent m w lib with_err_msg c =
      if-IsConsistent (contains lib m.loaded_libraries) _ _ (λ _. c)
        (λ new_name.
          if-IsConsistent ((dl_open linker w lib).1.0 == 0) _ _ (λ _. c)
            (λ nz.
              if-IsConsistent (has_handle (dl_open linker w lib).1.0 m.dy_libs) _ _ (λ _. c)
                (added-IsConsistent m (dl_open linker w lib).1.0 lib c new_name nz)))

  load_library-IsConsistent :
      (m : DynamicLibraryManager) (w : W) (stem : Str) (resolved with_err_msg : Bool)
      → IsConsistent m
      → IsConsistent (load_library linker sys m w stem resolved with_err_msg).manager
  unfolding load_library
  load_library-IsConsistent m w stem resolved with_err_msg c = ground (
    arith,
    load_canonical-IsConsistent m w stem with_err_msg c,
    load_canonical-IsConsistent m w (lookup_library sys m.search_paths [] [] [] stem true)
        with_err_msg c,
  )

  unload_library-IsConsistent :
      (m : DynamicLibraryManager) (w : W) (stem : Str)
      → IsConsistent m
      → IsConsistent (unload_library linker sys m w stem).0
  unfolding unload_library
  unload_library-IsConsistent m w stem c =
      let lib = lookup_library sys m.search_paths [] [] [] stem true in
      elim (Bool-cases (is_library_loaded sys m lib)) [
        | inl e ↦
            rw (unload_library, e)
              (record {
                libraries = AreLibraries-erase (handle_of lib m.dy_libs) m.dy_libs c.libraries;
                same_names =
                    ap (erase_name lib) c.same_names
                    ∙ sym (names-erase_handle lib m.dy_libs c.libraries);
              })
        | inr e ↦ rw (unload_library, e) c
      ]

  -- After any history of loads, unloads and added search paths, the table of handles and the set of
  -- loaded names hold the same libraries: no handle is null or there twice, no name is there
  -- twice, and the names are those of the set. It is enough that this held before.
  pub run-IsConsistent :
      (cs : List Command) (m : DynamicLibraryManager) (w : W)
      → IsConsistent m
      → IsConsistent (run cs (m, w)).0
  unfolding run step
  run-IsConsistent [] m w c = c
  run-IsConsistent (load stem resolved with_err_msg ∷ cs) m w c =
      let r = load_library linker sys m w stem resolved with_err_msg in
      run-IsConsistent cs r.manager r.linker
        (load_library-IsConsistent m w stem resolved with_err_msg c)
  run-IsConsistent (unload stem ∷ cs) m w c =
      let r = unload_library linker sys m w stem in
      run-IsConsistent cs r.0 r.1 (unload_library-IsConsistent m w stem c)
  run-IsConsistent (add_path dir is_user prepend ∷ cs) m w c =
      run-IsConsistent cs
        (record m { search_paths = add_search_path dir is_user prepend m.search_paths }) w
        (record { libraries = c.libraries; same_names = c.same_names })
