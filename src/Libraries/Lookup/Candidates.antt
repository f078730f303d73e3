-- ===== src/Libraries/Lookup/Candidates.antt =====
-- Libraries/Lookup: which file lookupLibInPaths and lookupLibrary settle on.
use mathlib.Core.List.{append-nil}
use mathlib.Core.Path.{subst₂}
use cpp_inter_op.Common.{
  ◌≡◌, refl, sym, Bool, true, false, ◌&&◌, not, List, [], ◌∷◌, ◌++◌, map, Option, none, some,
  if◌then◌else◌, Str, codes, is_empty, starts_with, arith, Option-cases, inl, inr,
}
use cpp_inter_op.Libraries.Manager.{SearchPathInfo}
use cpp_inter_op.Libraries.Lookup.{
  System, is_shared_file, is_shared_library, platform_normalize_path, normalize_path, subst_all,
  try_paths, try_search_paths, lookup_lib_in_paths, lookup_lib_maybe_add_ext, lookup_library,
  insert_lib,
}

-- What LLVM documents of real_path, which is called with `expand_tilde`: the path it gives exists
-- and is its own real path. A path that begins with "~" is first expanded to one under a home
-- directory; of every other path the result names the same file.
pub record IsRealPath (sys : System) : Type 0 where
  pub same_type :
      (p q : Str)
      → starts_with p (codes "~") ≡ false
      → sys.real_path p ≡ some q
      → sys.file_type q ≡ sys.file_type p
  pub same_contents :
      (p q : Str)
      → starts_with p (codes "~") ≡ false
      → sys.real_path p ≡ some q
      → sys.contents q ≡ sys.contents p
  pub is_real : (p q : Str) → sys.real_path p ≡ some q → sys.real_path q ≡ some q
  pub exists : (p q : Str) → sys.real_path p ≡ some q → sys.stat q ≡ true

-- No path that begins with "~" names a shared library as it stands: in the working directory, no
-- entry of such a name leads to one.
abbrev pub HasNoTilde : System → Type 0
HasNoTilde sys = (p : Str) → (is_shared_library sys p).0 ≡ true → starts_with p (codes "~") ≡ false

module _ (sys : System) where
  -- The first path of a list that is a shared library, and the empty text if there is none.
  abbrev pub first_shared : List Str → Str
  first_shared [] = []
  first_shared (p ∷ ps) = if (is_shared_library sys p).0 then p else first_shared ps

  -- The files that a stem may mean, in the order of the directories.
  abbrev pub candidates : List SearchPathInfo → List Str → List Str → Str → Str → List Str
  candidates infos rpath run_path loader stem =
      let at = λ (p : Str). sys.append (subst_all sys p loader) stem in
      map at rpath
      ++ (map (λ (i : SearchPathInfo). sys.append i.path stem) infos ++ map at run_path)

  abbrev or_else : Option Str → Str → Str
  or_else none s = s
  or_else (some p) s = p

  first_shared-try_paths :
      (ps : List Str) (stem loader : Str) (rest : List Str)
      → first_shared (map (λ (p : Str). sys.append (subst_all sys p loader) stem) ps ++ rest)
        ≡ or_else (try_paths sys ps stem loader) (first_shared rest)
  unfolding try_paths
  first_shared-try_paths [] stem loader rest = refl
  first_shared-try_paths (p ∷ ps) stem loader rest =
      ground (arith, first_shared-try_paths ps stem loader rest)

  first_shared-try_search_paths :
      (infos : List SearchPathInfo) (stem : Str) (rest : List Str)
      → first_shared (map (λ (i : SearchPathInfo). sys.append i.path stem) infos ++ rest)
        ≡ or_else (try_search_paths sys infos stem) (first_shared rest)
  unfolding try_search_paths
  first_shared-try_search_paths [] stem rest = refl
  first_shared-try_search_paths (i ∷ infos) stem rest =
      ground (arith, first_shared-try_search_paths infos stem rest)

  -- An unqualified name stands for the first file that is a shared library, when the directories
  -- are tried in this order: those of RPATH with `$origin` substituted, the manager's search
  -- paths, and those of RUNPATH with `$origin` substituted. If no file is, the result is empty;
  -- otherwise it is the directory with the name appended, not a canonical path.
  pub lookup_lib_in_paths-candidates :
      (infos : List SearchPathInfo) (rpath run_path : List Str) (loader stem : Str)
      → lookup_lib_in_paths sys infos rpath run_path loader stem
        ≡ first_shared (candidates infos rpath run_path loader stem)
  unfolding lookup_lib_in_paths
  lookup_lib_in_paths-candidates infos rpath run_path loader stem =
      let at = λ (p : Str). sys.append (subst_all sys p loader) stem in
      ground (
        arith,
        first_shared-try_paths rpath stem loader
            (map (λ (i : SearchPathInfo). sys.append i.path stem) infos ++ map at run_path),
        first_shared-try_search_paths infos stem (map at run_path),
        first_shared-try_paths run_path stem loader [],
        append-nil (map at run_path),
      )

  abbrev IsShared : Str → Type 0
  IsShared p = (is_shared_library sys p).0 ≡ true

  first_shared-IsShared :
      (ps : List Str) → is_empty (first_shared ps) ≡ false → IsShared (first_shared ps)
  first_shared-IsShared [] h = ground arith
  first_shared-IsShared (p ∷ ps) h = ground (arith, first_shared-IsShared ps)

  module _ (real : IsRealPath sys) (no_tilde : HasNoTilde sys) where
    real_path-IsShared : (p q : Str) → sys.real_path p ≡ some q → IsShared p → IsShared q
    unfolding is_shared_library
    real_path-IsShared p q e h =
        subst₂ (λ t c. (is_shared_file sys t c).0 ≡ true)
          (sym (real.same_type p q (no_tilde p h) e))
          (sym (real.same_contents p q (no_tilde p h) e)) h

    normalize-IsShared :
        (p : Str)
        → IsShared p
        → is_empty (platform_normalize_path sys p) ≡ false
        → IsShared (platform_normalize_path sys p)
          × (sys.real_path (platform_normalize_path sys p) ≡ some (platform_normalize_path sys p))
    unfolding platform_normalize_path
    normalize-IsShared p h ne = elim (Option-cases (sys.real_path p)) [
      | inl e ↦ ground (arith, e)
      | inr (q, e) ↦
          rw (e, platform_normalize_path) (real_path-IsShared p q e h, real.is_real p q e)
    ]

    module _ (infos : List SearchPathInfo) (rpath run_path : List Str) (loader : Str) where
      in_paths-IsShared :
          (stem : Str)
          → is_empty (lookup_lib_in_paths sys infos rpath run_path loader stem) ≡ false
          → IsShared (lookup_lib_in_paths sys infos rpath run_path loader stem)
      in_paths-IsShared stem =
          rw (lookup_lib_in_paths-candidates infos rpath run_path loader stem)
            (first_shared-IsShared (candidates infos rpath run_path loader stem))

      maybe_add_ext-IsShared :
          (stem : Str)
          → is_empty (lookup_lib_maybe_add_ext sys infos rpath run_path loader stem) ≡ false
          → IsShared (lookup_lib_maybe_add_ext sys infos rpath run_path loader stem)
      unfolding lookup_lib_maybe_add_ext
      maybe_add_ext-IsShared stem h = ground (
        arith,
        in_paths-IsShared stem,
        in_paths-IsShared (stem ++ codes ".so"),
        normalize-IsShared (lookup_lib_in_paths sys infos rpath run_path loader stem),
        normalize-IsShared
            (lookup_lib_in_paths sys infos rpath run_path loader (stem ++ codes ".so")),
      )

      abbrev IsFound : Str → Type 0
      IsFound r = is_empty r ≡ false → IsShared r × (sys.real_path r ≡ some r)

      if-IsFound :
          (b : Bool) {r s : Str} → (b ≡ true → IsFound r) → IsFound s → IsFound (if b then r else s)
      if-IsFound true h k = h refl
      if-IsFound false h k = k

      normalize_path-IsFound : (p : Str) → IsShared p → IsFound (normalize_path sys p)
      unfolding normalize_path
      normalize_path-IsFound p h = ground (arith, normalize-IsShared p h)

      search-IsFound :
          (p : Str)
          → (is_empty p ≡ false → IsShared p)
          → IsFound (if is_empty p then [] else platform_normalize_path sys p)
      search-IsFound p h = ground (arith, normalize-IsShared p)

      if-IsShared :
          (b : Bool) (r s : Str)
          → (is_empty r ≡ false → IsShared r)
          → (is_empty s ≡ false → IsShared s)
          → is_empty (if b then r else s) ≡ false
          → IsShared (if b then r else s)
      if-IsShared true r s h k = h
      if-IsShared false r s h k = k

      -- With the documented behaviour of real_path, where no path that begins with "~" names a
      -- shared library as it stands: whatever lookupLibrary finds is the real path of a shared
      -- library. A result that is not empty names a file that isSharedLibrary accepts, and it is its
      -- own real path.
      pub lookup_library-IsShared :
          (stem : Str) (variate : Bool)
          → is_empty (lookup_library sys infos rpath run_path loader stem variate) ≡ false
          → ((is_shared_library sys (lookup_library sys infos rpath run_path loader stem variate)).0
              ≡ true)
            × (sys.real_path (lookup_library sys infos rpath run_path loader stem variate)
                ≡ some (lookup_library sys infos rpath run_path loader stem variate))
      unfolding lookup_library normalize_path
      lookup_library-IsShared stem variate h =
          let name = sys.filename stem in
          let direct = lookup_lib_maybe_add_ext sys infos rpath run_path loader stem in
          let prefixed = insert_lib sys infos rpath run_path loader stem name in
          if-IsFound (sys.is_absolute stem)
            (λ _.
              if-IsFound (is_shared_library sys stem).0 (normalize_path-IsFound stem)
                (λ e. absurd (cc)))
            (if-IsFound (is_shared_library sys (subst_all sys stem loader)).0
              (normalize_path-IsFound (subst_all sys stem loader))
              (search-IsFound _ (
                if-IsShared variate _ _
                  (if-IsShared (is_empty direct && not (starts_with name (codes "lib"))) _ _
                    (maybe_add_ext-IsShared prefixed) (maybe_add_ext-IsShared stem))
                  (in_paths-IsShared stem))))
            h
