-- ===== src/Symbols/Search/Answers.antt =====
-- Symbols/Search: what an answer is, and the answers of the system's registry.
use mathlib.Core.Path.{subst, ap₂}
use cpp_inter_op.Common.{
  ℕ, ◌≤◌, ◌≡◌, ◌≢◌, refl, sym, ap, ◌∙◌, Bool, true, List, [], ◌∷◌, Option, none, some, bit_or, Str,
  length, arith, Bool-cases, inl, inr,
}
use cpp_inter_op.Libraries.Manager.{DynamicLibraryManager}
use cpp_inter_op.Symbols.Filter.{LibraryPath}
use cpp_inter_op.Symbols.Registry.{Pointer, address, LibraryPaths, has_registered_lib}
use cpp_inter_op.Symbols.Registry.Order.{
  has_pointer, IsConsistent, has_registered_lib-libs, has_pointer-append, register-IsConsistent,
  same_library_iff,
}
use cpp_inter_op.Symbols.Contents.{ObjectFile, Settings}
use cpp_inter_op.Symbols.Scan.{Dyld, Scanner}
use cpp_inter_op.Symbols.Scan.Steps.{missing}
use cpp_inter_op.Symbols.Search.{get_full_name, remember_query, SearchEnd, answer_system}
use cpp_inter_op.Symbols.Search.Matches.{first_with, has, Keeps, EndsWith}
use cpp_inter_op.Symbols.Search.States.{IsGood, expected, name_of, AreGone, prefer}

-- A library, if there is one, is in a list.
abbrev pub Includes : Option Pointer → List Pointer → Type 0
Includes none ps = Unit
Includes (some p) ps = has_pointer p ps ≡ true

-- A query is registered where it is not yet.
remember_query-queried :
    (lib : LibraryPath) (d : Dyld)
    → IsConsistent d.queried_libraries
    → IsConsistent (remember_query lib d).queried_libraries
      × (has_pointer (address lib) (remember_query lib d).queried_libraries.libs ≡ true)
unfolding remember_query
remember_query-queried lib d c = elim (Bool-cases (has_registered_lib lib d.queried_libraries)) [
  | inl there ↦
      rw (remember_query, there)
        (c, sym (has_registered_lib-libs lib d.queried_libraries c) ∙ there)
  | inr new ↦
      let (c', e) = register-IsConsistent lib d.queried_libraries c new in
      rw (remember_query, new)
        (
          c',
          ap (has_pointer (address lib)) e
              ∙ has_pointer-append (address lib) (address lib) d.queried_libraries.libs
              ∙ ground (arith, (same_library_iff (address lib) (address lib)).1 refl),
        )
]

pub missing-length : (ps : List Pointer) (d : Dyld) → missing ps d ≤ length ps
missing-length [] d = omega arith
missing-length (p ∷ ps) d = ground (arith, missing-length ps d)

module _ (sc : Scanner) (cfg : Settings) (object_of : Str → Option ObjectFile) (sf_weak : ℕ)
    (hashed : cfg.use_hash_table ≡ true) where
  -- A query of a library in a state.
  remember_query-IsGood :
      (lib : LibraryPath) (d : Dyld)
      → IsGood sc cfg object_of sf_weak hashed d
      → IsGood sc cfg object_of sf_weak hashed (remember_query lib d)
  unfolding remember_query
  remember_query-IsGood lib d g = record {
    sound = record { users = g.sound.users; systems = g.sound.systems; apart = g.sound.apart };
    queried = (remember_query-queried lib d g.queried).0;
    users_ready = g.users_ready;
    systems_ready = g.systems_ready;
  }

  -- A call went well: its answer is the name of the library that is expected in the state after it,
  -- that library is queried, and those that were queried and are loaded are no longer the user's.
  pub record IsAnswer (m : DynamicLibraryManager) (name : Str) (search_system : Bool)
      (queried : List Pointer) (answer : Str) (d' : Dyld) : Type 0 where
    pub good : IsGood sc cfg object_of sf_weak hashed d'
    pub right :
        answer
        ≡ name_of sc cfg object_of sf_weak hashed
            (expected sc cfg object_of sf_weak hashed name search_system d')
    pub kept :
        Includes
          (expected sc cfg object_of sf_weak hashed name search_system d')
          d'.queried_libraries.libs
    pub gone : AreGone sc cfg object_of sf_weak hashed m queried d'

  -- How a call goes well.
  abbrev pub Answers :
      DynamicLibraryManager → Str → Bool → List Pointer → Option (Str × Dyld) → Type 0
  Answers m name search_system queried o =
      (answer : Str) × (d' : Dyld) × (o ≡ some (answer, d'))
      × IsAnswer m name search_system queried answer d'

  -- The first of the user's libraries that has the symbol, and the first of the system's.
  abbrev pub user_match : Str → Dyld → Option Pointer
  user_match name d =
      first_with (has cfg hashed sc.sys object_of name cfg.sf_undefined) d.libraries.libs

  abbrev pub system_match : Str → Dyld → Option Pointer
  system_match name d =
      first_with (has cfg hashed sc.sys object_of name (bit_or cfg.sf_undefined sf_weak))
        d.sys_libraries.libs

  pub expected_of :
      (name : Str) (search_system : Bool) (d : Dyld) (u s : Option Pointer)
      → user_match name d ≡ u
      → system_match name d ≡ s
      → expected sc cfg object_of sf_weak hashed name search_system d ≡ prefer u search_system s
  expected_of name search_system d u s e f = ap₂ (λ a b. prefer a search_system b) e f

  -- An answer with a library.
  pub IsAnswer-match :
      (m : DynamicLibraryManager) (name : Str) (search_system : Bool) (queried : List Pointer)
      (d : Dyld) (lib : LibraryPath)
      → IsGood sc cfg object_of sf_weak hashed d
      → expected sc cfg object_of sf_weak hashed name search_system d ≡ some (address lib)
      → AreGone sc cfg object_of sf_weak hashed m queried d
      → IsAnswer m name search_system queried
          (get_full_name sc.sys (address lib))
          (remember_query lib d)
  unfolding remember_query
  IsAnswer-match m name search_system queried d lib g e gone = record {
    good = remember_query-IsGood lib d g;
    right = sym (ap (name_of sc cfg object_of sf_weak hashed) e);
    kept =
        subst (λ o. Includes o (remember_query lib d).queried_libraries.libs) (sym e)
          (remember_query-queried lib d g.queried).1;
    gone = gone;
  }

  -- An answer without one.
  pub IsAnswer-nothing :
      (m : DynamicLibraryManager) (name : Str) (search_system : Bool) (queried : List Pointer)
      (d : Dyld)
      → IsGood sc cfg object_of sf_weak hashed d
      → expected sc cfg object_of sf_weak hashed name search_system d ≡ none
      → AreGone sc cfg object_of sf_weak hashed m queried d
      → IsAnswer m name search_system queried [] d
  IsAnswer-nothing m name search_system queried d g e gone = record {
    good = g;
    right = sym (ap (name_of sc cfg object_of sf_weak hashed) e);
    kept = subst (λ o. Includes o d.queried_libraries.libs) (sym e) tt;
    gone = gone;
  }

  module _ (bloom : cfg.use_bloom_filter ≡ true) (sized : (n : ℕ) → n ≢ 0 → cfg.table_size n ≢ 0)
      (name : Str) where
    pub asked_users :
        (d : Dyld) (r : LibraryPaths)
        → IsGood sc cfg object_of sf_weak hashed d
        → Keeps cfg hashed sc.sys object_of bloom sized name cfg.sf_undefined d.libraries r
        → IsGood sc cfg object_of sf_weak hashed (record d { libraries = r })
    asked_users d r g k = record {
      sound = record {
        users = k.consistent;
        systems = g.sound.systems;
        apart = λ p there. g.sound.apart p (sym (ap (has_pointer p) k.libs) ∙ there);
      };
      queried = g.queried;
      users_ready = k.all_ready;
      systems_ready = g.systems_ready;
    }

    pub asked_systems :
        (d : Dyld) (r : LibraryPaths)
        → IsGood sc cfg object_of sf_weak hashed d
        → Keeps cfg hashed sc.sys object_of bloom sized name
            (bit_or cfg.sf_undefined sf_weak)
            d.sys_libraries
            r
        → IsGood sc cfg object_of sf_weak hashed (record d { sys_libraries = r })
    asked_systems d r g k = record {
      sound = record {
        users = g.sound.users;
        systems = k.consistent;
        apart = λ p there. ap (has_pointer p) k.libs ∙ g.sound.apart p there;
      };
      queried = g.queried;
      users_ready = g.users_ready;
      systems_ready = k.all_ready;
    }

    -- The search through the system's libraries, after the user's had no match.
    pub answer_system-Answers :
        (m : DynamicLibraryManager) (queried : List Pointer) (d : Dyld) (o : Option Pointer)
        (found : SearchEnd)
        → IsGood sc cfg object_of sf_weak hashed d
        → user_match name d ≡ none
        → system_match name d ≡ o
        → AreGone sc cfg object_of sf_weak hashed m queried d
        → EndsWith cfg hashed sc.sys object_of bloom sized name
            (bit_or cfg.sf_undefined sf_weak)
            d.sys_libraries
            o
            found
        → Answers m name true queried (answer_system sc.sys d found)
    answer_system-Answers m queried d (some p) found g users e gone (lib, r, run, at, k) =
        rw (answer_system, run)
          (
            _,
            _,
            refl,
            IsAnswer-match m name true queried (record d { sys_libraries = r }) lib
                (asked_systems d r g k)
                (expected_of name true (record d { sys_libraries = r }) none (some p) users
                    (ap (first_with _) k.libs ∙ e)
                  ∙ ap some (sym at))
                gone,
          )
    answer_system-Answers m queried d none found g users e gone (r, run, k) =
        rw (answer_system, run)
          (
            _,
            _,
            refl,
            IsAnswer-nothing m name true queried (record d { sys_libraries = r })
                (asked_systems d r g k)
                (expected_of name true (record d { sys_libraries = r }) none none users
                  (ap (first_with _) k.libs ∙ e))
                gone,
          )
