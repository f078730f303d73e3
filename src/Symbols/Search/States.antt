-- ===== src/Symbols/Search/States.antt =====
-- Symbols/Search: the state between calls, and the libraries that are dropped from it.
use mathlib.Core.Path.{subst}
use cpp_inter_op.Common.{
  ℕ, ◌≡◌, refl, sym, ap, ◌∙◌, Bool, true, false, List, [], ◌∷◌, Option, none, some, if◌then◌else◌,
  bit_or, Str, arith, Bool-cases, inl, inr, both-branches,
}
use cpp_inter_op.Libraries.Manager.{DynamicLibraryManager}
use cpp_inter_op.Libraries.Loading.{is_library_loaded}
use cpp_inter_op.Symbols.Filter.{LibraryPath}
use cpp_inter_op.Symbols.Registry.{
  Pointer, address, same_library, LibraryPaths, has_registered_lib, erase_lib, unregister_lib,
}
use cpp_inter_op.Symbols.Registry.Order.{
  has_pointer, without, IsConsistent, unregister-IsConsistent, same_library_iff,
  has_pointer-without,
}
use cpp_inter_op.Symbols.Contents.{ObjectFile, Settings}
use cpp_inter_op.Symbols.Scan.{Dyld, Scanner, new_library_path}
use cpp_inter_op.Symbols.Scan.Growth.{IsSound, Extends, fresh}
use cpp_inter_op.Symbols.Scan.Registration.{unregister-IsSound}
use cpp_inter_op.Symbols.Search.{get_full_name, drop_loaded}
use cpp_inter_op.Symbols.Search.Matches.{first_with, has, AllReady, AllReady-fresh}

-- The first library that has the symbol, the user's before the system's if those are searched.
abbrev pub prefer : Option Pointer → Bool → Option Pointer → Option Pointer
prefer (some p) search_system system = some p
prefer none search_system system = if search_system then system else none

-- What is assumed of the files, the settings, and of the split of texts.
module _ (sc : Scanner) (cfg : Settings) (object_of : Str → Option ObjectFile) (sf_weak : ℕ)
    (hashed : cfg.use_hash_table ≡ true) where
  abbrev pub user_flags : ℕ
  user_flags = cfg.sf_undefined

  abbrev pub system_flags : ℕ
  system_flags = bit_or cfg.sf_undefined sf_weak

  -- The state between calls.
  pub record IsGood (d : Dyld) : Type 0 where
    pub sound : IsSound d
    pub queried : IsConsistent d.queried_libraries
    pub users_ready : AllReady cfg hashed sc.sys object_of user_flags d.libraries.libs_h
    pub systems_ready : AllReady cfg hashed sc.sys object_of system_flags d.sys_libraries.libs_h

  abbrev pub expected : Str → Bool → Dyld → Option Pointer
  expected name search_system d =
      prefer (first_with (has cfg hashed sc.sys object_of name user_flags) d.libraries.libs)
        search_system
        (first_with (has cfg hashed sc.sys object_of name system_flags) d.sys_libraries.libs)

  abbrev pub name_of : Option Pointer → Str
  name_of none = []
  name_of (some p) = get_full_name sc.sys p

  pub Extends-IsGood :
      (search_system : Bool) (d d' : Dyld)
      → IsGood d
      → IsSound d'
      → Extends search_system d d'
      → IsGood d'
  Extends-IsGood search_system d d' g s x = record {
    sound = s;
    queried = subst IsConsistent (sym x.queried) g.queried;
    users_ready = subst (AllReady cfg hashed sc.sys object_of user_flags) (sym x.libraries_h) (
        AllReady-fresh cfg hashed sc.sys object_of user_flags d.libraries.libs_h x.added
          g.users_ready);
    systems_ready =
        subst (AllReady cfg hashed sc.sys object_of system_flags) (sym x.sys_libraries_h) (
          AllReady-fresh cfg hashed sc.sys object_of system_flags d.sys_libraries.libs_h x.added_sys
            g.systems_ready);
  }

  AllReady-erase :
      (ignore : ℕ) (p : Pointer) (ls : List LibraryPath)
      → AllReady cfg hashed sc.sys object_of ignore ls
      → AllReady cfg hashed sc.sys object_of ignore (erase_lib p ls)
  unfolding erase_lib
  AllReady-erase ignore p [] all = tt
  AllReady-erase ignore p (l ∷ ls) all = elim (Bool-cases (same_library (address l) p)) [
    | inl same ↦ rw (erase_lib, same) all.1
    | inr other ↦ rw (erase_lib, other) (all.0, AllReady-erase ignore p ls all.1)
  ]

  AllReady-unregister :
      (ignore : ℕ) (lib : LibraryPath) (r : LibraryPaths)
      → AllReady cfg hashed sc.sys object_of ignore r.libs_h
      → AllReady cfg hashed sc.sys object_of ignore (unregister_lib lib r).libs_h
  unfolding unregister_lib
  AllReady-unregister ignore lib r all =
      both-branches (λ k. AllReady cfg hashed sc.sys object_of ignore (LibraryPaths.libs_h k))
        (has_registered_lib lib r) _ _ (AllReady-erase ignore (address lib) r.libs_h all) all

  dropped : LibraryPath → Dyld → Dyld
  dropped lib d = record d {
    libraries = unregister_lib lib d.libraries;
    sys_libraries = unregister_lib lib d.sys_libraries;
  }

  dropped-IsGood : (lib : LibraryPath) (d : Dyld) → IsGood d → IsGood (dropped lib d)
  unfolding dropped
  dropped-IsGood lib d g = record {
    sound = unregister-IsSound lib d g.sound;
    queried = g.queried;
    users_ready = AllReady-unregister user_flags lib d.libraries g.users_ready;
    systems_ready = AllReady-unregister system_flags lib d.sys_libraries g.systems_ready;
  }

  -- Some libraries that are loaded are no longer the user's.
  abbrev pub AreGone : DynamicLibraryManager → List Pointer → Dyld → Type 0
  AreGone m ps d =
      (p : Pointer)
      → has_pointer p ps ≡ true
      → is_library_loaded sc.sys m (get_full_name sc.sys p) ≡ true
      → has_pointer p d.libraries.libs ≡ false

  pub record Drops (m : DynamicLibraryManager) (ps : List Pointer) (d d' : Dyld) : Type 0 where
    pub good : IsGood d'
    pub gone : AreGone m ps d'
    pub less :
        (p : Pointer)
        → has_pointer p d.libraries.libs ≡ false
        → has_pointer p d'.libraries.libs ≡ false
    pub queried : d'.queried_libraries ≡ d.queried_libraries

  has_pointer-removed : (p : Pointer) (ps : List Pointer) → has_pointer p (without p ps) ≡ false
  has_pointer-removed p [] = refl
  has_pointer-removed p (q ∷ ps) = ground (arith, has_pointer-removed p ps)

  module _ (m : DynamicLibraryManager) where
    Drops-first :
        (p : Pointer) (ps : List Pointer) (d d1 d' : Dyld)
        → ((q : Pointer)
            → has_pointer q d.libraries.libs ≡ false
            → has_pointer q d1.libraries.libs ≡ false)
        → (is_library_loaded sc.sys m (get_full_name sc.sys p) ≡ true
            → has_pointer p d1.libraries.libs ≡ false)
        → d1.queried_libraries ≡ d.queried_libraries
        → Drops m ps d1 d'
        → Drops m (p ∷ ps) d d'
    Drops-first p ps d d1 d' less gone queried drops = record {
      good = drops.good;
      gone = λ q there loaded. elim (Bool-cases (same_library p q)) [
        | inl same ↦
            let e = (same_library_iff p q).0 same in
            drops.less q (
              subst (λ r. has_pointer r d1.libraries.libs ≡ false) e
                (gone (ap (λ r. is_library_loaded sc.sys m (get_full_name sc.sys r)) e ∙ loaded)))
        | inr other ↦ drops.gone q (ground (arith, there, other)) loaded
      ];
      less = λ q absent. drops.less q (less q absent);
      queried = drops.queried ∙ queried;
    }

    pub drop_loaded-Drops :
        (ps : List Pointer) (d : Dyld) → IsGood d → Drops m ps d (drop_loaded sc.sys m ps d)
    unfolding drop_loaded dropped new_library_path
    drop_loaded-Drops [] d g = record {
      good = g;
      gone = λ p there loaded. absurd (ground (arith, there));
      less = λ p absent. absent;
      queried = refl;
    }
    drop_loaded-Drops (p ∷ ps) d g =
        elim (Bool-cases (is_library_loaded sc.sys m (get_full_name sc.sys p))) [
          | inl loaded ↦
              let d1 = dropped (fresh p) d in
              let (_, e) = unregister-IsConsistent (fresh p) d.libraries g.sound.users in
              rw (drop_loaded, loaded)
                (Drops-first p ps d d1 _
                  (λ q absent.
                    ap (has_pointer q) e ∙ has_pointer-without q p d.libraries.libs absent)
                  (λ _. ap (has_pointer p) e ∙ has_pointer-removed p d.libraries.libs) refl
                  (drop_loaded-Drops ps d1 (dropped-IsGood (fresh p) d g)))
          | inr unloaded ↦
              rw (drop_loaded, unloaded)
                (Drops-first p ps d d _ (λ q absent. absent)
                  (λ loaded. absurd (ground (arith, loaded, unloaded))) refl
                  (drop_loaded-Drops ps d g))
        ]
