-- ===== src/Symbols/Scan/Registration.antt =====
-- Symbols/Scan: a library that is registered, or registered and taken back, or dropped.
use mathlib.Core.List.{append-nil}
use cpp_inter_op.Common.{
  ◌≡◌, refl, sym, ap, ◌∙◌, Bool, true, false, ◌||◌, List, [], ◌∷◌, ◌++◌, arith, Bool-cases, inl,
  inr,
}
use cpp_inter_op.Symbols.Filter.{LibraryPath}
use cpp_inter_op.Symbols.Registry.{
  Pointer, address, same_library, LibraryPaths, register_lib, unregister_lib, erase_lib,
}
use cpp_inter_op.Symbols.Registry.Order.{
  has_pointer, without, has_pointer-without, addresses, IsConsistent, has_registered_lib-libs,
  register-IsConsistent, unregister-IsConsistent, has_pointer-append, without-last,
  same_library_iff,
}
use cpp_inter_op.Symbols.Scan.{Dyld, register_in, unregister_in}
use cpp_inter_op.Symbols.Scan.Growth.{
  IsSound, fresh, SameLibraries, Extends, Extends-same, is_known,
}

-- A registration, where the library is in neither registry.
record Registered (lib : LibraryPath) (r r' : LibraryPaths) : Type 0 where
  before : has_pointer (address lib) r.libs ≡ false
  consistent : IsConsistent r'
  libs : r'.libs ≡ r.libs ++ address lib ∷ []
  libs_h : r'.libs_h ≡ r.libs_h ++ lib ∷ []

register-Registered :
    (lib : LibraryPath) (r : LibraryPaths)
    → IsConsistent r
    → has_pointer (address lib) r.libs ≡ false
    → Registered lib r (register_lib lib r)
unfolding register_lib
register-Registered lib r c absent =
    let (c', e) = register-IsConsistent lib r c (has_registered_lib-libs lib r c ∙ absent) in
    record {
      before = absent;
      consistent = c';
      libs = e;
      libs_h = rw (has_registered_lib-libs lib r c, absent) refl;
    }

apart-Registered :
    (lib : LibraryPath) (r r' : LibraryPaths) (others : List Pointer) (p : Pointer)
    → Registered lib r r'
    → (has_pointer p r.libs ≡ true → has_pointer p others ≡ false)
    → has_pointer (address lib) others ≡ false
    → has_pointer p r'.libs ≡ true
    → has_pointer p others ≡ false
apart-Registered lib r r' others p reg apart absent e =
    let e1 : has_pointer p r'.libs ≡ (has_pointer p r.libs || same_library (address lib) p) =
      ap (has_pointer p) reg.libs ∙ has_pointer-append p (address lib) r.libs in
    elim (Bool-cases (same_library (address lib) p)) [
      | inl same ↦
          sym (ap (λ q. has_pointer q others) ((same_library_iff (address lib) p).0 same)) ∙ absent
      | inr other ↦ apart (ground (arith, e, e1, other))
    ]

-- If one list is apart from another, the other is apart from the one.
flip_apart :
    (p : Pointer) (xs ys : List Pointer)
    → (has_pointer p xs ≡ true → has_pointer p ys ≡ false)
    → has_pointer p ys ≡ true
    → has_pointer p xs ≡ false
flip_apart p xs ys apart e = elim (Bool-cases (has_pointer p xs)) [
  | inl there ↦ absurd (ground (arith, e, apart there))
  | inr absent ↦ absent
]

erase_lib-last :
    (lib : LibraryPath) (ls : List LibraryPath)
    → has_pointer (address lib) (addresses ls) ≡ false
    → erase_lib (address lib) (ls ++ lib ∷ []) ≡ ls
unfolding erase_lib
erase_lib-last lib [] absent = ground (arith, (same_library_iff (address lib) (address lib)).1 refl)
erase_lib-last lib (l ∷ ls) absent = ground (arith, erase_lib-last lib ls)

Registered-there :
    (lib : LibraryPath) (r r' : LibraryPaths)
    → Registered lib r r'
    → has_pointer (address lib) r'.libs ≡ true
Registered-there lib r r' reg =
    ap (has_pointer (address lib)) reg.libs
    ∙ has_pointer-append (address lib) (address lib) r.libs
    ∙ ground (arith, (same_library_iff (address lib) (address lib)).1 refl)

-- A registration that is taken back.
unregister-register :
    (lib : LibraryPath) (r : LibraryPaths)
    → IsConsistent r
    → has_pointer (address lib) r.libs ≡ false
    → IsConsistent (unregister_lib lib (register_lib lib r))
      × SameLibraries r (unregister_lib lib (register_lib lib r))
unfolding unregister_lib
unregister-register lib r c absent =
    let reg = register-Registered lib r c absent in
    let (c', e) = unregister-IsConsistent lib (register_lib lib r) reg.consistent in
    let there =
      has_registered_lib-libs lib (register_lib lib r) reg.consistent
      ∙ Registered-there lib r (register_lib lib r) reg in
    let absent_h = ap (has_pointer (address lib)) c.same ∙ absent in
    (
      c',
      (
        e ∙ ap (without (address lib)) reg.libs ∙ without-last (address lib) r.libs absent,
        rw (unregister_lib, there)
            (ap (erase_lib (address lib)) reg.libs_h ∙ erase_lib-last lib r.libs_h absent_h),
      ),
    )

known_parts :
    (p : Pointer) (d : Dyld)
    → is_known p d ≡ false
    → (has_pointer p d.sys_libraries.libs ≡ false) × (has_pointer p d.libraries.libs ≡ false)
known_parts p d e = (ground (arith, e), ground (arith, e))

pub register_in_lem :
    (search_system : Bool) (lib : LibraryPath) (d : Dyld)
    → IsSound d
    → is_known (address lib) d ≡ false
    → lib ≡ fresh (address lib)
    → IsSound (register_in search_system lib d)
      × Extends search_system d (register_in search_system lib d)
      × (is_known (address lib) (register_in search_system lib d) ≡ true)
unfolding register_in
register_in_lem true lib d s e unread =
    let (absent_sys, absent) = known_parts (address lib) d e in
    let reg = register-Registered lib d.sys_libraries s.systems absent_sys in
    (
      record {
        users = s.users;
        systems = reg.consistent;
        apart = λ p. flip_apart p _ d.libraries.libs (
            apart-Registered lib d.sys_libraries _ d.libraries.libs p reg
              (flip_apart p d.libraries.libs d.sys_libraries.libs (s.apart p)) absent);
      },
      record {
        added = [];
        added_sys = address lib ∷ [];
        libraries = sym (append-nil d.libraries.libs);
        sys_libraries = reg.libs;
        libraries_h = sym (append-nil d.libraries.libs_h);
        sys_libraries_h = reg.libs_h ∙ ap (λ l. d.sys_libraries.libs_h ++ l ∷ []) unread;
        untouched = refl;
        queried = refl;
      },
      ground (arith, Registered-there lib d.sys_libraries _ reg),
    )
register_in_lem false lib d s e unread =
    let (absent_sys, absent) = known_parts (address lib) d e in
    let reg = register-Registered lib d.libraries s.users absent in
    (
      record {
        users = reg.consistent;
        systems = s.systems;
        apart = λ p.
            apart-Registered lib d.libraries _ d.sys_libraries.libs p reg (s.apart p) absent_sys;
      },
      record {
        added = address lib ∷ [];
        added_sys = [];
        libraries = reg.libs;
        sys_libraries = sym (append-nil d.sys_libraries.libs);
        libraries_h = reg.libs_h ∙ ap (λ l. d.libraries.libs_h ++ l ∷ []) unread;
        sys_libraries_h = sym (append-nil d.sys_libraries.libs_h);
        untouched = refl;
        queried = refl;
      },
      ground (arith, Registered-there lib d.libraries _ reg),
    )

pub unregister_in-register_in :
    (search_system : Bool) (lib : LibraryPath) (d : Dyld)
    → IsSound d
    → is_known (address lib) d ≡ false
    → IsSound (unregister_in search_system lib (register_in search_system lib d))
      × Extends search_system d (unregister_in search_system lib (register_in search_system lib d))
unfolding register_in unregister_in
unregister_in-register_in true lib d s e =
    let (absent_sys, absent) = known_parts (address lib) d e in
    let (c', same) = unregister-register lib d.sys_libraries s.systems absent_sys in
    (
      record {
        users = s.users;
        systems = c';
        apart = λ p h. ap (has_pointer p) same.0 ∙ s.apart p h;
      },
      Extends-same (refl, refl) same refl,
    )
unregister_in-register_in false lib d s e =
    let (absent_sys, absent) = known_parts (address lib) d e in
    let (c', same) = unregister-register lib d.libraries s.users absent in
    (
      record {
        users = c';
        systems = s.systems;
        apart = λ p h. s.apart p (sym (ap (has_pointer p) same.0) ∙ h);
      },
      Extends-same same (refl, refl) refl,
    )

-- The loaded libraries are dropped from both registries.
has_pointer-less :
    (p q : Pointer) (ps : List Pointer)
    → has_pointer p (without q ps) ≡ true
    → has_pointer p ps ≡ true
has_pointer-less p q ps e = elim (Bool-cases (has_pointer p ps)) [
  | inl there ↦ there
  | inr absent ↦ absurd (ground (arith, e, has_pointer-without p q ps absent))
]

pub unregister-IsSound :
    (lib : LibraryPath) (d : Dyld)
    → IsSound d
    → IsSound (record d {
      libraries = unregister_lib lib d.libraries;
      sys_libraries = unregister_lib lib d.sys_libraries;
    })
unregister-IsSound lib d s =
    let (users, e) = unregister-IsConsistent lib d.libraries s.users in
    let (systems, f) = unregister-IsConsistent lib d.sys_libraries s.systems in
    record {
      users = users;
      systems = systems;
      apart = λ p there.
          ap (has_pointer p) f
          ∙ has_pointer-without p (address lib) d.sys_libraries.libs (
              s.apart p (
                has_pointer-less p (address lib) d.libraries.libs
                  (sym (ap (has_pointer p) e) ∙ there)));
    }
