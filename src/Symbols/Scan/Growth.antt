-- ===== src/Symbols/Scan/Growth.antt =====
-- Symbols/Scan: what a scan does to the two registries.
use mathlib.Core.Path.{ap₂}
use mathlib.Core.List.{append-nil, append_assoc}
use cpp_inter_op.Common.{
  ◌≡◌, refl, sym, ap, ◌∙◌, Bool, true, false, ◌||◌, List, [], ◌∷◌, ◌++◌, map, Option, some, arith,
}
use cpp_inter_op.Symbols.Filter.{LibraryPath}
use cpp_inter_op.Symbols.Registry.{Pointer, address, LibraryPaths}
use cpp_inter_op.Symbols.Registry.Order.{has_pointer, IsConsistent, has_registered_lib-libs}
use cpp_inter_op.Symbols.Scan.{Dyld, new_library_path, is_handled}

-- Both registries are in order, and no library is in both.
pub record IsSound (d : Dyld) : Type 0 where
  pub users : IsConsistent d.libraries
  pub systems : IsConsistent d.sys_libraries
  pub apart :
      (p : Pointer)
      → has_pointer p d.libraries.libs ≡ true
      → has_pointer p d.sys_libraries.libs ≡ false

-- A library of which nothing is read.
abbrev pub fresh : Pointer → LibraryPath
fresh p = new_library_path p.path p.lib_name

-- A search of the one kind adds nothing to the other registry.
abbrev pub Untouched : Bool → List Pointer → List Pointer → Type 0
Untouched true added added_sys = added ≡ []
Untouched false added added_sys = added_sys ≡ []

Untouched-nothing : (search_system : Bool) → Untouched search_system [] []
Untouched-nothing true = refl
Untouched-nothing false = refl

Untouched-more :
    (search_system : Bool) (x y x' y' : List Pointer)
    → Untouched search_system x y
    → Untouched search_system x' y'
    → Untouched search_system (x ++ x') (y ++ y')
Untouched-more true x y x' y' e f = ap₂ (λ a b. a ++ b) e f
Untouched-more false x y x' y' e f = ap₂ (λ a b. a ++ b) e f

-- Each registry has what it had, in its order, and then libraries of which nothing is read; the
-- queries are the same.
pub record Extends (search_system : Bool) (d d' : Dyld) : Type 0 where
  pub added : List Pointer
  pub added_sys : List Pointer
  pub libraries : d'.libraries.libs ≡ d.libraries.libs ++ added
  pub sys_libraries : d'.sys_libraries.libs ≡ d.sys_libraries.libs ++ added_sys
  pub libraries_h : d'.libraries.libs_h ≡ d.libraries.libs_h ++ map fresh added
  pub sys_libraries_h : d'.sys_libraries.libs_h ≡ d.sys_libraries.libs_h ++ map fresh added_sys
  pub untouched : Untouched search_system added added_sys
  pub queried : d'.queried_libraries ≡ d.queried_libraries

abbrev pub SameLibraries : LibraryPaths → LibraryPaths → Type 0
SameLibraries r r' = (r'.libs ≡ r.libs) × (r'.libs_h ≡ r.libs_h)

pub Extends-same :
    {search_system : Bool} {d d' : Dyld}
    → SameLibraries d.libraries d'.libraries
    → SameLibraries d.sys_libraries d'.sys_libraries
    → d'.queried_libraries ≡ d.queried_libraries
    → Extends search_system d d'
Extends-same {search_system = search_system} {d = d} (e, e_h) (f, f_h) g = record {
  added = [];
  added_sys = [];
  libraries = e ∙ sym (append-nil d.libraries.libs);
  sys_libraries = f ∙ sym (append-nil d.sys_libraries.libs);
  libraries_h = e_h ∙ sym (append-nil d.libraries.libs_h);
  sys_libraries_h = f_h ∙ sym (append-nil d.sys_libraries.libs_h);
  untouched = Untouched-nothing search_system;
  queried = g;
}

append_twice :
    (a : List Pointer) {b c : List Pointer} (x y : List Pointer)
    → b ≡ a ++ x
    → c ≡ b ++ y
    → c ≡ a ++ (x ++ y)
append_twice a x y e f = f ∙ ap (λ r. r ++ y) e ∙ append_assoc a x y

map-append : (x y : List Pointer) → map fresh (x ++ y) ≡ map fresh x ++ map fresh y
map-append [] y = refl
map-append (p ∷ x) y = ap (λ ls. fresh p ∷ ls) (map-append x y)

append_fresh :
    (a : List LibraryPath) {b c : List LibraryPath} (x y : List Pointer)
    → b ≡ a ++ map fresh x
    → c ≡ b ++ map fresh y
    → c ≡ a ++ map fresh (x ++ y)
append_fresh a x y e f =
    f
    ∙ ap (λ r. r ++ map fresh y) e
    ∙ append_assoc a (map fresh x) (map fresh y)
    ∙ ap (λ r. a ++ r) (sym (map-append x y))

pub Extends-trans :
    {search_system : Bool} {c d e : Dyld}
    → Extends search_system c d
    → Extends search_system d e
    → Extends search_system c e
Extends-trans {search_system = search_system} {c = c} x y = record {
  added = x.added ++ y.added;
  added_sys = x.added_sys ++ y.added_sys;
  libraries = append_twice c.libraries.libs x.added y.added x.libraries y.libraries;
  sys_libraries =
      append_twice c.sys_libraries.libs x.added_sys y.added_sys x.sys_libraries y.sys_libraries;
  libraries_h = append_fresh c.libraries.libs_h x.added y.added x.libraries_h y.libraries_h;
  sys_libraries_h =
      append_fresh c.sys_libraries.libs_h x.added_sys y.added_sys x.sys_libraries_h
        y.sys_libraries_h;
  untouched =
      Untouched-more search_system x.added x.added_sys y.added y.added_sys x.untouched y.untouched;
  queried = y.queried ∙ x.queried;
}

-- How a step of the scan goes well.
abbrev pub Ends : Bool → Dyld → Option Dyld → Type 0
Ends search_system d o = (d' : Dyld) × (o ≡ some d') × IsSound d' × Extends search_system d d'

-- Whether a library is in one of the registries.
abbrev pub is_known : Pointer → Dyld → Bool
is_known p d = has_pointer p d.sys_libraries.libs || has_pointer p d.libraries.libs

pub is_handled-known :
    (lib : LibraryPath) (d : Dyld) → IsSound d → is_handled lib d ≡ is_known (address lib) d
unfolding is_handled
is_handled-known lib d s =
    rw
      (
        is_handled,
        has_registered_lib-libs lib d.sys_libraries s.systems,
        has_registered_lib-libs lib d.libraries s.users,
      )
      refl

has_pointer-both :
    (p : Pointer) (xs ys : List Pointer)
    → has_pointer p (xs ++ ys) ≡ (has_pointer p xs || has_pointer p ys)
has_pointer-both p [] ys = refl
has_pointer-both p (x ∷ xs) ys = ground (arith, has_pointer-both p xs ys)

pub is_known-Extends :
    {search_system : Bool} {d d' : Dyld} (p : Pointer)
    → Extends search_system d d'
    → is_known p d ≡ true
    → is_known p d' ≡ true
is_known-Extends {d = d} {d' = d'} p x e =
    let e1 : has_pointer p d'.libraries.libs
        ≡ (has_pointer p d.libraries.libs || has_pointer p x.added) =
      ap (has_pointer p) x.libraries ∙ has_pointer-both p d.libraries.libs x.added in
    let e2 : has_pointer p d'.sys_libraries.libs
        ≡ (has_pointer p d.sys_libraries.libs || has_pointer p x.added_sys) =
      ap (has_pointer p) x.sys_libraries ∙ has_pointer-both p d.sys_libraries.libs x.added_sys in
    ground (arith, e, e1, e2)
