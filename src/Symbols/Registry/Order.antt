-- ===== src/Symbols/Registry/Order.antt =====
-- Symbols/Registry: what is registered after a history of calls, and in which order.
use mathlib.Core.Path.{subst}
use cpp_inter_op.Common.{
  ◌↔◌, ◌≡◌, refl, sym, ap, ◌∙◌, Bool, true, false, ◌||◌, List, [], ◌∷◌, ◌++◌, map, none, some,
  if◌then◌else◌, str_eq_iff, arith, Bool-cases, inl, inr,
}
use cpp_inter_op.Symbols.Filter.{LibraryPath}
use cpp_inter_op.Symbols.Registry.{
  Pointer, address, same_library, LibraryPaths, find_lib, get_registered_lib, has_registered_lib,
  register_lib, erase_pointer, erase_lib, unregister_lib, get_libraries,
}

abbrev pub addresses : List LibraryPath → List Pointer
addresses ls = map address ls

abbrev pub has_pointer : Pointer → List Pointer → Bool
has_pointer p [] = false
has_pointer p (q ∷ qs) = same_library q p || has_pointer p qs

-- The pointers of a list without one.
abbrev pub without : Pointer → List Pointer → List Pointer
without p [] = []
without p (q ∷ qs) = let rest = without p qs in if same_library q p then rest else q ∷ rest

abbrev pub AreDistinct : List Pointer → Type 0
AreDistinct [] = Unit
AreDistinct (p ∷ ps) = (has_pointer p ps ≡ false) × AreDistinct ps

-- A library is registered where it is not yet, as all callers do, or unregistered.
pub data Command : Type 0 where
  register unregister : LibraryPath → Command

unfoldable pub step : Command → LibraryPaths → LibraryPaths
step (register lib) r = if has_registered_lib lib r then r else register_lib lib r
step (unregister lib) r = unregister_lib lib r

unfoldable pub run : List Command → LibraryPaths → LibraryPaths
run [] r = r
run (c ∷ cs) r = run cs (step c r)

-- The order that the calls ask for.
abbrev pub ordered : List Command → List Pointer → List Pointer
ordered [] ps = ps
ordered (register lib ∷ cs) ps =
    ordered cs (if has_pointer (address lib) ps then ps else ps ++ address lib ∷ [])
ordered (unregister lib ∷ cs) ps = ordered cs (without (address lib) ps)

-- The vector and the set hold the same libraries, each once.
pub record IsConsistent (r : LibraryPaths) : Type 0 where
  pub distinct : AreDistinct r.libs
  pub same : addresses r.libs_h ≡ r.libs

has_pointer-addresses :
    (p : Pointer) (ls : List LibraryPath)
    → (elim (find_lib p ls) [ none ↦ false | some l ↦ true ]) ≡ has_pointer p (addresses ls)
unfolding find_lib
has_pointer-addresses p [] = refl
has_pointer-addresses p (l ∷ ls) = ground (arith, has_pointer-addresses p ls)

pub has_registered_lib-libs :
    (lib : LibraryPath) (r : LibraryPaths)
    → IsConsistent r
    → has_registered_lib lib r ≡ has_pointer (address lib) r.libs
unfolding has_registered_lib get_registered_lib
has_registered_lib-libs lib r c =
    has_pointer-addresses (address lib) r.libs_h ∙ ap (has_pointer (address lib)) c.same

addresses-append :
    (ls : List LibraryPath) (l : LibraryPath)
    → addresses (ls ++ l ∷ []) ≡ addresses ls ++ address l ∷ []
addresses-append [] l = refl
addresses-append (k ∷ ls) l = ap (λ r. address k ∷ r) (addresses-append ls l)

addresses-erase :
    (p : Pointer) (ls : List LibraryPath)
    → addresses (erase_lib p ls) ≡ erase_pointer p (addresses ls)
unfolding erase_lib erase_pointer
addresses-erase p [] = refl
addresses-erase p (l ∷ ls) = ground (arith, addresses-erase p ls)

pointer_path : (p q : Pointer) → p.path ≡ q.path → p.lib_name ≡ q.lib_name → p ≡ q
pointer_path p q e f = λ i. record { path = e i; lib_name = f i }

pub same_library_iff : (p q : Pointer) → (same_library p q ≡ true) ↔ (p ≡ q)
unfolding same_library
same_library_iff p q =
    let (path_to, path_from) = str_eq_iff p.path q.path in
    let (name_to, name_from) = str_eq_iff p.lib_name q.lib_name in
    (
      λ e. pointer_path p q (path_to (ground (arith, e))) (name_to (ground (arith, e))),
      λ e. ground (
        arith,
        path_from (ap (λ (r : Pointer). r.path) e),
        name_from (ap (λ (r : Pointer). r.lib_name) e),
      ),
    )

pub has_pointer-append :
    (p q : Pointer) (ps : List Pointer)
    → has_pointer p (ps ++ q ∷ []) ≡ (has_pointer p ps || same_library q p)
has_pointer-append p q [] = ground arith
has_pointer-append p q (r ∷ ps) = ground (arith, has_pointer-append p q ps)

same_library_comm : (p q : Pointer) → same_library p q ≡ true → same_library q p ≡ true
same_library_comm p q e = (same_library_iff q p).1 (sym ((same_library_iff p q).0 e))

AreDistinct-append :
    (p : Pointer) (ps : List Pointer)
    → AreDistinct ps
    → has_pointer p ps ≡ false
    → AreDistinct (ps ++ p ∷ [])
AreDistinct-append p [] d h = ground arith
AreDistinct-append p (q ∷ ps) d h =
    ground (arith, has_pointer-append q p ps, same_library_comm p q, AreDistinct-append p ps)

pub without-absent :
    (p : Pointer) (ps : List Pointer) → has_pointer p ps ≡ false → without p ps ≡ ps
without-absent p [] h = refl
without-absent p (q ∷ ps) h = ground (arith, without-absent p ps)

pub without-last :
    (p : Pointer) (ps : List Pointer) → has_pointer p ps ≡ false → without p (ps ++ p ∷ []) ≡ ps
without-last p [] h = ground (arith, (same_library_iff p p).1 refl)
without-last p (q ∷ ps) h = ground (arith, without-last p ps)

erase_pointer-without :
    (p : Pointer) (ps : List Pointer) → AreDistinct ps → erase_pointer p ps ≡ without p ps
unfolding erase_pointer
erase_pointer-without p [] d = refl
erase_pointer-without p (q ∷ ps) d = elim (Bool-cases (same_library q p)) [
  | inl e ↦
      let absent : has_pointer p ps ≡ false =
        sym (ap (λ r. has_pointer r ps) ((same_library_iff q p).0 e)) ∙ d.0 in
      ground (arith, e, without-absent p ps absent)
  | inr e ↦ ground (arith, e, erase_pointer-without p ps)
]

pub has_pointer-without :
    (p q : Pointer) (ps : List Pointer)
    → has_pointer p ps ≡ false
    → has_pointer p (without q ps) ≡ false
has_pointer-without p q [] h = refl
has_pointer-without p q (r ∷ ps) h = ground (arith, has_pointer-without p q ps)

AreDistinct-without :
    (q : Pointer) (ps : List Pointer) → AreDistinct ps → AreDistinct (without q ps)
AreDistinct-without q [] d = d
AreDistinct-without q (p ∷ ps) d =
    ground (arith, has_pointer-without p q ps, AreDistinct-without q ps)

pub register-IsConsistent :
    (lib : LibraryPath) (r : LibraryPaths)
    → IsConsistent r
    → has_registered_lib lib r ≡ false
    → IsConsistent (register_lib lib r) × ((register_lib lib r).libs ≡ r.libs ++ address lib ∷ [])
unfolding register_lib
register-IsConsistent lib r c new = (
  record {
    distinct =
        AreDistinct-append (address lib) r.libs c.distinct
          (sym (has_registered_lib-libs lib r c) ∙ new);
    same = rw (new) (addresses-append r.libs_h lib ∙ ap (λ ps. ps ++ address lib ∷ []) c.same);
  },
  refl,
)

pub unregister-IsConsistent :
    (lib : LibraryPath) (r : LibraryPaths)
    → IsConsistent r
    → IsConsistent (unregister_lib lib r)
      × ((unregister_lib lib r).libs ≡ without (address lib) r.libs)
unfolding unregister_lib
unregister-IsConsistent lib r c =
    let erased = erase_pointer-without (address lib) r.libs c.distinct in
    elim (Bool-cases (has_registered_lib lib r)) [
      | inl there ↦
          rw (unregister_lib, there)
            (
              record {
                distinct =
                    subst AreDistinct (sym erased)
                      (AreDistinct-without (address lib) r.libs c.distinct);
                same =
                    addresses-erase (address lib) r.libs_h
                    ∙ ap (erase_pointer (address lib)) c.same;
              },
              erased,
            )
      | inr absent ↦
          rw (unregister_lib, absent)
            (
              c,
              sym (
                  without-absent (address lib) r.libs
                    (sym (has_registered_lib-libs lib r c) ∙ absent)),
            )
    ]

-- After any history of registrations, made where the library is not registered yet, and
-- unregistrations, the iteration is over exactly the libraries registered and not unregistered
-- since, in the order of their registration; the vector and the set hold the same libraries, each
-- once; and a library counts as registered exactly if the iteration meets it. It is enough
-- that the vector and the set agreed before.
pub run-ordered :
    (cs : List Command) (r : LibraryPaths)
    → IsConsistent r
    → IsConsistent (run cs r)
      × (get_libraries (run cs r) ≡ ordered cs (get_libraries r))
      × ((lib : LibraryPath)
          → has_registered_lib lib (run cs r)
            ≡ has_pointer (address lib) (get_libraries (run cs r)))
unfolding run step get_libraries
run-ordered [] r c = (c, refl, λ lib. has_registered_lib-libs lib r c)
run-ordered (register lib ∷ cs) r c = elim (Bool-cases (has_registered_lib lib r)) [
  | inl there ↦
      let e = sym (has_registered_lib-libs lib r c) ∙ there in
      rw (run, step, there, e) (run-ordered cs r c)
  | inr absent ↦
      let e = sym (has_registered_lib-libs lib r c) ∙ absent in
      let (c', libs) = register-IsConsistent lib r c absent in
      let (c'', order, has) = run-ordered cs (register_lib lib r) c' in
      rw (run, step, absent, e) (c'', order ∙ ap (ordered cs) libs, has)
]
run-ordered (unregister lib ∷ cs) r c =
    let (c', e) = unregister-IsConsistent lib r c in
    let (c'', order, has) = run-ordered cs (unregister_lib lib r) c' in
    (c'', order ∙ ap (ordered cs) e, has)
