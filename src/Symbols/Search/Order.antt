-- ===== src/Symbols/Search/Order.antt =====
-- Symbols/Search: the answers of searchLibrariesForSymbol.
use mathlib.Core.Path.{subst}
use mathlib.Core.List.{append-nil}
use cpp_inter_op.Common.{
  ℕ, ◌<◌, ◌≡◌, ◌≢◌, refl, sym, ap, ◌∙◌, Bool, true, false, List, ◌++◌, Option, none, some, bit_or,
  Str, length, arith, Bool-cases, inl, inr, if_true,
}
use cpp_inter_op.Paths.Split.Pieces.{IsSplit}
use cpp_inter_op.Libraries.Manager.{DynamicLibraryManager}
use cpp_inter_op.Symbols.Registry.{Pointer, LibraryPaths, get_libraries}
use cpp_inter_op.Symbols.Registry.Order.{has_pointer}
use cpp_inter_op.Symbols.Contents.{ObjectFile, Settings}
use cpp_inter_op.Symbols.Scan.{Dyld, Scanner, scan_for_libraries}
use cpp_inter_op.Symbols.Scan.Growth.{Extends}
use cpp_inter_op.Symbols.Scan.Totality.{IsReadable, AreAll, scan_for_libraries-Ends}
use cpp_inter_op.Symbols.Search.{
  get_full_name, scanned_users, scanned_system, SearchEnd, find_match, drop_loaded,
  search_system_libraries, first_scan, first_system_scan, answer_user, search_libraries,
  search_libraries_for_symbol,
}
use cpp_inter_op.Symbols.Search.Matches.{first_with, IsAskable, EndsWith, find_match_lem}
use cpp_inter_op.Symbols.Search.States.{IsGood, Extends-IsGood, AreGone, drop_loaded-Drops}
use cpp_inter_op.Symbols.Search.Answers.{
  missing-length, IsAnswer, Answers, user_match, system_match, expected_of, IsAnswer-match,
  IsAnswer-nothing, asked_users, answer_system-Answers,
}

module _ (sc : Scanner) (split_fuel : ℕ) (cfg : Settings) (object_of : Str → Option ObjectFile)
    (sf_weak : ℕ) (hashed : cfg.use_hash_table ≡ true) (bloom : cfg.use_bloom_filter ≡ true)
    (sized : (n : ℕ) → n ≢ 0 → cfg.table_size n ≢ 0) (name : Str) where
  module _ (laws : IsSplit sc.fs.split) (m : DynamicLibraryManager) (files : List Pointer)
      (all : AreAll sc m files) (readable : (f : Str) → IsReadable split_fuel (sc.bin_obj f))
      (fuel : ℕ) (room : length files < fuel)
      (askable_user : (p : Pointer)
        → IsAskable cfg hashed sc.sys object_of name cfg.sf_undefined
            (object_of (get_full_name sc.sys p)))
      (askable_system : (p : Pointer)
        → IsAskable cfg hashed sc.sys object_of name
            (bit_or cfg.sf_undefined sf_weak)
            (object_of (get_full_name sc.sys p))) where
    search_system_libraries-Answers :
        (queried : List Pointer) (d : Dyld)
        → IsGood sc cfg object_of sf_weak hashed d
        → user_match sc cfg object_of sf_weak hashed name d ≡ none
        → AreGone sc cfg object_of sf_weak hashed m queried d
        → Answers sc cfg object_of sf_weak hashed m name true queried
            (search_system_libraries sc split_fuel cfg object_of sf_weak name d)
    unfolding search_system_libraries get_libraries
    search_system_libraries-Answers queried d g users gone =
        answer_system-Answers sc cfg object_of sf_weak hashed bloom sized name m queried d
          (system_match sc cfg object_of sf_weak hashed name d) _ g users refl gone
          (find_match_lem cfg hashed sc.sys object_of bloom sized name
            (bit_or cfg.sf_undefined sf_weak) d.sys_libraries.libs d.sys_libraries askable_system
            (record { consistent = g.sound.systems; libs = refl; all_ready = g.systems_ready }))

    scan_of :
        (search_system : Bool) (d : Dyld)
        → IsGood sc cfg object_of sf_weak hashed d
        → (d' : Dyld) × (scan_for_libraries sc split_fuel m search_system fuel d ≡ some d')
          × IsGood sc cfg object_of sf_weak hashed d'
          × Extends search_system d d'
    scan_of search_system d g =
        let (d', run, s, x) =
          scan_for_libraries-Ends sc split_fuel laws m files all readable search_system fuel d
            g.sound (omega (arith, room, missing-length files d)) in
        (d', run, Extends-IsGood sc cfg object_of sf_weak hashed search_system d d' g s x, x)

    -- The state after the first scan for the system's libraries, which leaves the user's.
    first_system_scan-libraries :
        (d : Dyld)
        → IsGood sc cfg object_of sf_weak hashed d
        → (d' : Dyld) × (first_system_scan sc split_fuel cfg object_of sf_weak m fuel d ≡ some d')
          × IsGood sc cfg object_of sf_weak hashed d'
          × (d'.libraries.libs ≡ d.libraries.libs)
    unfolding first_system_scan
    first_system_scan-libraries d g = elim (Bool-cases d.first_run_sys_lib) [
      | inl first ↦
          let (d', run, g', x) = scan_of true d g in
          (
            record d' { first_run_sys_lib = false },
            if_true d.first_run_sys_lib _ _ first ∙ ap scanned_system run,
            record {
              sound = record {
                users = g'.sound.users;
                systems = g'.sound.systems;
                apart = g'.sound.apart;
              };
              queried = g'.queried;
              users_ready = g'.users_ready;
              systems_ready = g'.systems_ready;
            },
            x.libraries
                ∙ ap (λ ps. d.libraries.libs ++ ps) x.untouched
                ∙ append-nil d.libraries.libs,
          )
      | inr later ↦ (d, rw (first_system_scan, later) refl, g, refl)
    ]

    first_scan-IsGood :
        (d : Dyld)
        → IsGood sc cfg object_of sf_weak hashed d
        → (d' : Dyld) × (first_scan sc split_fuel cfg object_of sf_weak m fuel d ≡ some d')
          × IsGood sc cfg object_of sf_weak hashed d'
          × (d'.queried_libraries ≡ d.queried_libraries)
    unfolding first_scan
    first_scan-IsGood d g = elim (Bool-cases d.first_run) [
      | inl first ↦
          let (d', run, g', x) = scan_of false d g in
          (
            record d' { first_run = false },
            if_true d.first_run _ _ first ∙ ap scanned_users run,
            record {
              sound = record {
                users = g'.sound.users;
                systems = g'.sound.systems;
                apart = g'.sound.apart;
              };
              queried = g'.queried;
              users_ready = g'.users_ready;
              systems_ready = g'.systems_ready;
            },
            x.queried,
          )
      | inr later ↦ (d, rw (first_scan, later) refl, g, refl)
    ]

    answer_user-Answers :
        (queried : List Pointer) (search_system : Bool) (d : Dyld) (o : Option Pointer)
        (found : SearchEnd)
        → IsGood sc cfg object_of sf_weak hashed d
        → user_match sc cfg object_of sf_weak hashed name d ≡ o
        → AreGone sc cfg object_of sf_weak hashed m queried d
        → EndsWith cfg hashed sc.sys object_of bloom sized name cfg.sf_undefined d.libraries o found
        → Answers sc cfg object_of sf_weak hashed m name search_system queried
            (answer_user sc split_fuel cfg object_of sf_weak m fuel name search_system d found)
    answer_user-Answers queried search_system d (some p) found g e gone (lib, r, run, at, k) =
        rw (answer_user, run)
          (
            _,
            _,
            refl,
            IsAnswer-match sc cfg object_of sf_weak hashed m name search_system queried
                (record d { libraries = r }) lib
                (asked_users sc cfg object_of sf_weak hashed bloom sized name d r g k)
                (expected_of sc cfg object_of sf_weak hashed name search_system
                    (record d { libraries = r }) (some p) _ (ap (first_with _) k.libs ∙ e) refl
                  ∙ ap some (sym at))
                (λ q there loaded. ap (has_pointer q) k.libs ∙ gone q there loaded),
          )
    answer_user-Answers queried true d none found g e gone (r, run, k) =
        let d1 : Dyld = record d { libraries = r } in
        let (d2, scan, g2, same) =
          first_system_scan-libraries d1
            (asked_users sc cfg object_of sf_weak hashed bloom sized name d r g k) in
        rw (answer_user, run, scan)
          (search_system_libraries-Answers queried d2 g2 (ap (first_with _) (same ∙ k.libs) ∙ e)
            (λ q there loaded. ap (has_pointer q) (same ∙ k.libs) ∙ gone q there loaded))
    answer_user-Answers queried false d none found g e gone (r, run, k) =
        rw (answer_user, run)
          (
            _,
            _,
            refl,
            IsAnswer-nothing sc cfg object_of sf_weak hashed m name false queried
                (record d { libraries = r })
                (asked_users sc cfg object_of sf_weak hashed bloom sized name d r g k)
                (expected_of sc cfg object_of sf_weak hashed name false (record d { libraries = r })
                  none _ (ap (first_with _) k.libs ∙ e) refl)
                (λ q there loaded. ap (has_pointer q) k.libs ∙ gone q there loaded),
          )

    -- A call of searchLibrariesForSymbol on a state between calls, the first with its scans
    -- included, returns, with fuel for the files that are not permanently ignored, and its
    -- answer is the full name of the first library with the symbol in the user's registry as the
    -- call leaves it, else, if the system is searched, in the system's, and else empty. That
    -- library is among the queried ones afterwards; those that were queried before and are loaded
    -- are no longer in the user's registry; and the state is one between calls again: both
    -- registries hold each library once and none in common, and every filter is not built or
    -- was built for the flags of its registry. The conditions are that both switches are on,
    -- that the table has a word when there are symbols, that the names of a file are fewer
    -- than 2^32, and that the reading of ELF hash sections and of string tables stays within
    -- them.
    pub search_libraries_for_symbol-Answers :
        (search_system : Bool) (d : Dyld)
        → IsGood sc cfg object_of sf_weak hashed d
        → (answer : Str) × (d' : Dyld) × (search_libraries_for_symbol sc split_fuel cfg object_of
              sf_weak m fuel name search_system d
            ≡ some (answer, d'))
          × IsAnswer sc cfg object_of sf_weak hashed m name search_system
              (get_libraries d.queried_libraries)
              answer
              d'
    unfolding search_libraries_for_symbol search_libraries get_libraries
    search_libraries_for_symbol-Answers search_system d g =
        let (d1, run, g1, same) = first_scan-IsGood d g in
        let drops =
          drop_loaded-Drops sc cfg object_of sf_weak hashed m d1.queried_libraries.libs d1 g1 in
        let d2 = drop_loaded sc.sys m d1.queried_libraries.libs d1 in
        rw (search_libraries_for_symbol, run)
          (subst
            (λ (q : LibraryPaths).
              Answers sc cfg object_of sf_weak hashed m name search_system q.libs (
                answer_user sc split_fuel cfg object_of sf_weak m fuel name search_system d2 (
                  find_match sc.sys cfg object_of name cfg.sf_undefined d2.libraries.libs
                    d2.libraries)))
            same
            (answer_user-Answers d1.queried_libraries.libs search_system d2
              (user_match sc cfg object_of sf_weak hashed name d2) _ drops.good refl drops.gone
              (find_match_lem cfg hashed sc.sys object_of bloom sized name cfg.sf_undefined
                d2.libraries.libs d2.libraries askable_user
                (record {
                  consistent = drops.good.sound.users;
                  libs = refl;
                  all_ready = drops.good.users_ready;
                }))))
