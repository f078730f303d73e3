-- ===== src/Symbols/Search/Matches.antt =====
-- Symbols/Search: the search through one registry.
use mathlib.Core.Path.{subst}
use cpp_inter_op.Common.{
  ℕ, ◌<◌, ◌^◌, ◌≡◌, ◌≢◌, refl, sym, ap, ◌∙◌, Bool, true, false, ◌&&◌, List, [], ◌∷◌, ◌++◌, map,
  Option, none, some, if◌then◌else◌, Str, contains, length, Bool-cases, inl, inr,
}
use cpp_inter_op.Libraries.Lookup.{System}
use cpp_inter_op.Symbols.Filter.{gnu_hash, LibraryPath, has_bloom_filter}
use cpp_inter_op.Symbols.Registry.{Pointer, address, same_library, LibraryPaths, find_lib}
use cpp_inter_op.Symbols.Registry.Order.{addresses, IsConsistent, same_library_iff}
use cpp_inter_op.Symbols.Contents.{ObjectFile, Settings, elf_filter, symbol_names, contains_symbol}
use cpp_inter_op.Symbols.Contents.Answers.{IsReady, contains_symbol_lem}
use cpp_inter_op.Symbols.Contents.Identity.{contains_symbol-address}
use cpp_inter_op.Symbols.Scan.{new_library_path}
use cpp_inter_op.Symbols.Scan.Growth.{fresh}
use cpp_inter_op.Symbols.Search.{
  write_back, write_lib, get_full_name, pointed, SearchEnd, match, no_match, find_match,
}

-- The first of some libraries that passes a test.
abbrev pub first_with : (Pointer → Bool) → List Pointer → Option Pointer
first_with test [] = none
first_with test (p ∷ ps) = let rest = first_with test ps in if test p then some p else rest

abbrev pub answer_of : Option Bool → Bool
answer_of none = false
answer_of (some b) = b

addresses-write_back :
    (lib : LibraryPath) (ls : List LibraryPath) → addresses (write_back lib ls) ≡ addresses ls
unfolding write_back
addresses-write_back lib [] = refl
addresses-write_back lib (l ∷ ls) = elim (Bool-cases (same_library (address l) (address lib))) [
  | inl same ↦
      rw (write_back, same)
        (ap (λ p. p ∷ addresses ls) (sym ((same_library_iff (address l) (address lib)).0 same)))
  | inr other ↦ rw (write_back, other) (ap (λ ps. address l ∷ ps) (addresses-write_back lib ls))
]

write_lib-IsConsistent :
    (lib : LibraryPath) (r : LibraryPaths) → IsConsistent r → IsConsistent (write_lib lib r)
unfolding write_lib
write_lib-IsConsistent lib r c = record {
  distinct = c.distinct;
  same = addresses-write_back lib r.libs_h ∙ c.same;
}

module _ (cfg : Settings) (hashed : cfg.use_hash_table ≡ true) (sys : System)
    (object_of : Str → Option ObjectFile) where
  -- Whether a file has a symbol: its name is one of the collected names, and the hash section of
  -- an ELF file does not rule it out.
  abbrev pub has_symbol : Str → ℕ → Option ObjectFile → Bool
  has_symbol name ignore none = false
  has_symbol name ignore (some file) =
      answer_of (elf_filter file (gnu_hash name)) && contains name (symbol_names cfg file ignore)

  abbrev pub has : Str → ℕ → Pointer → Bool
  has name ignore p = has_symbol name ignore (object_of (get_full_name sys p))

  -- The filter of a library is not built yet, or was built for these flags.
  abbrev pub IsReadyFor : ℕ → Option ObjectFile → LibraryPath → Type 0
  IsReadyFor ignore none l = Unit
  IsReadyFor ignore (some file) l = IsReady cfg hashed (symbol_names cfg file ignore) l

  abbrev pub ReadyAt : ℕ → LibraryPath → Type 0
  ReadyAt ignore l = IsReadyFor ignore (object_of (get_full_name sys (address l))) l

  abbrev pub AllReady : ℕ → List LibraryPath → Type 0
  AllReady ignore [] = Unit
  AllReady ignore (l ∷ ls) = ReadyAt ignore l × AllReady ignore ls

  fresh-IsReadyFor :
      (ignore : ℕ) (o : Option ObjectFile) (p : Pointer) → IsReadyFor ignore o (fresh p)
  unfolding new_library_path has_bloom_filter
  fresh-IsReadyFor ignore none p = tt
  fresh-IsReadyFor ignore (some file) p =
      inl (record { without_filter = refl; without_symbols = refl })

  pub AllReady-fresh :
      (ignore : ℕ) (ls : List LibraryPath) (ps : List Pointer)
      → AllReady ignore ls
      → AllReady ignore (ls ++ map fresh ps)
  AllReady-fresh ignore [] [] all = tt
  AllReady-fresh ignore [] (p ∷ ps) all =
      (fresh-IsReadyFor ignore _ p, AllReady-fresh ignore [] ps tt)
  AllReady-fresh ignore (l ∷ ls) ps (ready, all) = (ready, AllReady-fresh ignore ls ps all)

  AllReady-write_back :
      (ignore : ℕ) (lib : LibraryPath) (ls : List LibraryPath)
      → ReadyAt ignore lib
      → AllReady ignore ls
      → AllReady ignore (write_back lib ls)
  unfolding write_back
  AllReady-write_back ignore lib [] ready all = tt
  AllReady-write_back ignore lib (l ∷ ls) ready all =
      elim (Bool-cases (same_library (address l) (address lib))) [
        | inl same ↦ rw (write_back, same) (ready, all.1)
        | inr other ↦ rw (write_back, other) (all.0, AllReady-write_back ignore lib ls ready all.1)
      ]

  write_lib-libs : (lib : LibraryPath) (r : LibraryPaths) → (write_lib lib r).libs ≡ r.libs
  unfolding write_lib
  write_lib-libs lib r = refl

  write_lib-ready :
      (ignore : ℕ) (lib : LibraryPath) (r : LibraryPaths)
      → ReadyAt ignore lib
      → AllReady ignore r.libs_h
      → AllReady ignore (write_lib lib r).libs_h
  unfolding write_lib
  write_lib-ready ignore lib r ready all = AllReady-write_back ignore lib r.libs_h ready all

  -- What a pointer points to is the library that it tells, and ready.
  pointed_in :
      (ignore : ℕ) (p : Pointer) (ls : List LibraryPath)
      → AllReady ignore ls
      → (address (elim (find_lib p ls) [ none ↦ fresh p | some l ↦ l ]) ≡ p)
        × ReadyAt ignore (elim (find_lib p ls) [ none ↦ fresh p | some l ↦ l ])
  unfolding find_lib new_library_path
  pointed_in ignore p [] all = (refl, fresh-IsReadyFor ignore _ p)
  pointed_in ignore p (l ∷ ls) all = elim (Bool-cases (same_library (address l) p)) [
    | inl same ↦ rw (find_lib, same) ((same_library_iff (address l) p).0 same, all.0)
    | inr other ↦ rw (find_lib, other) (pointed_in ignore p ls all.1)
  ]

  -- A file can be asked for a symbol: its names are fewer than 2^32, and the reading of the hash
  -- section of an ELF file stays within it.
  abbrev pub IsAskable : Str → ℕ → Option ObjectFile → Type 0
  IsAskable name ignore none = Unit
  IsAskable name ignore (some file) =
      (length (symbol_names cfg file ignore) < 2 ^ 32)
      × (may : Bool) × (elf_filter file (gnu_hash name) ≡ some may)

  module _ (bloom : cfg.use_bloom_filter ≡ true) (sized : (n : ℕ) → n ≢ 0 → cfg.table_size n ≢ 0)
      (name : Str) (ignore : ℕ) where
    ask :
        (l : LibraryPath) (o : Option ObjectFile)
        → IsAskable name ignore o
        → IsReadyFor ignore o l
        → (l' : LibraryPath) × (contains_symbol cfg l o name ignore
            ≡ some (has_symbol name ignore o, l'))
          × IsReadyFor ignore o l'
    unfolding contains_symbol
    ask l none can ready = (l, refl, tt)
    ask l (some file) (small, may, elf) ready =
        let (l', run, ready') =
          contains_symbol_lem cfg hashed bloom sized l file name ignore may small elf ready in
        (l', run ∙ rw (elf) refl, ready')

    -- A registry after some of its libraries were asked.
    pub record Keeps (r r' : LibraryPaths) : Type 0 where
      pub consistent : IsConsistent r'
      pub libs : r'.libs ≡ r.libs
      pub all_ready : AllReady ignore r'.libs_h

    -- A search ends with this library, if there is one.
    abbrev pub EndsWith : LibraryPaths → Option Pointer → SearchEnd → Type 0
    EndsWith r (some p) found =
        (lib : LibraryPath) × (r' : LibraryPaths) × (found ≡ match lib r')
        × (address lib ≡ p)
        × Keeps r r'
    EndsWith r none found = (r' : LibraryPaths) × (found ≡ no_match r') × Keeps r r'

    Keeps-trans : {r r' r'' : LibraryPaths} → Keeps r r' → Keeps r' r'' → Keeps r r''
    Keeps-trans k k' = record {
      consistent = k'.consistent;
      libs = k'.libs ∙ k.libs;
      all_ready = k'.all_ready;
    }

    EndsWith-later :
        {r r' : LibraryPaths} (o : Option Pointer) (found : SearchEnd)
        → Keeps r r'
        → EndsWith r' o found
        → EndsWith r o found
    EndsWith-later (some p) found k (lib, r'', run, at, k') = (lib, r'', run, at, Keeps-trans k k')
    EndsWith-later none found k (r'', run, k') = (r'', run, Keeps-trans k k')

    -- A registry is asked about the library of a pointer.
    ask_pointer :
        (p : Pointer) (r : LibraryPaths)
        → IsAskable name ignore (object_of (get_full_name sys p))
        → Keeps r r
        → (l' : LibraryPath) × (contains_symbol cfg
              (pointed p r)
              (object_of (get_full_name sys p))
              name
              ignore
            ≡ some (has name ignore p, l'))
          × (address l' ≡ p)
          × Keeps r (write_lib l' r)
    ask_pointer p r can k =
        let (at, ready) = pointed_in ignore p r.libs_h k.all_ready in
        let o = object_of (get_full_name sys p) in
        let (l', run, ready') = ask (pointed p r) o can (
          subst (λ q. IsReadyFor ignore (object_of (get_full_name sys q)) (pointed p r)) at
            ready) in
        let at' = contains_symbol-address cfg (pointed p r) l' o name ignore _ run ∙ at in
        (
          l',
          run,
          at',
          record {
            consistent = write_lib-IsConsistent l' r k.consistent;
            libs = write_lib-libs l' r;
            all_ready =
                write_lib-ready ignore l' r
                  (subst (λ q. IsReadyFor ignore (object_of (get_full_name sys q)) l') (sym at')
                    ready')
                  k.all_ready;
          },
        )

    pub find_match_lem :
        (ps : List Pointer) (r : LibraryPaths)
        → ((p : Pointer) → IsAskable name ignore (object_of (get_full_name sys p)))
        → Keeps r r
        → EndsWith r
            (first_with (has name ignore) ps)
            (find_match sys cfg object_of name ignore ps r)
    unfolding find_match
    find_match_lem [] r can k = (r, refl, k)
    find_match_lem (p ∷ ps) r can k =
        let (l', run, at, k') = ask_pointer p r (can p) k in
        elim (Bool-cases (has name ignore p)) [
          | inl e ↦ rw (e) (l', write_lib l' r, rw (find_match, run, e) refl, at, k')
          | inr e ↦
              rw (find_match, run, e)
                (EndsWith-later (first_with (has name ignore) ps) _ k' (
                  find_match_lem ps (write_lib l' r) can
                    (record { consistent = k'.consistent; libs = refl; all_ready = k'.all_ready })))
        ]
