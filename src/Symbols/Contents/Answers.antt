-- ===== src/Symbols/Contents/Answers.antt =====
-- Symbols/Contents: the answers of ContainsSymbol.
use mathlib.Core.Path.{subst}
use cpp_inter_op.Common.{
  ℕ, ◌%◌, ◌^◌, ◌<◌, ◌≡◌, ◌≢◌, refl, sym, ap, ◌∙◌, Bool, true, false, ◌&&◌, ◌||◌, List, [], ◌∷◌,
  ◌++◌, Option, some, ◌==◌, if◌then◌else◌, Str, str_eq, str_eq_iff, contains, length, arith,
  length-replicate, Bool-cases, ◌⊎◌, inl, inr,
}
use cpp_inter_op.Symbols.Filter.{
  BloomFilter, test_hash, add_hash, gnu_hash, LibraryPath, has_bloom_filter, is_bloom_filter_empty,
  may_exist_symbol, exist_symbol, add_symbol, add_bloom, resize_table, initialize_bloom_filter,
}
use cpp_inter_op.Symbols.Filter.Members.{IsTable, add_hash_lem, test_hash-total}
use cpp_inter_op.Symbols.Contents.{
  ObjectFile, Settings, elf_filter, symbol_names, add_each, build_bloom_filter, look_through,
  filtered, contains_symbol,
}

contains-append :
    (q s : Str) (ss : List Str) → contains q (ss ++ s ∷ []) ≡ (contains q ss || str_eq s q)
unfolding contains
contains-append q s [] = ground arith
contains-append q s (r ∷ ss) = ground (arith, contains-append q s ss)

present :
    (q s : Str) (ss : List Str) → contains s ss ≡ true → str_eq s q ≡ true → contains q ss ≡ true
present q s ss h e = sym (ap (λ r. contains r ss) ((str_eq_iff s q).0 e)) ∙ h

contains-add_symbol :
    (q s : Str) (l : LibraryPath)
    → contains q (add_symbol s l).symbols ≡ (contains q l.symbols || str_eq s q)
unfolding add_symbol
contains-add_symbol q s l = ground (arith, contains-append q s l.symbols, present q s l.symbols)

add_bloom-runs :
    (s : Str) (l : LibraryPath) (f : BloomFilter)
    → add_hash (gnu_hash s) l.filter ≡ some f
    → add_bloom s l ≡ some (record l { filter = f })
unfolding add_bloom
add_bloom-runs s l f e = rw (add_bloom, e) refl

found_of :
    (q s : Str) (names : List Str) (l' : LibraryPath)
    → contains q (s ∷ names) ≡ true
    → test_hash (gnu_hash s) l'.filter ≡ some true
    → (contains q names ≡ true → test_hash (gnu_hash q) l'.filter ≡ some true)
    → test_hash (gnu_hash q) l'.filter ≡ some true
unfolding contains
found_of q s names l' e here later = elim (Bool-cases (str_eq s q)) [
  | inl same ↦ sym (ap (λ r. test_hash (gnu_hash r) l'.filter) ((str_eq_iff s q).0 same)) ∙ here
  | inr other ↦ later (ground (arith, other, e))
]

module _ (cfg : Settings) (hashed : cfg.use_hash_table ≡ true) where
  -- What adding names does to a library with a table.
  add_each_lem :
      (names : List Str) (l : LibraryPath)
      → IsTable l.filter
      → (l' : LibraryPath) × (add_each cfg names l ≡ some l')
        × IsTable l'.filter
        × (l'.filter.symbols_count ≡ l.filter.symbols_count)
        × (l'.filter.is_initialized ≡ l.filter.is_initialized)
        × ((q : Str) → contains q l'.symbols ≡ (contains q l.symbols || contains q names))
        × ((h : ℕ) → test_hash h l.filter ≡ some true → test_hash h l'.filter ≡ some true)
        × ((q : Str) → contains q names ≡ true → test_hash (gnu_hash q) l'.filter ≡ some true)
  unfolding add_each contains add_symbol
  add_each_lem [] l t = (l, refl, t, refl, refl, λ q. ground arith, λ h e. e, λ q e. ground arith)
  add_each_lem (s ∷ names) l t =
      let (f, run, t', count, init, there, kept) = add_hash_lem l.filter (gnu_hash s) t in
      let added : LibraryPath = record (add_symbol s l) { filter = f } in
      let (l', run', t'', count', init', syms, kept', all) = add_each_lem names added t' in
      (
        l',
        rw (add_each, hashed, add_bloom-runs s (add_symbol s l) f run) run',
        t'',
        count' ∙ count,
        init' ∙ init,
        λ q. syms q ∙ ground (arith, contains-add_symbol q s l),
        λ h e. kept' h (kept h e),
        λ q e. found_of q s names l' e (kept' (gnu_hash s) there) (all q),
      )

  -- A library whose filter was built from these names.
  pub record IsBuilt (names : List Str) (l : LibraryPath) : Type 0 where
    pub initialized : has_bloom_filter l ≡ true
    pub same_names : (q : Str) → contains q l.symbols ≡ contains q names
    pub found : (q : Str) → contains q names ≡ true → may_exist_symbol (gnu_hash q) l ≡ some true
    pub answers : (h : ℕ) → (b : Bool) × (may_exist_symbol h l ≡ some b)

  may_exist-table :
      (h : ℕ) (l : LibraryPath)
      → l.filter.symbols_count ≢ 0
      → may_exist_symbol h l ≡ test_hash h l.filter
  unfolding may_exist_symbol is_bloom_filter_empty
  may_exist-table h l ne = elim (Bool-cases (l.filter.symbols_count == 0)) [
    | inl z ↦ absurd (ne (ground (arith, z)))
    | inr nz ↦ rw (nz) refl
  ]

  nothing-IsBuilt :
      (l : LibraryPath) → l.symbols ≡ [] → IsBuilt [] (initialize_bloom_filter cfg.table_size 0 l)
  unfolding initialize_bloom_filter resize_table has_bloom_filter may_exist_symbol
      is_bloom_filter_empty contains
  nothing-IsBuilt l fresh = record {
    initialized = refl;
    same_names = λ q. ap (contains q) fresh;
    found = λ q e. ground (arith, e);
    answers = λ h. (false, refl);
  }

  initialized-IsTable :
      (l : LibraryPath) (n : ℕ)
      → cfg.table_size n ≢ 0
      → IsTable (initialize_bloom_filter cfg.table_size n l).filter
  unfolding initialize_bloom_filter resize_table
  initialized-IsTable l n ne = record {
    sized = length-replicate (cfg.table_size n) 0;
    nonempty = ne;
  }

  -- The table of some names, of which there are.
  some-IsBuilt :
      (names : List Str) (l : LibraryPath)
      → l.symbols ≡ []
      → length names ≢ 0
      → cfg.table_size (length names) ≢ 0
      → (l' : LibraryPath) × (add_each cfg names
            (initialize_bloom_filter cfg.table_size (length names) l)
          ≡ some l')
        × IsBuilt names l'
  unfolding initialize_bloom_filter resize_table has_bloom_filter contains
  some-IsBuilt names l fresh ne sized =
      let start = initialize_bloom_filter cfg.table_size (length names) l in
      let (l', run, t, count, init, syms, kept, all) =
        add_each_lem names start (initialized-IsTable l (length names) sized) in
      let ne' : l'.filter.symbols_count ≢ 0 = λ z. ne (sym count ∙ z) in
      (
        l',
        run,
        record {
          initialized = init;
          same_names = λ q. syms q ∙ ap (λ ss. contains q ss || contains q names) fresh;
          found = λ q e. may_exist-table (gnu_hash q) l' ne' ∙ all q e;
          answers = λ h.
              (let (b, e) = test_hash-total l'.filter h t in (b, may_exist-table h l' ne' ∙ e));
        },
      )

  empty_of : (names : List Str) → length names ≡ 0 → names ≡ []
  empty_of [] e = refl
  empty_of (n ∷ names) e = absurd (omega arith)

  build-IsBuilt :
      (l : LibraryPath) (file : ObjectFile) (ignore : ℕ)
      → l.symbols ≡ []
      → ((n : ℕ) → n ≢ 0 → cfg.table_size n ≢ 0)
      → length (symbol_names cfg file ignore) < 2 ^ 32
      → (l' : LibraryPath) × (build_bloom_filter cfg l file ignore ≡ some l')
        × IsBuilt (symbol_names cfg file ignore) l'
  unfolding build_bloom_filter
  build-IsBuilt l file ignore fresh sized small =
      let names = symbol_names cfg file ignore in
      let whole : length names % 2 ^ 32 ≡ length names = omega arith in
      elim (Bool-cases (length names == 0)) [
        | inl z ↦
            let empty : length names ≡ 0 = ground (arith, z) in
            let none_there = empty_of names empty in
            (
              initialize_bloom_filter cfg.table_size 0 l,
              rw (build_bloom_filter, whole, empty) refl,
              subst (λ ns. IsBuilt ns (initialize_bloom_filter cfg.table_size 0 l)) (sym none_there)
                  (nothing-IsBuilt l fresh),
            )
        | inr nz ↦
            let ne : length names ≢ 0 = λ z. absurd (ground (arith, nz, z)) in
            let (l', run, built) = some-IsBuilt names l fresh ne (sized (length names) ne) in
            (l', rw (build_bloom_filter, whole, nz) run, built)
      ]

  filtered_lem :
      (names : List Str) (l : LibraryPath) (file : ObjectFile) (q : Str) (ignore : ℕ)
      → IsBuilt names l
      → filtered cfg l file q ignore ≡ some (contains q names, l)
  unfolding filtered look_through exist_symbol
  filtered_lem names l file q ignore built = elim (Bool-cases (contains q names)) [
    | inl there ↦
        rw
          (
            filtered,
            built.initialized,
            built.found q there,
            look_through,
            hashed,
            exist_symbol,
            built.same_names q,
          )
          refl
    | inr absent ↦
        let (b, e) = built.answers (gnu_hash q) in
        elim (Bool-cases b) [
          | inl may ↦
              rw
                (
                  filtered,
                  built.initialized,
                  e,
                  may,
                  look_through,
                  hashed,
                  exist_symbol,
                  built.same_names q,
                )
                refl
          | inr ruled ↦ rw (filtered, built.initialized, e, ruled, absent) refl
        ]
  ]

  -- A library before its filter is built, and after.
  pub record IsFresh (l : LibraryPath) : Type 0 where
    pub without_filter : has_bloom_filter l ≡ false
    pub without_symbols : l.symbols ≡ []

  abbrev pub IsReady : List Str → LibraryPath → Type 0
  IsReady names l = IsFresh l ⊎ IsBuilt names l

  filtered-fresh :
      (l l' : LibraryPath) (file : ObjectFile) (q : Str) (ignore : ℕ)
      → has_bloom_filter l ≡ false
      → build_bloom_filter cfg l file ignore ≡ some l'
      → has_bloom_filter l' ≡ true
      → filtered cfg l file q ignore ≡ filtered cfg l' file q ignore
  unfolding filtered
  filtered-fresh l l' file q ignore fresh run built = rw (filtered, fresh, run, built) refl

  filtered-Ready :
      (l : LibraryPath) (file : ObjectFile) (q : Str) (ignore : ℕ)
      → ((n : ℕ) → n ≢ 0 → cfg.table_size n ≢ 0)
      → length (symbol_names cfg file ignore) < 2 ^ 32
      → IsReady (symbol_names cfg file ignore) l
      → (l' : LibraryPath) × (filtered cfg l file q ignore
          ≡ some (contains q (symbol_names cfg file ignore), l'))
        × IsReady (symbol_names cfg file ignore) l'
  filtered-Ready l file q ignore sized small (inl fresh) =
      let (l', run, built) = build-IsBuilt l file ignore fresh.without_symbols sized small in
      (
        l',
        filtered-fresh l l' file q ignore fresh.without_filter run built.initialized
            ∙ filtered_lem _ l' file q ignore built,
        inr built,
      )
  filtered-Ready l file q ignore sized small (inr built) =
      (l, filtered_lem _ l file q ignore built, inr built)

  if-true : (b : Bool) (x y : Option (Bool × LibraryPath)) → b ≡ true → (if b then x else y) ≡ x
  if-true b x y e = ground (arith, e)

  by_section :
      (l : LibraryPath) (file : ObjectFile) (q : Str) (ignore : ℕ)
      → cfg.use_bloom_filter ≡ true
      → elf_filter file (gnu_hash q) ≡ some true
      → contains_symbol cfg l (some file) q ignore ≡ filtered cfg l file q ignore
  unfolding contains_symbol
  by_section l file q ignore bloom elf =
      rw (contains_symbol, elf) (if-true cfg.use_bloom_filter _ _ bloom)

  ruled_out :
      (l : LibraryPath) (file : ObjectFile) (q : Str) (ignore : ℕ)
      → elf_filter file (gnu_hash q) ≡ some false
      → contains_symbol cfg l (some file) q ignore ≡ some (false, l)
  unfolding contains_symbol
  ruled_out l file q ignore elf = rw (contains_symbol, elf) refl

  -- With both switches on, a query of a library, whose own filter is not built yet or was built
  -- for the same ignored flags, says that the name is one of the file's collected names, unless the
  -- ELF hash section rules it out; and the library is then ready for the next query. The
  -- conditions are that the table has a word when there are symbols, that the names are fewer
  -- than 2^32, and that the reading of the ELF hash section stays within it.
  pub contains_symbol_lem :
      cfg.use_bloom_filter ≡ true
      → ((n : ℕ) → n ≢ 0 → cfg.table_size n ≢ 0)
      → (l : LibraryPath) (file : ObjectFile) (q : Str) (ignore : ℕ) (may : Bool)
      → length (symbol_names cfg file ignore) < 2 ^ 32
      → elf_filter file (gnu_hash q) ≡ some may
      → IsReady (symbol_names cfg file ignore) l
      → (l' : LibraryPath) × (contains_symbol cfg l (some file) q ignore
          ≡ some (may && contains q (symbol_names cfg file ignore), l'))
        × IsReady (symbol_names cfg file ignore) l'
  unfolding contains_symbol
  contains_symbol_lem bloom sized l file q ignore true small elf ready =
      let (l', run, ready') = filtered-Ready l file q ignore sized small ready in
      (l', by_section l file q ignore bloom elf ∙ run, ready')
  contains_symbol_lem bloom sized l file q ignore false small elf ready =
      (l, ruled_out l file q ignore elf, ready)
