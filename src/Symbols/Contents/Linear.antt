-- ===== src/Symbols/Contents/Linear.antt =====
-- Symbols/Contents: the filters against the search through all symbols.
use cpp_inter_op.Common.{
  ℕ, ◌<◌, ◌≡◌, ◌≢◌, refl, Bool, true, false, ◌&&◌, ◌||◌, List, [], ◌∷◌, ◌++◌, some, ◌^◌, Str,
  contains, length, arith, Option-cases, inl, inr,
}
use cpp_inter_op.Symbols.Filter.{gnu_hash, LibraryPath}
use cpp_inter_op.Symbols.Contents.{
  Symbol, ObjectFile, Settings, elf_filter, collect_names, foreach_symbol, symbol_names,
  look_through, contains_symbol,
}
use cpp_inter_op.Symbols.Contents.Answers.{IsReady, contains_symbol_lem}

contains-names_append :
    (q : Str) (xs ys : List Str) → contains q (xs ++ ys) ≡ (contains q xs || contains q ys)
unfolding contains
contains-names_append q [] ys = refl
contains-names_append q (x ∷ xs) ys = ground (arith, contains-names_append q xs ys)

foreach_symbol-collect_names :
    (ss : List Symbol) (ignore : ℕ) (q : Str)
    → foreach_symbol ss ignore q ≡ contains q (collect_names ignore ss)
unfolding foreach_symbol collect_names contains
foreach_symbol-collect_names [] ignore q = refl
foreach_symbol-collect_names (s ∷ ss) ignore q = elim (Option-cases s.name) [
  | inl e ↦ ground (arith, e, foreach_symbol-collect_names ss ignore q)
  | inr (n, e) ↦ ground (arith, e, foreach_symbol-collect_names ss ignore q)
]

-- The same Dyld with both switches off.
abbrev pub plain : Settings → Settings
plain cfg = record cfg { use_bloom_filter = false; use_hash_table = false }

module _ (cfg : Settings) where
  look_through-names :
      (l : LibraryPath) (file : ObjectFile) (q : Str)
      → look_through (plain cfg) l file q cfg.sf_undefined
        ≡ contains q (symbol_names cfg file cfg.sf_undefined)
  unfolding look_through symbol_names
  look_through-names l file q = ground (
    arith,
    foreach_symbol-collect_names file.symbols cfg.sf_undefined q,
    foreach_symbol-collect_names file.dynamic_symbols cfg.sf_undefined q,
    contains-names_append q (collect_names cfg.sf_undefined file.symbols)
        (collect_names cfg.sf_undefined file.dynamic_symbols),
  )

  plain_answer :
      (l : LibraryPath) (file : ObjectFile) (q : Str) (may : Bool)
      → elf_filter file (gnu_hash q) ≡ some may
      → contains_symbol (plain cfg) l (some file) q cfg.sf_undefined
        ≡ some (may && contains q (symbol_names cfg file cfg.sf_undefined), l)
  unfolding contains_symbol
  plain_answer l file q true e = rw (contains_symbol, e, look_through-names l file q) refl
  plain_answer l file q false e = rw (contains_symbol, e) refl

  -- With the flag of undefined symbols ignored, as for the user's libraries, the Bloom filter and
  -- the hash table together answer a query as the search through all symbols does, under the
  -- same conditions: the table has a word when there are symbols, the names are fewer than
  -- 2^32, the ELF hash section is read within its bounds, and the filter of the library is not
  -- built yet or was built for this flag.
  pub contains_symbol-plain :
      cfg.use_bloom_filter ≡ true
      → (hashed : cfg.use_hash_table ≡ true) → ((n : ℕ) → n ≢ 0 → cfg.table_size n ≢ 0)
      → (l : LibraryPath) (file : ObjectFile) (q : Str) (may : Bool)
      → length (symbol_names cfg file cfg.sf_undefined) < 2 ^ 32
      → elf_filter file (gnu_hash q) ≡ some may
      → IsReady cfg hashed (symbol_names cfg file cfg.sf_undefined) l
      → (answer : Bool) × (l' : LibraryPath) × (contains_symbol cfg l (some file) q cfg.sf_undefined
          ≡ some (answer, l'))
        × (contains_symbol (plain cfg) l (some file) q cfg.sf_undefined ≡ some (answer, l))
  contains_symbol-plain bloom hashed sized l file q may small elf ready =
      let (l', run, _) =
        contains_symbol_lem cfg hashed bloom sized l file q cfg.sf_undefined may small elf ready in
      (
        may && contains q (symbol_names cfg file cfg.sf_undefined),
        l',
        run,
        plain_answer l file q may elf,
      )
