-- ===== src/Symbols/Contents.antt =====
-- lib/CppInterOp/DynamicLibraryManagerSymbol.cpp: MayExistInElfObjectFile, and BuildBloomFilter and
-- ContainsSymbol of Dyld, on object files that are not COFF.
pub mod Answers
pub mod Identity
pub mod Linear
use cpp_inter_op.Common.{
  ℕ, zero, suc, ◌+◌, ◌-◌, ◌*◌, ◌/◌, ◌%◌, ◌^◌, bit_and, bit_or, Bool, true, false, ◌&&◌, ◌||◌, not,
  List, [], ◌∷◌, ◌++◌, Option, none, some, ◌==◌, if◌then◌else◌, Str, is_empty, str_eq, length, ltb,
  get_or,
}
use cpp_inter_op.Symbols.Filter.{
  gnu_hash, LibraryPath, has_bloom_filter, may_exist_symbol, exist_symbol, add_symbol, add_bloom,
  initialize_bloom_filter,
}

-- What LLVM reads of a symbol, whose name may be unreadable, and of an object file; the section is
-- that of `.gnu.hash`, empty if there is none.
pub record Symbol : Type 0 where
  pub flags : ℕ
  pub name : Option Str

pub record ObjectFile : Type 0 where
  pub is_elf : Bool
  pub bytes_in_address : ℕ
  pub gnu_hash_section : Str
  pub symbols : List Symbol
  pub dynamic_symbols : List Symbol

-- A number of some bytes at an offset, the lowest byte first.
unfoldable pub read_le : ℕ → ℕ → Str → ℕ
read_le zero offset s = 0
read_le (suc n) offset s = get_or s offset 0 + 256 * read_le n (suc offset) s

-- `none` where the source divides by zero, shifts by the width or more, or reads beyond the section.
unfoldable pub may_exist_in_elf_object_file : ObjectFile → ℕ → Option Bool
may_exist_in_elf_object_file file hash =
    let contents = file.gnu_hash_section in
    let bits = 8 * file.bytes_in_address in
    let mask_words = read_le 4 8 contents in
    let shift2 = read_le 4 12 contents in
    let n = hash / bits % mask_words in
    let at = 16 + n * (bits / 8) in
    let word = read_le 8 at contents in
    let mask = bit_or (2 ^ (hash % bits)) (2 ^ (hash / 2 ^ shift2 % bits)) in
    if ltb (length contents) 16
    then some true
    else if (mask_words == 0) || (bits == 0) || ltb 31 shift2 || ltb (length contents) (at + 8)
    then none
    else some (bit_and mask word == mask)

-- The section is asked of ELF files only.
unfoldable pub elf_filter : ObjectFile → ℕ → Option Bool
elf_filter file hash = if file.is_elf then may_exist_in_elf_object_file file hash else some true

-- The names of the symbols that none of the ignored flags, no error and no empty name leave out.
unfoldable pub collect_names : ℕ → List Symbol → List Str
collect_names ignore [] = []
collect_names ignore (s ∷ ss) =
    let rest = collect_names ignore ss in
    if bit_and s.flags ignore == 0
    then (elim s.name [ none ↦ rest | some n ↦ if is_empty n then rest else n ∷ rest ])
    else rest

-- ForeachSymbol, the search through a range of symbols.
unfoldable pub foreach_symbol : List Symbol → ℕ → Str → Bool
foreach_symbol [] ignore mangled_name = false
foreach_symbol (s ∷ ss) ignore mangled_name =
    let rest = foreach_symbol ss ignore mangled_name in
    if bit_and s.flags ignore == 0
    then (elim s.name [
      | none ↦ rest
      | some n ↦ if not (is_empty n) && str_eq n mangled_name then true else rest
    ])
    else rest

-- The two switches of Dyld, the flag of undefined symbols, and the size of the filter's table.
pub record Settings : Type 0 where
  pub use_bloom_filter : Bool
  pub use_hash_table : Bool
  pub sf_undefined : ℕ
  pub table_size : ℕ → ℕ

module _ (cfg : Settings) where
  unfoldable pub symbol_names : ObjectFile → ℕ → List Str
  symbol_names file ignore =
      let static = collect_names ignore file.symbols in
      if file.is_elf then static ++ collect_names cfg.sf_undefined file.dynamic_symbols else static

  unfoldable pub add_each : List Str → LibraryPath → Option LibraryPath
  add_each [] lib = some lib
  add_each (s ∷ ss) lib =
      elim (add_bloom s (if cfg.use_hash_table then add_symbol s lib else lib)) [
        | none ↦ none
        | some lib' ↦ add_each ss lib'
      ]

  -- The count is of 32 bits.
  unfoldable pub build_bloom_filter : LibraryPath → ObjectFile → ℕ → Option LibraryPath
  build_bloom_filter lib file ignore =
      let names = symbol_names file ignore in
      let count = length names % 2 ^ 32 in
      let initialized = initialize_bloom_filter cfg.table_size count lib in
      if count == 0 then some initialized else add_each names initialized

  -- What follows the filters.
  unfoldable pub look_through : LibraryPath → ObjectFile → Str → ℕ → Bool
  look_through lib file mangled_name ignore =
      if cfg.use_hash_table
      then exist_symbol mangled_name lib
      else (foreach_symbol file.symbols ignore mangled_name
          || (file.is_elf && foreach_symbol file.dynamic_symbols ignore mangled_name))

  -- The part that uses the filter, which it builds on its first use. The library is a result
  -- because the source casts its const away; `none` is undefined behaviour.
  unfoldable pub filtered : LibraryPath → ObjectFile → Str → ℕ → Option (Bool × LibraryPath)
  filtered lib file mangled_name ignore =
      elim (if has_bloom_filter lib then some lib else build_bloom_filter lib file ignore) [
        | none ↦ none
        | some built ↦ elim (may_exist_symbol (gnu_hash mangled_name) built) [
          | none ↦ none
          | some false ↦ some (false, built)
          | some true ↦ some (look_through built file mangled_name ignore, built)
        ]
      ]

  -- The object file is that of the library's full name, `none` if it cannot be read.
  unfoldable pub contains_symbol :
      LibraryPath → Option ObjectFile → Str → ℕ → Option (Bool × LibraryPath)
  contains_symbol lib none mangled_name ignore = some (false, lib)
  contains_symbol lib (some file) mangled_name ignore =
      let rest : Option (Bool × LibraryPath) =
        if cfg.use_bloom_filter
        then filtered lib file mangled_name ignore
        else some (look_through lib file mangled_name ignore, lib) in
      elim (elf_filter file (gnu_hash mangled_name)) [
        | none ↦ none
        | some false ↦ some (false, lib)
        | some true ↦ rest
      ]
