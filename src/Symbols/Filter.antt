-- ===== src/Symbols/Filter.antt =====
-- lib/CppInterOp/DynamicLibraryManagerSymbol.cpp: GNUHash, BloomFilter and LibraryPath.
pub mod Members
use cpp_inter_op.Common.{
  ℕ, zero, suc, ◌+◌, ◌-◌, ◌*◌, ◌/◌, ◌%◌, ◌^◌, min, bit_and, bit_or, Bool, true, false, ◌&&◌, ◌||◌,
  not, List, [], ◌∷◌, ◌++◌, Option, none, some, ◌==◌, if◌then◌else◌, Str, is_empty, str_eq,
  contains, get_elem?, set, length, replicate, ltb,
}

-- The hash goes through the bytes in order; a hash is a number of 32 bits.
unfoldable pub gnu_hash_from : ℕ → Str → ℕ
gnu_hash_from h [] = h
gnu_hash_from h (c ∷ s) = gnu_hash_from ((h * 2 ^ 5 + h + c) % 2 ^ 32) s

unfoldable pub gnu_hash : Str → ℕ
unfolding gnu_hash_from
gnu_hash s = gnu_hash_from 5381 s

-- The recursion of log2u, with fuel for 32 bits.
unfoldable pub log2u_steps : ℕ → ℕ → ℕ
log2u_steps zero n = 0
log2u_steps (suc fuel) n = let rest = log2u_steps fuel (n / 2) in if ltb 1 n then 1 + rest else 0

unfoldable pub log2u : ℕ → ℕ
unfolding log2u_steps
log2u n = log2u_steps 32 n

pub record BloomFilter : Type 0 where
  pub is_initialized : Bool
  pub symbols_count : ℕ
  pub bloom_size : ℕ
  pub bloom_shift : ℕ
  pub bloom_table : List ℕ

abbrev pub empty_filter : BloomFilter
empty_filter = record {
  is_initialized = false;
  symbols_count = 0;
  bloom_size = 0;
  bloom_shift = 0;
  bloom_table = [];
}

-- The index and the mask that TestHash and AddHash compute; the index of an empty table has no
-- meaning.
unfoldable pub index_of : BloomFilter → ℕ → Option ℕ
index_of f hash = if f.bloom_size == 0 then none else some (hash / 2 ^ 6 % f.bloom_size)

unfoldable pub mask_of : BloomFilter → ℕ → ℕ
mask_of f hash = bit_or (2 ^ (hash % 64)) (2 ^ (hash / 2 ^ f.bloom_shift % 64))

-- `none` where the source reads or writes out of the table.
unfoldable pub test_hash : ℕ → BloomFilter → Option Bool
unfolding index_of mask_of
test_hash hash f = elim (index_of f hash) [
  | none ↦ none
  | some n ↦ elim (get_elem? f.bloom_table n) [
    | none ↦ none
    | some word ↦ some (bit_and (mask_of f hash) word == mask_of f hash)
  ]
]

unfoldable pub add_hash : ℕ → BloomFilter → Option BloomFilter
unfolding index_of mask_of
add_hash hash f = elim (index_of f hash) [
  | none ↦ none
  | some n ↦ elim (get_elem? f.bloom_table n) [
    | none ↦ none
    | some word ↦
        some (record f { bloom_table = set f.bloom_table n (bit_or word (mask_of f hash)) })
  ]
]

-- LibraryPath: the base path, the name, the filter and the set of symbols.
pub record LibraryPath : Type 0 where
  pub path : Str
  pub lib_name : Str
  pub filter : BloomFilter
  pub symbols : List Str

unfoldable pub has_bloom_filter : LibraryPath → Bool
has_bloom_filter l = l.filter.is_initialized

unfoldable pub is_bloom_filter_empty : LibraryPath → Bool
is_bloom_filter_empty l = l.filter.symbols_count == 0

unfoldable pub may_exist_symbol : ℕ → LibraryPath → Option Bool
unfolding is_bloom_filter_empty test_hash
may_exist_symbol hash l = if is_bloom_filter_empty l then some false else test_hash hash l.filter

unfoldable pub exist_symbol : Str → LibraryPath → Bool
unfolding contains
exist_symbol symbol l = contains symbol l.symbols

-- The set keeps one of each symbol.
unfoldable pub add_symbol : Str → LibraryPath → LibraryPath
unfolding contains
add_symbol symbol l = record l {
  symbols = if contains symbol l.symbols then l.symbols else l.symbols ++ symbol ∷ [];
}

unfoldable pub add_bloom : Str → LibraryPath → Option LibraryPath
unfolding add_hash gnu_hash
add_bloom symbol l = elim (add_hash (gnu_hash symbol) l.filter) [
  | none ↦ none
  | some f ↦ some (record l { filter = f })
]

-- The size of the table is computed in floats, which is an argument.
module _ (table_size : ℕ → ℕ) where
  unfoldable pub resize_table : ℕ → BloomFilter → BloomFilter
  unfolding log2u
  resize_table count f = record f {
    symbols_count = count;
    bloom_size = table_size count;
    bloom_shift = min 6 (log2u count);
    bloom_table = replicate (table_size count) 0;
  }

  unfoldable pub initialize_bloom_filter : ℕ → LibraryPath → LibraryPath
  unfolding resize_table
  initialize_bloom_filter count l = record l {
    filter = resize_table count (record l.filter { is_initialized = true });
  }
