-- ===== src/Symbols/Filter/Members.antt =====
-- Symbols/Filter: what was added to a filter is found in it.
use native.Mathlib.Nat.{mod-lt}
use cpp_inter_op.Common.{
  ℕ, zero, suc, ◌/◌, ◌%◌, ◌^◌, ◌<◌, ◌≡◌, ◌≢◌, refl, sym, ap, ◌∙◌, bit_and, bit_or, Bool, true, List,
  [], ◌∷◌, some, ◌==◌, get_elem?, set, length, arith, ==_iff, get_elem?-set_self, length-set,
  bit_and-bit_or_self, bit_and-bit_or_keeps, Bool-cases, inl, inr,
}
use cpp_inter_op.Symbols.Filter.{BloomFilter, index_of, mask_of, test_hash, add_hash}

-- A table of the size that the filter says, which is not empty.
pub record IsTable (f : BloomFilter) : Type 0 where
  pub sized : length f.bloom_table ≡ f.bloom_size
  pub nonempty : f.bloom_size ≢ 0

in_bounds : (xs : List ℕ) (i : ℕ) → i < length xs → (w : ℕ) × (get_elem? xs i ≡ some w)
in_bounds [] i h = absurd (omega arith)
in_bounds (x ∷ xs) zero h = (x, refl)
in_bounds (x ∷ xs) (suc i) h = in_bounds xs i (omega arith)

index-in_bounds :
    (f : BloomFilter) (hash : ℕ) → IsTable f → hash / 2 ^ 6 % f.bloom_size < length f.bloom_table
index-in_bounds f hash t =
    omega (arith, t.sized, mod-lt (hash / 2 ^ 6) {m = f.bloom_size} (omega (arith, t.nonempty)))

-- A filter after the word of a hash is replaced.
abbrev with_word : ℕ → ℕ → BloomFilter → BloomFilter
with_word n w f = record f { bloom_table = set f.bloom_table n w }

add_hash-runs :
    (f : BloomFilter) (hash : ℕ)
    → f.bloom_size ≢ 0
    → (w : ℕ) → get_elem? f.bloom_table (hash / 2 ^ 6 % f.bloom_size) ≡ some w
    → add_hash hash f ≡ some (with_word (hash / 2 ^ 6 % f.bloom_size) (bit_or w (mask_of f hash)) f)
unfolding add_hash index_of
add_hash-runs f hash ne w e = elim (Bool-cases (f.bloom_size == 0)) [
  | inl z ↦ absurd (ne (ground (arith, z)))
  | inr nz ↦ rw (add_hash, nz, e) refl
]

test_hash-runs :
    (f : BloomFilter) (hash : ℕ)
    → f.bloom_size ≢ 0
    → (w : ℕ) → get_elem? f.bloom_table (hash / 2 ^ 6 % f.bloom_size) ≡ some w
    → test_hash hash f ≡ some (bit_and (mask_of f hash) w == mask_of f hash)
unfolding test_hash index_of
test_hash-runs f hash ne w e = elim (Bool-cases (f.bloom_size == 0)) [
  | inl z ↦ absurd (ne (ground (arith, z)))
  | inr nz ↦ rw (test_hash, nz, e) refl
]

word_of :
    (f : BloomFilter) (hash : ℕ)
    → IsTable f
    → (w : ℕ) × (get_elem? f.bloom_table (hash / 2 ^ 6 % f.bloom_size) ≡ some w)
word_of f hash t = in_bounds f.bloom_table (hash / 2 ^ 6 % f.bloom_size) (index-in_bounds f hash t)

with_word-IsTable : (n w : ℕ) (f : BloomFilter) → IsTable f → IsTable (with_word n w f)
with_word-IsTable n w f t = record {
  sized = length-set f.bloom_table n w ∙ t.sized;
  nonempty = t.nonempty;
}

test-with_word :
    (f : BloomFilter) (hash w : ℕ)
    → IsTable f
    → test_hash hash (with_word (hash / 2 ^ 6 % f.bloom_size) (bit_or w (mask_of f hash)) f)
      ≡ some true
unfolding mask_of
test-with_word f hash w t =
    test_hash-runs (with_word (hash / 2 ^ 6 % f.bloom_size) (bit_or w (mask_of f hash)) f) hash
      t.nonempty (bit_or w (mask_of f hash))
      (get_elem?-set_self f.bloom_table (hash / 2 ^ 6 % f.bloom_size) (bit_or w (mask_of f hash))
        (index-in_bounds f hash t))
    ∙ ap some (
        (==_iff (bit_and (mask_of f hash) (bit_or w (mask_of f hash))) (mask_of f hash)).1
          (bit_and-bit_or_self (mask_of f hash) w))

-- The word of one hash after a word gets more digits: the same or one with more digits.
word_after :
    (xs : List ℕ) (i j v x m : ℕ)
    → get_elem? xs i ≡ some v
    → (w : ℕ) → get_elem? xs j ≡ some w
    → bit_and m w ≡ m
    → (w' : ℕ) × (get_elem? (set xs i (bit_or v x)) j ≡ some w') × (bit_and m w' ≡ m)
word_after [] i j v x m e w e' h = absurd (ground (arith, e))
word_after (y ∷ xs) zero zero v x m e w e' h =
    (bit_or v x, refl, bit_and-bit_or_keeps m v x (ground (arith, e, e', h)))
word_after (y ∷ xs) zero (suc j) v x m e w e' h = (w, e', h)
word_after (y ∷ xs) (suc i) zero v x m e w e' h = (w, e', h)
word_after (y ∷ xs) (suc i) (suc j) v x m e w e' h = word_after xs i j v x m e w e' h

test_hash-keeps :
    (f : BloomFilter) (g hash v : ℕ)
    → IsTable f
    → get_elem? f.bloom_table (hash / 2 ^ 6 % f.bloom_size) ≡ some v
    → test_hash g f ≡ some true
    → test_hash g (with_word (hash / 2 ^ 6 % f.bloom_size) (bit_or v (mask_of f hash)) f)
      ≡ some true
unfolding mask_of
test_hash-keeps f g hash v t e h =
    let (w, e') = word_of f g t in
    let there = sym (test_hash-runs f g t.nonempty w e') ∙ h in
    let (w', e'', h') =
      word_after f.bloom_table (hash / 2 ^ 6 % f.bloom_size) (g / 2 ^ 6 % f.bloom_size) v
        (mask_of f hash) (mask_of f g) e w e'
        ((==_iff (bit_and (mask_of f g) w) (mask_of f g)).0 (ground (arith, there))) in
    test_hash-runs (with_word (hash / 2 ^ 6 % f.bloom_size) (bit_or v (mask_of f hash)) f) g
      t.nonempty w' e''
    ∙ ap some ((==_iff (bit_and (mask_of f g) w') (mask_of f g)).1 h')

-- Adding a hash to a table that is not empty stays within the table, and afterwards the hash is
-- found, and so is every hash that was found before.
pub add_hash_lem :
    (f : BloomFilter) (hash : ℕ)
    → IsTable f
    → (f' : BloomFilter) × (add_hash hash f ≡ some f')
      × IsTable f'
      × (f'.symbols_count ≡ f.symbols_count)
      × (f'.is_initialized ≡ f.is_initialized)
      × (test_hash hash f' ≡ some true)
      × ((g : ℕ) → test_hash g f ≡ some true → test_hash g f' ≡ some true)
add_hash_lem f hash t =
    let (w, e) = word_of f hash t in
    let n = hash / 2 ^ 6 % f.bloom_size in
    (
      with_word n (bit_or w (mask_of f hash)) f,
      add_hash-runs f hash t.nonempty w e,
      with_word-IsTable n (bit_or w (mask_of f hash)) f t,
      refl,
      refl,
      test-with_word f hash w t,
      λ g h. test_hash-keeps f g hash w t e h,
    )

-- A test stays within a table that is not empty.
pub test_hash-total :
    (f : BloomFilter) (hash : ℕ) → IsTable f → (b : Bool) × (test_hash hash f ≡ some b)
test_hash-total f hash t =
    let (w, e) = word_of f hash t in
    (bit_and (mask_of f hash) w == mask_of f hash, test_hash-runs f hash t.nonempty w e)
