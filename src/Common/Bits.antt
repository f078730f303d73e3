-- ===== src/Common/Bits.antt =====
-- Bitwise operations, digit by digit.
use Prim.Native.Nat.{
  ℕ, zero, suc, ◌+◌, ◌*◌, ◌/◌, ◌%◌, ◌≤◌, min, max, bit_and, bit_or, digits, bit_and-bitwise,
  bit_or-bitwise,
}
use mathlib.Core.Path.{◌≡◌, refl, ap}
use native.Mathlib.Omega.{arith}

-- The count of digits to go does not matter once it is enough.
digits_count :
    (z : ℕ → ℕ) (f : ℕ → ℕ → ℕ) (n m a b : ℕ) → a ≤ n → a ≤ m → digits z f n a b ≡ digits z f m a b
digits_count z f zero zero a b p q = refl
digits_count z f zero (suc m) zero b p q = refl
digits_count z f zero (suc m) (suc a) b p q = absurd (omega arith)
digits_count z f (suc n) zero zero b p q = refl
digits_count z f (suc n) zero (suc a) b p q = absurd (omega arith)
digits_count z f (suc n) (suc m) zero b p q = refl
digits_count z f (suc n) (suc m) (suc a) b p q =
    ap (λ r. r * 2 + f (suc a % 2) (b % 2))
      (digits_count z f n m (suc a / 2) (b / 2) (omega arith) (omega arith))

zero-bit_and : (b : ℕ) → bit_and 0 b ≡ 0
zero-bit_and b = bit_and-bitwise 0 b

zero-bit_or : (b : ℕ) → bit_or 0 b ≡ b
zero-bit_or b = bit_or-bitwise 0 b

pub bit_and_rec : (a b : ℕ) → bit_and a b ≡ bit_and (a / 2) (b / 2) * 2 + min (a % 2) (b % 2)
bit_and_rec zero b = omega (arith, zero-bit_and b, zero-bit_and (b / 2))
bit_and_rec (suc a) b = omega (
  arith,
  bit_and-bitwise (suc a) b,
  bit_and-bitwise (suc a / 2) (b / 2),
  digits_count (λ b. zero) min a (suc a / 2) (suc a / 2) (b / 2) (omega arith) (omega arith),
)

pub bit_or_rec : (a b : ℕ) → bit_or a b ≡ bit_or (a / 2) (b / 2) * 2 + max (a % 2) (b % 2)
bit_or_rec zero b = omega (arith, zero-bit_or b, zero-bit_or (b / 2))
bit_or_rec (suc a) b = omega (
  arith,
  bit_or-bitwise (suc a) b,
  bit_or-bitwise (suc a / 2) (b / 2),
  digits_count (λ b. b) max a (suc a / 2) (suc a / 2) (b / 2) (omega arith) (omega arith),
)

or_half :
    (a b : ℕ) → (bit_or a b / 2 ≡ bit_or (a / 2) (b / 2)) × (bit_or a b % 2 ≡ max (a % 2) (b % 2))
or_half a b = (omega (arith, bit_or_rec a b), omega (arith, bit_or_rec a b))

absorb_count : (n m t : ℕ) → m ≤ n → bit_and m (bit_or t m) ≡ m
absorb_count n zero t h = zero-bit_and (bit_or t 0)
absorb_count zero (suc m) t h = absurd (omega arith)
absorb_count (suc n) (suc m) t h =
    let (half, low) = or_half t (suc m) in
    omega (
      arith,
      bit_and_rec (suc m) (bit_or t (suc m)),
      ap (bit_and (suc m / 2)) half,
      low,
      absorb_count n (suc m / 2) (t / 2) (omega arith),
    )

-- The digits set by an `or` are there.
pub bit_and-bit_or_self : (m t : ℕ) → bit_and m (bit_or t m) ≡ m
bit_and-bit_or_self m t = absorb_count m m t (omega arith)

keep_count : (n m w x : ℕ) → m ≤ n → bit_and m w ≡ m → bit_and m (bit_or w x) ≡ m
keep_count n zero w x h e = zero-bit_and (bit_or w x)
keep_count zero (suc m) w x h e = absurd (omega arith)
keep_count (suc n) (suc m) w x h e =
    let (half, low) = or_half w x in
    let rec = bit_and_rec (suc m) w in
    omega (
      arith,
      bit_and_rec (suc m) (bit_or w x),
      ap (bit_and (suc m / 2)) half,
      low,
      keep_count n (suc m / 2) (w / 2) (x / 2) (omega arith) (omega (arith, rec, e)),
      rec,
    )

-- An `or` with anything keeps the digits that are there.
pub bit_and-bit_or_keeps : (m w x : ℕ) → bit_and m w ≡ m → bit_and m (bit_or w x) ≡ m
bit_and-bit_or_keeps m w x e = keep_count m m w x (omega arith) e
