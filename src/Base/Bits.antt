-- ===== src/Base/Bits.antt =====
-- The bit operations at variables: one equation for the lowest digit of each, then `|` of disjoint
-- fields as a sum, `&` with a low mask as a remainder, and `^` as its own inverse.
use Prim.Native.Nat.{ℕ, zero, suc, ◌+◌, ◌*◌, ◌/◌, ◌%◌, ◌^◌, ◌≤◌, ◌<◌, min, max}
use Prim.Native.Nat.{bit_and, bit_or, bit_xor, bitwise, digits, differ}
use Prim.Native.Nat.{bit_and-bitwise, bit_or-bitwise, bit_xor-bitwise}
use mathlib.Core.Path.{◌≡◌, refl, ap}
use mathlib.Core.Bool.{Bool, true, false}
use mathlib.Core.Logic.{ite}
use native.Mathlib.Decide.{ℕ_discrete}
use native.Mathlib.Nat.{pow-suc}
use native.Mathlib.Omega.{arith}

-- `bitwise` recurs on digits under fuel; any fuel that covers the first argument gives one result.
module _ (z : ℕ → ℕ) (f : ℕ → ℕ → ℕ) where
  digits_enough : (n m a b : ℕ) → a ≤ n → a ≤ m → digits z f n a b ≡ digits z f m a b
  digits_enough zero zero a b p q = refl
  digits_enough zero (suc m) zero b p q = refl
  digits_enough zero (suc m) (suc a) b p q = absurd (omega arith)
  digits_enough (suc n) zero zero b p q = refl
  digits_enough (suc n) zero (suc a) b p q = absurd (omega arith)
  digits_enough (suc n) (suc m) zero b p q = refl
  digits_enough (suc n) (suc m) (suc a) b p q =
      ap (λ (t : ℕ). t * 2 + f (suc a % 2) (b % 2))
        (digits_enough n m (suc a / 2) (b / 2) (omega arith) (omega arith))

  lowest_digit :
      (a b : ℕ)
      → bitwise z f (suc a) b ≡ bitwise z f (suc a / 2) (b / 2) * 2 + f (suc a % 2) (b % 2)
  lowest_digit a b =
      ap (λ (t : ℕ). t * 2 + f (suc a % 2) (b % 2))
        (digits_enough a (suc a / 2) (suc a / 2) (b / 2) (omega arith) (omega arith))

or_digit : (a b : ℕ) → bit_or a b ≡ bit_or (a / 2) (b / 2) * 2 + max (a % 2) (b % 2)
or_digit zero b = simp bit_or-bitwise (omega arith)
or_digit (suc a) b = simp bit_or-bitwise (lowest_digit (λ y. y) max a b)

and_digit : (a b : ℕ) → bit_and a b ≡ bit_and (a / 2) (b / 2) * 2 + min (a % 2) (b % 2)
and_digit zero b = simp bit_and-bitwise (omega arith)
and_digit (suc a) b = simp bit_and-bitwise (lowest_digit (λ y. 0) min a b)

xor_digit : (a b : ℕ) → bit_xor a b ≡ bit_xor (a / 2) (b / 2) * 2 + differ (a % 2) (b % 2)
xor_digit zero b = simp bit_xor-bitwise (omega arith)
xor_digit (suc a) b = simp bit_xor-bitwise (lowest_digit (λ y. y) differ a b)

or-comm_enough : (n a b : ℕ) → a ≤ n → b ≤ n → bit_or a b ≡ bit_or b a
or-comm_enough zero zero zero p q = refl
or-comm_enough zero zero (suc b) p q = absurd (omega arith)
or-comm_enough zero (suc a) b p q = absurd (omega arith)
or-comm_enough (suc n) a b p q = omega (
  arith,
  or_digit a b,
  or_digit b a,
  or-comm_enough n (a / 2) (b / 2) (omega arith) (omega arith),
)

pub bit_or_comm : (a b : ℕ) → bit_or a b ≡ bit_or b a
bit_or_comm a b = or-comm_enough (a + b) a b (omega arith) (omega arith)

bit_or-zero : (a : ℕ) → bit_or a 0 ≡ a
bit_or-zero a = omega (arith, bit_or_comm a 0, zero-or a)
  where
    zero-or : (b : ℕ) → bit_or 0 b ≡ b
    zero-or b = simp bit_or-bitwise refl

double_field : (q k : ℕ) → q * 2 ^ suc k ≡ q * 2 ^ k * 2
double_field q k = omega (arith, ap (λ (t : ℕ). q * t) (pow-suc 2 k))

or_fields : (k q r : ℕ) → r < 2 ^ k → bit_or (q * 2 ^ k) r ≡ q * 2 ^ k + r
or_fields zero q r h = ground (arith, bit_or-zero q)
or_fields (suc k) q r h = ground (
  arith,
  or_digit (q * 2 ^ suc k) r,
  double_field q k,
  or_fields k q (r / 2) (omega (arith, pow-suc 2 k)),
)

-- `a | r` is a sum where `r` fits below the lowest digit that `a` uses.
pub bit_or_fields : (k q r : ℕ) {a : ℕ} → a ≡ q * 2 ^ k → r < 2 ^ k → bit_or a r ≡ a + r
bit_or_fields k q r e h = rw e (or_fields k q r h)

pub bit_or_fields_low : (k q r : ℕ) {a : ℕ} → a ≡ q * 2 ^ k → r < 2 ^ k → bit_or r a ≡ a + r
bit_or_fields_low k q r {a} e h = omega (arith, bit_or_comm r a, bit_or_fields k q r e h)

differ-lt : (x y : ℕ) → x < 2 → y < 2 → differ x y < 2
differ-lt zero y p q = q
differ-lt (suc zero) zero p q = p
differ-lt (suc zero) (suc zero) p q = omega arith
differ-lt (suc zero) (suc (suc y)) p q = absurd (omega arith)
differ-lt (suc (suc x)) y p q = absurd (omega arith)

differ_twice : (x y : ℕ) → x < 2 → y < 2 → differ (differ x y) y ≡ x
differ_twice zero zero p q = refl
differ_twice zero (suc zero) p q = refl
differ_twice (suc zero) zero p q = refl
differ_twice (suc zero) (suc zero) p q = refl
differ_twice x (suc (suc y)) p q = absurd (omega arith)
differ_twice (suc (suc x)) y p q = absurd (omega arith)

xor_enough : (n a b : ℕ) → a ≤ n → b ≤ n → bit_xor (bit_xor a b) b ≡ a
xor_enough zero zero zero p q = refl
xor_enough zero zero (suc b) p q = absurd (omega arith)
xor_enough zero (suc a) b p q = absurd (omega arith)
xor_enough (suc n) a b p q =
    let c = bit_xor a b in
    let low = differ-lt (a % 2) (b % 2) (omega arith) (omega arith) in
    let high : c / 2 ≡ bit_xor (a / 2) (b / 2) = omega (arith, xor_digit a b, low) in
    let digit : c % 2 ≡ differ (a % 2) (b % 2) = omega (arith, xor_digit a b, low) in
    rw (xor_digit c b, high, digit, differ_twice (a % 2) (b % 2) (omega arith) (omega arith))
      (omega (arith, xor_enough n (a / 2) (b / 2) (omega arith) (omega arith)))

-- Masking twice with the same value changes nothing.
pub bit_xor_twice : (a b : ℕ) → bit_xor (bit_xor a b) b ≡ a
bit_xor_twice a b = xor_enough (a + b) a b (omega arith) (omega arith)

xor-lt_pow : (k a b : ℕ) → a < 2 ^ k → b < 2 ^ k → bit_xor a b < 2 ^ k
xor-lt_pow zero zero zero p q = p
xor-lt_pow zero (suc a) b p q = absurd (omega arith)
xor-lt_pow zero zero (suc b) p q = absurd (omega arith)
xor-lt_pow (suc k) a b p q = omega (
  arith,
  xor_digit a b,
  differ-lt (a % 2) (b % 2) (omega arith) (omega arith),
  pow-suc 2 k,
  xor-lt_pow k (a / 2) (b / 2) (omega (arith, pow-suc 2 k)) (omega (arith, pow-suc 2 k)),
)

pub bit_xor-lt : (a b : ℕ) → a < 256 → b < 256 → bit_xor a b < 256
bit_xor-lt a b p q = xor-lt_pow 8 a b p q

-- Masks of one byte, each a table of 256 entries that is checked by evaluation.
module _ (f g : ℕ → ℕ) where
  agree_below : ℕ → Bool
  unfolding ℕ_discrete
  agree_below zero = true
  agree_below (suc n) = ite (ℕ_discrete (f n) (g n)) (agree_below n) false

  agree_below→eq : (n : ℕ) → agree_below n ≡ true → (i : ℕ) → i < n → f i ≡ g i
  unfolding agree_below
  agree_below→eq zero e i h = absurd (omega arith)
  agree_below→eq (suc n) e i h = ground (arith, agree_below→eq n (ground arith) i)

pub and_0f : (b : ℕ) → b < 256 → bit_and b 0x0f ≡ b % 16
unfolding agree_below
and_0f = agree_below→eq _ _ 256 refl

pub and_1f : (b : ℕ) → b < 256 → bit_and b 0x1f ≡ b % 32
unfolding agree_below
and_1f = agree_below→eq _ _ 256 refl

pub and_7f : (b : ℕ) → b < 256 → bit_and b 0x7f ≡ b % 128
unfolding agree_below
and_7f = agree_below→eq _ _ 256 refl

pub and_80 : (b : ℕ) → b < 256 → bit_and b 0x80 ≡ b / 128 * 128
unfolding agree_below
and_80 = agree_below→eq _ _ 256 refl

pub or_80 : (b : ℕ) → b < 128 → bit_or 0x80 b ≡ 128 + b
unfolding agree_below
or_80 = agree_below→eq _ _ 128 refl
