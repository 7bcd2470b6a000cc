-- ===== src/Base/Int.antt =====
-- Signed integers over the native numbers, and the casts and operations of C's `int`.
use Prim.Native.Nat.{ℕ, suc, ◌+◌, ◌-◌, ◌*◌, ◌/◌, ◌%◌, ◌^◌, ◌≤◌}
use mathlib.Core.Bool.{Bool, not, ◌&&◌, ◌||◌}
use mathlib.Core.Option.{Option, none, some}
use carplay_poc.Base.Tests.{ltb, leb, ◌==◌, if◌then◌else◌}

-- `negsuc n` is -(n + 1).
pub data ℤ : Type 0 where
  pos : ℕ → ℤ
  negsuc : ℕ → ℤ

-- the two parts of an integer, which `omega` reads
abbrev pub pos_part : ℤ → ℕ
pos_part (pos n) = n
pos_part (negsuc n) = 0

abbrev pub neg_part : ℤ → ℕ
neg_part (pos n) = 0
neg_part (negsuc n) = suc n

-- a - b of two numbers
abbrev pub sub_ℕ : ℕ → ℕ → ℤ
sub_ℕ a b = if leb b a then pos (a - b) else negsuc (b - a - 1)

infix 50 ◌≤ℤ◌
abbrev pub ◌≤ℤ◌ : ℤ → ℤ → Type 0
a ≤ℤ b = pos_part a + neg_part b ≤ pos_part b + neg_part a

abbrev pub ltb_ℤ : ℤ → ℤ → Bool
ltb_ℤ a b = ltb (pos_part a + neg_part b) (pos_part b + neg_part a)

-- an integer as a word of `w` bits, and the low 32 bits of a word as an `int`
unfoldable pub word_of : ℕ → ℤ → ℕ
word_of w (pos n) = n % 2 ^ w
word_of w (negsuc n) = 2 ^ w - 1 - n % 2 ^ w

unfoldable pub int_of_word : ℕ → ℤ
int_of_word n =
    if ltb (n % 2 ^ 32) (2 ^ 31) then pos (n % 2 ^ 32) else negsuc (2 ^ 32 - 1 - n % 2 ^ 32)

-- An `int` that goes round: C leaves this open, and the targets' compilers do it.
unfoldable pub int32 : ℤ → ℤ
unfolding word_of int_of_word
int32 a = int_of_word (word_of 32 a)

infixl 65 ◌+ℤ◌ ◌-ℤ◌
unfoldable pub ◌+ℤ◌ : ℤ → ℤ → ℤ
unfolding int32
a +ℤ b = int32 (sub_ℕ (pos_part a + pos_part b) (neg_part a + neg_part b))

unfoldable pub ◌-ℤ◌ : ℤ → ℤ → ℤ
unfolding int32
a -ℤ b = int32 (sub_ℕ (pos_part a + neg_part b) (neg_part a + pos_part b))

-- `a << k` and `a * 2 ^ k`; `a >> k`, which rounds down
unfoldable pub shl : ℤ → ℕ → ℤ
unfolding int32
shl a k = int32 (sub_ℕ (pos_part a * 2 ^ k) (neg_part a * 2 ^ k))

unfoldable pub shr : ℤ → ℕ → ℤ
shr (pos n) k = pos (n / 2 ^ k)
shr (negsuc n) k = negsuc (n / 2 ^ k)

-- `a / b`, which rounds towards 0; `none` where `b` is 0
unfoldable pub div_int : ℤ → ℤ → Option ℤ
unfolding int32
div_int a b =
    let q = (pos_part a + neg_part a) / (pos_part b + neg_part b) in
    if pos_part b + neg_part b == 0
    then none
    else if neg_part a == 0 && neg_part b == 0 || not (neg_part a == 0) && not (neg_part b == 0)
    then some (int32 (pos q))
    else some (sub_ℕ 0 q)
