-- ===== src/Streamer/Root.antt =====
-- wsh264/app/bitrate_ctrl.c: `int_sqrt` is the square root, rounded down.
use carplay_poc.Base.{
  pos, arith, ℕ, zero, ◌≡◌, ◌≤◌, Option, some, suc, ◌+◌, ◌*◌, ◌<◌, ◌-◌, ◌⊎◌, none, ap, false, ◌^◌,
  inr, inl, ◌/◌, refl, ltb, leb, ◌==◌, Bool-cases,
}
use carplay_poc.Streamer.BitRate.{sqrt_loop, int_sqrt}

pub mul_mono : (a b c d : ℕ) → a ≤ b → c ≤ d → a * c ≤ b * d
mul_mono zero b c d h k = omega arith
mul_mono (suc a) zero c d h k = absurd (omega arith)
mul_mono (suc a) (suc b) c d h k = omega (arith, mul_mono a b c d (omega arith) k)

square_suc : (k : ℕ) → (k + 1) * (k + 1) ≡ k * k + k + k + 1
square_suc k = omega (arith, mul_suc k k)
  where
    mul_suc : (a b : ℕ) → (a + 1) * (b + 1) ≡ a * b + a + b + 1
    mul_suc zero b = omega arith
    mul_suc (suc a) b = omega (arith, mul_suc a b)

small_root : (k : ℕ) → k * k ≤ 185361 → k ≤ 430
small_root k h = elim (Bool-cases (leb k 430)) [
  | inl y ↦ ground (arith, y)
  | inr n ↦
      let big : 431 * 431 ≤ k * k = mul_mono 431 k 431 k (ground (arith, n)) (ground (arith, n)) in
      absurd (omega arith)
]

-- r is the square root of x, rounded down.
abbrev pub IsRoot : ℕ → ℕ → Type 0
IsRoot x r = (r * r ≤ x) × (x < (r + 1) * (r + 1))

-- The root lies from `start - 1` on and up to `end`.
sqrt_loop_lem :
    (fuel x start end : ℕ) (ans : Option ℕ)
    → x ≤ 185361
    → 0 < start
    → start ≤ end + 1
    → end + 1 < fuel + start
    → (start - 1) * (start - 1) ≤ x
    → x < (end + 1) * (end + 1)
    → 0 < x
    → ((start ≡ 1) ⊎ (ans ≡ some (start - 1)))
    → start + end ≤ 92681
    → (r : ℕ) × (sqrt_loop fuel x start end ans ≡ some r) × IsRoot x r
unfolding sqrt_loop
sqrt_loop_lem zero x start end ans small pos_start order enough low high some_x known sum =
    absurd (omega arith)
sqrt_loop_lem (suc fuel) x start end ans small pos_start order enough low high some_x known sum =
    let mid = (start + end) / 2 in
    let top : mid * mid ≤ 46340 * 46340 =
      mul_mono mid 46340 mid 46340 (omega arith) (omega arith) in
    let fits : leb (2 ^ 31) (mid * mid) ≡ false = ground (arith, top) in
    elim (Bool-cases (ltb end start)) [
      | inl y ↦
          let over : start ≡ end + 1 = ground (arith, y) in
          elim known [
            | inl first ↦
                let none_left : end ≡ 0 = omega arith in
                absurd (omega (arith, ap (λ k. (k + 1) * (k + 1)) none_left))
            | inr found ↦
                let last : start - 1 ≡ end = omega arith in
                (end, rw (y, found, last) refl, (omega (arith, ap (λ k. k * k) last), high))
          ]
      | inr n ↦
          let inside : start ≤ end = ground (arith, n) in
          elim (Bool-cases (mid * mid == x)) [
            | inl same ↦
                let e : mid * mid ≡ x = ground (arith, same) in
                (mid, rw (n, fits, same) refl, (omega arith, omega (arith, square_suc mid)))
            | inr other ↦ elim (Bool-cases (leb (mid * mid) x)) [
              | inl below ↦
                  let le : mid * mid ≤ x = ground (arith, below) in
                  let less : mid ≤ 430 = small_root mid (omega arith) in
                  let back : (mid + 1 - 1) * (mid + 1 - 1) ≡ mid * mid =
                    ap (λ k. k * k) {x = mid + 1 - 1} {y = mid} (omega arith) in
                  let same : mid ≡ mid + 1 - 1 = omega arith in
                  rw (n, fits, other, below)
                    (sqrt_loop_lem fuel x (mid + 1) end (some mid) small (omega arith) (omega arith)
                      (omega arith) (omega (arith, back)) high some_x (inr (ap (λ k. some k) same))
                      (omega arith))
              | inr above ↦
                  let gt : x < mid * mid = ground (arith, above) in
                  let back : (mid - 1 + 1) * (mid - 1 + 1) ≡ mid * mid =
                    ap (λ k. k * k) {x = mid - 1 + 1} {y = mid} (omega arith) in
                  rw (n, fits, other, above)
                    (sqrt_loop_lem fuel x start (mid - 1) ans small pos_start (omega arith)
                      (omega arith) low (omega (arith, back)) some_x known (omega arith))
            ]
          ]
    ]

-- Up to 185361, which is a ratio of 724 between the frame sizes, the root is found: the greatest number whose
-- square is at most `x`. No square on the way leaves the range of an `int`, the result is always set, and
-- as many turns are enough as the number has halves, and two more.
pub int_sqrt-IsRoot :
    (fuel x : ℕ)
    → x ≤ 185361
    → x / 2 + 2 ≤ fuel
    → (r : ℕ) × (int_sqrt fuel (pos x) ≡ some r) × IsRoot x r
unfolding int_sqrt
int_sqrt-IsRoot fuel zero small enough = (0, refl, (omega arith, omega arith))
int_sqrt-IsRoot fuel (suc zero) small enough = (1, refl, (omega arith, omega arith))
int_sqrt-IsRoot fuel (suc (suc n)) small enough =
    let x = suc (suc n) in
    let step : int_sqrt fuel (pos x) ≡ sqrt_loop fuel x 1 (x / 2) none = ground arith in
    rw step (
      sqrt_loop_lem fuel x 1 (x / 2) none small (omega arith) (omega arith) (omega arith)
        (omega arith)
        (omega (
          arith,
          square_suc (x / 2),
          mul_mono 1 (x / 2) (x / 2) (x / 2) (omega arith) (omega arith),
        ))
        (omega arith) (inl refl) (omega arith))
