-- ===== src/Cpu/Mean.antt =====
-- ameba_gateway/example_gateway_ameba.c: the load that the log shows is a mean over the last ten intervals.
use native.Mathlib.Nat.{le-div_iff_mul-le}
use carplay_poc.Base.{
  ◌≢◌, ℕ, zero, suc, ◌+◌, ◌-◌, ◌*◌, ◌/◌, ◌%◌, ◌^◌, ◌≤◌, ◌<◌, ◌≡◌, refl, ap, ◌∙◌, arith, List, [],
  ◌∷◌, ◌⊎◌, inl, inr, All, length, get_or, ltb, ◌==◌, Bool-cases, if◌then◌else◌, sub_size, u32,
  take, min, false, true,
}
use carplay_poc.Cpu.{Cpu, set, interval_pct, push_sample, update_sample, at_boot}

unfoldable pub total : List ℕ → ℕ
total [] = 0
total (x ∷ xs) = x + total xs

abbrev pub IsPercent : ℕ → Type 0
IsPercent n = n ≤ 100

-- The heartbeats after intervals with so many ticks and so many busy ticks, the last one first. The counters go round.
unfoldable pub heartbeats : List (ℕ × ℕ) → Cpu
heartbeats [] = at_boot
heartbeats ((ticks, busy) ∷ xs) =
    let c = heartbeats xs in update_sample (u32 (c.last_total + ticks)) (u32 (c.last_busy + busy)) c

-- The percentages of the intervals in which ticks passed, each rounded to the nearest, the last one first.
abbrev pub load : ℕ → ℕ → ℕ
load ticks busy = (min busy ticks * 100 + ticks / 2) / ticks

unfoldable pub loads : List (ℕ × ℕ) → List ℕ
loads [] = []
loads ((ticks, busy) ∷ xs) =
    let rest = loads xs in if ticks == 0 then rest else load ticks busy ∷ rest

length-set : (i x : ℕ) (xs : List ℕ) → length (set i x xs) ≡ length xs
length-set i x [] = refl
length-set zero x (y ∷ ys) = refl
length-set (suc i) x (y ∷ ys) = omega (arith, length-set i x ys)

get_or-set : (i x : ℕ) (xs : List ℕ) → i < length xs → get_or (set i x xs) i 0 ≡ x
get_or-set i x [] h = absurd (omega arith)
get_or-set zero x (y ∷ ys) h = refl
get_or-set (suc i) x (y ∷ ys) h = get_or-set i x ys (omega arith)

get_or-set_other : (i k x : ℕ) (xs : List ℕ) → k ≢ i → get_or (set i x xs) k 0 ≡ get_or xs k 0
get_or-set_other i k x [] h = refl
get_or-set_other zero zero x (y ∷ ys) h = absurd (h refl)
get_or-set_other zero (suc k) x (y ∷ ys) h = refl
get_or-set_other (suc i) zero x (y ∷ ys) h = refl
get_or-set_other (suc i) (suc k) x (y ∷ ys) h = get_or-set_other i k x ys (λ e. h (ap suc e))

total-take-le : (n : ℕ) (xs : List ℕ) → All IsPercent xs → total (take n xs) ≤ 100 * n
unfolding total
total-take-le zero xs h = omega arith
total-take-le (suc n) [] h = omega arith
total-take-le (suc n) (x ∷ xs) (hx, h) = omega (arith, total-take-le n xs h)

total-take_next :
    (n : ℕ) (xs : List ℕ) → total (take (suc n) xs) ≡ total (take n xs) + get_or xs n 0
unfolding total
total-take_next zero [] = refl
total-take_next zero (x ∷ xs) = omega arith
total-take_next (suc n) [] = refl
total-take_next (suc n) (x ∷ xs) = omega (arith, total-take_next n xs)

total-le_length :
    (n : ℕ) (xs : List ℕ) → All IsPercent xs → total (take n xs) ≤ 100 * min n (length xs)
unfolding total
total-le_length zero xs h = omega arith
total-le_length (suc n) [] h = omega arith
total-le_length (suc n) (x ∷ xs) (hx, h) = omega (arith, total-le_length n xs h)

-- The history is the ring of the last ten of these percentages, and the sum is theirs.
pub record IsHistory (c : Cpu) (ps : List ℕ) : Type 0 where
  pub ten : length c.busy_history ≡ 10
  pub index_in : c.history_index < 10
  pub kept :
      (j : ℕ) → j < 10 → get_or c.busy_history ((c.history_index + 9 - j) % 10) 0 ≡ get_or ps j 0
  pub sum_right : c.history_sum ≡ total (take 10 ps)
  pub count_right : c.history_count ≡ min 10 (length ps)
  pub percentages : All IsPercent ps
  pub total_fits : c.last_total < 2 ^ 32
  pub busy_fits : c.last_busy < 2 ^ 32

get_or-zeros : (k : ℕ) (xs : List ℕ) → All (λ x. x ≡ 0) xs → get_or xs k 0 ≡ 0
get_or-zeros k [] h = refl
get_or-zeros zero (x ∷ xs) (e, h) = e
get_or-zeros (suc k) (x ∷ xs) (e, h) = get_or-zeros k xs h

at_boot-IsHistory : IsHistory at_boot []
unfolding total
at_boot-IsHistory = record {
  ten = refl;
  index_in = omega arith;
  kept = λ j h.
      get_or-zeros ((0 + 9 - j) % 10) at_boot.busy_history
        (refl, (refl, (refl, (refl, (refl, (refl, (refl, (refl, (refl, (refl, tt))))))))));
  sum_right = refl;
  count_right = refl;
  percentages = tt;
  total_fits = omega arith;
  busy_fits = omega arith;
}

mean-IsPercent : (n k : ℕ) → 0 < k → n < 101 * k → IsPercent (n / k)
mean-IsPercent n k hk h = ground (arith, le-div_iff_mul-le {k = k} {x = 101} {y = n} hk)

-- The place of a percentage after a push.
kept-push :
    (index p j : ℕ) (history ps : List ℕ)
    → length history ≡ 10
    → index < 10
    → j < 10
    → ((i : ℕ) → i < 10 → get_or history ((index + 9 - i) % 10) 0 ≡ get_or ps i 0)
    → get_or (set index p history) ((u32 (index + 1) % 10 + 9 - j) % 10) 0 ≡ get_or (p ∷ ps) j 0
kept-push index p zero history ps ten small h kept =
    let place : (u32 (index + 1) % 10 + 9 - 0) % 10 ≡ index = omega arith in
    ap (λ k. get_or (set index p history) k 0) place ∙ get_or-set index p history (omega arith)
kept-push index p (suc j) history ps ten small h kept =
    let place : (u32 (index + 1) % 10 + 9 - suc j) % 10 ≡ (index + 9 - j) % 10 = omega arith in
    let other : (index + 9 - j) % 10 ≢ index = λ e. absurd (omega (arith, e)) in
    ap (λ k. get_or (set index p history) k 0) place
    ∙ get_or-set_other index ((index + 9 - j) % 10) p history other
    ∙ kept j (omega arith)

-- One more interval in the history.
push_sample-IsHistory :
    (p : ℕ) (c : Cpu) (ps : List ℕ)
    → IsPercent p
    → IsHistory c ps
    → let c' = push_sample p c in
      IsHistory c' (p ∷ ps)
      × (c'.busy_pct ≡ total (take 10 (p ∷ ps)) / min 10 (length (p ∷ ps)))
      × (c'.busy_pct + c'.idle_pct ≡ 100)
unfolding push_sample total
push_sample-IsHistory p c ps h v =
    let old = get_or c.busy_history c.history_index 0 in
    let oldest : old ≡ get_or ps 9 0 =
      ap (λ k. get_or c.busy_history k 0) (omega (arith, v.index_in)) ∙ v.kept 9 (omega arith) in
    let split = total-take_next 9 ps in
    let few = total-take-le 9 ps v.percentages in
    let bound = total-le_length 10 (p ∷ ps) (h, v.percentages) in
    let sum = u32 (sub_size c.history_sum old + p) in
    let right : sum ≡ p + total (take 9 ps) =
      omega (arith, oldest, split, few, v.sum_right, total-take-le 10 ps v.percentages) in
    let count = if ltb c.history_count 10 then u32 (c.history_count + 1) else c.history_count in
    let counted : count ≡ min 10 (suc (length ps)) = ground (arith, v.count_right) in
    let percent = mean-IsPercent sum count (omega arith) (omega (arith, right, bound)) in
    (
      record {
        ten = omega (arith, length-set c.history_index p c.busy_history, v.ten);
        index_in = omega arith;
        kept = λ j hj. kept-push c.history_index p j c.busy_history ps v.ten v.index_in hj v.kept;
        sum_right = right;
        count_right = counted;
        percentages = (h, v.percentages);
        total_fits = v.total_fits;
        busy_fits = v.busy_fits;
      },
      ap (λ n. n / count) right ∙ ap (λ n. (p + total (take 9 ps)) / n) counted,
      omega arith,
    )

interval_pct-load :
    (ticks busy : ℕ)
    → 0 < ticks
    → ticks ≤ 42000000
    → (interval_pct ticks busy ≡ load ticks busy) × IsPercent (load ticks busy)
unfolding interval_pct
interval_pct-load ticks busy pos small =
    let percent = mean-IsPercent (min busy ticks * 100 + ticks / 2) ticks pos (omega arith) in
    let least = if ltb ticks busy then ticks else busy in
    let same : least ≡ min busy ticks = ground arith in
    let straight : u32 (u32 (least * 100) + ticks / 2) ≡ min busy ticks * 100 + ticks / 2 =
      omega (arith, same) in
    (
      ap (λ n. if ltb 100 (n / ticks) then 100 else n / ticks) straight
          ∙ clamped (load ticks busy) percent,
      percent,
    )
  where
    clamped : (q : ℕ) → q ≤ 100 → (if ltb 100 q then 100 else q) ≡ q
    clamped q h = ground arith

-- A heartbeat after an interval.
update_sample-IsHistory :
    (ticks busy : ℕ) (c : Cpu) (ps : List ℕ)
    → ticks ≤ 42000000
    → busy < 2 ^ 32
    → IsHistory c ps
    → let c' = update_sample (u32 (c.last_total + ticks)) (u32 (c.last_busy + busy)) c in
      ((ticks ≡ 0) × IsHistory c' ps × (c'.busy_pct ≡ 0) × (c'.idle_pct ≡ 0))
      ⊎ ((ticks ≢ 0)
          × (let ps' = load ticks busy ∷ ps in
              IsHistory c' ps'
              × (c'.busy_pct ≡ total (take 10 ps') / min 10 (length ps'))
              × (c'.busy_pct + c'.idle_pct ≡ 100)))
unfolding update_sample
update_sample-IsHistory ticks busy c ps small fits v =
    let new_total = u32 (c.last_total + ticks) in
    let new_busy = u32 (c.last_busy + busy) in
    let c₀ = record c {
      last_total = new_total;
      last_busy = new_busy;
      sample_ticks = sub_size new_total c.last_total;
    } in
    let delta : sub_size new_total c.last_total ≡ ticks = omega (arith, v.total_fits) in
    let delta_busy : sub_size new_busy c.last_busy ≡ busy = omega (arith, v.busy_fits) in
    elim (Bool-cases (ticks == 0)) [
      | inl y ↦
          let step : update_sample new_total new_busy c ≡ record c₀ { busy_pct = 0; idle_pct = 0 } =
            ground (arith, y, delta) in
          rw step (
            inl (
              ground (arith, y),
              record {
                ten = v.ten;
                index_in = v.index_in;
                kept = v.kept;
                sum_right = v.sum_right;
                count_right = v.count_right;
                percentages = v.percentages;
                total_fits = omega arith;
                busy_fits = omega arith;
              },
              refl,
              refl,
            ))
      | inr n ↦
          let (right, percent) = interval_pct-load ticks busy (ground (arith, n)) small in
          let w : IsHistory c₀ ps = record {
            ten = v.ten;
            index_in = v.index_in;
            kept = v.kept;
            sum_right = v.sum_right;
            count_right = v.count_right;
            percentages = v.percentages;
            total_fits = omega arith;
            busy_fits = omega arith;
          } in
          let step : update_sample new_total new_busy c ≡ push_sample (load ticks busy) c₀ =
            ground (arith, n, delta, delta_busy, right) in
          rw step (inr (ground (arith, n), push_sample-IsHistory (load ticks busy) c₀ ps percent w))
    ]

-- Each interval has at most 42 million ticks, and a busy count of 32 bits.
abbrev pub IsShort : ℕ × ℕ → Type 0
IsShort x = (x.0 ≤ 42000000) × (x.1 < 2 ^ 32)

heartbeats-IsHistory : (xs : List (ℕ × ℕ)) → All IsShort xs → IsHistory (heartbeats xs) (loads xs)
unfolding heartbeats loads
heartbeats-IsHistory [] h = at_boot-IsHistory
heartbeats-IsHistory ((ticks, busy) ∷ xs) ((small, fits), h) =
    elim (update_sample-IsHistory ticks busy (heartbeats xs) (loads xs) small fits
      (heartbeats-IsHistory xs h)) [
        | inl (none_passed, v, no_busy, no_idle) ↦
            let y : (ticks == 0) ≡ true = ground (arith, none_passed) in rw y v
        | inr (passed, (v, mean, whole)) ↦
            let n : (ticks == 0) ≡ false = ground (arith, passed) in rw n v
      ]

-- Whatever the intervals since the program was loaded, the load that a heartbeat shows is the mean, rounded down, of the percentages
-- of the last ten intervals in which ticks passed, or of as many as there were, and it makes 100 with the idle share; each percentage is
-- rounded to the nearest. After an interval without ticks both shares are 0. No interval has more than 42 million ticks; the
-- counters may go round.
pub heartbeats_lem :
    (ticks busy : ℕ) (xs : List (ℕ × ℕ))
    → All IsShort ((ticks, busy) ∷ xs)
    → let c = heartbeats ((ticks, busy) ∷ xs) in
      let ps = loads ((ticks, busy) ∷ xs) in
      ((ticks ≡ 0) × (c.busy_pct ≡ 0) × (c.idle_pct ≡ 0))
      ⊎ ((ticks ≢ 0)
          × (c.busy_pct ≡ total (take 10 ps) / min 10 (length ps))
          × (c.busy_pct + c.idle_pct ≡ 100))
unfolding heartbeats loads
heartbeats_lem ticks busy xs ((small, fits), h) =
    elim (update_sample-IsHistory ticks busy (heartbeats xs) (loads xs) small fits
      (heartbeats-IsHistory xs h)) [
        | inl (none_passed, v, no_busy, no_idle) ↦ inl (none_passed, no_busy, no_idle)
        | inr (passed, (v, mean, whole)) ↦
            let n : (ticks == 0) ≡ false = ground (arith, passed) in
            rw n (inr (passed, mean, whole))
      ]
