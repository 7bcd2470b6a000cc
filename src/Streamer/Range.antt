-- ===== src/Streamer/Range.antt =====
-- wsh264/app/bitrate_ctrl.c: the quantiser lies in its range.
use native.Mathlib.Nat.{div-add-mod}
use carplay_poc.Base.{
  ℤ, pos, negsuc, some, arith, ℕ, ◌≡◌, ◌≤ℤ◌, ◌/◌, ◌*◌, ◌<◌, ◌^◌, ◌+◌, ◌≤◌, word_of, int_of_word,
  int32, shl, div_int, true, refl, ◌∙◌, suc, inr, ap, inl, false, Bool, ap₂, if◌then◌else◌,
  Bool-cases, sub_ℕ, ltb_ℤ, ◌+ℤ◌, ◌-ℤ◌, shr, List, bit_and, length, byte_at, sym,
}
use carplay_poc.Streamer.BitRate.{
  Ctrl, step_qp, update_qp, clamp, qp_shift, average_step, note_p, count_frame, update_frame,
}
use carplay_poc.Streamer.Root.{mul_mono, int_sqrt-IsRoot}

clamp-range :
    (c : Ctrl) (qp : ℤ) → c.min_qp ≤ℤ c.max_qp → (c.min_qp ≤ℤ clamp c qp) × (clamp c qp ≤ℤ c.max_qp)
unfolding clamp
clamp-range c qp h = ground arith

le_left : (a b d : ℤ) → a ≡ b → a ≤ℤ d → b ≤ℤ d
le_left a b d e h = rw (← e) h

le_right : (a b d : ℤ) → b ≡ d → a ≤ℤ b → a ≤ℤ d
le_right a b d e h = rw (← e) h

-- a size in the fixed-point scale that can be divided by and shifted: from 46 bytes to 32 KiB
abbrev pub IsScale : ℕ → Type 0
IsScale n = (11586 ≤ n) × (n < 2 ^ 23)

int32_small : (n : ℕ) → n < 2 ^ 31 → int32 (pos n) ≡ pos n
unfolding int32 word_of int_of_word
int32_small n h = ground arith

shl_small : (n : ℕ) → n < 2 ^ 23 → shl (pos n) 8 ≡ pos (n * 256)
unfolding shl
shl_small n h =
    let e : sub_ℕ (n * 2 ^ 8) (0 * 2 ^ 8) ≡ pos (n * 256) = ground arith in
    rw e (int32_small (n * 256) (omega arith))

div_int_pos : (a b : ℕ) → 0 < b → a / b < 2 ^ 31 → div_int (pos a) (pos b) ≡ some (pos (a / b))
unfolding div_int
div_int_pos a b h small =
    let same : (a + 0) / (b + 0) ≡ a / b = ap₂ (λ x y. x / y) (omega arith) (omega arith) in
    let step : div_int (pos a) (pos b) ≡ some (int32 (pos ((a + 0) / (b + 0)))) = ground arith in
    step ∙ ap (λ n. some (int32 (pos n))) same ∙ ap (λ z. some z) (int32_small (a / b) small)

-- the quotient of two such sizes, in the scale
slope_small :
    (a b : ℕ)
    → IsScale a
    → IsScale b
    → (s : ℕ) × (div_int (shl (pos a) 8) (pos b) ≡ some (pos s)) × (s ≤ 185361)
slope_small a b ha hb =
    let q = a * 256 / b in
    let bound : 11586 * q ≤ a * 256 =
      omega
        (arith, mul_mono 11586 b q q (omega (arith, hb)) (omega arith), div-add-mod (a * 256) b) in
    (
      q,
      rw (shl_small a (omega (arith, ha)))
          (div_int_pos (a * 256) b (omega (arith, hb)) (omega (arith, bound, ha))),
      omega (arith, bound, ha),
    )

step_qp_lem :
    (fuel : ℕ) (up : Bool) (s : ℕ) (c : Ctrl)
    → s ≤ 185361
    → 92682 ≤ fuel
    → (c' : Ctrl) × (step_qp fuel up (pos s) c ≡ some c')
      × (c'.min_qp ≡ c.min_qp)
      × (c'.max_qp ≡ c.max_qp)
unfolding step_qp
step_qp_lem fuel up s c h enough =
    let (r, e, root) = int_sqrt-IsRoot fuel s h (omega arith) in
    let qp = if up then c.cal_qp +ℤ pos (r / 9) else c.cal_qp -ℤ pos (r / 9) in
    let low = shl c.min_qp qp_shift in
    let high = shl c.max_qp qp_shift in
    let qp' = if ltb_ℤ qp low then low else qp in
    (record c { cal_qp = if ltb_ℤ high qp' then high else qp' }, ground (arith, e), refl, refl)

div_two : (a : ℤ) → (q : ℤ) × (div_int a (pos 2) ≡ some q)
unfolding div_int int32 word_of int_of_word
div_two (pos n) = (int32 (pos ((n + 0) / 2)), ground arith)
div_two (negsuc n) = (sub_ℕ 0 ((0 + suc n) / 2), ground arith)

update_qp-up :
    (fuel s : ℕ) (c c' : Ctrl)
    → ltb_ℤ (pos average_step) c.frame_count ≡ true
    → ltb_ℤ c.target_frame_size c.average_size ≡ true
    → div_int (shl c.average_size 8) c.target_frame_size ≡ some (pos s)
    → step_qp fuel true (pos s) c ≡ some c'
    → update_qp fuel c ≡ some (shr c'.cal_qp qp_shift, c')
unfolding update_qp
update_qp-up fuel s c c' many up slope e =
    let e' = ap (λ b. step_qp fuel b (pos s) c) up ∙ e in rw (many, up, slope) (rw e' refl)

update_qp-down :
    (fuel s : ℕ) (c c' : Ctrl)
    → ltb_ℤ (pos average_step) c.frame_count ≡ true
    → ltb_ℤ c.target_frame_size c.average_size ≡ false
    → div_int (shl c.target_frame_size 8) c.average_size ≡ some (pos s)
    → step_qp fuel false (pos s) c ≡ some c'
    → update_qp fuel c ≡ some (shr c'.cal_qp qp_shift, c')
unfolding update_qp
update_qp-down fuel s c c' many down slope e =
    let e' = ap (λ b. step_qp fuel b (pos s) c) down ∙ e in rw (many, down, slope) (rw e' refl)

update_qp_lem :
    (fuel : ℕ) (c : Ctrl) (a t : ℕ)
    → 92682 ≤ fuel
    → c.average_size ≡ pos a
    → c.target_frame_size ≡ pos t
    → IsScale a
    → IsScale t
    → (qp : ℤ) × (c' : Ctrl) × (update_qp fuel c ≡ some (qp, c'))
      × (c'.min_qp ≡ c.min_qp)
      × (c'.max_qp ≡ c.max_qp)
unfolding update_qp
update_qp_lem fuel c a t enough ea et ha ht =
    elim (Bool-cases (ltb_ℤ (pos average_step) c.frame_count)) [
      | inr few ↦
          let (q, e) = div_two (c.min_qp +ℤ c.max_qp) in (q, c, ground (arith, few, e), refl, refl)
      | inl many ↦ elim (Bool-cases (ltb_ℤ c.target_frame_size c.average_size)) [
        | inl up ↦
            let (s, e, h) = slope_small a t ha ht in
            let (c', e', lo, hi) = step_qp_lem fuel true s c h enough in
            let slope : div_int (shl c.average_size 8) c.target_frame_size ≡ some (pos s) =
              rw (ea, et) e in
            (shr c'.cal_qp qp_shift, c', update_qp-up fuel s c c' many up slope e', lo, hi)
        | inr down ↦
            let (s, e, h) = slope_small t a ht ha in
            let (c', e', lo, hi) = step_qp_lem fuel false s c h enough in
            let slope : div_int (shl c.target_frame_size 8) c.average_size ≡ some (pos s) =
              rw (ea, et) e in
            (shr c'.cal_qp qp_shift, c', update_qp-down fuel s c c' many down slope e', lo, hi)
      ]
    ]

-- Whatever was computed before, the quantiser for the frame after a P frame lies between the least and the greatest
-- one, and there always is one. The average and the target are sizes from 46 bytes to 32 KiB, and the turns
-- for the root are enough.
pub update_frame-range :
    (fuel : ℕ) (frame : List ℕ) (c : Ctrl) (a t : ℕ)
    → 92682 ≤ fuel
    → bit_and (byte_at frame 0) 0x1F ≡ 1
    → c.min_qp ≤ℤ c.max_qp
    → (note_p (length frame) c).average_size ≡ pos a
    → c.target_frame_size ≡ pos t
    → IsScale a
    → IsScale t
    → (qp : ℤ) × (c' : Ctrl) × (update_frame fuel frame c ≡ some (qp, c'))
      × (c.min_qp ≤ℤ qp)
      × (qp ≤ℤ c.max_qp)
unfolding update_frame count_frame
update_frame-range fuel frame c a t enough p order ea et ha ht =
    let c₁ = note_p (length frame) c in
    let (qp, c', e, lo, hi) =
      update_qp_lem fuel (record c₁ { frame_count = c₁.frame_count +ℤ pos 1 }) a t enough ea et ha
        ht in
    let order' =
      le_left c.min_qp c'.min_qp c'.max_qp (sym lo)
        (le_right c.min_qp c.max_qp c'.max_qp (sym hi) order) in
    let (low, high) = clamp-range c' qp order' in
    (
      clamp c' qp,
      c',
      ground (arith, p, e),
      le_left c'.min_qp c.min_qp (clamp c' qp) lo low,
      le_right (clamp c' qp) c'.max_qp c.max_qp hi high,
    )
