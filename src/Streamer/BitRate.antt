-- ===== src/Streamer/BitRate.antt =====
-- wsh264/app/bitrate_ctrl.c: the quantiser chosen for the next frame. `int` goes round at 32 bits; what C leaves
-- undefined where it traps or reads an unset variable is `none`.
use carplay_poc.Base.{
  pos, negsuc, ◌^◌, ℕ, zero, ◌||◌, Bool, Option, some, suc, ◌+◌, ◌*◌, bit_and, List, ◌-◌, none, ◌%◌,
  ◌/◌, ltb, leb, ◌==◌, if◌then◌else◌, length, ℤ, ltb_ℤ, word_of, int_of_word, ◌+ℤ◌, ◌-ℤ◌, shl, shr,
  div_int, byte_at,
}

-- `bitrate_ctrl_t`
pub record Ctrl : Type 0 where
  pub target_bitrate : ℤ
  pub min_qp : ℤ
  pub max_qp : ℤ
  pub cal_qp : ℤ
  pub average_size : ℤ
  pub target_frame_size : ℤ
  pub i_cost : ℤ
  pub frame_count : ℤ
  pub gop : ℤ
  pub fps : ℤ
  pub max_qp_step : ℤ

abbrev pub fixed_point_shift : ℕ
fixed_point_shift = 8

abbrev pub qp_shift : ℕ
qp_shift = 4

abbrev pub average_step : ℕ
average_step = 8

-- `bitrate_ctrl_init`; `none` where `fps` is 0
unfoldable pub bitrate_ctrl_init : ℤ → ℤ → Option Ctrl
unfolding div_int shl
bitrate_ctrl_init target_bitrate fps = elim (div_int (shl target_bitrate 5) fps) [
  | none ↦ none
  | some size ↦ some (record {
    target_bitrate = target_bitrate;
    min_qp = pos 26;
    max_qp = pos 35;
    cal_qp = pos 0;
    average_size = pos 0;
    target_frame_size = size;
    i_cost = pos 0;
    frame_count = pos 0;
    gop = pos 0;
    fps = fps;
    max_qp_step = pos 4;
  })
]

-- `bitrate_ctrl_setup_qp_range`
unfoldable pub setup_qp_range : ℤ → ℤ → Ctrl → Ctrl
setup_qp_range min_qp max_qp c = record c { min_qp = min_qp; max_qp = max_qp }

-- the loop of `int_sqrt`, from `start` to `end`; a square that does not fit an `int` is `none`, and so is an
-- `ans` that was never set
unfoldable pub sqrt_loop : ℕ → ℕ → ℕ → ℕ → Option ℕ → Option ℕ
sqrt_loop zero x start end ans = none
sqrt_loop (suc fuel) x start end ans =
    let mid = (start + end) / 2 in
    let sqr = mid * mid in
    let upper = sqrt_loop fuel x (mid + 1) end (some mid) in
    let lower = sqrt_loop fuel x start (mid - 1) ans in
    if ltb end start
    then ans
    else if leb (2 ^ 31) sqr
    then none
    else if sqr == x
    then some mid
    else if leb sqr x
    then upper
    else lower

-- `int_sqrt`; for a negative `x` the loop never runs
unfoldable pub int_sqrt : ℕ → ℤ → Option ℕ
unfolding sqrt_loop
int_sqrt fuel (negsuc n) = none
int_sqrt fuel (pos x) = if x == 0 || x == 1 then some x else sqrt_loop fuel x 1 (x / 2) none

-- the averages after an IDR frame and after a P frame of `size` bytes
unfoldable pub note_idr : ℕ → Ctrl → Option Ctrl
unfolding div_int
note_idr size c =
    let size_diff = int_of_word (size * 2 ^ fixed_point_shift) -ℤ c.average_size in
    elim (div_int size_diff (if ltb_ℤ (pos 0) c.gop then c.gop else pos 30)) [
      | none ↦ none
      | some cost ↦ some (record c { i_cost = cost; gop = pos 0 })
    ]

unfoldable pub note_p : ℕ → Ctrl → Ctrl
unfolding word_of int_of_word
note_p size c =
    let scaled = word_of 64 (shl c.average_size 3) in
    let cost = (size * 2 ^ fixed_point_shift + word_of 64 c.i_cost) % 2 ^ 64 in
    record c {
      average_size = int_of_word ((scaled + cost) % 2 ^ 64 / (average_step + 1));
      gop = c.gop +ℤ pos 1;
    }

-- `cal_qp` after a step of `int_sqrt (slope) / 9`, up or down
unfoldable pub step_qp : ℕ → Bool → ℤ → Ctrl → Option Ctrl
unfolding int_sqrt
step_qp fuel up slope c = elim (int_sqrt fuel slope) [
  | none ↦ none
  | some root ↦
      let qp = if up then c.cal_qp +ℤ pos (root / 9) else c.cal_qp -ℤ pos (root / 9) in
      let low = shl c.min_qp qp_shift in
      let high = shl c.max_qp qp_shift in
      let qp' = if ltb_ℤ qp low then low else qp in
      some (record c { cal_qp = if ltb_ℤ high qp' then high else qp' })
]

-- the frame has been counted: the new `cal_qp`, and `ret_qp`
unfoldable pub update_qp : ℕ → Ctrl → Option (ℤ × Ctrl)
unfolding step_qp div_int shr
update_qp fuel c =
    let up = ltb_ℤ c.target_frame_size c.average_size in
    let num = if up then c.average_size else c.target_frame_size in
    let den = if up then c.target_frame_size else c.average_size in
    if ltb_ℤ (pos average_step) c.frame_count
    then elim (div_int (shl num fixed_point_shift) den) [
      | none ↦ none
      | some slope ↦ elim (step_qp fuel up slope c) [
        | none ↦ none
        | some c' ↦ some (shr c'.cal_qp qp_shift, c')
      ]
    ]
    else elim (div_int (c.min_qp +ℤ c.max_qp) (pos 2)) [ none ↦ none | some q ↦ some (q, c) ]

-- the boundary check
unfoldable pub clamp : Ctrl → ℤ → ℤ
clamp c qp = if ltb_ℤ qp c.min_qp then c.min_qp else if ltb_ℤ c.max_qp qp then c.max_qp else qp

unfoldable pub count_frame : ℕ → Ctrl → Option (ℤ × Ctrl)
unfolding update_qp clamp
count_frame fuel c = elim (update_qp fuel (record c { frame_count = c.frame_count +ℤ pos 1 })) [
  | none ↦ none
  | some (qp, c') ↦ some (clamp c' qp, c')
]

-- `bitrate_ctrl_update_frame` of a frame that is not empty
unfoldable pub update_frame : ℕ → List ℕ → Ctrl → Option (ℤ × Ctrl)
unfolding note_idr note_p count_frame shr
update_frame fuel frame c =
    let nal_type = bit_and (byte_at frame 0) 0x1F in
    if nal_type == 5
    then elim (note_idr (length frame) c) [ none ↦ none | some c' ↦ count_frame fuel c' ]
    else if nal_type == 1
    then count_frame fuel (note_p (length frame) c)
    else some (shr c.cal_qp qp_shift, c)
