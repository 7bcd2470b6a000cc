-- ===== src/Tests/Board.antt =====
-- ameba_gateway/example_gateway_ameba.c: setting the device up, and the load, at concrete states.
use carplay_poc.Base.{◌+◌, ◌/◌, ◌≡◌, ◌≢◌, ◌⊎◌, refl, arith, true, ◌∷◌, min, List, ℕ, [], take}
use carplay_poc.Usb.State.{Usb}
use carplay_poc.Usb.Events.{boot}
use carplay_poc.Cpu.{update_sample}
use carplay_poc.Cpu.Mean.{total, heartbeats, loads, heartbeats_lem}

abbrev bound : Usb
bound = record boot { in_ep = true; out_ep = true; started = true }

-- The third interval has no ticks; the last one first.
abbrev four_intervals : List (ℕ × ℕ)
four_intervals = (1000, 302) ∷ (0, 0) ∷ (300, 100) ∷ (1000, 996) ∷ []

mean_of_three : (heartbeats four_intervals).busy_pct ≡ (30 + 33 + 100) / 3
unfolding heartbeats update_sample
mean_of_three = refl

heartbeats_lem_example :
    let c = heartbeats four_intervals in
    let ticks : ℕ = 1000 in
    ((ticks ≡ 0) × (c.busy_pct ≡ 0) × (c.idle_pct ≡ 0))
    ⊎ ((ticks ≢ 0)
        × (c.busy_pct ≡ total (take 10 (30 ∷ 33 ∷ 100 ∷ [])) / min 10 3)
        × (c.busy_pct + c.idle_pct ≡ 100))
unfolding loads
heartbeats_lem_example = heartbeats_lem 1000 302 ((0, 0) ∷ (300, 100) ∷ (1000, 996) ∷ []) (
  (omega arith, omega arith),
  ((omega arith, omega arith), ((omega arith, omega arith), ((omega arith, omega arith), tt))),
)
