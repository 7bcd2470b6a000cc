-- ===== src/Cpu.antt =====
-- ameba_gateway/example_gateway_ameba.c: the CPU load shown in the log, a mean over the last ten
-- heartbeats. The tick counters belong to the board's hook and are arguments; an `unsigned long` has
-- 32 bits on this target.
pub mod Mean
use carplay_poc.Base.{
  ℕ, zero, suc, ◌+◌, ◌*◌, ◌/◌, ◌%◌, List, [], ◌∷◌, ◌==◌, ltb, if◌then◌else◌, get_or, u32, sub_size,
}

-- the `gateway_cpu_*` variables and the two static ones of `gateway_cpu_update_sample`
pub record Cpu : Type 0 where
  pub last_total : ℕ
  pub last_busy : ℕ
  pub sample_ticks : ℕ
  pub busy_pct : ℕ
  pub idle_pct : ℕ
  pub busy_history : List ℕ
  pub history_index : ℕ
  pub history_sum : ℕ
  pub history_count : ℕ

-- the variables as the program is loaded
abbrev pub at_boot : Cpu
at_boot = record {
  last_total = 0;
  last_busy = 0;
  sample_ticks = 0;
  busy_pct = 0;
  idle_pct = 0;
  busy_history = 0 ∷ 0 ∷ 0 ∷ 0 ∷ 0 ∷ 0 ∷ 0 ∷ 0 ∷ 0 ∷ 0 ∷ [];
  history_index = 0;
  history_sum = 0;
  history_count = 0;
}

-- `xs[i] = x`
abbrev pub set : ℕ → ℕ → List ℕ → List ℕ
set i x [] = []
set zero x (y ∷ ys) = x ∷ ys
set (suc i) x (y ∷ ys) = y ∷ set i x ys

-- the load of one interval, in percent
unfoldable pub interval_pct : ℕ → ℕ → ℕ
interval_pct delta_total delta_busy =
    let busy = if ltb delta_total delta_busy then delta_total else delta_busy in
    let busy_pct = u32 (u32 (busy * 100) + delta_total / 2) / delta_total in
    if ltb 100 busy_pct then 100 else busy_pct

-- the history moved on by one interval
unfoldable pub push_sample : ℕ → Cpu → Cpu
push_sample pct c =
    let sum = u32 (sub_size c.history_sum (get_or c.busy_history c.history_index 0) + pct) in
    let count = if ltb c.history_count 10 then u32 (c.history_count + 1) else c.history_count in
    record c {
      busy_history = set c.history_index pct c.busy_history;
      history_sum = sum;
      history_index = u32 (c.history_index + 1) % 10;
      history_count = count;
      busy_pct = sum / count;
      idle_pct = sub_size 100 (sum / count);
    }

-- `gateway_cpu_update_sample` with the counters' values
unfoldable pub update_sample : ℕ → ℕ → Cpu → Cpu
unfolding interval_pct push_sample
update_sample total busy c =
    let delta_total = sub_size total c.last_total in
    let delta_busy = sub_size busy c.last_busy in
    let c' = record c { last_total = total; last_busy = busy; sample_ticks = delta_total } in
    if delta_total == 0
    then record c' { busy_pct = 0; idle_pct = 0 }
    else push_sample (interval_pct delta_total delta_busy) c'
