-- ===== src/Board.antt =====
-- ameba_gateway/example_gateway_ameba.c: the loop of `gateway_ameba_task`, as it is built by default: with USB, and with Wi-Fi
-- brought up by the task itself. What the calls on the way answer stands in a turn's argument, each reading of the tick counter too;
-- `to_ticks` is the system's `pdMS_TO_TICKS`, and ticks have 32 bits.
pub mod Pace
pub mod Sound
use carplay_poc.Base.{
  ℕ, ◌+◌, ◌-◌, ◌^◌, Bool, true, false, not, ◌&&◌, ◌||◌, Option, List, [], ◌∷◌, ◌==◌, ltb, leb,
  if◌then◌else◌, replicate, u32, sub_size, Status, ok, failed,
}
use carplay_poc.Config.{ConfigState, UpstreamConfig, config_snapshot}
use carplay_poc.Cpu.{Cpu, update_sample}
use carplay_poc.Upstream.Connect.{Uplink, Stats, Lwip, hang_up, set_rc, upstream_connect}
use carplay_poc.Upstream.Poll.{PollAnswers, upstream_poll}
use carplay_poc.Usb.State.{Usb}
use carplay_poc.Usb.Stream.{retry_init_if_needed}
use carplay_poc.Usb.Device.{Speed, Setup, try_force_configure}
use carplay_poc.Usb.Events.{Event, step, watchdog_reset}

-- the local variables of the task
pub record Timers : Type 0 where
  pub last_heartbeat_tick : ℕ
  pub next_upstream_retry_tick : ℕ
  pub usb_progress_tick : ℕ
  pub last_sent_observed : ℕ
  pub last_in_done_observed : ℕ
  pub heartbeat_counter : ℕ

pub record Board (Net : Type 0) : Type 0 where
  pub timers : Timers
  pub usb : Usb
  pub config : ConfigState
  pub uplink : Uplink Net
  pub cpu : Cpu
  pub wifi_connected : Bool
  pub wifi_dhcp_ready : Bool

-- What a turn is answered: the calls for the USB side, the tick counter at each place that reads it, and a poll's.
pub record TurnAnswers : Type 0 where
  pub speed : Option Speed
  pub setup : Setup
  pub init_rc : ℕ
  pub dequeue_rc : ℕ
  pub can_flush : Bool
  pub progress_tick : ℕ
  pub reset_tick : ℕ
  pub reconnect_tick : ℕ
  pub now : ℕ
  pub attempt_tick : ℕ
  pub poll : PollAnswers
  pub heartbeat_tick : ℕ
  pub heartbeat_tick_after : ℕ
  pub cpu_total : ℕ
  pub cpu_busy : ℕ

abbrev pub heartbeat_ms : ℕ
heartbeat_ms = 1000

abbrev pub upstream_retry_ms : ℕ
upstream_retry_ms = 5000

abbrev pub usb_stall_timeout_ms : ℕ
usb_stall_timeout_ms = 2000

-- the counters as they are seen, and the tick
unfoldable pub note_progress : ℕ → Usb → Timers → Timers
note_progress tick s t = record t {
  last_sent_observed = s.tx.bytes_sent;
  last_in_done_observed = s.in_complete_count;
  usb_progress_tick = tick;
}

-- The task goes round once, or a callback runs.
pub data BoardEvent : Type 0 where
  turned : TurnAnswers → BoardEvent
  called : Event → BoardEvent

module _ (to_ticks : ℕ → ℕ) where
  -- the watchdog: the tick at which progress is noted or the wait is measured, and the one after a reset
  unfoldable pub watch_usb : ℕ → ℕ → ℕ → Bool → Timers × Usb → Timers × Usb
  unfolding note_progress
  watch_usb tick tick_after dequeue_rc can_flush (t, s) =
      let s' = watchdog_reset dequeue_rc can_flush s in
      if not s.in_busy
      then (note_progress tick s t, s)
      else if not (s.tx.bytes_sent == t.last_sent_observed)
          || not (s.in_complete_count == t.last_in_done_observed)
      then (note_progress tick s t, s)
      else if leb (to_ticks usb_stall_timeout_ms) (sub_size tick t.usb_progress_tick)
      then (note_progress tick_after s' t, s')
      else (t, s)

  -- the USB part of a turn
  unfoldable pub usb_turn : TurnAnswers → Timers × Usb → Timers × Usb
  unfolding watch_usb
  usb_turn a (t, s) =
      let s' = retry_init_if_needed a.init_rc (try_force_configure a.speed a.setup s) in
      watch_usb a.progress_tick a.reset_tick a.dequeue_rc a.can_flush (t, s')

  -- `gateway_upstream_reconnect_requested`
  unfoldable pub reconnect_turn : {Net : Type 0} → Lwip Net → TurnAnswers → Board Net → Board Net
  reconnect_turn lwip a b =
      if b.config.reconnect_requested
      then record b {
        uplink = hang_up lwip.lwip_close b.uplink;
        config = record b.config { reconnect_requested = false };
        timers = record b.timers { next_upstream_retry_tick = a.reconnect_tick };
      }
      else b

  -- the heartbeat, without its line in the log
  unfoldable pub heartbeat_turn : {Net : Type 0} → TurnAnswers → Board Net → Board Net
  heartbeat_turn a b =
      if leb (to_ticks heartbeat_ms) (sub_size a.heartbeat_tick b.timers.last_heartbeat_tick)
      then record b {
        cpu = update_sample a.cpu_total a.cpu_busy b.cpu;
        timers = record b.timers {
          last_heartbeat_tick = a.heartbeat_tick_after;
          heartbeat_counter = u32 (b.timers.heartbeat_counter + 1);
        };
      }
      else b

  module _ (chacha20_xor : List ℕ → List ℕ → ℕ → List ℕ → List ℕ) {Json : Type 0}
      (get_item : Json → List ℕ → Option Json) (valuestring : Json → Option (List ℕ))
      (parse : List ℕ → Option Json) (base64_decode : List ℕ → Option (List ℕ)) {Net : Type 0}
      (lwip : Lwip Net) (fuel : ℕ) (allocated : ℕ → Bool) (undefined : List ℕ) where
    -- an attempt to connect, where one is due
    unfoldable pub connect_turn : TurnAnswers → Board Net → Board Net
    connect_turn a b =
        let (rc, u) =
          upstream_connect lwip fuel allocated undefined a.attempt_tick (config_snapshot b.config)
            b.uplink in
        let last_rc = elim rc as (λ _. ℕ) [ ok ↦ 0 | failed ↦ u32 (2 ^ 32 - 1) ] in
        if b.config.config_valid
          && (not b.uplink.conn.connected
              && ltb (sub_size a.now b.timers.next_upstream_retry_tick) (2 ^ 31))
        then record b {
          uplink = record u { stats = record u.stats { last_rc = last_rc } };
          timers = record b.timers {
            next_upstream_retry_tick = u32 (a.now + to_ticks upstream_retry_ms);
          };
        }
        else b

    -- the connection to the server
    unfoldable pub link_turn : TurnAnswers → Board Net → Board Net
    unfolding connect_turn
    link_turn a b =
        let b' = connect_turn a b in
        let (u, s) =
          upstream_poll chacha20_xor get_item valuestring parse base64_decode lwip fuel allocated
            a.poll b'.uplink b'.usb in
        if b.wifi_connected && b.wifi_dhcp_ready then record b' { uplink = u; usb = s } else b

    -- one turn of the loop
    unfoldable pub task_turn : TurnAnswers → Board Net → Board Net
    unfolding usb_turn reconnect_turn link_turn heartbeat_turn
    task_turn a b =
        let (t, s) = usb_turn a (b.timers, b.usb) in
        heartbeat_turn a (link_turn a (reconnect_turn lwip a (record b { timers = t; usb = s })))

    -- the loop over the turns so far
    unfoldable pub task_run : List TurnAnswers → Board Net → Board Net
    unfolding task_turn
    task_run [] b = b
    task_run (a ∷ as') b = task_run as' (task_turn a b)

    module _ (inet_aton : List ℕ → Bool) where
      -- the board over both
      unfoldable pub board_step : BoardEvent → Board Net → Board Net
      board_step (turned a) b = task_turn a b
      board_step (called e) b =
          let (s, config) = step inet_aton chacha20_xor e (b.usb, b.config) in
          record b { usb = s; config = config }

      unfoldable pub board_run : List BoardEvent → Board Net → Board Net
      board_run [] b = b
      board_run (e ∷ es) b = board_run es (board_step e b)
