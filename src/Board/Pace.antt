-- ===== src/Board/Pace.antt =====
-- ameba_gateway/example_gateway_ameba.c: when the task tries to connect.
use carplay_poc.Usb.State.{Usb}
use carplay_poc.Board.{
  Board, TurnAnswers, link_turn, task_turn, task_run, upstream_retry_ms, note_progress, watch_usb,
  usb_turn, reconnect_turn, connect_turn, Timers, heartbeat_turn,
}
use carplay_poc.Base.{
  some, ◌&&◌, none, ◌≡◌, List, Bool, refl, ◌+◌, ℕ, Option, not, ◌==◌, if_both, u32, ok, failed,
  false, Status, ◌^◌, ◌<◌, leb, length, sub_size, ◌≤◌, inr, inl, arith, ltb, Bool-cases, ap, true,
  ◌∷◌, [], ◌∙◌, All,
}
use carplay_poc.Config.{UpstreamConfig, ConfigState, config_snapshot}
use carplay_poc.Ws.{Frame}
use carplay_poc.Upstream.Poll.{PollAnswers, on_upstream_frame, on_received, upstream_poll}
use carplay_poc.Upstream.Connect.{
  gave_up, opened, Uplink, Lwip, hang_up, open_stream, upstream_connect, Response,
  upstream_request_size, begin_attempt, start_streams, established, settle, finish_connect,
  on_response, on_request,
}
use carplay_poc.Upstream.Frames.{upstream_recv_frame}
use carplay_poc.Handshake.{upgrade_request}

module _ (to_ticks : ℕ → ℕ) (xor : List ℕ → List ℕ → ℕ → List ℕ → List ℕ) {Json : Type 0}
    (get_item : Json → List ℕ → Option Json) (valuestring : Json → Option (List ℕ))
    (parse : List ℕ → Option Json) (base64_decode : List ℕ → Option (List ℕ)) {Net : Type 0}
    (lwip : Lwip Net) (fuel : ℕ) (allocated : ℕ → Bool) (undefined : List ℕ) where
  abbrev turn : TurnAnswers → Board Net → Board Net
  turn =
      task_turn to_ticks xor get_item valuestring parse base64_decode lwip fuel allocated undefined

  abbrev link : TurnAnswers → Board Net → Board Net
  link =
      link_turn to_ticks xor get_item valuestring parse base64_decode lwip fuel allocated undefined

  abbrev run : List TurnAnswers → Board Net → Board Net
  run = task_run to_ticks xor get_item valuestring parse base64_decode lwip fuel allocated undefined

  abbrev attempts : Uplink Net → ℕ
  attempts u = u.stats.connect_attempts

  frame_attempts :
      (a : PollAnswers) (opcode : ℕ) (payload : List ℕ) (u : Uplink Net) (s : Usb)
      → attempts
          (on_upstream_frame xor get_item valuestring parse base64_decode lwip a opcode payload u
            s).0
        ≡ attempts u
  unfolding on_upstream_frame hang_up
  frame_attempts a opcode payload u s =
      let P = λ (r : Uplink Net × Usb). attempts r.0 ≡ attempts u in
      if_both P (opcode == 1) _ _ refl
        (if_both P (opcode == 2) _ _ refl (if_both P (opcode == 8) _ _ refl refl))

  received_attempts :
      (a : PollAnswers) (frame : Option Frame) (u : Uplink Net) (s : Usb)
      → attempts (on_received xor get_item valuestring parse base64_decode lwip a frame u s).0
        ≡ attempts u
  unfolding on_received hang_up
  received_attempts a none u s = refl
  received_attempts a (some f) u s = frame_attempts a f.opcode f.payload u s

  -- A poll is no attempt to connect.
  poll_attempts :
      (a : PollAnswers) (u : Uplink Net) (s : Usb)
      → attempts
          (upstream_poll xor get_item valuestring parse base64_decode lwip fuel allocated a u s).0
        ≡ attempts u
  unfolding upstream_poll
  poll_attempts a u s =
      let P = λ (r : Uplink Net × Usb). attempts r.0 ≡ attempts u in
      let (frame, w) = upstream_recv_frame lwip.lwip_read fuel allocated u.conn.stream in
      if_both P (not (u.conn.connected && u.conn.is_open)) _ _ refl (
        if_both P (not a.is_readable) _ _ refl
          (received_attempts a frame (record u { conn = record u.conn { stream = w } }) s))

  -- the attempt `r`, counted before
  abbrev Counted : Uplink Net → Status × Uplink Net → Type 0
  Counted u r = attempts r.1 ≡ attempts u

  settle_attempts :
      (rc : Status) (u : Uplink Net) → Counted u (settle lwip fuel allocated undefined rc u)
  unfolding settle hang_up
  settle_attempts ok u = refl
  settle_attempts failed u = refl

  response_attempts :
      (r : Response × Net) (u : Uplink Net)
      → Counted u (on_response lwip fuel allocated undefined r u)
  unfolding on_response finish_connect established
  response_attempts (gave_up n, net) u = refl
  response_attempts (opened extra, net) u =
      let (rc, net') = start_streams lwip fuel allocated undefined net in
      if_both (Counted u) (not (length extra == 0) && not (allocated (length extra))) _ _ refl
        (settle_attempts rc (established lwip fuel allocated undefined extra net' u))

  request_attempts :
      (r : Status × Net) (u : Uplink Net) → Counted u (on_request lwip fuel allocated undefined r u)
  unfolding on_request
  request_attempts (failed, net) u = refl
  request_attempts (ok, net) u = response_attempts _ u

  -- An attempt is counted, whatever comes of it.
  connect_attempts_lem :
      (tick : ℕ) (snapshot : Bool × UpstreamConfig) (u : Uplink Net)
      → attempts (upstream_connect lwip fuel allocated undefined tick snapshot u).1
        ≡ u32 (attempts u + 1)
  unfolding upstream_connect open_stream
  connect_attempts_lem tick (valid, config) u =
      let u₀ = begin_attempt tick u in
      let net₁ = (lwip.lwip_socket u.conn.stream.net).1 in
      let request = upgrade_request config.path config.host config.port in
      if_both (Counted u₀) (not valid) _ _ refl (
        if_both (Counted u₀) (not (lwip.lwip_socket u.conn.stream.net).0) _ _ refl (
          if_both (Counted u₀) (not (lwip.inet_addr config.host)) _ _ refl (
            if_both (Counted u₀) (not (lwip.lwip_connect config.host config.port net₁).0) _ _ refl (
              if_both (Counted u₀) (leb upstream_request_size (length request)) _ _ refl
                (request_attempts _ u₀)))))

  -- What pacing reads of a board.
  abbrev Waits : ℕ → Board Net → Type 0
  Waits at b =
      (b.config.reconnect_requested ≡ false)
      × (b.timers.next_upstream_retry_tick ≡ u32 (at + to_ticks upstream_retry_ms))

  usb_turn_retry :
      (a : TurnAnswers) (t : Timers) (s : Usb)
      → (usb_turn to_ticks a (t, s)).0.next_upstream_retry_tick ≡ t.next_upstream_retry_tick
  unfolding usb_turn watch_usb note_progress
  usb_turn_retry a t s = ground arith

  -- the board as the connection's part of a turn finds it
  abbrev before_link : TurnAnswers → Board Net → Board Net
  before_link a b =
      let (t, s) = usb_turn to_ticks a (b.timers, b.usb) in
      reconnect_turn to_ticks lwip a (record b { timers = t; usb = s })

  before_link_lem :
      (a : TurnAnswers) (b : Board Net)
      → b.config.reconnect_requested ≡ false
      → let b' = before_link a b in
        (b'.config ≡ b.config)
        × (b'.uplink ≡ b.uplink)
        × (b'.wifi_connected ≡ b.wifi_connected)
        × (b'.wifi_dhcp_ready ≡ b.wifi_dhcp_ready)
        × (b'.timers.next_upstream_retry_tick ≡ b.timers.next_upstream_retry_tick)
  unfolding reconnect_turn
  before_link_lem a b h =
      let (t, s) = usb_turn to_ticks a (b.timers, b.usb) in
      let same = usb_turn_retry a b.timers b.usb in ground arith

  early_lem :
      (at retry now : ℕ)
      → at < 2 ^ 32
      → now < 2 ^ 32
      → retry < 2 ^ 31
      → sub_size now at < retry
      → ltb (sub_size now (u32 (at + retry))) (2 ^ 31) ≡ false
  early_lem at retry now h h' r early =
      let late : 2 ^ 31 ≤ sub_size now (u32 (at + retry)) = omega arith in ground arith

  due_lem :
      (at retry now next_at : ℕ)
      → at < 2 ^ 32
      → now < 2 ^ 32
      → retry < 2 ^ 31
      → retry ≤ sub_size now at
      → sub_size now at < retry + 2 ^ 31
      → next_at ≡ u32 (at + retry)
      → ltb (sub_size now next_at) (2 ^ 31) ≡ true
  due_lem at retry now next_at h h' r late near e =
      let soon : sub_size now next_at < 2 ^ 31 = omega arith in ground arith

  -- Within the time an attempt is not due.
  link-Waits :
      (at : ℕ) (a : TurnAnswers) (b : Board Net)
      → at < 2 ^ 32
      → a.now < 2 ^ 32
      → to_ticks upstream_retry_ms < 2 ^ 31
      → sub_size a.now at < to_ticks upstream_retry_ms
      → Waits at b
      → Waits at (link a b) × (attempts (link a b).uplink ≡ attempts b.uplink)
  unfolding link_turn
  link-Waits at a b small small' retry early h =
      let not_due = early_lem at (to_ticks upstream_retry_ms) a.now small small' retry early in
      let still : connect_turn to_ticks xor get_item valuestring parse base64_decode lwip fuel
            allocated undefined a b
          ≡ b =
        unfold connect_turn in ground arith in
      let same = poll_attempts a.poll b.uplink b.usb in
      elim (Bool-cases (b.wifi_connected && b.wifi_dhcp_ready)) [
        | inl up ↦ rw (up, still) (h, same)
        | inr down ↦ rw down (h, refl)
      ]

  heartbeat_lem :
      (a : TurnAnswers) (b : Board Net)
      → let b' = heartbeat_turn to_ticks a b in
        (b'.config ≡ b.config)
        × (b'.uplink ≡ b.uplink)
        × (b'.timers.next_upstream_retry_tick ≡ b.timers.next_upstream_retry_tick)
  unfolding heartbeat_turn
  heartbeat_lem a b = ground arith

  turn-Waits :
      (at : ℕ) (a : TurnAnswers) (b : Board Net)
      → at < 2 ^ 32
      → a.now < 2 ^ 32
      → to_ticks upstream_retry_ms < 2 ^ 31
      → sub_size a.now at < to_ticks upstream_retry_ms
      → Waits at b
      → Waits at (turn a b) × (attempts (turn a b).uplink ≡ attempts b.uplink)
  unfolding task_turn
  turn-Waits at a b small small' retry early h =
      let b₁ = before_link a b in
      let (config, uplink, wifi, dhcp, next_at) = before_link_lem a b h.0 in
      let waits : Waits at b₁ =
        (ap (λ (c : ConfigState). c.reconnect_requested) config ∙ h.0, next_at ∙ h.1) in
      let (waits', same) = link-Waits at a b₁ small small' retry early waits in
      let (config', uplink', next_at') = heartbeat_lem a (link a b₁) in
      (
        (ap (λ (c : ConfigState). c.reconnect_requested) config' ∙ waits'.0, next_at' ∙ waits'.1),
        ap attempts uplink' ∙ same ∙ ap attempts uplink,
      )

  -- The turns read the tick counter less than the time between attempts after `at`.
  abbrev pub IsEarly : ℕ → List TurnAnswers → Type 0
  IsEarly at as' =
      All (λ a. (a.now < 2 ^ 32) × (sub_size a.now at < to_ticks upstream_retry_ms)) as'

  run-Waits :
      (at : ℕ) (as' : List TurnAnswers) (b : Board Net)
      → at < 2 ^ 32
      → to_ticks upstream_retry_ms < 2 ^ 31
      → IsEarly at as'
      → Waits at b
      → Waits at (run as' b) × (attempts (run as' b).uplink ≡ attempts b.uplink)
  unfolding task_run
  run-Waits at [] b small retry early h = (h, refl)
  run-Waits at (a ∷ as') b small retry (early, rest) h =
      let (waits, same) = turn-Waits at a b small early.0 retry early.1 h in
      let (waits', same') = run-Waits at as' (turn a b) small retry rest waits in
      (waits', same' ∙ same)

  -- An attempt that is due.
  link-attempts :
      (at : ℕ) (a : TurnAnswers) (b : Board Net)
      → at < 2 ^ 32
      → a.now < 2 ^ 32
      → to_ticks upstream_retry_ms < 2 ^ 31
      → to_ticks upstream_retry_ms ≤ sub_size a.now at
      → sub_size a.now at < to_ticks upstream_retry_ms + 2 ^ 31
      → Waits at b
      → b.config.config_valid ≡ true
      → (b.wifi_connected ≡ true) × (b.wifi_dhcp_ready ≡ true)
      → b.uplink.conn.connected ≡ false
      → (attempts (link a b).uplink ≡ u32 (attempts b.uplink + 1)) × Waits a.now (link a b)
  unfolding link_turn
  link-attempts at a b small small' retry late near h valid wifi down =
      let due : ltb (sub_size a.now b.timers.next_upstream_retry_tick) (2 ^ 31) ≡ true =
        due_lem at (to_ticks upstream_retry_ms) a.now b.timers.next_upstream_retry_tick small small'
          retry late near h.1 in
      let b' =
        connect_turn to_ticks xor get_item valuestring parse base64_decode lwip fuel allocated
          undefined a b in
      let one_more = connect_attempts_lem a.attempt_tick (config_snapshot b.config) b.uplink in
      let tried : (attempts b'.uplink ≡ u32 (attempts b.uplink + 1)) × Waits a.now b' =
        unfold connect_turn in ground arith in
      let same = poll_attempts a.poll b'.uplink b'.usb in
      let up : (b.wifi_connected && b.wifi_dhcp_ready) ≡ true = ground arith in
      let polled =
        upstream_poll xor get_item valuestring parse base64_decode lwip fuel allocated a.poll
          b'.uplink b'.usb in
      let step : link a b ≡ record b' { uplink = polled.0; usb = polled.1 } = rw up refl in
      (
        ap (λ (x : Board Net). attempts x.uplink) step ∙ same ∙ tried.0,
        (
          ap (λ (x : Board Net). x.config.reconnect_requested) step ∙ tried.1.0,
          ap (λ (x : Board Net). x.timers.next_upstream_retry_tick) step ∙ tried.1.1,
        ),
      )

  -- After an attempt at the tick `at` the task makes none before the time between attempts is over, over any number of
  -- turns, and the first turn after that makes one, and only one, whether the tick counter has wrapped round or not. The host sends no
  -- address meanwhile; then Wi-Fi is up, the address is valid, and the connection is down; the turn's
  -- tick is less than 2^31 late.
  pub task_run-attempts :
      (at : ℕ) (as' : List TurnAnswers) (a : TurnAnswers) (b : Board Net)
      → at < 2 ^ 32
      → to_ticks upstream_retry_ms < 2 ^ 31
      → b.config.reconnect_requested ≡ false
      → b.timers.next_upstream_retry_tick ≡ u32 (at + to_ticks upstream_retry_ms)
      → IsEarly at as'
      → a.now < 2 ^ 32
      → to_ticks upstream_retry_ms ≤ sub_size a.now at
      → sub_size a.now at < to_ticks upstream_retry_ms + 2 ^ 31
      → (run as' b).config.config_valid ≡ true
      → ((run as' b).wifi_connected ≡ true) × ((run as' b).wifi_dhcp_ready ≡ true)
      → (run as' b).uplink.conn.connected ≡ false
      → (attempts (run as' b).uplink ≡ attempts b.uplink)
        × (attempts (turn a (run as' b)).uplink ≡ u32 (attempts b.uplink + 1))
        × ((turn a (run as' b)).timers.next_upstream_retry_tick
            ≡ u32 (a.now + to_ticks upstream_retry_ms))
  unfolding task_turn
  task_run-attempts at as' a b small retry idle next_at early small' late near valid wifi down =
      let (waits, same) = run-Waits at as' b small retry early (idle, next_at) in
      let b' = run as' b in
      let b₁ = before_link a b' in
      let (config, uplink, up, dhcp, kept) = before_link_lem a b' waits.0 in
      let (tried, waits') =
        link-attempts at a b₁ small small' retry late near
          (ap (λ (c : ConfigState). c.reconnect_requested) config ∙ waits.0, kept ∙ waits.1)
          (ap (λ (c : ConfigState). c.config_valid) config ∙ valid) (up ∙ wifi.0, dhcp ∙ wifi.1)
          (ap (λ (u : Uplink Net). u.conn.connected) uplink ∙ down) in
      let (config', uplink', kept') = heartbeat_lem a (link a b₁) in
      (
        same,
        ap attempts uplink'
            ∙ tried
            ∙ ap (λ (u : Uplink Net). u32 (attempts u + 1)) uplink
            ∙ ap (λ n. u32 (n + 1)) same,
        kept' ∙ waits'.1,
      )
