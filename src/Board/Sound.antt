-- ===== src/Board/Sound.antt =====
-- ameba_gateway/example_gateway_ameba.c: the board as a whole, its task and the callbacks of the USB stack in any order.
use mathlib.Core.Path.{subst}
use carplay_poc.Usb.State.{Usb}
use carplay_poc.Board.{
  turned, called, Board, Timers, TurnAnswers, usb_stall_timeout_ms, watch_usb, usb_turn,
  reconnect_turn, task_turn, BoardEvent, heartbeat_turn, connect_turn, link_turn, board_step,
  board_run,
}
use carplay_poc.Base.{
  Option, ◌||◌, not, [], List, Bool, ◌∷◌, ℕ, leb, ◌==◌, if_both, sub_size, ◌∙◌, ◌&&◌, inl, some,
  sym, inr, none, Bool-cases, length, take, ◌≡◌, arith,
}
use carplay_poc.Session.{SessionNonce}
use carplay_poc.Usb.Device.{try_force_configure}
use carplay_poc.Usb.Stream.{retry_init_if_needed}
use carplay_poc.Usb.Events.Sound.{
  retry_init_if_needed-IsSound, watchdog_reset-IsSound, step-IsSound,
}
use carplay_poc.Usb.Stream.Sound.{IsSound}
use carplay_poc.Usb.Device.Sound.{try_force_configure-IsSound}
use carplay_poc.Upstream.Poll.{
  PollAnswers, on_upstream_binary, on_upstream_frame, on_received, upstream_poll,
}
use carplay_poc.Upstream.Sockets.{CountsSockets}
use carplay_poc.Upstream.Link.{IsLinked, hang_up-IsLinked, upstream_connect-IsLinked}
use carplay_poc.Upstream.Connect.{Lwip, Uplink}
use carplay_poc.Crypto.{is_negative, Opened, decrypt_packet}
use carplay_poc.Config.{config_snapshot}
use carplay_poc.Ws.{Frame}
use carplay_poc.Usb.Relay.{relay_media}
use carplay_poc.Usb.Relay.Sound.{relay_media-IsSound}
use carplay_poc.Upstream.Frames.{upstream_recv_frame}
use carplay_poc.Upstream.Polls.{upstream_poll-IsLinked}

module _ (to_ticks : ℕ → ℕ) (inet_aton : List ℕ → Bool)
    (xor : List ℕ → List ℕ → ℕ → List ℕ → List ℕ) {Json : Type 0}
    (get_item : Json → List ℕ → Option Json) (valuestring : Json → Option (List ℕ))
    (parse : List ℕ → Option Json) (base64_decode : List ℕ → Option (List ℕ)) {Net : Type 0}
    (lwip : Lwip Net) (fuel : ℕ) (allocated : ℕ → Bool) (undefined : List ℕ) where
  module _ (c : CountsSockets lwip) (base : ℕ) where
    -- The USB stream is sound, and so is the state of the connection to the server.
    abbrev pub IsBoardSound : Board Net → Type 0
    IsBoardSound b = IsSound b.usb × IsLinked lwip c base b.uplink

    usb_turn-IsSound :
        (a : TurnAnswers) (t : Timers) (s : Usb)
        → IsSound s
        → IsSound (usb_turn to_ticks a (t, s)).1
    unfolding usb_turn watch_usb
    usb_turn-IsSound a t s v =
        let s₁ = try_force_configure a.speed a.setup s in
        let s₂ = retry_init_if_needed a.init_rc s₁ in
        let v₁ = try_force_configure-IsSound a.speed a.setup s v in
        let v₂ = retry_init_if_needed-IsSound a.init_rc s₁ v₁ in
        let P = λ (r : Timers × Usb). IsSound r.1 in
        if_both P (not s₂.in_busy) _ _ v₂ (
          if_both P
            (not (s₂.tx.bytes_sent == t.last_sent_observed)
              || not (s₂.in_complete_count == t.last_in_done_observed))
            _ _ v₂
            (if_both P
              (leb (to_ticks usb_stall_timeout_ms) (sub_size a.progress_tick t.usb_progress_tick)) _
              _ (watchdog_reset-IsSound a.dequeue_rc a.can_flush s₂ v₂) v₂))

    stored-IsSound :
        (a : PollAnswers) (len : ℕ) (stored : Option Opened) (s : Usb)
        → IsSound s
        → IsSound (elim stored as (λ _. Usb) [
          | none ↦ s
          | some o ↦
              relay_media xor a.packet_room a.kick_rc o.stream_id o.seq_no (take len o.plaintext) s
        ])
    stored-IsSound a len none s v = v
    stored-IsSound a len (some o) s v =
        relay_media-IsSound xor a.packet_room a.kick_rc o.stream_id o.seq_no (take len o.plaintext)
          s v

    binary-IsSound :
        (a : PollAnswers) (payload : List ℕ) (n : SessionNonce) (s : Usb)
        → IsSound s
        → IsSound (on_upstream_binary xor a payload n s)
    unfolding on_upstream_binary
    binary-IsSound a payload n s v =
        let (plain_len, stored) =
          decrypt_packet xor (some (length payload)) (some n.session_nonce) (some payload) in
        if_both IsSound (not n.have_nonce) _ _ v (
          if_both IsSound (not a.plain_room) _ _ v (
            if_both IsSound (is_negative plain_len || plain_len == 0) _ _ v
              (stored-IsSound a plain_len stored s v)))

    frame-IsSound :
        (a : PollAnswers) (opcode : ℕ) (payload : List ℕ) (u : Uplink Net) (s : Usb)
        → IsSound s
        → IsSound
            (on_upstream_frame xor get_item valuestring parse base64_decode lwip a opcode payload u
              s).1
    unfolding on_upstream_frame
    frame-IsSound a opcode payload u s v =
        let P = λ (r : Uplink Net × Usb). IsSound r.1 in
        if_both P (opcode == 1) _ _ v (
          if_both P (opcode == 2) _ _ (binary-IsSound a payload _ s v)
            (if_both P (opcode == 8) _ _ v v))

    received-IsSound :
        (a : PollAnswers) (frame : Option Frame) (u : Uplink Net) (s : Usb)
        → IsSound s
        → IsSound (on_received xor get_item valuestring parse base64_decode lwip a frame u s).1
    unfolding on_received
    received-IsSound a none u s v = v
    received-IsSound a (some f) u s v = frame-IsSound a f.opcode f.payload u s v

    poll-IsSound :
        (a : PollAnswers) (u : Uplink Net) (s : Usb)
        → IsSound s
        → IsSound
            (upstream_poll xor get_item valuestring parse base64_decode lwip fuel allocated a u s).1
    unfolding upstream_poll
    poll-IsSound a u s v =
        let P = λ (r : Uplink Net × Usb). IsSound r.1 in
        let (frame, w) = upstream_recv_frame lwip.lwip_read fuel allocated u.conn.stream in
        if_both P (not (u.conn.connected && u.conn.is_open)) _ _ v (
          if_both P (not a.is_readable) _ _ v
            (received-IsSound a frame (record u { conn = record u.conn { stream = w } }) s v))

    reconnect-IsSound :
        (a : TurnAnswers) (b : Board Net)
        → IsBoardSound b
        → IsBoardSound (reconnect_turn to_ticks lwip a b)
    unfolding reconnect_turn
    reconnect-IsSound a b v =
        if_both IsBoardSound b.config.reconnect_requested _ _
          (v.0, hang_up-IsLinked lwip c base b.uplink v.1.0) v

    -- Attempting to connect goes by the flag of the connection, which agrees with its socket.
    connect-IsSound :
        (a : TurnAnswers) (b : Board Net)
        → IsBoardSound b
        → IsBoardSound (
            connect_turn to_ticks xor get_item valuestring parse base64_decode lwip fuel allocated
              undefined a b)
    unfolding connect_turn config_snapshot
    connect-IsSound a b v = elim (Bool-cases b.uplink.conn.connected) [
      | inl up ↦
          let idle : connect_turn to_ticks xor get_item valuestring parse base64_decode lwip fuel
                allocated undefined a b
              ≡ b =
            ground arith in
          subst IsBoardSound (sym idle) v
      | inr down ↦
          let tried =
            upstream_connect-IsLinked lwip c base fuel allocated undefined a.attempt_tick
              (config_snapshot b.config) b.uplink (sym v.1.1 ∙ down) v.1 in
          if_both IsBoardSound _ _ _ (v.0, tried.0) v
    ]

    link-IsSound :
        (a : TurnAnswers) (b : Board Net)
        → IsBoardSound b
        → IsBoardSound (
            link_turn to_ticks xor get_item valuestring parse base64_decode lwip fuel allocated
              undefined a b)
    unfolding link_turn
    link-IsSound a b v =
        let b' =
          connect_turn to_ticks xor get_item valuestring parse base64_decode lwip fuel allocated
            undefined a b in
        let v' = connect-IsSound a b v in
        if_both IsBoardSound (b.wifi_connected && b.wifi_dhcp_ready) _ _
          (
            poll-IsSound a.poll b'.uplink b'.usb v'.0,
            upstream_poll-IsLinked xor get_item valuestring parse base64_decode lwip c base fuel
                allocated a.poll b'.uplink b'.usb v'.1,
          )
          v

    turn-IsSound :
        (a : TurnAnswers) (b : Board Net)
        → IsBoardSound b
        → IsBoardSound (
            task_turn to_ticks xor get_item valuestring parse base64_decode lwip fuel allocated
              undefined a b)
    unfolding task_turn heartbeat_turn
    turn-IsSound a b v =
        let (t, s) = usb_turn to_ticks a (b.timers, b.usb) in
        let b₁ = record b { timers = t; usb = s } in
        let v₁ = reconnect-IsSound a b₁ (usb_turn-IsSound a b.timers b.usb v.0, v.1) in
        let v₂ = link-IsSound a (reconnect_turn to_ticks lwip a b₁) v₁ in
        if_both IsBoardSound _ _ _ v₂ v₂

    -- Whatever the callbacks of the USB stack and the turns of the task come to, in any order and whatever the calls on the
    -- way answer, the ring to the host stays a valid queue with the transfer in flight at its front, and the connection to
    -- the server is held with its one socket or closed with it, and has no nonce then.
    pub board_run-IsBoardSound :
        (es : List BoardEvent) (b : Board Net)
        → IsBoardSound b
        → IsBoardSound (
            board_run to_ticks xor get_item valuestring parse base64_decode lwip fuel allocated
              undefined inet_aton es b)
    unfolding board_run board_step
    board_run-IsBoardSound [] b v = v
    board_run-IsBoardSound (turned a ∷ es) b v = board_run-IsBoardSound es _ (turn-IsSound a b v)
    board_run-IsBoardSound (called e ∷ es) b v =
        board_run-IsBoardSound es _ (step-IsSound inet_aton xor e b.usb b.config v.0, v.1)
