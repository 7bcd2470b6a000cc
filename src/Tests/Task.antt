-- ===== src/Tests/Task.antt =====
-- ameba_gateway/example_gateway_ameba.c: the board's task and its media at concrete values.
use carplay_poc.Tests.Data.{
  scramble, scramble-IsStreamCipher, any_address, no_config, sending, sending-IsSound,
  round_tx-IsValid, all_well,
}
use carplay_poc.Tests.Uplink.{
  Line, line, line_read, line_counts, line_receiving, stats, client, closed, car,
}
use carplay_poc.Upstream.Connect.{Uplink}
use carplay_poc.Usb.Events.{boot}
use carplay_poc.Usb.Stream.{retry_init_if_needed}
use carplay_poc.Usb.Device.{try_force_configure}
use carplay_poc.Board.{turned, called, task_run, task_turn, Board, Timers, TurnAnswers, board_run}
use carplay_poc.Cpu.{Cpu}
use carplay_poc.Board.Pace.{task_run-attempts}
use carplay_poc.Base.{
  ◌++◌, arith, refl, true, ◌∷◌, some, List, ◌≡◌, inl, ℕ, [], Option, none, replicate,
}
use carplay_poc.Crypto.{magic0, magic1, crypto_version, default_key, packet_nonce, encrypt_packet}
use carplay_poc.Ws.Wire.{wire}
use carplay_poc.Ws.Reads.{pending}
use carplay_poc.Usb.Events.{Event}
use carplay_poc.Board.Sound.{IsBoardSound, board_run-IsBoardSound}
use carplay_poc.Upstream.Relayed.{HasRelayed, upstream_poll-encrypt_packet}
use carplay_poc.Upstream.Poll.{PollAnswers, upstream_poll}
use carplay_poc.Upstream.Same.{recv_of}

abbrev nonce : List ℕ
nonce = 1 ∷ 2 ∷ 3 ∷ 4 ∷ 5 ∷ 6 ∷ 7 ∷ 8 ∷ 9 ∷ 10 ∷ 11 ∷ 12 ∷ []

abbrev plain : List ℕ
plain = 0 ∷ 0 ∷ 1 ∷ 0x65 ∷ []

abbrev packet : List ℕ
packet =
    magic0
    ∷ magic1
    ∷ crypto_version
    ∷ 1
    ∷ 0
    ∷ 0
    ∷ 0
    ∷ 9
    ∷ scramble default_key (packet_nonce nonce 9) 1 plain

abbrev up : List ℕ → Uplink Line
up bs = record (closed bs) {
  conn = record {
    is_open = true;
    stream = client bs 1;
    connected = true;
    have_nonce = true;
    session_nonce = nonce;
  };
  stats = record stats { connected = true };
}

abbrev ready : PollAnswers
ready = record {
  is_readable = true;
  text_room = true;
  plain_room = true;
  packet_room = true;
  kick_rc = 0;
}

-- A text is its own message, and a nonce that of the session.
abbrev parse_itself : List ℕ → Option (List ℕ)
parse_itself text = some text

abbrev get_itself : List ℕ → List ℕ → Option (List ℕ)
get_itself m key = some m

abbrev decode_any : List ℕ → Option (List ℕ)
decode_any text = some nonce

upstream_poll-encrypt_packet_example :
    let (u', s') =
      upstream_poll scramble get_itself parse_itself parse_itself decode_any line 60
        (λ n. true)
        ready
        (up (0x82 ∷ 12 ∷ packet ++ 7 ∷ []))
        sending in
    HasRelayed scramble 1 9 plain sending s'
    × (pending (recv_of line_read) line_receiving u'.conn.stream ≡ 7 ∷ [])
unfolding encrypt_packet
upstream_poll-encrypt_packet_example =
    upstream_poll-encrypt_packet scramble get_itself parse_itself parse_itself decode_any line
      line_receiving 60 (λ n. true) ready (up (0x82 ∷ 12 ∷ packet ++ 7 ∷ [])) sending 20 1 9 plain
      packet (7 ∷ []) scramble-IsStreamCipher (refl, refl, refl, refl, round_tx-IsValid)
      (refl, refl, refl) (inl refl) (refl, refl, refl) (omega arith) (omega arith) (omega arith)
      (omega arith) (omega arith) (omega arith) refl refl (unfold wire in refl) (omega arith)

abbrev timers : Timers
timers = record {
  last_heartbeat_tick = 0;
  next_upstream_retry_tick = 5000;
  usb_progress_tick = 100;
  last_sent_observed = 0;
  last_in_done_observed = 0;
  heartbeat_counter = 0;
}

abbrev cpu : Cpu
cpu = record {
  last_total = 0;
  last_busy = 0;
  sample_ticks = 0;
  busy_pct = 0;
  idle_pct = 0;
  busy_history = replicate 10 0;
  history_index = 0;
  history_sum = 0;
  history_count = 0;
}

-- The connection is down, the last attempt was at tick 0.
abbrev board : Board Line
board = record {
  timers = timers;
  usb = sending;
  config = record no_config { config = car; config_valid = true };
  uplink = closed [];
  cpu = cpu;
  wifi_connected = true;
  wifi_dhcp_ready = true;
}

abbrev turn_at : ℕ → TurnAnswers
turn_at now = record {
  speed = none;
  setup = all_well;
  init_rc = 0;
  dequeue_rc = 0;
  can_flush = true;
  progress_tick = now;
  reset_tick = now;
  reconnect_tick = now;
  now = now;
  attempt_tick = now;
  poll = ready;
  heartbeat_tick = now;
  heartbeat_tick_after = now;
  cpu_total = now;
  cpu_busy = 0;
}

-- One tick is a millisecond.
abbrev same_ticks : ℕ → ℕ
same_ticks ms = ms

board_run-IsBoardSound_example :
    IsBoardSound same_ticks any_address scramble get_itself parse_itself parse_itself decode_any
      line 60
      (λ n. true)
      []
      line_counts
      0
      (board_run same_ticks scramble get_itself parse_itself parse_itself decode_any line 60
        (λ n. true)
        []
        any_address
        (turned (turn_at 10) ∷ called Event.disconnected ∷ turned (turn_at 6000) ∷ [])
        board)
board_run-IsBoardSound_example =
    board_run-IsBoardSound same_ticks any_address scramble get_itself parse_itself parse_itself
      decode_any line 60 (λ n. true) [] line_counts 0
      (turned (turn_at 10) ∷ called Event.disconnected ∷ turned (turn_at 6000) ∷ []) board
      (sending-IsSound, (refl, refl, refl, (refl, refl)))

-- The same with nothing on the USB side.
abbrev idle_board : Board Line
idle_board = record board { usb = boot }

task_run-attempts_example :
    let early =
      task_run same_ticks scramble get_itself parse_itself parse_itself decode_any line 60
        (λ n. true)
        []
        (turn_at 10 ∷ turn_at 4999 ∷ [])
        idle_board in
    let late =
      task_turn same_ticks scramble get_itself parse_itself parse_itself decode_any line 60
        (λ n. true)
        []
        (turn_at 5003)
        early in
    (early.uplink.stats.connect_attempts ≡ 0)
    × (late.uplink.stats.connect_attempts ≡ 1)
    × (late.timers.next_upstream_retry_tick ≡ 10003)
unfolding task_run retry_init_if_needed try_force_configure upstream_poll
task_run-attempts_example =
    task_run-attempts same_ticks scramble get_itself parse_itself parse_itself decode_any line 60
      (λ n. true) [] 0 (turn_at 10 ∷ turn_at 4999 ∷ []) (turn_at 5003) idle_board (omega arith)
      (omega arith) refl refl (omega arith) (omega arith) (omega arith) (omega arith) refl
      (refl, refl) refl
