-- ===== src/Usb/Events.antt =====
-- ameba_gateway/example_gateway_ameba.c: the USB side as a whole. Everything that changes its state is
-- an event, with the answers that the calls made on the way get; any order of them is possible, since
-- the callbacks come from the USB stack's tasks and the rest from the gateway's task.
pub mod Sound
use carplay_poc.Base.{if◌then◌else◌, ℕ, Bool, false, Option, List, [], ◌∷◌, replicate, u32, ◌+◌}
use carplay_poc.Config.{ConfigState}
use carplay_poc.Usb.Ring.{Tx}
use carplay_poc.Usb.State.{Usb, Completion, next}
use carplay_poc.Usb.Stream.{in_complete, reset_stream_session, retry_init_if_needed}
use carplay_poc.Usb.Device.{
  Speed, Setup, usb_start, function_bind, config_bind, function_disable, function_set_alt,
  try_force_configure, disconnect, suspend,
}
use carplay_poc.Usb.Host.{Answers, out_complete}
use carplay_poc.Usb.Relay.{relay_media}

pub data Event : Type 0 where
  usb_started : Bool → Bool → Event
  in_completed : ℕ → ℕ → Bool → Option Completion → Event
  out_completed : Answers → Completion → List ℕ → Event
  config_bound : Event
  function_bound : Bool → Bool → Bool → Event
  alt_set : Setup → Event
  disabled : Event
  disconnected : Event
  suspended : Event
  force_configured : Option Speed → Setup → Event
  init_retried : ℕ → Event
  stalled : ℕ → Bool → Event
  media_arrived : Bool → ℕ → ℕ → ℕ → List ℕ → Event

-- the watchdog of `gateway_ameba_task`
unfoldable pub watchdog_reset : ℕ → Bool → Usb → Usb
watchdog_reset dequeue_rc can_flush s =
    if s.in_busy
    then reset_stream_session dequeue_rc can_flush
        (record s { watchdog_reset_count = next s.watchdog_reset_count })
    else s

module _ (inet_aton : List ℕ → Bool) (chacha20_xor : List ℕ → List ℕ → ℕ → List ℕ → List ℕ) where
  -- the address is kept beside the USB state, since a packet of the host sets it
  unfoldable pub step : Event → Usb × ConfigState → Usb × ConfigState
  step (in_completed queue_rc dequeue_rc can_flush req) (s, c) =
      (in_complete queue_rc dequeue_rc can_flush req s, c)
  step (out_completed a r raw) (s, c) = out_complete inet_aton a r raw s c
  step (usb_started is_ready is_probed) (s, c) = ((usb_start is_ready is_probed s).1, c)
  step config_bound (s, c) = (config_bind s, c)
  step (function_bound has_interface found_in found_out) (s, c) =
      ((function_bind has_interface found_in found_out s).1, c)
  step (alt_set a) (s, c) = ((function_set_alt a s).1, c)
  step disabled (s, c) = (function_disable s, c)
  step disconnected (s, c) = (disconnect s, c)
  step suspended (s, c) = (suspend s, c)
  step (force_configured speed a) (s, c) = (try_force_configure speed a s, c)
  step (init_retried queue_rc) (s, c) = (retry_init_if_needed queue_rc s, c)
  step (stalled dequeue_rc can_flush) (s, c) = (watchdog_reset dequeue_rc can_flush s, c)
  step (media_arrived allocated kick_rc stream_id seq_no payload) (s, c) =
      (relay_media chacha20_xor allocated kick_rc stream_id seq_no payload s, c)

  unfoldable pub run : List Event → Usb × ConfigState → Usb × ConfigState
  run [] sc = sc
  run (e ∷ es) sc = run es (step e sc)

-- the static storage as the program starts with it
abbrev pub boot_tx : Tx
boot_tx = record {
  ring = λ i. 0;
  head = 0;
  tail = 0;
  count = 0;
  proto_init_sent = false;
  last_ring_count = 0;
  last_queue_len = 0;
  bytes_enqueued = 0;
  bytes_sent = 0;
  drop_count = 0;
}

abbrev pub boot : Usb
boot = record {
  tx = boot_tx;
  in_ep = false;
  out_ep = false;
  in_req = false;
  out_req = false;
  in_buf = replicate 512 0;
  in_req_length = 0;
  configured = false;
  in_busy = false;
  in_flight_len = 0;
  started = false;
  usb_configured = false;
  host_ready = false;
  stream_resetting = false;
  last_kick_rc = 0;
  last_ping_valid = 0;
  last_actual = 0;
  last_seq = 0;
  last_payload_len = 0;
  last_magic = 0 ∷ 0 ∷ 0 ∷ 0 ∷ [];
  rx_packets = 0;
  tx_packets = 0;
  kick_count = 0;
  in_complete_count = 0;
  in_error_count = 0;
  fifo_flush_count = 0;
  watchdog_reset_count = 0;
}
