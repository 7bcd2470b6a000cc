-- ===== src/Usb/State.antt =====
-- ameba_gateway/example_gateway_ameba.c: `gateway_usb_function_ctx_t` and the globals of the USB side.
-- A pointer that is only tested for null is a flag. An `int` result of the USB stack is its 32-bit
-- pattern, and counters are 32-bit.
use carplay_poc.Base.{ℕ, Bool, List, ◌+◌, u32}
use carplay_poc.Usb.Ring.{Tx}

pub record Usb : Type 0 where
  pub tx : Tx
  pub in_ep : Bool
  pub out_ep : Bool
  pub in_req : Bool
  pub out_req : Bool
  -- the 512 bytes that the IN endpoint sends from, and how many of them it was given
  pub in_buf : List ℕ
  pub in_req_length : ℕ
  pub configured : Bool
  pub in_busy : Bool
  pub in_flight_len : ℕ
  pub started : Bool
  pub usb_configured : Bool
  pub host_ready : Bool
  pub stream_resetting : Bool
  pub last_kick_rc : ℕ
  pub last_ping_valid : ℕ
  pub last_actual : ℕ
  pub last_seq : ℕ
  pub last_payload_len : ℕ
  pub last_magic : List ℕ
  pub rx_packets : ℕ
  pub tx_packets : ℕ
  pub kick_count : ℕ
  pub in_complete_count : ℕ
  pub in_error_count : ℕ
  pub fifo_flush_count : ℕ
  pub watchdog_reset_count : ℕ

-- `struct usb_request` as a completion sees it
pub record Completion : Type 0 where
  pub status : ℕ
  pub actual : ℕ

-- `++counter`
abbrev pub next : ℕ → ℕ
next n = u32 (n + 1)

abbrev pub in_chunk_size : ℕ
in_chunk_size = 512

abbrev pub out_packet_size : ℕ
out_packet_size = 64
