-- ===== src/Usb/Host/Ping.antt =====
-- ameba_gateway/example_gateway_ameba.c: a PING of the host starts the stream anew.
use carplay_poc.Base.{ℕ, ◌≡◌, true, take}
use carplay_poc.Proto.{init_packet}
use carplay_poc.Usb.Queue
use carplay_poc.Usb.Ring.Refine.{contents}
use carplay_poc.Usb.State.{Usb}
use carplay_poc.Usb.Stream.{pong_bytes}

-- What holds once the stream was started behind a pong.
pub record IsRestarted (seq_no : ℕ) (s : Usb) : Type 0 where
  pub only_init : contents s.tx ≡ init_packet
  pub init_sent : s.tx.proto_init_sent ≡ true
  pub busy : s.in_busy ≡ true
  pub nothing_of_stream : s.in_flight_len ≡ 0
  pub pong : take 64 s.in_buf ≡ pong_bytes seq_no
