-- ===== src/Usb/Host.antt =====
-- ameba_gateway/example_gateway_ameba.c: what the host sends over the bulk OUT endpoint. The address
-- and dump variables that only serve the log are left out. Re-queueing the OUT request changes no
-- state and its result is ignored.
pub mod Sound
pub mod Ping
use carplay_poc.Base.{
  ℕ, ◌-◌, ◌^◌, Bool, true, false, not, List, ◌==◌, ltb, if◌then◌else◌, take, read_le32, Status, ok,
  failed, some,
}
use carplay_poc.Config.{ConfigState, apply_usb_config, config_packet_at}
use carplay_poc.Media.{has_magic}
use carplay_poc.Usb.State.{Usb, Completion, next}
use carplay_poc.Usb.Stream.{reset_stream_session, send_pong, enqueue_init_packet, kick_tx}

-- What the USB stack answers to the calls of one OUT completion.
pub record Answers : Type 0 where
  pub dequeue_rc : ℕ
  pub can_flush : Bool
  pub pong_rc : ℕ
  pub kick_rc : ℕ

-- `if (gateway_usb_enqueue_init_packet() == 0) (void)gateway_usb_kick_tx(ctx);`
unfoldable pub start_stream : ℕ → Usb → Usb
start_stream kick_rc s =
    let (rc, s') = enqueue_init_packet s in elim rc [ ok ↦ (kick_tx kick_rc s').1 | failed ↦ s' ]

-- the packet's reception noted
unfoldable pub received : Completion → Usb → Usb
received r s = record s {
  rx_packets = next s.rx_packets;
  host_ready = true;
  last_actual = r.actual;
}

-- its first twelve bytes noted
unfoldable pub noted : List ℕ → Usb → Usb
noted raw s = record s {
  last_magic = take 4 raw;
  last_seq = read_le32 raw 4;
  last_payload_len = read_le32 raw 8;
}

-- the end of `gateway_usb_out_complete`, for all but the configuration packet
unfoldable pub answer_ping : Answers → List ℕ → Usb → Usb
answer_ping a raw s =
    let s' =
      if has_magic b'P' b'I' b'N' b'G' raw
      then reset_stream_session a.dequeue_rc a.can_flush (record s { last_ping_valid = 1 })
      else record s { last_ping_valid = 2 } in
    start_stream a.kick_rc (send_pong a.pong_rc (read_le32 raw 4) s').1

module _ (inet_aton : List ℕ → Bool) where
  -- its branch for the configuration packet
  unfoldable pub take_config : List ℕ → Usb → ConfigState → Usb × ConfigState
  take_config raw s c =
      let (rc, c') = apply_usb_config inet_aton (some (config_packet_at raw)) c in
      let valid = elim rc as (λ _. ℕ) [ ok ↦ 3 | failed ↦ 2 ^ 32 - 2 ] in
      (record s { last_ping_valid = valid }, c')

  -- `gateway_usb_out_complete`; `raw` is the OUT buffer of 64 bytes
  unfoldable pub out_complete :
      Answers → Completion → List ℕ → Usb → ConfigState → Usb × ConfigState
  out_complete a r raw s c =
      if not (r.status == 0)
      then (s, c)
      else if ltb r.actual 12
      then (record (received r s) { last_ping_valid = 2 ^ 32 - 1 }, c)
      else let s' = noted raw (received r s) in
        if has_magic b'C' b'F' b'G' b'1' raw
        then take_config raw s' c
        else (answer_ping a raw s', c)
