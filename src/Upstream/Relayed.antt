-- ===== src/Upstream/Relayed.antt =====
-- ameba_gateway/example_gateway_ameba.c: a packet on its way from the server through the board to the host.
use carplay_poc.Upstream.Connect.{Uplink, Lwip}
use carplay_poc.Media.{video_flags}
use carplay_poc.Base.{
  ℕ, ◌∙◌, some, List, ◌+◌, ap, true, Status, ◌≡◌, ◌<◌, refl, ◌||◌, not, arith, ◌^◌, ◌==◌, if_both,
  length, drop, IsBytes, none, sym, ◌++◌, Bool, ◌≤◌, false, Option, take_all, if◌then◌else◌,
}
use carplay_poc.Crypto.{decrypt_packet, is_negative, encrypt_packet}
use carplay_poc.Proto.{read_media_header}
use carplay_poc.Usb.Relay.{usb_crypto_nonce, enqueue_media_packet, relay_media}
use carplay_poc.Usb.Ring.{tx_ring_size, peek_chunk}
use carplay_poc.Usb.Queue.{push}
use carplay_poc.Usb.Relay.Packet.{enqueue_media_packet_opens}
use carplay_poc.Usb.Ring.Refine.{contents, IsValid}
use carplay_poc.Crypto.Cipher.{IsStreamCipher}
use carplay_poc.Session.{SessionNonce}
use carplay_poc.Net.Connection.{IsReceiving}
use carplay_poc.Ws.Wire.{wire}
use carplay_poc.Ws.Reads.{IsOpen, pending}
use carplay_poc.Crypto.Packet.{decrypt_packet-encrypt_packet}
use carplay_poc.Upstream.Poll.{
  PollAnswers, on_upstream_binary, on_upstream_frame, on_received, upstream_poll,
}
use carplay_poc.Upstream.Receive.{upstream_recv_frame-wire}
use carplay_poc.Upstream.Same.{recv_of}
use mathlib.Core.Path.{subst}
use carplay_poc.Session.Forward.{some_inj}
use carplay_poc.Usb.Queue
use carplay_poc.Usb.State.{Usb}
use carplay_poc.Usb.Stream.{kick_tx, submit, enqueue_init_packet}

kick_tx-contents : (rc : ℕ) (s : Usb) → contents (kick_tx rc s).1.tx ≡ contents s.tx
unfolding kick_tx submit contents
kick_tx-contents rc s =
    let P = λ (r : Status × Usb). contents r.1.tx ≡ contents s.tx in
    let chunk = peek_chunk s.tx 512 in
    if_both P (not s.in_ep || not s.in_req || not s.configured || s.in_busy) _ _ refl
      (if_both P (length chunk == 0) _ _ refl (if_both P (not (rc == 0)) _ _ refl refl))

-- The board passes media on: the host is there, and has had its init packet.
abbrev pub IsRelaying : Usb → Type 0
IsRelaying s =
    (s.started ≡ true)
    × (s.usb_configured ≡ true)
    × (s.host_ready ≡ true)
    × (s.tx.proto_init_sent ≡ true)
    × IsValid s.tx

module _ (xor : List ℕ → List ℕ → ℕ → List ℕ → List ℕ) where
  -- What the host gets of a payload: one packet behind what waits in the ring, whole or not at all, that it
  -- reads and opens to the payload, its stream and its number.
  abbrev pub HasRelayed : ℕ → ℕ → List ℕ → Usb → Usb → Type 0
  HasRelayed stream_id seq_no plain s s' =
      (sealed : List ℕ) × (contents s'.tx ≡ (Queue.push tx_ring_size (contents s.tx) sealed).1)
      × (read_media_header (some sealed)
          ≡ some (record {
            stream_id = stream_id;
            flags = if stream_id == 1 then video_flags plain else 0;
            seq_no = seq_no;
            payload_len = 8 + length plain;
          }))
      × (decrypt_packet xor (some (length plain)) (some usb_crypto_nonce) (some (drop 16 sealed))
          ≡ (
            length plain,
            some (record { stream_id = stream_id; seq_no = seq_no; plaintext = plain }),
          ))

  relay_media_lem :
      (kick_rc stream_id seq_no : ℕ) (plain : List ℕ) (s : Usb)
      → IsStreamCipher xor
      → IsRelaying s
      → IsBytes plain
      → stream_id < 2 ^ 8
      → seq_no < 2 ^ 32
      → 0 < length plain
      → 8 + length plain < 2 ^ 31
      → HasRelayed stream_id seq_no plain s (relay_media xor true kick_rc stream_id seq_no plain s)
  unfolding relay_media enqueue_init_packet
  relay_media_lem kick_rc stream_id seq_no plain s c (on, set', ready, had, v) hb hs hq some'
        small =
      let (rc, t) = enqueue_media_packet xor true stream_id seq_no plain s.tx in
      let (sealed, pushed, v', header, opened) =
        enqueue_media_packet_opens xor stream_id seq_no plain s.tx c v hb hs hq some' small in
      let same = kick_tx-contents kick_rc (record s { tx = t }) in
      let all : contents (relay_media xor true kick_rc stream_id seq_no plain s).tx ≡ contents t =
        ground arith in
      (sealed, all ∙ ap (λ (r : Status × List ℕ). r.1) pushed, header, opened)

  binary_step :
      (a : PollAnswers) (n : SessionNonce) (plain packet : List ℕ) (stream_id seq_no : ℕ) (s : Usb)
      → n.have_nonce ≡ true
      → a.plain_room ≡ true
      → a.packet_room ≡ true
      → 0 < length plain
      → length plain < 2 ^ 31
      → decrypt_packet xor (some (length packet)) (some n.session_nonce) (some packet) ≡ (
        length plain,
        some (record { stream_id = stream_id; seq_no = seq_no; plaintext = plain }),
      )
      → on_upstream_binary xor a packet n s
        ≡ relay_media xor true a.kick_rc stream_id seq_no plain s
  unfolding on_upstream_binary
  binary_step a n plain packet stream_id seq_no s have room room' some' small opened =
      let whole = take_all (length plain) plain (omega arith) in
      let positive : is_negative (length plain) ≡ false = ground arith in
      let more : (length plain == 0) ≡ false = ground arith in
      rw (have, room, opened, positive, more)
        (rw opened (
          ap (λ l. relay_media xor a.packet_room a.kick_rc stream_id seq_no l s) whole
          ∙ ap (λ r. relay_media xor r a.kick_rc stream_id seq_no plain s) room'))

  module _ {Json : Type 0} (get_item : Json → List ℕ → Option Json)
      (valuestring : Json → Option (List ℕ)) (parse : List ℕ → Option Json)
      (base64_decode : List ℕ → Option (List ℕ)) {Net : Type 0} (lwip : Lwip Net)
      (r : IsReceiving (recv_of lwip.lwip_read)) (fuel : ℕ) (allocated : ℕ → Bool) where
    -- A packet that the server encrypted under the session's nonce and sent as a frame goes through a poll of the board to the host: the
    -- ring then holds one packet more, or is as it was if that does not fit, and from that packet the
    -- host reads the stream, the number and the length, and opens the plaintext with the nonce of the USB relay. What follows
    -- the frame is left. The connection is up, with its nonce, and does not break; the host is there and has had its init packet; the
    -- plaintext is bytes, not empty, and the packets are below 2 GiB; there is memory, and `chacha20_xor` is a stream cipher.
    pub upstream_poll-encrypt_packet :
        (a : PollAnswers) (u : Uplink Net) (s : Usb) (room stream_id seq_no : ℕ)
        (plain packet rest : List ℕ)
        → IsStreamCipher xor
        → IsRelaying s
        → (u.conn.connected ≡ true) × (u.conn.is_open ≡ true) × (u.conn.have_nonce ≡ true)
        → IsOpen u.conn.stream
        → (a.is_readable ≡ true) × (a.plain_room ≡ true) × (a.packet_room ≡ true)
        → IsBytes plain
        → stream_id < 2 ^ 8
        → seq_no < 2 ^ 32
        → 0 < length plain
        → 8 + length plain < 2 ^ 31
        → 8 + length plain ≤ room
        → (encrypt_packet xor
            (some room)
            stream_id
            seq_no
            (some u.conn.session_nonce)
            (some plain)).1
          ≡ some packet
        → allocated (length packet) ≡ true
        → pending (recv_of lwip.lwip_read) r u.conn.stream ≡ wire none 2 packet ++ rest
        → 12 + length packet + r.patience u.conn.stream.net < fuel
        → let (u', s') =
            upstream_poll xor get_item valuestring parse base64_decode lwip fuel allocated a u s in
          HasRelayed stream_id seq_no plain s s'
          × (pending (recv_of lwip.lwip_read) r u'.conn.stream ≡ rest)
    unfolding upstream_poll on_received on_upstream_frame
    upstream_poll-encrypt_packet a u s room stream_id seq_no plain packet rest c v (up, open', have)
          w (can, room₁, room₂) hb hs hq some' small fits enc alloc e enough =
        let (p, enc', len, opened) =
          decrypt_packet-encrypt_packet xor room (8 + length plain) stream_id seq_no
            u.conn.session_nonce plain c hb hs hq small fits (omega arith) in
        let same : p ≡ packet = some_inj p packet (ground (arith, enc, enc')) in
        let len' : length packet ≡ 8 + length plain = rw (← same) len in
        let n : SessionNonce = record {
          session_nonce = u.conn.session_nonce;
          have_nonce = u.conn.have_nonce;
        } in
        let opened' : decrypt_packet xor (some (length packet)) (some u.conn.session_nonce)
              (some packet)
            ≡ (
              length plain,
              some (record { stream_id = stream_id; seq_no = seq_no; plaintext = plain }),
            ) =
          rw (len', ← same) opened in
        let (frame, left, _) =
          upstream_recv_frame-wire lwip.lwip_read r fuel allocated none 2 packet rest u.conn.stream
            tt w (omega arith) alloc (omega arith) e enough in
        let relayed = relay_media_lem a.kick_rc stream_id seq_no plain s c v hb hs hq some' small in
        let step =
          binary_step a n plain packet stream_id seq_no s have room₁ room₂ some' (omega arith)
            opened' in
        rw (up, open', can, frame)
          (subst (HasRelayed stream_id seq_no plain s) (sym step) relayed, left)
