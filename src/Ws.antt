-- ===== src/Ws.antt =====
-- gateway/ws_upstream_client.c: frames of the WebSocket to the server. `recv` and `send` are parameters,
-- as in Net.antt, and `fuel` bounds the turns of each loop over them. A `size_t` has 64 bits here; a null
-- payload is the empty list. `allocated` is whether `malloc` gives memory for so many bytes.
pub mod Wire
pub mod Reads
pub mod Lengths
pub mod Receive
pub mod Send
pub mod Connect
pub mod Opening
use carplay_poc.Base.{
  ℕ, zero, suc, ◌+◌, ◌-◌, ◌%◌, ◌^◌, Bool, true, false, not, Option, none, some, List, [], ◌∷◌, ◌++◌,
  ◌==◌, ltb, leb, if◌then◌else◌, length, take, drop, get_or, byte_at, u8, ◌>>>◌, ◌<<<◌, bit_and,
  bit_or, bit_xor, Status, ok, failed,
}
use carplay_poc.Crypto.{fill_random}
use carplay_poc.Net.{Received, Sent, Read, Written, got_more, write_all}

-- `ws_upstream_client_t`, with the network's state in place of the descriptor
pub record Client (Net : Type 0) : Type 0 where
  pub net : Net
  pub prebuffer : Option (List ℕ)
  pub prebuffer_len : ℕ
  pub prebuffer_off : ℕ

-- what `ws_upstream_recv_frame` stores through its output pointers
pub record Frame : Type 0 where
  pub opcode : ℕ
  pub payload : List ℕ

-- `buf[i] ^= mask[i % 4u]` from index `i` on
unfoldable pub masked : List ℕ → ℕ → List ℕ → List ℕ
masked mask i [] = []
masked mask i (b ∷ bs) = bit_xor b (get_or mask (i % 4) 0) ∷ masked mask (i + 1) bs

module _ {Net : Type 0} where
  -- whether something of the prebuffer is unread
  unfoldable pub buffered : Client Net → Option (List ℕ)
  buffered c = elim c.prebuffer [
    | none ↦ none
    | some buf ↦ if ltb c.prebuffer_off c.prebuffer_len then some buf else none
  ]

  -- the part of the prebuffer that `ws_read_some` copies for `len` bytes asked, and the client then
  unfoldable pub take_prebuffer : ℕ → List ℕ → Client Net → List ℕ × Client Net
  take_prebuffer len buf c =
      let avail = c.prebuffer_len - c.prebuffer_off in
      let size = if ltb len avail then len else avail in
      let off = c.prebuffer_off + size in
      (
        take size (drop c.prebuffer_off buf),
        if off == c.prebuffer_len
            then record c { prebuffer = none; prebuffer_len = 0; prebuffer_off = 0 }
            else record c { prebuffer_off = off },
      )

module _ {Net : Type 0} (recv : Net → ℕ → Received × Net) where
  -- `ws_read_some`
  unfoldable pub read_some : ℕ → ℕ → Client Net → Read × Client Net
  read_some fuel zero c = (Read.got [], c)
  read_some zero (suc len) c = (Read.unfinished, c)
  read_some (suc fuel) (suc len) c = elim (buffered c) [
    | some buf ↦
        let (bs, c') = take_prebuffer (suc len) buf c in
        got_more bs (read_some fuel (suc len - length bs) c')
    | none ↦
        let (n, net') = recv c.net (suc len) in
        let c' = record c { net = net' } in
        elim n [
          | Received.received [] ↦ (Read.closed, c')
          | Received.received (b ∷ bs) ↦ got_more (b ∷ bs) (read_some fuel (len - length bs) c')
          | Received.interrupted ↦ read_some fuel (suc len) c'
          | Received.broken ↦ (Read.failed, c')
        ]
  ]

-- `if (rc <= 0) return -1;`, and what follows otherwise
abbrev pub on_bytes :
    {Net : Type 0}
    → Read × Client Net
    → (List ℕ → Client Net → Option Frame × Client Net)
    → Option Frame × Client Net
on_bytes (Read.got bs, c) rest = rest bs c
on_bytes (Read.closed, c) rest = (none, c)
on_bytes (Read.failed, c) rest = (none, c)
on_bytes (Read.unfinished, c) rest = (none, c)

-- `payload_len = (payload_len << 8) | ext[i]` over the bytes of `ext`
unfoldable pub extended_len : ℕ → List ℕ → ℕ
extended_len len [] = len
extended_len len (b ∷ bs) = extended_len (bit_or ((len <<< 8) % 2 ^ 64) b) bs

module _ {Net : Type 0} (recv : Net → ℕ → Received × Net) (fuel : ℕ) (allocated : ℕ → Bool) where
  -- the payload of a frame, and the frame
  unfoldable pub recv_payload : ℕ → ℕ → Option (List ℕ) → Client Net → Option Frame × Client Net
  recv_payload opcode len mask c =
      if len == 0
      then (some (record { opcode = opcode; payload = [] }), c)
      else if not (allocated len)
      then (none, c)
      else on_bytes (read_some recv fuel len c) (λ payload c'. (
        some (record {
          opcode = opcode;
          payload = elim mask [ none ↦ payload | some m ↦ masked m 0 payload ];
        }),
        c',
      ))

  -- its mask, where it has one
  unfoldable pub recv_mask : Bool → ℕ → ℕ → Client Net → Option Frame × Client Net
  recv_mask false opcode len c = recv_payload opcode len none c
  recv_mask true opcode len c =
      on_bytes (read_some recv fuel 4 c) (λ mask c'. recv_payload opcode len (some mask) c')

  -- its length, where the header does not hold it
  unfoldable pub recv_len : Bool → ℕ → ℕ → Client Net → Option Frame × Client Net
  recv_len has_mask opcode len c =
      if len == 126
      then on_bytes (read_some recv fuel 2 c)
          (λ ext c'. recv_mask has_mask opcode (bit_or (byte_at ext 0 <<< 8) (byte_at ext 1)) c')
      else if len == 127
      then on_bytes (read_some recv fuel 8 c)
          (λ ext c'. recv_mask has_mask opcode (extended_len 0 ext) c')
      else recv_mask has_mask opcode len c

  -- `ws_upstream_recv_frame` on non-null pointers
  unfoldable pub recv_frame : Client Net → Option Frame × Client Net
  recv_frame c = on_bytes (read_some recv fuel 2 c) (λ header c'.
      recv_len (not (bit_and (byte_at header 1) 0x80 == 0)) (bit_and (byte_at header 0) 0x0F)
        (bit_and (byte_at header 1) 0x7F) c')

-- the header that `ws_send_masked_frame` builds, with the mask at its end
unfoldable pub masked_header : ℕ → List ℕ → ℕ → List ℕ
masked_header opcode mask len =
    let first = u8 (bit_or 0x80 opcode) in
    let size =
      if leb len 125
      then u8 (bit_or 0x80 (u8 len)) ∷ []
      else if leb len 0xFFFF
      then bit_or 0x80 126 ∷ u8 (len >>> 8) ∷ u8 len ∷ []
      else bit_or 0x80 127
        ∷ u8 (len >>> 56)
        ∷ u8 (len >>> 48)
        ∷ u8 (len >>> 40)
        ∷ u8 (len >>> 32)
        ∷ u8 (len >>> 24)
        ∷ u8 (len >>> 16)
        ∷ u8 (len >>> 8)
        ∷ u8 len
        ∷ [] in
    first ∷ size ++ mask

module _ {Net : Type 0} (send : Net → List ℕ → Sent × Net) (fuel : ℕ) where
  -- `tcp_transport_write_all (...) != 0`
  unfoldable pub write_ok : List ℕ → Net → Status × Net
  write_ok bs net =
      let (r, net') = write_all send fuel bs net in
      (elim r as (λ _. Status) [ Written.done ↦ ok | _ ↦ failed ], net')

  -- `ws_send_masked_frame`; the mask comes from `crypto_stream_fill_random`
  unfoldable pub send_masked_frame :
      (ℕ → Bool) → Option (List ℕ) → (ℕ → ℕ) → ℕ → List ℕ → Net → Status × Net
  send_masked_frame allocated urandom rand opcode payload net =
      let mask = fill_random urandom rand 4 in
      let (rc, net') = write_ok (masked_header opcode mask (length payload)) net in
      elim rc [
        | failed ↦ (failed, net')
        | ok ↦
            if length payload == 0
            then (ok, net')
            else if not (allocated (length payload))
            then (failed, net')
            else write_ok (masked mask 0 payload) net'
      ]

  -- `ws_upstream_send_text`
  unfoldable pub send_text : (ℕ → Bool) → Option (List ℕ) → (ℕ → ℕ) → List ℕ → Net → Status × Net
  send_text allocated urandom rand text net = send_masked_frame allocated urandom rand 1 text net

  -- `ws_upstream_send_close`
  unfoldable pub send_close : (ℕ → Bool) → Option (List ℕ) → (ℕ → ℕ) → ℕ → Net → Status × Net
  send_close allocated urandom rand code net =
      send_masked_frame allocated urandom rand 8 (u8 (code >>> 8) ∷ u8 code ∷ []) net

-- `ws_upstream_close` on a non-null client; `shutdown_close` is `tcp_transport_shutdown_close`
unfoldable pub ws_close : {Net : Type 0} → (Net → Net) → Client Net → Client Net
ws_close shutdown_close c = record {
  net = shutdown_close c.net;
  prebuffer = none;
  prebuffer_len = 0;
  prebuffer_off = 0;
}
