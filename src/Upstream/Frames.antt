-- ===== src/Upstream/Frames.antt =====
-- ameba_gateway/example_gateway_ameba.c: the board's WebSocket frames. A `size_t` has 32 bits on this target;
-- `allocated` is whether `malloc` gives memory for so many bytes.
use carplay_poc.Base.{
  ℕ, ◌%◌, ◌^◌, Bool, true, false, not, Option, none, some, List, [], ◌∷◌, ◌++◌, ◌==◌, leb,
  if◌then◌else◌, length, byte_at, u8, ◌>>>◌, ◌<<<◌, bit_and, bit_or, Status, ok, failed,
}
use carplay_poc.Ws.{Client, Frame, on_bytes, masked}
use carplay_poc.Upstream.{upstream_read_some, upstream_write_all}

-- `mask`
abbrev pub fixed_mask : List ℕ
fixed_mask = 0x12 ∷ 0x34 ∷ 0x56 ∷ 0x78 ∷ []

-- the header that `gateway_upstream_send_masked_frame` builds. Beyond 65535 bytes the source shifts a 32-bit value by 56, 48,
-- 40 and 32 bits, which C leaves undefined: `undefined` are the bytes that come of it.
unfoldable pub upstream_header : List ℕ → ℕ → ℕ → List ℕ
upstream_header undefined opcode len =
    let size =
      if leb len 125
      then u8 (bit_or 0x80 (u8 len)) ∷ []
      else if leb len 0xFFFF
      then bit_or 0x80 126 ∷ u8 (len >>> 8) ∷ u8 len ∷ []
      else bit_or 0x80 127 ∷ undefined
        ++ (u8 (len >>> 24) ∷ u8 (len >>> 16) ∷ u8 (len >>> 8) ∷ u8 len ∷ []) in
    u8 (bit_or 0x80 opcode) ∷ size ++ fixed_mask

module _ {Net : Type 0} (lwip_write : Net → List ℕ → Option ℕ × Net) (fuel : ℕ)
    (allocated : ℕ → Bool) (undefined : List ℕ) where
  -- `gateway_upstream_send_masked_frame`
  unfoldable pub upstream_send_masked_frame : ℕ → List ℕ → Net → Status × Net
  upstream_send_masked_frame opcode payload net =
      let (rc, net') =
        upstream_write_all lwip_write fuel (upstream_header undefined opcode (length payload))
          net in
      elim rc [
        | failed ↦ (failed, net')
        | ok ↦
            if length payload == 0
            then (ok, net')
            else if not (allocated (length payload))
            then (failed, net')
            else upstream_write_all lwip_write fuel (masked fixed_mask 0 payload) net'
      ]

  -- `gateway_upstream_send_text`
  unfoldable pub upstream_send_text : List ℕ → Net → Status × Net
  unfolding upstream_send_masked_frame
  upstream_send_text text net = upstream_send_masked_frame 1 text net

-- `payload_len = (payload_len << 8) | ext[i]` over the bytes of `ext`
unfoldable pub extended_len32 : ℕ → List ℕ → ℕ
extended_len32 len [] = len
extended_len32 len (b ∷ bs) = extended_len32 (bit_or ((len <<< 8) % 2 ^ 32) b) bs

module _ {Net : Type 0} (lwip_read : Net → ℕ → Option (List ℕ) × Net) (fuel : ℕ)
    (allocated : ℕ → Bool) where
  -- the payload of a frame, and the frame
  unfoldable pub upstream_recv_payload :
      ℕ → ℕ → Option (List ℕ) → Client Net → Option Frame × Client Net
  upstream_recv_payload opcode len mask c =
      if len == 0
      then (some (record { opcode = opcode; payload = [] }), c)
      else if not (allocated len)
      then (none, c)
      else on_bytes (upstream_read_some lwip_read fuel len c) (λ payload c'. (
        some (record {
          opcode = opcode;
          payload = elim mask [ none ↦ payload | some m ↦ masked m 0 payload ];
        }),
        c',
      ))

  -- its mask, where it has one
  unfoldable pub upstream_recv_mask : Bool → ℕ → ℕ → Client Net → Option Frame × Client Net
  upstream_recv_mask false opcode len c = upstream_recv_payload opcode len none c
  upstream_recv_mask true opcode len c =
      on_bytes (upstream_read_some lwip_read fuel 4 c)
        (λ mask c'. upstream_recv_payload opcode len (some mask) c')

  -- its length, where the header does not hold it
  unfoldable pub upstream_recv_len : Bool → ℕ → ℕ → Client Net → Option Frame × Client Net
  upstream_recv_len has_mask opcode len c =
      if len == 126
      then on_bytes (upstream_read_some lwip_read fuel 2 c) (λ ext c'.
        upstream_recv_mask has_mask opcode (bit_or (byte_at ext 0 <<< 8) (byte_at ext 1)) c')
      else if len == 127
      then on_bytes (upstream_read_some lwip_read fuel 8 c)
          (λ ext c'. upstream_recv_mask has_mask opcode (extended_len32 0 ext) c')
      else upstream_recv_mask has_mask opcode len c

  -- `gateway_upstream_recv_frame`
  unfoldable pub upstream_recv_frame : Client Net → Option Frame × Client Net
  upstream_recv_frame c = on_bytes (upstream_read_some lwip_read fuel 2 c) (λ header c'.
      upstream_recv_len (not (bit_and (byte_at header 1) 0x80 == 0))
        (bit_and (byte_at header 0) 0x0F) (bit_and (byte_at header 1) 0x7F) c')
