-- ===== src/Upstream/Send.antt =====
-- ameba_gateway/example_gateway_ameba.c: frames sent by the board.
use carplay_poc.Upstream.Frames.{fixed_mask, upstream_header, upstream_send_masked_frame}
use carplay_poc.Upstream.Same.{send_of, upstream_write_all-write_ok}
use carplay_poc.Base.{
  Option, Bool, ◌≤◌, ◌++◌, ok, ℕ, arith, ◌≡◌, some, List, true, ◌+◌, ◌∙◌, ◌<◌, length,
}
use carplay_poc.Crypto.{fill_random}
use carplay_poc.Ws.{masked_header, send_masked_frame, masked, write_ok}
use carplay_poc.Net.Connection.{IsSending}
use carplay_poc.Ws.Wire.{wire}
use carplay_poc.Ws.Send.{send_masked_frame-wire}

header_same :
    (undefined : List ℕ) (opcode len : ℕ)
    → len ≤ 0xFFFF
    → upstream_header undefined opcode len ≡ masked_header opcode fixed_mask len
unfolding upstream_header masked_header
header_same undefined opcode len h = ground arith

module _ {Net : Type 0} (lwip_write : Net → List ℕ → Option ℕ × Net) (fuel : ℕ)
    (allocated : ℕ → Bool) (undefined : List ℕ) (rand : ℕ → ℕ) where
  -- Up to 65535 bytes the board sends a frame as the gateway program does whose random mask is the board's.
  upstream_send_masked_frame-send_masked_frame :
      (opcode : ℕ) (payload : List ℕ) (net : Net)
      → length payload ≤ 0xFFFF
      → upstream_send_masked_frame lwip_write fuel allocated undefined opcode payload net
        ≡ send_masked_frame
            (send_of lwip_write)
            fuel
            allocated
            (some fixed_mask)
            rand
            opcode
            payload
            net
  unfolding upstream_send_masked_frame send_masked_frame fill_random
  upstream_send_masked_frame-send_masked_frame opcode payload net h =
      let header = masked_header opcode fixed_mask (length payload) in
      let stored = masked fixed_mask 0 payload in
      let net' = (write_ok (send_of lwip_write) fuel header net).1 in
      ground (
        arith,
        header_same undefined opcode (length payload) h,
        upstream_write_all-write_ok lwip_write fuel header net,
        upstream_write_all-write_ok lwip_write fuel stored net',
      )

  -- On a connection that does not break, and that always takes a byte, sending a frame of at most 65535 bytes ends with success, and what
  -- the connection has then taken is that frame, whole, under the mask that never changes.
  pub upstream_send_masked_frame-wire :
      (c : IsSending (send_of lwip_write)) (opcode : ℕ) (payload : List ℕ) (net : Net)
      → opcode < 16
      → length payload ≤ 0xFFFF
      → allocated (length payload) ≡ true
      → 14 + length payload + c.patience net ≤ fuel
      → (net' : Net) × (upstream_send_masked_frame lwip_write fuel allocated undefined opcode
            payload net
          ≡ (ok, net'))
        × (c.outgoing net' ≡ c.outgoing net ++ wire (some fixed_mask) opcode payload)
  upstream_send_masked_frame-wire c opcode payload net op small a h =
      let (net', e, out) =
        send_masked_frame-wire (send_of lwip_write) c fuel allocated (some fixed_mask) rand opcode
          payload net op (omega arith) a h in
      (
        net',
        upstream_send_masked_frame-send_masked_frame opcode payload net small ∙ e,
        unfold fill_random in out,
      )
