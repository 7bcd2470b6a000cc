-- ===== src/Upstream/Receive.antt =====
-- ameba_gateway/example_gateway_ameba.c: frames received by the board.
use carplay_poc.Upstream.Frames.{extended_len32, upstream_recv_len, upstream_recv_frame}
use carplay_poc.Upstream.Same.{
  recv_of, on_bytes_same, upstream_recv_mask-recv_mask, upstream_read_some-read_some, lost,
}
use carplay_poc.Base.{
  Bool, ◌∙◌, ◌^◌, ◌%◌, bit_or, ap, ℕ, List, ◌≡◌, refl, inr, ◌∷◌, ◌<◌, ◌/◌, Option, arith, inl, [],
  ◌==◌, Bool-cases, bit_or_fields, byte_at, ◌<<<◌, ==_iff, true, ◌++◌, ◌+◌, length, drop, bit_and,
  sym, and_0f,
}
use carplay_poc.Ws.{Client, read_some, extended_len, recv_len, recv_frame}
use carplay_poc.Net.{Read}
use carplay_poc.Net.Connection.{IsReceiving}
use carplay_poc.Ws.Lengths.{
  has_mask, IsMask, body, mask_bit, short_len, second_byte, extended_len-bytes, wire_front,
}
use carplay_poc.Ws.Receive.{HasReceived, reads_next, recv_frame-wire}
use carplay_poc.Ws.Wire.{size_bytes, wire}
use carplay_poc.Ws.Reads.{IsOpen, pending}
use carplay_poc.Upstream.{upstream_read_some}

-- One byte of a long length.
extended_len32_turn :
    (len b x : ℕ) (bs : List ℕ)
    → len ≡ x / 256
    → b ≡ x % 256
    → x < 2 ^ 32
    → extended_len32 len (b ∷ bs) ≡ extended_len32 x bs
unfolding extended_len32
extended_len32_turn len b x bs e e' h =
    ap (λ n. extended_len32 n bs)
      (omega (arith, bit_or_fields 8 len b {a = (len <<< 8) % 2 ^ 32} (omega arith) (omega arith)))

extended_len32-bytes :
    (n : ℕ)
    → n < 2 ^ 32
    → extended_len32 0 (
        n / 2 ^ 56
        ∷ (n / 2 ^ 48 % 256)
        ∷ (n / 2 ^ 40 % 256)
        ∷ (n / 2 ^ 32 % 256)
        ∷ (n / 2 ^ 24 % 256)
        ∷ (n / 2 ^ 16 % 256)
        ∷ (n / 2 ^ 8 % 256)
        ∷ (n % 256)
        ∷ [])
      ≡ n
extended_len32-bytes n h =
    extended_len32_turn 0 (n / 2 ^ 56) (n / 2 ^ 56) _ (omega arith) (omega arith) (omega arith)
    ∙ extended_len32_turn (n / 2 ^ 56) _ (n / 2 ^ 48) _ (omega arith) refl (omega arith)
    ∙ extended_len32_turn (n / 2 ^ 48) _ (n / 2 ^ 40) _ (omega arith) refl (omega arith)
    ∙ extended_len32_turn (n / 2 ^ 40) _ (n / 2 ^ 32) _ (omega arith) refl (omega arith)
    ∙ extended_len32_turn (n / 2 ^ 32) _ (n / 2 ^ 24) _ (omega arith) refl (omega arith)
    ∙ extended_len32_turn (n / 2 ^ 24) _ (n / 2 ^ 16) _ (omega arith) refl (omega arith)
    ∙ extended_len32_turn (n / 2 ^ 16) _ (n / 2 ^ 8) _ (omega arith) refl (omega arith)
    ∙ extended_len32_turn (n / 2 ^ 8) _ n _ (omega arith) refl h
    ∙ (unfold extended_len32 in refl)

module _ {Net : Type 0} (lwip_read : Net → ℕ → Option (List ℕ) × Net)
    (c : IsReceiving (recv_of lwip_read)) (fuel : ℕ) (allocated : ℕ → Bool) where
  -- The same frames, where the long lengths read have 32 bits.
  upstream_recv_len-recv_len :
      (has_mask : Bool) (opcode len : ℕ) (w : Client Net)
      → ((ext : List ℕ) (w' : Client Net)
          → read_some (recv_of lwip_read) fuel 8 w ≡ (Read.got ext, w')
          → len ≡ 127
          → extended_len32 0 ext ≡ extended_len 0 ext)
      → upstream_recv_len lwip_read fuel allocated has_mask opcode len w
        ≡ recv_len (recv_of lwip_read) fuel allocated has_mask opcode len w
  unfolding upstream_recv_len recv_len
  upstream_recv_len-recv_len has_mask opcode len w h =
      let mask = upstream_recv_mask-recv_mask lwip_read fuel allocated has_mask opcode in
      let two = λ (ext : List ℕ). bit_or (byte_at ext 0 <<< 8) (byte_at ext 1) in
      elim (Bool-cases (len == 126)) [
        | inl e ↦ rw e (on_bytes_same lwip_read fuel 2 w _ _ (λ ext w' r. mask (two ext) w'))
        | inr e ↦ elim (Bool-cases (len == 127)) [
          | inl e' ↦
              rw (e, e')
                (on_bytes_same lwip_read fuel 8 w _ _ (λ ext w' r.
                  rw (h ext w' r ((==_iff len 127).0 e')) (mask (extended_len 0 ext) w')))
          | inr e' ↦ rw (e, e') (mask len w)
        ]
      ]

  -- A long length that fits 32 bits is read alike.
  long_same :
      (mask : Option (List ℕ)) (n : ℕ) (ext behind : List ℕ) (w w' : Client Net)
      → IsOpen w
      → pending (recv_of lwip_read) c w ≡ drop 1 (size_bytes (mask_bit mask) n) ++ behind
      → 8 + c.patience w.net < fuel
      → n < 2 ^ 32
      → read_some (recv_of lwip_read) fuel 8 w ≡ (Read.got ext, w')
      → short_len n ≡ 127
      → extended_len32 0 ext ≡ extended_len 0 ext
  unfolding short_len
  long_same mask n ext behind w w' v e enough small r long =
      let bytes =
        n / 2 ^ 56
        ∷ (n / 2 ^ 48 % 256)
        ∷ (n / 2 ^ 40 % 256)
        ∷ (n / 2 ^ 32 % 256)
        ∷ (n / 2 ^ 24 % 256)
        ∷ (n / 2 ^ 16 % 256)
        ∷ (n / 2 ^ 8 % 256)
        ∷ (n % 256)
        ∷ [] in
      let big : 0xFFFF < n = ground arith in
      let e' : pending (recv_of lwip_read) c w ≡ bytes ++ behind = ground (arith, e, big) in
      let (w'', got', _, _, _) =
        reads_next (recv_of lwip_read) c fuel allocated 8 bytes behind w v refl e' enough in
      let same : ext ≡ bytes = cc in
      rw same (extended_len32-bytes n small ∙ sym (extended_len-bytes n (omega arith)))

  -- Where a frame of less than 4 GiB is the next thing to come, on a connection that does not break, the board receives
  -- its opcode and its payload, unmasked, and what follows the frame is left. There is memory for the
  -- payload; turns enough are the bytes of the payload, twelve more, and what the connection may put off.
  pub upstream_recv_frame-wire :
      (mask : Option (List ℕ)) (opcode : ℕ) (payload rest : List ℕ) (w : Client Net)
      → IsMask mask
      → IsOpen w
      → opcode < 16
      → allocated (length payload) ≡ true
      → length payload < 2 ^ 32
      → pending (recv_of lwip_read) c w ≡ wire mask opcode payload ++ rest
      → 12 + length payload + c.patience w.net < fuel
      → HasReceived
          (recv_of lwip_read)
          c
          fuel
          allocated
          opcode
          payload
          rest
          (upstream_recv_frame lwip_read fuel allocated w)
  unfolding upstream_recv_frame recv_frame
  upstream_recv_frame-wire mask opcode payload rest w m v op a small e h =
      let recv = recv_of lwip_read in
      let n = length payload in
      let header = (128 + opcode) ∷ (mask_bit mask + short_len n) ∷ [] in
      let behind = body mask payload ++ rest in
      let ext = drop 1 (size_bytes (mask_bit mask) n) in
      let (byte, bit, len) = second_byte mask n in
      let code : bit_and (128 + opcode) 0x0F ≡ opcode =
        omega (arith, and_0f (128 + opcode) (omega arith)) in
      let (w', got', v', left, p) =
        reads_next recv c fuel allocated 2 header (ext ++ behind) w v refl
          (e ∙ wire_front mask opcode payload rest) (omega arith) in
      let read' : upstream_read_some lwip_read fuel 2 w ≡ (Read.got header, w') =
        upstream_read_some-read_some lwip_read fuel 2 w ∙ ap (λ r. (lost r.0, r.1)) got' in
      let ours : upstream_recv_frame lwip_read fuel allocated w
          ≡ upstream_recv_len lwip_read fuel allocated (has_mask mask) opcode (short_len n) w' =
        rw (read', code, bit, len) refl in
      let theirs : recv_frame recv fuel allocated w
          ≡ recv_len recv fuel allocated (has_mask mask) opcode (short_len n) w' =
        rw (got', code, bit, len) refl in
      let same =
        upstream_recv_len-recv_len (has_mask mask) opcode (short_len n) w' (λ ext' w'' r long.
          long_same mask n ext' behind w' w'' v' left (omega arith) small r long) in
      rw (ours ∙ same ∙ sym theirs) (
        recv_frame-wire recv c fuel allocated mask opcode payload rest w m v op a (omega arith) e h)
