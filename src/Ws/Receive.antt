-- ===== src/Ws/Receive.antt =====
-- gateway/ws_upstream_client.c: frames received.
use carplay_poc.Base.{
  ℕ, suc, ◌+◌, ◌/◌, ◌%◌, ◌^◌, ◌≤◌, ◌<◌, ◌≡◌, inl, inr, refl, ap, ◌∙◌, arith, Bool, true, Option,
  none, some, List, [], ◌∷◌, ◌++◌, length, drop, leb, length-append, take-append, drop-append,
  append_assoc, Bool-cases, bit_and, and_0f,
}
use carplay_poc.Net.{Received, Read}
use carplay_poc.Net.Connection.{IsReceiving}
use carplay_poc.Ws.{Client, Frame, masked, read_some, recv_payload, recv_mask, recv_len, recv_frame}
use carplay_poc.Ws.Lengths.{
  masked_twice, length-masked, extended_len-bytes, two_bytes, IsMask, body, mask_bit, has_mask,
  short_len, second_byte, wire_front,
}
use carplay_poc.Ws.Wire.{size_bytes, wire}
use carplay_poc.Ws.Reads.{IsOpen, pending, read_some_reads}

module _ {Net : Type 0} (recv : Net → ℕ → Received × Net) (c : IsReceiving recv) (fuel : ℕ)
    (allocated : ℕ → Bool) where
  -- A read of bytes that are there.
  pub reads_next :
      (n : ℕ) (bs rest : List ℕ) (w : Client Net)
      → IsOpen w
      → length bs ≡ n
      → pending recv c w ≡ bs ++ rest
      → n + c.patience w.net < fuel
      → (w' : Client Net) × (read_some recv fuel n w ≡ (Read.got bs, w'))
        × IsOpen w'
        × (pending recv c w' ≡ rest)
        × (c.patience w'.net ≤ c.patience w.net)
  reads_next n bs rest w v len e h =
      let (out, left, v', p) = read_some_reads recv c fuel n w v h in
      let (r, w') = read_some recv fuel n w in
      let enough : n ≤ length (pending recv c w) =
        omega (arith, ap length e, length-append bs rest) in
      (
        w',
        ap (λ q. (q, w')) (out ∙ ground (arith, e, enough, take-append n bs rest len)),
        v',
        left ∙ ap (drop n) e ∙ drop-append n bs rest len,
        p,
      )

  -- The frame has been received, and the rest is left.
  abbrev pub HasReceived : ℕ → List ℕ → List ℕ → Option Frame × Client Net → Type 0
  HasReceived opcode payload rest r =
      (r.0 ≡ some (record { opcode = opcode; payload = payload }))
      × (pending recv c r.1 ≡ rest)
      × IsOpen r.1

  recv_payload_lem :
      (mask : Option (List ℕ)) (opcode : ℕ) (stored rest : List ℕ) (w : Client Net)
      → IsOpen w
      → allocated (length stored) ≡ true
      → pending recv c w ≡ stored ++ rest
      → length stored + c.patience w.net < fuel
      → HasReceived opcode
          (elim mask as (λ _. List ℕ) [ none ↦ stored | some m ↦ masked m 0 stored ])
          rest
          (recv_payload recv fuel allocated opcode (length stored) mask w)
  unfolding recv_payload masked
  recv_payload_lem none opcode [] rest w v a e h = (refl, e, v)
  recv_payload_lem (some m) opcode [] rest w v a e h = (refl, e, v)
  recv_payload_lem mask opcode (b ∷ bs) rest w v a e h =
      let (w', got', v', left, p) = reads_next (suc (length bs)) (b ∷ bs) rest w v refl e h in
      let payload = elim mask as (λ _. List ℕ) [ none ↦ b ∷ bs | some m ↦ masked m 0 (b ∷ bs) ] in
      let step : recv_payload recv fuel allocated opcode (suc (length bs)) mask w
          ≡ (some (record { opcode = opcode; payload = payload }), w') =
        ground (arith, a, got') in
      rw step (refl, left, v')

  recv_mask_lem :
      (mask : Option (List ℕ)) (opcode : ℕ) (payload rest : List ℕ) (w : Client Net)
      → IsMask mask
      → IsOpen w
      → allocated (length payload) ≡ true
      → pending recv c w ≡ body mask payload ++ rest
      → 4 + length payload + c.patience w.net < fuel
      → HasReceived opcode payload rest
          (recv_mask recv fuel allocated (has_mask mask) opcode (length payload) w)
  unfolding recv_mask body has_mask reads_next
  recv_mask_lem none opcode payload rest w m v a e h =
      recv_payload_lem none opcode payload rest w v a e (omega arith)
  recv_mask_lem (some mask) opcode payload rest w m v a e h =
      let stored = masked mask 0 payload in
      let same = length-masked mask 0 payload in
      let enough : 4 + c.patience w.net < fuel = omega arith in
      let (w', got', v', left, p) =
        reads_next 4 mask (stored ++ rest) w v m (e ∙ append_assoc mask stored rest) enough in
      let (frame, end', v'') =
        recv_payload_lem (some mask) opcode stored rest w' v' (rw same a) left
          (rw same (omega arith)) in
      rw got' (
        rw same at (
            frame
            ∙ ap (λ l. some (record { opcode = opcode; payload = l }))
                (masked_twice mask 0 payload)),
        rw same at end',
        rw same at v'',
      )

  recv_len_lem :
      (mask : Option (List ℕ)) (opcode : ℕ) (payload rest : List ℕ) (w : Client Net)
      → IsMask mask
      → IsOpen w
      → allocated (length payload) ≡ true
      → length payload < 2 ^ 64
      → pending recv c w
        ≡ drop 1 (size_bytes (mask_bit mask) (length payload)) ++ (body mask payload ++ rest)
      → 12 + length payload + c.patience w.net < fuel
      → HasReceived opcode payload rest
          (recv_len recv fuel allocated (has_mask mask) opcode (short_len (length payload)) w)
  unfolding recv_len short_len
  recv_len_lem mask opcode payload rest w m v a small e h =
      let n = length payload in
      let behind = body mask payload ++ rest in
      let enough : 8 + c.patience w.net < fuel = omega arith in
      let enough' : 2 + c.patience w.net < fuel = omega arith in
      elim (Bool-cases (leb n 125)) [
        | inl short ↦
            let step : recv_len recv fuel allocated (has_mask mask) opcode (short_len n) w
                ≡ recv_mask recv fuel allocated (has_mask mask) opcode n w =
              ground (arith, short) in
            let e' : pending recv c w ≡ behind = ground (arith, e, short) in
            rw step (recv_mask_lem mask opcode payload rest w m v a e' (omega arith))
        | inr long ↦ elim (Bool-cases (leb n 0xFFFF)) [
          | inl two ↦
              let ext = n / 256 ∷ (n % 256) ∷ [] in
              let e' : pending recv c w ≡ ext ++ behind = ground (arith, e, long, two) in
              let (w', got', v', left, p) = reads_next 2 ext behind w v refl e' enough' in
              let step : recv_len recv fuel allocated (has_mask mask) opcode (short_len n) w
                  ≡ recv_mask recv fuel allocated (has_mask mask) opcode n w' =
                ground (arith, long, two, got', two_bytes n) in
              rw step (recv_mask_lem mask opcode payload rest w' m v' a left (omega arith))
          | inr eight ↦
              let ext =
                n / 2 ^ 56
                ∷ (n / 2 ^ 48 % 256)
                ∷ (n / 2 ^ 40 % 256)
                ∷ (n / 2 ^ 32 % 256)
                ∷ (n / 2 ^ 24 % 256)
                ∷ (n / 2 ^ 16 % 256)
                ∷ (n / 2 ^ 8 % 256)
                ∷ (n % 256)
                ∷ [] in
              let e' : pending recv c w ≡ ext ++ behind = ground (arith, e, long, eight) in
              let (w', got', v', left, p) = reads_next 8 ext behind w v refl e' enough in
              let step : recv_len recv fuel allocated (has_mask mask) opcode (short_len n) w
                  ≡ recv_mask recv fuel allocated (has_mask mask) opcode n w' =
                ground (arith, long, eight, got', extended_len-bytes n small) in
              rw step (recv_mask_lem mask opcode payload rest w' m v' a left (omega arith))
        ]
      ]

  -- Where a frame is the next thing to come, on a connection that does not break, receiving it gives its
  -- opcode and its payload, unmasked, and leaves what follows the frame, in the prebuffer or on the
  -- network. There is memory for the payload; turns enough are the bytes of the payload, twelve
  -- more, and the interruptions to come.
  pub recv_frame-wire :
      (mask : Option (List ℕ)) (opcode : ℕ) (payload rest : List ℕ) (w : Client Net)
      → IsMask mask
      → IsOpen w
      → opcode < 16
      → allocated (length payload) ≡ true
      → length payload < 2 ^ 64
      → pending recv c w ≡ wire mask opcode payload ++ rest
      → 12 + length payload + c.patience w.net < fuel
      → HasReceived opcode payload rest (recv_frame recv fuel allocated w)
  unfolding recv_frame reads_next
  recv_frame-wire mask opcode payload rest w m v op a small e h =
      let n = length payload in
      let second = mask_bit mask + short_len n in
      let header = (128 + opcode) ∷ second ∷ [] in
      let ext = drop 1 (size_bytes (mask_bit mask) n) in
      let enough : 2 + c.patience w.net < fuel = omega arith in
      let (byte, bit, len) = second_byte mask n in
      let code : bit_and (128 + opcode) 0x0F ≡ opcode =
        omega (arith, and_0f (128 + opcode) (omega arith)) in
      let e' : pending recv c w ≡ header ++ (ext ++ (body mask payload ++ rest)) =
        e ∙ wire_front mask opcode payload rest in
      let (w', got', v', left, p) =
        reads_next 2 header (ext ++ (body mask payload ++ rest)) w v refl e' enough in
      let step : recv_frame recv fuel allocated w
          ≡ recv_len recv fuel allocated (has_mask mask) opcode (short_len n) w' =
        rw (got', code, bit, len) refl in
      rw step (recv_len_lem mask opcode payload rest w' m v' a small left (omega arith))
