-- ===== src/Ws/Send.antt =====
-- gateway/ws_upstream_client.c: frames sent.
use carplay_poc.Base.{
  bit_and, ℕ, suc, ◌+◌, ◌^◌, ◌≤◌, ◌<◌, ◌≡◌, inl, inr, refl, sym, ap, ◌∙◌, arith, Bool, true, Option,
  none, some, List, [], ◌∷◌, ◌++◌, length, take_all, ◌==◌, append_assoc, append-nil, Bool-cases,
  or_80, u8, ok, length-tabulate,
}
use carplay_poc.Crypto.{fill_random}
use carplay_poc.Net.{Sent, write_all}
use carplay_poc.Net.Connection.{IsSending}
use carplay_poc.Net.Writes.{write_all_sends}
use carplay_poc.Ws.{masked, masked_header, write_ok, send_masked_frame}
use carplay_poc.Ws.Wire.{size_bytes, wire}

-- The header that is built is the frame's up to its payload.
masked_header_lem :
    (opcode : ℕ) (mask : List ℕ) (n : ℕ)
    → opcode < 16
    → n < 2 ^ 64
    → masked_header opcode mask n ≡ (128 + opcode) ∷ (size_bytes 128 n ++ mask)
unfolding masked_header
masked_header_lem opcode mask n h small = ground (arith, or_80 opcode (omega arith), or_80 (u8 n))

length-masked_header :
    (opcode : ℕ) (mask : List ℕ) (n : ℕ) → length (masked_header opcode mask n) ≤ 10 + length mask
unfolding masked_header
length-masked_header opcode mask n = ground (arith)

pub length-fill_random :
    (urandom : Option (List ℕ)) (rand : ℕ → ℕ) (len : ℕ)
    → length (fill_random urandom rand len) ≡ len
unfolding fill_random
length-fill_random none rand len = length-tabulate len _
length-fill_random (some bytes) rand len =
    ground (arith, length-tabulate len (λ i. bit_and (rand i) 0xFF))

length-masked : (mask : List ℕ) (i : ℕ) (bs : List ℕ) → length (masked mask i bs) ≡ length bs
unfolding masked
length-masked mask i [] = refl
length-masked mask i (b ∷ bs) = ap suc (length-masked mask (i + 1) bs)

module _ {Net : Type 0} (send : Net → List ℕ → Sent × Net) (c : IsSending send) (fuel : ℕ) where
  write_ok_lem :
      (bs : List ℕ) (net : Net)
      → length bs + c.patience net ≤ fuel
      → (net' : Net) × (write_ok send fuel bs net ≡ (ok, net'))
        × (c.outgoing net' ≡ c.outgoing net ++ bs)
        × (c.patience net' ≤ c.patience net)
  unfolding write_ok
  write_ok_lem bs net h =
      let (done', out, p) = write_all_sends send c fuel bs net h in
      ((write_all send fuel bs net).1, rw done' refl, out, p)

  pub send_masked_frame-wire :
      (allocated : ℕ → Bool) (urandom : Option (List ℕ)) (rand : ℕ → ℕ) (opcode : ℕ)
      (payload : List ℕ) (net : Net)
      → opcode < 16
      → length payload < 2 ^ 64
      → allocated (length payload) ≡ true
      → 14 + length payload + c.patience net ≤ fuel
      → (net' : Net) × (send_masked_frame send fuel allocated urandom rand opcode payload net
          ≡ (ok, net'))
        × (c.outgoing net'
            ≡ c.outgoing net ++ wire (some (fill_random urandom rand 4)) opcode payload)
  unfolding send_masked_frame wire
  send_masked_frame-wire allocated urandom rand opcode payload net op small a h =
      let mask = fill_random urandom rand 4 in
      let header = masked_header opcode mask (length payload) in
      let stored = masked mask 0 payload in
      let whole : header ++ stored ≡ wire (some mask) opcode payload =
        rw (masked_header_lem opcode mask (length payload) op small) (
          ap (λ l. (128 + opcode) ∷ l)
            (append_assoc (size_bytes 128 (length payload)) mask stored)) in
      let enough : length header + c.patience net ≤ fuel = omega (
        arith,
        length-masked_header opcode mask (length payload),
        length-fill_random urandom rand 4,
      ) in
      let (net', sent', out, p) = write_ok_lem header net enough in
      let enough' : length stored + c.patience net' ≤ fuel =
        omega (arith, p, length-masked mask 0 payload) in
      let (net'', sent'', out', p') = write_ok_lem stored net' enough' in
      let all : c.outgoing net'' ≡ c.outgoing net ++ (header ++ stored) =
        out' ∙ ap (λ l. l ++ stored) out ∙ append_assoc (c.outgoing net) header stored in
      elim (Bool-cases (length payload == 0)) [
        | inl empty ↦
            let none' : [] ≡ stored =
              take_all 0 stored (ground (arith, empty, length-masked mask 0 payload)) in
            (
              net',
              ground (arith, sent', empty),
              out
                  ∙ ap (λ l. c.outgoing net ++ l)
                      (sym (append-nil header) ∙ ap (λ l. header ++ l) none' ∙ whole),
            )
        | inr more ↦ (
          net'',
          ground (arith, sent', more, a, sent''),
          all ∙ ap (λ l. c.outgoing net ++ l) whole,
        )
      ]
