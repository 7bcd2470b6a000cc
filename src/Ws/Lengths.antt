-- ===== src/Ws/Lengths.antt =====
-- gateway/ws_upstream_client.c: the mask and the length of a frame, as it has them and as they are read.
use carplay_poc.Base.{
  Option, arith, bit_and, false, ap, List, Bool, not, bit_or, ◌∙◌, ◌%◌, ℕ, ◌++◌, some, true, ◌<◌,
  ◌+◌, suc, ◌/◌, ◌∷◌, ◌≡◌, none, [], ◌^◌, refl, ap₂, leb, ◌==◌, if◌then◌else◌, bit_or_fields,
  bit_xor_twice, and_7f, and_80, length, get_or, drop, ◌<<<◌, append_assoc,
}
use carplay_poc.Ws.{masked, extended_len}
use carplay_poc.Ws.Wire.{size_bytes, wire}

pub masked_twice : (mask : List ℕ) (i : ℕ) (bs : List ℕ) → masked mask i (masked mask i bs) ≡ bs
unfolding masked
masked_twice mask i [] = refl
masked_twice mask i (b ∷ bs) =
    ap₂ ◌∷◌ (bit_xor_twice b (get_or mask (i % 4) 0)) (masked_twice mask (i + 1) bs)

pub length-masked : (mask : List ℕ) (i : ℕ) (bs : List ℕ) → length (masked mask i bs) ≡ length bs
unfolding masked
length-masked mask i [] = refl
length-masked mask i (b ∷ bs) = ap suc (length-masked mask (i + 1) bs)

-- One byte of a long length.
extended_len_turn :
    (len b x : ℕ) (bs : List ℕ)
    → len ≡ x / 256
    → b ≡ x % 256
    → x < 2 ^ 64
    → extended_len len (b ∷ bs) ≡ extended_len x bs
unfolding extended_len
extended_len_turn len b x bs e e' h =
    ap (λ n. extended_len n bs)
      (omega (arith, bit_or_fields 8 len b {a = (len <<< 8) % 2 ^ 64} (omega arith) (omega arith)))

pub extended_len-bytes :
    (n : ℕ)
    → n < 2 ^ 64
    → extended_len 0 (
        n / 2 ^ 56
        ∷ (n / 2 ^ 48 % 256)
        ∷ (n / 2 ^ 40 % 256)
        ∷ (n / 2 ^ 32 % 256)
        ∷ (n / 2 ^ 24 % 256)
        ∷ (n / 2 ^ 16 % 256)
        ∷ (n / 2 ^ 8 % 256)
        ∷ (n % 256)
        ∷ [])
      ≡ n
extended_len-bytes n h =
    extended_len_turn 0 (n / 2 ^ 56) (n / 2 ^ 56) _ (omega arith) (omega arith) (omega arith)
    ∙ extended_len_turn (n / 2 ^ 56) _ (n / 2 ^ 48) _ (omega arith) refl (omega arith)
    ∙ extended_len_turn (n / 2 ^ 48) _ (n / 2 ^ 40) _ (omega arith) refl (omega arith)
    ∙ extended_len_turn (n / 2 ^ 40) _ (n / 2 ^ 32) _ (omega arith) refl (omega arith)
    ∙ extended_len_turn (n / 2 ^ 32) _ (n / 2 ^ 24) _ (omega arith) refl (omega arith)
    ∙ extended_len_turn (n / 2 ^ 24) _ (n / 2 ^ 16) _ (omega arith) refl (omega arith)
    ∙ extended_len_turn (n / 2 ^ 16) _ (n / 2 ^ 8) _ (omega arith) refl (omega arith)
    ∙ extended_len_turn (n / 2 ^ 8) _ n _ (omega arith) refl h
    ∙ (unfold extended_len in refl)

pub two_bytes : (n : ℕ) → bit_or ((n / 256) <<< 8) (n % 256) ≡ n
two_bytes n =
    omega
      (arith, bit_or_fields 8 (n / 256) (n % 256) {a = (n / 256) <<< 8} (omega arith) (omega arith))

-- A mask has four bytes.
abbrev pub IsMask : Option (List ℕ) → Type 0
IsMask none = Unit
IsMask (some mask) = length mask ≡ 4

-- the mask and the payload of a frame, as they stand on the wire
unfoldable pub body : Option (List ℕ) → List ℕ → List ℕ
body none payload = payload
body (some mask) payload = mask ++ masked mask 0 payload

unfoldable pub mask_bit : Option (List ℕ) → ℕ
mask_bit none = 0
mask_bit (some mask) = 128

unfoldable pub has_mask : Option (List ℕ) → Bool
has_mask none = false
has_mask (some mask) = true

-- the length in the second byte, and the bytes that follow it
unfoldable pub short_len : ℕ → ℕ
short_len n = if leb n 125 then n else if leb n 0xFFFF then 126 else 127

pub second_byte :
    (mask : Option (List ℕ)) (n : ℕ)
    → let b = mask_bit mask + short_len n in
      (b < 256) × (not (bit_and b 0x80 == 0) ≡ has_mask mask) × (bit_and b 0x7F ≡ short_len n)
unfolding mask_bit has_mask short_len
second_byte none n = ground (arith, and_80 (short_len n), and_7f (short_len n))
second_byte (some mask) n = ground (arith, and_80 (128 + short_len n), and_7f (128 + short_len n))

wire_parts :
    (mask : Option (List ℕ)) (opcode : ℕ) (payload : List ℕ)
    → wire mask opcode payload
      ≡ (128 + opcode)
        ∷ (mask_bit mask + short_len (length payload))
        ∷ (drop 1 (size_bytes (mask_bit mask) (length payload)) ++ body mask payload)
unfolding wire mask_bit short_len body
wire_parts none opcode payload = ground arith
wire_parts (some mask) opcode payload = ground arith

-- A frame's two first bytes, then the rest of it.
pub wire_front :
    (mask : Option (List ℕ)) (opcode : ℕ) (payload rest : List ℕ)
    → let n = length payload in
      wire mask opcode payload ++ rest
      ≡ ((128 + opcode) ∷ (mask_bit mask + short_len n) ∷ [])
        ++ (drop 1 (size_bytes (mask_bit mask) n) ++ (body mask payload ++ rest))
wire_front mask opcode payload rest =
    let n = length payload in
    let ext = drop 1 (size_bytes (mask_bit mask) n) in
    ap (λ l. l ++ rest) (wire_parts mask opcode payload)
    ∙ ap (λ l. (128 + opcode) ∷ (mask_bit mask + short_len n) ∷ l)
        (append_assoc ext (body mask payload) rest)
