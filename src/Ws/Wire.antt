-- ===== src/Ws/Wire.antt =====
-- The frames of a WebSocket as they stand on the wire (RFC 6455, 5.2): final frames, with or without a
-- mask.
use carplay_poc.Base.{
  ℕ, ◌+◌, ◌/◌, ◌%◌, ◌^◌, Option, none, some, List, [], ◌∷◌, ◌++◌, leb, if◌then◌else◌, length,
}
use carplay_poc.Ws.{masked}

-- The byte of the mask bit and the short length, and the long length in 2 or 8 bytes, the highest
-- first.
abbrev pub size_bytes : ℕ → ℕ → List ℕ
size_bytes mask_bit len =
    if leb len 125
    then (mask_bit + len) ∷ []
    else if leb len 0xFFFF
    then (mask_bit + 126) ∷ (len / 256) ∷ (len % 256) ∷ []
    else (mask_bit + 127)
      ∷ (len / 2 ^ 56)
      ∷ (len / 2 ^ 48 % 256)
      ∷ (len / 2 ^ 40 % 256)
      ∷ (len / 2 ^ 32 % 256)
      ∷ (len / 2 ^ 24 % 256)
      ∷ (len / 2 ^ 16 % 256)
      ∷ (len / 2 ^ 8 % 256)
      ∷ (len % 256)
      ∷ []

unfoldable pub wire : Option (List ℕ) → ℕ → List ℕ → List ℕ
wire none opcode payload = (128 + opcode) ∷ (size_bytes 0 (length payload) ++ payload)
wire (some mask) opcode payload =
    (128 + opcode) ∷ (size_bytes 128 (length payload) ++ (mask ++ masked mask 0 payload))
