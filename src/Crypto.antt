-- ===== src/Crypto.antt =====
-- wsh264/src/crypto_stream.c: the encrypted stream packet. `chacha20_xor` belongs to the submodule
-- 3rd_party/chacha and is a parameter; what is asked of it stands in Crypto/Cipher.antt.
--
-- A null pointer is `none`; for an output buffer `some n` is its size `n`. An `int` result is its
-- 32-bit pattern, so that -1 is 2 ^ 32 - 1 and a caller's test `rc < 0` is `IsNegative`.
pub mod Cipher
pub mod Packet
pub mod Nonce
use carplay_poc.Base.{
  ℕ, zero, suc, ◌+◌, ◌-◌, ◌^◌, ◌%◌, ◌≤◌, Bool, ◌||◌, not, Option, none, some, List, [], ◌∷◌, ◌++◌,
  ◌==◌, ltb, leb, if◌then◌else◌, byte_at, length, take, drop, tabulate, u32, bit_and, write_be32,
  read_be32, write_le32, read_le32,
}

abbrev pub magic0 : ℕ
magic0 = b'C'

abbrev pub magic1 : ℕ
magic1 = b'H'

abbrev pub crypto_version : ℕ
crypto_version = 1

abbrev pub header_size : ℕ
header_size = 8

abbrev pub nonce_size : ℕ
nonce_size = 12

abbrev pub key_size : ℕ
key_size = 32

-- -1 as an `int`
abbrev pub minus_one : ℕ
minus_one = 2 ^ 32 - 1

-- the test `rc < 0` on an `int`
abbrev pub is_negative : ℕ → Bool
is_negative rc = leb (2 ^ 31) rc

-- a cast of a `size_t` to `int`
abbrev pub int_of_size : ℕ → ℕ
int_of_size n = n % 2 ^ 32

-- `g_crypto_stream_key` and `crypto_stream_default_key`
abbrev pub default_key : List ℕ
default_key =
    b'C' ∷ b'a' ∷ b'r' ∷ b'p' ∷ b'l' ∷ b'a' ∷ b'y' ∷ b'P' ∷ b'o' ∷ b'C' ∷ b'C' ∷ b'h' ∷ b'a' ∷ b'C'
    ∷ b'h' ∷ b'a' ∷ b'S' ∷ b't' ∷ b'r' ∷ b'e' ∷ b'a' ∷ b'm' ∷ b'K' ∷ b'e' ∷ b'y' ∷ b'-' ∷ b'v'
    ∷ b'1' ∷ b'!' ∷ b'!' ∷ b'!' ∷ b'!' ∷ []

-- `crypto_stream_fill_random` on a buffer of `len` bytes: `urandom` is what `fread` got from
-- /dev/urandom (`none` if it did not open), `rand i` the i-th value of `rand()`.
unfoldable pub fill_random : Option (List ℕ) → (ℕ → ℕ) → ℕ → List ℕ
fill_random none rand len = tabulate len (λ i. bit_and (rand i) 0xFF)
fill_random (some got) rand len =
    if length got == len then got else tabulate len (λ i. bit_and (rand i) 0xFF)

-- `crypto_stream_packet_nonce`: the last word of the session nonce plus the sequence number.
unfoldable pub packet_nonce : List ℕ → ℕ → List ℕ
unfolding read_le32 write_le32
packet_nonce session_nonce seq_no =
    take 8 session_nonce ++ write_le32 (u32 (read_le32 session_nonce 8 + seq_no))

-- `crypto_stream_packet_size`
abbrev pub packet_size : ℕ → ℕ
packet_size plaintext_len = (header_size + plaintext_len) % 2 ^ 64

-- What `crypto_stream_decrypt_packet` stores through its output pointers.
pub record Opened : Type 0 where
  pub stream_id : ℕ
  pub seq_no : ℕ
  pub plaintext : List ℕ

module _ (chacha20_xor : List ℕ → List ℕ → ℕ → List ℕ → List ℕ) where
  -- `crypto_stream_encrypt_packet`: the result, and the packet stored on success.
  unfoldable pub encrypt_packet :
      Option ℕ → ℕ → ℕ → Option (List ℕ) → Option (List ℕ) → ℕ × Option (List ℕ)
  unfolding write_be32
  encrypt_packet none stream_id seq_no session_nonce plaintext = (minus_one, none)
  encrypt_packet (some room) stream_id seq_no none plaintext = (minus_one, none)
  encrypt_packet (some room) stream_id seq_no (some nonce) none = (minus_one, none)
  encrypt_packet (some room) stream_id seq_no (some nonce) (some plain) =
      if ltb room (packet_size (length plain)) then (minus_one, none) else (
        int_of_size (packet_size (length plain)),
        some (
            (magic0 ∷ magic1 ∷ crypto_version ∷ stream_id ∷ [])
            ++ write_be32 seq_no
            ++ chacha20_xor default_key (packet_nonce nonce seq_no) 1 plain),
      )

  -- `crypto_stream_decrypt_packet`: the result, and what is stored on success.
  unfoldable pub decrypt_packet : Option ℕ → Option (List ℕ) → Option (List ℕ) → ℕ × Option Opened
  unfolding read_be32
  decrypt_packet none session_nonce packet = (minus_one, none)
  decrypt_packet (some room) none packet = (minus_one, none)
  decrypt_packet (some room) (some nonce) none = (minus_one, none)
  decrypt_packet (some room) (some nonce) (some p) =
      if ltb (length p) header_size
      then (minus_one, none)
      else if not (byte_at p 0 == magic0) || not (byte_at p 1 == magic1)
      then (minus_one, none)
      else if not (byte_at p 2 == crypto_version)
      then (minus_one, none)
      else if ltb room (length p - header_size)
      then (minus_one, none)
      else (
        int_of_size (length p - header_size),
        some (record {
          stream_id = byte_at p 3;
          seq_no = read_be32 p 4;
          plaintext =
              chacha20_xor default_key (packet_nonce nonce (read_be32 p 4)) 1 (drop header_size p);
        }),
      )
