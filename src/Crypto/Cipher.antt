-- ===== src/Crypto/Cipher.antt =====
-- What crypto_stream.c relies on in `chacha20_xor (key, nonce, counter, data)`: a stream cipher,
-- which xors the data with a keystream.
use carplay_poc.Base.{ℕ, ◌≡◌, List, length, IsBytes}

pub record IsStreamCipher (xor : List ℕ → List ℕ → ℕ → List ℕ → List ℕ) : Type 0 where
  pub same_length :
      (key nonce : List ℕ) (counter : ℕ) (bs : List ℕ)
      → length (xor key nonce counter bs) ≡ length bs
  pub undoes :
      (key nonce : List ℕ) (counter : ℕ) (bs : List ℕ)
      → IsBytes bs
      → xor key nonce counter (xor key nonce counter bs) ≡ bs
