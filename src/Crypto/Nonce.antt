-- ===== src/Crypto/Nonce.antt =====
-- wsh264/src/crypto_stream.c: the nonces of the packets of one session.
use carplay_poc.Base.{
  ℕ, ◌+◌, ◌^◌, ◌<◌, ◌≡◌, ◌≢◌, ap, List, ◌++◌, arith, length, drop, take, u32, read_le32, write_le32,
  write_le32_injective, drop-append, length-take,
}
use carplay_poc.Crypto.{packet_nonce}

packet_nonce_injective :
    (n : List ℕ) (i j : ℕ)
    → length n ≡ 12
    → i < 2 ^ 32
    → j < 2 ^ 32
    → packet_nonce n i ≡ packet_nonce n j
    → i ≡ j
unfolding packet_nonce
packet_nonce_injective n i j len hi hj e =
    let same_tail =
      write_le32_injective (u32 (read_le32 n 8 + i)) (u32 (read_le32 n 8 + j)) (omega arith)
        (omega arith) (rw (tail i, tail j) at (ap (drop 8) e)) in
    omega arith
  where
    tail :
        (k : ℕ)
        → drop 8 (take 8 n ++ write_le32 (u32 (read_le32 n 8 + k)))
          ≡ write_le32 (u32 (read_le32 n 8 + k))
    tail k = drop-append 8 (take 8 n) _ (omega (arith, length-take 8 n))

-- Within one session two packets with different 32-bit sequence numbers never share a nonce, even
-- where the sum with the session nonce wraps.
pub packet_nonces_differ :
    (n : List ℕ) (i j : ℕ)
    → length n ≡ 12
    → i < 2 ^ 32
    → j < 2 ^ 32
    → i ≢ j
    → packet_nonce n i ≢ packet_nonce n j
packet_nonces_differ n i j len hi hj differ e = differ (packet_nonce_injective n i j len hi hj e)
