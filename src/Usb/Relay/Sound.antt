-- ===== src/Usb/Relay/Sound.antt =====
-- ameba_gateway/example_gateway_ameba.c: relaying media keeps the invariant of the stream.
use carplay_poc.Base.{
  inr, [], inl, Bool-cases, false, ℕ, ◌^◌, ◌<◌, ◌≡◌, refl, ap, arith, Bool, not, Option, none, some,
  List, length, take, length-take, Status, ok, failed, if_both, ◌==◌, if◌then◌else◌,
}
use carplay_poc.Proto.{write_media_header}
use carplay_poc.Crypto.{packet_size, is_negative, encrypt_packet}
use carplay_poc.Usb.Ring.{Tx, Source, null, bytes}
use carplay_poc.Usb.Ring.Refine.{enqueue_packet-null}
use carplay_poc.Usb.State.{Usb}
use carplay_poc.Usb.Stream.{enqueue_init_packet, kick_tx}
use carplay_poc.Usb.Stream.Sound.{IsSound, kick_tx-IsSound}
use carplay_poc.Usb.Host.Sound.{same-IsSound, enqueue_packet_parts, enqueue_init_packet-IsSound}
use carplay_poc.Usb.Relay.{
  usb_crypto_nonce, encrypt_payload, enqueue_encrypted, enqueue_media_packet, relay_media,
}

-- A sealed payload is absent, empty, or below 2 GiB.
IsSmall : Option Source → Type 0
IsSmall none = Unit
IsSmall (some (null n)) = n ≡ 0
IsSmall (some (bytes xs)) = length xs < 2 ^ 31

taken-IsSmall :
    (rc : ℕ) (stored : Option (List ℕ))
    → is_negative rc ≡ false
    → IsSmall (elim stored as (λ _. Option Source) [
      | none ↦ none
      | some packet ↦ some (bytes (take rc packet))
    ])
unfolding IsSmall
taken-IsSmall rc none h = tt
taken-IsSmall rc (some packet) h = ground (arith, length-take rc packet)

module _ (xor : List ℕ → List ℕ → ℕ → List ℕ → List ℕ) where
  encrypt_payload-IsSmall :
      (allocated : Bool) (stream_id seq_no : ℕ) (payload : List ℕ)
      → IsSmall (encrypt_payload xor allocated stream_id seq_no payload)
  unfolding encrypt_payload IsSmall
  encrypt_payload-IsSmall allocated stream_id seq_no payload =
      let (rc, stored) =
        encrypt_packet xor (some (packet_size (length payload))) stream_id seq_no
          (some usb_crypto_nonce) (some payload) in
      let sent = elim stored as (λ _. Option Source) [
        | none ↦ none
        | some packet ↦ some (bytes (take rc packet))
      ] in
      if_both IsSmall (length payload == 0) (some (null 0)) _ refl (
        if_both IsSmall (not allocated) none (if is_negative rc then none else sent) tt
          (elim (Bool-cases (is_negative rc)) [
            | inl yes' ↦ rw yes' tt
            | inr no' ↦ rw no' (taken-IsSmall rc stored no')
          ]))

encrypted-IsSound :
    (stream_id seq_no : ℕ) (payload : List ℕ) (s : Usb) (encrypted : Option Source)
    → IsSound s
    → IsSmall encrypted
    → IsSound (record s { tx = (enqueue_encrypted stream_id seq_no payload s.tx encrypted).1 })
unfolding enqueue_encrypted write_media_header IsSmall
encrypted-IsSound stream_id seq_no payload s none v small = same-IsSound s _ v refl refl refl refl
encrypted-IsSound stream_id seq_no payload s (some (null n)) v small = rw small (
    enqueue_packet_parts s _ [] _ v (omega arith)
      (ap (λ (p : Status × Tx). p.1) (enqueue_packet-null s.tx _)))
encrypted-IsSound stream_id seq_no payload s (some (bytes xs)) v small =
    enqueue_packet_parts s _ xs _ v (omega arith) refl

module _ (xor : List ℕ → List ℕ → ℕ → List ℕ → List ℕ) where
  -- Relaying a payload, whichever call on the way fails, keeps the invariant.
  pub relay_media-IsSound :
      (allocated : Bool) (kick_rc stream_id seq_no : ℕ) (payload : List ℕ) (s : Usb)
      → IsSound s
      → IsSound (relay_media xor allocated kick_rc stream_id seq_no payload s)
  unfolding relay_media enqueue_media_packet
  relay_media-IsSound allocated kick_rc stream_id seq_no payload s v =
      let (rc, s') = enqueue_init_packet s in
      let v' = enqueue_init_packet-IsSound s v in
      let (rc', t) = enqueue_media_packet xor allocated stream_id seq_no payload s'.tx in
      let w =
        encrypted-IsSound stream_id seq_no payload s'
          (encrypt_payload xor allocated stream_id seq_no payload) v'
          (encrypt_payload-IsSmall xor allocated stream_id seq_no payload) in
      if_both IsSound _ s _ v (branch rc rc' s' t v' w)
    where
      branch :
          (rc rc' : Status) (s' : Usb) (t : Tx)
          → IsSound s'
          → IsSound (record s' { tx = t })
          → IsSound (elim rc as (λ _. Usb) [
            | failed ↦ s'
            | ok ↦ elim rc' [
              | failed ↦ record s' { tx = t }
              | ok ↦ (kick_tx kick_rc (record s' { tx = t })).1
            ]
          ])
      branch failed rc' s' t v' w = v'
      branch ok failed s' t v' w = w
      branch ok ok s' t v' w = (kick_tx-IsSound kick_rc (record s' { tx = t }) w).0
