-- ===== src/Playback/Sound.antt =====
-- gateway_client/gateway_client.cpp: no sound is lost, repeated or played out of order, but for what is dropped
-- where the buffer is full.
use carplay_poc.Base.{
  ◌≡◌, ◌++◌, ◌^◌, ◌<◌, inr, ℕ, inl, ◌≤◌, refl, ◌+◌, ◌∷◌, List, ◌⊎◌, [], arith, ltb, Bool-cases,
  length, sub64, add64, ap, ◌∙◌,
}
use carplay_poc.Playback.Audio.{Player, count_drop, make_room, enqueue_audio_packet}

abbrev pub total : List (List ℕ) → ℕ
total [] = 0
total (p ∷ ps) = length p + total ps

-- `queued_bytes` is what the queue holds, and that is within the limit.
pub record IsCounted (p : Player) : Type 0 where
  pub counted : p.queued_bytes ≡ total p.queue
  pub bounded : total p.queue ≤ p.max_buffer_bytes
  pub small : p.max_buffer_bytes < 2 ^ 63

pub total-append : (ps qs : List (List ℕ)) → total (ps ++ qs) ≡ total ps + total qs
total-append [] qs = omega arith
total-append (p ∷ ps) qs = omega (arith, total-append ps qs)

-- `gone` is dropped before `kept` for a packet of `size` bytes: no more of it than it takes.
abbrev pub IsNeeded : ℕ → ℕ → List (List ℕ) → List (List ℕ) → Type 0
IsNeeded size limit gone kept =
    (gone ≡ [])
    ⊎ ((front : List (List ℕ)) × (newest : List ℕ) × (gone ≡ front ++ newest ∷ [])
        × (limit < length newest + total kept + size))

pub make_room_lem :
    (size : ℕ) (queue : List (List ℕ)) (p : Player)
    → p.queued_bytes ≡ total queue
    → total queue ≤ p.max_buffer_bytes
    → p.max_buffer_bytes < 2 ^ 63
    → size < 2 ^ 63
    → let p' = make_room size queue p in
      (gone : List (List ℕ)) × (queue ≡ gone ++ p'.queue)
      × (p'.queued_bytes ≡ total p'.queue)
      × (p'.max_buffer_bytes ≡ p.max_buffer_bytes)
      × ((p'.queue ≡ []) ⊎ (total p'.queue + size ≤ p.max_buffer_bytes))
      × IsNeeded size p.max_buffer_bytes gone p'.queue
unfolding make_room count_drop
make_room_lem size [] p e b small h = ([], refl, e, refl, inl refl, inl refl)
make_room_lem size (q ∷ queue) p e b small h =
    let p₁ = count_drop (record p { queued_bytes = sub64 p.queued_bytes (length q) }) in
    elim (Bool-cases (ltb p.max_buffer_bytes (add64 p.queued_bytes size))) [
      | inl y ↦
          let (gone, split, count, limit, room, need) =
            make_room_lem size queue p₁ (omega (arith, e)) (omega arith) small h in
          rw y (
            q ∷ gone,
            ap (λ l. q ∷ l) split,
            count,
            limit,
            room,
            elim need [
              | inl none_gone ↦
                  inr ([], q, ap (λ l. q ∷ l) none_gone, ground (arith, y, e, split, none_gone))
              | inr (front, newest, is, more) ↦ inr (q ∷ front, newest, ap (λ l. q ∷ l) is, more)
            ],
          )
      | inr k ↦ rw k ([], refl, e, refl, inr (ground (arith, k, e)), inl refl)
    ]

-- A packet of sound goes to the end of the queue, where it fits the buffer at all, and the oldest packets are
-- dropped for it, no more of them than it takes; one that does not fit is dropped and empties the queue.
-- The byte count stays right and within the limit. The limit and the packet are below 2^63 bytes.
pub enqueue_audio_lem :
    (p : Player) (payload : List ℕ)
    → IsCounted p
    → length payload < 2 ^ 63
    → let p' = enqueue_audio_packet p payload in
      IsCounted p'
      × (((p.max_buffer_bytes < length payload) × (p'.queue ≡ []))
          ⊎ ((gone : List (List ℕ)) × (kept : List (List ℕ)) × (p.queue ≡ gone ++ kept)
              × (p'.queue ≡ kept ++ payload ∷ [])
              × IsNeeded (length payload) p.max_buffer_bytes gone kept))
unfolding enqueue_audio_packet count_drop
enqueue_audio_lem p payload v h =
    let m = make_room (length payload) p.queue p in
    let (gone, split, count, limit, room, need) =
      make_room_lem (length payload) p.queue p v.counted v.bounded v.small h in
    let sum = total-append gone m.queue in
    let split_sum : total p.queue ≡ total gone + total m.queue = ap total split ∙ sum in
    let more = total-append m.queue (payload ∷ []) in
    elim (Bool-cases (ltb m.max_buffer_bytes (length payload))) [
      | inl y ↦
          let empty : m.queue ≡ [] = ground (arith, y, room, limit) in
          rw y (
            record {
              counted = count;
              bounded = omega (arith, v.bounded, split_sum, limit);
              small = omega (arith, limit, v.small);
            },
            inl (ground (arith, y, limit), empty),
          )
      | inr k ↦
          let fits : total m.queue + length payload ≤ p.max_buffer_bytes =
            ground (arith, k, room, limit) in
          rw k (
            record {
              counted = omega (arith, count, more, fits, v.small);
              bounded = omega (arith, fits, more, limit);
              small = omega (arith, limit, v.small);
            },
            inr (gone, m.queue, split, refl, need),
          )
    ]
