-- ===== src/Streamer/Fifo.antt =====
-- wsh264/app/char_queue.cpp: the ring is a queue of at most 65534 bytes.
use carplay_poc.Base.{
  ◌%◌, ℕ, ◌-◌, arith, false, ◌∷◌, ◌++◌, List, ◌<◌, ◌≡◌, [], ◌+◌, tabulate, ap, suc, ap₂, ◌∙◌,
  tabulate_ext, tabulate-add,
}
use carplay_poc.Streamer.Chars.{
  queue_size, CharQueue, char_queue_push, char_queue_pop, char_queue_empty, char_queue_full,
}

pub record IsRing (q : CharQueue) : Type 0 where
  pub head_in : q.head < queue_size
  pub tail_in : q.tail < queue_size

abbrev pub held : CharQueue → ℕ
held q = (q.tail + queue_size - q.head) % queue_size

-- the bytes in the ring, the oldest first
abbrev pub chars : CharQueue → List ℕ
chars q = tabulate (held q) (λ i. q.buffer ((q.head + i) % queue_size))

-- A byte put into a ring that is not full goes behind the others.
pub push_lem :
    (c : ℕ) (q : CharQueue)
    → IsRing q
    → char_queue_full q ≡ false
    → let q' = char_queue_push c q in IsRing q' × (chars q' ≡ chars q ++ c ∷ [])
unfolding char_queue_push char_queue_full
push_lem c q v room =
    let q' = char_queue_push c q in
    let more : held q' ≡ held q + 1 = ground (arith, v, room) in
    let n = held q in
    let f' : ℕ → ℕ = λ i. q'.buffer ((q.head + i) % queue_size) in
    let f : ℕ → ℕ = λ i. q.buffer ((q.head + i) % queue_size) in
    let last : f' (n + 0) ≡ c = ground (arith, v, room) in
    (
      record { head_in = v.head_in; tail_in = omega arith },
      ap (λ k. tabulate k f') more
          ∙ tabulate-add n 1 f'
          ∙ ap₂ ◌++◌ (tabulate_ext n f' f (λ i p. ground (arith, v, p))) (ap (λ x. x ∷ []) last),
    )

-- A byte taken out of a ring that is not empty is the oldest.
pub pop_lem :
    (q : CharQueue)
    → IsRing q
    → char_queue_empty q ≡ false
    → let (c, q') = char_queue_pop q in IsRing q' × (chars q ≡ c ∷ chars q')
unfolding char_queue_pop char_queue_empty
pop_lem q v some_in =
    let q' = (char_queue_pop q).1 in
    let n = held q' in
    let f : ℕ → ℕ = λ i. q.buffer ((q.head + i) % queue_size) in
    let one : held q ≡ suc n = ground (arith, v, some_in) in
    let first : (q.head + 0) % queue_size ≡ q.head = omega (arith, v.head_in) in
    (
      record { head_in = omega arith; tail_in = v.tail_in },
      ap (λ k. tabulate k f) one
          ∙ ap₂ ◌∷◌ (ap q.buffer first) (
              tabulate_ext n (λ i. f (suc i)) (λ i. q'.buffer ((q'.head + i) % queue_size))
                (λ i p. ap q.buffer (omega arith))),
    )
