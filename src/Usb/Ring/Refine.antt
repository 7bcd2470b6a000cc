-- ===== src/Usb/Ring/Refine.antt =====
-- ameba_gateway/example_gateway_ameba.c: the transmit ring as a bounded queue of bytes.
use carplay_poc.Base.{
  inr, inl, Bool-cases, refl, if◌then◌else◌, leb, ℕ, ◌+◌, ◌-◌, ◌%◌, ◌^◌, ◌≤◌, ◌<◌, ◌≡◌, sym, ap,
  ap₂, ◌∙◌, arith, List, [], ◌∷◌, ◌++◌, length, get_or, take, drop, tabulate, tabulate_ext,
  tabulate-add, tabulate-get_or, length-tabulate, append_assoc, append-nil, length-append,
  take-append, drop-append, take_all, drop_all,
}
use carplay_poc.Usb.Ring.{
  null, tx_reset, Tx, tx_ring_size, bytes, ring_write, enqueue_packet, peek_chunk, consume_chunk,
  write_part, copy_out, tx_free_space,
}
use carplay_poc.Usb.Queue
use carplay_poc.Usb.Ring.Window.{ring_write_lem}

-- The `n` bytes from `tail` on, going round.
abbrev pub window : (ℕ → ℕ) → ℕ → ℕ → List ℕ
window m tail n = tabulate n (λ k. m ((tail + k) % tx_ring_size))

-- The bytes waiting in the ring, oldest first.
unfoldable pub contents : Tx → List ℕ
contents t = window t.ring t.tail t.count

-- What holds of the ring between two operations.
pub record IsValid (t : Tx) : Type 0 where
  pub count_fits : t.count ≤ tx_ring_size
  pub tail_in : t.tail < tx_ring_size
  pub head_at : t.head ≡ (t.tail + t.count) % tx_ring_size

-- Writing behind a window extends it by the bytes written.
window-ring_write :
    (m : ℕ → ℕ) (tail n : ℕ) (xs : List ℕ)
    → tail < tx_ring_size
    → n + length xs ≤ tx_ring_size
    → window (ring_write m ((tail + n) % tx_ring_size) (bytes xs)) tail (n + length xs)
      ≡ window m tail n ++ xs
window-ring_write m tail n xs ht hn =
    let m' = ring_write m ((tail + n) % tx_ring_size) (bytes xs) in
    tabulate-add n (length xs) (λ k. m' ((tail + k) % tx_ring_size))
    ∙ ap₂ ◌++◌
        (tabulate_ext n _ (λ k. m ((tail + k) % tx_ring_size))
          (λ k p.
            ground
              (arith, ring_write_lem m ((tail + n) % tx_ring_size) xs ((tail + k) % tx_ring_size))))
        (tabulate_ext (length xs) _ (λ k. get_or xs k 0)
            (λ k p. ground (
              arith,
              ring_write_lem m ((tail + n) % tx_ring_size) xs ((tail + (n + k)) % tx_ring_size),
            ))
          ∙ tabulate-get_or xs 0)

pub length-contents : (t : Tx) → length (contents t) ≡ t.count
unfolding contents
length-contents t = length-tabulate t.count _

-- One guarded write, behind a window of `n` bytes.
write_part_lem :
    (m : ℕ → ℕ) (tail n pos : ℕ) (xs : List ℕ)
    → pos ≡ (tail + n) % tx_ring_size
    → tail < tx_ring_size
    → n + length xs ≤ tx_ring_size
    → let (m', h) = write_part m pos (bytes xs) in
      (window m' tail (n + length xs) ≡ window m tail n ++ xs)
      × (h ≡ (tail + (n + length xs)) % tx_ring_size)
unfolding write_part
write_part_lem m tail n pos [] e ht hn =
    (ap (window m tail) (omega arith) ∙ sym (append-nil (window m tail n)), omega arith)
write_part_lem m tail n pos (x ∷ xs) e ht hn =
    (ground (arith, window-ring_write m tail n (x ∷ xs)), ground arith)

-- Both writes of a packet.
write_parts :
    (m : ℕ → ℕ) (tail n pos : ℕ) (xs ys : List ℕ)
    → pos ≡ (tail + n) % tx_ring_size
    → tail < tx_ring_size
    → n + (length xs + length ys) ≤ tx_ring_size
    → let (m', h) = write_part m pos (bytes xs) in
      let (m'', h') = write_part m' h (bytes ys) in
      (window m'' tail (n + (length xs + length ys)) ≡ window m tail n ++ (xs ++ ys))
      × (h' ≡ (tail + (n + (length xs + length ys))) % tx_ring_size)
write_parts m tail n pos xs ys e ht hn =
    let (m', h) = write_part m pos (bytes xs) in
    let one = write_part_lem m tail n pos xs e ht (omega arith) in
    let two = write_part_lem m' tail (n + length xs) h ys one.1 ht (omega arith) in
    let sum : n + length xs + length ys ≡ n + (length xs + length ys) = omega arith in
    (rw (← sum, two.0, one.0) (append_assoc (window m tail n) xs ys), rw (← sum) (two.1))

-- The ring takes a packet, given as two parts, exactly as the queue of its capacity does, and keeps
-- its invariant. The parts together are below 4 GiB.
pub enqueue_packet_refines :
    (t : Tx) (prefix payload : List ℕ)
    → IsValid t
    → length prefix + length payload < 2 ^ 32
    → let (s, t') = enqueue_packet t (bytes prefix) (bytes payload) in
      ((s, contents t') ≡ Queue.push tx_ring_size (contents t) (prefix ++ payload)) × IsValid t'
unfolding enqueue_packet contents Queue.push tx_free_space
enqueue_packet_refines t prefix payload v h = ground (
  arith,
  length-contents t,
  length-append prefix payload,
  append-nil (contents t),
  write_parts t.ring t.tail t.count t.head prefix payload v.head_at v.tail_in,
)

window_split :
    (m : ℕ → ℕ) (tail k r : ℕ)
    → window m tail (k + r) ≡ window m tail k ++ window m ((tail + k) % tx_ring_size) r
window_split m tail k r =
    tabulate-add k r (λ i. m ((tail + i) % tx_ring_size))
    ∙ ap (λ l. window m tail k ++ l) (tabulate_ext r _ _ (λ i p. ap m (omega arith)))

take-window : (m : ℕ → ℕ) (tail k n : ℕ) → k ≤ n → take k (window m tail n) ≡ window m tail k
take-window m tail k n h =
    let e : n ≡ k + (n - k) = omega arith in
    rw (e, window_split m tail k (n - k)) (take-append k (window m tail k) _ (length-tabulate k _))

drop-window :
    (m : ℕ → ℕ) (tail k n : ℕ)
    → k ≤ n
    → drop k (window m tail n) ≡ window m ((tail + k) % tx_ring_size) (n - k)
drop-window m tail k n h =
    ap (λ j. drop k (window m tail j)) {x = n} {y = k + (n - k)} (omega arith)
    ∙ ap (drop k) (window_split m tail k (n - k))
    ∙ drop-append k (window m tail k) _ (length-tabulate k _)

-- A window that does not go round is a plain copy.
window_straight :
    (m : ℕ → ℕ) (tail n : ℕ) → tail + n ≤ tx_ring_size → window m tail n ≡ copy_out m tail n
window_straight m tail n h = tabulate_ext n _ _ (λ i p. ap m (omega arith))

-- One that does is two copies.
window_round :
    (m : ℕ → ℕ) (tail n : ℕ)
    → tail < tx_ring_size
    → tx_ring_size < tail + n
    → n ≤ tx_ring_size
    → window m tail n
      ≡ copy_out m tail (tx_ring_size - tail) ++ copy_out m 0 (n - (tx_ring_size - tail))
window_round m tail n h h' h'' =
    ap (window m tail) {x = n} {y = (tx_ring_size - tail) + (n - (tx_ring_size - tail))}
      (omega arith)
    ∙ window_split m tail (tx_ring_size - tail) (n - (tx_ring_size - tail))
    ∙ ap₂ ◌++◌ (window_straight m tail (tx_ring_size - tail) (omega arith))
        (tabulate_ext (n - (tx_ring_size - tail)) _ _ (λ i p. ap m (omega arith)))

-- A look at the ring's front copies the first bytes of the queue, as many as the buffer takes.
pub peek_chunk_refines :
    (t : Tx) (max_len : ℕ) → IsValid t → peek_chunk t max_len ≡ take max_len (contents t)
unfolding peek_chunk contents
peek_chunk_refines t max_len v = ground (
  arith,
  take-window t.ring t.tail max_len t.count,
  take_all max_len (contents t),
  length-contents t,
  window_straight t.ring t.tail max_len,
  window_straight t.ring t.tail t.count,
  window_round t.ring t.tail max_len,
  window_round t.ring t.tail t.count,
  append-nil (copy_out t.ring t.tail max_len),
  append-nil (copy_out t.ring t.tail t.count),
)

-- Consuming removes that many bytes from the front, or all there are, and keeps the invariant.
pub consume_chunk_refines :
    (t : Tx) (len : ℕ)
    → IsValid t
    → len < 2 ^ 32
    → (contents (consume_chunk t len) ≡ drop len (contents t)) × IsValid (consume_chunk t len)
unfolding consume_chunk contents
consume_chunk_refines t len v h =
    ground
      (arith, length-contents t, drop-window t.ring t.tail len t.count, drop_all len (contents t))

-- A null pointer with length 0 is an empty part.
pub enqueue_packet-null :
    (t : Tx) (prefix : List ℕ)
    → enqueue_packet t (bytes prefix) (null 0) ≡ enqueue_packet t (bytes prefix) (bytes [])
unfolding enqueue_packet write_part
enqueue_packet-null t prefix = refl

-- Whatever `enqueue_packet` does, the queue before it is the front of the queue after it.
pub enqueue_packet_grows :
    (t : Tx) (prefix payload : List ℕ)
    → IsValid t
    → length prefix + length payload < 2 ^ 32
    → let (s, t') = enqueue_packet t (bytes prefix) (bytes payload) in
      IsValid t' × (more : List ℕ) × (contents t' ≡ contents t ++ more)
enqueue_packet_grows t prefix payload v h =
    let (e, v') = enqueue_packet_refines t prefix payload v h in
    let fits = leb (length (contents t) + length (prefix ++ payload)) tx_ring_size in
    let more = if fits then prefix ++ payload else [] in
    (
      v',
      more,
      ap (λ p. p.1) e
          ∙ unfold Queue.push in
            elim (Bool-cases fits) [
              | inl yes' ↦ rw yes' refl
              | inr no' ↦ rw no' (sym (append-nil (contents t)))
            ],
    )

-- A reset empties the queue.
pub tx_reset_refines : (t : Tx) → (contents (tx_reset t) ≡ []) × IsValid (tx_reset t)
unfolding tx_reset contents
tx_reset_refines t = (refl, omega arith)
