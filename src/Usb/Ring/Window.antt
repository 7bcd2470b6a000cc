-- ===== src/Usb/Ring/Window.antt =====
-- ameba_gateway/example_gateway_ameba.c: what a copy into the ring, round its end, leaves at each index.
use carplay_poc.Base.{
  ℕ, ◌+◌, ◌-◌, ◌%◌, ◌≤◌, ◌<◌, ◌≡◌, arith, List, length, get_or, ltb, if◌then◌else◌, get_or-take,
  get_or-drop, length-take, length-drop,
}
use carplay_poc.Usb.Ring.{tx_ring_size, bytes, ring_write, first_part}

-- How far index `j` stands behind `pos`, going round.
abbrev pub behind : ℕ → ℕ → ℕ
behind pos j = (j + tx_ring_size - pos) % tx_ring_size

-- A copy of at most the ring's size writes its bytes from `pos` on, round the end, and no others.
pub ring_write_lem :
    (m : ℕ → ℕ) (pos : ℕ) (xs : List ℕ) (j : ℕ)
    → pos < tx_ring_size
    → length xs ≤ tx_ring_size
    → j < tx_ring_size
    → ring_write m pos (bytes xs) j
      ≡ (if ltb (behind pos j) (length xs) then get_or xs (behind pos j) 0 else m j)
unfolding ring_write
ring_write_lem m pos xs j hp hx hj = ground (
  arith,
  length-take (first_part pos (length xs)) xs,
  length-drop (first_part pos (length xs)) xs,
  get_or-take (first_part pos (length xs)) xs (j - pos) 0,
  get_or-drop (first_part pos (length xs)) xs j 0,
)
