-- ===== src/Usb/Queue.antt =====
-- The specification of the transmit ring of ameba_gateway/example_gateway_ameba.c: a queue of at
-- most `cap` bytes that takes a packet whole or not at all.
use carplay_poc.Base.{ℕ, ◌+◌, List, ◌++◌, leb, if◌then◌else◌, length, Status, ok, failed}

unfoldable pub push : ℕ → List ℕ → List ℕ → Status × List ℕ
push cap q packet = if leb (length q + length packet) cap then (ok, q ++ packet) else (failed, q)
