-- ===== src/Tests/Plug.antt =====
-- The client's transport at concrete values: a device on the bus, and a bus that brings one byte at a time.
use carplay_poc.Base.{
  true, ◌++◌, inr, List, ◌≡◌, ◌<◌, Option, ◌⊎◌, ok, false, suc, inl, arith, ◌≤◌, ℕ, none, ◌∷◌, some,
  refl, [], zero, length, take, append-nil, ◌+◌, sym, drop,
}
use carplay_poc.Transport.{Held, options_default, close}
use carplay_poc.Net.{Read}
use carplay_poc.Transport.Transfers.{IsBulkIn, IsBulkOut}
use carplay_poc.Transport.Usb.{Device, open_transport}
use carplay_poc.Transport.Balance.{open_transport-close}
use carplay_poc.Transport.Bulk.{TransferIn, TransferOut, usb_read_exact}

-- endpoint 0x81 in and 0x02 out, both bulk
abbrev board : Device
board = record {
  descriptor = some (0x0BDA, 0x8195);
  handle = some 4;
  active_config = none;
  first_config = some (
      (record {
        interface_number = 1;
        endpoints =
            record { attributes = 2; address = 0x81 } ∷ record { attributes = 2; address = 2 } ∷ [];
      }
        ∷ [])
      ∷ []);
}

abbrev stranger : Device
stranger = record {
  descriptor = some (1, 2);
  handle = some 3;
  active_config = none;
  first_config = none;
}

abbrev nothing_held : Held
nothing_held = record { contexts = 0; handles = 0; claims = 0; lists = 0; configs = 0; sockets = 0 }

-- The board is not there at first; the alternate setting cannot be chosen.
abbrev two_scans : List (Option (List Device))
two_scans = some (stranger ∷ []) ∷ some (stranger ∷ board ∷ []) ∷ []

opened_in_second_scan :
    (open_transport true true true two_scans none options_default nothing_held).2
    ≡ record nothing_held { contexts = 1; handles = 1; claims = 1 }
unfolding open_transport options_default
opened_in_second_scan = refl

open_transport-close_example :
    let (rc, t, h₁) = open_transport true true false two_scans none options_default nothing_held in
    let (t', h₂) = close t h₁ in
    (h₂ ≡ nothing_held) × ((rc ≡ ok) ⊎ (h₁ ≡ nothing_held)) × (close t' h₂ ≡ (t', h₂))
open_transport-close_example =
    open_transport-close true true false two_scans none options_default nothing_held

-- The bytes on the bus, and how many transfers are still to time out.
abbrev Cable : Type 0
Cable = List ℕ × ℕ

abbrev cable_in : Cable → ℕ → TransferIn × Cable
cable_in (bs, suc n) len = (TransferIn.timed_out [], (bs, n))
cable_in ([], zero) len = (TransferIn.no_device, ([], zero))
cable_in (b ∷ bs, zero) len = (TransferIn.came (b ∷ []), (bs, zero))

abbrev cable_out : Cable → List ℕ → TransferOut × Cable
cable_out (out, suc n) bs = (TransferOut.interrupted, (out, n))
cable_out (out, zero) bs = (TransferOut.went 1, (out ++ take 1 bs, zero))

abbrev cable_bulk_in : IsBulkIn cable_in (λ c. false)
cable_bulk_in = record {
  incoming = λ c. c.0;
  patience = λ c. c.1;
  lost = λ c. 0;
  runs = λ c. refl;
  counts = λ c len. omega arith;
  transfers = answers;
}
  where
    answers :
        (c : Cable) (len : ℕ)
        → 0 < len
        → 0 < length c.0
        → let (t, c') = cable_in c len in
          ((bs : List ℕ) × (t ≡ TransferIn.came bs)
            × (0 < length bs)
            × (length bs ≤ len)
            × (c.0 ≡ bs ++ c'.0)
            × (c'.1 ≤ c.1))
          ⊎ ((t ≡ TransferIn.came []) × (c'.0 ≡ c.0) × (c'.1 < c.1))
          ⊎ ((late : List ℕ) × ((t ≡ TransferIn.timed_out late) ⊎ (t ≡ TransferIn.interrupted))
              × (c.0 ≡ late ++ c'.0)
              × (0 ≡ 0 + length late)
              × (c'.1 < c.1))
    answers (bs, suc n) len h k = inr (inr ([], inl refl, refl, refl, omega arith))
    answers ([], zero) len h k = absurd (omega arith)
    answers (b ∷ bs, zero) len h k = inl (b ∷ [], refl, omega arith, omega arith, refl, omega arith)

abbrev cable_bulk_out : IsBulkOut cable_out (λ c. false)
cable_bulk_out = record {
  outgoing = λ c. c.0;
  patience = λ c. c.1;
  doubled = λ c. 0;
  runs = λ c. refl;
  counts = λ c bs. omega arith;
  transfers = answers;
}
  where
    answers :
        (c : Cable) (bs : List ℕ)
        → 0 < length bs
        → let (t, c') = cable_out c bs in
          ((k : ℕ) × (t ≡ TransferOut.went (suc k))
            × (suc k ≤ length bs)
            × (c'.0 ≡ c.0 ++ take (suc k) bs)
            × (c'.1 ≤ c.1))
          ⊎ ((k : ℕ) × ((t ≡ TransferOut.timed_out) ⊎ (t ≡ TransferOut.interrupted))
              × (k ≤ length bs)
              × (c'.0 ≡ c.0 ++ take k bs)
              × (0 ≡ 0 + k)
              × (c'.1 < c.1))
    answers (out, suc n) bs h =
        inr (0, inr refl, omega arith, sym (append-nil out), refl, omega arith)
    answers (out, zero) bs h = inl (0, refl, omega arith, refl, omega arith)

-- Another cable: the first transfer times out with two bytes, which the read loses.
abbrev late_in : Cable → ℕ → TransferIn × Cable
late_in (bs, suc n) len = (TransferIn.timed_out (take 2 bs), (drop 2 bs, n))
late_in (bs, zero) len = (TransferIn.came (take len bs), (drop len bs, zero))

two_are_lost :
    (usb_read_exact late_in (λ c. false) 3 2 (1 ∷ 2 ∷ 3 ∷ 4 ∷ [], 1)).0 ≡ Read.got (3 ∷ 4 ∷ [])
unfolding usb_read_exact
two_are_lost = refl
