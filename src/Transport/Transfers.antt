-- ===== src/Transport/Transfers.antt =====
-- gateway_client/transport_libusb.c: what a read or a write of a whole buffer over USB comes to.
use carplay_poc.Base.{Bool, ◌≤◌, ◌≡◌, suc, List, ◌⊎◌, false, ◌++◌, ℕ, [], ◌+◌, ◌<◌, length, take}
use carplay_poc.Transport.Bulk.{TransferIn, TransferOut}

-- What is relied on in the bulk IN endpoint while no stop is requested and the device stays: as long as bytes are to come, a transfer
-- that ends well brings the next of them, or brings none. One that times out or is interrupted may have brought some as well, which
-- `lost` counts. `patience` bounds how often a transfer may still not bring any in good order.
pub record IsBulkIn {Bus : Type 0} (bulk_in : Bus → ℕ → TransferIn × Bus) (stopped : Bus → Bool)
    : Type 0 where
  pub incoming : Bus → List ℕ
  pub patience : Bus → ℕ
  pub lost : Bus → ℕ
  pub runs : (bus : Bus) → stopped bus ≡ false
  pub counts : (bus : Bus) (len : ℕ) → lost bus ≤ lost (bulk_in bus len).1
  pub transfers :
      (bus : Bus) (len : ℕ)
      → 0 < len
      → 0 < length (incoming bus)
      → let (t, bus') = bulk_in bus len in
        ((bs : List ℕ) × (t ≡ TransferIn.came bs)
          × (0 < length bs)
          × (length bs ≤ len)
          × (incoming bus ≡ bs ++ incoming bus')
          × (patience bus' ≤ patience bus))
        ⊎ ((t ≡ TransferIn.came [])
            × (incoming bus' ≡ incoming bus)
            × (patience bus' < patience bus))
        ⊎ ((late : List ℕ) × ((t ≡ TransferIn.timed_out late) ⊎ (t ≡ TransferIn.interrupted))
            × (incoming bus ≡ late ++ incoming bus')
            × (lost bus' ≡ lost bus + length late)
            × (patience bus' < patience bus))

-- The same of the bulk OUT endpoint; `doubled` counts the bytes that were taken by transfers that timed out or were interrupted.
pub record IsBulkOut {Bus : Type 0} (bulk_out : Bus → List ℕ → TransferOut × Bus)
    (stopped : Bus → Bool) : Type 0 where
  pub outgoing : Bus → List ℕ
  pub patience : Bus → ℕ
  pub doubled : Bus → ℕ
  pub runs : (bus : Bus) → stopped bus ≡ false
  pub counts : (bus : Bus) (bs : List ℕ) → doubled bus ≤ doubled (bulk_out bus bs).1
  pub transfers :
      (bus : Bus) (bs : List ℕ)
      → 0 < length bs
      → let (t, bus') = bulk_out bus bs in
        ((k : ℕ) × (t ≡ TransferOut.went (suc k))
          × (suc k ≤ length bs)
          × (outgoing bus' ≡ outgoing bus ++ take (suc k) bs)
          × (patience bus' ≤ patience bus))
        ⊎ ((k : ℕ) × ((t ≡ TransferOut.timed_out) ⊎ (t ≡ TransferOut.interrupted))
            × (k ≤ length bs)
            × (outgoing bus' ≡ outgoing bus ++ take k bs)
            × (doubled bus' ≡ doubled bus + k)
            × (patience bus' < patience bus))
