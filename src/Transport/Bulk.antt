-- ===== src/Transport/Bulk.antt =====
-- gateway_client/transport_libusb.c: all of a buffer read or written by bulk transfers.
-- `libusb_bulk_transfer` is a parameter over a state `Bus`; `stopped` is what `stop_requested` reads between
-- two transfers. The loops run on fuel: transfers may time out any number of times.
use carplay_poc.Base.{List, false, ◌∷◌, min, [], Bool, zero, ◌-◌, suc, ℕ, true, length, take, drop}
use carplay_poc.Net.{Read, Written, got_more}

-- What a transfer answers: the bytes read, or a timeout with those that came before it, or an error.
pub data TransferIn : Type 0 where
  came timed_out : List ℕ → TransferIn
  interrupted no_device broken : TransferIn

-- How many bytes were written.
pub data TransferOut : Type 0 where
  went : ℕ → TransferOut
  timed_out interrupted broken : TransferOut

-- `INT_MAX`
abbrev pub int_max : ℕ
int_max = 2147483647

module _ {Bus : Type 0} (bulk_in : Bus → ℕ → TransferIn × Bus) (stopped : Bus → Bool) where
  -- `gateway_client_transport_usb_read_exact` on an open transport
  unfoldable pub usb_read_exact : ℕ → ℕ → Bus → Read × Bus
  usb_read_exact fuel zero bus = (Read.got [], bus)
  usb_read_exact zero (suc len) bus = (Read.unfinished, bus)
  usb_read_exact (suc fuel) (suc len) bus = elim (stopped bus) [
    | true ↦ (Read.closed, bus)
    | false ↦
        let (t, bus') = bulk_in bus (min (suc len) int_max) in
        elim t [
          | came bs ↦ got_more bs (usb_read_exact fuel (suc len - length bs) bus')
          | timed_out bs ↦ usb_read_exact fuel (suc len) bus'
          | interrupted ↦ usb_read_exact fuel (suc len) bus'
          | no_device ↦ (Read.closed, bus')
          | broken ↦ (Read.failed, bus')
        ]
  ]

module _ {Bus : Type 0} (bulk_out : Bus → List ℕ → TransferOut × Bus) (stopped : Bus → Bool) where
  -- `gateway_client_transport_usb_write_all` on an open transport
  unfoldable pub usb_write_all : ℕ → List ℕ → Bus → Written × Bus
  usb_write_all fuel [] bus = (Written.done, bus)
  usb_write_all zero (b ∷ bs) bus = (Written.unfinished, bus)
  usb_write_all (suc fuel) (b ∷ bs) bus = elim (stopped bus) [
    | true ↦ (Written.failed, bus)
    | false ↦
        let (t, bus') = bulk_out bus (take int_max (b ∷ bs)) in
        elim t [
          | went zero ↦ (Written.failed, bus')
          | went (suc k) ↦ usb_write_all fuel (drop (suc k) (b ∷ bs)) bus'
          | timed_out ↦ usb_write_all fuel (b ∷ bs) bus'
          | interrupted ↦ usb_write_all fuel (b ∷ bs) bus'
          | broken ↦ (Written.failed, bus')
        ]
  ]
