-- ===== src/Transport/Balance.antt =====
-- gateway_client/transport.c and transport_libusb.c: whatever libusb answers, nothing is leaked.
use carplay_poc.Base.{
  refl, inl, ℕ, none, ◌∷◌, [], some, ◌≡◌, ◌⊎◌, ◌+◌, List, inr, ◌-◌, Option, arith, Bool, ◌&&◌, ◌==◌,
  Bool-cases, Option-cases, ok,
}
use carplay_poc.Transport.{Kind, usb, tcp, Held, Options, prepared, drop_socket, usb_close, close}
use carplay_poc.Transport.Usb.{
  Device, Found, find_interface, open_first, open_matching, wait_for_device, usb_open,
  open_transport,
}

find_interface-Held : (d : Device) (h : Held) → (find_interface d h).1 ≡ h
unfolding find_interface
find_interface-Held d h = elim (Option-cases d.active_config) [
  | inr (c, e) ↦ ground (arith, e)
  | inl n ↦ elim (Option-cases d.first_config) [
    | inr (c, e) ↦ ground (arith, n, e)
    | inl m ↦ ground (arith, n, m)
  ]
]

-- What opening adds: an open handle where a device was found.
open_first-Held :
    (vid pid : ℕ) (devices : List Device) (h : Held)
    → let (found, h') = open_first vid pid devices h in
      ((found ≡ none) × (h' ≡ h))
      ⊎ ((f : ℕ × Found) × (found ≡ some f) × (h' ≡ record h { handles = h.handles + 1 }))
unfolding open_first
open_first-Held vid pid [] h = inl (refl, refl)
open_first-Held vid pid (d ∷ ds) h =
    let rest = open_first-Held vid pid ds h in
    elim (Option-cases d.descriptor) [
      | inl n ↦
          let step : open_first vid pid (d ∷ ds) h ≡ open_first vid pid ds h = ground (arith, n) in
          rw step rest
      | inr ((v, p), e) ↦ elim (Bool-cases (v == vid && p == pid)) [
        | inr other ↦
            let step : open_first vid pid (d ∷ ds) h ≡ open_first vid pid ds h =
              ground (arith, e, other) in
            rw step rest
        | inl same ↦ elim (Option-cases d.handle) [
          | inl refused ↦
              let step : open_first vid pid (d ∷ ds) h ≡ open_first vid pid ds h =
                ground (arith, e, same, refused) in
              rw step rest
          | inr (handle, opened) ↦
              let h₁ : Held = record h { handles = h.handles + 1 } in
              let kept = find_interface-Held d h₁ in
              elim (Option-cases (find_interface d h₁).0) [
                | inr (f, found) ↦
                    let step : open_first vid pid (d ∷ ds) h ≡ (some (handle, f), h₁) =
                      ground (arith, e, same, opened, found, kept) in
                    rw step (inr ((handle, f), refl, refl))
                | inl lacking ↦
                    let back : record h₁ { handles = h₁.handles - 1 } ≡ h = ground arith in
                    let step : open_first vid pid (d ∷ ds) h ≡ open_first vid pid ds h =
                      ground (arith, e, same, opened, lacking, kept, back) in
                    rw step rest
              ]
        ]
      ]
    ]

open_matching-Held :
    (vid pid : ℕ) (scan : Option (List Device)) (h : Held)
    → let (found, h') = open_matching vid pid scan h in
      ((found ≡ none) × (h' ≡ h))
      ⊎ ((f : ℕ × Found) × (found ≡ some f) × (h' ≡ record h { handles = h.handles + 1 }))
unfolding open_matching
open_matching-Held vid pid none h = inl (refl, refl)
open_matching-Held vid pid (some devices) h =
    let h₁ : Held = record h { lists = h.lists + 1 } in
    elim (open_first-Held vid pid devices h₁) [
      | inl (e, k) ↦ inl (e, ground (arith, k))
      | inr (f, e, k) ↦ inr (f, e, ground (arith, k))
    ]

wait_for_device-Held :
    (vid pid : ℕ) (scans : List (Option (List Device))) (h : Held)
    → let (found, h') = wait_for_device vid pid scans h in
      ((found ≡ none) × (h' ≡ h))
      ⊎ ((f : ℕ × Found) × (found ≡ some f) × (h' ≡ record h { handles = h.handles + 1 }))
unfolding wait_for_device
wait_for_device-Held vid pid [] h = inl (refl, refl)
wait_for_device-Held vid pid (scan ∷ scans) h = elim (open_matching-Held vid pid scan h) [
  | inl (e, k) ↦
      let step : wait_for_device vid pid (scan ∷ scans) h ≡ wait_for_device vid pid scans h =
        ground (arith, e, k) in
      rw step (wait_for_device-Held vid pid scans h)
  | inr (f, e, k) ↦
      let step : wait_for_device vid pid (scan ∷ scans) h
          ≡ (some f, record h { handles = h.handles + 1 }) =
        ground (arith, e, k) in
      rw step (inr (f, refl, refl))
]

Kind-cases : (k : Kind) → (k ≡ usb) ⊎ (k ≡ tcp)
Kind-cases usb = inl refl
Kind-cases tcp = inr refl

-- Whatever libusb and the sockets answer, opening a transport that fails leaves nothing open, claimed or
-- allocated, and one that succeeds is undone by closing it: the process then holds what it held before,
-- and closing once more changes nothing.
pub open_transport-close :
    (init_ok claim_ok alt_ok : Bool) (scans : List (Option (List Device))) (fd : Option ℕ)
    (o : Options) (h : Held)
    → let (rc, t, h₁) = open_transport init_ok claim_ok alt_ok scans fd o h in
      let (t', h₂) = close t h₁ in (h₂ ≡ h) × ((rc ≡ ok) ⊎ (h₁ ≡ h)) × (close t' h₂ ≡ (t', h₂))
unfolding open_transport usb_open prepared close usb_close drop_socket
open_transport-close init_ok claim_ok alt_ok scans fd o h =
    let waited =
      wait_for_device-Held o.usb_vid o.usb_pid scans (record h { contexts = h.contexts + 1 }) in
    elim (Kind-cases o.kind) [
      | inr t ↦ ground (arith, t)
      | inl u ↦ elim waited [
        | inl (e, k) ↦ ground (arith, u, e, k)
        | inr (f, e, k) ↦ ground (arith, u, e, k)
      ]
    ]
