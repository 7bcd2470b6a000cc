-- ===== src/Config/Apply.antt =====
-- ameba_gateway/example_gateway_ameba.c: which upstream addresses the device takes, and that it takes
-- what the host program sends.
use carplay_poc.Base.{
  ℕ, ◌+◌, ◌-◌, ◌^◌, ◌<◌, ◌≡◌, ◌≢◌, ◌⊎◌, inl, inr, refl, ap, ◌∙◌, arith, Bool, true, none, some,
  List, [], ◌∷◌, ◌++◌, length, All, replicate, length-replicate, replicate-suc, length-append,
  length-take, take, take-append, drop-append, take_all, u8, ◌>>>◌, ◌<<<◌, ok, failed,
  bit_or_fields_low, le32_sum, Option-cases, drop,
}
use carplay_poc.Config.{
  ConfigPacket, ConfigState, config_packet_at, text_len, copy_field, apply_usb_config,
}
use carplay_poc.Config.Packet.{packed, config_bytes}

-- A text: no character is the terminator.
abbrev pub IsText : List ℕ → Type 0
IsText s = All (λ c. c ≢ 0) s

-- The device's text of a field that holds `s` and then zeros is `s`.
text_len-padded : (s rest : List ℕ) → IsText s → text_len (s ++ (0 ∷ rest)) ≡ length s
unfolding text_len
text_len-padded [] rest h = refl
text_len-padded (c ∷ s) rest h = ground (arith, text_len-padded s rest)

copy_field-padded :
    (size : ℕ) (s : List ℕ)
    → IsText s
    → 0 < length s
    → length s < size
    → copy_field size (s ++ replicate (size - length s) 0) ≡ some s
unfolding copy_field
copy_field-padded size s h pos short =
    rw (replicate-suc {A = ℕ} (size - length s) 0 (omega arith)) (
      ground (
        arith,
        text_len-padded s (replicate (size - length s - 1) 0) h,
        length-append s (0 ∷ replicate (size - length s - 1) 0),
        take-append (length s) s (0 ∷ replicate (size - length s - 1) 0) refl,
      ))

-- What is copied is a text of 1 to `size - 1` characters, and begins the field.
pub copy_field_bounds :
    (size : ℕ) (src : List ℕ) {s : List ℕ}
    → copy_field size src ≡ some s
    → (0 < length s) × (length s < size) × (length s < length src) × (take (length s) src ≡ s)
unfolding copy_field
copy_field_bounds size src e = ground (arith, length-take (text_len src) src)

copy_field_cases :
    (size : ℕ) (src : List ℕ)
    → (copy_field size src ≡ none)
      ⊎ ((s : List ℕ) × (copy_field size src ≡ some s)
          × (length s < size)
          × (take (length s) src ≡ s))
copy_field_cases size src = elim (Option-cases (copy_field size src)) [
  | inl e ↦ inl e
  | inr (s, e) ↦ let b = copy_field_bounds size src e in inr (s, e, b.1, b.3)
]

-- The two fields of the packet's bytes, and its length.
field_split :
    (n m : ℕ) (xs ys : List ℕ)
    → length xs ≡ n
    → length ys ≡ m
    → (take n (xs ++ ys) ≡ xs) × (take m (drop n (xs ++ ys)) ≡ ys) × (length (xs ++ ys) ≡ n + m)
field_split n m xs ys hx hy = (
  take-append n xs ys hx,
  ap (take m) (drop-append n xs ys hx) ∙ take_all m ys (omega arith),
  omega (arith, length-append xs ys),
)

length-padded :
    (size : ℕ) (s : List ℕ) → length s < size → length (s ++ replicate (size - length s) 0) ≡ size
length-padded size s h = omega (
  arith,
  length-append s (replicate (size - length s) 0),
  length-replicate {A = ℕ} (size - length s) 0,
)

-- The device reads the packet's fields as they were stored.
config_packet_at-packed :
    (seq_no port : ℕ) (host path : List ℕ)
    → seq_no < 2 ^ 32
    → port < 2 ^ 16
    → length host < 16
    → length path < 36
    → (config_packet_at (packed seq_no port host path) ≡ record {
      seq_no = seq_no;
      port = port;
      host = host ++ replicate (16 - length host) 0;
      path = path ++ replicate (36 - length path) 0;
    })
      × (length (packed seq_no port host path) ≡ 64)
unfolding packed config_packet_at
config_packet_at-packed seq_no port host path hs hp lh lp =
    let xs = host ++ replicate (16 - length host) 0 in
    let ys = path ++ replicate (36 - length path) 0 in
    let split = field_split 16 36 xs ys (length-padded 16 host lh) (length-padded 36 path lp) in
    (
      ground (
        arith,
        split,
        le32_sum (u8 seq_no) (u8 (seq_no >>> 8)) (u8 (seq_no >>> 16)) (u8 (seq_no >>> 24)),
        bit_or_fields_low 8 (u8 (port >>> 8)) (u8 port) {a = u8 (port >>> 8) <<< 8} refl,
      ),
      omega (arith, split.2),
    )

module _ (inet_aton : List ℕ → Bool) where
  -- An address that the host program puts into a packet is the address that the device uses from
  -- then on, and the device is asked to reconnect. The port is not 0, the texts are not empty and fit,
  -- and lwIP takes the host for an address.
  pub apply_usb_config-config_bytes :
      (seq_no port : ℕ) (host path : List ℕ) (s : ConfigState)
      → seq_no < 2 ^ 32
      → 0 < port
      → port < 2 ^ 16
      → IsText host × (0 < length host) × (length host < 16)
      → IsText path × (0 < length path) × (length path < 36)
      → inet_aton host ≡ true
      → (raw : List ℕ) × (config_bytes seq_no port host path ≡ some raw)
        × (length raw ≡ 64)
        × (apply_usb_config inet_aton (some (config_packet_at raw)) s ≡ (
          ok,
          record {
            config = record {
              host = host;
              path = path;
              port = port;
              valid = true;
              seq_no = seq_no;
            };
            config_valid = true;
            config_seq = seq_no;
            reconnect_requested = true;
          },
        ))
  unfolding config_bytes apply_usb_config
  apply_usb_config-config_bytes seq_no port host path s hs hp hp' (th, lh, lh') (tp, lp, lp') addr =
      let (fields, size) = config_packet_at-packed seq_no port host path hs hp' lh' lp' in
      (
        packed seq_no port host path,
        ground arith,
        size,
        ap (λ q. apply_usb_config inet_aton (some q) s) fields
            ∙ ground
                (arith, copy_field-padded 16 host th lh lh', copy_field-padded 36 path tp lp lp'),
      )

  -- A packet that is refused leaves the address as it was. One that is taken has a port, and a host
  -- that lwIP takes for an address; both texts begin their fields and end within them.
  pub apply_usb_config_cases :
      (p : ConfigPacket) (s : ConfigState)
      → let (rc, s') = apply_usb_config inet_aton (some p) s in
        ((rc ≡ failed) × (s' ≡ s))
        ⊎ ((rc ≡ ok)
            × (s'.config.port ≡ p.port)
            × (p.port ≢ 0)
            × (s'.config.valid ≡ true)
            × (s'.config_valid ≡ true)
            × (s'.reconnect_requested ≡ true)
            × (inet_aton s'.config.host ≡ true)
            × (take (length s'.config.host) p.host ≡ s'.config.host)
            × (length s'.config.host < 16)
            × (take (length s'.config.path) p.path ≡ s'.config.path)
            × (length s'.config.path < 36))
  unfolding apply_usb_config
  apply_usb_config_cases p s =
      ground (arith, copy_field_cases 16 p.host, copy_field_cases 36 p.path)
