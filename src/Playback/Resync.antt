-- ===== src/Playback/Resync.antt =====
-- gateway_client/gateway_client.cpp: headers are found again behind bytes that belong to none.
use carplay_poc.Base.{
  ◌+◌, List, [], none, ◌++◌, arith, suc, inl, ◌<◌, ℕ, ◌≤◌, refl, inr, ◌-◌, ◌≡◌, some, zero, leb,
  ◌==◌, tests, Bool-cases, length, take, drop, length-append, length-take, take_all, drop_all,
  take-append_le, drop-append_le, drop-drop, ◌∷◌, ap, ◌∙◌, sym, length-drop, true, ◌⊎◌, min,
  append_assoc, ltb, take-append-drop, ◌^◌, u32, false, read_be32,
}
use carplay_poc.Net.{Read}
use carplay_poc.Proto.{read_init, read_media_header, MediaInfo}
use carplay_poc.Net.Reads.{take-append_more, drop-append_more}
use carplay_poc.Playback.Input.{
  Prefetch, advance, read_exact_prefetched, Header, hunt, read_next_gateway_header,
  starts_gateway_magic, Payload, read_gateway_payload_resync, prepend_prefetch, payload_rest,
  read_be32_host,
}

-- What the functions rely on in the transport: a read of bytes that are to come gives them.
pub record IsPort {Port : Type 0} (read : Port → ℕ → Read × Port) : Type 0 where
  pub incoming : Port → List ℕ
  pub reads :
      (port : Port) (len : ℕ)
      → len ≤ length (incoming port)
      → let (r, port') = read port len in
        (r ≡ Read.got (take len (incoming port))) × (incoming port' ≡ drop len (incoming port))

-- None of the first `n` places of the stream begins a header.
abbrev pub IsNoise : ℕ → List ℕ → Type 0
IsNoise zero xs = Unit
IsNoise (suc n) xs =
    (read_media_header (some (take 16 xs)) ≡ none)
    × (read_init (some (take 16 xs)) ≡ none)
    × IsNoise n (drop 1 xs)

-- The bytes begin with "GWI1" or "GWP1", read as a number from the first byte down.
abbrev pub HasMagic : List ℕ → Type 0
HasMagic xs = (4 ≤ length xs) × ((read_be32 xs 0 ≡ 0x47574931) ⊎ (read_be32 xs 0 ≡ 0x47575031))

starts_gateway_magic_cases :
    (xs : List ℕ)
    → ((starts_gateway_magic xs ≡ true) × HasMagic xs)
      ⊎ ((starts_gateway_magic xs ≡ false) × ¬ (HasMagic xs))
unfolding starts_gateway_magic read_be32_host read_be32
starts_gateway_magic_cases xs = ground arith

module _ {Port : Type 0} (read : Port → ℕ → Read × Port) (p : IsPort read) where
  -- the bytes to come, those read ahead first
  abbrev pub stream : Prefetch → Port → List ℕ
  stream f port = drop f.off f.ahead ++ p.incoming port

  advance-drop :
      (f : Prefetch) (n : ℕ)
      → drop (advance f n).off (advance f n).ahead ≡ drop n (drop f.off f.ahead)
  unfolding advance
  advance-drop f n = elim (Bool-cases (leb (length f.ahead) (f.off + n))) [
    | inl y ↦
        rw (y, drop-drop n f.off f.ahead, drop_all (f.off + n) f.ahead (omega (tests, y))) refl
    | inr k ↦ rw (k, drop-drop n f.off f.ahead) refl
  ]

  pub read_exact_prefetched_lem :
      (f : Prefetch) (port : Port) (len : ℕ)
      → len ≤ length (stream f port)
      → let (r, f', port') = read_exact_prefetched read f port len in
        (r ≡ Read.got (take len (stream f port))) × (stream f' port' ≡ drop len (stream f port))
  unfolding read_exact_prefetched
  read_exact_prefetched_lem f port len h =
      let have = drop f.off f.ahead in
      let part = take len have in
      let size = length-take len have in
      let all = length-append have (p.incoming port) in
      let moved = advance-drop f (length part) in
      elim (Bool-cases (length part == len)) [
        | inl y ↦
            let enough : len ≤ length have = ground (arith, y, size) in
            let same : length part ≡ len = ground (arith, y) in
            rw y (
              rw (take-append_le len have (p.incoming port) enough) refl,
              rw moved (rw (same, drop-append_le len have (p.incoming port) enough) refl),
            )
        | inr n ↦
            let few : length have < len = ground (arith, n, size) in
            let whole : part ≡ have = take_all len have (omega arith) in
            let (got, left) = p.reads port (len - length part) (omega (arith, size, all)) in
            let less : length part ≡ length have = omega (arith, size) in
            let gone : drop (length part) have ≡ [] = drop_all (length part) have (omega arith) in
            rw (n, got, moved, gone, left)
              (
                rw (take-append_more have (p.incoming port) len (omega arith), less, whole) refl,
                rw (drop-append_more have (p.incoming port) len (omega arith), less) refl,
              )
      ]

  shift_window :
      (xs : List ℕ)
      → 17 ≤ length xs
      → drop 1 (take 16 xs) ++ take 1 (drop 16 xs) ≡ take 16 (drop 1 xs)
  shift_window [] h = absurd (omega arith)
  shift_window (x ∷ xs) h = go 15 xs (omega arith)
    where
      go : (n : ℕ) (ys : List ℕ) → n < length ys → take n ys ++ take 1 (drop n ys) ≡ take (suc n) ys
      go n [] less = absurd (omega arith)
      go zero (y ∷ ys) less = refl
      go (suc n) (y ∷ ys) less = ap (λ l. y ∷ l) (go n ys (omega arith))

  drop-next : (n : ℕ) (xs : List ℕ) → drop n (drop 1 xs) ≡ drop (suc n) xs
  drop-next n xs = drop-drop n 1 xs ∙ ap (λ k. drop k xs) {x = 1 + n} {y = suc n} (omega arith)

  hunt_lem :
      (n fuel : ℕ) (xs : List ℕ) (skipped : ℕ) (f : Prefetch) (port : Port) (m : MediaInfo)
      → n < fuel
      → skipped + n < 2 ^ 31
      → n + 16 ≤ length xs
      → stream f port ≡ drop 16 xs
      → IsNoise n xs
      → read_media_header (some (take 16 (drop n xs))) ≡ some m
      → let (h, skipped', f', port') = hunt read fuel (take 16 xs) skipped f port in
        (h ≡ Header.media m) × (skipped' ≡ skipped + n) × (stream f' port' ≡ drop (n + 16) xs)
  unfolding hunt
  hunt_lem n zero xs skipped f port m less few long at noise found = absurd (omega arith)
  hunt_lem zero (suc fuel) xs skipped f port m less few long at noise found =
      let step : hunt read (suc fuel) (take 16 xs) skipped f port
          ≡ (Header.media m, skipped, f, port) =
        ground (arith, found) in
      rw step (refl, omega arith, at)
  hunt_lem (suc n) (suc fuel) xs skipped f port m less few long at noise found =
      let (no_media, no_init, later) = noise in
      let r = read_exact_prefetched read f port 1 in
      let (got, left) =
        read_exact_prefetched_lem f port 1
          (omega (arith, ap (λ (l : List ℕ). length l) at, length-drop 16 xs)) in
      let byte : r.0 ≡ Read.got (take 1 (drop 16 xs)) = got ∙ ap (λ l. Read.got (take 1 l)) at in
      let window = shift_window xs (omega arith) in
      let (h, s, rest) =
        hunt_lem n fuel (drop 1 xs) (u32 (skipped + 1)) r.1 r.2 m (omega arith) (omega arith)
          (omega (arith, length-drop 1 xs))
          (left ∙ ap (λ l. drop 1 l) at ∙ drop-drop 1 16 xs ∙ sym (drop-drop 16 1 xs)) later
          (rw (drop-next n xs) found) in
      let step : hunt read (suc fuel) (take 16 xs) skipped f port
          ≡ hunt read fuel (drop 1 (take 16 xs) ++ take 1 (drop 16 xs)) (u32 (skipped + 1)) r.1
              r.2 =
        ground (arith, no_media, no_init, byte) in
      let size : 1 + (n + 16) ≡ suc n + 16 = omega arith in
      rw (step, window)
        (h, omega (arith, s), rest ∙ drop-drop (n + 16) 1 xs ∙ ap (λ k. drop k xs) size)

  -- Where a packet header is the next thing that is one, behind `n` bytes of noise, fewer than 2 GiB, the reader
  -- finds it, counts the bytes skipped, and leaves what follows the header; `n + 1` turns are enough. The transport gives
  -- the bytes that are to come.
  pub read_next_gateway_header_lem :
      (n fuel : ℕ) (f : Prefetch) (port : Port) (m : MediaInfo)
      → let xs = stream f port in
        n < fuel
        → n < 2 ^ 31
        → n + 16 ≤ length xs
        → IsNoise n xs
        → read_media_header (some (take 16 (drop n xs))) ≡ some m
        → let (h, skipped, f', port') = read_next_gateway_header read fuel f port in
          (h ≡ Header.media m) × (skipped ≡ n) × (stream f' port' ≡ drop (n + 16) (stream f port))
  unfolding read_next_gateway_header
  read_next_gateway_header_lem n fuel f port m less few long noise found =
      let xs = stream f port in
      let r = read_exact_prefetched read f port 16 in
      let (got, left) = read_exact_prefetched_lem f port 16 (omega arith) in
      let (h, s, rest) = hunt_lem n fuel xs 0 r.1 r.2 m less (omega arith) long left noise found in
      let step : read_next_gateway_header read fuel f port ≡ hunt read fuel (take 16 xs) 0 r.1 r.2 =
        ground (arith, got) in
      rw step (h, omega (arith, s), rest)

  prepend-stream :
      (f : Prefetch) (buf : List ℕ) (port : Port)
      → stream (prepend_prefetch f buf) port ≡ buf ++ stream f port
  unfolding prepend_prefetch
  prepend-stream f [] port = refl
  prepend-stream f (b ∷ bs) port = elim (Bool-cases (ltb f.off (length f.ahead))) [
    | inl y ↦
        let step : prepend_prefetch f (b ∷ bs)
            ≡ record { ahead = (b ∷ bs) ++ drop f.off f.ahead; off = 0 } =
          ground (arith, y) in
        rw step (append_assoc (b ∷ bs) (drop f.off f.ahead) (p.incoming port))
    | inr n ↦
        let gone : drop f.off f.ahead ≡ [] = drop_all f.off f.ahead (ground (arith, n)) in
        let step : prepend_prefetch f (b ∷ bs) ≡ record { ahead = b ∷ bs; off = 0 } =
          ground (arith, n) in
        rw (step, gone) refl
  ]

  payload_rest_lem :
      (f : Prefetch) (port : Port) (k len : ℕ) (xs : List ℕ)
      → k ≤ len
      → len ≤ length xs
      → stream f port ≡ drop k xs
      → let (r, f', port') = payload_rest read (take k xs) f port (len - k) in
        (r ≡ Payload.got (take len xs)) × (stream f' port' ≡ drop len xs)
  unfolding payload_rest
  payload_rest_lem f port k len xs less long at = elim (Bool-cases (len - k == 0)) [
    | inl y ↦ let same : k ≡ len = ground (arith, y) in rw (y, ← same) (refl, at)
    | inr n ↦
        let (got, left) =
          read_exact_prefetched_lem f port (len - k)
            (omega (arith, ap (λ (l : List ℕ). length l) at, length-drop k xs)) in
        let whole : take k xs ++ take (len - k) (drop k xs) ≡ take len xs =
          take-take-drop k len xs less in
        let sum : k + (len - k) ≡ len = omega arith in
        rw (n, got, at, whole)
          (
            refl,
            left
                ∙ ap (λ l. drop (len - k) l) at
                ∙ drop-drop (len - k) k xs
                ∙ ap (λ j. drop j xs) sum,
          )
  ]
    where
      take-take-drop :
          (i n : ℕ) (ys : List ℕ) → i ≤ n → take i ys ++ take (n - i) (drop i ys) ≡ take n ys
      take-take-drop zero n ys h = ap (λ j. take j ys) (omega arith)
      take-take-drop (suc i) zero ys h = absurd (omega arith)
      take-take-drop (suc i) (suc n) [] h = take_all (suc n - suc i) [] (omega arith)
      take-take-drop (suc i) (suc n) (y ∷ ys) h =
          ap (λ l. y ∷ l)
            (ap (λ j. take i ys ++ take j (drop i ys)) {x = suc n - suc i} {y = n - i} (omega arith)
              ∙ take-take-drop i n ys (omega arith))

  -- A payload whose bytes are to come and that does not itself begin with the four bytes of a media or an init packet is read whole,
  -- and the stream goes on behind it. One that does is given up, and nothing of the stream is lost. The transport gives the bytes that
  -- are to come.
  pub read_gateway_payload_resync_lem :
      (f : Prefetch) (port : Port) (len : ℕ)
      → let xs = stream f port in
        len ≤ length xs
        → let (r, f', port') = read_gateway_payload_resync read f port len in
          (¬ (HasMagic (take (min len 16) (stream f port)))
            × (r ≡ Payload.got (take len (stream f port)))
            × (stream f' port' ≡ drop len (stream f port)))
          ⊎ (HasMagic (take (min len 16) (stream f port))
              × (r ≡ Payload.desync)
              × (stream f' port' ≡ stream f port))
  unfolding read_gateway_payload_resync
  read_gateway_payload_resync_lem f port len long =
      let xs = stream f port in
      let k = min len 16 in
      let r = read_exact_prefetched read f port k in
      let (got, left) = read_exact_prefetched_lem f port k (omega arith) in
      elim (Bool-cases (len == 0)) [
        | inl y ↦
            let none_asked : len ≡ 0 = ground (arith, y) in
            rw (y, none_asked) (inl ((λ m. absurd (omega (arith, m.0))), refl, refl))
        | inr n ↦ elim (starts_gateway_magic_cases (take k xs)) [
          | inl (magic, has) ↦
              let step : read_gateway_payload_resync read f port len
                  ≡ (Payload.desync, prepend_prefetch r.1 (take k xs), r.2) =
                ground (arith, n, got, magic) in
              rw step (
                inr (
                  has,
                  refl,
                  prepend-stream r.1 (take k xs) r.2
                      ∙ ap (λ l. take k xs ++ l) left
                      ∙ take-append-drop k xs,
                ))
          | inr (plain, without) ↦
              let step : read_gateway_payload_resync read f port len
                  ≡ payload_rest read (take k xs) r.1 r.2 (len - k) =
                ground (arith, n, got, plain) in
              let (out, rest) = payload_rest_lem r.1 r.2 k len xs (omega arith) long left in
              rw step (inl (without, out, rest))
        ]
      ]
