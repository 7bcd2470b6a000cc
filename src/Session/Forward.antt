-- ===== src/Session/Forward.antt =====
-- gateway/gateway.c: what the client gets of the server's packets.
use carplay_poc.Base.{
  List, true, ◌++◌, Status, ◌^◌, ◌≡◌, ◌<◌, ok, ap, arith, some, refl, ◌∙◌, ℕ, ◌≤◌, ◌+◌, ◌==◌,
  if◌then◌else◌, length, IsBytes, append-nil, false, sym, [], if_both, take, take_all, u32, ap₂,
}
use carplay_poc.Crypto.{encrypt_packet, is_negative, Opened, decrypt_packet}
use carplay_poc.Media.{video_flags}
use carplay_poc.Session.{SessionNonce}
use carplay_poc.Proto.{MediaInfo, write_media_header, read_media_header}
use carplay_poc.Session.Relay.{go_on, write_media, on_binary, After}
use carplay_poc.Crypto.Cipher.{IsStreamCipher}
use carplay_poc.Proto.RoundTrip.{read_media_header-write}
use carplay_poc.Crypto.Packet.{decrypt_packet-encrypt_packet}
use carplay_poc.Media.Flags.{video_flags-lt}

-- What is relied on in the client's connection: it takes all that is written.
pub record IsWriting {Net : Type 0} (write : Net → List ℕ → Status × Net) : Type 0 where
  pub written : Net → List ℕ
  pub writes :
      (net : Net) (bs : List ℕ)
      → let (rc, net') = write net bs in (rc ≡ ok) × (written net' ≡ written net ++ bs)

pub some_inj : (a b : List ℕ) → some a ≡ some b → a ≡ b
some_inj a b e = ground (arith, e)

module _ {Net : Type 0} (write : Net → List ℕ → Status × Net) (w : IsWriting write) where
  write_media-written :
      (info : MediaInfo) (header plain : List ℕ) (net : Net)
      → write_media_header (some info) ≡ some header
      → let (after, net') = write_media write info plain net in
        (after ≡ go_on) × (w.written net' ≡ w.written net ++ header ++ plain)
  unfolding write_media
  write_media-written info header plain net e =
      let (fine, one) = w.writes net header in
      let net₁ = (write net header).1 in
      let (fine₂, two) = w.writes net₁ plain in
      let step : write_media write info plain net ≡ (go_on, (write net₁ plain).1) =
        ground (arith, e, fine, fine₂) in
      rw step (refl, two ∙ ap (λ l. l ++ plain) one)

  on_binary_step :
      (xor : List ℕ → List ℕ → ℕ → List ℕ → List ℕ) (plain packet : List ℕ) (s : SessionNonce)
      (net : Net) (o : Opened)
      → s.have_nonce ≡ true
      → decrypt_packet xor (some (length packet)) (some s.session_nonce) (some packet)
        ≡ (length plain, some o)
      → take (length plain) o.plaintext ≡ plain
      → u32 (length plain) ≡ length plain
      → is_negative (length plain) ≡ false
      → on_binary write xor true packet s net
        ≡ write_media write
            (record {
              stream_id = o.stream_id;
              flags = if o.stream_id == 1 then video_flags plain else 0;
              seq_no = o.seq_no;
              payload_len = length plain;
            })
            plain
            net
  unfolding on_binary
  on_binary_step xor plain packet s net o have opened whole fits positive =
      let sent : List ℕ → ℕ → After × Net = λ bs n.
        write_media write
          (record {
            stream_id = o.stream_id;
            flags = if o.stream_id == 1 then video_flags bs else 0;
            seq_no = o.seq_no;
            payload_len = n;
          })
          bs net in
      rw (have, opened, positive) (rw opened (ap₂ sent whole fits))

  -- A packet that the server encrypted under the session's nonce reaches the client as a header and the
  -- plaintext: the header, of sixteen bytes, is read back as the packet's stream, sequence number and
  -- length, with the flags of the plaintext. The plaintext is bytes, below 2 GiB with the packet's
  -- header, there is memory, and `chacha20_xor` is a stream cipher.
  pub on_binary-encrypt_packet :
      (xor : List ℕ → List ℕ → ℕ → List ℕ → List ℕ) (room stream seq : ℕ) (plain packet : List ℕ)
      (s : SessionNonce) (net : Net)
      → IsStreamCipher xor
      → IsBytes plain
      → stream < 2 ^ 8
      → seq < 2 ^ 32
      → 8 + length plain < 2 ^ 31
      → 8 + length plain ≤ room
      → s.have_nonce ≡ true
      → (encrypt_packet xor (some room) stream seq (some s.session_nonce) (some plain)).1
        ≡ some packet
      → let (after, net') = on_binary write xor true packet s net in
        (header : List ℕ) × (after ≡ go_on)
        × (w.written net' ≡ w.written net ++ header ++ plain)
        × (length header ≡ 16)
        × (read_media_header (some header)
            ≡ some (record {
              stream_id = stream;
              flags = if stream == 1 then video_flags plain else 0;
              seq_no = seq;
              payload_len = length plain;
            }))
  unfolding on_binary
  on_binary-encrypt_packet xor room stream seq plain packet s net c hb hs hq short fits have e =
      let (p, enc, len, opened) =
        decrypt_packet-encrypt_packet xor room (8 + length plain) stream seq s.session_nonce plain c
          hb hs hq short fits (omega arith) in
      let same : p ≡ packet = some_inj p packet (ground (arith, e, enc)) in
      let info : MediaInfo = record {
        stream_id = stream;
        flags = if stream == 1 then video_flags plain else 0;
        seq_no = seq;
        payload_len = length plain;
      } in
      let (header, wrote, size, read) = read_media_header-write info [] record {
        stream_fits = hs;
        flags_fit =
            if_both (λ n. n < 2 ^ 8) (stream == 1) (video_flags plain) 0 (video_flags-lt plain hb)
              (omega arith);
        seq_fits = hq;
        len_fits = omega arith;
      } in
      let o : Opened = record { stream_id = stream; seq_no = seq; plaintext = plain } in
      let len' : length packet ≡ 8 + length plain = rw (← same) len in
      let opened' : decrypt_packet xor (some (length packet)) (some s.session_nonce) (some packet)
          ≡ (length plain, some o) =
        rw (len', ← same) opened in
      let whole = take_all (length plain) plain (omega arith) in
      let fits32 : u32 (length plain) ≡ length plain = omega arith in
      let positive : is_negative (length plain) ≡ false = ground arith in
      let step : on_binary write xor true packet s net ≡ write_media write info plain net =
        on_binary_step xor plain packet s net o have opened' whole fits32 positive in
      let (fine, sent) = write_media-written info header plain net wrote in
      (
        header,
        rw step fine,
        rw step sent,
        size,
        ap (λ l. read_media_header (some l)) (sym (append-nil header)) ∙ read,
      )
