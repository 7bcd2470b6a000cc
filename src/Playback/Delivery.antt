-- ===== src/Playback/Delivery.antt =====
-- wsh264/app/wsh264.cpp and gateway_client/gateway_client.cpp: a large frame, from the server to the client.
use carplay_poc.Base.{
  ◌<◌, List, suc, ◌≢◌, ℕ, zero, ◌≤◌, ◌⊎◌, true, Status, ok, ◌^◌, false, [], refl, ◌*◌, ◌≡◌, ◌+◌,
  arith, ◌∷◌, replicate, length, u32,
}
use carplay_poc.Streamer.{App, video_payload_flags}
use carplay_poc.Playback.{VideoState}
use carplay_poc.Playback.Parts.{IsPartial}
use carplay_poc.Playback.Fragments.{reset_video_fragments, begin_frame, receive_video}
use carplay_poc.Streamer.Split.{fragments, IsTaking, send_fragments-fragments}
use carplay_poc.Streamer.Fragments.{
  fragment_data_size, fragment_count, send_fragments, send_video_media,
}
use carplay_poc.Playback.Frames.{receive-rest}

begin_frame-fresh :
    (s : VideoState) (flags count frame_id : ℕ)
    → (s.frag_active ≡ false) ⊎ (s.frag_frame_id ≢ frame_id)
    → IsPartial (begin_frame frame_id count flags s) flags count frame_id [] count
unfolding begin_frame reset_video_fragments
begin_frame-fresh s flags count frame_id other =
    let fresh : begin_frame frame_id count flags s ≡ record (reset_video_fragments s) {
      frag_active = true;
      frag_frame_id = frame_id;
      frag_flags = flags;
      frag_count = count;
      frag_parts = replicate count [];
    } =
      ground arith in
    rw fresh record {
      active = refl;
      same_id = refl;
      same_count = refl;
      same_flags = refl;
      received = refl;
      parts = refl;
      full = tt;
    }

receive-whole :
    (count : ℕ) (s : VideoState) (flags frame_id : ℕ) (payload : List ℕ) (flags₀ seq : ℕ)
    → 0 < length payload
    → count < 2 ^ 16
    → count * 16384 < length payload + 16384
    → length payload ≤ count * 16384
    → frame_id < 2 ^ 32
    → (s.frag_active ≡ false) ⊎ (s.frag_frame_id ≢ frame_id)
    → receive_video s flags₀ seq (fragments count 0 flags count frame_id payload)
      ≡ ((payload, flags) ∷ [], reset_video_fragments s)
receive-whole zero s flags frame_id payload flags₀ seq some_of small low high id_small other =
    absurd (omega arith)
receive-whole (suc left) s flags frame_id payload flags₀ seq some_of small low high id_small other =
    receive-rest left s flags (suc left) frame_id [] payload flags₀ seq
      (begin_frame-fresh s flags (suc left) frame_id other) (omega arith) small id_small
      (omega arith) (omega arith)

module _ {Conn : Type 0} (send : List ℕ → App Conn → Status × App Conn) where
  -- A frame of more than 16 KiB that the server sends over a connection that takes every packet comes out
  -- of the client's reassembly whole: once, with its flags, and with nothing kept behind it. The frame has
  -- at most 65535 fragments, there is memory for them, and the client is not in the middle of a frame
  -- with the same number.
  pub receive_video-send_video_media :
      (t : IsTaking send) (payload : List ℕ) (app : App Conn) (s : VideoState) (flags₀ seq : ℕ)
      → fragment_data_size < length payload
      → length payload ≤ 65535 * 16384
      → app.video_frame_id < 2 ^ 32
      → (s.frag_active ≡ false) ⊎ (s.frag_frame_id ≢ app.video_frame_id)
      → t.sent app.conn ≡ []
      → let (rc, app') = send_video_media send (λ i. true) payload app in
        (rc ≡ ok)
        × (receive_video s flags₀ seq (t.sent app'.conn)
            ≡ ((payload, video_payload_flags payload) ∷ [], reset_video_fragments s))
  unfolding send_video_media fragment_count
  receive_video-send_video_media t payload app s flags₀ seq large fits id_small other start =
      let count = fragment_count (length payload) in
      let flags = video_payload_flags payload in
      let app₁ = record app { video_frame_id = u32 (app.video_frame_id + 1) } in
      let step : send_video_media send (λ i. true) payload app
          ≡ send_fragments send (λ i. true) count 0 flags count app.video_frame_id payload app₁ =
        ground arith in
      let (fine, all) =
        send_fragments-fragments send t count 0 flags count app.video_frame_id payload app₁ in
      let whole =
        receive-whole count s flags app.video_frame_id payload flags₀ seq (omega arith)
          (omega arith) (omega arith) (omega arith) id_small other in
      rw (step, all, start) (fine, whole)
