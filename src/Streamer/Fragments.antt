-- ===== src/Streamer/Fragments.antt =====
-- wsh264/app/wsh264.cpp: a large video frame sent as fragments.
use carplay_poc.Base.{
  ℕ, zero, suc, ◌+◌, ◌-◌, ◌/◌, Bool, not, List, [], ◌∷◌, ◌++◌, ◌==◌, leb, if◌then◌else◌, length,
  take, drop, Status, ok, failed, u16, u32,
}
use carplay_poc.Streamer.{App, write_u16le, write_u32le, video_payload_flags}

abbrev pub fragment_data_size : ℕ
fragment_data_size = 16384

abbrev pub fragment_header_size : ℕ
fragment_header_size = 16

-- a fragment as it is sent
unfoldable pub fragment : ℕ → ℕ → ℕ → ℕ → List ℕ → List ℕ
unfolding write_u16le write_u32le
fragment flags frag_index frag_count frame_id part =
    (b'V' ∷ b'F' ∷ b'G' ∷ b'1' ∷ flags ∷ 0 ∷ [])
    ++ write_u16le frag_index
    ++ write_u16le frag_count
    ++ write_u16le 0
    ++ write_u32le frame_id
    ++ part

unfoldable pub fragment_count : ℕ → ℕ
fragment_count payload_len = u16 ((payload_len + fragment_data_size - 1) / fragment_data_size)

module _ {Conn : Type 0} (send : List ℕ → App Conn → Status × App Conn) (allocated : ℕ → Bool) where
  -- the loop over the fragments that are left, from an index on; `allocated` says for which of them there
  -- is memory
  unfoldable pub send_fragments : ℕ → ℕ → ℕ → ℕ → ℕ → List ℕ → App Conn → Status × App Conn
  unfolding fragment
  send_fragments zero frag_index flags frag_count frame_id rest app = (ok, app)
  send_fragments (suc left) frag_index flags frag_count frame_id rest app =
      if not (allocated frag_index)
      then (failed, app)
      else let (rc, app') =
          send (fragment flags frag_index frag_count frame_id (take fragment_data_size rest)) app in
        elim rc [
          | failed ↦ (failed, app')
          | ok ↦
              send_fragments left (frag_index + 1) flags frag_count frame_id
                (drop fragment_data_size rest) app'
        ]

  -- `send_video_media`, where `send` sends one packet of the video stream
  unfoldable pub send_video_media : List ℕ → App Conn → Status × App Conn
  unfolding fragment_count send_fragments video_payload_flags
  send_video_media payload app =
      if length payload == 0
      then (failed, app)
      else if leb (length payload) fragment_data_size
      then send payload app
      else let frag_count = fragment_count (length payload) in
        send_fragments frag_count 0 (video_payload_flags payload) frag_count app.video_frame_id
          payload (record app { video_frame_id = u32 (app.video_frame_id + 1) })
