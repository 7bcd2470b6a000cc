-- ===== src/Playback/Frames.antt =====
-- gateway_client/gateway_client.cpp and wsh264/app/wsh264.cpp: a frame that was split comes out whole.
use carplay_poc.Playback.{VideoState}
use carplay_poc.Playback.Reassembly.{reassemble-fragment}
use carplay_poc.Base.{
  ◌++◌, ℕ, arith, some, ◌^◌, ◌≤◌, ◌∷◌, suc, ◌∙◌, ◌<◌, ap, ◌≡◌, append_assoc, ◌*◌, ◌+◌, [], List,
  false, true, zero, append-nil, replicate, length, take, drop, length-take, length-drop,
  take-append-drop, take_all, u32,
}
use carplay_poc.Playback.Parts.{
  join, IsFull, IsPartial, join-snoc, length-snoc, assemble-join, store_part-IsPartial,
  reset-store_part, reset-begin_frame,
}
use carplay_poc.Playback.Fragments.{
  reset_video_fragments, assemble, begin_frame, store_part, finish_frame, receive_video,
}
use carplay_poc.Streamer.Split.{fragments}
use carplay_poc.Streamer.Fragments.{fragment_data_size, fragment}

finish_frame-more :
    (p : List ℕ) (flags : ℕ) (s : VideoState)
    → s.frag_received < s.frag_count
    → finish_frame p flags s ≡ record { complete = false; payload = p; flags = flags; state = s }
unfolding finish_frame
finish_frame-more p flags s h = ground arith

finish_frame-last :
    (p whole : List ℕ) (flags f : ℕ) (s : VideoState)
    → s.frag_received ≡ s.frag_count
    → assemble s.frag_count s.frag_parts ≡ some whole
    → s.frag_flags ≡ f
    → finish_frame p flags s
      ≡ record { complete = true; payload = whole; flags = f; state = reset_video_fragments s }
unfolding finish_frame
finish_frame-last p whole flags f s e a k = rw (e, a) (ground (arith, k))

begin_frame-same :
    (s : VideoState) (flags count frame_id : ℕ) (came : List (List ℕ)) (left : ℕ)
    → IsPartial s flags count frame_id came left
    → begin_frame frame_id count flags s ≡ s
unfolding begin_frame
begin_frame-same s flags count frame_id came left v =
    rw (v.active, v.same_id, v.same_count) (ground arith)

assemble-all :
    (ps : List (List ℕ)) → IsFull ps → assemble (length ps) (ps ++ replicate 0 []) ≡ some (join ps)
unfolding replicate
assemble-all ps f = rw (append-nil ps) (assemble-join ps f)

-- The fragments from the next one on.
pub receive-rest :
    (left : ℕ) (s : VideoState) (flags count frame_id : ℕ) (came : List (List ℕ)) (rest : List ℕ)
    (flags₀ seq : ℕ)
    → IsPartial (begin_frame frame_id count flags s) flags count frame_id came (suc left)
    → length came + suc left ≡ count
    → count < 2 ^ 16
    → frame_id < 2 ^ 32
    → left * 16384 < length rest
    → length rest ≤ left * 16384 + 16384
    → receive_video s flags₀ seq (fragments (suc left) (length came) flags count frame_id rest)
      ≡ ((join came ++ rest, flags) ∷ [], reset_video_fragments s)
unfolding receive_video
receive-rest zero s flags count frame_id came rest flags₀ seq v sum small id_small low high =
    let part = take fragment_data_size rest in
    let b = begin_frame frame_id count flags s in
    let s' = store_part (length came) part seq b in
    let v' =
      store_part-IsPartial b flags count frame_id came 0 part seq v
        (omega (arith, length-take fragment_data_size rest)) in
    let whole : join (came ++ part ∷ []) ≡ join came ++ rest =
      join-snoc came part
      ∙ ap (λ l. join came ++ l) (take_all fragment_data_size rest (omega arith)) in
    let count' : s'.frag_count ≡ length (came ++ part ∷ []) =
      omega (arith, v'.same_count, length-snoc came part) in
    let asm : assemble s'.frag_count s'.frag_parts ≡ some (join came ++ rest) =
      rw (count', v'.parts) (rw (← whole) (assemble-all (came ++ part ∷ []) v'.full)) in
    rw
      (
        reassemble-fragment s flags (length came) count frame_id part flags₀ seq (omega arith) small
            id_small,
        finish_frame-last (fragment flags (length came) count frame_id part) (join came ++ rest)
            flags flags s' (omega (arith, v'.received, count')) asm v'.same_flags,
      )
      (ap (λ (t : VideoState). ((join came ++ rest, flags) ∷ [], t))
        (reset-store_part (length came) part seq b ∙ reset-begin_frame frame_id count flags s))
receive-rest (suc left) s flags count frame_id came rest flags₀ seq v sum small id_small low high =
    let part = take fragment_data_size rest in
    let rest' = drop fragment_data_size rest in
    let b = begin_frame frame_id count flags s in
    let s' = store_part (length came) part seq b in
    let came' = came ++ part ∷ [] in
    let v' =
      store_part-IsPartial b flags count frame_id came (suc left) part seq v
        (omega (arith, length-take fragment_data_size rest)) in
    let size = length-drop fragment_data_size rest in
    let next =
      receive-rest left s' flags count frame_id came' rest' flags₀ (u32 (seq + 1))
        (rw (begin_frame-same s' flags count frame_id came' (suc left) v') v')
        (omega (arith, length-snoc came part)) small id_small (omega (arith, size))
        (omega (arith, size)) in
    let here : length came + 1 ≡ length came' = omega (arith, length-snoc came part) in
    let whole : join came' ++ rest' ≡ join came ++ rest =
      ap (λ l. l ++ rest') (join-snoc came part)
      ∙ append_assoc (join came) part rest'
      ∙ ap (λ l. join came ++ l) (take-append-drop fragment_data_size rest) in
    rw
      (
        reassemble-fragment s flags (length came) count frame_id part flags₀ seq (omega arith) small
            id_small,
        finish_frame-more (fragment flags (length came) count frame_id part) flags s'
            (omega (arith, v'.received, v'.same_count, length-snoc came part)),
        here,
        next,
        whole,
      )
      (ap (λ (t : VideoState). ((join came ++ rest, flags) ∷ [], t))
        (reset-store_part (length came) part seq b ∙ reset-begin_frame frame_id count flags s))
