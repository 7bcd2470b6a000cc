-- ===== src/Playback/Parts.antt =====
-- gateway_client/gateway_client.cpp: the parts of a frame that have come, in order.
use carplay_poc.Base.{
  ℕ, suc, ◌+◌, ◌<◌, ◌≡◌, ◌∙◌, sym, ap, refl, arith, true, some, List, [], ◌∷◌, ◌++◌, append_assoc,
  append-nil, length, get_or, All, replicate,
}
use carplay_poc.Playback.{VideoState}
use carplay_poc.Playback.Fragments.{
  put_part, assemble, begin_frame, store_part, reset_video_fragments,
}

abbrev pub join : List (List ℕ) → List ℕ
join [] = []
join (p ∷ ps) = p ++ join ps

-- No part is empty.
abbrev pub IsFull : List (List ℕ) → Type 0
IsFull parts = All (λ (p : List ℕ). 0 < length p) parts

-- `came` are the parts of the frame that have come, and `left` are to come.
pub record IsPartial (s : VideoState) (flags count frame_id : ℕ) (came : List (List ℕ)) (left : ℕ)
    : Type 0 where
  pub active : s.frag_active ≡ true
  pub same_id : s.frag_frame_id ≡ frame_id
  pub same_count : s.frag_count ≡ count
  pub same_flags : s.frag_flags ≡ flags
  pub received : s.frag_received ≡ length came
  pub parts : s.frag_parts ≡ came ++ replicate left []
  pub full : IsFull came

pub join-snoc : (ps : List (List ℕ)) (p : List ℕ) → join (ps ++ p ∷ []) ≡ join ps ++ p
join-snoc [] p = append-nil p
join-snoc (q ∷ ps) p = ap (λ l. q ++ l) (join-snoc ps p) ∙ sym (append_assoc q (join ps) p)

pub IsFull-snoc :
    (ps : List (List ℕ)) (p : List ℕ) → IsFull ps → 0 < length p → IsFull (ps ++ p ∷ [])
IsFull-snoc [] p f h = (h, tt)
IsFull-snoc (q ∷ ps) p f h = (f.0, IsFull-snoc ps p f.1 h)

pub length-snoc : (ps : List (List ℕ)) (p : List ℕ) → length (ps ++ p ∷ []) ≡ length ps + 1
length-snoc [] p = refl
length-snoc (q ∷ ps) p = omega (arith, length-snoc ps p)

pub assemble-join : (ps : List (List ℕ)) → IsFull ps → assemble (length ps) ps ≡ some (join ps)
unfolding assemble
assemble-join [] f = refl
assemble-join ([] ∷ ps) f = absurd (omega (arith, f.0))
assemble-join ((b ∷ bs) ∷ ps) f = rw (assemble-join ps f.1) refl

pub put_part-next :
    (ps : List (List ℕ)) (p : List ℕ) (left : ℕ)
    → put_part (length ps) p (ps ++ replicate (suc left) []) ≡ (ps ++ p ∷ []) ++ replicate left []
unfolding replicate
put_part-next [] p left = refl
put_part-next (q ∷ ps) p left = ap (λ l. q ∷ l) (put_part-next ps p left)

pub get_or-next :
    (ps : List (List ℕ)) (left : ℕ) → get_or (ps ++ replicate (suc left) []) (length ps) [] ≡ []
unfolding replicate
get_or-next [] left = refl
get_or-next (q ∷ ps) left = get_or-next ps left

-- The next part is kept behind the others.
pub store_part-IsPartial :
    (s : VideoState) (flags count frame_id : ℕ) (came : List (List ℕ)) (left : ℕ) (p : List ℕ)
    (seq : ℕ)
    → IsPartial s flags count frame_id came (suc left)
    → 0 < length p
    → IsPartial (store_part (length came) p seq s) flags count frame_id (came ++ p ∷ []) left
unfolding store_part
store_part-IsPartial s flags count frame_id came left p seq v h =
    let none_yet : get_or s.frag_parts (length came) [] ≡ [] = rw v.parts (get_or-next came left) in
    rw none_yet record {
      active = v.active;
      same_id = v.same_id;
      same_count = v.same_count;
      same_flags = v.same_flags;
      received = omega (arith, v.received, length-snoc came p);
      parts = rw v.parts (put_part-next came p left);
      full = IsFull-snoc came p v.full h;
    }

pub reset-store_part :
    (i : ℕ) (p : List ℕ) (seq : ℕ) (s : VideoState)
    → reset_video_fragments (store_part i p seq s) ≡ reset_video_fragments s
unfolding store_part reset_video_fragments
reset-store_part i p seq s = ground arith

pub reset-begin_frame :
    (frame_id count flags : ℕ) (s : VideoState)
    → reset_video_fragments (begin_frame frame_id count flags s) ≡ reset_video_fragments s
unfolding begin_frame reset_video_fragments
reset-begin_frame frame_id count flags s = ground arith
