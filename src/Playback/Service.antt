-- ===== src/Playback/Service.antt =====
-- gateway_client/gateway_client.cpp: sound goes to SDL in order.
use carplay_poc.Base.{
  append_assoc, sym, ℕ, not, ◌<◌, ◌∷◌, Bool, ◌++◌, false, append-nil, true, ◌∙◌, ap, arith, refl,
  List, ◌≡◌, [], ◌^◌, ◌&&◌, ltb, leb, if◌then◌else◌, if_both, length, sub64, add64, inl, ◌+◌, inr,
  ◌==◌, Bool-cases, u32,
}
use carplay_poc.Playback.Sound.{total}
use carplay_poc.Playback.Audio.{Player, note_feed, note_levels, service_loop, service_audio_output}
use carplay_poc.Playback.Parts.{join}

-- What the client relies on in SDL: a packet that is queued is played after those before it, and is not
-- refused; letting the device run plays nothing by itself.
pub record IsPlaying {Sdl : Type 0} (unpause : Sdl → Sdl) (queue_audio : Sdl → List ℕ → Bool × Sdl)
    : Type 0 where
  pub played : Sdl → List ℕ
  pub unpaused : (sdl : Sdl) → played (unpause sdl) ≡ played sdl
  pub queued :
      (sdl : Sdl) (packet : List ℕ)
      → let (accepted, sdl') = queue_audio sdl packet in
        (accepted ≡ true) × (played sdl' ≡ played sdl ++ packet)

module _ {Sdl : Type 0} (unpause : Sdl → Sdl) (queue_audio : Sdl → List ℕ → Bool × Sdl) where
  -- `fed` has been played and `kept` is left.
  pub record IsFed (s : IsPlaying unpause queue_audio) (queue : List (List ℕ)) (p : Player)
      (before : List ℕ) (r : Player × Sdl) : Type 0 where
    pub fed : List (List ℕ)
    pub in_order : queue ≡ fed ++ r.0.queue
    pub counted : r.0.queued_bytes ≡ total r.0.queue
    pub same_limit : r.0.max_buffer_bytes ≡ p.max_buffer_bytes
    pub heard : s.played r.1 ≡ before ++ join fed

  unpaused_or_not :
      (s : IsPlaying unpause queue_audio) (b : Bool) (sdl : Sdl)
      → s.played (if b then sdl else unpause sdl) ≡ s.played sdl
  unpaused_or_not s true sdl = refl
  unpaused_or_not s false sdl = s.unpaused sdl

  no_bytes : (q : List ℕ) → length q ≡ 0 → q ≡ []
  no_bytes [] h = refl
  no_bytes (b ∷ bs) h = absurd (omega arith)

  -- One packet more was fed.
  IsFed-cons :
      (s : IsPlaying unpause queue_audio) (q : List ℕ) (queue : List (List ℕ)) (p p₁ : Player)
      (before before₁ : List ℕ) (r : Player × Sdl)
      → before₁ ≡ before ++ q
      → p₁.max_buffer_bytes ≡ p.max_buffer_bytes
      → IsFed s queue p₁ before₁ r
      → IsFed s (q ∷ queue) p before r
  IsFed-cons s q queue p p₁ before before₁ r e limit f = record {
    fed = q ∷ f.fed;
    in_order = ap (λ l. q ∷ l) f.in_order;
    counted = f.counted;
    same_limit = f.same_limit ∙ limit;
    heard = f.heard ∙ ap (λ l. l ++ join f.fed) e ∙ append_assoc before q (join f.fed);
  }

  service_loop_lem :
      (s : IsPlaying unpause queue_audio) (queue : List (List ℕ)) (sdl_queued : ℕ) (p : Player)
      (sdl : Sdl)
      → p.queue ≡ queue
      → p.queued_bytes ≡ total queue
      → total queue < 2 ^ 63
      → IsFed s queue p (s.played sdl) (service_loop unpause queue_audio queue sdl_queued p sdl)
  unfolding service_loop note_levels note_feed
  service_loop_lem s [] sdl_queued p sdl same e small =
      if_both (IsFed s [] p (s.played sdl))
        (not p.started && ltb (add64 sdl_queued p.queued_bytes) p.prebuffer_bytes) _ _
        record {
          fed = [];
          in_order = sym same;
          counted = rw same e;
          same_limit = refl;
          heard = sym (append-nil (s.played sdl));
        }
        record {
          fed = [];
          in_order = sym same;
          counted = rw same e;
          same_limit = refl;
          heard = sym (append-nil (s.played sdl));
        }
  service_loop_lem s (q ∷ queue) sdl_queued p sdl same e small =
      let still : IsFed s (q ∷ queue) p (s.played sdl) (p, sdl) = record {
        fed = [];
        in_order = sym same;
        counted = rw same e;
        same_limit = refl;
        heard = sym (append-nil (s.played sdl));
      } in
      let taken = record p {
        started = true;
        queue = queue;
        queued_bytes = sub64 p.queued_bytes (length q);
      } in
      let fed = record taken {
        audio_feed_packets = add64 p.audio_feed_packets 1;
        telemetry = note_feed p.telemetry;
      } in
      let sdl₁ = if p.started then sdl else unpause sdl in
      let (accepted, took) = s.queued sdl₁ q in
      let sdl₂ = (queue_audio sdl₁ q).1 in
      let heard₁ = unpaused_or_not s p.started sdl in
      if_both (IsFed s (q ∷ queue) p (s.played sdl))
        (not p.started && ltb (add64 sdl_queued p.queued_bytes) p.prebuffer_bytes) _ _ still
        (if_both (IsFed s (q ∷ queue) p (s.played sdl)) (leb p.target_bytes sdl_queued) _ _
          record {
            fed = [];
            in_order = sym same;
            counted = rw same e;
            same_limit = refl;
            heard = sym (append-nil (s.played sdl));
          }
          (elim (Bool-cases (length q == 0)) [
            | inl y ↦
                let none_in : q ≡ [] = no_bytes q (ground (arith, y)) in
                rw y (
                  IsFed-cons s q queue p taken (s.played sdl) (s.played sdl₁)
                    (service_loop unpause queue_audio queue sdl_queued taken sdl₁)
                    (heard₁
                      ∙ sym (append-nil (s.played sdl))
                      ∙ ap (λ l. s.played sdl ++ l) (sym none_in))
                    refl
                    (service_loop_lem s queue sdl_queued taken sdl₁ refl (omega (arith, e))
                      (omega arith)))
            | inr n ↦
                let next = u32 (sdl_queued + length q) in
                rw (n, accepted)
                  (IsFed-cons s q queue p fed (s.played sdl) (s.played sdl₂)
                    (service_loop unpause queue_audio queue next fed sdl₂)
                    (took ∙ ap (λ l. l ++ q) heard₁) refl
                    (service_loop_lem s queue next fed sdl₂ refl (omega (arith, e)) (omega arith)))
          ]))

  -- Feeding the audio device plays packets from the front of the queue, whole, in order and once each, and
  -- leaves the others, with their byte count; the packets together are below 2^63 bytes, and SDL plays what
  -- it is given.
  pub service_audio_output_lem :
      (s : IsPlaying unpause queue_audio) (sdl_queued : ℕ) (p : Player) (sdl : Sdl)
      → p.queued_bytes ≡ total p.queue
      → total p.queue < 2 ^ 63
      → IsFed s p.queue p (s.played sdl) (service_audio_output unpause queue_audio sdl_queued p sdl)
  unfolding service_audio_output
  service_audio_output_lem s sdl_queued p sdl e small =
      service_loop_lem s p.queue sdl_queued p sdl refl e small
