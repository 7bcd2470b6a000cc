-- ===== src/Upstream/Polls.antt =====
-- ameba_gateway/example_gateway_ameba.c: the state of the board's connection over a poll.
use carplay_poc.Usb.State.{Usb}
use carplay_poc.Upstream.Connect.{Lwip, Uplink}
use carplay_poc.Base.{
  List, Bool, not, ◌≡◌, ℕ, arith, true, ◌&&◌, inr, inl, Option, ◌==◌, Bool-cases, if_both, none,
  some,
}
use carplay_poc.Upstream.Poll.{PollAnswers, on_upstream_frame, upstream_poll, on_received}
use carplay_poc.Upstream.Sockets.{CountsSockets, upstream_recv_frame-Keeps}
use carplay_poc.Upstream.Link.{IsLinked, hang_up-IsLinked}
use carplay_poc.Upstream.Frames.{upstream_recv_frame}
use carplay_poc.Ws.{Frame}

module _ (xor : List ℕ → List ℕ → ℕ → List ℕ → List ℕ) {Json : Type 0}
    (get_item : Json → List ℕ → Option Json) (valuestring : Json → Option (List ℕ))
    (parse : List ℕ → Option Json) (base64_decode : List ℕ → Option (List ℕ)) {Net : Type 0}
    (lwip : Lwip Net) (c : CountsSockets lwip) (base : ℕ) where
  frame_lem :
      (a : PollAnswers) (opcode : ℕ) (payload : List ℕ) (u : Uplink Net) (usb : Usb)
      → u.conn.is_open ≡ true
      → IsLinked lwip c base u
      → IsLinked lwip c base
          (on_upstream_frame xor get_item valuestring parse base64_decode lwip a opcode payload u
            usb).0
  unfolding on_upstream_frame
  frame_lem a opcode payload u usb open' v =
      let P = λ (r : Uplink Net × Usb). IsLinked lwip c base r.0 in
      if_both P (opcode == 1) _ _ (ground arith) (
        if_both P (opcode == 2) _ _ (ground arith)
          (if_both P (opcode == 8) _ _ (hang_up-IsLinked lwip c base _ v.0) (ground arith)))

  received_lem :
      (a : PollAnswers) (frame : Option Frame) (u : Uplink Net) (usb : Usb)
      → u.conn.is_open ≡ true
      → IsLinked lwip c base u
      → IsLinked lwip c base
          (on_received xor get_item valuestring parse base64_decode lwip a frame u usb).0
  unfolding on_received
  received_lem a none u usb open' v = hang_up-IsLinked lwip c base _ v.0
  received_lem a (some f) u usb open' v = frame_lem a f.opcode f.payload u usb open' v

  -- A poll, whatever comes and whatever lwIP answers, keeps the state of the connection sound: it is held with its
  -- socket, or closed with it.
  pub upstream_poll-IsLinked :
      (fuel : ℕ) (allocated : ℕ → Bool) (a : PollAnswers) (u : Uplink Net) (usb : Usb)
      → IsLinked lwip c base u
      → IsLinked lwip c base
          (upstream_poll xor get_item valuestring parse base64_decode lwip fuel allocated a u usb).0
  unfolding upstream_poll
  upstream_poll-IsLinked fuel allocated a u usb v =
      let P = λ (r : Uplink Net × Usb). IsLinked lwip c base r.0 in
      let (frame, w) = upstream_recv_frame lwip.lwip_read fuel allocated u.conn.stream in
      let keeps = upstream_recv_frame-Keeps lwip c fuel allocated u.conn.stream in
      elim (Bool-cases (u.conn.connected && u.conn.is_open)) [
        | inr no' ↦ rw no' v
        | inl yes' ↦
            let open' : u.conn.is_open ≡ true = ground arith in
            let u' : Uplink Net = record u { conn = record u.conn { stream = w } } in
            let v' : IsLinked lwip c base u' = ground arith in
            rw yes' (if_both P (not a.is_readable) _ _ v (received_lem a frame u' usb open' v'))
      ]
