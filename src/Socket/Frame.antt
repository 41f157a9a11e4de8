-- ===== src/Socket/Frame.antt =====
-- What `update` of tokio_kcp/src/skcp.rs leaves alone: the time of the last use and the flag.
use kcp_scream_testspace.Common.{ℕ, ◌≡◌, refl, ◌∙◌, Bool, Option, none, some, List, arith, if_rule}
use kcp_scream_testspace.Kcp.State.{Kcp, Result, ok, err, panic, Write}
use kcp_scream_testspace.Kcp.Flush.{Flushed}
use kcp_scream_testspace.Kcp.Clock.{update}
use kcp_scream_testspace.Scream.Floats.{Float}
use kcp_scream_testspace.Scream.State.{Scream}
use kcp_scream_testspace.Scream.Feedback.{create_feedback_packet}
use kcp_scream_testspace.Socket.{
  Socket, can_send, can_recv, and_socket, flushed, flush_kcp, socket_flush, process_flush_result,
  wake_sender, wake_receiver, try_wake_pending_waker,
}
use kcp_scream_testspace.Socket.Update.{
  send_feedback, report_feedback, finish_round_trip, resize_window, publish_rates, finish_update,
  socket_update,
}

module _ {O F W : Type 0} where
  abbrev pub SameUse : Socket O F W → Socket O F W → Type 0
  SameUse s s' = (s'.last_update ≡ s.last_update) × (s'.closed ≡ s.closed)

  wake_sender-SameUse : (o : Option W) (s : Socket O F W) → SameUse s (wake_sender o s).1
  wake_sender-SameUse none s = (refl, refl)
  wake_sender-SameUse (some w) s =
      if_rule (λ (r : Bool × Socket O F W). SameUse s r.1) (can_send s.kcp) (refl, refl)
        (refl, refl)

  wake_receiver-SameUse : (o : Option W) (s : Socket O F W) → SameUse s (wake_receiver o s).1
  wake_receiver-SameUse none s = (refl, refl)
  wake_receiver-SameUse (some w) s =
      if_rule (λ (r : Bool × Socket O F W). SameUse s r.1) (can_recv s) (refl, refl) (refl, refl)

  try_wake-SameUse : (s : Socket O F W) → SameUse s (try_wake_pending_waker s).1
  unfolding try_wake_pending_waker
  try_wake-SameUse s =
      let s1 = (wake_sender s.pending_sender s).1 in
      let a = wake_sender-SameUse s.pending_sender s in
      let b = wake_receiver-SameUse s1.pending_receiver s1 in (b.0 ∙ a.0, b.1 ∙ a.1)

module _ {O F W : Type 0} ⦃w : Write O⦄ ⦃f : Float F⦄ where
  flushed-SameUse :
      (now : ℕ) (r : Result Flushed × Kcp O) (s : Socket O F W) → SameUse s (flushed now r s).1
  unfolding process_flush_result
  flushed-SameUse now (ok _, c) s = (refl, refl)
  flushed-SameUse now (err e, c) s = (refl, refl)
  flushed-SameUse now (panic, c) s = (refl, refl)

  send_feedback-SameUse :
      (r : Option (List ℕ) × Scream F) (s : Socket O F W) → SameUse s (send_feedback r s)
  send_feedback-SameUse (none, c) s = (refl, refl)
  send_feedback-SameUse (some bytes, c) s = (refl, refl)

  report_feedback-SameUse : (now : ℕ) (s : Socket O F W) → SameUse s (report_feedback now s)
  unfolding report_feedback
  report_feedback-SameUse now s =
      if_rule (λ (t : Socket O F W). SameUse s t) _
        (send_feedback-SameUse (create_feedback_packet now s.scream) s) (refl, refl)

  finish_round_trip-SameUse : (now : ℕ) (s : Socket O F W) → SameUse s (finish_round_trip now s)
  unfolding finish_round_trip
  finish_round_trip-SameUse now s = ground arith

  resize_window-SameUse : (s : Socket O F W) → SameUse s (resize_window s)
  unfolding resize_window
  resize_window-SameUse s = ground arith

  publish_rates-SameUse : (s : Socket O F W) → SameUse s (publish_rates s)
  unfolding publish_rates
  publish_rates-SameUse s = (refl, refl)

  finish_update-SameUse :
      (ms now : ℕ) (r : Result (Unit {0}) × Socket O F W) → SameUse r.1 (finish_update ms now r).1
  finish_update-SameUse ms now (ok _, s) =
      let s1 = report_feedback now s in
      let s2 = finish_round_trip now s1 in
      let s3 = resize_window s2 in
      let s4 = publish_rates s3 in
      let a = report_feedback-SameUse now s in
      let b = finish_round_trip-SameUse now s1 in
      let c = resize_window-SameUse s2 in
      let d = publish_rates-SameUse s3 in
      let e = try_wake-SameUse s4 in
      (e.0 ∙ (d.0 ∙ (c.0 ∙ (b.0 ∙ a.0))), e.1 ∙ (d.1 ∙ (c.1 ∙ (b.1 ∙ a.1))))
  finish_update-SameUse ms now (err e, s) = (refl, refl)
  finish_update-SameUse ms now (panic, s) = (refl, refl)

  pub socket_update-SameUse : (ms now : ℕ) (s : Socket O F W) → SameUse s (socket_update ms now s).1
  unfolding socket_update
  socket_update-SameUse ms now s =
      let s1 = flushed now (update ms s.kcp) s in
      let a = flushed-SameUse now (update ms s.kcp) s in
      let b = finish_update-SameUse ms now s1 in (b.0 ∙ a.0, b.1 ∙ a.1)

  used_now :
      (now : ℕ) (r : Result (Unit {0}) × Socket O F W)
      → let next = and_socket r (λ _ s. (ok tt, record s { last_update = now })) in
        next.0 ≡ ok tt → next.1.last_update ≡ now
  used_now now (ok _, s) e = refl
  used_now now (err x, s) e = cc
  used_now now (panic, s) e = cc

  -- A flush that returns `Ok` counts as a use of the socket.
  pub socket_flush-used :
      (now : ℕ) (s : Socket O F W)
      → (socket_flush now s).0 ≡ ok tt
      → (socket_flush now s).1.last_update ≡ now
  unfolding socket_flush
  socket_flush-used now s e = used_now now (flush_kcp now s) e
