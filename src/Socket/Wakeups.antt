-- ===== src/Socket/Wakeups.antt =====
-- The wakers of tokio_kcp/src/skcp.rs: which task sleeps, and when it is woken.
use kcp_scream_testspace.Common.{
  ℕ, ◌-◌, ◌*◌, ◌<◌, ◌≡◌, refl, ◌∙◌, subst, true, false, Option, none, some, List, [], arith,
  if_rule, lt→ltb, ltb, leb, ◌∷◌, length, IsU32,
}
use kcp_scream_testspace.Kcp.State.{Kcp, Result, ok, err, panic, Write}
use kcp_scream_testspace.Kcp.Segment.{KcpSegment}
use kcp_scream_testspace.Kcp.Receive.{peeksize}
use kcp_scream_testspace.Kcp.Receive.Message.{recv_empty}
use kcp_scream_testspace.Kcp.Flush.{Flushed}
use kcp_scream_testspace.Kcp.Clock.{update}
use kcp_scream_testspace.Scream.Floats.{Float}
use kcp_scream_testspace.Scream.State.{Scream}
use kcp_scream_testspace.Scream.Feedback.{create_feedback_packet}
use kcp_scream_testspace.Socket.{
  Socket, Wakers, pending, can_send, can_recv, flushed, process_flush_result,
  try_wake_pending_waker,
}
use kcp_scream_testspace.Socket.Send.{park_sender, park_receiver, poll_recv, poll_send}
use kcp_scream_testspace.Socket.Update.{
  send_feedback, report_feedback, finish_round_trip, resize_window, publish_rates, finish_update,
  socket_update, millisecond,
}
use kcp_scream_testspace.Socket.Waiting.{Wakes, tasks, try_wake_pending_waker-Wakes}

module _ {O F W : Type 0} ⦃w : Write O⦄ ⦃f : Float F⦄ where
  send_feedback-tasks :
      (r : Option (List ℕ) × Scream F) (s : Socket O F W) → tasks (send_feedback r s) ≡ tasks s
  send_feedback-tasks (none, c) s = refl
  send_feedback-tasks (some bytes, c) s = refl

  flushed-tasks :
      (now : ℕ) (r : Result Flushed × Kcp O) (s : Socket O F W)
      → tasks (flushed now r s).1 ≡ tasks s
  unfolding process_flush_result
  flushed-tasks now (ok _, c) s = refl
  flushed-tasks now (err e, c) s = refl
  flushed-tasks now (panic, c) s = refl

  report_feedback-tasks : (now : ℕ) (s : Socket O F W) → tasks (report_feedback now s) ≡ tasks s
  unfolding report_feedback
  report_feedback-tasks now s =
      if_rule (λ (t : Socket O F W). tasks t ≡ tasks s)
        (leb (10 * millisecond) (now - s.scream.last_feedback_time))
        (send_feedback-tasks (create_feedback_packet now s.scream) s) refl

  finish_round_trip-tasks : (now : ℕ) (s : Socket O F W) → tasks (finish_round_trip now s) ≡ tasks s
  unfolding finish_round_trip
  finish_round_trip-tasks now s = if_rule (λ (t : Socket O F W). tasks t ≡ tasks s) _ refl refl

  resize_window-tasks : (s : Socket O F W) → tasks (resize_window s) ≡ tasks s
  unfolding resize_window
  resize_window-tasks s =
      if_rule (λ (t : Socket O F W). tasks t ≡ tasks s) (ltb 0 s.kcp.mss) refl refl

  -- Between the flush and the end of `update` no task is put to sleep or woken.
  prepared-tasks :
      (now : ℕ) (s : Socket O F W)
      → tasks (publish_rates (resize_window (finish_round_trip now (report_feedback now s))))
        ≡ tasks s
  unfolding publish_rates
  prepared-tasks now s =
      let s1 = report_feedback now s in
      let s2 = finish_round_trip now s1 in
      resize_window-tasks s2 ∙ finish_round_trip-tasks now s1 ∙ report_feedback-tasks now s

  -- When an `update` returns `Ok`, exactly the sleeping tasks that can go on in its final state have
  -- been woken, and the others sleep on: the sender is woken just if there is room in both windows
  -- and the conversation is settled, the receiver just if a message is ready, and the list of the
  -- woken has grown by these alone.
  pub socket_update-Wakes :
      (ms now : ℕ) (s : Socket O F W) (next : ℕ)
      → (socket_update ms now s).0 ≡ ok next
      → Wakes (tasks s) (socket_update ms now s).1
  unfolding socket_update
  socket_update-Wakes ms now s next e =
      go (flushed now (update ms s.kcp) s) (flushed-tasks now (update ms s.kcp) s) e
    where
      go :
          (r : Result (Unit {0}) × Socket O F W)
          → tasks r.1 ≡ tasks s
          → (finish_update ms now r).0 ≡ ok next
          → Wakes (tasks s) (finish_update ms now r).1
      go (ok _, s1) same e' =
          let s2 = publish_rates (resize_window (finish_round_trip now (report_feedback now s1))) in
          subst (λ before. Wakes before (try_wake_pending_waker s2).1)
            (prepared-tasks now s1 ∙ same) (try_wake_pending_waker-Wakes s2)
      go (err x, s1) same e' = cc
      go (panic, s1) same e' = cc

module _ {O F W : Type 0} ⦃k : Wakers W⦄ where
  -- A `poll_recv` of an open socket, which does not hand out empty messages, where an empty message
  -- of one segment is in front of one with bytes, also of one segment: it takes the empty message and
  -- puts the task to sleep, though the next message is ready and its size known. The task then sleeps
  -- on a socket from which it could read.
  pub poll_recv_sleeps :
      (room : ℕ) (waker : W) (now : ℕ) (s : Socket O F W) (empty next : KcpSegment)
      (rest : List KcpSegment)
      → s.closed ≡ false
      → s.allow_recv_empty_packet ≡ false
      → IsU32 s.kcp.rcv_nxt
      → s.kcp.rcv_queue ≡ empty ∷ next ∷ rest
      → empty.frg ≡ 0
      → empty.payload ≡ []
      → next.frg ≡ 0
      → 0 < length next.payload
      → let (r, s') = poll_recv room waker now s in
        (r ≡ pending)
        × (s'.pending_receiver ≡ some waker)
        × (peeksize s'.kcp ≡ ok (length next.payload))
        × (can_recv s' ≡ true)
  unfolding poll_recv park_receiver can_recv
  poll_recv_sleeps room waker now s empty next rest open_ strict hn hq h0 he h1 h =
      let (c, e, peek) = recv_empty room s.kcp empty next rest hn hq h0 he h1 in
      let got : poll_recv room waker now s ≡ (pending, park_receiver waker (record s { kcp = c })) =
        rw (open_, e, strict) refl in
      rw got (refl, refl, peek, rw (strict, peek) (lt→ltb 0 (length next.payload) h))

  module _ ⦃w : Write O⦄ ⦃f : Float F⦄ where
    -- A `poll_send` of an open socket waits only if, after the first packet, a window is full or the
    -- conversation is not settled; then the task's waker is kept and the engine is untouched.
    pub poll_send_waits :
        (bytes : List ℕ) (waker : W) (now : ℕ) (s : Socket O F W)
        → (poll_send bytes waker now s).0 ≡ pending
        → (s.closed ≡ false)
          × (s.sent_first ≡ true)
          × (can_send s.kcp ≡ false)
          × ((poll_send bytes waker now s).1.pending_sender ≡ some waker)
          × ((poll_send bytes waker now s).1.kcp ≡ s.kcp)
    unfolding poll_send park_sender can_send
    poll_send_waits bytes waker now s e = ground arith
