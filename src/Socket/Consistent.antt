-- ===== src/Socket/Consistent.antt =====
-- The calls on a `KcpSocket` of tokio_kcp/src/skcp.rs and the order of the engine's sequence spaces.
use kcp_scream_testspace.Common.{
  ℕ, refl, Bool, true, false, not, ◌&&◌, ◌||◌, Option, none, some, List, length, arith, IsU16,
  if_rule, ◌==◌, ltb,
}
use kcp_scream_testspace.Kcp.State.{
  Kcp, Result, ok, err, panic, conv_inconsistent, invalid_mtu, invalid_segment_size,
  invalid_segment_data_size, io_error, need_update, recv_queue_empty, expecting_fragment,
  unsupported_cmd, user_buf_too_big, user_buf_too_small, output_raw, Write,
}
use kcp_scream_testspace.Kcp.Sequence.{IsOrdered-widen}
use kcp_scream_testspace.Kcp.Settings.{set_wndsize}
use kcp_scream_testspace.Kcp.Receive.{recv}
use kcp_scream_testspace.Kcp.Flush.{Flushed, flush}
use kcp_scream_testspace.Kcp.Flush.Consistent.{flush-IsConsistent}
use kcp_scream_testspace.Kcp.Clock.{update}
use kcp_scream_testspace.Kcp.Invariant.{IsConsistent, SameBoth-IsConsistent}
use kcp_scream_testspace.Kcp.Steps.{send-IsConsistent, recv-IsConsistent, update-IsConsistent}
use kcp_scream_testspace.Scream.Floats.{Float}
use kcp_scream_testspace.Scream.State.{Scream}
use kcp_scream_testspace.Scream.Feedback.{create_feedback_packet}
use kcp_scream_testspace.Socket.{
  Socket, Wakers, Poll, is_full, and_socket, flushed, flush_kcp, process_flush_result, socket_flush,
}
use kcp_scream_testspace.Socket.Send.{
  park_receiver, park_sender, take_received, poll_recv, flush_if, send_kcp, send_now, poll_send,
}
use kcp_scream_testspace.Socket.Update.{
  send_feedback, report_feedback, finish_round_trip, resize_window, publish_rates, socket_update,
}
use kcp_scream_testspace.Socket.Waiting.{try_wake_pending_waker-kcp}

-- Rule for `?` on the socket.
pub and_socket_rule :
    {O F W A B : Type 0} (Q : Socket O F W → Type 0) (r : Result A × Socket O F W)
    (next : A → Socket O F W → Result B × Socket O F W)
    → Q r.1
    → ((a : A) (s : Socket O F W) → Q s → Q (next a s).1)
    → Q (and_socket r next).1
and_socket_rule Q (ok a, s) next q h = h a s q
and_socket_rule Q (err e, s) next q h = q
and_socket_rule Q (panic, s) next q h = q

module _ {O : Type 0} where
  -- The send window may change at will, the receive window only grow.
  set_wndsize-IsConsistent :
      (wnd : ℕ) (k : Kcp O)
      → IsU16 wnd
      → IsConsistent k
      → IsConsistent (set_wndsize wnd k.rcv_wnd k)
  unfolding set_wndsize
  set_wndsize-IsConsistent wnd k h v = record {
    receiver = record {
      nxt_lt = v.receiver.nxt_lt;
      wnd_lt = ground (arith, v.receiver.wnd_lt);
      ordered = IsOrdered-widen k.rcv_nxt 0 k.rcv_wnd _ k.rcv_buf (ground arith) v.receiver.ordered;
    };
    sender = record {
      una_lt = v.sender.una_lt;
      nxt_lt = v.sender.nxt_lt;
      near = v.sender.near;
      wnd_lt = ground (arith, v.sender.wnd_lt);
      in_flight = v.sender.in_flight;
    };
  }

  output_raw-IsConsistent :
      ⦃w : Write O⦄ (bytes : List ℕ) (k : Kcp O)
      → IsConsistent k
      → IsConsistent (output_raw bytes k).1
  unfolding output_raw
  output_raw-IsConsistent bytes k v =
      SameBoth-IsConsistent k (output_raw bytes k).1 (refl, refl, refl) (refl, refl, refl, refl) v

-- The engine of the socket is consistent.
abbrev pub Holds : {O F W : Type 0} → Socket O F W → Type 0
Holds s = IsConsistent s.kcp

module _ {O F W : Type 0} ⦃k : Wakers W⦄ where
  take_received-Holds :
      (waker : W) (now : ℕ) (r : Result (List ℕ) × Kcp O) (s : Socket O F W)
      → IsConsistent r.1
      → Holds (take_received waker now r s).1
  unfolding park_receiver
  take_received-Holds waker now (ok bytes, c) s v =
      if_rule (λ (r : Poll (List ℕ) × Socket O F W). Holds r.1)
        (length bytes == 0 && not s.allow_recv_empty_packet) v v
  take_received-Holds waker now (err (conv_inconsistent _ _), c) s v = v
  take_received-Holds waker now (err (invalid_mtu _), c) s v = v
  take_received-Holds waker now (err (invalid_segment_size _), c) s v = v
  take_received-Holds waker now (err (invalid_segment_data_size _ _), c) s v = v
  take_received-Holds waker now (err (io_error _), c) s v = v
  take_received-Holds waker now (err need_update, c) s v = v
  take_received-Holds waker now (err recv_queue_empty, c) s v = v
  take_received-Holds waker now (err expecting_fragment, c) s v = v
  take_received-Holds waker now (err (unsupported_cmd _), c) s v = v
  take_received-Holds waker now (err user_buf_too_big, c) s v = v
  take_received-Holds waker now (err user_buf_too_small, c) s v = v
  take_received-Holds waker now (panic, c) s v = v

  pub poll_recv-Holds :
      (room : ℕ) (waker : W) (now : ℕ) (s : Socket O F W)
      → Holds s
      → Holds (poll_recv room waker now s).1
  unfolding poll_recv
  poll_recv-Holds room waker now s v =
      if_rule (λ (r : Poll (List ℕ) × Socket O F W). Holds r.1) s.closed v
        (take_received-Holds waker now (recv room s.kcp) s (recv-IsConsistent room s.kcp v))

module _ {O F W : Type 0} ⦃w : Write O⦄ ⦃f : Float F⦄ where
  flushed-Holds :
      (now : ℕ) (r : Result Flushed × Kcp O) (s : Socket O F W)
      → IsConsistent r.1
      → Holds (flushed now r s).1
  unfolding process_flush_result
  flushed-Holds now (ok _, c) s v = v
  flushed-Holds now (err e, c) s v = v
  flushed-Holds now (panic, c) s v = v

  flush_kcp-Holds : (now : ℕ) (s : Socket O F W) → Holds s → Holds (flush_kcp now s).1
  unfolding flush_kcp
  flush_kcp-Holds now s v = flushed-Holds now (flush s.kcp) s (flush-IsConsistent s.kcp v)

  pub socket_flush-Holds : (now : ℕ) (s : Socket O F W) → Holds s → Holds (socket_flush now s).1
  unfolding socket_flush
  socket_flush-Holds now s v =
      and_socket_rule Holds (flush_kcp now s) _ (flush_kcp-Holds now s v) (λ _ s' v'. v')

  flush_if-Holds : (b : Bool) (now : ℕ) (s : Socket O F W) → Holds s → Holds (flush_if b now s).1
  flush_if-Holds true now s v = flush_kcp-Holds now s v
  flush_if-Holds false now s v = v

  send_now-Holds :
      (bytes : List ℕ) (now : ℕ) (s : Socket O F W) → Holds s → Holds (send_now bytes now s).1
  unfolding send_now
  send_now-Holds bytes now s v =
      and_socket_rule Holds (send_kcp _ s) _ (send-IsConsistent _ s.kcp v) (λ n s1 v1.
        let s2 = record s1 { sent_first = true } in
        and_socket_rule Holds (flush_if (is_full s2.kcp) now s2) _
          (flush_if-Holds (is_full s2.kcp) now s2 v1)
          (λ _ s3 v3.
            and_socket_rule Holds (flush_if s3.flush_write now (record s3 { last_update = now })) _
              (flush_if-Holds s3.flush_write now (record s3 { last_update = now }) v3)
              (λ _ s4 v4. v4)))

  pub poll_send-Holds :
      ⦃k : Wakers W⦄ (bytes : List ℕ) (waker : W) (now : ℕ) (s : Socket O F W)
      → Holds s
      → Holds (poll_send bytes waker now s).1
  unfolding poll_send park_sender
  poll_send-Holds bytes waker now s v =
      let Q : Poll ℕ × Socket O F W → Type 0 = λ r. Holds r.1 in
      if_rule Q s.closed v (
        if_rule Q (s.sent_first && (is_full s.kcp || s.kcp.input_conv)) v
          (send_now-Holds bytes now s v))

  send_feedback-Holds :
      (r : Option (List ℕ) × Scream F) (s : Socket O F W) → Holds s → Holds (send_feedback r s)
  send_feedback-Holds (none, c) s v = v
  send_feedback-Holds (some feedback, c) s v = output_raw-IsConsistent _ s.kcp v

  report_feedback-Holds : (now : ℕ) (s : Socket O F W) → Holds s → Holds (report_feedback now s)
  unfolding report_feedback
  report_feedback-Holds now s v =
      if_rule Holds _ (send_feedback-Holds (create_feedback_packet now s.scream) s v) v

  finish_round_trip-Holds : (now : ℕ) (s : Socket O F W) → Holds s → Holds (finish_round_trip now s)
  unfolding finish_round_trip
  finish_round_trip-Holds now s v = if_rule Holds _ v v

  resize_window-Holds : (s : Socket O F W) → Holds s → Holds (resize_window s)
  unfolding resize_window
  resize_window-Holds s v =
      if_rule Holds (ltb 0 s.kcp.mss) (set_wndsize-IsConsistent _ s.kcp (ground arith) v) v

  publish_rates-Holds : (s : Socket O F W) → Holds s → Holds (publish_rates s)
  unfolding publish_rates
  publish_rates-Holds s v = v

  pub socket_update-Holds :
      (ms now : ℕ) (s : Socket O F W) → Holds s → Holds (socket_update ms now s).1
  unfolding socket_update
  socket_update-Holds ms now s v =
      and_socket_rule Holds (flushed now (update ms s.kcp) s) _
        (flushed-Holds now (update ms s.kcp) s (update-IsConsistent ms s.kcp v))
        (λ _ s1 v1.
          let s2 = report_feedback now s1 in
          let s3 = finish_round_trip now s2 in
          let s4 = resize_window s3 in
          let s5 = publish_rates s4 in
          let v5 = publish_rates-Holds s4 (
            resize_window-Holds s3
              (finish_round_trip-Holds now s2 (report_feedback-Holds now s1 v1))) in
          rw (try_wake_pending_waker-kcp s5) v5)
