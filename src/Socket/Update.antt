-- ===== src/Socket/Update.antt =====
-- `new` and `update` of tokio_kcp/src/skcp.rs.
use kcp_scream_testspace.Common.{
  ℕ, ◌+◌, ◌-◌, ◌*◌, Bool, false, Option, none, some, List, [], ◌++◌, min, ltb, leb, ◌==◌,
  put_u32_le, u32, if◌then◌else◌,
}
use kcp_scream_testspace.Kcp.State.{Kcp, Result, ok, err, panic, new, new_stream, output_raw, Write}
use kcp_scream_testspace.Kcp.Settings.{KcpConfig, apply_config, set_wndsize, request_conv}
use kcp_scream_testspace.Kcp.Flush.{Flushed}
use kcp_scream_testspace.Kcp.Clock.{update, check}
use kcp_scream_testspace.Scream.Floats.{Float}
use kcp_scream_testspace.Scream.State.{Scream, whole, new_scream}
use kcp_scream_testspace.Scream.Feedback.{create_feedback_packet}
use kcp_scream_testspace.Scream.{on_rtt, log_data, get_pacing_rate, get_target_bitrate}
use kcp_scream_testspace.Socket.{Socket, and_socket, flushed, try_wake_pending_waker}

-- SCREAM_FEEDBACK_HEADER
abbrev pub scream_feedback_header : ℕ
scream_feedback_header = 1548568130

abbrev pub millisecond : ℕ
millisecond = 1000000

module _ {O F W : Type 0} ⦃w : Write O⦄ ⦃f : Float F⦄ where
  abbrev pub start_socket : KcpConfig → ℕ → Result Flushed × Kcp O → Result (Socket O F W) × Kcp O
  start_socket c now (ok _, k) = (
    ok (record {
      kcp = k;
      scream = new_scream now;
      last_update = now;
      flush_write = c.flush_write;
      flush_ack_input = c.flush_acks_input;
      sent_first = false;
      pending_sender = none;
      pending_receiver = none;
      closed = false;
      allow_recv_empty_packet = c.allow_recv_empty_packet;
      pacing_rate = whole 1000000;
      target_bitrate = whole 500000;
      woken = [];
    }),
    k,
  )
  start_socket c now (err e, k) = (err e, k)
  start_socket c now (panic, k) = (panic, k)

  abbrev pub configured :
      KcpConfig → ℕ → ℕ → ℕ → Result (Unit {0}) × Kcp O → Result (Socket O F W) × Kcp O
  configured c conv ms now (ok _, k) =
      start_socket c now (update ms (if conv == 0 then request_conv k else k))
  configured c conv ms now (err e, k) = (err e, k)
  configured c conv ms now (panic, k) = (panic, k)

  -- `KcpSocket::new`; `output` is the pacer's, `ms` is `now_millis()`.
  unfoldable pub new_socket : KcpConfig → ℕ → O → Bool → ℕ → ℕ → Result (Socket O F W) × Kcp O
  new_socket c conv output stream ms now =
      configured c conv ms now
        (apply_config c (if stream then new_stream conv output else new conv output))

  -- The feedback packet that `update` sends every 10 milliseconds; an error is only logged.
  abbrev pub send_feedback : Option (List ℕ) × Scream F → Socket O F W → Socket O F W
  send_feedback (none, c) s = record s { scream = c }
  send_feedback (some feedback, c) s = record s {
    scream = c;
    kcp = (output_raw (put_u32_le scream_feedback_header ++ feedback) s.kcp).1;
  }

  unfoldable pub report_feedback : ℕ → Socket O F W → Socket O F W
  report_feedback now s =
      if leb (10 * millisecond) (now - s.scream.last_feedback_time)
      then send_feedback (create_feedback_packet now s.scream) s
      else s

  unfoldable pub finish_round_trip : ℕ → Socket O F W → Socket O F W
  finish_round_trip now s =
      if leb (f.nanos (f.fmax s.scream.s_rtt (f.lit 2 100)))
        (now - s.scream.last_periodic_update_time)
      then record s { scream = on_rtt now s.scream }
      else s

  -- The congestion window becomes the send window.
  unfoldable pub resize_window : Socket O F W → Socket O F W
  resize_window s =
      let wnd = f.to_int (f.fmax (f.div s.scream.ref_wnd (f.of_u32 (u32 s.kcp.mss))) (whole 2)) in
      if ltb 0 s.kcp.mss
      then record s { kcp = set_wndsize (min wnd 65535) s.kcp.rcv_wnd s.kcp }
      else s

  unfoldable pub publish_rates : Socket O F W → Socket O F W
  publish_rates s = record s {
    scream = log_data s.scream;
    pacing_rate = get_pacing_rate (log_data s.scream);
    target_bitrate = get_target_bitrate (log_data s.scream);
  }

  -- `update` behind the flush.
  abbrev pub finish_update : ℕ → ℕ → Result (Unit {0}) × Socket O F W → Result ℕ × Socket O F W
  finish_update ms now r = and_socket r (λ _ s1.
      let s2 = publish_rates (resize_window (finish_round_trip now (report_feedback now s1))) in
      let next = check ms s2.kcp in (ok (now + next * millisecond), (try_wake_pending_waker s2).1))

  -- `update`, with `now_millis()` in `ms`; the result is the time for the next one.
  unfoldable pub socket_update : ℕ → ℕ → Socket O F W → Result ℕ × Socket O F W
  socket_update ms now s = finish_update ms now (flushed now (update ms s.kcp) s)
