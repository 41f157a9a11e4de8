-- ===== src/Socket/Runs.antt =====
-- A concrete run of the socket. No floating-point value matters to it.
use kcp_scream_testspace.Common.{ℕ, ◌≡◌, refl, true, false, some, List, [], ◌∷◌, arith}
use kcp_scream_testspace.Kcp.Segment.{new_with_data}
use kcp_scream_testspace.Samples.{Log, log_write, no_float, number_wakers}
use kcp_scream_testspace.Kcp.State.{Kcp, ok, construct, timediff, wait_snd}
use kcp_scream_testspace.Kcp.Settings.{set_wndsize}
use kcp_scream_testspace.Kcp.Receive.{peeksize, peek_queue}
use kcp_scream_testspace.Kcp.Clock.{update, tick, is_far, check, next_packet, wait}
use kcp_scream_testspace.Kcp.Invariant.{construct-IsConsistent}
use kcp_scream_testspace.Scream.State.{new_scream}
use kcp_scream_testspace.Socket.{
  Socket, pending, can_send, can_recv, process_flush_result, send_each, socket_input,
  try_wake_pending_waker,
}
use kcp_scream_testspace.Socket.Send.{poll_recv}
use kcp_scream_testspace.Socket.Update.{
  report_feedback, finish_round_trip, resize_window, publish_rates, socket_update,
}
use kcp_scream_testspace.Socket.Waiting.{Rests, Wakes, tasks, socket_input-Rests}
use kcp_scream_testspace.Socket.Wakeups.{socket_update-Wakes, poll_recv_sleeps}

-- Task 1 waits to send, task 2 to receive.
abbrev waiting_socket : Socket Log (Unit {0}) ℕ
waiting_socket = record {
  kcp = construct 7 [] false;
  scream = new_scream 0;
  last_update = 0;
  flush_write = false;
  flush_ack_input = true;
  sent_first = true;
  pending_sender = some 1;
  pending_receiver = some 2;
  closed = false;
  allow_recv_empty_packet = false;
  pacing_rate = tt;
  target_bitrate = tt;
  woken = [];
}

-- A PUSH segment of the message [42].
abbrev hello : List ℕ
hello =
    7 ∷ 0 ∷ 0 ∷ 0 ∷ 81 ∷ 0 ∷ 128 ∷ 0 ∷ 5 ∷ 0 ∷ 0 ∷ 0 ∷ 0 ∷ 0 ∷ 0 ∷ 0 ∷ 0 ∷ 0 ∷ 0 ∷ 0 ∷ 1 ∷ 0 ∷ 0 ∷ 0
    ∷ 42 ∷ []

socket_input-Rests_example : Rests (tasks waiting_socket) (socket_input 9 1000 hello waiting_socket)
socket_input-Rests_example =
    socket_input-Rests 9 1000 hello waiting_socket (omega arith) (construct-IsConsistent 7 [] false)

-- The next flush is not due yet, the windows are open, and a message is ready.
abbrev early_socket : Socket Log (Unit {0}) ℕ
unfolding construct
early_socket = record waiting_socket {
  kcp = record (construct 7 [] false) {
    updated = true;
    ts_flush = 100;
    rcv_queue = new_with_data (42 ∷ []) ∷ [];
    rcv_nxt = 1;
  };
}

early_update : (socket_update 30 0 early_socket).0 ≡ ok 70000000
unfolding socket_update construct update tick is_far timediff process_flush_result send_each
    report_feedback finish_round_trip resize_window set_wndsize publish_rates check next_packet wait
    new_scream
early_update = refl

socket_update-Wakes_example : Wakes (tasks early_socket) (socket_update 30 0 early_socket).1
socket_update-Wakes_example = socket_update-Wakes 30 0 early_socket 70000000 early_update

-- Both tasks are woken, the sender first.
both_woken : (socket_update 30 0 early_socket).1.woken ≡ 1 ∷ 2 ∷ []
unfolding socket_update construct update tick is_far timediff process_flush_result send_each
    report_feedback finish_round_trip resize_window set_wndsize publish_rates check next_packet wait
    new_scream try_wake_pending_waker can_send can_recv peeksize peek_queue wait_snd
both_woken = refl

-- An empty message in front of another.
abbrev empty_first : Kcp Log
unfolding construct
empty_first = record (construct 7 [] false) {
  rcv_queue = new_with_data [] ∷ new_with_data (42 ∷ []) ∷ [];
  rcv_nxt = 2;
}

poll_recv_sleeps_example :
    let (r, s') = poll_recv 8 3 0 (record waiting_socket { kcp = empty_first }) in
    (r ≡ pending) × (s'.pending_receiver ≡ some 3) × (peeksize s'.kcp ≡ ok 1) × (can_recv s' ≡ true)
unfolding construct
poll_recv_sleeps_example =
    poll_recv_sleeps 8 3 0 (record waiting_socket { kcp = empty_first }) (new_with_data [])
      (new_with_data (42 ∷ [])) [] refl refl (omega arith) refl refl refl refl (omega arith)
