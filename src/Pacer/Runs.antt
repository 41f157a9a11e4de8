-- ===== src/Pacer/Runs.antt =====
-- Concrete runs of the pacer. No floating-point value matters to it.
use kcp_scream_testspace.Common.{
  Bool, zero, suc, ◌≡◌, true, false, List, [], ◌∷◌, ◌++◌, length, arith,
}
use kcp_scream_testspace.Kcp.Segment.{encoded_len, new_with_data}
use kcp_scream_testspace.Samples.{no_float}
use kcp_scream_testspace.Kcp.State.{Kcp, Result, ok, err, panic, construct}
use kcp_scream_testspace.Pacer.{Pacer, write_paced, new_pacer, pacer_write}
use kcp_scream_testspace.Pacer.Order.{
  PacerEvent, flushed_out, raw_out, ticked, dropped_out, repaced, run_events, offers, IsPaced,
  new_pacer-IsPaced,
}
use kcp_scream_testspace.Kcp.Segment.{new_with_data, payloads, encode, encoded_len}
use kcp_scream_testspace.Kcp.State.{Kcp, construct, timediff, wnd_unused}
use kcp_scream_testspace.Kcp.Settings.{set_nodelay}
use kcp_scream_testspace.Kcp.Receive.{recv}
use kcp_scream_testspace.Kcp.Send.{send, extend_last, split, fragment_count, send_rest}
use kcp_scream_testspace.Kcp.Input.{input}
use kcp_scream_testspace.Kcp.Flush.Output.{emit, write_out, written, reserve}
use kcp_scream_testspace.Kcp.Flush.Resend.{
  send_loop, send_segment, reason, rearm, count_resend, mark_dead,
}
use kcp_scream_testspace.Kcp.Flush.{
  Flushed, flush, template, probe_wnd_size, flush_pending, flush_ack_loop, flush_probe_commands,
  flush_probe_command, write_rest, flush_data, flush_wnd, resent_limit, rto_min, admit, stamp,
  lower_cwnd,
}
use kcp_scream_testspace.Kcp.Clock.{update, tick, is_far}
use kcp_scream_testspace.Kcp.Settings.Calls.{nodelay_set}
use kcp_scream_testspace.Kcp.Delivery.Receiver.{received}
use kcp_scream_testspace.Kcp.Delivery.Written.{taken_by}
use kcp_scream_testspace.Kcp.Delivery.Link.{
  Link, IsRoomy, connect, sender_is_set, sender_sends, sender_updates, receiver_is_given,
  receiver_reads,
}
use kcp_scream_testspace.Samples.{Log, log_write}
use kcp_scream_testspace.Common.{ℕ, put_u16_le, put_u32_le, inl, refl}
use kcp_scream_testspace.Pacer.{write_all_paced, tick_paced}
use kcp_scream_testspace.Pacer.Delivery.{
  passed_on, PacedSteps, calls, ticks, unstepped, stepped, paced_delivers_prefix,
}

-- Two datagrams, one tick, a third datagram from `output_raw`.
abbrev pacer_run : List (PacerEvent (Unit {0}))
pacer_run =
    flushed_out (1 ∷ 2 ∷ [])
    ∷ flushed_out (3 ∷ [])
    ∷ ticked
    ∷ raw_out (4 ∷ [])
    ∷ repaced tt
    ∷ dropped_out
    ∷ ticked
    ∷ []

new_pacer-IsPaced_example : IsPaced (offers pacer_run) (run_events pacer_run (new_pacer tt))
new_pacer-IsPaced_example = new_pacer-IsPaced tt pacer_run

abbrev packets : ℕ → List (List ℕ)
packets zero = []
packets (suc n) = (1 ∷ []) ∷ packets n

-- The channel is full.
abbrev busy_pacer : Pacer (Unit {0})
busy_pacer = record {
  queue = packets 256;
  dropped = false;
  running = true;
  pacing_rate = tt;
  interval = 5;
  released = [];
}

-- An acknowledgement and a segment are due.
abbrev paced_engine : Kcp (Pacer (Unit {0}))
unfolding construct
paced_engine = record (construct 7 busy_pacer false) {
  updated = true;
  acklist = (3, 5) ∷ [];
  snd_queue = new_with_data (9 ∷ []) ∷ [];
  cwnd = 1;
}

abbrev is_ok : Result Flushed → Bool
is_ok (ok _) = true
is_ok (err e) = false
is_ok panic = false

-- The flush returns `Ok`, with the segment in flight and the acknowledgement done.
paced_engine_sends :
    let (r, k) = flush paced_engine in (is_ok r ≡ true) × (length k.snd_buf ≡ 1) × (k.acklist ≡ [])
unfolding construct timediff flush template probe_wnd_size flush_pending flush_ack_loop
    flush_probe_commands flush_probe_command write_rest flush_data flush_wnd resent_limit rto_min
    admit stamp send_loop send_segment reason rearm count_resend mark_dead lower_cwnd wnd_unused
    emit write_out written reserve encode encoded_len put_u16_le put_u32_le write_all_paced
    write_paced
paced_engine_sends = (refl, refl, refl)

-- A message on its way through the pacer.
abbrev paced_loaded : Kcp (Pacer (Unit {0}))
paced_loaded =
    (send (1 ∷ 2 ∷ 3 ∷ []) (set_nodelay true 10 2 true (construct 7 (new_pacer tt) false))).1

abbrev paced_sender : Kcp (Pacer (Unit {0}))
paced_sender = let k = (update 0 paced_loaded).1 in record k { output = tick_paced k.output }

abbrev on_the_wire : List ℕ
on_the_wire =
    7 ∷ 0 ∷ 0 ∷ 0 ∷ 81 ∷ 0 ∷ 128 ∷ 0 ∷ 0 ∷ 0 ∷ 0 ∷ 0 ∷ 0 ∷ 0 ∷ 0 ∷ 0 ∷ 0 ∷ 0 ∷ 0 ∷ 0 ∷ 3 ∷ 0 ∷ 0 ∷ 0
    ∷ 1 ∷ 2 ∷ 3 ∷ []

released_out : passed_on paced_sender.output ≡ on_the_wire ∷ []
unfolding construct set_nodelay send extend_last split fragment_count send_rest update tick is_far
    timediff flush template probe_wnd_size flush_pending flush_ack_loop flush_probe_commands
    flush_probe_command write_rest flush_data flush_wnd resent_limit rto_min admit stamp send_loop
    send_segment reason rearm count_resend mark_dead lower_cwnd wnd_unused emit write_out written
    reserve encode encoded_len put_u16_le put_u32_le new_pacer write_all_paced write_paced
    tick_paced
released_out = refl

paced_loaded-IsRoomy : IsRoomy paced_loaded
unfolding construct set_nodelay send extend_last split fragment_count send_rest new_pacer
paced_loaded-IsRoomy = omega arith

abbrev far_end : Kcp Log
far_end = (input on_the_wire (construct 9 [] false)).1

abbrev paced_link : Link (Pacer (Unit {0})) Log
paced_link = record {
  sender = paced_sender;
  receiver = (recv 9 far_end).1;
  taken_bytes =
      taken_by
        (send (1 ∷ 2 ∷ 3 ∷ []) (set_nodelay true 10 2 true (construct 7 (new_pacer tt) false))).0
        (1 ∷ 2 ∷ 3 ∷ []) (set_nodelay true 10 2 true (construct 7 (new_pacer tt) false));
  read_bytes = received (recv 9 far_end).0;
}

paced_run : PacedSteps (connect 7 9 (new_pacer tt) [] false false) paced_link
paced_run = stepped (calls (sender_is_set (nodelay_set true 10 2 true))) (
    stepped (calls (sender_sends (1 ∷ 2 ∷ 3 ∷ []))) (
      stepped (calls (sender_updates 0 paced_loaded-IsRoomy)) (
        stepped ticks (
          stepped (calls (receiver_is_given on_the_wire (rw released_out (inl refl))))
            (stepped (calls (receiver_reads 9)) unstepped)))))

paced_delivers_prefix_example :
    (rest : List ℕ) × (paced_link.taken_bytes
      ≡ (paced_link.read_bytes ++ payloads paced_link.receiver.rcv_queue) ++ rest)
paced_delivers_prefix_example = paced_delivers_prefix 7 9 tt [] false false paced_link paced_run
