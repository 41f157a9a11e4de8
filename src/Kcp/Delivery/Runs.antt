-- ===== src/Kcp/Delivery/Runs.antt =====
-- A concrete run of a connection of kcp/src/kcp.rs: one message crosses the network.
use kcp_scream_testspace.Common.{
  ℕ, ◌≡◌, ◌⊎◌, refl, true, false, List, [], ◌∷◌, ◌++◌, All-append, inl, arith, put_u16_le,
  put_u32_le,
}
use kcp_scream_testspace.Samples.{Log, log_write}
use kcp_scream_testspace.Kcp.Segment.{
  KcpSegment, new_with_data, payloads, encode, encoded_len, get_header,
}
use kcp_scream_testspace.Kcp.State.{bound, Kcp, construct, timediff, wnd_unused}
use kcp_scream_testspace.Kcp.Settings.{set_nodelay}
use kcp_scream_testspace.Kcp.Receive.{
  recv, peeksize, peek_queue, merge, message_len, finish_recv, move_buf, move_loop, parse_data,
  find_place, insert,
}
use kcp_scream_testspace.Kcp.Ack.{shrink_buf, parse_una, drop_una, ack_push}
use kcp_scream_testspace.Kcp.Send.{send, extend_last, split, fragment_count, send_rest}
use kcp_scream_testspace.Kcp.Input.{
  input, input_loop, round, take_segment, check_conv, take_una, dispatch, take_push, finish_input,
  update_cwnd,
}
use kcp_scream_testspace.Kcp.Flush.Output.{emit, write_out, written, reserve}
use kcp_scream_testspace.Kcp.Flush.Resend.{
  send_loop, send_segment, reason, rearm, count_resend, mark_dead,
}
use kcp_scream_testspace.Kcp.Flush.{
  flush, template, probe_wnd_size, flush_pending, flush_ack_loop, flush_probe_commands,
  flush_probe_command, write_rest, flush_data, flush_wnd, resent_limit, rto_min, admit, stamp,
  lower_cwnd,
}
use kcp_scream_testspace.Kcp.Clock.{update, tick, is_far}
use kcp_scream_testspace.Kcp.Delivery.Channel.{Channel}
use kcp_scream_testspace.Kcp.Settings.Calls.{nodelay_set}
use kcp_scream_testspace.Kcp.Delivery.Receiver.{received}
use kcp_scream_testspace.Kcp.Delivery.Written.{taken_by}
use kcp_scream_testspace.Kcp.Ack.{
  first_sn, remove_sn, parse_ack, update_ack, smooth, parse_fastack, count_fastack,
}
use kcp_scream_testspace.Kcp.Input.{take_ack}
use kcp_scream_testspace.Kcp.Input.Datagram.{datagram}
use kcp_scream_testspace.Kcp.Delivery.Wire.{Framed}
use kcp_scream_testspace.Kcp.Delivery.Held.{Holds}
use kcp_scream_testspace.Kcp.Delivery.Retains.{Vouches}
use kcp_scream_testspace.Kcp.Delivery.Retention.{
  IsEarly, Uses, use_setting, use_send, use_update, use_input, used, unused, sender_retains,
}
use kcp_scream_testspace.Kcp.Delivery.Link.{
  Link, IsRoomy, Links, connect, sender_is_set, sender_sends, sender_updates, receiver_is_given,
  receiver_reads, unmoved, moved,
}
use kcp_scream_testspace.Kcp.Delivery.Prefix.{delivers_prefix, delivers_all}

-- The log of the writes is what the writer has let out.
abbrev log_channel : Channel Log
log_channel = record {
  datagrams = λ o. o;
  kept = λ P o bytes a p. All-append P o (bytes ∷ []) a (p, tt);
}

-- A new engine without the congestion window, and the same with three bytes to send.
abbrev quick : Kcp Log
quick = set_nodelay true 10 2 true (construct 7 [] false)

abbrev loaded : Kcp Log
loaded = (send (1 ∷ 2 ∷ 3 ∷ []) quick).1

-- The datagram that carries them.
abbrev on_the_wire : List ℕ
on_the_wire =
    7 ∷ 0 ∷ 0 ∷ 0 ∷ 81 ∷ 0 ∷ 128 ∷ 0 ∷ 0 ∷ 0 ∷ 0 ∷ 0 ∷ 0 ∷ 0 ∷ 0 ∷ 0 ∷ 0 ∷ 0 ∷ 0 ∷ 0 ∷ 3 ∷ 0 ∷ 0 ∷ 0
    ∷ 1 ∷ 2 ∷ 3 ∷ []

written_out : (update 0 loaded).1.output ≡ on_the_wire ∷ []
unfolding construct set_nodelay send extend_last split fragment_count send_rest update tick is_far
    timediff flush template probe_wnd_size flush_pending flush_ack_loop flush_probe_commands
    flush_probe_command write_rest flush_data flush_wnd resent_limit rto_min admit stamp send_loop
    send_segment reason rearm count_resend mark_dead lower_cwnd wnd_unused emit write_out written
    reserve encode encoded_len put_u16_le put_u32_le
written_out = refl

-- It has arrived, and has been read.
abbrev arrived : Kcp Log
arrived = (input on_the_wire (construct 7 [] false)).1

abbrev read_link : Link Log Log
read_link = record {
  sender = (update 0 loaded).1;
  receiver = (recv 9 arrived).1;
  taken_bytes = taken_by (send (1 ∷ 2 ∷ 3 ∷ []) quick).0 (1 ∷ 2 ∷ 3 ∷ []) quick;
  read_bytes = received (recv 9 arrived).0;
}

read_out : read_link.read_bytes ≡ 1 ∷ 2 ∷ 3 ∷ []
unfolding construct input input_loop get_header round take_segment check_conv take_una shrink_buf
    parse_una drop_una dispatch take_push ack_push parse_data find_place insert timediff move_buf
    move_loop finish_input update_cwnd recv peeksize peek_queue message_len merge finish_recv
read_out = refl

loaded-IsRoomy : IsRoomy loaded
unfolding construct set_nodelay send extend_last split fragment_count send_rest
loaded-IsRoomy = omega arith

run : Links log_channel (connect 7 7 [] [] false false) read_link
run = moved (sender_is_set (nodelay_set true 10 2 true)) (
    moved (sender_sends (1 ∷ 2 ∷ 3 ∷ [])) (
      moved (sender_updates 0 loaded-IsRoomy) (
        moved (receiver_is_given on_the_wire (rw written_out (inl refl)))
          (moved (receiver_reads 9) unmoved))))

delivers_prefix_example :
    (rest : List ℕ) × (read_link.taken_bytes
      ≡ (read_link.read_bytes ++ payloads read_link.receiver.rcv_queue) ++ rest)
delivers_prefix_example = delivers_prefix log_channel 7 7 [] [] false false read_link refl run

numbers : read_link.receiver.rcv_nxt ≡ read_link.sender.snd_nxt
unfolding construct set_nodelay send extend_last split fragment_count send_rest update tick is_far
    timediff flush template probe_wnd_size flush_pending flush_ack_loop flush_probe_commands
    flush_probe_command write_rest flush_data flush_wnd resent_limit rto_min admit stamp send_loop
    send_segment reason rearm count_resend mark_dead lower_cwnd wnd_unused emit write_out written
    reserve encode encoded_len put_u16_le put_u32_le input input_loop get_header round take_segment
    check_conv take_una shrink_buf parse_una drop_una dispatch take_push ack_push parse_data
    find_place insert move_buf move_loop finish_input update_cwnd recv peeksize peek_queue
    message_len merge finish_recv
numbers = refl

delivers_all_example :
    read_link.taken_bytes
    ≡ (read_link.read_bytes ++ payloads read_link.receiver.rcv_queue)
      ++ payloads read_link.sender.snd_queue
delivers_all_example = delivers_all log_channel 7 7 [] [] false false read_link refl run numbers

-- The other end has number 0, and says so.
abbrev IsZero : ℕ → Type 0
IsZero n = n ≡ 0

abbrev answer_segment : KcpSegment
answer_segment = record (new_with_data []) { conv = 7; cmd = 82; wnd = 128; una = 1 }

answer_segment-Vouches : Vouches IsZero answer_segment
answer_segment-Vouches = record {
  len_lt = omega arith;
  una_has = λ n h. omega arith;
  sn_has = λ ack. omega arith;
}

answer_segment-Framed : Framed (Vouches IsZero) (datagram (answer_segment ∷ []))
answer_segment-Framed = record {
  segs = answer_segment ∷ [];
  bytes_eq = refl;
  all_sound = (answer_segment-Vouches, tt);
}

-- Two messages: the first is acknowledged, the second is not.
abbrev twice_loaded : Kcp Log
twice_loaded = (send (4 ∷ []) loaded).1

abbrev answered : Kcp Log
answered = (input (datagram (answer_segment ∷ [])) (update 0 twice_loaded).1).1

twice_loaded-IsEarly : IsEarly twice_loaded
unfolding construct set_nodelay send extend_last split fragment_count send_rest
twice_loaded-IsEarly = omega arith

uses : Uses IsZero (construct {O = Log} 7 [] false) answered
uses = used (use_setting (nodelay_set true 10 2 true)) (
    used (use_send (1 ∷ 2 ∷ 3 ∷ [])) (
      used (use_send (4 ∷ [])) (
        used (use_update 0 twice_loaded-IsEarly)
          (used (use_input (datagram (answer_segment ∷ [])) answer_segment-Framed) unused))))

second_given : answered.snd_nxt ≡ 2
unfolding construct set_nodelay send extend_last split fragment_count send_rest update tick is_far
    timediff flush template probe_wnd_size flush_pending flush_ack_loop flush_probe_commands
    flush_probe_command write_rest flush_data flush_wnd resent_limit rto_min admit stamp send_loop
    send_segment reason rearm count_resend mark_dead lower_cwnd wnd_unused emit write_out written
    reserve encode encoded_len put_u16_le put_u32_le input input_loop get_header round take_segment
    check_conv take_una shrink_buf parse_una drop_una dispatch take_ack parse_ack update_ack smooth
    bound finish_input parse_fastack count_fastack update_cwnd datagram first_sn remove_sn
second_given = refl

sender_retains_example : IsZero 1 ⊎ Holds 1 answered.snd_buf
sender_retains_example =
    sender_retains IsZero 7 [] false answered 1 uses (rw second_given (omega arith))
