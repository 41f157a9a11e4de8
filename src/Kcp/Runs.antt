-- ===== src/Kcp/Runs.antt =====
-- Concrete runs of the protocol engine, and its theorems at concrete inputs.
use kcp_scream_testspace.Common.{
  ℕ, zero, suc, All-append, ◌-◌, ◌^◌, ◌≤◌, ◌<◌, ◌≡◌, ◌⊎◌, refl, true, false, none, some, List, [],
  ◌∷◌, ◌++◌, length, All, arith, take, IsU8, put_u16_le, put_u32_le,
}
use kcp_scream_testspace.Kcp.Segment.{
  KcpSegment, new_with_data, encode, get_header, payloads, encoded_len,
}
use kcp_scream_testspace.Kcp.Segment.RoundTrip.{IsWire, header_of, get_header-encode}
use kcp_scream_testspace.Kcp.State.{
  Kcp, ok, err, Error, Write, construct, timediff, wnd_unused, user_buf_too_big, user_buf_too_small,
}
use kcp_scream_testspace.Kcp.Receive.{
  move_loop, move_buf, peek_queue, peeksize, message_len, merge, recv, parse_data, find_place,
  insert,
}
use kcp_scream_testspace.Kcp.Receive.Order.{Moves, move_buf-Moves, inbox}
use kcp_scream_testspace.Kcp.Receive.Message.{message, recv_delivers, recv_fails}
use kcp_scream_testspace.Kcp.Receive.Window.{IsReceiver, Takes, parse_data-Takes}
use kcp_scream_testspace.Kcp.Send.{extend_last, split, fragment_count, send_rest, send}
use kcp_scream_testspace.Kcp.Send.Fragments.{IsQueued, send_queues}
use kcp_scream_testspace.Kcp.Send.Stream.{send_streams, send_refused_keeps_bytes}
use kcp_scream_testspace.Kcp.Settings.{set_nodelay, set_wndsize}
use kcp_scream_testspace.Kcp.Settings.Calls.{nodelay_set, wndsize_set}
use kcp_scream_testspace.Kcp.Sequence.{IsOrdered}
use kcp_scream_testspace.Kcp.Ack.{parse_ack, parse_una, is_outside, shrink_buf, drop_una, ack_push}
use kcp_scream_testspace.Kcp.Ack.Removal.{
  Cuts, parse_una-Cuts, without, parse_ack-without, parse_ack_wrapped,
}
use kcp_scream_testspace.Kcp.Invariant.{IsConsistent, SameBoth-IsConsistent, construct-IsConsistent}
use kcp_scream_testspace.Kcp.Input.{
  input, answer, start, input_loop, round, take_segment, check_conv, take_una, dispatch, take_push,
  finish_input, update_cwnd,
}
use kcp_scream_testspace.Kcp.Input.Datagram.{datagram, rounds, input-datagram}
use kcp_scream_testspace.Kcp.Flush.Output.{emit, write_out, written, reserve}
use kcp_scream_testspace.Kcp.Flush.Resend.{
  Sending, send_loop, send_segment, reason, rearm, count_resend, mark_dead,
}
use kcp_scream_testspace.Kcp.Flush.{
  flush, template, probe_wnd_size, flush_pending, flush_ack_loop, flush_probe_commands,
  flush_probe_command, write_rest, flush_data, flush_wnd, resent_limit, rto_min, admit, stamp,
  lower_cwnd,
}
use kcp_scream_testspace.Kcp.Flush.InFlight.{Admits, admit-Admits}
use kcp_scream_testspace.Kcp.Clock.{tick, is_far, next_packet, wait, check, update}
use kcp_scream_testspace.Kcp.Clock.Wait.{Promises, check-Promises}
use kcp_scream_testspace.Kcp.Steps.{
  Calls, none_called, called, input_called, recv_called, send_called, update_called, setter_called,
  reached-IsConsistent,
}
use kcp_scream_testspace.Kcp.Flush.Fits.{IsFit}
use kcp_scream_testspace.Kcp.Flush.Datagrams.{flush-IsFit}

-- An output that keeps what is written.
abbrev Log : Type 0
Log = List (List ℕ)

instance abbrev log_write : Write Log
log_write = record {
  write_all = λ o bytes. (none, o ++ (bytes ∷ []));
  write = λ o bytes. (ok (length bytes), o ++ (bytes ∷ []));
}

-- Two fragments of one message, as they arrive.
abbrev piece : ℕ → ℕ → List ℕ → KcpSegment
piece sn frg payload = record (new_with_data payload) {
  conv = 7;
  cmd = 81;
  frg = frg;
  wnd = 128;
  ts = 5;
  sn = sn;
}

abbrev head : KcpSegment
head = piece 0 1 (10 ∷ 11 ∷ [])

abbrev tail : KcpSegment
tail = piece 1 0 (12 ∷ [])

abbrev fresh : Kcp Log
unfolding construct
fresh = construct 7 [] false

-- The second fragment has arrived before the first.
abbrev early : Kcp Log
unfolding construct
early = record (construct 7 [] false) { rcv_buf = tail ∷ [] }

abbrev full : Kcp Log
unfolding construct
full = record (construct 7 [] false) { rcv_queue = head ∷ tail ∷ []; rcv_nxt = 2 }

head-IsWire : IsWire head
head-IsWire = omega arith

tail-bytes : All IsU8 (datagram (tail ∷ []))
unfolding datagram encode put_u16_le put_u32_le
tail-bytes = omega arith

tail-IsWire : IsWire tail
tail-IsWire = omega arith

fresh-IsConsistent : IsConsistent fresh
unfolding construct
fresh-IsConsistent = construct-IsConsistent 7 [] false

get_header-encode_example :
    get_header (encode head [] ++ (99 ∷ [])) ≡ some (header_of head, 10 ∷ 11 ∷ 99 ∷ [])
get_header-encode_example = get_header-encode head (99 ∷ []) head-IsWire

move_buf-Moves_example : Moves 128 (tail ∷ []) [] 0 (inbox (move_buf early))
unfolding construct
move_buf-Moves_example = move_buf-Moves early (omega arith)

recv_delivers_example :
    ((recv 4 full).0 ≡ ok (payloads (message full.rcv_queue)))
    × (length (payloads (message full.rcv_queue)) ≡ 3)
    × (message full.rcv_queue ++ ((recv 4 full).1.rcv_queue ++ (recv 4 full).1.rcv_buf)
        ≡ full.rcv_queue ++ full.rcv_buf)
unfolding construct peeksize peek_queue message_len
recv_delivers_example = recv_delivers 4 full 3 (omega arith) refl (omega arith)

recv_whole : (recv 4 full).0 ≡ ok (10 ∷ 11 ∷ 12 ∷ [])
unfolding construct recv peeksize peek_queue message_len merge move_buf move_loop
recv_whole = refl

recv_fails_example :
    ((size : ℕ) × (peeksize full ≡ ok size)
      × (size ≤ 2)
      × ((recv 2 full).0 ≡ ok (payloads (message full.rcv_queue))))
    ⊎ ((e : Error) × (recv 2 full ≡ (err e, full))
        × ((peeksize full ≡ err e)
            ⊎ ((e ≡ user_buf_too_small) × (size : ℕ) × (peeksize full ≡ ok size) × (2 < size))))
recv_fails_example = recv_fails 2 full

early-IsReceiver : IsReceiver early
unfolding construct timediff
early-IsReceiver = omega arith

parse_data-Takes_example :
    IsReceiver (parse_data head early) × Takes head early (parse_data head early)
parse_data-Takes_example = parse_data-Takes head early early-IsReceiver (omega arith)

send_queues_example :
    ((send (1 ∷ 2 ∷ 3 ∷ []) fresh).0 ≡ ok 3)
    × IsQueued 1376 (1 ∷ 2 ∷ 3 ∷ []) [] (send (1 ∷ 2 ∷ 3 ∷ []) fresh).1.snd_queue
unfolding construct fragment_count
send_queues_example = send_queues (1 ∷ 2 ∷ 3 ∷ []) fresh refl (omega arith) (omega arith)

-- A stream whose last segment has room.
abbrev streaming : Kcp Log
unfolding construct
streaming = record (construct 7 [] true) { snd_queue = tail ∷ []; mss = 2 }

send_streams_example :
    ((send (1 ∷ 2 ∷ 3 ∷ []) streaming).0 ≡ ok 3)
    × (payloads (send (1 ∷ 2 ∷ 3 ∷ []) streaming).1.snd_queue
        ≡ payloads streaming.snd_queue ++ (1 ∷ 2 ∷ 3 ∷ []))
unfolding construct fragment_count extend_last
send_streams_example = send_streams (1 ∷ 2 ∷ 3 ∷ []) streaming refl (omega arith) (omega arith)

-- More bytes than 127 segments of 2 bytes hold.
abbrev many : ℕ → List ℕ
many zero = []
many (suc n) = 0 ∷ many n

send_refused_keeps_bytes_example :
    ((send (many 256) streaming).0 ≡ err user_buf_too_big)
    × (payloads (send (many 256) streaming).1.snd_queue
        ≡ payloads streaming.snd_queue ++ take 1 (many 256))
    × (length (take 1 (many 256)) ≡ 1)
    × (0 < length (take 1 (many 256)))
unfolding construct fragment_count
send_refused_keeps_bytes_example =
    send_refused_keeps_bytes (many 256) streaming [] tail refl refl (omega arith) (omega arith)

-- Two segments in flight, the numbers from 0 on.
abbrev in_flight : Kcp Log
unfolding construct
in_flight = record (construct 7 [] false) { snd_buf = head ∷ tail ∷ []; snd_nxt = 2; mss = 100 }

in_flight-IsOrdered : IsOrdered 0 0 2 (head ∷ tail ∷ [])
unfolding timediff
in_flight-IsOrdered = omega arith

parse_una-Cuts_example :
    Cuts 1 0 (head ∷ tail ∷ []) (parse_una 1 in_flight).snd_buf
    × IsOrdered 0 0 2 (parse_una 1 in_flight).snd_buf
unfolding construct timediff
parse_una-Cuts_example =
    parse_una-Cuts 1 2 in_flight (omega arith) (omega arith) (omega arith) (omega arith)
      in_flight-IsOrdered

parse_ack-without_example : (parse_ack 1 in_flight).snd_buf ≡ without 1 (head ∷ tail ∷ [])
unfolding construct timediff
parse_ack-without_example =
    parse_ack-without 1 2 in_flight (omega arith) (omega arith) in_flight-IsOrdered refl

-- The numbers wrap between the two.
abbrev last : KcpSegment
last = piece (2 ^ 32 - 1) 0 (10 ∷ [])

abbrev beyond : KcpSegment
beyond = piece 0 0 (11 ∷ [])

abbrev wrapped : Kcp Log
unfolding construct
wrapped = record (construct 7 [] false) {
  snd_buf = last ∷ beyond ∷ [];
  snd_una = 2 ^ 32 - 1;
  snd_nxt = 1;
}

wrapped-IsOrdered : IsOrdered (2 ^ 32 - 1) 0 2 (last ∷ beyond ∷ [])
unfolding timediff
wrapped-IsOrdered = omega arith

parse_ack_wrapped_example :
    (is_outside 0 wrapped ≡ false)
    × (length (without 0 wrapped.snd_buf) < length wrapped.snd_buf)
    × ((parse_ack 0 wrapped).snd_buf ≡ wrapped.snd_buf)
unfolding construct timediff
parse_ack_wrapped_example =
    parse_ack_wrapped wrapped last beyond [] [] (omega arith) (omega arith) (omega arith)
      wrapped-IsOrdered refl refl (omega arith)

-- A round trip of 80 milliseconds has been measured before.
abbrev measured : Kcp Log
unfolding construct
measured = record (construct 7 [] false) { rx_srtt = 80; rx_rttval = 10 }

input-datagram_example :
    input (datagram (head ∷ tail ∷ [])) fresh ≡ answer 0 (rounds (head ∷ tail ∷ []) (start fresh))
unfolding construct
input-datagram_example =
    input-datagram (head ∷ tail ∷ []) fresh (head-IsWire, (tail-IsWire, tt)) (omega arith)

-- No datagram of the log is longer than 1400 bytes.
abbrev AllShort : Log → Type 0
AllShort o = All (λ bytes. length bytes ≤ 1400) o

AllShort-append :
    (o : Log) (bytes : List ℕ) → AllShort o → length bytes ≤ 1400 → AllShort (o ++ (bytes ∷ []))
AllShort-append o bytes a h = All-append (λ b. length b ≤ 1400) o (bytes ∷ []) a (h, tt)

abbrev ready : Kcp Log
unfolding construct
ready = record (construct 7 [] false) {
  updated = true;
  acklist = (3, 5) ∷ [];
  snd_queue = tail ∷ [];
  cwnd = 1;
}

ready-IsFit : IsFit 1400 AllShort ready
unfolding construct encoded_len
ready-IsFit = omega arith

flush-IsFit_example : IsFit 1400 AllShort (flush ready).1
flush-IsFit_example = flush-IsFit 1400 AllShort AllShort-append ready (omega arith) ready-IsFit

ready-IsConsistent : IsConsistent ready
unfolding construct
ready-IsConsistent =
    let v = fresh-IsConsistent in
    SameBoth-IsConsistent fresh ready (refl, refl, refl) (refl, refl, refl, refl) v

-- The congestion window is off and the windows are set; two messages are written, the first flush
-- puts them in flight, and the second fragment of a message of the other end arrives first.
abbrev quick : Kcp Log
quick = set_nodelay true 10 2 true (construct 7 [] false)

abbrev loaded : Kcp Log
loaded = (send (4 ∷ []) (send (1 ∷ 2 ∷ 3 ∷ []) (set_wndsize 64 256 quick)).1).1

abbrev busy : Kcp Log
busy = (input (datagram (tail ∷ [])) (update 20 loaded).1).1

busy_both : (length busy.snd_buf ≡ 2) × (length busy.rcv_buf ≡ 1)
unfolding construct set_nodelay set_wndsize send extend_last split fragment_count send_rest update
    tick is_far timediff flush template probe_wnd_size flush_pending flush_ack_loop
    flush_probe_commands flush_probe_command write_rest flush_data flush_wnd resent_limit rto_min
    admit stamp send_loop send_segment reason rearm count_resend mark_dead lower_cwnd wnd_unused
    emit write_out written reserve encode encoded_len put_u16_le put_u32_le input input_loop
    get_header round take_segment check_conv take_una shrink_buf parse_una drop_una dispatch
    take_push ack_push parse_data find_place insert move_buf move_loop finish_input update_cwnd
    datagram
busy_both = (refl, refl)

busy-Calls : Calls (construct {O = Log} 7 [] false) (recv 9 busy).1
unfolding construct set_nodelay set_wndsize
busy-Calls =
    let set = nodelay_set true 10 2 true in
    called (setter_called set (omega arith) (omega arith) (omega arith)) (
      called (setter_called (wndsize_set 64 256) (omega arith) (omega arith) (omega arith)) (
        called (send_called (1 ∷ 2 ∷ 3 ∷ [])) (
          called (send_called (4 ∷ [])) (
            called (update_called 20) (
              called (input_called (datagram (tail ∷ [])) tail-bytes)
                (called (recv_called 9) none_called))))))

reached-IsConsistent_example : IsConsistent (recv 9 busy).1
reached-IsConsistent_example = reached-IsConsistent 7 [] false (recv 9 busy).1 busy-Calls

admit-Admits_example : Admits 0 1 0 (head ∷ tail ∷ []) (admit ready 128 1 (head ∷ tail ∷ []) 0)
unfolding construct timediff
admit-Admits_example =
    admit-Admits ready 128 1 (head ∷ tail ∷ []) 0 (omega arith) (omega arith) (omega arith)
      (omega arith)

-- A segment in flight whose timer runs out at 50, and the next flush at 100.
abbrev waiting : Kcp Log
unfolding construct
waiting = record (construct 7 [] false) {
  updated = true;
  ts_flush = 100;
  snd_buf = record head { resendts = 50 } ∷ [];
}

check-waiting : check 30 waiting ≡ 20
unfolding construct check is_far next_packet wait timediff
check-waiting = refl

check-Promises_example : Promises 30 waiting (check 30 waiting)
unfolding construct
check-Promises_example = check-Promises 30 waiting (omega arith) (omega arith) refl (omega arith)

-- The first segment is overdue since 50, the second has not been sent.
abbrev overdue : List KcpSegment
overdue = record head { xmit = 1; rto = 100; resendts = 50 } ∷ tail ∷ []

abbrev at_sixty : Sending Log
unfolding construct
at_sixty = record {
  kcp = record (construct 7 [] false) { current = 60 };
  lost = false;
  sns_of_lost = [];
  change = 0;
}
