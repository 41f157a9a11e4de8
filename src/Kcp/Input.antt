-- ===== src/Kcp/Input.antt =====
-- `input` of kcp/src/kcp.rs: it takes a datagram apart and applies each segment to the state.
pub mod Outcome
pub mod Rule
pub mod Datagram
pub mod Steps
pub mod Invariant
use kcp_scream_testspace.Common.{
  ℕ, zero, suc, ◌+◌, ◌-◌, ◌*◌, ◌/◌, Bool, true, false, not, ◌&&◌, ◌||◌, Option, none, some, List,
  [], ◌∷◌, ◌++◌, length, take, drop, u16, u32, u64, leb, ltb, ◌==◌, if◌then◌else◌, is_negative,
  is_positive,
}
use kcp_scream_testspace.Kcp.Segment.{KcpSegment, Header, new_with_data, get_header, kcp_overhead}
use kcp_scream_testspace.Kcp.State.{
  Kcp, Error, Result, ok, err, panic, conv_inconsistent, invalid_segment_size,
  invalid_segment_data_size, unsupported_cmd, kcp_cmd_push, kcp_cmd_ack, kcp_cmd_wask, kcp_cmd_wins,
  timediff,
}
use kcp_scream_testspace.Kcp.Receive.{parse_data}
use kcp_scream_testspace.Kcp.Ack.{
  update_ack, shrink_buf, parse_ack, parse_una, parse_fastack, ack_push,
}

-- The state and the local variables of `input`.
pub record Progress (O : Type 0) : Type 0 where
  pub kcp : Kcp O
  pub flag : Bool
  pub max_ack : ℕ
  pub latest_ts : ℕ
  pub acked_sns : List (ℕ × ℕ)
  pub received_push_sns : List ℕ

-- The segment that a PUSH header and its payload make.
abbrev pub pushed : Header → List ℕ → KcpSegment
pushed h payload = record (new_with_data payload) {
  conv = h.conv;
  cmd = h.cmd;
  frg = h.frg;
  wnd = h.wnd;
  ts = h.ts;
  sn = h.sn;
  una = h.una;
}

abbrev pub is_known : ℕ → Bool
is_known cmd =
    cmd == kcp_cmd_ack || (cmd == kcp_cmd_push || (cmd == kcp_cmd_wask || cmd == kcp_cmd_wins))

module _ {O : Type 0} where
  -- The check of `conv`, which an awaited `conv` passes and sets.
  unfoldable pub check_conv : ℕ → Kcp O → Result (Kcp O)
  check_conv conv k =
      if conv == k.conv
      then ok k
      else if k.input_conv
      then ok (record k { conv = conv; input_conv = false })
      else err (conv_inconsistent k.conv conv)

  -- Every segment first brings the window and the cumulative acknowledgement of its sender.
  unfoldable pub take_una : Header → Kcp O → Kcp O
  take_una h k = shrink_buf (parse_una h.una (record k { rmt_wnd = h.wnd }))

  -- KCP_CMD_ACK
  unfoldable pub take_ack : Header → Progress O → Progress O
  take_ack h p =
      let k = p.kcp in
      let rtt = timediff k.current h.ts in
      let timed = if is_negative rtt then k else update_ack rtt k in
      let newer =
        not p.flag
        || (is_positive (timediff h.sn p.max_ack) && is_positive (timediff h.ts p.latest_ts)) in
      record p {
        kcp = shrink_buf (parse_ack h.sn timed);
        flag = true;
        max_ack = if newer then h.sn else p.max_ack;
        latest_ts = if newer then h.ts else p.latest_ts;
        acked_sns = p.acked_sns ++ ((h.sn, h.len) ∷ []);
      }

  -- KCP_CMD_PUSH
  unfoldable pub take_push : Header → List ℕ → Progress O → Progress O
  take_push h rest p =
      let k = p.kcp in
      let acked = ack_push h.sn h.ts k in
      if is_negative (timediff h.sn (u32 (k.rcv_nxt + k.rcv_wnd)))
      then (if is_negative (timediff h.sn k.rcv_nxt) then record p { kcp = acked } else record p {
        kcp = parse_data (pushed h (take h.len rest)) acked;
        received_push_sns = p.received_push_sns ++ (h.sn ∷ []);
      })
      else p

  -- What the command asks for; KCP_CMD_WASK wants the window told, KCP_CMD_WINS nothing.
  unfoldable pub dispatch : Header → List ℕ → Progress O → Progress O
  dispatch h rest p =
      if h.cmd == kcp_cmd_ack
      then take_ack h p
      else if h.cmd == kcp_cmd_push
      then take_push h rest p
      else if h.cmd == kcp_cmd_wask
      then record p { kcp = record p.kcp { ask_tell = true } }
      else p

  -- A round behind the check of `conv`.
  unfoldable pub take_segment :
      Result (Kcp O) → Header → List ℕ → Progress O → Result (Unit {0}) × Progress O
  take_segment (err e) h rest p = (err e, p)
  take_segment panic h rest p = (panic, p)
  take_segment (ok k) h rest p =
      let p' = record p { kcp = k } in
      if ltb (length rest) h.len
      then (err (invalid_segment_data_size h.len (length rest)), p')
      else if not (is_known h.cmd)
      then (err (unsupported_cmd h.cmd), p')
      else (ok tt, dispatch h rest (record p { kcp = take_una h k }))

  -- One round of the loop, on the header read and the bytes behind it.
  unfoldable pub round : Header → List ℕ → Progress O → Result (Unit {0}) × Progress O
  unfolding take_segment
  round h rest p = take_segment (check_conv h.conv p.kcp) h rest p

  -- `?` on a round: the rest of the loop runs after `Ok` alone.
  abbrev pub and_then :
      Result (Unit {0}) × Progress O
      → (Progress O → Result (Unit {0}) × Progress O)
      → Result (Unit {0}) × Progress O
  and_then (ok _, p) next = next p
  and_then (err e, p) next = (err e, p)
  and_then (panic, p) next = (panic, p)

  -- The loop, which runs while a header can be read; `panic` stands for fuel that ran out.
  unfoldable pub input_loop : ℕ → List ℕ → Progress O → Result (Unit {0}) × Progress O
  input_loop zero bytes p = (panic, p)
  input_loop (suc fuel) bytes p = elim (get_header bytes) [
    | none ↦ (ok tt, p)
    | some (h, rest) ↦ and_then (round h rest p) (input_loop fuel (drop h.len rest))
  ]

  -- The congestion window's growth, where the built-in congestion control is on.
  unfoldable pub grow_cwnd : Kcp O → Kcp O
  grow_cwnd k =
      let mss = k.mss in
      let least = if ltb k.incr mss then mss else k.incr in
      let incr = u64 (least + u64 (mss * mss) / least + mss / 16) in
      if ltb k.cwnd k.ssthresh
      then record k { cwnd = u16 (k.cwnd + 1); incr = u64 (k.incr + mss) }
      else record k {
        incr = incr;
        cwnd =
            if leb ((k.cwnd + 1) * mss) incr
            then u16 ((incr + mss - 1) / (if ltb 0 mss then mss else 1))
            else k.cwnd;
      }

  -- Never beyond the peer's window.
  unfoldable pub clamp_cwnd : Kcp O → Kcp O
  clamp_cwnd k =
      if ltb k.rmt_wnd k.cwnd then record k { cwnd = k.rmt_wnd; incr = k.rmt_wnd * k.mss } else k

  unfoldable pub update_cwnd : ℕ → Kcp O → Kcp O
  update_cwnd old_una k =
      if not k.external_cc && (is_positive (timediff k.snd_una old_una) && ltb k.cwnd k.rmt_wnd)
      then clamp_cwnd (grow_cwnd k)
      else k

  -- `input` behind the loop.
  unfoldable pub finish_input : ℕ → Progress O → Kcp O
  finish_input old_una p =
      update_cwnd old_una (if p.flag then parse_fastack p.max_ack p.latest_ts p.kcp else p.kcp)

  abbrev pub start : Kcp O → Progress O
  start k = record {
    kcp = k;
    flag = false;
    max_ack = 0;
    latest_ts = 0;
    acked_sns = [];
    received_push_sns = [];
  }

  abbrev pub answer : ℕ → Result (Unit {0}) × Progress O → Result (List (ℕ × ℕ) × List ℕ) × Kcp O
  answer old_una (ok _, p) = (ok (p.acked_sns, p.received_push_sns), finish_input old_una p)
  answer old_una (err e, p) = (err e, p.kcp)
  answer old_una (panic, p) = (panic, p.kcp)

  -- The result has the acknowledged numbers with the lengths in their headers, and the numbers of
  -- the PUSH segments in the receive window.
  unfoldable pub input : List ℕ → Kcp O → Result (List (ℕ × ℕ) × List ℕ) × Kcp O
  input bytes k =
      if ltb (length bytes) kcp_overhead
      then (err (invalid_segment_size (length bytes)), k)
      else answer k.snd_una (input_loop (length bytes) bytes (start k))
