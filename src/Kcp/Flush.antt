-- ===== src/Kcp/Flush.antt =====
-- `flush_ack` and `flush` of kcp/src/kcp.rs: what goes out, and when a segment is sent again.
pub mod Output
pub mod Resend
pub mod Fits
pub mod InFlight
pub mod Timers
pub mod Consistent
pub mod Untouched
pub mod Rule
pub mod Datagrams
use kcp_scream_testspace.Common.{
  ℕ, ◌+◌, ◌-◌, ◌*◌, ◌/◌, ◌^◌, Bool, true, false, not, ◌&&◌, ◌||◌, Option, none, some, List, [], ◌∷◌,
  ◌++◌, map, min, max, length, u16, u32, u64, leb, ltb, ◌==◌, if◌then◌else◌, is_negative,
}
use kcp_scream_testspace.Kcp.Segment.{KcpSegment, new_with_data, encode, encoded_len}
use kcp_scream_testspace.Kcp.State.{
  Kcp, Result, ok, err, panic, need_update, kcp_cmd_push, kcp_cmd_ack, kcp_cmd_wask, kcp_cmd_wins,
  kcp_probe_init, kcp_probe_limit, kcp_thresh_min, timediff, wnd_unused, Write,
}
use Output.{bind, emit, write_out}
use Resend.{Sending, Loop, send_loop}

-- What the loop that fills `snd_buf` leaves: the queue, the next number, the segments admitted.
pub record Admission : Type 0 where
  pub snd_queue : List KcpSegment
  pub snd_nxt : ℕ
  pub fresh : List KcpSegment

-- What `flush` returns: whether a segment was sent again, the numbers that timed out, and the
-- number and length of each new segment.
pub record Flushed : Type 0 where
  pub resent : Bool
  pub sns_of_lost : List ℕ
  pub new_packets : List (ℕ × ℕ)

module _ {O : Type 0} where
  -- The segment that carries acknowledgements and probes.
  unfoldable pub template : Kcp O → KcpSegment
  template k = record (new_with_data []) {
    conv = k.conv;
    cmd = kcp_cmd_ack;
    wnd = wnd_unused k;
    una = k.rcv_nxt;
  }

  unfoldable pub probe_wnd_size : Kcp O → Kcp O
  probe_wnd_size k =
      let least = max k.probe_wait kcp_probe_init in
      let wait = min (u32 (least + least / 2)) kcp_probe_limit in
      if k.rmt_wnd == 0
      then (if k.probe_wait == 0
          then record k { probe_wait = kcp_probe_init; ts_probe = u32 (k.current + kcp_probe_init) }
          else if not (is_negative (timediff k.current k.ts_probe))
          then record k { probe_wait = wait; ts_probe = u32 (k.current + wait); ask_send = true }
          else k)
      else record k { ts_probe = 0; probe_wait = 0 }

  -- A segment on its way from `snd_queue` to `snd_buf`.
  unfoldable pub stamp : Kcp O → ℕ → ℕ → KcpSegment → KcpSegment
  stamp k wnd sn seg = record seg {
    conv = k.conv;
    cmd = kcp_cmd_push;
    wnd = wnd;
    ts = k.current;
    sn = sn;
    una = k.rcv_nxt;
    resendts = k.current;
    rto = k.rx_rto;
    fastack = 0;
    xmit = 0;
  }

  -- The loop that moves segments while the window `cwnd` is open; `nxt` is `snd_nxt`.
  unfoldable pub admit : Kcp O → ℕ → ℕ → List KcpSegment → ℕ → Admission
  admit k wnd cwnd [] nxt = record { snd_queue = []; snd_nxt = nxt; fresh = [] }
  admit k wnd cwnd (seg ∷ queue) nxt =
      let a = admit k wnd cwnd queue (u32 (nxt + 1)) in
      if is_negative (timediff nxt (u32 (k.snd_una + cwnd)))
      then record a { fresh = stamp k wnd nxt seg ∷ a.fresh }
      else record { snd_queue = seg ∷ queue; snd_nxt = nxt; fresh = [] }

module _ {O : Type 0} ⦃w : Write O⦄ where
  -- `_flush_ack`: one segment for each pending acknowledgement. The segment is written over in
  -- place, so the last one is returned.
  unfoldable pub flush_ack_loop : List (ℕ × ℕ) → KcpSegment → Kcp O → Result KcpSegment × Kcp O
  flush_ack_loop [] seg k = (ok seg, k)
  flush_ack_loop ((sn, ts) ∷ acks) seg k =
      let seg' = record seg { sn = sn; ts = ts } in
      bind (emit seg' k) (λ _. flush_ack_loop acks seg')

  unfoldable pub flush_pending : KcpSegment → Kcp O → Result KcpSegment × Kcp O
  flush_pending seg k =
      bind (flush_ack_loop k.acklist seg k) (λ seg' k'. (ok seg', record k' { acklist = [] }))

  -- `flush_ack`, the public one.
  unfoldable pub flush_ack : Kcp O → Result (Unit {0}) × Kcp O
  flush_ack k =
      if not k.updated
      then (err need_update, k)
      else bind (flush_pending (template k) k) (λ _ k'. (ok tt, k'))

  unfoldable pub flush_probe_command : Bool → ℕ → KcpSegment → Kcp O → Result (Unit {0}) × Kcp O
  flush_probe_command asked cmd seg k =
      if asked then emit (record seg { cmd = cmd }) k else (ok tt, k)

  unfoldable pub flush_probe_commands : KcpSegment → Kcp O → Result (Unit {0}) × Kcp O
  flush_probe_commands seg k = bind (flush_probe_command k.ask_send kcp_cmd_wask seg k) (λ _ k1.
      bind (flush_probe_command k1.ask_tell kcp_cmd_wins seg k1)
        (λ _ k2. (ok tt, record k2 { ask_send = false; ask_tell = false })))

  unfoldable pub write_rest : Kcp O → Result (Unit {0}) × Kcp O
  write_rest k = if length k.buf == 0 then (ok tt, k) else write_out k

abbrev pub new_packet : KcpSegment → ℕ × ℕ
new_packet seg = (seg.sn, length seg.payload)

module _ {O : Type 0} where
  -- The window for this flush.
  unfoldable pub flush_wnd : Kcp O → ℕ
  flush_wnd k = let wnd = min k.snd_wnd k.rmt_wnd in if not k.nocwnd then min k.cwnd wnd else wnd

  unfoldable pub resent_limit : Kcp O → ℕ
  resent_limit k = if ltb 0 k.fastresend then k.fastresend else 2 ^ 32 - 1

  unfoldable pub rto_min : Kcp O → ℕ
  rto_min k = if not k.nodelay then k.rx_rto / 8 else 0

  abbrev pub store : Loop O → Result (Sending O) × Kcp O
  store (ok _, segs, t) = (ok t, record t.kcp { snd_buf = segs })
  store (err e, segs, t) = (err e, record t.kcp { snd_buf = segs })
  store (panic, segs, t) = (panic, record t.kcp { snd_buf = segs })

-- The built-in congestion control after a flush.
unfoldable pub lower_cwnd : {O : Type 0} → ℕ → ℕ → Bool → ℕ → Kcp O → Kcp O
lower_cwnd cwnd resent lost change k =
    let inflight = u32 (k.snd_nxt + 2 ^ 32 - k.snd_una) in
    let half = max (u16 inflight / 2) kcp_thresh_min in
    let k1 =
      if ltb 0 change
      then record k {
        ssthresh = half;
        cwnd = u16 (half + u16 resent);
        incr = u64 (u16 (half + u16 resent) * k.mss);
      }
      else k in
    let k2 =
      if lost
      then record k1 { ssthresh = max (cwnd / 2) kcp_thresh_min; cwnd = 1; incr = k.mss }
      else k1 in
    if k.external_cc then k else if ltb k2.cwnd 1 then record k2 { cwnd = 1; incr = k.mss } else k2

module _ {O : Type 0} ⦃w : Write O⦄ where
  -- `flush` behind the acknowledgements and the probes.
  unfoldable pub flush_data : ℕ → Kcp O → Result Flushed × Kcp O
  flush_data wnd k =
      let cwnd = flush_wnd k in
      let a = admit k wnd cwnd k.snd_queue k.snd_nxt in
      let k1 = record k { snd_queue = a.snd_queue; snd_nxt = a.snd_nxt } in
      let t : Sending O = record { kcp = k1; lost = false; sns_of_lost = []; change = 0 } in
      bind (store (send_loop wnd (resent_limit k) (rto_min k) (k.snd_buf ++ a.fresh) t)) (λ t' k2.
        bind (write_rest k2) (λ _ k3. (
          ok (record {
            resent = t'.lost || ltb 0 t'.change;
            sns_of_lost = t'.sns_of_lost;
            new_packets = map new_packet a.fresh;
          }),
          lower_cwnd cwnd (resent_limit k) t'.lost t'.change k3,
        )))

  unfoldable pub flush : Kcp O → Result Flushed × Kcp O
  flush k =
      if not k.updated
      then (err need_update, k)
      else bind (flush_pending (template k) k) (λ seg k1.
        bind (flush_probe_commands seg (probe_wnd_size k1))
          (λ _ k2. flush_data (template k).wnd k2))
