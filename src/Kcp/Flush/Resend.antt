-- ===== src/Kcp/Flush/Resend.antt =====
-- The loop of `flush` over `snd_buf`: which segments are sent, again or for the first time.
use kcp_scream_testspace.Common.{
  ℕ, ◌+◌, ◌-◌, ◌/◌, ◌^◌, Bool, true, not, ◌&&◌, ◌||◌, List, [], ◌∷◌, ◌++◌, max, u32, leb, ◌==◌,
  if◌then◌else◌, is_negative,
}
use kcp_scream_testspace.Kcp.Segment.{KcpSegment}
use kcp_scream_testspace.Kcp.State.{Kcp, Result, ok, err, panic, timediff, Write}
use kcp_scream_testspace.Kcp.Flush.Output.{emit}

-- Why a segment of `snd_buf` is sent in this flush.
pub data Reason : Type 0 where
  quiet first timeout fast : Reason

-- The state of the loop over `snd_buf`.
pub record Sending (O : Type 0) : Type 0 where
  pub kcp : Kcp O
  pub lost : Bool
  pub sns_of_lost : List ℕ
  pub change : ℕ

-- The outcome of one segment of the loop over `snd_buf`: the segment is changed in place also when
-- its output fails.
abbrev pub Step : Type 0 → Type 0
Step O = Result (Unit {0}) × KcpSegment × Sending O

abbrev pub Loop : Type 0 → Type 0
Loop O = Result (Unit {0}) × List KcpSegment × Sending O

module _ {O : Type 0} where
  unfoldable pub reason : Kcp O → ℕ → KcpSegment → Reason
  reason k resent seg =
      if seg.xmit == 0
      then first
      else if not (is_negative (timediff k.current seg.resendts))
      then timeout
      else if leb resent seg.fastack && (leb seg.xmit k.fastlimit || k.fastlimit == 0)
      then fast
      else quiet

  -- The segment's new timers.
  unfoldable pub rearm : Kcp O → ℕ → Reason → KcpSegment → KcpSegment
  rearm k rtomin quiet seg = seg
  rearm k rtomin first seg = record seg {
    xmit = u32 (seg.xmit + 1);
    rto = k.rx_rto;
    resendts = u32 (u32 (k.current + k.rx_rto) + rtomin);
  }
  rearm k rtomin timeout seg =
      let rto =
        if not k.nodelay
        then u32 (seg.rto + max seg.rto k.rx_rto)
        else u32 (seg.rto + seg.rto / 2) in
      record seg { xmit = u32 (seg.xmit + 1); rto = rto; resendts = u32 (k.current + rto) }
  rearm k rtomin fast seg = record seg {
    xmit = u32 (seg.xmit + 1);
    fastack = 0;
    resendts = u32 (k.current + seg.rto);
  }

  -- The counters of the loop.
  unfoldable pub count_resend : Reason → ℕ → Sending O → Sending O
  count_resend quiet sn t = t
  count_resend first sn t = t
  count_resend timeout sn t = record t {
    kcp = record t.kcp { xmit = u32 (t.kcp.xmit + 1) };
    lost = true;
    sns_of_lost = t.sns_of_lost ++ (sn ∷ []);
  }
  count_resend fast sn t = record t { change = t.change + 1 }

  -- `state` is set to -1 once a segment was sent `dead_link` times.
  unfoldable pub mark_dead : KcpSegment → Kcp O → Kcp O
  mark_dead seg k = record k { state = if leb k.dead_link seg.xmit then 2 ^ 32 - 1 else k.state }

  abbrev pub sent : KcpSegment → Sending O → Result (Unit {0}) × Kcp O → Step O
  sent seg t (ok _, k) = (ok tt, seg, record t { kcp = mark_dead seg k })
  sent seg t (err e, k) = (err e, seg, record t { kcp = k })
  sent seg t (panic, k) = (panic, seg, record t { kcp = k })

  abbrev pub prepend : KcpSegment → Loop O → Loop O
  prepend seg (r, segs, t) = (r, seg ∷ segs, t)

  abbrev pub and_next : List KcpSegment → (Sending O → Loop O) → Step O → Loop O
  and_next segs next (ok _, seg, t) = prepend seg (next t)
  and_next segs next (err e, seg, t) = (err e, seg ∷ segs, t)
  and_next segs next (panic, seg, t) = (panic, seg ∷ segs, t)

module _ {O : Type 0} ⦃w : Write O⦄ where
  unfoldable pub send_segment : ℕ → ℕ → Reason → KcpSegment → Sending O → Step O
  send_segment wnd rtomin quiet seg t = (ok tt, seg, t)
  send_segment wnd rtomin why seg t =
      let seg' = record (rearm t.kcp rtomin why seg) {
        ts = t.kcp.current;
        wnd = wnd;
        una = t.kcp.rcv_nxt;
      } in
      let t' = count_resend why seg.sn t in sent seg' t' (emit seg' t'.kcp)

  unfoldable pub send_loop : ℕ → ℕ → ℕ → List KcpSegment → Sending O → Loop O
  send_loop wnd resent rtomin [] t = (ok tt, [], t)
  send_loop wnd resent rtomin (seg ∷ segs) t =
      and_next segs (send_loop wnd resent rtomin segs)
        (send_segment wnd rtomin (reason t.kcp resent seg) seg t)
