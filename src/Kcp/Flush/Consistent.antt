-- ===== src/Kcp/Flush/Consistent.antt =====
-- `flush` of kcp/src/kcp.rs and the order of both sequence spaces.
use kcp_scream_testspace.Common.{
  ℕ, ◌+◌, ◌≡◌, refl, Bool, false, Option, none, some, List, [], ◌∷◌, ◌++◌, length, arith, IsU16,
  if_rule, ltb, ◌==◌,
}
use kcp_scream_testspace.Kcp.Segment.{KcpSegment, encoded_len}
use kcp_scream_testspace.Kcp.State.{Kcp, ErrorKind, Result, ok, err, panic, Write}
use kcp_scream_testspace.Kcp.Sequence.{IsOrdered-append, SameSns, SameSns-refl, SameSns-IsOrdered}
use kcp_scream_testspace.Kcp.Invariant.{
  IsConsistent, SameReceiver, SameSender, SameBoth-IsConsistent,
}
use kcp_scream_testspace.Kcp.Flush.Rule.{FlushRules, flush_rule, flush_ack_rule}
use kcp_scream_testspace.Kcp.Flush.Output.{written, write_out, reserve, emit}
use kcp_scream_testspace.Kcp.Flush.Resend.{
  Reason, quiet, first, timeout, fast, Sending, Step, Loop, reason, rearm, count_resend, mark_dead,
  sent, and_next, send_segment, send_loop,
}
use kcp_scream_testspace.Kcp.Flush.Fits.{bind_rule}
use kcp_scream_testspace.Kcp.Flush.InFlight.{admit-Admits}
use kcp_scream_testspace.Kcp.Flush.{
  admit, write_rest, flush_wnd, resent_limit, rto_min, store, lower_cwnd, flush_data, flush,
  flush_ack,
}

-- What of the state the output does not touch.
abbrev pub Core : {O : Type 0} → Kcp O → Kcp O → Type 0
Core k k' = SameReceiver k k' × SameSender k k'

Core-trans : {O : Type 0} (a b c : Kcp O) → Core a b → Core b c → Core a c
Core-trans a b c p q = ground arith

module _ {O : Type 0} ⦃w : Write O⦄ where
  written-Core : (r : Option ErrorKind × O) (k : Kcp O) → Core k (written r k).1
  unfolding written
  written-Core (none, o) k = ((refl, refl, refl), (refl, refl, refl, refl))
  written-Core (some e, o) k = ((refl, refl, refl), (refl, refl, refl, refl))

  pub write_out-Core : (k : Kcp O) → Core k (write_out k).1
  unfolding write_out
  write_out-Core k = written-Core (w.write_all k.output k.buf) k

  pub emit-Core : (seg : KcpSegment) (k : Kcp O) → Core k (emit seg k).1
  unfolding emit reserve
  emit-Core seg k =
      bind_rule (Core k) _ _
        (if_rule (λ (r : Result (Unit {0}) × Kcp O). Core k r.1)
          (ltb k.mtu (length k.buf + encoded_len seg)) (write_out-Core k)
          ((refl, refl, refl), (refl, refl, refl, refl)))
        (λ _ k' c. c)

  -- What one step of the loop over `snd_buf` leaves.
  abbrev StepSame : Kcp O → KcpSegment → Step O → Type 0
  StepSame k0 seg (r, seg', t) = (seg'.sn ≡ seg.sn) × Core k0 t.kcp

  sent-StepSame :
      (k0 : Kcp O) (old seg : KcpSegment) (t : Sending O) (r : Result (Unit {0}) × Kcp O)
      → seg.sn ≡ old.sn
      → Core k0 r.1
      → StepSame k0 old (sent seg t r)
  unfolding mark_dead
  sent-StepSame k0 old seg t (ok _, k) e c = (e, c)
  sent-StepSame k0 old seg t (err x, k) e c = (e, c)
  sent-StepSame k0 old seg t (panic, k) e c = (e, c)

  rearm-sn :
      (k : Kcp O) (rtomin : ℕ) (why : Reason) (seg : KcpSegment)
      → (rearm k rtomin why seg).sn ≡ seg.sn
  unfolding rearm
  rearm-sn k rtomin quiet seg = refl
  rearm-sn k rtomin first seg = refl
  rearm-sn k rtomin timeout seg = refl
  rearm-sn k rtomin fast seg = refl

  count_resend-Core :
      (k0 : Kcp O) (why : Reason) (sn : ℕ) (t : Sending O)
      → Core k0 t.kcp
      → Core k0 (count_resend why sn t).kcp
  unfolding count_resend
  count_resend-Core k0 quiet sn t c = c
  count_resend-Core k0 first sn t c = c
  count_resend-Core k0 timeout sn t c = c
  count_resend-Core k0 fast sn t c = c

  send-StepSame :
      (k0 : Kcp O) (wnd rtomin : ℕ) (why : Reason) (seg : KcpSegment) (t : Sending O)
      → Core k0 t.kcp
      → let seg' = record (rearm t.kcp rtomin why seg) {
        ts = t.kcp.current;
        wnd = wnd;
        una = t.kcp.rcv_nxt;
      } in
        let t' = count_resend why seg.sn t in StepSame k0 seg (sent seg' t' (emit seg' t'.kcp))
  send-StepSame k0 wnd rtomin why seg t c =
      let seg' = record (rearm t.kcp rtomin why seg) {
        ts = t.kcp.current;
        wnd = wnd;
        una = t.kcp.rcv_nxt;
      } in
      let t' = count_resend why seg.sn t in
      sent-StepSame k0 seg seg' t' (emit seg' t'.kcp) (rearm-sn t.kcp rtomin why seg) (
        Core-trans k0 t'.kcp (emit seg' t'.kcp).1 (count_resend-Core k0 why seg.sn t c)
          (emit-Core seg' t'.kcp))

  send_segment-StepSame :
      (k0 : Kcp O) (wnd rtomin : ℕ) (why : Reason) (seg : KcpSegment) (t : Sending O)
      → Core k0 t.kcp
      → StepSame k0 seg (send_segment wnd rtomin why seg t)
  unfolding send_segment
  send_segment-StepSame k0 wnd rtomin quiet seg t c = (refl, c)
  send_segment-StepSame k0 wnd rtomin first seg t c = send-StepSame k0 wnd rtomin first seg t c
  send_segment-StepSame k0 wnd rtomin timeout seg t c = send-StepSame k0 wnd rtomin timeout seg t c
  send_segment-StepSame k0 wnd rtomin fast seg t c = send-StepSame k0 wnd rtomin fast seg t c

  abbrev pub LoopSame : Kcp O → List KcpSegment → Loop O → Type 0
  LoopSame k0 segs (r, segs', t) = SameSns segs segs' × Core k0 t.kcp

  and_next-LoopSame :
      (k0 : Kcp O) (old : KcpSegment) (segs : List KcpSegment) (next : Sending O → Loop O)
      (s : Step O)
      → StepSame k0 old s
      → ((t : Sending O) → Core k0 t.kcp → LoopSame k0 segs (next t))
      → LoopSame k0 (old ∷ segs) (and_next segs next s)
  and_next-LoopSame k0 old segs next (ok _, seg, t) (e, c) f = let l = f t c in ((e, l.0), l.1)
  and_next-LoopSame k0 old segs next (err x, seg, t) (e, c) f = ((e, SameSns-refl segs), c)
  and_next-LoopSame k0 old segs next (panic, seg, t) (e, c) f = ((e, SameSns-refl segs), c)

  pub send_loop-LoopSame :
      (k0 : Kcp O) (wnd resent rtomin : ℕ) (segs : List KcpSegment) (t : Sending O)
      → Core k0 t.kcp
      → LoopSame k0 segs (send_loop wnd resent rtomin segs t)
  unfolding send_loop
  send_loop-LoopSame k0 wnd resent rtomin [] t c = (tt, c)
  send_loop-LoopSame k0 wnd resent rtomin (seg ∷ segs) t c =
      and_next-LoopSame k0 seg segs (send_loop wnd resent rtomin segs)
        (send_segment wnd rtomin (reason t.kcp resent seg) seg t)
        (send_segment-StepSame k0 wnd rtomin (reason t.kcp resent seg) seg t c)
        (λ t' c'. send_loop-LoopSame k0 wnd resent rtomin segs t' c')

  stored-IsConsistent :
      (k k' : Kcp O) (segs segs' : List KcpSegment)
      → IsConsistent (record k { snd_buf = segs })
      → SameSns segs segs'
      → Core k k'
      → IsConsistent (record k' { snd_buf = segs' })
  stored-IsConsistent k k' segs segs' v s c = record {
    receiver = record {
      nxt_lt = rw c.0.0 v.receiver.nxt_lt;
      wnd_lt = rw c.0.1 v.receiver.wnd_lt;
      ordered = rw (c.0.0, c.0.1, c.0.2) v.receiver.ordered;
    };
    sender = record {
      una_lt = rw c.1.0 v.sender.una_lt;
      nxt_lt = rw c.1.1 v.sender.nxt_lt;
      near = rw (c.1.0, c.1.1) v.sender.near;
      wnd_lt = rw c.1.3 v.sender.wnd_lt;
      in_flight =
          rw (c.1.0, c.1.1) (SameSns-IsOrdered k.snd_una 0 _ segs segs' s v.sender.in_flight);
    };
  }

  store-IsConsistent :
      (k : Kcp O) (segs : List KcpSegment) (l : Loop O)
      → IsConsistent (record k { snd_buf = segs })
      → LoopSame k segs l
      → IsConsistent (store l).1
  store-IsConsistent k segs (ok _, segs', t) v (s, c) = stored-IsConsistent k t.kcp segs segs' v s c
  store-IsConsistent k segs (err e, segs', t) v (s, c) =
      stored-IsConsistent k t.kcp segs segs' v s c
  store-IsConsistent k segs (panic, segs', t) v (s, c) =
      stored-IsConsistent k t.kcp segs segs' v s c

  flush_wnd-IsU16 : (k : Kcp O) → IsU16 k.snd_wnd → IsU16 (flush_wnd k)
  unfolding flush_wnd
  flush_wnd-IsU16 k h = ground arith

  -- With the admitted segments behind the old ones the numbers in flight are still in order.
  admit-IsConsistent :
      (k : Kcp O) (wnd cwnd : ℕ)
      → IsU16 cwnd
      → IsConsistent k
      → let a = admit k wnd cwnd k.snd_queue k.snd_nxt in
        IsConsistent (record k {
          snd_queue = a.snd_queue;
          snd_nxt = a.snd_nxt;
          snd_buf = k.snd_buf ++ a.fresh;
        })
  admit-IsConsistent k wnd cwnd h v =
      let s = v.sender in
      let a = admit-Admits k wnd cwnd k.snd_queue k.snd_nxt s.nxt_lt s.una_lt h s.near in
      record {
        receiver = record {
          nxt_lt = v.receiver.nxt_lt;
          wnd_lt = v.receiver.wnd_lt;
          ordered = v.receiver.ordered;
        };
        sender = record {
          una_lt = s.una_lt;
          nxt_lt = a.nxt_lt;
          near = omega (arith, a.within, s.near, h);
          wnd_lt = s.wnd_lt;
          in_flight =
              IsOrdered-append k.snd_una 0 _ _ k.snd_buf _ (omega arith) (omega (arith, a.count_eq))
                s.in_flight a.ordered;
        };
      }

  write_rest-IsConsistent : (k : Kcp O) → IsConsistent k → IsConsistent (write_rest k).1
  unfolding write_rest
  write_rest-IsConsistent k v =
      let c = write_out-Core k in
      if_rule (λ (r : Result (Unit {0}) × Kcp O). IsConsistent r.1) (length k.buf == 0) v
        (SameBoth-IsConsistent k (write_out k).1 c.0 c.1 v)

  lower_cwnd-Core :
      (cwnd resent : ℕ) (lost : Bool) (change : ℕ) (k : Kcp O)
      → Core k (lower_cwnd cwnd resent lost change k)
  unfolding lower_cwnd
  lower_cwnd-Core cwnd resent lost change k = ground arith

  flush_data-IsConsistent :
      (wnd : ℕ) (k : Kcp O) → IsConsistent k → IsConsistent (flush_data wnd k).1
  unfolding flush_data
  flush_data-IsConsistent wnd k v =
      let a = admit k wnd (flush_wnd k) k.snd_queue k.snd_nxt in
      let k1 = record k { snd_queue = a.snd_queue; snd_nxt = a.snd_nxt } in
      let segs = k.snd_buf ++ a.fresh in
      let t : Sending O = record { kcp = k1; lost = false; sns_of_lost = []; change = 0 } in
      let l = send_loop wnd (resent_limit k) (rto_min k) segs t in
      bind_rule IsConsistent (store l) _
        (store-IsConsistent k1 segs l
          (admit-IsConsistent k wnd (flush_wnd k) (flush_wnd-IsU16 k v.sender.wnd_lt) v)
          (send_loop-LoopSame k1 wnd (resent_limit k) (rto_min k) segs t
            ((refl, refl, refl), (refl, refl, refl, refl))))
        (λ t' k2 v2.
          bind_rule IsConsistent (write_rest k2) _ (write_rest-IsConsistent k2 v2) (λ _ k3 v3.
            let c = lower_cwnd-Core (flush_wnd k) (resent_limit k) t'.lost t'.change k3 in
            SameBoth-IsConsistent k3 _ c.0 c.1 v3))

  IsConsistent-flush : FlushRules {O = O} IsConsistent (λ seg. Unit {0}) (λ seg. Unit {0})
  IsConsistent-flush = record {
    same = λ k k' s v. SameBoth-IsConsistent k k' (s.7, s.12, s.8) (s.10, s.5, s.4, s.11) v;
    emitted =
        λ seg k s v. let c = emit-Core seg k in SameBoth-IsConsistent k (emit seg k).1 c.0 c.1 v;
    wrote = λ k v. let c = write_out-Core k in SameBoth-IsConsistent k (write_out k).1 c.0 c.1 v;
    stamped = λ seg seg' e1 e2 e3 s. tt;
    control = λ seg c. tt;
    templated = λ k. tt;
    acked = λ seg sn ts c. tt;
    probed = λ seg cmd e c. tt;
  }

  -- `flush` keeps a state consistent, whatever the writer does and whether it returns `Ok` or an
  -- error: the receive buffer stays in order within its window, the numbers in flight stay in
  -- order between `snd_una` and `snd_nxt`, and those two stay less than 2 ^ 16 apart.
  pub flush-IsConsistent : (k : Kcp O) → IsConsistent k → IsConsistent (flush k).1
  flush-IsConsistent k v =
      flush_rule IsConsistent (λ seg. Unit {0}) (λ seg. Unit {0}) IsConsistent-flush IsConsistent k
        (λ k' v'. v') flush_data-IsConsistent v

  -- And so does `flush_ack`.
  pub flush_ack-IsConsistent : (k : Kcp O) → IsConsistent k → IsConsistent (flush_ack k).1
  flush_ack-IsConsistent k v =
      flush_ack_rule IsConsistent (λ seg. Unit {0}) (λ seg. Unit {0}) IsConsistent-flush k v
