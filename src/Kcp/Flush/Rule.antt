-- ===== src/Kcp/Flush/Rule.antt =====
-- A rule for the `flush` of kcp/src/kcp.rs: what the output buffer's operations keep, a flush keeps.
use kcp_scream_testspace.Common.{
  ℕ, ◌≡◌, refl, Bool, true, false, not, List, [], ◌∷◌, ◌++◌, All, All-append, length, ◌==◌, if_rule,
}
use kcp_scream_testspace.Kcp.Segment.{KcpSegment}
use kcp_scream_testspace.Kcp.State.{Kcp, Result, ok, err, panic, kcp_cmd_push, Write}
use kcp_scream_testspace.Kcp.Flush.Output.{bind, emit, write_out}
use kcp_scream_testspace.Kcp.Flush.Resend.{
  Reason, quiet, first, timeout, fast, Sending, Step, Loop, reason, rearm, count_resend, mark_dead,
  sent, and_next, send_segment, send_loop,
}
use kcp_scream_testspace.Kcp.Flush.{
  Flushed, template, probe_wnd_size, admit, flush_ack_loop, flush_pending, flush_probe_command,
  flush_probe_commands, write_rest, flush_wnd, resent_limit, rto_min, store, flush_data, flush,
  flush_ack,
}
use kcp_scream_testspace.Kcp.Flush.Fits.{bind_rule}
use kcp_scream_testspace.Kcp.Flush.Untouched.{
  SameOutput, count_resend-SameOutput, lower_cwnd-SameOutput, probe_wnd_size-SameOutput,
}

-- `Q` of the state, where `S` holds of each segment that is written or in flight, and `C` of those
-- that carry acknowledgements and probes.
pub record FlushRules {O : Type 0} ⦃w : Write O⦄ (Q : Kcp O → Type 0) (S C : KcpSegment → Type 0)
    : Type 0 where
  pub same : (k k' : Kcp O) → SameOutput k k' → Q k → Q k'
  pub emitted : (seg : KcpSegment) (k : Kcp O) → S seg → Q k → Q (emit seg k).1
  pub wrote : (k : Kcp O) → Q k → Q (write_out k).1
  pub stamped :
      (seg seg' : KcpSegment)
      → seg'.payload ≡ seg.payload
      → seg'.sn ≡ seg.sn
      → seg'.cmd ≡ seg.cmd
      → S seg
      → S seg'
  pub control : (seg : KcpSegment) → C seg → S seg
  pub templated : (k : Kcp O) → C (template k)
  pub acked : (seg : KcpSegment) (sn ts : ℕ) → C seg → C (record seg { sn = sn; ts = ts })
  pub probed :
      (seg : KcpSegment) (cmd : ℕ)
      → (cmd == kcp_cmd_push) ≡ false
      → C seg
      → C (record seg { cmd = cmd })

rearm-same :
    {O : Type 0} (k : Kcp O) (rtomin : ℕ) (why : Reason) (seg : KcpSegment)
    → let seg' = rearm k rtomin why seg in
      (seg'.payload ≡ seg.payload) × (seg'.sn ≡ seg.sn) × (seg'.cmd ≡ seg.cmd)
unfolding rearm
rearm-same k rtomin quiet seg = (refl, refl, refl)
rearm-same k rtomin first seg = (refl, refl, refl)
rearm-same k rtomin timeout seg = (refl, refl, refl)
rearm-same k rtomin fast seg = (refl, refl, refl)

module _ {O : Type 0} ⦃w : Write O⦄ (Q : Kcp O → Type 0) (S C : KcpSegment → Type 0)
    (v : FlushRules Q S C) where
  -- With the segment that `_flush_ack` hands on.
  abbrev pub Handed : Result KcpSegment × Kcp O → Type 0
  Handed (ok seg, k) = C seg × Q k
  Handed (err e, k) = Q k
  Handed (panic, k) = Q k

  bind-Handed :
      (r : Result (Unit {0}) × Kcp O) (next : Kcp O → Result KcpSegment × Kcp O)
      → Q r.1
      → ((k : Kcp O) → Q k → Handed (next k))
      → Handed (bind r (λ _. next))
  bind-Handed (ok _, k) next q h = h k q
  bind-Handed (err e, k) next q h = q
  bind-Handed (panic, k) next q h = q

  flush_ack_loop-Handed :
      (acks : List (ℕ × ℕ)) (seg : KcpSegment) (k : Kcp O)
      → C seg
      → Q k
      → Handed (flush_ack_loop acks seg k)
  unfolding flush_ack_loop
  flush_ack_loop-Handed [] seg k c q = (c, q)
  flush_ack_loop-Handed ((sn, ts) ∷ acks) seg k c q =
      let seg' = record seg { sn = sn; ts = ts } in
      let c' = v.acked seg sn ts c in
      bind-Handed (emit seg' k) (flush_ack_loop acks seg') (v.emitted seg' k (v.control seg' c') q)
        (λ k' q'. flush_ack_loop-Handed acks seg' k' c' q')

  clear-Handed :
      (r : Result KcpSegment × Kcp O)
      → Handed r
      → Handed (bind r (λ seg k. (ok seg, record k { acklist = [] })))
  clear-Handed (ok seg, k) (c, q) = (
    c,
    v.same k (record k { acklist = [] })
        (refl, refl, refl, refl, refl, refl, refl, refl, refl, refl, refl, refl, refl) q,
  )
  clear-Handed (err e, k) q = q
  clear-Handed (panic, k) q = q

  flush_pending-Handed : (k : Kcp O) → Q k → Handed (flush_pending (template k) k)
  unfolding flush_pending
  flush_pending-Handed k q =
      clear-Handed _ (flush_ack_loop-Handed k.acklist (template k) k (v.templated k) q)

  flush_probe_command_rule :
      (asked : Bool) (cmd : ℕ) (seg : KcpSegment) (k : Kcp O)
      → (cmd == kcp_cmd_push) ≡ false
      → C seg
      → Q k
      → Q (flush_probe_command asked cmd seg k).1
  unfolding flush_probe_command
  flush_probe_command_rule true cmd seg k e c q =
      v.emitted (record seg { cmd = cmd }) k (v.control _ (v.probed seg cmd e c)) q
  flush_probe_command_rule false cmd seg k e c q = q

  flush_probe_commands_rule :
      (seg : KcpSegment) (k : Kcp O) → C seg → Q k → Q (flush_probe_commands seg k).1
  unfolding flush_probe_commands
  flush_probe_commands_rule seg k c q =
      bind_rule Q (flush_probe_command k.ask_send _ seg k) _
        (flush_probe_command_rule k.ask_send _ seg k refl c q)
        (λ _ k1 q1.
          bind_rule Q (flush_probe_command k1.ask_tell _ seg k1) _
            (flush_probe_command_rule k1.ask_tell _ seg k1 refl c q1)
            (λ _ k2 q2.
              v.same k2 (record k2 { ask_send = false; ask_tell = false })
                (refl, refl, refl, refl, refl, refl, refl, refl, refl, refl, refl, refl, refl) q2))

  abbrev StepRule : Step O → Type 0
  StepRule (r, seg, t) = S seg × Q t.kcp

  sent-StepRule :
      (seg : KcpSegment) (t : Sending O) (r : Result (Unit {0}) × Kcp O)
      → S seg
      → Q r.1
      → StepRule (sent seg t r)
  unfolding mark_dead
  sent-StepRule seg t (ok _, k) h q = (
    h,
    v.same k (mark_dead seg k)
        (refl, refl, refl, refl, refl, refl, refl, refl, refl, refl, refl, refl, refl) q,
  )
  sent-StepRule seg t (err e, k) h q = (h, q)
  sent-StepRule seg t (panic, k) h q = (h, q)

  send-StepRule :
      (wnd rtomin : ℕ) (why : Reason) (seg : KcpSegment) (t : Sending O)
      → S seg
      → Q t.kcp
      → let seg' = record (rearm t.kcp rtomin why seg) {
        ts = t.kcp.current;
        wnd = wnd;
        una = t.kcp.rcv_nxt;
      } in
        let t' = count_resend why seg.sn t in StepRule (sent seg' t' (emit seg' t'.kcp))
  send-StepRule wnd rtomin why seg t h q =
      let seg' = record (rearm t.kcp rtomin why seg) {
        ts = t.kcp.current;
        wnd = wnd;
        una = t.kcp.rcv_nxt;
      } in
      let t' = count_resend why seg.sn t in
      let e = rearm-same t.kcp rtomin why seg in
      let h' = v.stamped seg seg' e.0 e.1 e.2 h in
      sent-StepRule seg' t' (emit seg' t'.kcp) h'
        (v.emitted seg' t'.kcp h' (v.same t.kcp t'.kcp (count_resend-SameOutput why seg.sn t) q))

  send_segment-StepRule :
      (wnd rtomin : ℕ) (why : Reason) (seg : KcpSegment) (t : Sending O)
      → S seg
      → Q t.kcp
      → StepRule (send_segment wnd rtomin why seg t)
  unfolding send_segment
  send_segment-StepRule wnd rtomin quiet seg t h q = (h, q)
  send_segment-StepRule wnd rtomin first seg t h q = send-StepRule wnd rtomin first seg t h q
  send_segment-StepRule wnd rtomin timeout seg t h q = send-StepRule wnd rtomin timeout seg t h q
  send_segment-StepRule wnd rtomin fast seg t h q = send-StepRule wnd rtomin fast seg t h q

  abbrev LoopRule : Loop O → Type 0
  LoopRule (r, segs, t) = All S segs × Q t.kcp

  and_next-LoopRule :
      (segs : List KcpSegment) (next : Sending O → Loop O) (s : Step O)
      → All S segs
      → StepRule s
      → ((t : Sending O) → Q t.kcp → LoopRule (next t))
      → LoopRule (and_next segs next s)
  and_next-LoopRule segs next (ok _, seg, t) a (h, q) f = let l = f t q in ((h, l.0), l.1)
  and_next-LoopRule segs next (err e, seg, t) a (h, q) f = ((h, a), q)
  and_next-LoopRule segs next (panic, seg, t) a (h, q) f = ((h, a), q)

  send_loop-LoopRule :
      (wnd resent rtomin : ℕ) (segs : List KcpSegment) (t : Sending O)
      → All S segs
      → Q t.kcp
      → LoopRule (send_loop wnd resent rtomin segs t)
  unfolding send_loop
  send_loop-LoopRule wnd resent rtomin [] t a q = (tt, q)
  send_loop-LoopRule wnd resent rtomin (seg ∷ segs) t a q =
      and_next-LoopRule segs (send_loop wnd resent rtomin segs)
        (send_segment wnd rtomin (reason t.kcp resent seg) seg t) a.1
        (send_segment-StepRule wnd rtomin (reason t.kcp resent seg) seg t a.0 q)
        (λ t' q'. send_loop-LoopRule wnd resent rtomin segs t' a.1 q')

  store_rule :
      (l : Loop O)
      → ((segs : List KcpSegment) (k : Kcp O) → All S segs → Q k → Q (record k { snd_buf = segs }))
      → LoopRule l
      → Q (store l).1
  store_rule (ok _, segs, t) stored (a, q) = stored segs t.kcp a q
  store_rule (err e, segs, t) stored (a, q) = stored segs t.kcp a q
  store_rule (panic, segs, t) stored (a, q) = stored segs t.kcp a q

  write_rest_rule : (k : Kcp O) → Q k → Q (write_rest k).1
  unfolding write_rest
  write_rest_rule k q =
      if_rule (λ (r : Result (Unit {0}) × Kcp O). Q r.1) (length k.buf == 0) q (v.wrote k q)

  -- The part of `flush` that sends data, from the state in which the segments are admitted, where
  -- the segments that are sent can be put in place of those in flight.
  pub flush_data_rule :
      (wnd : ℕ) (k : Kcp O)
      → let a = admit k wnd (flush_wnd k) k.snd_queue k.snd_nxt in
        Q (record k { snd_queue = a.snd_queue; snd_nxt = a.snd_nxt })
        → All S k.snd_buf
        → All S a.fresh
        → ((segs : List KcpSegment) (k' : Kcp O)
            → All S segs
            → Q k'
            → Q (record k' { snd_buf = segs }))
        → Q (flush_data wnd k).1
  unfolding flush_data
  flush_data_rule wnd k q old new stored =
      let a = admit k wnd (flush_wnd k) k.snd_queue k.snd_nxt in
      let k1 = record k { snd_queue = a.snd_queue; snd_nxt = a.snd_nxt } in
      let t : Sending O = record { kcp = k1; lost = false; sns_of_lost = []; change = 0 } in
      bind_rule Q (store (send_loop wnd (resent_limit k) (rto_min k) (k.snd_buf ++ a.fresh) t)) _
        (store_rule _ stored (
          send_loop-LoopRule wnd (resent_limit k) (rto_min k) (k.snd_buf ++ a.fresh) t
            (All-append S k.snd_buf a.fresh old new) q))
        (λ t' k2 q2. bind_rule Q (write_rest k2) _ (write_rest_rule k2 q2) (λ _ k3 q3.
          v.same k3 _ (lower_cwnd-SameOutput (flush_wnd k) (resent_limit k) t'.lost t'.change k3)
            q3))

  bind_handed :
      {B : Type 0} (R : Kcp O → Type 0) (r : Result KcpSegment × Kcp O)
      (next : KcpSegment → Kcp O → Result B × Kcp O)
      → Handed r
      → ((k : Kcp O) → Q k → R k)
      → ((seg : KcpSegment) (k : Kcp O) → C seg → Q k → R (next seg k).1)
      → R (bind r next).1
  bind_handed R (ok seg, k) next (c, q) early f = f seg k c q
  bind_handed R (err e, k) next q early f = early k q
  bind_handed R (panic, k) next q early f = early k q

  bind_early :
      {A B : Type 0} (R : Kcp O → Type 0) (r : Result A × Kcp O)
      (next : A → Kcp O → Result B × Kcp O)
      → Q r.1
      → ((k : Kcp O) → Q k → R k)
      → ((a : A) (k : Kcp O) → Q k → R (next a k).1)
      → R (bind r next).1
  bind_early R (ok a, k) next q early f = f a k q
  bind_early R (err e, k) next q early f = early k q
  bind_early R (panic, k) next q early f = early k q

  -- A whole `flush`, for a property `R` of the state behind it.
  pub flush_rule :
      (R : Kcp O → Type 0) (k : Kcp O)
      → ((k' : Kcp O) → Q k' → R k')
      → ((wnd : ℕ) (k' : Kcp O) → Q k' → R (flush_data wnd k').1)
      → Q k
      → R (flush k).1
  unfolding flush
  flush_rule R k early sending q =
      if_rule (λ (r : Result Flushed × Kcp O). R r.1) (not k.updated) (early k q)
        (bind_handed R (flush_pending (template k) k) _ (flush_pending-Handed k q) early
          (λ seg k1 c q1.
            let k2 = probe_wnd_size k1 in
            bind_early R (flush_probe_commands seg k2) _
              (flush_probe_commands_rule seg k2 c (v.same k1 k2 (probe_wnd_size-SameOutput k1) q1))
              early (λ _ k3 q3. sending (template k).wnd k3 q3)))

  -- `flush_ack`
  pub flush_ack_rule : (k : Kcp O) → Q k → Q (flush_ack k).1
  unfolding flush_ack
  flush_ack_rule k q =
      if_rule (λ (r : Result (Unit {0}) × Kcp O). Q r.1) (not k.updated) q
        (bind_handed Q (flush_pending (template k) k) _ (flush_pending-Handed k q) (λ k' q'. q')
          (λ _ k' c q'. q'))
