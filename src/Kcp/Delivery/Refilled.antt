-- ===== src/Kcp/Delivery/Refilled.antt =====
-- `flush` of kcp/src/kcp.rs and the numbers given out: each goes into flight.
use kcp_scream_testspace.Common.{
  ℕ, ◌+◌, ◌^◌, ◌<◌, ◌≡◌, refl, inl, inr, Bool, true, false, Option, none, some, List, [], ◌++◌,
  All-append, All-map, length, arith, ltb, ◌==◌, Bool-cases, if_rule,
}
use kcp_scream_testspace.Kcp.Segment.{KcpSegment, encode, encoded_len}
use kcp_scream_testspace.Kcp.State.{ErrorKind, Kcp, Result, ok, err, panic, Write}
use kcp_scream_testspace.Kcp.Sequence.{SameSns}
use kcp_scream_testspace.Kcp.Flush.Output.{written, write_out, reserve, emit}
use kcp_scream_testspace.Kcp.Flush.Resend.{Sending, Loop, send_loop}
use kcp_scream_testspace.Kcp.Flush.{
  admit, flush_wnd, resent_limit, rto_min, write_rest, store, flush_data, flush, flush_ack,
}
use kcp_scream_testspace.Kcp.Flush.Fits.{bind_rule}
use kcp_scream_testspace.Kcp.Flush.Untouched.{lower_cwnd-SameOutput}
use kcp_scream_testspace.Kcp.Flush.Rule.{FlushRules, flush_rule, flush_ack_rule}
use kcp_scream_testspace.Kcp.Flush.Consistent.{
  write_out-Core, emit-Core, LoopSame, send_loop-LoopSame,
}
use kcp_scream_testspace.Kcp.Clock.{tick, flush_due, update}
use kcp_scream_testspace.Kcp.Delivery.Held.{
  Holds-append, SameSns-Holds, IsBelow, SameSns-IsBelow, admit-Fresh,
}
use kcp_scream_testspace.Kcp.Delivery.Retains.{Retains, same-Retains}

module _ {O : Type 0} ⦃w : Write O⦄ where
  written-snd_queue :
      (r : Option ErrorKind × O) (k : Kcp O) → (written r k).1.snd_queue ≡ k.snd_queue
  unfolding written
  written-snd_queue (none, o) k = refl
  written-snd_queue (some e, o) k = refl

  write_out-snd_queue : (k : Kcp O) → (write_out k).1.snd_queue ≡ k.snd_queue
  unfolding write_out
  write_out-snd_queue k = written-snd_queue (w.write_all k.output k.buf) k

  emit-snd_queue : (seg : KcpSegment) (k : Kcp O) → (emit seg k).1.snd_queue ≡ k.snd_queue
  unfolding emit reserve
  emit-snd_queue seg k =
      bind_rule (λ k'. k'.snd_queue ≡ k.snd_queue) (reserve (encoded_len seg) k)
        (λ _ k'. (ok tt, record k' { buf = encode seg k'.buf }))
        (if_rule (λ (r : Result (Unit {0}) × Kcp O). r.1.snd_queue ≡ k.snd_queue)
          (ltb k.mtu (length k.buf + encoded_len seg)) (write_out-snd_queue k) refl)
        (λ _ k' e. e)

module _ (Has : ℕ → Type 0) where
  module _ {O : Type 0} ⦃w : Write O⦄ where
    -- With room for the numbers of what is queued.
    abbrev NumberedWith : Kcp O → Type 0
    NumberedWith k = Retains Has k × (k.snd_nxt + length k.snd_queue < 2 ^ 31)

    same-NumberedWith :
        (k k' : Kcp O)
        → k'.snd_buf ≡ k.snd_buf
        → k'.snd_nxt ≡ k.snd_nxt
        → k'.snd_queue ≡ k.snd_queue
        → NumberedWith k
        → NumberedWith k'
    same-NumberedWith k k' e1 e2 e3 v = (same-Retains Has k k' e1 e2 v.0, rw (e2, e3) v.1)

    Retains-flush : FlushRules NumberedWith (λ seg. Unit {0}) (λ seg. Unit {0})
    Retains-flush = record {
      same = λ k k' s v. same-NumberedWith k k' s.4 s.5 s.3 v;
      emitted = λ seg k s v.
          let c = emit-Core seg k in
          same-NumberedWith k (emit seg k).1 c.1.2 c.1.1 (emit-snd_queue seg k) v;
      wrote = λ k v.
          let c = write_out-Core k in
          same-NumberedWith k (write_out k).1 c.1.2 c.1.1 (write_out-snd_queue k) v;
      stamped = λ seg seg' e1 e2 e3 s. tt;
      control = λ seg c. tt;
      templated = λ k. tt;
      acked = λ seg sn ts c. tt;
      probed = λ seg cmd e c. tt;
    }

    -- What is admitted goes into flight.
    admitted-Retains :
        (wnd : ℕ) (k : Kcp O) (segs : List KcpSegment) (k' : Kcp O)
        → k.snd_nxt + length k.snd_queue < 2 ^ 31
        → let a = admit k wnd (flush_wnd k) k.snd_queue k.snd_nxt in
          SameSns (k.snd_buf ++ a.fresh) segs
          → k'.snd_nxt ≡ a.snd_nxt
          → Retains Has k
          → Retains Has (record k' { snd_buf = segs })
    admitted-Retains wnd k segs k' few s e v =
        let a = admit k wnd (flush_wnd k) k.snd_queue k.snd_nxt in
        let f = admit-Fresh k wnd (flush_wnd k) k.snd_queue k.snd_nxt few in
        let wider : IsBelow a.snd_nxt k.snd_buf =
          All-map (λ x. x.sn < k.snd_nxt) (λ x. x.sn < a.snd_nxt)
            (λ x h. omega (arith, h, f.nxt_le)) k.snd_buf v.below in
        record {
          half = omega (arith, e, f.room_le, few);
          below = rw e (
              SameSns-IsBelow a.snd_nxt (k.snd_buf ++ a.fresh) segs s
                (All-append (λ x. x.sn < a.snd_nxt) k.snd_buf a.fresh wider f.all_below));
          kept = λ n h. elim (Bool-cases (ltb n k.snd_nxt)) [
            | inl old ↦ elim (v.kept n (ground arith)) [
              | inl has ↦ inl has
              | inr held ↦ inr (
                  SameSns-Holds n (k.snd_buf ++ a.fresh) segs s
                    (Holds-append n k.snd_buf a.fresh (inl held)))
            ]
            | inr new ↦
                let given = f.all_given n (ground arith) (rw (← e) h) in
                inr (
                  SameSns-Holds n (k.snd_buf ++ a.fresh) segs s
                    (Holds-append n k.snd_buf a.fresh (inr given)))
          ];
        }

    store-Retains :
        (wnd : ℕ) (k : Kcp O) (l : Loop O)
        → k.snd_nxt + length k.snd_queue < 2 ^ 31
        → let a = admit k wnd (flush_wnd k) k.snd_queue k.snd_nxt in
          LoopSame
            (record k { snd_queue = a.snd_queue; snd_nxt = a.snd_nxt })
            (k.snd_buf ++ a.fresh)
            l
          → Retains Has k
          → Retains Has (store l).1
    store-Retains wnd k (ok _, segs, t) few s v =
        admitted-Retains wnd k segs t.kcp few s.0 s.1.1.1 v
    store-Retains wnd k (err e, segs, t) few s v =
        admitted-Retains wnd k segs t.kcp few s.0 s.1.1.1 v
    store-Retains wnd k (panic, segs, t) few s v =
        admitted-Retains wnd k segs t.kcp few s.0 s.1.1.1 v

    write_rest-Retains : (k : Kcp O) → Retains Has k → Retains Has (write_rest k).1
    unfolding write_rest
    write_rest-Retains k v =
        let c = write_out-Core k in
        if_rule (λ (r : Result (Unit {0}) × Kcp O). Retains Has r.1) (length k.buf == 0) v
          (same-Retains Has k (write_out k).1 c.1.2 c.1.1 v)

    flush_data-Retains :
        (wnd : ℕ) (k : Kcp O)
        → k.snd_nxt + length k.snd_queue < 2 ^ 31
        → Retains Has k
        → Retains Has (flush_data wnd k).1
    unfolding flush_data
    flush_data-Retains wnd k few v =
        let Q : Kcp O → Type 0 = Retains Has in
        let a = admit k wnd (flush_wnd k) k.snd_queue k.snd_nxt in
        let k1 = record k { snd_queue = a.snd_queue; snd_nxt = a.snd_nxt } in
        let t : Sending O = record { kcp = k1; lost = false; sns_of_lost = []; change = 0 } in
        let l = send_loop wnd (resent_limit k) (rto_min k) (k.snd_buf ++ a.fresh) t in
        let same : LoopSame k1 (k.snd_buf ++ a.fresh) l =
          send_loop-LoopSame k1 wnd (resent_limit k) (rto_min k) (k.snd_buf ++ a.fresh) t
            ((refl, refl, refl), (refl, refl, refl, refl)) in
        bind_rule Q (store l) _ (store-Retains wnd k l few same v) (λ t' k2 v2.
          bind_rule Q (write_rest k2) _ (write_rest-Retains k2 v2) (λ _ k3 v3.
            let s = lower_cwnd-SameOutput (flush_wnd k) (resent_limit k) t'.lost t'.change k3 in
            same-Retains Has k3 _ s.4 s.5 v3))

    pub flush-Retains :
        (k : Kcp O)
        → k.snd_nxt + length k.snd_queue < 2 ^ 31
        → Retains Has k
        → Retains Has (flush k).1
    flush-Retains k few v =
        flush_rule NumberedWith (λ seg. Unit {0}) (λ seg. Unit {0}) Retains-flush (Retains Has) k
          (λ k' v'. v'.0) (λ wnd k' v'. flush_data-Retains wnd k' v'.1 v'.0) (v, few)

    pub flush_ack-Retains :
        (k : Kcp O)
        → k.snd_nxt + length k.snd_queue < 2 ^ 31
        → Retains Has k
        → Retains Has (flush_ack k).1
    flush_ack-Retains k few v =
        (flush_ack_rule NumberedWith (λ seg. Unit {0}) (λ seg. Unit {0}) Retains-flush k (v, few)).0

    tick-numbers :
        (current : ℕ) (k : Kcp O)
        → ((tick current k).1.snd_buf ≡ k.snd_buf)
          × ((tick current k).1.snd_nxt ≡ k.snd_nxt)
          × ((tick current k).1.snd_queue ≡ k.snd_queue)
    unfolding tick
    tick-numbers current k = ground arith

    flush_due-Retains :
        (t : Bool × Kcp O)
        → t.1.snd_nxt + length t.1.snd_queue < 2 ^ 31
        → Retains Has t.1
        → Retains Has (flush_due t).1
    flush_due-Retains (true, k) few v = flush-Retains k few v
    flush_due-Retains (false, k) few v = v

    pub update-Retains :
        (current : ℕ) (k : Kcp O)
        → k.snd_nxt + length k.snd_queue < 2 ^ 31
        → Retains Has k
        → Retains Has (update current k).1
    unfolding update
    update-Retains current k few v =
        let e = tick-numbers current k in
        flush_due-Retains (tick current k) (rw (e.1, e.2) few)
          (same-Retains Has k (tick current k).1 e.0 e.1 v)
