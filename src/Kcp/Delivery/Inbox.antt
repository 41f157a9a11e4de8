-- ===== src/Kcp/Delivery/Inbox.antt =====
-- The calls of kcp/src/kcp.rs that leave `rcv_buf`, `rcv_queue` and `rcv_nxt` as they are: those of
-- the sender.
use kcp_scream_testspace.Common.{
  ℕ, ◌≡◌, refl, ◌∙◌, Bool, true, false, Option, none, some, List, [], ◌∷◌, All, length, arith, leb,
  ◌==◌, if_rule,
}
use kcp_scream_testspace.Kcp.Segment.{KcpSegment, encode}
use kcp_scream_testspace.Kcp.State.{Kcp, Result, ok, err, panic, Write, ErrorKind, kcp_wnd_rcv}
use kcp_scream_testspace.Kcp.Receive.{Inbox}
use kcp_scream_testspace.Kcp.Receive.Order.{inbox}
use kcp_scream_testspace.Kcp.Send.{Cut, extend_last, fragment_count, send_rest, send}
use kcp_scream_testspace.Kcp.Clock.{tick, flush_due, update}
use kcp_scream_testspace.Kcp.Flush.Output.{bind, written, write_out, reserve, emit}
use kcp_scream_testspace.Kcp.Flush.{flush, flush_ack}
use kcp_scream_testspace.Kcp.Flush.Rule.{FlushRules, flush_rule, flush_data_rule, flush_ack_rule}

module _ {O : Type 0} ⦃w : Write O⦄ where
  written-inbox : (r : Option ErrorKind × O) (k : Kcp O) → inbox (written r k).1 ≡ inbox k
  unfolding written
  written-inbox (none, o) k = refl
  written-inbox (some e, o) k = refl

  write_out-inbox : (k : Kcp O) → inbox (write_out k).1 ≡ inbox k
  unfolding write_out
  write_out-inbox k = written-inbox (w.write_all k.output k.buf) k

  bind-inbox :
      {A B : Type 0} (r : Result A × Kcp O) (next : A → Kcp O → Result B × Kcp O) (k : Kcp O)
      → inbox r.1 ≡ inbox k
      → ((a : A) (k' : Kcp O) → inbox (next a k').1 ≡ inbox k')
      → inbox (bind r next).1 ≡ inbox k
  bind-inbox (ok a, k') next k e f = f a k' ∙ e
  bind-inbox (err x, k') next k e f = e
  bind-inbox (panic, k') next k e f = e

  emit-inbox : (seg : KcpSegment) (k : Kcp O) → inbox (emit seg k).1 ≡ inbox k
  unfolding emit reserve
  emit-inbox seg k =
      bind-inbox _ (λ _ k'. (ok tt, record k' { buf = encode seg k'.buf })) k
        (if_rule (λ (r : Result (Unit {0}) × Kcp O). inbox r.1 ≡ inbox k) _ (write_out-inbox k)
          refl)
        (λ a k'. refl)

  -- What holds of the inbox is kept by all that a flush does.
  inbox_flush :
      (P : Inbox → Type 0)
      → FlushRules (λ (k : Kcp O). P (inbox k)) (λ seg. Unit {0}) (λ seg. Unit {0})
  inbox_flush P = record {
    same = λ k k' s p. rw (s.7, s.8, s.9) p;
    emitted = λ seg k s p. rw (emit-inbox seg k) p;
    wrote = λ k p. rw (write_out-inbox k) p;
    stamped = λ seg seg' e1 e2 e3 s. tt;
    control = λ seg c. tt;
    templated = λ k. tt;
    acked = λ seg sn ts c. tt;
    probed = λ seg cmd e c. tt;
  }

  pub flush-inbox : (P : Inbox → Type 0) (k : Kcp O) → P (inbox k) → P (inbox (flush k).1)
  flush-inbox P k p =
      let Q : Kcp O → Type 0 = λ k. P (inbox k) in
      flush_rule Q (λ seg. Unit {0}) (λ seg. Unit {0}) (inbox_flush P) Q k (λ k' q. q)
        (λ wnd k' q.
          flush_data_rule Q (λ seg. Unit {0}) (λ seg. Unit {0}) (inbox_flush P) wnd k' q
            (all_true _) (all_true _) (λ segs k'' a q'. q'))
        p
    where
      all_true : (segs : List KcpSegment) → All (λ seg. Unit {0}) segs
      all_true [] = tt
      all_true (seg ∷ segs) = (tt, all_true segs)

  pub flush_ack-inbox : (P : Inbox → Type 0) (k : Kcp O) → P (inbox k) → P (inbox (flush_ack k).1)
  flush_ack-inbox P k p =
      flush_ack_rule (λ k. P (inbox k)) (λ seg. Unit {0}) (λ seg. Unit {0}) (inbox_flush P) k p

  tick-inbox : (current : ℕ) (k : Kcp O) → inbox (tick current k).1 ≡ inbox k
  unfolding tick
  tick-inbox current k = ground arith

  pub update-inbox :
      (P : Inbox → Type 0) (current : ℕ) (k : Kcp O) → P (inbox k) → P (inbox (update current k).1)
  unfolding update
  update-inbox P current k p = go (tick current k) (rw (tick-inbox current k) p)
    where
      go : (t : Bool × Kcp O) → P (inbox t.1) → P (inbox (flush_due t).1)
      go (true, k') q = flush-inbox P k' q
      go (false, k') q = q

module _ {O : Type 0} where
  send_rest-inbox : (c : Cut) (k : Kcp O) → inbox (send_rest c k).1 ≡ inbox k
  unfolding send_rest
  send_rest-inbox c k =
      if_rule (λ (r : Result ℕ × Kcp O). inbox r.1 ≡ inbox k)
        (leb kcp_wnd_rcv (fragment_count k.mss c.rest)) refl refl

  pub send-inbox : (bytes : List ℕ) (k : Kcp O) → inbox (send bytes k).1 ≡ inbox k
  unfolding send
  send-inbox bytes k =
      let Q : Result ℕ × Kcp O → Type 0 = λ r. inbox r.1 ≡ inbox k in
      let c = extend_last k.mss bytes k.snd_queue in
      if_rule Q (k.mss == 0) refl (
        if_rule Q k.stream (if_rule Q (length c.rest == 0) refl (send_rest-inbox c k))
          (send_rest-inbox _ k))
