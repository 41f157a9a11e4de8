-- ===== src/Kcp/Steps.antt =====
-- A `Kcp` in use: the calls on it as steps from state to state.
use kcp_scream_testspace.Common.{
  ℕ, refl, Bool, true, false, List, All, arith, IsU8, inl, inr, if_rule, leb, length, ◌==◌, ◌≡◌,
  ◌≤◌, IsU16, ap,
}
use kcp_scream_testspace.Kcp.Segment.{KcpSegment}
use kcp_scream_testspace.Kcp.State.{Kcp, kcp_wnd_rcv, Result, Write, construct, timediff}
use kcp_scream_testspace.Kcp.Sequence.{IsOrdered, IsOrdered-widen}
use kcp_scream_testspace.Kcp.Settings.Calls.{Setting, Setting-Spares}
use kcp_scream_testspace.Kcp.Receive.{Inbox, move_buf, recv}
use kcp_scream_testspace.Kcp.Receive.Message.{later, recv_eq, recv_fails}
use kcp_scream_testspace.Kcp.Receive.Window.{move_buf-IsReceiver}
use kcp_scream_testspace.Kcp.Send.{Cut, fragment_count, extend_last, send_rest, send}
use kcp_scream_testspace.Kcp.Input.{input}
use kcp_scream_testspace.Kcp.Input.Invariant.{input-IsConsistent}
use kcp_scream_testspace.Kcp.Flush.{flush, flush_ack}
use kcp_scream_testspace.Kcp.Flush.Consistent.{Core, flush-IsConsistent, flush_ack-IsConsistent}
use kcp_scream_testspace.Kcp.Clock.{tick, flush_due, update}
use kcp_scream_testspace.Kcp.Invariant.{
  IsConsistent, SameBoth-IsConsistent, SameSender-IsSender, SameSender, construct-IsConsistent,
}

-- One call of the protocol engine, with whatever it returns. A setter may give any windows of 16
-- bits, but the receive window may only grow.
pub data Call {O : Type 0} ⦃w : Write O⦄ : Kcp O → Kcp O → Type 0 where
  input_called : {k : Kcp O} (bytes : List ℕ) → All IsU8 bytes → Call k (input bytes k).1
  recv_called : {k : Kcp O} (room : ℕ) → Call k (recv room k).1
  send_called : {k : Kcp O} (bytes : List ℕ) → Call k (send bytes k).1
  update_called : {k : Kcp O} (current : ℕ) → Call k (update current k).1
  flush_called : {k : Kcp O} → Call k (flush k).1
  flush_ack_called : {k : Kcp O} → Call k (flush_ack k).1
  setter_called :
      {k k' : Kcp O}
      → Setting k k'
      → IsU16 k'.snd_wnd
      → IsU16 k'.rcv_wnd
      → k.rcv_wnd ≤ k'.rcv_wnd
      → Call k k'

-- Any number of calls.
pub data Calls {O : Type 0} ⦃w : Write O⦄ : Kcp O → Kcp O → Type 0 where
  none_called : {k : Kcp O} → Calls k k
  called : {k k' k'' : Kcp O} → Call k k' → Calls k' k'' → Calls k k''

module _ {O : Type 0} where
  queued-IsConsistent :
      (segs : List KcpSegment) (k : Kcp O)
      → IsConsistent k
      → IsConsistent (record k { snd_queue = segs })
  queued-IsConsistent segs k v =
      SameBoth-IsConsistent k (record k { snd_queue = segs }) (refl, refl, refl)
        (refl, refl, refl, refl) v

  send_rest-IsConsistent : (c : Cut) (k : Kcp O) → IsConsistent k → IsConsistent (send_rest c k).1
  unfolding send_rest
  send_rest-IsConsistent c k v =
      if_rule (λ (r : Result ℕ × Kcp O). IsConsistent r.1)
        (leb kcp_wnd_rcv (fragment_count k.mss c.rest)) (queued-IsConsistent _ k v)
        (queued-IsConsistent _ k v)

  pub send-IsConsistent :
      (bytes : List ℕ) (k : Kcp O) → IsConsistent k → IsConsistent (send bytes k).1
  unfolding send
  send-IsConsistent bytes k v =
      let Q : Result ℕ × Kcp O → Type 0 = λ r. IsConsistent r.1 in
      let c = extend_last k.mss bytes k.snd_queue in
      if_rule Q (k.mss == 0) v (
        if_rule Q k.stream
          (if_rule Q (length c.rest == 0) (queued-IsConsistent c.segs k v)
            (send_rest-IsConsistent c k v))
          (send_rest-IsConsistent _ k v))

  move_buf-SameSender : (k : Kcp O) → SameSender k (move_buf k)
  unfolding move_buf
  move_buf-SameSender k = (refl, refl, refl, refl)

  move_buf-IsConsistent : (k : Kcp O) → IsConsistent k → IsConsistent (move_buf k)
  move_buf-IsConsistent k v = record {
    receiver = move_buf-IsReceiver k v.receiver;
    sender = SameSender-IsSender k (move_buf k) (move_buf-SameSender k) v.sender;
  }

  pub recv-IsConsistent : (room : ℕ) (k : Kcp O) → IsConsistent k → IsConsistent (recv room k).1
  recv-IsConsistent room k v = elim (recv_fails room k) [
    | inl (size, e, h, _) ↦
        let s = record k { rcv_queue = later k.rcv_queue } in
        rw (recv_eq room k size e h) (
          SameBoth-IsConsistent (move_buf s) _ (refl, refl, refl) (refl, refl, refl, refl)
            (move_buf-IsConsistent s
              (SameBoth-IsConsistent k s (refl, refl, refl) (refl, refl, refl, refl) v)))
    | inr (x, e, _) ↦ rw e v
  ]

  setter-IsConsistent :
      {k k' : Kcp O}
      → Setting k k'
      → IsU16 k'.snd_wnd
      → IsU16 k'.rcv_wnd
      → k.rcv_wnd ≤ k'.rcv_wnd
      → IsConsistent k
      → IsConsistent k'
  setter-IsConsistent {k = k} {k' = k'} t hs hr grows v =
      let e = Setting-Spares t in
      let nxt_eq : k'.rcv_nxt ≡ k.rcv_nxt = ap (λ (i : Inbox). i.rcv_nxt) e.6 in
      let buf_eq : k'.rcv_buf ≡ k.rcv_buf = ap (λ (i : Inbox). i.rcv_buf) e.6 in
      let wide : IsOrdered k.rcv_nxt 0 k'.rcv_wnd k.rcv_buf =
        IsOrdered-widen k.rcv_nxt 0 k.rcv_wnd k'.rcv_wnd k.rcv_buf grows v.receiver.ordered in
      let flight : IsOrdered k.snd_una 0 (timediff k.snd_nxt k.snd_una) k.snd_buf =
        v.sender.in_flight in
      record {
        receiver = record {
          nxt_lt = rw nxt_eq v.receiver.nxt_lt;
          wnd_lt = hr;
          ordered = rw (nxt_eq, buf_eq) wide;
        };
        sender = record {
          una_lt = rw e.4 v.sender.una_lt;
          nxt_lt = rw e.5 v.sender.nxt_lt;
          near = rw (e.4, e.5) v.sender.near;
          wnd_lt = hs;
          in_flight = rw (e.3, e.4, e.5) flight;
        };
      }

  tick-Core : (current : ℕ) (k : Kcp O) → Core k (tick current k).1
  unfolding tick
  tick-Core current k = ground arith

module _ {O : Type 0} ⦃w : Write O⦄ where
  flush_due-IsConsistent : (t : Bool × Kcp O) → IsConsistent t.1 → IsConsistent (flush_due t).1
  flush_due-IsConsistent (true, k) v = flush-IsConsistent k v
  flush_due-IsConsistent (false, k) v = v

  pub update-IsConsistent :
      (current : ℕ) (k : Kcp O) → IsConsistent k → IsConsistent (update current k).1
  unfolding update
  update-IsConsistent current k v =
      let c = tick-Core current k in
      flush_due-IsConsistent (tick current k) (SameBoth-IsConsistent k (tick current k).1 c.0 c.1 v)

  Call-IsConsistent : {k k' : Kcp O} → Call k k' → IsConsistent k → IsConsistent k'
  Call-IsConsistent {k = k} (input_called bytes a) v = input-IsConsistent bytes k a v
  Call-IsConsistent {k = k} (recv_called room) v = recv-IsConsistent room k v
  Call-IsConsistent {k = k} (send_called bytes) v = send-IsConsistent bytes k v
  Call-IsConsistent {k = k} (update_called current) v = update-IsConsistent current k v
  Call-IsConsistent {k = k} flush_called v = flush-IsConsistent k v
  Call-IsConsistent {k = k} flush_ack_called v = flush_ack-IsConsistent k v
  Call-IsConsistent (setter_called t hs hr grows) v = setter-IsConsistent t hs hr grows v

  Calls-IsConsistent : {k k' : Kcp O} → Calls k k' → IsConsistent k → IsConsistent k'
  Calls-IsConsistent none_called v = v
  Calls-IsConsistent (called c cs) v = Calls-IsConsistent cs (Call-IsConsistent c v)

  -- After any sequence of calls of `input`, `recv`, `send`, `update`, `flush`, `flush_ack` and the
  -- setters on a new `Kcp`, whatever the datagrams, the writer and the results, both sequence spaces
  -- are in order: the receive buffer holds each number once, inside the window, and the numbers in
  -- flight lie in order between `snd_una` and `snd_nxt`, less than 2 ^ 16 apart. The windows that
  -- the setters leave are of 16 bits, and no setter shrinks the receive window.
  pub reached-IsConsistent :
      (conv : ℕ) (output : O) (stream : Bool) (k : Kcp O)
      → Calls (construct conv output stream) k
      → IsConsistent k
  reached-IsConsistent conv output stream k cs =
      Calls-IsConsistent cs (construct-IsConsistent conv output stream)
