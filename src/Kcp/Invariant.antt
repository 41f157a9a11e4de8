-- ===== src/Kcp/Invariant.antt =====
-- What holds of a `Kcp` of kcp/src/kcp.rs between calls.
use kcp_scream_testspace.Common.{◌^◌, ◌<◌, IsU16, ℕ, ◌+◌, ◌≡◌, List, [], ◌∷◌, arith, IsU32, Bool}
use kcp_scream_testspace.Kcp.Segment.{KcpSegment}
use kcp_scream_testspace.Kcp.State.{Kcp, timediff, construct}
use kcp_scream_testspace.Kcp.Sequence.{
  ahead, IsOrdered, IsOrdered-rebase, timediff_between, timediff_self,
}
use kcp_scream_testspace.Kcp.Ack.{first_sn, shrink_buf}
use kcp_scream_testspace.Kcp.Receive.Window.{IsReceiver}

-- The segments in flight are in order, each number once, from `snd_una` on and before `snd_nxt`,
-- and the two are less than 2 ^ 16 apart.
pub record IsSender {O : Type 0} (k : Kcp O) : Type 0 where
  pub una_lt : IsU32 k.snd_una
  pub nxt_lt : IsU32 k.snd_nxt
  pub near : timediff k.snd_nxt k.snd_una < 2 ^ 16
  pub wnd_lt : IsU16 k.snd_wnd
  pub in_flight : IsOrdered k.snd_una 0 (timediff k.snd_nxt k.snd_una) k.snd_buf

pub record IsConsistent {O : Type 0} (k : Kcp O) : Type 0 where
  pub receiver : IsReceiver k
  pub sender : IsSender k

module _ {O : Type 0} where
  -- An operation that leaves the receiver's fields, or the sender's, keeps that half.
  abbrev pub SameReceiver : Kcp O → Kcp O → Type 0
  SameReceiver k k' = (k'.rcv_nxt ≡ k.rcv_nxt) × (k'.rcv_wnd ≡ k.rcv_wnd) × (k'.rcv_buf ≡ k.rcv_buf)

  abbrev pub SameSender : Kcp O → Kcp O → Type 0
  SameSender k k' =
      (k'.snd_una ≡ k.snd_una)
      × (k'.snd_nxt ≡ k.snd_nxt)
      × (k'.snd_buf ≡ k.snd_buf)
      × (k'.snd_wnd ≡ k.snd_wnd)

  pub SameReceiver-IsReceiver : (k k' : Kcp O) → SameReceiver k k' → IsReceiver k → IsReceiver k'
  SameReceiver-IsReceiver k k' s v = record {
    nxt_lt = rw s.0 v.nxt_lt;
    wnd_lt = rw s.1 v.wnd_lt;
    ordered = rw (s.0, s.1, s.2) v.ordered;
  }

  pub SameSender-IsSender : (k k' : Kcp O) → SameSender k k' → IsSender k → IsSender k'
  SameSender-IsSender k k' s v = record {
    una_lt = rw s.0 v.una_lt;
    nxt_lt = rw s.1 v.nxt_lt;
    near = rw (s.0, s.1) v.near;
    wnd_lt = rw s.3 v.wnd_lt;
    in_flight = rw (s.0, s.1, s.2) v.in_flight;
  }

  pub SameBoth-IsConsistent :
      (k k' : Kcp O) → SameReceiver k k' → SameSender k k' → IsConsistent k → IsConsistent k'
  SameBoth-IsConsistent k k' r s v = record {
    receiver = SameReceiver-IsReceiver k k' r v.receiver;
    sender = SameSender-IsSender k k' s v.sender;
  }

-- The first number in flight lies between the old `snd_una` and `snd_nxt`, and serves as base.
pub record Advances (una nxt : ℕ) (segs : List KcpSegment) (una' : ℕ) : Type 0 where
  pub una_lt : IsU32 una'
  pub distance : timediff nxt una' + timediff una' una ≡ timediff nxt una
  pub ordered : IsOrdered una' 0 (timediff nxt una') segs

first_sn-Advances :
    (una nxt : ℕ) (segs : List KcpSegment)
    → IsU32 una
    → IsU32 nxt
    → IsOrdered una 0 (timediff nxt una) segs
    → Advances una nxt segs (first_sn segs nxt)
unfolding first_sn
first_sn-Advances una nxt [] hu hn o = record {
  una_lt = hn;
  distance = omega (arith, timediff_self nxt hn);
  ordered = tt;
}
first_sn-Advances una nxt (seg ∷ segs) hu hn o =
    let d = timediff_between una seg.sn nxt hu o.0 hn (omega arith) in
    record {
      una_lt = o.0;
      distance = d;
      ordered =
          IsOrdered-rebase una seg.sn (ahead una seg) 0 (timediff nxt una) (timediff nxt seg.sn)
            (seg ∷ segs) hu o.0 (omega arith) (omega (arith, d)) (o.0, omega arith, o.2, o.3);
    }

-- `shrink_buf` keeps the sender's order, and moves `snd_una` forward only.
pub shrink_buf-IsSender :
    {O : Type 0} (k : Kcp O)
    → IsSender k
    → IsSender (shrink_buf k)
      × (timediff k.snd_nxt (shrink_buf k).snd_una + timediff (shrink_buf k).snd_una k.snd_una
          ≡ timediff k.snd_nxt k.snd_una)
unfolding shrink_buf
shrink_buf-IsSender k v =
    let a = first_sn-Advances k.snd_una k.snd_nxt k.snd_buf v.una_lt v.nxt_lt v.in_flight in
    (
      record {
        una_lt = a.una_lt;
        nxt_lt = v.nxt_lt;
        near = omega (arith, a.distance, v.near);
        wnd_lt = v.wnd_lt;
        in_flight = a.ordered;
      },
      a.distance,
    )

-- A new `Kcp` is consistent.
pub construct-IsConsistent :
    {O : Type 0} (conv : ℕ) (output : O) (stream : Bool)
    → IsConsistent (construct conv output stream)
unfolding construct timediff
construct-IsConsistent conv output stream = record {
  receiver = record { nxt_lt = omega arith; wnd_lt = omega arith; ordered = tt };
  sender = record {
    una_lt = omega arith;
    nxt_lt = omega arith;
    near = omega arith;
    wnd_lt = omega arith;
    in_flight = tt;
  };
}
