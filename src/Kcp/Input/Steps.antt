-- ===== src/Kcp/Input/Steps.antt =====
-- The parts of `input` in kcp/src/kcp.rs that process acknowledgements and data.
use kcp_scream_testspace.Common.{ℕ, refl, arith, Bool-cases, inl, inr, IsU32}
use kcp_scream_testspace.Kcp.Segment.{KcpSegment}
use kcp_scream_testspace.Kcp.State.{Kcp, timediff}
use kcp_scream_testspace.Kcp.Receive.{parse_data, move_buf}
use kcp_scream_testspace.Kcp.Receive.Window.{parse_data-Takes}
use kcp_scream_testspace.Kcp.Ack.{
  shrink_buf, parse_ack, parse_una, parse_fastack, remove_sn, count_fastack, is_outside,
}
use kcp_scream_testspace.Kcp.Ack.Removal.{
  drop_una-IsOrdered, remove_sn-IsOrdered, count_fastack-IsOrdered,
}
use kcp_scream_testspace.Kcp.Invariant.{
  SameSender, SameReceiver-IsReceiver, SameSender-IsSender, IsConsistent, shrink_buf-IsSender,
}

module _ {O : Type 0} where
  pub parse_una-IsConsistent :
      (una : ℕ) (k : Kcp O) → IsConsistent k → IsConsistent (parse_una una k)
  unfolding parse_una
  parse_una-IsConsistent una k v = record {
    receiver = SameReceiver-IsReceiver k (parse_una una k) (refl, refl, refl) v.receiver;
    sender = record {
      una_lt = v.sender.una_lt;
      nxt_lt = v.sender.nxt_lt;
      near = v.sender.near;
      wnd_lt = v.sender.wnd_lt;
      in_flight =
          drop_una-IsOrdered una k.snd_una 0 (timediff k.snd_nxt k.snd_una) k.snd_buf
            v.sender.in_flight;
    };
  }

  pub shrink_buf-IsConsistent : (k : Kcp O) → IsConsistent k → IsConsistent (shrink_buf k)
  unfolding shrink_buf
  shrink_buf-IsConsistent k v = record {
    receiver = SameReceiver-IsReceiver k (shrink_buf k) (refl, refl, refl) v.receiver;
    sender = (shrink_buf-IsSender k v.sender).0;
  }

  pub parse_ack-IsConsistent : (sn : ℕ) (k : Kcp O) → IsConsistent k → IsConsistent (parse_ack sn k)
  unfolding parse_ack
  parse_ack-IsConsistent sn k v = elim (Bool-cases (is_outside sn k)) [
    | inl out ↦ rw out v
    | inr here ↦ rw here (record {
      receiver =
          SameReceiver-IsReceiver k (record k { snd_buf = remove_sn sn k.snd_buf })
            (refl, refl, refl) v.receiver;
      sender = record {
        una_lt = v.sender.una_lt;
        nxt_lt = v.sender.nxt_lt;
        near = v.sender.near;
        wnd_lt = v.sender.wnd_lt;
        in_flight =
            remove_sn-IsOrdered sn k.snd_una 0 (timediff k.snd_nxt k.snd_una) k.snd_buf
              v.sender.in_flight;
      };
    })
  ]

  pub parse_fastack-IsConsistent :
      (sn ts : ℕ) (k : Kcp O) → IsConsistent k → IsConsistent (parse_fastack sn ts k)
  unfolding parse_fastack
  parse_fastack-IsConsistent sn ts k v = elim (Bool-cases (is_outside sn k)) [
    | inl out ↦ rw out v
    | inr here ↦ rw here (record {
      receiver =
          SameReceiver-IsReceiver k (record k { snd_buf = count_fastack sn ts k.snd_buf })
            (refl, refl, refl) v.receiver;
      sender = record {
        una_lt = v.sender.una_lt;
        nxt_lt = v.sender.nxt_lt;
        near = v.sender.near;
        wnd_lt = v.sender.wnd_lt;
        in_flight =
            count_fastack-IsOrdered sn ts k.snd_una 0 (timediff k.snd_nxt k.snd_una) k.snd_buf
              v.sender.in_flight;
      };
    })
  ]

  parse_data-SameSender : (seg : KcpSegment) (k : Kcp O) → SameSender k (parse_data seg k)
  unfolding parse_data move_buf
  parse_data-SameSender seg k = ground arith

  pub parse_data-IsConsistent :
      (seg : KcpSegment) (k : Kcp O)
      → IsU32 seg.sn
      → IsConsistent k
      → IsConsistent (parse_data seg k)
  parse_data-IsConsistent seg k h v = record {
    receiver = (parse_data-Takes seg k v.receiver h).0;
    sender = SameSender-IsSender k (parse_data seg k) (parse_data-SameSender seg k) v.sender;
  }
