-- ===== src/Kcp/Delivery/Acked.antt =====
-- The sending end of kcp/src/kcp.rs while it receives: `input` of anything at all, and `recv`.
use kcp_scream_testspace.Common.{
  ℕ, ◌+◌, refl, not, ◌||◌, List, [], ◌∷◌, All, length, ◌==◌, if_rule, ltb, u32, is_positive,
  is_negative, inl, inr,
}
use kcp_scream_testspace.Kcp.Segment.{KcpSegment}
use kcp_scream_testspace.Kcp.State.{Kcp, Write, timediff}
use kcp_scream_testspace.Kcp.Receive.{move_buf, parse_data, recv}
use kcp_scream_testspace.Kcp.Receive.Message.{recv_eq, recv_fails}
use kcp_scream_testspace.Kcp.Ack.{
  shrink_buf, drop_una, remove_sn, count_fastack, parse_una, parse_ack, parse_fastack,
}
use kcp_scream_testspace.Kcp.Input.{input}
use kcp_scream_testspace.Kcp.Input.Rule.{InputRules, input_rule, take_push_rule}
use kcp_scream_testspace.Kcp.Delivery.Wire.{Sound}
use kcp_scream_testspace.Kcp.Delivery.Channel.{Channel, Wired, same-Wired, stored-Wired}
use kcp_scream_testspace.Kcp.Delivery.Sender.{Sends, Wired-Sends}

-- Acknowledgements take segments out of `snd_buf` and count in it, no more.
module _ (history : List (List ℕ)) where
  All-drop_una :
      (una : ℕ) (segs : List KcpSegment)
      → All (Sound history) segs
      → All (Sound history) (drop_una una segs)
  unfolding drop_una
  All-drop_una una [] a = a
  All-drop_una una (seg ∷ segs) (s, a) =
      if_rule (All (Sound history)) (is_positive (timediff una seg.sn)) {y = seg ∷ segs}
        (All-drop_una una segs a) (s, a)

  All-remove_sn :
      (sn : ℕ) (segs : List KcpSegment)
      → All (Sound history) segs
      → All (Sound history) (remove_sn sn segs)
  unfolding remove_sn
  All-remove_sn sn [] a = a
  All-remove_sn sn (seg ∷ segs) (s, a) =
      if_rule (All (Sound history)) (sn == seg.sn) a
        (if_rule (All (Sound history)) (ltb sn seg.sn) (s, a) (s, All-remove_sn sn segs a))

  All-count_fastack :
      (sn ts : ℕ) (segs : List KcpSegment)
      → All (Sound history) segs
      → All (Sound history) (count_fastack sn ts segs)
  unfolding count_fastack
  All-count_fastack sn ts [] a = a
  All-count_fastack sn ts (seg ∷ segs) (s, a) =
      if_rule (All (Sound history)) (is_negative (timediff sn seg.sn)) (s, a)
        (record { len_lt = s.len_lt; known = s.known }, All-count_fastack sn ts segs a)

module _ {O : Type 0} ⦃w : Write O⦄ (c : Channel O) (history : List (List ℕ)) where
  module _ (queue : List KcpSegment) (nxt : ℕ) where
    parse_data-Wired :
        (seg : KcpSegment) (k : Kcp O)
        → Wired c history queue nxt k
        → Wired c history queue nxt (parse_data seg k)
    unfolding parse_data move_buf
    parse_data-Wired seg k v =
        if_rule (Wired c history queue nxt)
          (not (is_negative (timediff seg.sn (u32 (k.rcv_nxt + k.rcv_wnd))))
            || is_negative (timediff seg.sn k.rcv_nxt))
          v (same-Wired c history queue nxt k _ refl refl refl refl refl refl v)

    Wired-input : InputRules (Wired c history queue nxt) (λ h rest. Unit {0})
    unfolding parse_una parse_ack parse_fastack shrink_buf
    Wired-input = record {
      same = λ k k' s v. same-Wired c history queue nxt k k' s.0 s.1 s.2 s.3 s.4 s.8 v;
      shrunk = λ k v. same-Wired c history queue nxt k _ refl refl refl refl refl refl v;
      una = λ h rest k _ v.
          stored-Wired c history queue nxt (drop_una h.una k.snd_buf) k
            (All-drop_una history h.una k.snd_buf v.flight_sound) v;
      acked = λ h rest k _ _ v. if_rule (Wired c history queue nxt) _ v (
          stored-Wired c history queue nxt (remove_sn h.sn k.snd_buf) k
            (All-remove_sn history h.sn k.snd_buf v.flight_sound) v);
      passed = λ sn ts k v. if_rule (Wired c history queue nxt) _ v (
          stored-Wired c history queue nxt (count_fastack sn ts k.snd_buf) k
            (All-count_fastack history sn ts k.snd_buf v.flight_sound) v);
      arrived = λ h rest p _ _ v.
          take_push_rule (Wired c history queue nxt) h rest p
            (λ k k' s v'. same-Wired c history queue nxt k k' s.0 s.1 s.2 s.3 s.4 s.8 v')
            (λ k v'. parse_data-Wired _ k v') v;
    }

    input-Wired :
        (bytes : List ℕ) (k : Kcp O)
        → Wired c history queue nxt k
        → Wired c history queue nxt (input bytes k).1
    input-Wired bytes k v =
        input_rule (Wired c history queue nxt) (λ h rest. Unit {0}) Wired-input (λ bytes. Unit {0})
          (λ bytes h rest _ _. (tt, tt)) bytes k tt v

    recv-Wired :
        (room : ℕ) (k : Kcp O)
        → Wired c history queue nxt k
        → Wired c history queue nxt (recv room k).1
    unfolding move_buf
    recv-Wired room k v = elim (recv_fails room k) [
      | inl (size, e, h, _) ↦
          rw (recv_eq room k size e h)
            (same-Wired c history queue nxt k _ refl refl refl refl refl refl v)
      | inr (x, e, _) ↦ rw e v
    ]

  -- Whatever arrives, `input` leaves the sender's own data as they are, but for what is acknowledged.
  pub input-Sends :
      (bytes : List ℕ) (arrived : List ℕ) (k : Kcp O)
      → Sends c history bytes k
      → Sends c history bytes (input arrived k).1
  input-Sends bytes arrived k s =
      Wired-Sends c history bytes k.snd_queue (input arrived k).1 s.queue_small s.few s.bytes_eq
        (input-Wired k.snd_queue (length history) arrived k s.wired)

  pub recv-Sends :
      (bytes : List ℕ) (room : ℕ) (k : Kcp O)
      → Sends c history bytes k
      → Sends c history bytes (recv room k).1
  recv-Sends bytes room k s =
      Wired-Sends c history bytes k.snd_queue (recv room k).1 s.queue_small s.few s.bytes_eq
        (recv-Wired k.snd_queue (length history) room k s.wired)
