-- ===== src/Kcp/Delivery/Retains.antt =====
-- `snd_buf` of kcp/src/kcp.rs and the numbers given out: `input`, `recv` and `send`.
use kcp_scream_testspace.Common.{
  ℕ, ◌+◌, ◌^◌, ◌<◌, ◌≡◌, refl, sym, subst, ◌⊎◌, inl, inr, true, some, List, length, drop, u32, leb,
  ◌==◌, if_rule, is_negative, not, ◌||◌, IsU32,
}
use kcp_scream_testspace.Kcp.Segment.{KcpSegment, Header, get_header}
use kcp_scream_testspace.Kcp.State.{Kcp, Result, timediff, kcp_cmd_ack, kcp_wnd_rcv}
use kcp_scream_testspace.Kcp.Ack.{
  shrink_buf, drop_una, remove_sn, count_fastack, parse_una, parse_ack, parse_fastack,
}
use kcp_scream_testspace.Kcp.Receive.{move_buf, parse_data, recv}
use kcp_scream_testspace.Kcp.Receive.Message.{recv_eq, recv_fails}
use kcp_scream_testspace.Kcp.Send.{Cut, extend_last, fragment_count, send_rest, send}
use kcp_scream_testspace.Kcp.Input.{input}
use kcp_scream_testspace.Kcp.Input.Rule.{InputRules, input_rule, take_push_rule}
use kcp_scream_testspace.Kcp.Delivery.Wire.{Framed, Framed-ReadsOne}
use kcp_scream_testspace.Kcp.Delivery.Held.{
  Holds, IsBelow, Thins, drop_una-Thins, remove_sn-Thins, count_fastack-Thins,
}

module _ (Has : ℕ → Type 0) where
  -- What a segment acknowledges, `Has` has: the numbers before its `una`, and its own number if it
  -- is an acknowledgement.
  pub record Vouches (seg : KcpSegment) : Type 0 where
    pub len_lt : IsU32 (length seg.payload)
    pub una_has : (n : ℕ) → n < u32 seg.una → Has n
    pub sn_has : (seg.cmd == kcp_cmd_ack) ≡ true → Has (u32 seg.sn)

  -- A header whose acknowledgements `Has` has.
  abbrev VouchesAt : Header → List ℕ → Type 0
  VouchesAt h rest = ((n : ℕ) → n < h.una → Has n) × ((h.cmd == kcp_cmd_ack) ≡ true → Has h.sn)

  Vouches-read :
      (bytes : List ℕ) (h : Header) (rest : List ℕ)
      → Framed Vouches bytes
      → get_header bytes ≡ some (h, rest)
      → VouchesAt h rest × Framed Vouches (drop h.len rest)
  Vouches-read bytes h rest c e =
      let r = Framed-ReadsOne Vouches (λ seg s. s.len_lt) bytes h rest c e in
      (
        (
          λ n below. r.seg_is.una_has n (subst (λ x. n < x.una) r.header_eq below),
          λ ack.
              subst (λ x. Has x.sn) (sym r.header_eq)
                (r.seg_is.sn_has (subst (λ x. (x.cmd == kcp_cmd_ack) ≡ true) r.header_eq ack)),
        ),
        r.others,
      )

  -- Every number given out is one that `Has` has, or has a segment in flight.
  pub record Retains {O : Type 0} (k : Kcp O) : Type 0 where
    pub half : k.snd_nxt < 2 ^ 31
    pub below : IsBelow k.snd_nxt k.snd_buf
    pub kept : (n : ℕ) → n < k.snd_nxt → Has n ⊎ Holds n k.snd_buf

  module _ {O : Type 0} where
    pub same-Retains :
        (k k' : Kcp O) → k'.snd_buf ≡ k.snd_buf → k'.snd_nxt ≡ k.snd_nxt → Retains k → Retains k'
    same-Retains k k' e1 e2 v = record {
      half = rw e2 v.half;
      below = rw (e1, e2) v.below;
      kept = rw (e1, e2) v.kept;
    }

    thin-Retains :
        (k : Kcp O) (segs : List KcpSegment) (v : Retains k)
        → Thins Has k.snd_nxt v.half k.snd_buf segs
        → Retains (record k { snd_buf = segs })
    thin-Retains k segs v t = record {
      half = v.half;
      below = t.1;
      kept = λ n h. elim (v.kept n h) [ inl has ↦ inl has | inr held ↦ t.0 n held ];
    }

    parse_data-Retains : (seg : KcpSegment) (k : Kcp O) → Retains k → Retains (parse_data seg k)
    unfolding parse_data move_buf
    parse_data-Retains seg k v =
        if_rule Retains
          (not (is_negative (timediff seg.sn (u32 (k.rcv_nxt + k.rcv_wnd))))
            || is_negative (timediff seg.sn k.rcv_nxt))
          v (same-Retains k _ refl refl v)

    Retains-input : InputRules {O = O} Retains VouchesAt
    unfolding parse_una parse_ack parse_fastack shrink_buf
    Retains-input = record {
      same = λ k k' s v. same-Retains k k' s.3 s.4 v;
      shrunk = λ k v. same-Retains k _ refl refl v;
      una = λ h rest k g v.
          thin-Retains k (drop_una h.una k.snd_buf) v
            (drop_una-Thins Has k.snd_nxt v.half h.una k.snd_buf g.0 v.below);
      acked = λ h rest k g ack v. if_rule Retains _ v (
          thin-Retains k (remove_sn h.sn k.snd_buf) v
            (remove_sn-Thins Has k.snd_nxt v.half h.sn k.snd_buf (g.1 ack) v.below));
      passed = λ sn ts k v. if_rule Retains _ v (
          thin-Retains k (count_fastack sn ts k.snd_buf) v
            (count_fastack-Thins Has k.snd_nxt v.half sn ts k.snd_buf v.below));
      arrived = λ h rest p g push v.
          take_push_rule Retains h rest p (λ k k' s v'. same-Retains k k' s.3 s.4 v')
            (λ k v'. parse_data-Retains _ k v') v;
    }

    -- An `input` of such acknowledgements.
    pub input-Retains :
        (bytes : List ℕ) (k : Kcp O) → Framed Vouches bytes → Retains k → Retains (input bytes k).1
    input-Retains bytes k c v =
        input_rule Retains VouchesAt Retains-input (Framed Vouches) Vouches-read bytes k c v

    pub recv-Retains : (room : ℕ) (k : Kcp O) → Retains k → Retains (recv room k).1
    unfolding move_buf
    recv-Retains room k v = elim (recv_fails room k) [
      | inl (size, e, h, _) ↦ rw (recv_eq room k size e h) (same-Retains k _ refl refl v)
      | inr (x, e, _) ↦ rw e v
    ]

    send_rest-Retains : (c : Cut) (k : Kcp O) → Retains k → Retains (send_rest c k).1
    unfolding send_rest
    send_rest-Retains c k v =
        if_rule (λ (r : Result ℕ × Kcp O). Retains r.1)
          (leb kcp_wnd_rcv (fragment_count k.mss c.rest)) (same-Retains k _ refl refl v)
          (same-Retains k _ refl refl v)

    pub send-Retains : (bytes : List ℕ) (k : Kcp O) → Retains k → Retains (send bytes k).1
    unfolding send
    send-Retains bytes k v =
        let Q : Result ℕ × Kcp O → Type 0 = λ r. Retains r.1 in
        let c = extend_last k.mss bytes k.snd_queue in
        if_rule Q (k.mss == 0) v (
          if_rule Q k.stream
            (if_rule Q (length c.rest == 0) (same-Retains k _ refl refl v)
              (send_rest-Retains c k v))
            (send_rest-Retains _ k v))
