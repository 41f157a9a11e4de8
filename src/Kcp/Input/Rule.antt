-- ===== src/Kcp/Input/Rule.antt =====
-- A rule for the `input` of kcp/src/kcp.rs: what its operations keep, an `input` keeps.
use kcp_scream_testspace.Common.{
  u32, ◌+◌, ℕ, zero, suc, ◌≡◌, refl, true, not, some, List, length, take, drop, arith, ltb, ◌==◌,
  Bool-cases, Option-cases, inl, inr, if_rule, is_negative,
}
use kcp_scream_testspace.Kcp.Segment.{Header, get_header}
use kcp_scream_testspace.Kcp.State.{
  Kcp, Result, ok, err, panic, kcp_cmd_push, kcp_cmd_ack, kcp_cmd_wask, timediff,
}
use kcp_scream_testspace.Kcp.Receive.{parse_data}
use kcp_scream_testspace.Kcp.Ack.{
  update_ack, shrink_buf, parse_ack, parse_una, parse_fastack, ack_push,
}
use kcp_scream_testspace.Kcp.Input.{
  Progress, pushed, is_known, check_conv, take_una, take_ack, take_push, dispatch, take_segment,
  round, and_then, input_loop, grow_cwnd, clamp_cwnd, update_cwnd, finish_input, start, answer,
  input,
}

-- The fields with data on its way, out or in, are the same.
abbrev pub SameData : {O : Type 0} → Kcp O → Kcp O → Type 0
SameData k k' =
    (k'.output ≡ k.output)
    × (k'.buf ≡ k.buf)
    × (k'.snd_queue ≡ k.snd_queue)
    × (k'.snd_buf ≡ k.snd_buf)
    × (k'.snd_nxt ≡ k.snd_nxt)
    × (k'.rcv_nxt ≡ k.rcv_nxt)
    × (k'.rcv_buf ≡ k.rcv_buf)
    × (k'.rcv_queue ≡ k.rcv_queue)
    × (k'.mss ≡ k.mss)
    × (k'.snd_una ≡ k.snd_una)
    × (k'.snd_wnd ≡ k.snd_wnd)
    × (k'.rcv_wnd ≡ k.rcv_wnd)

-- `Q` of the state, where `G` holds of each header that is read, and of the bytes behind it.
pub record InputRules {O : Type 0} (Q : Kcp O → Type 0) (G : Header → List ℕ → Type 0)
    : Type 0 where
  pub same : (k k' : Kcp O) → SameData k k' → Q k → Q k'
  pub shrunk : (k : Kcp O) → Q k → Q (shrink_buf k)
  pub una : (h : Header) (rest : List ℕ) (k : Kcp O) → G h rest → Q k → Q (parse_una h.una k)
  pub acked :
      (h : Header) (rest : List ℕ) (k : Kcp O)
      → G h rest
      → (h.cmd == kcp_cmd_ack) ≡ true
      → Q k
      → Q (parse_ack h.sn k)
  pub passed : (sn ts : ℕ) (k : Kcp O) → Q k → Q (parse_fastack sn ts k)
  pub arrived :
      (h : Header) (rest : List ℕ) (p : Progress O)
      → G h rest
      → (h.cmd == kcp_cmd_push) ≡ true
      → Q p.kcp
      → Q (take_push h rest p).kcp

module _ {O : Type 0} where
  update_ack-SameData : (rtt : ℕ) (k : Kcp O) → SameData k (update_ack rtt k)
  unfolding update_ack
  update_ack-SameData rtt k =
      (refl, refl, refl, refl, refl, refl, refl, refl, refl, refl, refl, refl)

  ack_push-SameData : (sn ts : ℕ) (k : Kcp O) → SameData k (ack_push sn ts k)
  unfolding ack_push
  ack_push-SameData sn ts k =
      (refl, refl, refl, refl, refl, refl, refl, refl, refl, refl, refl, refl)

  update_cwnd-SameData : (old_una : ℕ) (k : Kcp O) → SameData k (update_cwnd old_una k)
  unfolding update_cwnd clamp_cwnd grow_cwnd
  update_cwnd-SameData old_una k = ground arith

  -- The data of a segment, where the acknowledgement makes no difference.
  pub take_push_rule :
      (Q : Kcp O → Type 0) (h : Header) (rest : List ℕ) (p : Progress O)
      → ((k k' : Kcp O) → SameData k k' → Q k → Q k')
      → ((k : Kcp O) → Q k → Q (parse_data (pushed h (take h.len rest)) k))
      → Q p.kcp
      → Q (take_push h rest p).kcp
  unfolding take_push
  take_push_rule Q h rest p same f q =
      let R : Progress O → Type 0 = λ p'. Q p'.kcp in
      let acked = ack_push h.sn h.ts p.kcp in
      let q' = same p.kcp acked (ack_push-SameData h.sn h.ts p.kcp) q in
      if_rule R (is_negative (timediff h.sn (u32 (p.kcp.rcv_nxt + p.kcp.rcv_wnd))))
        (if_rule R (is_negative (timediff h.sn p.kcp.rcv_nxt)) q' (f acked q')) q

  module _ (Q : Kcp O → Type 0) (G : Header → List ℕ → Type 0) (v : InputRules Q G) where
    take_una_rule : (h : Header) (rest : List ℕ) (k : Kcp O) → G h rest → Q k → Q (take_una h k)
    unfolding take_una
    take_una_rule h rest k g q =
        let k1 = record k { rmt_wnd = h.wnd } in
        v.shrunk (parse_una h.una k1) (
          v.una h rest k1 g (
            v.same k k1 (refl, refl, refl, refl, refl, refl, refl, refl, refl, refl, refl, refl) q))

    take_ack_rule :
        (h : Header) (rest : List ℕ) (p : Progress O)
        → G h rest
        → (h.cmd == kcp_cmd_ack) ≡ true
        → Q p.kcp
        → Q (take_ack h p).kcp
    unfolding take_ack
    take_ack_rule h rest p g ack q =
        let rtt = timediff p.kcp.current h.ts in
        let timed =
          if_rule Q (is_negative rtt) q
            (v.same p.kcp (update_ack rtt p.kcp) (update_ack-SameData rtt p.kcp) q) in
        v.shrunk _ (v.acked h rest _ g ack timed)

    dispatch_rule :
        (h : Header) (rest : List ℕ) (p : Progress O)
        → G h rest
        → Q p.kcp
        → Q (dispatch h rest p).kcp
    unfolding dispatch
    dispatch_rule h rest p g q =
        let R : Progress O → Type 0 = λ p'. Q p'.kcp in
        elim (Bool-cases (h.cmd == kcp_cmd_ack)) [
          | inl ack ↦ rw ack (take_ack_rule h rest p g ack q)
          | inr other ↦ rw other (elim (Bool-cases (h.cmd == kcp_cmd_push)) [
            | inl push ↦ rw push (v.arrived h rest p g push q)
            | inr third ↦ rw third (
                if_rule R (h.cmd == kcp_cmd_wask)
                  (v.same p.kcp (record p.kcp { ask_tell = true })
                    (refl, refl, refl, refl, refl, refl, refl, refl, refl, refl, refl, refl) q)
                  q)
          ])
        ]

    take_segment_rule :
        (r : Result (Kcp O)) (h : Header) (rest : List ℕ) (p : Progress O)
        → G h rest
        → Q p.kcp
        → ((k : Kcp O) → r ≡ ok k → Q k)
        → Q (take_segment r h rest p).1.kcp
    unfolding take_segment
    take_segment_rule (err e) h rest p g q f = q
    take_segment_rule panic h rest p g q f = q
    take_segment_rule (ok k) h rest p g q f =
        let R : Result (Unit {0}) × Progress O → Type 0 = λ r. Q r.1.kcp in
        let p' = record p { kcp = take_una h k } in
        if_rule R (ltb (length rest) h.len) (f k refl) (
          if_rule R (not (is_known h.cmd)) (f k refl)
            (dispatch_rule h rest p' g (take_una_rule h rest k g (f k refl))))

    check_conv_rule : (conv : ℕ) (k k' : Kcp O) → Q k → check_conv conv k ≡ ok k' → Q k'
    unfolding check_conv
    check_conv_rule conv k k' q e = v.same k k' (ground arith) q

    pub round_rule :
        (h : Header) (rest : List ℕ) (p : Progress O)
        → G h rest
        → Q p.kcp
        → Q (round h rest p).1.kcp
    unfolding round
    round_rule h rest p g q =
        take_segment_rule (check_conv h.conv p.kcp) h rest p g q
          (λ k e. check_conv_rule h.conv p.kcp k q e)

    and_then_rule :
        (r : Result (Unit {0}) × Progress O) (next : Progress O → Result (Unit {0}) × Progress O)
        → Q r.1.kcp
        → ((p : Progress O) → Q p.kcp → Q (next p).1.kcp)
        → Q (and_then r next).1.kcp
    and_then_rule (ok _, p) next q f = f p q
    and_then_rule (err e, p) next q f = q
    and_then_rule (panic, p) next q f = q

    -- The bytes that `P` allows: each segment that can be read from them is as `G` wants, and what
    -- is behind it is allowed.
    module _ (P : List ℕ → Type 0)
        (read : (bytes : List ℕ) (h : Header) (rest : List ℕ)
          → P bytes
          → get_header bytes ≡ some (h, rest)
          → G h rest × P (drop h.len rest)) where
      input_loop_rule :
          (fuel : ℕ) (bytes : List ℕ) (p : Progress O)
          → P bytes
          → Q p.kcp
          → Q (input_loop fuel bytes p).1.kcp
      unfolding input_loop
      input_loop_rule zero bytes p a q = q
      input_loop_rule (suc fuel) bytes p a q = elim (Option-cases (get_header bytes)) [
        | inl e ↦ rw (e, input_loop) q
        | inr ((h, rest), e) ↦
            let r = read bytes h rest a e in
            rw (e, input_loop)
              (and_then_rule (round h rest p) (input_loop fuel (drop h.len rest))
                (round_rule h rest p r.0 q)
                (λ p' q'. input_loop_rule fuel (drop h.len rest) p' r.1 q'))
      ]

      finish_input_rule : (old_una : ℕ) (p : Progress O) → Q p.kcp → Q (finish_input old_una p)
      unfolding finish_input
      finish_input_rule old_una p q =
          v.same _ _ (update_cwnd-SameData old_una _)
            (if_rule Q p.flag (v.passed p.max_ack p.latest_ts p.kcp q) q)

      answer_rule :
          (old_una : ℕ) (r : Result (Unit {0}) × Progress O) → Q r.1.kcp → Q (answer old_una r).1
      answer_rule old_una (ok _, p) q = finish_input_rule old_una p q
      answer_rule old_una (err e, p) q = q
      answer_rule old_una (panic, p) q = q

      pub input_rule : (bytes : List ℕ) (k : Kcp O) → P bytes → Q k → Q (input bytes k).1
      unfolding input
      input_rule bytes k a q =
          if_rule (λ (r : Result (List (ℕ × ℕ) × List ℕ) × Kcp O). Q r.1) _ q
            (answer_rule k.snd_una (input_loop (length bytes) bytes (start k))
              (input_loop_rule (length bytes) bytes (start k) a q))
