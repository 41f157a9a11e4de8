-- ===== src/Kcp/Delivery/Receiver.antt =====
-- The receiving end of kcp/src/kcp.rs: what `input` and `recv` make of genuine segments.
use mathlib.Core.List.{flatten}
use kcp_scream_testspace.Common.{
  true, ℕ, zero, suc, ◌+◌, ◌^◌, ◌≤◌, ◌<◌, ◌≡◌, sym, ap, subst, ◌∙◌, some, List, [], ◌∷◌, ◌++◌,
  reverse, All, All-append, All-drop, length, take, drop, arith, u32, ltb, ◌==◌, ◌&&◌, Bool-cases,
  inl, inr, if_rule, append-nil, append_assoc, if◌then◌else◌, length-append,
}
use kcp_scream_testspace.Kcp.Segment.{KcpSegment, Header, payloads, payloads-append}
use kcp_scream_testspace.Kcp.State.{kcp_cmd_push, Kcp, Result, ok, err, panic}
use kcp_scream_testspace.Kcp.Receive.{
  Inbox, move_loop, move_buf, insert, find_place, parse_data, recv,
}
use kcp_scream_testspace.Kcp.Receive.Order.{inbox}
use kcp_scream_testspace.Kcp.Receive.Message.{message, later, message-later, recv_eq, recv_fails}
use kcp_scream_testspace.Kcp.Ack.{shrink_buf, parse_una, parse_ack, parse_fastack}
use kcp_scream_testspace.Kcp.Input.{input, pushed}
use kcp_scream_testspace.Kcp.Input.Rule.{InputRules, input_rule, take_push_rule}
use kcp_scream_testspace.Kcp.Delivery.History.{
  get_elem?, get_elem?-lt, get_elem?-append, take-append, flatten-take,
}
use kcp_scream_testspace.Kcp.Delivery.Wire.{Carries, Carries-read, Genuine}

-- The bytes read so far and those that wait in `rcv_queue` are the history's up to `rcv_nxt`, and
-- what waits in `rcv_buf` is genuine.
pub record Delivers (history : List (List ℕ)) (delivered : List ℕ) (i : Inbox) : Type 0 where
  pub nxt_le : i.rcv_nxt ≤ length history
  pub bytes_eq : delivered ++ payloads i.rcv_queue ≡ flatten (take i.rcv_nxt history)
  pub waiting : All (Genuine history) i.rcv_buf

All-take : {A : Type 0} (P : A → Type 0) (n : ℕ) (xs : List A) → All P xs → All P (take n xs)
All-take P zero xs h = tt
All-take P (suc n) [] h = tt
All-take P (suc n) (x ∷ xs) (p, ps) = (p, All-take P n xs ps)

All-Genuine :
    (history more : List (List ℕ)) (segs : List KcpSegment)
    → All (Genuine history) segs
    → All (Genuine (history ++ more)) segs
All-Genuine history more [] a = tt
All-Genuine history more (seg ∷ segs) (g, a) =
    (get_elem?-append history more seg.sn g, All-Genuine history more segs a)

pub Delivers-append :
    (history more : List (List ℕ)) (delivered : List ℕ) (i : Inbox)
    → Delivers history delivered i
    → Delivers (history ++ more) delivered i
Delivers-append history more delivered i v = record {
  nxt_le = omega (arith, v.nxt_le, length-append history more);
  bytes_eq = v.bytes_eq ∙ ap flatten (sym (take-append i.rcv_nxt history more v.nxt_le));
  waiting = All-Genuine history more i.rcv_buf v.waiting;
}

module _ (history : List (List ℕ)) (few : length history < 2 ^ 32) (delivered : List ℕ) where
  move_loop-Delivers :
      (wnd : ℕ) (segs queue : List KcpSegment) (nxt : ℕ)
      → Delivers history delivered (record { rcv_buf = segs; rcv_queue = queue; rcv_nxt = nxt })
      → Delivers history delivered (move_loop wnd segs queue nxt)
  unfolding move_loop payloads
  move_loop-Delivers wnd [] queue nxt v = v
  move_loop-Delivers wnd (seg ∷ segs) queue nxt v =
      elim (Bool-cases (seg.sn == nxt && ltb (length queue) wnd)) [
        | inr stop ↦ rw stop v
        | inl go ↦
            let turn : seg.sn ≡ nxt = ground arith in
            let here : get_elem? history nxt ≡ some seg.payload =
              subst (λ n. get_elem? history n ≡ some seg.payload) turn v.waiting.0 in
            let next : u32 (nxt + 1) ≡ suc nxt = omega (arith, get_elem?-lt history nxt here) in
            let bytes : delivered ++ payloads (queue ++ (seg ∷ []))
                ≡ flatten (take (suc nxt) history) =
              ap (◌++◌ delivered) (
                payloads-append queue (seg ∷ [])
                ∙ ap (◌++◌ (payloads queue)) (append-nil seg.payload))
              ∙ sym (append_assoc delivered (payloads queue) seg.payload)
              ∙ ap (λ b. b ++ seg.payload) v.bytes_eq
              ∙ sym (flatten-take history nxt here) in
            rw go (
              move_loop-Delivers wnd segs (queue ++ (seg ∷ [])) (u32 (nxt + 1)) (record {
                nxt_le = omega (arith, get_elem?-lt history nxt here);
                bytes_eq = bytes ∙ ap (λ n. flatten (take n history)) (sym next);
                waiting = v.waiting.1;
              }))
      ]

  abbrev GenuineAt : Header → List ℕ → Type 0
  GenuineAt h rest = (h.cmd == kcp_cmd_push) ≡ true → Genuine history (pushed h (take h.len rest))

  module _ {O : Type 0} where
    abbrev DeliversTo : Kcp O → Type 0
    DeliversTo k = Delivers history delivered (inbox k)

    pub move_buf-Delivers :
        (k : Kcp O)
        → Delivers history delivered (inbox k)
        → Delivers history delivered (inbox (move_buf k))
    unfolding move_buf
    move_buf-Delivers k v = move_loop-Delivers k.rcv_wnd k.rcv_buf k.rcv_queue k.rcv_nxt v

    parse_data-Delivers :
        (seg : KcpSegment) (k : Kcp O)
        → Genuine history seg
        → DeliversTo k
        → DeliversTo (parse_data seg k)
    unfolding parse_data insert
    parse_data-Delivers seg k g v =
        let place = find_place seg.sn (reverse k.rcv_buf) (length k.rcv_buf) in
        let with_seg =
          All-append (Genuine history) (take place.1 k.rcv_buf) (seg ∷ drop place.1 k.rcv_buf)
            (All-take (Genuine history) place.1 k.rcv_buf v.waiting)
            (g, All-drop (Genuine history) place.1 k.rcv_buf v.waiting) in
        let buf = if place.0 then k.rcv_buf else insert place.1 seg k.rcv_buf in
        if_rule DeliversTo _ v (
          move_buf-Delivers (record k { rcv_buf = buf })
            (record {
              nxt_le = v.nxt_le;
              bytes_eq = v.bytes_eq;
              waiting = if_rule (All (Genuine history)) place.0 v.waiting with_seg;
            }))

    same_inbox :
        (k k' : Kcp O)
        → k'.rcv_nxt ≡ k.rcv_nxt
        → k'.rcv_buf ≡ k.rcv_buf
        → k'.rcv_queue ≡ k.rcv_queue
        → DeliversTo k
        → DeliversTo k'
    same_inbox k k' e1 e2 e3 v = record {
      nxt_le = rw e1 v.nxt_le;
      bytes_eq = rw (e1, e3) v.bytes_eq;
      waiting = rw e2 v.waiting;
    }

    delivery_input : InputRules DeliversTo GenuineAt
    unfolding parse_una parse_ack parse_fastack shrink_buf
    delivery_input = record {
      same = λ k k' s v. same_inbox k k' s.5 s.6 s.7 v;
      shrunk = λ k v. v;
      una = λ h rest k g v. v;
      acked = λ h rest k g ack v. if_rule DeliversTo _ v v;
      passed = λ sn ts k v. if_rule DeliversTo _ v v;
      arrived = λ h rest p g push v.
          take_push_rule DeliversTo h rest p (λ k k' s v'. same_inbox k k' s.5 s.6 s.7 v')
            (λ k v'. parse_data-Delivers (pushed h (take h.len rest)) k (g push) v') v;
    }

    -- An `input` of a datagram of genuine segments.
    pub input-Delivers :
        (bytes : List ℕ) (k : Kcp O)
        → Carries history bytes
        → Delivers history delivered (inbox k)
        → Delivers history delivered (inbox (input bytes k).1)
    input-Delivers bytes k c v =
        input_rule DeliversTo GenuineAt delivery_input (Carries history) (Carries-read history few)
          bytes k c v

-- The bytes that a `recv` hands to the application.
abbrev pub received : Result (List ℕ) → List ℕ
received (ok bytes) = bytes
received (err e) = []
received panic = []

-- `recv` moves bytes from the front of `rcv_queue` to the application.
pub recv-Delivers :
    {O : Type 0} (history : List (List ℕ)) (delivered : List ℕ) (room : ℕ) (k : Kcp O)
    → length history < 2 ^ 32
    → Delivers history delivered (inbox k)
    → Delivers history (delivered ++ received (recv room k).0) (inbox (recv room k).1)
recv-Delivers history delivered room k few v = elim (recv_fails room k) [
  | inl (size, e, h, _) ↦
      let rest = record k { rcv_queue = later k.rcv_queue } in
      let bytes = payloads (message k.rcv_queue) in
      rw (recv_eq room k size e h) (
        move_buf-Delivers history few (delivered ++ bytes) rest (record {
          nxt_le = v.nxt_le;
          bytes_eq =
              append_assoc delivered bytes (payloads (later k.rcv_queue))
              ∙ ap (◌++◌ delivered) (
                  sym (payloads-append (message k.rcv_queue) (later k.rcv_queue))
                  ∙ ap payloads (message-later k.rcv_queue))
              ∙ v.bytes_eq;
          waiting = v.waiting;
        }))
  | inr (x, e, _) ↦ rw (e, append-nil delivered) v
]
