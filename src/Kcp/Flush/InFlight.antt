-- ===== src/Kcp/Flush/InFlight.antt =====
-- The loop of `flush` in kcp/src/kcp.rs that moves segments from `snd_queue` into flight.
use kcp_scream_testspace.Common.{
  ℕ, ◌+◌, ◌^◌, ◌≤◌, ◌<◌, ◌≡◌, refl, ap, List, [], ◌∷◌, ◌++◌, length, map, arith, max, ltb, ltb→lt,
  ltb-false, Bool-cases, inl, inr, is_negative, u32, IsU16, IsU32, subst, ◌⊎◌,
}
use kcp_scream_testspace.Kcp.Segment.{KcpSegment}
use kcp_scream_testspace.Kcp.State.{Kcp, timediff}
use kcp_scream_testspace.Kcp.Sequence.{IsOrdered}
use kcp_scream_testspace.Kcp.Flush.{Admission, stamp, admit}

-- What the loop over `snd_queue` does with a window of `cwnd` segments.
pub record Admits (una cwnd nxt : ℕ) (queue : List KcpSegment) (a : Admission) : Type 0 where
  pub taken : List KcpSegment
  pub queue_eq : queue ≡ taken ++ a.snd_queue
  pub payload_eq : map (λ seg. seg.payload) a.fresh ≡ map (λ seg. seg.payload) taken
  pub count_eq : timediff a.snd_nxt una ≡ timediff nxt una + length a.fresh
  pub nxt_lt : IsU32 a.snd_nxt
  pub within : timediff a.snd_nxt una ≤ max (timediff nxt una) cwnd
  pub ordered : IsOrdered una (timediff nxt una) (timediff a.snd_nxt una) a.fresh
  pub full : (a.snd_queue ≡ []) ⊎ (cwnd ≤ timediff a.snd_nxt una)

-- The loop's test, for windows and flights below 2 ^ 16.
window_open :
    (nxt una cwnd : ℕ)
    → IsU32 nxt
    → IsU32 una
    → IsU16 cwnd
    → timediff nxt una < 2 ^ 16
    → is_negative (timediff nxt (u32 (una + cwnd))) ≡ ltb (timediff nxt una) cwnd
unfolding timediff
window_open nxt una cwnd h1 h2 h3 h4 = ground arith

next_ahead :
    (nxt una : ℕ)
    → IsU32 nxt
    → IsU32 una
    → timediff nxt una < 2 ^ 16
    → timediff (u32 (nxt + 1)) una ≡ timediff nxt una + 1
unfolding timediff
next_ahead nxt una h1 h2 h3 = omega arith

-- The loop over `snd_queue` takes segments off its head, in their order and with their payloads;
-- numbers them from `snd_nxt` on, one by one; stops only at an empty queue or a full window; and
-- never has more than `cwnd` numbers in flight, unless more were before. The window is below 2 ^ 16
-- and fewer than 2 ^ 16 numbers are in flight before.
pub admit-Admits :
    {O : Type 0} (k : Kcp O) (wnd cwnd : ℕ) (queue : List KcpSegment) (nxt : ℕ)
    → IsU32 nxt
    → IsU32 k.snd_una
    → IsU16 cwnd
    → timediff nxt k.snd_una < 2 ^ 16
    → Admits k.snd_una cwnd nxt queue (admit k wnd cwnd queue nxt)
unfolding admit stamp
admit-Admits k wnd cwnd [] nxt hn hu hc hd = record {
  taken = [];
  queue_eq = refl;
  payload_eq = refl;
  count_eq = omega arith;
  nxt_lt = hn;
  within = omega arith;
  ordered = tt;
  full = inl refl;
}
admit-Admits k wnd cwnd (seg ∷ queue) nxt hn hu hc hd =
    let test = window_open nxt k.snd_una cwnd hn hu hc hd in
    let step = next_ahead nxt k.snd_una hn hu hd in
    elim (Bool-cases (ltb (timediff nxt k.snd_una) cwnd)) [
      | inr shut ↦
          rw (test, shut)
            (record {
              taken = [];
              queue_eq = refl;
              payload_eq = refl;
              count_eq = omega arith;
              nxt_lt = hn;
              within = omega arith;
              ordered = tt;
              full = inr (ltb-false _ _ shut);
            })
      | inl room ↦
          let lt = ltb→lt _ _ room in
          let a = admit k wnd cwnd queue (u32 (nxt + 1)) in
          let ih =
            admit-Admits k wnd cwnd queue (u32 (nxt + 1)) (omega arith) hu hc
              (omega (arith, step, lt)) in
          rw (test, room)
            (record {
              taken = seg ∷ ih.taken;
              queue_eq = ap (◌∷◌ seg) ih.queue_eq;
              payload_eq = ap (◌∷◌ seg.payload) ih.payload_eq;
              count_eq = omega (arith, ih.count_eq, step);
              nxt_lt = ih.nxt_lt;
              within = omega (arith, ih.within, step, lt);
              ordered = (
                hn,
                omega arith,
                omega (arith, ih.count_eq, step),
                subst (λ lo. IsOrdered k.snd_una lo (timediff a.snd_nxt k.snd_una) a.fresh) step
                    ih.ordered,
              );
              full = ih.full;
            })
    ]
