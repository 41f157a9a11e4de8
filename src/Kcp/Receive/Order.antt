-- ===== src/Kcp/Receive/Order.antt =====
-- `move_buf`: what leaves `rcv_buf`, in which order, and where it stops.
use kcp_scream_testspace.Common.{
  ℕ, ◌+◌, ◌≤◌, ◌≡◌, refl, sym, ap, ◌∙◌, ◌≢◌, ◌⊎◌, inl, inr, List, [], ◌∷◌, ◌++◌, length, u32, max,
  IsU32, length-append, append-nil, append_assoc, arith, Bool-cases, ltb, ◌==◌, ◌&&◌,
}
use kcp_scream_testspace.Kcp.Segment.{KcpSegment}
use kcp_scream_testspace.Kcp.State.{Kcp}
use kcp_scream_testspace.Kcp.Receive.{Inbox, move_loop, move_buf}

-- Consecutive sequence numbers from `n` on, modulo 2 ^ 32.
abbrev pub IsNumbered : ℕ → List KcpSegment → Type 0
IsNumbered n [] = Unit {0}
IsNumbered n (seg ∷ segs) = (seg.sn ≡ n) × IsNumbered (u32 (n + 1)) segs

-- The segment at the front of the buffer, if any, is out of turn or has no room in the queue.
abbrev pub IsStuckAt : ℕ → List KcpSegment → ℕ → List KcpSegment → Type 0
IsStuckAt wnd queue nxt [] = Unit {0}
IsStuckAt wnd queue nxt (seg ∷ segs) = (seg.sn ≢ nxt) ⊎ (wnd ≤ length queue)

-- A front part of the buffer went to the end of the queue.
pub record Moves (wnd : ℕ) (segs queue : List KcpSegment) (nxt : ℕ) (i : Inbox) : Type 0 where
  pub moved : List KcpSegment
  pub buf_eq : segs ≡ moved ++ i.rcv_buf
  pub queue_eq : i.rcv_queue ≡ queue ++ moved
  pub in_order : IsNumbered nxt moved
  pub nxt_eq : i.rcv_nxt ≡ u32 (nxt + length moved)
  pub stops : IsStuckAt wnd i.rcv_queue i.rcv_nxt i.rcv_buf
  pub fits : length i.rcv_queue ≤ max wnd (length queue)

pub move_loop-Moves :
    (wnd : ℕ) (segs queue : List KcpSegment) (nxt : ℕ)
    → IsU32 nxt
    → Moves wnd segs queue nxt (move_loop wnd segs queue nxt)
unfolding move_loop
move_loop-Moves wnd [] queue nxt h = record {
  moved = [];
  buf_eq = refl;
  queue_eq = sym (append-nil queue);
  in_order = tt;
  nxt_eq = omega arith;
  stops = tt;
  fits = omega arith;
}
move_loop-Moves wnd (seg ∷ segs) queue nxt h =
    elim (Bool-cases (seg.sn == nxt && ltb (length queue) wnd)) [
      | inr stop ↦ rw stop (record {
        moved = [];
        buf_eq = refl;
        queue_eq = sym (append-nil queue);
        in_order = tt;
        nxt_eq = omega arith;
        stops = ground arith;
        fits = omega arith;
      })
      | inl go ↦
          let ih = move_loop-Moves wnd segs (queue ++ (seg ∷ [])) (u32 (nxt + 1)) (omega arith) in
          rw go (record {
            moved = seg ∷ ih.moved;
            buf_eq = ap (◌∷◌ seg) ih.buf_eq;
            queue_eq = ih.queue_eq ∙ append_assoc queue (seg ∷ []) ih.moved;
            in_order = (ground arith, ih.in_order);
            nxt_eq = omega (arith, ih.nxt_eq);
            stops = ih.stops;
            fits = ground (arith, ih.fits, length-append queue (seg ∷ []));
          })
    ]

abbrev pub inbox : {O : Type 0} → Kcp O → Inbox
inbox k = record { rcv_buf = k.rcv_buf; rcv_queue = k.rcv_queue; rcv_nxt = k.rcv_nxt }

-- `move_buf` moves a front part of `rcv_buf`, numbered consecutively from `rcv_nxt`, to the end of
-- `rcv_queue`, counts `rcv_nxt` up by its length, and stops only at the end of the buffer, at a
-- segment out of turn, or at a full queue; it does not overfill the queue.
pub move_buf-Moves :
    {O : Type 0} (k : Kcp O)
    → IsU32 k.rcv_nxt
    → Moves k.rcv_wnd k.rcv_buf k.rcv_queue k.rcv_nxt (inbox (move_buf k))
unfolding move_buf
move_buf-Moves k h = move_loop-Moves k.rcv_wnd k.rcv_buf k.rcv_queue k.rcv_nxt h

-- Nothing is lost on the way.
pub move_buf_keeps :
    {O : Type 0} (k : Kcp O)
    → IsU32 k.rcv_nxt
    → (move_buf k).rcv_queue ++ (move_buf k).rcv_buf ≡ k.rcv_queue ++ k.rcv_buf
move_buf_keeps k h =
    let m = move_buf-Moves k h in
    ap (λ q. q ++ (move_buf k).rcv_buf) m.queue_eq
    ∙ append_assoc k.rcv_queue m.moved (move_buf k).rcv_buf
    ∙ ap (◌++◌ k.rcv_queue) (sym m.buf_eq)
