-- ===== src/Kcp/Receive/Window.antt =====
-- `parse_data` of kcp/src/kcp.rs as a whole, and the receive window.
use kcp_scream_testspace.Common.{
  IsU16, leb→le, leb-false, ℕ, ◌+◌, ◌≤◌, ◌<◌, ◌≡◌, inl, inr, refl, List, [], ◌∷◌, ◌++◌, IsU32, u32,
  arith, ltb, leb, ◌==◌, Bool-cases, length, ◌&&◌, not, ◌||◌, is_negative,
}
use kcp_scream_testspace.Kcp.Segment.{KcpSegment}
use kcp_scream_testspace.Kcp.State.{Kcp, timediff}
use kcp_scream_testspace.Kcp.Sequence.{ahead, IsOrdered, IsOrdered-mono}
use kcp_scream_testspace.Kcp.Receive.{move_loop, move_buf, parse_data}
use kcp_scream_testspace.Kcp.Receive.Order.{move_buf_keeps}
use kcp_scream_testspace.Kcp.Receive.Insert.{Adds, placed, placed-Placed}

-- The rest of the buffer, seen from the next number.
IsOrdered-shift :
    (base lo hi : ℕ) (segs : List KcpSegment)
    → IsU32 base
    → IsOrdered base (lo + 1) hi segs
    → IsOrdered (u32 (base + 1)) lo hi segs
unfolding timediff
IsOrdered-shift base lo hi [] hb o = tt
IsOrdered-shift base lo hi (seg ∷ segs) hb o =
    let e : ahead (u32 (base + 1)) seg + 1 ≡ ahead base seg =
      closer base seg.sn hb o.0 (omega arith) in
    (
      o.0,
      omega arith,
      omega arith,
      IsOrdered-shift base (ahead (u32 (base + 1)) seg + 1) hi segs hb (rw e o.3),
    )
  where
    closer :
        (base sn : ℕ)
        → IsU32 base
        → IsU32 sn
        → 1 ≤ timediff sn base
        → timediff sn (u32 (base + 1)) + 1 ≡ timediff sn base
    closer base sn h1 h2 h3 = omega arith

move_loop-IsOrdered :
    (wnd nxt hi : ℕ) (segs queue : List KcpSegment)
    → IsU32 nxt
    → IsOrdered nxt 0 hi segs
    → let i = move_loop wnd segs queue nxt in IsOrdered i.rcv_nxt 0 hi i.rcv_buf × IsU32 i.rcv_nxt
unfolding move_loop
move_loop-IsOrdered wnd nxt hi [] queue h o = (tt, h)
move_loop-IsOrdered wnd nxt hi (seg ∷ segs) queue h o =
    elim (Bool-cases (seg.sn == nxt && ltb (length queue) wnd)) [
      | inr stop ↦ rw stop (o, h)
      | inl go ↦ rw go (
          move_loop-IsOrdered wnd (u32 (nxt + 1)) hi segs (queue ++ (seg ∷ [])) (omega arith) (
            IsOrdered-shift nxt 0 hi segs h
              (IsOrdered-mono nxt (ahead nxt seg + 1) 1 hi segs (omega arith) o.3)))
    ]

-- The receive buffer is in order, each number once, and within the window.
pub record IsReceiver {O : Type 0} (k : Kcp O) : Type 0 where
  pub nxt_lt : IsU32 k.rcv_nxt
  pub wnd_lt : IsU16 k.rcv_wnd
  pub ordered : IsOrdered k.rcv_nxt 0 k.rcv_wnd k.rcv_buf

-- `move_buf` keeps the window.
pub move_buf-IsReceiver : {O : Type 0} (k : Kcp O) → IsReceiver k → IsReceiver (move_buf k)
unfolding move_buf
move_buf-IsReceiver k v =
    let r =
      move_loop-IsOrdered k.rcv_wnd k.rcv_nxt k.rcv_wnd k.rcv_buf k.rcv_queue v.nxt_lt v.ordered in
    record { nxt_lt = r.1; wnd_lt = v.wnd_lt; ordered = r.0 }

window_test :
    (nxt wnd sn : ℕ)
    → IsU32 nxt
    → IsU16 wnd
    → IsU32 sn
    → (not (is_negative (timediff sn (u32 (nxt + wnd)))) || is_negative (timediff sn nxt))
      ≡ leb wnd (timediff sn nxt)
unfolding timediff
window_test nxt wnd sn h1 h2 h3 = ground arith

-- What `parse_data` does to a receiver: nothing outside the window; inside it the segment is in the
-- receive queue and buffer afterwards, at one more place among those that were there, unless its
-- number was there already.
pub data Takes {O : Type 0} (seg : KcpSegment) (k k' : Kcp O) : Type 0 where
  outside : k.rcv_wnd ≤ ahead k.rcv_nxt seg → k' ≡ k → Takes seg k k'
  inside :
      (segs : List KcpSegment)
      → ahead k.rcv_nxt seg < k.rcv_wnd
      → Adds seg k.rcv_buf segs
      → k'.rcv_queue ++ k'.rcv_buf ≡ k.rcv_queue ++ segs
      → Takes seg k k'

-- `parse_data` keeps the receive window in order and free of duplicates, wherever the numbers wrap.
-- A segment whose `u32` number lies outside the window changes nothing. One inside it is added at
-- its place, unless its number is there already, and what can then be delivered moves on.
pub parse_data-Takes :
    {O : Type 0} (seg : KcpSegment) (k : Kcp O)
    → IsReceiver k
    → IsU32 seg.sn
    → IsReceiver (parse_data seg k) × Takes seg k (parse_data seg k)
unfolding parse_data placed
parse_data-Takes seg k v hs =
    let test = window_test k.rcv_nxt k.rcv_wnd seg.sn v.nxt_lt v.wnd_lt hs in
    elim (Bool-cases (leb k.rcv_wnd (ahead k.rcv_nxt seg))) [
      | inl out ↦ rw (test, out) (v, outside (leb→le _ _ out) refl)
      | inr here ↦
          let p =
            placed-Placed k.rcv_nxt k.rcv_wnd seg k.rcv_buf v.nxt_lt hs (leb-false _ _ here)
              (omega (arith, v.wnd_lt)) v.ordered in
          let k' = record k { rcv_buf = placed seg k.rcv_buf } in
          rw (test, here)
            (
              move_buf-IsReceiver k'
                  (record { nxt_lt = v.nxt_lt; wnd_lt = v.wnd_lt; ordered = p.ordered }),
              inside (placed seg k.rcv_buf) (leb-false _ _ here) p.adds
                  (move_buf_keeps k' v.nxt_lt),
            )
    ]
