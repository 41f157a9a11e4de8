-- ===== src/Kcp/Receive.antt =====
-- The receiving side of `Kcp` in kcp/src/kcp.rs: `move_buf`, `peeksize`, `recv` and `parse_data`.
pub mod Order
pub mod Message
pub mod Search
pub mod Insert
pub mod Window
use kcp_scream_testspace.Common.{
  ℕ, ◌+◌, Bool, true, false, not, ◌&&◌, ◌||◌, List, [], ◌∷◌, ◌++◌, ◌-◌, reverse, take, drop, length,
  u8, u32, ltb, leb, ◌==◌, if◌then◌else◌, is_negative, is_positive,
}
use kcp_scream_testspace.Kcp.Segment.{KcpSegment}
use kcp_scream_testspace.Kcp.State.{
  Kcp, Result, ok, err, panic, recv_queue_empty, expecting_fragment, user_buf_too_small, io_error,
  write_zero, timediff,
}

-- What `move_buf` works on.
pub record Inbox : Type 0 where
  pub rcv_buf : List KcpSegment
  pub rcv_queue : List KcpSegment
  pub rcv_nxt : ℕ

-- The loop of `move_buf`, over `rcv_buf`.
unfoldable pub move_loop : ℕ → List KcpSegment → List KcpSegment → ℕ → Inbox
move_loop wnd [] queue nxt = record { rcv_buf = []; rcv_queue = queue; rcv_nxt = nxt }
move_loop wnd (seg ∷ segs) queue nxt =
    let rest = move_loop wnd segs (queue ++ (seg ∷ [])) (u32 (nxt + 1)) in
    if seg.sn == nxt && ltb (length queue) wnd
    then rest
    else record { rcv_buf = seg ∷ segs; rcv_queue = queue; rcv_nxt = nxt }

-- The segments up to the first whose `frg` is 0.
unfoldable pub message_len : List KcpSegment → ℕ
message_len [] = 0
message_len (seg ∷ segs) =
    let rest = message_len segs in length seg.payload + (if seg.frg == 0 then 0 else rest)

-- The merging loop of `recv` with a cursor over `room` bytes, of which `cur` are written.
unfoldable pub merge : ℕ → List ℕ → List KcpSegment → Result (List ℕ) × List KcpSegment
merge room cur [] = (ok cur, [])
merge room cur (seg ∷ segs) =
    let cur' = cur ++ seg.payload in
    let rest = merge room cur' segs in
    if ltb room (length cur')
    then (err (io_error write_zero), segs)
    else if seg.frg == 0
    then (ok cur', segs)
    else rest

-- `peeksize` over `rcv_queue`. `segment.frg + 1` is computed in `u8`.
unfoldable pub peek_queue : List KcpSegment → Result ℕ
peek_queue [] = err recv_queue_empty
peek_queue (seg ∷ segs) =
    if seg.frg == 0
    then ok (length seg.payload)
    else if ltb (length (seg ∷ segs)) (u8 (seg.frg + 1))
    then err expecting_fragment
    else ok (message_len (seg ∷ segs))

module _ {O : Type 0} where
  unfoldable pub move_buf : Kcp O → Kcp O
  move_buf k =
      let i = move_loop k.rcv_wnd k.rcv_buf k.rcv_queue k.rcv_nxt in
      record k { rcv_buf = i.rcv_buf; rcv_queue = i.rcv_queue; rcv_nxt = i.rcv_nxt }

  unfoldable pub peeksize : Kcp O → Result ℕ
  peeksize k = peek_queue k.rcv_queue

  -- `recv` after the queue was merged: the assertion on the cursor, `move_buf` and fast recover.
  unfoldable pub finish_recv : Bool → ℕ → Result (List ℕ) → Kcp O → Result (List ℕ) × Kcp O
  finish_recv recover size (err e) k = (err e, k)
  finish_recv recover size panic k = (panic, k)
  finish_recv recover size (ok bytes) k =
      let k' = move_buf k in
      if length bytes == size
      then (
        ok bytes,
        record k' { ask_tell = k'.ask_tell || (ltb (length k'.rcv_queue) k'.rcv_wnd && recover) },
      )
      else (panic, k)

  -- `recv` into a buffer of `room` bytes; `peeksize` fails on the empty queue as `recv` does. The
  -- result is what the caller's buffer starts with; its length is the count that the source returns.
  unfoldable pub recv : ℕ → Kcp O → Result (List ℕ) × Kcp O
  unfolding finish_recv
  recv room k = elim (peeksize k) [
    | err e ↦ (err e, k)
    | panic ↦ (panic, k)
    | ok size ↦
        let (r, queue) = merge room [] k.rcv_queue in
        if ltb room size
        then (err user_buf_too_small, k)
        else finish_recv (leb k.rcv_wnd (length k.rcv_queue)) size r
            (record k { rcv_queue = queue })
  ]

-- The search of `parse_data` from the back, over the reversed buffer: whether the number is there
-- already, and the index from which `new_index` was counted down.
unfoldable pub find_place : ℕ → List KcpSegment → ℕ → Bool × ℕ
find_place sn [] new_index = (false, new_index)
find_place sn (seg ∷ segs) new_index =
    let rest = find_place sn segs (new_index - 1) in
    if seg.sn == sn
    then (true, new_index)
    else if is_positive (timediff sn seg.sn)
    then (false, new_index)
    else rest

-- `VecDeque::insert`.
unfoldable pub insert : ℕ → KcpSegment → List KcpSegment → List KcpSegment
insert i seg segs = take i segs ++ (seg ∷ drop i segs)

module _ {O : Type 0} where
  unfoldable pub parse_data : KcpSegment → Kcp O → Kcp O
  parse_data seg k =
      let (repeat, new_index) = find_place seg.sn (reverse k.rcv_buf) (length k.rcv_buf) in
      if not (is_negative (timediff seg.sn (u32 (k.rcv_nxt + k.rcv_wnd))))
        || is_negative (timediff seg.sn k.rcv_nxt)
      then k
      else move_buf
          (record k { rcv_buf = if repeat then k.rcv_buf else insert new_index seg k.rcv_buf })
