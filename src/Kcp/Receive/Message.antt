-- ===== src/Kcp/Receive/Message.antt =====
-- `peeksize` and `recv` of kcp/src/kcp.rs, and the messages of `rcv_queue`.
use kcp_scream_testspace.Common.{
  ℕ, ◌+◌, ◌≤◌, ◌<◌, ◌≡◌, refl, sym, ap, ◌∙◌, ◌≢◌, ◌⊎◌, inl, inr, List, [], ◌∷◌, ◌++◌, length,
  length-append, append-nil, append_assoc, arith, Bool-cases, ltb, ltb→lt, ltb-false, leb, ◌==◌,
  ◌&&◌, ◌||◌, if◌then◌else◌, true, false, IsU32,
}
use kcp_scream_testspace.Kcp.Segment.{KcpSegment, payloads}
use kcp_scream_testspace.Kcp.State.{Kcp, Result, ok, err, panic, Error, user_buf_too_small}
use kcp_scream_testspace.Kcp.Receive.{
  move_buf, message_len, merge, peek_queue, peeksize, finish_recv, recv,
}
use kcp_scream_testspace.Kcp.Receive.Order.{move_buf-Moves, move_buf_keeps}

-- The segments of the first message of a queue, up to the first with `frg` 0, and those behind it.
pub message : List KcpSegment → List KcpSegment
message [] = []
message (seg ∷ segs) = if seg.frg == 0 then seg ∷ [] else seg ∷ message segs

pub later : List KcpSegment → List KcpSegment
later [] = []
later (seg ∷ segs) = if seg.frg == 0 then segs else later segs

pub message-later : (q : List KcpSegment) → message q ++ later q ≡ q
unfolding message later
message-later [] = refl
message-later (seg ∷ segs) = ground (arith, message-later segs)

message_len-eq : (q : List KcpSegment) → message_len q ≡ length (payloads (message q))
unfolding message_len message payloads
message_len-eq [] = refl
message_len-eq (seg ∷ segs) = ground (
  arith,
  message_len-eq segs,
  length-append seg.payload (payloads (message segs)),
  append-nil seg.payload,
)

merge_lem :
    (room : ℕ) (cur : List ℕ) (q : List KcpSegment)
    → length cur + message_len q ≤ room
    → merge room cur q ≡ (ok (cur ++ payloads (message q)), later q)
unfolding merge message_len message later payloads
merge_lem room cur [] h = ground (arith, append-nil cur)
merge_lem room cur (seg ∷ segs) h = ground (
  arith,
  merge_lem room (cur ++ seg.payload) segs,
  length-append cur seg.payload,
  append_assoc cur seg.payload (payloads (message segs)),
  append-nil seg.payload,
)

peek_queue-message :
    (q : List KcpSegment) {size : ℕ} → peek_queue q ≡ ok size → size ≡ length (payloads (message q))
unfolding peek_queue message payloads
peek_queue-message [] h = cc
peek_queue-message (seg ∷ segs) h =
    ground (arith, message_len-eq (seg ∷ segs), append-nil seg.payload)

pub peeksize-message :
    {O : Type 0} (k : Kcp O) {size : ℕ}
    → peeksize k ≡ ok size
    → size ≡ length (payloads (message k.rcv_queue))
unfolding peeksize
peeksize-message k h = peek_queue-message k.rcv_queue h

-- What `recv` does once `peeksize` has answered.
pub recv_eq :
    {O : Type 0} (room : ℕ) (k : Kcp O) (size : ℕ)
    → peeksize k ≡ ok size
    → size ≤ room
    → let k' = move_buf (record k { rcv_queue = later k.rcv_queue }) in
      recv room k ≡ (
        ok (payloads (message k.rcv_queue)),
        record k' {
          ask_tell =
              k'.ask_tell
              || (ltb (length k'.rcv_queue) k'.rcv_wnd && leb k.rcv_wnd (length k.rcv_queue));
        },
      )
unfolding recv
recv_eq room k size hp hc =
    let fits : size ≡ length (payloads (message k.rcv_queue)) = peeksize-message k hp in
    let merged = merge_lem room [] k.rcv_queue (omega (arith, message_len-eq k.rcv_queue)) in
    let enough : ltb room size ≡ false = ground arith in
    let all : (length (payloads (message k.rcv_queue)) == size) ≡ true = ground arith in
    rw (hp, recv, merged, enough, finish_recv, all)

-- A message that `peeksize` reports and that fits the caller's buffer is delivered whole: `recv`
-- returns the bytes of its segments, as many as `peeksize` said, and exactly those segments leave
-- the receive queue and buffer, which keep all others in order.
pub recv_delivers :
    {O : Type 0} (room : ℕ) (k : Kcp O) (size : ℕ)
    → IsU32 k.rcv_nxt
    → peeksize k ≡ ok size
    → size ≤ room
    → ((recv room k).0 ≡ ok (payloads (message k.rcv_queue)))
      × (length (payloads (message k.rcv_queue)) ≡ size)
      × (message k.rcv_queue ++ ((recv room k).1.rcv_queue ++ (recv room k).1.rcv_buf)
          ≡ k.rcv_queue ++ k.rcv_buf)
recv_delivers room k size hn hp hc =
    let s = record k { rcv_queue = later k.rcv_queue } in
    rw (recv_eq room k size hp hc) (
      refl,
      sym (peeksize-message k hp),
      rw (move_buf_keeps s hn) (
          sym (append_assoc (message k.rcv_queue) _ _)
          ∙ ap (λ q. q ++ k.rcv_buf) (message-later k.rcv_queue)),
    )

-- An empty message in front is taken, and the next one is then in front.
pub recv_empty :
    {O : Type 0} (room : ℕ) (k : Kcp O) (empty next : KcpSegment) (rest : List KcpSegment)
    → IsU32 k.rcv_nxt
    → k.rcv_queue ≡ empty ∷ next ∷ rest
    → empty.frg ≡ 0
    → empty.payload ≡ []
    → next.frg ≡ 0
    → (c : Kcp O) × (recv room k ≡ (ok [], c)) × (peeksize c ≡ ok (length next.payload))
unfolding peeksize peek_queue message later payloads
recv_empty room k empty next rest hn hq h0 he h1 =
    let first : (empty.frg == 0) ≡ true = ground arith in
    let second : (next.frg == 0) ≡ true = ground arith in
    let peek : peeksize k ≡ ok 0 = rw (hq, first, he) refl in
    let none_ : payloads (message k.rcv_queue) ≡ [] = rw (hq, first, he) refl in
    let left : later k.rcv_queue ≡ next ∷ rest = rw (hq, first) refl in
    let k1 = record k { rcv_queue = later k.rcv_queue } in
    let m = move_buf-Moves k1 hn in
    let queue : (move_buf k1).rcv_queue ≡ (next ∷ rest) ++ m.moved =
      m.queue_eq ∙ ap (λ q. q ++ m.moved) left in
    let k' = move_buf k1 in
    let c : Kcp _ = record k' {
      ask_tell =
          k'.ask_tell
          || (ltb (length k'.rcv_queue) k'.rcv_wnd && leb k.rcv_wnd (length k.rcv_queue));
    } in
    (
      c,
      recv_eq room k 0 peek (omega arith) ∙ ap (λ bytes. (ok bytes, c)) none_,
      rw (queue, second) refl,
    )

peek_queue-ne-panic : (q : List KcpSegment) → peek_queue q ≢ panic
unfolding peek_queue
peek_queue-ne-panic [] h = cc
peek_queue-ne-panic (seg ∷ segs) h = ground arith

peeksize-ne-panic : {O : Type 0} (k : Kcp O) → peeksize k ≢ panic
unfolding peeksize
peeksize-ne-panic k = peek_queue-ne-panic k.rcv_queue

-- `recv` never panics. A message that `peeksize` reports and that fits the buffer makes it return
-- `Ok` with the message's bytes. Otherwise it fails and leaves the state as it was, and it fails
-- only as `peeksize` does or because the caller's buffer is smaller than the message.
pub recv_fails :
    {O : Type 0} (room : ℕ) (k : Kcp O)
    → ((size : ℕ) × (peeksize k ≡ ok size)
        × (size ≤ room)
        × ((recv room k).0 ≡ ok (payloads (message k.rcv_queue))))
      ⊎ ((e : Error) × (recv room k ≡ (err e, k))
          × ((peeksize k ≡ err e)
              ⊎ ((e ≡ user_buf_too_small) × (size : ℕ) × (peeksize k ≡ ok size) × (room < size))))
unfolding recv
recv_fails room k = go (peeksize k) refl
  where
    go :
        (r : Result ℕ)
        → peeksize k ≡ r
        → ((size : ℕ) × (peeksize k ≡ ok size)
            × (size ≤ room)
            × ((recv room k).0 ≡ ok (payloads (message k.rcv_queue))))
          ⊎ ((e : Error) × (recv room k ≡ (err e, k))
              × ((peeksize k ≡ err e)
                  ⊎ ((e ≡ user_buf_too_small)
                      × (size : ℕ) × (peeksize k ≡ ok size)
                      × (room < size))))
    go (ok size) e = elim (Bool-cases (ltb room size)) [
      | inl small ↦
          inr (user_buf_too_small, rw (e, recv, small), inr (refl, size, e, ltb→lt room size small))
      | inr large ↦
          let fits = ltb-false room size large in
          inl
            (size, e, fits, ap (λ (r : Result (List ℕ) × Kcp _). r.0) (recv_eq room k size e fits))
    ]
    go (err x) e = inr (x, rw (e, recv), inl e)
    go panic e = absurd (peeksize-ne-panic k e)
