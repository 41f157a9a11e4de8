-- ===== src/Socket/Send.antt =====
-- `poll_send`, `poll_recv` and `try_recv` of tokio_kcp/src/skcp.rs.
use kcp_scream_testspace.Common.{
  ℕ, Bool, true, false, not, ◌&&◌, ◌||◌, Option, none, some, List, [], ◌∷◌, ◌++◌, length, take, ltb,
  ◌==◌, if◌then◌else◌,
}
use kcp_scream_testspace.Kcp.State.{
  Kcp, Result, ok, err, panic, io_error, broken_pipe, recv_queue_empty, expecting_fragment, Write,
}
use kcp_scream_testspace.Kcp.Receive.{recv}
use kcp_scream_testspace.Kcp.Send.{send}
use kcp_scream_testspace.Scream.Floats.{Float}
use kcp_scream_testspace.Socket.{
  Socket, Wakers, Poll, ready, pending, is_full, and_socket, flush_kcp,
}

-- `replace` of a waker: the one that was there is woken, unless it wakes the same task.
abbrev pub replaced : {W : Type 0} ⦃k : Wakers W⦄ → W → Option W → List W
replaced waker none = []
replaced ⦃k⦄ waker (some old) = if not (k.will_wake waker old) then old ∷ [] else []

module _ {O F W : Type 0} ⦃k : Wakers W⦄ where
  unfoldable pub park_sender : W → Socket O F W → Socket O F W
  park_sender waker s = record s {
    pending_sender = some waker;
    woken = s.woken ++ replaced waker s.pending_sender;
  }

  unfoldable pub park_receiver : W → Socket O F W → Socket O F W
  park_receiver waker s = record s {
    pending_receiver = some waker;
    woken = s.woken ++ replaced waker s.pending_receiver;
  }

  abbrev pub take_received :
      W → ℕ → Result (List ℕ) × Kcp O → Socket O F W → Poll (List ℕ) × Socket O F W
  take_received waker now (ok bytes, c) s =
      if length bytes == 0 && not s.allow_recv_empty_packet
      then (pending, park_receiver waker (record s { kcp = c }))
      else (ready (ok bytes), record s { kcp = c; last_update = now })
  take_received waker now (err recv_queue_empty, c) s =
      (pending, park_receiver waker (record s { kcp = c }))
  take_received waker now (err expecting_fragment, c) s =
      (pending, park_receiver waker (record s { kcp = c }))
  take_received waker now (err e, c) s = (ready (err e), record s { kcp = c })
  take_received waker now (panic, c) s = (ready panic, record s { kcp = c })

  -- `poll_recv` into a buffer of `room` bytes; the result is what the buffer starts with.
  unfoldable pub poll_recv : ℕ → W → ℕ → Socket O F W → Poll (List ℕ) × Socket O F W
  poll_recv room waker now s =
      if s.closed then (ready (ok []), s) else take_received waker now (recv room s.kcp) s

module _ {O F W : Type 0} where
  unfoldable pub try_recv : ℕ → Socket O F W → Result (List ℕ) × Socket O F W
  try_recv room s =
      let r = recv room s.kcp in if s.closed then (ok [], s) else (r.0, record s { kcp = r.1 })

module _ {O F W : Type 0} ⦃w : Write O⦄ ⦃f : Float F⦄ where
  abbrev pub flush_if : Bool → ℕ → Socket O F W → Result (Unit {0}) × Socket O F W
  flush_if true now s = flush_kcp now s
  flush_if false now s = (ok tt, s)

  abbrev pub send_kcp : List ℕ → Socket O F W → Result ℕ × Socket O F W
  send_kcp bytes s = let r = send bytes s.kcp in (r.0, record s { kcp = r.1 })

  -- `poll_send` where it does not wait.
  unfoldable pub send_now : List ℕ → ℕ → Socket O F W → Result ℕ × Socket O F W
  send_now bytes now s =
      let first = not s.sent_first && (s.kcp.input_conv && ltb s.kcp.mss (length bytes)) in
      and_socket (send_kcp (if first then take s.kcp.mss bytes else bytes) s) (λ n s1.
        let s2 = record s1 { sent_first = true } in
        and_socket (flush_if (is_full s2.kcp) now s2) (λ _ s3.
          and_socket (flush_if s3.flush_write now (record s3 { last_update = now }))
            (λ _ s4. (ok n, s4))))

  unfoldable pub poll_send : ⦃k : Wakers W⦄ → List ℕ → W → ℕ → Socket O F W → Poll ℕ × Socket O F W
  poll_send bytes waker now s =
      let r = send_now bytes now s in
      if s.closed
      then (ready (err (io_error broken_pipe)), s)
      else if s.sent_first && (is_full s.kcp || s.kcp.input_conv)
      then (pending, park_sender waker s)
      else (ready r.0, r.1)
