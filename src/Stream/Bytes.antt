-- ===== src/Stream/Bytes.antt =====
-- `poll_recv` of tokio_kcp/src/stream.rs and the bytes that it returns.
use kcp_scream_testspace.Common.{
  ℕ, suc, ◌-◌, ◌≤◌, ◌<◌, ◌≡◌, refl, sym, ap, ◌∙◌, false, ◌&&◌, some, List, [], ◌∷◌, ◌++◌, length,
  take, drop, length-append, append-nil, take-length-append, arith, min, ltb, leb, ◌==◌, if_rule,
  Bool-cases, ◌⊎◌, inl, inr, ltb→lt, leb→le, ltb-false, lt→ltb,
}
use kcp_scream_testspace.Kcp.Segment.{payloads}
use kcp_scream_testspace.Kcp.State.{ok, err, panic}
use kcp_scream_testspace.Kcp.Receive.{peeksize}
use kcp_scream_testspace.Kcp.Receive.Message.{message, recv_eq, peeksize-message}
use kcp_scream_testspace.Socket.{Socket, Wakers, Poll, ready, pending}
use kcp_scream_testspace.Socket.Send.{poll_recv}
use kcp_scream_testspace.Stream.{
  Stream, Round, peeked, grown, with_socket, remaining, copy_out, looped, buffered, read_buffered,
  direct, recv_round, recv_loop,
}
use kcp_scream_testspace.Stream.Buffer.{
  IsBuffered, copy_out_lem, nothing_left, grown-length, peeked-ok,
}

-- What a `poll_recv` of the socket returned, against what the stream returns and keeps: no byte of
-- a message is lost, doubled or moved.
abbrev pub Passes : Poll (List ℕ) → Poll (List ℕ) → List ℕ → Type 0
Passes (ready (ok bytes)) o rest = (xs : List ℕ) × (o ≡ ready (ok xs)) × (xs ++ rest ≡ bytes)
Passes (ready (err e)) o rest = (o ≡ ready (err e)) × (rest ≡ [])
Passes (ready panic) o rest = (o ≡ ready panic) × (rest ≡ [])
Passes pending o rest = (o ≡ pending) × (rest ≡ [])

-- The call returned, with what one `poll_recv` of the socket into so many bytes gave.
abbrev pub HasRead :
    {O F W : Type 0} ⦃k : Wakers W⦄ → ℕ → W → ℕ → Stream O F W → Round O F W → Type 0
HasRead space waker now t r =
    (o : Poll (List ℕ)) × (r.0 ≡ some o)
    × (r.1.session ≡ record t.session { socket = (poll_recv space waker now t.session.socket).1 })
    × Passes (poll_recv space waker now t.session.socket).0 o (remaining r.1)
    × IsBuffered r.1

module _ {O F W : Type 0} ⦃k : Wakers W⦄ where
  -- A round with bytes in the buffer.
  recv_round-copied :
      (room : ℕ) (waker : W) (now : ℕ) (t : Stream O F W)
      → t.recv_buffer_pos < t.recv_buffer_cap
      → recv_round room waker now t ≡ (some (ready (ok (copy_out room t).0)), (copy_out room t).1)
  unfolding recv_round
  recv_round-copied room waker now t h = rw (lt→ltb t.recv_buffer_pos t.recv_buffer_cap h) refl

  -- As `HasRead`, of any result of the socket.
  abbrev HasPassed : Poll (List ℕ) × Socket O F W → Stream O F W → Round O F W → Type 0
  HasPassed p t r =
      (o : Poll (List ℕ)) × (r.0 ≡ some o)
      × (r.1.session ≡ record t.session { socket = p.1 })
      × Passes p.0 o (remaining r.1)
      × IsBuffered r.1

  buffered-HasPassed :
      (fuel room : ℕ) (waker : W) (now : ℕ) (p : Poll (List ℕ) × Socket O F W) (t : Stream O F W)
      → t.recv_buffer_cap ≤ t.recv_buffer_pos
      → IsBuffered t
      → HasPassed p t (looped (buffered p t) (recv_loop (suc fuel) room waker now))
  unfolding recv_loop
  buffered-HasPassed fuel room waker now (pending, s) t h v = (
    pending,
    refl,
    refl,
    (refl, nothing_left t h),
    record { pos_le = v.pos_le; cap_le = v.cap_le },
  )
  buffered-HasPassed fuel room waker now (ready (err e), s) t h v = (
    ready (err e),
    refl,
    refl,
    (refl, nothing_left t h),
    record { pos_le = v.pos_le; cap_le = v.cap_le },
  )
  buffered-HasPassed fuel room waker now (ready panic, s) t h v = (
    ready panic,
    refl,
    refl,
    (refl, nothing_left t h),
    record { pos_le = v.pos_le; cap_le = v.cap_le },
  )
  buffered-HasPassed fuel room waker now (ready (ok []), s) t h v = (
    ready (ok []),
    refl,
    refl,
    ([], refl, nothing_left t h),
    record { pos_le = v.pos_le; cap_le = v.cap_le },
  )
  buffered-HasPassed fuel room waker now (ready (ok (b ∷ bs)), s) t h v =
      let bytes = b ∷ bs in
      let t' : Stream O F W = record (with_socket s t) {
        recv_buffer = bytes ++ drop (length bytes) t.recv_buffer;
        recv_buffer_pos = 0;
        recv_buffer_cap = length bytes;
      } in
      let v' : IsBuffered t' = record {
        pos_le = omega arith;
        cap_le = omega (arith, length-append bytes (drop (length bytes) t.recv_buffer));
      } in
      let whole : length bytes - 0 ≡ length bytes = omega arith in
      let all : remaining t' ≡ bytes =
        ap (λ n. take n t'.recv_buffer) whole
        ∙ take-length-append bytes (drop (length bytes) t.recv_buffer) in
      let c = copy_out_lem room t' v' in
      let some_ : (length bytes == 0) ≡ false = ground arith in
      rw (some_, recv_round-copied room waker now t' (omega arith))
        (ready (ok (copy_out room t').0), refl, c.2, ((copy_out room t').0, refl, c.0 ∙ all), c.3)

  direct-HasPassed :
      (waker : W) (now peek : ℕ) (p : Poll (List ℕ) × Socket O F W) (t : Stream O F W)
      (next : Stream O F W → Round O F W) (bytes : List ℕ)
      → p.0 ≡ ready (ok bytes)
      → t.recv_buffer_cap ≤ t.recv_buffer_pos
      → IsBuffered t
      → HasPassed p t (looped (direct waker now peek p t) next)
  direct-HasPassed waker now peek (pending, s) t next bytes e h v = cc
  direct-HasPassed waker now peek (ready (err x), s) t next bytes e h v = cc
  direct-HasPassed waker now peek (ready panic, s) t next bytes e h v = cc
  direct-HasPassed waker now peek (ready (ok xs), s) t next bytes e h v = (
    ready (ok xs),
    refl,
    refl,
    (xs, refl, ap (λ ys. xs ++ ys) (nothing_left t h) ∙ append-nil xs),
    record { pos_le = v.pos_le; cap_le = v.cap_le },
  )

  -- A socket whose next message fits returns bytes.
  poll_recv-ready :
      (room : ℕ) (waker : W) (now size : ℕ) (s : Socket O F W)
      → peeksize s.kcp ≡ ok size
      → 0 < size
      → size ≤ room
      → (bytes : List ℕ) × ((poll_recv room waker now s).0 ≡ ready (ok bytes))
  unfolding poll_recv
  poll_recv-ready room waker now size s hp h hr =
      let Q : Poll (List ℕ) × Socket O F W → Type 0 =
        λ r. (bytes : List ℕ) × (r.0 ≡ ready (ok bytes)) in
      let bytes = payloads (message s.kcp.rcv_queue) in
      let full : length bytes ≡ size = sym (peeksize-message s.kcp hp) in
      let some_ : (length bytes == 0) ≡ false = ground arith in
      if_rule Q s.closed ([], refl) (rw (recv_eq room s.kcp size hp hr, some_) (bytes, refl))

  read_buffered-HasRead :
      (fuel room peek : ℕ) (waker : W) (now : ℕ) (t : Stream O F W)
      → t.recv_buffer_cap ≤ t.recv_buffer_pos
      → IsBuffered t
      → HasRead
          (length (grown peek t.recv_buffer))
          waker
          now
          t
          (looped (read_buffered peek waker now t) (recv_loop (suc fuel) room waker now))
  unfolding read_buffered
  read_buffered-HasRead fuel room peek waker now t h v =
      let buffer = grown peek t.recv_buffer in
      let v' : IsBuffered (record t { recv_buffer = buffer }) = record {
        pos_le = v.pos_le;
        cap_le = omega (arith, v.cap_le, grown-length peek t.recv_buffer);
      } in
      buffered-HasPassed fuel room waker now (poll_recv (length buffer) waker now t.session.socket)
        (record t { recv_buffer = buffer }) h v'

  -- A round with nothing in the buffer, and what follows it.
  recv_round-HasRead :
      (fuel room : ℕ) (waker : W) (now : ℕ) (t : Stream O F W)
      → t.recv_buffer_cap ≤ t.recv_buffer_pos
      → IsBuffered t
      → (space : ℕ) × HasRead space waker now t (recv_loop (suc (suc fuel)) room waker now t)
  unfolding recv_loop recv_round
  recv_round-HasRead fuel room waker now t h v =
      let Q : Round O F W → Type 0 = λ r.
        (space : ℕ) × HasRead space waker now t (looped r (recv_loop (suc fuel) room waker now)) in
      let s = t.session.socket in
      let peek = peeked (peeksize s.kcp) in
      let left : ltb t.recv_buffer_pos t.recv_buffer_cap ≡ false = ground arith in
      let later : Q (read_buffered peek waker now t) =
        (length (grown peek t.recv_buffer), read_buffered-HasRead fuel room peek waker now t h v) in
      rw left (elim (Bool-cases (ltb 0 peek && leb peek room)) [
        | inl fits ↦
            let some_ : 0 < peek = ground (arith, ltb→lt 0 peek) in
            let short : peek ≤ room = ground (arith, leb→le peek room) in
            let r =
              poll_recv-ready room waker now peek s (peeked-ok (peeksize s.kcp) some_) some_
                short in
            rw fits (
              room,
              direct-HasPassed waker now peek (poll_recv room waker now s) t
                  (recv_loop (suc fuel) room waker now) r.0 r.1 h v,
            )
        | inr other ↦ rw other later
      ])

  -- A `poll_recv` of a stream returns, and within two rounds of its loop. If its buffer has bytes it
  -- returns the first of them, as many as fit the caller's, keeps the rest and leaves the session
  -- alone. If not, its session's socket is asked once with success, waiting or an error, which is
  -- then the stream's result too; the bytes of a message are those returned, followed by those that
  -- the buffer keeps.
  pub recv_loop_passes :
      (fuel room : ℕ) (waker : W) (now : ℕ) (t : Stream O F W)
      → IsBuffered t
      → let r = recv_loop (suc (suc fuel)) room waker now t in
        ((t.recv_buffer_pos < t.recv_buffer_cap)
          × (r.1.session ≡ t.session)
          × IsBuffered r.1
          × (xs : List ℕ) × (r.0 ≡ some (ready (ok xs)))
          × (xs ++ remaining r.1 ≡ remaining t)
          × (length xs ≡ min (length (remaining t)) room))
        ⊎ ((t.recv_buffer_cap ≤ t.recv_buffer_pos) × (space : ℕ) × HasRead space waker now t r)
  unfolding recv_loop
  recv_loop_passes fuel room waker now t v =
      elim (Bool-cases (ltb t.recv_buffer_pos t.recv_buffer_cap)) [
        | inl has ↦
            let lt = ltb→lt t.recv_buffer_pos t.recv_buffer_cap has in
            let c = copy_out_lem room t v in
            rw (recv_round-copied room waker now t lt)
              (inl (lt, c.2, c.3, (copy_out room t).0, refl, c.0, c.1))
        | inr none_ ↦
            let le = ltb-false t.recv_buffer_pos t.recv_buffer_cap none_ in
            let r = recv_round-HasRead fuel room waker now t le v in inr (le, r.0, r.1)
      ]
