-- ===== src/Stream.antt =====
-- `KcpStream` of tokio_kcp/src/stream.rs: a session with a buffer of received bytes.
pub mod Buffer
pub mod Bytes
pub mod Steps
mod Runs
use kcp_scream_testspace.Common.{
  ℕ, ◌+◌, ◌-◌, Bool, true, false, ◌&&◌, Option, none, some, List, [], ◌∷◌, ◌++◌, length, take, drop,
  ltb, leb, ◌==◌, min, if◌then◌else◌, zero, suc,
}
use kcp_scream_testspace.Kcp.State.{Result, ok, err, panic, Error, user_buf_too_small, Write, Kcp}
use kcp_scream_testspace.Kcp.Settings.{KcpConfig}
use kcp_scream_testspace.Kcp.Receive.{peeksize}
use kcp_scream_testspace.Scream.Floats.{Float}
use kcp_scream_testspace.Socket.{Socket, Wakers, Poll, ready, pending, socket_flush}
use kcp_scream_testspace.Socket.Send.{poll_recv, poll_send}
use kcp_scream_testspace.Socket.Update.{new_socket}
use kcp_scream_testspace.Session.{Session, new_session, expire_of, close_session}

-- A `notify` of the updater is left out, since the updater may take a turn at any time.
pub record Stream (O F W : Type 0) : Type 0 where
  pub session : Session O F W
  pub recv_buffer : List ℕ
  pub recv_buffer_pos : ℕ
  pub recv_buffer_cap : ℕ

-- What one round of `poll_recv` comes to: a return, or the loop again.
abbrev pub Round : Type 0 → Type 0 → Type 0 → Type 0
Round O F W = Option (Poll (List ℕ)) × Stream O F W

abbrev pub peeked : Result ℕ → ℕ
peeked (ok size) = size
peeked (err e) = 0
peeked panic = 0

-- `resize` to at least `size` bytes.
abbrev pub zeros : ℕ → List ℕ
zeros zero = []
zeros (suc n) = 0 ∷ zeros n

abbrev pub grown : ℕ → List ℕ → List ℕ
grown size buffer =
    if ltb (length buffer) size then buffer ++ zeros (size - length buffer) else buffer

module _ {O F W : Type 0} where
  -- `KcpStream::with_session`
  unfoldable pub with_session : Session O F W → Stream O F W
  with_session session = record {
    session = session;
    recv_buffer = [];
    recv_buffer_pos = 0;
    recv_buffer_cap = 0;
  }

  -- `Drop` of a stream.
  unfoldable pub drop_stream : Stream O F W → Stream O F W
  drop_stream t = record t { session = close_session t.session }

  abbrev pub with_socket : Socket O F W → Stream O F W → Stream O F W
  with_socket socket t = record t { session = record t.session { socket = socket } }

  -- The bytes that the buffer still has.
  abbrev pub remaining : Stream O F W → List ℕ
  remaining t = take (t.recv_buffer_cap - t.recv_buffer_pos) (drop t.recv_buffer_pos t.recv_buffer)

  -- Bytes from the buffer into the caller's `room` bytes.
  unfoldable pub copy_out : ℕ → Stream O F W → List ℕ × Stream O F W
  copy_out room t =
      let copy_length = min (t.recv_buffer_cap - t.recv_buffer_pos) room in
      (
        take copy_length (drop t.recv_buffer_pos t.recv_buffer),
        record t { recv_buffer_pos = t.recv_buffer_pos + copy_length },
      )

  abbrev pub looped : Round O F W → (Stream O F W → Round O F W) → Round O F W
  looped (some o, t) next = (some o, t)
  looped (none, t) next = next t

  -- The message that was received into the buffer.
  abbrev pub buffered : Poll (List ℕ) × Socket O F W → Stream O F W → Round O F W
  buffered (pending, s) t = (some pending, with_socket s t)
  buffered (ready (ok bytes), s) t =
      if length bytes == 0 then (some (ready (ok [])), with_socket s t) else (
        none,
        record (with_socket s t) {
          recv_buffer = bytes ++ drop (length bytes) t.recv_buffer;
          recv_buffer_pos = 0;
          recv_buffer_cap = length bytes;
        },
      )
  buffered (ready (err e), s) t = (some (ready (err e)), with_socket s t)
  buffered (ready panic, s) t = (some (ready panic), with_socket s t)

  module _ ⦃k : Wakers W⦄ where
    unfoldable pub read_buffered : ℕ → W → ℕ → Stream O F W → Round O F W
    read_buffered peek waker now t =
        let buffer = grown peek t.recv_buffer in
        buffered (poll_recv (length buffer) waker now t.session.socket)
          (record t { recv_buffer = buffer })

    -- The message that was received into the caller's bytes.
    abbrev pub direct : W → ℕ → ℕ → Poll (List ℕ) × Socket O F W → Stream O F W → Round O F W
    direct waker now peek (pending, s) t = (some pending, with_socket s t)
    direct waker now peek (ready (ok bytes), s) t = (some (ready (ok bytes)), with_socket s t)
    direct waker now peek (ready (err user_buf_too_small), s) t =
        read_buffered peek waker now (with_socket s t)
    direct waker now peek (ready (err e), s) t = (some (ready (err e)), with_socket s t)
    direct waker now peek (ready panic, s) t = (some (ready panic), with_socket s t)

    -- The body of the loop of `poll_recv`.
    unfoldable pub recv_round : ℕ → W → ℕ → Stream O F W → Round O F W
    recv_round room waker now t =
        let r = copy_out room t in
        let peek = peeked (peeksize t.session.socket.kcp) in
        if ltb t.recv_buffer_pos t.recv_buffer_cap
        then (some (ready (ok r.0)), r.1)
        else if ltb 0 peek && leb peek room
        then direct waker now peek (poll_recv room waker now t.session.socket) t
        else read_buffered peek waker now t

    -- `poll_recv` of a stream, with at most so many rounds.
    unfoldable pub recv_loop : ℕ → ℕ → W → ℕ → Stream O F W → Round O F W
    recv_loop zero room waker now t = (none, t)
    recv_loop (suc fuel) room waker now t =
        looped (recv_round room waker now t) (recv_loop fuel room waker now)

module _ {O F W : Type 0} ⦃w : Write O⦄ ⦃f : Float F⦄ where
  -- `poll_send` of a stream.
  unfoldable pub stream_send :
      ⦃k : Wakers W⦄ → List ℕ → W → ℕ → Stream O F W → Poll ℕ × Stream O F W
  stream_send bytes waker now t =
      let r = poll_send bytes waker now t.session.socket in (r.0, with_socket r.1 t)

  -- `poll_flush` of a stream.
  unfoldable pub stream_flush : ℕ → Stream O F W → Result (Unit {0}) × Stream O F W
  stream_flush now t = let r = socket_flush now t.session.socket in (r.0, with_socket r.1 t)

  abbrev pub connected : KcpConfig → Result (Socket O F W) × Kcp O → Result (Stream O F W)
  connected c (ok s, k) = ok (with_session (new_session s (expire_of c) none))
  connected c (err e, k) = err e
  connected c (panic, k) = panic

  -- `connect_with_socket_conv`.
  unfoldable pub connect_with_conv : KcpConfig → ℕ → O → ℕ → ℕ → Result (Stream O F W)
  connect_with_conv c conv output ms now = connected c (new_socket c conv output c.stream ms now)
