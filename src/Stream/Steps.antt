-- ===== src/Stream/Steps.antt =====
-- `KcpStream` of tokio_kcp/src/stream.rs in use, with its session, socket and engine.
use kcp_scream_testspace.Common.{
  ℕ, suc, ◌≡◌, refl, sym, ap, subst, ◌∙◌, none, List, inl, inr, arith, IsU16,
}
use kcp_scream_testspace.Kcp.State.{Kcp, Result, ok, err, panic, Write}
use kcp_scream_testspace.Kcp.Settings.{KcpConfig}
use kcp_scream_testspace.Scream.Floats.{Float}
use kcp_scream_testspace.Socket.{Socket, Wakers}
use kcp_scream_testspace.Socket.Update.{new_socket}
use kcp_scream_testspace.Socket.Consistent.{Holds}
use kcp_scream_testspace.Socket.Calls.{recv_socket, send_socket, flush_socket, socket_reached-Holds}
use kcp_scream_testspace.Session.{Session, new_session, expire_of}
use kcp_scream_testspace.Session.Steps.{
  SessionStep, called, shut, SessionSteps, no_step, then_step, SessionSteps-SocketCalls,
}
use kcp_scream_testspace.Stream.{
  Stream, with_session, drop_stream, recv_loop, stream_send, stream_flush, connected,
  connect_with_conv,
}
use kcp_scream_testspace.Stream.Bytes.{recv_loop_passes}
use kcp_scream_testspace.Stream.Buffer.{IsBuffered}

module _ {O F W : Type 0} ⦃w : Write O⦄ ⦃f : Float F⦄ ⦃k : Wakers W⦄ where
  -- One call on the stream, its drop, or a step of its session by the tasks.
  pub data StreamStep : Stream O F W → Stream O F W → Type 0 where
    recv_called :
        {t : Stream O F W} (fuel room : ℕ) (waker : W) (now : ℕ)
        → StreamStep t (recv_loop (suc (suc fuel)) room waker now t).1
    send_called :
        {t : Stream O F W} (bytes : List ℕ) (waker : W) (now : ℕ)
        → StreamStep t (stream_send bytes waker now t).1
    flush_called : {t : Stream O F W} (now : ℕ) → StreamStep t (stream_flush now t).1
    drop_called : {t : Stream O F W} → StreamStep t (drop_stream t)
    session_stepped :
        {t : Stream O F W} {s : Session O F W}
        → SessionStep t.session s
        → StreamStep t (record t { session = s })

  pub data StreamSteps : Stream O F W → Stream O F W → Type 0 where
    no_call : {t : Stream O F W} → StreamSteps t t
    then_call : {t t' t'' : Stream O F W} → StreamStep t t' → StreamSteps t' t'' → StreamSteps t t''

  SessionSteps-trans :
      {a b c : Session O F W} → SessionSteps a b → SessionSteps b c → SessionSteps a c
  SessionSteps-trans no_step r = r
  SessionSteps-trans (then_step e q) r = then_step e (SessionSteps-trans q r)

  -- What a call on a stream means for its session and its buffer.
  abbrev Refines : Stream O F W → Stream O F W → Type 0
  Refines t t' = SessionSteps t.session t'.session × IsBuffered t'

  recv_loop-Refines :
      (fuel room : ℕ) (waker : W) (now : ℕ) (t : Stream O F W)
      → IsBuffered t
      → Refines t (recv_loop (suc (suc fuel)) room waker now t).1
  recv_loop-Refines fuel room waker now t v =
      let r = recv_loop (suc (suc fuel)) room waker now t in
      elim (recv_loop_passes fuel room waker now t v) [
        | inl c ↦ (subst (SessionSteps t.session) (sym c.1) no_step, c.2)
        | inr c ↦ (
          subst (SessionSteps t.session) (sym c.2.2)
              (then_step (called (recv_socket c.1 waker now)) no_step),
          c.2.4,
        )
      ]

  StreamStep-Refines : {t t' : Stream O F W} → StreamStep t t' → IsBuffered t → Refines t t'
  unfolding stream_send stream_flush drop_stream
  StreamStep-Refines {t = t} (recv_called fuel room waker now) v =
      recv_loop-Refines fuel room waker now t v
  StreamStep-Refines {t = t} (send_called bytes waker now) v = (
    then_step (called (send_socket bytes waker now)) no_step,
    record { pos_le = v.pos_le; cap_le = v.cap_le },
  )
  StreamStep-Refines {t = t} (flush_called now) v = (
    then_step (called (flush_socket now)) no_step,
    record { pos_le = v.pos_le; cap_le = v.cap_le },
  )
  StreamStep-Refines {t = t} drop_called v =
      (then_step shut no_step, record { pos_le = v.pos_le; cap_le = v.cap_le })
  StreamStep-Refines {t = t} (session_stepped e) v =
      (then_step e no_step, record { pos_le = v.pos_le; cap_le = v.cap_le })

  StreamSteps-Refines : {t t' : Stream O F W} → StreamSteps t t' → IsBuffered t → Refines t t'
  StreamSteps-Refines no_call v = (no_step, v)
  StreamSteps-Refines (then_call e es) v =
      let first = StreamStep-Refines e v in
      let rest = StreamSteps-Refines es first.1 in (SessionSteps-trans first.0 rest.0, rest.1)

  connected-socket :
      (c : KcpConfig) (r : Result (Socket O F W) × Kcp O) (t : Stream O F W)
      → connected c r ≡ ok t
      → (s : Socket O F W) × (r.0 ≡ ok s) × (with_session (new_session s (expire_of c) none) ≡ t)
  connected-socket c (ok s, k) t e = (s, refl, cc)
  connected-socket c (err x, k) t e = cc
  connected-socket c (panic, k) t e = cc

  -- A stream that has connected, with windows of 16 bits in its configuration, may be read, written,
  -- flushed and dropped while its session's tasks take their turns and datagrams come in: after any
  -- such steps the engine below is consistent, and the buffer's position and end lie inside it.
  pub stream_reached-Holds :
      (c : KcpConfig) (conv : ℕ) (output : O) (ms now : ℕ) (t0 t : Stream O F W)
      → IsU16 c.snd_wnd_size
      → IsU16 c.rcv_wnd_size
      → connect_with_conv c conv output ms now ≡ ok t0
      → StreamSteps t0 t
      → Holds t.session.socket × IsBuffered t
  unfolding connect_with_conv with_session new_session
  stream_reached-Holds c conv output ms now t0 t hs hr e steps =
      let (s, made, same) = connected-socket c (new_socket c conv output c.stream ms now) t0 e in
      let start : IsBuffered t0 =
        subst IsBuffered same (record { pos_le = omega arith; cap_le = omega arith }) in
      let done = StreamSteps-Refines steps start in
      let first : s ≡ t0.session.socket = ap (λ (x : Stream O F W). x.session.socket) same in
      (
        socket_reached-Holds c conv output c.stream ms now t0.session.socket t.session.socket hs hr
            (made ∙ ap ok first) (SessionSteps-SocketCalls done.0),
        done.1,
      )
