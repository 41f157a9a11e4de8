-- ===== src/Session/Steps.antt =====
-- What the tasks of tokio_kcp/src/session.rs do to a session's socket.
use kcp_scream_testspace.Common.{
  ℕ, ◌-◌, ◌≡◌, refl, subst, Bool, true, not, ◌&&◌, Option, none, some, List, [], ◌∷◌, ◌++◌, All,
  IsU8, drop, length, if_rule, arith, ltb, ◌==◌, if◌then◌else◌,
}
use kcp_scream_testspace.Kcp.Segment.{kcp_overhead, get_conv}
use kcp_scream_testspace.Kcp.State.{Write}
use kcp_scream_testspace.Scream.Floats.{Float}
use kcp_scream_testspace.Socket.{Socket, Wakers, can_close, need_flush, socket_flush}
use kcp_scream_testspace.Socket.Calls.{
  SocketCall, input_socket, feed_socket, flush_socket, update_socket, close_socket, assign_socket,
  SocketCalls, no_call, then_call,
}
use kcp_scream_testspace.Session.{
  Session, Turn, close_session, end_updater, idle_for, check_idle, drive, body, updater_turn,
  adopt_conv, is_feedback, client_input, channel_input, server_input,
}

module _ {O F W : Type 0} ⦃w : Write O⦄ ⦃f : Float F⦄ ⦃k : Wakers W⦄ where
  -- One step of a session: a turn of its updater, a datagram for a client or from the channel, one
  -- put into the channel, a call of the application on the socket, or `close`.
  pub data SessionStep : Session O F W → Session O F W → Type 0 where
    turned :
        {s : Session O F W} (raced : Bool) (ms now : ℕ)
        → SessionStep s (updater_turn raced ms now s).1
    heard :
        {s : Session O F W} (now ms : ℕ) (bytes : List ℕ)
        → All IsU8 bytes
        → SessionStep s (record s { socket = client_input now ms bytes s.socket })
    drawn :
        {s : Session O F W} (now ms : ℕ)
        → All (λ bytes. All IsU8 bytes) s.inputs
        → SessionStep s (server_input now ms s)
    put :
        {s : Session O F W} (bytes : List ℕ)
        → SessionStep s (record s { inputs = s.inputs ++ (bytes ∷ []) })
    called :
        {s : Session O F W} {t : Socket O F W}
        → SocketCall s.socket t
        → SessionStep s (record s { socket = t })
    shut : {s : Session O F W} → SessionStep s (close_session s)

  pub data SessionSteps : Session O F W → Session O F W → Type 0 where
    no_step : {s : Session O F W} → SessionSteps s s
    then_step :
        {s s' s'' : Session O F W} → SessionStep s s' → SessionSteps s' s'' → SessionSteps s s''

  SocketCalls-trans : {a b c : Socket O F W} → SocketCalls a b → SocketCalls b c → SocketCalls a c
  SocketCalls-trans no_call r = r
  SocketCalls-trans (then_call e q) r = then_call e (SocketCalls-trans q r)

  end_updater-SocketCalls : (s : Session O F W) → SocketCalls s.socket (end_updater s).1.socket
  unfolding end_updater
  end_updater-SocketCalls s = then_call close_socket no_call

  drive-SocketCalls :
      (ms now : ℕ) (s : Session O F W) → SocketCalls s.socket (drive ms now s).1.socket
  unfolding drive
  drive-SocketCalls ms now s =
      let flushed = if need_flush s.socket then (socket_flush now s.socket).1 else s.socket in
      SocketCalls-trans
        (if_rule (λ (t : Socket O F W). SocketCalls s.socket t) (need_flush s.socket)
          (then_call (flush_socket now) no_call) no_call)
        (then_call {s = flushed} (update_socket ms now) no_call)

  idle_for-socket :
      (o o' : Option ℕ) (elapsed : ℕ) (s : Session O F W)
      → (idle_for o o' elapsed s).1.socket ≡ s.socket
  idle_for-socket none o' elapsed s = refl
  idle_for-socket (some p) none elapsed s = refl
  idle_for-socket (some p) (some expire) elapsed s = ground arith

  check_idle-socket : (now : ℕ) (s : Session O F W) → (check_idle now s).1.socket ≡ s.socket
  unfolding check_idle
  check_idle-socket now s = idle_for-socket s.peer s.session_expire (now - s.socket.last_update) s

  body-SocketCalls :
      (ms now : ℕ) (s : Session O F W) → SocketCalls s.socket (body ms now s).1.socket
  unfolding body
  body-SocketCalls ms now s =
      let r = check_idle now s in
      let e = check_idle-socket now s in
      let Q : Turn × Session O F W → Type 0 = λ t. SocketCalls s.socket t.1.socket in
      if_rule Q (s.closed && can_close s.socket) (end_updater-SocketCalls s) (
        if_rule Q r.0
          (subst (λ t. SocketCalls t (end_updater r.1).1.socket) e (end_updater-SocketCalls r.1))
          (subst (λ t. SocketCalls t (drive ms now r.1).1.socket) e (drive-SocketCalls ms now r.1)))

  updater_turn-SocketCalls :
      (raced : Bool) (ms now : ℕ) (s : Session O F W)
      → SocketCalls s.socket (updater_turn raced ms now s).1.socket
  unfolding updater_turn close_session
  updater_turn-SocketCalls raced ms now s =
      if_rule (λ (t : Turn × Session O F W). SocketCalls s.socket t.1.socket) s.closed
        (end_updater-SocketCalls s)
        (if_rule (λ (s' : Session O F W). SocketCalls s.socket (body ms now s').1.socket) raced
          (body-SocketCalls ms now (record s { closed = true })) (body-SocketCalls ms now s))

  adopt_conv-SocketCalls : (o : Option ℕ) (s : Socket O F W) → SocketCalls s (adopt_conv o s)
  adopt_conv-SocketCalls none s = no_call
  adopt_conv-SocketCalls (some conv) s =
      if_rule (λ (t : Socket O F W). SocketCalls s t)
        (not s.kcp.input_conv && not (s.kcp.conv == conv)) (then_call (assign_socket conv) no_call)
        no_call

  client_input-SocketCalls :
      (now ms : ℕ) (bytes : List ℕ) (s : Socket O F W)
      → All IsU8 bytes
      → SocketCalls s (client_input now ms bytes s)
  unfolding client_input
  client_input-SocketCalls now ms bytes s a =
      let Q : Socket O F W → Type 0 = λ t. SocketCalls s t in
      if_rule Q (is_feedback bytes) (then_call (feed_socket now (drop 4 bytes)) no_call) (
        if_rule Q (ltb (length bytes) kcp_overhead) no_call (
          SocketCalls-trans (adopt_conv-SocketCalls (get_conv bytes) s)
            (then_call {s = adopt_conv (get_conv bytes) s} (input_socket now ms bytes a) no_call)))

  channel_input-SocketCalls :
      (now ms : ℕ) (inputs : List (List ℕ)) (s : Session O F W)
      → All (λ bytes. All IsU8 bytes) inputs
      → SocketCalls s.socket (channel_input now ms inputs s).socket
  channel_input-SocketCalls now ms [] s a = no_call
  channel_input-SocketCalls now ms (bytes ∷ inputs) s a =
      then_call (input_socket now ms bytes a.0) no_call

  SessionStep-SocketCalls :
      {s s' : Session O F W} → SessionStep s s' → SocketCalls s.socket s'.socket
  unfolding close_session server_input
  SessionStep-SocketCalls {s = s} (turned raced ms now) = updater_turn-SocketCalls raced ms now s
  SessionStep-SocketCalls {s = s} (heard now ms bytes a) =
      client_input-SocketCalls now ms bytes s.socket a
  SessionStep-SocketCalls {s = s} (drawn now ms a) = channel_input-SocketCalls now ms s.inputs s a
  SessionStep-SocketCalls (put bytes) = no_call
  SessionStep-SocketCalls (called c) = then_call c no_call
  SessionStep-SocketCalls shut = no_call

  -- Whatever the tasks of a session and its application do, one step after the other, they change
  -- the socket by calls on it alone.
  pub SessionSteps-SocketCalls :
      {s s' : Session O F W} → SessionSteps s s' → SocketCalls s.socket s'.socket
  SessionSteps-SocketCalls no_step = no_call
  SessionSteps-SocketCalls (then_step e es) =
      SocketCalls-trans (SessionStep-SocketCalls e) (SessionSteps-SocketCalls es)
