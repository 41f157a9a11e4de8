-- ===== src/Session.antt =====
-- `KcpSession` of tokio_kcp/src/session.rs: a socket, the task that feeds it and the task that
-- updates it. One turn of a task holds the socket's lock and is one step.
pub mod Expiry
pub mod Steps
mod Runs
use mathlib.Core.Option
use kcp_scream_testspace.Common.{
  ℕ, ◌+◌, ◌-◌, ◌*◌, Bool, true, false, not, ◌&&◌, Option, none, some, List, [], ◌∷◌, ◌++◌, length,
  drop, ltb, ◌==◌, if◌then◌else◌,
}
use kcp_scream_testspace.Kcp.Segment.{kcp_overhead, get_u32_le, get_conv}
use kcp_scream_testspace.Kcp.State.{Result, ok, err, panic, Write}
use kcp_scream_testspace.Kcp.Settings.{KcpConfig}
use kcp_scream_testspace.Scream.Floats.{Float}
use kcp_scream_testspace.Socket.{
  Socket, close, can_close, need_flush, socket_flush, socket_input, feed_back, assign_conv_of,
}
use kcp_scream_testspace.Socket.Update.{socket_update, scream_feedback_header, millisecond}

-- The configured expiry; instants are in nanoseconds.
abbrev pub expire_of : KcpConfig → Option ℕ
expire_of c = Option.map (λ expire. expire * millisecond) c.session_expire

-- `peer` is that of the notifier of a server's session, and missing in a client's. `inputs` is the
-- channel from the listener; `updating` is that the updater, and with it the input task, still runs.
pub record Session (O F W : Type 0) : Type 0 where
  pub socket : Socket O F W
  pub closed : Bool
  pub session_expire : Option ℕ
  pub peer : Option ℕ
  pub inputs : List (List ℕ)
  pub updating : Bool

-- How a turn of the updater ends: it sleeps until a time, or the task ends with a notice for the
-- listener.
pub data Turn : Type 0 where
  sleeps : ℕ → Turn
  ends : Option ℕ → Turn

abbrev pub next_turn : ℕ → Result ℕ → Turn
next_turn now (ok next) = sleeps next
next_turn now (err e) = sleeps (now + 10 * millisecond)
next_turn now panic = ends none

abbrev pub has_header : Option ℕ → Bool
has_header none = false
has_header (some word) = word == scream_feedback_header

-- The datagrams that carry feedback and no segments.
abbrev pub is_feedback : List ℕ → Bool
is_feedback bytes = ltb 4 (length bytes) && has_header (get_u32_le bytes)

module _ {O F W : Type 0} where
  -- `KcpSession::new`
  unfoldable pub new_session : Socket O F W → Option ℕ → Option ℕ → Session O F W
  new_session socket session_expire peer = record {
    socket = socket;
    closed = false;
    session_expire = session_expire;
    peer = peer;
    inputs = [];
    updating = true;
  }

  -- `KcpSession::close`, which also wakes the updater.
  unfoldable pub close_session : Session O F W → Session O F W
  close_session s = record s { closed = true }

  -- What the updater does once its loop has ended.
  unfoldable pub end_updater : Session O F W → Turn × Session O F W
  end_updater s =
      (ends s.peer, record s { socket = close s.socket; closed = true; updating = false })

  abbrev pub idle_for : Option ℕ → Option ℕ → ℕ → Session O F W → Bool × Session O F W
  idle_for (some peer) (some expire) elapsed s =
      if ltb expire elapsed
      then (if ltb (expire * 2) elapsed
          then (true, s)
          else (false, if not s.closed then record s { closed = true } else s))
      else (false, s)
  idle_for _ _ elapsed s = (false, s)

  -- A server's session that was not used for a while: whether it ends at once, and its flag.
  unfoldable pub check_idle : ℕ → Session O F W → Bool × Session O F W
  check_idle now s = idle_for s.peer s.session_expire (now - s.socket.last_update) s

  abbrev pub adopt_conv : Option ℕ → Socket O F W → Socket O F W
  adopt_conv none s = s
  adopt_conv (some conv) s =
      if not s.kcp.input_conv && not (s.kcp.conv == conv) then assign_conv_of conv s else s

module _ {O F W : Type 0} ⦃w : Write O⦄ ⦃f : Float F⦄ where
  -- The end of a turn: a full window is flushed at once, with any error ignored.
  unfoldable pub drive : ℕ → ℕ → Session O F W → Turn × Session O F W
  drive ms now s =
      let socket = if need_flush s.socket then (socket_flush now s.socket).1 else s.socket in
      let r = socket_update ms now socket in (next_turn now r.0, record s { socket = r.1 })

  -- The loop's body, once the lock is held.
  unfoldable pub body : ℕ → ℕ → Session O F W → Turn × Session O F W
  body ms now s =
      let r = check_idle now s in
      if s.closed && can_close s.socket
      then end_updater s
      else if r.0
      then end_updater r.1
      else drive ms now r.1

  -- One turn of the updater; `raced` is that the session is closed between the loop's test and the
  -- lock.
  unfoldable pub updater_turn : Bool → ℕ → ℕ → Session O F W → Turn × Session O F W
  updater_turn raced ms now s =
      if s.closed then end_updater s else body ms now (if raced then close_session s else s)

  -- A datagram that a client receives.
  unfoldable pub client_input : ℕ → ℕ → List ℕ → Socket O F W → Socket O F W
  client_input now ms bytes s =
      if is_feedback bytes
      then feed_back now (drop 4 bytes) s
      else if ltb (length bytes) kcp_overhead
      then s
      else (socket_input now ms bytes (adopt_conv (get_conv bytes) s)).1

  abbrev pub channel_input : ℕ → ℕ → List (List ℕ) → Session O F W → Session O F W
  channel_input now ms [] s = s
  channel_input now ms (bytes ∷ inputs) s = record s {
    inputs = inputs;
    socket = (socket_input now ms bytes s.socket).1;
  }

  -- A datagram that a server's session takes from its channel.
  unfoldable pub server_input : ℕ → ℕ → Session O F W → Session O F W
  server_input now ms s = channel_input now ms s.inputs s
