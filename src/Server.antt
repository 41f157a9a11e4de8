-- ===== src/Server.antt =====
-- `KcpSessionManager` of tokio_kcp/src/session.rs and the task of `KcpListener` in
-- tokio_kcp/src/listener.rs: one UDP socket for the sessions of all peers.
pub mod Closing
pub mod Isolation
pub mod Packets
pub mod Steps
mod Runs
use kcp_scream_testspace.Common.{
  ℕ, ◌+◌, Bool, true, false, not, ◌&&◌, Option, none, some, List, [], ◌∷◌, ◌++◌, length, drop, ltb,
  ◌==◌, Map, lookup, remove_key, insert_key, adjust_key, if◌then◌else◌,
}
use kcp_scream_testspace.Kcp.Segment.{kcp_overhead, get_conv, get_sn, set_conv}
use kcp_scream_testspace.Kcp.State.{Kcp, Result, ok, err, panic, Write}
use kcp_scream_testspace.Kcp.Settings.{KcpConfig}
use kcp_scream_testspace.Scream.Floats.{Float}
use kcp_scream_testspace.Socket.{Socket, feed_back}
use kcp_scream_testspace.Socket.Update.{new_socket}
use kcp_scream_testspace.Session.{
  Session, Turn, sleeps, ends, new_session, expire_of, close_session, updater_turn, is_feedback,
}

-- The bound of the queue of accepted streams.
abbrev pub backlog : ℕ
backlog = 1024

-- An address is a number. A session that tasks share is known by its number in `shared`; `sessions`
-- is the manager's map from peers, `closing` the channel of the notices, `accepted` the queue of
-- streams, as long as `listening`.
pub record Server (O F W : Type 0) : Type 0 where
  pub shared : Map (Session O F W)
  pub sessions : Map ℕ
  pub next_id : ℕ
  pub accepted : List (ℕ × ℕ)
  pub listening : Bool
  pub closing : List ℕ

-- `alloc_conv` over the draws of the random generator: the first that is not 0.
unfoldable pub alloc_conv : List ℕ → Option ℕ
alloc_conv [] = none
alloc_conv (draw ∷ draws) = let rest = alloc_conv draws in if draw == 0 then rest else some draw

abbrev pub with_conv : ℕ → Option ℕ → Option (List ℕ) → Option (ℕ × ℕ × List ℕ)
with_conv conv (some sn) (some packet) = some (conv, sn, packet)
with_conv conv _ _ = none

abbrev pub allocated : Option ℕ → Option ℕ → List ℕ → Option (ℕ × ℕ × List ℕ)
allocated (some conv) sn packet = with_conv conv sn (set_conv packet conv)
allocated none sn packet = none

abbrev pub settled : List ℕ → Option ℕ → Option ℕ → List ℕ → Option (ℕ × ℕ × List ℕ)
settled draws (some conv) sn packet =
    if conv == 0 then allocated (alloc_conv draws) sn packet else with_conv conv sn (some packet)
settled draws none sn packet = none

-- The conversation, the number and the packet; a packet that asks for a conversation gets one.
unfoldable pub read_packet : List ℕ → List ℕ → Option (ℕ × ℕ × List ℕ)
read_packet draws packet = settled draws (get_conv packet) (get_sn packet) packet

module _ {O F W : Type 0} where
  -- The manager's own reference is dropped, which closes the session.
  abbrev pub drop_session : Option ℕ → Server O F W → Server O F W
  drop_session none v = v
  drop_session (some id) v = record v { shared = adjust_key id close_session v.shared }

  unfoldable pub close_peer : ℕ → Server O F W → Server O F W
  close_peer peer v = record (drop_session (lookup peer v.sessions) v) {
    sessions = remove_key peer v.sessions;
  }

  -- A new session for the peer; an old one is replaced, and so dropped.
  unfoldable pub install : Socket O F W → Option ℕ → ℕ → Server O F W → ℕ × Server O F W
  install socket expire peer v = (
    v.next_id,
    record v {
      shared =
          (v.next_id, new_session socket expire (some peer))
          ∷ (drop_session (lookup peer v.sessions) v).shared;
      sessions = insert_key peer v.next_id v.sessions;
      next_id = v.next_id + 1;
    },
  )

  abbrev pub installed :
      Option ℕ → ℕ → Result (Socket O F W) × Kcp O → Server O F W → Result (ℕ × Bool) × Server O F W
  installed expire peer (ok socket, k) v =
      let r = install socket expire peer v in (ok (r.0, true), r.1)
  installed expire peer (err e, k) v = (err e, v)
  installed expire peer (panic, k) v = (panic, v)

  -- Whether a packet starts over: the first one, of another conversation.
  abbrev pub starts_over : ℕ → ℕ → Option (Session O F W) → Bool
  starts_over conv sn none = false
  starts_over conv sn (some s) = sn == 0 && not (s.socket.kcp.conv == conv)

  -- `accept_tx.try_send`.
  unfoldable pub offer_stream : ℕ → ℕ → Server O F W → Bool × Server O F W
  offer_stream id peer v =
      if v.listening && ltb (length v.accepted) backlog
      then (true, record v { accepted = v.accepted ++ ((id, peer) ∷ []) })
      else (false, v)

  -- `KcpSession::input`, once its channel has room; a session whose tasks have ended takes nothing.
  abbrev pub put_input : List ℕ → Session O F W → Session O F W
  put_input bytes s = if s.updating then record s { inputs = s.inputs ++ (bytes ∷ []) } else s

  abbrev pub has_conv : ℕ → Option (Session O F W) → Bool
  has_conv conv none = false
  has_conv conv (some s) = s.socket.kcp.conv == conv

  -- Which session gets the packet. After a panic, which ends the listener's task, no more packets
  -- come.
  abbrev pub choose : ℕ → ℕ → Result (ℕ × Bool) × Server O F W → Option ℕ × Server O F W
  choose peer conv (ok (id, true), v) =
      let r = offer_stream id peer v in if r.0 then (some id, r.1) else (none, close_peer peer v)
  choose peer conv (ok (id, false), v) =
      if has_conv conv (lookup id v.shared) then (some id, v) else (none, v)
  choose peer conv (err e, v) = (none, v)
  choose peer conv (panic, v) = (none, v)

  abbrev pub put_at : List ℕ → Option ℕ × Server O F W → Server O F W
  put_at bytes (none, v) = v
  put_at bytes (some id, v) = record v { shared = adjust_key id (put_input bytes) v.shared }

module _ {O F W : Type 0} ⦃w : Write O⦄ ⦃f : Float F⦄ where
  abbrev pub feed_session : ℕ → List ℕ → Session O F W → Session O F W
  feed_session now bytes s = record s { socket = feed_back now bytes s.socket }

  abbrev pub feed_at : ℕ → List ℕ → Option ℕ → Server O F W → Server O F W
  feed_at now bytes none v = v
  feed_at now bytes (some id) v = record v {
    shared = adjust_key id (feed_session now bytes) v.shared;
  }

  abbrev pub get_known :
      KcpConfig → ℕ → ℕ → O → ℕ → ℕ → ℕ → Option ℕ → Server O F W → Result (ℕ × Bool) × Server O F W
  get_known c conv sn output ms now peer (some id) v =
      if starts_over conv sn (lookup id v.shared)
      then installed (expire_of c) peer (new_socket c conv output c.stream ms now) v
      else (ok (id, false), v)
  get_known c conv sn output ms now peer none v =
      installed (expire_of c) peer (new_socket c conv output c.stream ms now) v

  -- `get_or_create`; `output` is that of the new session's pacer.
  unfoldable pub get_or_create :
      KcpConfig → ℕ → ℕ → O → ℕ → ℕ → ℕ → Server O F W → Result (ℕ × Bool) × Server O F W
  get_or_create c conv sn output ms now peer v =
      get_known c conv sn output ms now peer (lookup peer v.sessions) v

  -- A packet whose conversation and number are known.
  unfoldable pub route : KcpConfig → O → ℕ → ℕ → ℕ → ℕ → ℕ → List ℕ → Server O F W → Server O F W
  route c output ms now peer conv sn packet v =
      put_at packet (choose peer conv (get_or_create c conv sn output ms now peer v))

  abbrev pub routed :
      KcpConfig → O → ℕ → ℕ → ℕ → Option (ℕ × ℕ × List ℕ) → Server O F W → Server O F W
  routed c output ms now peer none v = v
  routed c output ms now peer (some (conv, sn, packet)) v =
      route c output ms now peer conv sn packet v

  -- A datagram that the listener has received; `draws` are those of the random generator.
  unfoldable pub handle_packet :
      KcpConfig → List ℕ → O → ℕ → ℕ → ℕ → List ℕ → Server O F W → Server O F W
  handle_packet c draws output ms now peer packet v =
      if is_feedback packet
      then feed_at now (drop 4 packet) (lookup peer v.sessions) v
      else if ltb (length packet) kcp_overhead
      then v
      else routed c output ms now peer (read_packet draws packet) v

  abbrev pub notify_listener : Turn → Server O F W → Server O F W
  notify_listener (ends (some peer)) v = record v { closing = v.closing ++ (peer ∷ []) }
  notify_listener (ends none) v = v
  notify_listener (sleeps next) v = v

  abbrev pub turn_of : Bool → ℕ → ℕ → ℕ → Option (Session O F W) → Server O F W → Server O F W
  turn_of raced ms now id none v = v
  turn_of raced ms now id (some s) v =
      let r = updater_turn raced ms now s in
      notify_listener r.0 (record v { shared = adjust_key id (λ _. r.1) v.shared })

  -- A turn of the updater of one session.
  unfoldable pub session_turn : Bool → ℕ → ℕ → ℕ → Server O F W → Server O F W
  session_turn raced ms now id v = turn_of raced ms now id (lookup id v.shared) v

module _ {O F W : Type 0} where
  abbrev pub noticed : List ℕ → Server O F W → Server O F W
  noticed [] v = v
  noticed (peer ∷ peers) v = close_peer peer (record v { closing = peers })

  -- The listener takes a notice that a session has ended.
  unfoldable pub take_notice : Server O F W → Server O F W
  take_notice v = noticed v.closing v
