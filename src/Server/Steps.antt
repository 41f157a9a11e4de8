-- ===== src/Server/Steps.antt =====
-- The tasks of a server, one step after the other: the listener of tokio_kcp/src/listener.rs and the
-- sessions of tokio_kcp/src/session.rs.
use kcp_scream_testspace.Common.{
  ℕ, ◌-◌, ◌≡◌, refl, Bool, true, ◌&&◌, Option, none, some, List, [], ◌∷◌, arith, drop, lookup,
  adjust_key, if_rule,
}
use kcp_scream_testspace.Kcp.State.{Write}
use kcp_scream_testspace.Kcp.Settings.{KcpConfig}
use kcp_scream_testspace.Scream.Floats.{Float}
use kcp_scream_testspace.Socket.{Wakers, can_close}
use kcp_scream_testspace.Session.{
  Session, Turn, sleeps, ends, close_session, end_updater, idle_for, check_idle, drive, body,
  updater_turn, channel_input, server_input,
}
use kcp_scream_testspace.Session.Steps.{SessionStep, turned, heard, drawn, put, called, shut}
use kcp_scream_testspace.Server.{
  Server, handle_packet, notify_listener, turn_of, session_turn, noticed, take_notice,
}
use kcp_scream_testspace.Server.Isolation.{IsServed, SpareOthers, adjust-IsServed}
use kcp_scream_testspace.Server.Packets.{close_peer-Serves, handle_packet-Serves}

module _ {O F W : Type 0} ⦃w : Write O⦄ ⦃f : Float F⦄ ⦃k : Wakers W⦄ where
  -- One step of the server: a datagram, a turn of a session's updater, a notice taken, a stream
  -- accepted, or a step of one session by its tasks or its application.
  pub data ServerStep : Server O F W → Server O F W → Type 0 where
    packet_in :
        {v : Server O F W} (c : KcpConfig) (draws : List ℕ) (output : O) (ms now peer : ℕ)
        (packet : List ℕ)
        → ServerStep v (handle_packet c draws output ms now peer packet v)
    turn_taken :
        {v : Server O F W} (raced : Bool) (ms now id : ℕ)
        → ServerStep v (session_turn raced ms now id v)
    notice_in : {v : Server O F W} → ServerStep v (take_notice v)
    stream_out : {v : Server O F W} → ServerStep v (record v { accepted = drop 1 v.accepted })
    session_used :
        {v : Server O F W} (id : ℕ) {s s' : Session O F W}
        → lookup id v.shared ≡ some s
        → SessionStep s s'
        → ServerStep v (record v { shared = adjust_key id (λ _. s') v.shared })

  pub data ServerSteps : Server O F W → Server O F W → Type 0 where
    no_step : {v : Server O F W} → ServerSteps v v
    then_step : {v v' v'' : Server O F W} → ServerStep v v' → ServerSteps v' v'' → ServerSteps v v''

  idle_for-peer :
      (o o' : Option ℕ) (elapsed : ℕ) (s : Session O F W)
      → (idle_for o o' elapsed s).1.peer ≡ s.peer
  idle_for-peer none o' elapsed s = refl
  idle_for-peer (some p) none elapsed s = refl
  idle_for-peer (some p) (some expire) elapsed s = ground arith

  body-peer : (ms now : ℕ) (s : Session O F W) → (body ms now s).1.peer ≡ s.peer
  unfolding body check_idle drive end_updater
  body-peer ms now s =
      let Q : Turn × Session O F W → Type 0 = λ r. r.1.peer ≡ s.peer in
      let i = idle_for-peer s.peer s.session_expire (now - s.socket.last_update) s in
      if_rule Q (s.closed && can_close s.socket) refl (if_rule Q (check_idle now s).0 i i)

  updater_turn-peer :
      (raced : Bool) (ms now : ℕ) (s : Session O F W)
      → (updater_turn raced ms now s).1.peer ≡ s.peer
  unfolding updater_turn end_updater close_session
  updater_turn-peer raced ms now s =
      let Q : Turn × Session O F W → Type 0 = λ r. r.1.peer ≡ s.peer in
      if_rule Q s.closed refl (
        if_rule (λ (s' : Session O F W). Q (body ms now s')) raced
          (body-peer ms now (record s { closed = true })) (body-peer ms now s))

  channel_input-peer :
      (now ms : ℕ) (inputs : List (List ℕ)) (s : Session O F W)
      → (channel_input now ms inputs s).peer ≡ s.peer
  channel_input-peer now ms [] s = refl
  channel_input-peer now ms (bytes ∷ inputs) s = refl

  SessionStep-peer : {s s' : Session O F W} → SessionStep s s' → s'.peer ≡ s.peer
  unfolding close_session server_input
  SessionStep-peer {s = s} (turned raced ms now) = updater_turn-peer raced ms now s
  SessionStep-peer {s = s} (heard now ms bytes a) = refl
  SessionStep-peer {s = s} (drawn now ms a) = channel_input-peer now ms s.inputs s
  SessionStep-peer (put bytes) = refl
  SessionStep-peer (called c) = refl
  SessionStep-peer shut = refl

  abbrev Served : Server O F W → Type 0
  Served v = IsServed v.shared v.sessions v.next_id

  -- One session becomes another of the same peer.
  exchange-IsServed :
      (id : ℕ) (s s' : Session O F W) (v : Server O F W)
      → lookup id v.shared ≡ some s
      → s'.peer ≡ s.peer
      → Served v
      → IsServed (adjust_key id (λ _. s') v.shared) v.sessions v.next_id
  exchange-IsServed id s s' v found e h =
      adjust-IsServed id (λ _. s') v.shared v.sessions v.next_id (λ t at. let u : t ≡ s = cc in cc)
        h

  notify_listener-Served : (t : Turn) (v : Server O F W) → Served v → Served (notify_listener t v)
  notify_listener-Served (sleeps next) v h = h
  notify_listener-Served (ends none) v h = h
  notify_listener-Served (ends (some peer)) v h = h

  turn_of-Served :
      (raced : Bool) (ms now id : ℕ) (o : Option (Session O F W)) (v : Server O F W)
      → lookup id v.shared ≡ o
      → Served v
      → Served (turn_of raced ms now id o v)
  turn_of-Served raced ms now id none v e h = h
  turn_of-Served raced ms now id (some s) v e h =
      let r = updater_turn raced ms now s in
      notify_listener-Served r.0 (record v { shared = adjust_key id (λ _. r.1) v.shared })
        (exchange-IsServed id s r.1 v e (updater_turn-peer raced ms now s) h)

  noticed-Served : (peers : List ℕ) (v : Server O F W) → Served v → Served (noticed peers v)
  noticed-Served [] v h = h
  noticed-Served (peer ∷ peers) v h = (close_peer-Serves peer (record v { closing = peers }) h).0

  ServerStep-Served : {v v' : Server O F W} → ServerStep v v' → Served v → Served v'
  unfolding session_turn take_notice
  ServerStep-Served {v = v} (packet_in c draws output ms now peer packet) h =
      (handle_packet-Serves c draws output ms now peer packet v h).0
  ServerStep-Served {v = v} (turn_taken raced ms now id) h =
      turn_of-Served raced ms now id (lookup id v.shared) v refl h
  ServerStep-Served {v = v} notice_in h = noticed-Served v.closing v h
  ServerStep-Served {v = v} stream_out h = h
  ServerStep-Served {v = v} (session_used id {s = s} {s' = s'} found step) h =
      exchange-IsServed id s s' v found (SessionStep-peer step) h

  ServerSteps-Served : {v v' : Server O F W} → ServerSteps v v' → Served v → Served v'
  ServerSteps-Served no_step h = h
  ServerSteps-Served (then_step e es) h = ServerSteps-Served es (ServerStep-Served e h)

  -- A listener that has just started.
  unfoldable pub new_server : Server O F W
  new_server = record {
    shared = [];
    sessions = [];
    next_id = 0;
    accepted = [];
    listening = true;
    closing = [];
  }

  -- After any steps of a server that has just started, each peer is mapped to a session that was made
  -- for it, and a datagram of one peer leaves the sessions of all others as they are, their queues
  -- of datagrams and their engines included.
  pub server_reached-SpareOthers :
      (v : Server O F W) (c : KcpConfig) (draws : List ℕ) (output : O) (ms now peer : ℕ)
      (packet : List ℕ)
      → ServerSteps new_server v
      → IsServed v.shared v.sessions v.next_id
        × SpareOthers peer v.shared (handle_packet c draws output ms now peer packet v).shared
  unfolding new_server lookup
  server_reached-SpareOthers v c draws output ms now peer packet steps =
      let start : Served new_server = record {
        fresh = λ i s h. absurd cc;
        owned = λ p i h. absurd cc;
      } in
      let h = ServerSteps-Served steps start in
      (h, (handle_packet-Serves c draws output ms now peer packet v h).1)
