-- ===== src/Server/Closing.antt =====
-- The notice of a session's end in tokio_kcp/src/session.rs and tokio_kcp/src/listener.rs.
use kcp_scream_testspace.Common.{
  ℕ, ◌≡◌, refl, ◌∙◌, Bool, false, Option, none, some, [], ◌∷◌, arith, ◌==◌, lookup, adjust_key,
  lookup-remove_key, lookup-insert_key, lookup-adjust_key, lookup-adjust_other,
}
use kcp_scream_testspace.Kcp.State.{Write}
use kcp_scream_testspace.Scream.Floats.{Float}
use kcp_scream_testspace.Socket.{Socket}
use kcp_scream_testspace.Session.{Session, new_session, close_session, end_updater, updater_turn}
use kcp_scream_testspace.Server.{Server, close_peer, install, session_turn, take_notice}

module _ {O F W : Type 0} where
  -- The old session is still in the shared, closed.
  replaced_store :
      (socket : Socket O F W) (expire : Option ℕ) (peer id : ℕ) (s : Session O F W)
      (v : Server O F W)
      → lookup peer v.sessions ≡ some id
      → lookup id v.shared ≡ some s
      → (v.next_id == id) ≡ false
      → lookup id (install socket expire peer v).1.shared ≡ some (close_session s)
  unfolding install lookup
  replaced_store socket expire peer id s v hp hs hn =
      rw (hn, hp) (lookup-adjust_key id close_session s v.shared hs)

module _ {O F W : Type 0} ⦃w : Write O⦄ ⦃f : Float F⦄ where
  -- The server after a session was replaced, its updater has ended and the listener has taken the
  -- notice.
  abbrev pub after_replacement :
      Socket O F W → Option ℕ → ℕ → Bool → ℕ → ℕ → ℕ → Server O F W → Server O F W
  after_replacement socket expire peer raced ms now id v =
      take_notice (session_turn raced ms now id (install socket expire peer v).1)

  ended_turn :
      (raced : Bool) (ms now : ℕ) (s : Session O F W)
      → updater_turn raced ms now (close_session s) ≡ end_updater (close_session s)
  unfolding updater_turn close_session
  ended_turn raced ms now s = refl

  -- What the turn of a closed session of a known peer does to the server.
  turn_closed :
      (raced : Bool) (ms now id peer : ℕ) (s : Session O F W) (v : Server O F W)
      → lookup id v.shared ≡ some (close_session s)
      → s.peer ≡ some peer
      → v.closing ≡ []
      → session_turn raced ms now id v ≡ record v {
        shared = adjust_key id (λ _. (end_updater (close_session s)).1) v.shared;
        closing = peer ∷ [];
      }
  unfolding session_turn updater_turn end_updater close_session
  turn_closed raced ms now id peer s v hs he hc = rw (hs, he, hc) refl

  new_first :
      (socket : Socket O F W) (expire : Option ℕ) (peer : ℕ) (v : Server O F W)
      → lookup v.next_id (install socket expire peer v).1.shared
        ≡ some (new_session socket expire (some peer))
  unfolding install lookup
  new_first socket expire peer v = ground arith

  -- What the listener's notice of a peer does, that has a session.
  notice_taken :
      (peer id : ℕ) (s : Session O F W) (v : Server O F W)
      → v.closing ≡ peer ∷ []
      → lookup peer v.sessions ≡ some id
      → lookup id v.shared ≡ some s
      → (lookup peer (take_notice v).sessions ≡ none)
        × (lookup id (take_notice v).shared ≡ some (close_session s))
  unfolding take_notice close_peer
  notice_taken peer id s v hc hp hs =
      rw (hc, hp)
        (lookup-remove_key peer v.sessions, lookup-adjust_key id close_session s v.shared hs)

  -- A session that was replaced by a new one of the same peer still reports the peer when it ends:
  -- when the updater of the old session has its turn and the listener takes that notice, with no
  -- other waiting before it, the peer has no session any more, and the new session, which the peer
  -- had until then, is closed.
  pub stale_notice_closes :
      (socket : Socket O F W) (expire : Option ℕ) (peer : ℕ) (raced : Bool) (ms now id : ℕ)
      (s : Session O F W) (v : Server O F W)
      → lookup peer v.sessions ≡ some id
      → lookup id v.shared ≡ some s
      → s.peer ≡ some peer
      → (v.next_id == id) ≡ false
      → v.closing ≡ []
      → (lookup peer (install socket expire peer v).1.sessions ≡ some v.next_id)
        × (lookup peer (after_replacement socket expire peer raced ms now id v).sessions ≡ none)
        × (lookup v.next_id (after_replacement socket expire peer raced ms now id v).shared
            ≡ some (close_session (new_session socket expire (some peer))))
  unfolding install
  stale_notice_closes socket expire peer raced ms now id s v hp hs he hn hc =
      let v' = (install socket expire peer v).1 in
      let turn =
        turn_closed raced ms now id peer s v' (replaced_store socket expire peer id s v hp hs hn) he
          hc in
      let other : (id == v.next_id) ≡ false = ground arith in
      let v'' : Server O F W = record v' {
        shared = adjust_key id (λ _. (end_updater (close_session s)).1) v'.shared;
        closing = peer ∷ [];
      } in
      let known = lookup-insert_key peer v.next_id v.sessions in
      let first =
        lookup-adjust_other v.next_id id (λ _. (end_updater (close_session s)).1) v'.shared other
        ∙ new_first socket expire peer v in
      let taken =
        notice_taken peer v.next_id (new_session socket expire (some peer)) v'' refl known first in
      rw turn (known, taken.0, taken.1)
