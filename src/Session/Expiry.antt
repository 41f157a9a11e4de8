-- ===== src/Session/Expiry.antt =====
-- When a session of tokio_kcp/src/session.rs ends.
use kcp_scream_testspace.Common.{
  ℕ, ◌-◌, ◌≤◌, ◌<◌, ◌≡◌, refl, Bool, true, false, ◌&&◌, Option, none, some, arith, Bool-cases, inl,
  inr, if_rule, ◌∙◌, ◌⊎◌, ap, sym, subst,
}
use kcp_scream_testspace.Kcp.State.{ok, Write}
use kcp_scream_testspace.Scream.Floats.{Float}
use kcp_scream_testspace.Socket.{close, can_close, need_flush, socket_flush}
use kcp_scream_testspace.Socket.Frame.{socket_update-SameUse, socket_flush-used}
use kcp_scream_testspace.Session.{
  Session, Turn, ends, close_session, end_updater, idle_for, check_idle, drive, body, updater_turn,
}

module _ {O F W : Type 0} ⦃w : Write O⦄ ⦃f : Float F⦄ where
  -- The updater has ended and told the listener, and the socket is closed.
  abbrev pub HasEnded : Session O F W → Turn × Session O F W → Type 0
  HasEnded s r =
      (r.0 ≡ ends s.peer)
      × (r.1.updating ≡ false)
      × (r.1.closed ≡ true)
      × (r.1.socket.closed ≡ true)

  end_updater-HasEnded : (s : Session O F W) → HasEnded s (end_updater s)
  unfolding end_updater close
  end_updater-HasEnded s = (refl, refl, refl, refl)

  drive_keeps :
      (ms now : ℕ) (s : Session O F W)
      → ((drive ms now s).1.closed ≡ s.closed) × ((drive ms now s).1.peer ≡ s.peer)
  unfolding drive
  drive_keeps ms now s = (refl, refl)

  driven :
      (ms now : ℕ) (s : Session O F W)
      → s.closed ≡ false
      → need_flush s.socket ≡ true
      → (socket_flush now s.socket).0 ≡ ok tt
      → let s' = (drive ms now s).1 in
        (s'.closed ≡ false) × (s'.updating ≡ s.updating) × (s'.socket.last_update ≡ now)
  unfolding drive
  driven ms now s hc hf hk =
      let u = socket_update-SameUse ms now (socket_flush now s.socket).1 in
      rw hf (hc, refl, u.0 ∙ socket_flush-used now s.socket hk)

  idle_for-cases :
      (o o' : Option ℕ) (peer expire elapsed : ℕ) (s : Session O F W)
      → o ≡ some peer
      → o' ≡ some expire
      → expire < elapsed
      → (((idle_for o o' elapsed s).0 ≡ true) ⊎ ((idle_for o o' elapsed s).1.closed ≡ true))
        × ((idle_for o o' elapsed s).1.peer ≡ s.peer)
  idle_for-cases none o' peer expire elapsed s e e' h = cc
  idle_for-cases (some p) none peer expire elapsed s e e' h = cc
  idle_for-cases (some p) (some x) peer expire elapsed s e e' h = ground arith

  check_idle-cases :
      (now peer expire : ℕ) (s : Session O F W)
      → s.peer ≡ some peer
      → s.session_expire ≡ some expire
      → expire < now - s.socket.last_update
      → (((check_idle now s).0 ≡ true) ⊎ ((check_idle now s).1.closed ≡ true))
        × ((check_idle now s).1.peer ≡ s.peer)
  unfolding check_idle
  check_idle-cases now peer expire s hp he h =
      idle_for-cases s.peer s.session_expire peer expire (now - s.socket.last_update) s hp he h

  -- The turn has ended the session or set its flag.
  abbrev Closes : Session O F W → Turn × Session O F W → Type 0
  Closes s r = HasEnded s r ⊎ ((r.1.closed ≡ true) × (r.1.peer ≡ s.peer))

  body-Closes :
      (ms now peer expire : ℕ) (s : Session O F W)
      → s.peer ≡ some peer
      → s.session_expire ≡ some expire
      → expire < now - s.socket.last_update
      → Closes s (body ms now s)
  unfolding body
  body-Closes ms now peer expire s hp he h =
      let r = check_idle now s in
      let c : ((r.0 ≡ true) ⊎ (r.1.closed ≡ true)) × (r.1.peer ≡ s.peer) =
        check_idle-cases now peer expire s hp he h in
      if_rule (Closes s) (s.closed && can_close s.socket) (inl (end_updater-HasEnded s))
        (elim (Bool-cases r.0) [
          | inl force ↦
              let e = end_updater-HasEnded r.1 in rw force (inl (e.0 ∙ ap ends c.1, e.1, e.2, e.3))
          | inr stay ↦ rw stay (
              let d = drive_keeps ms now r.1 in
              elim c.0 [ inl force ↦ cc | inr shut ↦ inr (d.0 ∙ shut, d.1 ∙ c.1) ])
        ])

  updater_turn-Closes :
      (raced : Bool) (ms now peer expire : ℕ) (s : Session O F W)
      → s.peer ≡ some peer
      → s.session_expire ≡ some expire
      → expire < now - s.socket.last_update
      → Closes s (updater_turn raced ms now s)
  unfolding updater_turn close_session
  updater_turn-Closes raced ms now peer expire s hp he h =
      if_rule (Closes s) s.closed (inl (end_updater-HasEnded s)) (elim (Bool-cases raced) [
        | inl early ↦ rw early (body-Closes ms now peer expire (record s { closed = true }) hp he h)
        | inr late ↦ rw late (body-Closes ms now peer expire s hp he h)
      ])

  closed_ends :
      (raced : Bool) (ms now : ℕ) (s : Session O F W)
      → s.closed ≡ true
      → HasEnded s (updater_turn raced ms now s)
  unfolding updater_turn
  closed_ends raced ms now s e =
      let ended : updater_turn raced ms now s ≡ end_updater s = rw e refl in
      subst (HasEnded s) (sym ended) (end_updater-HasEnded s)

  -- A server's session that was last used longer ago than its expiry ends, with the notice to the
  -- listener and its socket closed, in this turn of the updater or in the one that follows it,
  -- whenever that comes and whatever the engine returns.
  pub idle_ends :
      (raced raced' : Bool) (ms now ms' now' peer expire : ℕ) (s : Session O F W)
      → s.peer ≡ some peer
      → s.session_expire ≡ some expire
      → expire < now - s.socket.last_update
      → let r = updater_turn raced ms now s in
        HasEnded s r ⊎ HasEnded s (updater_turn raced' ms' now' r.1)
  idle_ends raced raced' ms now ms' now' peer expire s hp he h =
      let r = updater_turn raced ms now s in
      elim (updater_turn-Closes raced ms now peer expire s hp he h) [
        | inl ended ↦ inl ended
        | inr (shut, same) ↦
            let e = closed_ends raced' ms' now' r.1 shut in inr (e.0 ∙ ap ends same, e.1, e.2, e.3)
      ]

  idle_for-fresh :
      (o o' : Option ℕ) (expire elapsed : ℕ) (s : Session O F W)
      → o' ≡ some expire
      → elapsed ≤ expire
      → idle_for o o' elapsed s ≡ (false, s)
  idle_for-fresh none o' expire elapsed s e h = refl
  idle_for-fresh (some p) none expire elapsed s e h = refl
  idle_for-fresh (some p) (some x) expire elapsed s e h = ground arith

  check_idle-fresh :
      (now expire : ℕ) (s : Session O F W)
      → s.session_expire ≡ some expire
      → now - s.socket.last_update ≤ expire
      → check_idle now s ≡ (false, s)
  unfolding check_idle
  check_idle-fresh now expire s he h =
      idle_for-fresh s.peer s.session_expire expire (now - s.socket.last_update) s he h

  -- As long as a window is full a session does not expire, though its peer may be gone: a turn that
  -- comes within the expiry flushes the socket, and if that returns `Ok` the flush counts as a use.
  pub full_window_stays :
      (ms now expire : ℕ) (s : Session O F W)
      → s.closed ≡ false
      → s.session_expire ≡ some expire
      → now - s.socket.last_update ≤ expire
      → need_flush s.socket ≡ true
      → (socket_flush now s.socket).0 ≡ ok tt
      → let s' = (updater_turn false ms now s).1 in
        (s'.closed ≡ false) × (s'.updating ≡ s.updating) × (s'.socket.last_update ≡ now)
  unfolding updater_turn body
  full_window_stays ms now expire s hc he h hf hk =
      let fresh = check_idle-fresh now expire s he h in
      let turn : updater_turn false ms now s ≡ drive ms now s = simp (hc, fresh) in
      rw turn (driven ms now s hc hf hk)
