-- ===== src/Server/Packets.antt =====
-- A datagram of one peer and the sessions of the others, in tokio_kcp/src/listener.rs.
use kcp_scream_testspace.Common.{
  ℕ, ◌≡◌, refl, Bool, true, false, ◌&&◌, Option, none, some, List, ◌∷◌, arith, length, drop, ltb,
  Map, lookup, adjust_key, if◌then◌else◌, if_rule,
}
use kcp_scream_testspace.Kcp.Segment.{kcp_overhead}
use kcp_scream_testspace.Kcp.State.{Kcp, Result, ok, err, panic, Write}
use kcp_scream_testspace.Kcp.Settings.{KcpConfig}
use kcp_scream_testspace.Scream.Floats.{Float}
use kcp_scream_testspace.Socket.{Socket}
use kcp_scream_testspace.Socket.Update.{new_socket}
use kcp_scream_testspace.Session.{Session, new_session, expire_of, close_session, is_feedback}
use kcp_scream_testspace.Server.{
  Server, backlog, drop_session, close_peer, install, installed, starts_over, offer_stream,
  feed_session, put_input, has_conv, choose, put_at, feed_at, get_known, get_or_create, route,
  routed, read_packet, handle_packet,
}
use kcp_scream_testspace.Server.Isolation.{
  IsServed, SpareOthers, Serves, adjust-IsServed, adjust-SpareOthers, remove-IsServed,
  insert-IsServed, insert-SpareOthers,
}

module _ {O F W : Type 0} where
  abbrev Served : Server O F W → Type 0
  Served v = IsServed v.shared v.sessions v.next_id

  SpareOthers-trans :
      (peer : ℕ) (m m' m'' : Map (Session O F W))
      → SpareOthers peer m m'
      → SpareOthers peer m' m''
      → SpareOthers peer m m''
  SpareOthers-trans peer m m' m'' p q i other s h theirs apart =
      q i other s (p i other s h theirs apart) theirs apart

  dropped :
      (peer : ℕ) (o : Option ℕ) (v : Server O F W)
      → lookup peer v.sessions ≡ o
      → Served v
      → IsServed (drop_session o v).shared v.sessions v.next_id
        × SpareOthers peer v.shared (drop_session o v).shared
  unfolding close_session
  dropped peer none v e h = (h, λ i other s found theirs apart. found)
  dropped peer (some id) v e h =
      let (s, found, mine) = h.owned peer id e in
      (
        adjust-IsServed id close_session v.shared v.sessions v.next_id (λ s' _. refl) h,
        adjust-SpareOthers peer id close_session v.shared s found mine,
      )

  drop_session-sessions : (o : Option ℕ) (v : Server O F W) → (drop_session o v).next_id ≡ v.next_id
  drop_session-sessions none v = refl
  drop_session-sessions (some id) v = refl

  pub close_peer-Serves :
      (peer : ℕ) (v : Server O F W) → Served v → Serves peer v (close_peer peer v)
  unfolding close_peer
  close_peer-Serves peer v h =
      let d = dropped peer (lookup peer v.sessions) v refl h in
      rw (drop_session-sessions (lookup peer v.sessions) v) (
        remove-IsServed peer (drop_session (lookup peer v.sessions) v).shared v.sessions v.next_id
            d.0,
        d.1,
      )

  install-Serves :
      (socket : Socket O F W) (expire : Option ℕ) (peer : ℕ) (v : Server O F W)
      → Served v
      → Serves peer v (install socket expire peer v).1
  unfolding install new_session
  install-Serves socket expire peer v h =
      let d = dropped peer (lookup peer v.sessions) v refl h in
      let m = (drop_session (lookup peer v.sessions) v).shared in
      let s = new_session socket expire (some peer) in
      (
        insert-IsServed peer s m v.sessions v.next_id refl d.0,
        SpareOthers-trans peer v.shared m ((v.next_id, s) ∷ m) d.1
            (insert-SpareOthers peer s m v.sessions v.next_id d.0),
      )

  -- The session is the peer's.
  abbrev Owns : ℕ → ℕ → Server O F W → Type 0
  Owns peer id v = (s : Session O F W) × (lookup id v.shared ≡ some s) × (s.peer ≡ some peer)

  install-Owns :
      (socket : Socket O F W) (expire : Option ℕ) (peer : ℕ) (v : Server O F W)
      → Owns peer (install socket expire peer v).0 (install socket expire peer v).1
  unfolding install new_session lookup
  install-Owns socket expire peer v = (new_session socket expire (some peer), ground arith, refl)

  abbrev Got : ℕ → Server O F W → Result (ℕ × Bool) × Server O F W → Type 0
  Got peer v (ok (id, created), v') = Serves peer v v' × Owns peer id v'
  Got peer v (err e, v') = Serves peer v v'
  Got peer v (panic, v') = Serves peer v v'

  same : (peer : ℕ) (v : Server O F W) → Served v → Serves peer v v
  same peer v h = (h, λ i other s found theirs apart. found)

  installed-Got :
      (expire : Option ℕ) (peer : ℕ) (r : Result (Socket O F W) × Kcp O) (v : Server O F W)
      → Served v
      → Got peer v (installed expire peer r v)
  installed-Got expire peer (ok socket, k) v h =
      (install-Serves socket expire peer v h, install-Owns socket expire peer v)
  installed-Got expire peer (err e, k) v h = same peer v h
  installed-Got expire peer (panic, k) v h = same peer v h

  abbrev Chosen : ℕ → Server O F W → Option ℕ × Server O F W → Type 0
  Chosen peer v (some id, v') = Serves peer v v' × Owns peer id v'
  Chosen peer v (none, v') = Serves peer v v'

  choose-Chosen :
      (peer conv : ℕ) (r : Result (ℕ × Bool) × Server O F W) (v : Server O F W)
      → Got peer v r
      → Chosen peer v (choose peer conv r)
  unfolding offer_stream
  choose-Chosen peer conv (err e, v') v g = g
  choose-Chosen peer conv (panic, v') v g = g
  choose-Chosen peer conv (ok (id, false), v') v g =
      if_rule (λ (r : Option ℕ × Server O F W). Chosen peer v r)
        (has_conv conv (lookup id v'.shared)) g g.0
  choose-Chosen peer conv (ok (id, true), v') v g =
      let Q : Bool × Server O F W → Type 0 =
        λ r. Chosen peer v (if r.0 then (some id, r.1) else (none, close_peer peer v')) in
      let c = close_peer-Serves peer v' g.0.0 in
      if_rule Q (v'.listening && ltb (length v'.accepted) backlog) g
        (c.0, SpareOthers-trans peer v.shared v'.shared (close_peer peer v').shared g.0.1 c.1)

  put_input-peer : (bytes : List ℕ) (s : Session O F W) → (put_input bytes s).peer ≡ s.peer
  put_input-peer bytes s = if_rule (λ (s' : Session O F W). s'.peer ≡ s.peer) s.updating refl refl

  put_at-Serves :
      (peer : ℕ) (bytes : List ℕ) (r : Option ℕ × Server O F W) (v : Server O F W)
      → Chosen peer v r
      → Serves peer v (put_at bytes r)
  put_at-Serves peer bytes (none, v') v c = c
  put_at-Serves peer bytes (some id, v') v (c, (s, found, mine)) = (
    adjust-IsServed id (put_input bytes) v'.shared v'.sessions v'.next_id
        (λ s' _. put_input-peer bytes s') c.0,
    SpareOthers-trans peer v.shared v'.shared (adjust_key id (put_input bytes) v'.shared) c.1
        (adjust-SpareOthers peer id (put_input bytes) v'.shared s found mine),
  )

module _ {O F W : Type 0} ⦃w : Write O⦄ ⦃f : Float F⦄ where
  feed_at-Serves :
      (now : ℕ) (bytes : List ℕ) (peer : ℕ) (o : Option ℕ) (v : Server O F W)
      → lookup peer v.sessions ≡ o
      → Served v
      → Serves peer v (feed_at now bytes o v)
  feed_at-Serves now bytes peer none v e h = same peer v h
  feed_at-Serves now bytes peer (some id) v e h =
      let (s, found, mine) = h.owned peer id e in
      (
        adjust-IsServed id (feed_session now bytes) v.shared v.sessions v.next_id (λ s' _. refl) h,
        adjust-SpareOthers peer id (feed_session now bytes) v.shared s found mine,
      )

  get_known-Got :
      (c : KcpConfig) (conv sn : ℕ) (output : O) (ms now peer : ℕ) (o : Option ℕ) (v : Server O F W)
      → lookup peer v.sessions ≡ o
      → Served v
      → Got peer v (get_known c conv sn output ms now peer o v)
  get_known-Got c conv sn output ms now peer none v e h =
      installed-Got (expire_of c) peer (new_socket c conv output c.stream ms now) v h
  get_known-Got c conv sn output ms now peer (some id) v e h =
      if_rule (λ (r : Result (ℕ × Bool) × Server O F W). Got peer v r)
        (starts_over conv sn (lookup id v.shared))
        (installed-Got (expire_of c) peer (new_socket c conv output c.stream ms now) v h)
        (same peer v h, h.owned peer id e)

  route-Serves :
      (c : KcpConfig) (output : O) (ms now peer conv sn : ℕ) (packet : List ℕ) (v : Server O F W)
      → Served v
      → Serves peer v (route c output ms now peer conv sn packet v)
  unfolding route get_or_create
  route-Serves c output ms now peer conv sn packet v h =
      let got = get_known c conv sn output ms now peer (lookup peer v.sessions) v in
      put_at-Serves peer packet (choose peer conv got) v (
        choose-Chosen peer conv got v
          (get_known-Got c conv sn output ms now peer (lookup peer v.sessions) v refl h))

  routed-Serves :
      (c : KcpConfig) (output : O) (ms now peer : ℕ) (o : Option (ℕ × ℕ × List ℕ))
      (v : Server O F W)
      → Served v
      → Serves peer v (routed c output ms now peer o v)
  routed-Serves c output ms now peer none v h = same peer v h
  routed-Serves c output ms now peer (some (conv, sn, packet)) v h =
      route-Serves c output ms now peer conv sn packet v h

  -- Whatever datagram comes from a peer, the sessions of all other peers stay as they are, and every
  -- peer stays mapped to a session of its own.
  pub handle_packet-Serves :
      (c : KcpConfig) (draws : List ℕ) (output : O) (ms now peer : ℕ) (packet : List ℕ)
      (v : Server O F W)
      → IsServed v.shared v.sessions v.next_id
      → let v' = handle_packet c draws output ms now peer packet v in
        IsServed v'.shared v'.sessions v'.next_id × SpareOthers peer v.shared v'.shared
  unfolding handle_packet
  handle_packet-Serves c draws output ms now peer packet v h =
      let Q : Server O F W → Type 0 = λ v'. Serves peer v v' in
      if_rule Q (is_feedback packet)
        (feed_at-Serves now (drop 4 packet) peer (lookup peer v.sessions) v refl h)
        (if_rule Q (ltb (length packet) kcp_overhead) (same peer v h)
          (routed-Serves c output ms now peer (read_packet draws packet) v h))
