-- ===== src/Socket/Calls.antt =====
-- A `KcpSocket` of tokio_kcp/src/skcp.rs in use: the calls on it, one after the other.
use kcp_scream_testspace.Common.{
  ℕ, ◌≡◌, refl, subst, Bool, true, false, List, [], All, arith, IsU8, IsU16, if_rule, ◌==◌,
  if◌then◌else◌,
}
use kcp_scream_testspace.Kcp.State.{
  Kcp, Result, ok, err, panic, new, new_stream, construct, timediff, Write,
}
use kcp_scream_testspace.Kcp.Settings.{
  KcpConfig, apply_config, set_mtu, set_nodelay, set_wndsize, set_external_congestion_control,
  request_conv, assign_conv,
}
use kcp_scream_testspace.Kcp.Flush.{Flushed}
use kcp_scream_testspace.Kcp.Clock.{update}
use kcp_scream_testspace.Kcp.Invariant.{IsConsistent, SameBoth-IsConsistent}
use kcp_scream_testspace.Kcp.Steps.{update-IsConsistent}
use kcp_scream_testspace.Scream.Floats.{Float}
use kcp_scream_testspace.Socket.{
  Socket, Wakers, close, socket_flush, socket_input, assign_conv_of, feed_back,
}
use kcp_scream_testspace.Socket.Send.{poll_recv, poll_send}
use kcp_scream_testspace.Socket.Update.{start_socket, configured, new_socket, socket_update}
use kcp_scream_testspace.Socket.Waiting.{
  try_wake_pending_waker-kcp, Rests-Holds, socket_input-Rests,
}
use kcp_scream_testspace.Socket.Consistent.{
  Holds, poll_recv-Holds, socket_flush-Holds, poll_send-Holds, socket_update-Holds,
}

-- An engine that has sent and received nothing.
record IsFresh {O : Type 0} (k : Kcp O) : Type 0 where
  rcv_nxt_eq : k.rcv_nxt ≡ 0
  rcv_buf_eq : k.rcv_buf ≡ []
  rcv_wnd_lt : IsU16 k.rcv_wnd
  una_eq : k.snd_una ≡ 0
  nxt_eq : k.snd_nxt ≡ 0
  snd_buf_eq : k.snd_buf ≡ []
  snd_wnd_lt : IsU16 k.snd_wnd

module _ {O : Type 0} where
  IsFresh-IsConsistent : (k : Kcp O) → IsFresh k → IsConsistent k
  unfolding timediff
  IsFresh-IsConsistent k v = record {
    receiver = record {
      nxt_lt = omega (arith, v.rcv_nxt_eq);
      wnd_lt = v.rcv_wnd_lt;
      ordered = rw (v.rcv_buf_eq) tt;
    };
    sender = record {
      una_lt = omega (arith, v.una_eq);
      nxt_lt = omega (arith, v.nxt_eq);
      near = rw (v.una_eq, v.nxt_eq) (omega arith);
      wnd_lt = v.snd_wnd_lt;
      in_flight = rw (v.snd_buf_eq) tt;
    };
  }

  new-IsFresh :
      (conv : ℕ) (output : O) (stream : Bool)
      → IsFresh (if stream then new_stream conv output else new conv output)
  unfolding new new_stream construct
  new-IsFresh conv output true = record {
    rcv_nxt_eq = refl;
    rcv_buf_eq = refl;
    rcv_wnd_lt = omega arith;
    una_eq = refl;
    nxt_eq = refl;
    snd_buf_eq = refl;
    snd_wnd_lt = omega arith;
  }
  new-IsFresh conv output false = record {
    rcv_nxt_eq = refl;
    rcv_buf_eq = refl;
    rcv_wnd_lt = omega arith;
    una_eq = refl;
    nxt_eq = refl;
    snd_buf_eq = refl;
    snd_wnd_lt = omega arith;
  }

  apply_config-IsFresh :
      (c : KcpConfig) (k : Kcp O)
      → IsU16 c.snd_wnd_size
      → IsU16 c.rcv_wnd_size
      → IsFresh k
      → IsFresh (apply_config c k).1
  unfolding apply_config set_mtu set_nodelay set_wndsize set_external_congestion_control
  apply_config-IsFresh c k hs hr v = ground arith

  request_conv-IsConsistent :
      (b : Bool) (k : Kcp O) → IsFresh k → IsConsistent (if b then request_conv k else k)
  unfolding request_conv
  request_conv-IsConsistent b k v =
      let c = IsFresh-IsConsistent k v in
      if_rule IsConsistent b
        (SameBoth-IsConsistent k (request_conv k) (refl, refl, refl) (refl, refl, refl, refl) c) c

-- A socket, if there is one, holds.
abbrev Starts : {O F W : Type 0} → Result (Socket O F W) → Type 0
Starts (ok s) = Holds s
Starts (err e) = Unit {0}
Starts panic = Unit {0}

module _ {O : Type 0} (F W : Type 0) ⦃w : Write O⦄ ⦃f : Float F⦄ where
  start_socket-Starts :
      (c : KcpConfig) (now : ℕ) (r : Result Flushed × Kcp O)
      → IsConsistent r.1
      → Starts {F = F} {W = W} (start_socket c now r).0
  start_socket-Starts c now (ok _, k) v = v
  start_socket-Starts c now (err x, k) v = tt
  start_socket-Starts c now (panic, k) v = tt

  configured-Starts :
      (c : KcpConfig) (conv ms now : ℕ) (r : Result (Unit {0}) × Kcp O)
      → IsFresh r.1
      → Starts {F = F} {W = W} (configured c conv ms now r).0
  configured-Starts c conv ms now (ok _, k) v =
      let k' = if conv == 0 then request_conv k else k in
      start_socket-Starts c now (update ms k')
        (update-IsConsistent ms k' (request_conv-IsConsistent (conv == 0) k v))
  configured-Starts c conv ms now (err x, k) v = tt
  configured-Starts c conv ms now (panic, k) v = tt

  new_socket-Starts :
      (c : KcpConfig) (conv : ℕ) (output : O) (stream : Bool) (ms now : ℕ)
      → IsU16 c.snd_wnd_size
      → IsU16 c.rcv_wnd_size
      → Starts {F = F} {W = W} (new_socket c conv output stream ms now).0
  unfolding new_socket
  new_socket-Starts c conv output stream ms now hs hr =
      configured-Starts c conv ms now _
        (apply_config-IsFresh c _ hs hr (new-IsFresh conv output stream))

module _ {O F W : Type 0} ⦃w : Write O⦄ ⦃f : Float F⦄ ⦃k : Wakers W⦄ where
  -- One call on the socket, with whatever it returns.
  pub data SocketCall : Socket O F W → Socket O F W → Type 0 where
    input_socket :
        {s : Socket O F W} (now ms : ℕ) (bytes : List ℕ)
        → All IsU8 bytes
        → SocketCall s (socket_input now ms bytes s).1
    feed_socket :
        {s : Socket O F W} (now : ℕ) (bytes : List ℕ) → SocketCall s (feed_back now bytes s)
    send_socket :
        {s : Socket O F W} (bytes : List ℕ) (waker : W) (now : ℕ)
        → SocketCall s (poll_send bytes waker now s).1
    recv_socket :
        {s : Socket O F W} (room : ℕ) (waker : W) (now : ℕ)
        → SocketCall s (poll_recv room waker now s).1
    flush_socket : {s : Socket O F W} (now : ℕ) → SocketCall s (socket_flush now s).1
    update_socket : {s : Socket O F W} (ms now : ℕ) → SocketCall s (socket_update ms now s).1
    close_socket : {s : Socket O F W} → SocketCall s (close s)
    assign_socket : {s : Socket O F W} (conv : ℕ) → SocketCall s (assign_conv_of conv s)

  pub data SocketCalls : Socket O F W → Socket O F W → Type 0 where
    no_call : {s : Socket O F W} → SocketCalls s s
    then_call : {s s' s'' : Socket O F W} → SocketCall s s' → SocketCalls s' s'' → SocketCalls s s''

  SocketCall-Holds : {s s' : Socket O F W} → SocketCall s s' → Holds s → Holds s'
  unfolding close assign_conv_of assign_conv feed_back
  SocketCall-Holds {s = s} (input_socket now ms bytes a) v =
      Rests-Holds _ _ (socket_input-Rests now ms bytes s a v)
  SocketCall-Holds {s = s} (feed_socket now bytes) v = rw (try_wake_pending_waker-kcp _) v
  SocketCall-Holds {s = s} (send_socket bytes waker now) v = poll_send-Holds bytes waker now s v
  SocketCall-Holds {s = s} (recv_socket room waker now) v = poll_recv-Holds room waker now s v
  SocketCall-Holds {s = s} (flush_socket now) v = socket_flush-Holds now s v
  SocketCall-Holds {s = s} (update_socket ms now) v = socket_update-Holds ms now s v
  SocketCall-Holds {s = s} close_socket v = v
  SocketCall-Holds {s = s} (assign_socket conv) v =
      SameBoth-IsConsistent s.kcp (assign_conv conv s.kcp) (refl, refl, refl)
        (refl, refl, refl, refl) v

  SocketCalls-Holds : {s s' : Socket O F W} → SocketCalls s s' → Holds s → Holds s'
  SocketCalls-Holds no_call v = v
  SocketCalls-Holds (then_call c cs) v = SocketCalls-Holds cs (SocketCall-Holds c v)

  -- A socket that `new` has made, with windows of 16 bits in its configuration, keeps its engine
  -- consistent through any sequence of calls, whatever the datagrams, the feedback, the writer and
  -- the congestion control's numbers: the receive buffer stays in order inside its window, and the
  -- numbers in flight stay in order between `snd_una` and `snd_nxt`, less than 2 ^ 16 apart.
  pub socket_reached-Holds :
      (c : KcpConfig) (conv : ℕ) (output : O) (stream : Bool) (ms now : ℕ) (s0 s : Socket O F W)
      → IsU16 c.snd_wnd_size
      → IsU16 c.rcv_wnd_size
      → (new_socket c conv output stream ms now).0 ≡ ok s0
      → SocketCalls s0 s
      → Holds s
  socket_reached-Holds c conv output stream ms now s0 s hs hr e cs =
      SocketCalls-Holds cs
        (subst Starts e (new_socket-Starts F W c conv output stream ms now hs hr))
