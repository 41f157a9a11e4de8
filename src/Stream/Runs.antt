-- ===== src/Stream/Runs.antt =====
-- A concrete run of a stream. No floating-point value matters to it.
use kcp_scream_testspace.Common.{
  ℕ, ◌≡◌, ◌≤◌, ◌<◌, ◌⊎◌, false, none, some, List, [], ◌∷◌, ◌++◌, length, min, arith,
}
use kcp_scream_testspace.Common.{ap}
use kcp_scream_testspace.Kcp.State.{Result}
use kcp_scream_testspace.Kcp.Settings.{default_config}
use kcp_scream_testspace.Samples.{first_socket, made}
use kcp_scream_testspace.Socket.Update.{new_socket}
use kcp_scream_testspace.Session.{expire_of, updater_turn}
use kcp_scream_testspace.Session.Steps.{turned}
use kcp_scream_testspace.Socket.Consistent.{Holds}
use kcp_scream_testspace.Stream.{connected, connect_with_conv, stream_send, drop_stream}
use kcp_scream_testspace.Stream.Steps.{
  recv_called, send_called, drop_called, session_stepped, no_call, then_call, stream_reached-Holds,
}
use kcp_scream_testspace.Kcp.Segment.{new_with_data}
use kcp_scream_testspace.Samples.{Log, log_write, no_float, number_wakers, idle_socket}
use kcp_scream_testspace.Kcp.State.{ok, construct}
use kcp_scream_testspace.Socket.{Socket, ready}
use kcp_scream_testspace.Session.{new_session}
use kcp_scream_testspace.Stream.{Stream, with_session, remaining, recv_loop}
use kcp_scream_testspace.Stream.Bytes.{HasRead, recv_loop_passes}
use kcp_scream_testspace.Stream.Buffer.{IsBuffered}

-- A message of three bytes has arrived.
abbrev loaded_socket : Socket Log (Unit {0}) ℕ
unfolding idle_socket construct
loaded_socket = record idle_socket {
  kcp = record (construct 7 [] false) {
    rcv_queue = new_with_data (1 ∷ 2 ∷ 3 ∷ []) ∷ [];
    rcv_nxt = 1;
  };
}

abbrev new_stream_of : Stream Log (Unit {0}) ℕ
unfolding with_session new_session
new_stream_of = with_session (new_session loaded_socket none none)

new_stream_of-IsBuffered : IsBuffered new_stream_of
unfolding new_stream_of with_session
new_stream_of-IsBuffered = record { pos_le = omega arith; cap_le = omega arith }

-- The caller has room for two bytes.
recv_loop_passes_example :
    let t = new_stream_of in
    let r = recv_loop 2 2 5 0 t in
    ((t.recv_buffer_pos < t.recv_buffer_cap)
      × (r.1.session ≡ t.session)
      × IsBuffered r.1
      × (xs : List ℕ) × (r.0 ≡ some (ready (ok xs)))
      × (xs ++ remaining r.1 ≡ remaining t)
      × (length xs ≡ min (length (remaining t)) 2))
    ⊎ ((t.recv_buffer_cap ≤ t.recv_buffer_pos) × (space : ℕ) × HasRead space 5 0 t r)
recv_loop_passes_example = recv_loop_passes 0 2 5 0 new_stream_of new_stream_of-IsBuffered

-- A new stream of a client.
abbrev client_stream : Stream Log (Unit {0}) ℕ
client_stream = with_session (new_session first_socket (expire_of default_config) none)

client_connects : connect_with_conv default_config 7 [] 0 0 ≡ ok client_stream
unfolding connect_with_conv
client_connects =
    let engine = (new_socket {O = Log} {F = Unit {0}} {W = ℕ} default_config 7 [] false 0 0).1 in
    ap (λ (r : Result (Socket Log (Unit {0}) ℕ)). connected default_config (r, engine)) made

stream_reached-Holds_example :
    let t1 = (stream_send (1 ∷ 2 ∷ []) 1 5 client_stream).1 in
    let t2 = record t1 { session = (updater_turn false 9 9 t1.session).1 } in
    let t3 = (recv_loop 2 8 2 10 t2).1 in
    Holds (drop_stream t3).session.socket × IsBuffered (drop_stream t3)
stream_reached-Holds_example =
    stream_reached-Holds default_config 7 [] 0 0 client_stream _ (omega arith) (omega arith)
      client_connects
      (then_call (send_called (1 ∷ 2 ∷ []) 1 5) (
        then_call (session_stepped (turned false 9 9))
          (then_call (recv_called 0 8 2 10) (then_call drop_called no_call))))
