-- ===== src/Samples.antt =====
-- Data for the concrete runs: a writer that keeps what it gets, floating-point values of which only
-- one exists, and a socket.
use kcp_scream_testspace.Common.{
  ℕ, ◌≡◌, refl, true, false, none, some, List, [], ◌∷◌, ◌++◌, length, ◌==◌,
}
use kcp_scream_testspace.Kcp.State.{Kcp, ok, construct, new, timediff, wnd_unused, Write}
use kcp_scream_testspace.Kcp.Settings.{
  default_config, apply_config, set_mtu, set_nodelay, set_wndsize, set_external_congestion_control,
}
use kcp_scream_testspace.Kcp.Flush.{
  flush, template, probe_wnd_size, flush_pending, flush_ack_loop, flush_probe_commands,
  flush_probe_command, write_rest, flush_data, flush_wnd, resent_limit, rto_min, admit, lower_cwnd,
}
use kcp_scream_testspace.Kcp.Flush.Resend.{send_loop}
use kcp_scream_testspace.Kcp.Clock.{update, tick, is_far}
use kcp_scream_testspace.Scream.State.{new_scream}
use kcp_scream_testspace.Socket.{Socket, Wakers}
use kcp_scream_testspace.Socket.Update.{new_socket}
use kcp_scream_testspace.Scream.Floats.{Float}

abbrev pub Log : Type 0
Log = List (List ℕ)

instance abbrev pub log_write : Write Log
log_write = record {
  write_all = λ o bytes. (none, o ++ (bytes ∷ []));
  write = λ o bytes. (ok (length bytes), o ++ (bytes ∷ []));
}

instance abbrev pub no_float : Float (Unit {0})
no_float = record {
  lit = λ n d. tt;
  of_u32 = λ n. tt;
  secs = λ n. tt;
  add = λ a b. tt;
  sub = λ a b. tt;
  mul = λ a b. tt;
  div = λ a b. tt;
  fmax = λ a b. tt;
  fmin = λ a b. tt;
  abs = λ a. tt;
  powi = λ a n. tt;
  clamp = λ a lo hi. tt;
  gt = λ a b. false;
  le = λ a b. true;
  nanos = λ a. 20000000;
  to_int = λ a. 2;
}

instance abbrev pub number_wakers : Wakers ℕ
number_wakers = record { will_wake = λ a b. a == b }

-- The peer's window is closed, and a task waits to send.
unfoldable pub idle_socket : Socket Log (Unit {0}) ℕ
unfolding construct
idle_socket = record {
  kcp = record (construct 7 [] false) { updated = true; rmt_wnd = 0 };
  scream = new_scream 0;
  last_update = 0;
  flush_write = false;
  flush_ack_input = true;
  sent_first = true;
  pending_sender = some 1;
  pending_receiver = none;
  closed = false;
  allow_recv_empty_packet = false;
  pacing_rate = tt;
  target_bitrate = tt;
  woken = [];
}

-- The engine of a new socket, behind the first `update`.
unfoldable pub new_engine : Kcp Log
unfolding apply_config new
new_engine = (update 0 (apply_config default_config (new {O = Log} 7 [])).1).1

unfoldable pub first_socket : Socket Log (Unit {0}) ℕ
unfolding idle_socket
first_socket = record idle_socket {
  kcp = new_engine;
  sent_first = false;
  flush_ack_input = false;
  pending_sender = none;
  pending_receiver = none;
}

pub made : (new_socket default_config 7 [] false 0 0).0 ≡ ok first_socket
unfolding first_socket new_engine idle_socket new_socket apply_config new construct set_mtu
    set_nodelay set_wndsize set_external_congestion_control update tick is_far timediff flush
    template probe_wnd_size flush_pending flush_ack_loop flush_probe_commands flush_probe_command
    write_rest flush_data flush_wnd resent_limit rto_min admit send_loop lower_cwnd wnd_unused
    new_scream
made = refl
