-- ===== src/Session/Runs.antt =====
-- Concrete runs of a session. No floating-point value matters to it.
use kcp_scream_testspace.Common.{ℕ, ◌≡◌, ◌⊎◌, refl, true, false, some, arith}
use kcp_scream_testspace.Samples.{Log, log_write, no_float, number_wakers, idle_socket}
use kcp_scream_testspace.Kcp.State.{ok, construct, timediff, wnd_unused, wait_snd}
use kcp_scream_testspace.Kcp.Flush.{
  flush, template, probe_wnd_size, flush_pending, flush_ack_loop, flush_probe_commands,
  flush_probe_command, write_rest, flush_data, flush_wnd, resent_limit, rto_min, admit, lower_cwnd,
}
use kcp_scream_testspace.Kcp.Flush.Resend.{send_loop}
use kcp_scream_testspace.Socket.{
  need_flush, socket_flush, flush_kcp, process_flush_result, send_each,
}
use kcp_scream_testspace.Session.{Session, new_session, updater_turn}
use kcp_scream_testspace.Session.Expiry.{HasEnded, idle_ends, full_window_stays}

abbrev idle_session : Session Log (Unit {0}) ℕ
unfolding new_session
idle_session = new_session idle_socket (some 10) (some 3)

idle_ends_example :
    let r = updater_turn false 0 15 idle_session in
    HasEnded idle_session r ⊎ HasEnded idle_session (updater_turn true 1 16 r.1)
unfolding idle_session new_session idle_socket
idle_ends_example = idle_ends false true 0 15 1 16 3 10 idle_session refl refl (omega arith)

idle_flush : (socket_flush 5 idle_socket).0 ≡ ok tt
unfolding idle_socket socket_flush flush_kcp construct timediff flush template probe_wnd_size
    flush_pending flush_ack_loop flush_probe_commands flush_probe_command write_rest flush_data
    flush_wnd resent_limit rto_min admit send_loop lower_cwnd wnd_unused process_flush_result
    send_each
idle_flush = refl

full_window_stays_example :
    let s' = (updater_turn false 0 5 idle_session).1 in
    (s'.closed ≡ false) × (s'.updating ≡ idle_session.updating) × (s'.socket.last_update ≡ 5)
unfolding idle_session new_session idle_socket construct need_flush wait_snd
full_window_stays_example =
    full_window_stays 0 5 10 idle_session refl refl (omega arith) refl idle_flush
