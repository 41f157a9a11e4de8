-- ===== src/Server/Runs.antt =====
-- Concrete runs of the server. No floating-point value matters to it.
use kcp_scream_testspace.Common.{ℕ, ◌≡◌, refl, true, false, none, some, List, [], ◌∷◌, lookup}
use kcp_scream_testspace.Samples.{Log, log_write, no_float, number_wakers, idle_socket}
use kcp_scream_testspace.Session.{close_session, new_session}
use kcp_scream_testspace.Kcp.Settings.{default_config}
use kcp_scream_testspace.Server.{Server, install, handle_packet, session_turn, take_notice}
use kcp_scream_testspace.Server.Isolation.{IsServed, SpareOthers}
use kcp_scream_testspace.Server.Steps.{
  packet_in, turn_taken, notice_in, no_step, then_step, new_server, server_reached-SpareOthers,
}
use kcp_scream_testspace.Server.Closing.{after_replacement, stale_notice_closes}

-- The peer 3 has the session 0.
abbrev one_session : Server Log (Unit {0}) ℕ
unfolding new_session
one_session = record {
  shared = (0, new_session idle_socket (some 10) (some 3)) ∷ [];
  sessions = (3, 0) ∷ [];
  next_id = 1;
  accepted = [];
  listening = true;
  closing = [];
}

stale_notice_closes_example :
    (lookup 3 (install idle_socket (some 10) 3 one_session).1.sessions ≡ some 1)
    × (lookup 3 (after_replacement idle_socket (some 10) 3 false 0 0 0 one_session).sessions ≡ none)
    × (lookup 1 (after_replacement idle_socket (some 10) 3 false 0 0 0 one_session).shared
        ≡ some (close_session (new_session idle_socket (some 10) (some 3))))
unfolding one_session lookup new_session
stale_notice_closes_example =
    stale_notice_closes idle_socket (some 10) 3 false 0 0 0 _ one_session refl refl refl refl refl

-- Datagrams of the peers 3 and 4, a turn of the first session, and a notice taken.
abbrev first_packet : List ℕ
first_packet =
    7 ∷ 0 ∷ 0 ∷ 0 ∷ 81 ∷ 0 ∷ 128 ∷ 0 ∷ 5 ∷ 0 ∷ 0 ∷ 0 ∷ 0 ∷ 0 ∷ 0 ∷ 0 ∷ 0 ∷ 0 ∷ 0 ∷ 0 ∷ 1 ∷ 0 ∷ 0 ∷ 0
    ∷ 42 ∷ []

abbrev after_start : Server Log (Unit {0}) ℕ
after_start = take_notice (
    session_turn false 5 5 0 (
      handle_packet default_config [] [] 1 1 4 first_packet
        (handle_packet default_config [] [] 0 0 3 first_packet new_server)))

server_reached-SpareOthers_example :
    IsServed after_start.shared after_start.sessions after_start.next_id
    × SpareOthers 3 after_start.shared
        (handle_packet default_config (0 ∷ 9 ∷ []) [] 7 7 3 first_packet after_start).shared
server_reached-SpareOthers_example =
    server_reached-SpareOthers after_start default_config (0 ∷ 9 ∷ []) [] 7 7 3 first_packet (
      then_step (packet_in default_config [] [] 0 0 3 first_packet) (
        then_step (packet_in default_config [] [] 1 1 4 first_packet)
          (then_step (turn_taken false 5 5 0) (then_step notice_in no_step))))
