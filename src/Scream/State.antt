-- ===== src/Scream/State.antt =====
-- `ScreamCongestionControl` of tokio_kcp/src/scream.rs, its constants and `new`.
use kcp_scream_testspace.Common.{ℕ, ◌*◌, Bool, true, false, List, []}
use kcp_scream_testspace.Scream.Floats.{Float}
use kcp_scream_testspace.Scream.InFlight.{Packets}

abbrev pub second : ℕ
second = 1000000000

abbrev pub base_rtt_window : ℕ
base_rtt_window = 10 * second

pub record FeedbackPacketInfo : Type 0 where
  pub seq_number : ℕ
  pub reception_time_ms : ℕ

-- `ScreamCongestionControl`; `packets` is its `packets_in_flight`, `received` is its
-- `received_packets_for_feedback`.
pub record Scream (F : Type 0) : Type 0 where
  pub s_rtt : F
  pub rtt_var : F
  pub base_rtt : ℕ
  pub min_rtt_in_window : ℕ
  pub base_rtt_update_time : ℕ
  pub qdelay : ℕ
  pub qdelay_avg : F
  pub qdelay_target : F
  pub ref_wnd : F
  pub ref_wnd_i : F
  pub bytes_in_flight : ℕ
  pub max_bytes_in_flight : ℕ
  pub max_bytes_in_flight_prev : ℕ
  pub bytes_newly_acked : ℕ
  pub bytes_newly_acked_ce : ℕ
  pub loss_occured_in_rtt : Bool
  pub last_congestion_detected_time : ℕ
  pub last_ref_wnd_i_update_time : ℕ
  pub last_periodic_update_time : ℕ
  pub packets : Packets
  pub first_rtt_measurement : Bool
  pub loss_for_log : Bool
  pub received : List FeedbackPacketInfo
  pub last_feedback_time : ℕ

module _ {F : Type 0} ⦃f : Float F⦄ where
  abbrev pub whole : ℕ → F
  whole n = f.lit n 1

  abbrev pub mss : F
  mss = whole 1000

  abbrev pub min_ref_wnd : F
  min_ref_wnd = whole 2000

  unfoldable pub new_scream : ℕ → Scream F
  new_scream now = record {
    s_rtt = whole 0;
    rtt_var = whole 0;
    base_rtt = 10 * second;
    min_rtt_in_window = 10 * second;
    base_rtt_update_time = now;
    qdelay = 0;
    qdelay_avg = whole 0;
    qdelay_target = f.lit 6 100;
    ref_wnd = f.mul (whole 2) mss;
    ref_wnd_i = f.mul (whole 2) mss;
    bytes_in_flight = 0;
    max_bytes_in_flight = 0;
    max_bytes_in_flight_prev = 0;
    bytes_newly_acked = 0;
    bytes_newly_acked_ce = 0;
    loss_occured_in_rtt = false;
    last_congestion_detected_time = now;
    last_ref_wnd_i_update_time = now;
    last_periodic_update_time = now;
    packets = [];
    first_rtt_measurement = true;
    loss_for_log = false;
    received = [];
    last_feedback_time = now;
  }
