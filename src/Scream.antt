-- ===== src/Scream.antt =====
-- tokio_kcp/src/scream.rs, the congestion control: its state and its operations. Instants and
-- durations are in nanoseconds; the clock readings of one call are taken as one, `now`.
pub mod Floats
pub mod InFlight
pub mod State
pub mod RefWnd
pub mod Feedback
pub mod Tracking
pub mod Events
pub mod Window
mod Runs
use kcp_scream_testspace.Common.{
  ℕ, ◌+◌, ◌-◌, ◌*◌, Bool, true, false, not, ◌||◌, Option, none, some, List, [], ◌∷◌, ◌++◌, max, min,
  u32, leb, ltb, ◌==◌, if◌then◌else◌,
}
use Floats.{Float}
use InFlight.{PacketInfo, Packets, find_packet, remove_packet, insert_packet, mark_acked}
use State.{FeedbackPacketInfo, Scream, second, base_rtt_window, whole}
use RefWnd.{decrease_window, increase_window}

module _ {F : Type 0} ⦃f : Float F⦄ where
  unfoldable pub on_packet_sent : ℕ → ℕ → ℕ → Scream F → Scream F
  on_packet_sent seq_number size now s =
      let bytes = u32 (s.bytes_in_flight + u32 size) in
      record s {
        packets =
            insert_packet seq_number (record { timestamp = now; size = size; acked_by_kcp = false })
              s.packets;
        bytes_in_flight = bytes;
        max_bytes_in_flight = max s.max_bytes_in_flight bytes;
      }

  -- `ms` is the time of day in milliseconds.
  unfoldable pub on_packet_received : ℕ → ℕ → Scream F → Scream F
  on_packet_received seq_number ms s = record s {
    received = s.received ++ (record { seq_number = seq_number; reception_time_ms = ms } ∷ []);
  }

  unfoldable pub on_rtt : ℕ → Scream F → Scream F
  on_rtt now s = record (decrease_window now false false (increase_window now s)) {
    max_bytes_in_flight_prev = s.max_bytes_in_flight;
    max_bytes_in_flight = s.bytes_in_flight;
    bytes_newly_acked = 0;
    bytes_newly_acked_ce = 0;
    loss_occured_in_rtt = false;
    last_periodic_update_time = now;
  }

  abbrev pub ack_kcp_found : ℕ → Option PacketInfo → Scream F → Scream F
  ack_kcp_found seq_number none s = s
  ack_kcp_found seq_number (some info) s =
      if not info.acked_by_kcp
      then record s {
        bytes_in_flight = s.bytes_in_flight - u32 info.size;
        packets = mark_acked seq_number s.packets;
      }
      else s

  unfoldable pub on_ack_kcp : ℕ → Scream F → Scream F
  on_ack_kcp seq_number s = ack_kcp_found seq_number (find_packet seq_number s.packets) s

  -- The smoothed round trip time after a sample of `secs` seconds.
  unfoldable pub smooth_rtt : F → Scream F → Scream F
  smooth_rtt secs s =
      if s.first_rtt_measurement
      then record s { s_rtt = secs; rtt_var = f.div secs (whole 2); first_rtt_measurement = false }
      else record s {
        rtt_var =
            f.add (f.mul (f.sub (whole 1) (f.lit 25 100)) s.rtt_var)
              (f.mul (f.lit 25 100) (f.abs (f.sub s.s_rtt secs)));
        s_rtt =
            f.add (f.mul (f.sub (whole 1) (f.lit 125 1000)) s.s_rtt) (f.mul (f.lit 125 1000) secs);
      }

  -- `on_ack_scream` behind the removal: the base round trip time, its window and the delay.
  unfoldable pub measure : ℕ → ℕ → Scream F → Scream F
  measure rtt now s =
      let base = if s.first_rtt_measurement then rtt else s.base_rtt in
      let least = min s.min_rtt_in_window rtt in
      let expired = leb base_rtt_window (now - s.base_rtt_update_time) in
      let base' = if expired then least else base in
      record (smooth_rtt (f.secs rtt) s) {
        base_rtt = base';
        min_rtt_in_window = if expired then 10 * second else least;
        base_rtt_update_time = if expired then now else s.base_rtt_update_time;
        qdelay = rtt - base';
        qdelay_avg =
            f.add (f.mul (f.sub (whole 1) (f.lit 1 10)) s.qdelay_avg)
              (f.mul (f.lit 1 10) (f.secs (rtt - base')));
      }

  abbrev pub ack_scream_found : ℕ → ℕ → ℕ → Option PacketInfo → Scream F → Scream F
  ack_scream_found seq_number ack_time now none s = s
  ack_scream_found seq_number ack_time now (some info) s =
      let s' = record s {
        packets = remove_packet seq_number s.packets;
        bytes_in_flight =
            if not info.acked_by_kcp then s.bytes_in_flight - u32 info.size else s.bytes_in_flight;
        bytes_newly_acked = u32 (s.bytes_newly_acked + u32 info.size);
      } in
      let rtt = ack_time - info.timestamp in if rtt == 0 then s' else measure rtt now s'

  unfoldable pub on_ack_scream : ℕ → ℕ → ℕ → Scream F → Scream F
  on_ack_scream seq_number ack_time now s =
      ack_scream_found seq_number ack_time now (find_packet seq_number s.packets) s

  abbrev pub loss_found : ℕ → ℕ → Option PacketInfo → Scream F → Scream F
  loss_found seq_number now none s = s
  loss_found seq_number now (some info) s = decrease_window now true false (record s {
    packets = remove_packet seq_number s.packets;
    bytes_in_flight = s.bytes_in_flight - u32 info.size;
    loss_occured_in_rtt = true;
    loss_for_log = true;
  })

  unfoldable pub on_packet_loss : ℕ → ℕ → Scream F → Scream F
  on_packet_loss seq_number now s = loss_found seq_number now (find_packet seq_number s.packets) s

  -- `log_data`, of which the state keeps this; the line that it writes is output.
  unfoldable pub log_data : Scream F → Scream F
  log_data s = record s { loss_for_log = false }

  unfoldable pub get_target_bitrate : Scream F → F
  get_target_bitrate s =
      if f.le s.s_rtt (whole 0)
      then whole 500000
      else f.clamp (f.div (f.mul s.ref_wnd (whole 8)) s.s_rtt) (whole 500000) (whole 10000000)

  unfoldable pub get_pacing_rate : Scream F → F
  get_pacing_rate s = f.mul (get_target_bitrate s) (f.lit 125 100)
