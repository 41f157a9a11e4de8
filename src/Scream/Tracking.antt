-- ===== src/Scream/Tracking.antt =====
-- The packets in flight of tokio_kcp/src/scream.rs against the bytes counted for them.
use kcp_scream_testspace.Common.{
  ℕ, ◌+◌, ◌-◌, ◌≤◌, ◌≡◌, refl, Bool, true, false, Option, none, some, arith, u32, IsU32,
  if◌then◌else◌, Bool-cases, inl, inr, if_rule, ◌==◌, not,
}
use kcp_scream_testspace.Scream.Floats.{Float}
use kcp_scream_testspace.Scream.InFlight.{
  PacketInfo, find_packet, remove_packet, insert_packet, IsMap, outstanding, remove_packet-absent,
  find-remove, remove_packet-IsMap, mark_acked-IsMap, outstanding-remove, outstanding-mark_acked,
}
use kcp_scream_testspace.Scream.State.{Scream}
use kcp_scream_testspace.Scream.RefWnd.{decrease_window, increase_window}
use kcp_scream_testspace.Scream.{
  smooth_rtt, measure, on_packet_sent, on_rtt, ack_kcp_found, ack_scream_found, loss_found,
}

-- Each packet is tracked once, and `bytes_in_flight` counts those that KCP has not acknowledged.
pub record IsTracked {F : Type 0} (s : Scream F) : Type 0 where
  pub once : IsMap s.packets
  pub bytes_eq : s.bytes_in_flight ≡ outstanding s.packets
  pub bytes_le : s.bytes_in_flight ≤ s.max_bytes_in_flight

abbrev pub SameFlight : {F : Type 0} → Scream F → Scream F → Type 0
SameFlight s s' =
    (s'.packets ≡ s.packets)
    × (s'.bytes_in_flight ≡ s.bytes_in_flight)
    × (s'.max_bytes_in_flight ≡ s.max_bytes_in_flight)

pub SameFlight-IsTracked :
    {F : Type 0} (s s' : Scream F) → SameFlight s s' → IsTracked s → IsTracked s'
SameFlight-IsTracked s s' e v = record {
  once = rw e.0 v.once;
  bytes_eq = rw (e.1, e.0) v.bytes_eq;
  bytes_le = rw (e.1, e.2) v.bytes_le;
}

module _ {F : Type 0} ⦃f : Float F⦄ where
  pub decrease_window-SameFlight :
      (now : ℕ) (is_loss is_ce : Bool) (s : Scream F)
      → SameFlight s (decrease_window now is_loss is_ce s)
  unfolding decrease_window
  decrease_window-SameFlight now is_loss is_ce s = ground arith

  increase_window-SameFlight : (now : ℕ) (s : Scream F) → SameFlight s (increase_window now s)
  unfolding increase_window
  increase_window-SameFlight now s = ground arith

  measure-SameFlight : (rtt now : ℕ) (s : Scream F) → SameFlight s (measure rtt now s)
  unfolding measure smooth_rtt
  measure-SameFlight rtt now s = ground arith

  pub on_packet_sent-IsTracked :
      (seq_number size now : ℕ) (s : Scream F)
      → find_packet seq_number s.packets ≡ none
      → IsU32 (s.bytes_in_flight + u32 size)
      → IsTracked s
      → IsTracked (on_packet_sent seq_number size now s)
  unfolding on_packet_sent insert_packet
  on_packet_sent-IsTracked seq_number size now s e h v =
      let same = remove_packet-absent seq_number s.packets e in
      record {
        once = (find-remove seq_number s.packets, remove_packet-IsMap seq_number s.packets v.once);
        bytes_eq = rw same (omega (arith, v.bytes_eq));
        bytes_le = omega arith;
      }

  pub ack_kcp_found-IsTracked :
      (seq_number : ℕ) (o : Option PacketInfo) (s : Scream F)
      → find_packet seq_number s.packets ≡ o
      → IsTracked s
      → IsTracked (ack_kcp_found seq_number o s)
  ack_kcp_found-IsTracked seq_number none s e v = v
  ack_kcp_found-IsTracked seq_number (some info) s e v =
      let d = outstanding-mark_acked seq_number s.packets info v.once e in
      elim (Bool-cases info.acked_by_kcp) [
        | inl acked ↦ rw acked v
        | inr pending ↦ rw pending (record {
          once = mark_acked-IsMap seq_number s.packets v.once;
          bytes_eq = ground (arith, d, v.bytes_eq);
          bytes_le = omega (arith, v.bytes_le);
        })
      ]

  removed-IsTracked :
      (seq_number bytes : ℕ) (s : Scream F)
      → bytes ≡ outstanding (remove_packet seq_number s.packets)
      → bytes ≤ s.bytes_in_flight
      → IsTracked s
      → IsTracked
          (record s { packets = remove_packet seq_number s.packets; bytes_in_flight = bytes })
  removed-IsTracked seq_number bytes s e h v = record {
    once = remove_packet-IsMap seq_number s.packets v.once;
    bytes_eq = e;
    bytes_le = omega (arith, v.bytes_le);
  }

  pub ack_scream_found-IsTracked :
      (seq_number ack_time now : ℕ) (o : Option PacketInfo) (s : Scream F)
      → find_packet seq_number s.packets ≡ o
      → IsTracked s
      → IsTracked (ack_scream_found seq_number ack_time now o s)
  ack_scream_found-IsTracked seq_number ack_time now none s e v = v
  ack_scream_found-IsTracked seq_number ack_time now (some info) s e v =
      let d = outstanding-remove seq_number s.packets info v.once e in
      let bytes =
        if not info.acked_by_kcp then s.bytes_in_flight - u32 info.size else s.bytes_in_flight in
      let s1 = record s { packets = remove_packet seq_number s.packets; bytes_in_flight = bytes } in
      let s2 = record s1 { bytes_newly_acked = u32 (s.bytes_newly_acked + u32 info.size) } in
      let v1 : IsTracked s1 =
        removed-IsTracked seq_number bytes s (ground (arith, d, v.bytes_eq)) (ground arith) v in
      let v2 : IsTracked s2 = SameFlight-IsTracked s1 s2 (refl, refl, refl) v1 in
      let rtt = ack_time - info.timestamp in
      if_rule IsTracked (rtt == 0) v2
        (SameFlight-IsTracked s2 (measure rtt now s2) (measure-SameFlight rtt now s2) v2)

  pub loss_found-IsTracked :
      (seq_number now : ℕ) (o : Option PacketInfo) (s : Scream F)
      → find_packet seq_number s.packets ≡ o
      → ((info : PacketInfo) → o ≡ some info → info.acked_by_kcp ≡ false)
      → IsTracked s
      → IsTracked (loss_found seq_number now o s)
  loss_found-IsTracked seq_number now none s e h v = v
  loss_found-IsTracked seq_number now (some info) s e h v =
      let d = outstanding-remove seq_number s.packets info v.once e in
      let pending = h info refl in
      let bytes = s.bytes_in_flight - u32 info.size in
      let s1 = record s { packets = remove_packet seq_number s.packets; bytes_in_flight = bytes } in
      let s2 = record s1 { loss_occured_in_rtt = true; loss_for_log = true } in
      let v1 : IsTracked s1 =
        removed-IsTracked seq_number bytes s (ground (arith, d, v.bytes_eq, pending)) (omega arith)
          v in
      SameFlight-IsTracked s2 (decrease_window now true false s2)
        (decrease_window-SameFlight now true false s2)
        (SameFlight-IsTracked s1 s2 (refl, refl, refl) v1)

  pub on_rtt-IsTracked : (now : ℕ) (s : Scream F) → IsTracked s → IsTracked (on_rtt now s)
  unfolding on_rtt
  on_rtt-IsTracked now s v =
      let s1 = increase_window now s in
      let s2 = decrease_window now false false s1 in
      let v2 =
        SameFlight-IsTracked s1 s2 (decrease_window-SameFlight now false false s1)
          (SameFlight-IsTracked s s1 (increase_window-SameFlight now s) v) in
      record {
        once = v2.once;
        bytes_eq = v2.bytes_eq;
        bytes_le = omega (
          arith,
          (decrease_window-SameFlight now false false s1).1,
          (increase_window-SameFlight now s).1,
        );
      }
