-- ===== src/Scream/Events.antt =====
-- The calls on the controller of tokio_kcp/src/scream.rs as events, one after the other.
use kcp_scream_testspace.Common.{
  ℕ, ◌+◌, ◌≡◌, refl, false, Option, none, some, arith, u32, IsU32, if_rule, ◌==◌, le32, List, [],
  ◌∷◌, length,
}
use kcp_scream_testspace.Scream.Floats.{Float}
use kcp_scream_testspace.Scream.InFlight.{PacketInfo, find_packet}
use kcp_scream_testspace.Scream.Feedback.{on_feedback, create_feedback_packet}
use kcp_scream_testspace.Scream.State.{Scream, new_scream}
use kcp_scream_testspace.Scream.{
  on_packet_sent, on_packet_received, on_rtt, on_ack_kcp, on_ack_scream, on_packet_loss, log_data,
}
use kcp_scream_testspace.Scream.Tracking.{
  IsTracked, on_packet_sent-IsTracked, ack_kcp_found-IsTracked, ack_scream_found-IsTracked,
  loss_found-IsTracked, on_rtt-IsTracked, SameFlight-IsTracked,
}

-- What happens to the congestion control, each event under what its caller grants: a packet is
-- sent under a number that is not in flight, and is not lost once KCP has acknowledged it.
pub data Event {F : Type 0} ⦃f : Float F⦄ : Scream F → Scream F → Type 0 where
  sent :
      {s : Scream F} (seq_number size now : ℕ)
      → find_packet seq_number s.packets ≡ none
      → IsU32 (s.bytes_in_flight + u32 size)
      → Event s (on_packet_sent seq_number size now s)
  received : {s : Scream F} (seq_number ms : ℕ) → Event s (on_packet_received seq_number ms s)
  acked : {s : Scream F} (seq_number : ℕ) → Event s (on_ack_kcp seq_number s)
  fed_back :
      {s : Scream F} (bytes : List ℕ) (ack_time now : ℕ)
      → Event s (on_feedback bytes ack_time now s)
  lost :
      {s : Scream F} (seq_number now : ℕ)
      → ((info : PacketInfo)
          → find_packet seq_number s.packets ≡ some info
          → info.acked_by_kcp ≡ false)
      → Event s (on_packet_loss seq_number now s)
  round_trip : {s : Scream F} (now : ℕ) → Event s (on_rtt now s)
  logged : {s : Scream F} → Event s (log_data s)
  reported : {s : Scream F} (now : ℕ) → Event s (create_feedback_packet now s).1

pub data Events {F : Type 0} ⦃f : Float F⦄ : Scream F → Scream F → Type 0 where
  no_event : {s : Scream F} → Events s s
  then_event : {s s' s'' : Scream F} → Event s s' → Events s' s'' → Events s s''

module _ {F : Type 0} ⦃f : Float F⦄ where
  create_feedback_packet-IsTracked :
      (now : ℕ) (s : Scream F) → IsTracked s → IsTracked (create_feedback_packet now s).1
  unfolding create_feedback_packet
  create_feedback_packet-IsTracked now s v =
      if_rule (λ (r : Option (List ℕ) × Scream F). IsTracked r.1) (length s.received == 0) v
        (SameFlight-IsTracked s (record s { received = []; last_feedback_time = now })
          (refl, refl, refl) v)

  on_feedback-IsTracked :
      (bytes : List ℕ) (ack_time now : ℕ) (s : Scream F)
      → IsTracked s
      → IsTracked (on_feedback bytes ack_time now s)
  unfolding on_feedback on_ack_scream
  on_feedback-IsTracked (b0 ∷ b1 ∷ b2 ∷ b3 ∷ b4 ∷ b5 ∷ b6 ∷ b7 ∷ b8 ∷ b9 ∷ b10 ∷ b11 ∷ rest)
        ack_time now s v =
      let sn = le32 b0 b1 b2 b3 in
      on_feedback-IsTracked rest ack_time now (on_ack_scream sn ack_time now s)
        (ack_scream_found-IsTracked sn ack_time now (find_packet sn s.packets) s refl v)
  on_feedback-IsTracked _ ack_time now s v = v

  Event-IsTracked : {s s' : Scream F} → Event s s' → IsTracked s → IsTracked s'
  unfolding log_data on_packet_received on_ack_kcp on_packet_loss create_feedback_packet
  Event-IsTracked {s = s} (sent seq_number size now e h) v =
      on_packet_sent-IsTracked seq_number size now s e h v
  Event-IsTracked {s = s} (received seq_number ms) v =
      SameFlight-IsTracked s (on_packet_received seq_number ms s) (refl, refl, refl) v
  Event-IsTracked {s = s} (acked seq_number) v =
      ack_kcp_found-IsTracked seq_number (find_packet seq_number s.packets) s refl v
  Event-IsTracked {s = s} (fed_back bytes ack_time now) v =
      on_feedback-IsTracked bytes ack_time now s v
  Event-IsTracked {s = s} (lost seq_number now h) v =
      loss_found-IsTracked seq_number now (find_packet seq_number s.packets) s refl h v
  Event-IsTracked {s = s} (round_trip now) v = on_rtt-IsTracked now s v
  Event-IsTracked {s = s} logged v = SameFlight-IsTracked s (log_data s) (refl, refl, refl) v
  Event-IsTracked {s = s} (reported now) v = create_feedback_packet-IsTracked now s v

  Events-IsTracked : {s s' : Scream F} → Events s s' → IsTracked s → IsTracked s'
  Events-IsTracked no_event v = v
  Events-IsTracked (then_event e es) v = Events-IsTracked es (Event-IsTracked e v)

  -- After any sequence of events on a new congestion control, whatever the feedback packets,
  -- `bytes_in_flight` is the number of bytes of the packets in flight that KCP has not
  -- acknowledged, each packet is tracked once, and `max_bytes_in_flight` is no smaller. The events
  -- are those of the code, where the caller sends no number that is still in flight, sends less
  -- than 2 ^ 32 bytes ahead, and reports no packet as lost that KCP has acknowledged.
  pub reached-IsTracked : (start : ℕ) (s : Scream F) → Events (new_scream start) s → IsTracked s
  unfolding new_scream
  reached-IsTracked start s es =
      Events-IsTracked es (record { once = tt; bytes_eq = refl; bytes_le = omega arith })
