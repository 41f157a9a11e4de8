-- ===== src/Scream/Window.antt =====
-- `on_packet_loss` of tokio_kcp/src/scream.rs: the window and the count after a loss.
use kcp_scream_testspace.Common.{
  ℕ, ◌-◌, ◌≡◌, refl, true, false, none, some, arith, u32, inl, inr, Bool-cases,
}
use kcp_scream_testspace.Scream.Floats.{Float}
use kcp_scream_testspace.Scream.InFlight.{
  PacketInfo, find_packet, remove_packet, outstanding, find-remove, outstanding-remove,
}
use kcp_scream_testspace.Scream.State.{Scream, min_ref_wnd}
use kcp_scream_testspace.Scream.RefWnd.{delay_backoff, decrease_window}
use kcp_scream_testspace.Scream.{on_packet_loss}
use kcp_scream_testspace.Scream.Tracking.{IsTracked, decrease_window-SameFlight}

module _ {F : Type 0} ⦃f : Float F⦄ where
  -- What a loss leaves: the window at its least or above, and the time of the loss.
  abbrev pub Reduced : ℕ → Scream F → Type 0
  Reduced now s =
      (f.le min_ref_wnd s.ref_wnd ≡ true)
      × (s.last_congestion_detected_time ≡ now)
      × (s.loss_for_log ≡ true)

  decrease_window-Reduced :
      (now : ℕ) (s : Scream F)
      → ((a : F) → f.le min_ref_wnd (f.fmax a min_ref_wnd) ≡ true)
      → s.loss_for_log ≡ true
      → Reduced now (decrease_window now true false s)
  unfolding decrease_window
  decrease_window-Reduced now s floor h = elim (Bool-cases (delay_backoff now s).0) [
    | inl delayed ↦ rw delayed (floor _, refl, h)
    | inr in_time ↦ rw in_time (floor _, refl, h)
  ]

  -- The report of a lost packet that is tracked leaves the window at 2000 bytes or more, whatever it
  -- was before, and the packet untracked; the loss is noted as the last congestion and for the log.
  -- Of `f32::max` it is used that the result is at least the second argument, 2000.
  pub on_packet_loss-Reduced :
      (seq_number now : ℕ) (info : PacketInfo) (s : Scream F)
      → ((a : F) → f.le min_ref_wnd (f.fmax a min_ref_wnd) ≡ true)
      → find_packet seq_number s.packets ≡ some info
      → Reduced now (on_packet_loss seq_number now s)
        × (find_packet seq_number (on_packet_loss seq_number now s).packets ≡ none)
  unfolding on_packet_loss
  on_packet_loss-Reduced seq_number now info s floor e =
      let s1 = record s {
        packets = remove_packet seq_number s.packets;
        bytes_in_flight = s.bytes_in_flight - u32 info.size;
        loss_occured_in_rtt = true;
        loss_for_log = true;
      } in
      let kept = decrease_window-SameFlight now true false s1 in
      let gone = find-remove seq_number s.packets in
      rw e (decrease_window-Reduced now s1 floor refl, rw kept.0 gone)

  -- A packet that KCP has acknowledged no longer counts as in flight, but its report as lost takes
  -- its bytes off the count once more: the count is then that of the packets still in flight less
  -- the packet's size.
  pub on_packet_loss_acked :
      (seq_number now : ℕ) (info : PacketInfo) (s : Scream F)
      → IsTracked s
      → find_packet seq_number s.packets ≡ some info
      → info.acked_by_kcp ≡ true
      → (on_packet_loss seq_number now s).bytes_in_flight
        ≡ outstanding (on_packet_loss seq_number now s).packets - u32 info.size
  unfolding on_packet_loss
  on_packet_loss_acked seq_number now info s v e acked =
      let s1 = record s {
        packets = remove_packet seq_number s.packets;
        bytes_in_flight = s.bytes_in_flight - u32 info.size;
        loss_occured_in_rtt = true;
        loss_for_log = true;
      } in
      let kept = decrease_window-SameFlight now true false s1 in
      let d = outstanding-remove seq_number s.packets info v.once e in
      rw (e, kept.0, kept.1) (ground (arith, d, v.bytes_eq, acked))
