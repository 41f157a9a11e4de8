-- ===== src/Scream/RefWnd.antt =====
-- `decrease_window` and `increase_window` of tokio_kcp/src/scream.rs.
use kcp_scream_testspace.Common.{ℕ, ◌-◌, Bool, true, false, ◌||◌, ◌==◌, if◌then◌else◌}
use kcp_scream_testspace.Scream.Floats.{Float}
use kcp_scream_testspace.Scream.State.{Scream, whole, mss, min_ref_wnd}

module _ {F : Type 0} ⦃f : Float F⦄ where
  -- The delay part of `decrease_window`: whether it asks for a reduction, and the factor.
  unfoldable pub delay_backoff : ℕ → Scream F → Bool × F
  delay_backoff now s =
      let half = f.div s.qdelay_target (whole 2) in
      let backoff = f.div (f.sub s.qdelay_avg half) half in
      let factor = f.sub (whole 1) (f.mul (f.clamp backoff (whole 0) (whole 1)) (f.lit 5 10)) in
      if f.gt s.qdelay_avg half
      then (if f.gt (f.secs (now - s.last_congestion_detected_time)) s.s_rtt
          then (true, f.fmin (whole 1) factor)
          else (false, whole 1))
      else (false, whole 1)

  unfoldable pub decrease_window : ℕ → Bool → Bool → Scream F → Scream F
  decrease_window now is_loss is_ce s =
      let (delayed, factor) = delay_backoff now s in
      let factor' =
        if is_loss
        then f.fmin factor (f.lit 7 10)
        else if is_ce
        then f.fmin factor (f.lit 8 10)
        else factor in
      let old = f.gt (f.secs (now - s.last_ref_wnd_i_update_time)) (f.mul (whole 10) s.s_rtt) in
      if delayed || (is_loss || is_ce)
      then record s {
        ref_wnd_i = if old then s.ref_wnd else s.ref_wnd_i;
        last_ref_wnd_i_update_time = if old then now else s.last_ref_wnd_i_update_time;
        ref_wnd = f.fmax (f.mul s.ref_wnd factor') min_ref_wnd;
        last_congestion_detected_time = now;
      }
      else s

  -- The increment of `increase_window`.
  unfoldable pub increment : ℕ → Scream F → F
  increment now s =
      let scale =
        f.clamp
          (f.div (f.secs (now - s.last_congestion_detected_time))
            (f.mul (whole 4) (f.fmax s.s_rtt (f.lit 1 100))))
          (whole 0) (whole 1) in
      let acked = f.of_u32 s.bytes_newly_acked in
      let additive = f.mul acked (f.div mss (f.fmax s.ref_wnd mss)) in
      let multiplicative =
        f.mul (f.mul s.ref_wnd (f.lit 2 100)) (f.div acked (f.fmax s.ref_wnd (whole 1))) in
      let sum = f.add additive (f.mul multiplicative scale) in
      let near = f.clamp (f.div (f.sub s.ref_wnd s.ref_wnd_i) s.ref_wnd_i) (whole 0) (whole 4) in
      if f.gt s.ref_wnd s.ref_wnd_i
      then f.mul sum (f.fmax (f.sub (whole 1) (f.powi (f.div near (whole 4)) 2)) (f.lit 25 100))
      else sum

  unfoldable pub increase_window : ℕ → Scream F → Scream F
  increase_window now s =
      let wnd = f.add s.ref_wnd (increment now s) in
      let allowed = f.fmax (f.mul (f.of_u32 s.max_bytes_in_flight_prev) (f.lit 15 10)) s.ref_wnd in
      if s.bytes_newly_acked == 0
      then s
      else record s { ref_wnd = if f.le wnd allowed then wnd else allowed }
