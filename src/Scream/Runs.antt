-- ===== src/Scream/Runs.antt =====
-- Concrete runs of the congestion control, and its theorems at concrete inputs. Numbers are rounded
-- down to whole ones.
use kcp_scream_testspace.Common.{
  ℕ, zero, suc, ◌+◌, ◌-◌, ◌*◌, ◌/◌, ◌≡◌, refl, true, false, none, [], ◌∷◌, arith, max, min, leb,
  ltb,
}
use kcp_scream_testspace.Scream.Floats.{Float}
use kcp_scream_testspace.Scream.InFlight.{find_packet, outstanding}
use kcp_scream_testspace.Scream.Feedback.{
  feedback_data, create_feedback_packet, on_feedback, ack_all, on_feedback-create,
}
use kcp_scream_testspace.Scream.Tracking.{IsTracked}
use kcp_scream_testspace.Scream.Events.{
  no_event, then_event, sent, received, acked, fed_back, round_trip, reached-IsTracked,
}
use kcp_scream_testspace.Scream.Window.{Reduced, on_packet_loss-Reduced, on_packet_loss_acked}
use kcp_scream_testspace.Scream.State.{Scream, new_scream}
use kcp_scream_testspace.Scream.{
  on_packet_sent, on_packet_received, on_ack_kcp, on_packet_loss, on_rtt,
}

abbrev power : ℕ → ℕ → ℕ
power a zero = 1
power a (suc n) = a * power a n

instance abbrev whole_numbers : Float ℕ
whole_numbers = record {
  lit = λ n d. n / d;
  of_u32 = λ n. n;
  secs = λ n. n / 1000000000;
  add = λ a b. a + b;
  sub = λ a b. a - b;
  mul = λ a b. a * b;
  div = λ a b. a / b;
  fmax = λ a b. max a b;
  fmin = λ a b. min a b;
  abs = λ a. a;
  powi = power;
  clamp = λ a lo hi. min (max a lo) hi;
  gt = λ a b. ltb b a;
  le = λ a b. leb a b;
  nanos = λ a. a * 1000000000;
  to_int = λ a. a;
}

abbrev started : Scream ℕ
unfolding new_scream
started = new_scream 5

-- Two packets are sent, and KCP acknowledges the first.
abbrev flying : Scream ℕ
unfolding new_scream
flying = record (new_scream 5) {
  packets =
      (1, record { timestamp = 6; size = 100; acked_by_kcp = true })
      ∷ (2, record { timestamp = 7; size = 40; acked_by_kcp = false })
      ∷ [];
  bytes_in_flight = 40;
  max_bytes_in_flight = 140;
}

flying-IsTracked : IsTracked flying
unfolding new_scream find_packet
flying-IsTracked = record { once = (refl, (refl, tt)); bytes_eq = refl; bytes_le = omega arith }

reached-IsTracked_example :
    let s1 = on_packet_sent 1 100 6 started in
    let s2 = on_ack_kcp 1 s1 in
    let s3 = on_packet_received 9 50 s2 in IsTracked (on_rtt 70 (on_feedback (1 ∷ 0 ∷ []) 60 60 s3))
unfolding new_scream find_packet
reached-IsTracked_example = reached-IsTracked 5 _ (
    then_event (sent 1 100 6 refl (omega arith)) (
      then_event (acked 1) (
        then_event (received 9 50)
          (then_event (fed_back (1 ∷ 0 ∷ []) 60 60) (then_event (round_trip 70) no_event)))))

abbrev heard : Scream ℕ
unfolding new_scream
heard = record (new_scream 5) {
  received =
      record { seq_number = 1; reception_time_ms = 50 }
      ∷ record { seq_number = 2; reception_time_ms = 51 }
      ∷ [];
}

on_feedback-create_example :
    (on_feedback (feedback_data heard.received) 90 91 flying ≡ ack_all heard.received 90 91 flying)
    × ((create_feedback_packet 95 (create_feedback_packet 90 heard).1).0 ≡ none)
unfolding new_scream create_feedback_packet
on_feedback-create_example =
    on_feedback-create 95 90 (feedback_data heard.received) heard flying 90 91 (omega arith) refl

on_packet_loss-Reduced_example :
    Reduced 80 (on_packet_loss 2 80 flying)
    × (find_packet 2 (on_packet_loss 2 80 flying).packets ≡ none)
unfolding find_packet flying
on_packet_loss-Reduced_example =
    on_packet_loss-Reduced 2 80 (record { timestamp = 7; size = 40; acked_by_kcp = false }) flying
      (λ a. ground arith) refl

on_packet_loss_acked_example :
    (on_packet_loss 1 80 flying).bytes_in_flight
    ≡ outstanding (on_packet_loss 1 80 flying).packets - 100
unfolding find_packet flying
on_packet_loss_acked_example =
    on_packet_loss_acked 1 80 (record { timestamp = 6; size = 100; acked_by_kcp = true }) flying
      flying-IsTracked refl refl
