-- ===== src/Kcp/Ack/Rto.antt =====
-- The retransmission timeout and the smoothed round trip time of `update_ack` in kcp/src/kcp.rs.
use kcp_scream_testspace.Common.{ℕ, ◌≤◌, ◌<◌, ◌^◌, ◌-◌, arith, min, max}
use kcp_scream_testspace.Kcp.State.{Kcp}
use kcp_scream_testspace.Kcp.Ack.{Rtt, smooth}

-- Where nothing wraps, for round trip times below 2 ^ 28 milliseconds, the smoothed time lies
-- between the old one and the sample, and it is never 0 again; the variation lies between the old
-- one and the distance of the sample.
pub smooth_bounds :
    (rtt : ℕ) (r : Rtt)
    → rtt < 2 ^ 28
    → 0 < r.srtt
    → r.srtt < 2 ^ 28
    → r.rttval < 2 ^ 28
    → let s = smooth rtt r in
      let far = max (rtt - r.srtt) (r.srtt - rtt) in
      (1 ≤ s.srtt)
      × (s.srtt ≤ max r.srtt rtt)
      × (min r.srtt rtt ≤ s.srtt)
      × (s.rttval ≤ max r.rttval far)
      × (min r.rttval far ≤ s.rttval)
unfolding smooth
smooth_bounds rtt r h1 h2 h3 h4 = ground arith
