-- ===== src/Kcp/Flush/Timers.antt =====
-- The retransmission timers in the loop of `flush` over `snd_buf` in kcp/src/kcp.rs.
use kcp_scream_testspace.Common.{
  ℕ, ◌+◌, ◌^◌, ◌<◌, ◌≡◌, ◌⊎◌, true, false, List, [], ◌∷◌, u32, is_negative, ◌==◌,
}
use kcp_scream_testspace.Kcp.Segment.{KcpSegment}
use kcp_scream_testspace.Kcp.State.{Kcp, timediff, Write}
use kcp_scream_testspace.Kcp.Flush.Resend.{Step}

-- A segment that has been sent has a timeout, and it is not yet excessive.
abbrev pub HasTimeout : KcpSegment → Type 0
HasTimeout seg = (seg.xmit ≡ 0) ⊎ ((0 < seg.rto) × (seg.rto < 2 ^ 30))

abbrev pub AllHaveTimeout : List KcpSegment → Type 0
AllHaveTimeout [] = Unit {0}
AllHaveTimeout (seg ∷ segs) = HasTimeout seg × AllHaveTimeout segs

-- What became of a segment at the time `now`: its timer runs out later; and it is as it was and had
-- been sent before, or it has been sent now.
abbrev pub IsAttended : ℕ → KcpSegment → KcpSegment → Type 0
IsAttended now x y =
    (y.sn ≡ x.sn)
    × (y.payload ≡ x.payload)
    × (is_negative (timediff now y.resendts) ≡ true)
    × (((y ≡ x) × ((x.xmit == 0) ≡ false)) ⊎ ((y.ts ≡ now) × (y.xmit ≡ u32 (x.xmit + 1))))

abbrev pub AllAttended : ℕ → List KcpSegment → List KcpSegment → Type 0
AllAttended now [] [] = Unit {0}
AllAttended now [] (y ∷ ys) = ⊥
AllAttended now (x ∷ xs) [] = ⊥
AllAttended now (x ∷ xs) (y ∷ ys) = IsAttended now x y × AllAttended now xs ys

module _ {O : Type 0} ⦃w : Write O⦄ (now rto : ℕ) where
  abbrev IsAt : Kcp O → Type 0
  IsAt k = (k.current ≡ now) × (k.rx_rto ≡ rto)

  -- What a step does to its segment, where the clock stands still.
  abbrev Attends : KcpSegment → Step O → Type 0
  Attends seg s = IsAttended now seg s.1 × IsAt s.2.kcp
