-- ===== src/Pacer/Full.antt =====
-- A flush of kcp/src/kcp.rs into the pacer of tokio_kcp/src/pacer.rs when its channel is full.
use kcp_scream_testspace.Common.{◌≤◌, ◌≡◌, true, length}
use kcp_scream_testspace.Kcp.Segment.{KcpSegment}
use kcp_scream_testspace.Kcp.State.{Kcp}
use kcp_scream_testspace.Pacer.{Pacer, channel_size, pacer_write}

-- A predicate that asks nothing.
abbrev Any : KcpSegment → Type 0
Any seg = Unit {0}

module _ {F : Type 0} (p : Pacer F) (up : p.running ≡ true)
    (full : channel_size ≤ length p.queue) where
  -- The engine writes into this pacer.
  abbrev IsInto : Kcp (Pacer F) → Type 0
  IsInto k = k.output ≡ p
