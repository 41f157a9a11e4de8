-- ===== src/Kcp/Clock.antt =====
-- `update` and `check` of kcp/src/kcp.rs: when the state is flushed.
pub mod Wait
use kcp_scream_testspace.Common.{
  ℕ, ◌+◌, ◌-◌, ◌^◌, Bool, true, false, not, Option, none, some, List, [], ◌∷◌, u32, leb, ltb, min,
  if◌then◌else◌, is_negative, is_positive,
}
use kcp_scream_testspace.Kcp.Segment.{KcpSegment}
use kcp_scream_testspace.Kcp.State.{Kcp, Result, ok, err, panic, timediff, Write}
use kcp_scream_testspace.Kcp.Flush.{Flushed, flush}

-- `slap >= 10000 || slap < -10000`.
unfoldable pub is_far : ℕ → Bool
is_far slap = if is_negative slap then ltb slap (2 ^ 32 - 10000) else leb 10000 slap

-- The loop of `check` over `snd_buf`; nothing when a segment is due.
unfoldable pub next_packet : ℕ → List KcpSegment → ℕ → Option ℕ
next_packet current [] tm = some tm
next_packet current (seg ∷ segs) tm =
    let diff = timediff seg.resendts current in
    let rest = next_packet current segs (if ltb diff tm then diff else tm) in
    if not (is_positive diff) then none else rest

-- `check` behind the loop.
unfoldable pub wait : ℕ → ℕ → Option ℕ → ℕ
wait interval tm_flush none = 0
wait interval tm_flush (some tm) =
    let minimal = min tm tm_flush in if leb interval minimal then interval else minimal

module _ {O : Type 0} where
  -- `update` before the flush: whether it is time, and the state with its clocks set.
  unfoldable pub tick : ℕ → Kcp O → Bool × Kcp O
  tick current k =
      let start = if k.updated then k.ts_flush else current in
      let far = is_far (timediff current start) in
      let ts = if far then current else start in
      let next = u32 (ts + k.interval) in
      let k' = record k { current = current; updated = true; ts_flush = ts } in
      if is_negative (timediff current ts) then (false, k') else (
        true,
        record k' {
          ts_flush =
              if is_negative (timediff current next) then next else u32 (current + k.interval);
        },
      )

  unfoldable pub check : ℕ → Kcp O → ℕ
  check current k =
      let ts_flush = if is_far (timediff current k.ts_flush) then current else k.ts_flush in
      let tm = next_packet current k.snd_buf (2 ^ 32 - 1) in
      if not k.updated
      then 0
      else if not (is_negative (timediff current ts_flush))
      then 0
      else wait k.interval (timediff ts_flush current) tm

module _ {O : Type 0} ⦃w : Write O⦄ where
  abbrev pub flush_due : Bool × Kcp O → Result Flushed × Kcp O
  flush_due (true, k) = flush k
  flush_due (false, k) = (ok (record { resent = false; sns_of_lost = []; new_packets = [] }), k)

  unfoldable pub update : ℕ → Kcp O → Result Flushed × Kcp O
  update current k = flush_due (tick current k)
