-- ===== src/Kcp/Ack.antt =====
-- Acknowledgements in kcp/src/kcp.rs: `update_ack`, `shrink_buf`, `parse_ack`, `parse_una`,
-- `parse_fastack` and `ack_push`.
pub mod Rto
pub mod Removal
use kcp_scream_testspace.Common.{
  ℕ, ◌+◌, ◌-◌, ◌*◌, ◌/◌, Bool, not, ◌&&◌, ◌||◌, List, [], ◌∷◌, ◌++◌, max, u32, leb, ltb, ◌==◌,
  if◌then◌else◌, is_negative, is_positive,
}
use kcp_scream_testspace.Kcp.Segment.{KcpSegment}
use kcp_scream_testspace.Kcp.State.{Kcp, kcp_rto_max, timediff, bound}

-- The smoothed round trip time and its variation.
pub record Rtt : Type 0 where
  pub srtt : ℕ
  pub rttval : ℕ

-- The first half of `update_ack`.
unfoldable pub smooth : ℕ → Rtt → Rtt
smooth rtt r =
    let delta = if ltb r.srtt rtt then rtt - r.srtt else r.srtt - rtt in
    let srtt = u32 (u32 (7 * r.srtt) + rtt) / 8 in
    if r.srtt == 0 then record { srtt = rtt; rttval = rtt / 2 } else record {
      srtt = if ltb srtt 1 then 1 else srtt;
      rttval = u32 (u32 (3 * r.rttval) + delta) / 4;
    }

-- The first segment of a buffer gives the number, the empty buffer the default.
unfoldable pub first_sn : List KcpSegment → ℕ → ℕ
first_sn [] nxt = nxt
first_sn (seg ∷ segs) nxt = seg.sn

-- The loop of `parse_ack`. The numbers are compared as they are, without `timediff`.
unfoldable pub remove_sn : ℕ → List KcpSegment → List KcpSegment
remove_sn sn [] = []
remove_sn sn (seg ∷ segs) =
    let rest = remove_sn sn segs in
    if sn == seg.sn then segs else if ltb sn seg.sn then seg ∷ segs else seg ∷ rest

-- The loop of `parse_una`.
unfoldable pub drop_una : ℕ → List KcpSegment → List KcpSegment
drop_una una [] = []
drop_una una (seg ∷ segs) =
    let rest = drop_una una segs in if is_positive (timediff una seg.sn) then rest else seg ∷ segs

-- The loop of `parse_fastack`, built without the feature `fastack-conserve`.
unfoldable pub count_fastack : ℕ → ℕ → List KcpSegment → List KcpSegment
count_fastack sn ts [] = []
count_fastack sn ts (seg ∷ segs) =
    let rest = count_fastack sn ts segs in
    let passed = record seg {
      fastack =
          if not (sn == seg.sn) && not (is_negative (timediff ts seg.ts))
          then u32 (seg.fastack + 1)
          else seg.fastack;
    } in
    if is_negative (timediff sn seg.sn) then seg ∷ segs else passed ∷ rest

module _ {O : Type 0} where
  unfoldable pub update_ack : ℕ → Kcp O → Kcp O
  update_ack rtt k =
      let r = smooth rtt (record { srtt = k.rx_srtt; rttval = k.rx_rttval }) in
      let rto = u32 (r.srtt + max k.interval (u32 (4 * r.rttval))) in
      record k {
        rx_srtt = r.srtt;
        rx_rttval = r.rttval;
        rx_rto = bound k.rx_minrto rto kcp_rto_max;
      }

  unfoldable pub shrink_buf : Kcp O → Kcp O
  unfolding first_sn
  shrink_buf k = record k { snd_una = first_sn k.snd_buf k.snd_nxt }

  -- The sequence number lies outside what was sent and is not acknowledged yet.
  abbrev pub is_outside : ℕ → Kcp O → Bool
  is_outside sn k = is_negative (timediff sn k.snd_una) || not (is_negative (timediff sn k.snd_nxt))

  unfoldable pub parse_ack : ℕ → Kcp O → Kcp O
  parse_ack sn k = if is_outside sn k then k else record k { snd_buf = remove_sn sn k.snd_buf }

  unfoldable pub parse_una : ℕ → Kcp O → Kcp O
  parse_una una k = record k { snd_buf = drop_una una k.snd_buf }

  unfoldable pub parse_fastack : ℕ → ℕ → Kcp O → Kcp O
  parse_fastack sn ts k =
      if is_outside sn k then k else record k { snd_buf = count_fastack sn ts k.snd_buf }

  unfoldable pub ack_push : ℕ → ℕ → Kcp O → Kcp O
  ack_push sn ts k = record k { acklist = k.acklist ++ ((sn, ts) ∷ []) }
