-- ===== src/Kcp/Send.antt =====
-- `send` of kcp/src/kcp.rs: it cuts what the user writes into segments of `snd_queue`.
pub mod Fragments
pub mod Stream
use kcp_scream_testspace.Common.{
  ℕ, zero, suc, ◌+◌, ◌-◌, ◌/◌, Bool, List, [], ◌∷◌, ◌++◌, min, max, length, take, drop, u8, leb,
  ltb, ◌==◌, if◌then◌else◌,
}
use kcp_scream_testspace.Kcp.Segment.{KcpSegment, new_with_data}
use kcp_scream_testspace.Kcp.State.{Kcp, Result, ok, err, panic, user_buf_too_big, kcp_wnd_rcv}

-- What a part of `send` leaves: the segments, the rest of the caller's bytes, the bytes taken.
pub record Cut : Type 0 where
  pub segs : List KcpSegment
  pub rest : List ℕ
  pub sent_size : ℕ

-- Streaming mode: the last segment of the queue is filled up to `mss`.
unfoldable pub extend_last : ℕ → List ℕ → List KcpSegment → Cut
extend_last mss buf [] = record { segs = []; rest = buf; sent_size = 0 }
extend_last mss buf (old ∷ []) =
    let extend = min (length buf) (mss - length old.payload) in
    if ltb (length old.payload) mss
    then record {
      segs = record old { payload = old.payload ++ take extend buf; frg = 0 } ∷ [];
      rest = drop extend buf;
      sent_size = extend;
    }
    else record { segs = old ∷ []; rest = buf; sent_size = 0 }
extend_last mss buf (seg ∷ next ∷ segs) =
    let c = extend_last mss buf (next ∷ segs) in record c { segs = seg ∷ c.segs }

-- The loop over `0..count`; the number is of the rounds left, `count - i`.
unfoldable pub split : Bool → ℕ → ℕ → List ℕ → Cut
split stream mss zero buf = record { segs = []; rest = buf; sent_size = 0 }
split stream mss (suc left) buf =
    let size = min mss (length buf) in
    let c = split stream mss left (drop size buf) in
    record {
      segs =
          record (new_with_data (take size buf)) { frg = if stream then 0 else u8 left } ∷ c.segs;
      rest = c.rest;
      sent_size = size + c.sent_size;
    }

-- `count` before it is raised to 1.
unfoldable pub fragment_count : ℕ → List ℕ → ℕ
fragment_count mss buf = if leb (length buf) mss then 1 else (length buf + mss - 1) / mss

module _ {O : Type 0} where
  -- `send` behind the streaming prologue, of which `c` is the result.
  unfoldable pub send_rest : Cut → Kcp O → Result ℕ × Kcp O
  send_rest c k =
      let count = fragment_count k.mss c.rest in
      let d = split k.stream k.mss (max 1 count) c.rest in
      if leb kcp_wnd_rcv count
      then (err user_buf_too_big, record k { snd_queue = c.segs })
      else (ok (c.sent_size + d.sent_size), record k { snd_queue = c.segs ++ d.segs })

  unfoldable pub send : List ℕ → Kcp O → Result ℕ × Kcp O
  unfolding send_rest
  send buf k =
      let c = extend_last k.mss buf k.snd_queue in
      if k.mss == 0
      then (panic, k)
      else if k.stream
      then (if length c.rest == 0
          then (ok c.sent_size, record k { snd_queue = c.segs })
          else send_rest c k)
      else send_rest (record { segs = k.snd_queue; rest = buf; sent_size = 0 }) k
