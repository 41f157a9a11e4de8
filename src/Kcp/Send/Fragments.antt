-- ===== src/Kcp/Send/Fragments.antt =====
-- `send` of kcp/src/kcp.rs in message mode: the segments that it queues.
use kcp_scream_testspace.Common.{
  ℕ, zero, suc, ◌+◌, ◌-◌, ◌*◌, ◌^◌, ◌≤◌, ◌<◌, ◌≡◌, refl, sym, ap, ◌∙◌, Bool, false, List, [], ◌∷◌,
  ◌++◌, min, max, length, take, drop, length-take, length-drop, take-append-drop, append_assoc,
  append-nil, All, leb, ◌==◌, arith, ap,
}
use native.Mathlib.Nat.{div-add-mod, mod-lt}
use kcp_scream_testspace.Kcp.Segment.{KcpSegment, payloads}
use kcp_scream_testspace.Kcp.State.{Kcp, ok, kcp_wnd_rcv}
use kcp_scream_testspace.Kcp.Send.{split, fragment_count, send}

-- The fragment numbers count down to 0.
abbrev pub IsCountdown : List KcpSegment → Type 0
IsCountdown [] = Unit {0}
IsCountdown (seg ∷ segs) = (seg.frg ≡ length segs) × IsCountdown segs

length-split : (stream : Bool) (mss n : ℕ) (buf : List ℕ) → length (split stream mss n buf).segs ≡ n
unfolding split
length-split stream mss zero buf = refl
length-split stream mss (suc n) buf = ap suc (length-split stream mss n _)

pub split-payloads :
    (stream : Bool) (mss n : ℕ) (buf : List ℕ)
    → payloads (split stream mss n buf).segs ++ (split stream mss n buf).rest ≡ buf
unfolding split payloads
split-payloads stream mss zero buf = refl
split-payloads stream mss (suc n) buf =
    let size = min mss (length buf) in
    append_assoc (take size buf) _ _
    ∙ ap (◌++◌ (take size buf)) (split-payloads stream mss n (drop size buf))
    ∙ take-append-drop size buf

-- `n` rounds take all that they can.
pub length-rest-split :
    (stream : Bool) (mss n : ℕ) (buf : List ℕ)
    → length (split stream mss n buf).rest ≡ length buf - n * mss
unfolding split
length-rest-split stream mss zero buf = omega arith
length-rest-split stream mss (suc n) buf =
    let size = min mss (length buf) in
    omega (arith, length-rest-split stream mss n (drop size buf), length-drop size buf)

pub sent_size-split :
    (stream : Bool) (mss n : ℕ) (buf : List ℕ)
    → (split stream mss n buf).sent_size + length (split stream mss n buf).rest ≡ length buf
unfolding split
sent_size-split stream mss zero buf = omega arith
sent_size-split stream mss (suc n) buf =
    let size = min mss (length buf) in
    omega (arith, sent_size-split stream mss n (drop size buf), length-drop size buf)

pub split-le :
    (stream : Bool) (mss n : ℕ) (buf : List ℕ)
    → All (λ seg. length seg.payload ≤ mss) (split stream mss n buf).segs
unfolding split
split-le stream mss zero buf = tt
split-le stream mss (suc n) buf =
    let size = min mss (length buf) in
    (omega (arith, length-take size buf), split-le stream mss n (drop size buf))

split-IsCountdown :
    (mss n : ℕ) (buf : List ℕ) → n ≤ 2 ^ 8 → IsCountdown (split false mss n buf).segs
unfolding split
split-IsCountdown mss zero buf h = tt
split-IsCountdown mss (suc n) buf h =
    let size = min mss (length buf) in
    (
      omega (arith, length-split false mss n (drop size buf)),
      split-IsCountdown mss n (drop size buf) (omega arith),
    )

-- The count is enough for all the bytes.
pub fragment_count-enough :
    (mss : ℕ) (buf : List ℕ) → 0 < mss → length buf ≤ max 1 (fragment_count mss buf) * mss
unfolding fragment_count
fragment_count-enough mss buf h =
    grind (arith, div-add-mod (length buf + mss - 1) mss, mod-lt (length buf + mss - 1) h)

-- The queue after `send` is the one before and one message of at least one and at most 127
-- segments, which hold the bytes of `buf` in order, at most `mss` in each, and whose fragment
-- numbers count down to 0.
pub record IsQueued (mss : ℕ) (buf : List ℕ) (before after : List KcpSegment) : Type 0 where
  pub segs : List KcpSegment
  pub queue_eq : after ≡ before ++ segs
  pub bytes_eq : payloads segs ≡ buf
  pub small : All (λ seg. length seg.payload ≤ mss) segs
  pub counted : IsCountdown segs
  pub some_segment : 1 ≤ length segs
  pub few : length segs < kcp_wnd_rcv

pub append-empty : (xs ys : List ℕ) → length ys ≡ 0 → xs ++ ys ≡ xs
append-empty xs [] h = append-nil xs
append-empty xs (y ∷ ys) h = absurd (omega arith)

-- Outside streaming mode a `send` whose bytes fit fewer than 128 segments of `mss` bytes returns
-- their number. It puts new segments, at least one, behind the queue: their payloads together are
-- the bytes, none is longer than `mss`, and their fragment numbers count down to 0.
pub send_queues :
    {O : Type 0} (buf : List ℕ) (k : Kcp O)
    → k.stream ≡ false
    → 0 < k.mss
    → fragment_count k.mss buf < kcp_wnd_rcv
    → ((send buf k).0 ≡ ok (length buf)) × IsQueued k.mss buf k.snd_queue (send buf k).1.snd_queue
unfolding send
send_queues buf k hs hm hc =
    let n = max 1 (fragment_count k.mss buf) in
    let d = split false k.mss n buf in
    let none_left : length d.rest ≡ 0 =
      omega (arith, length-rest-split false k.mss n buf, fragment_count-enough k.mss buf hm) in
    let sendable : (k.mss == 0) ≡ false = ground arith in
    let few : leb kcp_wnd_rcv (fragment_count k.mss buf) ≡ false = ground arith in
    rw (sendable, hs, few)
      (
        ap ok (omega (arith, sent_size-split false k.mss n buf)),
        record {
          segs = d.segs;
          queue_eq = refl;
          bytes_eq =
              sym (append-empty (payloads d.segs) d.rest none_left)
              ∙ split-payloads false k.mss n buf;
          small = split-le false k.mss n buf;
          counted = split-IsCountdown k.mss n buf (omega arith);
          some_segment = omega (arith, length-split false k.mss n buf);
          few = omega (arith, length-split false k.mss n buf);
        },
      )
