-- ===== src/Kcp/Send/Stream.antt =====
-- `send` of kcp/src/kcp.rs in streaming mode: the queued byte stream.
use kcp_scream_testspace.Common.{
  ℕ, ◌+◌, ◌-◌, ◌≤◌, ◌<◌, ◌≡◌, refl, sym, ap, ◌∙◌, true, false, List, [], ◌∷◌, ◌++◌, min, max,
  length, take, drop, length-drop, length-take, take-append-drop, append_assoc, append-nil, leb,
  ltb, ◌==◌, arith, Bool-cases, inl, inr,
}
use kcp_scream_testspace.Kcp.Segment.{KcpSegment, payloads, payloads-append}
use kcp_scream_testspace.Kcp.State.{Kcp, ok, err, kcp_wnd_rcv, user_buf_too_big}
use kcp_scream_testspace.Kcp.Send.{Cut, extend_last, split, fragment_count, send}
use kcp_scream_testspace.Kcp.Send.Fragments.{
  split-payloads, sent_size-split, length-rest-split, fragment_count-enough, append-empty,
}

-- What the prologue takes, it takes from the front of the caller's bytes.
pub record Extends (buf : List ℕ) (queue : List KcpSegment) (c : Cut) : Type 0 where
  pub bytes_eq : payloads c.segs ++ c.rest ≡ payloads queue ++ buf
  pub size_eq : c.sent_size + length c.rest ≡ length buf

extend_last-Extends :
    (mss : ℕ) (buf : List ℕ) (queue : List KcpSegment)
    → Extends buf queue (extend_last mss buf queue)
unfolding extend_last payloads
extend_last-Extends mss buf [] = record { bytes_eq = refl; size_eq = omega arith }
extend_last-Extends mss buf (old ∷ []) = elim (Bool-cases (ltb (length old.payload) mss)) [
  | inl h ↦
      let extend = min (length buf) (mss - length old.payload) in
      rw h (record {
        bytes_eq = ground (
          arith,
          append-nil (old.payload ++ take extend buf),
          append-nil old.payload,
          append_assoc old.payload (take extend buf) (drop extend buf),
          take-append-drop extend buf,
        );
        size_eq = omega (arith, length-drop extend buf);
      })
  | inr h ↦ rw h (record { bytes_eq = refl; size_eq = omega arith })
]
extend_last-Extends mss buf (seg ∷ next ∷ segs) =
    let ih = extend_last-Extends mss buf (next ∷ segs) in
    record {
      bytes_eq =
          append_assoc seg.payload _ _
          ∙ ap (◌++◌ seg.payload) ih.bytes_eq
          ∙ sym (append_assoc seg.payload _ buf);
      size_eq = ih.size_eq;
    }

pub fragment_count-small : (mss : ℕ) (buf : List ℕ) → length buf ≤ mss → fragment_count mss buf ≡ 1
unfolding fragment_count
fragment_count-small mss buf h = ground arith

-- In streaming mode a `send` whose bytes, less what the last segment takes, need fewer than 128
-- segments returns the length of `buf`, and the queued stream grows by exactly `buf`.
pub send_streams :
    {O : Type 0} (buf : List ℕ) (k : Kcp O)
    → k.stream ≡ true
    → 0 < k.mss
    → fragment_count k.mss (extend_last k.mss buf k.snd_queue).rest < kcp_wnd_rcv
    → ((send buf k).0 ≡ ok (length buf))
      × (payloads (send buf k).1.snd_queue ≡ payloads k.snd_queue ++ buf)
unfolding send
send_streams buf k hs hm hc =
    let c = extend_last k.mss buf k.snd_queue in
    let e = extend_last-Extends k.mss buf k.snd_queue in
    let n = max 1 (fragment_count k.mss c.rest) in
    let d = split true k.mss n c.rest in
    let none_left : length d.rest ≡ 0 =
      omega (arith, length-rest-split true k.mss n c.rest, fragment_count-enough k.mss c.rest hm) in
    let sendable : (k.mss == 0) ≡ false = ground arith in
    let few : leb kcp_wnd_rcv (fragment_count k.mss c.rest) ≡ false = ground arith in
    elim (Bool-cases (length c.rest == 0)) [
      | inl all ↦
          rw (sendable, hs, all)
            (
              ap ok (ground (arith, e.size_eq)),
              sym (append-empty (payloads c.segs) c.rest (ground arith)) ∙ e.bytes_eq,
            )
      | inr more ↦
          rw (sendable, hs, more, few)
            (
              ap ok (omega (arith, sent_size-split true k.mss n c.rest, e.size_eq)),
              payloads-append c.segs d.segs
                  ∙ ap (◌++◌ (payloads c.segs)) (
                      sym (append-empty (payloads d.segs) d.rest none_left)
                      ∙ split-payloads true k.mss n c.rest)
                  ∙ e.bytes_eq,
            )
    ]

pub extend_last-taken :
    (mss : ℕ) (bytes : List ℕ) (queue : List KcpSegment)
    → let c = extend_last mss bytes queue in
      payloads c.segs ≡ payloads queue ++ take c.sent_size bytes
unfolding extend_last payloads
extend_last-taken mss bytes [] = refl
extend_last-taken mss bytes (old ∷ []) = elim (Bool-cases (ltb (length old.payload) mss)) [
  | inl room ↦
      let more = take (min (length bytes) (mss - length old.payload)) bytes in
      rw room
        (append-nil (old.payload ++ more) ∙ ap (λ b. b ++ more) (sym (append-nil old.payload)))
  | inr full ↦ rw full (sym (append-nil (old.payload ++ [])))
]
extend_last-taken mss bytes (seg ∷ next ∷ queue) =
    ap (◌++◌ seg.payload) (extend_last-taken mss bytes (next ∷ queue))
    ∙ sym (append_assoc seg.payload _ _)

-- The last segment of the queue takes what it has room for.
extend_last-last :
    (mss : ℕ) (buf : List ℕ) (xs : List KcpSegment) (old : KcpSegment)
    → length old.payload < mss
    → let c = extend_last mss buf (xs ++ (old ∷ [])) in
      let extend = min (length buf) (mss - length old.payload) in
      (c.sent_size ≡ extend) × (c.rest ≡ drop extend buf)
unfolding extend_last
extend_last-last mss buf [] old h =
    let room : ltb (length old.payload) mss ≡ true = ground arith in rw room (refl, refl)
extend_last-last mss buf (x ∷ []) old h = extend_last-last mss buf [] old h
extend_last-last mss buf (x ∷ y ∷ xs) old h = extend_last-last mss buf (y ∷ xs) old h

-- In streaming mode, where the last queued segment is not full, a `send` that is refused as too big
-- has queued the bytes that fill that segment, at least one, and the queued stream has grown by
-- exactly these first bytes of the caller's.
pub send_refused_keeps_bytes :
    {O : Type 0} (buf : List ℕ) (k : Kcp O) (xs : List KcpSegment) (old : KcpSegment)
    → k.stream ≡ true
    → k.snd_queue ≡ xs ++ (old ∷ [])
    → length old.payload < k.mss
    → kcp_wnd_rcv ≤ fragment_count k.mss (drop (k.mss - length old.payload) buf)
    → let taken = take (k.mss - length old.payload) buf in
      ((send buf k).0 ≡ err user_buf_too_big)
      × (payloads (send buf k).1.snd_queue ≡ payloads k.snd_queue ++ taken)
      × (length taken ≡ k.mss - length old.payload)
      × (0 < length taken)
unfolding send
send_refused_keeps_bytes buf k xs old hs hq hm hc =
    let room = k.mss - length old.payload in
    let c = extend_last k.mss buf k.snd_queue in
    let long : room ≤ length buf =
      ground (arith, fragment_count-small k.mss (drop room buf), length-drop room buf) in
    let full : min (length buf) room ≡ room = omega arith in
    let last : (c.sent_size ≡ min (length buf) room) × (c.rest ≡ drop (min (length buf) room) buf) =
      rw hq (extend_last-last k.mss buf xs old hm) in
    let size_eq : c.sent_size ≡ room = last.0 ∙ full in
    let rest_eq : c.rest ≡ drop room buf = last.1 ∙ ap (λ n. drop n buf) full in
    let refused : kcp_wnd_rcv ≤ fragment_count k.mss c.rest = rw rest_eq hc in
    let sendable : (k.mss == 0) ≡ false = ground arith in
    let more : (length c.rest == 0) ≡ false = ground (arith, fragment_count-small k.mss c.rest) in
    let many : leb kcp_wnd_rcv (fragment_count k.mss c.rest) ≡ true = ground arith in
    let count : length (take room buf) ≡ room = omega (arith, length-take room buf) in
    rw (sendable, hs, more, many)
      (
        refl,
        extend_last-taken k.mss buf k.snd_queue
            ∙ ap (λ n. payloads k.snd_queue ++ take n buf) size_eq,
        count,
        omega (arith, count),
      )
