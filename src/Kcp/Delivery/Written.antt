-- ===== src/Kcp/Delivery/Written.antt =====
-- `send` of kcp/src/kcp.rs: which of the caller's bytes join the queue, in either mode and with
-- either result.
use mathlib.Core.List.{flatten}
use kcp_scream_testspace.Common.{
  ℕ, ◌-◌, ◌≤◌, ◌≡◌, refl, sym, ap, ◌∙◌, Bool, false, List, [], ◌∷◌, ◌++◌, All, All-append, All-map,
  min, max, length, take, length-append, length-take, arith, IsU32, ltb, leb, ◌==◌, if_rule,
  append-nil, append_assoc, Bool-cases, inl, inr, if◌then◌else◌,
}
use kcp_scream_testspace.Kcp.Segment.{KcpSegment, payloads, payloads-append}
use kcp_scream_testspace.Kcp.State.{Kcp, Result, ok, err, panic, kcp_wnd_rcv, Write}
use kcp_scream_testspace.Kcp.Send.{Cut, extend_last, split, fragment_count, send_rest, send}
use kcp_scream_testspace.Kcp.Send.Fragments.{split-le, send_queues}
use kcp_scream_testspace.Kcp.Send.Stream.{extend_last-taken, send_streams, fragment_count-small}
use kcp_scream_testspace.Kcp.Delivery.Admission.{IsSmall}
use kcp_scream_testspace.Kcp.Delivery.Channel.{Channel, Wired}
use kcp_scream_testspace.Kcp.Delivery.Sender.{Sends}

-- The bytes that a `send` has put into the queue when it returned `r`: all of them if it was
-- accepted; if a streaming one was refused, those that filled the last segment.
abbrev pub taken_by : {O : Type 0} → Result ℕ → List ℕ → Kcp O → List ℕ
taken_by (ok _) bytes k = bytes
taken_by (err _) bytes k =
    if k.stream then take (extend_last k.mss bytes k.snd_queue).sent_size bytes else []
taken_by panic bytes k = []

extend_last-IsSmall :
    (mss : ℕ) (bytes : List ℕ) (queue : List KcpSegment)
    → IsU32 mss
    → All IsSmall queue
    → All IsSmall (extend_last mss bytes queue).segs
unfolding extend_last
extend_last-IsSmall mss bytes [] h a = tt
extend_last-IsSmall mss bytes (old ∷ []) h a = elim (Bool-cases (ltb (length old.payload) mss)) [
  | inl room ↦
      let n = min (length bytes) (mss - length old.payload) in
      rw room (ground (arith, length-append old.payload (take n bytes), length-take n bytes), tt)
  | inr full ↦ rw full a
]
extend_last-IsSmall mss bytes (seg ∷ next ∷ queue) h (s, a) =
    (s, extend_last-IsSmall mss bytes (next ∷ queue) h a)

split-IsSmall :
    (stream : Bool) (mss n : ℕ) (bytes : List ℕ)
    → IsU32 mss
    → All IsSmall (split stream mss n bytes).segs
split-IsSmall stream mss n bytes h =
    All-map (λ seg. length seg.payload ≤ mss) IsSmall (λ seg e. omega arith)
      (split stream mss n bytes).segs (split-le stream mss n bytes)

module _ {O : Type 0} where
  send_rest-IsSmall :
      (c : Cut) (k : Kcp O)
      → IsU32 k.mss
      → All IsSmall c.segs
      → All IsSmall (send_rest c k).1.snd_queue
  unfolding send_rest
  send_rest-IsSmall c k h a =
      let count = fragment_count k.mss c.rest in
      if_rule (λ (r : Result ℕ × Kcp O). All IsSmall r.1.snd_queue) (leb kcp_wnd_rcv count) a
        (All-append IsSmall c.segs _ a (split-IsSmall k.stream k.mss (max 1 count) c.rest h))

  send-IsSmall :
      (bytes : List ℕ) (k : Kcp O)
      → IsU32 k.mss
      → All IsSmall k.snd_queue
      → All IsSmall (send bytes k).1.snd_queue
  unfolding send
  send-IsSmall bytes k h a =
      let Q : Result ℕ × Kcp O → Type 0 = λ r. All IsSmall r.1.snd_queue in
      let c = extend_last k.mss bytes k.snd_queue in
      let small = extend_last-IsSmall k.mss bytes k.snd_queue h a in
      if_rule Q (k.mss == 0) a (
        if_rule Q k.stream (if_rule Q (length c.rest == 0) small (send_rest-IsSmall c k h small))
          (send_rest-IsSmall _ k h a))

  -- The queue's bytes after a `send`.
  send-taken :
      (bytes : List ℕ) (k : Kcp O)
      → payloads (send bytes k).1.snd_queue
        ≡ payloads k.snd_queue ++ taken_by (send bytes k).0 bytes k
  unfolding send send_rest
  send-taken bytes k = elim (Bool-cases (k.mss == 0)) [
    | inl none_ ↦ rw none_ (sym (append-nil (payloads k.snd_queue)))
    | inr some_ ↦ elim (Bool-cases k.stream) [
      | inl streaming ↦
          let c = extend_last k.mss bytes k.snd_queue in
          elim (Bool-cases (leb kcp_wnd_rcv (fragment_count k.mss c.rest))) [
            | inl many ↦
                let more : (length c.rest == 0) ≡ false =
                  ground (arith, fragment_count-small k.mss c.rest) in
                rw (some_, streaming, more, many) (extend_last-taken k.mss bytes k.snd_queue)
            | inr few ↦
                let e = send_streams bytes k streaming (ground arith) (ground arith) in rw e.0 e.1
          ]
      | inr message ↦ elim (Bool-cases (leb kcp_wnd_rcv (fragment_count k.mss bytes))) [
        | inl many ↦ rw (some_, message, many) (sym (append-nil (payloads k.snd_queue)))
        | inr few ↦
            let e = send_queues bytes k message (ground arith) (ground arith) in
            rw e.0 (
              ap payloads e.1.queue_eq
              ∙ payloads-append k.snd_queue e.1.segs
              ∙ ap (◌++◌ (payloads k.snd_queue)) e.1.bytes_eq)
      ]
    ]
  ]

module _ {O : Type 0} ⦃w : Write O⦄ (c : Channel O) (history : List (List ℕ)) (nxt : ℕ) where
  abbrev QueueWired : {A : Type 0} → Result A × Kcp O → Type 0
  QueueWired (r, k) = Wired c history k.snd_queue nxt k

  queued-Wired :
      (queue segs : List KcpSegment) (k : Kcp O)
      → Wired c history queue nxt k
      → Wired c history segs nxt (record k { snd_queue = segs })
  queued-Wired queue segs k v = record {
    out_carried = v.out_carried;
    buf_carried = v.buf_carried;
    flight_sound = v.flight_sound;
    queue_eq = refl;
    nxt_eq = v.nxt_eq;
    mss_lt = v.mss_lt;
  }

  send_rest-Wired :
      (a : Cut) (k : Kcp O) → Wired c history k.snd_queue nxt k → QueueWired (send_rest a k)
  unfolding send_rest
  send_rest-Wired a k v =
      if_rule (λ (r : Result ℕ × Kcp O). QueueWired r)
        (leb kcp_wnd_rcv (fragment_count k.mss a.rest)) (queued-Wired k.snd_queue _ k v)
        (queued-Wired k.snd_queue _ k v)

  send-Wired :
      (bytes : List ℕ) (k : Kcp O) → Wired c history k.snd_queue nxt k → QueueWired (send bytes k)
  unfolding send
  send-Wired bytes k v =
      let Q : Result ℕ × Kcp O → Type 0 = λ r. QueueWired r in
      let a = extend_last k.mss bytes k.snd_queue in
      if_rule Q (k.mss == 0) v (
        if_rule Q k.stream
          (if_rule Q (length a.rest == 0) (queued-Wired k.snd_queue a.segs k v)
            (send_rest-Wired a k v))
          (send_rest-Wired _ k v))

-- What a `send` takes joins what was written.
pub send-Sends :
    {O : Type 0} ⦃w : Write O⦄ (c : Channel O) (history : List (List ℕ)) (before bytes : List ℕ)
    (k : Kcp O)
    → Sends c history before k
    → Sends c history (before ++ taken_by (send bytes k).0 bytes k) (send bytes k).1
send-Sends c history before bytes k s =
    let more = taken_by (send bytes k).0 bytes k in
    record {
      wired = send-Wired c history (length history) bytes k s.wired;
      queue_small = send-IsSmall bytes k s.wired.mss_lt s.queue_small;
      few = s.few;
      bytes_eq =
          ap (λ b. b ++ more) s.bytes_eq
          ∙ append_assoc (flatten history) (payloads k.snd_queue) more
          ∙ ap (◌++◌ (flatten history)) (sym (send-taken bytes k));
    }
