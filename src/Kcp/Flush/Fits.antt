-- ===== src/Kcp/Flush/Fits.antt =====
-- The output buffer of kcp/src/kcp.rs against the MTU: one emitted segment at a time.
use kcp_scream_testspace.Common.{
  ℕ, ◌+◌, ◌≤◌, ◌≡◌, Option, none, some, List, [], All, length, arith, ltb, Bool-cases, inl, inr,
  ltb-false,
}
use kcp_scream_testspace.Kcp.Segment.{KcpSegment, encode, encoded_len}
use kcp_scream_testspace.Kcp.Segment.RoundTrip.{length-encode}
use kcp_scream_testspace.Kcp.State.{Kcp, ErrorKind, Result, ok, err, panic, Write}
use kcp_scream_testspace.Kcp.Flush.Output.{bind, written, write_out, reserve, emit}

-- The segment fits a datagram of its own.
abbrev pub IsShort : ℕ → KcpSegment → Type 0
IsShort mtu seg = encoded_len seg ≤ mtu

-- The output is as the predicate wants, the buffer fits a datagram, and so does every segment that
-- waits or is in flight.
pub record IsFit {O : Type 0} (mtu : ℕ) (P : O → Type 0) (k : Kcp O) : Type 0 where
  pub output_fit : P k.output
  pub mtu_eq : k.mtu ≡ mtu
  pub buf_le : length k.buf ≤ mtu
  pub queue_short : All (IsShort mtu) k.snd_queue
  pub flight_short : All (IsShort mtu) k.snd_buf

-- Rule for `?`: what holds of the state before and is kept by the continuation holds at the end.
pub bind_rule :
    {O A B : Type 0} (Q : Kcp O → Type 0) (r : Result A × Kcp O)
    (next : A → Kcp O → Result B × Kcp O)
    → Q r.1
    → ((a : A) (k : Kcp O) → Q k → Q (next a k).1)
    → Q (bind r next).1
bind_rule Q (ok a, k) next q h = h a k q
bind_rule Q (err e, k) next q h = q
bind_rule Q (panic, k) next q h = q

module _ {O : Type 0} ⦃w : Write O⦄ (mtu : ℕ) (P : O → Type 0)
    (allowed : (o : O) (bytes : List ℕ)
      → P o
      → length bytes ≤ mtu
      → P (w.write_all o bytes).1) where
  written-IsFit :
      (r : Option ErrorKind × O) (k : Kcp O) → P r.1 → IsFit mtu P k → IsFit mtu P (written r k).1
  unfolding written
  written-IsFit (none, o) k p v = record {
    output_fit = p;
    mtu_eq = v.mtu_eq;
    buf_le = omega arith;
    queue_short = v.queue_short;
    flight_short = v.flight_short;
  }
  written-IsFit (some e, o) k p v = record {
    output_fit = p;
    mtu_eq = v.mtu_eq;
    buf_le = v.buf_le;
    queue_short = v.queue_short;
    flight_short = v.flight_short;
  }

  pub write_out-IsFit : (k : Kcp O) → IsFit mtu P k → IsFit mtu P (write_out k).1
  unfolding write_out
  write_out-IsFit k v =
      written-IsFit (w.write_all k.output k.buf) k (allowed k.output k.buf v.output_fit v.buf_le) v

  append-IsFit :
      (seg : KcpSegment) (k : Kcp O)
      → length k.buf + encoded_len seg ≤ mtu
      → IsFit mtu P k
      → IsFit mtu P (record k { buf = encode seg k.buf })
  append-IsFit seg k h v = record {
    output_fit = v.output_fit;
    mtu_eq = v.mtu_eq;
    buf_le = omega (arith, length-encode seg k.buf);
    queue_short = v.queue_short;
    flight_short = v.flight_short;
  }

  append_written-IsFit :
      (seg : KcpSegment) (r : Option ErrorKind × O) (k : Kcp O)
      → P r.1
      → IsShort mtu seg
      → IsFit mtu P k
      → IsFit mtu P (bind (written r k) (λ _ k'. (ok tt, record k' { buf = encode seg k'.buf }))).1
  unfolding written
  append_written-IsFit seg (none, o) k p h v =
      append-IsFit seg (record k { output = o; buf = [] }) (omega arith)
        (record {
          output_fit = p;
          mtu_eq = v.mtu_eq;
          buf_le = omega arith;
          queue_short = v.queue_short;
          flight_short = v.flight_short;
        })
  append_written-IsFit seg (some e, o) k p h v = record {
    output_fit = p;
    mtu_eq = v.mtu_eq;
    buf_le = v.buf_le;
    queue_short = v.queue_short;
    flight_short = v.flight_short;
  }

  pub emit-IsFit :
      (seg : KcpSegment) (k : Kcp O) → IsShort mtu seg → IsFit mtu P k → IsFit mtu P (emit seg k).1
  unfolding emit reserve write_out
  emit-IsFit seg k h v = elim (Bool-cases (ltb k.mtu (length k.buf + encoded_len seg))) [
    | inl full ↦ rw full (
        append_written-IsFit seg (w.write_all k.output k.buf) k
          (allowed k.output k.buf v.output_fit v.buf_le) h v)
    | inr room ↦ rw room (append-IsFit seg k (omega (arith, ltb-false _ _ room, v.mtu_eq)) v)
  ]
