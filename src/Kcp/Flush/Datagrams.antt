-- ===== src/Kcp/Flush/Datagrams.antt =====
-- The datagrams of a whole `flush` in kcp/src/kcp.rs.
use kcp_scream_testspace.Common.{ℕ, ◌≤◌, List, All, length, arith}
use kcp_scream_testspace.Kcp.Segment.{KcpSegment, encoded_len, kcp_overhead}
use kcp_scream_testspace.Kcp.State.{Kcp, Write}
use kcp_scream_testspace.Kcp.Flush.{template, flush_wnd, flush_data, flush}
use kcp_scream_testspace.Kcp.Flush.Fits.{IsShort, IsFit, emit-IsFit, write_out-IsFit}
use kcp_scream_testspace.Kcp.Flush.Untouched.{SameOutput-IsFit, admit-IsShort, stamped-IsShort}
use kcp_scream_testspace.Kcp.Flush.Rule.{FlushRules, flush_data_rule, flush_rule}

module _ {O : Type 0} ⦃w : Write O⦄ (mtu : ℕ) (P : O → Type 0)
    (allowed : (o : O) (bytes : List ℕ)
      → P o
      → length bytes ≤ mtu
      → P (w.write_all o bytes).1) where
  stored-IsFit :
      (segs : List KcpSegment) (k : Kcp O)
      → All (IsShort mtu) segs
      → IsFit mtu P k
      → IsFit mtu P (record k { snd_buf = segs })
  stored-IsFit segs k a v = record {
    output_fit = v.output_fit;
    mtu_eq = v.mtu_eq;
    buf_le = v.buf_le;
    queue_short = v.queue_short;
    flight_short = a;
  }

  template-IsShort : (k : Kcp O) → kcp_overhead ≤ mtu → IsShort mtu (template k)
  unfolding template encoded_len
  template-IsShort k h = omega arith

  IsFit-rules : kcp_overhead ≤ mtu → FlushRules (IsFit mtu P) (IsShort mtu) (IsShort mtu)
  unfolding encoded_len
  IsFit-rules h = record {
    same = SameOutput-IsFit mtu P;
    emitted = emit-IsFit mtu P allowed;
    wrote = write_out-IsFit mtu P allowed;
    stamped = λ seg seg' e e' e'' s. stamped-IsShort seg' seg e s;
    control = λ seg s. s;
    templated = λ k. template-IsShort k h;
    acked = λ seg sn ts s. s;
    probed = λ seg cmd e s. s;
  }

  flush_data-IsFit :
      (wnd : ℕ) (k : Kcp O) → kcp_overhead ≤ mtu → IsFit mtu P k → IsFit mtu P (flush_data wnd k).1
  flush_data-IsFit wnd k h v =
      let s = admit-IsShort mtu k wnd (flush_wnd k) k.snd_queue k.snd_nxt v.queue_short in
      flush_data_rule (IsFit mtu P) (IsShort mtu) (IsShort mtu) (IsFit-rules h) wnd k
        (record {
          output_fit = v.output_fit;
          mtu_eq = v.mtu_eq;
          buf_le = v.buf_le;
          queue_short = s.1;
          flight_short = v.flight_short;
        })
        v.flight_short s.0 stored-IsFit

  -- Every datagram that `flush` writes, whether it returns `Ok` or an error, has at most `mtu`
  -- bytes, if every queued segment fits one: a predicate on the output that all writes of at most
  -- `mtu` bytes keep holds after the flush. The buffer still fits one datagram, and so does every
  -- segment that waits or is in flight.
  pub flush-IsFit : (k : Kcp O) → kcp_overhead ≤ mtu → IsFit mtu P k → IsFit mtu P (flush k).1
  flush-IsFit k h v =
      flush_rule (IsFit mtu P) (IsShort mtu) (IsShort mtu) (IsFit-rules h) (IsFit mtu P) k
        (λ k' v'. v') (λ wnd k' v'. flush_data-IsFit wnd k' h v') v
