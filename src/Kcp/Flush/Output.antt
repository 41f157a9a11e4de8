-- ===== src/Kcp/Flush/Output.antt =====
-- The output buffer of kcp/src/kcp.rs: it is written out before a segment that would pass the MTU.
use kcp_scream_testspace.Common.{ℕ, ◌+◌, Option, none, some, [], length, ltb, if◌then◌else◌}
use kcp_scream_testspace.Kcp.Segment.{KcpSegment, encode, encoded_len}
use kcp_scream_testspace.Kcp.State.{Kcp, ErrorKind, Result, ok, err, panic, io_error, Write}

module _ {O : Type 0} where
  -- `?`: what follows runs after `Ok` alone, on the state left.
  abbrev pub bind :
      {A B : Type 0} → Result A × Kcp O → (A → Kcp O → Result B × Kcp O) → Result B × Kcp O
  bind (ok a, k) next = next a k
  bind (err e, k) next = (err e, k)
  bind (panic, k) next = (panic, k)

  -- After `self.output.write_all(&self.buf)?` the buffer is cleared.
  unfoldable pub written : Option ErrorKind × O → Kcp O → Result (Unit {0}) × Kcp O
  written (none, o) k = (ok tt, record k { output = o; buf = [] })
  written (some e, o) k = (err (io_error e), record k { output = o })

  unfoldable pub write_out : ⦃w : Write O⦄ → Kcp O → Result (Unit {0}) × Kcp O
  unfolding written
  write_out ⦃w⦄ k = written (w.write_all k.output k.buf) k

  -- `need` more bytes are to fit into the buffer.
  unfoldable pub reserve : ⦃w : Write O⦄ → ℕ → Kcp O → Result (Unit {0}) × Kcp O
  reserve need k = if ltb k.mtu (length k.buf + need) then write_out k else (ok tt, k)

  unfoldable pub emit : ⦃w : Write O⦄ → KcpSegment → Kcp O → Result (Unit {0}) × Kcp O
  emit seg k =
      bind (reserve (encoded_len seg) k) (λ _ k'. (ok tt, record k' { buf = encode seg k'.buf }))
