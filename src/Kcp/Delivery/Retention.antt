-- ===== src/Kcp/Delivery/Retention.antt =====
-- A sender of kcp/src/kcp.rs in use, given acknowledgements of numbers that the other end has.
use kcp_scream_testspace.Common.{ℕ, ◌+◌, ◌^◌, ◌<◌, ◌⊎◌, Bool, List, length, arith}
use kcp_scream_testspace.Kcp.State.{Kcp, Write, construct}
use kcp_scream_testspace.Kcp.Receive.{recv}
use kcp_scream_testspace.Kcp.Send.{send}
use kcp_scream_testspace.Kcp.Input.{input}
use kcp_scream_testspace.Kcp.Flush.{flush, flush_ack}
use kcp_scream_testspace.Kcp.Clock.{update}
use kcp_scream_testspace.Kcp.Delivery.Wire.{Framed}
use kcp_scream_testspace.Kcp.Settings.Calls.{Setting, Setting-Spares}
use kcp_scream_testspace.Kcp.Delivery.Held.{Holds}
use kcp_scream_testspace.Kcp.Delivery.Retains.{
  Vouches, Retains, same-Retains, input-Retains, recv-Retains, send-Retains,
}
use kcp_scream_testspace.Kcp.Delivery.Refilled.{flush-Retains, flush_ack-Retains, update-Retains}

-- The numbers of what waits to be sent stay in the lower half of the range.
abbrev pub IsEarly : {O : Type 0} → Kcp O → Type 0
IsEarly k = k.snd_nxt + length k.snd_queue < 2 ^ 31

module _ {O : Type 0} ⦃w : Write O⦄ (Has : ℕ → Type 0) where
  -- One call, with whatever it returns. `input` is given whole segments, and what they acknowledge,
  -- `Has` has.
  pub data Use : Kcp O → Kcp O → Type 0 where
    use_input : {k : Kcp O} (bytes : List ℕ) → Framed (Vouches Has) bytes → Use k (input bytes k).1
    use_recv : {k : Kcp O} (room : ℕ) → Use k (recv room k).1
    use_send : {k : Kcp O} (bytes : List ℕ) → Use k (send bytes k).1
    use_update : {k : Kcp O} (current : ℕ) → IsEarly k → Use k (update current k).1
    use_flush : {k : Kcp O} → IsEarly k → Use k (flush k).1
    use_flush_ack : {k : Kcp O} → IsEarly k → Use k (flush_ack k).1
    use_setting : {k k' : Kcp O} → Setting k k' → Use k k'

  -- Any number of calls.
  pub data Uses : Kcp O → Kcp O → Type 0 where
    unused : {k : Kcp O} → Uses k k
    used : {k k' k'' : Kcp O} → Use k k' → Uses k' k'' → Uses k k''

  Use-Retains : {k k' : Kcp O} → Use k k' → Retains Has k → Retains Has k'
  Use-Retains {k = k} (use_input bytes f) v = input-Retains Has bytes k f v
  Use-Retains {k = k} (use_recv room) v = recv-Retains Has room k v
  Use-Retains {k = k} (use_send bytes) v = send-Retains Has bytes k v
  Use-Retains {k = k} (use_update current early) v = update-Retains Has current k early v
  Use-Retains {k = k} (use_flush early) v = flush-Retains Has k early v
  Use-Retains {k = k} (use_flush_ack early) v = flush_ack-Retains Has k early v
  Use-Retains {k = k} {k' = k'} (use_setting s) v =
      let e = Setting-Spares s in same-Retains Has k k' e.3 e.5 v

  Uses-Retains : {k k' : Kcp O} → Uses k k' → Retains Has k → Retains Has k'
  Uses-Retains unused v = v
  Uses-Retains (used c cs) v = Uses-Retains cs (Use-Retains c v)

  construct-Retains :
      (conv : ℕ) (output : O) (stream : Bool) → Retains Has (construct conv output stream)
  unfolding construct
  construct-Retains conv output stream = record {
    half = omega arith;
    below = tt;
    kept = λ n h. absurd (omega arith);
  }

  -- The sender gives up no segment before it is acknowledged. After any calls on a new engine (an
  -- MTU that is set being below 2 ^ 32), every
  -- number that was given out is one that `Has` has, or there is a segment with it in flight. Here
  -- `Has` is any set of numbers, for example those that the other end has received: each datagram
  -- that the engine is given consists of whole segments, `Has` has all numbers before their `una`
  -- and the number of each that is an acknowledgement, and the numbers given out stay below 2 ^ 31.
  pub sender_retains :
      (conv : ℕ) (output : O) (stream : Bool) (k : Kcp O) (n : ℕ)
      → Uses (construct conv output stream) k
      → n < k.snd_nxt
      → Has n ⊎ Holds n k.snd_buf
  sender_retains conv output stream k n us h =
      (Uses-Retains us (construct-Retains conv output stream)).kept n h
