-- ===== src/Kcp/Delivery/Link.antt =====
-- One direction of a connection: an engine of kcp/src/kcp.rs that sends, a network that loses,
-- repeats, delays and reorders its datagrams, and an engine that receives.
use kcp_scream_testspace.Common.{ℕ, ◌+◌, ◌^◌, ◌<◌, Bool, List, [], ◌++◌, All, IsIn, length}
use kcp_scream_testspace.Kcp.State.{Kcp, Write, construct}
use kcp_scream_testspace.Kcp.Receive.{recv}
use kcp_scream_testspace.Kcp.Send.{send}
use kcp_scream_testspace.Kcp.Input.{input}
use kcp_scream_testspace.Kcp.Flush.{flush, flush_ack}
use kcp_scream_testspace.Kcp.Clock.{update}
use kcp_scream_testspace.Kcp.Delivery.Channel.{Channel}
use kcp_scream_testspace.Kcp.Delivery.Written.{taken_by}
use kcp_scream_testspace.Kcp.Delivery.Receiver.{received}
use kcp_scream_testspace.Kcp.Settings.Calls.{Setting}

-- Both engines, the bytes that the sender has taken and those that the receiver's application has
-- read.
pub record Link (O O' : Type 0) : Type 0 where
  pub sender : Kcp O
  pub receiver : Kcp O'
  pub taken_bytes : List ℕ
  pub read_bytes : List ℕ

-- The numbers of what waits to be sent do not wrap.
abbrev pub IsRoomy : {O : Type 0} → Kcp O → Type 0
IsRoomy k = k.snd_nxt + length k.snd_queue < 2 ^ 32

-- Two new engines.
abbrev pub connect : {O O' : Type 0} → ℕ → ℕ → O → O' → Bool → Bool → Link O O'
connect conv conv' o o' stream stream' = record {
  sender = construct conv o stream;
  receiver = construct conv' o' stream';
  taken_bytes = [];
  read_bytes = [];
}

module _ {O O' : Type 0} ⦃w : Write O⦄ ⦃w' : Write O'⦄ (c : Channel O) where
  -- One call on either side, with whatever it returns. The receiver is given any datagram that the
  -- sender has let out, at any time; the sender is given any bytes at all; and its writer may lose
  -- datagrams.
  pub data LinkStep : Link O O' → Link O O' → Type 0 where
    sender_sends :
        {v : Link O O'} (bytes : List ℕ)
        → LinkStep v (record v {
          sender = (send bytes v.sender).1;
          taken_bytes = v.taken_bytes ++ taken_by (send bytes v.sender).0 bytes v.sender;
        })
    sender_flushes :
        {v : Link O O'} → IsRoomy v.sender → LinkStep v (record v { sender = (flush v.sender).1 })
    sender_updates :
        {v : Link O O'} (current : ℕ)
        → IsRoomy v.sender
        → LinkStep v (record v { sender = (update current v.sender).1 })
    sender_flushes_ack : {v : Link O O'} → LinkStep v (record v { sender = (flush_ack v.sender).1 })
    sender_is_given :
        {v : Link O O'} (bytes : List ℕ)
        → LinkStep v (record v { sender = (input bytes v.sender).1 })
    sender_reads :
        {v : Link O O'} (room : ℕ) → LinkStep v (record v { sender = (recv room v.sender).1 })
    sender_is_set :
        {v : Link O O'} {k : Kcp O} → Setting v.sender k → LinkStep v (record v { sender = k })
    network_loses :
        {v : Link O O'} (o : O)
        → All (λ d. IsIn d (c.datagrams v.sender.output)) (c.datagrams o)
        → LinkStep v (record v { sender = record v.sender { output = o } })
    receiver_is_given :
        {v : Link O O'} (bytes : List ℕ)
        → IsIn bytes (c.datagrams v.sender.output)
        → LinkStep v (record v { receiver = (input bytes v.receiver).1 })
    receiver_reads :
        {v : Link O O'} (room : ℕ)
        → LinkStep v (record v {
          receiver = (recv room v.receiver).1;
          read_bytes = v.read_bytes ++ received (recv room v.receiver).0;
        })
    receiver_sends :
        {v : Link O O'} (bytes : List ℕ)
        → LinkStep v (record v { receiver = (send bytes v.receiver).1 })
    receiver_flushes : {v : Link O O'} → LinkStep v (record v { receiver = (flush v.receiver).1 })
    receiver_updates :
        {v : Link O O'} (current : ℕ)
        → LinkStep v (record v { receiver = (update current v.receiver).1 })
    receiver_flushes_ack :
        {v : Link O O'} → LinkStep v (record v { receiver = (flush_ack v.receiver).1 })
    receiver_is_set :
        {v : Link O O'} {k : Kcp O'} → Setting v.receiver k → LinkStep v (record v { receiver = k })

  -- Any number of them.
  pub data Links : Link O O' → Link O O' → Type 0 where
    unmoved : {v : Link O O'} → Links v v
    moved : {v v' v'' : Link O O'} → LinkStep v v' → Links v' v'' → Links v v''
