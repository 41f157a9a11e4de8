-- ===== src/Kcp/Delivery/Prefix.antt =====
-- What crosses a connection of kcp/src/kcp.rs, against what was written.
use mathlib.Core.List.{flatten}
use kcp_scream_testspace.Common.{
  ℕ, ◌≡◌, refl, sym, ap, subst, ◌∙◌, Bool, List, [], ◌++◌, All, All-map, IsIn, All-IsIn, take,
  arith, append_assoc, take_all,
}
use kcp_scream_testspace.Kcp.Segment.{payloads}
use kcp_scream_testspace.Kcp.State.{Kcp, Write, construct}
use kcp_scream_testspace.Kcp.Receive.Order.{inbox}
use kcp_scream_testspace.Kcp.Flush.{flush}
use kcp_scream_testspace.Kcp.Clock.{update}
use kcp_scream_testspace.Kcp.Delivery.History.{flatten-take-prefix}
use kcp_scream_testspace.Kcp.Delivery.Wire.{Sound, Carries, Framed-nil}
use kcp_scream_testspace.Kcp.Delivery.Channel.{Channel}
use kcp_scream_testspace.Kcp.Delivery.Sender.{
  Sends, Grows, flush-Grows, flush_ack-Sends, update-Grows,
}
use kcp_scream_testspace.Kcp.Delivery.Acked.{input-Sends, recv-Sends}
use kcp_scream_testspace.Kcp.Delivery.Written.{send-Sends}
use kcp_scream_testspace.Kcp.Delivery.Receiver.{
  Delivers, Delivers-append, input-Delivers, recv-Delivers,
}
use kcp_scream_testspace.Kcp.Delivery.Setting.{set-inbox, set-Sends}
use kcp_scream_testspace.Kcp.Delivery.Inbox.{flush-inbox, flush_ack-inbox, update-inbox, send-inbox}
use kcp_scream_testspace.Kcp.Delivery.Link.{
  Link, LinkStep, Links, connect, sender_sends, sender_flushes, sender_updates, sender_flushes_ack,
  sender_is_given, sender_reads, sender_is_set, network_loses, receiver_is_given, receiver_reads,
  receiver_sends, receiver_flushes, receiver_updates, receiver_flushes_ack, receiver_is_set,
  unmoved, moved,
}

module _ {O : Type 0} ⦃w : Write O⦄ (c : Channel O) where
  -- A writer that forgets datagrams.
  lost-Sends :
      (history : List (List ℕ)) (bytes : List ℕ) (k : Kcp O) (o : O)
      → All (λ d. IsIn d (c.datagrams k.output)) (c.datagrams o)
      → Sends c history bytes k
      → Sends c history bytes (record k { output = o })
  lost-Sends history bytes k o a s =
      let v = s.wired in
      record {
        wired = record {
          out_carried =
              All-map (λ d. IsIn d (c.datagrams k.output)) (Carries history)
                (λ d i. All-IsIn (Carries history) (c.datagrams k.output) v.out_carried i)
                (c.datagrams o) a;
          buf_carried = v.buf_carried;
          flight_sound = v.flight_sound;
          queue_eq = v.queue_eq;
          nxt_eq = v.nxt_eq;
          mss_lt = v.mss_lt;
        };
        queue_small = s.queue_small;
        few = s.few;
        bytes_eq = s.bytes_eq;
      }

module _ {O O' : Type 0} ⦃w : Write O⦄ ⦃w' : Write O'⦄ (c : Channel O) where
  -- One history is behind what was taken and ahead of what was read.
  record Linked (v : Link O O') : Type 0 where
    history : List (List ℕ)
    sends : Sends c history v.taken_bytes v.sender
    delivers : Delivers history v.read_bytes (inbox v.receiver)

  grown-Linked :
      (v : Link O O') (history : List (List ℕ)) (k : Kcp O)
      → Delivers history v.read_bytes (inbox v.receiver)
      → Grows c history v.taken_bytes k
      → Linked (record v { sender = k })
  grown-Linked v history k d g = record {
    history = history ++ g.more;
    sends = g.sends;
    delivers = Delivers-append history g.more v.read_bytes (inbox v.receiver) d;
  }

  LinkStep-Linked : {v v' : Link O O'} → LinkStep c v v' → Linked v → Linked v'
  LinkStep-Linked {v = v} (sender_sends bytes) l = record {
    history = l.history;
    sends = send-Sends c l.history v.taken_bytes bytes v.sender l.sends;
    delivers = l.delivers;
  }
  LinkStep-Linked {v = v} (sender_flushes roomy) l =
      grown-Linked v l.history (flush v.sender).1 l.delivers
        (flush-Grows c l.history v.taken_bytes v.sender (rw (← l.sends.wired.nxt_eq) roomy) l.sends)
  LinkStep-Linked {v = v} (sender_updates current roomy) l =
      grown-Linked v l.history (update current v.sender).1 l.delivers (
        update-Grows c l.history v.taken_bytes current v.sender (rw (← l.sends.wired.nxt_eq) roomy)
          l.sends)
  LinkStep-Linked {v = v} sender_flushes_ack l = record {
    history = l.history;
    sends = flush_ack-Sends c l.history v.taken_bytes v.sender l.sends;
    delivers = l.delivers;
  }
  LinkStep-Linked {v = v} (sender_is_given bytes) l = record {
    history = l.history;
    sends = input-Sends c l.history v.taken_bytes bytes v.sender l.sends;
    delivers = l.delivers;
  }
  LinkStep-Linked {v = v} (sender_reads room) l = record {
    history = l.history;
    sends = recv-Sends c l.history v.taken_bytes room v.sender l.sends;
    delivers = l.delivers;
  }
  LinkStep-Linked {v = v} (network_loses o a) l = record {
    history = l.history;
    sends = lost-Sends c l.history v.taken_bytes v.sender o a l.sends;
    delivers = l.delivers;
  }
  LinkStep-Linked {v = v} (receiver_is_given bytes i) l = record {
    history = l.history;
    sends = l.sends;
    delivers =
        input-Delivers l.history l.sends.few v.read_bytes bytes v.receiver
          (All-IsIn (Carries l.history) (c.datagrams v.sender.output) l.sends.wired.out_carried i)
          l.delivers;
  }
  LinkStep-Linked {v = v} (receiver_reads room) l = record {
    history = l.history;
    sends = l.sends;
    delivers = recv-Delivers l.history v.read_bytes room v.receiver l.sends.few l.delivers;
  }
  LinkStep-Linked {v = v} (receiver_sends bytes) l = record {
    history = l.history;
    sends = l.sends;
    delivers = rw (send-inbox bytes v.receiver) l.delivers;
  }
  LinkStep-Linked {v = v} receiver_flushes l = record {
    history = l.history;
    sends = l.sends;
    delivers = flush-inbox (Delivers l.history v.read_bytes) v.receiver l.delivers;
  }
  LinkStep-Linked {v = v} (receiver_updates current) l = record {
    history = l.history;
    sends = l.sends;
    delivers = update-inbox (Delivers l.history v.read_bytes) current v.receiver l.delivers;
  }
  LinkStep-Linked {v = v} receiver_flushes_ack l = record {
    history = l.history;
    sends = l.sends;
    delivers = flush_ack-inbox (Delivers l.history v.read_bytes) v.receiver l.delivers;
  }
  LinkStep-Linked {v = v} (sender_is_set t) l = record {
    history = l.history;
    sends = set-Sends c l.history v.taken_bytes t l.sends;
    delivers = l.delivers;
  }
  LinkStep-Linked {v = v} (receiver_is_set t) l = record {
    history = l.history;
    sends = l.sends;
    delivers = rw (set-inbox t) l.delivers;
  }

  Links-Linked : {v v' : Link O O'} → Links c v v' → Linked v → Linked v'
  Links-Linked unmoved l = l
  Links-Linked (moved s ss) l = Links-Linked ss (LinkStep-Linked s l)

  connect-Linked :
      (conv conv' : ℕ) (o : O) (o' : O') (stream stream' : Bool)
      → c.datagrams o ≡ []
      → Linked (connect conv conv' o o' stream stream')
  unfolding construct payloads flatten
  connect-Linked conv conv' o o' stream stream' e = record {
    history = [];
    sends = record {
      wired = record {
        out_carried = subst (All (Carries [])) (sym e) tt;
        buf_carried = Framed-nil (Sound []);
        flight_sound = tt;
        queue_eq = refl;
        nxt_eq = refl;
        mss_lt = omega arith;
      };
      queue_small = tt;
      few = omega arith;
      bytes_eq = refl;
    };
    delivers = record { nxt_le = omega arith; bytes_eq = refl; waiting = tt };
  }

  -- What the receiver's application has read, and then what waits in `rcv_queue` to be read, is a
  -- prefix of what the sender has taken from its application, byte for byte and in order. It holds
  -- after any calls on two new engines, setters with an MTU below 2 ^ 32 among them, whatever the
  -- sender is given, if the receiver is only given datagrams that the sender's writer has let out,
  -- each as often, as late and in such an order as the network likes, and no sequence number wraps.
  -- The writer lets out a write whole or not at all. The sender takes all bytes of a `send` that is
  -- accepted, and of one that is refused in streaming mode those that fill the last segment.
  pub delivers_prefix :
      (conv conv' : ℕ) (o : O) (o' : O') (stream stream' : Bool) (v : Link O O')
      → c.datagrams o ≡ []
      → Links c (connect conv conv' o o' stream stream') v
      → (rest : List ℕ) × (v.taken_bytes ≡ (v.read_bytes ++ payloads v.receiver.rcv_queue) ++ rest)
  delivers_prefix conv conv' o o' stream stream' v e ss =
      let l = Links-Linked ss (connect-Linked conv conv' o o' stream stream' e) in
      let (later, split) = flatten-take-prefix v.receiver.rcv_nxt l.history in
      let queued = payloads v.sender.snd_queue in
      (
        later ++ queued,
        l.sends.bytes_eq
            ∙ ap (λ b. b ++ queued) (split ∙ ap (λ b. b ++ later) (sym l.delivers.bytes_eq))
            ∙ append_assoc (v.read_bytes ++ payloads v.receiver.rcv_queue) later queued,
      )

  -- When the receiver expects the number that the sender gives out next, nothing is missing: what was
  -- read, what waits to be read and what the sender has not yet numbered are together, in this order,
  -- what the sender has taken, under the same conditions.
  pub delivers_all :
      (conv conv' : ℕ) (o : O) (o' : O') (stream stream' : Bool) (v : Link O O')
      → c.datagrams o ≡ []
      → Links c (connect conv conv' o o' stream stream') v
      → v.receiver.rcv_nxt ≡ v.sender.snd_nxt
      → v.taken_bytes
        ≡ (v.read_bytes ++ payloads v.receiver.rcv_queue) ++ payloads v.sender.snd_queue
  delivers_all conv conv' o o' stream stream' v e ss done =
      let l = Links-Linked ss (connect-Linked conv conv' o o' stream stream' e) in
      let whole : take v.receiver.rcv_nxt l.history ≡ l.history =
        ap (λ n. take n l.history) (done ∙ l.sends.wired.nxt_eq) ∙ take_all l.history in
      l.sends.bytes_eq
      ∙ ap (λ b. b ++ payloads v.sender.snd_queue)
          (ap flatten (sym whole) ∙ sym l.delivers.bytes_eq)
