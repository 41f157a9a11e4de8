-- ===== src/Kcp/Delivery/Channel.antt =====
-- The writer behind `KcpOutput` as a channel for datagrams, and the sender of kcp/src/kcp.rs in
-- front of it: all that is in flight, buffered or written carries genuine segments.
use kcp_scream_testspace.Common.{
  ℕ, ◌+◌, ◌≡◌, refl, false, Option, none, some, List, [], ◌++◌, All, All-map, length, arith, ltb,
  ◌==◌, if_rule, IsU32,
}
use kcp_scream_testspace.Kcp.Segment.{KcpSegment, encode, encoded_len}
use kcp_scream_testspace.Kcp.State.{Kcp, Result, ok, kcp_cmd_push, Write, ErrorKind}
use kcp_scream_testspace.Kcp.Flush.Output.{written, write_out, reserve, emit}
use kcp_scream_testspace.Kcp.Flush.Fits.{bind_rule}
use kcp_scream_testspace.Kcp.Flush.{template}
use kcp_scream_testspace.Kcp.Flush.Rule.{FlushRules}
use kcp_scream_testspace.Kcp.Delivery.Wire.{
  Sound, Sound-append, Carries, Carries-append, Framed-nil, Framed-encode,
}

-- What a writer of datagrams has let out so far: a write adds at most its own bytes, whole, so what
-- holds of all datagrams before and of those bytes holds of all after it.
pub record Channel (O : Type 0) ⦃w : Write O⦄ : Type 1 where
  pub datagrams : O → List (List ℕ)
  pub kept :
      (P : List ℕ → Type 0) (o : O) (bytes : List ℕ)
      → All P (datagrams o)
      → P bytes
      → All P (datagrams (w.write_all o bytes).1)

module _ {O : Type 0} ⦃w : Write O⦄ (c : Channel O) (history : List (List ℕ)) where
  -- The sender with the queue and the next number given: what it has let out or may still let out is
  -- genuine.
  pub record Wired (queue : List KcpSegment) (nxt : ℕ) (k : Kcp O) : Type 0 where
    pub out_carried : All (Carries history) (c.datagrams k.output)
    pub buf_carried : Carries history k.buf
    pub flight_sound : All (Sound history) k.snd_buf
    pub queue_eq : k.snd_queue ≡ queue
    pub nxt_eq : k.snd_nxt ≡ nxt
    pub mss_lt : IsU32 k.mss

-- A segment without data.
abbrev pub IsControl : KcpSegment → Type 0
IsControl seg = (seg.payload ≡ []) × ((seg.cmd == kcp_cmd_push) ≡ false)

module _ {O : Type 0} ⦃w : Write O⦄ (c : Channel O) (history : List (List ℕ))
    (queue : List KcpSegment) (nxt : ℕ) where
  pub same-Wired :
      (k k' : Kcp O)
      → k'.output ≡ k.output
      → k'.buf ≡ k.buf
      → k'.snd_queue ≡ k.snd_queue
      → k'.snd_buf ≡ k.snd_buf
      → k'.snd_nxt ≡ k.snd_nxt
      → k'.mss ≡ k.mss
      → Wired c history queue nxt k
      → Wired c history queue nxt k'
  same-Wired k k' e1 e2 e3 e4 e5 e6 v = record {
    out_carried = rw e1 v.out_carried;
    buf_carried = rw e2 v.buf_carried;
    flight_sound = rw e4 v.flight_sound;
    queue_eq = rw e3 v.queue_eq;
    nxt_eq = rw e5 v.nxt_eq;
    mss_lt = rw e6 v.mss_lt;
  }

  pub stored-Wired :
      (segs : List KcpSegment) (k : Kcp O)
      → All (Sound history) segs
      → Wired c history queue nxt k
      → Wired c history queue nxt (record k { snd_buf = segs })
  stored-Wired segs k a v = record {
    out_carried = v.out_carried;
    buf_carried = v.buf_carried;
    flight_sound = a;
    queue_eq = v.queue_eq;
    nxt_eq = v.nxt_eq;
    mss_lt = v.mss_lt;
  }

  buffered-Wired :
      (bytes : List ℕ) (o : O) (k : Kcp O)
      → All (Carries history) (c.datagrams o)
      → Carries history bytes
      → Wired c history queue nxt k
      → Wired c history queue nxt (record k { output = o; buf = bytes })
  buffered-Wired bytes o k a b v = record {
    out_carried = a;
    buf_carried = b;
    flight_sound = v.flight_sound;
    queue_eq = v.queue_eq;
    nxt_eq = v.nxt_eq;
    mss_lt = v.mss_lt;
  }

  written-Wired :
      (r : Option ErrorKind × O) (k : Kcp O)
      → All (Carries history) (c.datagrams r.1)
      → Wired c history queue nxt k
      → Wired c history queue nxt (written r k).1
  unfolding written
  written-Wired (none, o) k a v = buffered-Wired [] o k a (Framed-nil (Sound history)) v
  written-Wired (some e, o) k a v = buffered-Wired k.buf o k a v.buf_carried v

  write_out-Wired :
      (k : Kcp O) → Wired c history queue nxt k → Wired c history queue nxt (write_out k).1
  unfolding write_out
  write_out-Wired k v =
      written-Wired (w.write_all k.output k.buf) k
        (c.kept (Carries history) k.output k.buf v.out_carried v.buf_carried) v

  emit-Wired :
      (seg : KcpSegment) (k : Kcp O)
      → Sound history seg
      → Wired c history queue nxt k
      → Wired c history queue nxt (emit seg k).1
  unfolding emit reserve
  emit-Wired seg k s v =
      let Q : Kcp O → Type 0 = Wired c history queue nxt in
      bind_rule Q (reserve (encoded_len seg) k)
        (λ _ k'. (ok tt, record k' { buf = encode seg k'.buf }))
        (if_rule (λ (r : Result (Unit {0}) × Kcp O). Q r.1)
          (ltb k.mtu (length k.buf + encoded_len seg)) (write_out-Wired k v) v)
        (λ _ k' v'.
          buffered-Wired (encode seg k'.buf) k'.output k' v'.out_carried
            (Framed-encode (Sound history) seg k'.buf s v'.buf_carried) v')

  -- A flush keeps it as it writes.
  pub Wired-flush : FlushRules (Wired c history queue nxt) (Sound history) IsControl
  unfolding template
  Wired-flush = record {
    same = λ k k' s v. same-Wired k k' s.0 s.2 s.3 s.4 s.5 s.6 v;
    emitted = emit-Wired;
    wrote = write_out-Wired;
    stamped = λ seg seg' e1 e2 e3 s. record {
      len_lt = rw e1 s.len_lt;
      known = λ push. rw (e1, e2) (s.known (rw (← e3) push));
    };
    control = λ seg s. record { len_lt = rw s.0 (omega arith); known = λ push. cc };
    templated = λ k. (refl, refl);
    acked = λ seg sn ts s. s;
    probed = λ seg cmd e s. (s.0, e);
  }

module _ {O : Type 0} ⦃w : Write O⦄ (c : Channel O) (history more : List (List ℕ)) where
  -- What was genuine stays so when the history grows.
  pub Wired-append :
      (queue queue' : List KcpSegment) (nxt nxt' : ℕ) (k : Kcp O)
      → Wired c history queue nxt k
      → Wired c (history ++ more) queue' nxt' (record k { snd_queue = queue'; snd_nxt = nxt' })
  Wired-append queue queue' nxt nxt' k v = record {
    out_carried =
        All-map (Carries history) (Carries (history ++ more)) (Carries-append history more)
          (c.datagrams k.output) v.out_carried;
    buf_carried = Carries-append history more k.buf v.buf_carried;
    flight_sound =
        All-map (Sound history) (Sound (history ++ more)) (Sound-append history more) k.snd_buf
          v.flight_sound;
    queue_eq = refl;
    nxt_eq = refl;
    mss_lt = v.mss_lt;
  }
