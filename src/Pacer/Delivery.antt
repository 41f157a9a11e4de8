-- ===== src/Pacer/Delivery.antt =====
-- An engine of kcp/src/kcp.rs that sends through the pacer of tokio_kcp/src/pacer.rs, and one that
-- receives.
use kcp_scream_testspace.Common.{
  ℕ, ◌≡◌, refl, sym, subst, Bool, not, List, [], ◌∷◌, ◌++◌, All, All-append, IsIn, IsIn-all,
  append_assoc, if_rule, ltb, length,
}
use kcp_scream_testspace.Kcp.Segment.{payloads}
use kcp_scream_testspace.Kcp.State.{Result, Write}
use kcp_scream_testspace.Scream.Floats.{Float}
use kcp_scream_testspace.Kcp.Delivery.Channel.{Channel}
use kcp_scream_testspace.Kcp.Delivery.Link.{
  Link, LinkStep, Links, connect, network_loses, unmoved, moved,
}
use kcp_scream_testspace.Kcp.Delivery.Prefix.{delivers_prefix}
use kcp_scream_testspace.Pacer.{
  Pacer, channel_size, write_paced, write_all_paced, pacer_write, take_packet, tick_paced,
  new_pacer, repace,
}
use kcp_scream_testspace.Pacer.Order.{written_paced-state}

module _ {F : Type 0} where
  -- What was sent and what waits to be sent.
  abbrev pub passed_on : Pacer F → List (List ℕ)
  passed_on p = p.released ++ p.queue

  write_paced-kept :
      (P : List ℕ → Type 0) (p : Pacer F) (bytes : List ℕ)
      → All P (passed_on p)
      → P bytes
      → All P (passed_on (write_paced p bytes).1)
  unfolding write_paced
  write_paced-kept P p bytes a h =
      let Q : Result ℕ × Pacer F → Type 0 = λ r. All P (passed_on r.1) in
      if_rule Q (not p.running) a (
        if_rule Q (ltb (length p.queue) channel_size)
          (subst (All P) (append_assoc p.released p.queue (bytes ∷ []))
            (All-append P (passed_on p) (bytes ∷ []) a (h, tt)))
          a)

  pub write_all_paced-kept :
      (P : List ℕ → Type 0) (p : Pacer F) (bytes : List ℕ)
      → All P (passed_on p)
      → P bytes
      → All P (passed_on (write_all_paced p bytes).1)
  unfolding write_all_paced
  write_all_paced-kept P p [] a h = a
  write_all_paced-kept P p (b ∷ bytes) a h =
      rw (written_paced-state (write_paced p (b ∷ bytes))) (write_paced-kept P p (b ∷ bytes) a h)

  -- The pacer lets out what it was given, whole, or loses it.
  abbrev pub pacer_channel : Channel (Pacer F)
  pacer_channel = record { datagrams = passed_on; kept = write_all_paced-kept }

  take_packet-passed_on :
      (queue : List (List ℕ)) (p : Pacer F)
      → p.queue ≡ queue
      → passed_on (take_packet queue p) ≡ passed_on p
  take_packet-passed_on [] p e =
      if_rule (λ (p' : Pacer F). passed_on p' ≡ passed_on p) p.dropped refl refl
  take_packet-passed_on (packet ∷ packets) p e =
      rw e (append_assoc p.released (packet ∷ []) packets)

  tick_paced-passed_on : (p : Pacer F) → passed_on (tick_paced p) ≡ passed_on p
  unfolding tick_paced
  tick_paced-passed_on p =
      if_rule (λ (p' : Pacer F). passed_on p' ≡ passed_on p) p.running
        (take_packet-passed_on p.queue p refl) refl

module _ {F : Type 0} ⦃f : Float F⦄ where
  repace-passed_on : (rate : F) (p : Pacer F) → passed_on (repace rate p) ≡ passed_on p
  unfolding repace
  repace-passed_on rate p =
      if_rule (λ (p' : Pacer F). passed_on p' ≡ passed_on p) p.running refl refl

module _ {F O' : Type 0} ⦃f : Float F⦄ ⦃w' : Write O'⦄ where
  -- A step of the connection, or of the sender's pacer.
  pub data PacedStep : Link (Pacer F) O' → Link (Pacer F) O' → Type 0 where
    calls : {v v' : Link (Pacer F) O'} → LinkStep pacer_channel v v' → PacedStep v v'
    ticks :
        {v : Link (Pacer F) O'}
        → PacedStep v
            (record v { sender = record v.sender { output = tick_paced v.sender.output } })
    repaces :
        {v : Link (Pacer F) O'} (rate : F)
        → PacedStep v
            (record v { sender = record v.sender { output = repace rate v.sender.output } })

  -- Any number of them.
  pub data PacedSteps : Link (Pacer F) O' → Link (Pacer F) O' → Type 0 where
    unstepped : {v : Link (Pacer F) O'} → PacedSteps v v
    stepped : {v v' v'' : Link (Pacer F) O'} → PacedStep v v' → PacedSteps v' v'' → PacedSteps v v''

  -- The pacer's own steps are of those that the network may take.
  same-LinkStep :
      (v : Link (Pacer F) O') (p : Pacer F)
      → passed_on p ≡ passed_on v.sender.output
      → LinkStep pacer_channel v (record v { sender = record v.sender { output = p } })
  same-LinkStep v p e = network_loses p (
      subst (λ ds. All (λ d. IsIn d (passed_on v.sender.output)) ds) (sym e)
        (IsIn-all (passed_on v.sender.output)))

  PacedStep-LinkStep : {v v' : Link (Pacer F) O'} → PacedStep v v' → LinkStep pacer_channel v v'
  PacedStep-LinkStep (calls s) = s
  PacedStep-LinkStep {v = v} ticks =
      same-LinkStep v (tick_paced v.sender.output) (tick_paced-passed_on v.sender.output)
  PacedStep-LinkStep {v = v} (repaces rate) =
      same-LinkStep v (repace rate v.sender.output) (repace-passed_on rate v.sender.output)

  PacedSteps-Links : {v v' : Link (Pacer F) O'} → PacedSteps v v' → Links pacer_channel v v'
  PacedSteps-Links unstepped = unmoved
  PacedSteps-Links (stepped s ss) = moved (PacedStep-LinkStep s) (PacedSteps-Links ss)

  -- Through the pacer as well, what the receiver's application has read, and then what waits in
  -- `rcv_queue`, is a prefix of what the sender has taken: after any calls on two new engines,
  -- setters with an MTU below 2 ^ 32 among them, of which the sender writes into a new pacer, and
  -- any ticks and changes of rate of that pacer, though its full channel loses datagrams that it
  -- counts as written. The receiver is given datagrams that wait in the pacer or were sent by it, as
  -- often and in such an order as the network likes, and no sequence number wraps. The sender takes
  -- all bytes of a `send` that is accepted, and of one that is refused in streaming mode those that
  -- fill the last segment.
  pub paced_delivers_prefix :
      (conv conv' : ℕ) (rate : F) (o' : O') (stream stream' : Bool) (v : Link (Pacer F) O')
      → PacedSteps (connect conv conv' (new_pacer rate) o' stream stream') v
      → (rest : List ℕ) × (v.taken_bytes ≡ (v.read_bytes ++ payloads v.receiver.rcv_queue) ++ rest)
  unfolding new_pacer
  paced_delivers_prefix conv conv' rate o' stream stream' v ss =
      delivers_prefix pacer_channel conv conv' (new_pacer rate) o' stream stream' v refl
        (PacedSteps-Links ss)
