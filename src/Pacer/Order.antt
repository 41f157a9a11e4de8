-- ===== src/Pacer/Order.antt =====
-- The datagrams of tokio_kcp/src/pacer.rs in their order, and those that are lost.
use kcp_scream_testspace.Common.{
  ℕ, ◌≤◌, ◌≡◌, refl, sym, ap, subst, ◌∙◌, true, not, List, [], ◌∷◌, ◌++◌, length, length-append,
  arith, append-nil, append_assoc, Bool-cases, inl, inr, if_rule, ltb, ltb→lt,
}
use kcp_scream_testspace.Kcp.State.{Result, ok, err, panic}
use kcp_scream_testspace.Scream.Floats.{Float}
use kcp_scream_testspace.Pacer.{
  Pacer, channel_size, write_paced, written_paced, write_all_paced, take_packet, tick_paced, repace,
  new_pacer,
}

-- What happens to the pacer: a datagram of the engine, one past it, a tick, a new rate, and the end
-- of the socket.
pub data PacerEvent (F : Type 0) : Type 0 where
  flushed_out raw_out : List ℕ → PacerEvent F
  ticked dropped_out : PacerEvent F
  repaced : F → PacerEvent F

-- The first list is the second with some of its members left out.
pub data IsSublist {A : Type 0} : List A → List A → Type 0 where
  done : IsSublist [] []
  keep : {xs ys : List A} (x : A) → IsSublist xs ys → IsSublist (x ∷ xs) (x ∷ ys)
  skip : {xs ys : List A} (y : A) → IsSublist xs ys → IsSublist xs (y ∷ ys)

IsSublist-keep_last :
    {A : Type 0} {xs ys : List A} (a : A)
    → IsSublist xs ys
    → IsSublist (xs ++ (a ∷ [])) (ys ++ (a ∷ []))
IsSublist-keep_last a done = keep a done
IsSublist-keep_last a (keep x s) = keep x (IsSublist-keep_last a s)
IsSublist-keep_last a (skip y s) = skip y (IsSublist-keep_last a s)

IsSublist-skip_last :
    {A : Type 0} {xs ys : List A} (a : A) → IsSublist xs ys → IsSublist xs (ys ++ (a ∷ []))
IsSublist-skip_last a done = skip a done
IsSublist-skip_last a (keep x s) = keep x (IsSublist-skip_last a s)
IsSublist-skip_last a (skip y s) = skip y (IsSublist-skip_last a s)

pub written_paced-state : {F : Type 0} (r : Result ℕ × Pacer F) → (written_paced r).1 ≡ r.1
written_paced-state (ok _, p) = refl
written_paced-state (err e, p) = refl
written_paced-state (panic, p) = refl

module _ {F : Type 0} ⦃f : Float F⦄ where
  unfoldable pub run_event : PacerEvent F → Pacer F → Pacer F
  run_event (flushed_out bytes) p = (write_all_paced p bytes).1
  run_event (raw_out bytes) p = (write_paced p bytes).1
  run_event ticked p = tick_paced p
  run_event dropped_out p = record p { dropped = true }
  run_event (repaced rate) p = repace rate p

  unfoldable pub run_events : List (PacerEvent F) → Pacer F → Pacer F
  run_events [] p = p
  run_events (e ∷ es) p = run_events es (run_event e p)

  -- What an event offers to the channel.
  abbrev pub offered : PacerEvent F → List (List ℕ)
  offered (flushed_out []) = []
  offered (flushed_out (b ∷ bytes)) = (b ∷ bytes) ∷ []
  offered (raw_out bytes) = bytes ∷ []
  offered ticked = []
  offered dropped_out = []
  offered (repaced rate) = []

  abbrev pub offers : List (PacerEvent F) → List (List ℕ)
  offers [] = []
  offers (e ∷ es) = offered e ++ offers es

  -- All that the pacer still has or has sent.
  abbrev pub carried : Pacer F → List (List ℕ)
  carried p = p.released ++ p.queue

  pub record IsPaced (offers_ : List (List ℕ)) (p : Pacer F) : Type 0 where
    pub in_order : IsSublist (carried p) offers_
    pub bounded : length p.queue ≤ channel_size

  write_paced-IsPaced :
      (p : Pacer F) (bytes : List ℕ) (offers_ : List (List ℕ))
      → IsPaced offers_ p
      → IsPaced (offers_ ++ (bytes ∷ [])) (write_paced p bytes).1
  unfolding write_paced
  write_paced-IsPaced p bytes offers_ v =
      let lost : IsPaced (offers_ ++ (bytes ∷ [])) p = record {
        in_order = IsSublist-skip_last bytes v.in_order;
        bounded = v.bounded;
      } in
      if_rule (λ (r : Result ℕ × Pacer F). IsPaced (offers_ ++ (bytes ∷ [])) r.1) (not p.running)
        lost
        (elim (Bool-cases (ltb (length p.queue) channel_size)) [
          | inr full ↦ rw full lost
          | inl room ↦ rw room (record {
            in_order =
                subst (λ xs. IsSublist xs (offers_ ++ (bytes ∷ [])))
                  (append_assoc p.released p.queue (bytes ∷ []))
                  (IsSublist-keep_last bytes v.in_order);
            bounded = ground (arith, length-append p.queue (bytes ∷ []), ltb→lt _ _ room);
          })
        ])

  take_packet-IsPaced :
      (queue : List (List ℕ)) (p : Pacer F) (offers_ : List (List ℕ))
      → p.queue ≡ queue
      → IsPaced offers_ p
      → IsPaced offers_ (take_packet queue p)
  take_packet-IsPaced [] p offers_ e v =
      if_rule (IsPaced offers_) p.dropped (record { in_order = v.in_order; bounded = v.bounded }) v
  take_packet-IsPaced (packet ∷ packets) p offers_ e v = record {
    in_order =
        subst (λ xs. IsSublist xs offers_)
          (ap (λ q. p.released ++ q) e ∙ sym (append_assoc p.released (packet ∷ []) packets))
          v.in_order;
    bounded = ground (arith, v.bounded, e);
  }

  run_event-IsPaced :
      (e : PacerEvent F) (p : Pacer F) (offers_ : List (List ℕ))
      → IsPaced offers_ p
      → IsPaced (offers_ ++ offered e) (run_event e p)
  unfolding run_event write_all_paced tick_paced repace
  run_event-IsPaced (flushed_out []) p offers_ v = rw (append-nil offers_) v
  run_event-IsPaced (flushed_out (b ∷ bytes)) p offers_ v =
      rw (written_paced-state (write_paced p (b ∷ bytes)))
        (write_paced-IsPaced p (b ∷ bytes) offers_ v)
  run_event-IsPaced (raw_out bytes) p offers_ v = write_paced-IsPaced p bytes offers_ v
  run_event-IsPaced ticked p offers_ v =
      rw (append-nil offers_)
        (if_rule (IsPaced offers_) p.running (take_packet-IsPaced p.queue p offers_ refl v) v)
  run_event-IsPaced dropped_out p offers_ v =
      rw (append-nil offers_) (record { in_order = v.in_order; bounded = v.bounded })
  run_event-IsPaced (repaced rate) p offers_ v = rw (append-nil offers_) (
      if_rule (IsPaced offers_) p.running (record { in_order = v.in_order; bounded = v.bounded }) v)

  run_events-IsPaced :
      (es : List (PacerEvent F)) (p : Pacer F) (offers_ : List (List ℕ))
      → IsPaced offers_ p
      → IsPaced (offers_ ++ offers es) (run_events es p)
  unfolding run_events
  run_events-IsPaced [] p offers_ v = rw (append-nil offers_) v
  run_events-IsPaced (e ∷ es) p offers_ v =
      subst (λ xs. IsPaced xs (run_events (e ∷ es) p))
        (append_assoc offers_ (offered e) (offers es))
        (run_events-IsPaced es (run_event e p) (offers_ ++ offered e)
          (run_event-IsPaced e p offers_ v))

  -- Whatever happens to a new pacer, what it has sent and what waits in its channel are, in order,
  -- some of the datagrams that were written to it, each at most as often as it was written, and at
  -- most 256 datagrams wait.
  pub new_pacer-IsPaced :
      (rate : F) (es : List (PacerEvent F)) → IsPaced (offers es) (run_events es (new_pacer rate))
  unfolding new_pacer
  new_pacer-IsPaced rate es =
      run_events-IsPaced es (new_pacer rate) [] (record { in_order = done; bounded = omega arith })
