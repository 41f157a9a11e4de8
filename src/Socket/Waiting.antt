-- ===== src/Socket/Waiting.antt =====
-- The tasks that wait for a `KcpSocket` of tokio_kcp/src/skcp.rs.
use kcp_scream_testspace.Common.{
  ℕ, ◌≡◌, refl, sym, ap, subst, Bool, true, false, Option, none, some, List, [], ◌∷◌, ◌++◌, All,
  IsU8, ◌⊎◌, inl, inr, Bool-cases, ◌∙◌, if◌then◌else◌, if_rule, append-nil, append_assoc,
}
use kcp_scream_testspace.Kcp.State.{Kcp, Result, ok, err, panic, Write}
use kcp_scream_testspace.Kcp.Input.{input}
use kcp_scream_testspace.Kcp.Input.Invariant.{input-IsConsistent}
use kcp_scream_testspace.Kcp.Invariant.{IsConsistent}
use kcp_scream_testspace.Kcp.Flush.{flush_ack}
use kcp_scream_testspace.Kcp.Flush.Consistent.{flush_ack-IsConsistent}
use kcp_scream_testspace.Scream.Floats.{Float}
use kcp_scream_testspace.Socket.{
  Socket, can_send, can_recv, wake_sender, wake_receiver, try_wake_pending_waker, acked_input,
  taken_input, socket_input,
}

-- The tasks that sleep in a socket, and those that it has woken so far.
pub record Tasks (W : Type 0) : Type 0 where
  pub sender : Option W
  pub receiver : Option W
  pub woken : List W

-- What became of a sleeping task, where `can` says whether it can go on: woken just if it can, and
-- else left asleep. `left` sleeps now, and `newly` has been woken.
abbrev pub Met : {W : Type 0} → Bool → Option W → Option W → List W → Type 0
Met can none left newly = (left ≡ none) × (newly ≡ [])
Met can (some waker) left newly =
    ((can ≡ true) × (left ≡ none) × (newly ≡ waker ∷ []))
    ⊎ ((can ≡ false) × (left ≡ some waker) × (newly ≡ []))

module _ {O F W : Type 0} where
  abbrev pub tasks : Socket O F W → Tasks W
  tasks s = record { sender = s.pending_sender; receiver = s.pending_receiver; woken = s.woken }

  -- Of the tasks that slept before, exactly those that can go on in `s` have been woken, the sender
  -- first, and the others sleep on.
  pub record Wakes (before : Tasks W) (s : Socket O F W) : Type 0 where
    pub sender_woken : List W
    pub receiver_woken : List W
    pub woken_eq : s.woken ≡ before.woken ++ (sender_woken ++ receiver_woken)
    pub sender : Met (can_send s.kcp) before.sender s.pending_sender sender_woken
    pub receiver : Met (can_recv s) before.receiver s.pending_receiver receiver_woken

  -- One of the two wakings: what it has done with its own task, and left of the other's.
  record SenderMet (o : Option W) (s s' : Socket O F W) : Type 0 where
    newly : List W
    woken_eq : s'.woken ≡ s.woken ++ newly
    met : Met (can_send s.kcp) o s'.pending_sender newly
    kcp_eq : s'.kcp ≡ s.kcp
    other_eq : s'.pending_receiver ≡ s.pending_receiver

  record ReceiverMet (o : Option W) (s s' : Socket O F W) : Type 0 where
    newly : List W
    woken_eq : s'.woken ≡ s.woken ++ newly
    met : Met (can_recv s) o s'.pending_receiver newly
    kcp_eq : s'.kcp ≡ s.kcp
    can_eq : can_recv s' ≡ can_recv s
    other_eq : s'.pending_sender ≡ s.pending_sender

  wake_sender-SenderMet :
      (o : Option W) (s : Socket O F W) → s.pending_sender ≡ o → SenderMet o s (wake_sender o s).1
  wake_sender-SenderMet none s e = record {
    newly = [];
    woken_eq = sym (append-nil s.woken);
    met = (e, refl);
    kcp_eq = refl;
    other_eq = refl;
  }
  wake_sender-SenderMet (some waker) s e = elim (Bool-cases (can_send s.kcp)) [
    | inl can ↦ rw can (record {
      newly = waker ∷ [];
      woken_eq = refl;
      met = inl (can, refl, refl);
      kcp_eq = refl;
      other_eq = refl;
    })
    | inr cannot ↦ rw cannot (record {
      newly = [];
      woken_eq = sym (append-nil s.woken);
      met = inr (cannot, e, refl);
      kcp_eq = refl;
      other_eq = refl;
    })
  ]

  wake_receiver-ReceiverMet :
      (o : Option W) (s : Socket O F W)
      → s.pending_receiver ≡ o
      → ReceiverMet o s (wake_receiver o s).1
  unfolding can_recv
  wake_receiver-ReceiverMet none s e = record {
    newly = [];
    woken_eq = sym (append-nil s.woken);
    met = (e, refl);
    kcp_eq = refl;
    can_eq = refl;
    other_eq = refl;
  }
  wake_receiver-ReceiverMet (some waker) s e = elim (Bool-cases (can_recv s)) [
    | inl can ↦ rw can (record {
      newly = waker ∷ [];
      woken_eq = refl;
      met = inl (can, refl, refl);
      kcp_eq = refl;
      can_eq = refl;
      other_eq = refl;
    })
    | inr cannot ↦ rw cannot (record {
      newly = [];
      woken_eq = sym (append-nil s.woken);
      met = inr (cannot, e, refl);
      kcp_eq = refl;
      can_eq = refl;
      other_eq = refl;
    })
  ]

  pub try_wake_pending_waker-kcp : (s : Socket O F W) → (try_wake_pending_waker s).1.kcp ≡ s.kcp
  unfolding try_wake_pending_waker
  try_wake_pending_waker-kcp s =
      let a = wake_sender-SenderMet s.pending_sender s refl in
      let s1 = (wake_sender s.pending_sender s).1 in
      (wake_receiver-ReceiverMet s1.pending_receiver s1 refl).kcp_eq ∙ a.kcp_eq

  pub try_wake_pending_waker-Wakes :
      (s : Socket O F W) → Wakes (tasks s) (try_wake_pending_waker s).1
  unfolding try_wake_pending_waker
  try_wake_pending_waker-Wakes s =
      let a = wake_sender-SenderMet s.pending_sender s refl in
      let s1 = (wake_sender s.pending_sender s).1 in
      let b = wake_receiver-ReceiverMet s1.pending_receiver s1 refl in
      let s2 = (wake_receiver s1.pending_receiver s1).1 in
      let kept : s2.kcp ≡ s.kcp = b.kcp_eq ∙ a.kcp_eq in
      let sent : Met (can_send s2.kcp) s.pending_sender s2.pending_sender a.newly =
        rw (kept, b.other_eq) a.met in
      let got : Met (can_recv s2) s1.pending_receiver s2.pending_receiver b.newly =
        rw b.can_eq b.met in
      record {
        sender_woken = a.newly;
        receiver_woken = b.newly;
        woken_eq =
            b.woken_eq ∙ ap (λ l. l ++ b.newly) a.woken_eq ∙ append_assoc s.woken a.newly b.newly;
        sender = sent;
        receiver = subst (λ o. Met (can_recv s2) o s2.pending_receiver b.newly) a.other_eq got;
      }

module _ {O F W : Type 0} ⦃w : Write O⦄ ⦃f : Float F⦄ where
  -- After `Ok` the tasks that can go on have been woken, and the engine is consistent after any
  -- outcome.
  abbrev pub Rests : Tasks W → Result Bool × Socket O F W → Type 0
  Rests before (ok _, s) = Wakes before s × IsConsistent s.kcp
  Rests before (err e, s) = IsConsistent s.kcp
  Rests before (panic, s) = IsConsistent s.kcp

  pub Rests-Holds :
      (before : Tasks W) (r : Result Bool × Socket O F W) → Rests before r → IsConsistent r.1.kcp
  Rests-Holds before (ok _, s) v = v.1
  Rests-Holds before (err e, s) v = v
  Rests-Holds before (panic, s) v = v

  acked_input-Rests :
      (r : Result (Unit {0}) × Kcp O) (s : Socket O F W)
      → IsConsistent r.1
      → Rests (tasks s) (acked_input r s)
  acked_input-Rests (ok _, k) s v =
      let s' = record s { kcp = k } in
      (try_wake_pending_waker-Wakes s', rw (try_wake_pending_waker-kcp s') v)
  acked_input-Rests (err e, k) s v = v
  acked_input-Rests (panic, k) s v = v

  taken_input-Rests :
      (now ms : ℕ) (r : Result (List (ℕ × ℕ) × List ℕ) × Kcp O) (s : Socket O F W)
      → IsConsistent r.1
      → Rests (tasks s) (taken_input now ms r s)
  taken_input-Rests now ms (ok sns, k) s v =
      acked_input-Rests (if s.flush_ack_input then flush_ack k else (ok tt, k)) _ (
        if_rule (λ (r : Result (Unit {0}) × Kcp O). IsConsistent r.1) s.flush_ack_input
          (flush_ack-IsConsistent k v) v)
  taken_input-Rests now ms (err e, k) s v = v
  taken_input-Rests now ms (panic, k) s v = v

  -- When a datagram was taken with `Ok`, exactly the sleeping tasks that can go on have been woken,
  -- and the others sleep on: the sender is woken just if there is room in both windows and the
  -- conversation is settled, the receiver just if a message is ready, and the list of the woken has
  -- grown by these alone. Whatever the bytes and the outcome, the engine stays consistent, if it was
  -- and the bytes are below 256.
  pub socket_input-Rests :
      (now ms : ℕ) (bytes : List ℕ) (s : Socket O F W)
      → All IsU8 bytes
      → IsConsistent s.kcp
      → Rests (tasks s) (socket_input now ms bytes s)
  unfolding socket_input
  socket_input-Rests now ms bytes s a v =
      taken_input-Rests now ms (input bytes s.kcp) s (input-IsConsistent bytes s.kcp a v)
