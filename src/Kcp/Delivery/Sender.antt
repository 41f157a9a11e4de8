-- ===== src/Kcp/Delivery/Sender.antt =====
-- The sending end of kcp/src/kcp.rs: `flush`, `flush_ack`, `update`, `input` and `recv` against the
-- history of what was written.
use mathlib.Core.List.{flatten}
use kcp_scream_testspace.Common.{
  ℕ, ◌+◌, ◌^◌, ◌<◌, ◌≡◌, sym, ap, subst, ◌∙◌, Bool, true, false, List, [], ◌++◌, All, length,
  length-append, arith, append-nil, append_assoc,
}
use kcp_scream_testspace.Kcp.Segment.{KcpSegment, payloads, payloads-append}
use kcp_scream_testspace.Kcp.State.{Kcp, Write}
use kcp_scream_testspace.Kcp.Flush.{admit, flush_wnd, flush_data, flush, flush_ack}
use kcp_scream_testspace.Kcp.Flush.Rule.{flush_data_rule, flush_rule, flush_ack_rule}
use kcp_scream_testspace.Kcp.Clock.{tick, flush_due, update}
use kcp_scream_testspace.Kcp.Delivery.Wire.{Sound}
use kcp_scream_testspace.Kcp.Delivery.History.{flatten-append}
use kcp_scream_testspace.Kcp.Delivery.Admission.{
  IsSmall, contents, flatten-contents, length-contents, Admitted, admit-Admitted,
}
use kcp_scream_testspace.Kcp.Delivery.Channel.{
  Channel, Wired, IsControl, same-Wired, stored-Wired, Wired-flush, Wired-append,
}

-- The history has what was written and has left `snd_queue`, one entry for each number.
pub record Sends {O : Type 0} ⦃w : Write O⦄ (c : Channel O) (history : List (List ℕ))
    (bytes : List ℕ) (k : Kcp O) : Type 0 where
  pub wired : Wired c history k.snd_queue (length history) k
  pub queue_small : All IsSmall k.snd_queue
  pub few : length history < 2 ^ 32
  pub bytes_eq : bytes ≡ flatten history ++ payloads k.snd_queue

-- The same, of a longer history.
pub record Grows {O : Type 0} ⦃w : Write O⦄ (c : Channel O) (history : List (List ℕ))
    (bytes : List ℕ) (k : Kcp O) : Type 0 where
  pub more : List (List ℕ)
  pub sends : Sends c (history ++ more) bytes k

module _ {O : Type 0} ⦃w : Write O⦄ (c : Channel O) (history : List (List ℕ)) where
  -- Where the queue is as it was.
  pub Wired-Sends :
      (bytes : List ℕ) (queue : List KcpSegment) (k : Kcp O)
      → All IsSmall queue
      → length history < 2 ^ 32
      → bytes ≡ flatten history ++ payloads queue
      → Wired c history queue (length history) k
      → Sends c history bytes k
  Wired-Sends bytes queue k small few e v = record {
    wired = subst (λ q. Wired c history q (length history) k) (sym v.queue_eq) v;
    queue_small = subst (All IsSmall) (sym v.queue_eq) small;
    few = few;
    bytes_eq = e ∙ ap (λ q. flatten history ++ payloads q) (sym v.queue_eq);
  }

  pub Sends-Grows : (bytes : List ℕ) (k : Kcp O) → Sends c history bytes k → Grows c history bytes k
  Sends-Grows bytes k s = record {
    more = [];
    sends = subst (λ h. Sends c h bytes k) (sym (append-nil history)) s;
  }

module _ {O : Type 0} ⦃w : Write O⦄ (c : Channel O) (history : List (List ℕ)) where
  -- The data that a flush sends: what it admits joins the history.
  flush_data-Grows :
      (bytes : List ℕ) (wnd : ℕ) (k : Kcp O)
      → length history + length k.snd_queue < 2 ^ 32
      → Sends c history bytes k
      → Grows c history bytes (flush_data wnd k).1
  flush_data-Grows bytes wnd k few s =
      let v = s.wired in
      let a = admit k wnd (flush_wnd k) k.snd_queue k.snd_nxt in
      let t : Admitted history k.snd_queue a =
        subst (λ n. Admitted history k.snd_queue (admit k wnd (flush_wnd k) k.snd_queue n))
          (sym v.nxt_eq)
          (admit-Admitted k wnd (flush_wnd k) k.snd_queue history few s.queue_small) in
      let more = contents t.taken in
      let k1 = record k { snd_queue = a.snd_queue; snd_nxt = a.snd_nxt } in
      let before : Wired c (history ++ more) a.snd_queue a.snd_nxt k1 =
        Wired-append c history more k.snd_queue a.snd_queue (length history) a.snd_nxt k v in
      let after =
        flush_data_rule (Wired c (history ++ more) a.snd_queue a.snd_nxt) (Sound (history ++ more))
          IsControl (Wired-flush c (history ++ more) a.snd_queue a.snd_nxt) wnd k before
          before.flight_sound t.fresh_sound
          (stored-Wired c (history ++ more) a.snd_queue a.snd_nxt) in
      let bound : length (history ++ more) < 2 ^ 32 = omega (
        arith,
        few,
        length-append history more,
        length-contents t.taken,
        ap length t.queue_eq,
        length-append t.taken a.snd_queue,
      ) in
      let split : bytes ≡ flatten (history ++ more) ++ payloads a.snd_queue =
        s.bytes_eq
        ∙ ap (λ q. flatten history ++ payloads q) t.queue_eq
        ∙ ap (◌++◌ (flatten history)) (payloads-append t.taken a.snd_queue)
        ∙ sym (append_assoc (flatten history) (payloads t.taken) (payloads a.snd_queue))
        ∙ ap (λ b. (flatten history ++ b) ++ payloads a.snd_queue) (sym (flatten-contents t.taken))
        ∙ ap (λ b. b ++ payloads a.snd_queue) (sym (flatten-append history more)) in
      record {
        more = more;
        sends =
            Wired-Sends c (history ++ more) bytes a.snd_queue (flush_data wnd k).1 t.queue_small
              bound split
              (subst (λ n. Wired c (history ++ more) a.snd_queue n (flush_data wnd k).1) t.nxt_eq
                after);
      }

  -- Of a whole flush, whatever it returns.
  pub flush-Grows :
      (bytes : List ℕ) (k : Kcp O)
      → length history + length k.snd_queue < 2 ^ 32
      → Sends c history bytes k
      → Grows c history bytes (flush k).1
  flush-Grows bytes k few s =
      let q = k.snd_queue in
      let n = length history in
      let again : (k' : Kcp O) → Wired c history q n k' → Sends c history bytes k' =
        λ k' v. Wired-Sends c history bytes q k' s.queue_small s.few s.bytes_eq v in
      flush_rule (Wired c history q n) (Sound history) IsControl (Wired-flush c history q n)
        (Grows c history bytes) k (λ k' v. Sends-Grows c history bytes k' (again k' v))
        (λ wnd k' v. flush_data-Grows bytes wnd k' (rw v.queue_eq few) (again k' v)) s.wired

  pub flush_ack-Sends :
      (bytes : List ℕ) (k : Kcp O) → Sends c history bytes k → Sends c history bytes (flush_ack k).1
  flush_ack-Sends bytes k s =
      let q = k.snd_queue in
      let n = length history in
      Wired-Sends c history bytes q (flush_ack k).1 s.queue_small s.few s.bytes_eq (
        flush_ack_rule (Wired c history q n) (Sound history) IsControl (Wired-flush c history q n) k
          s.wired)

  tick-Wired :
      (queue : List KcpSegment) (nxt current : ℕ) (k : Kcp O)
      → Wired c history queue nxt k
      → Wired c history queue nxt (tick current k).1
  unfolding tick
  tick-Wired queue nxt current k v =
      same-Wired c history queue nxt k (tick current k).1 (ground arith) (ground arith)
        (ground arith) (ground arith) (ground arith) (ground arith) v

  flush_due-Grows :
      (bytes : List ℕ) (t : Bool × Kcp O)
      → length history + length t.1.snd_queue < 2 ^ 32
      → Sends c history bytes t.1
      → Grows c history bytes (flush_due t).1
  flush_due-Grows bytes (true, k) few s = flush-Grows bytes k few s
  flush_due-Grows bytes (false, k) few s = Sends-Grows c history bytes k s

  pub update-Grows :
      (bytes : List ℕ) (current : ℕ) (k : Kcp O)
      → length history + length k.snd_queue < 2 ^ 32
      → Sends c history bytes k
      → Grows c history bytes (update current k).1
  unfolding update
  update-Grows bytes current k few s =
      let v = tick-Wired k.snd_queue (length history) current k s.wired in
      flush_due-Grows bytes (tick current k) (rw v.queue_eq few) (
        Wired-Sends c history bytes k.snd_queue (tick current k).1 s.queue_small s.few s.bytes_eq v)
