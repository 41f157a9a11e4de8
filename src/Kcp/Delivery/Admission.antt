-- ===== src/Kcp/Delivery/Admission.antt =====
-- The numbers that `flush` of kcp/src/kcp.rs gives to what it takes from `snd_queue`.
use mathlib.Core.List.{flatten}
use kcp_scream_testspace.Common.{
  ℕ, suc, ◌+◌, ◌^◌, ◌<◌, ◌≡◌, refl, sym, ap, subst, ◌∙◌, List, [], ◌∷◌, ◌++◌, All, length,
  length-append, arith, u32, IsU32, Bool-cases, inl, inr, append-nil, append_assoc, is_negative,
}
use kcp_scream_testspace.Kcp.Segment.{KcpSegment, payloads}
use kcp_scream_testspace.Kcp.State.{Kcp, timediff}
use kcp_scream_testspace.Kcp.Flush.{Admission, stamp, admit}
use kcp_scream_testspace.Kcp.Delivery.History.{get_elem?-length}
use kcp_scream_testspace.Kcp.Delivery.Wire.{Sound}

-- The payload's length fits its place on the wire.
abbrev pub IsSmall : KcpSegment → Type 0
IsSmall seg = IsU32 (length seg.payload)

-- The payloads one by one.
abbrev pub contents : List KcpSegment → List (List ℕ)
contents [] = []
contents (seg ∷ segs) = seg.payload ∷ contents segs

pub flatten-contents : (segs : List KcpSegment) → flatten (contents segs) ≡ payloads segs
unfolding flatten payloads
flatten-contents [] = refl
flatten-contents (seg ∷ segs) = ap (◌++◌ seg.payload) (flatten-contents segs)

pub length-contents : (segs : List KcpSegment) → length (contents segs) ≡ length segs
length-contents [] = refl
length-contents (seg ∷ segs) = ap suc (length-contents segs)

-- A front part of the queue joins the history, and every segment on its way carries its entry.
pub record Admitted (history : List (List ℕ)) (queue : List KcpSegment) (a : Admission)
    : Type 0 where
  pub taken : List KcpSegment
  pub queue_eq : queue ≡ taken ++ a.snd_queue
  pub nxt_eq : a.snd_nxt ≡ length (history ++ contents taken)
  pub fresh_sound : All (Sound (history ++ contents taken)) a.fresh
  pub queue_small : All IsSmall a.snd_queue

none_taken :
    (history : List (List ℕ)) (queue : List KcpSegment)
    → All IsSmall queue
    → Admitted history queue (record { snd_queue = queue; snd_nxt = length history; fresh = [] })
none_taken history queue small = record {
  taken = [];
  queue_eq = refl;
  nxt_eq = ap length (sym (append-nil history));
  fresh_sound = tt;
  queue_small = small;
}

one_taken :
    {O : Type 0} (k : Kcp O) (wnd : ℕ) (history : List (List ℕ)) (seg : KcpSegment)
    (queue : List KcpSegment) (a : Admission)
    → IsSmall seg
    → Admitted (history ++ (seg.payload ∷ [])) queue a
    → Admitted history
        (seg ∷ queue)
        (record a { fresh = stamp k wnd (length history) seg ∷ a.fresh })
unfolding stamp
one_taken k wnd history seg queue a small v =
    let grown : (history ++ (seg.payload ∷ [])) ++ contents v.taken
        ≡ history ++ contents (seg ∷ v.taken) =
      append_assoc history (seg.payload ∷ []) (contents v.taken) in
    record {
      taken = seg ∷ v.taken;
      queue_eq = ap (◌∷◌ seg) v.queue_eq;
      nxt_eq = v.nxt_eq ∙ ap length grown;
      fresh_sound = (
        record {
          len_lt = small;
          known = λ _. get_elem?-length history seg.payload (contents v.taken);
        },
        subst (λ h. All (Sound h) a.fresh) grown v.fresh_sound,
      );
      queue_small = v.queue_small;
    }

-- The loop over `snd_queue`, from `snd_nxt` equal to the length of the history, while the numbers
-- do not wrap.
pub admit-Admitted :
    {O : Type 0} (k : Kcp O) (wnd cwnd : ℕ) (queue : List KcpSegment) (history : List (List ℕ))
    → length history + length queue < 2 ^ 32
    → All IsSmall queue
    → Admitted history queue (admit k wnd cwnd queue (length history))
unfolding admit
admit-Admitted k wnd cwnd [] history few small = none_taken history [] small
admit-Admitted k wnd cwnd (seg ∷ queue) history few (s, small) =
    elim (Bool-cases (is_negative (timediff (length history) (u32 (k.snd_una + cwnd))))) [
      | inl open_ ↦
          let longer = history ++ (seg.payload ∷ []) in
          let next : u32 (length history + 1) ≡ length longer =
            omega (arith, length-append history (seg.payload ∷ [])) in
          let ih =
            admit-Admitted k wnd cwnd queue longer
              (omega (arith, length-append history (seg.payload ∷ []))) small in
          rw (open_, next)
            (one_taken k wnd history seg queue (admit k wnd cwnd queue (length longer)) s ih)
      | inr shut ↦ rw shut (none_taken history (seg ∷ queue) (s, small))
    ]
