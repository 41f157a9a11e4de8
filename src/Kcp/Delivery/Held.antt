-- ===== src/Kcp/Delivery/Held.antt =====
-- `snd_buf` of kcp/src/kcp.rs as the store of what is not acknowledged: what an `input` takes out of
-- it, and what a `flush` puts in.
use kcp_scream_testspace.Common.{
  ℕ, ◌+◌, ◌^◌, ◌≤◌, ◌<◌, ◌≡◌, refl, subst, ◌∙◌, ◌⊎◌, inl, inr, true, List, [], ◌∷◌, ◌++◌, All,
  length, arith, u32, ltb, ◌==◌, Bool-cases, if_rule, is_positive, is_negative, not, ◌&&◌,
  if◌then◌else◌,
}
use kcp_scream_testspace.Kcp.Segment.{KcpSegment}
use kcp_scream_testspace.Kcp.State.{Kcp, timediff}
use kcp_scream_testspace.Kcp.Sequence.{SameSns}
use kcp_scream_testspace.Kcp.Ack.{drop_una, remove_sn, count_fastack}
use kcp_scream_testspace.Kcp.Flush.{Admission, stamp, admit}

-- A segment has the number.
abbrev pub Holds : ℕ → List KcpSegment → Type 0
Holds n [] = ⊥
Holds n (seg ∷ segs) = (seg.sn ≡ n) ⊎ Holds n segs

pub Holds-append : (n : ℕ) (xs ys : List KcpSegment) → Holds n xs ⊎ Holds n ys → Holds n (xs ++ ys)
Holds-append n [] ys (inl h) = absurd h
Holds-append n [] ys (inr h) = h
Holds-append n (x ∷ xs) ys (inl (inl e)) = inl e
Holds-append n (x ∷ xs) ys (inl (inr h)) = inr (Holds-append n xs ys (inl h))
Holds-append n (x ∷ xs) ys (inr h) = inr (Holds-append n xs ys (inr h))

pub SameSns-Holds : (n : ℕ) (xs ys : List KcpSegment) → SameSns xs ys → Holds n xs → Holds n ys
SameSns-Holds n [] ys s h = absurd h
SameSns-Holds n (x ∷ xs) [] s h = absurd s
SameSns-Holds n (x ∷ xs) (y ∷ ys) s (inl e) = inl (s.0 ∙ e)
SameSns-Holds n (x ∷ xs) (y ∷ ys) s (inr h) = inr (SameSns-Holds n xs ys s.1 h)

-- Every number is below the bound.
abbrev pub IsBelow : ℕ → List KcpSegment → Type 0
IsBelow nxt = All (λ seg. seg.sn < nxt)

pub SameSns-IsBelow :
    (nxt : ℕ) (xs ys : List KcpSegment) → SameSns xs ys → IsBelow nxt xs → IsBelow nxt ys
SameSns-IsBelow nxt [] [] s a = tt
SameSns-IsBelow nxt [] (y ∷ ys) s a = absurd s
SameSns-IsBelow nxt (x ∷ xs) [] s a = tt
SameSns-IsBelow nxt (x ∷ xs) (y ∷ ys) s a = (rw s.0 a.0, SameSns-IsBelow nxt xs ys s.1 a.1)

-- The test of `parse_una`, for numbers in the lower half of the range.
una_before : (una sn : ℕ) → sn < 2 ^ 31 → is_positive (timediff una sn) ≡ true → sn < una
unfolding timediff
una_before una sn h e = ground arith

-- What acknowledgements of numbers that `Has` has leave in the buffer.
module _ (Has : ℕ → Type 0) (nxt : ℕ) (half : nxt < 2 ^ 31) where
  -- The buffer less some numbers that `Has` has.
  abbrev pub Thins : List KcpSegment → List KcpSegment → Type 0
  Thins segs segs' = ((n : ℕ) → Holds n segs → Has n ⊎ Holds n segs') × IsBelow nxt segs'

  kept_first :
      (x y : KcpSegment) (segs segs' : List KcpSegment)
      → y.sn ≡ x.sn
      → x.sn < nxt
      → Thins segs segs'
      → Thins (x ∷ segs) (y ∷ segs')
  kept_first x y segs segs' e b t = (go, (rw e b, t.1))
    where
      go : (n : ℕ) → Holds n (x ∷ segs) → Has n ⊎ Holds n (y ∷ segs')
      go n (inl h) = inr (inl (e ∙ h))
      go n (inr h) = elim (t.0 n h) [ inl has ↦ inl has | inr held ↦ inr (inr held) ]

  lost_first :
      (x : KcpSegment) (segs segs' : List KcpSegment)
      → Has x.sn
      → Thins segs segs'
      → Thins (x ∷ segs) segs'
  lost_first x segs segs' has t = (go, t.1)
    where
      go : (n : ℕ) → Holds n (x ∷ segs) → Has n ⊎ Holds n segs'
      go n (inl h) = inl (subst Has h has)
      go n (inr h) = t.0 n h

  all_kept : (segs : List KcpSegment) → IsBelow nxt segs → Thins segs segs
  all_kept segs a = (λ n h. inr h, a)

  pub drop_una-Thins :
      (una : ℕ) (segs : List KcpSegment)
      → ((n : ℕ) → n < una → Has n)
      → IsBelow nxt segs
      → Thins segs (drop_una una segs)
  unfolding drop_una
  drop_una-Thins una [] f a = all_kept [] a
  drop_una-Thins una (seg ∷ segs) f a = elim (Bool-cases (is_positive (timediff una seg.sn))) [
    | inl old ↦ rw old (
        lost_first seg segs (drop_una una segs)
          (f seg.sn (una_before una seg.sn (omega (arith, half, a.0)) old))
          (drop_una-Thins una segs f a.1))
    | inr new ↦ rw new (all_kept (seg ∷ segs) a)
  ]

  pub remove_sn-Thins :
      (sn : ℕ) (segs : List KcpSegment) → Has sn → IsBelow nxt segs → Thins segs (remove_sn sn segs)
  unfolding remove_sn
  remove_sn-Thins sn [] has a = all_kept [] a
  remove_sn-Thins sn (seg ∷ segs) has a = elim (Bool-cases (sn == seg.sn)) [
    | inl here ↦
        let same : sn ≡ seg.sn = ground arith in
        rw here (lost_first seg segs segs (subst Has same has) (all_kept segs a.1))
    | inr other ↦ rw other (
        if_rule (Thins (seg ∷ segs)) (ltb sn seg.sn) (all_kept (seg ∷ segs) a)
          (kept_first seg seg segs (remove_sn sn segs) refl a.0 (remove_sn-Thins sn segs has a.1)))
  ]

  pub count_fastack-Thins :
      (sn ts : ℕ) (segs : List KcpSegment)
      → IsBelow nxt segs
      → Thins segs (count_fastack sn ts segs)
  unfolding count_fastack
  count_fastack-Thins sn ts [] a = all_kept [] a
  count_fastack-Thins sn ts (seg ∷ segs) a =
      let passed = record seg {
        fastack =
            if not (sn == seg.sn) && not (is_negative (timediff ts seg.ts))
            then u32 (seg.fastack + 1)
            else seg.fastack;
      } in
      if_rule (Thins (seg ∷ segs)) (is_negative (timediff sn seg.sn)) (all_kept (seg ∷ segs) a) (
        kept_first seg passed segs (count_fastack sn ts segs) refl a.0
          (count_fastack-Thins sn ts segs a.1))

-- The loop over `snd_queue` gives out every number from `snd_nxt` on.
pub record Fresh (nxt room : ℕ) (a : Admission) : Type 0 where
  pub nxt_le : nxt ≤ a.snd_nxt
  pub room_le : a.snd_nxt + length a.snd_queue ≤ room
  pub all_below : IsBelow a.snd_nxt a.fresh
  pub all_given : (n : ℕ) → nxt ≤ n → n < a.snd_nxt → Holds n a.fresh

no_Fresh :
    (nxt : ℕ) (queue : List KcpSegment)
    → Fresh nxt (nxt + length queue) (record { snd_queue = queue; snd_nxt = nxt; fresh = [] })
no_Fresh nxt queue = record {
  nxt_le = omega arith;
  room_le = omega arith;
  all_below = tt;
  all_given = λ n h1 h2. absurd (omega arith);
}

pub admit-Fresh :
    {O : Type 0} (k : Kcp O) (wnd cwnd : ℕ) (queue : List KcpSegment) (nxt : ℕ)
    → nxt + length queue < 2 ^ 31
    → Fresh nxt (nxt + length queue) (admit k wnd cwnd queue nxt)
unfolding admit stamp
admit-Fresh k wnd cwnd [] nxt h = no_Fresh nxt []
admit-Fresh k wnd cwnd (seg ∷ queue) nxt h =
    elim (Bool-cases (is_negative (timediff nxt (u32 (k.snd_una + cwnd))))) [
      | inl open_ ↦
          let next : u32 (nxt + 1) ≡ nxt + 1 = omega arith in
          let ih = admit-Fresh k wnd cwnd queue (nxt + 1) (omega arith) in
          rw (open_, next)
            (record {
              nxt_le = omega (arith, ih.nxt_le);
              room_le = omega (arith, ih.room_le);
              all_below = (omega (arith, ih.nxt_le), ih.all_below);
              all_given = λ n h1 h2. elim (Bool-cases (nxt == n)) [
                | inl here ↦ inl (ground arith)
                | inr other ↦ inr (ih.all_given n (ground arith) h2)
              ];
            })
      | inr shut ↦ rw shut (no_Fresh nxt (seg ∷ queue))
    ]
