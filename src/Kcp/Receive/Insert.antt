-- ===== src/Kcp/Receive/Insert.antt =====
-- `parse_data` of kcp/src/kcp.rs: the insertion into `rcv_buf`.
use mathlib.Core.List.{reverse-append, reverse-reverse, reverse-cons}
use kcp_scream_testspace.Common.{
  ℕ, ◌+◌, ◌^◌, ◌≤◌, ◌<◌, ◌≡◌, refl, sym, ap, subst, length-reverse, ◌∙◌, Bool, List, [], ◌∷◌, ◌++◌,
  reverse, All, IsU32, arith, if◌then◌else◌, length, take-length-append, drop-length-append,
  append_assoc,
}
use kcp_scream_testspace.Kcp.Segment.{KcpSegment}
use kcp_scream_testspace.Kcp.Sequence.{ahead, IsOrdered}
use kcp_scream_testspace.Kcp.Receive.{find_place, insert}
use kcp_scream_testspace.Kcp.Receive.Search.{
  IsFalling-reverse, All-reverse, find_place-Place, Place, found, between,
}

-- A segment put in at its place keeps the order.
IsOrdered-insert :
    (base lo hi : ℕ) (seg : KcpSegment) (earlier later : List KcpSegment)
    → IsU32 seg.sn
    → lo ≤ ahead base seg
    → ahead base seg < hi
    → All (λ s. ahead base s < ahead base seg) earlier
    → All (λ s. ahead base seg < ahead base s) later
    → IsOrdered base lo hi (earlier ++ later)
    → IsOrdered base lo hi (earlier ++ (seg ∷ later))
IsOrdered-insert base lo hi seg [] [] hs h1 h2 a b o = (hs, h1, h2, tt)
IsOrdered-insert base lo hi seg [] (s ∷ later) hs h1 h2 a b o =
    (hs, h1, h2, (o.0, omega arith, o.2, o.3))
IsOrdered-insert base lo hi seg (s ∷ earlier) later hs h1 h2 a b o = (
  o.0,
  o.1,
  o.2,
  IsOrdered-insert base (ahead base s + 1) hi seg earlier later hs (omega arith) h2 a.1 b o.3,
)

-- The buffer after `parse_data` has looked for the place, before `move_buf`.
unfoldable pub placed : KcpSegment → List KcpSegment → List KcpSegment
placed seg segs =
    let (repeat, new_index) = find_place seg.sn (reverse segs) (length segs) in
    if repeat then segs else insert new_index seg segs

-- The buffer holds the segment's number already and is as before, or it has the segment at one more
-- place.
pub data Adds (seg : KcpSegment) (segs : List KcpSegment) : List KcpSegment → Type 0 where
  same :
      (xs ys : List KcpSegment) (old : KcpSegment)
      → segs ≡ xs ++ (old ∷ ys)
      → old.sn ≡ seg.sn
      → Adds seg segs segs
  added : (xs ys : List KcpSegment) → segs ≡ xs ++ ys → Adds seg segs (xs ++ (seg ∷ ys))

insert_at :
    (seg : KcpSegment) (xs ys : List KcpSegment)
    → insert (length xs) seg (xs ++ ys) ≡ xs ++ (seg ∷ ys)
unfolding insert
insert_at seg xs ys = rw (take-length-append xs ys, drop-length-append xs ys)

pub record Placed (base hi : ℕ) (seg : KcpSegment) (segs after : List KcpSegment) : Type 0 where
  pub adds : Adds seg segs after
  pub ordered : IsOrdered base 0 hi after

pub placed-Placed :
    (base hi : ℕ) (seg : KcpSegment) (segs : List KcpSegment)
    → IsU32 base
    → IsU32 seg.sn
    → ahead base seg < hi
    → hi ≤ 2 ^ 31
    → IsOrdered base 0 hi segs
    → Placed base hi seg segs (placed seg segs)
unfolding placed
placed-Placed base hi seg segs hb hs hd hh o = go _ refl place
  where
    place : Place base seg.sn (reverse segs) (find_place seg.sn (reverse segs) (length segs))
    place = rw (← length-reverse segs) (
        find_place-Place base hi seg.sn (reverse segs) hb hs (omega arith) hh
          (IsFalling-reverse base 0 hi segs o))

    go :
        (p : Bool × ℕ)
        → find_place seg.sn (reverse segs) (length segs) ≡ p
        → Place base seg.sn (reverse segs) p
        → Placed base hi seg segs (placed seg segs)
    go _ e (found later earlier old split n i) =
        let whole : segs ≡ reverse earlier ++ (old ∷ reverse later) =
          sym (reverse-reverse segs)
          ∙ ap reverse split
          ∙ reverse-append later (old ∷ earlier)
          ∙ ap (λ q. q ++ reverse later) (reverse-cons old earlier)
          ∙ append_assoc (reverse earlier) (old ∷ []) (reverse later) in
        rw e (record { adds = same (reverse earlier) (reverse later) old whole n; ordered = o })
    go _ e (between later earlier split a b i l) =
        let xs = reverse earlier in
        let ys = reverse later in
        let whole : segs ≡ xs ++ ys =
          sym (reverse-reverse segs) ∙ ap reverse split ∙ reverse-append later earlier in
        let put : insert i seg segs ≡ xs ++ (seg ∷ ys) = cc (
          ap (λ n. insert n seg segs) (l ∙ sym (length-reverse earlier)),
          ap (insert (length xs) seg) whole,
          insert_at seg xs ys,
        ) in
        rw (e, put)
          (record {
            adds = added xs ys whole;
            ordered =
                IsOrdered-insert base 0 hi seg xs ys hs (omega arith) hd
                  (All-reverse (λ s. ahead base s < ahead base seg) earlier b)
                  (All-reverse (λ s. ahead base seg < ahead base s) later a)
                  (subst (IsOrdered base 0 hi) whole o);
          })
