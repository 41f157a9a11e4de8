-- ===== src/Kcp/Receive/Search.antt =====
-- The search of `parse_data` for a segment's place in `rcv_buf`, from the back.
use mathlib.Core.List.{reverse-cons}
use kcp_scream_testspace.Common.{
  ℕ, suc, ◌+◌, ◌-◌, ◌^◌, ◌≤◌, ◌<◌, ◌≡◌, inl, inr, refl, ap, Bool, true, false, List, [], ◌∷◌, ◌++◌,
  reverse, All, All-append, IsU32, arith, ltb, ◌==◌, Bool-cases, length, is_positive,
}
use kcp_scream_testspace.Kcp.Segment.{KcpSegment}
use kcp_scream_testspace.Kcp.State.{timediff}
use kcp_scream_testspace.Kcp.Sequence.{ahead, IsOrdered, IsOrdered-All}
use kcp_scream_testspace.Kcp.Receive.{find_place}

-- An ordered buffer read from the back.
abbrev pub IsFalling : ℕ → ℕ → List KcpSegment → Type 0
IsFalling base hi [] = Unit {0}
IsFalling base hi (seg ∷ segs) =
    IsU32 seg.sn × (ahead base seg < hi) × IsFalling base (ahead base seg) segs

IsFalling-snoc :
    (base hi : ℕ) (segs : List KcpSegment) (seg : KcpSegment)
    → IsU32 seg.sn
    → ahead base seg < hi
    → All (λ s. ahead base seg + 1 ≤ ahead base s) segs
    → IsFalling base hi segs
    → IsFalling base hi (segs ++ (seg ∷ []))
IsFalling-snoc base hi [] seg h1 h2 a f = (h1, h2, tt)
IsFalling-snoc base hi (s ∷ segs) seg h1 h2 a f =
    (f.0, f.1, IsFalling-snoc base (ahead base s) segs seg h1 (omega arith) a.1 f.2)

pub All-reverse :
    (P : KcpSegment → Type 0) (segs : List KcpSegment) → All P segs → All P (reverse segs)
All-reverse P [] a = tt
All-reverse P (s ∷ segs) a =
    rw (reverse-cons s segs)
      (All-append P (reverse segs) (s ∷ []) (All-reverse P segs a.1) (a.0, tt))

pub IsFalling-reverse :
    (base lo hi : ℕ) (segs : List KcpSegment)
    → IsOrdered base lo hi segs
    → IsFalling base hi (reverse segs)
IsFalling-reverse base lo hi [] o = tt
IsFalling-reverse base lo hi (seg ∷ segs) o = rw (reverse-cons seg segs) (
    IsFalling-snoc base hi (reverse segs) seg o.0 o.2
      (All-reverse (λ s. ahead base seg + 1 ≤ ahead base s) segs
        (IsOrdered-All base (ahead base seg + 1) hi segs o.3))
      (IsFalling-reverse base (ahead base seg + 1) hi segs o.3))

IsFalling-All :
    (base hi d : ℕ) (segs : List KcpSegment)
    → hi ≤ d
    → IsFalling base hi segs
    → All (λ s. ahead base s < d) segs
IsFalling-All base hi d [] h f = tt
IsFalling-All base hi d (s ∷ segs) h f =
    (omega arith, IsFalling-All base (ahead base s) d segs (omega arith) f.2)

-- Where the search from the back ends: at the number itself, or between its neighbours.
pub data Place (base sn : ℕ) (segs : List KcpSegment) : Bool × ℕ → Type 0 where
  found :
      (xs ys : List KcpSegment) (old : KcpSegment)
      → segs ≡ xs ++ (old ∷ ys)
      → old.sn ≡ sn
      → (i : ℕ) → Place base sn segs (true, i)
  between :
      (later earlier : List KcpSegment)
      → segs ≡ later ++ earlier
      → All (λ s. timediff sn base < ahead base s) later
      → All (λ s. ahead base s < timediff sn base) earlier
      → (i : ℕ) → i ≡ length earlier
      → Place base sn segs (false, i)

place_test :
    (base sn a : ℕ)
    → IsU32 base
    → IsU32 sn
    → IsU32 a
    → timediff sn base < 2 ^ 31
    → timediff a base < 2 ^ 31
    → is_positive (timediff sn a) ≡ ltb (timediff a base) (timediff sn base)
unfolding timediff
place_test base sn a h1 h2 h3 h4 h5 = ground arith

past :
    (base sn a : ℕ)
    → IsU32 base
    → IsU32 sn
    → IsU32 a
    → (a == sn) ≡ false
    → ltb (timediff a base) (timediff sn base) ≡ false
    → timediff sn base < timediff a base
unfolding timediff
past base sn a h1 h2 h3 h4 h5 = ground arith

skip :
    (base sn : ℕ) (seg : KcpSegment) (segs : List KcpSegment) (p : Bool × ℕ)
    → timediff sn base < ahead base seg
    → Place base sn segs p
    → Place base sn (seg ∷ segs) p
skip base sn seg segs _ h (found xs ys old e o i) = found (seg ∷ xs) ys old (ap (◌∷◌ seg) e) o i
skip base sn seg segs _ h (between xs ys e a b i l) =
    between (seg ∷ xs) ys (ap (◌∷◌ seg) e) (h, a) b i l

pub find_place-Place :
    (base hi sn : ℕ) (segs : List KcpSegment)
    → IsU32 base
    → IsU32 sn
    → timediff sn base < 2 ^ 31
    → hi ≤ 2 ^ 31
    → IsFalling base hi segs
    → Place base sn segs (find_place sn segs (length segs))
unfolding find_place
find_place-Place base hi sn [] hb hs hd hh f = between [] [] refl tt tt 0 refl
find_place-Place base hi sn (seg ∷ segs) hb hs hd hh f = elim (Bool-cases (seg.sn == sn)) [
  | inl same ↦ rw same (found [] segs seg refl (ground arith) _)
  | inr other ↦ elim (Bool-cases (ltb (ahead base seg) (timediff sn base))) [
    | inl before ↦
        rw (other, place_test base sn seg.sn hb hs f.0 hd (omega arith), before)
          (between [] (seg ∷ segs) refl tt
            (
              ground arith,
              IsFalling-All base (ahead base seg) (timediff sn base) segs (ground arith) f.2,
            )
            _ refl)
    | inr after ↦
        rw
          (
            other,
            place_test base sn seg.sn hb hs f.0 hd (omega arith),
            after,
            sub_one (length segs),
          )
          (skip base sn seg segs _ (past base sn seg.sn hb hs f.0 other after)
            (find_place-Place base (ahead base seg) sn segs hb hs hd (omega arith) f.2))
  ]
]
  where
    sub_one : (n : ℕ) → suc n - 1 ≡ n
    sub_one n = omega arith
