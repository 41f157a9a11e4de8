-- ===== src/Kcp/Sequence.antt =====
-- Buffers in the order of their sequence numbers, which wrap: distances are taken from a base.
use kcp_scream_testspace.Common.{
  ℕ, ◌+◌, ◌≤◌, ◌<◌, ◌≡◌, List, [], ◌∷◌, ◌++◌, arith, IsU32, All, refl,
}
use kcp_scream_testspace.Kcp.Segment.{KcpSegment}
use kcp_scream_testspace.Kcp.State.{timediff}

-- How far a segment is ahead of `base`.
abbrev pub ahead : ℕ → KcpSegment → ℕ
ahead base seg = timediff seg.sn base

-- The distances from `base` are at least `lo`, grow strictly, and stay below `hi`.
abbrev pub IsOrdered : ℕ → ℕ → ℕ → List KcpSegment → Type 0
IsOrdered base lo hi [] = Unit {0}
IsOrdered base lo hi (seg ∷ segs) =
    IsU32 seg.sn
    × (lo ≤ ahead base seg)
    × (ahead base seg < hi)
    × IsOrdered base (ahead base seg + 1) hi segs

pub IsOrdered-mono :
    (base lo lo' hi : ℕ) (segs : List KcpSegment)
    → lo' ≤ lo
    → IsOrdered base lo hi segs
    → IsOrdered base lo' hi segs
IsOrdered-mono base lo lo' hi [] h o = tt
IsOrdered-mono base lo lo' hi (seg ∷ segs) h o = (o.0, omega arith, o.2, o.3)

pub IsOrdered-All :
    (base lo hi : ℕ) (segs : List KcpSegment)
    → IsOrdered base lo hi segs
    → All (λ seg. lo ≤ ahead base seg) segs
IsOrdered-All base lo hi [] o = tt
IsOrdered-All base lo hi (seg ∷ segs) o = (
  o.1,
  IsOrdered-All base lo hi segs
      (IsOrdered-mono base (ahead base seg + 1) lo hi segs (omega arith) o.3),
)

-- A base between another base and a number divides the distance.
pub timediff_between :
    (base base' sn : ℕ)
    → IsU32 base
    → IsU32 base'
    → IsU32 sn
    → timediff base' base ≤ timediff sn base
    → timediff sn base' + timediff base' base ≡ timediff sn base
unfolding timediff
timediff_between base base' sn h1 h2 h3 h = omega arith

-- The order seen from a later base that no segment is before.
pub IsOrdered-rebase :
    (base base' lo lo' hi hi' : ℕ) (segs : List KcpSegment)
    → IsU32 base
    → IsU32 base'
    → lo ≡ lo' + timediff base' base
    → hi ≡ hi' + timediff base' base
    → IsOrdered base lo hi segs
    → IsOrdered base' lo' hi' segs
IsOrdered-rebase base base' lo lo' hi hi' [] hb hb' e1 e2 o = tt
IsOrdered-rebase base base' lo lo' hi hi' (seg ∷ segs) hb hb' e1 e2 o =
    let d = timediff_between base base' seg.sn hb hb' o.0 (omega arith) in
    (
      o.0,
      omega (arith, d),
      omega (arith, d),
      IsOrdered-rebase base base' (ahead base seg + 1) (ahead base' seg + 1) hi hi' segs hb hb'
          (omega (arith, d)) e2 o.3,
    )

pub timediff-lt : (a b : ℕ) → IsU32 (timediff a b)
unfolding timediff
timediff-lt a b = omega arith

pub timediff_self : (a : ℕ) → IsU32 a → timediff a a ≡ 0
unfolding timediff
timediff_self a h = omega arith

pub IsOrdered-append :
    (base lo mid hi : ℕ) (xs ys : List KcpSegment)
    → lo ≤ mid
    → mid ≤ hi
    → IsOrdered base lo mid xs
    → IsOrdered base mid hi ys
    → IsOrdered base lo hi (xs ++ ys)
IsOrdered-append base lo mid hi [] ys h1 h2 o1 o2 = IsOrdered-mono base mid lo hi ys h1 o2
IsOrdered-append base lo mid hi (x ∷ xs) ys h1 h2 o1 o2 = (
  o1.0,
  o1.1,
  omega (arith, o1.2, h2),
  IsOrdered-append base (ahead base x + 1) mid hi xs ys (omega (arith, o1.2)) h2 o1.3 o2,
)

-- The same numbers in the same order.
abbrev pub SameSns : List KcpSegment → List KcpSegment → Type 0
SameSns [] [] = Unit {0}
SameSns [] (y ∷ ys) = ⊥
SameSns (x ∷ xs) [] = ⊥
SameSns (x ∷ xs) (y ∷ ys) = (y.sn ≡ x.sn) × SameSns xs ys

pub SameSns-refl : (xs : List KcpSegment) → SameSns xs xs
SameSns-refl [] = tt
SameSns-refl (x ∷ xs) = (refl, SameSns-refl xs)

pub SameSns-IsOrdered :
    (base lo hi : ℕ) (xs ys : List KcpSegment)
    → SameSns xs ys
    → IsOrdered base lo hi xs
    → IsOrdered base lo hi ys
SameSns-IsOrdered base lo hi [] [] s o = tt
SameSns-IsOrdered base lo hi [] (y ∷ ys) s o = absurd s
SameSns-IsOrdered base lo hi (x ∷ xs) [] s o = absurd s
SameSns-IsOrdered base lo hi (x ∷ xs) (y ∷ ys) s o =
    rw s.0 (o.0, o.1, o.2, SameSns-IsOrdered base (ahead base x + 1) hi xs ys s.1 o.3)

pub IsOrdered-widen :
    (base lo hi hi' : ℕ) (segs : List KcpSegment)
    → hi ≤ hi'
    → IsOrdered base lo hi segs
    → IsOrdered base lo hi' segs
IsOrdered-widen base lo hi hi' [] h o = tt
IsOrdered-widen base lo hi hi' (seg ∷ segs) h o =
    (o.0, o.1, omega (arith, o.2, h), IsOrdered-widen base (ahead base seg + 1) hi hi' segs h o.3)
