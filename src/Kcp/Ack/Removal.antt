-- ===== src/Kcp/Ack/Removal.antt =====
-- `parse_ack` and `parse_una` of kcp/src/kcp.rs: what an acknowledgement takes out of `snd_buf`.
use kcp_scream_testspace.Common.{
  ℕ, ◌+◌, ◌^◌, ◌≤◌, ◌<◌, ◌≡◌, refl, ap, false, List, [], ◌∷◌, ◌++◌, All, IsU32, arith, ltb, ◌==◌,
  if◌then◌else◌, Bool-cases, inl, inr, is_positive, All-map, length, subst,
}
use kcp_scream_testspace.Kcp.Segment.{KcpSegment}
use kcp_scream_testspace.Kcp.State.{Kcp, timediff}
use kcp_scream_testspace.Kcp.Sequence.{ahead, IsOrdered, IsOrdered-mono, IsOrdered-All}
use kcp_scream_testspace.Kcp.Ack.{
  remove_sn, drop_una, count_fastack, parse_ack, parse_una, is_outside,
}

pub drop_una-IsOrdered :
    (una base lo hi : ℕ) (segs : List KcpSegment)
    → IsOrdered base lo hi segs
    → IsOrdered base lo hi (drop_una una segs)
unfolding drop_una
drop_una-IsOrdered una base lo hi [] o = tt
drop_una-IsOrdered una base lo hi (seg ∷ segs) o = ground (
  arith,
  drop_una-IsOrdered una base lo hi segs,
  IsOrdered-mono base (ahead base seg + 1) lo hi segs,
)

pub remove_sn-IsOrdered :
    (sn base lo hi : ℕ) (segs : List KcpSegment)
    → IsOrdered base lo hi segs
    → IsOrdered base lo hi (remove_sn sn segs)
unfolding remove_sn
remove_sn-IsOrdered sn base lo hi [] o = tt
remove_sn-IsOrdered sn base lo hi (seg ∷ segs) o = ground (
  arith,
  remove_sn-IsOrdered sn base (ahead base seg + 1) hi segs,
  IsOrdered-mono base (ahead base seg + 1) lo hi segs,
)

pub count_fastack-IsOrdered :
    (sn ts base lo hi : ℕ) (segs : List KcpSegment)
    → IsOrdered base lo hi segs
    → IsOrdered base lo hi (count_fastack sn ts segs)
unfolding count_fastack
count_fastack-IsOrdered sn ts base lo hi [] o = tt
count_fastack-IsOrdered sn ts base lo hi (seg ∷ segs) o =
    ground (arith, count_fastack-IsOrdered sn ts base (ahead base seg + 1) hi segs)

-- A cumulative acknowledgement cuts the buffer in two at `una`.
pub record Cuts (una base : ℕ) (segs kept : List KcpSegment) : Type 0 where
  pub gone : List KcpSegment
  pub split_eq : segs ≡ gone ++ kept
  pub below : All (λ seg. ahead base seg < timediff una base) gone
  pub above : All (λ seg. timediff una base ≤ ahead base seg) kept

-- The test of the loop, for numbers less than half the range apart.
una_test :
    (una base sn : ℕ)
    → IsU32 una
    → IsU32 base
    → IsU32 sn
    → timediff una base < 2 ^ 31
    → timediff sn base < 2 ^ 31
    → is_positive (timediff una sn) ≡ ltb (timediff sn base) (timediff una base)
unfolding timediff
una_test una base sn h1 h2 h3 h4 h5 = ground arith

drop_una-Cuts :
    (una base lo hi : ℕ) (segs : List KcpSegment)
    → IsU32 una
    → IsU32 base
    → timediff una base < 2 ^ 31
    → hi ≤ 2 ^ 31
    → IsOrdered base lo hi segs
    → Cuts una base segs (drop_una una segs)
unfolding drop_una
drop_una-Cuts una base lo hi [] hu hb h1 h2 o = record {
  gone = [];
  split_eq = refl;
  below = tt;
  above = tt;
}
drop_una-Cuts una base lo hi (seg ∷ segs) hu hb h1 h2 o =
    let test = una_test una base seg.sn hu hb o.0 h1 (omega arith) in
    elim (Bool-cases (ltb (ahead base seg) (timediff una base))) [
      | inl old ↦
          let c = drop_una-Cuts una base (ahead base seg + 1) hi segs hu hb h1 h2 o.3 in
          rw (test, old)
            (record {
              gone = seg ∷ c.gone;
              split_eq = ap (◌∷◌ seg) c.split_eq;
              below = (ground arith, c.below);
              above = c.above;
            })
      | inr new ↦
          rw (test, new)
            (record {
              gone = [];
              split_eq = refl;
              below = tt;
              above = (
                ground arith,
                All-map (λ s. ahead base seg + 1 ≤ ahead base s)
                    (λ s. timediff una base ≤ ahead base s) (λ s h. ground arith) segs
                    (IsOrdered-All base (ahead base seg + 1) hi segs o.3),
              );
            })
    ]

-- `parse_una` takes from the front of an ordered `snd_buf` exactly the segments before `una`, and
-- keeps the others in order, wherever the numbers wrap, if `una` and they lie less than half the
-- range ahead of `snd_una`.
pub parse_una-Cuts :
    {O : Type 0} (una hi : ℕ) (k : Kcp O)
    → IsU32 una
    → IsU32 k.snd_una
    → timediff una k.snd_una < 2 ^ 31
    → hi ≤ 2 ^ 31
    → IsOrdered k.snd_una 0 hi k.snd_buf
    → Cuts una k.snd_una k.snd_buf (parse_una una k).snd_buf
      × IsOrdered k.snd_una 0 hi (parse_una una k).snd_buf
unfolding parse_una
parse_una-Cuts una hi k hu hb h1 h2 o = (
  drop_una-Cuts una k.snd_una 0 hi k.snd_buf hu hb h1 h2 o,
  drop_una-IsOrdered una k.snd_una 0 hi k.snd_buf o,
)

-- The buffer less one sequence number: what a selective acknowledgement means.
pub without : ℕ → List KcpSegment → List KcpSegment
without sn [] = []
without sn (seg ∷ segs) = if sn == seg.sn then without sn segs else seg ∷ without sn segs

-- Without wrap-around an ordered buffer holds no number twice, and none below a number's place.
without-above :
    (sn base lo hi : ℕ) (segs : List KcpSegment)
    → IsU32 base
    → base + hi ≤ 2 ^ 32
    → sn < base + lo
    → IsOrdered base lo hi segs
    → without sn segs ≡ segs
unfolding without timediff
without-above sn base lo hi [] hb hw hs o = refl
without-above sn base lo hi (seg ∷ segs) hb hw hs o =
    ground (arith, without-above sn base (ahead base seg + 1) hi segs)

remove_sn-without :
    (sn base lo hi : ℕ) (segs : List KcpSegment)
    → IsU32 base
    → base + hi ≤ 2 ^ 32
    → IsOrdered base lo hi segs
    → remove_sn sn segs ≡ without sn segs
unfolding remove_sn without timediff
remove_sn-without sn base lo hi [] hb hw o = refl
remove_sn-without sn base lo hi (seg ∷ segs) hb hw o = ground (
  arith,
  without-above sn base (ahead base seg + 1) hi segs,
  remove_sn-without sn base (ahead base seg + 1) hi segs,
)

-- A selective acknowledgement of a number that was sent and is not yet acknowledged removes that
-- number from an ordered `snd_buf` and nothing else, if the numbers of the buffer do not wrap.
pub parse_ack-without :
    {O : Type 0} (sn hi : ℕ) (k : Kcp O)
    → IsU32 k.snd_una
    → k.snd_una + hi ≤ 2 ^ 32
    → IsOrdered k.snd_una 0 hi k.snd_buf
    → is_outside sn k ≡ false
    → (parse_ack sn k).snd_buf ≡ without sn k.snd_buf
unfolding parse_ack
parse_ack-without sn hi k hb hw o h = rw h (remove_sn-without sn k.snd_una 0 hi k.snd_buf hb hw o)

IsOrdered-seg :
    (base lo hi : ℕ) (xs ys : List KcpSegment) (seg : KcpSegment)
    → IsOrdered base lo hi (xs ++ (seg ∷ ys))
    → IsU32 seg.sn × (ahead base seg < hi)
IsOrdered-seg base lo hi [] ys seg o = (o.0, o.2)
IsOrdered-seg base lo hi (x ∷ xs) ys seg o = IsOrdered-seg base (ahead base x + 1) hi xs ys seg o.3

length-without-le : (sn : ℕ) (segs : List KcpSegment) → length (without sn segs) ≤ length segs
unfolding without
length-without-le sn [] = omega arith
length-without-le sn (seg ∷ segs) = ground (arith, length-without-le sn segs)

length-without-lt :
    (xs ys : List KcpSegment) (seg : KcpSegment)
    → length (without seg.sn (xs ++ (seg ∷ ys))) < length (xs ++ (seg ∷ ys))
unfolding without
length-without-lt [] ys seg = ground (arith, length-without-le seg.sn ys)
length-without-lt (x ∷ xs) ys seg = ground (arith, length-without-lt xs ys seg)

-- Numbers between `snd_una` and `snd_nxt` pass the first test of `parse_ack`.
inside :
    {O : Type 0} (sn : ℕ) (k : Kcp O)
    → IsU32 sn
    → IsU32 k.snd_una
    → IsU32 k.snd_nxt
    → timediff k.snd_nxt k.snd_una < 2 ^ 16
    → timediff sn k.snd_una < timediff k.snd_nxt k.snd_una
    → is_outside sn k ≡ false
unfolding timediff
inside sn k h1 h2 h3 h4 h5 = ground arith

-- Where the numbers in flight wrap, a selective acknowledgement beyond the wrap is lost. In a buffer
-- in order, whose first segment bears `snd_una`, and with less than 2 ^ 16 numbers in flight: a
-- segment whose number is smaller than `snd_una` as a plain number passes the test of what was sent
-- and not yet acknowledged, and without its number the buffer would be shorter; but `parse_ack` of
-- that number leaves the buffer as it is.
pub parse_ack_wrapped :
    {O : Type 0} (k : Kcp O) (first seg : KcpSegment) (xs ys : List KcpSegment)
    → IsU32 k.snd_una
    → IsU32 k.snd_nxt
    → timediff k.snd_nxt k.snd_una < 2 ^ 16
    → IsOrdered k.snd_una 0 (timediff k.snd_nxt k.snd_una) k.snd_buf
    → k.snd_buf ≡ first ∷ (xs ++ (seg ∷ ys))
    → first.sn ≡ k.snd_una
    → seg.sn < k.snd_una
    → (is_outside seg.sn k ≡ false)
      × (length (without seg.sn k.snd_buf) < length k.snd_buf)
      × ((parse_ack seg.sn k).snd_buf ≡ k.snd_buf)
unfolding parse_ack remove_sn
parse_ack_wrapped k first seg xs ys hu hn near o e base wrapped =
    let o' : IsOrdered k.snd_una 0 (timediff k.snd_nxt k.snd_una) (first ∷ (xs ++ (seg ∷ ys))) =
      subst (λ segs. IsOrdered k.snd_una 0 (timediff k.snd_nxt k.snd_una) segs) e o in
    let at = IsOrdered-seg k.snd_una 0 (timediff k.snd_nxt k.snd_una) (first ∷ xs) ys seg o' in
    (
      inside seg.sn k at.0 hu hn near at.1,
      rw e (length-without-lt (first ∷ xs) ys seg),
      ground arith,
    )
