-- ===== src/Kcp/Clock/Wait.antt =====
-- The times that `update` sets and that `check` returns.
use kcp_scream_testspace.Common.{
  ℕ, ◌-◌, ◌^◌, ◌≤◌, ◌<◌, ◌≡◌, refl, true, false, Option, none, some, List, [], ◌∷◌, All, arith, ◌⊎◌,
  if◌then◌else◌, ltb, inl, inr, Bool-cases, is_negative, is_positive, IsU32, max,
}
use kcp_scream_testspace.Kcp.Segment.{KcpSegment}
use kcp_scream_testspace.Kcp.State.{Kcp, timediff}
use kcp_scream_testspace.Kcp.Sequence.{timediff_self}
use kcp_scream_testspace.Kcp.Clock.{is_far, next_packet, wait, tick, check}

-- The segment's timer runs out in `ms` or later, less than half the range of the clock ahead.
abbrev pub IsLater : ℕ → ℕ → KcpSegment → Type 0
IsLater current ms seg =
    (ms ≤ timediff seg.resendts current) × (timediff seg.resendts current < 2 ^ 31)

IsLater-All :
    (current ms ms' : ℕ) (segs : List KcpSegment)
    → ms ≤ ms'
    → All (IsLater current ms') segs
    → All (IsLater current ms) segs
IsLater-All current ms ms' [] h a = tt
IsLater-All current ms ms' (seg ∷ segs) h a =
    ((omega (arith, a.0.0), a.0.1), IsLater-All current ms ms' segs h a.1)

-- What the loop of `check` finds: nothing if a timer has run out, or else a time of at most `tm`
-- that no timer is before.
abbrev Waits : ℕ → ℕ → List KcpSegment → Option ℕ → Type 0
Waits current tm segs none = ¬ All (IsLater current 1) segs
Waits current tm segs (some found) = (0 < found) × (found ≤ tm) × All (IsLater current found) segs

Waits-cons :
    (current tm tm' : ℕ) (seg : KcpSegment) (segs : List KcpSegment) (o : Option ℕ)
    → timediff seg.resendts current < 2 ^ 31
    → tm' ≤ tm
    → tm' ≤ timediff seg.resendts current
    → Waits current tm' segs o
    → Waits current tm (seg ∷ segs) o
Waits-cons current tm tm' seg segs none hp h h' v = λ a. v a.1
Waits-cons current tm tm' seg segs (some found) hp h h' v =
    (v.0, omega (arith, v.1), ((omega (arith, v.1), hp), v.2))

next_packet-Waits :
    (current tm : ℕ) (segs : List KcpSegment)
    → 0 < tm
    → Waits current tm segs (next_packet current segs tm)
unfolding next_packet
next_packet-Waits current tm [] h = ground arith
next_packet-Waits current tm (seg ∷ segs) h =
    let diff = timediff seg.resendts current in
    elim (Bool-cases (is_positive diff)) [
      | inr due ↦ rw due (λ a. ground arith)
      | inl later ↦
          let tm' = if ltb diff tm then diff else tm in
          rw later (
            Waits-cons current tm tm' seg segs (next_packet current segs tm') (ground arith)
              (ground arith) (ground arith) (next_packet-Waits current tm' segs (ground arith)))
    ]

-- What a time `ms` that `check` returns says of the state.
abbrev pub Promises : {O : Type 0} → ℕ → Kcp O → ℕ → Type 0
Promises current k ms =
    ((0 < ms)
      × (ms ≤ k.interval)
      × (ms ≤ timediff k.ts_flush current)
      × All (IsLater current ms) k.snd_buf)
    ⊎ ((ms ≡ 0)
        × ((is_negative (timediff current k.ts_flush) ≡ false)
            ⊎ ((is_far (timediff current k.ts_flush) ≡ true)
                ⊎ ¬ All (IsLater current 1) k.snd_buf)))

wait-Promises :
    {O : Type 0} (current : ℕ) (k : Kcp O) (o : Option ℕ)
    → 0 < k.interval
    → 0 < timediff k.ts_flush current
    → Waits current (2 ^ 32 - 1) k.snd_buf o
    → Promises current k (wait k.interval (timediff k.ts_flush current) o)
unfolding wait
wait-Promises current k none hi ht v = inr (refl, inr (inr v))
wait-Promises current k (some found) hi ht v =
    let ms = wait k.interval (timediff k.ts_flush current) (some found) in
    let le : ms ≤ found = ground arith in
    inl (ground arith, ground arith, ground arith, IsLater-All current ms found k.snd_buf le v.2)

not_due-ahead :
    (current ts : ℕ)
    → IsU32 current
    → IsU32 ts
    → is_negative (timediff current ts) ≡ true
    → 0 < timediff ts current
unfolding timediff
not_due-ahead current ts hc ht e = ground arith

-- `check` of a state that was updated once, with an interval that is not 0, returns a time of one
-- of two kinds. If it is not 0, it is at most the interval, no timer in flight runs out before it,
-- and the next flush is no nearer. If it is 0, the flush is due, its clock is far off, or a timer
-- in flight has run out or is half the range away.
pub check-Promises :
    {O : Type 0} (current : ℕ) (k : Kcp O)
    → IsU32 current
    → IsU32 k.ts_flush
    → k.updated ≡ true
    → 0 < k.interval
    → Promises current k (check current k)
unfolding check
check-Promises current k hc ht hu hi =
    let tm = next_packet current k.snd_buf (2 ^ 32 - 1) in
    elim (Bool-cases (is_far (timediff current k.ts_flush))) [
      | inl far ↦
          let e : check current k ≡ 0 = rw (hu, far, timediff_self current hc) refl in
          rw e (inr (refl, inr (inl far)))
      | inr near ↦ elim (Bool-cases (is_negative (timediff current k.ts_flush))) [
        | inr due ↦
            let e : check current k ≡ 0 = rw (hu, near, due) refl in rw e (inr (refl, inl due))
        | inl ahead ↦
            let e : check current k ≡ wait k.interval (timediff k.ts_flush current) tm =
              rw (hu, near, ahead) refl in
            rw e (
              wait-Promises current k tm hi (not_due-ahead current k.ts_flush hc ht ahead)
                (next_packet-Waits current (2 ^ 32 - 1) k.snd_buf (omega arith)))
      ]
    ]

-- After `update` has set its clocks, the next flush is ahead, by at most the larger of the interval
-- and 10000 ms, and either a flush is due now or the time of the next is as before. The interval
-- is between 1 and 5000 ms.
pub tick-Next :
    {O : Type 0} (current : ℕ) (k : Kcp O)
    → IsU32 current
    → IsU32 k.ts_flush
    → 0 < k.interval
    → k.interval ≤ 5000
    → let (due, k') = tick current k in
      (k'.current ≡ current)
      × (k'.updated ≡ true)
      × (0 < timediff k'.ts_flush current)
      × (timediff k'.ts_flush current ≤ max k.interval 10000)
      × ((due ≡ true) ⊎ ((due ≡ false) × (k'.ts_flush ≡ k.ts_flush)))
unfolding tick is_far timediff
tick-Next current k hc ht h1 h2 = ground arith
