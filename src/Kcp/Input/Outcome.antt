-- ===== src/Kcp/Input/Outcome.antt =====
-- How `input` of kcp/src/kcp.rs ends: its results, and the fuel of its loop.
use kcp_scream_testspace.Common.{
  ℕ, zero, suc, ◌+◌, ◌≤◌, ◌≡◌, ◌≢◌, inl, inr, refl, ap, none, some, List, ◌∷◌, length, drop, arith,
  Option-cases, length-drop,
}
use kcp_scream_testspace.Kcp.Segment.{Header, get_header, kcp_overhead}
use kcp_scream_testspace.Kcp.State.{Kcp, Error, Result, ok, err, panic}
use kcp_scream_testspace.Kcp.Input.{Progress, check_conv, round, input_loop}

pub get_header-length :
    (bytes : List ℕ) {h : Header} {rest : List ℕ}
    → get_header bytes ≡ some (h, rest)
    → length bytes ≡ kcp_overhead + length rest
unfolding get_header
get_header-length
      (c0 ∷ c1 ∷ c2 ∷ c3 ∷ cmd ∷ frg ∷ w0 ∷ w1 ∷ t0 ∷ t1 ∷ t2 ∷ t3 ∷ s0 ∷ s1 ∷ s2 ∷ s3 ∷ u0 ∷ u1
        ∷ u2 ∷ u3 ∷ l0 ∷ l1 ∷ l2 ∷ l3 ∷ tail)
      e =
    ground arith
get_header-length _ e = cc

module _ {O : Type 0} where
  check_conv-ne-panic : (conv : ℕ) (k : Kcp O) → check_conv conv k ≢ panic
  unfolding check_conv
  check_conv-ne-panic conv k e = ground arith

  round-ne-panic : (h : Header) (rest : List ℕ) (p : Progress O) → (round h rest p).0 ≢ panic
  unfolding round
  round-ne-panic h rest p e = ground (arith, check_conv-ne-panic h.conv p.kcp)

  -- A run of the loop, with no fuel: it ends at the last header, or at a segment that is refused.
  pub data Runs : List ℕ → Progress O → Result (Unit {0}) × Progress O → Type 0 where
    stop : (bytes : List ℕ) (p : Progress O) → get_header bytes ≡ none → Runs bytes p (ok tt, p)
    refuse :
        (bytes : List ℕ) (p p' : Progress O) (h : Header) (rest : List ℕ) (e : Error)
        → get_header bytes ≡ some (h, rest)
        → round h rest p ≡ (err e, p')
        → Runs bytes p (err e, p')
    more :
        (bytes : List ℕ) (p p' : Progress O) (h : Header) (rest : List ℕ)
        (r : Result (Unit {0}) × Progress O)
        → get_header bytes ≡ some (h, rest)
        → round h rest p ≡ (ok tt, p')
        → Runs (drop h.len rest) p' r
        → Runs bytes p r

  input_loop-stop :
      (fuel : ℕ) (bytes : List ℕ) (p : Progress O)
      → get_header bytes ≡ none
      → Runs bytes p (input_loop (suc fuel) bytes p)
  unfolding input_loop
  input_loop-stop fuel bytes p e = rw (e, input_loop) (stop bytes p e)

  input_loop-step :
      (fuel : ℕ) (bytes : List ℕ) (p : Progress O) (h : Header) (rest : List ℕ)
      → get_header bytes ≡ some (h, rest)
      → ((p' : Progress O) → Runs (drop h.len rest) p' (input_loop fuel (drop h.len rest) p'))
      → (r : Result (Unit {0}) × Progress O) → round h rest p ≡ r
      → Runs bytes p (input_loop (suc fuel) bytes p)
  unfolding input_loop
  input_loop-step fuel bytes p h rest e ih (ok _, p') q =
      rw (e, input_loop, q) (more bytes p p' h rest _ e q (ih p'))
  input_loop-step fuel bytes p h rest e ih (err x, p') q =
      rw (e, input_loop, q) (refuse bytes p p' h rest x e q)
  input_loop-step fuel bytes p h rest e ih (panic, p') q =
      absurd (round-ne-panic h rest p (ap (λ r. r.0) q))

  -- With a byte of fuel for each byte of the datagram, and one at least, the loop ends by itself.
  pub input_loop-Runs :
      (fuel : ℕ) (bytes : List ℕ) (p : Progress O)
      → 1 ≤ fuel
      → length bytes ≤ fuel
      → Runs bytes p (input_loop fuel bytes p)
  input_loop-Runs zero bytes p h1 h2 = absurd (omega arith)
  input_loop-Runs (suc fuel) bytes p h1 h2 = elim (Option-cases (get_header bytes)) [
    | inl e ↦ input_loop-stop fuel bytes p e
    | inr ((h, rest), e) ↦
        input_loop-step fuel bytes p h rest e
          (λ p'.
            input_loop-Runs fuel (drop h.len rest) p' (omega (arith, get_header-length bytes e))
              (omega (arith, get_header-length bytes e, length-drop h.len rest)))
          (round h rest p) refl
  ]
