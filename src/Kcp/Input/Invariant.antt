-- ===== src/Kcp/Input/Invariant.antt =====
-- `input` of kcp/src/kcp.rs as a whole, and the order of both sequence spaces.
use kcp_scream_testspace.Common.{All-drop, ℕ, ◌≡◌, some, List, ◌∷◌, All, take, arith, IsU8, IsU32}
use kcp_scream_testspace.Kcp.Segment.{Header, get_header}
use kcp_scream_testspace.Kcp.State.{Kcp}
use kcp_scream_testspace.Kcp.Invariant.{IsConsistent, SameBoth-IsConsistent}
use kcp_scream_testspace.Kcp.Input.Rule.{InputRules, input_rule, take_push_rule}
use kcp_scream_testspace.Kcp.Input.{input, pushed}
use kcp_scream_testspace.Kcp.Input.Steps.{
  parse_una-IsConsistent, shrink_buf-IsConsistent, parse_ack-IsConsistent,
  parse_fastack-IsConsistent, parse_data-IsConsistent,
}

-- The numbers of a header that was read from bytes are words.
get_header-IsU32 :
    (bytes : List ℕ) (h : Header) (rest : List ℕ)
    → All IsU8 bytes
    → get_header bytes ≡ some (h, rest)
    → IsU32 h.sn × All IsU8 rest
unfolding get_header
get_header-IsU32
      (c0 ∷ c1 ∷ c2 ∷ c3 ∷ cmd ∷ frg ∷ w0 ∷ w1 ∷ t0 ∷ t1 ∷ t2 ∷ t3 ∷ s0 ∷ s1 ∷ s2 ∷ s3 ∷ u0 ∷ u1
        ∷ u2 ∷ u3 ∷ l0 ∷ l1 ∷ l2 ∷ l3 ∷ tail)
      h rest a e =
    ground arith
get_header-IsU32 _ h rest a e = cc

module _ {O : Type 0} where
  IsConsistent-input : InputRules {O = O} IsConsistent (λ h rest. IsU32 h.sn)
  IsConsistent-input = record {
    same = λ k k' s v. SameBoth-IsConsistent k k' (s.5, s.11, s.6) (s.9, s.4, s.3, s.10) v;
    shrunk = shrink_buf-IsConsistent;
    una = λ h rest k n v. parse_una-IsConsistent h.una k v;
    acked = λ h rest k n ack v. parse_ack-IsConsistent h.sn k v;
    passed = parse_fastack-IsConsistent;
    arrived = λ h rest p n push v.
        take_push_rule IsConsistent h rest p
          (λ k k' s v'. SameBoth-IsConsistent k k' (s.5, s.11, s.6) (s.9, s.4, s.3, s.10) v')
          (λ k v'. parse_data-IsConsistent (pushed h (take h.len rest)) k n v') v;
  }

  -- Whatever bytes arrive, and whether `input` returns `Ok` or an error, it leaves a consistent
  -- state: the receive buffer in order, each number once, inside the window, and the segments in
  -- flight in order, each number once, between `snd_una` and `snd_nxt`.
  pub input-IsConsistent :
      (bytes : List ℕ) (k : Kcp O)
      → All IsU8 bytes
      → IsConsistent k
      → IsConsistent (input bytes k).1
  input-IsConsistent bytes k a v =
      input_rule IsConsistent (λ h rest. IsU32 h.sn) IsConsistent-input (All IsU8)
        (λ bytes h rest a' e.
          let w = get_header-IsU32 bytes h rest a' e in (w.0, All-drop IsU8 h.len rest w.1))
        bytes k a v
