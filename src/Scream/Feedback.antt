-- ===== src/Scream/Feedback.antt =====
-- The feedback packets of tokio_kcp/src/scream.rs: `create_feedback_packet` and `on_feedback`.
use kcp_scream_testspace.Common.{
  ℕ, ◌/◌, ◌^◌, ◌≡◌, refl, Bool, true, false, Option, none, some, List, [], ◌∷◌, ◌++◌, All, length,
  arith, IsU32, le32, le32-put, put_u32_le, sym, inl, inr, Bool-cases, ◌==◌, if◌then◌else◌,
}
use kcp_scream_testspace.Scream.Floats.{Float}
use kcp_scream_testspace.Scream.State.{FeedbackPacketInfo, Scream}
use kcp_scream_testspace.Scream.{on_ack_scream}

-- `u64::to_le_bytes`.
unfoldable pub put_u64_le : ℕ → List ℕ
unfolding put_u32_le
put_u64_le x = put_u32_le x ++ put_u32_le (x / 2 ^ 32)

unfoldable pub feedback_data : List FeedbackPacketInfo → List ℕ
feedback_data [] = []
feedback_data (info ∷ infos) =
    put_u32_le info.seq_number ++ (put_u64_le info.reception_time_ms ++ feedback_data infos)

module _ {F : Type 0} where
  unfoldable pub create_feedback_packet : ℕ → Scream F → Option (List ℕ) × Scream F
  create_feedback_packet now s =
      if length s.received == 0
      then (none, s)
      else (some (feedback_data s.received), record s { received = []; last_feedback_time = now })

module _ {F : Type 0} ⦃f : Float F⦄ where
  -- `on_feedback`: an incomplete chunk at the end is left alone.
  unfoldable pub on_feedback : List ℕ → ℕ → ℕ → Scream F → Scream F
  on_feedback (b0 ∷ b1 ∷ b2 ∷ b3 ∷ b4 ∷ b5 ∷ b6 ∷ b7 ∷ b8 ∷ b9 ∷ b10 ∷ b11 ∷ rest) ack_time now s =
      on_feedback rest ack_time now (on_ack_scream (le32 b0 b1 b2 b3) ack_time now s)
  on_feedback _ ack_time now s = s

  -- The acknowledgement of a list of packets, one after the other.
  abbrev pub ack_all : List FeedbackPacketInfo → ℕ → ℕ → Scream F → Scream F
  ack_all [] ack_time now s = s
  ack_all (info ∷ infos) ack_time now s =
      ack_all infos ack_time now (on_ack_scream info.seq_number ack_time now s)

  on_feedback-feedback_data :
      (infos : List FeedbackPacketInfo) (ack_time now : ℕ) (s : Scream F)
      → All (λ info. IsU32 info.seq_number) infos
      → on_feedback (feedback_data infos) ack_time now s ≡ ack_all infos ack_time now s
  unfolding on_feedback feedback_data put_u64_le put_u32_le
  on_feedback-feedback_data [] ack_time now s a = refl
  on_feedback-feedback_data (info ∷ infos) ack_time now s a = rw (le32-put info.seq_number a.0) (
      on_feedback-feedback_data infos ack_time now (on_ack_scream info.seq_number ack_time now s)
        a.1)

  sent_bytes :
      (b : Bool) (r r' : Scream F) (infos : List FeedbackPacketInfo) (bytes : List ℕ)
      → let made : Option (List ℕ) × Scream F =
          if b then (none, r) else (some (feedback_data infos), r') in
        made.0 ≡ some bytes → feedback_data infos ≡ bytes
  sent_bytes true r r' infos bytes e = ground arith
  sent_bytes false r r' infos bytes e = ground arith

  -- What one end reports in `create_feedback_packet` the other end takes in `on_feedback` as the
  -- acknowledgement of each packet that was received, in order, if the numbers are `u32`s.
  -- Afterwards there is nothing left to report.
  pub on_feedback-create :
      (sent now : ℕ) (bytes : List ℕ) (receiver s : Scream F) (ack_time ack_now : ℕ)
      → All (λ info. IsU32 info.seq_number) receiver.received
      → (create_feedback_packet now receiver).0 ≡ some bytes
      → (on_feedback bytes ack_time ack_now s ≡ ack_all receiver.received ack_time ack_now s)
        × ((create_feedback_packet sent (create_feedback_packet now receiver).1).0 ≡ none)
  unfolding create_feedback_packet
  on_feedback-create sent now bytes receiver s ack_time ack_now a e =
      let packed =
        sent_bytes (length receiver.received == 0) receiver _ receiver.received bytes e in
      (
        rw (sym packed) (on_feedback-feedback_data receiver.received ack_time ack_now s a),
        elim (Bool-cases (length receiver.received == 0)) [
          | inl empty ↦ rw (empty, empty) refl
          | inr other ↦ rw other refl
        ],
      )
