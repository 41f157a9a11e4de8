-- ===== src/Kcp/Flush/Untouched.antt =====
-- The parts of `flush` in kcp/src/kcp.rs that write nothing, and the segments that they hand on.
use kcp_scream_testspace.Common.{
  ℕ, ◌+◌, ◌≡◌, refl, ◌∙◌, Bool, List, [], ◌∷◌, All, arith, Bool-cases, inl, inr, is_negative, u32,
}
use kcp_scream_testspace.Kcp.Segment.{KcpSegment, encoded_len}
use kcp_scream_testspace.Kcp.State.{Kcp, timediff}
use kcp_scream_testspace.Kcp.Flush.Resend.{
  Reason, quiet, first, timeout, fast, Sending, count_resend,
}
use kcp_scream_testspace.Kcp.Flush.{probe_wnd_size, stamp, admit, lower_cwnd}
use kcp_scream_testspace.Kcp.Flush.Fits.{IsShort, IsFit}

-- The fields that a flush works on beside its counters, and those of the receiver, are the same.
abbrev pub SameOutput : {O : Type 0} → Kcp O → Kcp O → Type 0
SameOutput k k' =
    (k'.output ≡ k.output)
    × (k'.mtu ≡ k.mtu)
    × (k'.buf ≡ k.buf)
    × (k'.snd_queue ≡ k.snd_queue)
    × (k'.snd_buf ≡ k.snd_buf)
    × (k'.snd_nxt ≡ k.snd_nxt)
    × (k'.mss ≡ k.mss)
    × (k'.rcv_nxt ≡ k.rcv_nxt)
    × (k'.rcv_buf ≡ k.rcv_buf)
    × (k'.rcv_queue ≡ k.rcv_queue)
    × (k'.snd_una ≡ k.snd_una)
    × (k'.snd_wnd ≡ k.snd_wnd)
    × (k'.rcv_wnd ≡ k.rcv_wnd)

pub SameOutput-IsFit :
    {O : Type 0} (mtu : ℕ) (P : O → Type 0) (k k' : Kcp O)
    → SameOutput k k'
    → IsFit mtu P k
    → IsFit mtu P k'
SameOutput-IsFit mtu P k k' s v = record {
  output_fit = rw s.0 v.output_fit;
  mtu_eq = s.1 ∙ v.mtu_eq;
  buf_le = rw s.2 v.buf_le;
  queue_short = rw s.3 v.queue_short;
  flight_short = rw s.4 v.flight_short;
}

pub lower_cwnd-SameOutput :
    {O : Type 0} (cwnd resent : ℕ) (lost : Bool) (change : ℕ) (k : Kcp O)
    → SameOutput k (lower_cwnd cwnd resent lost change k)
unfolding lower_cwnd
lower_cwnd-SameOutput cwnd resent lost change k = ground arith

pub probe_wnd_size-SameOutput : {O : Type 0} (k : Kcp O) → SameOutput k (probe_wnd_size k)
unfolding probe_wnd_size
probe_wnd_size-SameOutput k = ground arith

pub count_resend-SameOutput :
    {O : Type 0} (why : Reason) (sn : ℕ) (t : Sending O)
    → SameOutput t.kcp (count_resend why sn t).kcp
unfolding count_resend
count_resend-SameOutput quiet sn t =
    (refl, refl, refl, refl, refl, refl, refl, refl, refl, refl, refl, refl, refl)
count_resend-SameOutput first sn t =
    (refl, refl, refl, refl, refl, refl, refl, refl, refl, refl, refl, refl, refl)
count_resend-SameOutput timeout sn t =
    (refl, refl, refl, refl, refl, refl, refl, refl, refl, refl, refl, refl, refl)
count_resend-SameOutput fast sn t =
    (refl, refl, refl, refl, refl, refl, refl, refl, refl, refl, refl, refl, refl)

pub admit-IsShort :
    {O : Type 0} (mtu : ℕ) (k : Kcp O) (wnd cwnd : ℕ) (queue : List KcpSegment) (nxt : ℕ)
    → All (IsShort mtu) queue
    → All (IsShort mtu) (admit k wnd cwnd queue nxt).fresh
      × All (IsShort mtu) (admit k wnd cwnd queue nxt).snd_queue
unfolding admit stamp encoded_len
admit-IsShort mtu k wnd cwnd [] nxt a = (tt, tt)
admit-IsShort mtu k wnd cwnd (seg ∷ queue) nxt a =
    let ih = admit-IsShort mtu k wnd cwnd queue (u32 (nxt + 1)) a.1 in
    elim (Bool-cases (is_negative (timediff nxt (u32 (k.snd_una + cwnd))))) [
      | inl open_ ↦ rw open_ ((a.0, ih.0), ih.1)
      | inr shut ↦ rw shut (tt, a)
    ]

pub stamped-IsShort :
    {mtu : ℕ} (seg old : KcpSegment) → seg.payload ≡ old.payload → IsShort mtu old → IsShort mtu seg
unfolding encoded_len
stamped-IsShort seg old e h = rw e h
