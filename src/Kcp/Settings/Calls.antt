-- ===== src/Kcp/Settings/Calls.antt =====
-- The setters of kcp/src/kcp.rs as calls, which leave the data of an engine alone.
use kcp_scream_testspace.Common.{ℕ, ◌≡◌, refl, Bool, arith, IsU32, ◌||◌, ltb, if_rule}
use kcp_scream_testspace.Kcp.Segment.{kcp_overhead}
use kcp_scream_testspace.Kcp.State.{Kcp, Result}
use kcp_scream_testspace.Kcp.Settings.{
  set_mtu, set_interval, set_nodelay, set_wndsize, set_external_congestion_control, set_rx_minrto,
  set_fast_resend, set_maximum_resend_times, request_conv, assign_conv,
}
use kcp_scream_testspace.Kcp.Receive.Order.{inbox}

-- One call of a setter. An MTU is less than 2 ^ 32.
pub data Setting {O : Type 0} : Kcp O → Kcp O → Type 0 where
  mtu_set : {k : Kcp O} (mtu : ℕ) → IsU32 mtu → Setting k (set_mtu mtu k).1
  interval_set : {k : Kcp O} (interval : ℕ) → Setting k (set_interval interval k)
  nodelay_set :
      {k : Kcp O} (nodelay : Bool) (interval resend : ℕ) (nc : Bool)
      → Setting k (set_nodelay nodelay interval resend nc k)
  wndsize_set : {k : Kcp O} (sndwnd rcvwnd : ℕ) → Setting k (set_wndsize sndwnd rcvwnd k)
  external_set :
      {k : Kcp O} (enabled : Bool) → Setting k (set_external_congestion_control enabled k)
  minrto_set : {k : Kcp O} (rto : ℕ) → Setting k (set_rx_minrto rto k)
  fast_resend_set : {k : Kcp O} (fr : ℕ) → Setting k (set_fast_resend fr k)
  resend_times_set : {k : Kcp O} (dead_link : ℕ) → Setting k (set_maximum_resend_times dead_link k)
  conv_requested : {k : Kcp O} → Setting k (request_conv k)
  conv_assigned : {k : Kcp O} (conv : ℕ) → Setting k (assign_conv conv k)

-- The fields with data are the same, and `mss` still fits.
abbrev pub Spares : {O : Type 0} → Kcp O → Kcp O → Type 0
Spares k k' =
    (k'.output ≡ k.output)
    × (k'.buf ≡ k.buf)
    × (k'.snd_queue ≡ k.snd_queue)
    × (k'.snd_buf ≡ k.snd_buf)
    × (k'.snd_una ≡ k.snd_una)
    × (k'.snd_nxt ≡ k.snd_nxt)
    × (inbox k' ≡ inbox k)
    × (IsU32 k.mss → IsU32 k'.mss)

pub Setting-Spares : {O : Type 0} {k k' : Kcp O} → Setting k k' → Spares k k'
unfolding set_mtu set_interval set_nodelay set_wndsize set_external_congestion_control set_rx_minrto
    set_fast_resend set_maximum_resend_times request_conv assign_conv
Setting-Spares {O = O} {k = k} (mtu_set mtu h) =
    if_rule (λ (r : Result (Unit {0}) × Kcp O). Spares k r.1) (ltb mtu 50 || ltb mtu kcp_overhead)
      (refl, refl, refl, refl, refl, refl, refl, λ m. m)
      (refl, refl, refl, refl, refl, refl, refl, λ m. omega arith)
Setting-Spares (interval_set interval) = (refl, refl, refl, refl, refl, refl, refl, λ m. m)
Setting-Spares (nodelay_set nodelay interval resend nc) =
    (refl, refl, refl, refl, refl, refl, refl, λ m. m)
Setting-Spares (wndsize_set sndwnd rcvwnd) = (refl, refl, refl, refl, refl, refl, refl, λ m. m)
Setting-Spares (external_set enabled) = (refl, refl, refl, refl, refl, refl, refl, λ m. m)
Setting-Spares (minrto_set rto) = (refl, refl, refl, refl, refl, refl, refl, λ m. m)
Setting-Spares (fast_resend_set fr) = (refl, refl, refl, refl, refl, refl, refl, λ m. m)
Setting-Spares (resend_times_set dead_link) = (refl, refl, refl, refl, refl, refl, refl, λ m. m)
Setting-Spares conv_requested = (refl, refl, refl, refl, refl, refl, refl, λ m. m)
Setting-Spares (conv_assigned conv) = (refl, refl, refl, refl, refl, refl, refl, λ m. m)
