-- ===== src/Kcp/Settings.antt =====
-- The setters of `Kcp` in kcp/src/kcp.rs, and `KcpConfig::apply_config` of tokio_kcp/src/config.rs.
pub mod Calls
use kcp_scream_testspace.Common.{
  ℕ, ◌-◌, Bool, true, false, ◌||◌, ltb, if◌then◌else◌, max, is_negative, Option, some,
}
use kcp_scream_testspace.Kcp.Segment.{kcp_overhead}
use kcp_scream_testspace.Kcp.State.{
  Kcp, Result, ok, err, panic, invalid_mtu, kcp_rto_ndl, kcp_rto_min, kcp_wnd_rcv,
}

module _ {O : Type 0} where
  unfoldable pub set_mtu : ℕ → Kcp O → Result (Unit {0}) × Kcp O
  set_mtu mtu k =
      if ltb mtu 50 || ltb mtu kcp_overhead
      then (err (invalid_mtu mtu), k)
      else (ok tt, record k { mtu = mtu; mss = mtu - kcp_overhead })

  unfoldable pub set_interval : ℕ → Kcp O → Kcp O
  set_interval interval k = record k {
    interval = if ltb 5000 interval then 5000 else if ltb interval 10 then 10 else interval;
  }

  -- `interval` and `resend` are `i32`s, given by their bit patterns.
  unfoldable pub set_nodelay : Bool → ℕ → ℕ → Bool → Kcp O → Kcp O
  set_nodelay nodelay interval resend nc k = record k {
    nodelay = nodelay;
    rx_minrto = if nodelay then kcp_rto_ndl else kcp_rto_min;
    interval =
        if is_negative interval || ltb interval 10
        then 10
        else if ltb 5000 interval
        then 5000
        else interval;
    fastresend = if is_negative resend then k.fastresend else resend;
    nocwnd = nc;
  }

  unfoldable pub set_wndsize : ℕ → ℕ → Kcp O → Kcp O
  set_wndsize sndwnd rcvwnd k = record k {
    snd_wnd = if ltb 0 sndwnd then sndwnd else k.snd_wnd;
    rcv_wnd = if ltb 0 rcvwnd then max rcvwnd kcp_wnd_rcv else k.rcv_wnd;
  }

  unfoldable pub set_external_congestion_control : Bool → Kcp O → Kcp O
  set_external_congestion_control enabled k = record k { external_cc = enabled }

  unfoldable pub set_rx_minrto : ℕ → Kcp O → Kcp O
  set_rx_minrto rto k = record k { rx_minrto = rto }

  unfoldable pub set_fast_resend : ℕ → Kcp O → Kcp O
  set_fast_resend fr k = record k { fastresend = fr }

  unfoldable pub set_maximum_resend_times : ℕ → Kcp O → Kcp O
  set_maximum_resend_times dead_link k = record k { dead_link = dead_link }

  -- `Kcp::input_conv` and `Kcp::set_conv`.
  unfoldable pub request_conv : Kcp O → Kcp O
  request_conv k = record k { input_conv = true }

  unfoldable pub assign_conv : ℕ → Kcp O → Kcp O
  assign_conv conv k = record k { conv = conv }

pub record KcpNoDelayConfig : Type 0 where
  pub nodelay : Bool
  pub interval : ℕ
  pub resend : ℕ
  pub nc : Bool

-- `KcpNoDelayConfig::{default, fastest, normal}`.
abbrev pub default_nodelay : KcpNoDelayConfig
default_nodelay = record { nodelay = false; interval = 100; resend = 0; nc = false }

abbrev pub fastest : KcpNoDelayConfig
fastest = record { nodelay = true; interval = 10; resend = 2; nc = true }

abbrev pub normal : KcpNoDelayConfig
normal = record { nodelay = false; interval = 40; resend = 0; nc = false }

-- Durations are in milliseconds; `wnd_size` is the pair `snd_wnd_size`, `rcv_wnd_size`.
pub record KcpConfig : Type 0 where
  pub mtu : ℕ
  pub nodelay : KcpNoDelayConfig
  pub snd_wnd_size : ℕ
  pub rcv_wnd_size : ℕ
  pub session_expire : Option ℕ
  pub flush_write : Bool
  pub flush_acks_input : Bool
  pub stream : Bool
  pub allow_recv_empty_packet : Bool
  pub use_external_congestion_control : Bool

-- `KcpConfig::default`.
abbrev pub default_config : KcpConfig
default_config = record {
  mtu = 1400;
  nodelay = normal;
  snd_wnd_size = 256;
  rcv_wnd_size = 256;
  session_expire = some 90_000;
  flush_write = false;
  flush_acks_input = false;
  stream = false;
  allow_recv_empty_packet = false;
  use_external_congestion_control = false;
}

-- The `expect` on `set_mtu` panics.
unfoldable pub apply_config : {O : Type 0} → KcpConfig → Kcp O → Result (Unit {0}) × Kcp O
unfolding set_mtu set_nodelay set_wndsize set_external_congestion_control
apply_config c k =
    let (r, k') = set_mtu c.mtu k in
    elim r [
      | ok _ ↦ (
        ok tt,
        set_external_congestion_control c.use_external_congestion_control (
            set_wndsize c.snd_wnd_size c.rcv_wnd_size
              (set_nodelay c.nodelay.nodelay c.nodelay.interval c.nodelay.resend c.nodelay.nc k')),
      )
      | _ ↦ (panic, k')
    ]
