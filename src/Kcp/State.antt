-- ===== src/Kcp/State.antt =====
-- `Kcp` of kcp/src/kcp.rs, its constructors and accessors, the errors of kcp/src/error.rs, and the
-- output that a `Kcp` writes to.
use kcp_scream_testspace.Common.{
  ℕ, ◌+◌, ◌-◌, Bool, true, false, not, Option, List, [], length, u16, u32, ltb, ◌==◌, if◌then◌else◌,
  ◌^◌, min, max,
}
use kcp_scream_testspace.Kcp.Segment.{KcpSegment, kcp_overhead}

-- KCP_RTO_NDL, KCP_RTO_MIN, KCP_RTO_DEF, KCP_RTO_MAX
abbrev pub kcp_rto_ndl : ℕ
kcp_rto_ndl = 30

abbrev pub kcp_rto_min : ℕ
kcp_rto_min = 100

abbrev pub kcp_rto_def : ℕ
kcp_rto_def = 200

abbrev pub kcp_rto_max : ℕ
kcp_rto_max = 60000

-- KCP_CMD_PUSH, KCP_CMD_ACK, KCP_CMD_WASK, KCP_CMD_WINS
abbrev pub kcp_cmd_push : ℕ
kcp_cmd_push = 81

abbrev pub kcp_cmd_ack : ℕ
kcp_cmd_ack = 82

abbrev pub kcp_cmd_wask : ℕ
kcp_cmd_wask = 83

abbrev pub kcp_cmd_wins : ℕ
kcp_cmd_wins = 84

-- KCP_WND_SND, KCP_WND_RCV, KCP_MTU_DEF, KCP_INTERVAL, KCP_DEADLINK, KCP_THRESH_INIT,
-- KCP_THRESH_MIN, KCP_PROBE_INIT, KCP_PROBE_LIMIT, KCP_FASTACK_LIMIT
abbrev pub kcp_wnd_snd : ℕ
kcp_wnd_snd = 32

abbrev pub kcp_wnd_rcv : ℕ
kcp_wnd_rcv = 128

abbrev pub kcp_mtu_def : ℕ
kcp_mtu_def = 1400

abbrev pub kcp_interval : ℕ
kcp_interval = 100

abbrev pub kcp_deadlink : ℕ
kcp_deadlink = 20

abbrev pub kcp_thresh_init : ℕ
kcp_thresh_init = 2

abbrev pub kcp_thresh_min : ℕ
kcp_thresh_min = 2

abbrev pub kcp_probe_init : ℕ
kcp_probe_init = 7000

abbrev pub kcp_probe_limit : ℕ
kcp_probe_limit = 120000

abbrev pub kcp_fastack_limit : ℕ
kcp_fastack_limit = 5

-- `std::io::ErrorKind`: the kinds that the source names, and any other.
pub data ErrorKind : Type 0 where
  would_block broken_pipe write_zero other : ErrorKind
  unnamed : ℕ → ErrorKind

-- `Error` of kcp/src/error.rs.
pub data Error : Type 0 where
  conv_inconsistent : ℕ → ℕ → Error
  invalid_mtu : ℕ → Error
  invalid_segment_size : ℕ → Error
  invalid_segment_data_size : ℕ → ℕ → Error
  io_error : ErrorKind → Error
  need_update : Error
  recv_queue_empty : Error
  expecting_fragment : Error
  unsupported_cmd : ℕ → Error
  user_buf_too_big : Error
  user_buf_too_small : Error

-- The kind of the `io::Error` that an `Error` becomes (`From<Error> for io::Error`).
unfoldable pub error_kind : Error → ErrorKind
error_kind (conv_inconsistent a b) = other
error_kind (invalid_mtu m) = other
error_kind (invalid_segment_size n) = other
error_kind (invalid_segment_data_size a b) = other
error_kind (io_error kind) = kind
error_kind need_update = other
error_kind recv_queue_empty = would_block
error_kind expecting_fragment = would_block
error_kind (unsupported_cmd c) = other
error_kind user_buf_too_big = other
error_kind user_buf_too_small = other

-- `KcpResult`, with a failed assertion as a third outcome.
pub data Result (A : Type 0) : Type 0 where
  ok : A → Result A
  err : Error → Result A
  panic : Result A

-- What `std::io::Write` gives the source: `write_all` of a buffer, with its error if it fails, and
-- `write`, with the number of bytes written.
pub record Write (O : Type 0) : Type 0 where
  pub write_all : O → List ℕ → Option ErrorKind × O
  pub write : O → List ℕ → Result ℕ × O

-- `probe` holds the two bits KCP_ASK_SEND and KCP_ASK_TELL, each as a Boolean.
pub record Kcp (O : Type 0) : Type 0 where
  pub conv : ℕ
  pub mtu : ℕ
  pub mss : ℕ
  pub state : ℕ
  pub snd_una : ℕ
  pub snd_nxt : ℕ
  pub rcv_nxt : ℕ
  pub ssthresh : ℕ
  pub rx_rttval : ℕ
  pub rx_srtt : ℕ
  pub rx_rto : ℕ
  pub rx_minrto : ℕ
  pub snd_wnd : ℕ
  pub rcv_wnd : ℕ
  pub rmt_wnd : ℕ
  pub cwnd : ℕ
  pub ask_send : Bool
  pub ask_tell : Bool
  pub current : ℕ
  pub interval : ℕ
  pub ts_flush : ℕ
  pub xmit : ℕ
  pub nodelay : Bool
  pub updated : Bool
  pub ts_probe : ℕ
  pub probe_wait : ℕ
  pub dead_link : ℕ
  pub incr : ℕ
  pub snd_queue : List KcpSegment
  pub rcv_queue : List KcpSegment
  pub snd_buf : List KcpSegment
  pub rcv_buf : List KcpSegment
  pub acklist : List (ℕ × ℕ)
  pub buf : List ℕ
  pub fastresend : ℕ
  pub fastlimit : ℕ
  pub nocwnd : Bool
  pub stream : Bool
  pub input_conv : Bool
  pub external_cc : Bool
  pub output : O

module _ {O : Type 0} where
  unfoldable pub construct : ℕ → O → Bool → Kcp O
  construct conv output stream = record {
    conv = conv;
    mtu = kcp_mtu_def;
    mss = kcp_mtu_def - kcp_overhead;
    state = 0;
    snd_una = 0;
    snd_nxt = 0;
    rcv_nxt = 0;
    ssthresh = kcp_thresh_init;
    rx_rttval = 0;
    rx_srtt = 0;
    rx_rto = kcp_rto_def;
    rx_minrto = kcp_rto_min;
    snd_wnd = kcp_wnd_snd;
    rcv_wnd = kcp_wnd_rcv;
    rmt_wnd = kcp_wnd_rcv;
    cwnd = 0;
    ask_send = false;
    ask_tell = false;
    current = 0;
    interval = kcp_interval;
    ts_flush = kcp_interval;
    xmit = 0;
    nodelay = false;
    updated = false;
    ts_probe = 0;
    probe_wait = 0;
    dead_link = kcp_deadlink;
    incr = 0;
    snd_queue = [];
    rcv_queue = [];
    snd_buf = [];
    rcv_buf = [];
    acklist = [];
    buf = [];
    fastresend = 0;
    fastlimit = kcp_fastack_limit;
    nocwnd = false;
    stream = stream;
    input_conv = false;
    external_cc = true;
    output = output;
  }

  -- `Kcp::new` and `Kcp::new_stream`.
  unfoldable pub new : ℕ → O → Kcp O
  unfolding construct
  new conv output = construct conv output false

  unfoldable pub new_stream : ℕ → O → Kcp O
  unfolding construct
  new_stream conv output = construct conv output true

  unfoldable pub wnd_unused : Kcp O → ℕ
  wnd_unused k =
      if ltb (length k.rcv_queue) k.rcv_wnd then k.rcv_wnd - u16 (length k.rcv_queue) else 0

  unfoldable pub wait_snd : Kcp O → ℕ
  wait_snd k = length k.snd_buf + length k.snd_queue

  unfoldable pub is_dead_link : Kcp O → Bool
  is_dead_link k = not (k.state == 0)

-- `later as i32 - earlier as i32`, as a bit pattern.
unfoldable pub timediff : ℕ → ℕ → ℕ
timediff later earlier = u32 (later + 2 ^ 32 - earlier)

unfoldable pub bound : ℕ → ℕ → ℕ → ℕ
bound lower v upper = min (max lower v) upper

-- `output_raw`: past the engine.
unfoldable pub output_raw : {O : Type 0} ⦃w : Write O⦄ → List ℕ → Kcp O → Result ℕ × Kcp O
output_raw ⦃w⦄ bytes k = let r = w.write k.output bytes in (r.0, record k { output = r.1 })
