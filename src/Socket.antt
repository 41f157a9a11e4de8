-- ===== src/Socket.antt =====
-- `KcpSocket` of tokio_kcp/src/skcp.rs: one protocol engine with its congestion control, and the
-- tasks that wait for it.
pub mod Send
pub mod Update
pub mod Waiting
pub mod Consistent
pub mod Wakeups
pub mod Calls
pub mod Frame
mod Runs
use kcp_scream_testspace.Common.{
  ℕ, ◌+◌, Bool, true, false, not, ◌&&◌, ◌||◌, Option, none, some, List, [], ◌∷◌, ◌++◌, ltb, leb,
  ◌==◌, if◌then◌else◌,
}
use kcp_scream_testspace.Kcp.State.{Kcp, Result, ok, err, panic, wait_snd, Write}
use kcp_scream_testspace.Kcp.Settings.{assign_conv}
use kcp_scream_testspace.Kcp.Receive.{peeksize}
use kcp_scream_testspace.Kcp.Input.{input}
use kcp_scream_testspace.Kcp.Flush.{Flushed, flush, flush_ack}
use kcp_scream_testspace.Scream.Floats.{Float}
use kcp_scream_testspace.Scream.State.{Scream}
use kcp_scream_testspace.Scream.Feedback.{on_feedback}
use kcp_scream_testspace.Scream.{on_ack_kcp, on_packet_received, on_packet_loss, on_packet_sent}

-- A waker is a value of `W`; `woken` are those that were woken, in order. `pacing_rate` and
-- `target_bitrate` are the values last sent on the two watch channels.
pub record Socket (O F W : Type 0) : Type 0 where
  pub kcp : Kcp O
  pub scream : Scream F
  pub last_update : ℕ
  pub flush_write : Bool
  pub flush_ack_input : Bool
  pub sent_first : Bool
  pub pending_sender : Option W
  pub pending_receiver : Option W
  pub closed : Bool
  pub allow_recv_empty_packet : Bool
  pub pacing_rate : F
  pub target_bitrate : F
  pub woken : List W

-- What `std::task::Waker` gives the source: whether two wakers wake the same task.
pub record Wakers (W : Type 0) : Type 0 where
  pub will_wake : W → W → Bool

-- `Poll`.
pub data Poll (A : Type 0) : Type 0 where
  ready : Result A → Poll A
  pending : Poll A

module _ {O : Type 0} where
  -- A sender need not wait.
  unfoldable pub can_send : Kcp O → Bool
  can_send k = ltb (wait_snd k) k.snd_wnd && (ltb (wait_snd k) k.rmt_wnd && not k.input_conv)

  -- A window is full.
  abbrev pub is_full : Kcp O → Bool
  is_full k = leb k.snd_wnd (wait_snd k) || leb k.rmt_wnd (wait_snd k)

abbrev pub ready_size : Bool → Result ℕ → Bool
ready_size allow (ok peek) = allow || ltb 0 peek
ready_size allow (err e) = false
ready_size allow panic = false

abbrev pub wake_closed : {W : Type 0} → Option W → List W
wake_closed none = []
wake_closed (some waker) = waker ∷ []

module _ {F : Type 0} ⦃f : Float F⦄ where
  unfoldable pub ack_each : List (ℕ × ℕ) → Scream F → Scream F
  ack_each [] c = c
  ack_each ((seq_number, _) ∷ sns) c = ack_each sns (on_ack_kcp seq_number c)

  unfoldable pub receive_each : ℕ → List ℕ → Scream F → Scream F
  receive_each ms [] c = c
  receive_each ms (seq_number ∷ sns) c = receive_each ms sns (on_packet_received seq_number ms c)

  unfoldable pub lose_each : ℕ → List ℕ → Scream F → Scream F
  lose_each now [] c = c
  lose_each now (seq_number ∷ sns) c = lose_each now sns (on_packet_loss seq_number now c)

  unfoldable pub send_each : ℕ → List (ℕ × ℕ) → Scream F → Scream F
  send_each now [] c = c
  send_each now ((seq_number, size) ∷ packets) c =
      send_each now packets (on_packet_sent seq_number size now c)

module _ {O F W : Type 0} where
  -- `?` on the socket.
  abbrev pub and_socket :
      {A B : Type 0}
      → Result A × Socket O F W
      → (A → Socket O F W → Result B × Socket O F W)
      → Result B × Socket O F W
  and_socket (ok a, s) next = next a s
  and_socket (err e, s) next = (err e, s)
  and_socket (panic, s) next = (panic, s)

  -- A receiver need not wait.
  unfoldable pub can_recv : Socket O F W → Bool
  can_recv s = ready_size s.allow_recv_empty_packet (peeksize s.kcp)

  abbrev pub wake_sender : Option W → Socket O F W → Bool × Socket O F W
  wake_sender none s = (false, s)
  wake_sender (some waker) s =
      if can_send s.kcp
      then (true, record s { pending_sender = none; woken = s.woken ++ (waker ∷ []) })
      else (false, s)

  abbrev pub wake_receiver : Option W → Socket O F W → Bool × Socket O F W
  wake_receiver none s = (false, s)
  wake_receiver (some waker) s =
      if can_recv s
      then (true, record s { pending_receiver = none; woken = s.woken ++ (waker ∷ []) })
      else (false, s)

  unfoldable pub try_wake_pending_waker : Socket O F W → Bool × Socket O F W
  try_wake_pending_waker s =
      let r = wake_sender s.pending_sender s in
      let r' = wake_receiver r.1.pending_receiver r.1 in (r.0 || r'.0, r'.1)

  unfoldable pub close : Socket O F W → Socket O F W
  close s = record s {
    closed = true;
    pending_sender = none;
    pending_receiver = none;
    woken = s.woken ++ (wake_closed s.pending_sender ++ wake_closed s.pending_receiver);
  }

module _ {O F W : Type 0} ⦃w : Write O⦄ ⦃f : Float F⦄ where
  -- `process_flush_result` of a flush that returned `Ok`.
  unfoldable pub process_flush_result : ℕ → Flushed → Socket O F W → Socket O F W
  process_flush_result now r s = record s {
    scream =
        send_each now r.new_packets
          (if r.resent then lose_each now r.sns_of_lost s.scream else s.scream);
  }

  abbrev pub flushed : ℕ → Result Flushed × Kcp O → Socket O F W → Result (Unit {0}) × Socket O F W
  flushed now (ok r, k) s = (ok tt, process_flush_result now r (record s { kcp = k }))
  flushed now (err e, k) s = (err e, record s { kcp = k })
  flushed now (panic, k) s = (panic, record s { kcp = k })

  -- A flush of the engine, whose result goes to the congestion control.
  unfoldable pub flush_kcp : ℕ → Socket O F W → Result (Unit {0}) × Socket O F W
  flush_kcp now s = flushed now (flush s.kcp) s

  -- `KcpSocket::flush`.
  unfoldable pub socket_flush : ℕ → Socket O F W → Result (Unit {0}) × Socket O F W
  socket_flush now s =
      and_socket (flush_kcp now s) (λ _ s'. (ok tt, record s' { last_update = now }))

  abbrev pub acked_input : Result (Unit {0}) × Kcp O → Socket O F W → Result Bool × Socket O F W
  acked_input (ok _, k) s = let r = try_wake_pending_waker (record s { kcp = k }) in (ok r.0, r.1)
  acked_input (err e, k) s = (err e, record s { kcp = k })
  acked_input (panic, k) s = (panic, record s { kcp = k })

  abbrev pub taken_input :
      ℕ → ℕ → Result (List (ℕ × ℕ) × List ℕ) × Kcp O → Socket O F W → Result Bool × Socket O F W
  taken_input now ms (ok (acked_sns, received_push_sns), k) s =
      let s' = record s {
        scream = receive_each ms received_push_sns (ack_each acked_sns s.scream);
        last_update = now;
      } in
      acked_input (if s.flush_ack_input then flush_ack k else (ok tt, k)) s'
  taken_input now ms (err e, k) s = (err e, record s { kcp = k })
  taken_input now ms (panic, k) s = (panic, record s { kcp = k })

  -- What the session and the listener do with the feedback behind the header.
  unfoldable pub feed_back : ℕ → List ℕ → Socket O F W → Socket O F W
  feed_back now bytes s =
      (try_wake_pending_waker (record s { scream = on_feedback bytes now now s.scream })).1

  -- `KcpSocket::input`; `ms` is the time of day.
  unfoldable pub socket_input : ℕ → ℕ → List ℕ → Socket O F W → Result Bool × Socket O F W
  socket_input now ms bytes s = taken_input now ms (input bytes s.kcp) s

module _ {O F W : Type 0} where
  -- `KcpSocket::set_conv`.
  unfoldable pub assign_conv_of : ℕ → Socket O F W → Socket O F W
  assign_conv_of conv s = record s { kcp = assign_conv conv s.kcp }

  -- `KcpSocket::can_close`.
  unfoldable pub can_close : Socket O F W → Bool
  can_close s = wait_snd s.kcp == 0

  -- `KcpSocket::need_flush`.
  unfoldable pub need_flush : Socket O F W → Bool
  need_flush s = is_full s.kcp && not s.kcp.input_conv
