-- ===== src/Pacer.antt =====
-- tokio_kcp/src/pacer.rs, and `PacerOutput` of tokio_kcp/src/skcp.rs: the datagrams of a socket go
-- through a bounded channel to a task that sends one of them for each tick of its timer.
pub mod Order
pub mod Full
pub mod Delivery
mod Runs
use kcp_scream_testspace.Common.{
  ℕ, ◌+◌, ◌*◌, Bool, true, false, not, ◌&&◌, Option, none, some, List, [], ◌∷◌, ◌++◌, length, ltb,
  leb, if◌then◌else◌,
}
use kcp_scream_testspace.Kcp.State.{
  Result, ok, err, panic, ErrorKind, error_kind, io_error, broken_pipe, other, Write,
}
use kcp_scream_testspace.Scream.Floats.{Float}
use kcp_scream_testspace.Scream.State.{whole, second}

-- The bound of the channel.
abbrev pub channel_size : ℕ
channel_size = 256

-- The channel, its two ends, the task's state, and the datagrams given to the UDP socket.
pub record Pacer (F : Type 0) : Type 0 where
  pub queue : List (List ℕ)
  pub dropped : Bool
  pub running : Bool
  pub pacing_rate : F
  pub interval : ℕ
  pub released : List (List ℕ)

module _ {F : Type 0} where
  -- `PacerOutput::write`: a full channel loses the datagram, and counts it as written.
  unfoldable pub write_paced : Pacer F → List ℕ → Result ℕ × Pacer F
  write_paced p bytes =
      if not p.running
      then (err (io_error broken_pipe), p)
      else if ltb (length p.queue) channel_size
      then (ok (length bytes), record p { queue = p.queue ++ (bytes ∷ []) })
      else (ok (length bytes), p)

  -- `write_all` of the standard library over `write`, which writes all or fails.
  abbrev pub written_paced : Result ℕ × Pacer F → Option ErrorKind × Pacer F
  written_paced (ok _, p) = (none, p)
  written_paced (err e, p) = (some (error_kind e), p)
  written_paced (panic, p) = (some other, p)

  unfoldable pub write_all_paced : Pacer F → List ℕ → Option ErrorKind × Pacer F
  write_all_paced p [] = (none, p)
  write_all_paced p (b ∷ bytes) = written_paced (write_paced p (b ∷ bytes))

  instance abbrev pub pacer_write : Write (Pacer F)
  pacer_write = record { write_all = write_all_paced; write = write_paced }

  abbrev pub take_packet : List (List ℕ) → Pacer F → Pacer F
  take_packet [] p = if p.dropped then record p { running = false } else p
  take_packet (packet ∷ packets) p = record p {
    queue = packets;
    released = p.released ++ (packet ∷ []);
  }

  -- A tick of the timer; an error of the UDP socket is only logged.
  unfoldable pub tick_paced : Pacer F → Pacer F
  tick_paced p = if p.running then take_packet p.queue p else p

module _ {F : Type 0} ⦃f : Float F⦄ where
  unfoldable pub calculate_interval : F → ℕ
  calculate_interval rate =
      let packets_per_second = f.div rate (f.mul (whole 1000) (whole 8)) in
      if f.gt (whole 1) rate
      then second
      else if f.gt (whole 1) packets_per_second
      then second
      else f.nanos (f.div (whole 1) packets_per_second)

  unfoldable pub new_pacer : F → Pacer F
  new_pacer rate = record {
    queue = [];
    dropped = false;
    running = true;
    pacing_rate = rate;
    interval = calculate_interval rate;
    released = [];
  }

  -- The pacing rate has changed.
  unfoldable pub repace : F → Pacer F → Pacer F
  repace rate p =
      if p.running then record p { pacing_rate = rate; interval = calculate_interval rate } else p
