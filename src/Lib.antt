-- ===== src/Lib.antt =====
-- KCP over UDP with SCReAM congestion control: the protocol engine, the controller, and the sockets,
-- sessions and streams around them.
--
-- The repository has three crates. `kcp` is the protocol engine, a state machine without I/O or
-- clock of its own: its caller hands it datagrams (`input`), bytes to send (`send`), the time
-- (`update`) and a writer for its datagrams, and takes messages from it (`recv`). `tokio_kcp` drives
-- one engine for each session over a UDP socket, and adds SCReAM congestion control in place of the
-- built-in one: a socket joins an engine with a controller, a pacer sends the socket's datagrams at
-- the controller's rate, a session drives a socket from its tasks, and a listener spreads the
-- datagrams of one UDP socket over the sessions of its peers. `kcp_test` is a program that measures
-- all this. This library is about `kcp` and `tokio_kcp`.
--
-- The files, with the code that each is about:
--
--   Kcp/Segment    kcp/src/kcp.rs: KcpSegment, encode, the header reads of input, get_conv, set_conv,
--                  get_sn. Child RoundTrip.
--   Kcp/State      kcp/src/kcp.rs: the struct Kcp field by field, its constants and constructors;
--                  kcp/src/error.rs: Error.
--   Kcp/Settings   kcp/src/kcp.rs: the setters; tokio_kcp/src/config.rs: KcpConfig, apply_config.
--                  Child Calls (the setters as calls).
--   Kcp/Receive    kcp/src/kcp.rs: move_buf, peeksize, recv, parse_data. Children: Order (move_buf),
--                  Message (recv), Search, Insert and Window (parse_data).
--   Kcp/Send       kcp/src/kcp.rs: send. Children: Fragments (message mode), Stream.
--   Kcp/Ack        kcp/src/kcp.rs: update_ack, shrink_buf, parse_ack, parse_una, parse_fastack,
--                  ack_push. Children: Rto, Removal.
--   Kcp/Input      kcp/src/kcp.rs: input. Children: Outcome, Datagram, Steps, Invariant,
--                  Rule (what its operations keep, an input keeps).
--   Kcp/Flush      kcp/src/kcp.rs: flush_ack, flush. Children: Output (the datagram buffer), Resend
--                  (the loop over snd_buf), Rule (what the buffer's operations keep, a
--                  flush keeps), Fits, Untouched and Datagrams (the MTU), InFlight (the
--                  loop over snd_queue), Timers (the loop over snd_buf), Consistent.
--   Kcp/Clock      kcp/src/kcp.rs: update, check. Child Wait.
--   Kcp/Sequence   sequence numbers that wrap, and buffers in their order.
--   Kcp/Invariant  what holds of every Kcp between calls.
--   Kcp/Steps      the calls on a Kcp as steps from state to state.
--   Kcp/Delivery   two engines and the network between them. Children: History (byte strings by
--                  index), Wire (what a datagram carries), Channel (the writer), Admission (numbers
--                  for what leaves snd_queue), Sender, Acked and Written (the sending end), Receiver
--                  and Inbox (the receiving end), Setting (the setters), Link (the calls on both
--                  ends as steps), Prefix (what is read against what was written), Held, Retains,
--                  Refilled and Retention (what a sender keeps), Runs.
--   Kcp/Runs       concrete runs.
--   Scream         tokio_kcp/src/scream.rs: ScreamCongestionControl. Children: Floats (what is used of
--                  f32), InFlight (packets_in_flight), State (the struct), RefWnd
--                  (decrease_window, increase_window), Feedback (create_feedback_packet, on_feedback),
--                  Tracking (packets in flight against bytes_in_flight), Events (the calls as
--                  events), Window (on_packet_loss), Runs.
--   Socket         tokio_kcp/src/skcp.rs: KcpSocket, its input, flush, process_flush_result,
--                  try_wake_pending_waker, close and getters. Children: Send (poll_send, poll_recv,
--                  try_recv), Update (new, update), Waiting and Wakeups (the tasks that wait), Calls
--                  (the calls as steps), Consistent, Frame (last_update), Runs.
--   Pacer          tokio_kcp/src/pacer.rs: PacketPacer and its task; tokio_kcp/src/skcp.rs:
--                  PacerOutput. Children: Order, Full (flush into a full channel), Delivery (an
--                  engine that sends through the pacer), Runs.
--   Session        tokio_kcp/src/session.rs: KcpSession, the updater and the input task. Children:
--                  Expiry (how a session ends), Steps (the tasks as steps), Runs.
--   Server         tokio_kcp/src/session.rs: KcpSessionManager; tokio_kcp/src/listener.rs: the
--                  listener's task. Children: Closing (the notice of a session's end), Isolation and
--                  Packets (the sessions of different peers), Steps (all tasks as steps), Runs.
--   Stream         tokio_kcp/src/stream.rs: KcpStream and its buffer. Children: Buffer, Bytes
--                  (poll_recv), Steps (a stream with its session), Runs.
--   Samples        data for the concrete runs.
--   Common         names of the libraries, lists, machine words.
--
-- How the code is translated:
--
--   - `&mut self` is a state that goes in and comes out: an operation returns its result with the
--     new state, also when it fails, so that what a failing call has changed is kept. `Result` has a
--     third outcome, `panic`, for an assertion or a division by zero.
--   - An unsigned machine word is a native number; arithmetic that can wrap is written `u8`, `u16`,
--     `u32`, `u64` (`% 2 ^ w`), as a release build computes it, where a debug build would panic. An
--     `i32` is its bit pattern, with `is_negative` and `is_positive` for its sign. `usize` has 64
--     bits; lengths of buffers and sums of them are not wrapped.
--   - `VecDeque`, `Vec` and `&[u8]` are lists. The two bits of `probe` are two Booleans. The field
--     `data` of a segment is `payload` here, a reserved word being in the way.
--   - The writer (`std::io::Write`) is code outside the repository: `Write O` is an interface with
--     its operations `write_all` and `write`, and nothing is assumed of it, but where two engines are
--     connected (`Channel`): a write lets out at most its own bytes, whole. The codec calls of the
--     `bytes` crate are their documented little-endian reads and writes.
--   - The loop of `input` over a datagram runs on fuel, the length of the datagram, which is enough:
--     each round reads a header of 24 bytes or stops.
--   - `f32` is a parameter, with the operations that the controller uses as an interface; a law of
--     them is a hypothesis of the theorem that needs it. An `Instant` and a `Duration` are numbers
--     of nanoseconds, and a call that reads the clock several times is given one reading. A HashMap
--     is a list of entries.
--   - The loop of a stream's `poll_recv` runs on fuel as well, and two rounds are enough.
--   - All other loops run over a list or down from a count.
--   - A waker is a value of a parameter with `will_wake`, and a socket lists those it has woken. A
--     watch channel is its last value. A `Poll` is the operation's result, or that it waits.
--   - What a task does while it holds a session's lock is one step, and the tasks run in any order of
--     steps. A session that is shared is an entry of a store, and an address is a number. A timer's
--     tick, a datagram and a notice are events; the draws of the random generator are a list.
--
-- Not modelled: `trace!`, `debug!` and `println!` output, the lines of `log_data`, `Display` texts
-- and the capacities of buffers; UDP sockets and their errors, the scheduling of tasks and timers, and
-- the bounds of the channels for a session's datagrams and for notices, at which a sender waits. Nor
-- are the measuring program and the plotter, which are input and output.
pub mod Common
pub mod Kcp
pub mod Pacer
pub mod Samples
pub mod Scream
pub mod Server
pub mod Session
pub mod Socket
pub mod Stream
