-- ===== src/Kcp/Delivery/Setting.antt =====
-- The setters of kcp/src/kcp.rs and what the two ends of a connection know.
use kcp_scream_testspace.Common.{ℕ, ◌≡◌, List, ◌∙◌}
use kcp_scream_testspace.Kcp.State.{Kcp, Write}
use kcp_scream_testspace.Kcp.Settings.Calls.{Setting, Setting-Spares}
use kcp_scream_testspace.Kcp.Receive.Order.{inbox}
use kcp_scream_testspace.Kcp.Delivery.Channel.{Channel}
use kcp_scream_testspace.Kcp.Delivery.Sender.{Sends, Wired-Sends}

pub set-inbox : {O : Type 0} {k k' : Kcp O} → Setting k k' → inbox k' ≡ inbox k
set-inbox s = (Setting-Spares s).6

pub set-Sends :
    {O : Type 0} ⦃w : Write O⦄ (c : Channel O) (history : List (List ℕ)) (bytes : List ℕ)
    {k k' : Kcp O}
    → Setting k k'
    → Sends c history bytes k
    → Sends c history bytes k'
set-Sends c history bytes {k = k} {k' = k'} t s =
    let e = Setting-Spares t in
    let v = s.wired in
    Wired-Sends c history bytes k.snd_queue k' s.queue_small s.few s.bytes_eq (record {
      out_carried = rw e.0 v.out_carried;
      buf_carried = rw e.1 v.buf_carried;
      flight_sound = rw e.3 v.flight_sound;
      queue_eq = e.2;
      nxt_eq = e.5 ∙ v.nxt_eq;
      mss_lt = e.7 v.mss_lt;
    })
