-- ===== src/Scream/InFlight.antt =====
-- `packets_in_flight` of tokio_kcp/src/scream.rs, a hash map from sequence numbers, as a list of
-- entries.
use kcp_scream_testspace.Common.{
  ℕ, ◌+◌, ◌≡◌, refl, Bool, true, Option, none, some, List, [], ◌∷◌, u32, ◌==◌, if◌then◌else◌, arith,
  Bool-cases, inl, inr, subst,
}

pub record PacketInfo : Type 0 where
  pub timestamp : ℕ
  pub size : ℕ
  pub acked_by_kcp : Bool

abbrev pub Packets : Type 0
Packets = List (ℕ × PacketInfo)

-- `get`.
unfoldable pub find_packet : ℕ → Packets → Option PacketInfo
find_packet sn [] = none
find_packet sn ((key, info) ∷ packets) =
    let rest = find_packet sn packets in if key == sn then some info else rest

-- `remove`.
unfoldable pub remove_packet : ℕ → Packets → Packets
remove_packet sn [] = []
remove_packet sn ((key, info) ∷ packets) =
    let rest = remove_packet sn packets in if key == sn then rest else (key, info) ∷ rest

-- `insert`, which replaces an entry with the same key.
unfoldable pub insert_packet : ℕ → PacketInfo → Packets → Packets
insert_packet sn info packets = (sn, info) ∷ remove_packet sn packets

-- `info.acked_by_kcp = true` through `get_mut`.
unfoldable pub mark_acked : ℕ → Packets → Packets
mark_acked sn [] = []
mark_acked sn ((key, info) ∷ packets) =
    let rest = mark_acked sn packets in
    if key == sn then (key, record info { acked_by_kcp = true }) ∷ rest else (key, info) ∷ rest

-- Each key once.
abbrev pub IsMap : Packets → Type 0
IsMap [] = Unit {0}
IsMap ((key, info) ∷ packets) = (find_packet key packets ≡ none) × IsMap packets

-- The bytes of a packet that still count as in flight.
abbrev pub unacked : PacketInfo → ℕ
unacked info = if info.acked_by_kcp then 0 else u32 info.size

abbrev pub outstanding : Packets → ℕ
outstanding [] = 0
outstanding ((key, info) ∷ packets) = unacked info + outstanding packets

find-remove-none :
    (a b : ℕ) (packets : Packets)
    → find_packet a packets ≡ none
    → find_packet a (remove_packet b packets) ≡ none
unfolding find_packet remove_packet
find-remove-none a b [] e = refl
find-remove-none a b ((key, info) ∷ packets) e = ground (arith, find-remove-none a b packets)

find-mark_acked-none :
    (a b : ℕ) (packets : Packets)
    → find_packet a packets ≡ none
    → find_packet a (mark_acked b packets) ≡ none
unfolding find_packet mark_acked
find-mark_acked-none a b [] e = refl
find-mark_acked-none a b ((key, info) ∷ packets) e =
    ground (arith, find-mark_acked-none a b packets)

pub remove_packet-absent :
    (sn : ℕ) (packets : Packets)
    → find_packet sn packets ≡ none
    → remove_packet sn packets ≡ packets
unfolding find_packet remove_packet
remove_packet-absent sn [] e = refl
remove_packet-absent sn ((key, info) ∷ packets) e = ground (arith, remove_packet-absent sn packets)

pub find-remove : (sn : ℕ) (packets : Packets) → find_packet sn (remove_packet sn packets) ≡ none
unfolding find_packet remove_packet
find-remove sn [] = refl
find-remove sn ((key, info) ∷ packets) = ground (arith, find-remove sn packets)

pub remove_packet-IsMap :
    (sn : ℕ) (packets : Packets) → IsMap packets → IsMap (remove_packet sn packets)
unfolding remove_packet
remove_packet-IsMap sn [] v = tt
remove_packet-IsMap sn ((key, info) ∷ packets) v =
    ground (arith, remove_packet-IsMap sn packets v.1, find-remove-none key sn packets v.0)

pub mark_acked-IsMap : (sn : ℕ) (packets : Packets) → IsMap packets → IsMap (mark_acked sn packets)
unfolding mark_acked
mark_acked-IsMap sn [] v = tt
mark_acked-IsMap sn ((key, info) ∷ packets) v =
    ground (arith, mark_acked-IsMap sn packets v.1, find-mark_acked-none key sn packets v.0)

-- What is removed no longer counts.
pub outstanding-remove :
    (sn : ℕ) (packets : Packets) (info : PacketInfo)
    → IsMap packets
    → find_packet sn packets ≡ some info
    → outstanding packets ≡ unacked info + outstanding (remove_packet sn packets)
unfolding find_packet remove_packet
outstanding-remove sn [] info v e = ground arith
outstanding-remove sn ((key, old) ∷ packets) info v e =
    let absent = remove_packet-absent key packets v.0 in
    let ih = outstanding-remove sn packets info v.1 in
    elim (Bool-cases (key == sn)) [
      | inl same ↦
          let eq : key ≡ sn = ground arith in
          let here : old ≡ info = ground arith in
          rw same (ground (arith, subst (λ x. remove_packet x packets ≡ packets) eq absent))
      | inr other ↦
          let there : find_packet sn packets ≡ some info = ground arith in
          rw other (omega (arith, ih there))
    ]

mark_acked-absent :
    (sn : ℕ) (packets : Packets) → find_packet sn packets ≡ none → mark_acked sn packets ≡ packets
unfolding find_packet mark_acked
mark_acked-absent sn [] e = refl
mark_acked-absent sn ((key, info) ∷ packets) e = ground (arith, mark_acked-absent sn packets)

-- What is marked no longer counts.
pub outstanding-mark_acked :
    (sn : ℕ) (packets : Packets) (info : PacketInfo)
    → IsMap packets
    → find_packet sn packets ≡ some info
    → outstanding packets ≡ unacked info + outstanding (mark_acked sn packets)
unfolding find_packet mark_acked
outstanding-mark_acked sn [] info v e = ground arith
outstanding-mark_acked sn ((key, old) ∷ packets) info v e =
    let absent = mark_acked-absent key packets v.0 in
    let ih = outstanding-mark_acked sn packets info v.1 in
    elim (Bool-cases (key == sn)) [
      | inl same ↦
          let eq : key ≡ sn = ground arith in
          let here : old ≡ info = ground arith in
          rw same (ground (arith, subst (λ x. mark_acked x packets ≡ packets) eq absent))
      | inr other ↦
          let there : find_packet sn packets ≡ some info = ground arith in
          rw other (omega (arith, ih there))
    ]
