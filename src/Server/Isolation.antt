-- ===== src/Server/Isolation.antt =====
-- The sessions of different peers in tokio_kcp/src/listener.rs and tokio_kcp/src/session.rs.
use kcp_scream_testspace.Common.{
  ℕ, ◌+◌, ◌<◌, ◌≡◌, sym, ap, subst, ◌∙◌, false, none, some, ◌∷◌, arith, ◌==◌, Map, lookup,
  remove_key, insert_key, adjust_key, lookup-adjust, lookup-adjust_key, lookup-adjust_other,
  lookup-remove_some, ==→eq, if◌then◌else◌, inl, inr, Bool-cases, Option-cases,
}
use mathlib.Core.Option
use kcp_scream_testspace.Session.{Session}
use kcp_scream_testspace.Server.{Server}

-- Sessions are numbered below the next number, and the session that a peer is mapped to is its own.
pub record IsServed {O F W : Type 0} (m : Map (Session O F W)) (peers : Map ℕ) (next : ℕ)
    : Type 0 where
  pub fresh : (id : ℕ) (s : Session O F W) → lookup id m ≡ some s → id < next
  pub owned :
      (peer id : ℕ)
      → lookup peer peers ≡ some id
      → (s : Session O F W) × (lookup id m ≡ some s) × (s.peer ≡ some peer)

-- Every session of another peer is still there as it was.
abbrev pub SpareOthers : {O F W : Type 0} → ℕ → Map (Session O F W) → Map (Session O F W) → Type 0
SpareOthers {O} {F} {W} peer m m' =
    (id other : ℕ) (s : Session O F W)
    → lookup id m ≡ some s
    → s.peer ≡ some other
    → (other == peer) ≡ false
    → lookup id m' ≡ some s

-- What a step for one peer does to the server.
abbrev pub Serves : {O F W : Type 0} → ℕ → Server O F W → Server O F W → Type 0
Serves peer v v' = IsServed v'.shared v'.sessions v'.next_id × SpareOthers peer v.shared v'.shared

module _ {A : Type 0} where
  adjusted_before :
      (i id : ℕ) (g : A → A) (m : Map A) (a : A)
      → lookup i (adjust_key id g m) ≡ some a
      → (b : A) × (lookup i m ≡ some b)
  adjusted_before i id g m a h = elim (Option-cases (lookup i m)) [
    | inr found ↦ found
    | inl none_ ↦
        let e : lookup i (adjust_key id g m)
            ≡ (if id == i then Option.map g (lookup i m) else lookup i m) =
          lookup-adjust i id g m in
        let gone : lookup i (adjust_key id g m) ≡ none = ground (arith, e, none_) in cc
  ]

module _ {O F W : Type 0} where
  pub adjust-IsServed :
      (id : ℕ) (g : Session O F W → Session O F W) (m : Map (Session O F W)) (peers : Map ℕ)
      (next : ℕ)
      → ((s : Session O F W) → lookup id m ≡ some s → (g s).peer ≡ s.peer)
      → IsServed m peers next
      → IsServed (adjust_key id g m) peers next
  adjust-IsServed id g m peers next keeps v = record {
    fresh = λ i s h. let (s', found) = adjusted_before i id g m s h in v.fresh i s' found;
    owned = λ peer i h.
        let (s, found, mine) = v.owned peer i h in
        elim (Bool-cases (id == i)) [
          | inl same ↦
              let e : i ≡ id = sym (==→eq id i same) in
              let found' : lookup id m ≡ some s = subst (λ j. lookup j m ≡ some s) e found in
              (
                g s,
                subst (λ j. lookup j (adjust_key id g m) ≡ some (g s)) (sym e)
                    (lookup-adjust_key id g s m found'),
                keeps s found' ∙ mine,
              )
          | inr other ↦ (s, lookup-adjust_other i id g m other ∙ found, mine)
        ];
  }

  pub adjust-SpareOthers :
      (peer id : ℕ) (g : Session O F W → Session O F W) (m : Map (Session O F W))
      (s0 : Session O F W)
      → lookup id m ≡ some s0
      → s0.peer ≡ some peer
      → SpareOthers peer m (adjust_key id g m)
  adjust-SpareOthers peer id g m s0 found mine i other s h theirs apart =
      elim (Bool-cases (id == i)) [
        | inr other_ ↦ lookup-adjust_other i id g m other_ ∙ h
        | inl same ↦
            let e : id ≡ i = ==→eq id i same in
            let h' : lookup id m ≡ some s = subst (λ j. lookup j m ≡ some s) (sym e) h in
            let eq_ : s ≡ s0 = cc in let eq_' : other ≡ peer = cc in ground (arith, eq_', apart)
      ]

  pub remove-IsServed :
      (peer : ℕ) (m : Map (Session O F W)) (peers : Map ℕ) (next : ℕ)
      → IsServed m peers next
      → IsServed m (remove_key peer peers) next
  remove-IsServed peer m peers next v = record {
    fresh = v.fresh;
    owned = λ p i h. v.owned p i (lookup-remove_some p peer i peers h);
  }

  pub insert-IsServed :
      (peer : ℕ) (s : Session O F W) (m : Map (Session O F W)) (peers : Map ℕ) (next : ℕ)
      → s.peer ≡ some peer
      → IsServed m peers next
      → IsServed ((next, s) ∷ m) (insert_key peer next peers) (next + 1)
  unfolding lookup insert_key
  insert-IsServed peer s m peers next mine v = record {
    fresh = λ i s' h. elim (Bool-cases (next == i)) [
      | inl same ↦ let e = ==→eq next i same in omega (arith, e)
      | inr other ↦
          let found : lookup i m ≡ some s' = ground (arith, h, other) in
          let lt = v.fresh i s' found in omega (arith, lt)
    ];
    owned = λ p i h. elim (Bool-cases (peer == p)) [
      | inl same ↦
          let e = ==→eq peer p same in
          let e' : next ≡ i = ground (arith, h, same) in (s, ground (arith, e'), mine ∙ ap some e)
      | inr other ↦
          let kept : lookup p (remove_key peer peers) ≡ some i = ground (arith, h, other) in
          let (s', found, mine') = v.owned p i (lookup-remove_some p peer i peers kept) in
          let lt = v.fresh i s' found in (s', ground (arith, lt, found), mine')
    ];
  }

  pub insert-SpareOthers :
      (peer : ℕ) (s : Session O F W) (m : Map (Session O F W)) (peers : Map ℕ) (next : ℕ)
      → IsServed m peers next
      → SpareOthers peer m ((next, s) ∷ m)
  unfolding lookup
  insert-SpareOthers peer s m peers next v i other s' h theirs apart =
      let lt = v.fresh i s' h in ground (arith, lt, h)
