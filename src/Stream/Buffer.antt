-- ===== src/Stream/Buffer.antt =====
-- The buffer of a stream in tokio_kcp/src/stream.rs.
use kcp_scream_testspace.Common.{
  ℕ, zero, suc, ◌+◌, ◌-◌, ◌≤◌, ◌<◌, ◌≡◌, refl, sym, ap, ◌∙◌, List, [], ◌∷◌, ◌++◌, length, take,
  drop, length-append, length-take, length-drop, arith, min,
}
use kcp_scream_testspace.Kcp.State.{Result, ok, err, panic}
use kcp_scream_testspace.Stream.{Stream, peeked, zeros, grown, remaining, copy_out}

-- The buffer's position and end lie inside it.
pub record IsBuffered {O F W : Type 0} (t : Stream O F W) : Type 0 where
  pub pos_le : t.recv_buffer_pos ≤ t.recv_buffer_cap
  pub cap_le : t.recv_buffer_cap ≤ length t.recv_buffer

module _ {A : Type 0} where
  take_none : (n : ℕ) (xs : List A) → n ≡ 0 → take n xs ≡ []
  take_none zero xs e = refl
  take_none (suc n) xs e = absurd (omega (arith, e))

  take_nil : (n : ℕ) → take {A = A} n [] ≡ []
  take_nil zero = refl
  take_nil (suc n) = refl

  drop_nil : (n : ℕ) → drop {A = A} n [] ≡ []
  drop_nil zero = refl
  drop_nil (suc n) = refl

  drop-drop : (p c : ℕ) (xs : List A) → drop (p + c) xs ≡ drop c (drop p xs)
  drop-drop zero c xs = ap (λ n. drop n xs) (omega arith)
  drop-drop (suc p) c [] = drop_nil _ ∙ sym (drop_nil c)
  drop-drop (suc p) c (x ∷ xs) =
      let e : suc p + c ≡ suc (p + c) = omega arith in
      ap (λ n. drop n (x ∷ xs)) e ∙ drop-drop p c xs

  take_split : (c m : ℕ) (xs : List A) → c ≤ m → take c xs ++ take (m - c) (drop c xs) ≡ take m xs
  take_split zero m xs h = ap (λ n. take n xs) (omega arith)
  take_split (suc c) zero xs h = absurd (omega (arith, h))
  take_split (suc c) (suc m) [] h = take_nil _
  take_split (suc c) (suc m) (x ∷ xs) h =
      let e : suc m - suc c ≡ m - c = omega arith in
      ap (λ n. x ∷ (take c xs ++ take n (drop c xs))) e
      ∙ ap (λ ys. x ∷ ys) (take_split c m xs (omega (arith, h)))

pub peeked-ok : (r : Result ℕ) → 0 < peeked r → r ≡ ok (peeked r)
peeked-ok (ok size) h = refl
peeked-ok (err e) h = absurd (omega (arith, h))
peeked-ok panic h = absurd (omega (arith, h))

pub grown-length : (size : ℕ) (buffer : List ℕ) → length buffer ≤ length (grown size buffer)
grown-length size buffer = ground (arith, length-append buffer (zeros (size - length buffer)))

module _ {O F W : Type 0} where
  -- The buffer's bytes go out from the front.
  pub copy_out_lem :
      (room : ℕ) (t : Stream O F W)
      → IsBuffered t
      → ((copy_out room t).0 ++ remaining (copy_out room t).1 ≡ remaining t)
        × (length (copy_out room t).0 ≡ min (length (remaining t)) room)
        × ((copy_out room t).1.session ≡ t.session)
        × IsBuffered (copy_out room t).1
  unfolding copy_out
  copy_out_lem room t v =
      let left = t.recv_buffer_cap - t.recv_buffer_pos in
      let c = min left room in
      let ys = drop t.recv_buffer_pos t.recv_buffer in
      let rest : t.recv_buffer_cap - (t.recv_buffer_pos + c) ≡ left - c = omega arith in
      (
        rw (rest, drop-drop t.recv_buffer_pos c t.recv_buffer) (take_split c left ys (omega arith)),
        rw (length-take c ys, length-take left ys, length-drop t.recv_buffer_pos t.recv_buffer)
            (omega (arith, v.pos_le, v.cap_le)),
        refl,
        record { pos_le = omega (arith, v.pos_le); cap_le = v.cap_le },
      )

  pub nothing_left : (t : Stream O F W) → t.recv_buffer_cap ≤ t.recv_buffer_pos → remaining t ≡ []
  nothing_left t h =
      take_none (t.recv_buffer_cap - t.recv_buffer_pos) (drop t.recv_buffer_pos t.recv_buffer)
        (omega (arith, h))
