-- ===== src/Kcp/Delivery/History.antt =====
-- A list of byte strings, read by index and as one stream: what the segments of kcp/src/kcp.rs
-- carry under their sequence numbers.
use mathlib.Core.List.{flatten}
use kcp_scream_testspace.Common.{
  ℕ, zero, suc, ◌≤◌, ◌<◌, ◌≡◌, refl, sym, ap, ◌∙◌, Option, none, some, List, [], ◌∷◌, ◌++◌, length,
  take, append-nil, append_assoc, arith,
}

abbrev pub get_elem? : {A : Type 0} → List A → ℕ → Option A
get_elem? [] n = none
get_elem? (x ∷ xs) zero = some x
get_elem? (x ∷ xs) (suc n) = get_elem? xs n

pub get_elem?-lt :
    {A : Type 0} (xs : List A) (n : ℕ) {a : A} → get_elem? xs n ≡ some a → n < length xs
get_elem?-lt [] n e = cc
get_elem?-lt (x ∷ xs) zero e = omega arith
get_elem?-lt (x ∷ xs) (suc n) e = omega (arith, get_elem?-lt xs n e)

-- What has an index keeps it when the list grows.
pub get_elem?-append :
    {A : Type 0} (xs ys : List A) (n : ℕ) {a : A}
    → get_elem? xs n ≡ some a
    → get_elem? (xs ++ ys) n ≡ some a
get_elem?-append [] ys n e = cc
get_elem?-append (x ∷ xs) ys zero e = e
get_elem?-append (x ∷ xs) ys (suc n) e = get_elem?-append xs ys n e

pub get_elem?-length :
    {A : Type 0} (xs : List A) (a : A) (ys : List A)
    → get_elem? (xs ++ (a ∷ ys)) (length xs) ≡ some a
get_elem?-length [] a ys = refl
get_elem?-length (x ∷ xs) a ys = get_elem?-length xs a ys

pub take-append :
    {A : Type 0} (n : ℕ) (xs ys : List A) → n ≤ length xs → take n (xs ++ ys) ≡ take n xs
take-append zero xs ys h = refl
take-append (suc n) [] ys h = absurd (omega arith)
take-append (suc n) (x ∷ xs) ys h = ap (◌∷◌ x) (take-append n xs ys (omega arith))

-- The stream of one string more.
pub flatten-take :
    {A : Type 0} (xs : List (List A)) (n : ℕ) {a : List A}
    → get_elem? xs n ≡ some a
    → flatten (take (suc n) xs) ≡ flatten (take n xs) ++ a
unfolding flatten
flatten-take [] n e = cc
flatten-take (x ∷ xs) zero {a = a} e = let same : x ≡ a = cc in append-nil x ∙ same
flatten-take (x ∷ xs) (suc n) {a = a} e =
    ap (◌++◌ x) (flatten-take xs n e) ∙ sym (append_assoc x (flatten (take n xs)) a)

pub flatten-append :
    {A : Type 0} (xs ys : List (List A)) → flatten (xs ++ ys) ≡ flatten xs ++ flatten ys
unfolding flatten
flatten-append [] ys = refl
flatten-append (x ∷ xs) ys =
    ap (◌++◌ x) (flatten-append xs ys) ∙ sym (append_assoc x (flatten xs) (flatten ys))

-- Fewer of the strings make a shorter stream, of which the rest is the rest.
pub flatten-take-prefix :
    {A : Type 0} (n : ℕ) (xs : List (List A))
    → (rest : List A) × (flatten xs ≡ flatten (take n xs) ++ rest)
unfolding flatten
flatten-take-prefix zero xs = (flatten xs, refl)
flatten-take-prefix (suc n) [] = ([], refl)
flatten-take-prefix (suc n) (x ∷ xs) =
    let (rest, e) = flatten-take-prefix n xs in
    (rest, ap (◌++◌ x) e ∙ sym (append_assoc x (flatten (take n xs)) rest))
