-- ===== src/Common/Maps.antt =====
-- Maps from numbers as lists of entries.
use Prim.Native.Nat.{ℕ}
use mathlib.Core.Path.{◌≡◌, refl, ap, sym, subst, ◌∙◌}
use mathlib.Core.Bool.{false}
use mathlib.Core.Logic.{inl, inr}
use mathlib.Core.Option
use mathlib.Core.Option.{Option, none, some}
use mathlib.Core.List.{List, [], ◌∷◌}
use native.Mathlib.Omega.{arith}
use kcp_scream_testspace.Common.Logic.{◌==◌, if◌then◌else◌, Bool-cases, ==→eq}

abbrev pub Map : Type 0 → Type 0
Map A = List (ℕ × A)

module _ {A : Type 0} where
  unfoldable pub lookup : ℕ → Map A → Option A
  lookup key [] = none
  lookup key ((k, a) ∷ m) = let rest = lookup key m in if k == key then some a else rest

  unfoldable pub remove_key : ℕ → Map A → Map A
  remove_key key [] = []
  remove_key key ((k, a) ∷ m) =
      let rest = remove_key key m in if k == key then rest else (k, a) ∷ rest

  unfoldable pub insert_key : ℕ → A → Map A → Map A
  insert_key key a m = (key, a) ∷ remove_key key m

  unfoldable pub adjust_key : ℕ → (A → A) → Map A → Map A
  adjust_key key g [] = []
  adjust_key key g ((k, a) ∷ m) =
      let rest = adjust_key key g m in if k == key then (k, g a) ∷ rest else (k, a) ∷ rest

  pub lookup-remove_key : (key : ℕ) (m : Map A) → lookup key (remove_key key m) ≡ none
  unfolding lookup remove_key
  lookup-remove_key key [] = refl
  lookup-remove_key key ((k, a) ∷ m) = ground (arith, lookup-remove_key key m)

  pub lookup-insert_key : (key : ℕ) (a : A) (m : Map A) → lookup key (insert_key key a m) ≡ some a
  unfolding lookup insert_key
  lookup-insert_key key a m = ground arith

  pub lookup-remove_other :
      (key other : ℕ) (m : Map A)
      → (other == key) ≡ false
      → lookup key (remove_key other m) ≡ lookup key m
  unfolding lookup remove_key
  lookup-remove_other key other [] h = refl
  lookup-remove_other key other ((k, a) ∷ m) h = ground (arith, lookup-remove_other key other m h)

  pub lookup-adjust_key :
      (key : ℕ) (g : A → A) (a : A) (m : Map A)
      → lookup key m ≡ some a
      → lookup key (adjust_key key g m) ≡ some (g a)
  unfolding lookup adjust_key
  lookup-adjust_key key g a [] h = cc
  lookup-adjust_key key g a ((k, b) ∷ m) h = elim (Bool-cases (k == key)) [
    | inl same ↦ let here : b ≡ a = ground arith in rw (same, same) (ap (λ x. some (g x)) here)
    | inr other ↦
        let there : lookup key m ≡ some a = ground arith in
        rw (other, other) (lookup-adjust_key key g a m there)
  ]

  pub lookup-adjust_other :
      (key other : ℕ) (g : A → A) (m : Map A)
      → (other == key) ≡ false
      → lookup key (adjust_key other g m) ≡ lookup key m
  unfolding lookup adjust_key
  lookup-adjust_other key other g [] h = refl
  lookup-adjust_other key other g ((k, a) ∷ m) h =
      ground (arith, lookup-adjust_other key other g m h)

  -- `adjust_key` seen from any key.
  pub lookup-adjust :
      (key other : ℕ) (g : A → A) (m : Map A)
      → lookup key (adjust_key other g m)
        ≡ (if other == key then Option.map g (lookup key m) else lookup key m)
  unfolding lookup adjust_key
  lookup-adjust key other g [] = ground arith
  lookup-adjust key other g ((k, a) ∷ m) = ground (arith, lookup-adjust key other g m)

  -- What is found after a removal was there before.
  pub lookup-remove_some :
      (key other : ℕ) (a : A) (m : Map A)
      → lookup key (remove_key other m) ≡ some a
      → lookup key m ≡ some a
  lookup-remove_some key other a m h = elim (Bool-cases (other == key)) [
    | inl same ↦
        let none_ = lookup-remove_key key m in
        let e : other ≡ key = ==→eq other key same in
        let gone : lookup key (remove_key other m) ≡ none =
          subst (λ k. lookup key (remove_key k m) ≡ none) (sym e) none_ in
        cc
    | inr other_ ↦ sym (lookup-remove_other key other m other_) ∙ h
  ]
