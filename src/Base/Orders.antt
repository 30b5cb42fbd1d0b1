-- ===== src/Base/Orders.antt =====
-- Lists up to their order.
use mathlib.Core.Path.{◌≡◌, refl}
use mathlib.Core.Logic.{∥∥₁_map}
use mathlib.Core.Bool.{Bool}
use mathlib.Core.List.{List, ◌∷◌, Perm, Permᴰ}
use mathlib.Core.List.Permᴰ
use mathlib.Core.Logic.{inl, inr}
use s3rm_rs.Base.Tests.{Bool-cases}
use s3rm_rs.Base.Lists.{filter_by}

module _ {ℓ} {A : Type ℓ} (p : A → Bool) where
  filter_by-cons :
      (a b : A) (xs ys : List A)
      → a ≡ b
      → Permᴰ (filter_by p xs) (filter_by p ys)
      → Permᴰ (filter_by p (a ∷ xs)) (filter_by p (b ∷ ys))
  filter_by-cons a b xs ys e d = elim (Bool-cases (p a)) [
    | inl keeps ↦ rw (← e, keeps) (Permᴰ.cons refl d)
    | inr drops ↦ rw (← e, drops) d
  ]

  filter_by-swap :
      (a b : A) (xs : List A) → Permᴰ (filter_by p (a ∷ b ∷ xs)) (filter_by p (b ∷ a ∷ xs))
  filter_by-swap a b xs = elim (Bool-cases (p a)) [
    | inl keeps_a ↦ elim (Bool-cases (p b)) [
      | inl keeps_b ↦ rw (keeps_a, keeps_b) (Permᴰ.swap refl refl)
      | inr drops_b ↦ rw (keeps_a, drops_b) (Permᴰ.refl _)
    ]
    | inr drops_a ↦ rw drops_a (Permᴰ.refl _)
  ]

  filter_by-Permᴰ : {xs ys : List A} → Permᴰ xs ys → Permᴰ (filter_by p xs) (filter_by p ys)
  filter_by-Permᴰ Permᴰ.nil = Permᴰ.nil
  filter_by-Permᴰ (Permᴰ.cons {a} {b} {l₁} {l₂} e d) =
      filter_by-cons a b l₁ l₂ e (filter_by-Permᴰ d)
  filter_by-Permᴰ (Permᴰ.swap {a} {b} {a'} {b'} {l} e f) = rw (← e, ← f) (filter_by-swap a b l)
  filter_by-Permᴰ (Permᴰ.trans d e) = Permᴰ.trans (filter_by-Permᴰ d) (filter_by-Permᴰ e)

  -- A filter keeps lists equal up to their order.
  pub filter_by-Perm : (xs ys : List A) → Perm xs ys → Perm (filter_by p xs) (filter_by p ys)
  filter_by-Perm xs ys d = ∥∥₁_map {B = Permᴰ (filter_by p xs) (filter_by p ys)} d filter_by-Permᴰ
