-- ===== src/Common/Sort.antt =====
-- Go's sort.Slice as an insertion sort, for a strict weak order. Go's sort is not stable, which shows
-- only where two elements are equivalent.
pub mod Filter
use mathlib.Core.Path.{◌≡◌, refl, ap}
use mathlib.Core.Logic.{inl, inr}
use mathlib.Core.Bool.{Bool, true, false}
use mathlib.Core.List.{List, [], ◌∷◌, Perm, map}
use mathlib.Core.List.Perm
use embedspicedb.Common.Tests.{if◌then◌else◌, Bool-cases}
use embedspicedb.Common.Lists.{All}

pub record IsStrictWeak {ℓ} {A : Type ℓ} (less : A → A → Bool) : Type ℓ where
  pub asym : (a b : A) → less a b ≡ true → less b a ≡ false
  pub neg_trans : (a b c : A) → less a b ≡ false → less b c ≡ false → less a c ≡ false

module _ {ℓ} {A : Type ℓ} (less : A → A → Bool) where
  unfoldable pub insert_sorted : A → List A → List A
  insert_sorted a [] = a ∷ []
  insert_sorted a (x ∷ xs) =
      let later = x ∷ insert_sorted a xs in if less x a then later else a ∷ x ∷ xs

  unfoldable pub sort_slice : List A → List A
  sort_slice [] = []
  sort_slice (x ∷ xs) = insert_sorted x (sort_slice xs)

  -- No element is less than one that stands before it.
  abbrev pub IsSorted : List A → Type 0
  IsSorted [] = Unit
  IsSorted (x ∷ xs) = All (λ y. less y x ≡ false) xs × IsSorted xs

  insert_sorted-perm : (a : A) (xs : List A) → Perm (insert_sorted a xs) (a ∷ xs)
  unfolding insert_sorted
  insert_sorted-perm a [] = Perm.refl (a ∷ [])
  insert_sorted-perm a (x ∷ xs) = elim (Bool-cases (less x a)) [
    | inl lt ↦ rw lt (Perm.trans (Perm.cons x (insert_sorted-perm a xs)) (Perm.swap a x xs))
    | inr ge ↦ rw ge (Perm.refl (a ∷ x ∷ xs))
  ]

  pub sort_slice-perm : (xs : List A) → Perm (sort_slice xs) xs
  unfolding sort_slice
  sort_slice-perm [] = Perm.refl []
  sort_slice-perm (x ∷ xs) =
      Perm.trans (insert_sorted-perm x (sort_slice xs)) (Perm.cons x (sort_slice-perm xs))

  pub All-insert_sorted {κ} :
      (P : A → Type κ) (a : A) (xs : List A) → P a → All P xs → All P (insert_sorted a xs)
  unfolding insert_sorted
  All-insert_sorted P a [] h k = (h, k)
  All-insert_sorted P a (x ∷ xs) h k = elim (Bool-cases (less x a)) [
    | inl lt ↦ rw lt (k.0, All-insert_sorted P a xs h k.1)
    | inr ge ↦ rw ge (h, k)
  ]

  pub All-sort_slice {κ} : (P : A → Type κ) (xs : List A) → All P xs → All P (sort_slice xs)
  unfolding sort_slice
  All-sort_slice P [] h = h
  All-sort_slice P (x ∷ xs) h = All-insert_sorted P x (sort_slice xs) h.0 (All-sort_slice P xs h.1)

  module _ (o : IsStrictWeak less) where
    All-not_less :
        (a x : A) (xs : List A)
        → less x a ≡ false
        → All (λ y. less y x ≡ false) xs
        → All (λ y. less y a ≡ false) xs
    All-not_less a x [] h k = tt
    All-not_less a x (y ∷ ys) h k = (o.neg_trans y x a k.0 h, All-not_less a x ys h k.1)

    insert_sorted-IsSorted : (a : A) (xs : List A) → IsSorted xs → IsSorted (insert_sorted a xs)
    unfolding insert_sorted
    insert_sorted-IsSorted a [] h = (tt, tt)
    insert_sorted-IsSorted a (x ∷ xs) h = elim (Bool-cases (less x a)) [
      | inl lt ↦ rw lt (
        All-insert_sorted (λ y. less y x ≡ false) a xs (o.asym x a lt) h.0,
        insert_sorted-IsSorted a xs h.1,
      )
      | inr ge ↦ rw ge ((ge, All-not_less a x xs ge h.0), h)
    ]

    pub sort_slice-IsSorted : (xs : List A) → IsSorted (sort_slice xs)
    unfolding sort_slice
    sort_slice-IsSorted [] = tt
    sort_slice-IsSorted (x ∷ xs) = insert_sorted-IsSorted x (sort_slice xs) (sort_slice-IsSorted xs)

-- Sorting the images by an order is sorting by the order of the images.
module _ {ℓ κ} {A : Type ℓ} {B : Type κ} (f : A → B) (less : B → B → Bool) where
  insert_sorted-map :
      (a : A) (xs : List A)
      → insert_sorted less (f a) (map f xs) ≡ map f (insert_sorted (λ x y. less (f x) (f y)) a xs)
  unfolding insert_sorted
  insert_sorted-map a [] = refl
  insert_sorted-map a (x ∷ xs) = elim (Bool-cases (less (f x) (f a))) [
    | inl lt ↦ rw lt (ap (λ r. f x ∷ r) (insert_sorted-map a xs))
    | inr ge ↦ rw ge
  ]

  pub sort_slice-map :
      (xs : List A) → sort_slice less (map f xs) ≡ map f (sort_slice (λ x y. less (f x) (f y)) xs)
  unfolding sort_slice
  sort_slice-map [] = refl
  sort_slice-map (x ∷ xs) =
      rw (sort_slice-map xs) (insert_sorted-map x (sort_slice (λ x y. less (f x) (f y)) xs))
