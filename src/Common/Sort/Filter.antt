-- ===== src/Common/Sort/Filter.antt =====
-- Sorting and filtering commute, and sorting keeps what holds between any two elements.
use mathlib.Core.Path.{◌≡◌, refl}
use mathlib.Core.Logic.{inl, inr}
use mathlib.Core.Bool.{Bool, false}
use mathlib.Core.List.{List, [], ◌∷◌}
use native.Mathlib.Omega.{arith}
use embedspicedb.Common.Tests.{if◌then◌else◌, Bool-cases}
use embedspicedb.Common.Lists.{All, All-filter, All-weaken, filter}
use embedspicedb.Common.Sort.{
  IsStrictWeak, IsSorted, insert_sorted, sort_slice, All-insert_sorted, All-sort_slice,
  sort_slice-IsSorted,
}

-- Each element stands in a relation to every later one.
abbrev pub Pairwise {ℓ κ} : {A : Type ℓ} → (A → A → Type κ) → List A → Type κ
Pairwise R [] = Unit
Pairwise R (x ∷ xs) = All (R x) xs × Pairwise R xs

module _ {ℓ κ} {A : Type ℓ} (R : A → A → Type κ) where
  pub Pairwise-filter : (q : A → Bool) (xs : List A) → Pairwise R xs → Pairwise R (filter q xs)
  Pairwise-filter q [] h = tt
  Pairwise-filter q (x ∷ xs) h = elim (Bool-cases (q x)) [
    | inl kept ↦ rw kept (All-filter (R x) q xs h.0, Pairwise-filter q xs h.1)
    | inr gone ↦ rw gone (Pairwise-filter q xs h.1)
  ]

  module _ (sym_R : (a b : A) → R a b → R b a) (less : A → A → Bool) where
    insert_sorted-Pairwise :
        (a : A) (xs : List A) → All (R a) xs → Pairwise R xs → Pairwise R (insert_sorted less a xs)
    unfolding insert_sorted
    insert_sorted-Pairwise a [] h k = (tt, tt)
    insert_sorted-Pairwise a (x ∷ xs) h k = elim (Bool-cases (less x a)) [
      | inl lt ↦ rw lt (
        All-insert_sorted less (R x) a xs (sym_R a x h.0) k.0,
        insert_sorted-Pairwise a xs h.1 k.1,
      )
      | inr ge ↦ rw ge (h, k)
    ]

    pub sort_slice-Pairwise : (xs : List A) → Pairwise R xs → Pairwise R (sort_slice less xs)
    unfolding sort_slice
    sort_slice-Pairwise [] h = tt
    sort_slice-Pairwise (x ∷ xs) h =
        insert_sorted-Pairwise x (sort_slice less xs) (All-sort_slice less (R x) xs h.0)
          (sort_slice-Pairwise xs h.1)

module _ {ℓ} {A : Type ℓ} (less : A → A → Bool) (o : IsStrictWeak less) (q : A → Bool) where
  -- An element that is not above any stands in front.
  insert_sorted-front :
      (a : A) (xs : List A) → All (λ y. less y a ≡ false) xs → insert_sorted less a xs ≡ a ∷ xs
  unfolding insert_sorted
  insert_sorted-front a [] h = refl
  insert_sorted-front a (x ∷ xs) h = rw h.0 refl

  not_below :
      (a x : A) (xs : List A)
      → less x a ≡ false
      → All (λ y. less y x ≡ false) xs
      → All (λ y. less y a ≡ false) xs
  not_below a x xs h k = All-weaken xs (λ y g. o.neg_trans y x a g h) k

  filter-insert_sorted :
      (a : A) (xs : List A)
      → IsSorted less xs
      → filter q (insert_sorted less a xs)
        ≡ (if q a then insert_sorted less a (filter q xs) else filter q xs)
  unfolding insert_sorted
  filter-insert_sorted a [] h = ground arith
  filter-insert_sorted a (x ∷ xs) h = elim (Bool-cases (less x a)) [
    | inl lt ↦ rw lt (ground (arith, filter-insert_sorted a xs h.1))
    | inr ge ↦ rw ge (
        ground (
          arith,
          insert_sorted-front a (filter q (x ∷ xs))
              (All-filter (λ y. less y a ≡ false) q (x ∷ xs) (ge, not_below a x xs ge h.0)),
        ))
  ]

  -- Filtering the sorted elements is sorting the filtered ones.
  pub filter-sort_slice :
      (xs : List A) → filter q (sort_slice less xs) ≡ sort_slice less (filter q xs)
  unfolding sort_slice
  filter-sort_slice [] = refl
  filter-sort_slice (x ∷ xs) =
      rw (filter-insert_sorted x (sort_slice less xs) (sort_slice-IsSorted less o xs))
        (ground (arith, filter-sort_slice xs))
