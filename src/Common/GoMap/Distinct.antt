-- ===== src/Common/GoMap/Distinct.antt =====
-- Association lists with distinct keys, which a Go map has, and the maps that keep some entries.
use mathlib.Core.Path.{◌≡◌, refl}
use mathlib.Core.Bool.{Bool}
use mathlib.Core.Option.{Option, none, some}
use mathlib.Core.List.{[], ◌∷◌}
use mathlib.Core.Logic.{inl, inr}
use native.Mathlib.Omega.{arith}
use embedspicedb.Common.Tests.{if◌then◌else◌, Bool-cases}
use embedspicedb.Common.Lists.{filter, All, All-weaken}
use embedspicedb.Common.Eq.{Eq, beq_refl}
use embedspicedb.Common.GoMap.{GoMap, lookup, insert, lookup-insert}

-- A value that passes a test, if there is one.
abbrev pub keep {ℓ} : {V : Type ℓ} → (V → Bool) → Option V → Option V
keep q none = none
keep q (some v) = if q v then some v else none

module _ {ℓ κ} {K : Type ℓ} {V : Type κ} ⦃e : Eq K⦄ where
  abbrev pub Distinct : GoMap K V → Type κ
  Distinct [] = Unit
  Distinct ((k, v) ∷ m) = (lookup k m ≡ none) × Distinct m

  pub Distinct-insert : (k : K) (v : V) (m : GoMap K V) → Distinct m → Distinct (insert k v m)
  unfolding insert lookup
  Distinct-insert k v [] h = (refl, tt)
  Distinct-insert k v ((j, w) ∷ m) h = elim (Bool-cases (e.beq j k)) [
    | inl same ↦ rw same (h.0, h.1)
    | inr other ↦ rw other (
      ground (arith, lookup-insert k j v m, e.beq_iff j k, e.beq_iff k j, h.0),
      Distinct-insert k v m h.1,
    )
  ]

  pub lookup-filter :
      (q : V → Bool) (k : K) (m : GoMap K V)
      → Distinct m
      → lookup k (filter (λ (x : K × V). q x.1) m) ≡ keep q (lookup k m)
  unfolding lookup
  lookup-filter q k [] h = refl
  lookup-filter q k ((j, v) ∷ m) h = ground (arith, lookup-filter q k m h.1, h.0, e.beq_iff j k)

  pub Distinct-filter :
      (q : V → Bool) (m : GoMap K V) → Distinct m → Distinct (filter (λ (x : K × V). q x.1) m)
  Distinct-filter q [] h = tt
  Distinct-filter q ((j, v) ∷ m) h = elim (Bool-cases (q v)) [
    | inl yes' ↦ rw yes' (ground (arith, lookup-filter q j m h.1, h.0), Distinct-filter q m h.1)
    | inr no' ↦ rw no' (Distinct-filter q m h.1)
  ]

  entry_of_tail :
      (j : K) (w : V) (m : GoMap K V) (x : K × V)
      → lookup j m ≡ none
      → lookup x.0 m ≡ some x.1
      → lookup x.0 ((j, w) ∷ m) ≡ some x.1
  unfolding lookup
  entry_of_tail j w m x free h = ground (arith, e.beq_iff j x.0)

  -- Each entry of the list is what a lookup of its key finds.
  pub All-lookup : (m : GoMap K V) → Distinct m → All (λ (x : K × V). lookup x.0 m ≡ some x.1) m
  All-lookup [] h = tt
  All-lookup ((j, w) ∷ m) h = (
    unfold lookup in rw (beq_refl e j),
    All-weaken m (λ x k. entry_of_tail j w m x h.0 k) (All-lookup m h.1),
  )
