-- ===== src/Revisions/Optimized.antt =====
-- optimized.go: a cache of revisions, each with the time through which it is valid. Times are
-- nanoseconds as integers. The random draw, the clock and the function that computes a new revision
-- are arguments. The staleness is not negative. `joined` is what the group that joins concurrent
-- calls gives a call that finds another one computing: the answer of that one, none where the call
-- computes itself. A call is one step else: no other comes between its read and its write lock.
pub mod Bounds
use embedspicedb.Common.{
  ℕ, Bool, Option, none, some, List, [], ◌∷◌, ◌++◌, ltb, if◌then◌else◌, drop, suc,
}
use embedspicedb.Common.Int.{ℤ, pos, ◌+ℤ◌, ◌-ℤ◌, ltb_ℤ}
use embedspicedb.Common.Result.{Result, ok, err}

pub record ValidRevision (R : Type 0) : Type 0 where
  pub revision : R
  pub valid_through : ℤ

pub record CachedOptimizedRevisions (R : Type 0) : Type 0 where
  pub max_revision_staleness : ℕ
  pub candidates : List (ValidRevision R)

-- `localNow` less a random part of the staleness, which is drawn only if that is positive.
abbrev pub adjust : ℕ → ℕ → ℤ → ℤ
adjust staleness draw local_now = if ltb 0 staleness then local_now -ℤ pos draw else local_now

module _ {R : Type 0} where
  -- The first candidate whose `validThrough` is after the time.
  unfoldable pub find_candidate : ℤ → List (ValidRevision R) → Option R
  find_candidate now [] = none
  find_candidate now (c ∷ cs) =
      if ltb_ℤ now c.valid_through then some c.revision else find_candidate now cs

  -- The number of candidates at the front that have expired by more than the staleness.
  unfoldable pub num_to_drop : ℕ → ℤ → List (ValidRevision R) → ℕ
  num_to_drop staleness now [] = 0
  num_to_drop staleness now (c ∷ cs) =
      if ltb_ℤ (c.valid_through +ℤ pos staleness) now then suc (num_to_drop staleness now cs) else 0

module _ {R E : Type 0} where
  -- The function that the group runs.
  abbrev pub update :
      CachedOptimizedRevisions R → ℤ → Result E (R × ℤ) → Result E R × CachedOptimizedRevisions R
  update cor local_now (err e) = (err e, cor)
  update cor local_now (ok (r, valid_for)) = (
    ok r,
    record cor {
      candidates =
          drop (num_to_drop cor.max_revision_staleness local_now cor.candidates) cor.candidates
          ++ record { revision = r; valid_through = local_now +ℤ valid_for } ∷ [];
    },
  )

  unfoldable pub optimized_revision :
      CachedOptimizedRevisions R
      → ℤ
      → ℕ
      → Option (Result E R)
      → Result E (R × ℤ)
      → Result E R × CachedOptimizedRevisions R
  unfolding find_candidate num_to_drop
  optimized_revision cor local_now draw joined computed =
      elim (find_candidate (adjust cor.max_revision_staleness draw local_now) cor.candidates) [
        | some r ↦ (ok r, cor)
        | none ↦ elim joined [ some answer ↦ (answer, cor) | none ↦ update cor local_now computed ]
      ]
