-- ===== src/Revisions/Optimized/Bounds.antt =====
-- How stale an answer of the cache can be, and what a new entry keeps.
use embedspicedb.Common.{
  ℕ, ◌<◌, ◌≡◌, refl, false, Option, none, some, List, [], ◌∷◌, ◌++◌, arith, inl, inr, Bool-cases,
  Option-cases, ap, ◌∙◌, ◌⊎◌, drop,
}
use mathlib.Core.Path.{subst}
use embedspicedb.Common.Int.{ℤ, pos, ◌+ℤ◌, ◌-ℤ◌, ◌<ℤ◌, ◌≤ℤ◌, ltb_ℤ, +ℤ_parts, -ℤ_parts}
use embedspicedb.Common.Result.{Result, ok, err}
use embedspicedb.Revisions.Optimized.{
  ValidRevision, CachedOptimizedRevisions, adjust, find_candidate, num_to_drop, optimized_revision,
}

adjust_bounds :
    (staleness draw : ℕ) (now : ℤ)
    → (0 < staleness → draw < staleness)
    → now -ℤ pos staleness ≤ℤ adjust staleness draw now
adjust_bounds staleness draw now h =
    ground (arith, -ℤ_parts now (pos staleness), -ℤ_parts now (pos draw))

module _ {R : Type 0} where
  -- A candidate of the list holds the revision and is valid past a time.
  abbrev pub Holds : R → ℤ → List (ValidRevision R) → Type 0
  Holds r now [] = ⊥
  Holds r now (c ∷ cs) = ((c.revision ≡ r) × (now <ℤ c.valid_through)) ⊎ Holds r now cs

  find_candidate-Holds :
      (now : ℤ) (cs : List (ValidRevision R)) (r : R)
      → find_candidate now cs ≡ some r
      → Holds r now cs
  unfolding find_candidate
  find_candidate-Holds now [] r h = cc
  find_candidate-Holds now (c ∷ cs) r h = ground (arith, find_candidate-Holds now cs r)

  Holds-weaken :
      (r : R) (a b : ℤ) (cs : List (ValidRevision R)) → b ≤ℤ a → Holds r a cs → Holds r b cs
  Holds-weaken r a b [] h k = k
  Holds-weaken r a b (c ∷ cs) h (inl k) = inl (k.0, omega arith)
  Holds-weaken r a b (c ∷ cs) h (inr k) = inr (Holds-weaken r a b cs h k)

  -- Dropping the expired ones at the front loses no candidate that is still within the staleness.
  Holds-drop :
      (r : R) (staleness : ℕ) (now : ℤ) (cs : List (ValidRevision R))
      → Holds r (now -ℤ pos staleness) cs
      → Holds r (now -ℤ pos staleness) (drop (num_to_drop staleness now cs) cs)
  unfolding num_to_drop
  Holds-drop r staleness now [] h = h
  Holds-drop r staleness now (c ∷ cs) (inl h) =
      let keep : ltb_ℤ (c.valid_through +ℤ pos staleness) now ≡ false =
        ground
          (arith, h.1, +ℤ_parts c.valid_through (pos staleness), -ℤ_parts now (pos staleness)) in
      rw keep (inl h)
  Holds-drop r staleness now (c ∷ cs) (inr h) =
      elim (Bool-cases (ltb_ℤ (c.valid_through +ℤ pos staleness) now)) [
        | inl old ↦ rw old (Holds-drop r staleness now cs h)
        | inr new ↦ rw new (inr h)
      ]

  Holds-append :
      (r : R) (now : ℤ) (cs ds : List (ValidRevision R))
      → (Holds r now cs ⊎ Holds r now ds)
      → Holds r now (cs ++ ds)
  Holds-append r now [] ds (inr h) = h
  Holds-append r now [] ds (inl h) = absurd h
  Holds-append r now (c ∷ cs) ds (inl (inl h)) = inl h
  Holds-append r now (c ∷ cs) ds (inl (inr h)) = inr (Holds-append r now cs ds (inl h))
  Holds-append r now (c ∷ cs) ds (inr h) = inr (Holds-append r now cs ds (inr h))

module _ {R E : Type 0} where
  hit_result :
      (cor cor' : CachedOptimizedRevisions R) (now : ℤ) (draw : ℕ) (joined : Option (Result E R))
      (computed : Result E (R × ℤ)) (r q : R)
      → find_candidate (adjust cor.max_revision_staleness draw now) cor.candidates ≡ some q
      → optimized_revision cor now draw joined computed ≡ (ok r, cor')
      → (q ≡ r) × (cor' ≡ cor)
  unfolding optimized_revision
  hit_result cor cor' now draw joined computed r q hit h = ground arith

  miss_error :
      (cor cor' : CachedOptimizedRevisions R) (now : ℤ) (draw : ℕ) (e : E) (r : R)
      → find_candidate (adjust cor.max_revision_staleness draw now) cor.candidates ≡ none
      → optimized_revision cor now draw none (err e) ≡ (ok r, cor')
      → ⊥
  unfolding optimized_revision
  miss_error cor cor' now draw e r miss h = ground arith

  miss_result :
      (cor cor' : CachedOptimizedRevisions R) (now v : ℤ) (draw : ℕ) (q r : R)
      → find_candidate (adjust cor.max_revision_staleness draw now) cor.candidates ≡ none
      → optimized_revision {E = E} cor now draw none (ok (q, v)) ≡ (ok r, cor')
      → (q ≡ r)
        × (drop (num_to_drop cor.max_revision_staleness now cor.candidates) cor.candidates
              ++ record { revision = q; valid_through = now +ℤ v } ∷ []
            ≡ cor'.candidates)
  unfolding optimized_revision
  miss_result cor cor' now v draw q r miss h = ground arith

  joined_result :
      (cor cor' : CachedOptimizedRevisions R) (now : ℤ) (draw : ℕ) (answer : Result E R)
      (computed : Result E (R × ℤ)) (r : R)
      → find_candidate (adjust cor.max_revision_staleness draw now) cor.candidates ≡ none
      → optimized_revision cor now draw (some answer) computed ≡ (ok r, cor')
      → (answer ≡ ok r) × (cor' ≡ cor)
  unfolding optimized_revision
  joined_result cor cor' now draw answer computed r miss h = ground arith

  cached :
      (cor cor' : CachedOptimizedRevisions R) (now : ℤ) (draw : ℕ) (joined : Option (Result E R))
      (computed : Result E (R × ℤ)) (r q : R)
      → (0 < cor.max_revision_staleness → draw < cor.max_revision_staleness)
      → find_candidate (adjust cor.max_revision_staleness draw now) cor.candidates ≡ some q
      → optimized_revision cor now draw joined computed ≡ (ok r, cor')
      → Holds r (now -ℤ pos cor.max_revision_staleness) cor.candidates × (cor' ≡ cor)
  cached cor cor' now draw joined computed r q d hit h =
      let s = cor.max_revision_staleness in
      let (same, kept) = hit_result cor cor' now draw joined computed r q hit h in
      (
        Holds-weaken r (adjust s draw now) (now -ℤ pos s) cor.candidates
            (adjust_bounds s draw now d)
            (find_candidate-Holds (adjust s draw now) cor.candidates r (hit ∙ ap some same)),
        kept,
      )

  -- Every revision that a call returns either stood in the cache with a validity that reaches past
  -- now less the maximum staleness, or is the answer of another call that this one joined, and in both
  -- cases this call leaves the cache unchanged, or was computed by this call; then it is now cached
  -- if its validity is positive, and every candidate that still is within the staleness stays in the
  -- cache. The random draw is below the staleness where that is positive.
  pub optimized_revision_staleness :
      (cor cor' : CachedOptimizedRevisions R) (now : ℤ) (draw : ℕ) (joined : Option (Result E R))
      (computed : Result E (R × ℤ)) (r : R)
      → (0 < cor.max_revision_staleness → draw < cor.max_revision_staleness)
      → optimized_revision cor now draw joined computed ≡ (ok r, cor')
      → let oldest = now -ℤ pos cor.max_revision_staleness in
        (Holds r oldest cor.candidates × (cor' ≡ cor))
        ⊎ (((joined ≡ some (ok r)) × (cor' ≡ cor))
            ⊎ ((v : ℤ) × (joined ≡ none)
                × (computed ≡ ok (r, v))
                × (pos 0 <ℤ v → Holds r now cor'.candidates)
                × ((q : R) → Holds q oldest cor.candidates → Holds q oldest cor'.candidates)))
  optimized_revision_staleness cor cor' now draw (some answer) computed r d h =
      elim (Option-cases
        (find_candidate (adjust cor.max_revision_staleness draw now) cor.candidates)) [
          | inl miss ↦
              let (same, kept) = joined_result cor cor' now draw answer computed r miss h in
              inr (inl (ap some same, kept))
          | inr (q, hit) ↦ inl (cached cor cor' now draw (some answer) computed r q d hit h)
        ]
  optimized_revision_staleness cor cor' now draw none (err e) r d h =
      elim (Option-cases
        (find_candidate (adjust cor.max_revision_staleness draw now) cor.candidates)) [
          | inl miss ↦ absurd (miss_error cor cor' now draw e r miss h)
          | inr (q, hit) ↦ inl (cached cor cor' now draw none (err e) r q d hit h)
        ]
  optimized_revision_staleness cor cor' now draw none (ok (q, v)) r d h =
      elim (Option-cases
        (find_candidate (adjust cor.max_revision_staleness draw now) cor.candidates)) [
          | inr (p, hit) ↦ inl (cached cor cor' now draw none (ok (q, v)) r p d hit h)
          | inl miss ↦
              let (same, list) = miss_result cor cor' now v draw q r miss h in
              let s = cor.max_revision_staleness in
              let kept = drop (num_to_drop s now cor.candidates) cor.candidates in
              inr (
                inr (
                  v,
                  refl,
                  ap (λ x. ok (x, v)) same,
                  (λ p. subst (Holds r now) list (
                      Holds-append r now kept _ (inr (inl (same, omega (arith, +ℤ_parts now v)))))),
                  λ p k. subst (Holds p (now -ℤ pos s)) list (
                      Holds-append p (now -ℤ pos s) kept _
                        (inl (Holds-drop p s now cor.candidates k))),
                ))
        ]
