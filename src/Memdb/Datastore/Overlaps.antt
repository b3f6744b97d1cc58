-- ===== src/Memdb/Datastore/Overlaps.antt =====
-- memdb.go: two read-write transactions of which one commits while the other is in progress.
use embedspicedb.Common.{
  ℕ, ◌≡◌, refl, some, List, [], ◌∷◌, ◌++◌, arith, last?, Option-cases, inl, inr,
}
use embedspicedb.Common.Int.{ℤ, ◌<ℤ◌}
use embedspicedb.Common.Result.{Result, ok, err}
use embedspicedb.Memdb.Datastore.{
  MemdbError, Snapshot, frozen_db, MemdbDatastore, TxUserFunc, with_txn, without_txn, Meanwhile,
  tx_source, attempt, new_revision_id, add_snapshot, commit, commit_to, release, hold, end_without,
  end_with, from_source, run_function,
}
use embedspicedb.Memdb.Datastore.Isolation.{IsAscending}

module _ {DB : Type 0} where
  -- No other call comes in between.
  abbrev pub undisturbed : Meanwhile DB
  undisturbed = record { before_source = λ s. s; after_source = λ s. s }

  -- The revisions of a state with a snapshot at a revision after them.
  abbrev pub Extends : List (Snapshot DB) → ℤ → MemdbDatastore DB → Type 0
  Extends rs revision u = (s : Snapshot DB) × (s.revision ≡ revision) × (u.revisions ≡ rs ++ s ∷ [])

  add_snapshot-ok :
      (r revision : ℤ) (mdb u : MemdbDatastore DB)
      → add_snapshot r mdb ≡ (ok revision, u)
      → Extends mdb.revisions revision u × (r ≡ revision)
  add_snapshot-ok r revision mdb u h = elim (Option-cases mdb.db) [
    | inl closed ↦ ground arith
    | inr (db, held) ↦
        ((record { revision = r; db = frozen_db db }, ground arith, ground arith), ground arith)
  ]

  commit-ok :
      (log : DB → DB → ℤ → Result ℕ DB) (before after : DB) (r revision : ℤ)
      (mdb u : MemdbDatastore DB)
      → commit log before after r mdb ≡ (ok revision, u)
      → Extends mdb.revisions revision u × (r ≡ revision)
  commit-ok log before after r revision mdb u h = go (log before after r) refl
    where
      go :
          (x : Result ℕ DB)
          → log before after r ≡ x
          → Extends mdb.revisions revision u × (r ≡ revision)
      go (err x) q = ground arith
      go (ok logged) q = add_snapshot-ok r revision (commit_to logged mdb) u (ground arith)

  end_without-ok :
      (x : Result MemdbError (Unit {0})) (r revision : ℤ) (mdb u : MemdbDatastore DB)
      → end_without x r mdb ≡ (ok revision, u)
      → Extends mdb.revisions revision u × (r ≡ revision)
  end_without-ok (err x) r revision mdb u h = ground arith
  end_without-ok (ok x) r revision mdb u h = add_snapshot-ok r revision (release mdb) u h

  run_function-ok :
      (log : DB → DB → ℤ → Result ℕ DB) (f : TxUserFunc DB) (others : Meanwhile DB) (r revision : ℤ)
      (mdb u : MemdbDatastore DB)
      → ((s : MemdbDatastore DB) → (others.after_source s).revisions ≡ s.revisions)
      → run_function log f others r mdb ≡ (ok revision, u)
      → Extends mdb.revisions revision u × (r ≡ revision)
  run_function-ok log (without_txn x) others r revision mdb u k h =
      let ended = end_without-ok x r revision (others.after_source mdb) u h in rw (k mdb) at ended
  run_function-ok log (with_txn answer g) others r revision mdb u k h = source (tx_source mdb) h
    where
      ended :
          (before : DB) (x : Result MemdbError DB)
          → end_with log before x r (others.after_source (hold mdb)) ≡ (ok revision, u)
          → Extends mdb.revisions revision u × (r ≡ revision)
      ended before (err x) q = ground arith
      ended before (ok after) q =
          let done = commit-ok log before after r revision (others.after_source (hold mdb)) u q in
          rw (k (hold mdb)) at done

      source :
          (x : Result MemdbError DB)
          → from_source log answer g others r mdb x ≡ (ok revision, u)
          → Extends mdb.revisions revision u × (r ≡ revision)
      source (err x) q =
          let done = end_without-ok (answer x) r revision (others.after_source mdb) u q in
          rw (k mdb) at done
      source (ok before) q = ended before (g before) q

  attempt-ok :
      (log : DB → DB → ℤ → Result ℕ DB) (f : ℤ → TxUserFunc DB) (others : Meanwhile DB)
      (now revision : ℤ) (mdb u : MemdbDatastore DB)
      → ((s : MemdbDatastore DB) → (others.after_source s).revisions ≡ s.revisions)
      → attempt log f others now mdb ≡ (ok revision, u)
      → Extends (others.before_source mdb).revisions revision u
  unfolding attempt
  attempt-ok log f others now revision mdb u k h = go (new_revision_id now mdb) refl
    where
      go :
          (x : Result MemdbError ℤ)
          → new_revision_id now mdb ≡ x
          → Extends (others.before_source mdb).revisions revision u
      go (err x) q = ground arith
      go (ok r) q =
          (run_function-ok log (f r) others r revision (others.before_source mdb) u k
            (ground arith)).0

  two_last-IsAscending :
      (rs : List (Snapshot DB)) (s t : Snapshot DB)
      → IsAscending ((rs ++ s ∷ []) ++ t ∷ [])
      → s.revision <ℤ t.revision
  two_last-IsAscending [] s t h = ground arith
  two_last-IsAscending (r ∷ rs) s t (a, rest) = two_last-IsAscending rs s t rest

  last?-append : (rs : List (Snapshot DB)) (t : Snapshot DB) → last? (rs ++ t ∷ []) ≡ some t
  last?-append [] t = refl
  last?-append (r ∷ []) t = refl
  last?-append (r ∷ s ∷ rs) t = ground (arith, last?-append (s ∷ rs) t)

  -- Another transaction that runs as a whole between this one's revision and its transaction.
  abbrev pub overtaken : (DB → DB → ℤ → Result ℕ DB) → (ℤ → TxUserFunc DB) → ℤ → Meanwhile DB
  overtaken log other now = record {
    before_source = λ s. (attempt log other undisturbed now s).1;
    after_source = λ s. s;
  }

  -- Where a transaction commits that took its revision before another one which committed
  -- meanwhile at a later revision, the head goes back to its own revision and the revisions of the
  -- datastore no longer ascend.
  pub attempt-overtaken :
      (log : DB → DB → ℤ → Result ℕ DB) (f other : ℤ → TxUserFunc DB)
      (now other_now earlier later : ℤ) (mdb t u : MemdbDatastore DB)
      → attempt log other undisturbed other_now mdb ≡ (ok later, t)
      → attempt log f (overtaken log other other_now) now mdb ≡ (ok earlier, u)
      → earlier <ℤ later
      → ((s : Snapshot DB) × (last? u.revisions ≡ some s) × (s.revision ≡ earlier))
        × ¬ IsAscending u.revisions
  attempt-overtaken log f other now other_now earlier later mdb t u h k l =
      let (s, a, b) = attempt-ok log other undisturbed other_now later mdb t (λ x. refl) h in
      let (v, c, d) =
        attempt-ok log f (overtaken log other other_now) now earlier mdb u (λ x. refl) k in
      let revisions = rw (h, b) at d in
      (
        (v, rw revisions (last?-append (mdb.revisions ++ s ∷ []) v), c),
        λ asc.
            ground
              (arith, two_last-IsAscending mdb.revisions s v (rw (revisions, IsAscending) at asc)),
      )
