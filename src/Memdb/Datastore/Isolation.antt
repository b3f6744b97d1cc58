-- ===== src/Memdb/Datastore/Isolation.antt =====
-- memdb.go and revisions.go: the order of the revisions, and what a reader at one of them reads.
use embedspicedb.Common.{
  ℕ, zero, suc, ◌<◌, ◌≤◌, ◌≡◌, ◌≢◌, ◌↔◌, Bool, true, false, Option, none, some, List, [], ◌∷◌, ◌++◌,
  arith, length, get_elem?, last?, All, inl, inr, Option-cases,
}
use embedspicedb.Common.Int.{ℤ, pos, ◌+ℤ◌, ◌<ℤ◌, ◌≤ℤ◌, IsInt64, wrap64-IsInt64, +ℤ_parts}
use embedspicedb.Common.Result.{Result, ok}
use embedspicedb.Memdb.Datastore.{
  MemdbError, Snapshot, frozen_db, TxUserFunc, with_txn, tx_source, MemdbDatastore, new_revision_id,
  snapshot_reader, not_before, check_revision_local, attempt, Meanwhile, hold,
}

-- What `sort.Search` documents: the smallest index at which the test is true, where the test stays
-- true from there on.
pub record SearchLaws (search : ℕ → (ℕ → Bool) → ℕ) : Type 0 where
  pub smallest :
      (n i : ℕ) (f : ℕ → Bool)
      → i < n
      → f i ≡ true
      → ((j : ℕ) → j < i → f j ≡ false)
      → ((j : ℕ) → i < j → j < n → f j ≡ true)
      → search n f ≡ i

module _ {DB : Type 0} where
  -- The revisions of the snapshots ascend.
  abbrev pub IsAscending : List (Snapshot DB) → Type 0
  IsAscending [] = Unit
  IsAscending (s ∷ rs) = All (λ t. s.revision <ℤ t.revision) rs × IsAscending rs

  abbrev pub At : List (Snapshot DB) → ℕ → Snapshot DB → Type 0
  At rs i s = get_elem? rs i ≡ some s

  At-below : (rs : List (Snapshot DB)) (i : ℕ) (s : Snapshot DB) → At rs i s → i < length rs
  At-below [] i s h = ground arith
  At-below (r ∷ rs) zero s h = ground arith
  At-below (r ∷ rs) (suc i) s h = ground (arith, At-below rs i s h)

  absent_at : (rs : List (Snapshot DB)) (j : ℕ) → get_elem? rs j ≡ none → length rs ≤ j
  absent_at [] j h = ground arith
  absent_at (r ∷ rs) zero h = ground arith
  absent_at (r ∷ rs) (suc j) h = ground (arith, absent_at rs j h)

  some_inj : (r s : Snapshot DB) → Path (Option (Snapshot DB)) (some r) (some s) → s ≡ r
  some_inj r s h = ground arith

  At-All :
      (P : Snapshot DB → Type 0) (rs : List (Snapshot DB)) (i : ℕ) (s : Snapshot DB)
      → All P rs
      → At rs i s
      → P s
  At-All P [] i s a h = ground arith
  At-All P (r ∷ rs) zero s (a, rest) h = rw (some_inj r s h) a
  At-All P (r ∷ rs) (suc i) s (a, rest) h = At-All P rs i s rest h

  before-At :
      (rs : List (Snapshot DB)) (i j : ℕ) (s : Snapshot DB)
      → IsAscending rs
      → At rs i s
      → j < i
      → not_before rs s.revision j ≡ false
  before-At [] i j s a h l = ground arith
  before-At (r ∷ rs) zero j s a h l = ground arith
  before-At (r ∷ rs) (suc i) zero s (a, rest) h l =
      ground (arith, At-All (λ t. r.revision <ℤ t.revision) rs i s a h)
  before-At (r ∷ rs) (suc i) (suc j) s (a, rest) h l = before-At rs i j s rest h (omega arith)

  after-At :
      (rs : List (Snapshot DB)) (i j : ℕ) (s : Snapshot DB)
      → IsAscending rs
      → At rs i s
      → i < j
      → j < length rs
      → not_before rs s.revision j ≡ true
  after-At [] i j s a h l b = ground arith
  after-At (r ∷ rs) zero zero s a h l b = ground arith
  after-At (r ∷ rs) zero (suc j) s (a, rest) h l b = elim (Option-cases (get_elem? rs j)) [
    | inl gone ↦ ground (arith, absent_at rs j gone)
    | inr (t, held) ↦ ground (arith, At-All (λ u. r.revision <ℤ u.revision) rs j t a held)
  ]
  after-At (r ∷ rs) (suc i) zero s a h l b = ground arith
  after-At (r ∷ rs) (suc i) (suc j) s (a, rest) h l b =
      after-At rs i j s rest h (omega arith) (omega arith)

  -- A reader at the revision of a snapshot, which is one that the check admits, reads the tables as
  -- they were frozen there, where the revisions ascend, the datastore is open and the binary search
  -- does what it documents.
  pub snapshot_reader_exact :
      (search : ℕ → (ℕ → Bool) → ℕ) (now : ℤ) (mdb : MemdbDatastore DB) (live : DB) (i : ℕ)
      (s : Snapshot DB) (db : DB)
      → SearchLaws search
      → mdb.db ≡ some live
      → IsAscending mdb.revisions
      → At mdb.revisions i s
      → s.db ≡ frozen_db db
      → check_revision_local now s.revision mdb ≡ ok tt
      → snapshot_reader search now s.revision mdb ≡ ok db
  unfolding snapshot_reader
  snapshot_reader_exact search now mdb live i s db laws opened asc h fr chk = ground (
    arith,
    At-below mdb.revisions i s h,
    laws.smallest (length mdb.revisions) i (not_before mdb.revisions s.revision)
        (At-below mdb.revisions i s h) (ground arith) (λ j l. before-At mdb.revisions i j s asc h l)
        (λ j l b. after-At mdb.revisions i j s asc h l b),
  )

  -- A new revision is never that of the head: it is what the clock reads, or one more, and the
  -- latter just where the clock reads the head itself; so it is after the head just when the clock is
  -- not behind the head. One more than the clock's reading is an int64.
  pub new_revision_id_after_head :
      (now revision : ℤ) (mdb : MemdbDatastore DB) (head : Snapshot DB)
      → IsInt64 (now +ℤ pos 1)
      → last? mdb.revisions ≡ some head
      → new_revision_id now mdb ≡ ok revision
      → (revision ≢ head.revision)
        × ((now ≢ head.revision) → revision ≡ now)
        × ((now ≡ head.revision) → revision ≡ now +ℤ pos 1)
        × ((head.revision <ℤ revision) ↔ (head.revision ≤ℤ now))
  unfolding new_revision_id
  new_revision_id_after_head now revision mdb head w l h = (
    unfold ◌+ℤ◌ in ground (arith, wrap64-IsInt64 (now +ℤ pos 1) w, +ℤ_parts now (pos 1)),
    unfold ◌+ℤ◌ in ground (arith, wrap64-IsInt64 (now +ℤ pos 1) w),
    unfold ◌+ℤ◌ in ground (arith, wrap64-IsInt64 (now +ℤ pos 1) w),
    unfold ◌+ℤ◌ in ground (arith, wrap64-IsInt64 (now +ℤ pos 1) w, +ℤ_parts now (pos 1)),
  )

  append-IsAscending :
      (rs : List (Snapshot DB)) (s : Snapshot DB)
      → IsAscending rs
      → All (λ t. t.revision <ℤ s.revision) rs
      → IsAscending (rs ++ s ∷ [])
  append-IsAscending [] s a b = ground arith
  append-IsAscending (r ∷ rs) s (a, rest) (b, others) =
      (all-append rs s a b, append-IsAscending rs s rest others)
    where
      all-append :
          (ts : List (Snapshot DB)) (u : Snapshot DB)
          → All (λ t. r.revision <ℤ t.revision) ts
          → r.revision <ℤ u.revision
          → All (λ t. r.revision <ℤ t.revision) (ts ++ u ∷ [])
      all-append [] u p q = ground arith
      all-append (t ∷ ts) u p q = ground (arith, all-append ts u)

  below-last :
      (rs : List (Snapshot DB)) (head : Snapshot DB) (x : ℤ)
      → IsAscending rs
      → last? rs ≡ some head
      → head.revision <ℤ x
      → All (λ t. t.revision <ℤ x) rs
  below-last [] head x a l h = ground arith
  below-last (r ∷ []) head x a l h = ground arith
  below-last (r ∷ s ∷ rs) head x a l h = ground (arith, below-last (s ∷ rs) head x)

  abbrev pub committed : ℤ → DB → MemdbDatastore DB → MemdbDatastore DB
  committed revision logged mdb = record mdb {
    db = some logged;
    revisions = mdb.revisions ++ record { revision = revision; db = frozen_db logged } ∷ [];
    active_write_txn = false;
  }

  -- What an attempt ends in: what the other calls leave, with the transaction held.
  abbrev pub held_at_end : Meanwhile DB → MemdbDatastore DB → MemdbDatastore DB
  held_at_end others mdb = others.after_source (hold (others.before_source mdb))

  -- Where the revisions ascend and the clock is not behind the head, an attempt whose function gets
  -- the transaction and does not fail, and whose changelog is built, while no other call adds a
  -- snapshot or closes the datastore, succeeds with a revision after the head: what it committed is
  -- the live state and is frozen at the end of the revisions, which still ascend, and no write
  -- transaction is held. One more than the clock's reading is an int64.
  pub attempt_commits :
      (log : DB → DB → ℤ → Result ℕ DB) (f : ℤ → TxUserFunc DB) (others : Meanwhile DB)
      (now revision : ℤ) (mdb : MemdbDatastore DB) (head : Snapshot DB)
      (answer : MemdbError → Result MemdbError (Unit {0})) (g : DB → Result MemdbError DB)
      (before after logged live : DB)
      → IsInt64 (now +ℤ pos 1)
      → last? mdb.revisions ≡ some head
      → IsAscending mdb.revisions
      → head.revision ≤ℤ now
      → new_revision_id now mdb ≡ ok revision
      → (held_at_end others mdb).revisions ≡ mdb.revisions
      → (held_at_end others mdb).db ≡ some live
      → f revision ≡ with_txn answer g
      → tx_source (others.before_source mdb) ≡ ok before
      → g before ≡ ok after
      → log before after revision ≡ ok logged
      → (attempt log f others now mdb
          ≡ (ok revision, committed revision logged (held_at_end others mdb)))
        × (head.revision <ℤ revision)
        × IsAscending (committed revision logged (held_at_end others mdb)).revisions
  unfolding attempt
  attempt_commits log f others now revision mdb head answer g before after logged live w l asc
        behind n same opened e1 e2 e3 e4 =
      let later = (new_revision_id_after_head now revision mdb head w l n).3.1 behind in
      (
        ground arith,
        later,
        rw (same, IsAscending)
            (append-IsAscending mdb.revisions
              (record { revision = revision; db = frozen_db logged }) asc
              (below-last mdb.revisions head revision asc l later)),
      )
