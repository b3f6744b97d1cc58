-- ===== src/Memdb/Datastore/Failures.antt =====
-- memdb.go: what a failed read-write transaction leaves behind.
use embedspicedb.Common.{
  ℕ, zero, suc, ◌≡◌, ◌≢◌, refl, true, none, Option, List, arith, last?, Option-cases, inl, inr,
}
use embedspicedb.Common.Int.{ℤ}
use embedspicedb.Common.Result.{Result, ok, err}
use embedspicedb.Memdb.Datastore.{
  MemdbError, changelog_error, Snapshot, MemdbDatastore, TxUserFunc, with_txn, tx_source, attempt,
  read_write_tx, new_revision_id, max_retries_reached, close, index_out_of_range, Meanwhile, hold,
  serialization, next_revision,
}

module _ {DB : Type 0} where
  -- The tables and the snapshots of one state are those of another.
  abbrev pub SameData : MemdbDatastore DB → MemdbDatastore DB → Type 0
  SameData s t = (t.db ≡ s.db) × (t.revisions ≡ s.revisions)

  -- Of the live tables and the snapshots.
  abbrev pub Of : (Option DB → List (Snapshot DB) → Type 0) → MemdbDatastore DB → Type 0
  Of P s = P s.db s.revisions

  -- What other calls do keeps a property of the live tables and the snapshots.
  abbrev pub IsKeptBy : (Option DB → List (Snapshot DB) → Type 0) → Meanwhile DB → Type 0
  IsKeptBy P others =
      ((s : MemdbDatastore DB) → Of P s → Of P (others.before_source s))
      × ((s : MemdbDatastore DB) → Of P s → Of P (others.after_source s))

  -- A write transaction is held, and there is a revision.
  abbrev pub IsLocked : MemdbDatastore DB → Type 0
  IsLocked mdb = (mdb.active_write_txn ≡ true) × (last? mdb.revisions ≢ none)

  abbrev pub LeavesLocked : Meanwhile DB → Type 0
  LeavesLocked others =
      ((s : MemdbDatastore DB) → IsLocked s → IsLocked (others.before_source s))
      × ((s : MemdbDatastore DB) → IsLocked s → IsLocked (others.after_source s))

  -- An attempt that asks for the transaction and passes the error on.
  attempt-IsLocked :
      (log : DB → DB → ℤ → Result ℕ DB) (f : ℤ → TxUserFunc DB) (g : ℤ → DB → Result MemdbError DB)
      (others : Meanwhile DB) (now : ℤ) (mdb : MemdbDatastore DB)
      → IsLocked mdb
      → LeavesLocked others
      → ((r : ℤ) → f r ≡ with_txn err (g r))
      → (t : MemdbDatastore DB) × (attempt log f others now mdb ≡ (err serialization, t))
        × IsLocked t
  unfolding attempt new_revision_id
  attempt-IsLocked log f g others now mdb (a, l) (k, m) h =
      elim (Option-cases (last? mdb.revisions)) [
        | inl gone ↦ ground arith
        | inr (head, held) ↦
            let s = others.before_source mdb in
            let locked = k mdb (a, l) in
            (
              others.after_source s,
              ground (arith, h (next_revision now head.revision), locked.0),
              m s locked,
            )
      ]

  read_write_tx-IsLocked :
      (log : DB → DB → ℤ → Result ℕ DB) (f : ℤ → TxUserFunc DB) (g : ℤ → DB → Result MemdbError DB)
      (others : ℕ → Meanwhile DB) (clock : ℕ → ℤ) (n : ℕ) (mdb : MemdbDatastore DB)
      → IsLocked mdb
      → ((i : ℕ) → LeavesLocked (others i))
      → ((r : ℤ) → f r ≡ with_txn err (g r))
      → (read_write_tx log f others clock n mdb).0 ≡ err max_retries_reached
  unfolding read_write_tx
  read_write_tx-IsLocked log f g others clock zero mdb a m h = refl
  read_write_tx-IsLocked log f g others clock (suc n) mdb a m h =
      let (t, e, b) = attempt-IsLocked log f g (others n) (clock n) mdb a (m n) h in
      ground (arith, read_write_tx-IsLocked log f g others clock n t b m h)

  -- An attempt whose changelog cannot be built gives that error and leaves the write transaction
  -- held, so that after it every transaction that asks for one, and passes on the error that it is
  -- given, runs out of its retries, however many they are; the other calls that come in between, in
  -- the attempt and in the transaction, release no transaction and do not take the last revision away.
  pub read_write_tx_locked :
      (log other_log : DB → DB → ℤ → Result ℕ DB) (failing f : ℤ → TxUserFunc DB)
      (between : Meanwhile DB) (now revision : ℤ) (mdb : MemdbDatastore DB)
      (answer : MemdbError → Result MemdbError (Unit {0})) (h : DB → Result MemdbError DB)
      (before after : DB) (e : ℕ) (g : ℤ → DB → Result MemdbError DB) (others : ℕ → Meanwhile DB)
      (clock : ℕ → ℤ) (n : ℕ)
      → new_revision_id now mdb ≡ ok revision
      → failing revision ≡ with_txn answer h
      → tx_source (between.before_source mdb) ≡ ok before
      → h before ≡ ok after
      → log before after revision ≡ err e
      → last? (between.before_source mdb).revisions ≢ none
      → LeavesLocked between
      → ((i : ℕ) → LeavesLocked (others i))
      → ((r : ℤ) → f r ≡ with_txn err (g r))
      → (t : MemdbDatastore DB) × (attempt log failing between now mdb
          ≡ (err (changelog_error e), t))
        × ((read_write_tx other_log f others clock n t).0 ≡ err max_retries_reached)
  unfolding attempt
  read_write_tx_locked log other_log failing f between now revision mdb answer h before after e g
        others clock n q e1 e2 e3 e4 l k m c =
      let t = between.after_source (hold (between.before_source mdb)) in
      (
        t,
        ground arith,
        read_write_tx-IsLocked other_log f g others clock n t
            (k.1 (hold (between.before_source mdb)) (refl, l)) m c,
      )

  -- Closing a datastore twice leaves it without a revision, so that a transaction, whatever it
  -- does, indexes its revisions out of range.
  pub attempt-close-close :
      (log : DB → DB → ℤ → Result ℕ DB) (f : ℤ → TxUserFunc DB) (others : Meanwhile DB)
      (now then_ later : ℤ) (mdb : MemdbDatastore DB)
      → (attempt log f others later (close then_ (close now mdb))).0 ≡ err index_out_of_range
  unfolding attempt close new_revision_id
  attempt-close-close log f others now then_ later mdb = ground arith
