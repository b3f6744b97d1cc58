-- ===== src/Memdb/Datastore.antt =====
-- memdb.go and revisions.go of internal/datastore/memdb: the datastore's revisions and snapshots, and
-- a read-write transaction with its retries. `DB` is a state of the tables of go-memdb. Revisions are
-- timestamp revisions, times and durations int64 nanoseconds. An operation is one step where it holds
-- the datastore's mutex throughout; an attempt of a transaction releases it twice, and `Meanwhile` is
-- what other calls do then. An index outside the revisions is the error of a panic.

pub mod Isolation
pub mod Failures
pub mod Overlaps
use embedspicedb.Common.{
  ℕ, zero, suc, ◌-◌, Bool, true, false, ◌&&◌, ◌||◌, Option, none, some, List, [], ◌∷◌, ◌++◌, length,
  get_elem?, last?, if◌then◌else◌, ◌==◌, is_some, not,
}
use embedspicedb.Common.Int.{ℤ, pos, ◌+ℤ◌, ◌-ℤ◌, ltb_ℤ, eqb_ℤ, wrap64, rem_ℤ, pos_part}
use embedspicedb.Common.Result.{Result, ok, err, ◌>>=◌, ◌>>◌, fail_if}

pub data MemdbError : Type 0 where
  memdb_is_closed serialization not_ready already_closed : MemdbError
  gc_window_smaller revision_stale could_not_determine_revision : MemdbError
  max_retries_reached index_out_of_range : MemdbError
  user_error changelog_error : ℕ → MemdbError

-- The database of a snapshot: nil, the live one that commits change, or a frozen copy.
pub data SnapshotDb (DB : Type 0) : Type 0 where
  nil_db live_db : SnapshotDb DB
  frozen_db : DB → SnapshotDb DB

pub record Snapshot (DB : Type 0) : Type 0 where
  pub revision : ℤ
  pub db : SnapshotDb DB

-- `db` is what the live database holds, none where the pointer is nil. `active_write_txn` is whether
-- a write transaction is held.
pub record MemdbDatastore (DB : Type 0) : Type 0 where
  pub db : Option DB
  pub revisions : List (Snapshot DB)
  pub active_write_txn : Bool
  pub negative_gc_window : ℤ
  pub quantization_period : ℤ
  pub watch_buffer_length : ℕ

-- What a transaction's function does: it ends without asking for the transaction, or it asks, and
-- then answers the error that it is given instead, or maps the tables to new ones or to an error.
pub data TxUserFunc (DB : Type 0) : Type 0 where
  without_txn : Result MemdbError (Unit {0}) → TxUserFunc DB
  with_txn :
      (MemdbError → Result MemdbError (Unit {0})) → (DB → Result MemdbError DB) → TxUserFunc DB

-- What other calls do while an attempt does not hold the mutex: between taking its revision and
-- asking for the transaction, and from there to its end.
pub record Meanwhile (DB : Type 0) : Type 0 where
  pub before_source : MemdbDatastore DB → MemdbDatastore DB
  pub after_source : MemdbDatastore DB → MemdbDatastore DB

abbrev pub is_serialization : MemdbError → Bool
is_serialization serialization = true
is_serialization _ = false

-- `created.Equal(existing)`, then one more.
abbrev pub next_revision : ℤ → ℤ → ℤ
next_revision created existing =
    if eqb_ℤ created existing then wrap64 (created +ℤ pos 1) else created

module _ {DB : Type 0} where
  unfoldable pub new_memdb_datastore : ℕ → ℤ → ℤ → ℤ → DB → Result MemdbError (MemdbDatastore DB)
  new_memdb_datastore watch_buffer_length quantization gc_window now db =
      if ltb_ℤ gc_window quantization
      then err gc_window_smaller
      else ok (record {
        db = some db;
        revisions = record { revision = now; db = live_db } ∷ [];
        active_write_txn = false;
        negative_gc_window = wrap64 (pos 0 -ℤ gc_window);
        quantization_period = if ltb_ℤ (pos 1) quantization then quantization else pos 1;
        watch_buffer_length = if watch_buffer_length == 0 then 128 else watch_buffer_length;
      })

  abbrev pub check_not_closed : MemdbDatastore DB → Result MemdbError (Unit {0})
  check_not_closed mdb = fail_if (not (is_some mdb.db)) memdb_is_closed

  -- `mdb.revisions[len(mdb.revisions)-1]`
  abbrev pub head_snapshot : MemdbDatastore DB → Result MemdbError (Snapshot DB)
  head_snapshot mdb = elim (last? mdb.revisions) [ none ↦ err index_out_of_range | some s ↦ ok s ]

  unfoldable pub new_revision_id : ℤ → MemdbDatastore DB → Result MemdbError ℤ
  new_revision_id now mdb = head_snapshot mdb >>= λ s. ok (next_revision now s.revision)

  unfoldable pub head_revision : MemdbDatastore DB → Result MemdbError ℤ
  head_revision mdb = do check_not_closed mdb; s ← head_snapshot mdb; ok s.revision

  unfoldable pub optimized_revision : ℤ → MemdbDatastore DB → Result MemdbError ℤ
  optimized_revision now mdb = do
    check_not_closed mdb
    ok (wrap64 (now -ℤ rem_ℤ now (pos_part mdb.quantization_period)))

  unfoldable pub revision_outside_gc_window : ℤ → ℤ → ℤ → MemdbDatastore DB → Bool
  revision_outside_gc_window head now dr mdb =
      if eqb_ℤ dr head then false else ltb_ℤ dr (wrap64 (now +ℤ mdb.negative_gc_window))

  abbrev pub check_against : ℤ → ℤ → ℤ → MemdbDatastore DB → Result MemdbError (Unit {0})
  check_against head now dr mdb =
      if revision_outside_gc_window head now dr mdb
      then err revision_stale
      else if ltb_ℤ now dr
      then (if ltb_ℤ dr head || eqb_ℤ dr head then ok tt else err could_not_determine_revision)
      else ok tt

  -- checkRevisionLocalCallerMustLock
  unfoldable pub check_revision_local : ℤ → ℤ → MemdbDatastore DB → Result MemdbError (Unit {0})
  check_revision_local now dr mdb =
      head_snapshot mdb >>= λ head. check_against head.revision now dr mdb

  unfoldable pub check_revision : ℤ → ℤ → MemdbDatastore DB → Result MemdbError (Unit {0})
  check_revision now dr mdb = do check_not_closed mdb; check_revision_local now dr mdb

  -- The test that `sort.Search` is given; false outside the revisions, where it is not called.
  abbrev pub not_before : List (Snapshot DB) → ℤ → ℕ → Bool
  not_before revisions dr i = elim (get_elem? revisions i) [
    | none ↦ false
    | some s ↦ ltb_ℤ dr s.revision || eqb_ℤ s.revision dr
  ]

  abbrev pub read_db : Option DB → SnapshotDb DB → Result MemdbError DB
  read_db live nil_db = err already_closed
  read_db none live_db = err already_closed
  read_db (some db) live_db = ok db
  read_db live (frozen_db db) = ok db

  -- The tables that a reader at a revision reads. `search` is `sort.Search`.
  unfoldable pub snapshot_reader :
      (ℕ → (ℕ → Bool) → ℕ) → ℤ → ℤ → MemdbDatastore DB → Result MemdbError DB
  snapshot_reader search now dr mdb = do
    check_not_closed mdb
    fail_if (length mdb.revisions == 0) not_ready
    check_revision_local now dr mdb
    let found = search (length mdb.revisions) (not_before mdb.revisions dr)
    let rev_index = if found == length mdb.revisions then length mdb.revisions - 1 else found
    elim (get_elem? mdb.revisions rev_index) [
      | none ↦ err index_out_of_range
      | some s ↦ read_db mdb.db s.db
    ]

  -- Close: one snapshot stays, or none where the datastore was closed before.
  unfoldable pub close : ℤ → MemdbDatastore DB → MemdbDatastore DB
  close now mdb = record mdb {
    db = none;
    revisions = elim mdb.db [ none ↦ [] | some db ↦ record { revision = now; db = live_db } ∷ [] ];
  }

  -- `txSrc`, at its first call.
  abbrev pub tx_source : MemdbDatastore DB → Result MemdbError DB
  tx_source mdb =
      if mdb.active_write_txn
      then err serialization
      else elim mdb.db [ none ↦ err memdb_is_closed | some db ↦ ok db ]

  abbrev pub release : MemdbDatastore DB → MemdbDatastore DB
  release mdb = record mdb { active_write_txn = false }

  -- The end of an attempt: the snapshot of the live database joins the revisions.
  abbrev pub add_snapshot : ℤ → MemdbDatastore DB → Result MemdbError ℤ × MemdbDatastore DB
  add_snapshot revision mdb = elim mdb.db [
    | none ↦ (err memdb_is_closed, mdb)
    | some db ↦ (
      ok revision,
      record mdb {
        revisions = mdb.revisions ++ record { revision = revision; db = frozen_db db } ∷ [];
      },
    )
  ]

  -- `tx.Commit`: the tables reach the live database, unless that was closed meanwhile.
  abbrev pub commit_to : DB → MemdbDatastore DB → MemdbDatastore DB
  commit_to logged mdb = record mdb {
    db = elim mdb.db [ none ↦ none | some d ↦ some logged ];
    active_write_txn = false;
  }

  -- The rest of an attempt whose function had the transaction: the changelog of the two states is
  -- built and inserted by `log`, which can fail, and the transaction is committed.
  abbrev pub commit :
      (DB → DB → ℤ → Result ℕ DB)
      → DB
      → DB
      → ℤ
      → MemdbDatastore DB
      → Result MemdbError ℤ × MemdbDatastore DB
  commit log before after revision mdb = elim (log before after revision) [
    | err e ↦ (err (changelog_error e), mdb)
    | ok logged ↦ add_snapshot revision (commit_to logged mdb)
  ]

  -- The end of an attempt that has no transaction, and of one that has.
  abbrev pub end_without :
      Result MemdbError (Unit {0}) → ℤ → MemdbDatastore DB → Result MemdbError ℤ × MemdbDatastore DB
  end_without (err e) revision mdb = (err e, mdb)
  end_without (ok u) revision mdb = add_snapshot revision (release mdb)

  abbrev pub end_with :
      (DB → DB → ℤ → Result ℕ DB)
      → DB
      → Result MemdbError DB
      → ℤ
      → MemdbDatastore DB
      → Result MemdbError ℤ × MemdbDatastore DB
  end_with log before (err e) revision mdb = (err e, release mdb)
  end_with log before (ok after) revision mdb = commit log before after revision mdb

  abbrev pub hold : MemdbDatastore DB → MemdbDatastore DB
  hold mdb = record mdb { active_write_txn = true }

  -- The function is run in what the other calls made of the state.
  abbrev pub from_source :
      (DB → DB → ℤ → Result ℕ DB)
      → (MemdbError → Result MemdbError (Unit {0}))
      → (DB → Result MemdbError DB)
      → Meanwhile DB
      → ℤ
      → MemdbDatastore DB
      → Result MemdbError DB
      → Result MemdbError ℤ × MemdbDatastore DB
  from_source log answer g others revision mdb (err e) =
      end_without (answer e) revision (others.after_source mdb)
  from_source log answer g others revision mdb (ok before) =
      end_with log before (g before) revision (others.after_source (hold mdb))

  abbrev pub run_function :
      (DB → DB → ℤ → Result ℕ DB)
      → TxUserFunc DB
      → Meanwhile DB
      → ℤ
      → MemdbDatastore DB
      → Result MemdbError ℤ × MemdbDatastore DB
  run_function log (without_txn r) others revision mdb =
      end_without r revision (others.after_source mdb)
  run_function log (with_txn answer g) others revision mdb =
      from_source log answer g others revision mdb (tx_source mdb)

  -- One attempt: its revision is taken, the function is run, and the transaction is aborted on its
  -- error or committed.
  unfoldable pub attempt :
      (DB → DB → ℤ → Result ℕ DB)
      → (ℤ → TxUserFunc DB)
      → Meanwhile DB
      → ℤ
      → MemdbDatastore DB
      → Result MemdbError ℤ × MemdbDatastore DB
  unfolding new_revision_id
  attempt log f others now mdb = elim (new_revision_id now mdb) [
    | err e ↦ (err e, mdb)
    | ok revision ↦ run_function log (f revision) others revision (others.before_source mdb)
  ]

  -- ReadWriteTx: up to so many attempts, another one only after a serialization error. The clock
  -- is read anew in each.
  unfoldable pub read_write_tx :
      (DB → DB → ℤ → Result ℕ DB)
      → (ℤ → TxUserFunc DB)
      → (ℕ → Meanwhile DB)
      → (ℕ → ℤ)
      → ℕ
      → MemdbDatastore DB
      → Result MemdbError ℤ × MemdbDatastore DB
  read_write_tx log f others clock zero mdb = (err max_retries_reached, mdb)
  read_write_tx log f others clock (suc n) mdb =
      let (result, t) = attempt log f (others n) (clock n) mdb in
      let again = read_write_tx log f others clock n t in
      elim result [
        | ok revision ↦ (ok revision, t)
        | err e ↦ if is_serialization e then again else (err e, t)
      ]
