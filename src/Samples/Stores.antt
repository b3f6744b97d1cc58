-- ===== src/Samples/Stores.antt =====
-- The in-memory datastore over numbers as the state of its tables, and chunks over a list of rows.
use embedspicedb.Common.{
  ℕ, suc, zero, ◌+◌, ◌≤◌, ◌<◌, ◌≡◌, ◌≢◌, ◌↔◌, Option, List, last?, refl, [], ◌∷◌, Bool, true, false,
  some, arith, if◌then◌else◌, ◌==◌, ==_iff, Bool-cases, inl, inr,
}
use embedspicedb.Common.Int.{ℤ, pos, ◌+ℤ◌, ◌<ℤ◌, ◌≤ℤ◌, IsInt64, wrap64}
use embedspicedb.Common.Result.{Result, ok, err}
use embedspicedb.Memdb.Datastore.{
  changelog_error, index_out_of_range, max_retries_reached, Snapshot, live_db, frozen_db,
  MemdbDatastore, TxUserFunc, with_txn, new_revision_id, attempt, read_write_tx, hold, Meanwhile,
  check_revision_local, revision_outside_gc_window, snapshot_reader, close,
}
use embedspicedb.Memdb.Datastore.Isolation.{
  SearchLaws, IsAscending, committed, snapshot_reader_exact, attempt_commits,
  new_revision_id_after_head,
}
use embedspicedb.Memdb.Datastore.Overlaps.{undisturbed, overtaken, attempt-overtaken}
use embedspicedb.Memdb.Datastore.Failures.{LeavesLocked, read_write_tx_locked, attempt-close-close}

-- The first index below the bound at which a test is true, else the bound.
abbrev search_from : ℕ → ℕ → (ℕ → Bool) → ℕ
search_from zero i f = i
search_from (suc n) i f = let rest = search_from n (suc i) f in if f i then i else rest

abbrev search : ℕ → (ℕ → Bool) → ℕ
search n f = search_from n 0 f

search_from_finds :
    (n i j : ℕ) (f : ℕ → Bool)
    → i ≤ j
    → j < n + i
    → f j ≡ true
    → ((k : ℕ) → k < j → f k ≡ false)
    → search_from n i f ≡ j
search_from_finds zero i j f a b h k = ground arith
search_from_finds (suc n) i j f a b h k = elim (Bool-cases (i == j)) [
  | inl here ↦ ground (arith, ==_iff i j)
  | inr there ↦ ground (arith, search_from_finds n (suc i) j f, k i)
]

search_laws : SearchLaws search
search_laws = record {
  smallest =
      λ n i f b h before after. search_from_finds n 0 i f (omega arith) (omega arith) h before;
}

abbrev three : MemdbDatastore ℕ
three = record {
  db = some 42;
  revisions =
      record { revision = pos 100; db = live_db }
      ∷ record { revision = pos 120; db = frozen_db 41 }
      ∷ record { revision = pos 150; db = frozen_db 42 }
      ∷ [];
  active_write_txn = false;
  negative_gc_window = pos 0;
  quantization_period = pos 1;
  watch_buffer_length = 128;
}

abbrev second : Snapshot ℕ
second = record { revision = pos 150; db = frozen_db 42 }

three-IsAscending : IsAscending three.revisions
three-IsAscending = ground arith

check_run : check_revision_local (pos 150) (pos 150) three ≡ ok tt
unfolding check_revision_local revision_outside_gc_window
check_run = refl

snapshot_reader_exact_example : snapshot_reader search (pos 150) (pos 150) three ≡ ok 42
snapshot_reader_exact_example =
    snapshot_reader_exact search (pos 150) three 42 2 second 42 search_laws refl three-IsAscending
      refl refl check_run

small : IsInt64 (pos 150 +ℤ pos 1)
unfolding ◌+ℤ◌
small = record { below = omega arith; above = omega arith }

next_run : new_revision_id (pos 150) three ≡ ok (pos 151)
unfolding new_revision_id ◌+ℤ◌ wrap64
next_run = refl

new_revision_id_after_head_example :
    (pos 151 ≢ pos 150)
    × ((pos 150 ≢ pos 150) → pos 151 ≡ pos 150)
    × ((pos 150 ≡ pos 150) → pos 151 ≡ pos 150 +ℤ pos 1)
    × ((pos 150 <ℤ pos 151) ↔ (pos 150 ≤ℤ pos 150))
new_revision_id_after_head_example =
    new_revision_id_after_head (pos 150) (pos 151) three second small refl next_run

abbrev add_one : ℤ → TxUserFunc ℕ
add_one r = with_txn err (λ db. ok (suc db))

abbrev logged : ℕ → ℕ → ℤ → Result ℕ ℕ
logged before after r = ok (suc after)

abbrev not_logged : ℕ → ℕ → ℤ → Result ℕ ℕ
not_logged before after r = err 1

-- Another call that gives an error: nothing changes.
abbrev reads : Meanwhile ℕ
reads = record { before_source = λ s. s; after_source = λ s. s }

attempt_commits_example :
    (attempt logged add_one reads (pos 150) three
      ≡ (ok (pos 151), committed (pos 151) 44 (hold three)))
    × (pos 150 <ℤ pos 151)
    × IsAscending (committed (pos 151) 44 (hold three)).revisions
attempt_commits_example =
    attempt_commits logged add_one reads (pos 150) (pos 151) three second err (λ db. ok (suc db)) 42
      43 44 42 small refl three-IsAscending (omega arith) next_run refl refl refl refl refl refl

-- The live tables hold 42 in three snapshots.
abbrev Unchanged : Option ℕ → List (Snapshot ℕ) → Type 0
Unchanged db rs = (db ≡ some 42) × (rs ≡ three.revisions)

reads-LeavesLocked : LeavesLocked reads
reads-LeavesLocked = (λ s h. h, λ s h. h)

read_write_tx_locked_example :
    (t : MemdbDatastore ℕ) × (attempt not_logged add_one reads (pos 150) three
      ≡ (err (changelog_error 1), t))
    × ((read_write_tx logged add_one (λ i. reads) (λ i. pos 160) 10 t).0 ≡ err max_retries_reached)
read_write_tx_locked_example =
    read_write_tx_locked not_logged logged add_one add_one reads (pos 150) (pos 151) three err
      (λ db. ok (suc db)) 42 43 1 (λ r db. ok (suc db)) (λ i. reads) (λ i. pos 160) 10 next_run refl
      refl refl refl (ground arith) reads-LeavesLocked (λ i. reads-LeavesLocked) (λ r. refl)

abbrev after_other : MemdbDatastore ℕ
after_other = committed (pos 160) 44 three

abbrev after_both : MemdbDatastore ℕ
after_both = committed (pos 155) 46 after_other

other_run : attempt logged add_one undisturbed (pos 160) three ≡ (ok (pos 160), after_other)
unfolding attempt new_revision_id ◌+ℤ◌ wrap64
other_run = refl

overtaken_run :
    attempt logged add_one (overtaken logged add_one (pos 160)) (pos 155) three
    ≡ (ok (pos 155), after_both)
unfolding attempt new_revision_id ◌+ℤ◌ wrap64
overtaken_run = refl

attempt-overtaken_example :
    ((s : Snapshot ℕ) × (last? after_both.revisions ≡ some s) × (s.revision ≡ pos 155))
    × ¬ IsAscending after_both.revisions
attempt-overtaken_example =
    attempt-overtaken logged add_one add_one (pos 155) (pos 160) (pos 155) (pos 160) three
      after_other after_both other_run overtaken_run (omega arith)

attempt-close-close_example :
    (attempt logged add_one reads (pos 170) (close (pos 165) (close (pos 160) three))).0
    ≡ err index_out_of_range
attempt-close-close_example =
    attempt-close-close logged add_one reads (pos 160) (pos 165) (pos 170) three
