-- ===== src/Chunks/Operations.antt =====
-- chunkbytes.go: the write, the deletion and the read of the bytes of a name. The chunker's
-- configuration is one that the constructor accepted, so its executor is there and the size of a
-- chunk is a positive number: both are arguments here.
use embedspicedb.Common.{ℕ, [], ◌∷◌, ◌++◌, if◌then◌else◌}
use embedspicedb.Common.Str.{Str, is_empty, bytes}
use embedspicedb.Common.Result.{Result, ◌>>=◌, ◌>>◌, fail_if}
use embedspicedb.Chunks.{
  WriteMode, insert_with_tombstones, delete_and_insert, is_tombstones, text, stamp, DeleteBuilder,
  UpdateBuilder, InsertBuilder, SelectBuilder, ChunkedBytesExecutor, SqlByteChunkerConfig,
  ChunkError, name_cannot_be_empty, begin_failed, delete_failed, tombstone_failed, insert_failed,
  read_failed, reassemble_failed, wrap, chunk_data, or_one_empty, insert_rows, reassemble_chunks,
}

module _ {T S E P : Type 0} (c : SqlByteChunkerConfig T S E P)
    (x : ChunkedBytesExecutor T S E) where
  abbrev pub delete_builder : Str → DeleteBuilder T
  delete_builder name = record {
    table = c.table_name;
    conditions = (c.name_column, text name) ∷ [];
  }

  abbrev pub tombstone_builder : Str → T → UpdateBuilder T
  tombstone_builder name at = record {
    table = c.table_name;
    column = c.deleted_at_column;
    value = stamp at;
    conditions = (c.name_column, text name) ∷ (c.deleted_at_column, stamp c.alive_value) ∷ [];
  }

  abbrev pub insert_builder : ℕ → Str → Str → T → InsertBuilder T
  insert_builder size name blob at = record {
    table = c.table_name;
    columns =
        c.name_column
        ∷ c.chunk_index_column
        ∷ c.chunk_data_column
        ∷ (if is_tombstones c.write_mode then c.created_at_column ∷ [] else []);
    values = insert_rows c.write_mode name at 0 (or_one_empty (chunk_data size blob));
  }

  abbrev pub select_builder : Str → SelectBuilder T
  select_builder name = record {
    columns = c.chunk_index_column ∷ c.chunk_data_column ∷ [];
    table = c.table_name;
    conditions = (c.name_column, text name) ∷ [];
    order_by = c.chunk_index_column ++ bytes " ASC";
  }

  -- The rows that are there, removed or marked: `switch c.config.WriteMode`.
  abbrev pub clear_existing : WriteMode → Str → T → S → Result (ChunkError E) S
  clear_existing delete_and_insert name at s =
      wrap delete_failed (x.execute_delete (delete_builder name) s)
  clear_existing insert_with_tombstones name at s =
      wrap tombstone_failed (x.execute_update (tombstone_builder name at) s)

  unfoldable pub write_chunked_bytes : ℕ → Str → Str → T → S → Result (ChunkError E) S
  write_chunked_bytes size name blob at s = do
    fail_if (is_empty name) name_cannot_be_empty
    begun ← wrap begin_failed (x.begin_transaction s)
    cleared ← clear_existing c.write_mode name at begun
    wrap insert_failed (x.execute_write (insert_builder size name blob at) cleared)

  unfoldable pub delete_chunked_bytes : Str → T → S → Result (ChunkError E) S
  delete_chunked_bytes name at s = do
    fail_if (is_empty name) name_cannot_be_empty
    begun ← wrap begin_failed (x.begin_transaction s)
    clear_existing c.write_mode name at begun

  unfoldable pub read_chunked_bytes : Str → S → Result (ChunkError E) Str
  read_chunked_bytes name s = do
    fail_if (is_empty name) name_cannot_be_empty
    chunks ← wrap read_failed (x.execute_read (select_builder name) s)
    wrap reassemble_failed (reassemble_chunks chunks)
