-- ===== src/Samples/Chunked.antt =====
-- Chunks over a table that is a list of rows.
use embedspicedb.Common.{
  ℕ, Bool, false, not, map, filter, ◌≤◌, ◌≡◌, ◌≢◌, ◌↔◌, refl, List, [], ◌∷◌, ◌++◌, none, some,
  arith, All,
}
use embedspicedb.Common.Int.{ℤ, pos}
use embedspicedb.Common.GoMap.{GoMap, lookup}
use embedspicedb.Common.Str.{Str, bytes, str_eq, str_Eq}
use embedspicedb.Common.Result.{ok, err}
use embedspicedb.Chunks.{
  Value, text, index, chunk, delete_and_insert, ChunkedBytesExecutor, SqlByteChunkerConfig,
  chunk_data, chunks_from, reassemble_chunks, reassemble_failed, no_chunks_found, int_Eq,
}
use embedspicedb.Chunks.Data.{WithinSize, join, chunk_data_bounds}
use embedspicedb.Chunks.Reassemble.{reassemble_chunks_ok_iff}
use embedspicedb.Chunks.Operations.{write_chunked_bytes, delete_chunked_bytes, read_chunked_bytes}
use embedspicedb.Chunks.Storage.{
  DbRow, has_text, picked, row_under, DatabaseLaws, IsPlain, read_chunked_bytes-write_chunked_bytes,
  read_chunked_bytes-delete_chunked_bytes,
}

abbrev Rows : Type 0
Rows = List (DbRow ℕ)

abbrev meets : List (Str × Value ℕ) → DbRow ℕ → Bool
meets ((column, text name) ∷ []) r = has_text column name r
meets _ r = false

abbrev selected : List Str → Rows → GoMap ℤ Str
selected (i ∷ d ∷ []) s = picked i d s
selected _ s = []

abbrev executor : ChunkedBytesExecutor ℕ Rows Str
executor = record {
  begin_transaction = λ s. ok s;
  execute_write = λ b s. ok (s ++ map (row_under b.columns) b.values);
  execute_delete = λ b s. ok (filter (λ r. not (meets b.conditions r)) s);
  execute_update = λ b s. err (bytes "no column of deletions");
  execute_read = λ b s. ok (selected b.columns (filter (meets b.conditions) s));
}

abbrev config : SqlByteChunkerConfig ℕ Rows Str ℕ
config = record {
  table_name = bytes "blobs";
  name_column = bytes "name";
  chunk_index_column = bytes "i";
  chunk_data_column = bytes "data";
  max_chunk_size = pos 2;
  placeholder_format = some 0;
  executor = some executor;
  write_mode = delete_and_insert;
  created_at_column = [];
  deleted_at_column = [];
  alive_value = 0;
}

laws : DatabaseLaws executor
laws = record {
  rows = λ table s. s;
  delete_rows = λ table column name s t h. ground arith;
  write_rows = λ b s t h. ground arith;
  read_rows = λ table column name i d order s. refl;
}

plain : IsPlain config executor
unfolding str_eq
plain = record { mode = refl; name_index = refl; name_data = refl; index_data = refl }

abbrev blob_row : Str → ℕ → Str → DbRow ℕ
blob_row name i c = (bytes "name", text name) ∷ (bytes "i", index i) ∷ (bytes "data", chunk c) ∷ []

abbrev other_rows : Rows
other_rows = blob_row (bytes "b") 0 (bytes "other") ∷ []

abbrev old_rows : Rows
old_rows = blob_row (bytes "a") 0 (bytes "old") ∷ other_rows

abbrev new_rows : Rows
new_rows =
    blob_row (bytes "b") 0 (bytes "other")
    ∷ blob_row (bytes "a") 0 (bytes "ne")
    ∷ blob_row (bytes "a") 1 (bytes "w")
    ∷ []

write_run : write_chunked_bytes config executor 2 (bytes "a") (bytes "new") 7 old_rows ≡ ok new_rows
unfolding write_chunked_bytes chunk_data chunks_from str_eq
write_run = refl

read_chunked_bytes-write_chunked_bytes_example :
    read_chunked_bytes config executor (bytes "a") new_rows ≡ ok (bytes "new")
read_chunked_bytes-write_chunked_bytes_example =
    read_chunked_bytes-write_chunked_bytes config executor 2 (bytes "a") (bytes "new") 7 old_rows
      new_rows (omega arith) plain laws write_run

delete_run : delete_chunked_bytes config executor (bytes "a") 7 old_rows ≡ ok other_rows
unfolding delete_chunked_bytes str_eq
delete_run = refl

read_chunked_bytes-delete_chunked_bytes_example :
    read_chunked_bytes config executor (bytes "a") other_rows
    ≡ err (reassemble_failed no_chunks_found)
read_chunked_bytes-delete_chunked_bytes_example =
    read_chunked_bytes-delete_chunked_bytes config executor (bytes "a") 7 old_rows other_rows plain
      laws delete_run

chunk_data_bounds_example :
    All (WithinSize 2) (chunk_data 2 (bytes "new"))
    × (join (chunk_data 2 (bytes "new")) ≡ bytes "new")
chunk_data_bounds_example = chunk_data_bounds 2 (bytes "new") (omega arith)

abbrev holed : GoMap ℤ Str
holed = (pos 0, bytes "ne") ∷ (pos 2, bytes "w") ∷ []

reassemble_chunks_ok_iff_example : ((out : Str) × (reassemble_chunks holed ≡ ok out)) ↔ (
    (holed ≢ []) × ((i j : ℕ) → lookup (pos i) holed ≢ none → j ≤ i → lookup (pos j) holed ≢ none))
reassemble_chunks_ok_iff_example = reassemble_chunks_ok_iff holed
