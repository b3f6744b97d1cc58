-- ===== src/Chunks.antt =====
-- internal/datastore/common/chunkbytes.go: bytes kept in the rows of a table, one chunk in each. A
-- query is the tables, columns, conditions and values that the squirrel builder is given; the
-- executor that runs the queries is a parameter, as is the text of the placeholders.
pub mod Data
pub mod Reassemble
pub mod Operations
pub mod Storage
use embedspicedb.Common.{
  ℕ, zero, suc, ◌+◌, ◌-◌, ◌*◌, Bool, true, false, ◌||◌, ◌&&◌, Option, none, some, List, [], ◌∷◌,
  ◌++◌, length, take, drop, ltb, if◌then◌else◌, is_some, not, map,
}
use embedspicedb.Common.Int.{ℤ, pos, negsuc, ltb_ℤ, eqb_ℤ, eqb_ℤ_iff}
use embedspicedb.Common.Eq.{Eq}
use embedspicedb.Common.GoMap.{GoMap, lookup}
use embedspicedb.Common.Str.{Str, is_empty}
use embedspicedb.Common.Result.{Result, ok, err, ◌>>=◌, ◌>>◌, fail_if}

instance abbrev pub int_Eq : Eq ℤ
int_Eq = record { beq = eqb_ℤ; beq_iff = eqb_ℤ_iff }

pub data WriteMode : Type 0 where
  insert_with_tombstones delete_and_insert : WriteMode

-- What a row holds: the name, the index of a chunk, its bytes, or a time of creation or deletion.
pub data Value (T : Type 0) : Type 0 where
  text : Str → Value T
  index : ℕ → Value T
  chunk : Str → Value T
  stamp : T → Value T

-- The builders: conditions are columns that must equal values.
pub record DeleteBuilder (T : Type 0) : Type 0 where
  pub table : Str
  pub conditions : List (Str × Value T)

pub record UpdateBuilder (T : Type 0) : Type 0 where
  pub table : Str
  pub column : Str
  pub value : Value T
  pub conditions : List (Str × Value T)

pub record InsertBuilder (T : Type 0) : Type 0 where
  pub table : Str
  pub columns : List Str
  pub values : List (List (Value T))

pub record SelectBuilder (T : Type 0) : Type 0 where
  pub columns : List Str
  pub table : Str
  pub conditions : List (Str × Value T)
  pub order_by : Str

-- ChunkedBytesExecutor and the transaction that it begins, as functions on the database's state.
pub record ChunkedBytesExecutor (T S E : Type 0) : Type 0 where
  pub begin_transaction : S → Result E S
  pub execute_write : InsertBuilder T → S → Result E S
  pub execute_delete : DeleteBuilder T → S → Result E S
  pub execute_update : UpdateBuilder T → S → Result E S
  pub execute_read : SelectBuilder T → S → Result E (GoMap ℤ Str)

pub record SqlByteChunkerConfig (T S E P : Type 0) : Type 0 where
  pub table_name : Str
  pub name_column : Str
  pub chunk_index_column : Str
  pub chunk_data_column : Str
  pub max_chunk_size : ℤ
  pub placeholder_format : Option P
  pub executor : Option (ChunkedBytesExecutor T S E)
  pub write_mode : WriteMode
  pub created_at_column : Str
  pub deleted_at_column : Str
  pub alive_value : T

pub data ChunkerPanic : Type 0 where
  max_chunk_size_not_positive table_name_empty name_column_empty : ChunkerPanic
  chunk_index_column_empty chunk_data_column_empty placeholder_format_nil : ChunkerPanic
  executor_nil created_at_column_required deleted_at_column_required : ChunkerPanic

pub data ReassembleError : Type 0 where
  no_chunks_found : ReassembleError
  missing_chunk : ℕ → ReassembleError

pub data ChunkError (E : Type 0) : Type 0 where
  name_cannot_be_empty : ChunkError E
  begin_failed delete_failed tombstone_failed insert_failed read_failed : E → ChunkError E
  reassemble_failed : ReassembleError → ChunkError E

-- fmt.Errorf("...: %w", err)
abbrev pub wrap {ℓ} : {E F : Type 0} {A : Type ℓ} → (E → F) → Result E A → Result F A
wrap f (ok a) = ok a
wrap f (err e) = err (f e)

abbrev pub is_tombstones : WriteMode → Bool
is_tombstones insert_with_tombstones = true
is_tombstones delete_and_insert = false

-- data[i:end]
abbrev pub slice : Str → ℕ → ℕ → Str
slice blob start end = take (end - start) (drop start blob)

-- The loop of `chunkData`, on fuel.
unfoldable pub chunks_from : ℕ → ℕ → ℕ → Str → List Str
chunks_from zero size i blob = []
chunks_from (suc fuel) size i blob =
    let rest = chunks_from fuel size (i + size) blob in
    if ltb i (length blob)
    then slice blob i (if ltb (length blob) (i + size) then length blob else i + size) ∷ rest
    else []

-- A positive size takes at least one byte in each turn, so the length is fuel enough. The capacity
-- `numChunks`, and the index `i + size`, are taken not to overflow: sizes near the greatest int are out.
unfoldable pub chunk_data : ℕ → Str → List Str
chunk_data size [] = []
chunk_data size (b ∷ blob) = chunks_from (length (b ∷ blob)) size 0 (b ∷ blob)

abbrev pub max_ℤ : ℤ → ℤ → ℤ
max_ℤ a b = if ltb_ℤ a b then b else a

-- The greatest index, -1 where there is none.
abbrev pub max_index : GoMap ℤ Str → ℤ
max_index [] = negsuc 0
max_index ((i, c) ∷ m) = max_ℤ i (max_index m)

-- The number of turns of `for i := 0; i <= maxIndex; i++`.
abbrev pub turns : ℤ → ℕ
turns (pos n) = suc n
turns (negsuc n) = 0

unfoldable pub gather : ℕ → ℕ → GoMap ℤ Str → Str → Result ReassembleError Str
gather zero i m result = ok result
gather (suc n) i m result = elim (lookup (pos i) m) [
  | none ↦ err (missing_chunk i)
  | some c ↦ gather n (suc i) m (result ++ c)
]

unfoldable pub reassemble_chunks : GoMap ℤ Str → Result ReassembleError Str
reassemble_chunks [] = err no_chunks_found
reassemble_chunks (c ∷ m) = gather (turns (max_index (c ∷ m))) 0 (c ∷ m) []

-- The rows of the insert: `for index, chunk := range chunks`.
abbrev pub insert_rows : {T : Type 0} → WriteMode → Str → T → ℕ → List Str → List (List (Value T))
insert_rows mode name at i [] = []
insert_rows mode name at i (c ∷ cs) =
    (text name ∷ index i ∷ chunk c ∷ (if is_tombstones mode then stamp at ∷ [] else []))
    ∷ insert_rows mode name at (suc i) cs

-- `if len(chunks) == 0 { chunks = [][]byte{{}} }`
abbrev pub or_one_empty : List Str → List Str
or_one_empty [] = [] ∷ []
or_one_empty (c ∷ cs) = c ∷ cs

module _ {T S E P : Type 0} where
  unfoldable pub must_new_sql_byte_chunker :
      SqlByteChunkerConfig T S E P → Result ChunkerPanic (SqlByteChunkerConfig T S E P)
  must_new_sql_byte_chunker c = do
    fail_if (not (ltb_ℤ (pos 0) c.max_chunk_size)) max_chunk_size_not_positive
    fail_if (is_empty c.table_name) table_name_empty
    fail_if (is_empty c.name_column) name_column_empty
    fail_if (is_empty c.chunk_index_column) chunk_index_column_empty
    fail_if (is_empty c.chunk_data_column) chunk_data_column_empty
    fail_if (not (is_some c.placeholder_format)) placeholder_format_nil
    fail_if (not (is_some c.executor)) executor_nil
    fail_if (is_tombstones c.write_mode && is_empty c.created_at_column) created_at_column_required
    fail_if (is_tombstones c.write_mode && is_empty c.deleted_at_column) deleted_at_column_required
    ok c
