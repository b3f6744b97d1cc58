-- ===== src/Chunks/Storage.antt =====
-- What the chunker promises: bytes that are written are read back, and bytes that are deleted are
-- not found, over any database whose statements do what SQL says of them.
use embedspicedb.Common.{
  ℕ, suc, ◌<◌, ◌≡◌, ◌≢◌, refl, ap, ◌∙◌, Bool, false, not, Option, none, some, List, [], ◌∷◌, ◌++◌,
  map, filter, if◌then◌else◌, arith,
}
use embedspicedb.Common.Int.{ℤ, pos}
use embedspicedb.Common.Eq.{beq_refl}
use embedspicedb.Common.GoMap.{GoMap}
use embedspicedb.Common.Str.{Str, is_empty, str_eq, str_Eq, bytes}
use embedspicedb.Common.Result.{Result, ok, err, fail_if, >>=-eq-ok}
use embedspicedb.Chunks.{
  Value, text, index, chunk, delete_and_insert, InsertBuilder, insert_rows, delete_failed,
  ChunkedBytesExecutor, SqlByteChunkerConfig, wrap, chunk_data, or_one_empty, reassemble_chunks,
  reassemble_failed, no_chunks_found, insert_failed, begin_failed,
}
use embedspicedb.Chunks.Operations.{
  delete_builder, insert_builder, select_builder, clear_existing, write_chunked_bytes,
  delete_chunked_bytes, read_chunked_bytes,
}
use embedspicedb.Chunks.Data.{join, join-chunk_data}
use embedspicedb.Chunks.Reassemble.{numbered, reassemble_chunks-numbered}

wrap-ok : {E F A : Type 0} (f : E → F) (r : Result E A) (a : A) → wrap f r ≡ ok a → r ≡ ok a
wrap-ok f (ok b) a h = ground arith
wrap-ok f (err e) a h = ground arith

join-or_one_empty : (cs : List Str) → join (or_one_empty cs) ≡ join cs
join-or_one_empty [] = refl
join-or_one_empty (c ∷ cs) = refl

or_one_empty-nonempty : (cs : List Str) → or_one_empty cs ≢ []
or_one_empty-nonempty [] = ground arith
or_one_empty-nonempty (c ∷ cs) = ground arith

-- A row of the database: the values of its columns.
abbrev pub DbRow : Type 0 → Type 0
DbRow T = List (Str × Value T)

module _ {T : Type 0} where
  abbrev pub value_at : Str → DbRow T → Option (Value T)
  value_at column [] = none
  value_at column ((c, v) ∷ r) =
      let rest = value_at column r in if str_eq c column then some v else rest

  abbrev pub is_text : Str → Option (Value T) → Bool
  is_text name (some (text n)) = str_eq n name
  is_text name _ = false

  -- `column = 'name'`
  abbrev pub has_text : Str → Str → DbRow T → Bool
  has_text column name r = is_text name (value_at column r)

  abbrev pub put_chunk : Option (Value T) → Option (Value T) → GoMap ℤ Str → GoMap ℤ Str
  put_chunk (some (index i)) (some (chunk c)) m = (pos i, c) ∷ m
  put_chunk _ _ m = m

  -- The index and the bytes of each row.
  abbrev pub picked : Str → Str → List (DbRow T) → GoMap ℤ Str
  picked i d [] = []
  picked i d (r ∷ rs) = put_chunk (value_at i r) (value_at d r) (picked i d rs)

  -- The row of an insert: its values under the columns.
  abbrev pub row_under : List Str → List (Value T) → DbRow T
  row_under [] vs = []
  row_under (c ∷ cs) [] = []
  row_under (c ∷ cs) (v ∷ vs) = (c, v) ∷ row_under cs vs

module _ {T S E : Type 0} (x : ChunkedBytesExecutor T S E) where
  -- What SQL says of the statements, over the rows of each table: a DELETE by a column takes out
  -- the rows with the text there, an INSERT adds a row for each list of values, and a SELECT of two
  -- columns by a column, which does not fail, gives those of the rows with the text there.
  pub record DatabaseLaws : Type 0 where
    pub rows : Str → S → List (DbRow T)
    pub delete_rows :
        (table column name : Str) (s t : S)
        → x.execute_delete (record { table = table; conditions = (column, text name) ∷ [] }) s
          ≡ ok t
        → rows table t ≡ filter (λ r. not (has_text column name r)) (rows table s)
    pub write_rows :
        (b : InsertBuilder T) (s t : S)
        → x.execute_write b s ≡ ok t
        → rows b.table t ≡ rows b.table s ++ map (row_under b.columns) b.values
    pub read_rows :
        (table column name i d order : Str) (s : S)
        → x.execute_read
            (record {
              columns = i ∷ d ∷ [];
              table = table;
              conditions = (column, text name) ∷ [];
              order_by = order;
            })
            s
          ≡ ok (picked i d (filter (has_text column name) (rows table s)))

filter-none {ℓ} :
    {A : Type ℓ} (q : A → Bool) (xs : List A) → filter q (filter (λ a. not (q a)) xs) ≡ []
filter-none q [] = refl
filter-none q (a ∷ xs) = ground (arith, filter-none q xs)

filter-append {ℓ} :
    {A : Type ℓ} (q : A → Bool) (xs ys : List A) → filter q (xs ++ ys) ≡ filter q xs ++ filter q ys
filter-append q [] ys = refl
filter-append q (a ∷ xs) ys = ground (arith, filter-append q xs ys)

module _ {T S E P : Type 0} (c : SqlByteChunkerConfig T S E P)
    (x : ChunkedBytesExecutor T S E) where
  -- The three columns are different ones, and rows are deleted, not marked.
  pub record IsPlain : Type 0 where
    pub mode : c.write_mode ≡ delete_and_insert
    pub name_index : str_eq c.name_column c.chunk_index_column ≡ false
    pub name_data : str_eq c.name_column c.chunk_data_column ≡ false
    pub index_data : str_eq c.chunk_index_column c.chunk_data_column ≡ false

  abbrev columns : List Str
  columns = c.name_column ∷ c.chunk_index_column ∷ c.chunk_data_column ∷ []

  abbrev of_name : Str → DbRow T → Bool
  of_name name r = has_text c.name_column name r

  -- The rows that are inserted for chunks are those of the name, with their numbers.
  inserted-picked :
      (name : Str) (at : T) (i : ℕ) (cs : List Str)
      → IsPlain
      → picked c.chunk_index_column c.chunk_data_column (
          filter
            (of_name name)
            (map (row_under columns) (insert_rows delete_and_insert name at i cs)))
        ≡ numbered i cs
  inserted-picked name at i [] h = refl
  inserted-picked name at i (d ∷ cs) h = ground (
    arith,
    inserted-picked name at (suc i) cs h,
    beq_refl str_Eq c.name_column,
    beq_refl str_Eq c.chunk_index_column,
    beq_refl str_Eq c.chunk_data_column,
    beq_refl str_Eq name,
    h.name_index,
    h.name_data,
    h.index_data,
  )

  cleared-rows :
      (db : DatabaseLaws x) (name : Str) (at : T) (s t : S)
      → IsPlain
      → clear_existing c x c.write_mode name at s ≡ ok t
      → filter (of_name name) (db.rows c.table_name t) ≡ []
  cleared-rows db name at s t h e =
      let deleted =
        wrap-ok delete_failed (x.execute_delete (delete_builder c x name) s) t (rw h.mode at e) in
      ap (filter (of_name name)) (db.delete_rows c.table_name c.name_column name s t deleted)
      ∙ filter-none (of_name name) (db.rows c.table_name s)

  plain_builder : ℕ → Str → Str → T → InsertBuilder T
  plain_builder size name blob at = record {
    table = c.table_name;
    columns = columns;
    values = insert_rows delete_and_insert name at 0 (or_one_empty (chunk_data size blob));
  }

  insert_builder-plain :
      (size : ℕ) (name blob : Str) (at : T)
      → IsPlain
      → insert_builder c x size name blob at ≡ plain_builder size name blob at
  unfolding plain_builder
  insert_builder-plain size name blob at h = rw h.mode refl

  written-rows :
      (db : DatabaseLaws x) (size : ℕ) (name blob : Str) (at : T) (s t : S)
      → IsPlain
      → filter (of_name name) (db.rows c.table_name s) ≡ []
      → x.execute_write (insert_builder c x size name blob at) s ≡ ok t
      → x.execute_read (select_builder c x name) t
        ≡ ok (numbered 0 (or_one_empty (chunk_data size blob)))
  unfolding plain_builder
  written-rows db size name blob at s t h e w =
      let added =
        db.write_rows (plain_builder size name blob at) s t
          (rw (insert_builder-plain size name blob at h) at w) in
      let new =
        map (row_under columns)
          (insert_rows delete_and_insert name at 0 (or_one_empty (chunk_data size blob))) in
      let kept : filter (of_name name) (db.rows c.table_name t) ≡ filter (of_name name) new =
        ap (filter (of_name name)) added
        ∙ filter-append (of_name name) (db.rows c.table_name s) new
        ∙ ap (λ rs. rs ++ filter (of_name name) new) e in
      db.read_rows c.table_name c.name_column name c.chunk_index_column c.chunk_data_column _ t
      ∙ ap (λ rs. ok (picked c.chunk_index_column c.chunk_data_column rs)) kept
      ∙ ap ok (inserted-picked name at 0 (or_one_empty (chunk_data size blob)) h)

  -- Over a database that does what SQL says of the statements, with three different columns and
  -- existing rows deleted rather than marked, where the bytes are written under a name without an
  -- error, with a positive size of the chunks, a read of the name gives the same bytes, also where
  -- there are none, and whatever rows were there before.
  pub read_chunked_bytes-write_chunked_bytes :
      (size : ℕ) (name blob : Str) (at : T) (s t : S)
      → 0 < size
      → IsPlain
      → DatabaseLaws x
      → write_chunked_bytes c x size name blob at s ≡ ok t
      → read_chunked_bytes c x name t ≡ ok blob
  unfolding write_chunked_bytes read_chunked_bytes
  read_chunked_bytes-write_chunked_bytes size name blob at s t p plain db h =
      let (u, named, h1) = >>=-eq-ok (fail_if (is_empty name) _) _ h in
      let (begun, e2, h2) = >>=-eq-ok (wrap begin_failed (x.begin_transaction s)) _ h1 in
      let (cleared, e3, h3) = >>=-eq-ok (clear_existing c x c.write_mode name at begun) _ h2 in
      ground (
        arith,
        written-rows db size name blob at cleared t plain
            (cleared-rows db name at begun cleared plain e3)
            (wrap-ok insert_failed (x.execute_write (insert_builder c x size name blob at) cleared)
              t h3),
        reassemble_chunks-numbered (or_one_empty (chunk_data size blob))
            (or_one_empty-nonempty (chunk_data size blob)),
        join-or_one_empty (chunk_data size blob),
        join-chunk_data size blob p,
      )

  -- Over such a database, with three different columns and rows deleted rather than marked, where
  -- the bytes of a name are deleted without an error, a read of the name finds no chunks.
  pub read_chunked_bytes-delete_chunked_bytes :
      (name : Str) (at : T) (s t : S)
      → IsPlain
      → DatabaseLaws x
      → delete_chunked_bytes c x name at s ≡ ok t
      → read_chunked_bytes c x name t ≡ err (reassemble_failed no_chunks_found)
  unfolding delete_chunked_bytes read_chunked_bytes reassemble_chunks
  read_chunked_bytes-delete_chunked_bytes name at s t plain db h =
      let (u, named, h1) = >>=-eq-ok (fail_if (is_empty name) _) _ h in
      let (begun, e2, h2) = >>=-eq-ok (wrap begin_failed (x.begin_transaction s)) _ h1 in
      let none_left =
        db.read_rows c.table_name c.name_column name c.chunk_index_column c.chunk_data_column
          (c.chunk_index_column ++ bytes " ASC") t
        ∙ ap (λ rs. ok (picked c.chunk_index_column c.chunk_data_column rs))
            (cleared-rows db name at begun t plain h2) in
      ground (arith, none_left)
