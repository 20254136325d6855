-- ===== src/ShardSql.antt =====
-- shard_sql.go: a shard in a SQL table, as a shard backend. A row is its key and the JSON of its columns; the table
-- is its rows in the order of their keys, which are unique, as the primary key makes them. What Import
-- decodes the JSON of a document to is a parameter.
pub mod Exporting
pub mod Importing
pub mod Copying
use ubi_quic_e_xtreme_zero_t.Prelude.{
  ltb, leb, ◌==◌, if◌then◌else◌, length, take, count_where, filter_where, teq, tlt, Text,
  unsafe_identifier, Result, ok, err, ℕ, Bool, true, false, not, ◌&&◌, ◌||◌, List, [], ◌∷◌,
}
use ubi_quic_e_xtreme_zero_t.Sql.{M, ◌>>=◌, ◌>>◌, pure, raise, lift, statement, transaction}
use ubi_quic_e_xtreme_zero_t.Envelope.{is_empty}
use ubi_quic_e_xtreme_zero_t.Shard.Rows.{ShardDocument, ShardBatch, ShardBackend}
use ubi_quic_e_xtreme_zero_t.Sql.{World}

abbrev pub ShardTable : Type 0
ShardTable = List ShardDocument

-- What Import makes of the JSON of a document: the columns of the map that it decodes to, and what the table
-- has once the values of the map are inserted: the value of the key column, and the JSON in which the
-- columns are read again. In the map, numbers are float64, so that this JSON may differ from the
-- document's.
pub record DocumentReader : Type 0 where
  pub columns_of : Text → Result (List Text)
  pub key_of : Text → Text
  pub stored_of : Text → Text

abbrev is_letter : ℕ → Bool
is_letter c = (leb b'A' c && leb c b'Z') || ((leb b'a' c && leb c b'z') || c == b'_')

abbrev is_digit : ℕ → Bool
is_digit c = leb b'0' c && leb c b'9'

abbrev word_tail : Text → Bool
word_tail [] = true
word_tail (c ∷ cs) = (is_letter c || is_digit c) && word_tail cs

-- sqlIdentifier
unfoldable pub is_identifier : Text → Bool
is_identifier [] = false
is_identifier (c ∷ cs) = is_letter c && word_tail cs

abbrev pub check_columns : List Text → Result (Unit {0})
check_columns [] = ok tt
check_columns (c ∷ cs) = if is_identifier c then check_columns cs else err unsafe_identifier

-- key >= start AND key < end
abbrev pub in_range : Text → Text → ShardDocument → Bool
in_range start end r = not (tlt r.key start) && tlt r.key end

-- AND key > after, where a checkpoint is given.
abbrev pub is_past_checkpoint : Text → ShardDocument → Bool
is_past_checkpoint after r = is_empty after || tlt after r.key

abbrev pub last_key : List ShardDocument → Text → Text
last_key [] k = k
last_key (r ∷ rs) k = last_key rs r.key

abbrev pub batch_of : ℕ → List ShardDocument → ShardBatch
batch_of limit rows = record {
  documents = rows;
  next = last_key rows [];
  done = ltb (length rows) limit;
}

-- SELECT … WHERE … ORDER BY … LIMIT
unfoldable pub select_batch : Text → Text → Text → ℕ → ShardTable → ShardBatch
unfolding is_empty tlt
select_batch start end after limit t =
    batch_of limit
      (take limit (filter_where (is_past_checkpoint after) (filter_where (in_range start end) t)))

-- ExportRange
unfoldable pub export_rows : Text → Text → Text → ℕ → M ShardTable ShardBatch
unfolding select_batch
export_rows start end after limit = statement (λ t. (ok (select_batch start end after limit t), t))

-- INSERT … ON CONFLICT DO NOTHING, of a row as the table holds it.
unfoldable pub insert_row : ShardDocument → ShardTable → ShardTable
insert_row d [] = d ∷ []
insert_row d (r ∷ rs) =
    let rest = insert_row d rs in
    if teq r.key d.key then r ∷ rs else if tlt d.key r.key then d ∷ r ∷ rs else r ∷ rest

module _ (reader : DocumentReader) where
  -- The row of the decoded values.
  abbrev pub row_of : ShardDocument → ShardDocument
  row_of d = record { key = reader.key_of d.data_json; data_json = reader.stored_of d.data_json }

  unfoldable pub import_each : List ShardDocument → M ShardTable (Unit {0})
  unfolding insert_row is_identifier
  import_each [] = pure tt
  import_each (d ∷ ds) = lift (reader.columns_of d.data_json) >>= λ cols.
      lift (check_columns cols)
      >> (statement (λ t. (ok tt, insert_row (row_of d) t)) >> import_each ds)

  -- Import
  unfoldable pub import_rows : List ShardDocument → M ShardTable (Unit {0})
  unfolding import_each
  import_rows ds = transaction (import_each ds)

  -- CountRange
  unfoldable pub count_rows : Text → Text → M ShardTable ℕ
  count_rows start end = statement (λ t. (ok (count_where (in_range start end) t), t))

  -- DeleteRange
  unfoldable pub delete_rows : Text → Text → M ShardTable (Unit {0})
  delete_rows start end = statement (λ t. (ok tt, filter_where (λ r. not (in_range start end r)) t))

  -- SQLShardBackend
  abbrev pub sql_backend : Text → ShardBackend (World ShardTable)
  sql_backend id = record {
    backend_id = id;
    export_range = export_rows;
    import_documents = import_rows;
    count_range = count_rows;
    delete_range = delete_rows;
  }

-- OpenSQLShardBackend, with the result of opening the database.
unfoldable pub open_sql_backend : Text → Text → Result (Unit {0}) → Result (Unit {0})
unfolding is_identifier
open_sql_backend table key_column opened =
    if not (is_identifier table) || not (is_identifier key_column)
    then err unsafe_identifier
    else opened
