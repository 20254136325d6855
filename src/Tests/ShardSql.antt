-- ===== src/Tests/ShardSql.antt =====
-- A table of three rows and a destination, and an instance of the theorem on them.
use ubi_quic_e_xtreme_zero_t.Prelude.{
  All, filter_where, teq, tlt, Text, text, ok, ◌≡◌, refl, true, false, [], ◌∷◌, arith,
}
use ubi_quic_e_xtreme_zero_t.Sql.{World, statement, transaction, commit}
use ubi_quic_e_xtreme_zero_t.Envelope.{is_empty}
use ubi_quic_e_xtreme_zero_t.Shard.Rows.{ShardDocument}
use ubi_quic_e_xtreme_zero_t.ShardSql.{
  ShardTable, DocumentReader, in_range, insert_row, import_each, import_rows, select_batch,
  is_identifier,
}
use ubi_quic_e_xtreme_zero_t.ShardSql.Exporting.{Ordered, export_all}
use ubi_quic_e_xtreme_zero_t.ShardSql.Importing.{row_at, or_row}
use ubi_quic_e_xtreme_zero_t.ShardSql.Copying.{copy_range, as_stored, copy_range_complete}

-- The JSON of a row is its key.
abbrev reader : DocumentReader
reader = record { columns_of = λ t. ok (text "id" ∷ []); key_of = λ t. t; stored_of = λ t. 32 ∷ t }

abbrev row : Text → ShardDocument
row k = record { key = k; data_json = k }

abbrev src : ShardTable
src = row (text "a") ∷ row (text "b") ∷ row (text "c") ∷ []

abbrev dst : World ShardTable
dst = record { db = row (text "b") ∷ []; faults = [] }

src-Ordered : Ordered src
unfolding tlt
src-Ordered = ((refl, (refl, tt)), ((refl, tt), (tt, tt)))

src_filled : All (λ (r : ShardDocument). is_empty r.key ≡ false) src
unfolding is_empty
src_filled = (refl, (refl, (refl, tt)))

copied : (copy_range reader 4 (text "a") (text "c") [] 1 src dst).0 ≡ ok tt
unfolding copy_range select_batch import_rows import_each insert_row transaction commit statement
    is_identifier is_empty teq tlt
copied = refl

identifier_test : is_identifier (text "a_1") ≡ true
unfolding is_identifier
identifier_test = refl

unsafe_test : is_identifier (text "1a") ≡ false
unfolding is_identifier
unsafe_test = refl

copy_range_complete_example :
    (export_all 4 (text "a") (text "c") [] 1 src
      ≡ filter_where (in_range (text "a") (text "c")) src)
    × (row_at (text "a") (copy_range reader 4 (text "a") (text "c") [] 1 src dst).1.db
        ≡ or_row (row_at (text "a") dst.db) (
            as_stored reader
              (row_at (text "a") (filter_where (in_range (text "a") (text "c")) src))))
copy_range_complete_example =
    copy_range_complete reader 4 0 (text "a") (text "c") (text "a") src dst
      (refl, (refl, (refl, tt))) src-Ordered src_filled (tt, tt) (omega arith) copied
