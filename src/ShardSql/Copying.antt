-- ===== src/ShardSql/Copying.antt =====
-- shard.go, shard_sql.go: a whole backfill between two tables, step by step as BackfillStep copies it while the source
-- does not change.
use ubi_quic_e_xtreme_zero_t.Prelude.{
  if◌then◌else◌, Bool-cases, length, All, filter_where, All-filter_where, teq, Text, result_cases,
  ok, ℕ, zero, suc, ◌<◌, ◌≡◌, refl, sym, ap, ◌∙◌, ◌⊎◌, inl, inr, true, false, Option, none, some,
  List, [], ◌∷◌, ◌++◌, arith,
}
use ubi_quic_e_xtreme_zero_t.Sql.{World, M, ◌>>◌, pure}
use ubi_quic_e_xtreme_zero_t.Envelope.{is_empty}
use ubi_quic_e_xtreme_zero_t.Shard.Rows.{ShardDocument}
use ubi_quic_e_xtreme_zero_t.ShardSql.{
  ShardTable, DocumentReader, in_range, import_rows, select_batch, row_of,
}
use ubi_quic_e_xtreme_zero_t.ShardSql.Exporting.{Ordered, export_all, export_all_ok}
use ubi_quic_e_xtreme_zero_t.ShardSql.Importing.{row_at, or_row, imported, import_rows_cases}

module _ (reader : DocumentReader) where
  abbrev import_some : List ShardDocument → M ShardTable (Unit {0})
  import_some [] = pure tt
  import_some (d ∷ ds) = import_rows reader (d ∷ ds)

  -- The steps from a checkpoint on, of which each imports one batch into the destination.
  unfoldable pub copy_range : ℕ → Text → Text → Text → ℕ → ShardTable → M ShardTable (Unit {0})
  copy_range zero start end after limit src = pure tt
  copy_range (suc fuel) start end after limit src =
      let b = select_batch start end after limit src in
      import_some b.documents
      >> (if b.done then pure tt else copy_range fuel start end b.next limit src)

  imported-append :
      (k : Text) (xs ys : List ShardDocument) (old : Option ShardDocument)
      → imported reader k (xs ++ ys) old ≡ imported reader k ys (imported reader k xs old)
  imported-append k [] ys old = refl
  imported-append k (x ∷ xs) ys old = imported-append k xs ys _

  import_some_ok :
      (ds : List ShardDocument) (k : Text) (w : World ShardTable)
      → Ordered w.db
      → (import_some ds w).0 ≡ ok tt
      → Ordered (import_some ds w).1.db
        × (row_at k (import_some ds w).1.db ≡ imported reader k ds (row_at k w.db))
  import_some_ok [] k w o h = (o, refl)
  import_some_ok (d ∷ ds) k w o h =
      let (ordered, cases) = import_rows_cases reader (d ∷ ds) k w o in
      elim cases [
        | inl (result, same) ↦ (ordered, same)
        | inr (x, result, same) ↦ absurd (ground (arith, h, result))
      ]

  then_ok :
      (m n : M ShardTable (Unit {0})) (w : World ShardTable)
      → ((m >> n) w).0 ≡ ok tt
      → ((m w).0 ≡ ok tt) × ((m >> n) w ≡ n (m w).1)
  then_ok m n w h = elim (result_cases (m w).0) [
    | inl (u, e) ↦ (e, rw e refl)
    | inr (x, e) ↦ absurd (ground (arith, h, e))
  ]

  copy_range_ok :
      (fuel : ℕ) (start end after : Text) (limit : ℕ) (src : ShardTable) (k : Text)
      (w : World ShardTable)
      → Ordered w.db
      → (copy_range fuel start end after limit src w).0 ≡ ok tt
      → row_at k (copy_range fuel start end after limit src w).1.db
        ≡ imported reader k (export_all fuel start end after limit src) (row_at k w.db)
  unfolding copy_range export_all
  copy_range_ok zero start end after limit src k w o h = refl
  copy_range_ok (suc fuel) start end after limit src k w o h =
      let b = select_batch start end after limit src in
      let rest = if b.done then pure tt else copy_range fuel start end b.next limit src in
      let (first, same) = then_ok (import_some b.documents) rest w h in
      let (ordered, found) = import_some_ok b.documents k w o first in
      ap (λ p. row_at k p.1.db) same ∙ elim (Bool-cases b.done) [
        | inl d ↦ rw d found
        | inr d ↦
            let more = export_all fuel start end b.next limit src in
            let w' = (import_some b.documents w).1 in
            let taken : rest w' ≡ copy_range fuel start end b.next limit src w' = rw d refl in
            let tail =
              copy_range_ok fuel start end b.next limit src k w' ordered
                (sym (ap (λ p. p.0) (same ∙ taken)) ∙ h) in
            rw d (
              tail
              ∙ ap (imported reader k more) found
              ∙ sym (imported-append k b.documents more (row_at k w.db)))
      ]

  -- What Import stores of a row.
  abbrev pub as_stored : Option ShardDocument → Option ShardDocument
  as_stored none = none
  as_stored (some r) = some (row_of reader r)

  imported_first :
      (k : Text) (ds : List ShardDocument) (old : Option ShardDocument)
      → All (λ (r : ShardDocument). reader.key_of r.data_json ≡ r.key) ds
      → imported reader k ds old ≡ or_row old (as_stored (row_at k ds))
  imported_first k [] none h = refl
  imported_first k [] (some r) h = refl
  imported_first k (d ∷ ds) old h =
      let stored = row_of reader d in
      ap (λ key. imported reader k ds (or_row old (if teq key k then some stored else none))) h.0
      ∙ imported_first k ds _ h.1
      ∙ joined old (Bool-cases (teq d.key k))
    where
      joined :
          (old : Option ShardDocument)
          → ((teq d.key k ≡ true) ⊎ (teq d.key k ≡ false))
          → or_row
              (or_row old (if teq d.key k then some (row_of reader d) else none))
              (as_stored (row_at k ds))
            ≡ or_row old (as_stored (row_at k (d ∷ ds)))
      joined (some r) c = refl
      joined none (inl c) = rw c refl
      joined none (inr c) = rw c refl

  -- Where the decoded JSON of each row of the source has the row's key, and the keys of both tables are unique
  -- and those of the source not empty: the batches of a backfill of a source that does not change are, for
  -- every limit above zero, the rows of the range in the order of their keys, and one step more than
  -- the source has rows is enough for them. If every import succeeds, each key has in the destination the
  -- row that it had there, or, where it had none, what Import decodes and inserts of the source's row in
  -- the range, so that no key of the range is missing; that the columns of the row have the values that
  -- they have in the source is not stated.
  pub copy_range_complete :
      (fuel size : ℕ) (start end k : Text) (src : ShardTable) (w : World ShardTable)
      → All (λ (r : ShardDocument). reader.key_of r.data_json ≡ r.key) src
      → Ordered src
      → All (λ (r : ShardDocument). is_empty r.key ≡ false) src
      → Ordered w.db
      → length src < fuel
      → (copy_range fuel start end [] (suc size) src w).0 ≡ ok tt
      → (export_all fuel start end [] (suc size) src ≡ filter_where (in_range start end) src)
        × (row_at k (copy_range fuel start end [] (suc size) src w).1.db
            ≡ or_row (row_at k w.db) (as_stored (row_at k (filter_where (in_range start end) src))))
  copy_range_complete fuel size start end k src w honest o filled p enough h =
      let exported = export_all_ok start end size src fuel o filled enough in
      (
        exported,
        copy_range_ok fuel start end [] (suc size) src k w p h
            ∙ ap (λ ds. imported reader k ds (row_at k w.db)) exported
            ∙ imported_first k (filter_where (in_range start end) src) (row_at k w.db)
                (All-filter_where _ (in_range start end) src honest),
      )
