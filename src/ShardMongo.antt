-- ===== src/ShardMongo.antt =====
-- shard_mongo.go: a shard in a MongoDB collection, as a shard backend. A document is its key and its extended JSON;
-- the collection is its documents in the order of their keys, which are taken to be unique. What Import
-- reads in the JSON of a document is a parameter.
use ubi_quic_e_xtreme_zero_t.Prelude.{
  if◌then◌else◌, Bool-cases, All, take, count_where, filter_where, teq, tlt, Text, teq_iff,
  missing_shard_key, Result, ok, err, ℕ, ◌≡◌, refl, ap, ◌∙◌, inl, inr, Bool, false, not, ◌&&◌,
  Option, none, some, List, [], ◌∷◌, arith,
}
use ubi_quic_e_xtreme_zero_t.Sql.{World, M, ◌>>=◌, ◌>>◌, pure, lift, statement}
use ubi_quic_e_xtreme_zero_t.Envelope.{is_empty}
use ubi_quic_e_xtreme_zero_t.Shard.Rows.{ShardDocument, ShardBatch, ShardBackend}
use ubi_quic_e_xtreme_zero_t.ShardSql.{ShardTable, in_range, is_past_checkpoint, batch_of}
use ubi_quic_e_xtreme_zero_t.ShardSql.Importing.{row_at}

-- rangeFilter
unfoldable pub range_filter : Text → Text → Text → ShardDocument → Bool
unfolding is_empty tlt
range_filter start end after d = in_range start end d && is_past_checkpoint after d

-- ExportRange
unfoldable pub export_documents : Text → Text → Text → ℕ → M ShardTable ShardBatch
unfolding range_filter
export_documents start end after limit =
    statement
      (λ t. (ok (batch_of limit (take limit (filter_where (range_filter start end after) t))), t))

-- ReplaceOne with SetUpsert
unfoldable pub replace_one : ShardDocument → ShardTable → ShardTable
unfolding teq tlt
replace_one d [] = d ∷ []
replace_one d (r ∷ rs) =
    let rest = replace_one d rs in
    if teq r.key d.key then d ∷ rs else if tlt d.key r.key then d ∷ r ∷ rs else r ∷ rest

-- `key, ok := doc[keyField]`
abbrev present_key : Option Text → Result Text
present_key none = err missing_shard_key
present_key (some k) = ok k

-- UnmarshalExtJSON, with the value of the key field.
pub record KeyReader : Type 0 where
  pub key_field_of : Text → Result (Option Text)

module _ (reader : KeyReader) where
  -- Import, which has no transaction: what was replaced before an error stays.
  unfoldable pub replace_documents : List ShardDocument → M ShardTable (Unit {0})
  unfolding replace_one
  replace_documents [] = pure tt
  replace_documents (d ∷ ds) = lift (reader.key_field_of d.data_json) >>= λ field.
      lift (present_key field) >>= λ key.
      statement (λ t. (ok tt, replace_one (record d { key = key }) t)) >> replace_documents ds

-- CountRange
unfoldable pub count_documents : Text → Text → M ShardTable ℕ
unfolding range_filter
count_documents start end = statement (λ t. (ok (count_where (range_filter start end []) t), t))

-- DeleteRange
unfoldable pub delete_documents : Text → Text → M ShardTable (Unit {0})
unfolding range_filter
delete_documents start end =
    statement (λ t. (ok tt, filter_where (λ d. not (range_filter start end [] d)) t))

-- MongoShardBackend
abbrev pub mongo_backend : KeyReader → Text → ShardBackend (World ShardTable)
mongo_backend reader id = record {
  backend_id = id;
  export_range = export_documents;
  import_documents = replace_documents reader;
  count_range = count_documents;
  delete_range = delete_documents;
}

-- What Import leaves under a key, where no call fails: the last of the documents of that key.
abbrev last_of : KeyReader → Text → List ShardDocument → Option ShardDocument → Option ShardDocument
last_of reader k [] old = old
last_of reader k (d ∷ ds) old = last_of reader k ds (if teq d.key k then some d else old)

row_at-replace_one :
    (k : Text) (d : ShardDocument) (t : ShardTable)
    → row_at k (replace_one d t) ≡ (if teq d.key k then some d else row_at k t)
unfolding replace_one
row_at-replace_one k d [] = refl
row_at-replace_one k d (r ∷ rs) = elim (Bool-cases (teq r.key d.key)) [
  | inl a ↦
      let same : teq r.key k ≡ teq d.key k = ap (λ v. teq v k) ((teq_iff r.key d.key).0 a) in
      elim (Bool-cases (teq d.key k)) [ inl c ↦ rw (a, c) refl | inr c ↦ rw (a, same, c) refl ]
  | inr a ↦ elim (Bool-cases (tlt d.key r.key)) [
    | inl b ↦ rw (a, b) refl
    | inr b ↦ elim (Bool-cases (teq r.key k)) [
      | inl c ↦
          let apart : teq d.key k ≡ false =
            ground (arith, a, c, teq_iff r.key k, teq_iff d.key k, teq_iff r.key d.key) in
          rw (a, b, c, apart) refl
      | inr c ↦ rw (a, b, c) (row_at-replace_one k d rs)
    ]
  ]
]

-- Where the key field of each document is its key and no call fails, Import leaves under each key the last of the
-- documents of that key, also in place of another document, and where there is none what was there.
pub replace_documents_ok :
    (reader : KeyReader) (ds : List ShardDocument) (k : Text) (w : World ShardTable)
    → All (λ (d : ShardDocument). reader.key_field_of d.data_json ≡ ok (some d.key)) ds
    → w.faults ≡ []
    → ((replace_documents reader ds w).0 ≡ ok tt)
      × (row_at k (replace_documents reader ds w).1.db ≡ last_of reader k ds (row_at k w.db))
unfolding replace_documents statement
replace_documents_ok reader [] k w h f = (refl, refl)
replace_documents_ok reader (d ∷ ds) k w h f =
    let w' : World ShardTable = record { db = replace_one d w.db; faults = [] } in
    let step : replace_documents reader (d ∷ ds) w ≡ replace_documents reader ds w' =
      rw (h.0, f) refl in
    let rest = replace_documents_ok reader ds k w' h.1 refl in
    (
      ap (λ p. p.0) step ∙ rest.0,
      ap (λ p. row_at k p.1.db) step
          ∙ rest.1
          ∙ ap (last_of reader k ds) (row_at-replace_one k d w.db),
    )
