-- ===== src/ShardSql/Importing.antt =====
-- shard_sql.go: what Import leaves in the table.
use ubi_quic_e_xtreme_zero_t.Prelude.{
  if◌then◌else◌, Bool-cases, All, find_where, All-map, teq, tlt, Text, teq_iff, teq-false,
  tlt_irrefl, tlt_trans, tlt_total, result_cases, Error, Result, ok, err, ◌≡◌, refl, sym, ap, ◌∙◌,
  subst, ◌⊎◌, inl, inr, true, false, Option, none, some, List, [], ◌∷◌, arith,
}
use ubi_quic_e_xtreme_zero_t.Sql.{World, statement, next_fault, later_faults}
use ubi_quic_e_xtreme_zero_t.Sql.Keeps.{transaction_cases}
use ubi_quic_e_xtreme_zero_t.Shard.Rows.{ShardDocument}
use ubi_quic_e_xtreme_zero_t.ShardSql.{
  ShardTable, DocumentReader, insert_row, import_each, import_rows, row_of, check_columns,
}
use ubi_quic_e_xtreme_zero_t.ShardSql.Exporting.{Ordered}

abbrev pub row_at : Text → ShardTable → Option ShardDocument
row_at key t = find_where (λ r. teq r.key key) t

abbrev pub or_row : Option ShardDocument → Option ShardDocument → Option ShardDocument
or_row none b = b
or_row (some r) b = some r

or_row-none : (o : Option ShardDocument) → o ≡ or_row o none
or_row-none none = refl
or_row-none (some r) = refl

row_at_below :
    (k : Text) (t : ShardTable)
    → All (λ (r : ShardDocument). tlt k r.key ≡ true) t
    → row_at k t ≡ none
row_at_below k [] h = refl
row_at_below k (r ∷ rs) h =
    let differs : teq r.key k ≡ false =
      teq-false r.key k (λ same. ground (arith, h.0, ap (λ v. tlt k v) same, tlt_irrefl k)) in
    rw differs (row_at_below k rs h.1)

All-insert_row :
    (P : ShardDocument → Type 0) (d : ShardDocument) (t : ShardTable)
    → P d
    → All P t
    → All P (insert_row d t)
unfolding insert_row
All-insert_row P d [] p h = (p, tt)
All-insert_row P d (r ∷ rs) p h = elim (Bool-cases (teq r.key d.key)) [
  | inl a ↦ rw a h
  | inr a ↦ elim (Bool-cases (tlt d.key r.key)) [
    | inl b ↦ rw (a, b) (p, h)
    | inr b ↦ rw (a, b) (h.0, All-insert_row P d rs p h.1)
  ]
]

insert_row-Ordered : (d : ShardDocument) (t : ShardTable) → Ordered t → Ordered (insert_row d t)
unfolding insert_row
insert_row-Ordered d [] h = (tt, tt)
insert_row-Ordered d (r ∷ rs) h = elim (Bool-cases (teq r.key d.key)) [
  | inl a ↦ rw a h
  | inr a ↦ elim (Bool-cases (tlt d.key r.key)) [
    | inl b ↦ rw (a, b) ((b, All-map _ _ rs (λ s k. tlt_trans d.key r.key s.key b k) h.0), h)
    | inr b ↦
        let over : tlt r.key d.key ≡ true =
          ground (arith, a, b, tlt_total r.key d.key, teq_iff r.key d.key) in
        rw (a, b) (All-insert_row _ d rs over h.0, insert_row-Ordered d rs h.1)
  ]
]

-- An insert keeps the row of a key that has one.
row_at-insert_row :
    (k : Text) (d : ShardDocument) (t : ShardTable)
    → Ordered t
    → row_at k (insert_row d t) ≡ or_row (row_at k t) (if teq d.key k then some d else none)
unfolding insert_row
row_at-insert_row k d [] h = refl
row_at-insert_row k d (r ∷ rs) h = elim (Bool-cases (teq r.key d.key)) [
  | inl a ↦
      let same : teq r.key k ≡ teq d.key k = ap (λ v. teq v k) ((teq_iff r.key d.key).0 a) in
      elim (Bool-cases (teq d.key k)) [
        | inl c ↦ rw (a, same, c) refl
        | inr c ↦ rw (a, same, c) (or_row-none (row_at k rs))
      ]
  | inr a ↦ elim (Bool-cases (tlt d.key r.key)) [
    | inl b ↦ elim (Bool-cases (teq d.key k)) [
      | inl c ↦
          let at : d.key ≡ k = (teq_iff d.key k).0 c in
          let absent : row_at k (r ∷ rs) ≡ none = row_at_below k (r ∷ rs) (
            subst (λ v. All (λ (s : ShardDocument). tlt v s.key ≡ true) (r ∷ rs)) at
              (b, All-map _ _ rs (λ s e. tlt_trans d.key r.key s.key b e) h.0)) in
          rw (a, b, c) (sym (ap (λ o. or_row o (some d)) absent))
      | inr c ↦ rw (a, b, c) (or_row-none (row_at k (r ∷ rs)))
    ]
    | inr b ↦ elim (Bool-cases (teq r.key k)) [
      | inl c ↦ rw (a, b, c) refl
      | inr c ↦ rw (a, b, c) (row_at-insert_row k d rs h.1)
    ]
  ]
]

module _ (reader : DocumentReader) where
  -- The row of a key after some documents: the one that is there, or else that of the first document of the key.
  abbrev pub imported : Text → List ShardDocument → Option ShardDocument → Option ShardDocument
  imported k [] old = old
  imported k (d ∷ ds) old =
      imported k ds
        (or_row old (if teq (row_of reader d).key k then some (row_of reader d) else none))

  import_each_cons :
      (d : ShardDocument) (ds : List ShardDocument) (w : World ShardTable)
      → (import_each reader (d ∷ ds) w).0 ≡ ok tt
      → (w' : World ShardTable) × (w'.db ≡ insert_row (row_of reader d) w.db)
        × (import_each reader (d ∷ ds) w ≡ import_each reader ds w')
  unfolding import_each statement
  import_each_cons d ds w h = elim (result_cases (reader.columns_of d.data_json)) [
    | inr (x, e) ↦ absurd (ground (arith, h, e))
    | inl (cols, e) ↦ elim (result_cases (check_columns cols)) [
      | inr (x, f) ↦ absurd (ground (arith, h, e, f))
      | inl (u, f) ↦ elim (Bool-cases (next_fault w.faults)) [
        | inl g ↦ absurd (ground (arith, h, e, f, g))
        | inr g ↦ (
          record { db = insert_row (row_of reader d) w.db; faults = later_faults w.faults },
          refl,
          rw (e, f, g) refl,
        )
      ]
    ]
  ]

  import_each_ok :
      (ds : List ShardDocument) (k : Text) (w : World ShardTable)
      → Ordered w.db
      → (import_each reader ds w).0 ≡ ok tt
      → Ordered (import_each reader ds w).1.db
        × (row_at k (import_each reader ds w).1.db ≡ imported k ds (row_at k w.db))
  unfolding import_each
  import_each_ok [] k w o h = (o, refl)
  import_each_ok (d ∷ ds) k w o h =
      let (w', made, same) = import_each_cons d ds w h in
      let row = row_of reader d in
      let ordered : Ordered w'.db = subst Ordered (sym made) (insert_row-Ordered row w.db o) in
      let rest = import_each_ok ds k w' ordered (sym (ap (λ p. p.0) same) ∙ h) in
      let found = ap (row_at k) made ∙ row_at-insert_row k row w.db o in
      (
        subst (λ (p : Result (Unit {0}) × World ShardTable). Ordered p.1.db) (sym same) rest.0,
        ap (λ p. row_at k p.1.db) same ∙ rest.1 ∙ ap (imported k ds) found,
      )

  -- Import into a table whose keys are unique keeps them so. If it succeeds, each key has the row that it had, or,
  -- where it had none, that of the first document of that key; if it fails, at whatever document or
  -- statement, the table is as before.
  pub import_rows_cases :
      (ds : List ShardDocument) (k : Text) (w : World ShardTable)
      → Ordered w.db
      → Ordered (import_rows reader ds w).1.db
        × ((((import_rows reader ds w).0 ≡ ok tt)
              × (row_at k (import_rows reader ds w).1.db ≡ imported k ds (row_at k w.db)))
            ⊎ ((x : Error) × ((import_rows reader ds w).0 ≡ err x)
                × ((import_rows reader ds w).1.db ≡ w.db)))
  unfolding import_rows
  import_rows_cases ds k w o = elim (transaction_cases (import_each reader ds) w) [
    | inl (u, result, body, same) ↦
        let v : World ShardTable = record w { faults = later_faults w.faults } in
        let done = import_each_ok ds k v o body in
        (subst Ordered (sym same) done.0, inl (result, ap (row_at k) same ∙ done.1))
    | inr (x, result, same) ↦ (subst Ordered (sym same) o, inr (x, result, same))
  ]
