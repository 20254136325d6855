-- ===== src/ShardSql/Exporting.antt =====
-- shard_sql.go: what one gets by exporting batch after batch, as BackfillStep does.
use ubi_quic_e_xtreme_zero_t.Prelude.{
  ltb, if◌then◌else◌, Bool-cases, length, All, take, drop, filter_where, All-map, All-filter_where,
  take-drop, length-filter_where, tlt, Text, tlt_irrefl, tlt_trans, ℕ, zero, suc, ◌≤◌, ◌<◌, ◌≡◌,
  refl, sym, ap, ◌∙◌, subst, inl, inr, Bool, true, false, ◌||◌, List, [], ◌∷◌, ◌++◌, arith,
}
use ubi_quic_e_xtreme_zero_t.Envelope.{is_empty}
use ubi_quic_e_xtreme_zero_t.Shard.Rows.{ShardDocument, ShardBatch}
use ubi_quic_e_xtreme_zero_t.ShardSql.{
  ShardTable, in_range, is_past_checkpoint, last_key, batch_of, select_batch,
}

-- The keys increase.
abbrev pub Ordered : ShardTable → Type 0
Ordered [] = Unit
Ordered (r ∷ rs) = All (λ (s : ShardDocument). tlt r.key s.key ≡ true) rs × Ordered rs

-- A batch, and where it is not the last, what follows its Next.
abbrev pub continued : ShardBatch → (Text → List ShardDocument) → List ShardDocument
continued b k = if b.done then b.documents else b.documents ++ k b.next

-- Batches from a checkpoint on, each from the Next of the one before, until one is the last.
unfoldable pub export_all : ℕ → Text → Text → Text → ℕ → ShardTable → List ShardDocument
export_all zero start end after limit t = []
export_all (suc fuel) start end after limit t =
    continued (select_batch start end after limit t)
      (λ following. export_all fuel start end following limit t)

Ordered-filter :
    (p : ShardDocument → Bool) (t : ShardTable) → Ordered t → Ordered (filter_where p t)
Ordered-filter p [] h = tt
Ordered-filter p (r ∷ rs) h = elim (Bool-cases (p r)) [
  | inl a ↦ rw a (All-filter_where _ p rs h.0, Ordered-filter p rs h.1)
  | inr a ↦ rw a (Ordered-filter p rs h.1)
]

filter_where-true : (t : ShardTable) → filter_where (λ r. true) t ≡ t
filter_where-true [] = refl
filter_where-true (r ∷ rs) = ap (λ v. r ∷ v) (filter_where-true rs)

filter_where_same :
    (p q : ShardDocument → Bool) (t : ShardTable)
    → ((r : ShardDocument) → p r ≡ q r)
    → filter_where p t ≡ filter_where q t
filter_where_same p q [] h = refl
filter_where_same p q (r ∷ rs) h = ground (arith, h r, filter_where_same p q rs h)

All-filter_self :
    (p : ShardDocument → Bool) (t : ShardTable) → All (λ r. p r ≡ true) (filter_where p t)
All-filter_self p [] = tt
All-filter_self p (r ∷ rs) = elim (Bool-cases (p r)) [
  | inl a ↦ rw a (a, All-filter_self p rs)
  | inr a ↦ rw a (All-filter_self p rs)
]

-- All rows pass, or none does.
filter_where-All :
    (p : ShardDocument → Bool) (t : ShardTable) → All (λ r. p r ≡ true) t → filter_where p t ≡ t
filter_where-All p [] h = refl
filter_where-All p (r ∷ rs) h = rw h.0 (ap (λ v. r ∷ v) (filter_where-All p rs h.1))

-- What holds of all keys holds of the last of some.
All-last_key :
    (Q : Text → Type 0) (n : ℕ) (rs : ShardTable) (j : Text)
    → Q j
    → All (λ (s : ShardDocument). Q s.key) rs
    → Q (last_key (take n rs) j)
All-last_key Q n [] j e h = e
All-last_key Q zero (r ∷ rs) j e h = e
All-last_key Q (suc n) (r ∷ rs) j e h = All-last_key Q n rs r.key h.0 h.1

take_short : (n : ℕ) (t : ShardTable) → length (take n t) < n → take n t ≡ t
take_short n [] h = refl
take_short zero (r ∷ rs) h = absurd (omega (arith, h))
take_short (suc n) (r ∷ rs) h = ap (λ v. r ∷ v) (take_short n rs (omega (arith, h)))

length-drop_most : (n : ℕ) (t : ShardTable) → length (drop n t) ≤ length t
length-drop_most n [] = omega arith
length-drop_most zero (r ∷ rs) = omega arith
length-drop_most (suc n) (r ∷ rs) = omega (arith, length-drop_most n rs)

Ordered-drop : (n : ℕ) (t : ShardTable) → Ordered t → Ordered (drop n t)
Ordered-drop n [] h = tt
Ordered-drop zero (r ∷ rs) h = h
Ordered-drop (suc n) (r ∷ rs) h = Ordered-drop n rs h.1

All-drop : (P : ShardDocument → Type 0) (n : ℕ) (t : ShardTable) → All P t → All P (drop n t)
All-drop P n [] h = tt
All-drop P zero (r ∷ rs) h = h
All-drop P (suc n) (r ∷ rs) h = All-drop P n rs h.1

-- Leaving out what is not past the last row that was taken leaves the rest.
past_taken :
    (n : ℕ) (r : ShardDocument) (rs : ShardTable)
    → Ordered (r ∷ rs)
    → filter_where (λ s. tlt (last_key (take n rs) r.key) s.key) (r ∷ rs) ≡ drop n rs
past_taken zero r [] h = rw (tlt_irrefl r.key) refl
past_taken zero r (s ∷ rs) h = rw (tlt_irrefl r.key) (filter_where-All _ (s ∷ rs) h.0)
past_taken (suc n) r [] h = rw (tlt_irrefl r.key) refl
past_taken (suc n) r (s ∷ rs) h =
    let above = All-last_key (λ k. tlt r.key k ≡ true) n rs s.key h.0.0 h.0.1 in
    let below : tlt (last_key (take n rs) s.key) r.key ≡ false =
      ground (arith, above, tlt_trans r.key _ r.key above, tlt_irrefl r.key) in
    rw below (past_taken n s rs h.1)

-- A later checkpoint leaves out more.
filter_where_past :
    (a b : Text) (t : ShardTable)
    → tlt a b ≡ true
    → filter_where (λ s. tlt b s.key) (filter_where (λ s. tlt a s.key) t)
      ≡ filter_where (λ s. tlt b s.key) t
filter_where_past a b [] h = refl
filter_where_past a b (r ∷ rs) h = elim (Bool-cases (tlt b r.key)) [
  | inl e ↦
      let over : tlt a r.key ≡ true = tlt_trans a b r.key h e in
      rw (over, e) (ap (λ v. r ∷ v) (filter_where_past a b rs h))
  | inr e ↦ elim (Bool-cases (tlt a r.key)) [
    | inl f ↦ rw (f, e) (filter_where_past a b rs h)
    | inr f ↦ rw (f, e) (filter_where_past a b rs h)
  ]
]

module _ (start end : Text) (size : ℕ) (t : ShardTable) where
  abbrev ranged : ShardTable
  ranged = filter_where (in_range start end) t

  abbrev left_after : Text → ShardTable
  left_after after = filter_where (is_past_checkpoint after) ranged

  export_step :
      (after : Text)
      → select_batch start end after (suc size) t
        ≡ batch_of (suc size) (take (suc size) (left_after after))
  unfolding select_batch
  export_step after = refl

  left_later :
      (after later : Text)
      → is_empty later ≡ false
      → (is_empty after || tlt after later) ≡ true
      → left_after later ≡ filter_where (λ s. tlt later s.key) (left_after after)
  left_later after later e h = elim (Bool-cases (is_empty after)) [
    | inl f ↦
        let everything : left_after after ≡ ranged =
          filter_where_same _ (λ r. true) ranged (λ r. rw f refl) ∙ filter_where-true ranged in
        shown ∙ ap (filter_where (λ s. tlt later s.key)) (sym everything)
    | inr f ↦
        let over : tlt after later ≡ true = ground (arith, h, f) in
        let before : left_after after ≡ filter_where (λ s. tlt after s.key) ranged =
          filter_where_same _ _ ranged (λ r. rw f refl) in
        shown
        ∙ sym (filter_where_past after later ranged over)
        ∙ ap (filter_where (λ s. tlt later s.key)) (sym before)
  ]
    where
      shown : left_after later ≡ filter_where (λ s. tlt later s.key) ranged
      shown = filter_where_same _ _ ranged (λ r. rw e refl)

  -- The rows from a checkpoint on are the rows that are left.
  export_all_left :
      (fuel : ℕ) (after : Text) (rest : ShardTable)
      → left_after after ≡ rest
      → Ordered rest
      → All (λ (r : ShardDocument). is_empty r.key ≡ false) rest
      → All (λ (r : ShardDocument). is_past_checkpoint after r ≡ true) rest
      → length rest < fuel
      → export_all fuel start end after (suc size) t ≡ rest
  unfolding export_all
  export_all_left zero after rest e o k p h = absurd (omega (arith, h))
  export_all_left (suc fuel) after [] e o k p h =
      ap (λ b. continued b (λ later. export_all fuel start end later (suc size) t))
        (export_step after ∙ ap (λ rows. batch_of (suc size) (take (suc size) rows)) e)
      ∙ (let last : ltb 0 (suc size) ≡ true = ground arith in rw last refl)
  export_all_left (suc fuel) after (r ∷ rs) e o k p h =
      let next = last_key (take size rs) r.key in
      let more : Text → List ShardDocument =
        λ later. export_all fuel start end later (suc size) t in
      let batch = batch_of (suc size) (r ∷ take size rs) in
      let filled : is_empty next ≡ false =
        All-last_key (λ key. is_empty key ≡ false) size rs r.key k.0 k.1 in
      let past : (is_empty after || tlt after next) ≡ true =
        All-last_key (λ key. (is_empty after || tlt after key) ≡ true) size rs r.key p.0 p.1 in
      let left : left_after next ≡ drop size rs =
        left_later after next filled past
        ∙ ap (filter_where (λ s. tlt next s.key)) e
        ∙ past_taken size r rs o in
      let others : more next ≡ drop size rs =
        export_all_left fuel next (drop size rs) left (Ordered-drop size rs o.1)
          (All-drop _ size rs k.1)
          (subst (All (λ (s : ShardDocument). is_past_checkpoint next s ≡ true)) left
            (All-filter_self (is_past_checkpoint next) ranged))
          (omega (arith, h, length-drop_most size rs)) in
      ap (λ b. continued b more)
        (export_step after ∙ ap (λ rows. batch_of (suc size) (take (suc size) rows)) e)
      ∙ elim (Bool-cases (ltb (suc (length (take size rs))) (suc size))) [
        | inl f ↦ rw f (ap (λ v. r ∷ v) (take_short size rs (ground (arith, f))))
        | inr f ↦
            rw f
              (ap (λ v. r ∷ (take size rs ++ v)) others ∙ ap (λ v. r ∷ v) (sym (take-drop size rs)))
      ]

  -- Exporting batch after batch, each from the Next of the one before and the first from the empty checkpoint that
  -- BeginBackfill sets, comes to an end, in one batch more than there are rows at most, and gives the
  -- rows of the range, each once and in the order of their keys, whatever the limit above zero, in a
  -- table whose keys are unique and not empty.
  pub export_all_ok :
      (fuel : ℕ)
      → Ordered t
      → All (λ (r : ShardDocument). is_empty r.key ≡ false) t
      → length t < fuel
      → export_all fuel start end [] (suc size) t ≡ filter_where (in_range start end) t
  unfolding is_empty
  export_all_ok fuel o k h =
      export_all_left fuel [] ranged (filter_where-true ranged)
        (Ordered-filter (in_range start end) t o) (All-filter_where _ (in_range start end) t k)
        (All-map _ _ ranged (λ r e. refl) (All-filter_where _ (in_range start end) t k))
        (omega (arith, h, length-filter_where (in_range start end) t))
