-- ===== src/Server/Snapshot/Contents.antt =====
-- After `save_rows` the table holds the given rows, as far as one reads them by id.
use sub_hub.Common.{
  ◌≡◌, refl, ◌∙◌, ap, Bool, true, false, ◌&&◌, Option, none, some, List, [], ◌∷◌, Text, text_eq,
  text_eq_iff, contains_text, All, if◌then◌else◌, Bool-cases, Option-cases, inl, inr, arith,
}
use sub_hub.Model.Merge.Dedup.{Distinct}
use sub_hub.Server.Snapshot.{
  Digest, digest_eq, Row, Table, insert_or_replace, prior_digest, Writer, same_digest, new_row,
  write_row, write_rows, ids, delete_gone, save_rows,
}

-- The text of the row with an id.
unfoldable pub read : Text → Table → Option Text
read id [] = none
read id (r ∷ rs) = if text_eq r.id id then some r.data_ else read id rs

-- The text that is given for an id.
unfoldable pub given : Text → List (Text × Text) → Option Text
given id [] = none
given id ((j, text) ∷ rows) = if text_eq j id then some text else given id rows

read-insert_or_replace :
    (id : Text) (r : Row) (t : Table)
    → read id (insert_or_replace r t) ≡ (if text_eq r.id id then some r.data_ else read id t)
unfolding read insert_or_replace
read-insert_or_replace id r [] = refl
read-insert_or_replace id r (q ∷ t) = ground (
  arith,
  read-insert_or_replace id r t,
  text_eq_iff q.id r.id,
  text_eq_iff q.id id,
  text_eq_iff r.id id,
)

read-delete_gone :
    (id : Text) (kept : List Text) (t : Table)
    → read id (delete_gone kept t) ≡ (if contains_text kept id then read id t else none)
unfolding read delete_gone
read-delete_gone id kept [] = ground arith
read-delete_gone id kept (q ∷ t) = ground (arith, read-delete_gone id kept t, text_eq_iff q.id id)

given-absent :
    (id : Text) (rows : List (Text × Text))
    → contains_text (ids rows) id ≡ false
    → given id rows ≡ none
unfolding given contains_text
given-absent id [] h = refl
given-absent id ((j, text) ∷ rows) h =
    ground (arith, given-absent id rows, text_eq_iff j id, text_eq_iff id j)

digest_eq→eq : (a b : Digest) → digest_eq a b ≡ true → a ≡ b
unfolding digest_eq
digest_eq→eq a b h = ground arith

-- Every row's digest is that of its text.
abbrev pub Digested : Writer → Table → Type 0
Digested w = All (λ r. r.digest ≡ w.content_fingerprint r.data_)

prior_digest-read :
    (w : Writer) (id : Text) (t : Table)
    → Digested w t
    → (d : Digest) → prior_digest id t ≡ some d
    → (old : Text) × (read id t ≡ some old) × (d ≡ w.content_fingerprint old)
unfolding prior_digest read
prior_digest-read w id [] h d e = cc
prior_digest-read w id (r ∷ t) h d e = elim (Bool-cases (text_eq r.id id)) [
  | inl same ↦ (r.data_, rw same, ground (arith, h.0))
  | inr other ↦
      let (old, found, eq) = prior_digest-read w id t h.1 d (ground arith) in
      (old, rw other found, eq)
]

-- A changed text has another digest than the stored text of its id.
abbrev pub NoCollision : Writer → Table → Text × Text → Type 0
NoCollision w t row =
    (old : Text)
    → read row.0 t ≡ some old
    → w.content_fingerprint old ≡ w.content_fingerprint row.1
    → old ≡ row.1

-- The row would be skipped.
abbrev skipped : Writer → Table → Text × Text → Bool
skipped w prior row =
    w.hashed && same_digest (prior_digest row.0 prior) (w.content_fingerprint row.1)

-- Where a row is skipped, the table holds its text.
abbrev Stored : Writer → Table → Table → Text × Text → Type 0
Stored w prior t row = skipped w prior row ≡ true → read row.0 t ≡ some row.1

module _ (w : Writer) (prior : Table) where
  NoCollision-Stored :
      (row : Text × Text) → Digested w prior → NoCollision w prior row → Stored w prior prior row
  NoCollision-Stored row d n h = elim (Option-cases (prior_digest row.0 prior)) [
    | inl e ↦ absurd (ground arith)
    | inr (x, e) ↦
        let (old, found, eq) = prior_digest-read w row.0 prior d x e in
        let same : x ≡ w.content_fingerprint row.1 = digest_eq→eq x _ (ground arith) in
        found ∙ ap some (n old found (cc))
  ]

  read-write_row :
      (id : Text) (row : Text × Text) (t : Table)
      → Stored w prior t row
      → read id (write_row w prior row t) ≡ (if text_eq row.0 id then some row.1 else read id t)
  unfolding write_row
  read-write_row id (j, text) t h = elim (Bool-cases (skipped w prior (j, text))) [
    | inl e ↦ rw e (ground (arith, h e, text_eq_iff j id))
    | inr e ↦ rw e (read-insert_or_replace id (new_row w j text) t)
  ]

  Stored-write_row :
      (row : Text × Text) (t : Table) (rows : List (Text × Text))
      → Stored w prior t row
      → contains_text (ids rows) row.0 ≡ false
      → All (Stored w prior t) rows
      → All (Stored w prior (write_row w prior row t)) rows
  unfolding contains_text
  Stored-write_row row t [] h n k = tt
  Stored-write_row row t (r ∷ rows) h n k = (
    λ e. ground (arith, read-write_row r.0 row t h, k.0 e),
    Stored-write_row row t rows h (ground arith) k.1,
  )

  read-write_rows :
      (id : Text) (rows : List (Text × Text)) (t : Table)
      → All (Stored w prior t) rows
      → Distinct (ids rows)
      → read id (write_rows w prior rows t)
        ≡ (if contains_text (ids rows) id then given id rows else read id t)
  unfolding write_rows given contains_text
  read-write_rows id [] t h d = refl
  read-write_rows id (row ∷ rows) t h d =
      let rest =
        read-write_rows id rows (write_row w prior row t) (Stored-write_row row t rows h.0 d.0 h.1)
          d.1 in
      ground (arith, rest, read-write_row id row t h.0, text_eq_iff row.0 id, text_eq_iff id row.0)

All-Stored :
    (w : Writer) (t : Table) (rows : List (Text × Text))
    → Digested w t
    → All (NoCollision w t) rows
    → All (Stored w t t) rows
All-Stored w t [] d n = tt
All-Stored w t (row ∷ rows) d n = (NoCollision-Stored w t row d n.0, All-Stored w t rows d n.1)

-- Given rows of pairwise different ids, a table whose digests are those of its texts, and no digest
-- that a changed text shares with the stored text of its id: after `save_rows` each id has exactly
-- the text that was given for it, though unchanged rows were not written, and no other id has one.
pub read-save_rows :
    (w : Writer) (rows : List (Text × Text)) (t : Table) (id : Text)
    → Distinct (ids rows)
    → Digested w t
    → All (NoCollision w t) rows
    → read id (save_rows w rows t) ≡ given id rows
unfolding save_rows
read-save_rows w rows t id d g n = ground (
  arith,
  read-delete_gone id (ids rows) (write_rows w t rows t),
  read-write_rows w t id rows t (All-Stored w t rows g n) d,
  given-absent id rows,
)
