-- ===== src/Server/Snapshot/Reorder.antt =====
-- `save_rows` does not keep the order of the rows, which `load_all` reads by `rowid`.
use sub_hub.Common.{
  ◌≡◌, refl, ◌∙◌, ap, Bool, true, false, not, some, List, [], ◌∷◌, ◌++◌, map, Text, text_eq,
  text_eq_iff, eq→text_eq, contains_text, retain, All, All-append, arith,
}
use sub_hub.Model.Merge.Dedup.{Distinct}
use sub_hub.Server.Snapshot.{
  Digest, digest_eq, Row, Table, insert_or_replace, prior_digest, Writer, new_row, write_row,
  write_rows, ids, delete_gone, save_rows,
}
use sub_hub.Server.Snapshot.Contents.{Digested}

-- The rows as they were read from the table.
abbrev pub as_read : Table → List (Text × Text)
as_read = map (λ r. (r.id, r.data_))

digest_eq_refl : (d : Digest) → digest_eq d d ≡ true
unfolding digest_eq
digest_eq_refl d = ground arith

-- Each row of a list is found in the table by its id, with the digest of its text.
abbrev Known : Writer → Table → List Row → Type 0
Known w prior = All (λ r. prior_digest r.id prior ≡ some (w.content_fingerprint r.data_))

Known-cons :
    (w : Writer) (q : Row) (t : Table) (rs : List Row)
    → Known w t rs
    → contains_text (ids (as_read rs)) q.id ≡ false
    → Known w (q ∷ t) rs
unfolding prior_digest contains_text
Known-cons w q t [] h k = tt
Known-cons w q t (r ∷ rs) h k = (ground (arith, h.0), Known-cons w q t rs h.1 (ground arith))

Distinct-Known : (w : Writer) (t : Table) → Digested w t → Distinct (ids (as_read t)) → Known w t t
unfolding prior_digest
Distinct-Known w [] d h = tt
Distinct-Known w (r ∷ t) d h = (
  ground (arith, d.0, eq→text_eq r.id r.id refl),
  Known-cons w r t t (Distinct-Known w t d.1 h.1) h.0,
)

write_rows-Known :
    (w : Writer) (prior : Table) (rs : List Row) (t : Table)
    → w.hashed ≡ true
    → Known w prior rs
    → write_rows w prior (as_read rs) t ≡ t
unfolding write_rows write_row
write_rows-Known w prior [] t h k = refl
write_rows-Known w prior (r ∷ rs) t h k = ground (
  arith,
  k.0,
  write_rows-Known w prior rs t h k.1,
  digest_eq_refl (w.content_fingerprint r.data_),
)

retain-other :
    (id : Text) (rs : List Row)
    → contains_text (ids (as_read rs)) id ≡ false
    → retain (λ q. not (text_eq q.id id)) rs ≡ rs
unfolding contains_text
retain-other id [] h = refl
retain-other id (r ∷ rs) h =
    ground (arith, retain-other id rs, text_eq_iff r.id id, text_eq_iff id r.id)

retain-All_id : (f : Row → Bool) (rs : List Row) → All (λ r. f r ≡ true) rs → retain f rs ≡ rs
retain-All_id f [] h = refl
retain-All_id f (r ∷ rs) h = rw h.0 (ap (λ l. r ∷ l) (retain-All_id f rs h.1))

-- Each row's id is among the texts.
abbrev Among : List Text → List Row → Type 0
Among kept = All (λ r. contains_text kept r.id ≡ true)

Among-cons : (t : Text) (kept : List Text) (rs : List Row) → Among kept rs → Among (t ∷ kept) rs
unfolding contains_text
Among-cons t kept [] h = tt
Among-cons t kept (r ∷ rs) h = (ground (arith, h.0), Among-cons t kept rs h.1)

Among-self : (rs : List Row) → Among (ids (as_read rs)) rs
unfolding contains_text
Among-self [] = tt
Among-self (r ∷ rs) = (
  ground (arith, eq→text_eq r.id r.id refl),
  Among-cons r.id (ids (as_read rs)) rs (Among-self rs),
)

module _ (w : Writer) (r : Row) (rest : Table) (text : Text) where
  first_written :
      w.hashed ≡ true
      → Distinct (ids (as_read (r ∷ rest)))
      → Digested w (r ∷ rest)
      → digest_eq (w.content_fingerprint r.data_) (w.content_fingerprint text) ≡ false
      → write_row w (r ∷ rest) (r.id, text) (r ∷ rest) ≡ rest ++ new_row w r.id text ∷ []
  unfolding write_row prior_digest insert_or_replace
  first_written hashed d g changed =
      ground (arith, eq→text_eq r.id r.id refl, hashed, g.0, changed, retain-other r.id rest d.0)

  rows_written :
      w.hashed ≡ true
      → Distinct (ids (as_read (r ∷ rest)))
      → Digested w (r ∷ rest)
      → digest_eq (w.content_fingerprint r.data_) (w.content_fingerprint text) ≡ false
      → write_rows w (r ∷ rest) ((r.id, text) ∷ as_read rest) (r ∷ rest)
        ≡ rest ++ new_row w r.id text ∷ []
  unfolding write_rows
  rows_written hashed d g changed =
      let known = Known-cons w r rest rest (Distinct-Known w rest g.1 d.1) d.0 in
      ap (write_rows w (r ∷ rest) (as_read rest)) (first_written hashed d g changed)
      ∙ write_rows-Known w (r ∷ rest) rest (rest ++ new_row w r.id text ∷ []) hashed known

  -- If only the text of the first row changed, its row stands last after `save_rows`, behind all
  -- rows that it was in front of, both in the snapshot and in the table.
  save_rows-reorders :
      w.hashed ≡ true
      → Distinct (ids (as_read (r ∷ rest)))
      → Digested w (r ∷ rest)
      → digest_eq (w.content_fingerprint r.data_) (w.content_fingerprint text) ≡ false
      → save_rows w ((r.id, text) ∷ as_read rest) (r ∷ rest) ≡ rest ++ new_row w r.id text ∷ []
  unfolding save_rows delete_gone contains_text
  save_rows-reorders hashed d g changed = rw (rows_written hashed d g changed) (
      retain-All_id _ (rest ++ new_row w r.id text ∷ []) (
        All-append _ rest (new_row w r.id text ∷ [])
          (Among-cons r.id (ids (as_read rest)) rest (Among-self rest))
          (ground (arith, eq→text_eq r.id r.id refl), tt)))
