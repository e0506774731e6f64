-- ===== src/Server/Snapshot.antt =====
-- `Db::save_rows` (server/src/db.rs): a snapshot that rewrites only the rows that changed. A table
-- is its rows in the order of `rowid`; `INSERT OR REPLACE` on a text key deletes the row of that key
-- and appends the new one, whose `rowid` is the largest. No statement fails in the model.
pub mod Contents
pub mod Reorder
pub mod Loading
pub mod Reload
use sub_hub.Common.{
  ℕ, Bool, true, false, not, ◌&&◌, ◌||◌, Option, none, some, List, [], ◌∷◌, ◌++◌, map, Text,
  text_eq, contains_text, retain, ◌==◌, if◌then◌else◌,
}

-- The two integers of `content_fingerprint`: the length in bytes and the hash.
pub record Digest : Type 0 where
  pub len : ℕ
  pub hash : ℕ

unfoldable pub digest_eq : Digest → Digest → Bool
digest_eq a b = a.len == b.len && a.hash == b.hash

pub record Row : Type 0 where
  pub id : Text
  pub data_ : Text
  pub updated_at : ℕ
  pub digest : Digest

abbrev pub Table : Type 0
Table = List Row

-- `INSERT OR REPLACE`.
unfoldable pub insert_or_replace : Row → Table → Table
insert_or_replace r table = retain (λ q. not (text_eq q.id r.id)) table ++ r ∷ []

-- `prior.get(id)`.
unfoldable pub prior_digest : Text → Table → Option Digest
prior_digest id [] = none
prior_digest id (r ∷ rs) = if text_eq r.id id then some r.digest else prior_digest id rs

-- What the function has besides the table: the digest (`DefaultHasher` is not specified), whether
-- the digest columns exist, and the clock.
pub record Writer : Type 0 where
  pub content_fingerprint : Text → Digest
  pub hashed : Bool
  pub now : ℕ

-- `prev == fp` for the digest read before the loop.
abbrev pub same_digest : Option Digest → Digest → Bool
same_digest none d = false
same_digest (some e) d = digest_eq e d

abbrev pub new_row : Writer → Text → Text → Row
new_row w id text = record {
  id = id;
  data_ = text;
  updated_at = w.now;
  digest = w.content_fingerprint text;
}

-- The body of the first loop; `prior` is the table as it was before.
unfoldable pub write_row : Writer → Table → Text × Text → Table → Table
unfolding prior_digest insert_or_replace digest_eq
write_row w prior (id, text) table =
    if w.hashed && same_digest (prior_digest id prior) (w.content_fingerprint text)
    then table
    else insert_or_replace (new_row w id text) table

unfoldable pub write_rows : Writer → Table → List (Text × Text) → Table → Table
write_rows w prior [] table = table
write_rows w prior (row ∷ rows) table = write_rows w prior rows (write_row w prior row table)

abbrev pub ids : List (Text × Text) → List Text
ids = map (λ r. r.0)

-- The second loop: rows whose ids are no longer there are deleted.
unfoldable pub delete_gone : List Text → Table → Table
unfolding contains_text
delete_gone kept = retain (λ r. contains_text kept r.id)

unfoldable pub save_rows : Writer → List (Text × Text) → Table → Table
save_rows w rows table = delete_gone (ids rows) (write_rows w table rows table)
