-- ===== src/Parse/Authority.antt =====
-- `split_authority` (core/src/parse.rs): the part of a share link behind its scheme.
pub mod RoundTrip
use mathlib.Core.List.{filter_map}
use sub_hub.Common.{
  ℕ, Bool, true, false, not, Option, none, some, List, [], ◌∷◌, map, Text, ◌==◌, is_digit,
  split_once, split_at, to_ascii_lowercase, trim_start_of, if◌then◌else◌,
}
use sub_hub.Parse.Dates.{parse_unsigned}

-- The query is the list of its pairs, in which the last of a key counts.
pub record Auth : Type 0 where
  pub userinfo : Text
  pub host : Text
  pub port : ℕ
  pub query : List (Text × Text)

-- `s.rsplit_once(c)`.
unfoldable pub rsplit_once : ℕ → Text → Option (Text × Text)
rsplit_once c [] = none
rsplit_once c (x ∷ s) = elim (rsplit_once c s) [
  | some (a, b) ↦ some (x ∷ a, b)
  | none ↦ if x == c then some ([], s) else none
]

-- `split(|c| !c.is_ascii_digit()).next()`.
unfoldable pub leading_digits : Text → Text
leading_digits [] = []
leading_digits (c ∷ s) = if is_digit c then c ∷ leading_digits s else []

-- The port that a text begins with; 0 is none.
unfoldable pub leading_port : Text → Option ℕ
unfolding leading_digits
leading_port s = elim (parse_unsigned 65535 (leading_digits s)) [
  | none ↦ none
  | some port ↦ if port == 0 then none else some port
]

abbrev pub is_bracketed : Text → Bool
is_bracketed [] = false
is_bracketed (c ∷ s) = c == 91

abbrev pub without_first : Text → Text
without_first [] = []
without_first (c ∷ s) = s

-- `[::1]:port`.
unfoldable pub bracketed : Text → Option (Text × ℕ)
unfolding leading_port
bracketed hostport = elim (split_once 93 hostport) [
  | none ↦ none
  | some (front, rest) ↦ elim (leading_port (trim_start_of (λ c. c == 58) rest)) [
    | none ↦ none
    | some port ↦ some (without_first front, port)
  ]
]

-- `host:port`, split at the last colon.
unfoldable pub plain : Text → Option (Text × ℕ)
unfolding leading_port rsplit_once
plain hostport = elim (rsplit_once 58 hostport) [
  | none ↦ none
  | some (host, rest) ↦ elim (leading_port rest) [ none ↦ none | some port ↦ some (host, port) ]
]

unfoldable pub host_and_port : Text → Option (Text × ℕ)
unfolding bracketed plain
host_and_port hostport = if is_bracketed hostport then bracketed hostport else plain hostport

unfoldable pub before_query : Text → Text × Text
before_query body = elim (split_once 63 body) [ none ↦ (body, []) | some p ↦ p ]

-- `decode_percent` is a parameter: it calls a library.
module _ (decode_percent : Text → Text) where
  unfoldable pub query_pairs : Text → List (Text × Text)
  query_pairs q =
      map (λ kv. (to_ascii_lowercase kv.0, decode_percent kv.1))
        (filter_map (split_once 61) (split_at (λ c. c == 38) q))

  unfoldable pub userinfo_of : Text → Text × Text
  unfolding rsplit_once
  userinfo_of left = elim (rsplit_once 64 left) [
    | none ↦ ([], left)
    | some (u, h) ↦ (decode_percent u, h)
  ]

  unfoldable pub split_authority : Text → Option Auth
  unfolding before_query userinfo_of host_and_port query_pairs
  split_authority body =
      let (left, query) = before_query body in
      elim (host_and_port (userinfo_of left).1) [
        | none ↦ none
        | some (host, port) ↦ some (record {
          userinfo = (userinfo_of left).0;
          host = host;
          port = port;
          query = query_pairs query;
        })
      ]
