-- ===== src/Ops/Regex.antt =====
-- The `regex` crate, which the source only calls, as a parameter; and results with a message.
use sub_hub.Common.{Bool, Text, List, [], ◌∷◌}

pub data Result (A : Type 0) : Type 0 where
  ok : A → Result A
  err : Text → Result A

infixl 5 ◌>>=◌
abbrev pub ◌>>=◌ : {A B : Type 0} → Result A → (A → Result B) → Result B
ok a >>= f = f a
err e >>= f = err e

-- `Regex::new`, `is_match` and `replace`; the message of a failed compilation is its error's text.
pub record RegexEngine : Type 1 where
  pub Regex : Type 0
  pub compile : Text → Result Regex
  pub is_match : Regex → Text → Bool
  pub replace : Regex → Text → Text → Text

-- `map_err`.
abbrev pub map_err : {A : Type 0} → (Text → Text) → Result A → Result A
map_err f (ok a) = ok a
map_err f (err e) = err (f e)

-- `iter().map(f).collect::<Result<Vec<_>, _>>()`: the first failure ends it.
unfoldable pub collect : {A B : Type 0} → (A → Result B) → List A → Result (List B)
collect f [] = ok []
collect f (x ∷ xs) = do y ← f x; ys ← collect f xs; ok (y ∷ ys)
