-- ===== src/Examples/Samples.antt =====
-- Nodes, parameters and subscriptions for the examples.
use sub_hub.Common.{
  ℕ, true, false, ◌&&◌, ◌||◌, none, some, List, [], ◌∷◌, map, Text, lit, leb, ascii_lower, contains,
  if◌then◌else◌,
}
use sub_hub.Model.Proxy.{Proxy, ss, new}
use sub_hub.Model.Region.{Unicode}
use sub_hub.Model.Subscription.{Subscription, fresh_health}
use sub_hub.Score.{Arithmetic}
use sub_hub.Ops.Regex.{RegexEngine, ok, err}

abbrev pub ascii : Unicode
ascii = record {
  char_lowercase = λ c. ascii_lower c ∷ [];
  str_lowercase = map ascii_lower;
  is_uppercase = λ c. leb 65 c && leb c 90;
  is_alphabetic = λ c. (leb 65 c && leb c 90) || (leb 97 c && leb c 122);
  is_alphanumeric =
      λ c. (leb 65 c && leb c 90) || (leb 97 c && leb c 122) || (leb 48 c && leb c 57);
}

-- Operations that all return their first operand, and a number read as a pattern.
abbrev pub first_operand : Arithmetic
first_operand = record {
  add = λ x y. x;
  sub = λ x y. y;
  mul = λ x y. y;
  div = λ x y. x;
  sqrt = λ x. x;
  of_u64 = λ n. record { bits = n };
}

-- An engine whose regexes are texts that occur; `(` does not compile.
abbrev pub substring_engine : RegexEngine
substring_engine = record {
  Regex = Text;
  compile = λ t. if contains t (lit "(") then err (lit "unclosed group") else ok t;
  is_match = λ r t. contains t r;
  replace = λ r t s. if contains t r then s else t;
}

-- An SS node.
abbrev pub node : Text → Proxy
node name = record (new name ss (lit "h.example") 443) {
  password = some (lit "pw");
  method = some (lit "aes-256-gcm");
}

abbrev pub alive : Text → ℕ → Proxy
alive name ms = record (node name) { available = some true; latency_ms = some ms }

abbrev pub dead : Text → Proxy
dead name = record (node name) { available = some false; latency_ms = some 10 }

abbrev pub stored : Text → Text → List Proxy → Subscription
stored id source proxies = record {
  id = id;
  uid = lit "u_1_1";
  name = lit "sub";
  source = source;
  proxies = proxies;
  health = fresh_health (lit "remote");
  fetch_proxy = none;
}
