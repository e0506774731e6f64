-- ===== src/Server/Engine/Config.antt =====
-- The configuration of an engine process (`escape_yaml_scalar`, `build_engine_config`,
-- `build_multi_engine_config` and `replace_node_name` in server/src/engine.rs).
pub mod Scalar
pub mod Names
use sub_hub.Common.{
  ℕ, zero, suc, ◌+◌, Bool, true, false, Option, none, some, List, [], ◌∷◌, ◌++◌, map, Text, lit,
  length, drop, starts_with, trim_start_of, is_whitespace, ◌==◌, if◌then◌else◌,
}
use sub_hub.Common.Decimal.{decimal}
use sub_hub.Model.Proxy.{Proxy, is_exportable}
use sub_hub.Model.Json.{Json}
use sub_hub.Export.Clash.{to_clash_meta}
use sub_hub.Export.Names.{claim_name}

unfoldable pub escape_char : ℕ → Text
escape_char c =
    if c == 34
    then 92 ∷ 34 ∷ []
    else if c == 92
    then 92 ∷ 92 ∷ []
    else if c == 10
    then 92 ∷ 110 ∷ []
    else if c == 13
    then 92 ∷ 114 ∷ []
    else if c == 9
    then 92 ∷ 116 ∷ []
    else c ∷ []

unfoldable pub escape_text : Text → Text
unfolding escape_char
escape_text [] = []
escape_text (c ∷ s) = escape_char c ++ escape_text s

unfoldable pub escape_yaml_scalar : Text → Text
unfolding escape_text
escape_yaml_scalar s = 34 ∷ (escape_text s ++ 34 ∷ [])

-- The YAML text of `to_clash_meta` for the entries of a configuration.
abbrev pub YamlWriter : Type 0
YamlWriter = List Json → Text

-- `s.trim_start_matches(prefix)` for a prefix that is not empty; each round takes a character at
-- least.
unfoldable pub trim_start_matches : ℕ → Text → Text → Text
unfolding starts_with
trim_start_matches zero prefix s = s
trim_start_matches (suc f) prefix s =
    let rest = trim_start_matches f prefix (drop (length prefix) s) in
    if starts_with s prefix then rest else s

-- The entry of one node, without the key above it.
unfoldable pub node_body : YamlWriter → Proxy → Text
unfolding to_clash_meta trim_start_matches trim_start_of is_whitespace
node_body write p =
    let node = write (to_clash_meta (p ∷ [])) in
    trim_start_of is_whitespace (trim_start_matches (length node) (lit "proxies:") node)

-- Each line with its end.
unfoldable pub written : List Text → Text
written [] = []
written (l ∷ ls) = l ++ 10 ∷ written ls

abbrev pub dns_lines : List Text
dns_lines =
    lit "dns:"
    ∷ lit "  enable: true"
    ∷ lit "  ipv6: false"
    ∷ lit "  enhanced-mode: normal"
    ∷ lit "  nameserver:"
    ∷ lit "    - 223.5.5.5"
    ∷ lit "    - 119.29.29.29"
    ∷ []

-- The one group, with its members, and the rule that sends everything through it.
abbrev pub group_lines : Text → List Text
group_lines members =
    lit "proxy-groups:"
    ∷ lit "  - name: PROXY"
    ∷ lit "    type: select"
    ∷ (lit "    proxies: [" ++ members ++ lit "]")
    ∷ lit "rules:"
    ∷ lit "  - MATCH,PROXY"
    ∷ []

unfoldable pub build_engine_config : YamlWriter → Proxy → ℕ → Text
unfolding node_body escape_yaml_scalar written
build_engine_config write p port = written (
    ((lit "mixed-port: " ++ decimal port) ∷ lit "mode: rule" ∷ lit "log-level: warning" ∷ [])
    ++ dns_lines
    ++ (lit "proxies:" ∷ node_body write p ∷ [])
    ++ group_lines (escape_yaml_scalar p.name))

-- Behind the rest of the line.
unfoldable pub from_line_end : Text → Text
from_line_end [] = []
from_line_end (c ∷ s) = if c == 10 then c ∷ s else from_line_end s

-- The first `name:` with the rest of its line gets the new name.
unfoldable pub replace_node_name : Text → Text → Text
unfolding starts_with escape_yaml_scalar from_line_end
replace_node_name [] new_name = []
replace_node_name (c ∷ body) new_name =
    if starts_with (c ∷ body) (lit "name:")
    then lit "name: " ++ escape_yaml_scalar new_name ++ from_line_end (c ∷ body)
    else c ∷ replace_node_name body new_name

abbrev pub with_name : Option Text → Option (List (Option Text)) → Option (List (Option Text))
with_name n none = none
with_name n (some ns) = some (n ∷ ns)

-- The name of each node in the configuration, none for one that the engine cannot run. No result
-- would mean that the fuel of a name ran out.
unfoldable pub batch_names : List Text → List Proxy → Option (List (Option Text))
unfolding claim_name
batch_names used [] = some []
batch_names used (p ∷ ps) = elim (is_exportable p) [
  | false ↦ with_name none (batch_names used ps)
  | true ↦ elim (claim_name used p.name) [
    | none ↦ none
    | some n ↦ with_name (some n) (batch_names (n ∷ used) ps)
  ]
]

-- The entries of the named nodes.
unfoldable pub bodies : YamlWriter → List Proxy → List (Option Text) → List Text
unfolding node_body replace_node_name
bodies write (p ∷ ps) (some n ∷ ns) = replace_node_name (node_body write p) n ∷ bodies write ps ns
bodies write (p ∷ ps) (none ∷ ns) = bodies write ps ns
bodies write _ _ = []

unfoldable pub group : List (Option Text) → List Text
unfolding escape_yaml_scalar
group [] = []
group (none ∷ ns) = group ns
group (some n ∷ ns) = escape_yaml_scalar n ∷ group ns

-- `items.join(", ")`.
unfoldable pub comma_separated : List Text → Text
comma_separated [] = []
comma_separated (t ∷ []) = t
comma_separated (t ∷ u ∷ ts) = t ++ lit ", " ++ comma_separated (u ∷ ts)

unfoldable pub build_multi_engine_config :
    YamlWriter → List Proxy → ℕ → ℕ → Option (Text × List (Option Text))
unfolding batch_names bodies group comma_separated written
build_multi_engine_config write proxies port ctrl_port = elim (batch_names [] proxies) [
  | none ↦ none
  | some names ↦ some (
    written (
        ((lit "mixed-port: " ++ decimal port)
          ∷ (lit "external-controller: 127.0.0.1:" ++ decimal ctrl_port)
          ∷ lit "mode: rule"
          ∷ lit "log-level: warning"
          ∷ [])
        ++ dns_lines
        ++ (lit "proxies:" ∷ bodies write proxies names)
        ++ group_lines (comma_separated (group names))),
    names,
  )
]
