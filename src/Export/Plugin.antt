-- ===== src/Export/Plugin.antt =====
-- The plugin of a Shadowsocks node and its encryption method (core/src/export.rs), which the
-- formats share.
use mathlib.Core.List.{filter_map}
use sub_hub.Common.{
  Bool, ◌||◌, Option, none, some, List, [], ◌∷◌, ◌++◌, map, Text, lit, text_eq, contains, split_at,
  split_once, trim, to_ascii_lowercase, is_empty, non_empty, unwrap_or, join, ◌==◌, if◌then◌else◌,
  ◌>>=◌,
}
use sub_hub.Model.Json.{Json, Members, end, string, bool, insert}
use sub_hub.Model.Proxy.{Proxy, ss_method_value}

unfoldable pub ss_method : Proxy → Text
ss_method p = unwrap_or (ss_method_value p) (lit "aes-256-gcm")

abbrev pub trim_both : Text × Text → Text × Text
trim_both (k, v) = (trim k, trim v)

-- One `k=v`; a bare flag means `true`.
unfoldable pub plugin_opt : Text → Option (Text × Text)
plugin_opt s =
    let kv = trim s in
    if is_empty kv
    then none
    else elim (split_once 61 kv) [ some p ↦ some (trim_both p) | none ↦ some (kv, lit "true") ]

unfoldable pub parse_plugin_opts : Option Text → List (Text × Text)
unfolding plugin_opt
parse_plugin_opts opts = filter_map plugin_opt (split_at (λ c. c == 59) (unwrap_or opts []))

unfoldable pub ss_plugin : Proxy → Option (Text × List (Text × Text))
unfolding parse_plugin_opts
ss_plugin p = non_empty p.plugin >>= (λ name. some (name, parse_plugin_opts p.plugin_opts))

-- The names of the options of `obfs` in a Clash configuration.
abbrev pub clash_key : Text → Text
clash_key k =
    if text_eq k (lit "obfs")
    then lit "mode"
    else if text_eq k (lit "obfs-host")
    then lit "host"
    else k

abbrev pub clash_flag : Text → Bool
clash_flag v = text_eq v (lit "1") || text_eq (to_ascii_lowercase v) (lit "true")

-- The value of an option of `v2ray-plugin`.
abbrev pub v2ray_option : Text → Text → Json
v2ray_option k v =
    if text_eq k (lit "tls") || text_eq k (lit "mux") then bool (clash_flag v) else string v

-- The map that a loop of insertions makes.
unfoldable pub option_map :
    (Text → Text) → (Text → Text → Json) → List (Text × Text) → Members → Members
option_map key value [] m = m
option_map key value ((k, v) ∷ kvs) m = option_map key value kvs (insert (key k) (value k v) m)

unfoldable pub clash_plugin : Proxy → Option (Text × Members)
unfolding ss_plugin option_map
clash_plugin p = ss_plugin p >>= (λ (name, opts).
    let lower = to_ascii_lowercase name in
    if contains lower (lit "obfs")
    then some (lit "obfs", option_map clash_key (λ k v. string v) opts end)
    else if contains lower (lit "v2ray-plugin")
    then some (lit "v2ray-plugin", option_map (λ k. k) v2ray_option opts end)
    else some (name, option_map (λ k. k) (λ k v. string v) opts end))

-- The names of the options of `obfs` in sing-box.
abbrev pub singbox_key : Text → Text
singbox_key k =
    if text_eq k (lit "mode")
    then lit "obfs"
    else if text_eq k (lit "host")
    then lit "obfs-host"
    else k

abbrev pub joined : (Text → Text) → List (Text × Text) → Option Text
joined key opts = non_empty (some (join 59 (map (λ (k, v). key k ++ 61 ∷ v) opts)))

unfoldable pub singbox_plugin : Proxy → Option (Text × Option Text)
unfolding ss_plugin
singbox_plugin p = ss_plugin p >>= (λ (name, opts).
    let lower = to_ascii_lowercase name in
    if contains lower (lit "obfs")
    then some (lit "obfs-local", joined singbox_key opts)
    else if contains lower (lit "v2ray-plugin")
    then some (lit "v2ray-plugin", joined (λ k. k) opts)
    else some (name, joined (λ k. k) opts))
