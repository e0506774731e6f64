-- ===== src/Export/Clash/Kept.antt =====
-- What of the fingerprint is read back from a Clash entry, type by type (core/src/export.rs, core/src/parse.rs).
use sub_hub.Common.{
  refl, ◌∙◌, Bool, ℕ, ◌<◌, ◌^◌, Text, lit, ◌≡◌, true, false, Option, none, some, [], text_eq,
  or_else, non_empty, unwrap_or, if◌then◌else◌, arith, replace_char,
}
use sub_hub.Common.Decimal.{decimal}
use sub_hub.Model.Json.{Json, Members, end, get, text_at, object, number, unsigned}
use sub_hub.Model.Json.Laws.{find_member-insert}
use sub_hub.Model.Proxy.{Proxy, ProxyType, ss, trojan, vmess, vless, tuic, as_str, ss_method_value}
use sub_hub.Model.Fingerprint.{credential, extra_parts, esc, alpn_parts}
use sub_hub.Parse.Fields.{yaml_string_list, port_from_yaml, valid_port, Doubles, u32_from}
use sub_hub.Parse.Clash.{clash_fields, with_reality}
use sub_hub.Export.Plugin.{clash_plugin, ss_plugin}
use sub_hub.Export.Clash.{insert_plugin, insert_opt, reality_opts, type_entries, base_entries}
use sub_hub.Export.Clash.Entries.{
  find_member-insert_some, find_member-insert_transport_opts, strings_of-as_string, bool_of-as_bool,
  list_value-yaml_string_list, pair_value-transport_opts, or_else-none, tagged-non_empty,
  unwrap_or-non_empty, alpn_parts-some_list, tagged-none, transport_carries, path-carried,
  host-carried, service_name-carried,
}

ruleset reads = (
  find_member-insert, find_member-insert_some, find_member-insert_transport_opts,
  strings_of-as_string, bool_of-as_bool, list_value-yaml_string_list, pair_value-transport_opts,
  or_else-none, tagged-non_empty, unwrap_or-non_empty, alpn_parts-some_list,
)

pub with_reality-none :
    (d : Doubles) (v : Json) (q : Proxy)
    → get (lit "reality-opts") v ≡ none
    → with_reality d v q ≡ q
unfolding with_reality
with_reality-none d v q e = rw (e, with_reality)

with_reality-some :
    (d : Doubles) (v ro : Json) (q : Proxy)
    → get (lit "reality-opts") v ≡ some ro
    → with_reality d v q ≡ record q {
      reality = true;
      reality_public_key = text_at (lit "public-key") ro;
      reality_short_id = text_at (lit "short-id") ro;
      tls = some true;
    }
unfolding with_reality
with_reality-some d v ro q e = rw (e, with_reality) refl

u32_from-unsigned : (n : ℕ) → n < 2 ^ 32 → u32_from (some (number (unsigned n))) ≡ some n
unfolding u32_from
u32_from-unsigned n h = ground arith

insert_plugin-none :
    (p : Proxy) → unwrap_or p.plugin [] ≡ [] → (m : Members) → insert_plugin p m ≡ m
unfolding insert_plugin clash_plugin ss_plugin
insert_plugin-none p e m = ground arith

module _ (d : Doubles) (p : Proxy) (name server : Text) (port : ℕ) where
  -- The entry of a type, and the node that is read from it, REALITY excepted.
  unfoldable pub entry : ProxyType → Json
  unfolding type_entries base_entries
  entry t = object (type_entries t p (base_entries p))

  -- `reality-opts`, which a VLESS node alone has.
  abbrev pub reality_of : ProxyType → Option Json
  reality_of vless = reality_opts p
  reality_of _ = none

  unfoldable pub reread : ProxyType → Proxy
  unfolding entry clash_fields
  reread t = clash_fields d (entry t) name t server port

  unfoldable pub Same : ProxyType → Type 0
  unfolding reread credential extra_parts
  Same t = (credential t (reread t) ≡ credential t p) × (extra_parts t (reread t) ≡ extra_parts t p)

  pub trojan-Same : transport_carries p ≡ true → Same trojan
  unfolding Same text_at get text_eq
  trojan-Same c = (simp (reads, path-carried p c, host-carried p c), simp reads)

  pub vmess-Same :
      transport_carries p ≡ true
      → p.tls ≡ some (unwrap_or p.tls false)
      → unwrap_or p.flow [] ≡ []
      → p.reality ≡ false
      → unwrap_or p.alter_id 0 < 2 ^ 32
      → Same vmess
  unfolding Same text_at get text_eq
  vmess-Same c t f r n = (
    simp (reads, path-carried p c) (cc (t, f, u32_from-unsigned (unwrap_or p.alter_id 0) n)),
    simp (reads, host-carried p c, service_name-carried p c) (ground (arith, r)),
  )

  pub vless-Same :
      transport_carries p ≡ true
      → p.tls ≡ some (unwrap_or p.tls false)
      → unwrap_or p.cipher [] ≡ []
      → unwrap_or p.alter_id 0 ≡ 0
      → p.reality ≡ false
      → Same vless
  unfolding Same text_at get text_eq esc decimal replace_char u32_from
  vless-Same c t f a r = (
    simp (reads, path-carried p c, r) (cc (t, f, a)),
    simp (reads, host-carried p c, service_name-carried p c, r) (ground (arith, r)),
  )

  -- The node that REALITY makes of the one that is read of a VLESS entry.
  unfoldable pub revealed : Proxy
  unfolding reread
  revealed = record (reread vless) {
    reality = true;
    reality_public_key = non_empty p.reality_public_key;
    reality_short_id = non_empty p.reality_short_id;
    tls = some true;
  }

  pub revealed-Same :
      transport_carries p ≡ true
      → p.tls ≡ some true
      → unwrap_or p.cipher [] ≡ []
      → unwrap_or p.alter_id 0 ≡ 0
      → p.reality ≡ true
      → (credential vless revealed ≡ credential vless p)
        × (extra_parts vless revealed ≡ extra_parts vless p)
  unfolding revealed credential extra_parts text_at get text_eq esc decimal replace_char u32_from
  revealed-Same c t f a r = (
    simp (reads, path-carried p c, r) (cc (t, f, a)),
    simp (reads, host-carried p c, service_name-carried p c, r) (ground (arith, r)),
  )

  reality_object : Json
  reality_object = object (
      insert_opt (lit "short-id") p.reality_short_id
        (insert_opt (lit "public-key") p.reality_public_key end))

  reality_object-fields :
      (text_at (lit "public-key") reality_object ≡ non_empty p.reality_public_key)
      × (text_at (lit "short-id") reality_object ≡ non_empty p.reality_short_id)
  unfolding reality_object text_at get text_eq insert_opt
  reality_object-fields = (simp reads, simp reads)

  pub with_reality-revealed :
      p.reality ≡ true
      → get (lit "reality-opts") (entry vless) ≡ reality_of vless
      → with_reality d (entry vless) (reread vless) ≡ revealed
  unfolding revealed reality_object
  with_reality-revealed r e =
      let given : get (lit "reality-opts") (entry vless) ≡ some reality_object =
        e ∙ chosen p.reality r in
      let (k, i) = reality_object-fields in
      with_reality-some d (entry vless) reality_object (reread vless) given ∙ ap2 (reread vless) k i
    where
      chosen :
          (b : Bool) → b ≡ true → (if b then some reality_object else none) ≡ some reality_object
      chosen b h = rw h refl

      ap2 :
          (q : Proxy) {k k' i i' : Option Text}
          → k ≡ k'
          → i ≡ i'
          → record q {
            reality = true;
            reality_public_key = k;
            reality_short_id = i;
            tls = some true;
          }
            ≡ record q {
              reality = true;
              reality_public_key = k';
              reality_short_id = i';
              tls = some true;
            }
      ap2 q h l = cc

  pub tuic-Same :
      p.tls ≡ none
      → unwrap_or p.cipher [] ≡ []
      → unwrap_or p.flow [] ≡ []
      → unwrap_or p.alter_id 0 ≡ 0
      → unwrap_or p.network [] ≡ []
      → unwrap_or p.path [] ≡ []
      → unwrap_or p.host [] ≡ []
      → unwrap_or p.service_name [] ≡ []
      → p.reality ≡ false
      → non_empty p.congestion_control ≡ p.congestion_control
      → non_empty (if unwrap_or p.udp_over_stream false then none else p.udp_relay_mode)
        ≡ p.udp_relay_mode
      → Same tuic
  unfolding Same text_at get text_eq esc decimal replace_char u32_from
  tuic-Same t c f a n pa h s r cong relay = (
    simp reads (cc (t, c, f, a, n, pa)),
    simp (reads, r, tagged-none (lit "h=") p.host h, tagged-none (lit "svc=") p.service_name s)
        (cc (cong, relay)),
  )

  pub ss-Same :
      unwrap_or p.plugin [] ≡ []
      → unwrap_or p.plugin_opts [] ≡ []
      → or_else p.cipher p.method ≡ or_else p.method p.cipher
      → alpn_parts p.alpn ≡ []
      → Same ss
  unfolding Same text_at get text_eq esc ss_method_value yaml_string_list
  ss-Same c o m a = (
    simp (reads, insert_plugin-none p c) (cc m),
    simp
        (
          reads,
          insert_plugin-none p c,
          tagged-none (lit "plugin=") p.plugin c,
          tagged-none (lit "opts=") p.plugin_opts o,
        )
        (cc a),
  )

  -- What the entry says of the node as a whole.
  unfoldable pub Heads : ProxyType → Type 0
  unfolding entry
  Heads t =
      (text_at (lit "type") (entry t) ≡ some (as_str p.type_))
      × (text_at (lit "server") (entry t) ≡ some p.server)
      × (port_from_yaml (get (lit "port") (entry t)) ≡ valid_port p.port)
      × (text_at (lit "name") (entry t) ≡ some p.name)
      × (get (lit "reality-opts") (entry t) ≡ reality_of t)

  pub trojan-Heads : Heads trojan
  unfolding Heads text_at get text_eq port_from_yaml
  trojan-Heads = (simp reads, simp reads, simp reads, simp reads, simp reads)

  pub vmess-Heads : Heads vmess
  unfolding Heads text_at get text_eq port_from_yaml
  vmess-Heads = (simp reads, simp reads, simp reads, simp reads, simp reads)

  pub vless-Heads : Heads vless
  unfolding Heads text_at get text_eq port_from_yaml
  vless-Heads = (simp reads, simp reads, simp reads, simp reads, simp reads)

  pub tuic-Heads : Heads tuic
  unfolding Heads text_at get text_eq port_from_yaml
  tuic-Heads = (simp reads, simp reads, simp reads, simp reads, simp reads)

  pub ss-Heads : unwrap_or p.plugin [] ≡ [] → Heads ss
  unfolding Heads text_at get text_eq port_from_yaml
  ss-Heads c =
      let e = insert_plugin-none p c in
      (simp (reads, e), simp (reads, e), simp (reads, e), simp (reads, e), simp (reads, e))
