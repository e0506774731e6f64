-- ===== src/Export/Clash/Reimport.antt =====
-- A node that is written to a Clash entry and read back (core/src/export.rs, core/src/parse.rs).
use sub_hub.Common.{
  Bool, ◌||◌, Option-cases, Bool-cases, inl, inr, All, map, retain, List, [], ◌∷◌, text_eq, Text,
  lit, arith, ◌∙◌, ap, ◌<◌, ◌^◌, ◌≡◌, refl, true, false, none, some, or_else, non_empty, unwrap_or,
  if◌then◌else◌, ◌>>=◌,
}
use sub_hub.Model.Json.{find_member, Items, items, array, object, member, end, filter_items, get}
use sub_hub.Model.Proxy.{is_exportable, Proxy, ProxyType, ss, trojan, vmess, vless, tuic, as_str}
use sub_hub.Parse.Uri.{Codecs}
use sub_hub.Parse.Document.{parse_clash_yaml}
use sub_hub.Export.Clash.{to_clash_meta, to_clash_value}
use sub_hub.Model.Region.{Unicode}
use sub_hub.Model.Fingerprint.{fingerprint, alpn_parts, credential, extra_parts}
use sub_hub.Parse.Fields.{is_port, Doubles}
use sub_hub.Parse.Clash.{with_reality, clash_type, clash_fields, from_clash_value}
use sub_hub.Export.Clash.Entries.{transport_carries}
use sub_hub.Export.Clash.Kept.{
  with_reality-none, with_reality-revealed, revealed, revealed-Same, entry, reread, Same,
  reality_of, Heads, trojan-Same, vmess-Same, vless-Same, tuic-Same, ss-Same, trojan-Heads,
  vmess-Heads, vless-Heads, tuic-Heads, ss-Heads,
}

-- What a node must have for its entry to keep its identity.
unfoldable pub ClashKeeps : ProxyType → Proxy → Type 0
ClashKeeps trojan p = transport_carries p ≡ true
ClashKeeps vmess p =
    (transport_carries p ≡ true)
    × (p.tls ≡ some (unwrap_or p.tls false))
    × (unwrap_or p.flow [] ≡ [])
    × (p.reality ≡ false)
    × (unwrap_or p.alter_id 0 < 2 ^ 32)
ClashKeeps vless p =
    (transport_carries p ≡ true)
    × (p.tls ≡ some (p.reality || unwrap_or p.tls false))
    × (unwrap_or p.cipher [] ≡ [])
    × (unwrap_or p.alter_id 0 ≡ 0)
ClashKeeps tuic p =
    (p.tls ≡ none)
    × (unwrap_or p.cipher [] ≡ [])
    × (unwrap_or p.flow [] ≡ [])
    × (unwrap_or p.alter_id 0 ≡ 0)
    × (unwrap_or p.network [] ≡ [])
    × (unwrap_or p.path [] ≡ [])
    × (unwrap_or p.host [] ≡ [])
    × (unwrap_or p.service_name [] ≡ [])
    × (p.reality ≡ false)
    × (non_empty p.congestion_control ≡ p.congestion_control)
    × (non_empty (if unwrap_or p.udp_over_stream false then none else p.udp_relay_mode)
        ≡ p.udp_relay_mode)
ClashKeeps ss p =
    (unwrap_or p.plugin [] ≡ [])
    × (unwrap_or p.plugin_opts [] ≡ [])
    × (or_else p.cipher p.method ≡ or_else p.method p.cipher)
    × (alpn_parts p.alpn ≡ [])
ClashKeeps _ p = true ≡ false

module _ (d : Doubles) (u : Unicode) (p : Proxy) where
  reread_node : ProxyType → Proxy
  unfolding reread
  reread_node = reread d p p.name p.server p.port

  written : to_clash_value p ≡ entry d p p.name p.server p.port p.type_
  unfolding to_clash_value entry
  written = refl

  clash_type_of : (t : ProxyType) → ClashKeeps t p → clash_type (as_str t) ≡ t
  unfolding clash_type text_eq as_str ClashKeeps
  clash_type_of trojan c = refl
  clash_type_of vmess c = refl
  clash_type_of vless c = refl
  clash_type_of tuic c = refl
  clash_type_of ss c = refl
  clash_type_of _ c = ground arith

  same_fingerprint :
      (t : ProxyType)
      → p.type_ ≡ t
      → Same d p p.name p.server p.port t
      → fingerprint (reread_node t) ≡ fingerprint p
  unfolding Same fingerprint reread_node reread clash_fields
  same_fingerprint t e (c, x) = cc (e, c, x)

  revealed_fingerprint :
      p.type_ ≡ vless
      → (credential vless (revealed d p p.name p.server p.port) ≡ credential vless p)
        × (extra_parts vless (revealed d p p.name p.server p.port) ≡ extra_parts vless p)
      → fingerprint (revealed d p p.name p.server p.port) ≡ fingerprint p
  unfolding fingerprint revealed reread clash_fields
  revealed_fingerprint e (c, x) = cc (e, c, x)

  -- The node that is read of the entry, and its fingerprint.
  abbrev Kept : ProxyType → Type 0
  Kept t =
      Heads d p p.name p.server p.port t
      × (q : Proxy) × (with_reality d (entry d p p.name p.server p.port t) (reread_node t) ≡ q)
      × (fingerprint q ≡ fingerprint p)

  kept_plain :
      (t : ProxyType)
      → p.type_ ≡ t
      → Heads d p p.name p.server p.port t
      → reality_of d p p.name p.server p.port t ≡ none
      → Same d p p.name p.server p.port t
      → Kept t
  unfolding Heads
  kept_plain t e h r same = (
    h,
    reread_node t,
    with_reality-none d (entry d p p.name p.server p.port t) (reread_node t) (h.4 ∙ r),
    same_fingerprint t e same,
  )

  kept_revealed :
      p.type_ ≡ vless
      → p.reality ≡ true
      → Heads d p p.name p.server p.port vless
      → (credential vless (revealed d p p.name p.server p.port) ≡ credential vless p)
        × (extra_parts vless (revealed d p p.name p.server p.port) ≡ extra_parts vless p)
      → Kept vless
  unfolding Heads reread_node
  kept_revealed e r h same = (
    h,
    revealed d p p.name p.server p.port,
    with_reality-revealed d p p.name p.server p.port r h.4,
    revealed_fingerprint e same,
  )

  all_kept : (t : ProxyType) → p.type_ ≡ t → ClashKeeps t p → Kept t
  unfolding ClashKeeps
  all_kept trojan e c = kept_plain trojan e (trojan-Heads d p _ _ _) refl (trojan-Same d p _ _ _ c)
  all_kept vmess e (c, t, f, r, n) =
      kept_plain vmess e (vmess-Heads d p _ _ _) refl (vmess-Same d p _ _ _ c t f r n)
  all_kept vless e (c, t, f, a) = elim (Bool-cases p.reality) [
    | inl r ↦
        let tls : p.tls ≡ some true = t ∙ rw r refl in
        kept_revealed e r (vless-Heads d p _ _ _) (revealed-Same d p _ _ _ c tls f a r)
    | inr r ↦
        let tls : p.tls ≡ some (unwrap_or p.tls false) = t ∙ dropped p.reality r in
        kept_plain vless e (vless-Heads d p _ _ _) (rw r refl) (vless-Same d p _ _ _ c tls f a r)
  ]
    where
      dropped :
          (b : Bool) → b ≡ false → some (b || unwrap_or p.tls false) ≡ some (unwrap_or p.tls false)
      dropped b h = rw h refl
  all_kept tuic e (t, c, f, a, n, pa, h, s, r, cong, relay) =
      kept_plain tuic e (tuic-Heads d p _ _ _) refl
        (tuic-Same d p _ _ _ t c f a n pa h s r cong relay)
  all_kept ss e (c, o, m, a) =
      kept_plain ss e (ss-Heads d p _ _ _ c) refl (ss-Same d p _ _ _ c o m a)
  all_kept _ e c = ground arith

  read_back :
      (t : ProxyType) (q : Proxy)
      → clash_type (u.str_lowercase (as_str p.type_)) ≡ t
      → is_port p.port ≡ true
      → Heads d p p.name p.server p.port t
      → with_reality d (entry d p p.name p.server p.port t) (reread_node t) ≡ q
      → from_clash_value d (entry d p p.name p.server p.port t) u ≡ some q
  unfolding Heads from_clash_value reread_node reread
  read_back t q e i (ht, hs, hp, hn, hr) r = rw (ht, hs, hp, hn, e, i) (ap some r)

-- The entry of a node that a Clash configuration can carry is read as a node with the same
-- fingerprint, if the port is not 0 and fits in 16 bits and the name of the type is in lower case.
from_clash_value-to_clash_value :
    (d : Doubles) (u : Unicode) (p : Proxy)
    → u.str_lowercase (as_str p.type_) ≡ as_str p.type_
    → is_port p.port ≡ true
    → ClashKeeps p.type_ p
    → (from_clash_value d (to_clash_value p) u >>= (λ q. some (fingerprint q)))
      ≡ some (fingerprint p)
from_clash_value-to_clash_value d u p l i k =
    let (h, q, r, f) = all_kept d u p p.type_ refl k in
    rw (written d u p, read_back d u p p.type_ q (rw l (clash_type_of d u p p.type_ k)) i h r)
      (ap some f)

-- What a Clash configuration can carry of a node.
unfoldable pub ClashCarried : Unicode → Proxy → Type 0
ClashCarried u p =
    (u.str_lowercase (as_str p.type_) ≡ as_str p.type_)
    × (is_port p.port ≡ true)
    × ClashKeeps p.type_ p

read_as :
    (d : Doubles) (u : Unicode) (p : Proxy)
    → ClashCarried u p
    → (q : Proxy) × (from_clash_value d (to_clash_value p) u ≡ some q)
      × (fingerprint q ≡ fingerprint p)
unfolding ClashCarried
read_as d u p (l, i, k) =
    let e = from_clash_value-to_clash_value d u p l i k in
    elim (Option-cases (from_clash_value d (to_clash_value p) u)) [
      | inl n ↦ absurd (ground (arith, n, e))
      | inr (q, f) ↦ (q, f, cc (f, e))
    ]

entries_read :
    (d : Doubles) (u : Unicode) (ps : List Proxy)
    → All (ClashCarried u) ps
    → map fingerprint (filter_items (λ v. from_clash_value d v u) (items (to_clash_meta ps)))
      ≡ map fingerprint (retain is_exportable ps)
unfolding to_clash_meta filter_items
entries_read d u [] h = refl
entries_read d u (p ∷ ps) h = elim (Bool-cases (is_exportable p)) [
  | inl y ↦ let (q, f, g) = read_as d u p h.0 in cc (y, f, g, entries_read d u ps h.1)
  | inr n ↦ cc (n, entries_read d u ps h.1)
]

yaml_read :
    (k : Codecs) (s : Text) (xs : Items)
    → k.yaml s ≡ some (object (member (lit "proxies") (array xs) end))
    → parse_clash_yaml k s ≡ filter_items (λ v. from_clash_value k.doubles v k.unicode) xs
unfolding parse_clash_yaml text_eq get find_member
yaml_read k s xs e = rw (e, parse_clash_yaml) refl

-- If the text of a configuration is read as the value that was written, and every node can be carried
-- by a Clash entry, then the configuration is read as the exportable nodes, in their order and with
-- the same fingerprints. A node can be carried if the name of its type is in lower case, its port is
-- from 1 to 65535, and it is
--   * a Trojan node whose path, host and service name lie in the object of its transport,
--   * such a VMess node with TLS stated, an alter id below 2 ^ 32, no flow and no REALITY,
--   * such a VLESS node with TLS stated, and on where it has REALITY, no cipher and an alter id of 0,
--   * an ss node without a plugin and ALPN, whose cipher and method agree where it has both, or
--   * a TUIC node with TLS not stated, no cipher, flow, alter id, transport or REALITY, and a congestion
--     control and a relay mode that are not empty where present, the latter absent with UDP over stream.
pub parse_clash_yaml-to_clash_meta :
    (k : Codecs) (s : Text) (ps : List Proxy)
    → k.yaml s ≡ some (object (member (lit "proxies") (array (items (to_clash_meta ps))) end))
    → All (ClashCarried k.unicode) ps
    → map fingerprint (parse_clash_yaml k s) ≡ map fingerprint (retain is_exportable ps)
parse_clash_yaml-to_clash_meta k s ps e h =
    ap (map fingerprint) (yaml_read k s (items (to_clash_meta ps)) e)
    ∙ entries_read k.doubles k.unicode ps h
