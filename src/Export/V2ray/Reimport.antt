-- ===== src/Export/V2ray/Reimport.antt =====
-- A node that is written to a V2Ray outbound and read back (core/src/export.rs, core/src/parse.rs).
use mathlib.Core.List.{filter_map, filter_map-cons-some}
use sub_hub.Model.Json.Laws.{filter_items-cons}
use sub_hub.Common.{
  Option-cases, inl, inr, All, map, List, [], ◌∷◌, ◌≡◌, refl, ◌∙◌, ap, true, Option, none, some,
  Text, ◌>>=◌, arith,
}
use sub_hub.Model.Json.{Json, Items, array, items, filter_items}
use sub_hub.Parse.V2ray.{parse_v2ray_json, node_from_v2ray}
use sub_hub.Export.V2ray.{to_v2ray_json, v2ray_outbound}
use sub_hub.Model.Proxy.{Proxy}
use sub_hub.Model.Fingerprint.{fingerprint}
use sub_hub.Parse.Fields.{is_port, Doubles}
use sub_hub.Export.V2ray.Stream.{carries, secures}
use sub_hub.Export.V2ray.Kept.{reread, same, fingerprint_same, V2rayKeeps}

-- What a V2Ray configuration can carry of a node.
unfoldable pub V2rayCarried : Proxy → Type 0
V2rayCarried p =
    (is_port p.port ≡ true) × V2rayKeeps p.type_ p × (carries p ≡ true) × (secures p ≡ true)

node_from_v2ray-v2ray_outbound :
    (d : Doubles) (p : Proxy)
    → V2rayCarried p
    → (v2ray_outbound p >>= node_from_v2ray d >>= (λ q. some (fingerprint q)))
      ≡ some (fingerprint p)
unfolding V2rayCarried
node_from_v2ray-v2ray_outbound d p (i, k, c, s) =
    rw (reread d p i p.type_ k)
      (ap some (fingerprint_same d p i p.type_ refl k (same d p i p.type_ k c s)))

-- A written outbound that is read: what it is, and what it is read as.
both_given :
    (d : Doubles) (o : Option Json) (t : Text)
    → (o >>= node_from_v2ray d >>= (λ q. some (fingerprint q))) ≡ some t
    → (j : Json) × (q : Proxy) × (o ≡ some j) × (node_from_v2ray d j ≡ some q) × (fingerprint q ≡ t)
both_given d none t e = absurd (ground (arith, e))
both_given d (some j) t e = elim (Option-cases (node_from_v2ray d j)) [
  | inl n ↦ absurd (ground (arith, n, e))
  | inr (q, f) ↦ (j, q, refl, f, cc (f, e))
]

outbounds_read :
    (d : Doubles) (ps : List Proxy)
    → All V2rayCarried ps
    → map fingerprint (filter_items (node_from_v2ray d) (items (filter_map v2ray_outbound ps)))
      ≡ map fingerprint ps
unfolding filter_map filter_items
outbounds_read d [] h = refl
outbounds_read d (p ∷ ps) h =
    let (j, q, e, f, g) =
      both_given d (v2ray_outbound p) (fingerprint p) (node_from_v2ray-v2ray_outbound d p h.0) in
    cc (
      filter_map-cons-some v2ray_outbound p ps e,
      filter_items-cons (node_from_v2ray d) j (filter_map v2ray_outbound ps) q f,
      g,
      outbounds_read d ps h.1,
    )

array_read :
    (d : Doubles) (xs : Items) → parse_v2ray_json d (array xs) ≡ filter_items (node_from_v2ray d) xs
unfolding parse_v2ray_json
array_read d xs = refl

-- If a V2Ray configuration can carry every node, the outbounds that are written are read as as many
-- nodes, in their order and with the same fingerprints. A node can be carried if it is a VMess node with
-- a cipher, no flow and an alter id below 2 ^ 32, a VLESS node with no cipher and an alter id of 0, or a
-- Trojan node, and
--   * its port is from 1 to 65535,
--   * its transport is stated, and has no service name for ws, h2 and http, no path and host for grpc,
--     and none of the three for any other, and
--   * it has REALITY with TLS and without ALPN, or TLS without REALITY, or else TLS stated to be off and
--     neither a server name nor ALPN.
pub parse_v2ray_json-to_v2ray_json :
    (d : Doubles) (ps : List Proxy)
    → All V2rayCarried ps
    → map fingerprint (parse_v2ray_json d (to_v2ray_json ps)) ≡ map fingerprint ps
unfolding to_v2ray_json
parse_v2ray_json-to_v2ray_json d ps h =
    ap (map fingerprint) (array_read d (items (filter_map v2ray_outbound ps)))
    ∙ outbounds_read d ps h
