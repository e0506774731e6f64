-- ===== src/Export/SingBox/Layers.antt =====
-- What is read back from the `tls` and `transport` objects of sing-box (core/src/export.rs,
-- core/src/parse.rs).
use sub_hub.Common.{
  ◌≡◌, Bool, true, false, not, ◌&&◌, ◌||◌, Option, none, some, List, [], ◌∷◌, Text, lit, text_eq,
  is_some, unwrap_or, if◌then◌else◌, ◌>>=◌, arith,
}
use sub_hub.Model.Json.{get, text_at, insert}
use sub_hub.Model.Json.Laws.{strings-string_items}
use sub_hub.Model.Proxy.{Proxy}
use sub_hub.Parse.Fields.{some_list}
use sub_hub.Parse.SingBox.{with_tls, with_transport}
use sub_hub.Export.Clash.{insert_some}
use sub_hub.Export.SingBox.{tls_object, singbox_transport}

-- The fields of the transport lie in its object, and its name is read as it is.
unfoldable pub carries : Proxy → Bool
carries p =
    let net = unwrap_or p.network [] in
    let no_address = not (is_some p.path || is_some p.host) in
    if text_eq net (lit "ws")
    then not (is_some p.service_name)
    else if text_eq net (lit "grpc")
    then no_address && is_some p.service_name
    else if text_eq net (lit "h2")
    then not (is_some p.service_name)
    else not (is_some p.network) && no_address && not (is_some p.service_name)

-- The transport of a node, as it is read onto a node that has none.
unfoldable pub TransportKept : Proxy → Proxy → Type 0
TransportKept p r =
    (r.network ≡ p.network)
    × (r.path ≡ p.path)
    × (r.host ≡ p.host)
    × (r.service_name ≡ p.service_name)

abbrev transport_of : Proxy → Option Text → Option Text → Option Text → Option Text → Proxy
transport_of p n a h s = record p { network = n; path = a; host = h; service_name = s }

pub transport_with :
    (p q : Proxy) (n a h s : Option Text)
    → carries (transport_of p n a h s) ≡ true
    → TransportKept (transport_of p n a h s) (
        with_transport
          (singbox_transport (transport_of p n a h s))
          (transport_of q none none none none))
unfolding TransportKept carries singbox_transport with_transport text_eq insert insert_some get
    text_at
transport_with p q n a h s c = ground (arith, c)

-- The layer of a node, as it is read.
unfoldable pub LayerKept : Proxy → Proxy → Type 0
LayerKept p r =
    (r.sni ≡ p.sni)
    × (r.alpn ≡ (p.alpn >>= some_list))
    × (r.reality ≡ p.reality)
    × ((if p.reality then r.reality_public_key else p.reality_public_key) ≡ p.reality_public_key)
    × ((if p.reality then r.reality_short_id else p.reality_short_id) ≡ p.reality_short_id)

abbrev layer_of :
    Proxy → Bool → Option Text → Option (List Text) → Option Text → Option Text → Proxy
layer_of p r s a k i = record p {
  reality = r;
  sni = s;
  alpn = a;
  reality_public_key = k;
  reality_short_id = i;
}

pub layer_with :
    (p q : Proxy) (r : Bool) (s : Option Text) (a : Option (List Text)) (k i : Option Text)
    → q.reality ≡ false
    → LayerKept (layer_of p r s a k i) (with_tls (some (tls_object (layer_of p r s a k i))) q)
unfolding LayerKept tls_object with_tls text_eq insert insert_some get text_at
layer_with p q r s none k i f = ground (arith, f)
layer_with p q r s (some []) k i f = ground (arith, f)
layer_with p q r s (some (x ∷ xs)) k i f = ground (arith, f, strings-string_items xs)
