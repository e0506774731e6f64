-- ===== src/Export/V2ray/Stream.antt =====
-- What is read back from the `streamSettings` that are written (core/src/export.rs, core/src/parse.rs).
use sub_hub.Common.{
  ◌≡◌, refl, Bool, true, false, not, ◌&&◌, ◌||◌, Option, none, some, List, [], ◌∷◌, Text, lit,
  text_eq, is_some, or_else, unwrap_or, if◌then◌else◌, ◌>>=◌, arith,
}
use sub_hub.Model.Json.{Json, Members, find_member, get, insert, as_string, string}
use sub_hub.Parse.Fields.{some_list, yaml_string_list}
use sub_hub.Model.Json.Laws.{find_member-insert, strings-string_items}
use sub_hub.Model.Proxy.{Proxy}
use sub_hub.Parse.V2ray.{text_in, host_header, either_text, alpn_of}
use sub_hub.Export.Clash.{insert_some}
use sub_hub.Export.Clash.Entries.{pair_value, or_else-none}
use sub_hub.Export.V2ray.{
  insert_pair, security_name, security_settings, transport_settings, v2ray_stream, net_of,
}

find_member-insert_pair :
    (k : Text) (o : Option (Text × Json)) (m : Members)
    → find_member k (insert_pair o m) ≡ or_else (pair_value k o) (find_member k m)
unfolding pair_value
find_member-insert_pair k none m = refl
find_member-insert_pair k (some (key, v)) m = ground (arith, find_member-insert k key v m)

-- A text that is no key of a transport.
unfoldable no_transport : Text → Bool
no_transport k = not (
    text_eq (lit "wsSettings") k
    || text_eq (lit "grpcSettings") k
    || text_eq (lit "httpSettings") k)

pair_value-transport_settings :
    (k : Text) (p : Proxy) → no_transport k ≡ true → pair_value k (transport_settings p) ≡ none
unfolding pair_value transport_settings no_transport
pair_value-transport_settings k p h = ground (arith, h)

unfoldable no_security : Text → Bool
no_security k = not (text_eq (lit "tlsSettings") k || text_eq (lit "realitySettings") k)

pair_value-security_settings :
    (k : Text) (p : Proxy) → no_security k ≡ true → pair_value k (security_settings p) ≡ none
unfolding pair_value security_settings no_security
pair_value-security_settings k p h = ground (arith, h)

-- The fields of the transport lie in its object.
unfoldable pub carries : Proxy → Bool
carries p =
    let net = unwrap_or p.network [] in
    let no_address = not (is_some p.path || is_some p.host) in
    is_some p.network
    && (if text_eq net (lit "ws")
        then not (is_some p.service_name)
        else if text_eq net (lit "grpc")
        then no_address
        else if text_eq net (lit "h2") || text_eq net (lit "http")
        then not (is_some p.service_name)
        else no_address && not (is_some p.service_name))

abbrev with_transport : Proxy → Option Text → Option Text → Option Text → Option Text → Proxy
with_transport p n a h s = record p { network = n; path = a; host = h; service_name = s }

-- What the transport's object gives back.
unfoldable pub Carried : Proxy → Type 0
Carried p =
    let t = transport_settings p in
    (or_else (text_in (pair_value (lit "wsSettings") t) (lit "path"))
        (text_in (pair_value (lit "httpSettings") t) (lit "path"))
      ≡ p.path)
    × (or_else (host_header (pair_value (lit "wsSettings") t))
          (text_in (pair_value (lit "httpSettings") t) (lit "host"))
        ≡ p.host)
    × (text_in (pair_value (lit "grpcSettings") t) (lit "serviceName") ≡ p.service_name)

transport_with :
    (p : Proxy) (n a h s : Option Text)
    → carries (with_transport p n a h s) ≡ true
    → Carried (with_transport p n a h s)
unfolding Carried carries transport_settings text_eq pair_value insert insert_some get
transport_with p n a h s c = ground (arith, c)

pub carried : (p : Proxy) → carries p ≡ true → Carried p
carried p c = transport_with p p.network p.path p.host p.service_name c

abbrev pub is_nil : Option (List Text) → Bool
is_nil none = true
is_nil (some []) = true
is_nil (some (t ∷ ts)) = false

-- What the layer must have for its object to keep it.
unfoldable pub secures : Proxy → Bool
secures p =
    if p.reality
    then unwrap_or p.tls false && is_nil p.alpn
    else if unwrap_or p.tls false
    then true
    else is_some p.tls && not (is_some p.sni) && is_nil p.alpn

abbrev with_layer :
    Proxy
    → Bool
    → Option Bool
    → Option Text
    → Option (List Text)
    → Option Text
    → Option Text
    → Proxy
with_layer p r t s a k i = record p {
  reality = r;
  tls = t;
  sni = s;
  alpn = a;
  reality_public_key = k;
  reality_short_id = i;
}

-- What the layer's name and object give back.
unfoldable pub Secured : Proxy → Type 0
unfolding yaml_string_list
Secured p =
    let layer = security_settings p in
    let tls = pair_value (lit "tlsSettings") layer in
    let reality = pair_value (lit "realitySettings") layer in
    let name = security_name p in
    (either_text tls reality (lit "serverName") ≡ p.sni)
    × (alpn_of tls ≡ (p.alpn >>= some_list))
    × ((text_eq name (lit "reality") || is_some reality) ≡ p.reality)
    × ((if p.reality then true else text_eq name (lit "tls") || text_eq name (lit "reality"))
        ≡ unwrap_or p.tls false)
    × ((if p.reality
          then reality >>= (λ v. or_else (get (lit "publicKey") v) (get (lit "id") v)) >>= as_string
          else p.reality_public_key)
        ≡ p.reality_public_key)
    × ((if p.reality then reality >>= get (lit "shortId") >>= as_string else p.reality_short_id)
        ≡ p.reality_short_id)

layer_with :
    (p : Proxy) (r : Bool) (t : Option Bool) (s : Option Text) (a : Option (List Text))
    (k i : Option Text)
    → secures (with_layer p r t s a k i) ≡ true
    → Secured (with_layer p r t s a k i)
unfolding Secured secures security_settings security_name text_eq pair_value insert insert_some get
layer_with p r t s none k i c = ground (arith, c)
layer_with p r t s (some []) k i c = ground (arith, c)
layer_with p r t s (some (x ∷ xs)) k i c = ground (arith, c, strings-string_items xs)

pub secured : (p : Proxy) → secures p ≡ true → Secured p
secured p c = layer_with p p.reality p.tls p.sni p.alpn p.reality_public_key p.reality_short_id c

-- The keys at which a transport or a layer lies never hold the other.
module _ (p : Proxy) where
  transport_elsewhere :
      (pair_value (lit "tlsSettings") (transport_settings p) ≡ none)
      × (pair_value (lit "realitySettings") (transport_settings p) ≡ none)
      × (pair_value (lit "networkSettings") (transport_settings p) ≡ none)
      × (pair_value (lit "xhttpSettings") (transport_settings p) ≡ none)
      × (pair_value (lit "network") (transport_settings p) ≡ none)
      × (pair_value (lit "security") (transport_settings p) ≡ none)
  unfolding no_transport text_eq
  transport_elsewhere = (
    pair_value-transport_settings (lit "tlsSettings") p refl,
    pair_value-transport_settings (lit "realitySettings") p refl,
    pair_value-transport_settings (lit "networkSettings") p refl,
    pair_value-transport_settings (lit "xhttpSettings") p refl,
    pair_value-transport_settings (lit "network") p refl,
    pair_value-transport_settings (lit "security") p refl,
  )

  security_elsewhere :
      (pair_value (lit "wsSettings") (security_settings p) ≡ none)
      × (pair_value (lit "grpcSettings") (security_settings p) ≡ none)
      × (pair_value (lit "httpSettings") (security_settings p) ≡ none)
      × (pair_value (lit "networkSettings") (security_settings p) ≡ none)
      × (pair_value (lit "xhttpSettings") (security_settings p) ≡ none)
      × (pair_value (lit "network") (security_settings p) ≡ none)
      × (pair_value (lit "security") (security_settings p) ≡ none)
  unfolding no_security text_eq
  security_elsewhere = (
    pair_value-security_settings (lit "wsSettings") p refl,
    pair_value-security_settings (lit "grpcSettings") p refl,
    pair_value-security_settings (lit "httpSettings") p refl,
    pair_value-security_settings (lit "networkSettings") p refl,
    pair_value-security_settings (lit "xhttpSettings") p refl,
    pair_value-security_settings (lit "network") p refl,
    pair_value-security_settings (lit "security") p refl,
  )

  -- What is found at each key that is read.
  abbrev pub Found : Type 0
  Found =
      (get (lit "wsSettings") (v2ray_stream p)
        ≡ pair_value (lit "wsSettings") (transport_settings p))
      × (get (lit "grpcSettings") (v2ray_stream p)
          ≡ pair_value (lit "grpcSettings") (transport_settings p))
      × (get (lit "httpSettings") (v2ray_stream p)
          ≡ pair_value (lit "httpSettings") (transport_settings p))
      × (get (lit "xhttpSettings") (v2ray_stream p) ≡ none)
      × (get (lit "networkSettings") (v2ray_stream p) ≡ none)
      × (get (lit "tlsSettings") (v2ray_stream p)
          ≡ pair_value (lit "tlsSettings") (security_settings p))
      × (get (lit "realitySettings") (v2ray_stream p)
          ≡ pair_value (lit "realitySettings") (security_settings p))
      × (get (lit "network") (v2ray_stream p) ≡ some (string (net_of p)))
      × (get (lit "security") (v2ray_stream p) ≡ some (string (security_name p)))

  pub found : Found
  unfolding v2ray_stream get insert text_eq
  found =
      let (a, b, c, d, e, f) = transport_elsewhere in
      let (g, h, i, j, k, l, m) = security_elsewhere in
      (
        simp (find_member-insert_pair, g, or_else-none),
        simp (find_member-insert_pair, h, or_else-none),
        simp (find_member-insert_pair, i, or_else-none),
        simp (find_member-insert_pair, d, k),
        simp (find_member-insert_pair, c, j),
        simp (find_member-insert_pair, a, or_else-none),
        simp (find_member-insert_pair, b, or_else-none),
        simp (find_member-insert_pair, e, l),
        simp (find_member-insert_pair, f, m),
      )
