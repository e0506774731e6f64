-- ===== src/Export/V2ray/Kept.antt =====
-- What of the fingerprint is read back from a V2Ray outbound (core/src/export.rs, core/src/parse.rs).
use sub_hub.Common.{
  [], ◌∷◌, ℕ, ◌≡◌, refl, sym, ◌∙◌, ap, Bool, true, false, Option, none, some, Text, lit, text_eq,
  is_some, or_else, unwrap_or, if◌then◌else◌, ◌>>=◌, arith, ◌++◌, non_empty, leb, ◌-◌, ◌^◌, ◌<◌,
}
use sub_hub.Model.Json.{get, text_at}
use sub_hub.Model.Proxy.{vmess, vless, trojan, Proxy, new, ProxyType}
use sub_hub.Parse.V2ray.{node_from_v2ray, from_target, target_of, v2ray_fields, with_stream}
use sub_hub.Model.Fingerprint.{
  tunnel_credential, password_credential, tunnel_parts, reality_parts, tagged, alpn_parts,
  fingerprint, credential, extra_parts,
}
use sub_hub.Parse.Fields.{some_list, is_port, Doubles, port_from_json, u32_from}
use sub_hub.Export.V2ray.{outbound_of, v2ray_stream, net_of}
use sub_hub.Export.V2ray.Stream.{found, Carried, Secured, carries, carried, secures, secured}
use sub_hub.Export.Clash.Entries.{or_else-none, alpn_parts-some_list}

if_twice {ℓ} :
    {A : Type ℓ} (b : Bool) (x y z : A)
    → (if b then (if b then x else y) else z) ≡ (if b then x else z)
if_twice true x y z = refl
if_twice false x y z = refl

reality_same :
    (b : Bool) (k j i h : Option Text)
    → (if b then k else j) ≡ j
    → (if b then i else h) ≡ h
    → (if b then lit "reality" ∷ tagged (lit "pk=") k ++ tagged (lit "sid=") i else [])
      ≡ (if b then lit "reality" ∷ tagged (lit "pk=") j ++ tagged (lit "sid=") h else [])
reality_same true k j i h e f = cc
reality_same false k j i h e f = refl

module _ (p q : Proxy) (c : carries p ≡ true) (s : secures p ≡ true)
    (fresh : q.reality ≡ false) where
  StreamKept : Proxy → Type 0
  StreamKept r =
      (r.network ≡ some (net_of p))
      × (r.path ≡ p.path)
      × (r.host ≡ p.host)
      × (r.service_name ≡ p.service_name)
      × (r.sni ≡ p.sni)
      × (r.alpn ≡ (p.alpn >>= some_list))
      × (r.tls ≡ some (unwrap_or p.tls false))
      × (r.reality ≡ p.reality)
      × ((if p.reality then r.reality_public_key else p.reality_public_key) ≡ p.reality_public_key)
      × ((if p.reality then r.reality_short_id else p.reality_short_id) ≡ p.reality_short_id)

  stream_kept : StreamKept (with_stream (v2ray_stream p) q)
  unfolding StreamKept with_stream text_at Carried Secured
  stream_kept =
      let (ws, grpc, http, xhttp, ns, tls, reality, net, sec) = found p in
      let (path, host, svc) = carried p c in
      let (sni, alpn, on, secure, key, id) = secured p s in
      (
        rw net refl,
        simp (ws, http, xhttp, ns, or_else-none) path,
        simp (ws, http, xhttp, ns, or_else-none) host,
        simp (grpc, ns, or_else-none) svc,
        rw (tls, reality) sni,
        rw tls alpn,
        simp (sec, reality, on) (ap some secure),
        simp (sec, reality, on) (ground (arith, fresh)),
        simp (sec, reality, on) (if_twice p.reality _ _ _ ∙ key),
        simp (sec, reality, on) (if_twice p.reality _ _ _ ∙ id),
      )

  network_given : p.network ≡ some (net_of p)
  unfolding carries
  network_given = ground (arith, c)

  tls_given : p.tls ≡ some (unwrap_or p.tls false)
  unfolding secures
  tls_given = ground (arith, s)

  reality_kept : (r : Proxy) → StreamKept r → reality_parts r ≡ reality_parts p
  unfolding StreamKept
  reality_kept r (net, path, host, svc, sni, alpn, tls, real, key, id) = rw real (
      reality_same p.reality r.reality_public_key p.reality_public_key r.reality_short_id
        p.reality_short_id key id)

  -- The parts of the fingerprint that the stream decides.
  tunnel_extra :
      (r : Proxy)
      → StreamKept r
      → tunnel_parts r ++ alpn_parts r.alpn ≡ tunnel_parts p ++ alpn_parts p.alpn
  unfolding StreamKept
  tunnel_extra r (net, path, host, svc, sni, alpn, tls, real, key, id) = cc (
    host,
    svc,
    alpn,
    alpn_parts-some_list p.alpn,
    reality_kept r (net, path, host, svc, sni, alpn, tls, real, key, id),
  )

  alpn_kept : (r : Proxy) → StreamKept r → alpn_parts r.alpn ≡ alpn_parts p.alpn
  unfolding StreamKept
  alpn_kept r (net, path, host, svc, sni, alpn, tls, real, key, id) =
      cc (alpn, alpn_parts-some_list p.alpn)

  tunnel_same :
      (r : Proxy)
      → StreamKept r
      → unwrap_or r.uuid [] ≡ unwrap_or p.uuid []
      → unwrap_or r.alter_id 0 ≡ unwrap_or p.alter_id 0
      → unwrap_or r.cipher [] ≡ unwrap_or p.cipher []
      → unwrap_or r.flow [] ≡ unwrap_or p.flow []
      → tunnel_credential r ≡ tunnel_credential p
  unfolding StreamKept
  tunnel_same r (net, path, host, svc, sni, alpn, tls, real, key, id) u a ci f =
      cc (net, path, sni, tls, u, a, ci, f, network_given, tls_given)

  password_same :
      (r : Proxy)
      → StreamKept r
      → unwrap_or r.password [] ≡ unwrap_or p.password []
      → password_credential r ≡ password_credential p
  unfolding StreamKept
  password_same r (net, path, host, svc, sni, alpn, tls, real, key, id) u =
      cc (net, path, host, sni, u, network_given)

lt→leb : (n : ℕ) → n < 2 ^ 32 → leb n (2 ^ 32 - 1) ≡ true
lt→leb n h = ground arith

-- The node that is read from an outbound, its stream excepted.
unfoldable pub base : ProxyType → Proxy → Proxy
base vmess p = record (new p.name vmess p.server p.port) {
  uuid = some (unwrap_or p.uuid []);
  alter_id = some (unwrap_or p.alter_id 0);
  cipher = some (unwrap_or p.cipher (lit "auto"));
}
base vless p = record (new p.name vless p.server p.port) {
  uuid = some (unwrap_or p.uuid []);
  flow = or_else (non_empty (some (unwrap_or p.flow []))) none;
}
base trojan p = record (new p.name trojan p.server p.port) {
  uuid = some (unwrap_or p.password []);
  password = some (unwrap_or p.password []);
  flow = or_else (non_empty (some (unwrap_or p.flow []))) (some (unwrap_or p.flow []));
}
base _ p = p

-- What a node must have for its outbound to keep its identity.
unfoldable pub V2rayKeeps : ProxyType → Proxy → Type 0
V2rayKeeps vmess p =
    (is_some p.cipher ≡ true) × (unwrap_or p.flow [] ≡ []) × (unwrap_or p.alter_id 0 < 2 ^ 32)
V2rayKeeps vless p = (unwrap_or p.cipher [] ≡ []) × (unwrap_or p.alter_id 0 ≡ 0)
V2rayKeeps trojan p = true ≡ true
V2rayKeeps _ p = true ≡ false

module _ (d : Doubles) (p : Proxy) (i : is_port p.port ≡ true) where
  pub reread :
      (t : ProxyType)
      → V2rayKeeps t p
      → (outbound_of t p >>= node_from_v2ray d) ≡ some (with_stream (v2ray_stream p) (base t p))
  unfolding V2rayKeeps outbound_of node_from_v2ray base from_target target_of v2ray_fields
      port_from_json get text_at text_eq u32_from
  reread vmess (c, f, a) = rw i (rw (lt→leb (unwrap_or p.alter_id 0) a) refl)
  reread vless (c, a) = rw i refl
  reread trojan h = rw i refl
  reread _ h = ground (arith, h)

  unfoldable pub Same : (t : ProxyType) → Type 0
  unfolding base
  Same t =
      let r = with_stream (v2ray_stream p) (base t p) in
      (credential t r ≡ credential t p) × (extra_parts t r ≡ extra_parts t p)

  pub same : (t : ProxyType) → V2rayKeeps t p → carries p ≡ true → secures p ≡ true → Same t
  unfolding Same V2rayKeeps credential extra_parts base with_stream
  same vmess (c, f, a) h s =
      let k = stream_kept p (base vmess p) h s refl in
      (
        tunnel_same p (base vmess p) h s refl _ k refl refl (ground (arith, c)) (sym f),
        tunnel_extra p (base vmess p) h s refl _ k,
      )
  same vless (c, a) h s =
      let k = stream_kept p (base vless p) h s refl in
      (
        tunnel_same p (base vless p) h s refl _ k refl (sym a) (sym c) (ground arith),
        tunnel_extra p (base vless p) h s refl _ k,
      )
  same trojan t h s =
      let k = stream_kept p (base trojan p) h s refl in
      (password_same p (base trojan p) h s refl _ k refl, alpn_kept p (base trojan p) h s refl _ k)
  same _ k h s = ground (arith, k)

  pub fingerprint_same :
      (t : ProxyType)
      → p.type_ ≡ t
      → V2rayKeeps t p
      → Same t
      → fingerprint (with_stream (v2ray_stream p) (base t p)) ≡ fingerprint p
  unfolding Same fingerprint base with_stream V2rayKeeps
  fingerprint_same vmess e k (c, x) = cc (e, c, x)
  fingerprint_same vless e k (c, x) = cc (e, c, x)
  fingerprint_same trojan e k (c, x) = cc (e, c, x)
  fingerprint_same _ e k s = ground (arith, k)
