-- ===== src/Model/Fingerprint/Separation.antt =====
-- Which nodes `Proxy::fingerprint` tells apart: the joined parts can be read back from the text,
-- since the separator is escaped in every part.
mod BarFree
use BarFree.{
  join-injective, append-injective, parts, parts-BarFree, fingerprint-parts, length-credential,
}
use sub_hub.Common.{
  ℕ, ◌<◌, ◌^◌, ◌≡◌, refl, sym, ap, ◌∙◌, ◌↔◌, List, [], ◌∷◌, ◌++◌, Text, length, join, arith,
}
use sub_hub.Common.Decimal.{decimal, decimal-injective}
use sub_hub.Model.Proxy.{
  Proxy, ProxyType, ss, trojan, vmess, vless, hysteria2, tuic, socks5, http, wireguard, any_tls,
  other, as_str,
}
use sub_hub.Model.Proxy.Laws.{as_str-injective}
use sub_hub.Model.Fingerprint.{bar, esc, credential, extra_parts, fingerprint, with_extra}

-- What identity a node has for the program.
pub record SameIdentity (p q : Proxy) : Type 0 where
  pub same_type : p.type_ ≡ q.type_
  pub same_server : esc p.server ≡ esc q.server
  pub same_port : p.port ≡ q.port
  pub same_name : esc p.name ≡ esc q.name
  pub same_credential : credential p.type_ p ≡ credential q.type_ q
  pub same_extra : extra_parts p.type_ p ≡ extra_parts q.type_ q

-- The parts of two nodes agree exactly if the nodes have one identity.
parts-SameIdentity :
    (p q : Proxy) → p.port < 2 ^ 64 → q.port < 2 ^ 64 → parts p ≡ parts q → SameIdentity p q
parts-SameIdentity p q hp hq e =
    let t : p.type_ ≡ q.type_ = as_str-injective p.type_ q.type_ (cc) in
    let l : length (credential p.type_ p) ≡ length (credential q.type_ q) =
      ap (λ u. length (credential u p)) t ∙ length-credential p q q.type_ in
    let tails : credential p.type_ p ++ extra_parts p.type_ p
        ≡ credential q.type_ q ++ extra_parts q.type_ q =
      cc in
    let split = append-injective (credential p.type_ p) (credential q.type_ q) _ _ l tails in
    record {
      same_type = t;
      same_server = cc;
      same_port = decimal-injective p.port q.port hp hq (cc);
      same_name = cc;
      same_credential = split.0;
      same_extra = split.1;
    }

SameIdentity-parts : (p q : Proxy) → SameIdentity p q → parts p ≡ parts q
SameIdentity-parts p q s =
    cc (s.same_type, s.same_server, s.same_port, s.same_name, s.same_credential, s.same_extra)

-- Two nodes whose ports fit in 64 bits have the same fingerprint exactly if they agree in type,
-- port, escaped server and name, and in every escaped credential and optional part.
pub fingerprint-eq_iff :
    (p q : Proxy)
    → p.port < 2 ^ 64
    → q.port < 2 ^ 64
    → (fingerprint p ≡ fingerprint q) ↔ SameIdentity p q
fingerprint-eq_iff p q hp hq = (
  λ e. parts-SameIdentity p q hp hq (
      join-injective _ _ _ _ (parts-BarFree p) (parts-BarFree q)
        (sym (fingerprint-parts p) ∙ e ∙ fingerprint-parts q)),
  λ s. fingerprint-parts p ∙ ap (join bar) (SameIdentity-parts p q s) ∙ sym (fingerprint-parts q),
)
