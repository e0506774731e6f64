-- ===== src/Model/Proxy/Laws.antt =====
-- Facts about one node: type names tell types apart.
use sub_hub.Common.{◌≡◌, refl, sym, ap, ◌∙◌, Text, lit, text_eq, if◌then◌else◌}
use sub_hub.Model.Proxy.{
  ProxyType, ss, trojan, vmess, vless, hysteria2, tuic, socks5, http, wireguard, any_tls, other,
  as_str,
}

-- The type that a name stands for.
of_str : Text → ProxyType
of_str t =
    if text_eq t (lit "ss")
    then ss
    else if text_eq t (lit "trojan")
    then trojan
    else if text_eq t (lit "vmess")
    then vmess
    else if text_eq t (lit "vless")
    then vless
    else if text_eq t (lit "hysteria2")
    then hysteria2
    else if text_eq t (lit "tuic")
    then tuic
    else if text_eq t (lit "socks5")
    then socks5
    else if text_eq t (lit "http")
    then http
    else if text_eq t (lit "wireguard")
    then wireguard
    else if text_eq t (lit "anytls")
    then any_tls
    else other

of_str-as_str : (t : ProxyType) → of_str (as_str t) ≡ t
unfolding of_str as_str text_eq
of_str-as_str ss = refl
of_str-as_str _ = refl

pub as_str-injective : (t u : ProxyType) → as_str t ≡ as_str u → t ≡ u
as_str-injective t u e = sym (of_str-as_str t) ∙ ap of_str e ∙ of_str-as_str u
