-- ===== src/Model/Fingerprint/Collision.antt =====
-- The escape of `Proxy::fingerprint` is not injective: `|` and `#` are one character to it.
use sub_hub.Common.{◌≡◌, ◌≢◌, refl, true, [], ◌∷◌, Text, any, arith, ◌==◌, replace_char}
use sub_hub.Model.Proxy.{Proxy, ProxyType, ss, ss_method_value}
use sub_hub.Model.Fingerprint.{bar, esc, fingerprint, credential, extra_parts}

esc_idem : (t : Text) → esc (esc t) ≡ esc t
unfolding esc replace_char
esc_idem [] = refl
esc_idem (c ∷ t) = ground (arith, esc_idem t)

ne-esc : (t : Text) → any (λ c. c == bar) t ≡ true → t ≢ esc t
unfolding esc replace_char
ne-esc [] h e = cc
ne-esc (c ∷ t) h e = ground (arith, ne-esc t)

module _ (p : Proxy) (n : Text) where
  credential-name : (t : ProxyType) → credential t (record p { name = n }) ≡ credential t p
  unfolding credential ss_method_value
  credential-name ss = refl
  credential-name _ = refl

  extra_parts-name : (t : ProxyType) → extra_parts t (record p { name = n }) ≡ extra_parts t p
  unfolding extra_parts
  extra_parts-name ss = refl
  extra_parts-name _ = refl

-- A node whose name holds a `|`, and the node that has a `#` in each such place of its name and is
-- the same otherwise, have different names and the same fingerprint.
fingerprint-name_collision :
    (p : Proxy)
    → any (λ c. c == bar) p.name ≡ true
    → (p.name ≢ esc p.name) × (fingerprint (record p { name = esc p.name }) ≡ fingerprint p)
unfolding fingerprint
fingerprint-name_collision p h =
    (ne-esc p.name h, rw (esc_idem, credential-name p _ p.type_, extra_parts-name p _ p.type_))
