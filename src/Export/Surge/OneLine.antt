-- ===== src/Export/Surge/OneLine.antt =====
-- No node adds a line to the `[Proxy]` section of Surge (core/src/export.rs).
use sub_hub.Common.{
  ℕ, ◌≡◌, refl, Bool, true, false, not, ◌&&◌, ◌||◌, Option, none, some, List, [], ◌∷◌, ◌++◌, Text,
  ◌==◌, unwrap_or, arith, if◌then◌else◌, is_some, is_digit, All,
}
use sub_hub.Common.Decimal.{decimal, decimal-All}
use sub_hub.Model.Proxy.{
  Proxy, ProxyType, ss, trojan, vmess, vless, hysteria2, tuic, socks5, http, wireguard, any_tls,
  other,
}
use sub_hub.Export.Surge.{
  surge_safe, opt_param, surge_tls, surge_ws, surge_positional_auth, second, ws_headers,
  obfs_params, obfs_secret, bandwidth,
}
use sub_hub.Export.Plugin.{ss_method}
use sub_hub.Export.Surge.Lines.{line_of}

abbrev is_break : ℕ → Bool
is_break c = c == 10 || c == 13

-- A text without a line break.
unfoldable pub one_line : Text → Bool
one_line [] = true
one_line (c ∷ s) = not (is_break c) && one_line s

one_line-concat : (s t : Text) → one_line (s ++ t) ≡ (one_line s && one_line t)
unfolding one_line
one_line-concat [] t = refl
one_line-concat (c ∷ s) t = ground (arith, one_line-concat s t)

one_line-surge_safe : (s : Text) → one_line (surge_safe s) ≡ true
unfolding one_line surge_safe
one_line-surge_safe [] = refl
one_line-surge_safe (c ∷ s) = ground (arith, one_line-surge_safe s)

one_line-opt_param :
    (key : Text) (o : Option Text) → one_line (opt_param key o) ≡ (not (is_some o) || one_line key)
unfolding one_line opt_param
one_line-opt_param key none = refl
one_line-opt_param key (some t) =
    rw (one_line-concat key (61 ∷ surge_safe t), one_line-surge_safe t) (ground arith)

one_line-digits : (s : Text) → All (λ c. is_digit c ≡ true) s → one_line s ≡ true
unfolding one_line is_digit
one_line-digits [] h = refl
one_line-digits (c ∷ s) h = ground (arith, one_line-digits s h.1)

one_line-decimal : (n : ℕ) → one_line (decimal n) ≡ true
one_line-decimal n = one_line-digits (decimal n) (decimal-All n)

one_line-ws_headers : (o : Option Text) → one_line (ws_headers o) ≡ true
unfolding one_line ws_headers
one_line-ws_headers none = refl
one_line-ws_headers (some t) = one_line-surge_safe t

one_line-second : (o : Option Text) → one_line (second o) ≡ true
unfolding one_line second
one_line-second none = refl
one_line-second (some t) = one_line-surge_safe t

one_line-bandwidth : (o : Option ℕ) → one_line (bandwidth o) ≡ true
unfolding one_line bandwidth
one_line-bandwidth none = refl
one_line-bandwidth (some n) = one_line-decimal n

or_true : (b : Bool) → (b || true) ≡ true
or_true true = refl
or_true false = refl

one_line-if :
    (b : Bool) (s t : Text) → one_line (if b then s else t) ≡ (if b then one_line s else one_line t)
one_line-if true s t = refl
one_line-if false s t = refl

ruleset lines = (
  one_line-concat, one_line-surge_safe, one_line-opt_param, one_line-decimal, one_line-ws_headers,
  one_line-second, one_line-bandwidth, or_true,
)

-- What a line takes of a node as it is.
unfoldable pub raw_one_line : Proxy → Bool
raw_one_line p =
    one_line p.server
    && one_line (ss_method p)
    && one_line (unwrap_or p.password [])
    && one_line (unwrap_or p.uuid [])
    && one_line (unwrap_or p.obfs_password [])

one_line-surge_tls : (p : Proxy) → one_line (surge_tls p) ≡ true
unfolding surge_tls one_line
one_line-surge_tls p = simp lines (ground arith)

one_line-surge_ws : (p : Proxy) → one_line (surge_ws p) ≡ true
unfolding surge_ws one_line
one_line-surge_ws p = simp (lines, one_line-if) (ground arith)

one_line-surge_positional_auth : (p : Proxy) → one_line (surge_positional_auth p) ≡ true
unfolding surge_positional_auth one_line
one_line-surge_positional_auth p = simp (lines, one_line-if) (ground arith)

one_line-obfs_params : (o : Option (Text × List (Text × Text))) → one_line (obfs_params o) ≡ true
unfolding one_line obfs_params
one_line-obfs_params none = refl
one_line-obfs_params (some (name, opts)) = simp lines

one_line-obfs_secret :
    (p : Proxy) (o : Option Text)
    → one_line (unwrap_or p.obfs_password []) ≡ true
    → one_line (obfs_secret p o) ≡ true
unfolding one_line
one_line-obfs_secret p none h = refl
one_line-obfs_secret p (some obfs) h = simp (lines, h) (ground arith)

ruleset parts =
    (one_line-surge_tls, one_line-surge_ws, one_line-surge_positional_auth, one_line-obfs_params)

-- Whether the line of a type, if there is one, has no line break.
unfoldable pub is_one_line : Option Text → Bool
is_one_line none = true
is_one_line (some l) = one_line l

-- If the server, the encryption method, the password, the UUID and the obfuscation password of a node
-- have no line break, the line written for it has none, whatever the other fields hold.
pub line_of-is_one_line :
    (t : ProxyType) (p : Proxy) → raw_one_line p ≡ true → is_one_line (line_of t p) ≡ true
unfolding line_of is_one_line raw_one_line one_line
line_of-is_one_line ss p h = simp (lines, parts) (ground arith)
line_of-is_one_line trojan p h = simp (lines, parts) (ground arith)
line_of-is_one_line vmess p h = simp (lines, parts) (ground arith)
line_of-is_one_line hysteria2 p h = simp lines (ground arith)
line_of-is_one_line tuic p h = simp lines (ground arith)
line_of-is_one_line any_tls p h = simp lines (ground arith)
line_of-is_one_line socks5 p h = simp (lines, parts) (ground arith)
line_of-is_one_line http p h = simp (lines, parts) (ground arith)
line_of-is_one_line vless p h = refl
line_of-is_one_line wireguard p h = refl
line_of-is_one_line other p h = refl
