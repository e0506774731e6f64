-- ===== src/Model/Fingerprint/Separation/BarFree.antt =====
-- Texts without the separator, and lists of them that are joined by it.
use sub_hub.Common.{
  ℕ, ◌≡◌, refl, sym, ap, ◌∙◌, Bool, true, false, Option, none, some, List, [], ◌∷◌, ◌++◌, Text, lit,
  All, All-append, length, join, arith, ◌==◌, is_digit, replace_char, if◌then◌else◌,
}
use mathlib.Core.List.{append_assoc}
use sub_hub.Common.Decimal.{decimal, decimal-All}
use sub_hub.Model.Proxy.{
  Proxy, ProxyType, ss, vmess, vless, hysteria2, tuic, wireguard, other, as_str,
}
use sub_hub.Model.Fingerprint.{
  bar, esc, bool_text, credential, tunnel_credential, password_credential, tagged, tagged_number,
  tagged_any, tagged_bool, tunnel_parts, alpn_parts, tuic_parts, extra_parts, with_extra,
  fingerprint,
}

abbrev pub NotBar : ℕ → Type 0
NotBar c = (c == bar) ≡ false

abbrev pub BarFree : Text → Type 0
BarFree = All NotBar

abbrev pub AllBarFree : List Text → Type 0
AllBarFree = All BarFree

-- A text that is read up to the first separator is determined.
head_of_bar :
    (x y r s : Text) → BarFree x → BarFree y → x ++ bar ∷ r ≡ y ++ bar ∷ s → (x ≡ y) × (r ≡ s)
head_of_bar [] [] r s h k e = (refl, cc)
head_of_bar [] (c ∷ y) r s h k e = absurd (ground (arith, k.0))
head_of_bar (b ∷ x) [] r s h k e = absurd (ground (arith, h.0))
head_of_bar (b ∷ x) (c ∷ y) r s h k e = let (p, q) = head_of_bar x y r s h.1 k.1 (cc) in (cc (p), q)

no_bar : (x y r : Text) → BarFree x → x ≡ y ++ bar ∷ r → ⊥
no_bar [] [] r h e = cc
no_bar [] (c ∷ y) r h e = cc
no_bar (b ∷ x) [] r h e = ground (arith, h.0)
no_bar (b ∷ x) (c ∷ y) r h e = no_bar x y r h.1 (cc)

-- Lists of such texts, with one text at least, are read back from their join.
pub join-injective :
    (t u : Text) (ts us : List Text)
    → AllBarFree (t ∷ ts)
    → AllBarFree (u ∷ us)
    → join bar (t ∷ ts) ≡ join bar (u ∷ us)
    → t ∷ ts ≡ u ∷ us
unfolding join
join-injective t u [] [] h k e = cc
join-injective t u [] (v ∷ us) h k e = absurd (no_bar t u (join bar (v ∷ us)) h.0 e)
join-injective t u (v ∷ ts) [] h k e = absurd (no_bar u t (join bar (v ∷ ts)) k.0 (sym e))
join-injective t u (v ∷ ts) (w ∷ us) h k e =
    let (p, q) = head_of_bar t u (join bar (v ∷ ts)) (join bar (w ∷ us)) h.0 k.0 e in
    cc (p, join-injective v w ts us h.1 k.1 q)

-- Two lists with first parts of one length are equal part by part.
pub append-injective :
    (xs ys us vs : List Text) → length xs ≡ length ys → xs ++ us ≡ ys ++ vs → (xs ≡ ys) × (us ≡ vs)
append-injective [] [] us vs l e = (refl, e)
append-injective [] (y ∷ ys) us vs l e = absurd (omega arith)
append-injective (x ∷ xs) [] us vs l e = absurd (omega arith)
append-injective (x ∷ xs) (y ∷ ys) us vs l e =
    let (p, q) = append-injective xs ys us vs (omega arith) (cc) in (cc (p), q)

esc-BarFree : (t : Text) → BarFree (esc t)
unfolding esc replace_char
esc-BarFree [] = tt
esc-BarFree (c ∷ t) = (ground arith, esc-BarFree t)

digits-BarFree : (t : Text) → All (λ c. is_digit c ≡ true) t → BarFree t
unfolding is_digit
digits-BarFree [] h = tt
digits-BarFree (c ∷ t) h = (ground (arith, h.0), digits-BarFree t h.1)

decimal-BarFree : (n : ℕ) → BarFree (decimal n)
decimal-BarFree n = digits-BarFree (decimal n) (decimal-All n)

bool_text-BarFree : (o : Option Bool) → BarFree (bool_text o)
bool_text-BarFree none = tt
bool_text-BarFree (some true) = (refl, tt)
bool_text-BarFree (some false) = (refl, tt)

as_str-BarFree : (t : ProxyType) → BarFree (as_str t)
unfolding as_str
as_str-BarFree ss = ground arith
as_str-BarFree _ = ground arith

tagged-BarFree : (key : Text) (o : Option Text) → BarFree key → AllBarFree (tagged key o)
tagged-BarFree key none h = tt
tagged-BarFree key (some []) h = tt
tagged-BarFree key (some (c ∷ v)) h = (All-append NotBar key _ h (esc-BarFree (c ∷ v)), tt)

tagged_number-BarFree : (key : Text) (o : Option ℕ) → BarFree key → AllBarFree (tagged_number key o)
tagged_number-BarFree key none h = tt
tagged_number-BarFree key (some n) h = (All-append NotBar key _ h (decimal-BarFree n), tt)

tagged_any-BarFree : (key : Text) (o : Option Text) → BarFree key → AllBarFree (tagged_any key o)
tagged_any-BarFree key none h = tt
tagged_any-BarFree key (some v) h = (All-append NotBar key _ h (esc-BarFree v), tt)

tagged_bool-BarFree : (key : Text) (o : Option Bool) → BarFree key → AllBarFree (tagged_bool key o)
tagged_bool-BarFree key none h = tt
tagged_bool-BarFree key (some b) h = (All-append NotBar key _ h (bool_text-BarFree (some b)), tt)

alpn_parts-BarFree : (o : Option (List Text)) → AllBarFree (alpn_parts o)
alpn_parts-BarFree none = tt
alpn_parts-BarFree (some []) = tt
alpn_parts-BarFree (some (a ∷ l)) =
    (All-append NotBar (lit "alpn=") _ (ground arith) (esc-BarFree _), tt)

-- Parts one after another.
both : (xs ys : List Text) → AllBarFree xs → AllBarFree ys → AllBarFree (xs ++ ys)
both = All-append BarFree

module _ (p : Proxy) where
  tunnel_credential-BarFree : AllBarFree (tunnel_credential p)
  tunnel_credential-BarFree = (
    esc-BarFree _,
    (
      esc-BarFree _,
      (
        esc-BarFree _,
        (
          bool_text-BarFree p.tls,
          (esc-BarFree _, (decimal-BarFree _, (esc-BarFree _, (esc-BarFree _, tt)))),
        ),
      ),
    ),
  )

  password_credential-BarFree : AllBarFree (password_credential p)
  password_credential-BarFree =
      (esc-BarFree _, (esc-BarFree _, (esc-BarFree _, (esc-BarFree _, (esc-BarFree _, tt)))))

  pub credential-BarFree : (t : ProxyType) → AllBarFree (credential t p)
  unfolding credential
  credential-BarFree ss = (esc-BarFree _, (esc-BarFree _, tt))
  credential-BarFree vmess = tunnel_credential-BarFree
  credential-BarFree vless = tunnel_credential-BarFree
  credential-BarFree tuic = tunnel_credential-BarFree
  credential-BarFree wireguard = (esc-BarFree _, password_credential-BarFree)
  credential-BarFree other = (esc-BarFree _, password_credential-BarFree)
  credential-BarFree _ = password_credential-BarFree

  reality_when-BarFree :
      (b : Bool)
      → AllBarFree (
          if b
          then lit "reality" ∷ tagged (lit "pk=") p.reality_public_key
            ++ tagged (lit "sid=") p.reality_short_id
          else [])
  reality_when-BarFree false = tt
  reality_when-BarFree true =
      both (lit "reality" ∷ tagged (lit "pk=") p.reality_public_key) _
        (ground arith, tagged-BarFree (lit "pk=") p.reality_public_key (ground arith))
        (tagged-BarFree (lit "sid=") p.reality_short_id (ground arith))

  tunnel_parts-BarFree : AllBarFree (tunnel_parts p)
  tunnel_parts-BarFree =
      both (tagged (lit "h=") p.host ++ tagged (lit "svc=") p.service_name) _
        (both (tagged (lit "h=") p.host) _ (tagged-BarFree (lit "h=") p.host (ground arith))
          (tagged-BarFree (lit "svc=") p.service_name (ground arith)))
        (reality_when-BarFree p.reality)

  tuic_parts-BarFree : AllBarFree (tuic_parts p)
  tuic_parts-BarFree =
      both
        (tagged_any (lit "cc=") p.congestion_control
          ++ tagged_any (lit "urm=") p.udp_relay_mode
          ++ tagged_bool (lit "uos=") p.udp_over_stream)
        _
        (both
          (tagged_any (lit "cc=") p.congestion_control ++ tagged_any (lit "urm=") p.udp_relay_mode)
          _
          (both (tagged_any (lit "cc=") p.congestion_control) _
            (tagged_any-BarFree (lit "cc=") p.congestion_control (ground arith))
            (tagged_any-BarFree (lit "urm=") p.udp_relay_mode (ground arith)))
          (tagged_bool-BarFree (lit "uos=") p.udp_over_stream (ground arith)))
        (tagged_bool-BarFree (lit "zrtt=") p.zero_rtt_handshake (ground arith))

  hysteria2_parts-BarFree : AllBarFree (
      tagged (lit "obfs=") p.obfs
      ++ tagged (lit "opw=") p.obfs_password
      ++ tagged_number (lit "up=") p.up_mbps
      ++ tagged_number (lit "down=") p.down_mbps)
  hysteria2_parts-BarFree =
      both
        (tagged (lit "obfs=") p.obfs
          ++ tagged (lit "opw=") p.obfs_password
          ++ tagged_number (lit "up=") p.up_mbps)
        _
        (both (tagged (lit "obfs=") p.obfs ++ tagged (lit "opw=") p.obfs_password) _
          (both (tagged (lit "obfs=") p.obfs) _ (tagged-BarFree (lit "obfs=") p.obfs (ground arith))
            (tagged-BarFree (lit "opw=") p.obfs_password (ground arith)))
          (tagged_number-BarFree (lit "up=") p.up_mbps (ground arith)))
        (tagged_number-BarFree (lit "down=") p.down_mbps (ground arith))

  with_alpn : (xs : List Text) → AllBarFree xs → AllBarFree (xs ++ alpn_parts p.alpn)
  with_alpn xs h = both xs _ h (alpn_parts-BarFree p.alpn)

  pub extra_parts-BarFree : (t : ProxyType) → AllBarFree (extra_parts t p)
  unfolding extra_parts
  extra_parts-BarFree vmess = with_alpn (tunnel_parts p) tunnel_parts-BarFree
  extra_parts-BarFree vless = with_alpn (tunnel_parts p) tunnel_parts-BarFree
  extra_parts-BarFree tuic =
      both (tunnel_parts p ++ alpn_parts p.alpn) _ (with_alpn (tunnel_parts p) tunnel_parts-BarFree)
        tuic_parts-BarFree
  extra_parts-BarFree ss =
      with_alpn (tagged (lit "plugin=") p.plugin ++ tagged (lit "opts=") p.plugin_opts) (
        both (tagged (lit "plugin=") p.plugin) _
          (tagged-BarFree (lit "plugin=") p.plugin (ground arith))
          (tagged-BarFree (lit "opts=") p.plugin_opts (ground arith)))
  extra_parts-BarFree hysteria2 = with_alpn _ hysteria2_parts-BarFree
  extra_parts-BarFree _ = alpn_parts-BarFree p.alpn

-- The parts that a fingerprint joins.
abbrev pub parts : Proxy → List Text
parts p =
    as_str p.type_ ∷ esc p.server ∷ decimal p.port ∷ esc p.name ∷ credential p.type_ p
    ++ extra_parts p.type_ p

pub parts-BarFree : (p : Proxy) → AllBarFree (parts p)
parts-BarFree p = (
  as_str-BarFree p.type_,
  (
    esc-BarFree p.server,
    (
      decimal-BarFree p.port,
      (
        esc-BarFree p.name,
        both (credential p.type_ p) _ (credential-BarFree p p.type_)
            (extra_parts-BarFree p p.type_),
      ),
    ),
  ),
)

pub length-credential :
    (p q : Proxy) (t : ProxyType) → length (credential t p) ≡ length (credential t q)
unfolding credential
length-credential p q ss = refl
length-credential p q _ = refl

credential-cons :
    (p : Proxy) (t : ProxyType) → (c : Text) × (cs : List Text) × (credential t p ≡ c ∷ cs)
unfolding credential
credential-cons p ss = (_, _, refl)
credential-cons p _ = (_, _, refl)

join-append :
    (c : Text) (cs es : List Text) → join bar (c ∷ cs ++ es) ≡ with_extra (join bar (c ∷ cs)) es
unfolding join
join-append c [] [] = refl
join-append c [] (e ∷ es) = refl
join-append c (d ∷ cs) [] = ap (λ t. c ++ bar ∷ t) (join-append d cs [])
join-append c (d ∷ cs) (e ∷ es) =
    ap (λ t. c ++ bar ∷ t) (join-append d cs (e ∷ es)) ∙ sym (append_assoc c _ _)

-- The last part of a join may itself be a join.
join_last :
    (a b c d w x : Text) (xs : List Text)
    → w ≡ join bar (x ∷ xs)
    → join bar (a ∷ b ∷ c ∷ d ∷ w ∷ []) ≡ join bar (a ∷ b ∷ c ∷ d ∷ x ∷ xs)
unfolding join
join_last a b c d w x xs e = rw e

-- The fingerprint is the join of the parts.
pub fingerprint-parts : (p : Proxy) → fingerprint p ≡ join bar (parts p)
unfolding fingerprint
fingerprint-parts p =
    let (c, cs, e) = credential-cons p p.type_ in
    rw e (join_last _ _ _ _ _ c _ (sym (join-append c cs (extra_parts p.type_ p))))
