-- ===== src/Parse/Authority/RoundTrip.antt =====
-- An authority is read back from its notation, and a port that is read is one.
use sub_hub.Common.{
  ℕ, ◌≤◌, ◌<◌, ◌≡◌, refl, ap, Bool, true, false, none, some, [], ◌∷◌, ◌++◌, Text, ◌==◌, is_digit,
  split_once, trim_start_of, All, All-append, arith, Option-cases, Bool-cases, inl, inr,
}
use sub_hub.Common.Decimal.{decimal, decimal-All}
use sub_hub.Parse.Dates.{parse_unsigned}
use sub_hub.Parse.Dates.RoundTrip.{
  split_once-append, parse_unsigned-decimal, All-weaken, digit-is_no,
}
use sub_hub.Parse.Authority.{
  Auth, rsplit_once, leading_digits, leading_port, is_bracketed, bracketed, plain, host_and_port,
  query_pairs, userinfo_of, before_query, split_authority,
}

-- The character does not occur.
abbrev pub Lacks : ℕ → Text → Type 0
Lacks c = All (λ x. (x == c) ≡ false)

rsplit_once-none : (c : ℕ) (s : Text) → Lacks c s → rsplit_once c s ≡ none
unfolding rsplit_once
rsplit_once-none c [] h = refl
rsplit_once-none c (x ∷ s) h = rw (rsplit_once-none c s h.1, h.0)

rsplit_once-append : (c : ℕ) (s t : Text) → Lacks c t → rsplit_once c (s ++ c ∷ t) ≡ some (s, t)
unfolding rsplit_once
rsplit_once-append c [] t h =
    let same : (c == c) ≡ true = ground arith in rw (rsplit_once-none c t h, same)
rsplit_once-append c (x ∷ s) t h = rw (rsplit_once-append c s t h, rsplit_once)

-- The text does not begin with a digit.
abbrev pub starts_with_digit : Text → Bool
starts_with_digit [] = false
starts_with_digit (c ∷ s) = is_digit c

leading_digits-append :
    (s t : Text)
    → All (λ c. is_digit c ≡ true) s
    → starts_with_digit t ≡ false
    → leading_digits (s ++ t) ≡ s
unfolding leading_digits
leading_digits-append [] [] h k = refl
leading_digits-append [] (c ∷ t) h k = rw k
leading_digits-append (c ∷ s) t h k = rw h.0 (ap (λ l. c ∷ l) (leading_digits-append s t h.1 k))

leading_port-decimal :
    (port : ℕ) (t : Text)
    → 0 < port
    → port ≤ 65535
    → starts_with_digit t ≡ false
    → leading_port (decimal port ++ t) ≡ some port
unfolding leading_port
leading_port-decimal port t low high k =
    let some_port : (port == 0) ≡ false = ground arith in
    rw (
      leading_port,
      leading_digits-append (decimal port) t (decimal-All port) k,
      parse_unsigned-decimal 65535 port high (omega arith),
      some_port,
    )

Lacks-decimal : (c n : ℕ) → is_digit c ≡ false → Lacks c (decimal n)
Lacks-decimal c n h = All-weaken (digit-is_no c h) (decimal n) (decimal-All n)

is_bracketed-append :
    (host t : Text) → is_bracketed host ≡ false → is_bracketed (host ++ 58 ∷ t) ≡ false
is_bracketed-append [] t h = refl
is_bracketed-append (c ∷ host) t h = h

host_and_port-append :
    (host path : Text) (port : ℕ)
    → is_bracketed host ≡ false
    → 0 < port
    → port ≤ 65535
    → starts_with_digit path ≡ false
    → Lacks 58 path
    → host_and_port (host ++ 58 ∷ (decimal port ++ path)) ≡ some (host, port)
unfolding host_and_port plain is_digit
host_and_port-append host path port h low high k l = rw (
  host_and_port,
  is_bracketed-append host (decimal port ++ path) h,
  plain,
  rsplit_once-append 58 host (decimal port ++ path)
      (All-append _ (decimal port) path (Lacks-decimal 58 port refl) l),
  leading_port-decimal port path low high k,
)

leading_port-bounds :
    (s : Text) (port : ℕ) → leading_port s ≡ some port → (0 < port) × (port ≤ 65535)
unfolding leading_port parse_unsigned
leading_port-bounds s port e = ground arith

bracketed-port :
    (t host : Text) (port : ℕ) → bracketed t ≡ some (host, port) → (0 < port) × (port ≤ 65535)
unfolding bracketed
bracketed-port t host port e = elim (Option-cases (split_once 93 t)) [
  | inl n ↦ absurd (ground (arith, n))
  | inr ((front, rest), f) ↦
      leading_port-bounds (trim_start_of (λ c. c == 58) rest) port (ground (arith, f))
]

plain-port : (t host : Text) (port : ℕ) → plain t ≡ some (host, port) → (0 < port) × (port ≤ 65535)
unfolding plain
plain-port t host port e = elim (Option-cases (rsplit_once 58 t)) [
  | inl n ↦ absurd (ground (arith, n))
  | inr ((front, rest), f) ↦ leading_port-bounds rest port (ground (arith, f))
]

host_and_port-port :
    (t host : Text) (port : ℕ) → host_and_port t ≡ some (host, port) → (0 < port) × (port ≤ 65535)
unfolding host_and_port
host_and_port-port t host port e = elim (Bool-cases (is_bracketed t)) [
  | inl b ↦ bracketed-port t host port (ground (arith, b))
  | inr b ↦ plain-port t host port (ground (arith, b))
]

before_query-append :
    (left query : Text) → Lacks 63 left → before_query (left ++ 63 ∷ query) ≡ (left, query)
unfolding before_query
before_query-append left query h = rw (before_query, split_once-append 63 left query h)

module _ (decode_percent : Text → Text) where
  -- A user part without `?`, a host without `?` and `@` that does not begin with `[`, a port from 1 to
  -- 65535, a rest that does not begin with a digit and has no `?`, `@` and `:`, and a query: the
  -- authority that is written with them is split into the decoded user part, the host, the port
  -- and the pairs of the query, colons in the host and `@` in the user part included.
  pub split_authority-append :
      (user host path query : Text) (port : ℕ)
      → Lacks 63 user
      → Lacks 63 host
      → Lacks 64 host
      → is_bracketed host ≡ false
      → 0 < port
      → port ≤ 65535
      → starts_with_digit path ≡ false
      → Lacks 63 path × Lacks 64 path × Lacks 58 path
      → split_authority decode_percent
          ((user ++ 64 ∷ (host ++ 58 ∷ (decimal port ++ path))) ++ 63 ∷ query)
        ≡ some (record {
          userinfo = decode_percent user;
          host = host;
          port = port;
          query = query_pairs decode_percent query;
        })
  unfolding split_authority userinfo_of is_digit
  split_authority-append user host path query port hu hh hat hb low high hd hp =
      let server = host ++ 58 ∷ (decimal port ++ path) in
      let no_question : Lacks 63 (user ++ 64 ∷ server) = All-append _ user (64 ∷ server) hu (
        refl,
        All-append _ host (58 ∷ (decimal port ++ path)) hh
            (refl, All-append _ (decimal port) path (Lacks-decimal 63 port refl) hp.0),
      ) in
      let no_at : Lacks 64 server =
        All-append _ host (58 ∷ (decimal port ++ path)) hat
          (refl, All-append _ (decimal port) path (Lacks-decimal 64 port refl) hp.1) in
      rw
        (
          split_authority,
          before_query-append (user ++ 64 ∷ server) query no_question,
          userinfo_of,
          rsplit_once-append 64 user server no_at,
          host_and_port-append host path port hb low high hd hp.2,
        )
        (simp (
          before_query-append (user ++ 64 ∷ server) query no_question,
          userinfo_of,
          rsplit_once-append 64 user server no_at,
        ))

  -- Whatever the text is, an authority that is read has a port from 1 to 65535.
  pub split_authority-port :
      (body : Text) (auth : Auth)
      → split_authority decode_percent body ≡ some auth
      → (0 < auth.port) × (auth.port ≤ 65535)
  unfolding split_authority
  split_authority-port body auth e =
      let server = (userinfo_of decode_percent (before_query body).0).1 in
      elim (Option-cases (host_and_port server)) [
        | inl n ↦ absurd (ground (arith, n))
        | inr ((host, port), f) ↦
            let (low, high) = host_and_port-port server host port f in ground (arith, f, low, high)
      ]
