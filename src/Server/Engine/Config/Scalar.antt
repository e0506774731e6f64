-- ===== src/Server/Engine/Config/Scalar.antt =====
-- A name in the configuration of the engine stays one scalar on one line (server/src/engine.rs).
use mathlib.Core.List.{append_assoc}
use sub_hub.Common.{
  ℕ, ◌≡◌, refl, Bool, true, false, not, ◌&&◌, ◌||◌, leb, Option, none, some, [], ◌∷◌, ◌++◌, Text,
  every, ◌==◌, if◌then◌else◌, arith, Bool-cases, inl, inr, ==_iff, ap, sym, ◌∙◌,
}
use sub_hub.Server.Engine.Config.{escape_char, escape_text, escape_yaml_scalar}

-- The characters of an escape of YAML among those that are written.
abbrev pub unescaped : ℕ → Option ℕ
unescaped c =
    if c == 34
    then some 34
    else if c == 92
    then some 92
    else if c == 110
    then some 10
    else if c == 114
    then some 13
    else if c == 116
    then some 9
    else none

abbrev pub prepend : ℕ → Option (Text × Text) → Option (Text × Text)
prepend c none = none
prepend c (some (s, rest)) = some (c ∷ s, rest)

abbrev pub prepend_escape : Option ℕ → Option (Text × Text) → Option (Text × Text)
prepend_escape none r = none
prepend_escape (some c) r = prepend c r

-- The characters that YAML 1.1 and 1.2 both take as themselves in a double-quoted scalar, the quote and
-- the backslash aside: no control character, line or paragraph separator, surrogate or byte-order
-- mark, and nothing beyond Unicode.
abbrev pub is_literal : ℕ → Bool
is_literal c =
    (leb 0x20 c && leb c 0x7E)
    || (leb 0xA0 c && leb c 0x2027)
    || (leb 0x202A c && leb c 0xD7FF)
    || (leb 0xE000 c && leb c 0xFEFE)
    || (leb 0xFF00 c && leb c 0xFFFD)
    || (leb 0x10000 c && leb c 0x10FFFF)

-- How YAML reads behind the opening quote: to the first quote that is not escaped, refusing a
-- character that may not stand for itself. After a backslash the next character is read as a part of
-- the escape.
unfoldable pub read_quoted : Bool → Text → Option (Text × Text)
read_quoted after_backslash [] = none
read_quoted true (c ∷ s) = prepend_escape (unescaped c) (read_quoted false s)
read_quoted false (c ∷ s) = if c == 34 then some ([], s) else elim (c == 92) [
  | true ↦ read_quoted true s
  | false ↦ if is_literal c then prepend c (read_quoted false s) else none
]

-- A quoted scalar from its opening quote.
unfoldable pub read_scalar : Text → Option (Text × Text)
unfolding read_quoted
read_scalar [] = none
read_scalar (c ∷ s) = if c == 34 then read_quoted false s else none

-- A character that stands for itself, or one of the three that are written as escapes besides the
-- quote and the backslash.
abbrev pub can_stand : ℕ → Bool
can_stand c = c == 9 || c == 10 || c == 13 || is_literal c

read_quoted-escape_char :
    (c : ℕ) (rest : Text)
    → can_stand c ≡ true
    → read_quoted false (escape_char c ++ rest) ≡ prepend c (read_quoted false rest)
unfolding read_quoted escape_char
read_quoted-escape_char c rest fit = elim (Bool-cases (c == 34)) [
  | inl quote ↦ rw quote (same ((==_iff c 34).0 quote))
  | inr e1 ↦ rw e1 (elim (Bool-cases (c == 92)) [
    | inl backslash ↦ rw backslash (same ((==_iff c 92).0 backslash))
    | inr e2 ↦ rw e2 (elim (Bool-cases (c == 10)) [
      | inl break ↦ rw break (same ((==_iff c 10).0 break))
      | inr e3 ↦ rw e3 (elim (Bool-cases (c == 13)) [
        | inl return ↦ rw return (same ((==_iff c 13).0 return))
        | inr e4 ↦ rw e4 (elim (Bool-cases (c == 9)) [
          | inl tab ↦ rw tab (same ((==_iff c 9).0 tab))
          | inr e5 ↦
              let literal : is_literal c ≡ true = rw (e3, e4, e5) at fit in
              rw e5 (rw (e1, e2, literal, read_quoted) refl)
        ])
      ])
    ])
  ])
]
  where
    same : {d : ℕ} → c ≡ d → prepend d (read_quoted false rest) ≡ prepend c (read_quoted false rest)
    same e = ap (λ x. prepend x (read_quoted false rest)) (sym e)

read_quoted-escape_text :
    (s rest : Text)
    → every can_stand s ≡ true
    → read_quoted false (escape_text s ++ 34 ∷ rest) ≡ some (s, rest)
unfolding escape_text read_quoted
read_quoted-escape_text [] rest fit = refl
read_quoted-escape_text (c ∷ s) rest fit =
    let (here, later) = both (can_stand c) (every can_stand s) fit in
    rw (append_assoc (escape_char c) (escape_text s) (34 ∷ rest)) (
      read_quoted-escape_char c (escape_text s ++ 34 ∷ rest) here
      ∙ ap (prepend c) (read_quoted-escape_text s rest later))
  where
    both : (a b : Bool) → (a && b) ≡ true → (a ≡ true) × (b ≡ true)
    both true b h = (refl, h)
    both false b h = cc

-- A name of printable characters, tabs and line breaks that is written into the configuration is a
-- double-quoted scalar that is read back as it is, up to its closing quote, whatever follows it: it
-- may have quotes and backslashes, but no control character besides these three, no line or paragraph
-- separator and no byte-order mark.
pub read_scalar-escape_yaml_scalar :
    (s rest : Text)
    → every can_stand s ≡ true
    → read_scalar (escape_yaml_scalar s ++ rest) ≡ some (s, rest)
unfolding read_scalar escape_yaml_scalar
read_scalar-escape_yaml_scalar s rest fit =
    rw (append_assoc (escape_text s) (34 ∷ []) rest) (read_quoted-escape_text s rest fit)

-- No line break and no tab.
abbrev pub is_plain : ℕ → Bool
is_plain c = not (c == 10) && not (c == 13) && not (c == 9)

every-append : (s t : Text) → every is_plain (s ++ t) ≡ every is_plain s && every is_plain t
every-append [] t = refl
every-append (c ∷ s) t = ground (arith, every-append s t)

escape_char-plain : (c : ℕ) → every is_plain (escape_char c) ≡ true
unfolding escape_char
escape_char-plain c = ground arith

escape_text-plain : (s : Text) → every is_plain (escape_text s) ≡ true
unfolding escape_text
escape_text-plain [] = refl
escape_text-plain (c ∷ s) =
    rw (every-append (escape_char c) (escape_text s), escape_char-plain c, escape_text-plain s) refl

-- A name written into the configuration has no line break and no tab, so that no part of it stands on
-- a line of its own.
pub escape_yaml_scalar-plain : (s : Text) → every is_plain (escape_yaml_scalar s) ≡ true
unfolding escape_yaml_scalar
escape_yaml_scalar-plain s = rw (every-append (escape_text s) (34 ∷ []), escape_text-plain s) refl
