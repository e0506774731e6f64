-- ===== src/Common/Strings.antt =====
-- Texts as lists of Unicode scalar values, with the `str` methods that the program calls.
use Prim.Native.Nat.{ℕ, ◌+◌}
use Prim.Native.Char.{code}
use Prim.Native.String.{String}
use mathlib.Core.Path.{◌≡◌, refl}
use mathlib.Core.Logic.{◌↔◌}
use mathlib.Core.Bool.{Bool, true, false, ◌&&◌, ◌||◌}
use mathlib.Core.Option.{Option, none, some}
use mathlib.Core.List.{List, [], ◌∷◌, ◌++◌, map, reverse}
use native.Mathlib.Omega.{arith}
use sub_hub.Common.Tests.{leb, ◌==◌, if◌then◌else◌}

abbrev pub Text : Type 0
Text = List ℕ

-- The scalar values of a literal.
abbrev pub lit : String → Text
lit String.[] = []
lit (String.◌∷◌ c s) = code c ∷ lit s

unfoldable pub text_eq : Text → Text → Bool
text_eq [] [] = true
text_eq [] (_ ∷ _) = false
text_eq (_ ∷ _) [] = false
text_eq (a ∷ s) (b ∷ t) = a == b && text_eq s t

pub text_eq_refl : (s : Text) → text_eq s s ≡ true
unfolding text_eq
text_eq_refl [] = refl
text_eq_refl (a ∷ s) = ground (arith, text_eq_refl s)

pub text_eq→eq : (s t : Text) → text_eq s t ≡ true → s ≡ t
unfolding text_eq
text_eq→eq [] [] h = refl
text_eq→eq [] (b ∷ t) h = ground arith
text_eq→eq (a ∷ s) [] h = ground arith
text_eq→eq (a ∷ s) (b ∷ t) h = ground (arith, text_eq→eq s t)

pub eq→text_eq : (s t : Text) → s ≡ t → text_eq s t ≡ true
eq→text_eq s t e = ground (arith, text_eq_refl s)

pub text_eq_iff : (s t : Text) → (text_eq s t ≡ true) ↔ (s ≡ t)
text_eq_iff s t = (text_eq→eq s t, eq→text_eq s t)

-- `HashSet::contains` on a set of texts.
unfoldable pub contains_text : List Text → Text → Bool
contains_text [] t = false
contains_text (s ∷ ss) t = text_eq t s || contains_text ss t

abbrev pub is_empty : Text → Bool
is_empty [] = true
is_empty (_ ∷ _) = false

-- `Option<String>` that is present and not empty.
abbrev pub non_empty : Option Text → Option Text
non_empty none = none
non_empty (some []) = none
non_empty (some (c ∷ s)) = some (c ∷ s)

unfoldable pub starts_with : Text → Text → Bool
starts_with s [] = true
starts_with [] (c ∷ t) = false
starts_with (b ∷ s) (c ∷ t) = b == c && starts_with s t

-- `hay.contains(needle)`.
unfoldable pub contains : Text → Text → Bool
unfolding starts_with
contains [] needle = is_empty needle
contains (c ∷ s) needle = starts_with (c ∷ s) needle || contains s needle

-- `s.replace(c, d)` for two characters.
unfoldable pub replace_char : ℕ → ℕ → Text → Text
replace_char c d = map (λ x. if x == c then d else x)

-- `s.split_once(c)`.
unfoldable pub split_once : ℕ → Text → Option (Text × Text)
split_once c [] = none
split_once c (x ∷ s) =
    if x == c
    then some ([], s)
    else elim (split_once c s) [ none ↦ none | some (a, b) ↦ some (x ∷ a, b) ]

-- `s.split(f)` for a test on characters: never empty.
unfoldable pub split_at : (ℕ → Bool) → Text → List Text
split_at f [] = [] ∷ []
split_at f (x ∷ s) =
    if f x
    then [] ∷ split_at f s
    else elim (split_at f s) [ [] ↦ (x ∷ []) ∷ [] | t ∷ ts ↦ (x ∷ t) ∷ ts ]

-- `u8::to_ascii_lowercase` on a character.
unfoldable pub ascii_lower : ℕ → ℕ
ascii_lower c = if leb 65 c && leb c 90 then c + 32 else c

unfoldable pub to_ascii_lowercase : Text → Text
unfolding ascii_lower
to_ascii_lowercase = map ascii_lower

unfoldable pub is_digit : ℕ → Bool
is_digit c = leb 48 c && leb c 57

-- `items.join(sep)` for a one-character separator.
unfoldable pub join : ℕ → List Text → Text
join sep [] = []
join sep (t ∷ []) = t
join sep (t ∷ u ∷ ts) = t ++ sep ∷ join sep (u ∷ ts)

-- `char::is_whitespace`, the White_Space property of Unicode.
unfoldable pub is_whitespace : ℕ → Bool
is_whitespace c =
    (leb 9 c && leb c 13)
    || c == 0x20
    || c == 0x85
    || c == 0xA0
    || c == 0x1680
    || (leb 0x2000 c && leb c 0x200A)
    || c == 0x2028
    || c == 0x2029
    || c == 0x202F
    || c == 0x205F
    || c == 0x3000

unfoldable pub trim_start_of : (ℕ → Bool) → Text → Text
trim_start_of f [] = []
trim_start_of f (c ∷ s) = if f c then trim_start_of f s else c ∷ s

-- `s.trim_matches(f)`.
unfoldable pub trim_matches : (ℕ → Bool) → Text → Text
unfolding trim_start_of
trim_matches f s = reverse (trim_start_of f (reverse (trim_start_of f s)))

-- `s.trim()`.
unfoldable pub trim : Text → Text
unfolding trim_matches is_whitespace
trim = trim_matches is_whitespace
