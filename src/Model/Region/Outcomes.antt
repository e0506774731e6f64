-- ===== src/Model/Region/Outcomes.antt =====
-- What `Proxy::region` can return, and which tier decides.
use sub_hub.Common.{
  ℕ, ◌≡◌, refl, ◌∙◌, Bool, true, false, not, ◌&&◌, Option, none, some, List, [], ◌∷◌, ◌++◌, Text,
  lit, leb, every, arith, text_eq,
}
use sub_hub.Model.Proxy.{Proxy}
use sub_hub.Model.Region.{
  Unicode, is_flag, flag_letter, flag_scan, find_needle, find_exact, find_code, first_token,
  region_of_text, region, tokens, haystack,
}
use sub_hub.Model.Region.Names.{name_table_head, name_table_rest}
use sub_hub.Model.Region.Codes.{code3_table, code_table}

-- Two capital letters, or `OTHER`.
unfoldable pub is_region_code : Text → Bool
is_region_code (a ∷ b ∷ []) = leb 65 a && leb a 90 && leb 65 b && leb b 90
is_region_code t = text_eq t (lit "OTHER")

-- Every region of a table is one.
codes_good : List (Text × Text) → Bool
codes_good = every (λ e. is_region_code e.1)

abbrev good : Option Text → Bool
good none = true
good (some t) = is_region_code t

names_good : codes_good (name_table_head ++ name_table_rest) ≡ true
unfolding codes_good is_region_code name_table_head name_table_rest
names_good = refl

code3_good : codes_good code3_table ≡ true
unfolding codes_good is_region_code code3_table
code3_good = refl

code_good : codes_good code_table ≡ true
unfolding codes_good is_region_code code_table
code_good = refl

other_good : is_region_code (lit "OTHER") ≡ true
unfolding is_region_code text_eq
other_good = refl

find_needle-good :
    (hay : Text) (l : List (Text × Text)) → codes_good l ≡ true → good (find_needle hay l) ≡ true
unfolding find_needle codes_good
find_needle-good hay [] h = refl
find_needle-good hay ((n, c) ∷ l) h = ground (arith, find_needle-good hay l)

find_exact-good :
    (t : Text) (l : List (Text × Text)) → codes_good l ≡ true → good (find_exact t l) ≡ true
unfolding find_exact codes_good
find_exact-good t [] h = refl
find_exact-good t ((n, c) ∷ l) h = ground (arith, find_exact-good t l)

find_code-good :
    (u : Unicode) (t : Text) (l : List (Text × Text))
    → codes_good l ≡ true
    → good (find_code u t l) ≡ true
unfolding find_code codes_good
find_code-good u t [] h = refl
find_code-good u t ((n, c) ∷ l) h = ground (arith, find_code-good u t l)

first_token-good :
    (f : Text → Option Text)
    → ((t : Text) → good (f t) ≡ true)
    → (ts : List Text) → good (first_token f ts) ≡ true
unfolding first_token
first_token-good f h [] = refl
first_token-good f h (t ∷ ts) = ground (arith, h t, first_token-good f h ts)

flag_scan-good : (prev : Option ℕ) (s : Text) → good (flag_scan prev s) ≡ true
unfolding flag_scan is_region_code
flag_scan-good none [] = refl
flag_scan-good (some a) [] = refl
flag_scan-good none (b ∷ s) = flag_scan-good (some b) s
flag_scan-good (some a) (b ∷ s) = ground (arith, flag_scan-good (some b) s)

region_of_text-good : (u : Unicode) (hay : Text) → is_region_code (region_of_text u hay) ≡ true
unfolding region_of_text
region_of_text-good u hay = ground (
  arith,
  find_needle-good hay _ names_good,
  first_token-good (λ t. find_exact t code3_table) (λ t. find_exact-good t _ code3_good)
      (tokens u hay),
  first_token-good (λ t. find_code u t code_table) (λ t. find_code-good u t _ code_good)
      (tokens u hay),
  other_good,
)

-- The region of a node is two capital ASCII letters or `OTHER`, whatever the Unicode tables are.
region-is_region_code : (u : Unicode) (p : Proxy) → is_region_code (region u p) ≡ true
unfolding region
region-is_region_code u p =
    ground (arith, flag_scan-good none p.name, region_of_text-good u (haystack u p))

abbrev last : ℕ → Text → ℕ
last x [] = x
last x (c ∷ s) = last c s

last-not_flag :
    (x : ℕ) (pre : Text)
    → every (λ c. not (is_flag c)) (x ∷ pre) ≡ true
    → is_flag (last x pre) ≡ false
last-not_flag x [] h = ground arith
last-not_flag x (c ∷ pre) h = last-not_flag c pre (ground arith)

flag_scan-skip :
    (x : ℕ) (pre s : Text)
    → every (λ c. not (is_flag c)) (x ∷ pre) ≡ true
    → flag_scan (some x) (pre ++ s) ≡ flag_scan (some (last x pre)) s
unfolding flag_scan
flag_scan-skip x [] s h = refl
flag_scan-skip x (c ∷ pre) s h = ground (arith, flag_scan-skip c pre s)

flag_scan-flag :
    (pre post : Text) (a b : ℕ)
    → every (λ c. not (is_flag c)) pre ≡ true
    → is_flag a ≡ true
    → is_flag b ≡ true
    → flag_scan none (pre ++ a ∷ b ∷ post) ≡ some (flag_letter a ∷ flag_letter b ∷ [])
unfolding flag_scan
flag_scan-flag [] post a b h ha hb = rw (ha, hb)
flag_scan-flag (x ∷ pre) post a b h ha hb =
    flag_scan-skip x pre (a ∷ b ∷ post) h ∙ rw (last-not_flag x pre h, ha, hb)

-- In a name, the first two regional indicators that stand together behind characters that are
-- none decide the region, before the name tables, the server and the tokens are looked at.
region-flag :
    (u : Unicode) (p : Proxy) (pre post : Text) (a b : ℕ)
    → every (λ c. not (is_flag c)) pre ≡ true
    → is_flag a ≡ true
    → is_flag b ≡ true
    → p.name ≡ pre ++ a ∷ b ∷ post
    → region u p ≡ flag_letter a ∷ flag_letter b ∷ []
unfolding region
region-flag u p pre post a b h ha hb e = rw (e, flag_scan-flag pre post a b h ha hb)
