-- ===== src/Server/Backup/Accounting.antt =====
-- What `import_subscriptions` does with any request.
use mathlib.Core.Path.{ap}
use sub_hub.Common.{
  ℕ, zero, suc, ◌+◌, ◌≤◌, ◌<◌, ◌≡◌, refl, Bool, true, false, not, ◌&&◌, Option, none, some, List,
  [], ◌∷◌, ◌++◌, Text, length, get_elem?, All, All-append, length-append, is_empty, trim, arith,
  if◌then◌else◌, Bool-cases, inl, inr,
}
use sub_hub.Common.Lookup.{lookup_last-All}
use sub_hub.Model.Subscription.{Subscription, Counters}
use sub_hub.Server.Backup.{
  SubExportItem, Import, by_url_from, positions, position, only, target, is_remote, set_at,
  import_one, import_from, incoming, import_subscriptions, append_to, appending, replace_at, place,
  replacing, pasted_uid, pasted_name,
}

position-lt :
    {A : Type 0} (f : A → Bool) (j i : ℕ) (xs : List A)
    → position f j xs ≡ some i
    → i < j + length xs
unfolding position
position-lt f j i [] h = ground arith
position-lt f j i (x ∷ xs) h = ground (arith, position-lt f (suc j) i xs)

positions-lt :
    {A : Type 0} (f : A → Bool) (j n : ℕ) (xs : List A)
    → j + length xs ≤ n
    → All (λ i. i < n) (positions f j xs)
unfolding positions
positions-lt f j n [] h = tt
positions-lt f j n (x ∷ xs) h =
    let rest = positions-lt f (suc j) n xs (omega (arith, h)) in
    elim (Bool-cases (f x)) [ inl e ↦ rw e (omega (arith, h), rest) | inr e ↦ rw e rest ]

only-lt : (n i : ℕ) (is : List ℕ) → All (λ j. j < n) is → only is ≡ some i → i < n
only-lt n i [] h e = ground arith
only-lt n i (j ∷ []) h e = ground (arith, h.0)
only-lt n i (j ∷ k ∷ is) h e = ground arith

length-set_at {ℓ} : {A : Type ℓ} (i : ℕ) (y : A) (xs : List A) → length (set_at i y xs) ≡ length xs
length-set_at i y [] = refl
length-set_at zero y (x ∷ xs) = refl
length-set_at (suc i) y (x ∷ xs) = ap suc (length-set_at i y xs)

get_elem?-lt {ℓ} :
    {A : Type ℓ} (i : ℕ) (xs : List A) → i < length xs → (x : A) × (get_elem? xs i ≡ some x)
get_elem?-lt i [] h = absurd (omega (arith, h))
get_elem?-lt zero (x ∷ xs) h = (x, refl)
get_elem?-lt (suc i) (x ∷ xs) h = get_elem?-lt i xs (omega (arith, h))

abbrev Indexed : ℕ → List (Text × ℕ) → Type 0
Indexed n m = All (λ e. e.1 < n) m

by_url_from-Indexed :
    (i n : ℕ) (ss : List Subscription) → i + length ss ≤ n → Indexed n (by_url_from i ss)
unfolding by_url_from
by_url_from-Indexed i n [] h = tt
by_url_from-Indexed i n (s ∷ ss) h =
    let rest = by_url_from-Indexed (suc i) n ss (omega (arith, h)) in
    elim (Bool-cases (is_remote s.source && not (is_empty (trim s.source)))) [
      | inl e ↦ rw e (omega (arith, h), rest)
      | inr e ↦ rw e rest
    ]

Indexed-le : (n n' : ℕ) (m : List (Text × ℕ)) → n ≤ n' → Indexed n m → Indexed n' m
Indexed-le n n' [] h k = tt
Indexed-le n n' (e ∷ m) h k = (omega (arith, h, k.0), Indexed-le n n' m h k.1)

target-lt :
    (m : List (Text × ℕ)) (guard : List Subscription) (it : SubExportItem) (i : ℕ)
    → Indexed (length guard) m
    → target m guard it ≡ some i
    → i < length guard
unfolding target
target-lt m guard it i h e = elim (Bool-cases (is_remote it.source)) [
  | inl r ↦ lookup_last-All (λ _ j. j < length guard) it.source i m h (ground (arith, r, e))
  | inr r ↦ elim (Bool-cases (not (is_empty (trim it.uid)))) [
    | inl u ↦ omega (arith, position-lt (pasted_uid it.uid) 0 i guard (ground (arith, r, u, e)))
    | inr u ↦
        let found = positions-lt (pasted_name it.name) 0 (length guard) guard (omega arith) in
        only-lt (length guard) i (positions (pasted_name it.name) 0 guard) found
          (ground (arith, r, u, e))
  ]
]

-- The invariant of the loop, after `done` entries on a store of `size` subscriptions.
abbrev Accounted : ℕ → ℕ → Import → Type 0
Accounted size done m =
    Indexed (length m.guard) m.by_url
    × (m.added + m.replaced ≡ done)
    × (length m.guard ≡ size + m.added)

Indexed-concat :
    (b : Bool) (k : Text) (n n' : ℕ) (m : List (Text × ℕ))
    → suc n ≤ n'
    → Indexed n m
    → Indexed n' (if b then m ++ (k, n) ∷ [] else m)
Indexed-concat true k n n' m l h =
    All-append (λ e. e.1 < n') m ((k, n) ∷ []) (Indexed-le n n' m (omega (arith, l)) h) (l, tt)
Indexed-concat false k n n' m l h = Indexed-le n n' m (omega (arith, l)) h

append_to-Accounted :
    (it : SubExportItem) (sub : Subscription) (size done : ℕ) (m : Import)
    → Accounted size done m
    → Accounted size (suc done) (append_to it sub m)
unfolding append_to
append_to-Accounted it sub size done m h =
    let after = m.guard ++ appending it sub ∷ [] in
    let grown = length-append m.guard (appending it sub ∷ []) in
    (
      Indexed-concat (is_remote it.source) it.source (length m.guard) (length after) m.by_url
          (omega (arith, grown)) h.0,
      omega (arith, h.1),
      omega (arith, grown, h.2),
    )

replace_at-Accounted :
    (i : ℕ) (it : SubExportItem) (old sub : Subscription) (size done : ℕ) (m : Import)
    → Accounted size done m
    → Accounted size (suc done) (replace_at i it old sub m)
unfolding replace_at replacing
replace_at-Accounted i it old sub size done m h =
    let same = length-set_at i (replacing it old sub) m.guard in
    (rw same h.0, omega (arith, h.1), omega (arith, same, h.2))

place-Accounted :
    (it : SubExportItem) (sub : Subscription) (t : Option ℕ) (size done : ℕ) (m : Import)
    → target m.by_url m.guard it ≡ t
    → Accounted size done m
    → (m' : Import) × (place it sub t m ≡ some m') × Accounted size (suc done) m'
unfolding place
place-Accounted it sub none size done m e h =
    (append_to it sub m, refl, append_to-Accounted it sub size done m h)
place-Accounted it sub (some i) size done m e h =
    let (old, found) = get_elem?-lt i m.guard (target-lt m.by_url m.guard it i h.0 e) in
    (
      replace_at i it old sub m,
      rw (found, place) refl,
      replace_at-Accounted i it old sub size done m h,
    )

import_from-Accounted :
    (clock : ℕ → ℕ) (now : ℕ) (its : List SubExportItem) (size done n : ℕ) (m : Import)
    → done + length its ≡ n
    → Accounted size done m
    → (m' : Import) × (import_from clock now its m ≡ some m') × Accounted size n m'
unfolding import_from import_one
import_from-Accounted clock now [] size done n m e h = (m, refl, (h.0, omega (arith, e, h.1), h.2))
import_from-Accounted clock now (it ∷ its) size done n m e h =
    let made = incoming clock now it m.counters in
    let (m₁, e₁, h₁) =
      place-Accounted it made.0 (target m.by_url m.guard it) size done
        (record m { counters = made.1 }) refl h in
    let (m₂, e₂, h₂) =
      import_from-Accounted clock now its size (suc done) n m₁ (omega (arith, e)) h₁ in
    (m₂, rw (import_from, import_one, e₁) e₂, h₂)

-- For every request and store, the import ends with a result (no index is out of range); the
-- entries are exactly those added and those replaced, and the store has grown by those added.
pub import_subscriptions-accounts :
    (clock : ℕ → ℕ) (now : ℕ) (items : List SubExportItem) (store : List Subscription)
    (c : Counters)
    → (m : Import) × (import_subscriptions clock now items store c ≡ some m)
      × (m.added + m.replaced ≡ length items)
      × (length m.guard ≡ length store + m.added)
unfolding import_subscriptions
import_subscriptions-accounts clock now items store c =
    let start : Import = record {
      guard = store;
      by_url = by_url_from 0 store;
      counters = c;
      added = 0;
      replaced = 0;
    } in
    let (m, e, h) =
      import_from-Accounted clock now items (length store) 0 (length items) start (omega arith)
        (by_url_from-Indexed 0 (length store) store (omega arith), omega arith, omega arith) in
    (m, e, h.1, h.2)
