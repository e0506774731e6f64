-- ===== src/Server/Nodes/Pages.antt =====
-- The pages of a list of nodes.
use Prim.Native.Nat.{min}
use native.Mathlib.Nat.{suc-mul, zero-mul, mod-eq_of_lt}
use mathlib.Core.List.{Perm}
use mathlib.Core.Path.{ap, ◌∙◌}
use sub_hub.Common.{
  ℕ, zero, suc, ◌+◌, ◌-◌, ◌*◌, ◌%◌, ◌^◌, ◌≤◌, ◌<◌, ◌≡◌, refl, sym, some, List, [], ◌∷◌, ◌++◌,
  length, take, drop, ltb, unwrap_or, arith, lit, if◌then◌else◌, Bool-cases, inl, inr,
}
use sub_hub.Common.Sort.{sort_by-perm, length-sort_by}
use sub_hub.Model.Proxy.{Proxy}
use sub_hub.Model.Subscription.{Subscription}
use sub_hub.Model.Region.{Unicode}
use sub_hub.Score.{Arithmetic}
use sub_hub.Server.Maintenance.{parse_desc}
use sub_hub.Server.Nodes.{
  ListQuery, NodeRow, sub_rows, is_listed, clamp_size, list_order, all_rows, sorted_rows,
  page_items, list_proxies,
}

module _ {A : Type 0} where
  length-drop : (n : ℕ) (xs : List A) → length (drop n xs) ≡ length xs - n
  length-drop zero xs = omega arith
  length-drop (suc n) [] = omega arith
  length-drop (suc n) (x ∷ xs) = omega (arith, length-drop n xs)

  take-all : (n : ℕ) (xs : List A) → length xs ≤ n → take n xs ≡ xs
  take-all zero [] h = refl
  take-all zero (x ∷ xs) h = absurd (omega arith)
  take-all (suc n) [] h = refl
  take-all (suc n) (x ∷ xs) h = ap (λ l. x ∷ l) (take-all n xs (omega arith))

  take-nil : (n : ℕ) → take {A = A} n [] ≡ []
  take-nil zero = refl
  take-nil (suc n) = refl

  take-add : (n m : ℕ) (xs : List A) → take (n + m) xs ≡ take n xs ++ take m (drop n xs)
  take-add zero m xs = ap (λ k. take k xs) (omega arith)
  take-add (suc n) m [] = take-nil (suc n + m) ∙ sym (take-nil m)
  take-add (suc n) m (x ∷ xs) =
      ap (λ k. take k (x ∷ xs)) (suc_add n m) ∙ ap (λ l. x ∷ l) (take-add n m xs)
    where
      suc_add : (n m : ℕ) → suc n + m ≡ suc (n + m)
      suc_add n m = omega arith

  take_empty : (n : ℕ) (xs : List A) → length xs ≡ 0 → take n xs ≡ []
  take_empty n [] h = take-nil n
  take_empty n (x ∷ xs) h = absurd (omega arith)

  take-slice :
      (start size : ℕ) (xs : List A)
      → (if ltb start (length xs)
          then take (min (start + size) (length xs) - start) (drop start xs)
          else [])
        ≡ take size (drop start xs)
  take-slice start size xs =
      let rest = length-drop start xs in
      let all = take-all size (drop start xs) in
      elim (Bool-cases (ltb start (length xs))) [
        | inl e ↦ elim (Bool-cases (ltb (start + size) (length xs))) [
          | inl f ↦ rw e (ap (λ n. take n (drop start xs)) (ground arith))
          | inr f ↦ rw e (
              take-all (min (start + size) (length xs) - start) (drop start xs)
                (ground (arith, rest))
              ∙ sym (all (ground (arith, rest))))
        ]
        | inr e ↦ rw e (sym (take_empty size (drop start xs) (ground (arith, rest))))
      ]

-- The first pages in their order, put together.
unfoldable pub pages : (ℕ → List NodeRow) → ℕ → List NodeRow
pages f zero = []
pages f (suc k) = pages f k ++ f (suc k)

page_items_lem :
    (k size : ℕ) (rows : List NodeRow)
    → k * size < 2 ^ 64
    → page_items (suc k) size rows ≡ take size (drop (k * size) rows)
unfolding page_items
page_items_lem k size rows h =
    let first : suc k - 1 ≡ k = omega arith in
    let start : k * size % 2 ^ 64 ≡ k * size = mod-eq_of_lt h in
    rw (first, start) (take-slice (k * size) size rows)

pages-page_items :
    (k size : ℕ) (rows : List NodeRow)
    → 1 ≤ size
    → k * size ≤ 2 ^ 64
    → pages (λ i. page_items i size rows) k ≡ take (k * size) rows
unfolding pages
pages-page_items zero size rows h l = ap (λ n. take n rows) (sym (zero-mul size))
pages-page_items (suc k) size rows h l =
    let more = suc-mul k size in
    cc (
      pages-page_items k size rows h (omega (arith, l, more)),
      page_items_lem k size rows (omega (arith, l, h, more)),
      take-add (k * size) size rows,
      more,
    )

-- The query for one page of a size.
abbrev pub asking : ListQuery → ℕ → ℕ → ListQuery
asking q size i = record q { page = some i; page_size = some size }

module _ (u : Unicode) (a : Arithmetic) (q : ListQuery) (size i : ℕ) where
  sub_rows-asking :
      (sub : Subscription) (ps : List Proxy)
      → sub_rows u a (asking q size i) sub ps ≡ sub_rows u a q sub ps
  unfolding sub_rows is_listed
  sub_rows-asking sub [] = refl
  sub_rows-asking sub (p ∷ ps) = rw (sub_rows-asking sub ps) refl

  all_rows-asking :
      (store : List Subscription) → all_rows u a (asking q size i) store ≡ all_rows u a q store
  unfolding all_rows
  all_rows-asking [] = refl
  all_rows-asking (sub ∷ subs) = cc (sub_rows-asking sub sub.proxies, all_rows-asking subs)

  sorted_rows-asking :
      (store : List Subscription)
      → sorted_rows u a (asking q size i) store ≡ sorted_rows u a q store
  unfolding sorted_rows
  sorted_rows-asking store = rw (all_rows-asking store) refl

  list_proxies-asking :
      (store : List Subscription)
      → 1 ≤ i
      → 1 ≤ size
      → size ≤ 500
      → (list_proxies u a (asking q size i) store).items
        ≡ page_items i size (sorted_rows u a q store)
  unfolding list_proxies
  list_proxies-asking store h l m =
      let page : (if ltb i 1 then 1 else i) ≡ i = ground arith in
      let asked : clamp_size size ≡ size = ground arith in
      rw (page, asked, sorted_rows-asking store) refl

pages-cong :
    (f g : ℕ → List NodeRow) (k : ℕ) → ((i : ℕ) → 1 ≤ i → f i ≡ g i) → pages f k ≡ pages g k
unfolding pages
pages-cong f g zero h = refl
pages-cong f g (suc k) h = cc (pages-cong f g k h, h (suc k) (omega arith))

-- The pages of a size from 1 to 500, put together up to one that reaches the end: they are the
-- nodes that pass the filters in the chosen order, none missing and none twice, if the number of
-- places on them is at most 2 ^ 64.
pub list_proxies-pages :
    (u : Unicode) (a : Arithmetic) (q : ListQuery) (store : List Subscription) (size k : ℕ)
    → 1 ≤ size
    → size ≤ 500
    → k * size ≤ 2 ^ 64
    → length (all_rows u a q store) ≤ k * size
    → (pages (λ i. (list_proxies u a (asking q size i) store).items) k ≡ sorted_rows u a q store)
      × Perm (sorted_rows u a q store) (all_rows u a q store)
unfolding sorted_rows
list_proxies-pages u a q store size k h l m n =
    let rows = sorted_rows u a q store in
    let order = list_order (unwrap_or q.sort (lit "name")) (parse_desc q.desc) in
    let same : Perm rows (all_rows u a q store) = sort_by-perm order (all_rows u a q store) in
    (
      pages-cong (λ i. (list_proxies u a (asking q size i) store).items)
            (λ i. page_items i size rows) k
            (λ i first. list_proxies-asking u a q size i store first h l)
          ∙ pages-page_items k size rows h m
          ∙ take-all (k * size) rows
              (omega (arith, n, length-sort_by order (all_rows u a q store))),
      same,
    )
