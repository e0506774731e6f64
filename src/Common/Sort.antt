-- ===== src/Common/Sort.antt =====
-- `slice::sort_by`, a stable sort by a comparison function. For a total preorder every stable sort
-- has the same result, so insertion stands for it; the lemmas are those that users need.
use Prim.Native.Nat.{ℕ, suc, compare, Ordering}
use mathlib.Core.Path.{◌≡◌, refl, ap}
use mathlib.Core.Bool.{Bool, true, false}
use mathlib.Core.Logic.{inl, inr}
use mathlib.Core.List.{List, [], ◌∷◌, map, Perm}
use mathlib.Core.List.Perm
use native.Mathlib.Omega.{arith}
use sub_hub.Common.Tests.{if◌then◌else◌, Bool-cases}
use sub_hub.Common.Lists.{retain, All, length}

-- `Ordering::then_with`.
abbrev pub then_with : Ordering → Ordering → Ordering
then_with Ordering.lt o = Ordering.lt
then_with Ordering.eq o = o
then_with Ordering.gt o = Ordering.gt

-- `Ordering::reverse`.
abbrev pub reverse_order : Ordering → Ordering
reverse_order Ordering.lt = Ordering.gt
reverse_order Ordering.eq = Ordering.eq
reverse_order Ordering.gt = Ordering.lt

abbrev pub is_gt : Ordering → Bool
is_gt Ordering.gt = true
is_gt _ = false

module _ {A : Type 0} (cmp : A → A → Ordering) where
  unfoldable pub insert_by : A → List A → List A
  insert_by x [] = x ∷ []
  insert_by x (y ∷ ys) = if is_gt (cmp x y) then y ∷ insert_by x ys else x ∷ y ∷ ys

  unfoldable pub sort_by : List A → List A
  unfolding insert_by
  sort_by [] = []
  sort_by (x ∷ xs) = insert_by x (sort_by xs)

  -- `cmp` is a total preorder on the elements that have a property, and says so both ways round.
  pub record IsOrderOn (P : A → Type 0) : Type 0 where
    pub flip : (x y : A) → P x → P y → cmp y x ≡ reverse_order (cmp x y)
    pub trans :
        (x y z : A)
        → P x
        → P y
        → P z
        → is_gt (cmp x y) ≡ false
        → is_gt (cmp y z) ≡ false
        → is_gt (cmp x z) ≡ false

  -- Each element compares at most equal to every later one.
  abbrev pub Sorted : List A → Type 0
  Sorted [] = Unit
  Sorted (x ∷ xs) = All (λ y. is_gt (cmp x y) ≡ false) xs × Sorted xs

  All-insert_by : (P : A → Type 0) (x : A) (ys : List A) → P x → All P ys → All P (insert_by x ys)
  unfolding insert_by
  All-insert_by P x [] h k = (h, k)
  All-insert_by P x (y ∷ ys) h k = elim (Bool-cases (is_gt (cmp x y))) [
    | inl e ↦ rw e (k.0, All-insert_by P x ys h k.1)
    | inr e ↦ rw e (h, k)
  ]

  pub All-sort_by : (P : A → Type 0) (xs : List A) → All P xs → All P (sort_by xs)
  unfolding sort_by
  All-sort_by P [] h = h
  All-sort_by P (x ∷ xs) h = All-insert_by P x (sort_by xs) h.0 (All-sort_by P xs h.1)

  module _ {P : A → Type 0} (o : IsOrderOn P) where
    All-weaken :
        (x y : A) (ys : List A)
        → P x
        → P y
        → All P ys
        → is_gt (cmp x y) ≡ false
        → All (λ z. is_gt (cmp y z) ≡ false) ys
        → All (λ z. is_gt (cmp x z) ≡ false) ys
    All-weaken x y [] px py ps h k = tt
    All-weaken x y (z ∷ ys) px py ps h k =
        (o.trans x y z px py ps.0 h k.0, All-weaken x y ys px py ps.1 h k.1)

    insert_by-Sorted : (x : A) (ys : List A) → P x → All P ys → Sorted ys → Sorted (insert_by x ys)
    unfolding insert_by
    insert_by-Sorted x [] px ps h = (tt, tt)
    insert_by-Sorted x (y ∷ ys) px ps h = elim (Bool-cases (is_gt (cmp x y))) [
      | inl e ↦ rw e (
        All-insert_by (λ z. is_gt (cmp y z) ≡ false) x ys (ground (arith, o.flip x y px ps.0)) h.0,
        insert_by-Sorted x ys px ps.1 h.1,
      )
      | inr e ↦ rw e ((e, All-weaken x y ys px ps.0 ps.1 e h.0), h)
    ]

    -- The result is sorted, if `cmp` orders the elements.
    pub sort_by-Sorted : (xs : List A) → All P xs → Sorted (sort_by xs)
    unfolding sort_by
    sort_by-Sorted [] ps = tt
    sort_by-Sorted (x ∷ xs) ps =
        insert_by-Sorted x (sort_by xs) ps.0 (All-sort_by P xs ps.1) (sort_by-Sorted xs ps.1)

  insert_by-perm : (x : A) (ys : List A) → Perm (insert_by x ys) (x ∷ ys)
  unfolding insert_by
  insert_by-perm x [] = Perm.rfl
  insert_by-perm x (y ∷ ys) = elim (Bool-cases (is_gt (cmp x y))) [
    | inl e ↦ rw e (Perm.trans (Perm.cons y (insert_by-perm x ys)) (Perm.swap x y ys))
    | inr e ↦ rw e Perm.rfl
  ]

  -- The result is the input in another order.
  pub sort_by-perm : (xs : List A) → Perm (sort_by xs) xs
  unfolding sort_by
  sort_by-perm [] = Perm.rfl
  sort_by-perm (x ∷ xs) = Perm.trans (insert_by-perm x (sort_by xs)) (Perm.cons x (sort_by-perm xs))

  length-insert_by : (x : A) (ys : List A) → length (insert_by x ys) ≡ suc (length ys)
  unfolding insert_by
  length-insert_by x [] = refl
  length-insert_by x (y ∷ ys) = ground (arith, length-insert_by x ys)

  pub length-sort_by : (xs : List A) → length (sort_by xs) ≡ length xs
  unfolding sort_by
  length-sort_by [] = refl
  length-sort_by (x ∷ xs) = omega (arith, length-insert_by x (sort_by xs), length-sort_by xs)

  module _ (f : A → Bool)
      (tied : (x y : A) → f x ≡ true → f y ≡ true → is_gt (cmp x y) ≡ false) where
    retain-insert_by : (x : A) (ys : List A) → retain f (insert_by x ys) ≡ retain f (x ∷ ys)
    unfolding insert_by
    retain-insert_by x [] = refl
    retain-insert_by x (y ∷ ys) = ground (arith, retain-insert_by x ys, tied x y)

    -- Elements that tie with one another keep their order.
    pub retain-sort_by : (xs : List A) → retain f (sort_by xs) ≡ retain f xs
    unfolding sort_by
    retain-sort_by [] = refl
    retain-sort_by (x ∷ xs) = ground (arith, retain-insert_by x (sort_by xs), retain-sort_by xs)

-- Sorting decorated elements by a comparison that goes by the elements is sorting the elements.
module _ {A B : Type 0} (f : A → B) (cmp : A → A → Ordering) (cmp' : B → B → Ordering)
    (same : (x y : A) → cmp' (f x) (f y) ≡ cmp x y) where
  insert_by-map :
      (x : A) (ys : List A) → insert_by cmp' (f x) (map f ys) ≡ map f (insert_by cmp x ys)
  unfolding insert_by
  insert_by-map x [] = refl
  insert_by-map x (y ∷ ys) = elim (Bool-cases (is_gt (cmp x y))) [
    | inl e ↦ rw (same x y, e) (ap (λ l. f y ∷ l) (insert_by-map x ys))
    | inr e ↦ rw (same x y, e)
  ]

  pub sort_by-map : (xs : List A) → sort_by cmp' (map f xs) ≡ map f (sort_by cmp xs)
  unfolding sort_by
  sort_by-map [] = refl
  sort_by-map (x ∷ xs) = rw (sort_by-map xs) (insert_by-map x (sort_by cmp xs))

-- One comparison after another, and one turned round.
module _ {A : Type 0} {P : A → Type 0} (c d : A → A → Ordering) where
  pub then_with-IsOrderOn :
      IsOrderOn c P → IsOrderOn d P → IsOrderOn (λ x y. then_with (c x y) (d x y)) P
  then_with-IsOrderOn oc od = record {
    flip = λ x y px py. ground (arith, oc.flip x y px py, od.flip x y px py);
    trans = λ x y z px py pz h k. ground (
      arith,
      oc.trans x y z px py pz,
      od.trans x y z px py pz,
      oc.flip x y px py,
      oc.flip y z py pz,
      oc.flip x z px pz,
      oc.trans z x y pz px py,
      oc.trans y z x py pz px,
    );
  }

module _ {A : Type 0} {P : A → Type 0} (c : A → A → Ordering) where
  pub reverse_order-IsOrderOn : IsOrderOn c P → IsOrderOn (λ x y. reverse_order (c x y)) P
  reverse_order-IsOrderOn oc = record {
    flip = λ x y px py. ground (arith, oc.flip x y px py);
    trans = λ x y z px py pz h k.
        ground
          (arith, oc.trans z y x pz py px, oc.flip x y px py, oc.flip y z py pz, oc.flip x z px pz);
  }

-- Comparison by a number.
pub compare-IsOrderOn :
    {A : Type 0} {P : A → Type 0} (key : A → ℕ) → IsOrderOn (λ x y. compare (key x) (key y)) P
compare-IsOrderOn key = record {
  flip = λ x y px py. ground arith;
  trans = λ x y z px py pz h k. ground arith;
}
