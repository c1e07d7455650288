-- ===== src/Prelude/Sorting.antt =====
-- `retain`, and a sort by a comparison, as the standard library's `retain` and `sort_unstable_by` are used:
-- on elements of which no two compare equal, so that every sort gives the same list.
use Prim.Native.Nat.{Ordering}
use mathlib.Core.Path.{◌≡◌, refl, ap, ◌∙◌}
use mathlib.Core.Logic.{◌≢◌, ◌⊎◌, inl, inr}
use mathlib.Core.Bool.{Bool, true, false, ◌&&◌}
use mathlib.Core.List.{List, [], ◌∷◌, ◌++◌}
use native.Mathlib.Omega.{arith}
use shard_log.Prelude.Tests.{if◌then◌else◌, Bool-cases}
use shard_log.Prelude.Lists.{All}

-- `Ordering::reverse`, and the test for `Less`.
abbrev pub reverse_ordering : Ordering → Ordering
reverse_ordering Ordering.lt = Ordering.gt
reverse_ordering Ordering.eq = Ordering.eq
reverse_ordering Ordering.gt = Ordering.lt

abbrev pub is_lt : Ordering → Bool
is_lt Ordering.lt = true
is_lt _ = false

abbrev pub is_gt : Ordering → Bool
is_gt Ordering.gt = true
is_gt _ = false

pub Ordering-cases : (o : Ordering) → (o ≡ Ordering.lt) ⊎ ((o ≡ Ordering.eq) ⊎ (o ≡ Ordering.gt))
Ordering-cases Ordering.lt = inl refl
Ordering-cases Ordering.eq = inr (inl refl)
Ordering-cases Ordering.gt = inr (inr refl)

module _ {ℓ} {A : Type ℓ} where
  unfoldable pub retain : (A → Bool) → List A → List A
  retain p [] = []
  retain p (x ∷ xs) = let rest = retain p xs in if p x then x ∷ rest else rest

  unfoldable pub insert_by : (A → A → Ordering) → A → List A → List A
  insert_by cmp x [] = x ∷ []
  insert_by cmp x (y ∷ ys) =
      let later = y ∷ insert_by cmp x ys in if is_gt (cmp x y) then later else x ∷ y ∷ ys

  unfoldable pub sort_by : (A → A → Ordering) → List A → List A
  unfolding insert_by
  sort_by cmp [] = []
  sort_by cmp (x ∷ xs) = insert_by cmp x (sort_by cmp xs)

  -- Each element comes before all behind it.
  abbrev pub Ascending : (A → A → Ordering) → List A → Type ℓ
  Ascending cmp [] = Unit
  Ascending cmp (x ∷ xs) = All (λ y. cmp x y ≡ Ordering.lt) xs × Ascending cmp xs

  abbrev pub Distinct : (A → A → Ordering) → List A → Type ℓ
  Distinct cmp [] = Unit
  Distinct cmp (x ∷ xs) = All (λ y. cmp x y ≢ Ordering.eq) xs × Distinct cmp xs

  pub record IsOrder (cmp : A → A → Ordering) : Type ℓ where
    pub flip : (x y : A) → cmp y x ≡ reverse_ordering (cmp x y)
    pub trans : (x y z : A) → cmp x y ≡ Ordering.lt → cmp y z ≡ Ordering.lt → cmp x z ≡ Ordering.lt

module _ {ℓ} {A : Type ℓ} where
  pub All-imp {κ μ} :
      (P : A → Type κ) (Q : A → Type μ)
      → ((x : A) → P x → Q x)
      → (xs : List A) → All P xs
      → All Q xs
  All-imp P Q f [] h = tt
  All-imp P Q f (x ∷ xs) h = (f x h.0, All-imp P Q f xs h.1)

  pub All-retain {κ} :
      (P : A → Type κ) (p : A → Bool) (xs : List A) → All P xs → All P (retain p xs)
  unfolding retain
  All-retain P p [] h = h
  All-retain P p (x ∷ xs) h = elim (Bool-cases (p x)) [
    | inl yes_p ↦ rw yes_p (h.0, All-retain P p xs h.1)
    | inr no_p ↦ rw no_p (All-retain P p xs h.1)
  ]

  pub retain-All : (p : A → Bool) (xs : List A) → All (λ x. p x ≡ true) xs → retain p xs ≡ xs
  unfolding retain
  retain-All p [] h = refl
  retain-All p (x ∷ xs) h = rw h.0 (ap (◌∷◌ x) (retain-All p xs h.1))

  pub retain_none : (p : A → Bool) (xs : List A) → All (λ x. p x ≡ false) xs → retain p xs ≡ []
  unfolding retain
  retain_none p [] h = refl
  retain_none p (x ∷ xs) h = rw h.0 (retain_none p xs h.1)

  pub retain_keep :
      (p : A → Bool) (x : A) (xs : List A) → p x ≡ true → retain p (x ∷ xs) ≡ x ∷ retain p xs
  unfolding retain
  retain_keep p x xs h = rw h

  pub retain_skip :
      (p : A → Bool) (x : A) (xs : List A) → p x ≡ false → retain p (x ∷ xs) ≡ retain p xs
  unfolding retain
  retain_skip p x xs h = rw h

  pub retain-append :
      (p : A → Bool) (xs ys : List A) → retain p (xs ++ ys) ≡ retain p xs ++ retain p ys
  unfolding retain
  retain-append p [] ys = refl
  retain-append p (x ∷ xs) ys = elim (Bool-cases (p x)) [
    | inl yes_p ↦ rw yes_p (ap (◌∷◌ x) (retain-append p xs ys))
    | inr no_p ↦ rw no_p (retain-append p xs ys)
  ]

  pub retain-retain :
      (p q : A → Bool) (xs : List A) → retain (λ x. p x && q x) xs ≡ retain p (retain q xs)
  unfolding retain
  retain-retain p q [] = refl
  retain-retain p q (x ∷ xs) = elim (Bool-cases (q x)) [
    | inl kept ↦ elim (Bool-cases (p x)) [
      | inl both ↦ rw (kept, retain, both, retain-retain p q xs)
      | inr one ↦ rw (kept, retain, one, retain-retain p q xs)
    ]
    | inr gone ↦ elim (Bool-cases (p x)) [
      | inl one ↦ rw (gone, one, retain-retain p q xs)
      | inr neither ↦ rw (gone, neither, retain-retain p q xs)
    ]
  ]

  pub All-retain-true : (p : A → Bool) (xs : List A) → All (λ x. p x ≡ true) (retain p xs)
  unfolding retain
  All-retain-true p [] = tt
  All-retain-true p (x ∷ xs) = elim (Bool-cases (p x)) [
    | inl kept ↦ rw kept (kept, All-retain-true p xs)
    | inr gone ↦ rw gone (All-retain-true p xs)
  ]

  pub All_middle {κ} :
      (P : A → Type κ) (xs : List A) {y : A} (ys : List A) → All P (xs ++ y ∷ ys) → P y
  All_middle P [] ys h = h.0
  All_middle P (x ∷ xs) ys h = All_middle P xs ys h.1

  pub retain-congr :
      (p q : A → Bool) (xs : List A) → All (λ x. p x ≡ q x) xs → retain p xs ≡ retain q xs
  unfolding retain
  retain-congr p q [] h = refl
  retain-congr p q (x ∷ xs) h = rw (h.0, retain-congr p q xs h.1)

module _ {ℓ} {A : Type ℓ} {cmp : A → A → Ordering} (o : IsOrder cmp) where
  insert_by_first :
      (x : A) (ys : List A) → All (λ y. cmp x y ≡ Ordering.lt) ys → insert_by cmp x ys ≡ x ∷ ys
  unfolding insert_by
  insert_by_first x [] h = refl
  insert_by_first x (y ∷ ys) h = rw h.0

  All-insert_by {κ} :
      (P : A → Type κ) (x : A) (ys : List A) → P x → All P ys → All P (insert_by cmp x ys)
  unfolding insert_by
  All-insert_by P x [] px h = (px, tt)
  All-insert_by P x (y ∷ ys) px h = elim (Bool-cases (is_gt (cmp x y))) [
    | inl after ↦ rw after (h.0, All-insert_by P x ys px h.1)
    | inr before ↦ rw before (px, h)
  ]

  pub All-sort_by {κ} : (P : A → Type κ) (xs : List A) → All P xs → All P (sort_by cmp xs)
  unfolding sort_by
  All-sort_by P [] h = h
  All-sort_by P (x ∷ xs) h = All-insert_by P x (sort_by cmp xs) h.0 (All-sort_by P xs h.1)

  lt_of_gt : (x y : A) → cmp x y ≡ Ordering.gt → cmp y x ≡ Ordering.lt
  lt_of_gt x y h = o.flip x y ∙ ap reverse_ordering h

  lt-All :
      (x y : A) (ys : List A)
      → cmp x y ≡ Ordering.lt
      → All (λ z. cmp y z ≡ Ordering.lt) ys
      → All (λ z. cmp x z ≡ Ordering.lt) ys
  lt-All x y ys h below = All-imp _ _ (λ z. o.trans x y z h) ys below

  insert_by-Ascending :
      (x : A) (ys : List A)
      → All (λ y. cmp x y ≢ Ordering.eq) ys
      → Ascending cmp ys
      → Ascending cmp (insert_by cmp x ys)
  unfolding insert_by
  insert_by-Ascending x [] d a = (tt, tt)
  insert_by-Ascending x (y ∷ ys) d a = elim (Ordering-cases (cmp x y)) [
    | inl before ↦ rw before ((before, lt-All x y ys before a.0), a)
    | inr (inl same) ↦ absurd (d.0 same)
    | inr (inr after) ↦
        rw after (All-insert_by _ x ys (lt_of_gt x y after) a.0, insert_by-Ascending x ys d.1 a.1)
  ]

  pub sort_by-Ascending : (xs : List A) → Distinct cmp xs → Ascending cmp (sort_by cmp xs)
  unfolding sort_by
  sort_by-Ascending [] d = tt
  sort_by-Ascending (x ∷ xs) d =
      insert_by-Ascending x (sort_by cmp xs) (All-sort_by _ xs d.0) (sort_by-Ascending xs d.1)

  -- A list that ascends already is left alone.
  pub sort_by_sorted : (xs : List A) → Ascending cmp xs → sort_by cmp xs ≡ xs
  unfolding sort_by
  sort_by_sorted [] a = refl
  sort_by_sorted (x ∷ xs) a = rw (sort_by_sorted xs a.1) (insert_by_first x xs a.0)

  retain-insert_by_out :
      (p : A → Bool) (x : A) (ys : List A)
      → p x ≡ false
      → retain p (insert_by cmp x ys) ≡ retain p ys
  unfolding insert_by retain
  retain-insert_by_out p x [] h = rw h
  retain-insert_by_out p x (y ∷ ys) h = elim (Bool-cases (is_gt (cmp x y))) [
    | inl after ↦ rw (after, retain, retain-insert_by_out p x ys h)
    | inr before ↦ rw (before, h)
  ]

  retain-insert_by_in :
      (p : A → Bool) (x : A) (ys : List A)
      → p x ≡ true
      → All (λ y. cmp x y ≢ Ordering.eq) ys
      → Ascending cmp ys
      → retain p (insert_by cmp x ys) ≡ insert_by cmp x (retain p ys)
  unfolding insert_by retain
  retain-insert_by_in p x [] h d a = rw h
  retain-insert_by_in p x (y ∷ ys) h d a = elim (Ordering-cases (cmp x y)) [
    | inr (inl same) ↦ absurd (d.0 same)
    | inl before ↦
        let first =
          insert_by_first x (retain p ys) (All-retain _ p ys (lt-All x y ys before a.0)) in
        elim (Bool-cases (p y)) [
          | inl kept ↦ rw (before, retain, h, kept, insert_by, before)
          | inr gone ↦ rw (before, retain, h, gone, first)
        ]
    | inr (inr after) ↦
        let ih = retain-insert_by_in p x ys h d.1 a.1 in
        elim (Bool-cases (p y)) [
          | inl kept ↦ rw (after, retain, kept, ih, insert_by, after)
          | inr gone ↦ rw (after, retain, gone, ih)
        ]
  ]

  -- Filtering before or after the sort is the same.
  pub retain-sort_by :
      (p : A → Bool) (xs : List A)
      → Distinct cmp xs
      → retain p (sort_by cmp xs) ≡ sort_by cmp (retain p xs)
  unfolding sort_by retain
  retain-sort_by p [] d = refl
  retain-sort_by p (x ∷ xs) d = elim (Bool-cases (p x)) [
    | inl kept ↦ rw kept (
        retain-insert_by_in p x (sort_by cmp xs) kept (All-sort_by _ xs d.0)
          (sort_by-Ascending xs d.1)
        ∙ ap (insert_by cmp x) (retain-sort_by p xs d.1))
    | inr gone ↦ rw gone (retain-insert_by_out p x (sort_by cmp xs) gone ∙ retain-sort_by p xs d.1)
  ]

  pub Distinct-retain : (p : A → Bool) (xs : List A) → Distinct cmp xs → Distinct cmp (retain p xs)
  unfolding retain
  Distinct-retain p [] d = d
  Distinct-retain p (x ∷ xs) d = elim (Bool-cases (p x)) [
    | inl kept ↦ rw kept (All-retain _ p xs d.0, Distinct-retain p xs d.1)
    | inr gone ↦ rw gone (Distinct-retain p xs d.1)
  ]

  -- What an ascending list holds behind one of its elements is what that element comes before.
  pub retain_behind :
      (before : List A) (x : A) (behind : List A)
      → Ascending cmp (before ++ x ∷ behind)
      → retain (λ y. is_lt (cmp x y)) (before ++ x ∷ behind) ≡ behind
  unfolding retain
  retain_behind [] x behind a = elim (Ordering-cases (cmp x x)) [
    | inl less ↦ absurd (irreflexive less)
    | inr rest ↦
        rw (not_less rest)
          (retain-All _ behind (All-imp _ _ (λ y (e : cmp x y ≡ Ordering.lt). rw e) behind a.0))
  ]
    where
      irreflexive : cmp x x ≡ Ordering.lt → ⊥
      irreflexive less = ground (arith, o.flip x x)

      not_less : (cmp x x ≡ Ordering.eq) ⊎ (cmp x x ≡ Ordering.gt) → is_lt (cmp x x) ≡ false
      not_less (inl e) = rw e
      not_less (inr e) = rw e
  retain_behind (y ∷ before) x behind a =
      rw (o.flip y x, All_middle _ before behind a.0) (retain_behind before x behind a.1)
