-- ===== src/Stripe/Filling.antt =====
-- Filling a list up to a length, and lists from the last to the first.
use shard_log.Prelude.{
  ℕ, zero, suc, ◌-◌, ◌≤◌, ◌≡◌, refl, sym, ap, ◌∙◌, List, [], ◌∷◌, ◌++◌, length, take, arith,
  append-nil, append_assoc, length-append, length-take_le, nat_eq,
}
use native.Mathlib.Nat.{sub-zero}
use shard_log.Stripe.Postings.{reverse}

module _ {ℓ} {A : Type ℓ} where
  take_nil : (k : ℕ) → take {A = A} k [] ≡ []
  take_nil zero = refl
  take_nil (suc k) = refl

  pub take_all : (k : ℕ) (xs : List A) → length xs ≤ k → take k xs ≡ xs
  take_all k [] h = take_nil k
  take_all zero (x ∷ xs) h = absurd (omega arith)
  take_all (suc k) (x ∷ xs) h = ap (◌∷◌ x) (take_all k xs (omega arith))

  -- Filling up to a length in two steps, each under the room that is left, or in one.
  take_more :
      (k : ℕ) (xs ys : List A) → take k xs ++ take (k - length (take k xs)) ys ≡ take k (xs ++ ys)
  take_more k [] ys = rw (take_nil k, sub-zero)
  take_more zero (x ∷ xs) ys = refl
  take_more (suc k) (x ∷ xs) ys =
      rw (one_less k (length (take k xs))) (ap (◌∷◌ x) (take_more k xs ys))
    where
      one_less : (a b : ℕ) → suc a - suc b ≡ a - b
      one_less a b = omega arith

  pub fill_more :
      (t : ℕ) (acc xs ys : List A)
      → (acc ++ take (t - length acc) xs) ++ take (t - length (acc ++ take (t - length acc) xs)) ys
        ≡ acc ++ take (t - length acc) (xs ++ ys)
  fill_more t acc xs ys =
      append_assoc acc (take (t - length acc) xs)
        (take (t - length (acc ++ take (t - length acc) xs)) ys)
      ∙ ap (λ l. acc ++ l)
          (ap (λ n. take (t - length acc) xs ++ take n ys) room ∙ take_more (t - length acc) xs ys)
    where
      room :
          t - length (acc ++ take (t - length acc) xs)
          ≡ t - length acc - length (take (t - length acc) xs)
      room = omega (arith, length-append acc (take (t - length acc) xs))

  pub length_fill :
      (t : ℕ) (acc xs : List A) → length acc ≤ t → length (acc ++ take (t - length acc) xs) ≤ t
  length_fill t acc xs h =
      omega
        (arith, length-append acc (take (t - length acc) xs), length-take_le (t - length acc) xs)

  pub take_none : (t : ℕ) (acc xs : List A) → length acc ≡ t → acc ≡ acc ++ take (t - length acc) xs
  take_none t acc xs h = rw (full t (length acc) h) (sym (append-nil acc))
    where
      full : (a b : ℕ) → b ≡ a → a - b ≡ 0
      full a b h = omega arith

  pub add_nothing : (k : ℕ) (acc : List A) → acc ≡ acc ++ take k []
  add_nothing k acc = rw take_nil (sym (append-nil acc))

  pub reverse-append : (xs ys : List A) → reverse (xs ++ ys) ≡ reverse ys ++ reverse xs
  unfolding reverse
  reverse-append [] ys = sym (append-nil (reverse ys))
  reverse-append (x ∷ xs) ys =
      rw (reverse-append xs ys) (append_assoc (reverse ys) (reverse xs) (x ∷ []))

  pub length-reverse : (xs : List A) → length (reverse xs) ≡ length xs
  unfolding reverse
  length-reverse [] = refl
  length-reverse (x ∷ xs) = omega (arith, length-append (reverse xs) (x ∷ []), length-reverse xs)
