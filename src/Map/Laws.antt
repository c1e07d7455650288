-- ===== src/Map/Laws.antt =====
-- The laws of `lookup` after each update, and uniqueness of keys.
use shard_log.Prelude.{
  ℕ, ◌+◌, ◌≡◌, refl, none, some, [], ◌∷◌, arith, Eq, ◌==◌, beq_refl, if◌then◌else◌, length,
}
use shard_log.Map.{Map, lookup, remove, insert, update, Unique}
use mathlib.Core.Option

module _ {ℓ} {K V : Type ℓ} ⦃e : Eq K⦄ where
  pub lookup-remove :
      (k j : K) (m : Map K V) → lookup j (remove k m) ≡ (if k == j then none else lookup j m)
  unfolding lookup remove
  lookup-remove k j [] = ground arith
  lookup-remove k j ((i, v) ∷ m) =
      ground (arith, lookup-remove k j m, e.beq_iff i k, e.beq_iff i j, e.beq_iff k j)

  pub lookup-insert :
      (k j : K) (v : V) (m : Map K V)
      → lookup j (insert k v m) ≡ (if k == j then some v else lookup j m)
  unfolding lookup insert
  lookup-insert k j v m = ground (arith, lookup-remove k j m)

  pub lookup-update :
      (k j : K) (f : V → V) (m : Map K V)
      → lookup j (update k f m) ≡ (if k == j then Option.map f (lookup j m) else lookup j m)
  unfolding lookup update
  lookup-update k j f [] = ground arith
  lookup-update k j f ((i, v) ∷ m) =
      ground (arith, lookup-update k j f m, e.beq_iff i k, e.beq_iff i j, e.beq_iff k j)

  pub lookup-insert_self : (k : K) (v : V) (m : Map K V) → lookup k (insert k v m) ≡ some v
  lookup-insert_self k v m = rw (lookup-insert, beq_refl k)

  pub remove-Unique : (k : K) (m : Map K V) → Unique m → Unique (remove k m)
  unfolding remove
  remove-Unique k [] u = u
  remove-Unique k ((j, v) ∷ m) (fresh, u) = ground (arith, remove-Unique k m u, lookup-remove k j m)

  pub insert-Unique : (k : K) (v : V) (m : Map K V) → Unique m → Unique (insert k v m)
  unfolding insert
  insert-Unique k v m u = (rw (lookup-remove, beq_refl k), remove-Unique k m u)

  pub update-Unique : (k : K) (f : V → V) (m : Map K V) → Unique m → Unique (update k f m)
  unfolding update
  update-Unique k f [] u = u
  update-Unique k f ((j, v) ∷ m) (fresh, u) =
      ground (arith, update-Unique k f m u, lookup-update k j f m, e.beq_iff k j)

  -- Removing an absent key changes nothing.
  pub remove-eq_of_none : (k : K) (m : Map K V) → lookup k m ≡ none → remove k m ≡ m
  unfolding lookup remove
  remove-eq_of_none k [] h = refl
  remove-eq_of_none k ((j, v) ∷ m) h = ground (arith, remove-eq_of_none k m)

  -- A weight summed over a map loses exactly the removed entry's part.
  abbrev pub total : (V → ℕ) → Map K V → ℕ
  total w [] = 0
  total w ((k, v) ∷ m) = w v + total w m

  pub total-remove :
      (w : V → ℕ) (k : K) (v : V) (m : Map K V)
      → Unique m
      → lookup k m ≡ some v
      → total w m ≡ w v + total w (remove k m)
  unfolding lookup remove
  total-remove w k v [] u h = cc
  total-remove w k v ((j, x) ∷ m) (fresh, u) h =
      ground (arith, total-remove w k v m u, remove-eq_of_none k m, e.beq_iff j k)

  pub length-remove :
      (k : K) (v : V) (m : Map K V)
      → Unique m
      → lookup k m ≡ some v
      → length m ≡ length (remove k m) + 1
  unfolding lookup remove
  length-remove k v [] u h = cc
  length-remove k v ((j, x) ∷ m) (fresh, u) h =
      ground (arith, length-remove k v m u, remove-eq_of_none k m, e.beq_iff j k)

  -- An update that keeps an entry's weight keeps the total.
  pub total-update :
      (w : V → ℕ) (k : K) (f : V → V) (m : Map K V)
      → ((v : V) → w (f v) ≡ w v)
      → total w (update k f m) ≡ total w m
  unfolding update
  total-update w k f [] same = refl
  total-update w k f ((j, v) ∷ m) same = ground (arith, total-update w k f m same, same v)
