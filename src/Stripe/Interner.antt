-- ===== src/Stripe/Interner.antt =====
-- How src/stripe.rs gives the terms and the fields of a partition their ids: a map from keys to ids, and
-- the posting lists that the ids number. `index_terms` and `index_fields` do it over two kinds of map.
use shard_log.Prelude.{
  ℕ, zero, suc, ◌≡◌, Bool, Option, none, some, List, [], ◌∷◌, ◌++◌, length, any, Eq, nat_eq, ◌==◌,
  if◌then◌else◌,
}
use shard_log.Stripe.Postings.{HotPostingList, no_postings, push_range}

abbrev pub get_elem? {ℓ} : {A : Type ℓ} → List A → ℕ → Option A
get_elem? [] i = none
get_elem? (x ∷ xs) zero = some x
get_elem? (x ∷ xs) (suc i) = get_elem? xs i

-- The map of a kind of keys: `get`, and the insertion of an id.
pub record Ids (K S : Type 0) ⦃key : Eq K⦄ : Type 0 where
  pub find : S → K → Option ℕ
  pub add : S → K → ℕ → S
  pub find-add :
      (s : S) (k : K) (id : ℕ) (j : K)
      → find (add s k id) j ≡ (if k == j then some id else find s j)

-- `postings.get_mut(id).expect(..).push_range(first, last)`: `none` is the panic on an id without a slot.
unfoldable pub push_at : ℕ → ℕ → ℕ → List HotPostingList → Option (List HotPostingList)
push_at first last id [] = none
push_at first last zero (p ∷ ps) = some (push_range first last p ∷ ps)
push_at first last (suc id) (p ∷ ps) = elim (push_at first last id ps) [
  | none ↦ none
  | some ps' ↦ some (p ∷ ps')
]

unfoldable pub push_each : ℕ → ℕ → List ℕ → List HotPostingList → Option (List HotPostingList)
unfolding push_at
push_each first last [] ps = some ps
push_each first last (id ∷ ids) ps = elim (push_at first last id ps) [
  | none ↦ none
  | some ps' ↦ push_each first last ids ps'
]

abbrev pub mem : {K : Type 0} ⦃key : Eq K⦄ → K → List K → Bool
mem k ks = any (λ j. j == k) ks

module _ {K S : Type 0} ⦃key : Eq K⦄ (t : Ids K S) where
  -- The id of a key, that a key that is not in the map gets with an empty posting list.
  unfoldable pub intern : K → S × List HotPostingList → ℕ × (S × List HotPostingList)
  intern k (s, ps) = elim (t.find s k) [
    | some id ↦ (id, (s, ps))
    | none ↦ (length ps, (t.add s k (length ps), ps ++ no_postings ∷ []))
  ]

  -- The ids of the keys, each once: an id that is there already is not pushed again.
  unfoldable pub intern_all :
      List K → List ℕ → S × List HotPostingList → List ℕ × (S × List HotPostingList)
  unfolding intern any
  intern_all [] ids st = (ids, st)
  intern_all (k ∷ ks) ids st =
      let (id, st') = intern k st in intern_all ks (if mem id ids then ids else ids ++ id ∷ []) st'

  -- The same, where a key that equals one before it is skipped.
  unfoldable pub intern_distinct :
      List K → List K → List ℕ → S × List HotPostingList → List ℕ × (S × List HotPostingList)
  unfolding intern any
  intern_distinct seen [] ids st = (ids, st)
  intern_distinct seen (k ∷ ks) ids st =
      let (id, st') = intern k st in
      let (ids', st'') = if mem k seen then (ids, st) else (ids ++ id ∷ [], st') in
      intern_distinct (seen ++ k ∷ []) ks ids' st''
