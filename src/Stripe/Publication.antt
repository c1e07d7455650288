-- ===== src/Stripe/Publication.antt =====
-- The ids of a record's keys, and their postings once the record's ordinal is pushed on each.
use shard_log.Prelude.{
  ℕ, ◌<◌, ◌≤◌, ◌≡◌, inl, inr, refl, sym, ap, ◌∙◌, Bool, true, false, ◌||◌, some, List, [], ◌∷◌,
  ◌++◌, length, any, Eq, nat_eq, ◌==◌, arith, All, All-append, Bool-cases,
}
use shard_log.Prelude.Sorting.{All-imp}
use shard_log.Stripe.Postings.{HotPostingList}
use shard_log.Stripe.Interner.{Ids, mem, intern, intern_all, intern_distinct}
use shard_log.Stripe.InternerLaws.{IsInterned, Extends, Extends-refl, Extends-trans, intern_lem}

any-append {ℓ} :
    {A : Type ℓ} (p : A → Bool) (xs : List A) (y : A) → any p (xs ++ y ∷ []) ≡ (any p xs || p y)
unfolding any
any-append p [] y = ground arith
any-append p (x ∷ xs) y = ground (arith, any-append p xs y)

mem_last : (i : ℕ) (ids : List ℕ) (id : ℕ) → mem i (ids ++ id ∷ []) ≡ (mem i ids || id == i)
mem_last i ids id = any-append (λ (j : ℕ). j == i) ids id

-- No id twice.
abbrev pub Unrepeated : List ℕ → Type 0
Unrepeated [] = Unit
Unrepeated (id ∷ ids) = (mem id ids ≡ false) × Unrepeated ids

Unrepeated-append :
    (ids : List ℕ) (id : ℕ) → Unrepeated ids → mem id ids ≡ false → Unrepeated (ids ++ id ∷ [])
unfolding any
Unrepeated-append [] id u h = (refl, tt)
Unrepeated-append (i ∷ ids) id u h = (
  ground (arith, any-append (λ (j : ℕ). j == i) ids id),
  Unrepeated-append ids id u.1 (ground arith),
)

module _ {K S : Type 0} ⦃key : Eq K⦄ (t : Ids K S) where
  -- The ids are those of the keys that `Q` holds of, each once.
  pub record Covers (st : S × List HotPostingList) (Q : K → Bool) (ids : List ℕ) : Type 0 where
    pub covered : (k : K) → Q k ≡ true → (id : ℕ) × (t.find st.0 k ≡ some id) × (mem id ids ≡ true)
    pub only : (k : K) (id : ℕ) → t.find st.0 k ≡ some id → mem id ids ≡ true → Q k ≡ true
    pub slots : All (λ id. id < length st.1) ids
    pub once : Unrepeated ids

  mem_slot : (n i : ℕ) (ids : List ℕ) → All (λ id. id < n) ids → mem i ids ≡ true → i < n
  unfolding any
  mem_slot n i [] h m = absurd (ground arith)
  mem_slot n i (id ∷ ids) h m = ground (arith, mem_slot n i ids h.1)

  -- Later interning keeps the ids good: what a cache remembers stays right.
  pub Covers-Extends :
      (st st' : S × List HotPostingList) (Q : K → Bool) (ids : List ℕ)
      → Extends t st st'
      → Covers st Q ids
      → Covers st' Q ids
  Covers-Extends st st' Q ids e c = record {
    covered = λ k q. let (id, f, m) = c.covered k q in (id, e.keeps k id f, m);
    only = λ k id f m. elim (e.fresh k id f) [
      | inl before ↦ c.only k id before m
      | inr new ↦ absurd (apart id new (mem_slot (length st.1) id ids c.slots m))
    ];
    slots = All-imp _ _ (λ i h. wider i h e.grows) ids c.slots;
    once = c.once;
  }
    where
      apart : {n : ℕ} (id : ℕ) → n ≤ id → id < n → ⊥
      apart id h k = omega arith

      wider : {n m : ℕ} (i : ℕ) → i < n → n ≤ m → i < m
      wider i h k = omega arith

  pub Covers-none : (st : S × List HotPostingList) → Covers st (λ k. false) []
  unfolding any
  Covers-none st = record { covered = λ k q. cc; only = λ k id f m. cc; slots = tt; once = tt }

  -- One more key with its id.
  Covers-add :
      (st : S × List HotPostingList) (Q : K → Bool) (ids : List ℕ) (k : K) (id : ℕ)
      → IsInterned t st
      → t.find st.0 k ≡ some id
      → Covers st Q ids
      → mem id ids ≡ false
      → Covers st (λ j. Q j || k == j) (ids ++ id ∷ [])
  Covers-add st Q ids k id ok f c new = record {
    covered = λ j q. elim (Bool-cases (Q j)) [
      | inl before ↦ let (i, g, m) = c.covered j before in (i, g, ground (arith, mem_last i ids id))
      | inr now ↦ (id, ground (arith, key.beq_iff k j), ground (arith, mem_last id ids id))
    ];
    only = λ j i g m.
        ground (arith, mem_last i ids id, c.only j i g, ok.injective k j i, key.beq_iff k j);
    slots = All-append _ ids (id ∷ []) c.slots (ok.bounded k id f, tt);
    once = Unrepeated-append ids id c.once new;
  }

  Covers-same :
      (st : S × List HotPostingList) (Q : K → Bool) (ids : List ℕ) (k : K) (id : ℕ)
      → t.find st.0 k ≡ some id
      → Covers st Q ids
      → mem id ids ≡ true
      → Covers st (λ j. Q j || k == j) ids
  Covers-same st Q ids k id f c old = record {
    covered = λ j q. elim (Bool-cases (Q j)) [
      | inl before ↦ c.covered j before
      | inr now ↦ (id, ground (arith, key.beq_iff k j), old)
    ];
    only = λ j i g m. ground (arith, c.only j i g m);
    slots = c.slots;
    once = c.once;
  }

  Covers-congr :
      (st : S × List HotPostingList) (Q R : K → Bool) (ids : List ℕ)
      → ((k : K) → Q k ≡ R k)
      → Covers st Q ids
      → Covers st R ids
  Covers-congr st Q R ids h c = record {
    covered = λ k r. c.covered k (h k ∙ r);
    only = λ k id f m. sym (h k) ∙ c.only k id f m;
    slots = c.slots;
    once = c.once;
  }

  -- What a loop over keys leaves: the ids of the keys that were there and of those of the loop.
  pub record IsResult (st : S × List HotPostingList) (Q : K → Bool)
      (r : List ℕ × (S × List HotPostingList)) : Type 0 where
    pub interned : IsInterned t r.1
    pub extends : Extends t st r.1
    pub covers : Covers r.1 Q r.0

  IsResult-step :
      (st st' : S × List HotPostingList) (Q R : K → Bool) (r : List ℕ × (S × List HotPostingList))
      → Extends t st st'
      → ((k : K) → Q k ≡ R k)
      → IsResult st' Q r
      → IsResult st R r
  IsResult-step st st' Q R r e h i = record {
    interned = i.interned;
    extends = Extends-trans t st st' r.1 e i.extends;
    covers = Covers-congr r.1 Q R r.0 h i.covers;
  }

  regroup :
      (Q : K → Bool) (k : K) (ks : List K) (j : K)
      → ((Q j || k == j) || mem j ks) ≡ (Q j || mem j (k ∷ ks))
  unfolding any
  regroup Q k ks j = ground arith

  intern_all_lem :
      (ks : List K) (ids : List ℕ) (st : S × List HotPostingList) (Q : K → Bool)
      → IsInterned t st
      → Covers st Q ids
      → IsResult st (λ k. Q k || mem k ks) (intern_all t ks ids st)
  unfolding intern_all
  intern_all_lem [] ids st Q ok c = record {
    interned = ok;
    extends = Extends-refl t st;
    covers = Covers-congr st Q _ ids (λ k. no_more k) c;
  }
    where
      no_more : (k : K) → Q k ≡ (Q k || mem k [])
      no_more k = ground arith
  intern_all_lem (k ∷ ks) ids st Q ok c =
      let (ok', e, f) = intern_lem t k st ok in
      let id = (intern t k st).0 in
      let st' = (intern t k st).1 in
      let c' = Covers-Extends st st' Q ids e c in
      elim (Bool-cases (mem id ids)) [
        | inl old ↦ rw old (
            IsResult-step st st' _ _ _ e (regroup Q k ks) (
              intern_all_lem ks ids st' (λ j. Q j || k == j) ok'
                (Covers-same st' Q ids k id f c' old)))
        | inr new ↦ rw new (
            IsResult-step st st' _ _ _ e (regroup Q k ks) (
              intern_all_lem ks (ids ++ id ∷ []) st' (λ j. Q j || k == j) ok'
                (Covers-add st' Q ids k id ok' f c' new)))
      ]

  intern_distinct_lem :
      (seen ks : List K) (ids : List ℕ) (st : S × List HotPostingList)
      → IsInterned t st
      → Covers st (λ k. mem k seen) ids
      → IsResult st (λ k. mem k seen || mem k ks) (intern_distinct t seen ks ids st)
  unfolding intern_distinct
  intern_distinct_lem seen [] ids st ok c = record {
    interned = ok;
    extends = Extends-refl t st;
    covers = Covers-congr st (λ k. mem k seen) _ ids (λ k. no_more k) c;
  }
    where
      no_more : (k : K) → mem k seen ≡ (mem k seen || mem k [])
      no_more k = ground arith
  intern_distinct_lem seen (k ∷ ks) ids st ok c =
      let (ok', e, f) = intern_lem t k st ok in
      let id = (intern t k st).0 in
      let st' = (intern t k st).1 in
      let c' = Covers-Extends st st' (λ j. mem j seen) ids e c in
      elim (Bool-cases (mem k seen)) [
        | inl old ↦ rw old (
            IsResult-step st st _ _ _ (Extends-refl t st)
              (λ j. ap (λ b. b || mem j ks) (seen_last j) ∙ regroup (λ i. mem i seen) k ks j)
              (intern_distinct_lem (seen ++ k ∷ []) ks ids st ok
                (Covers-congr st (λ j. mem j seen) _ ids (seen_old old) c)))
        | inr new ↦ rw new (
            IsResult-step st st' _ _ _ e
              (λ j. ap (λ b. b || mem j ks) (seen_last j) ∙ regroup (λ i. mem i seen) k ks j)
              (intern_distinct_lem (seen ++ k ∷ []) ks (ids ++ id ∷ []) st' ok' (
                Covers-congr st' _ _ (ids ++ id ∷ []) (λ j. sym (seen_last j))
                  (Covers-add st' (λ j. mem j seen) ids k id ok' f c' (unseen id st' f c' new)))))
      ]
    where
      seen_last : (j : K) → mem j (seen ++ k ∷ []) ≡ (mem j seen || k == j)
      seen_last j = any-append (λ i. i == j) seen k

      seen_old : mem k seen ≡ true → (j : K) → mem j seen ≡ mem j (seen ++ k ∷ [])
      seen_old old j = ground (arith, seen_last j, key.beq_iff k j)

      unseen :
          (id : ℕ) (s : S × List HotPostingList)
          → t.find s.0 k ≡ some id
          → Covers s (λ j. mem j seen) ids
          → mem k seen ≡ false
          → mem id ids ≡ false
      unseen id s f d new = ground (arith, d.only k id f)

  -- The ids of a record's keys, from an empty list on.
  pub intern_all-IsResult :
      (ks : List K) (st : S × List HotPostingList)
      → IsInterned t st
      → IsResult st (λ k. mem k ks) (intern_all t ks [] st)
  intern_all-IsResult ks st ok = intern_all_lem ks [] st (λ k. false) ok (Covers-none st)

  pub intern_distinct-IsResult :
      (ks : List K) (st : S × List HotPostingList)
      → IsInterned t st
      → IsResult st (λ k. mem k ks) (intern_distinct t [] ks [] st)
  unfolding any
  intern_distinct-IsResult ks st ok =
      IsResult-step st st _ _ _ (Extends-refl t st) (λ k. none_seen k ks)
        (intern_distinct_lem [] ks [] st ok
          (Covers-congr st (λ k. false) _ [] (λ k. none_before k) (Covers-none st)))
    where
      none_before : (k : K) → false ≡ mem k []
      none_before k = refl

      none_seen : (k : K) (ks : List K) → (mem k [] || mem k ks) ≡ mem k ks
      none_seen k ks = refl
