-- ===== src/Stripe/InternerLaws.antt =====
-- The invariant of the ids and their posting lists, and what interning and publishing keys do to it.
use shard_log.Prelude.{
  ℕ, zero, suc, ◌<◌, ◌≤◌, ◌≡◌, ◌⊎◌, inl, inr, refl, sym, ◌∙◌, Bool, false, none, some, List, [],
  ◌∷◌, ◌++◌, length, any, Eq, nat_eq, ◌==◌, arith, All, All-append, length-append, Option-cases,
  Bool-cases,
}
use shard_log.Stripe.Postings.{HotPostingList, no_postings}
use shard_log.Stripe.PostingLaws.{RunsFrom, posted}
use shard_log.Stripe.Interner.{get_elem?, Ids, intern}

-- The ordinals below `bound`, in order, of every posting list.
abbrev pub PostingsTo : ℕ → List HotPostingList → Type 0
PostingsTo bound ps = All (λ (p : HotPostingList). RunsFrom 0 bound p.runs) ps

unfoldable pub posted_id : List HotPostingList → ℕ → ℕ → Bool
posted_id ps id o = elim (get_elem? ps id) [ none ↦ false | some p ↦ posted o p.runs ]

posted_id-append :
    (ps : List HotPostingList) (id o : ℕ)
    → posted_id (ps ++ no_postings ∷ []) id o ≡ posted_id ps id o
unfolding posted_id posted any
posted_id-append [] zero o = refl
posted_id-append [] (suc id) o = refl
posted_id-append (p ∷ ps) zero o = refl
posted_id-append (p ∷ ps) (suc id) o = posted_id-append ps id o

posted_id_out : (ps : List HotPostingList) (id o : ℕ) → length ps ≤ id → posted_id ps id o ≡ false
unfolding posted_id
posted_id_out [] id o h = refl
posted_id_out (p ∷ ps) zero o h = absurd (omega arith)
posted_id_out (p ∷ ps) (suc id) o h = posted_id_out ps id o (omega arith)

module _ {K S : Type 0} ⦃key : Eq K⦄ (t : Ids K S) where
  -- The ordinals posted under a key.
  unfoldable pub posted_key : S × List HotPostingList → K → ℕ → Bool
  posted_key (s, ps) k o = elim (t.find s k) [ none ↦ false | some id ↦ posted_id ps id o ]

  -- Ids number the posting lists, and no two keys share one.
  pub record IsInterned (st : S × List HotPostingList) : Type 0 where
    pub bounded : (k : K) (id : ℕ) → t.find st.0 k ≡ some id → id < length st.1
    pub injective : (j k : K) (id : ℕ) → t.find st.0 j ≡ some id → t.find st.0 k ≡ some id → j ≡ k

  -- What later interning leaves as it is.
  pub record Extends (st st' : S × List HotPostingList) : Type 0 where
    pub keeps : (k : K) (id : ℕ) → t.find st.0 k ≡ some id → t.find st'.0 k ≡ some id
    pub fresh :
        (k : K) (id : ℕ) → t.find st'.0 k ≡ some id → (t.find st.0 k ≡ some id) ⊎ (length st.1 ≤ id)
    pub grows : length st.1 ≤ length st'.1
    pub same : (k : K) (o : ℕ) → posted_key st' k o ≡ posted_key st k o
    pub in_order : (bound : ℕ) → PostingsTo bound st.1 → PostingsTo bound st'.1

  pub Extends-refl : (st : S × List HotPostingList) → Extends st st
  Extends-refl st = record {
    keeps = λ k id h. h;
    fresh = λ k id h. inl h;
    grows = omega arith;
    same = λ k o. refl;
    in_order = λ bound h. h;
  }

  pub Extends-trans : (a b c : S × List HotPostingList) → Extends a b → Extends b c → Extends a c
  Extends-trans a b c f g = record {
    keeps = λ k id h. g.keeps k id (f.keeps k id h);
    fresh = λ k id h. elim (g.fresh k id h) [
      | inl before ↦ f.fresh k id before
      | inr new ↦ inr (later f.grows new)
    ];
    grows = later f.grows g.grows;
    same = λ k o. g.same k o ∙ f.same k o;
    in_order = λ bound h. g.in_order bound (f.in_order bound h);
  }
    where
      later : {x y z : ℕ} → x ≤ y → y ≤ z → x ≤ z
      later h k = omega arith

  module _ (s : S) (ps : List HotPostingList) (k : K) (new : t.find s k ≡ none)
      (ok : IsInterned (s, ps)) where
    abbrev added : S × List HotPostingList
    added = (t.add s k (length ps), ps ++ no_postings ∷ [])

    find_other :
        (j : K) (id : ℕ)
        → t.find (t.add s k (length ps)) j ≡ some id
        → ((k ≡ j) × (id ≡ length ps)) ⊎ (t.find s j ≡ some id)
    find_other j id h = elim (Bool-cases (k == j)) [
      | inl same ↦ inl ((key.beq_iff k j).0 same, ground (arith, t.find-add s k (length ps) j))
      | inr other ↦ inr (ground (arith, t.find-add s k (length ps) j))
    ]

    find_kept : (j : K) (id : ℕ) → t.find s j ≡ some id → t.find (t.add s k (length ps)) j ≡ some id
    find_kept j id h = ground (arith, t.find-add s k (length ps) j, key.beq_iff k j)

    added_injective :
        (i j : K) (id : ℕ)
        → t.find (t.add s k (length ps)) i ≡ some id
        → t.find (t.add s k (length ps)) j ≡ some id
        → i ≡ j
    added_injective i j id h g = elim (find_other i id h) [
      | inl own ↦ elim (find_other j id g) [
        | inl own' ↦ sym own.0 ∙ own'.0
        | inr before ↦ absurd (omega (arith, ok.bounded j id before, own.1))
      ]
      | inr before ↦ elim (find_other j id g) [
        | inl own ↦ absurd (omega (arith, ok.bounded i id before, own.1))
        | inr before' ↦ ok.injective i j id before before'
      ]
    ]

    posted_added : (j : K) (o : ℕ) → posted_key added j o ≡ posted_key (s, ps) j o
    unfolding posted_key
    posted_added j o = elim (Bool-cases (k == j)) [
      | inl same ↦ ground (
        arith,
        t.find-add s k (length ps) j,
        key.beq_iff k j,
        posted_id-append ps (length ps) o,
        posted_id_out ps (length ps) o (omega arith),
      )
      | inr other ↦ elim (Option-cases (t.find s j)) [
        | inl none_yet ↦ ground (arith, t.find-add s k (length ps) j)
        | inr old ↦ ground (arith, t.find-add s k (length ps) j, posted_id-append ps old.0 o)
      ]
    ]

    added-IsInterned : IsInterned added
    added-IsInterned = record {
      bounded = λ j id h. elim (find_other j id h) [
        | inl own ↦ omega (arith, own.1, length-append ps (no_postings ∷ []))
        | inr before ↦ omega (arith, ok.bounded j id before, length-append ps (no_postings ∷ []))
      ];
      injective = added_injective;
    }

    added-Extends : Extends (s, ps) added
    added-Extends = record {
      keeps = find_kept;
      fresh = λ j id h. elim (find_other j id h) [
        | inl own ↦ inr (omega (arith, own.1))
        | inr before ↦ inl before
      ];
      grows = omega (arith, length-append ps (no_postings ∷ []));
      same = posted_added;
      in_order = λ bound h. All-append _ ps (no_postings ∷ []) h (tt, tt);
    }

  -- A key gets an id that was, or is now, its own; nothing else changes.
  pub intern_lem :
      (k : K) (st : S × List HotPostingList)
      → IsInterned st
      → IsInterned (intern t k st).1
        × Extends st (intern t k st).1
        × (t.find (intern t k st).1.0 k ≡ some (intern t k st).0)
  unfolding intern
  intern_lem k (s, ps) ok = elim (Option-cases (t.find s k)) [
    | inl new ↦
        rw (intern, new)
          (
            added-IsInterned s ps k new ok,
            added-Extends s ps k new ok,
            ground (arith, t.find-add s k (length ps) k, key.beq_iff k k),
          )
    | inr (id, old) ↦ rw (intern, old) (ok, Extends-refl (s, ps), old)
  ]
