-- ===== src/Stripe/Gathering.antt =====
-- The posting lists that a lookup gathers, against the records that meet its constraints.
use shard_log.Prelude.{
  ℕ, ◌≤◌, ◌≡◌, refl, sym, ap, subst, ◌∙◌, Bool, true, false, ◌&&◌, Option, none, some, List, [],
  ◌∷◌, ◌++◌, is_empty, Eq, All, arith, Bool-cases, Option-cases, inl, inr,
}
use shard_log.Prelude.Sorting.{
  retain, retain_none, retain-All, retain-congr, retain-retain, sort_by, insert_by,
}
use shard_log.Query.Matches.{all_of}
use shard_log.Stripe.Postings.{HotPostingList, is_empty_in, intersect_ordinal_runs}
use shard_log.Stripe.PostingLaws.{RunsFrom, posted}
use shard_log.Stripe.Windows.{window}
use shard_log.Stripe.Collect.{is_empty_in-retain}
use shard_log.Stripe.Intersection.{Rising, Rising-retain, intersect_ordinal_runs_lem}
use shard_log.Stripe.Interner.{Ids, get_elem?}
use shard_log.Stripe.InternerLaws.{PostingsTo, posted_id, posted_key}
use shard_log.Stripe.PushLaws.{All-get_elem?}
use shard_log.Stripe.Lookup.{gather_postings, intersect_all, compare_cardinality}

abbrev pub holds : List HotPostingList → ℕ → Bool
holds ps o = all_of (λ (p : HotPostingList). posted o p.runs) ps

-- An empty selection by one test is empty by that test and another.
retain_both : (p q : ℕ → Bool) (os : List ℕ) → retain p os ≡ [] → retain (λ o. p o && q o) os ≡ []
unfolding retain
retain_both p q [] h = refl
retain_both p q (o ∷ os) h = elim (Bool-cases (p o)) [
  | inl kept ↦ ground (arith, retain_both p q os)
  | inr gone ↦ ground (arith, retain_both p q os)
]

pub everywhere : (P : ℕ → Type 0) → ((o : ℕ) → P o) → (os : List ℕ) → All P os
everywhere P h [] = tt
everywhere P h (o ∷ os) = (h o, everywhere P h os)

module _ {K S : Type 0} ⦃key : Eq K⦄ (t : Ids K S) (s : S) (ps : List HotPostingList)
    (start end bound : ℕ) (room : start ≤ end) (w : PostingsTo bound ps) where
  -- What gathering the postings of keys has found: lists in order that hold what is posted under all
  -- the keys, or that nothing of the window is posted under all of them.
  abbrev pub Gathered : List K → Option (List HotPostingList) → Type 0
  Gathered ks none = retain (λ o. all_of (λ k. posted_key t (s, ps) k o) ks) (window start end) ≡ []
  Gathered ks (some lists) =
      PostingsTo bound lists × ((o : ℕ) → holds lists o ≡ all_of (λ k. posted_key t (s, ps) k o) ks)

  -- Nothing of the window is posted under one of the keys.
  none-Gathered :
      (k : K) (ks : List K)
      → retain (posted_key t (s, ps) k) (window start end) ≡ []
      → Gathered (k ∷ ks) none
  unfolding all_of
  none-Gathered k ks h =
      retain_both (posted_key t (s, ps) k) (λ o. all_of (λ j. posted_key t (s, ps) j o) ks)
        (window start end) h

  none_later : (k : K) (ks : List K) → Gathered ks none → Gathered (k ∷ ks) none
  unfolding all_of
  none_later k ks h =
      retain-congr _ _ (window start end) (
        everywhere _
          (λ o. and_comm (posted_key t (s, ps) k o) (all_of (λ j. posted_key t (s, ps) j o) ks))
          (window start end))
      ∙ retain_both (λ o. all_of (λ j. posted_key t (s, ps) j o) ks) (posted_key t (s, ps) k)
          (window start end) h
    where
      and_comm : (a b : Bool) → (a && b) ≡ (b && a)
      and_comm a b = ground arith

  posted_unknown : (k : K) → t.find s k ≡ none → (o : ℕ) → posted_key t (s, ps) k o ≡ false
  unfolding posted_key
  posted_unknown k h o = rw (posted_key, h)

  posted_slot :
      (k : K) (id : ℕ) (p : HotPostingList)
      → t.find s k ≡ some id
      → get_elem? ps id ≡ some p
      → (o : ℕ) → posted_key t (s, ps) k o ≡ posted o p.runs
  unfolding posted_key posted_id
  posted_slot k id p h g o = rw (posted_key, h, posted_id, g)

  posted_no_slot :
      (k : K) (id : ℕ)
      → t.find s k ≡ some id
      → get_elem? ps id ≡ none
      → (o : ℕ) → posted_key t (s, ps) k o ≡ false
  unfolding posted_key posted_id
  posted_no_slot k id h g o = rw (posted_key, h, posted_id, g)

  retain_unposted :
      (k : K)
      → ((o : ℕ) → posted_key t (s, ps) k o ≡ false)
      → retain (posted_key t (s, ps) k) (window start end) ≡ []
  retain_unposted k h = retain_none _ (window start end) (everywhere _ h (window start end))

  pub gather_postings-Gathered :
      (ks : List K) → Gathered ks (gather_postings (t.find s) ps start end ks)
  unfolding gather_postings all_of
  gather_postings-Gathered [] = (tt, λ o. refl)
  gather_postings-Gathered (k ∷ ks) = elim (Option-cases (t.find s k)) [
    | inl unknown ↦
        subst (Gathered (k ∷ ks)) (unknown_key unknown)
          (none-Gathered k ks (retain_unposted k (posted_unknown k unknown)))
    | inr (id, found) ↦ elim (Option-cases (get_elem? ps id)) [
      | inl no_slot ↦
          subst (Gathered (k ∷ ks)) (no_slot_key id found no_slot)
            (none-Gathered k ks (retain_unposted k (posted_no_slot k id found no_slot)))
      | inr (p, slot) ↦
          let p_in_order =
            All-get_elem? (λ (x : HotPostingList). RunsFrom 0 bound x.runs) ps w id p slot in
          elim (Bool-cases (is_empty_in start end p)) [
            | inl empty ↦ subst (Gathered (k ∷ ks)) (empty_key id p found slot empty) (
                none-Gathered k ks (
                  retain-congr _ _ (window start end)
                    (everywhere _ (posted_slot k id p found slot) (window start end))
                  ∙ is_empty_in-retain start end bound p p_in_order room empty))
            | inr some_held ↦ elim (Option-cases (gather_postings (t.find s) ps start end ks)) [
              | inl nothing ↦
                  subst (Gathered (k ∷ ks)) (later_key id p found slot some_held none nothing)
                    (none_later k ks (subst (Gathered ks) nothing (gather_postings-Gathered ks)))
              | inr (lists, those) ↦
                  let ih = subst (Gathered ks) those (gather_postings-Gathered ks) in
                  subst (Gathered (k ∷ ks)) (later_key id p found slot some_held (some lists) those)
                    ((p_in_order, ih.0), λ o. rw (posted_slot k id p found slot o, ih.1 o))
            ]
          ]
    ]
  ]
    where
      unknown_key : t.find s k ≡ none → none ≡ gather_postings (t.find s) ps start end (k ∷ ks)
      unknown_key h = rw (gather_postings, h)

      no_slot_key :
          (id : ℕ)
          → t.find s k ≡ some id
          → get_elem? ps id ≡ none
          → none ≡ gather_postings (t.find s) ps start end (k ∷ ks)
      no_slot_key id h g = rw (gather_postings, h, g)

      empty_key :
          (id : ℕ) (p : HotPostingList)
          → t.find s k ≡ some id
          → get_elem? ps id ≡ some p
          → is_empty_in start end p ≡ true
          → none ≡ gather_postings (t.find s) ps start end (k ∷ ks)
      empty_key id p h g e = rw (gather_postings, h, g, e)

      later_key :
          (id : ℕ) (p : HotPostingList)
          → t.find s k ≡ some id
          → get_elem? ps id ≡ some p
          → is_empty_in start end p ≡ false
          → (rest : Option (List HotPostingList))
          → gather_postings (t.find s) ps start end ks ≡ rest
          → elim rest [ none ↦ none | some qs ↦ some (p ∷ qs) ]
            ≡ gather_postings (t.find s) ps start end (k ∷ ks)
      later_key id p h g e rest r = rw (gather_postings, h, g, e, r)

pub retain_in_turn :
    (p : HotPostingList) (ps : List HotPostingList) (os : List ℕ)
    → retain (holds ps) (retain (λ o. posted o p.runs) os) ≡ retain (holds (p ∷ ps)) os
unfolding all_of
retain_in_turn p ps os =
    sym (retain-retain (holds ps) (λ o. posted o p.runs) os)
    ∙ retain-congr _ _ os (everywhere _ (λ o. turned o) os)
  where
    turned : (o : ℕ) → (holds ps o && posted o p.runs) ≡ holds (p ∷ ps) o
    turned o = ground arith

abbrev unless_empty : List ℕ → List ℕ → List ℕ
unless_empty left rest = elim (is_empty left) [ true ↦ left | false ↦ rest ]

intersect_all_step :
    (start end : ℕ) (p : HotPostingList) (ps : List HotPostingList) (os : List ℕ)
    → intersect_all start end (p ∷ ps) os
      ≡ unless_empty
          (intersect_ordinal_runs os p.runs start end)
          (intersect_all start end ps (intersect_ordinal_runs os p.runs start end))
unfolding intersect_all
intersect_all_step start end p ps os = refl

-- Intersecting with one list after the other keeps what all of them hold.
pub intersect_all_lem :
    (start end bound : ℕ) (ps : List HotPostingList) (os : List ℕ)
    → Rising start end os
    → PostingsTo bound ps
    → intersect_all start end ps os ≡ retain (holds ps) os
unfolding intersect_all all_of
intersect_all_lem start end bound [] os r w =
    sym (retain-All _ os (everywhere _ (λ o. refl_holds o) os))
  where
    refl_holds : (o : ℕ) → holds [] o ≡ true
    refl_holds o = ground arith
intersect_all_lem start end bound (p ∷ ps) os r w =
    intersect_all_step start end p ps os
    ∙ (ap (λ l. unless_empty l (intersect_all start end ps l))
          (intersect_ordinal_runs_lem start end bound os p.runs r w.0)
        ∙ (stopped (retain (λ o. posted o p.runs) os) _ (
              intersect_all_lem start end bound ps (retain (λ o. posted o p.runs) os)
                (Rising-retain (λ o. posted o p.runs) start end os r) w.1)
            ∙ retain_in_turn p ps os))
  where
    stopped :
        (left rest : List ℕ)
        → rest ≡ retain (holds ps) left
        → unless_empty left rest ≡ retain (holds ps) left
    stopped [] rest h = sym (retain_none (holds ps) [] tt)
    stopped (o ∷ left) rest h = h

-- The order in which lists are intersected does not matter.
holds-insert_by :
    (p : HotPostingList) (ps : List HotPostingList) (o : ℕ)
    → holds (insert_by compare_cardinality p ps) o ≡ holds (p ∷ ps) o
unfolding insert_by all_of
holds-insert_by p [] o = refl
holds-insert_by p (q ∷ ps) o = ground (arith, holds-insert_by p ps o)

pub holds-sort_by :
    (ps : List HotPostingList) (o : ℕ) → holds (sort_by compare_cardinality ps) o ≡ holds ps o
unfolding sort_by all_of
holds-sort_by [] o = refl
holds-sort_by (p ∷ ps) o =
    holds-insert_by p (sort_by compare_cardinality ps) o
    ∙ ap (λ b. posted o p.runs && b) (holds-sort_by ps o)

pub holds-append :
    (ps qs : List HotPostingList) (o : ℕ) → holds (ps ++ qs) o ≡ (holds ps o && holds qs o)
unfolding all_of
holds-append [] qs o = refl
holds-append (p ∷ ps) qs o = ground (arith, holds-append ps qs o)
