-- ===== src/Stripe/Keyed.antt =====
-- One more record in an index by keys: its keys get ids, and its ordinal is pushed on their lists.
use shard_log.Prelude.{
  ℕ, zero, suc, ◌<◌, ◌≡◌, sym, subst, ◌∙◌, Bool, ◌&&◌, ◌||◌, some, List, [], ◌∷◌, ◌++◌, length, leb,
  Eq, nat_eq, arith, All, length-append, Option-cases, Bool-cases, inl, inr,
}
use shard_log.Query.Types.{DurableLogRecord}
use shard_log.Stripe.Postings.{HotPostingList}
use shard_log.Stripe.Interner.{Ids, push_each, mem}
use shard_log.Stripe.InternerLaws.{PostingsTo, posted_id, posted_key}
use shard_log.Stripe.Publication.{Covers, Covers-Extends, IsResult}
use shard_log.Stripe.PushLaws.{push_each_range}
use shard_log.Stripe.Ordinals.{at_ordinal}
use shard_log.Stripe.IndexState.{IsKeyed}

module _ {K S : Type 0} ⦃key : Eq K⦄ (t : Ids K S) where
  -- Pushing on posting lists leaves the ids as they are.
  Covers-pushed :
      (s : S) (ps ps' : List HotPostingList) (Q : K → Bool) (ids : List ℕ)
      → length ps' ≡ length ps
      → Covers t (s, ps) Q ids
      → Covers t (s, ps') Q ids
  Covers-pushed s ps ps' Q ids l c = record {
    covered = c.covered;
    only = c.only;
    slots = subst (λ n. All (λ id. id < n) ids) (sym l) c.slots;
    once = c.once;
  }

  at_last :
      (records : List DurableLogRecord) (r : DurableLogRecord) (f : DurableLogRecord → Bool) (o : ℕ)
      → at_ordinal (records ++ r ∷ []) f o
        ≡ (at_ordinal records f o || (f r && (leb (length records) o && leb o (length records))))
  unfolding at_ordinal
  at_last [] r f zero = ground arith
  at_last [] r f (suc o) = ground arith
  at_last (x ∷ records) r f zero = ground arith
  at_last (x ∷ records) r f (suc o) = at_last records r f o ∙ ground arith

  posted_pushed :
      (s : S) (ps ps' : List HotPostingList) (Q : K → Bool) (ids : List ℕ) (n : ℕ)
      → Covers t (s, ps) Q ids
      → ((i o : ℕ) → posted_id ps' i o ≡ (posted_id ps i o || (mem i ids && (leb n o && leb o n))))
      → (k : K) (o : ℕ)
      → posted_key t (s, ps') k o ≡ (posted_key t (s, ps) k o || (Q k && (leb n o && leb o n)))
  unfolding posted_key
  posted_pushed s ps ps' Q ids n c h k o = elim (Option-cases (t.find s k)) [
    | inl unknown ↦ elim (Bool-cases (Q k)) [
      | inl wanted ↦ absurd (ground (arith, (c.covered k wanted).1))
      | inr other ↦ ground arith
    ]
    | inr (id, found) ↦ elim (Bool-cases (Q k)) [
      | inl wanted ↦ ground (arith, h id o, (c.covered k wanted).1, (c.covered k wanted).2)
      | inr other ↦ ground (arith, h id o, c.only k id found)
    ]
  ]

  -- What a record with its ids adds.
  pub record IsPushed (keys_of : DurableLogRecord → List K) (st : S × List HotPostingList)
      (records : List DurableLogRecord) (r : DurableLogRecord) (ids : List ℕ) (s : S)
      (ps : List HotPostingList) : Type 0 where
    pub keyed : IsKeyed t keys_of (s, ps) (records ++ r ∷ [])
    pub covers : Covers t (s, ps) (λ k. mem k (keys_of r)) ids
    pub kept : (Q : K → Bool) (js : List ℕ) → Covers t st Q js → Covers t (s, ps) Q js

  -- The ordinal of a new record is pushed on the lists of its ids without a panic, and the index is then
  -- right for the records with the new one.
  pub push_each-IsPushed :
      (keys_of : DurableLogRecord → List K) (st : S × List HotPostingList)
      (records : List DurableLogRecord) (r : DurableLogRecord)
      (res : List ℕ × (S × List HotPostingList))
      → IsKeyed t keys_of st records
      → IsResult t st (λ k. mem k (keys_of r)) res
      → (ps : List HotPostingList) × (push_each (length records) (length records) res.0 res.1.1
          ≡ some ps)
        × IsPushed keys_of st records r res.0 res.1.0 ps
  push_each-IsPushed keys_of st records r res ok done =
      let n = length records in
      let (ps, e, l, w, posts) =
        push_each_range n n res.0 res.1.1 (omega arith) done.covers.slots done.covers.once
          (done.extends.in_order n ok.in_order) in
      (
        ps,
        e,
        record {
          keyed = record {
            interned = record {
              bounded = λ k id f. subst (λ m. id < m) (sym l) (done.interned.bounded k id f);
              injective = done.interned.injective;
            };
            in_order =
                subst (λ m. PostingsTo m ps) (omega (arith, length-append records (r ∷ []))) w;
            exact = λ k o.
                posted_pushed res.1.0 res.1.1 ps _ res.0 n done.covers posts k o
                ∙ ground (
                  arith,
                  done.extends.same k o,
                  ok.exact k o,
                  at_last records r (λ (x : DurableLogRecord). mem k (keys_of x)) o,
                );
          };
          covers = Covers-pushed res.1.0 res.1.1 ps _ res.0 l done.covers;
          kept = λ Q js c.
              Covers-pushed res.1.0 res.1.1 ps Q js l
                (Covers-Extends t st res.1 Q js done.extends c);
        },
      )
