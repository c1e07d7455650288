-- ===== src/Deletion/Requests.antt =====
-- What the deletion catalog promises: new ids are new, a cancelled request is gone, and an operation
-- that fails changes nothing.
use shard_log.Prelude.{
  ℕ, ◌+◌, ◌^◌, ◌<◌, ◌≤◌, ◌≡◌, ◌≢◌, ◌⊎◌, inl, inr, refl, ap, sym, ◌∙◌, some, List, [], ◌∷◌, ◌++◌,
  arith, Option-cases, Bool-cases, length, is_empty, All, All-append, ltb, nat_eq, ◌==◌, beq_refl,
  ltb→lt, subst, if◌then◌else◌, true, false,
}
use shard_log.Outcome.{Result, ok, err, Result-cases}
use shard_log.Map.{lookup, insert, remove}
use shard_log.Map.Laws.{lookup-insert, lookup-remove}
use shard_log.NativeProtocol.Wire.{Text, text_eq}
use shard_log.Deletion.Catalog.{
  LokiApiError, bad_request, internal, DeleteRequest, DeleteState, hex, received, list, requests_of,
  retain, replace, create, cancel,
}
use shard_log.Deletion.Ids.{parse, parse-hex, retain-ne, length-retain, retain-same}

-- A request with an id that `create` gave before the state.
abbrev pub Given : DeleteState → DeleteRequest → Type 0
Given s r = (k : ℕ) × (k < s.next_request_id) × (r.request_id ≡ hex 16 k)

Given-later :
    (s s' : DeleteState) (requests : List DeleteRequest)
    → s.next_request_id ≤ s'.next_request_id
    → All (Given s) requests
    → All (Given s') requests
Given-later s s' [] le all = tt
Given-later s s' (r ∷ requests) le all =
    ((all.0.0, omega (arith, all.0.1), all.0.2), Given-later s s' requests le all.1)

-- `Removed id before after`: the requests without those that have the id, in order.
pub data Removed (id : Text) : List DeleteRequest → List DeleteRequest → Type 0 where
  none_left : Removed id [] []
  gone :
      {r : DeleteRequest} {before after : List DeleteRequest}
      → r.request_id ≡ id
      → Removed id before after
      → Removed id (r ∷ before) after
  kept :
      {r : DeleteRequest} {before after : List DeleteRequest}
      → r.request_id ≢ id
      → Removed id before after
      → Removed id (r ∷ before) (r ∷ after)

module _ (persist : DeleteState → Result LokiApiError (Unit {0})) (s : DeleteState)
    (tenant : Text) where
  Given-ne :
      (requests : List DeleteRequest)
      → s.next_request_id < 2 ^ 64
      → All (Given s) requests
      → All (λ r. r.request_id ≢ hex 16 s.next_request_id) requests
  Given-ne [] small all = tt
  Given-ne (r ∷ requests) small all = (
    λ e. omega (
      arith,
      all.0.1,
      parse-hex 16 all.0.0 (omega (arith, all.0.1)),
      parse-hex 16 s.next_request_id small,
      ap (parse 0) (sym all.0.2 ∙ e),
    ),
    Given-ne requests small all.1,
  )

  abbrev after_cancel : Text → List DeleteRequest → DeleteState
  after_cancel id requests = record s {
    tenants =
        if is_empty (retain id requests)
        then remove tenant s.tenants
        else insert tenant (retain id requests) s.tenants;
  }

  list-after_cancel_self :
      (id : Text) (requests : List DeleteRequest)
      → list (after_cancel id requests) tenant ≡ retain id requests
  unfolding list
  list-after_cancel_self id requests = ground (
    arith,
    lookup-remove tenant tenant s.tenants,
    lookup-insert tenant tenant (retain id requests) s.tenants,
    beq_refl tenant,
  )

  list-after_cancel_ne :
      (id : Text) (requests : List DeleteRequest) (other : Text)
      → other ≢ tenant
      → list (after_cancel id requests) other ≡ list s other
  unfolding list
  list-after_cancel_ne id requests other ne = ground (
    arith,
    lookup-remove tenant other s.tenants,
    lookup-insert tenant other (retain id requests) s.tenants,
    text_eq.beq_iff tenant other,
  )

  length-ne :
      (id : Text) (requests : List DeleteRequest)
      → (length (retain id requests) == length requests) ≡ false
      → length (retain id requests) ≢ length requests
  length-ne id requests h e = ground arith

  Removed-retain :
      (id : Text) (requests : List DeleteRequest) → Removed id requests (retain id requests)
  unfolding retain
  Removed-retain id [] = none_left
  Removed-retain id (r ∷ requests) = elim (Bool-cases (r.request_id == id)) [
    | inl same ↦
        rw same (gone ((text_eq.beq_iff r.request_id id).0 same) (Removed-retain id requests))
    | inr other ↦
        rw other
          (kept (λ e. ground (arith, text_eq.beq_iff r.request_id id)) (Removed-retain id requests))
  ]

  -- `cancel` ends in one of three ways. No request of the tenant has the id, and it changes nothing. Or
  -- there are such requests, and it builds the state in which exactly they are removed, the order of the
  -- tenant's other requests, the other tenants and the next id are kept. If that state is not persisted,
  -- `cancel` fails with the error and changes nothing; if it is, it is the new state.
  pub cancel_outcome :
      (id : Text)
      → (All (λ r. r.request_id ≢ id) (list s tenant)
          × (cancel persist s tenant id ≡ (s, ok false)))
        ⊎ ((next : DeleteState) × Removed id (list s tenant) (list next tenant)
            × (length (list next tenant) < length (list s tenant))
            × ((other : Text) → other ≢ tenant → list next other ≡ list s other)
            × (next.next_request_id ≡ s.next_request_id)
            × (((e : LokiApiError) × (persist next ≡ err e)
                  × (cancel persist s tenant id ≡ (s, err e)))
                ⊎ ((persist next ≡ ok tt) × (cancel persist s tenant id ≡ (next, ok true)))))
  unfolding cancel list replace
  cancel_outcome id = elim (Option-cases (lookup tenant s.tenants)) [
    | inl e ↦ inl (rw e tt, rw (e, cancel) refl)
    | inr (requests, e) ↦ elim (Bool-cases (length (retain id requests) == length requests)) [
      | inl same ↦ inl (
        rw e (
            subst (All (λ r. r.request_id ≢ id)) (retain-same id requests (ground arith))
              (retain-ne id requests)),
        rw (e, cancel) (rw same refl),
      )
      | inr fewer ↦
          let next = after_cancel id requests in
          inr (
            next,
            rw e (
                subst (Removed id requests) (sym (list-after_cancel_self id requests))
                  (Removed-retain id requests)),
            rw (list-after_cancel_self id requests, e)
                (omega (arith, length-retain id requests, length-ne id requests fewer)),
            λ other ne. list-after_cancel_ne id requests other ne,
            refl,
            elim (Result-cases (persist next)) [
              | inr (x, failed_write) ↦
                  inl (x, failed_write, rw (e, cancel) (rw fewer (rw (failed_write, replace) refl)))
              | inl (u, written) ↦
                  inr (written, rw (e, cancel) (rw fewer (rw (written, replace) refl)))
            ],
          )
    ]
  ]

  list-created :
      (s' : DeleteState) (r : DeleteRequest)
      → lookup tenant s'.tenants ≡ (
          if tenant == tenant
          then some (requests_of (lookup tenant s.tenants) ++ (r ∷ []))
          else lookup tenant s.tenants)
      → list s' tenant ≡ list s tenant ++ (r ∷ [])
  unfolding list
  list-created s' r inserted = ground (arith, inserted, beq_refl tenant)

  -- Where the requests of the tenant all have ids that `create` gave: `create` refuses reversed times,
  -- then it refuses when the ids are used up, and changes nothing. Else it builds the state with one
  -- request more, which stands behind those of the tenant, has the given times and query, is received and
  -- has an id that none of them has. The other tenants are kept, the next id moves on, and the requests of
  -- the tenant all have ids that `create` gave. If that state is not persisted, `create` fails with the
  -- error and changes nothing; if it is, it is the new state, and the id is returned.
  pub create_outcome :
      (start_time end_time : ℕ) (query : Text) (created_at : ℕ)
      → All (Given s) (list s tenant)
      → ((end_time < start_time)
          × (create persist s tenant start_time end_time query created_at
              ≡ (s, err (bad_request "delete start timestamp must not exceed end timestamp"))))
        ⊎ ((start_time ≤ end_time)
            × (2 ^ 64 ≤ s.next_request_id + 1)
            × (create persist s tenant start_time end_time query created_at
                ≡ (s, err (internal "delete request ID space exhausted"))))
        ⊎ ((start_time ≤ end_time)
            × (s.next_request_id + 1 < 2 ^ 64)
            × (next : DeleteState) × (r : DeleteRequest) × (list next tenant
                ≡ list s tenant ++ (r ∷ []))
            × (r.start_time ≡ start_time)
            × (r.end_time ≡ end_time)
            × (r.query ≡ query)
            × (r.status ≡ received)
            × (r.created_at ≡ created_at)
            × All (λ old. old.request_id ≢ r.request_id) (list s tenant)
            × ((other : Text) → other ≢ tenant → list next other ≡ list s other)
            × (next.next_request_id ≡ s.next_request_id + 1)
            × All (Given next) (list next tenant)
            × (((e : LokiApiError) × (persist next ≡ err e)
                  × (create persist s tenant start_time end_time query created_at ≡ (s, err e)))
                ⊎ ((persist next ≡ ok tt)
                    × (create persist s tenant start_time end_time query created_at
                        ≡ (next, ok r.request_id)))))
  unfolding create list replace
  create_outcome start_time end_time query created_at given =
      elim (Bool-cases (ltb end_time start_time)) [
        | inl reversed ↦ inl (ltb→lt _ _ reversed, rw reversed refl)
        | inr ordered ↦ elim (Bool-cases (ltb (s.next_request_id + 1) (2 ^ 64))) [
          | inr used_up ↦ inr (inl (ground arith, ground arith, rw (ordered, used_up) refl))
          | inl room ↦
              let r : DeleteRequest = record {
                request_id = hex 16 s.next_request_id;
                start_time = start_time;
                end_time = end_time;
                query = query;
                status = received;
                created_at = created_at;
              } in
              let next : DeleteState = record {
                next_request_id = s.next_request_id + 1;
                tenants =
                    insert tenant (requests_of (lookup tenant s.tenants) ++ (r ∷ [])) s.tenants;
              } in
              let inserted : (j : Text)
                  → lookup j next.tenants ≡ (
                      if tenant == j
                      then some (requests_of (lookup tenant s.tenants) ++ (r ∷ []))
                      else lookup j s.tenants) =
                λ j.
                  lookup-insert tenant j (requests_of (lookup tenant s.tenants) ++ (r ∷ []))
                    s.tenants in
              inr (
                inr (
                  ground arith,
                  ltb→lt _ _ room,
                  next,
                  r,
                  list-created next r (inserted tenant),
                  refl,
                  refl,
                  refl,
                  refl,
                  refl,
                  Given-ne (list s tenant) (omega (arith, ltb→lt _ _ room)) given,
                  λ other ne. ground (arith, inserted other, text_eq.beq_iff tenant other),
                  refl,
                  subst (All (Given next)) (sym (list-created next r (inserted tenant))) (
                      All-append (Given next) (list s tenant) (r ∷ [])
                        (Given-later s next (list s tenant) (omega arith) given)
                        ((s.next_request_id, omega arith, refl), tt)),
                  elim (Result-cases (persist next)) [
                    | inr (x, failed_write) ↦
                        inl (x, failed_write, rw (ordered, room) (rw (failed_write, replace) refl))
                    | inl (u, written) ↦
                        inr (written, rw (ordered, room) (rw (written, replace) refl))
                  ],
                ))
        ]
      ]
