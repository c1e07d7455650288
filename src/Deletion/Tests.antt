-- ===== src/Deletion/Tests.antt =====
-- Two deletion requests of one tenant, and the end of one of them.
use shard_log.Prelude.{
  ◌^◌, ◌<◌, ◌≤◌, ◌≡◌, ◌≢◌, ◌⊎◌, refl, true, false, [], ◌∷◌, ◌++◌, All, length, list_beq, subst, sym,
}
use shard_log.Outcome.{Result, ok, err}
use shard_log.Map.{lookup, insert, remove}
use shard_log.NativeProtocol.Wire.{Text}
use shard_log.Deletion.Catalog.{
  LokiApiError, bad_request, internal, received, DeleteRequest, DeleteState, default_state, hex,
  list, retain, create, cancel, replace,
}
use shard_log.Deletion.Requests.{Given, Removed, create_outcome, cancel_outcome}

-- A catalog in memory.
abbrev in_memory : DeleteState → Result LokiApiError (Unit {0})
in_memory s = ok tt

abbrev acme : Text
acme = b'a' ∷ b'c' ∷ []

abbrev everything : Text
everything = b'{' ∷ b'}' ∷ []

abbrev first_state : DeleteState
first_state = (create in_memory default_state acme 5 9 everything 100).0

first_id : (create in_memory default_state acme 5 9 everything 100).1 ≡ ok (hex 16 1)
unfolding create replace
first_id = refl

hex_text : hex 4 0x2f0 ≡ b'0' ∷ b'2' ∷ b'f' ∷ b'0' ∷ []
unfolding hex
hex_text = refl

nothing_listed : list default_state acme ≡ []
unfolding list lookup
nothing_listed = refl

create_outcome_example :
    ((9 < 5)
      × (create in_memory default_state acme 5 9 everything 100 ≡ (
        default_state,
        err (bad_request "delete start timestamp must not exceed end timestamp"),
      )))
    ⊎ ((5 ≤ 9)
        × (2 ^ 64 ≤ 2)
        × (create in_memory default_state acme 5 9 everything 100
            ≡ (default_state, err (internal "delete request ID space exhausted"))))
    ⊎ ((5 ≤ 9)
        × (2 < 2 ^ 64)
        × (next : DeleteState) × (r : DeleteRequest) × (list next acme
            ≡ list default_state acme ++ (r ∷ []))
        × (r.start_time ≡ 5)
        × (r.end_time ≡ 9)
        × (r.query ≡ everything)
        × (r.status ≡ received)
        × (r.created_at ≡ 100)
        × All (λ old. old.request_id ≢ r.request_id) (list default_state acme)
        × ((other : Text) → other ≢ acme → list next other ≡ list default_state other)
        × (next.next_request_id ≡ 2)
        × All (Given next) (list next acme)
        × (((e : LokiApiError) × (in_memory next ≡ err e)
              × (create in_memory default_state acme 5 9 everything 100 ≡ (default_state, err e)))
            ⊎ ((in_memory next ≡ ok tt)
                × (create in_memory default_state acme 5 9 everything 100
                    ≡ (next, ok r.request_id)))))
create_outcome_example =
    create_outcome in_memory default_state acme 5 9 everything 100
      (subst (All (Given default_state)) (sym nothing_listed) tt)

cancelled : (cancel in_memory first_state acme (hex 16 1)).1 ≡ ok true
unfolding cancel create replace lookup retain insert remove hex list_beq
cancelled = refl

cancel_outcome_example :
    (All (λ r. r.request_id ≢ hex 16 1) (list first_state acme)
      × (cancel in_memory first_state acme (hex 16 1) ≡ (first_state, ok false)))
    ⊎ ((next : DeleteState) × Removed (hex 16 1) (list first_state acme) (list next acme)
        × (length (list next acme) < length (list first_state acme))
        × ((other : Text) → other ≢ acme → list next other ≡ list first_state other)
        × (next.next_request_id ≡ first_state.next_request_id)
        × (((e : LokiApiError) × (in_memory next ≡ err e)
              × (cancel in_memory first_state acme (hex 16 1) ≡ (first_state, err e)))
            ⊎ ((in_memory next ≡ ok tt)
                × (cancel in_memory first_state acme (hex 16 1) ≡ (next, ok true)))))
cancel_outcome_example = cancel_outcome in_memory first_state acme (hex 16 1)
