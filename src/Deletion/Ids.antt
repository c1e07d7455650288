-- ===== src/Deletion/Ids.antt =====
-- Request ids as hexadecimal texts, and what `retain` keeps (src/deletion.rs).
use shard_log.Prelude.{
  ℕ, zero, suc, ◌+◌, ◌-◌, ◌*◌, ◌/◌, ◌%◌, ◌^◌, ◌<◌, ◌≤◌, ◌≡◌, ◌≢◌, inl, inr, refl, ◌∙◌, List, [],
  ◌∷◌, ◌++◌, arith, Bool-cases, length, All, ltb, nat_eq, ◌==◌, if◌then◌else◌,
}
use native.Mathlib.Nat.{pow-suc}
use shard_log.NativeProtocol.Wire.{Text, text_eq}
use shard_log.Deletion.Catalog.{DeleteRequest, hex, hex_digit, retain}

-- Two numbers of `width` digits with the same text are the same.
from_digit : ℕ → ℕ
from_digit c = if ltb c 58 then c - 48 else c - 87

from_digit-hex_digit : (d : ℕ) → d < 16 → from_digit (hex_digit d) ≡ d
unfolding from_digit
from_digit-hex_digit d h = ground arith

pub parse : ℕ → Text → ℕ
parse acc [] = acc
parse acc (c ∷ text) = parse (acc * 16 + from_digit c) text

parse-append :
    (acc : ℕ) (xs : Text) (c : ℕ) → parse acc (xs ++ (c ∷ [])) ≡ parse acc xs * 16 + from_digit c
unfolding parse
parse-append acc [] c = refl
parse-append acc (x ∷ xs) c = parse-append (acc * 16 + from_digit x) xs c

pub parse-hex : (width n : ℕ) → n < 16 ^ width → parse 0 (hex width n) ≡ n
unfolding hex
parse-hex zero n h = unfold parse in omega arith
parse-hex (suc width) n h =
    let bound : n < 16 ^ width * 16 = rw (pow-suc 16 width) at h in
    parse-append 0 (hex width (n / 16)) (hex_digit (n % 16))
    ∙ omega
        (arith, parse-hex width (n / 16) (omega arith), from_digit-hex_digit (n % 16) (omega arith))

retain-All {κ} :
    (P : DeleteRequest → Type κ) (id : Text) (requests : List DeleteRequest)
    → All P requests
    → All P (retain id requests)
unfolding retain
retain-All P id [] all = tt
retain-All P id (r ∷ requests) all = elim (Bool-cases (r.request_id == id)) [
  | inl same ↦ rw same (retain-All P id requests all.1)
  | inr other ↦ rw other (all.0, retain-All P id requests all.1)
]

pub retain-ne :
    (id : Text) (requests : List DeleteRequest) → All (λ r. r.request_id ≢ id) (retain id requests)
unfolding retain
retain-ne id [] = tt
retain-ne id (r ∷ requests) = elim (Bool-cases (r.request_id == id)) [
  | inl same ↦ rw same (retain-ne id requests)
  | inr other ↦
      rw other
        (λ e. absurd (ground (arith, text_eq.beq_iff r.request_id id)), retain-ne id requests)
]

pub length-retain :
    (id : Text) (requests : List DeleteRequest) → length (retain id requests) ≤ length requests
unfolding retain
length-retain id [] = omega arith
length-retain id (r ∷ requests) = ground (arith, length-retain id requests)

-- Where nothing is dropped, nothing has the id.
pub retain-same :
    (id : Text) (requests : List DeleteRequest)
    → length (retain id requests) ≡ length requests
    → retain id requests ≡ requests
unfolding retain
retain-same id [] h = refl
retain-same id (r ∷ requests) h = ground (arith, length-retain id requests, retain-same id requests)
