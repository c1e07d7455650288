-- ===== src/Query/Text.antt =====
-- The text tests of src/query.rs, and `scan_message_terms` of src/locality.rs. A text is the list of its
-- UTF-8 bytes. What the standard library's Unicode tables and the regex crate answer is a parameter.
use shard_log.Prelude.{
  ℕ, ◌+◌, ◌-◌, ◌≡◌, Bool, true, false, ◌&&◌, ◌||◌, Option, none, some, List, [], ◌∷◌, ◌++◌, map,
  length, is_empty, take, drop, any, ltb, leb, nat_eq, ◌==◌, list_beq, if◌then◌else◌,
}
use shard_log.NativeProtocol.Wire.{Text}
use shard_log.Query.Types.{
  CaseSensitivity, sensitive, insensitive, exact, contains, prefix, suffix, TextMatcher, LogRegex,
}

unfoldable pub is_ascii : Text → Bool
is_ascii [] = true
is_ascii (b ∷ bytes) = ltb b 0x80 && is_ascii bytes

abbrev pub is_ascii_uppercase : ℕ → Bool
is_ascii_uppercase b = leb b'A' b && leb b b'Z'

abbrev pub to_ascii_lowercase : ℕ → ℕ
to_ascii_lowercase b = if is_ascii_uppercase b then b + 32 else b

abbrev pub is_ascii_alphanumeric : ℕ → Bool
is_ascii_alphanumeric b =
    (leb b'0' b && leb b b'9') || ((leb b'A' b && leb b b'Z') || (leb b'a' b && leb b b'z'))

-- `str::to_lowercase`, `chars().any(char::is_uppercase)`, `char::is_alphanumeric` of a character by its
-- bytes, and `Regex::is_match`. On ASCII the tables say what the ASCII functions do.
pub record Unicode : Type 0 where
  pub to_lowercase : Text → Text
  pub any_uppercase : Text → Bool
  pub is_alphanumeric : Text → Bool
  pub is_match : LogRegex → Text → Bool
  pub lowercase_ascii : (t : Text) → is_ascii t ≡ true → to_lowercase t ≡ map to_ascii_lowercase t
  pub uppercase_ascii : (t : Text) → is_ascii t ≡ true → any_uppercase t ≡ any is_ascii_uppercase t

unfoldable pub eq_ignore_ascii_case : Text → Text → Bool
eq_ignore_ascii_case a b = list_beq (map to_ascii_lowercase a) (map to_ascii_lowercase b)

unfoldable pub starts_with : Text → Text → Bool
starts_with t [] = true
starts_with [] (p ∷ ps) = false
starts_with (b ∷ bytes) (p ∷ ps) = b == p && starts_with bytes ps

-- `str::contains` of a text.
unfoldable pub contains_text : Text → Text → Bool
unfolding starts_with
contains_text [] needle = is_empty needle
contains_text (b ∷ bytes) needle = starts_with (b ∷ bytes) needle || contains_text bytes needle

unfoldable pub ends_with : Text → Text → Bool
ends_with t s = leb (length s) (length t) && list_beq (drop (length t - length s) t) s

-- `slice::windows`, for a positive width.
unfoldable pub windows : ℕ → Text → List Text
windows width [] = []
windows width (b ∷ bytes) =
    let rest = windows width bytes in
    if leb width (length (b ∷ bytes)) then take width (b ∷ bytes) ∷ rest else []

-- The characters of a text in UTF-8: a byte and the continuation bytes behind it.
unfoldable pub push_byte : ℕ → List Text → List Text
push_byte b [] = (b ∷ []) ∷ []
push_byte b ([] ∷ chars) = (b ∷ []) ∷ chars
push_byte b ((c ∷ bytes) ∷ chars) =
    if leb 0x80 c && leb c 0xBF then (b ∷ c ∷ bytes) ∷ chars else (b ∷ []) ∷ (c ∷ bytes) ∷ chars

unfoldable pub chars_of : Text → List Text
unfolding push_byte
chars_of [] = []
chars_of (b ∷ bytes) = push_byte b (chars_of bytes)

-- One round of the scan: the start that it leaves, and the term that it reports.
unfoldable pub next_start : Option ℕ → Bool → ℕ → Option ℕ
next_start none true index = some index
next_start none false index = none
next_start (some start) true index = some start
next_start (some start) false index = none

unfoldable pub finished_term : Text → Option ℕ → Bool → ℕ → List Text
finished_term message (some start) false index = drop start (take index message) ∷ []
finished_term message start alphanumeric index = []

unfoldable pub last_term : Text → Option ℕ → List Text
last_term message none = []
last_term message (some start) = drop start message ∷ []

unfoldable pub scan_chars : Text → List (Text × Bool) → ℕ → Option ℕ → List Text
unfolding next_start finished_term last_term
scan_chars message [] index start = last_term message start
scan_chars message ((c, alphanumeric) ∷ chars) index start =
    finished_term message start alphanumeric index
    ++ scan_chars message chars (index + length c) (next_start start alphanumeric index)

module _ (u : Unicode) where
  open u use {to_lowercase, is_alphanumeric}

  unfoldable pub scan_message_terms : Text → List Text
  unfolding is_ascii chars_of scan_chars
  scan_message_terms message =
      if is_ascii message
      then scan_chars message (map (λ (b : ℕ). (b ∷ [], is_ascii_alphanumeric b)) message) 0 none
      else scan_chars message (map (λ (c : Text). (c, is_alphanumeric c)) (chars_of message)) 0 none

  unfoldable pub text_equal : Text → Text → CaseSensitivity → Bool
  unfolding is_ascii eq_ignore_ascii_case
  text_equal left right sensitive = list_beq left right
  text_equal left right insensitive =
      if is_ascii left && is_ascii right
      then eq_ignore_ascii_case left right
      else list_beq (to_lowercase left) (to_lowercase right)

  unfoldable pub text_contains : Text → Text → CaseSensitivity → Bool
  unfolding is_ascii eq_ignore_ascii_case contains_text windows
  text_contains haystack [] case_sensitivity = true
  text_contains haystack (n ∷ needle) sensitive = contains_text haystack (n ∷ needle)
  text_contains haystack (n ∷ needle) insensitive =
      if is_ascii haystack && is_ascii (n ∷ needle)
      then any (λ window. eq_ignore_ascii_case window (n ∷ needle))
          (windows (length (n ∷ needle)) haystack)
      else contains_text (to_lowercase haystack) (to_lowercase (n ∷ needle))

  unfoldable pub text_prefix : Text → Text → CaseSensitivity → Bool
  unfolding is_ascii eq_ignore_ascii_case starts_with
  text_prefix observed start sensitive = starts_with observed start
  text_prefix observed start insensitive =
      if is_ascii observed && is_ascii start
      then leb (length start) (length observed)
        && eq_ignore_ascii_case (take (length start) observed) start
      else starts_with (to_lowercase observed) (to_lowercase start)

  unfoldable pub text_suffix : Text → Text → CaseSensitivity → Bool
  unfolding is_ascii eq_ignore_ascii_case ends_with
  text_suffix observed end sensitive = ends_with observed end
  text_suffix observed end insensitive =
      if is_ascii observed && is_ascii end
      then leb (length end) (length observed)
        && eq_ignore_ascii_case (drop (length observed - length end) observed) end
      else ends_with (to_lowercase observed) (to_lowercase end)

  unfoldable pub text_matches : Text → TextMatcher → Bool
  unfolding text_equal text_contains text_prefix text_suffix
  text_matches observed matcher = elim matcher.kind [
    | exact ↦ text_equal observed matcher.value matcher.case_sensitivity
    | contains ↦ text_contains observed matcher.value matcher.case_sensitivity
    | prefix ↦ text_prefix observed matcher.value matcher.case_sensitivity
    | suffix ↦ text_suffix observed matcher.value matcher.case_sensitivity
  ]

  -- The terms that `analyze_message` reports are those of the scan.
  unfoldable pub message_has_term : Text → Text → Bool
  unfolding scan_message_terms text_equal
  message_has_term message expected =
      any (λ term. text_equal term expected insensitive) (scan_message_terms message)
