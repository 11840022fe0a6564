-- ===== src/Runtime/Text.antt =====
-- crates/telemetry/src/lib.rs and crates/runtime/src/lib.rs: the texts of the runtime: redaction,
-- searches and printed numbers, by the characters of a text.
use Prim.Native.String
use Prim.Native.Char.{Char, code}
use Prim.Native.Nat.{◌%◌, ◌/◌}
use text.Mathlib.Text.{starts_with}
use aivtuber.Common.{
  ℕ, zero, suc, ◌-◌, String, Bool, true, ◌&&◌, List, [], ◌∷◌, ◌==◌, string_eq, ltb, leb,
  if◌then◌else◌,
}

-- `str::replace(secret, "[REDACTED]")` for a secret that is not empty: the matches from the left,
-- which do not overlap. The first argument is the number of characters that a match still covers.
unfoldable pub replace_from : ℕ → String → String → String
replace_from skip secret String.[] = ""
replace_from zero secret (String.◌∷◌ c s) =
    let after = replace_from (String.count secret - 1) secret s in
    let next = replace_from 0 secret s in
    if starts_with (String.◌∷◌ c s) secret
    then String.◌++◌ "[REDACTED]" after
    else String.◌∷◌ c next
replace_from (suc skip) secret (String.◌∷◌ c s) = replace_from skip secret s

-- `SecretRedactor`
pub record SecretRedactor : Type 0 where
  pub secrets : List String

-- `filter(|secret| !secret.is_empty())`
unfoldable pub retain_filled : List String → List String
retain_filled [] = []
retain_filled (secret ∷ rest) =
    let kept = retain_filled rest in if secret == "" then kept else secret ∷ kept

-- `SecretRedactor::new`
unfoldable pub new_redactor : List String → SecretRedactor
unfolding retain_filled
new_redactor secrets = record { secrets = retain_filled secrets }

unfoldable pub redact_all : List String → String → String
unfolding replace_from
redact_all [] output = output
redact_all (secret ∷ rest) output = redact_all rest (replace_from 0 secret output)

-- `SecretRedactor::redact`
unfoldable pub redact : SecretRedactor → String → String
unfolding redact_all
redact r text = redact_all r.secrets text

-- `str::contains`
unfoldable pub contains_text : String → String → Bool
contains_text term String.[] = starts_with "" term
contains_text term (String.◌∷◌ c s) =
    let later = contains_text term s in if starts_with (String.◌∷◌ c s) term then true else later

abbrev lower : Char → Char
lower c =
    if leb 65 (code c) && leb (code c) 90
    then String.char_at "abcdefghijklmnopqrstuvwxyz" (code c - 65)
    else c

-- `str::to_ascii_lowercase`
unfoldable pub to_ascii_lowercase : String → String
to_ascii_lowercase String.[] = ""
to_ascii_lowercase (String.◌∷◌ c s) = String.◌∷◌ (lower c) (to_ascii_lowercase s)

-- The decimal digits of a word, of which there are at most twenty.
unfoldable digits : ℕ → ℕ → String
digits zero n = ""
digits (suc fuel) n =
    let above = digits fuel (n / 10) in
    let last = String.◌∷◌ (String.char_at "0123456789" (n % 10)) "" in
    if ltb n 10 then last else String.◌++◌ above last

-- `Display` of a `usize`
unfoldable pub display : ℕ → String
unfolding digits
display n = digits 20 n
