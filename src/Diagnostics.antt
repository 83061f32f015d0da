-- ===== src/Diagnostics.antt =====
-- `_safe_details` and `diagnostic` of comprehension_verification/diagnostics.py, and the errors that
-- making a diagnostic or a plan may raise. The pattern of a code is not checked here: the callers
-- modelled pass literals.
use Prim.Native.Char.{Char, code}
use Prim.Native.String.{count}
use pruebas_personalizadas.Prelude.Common.{
  ◌+◌, String, List, [], ◌∷◌, Bool, true, false, ◌&&◌, ◌||◌,
}
use pruebas_personalizadas.Prelude.Tests.{ltb, leb, nat_beq}
use pruebas_personalizadas.Prelude.Lists.{length, any}
use pruebas_personalizadas.Prelude.Result.{Result, ok, reject, ◌>>=◌, ◌>>◌}
use pruebas_personalizadas.Contracts.Enums.{Severity}
use pruebas_personalizadas.Contracts.Evidence.{Detail, Diagnostic}

pub data ModelError : Type 0 where
  missing_submission_id unplannable_status invalid_plan invalid_diagnostic : ModelError
  sensitive_detail detail_too_long : ModelError

abbrev pub Made : Type 0 → Type 0
Made A = Result ModelError A

abbrev lowers_char : Char → Char → Bool
lowers_char c d =
    nat_beq (code c) (code d)
    || (leb 65 (code c) && leb (code c) 90 && nat_beq (code c + 32) (code d))

-- `key.lower() == word` for a word of small letters of ASCII: none of the words holds a `k`, the
-- one letter of ASCII that is the lower case of a character outside it.
unfoldable pub lowers_to : String → String → Bool
lowers_to String.[] String.[] = true
lowers_to String.[] (String.◌∷◌ d t) = false
lowers_to (String.◌∷◌ c s) String.[] = false
lowers_to (String.◌∷◌ c s) (String.◌∷◌ d t) = lowers_char c d && lowers_to s t

abbrev sensitive_detail_keys : List String
sensitive_detail_keys =
    "content" ∷ "content_text" ∷ "display_text" ∷ "email" ∷ "name" ∷ "prompt" ∷ "secret"
    ∷ "student_text" ∷ []

unfoldable pub is_sensitive : String → Bool
unfolding lowers_to
is_sensitive key = any (lowers_to key) sensitive_detail_keys

abbrev is_long : Detail → Bool
is_long (Detail.number n) = false
is_long (Detail.text value) = ltb 256 (count value)

unfoldable pub safe_details : List (String × Detail) → Made (List (String × Detail))
unfolding is_sensitive
safe_details [] = ok []
safe_details ((key, value) ∷ rest) = do
  reject (is_sensitive key) ModelError.sensitive_detail
  reject (is_long value) ModelError.detail_too_long
  safe_details rest >>= λ cleaned. ok ((key, value) ∷ cleaned)

-- The bounds that `Diagnostic` has on its fields.
unfoldable pub create_diagnostic : Diagnostic → Made Diagnostic
create_diagnostic item = do
  reject (ltb (count item.message) 3) ModelError.invalid_diagnostic
  reject (ltb 1000 (count item.message)) ModelError.invalid_diagnostic
  reject (ltb 100 (length item.evidence_ids)) ModelError.invalid_diagnostic
  reject (ltb 100 (length item.source_ids)) ModelError.invalid_diagnostic
  ok item

unfoldable pub diagnostic :
    String
    → String
    → Severity
    → List String
    → List String
    → Bool
    → List (String × Detail)
    → Made Diagnostic
unfolding safe_details create_diagnostic
diagnostic code message severity evidence_ids source_ids retryable details = do
  cleaned ← safe_details details
  create_diagnostic (record {
    code = code;
    severity = severity;
    message = message;
    evidence_ids = evidence_ids;
    source_ids = source_ids;
    retryable = retryable;
    details = cleaned;
  })
