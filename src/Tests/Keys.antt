-- ===== src/Tests/Keys.antt =====
-- An idempotency key at concrete requests, with numbers for responses.
use pruebas_personalizadas.Prelude.Common.{
  ℕ, String, none, some, List, [], ◌∷◌, ◌≡◌, refl, Bool, false,
}
use pruebas_personalizadas.Prelude.Tests.{if◌then◌else◌}
use pruebas_personalizadas.Prelude.Eq.{◌==◌, string_eq, nat_eq}
use pruebas_personalizadas.Prelude.Result.{ok, err, reject, ◌>>◌}
use pruebas_personalizadas.Idempotency.{
  IdempotencyError, IdempotencyRow, reservation, select_row, commit_row, reserve_idempotency,
  store_response, complete_idempotency, release_idempotency,
}
use pruebas_personalizadas.Idempotency.Exclusive.{
  reserve_idempotency-exclusive, complete_idempotency-replays,
}

abbrev nothing : List (IdempotencyRow ℕ)
nothing = []

abbrev open_rows : List (IdempotencyRow ℕ)
open_rows = reservation "ten" "key" "fp" ∷ []

abbrev done_rows : List (IdempotencyRow ℕ)
done_rows = record { tenant_id = "ten"; key = "key"; fingerprint = "fp"; response = some 7 } ∷ []

granted_test : reserve_idempotency "ten" "key" "fp" nothing nothing nothing ≡ (ok none, open_rows)
unfolding reserve_idempotency select_row commit_row
granted_test = refl

granted_answer_test : (reserve_idempotency "ten" "key" "fp" nothing nothing nothing).0 ≡ ok none
unfolding reserve_idempotency select_row commit_row
granted_answer_test = refl

standing_test :
    select_row "ten" "key" open_rows
    ≡ select_row "ten" "key" (reserve_idempotency "ten" "key" "fp" nothing nothing nothing).1
unfolding reserve_idempotency select_row commit_row
standing_test = refl

-- A second request whose first select was too early loses the race.
reserve_idempotency-exclusive_example :
    (select_row "ten" "key" nothing ≡ none)
    × (reserve_idempotency "ten" "key" "other" nothing open_rows open_rows ≡ (
      err (
          if ◌==◌ {A = String} "fp" "other"
          then IdempotencyError.request_in_progress
          else IdempotencyError.key_reused),
      open_rows,
    ))
reserve_idempotency-exclusive_example =
    reserve_idempotency-exclusive "ten" "key" "fp" "other" nothing nothing nothing nothing open_rows
      open_rows granted_answer_test standing_test standing_test

abbrev durable : ℕ → Bool
durable n = false

complete_test : complete_idempotency durable "ten" "key" "fp" 7 open_rows ≡ ok done_rows
unfolding complete_idempotency select_row store_response reject ◌>>◌
complete_test = refl

complete_idempotency-replays_example :
    (later : List (IdempotencyRow ℕ)) × (later ≡ release_idempotency "ten" "key" "fp" done_rows)
    × (reserve_idempotency "ten" "key" "fp" done_rows done_rows done_rows
        ≡ (ok (some 7), done_rows))
    × (reserve_idempotency "ten" "key" "fp" later later later ≡ (ok (some 7), later))
complete_idempotency-replays_example =
    complete_idempotency-replays "ten" "key" durable "fp" 7 open_rows complete_test
