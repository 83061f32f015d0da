-- ===== src/Idempotency.antt =====
-- The idempotency keys of comprehension_verification/web/repository.py: `reserve_idempotency`,
-- `complete_idempotency` and `release_idempotency`. A table is the list of its rows, each statement of
-- the database is one step on it, and other requests may run between two steps. `R` is the type of a
-- stored response, and `transient` the test `_contains_transient_capability` on one.
pub mod Exclusive
use pruebas_personalizadas.Prelude.Common.{
  String, Option, none, some, List, [], ◌∷◌, ◌++◌, Bool, true, false, not, ◌&&◌, ◌||◌,
}
use pruebas_personalizadas.Prelude.Tests.{if◌then◌else◌, is_some}
use pruebas_personalizadas.Prelude.Eq.{Eq, ◌==◌, string_eq, option_eq}
use pruebas_personalizadas.Prelude.Result.{Result, ok, err, reject, ◌>>◌}

pub data IdempotencyError : Type 0 where
  reservation_lost key_reused request_in_progress : IdempotencyError
  response_conflict contains_transient_capability : IdempotencyError

pub record IdempotencyRow (R : Type 0) : Type 0 where
  pub tenant_id : String
  pub key : String
  pub fingerprint : String
  pub response : Option R

module _ {R : Type 0} where
  abbrev pub is_at : String → String → IdempotencyRow R → Bool
  is_at tenant_id key row = row.tenant_id == tenant_id && row.key == key

  -- `select … where tenant_id == … and key == …`
  unfoldable pub select_row : String → String → List (IdempotencyRow R) → Option (IdempotencyRow R)
  select_row tenant_id key [] = none
  select_row tenant_id key (row ∷ rows) =
      let later = select_row tenant_id key rows in
      if is_at tenant_id key row then some row else later

  -- `inspect`
  unfoldable pub inspect :
      String → String → String → List (IdempotencyRow R) → Result IdempotencyError (Option R)
  inspect tenant_id key fingerprint table = elim (select_row tenant_id key table) [
    | none ↦ err IdempotencyError.reservation_lost
    | some row ↦
        if not (row.fingerprint == fingerprint)
        then err IdempotencyError.key_reused
        else elim row.response [
          | none ↦ err IdempotencyError.request_in_progress
          | some response ↦ ok (some response)
        ]
  ]

  -- The commit of a new row, which the unique constraint on tenant and key refuses if there is one.
  unfoldable pub commit_row :
      IdempotencyRow R → List (IdempotencyRow R) → Option (List (IdempotencyRow R))
  commit_row row table =
      if is_some (select_row row.tenant_id row.key table) then none else some (table ++ row ∷ [])

  abbrev pub reservation : String → String → String → IdempotencyRow R
  reservation tenant_id key fingerprint = record {
    tenant_id = tenant_id;
    key = key;
    fingerprint = fingerprint;
    response = none;
  }

  -- The answer, and the table behind the commit. `at_select`, `at_commit` and `at_inspect` are the
  -- table at the three statements; what other requests did in between is in them.
  unfoldable pub reserve_idempotency :
      String
      → String
      → String
      → (at_select at_commit at_inspect : List (IdempotencyRow R))
      → Result IdempotencyError (Option R) × List (IdempotencyRow R)
  reserve_idempotency tenant_id key fingerprint at_select at_commit at_inspect =
      elim (select_row tenant_id key at_select) [
        | some existing ↦ (inspect tenant_id key fingerprint at_inspect, at_commit)
        | none ↦ elim (commit_row (reservation tenant_id key fingerprint) at_commit) [
          | some table ↦ (ok none, table)
          | none ↦ (inspect tenant_id key fingerprint at_inspect, at_commit)
        ]
      ]

  -- `row.response = response`
  unfoldable pub store_response :
      String → String → R → List (IdempotencyRow R) → List (IdempotencyRow R)
  store_response tenant_id key response [] = []
  store_response tenant_id key response (row ∷ rows) =
      let later = store_response tenant_id key response rows in
      if is_at tenant_id key row
      then record {
        tenant_id = row.tenant_id;
        key = row.key;
        fingerprint = row.fingerprint;
        response = some response;
      }
        ∷ rows
      else row ∷ later

  unfoldable pub complete_idempotency :
      ⦃e : Eq R⦄
      → (transient : R → Bool) → String
      → String
      → String
      → R
      → List (IdempotencyRow R)
      → Result IdempotencyError (List (IdempotencyRow R))
  complete_idempotency transient tenant_id key fingerprint response table = do
    reject (transient response) IdempotencyError.contains_transient_capability
    elim (select_row tenant_id key table) [
      | none ↦ err IdempotencyError.reservation_lost
      | some row ↦
          if not (row.fingerprint == fingerprint)
          then err IdempotencyError.reservation_lost
          else (if is_some row.response && not (row.response == some response)
              then err IdempotencyError.response_conflict
              else ok (store_response tenant_id key response table))
    ]

  -- The rows that the delete takes: those of the key and the request that have no response.
  abbrev pub is_open : String → String → String → IdempotencyRow R → Bool
  is_open tenant_id key fingerprint row =
      is_at tenant_id key row && row.fingerprint == fingerprint && not (is_some row.response)

  unfoldable pub release_idempotency :
      String → String → String → List (IdempotencyRow R) → List (IdempotencyRow R)
  release_idempotency tenant_id key fingerprint [] = []
  release_idempotency tenant_id key fingerprint (row ∷ rows) =
      let later = release_idempotency tenant_id key fingerprint rows in
      if is_open tenant_id key fingerprint row then later else row ∷ later
