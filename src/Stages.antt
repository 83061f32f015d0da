-- ===== src/Stages.antt =====
-- The stage runs of `Repository` in comprehension_verification/web/repository.py: `save_stage` and
-- `stage_by_key`. `O` is the type of an output, a JSON value, and `hash` the digest `canonical_hash` of
-- an output or of null. A call carries the digests of its inputs and of its key. The table is given at each statement:
-- what other transactions did in between is in it.
pub mod Lookup
pub mod Saved
pub mod Reuse
pub mod Recall
use pruebas_personalizadas.Prelude.Common.{
  ℕ, String, Option, none, some, List, [], ◌∷◌, ◌++◌, Bool, true, false, not, ◌&&◌, ◌||◌,
}
use pruebas_personalizadas.Prelude.Tests.{if◌then◌else◌, is_some, nat_beq}
use pruebas_personalizadas.Prelude.Eq.{Eq, ◌==◌, string_eq, option_eq, eq_of}
use pruebas_personalizadas.Prelude.Lists.{any}
use pruebas_personalizadas.Prelude.Result.{Result, ok, err, reject, ◌>>=◌, ◌>>◌}
use pruebas_personalizadas.Prelude.Rows.{Row, put}
use pruebas_personalizadas.Contracts.Evidence.{Diagnostic}
use pruebas_personalizadas.Jobs.Tables.{FailureClass}

pub data StageError : Type 0 where
  succeeded_with_failure succeeded_without_output failed_with_output attempt_not_positive :
      StageError
  reuse_hash_mismatch attempt_conflict integrity_error : StageError

pub data StageStatus : Type 0 where
  queued running succeeded failed cancelled : StageStatus

abbrev StageStatus-discrete : Discrete StageStatus
StageStatus-discrete = hlevel

instance abbrev pub stage_status_eq : Eq StageStatus
stage_status_eq = eq_of StageStatus-discrete

pub record StageRunRow (O : Type 0) : Type 0 where
  pub id : String
  pub job_id : String
  pub tenant_id : String
  pub stage : String
  pub stage_key : String
  pub status : StageStatus
  pub attempt : ℕ
  pub input_hash : String
  pub policy_hash : String
  pub component_version : Option String
  pub output : Option O
  pub output_hash : Option String
  pub failure_class : Option FailureClass
  pub next_attempt_at : Option ℕ
  pub resumed_from_stage_run_id : Option String
  pub diagnostics : List Diagnostic
  pub started_at : ℕ
  pub finished_at : Option ℕ

pub record StageCall (O : Type 0) : Type 0 where
  pub job_id : String
  pub tenant_id : String
  pub stage : String
  pub input_hash : String
  pub stage_key : String
  pub component_version : String
  pub policy_hash : String
  pub output : Option O
  pub status : StageStatus
  pub diagnostics : List Diagnostic
  pub failure_class : Option FailureClass
  pub next_attempt_at : Option ℕ
  pub attempt : Option ℕ
  pub resumed_from_stage_run_id : Option String

-- `attempt or (job.attempt if job is not None else 1)`
abbrev pub stage_attempt : Option ℕ → Option ℕ → ℕ
stage_attempt none none = 1
stage_attempt none (some n) = n
stage_attempt (some m) none = if nat_beq m 0 then 1 else m
stage_attempt (some m) (some n) = if nat_beq m 0 then n else m

module _ {O : Type 0} where
  instance abbrev pub stage_row : Row (StageRunRow O)
  stage_row = record { id_of = λ row. row.id; tenant_of = λ row. row.tenant_id }

  -- The first row in the table for which a test holds.
  unfoldable pub first_where :
      (StageRunRow O → Bool) → List (StageRunRow O) → Option (StageRunRow O)
  first_where p [] = none
  first_where p (row ∷ rows) = let later = first_where p rows in if p row then some row else later

  -- The rows under the unique index of succeeded stages.
  abbrev pub is_indexed : StageRunRow O → Bool
  is_indexed row =
      row.status == StageStatus.succeeded
      && is_some row.component_version
      && is_some row.output_hash

  abbrev pub is_success_of : StageCall O → StageRunRow O → Bool
  is_success_of call row =
      row.tenant_id == call.tenant_id
      && row.stage_key == call.stage_key
      && row.status == StageStatus.succeeded
      && row.component_version == some call.component_version
      && is_some row.output_hash

  abbrev pub is_attempt_of : StageCall O → ℕ → StageRunRow O → Bool
  is_attempt_of call attempt row =
      row.job_id == call.job_id && row.stage_key == call.stage_key && nat_beq row.attempt attempt

  -- What a row of the same attempt must agree on to be written again.
  abbrev pub is_foreign : StageCall O → StageRunRow O → Bool
  is_foreign call row =
      not (row.tenant_id == call.tenant_id)
      || not (row.stage == call.stage)
      || not (row.input_hash == call.input_hash)
      || not (row.policy_hash == call.policy_hash)
      || not (row.component_version == some call.component_version)

  -- A row of another id that shares an indexed key with a new one.
  abbrev pub shares_key : StageRunRow O → StageRunRow O → Bool
  shares_key new old =
      not (old.id == new.id) && is_indexed new && is_indexed old && old.stage_key == new.stage_key

  -- A row that refuses the insert of a new one: by its id, its attempt or its key.
  abbrev pub refuses : StageRunRow O → StageRunRow O → Bool
  refuses new old =
      old.id == new.id
      || (old.job_id == new.job_id
          && old.stage_key == new.stage_key
          && nat_beq old.attempt new.attempt)
      || shares_key new old

  abbrev pub check_call : StageCall O → Result StageError (Unit {0})
  check_call call = do
    reject
        (call.status == StageStatus.succeeded
          && (is_some call.failure_class || is_some call.next_attempt_at))
        StageError.succeeded_with_failure
    reject (call.status == StageStatus.succeeded && not (is_some call.output))
        (StageError.succeeded_without_output)
    reject (not (call.status == StageStatus.succeeded) && is_some call.output)
        (StageError.failed_with_output)

  module _ (hash : Option O → String) (row_id : String → String → String → ℕ → String) where
    -- `output_hash`
    abbrev pub hash_of : Option O → Option String
    hash_of none = none
    hash_of (some output) = some (hash (some output))

    abbrev pub valid_success : StageCall O → StageRunRow O → Bool
    valid_success call row =
        row.tenant_id == call.tenant_id
        && row.stage == call.stage
        && row.stage_key == call.stage_key
        && row.status == StageStatus.succeeded
        && row.input_hash == call.input_hash
        && row.policy_hash == call.policy_hash
        && row.component_version == some call.component_version
        && row.output_hash == some (hash row.output)

    -- The columns of a call, written over those of a row of the same attempt.
    abbrev pub rewritten : StageCall O → ℕ → StageRunRow O → StageRunRow O
    rewritten call now row = record row {
      status = call.status;
      output = call.output;
      output_hash = hash_of call.output;
      failure_class = call.failure_class;
      next_attempt_at = call.next_attempt_at;
      diagnostics = call.diagnostics;
      finished_at = some now;
    }

    -- `row_id` is `stable_id` of the job, the stage, the key and the attempt.
    abbrev pub new_run : StageCall O → ℕ → ℕ → StageRunRow O
    new_run call attempt now = record {
      id = row_id call.job_id call.stage call.stage_key attempt;
      job_id = call.job_id;
      tenant_id = call.tenant_id;
      stage = call.stage;
      stage_key = call.stage_key;
      status = call.status;
      attempt = attempt;
      input_hash = call.input_hash;
      policy_hash = call.policy_hash;
      component_version = some call.component_version;
      output = call.output;
      output_hash = hash_of call.output;
      failure_class = call.failure_class;
      next_attempt_at = call.next_attempt_at;
      resumed_from_stage_run_id = call.resumed_from_stage_run_id;
      diagnostics = call.diagnostics;
      started_at = now;
      finished_at = some now;
    }

    -- The row, whether it was reused, and the table.
    abbrev pub Saved : Type 0
    Saved = Result StageError (StageRunRow O × Bool × List (StageRunRow O))

    -- A row that was found is reused, or its hashes do not match.
    unfoldable pub reuse : StageCall O → StageError → StageRunRow O → List (StageRunRow O) → Saved
    reuse call mismatch row rows = do
      reject (not (valid_success call row)) mismatch
      ok (row, true, rows)

    -- The commit of a changed row, and that of a new one, which falls back to the row that won.
    unfoldable pub commit_rewrite : StageRunRow O → List (StageRunRow O) → Saved
    commit_rewrite row rows = do
      reject (any (shares_key row) rows) StageError.integrity_error
      ok (row, false, put row rows)

    unfoldable pub commit_insert :
        StageCall O → StageRunRow O → (at_commit at_winner : List (StageRunRow O)) → Saved
    unfolding reuse first_where
    commit_insert call row at_commit at_winner =
        if not (any (refuses row) at_commit)
        then ok (row, false, at_commit ++ row ∷ [])
        else elim (first_where (is_success_of call) at_winner) [
          | none ↦ err StageError.attempt_conflict
          | some winner ↦ reuse call StageError.attempt_conflict winner at_winner
        ]

    -- A row of this job, key and attempt.
    unfoldable pub save_again :
        StageCall O → ℕ → StageRunRow O → (at_attempt at_commit : List (StageRunRow O)) → Saved
    unfolding reuse commit_rewrite
    save_again call now row at_attempt at_commit =
        if row.status == StageStatus.succeeded
        then reuse call StageError.reuse_hash_mismatch row at_attempt
        else (reject (is_foreign call row) StageError.attempt_conflict
            >> commit_rewrite (rewritten call now row) at_commit)

    unfoldable pub save_attempt :
        StageCall O → ℕ → ℕ → (at_attempt at_commit at_winner : List (StageRunRow O)) → Saved
    unfolding save_again commit_insert first_where
    save_attempt call attempt now at_attempt at_commit at_winner = do
      reject (nat_beq attempt 0) StageError.attempt_not_positive
      elim (first_where (is_attempt_of call attempt) at_attempt) [
        | some row ↦ save_again call now row at_attempt at_commit
        | none ↦ commit_insert call (new_run call attempt now) at_commit at_winner
      ]

    -- `job_attempt` is the attempt of the job, if it is found. The tables are those at the two selects, the
    -- commit and the select of the winner.
    unfoldable pub save_stage :
        StageCall O
        → Option ℕ
        → ℕ
        → (at_select at_attempt at_commit at_winner : List (StageRunRow O)) → Saved
    unfolding reuse save_attempt first_where
    save_stage call job_attempt now at_select at_attempt at_commit at_winner = do
      check_call call
      elim (first_where (is_success_of call) at_select) [
        | some row ↦ reuse call StageError.reuse_hash_mismatch row at_select
        | none ↦
            save_attempt call (stage_attempt call.attempt job_attempt) now at_attempt at_commit
              at_winner
      ]

    -- `stage_by_key`: the row to reuse, if its hashes match.
    unfoldable pub stage_by_key : StageCall O → List (StageRunRow O) → Option (StageRunRow O)
    unfolding first_where
    stage_by_key call rows = elim (first_where (is_success_of call) rows) [
      | none ↦ none
      | some row ↦
          if not (row.stage == call.stage)
            || not (row.input_hash == call.input_hash)
            || not (row.policy_hash == call.policy_hash)
            || not (row.component_version == some call.component_version)
            || not (row.output_hash == some (hash row.output))
          then none
          else some row
    ]
