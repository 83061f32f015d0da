-- ===== src/Stages/Saved.antt =====
-- What a saved stage run is, in the words of its call.
use pruebas_personalizadas.Prelude.Common.{
  not, arith, ◌≤◌, none, ap, ℕ, ◌≡◌, refl, String, Option, some, List, [], ◌∷◌, ◌++◌, Bool, true,
  false, ◌⊎◌, inl, inr, Memᴰ,
}
use pruebas_personalizadas.Prelude.Tests.{
  nat_beq, or-false, is_some, and-true, and-eq-true, if◌then◌else◌, Bool-cases, not-false,
}
use pruebas_personalizadas.Prelude.Eq.{eq_of_true, ◌==◌, string_eq, option_eq}
use pruebas_personalizadas.Prelude.Lists.{any}
use pruebas_personalizadas.Prelude.Rows.{put}
use pruebas_personalizadas.Stages.{
  stage_attempt, hash_of, StageStatus, stage_status_eq, StageRunRow, StageCall, stage_row,
  first_where, is_success_of, is_attempt_of, is_foreign, shares_key, refuses, valid_success,
  rewritten, new_run,
}

-- The attempt of a stage: the one of the call, or else the one of its job, or else the first.
pub data IsAttempt (asked job : Option ℕ) (attempt : ℕ) : Type 0 where
  by_call : asked ≡ some attempt → 1 ≤ attempt → IsAttempt asked job attempt
  by_job :
      (asked ≡ none) ⊎ (asked ≡ some 0)
      → job ≡ some attempt
      → 1 ≤ attempt
      → IsAttempt asked job attempt
  alone : (asked ≡ none) ⊎ (asked ≡ some 0) → job ≡ none → attempt ≡ 1 → IsAttempt asked job attempt

pub stage_attempt-IsAttempt :
    (asked job : Option ℕ)
    → nat_beq (stage_attempt asked job) 0 ≡ false
    → IsAttempt asked job (stage_attempt asked job)
stage_attempt-IsAttempt none none h = IsAttempt.alone (inl refl) refl refl
stage_attempt-IsAttempt none (some n) h = IsAttempt.by_job (inl refl) refl (ground arith)
stage_attempt-IsAttempt (some m) none h = elim (Bool-cases (nat_beq m 0)) [
  | inl t ↦ rw t (IsAttempt.alone (inr (ap some (ground arith))) refl refl)
  | inr f ↦ rw f (IsAttempt.by_call refl (ground arith))
]
stage_attempt-IsAttempt (some m) (some n) h = elim (Bool-cases (nat_beq m 0)) [
  | inl t ↦
      let positive : nat_beq n 0 ≡ false = rw (t, if◌then◌else◌) at h in
      rw t (IsAttempt.by_job (inr (ap some (ground arith))) refl (ground arith))
  | inr f ↦ rw f (IsAttempt.by_call refl (ground arith))
]

module _ {O : Type 0} (hash : Option O → String)
    (row_id : String → String → String → ℕ → String) where
  pub valid_success-agrees :
      (call : StageCall O) (row : StageRunRow O)
      → valid_success hash row_id call row ≡ true
      → ((row.tenant_id == call.tenant_id) ≡ true)
        × ((row.stage == call.stage) ≡ true)
        × ((row.stage_key == call.stage_key) ≡ true)
        × ((row.status == StageStatus.succeeded) ≡ true)
        × ((row.input_hash == call.input_hash) ≡ true)
        × ((row.policy_hash == call.policy_hash) ≡ true)
        × ((row.component_version == some call.component_version) ≡ true)
        × ((row.output_hash == some (hash row.output)) ≡ true)
  valid_success-agrees call row h =
      let (h1, digest) = and-true {b = row.output_hash == some (hash row.output)} h in
      let (h2, version) = and-true {b = row.component_version == some call.component_version} h1 in
      let (h3, policy) = and-true {b = row.policy_hash == call.policy_hash} h2 in
      let (h4, input) = and-true {b = row.input_hash == call.input_hash} h3 in
      let (h5, status) = and-true {b = row.status == StageStatus.succeeded} h4 in
      let (h6, key) = and-true {b = row.stage_key == call.stage_key} h5 in
      let (tenant, stage) = and-true {b = row.stage == call.stage} h6 in
      (tenant, stage, key, status, input, policy, version, digest)

  -- A valid success is one under the key of the call.
  pub valid_success-IsSuccess :
      (call : StageCall O) (row : StageRunRow O)
      → valid_success hash row_id call row ≡ true
      → is_success_of call row ≡ true
  valid_success-IsSuccess call row h =
      let (tenant, _, key, status, _, _, version, digest) = valid_success-agrees call row h in
      and-eq-true (and-eq-true (and-eq-true (and-eq-true tenant key) status) version)
        (ap is_some {x = row.output_hash} (eq_of_true digest))

  -- A run that a call may reuse: succeeded, of what the call names, and with the digest of its output.
  pub record IsReusable (call : StageCall O) (row : StageRunRow O) : Type 0 where
    pub same_tenant : row.tenant_id ≡ call.tenant_id
    pub same_stage : row.stage ≡ call.stage
    pub same_key : row.stage_key ≡ call.stage_key
    pub succeeded : row.status ≡ StageStatus.succeeded
    pub same_input : row.input_hash ≡ call.input_hash
    pub same_policy : row.policy_hash ≡ call.policy_hash
    pub same_version : row.component_version ≡ some call.component_version
    pub digest : row.output_hash ≡ some (hash row.output)

  pub valid_success-IsReusable :
      (call : StageCall O) (row : StageRunRow O)
      → valid_success hash row_id call row ≡ true
      → IsReusable call row
  valid_success-IsReusable call row h =
      let (tenant, stage, key, status, input, policy, version, digest) =
        valid_success-agrees call row h in
      record {
        same_tenant = eq_of_true tenant;
        same_stage = eq_of_true stage;
        same_key = eq_of_true key;
        succeeded = eq_of_true status;
        same_input = eq_of_true input;
        same_policy = eq_of_true policy;
        same_version = eq_of_true version;
        digest = eq_of_true digest;
      }

  -- A run that was written: of an attempt of the call, with its outcome.
  pub record IsWritten (call : StageCall O) (attempt now : ℕ) (row : StageRunRow O) : Type 0 where
    pub of_job : row.job_id ≡ call.job_id
    pub of_tenant : row.tenant_id ≡ call.tenant_id
    pub of_stage : row.stage ≡ call.stage
    pub of_key : row.stage_key ≡ call.stage_key
    pub of_attempt : row.attempt ≡ attempt
    pub of_input : row.input_hash ≡ call.input_hash
    pub of_policy : row.policy_hash ≡ call.policy_hash
    pub of_version : row.component_version ≡ some call.component_version
    pub status : row.status ≡ call.status
    pub output : row.output ≡ call.output
    pub digest :
        ((call.output ≡ none) × (row.output_hash ≡ none))
        ⊎ ((output : O) × (call.output ≡ some output)
            × (row.output_hash ≡ some (hash (some output))))
    pub failure : row.failure_class ≡ call.failure_class
    pub waits : row.next_attempt_at ≡ call.next_attempt_at
    pub finished : row.finished_at ≡ some now

  hash_of-cases :
      (output : Option O)
      → ((output ≡ none) × (hash_of hash row_id output ≡ none))
        ⊎ ((o : O) × (output ≡ some o) × (hash_of hash row_id output ≡ some (hash (some o))))
  hash_of-cases none = inl (refl, refl)
  hash_of-cases (some o) = inr (o, refl, refl)

  pub new_run-IsWritten :
      (call : StageCall O) (attempt now : ℕ)
      → IsWritten call attempt now (new_run hash row_id call attempt now)
  new_run-IsWritten call attempt now = record {
    of_job = refl;
    of_tenant = refl;
    of_stage = refl;
    of_key = refl;
    of_attempt = refl;
    of_input = refl;
    of_policy = refl;
    of_version = refl;
    status = refl;
    output = refl;
    digest = hash_of-cases call.output;
    failure = refl;
    waits = refl;
    finished = refl;
  }

  pub rewritten-IsWritten :
      (call : StageCall O) (attempt now : ℕ) (old : StageRunRow O)
      → is_attempt_of call attempt old ≡ true
      → is_foreign call old ≡ false
      → IsWritten call attempt now (rewritten hash row_id call now old)
  rewritten-IsWritten call attempt now old tried kin =
      let (tried1, same) = and-true {b = nat_beq old.attempt attempt} tried in
      let (job, key) = and-true {b = old.stage_key == call.stage_key} tried1 in
      let (k1, version) =
        or-false _ (not (old.component_version == some call.component_version)) kin in
      let (k2, policy) = or-false _ (not (old.policy_hash == call.policy_hash)) k1 in
      let (k3, input) = or-false _ (not (old.input_hash == call.input_hash)) k2 in
      let (tenant, stage) = or-false _ (not (old.stage == call.stage)) k3 in
      record {
        of_job = eq_of_true job;
        of_tenant = eq_of_true (not-false tenant);
        of_stage = eq_of_true (not-false stage);
        of_key = eq_of_true key;
        of_attempt = ground arith;
        of_input = eq_of_true (not-false input);
        of_policy = eq_of_true (not-false policy);
        of_version = eq_of_true (not-false version);
        status = refl;
        output = refl;
        digest = hash_of-cases call.output;
        failure = refl;
        waits = refl;
        finished = refl;
      }

  -- A saved run: reused, written over a failed one, or new. A write shares no indexed key.
  pub data IsSaved (call : StageCall O) (job_attempt : Option ℕ)
      (at_select at_attempt at_commit at_winner : List (StageRunRow O)) (row : StageRunRow O)
      : Bool → List (StageRunRow O) → Type 0 where
    reused :
        (rows : List (StageRunRow O))
        → (rows ≡ at_select) ⊎ (rows ≡ at_winner)
        → first_where (is_success_of call) rows ≡ some row
        → valid_success hash row_id call row ≡ true
        → IsReusable call row
        → IsSaved call job_attempt at_select at_attempt at_commit at_winner row true rows
    met :
        (attempt : ℕ)
        → IsAttempt call.attempt job_attempt attempt
        → first_where (is_success_of call) at_select ≡ none
        → Memᴰ row at_attempt
        → (row.job_id ≡ call.job_id) × (row.attempt ≡ attempt)
        → valid_success hash row_id call row ≡ true
        → IsReusable call row
        → IsSaved call job_attempt at_select at_attempt at_commit at_winner row true at_attempt
    rewrote :
        (old : StageRunRow O) (attempt now : ℕ)
        → IsAttempt call.attempt job_attempt attempt
        → Memᴰ old at_attempt
        → is_attempt_of call attempt old ≡ true
        → (old.status == StageStatus.succeeded) ≡ false
        → is_foreign call old ≡ false
        → row ≡ rewritten hash row_id call now old
        → any (shares_key row) at_commit ≡ false
        → (row.id ≡ old.id) × IsWritten call attempt now row
        → IsSaved call job_attempt at_select at_attempt at_commit at_winner row false
            (put row at_commit)
    inserted :
        (attempt now : ℕ)
        → IsAttempt call.attempt job_attempt attempt
        → row ≡ new_run hash row_id call attempt now
        → any (refuses row) at_commit ≡ false
        → IsWritten call attempt now row
        → IsSaved call job_attempt at_select at_attempt at_commit at_winner row false
            (at_commit ++ row ∷ [])
