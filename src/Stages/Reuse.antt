-- ===== src/Stages/Reuse.antt =====
-- What `save_stage` leaves: a run that was reused, or one that was written.
use pruebas_personalizadas.Prelude.Common.{
  ◌&&◌, none, ℕ, ◌≡◌, refl, sym, subst, ◌∙◌, String, Option, some, List, Bool, true, ◌⊎◌, inl, inr,
  Memᴰ,
}
use pruebas_personalizadas.Prelude.Tests.{
  nat_beq, nat_beq_iff, and-true, if◌then◌else◌, Bool-cases, Option-cases, not-false, if-true,
  if-false,
}
use pruebas_personalizadas.Prelude.Eq.{eq_of_true, ◌==◌, string_eq, option_eq}
use pruebas_personalizadas.Prelude.Lists.{any}
use pruebas_personalizadas.Prelude.Result.{ok, >>-eq-ok, reject->>-eq-ok, ok-injective}
use pruebas_personalizadas.Stages.{
  stage_attempt, StageError, StageStatus, stage_status_eq, StageRunRow, StageCall, stage_row,
  first_where, is_success_of, is_attempt_of, refuses, valid_success, new_run, reuse, commit_rewrite,
  commit_insert, save_again, save_attempt, save_stage,
}
use pruebas_personalizadas.Stages.Lookup.{first_where-mem, first_where-true}
use pruebas_personalizadas.Stages.Saved.{
  IsAttempt, stage_attempt-IsAttempt, valid_success-IsReusable, new_run-IsWritten,
  rewritten-IsWritten, IsSaved,
}

module _ {O : Type 0} (hash : Option O → String) (row_id : String → String → String → ℕ → String)
    (call : StageCall O) (job_attempt : Option ℕ)
    (at_select at_attempt at_commit at_winner : List (StageRunRow O)) where
  -- What a save answers, as one value.
  abbrev Answers : StageRunRow O × Bool × List (StageRunRow O) → Type 0
  Answers (row, b, after) =
      IsSaved hash row_id call job_attempt at_select at_attempt at_commit at_winner row b after

  reuse-IsSaved :
      (e : StageError) (found : StageRunRow O) (rows : List (StageRunRow O))
      {answer : StageRunRow O × Bool × List (StageRunRow O)}
      → (valid_success hash row_id call found ≡ true → Answers (found, true, rows))
      → reuse hash row_id call e found rows ≡ ok answer
      → Answers answer
  unfolding reuse
  reuse-IsSaved e found rows saved h =
      let (valid, k) = reject->>-eq-ok _ _ _ h in
      subst Answers (ok-injective k) (saved (not-false valid))

  -- A success under the key, in the first table or in that of the winner.
  found-IsSaved :
      (found : StageRunRow O) (rows : List (StageRunRow O))
      → (rows ≡ at_select) ⊎ (rows ≡ at_winner)
      → first_where (is_success_of call) rows ≡ some found
      → valid_success hash row_id call found ≡ true
      → Answers (found, true, rows)
  found-IsSaved found rows origin e v =
      IsSaved.reused rows origin e v (valid_success-IsReusable hash row_id call found v)

  module _ (attempt now : ℕ) (attempted : IsAttempt call.attempt job_attempt attempt) where
    save_again-IsSaved :
        (found : StageRunRow O) {answer : StageRunRow O × Bool × List (StageRunRow O)}
        → Memᴰ found at_attempt
        → is_attempt_of call attempt found ≡ true
        → first_where (is_success_of call) at_select ≡ none
        → save_again hash row_id call now found at_attempt at_commit ≡ ok answer
        → Answers answer
    unfolding save_again commit_rewrite
    save_again-IsSaved found old tried no_success h =
        elim (Bool-cases (found.status == StageStatus.succeeded)) [
          | inl t ↦
              let (tried1, same) =
                and-true {a = found.job_id == call.job_id && found.stage_key == call.stage_key}
                  {b = nat_beq found.attempt attempt} tried in
              let (job, _) =
                and-true {a = found.job_id == call.job_id} {b = found.stage_key == call.stage_key}
                  tried1 in
              let same_attempt : found.attempt ≡ attempt =
                (nat_beq_iff found.attempt attempt).0 same in
              reuse-IsSaved _ found at_attempt
                (λ v.
                  IsSaved.met attempt attempted no_success old (eq_of_true job, same_attempt) v
                    (valid_success-IsReusable hash row_id call found v))
                (sym (if-true _ _ t) ∙ h)
          | inr f ↦
              let (kin, h1) = reject->>-eq-ok _ _ _ (sym (if-false _ _ f) ∙ h) in
              let (free, h2) = reject->>-eq-ok _ _ _ h1 in
              subst Answers (ok-injective h2) (
                IsSaved.rewrote found attempt now attempted old tried f kin refl free
                  (refl, rewritten-IsWritten hash row_id call attempt now found tried kin))
        ]

    commit_insert-IsSaved :
        {answer : StageRunRow O × Bool × List (StageRunRow O)}
        → commit_insert hash row_id call (new_run hash row_id call attempt now) at_commit at_winner
          ≡ ok answer
        → Answers answer
    unfolding commit_insert
    commit_insert-IsSaved h =
        let new = new_run hash row_id call attempt now in
        elim (Bool-cases (any (refuses new) at_commit)) [
          | inr f ↦ subst Answers (ok-injective (rw (f, if◌then◌else◌) at h)) (
              IsSaved.inserted attempt now attempted refl f
                (new_run-IsWritten hash row_id call attempt now))
          | inl t ↦
              let lost = rw (t, if◌then◌else◌) at h in
              elim (Option-cases (first_where (is_success_of call) at_winner)) [
                | inl n ↦ cc (rw (n, commit_insert) at lost)
                | inr (winner, e) ↦
                    reuse-IsSaved _ winner at_winner (found-IsSaved winner at_winner (inr refl) e)
                      (rw (e, commit_insert) at lost)
              ]
        ]

  save_attempt-IsSaved :
      (now : ℕ) {answer : StageRunRow O × Bool × List (StageRunRow O)}
      → first_where (is_success_of call) at_select ≡ none
      → save_attempt hash row_id call
          (stage_attempt call.attempt job_attempt)
          now
          at_attempt
          at_commit
          at_winner
        ≡ ok answer
      → Answers answer
  unfolding save_attempt
  save_attempt-IsSaved now no_success h =
      let attempt = stage_attempt call.attempt job_attempt in
      let (positive, h1) = reject->>-eq-ok _ _ _ h in
      let attempted = stage_attempt-IsAttempt call.attempt job_attempt positive in
      elim (Option-cases (first_where (is_attempt_of call attempt) at_attempt)) [
        | inl n ↦ commit_insert-IsSaved attempt now attempted (rw (n, save_attempt) at h1)
        | inr (found, e) ↦
            save_again-IsSaved attempt now attempted found
              (first_where-mem (is_attempt_of call attempt) at_attempt e)
              (first_where-true (is_attempt_of call attempt) at_attempt e) no_success
              (rw (e, save_attempt) at h1)
      ]

  -- A stage that is saved is one of four. It is a run of the first table that was read or of the winner of a
  -- race, or one of this job and attempt, that has succeeded for the tenant, the stage, the key, the policy,
  -- the version and the inputs of the call and has the digest of its own output, and then nothing is
  -- written; or a run of this job and attempt that has not succeeded and agrees with the call, written over
  -- under its id; or a new run of this job and attempt, which no row of the table refuses. A written run has
  -- the status, the output, its digest and the failure of the call. The attempt is the positive one of the
  -- call, or else that of its job, or else 1.
  pub save_stage-IsSaved :
      (now : ℕ) {row : StageRunRow O} {b : Bool} {after : List (StageRunRow O)}
      → save_stage hash row_id call job_attempt now at_select at_attempt at_commit at_winner
        ≡ ok (row, b, after)
      → IsSaved hash row_id call job_attempt at_select at_attempt at_commit at_winner row b after
  unfolding save_stage
  save_stage-IsSaved now h =
      let (_, h1) = >>-eq-ok _ _ h in
      elim (Option-cases (first_where (is_success_of call) at_select)) [
        | inl n ↦ save_attempt-IsSaved now n (rw (n, save_stage) at h1)
        | inr (found, e) ↦
            reuse-IsSaved _ found at_select (found-IsSaved found at_select (inl refl) e)
              (rw (e, save_stage) at h1)
      ]
