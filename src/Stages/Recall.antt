-- ===== src/Stages/Recall.antt =====
-- The round trip from `save_stage` to `stage_by_key`: a saved success is the one that is found.
use pruebas_personalizadas.Prelude.Common.{
  ℕ, ◌≡◌, refl, sym, ap, subst, ◌∙◌, String, Option, none, some, List, [], ◌∷◌, ◌++◌, Bool, true,
  false, not, ◌⊎◌, inl, inr, Memᴰ,
}
use pruebas_personalizadas.Prelude.Tests.{
  nat_beq, and-false_right, is_some, if◌then◌else◌, not-false, or-false, and-true, and-eq-true,
}
use pruebas_personalizadas.Prelude.Eq.{◌==◌, string_eq, option_eq, beq_refl}
use pruebas_personalizadas.Prelude.Lists.{any-false, mem-append, mem-map, append-mem_right}
use pruebas_personalizadas.Prelude.Result.{ok, >>-eq-ok, reject->>-eq-ok}
use pruebas_personalizadas.Prelude.Rows.{put, put-mem_other, ids, put-mem_new}
use pruebas_personalizadas.Stages.{
  StageStatus, stage_status_eq, StageRunRow, StageCall, stage_row, first_where, is_success_of,
  is_foreign, shares_key, refuses, check_call, is_attempt_of, hash_of, valid_success, rewritten,
  new_run, save_stage, stage_by_key,
}
use pruebas_personalizadas.Stages.Lookup.{first_where-none, first_where-only, success-shares}
use pruebas_personalizadas.Stages.Saved.{IsSaved, valid_success-agrees, valid_success-IsSuccess}
use pruebas_personalizadas.Stages.Reuse.{save_stage-IsSaved}

module _ {O : Type 0} (hash : Option O → String)
    (row_id : String → String → String → ℕ → String) where
  -- A row that is found and valid is the one that the lookup returns.
  found-recalled :
      (call : StageCall O) (rows : List (StageRunRow O)) (row : StageRunRow O)
      → first_where (is_success_of call) rows ≡ some row
      → valid_success hash row_id call row ≡ true
      → stage_by_key hash row_id call rows ≡ some row
  unfolding stage_by_key
  found-recalled call rows row found h =
      let (_, stage, _, _, input, policy, version, digest) =
        valid_success-agrees hash row_id call row h in
      rw (found, stage_by_key) (rw (stage, input, policy, version, digest, if◌then◌else◌) refl)

  -- The only success of a call in a table, if valid, is the one that the lookup returns.
  only-recalled :
      (call : StageCall O) (rows : List (StageRunRow O)) (row : StageRunRow O)
      → valid_success hash row_id call row ≡ true
      → Memᴰ row rows
      → ((other : StageRunRow O)
          → Memᴰ other rows
          → (other ≡ row) ⊎ ((other.id == row.id) ≡ false × (shares_key row other ≡ false)))
      → stage_by_key hash row_id call rows ≡ some row
  only-recalled call rows row valid m others =
      let success = valid_success-IsSuccess hash row_id call row valid in
      found-recalled call rows row
        (first_where-only (is_success_of call) rows row success m (λ other k s.
          elim (others other k) [
            | inl e ↦ e
            | inr (new, free) ↦ cc (success-shares call row other success s new, free)
          ]))
        valid

  hash_of-some :
      (output : Option O)
      → is_some output ≡ true
      → (hash_of hash row_id output == some (hash output)) ≡ true
  hash_of-some none h = cc h
  hash_of-some (some output) h = beq_refl (some (hash (some output)))

  new_run-IsValid :
      (call : StageCall O) (attempt now : ℕ)
      → (call.status == StageStatus.succeeded) ≡ true
      → is_some call.output ≡ true
      → valid_success hash row_id call (new_run hash row_id call attempt now) ≡ true
  new_run-IsValid call attempt now status output =
      let same = beq_refl {A = String} in
      let digest = hash_of-some call.output output in
      and-eq-true
        (and-eq-true
          (and-eq-true
            (and-eq-true
              (and-eq-true
                (and-eq-true (and-eq-true (same call.tenant_id) (same call.stage))
                  (same call.stage_key))
                status)
              (same call.input_hash))
            (same call.policy_hash))
          (beq_refl (some call.component_version)))
        digest

  rewritten-IsValid :
      (call : StageCall O) (attempt now : ℕ) (old : StageRunRow O)
      → is_attempt_of call attempt old ≡ true
      → is_foreign call old ≡ false
      → (call.status == StageStatus.succeeded) ≡ true
      → is_some call.output ≡ true
      → valid_success hash row_id call (rewritten hash row_id call now old) ≡ true
  rewritten-IsValid call attempt now old tried kin status output =
      let (tried1, _) = and-true {b = nat_beq old.attempt attempt} tried in
      let (_, key) = and-true {b = old.stage_key == call.stage_key} tried1 in
      let (k1, version) =
        or-false _ (not (old.component_version == some call.component_version)) kin in
      let (k2, policy) = or-false _ (not (old.policy_hash == call.policy_hash)) k1 in
      let (k3, input) = or-false _ (not (old.input_hash == call.input_hash)) k2 in
      let (tenant, stage) = or-false _ (not (old.stage == call.stage)) k3 in
      and-eq-true
        (and-eq-true
          (and-eq-true
            (and-eq-true
              (and-eq-true (and-eq-true (and-eq-true (not-false tenant) (not-false stage)) key)
                status)
              (not-false input))
            (not-false policy))
          (not-false version))
        (hash_of-some call.output output)

  has_output :
      (call : StageCall O) {u : Unit {0}}
      → (call.status == StageStatus.succeeded) ≡ true
      → check_call call ≡ ok u
      → is_some call.output ≡ true
  has_output call status h =
      let (_, h1) = reject->>-eq-ok _ _ _ h in
      let (free, _) = reject->>-eq-ok _ _ _ h1 in not-false (and-false_right status free)

  saved-recalled :
      (call : StageCall O) (job_attempt : Option ℕ) (rows at_winner : List (StageRunRow O))
      (row : StageRunRow O) (b : Bool) (after : List (StageRunRow O))
      → (call.status == StageStatus.succeeded) ≡ true
      → is_some call.output ≡ true
      → IsSaved hash row_id call job_attempt rows rows rows at_winner row b after
      → stage_by_key hash row_id call after ≡ some row
  saved-recalled call job_attempt rows at_winner row b after status output
        (IsSaved.reused _ _ found valid _) =
      found-recalled call after row found valid
  saved-recalled call job_attempt rows at_winner row b after status output
        (IsSaved.met attempt _ no_success there _ valid _) =
      absurd (
        cc (
          first_where-none (is_success_of call) rows no_success there,
          valid_success-IsSuccess hash row_id call row valid,
        ))
  saved-recalled call job_attempt rows at_winner row b after status output
        (IsSaved.rewrote old attempt now _ m tried _ kin e free _) =
      only-recalled call (put row rows) row
        (ap (valid_success hash row_id call) e
          ∙ rewritten-IsValid call attempt now old tried kin status output)
        (put-mem_new row rows (
          subst (λ (i : String). Memᴰ i (ids rows)) (sym (ap (λ (x : StageRunRow O). x.id) e))
            (mem-map (λ (x : StageRunRow O). x.id) rows m)))
        (λ other k. elim (put-mem_other row rows k) [
          | inl e ↦ inl e
          | inr (k, new) ↦ inr (new, any-false (shares_key row) rows free other k)
        ])
  saved-recalled call job_attempt rows at_winner row b after status output
        (IsSaved.inserted attempt now _ e free _) =
      only-recalled call (rows ++ row ∷ []) row
        (ap (valid_success hash row_id call) e ∙ new_run-IsValid call attempt now status output)
        (append-mem_right rows (row ∷ []) (Memᴰ.head refl))
        (λ other k. elim (mem-append rows (row ∷ []) k) [
          | inl k ↦
              let (f, shared) = or-false _ _ (any-false (refuses row) rows free other k) in
              inr ((or-false _ _ f).0, shared)
          | inr (Memᴰ.head e) ↦ inl e
          | inr (Memᴰ.tail k) ↦ elim k [ ]
        ])

  -- A saved success is found: where the two selects and the commit of a save of a succeeded stage see the
  -- same table, `stage_by_key` finds the saved row behind it, whether it was reused, written over or new.
  pub save_stage-recalled :
      (call : StageCall O) (job_attempt : Option ℕ) (now : ℕ)
      (rows at_winner : List (StageRunRow O)) {row : StageRunRow O} {b : Bool}
      {after : List (StageRunRow O)}
      → (call.status == StageStatus.succeeded) ≡ true
      → save_stage hash row_id call job_attempt now rows rows rows at_winner ≡ ok (row, b, after)
      → stage_by_key hash row_id call after ≡ some row
  unfolding save_stage
  save_stage-recalled call job_attempt now rows at_winner {row} {b} {after} status h =
      let ((_, checked), _) = >>-eq-ok _ _ h in
      saved-recalled call job_attempt rows at_winner row b after status
        (has_output call status checked)
        (save_stage-IsSaved hash row_id call job_attempt rows rows rows at_winner now h)
