-- ===== src/Jobs/History/Claims.antt =====
-- The recovery of stale jobs and the claim of the next job as a whole.
use pruebas_personalizadas.Prelude.Common.{
  ℕ, ◌+◌, ◌-◌, ◌*◌, ◌≡◌, refl, sym, ap, subst, ◌∙◌, String, Option, none, some, ◌⊎◌, Bool, true,
  false, not, ◌&&◌, inl, inr, Memᴰ, arith,
}
use pruebas_personalizadas.Prelude.Tests.{
  Bool-cases, Option-cases, not-true, and-true, and-eq-false, some-injective,
}
use pruebas_personalizadas.Prelude.Eq.{string_eq, option_eq, eq_of_true}
use pruebas_personalizadas.Prelude.Lists.{
  List-cases, any, any-eq-false, filter-mem, filter, mem-take, mem-filter,
}
use pruebas_personalizadas.Prelude.Sort.{mem-sort, sort-mem, IsOrder, IsLed, sort-IsLed}
use pruebas_personalizadas.Prelude.Result.{ok, >>=-eq-ok, reject->>-eq-ok, ok-injective}
use pruebas_personalizadas.Prelude.Rows.{once-chosen}
use pruebas_personalizadas.Jobs.Tables.{
  RunStatus, run_status_eq, ControlState, control_state_eq, job_kind_eq, JobRow, Database, job_row,
  submission_row, activity_row,
}
use pruebas_personalizadas.Jobs.Queue.{with_job}
use pruebas_personalizadas.Jobs.Worker.{
  claimed_row, reconcile_rows, reconcile_stale_jobs, is_stale, created_before, stale_rows,
  claimable_rows, is_claimable, claim_first, claim_next_job,
}
use pruebas_personalizadas.Jobs.History.Change.{Reports, IsSound, identity}
use pruebas_personalizadas.Jobs.History.Audit.{Progress, Progress-trans}
use pruebas_personalizadas.Jobs.History.Steps.{with_job-Progress}
use pruebas_personalizadas.Jobs.History.Evolving.{claimed_row-Evolves, claimed_row-IsSound}
use pruebas_personalizadas.Jobs.History.Recovery.{reconcile_rows-Progress, reconcile_rows-fails}
use pruebas_personalizadas.Jobs.History.Change.{IsTable}

module _ {F : Type 0} (id_lt : String → String → Bool) (skipped : JobRow F → Bool) where
  stale_rows-mem :
      (cutoff : ℕ) (db : Database F) {row : JobRow F}
      → Memᴰ row (stale_rows id_lt skipped cutoff db)
      → Memᴰ row db.jobs × (is_stale cutoff row ≡ true)
  stale_rows-mem cutoff db m =
      let p = λ (row : JobRow F). is_stale cutoff row && not (skipped row) in
      let (k, t) = mem-filter p db.jobs (mem-sort _ (filter p db.jobs) (mem-take 100 _ m)) in
      (k, (and-true t).0)

  pub reconcile_stale_jobs-Progress :
      {r : Reports}
      → (lease now : ℕ) (db : Database F) {n : ℕ} {after : Database F} → IsTable r db.jobs
      → reconcile_stale_jobs id_lt skipped lease now db ≡ ok (n, after)
      → Progress r db after
  unfolding reconcile_stale_jobs
  reconcile_stale_jobs-Progress {r} lease now db t h =
      let (_, h1) = reject->>-eq-ok _ _ _ h in
      let (next, a, h2) = >>=-eq-ok (reconcile_rows now _ db) _ h1 in
      subst (λ x. Progress r db x) (ap (λ x. x.1) (ok-injective h2))
        (reconcile_rows-Progress now _ db (once-chosen 100 _ _ db.jobs t.once)
          (λ row m. (stale_rows-mem (now - lease * 1000000) db m).0) a)

  -- A running job is not cancelled.
  running_not-cancelled :
      {r : Reports}
      → (row : JobRow F) → IsSound r row
      → row.status ≡ RunStatus.running
      → ¬ (row.control_state ≡ ControlState.cancelled)
  running_not-cancelled row s r c = let p = s.projected in cc (rw (r, c) at p)

  -- Every job that the recovery takes has failed behind it.
  pub reconcile_stale_jobs-fails :
      {r : Reports}
      → (lease now : ℕ) (db : Database F) {n : ℕ} {after : Database F} {row : JobRow F}
      → IsTable r db.jobs
      → reconcile_stale_jobs id_lt skipped lease now db ≡ ok (n, after)
      → Memᴰ row (stale_rows id_lt skipped (now - lease * 1000000) db)
      → (new : JobRow F) × Memᴰ new after.jobs × (new.id ≡ row.id) × (new.status ≡ RunStatus.failed)
  unfolding reconcile_stale_jobs
  reconcile_stale_jobs-fails {r} lease now db {row} t h m =
      let (_, h1) = reject->>-eq-ok _ _ _ h in
      let (next, a, h2) = >>=-eq-ok (reconcile_rows now _ db) _ h1 in
      let (there, stale) = stale_rows-mem (now - lease * 1000000) db m in
      let (new, k, i, s) =
        reconcile_rows-fails now _ db (once-chosen 100 _ _ db.jobs t.once)
          (λ x q. (stale_rows-mem (now - lease * 1000000) db q).0) a m
          (running_not-cancelled row (t.sound row there) (eq_of_true (and-true stale).0)) in
      (new, subst (λ (x : Database F). Memᴰ new x.jobs) (ap (λ x. x.1) (ok-injective h2)) k, i, s)

  -- What a claim writes over a row, and what it leaves.
  pub record IsRunning (now : ℕ) (source row : JobRow F) : Type 0 where
    pub running : row.status ≡ RunStatus.running
    pub one_more : row.attempt ≡ source.attempt + 1
    pub since : row.started_at ≡ some now
    pub unfinished : row.finished_at ≡ none
    pub no_delay : row.next_attempt_at ≡ none
    pub same_job : identity row ≡ identity source
    pub same_stage : row.stage ≡ source.stage
    pub same_progress : row.progress ≡ source.progress
    pub same_control : row.control_state ≡ source.control_state
    pub same_failure : row.failure_class ≡ source.failure_class
    pub same_resumption : row.resume_from_stage ≡ source.resume_from_stage

  claimed_row-IsRunning :
      (now : ℕ) (source : JobRow F) → IsRunning now source (claimed_row now source)
  unfolding claimed_row
  claimed_row-IsRunning now source = record {
    running = refl;
    one_more = refl;
    since = refl;
    unfinished = refl;
    no_delay = refl;
    same_job = refl;
    same_stage = refl;
    same_progress = refl;
    same_control = refl;
    same_failure = refl;
    same_resumption = refl;
  }

  -- What a claim takes: nothing where nothing can be claimed, or the first in order.
  pub record IsClaim (now : ℕ) (before after : Database F) (row : JobRow F) : Type 0 where
    pub source : JobRow F
    pub there : Memᴰ source before.jobs
    pub claimable : is_claimable now source ≡ true
    pub free : skipped source ≡ false
    pub claimed : row ≡ claimed_row now source
    pub as_running : IsRunning now source row
    pub written : after ≡ with_job row before
    pub earliest :
        any
          (λ other.
            is_claimable now other && not (skipped other) && created_before id_lt other source)
          before.jobs
        ≡ false

  created_before-IsOrder : IsOrder id_lt → IsOrder (created_before {F = F} id_lt)
  created_before-IsOrder order = record {
    asym = λ a b h. ground (arith, order.asym a.id b.id);
    later = λ a b c h k. ground (arith, order.later a.id b.id c.id);
  }

  claim_first-IsClaim :
      (now : ℕ) (db : Database F) {row : JobRow F} {after : Database F}
      → IsOrder id_lt
      → claim_first id_lt now (claimable_rows id_lt skipped now db) db ≡ (some row, after)
      → IsClaim now db after row
  unfolding claim_first
  claim_first-IsClaim now db {row} {after} order h =
      elim (List-cases (claimable_rows id_lt skipped now db)) [
        | inl e ↦ cc (rw (e, claim_first) at h)
        | inr (x, xs, e) ↦
            let taken = rw (e, claim_first) at h in
            let p = λ (row : JobRow F). is_claimable now row && not (skipped row) in
            let led =
              subst (λ ys. IsLed (created_before-IsOrder order) ys) e
                (sort-IsLed (created_before-IsOrder order) (filter p db.jobs)) in
            let (k, t) = mem-filter p db.jobs (
              mem-sort (created_before id_lt) (filter p db.jobs)
                (subst (λ ys. Memᴰ x ys) (sym e) (Memᴰ.head refl))) in
            let (c, f) = and-true t in
            record {
              source = x;
              there = k;
              claimable = c;
              free = not-true f;
              claimed = some-injective (ap (λ y. y.0) (sym taken));
              as_running =
                  subst (IsRunning now x) (some-injective (ap (λ y. y.0) taken))
                    (claimed_row-IsRunning now x);
              written =
                  sym (ap (λ y. y.1) taken)
                  ∙ ap (λ y. with_job y db) (some-injective (ap (λ y. y.0) taken));
              earliest = any-eq-false _ db.jobs (λ other m. elim (Bool-cases (p other)) [
                | inr f ↦ rw f refl
                | inl t ↦ and-eq-false (p other) (
                    led other (
                      subst (λ ys. Memᴰ other ys) e
                        (sort-mem (created_before id_lt) (filter p db.jobs)
                          (filter-mem p db.jobs m t))))
              ]);
            }
      ]

  claim_first-none :
      (now : ℕ) (db : Database F) {after : Database F}
      → claim_first id_lt now (claimable_rows id_lt skipped now db) db ≡ (none, after)
      → (after ≡ db) × (any (λ row. is_claimable now row && not (skipped row)) db.jobs ≡ false)
  unfolding claim_first
  claim_first-none now db {after} h = elim (List-cases (claimable_rows id_lt skipped now db)) [
    | inr (x, xs, e) ↦ cc (rw (e, claim_first) at h)
    | inl e ↦
        let p = λ (row : JobRow F). is_claimable now row && not (skipped row) in
        (
          sym (ap (λ y. y.1) (rw (e, claim_first) at h)),
          any-eq-false p db.jobs (λ row m. elim (Bool-cases (p row)) [
            | inr f ↦ f
            | inl t ↦
                elim (subst (λ ys. Memᴰ row ys) e
                  (sort-mem (created_before id_lt) (filter p db.jobs)
                    (filter-mem p db.jobs m t))) [ ]
          ]),
        )
  ]

  -- A claim first recovers the stale jobs. Then it takes, of the jobs that may be claimed and that no
  -- other transaction holds, the one that was made first, and writes it as running, with one more attempt
  -- than it had, started now, not finished and without a time to wait for, and otherwise the same job at the
  -- same stage; where there is none, it writes nothing more.
  pub claim_next_job-takes :
      (lease reconciled_at now : ℕ) (db : Database F) {taken : Option (JobRow F)}
      {after : Database F}
      → IsOrder id_lt
      → claim_next_job id_lt skipped lease reconciled_at now db ≡ ok (taken, after)
      → (n : ℕ) × (between : Database F) × (reconcile_stale_jobs id_lt skipped lease reconciled_at
            db
          ≡ ok (n, between))
        × (((row : JobRow F) × (taken ≡ some row) × IsClaim now between after row)
            ⊎ ((taken ≡ none)
                × (after ≡ between)
                × (any (λ row. is_claimable now row && not (skipped row)) between.jobs ≡ false)))
  unfolding claim_next_job
  claim_next_job-takes lease reconciled_at now db {taken} {after} order h =
      let ((n, between), a, h1) =
        >>=-eq-ok (reconcile_stale_jobs id_lt skipped lease reconciled_at db) _ h in
      (
        n,
        between,
        a,
        elim (Option-cases taken) [
          | inl e ↦
              let (q, none_left) =
                claim_first-none now between (ok-injective h1 ∙ ap (λ t. (t, after)) e) in
              inr (e, q, none_left)
          | inr (row, e) ↦ inl (
            row,
            e,
            claim_first-IsClaim now between order (ok-injective h1 ∙ ap (λ t. (t, after)) e),
          )
        ],
      )

  pub claim_next_job-Progress :
      {r : Reports}
      → (lease reconciled_at now : ℕ) (db : Database F) {taken : Option (JobRow F)}
        {after : Database F}
      → IsTable r db.jobs
      → IsOrder id_lt
      → claim_next_job id_lt skipped lease reconciled_at now db ≡ ok (taken, after)
      → Progress r db after
  claim_next_job-Progress {r} lease reconciled_at now db {taken} {after} t order h =
      let (n, between, a, c) = claim_next_job-takes lease reconciled_at now db order h in
      let p = reconcile_stale_jobs-Progress lease reconciled_at db t a in
      elim c [
        | inr (e, q, left) ↦ subst (λ x. Progress r db x) (sym q) p
        | inl (row, e, k) ↦
            let (u, room) = and-true (and-true k.claimable).0 in
            Progress-trans p (
              subst (λ x. Progress r between x)
                (sym (k.written ∙ ap (λ y. with_job y between) k.claimed))
                (with_job-Progress between k.there (claimed_row-Evolves now k.source)
                  (claimed_row-IsSound now k.source (eq_of_true (and-true u).1) room)))
      ]
