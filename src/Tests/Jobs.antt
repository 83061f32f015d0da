-- ===== src/Tests/Jobs.antt =====
-- The jobs at concrete databases, with numbers for progress.
use pruebas_personalizadas.Prelude.Common.{
  ℕ, ◌+◌, ◌≤◌, ◌≡◌, refl, sym, subst, String, Option, none, some, List, [], ◌∷◌, Bool, false, ◌&&◌,
  not, ◌⊎◌, Memᴰ, arith,
}
use pruebas_personalizadas.Prelude.Eq.{string_eq}
use pruebas_personalizadas.Prelude.Lists.{any, filter}
use pruebas_personalizadas.Prelude.Sets.{mem, distinct, has_duplicates, has_duplicates-false}
use pruebas_personalizadas.Prelude.Sort.{insert, sort, IsOrder}
use pruebas_personalizadas.Prelude.Result.{ok, reject, ◌>>=◌, ◌>>◌}
use pruebas_personalizadas.Prelude.Rows.{put, get_row}
use pruebas_personalizadas.Jobs.Documents.{assessment_row}
use pruebas_personalizadas.Jobs.Tables.{
  RunStatus, FailureClass, JobKind, JobRow, JobStatus, Database, job_row, submission_row,
  activity_row, stage_run_row,
}
use pruebas_personalizadas.Jobs.Queue.{job_of_status, with_job, report, save_job_status}
use pruebas_personalizadas.Jobs.Worker.{
  lease_expired, fail_aggregate, failed_row, fail_job, reconcile_row, reconcile_rows, claimed_row,
  stale_rows, reconcile_stale_jobs, claim_first, claim_next_job, is_claimable,
}
use pruebas_personalizadas.Jobs.History.Change.{Reports, at_most, IsSound, LivesOn}
use pruebas_personalizadas.Jobs.History.Operations.{any_attempt-Fits}
use pruebas_personalizadas.Jobs.History.Audit.{IsAudit}
use pruebas_personalizadas.Jobs.History.Moves.{
  Move, History, IsConsistent, History-IsConsistent, History-LivesOn,
}
use pruebas_personalizadas.Jobs.History.Claims.{
  IsClaim, claim_next_job-takes, reconcile_stale_jobs-fails,
}
use pruebas_personalizadas.Jobs.History.Attempts.{claims, claims-bounded}

abbrev status : String → RunStatus → ℕ → Option ℕ → JobStatus ℕ
status id run attempt started_at = record {
  job_id = id;
  tenant_id = "ten";
  aggregate_id = "agg";
  stage = "PARSE";
  status = run;
  progress = 0;
  attempt = attempt;
  diagnostics = [];
  started_at = started_at;
  finished_at = none;
}

abbrev waiting : JobRow ℕ
waiting = job_of_status 10 (status "j1" RunStatus.queued 0 none) JobKind.question_action

abbrev pub orphan : JobRow ℕ
orphan = job_of_status 5 (status "j2" RunStatus.running 1 (some 7)) JobKind.question_action

abbrev pub database : List (JobRow ℕ) → Database ℕ
database jobs = record {
  jobs = jobs;
  submissions = [];
  activities = [];
  artifacts = [];
  stage_runs = [];
  controls = [];
  assessments = [];
  guides = [];
  events = [];
}

abbrev pub start : Database ℕ
start = database (waiting ∷ orphan ∷ [])

of_status-IsSound :
    {r : Reports} (id : String) (run : RunStatus) (attempt : ℕ) (started_at : Option ℕ)
    (kind : JobKind) (now : ℕ)
    → attempt ≤ 3
    → IsSound r (job_of_status now (status id run attempt started_at) kind)
unfolding job_of_status
of_status-IsSound id run attempt started_at kind now few = record {
  used = at_most _ _ _ few;
  some_attempt = omega arith;
  few_attempts = omega arith;
  projected = refl;
}

start-IsConsistent : {r : Reports} → IsConsistent r start
unfolding has_duplicates mem distinct job_of_status
start-IsConsistent {r} = record {
  jobs = record {
    sound = λ row m. elim m [
      | Memᴰ.head e ↦
          subst (IsSound r) (sym e) (
            of_status-IsSound "j1" RunStatus.queued 0 none JobKind.question_action 10 (omega arith))
      | Memᴰ.tail k ↦ elim k [
        | Memᴰ.head e ↦ subst (IsSound r) (sym e) (
            of_status-IsSound "j2" RunStatus.running 1 (some 7) JobKind.question_action 5
              (omega arith))
        | Memᴰ.tail n ↦ elim n [ ]
      ]
    ];
    once = has_duplicates-false {A = String} ("j1" ∷ "j2" ∷ []) refl;
  };
  controls = IsAudit.empty;
}

-- Identifiers that are not compared: the jobs differ in their times.
abbrev unordered : String → String → Bool
unordered a b = false

unordered-IsOrder : IsOrder unordered
unordered-IsOrder = record { asym = λ a b h. refl; later = λ a b c h k. refl }

abbrev nobody : JobRow ℕ → Bool
nobody row = false

abbrev recovered : Database ℕ
recovered = fail_job FailureClass.transient lease_expired 1000000000 orphan start

abbrev claimed : Database ℕ
claimed = with_job (claimed_row 1000000005 waiting) recovered

recover_test : reconcile_stale_jobs unordered nobody 300 1000000000 start ≡ ok (1, recovered)
unfolding reconcile_stale_jobs reconcile_rows reconcile_row fail_aggregate failed_row put sort
    insert filter job_of_status ◌>>=◌ ◌>>◌ reject
recover_test = refl

claim_test :
    claim_next_job unordered nobody 300 1000000000 1000000005 start
    ≡ ok (some (claimed_row 1000000005 waiting), claimed)
unfolding claim_next_job claim_first claimed_row reconcile_stale_jobs reconcile_rows reconcile_row
    fail_aggregate failed_row put sort insert filter job_of_status ◌>>=◌ ◌>>◌ reject
claim_test = refl

abbrev claim_history : (r : Reports) → History r start claimed
claim_history r =
    History.next History.here
      (Move.claim unordered nobody 300 1000000000 1000000005 unordered-IsOrder claim_test)

-- A report that takes the attempt of the claim back.
abbrev late : JobStatus ℕ
late = status "j1" RunStatus.running 0 (some 1000000005)

abbrev reported : Database ℕ
reported = with_job (report late (claimed_row 1000000005 waiting)) claimed

report_test : save_job_status 1000000006 late none claimed ≡ ok reported
unfolding save_job_status report claimed_row get_row put fail_aggregate failed_row job_of_status
    ◌>>=◌ ◌>>◌ reject
report_test = refl

abbrev report_history : History Reports.any_attempt start reported
report_history =
    History.next (claim_history Reports.any_attempt)
      (Move.save_status 1000000006 late none (any_attempt-Fits late claimed) report_test)

History-IsConsistent_example : IsConsistent Reports.any_attempt reported
History-IsConsistent_example = History-IsConsistent start-IsConsistent report_history

History-LivesOn_example : LivesOn Reports.any_attempt start.jobs reported.jobs
History-LivesOn_example = History-LivesOn start-IsConsistent report_history

claims-bounded_example :
    (waiting.attempt + claims waiting.id (claim_history Reports.within_attempts)
      ≤ waiting.max_attempts)
    × (claims waiting.id (claim_history Reports.within_attempts) ≤ 10)
claims-bounded_example =
    claims-bounded waiting start-IsConsistent (claim_history Reports.within_attempts)
      (Memᴰ.head refl)

claim_next_job-takes_example :
    (n : ℕ) × (between : Database ℕ) × (reconcile_stale_jobs unordered nobody 300 1000000000 start
      ≡ ok (n, between))
    × (((row : JobRow ℕ) × (some (claimed_row 1000000005 waiting) ≡ some row)
          × IsClaim unordered nobody 1000000005 between claimed row)
        ⊎ ((some (claimed_row 1000000005 waiting) ≡ none)
            × (claimed ≡ between)
            × (any (λ row. is_claimable 1000000005 row && not (nobody row)) between.jobs ≡ false)))
claim_next_job-takes_example =
    claim_next_job-takes unordered nobody 300 1000000000 1000000005 start unordered-IsOrder
      claim_test

orphan_is_stale : stale_rows unordered nobody 700000000 start ≡ orphan ∷ []
unfolding sort insert filter job_of_status
orphan_is_stale = refl

reconcile_stale_jobs-fails_example :
    (new : JobRow ℕ) × Memᴰ new recovered.jobs
    × (new.id ≡ orphan.id)
    × (new.status ≡ RunStatus.failed)
reconcile_stale_jobs-fails_example =
    reconcile_stale_jobs-fails unordered nobody 300 1000000000 start
      (start-IsConsistent {r = Reports.any_attempt}).jobs recover_test
      (subst (λ rows. Memᴰ orphan rows) (sym orphan_is_stale) (Memᴰ.head refl))
