-- ===== src/Tests/Stages.antt =====
-- Runs of the stage runs of a job.
use pruebas_personalizadas.Prelude.Common.{
  ℕ, String, ◌≡◌, refl, Option, none, some, List, [], ◌∷◌, ◌++◌, true, false,
}
use pruebas_personalizadas.Prelude.Tests.{if◌then◌else◌, nat_beq}
use pruebas_personalizadas.Prelude.Lists.{any}
use pruebas_personalizadas.Prelude.Result.{ok, reject, ◌>>=◌, ◌>>◌}
use pruebas_personalizadas.Prelude.Rows.{put}
use pruebas_personalizadas.Jobs.Tables.{FailureClass}
use pruebas_personalizadas.Stages.{
  StageStatus, StageRunRow, StageCall, first_where, new_run, reuse, commit_rewrite, commit_insert,
  save_again, save_attempt, save_stage, stage_by_key,
}
use pruebas_personalizadas.Stages.Recall.{save_stage-recalled}
use pruebas_personalizadas.Stages.Saved.{IsSaved}
use pruebas_personalizadas.Stages.Reuse.{save_stage-IsSaved}

abbrev digest : Option ℕ → String
digest none = "null"
digest (some n) = if nat_beq n 7 then "seven" else "number"

abbrev name : String → String → String → ℕ → String
name job stage key n = if nat_beq n 1 then "first" else "later"

abbrev parsed : StageCall ℕ
parsed = record {
  job_id = "j1";
  tenant_id = "ten";
  stage = "parse";
  input_hash = "in";
  stage_key = "key";
  component_version = "1";
  policy_hash = "p";
  output = some 7;
  status = StageStatus.succeeded;
  diagnostics = [];
  failure_class = none;
  next_attempt_at = none;
  attempt = none;
  resumed_from_stage_run_id = none;
}

abbrev unparsed : StageCall ℕ
unparsed = record parsed {
  output = none;
  status = StageStatus.failed;
  failure_class = some FailureClass.transient;
}

abbrev runs : List (StageRunRow ℕ)
runs = new_run digest name unparsed 1 40 ∷ []

abbrev again : StageCall ℕ
again = record parsed { job_id = "j2" }

abbrev done : StageRunRow ℕ
done = new_run digest name parsed 2 50

-- A failed first attempt, then a second one that succeeds.
second_test :
    save_stage digest name parsed (some 2) 50 runs runs runs runs
    ≡ ok (done, false, runs ++ done ∷ [])
unfolding save_stage save_attempt save_again commit_insert commit_rewrite reuse first_where any put
    reject ◌>>=◌ ◌>>◌
second_test = refl

-- A later job reuses the second run, also when it loses the race for the key.
reuse_test :
    save_stage digest name again (some 1) 60 (done ∷ runs) (done ∷ runs) (done ∷ runs) []
    ≡ ok (done, true, done ∷ runs)
unfolding save_stage save_attempt save_again commit_insert commit_rewrite reuse first_where any put
    reject ◌>>=◌ ◌>>◌
reuse_test = refl

race_test :
    save_stage digest name again (some 1) 60 runs runs (done ∷ runs) (done ∷ runs)
    ≡ ok (done, true, done ∷ runs)
unfolding save_stage save_attempt save_again commit_insert commit_rewrite reuse first_where any put
    reject ◌>>=◌ ◌>>◌
race_test = refl

lookup_test : stage_by_key digest name again (done ∷ runs) ≡ some done
unfolding stage_by_key first_where
lookup_test = refl

-- The attempt of another worker succeeds between the two selects.
met_test :
    save_stage digest name parsed (some 2) 60 runs (done ∷ runs) [] []
    ≡ ok (done, true, done ∷ runs)
unfolding save_stage save_attempt save_again commit_insert commit_rewrite reuse first_where any put
    reject ◌>>=◌ ◌>>◌
met_test = refl

save_stage-IsSaved_example :
    IsSaved digest name parsed (some 2) runs runs runs runs done false (runs ++ done ∷ [])
save_stage-IsSaved_example =
    save_stage-IsSaved digest name parsed (some 2) runs runs runs runs 50 second_test

save_stage-recalled_example : stage_by_key digest name parsed (runs ++ done ∷ []) ≡ some done
save_stage-recalled_example =
    save_stage-recalled digest name parsed (some 2) 50 runs runs refl second_test
