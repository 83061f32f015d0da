-- ===== src/Tests/Approvals.antt =====
-- The approval of an assessment at a concrete database.
use pruebas_personalizadas.Prelude.Common.{ℕ, ◌≡◌, refl, String, Option, none, some, [], ◌∷◌}
use pruebas_personalizadas.Prelude.Eq.{string_eq, option_eq}
use pruebas_personalizadas.Prelude.Lists.{any, filter}
use pruebas_personalizadas.Prelude.Result.{ok, reject, ◌>>=◌, ◌>>◌}
use pruebas_personalizadas.Prelude.Rows.{select_one, get_row, put}
use pruebas_personalizadas.Jobs.Documents.{WorkflowStatus, AssessmentRow}
use pruebas_personalizadas.Jobs.Tables.{SubmissionStatus, SubmissionRow, Database, submission_row}
use pruebas_personalizadas.Jobs.Queue.{found}
use pruebas_personalizadas.Jobs.Continue.{as_conflict}
use pruebas_personalizadas.Jobs.Publish.{
  latest_version, is_version_of, approved_submission, approval_event, write_approval,
  approve_latest, approve_assessment_atomic,
}
use pruebas_personalizadas.Jobs.Approval.{IsApproved, approve_assessment_atomic-once}

abbrev version : ℕ → String → WorkflowStatus → Option String → Option ℕ → AssessmentRow
version n etag status by at = record {
  row_id = etag;
  assessment_id = "asm";
  tenant_id = "ten";
  submission_id = "sub";
  version = n;
  etag = etag;
  stored = record {
    assessment_id = "asm";
    submission_id = "sub";
    status = status;
    approved_by = by;
    approved_at = at;
  };
  created_at = 1;
}

abbrev reviewed : AssessmentRow
reviewed = version 1 "e1" WorkflowStatus.needs_review none none

abbrev approved : AssessmentRow
approved = version 2 "e2" WorkflowStatus.approved (some "ana") (some 50)

abbrev submission : SubmissionRow ℕ
submission = record {
  id = "sub";
  tenant_id = "ten";
  activity_id = "act";
  subject_ref = "subject";
  blueprint_version = some 1;
  state = record {
    submission_id = "sub";
    activity_id = "act";
    status = SubmissionStatus.needs_review;
    current_stage = some "NEEDS_REVIEW";
    progress = 1;
    active_job_id = some "job";
    diagnostics = [];
    updated_at = 40;
  };
  active_job_id = some "job";
  created_at = 1;
  updated_at = 40;
}

abbrev under_review : Database ℕ
under_review = record {
  jobs = [];
  submissions = submission ∷ [];
  activities = [];
  artifacts = [];
  stage_runs = [];
  controls = [];
  assessments = reviewed ∷ [];
  guides = [];
  events = [];
}

abbrev behind : Database ℕ
behind = record under_review {
  assessments = reviewed ∷ approved ∷ [];
  submissions = approved_submission 50 submission ∷ [];
  events = approval_event "evt" "ana" 50 approved ∷ [];
}

approve_test : approve_assessment_atomic "evt" "e1" approved "ana" under_review ≡ ok behind
unfolding approve_assessment_atomic approve_latest write_approval as_conflict found latest_version
    filter any select_one get_row put reject ◌>>=◌ ◌>>◌
approve_test = refl

approve_assessment_atomic-once_example :
    IsApproved "e1" "ana" approved under_review behind
    × (latest_version (filter (is_version_of "asm" "ten") behind.assessments) ≡ some approved)
    × ((event other_actor : String) (other : AssessmentRow) (final : Database ℕ)
        → ¬ (
            approve_assessment_atomic event "e1"
              (record other { assessment_id = "asm"; tenant_id = "ten" })
              other_actor
              behind
            ≡ ok final))
approve_assessment_atomic-once_example =
    approve_assessment_atomic-once "evt" "e1" approved "ana" under_review approve_test
