-- ===== src/Jobs/Approval.antt =====
-- The approval of an assessment: what it requires, what it writes, and that an etag is used up by it.
use pruebas_personalizadas.Prelude.Common.{
  ℕ, ◌+◌, ◌≡◌, refl, sym, ap, ◌∙◌, String, Option, none, some, List, [], ◌∷◌, ◌++◌, Bool, true,
  false, inl, inr, Memᴰ, arith,
}
use pruebas_personalizadas.Prelude.Tests.{
  if◌then◌else◌, Bool-cases, Option-cases, or-false, ltb, nat_beq_iff, not-false, some-injective,
}
use pruebas_personalizadas.Prelude.Eq.{string_eq, option_eq, eq_of_not-ne, ne_of_false, beq_refl}
use pruebas_personalizadas.Prelude.Lists.{any, any-false, filter, mem-filter}
use pruebas_personalizadas.Prelude.Result.{ok, >>=-eq-ok, reject->>-eq-ok, ok-injective}
use pruebas_personalizadas.Prelude.Rows.{select_one, put}
use pruebas_personalizadas.Jobs.Documents.{WorkflowStatus, workflow_status_eq, AssessmentRow}
use pruebas_personalizadas.Jobs.Tables.{
  SubmissionRow, SubmissionStatus, submission_status_eq, Database, submission_row,
}
use pruebas_personalizadas.Jobs.Publish.{
  latest_version, is_version_of, collides, approved_submission, write_approval, approve_latest,
  approve_assessment_atomic,
}
use pruebas_personalizadas.Jobs.History.Steps.{found-eq-ok}
use pruebas_personalizadas.Jobs.History.Continuations.{as_conflict-eq-ok}

filter-snoc :
    {A : Type 0} (p : A → Bool) (xs : List A) (a : A)
    → p a ≡ true
    → filter p (xs ++ a ∷ []) ≡ filter p xs ++ a ∷ []
unfolding filter
filter-snoc p [] a t = rw t refl
filter-snoc p (x ∷ xs) a t = elim (Bool-cases (p x)) [
  | inl u ↦ rw (u, if◌then◌else◌) (ap (λ ys. x ∷ ys) (filter-snoc p xs a t))
  | inr f ↦ rw (f, if◌then◌else◌) (filter-snoc p xs a t)
]

abbrev is_below : Option AssessmentRow → ℕ → Bool
is_below none n = true
is_below (some row) n = ltb row.version n

later_of : AssessmentRow → Option AssessmentRow → Option AssessmentRow
later_of row none = some row
later_of row (some later) = if ltb row.version later.version then some later else some row

latest_version-cons :
    (row : AssessmentRow) (rows : List AssessmentRow)
    → latest_version (row ∷ rows) ≡ later_of row (latest_version rows)
unfolding latest_version later_of
latest_version-cons row rows = elim (Option-cases (latest_version rows)) [
  | inl n ↦ rw n refl
  | inr (l, e) ↦ rw e refl
]

later_of-below :
    (row : AssessmentRow) (rest : Option AssessmentRow) (n : ℕ)
    → is_below (later_of row rest) n ≡ true
    → (ltb row.version n ≡ true) × (is_below rest n ≡ true)
unfolding later_of
later_of-below row none n b = (b, refl)
later_of-below row (some l) n b = elim (Bool-cases (ltb row.version l.version)) [
  | inl t ↦ let below = rw (t, if◌then◌else◌) at b in (ground arith, below)
  | inr f ↦ let below = rw (f, if◌then◌else◌) at b in (below, ground arith)
]

-- A row of a version above all others is the latest.
latest_version-snoc :
    (rows : List AssessmentRow) (row : AssessmentRow)
    → is_below (latest_version rows) row.version ≡ true
    → latest_version (rows ++ row ∷ []) ≡ some row
unfolding later_of
latest_version-snoc [] row b = unfold latest_version in refl
latest_version-snoc (x ∷ rows) row b =
    let (lt, rest) =
      later_of-below x (latest_version rows) row.version (rw latest_version-cons at b) in
    latest_version-cons x (rows ++ row ∷ []) ∙ rw (latest_version-snoc rows row rest) (rw lt refl)

no_latest : {row : AssessmentRow} → ¬ (latest_version [] ≡ some row)
unfolding latest_version
no_latest h = cc

latest_version-mem :
    (rows : List AssessmentRow) {row : AssessmentRow}
    → latest_version rows ≡ some row
    → Memᴰ row rows
unfolding later_of
latest_version-mem [] h = absurd (no_latest h)
latest_version-mem (x ∷ rows) {row} h = elim (Option-cases (latest_version rows)) [
  | inl n ↦ Memᴰ.head (sym (some-injective (rw (latest_version-cons, n) at h)))
  | inr (l, e) ↦ elim (Bool-cases (ltb x.version l.version)) [
    | inl t ↦ Memᴰ.tail (latest_version-mem rows (e ∙ rw (latest_version-cons, e, t) at h))
    | inr f ↦ Memᴰ.head (sym (some-injective (rw (latest_version-cons, e, f) at h)))
  ]
]

module _ {F : Type 0} where
  -- What an approval found, and what it wrote.
  pub record IsApproved (expected_etag actor_id : String) (approved : AssessmentRow)
      (db after : Database F) : Type 0 where
    pub latest : AssessmentRow
    pub is_latest :
        latest_version
          (filter (is_version_of approved.assessment_id approved.tenant_id) db.assessments)
        ≡ some latest
    pub same_etag : latest.etag ≡ expected_etag
    pub reviewable : latest.stored.status ≡ WorkflowStatus.needs_review
    pub approval : approved.stored.status ≡ WorkflowStatus.approved
    pub actor : approved.stored.approved_by ≡ some actor_id
    pub next_version : approved.version ≡ latest.version + 1
    pub submission : SubmissionRow F
    pub selected : select_one latest.submission_id latest.tenant_id db.submissions ≡ some submission
    pub reviewed : submission.state.status ≡ SubmissionStatus.needs_review
    pub approved_at : ℕ
    pub submissions :
        after.submissions ≡ put (approved_submission approved_at submission) db.submissions
    pub new_row : any (collides approved) db.assessments ≡ false
    pub assessments : after.assessments ≡ db.assessments ++ approved ∷ []

  approve_latest-IsApproved :
      (event_id expected_etag actor_id : String) (at : ℕ) (approved : AssessmentRow)
      (db : Database F) {after : Database F}
      → approved.stored.status ≡ WorkflowStatus.approved
      → approved.stored.approved_by ≡ some actor_id
      → approve_latest event_id expected_etag actor_id at approved db ≡ ok after
      → IsApproved expected_etag actor_id approved db after
  unfolding approve_latest write_approval
  approve_latest-IsApproved event_id expected_etag actor_id at approved db p q h =
      let (latest, l, h1) = >>=-eq-ok _ _ h in
      let (etag, h2) = reject->>-eq-ok _ _ _ h1 in
      let (status, h3) = reject->>-eq-ok _ _ _ h2 in
      let (version, h4) = reject->>-eq-ok _ _ _ h3 in
      let (submission, s, h5) = >>=-eq-ok _ _ h4 in
      let (reviewed, h6) = reject->>-eq-ok _ _ _ h5 in
      let (new, h7) = reject->>-eq-ok _ _ _ h6 in
      let (_, h8) = reject->>-eq-ok _ _ _ h7 in
      let (v, _) = or-false _ _ version in
      let (v1, _) = or-false _ _ v in
      let e = sym (ok-injective h8) in
      record {
        latest = latest;
        is_latest = found-eq-ok _ _ l;
        same_etag = eq_of_not-ne latest.etag expected_etag etag;
        reviewable = eq_of_not-ne latest.stored.status WorkflowStatus.needs_review status;
        approval = p;
        actor = q;
        next_version = (nat_beq_iff approved.version (latest.version + 1)).0 (not-false v1);
        submission = submission;
        selected = found-eq-ok _ _ s;
        reviewed = eq_of_not-ne submission.state.status SubmissionStatus.needs_review reviewed;
        approved_at = at;
        submissions = ap (λ (x : Database F). x.submissions) e;
        new_row = new;
        assessments = ap (λ (x : Database F). x.assessments) e;
      }

  approve_assessment_atomic-IsApproved :
      (event_id expected_etag : String) (approved : AssessmentRow) (actor_id : String)
      (db : Database F) {after : Database F}
      → approve_assessment_atomic event_id expected_etag approved actor_id db ≡ ok after
      → IsApproved expected_etag actor_id approved db after
  unfolding approve_assessment_atomic
  approve_assessment_atomic-IsApproved event_id expected_etag approved actor_id db h =
      let (status, h1) = reject->>-eq-ok _ _ _ h in
      let (actor, h2) = reject->>-eq-ok _ _ _ h1 in
      elim (Option-cases approved.stored.approved_at) [
        | inl n ↦ cc (rw n at h2)
        | inr (at, e) ↦
            approve_latest-IsApproved event_id expected_etag actor_id at approved db
              (eq_of_not-ne approved.stored.status WorkflowStatus.approved status)
              (eq_of_not-ne approved.stored.approved_by (some actor_id) actor)
              (as_conflict-eq-ok _ _ (rw e at h2))
      ]

  IsApproved-latest :
      {expected_etag actor_id : String} (approved : AssessmentRow) (db after : Database F)
      → IsApproved expected_etag actor_id approved db after
      → latest_version
          (filter (is_version_of approved.assessment_id approved.tenant_id) after.assessments)
        ≡ some approved
  IsApproved-latest approved db after k =
      let p = is_version_of approved.assessment_id approved.tenant_id in
      let own : p approved ≡ true =
        rw (beq_refl approved.assessment_id, beq_refl approved.tenant_id) refl in
      let above : ltb k.latest.version approved.version ≡ true = rw k.next_version (ground arith) in
      rw (k.assessments, filter-snoc p db.assessments approved own)
        (latest_version-snoc (filter p db.assessments) approved (rw k.is_latest above))

  -- Two reviewers cannot approve one version: an approval that succeeds was of the latest version of the
  -- assessment, under review with the expected etag, and becomes the latest version with the next number,
  -- with its submission approved; and behind it no approval of that assessment with that etag succeeds.
  pub approve_assessment_atomic-once :
      (event_id expected_etag : String) (approved : AssessmentRow) (actor_id : String)
      (db : Database F) {after : Database F}
      → approve_assessment_atomic event_id expected_etag approved actor_id db ≡ ok after
      → IsApproved expected_etag actor_id approved db after
        × (latest_version
              (filter (is_version_of approved.assessment_id approved.tenant_id) after.assessments)
            ≡ some approved)
        × ((event other_actor : String) (other : AssessmentRow) (final : Database F)
            → ¬ (
                approve_assessment_atomic event expected_etag
                  (record other {
                    assessment_id = approved.assessment_id;
                    tenant_id = approved.tenant_id;
                  })
                  other_actor
                  after
                ≡ ok final))
  approve_assessment_atomic-once event_id expected_etag approved actor_id db {after} h =
      let k = approve_assessment_atomic-IsApproved event_id expected_etag approved actor_id db h in
      let now_latest = IsApproved-latest approved db after k in
      (
        k,
        now_latest,
        λ event other_actor other final again.
            let g =
              approve_assessment_atomic-IsApproved event expected_etag _ other_actor after again in
            let is_approved : g.latest ≡ approved = some-injective (sym g.is_latest ∙ now_latest) in
            let there =
              mem-filter (is_version_of approved.assessment_id approved.tenant_id) db.assessments
                (latest_version-mem _ k.is_latest) in
            let free = any-false (collides approved) db.assessments k.new_row k.latest there.0 in
            let (keys, _) = or-false _ _ free in
            let (_, etags) = or-false _ _ keys in
            ne_of_false etags
              (k.same_etag ∙ sym g.same_etag ∙ ap (λ (x : AssessmentRow). x.etag) is_approved),
      )
