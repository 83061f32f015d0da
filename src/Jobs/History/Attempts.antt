-- ===== src/Jobs/History/Attempts.antt =====
-- How often a job is claimed in a history.
use pruebas_personalizadas.Prelude.Common.{
  ℕ, ◌+◌, ◌≤◌, ◌≡◌, refl, sym, ap, subst, ◌∙◌, String, Option, none, some, Bool, inl, inr, Memᴰ,
  arith,
}
use pruebas_personalizadas.Prelude.Tests.{if◌then◌else◌, Bool-cases}
use pruebas_personalizadas.Prelude.Eq.{◌==◌, string_eq, eq_of_true}
use pruebas_personalizadas.Prelude.Rows.{ids, put-mem_new, same_row}
use pruebas_personalizadas.Prelude.Lists.{mem-map}
use pruebas_personalizadas.Jobs.Tables.{JobRow, Database, job_row}
use pruebas_personalizadas.Jobs.Worker.{claimed_row}
use pruebas_personalizadas.Jobs.History.Change.{
  within_attempts, IsTable, LivesOn, Change-IsTable, Change-LivesOn,
}
use pruebas_personalizadas.Jobs.History.Evolving.{claimed_row-Evolves}
use pruebas_personalizadas.Jobs.History.Claims.{
  IsClaim, claim_next_job-takes, reconcile_stale_jobs-Progress,
}
use pruebas_personalizadas.Jobs.History.Moves.{
  Move, History, IsConsistent, History-keeps, History-lives, History-Evolves,
}

module _ {F : Type 0} where
  abbrev counts : String → Option (JobRow F) → ℕ
  counts id none = 0
  counts id (some row) = if row.id == id then 1 else 0

  -- The number of times that a transaction claims a job, and that a history does.
  abbrev pub claims_in :
      String → {before after : Database F} → Move within_attempts before after → ℕ
  claims_in id (Move.claim id_lt skipped lease at now {taken} order h) = counts id taken
  claims_in id _ = 0

  abbrev pub claims : String → {start db : Database F} → History within_attempts start db → ℕ
  claims id History.here = 0
  claims id (History.next h m) = claims id h + claims_in id m

  claimed_row-attempt : (now : ℕ) (row : JobRow F) → (claimed_row now row).attempt ≡ row.attempt + 1
  unfolding claimed_row
  claimed_row-attempt now row = refl

  -- A claimed job has one attempt more.
  claim_grows :
      (id_lt : String → String → Bool) (skipped : JobRow F → Bool) (now : ℕ) (before : Database F)
      {between after : Database F} (row : JobRow F)
      → IsTable within_attempts between.jobs
      → IsTable within_attempts after.jobs
      → LivesOn within_attempts before.jobs between.jobs
      → IsClaim id_lt skipped now between after row
      → {old new : JobRow F} → Memᴰ old before.jobs
      → Memᴰ new after.jobs
      → row.id ≡ old.id
      → new.id ≡ old.id
      → old.attempt + 1 ≤ new.attempt
  claim_grows id_lt skipped now before {between} {after} row t u lives k {old} {new} m n i j =
      let (b, mb, g) = lives old m in
      let kept : row.id ≡ k.source.id =
        ap (λ (x : JobRow F). x.id) k.claimed
        ∙ (claimed_row-Evolves {r = within_attempts} now k.source).same_id in
      let is_source : b ≡ k.source =
        same_row between.jobs t.once mb k.there (g.same_id ∙ sym i ∙ kept) in
      let key : Memᴰ row.id (ids between.jobs) =
        subst (λ x. Memᴰ x (ids between.jobs)) (sym kept)
          (mem-map (λ (x : JobRow F). x.id) between.jobs k.there) in
      let there : Memᴰ row after.jobs =
        subst (λ (x : Database F). Memᴰ row x.jobs) (sym k.written)
          (put-mem_new row between.jobs key) in
      let is_row : new ≡ row = same_row after.jobs u.once n there (j ∙ sym i) in
      let grown : new.attempt ≡ k.source.attempt + 1 =
        ap (λ (x : JobRow F). x.attempt) (is_row ∙ k.claimed) ∙ claimed_row-attempt now k.source in
      let from : b.attempt ≡ k.source.attempt = ap (λ (x : JobRow F). x.attempt) is_source in
      omega (arith, g.grown, grown, from)

  Move-grows :
      {before after : Database F} {old new : JobRow F}
      → IsConsistent within_attempts before
      → (m : Move within_attempts before after) → Memᴰ old before.jobs
      → Memᴰ new after.jobs
      → new.id ≡ old.id
      → old.attempt + claims_in old.id m ≤ new.attempt
  Move-grows {before} {after} {old} c (Move.claim id_lt skipped lease at now {taken} order h) m n
        e =
      let mv = Move.claim id_lt skipped lease at now {taken = taken} order h in
      let g = History-Evolves c (History.next History.here mv) m n e in
      let u = History-keeps c (History.next History.here mv) in
      let (_, between, r, k) = claim_next_job-takes id_lt skipped lease at now before order h in
      let p = reconcile_stale_jobs-Progress id_lt skipped lease at before c.jobs r in
      elim k [
        | inr (q, _, _) ↦ rw (q, counts) (omega (arith, g.grown))
        | inl (row, q, claim) ↦
            rw (q, counts)
              (elim (Bool-cases (row.id == old.id)) [
                | inr f ↦ rw f (omega (arith, g.grown))
                | inl t ↦ rw t (
                    claim_grows id_lt skipped now before row (Change-IsTable p.jobs c.jobs) u.jobs
                      (Change-LivesOn p.jobs c.jobs) claim m n (eq_of_true t) e)
              ])
      ]
  Move-grows c mv m n e =
      omega (arith, (History-Evolves c (History.next History.here mv) m n e).grown)

  History-grows :
      {start db : Database F} {old new : JobRow F}
      → IsConsistent within_attempts start
      → (h : History within_attempts start db) → Memᴰ old start.jobs
      → Memᴰ new db.jobs
      → new.id ≡ old.id
      → old.attempt + claims old.id h ≤ new.attempt
  History-grows {start} {old = old} c History.here m n e =
      let same = same_row start.jobs c.jobs.once n m e in
      omega (arith, ap (λ (x : JobRow F). x.attempt) same)
  History-grows {old = old} c (History.next h mv) m n e =
      let (mid, k, g) = History-lives c h old m in
      let before = History-grows c h m k g.same_id in
      let step = Move-grows (History-keeps c h) mv k n (e ∙ sym g.same_id) in
      let same : claims_in mid.id mv ≡ claims_in old.id mv = ap (λ i. claims_in i mv) g.same_id in
      omega (arith, before, step, same)

  -- From a consistent database, a job is claimed, in any history whose queued and reported attempts are
  -- within the limit and never below the stored one, at most as often as its limit leaves attempts, and so
  -- at most 10 times.
  pub claims-bounded :
      {start db : Database F} (row : JobRow F)
      → IsConsistent within_attempts start
      → (h : History within_attempts start db) → Memᴰ row start.jobs
      → (row.attempt + claims row.id h ≤ row.max_attempts) × (claims row.id h ≤ 10)
  claims-bounded row c h m =
      let (later, k, g) = History-lives c h row m in
      let s = (History-keeps c h).jobs.sound later k in
      let grows = History-grows c h m k g.same_id in
      (omega (arith, grows, s.used, g.same_limit), omega (arith, grows, s.used, s.few_attempts))
