-- ===== src/Jobs/History/Change.antt =====
-- A change of the table of jobs: writes that let a row evolve, and inserts of sound rows under fresh keys.
use mathlib.Core.List.{Nodup}
use pruebas_personalizadas.Prelude.Common.{
  String, ap, ℕ, ◌≤◌, ◌≡◌, refl, sym, subst, ◌∙◌, List, [], ◌∷◌, ◌++◌, true, inl, inr, Memᴰ, arith,
}
use pruebas_personalizadas.Prelude.Lists.{append-mem_left}
use pruebas_personalizadas.Prelude.Rows.{
  Each, ids, put, ids-put, Each-put, Each-append, mem-put, same_row,
}
use pruebas_personalizadas.Prelude.Sets.{Nodup-snoc}
use pruebas_personalizadas.Jobs.Tables.{
  ControlState, active, cancel_requested, cancelled, JobKind, JobRow, job_row,
}
use pruebas_personalizadas.Jobs.Queue.{is_projected}

-- Which reports of workers a history has: any, or those alone that keep to the attempts of their job.
pub data Reports : Type 0 where
  any_attempt within_attempts : Reports

-- A bound on attempts, which holds where the reports keep to it.
abbrev pub AtMost : Reports → ℕ → ℕ → Type 0
AtMost Reports.any_attempt m n = Unit
AtMost Reports.within_attempts m n = m ≤ n

pub at_most : (r : Reports) (m n : ℕ) → m ≤ n → AtMost r m n
at_most Reports.any_attempt m n le = tt
at_most Reports.within_attempts m n le = le

AtMost-trans : (r : Reports) (a b c : ℕ) → AtMost r a b → AtMost r b c → AtMost r a c
AtMost-trans Reports.any_attempt a b c p q = tt
AtMost-trans Reports.within_attempts a b c p q = omega (arith, p, q)

-- How far the cancellation of a job has come.
abbrev pub rank : ControlState → ℕ
rank active = 0
rank cancel_requested = 1
rank cancelled = 2

module _ {F : Type 0} where
  -- The checks of the table, and an attempt within its limit where the reports keep to it.
  pub record IsSound (r : Reports) (row : JobRow F) : Type 0 where
    pub used : AtMost r row.attempt row.max_attempts
    pub some_attempt : 1 ≤ row.max_attempts
    pub few_attempts : row.max_attempts ≤ 10
    pub projected : is_projected row ≡ true

  -- The identity of a job stays, its attempts grow where the reports keep to them, and its cancellation
  -- only goes on.
  pub record Evolves (r : Reports) (old new : JobRow F) : Type 0 where
    pub same_id : new.id ≡ old.id
    pub same_tenant : new.tenant_id ≡ old.tenant_id
    pub same_kind : new.kind ≡ old.kind
    pub same_aggregate : new.aggregate_id ≡ old.aggregate_id
    pub same_limit : new.max_attempts ≡ old.max_attempts
    pub grown : AtMost r old.attempt new.attempt
    pub cancels_on : rank old.control_state ≤ rank new.control_state

  -- What never changes of a job.
  abbrev pub identity : JobRow F → String × String × JobKind × String × ℕ
  identity row = (row.id, row.tenant_id, row.kind, row.aggregate_id, row.max_attempts)

  pub Evolves-of :
      {r : Reports}
      → (old new : JobRow F) → identity new ≡ identity old
      → AtMost r old.attempt new.attempt
      → rank old.control_state ≤ rank new.control_state
      → Evolves r old new
  Evolves-of old new same grown cancels_on = record {
    same_id = ap (λ t. t.0) same;
    same_tenant = ap (λ t. t.1) same;
    same_kind = ap (λ t. t.2) same;
    same_aggregate = ap (λ t. t.3) same;
    same_limit = ap (λ t. t.4) same;
    grown = grown;
    cancels_on = cancels_on;
  }

  pub Evolves-refl : {r : Reports} → (row : JobRow F) → Evolves r row row
  Evolves-refl row = Evolves-of _ _ refl (at_most _ _ _ (omega arith)) (omega arith)

  pub Evolves-trans :
      {r : Reports} → {a b c : JobRow F} → Evolves r a b → Evolves r b c → Evolves r a c
  Evolves-trans {r} p q = record {
    same_id = q.same_id ∙ p.same_id;
    same_tenant = q.same_tenant ∙ p.same_tenant;
    same_kind = q.same_kind ∙ p.same_kind;
    same_aggregate = q.same_aggregate ∙ p.same_aggregate;
    same_limit = q.same_limit ∙ p.same_limit;
    grown = AtMost-trans r _ _ _ p.grown q.grown;
    cancels_on = omega (arith, p.cancels_on, q.cancels_on);
  }

  pub data Change (r : Reports) : List (JobRow F) → List (JobRow F) → Type 0 where
    keep : {jobs : List (JobRow F)} → Change r jobs jobs
    write :
        {jobs : List (JobRow F)} (old new : JobRow F)
        → Memᴰ old jobs
        → Evolves r old new
        → (IsSound r old → IsSound r new)
        → Change r jobs (put new jobs)
    insert :
        {jobs : List (JobRow F)} (new : JobRow F)
        → ¬ Memᴰ new.id (ids jobs)
        → IsSound r new
        → Change r jobs (jobs ++ new ∷ [])
    chain : {a b c : List (JobRow F)} → Change r a b → Change r b c → Change r a c

  -- The rows of a table are sound, and each key occurs once.
  pub record IsTable (r : Reports) (jobs : List (JobRow F)) : Type 0 where
    pub sound : Each (IsSound r) jobs
    pub once : Nodup (ids jobs)

  ids-append :
      (jobs : List (JobRow F)) (new : JobRow F) → ids (jobs ++ new ∷ []) ≡ ids jobs ++ new.id ∷ []
  ids-append [] new = refl
  ids-append (x ∷ jobs) new = cc (ids-append jobs new)

  -- A change keeps a table a table.
  pub Change-IsTable :
      {r : Reports} → {a b : List (JobRow F)} → Change r a b → IsTable r a → IsTable r b
  Change-IsTable keep t = t
  Change-IsTable {r} (write {jobs} old new m e s) t = record {
    sound = Each-put new jobs (s (t.sound old m)) t.sound;
    once = rw ids-put t.once;
  }
  Change-IsTable {r} (insert {jobs} new fresh s) t = record {
    sound = Each-append jobs new t.sound s;
    once = rw ids-append (Nodup-snoc (ids jobs) new.id t.once fresh);
  }
  Change-IsTable (chain p q) t = Change-IsTable q (Change-IsTable p t)

  -- Every row of one table lives on in another.
  abbrev pub LivesOn : Reports → List (JobRow F) → List (JobRow F) → Type 0
  LivesOn r a b = Each (λ row. (later : JobRow F) × Memᴰ later b × Evolves r row later) a

  LivesOn-put :
      {r : Reports}
      → {jobs : List (JobRow F)} (old new : JobRow F) → Nodup (ids jobs)
      → Memᴰ old jobs
      → Evolves r old new
      → LivesOn r jobs (put new jobs)
  LivesOn-put {r} {jobs} old new once m e row k = elim (mem-put new jobs k) [
    | inr n ↦ (row, n, Evolves-refl row)
    | inl (p, n) ↦
        (new, n, subst (λ x. Evolves r x new) (same_row jobs once m k (sym (p ∙ e.same_id))) e)
  ]

  pub LivesOn-trans :
      {r : Reports} → {a b c : List (JobRow F)} → LivesOn r a b → LivesOn r b c → LivesOn r a c
  LivesOn-trans p q row m =
      let (x, k, e) = p row m in let (y, n, g) = q x k in (y, n, Evolves-trans e g)

  -- In a table, no change loses a row or turns it back.
  pub Change-LivesOn :
      {r : Reports} → {a b : List (JobRow F)} → Change r a b → IsTable r a → LivesOn r a b
  Change-LivesOn keep t = λ row m. (row, m, Evolves-refl row)
  Change-LivesOn (write old new m e s) t = LivesOn-put old new t.once m e
  Change-LivesOn {r} (insert {jobs} new fresh s) t =
      λ row m. (row, append-mem_left jobs (new ∷ []) m, Evolves-refl row)
  Change-LivesOn (chain p q) t =
      LivesOn-trans (Change-LivesOn p t) (Change-LivesOn q (Change-IsTable p t))
