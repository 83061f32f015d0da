-- ===== src/Jobs/History/Audit.antt =====
-- The growth of the control records: nothing is removed, and no two records of a job share an attempt.
use pruebas_personalizadas.Prelude.Common.{◌≡◌, List, [], ◌∷◌, ◌++◌, false, Memᴰ}
use pruebas_personalizadas.Prelude.Lists.{any, append-mem_left}
use pruebas_personalizadas.Prelude.Result.{ok}
use pruebas_personalizadas.Jobs.Tables.{ControlRecord, Database}
use pruebas_personalizadas.Jobs.Cancel.{is_taken_by, create_control}
use pruebas_personalizadas.Jobs.History.Change.{Reports, Change}

-- Records that the contract accepts, each with an id and an attempt of its job of its own.
pub data IsAudit : List ControlRecord → Type 0 where
  empty : IsAudit []
  another :
      {controls : List ControlRecord} (new : ControlRecord)
      → any (is_taken_by new) controls ≡ false
      → create_control new ≡ ok new
      → IsAudit controls
      → IsAudit (controls ++ new ∷ [])

pub data Audit : List ControlRecord → List ControlRecord → Type 0 where
  keep : {controls : List ControlRecord} → Audit controls controls
  append :
      {controls : List ControlRecord} (new : ControlRecord)
      → any (is_taken_by new) controls ≡ false
      → create_control new ≡ ok new
      → Audit controls (controls ++ new ∷ [])
  chain : {a b c : List ControlRecord} → Audit a b → Audit b c → Audit a c

pub Audit-IsAudit : {a b : List ControlRecord} → Audit a b → IsAudit a → IsAudit b
Audit-IsAudit keep h = h
Audit-IsAudit (append new free made) h = another new free made h
Audit-IsAudit (chain p q) h = Audit-IsAudit q (Audit-IsAudit p h)

pub Audit-mem :
    {a b : List ControlRecord}
    → Audit a b
    → {control : ControlRecord} → Memᴰ control a
    → Memᴰ control b
Audit-mem keep m = m
Audit-mem (append {controls} new free made) m = append-mem_left controls (new ∷ []) m
Audit-mem (chain p q) m = Audit-mem q (Audit-mem p m)

-- What a transaction does to the jobs and to the control records.
module _ {F : Type 0} where
  pub record Progress (r : Reports) (before after : Database F) : Type 0 where
    pub jobs : Change r before.jobs after.jobs
    pub controls : Audit before.controls after.controls

  pub Progress-trans :
      {r : Reports} {a b c : Database F} → Progress r a b → Progress r b c → Progress r a c
  Progress-trans p q = record {
    jobs = Change.chain p.jobs q.jobs;
    controls = Audit.chain p.controls q.controls;
  }
