-- ===== src/Jobs/History/Evolving.antt =====
-- How the rows that the operations write evolve, and that they stay sound.
use pruebas_personalizadas.Prelude.Common.{ℕ, ◌≤◌, ◌≡◌, refl, true, arith}
use pruebas_personalizadas.Prelude.Tests.{ltb, ltb-true}
use pruebas_personalizadas.Prelude.Eq.{string_eq, option_eq}
use pruebas_personalizadas.Contracts.Evidence.{Diagnostic}
use pruebas_personalizadas.Jobs.Tables.{
  run_status_eq, ControlState, control_state_eq, FailureClass, JobRow, job_row, submission_row,
  activity_row,
}
use pruebas_personalizadas.Jobs.Cancel.{cancelled_row}
use pruebas_personalizadas.Jobs.Worker.{failed_row, claimed_row}
use pruebas_personalizadas.Jobs.History.Change.{
  Reports, at_most, Evolves-of, IsSound, Evolves, rank,
}

module _ {F : Type 0} where
  -- How the rows of the operations evolve.
  pub cancelled_row-Evolves :
      {r : Reports} → (now : ℕ) (row : JobRow F) → Evolves r row (cancelled_row now row)
  unfolding cancelled_row
  cancelled_row-Evolves now row =
      Evolves-of _ _ refl (at_most _ _ _ (omega arith)) (rank_le row.control_state)
    where
      rank_le : (c : ControlState) → rank c ≤ 2
      rank_le ControlState.active = omega arith
      rank_le ControlState.cancel_requested = omega arith
      rank_le ControlState.cancelled = omega arith

  pub cancelled_row-IsSound :
      {r : Reports} → (now : ℕ) (row : JobRow F) → IsSound r row → IsSound r (cancelled_row now row)
  unfolding cancelled_row
  cancelled_row-IsSound now row s = record {
    used = s.used;
    some_attempt = s.some_attempt;
    few_attempts = s.few_attempts;
    projected = refl;
  }

  pub failed_row-Evolves :
      {r : Reports}
      → (c : FailureClass) (failure : Diagnostic) (now : ℕ) (row : JobRow F)
      → Evolves r row (failed_row c failure now row)
  unfolding failed_row
  failed_row-Evolves c failure now row =
      Evolves-of _ _ refl (at_most _ _ _ (omega arith)) (omega arith)

  pub failed_row-IsSound :
      {r : Reports}
      → (c : FailureClass) (failure : Diagnostic) (now : ℕ) (row : JobRow F)
      → row.control_state ≡ ControlState.active
      → IsSound r row
      → IsSound r (failed_row c failure now row)
  unfolding failed_row
  failed_row-IsSound c failure now row a s = record {
    used = s.used;
    some_attempt = s.some_attempt;
    few_attempts = s.few_attempts;
    projected = rw a refl;
  }

  pub claimed_row-Evolves :
      {r : Reports} → (now : ℕ) (row : JobRow F) → Evolves r row (claimed_row now row)
  unfolding claimed_row
  claimed_row-Evolves now row = Evolves-of _ _ refl (at_most _ _ _ (omega arith)) (omega arith)

  pub claimed_row-IsSound :
      {r : Reports}
      → (now : ℕ) (row : JobRow F) → row.control_state ≡ ControlState.active
      → ltb row.attempt row.max_attempts ≡ true
      → IsSound r row
      → IsSound r (claimed_row now row)
  unfolding claimed_row
  claimed_row-IsSound now row a lt s = record {
    used = at_most _ _ _ (omega (arith, ltb-true row.attempt row.max_attempts lt));
    some_attempt = s.some_attempt;
    few_attempts = s.few_attempts;
    projected = rw a refl;
  }
