-- ===== src/Idempotency/Exclusive.antt =====
-- One request owns a key, and its stored response is replayed.
use pruebas_personalizadas.Prelude.Common.{
  ◌≡◌, refl, ap, subst, ◌∙◌, String, Option, none, some, List, [], ◌∷◌, ◌++◌, Bool, true, false,
  not, ◌&&◌, inl, inr, arith,
}
use pruebas_personalizadas.Prelude.Tests.{
  if◌then◌else◌, is_some, Bool-cases, Option-cases, some-injective,
}
use pruebas_personalizadas.Prelude.Eq.{Eq, ◌==◌, string_eq, option_eq, beq_refl}
use pruebas_personalizadas.Prelude.Result.{Result, ok, err, reject->>-eq-ok, ok-injective}
use pruebas_personalizadas.Idempotency.{
  IdempotencyError, IdempotencyRow, is_at, select_row, inspect, commit_row, reservation,
  reserve_idempotency, store_response, complete_idempotency, is_open, release_idempotency,
}

closed_row :
    {R : Type 0} (b : Bool) (x : Option R) {y : R} → x ≡ some y → (b && not (is_some x)) ≡ false
closed_row b x h = rw h (no_row b)
  where
    no_row : (c : Bool) → (c && false) ≡ false
    no_row true = refl
    no_row false = refl

other_row : (a b c : Bool) → a ≡ false → (a && b && c) ≡ false
other_row a b c h = rw h refl

is_at_refl :
    (R : Type 0) (tenant_id key fingerprint : String)
    → is_at tenant_id key (reservation {R = R} tenant_id key fingerprint) ≡ true
is_at_refl R tenant_id key fingerprint = rw (beq_refl tenant_id, beq_refl key) refl

module _ {R : Type 0} (tenant_id key : String) where
  select_row-snoc :
      (table : List (IdempotencyRow R)) (row : IdempotencyRow R)
      → select_row tenant_id key table ≡ none
      → is_at tenant_id key row ≡ true
      → select_row tenant_id key (table ++ row ∷ []) ≡ some row
  unfolding select_row
  select_row-snoc [] row h t = rw t refl
  select_row-snoc (r ∷ table) row h t = elim (Bool-cases (is_at tenant_id key r)) [
    | inl u ↦ absurd (cc (rw (u, select_row) at h))
    | inr f ↦ rw (f, select_row) (select_row-snoc table row (rw (f, select_row) at h) t)
  ]

  inspect-answers :
      (fingerprint : String) (table : List (IdempotencyRow R))
      → inspect tenant_id key fingerprint table ≡ ok none
      → ⊥
  unfolding inspect
  inspect-answers fingerprint table h = ground arith

  -- A reservation is granted only where the key was free at the commit, and puts an open row there.
  reserve_idempotency-granted :
      (fingerprint : String) (at_select at_commit at_inspect : List (IdempotencyRow R))
      → (reserve_idempotency tenant_id key fingerprint at_select at_commit at_inspect).0 ≡ ok none
      → (select_row tenant_id key at_commit ≡ none)
        × (select_row tenant_id key
              (reserve_idempotency tenant_id key fingerprint at_select at_commit at_inspect).1
            ≡ some (reservation tenant_id key fingerprint))
  unfolding reserve_idempotency commit_row
  reserve_idempotency-granted fingerprint at_select at_commit at_inspect h =
      elim (Option-cases (select_row tenant_id key at_select)) [
        | inr (row, seen) ↦
            absurd (inspect-answers fingerprint at_inspect (rw (seen, reserve_idempotency) at h))
        | inl unseen ↦ elim (Option-cases (select_row tenant_id key at_commit)) [
          | inr (row, taken) ↦ absurd (
              inspect-answers fingerprint at_inspect (rw (unseen, taken, reserve_idempotency) at h))
          | inl free ↦ (
            free,
            rw (unseen, free, reserve_idempotency)
                (select_row-snoc at_commit (reservation tenant_id key fingerprint) free
                  (is_at_refl R tenant_id key fingerprint)),
          )
        ]
      ]

  inspect-open :
      (fingerprint other : String) (table : List (IdempotencyRow R))
      → select_row tenant_id key table ≡ some (reservation tenant_id key fingerprint)
      → inspect tenant_id key other table
        ≡ err (
            if fingerprint == other
            then IdempotencyError.request_in_progress
            else IdempotencyError.key_reused)
  unfolding inspect
  inspect-open fingerprint other table h = elim (Bool-cases (fingerprint == other)) [
    | inl t ↦ rw (h, inspect) (rw t refl)
    | inr f ↦ rw (h, inspect) (rw f refl)
  ]

  -- While an open row holds the key, at the commit and behind it, every other reservation conflicts,
  -- whether its first select saw the row or not.
  reserve_idempotency-held :
      (fingerprint other : String) (at_select at_commit at_inspect : List (IdempotencyRow R))
      → select_row tenant_id key at_commit ≡ some (reservation tenant_id key fingerprint)
      → select_row tenant_id key at_inspect ≡ some (reservation tenant_id key fingerprint)
      → reserve_idempotency tenant_id key other at_select at_commit at_inspect ≡ (
        err (
            if fingerprint == other
            then IdempotencyError.request_in_progress
            else IdempotencyError.key_reused),
        at_commit,
      )
  unfolding reserve_idempotency commit_row
  reserve_idempotency-held fingerprint other at_select at_commit at_inspect c i =
      let refused =
        ap (λ (answer : Result IdempotencyError (Option R)). (answer, at_commit))
          (inspect-open fingerprint other at_inspect i) in
      elim (Option-cases (select_row tenant_id key at_select)) [
        | inr (row, seen) ↦ rw (seen, reserve_idempotency) refused
        | inl unseen ↦ rw (unseen, c, reserve_idempotency) refused
      ]

  -- One request owns a key: a reservation is granted only if the key was free at its commit. From then on,
  -- a reservation of the key by any request, at whose commit and at whose inspection the open row stands,
  -- whatever its first select saw, is refused, as in progress for the same fingerprint and as a reused key
  -- for another, and its commit leaves the table as it found it.
  pub reserve_idempotency-exclusive :
      (fingerprint other : String) (at_select at_commit at_inspect : List (IdempotencyRow R))
      (later_select later_commit later_inspect : List (IdempotencyRow R))
      → (reserve_idempotency tenant_id key fingerprint at_select at_commit at_inspect).0 ≡ ok none
      → select_row tenant_id key later_commit
        ≡ select_row tenant_id key
            (reserve_idempotency tenant_id key fingerprint at_select at_commit at_inspect).1
      → select_row tenant_id key later_inspect
        ≡ select_row tenant_id key
            (reserve_idempotency tenant_id key fingerprint at_select at_commit at_inspect).1
      → (select_row tenant_id key at_commit ≡ none)
        × (reserve_idempotency tenant_id key other later_select later_commit later_inspect ≡ (
          err (
              if fingerprint == other
              then IdempotencyError.request_in_progress
              else IdempotencyError.key_reused),
          later_commit,
        ))
  reserve_idempotency-exclusive fingerprint other at_select at_commit at_inspect later_select
        later_commit later_inspect h same inspected =
      let (free, held) = reserve_idempotency-granted fingerprint at_select at_commit at_inspect h in
      (
        free,
        reserve_idempotency-held fingerprint other later_select later_commit later_inspect
            (same ∙ held) (inspected ∙ held),
      )

  abbrev answered : IdempotencyRow R → R → IdempotencyRow R
  answered row response = record {
    tenant_id = row.tenant_id;
    key = row.key;
    fingerprint = row.fingerprint;
    response = some response;
  }

  select_row-store_response :
      (response : R) (table : List (IdempotencyRow R)) {row : IdempotencyRow R}
      → select_row tenant_id key table ≡ some row
      → select_row tenant_id key (store_response tenant_id key response table)
        ≡ some (answered row response)
  unfolding select_row store_response
  select_row-store_response response [] h = cc
  select_row-store_response response (r ∷ table) {row} h =
      elim (Bool-cases (is_at tenant_id key r)) [
        | inl t ↦
            let e : r ≡ row = some-injective (rw (t, select_row) at h) in
            rw (t, store_response) (rw t (ap (λ x. some (answered x response)) e))
        | inr f ↦
            rw (f, store_response)
              (rw f (select_row-store_response response table (rw (f, select_row) at h)))
      ]

  -- A row with a response is never released.
  select_row-release :
      (fingerprint : String) (response : R) (table : List (IdempotencyRow R))
      {row : IdempotencyRow R}
      → select_row tenant_id key table ≡ some row
      → row.response ≡ some response
      → select_row tenant_id key (release_idempotency tenant_id key fingerprint table) ≡ some row
  unfolding select_row release_idempotency
  select_row-release fingerprint response [] h e = cc
  select_row-release fingerprint response (r ∷ table) {row} h e =
      elim (Bool-cases (is_at tenant_id key r)) [
        | inl t ↦
            let same : r ≡ row = some-injective (rw (t, select_row) at h) in
            let kept : is_open tenant_id key fingerprint r ≡ false =
              closed_row _ _ (ap (λ x. x.response) same ∙ e) in
            rw (kept, release_idempotency) (rw (t, select_row) (ap some same))
        | inr f ↦
            let kept : is_open tenant_id key fingerprint r ≡ false =
              other_row (is_at tenant_id key r) _ _ f in
            rw (kept, release_idempotency)
              (rw (f, select_row)
                (select_row-release fingerprint response table (rw (f, select_row) at h) e))
      ]

  inspect-answered :
      (fingerprint : String) (response : R) (table : List (IdempotencyRow R))
      (row : IdempotencyRow R)
      → select_row tenant_id key table ≡ some row
      → (row.fingerprint == fingerprint) ≡ true
      → row.response ≡ some response
      → inspect tenant_id key fingerprint table ≡ ok (some response)
  unfolding inspect
  inspect-answered fingerprint response table row found same given =
      rw (found, inspect) (rw (same, given) refl)

  reserve_idempotency-replay :
      (fingerprint : String) (response : R) (table : List (IdempotencyRow R))
      (row : IdempotencyRow R)
      → select_row tenant_id key table ≡ some row
      → (row.fingerprint == fingerprint) ≡ true
      → row.response ≡ some response
      → reserve_idempotency tenant_id key fingerprint table table table
        ≡ (ok (some response), table)
  unfolding reserve_idempotency
  reserve_idempotency-replay fingerprint response table row found same given =
      rw (found, reserve_idempotency)
        (ap (λ answer. (answer, table))
          (inspect-answered fingerprint response table row found same given))

  -- A completed request is replayed: once its response is stored, the same request gets that response
  -- back and changes nothing, also when a release of the key has run in between.
  pub complete_idempotency-replays :
      ⦃e : Eq R⦄ (transient : R → Bool) (fingerprint : String) (response : R)
      (table : List (IdempotencyRow R)) {done : List (IdempotencyRow R)}
      → complete_idempotency transient tenant_id key fingerprint response table ≡ ok done
      → (later : List (IdempotencyRow R)) × (later
          ≡ release_idempotency tenant_id key fingerprint done)
        × (reserve_idempotency tenant_id key fingerprint done done done
            ≡ (ok (some response), done))
        × (reserve_idempotency tenant_id key fingerprint later later later
            ≡ (ok (some response), later))
  unfolding complete_idempotency reserve_idempotency inspect
  complete_idempotency-replays transient fingerprint response table {done} h =
      let h1 = (reject->>-eq-ok _ _ _ h).1 in
      elim (Option-cases (select_row tenant_id key table)) [
        | inl lost ↦ absurd (cc (rw lost at h1))
        | inr (row, found) ↦ elim (Bool-cases (row.fingerprint == fingerprint)) [
          | inr f ↦ absurd (cc (rw (found, f) at h1))
          | inl t ↦
              elim (Bool-cases (is_some row.response && not (row.response == some response))) [
                | inl clash ↦ absurd (cc (rw (found, t, clash) at h1))
                | inr free ↦
                    let stored : store_response tenant_id key response table ≡ done =
                      ok-injective (rw (found, t, free) at h1) in
                    let at_done : select_row tenant_id key done ≡ some (answered row response) =
                      subst (λ d. select_row tenant_id key d ≡ some (answered row response)) stored
                        (select_row-store_response response table found) in
                    (
                      release_idempotency tenant_id key fingerprint done,
                      refl,
                      reserve_idempotency-replay fingerprint response done (answered row response)
                          at_done t refl,
                      reserve_idempotency-replay fingerprint response _ (answered row response)
                          (select_row-release fingerprint response done at_done refl) t refl,
                    )
              ]
        ]
      ]
