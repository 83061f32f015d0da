-- ===== src/RateLimit/Quota.antt =====
-- The answers of the limiter.
use pruebas_personalizadas.Prelude.Common.{
  ℕ, ◌+◌, ◌*◌, ◌≤◌, ◌<◌, ◌≡◌, refl, ap, ◌∙◌, none, String, some, List, [], ◌∷◌, true, false, ◌⊎◌,
  inl, inr, arith,
}
use pruebas_personalizadas.Prelude.Tests.{
  leb, leb→le, leb→lt, ltb-eq-false, Bool-cases, Option-cases,
}
use pruebas_personalizadas.Prelude.Eq.{◌==◌, string_eq, beq_refl, eq_of_true}
use pruebas_personalizadas.Prelude.Result.{ok, reject, ◌>>◌}
use pruebas_personalizadas.RateLimit.{
  Window, FixedWindowRateLimiter, find_window, put, second, expired, make_room, Consumed, remaining,
  open_window, count_call, consume_at, consume,
}

find_window-put :
    (key : String) (w : Window) (ws : List (String × Window))
    → find_window key (put key w ws) ≡ some w
unfolding find_window put
find_window-put key w [] = rw (beq_refl key) refl
find_window-put key w ((k, old) ∷ ws) = elim (Bool-cases (k == key)) [
  | inl t ↦ rw (t, find_window) (rw t refl)
  | inr f ↦ rw (f, find_window) (rw f (find_window-put key w ws))
]

find_window-put_other :
    (key other : String) (w : Window) (ws : List (String × Window))
    → (key == other) ≡ false
    → find_window other (put key w ws) ≡ find_window other ws
unfolding find_window put
find_window-put_other key other w [] f = rw f refl
find_window-put_other key other w ((k, old) ∷ ws) f = elim (Bool-cases (k == key)) [
  | inl t ↦
      let apart : (k == other) ≡ false = ap (λ (x : String). x == other) (eq_of_true t) ∙ f in
      rw (t, find_window) (rw apart refl)
  | inr g ↦ rw (g, find_window) (rw (find_window-put_other key other w ws f) refl)
]

-- The wait is the rest of the window, to the next second but for the last millisecond.
remaining-bounds :
    (window_seconds now : ℕ) (w : Window)
    → now < w.started_at + window_seconds * second
    → (1 ≤ remaining window_seconds now w)
      × (w.started_at + window_seconds * second
          < now + remaining window_seconds now w * second + 1000000)
      × (now + remaining window_seconds now w * second
          < w.started_at + window_seconds * second + second)
unfolding remaining
remaining-bounds window_seconds now w h = (ground arith, ground arith, ground arith)

module _ (limiter : FixedWindowRateLimiter) (key : String) (limit now : ℕ) where
  -- A first call: the key had no window, or one that was over, and has a new one behind it.
  pub record IsOpened (c : Consumed) : Type 0 where
    pub over :
        (find_window key limiter.windows ≡ none)
        ⊎ ((old : Window) × (find_window key limiter.windows ≡ some old)
            × (old.started_at + limiter.window_seconds * second ≤ now))
    pub kept : find_window key c.limiter.windows ≡ some (record { started_at = now; count = 1 })

  -- A later call: the window of the key was running and not full, and counts one call more; the others
  -- stay.
  pub record IsCounted (c : Consumed) : Type 0 where
    pub old : Window
    pub running : find_window key limiter.windows ≡ some old
    pub fresh : now < old.started_at + limiter.window_seconds * second
    pub room : old.count < limit
    pub window : Window
    pub kept : find_window key c.limiter.windows ≡ some window
    pub same_start : window.started_at ≡ old.started_at
    pub one_more : window.count ≡ old.count + 1
    pub others :
        (other : String)
        → (key == other) ≡ false
        → find_window other c.limiter.windows ≡ find_window other limiter.windows

  -- The window of the key is running and full; nothing changes, and the wait is the rest of the window,
  -- less than a millisecond short and less than a second over.
  pub record IsDenied (c : Consumed) : Type 0 where
    pub no : c.allowed ≡ false
    pub same : c.limiter ≡ limiter
    pub window : Window
    pub running : find_window key limiter.windows ≡ some window
    pub fresh : now < window.started_at + limiter.window_seconds * second
    pub full : limit ≤ window.count
    pub later : 1 ≤ c.retry_after
    pub enough :
        window.started_at + limiter.window_seconds * second < now + c.retry_after * second + 1000000
    pub tight :
        now + c.retry_after * second < window.started_at + limiter.window_seconds * second + second

  -- An answer.
  pub data IsAnswer (c : Consumed) : Type 0 where
    opened : c.allowed ≡ true → c.retry_after ≡ 0 → IsOpened c → IsAnswer c
    counted : c.allowed ≡ true → c.retry_after ≡ 0 → IsCounted c → IsAnswer c
    denied : IsDenied c → IsAnswer c

  open_window-IsAnswer :
      (find_window key limiter.windows ≡ none)
        ⊎ ((old : Window) × (find_window key limiter.windows ≡ some old)
            × (old.started_at + limiter.window_seconds * second ≤ now))
      → IsAnswer (open_window limiter key now)
  unfolding open_window
  open_window-IsAnswer over =
      IsAnswer.opened refl refl
        (record { over = over; kept = find_window-put key _ (make_room limiter now) })

  count_call-IsAnswer :
      (w : Window)
      → find_window key limiter.windows ≡ some w
      → expired limiter.window_seconds now w ≡ false
      → IsAnswer (count_call limiter key limit now w)
  unfolding count_call expired
  count_call-IsAnswer w found running =
      let fresh = leb→lt _ _ running in
      let (later, enough, tight) = remaining-bounds limiter.window_seconds now w fresh in
      elim (Bool-cases (leb limit w.count)) [
        | inl t ↦
            rw (t, count_call)
              (IsAnswer.denied (record {
                no = refl;
                same = refl;
                window = w;
                running = found;
                fresh = fresh;
                full = leb→le _ _ t;
                later = later;
                enough = enough;
                tight = tight;
              }))
        | inr f ↦
            rw (f, count_call)
              (IsAnswer.counted refl refl (record {
                old = w;
                running = found;
                fresh = fresh;
                room = leb→lt _ _ f;
                window = record { started_at = w.started_at; count = w.count + 1 };
                kept = find_window-put key _ limiter.windows;
                same_start = refl;
                one_more = refl;
                others = λ other g. find_window-put_other key other _ limiter.windows g;
              }))
      ]

  consume_at-IsAnswer : IsAnswer (consume_at limiter key limit now)
  unfolding consume_at expired
  consume_at-IsAnswer = elim (Option-cases (find_window key limiter.windows)) [
    | inl unknown ↦ rw (unknown, consume_at) (open_window-IsAnswer (inl unknown))
    | inr (w, found) ↦ elim (Bool-cases (expired limiter.window_seconds now w)) [
      | inl t ↦ rw (found, t, consume_at) (open_window-IsAnswer (inr (w, found, leb→le _ _ t)))
      | inr f ↦ rw (found, f, consume_at) (count_call-IsAnswer w found f)
    ]
  ]

  -- A call with a limit of at least one never raises. Either it opens a new window of the key that counts
  -- one call, where there was none or the old one was over; or the window of the key is running with room,
  -- and then it counts exactly one call more from the same start and the windows of other keys stay; or
  -- that window is running and full, and then the call is denied, the limiter is unchanged, and the time to
  -- wait is at least one second and the rest of the window, less than a millisecond short and less than a second
  -- over, also when the clock was read before the window was started.
  pub consume-IsAnswer :
      1 ≤ limit → (c : Consumed) × (consume limiter key limit now ≡ ok c) × IsAnswer c
  unfolding consume reject ◌>>◌
  consume-IsAnswer positive = (
    consume_at limiter key limit now,
    rw (ltb-eq-false limit 1 positive) refl,
    consume_at-IsAnswer,
  )
