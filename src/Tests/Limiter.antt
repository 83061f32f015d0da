-- ===== src/Tests/Limiter.antt =====
-- The rate limiter at concrete calls.
use pruebas_personalizadas.Prelude.Common.{ℕ, ◌*◌, String, ◌≡◌, refl, List, [], ◌∷◌, false, arith}
use pruebas_personalizadas.Prelude.Result.{ok, reject, ◌>>◌}
use pruebas_personalizadas.Prelude.Lists.{filter}
use pruebas_personalizadas.RateLimit.{
  FixedWindowRateLimiter, Consumed, second, create_limiter, find_window, put, pop, oldest,
  pop_oldest, make_room, expired, remaining, open_window, count_call, consume_at, consume, keys,
}
use pruebas_personalizadas.RateLimit.Bounds.{IsBounded, serve, create_limiter-IsBounded}
use pruebas_personalizadas.RateLimit.Quota.{IsAnswer, consume-IsAnswer}

abbrev empty : FixedWindowRateLimiter
empty = record { window_seconds = 60; max_keys = 1; windows = [] }

abbrev calls : List (String × ℕ × ℕ)
calls = ("a", 2, 10) ∷ ("b", 2, 20) ∷ ("b", 2, 30) ∷ []

create_limiter_test : create_limiter 60 1 ≡ ok empty
unfolding create_limiter reject ◌>>◌
create_limiter_test = refl

serve_test : keys (serve empty calls).windows ≡ "b" ∷ []
unfolding serve consume consume_at reject ◌>>◌ find_window put pop oldest pop_oldest make_room
    expired open_window count_call filter
serve_test = refl

create_limiter-IsBounded_example : IsBounded (serve empty calls)
create_limiter-IsBounded_example = create_limiter-IsBounded 60 1 calls create_limiter_test

abbrev full : FixedWindowRateLimiter
full = record {
  window_seconds = 60;
  max_keys = 1;
  windows = ("a", record { started_at = 5 * second; count = 2 }) ∷ [];
}

denied_test :
    consume full "a" 2 (25 * second)
    ≡ ok (record { allowed = false; retry_after = 40; limiter = full })
unfolding consume consume_at reject ◌>>◌ find_window expired count_call remaining
denied_test = refl

consume-IsAnswer_example :
    (c : Consumed) × (consume full "a" 2 (25 * second) ≡ ok c) × IsAnswer full "a" 2 (25 * second) c
consume-IsAnswer_example = consume-IsAnswer full "a" 2 (25 * second) (omega arith)
