-- ===== src/RateLimit.antt =====
-- `FixedWindowRateLimiter` of comprehension_verification/web/rate_limit.py. The lock makes a call of
-- `consume` one step. The clock is read once a call, in front of the lock, and given in nanoseconds; it may
-- be earlier than the start of a window, so the comparisons and the wait are of sums, without a
-- difference that stops at 0. The dictionary is the list of its entries in the order of insertion.
pub mod Bounds
pub mod Quota
use Prim.Native.Nat.{◌/◌}
use pruebas_personalizadas.Prelude.Common.{
  ℕ, ◌+◌, ◌-◌, ◌*◌, String, Option, none, some, List, [], ◌∷◌, map, Bool, true, false, not,
}
use pruebas_personalizadas.Prelude.Tests.{if◌then◌else◌, ltb, leb}
use pruebas_personalizadas.Prelude.Eq.{◌==◌, string_eq}
use pruebas_personalizadas.Prelude.Result.{Result, ok, reject, ◌>>◌}
use pruebas_personalizadas.Prelude.Lists.{length, filter}

pub record Window : Type 0 where
  pub started_at : ℕ
  pub count : ℕ

pub record FixedWindowRateLimiter : Type 0 where
  pub window_seconds : ℕ
  pub max_keys : ℕ
  pub windows : List (String × Window)

pub data LimiterError : Type 0 where
  bounds_not_positive limit_not_positive : LimiterError

abbrev pub second : ℕ
second = 1000000000

-- `__init__`
unfoldable pub create_limiter : ℕ → ℕ → Result LimiterError FixedWindowRateLimiter
create_limiter window_seconds max_keys = do
  reject (ltb window_seconds 1) LimiterError.bounds_not_positive
  reject (ltb max_keys 1) LimiterError.bounds_not_positive
  ok (record { window_seconds = window_seconds; max_keys = max_keys; windows = [] })

abbrev pub keys : List (String × Window) → List String
keys = map (λ entry. entry.0)

-- `self._windows.get(key)`
unfoldable pub find_window : String → List (String × Window) → Option Window
find_window key [] = none
find_window key ((k, window) ∷ rest) =
    let later = find_window key rest in if k == key then some window else later

-- `self._windows[key] = window`: a key that is there keeps its place.
unfoldable pub put : String → Window → List (String × Window) → List (String × Window)
put key window [] = (key, window) ∷ []
put key window ((k, old) ∷ rest) =
    let later = put key window rest in if k == key then (k, window) ∷ rest else (k, old) ∷ later

-- `self._windows.pop(key, None)`
unfoldable pub pop : String → List (String × Window) → List (String × Window)
pop key = filter (λ entry. not (entry.0 == key))

-- `min(self._windows, key=…)`, of which the first of several comes.
unfoldable pub oldest : String × Window → List (String × Window) → String
oldest best [] = best.0
oldest best (entry ∷ rest) = elim (ltb entry.1.started_at best.1.started_at) [
  | true ↦ oldest entry rest
  | false ↦ oldest best rest
]

-- `now - window.started_at >= window_seconds`
unfoldable pub expired : ℕ → ℕ → Window → Bool
expired window_seconds now window = leb (window.started_at + window_seconds * second) now

unfoldable pub pop_oldest : List (String × Window) → List (String × Window)
unfolding pop oldest
pop_oldest [] = []
pop_oldest (entry ∷ rest) = pop (oldest entry rest) (entry ∷ rest)

-- The room made in front of a new window.
unfoldable pub make_room : FixedWindowRateLimiter → ℕ → List (String × Window)
make_room limiter now =
    if ltb (length limiter.windows) limiter.max_keys
    then limiter.windows
    else (let live =
          filter (λ entry. not (expired limiter.window_seconds now entry.1)) limiter.windows in
        if ltb (length live) limiter.max_keys then live else pop_oldest live)

-- The answer of a call, and the limiter after it.
pub record Consumed : Type 0 where
  pub allowed : Bool
  pub retry_after : ℕ
  pub limiter : FixedWindowRateLimiter

abbrev pub with_windows : FixedWindowRateLimiter → List (String × Window) → FixedWindowRateLimiter
with_windows limiter windows = record {
  window_seconds = limiter.window_seconds;
  max_keys = limiter.max_keys;
  windows = windows;
}

abbrev pub at_least_one : ℕ → ℕ
at_least_one n = if ltb n 1 then 1 else n

-- `max(1, int(window_seconds - (now - started_at) + 0.999))`, on a window that is not over, so that the
-- number is positive.
unfoldable pub remaining : ℕ → ℕ → Window → ℕ
remaining window_seconds now window =
    at_least_one ((window.started_at + window_seconds * second + 999000000 - now) / second)

-- A first call in a window.
unfoldable pub open_window : FixedWindowRateLimiter → String → ℕ → Consumed
open_window limiter key now = record {
  allowed = true;
  retry_after = 0;
  limiter =
      with_windows limiter
        (put key (record { started_at = now; count = 1 }) (make_room limiter now));
}

-- A later call in a window.
unfoldable pub count_call : FixedWindowRateLimiter → String → ℕ → ℕ → Window → Consumed
count_call limiter key limit now current =
    if leb limit current.count
    then record {
      allowed = false;
      retry_after = remaining limiter.window_seconds now current;
      limiter = limiter;
    }
    else record {
      allowed = true;
      retry_after = 0;
      limiter = with_windows limiter (
          put key (record { started_at = current.started_at; count = current.count + 1 })
            limiter.windows);
    }

unfoldable pub consume_at : FixedWindowRateLimiter → String → ℕ → ℕ → Consumed
unfolding open_window count_call
consume_at limiter key limit now = elim (find_window key limiter.windows) [
  | none ↦ open_window limiter key now
  | some current ↦
      if expired limiter.window_seconds now current
      then open_window limiter key now
      else count_call limiter key limit now current
]

unfoldable pub consume : FixedWindowRateLimiter → String → ℕ → ℕ → Result LimiterError Consumed
unfolding consume_at
consume limiter key limit now = do
  reject (ltb limit 1) LimiterError.limit_not_positive
  ok (consume_at limiter key limit now)
