-- ===== src/RateLimit/Bounds.antt =====
-- The limiter keeps its invariant: a bounded number of keys, each once, with a positive count.
use mathlib.Core.List.{Nodup, Nodup-nil, Nodup-cons}
use mathlib.Core.Logic.{∥∥₁_elim}
use mathlib.Core.HLevel.{⊥_prop}
use pruebas_personalizadas.Prelude.Common.{
  ℕ, ◌+◌, ◌≤◌, ◌<◌, ◌≡◌, refl, sym, ap, subst, ◌∙◌, String, none, some, List, [], ◌∷◌, ◌++◌, Bool,
  true, false, not, inl, inr, Memᴰ, arith,
}
use pruebas_personalizadas.Prelude.Tests.{
  ltb, leb, ltb-false, ltb-true, not-eq-false, Bool-cases, Option-cases,
}
use pruebas_personalizadas.Prelude.Eq.{◌==◌, string_eq}
use pruebas_personalizadas.Prelude.Result.{
  Result, ok, err, reject, ◌>>◌, reject->>-eq-ok, ok-injective,
}
use pruebas_personalizadas.Prelude.Lists.{length, filter, length-map, mem-map, map-mem, mem-filter}
use pruebas_personalizadas.Prelude.Sets.{Nodup-snoc}
use pruebas_personalizadas.RateLimit.{
  Window, LimiterError, FixedWindowRateLimiter, create_limiter, keys, find_window, put, pop, oldest,
  expired, pop_oldest, make_room, Consumed, open_window, count_call, consume_at, consume,
}

-- At most `max_keys` entries, of distinct keys, each of which has counted a call.
pub record IsBounded (limiter : FixedWindowRateLimiter) : Type 0 where
  pub lasting : 1 ≤ limiter.window_seconds
  pub roomy : 1 ≤ limiter.max_keys
  pub few : length limiter.windows ≤ limiter.max_keys
  pub once : Nodup (keys limiter.windows)

length-filter_le : {A : Type 0} (p : A → Bool) (xs : List A) → length (filter p xs) ≤ length xs
unfolding filter
length-filter_le p [] = omega arith
length-filter_le p (x ∷ xs) = ground (arith, length-filter_le p xs)

length-filter_lt :
    {A : Type 0} (p : A → Bool) (xs : List A) {x : A}
    → Memᴰ x xs
    → p x ≡ false
    → length (filter p xs) < length xs
unfolding filter
length-filter_lt p [] m f = elim m [ ]
length-filter_lt p (y ∷ xs) (Memᴰ.head e) f =
    let g : p y ≡ false = ap p (sym e) ∙ f in rw g (omega (arith, length-filter_le p xs))
length-filter_lt p (y ∷ xs) (Memᴰ.tail m) f = ground (arith, length-filter_lt p xs m f)

Nodup-keys-filter :
    (p : String × Window → Bool) (ws : List (String × Window))
    → Nodup (keys ws)
    → Nodup (keys (filter p ws))
unfolding filter
Nodup-keys-filter p [] once = Nodup-nil
Nodup-keys-filter p (w ∷ ws) once =
    let (out, rest) = Nodup-cons.0 once in
    let later = Nodup-keys-filter p ws rest in
    elim (Bool-cases (p w)) [
      | inl t ↦ rw t (
          Nodup-cons.1 (
            λ m. ∥∥₁_elim m ⊥_prop λ k.
                let (v, n, e) = map-mem (λ (x : String × Window). x.0) (filter p ws) k in
                out
                  ∣ subst (λ i. Memᴰ i (keys ws)) (sym e)
                    (mem-map (λ x. x.0) ws (mem-filter p ws n).0) ∣₁,
            later,
          ))
      | inr f ↦ rw f later
    ]

-- A key that is there is put in its place.
keys-put :
    (key : String) (w : Window) (ws : List (String × Window)) {v : Window}
    → find_window key ws ≡ some v
    → keys (put key w ws) ≡ keys ws
unfolding put find_window
keys-put key w [] h = cc
keys-put key w ((k, old) ∷ ws) h = elim (Bool-cases (k == key)) [
  | inl t ↦ rw t refl
  | inr f ↦ rw f (ap (λ ks. k ∷ ks) (keys-put key w ws (rw (f, find_window) at h)))
]

-- A key that is new is put at the end.
put-new :
    (key : String) (w : Window) (ws : List (String × Window))
    → find_window key ws ≡ none
    → (keys (put key w ws) ≡ keys ws ++ key ∷ []) × (¬ Memᴰ key (keys ws))
unfolding put find_window
put-new key w [] h = (refl, λ m. elim m [ ])
put-new key w ((k, old) ∷ ws) h = elim (Bool-cases (k == key)) [
  | inl t ↦ absurd (cc (rw (t, find_window) at h))
  | inr f ↦
      let (e, out) = put-new key w ws (rw (f, find_window) at h) in
      (
        rw f (ap (λ ks. k ∷ ks) e),
        λ m. elim m [
          | Memᴰ.head p ↦ cc (f, (string_eq.beq_iff k key).1 (sym p))
          | Memᴰ.tail n ↦ out n
        ],
      )
]

length-keys : (ws : List (String × Window)) → length (keys ws) ≡ length ws
length-keys ws = length-map (λ w. w.0) ws

length-put-le :
    (key : String) (w : Window) (ws : List (String × Window))
    → length (put key w ws) ≤ length ws + 1
unfolding put
length-put-le key w [] = omega arith
length-put-le key w ((k, old) ∷ ws) = ground (arith, length-put-le key w ws)

Nodup-put :
    (key : String) (w : Window) (ws : List (String × Window))
    → Nodup (keys ws)
    → Nodup (keys (put key w ws))
Nodup-put key w ws once = elim (Option-cases (find_window key ws)) [
  | inl new ↦
      let (e, out) = put-new key w ws new in subst Nodup (sym e) (Nodup-snoc (keys ws) key once out)
  | inr (v, known) ↦ subst Nodup (sym (keys-put key w ws known)) once
]

oldest-mem :
    (best : String × Window) (ws : List (String × Window))
    → Memᴰ (oldest best ws) (keys (best ∷ ws))
unfolding oldest
oldest-mem best [] = Memᴰ.head refl
oldest-mem best (w ∷ ws) =
    go (ltb w.1.started_at best.1.started_at) (oldest-mem w ws) (oldest-mem best ws)
  where
    go :
        (b : Bool)
        → Memᴰ (oldest w ws) (keys (w ∷ ws))
        → Memᴰ (oldest best ws) (keys (best ∷ ws))
        → Memᴰ (elim b [ true ↦ oldest w ws | false ↦ oldest best ws ]) (keys (best ∷ w ∷ ws))
    go true m n = Memᴰ.tail m
    go false m (Memᴰ.head e) = Memᴰ.head e
    go false m (Memᴰ.tail n) = Memᴰ.tail (Memᴰ.tail n)

-- Removing the oldest of some entries leaves fewer.
length-pop_oldest :
    (ws : List (String × Window)) → 1 ≤ length ws → length (pop_oldest ws) < length ws
unfolding pop_oldest pop
length-pop_oldest [] h = absurd (omega arith)
length-pop_oldest (w ∷ ws) h =
    let (v, m, e) = map-mem (λ (x : String × Window). x.0) (w ∷ ws) (oldest-mem w ws) in
    length-filter_lt (λ entry. not (entry.0 == oldest w ws)) (w ∷ ws) m
      (not-eq-false ((string_eq.beq_iff v.0 (oldest w ws)).1 (sym e)))

Nodup-pop_oldest : (ws : List (String × Window)) → Nodup (keys ws) → Nodup (keys (pop_oldest ws))
unfolding pop_oldest pop
Nodup-pop_oldest [] once = once
Nodup-pop_oldest (w ∷ ws) once =
    Nodup-keys-filter (λ entry. not (entry.0 == oldest w ws)) (w ∷ ws) once

module _ (limiter : FixedWindowRateLimiter) (bounded : IsBounded limiter) (now : ℕ) where
  make_room-room :
      (length (make_room limiter now) < limiter.max_keys) × Nodup (keys (make_room limiter now))
  unfolding make_room
  make_room-room = elim (Bool-cases (ltb (length limiter.windows) limiter.max_keys)) [
    | inl t ↦ rw (t, make_room) (ltb-true _ _ t, bounded.once)
    | inr f ↦ elim (Bool-cases (ltb (length live) limiter.max_keys)) [
      | inl t ↦ rw (f, t, make_room) (ltb-true _ _ t, live_once)
      | inr g ↦
          rw (f, g, make_room)
            (
              omega (
                arith,
                length-pop_oldest live (omega (arith, ltb-false _ _ g, bounded.roomy)),
                length-filter_le is_live limiter.windows,
                bounded.few,
              ),
              Nodup-pop_oldest live live_once,
            )
    ]
  ]
    where
      is_live : String × Window → Bool
      is_live = λ entry. not (expired limiter.window_seconds now entry.1)

      live : List (String × Window)
      live = filter is_live limiter.windows

      live_once : Nodup (keys live)
      live_once = Nodup-keys-filter is_live limiter.windows bounded.once

  open_window-IsBounded : (key : String) → IsBounded (open_window limiter key now).limiter
  unfolding open_window
  open_window-IsBounded key =
      let (room, once) = make_room-room in
      record {
        lasting = bounded.lasting;
        roomy = bounded.roomy;
        few = omega (
          arith,
          length-put-le key (record { started_at = now; count = 1 }) (make_room limiter now),
          room,
        );
        once = Nodup-put key _ (make_room limiter now) once;
      }

  count_call-IsBounded :
      (key : String) (limit : ℕ) {current : Window}
      → find_window key limiter.windows ≡ some current
      → IsBounded (count_call limiter key limit now current).limiter
  unfolding count_call
  count_call-IsBounded key limit {current} found = elim (Bool-cases (leb limit current.count)) [
    | inl t ↦ rw (t, count_call) bounded
    | inr f ↦
        rw (f, count_call)
          (record {
            lasting = bounded.lasting;
            roomy = bounded.roomy;
            few = omega (
              arith,
              length-keys (
                  put key (record { started_at = current.started_at; count = current.count + 1 })
                    limiter.windows),
              ap length (
                  keys-put key
                    (record { started_at = current.started_at; count = current.count + 1 })
                    limiter.windows found),
              length-keys limiter.windows,
              bounded.few,
            );
            once = Nodup-put key _ limiter.windows bounded.once;
          })
  ]

  pub consume_at-IsBounded :
      (key : String) (limit : ℕ) → IsBounded (consume_at limiter key limit now).limiter
  unfolding consume_at
  consume_at-IsBounded key limit = elim (Option-cases (find_window key limiter.windows)) [
    | inl none_found ↦ rw (none_found, consume_at) (open_window-IsBounded key)
    | inr (current, found) ↦ elim (Bool-cases (expired limiter.window_seconds now current)) [
      | inl t ↦ rw (found, t, consume_at) (open_window-IsBounded key)
      | inr f ↦ rw (found, f, consume_at) (count_call-IsBounded key limit found)
    ]
  ]

-- A call that raises leaves the limiter as it was.
abbrev pub after : FixedWindowRateLimiter → Result LimiterError Consumed → FixedWindowRateLimiter
after limiter (ok consumed) = consumed.limiter
after limiter (err e) = limiter

-- The limiter behind a sequence of calls, each with its key, its limit and the clock.
unfoldable pub serve : FixedWindowRateLimiter → List (String × ℕ × ℕ) → FixedWindowRateLimiter
serve limiter [] = limiter
serve limiter ((key, limit, now) ∷ calls) =
    serve (after limiter (consume limiter key limit now)) calls

after-IsBounded :
    (limiter : FixedWindowRateLimiter) (key : String) (limit now : ℕ)
    → IsBounded limiter
    → IsBounded (after limiter (consume limiter key limit now))
unfolding consume reject ◌>>◌
after-IsBounded limiter key limit now bounded = elim (Bool-cases (ltb limit 1)) [
  | inl t ↦ rw t bounded
  | inr f ↦ rw f (consume_at-IsBounded limiter bounded now key limit)
]

serve-IsBounded :
    (limiter : FixedWindowRateLimiter) (calls : List (String × ℕ × ℕ))
    → IsBounded limiter
    → IsBounded (serve limiter calls)
unfolding serve
serve-IsBounded limiter [] bounded = bounded
serve-IsBounded limiter ((key, limit, now) ∷ calls) bounded =
    serve-IsBounded (after limiter (consume limiter key limit now)) calls
      (after-IsBounded limiter key limit now bounded)

-- Whatever calls a created limiter serves, in any order and at any times, it holds at most `max_keys`
-- windows, of distinct keys, and its bounds stay positive.
pub create_limiter-IsBounded :
    (window_seconds max_keys : ℕ) (calls : List (String × ℕ × ℕ)) {limiter : FixedWindowRateLimiter}
    → create_limiter window_seconds max_keys ≡ ok limiter
    → IsBounded (serve limiter calls)
unfolding create_limiter
create_limiter-IsBounded window_seconds max_keys calls {limiter} h =
    let (w, h1) = reject->>-eq-ok _ _ _ h in
    let (k, h2) = reject->>-eq-ok _ _ _ h1 in
    serve-IsBounded limiter calls (
      subst IsBounded (ok-injective h2) (record {
        lasting = ltb-false _ _ w;
        roomy = ltb-false _ _ k;
        few = omega arith;
        once = Nodup-nil;
      }))
