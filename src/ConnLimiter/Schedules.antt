-- ===== src/ConnLimiter/Schedules.antt =====
-- The cap slots in every interleaving: server/internal/ratelimit/connlimiter.go.
use knowoff.Prelude.{
  ℕ, zero, suc, ◌+◌, ◌≤◌, ◌<◌, Bool, true, ◌≡◌, Option, none, some, List, [], ◌∷◌, get_elem?,
  modify, leb, ◌==◌, refl, sym, arith, all, ◌||◌, ltb, ◌∙◌,
}
use knowoff.ConnLimiter.{
  Goroutine, outside, loaded, connected, ConnLimiter, become, try_acquire, compare_and_swap,
  release, move_of, step, schedule_run,
}

abbrev slots : Goroutine → ℕ
slots outside = 0
slots (loaded cur) = 0
slots connected = 1

-- The number of connections.
abbrev pub connections : List Goroutine → ℕ
connections [] = 0
connections (g ∷ gs) = slots g + connections gs

-- A goroutine only swaps in a number within the cap.
abbrev small : ℕ → Goroutine → Bool
small max outside = true
small max (loaded cur) = ltb cur max
small max connected = true

abbrev pub within : ℕ → ℕ → Bool
within max current = (max == 0) || leb current max

pub record Capped (c : ConnLimiter) : Type 0 where
  pub counted : c.current ≡ connections c.goroutines
  pub capped : within c.max c.current ≡ true
  pub careful : all (small c.max) c.goroutines ≡ true

connections-modify :
    (gs : List Goroutine) (i : ℕ) (g new : Goroutine)
    → get_elem? gs i ≡ some g
    → connections (modify gs i (λ old. new)) + slots g ≡ connections gs + slots new
unfolding modify
connections-modify [] i g new h = cc
connections-modify (x ∷ gs) zero g new h = let e : x ≡ g = cc in rw (e) (omega arith)
connections-modify (x ∷ gs) (suc i) g new h = omega (arith, connections-modify gs i g new h)

careful-modify :
    (max : ℕ) (gs : List Goroutine) (i : ℕ) (new : Goroutine)
    → small max new ≡ true
    → all (small max) gs ≡ true
    → all (small max) (modify gs i (λ old. new)) ≡ true
unfolding modify
careful-modify max [] i new s h = refl
careful-modify max (x ∷ gs) zero new s h = ground arith
careful-modify max (x ∷ gs) (suc i) new s h = ground (arith, careful-modify max gs i new s)

careful-get :
    (max : ℕ) (gs : List Goroutine) (i : ℕ) (g : Goroutine)
    → all (small max) gs ≡ true
    → get_elem? gs i ≡ some g
    → small max g ≡ true
careful-get max [] i g h e = cc
careful-get max (x ∷ gs) zero g h e = let same : x ≡ g = cc in rw (← same) (ground arith)
careful-get max (x ∷ gs) (suc i) g h e = careful-get max gs i g (ground arith) e

module _ (c : ConnLimiter) (i : ℕ) (ok : Capped c) where
  acquire-Capped : get_elem? c.goroutines i ≡ some outside → Capped (try_acquire c i)
  unfolding try_acquire become
  acquire-Capped h = record {
    counted = ground (
      arith,
      connections-modify c.goroutines i outside connected h,
      connections-modify c.goroutines i outside (loaded c.current) h,
      ok.counted,
    );
    capped = ground (arith, ok.capped);
    careful =
        ground
          (arith, ok.careful, careful-modify c.max c.goroutines i connected refl ok.careful, fresh);
  }
    where
      fresh :
          ltb c.current c.max ≡ true
          → all (small c.max) (modify c.goroutines i (λ old. loaded c.current)) ≡ true
      fresh below = careful-modify c.max c.goroutines i (loaded c.current) below ok.careful

  swap-Capped :
      (cur : ℕ) → get_elem? c.goroutines i ≡ some (loaded cur) → Capped (compare_and_swap c i cur)
  unfolding compare_and_swap become
  swap-Capped cur h =
      let own = careful-get c.max c.goroutines i (loaded cur) ok.careful h in
      record {
        counted = ground (
          arith,
          connections-modify c.goroutines i (loaded cur) connected h,
          connections-modify c.goroutines i (loaded cur) outside h,
          ok.counted,
        );
        capped = ground (arith, own, ok.capped);
        careful = ground (
          arith,
          careful-modify c.max c.goroutines i connected refl ok.careful,
          careful-modify c.max c.goroutines i outside refl ok.careful,
        );
      }

  release-Capped : get_elem? c.goroutines i ≡ some connected → Capped (release c i)
  unfolding release become
  release-Capped h = record {
    counted = ground (arith, connections-modify c.goroutines i connected outside h, ok.counted);
    capped = ground (arith, ok.capped);
    careful = careful-modify c.max c.goroutines i outside refl ok.careful;
  }

  move_of-Capped : (g : Option Goroutine) → get_elem? c.goroutines i ≡ g → Capped (move_of c i g)
  move_of-Capped none h = ok
  move_of-Capped (some outside) h = acquire-Capped h
  move_of-Capped (some (loaded cur)) h = swap-Capped cur h
  move_of-Capped (some connected) h = release-Capped h

  step-Capped : Capped (step c i)
  unfolding step
  step-Capped = move_of-Capped (get_elem? c.goroutines i) refl

schedule-Capped : (c : ConnLimiter) (is : List ℕ) → Capped c → Capped (schedule_run c is)
unfolding schedule_run
schedule-Capped c [] ok = ok
schedule-Capped c (i ∷ is) ok = schedule-Capped (step c i) is (step-Capped c i ok)

abbrev pub all_outside : ℕ → List Goroutine
all_outside zero = []
all_outside (suc n) = outside ∷ all_outside n

abbrev pub new_conn_limiter : ℕ → ℕ → ConnLimiter
new_conn_limiter max n = record { max = max; current = 0; goroutines = all_outside n }

none_connected : (n : ℕ) → connections (all_outside n) ≡ 0
none_connected zero = refl
none_connected (suc n) = omega (arith, none_connected n)

outside_small : (max n : ℕ) → all (small max) (all_outside n) ≡ true
outside_small max zero = refl
outside_small max (suc n) = outside_small max n

step-max : (c : ConnLimiter) (i : ℕ) → (step c i).max ≡ c.max
unfolding step try_acquire compare_and_swap release become
step-max c i = ground arith

schedule-max : (c : ConnLimiter) (is : List ℕ) → (schedule_run c is).max ≡ c.max
unfolding schedule_run
schedule-max c [] = refl
schedule-max c (i ∷ is) = schedule-max (step c i) is ∙ step-max c i

-- In every interleaving of any number of goroutines that connect and go, the counter is the number of
-- connections, and there are never more of them than a cap above zero.
pub schedule-connections :
    (max n : ℕ) (is : List ℕ)
    → 0 < max
    → let c = schedule_run (new_conn_limiter max n) is in
      (c.current ≡ connections c.goroutines) × (connections c.goroutines ≤ max)
schedule-connections max n is h =
    let start = new_conn_limiter max n in
    let ok = schedule-Capped start is (record {
      counted = sym (none_connected n);
      capped = ground arith;
      careful = outside_small max n;
    }) in
    (ok.counted, ground (arith, ok.counted, ok.capped, schedule-max start is))
