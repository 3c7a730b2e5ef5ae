-- ===== src/ConnLimiter.antt =====
-- The cap on concurrent connections: server/internal/ratelimit/connlimiter.go. Goroutines run in
-- any interleaving of the atomic operations; a `max` of 0 or less is 0 here, and means no cap.
pub mod Schedules
mod Examples
use knowoff.Prelude.{
  ℕ, suc, ◌+◌, ◌-◌, Bool, true, false, Option, none, some, List, [], ◌∷◌, get_elem?, modify, leb,
  ◌==◌, if◌then◌else◌,
}

-- Where a goroutine is: outside, in TryAcquire with the value that it has loaded, or connected.
pub data Goroutine : Type 0 where
  outside : Goroutine
  loaded : ℕ → Goroutine
  connected : Goroutine

pub record ConnLimiter : Type 0 where
  pub max : ℕ
  pub current : ℕ
  pub goroutines : List Goroutine

unfoldable pub become : ConnLimiter → ℕ → Goroutine → ConnLimiter
become c i g = record c { goroutines = modify c.goroutines i (λ old. g) }

-- The load of TryAcquire, or its addition where there is no cap. A refused caller stays outside.
unfoldable pub try_acquire : ConnLimiter → ℕ → ConnLimiter
try_acquire c i =
    if c.max == 0
    then record (become c i connected) { current = suc c.current }
    else (if leb c.max c.current then c else become c i (loaded c.current))

-- The compare-and-swap of TryAcquire; if it fails, the loop starts again.
unfoldable pub compare_and_swap : ConnLimiter → ℕ → ℕ → ConnLimiter
compare_and_swap c i cur =
    if c.current == cur
    then record (become c i connected) { current = suc cur }
    else become c i outside

-- A connection that ends.
unfoldable pub release : ConnLimiter → ℕ → ConnLimiter
release c i = record (become c i outside) { current = c.current - 1 }

abbrev pub move : ConnLimiter → ℕ → Goroutine → ConnLimiter
move c i outside = try_acquire c i
move c i (loaded cur) = compare_and_swap c i cur
move c i connected = release c i

abbrev pub move_of : ConnLimiter → ℕ → Option Goroutine → ConnLimiter
move_of c i none = c
move_of c i (some g) = move c i g

-- The next atomic operation of one goroutine.
unfoldable pub step : ConnLimiter → ℕ → ConnLimiter
step c i = move_of c i (get_elem? c.goroutines i)

unfoldable pub schedule_run : ConnLimiter → List ℕ → ConnLimiter
schedule_run c [] = c
schedule_run c (i ∷ is) = schedule_run (step c i) is
