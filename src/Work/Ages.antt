-- ===== src/Work/Ages.antt =====
-- The age of an item as it is shown, and the next time at which it is drawn again:
-- extension/src/work-index.ts.
--
-- An age is the numbers in the text: `1m5s` is `minutes 1 5`.
use Prim.Native.Nat.{◌/◌, ◌%◌}
use pi_better_subagents.Prelude.{
  ℕ, ◌+◌, ◌-◌, ◌≤◌, ◌<◌, ◌≡◌, ◌≢◌, subst, Option, none, some, ltb, if◌then◌else◌, arith,
}

pub data Age : Type 0 where
  millis : (ms : ℕ) → Age
  seconds : (s : ℕ) → Age
  minutes : (m s : ℕ) → Age
  hours : (h m : ℕ) → Age

-- `Math.round(ms / 1000)`
abbrev round_seconds : ℕ → ℕ
round_seconds ms = (ms + 500) / 1000

unfoldable pub age_of : (ms : ℕ) → Age
age_of ms =
    if ltb ms 1000
    then millis ms
    else if ltb ms 60000
    then seconds (round_seconds ms)
    else if ltb ms 3600000
    then minutes (ms / 60000) (round_seconds (ms % 60000))
    else hours (ms / 3600000) (ms % 3600000 / 60000)

-- `formatAge`; an age before the start is 0.
unfoldable pub format_age : (started_at : ℕ) (ended_at : Option ℕ) (now : ℕ) → Age
unfolding age_of
format_age started none now = age_of (now - started)
format_age started (some ended) now = age_of (ended - started)

-- `nextAgeBoundary`, for a start that is not in the future.
unfoldable pub next_age_boundary : (now started_at : ℕ) → ℕ
next_age_boundary now started =
    let age = now - started in
    let offset = age % 1000 in
    if ltb age 1000
    then now + (1000 - age)
    else now + (if ltb offset 500 then 500 - offset else 1500 - offset)

-- The rest of an age up to the next half second.
abbrev rest : ℕ → ℕ
rest a = if ltb (a % 1000) 500 then 500 - a % 1000 else 1500 - a % 1000

-- Up to there the minute and the rounded second stay the same, and there the second is the next one.
same_second : (a b : ℕ) → a ≤ b → b < a + rest a → round_seconds b ≡ round_seconds a
same_second a b le lt = ground arith

same_minute :
    (a b : ℕ)
    → a % 60000 < 59500
    → a ≤ b
    → b < a + rest a
    → (b / 60000 ≡ a / 60000)
      × (b % 60000 < 59500)
      × (a % 60000 ≤ b % 60000)
      × (b % 60000 < a % 60000 + rest (a % 60000))
same_minute a b early le lt = ground arith

next_second : (a : ℕ) → round_seconds (a + rest a) ≡ round_seconds a + 1
next_second a = ground arith

next_minute :
    (a : ℕ)
    → a % 60000 < 59500
    → ((a + rest a) / 60000 ≡ a / 60000) × ((a + rest a) % 60000 ≡ a % 60000 + rest (a % 60000))
next_minute a early = ground arith

age_of-same :
    (a b : ℕ)
    → 1000 ≤ a
    → a < 3600000
    → a % 60000 < 59500
    → a ≤ b
    → b < a + rest a
    → age_of b ≡ age_of a
unfolding age_of
age_of-same a b old young early le lt =
    let (quotient, late, from, until) = same_minute a b early le lt in
    let whole = same_second a b le lt in
    let part = same_second (a % 60000) (b % 60000) from until in
    ground (arith, quotient, late, whole, part, old, young, early, le, lt)

age_of-next : (a : ℕ) → 1000 ≤ a → a < 3600000 → a % 60000 < 59500 → age_of (a + rest a) ≢ age_of a
unfolding age_of
age_of-next a old young early =
    ground (arith, next_second a, next_minute a early, next_second (a % 60000), old, young, early)

-- For a running item that is at least a second and less than an hour old, and not in the last half
-- second of a minute, the age shown stays the same until the next boundary and is another one there.
pub format_age-next_age_boundary :
    (started now t : ℕ)
    → started + 1000 ≤ now
    → now < started + 3600000
    → (now - started) % 60000 < 59500
    → now ≤ t
    → t < next_age_boundary now started
    → (format_age started none t ≡ format_age started none now)
      × (format_age started none (next_age_boundary now started) ≢ format_age started none now)
unfolding next_age_boundary format_age
format_age-next_age_boundary started now t old young early le lt =
    let same_rest : next_age_boundary now started ≡ now + rest (now - started) =
      ground (arith, old) in
    let reached : now - started + rest (now - started) ≡ next_age_boundary now started - started =
      omega (arith, same_rest) in
    (
      age_of-same (now - started) (t - started) (omega arith) (omega arith) early (omega arith)
          (omega (arith, same_rest)),
      subst (λ x. age_of x ≢ age_of (now - started)) reached
          (age_of-next (now - started) (omega arith) (omega arith) early),
    )
