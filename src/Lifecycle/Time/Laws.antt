-- ===== src/Lifecycle/Time/Laws.antt =====
-- When an expiration falls due: exactly `days` days later and then at midnight, as long as the
-- duration fits an int64; and where it does not.
use opens.Prelude.{ℕ, ◌+◌, ◌-◌, ◌*◌, ◌%◌, ◌^◌, ◌≤◌, ◌<◌, ◌≡◌, pos, true, arith}
use opens.Lifecycle.Config.{Time}
use opens.Lifecycle.Time.{day, days_duration, add_duration, next_midnight, expires_at, is_due}

-- The least multiple of a day that is not before x.
next_midnight_lem :
    (x : Time) → (next_midnight x % day ≡ 0) × (x ≤ next_midnight x) × (next_midnight x < x + day)
unfolding next_midnight
next_midnight_lem x = (ground arith, ground arith, ground arith)

days_duration-pos : (n : ℕ) → n ≤ 213503 → days_duration (pos n) ≡ n * day
unfolding days_duration
days_duration-pos n h = omega arith

add_duration-forward : (t : Time) (d : ℕ) → d < 2 ^ 63 → add_duration t d ≡ t + d
unfolding add_duration
add_duration-forward t d h = ground arith

add_duration-backward : (t : Time) (d : ℕ) → 2 ^ 63 ≤ d → add_duration t d ≡ t - (2 ^ 64 - d)
unfolding add_duration
add_duration-backward t d h = ground arith

-- Up to 106751 days an expiration falls due at the first midnight that is at least that many days
-- after the object's time.
pub expires_at-midnight :
    (t : Time) (n : ℕ)
    → n ≤ 106751
    → (expires_at t (pos n) % day ≡ 0)
      × (t + n * day ≤ expires_at t (pos n))
      × (expires_at t (pos n) < t + n * day + day)
unfolding expires_at
expires_at-midnight t n h =
    rw (days_duration-pos n (omega arith), add_duration-forward t (n * day) (omega arith))
      (let (midnight, late, early) = next_midnight_lem (t + n * day) in
        (midnight, late, omega arith))

expires_at-overflow :
    (t : Time) (n : ℕ)
    → 106752 ≤ n
    → n ≤ 213502
    → expires_at t (pos n) ≡ next_midnight (t - (2 ^ 64 - n * day))
unfolding expires_at
expires_at-overflow t n h k =
    rw (days_duration-pos n (omega arith), add_duration-backward t (n * day) (omega arith))

-- From 106752 to 213502 days the duration has wrapped around to a negative one: the expiration
-- falls due at once, at a time not after the object's own.
pub is_due-overflow :
    (now t : Time) (n : ℕ) → 106752 ≤ n → n ≤ 213502 → t ≤ now → is_due now t (pos n) ≡ true
unfolding is_due
is_due-overflow now t n h k l =
    rw (expires_at-overflow t n h k) (ground (arith, next_midnight_lem (t - (2 ^ 64 - n * day))))
