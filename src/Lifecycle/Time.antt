-- ===== src/Lifecycle/Time.antt =====
-- internal/lifecycle/eval.go and config.go: `expiresAt`, `parseDate` and `dateReached`.
pub mod Laws
use opens.Prelude.{
  ℕ, suc, ◌+◌, ◌-◌, ◌*◌, ◌/◌, ◌%◌, ◌^◌, ℤ, pos, negsuc, Bool, true, false, not, Option, none, some,
  Bytes, ltb, leb, ◌==◌, if◌then◌else◌,
}
use opens.Lifecycle.Config.{Time}

-- 24 * time.Hour, in nanoseconds
abbrev pub day : ℕ
day = 86400000000000

-- The 64 bits of an int64.
abbrev word : ℤ → ℕ
word (pos n) = n % 2 ^ 64
word (negsuc n) = 2 ^ 64 - 1 - n % 2 ^ 64

-- time.Duration(days) * 24 * time.Hour, as the 64 bits of an int64 that wraps around
unfoldable pub days_duration : ℤ → ℕ
days_duration days = word days * 24 % 2 ^ 64 * 3600000000000 % 2 ^ 64

-- t.Add(d) for the 64 bits of a signed duration; no time before year 1 is represented
unfoldable pub add_duration : Time → ℕ → Time
add_duration t d = if ltb d (2 ^ 63) then t + d else t - (2 ^ 64 - d)

-- x.Truncate(24 * time.Hour), and the next midnight if that is before x
unfoldable pub next_midnight : Time → Time
next_midnight x = let m = x / day * day in if ltb m x then m + day else m

-- expiresAt(t, days)
unfoldable pub expires_at : Time → ℤ → Time
expires_at t days = next_midnight (add_duration t (days_duration days))

-- time.Parse with the layouts RFC 3339 and 2006-01-02
pub record Dates : Type 0 where
  pub parse_rfc3339 : Bytes → Option Time
  pub parse_bare : Bytes → Option Time

module _ (dates : Dates) where
  -- Hour, minute, second and nanosecond are all 0.
  at_midnight : Time → Option Time
  at_midnight t = if t % day == 0 then some t else none

  -- parseDate(s); `none` is the InvalidArgument error
  pub parse_date : Bytes → Option Time
  unfolding at_midnight
  parse_date s = elim (dates.parse_rfc3339 s) [
    | some t ↦ at_midnight t
    | none ↦ elim (dates.parse_bare s) [ some t ↦ at_midnight t | none ↦ none ]
  ]

  -- dateReached(date, now)
  pub date_reached : Bytes → Time → Bool
  date_reached date now = elim (parse_date date) [ none ↦ false | some d ↦ not (ltb now d) ]

-- !now.Before(expiresAt(t, days))
unfoldable pub is_due : Time → Time → ℤ → Bool
is_due now t days = not (ltb now (expires_at t days))
