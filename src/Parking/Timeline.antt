-- ===== src/Parking/Timeline.antt =====
-- What the parking meter of parking.cc promises: the payments of all days, on one line of time.
use Prim.Native.String.{String}
use mimuw.Prelude.{ℕ, suc, ◌+◌, ◌-◌, ◌≤◌, ◌≡◌, ◌↔◌, arith, Bool, true, ◌&&◌, ◌||◌}
use mimuw.Prelude.{ltb, leb, ◌==◌, if◌then◌else◌}
use mimuw.Parking.Meter.{check_parking_time, opening_time, closing_time, min_payment}
use mimuw.Parking.Meter.{max_payment}

-- A payment, with the day on which it was made.
pub record Payment : Type 0 where
  pub plate : String
  pub day : ℕ
  pub start : ℕ
  pub finish : ℕ

-- The day and the minute of the last line that counted.
pub record Clock : Type 0 where
  pub day : ℕ
  pub time : ℕ

-- A time before the last one is a time of the next day.
unfoldable pub tick : ℕ → Clock → Clock
tick now c =
    if ltb now c.time
    then record { day = suc c.day; time = now }
    else record { day = c.day; time = now }

-- Whether a payment holds at a time: to its end on its own day, or overnight to its end on the
-- next day.
unfoldable pub holds_at : Payment → Clock → Bool
holds_at p c =
    if leb p.start p.finish
    then (c.day == p.day) && leb p.start c.time && leb c.time p.finish
    else (c.day == p.day) && leb p.start c.time || (c.day == suc p.day) && leb c.time p.finish

-- The minutes that a payment is for, while the parking is open
unfoldable pub paid_minutes : (start finish : ℕ) → ℕ
paid_minutes s f = if leb s f then f - s else (closing_time - s) + (f - opening_time)

-- Times within the opening hours
abbrev pub IsOpen : ℕ → Type 0
IsOpen t = (opening_time ≤ t) × (t ≤ closing_time)

-- A payment is accepted exactly for 10 to 719 minutes.
pub check_parking_time-paid_minutes :
    (s f : ℕ)
    → IsOpen s
    → IsOpen f
    → check_parking_time s f ≡ true
      ↔ (min_payment ≤ paid_minutes s f) × (paid_minutes s f ≤ max_payment)
unfolding check_parking_time paid_minutes
check_parking_time-paid_minutes s f os of = (λ h. ground arith, λ h. ground arith)
