-- ===== src/Parking/Tracks.antt =====
-- How the entries of parking.cc stand for the payments of all days: an entry is removed only when
-- its payment is over, and is carried over midnight with a new start.
use Prim.Native.String.{String}
use text.Mathlib.Text.{◌==◌ as str_eq}
use mimuw.Prelude.{ℕ, suc, ◌≤◌, ◌<◌, ◌≡◌, ◌≢◌, refl, ap, arith, Bool, false, ◌&&◌, ◌||◌}
use mimuw.Prelude.{List, [], ◌∷◌, ◌++◌, ltb, leb, Bool-cases, ◌⊎◌, inl, inr}
use mimuw.Parking.Meter.{Entry, opening_time, next_day, same_day, delete_cars_from_data}
use mimuw.Parking.Meter.{covers_now, is_paid}
use mimuw.Parking.Timeline.{Payment, Clock, tick, holds_at}

-- The payment will not hold again.
abbrev pub Over : Clock → Payment → Type 0
Over c p =
    (suc p.day < c.day)
    ⊎ (p.day < c.day) × (p.start < p.finish)
    ⊎ (p.day ≡ c.day) × (p.start < p.finish) × (p.finish < c.time)
    ⊎ (suc p.day ≡ c.day) × (p.finish < c.time)

-- The entry of a payment of this day, and of a payment of the day before
abbrev pub Stands : Clock → Payment → Entry → Type 0
Stands c p e =
    (e.plate ≡ p.plate)
    × (e.finish ≡ p.finish)
    × (opening_time ≤ p.finish)
    × ((p.day ≡ c.day) × (e.start ≡ p.start) × (p.start ≤ c.time) × (p.start ≢ p.finish)
        ⊎ (suc p.day ≡ c.day) × (e.start ≡ opening_time) × (p.finish < p.start))

pub data Tracks (c : Clock) : List Payment → List Entry → Type 0 where
  nothing_paid : Tracks c [] []
  gone :
      {p : Payment} {ps : List Payment} {es : List Entry}
      → Over c p
      → Tracks c ps es
      → Tracks c (p ∷ ps) es
  kept :
      {p : Payment} {ps : List Payment} {e : Entry} {es : List Entry}
      → Stands c p e
      → Tracks c ps es
      → Tracks c (p ∷ ps) (e ∷ es)

Over-later :
    (c d : Clock) (p : Payment)
    → c.day < d.day ⊎ (c.day ≡ d.day) × (c.time ≤ d.time)
    → Over c p
    → Over d p
Over-later c d p h o = ground arith

carried :
    (now : ℕ) (c : Clock) (p : Payment) (e : Entry)
    → leb e.start e.finish ≡ false
    → Stands c p e
    → Stands (record { day = suc c.day; time = now }) p (record e { start = opening_time })
carried now c p e a (pl, f, o, inl (d, st, le, ne)) = (pl, f, o, inr (ap suc d, refl, ground arith))
carried now c p e a (pl, f, o, inr (d, st, lt)) = ground arith

next_day-Tracks :
    (now : ℕ) (c : Clock) (ps : List Payment) (es : List Entry)
    → now < c.time
    → Tracks c ps es
    → Tracks (record { day = suc c.day; time = now }) ps (next_day now es)
unfolding next_day
next_day-Tracks now c _ _ h nothing_paid = nothing_paid
next_day-Tracks now c (p ∷ ps) es h (gone o t) =
    gone (Over-later c _ p (ground arith) o) (next_day-Tracks now c ps es h t)
next_day-Tracks now c (p ∷ ps) (e ∷ es) h (kept s t) =
    let rest = next_day-Tracks now c ps es h t in
    elim (Bool-cases (leb e.start e.finish)) [
      | inl a ↦ rw a (gone (ground (arith, a)) rest)
      | inr a ↦ elim (Bool-cases (ltb e.finish now)) [
        | inl b ↦ rw (a, b) (gone (ground (arith, b)) rest)
        | inr b ↦ rw (a, b) (kept (carried now c p e a s) rest)
      ]
    ]

still :
    (now : ℕ) (c : Clock) (p : Payment) (e : Entry)
    → c.time ≤ now
    → Stands c p e
    → Stands (record { day = c.day; time = now }) p e
still now c p e h (pl, f, o, inl (d, st, le, ne)) = (pl, f, o, inl (d, st, omega arith, ne))
still now c p e h (pl, f, o, inr r) = (pl, f, o, inr r)

same_day-Tracks :
    (now : ℕ) (c : Clock) (ps : List Payment) (es : List Entry)
    → c.time ≤ now
    → Tracks c ps es
    → Tracks (record { day = c.day; time = now }) ps (same_day now es)
unfolding same_day
same_day-Tracks now c _ _ h nothing_paid = nothing_paid
same_day-Tracks now c (p ∷ ps) es h (gone o t) =
    gone (Over-later c _ p (inr (refl, h)) o) (same_day-Tracks now c ps es h t)
same_day-Tracks now c (p ∷ ps) (e ∷ es) h (kept s t) =
    let rest = same_day-Tracks now c ps es h t in
    elim (Bool-cases (ltb e.start e.finish && ltb e.finish now)) [
      | inl a ↦ rw a (gone (ground arith) rest)
      | inr a ↦ rw a (kept (still now c p e h s) rest)
    ]

pub delete_cars_from_data-Tracks :
    (now : ℕ) (c : Clock) (ps : List Payment) (es : List Entry)
    → Tracks c ps es
    → Tracks (tick now c) ps (delete_cars_from_data es now c.time)
unfolding tick delete_cars_from_data
delete_cars_from_data-Tracks now c ps es t = elim (Bool-cases (ltb now c.time)) [
  | inl a ↦ rw a (next_day-Tracks now c ps es (ground arith) t)
  | inr a ↦ rw a (same_day-Tracks now c ps es (ground arith) t)
]

pub push_back-Tracks :
    (c : Clock) (p : Payment) (e : Entry) (ps : List Payment) (es : List Entry)
    → Stands c p e
    → Tracks c ps es
    → Tracks c (ps ++ p ∷ []) (es ++ e ∷ [])
push_back-Tracks c p e _ _ s nothing_paid = kept s nothing_paid
push_back-Tracks c p e (q ∷ ps) es s (gone o t) = gone o (push_back-Tracks c p e ps es s t)
push_back-Tracks c p e (q ∷ ps) (f ∷ es) s (kept r t) = kept r (push_back-Tracks c p e ps es s t)

-- Whether a payment for the car holds
unfoldable pub any_holds : String → Clock → List Payment → Bool
any_holds plate c [] = false
any_holds plate c (p ∷ ps) = (str_eq plate p.plate && holds_at p c) || any_holds plate c ps

Over-holds_at : (c : Clock) (p : Payment) → Over c p → holds_at p c ≡ false
unfolding holds_at
Over-holds_at c p o = ground arith

Stands-holds_at :
    (c : Clock) (p : Payment) (e : Entry)
    → opening_time ≤ c.time
    → Stands c p e
    → covers_now c.time e ≡ holds_at p c
unfolding holds_at
Stands-holds_at c p e h s = ground arith

pub is_paid-any_holds :
    (plate : String) (c : Clock) (ps : List Payment) (es : List Entry)
    → opening_time ≤ c.time
    → Tracks c ps es
    → is_paid plate c.time es ≡ any_holds plate c ps
unfolding is_paid any_holds
is_paid-any_holds plate c _ _ h nothing_paid = refl
is_paid-any_holds plate c (p ∷ ps) es h (gone o t) =
    rw (Over-holds_at c p o, is_paid-any_holds plate c ps es h t) (ground arith)
is_paid-any_holds plate c (p ∷ ps) (e ∷ es) h (kept (pl, f, o, r) t) =
    rw (Stands-holds_at c p e h (pl, f, o, r), is_paid-any_holds plate c ps es h t, pl) refl
