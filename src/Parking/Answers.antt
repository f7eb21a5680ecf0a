-- ===== src/Parking/Answers.antt =====
-- The whole run of parking.cc against its promise: the answers are those of a meter that forgets no
-- payment and keeps the day.
use Prim.Native.String.{String}
use mathlib.Core.Path.{subst}
use mimuw.Prelude.{ℕ, suc, ◌≤◌, ◌≡◌, refl, sym, arith, Bool, true, false}
use mimuw.Prelude.{List, [], ◌∷◌, ◌++◌, if◌then◌else◌, Bool-cases, inl, inr}
use mimuw.Parking.Meter.{
  Library, Entry, Meter, opening_time, delete_cars_from_data, is_paid, Output, ok, yes_paid,
  not_paid, error, idle, check_parking_time, parse_payment_line, parse_checking_line, add_entry,
  add_payment, check_plate, check_payment, answer, on_payment, on_checking, activate_parking,
}
use mimuw.Parking.Timeline.{Payment, Clock, tick, IsOpen}
use mimuw.Parking.Tracks.{
  Tracks, nothing_paid, Stands, any_holds, delete_cars_from_data-Tracks, push_back-Tracks,
  is_paid-any_holds,
}

-- All payments, and the clock of the last line that counted
pub record Book : Type 0 where
  pub payments : List Payment
  pub clock : Clock

abbrev pub opened : Book
opened = record { payments = []; clock = record { day = 0; time = 0 } }

unfoldable pub book_payment : Entry → Book → Bool × Book
unfolding tick check_parking_time
book_payment e b =
    if check_parking_time e.start e.finish
    then (
      true,
      record {
        payments =
            b.payments
            ++ record {
              plate = e.plate;
              day = (tick e.start b.clock).day;
              start = e.start;
              finish = e.finish;
            }
              ∷ [];
        clock = tick e.start b.clock;
      },
    )
    else (false, b)

unfoldable pub ask : String → ℕ → Book → Bool × Book
unfolding tick any_holds
ask plate t b = (any_holds plate (tick t b.clock) b.payments, record b { clock = tick t b.clock })

abbrev pub told_payment : ℕ → Bool × Book → Output × Book
told_payment n (true, b) = (ok n, b)
told_payment n (false, b) = (error n, b)

abbrev pub told_checking : ℕ → Bool × Book → Output × Book
told_checking n (true, b) = (yes_paid n, b)
told_checking n (false, b) = (not_paid n, b)

unfoldable pub reply : Library → String → ℕ → Book → Output × Book
unfolding book_payment ask
reply l line n b =
    if l.matches_payment line
    then told_payment n (book_payment (parse_payment_line l line) b)
    else if l.matches_checking line
    then told_checking n (ask (parse_checking_line l line).0 (parse_checking_line l line).1 b)
    else (error n, b)

unfoldable pub promised : Library → List String → ℕ → Book → List Output
unfolding reply
promised l [] n b = []
promised l (line ∷ lines) n b =
    let (out, b') = reply l line (suc n) b in out ∷ promised l lines (suc n) b'

-- What the regular expressions check: a line that matches has times within the opening hours.
pub record IsChecked (l : Library) : Type 0 where
  pub payment_finish :
      (line : String) → l.matches_payment line ≡ true → IsOpen ((parse_payment_line l line).finish)
  pub checking_time :
      (line : String) → l.matches_checking line ≡ true → IsOpen ((parse_checking_line l line).1)

-- The entries stand for the payments, and the last hour is the clock's.
abbrev pub Agree : Meter → Book → Type 0
Agree m b = Tracks b.clock b.payments m.parking × (m.last_checked_hour ≡ b.clock.time)

abbrev pub Same : Bool × Meter → Bool × Book → Type 0
Same x y = (x.0 ≡ y.0) × Agree x.1 y.1

abbrev pub SameAnswer : Output × Meter → Output × Book → Type 0
SameAnswer x y = (x.0 ≡ y.0) × Agree x.1 y.1

tick-time : (t : ℕ) (c : Clock) → (tick t c).time ≡ t
unfolding tick
tick-time t c = ground arith

removed-Tracks :
    (now : ℕ) (m : Meter) (b : Book)
    → Agree m b
    → Tracks (tick now b.clock) b.payments (delete_cars_from_data m.parking now m.last_checked_hour)
removed-Tracks now m b (t, h) =
    rw h (delete_cars_from_data-Tracks now b.clock b.payments m.parking t)

bought-Stands :
    (e : Entry) (c : Clock)
    → opening_time ≤ e.finish
    → check_parking_time e.start e.finish ≡ true
    → Stands
        (tick e.start c)
        (record { plate = e.plate; day = (tick e.start c).day; start = e.start; finish = e.finish })
        e
unfolding check_parking_time
bought-Stands e c o a =
    (refl, refl, o, inl (refl, refl, omega (arith, tick-time e.start c), λ q. ground (arith, q, a)))

add_entry-Same :
    (e : Entry) (m : Meter) (b : Book)
    → opening_time ≤ e.finish
    → Agree m b
    → Same (add_entry e m) (book_payment e b)
unfolding add_entry book_payment
add_entry-Same e m b o h = elim (Bool-cases (check_parking_time e.start e.finish)) [
  | inl a ↦ rw a (
    refl,
    (
      push_back-Tracks _ _ e _ _ (bought-Stands e b.clock o a) (removed-Tracks e.start m b h),
      sym (tick-time e.start b.clock),
    ),
  )
  | inr a ↦ rw a (refl, h)
]

check_plate-Same :
    (plate : String) (now : ℕ) (m : Meter) (b : Book)
    → opening_time ≤ now
    → Agree m b
    → Same (check_plate plate now m) (ask plate now b)
unfolding check_plate ask
check_plate-Same plate now m b o h =
    let t = removed-Tracks now m b h in
    let q = tick-time now b.clock in
    let p : opening_time ≤ (tick now b.clock).time = omega (arith, q, o) in
    (
      subst
          (λ x.
            is_paid plate x (delete_cars_from_data m.parking now m.last_checked_hour)
            ≡ any_holds plate (tick now b.clock) b.payments)
          q (is_paid-any_holds plate (tick now b.clock) _ _ p t),
      (t, sym q),
    )

on_payment-Same :
    (n : ℕ) (x : Bool × Meter) (y : Bool × Book)
    → Same x y
    → SameAnswer (on_payment n x) (told_payment n y)
on_payment-Same n (true, m) (true, b) s = (refl, s.1)
on_payment-Same n (false, m) (false, b) s = (refl, s.1)
on_payment-Same n (true, m) (false, b) s = ground (arith, s.0)
on_payment-Same n (false, m) (true, b) s = ground (arith, s.0)

on_checking-Same :
    (n : ℕ) (x : Bool × Meter) (y : Bool × Book)
    → Same x y
    → SameAnswer (on_checking n x) (told_checking n y)
on_checking-Same n (true, m) (true, b) s = (refl, s.1)
on_checking-Same n (false, m) (false, b) s = (refl, s.1)
on_checking-Same n (true, m) (false, b) s = ground (arith, s.0)
on_checking-Same n (false, m) (true, b) s = ground (arith, s.0)

answer-SameAnswer :
    (l : Library) (line : String) (n : ℕ) (m : Meter) (b : Book)
    → IsChecked l
    → Agree m b
    → SameAnswer (answer l line n m) (reply l line n b)
unfolding answer reply add_payment check_payment
answer-SameAnswer l line n m b k h = elim (Bool-cases (l.matches_payment line)) [
  | inl a ↦ rw a (
      on_payment-Same n _ _
        (add_entry-Same (parse_payment_line l line) m b (k.payment_finish line a).0 h))
  | inr a ↦ elim (Bool-cases (l.matches_checking line)) [
    | inl c ↦
        rw (a, c) (on_checking-Same n _ _ (check_plate-Same _ _ m b (k.checking_time line c).0 h))
    | inr c ↦ rw (a, c) (refl, h)
  ]
]

activate_parking-Agree :
    (l : Library) (lines : List String) (n : ℕ) (m : Meter) (b : Book)
    → IsChecked l
    → Agree m b
    → activate_parking l lines n m ≡ promised l lines n b
unfolding activate_parking promised
activate_parking-Agree l [] n m b k h = refl
activate_parking-Agree l (line ∷ lines) n m b k h =
    let (q, h') = answer-SameAnswer l line (suc n) m b k h in
    rw (q, activate_parking-Agree l lines (suc n) _ _ k h') refl

-- With regular expressions that accept only times within the opening hours: on every sequence of
-- lines the meter gives the answers of one that keeps all payments with their days and looks for a
-- payment that holds.
pub activate_parking-promised :
    (l : Library) (lines : List String)
    → IsChecked l
    → activate_parking l lines 0 idle ≡ promised l lines 0 opened
activate_parking-promised l lines k =
    activate_parking-Agree l lines 0 idle opened k (nothing_paid, refl)
