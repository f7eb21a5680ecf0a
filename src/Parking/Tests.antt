-- ===== src/Parking/Tests.antt =====
-- Runs of the model of parking.cc.
use Prim.Native.String.{String}
use text.Mathlib.Text.{◌==◌ as str_eq}
use mimuw.Prelude.{◌≡◌, refl, arith, true, false, [], ◌∷◌, if◌then◌else◌, ◌==◌}
use mimuw.Parking.Meter.{Library, Entry, ok, yes_paid, not_paid, error, idle}
use mimuw.Parking.Meter.{date_to_minutes_past_midnight, parse_payment_line, parse_checking_line}
use mimuw.Parking.Meter.{check_parking_time, next_day, same_day, delete_cars_from_data}
use mimuw.Parking.Meter.{add_entry, is_paid, check_plate, add_payment, check_payment, answer}
use mimuw.Parking.Meter.{activate_parking}
use mimuw.Parking.Answers.{IsChecked, activate_parking-promised, promised, opened}

-- Two lines: a car pays from 8.30 to 9.15, and is checked at 8.30.
abbrev payment_line : String
payment_line = "AB1 8.30 9.15"

abbrev checking_line : String
checking_line = "AB1 8.30"

abbrev two_lines : Library
two_lines = record {
  matches_payment = λ line. str_eq line payment_line;
  matches_checking = λ line. str_eq line checking_line;
  word = λ line i. if i == 0 then "AB1" else if i == 1 then "8.30" else "9.15";
  length = λ date. 4;
  substr = λ date from count.
      if from == 0
      then (if str_eq date "8.30" then "8" else "9")
      else if str_eq date "8.30"
      then "30"
      else "15";
  stoi = λ text.
      if str_eq text "8"
      then 8
      else if str_eq text "9"
      then 9
      else if str_eq text "30"
      then 30
      else 15;
}

two_lines-IsChecked : IsChecked two_lines
unfolding parse_payment_line parse_checking_line date_to_minutes_past_midnight
two_lines-IsChecked = record {
  payment_finish = λ line h. (omega arith, omega arith);
  checking_time = λ line h. (omega arith, omega arith);
}

a_day :
    activate_parking two_lines (checking_line ∷ payment_line ∷ "?" ∷ checking_line ∷ []) 0 idle
    ≡ not_paid 1 ∷ ok 2 ∷ error 3 ∷ yes_paid 4 ∷ []
unfolding activate_parking answer add_payment check_payment add_entry check_plate is_paid
    delete_cars_from_data same_day next_day check_parking_time parse_payment_line
    parse_checking_line date_to_minutes_past_midnight
a_day = refl

-- A car that pays at 19.00 until 9.00 is paid for on the next day at 8.30, and not on the day after.
abbrev overnight : Entry
overnight = record { plate = "AB1"; start = 1140; finish = 540 }

overnight_is_paid : (check_plate "AB1" 510 (add_entry overnight idle).1).0 ≡ true
unfolding add_entry check_plate is_paid delete_cars_from_data same_day next_day check_parking_time
overnight_is_paid = refl

overnight_is_over :
    (check_plate "AB1" 510 (check_plate "AB1" 600 (add_entry overnight idle).1).1).0 ≡ false
unfolding add_entry check_plate is_paid delete_cars_from_data same_day next_day check_parking_time
overnight_is_over = refl

activate_parking-promised_example :
    activate_parking two_lines (checking_line ∷ payment_line ∷ "?" ∷ checking_line ∷ []) 0 idle
    ≡ promised two_lines (checking_line ∷ payment_line ∷ "?" ∷ checking_line ∷ []) 0 opened
activate_parking-promised_example =
    activate_parking-promised two_lines (checking_line ∷ payment_line ∷ "?" ∷ checking_line ∷ [])
      two_lines-IsChecked
