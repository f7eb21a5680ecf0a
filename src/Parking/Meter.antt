-- ===== src/Parking/Meter.antt =====
-- The parking meter of parking.cc: the entries that were paid for, and the lines that it answers.
use Prim.Native.String.{String}
use text.Mathlib.Text.{◌==◌ as str_eq}
use mimuw.Prelude.{ℕ, suc, ◌+◌, ◌-◌, ◌*◌, Bool, true, false, ◌&&◌, ◌||◌, List, [], ◌∷◌, ◌++◌}
use mimuw.Prelude.{ltb, leb, if◌then◌else◌}

abbrev pub minutes_in_hour : ℕ
minutes_in_hour = 60

abbrev pub min_payment : ℕ
min_payment = 10

abbrev pub max_payment : ℕ
max_payment = 719

abbrev pub opening_time : ℕ
opening_time = 480

abbrev pub closing_time : ℕ
closing_time = 1200

-- What the program takes from the standard library: the two regular expressions, the words of a
-- line that `>>` reads, and `length`, `substr` and `stoi` of a text.
pub record Library : Type 0 where
  pub matches_payment : String → Bool
  pub matches_checking : String → Bool
  pub word : String → ℕ → String
  pub length : String → ℕ
  pub substr : String → (from count : ℕ) → String
  pub stoi : String → ℕ

-- A registration number with the minutes from and to which it is paid.
pub record Entry : Type 0 where
  pub plate : String
  pub start : ℕ
  pub finish : ℕ

pub record Meter : Type 0 where
  pub parking : List Entry
  pub last_checked_hour : ℕ

abbrev pub idle : Meter
idle = record { parking = []; last_checked_hour = 0 }

unfoldable pub date_to_minutes_past_midnight : Library → String → ℕ
date_to_minutes_past_midnight l date =
    let n = l.length date in
    minutes_in_hour * l.stoi (l.substr date 0 (n - 3)) + l.stoi (l.substr date (n - 2) (n - 1))

unfoldable pub parse_payment_line : Library → String → Entry
unfolding date_to_minutes_past_midnight
parse_payment_line l line = record {
  plate = l.word line 0;
  start = date_to_minutes_past_midnight l (l.word line 1);
  finish = date_to_minutes_past_midnight l (l.word line 2);
}

unfoldable pub parse_checking_line : Library → String → String × ℕ
unfolding date_to_minutes_past_midnight
parse_checking_line l line = (l.word line 0, date_to_minutes_past_midnight l (l.word line 1))

abbrev pub check_if_new_day : (last_checked_hour current_time : ℕ) → Bool
check_if_new_day last current = ltb current last

-- The times are those of a line that matched, so no subtraction is below zero.
unfoldable pub check_parking_time : (start finish : ℕ) → Bool
check_parking_time s f =
    if ltb s f && leb min_payment (f - s) && leb (f - s) max_payment
    then true
    else if ltb f s
        && leb min_payment ((closing_time - s) + (f - opening_time))
        && leb ((closing_time - s) + (f - opening_time)) max_payment
    then true
    else false

-- The two loops of `delete_cars_from_data`
unfoldable pub next_day : (current_time : ℕ) → List Entry → List Entry
next_day now [] = []
next_day now (e ∷ es) =
    let rest = next_day now es in
    if leb e.start e.finish
    then rest
    else if ltb e.finish now
    then rest
    else record e { start = opening_time } ∷ rest

unfoldable pub same_day : (current_time : ℕ) → List Entry → List Entry
same_day now [] = []
same_day now (e ∷ es) =
    let rest = same_day now es in
    if ltb e.start e.finish && ltb e.finish now then rest else e ∷ rest

unfoldable pub delete_cars_from_data :
    List Entry → (current_time last_checked_hour : ℕ) → List Entry
unfolding next_day same_day
delete_cars_from_data es now last =
    if check_if_new_day last now then next_day now es else same_day now es

-- `add_payment` and `check_payment`, of the parsed line
unfoldable pub add_entry : Entry → Meter → Bool × Meter
unfolding check_parking_time delete_cars_from_data
add_entry e m =
    if check_parking_time e.start e.finish
    then (
      true,
      record {
        parking = delete_cars_from_data m.parking e.start m.last_checked_hour ++ e ∷ [];
        last_checked_hour = e.start;
      },
    )
    else (false, m)

unfoldable pub add_payment : Library → String → Meter → Bool × Meter
unfolding add_entry parse_payment_line
add_payment l line m = add_entry (parse_payment_line l line) m

abbrev pub covers_now : ℕ → Entry → Bool
covers_now t e = if leb e.start e.finish then leb t e.finish else leb e.start t || leb t e.finish

unfoldable pub is_paid : String → ℕ → List Entry → Bool
is_paid plate t [] = false
is_paid plate t (e ∷ es) = (str_eq plate e.plate && covers_now t e) || is_paid plate t es

unfoldable pub check_plate : String → ℕ → Meter → Bool × Meter
unfolding delete_cars_from_data is_paid
check_plate plate t m =
    let es = delete_cars_from_data m.parking t m.last_checked_hour in
    (is_paid plate t es, record { parking = es; last_checked_hour = t })

unfoldable pub check_payment : Library → String → Meter → Bool × Meter
unfolding check_plate parse_checking_line
check_payment l line m = let (plate, t) = parse_checking_line l line in check_plate plate t m

-- The answer to a line, with its number
pub data Output : Type 0 where
  ok yes_paid not_paid error : ℕ → Output

abbrev pub on_payment : ℕ → Bool × Meter → Output × Meter
on_payment n (true, m) = (ok n, m)
on_payment n (false, m) = (error n, m)

abbrev pub on_checking : ℕ → Bool × Meter → Output × Meter
on_checking n (true, m) = (yes_paid n, m)
on_checking n (false, m) = (not_paid n, m)

-- One round of the loop of `activate_parking`
unfoldable pub answer : Library → String → ℕ → Meter → Output × Meter
unfolding add_payment check_payment
answer l line n m =
    if l.matches_payment line
    then on_payment n (add_payment l line m)
    else if l.matches_checking line
    then on_checking n (check_payment l line m)
    else (error n, m)

-- The loop, for the lines after line n
unfoldable pub activate_parking : Library → List String → ℕ → Meter → List Output
unfolding answer
activate_parking l [] n m = []
activate_parking l (line ∷ lines) n m =
    let (out, m') = answer l line (suc n) m in out ∷ activate_parking l lines (suc n) m'
