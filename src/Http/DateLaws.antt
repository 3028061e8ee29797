-- ===== src/Http/DateLaws.antt =====
-- The dates of c-original/net/net-http-server.c: reading gives back what was written.
use mtproxy.Prelude.{
  ℕ, ◌+◌, ◌-◌, ◌*◌, ◌/◌, ◌%◌, ◌^◌, ◌<◌, ◌≤◌, ◌≡◌, ◌∙◌, ap, Bool, true, false, leb, ◌==◌, ◌&&◌,
  if◌then◌else◌, take, drop, arith,
}
use mtproxy.Prelude.Bytes.{Bytes, codes, same_bytes}
use mtproxy.Prelude.Int.{ℤ, pos, pos_part}
use mtproxy.Prelude.Run.{Returns, returns, Returns-assert}
use mtproxy.Http.Dates.{
  months, dows, dd, find_month, find_year, gen_http_date, Read, read_time, error, sum,
  gen_http_time, outside, seconds,
}
use mtproxy.Http.Calendar.{
  find_month-IsMonth, find_year-IsYear, month_number-name, month_inside, leap_days, february-short,
  date_in_range, day_number-day,
}

past : {y z : Read} (test : Bool) (x : Read) → test ≡ false → y ≡ z → (if test then x else y) ≡ z
past true x n e = cc
past false x n e = e

within : (n low high : ℕ) → low ≤ n → n < high → outside (pos n) low high ≡ false
within n low high l h = ground (arith, l, h)

-- Reading a date whose fields are in their ranges.
read_fields :
    (mon xd year days hour min sec : ℕ) (dow : Bytes)
    → mon < 12
    → 1970 ≤ year
    → year ≤ 2039
    → hour < 24
    → min < 60
    → sec < 60
    → (year - 1970) * 365
        + (year - 1969) / 4
        + (if year % 4 == 0 && leb 2 mon then 1 else 0)
        + sum (take mon (dd 28))
        + xd
      ≡ days
    → gen_http_time (record {
      dow = dow;
      day = pos (xd + 1);
      month = take 3 (drop (mon * 3) months);
      year = pos year;
      hour = pos hour;
      min = pos min;
      sec = pos sec;
      tz = codes "GMT";
    })
      ≡ read_time (pos (((days * 24 + hour) * 60 + min) * 60 + sec))
unfolding gen_http_time same_bytes
read_fields mon xd year days hour min sec dow m low high h i s e =
    let before =
      (year - 1970) * 365
      + (year - 1969) / 4
      + (if year % 4 == 0 && leb 2 mon then 1 else 0)
      + sum (take mon (dd 28)) in
    let name = month_number-name mon m in
    rw name (
      past (mon == 12) (error 11) (ground (arith, m)) (
        past (outside (pos year) 1970 2040) (error 12)
          (within year 1970 2040 low (omega (arith, high)))
          (past (outside (pos hour) 0 24) (error 13) (within hour 0 24 (omega arith) h) (
            past (outside (pos min) 0 60) (error 14) (within min 0 60 (omega arith) i) (
              past (outside (pos sec) 0 60) (error 15) (within sec 0 60 (omega arith) s) (
                ap (λ d. read_time (seconds d hour min sec))
                  (day_number-day before xd ∙ ap pos e)))))))

hour_below : (n : ℕ) → n % 24 < 24
hour_below n = omega arith

part_below : (n : ℕ) → n % 60 < 60
part_below n = omega arith

days_add_up :
    (before leap common inner xd of_year days : ℕ)
    → leap + common ≡ inner
    → inner + xd ≡ of_year
    → before + of_year ≡ days
    → before + leap + common + xd ≡ days
days_add_up before leap common inner xd of_year days a b c = omega (arith, a, b, c)

time_of_parts :
    (t : ℕ) → ((t / 60 / 60 / 24 * 24 + t / 60 / 60 % 24) * 60 + t / 60 % 60) * 60 + t % 60 ≡ t
time_of_parts t = omega arith

-- gen_http_date fails no assertion on an int, and gen_http_time reads the time back from the fields it
-- writes; a negative time counts as 0.
pub gen_http_date-IsRead :
    (time : ℤ)
    → pos_part time < 2 ^ 31
    → Returns (λ f. gen_http_time f ≡ read_time (pos (pos_part time))) (gen_http_date time)
unfolding gen_http_date
gen_http_date-IsRead time p =
    let t = pos_part time in
    let days = t / 60 / 60 / 24 in
    let y = find_year (days / (365 * 3 + 366) * 4 + 1970) (days % (365 * 3 + 366)) in
    let isy = find_year-IsYear days (omega (arith, p)) in
    let feb = if y.0 % 4 == 0 then 29 else 28 in
    let m = find_month (dd feb) y.1 in
    let ism = find_month-IsMonth (dd feb) y.1 isy.inside in
    let inside = month_inside (dd feb) m.0 m.1 (february-short (y.0 % 4 == 0)) ism.inside in
    Returns-assert
      (leb 1 (m.1 + 1) && leb (m.1 + 1) 31 && leb m.0 11 && leb 1970 y.0 && leb y.0 2039)
      (date_in_range (m.1 + 1) m.0 y.0 (omega arith) (omega (arith, inside.1))
        (omega (arith, inside.0)) isy.low isy.high)
      (returns (
        read_fields m.0 m.1 y.0 days (t / 60 / 60 % 24) (t / 60 % 60) (t % 60)
          (take 3 (drop ((days + 4) % 7 * 3) dows)) (omega (arith, inside.0)) isy.low isy.high
          (hour_below (t / 60 / 60)) (part_below (t / 60)) (part_below t)
          (days_add_up ((y.0 - 1970) * 365 + (y.0 - 1969) / 4)
            (if y.0 % 4 == 0 && leb 2 m.0 then 1 else 0) (sum (take m.0 (dd 28)))
            (sum (take m.0 (dd feb))) m.1 y.1 days (leap_days (y.0 % 4 == 0) m.0) ism.adds isy.adds)
        ∙ ap (λ n. read_time (pos n)) (time_of_parts t)))
