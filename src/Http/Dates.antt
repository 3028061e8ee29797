-- ===== src/Http/Dates.antt =====
-- The dates of c-original/net/net-http-server.c: gen_http_date writes one, gen_http_time reads it back.
--
-- A date stands between sprintf and sscanf as its eight fields. An `int` that is read may be negative, and
-- the sum of the seconds is not cut to 32 bits.
use mtproxy.Prelude.{
  ℕ, zero, suc, ◌+◌, ◌-◌, ◌*◌, ◌/◌, ◌%◌, Bool, true, List, [], ◌∷◌, ltb, leb, ◌==◌, ◌&&◌, ◌||◌, not,
  if◌then◌else◌, take, drop,
}
use mtproxy.Prelude.Bytes.{Bytes, codes, same_bytes}
use mtproxy.Prelude.Int.{ℤ, pos, negsuc, sub_ℕ, pos_part}
use mtproxy.Prelude.Run.{Run, ok, assert, ◌>>◌}

abbrev pub months : Bytes
months = codes "JanFebMarAprMayJunJulAugSepOctNovDecGlk"

abbrev pub dows : Bytes
dows = codes "SunMonTueWedThuFriSatEar"

-- dd, with dd[1] = february
abbrev pub dd : ℕ → List ℕ
dd february = 31 ∷ february ∷ 31 ∷ 30 ∷ 31 ∷ 30 ∷ 31 ∷ 31 ∷ 30 ∷ 31 ∷ 30 ∷ 31 ∷ []

-- What "%.3s, %.2d %.3s %d %.2d:%.2d:%.2d GMT" writes and "%3s, %d %3s %d %d:%d:%d %15s" reads
pub record HttpDate : Type 0 where
  pub dow : Bytes
  pub day : ℤ
  pub month : Bytes
  pub year : ℤ
  pub hour : ℤ
  pub min : ℤ
  pub sec : ℤ
  pub tz : Bytes

-- for (i = 0; i < 12; i++) { if (xd < dd[i]) break; xd -= dd[i]; }, as i and xd
unfoldable pub find_month : List ℕ → ℕ → ℕ × ℕ
find_month [] xd = (0, xd)
find_month (d ∷ ds) xd =
    let (i, rest) = find_month ds (xd - d) in if ltb xd d then (0, xd) else (suc i, rest)

-- The year, and the day of the year
abbrev pub find_year : ℕ → ℕ → ℕ × ℕ
find_year year xd =
    if leb 365 xd
    then (if leb 365 (xd - 365)
        then (if leb 366 (xd - 365 - 365)
            then (year + 3, xd - 365 - 365 - 366)
            else (year + 2, xd - 365 - 365))
        else (year + 1, xd - 365))
    else (year, xd)

-- if (time < 0) time = 0: what is left is pos_part.
unfoldable pub gen_http_date : ℤ → Run HttpDate
gen_http_date at =
    let time = pos_part at in
    let days = time / 60 / 60 / 24 in
    let (year, of_year) = find_year (days / (365 * 3 + 366) * 4 + 1970) (days % (365 * 3 + 366)) in
    let (mon, xd) = find_month (dd (if year % 4 == 0 then 29 else 28)) of_year in
    let day = xd + 1 in
    do
      assert (leb 1 day && leb day 31 && leb mon 11 && leb 1970 year && leb year 2039)
      ok (record {
        dow = take 3 (drop ((days + 4) % 7 * 3) dows);
        day = pos day;
        month = take 3 (drop (mon * 3) months);
        year = pos year;
        hour = pos (time / 60 / 60 % 24);
        min = pos (time / 60 % 60);
        sec = pos (time % 60);
        tz = codes "GMT";
      })

-- What gen_http_time gives: the time, or one of its error codes, negated.
pub data Read : Type 0 where
  read_time : ℤ → Read
  error : ℕ → Read

-- for (mon = 0; mon < 12; mon++), from mon on with `rounds` of them to go
unfoldable pub month_number : ℕ → ℕ → Bytes → ℕ
unfolding same_bytes
month_number zero mon month = mon
month_number (suc rounds) mon month =
    let later = month_number rounds (mon + 1) month in
    if same_bytes (take 3 (drop (mon * 3) months)) month then mon else later

unfoldable pub sum : List ℕ → ℕ
sum [] = 0
sum (d ∷ ds) = d + sum ds

abbrev pub outside : ℤ → ℕ → ℕ → Bool
outside (pos n) low high = ltb n low || leb high n
outside (negsuc n) low high = true

-- before + (day - 1)
abbrev pub day_number : ℕ → ℤ → ℤ
day_number before (pos day) = sub_ℕ (before + day) 1
day_number before (negsuc n) = sub_ℕ before (n + 2)

-- ((d * 24 + hour) * 60 + min) * 60 + sec
abbrev pub seconds : ℤ → ℕ → ℕ → ℕ → ℤ
seconds (pos d) hour min sec = pos (((d * 24 + hour) * 60 + min) * 60 + sec)
seconds (negsuc n) hour min sec = sub_ℕ ((hour * 60 + min) * 60 + sec) ((n + 1) * 86400)

-- What follows sscanf where it reads all eight fields.
unfoldable pub gen_http_time : HttpDate → Read
gen_http_time f =
    let mon = month_number 12 0 f.month in
    let year = pos_part f.year in
    let leap = if year % 4 == 0 && leb 2 mon then 1 else 0 in
    let before = (year - 1970) * 365 + (year - 1969) / 4 + leap + sum (take mon (dd 28)) in
    if mon == 12
    then error 11
    else if outside f.year 1970 2040
    then error 12
    else if outside f.hour 0 24
    then error 13
    else if outside f.min 0 60
    then error 14
    else if outside f.sec 0 60
    then error 15
    else if not (same_bytes f.tz (codes "GMT"))
    then error 16
    else read_time
        (seconds (day_number before f.day) (pos_part f.hour) (pos_part f.min) (pos_part f.sec))
