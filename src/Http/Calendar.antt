-- ===== src/Http/Calendar.antt =====
-- The months and years of gen_http_date and gen_http_time in c-original/net/net-http-server.c.
use mtproxy.Prelude.{
  ℕ, zero, suc, ◌+◌, ◌-◌, ◌*◌, ◌/◌, ◌%◌, ◌<◌, ◌≤◌, ◌≡◌, ◌≢◌, refl, sym, subst, Bool, true, false,
  List, [], ◌∷◌, ltb, leb, ◌==◌, ◌&&◌, if◌then◌else◌, take, drop, get_or, length, arith, Bool-cases,
  inl, inr, by_test,
}
use mtproxy.Prelude.Bytes.{same_bytes}
use mtproxy.Prelude.Int.{pos}
use mtproxy.Http.Dates.{months, dd, find_month, find_year, month_number, sum, day_number}

-- A day of the months falls into one of them, and the days of those before and its place add up to it.
pub record IsMonth (ds : List ℕ) (xd : ℕ) (r : ℕ × ℕ) : Type 0 where
  pub inside : r.1 < get_or ds r.0 0
  pub adds : sum (take r.0 ds) + r.1 ≡ xd

pub find_month-IsMonth : (ds : List ℕ) (xd : ℕ) → xd < sum ds → IsMonth ds xd (find_month ds xd)
unfolding find_month sum
find_month-IsMonth [] xd p = absurd (omega (arith, p))
find_month-IsMonth (d ∷ ds) xd p =
    let r = find_month ds (xd - d) in
    by_test (IsMonth (d ∷ ds) xd) (ltb xd d)
      (λ y. record { inside = ground (arith, y); adds = omega arith })
      (λ n.
        let k = find_month-IsMonth ds (xd - d) (ground (arith, p, n)) in
        record { inside = k.inside; adds = ground (arith, k.adds, n) })

-- The days before a month in a leap year: one more from March on.
leap_sum : (i : ℕ) → sum (take i (dd 29)) ≡ sum (take i (dd 28)) + (if leb 2 i then 1 else 0)
unfolding sum
leap_sum zero = refl
leap_sum (suc zero) = refl
leap_sum (suc (suc i)) = ground arith

-- The year of a number of days, and the place of the day in it.
pub record IsYear (days : ℕ) (r : ℕ × ℕ) : Type 0 where
  pub low : 1970 ≤ r.0
  pub high : r.0 ≤ 2039
  pub inside : r.1 < sum (dd (if r.0 % 4 == 0 then 29 else 28))
  pub adds : (r.0 - 1970) * 365 + (r.0 - 1969) / 4 + r.1 ≡ days

-- The length of February.
february-is_leap : (year : ℕ) → year % 4 ≡ 0 → sum (dd (if year % 4 == 0 then 29 else 28)) ≡ 366
unfolding sum
february-is_leap year z = ground (arith, z)

february-is_common : (year : ℕ) → year % 4 ≢ 0 → sum (dd (if year % 4 == 0 then 29 else 28)) ≡ 365
unfolding sum
february-is_common year z = ground (arith, z)

in_leap : (q xd : ℕ) → q ≤ 16 → xd < 366 → IsYear (q * 1461 + 730 + xd) (q * 4 + 1970 + 2, xd)
in_leap q xd a b = record {
  low = omega arith;
  high = omega (arith, a);
  inside = subst (λ n. xd < n) (sym (february-is_leap (q * 4 + 1970 + 2) (omega arith))) b;
  adds = omega (arith, a);
}

in_common :
    (q j xd days : ℕ)
    → (j ≡ 2 → ⊥)
    → j ≤ 3
    → q * 4 + j ≤ 69
    → xd < 365
    → q * 1461 + j * 365 + (j + 1) / 4 + xd ≡ days
    → IsYear days (q * 4 + 1970 + j, xd)
in_common q j xd days n l h b e = record {
  low = omega arith;
  high = omega (arith, h);
  inside =
      subst (λ k. xd < k)
        (sym (february-is_common (q * 4 + 1970 + j) (λ z. n (omega (arith, z, l))))) b;
  adds = omega (arith, e);
}

pub find_year-IsYear :
    (days : ℕ)
    → days < 24856
    → IsYear days (find_year (days / (365 * 3 + 366) * 4 + 1970) (days % (365 * 3 + 366)))
find_year-IsYear days p =
    let q = days / 1461 in
    let xd = days % 1461 in
    by_test (IsYear days) (leb 365 xd)
      (λ a.
        by_test (IsYear days) (leb 365 (xd - 365))
          (λ b.
            by_test (IsYear days) (leb 366 (xd - 365 - 365))
              (λ c.
                in_common q 3 (xd - 365 - 365 - 366) days (λ z. omega (arith, z)) (omega arith)
                  (ground (arith, a, b, c, p)) (ground (arith, a, b, c, p))
                  (ground (arith, a, b, c, p)))
              (λ c.
                subst (λ d. IsYear d (q * 4 + 1970 + 2, xd - 365 - 365))
                  (ground (arith, a, b, c, p))
                  (in_leap q (xd - 365 - 365) (ground (arith, a, b, c, p))
                    (ground (arith, a, b, c, p)))))
          (λ b.
            in_common q 1 (xd - 365) days (λ z. omega (arith, z)) (omega arith)
              (ground (arith, a, b, p)) (ground (arith, a, b, p)) (ground (arith, a, b, p))))
      (λ a.
        subst (λ y. IsYear days (y, xd)) (omega arith)
          (in_common q 0 xd days (λ z. omega (arith, z)) (omega arith) (ground (arith, a, p))
            (ground (arith, a, p)) (ground (arith, a, p))))

abbrev holds_below : (ℕ → Bool) → ℕ → Bool
holds_below test zero = true
holds_below test (suc n) = test n && holds_below test n

same : (m n : ℕ) → (m == n) ≡ true → m ≡ n
same m n e = ground (arith, e)

below : (test : ℕ → Bool) (n m : ℕ) → holds_below test n ≡ true → m < n → test m ≡ true
below test zero m h p = absurd (omega (arith, p))
below test (suc n) m h p = elim (Bool-cases (m == n)) [
  | inl e ↦ subst (λ k. test k ≡ true) (sym (same m n e)) (ground (arith, h))
  | inr d ↦ below test n m (ground (arith, h)) (ground (arith, d, p))
]

-- Reading the name of a month gives its number.
pub month_number-name :
    (mon : ℕ) → mon < 12 → month_number 12 0 (take 3 (drop (mon * 3) months)) ≡ mon
unfolding month_number same_bytes
month_number-name mon p =
    same (month_number 12 0 (take 3 (drop (mon * 3) months))) mon
      (below (λ m. month_number 12 0 (take 3 (drop (m * 3) months)) == m) 12 mon refl p)

-- A month has at most 31 days, and there are 12 of them.
abbrev short_months : List ℕ → Bool
short_months [] = true
short_months (d ∷ ds) = leb d 31 && short_months ds

pub month_inside :
    (ds : List ℕ) (n xd : ℕ)
    → short_months ds ≡ true
    → xd < get_or ds n 0
    → (n < length ds) × (xd < 31)
month_inside [] n xd s p = absurd (omega (arith, p))
month_inside (d ∷ ds) zero xd s p = (omega arith, ground (arith, s, p))
month_inside (d ∷ ds) (suc n) xd s p =
    let rest = month_inside ds n xd (ground (arith, s)) p in (omega (arith, rest.0), rest.1)

pub leap_days :
    (leap : Bool) (mon : ℕ)
    → (if leap && leb 2 mon then 1 else 0) + sum (take mon (dd 28))
      ≡ sum (take mon (dd (if leap then 29 else 28)))
leap_days true mon = ground (arith, leap_sum mon)
leap_days false mon = omega arith

pub february-short : (leap : Bool) → short_months (dd (if leap then 29 else 28)) ≡ true
february-short true = refl
february-short false = refl

pub date_in_range :
    (day mon year : ℕ)
    → 1 ≤ day
    → day ≤ 31
    → mon ≤ 11
    → 1970 ≤ year
    → year ≤ 2039
    → (leb 1 day && leb day 31 && leb mon 11 && leb 1970 year && leb year 2039) ≡ true
date_in_range day mon year a b c d e = ground (arith, a, b, c, d, e)

pub day_number-day : (before xd : ℕ) → day_number before (pos (xd + 1)) ≡ pos (before + xd)
day_number-day before xd = ground arith
