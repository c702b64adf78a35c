-- ===== src/Calendar/Civil.antt =====
-- The proleptic Gregorian calendar of `datetime`: seconds to fields and back.
use k8s_dr.Prelude.{
  ℕ, zero, suc, ◌+◌, ◌-◌, ◌*◌, ◌/◌, ◌%◌, ◌≡◌, refl, ap, Bool, not, ◌&&◌, ◌||◌, inl, inr, arith, ltb,
  leb, ◌==◌, if◌then◌else◌, Bool-cases,
}

pub record Fields : Type 0 where
  pub year : ℕ
  pub month : ℕ
  pub day : ℕ
  pub hour : ℕ
  pub minute : ℕ
  pub second : ℕ

unfoldable pub is_leap : ℕ → Bool
is_leap y = y % 4 == 0 && (not (y % 100 == 0) || y % 400 == 0)

unfoldable pub year_days : ℕ → ℕ
unfolding is_leap
year_days y = if is_leap y then 366 else 365

-- The lengths of the months of a year.
unfoldable pub month_days : ℕ → ℕ → ℕ
unfolding is_leap
month_days y m =
    if m == 2
    then (if is_leap y then 29 else 28)
    else if m == 4 || m == 6 || m == 9 || m == 11
    then 30
    else 31

-- Days before the first of January of the year `1 + n`.
unfoldable pub days_before_year : ℕ → ℕ
days_before_year zero = 0
days_before_year (suc n) = days_before_year n + year_days (suc n)

-- Days of the year `y` before its month `1 + n`.
unfoldable pub days_before_month : ℕ → ℕ → ℕ
days_before_month y zero = 0
days_before_month y (suc n) = days_before_month y n + month_days y (suc n)

-- Walks the years from `1 + n`: the years passed, and the days left in the last one.
unfoldable pub split_year : ℕ → ℕ → ℕ → ℕ × ℕ
split_year zero n d = (n, d)
split_year (suc fuel) n d =
    let rest = split_year fuel (suc n) (d - year_days (suc n)) in
    if ltb d (year_days (suc n)) then (n, d) else rest

-- Walks the months of the year `y` from `1 + n`.
unfoldable pub split_month : ℕ → ℕ → ℕ → ℕ → ℕ × ℕ
split_month y zero n d = (n, d)
split_month y (suc fuel) n d =
    let rest = split_month y fuel (suc n) (d - month_days y (suc n)) in
    if ltb d (month_days y (suc n)) then (n, d) else rest

unfoldable pub fields_of : ℕ → Fields
unfolding split_year split_month
fields_of t =
    let days : ℕ = t / 86400 in
    let (n, d) = split_year (days / 365 + 1) 0 days in
    let (m, k) = split_month (suc n) 12 0 d in
    record {
      year = suc n;
      month = suc m;
      day = suc k;
      hour = t % 86400 / 3600;
      minute = t % 3600 / 60;
      second = t % 60;
    }

unfoldable pub seconds_of : Fields → ℕ
unfolding days_before_year days_before_month
seconds_of f =
    86400 * (days_before_year (f.year - 1) + days_before_month f.year (f.month - 1) + (f.day - 1))
    + 3600 * f.hour
    + 60 * f.minute
    + f.second

-- The ranges that the constructor of `datetime` demands.
unfoldable pub is_valid : Fields → Bool
unfolding month_days
is_valid f =
    leb 1 f.year
    && leb f.year 9999
    && leb 1 f.month
    && leb f.month 12
    && leb 1 f.day
    && leb f.day (month_days f.year f.month)
    && ltb f.hour 24
    && ltb f.minute 60
    && ltb f.second 60

-- The walk over the years keeps the day counted from the start.
split_year_sum :
    (fuel n d : ℕ)
    → days_before_year (split_year fuel n d).0 + (split_year fuel n d).1 ≡ days_before_year n + d
unfolding split_year days_before_year
split_year_sum zero n d = refl
split_year_sum (suc fuel) n d = elim (Bool-cases (ltb d (year_days (suc n)))) [
  | inl h ↦ ground arith
  | inr h ↦ ground (arith, split_year_sum fuel (suc n) (d - year_days (suc n)))
]

split_month_sum :
    (y fuel n d : ℕ)
    → days_before_month y (split_month y fuel n d).0 + (split_month y fuel n d).1
      ≡ days_before_month y n + d
unfolding split_month days_before_month
split_month_sum y zero n d = refl
split_month_sum y (suc fuel) n d = elim (Bool-cases (ltb d (month_days y (suc n)))) [
  | inl h ↦ ground arith
  | inr h ↦ ground (arith, split_month_sum y fuel (suc n) (d - month_days y (suc n)))
]

-- Reading the fields of a time back gives the time.
pub seconds_of-fields_of : (t : ℕ) → seconds_of (fields_of t) ≡ t
unfolding seconds_of fields_of
seconds_of-fields_of t =
    let days : ℕ = t / 86400 in
    let p : ℕ × ℕ = split_year (days / 365 + 1) 0 days in
    let q : ℕ × ℕ = split_month (suc p.0) 12 0 p.1 in
    let e : suc p.0 - 1 ≡ p.0 = omega arith in
    let e' : suc q.0 - 1 ≡ q.0 = omega arith in
    omega (
      arith,
      ap days_before_year e,
      ap (days_before_month (suc p.0)) e',
      split_year_sum (days / 365 + 1) 0 days,
      split_month_sum (suc p.0) 12 0 p.1,
    )
