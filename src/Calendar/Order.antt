-- ===== src/Calendar/Order.antt =====
-- Set names in the order of `sorted` are in the order of their times. scripts/recover.py,
-- scripts/return_to_primary.py and scripts/drill.py compare set names as texts.
use k8s_dr.Prelude.{
  ℕ, zero, suc, ◌+◌, ◌-◌, ◌*◌, ◌/◌, ◌%◌, ◌≤◌, ◌<◌, ◌≡◌, inl, inr, refl, Char, String, Bool, true,
  false, ap, arith, leb, ltb, ◌==◌, if◌then◌else◌, Bool-cases,
}
use native.Mathlib.Decide.{dec_lt}
use k8s_dr.Text.{leb_text}
use k8s_dr.Calendar.Civil.{
  Fields, fields_of, seconds_of, is_valid, year_days, month_days, days_before_year,
  days_before_month, seconds_of-fields_of,
}
use k8s_dr.Calendar.Format.{put_two, put_year, put, set_fields, set_name}
use k8s_dr.Calendar.RoundTrip.{code-digit, InRange, InRange-of_valid, set_name_lem}

abbrev then_by : ℕ → ℕ → Bool → Bool
then_by a b rest = if ltb a b then true else if a == b then rest else false

leb_text-put_two :
    (a b : ℕ) (s t : String)
    → a < 100
    → b < 100
    → leb_text (put_two a s) (put_two b t) ≡ then_by a b (leb_text s t)
unfolding leb_text put_two
leb_text-put_two a b s t ha hb = ground (
  arith,
  code-digit (a / 10) (omega arith),
  code-digit (b / 10) (omega arith),
  code-digit (a % 10) (omega arith),
  code-digit (b % 10) (omega arith),
)

leb_text-put : (c : Char) (s t : String) → leb_text (put c s) (put c t) ≡ leb_text s t
unfolding leb_text put
leb_text-put c s t = ground arith

put_year_lem : (n : ℕ) (s : String) → put_year n s ≡ put_two (n / 100) (put_two (n % 100) s)
unfolding put_year
put_year_lem n s = refl

leb_text-put_year :
    (a b : ℕ) (s t : String)
    → a < 10000
    → b < 10000
    → leb_text (put_year a s) (put_year b t) ≡ then_by a b (leb_text s t)
leb_text-put_year a b s t ha hb =
    rw
      (
        put_year_lem a s,
        put_year_lem b t,
        leb_text-put_two (a / 100) (b / 100) _ _ (omega arith) (omega arith),
        leb_text-put_two (a % 100) (b % 100) s t (omega arith) (omega arith),
      )
      (ground arith)

-- The order of the fields, the largest first.
abbrev leb_fields : Fields → Fields → Bool
leb_fields f g = then_by f.year g.year (
    then_by f.month g.month (
      then_by f.day g.day
        (then_by f.hour g.hour (then_by f.minute g.minute (then_by f.second g.second true)))))

leb_text_end : leb_text "Z" "Z" ≡ true
unfolding leb_text
leb_text_end = refl

leb_text-set_fields :
    (f g : Fields) → InRange f → InRange g → leb_text (set_fields f) (set_fields g) ≡ leb_fields f g
unfolding set_fields
leb_text-set_fields f g hf hg =
    rw
      (
        leb_text-put_year f.year g.year _ _ hf.year hg.year,
        leb_text-put_two f.month g.month _ _ (omega arith) (omega arith),
        leb_text-put_two f.day g.day _ _ (omega arith) (omega arith),
        leb_text-put "T" _ _,
        leb_text-put_two f.hour g.hour _ _ (omega arith) (omega arith),
        leb_text-put_two f.minute g.minute _ _ (omega arith) (omega arith),
        leb_text-put_two f.second g.second _ _ (omega arith) (omega arith),
        leb_text_end,
      )
      refl

days_before_year_mono :
    (a b : ℕ) → a < b → days_before_year a + year_days (suc a) ≤ days_before_year b
unfolding days_before_year
days_before_year_mono a zero h = elim h [ ]
days_before_year_mono a (suc b) h = elim (dec_lt a b) [
  | yes l ↦ omega (arith, days_before_year_mono a b l)
  | no n ↦ let e : a ≡ b = omega arith in rw e (omega arith)
]

days_before_month_mono :
    (y a b : ℕ) → a < b → days_before_month y a + month_days y (suc a) ≤ days_before_month y b
unfolding days_before_month
days_before_month_mono y a zero h = elim h [ ]
days_before_month_mono y a (suc b) h = elim (dec_lt a b) [
  | yes l ↦ omega (arith, days_before_month_mono y a b l)
  | no n ↦ let e : a ≡ b = omega arith in rw e (omega arith)
]

-- The months of a year make up the year.
days_before_month-le : (y : ℕ) → days_before_month y 12 ≤ year_days y
unfolding days_before_month month_days year_days
days_before_month-le y = ground arith

-- The days of the year before a date, and those up to the time of day.
abbrev day_of_year : Fields → ℕ
day_of_year f = days_before_month f.year (f.month - 1) + (f.day - 1)

abbrev second_of_day : Fields → ℕ
second_of_day f = 3600 * f.hour + 60 * f.minute + f.second

day_le : (f : Fields) → is_valid f ≡ true → f.day ≤ month_days f.year f.month
unfolding is_valid
day_le f v = ground arith

year_low : (f : Fields) → is_valid f ≡ true → 1 ≤ f.year
unfolding is_valid
year_low f v = ground arith

day_of_year-lt : (f : Fields) → is_valid f ≡ true → day_of_year f < year_days f.year
day_of_year-lt f v =
    let h : InRange f = InRange-of_valid f v in
    let e : suc (f.month - 1) ≡ f.month = omega (arith, h.month_low) in
    omega (
      arith,
      h,
      day_le f v,
      ap (month_days f.year) e,
      days_before_month_mono f.year (f.month - 1) 12 (omega (arith, h.month, h.month_low)),
      days_before_month-le f.year,
    )

module _ (f g : Fields) (vf : is_valid f ≡ true) (vg : is_valid g ≡ true) where
  seconds_of-year : f.year < g.year → seconds_of f < seconds_of g
  unfolding seconds_of
  seconds_of-year l =
      let hf : InRange f = InRange-of_valid f vf in
      let e : suc (f.year - 1) ≡ f.year = omega (arith, year_low f vf) in
      omega (
        arith,
        hf,
        ap year_days e,
        day_of_year-lt f vf,
        days_before_year_mono (f.year - 1) (g.year - 1) (omega (arith, year_low f vf)),
      )

  seconds_of-month : f.year ≡ g.year → f.month < g.month → seconds_of f < seconds_of g
  unfolding seconds_of
  seconds_of-month e l =
      let hf : InRange f = InRange-of_valid f vf in
      let e' : suc (f.month - 1) ≡ f.month = omega (arith, hf.month_low) in
      omega (
        arith,
        hf,
        ap (λ (y : ℕ). days_before_year (y - 1)) e,
        ap (λ (y : ℕ). days_before_month y (g.month - 1)) e,
        ap (month_days f.year) e',
        day_le f vf,
        days_before_month_mono f.year (f.month - 1) (g.month - 1) (omega (arith, hf.month_low)),
      )

  -- Dates of one month differ by their days and their times of day.
  seconds_of-within :
      (n : ℕ)
      → f.year ≡ g.year
      → f.month ≡ g.month
      → 86400 * f.day + second_of_day f + n ≤ 86400 * g.day + second_of_day g
      → seconds_of f + n ≤ seconds_of g
  unfolding seconds_of
  seconds_of-within n e e' l =
      let hf : InRange f = InRange-of_valid f vf in
      let hg : InRange g = InRange-of_valid g vg in
      omega (
        arith,
        hf.day_low,
        hg.day_low,
        ap (λ (y : ℕ). days_before_year (y - 1)) e,
        ap (λ (y : ℕ). days_before_month y (g.month - 1)) e,
        ap (λ (m : ℕ). days_before_month f.year (m - 1)) e',
      )

module _ (f g : Fields) (vf : is_valid f ≡ true) (vg : is_valid g ≡ true) where
  leb_fields-true : leb_fields f g ≡ true → seconds_of f ≤ seconds_of g
  leb_fields-true h =
      let hf : InRange f = InRange-of_valid f vf in
      let hg : InRange g = InRange-of_valid g vg in
      ground (
        arith,
        seconds_of-year f g vf vg,
        seconds_of-month f g vf vg,
        seconds_of-within f g vf vg 0,
      )

  leb_fields-false : leb_fields f g ≡ false → seconds_of g < seconds_of f
  leb_fields-false h =
      let hf : InRange f = InRange-of_valid f vf in
      let hg : InRange g = InRange-of_valid g vg in
      ground (
        arith,
        seconds_of-year g f vg vf,
        seconds_of-month g f vg vf,
        seconds_of-within g f vg vf 1,
      )

-- For two times that have valid dates, the names of their sets compare as texts, code point by
-- code point, exactly as the times do.
pub leb_text-set_name :
    (s t : ℕ)
    → is_valid (fields_of s) ≡ true
    → is_valid (fields_of t) ≡ true
    → leb_text (set_name s) (set_name t) ≡ leb s t
leb_text-set_name s t vs vt =
    rw
      (
        set_name_lem,
        set_name_lem,
        leb_text-set_fields _ _ (InRange-of_valid _ vs) (InRange-of_valid _ vt),
      )
      (elim (Bool-cases (leb_fields (fields_of s) (fields_of t))) [
        | inl h ↦ rw h (le_case (leb_fields-true _ _ vs vt h))
        | inr h ↦ rw h (gt_case (leb_fields-false _ _ vs vt h))
      ])
  where
    le_case : seconds_of (fields_of s) ≤ seconds_of (fields_of t) → true ≡ leb s t
    le_case l = ground (arith, seconds_of-fields_of s, seconds_of-fields_of t)

    gt_case : seconds_of (fields_of t) < seconds_of (fields_of s) → false ≡ leb s t
    gt_case l = ground (arith, seconds_of-fields_of s, seconds_of-fields_of t)
