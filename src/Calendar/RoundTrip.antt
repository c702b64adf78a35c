-- ===== src/Calendar/RoundTrip.antt =====
-- strftime followed by strptime, at both formats of scripts/drill_report.py.
use k8s_dr.Prelude.{
  ℕ, zero, suc, ◌+◌, ◌*◌, ◌/◌, ◌%◌, ◌≤◌, ◌<◌, ◌≡◌, refl, ap, Char, code, String, true, some, arith,
  ◌∙◌, ==_iff,
}
use k8s_dr.Text.{is_digit}
use k8s_dr.Calendar.Civil.{Fields, fields_of, is_valid, month_days, seconds_of-fields_of}
use k8s_dr.Calendar.Format.{
  digit, put_two, put_year, put, stamp_fields, set_fields, stamp, set_name, value, get_two, get_day,
  get_year, get, done, Rest, time_pattern, set_pattern, finish_parse, parse_time, parse_set,
}

pub code-digit : (n : ℕ) → n < 10 → code (digit n) ≡ 48 + n
unfolding digit
code-digit zero h = refl
code-digit (suc zero) h = refl
code-digit (suc (suc zero)) h = refl
code-digit (suc (suc (suc zero))) h = refl
code-digit (suc (suc (suc (suc zero)))) h = refl
code-digit (suc (suc (suc (suc (suc zero))))) h = refl
code-digit (suc (suc (suc (suc (suc (suc zero)))))) h = refl
code-digit (suc (suc (suc (suc (suc (suc (suc zero))))))) h = refl
code-digit (suc (suc (suc (suc (suc (suc (suc (suc zero)))))))) h = refl
code-digit (suc (suc (suc (suc (suc (suc (suc (suc (suc zero))))))))) h = refl
code-digit (suc (suc (suc (suc (suc (suc (suc (suc (suc (suc n)))))))))) h = absurd (omega arith)

value-digit : (n : ℕ) → n < 10 → value (digit n) ≡ n
value-digit n h = omega (arith, code-digit n h)

is_digit-digit : (n : ℕ) → n < 10 → is_digit (code (digit n)) ≡ true
unfolding is_digit
is_digit-digit n h = ground (arith, code-digit n h)

module _ (low high : ℕ) (k : ℕ → Rest) (n : ℕ) (s : String) {r : Fields × String} where
  get_two-put_two :
      n < 100 → low ≤ n → n ≤ high → k n s ≡ some r → get_two low high k (put_two n s) ≡ some r
  unfolding get_two put_two
  get_two-put_two small above below found =
      let e : 10 * value (digit (n / 10)) + value (digit (n % 10)) ≡ n =
        omega (arith, value-digit (n / 10) (omega arith), value-digit (n % 10) (omega arith)) in
      rw (is_digit-digit (n / 10) (omega arith), is_digit-digit (n % 10) (omega arith), e)
        (ground arith)

module _ (k : ℕ → Rest) (n : ℕ) (s : String) {r : Fields × String} where
  get_day-put_two : n < 100 → 1 ≤ n → n ≤ 31 → k n s ≡ some r → get_day k (put_two n s) ≡ some r
  unfolding get_day
  get_day-put_two small above below found =
      let e = get_two-put_two 1 31 k n s small above below found in rw e refl

  get_year-put_year : n < 10000 → k n s ≡ some r → get_year k (put_year n s) ≡ some r
  unfolding get_year put_year put_two
  get_year-put_year small found =
      let a : ℕ = n / 100 / 10 in
      let b : ℕ = n / 100 % 10 in
      let c : ℕ = n % 100 / 10 in
      let d : ℕ = n % 100 % 10 in
      let e : 10 * (10 * (10 * value (digit a) + value (digit b)) + value (digit c))
            + value (digit d)
          ≡ n =
        omega (
          arith,
          value-digit a (omega arith),
          value-digit b (omega arith),
          value-digit c (omega arith),
          value-digit d (omega arith),
        ) in
      rw
        (
          is_digit-digit a (omega arith),
          is_digit-digit b (omega arith),
          is_digit-digit c (omega arith),
          is_digit-digit d (omega arith),
          e,
        )
        found

get-put : (c : Char) (k : Rest) (s : String) → get c k (put c s) ≡ k s
unfolding get put
get-put c k s = rw ((==_iff (code c) (code c)).1 refl)

-- What `is_valid` says of each field.
pub record InRange (f : Fields) : Type 0 where
  pub year : f.year < 10000
  pub month_low : 1 ≤ f.month
  pub month : f.month ≤ 12
  pub day_low : 1 ≤ f.day
  pub day : f.day ≤ 31
  pub hour : f.hour ≤ 23
  pub minute : f.minute ≤ 59
  pub second : f.second ≤ 59

month_days-le : (y m : ℕ) → month_days y m ≤ 31
unfolding month_days
month_days-le y m = ground arith

pub InRange-of_valid : (f : Fields) → is_valid f ≡ true → InRange f
unfolding is_valid
InRange-of_valid f v = ground (arith, month_days-le f.year f.month)

end_of : (f : Fields) → get "Z" (done f) "Z" ≡ some (f, "")
unfolding get done
end_of f = refl

time_pattern-stamp_fields : (f : Fields) → InRange f → time_pattern (stamp_fields f) ≡ some (f, "")
unfolding time_pattern stamp_fields
time_pattern-stamp_fields f h = get_year-put_year _ f.year _ h.year (
    get-put "-" _ _
    ∙ get_two-put_two 1 12 _ f.month _ (omega arith) h.month_low h.month (
        get-put "-" _ _
        ∙ get_day-put_two _ f.day _ (omega arith) h.day_low h.day (
            get-put "T" _ _
            ∙ get_two-put_two 0 23 _ f.hour _ (omega arith) (omega arith) h.hour (
                get-put ":" _ _
                ∙ get_two-put_two 0 59 _ f.minute _ (omega arith) (omega arith) h.minute (
                    get-put ":" _ _
                    ∙ get_two-put_two 0 61 _ f.second _ (omega arith) (omega arith) (omega arith)
                        (end_of f))))))

set_pattern-set_fields : (f : Fields) → InRange f → set_pattern (set_fields f) ≡ some (f, "")
unfolding set_pattern set_fields
set_pattern-set_fields f h = get_year-put_year _ f.year _ h.year (
    get_two-put_two 1 12 _ f.month _ (omega arith) h.month_low h.month (
      get_day-put_two _ f.day _ (omega arith) h.day_low h.day (
        get-put "T" _ _
        ∙ get_two-put_two 0 23 _ f.hour _ (omega arith) (omega arith) h.hour (
            get_two-put_two 0 59 _ f.minute _ (omega arith) (omega arith) h.minute (
              get_two-put_two 0 61 _ f.second _ (omega arith) (omega arith) (omega arith)
                (end_of f))))))

parse_time_lem : (s : String) → parse_time s ≡ finish_parse (time_pattern s)
unfolding parse_time
parse_time_lem s = refl

parse_set_lem : (s : String) → parse_set s ≡ finish_parse (set_pattern s)
unfolding parse_set
parse_set_lem s = refl

stamp_lem : (t : ℕ) → stamp t ≡ stamp_fields (fields_of t)
unfolding stamp
stamp_lem t = refl

pub set_name_lem : (t : ℕ) → set_name t ≡ set_fields (fields_of t)
unfolding set_name
set_name_lem t = refl

finish_parse-fields_of :
    (t : ℕ) → is_valid (fields_of t) ≡ true → finish_parse (some (fields_of t, "")) ≡ some t
unfolding finish_parse
finish_parse-fields_of t v = rw v (ap some (seconds_of-fields_of t))

-- A time that has a valid date, written by strftime with TIME_FORMAT, is read back by strptime as
-- the same time.
pub parse_time-stamp : (t : ℕ) → is_valid (fields_of t) ≡ true → parse_time (stamp t) ≡ some t
parse_time-stamp t v =
    rw (parse_time_lem, stamp_lem, time_pattern-stamp_fields _ (InRange-of_valid _ v))
      (finish_parse-fields_of t v)

-- A time that has a valid date, written by strftime with SET_FORMAT, is read back by strptime as
-- the same time.
pub parse_set-set_name : (t : ℕ) → is_valid (fields_of t) ≡ true → parse_set (set_name t) ≡ some t
parse_set-set_name t v =
    rw (parse_set_lem, set_name_lem, set_pattern-set_fields _ (InRange-of_valid _ v))
      (finish_parse-fields_of t v)
