-- ===== src/Calendar/Format.antt =====
-- `strftime` and `strptime` at TIME_FORMAT and SET_FORMAT. A pattern of strptime accepts one digit where two
-- are usual, tries two first, and ignores case; digits outside ASCII are not modelled. `%Y` writes
-- four digits, as it does from the year 1000 on.
use k8s_dr.Prelude.{
  ℕ, zero, suc, ◌+◌, ◌-◌, ◌*◌, ◌/◌, ◌%◌, Char, code, String, ◌&&◌, ◌||◌, Option, none, some, leb,
  ◌==◌, if◌then◌else◌,
}
use k8s_dr.Text.{is_digit}
use k8s_dr.Calendar.Civil.{Fields, fields_of, seconds_of, is_valid}

unfoldable pub digit : ℕ → Char
digit zero = "0"
digit (suc zero) = "1"
digit (suc (suc zero)) = "2"
digit (suc (suc (suc zero))) = "3"
digit (suc (suc (suc (suc zero)))) = "4"
digit (suc (suc (suc (suc (suc zero))))) = "5"
digit (suc (suc (suc (suc (suc (suc zero)))))) = "6"
digit (suc (suc (suc (suc (suc (suc (suc zero))))))) = "7"
digit (suc (suc (suc (suc (suc (suc (suc (suc zero)))))))) = "8"
digit (suc (suc (suc (suc (suc (suc (suc (suc (suc n))))))))) = "9"

-- `%m` and the like, in front of what follows.
unfoldable pub put_two : ℕ → String → String
put_two n s = String.◌∷◌ (digit (n / 10)) (String.◌∷◌ (digit (n % 10)) s)

-- `%Y`.
unfoldable pub put_year : ℕ → String → String
unfolding put_two
put_year n s = put_two (n / 100) (put_two (n % 100) s)

-- A character of the format.
unfoldable pub put : Char → String → String
put c s = String.◌∷◌ c s

unfoldable pub stamp_fields : Fields → String
stamp_fields f = put_year f.year (
    put "-" (
      put_two f.month (
        put "-" (
          put_two f.day (
            put "T"
              (put_two f.hour (put ":" (put_two f.minute (put ":" (put_two f.second "Z"))))))))))

unfoldable pub set_fields : Fields → String
set_fields f = put_year f.year (
    put_two f.month
      (put_two f.day (put "T" (put_two f.hour (put_two f.minute (put_two f.second "Z"))))))

-- `t.strftime(TIME_FORMAT)`.
unfoldable pub stamp : ℕ → String
unfolding stamp_fields put_two put_year put fields_of digit
stamp t = stamp_fields (fields_of t)

-- `t.strftime(SET_FORMAT)`.
unfoldable pub set_name : ℕ → String
unfolding set_fields put_two put_year put fields_of digit
set_name t = set_fields (fields_of t)

abbrev pub or_else : Option (Fields × String) → Option (Fields × String) → Option (Fields × String)
or_else none other = other
or_else (some r) other = some r

-- A matcher of the rest of the pattern.
abbrev pub Rest : Type 0
Rest = String → Option (Fields × String)

abbrev pub value : Char → ℕ
value c = code c - 48

-- One digit between `low` and 9.
unfoldable pub get_one : ℕ → (ℕ → Rest) → Rest
get_one low k String.[] = none
get_one low k (String.◌∷◌ a s) =
    let found = k (value a) s in if is_digit (code a) && leb low (value a) then found else none

-- Two digits whose number is in a range, or else one digit.
unfoldable pub get_two : ℕ → ℕ → (ℕ → Rest) → Rest
unfolding get_one
get_two low high k String.[] = none
get_two low high k (String.◌∷◌ a String.[]) = get_one low k (String.◌∷◌ a String.[])
get_two low high k (String.◌∷◌ a (String.◌∷◌ b s)) =
    let n = 10 * value a + value b in
    let found = k n s in
    or_else
      (if is_digit (code a) && is_digit (code b) && leb low n && leb n high then found else none)
      (get_one low k (String.◌∷◌ a (String.◌∷◌ b s)))

-- `%d`: as above from 1 to 31, or else a space and one digit.
unfoldable pub get_space : (ℕ → Rest) → Rest
unfolding get_one
get_space k String.[] = none
get_space k (String.◌∷◌ a s) = let found = get_one 1 k s in if code a == 32 then found else none

unfoldable pub get_day : (ℕ → Rest) → Rest
unfolding get_two get_space
get_day k s = or_else (get_two 1 31 k s) (get_space k s)

-- Four digits.
unfoldable pub get_year : (ℕ → Rest) → Rest
get_year k (String.◌∷◌ a (String.◌∷◌ b (String.◌∷◌ c (String.◌∷◌ d s)))) =
    let n = 10 * (10 * (10 * value a + value b) + value c) + value d in
    let found = k n s in
    if is_digit (code a) && is_digit (code b) && is_digit (code c) && is_digit (code d)
    then found
    else none
get_year k _ = none

-- A character of the format, in either case if it is a capital letter.
unfoldable pub get : Char → Rest → Rest
get c k String.[] = none
get c k (String.◌∷◌ a s) =
    let found = k s in
    if code a == code c || leb 65 (code c) && code a == code c + 32 then found else none

unfoldable pub done : Fields → Rest
done f s = some (f, s)

unfoldable pub time_pattern : Rest
time_pattern = get_year λ year. get "-" (
    get_two 1 12 λ month. get "-" (
      get_day λ day. get "T" (
        get_two 0 23 λ hour. get ":" (
          get_two 0 59 λ minute. get ":" (
            get_two 0 61 λ second. get "Z" (
              done (record {
                year = year;
                month = month;
                day = day;
                hour = hour;
                minute = minute;
                second = second;
              })))))))

unfoldable pub set_pattern : Rest
set_pattern = get_year λ year. get_two 1 12 λ month. get_day λ day. get "T" (
    get_two 0 23 λ hour. get_two 0 59 λ minute. get_two 0 61 λ second. get "Z" (
      done (record {
        year = year;
        month = month;
        day = day;
        hour = hour;
        minute = minute;
        second = second;
      })))

-- The match has to reach the end, and the fields have to make a date.
unfoldable pub finish_parse : Option (Fields × String) → Option ℕ
unfolding is_valid seconds_of
finish_parse none = none
finish_parse (some (f, String.[])) = if is_valid f then some (seconds_of f) else none
finish_parse (some (f, String.◌∷◌ _ _)) = none

-- `strptime(text, TIME_FORMAT)`; `none` is its ValueError.
unfoldable pub parse_time : String → Option ℕ
unfolding time_pattern get_two get_day get_year get done finish_parse
parse_time text = finish_parse (time_pattern text)

-- `strptime(text, SET_FORMAT)`.
unfoldable pub parse_set : String → Option ℕ
unfolding set_pattern get_two get_day get_year get done finish_parse
parse_set text = finish_parse (set_pattern text)

-- `t.strftime("%H:%M:%S")`.
unfoldable pub clock_text : ℕ → String
unfolding put_two put fields_of digit
clock_text t =
    let f = fields_of t in
    put_two f.hour (put ":" (put_two f.minute (put ":" (put_two f.second ""))))
