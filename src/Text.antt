-- ===== src/Text.antt =====
-- What the scripts use of Python's `str` and `re`: splitting, stripping, order, decimal numbers, and the
-- patterns of `cluster_setting`, `FORBIDDEN_TYPES` and the newest-commit line, as functions on
-- native texts. A text is a list of code points.
pub mod Decimal
use text.Mathlib.Text.{◌==◌ as str_eq}
use k8s_dr.Prelude.{
  ℕ, zero, suc, Char, code, String, Bool, true, false, ◌&&◌, ◌||◌, Option, none, some, List, [],
  ◌∷◌, leb, ltb, ◌==◌, if◌then◌else◌,
}
pub use text.Mathlib.Text.{starts_with}

-- `==` between texts.
infix 50 ◌=ᵗ◌
abbrev pub ◌=ᵗ◌ : String → String → Bool
s =ᵗ t = str_eq s t

-- `s + t`.
infixr 65 ◌<>◌
unfoldable pub ◌<>◌ : String → String → String
String.[] <> t = t
(String.◌∷◌ c s) <> t = String.◌∷◌ c (s <> t)

-- `sep.join(texts)`.
unfoldable pub join : String → List String → String
unfolding ◌<>◌
join sep [] = ""
join sep (t ∷ []) = t
join sep (t ∷ u ∷ ts) = t <> sep <> join sep (u ∷ ts)

abbrev pub snoc : String → Char → String
snoc String.[] c = String.◌∷◌ c String.[]
snoc (String.◌∷◌ d s) c = String.◌∷◌ d (snoc s c)

-- `c.isspace()`.
unfoldable pub is_space : ℕ → Bool
is_space c =
    leb 9 c && leb c 13
    || leb 28 c && leb c 32
    || c == 133
    || c == 160
    || c == 5760
    || leb 8192 c && leb c 8202
    || c == 8232
    || c == 8233
    || c == 8239
    || c == 8287
    || c == 12288

unfoldable pub is_digit : ℕ → Bool
is_digit c = leb 48 c && leb c 57

-- `[0-9a-f]`.
unfoldable pub is_hex : ℕ → Bool
is_hex c = leb 48 c && leb c 57 || leb 97 c && leb c 102

-- `\w` on ASCII.
unfoldable pub is_word : ℕ → Bool
is_word c = leb 48 c && leb c 57 || leb 65 c && leb c 90 || leb 97 c && leb c 122 || c == 95

unfoldable pub contains_char : (ℕ → Bool) → String → Bool
contains_char p String.[] = false
contains_char p (String.◌∷◌ c s) = p (code c) || contains_char p s

abbrev pub empty : String → Bool
empty String.[] = true
empty (String.◌∷◌ _ _) = false

-- `s.split(sep)` for a separator of one character, with the field read so far: never empty.
unfoldable pub split_from : ℕ → String → String → List String
split_from sep acc String.[] = acc ∷ []
split_from sep acc (String.◌∷◌ c s) = elim (code c == sep) [
  | true ↦ acc ∷ split_from sep "" s
  | false ↦ split_from sep (snoc acc c) s
]

abbrev pub split : ℕ → String → List String
split sep s = split_from sep "" s

-- `s.split()`: the runs of characters that are no white space.
unfoldable pub words_from : String → String → List String
words_from acc String.[] = if empty acc then [] else acc ∷ []
words_from acc (String.◌∷◌ c s) = elim (is_space (code c)) [
  | true ↦ elim (empty acc) [ true ↦ words_from "" s | false ↦ acc ∷ words_from "" s ]
  | false ↦ words_from (snoc acc c) s
]

abbrev pub words : String → List String
words s = words_from "" s

-- The characters at which `splitlines` ends a line.
unfoldable pub is_line_end : ℕ → Bool
is_line_end c = leb 10 c && leb c 13 || leb 28 c && leb c 30 || c == 133 || c == 8232 || c == 8233

-- `s.splitlines()`. The flag is set just behind a carriage return, whose line feed ends no line.
unfoldable pub lines_from : Bool → String → String → List String
lines_from cr acc String.[] = if empty acc then [] else acc ∷ []
lines_from cr acc (String.◌∷◌ c s) = elim (cr && (code c == 10)) [
  | true ↦ lines_from false acc s
  | false ↦ elim (is_line_end (code c)) [
    | true ↦ acc ∷ lines_from (code c == 13) "" s
    | false ↦ lines_from false (snoc acc c) s
  ]
]

abbrev pub splitlines : String → List String
splitlines s = lines_from false "" s

unfoldable pub lstrip : String → String
lstrip String.[] = String.[]
lstrip (String.◌∷◌ c s) = if is_space (code c) then lstrip s else String.◌∷◌ c s

-- Trailing characters that pass the test are dropped.
unfoldable pub drop_end : (ℕ → Bool) → String → String
drop_end p String.[] = String.[]
drop_end p (String.◌∷◌ c s) =
    let rest = drop_end p s in if p (code c) && empty rest then String.[] else String.◌∷◌ c rest

unfoldable pub drop_start : (ℕ → Bool) → String → String
drop_start p String.[] = String.[]
drop_start p (String.◌∷◌ c s) = if p (code c) then drop_start p s else String.◌∷◌ c s

-- `s.strip()`.
abbrev pub strip : String → String
strip s = drop_end is_space (drop_start is_space s)

-- What follows the prefix `t`, if `s` starts with it.
unfoldable pub after_prefix : String → String → Option String
after_prefix String.[] s = some s
after_prefix (String.◌∷◌ c t) String.[] = none
after_prefix (String.◌∷◌ c t) (String.◌∷◌ d s) =
    let rest = after_prefix t s in if code c == code d then rest else none

abbrev is_some {ℓ} : {A : Type ℓ} → Option A → Bool
is_some none = false
is_some (some _) = true

-- `t in s`.
unfoldable pub contains : String → String → Bool
unfolding after_prefix
contains t String.[] = empty t
contains t (String.◌∷◌ c s) = is_some (after_prefix t (String.◌∷◌ c s)) || contains t s

-- `s.endswith(t)`.
unfoldable pub ends_with : String → String → Bool
ends_with String.[] t = String.[] =ᵗ t
ends_with (String.◌∷◌ c s) t = String.◌∷◌ c s =ᵗ t || ends_with s t

-- `s <= t` by code points, the order in which `sorted` puts texts.
unfoldable pub leb_text : String → String → Bool
leb_text String.[] t = true
leb_text (String.◌∷◌ c s) String.[] = false
leb_text (String.◌∷◌ c s) (String.◌∷◌ d t) =
    let rest = leb_text s t in
    if ltb (code c) (code d) then true else if code c == code d then rest else false

-- `s[:n]`.
unfoldable pub text_take : ℕ → String → String
text_take zero s = ""
text_take (suc n) String.[] = ""
text_take (suc n) (String.◌∷◌ c s) = String.◌∷◌ c (text_take n s)

abbrev last_or : String → List String → String
last_or d [] = d
last_or d (t ∷ ts) = last_or t ts

-- `s.split(sep)[-1]`.
unfoldable pub last_part : ℕ → String → String
unfolding split_from
last_part sep s = last_or "" (split sep s)

-- The part before the last, `s.split(sep)[-2]`, if there are two.
abbrev before_last : List String → Option String
before_last [] = none
before_last (t ∷ []) = none
before_last (t ∷ u ∷ []) = some t
before_last (t ∷ u ∷ v ∷ ts) = before_last (u ∷ v ∷ ts)

unfoldable pub part_before_last : ℕ → String → Option String
unfolding split_from
part_before_last sep s = before_last (split sep s)

-- `sorted(texts)`.
unfoldable pub insert_text : String → List String → List String
unfolding leb_text
insert_text t [] = t ∷ []
insert_text t (u ∷ us) =
    let rest = insert_text t us in if leb_text t u then t ∷ u ∷ us else u ∷ rest

unfoldable pub sorted_texts : List String → List String
unfolding insert_text
sorted_texts [] = []
sorted_texts (t ∷ ts) = insert_text t (sorted_texts ts)

-- `==` between lists of texts.
unfoldable pub same_texts : List String → List String → Bool
same_texts [] [] = true
same_texts (t ∷ ts) (u ∷ us) = t =ᵗ u && same_texts ts us
same_texts _ _ = false
