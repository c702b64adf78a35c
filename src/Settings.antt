-- ===== src/Settings.antt =====
-- `cluster_setting` of scripts/recover.py and scripts/watchdog.py: one value of a cluster-settings.yaml, whose
-- text is given. The pattern is (?m)^  KEY: (\S+)$.
use k8s_dr.Prelude.{
  ℕ, String, Bool, not, ◌&&◌, Option, none, some, List, [], ◌∷◌, ◌==◌, if◌then◌else◌,
}
use k8s_dr.Text.{◌<>◌, split, after_prefix, empty, contains_char, is_space, drop_start, drop_end}

abbrev is_quote : ℕ → Bool
is_quote c = c == 34

-- The value in one line, if the line fits the pattern.
unfoldable pub line_value : String → Option String → Option String
line_value key none = none
line_value key (some rest) =
    if not (empty rest) && not (contains_char is_space rest) then some rest else none

-- The first line that fits.
unfoldable pub find_value : String → List String → Option String
unfolding line_value
find_value key [] = none
find_value key (line ∷ lines) =
    let rest = find_value key lines in
    elim (line_value key (after_prefix ("  " <> key <> ": ") line)) [
      | none ↦ rest
      | some v ↦ some v
    ]

-- `none` where the script raises; the quotes around the value are dropped.
unfoldable pub cluster_setting : String → String → Option String
unfolding find_value
cluster_setting text key = elim (find_value key (split 10 text)) [
  | none ↦ none
  | some v ↦ some (drop_end is_quote (drop_start is_quote v))
]
