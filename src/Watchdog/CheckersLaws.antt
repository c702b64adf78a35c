-- ===== src/Watchdog/CheckersLaws.antt =====
-- When the results of the uptime check count as an outage.
use mathlib.Core.List.{Memᴰ}
use mathlib.Core.List.Memᴰ
use k8s_dr.Prelude.{
  ℕ, ◌-◌, ◌≤◌, ◌≡◌, ◌↔◌, refl, sym, subst, Bool, false, some, List, [], ◌∷◌, Result, Done, ok, err,
  length, any, last?, All, leb, ge→ltb, leb→le, le→leb, arith,
}
use k8s_dr.Report.{and_then}
use k8s_dr.Prelude.Members.{mem-keep, mem-keep_of, any-false, any-false_of}
use k8s_dr.Sorting.{
  sort_by, IsSorted, sort_by-IsSorted, keep-IsSorted, sort_by-mem, sort_by-mem_of, last?-mem,
  last?-max, head-min,
}
use k8s_dr.Watchdog.Checkers.{
  window, lag, period, min_checkers, Series, Sample, samples, sample_key, check_sorted, recent,
  check_series, check_all, every_checker_failed,
}

-- One checker saw the service down for the whole window: its results are readable, and among those
-- from one period before the window on, none passed, one is as old as the window, and one is as new
-- as the lag of the results allows.
pub record IsDown (end : ℕ) (ss : List Sample) : Type 0 where
  pub none_passed : (s : Sample) → Memᴰ s ss → end - window - period ≤ s.time → s.passed ≡ false
  pub old : (s : Sample) × Memᴰ s ss × (end - window - period ≤ s.time) × (s.time ≤ end - window)
  pub new : (s : Sample) × Memᴰ s ss × (end - lag ≤ s.time)

abbrev FailedOnly : List Sample → Type 0
FailedOnly xs = (s : Sample) → Memᴰ s xs → s.passed ≡ false

module _ (end : ℕ) where
  check_sorted_sound :
      (x : Sample) (xs : List Sample) (l : Sample)
      → last? (x ∷ xs) ≡ some l
      → check_sorted end (x ∷ xs) ≡ ok tt
      → (any (λ s. s.passed) (x ∷ xs) ≡ false) × (x.time ≤ end - window) × (end - lag ≤ l.time)
  unfolding check_sorted
  check_sorted_sound x xs l hl h = (ground arith, ground arith, ground arith)

  check_sorted_complete :
      (x : Sample) (xs : List Sample) (l : Sample)
      → last? (x ∷ xs) ≡ some l
      → any (λ s. s.passed) (x ∷ xs) ≡ false
      → x.time ≤ end - window
      → end - lag ≤ l.time
      → check_sorted end (x ∷ xs) ≡ ok tt
  unfolding check_sorted
  check_sorted_complete x xs l hl unpassed old new =
      rw (unpassed, hl, ge→ltb _ _ old, ge→ltb _ _ new) refl

last?-some {ℓ} : {A : Type ℓ} (x : A) (xs : List A) → (l : A) × (last? (x ∷ xs) ≡ some l)
last?-some x [] = (x, refl)
last?-some x (y ∷ xs) = last?-some y xs

abbrev is_recent : ℕ → Sample → Bool
is_recent end s = leb (end - window - period) s.time

module _ (end : ℕ) (ss : List Sample) where
  recent-mem :
      (s : Sample)
      → Memᴰ s (recent end (sort_by sample_key ss))
      → Memᴰ s ss × (end - window - period ≤ s.time)
  recent-mem s m =
      let (k, e) = mem-keep (is_recent end) s (sort_by sample_key ss) m in
      (sort_by-mem sample_key s ss k, leb→le _ _ e)

  recent-mem_of :
      (s : Sample)
      → Memᴰ s ss
      → end - window - period ≤ s.time
      → Memᴰ s (recent end (sort_by sample_key ss))
  recent-mem_of s m l =
      mem-keep_of (is_recent end) s (sort_by sample_key ss) (sort_by-mem_of sample_key s ss m)
        (le→leb _ _ l)

  sound_cases :
      (xs : List Sample)
      → recent end (sort_by sample_key ss) ≡ xs
      → check_sorted end xs ≡ ok tt
      → IsDown end ss
  sound_cases [] e h = absurd (unfold check_sorted in ground arith)
  sound_cases (x ∷ xs) e h =
      let (l, hl) = last?-some x xs in
      let (unpassed, old, new) = check_sorted_sound end x xs l hl h in
      let mx : Memᴰ x (recent end (sort_by sample_key ss)) = rw e (Memᴰ.head refl) in
      let ml : Memᴰ l (recent end (sort_by sample_key ss)) =
        rw e (last?-mem sample_key l (x ∷ xs) hl) in
      record {
        none_passed =
            λ s m k. any-false (λ s. s.passed) s (x ∷ xs) unpassed (rw e at (recent-mem_of s m k));
        old = (x, (recent-mem x mx).0, (recent-mem x mx).1, old);
        new = (l, (recent-mem l ml).0, new);
      }

  complete_cases :
      (xs : List Sample)
      → recent end (sort_by sample_key ss) ≡ xs
      → IsSorted sample_key xs
      → IsDown end ss
      → check_sorted end xs ≡ ok tt
  complete_cases [] e sorted d =
      let (s, m, k, _) = d.old in absurd (Memᴰ.not-nil (rw e at (recent-mem_of s m k)))
  complete_cases (x ∷ xs) e sorted d =
      let (l, hl) = last?-some x xs in
      let (s, ms, ks, old) = d.old in
      let (n, mn, new) = d.new in
      let ms' : Memᴰ s (x ∷ xs) = rw e at (recent-mem_of s ms ks) in
      let mn' : Memᴰ n (x ∷ xs) = rw e at (recent-mem_of n mn (omega arith)) in
      let down : (y : Sample) → Memᴰ y (x ∷ xs) → y.passed ≡ false =
        λ y m. let (a, b) = recent-mem y (rw e m) in d.none_passed y a b in
      check_sorted_complete end x xs l hl (any-false_of (λ y. y.passed) (x ∷ xs) down)
        (oldest_le s ms' sorted (down s ms') old)
        (newest_ge l n hl mn' sorted (down l (last?-mem sample_key l (x ∷ xs) hl)) new)
    where
      oldest_le :
          (s : Sample)
          → Memᴰ s (x ∷ xs)
          → IsSorted sample_key (x ∷ xs)
          → s.passed ≡ false
          → s.time ≤ end - window
          → x.time ≤ end - window
      oldest_le s m o f k = ground (arith, head-min sample_key s x xs o m)

      newest_ge :
          (l n : Sample)
          → last? (x ∷ xs) ≡ some l
          → Memᴰ n (x ∷ xs)
          → IsSorted sample_key (x ∷ xs)
          → l.passed ≡ false
          → end - lag ≤ n.time
          → end - lag ≤ l.time
      newest_ge l n h m o f k = ground (arith, last?-max sample_key n l (x ∷ xs) o h m)

-- A series counts if its times are readable and its results show an outage.
abbrev pub SeriesDown : ℕ → Series → Type 0
SeriesDown end one = (ss : List Sample) × (samples one.points ≡ ok ss) × IsDown end ss

series_cases :
    (end : ℕ) (one : Series) (r : Result (List Sample))
    → samples one.points ≡ r
    → (and_then r (λ ss. check_sorted end (recent end (sort_by sample_key ss))) ≡ ok tt)
      ↔ SeriesDown end one
series_cases end one (ok ss) e = (
  λ h. (ss, e, sound_cases end ss _ refl h),
  λ d.
      let q : ss ≡ d.0 = ground arith in
      complete_cases end ss _ refl
        (keep-IsSorted sample_key (is_recent end) _ (sort_by-IsSorted sample_key ss))
        (subst (IsDown end) (sym q) d.2),
)
series_cases end one (err x) e = (λ h. absurd (ground arith), λ d. absurd (ground arith))

check_series_iff : (end : ℕ) (one : Series) → (check_series end one ≡ ok tt) ↔ SeriesDown end one
check_series_iff end one = unfold check_series in series_cases end one _ refl

and_then-ok : (r s : Result Done) → (and_then r (λ _. s) ≡ ok tt) ↔ ((r ≡ ok tt) × (s ≡ ok tt))
and_then-ok (ok _) s = (λ h. (refl, h), λ d. d.1)
and_then-ok (err e) s = (λ h. absurd (ground arith), λ d. absurd (ground arith))

check_all-cons :
    (end : ℕ) (one : Series) (series : List Series)
    → (check_all end (one ∷ series) ≡ ok tt)
      ↔ ((check_series end one ≡ ok tt) × (check_all end series ≡ ok tt))
check_all-cons end one series =
    unfold check_all in and_then-ok (check_series end one) (check_all end series)

check_all_iff :
    (end : ℕ) (series : List Series) → (check_all end series ≡ ok tt) ↔ All (SeriesDown end) series
check_all_iff end [] = (λ h. tt, λ d. unfold check_all in refl)
check_all_iff end (one ∷ series) =
    let (split, join) = check_all-cons end one series in
    let (one_down, down_one) = check_series_iff end one in
    let (all_down, down_all) = check_all_iff end series in
    (λ h. let (a, b) = split h in (one_down a, all_down b), λ d. join (down_one d.0, down_all d.1))

-- The results of the uptime check pass condition 1 exactly when at least three checkers reported and, for
-- every one of them, every time is readable, no result from one period before the window on is a pass,
-- one such result is as old as the start of the window, and one result is no older than the lag.
pub every_checker_failed_iff :
    (end : ℕ) (series : List Series)
    → (every_checker_failed end series ≡ ok tt)
      ↔ ((min_checkers ≤ length series) × All (SeriesDown end) series)
every_checker_failed_iff end series = (
  λ h. (
    unfold every_checker_failed in ground arith,
    (check_all_iff end series).0 (unfold every_checker_failed in ground arith),
  ),
  λ d.
      let b : check_all end series ≡ ok tt = (check_all_iff end series).1 d.1 in
      unfold every_checker_failed in rw (ge→ltb _ _ d.0) b,
)
