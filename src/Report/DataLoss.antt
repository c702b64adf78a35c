-- ===== src/Report/DataLoss.antt =====
-- What `data_loss` of scripts/drill_report.py reports of a sorted write log.
use mathlib.Core.List.{Memᴰ}
use k8s_dr.Prelude.{
  ℕ, ◌-◌, ◌≤◌, ◌<◌, ◌≡◌, ◌↔◌, refl, subst, String, Bool, true, Option, none, some, List, [], ◌∷◌,
  ◌++◌, pos, sub_ℕ-of_le, ok, All, leb, ltb, leb→le, ltb→lt, le→leb, lt→ltb, gt→leb, first, last?,
  arith,
}
use text.Mathlib.TextEquality.{eq_iff}
use k8s_dr.Text.{◌=ᵗ◌}
use k8s_dr.Report.{Write, Loss, before, loss_between, loss_of, data_loss}
use k8s_dr.Prelude.Members.{mem-keep, mem-keep_of, first-mem}
use k8s_dr.Sorting.{IsSorted, last?-max, last?-mem, keep-IsSorted}

abbrev pub time_of : Write → ℕ
time_of w = w.acknowledged

ok-injective {ℓ} : {A : Type ℓ} {a b : A} → ok a ≡ ok b → a ≡ b
ok-injective h = ground arith

-- The report that the comments of `data_loss` promise.
pub record IsLoss (writes : List Write) (sha : String) (isolated_at : ℕ) (r : Loss) : Type 0 where
  pub last_counts : Memᴰ r.last writes × (r.last.acknowledged ≤ isolated_at)
  pub last_is_newest :
      (w : Write)
      → Memᴰ w writes
      → w.acknowledged ≤ isolated_at
      → w.acknowledged ≤ r.last.acknowledged
  pub restored_counts :
      Memᴰ r.restored writes × (r.restored.acknowledged ≤ isolated_at) × (r.restored.sha ≡ sha)
  pub lost_exactly :
      (w : Write)
      → Memᴰ w r.lost ↔ (
          Memᴰ w writes
          × (w.acknowledged ≤ isolated_at)
          × (r.restored.acknowledged < w.acknowledged))
  pub loss_is : r.loss ≡ pos (r.last.acknowledged - r.restored.acknowledged)

module _ (writes : List Write) (sha : String) (iso : ℕ) (sorted : IsSorted time_of writes) where
  loss_between-IsLoss :
      (last restored : Write)
      → last? (before iso writes) ≡ some last
      → first (λ w. w.sha =ᵗ sha) (before iso writes) ≡ some restored
      → IsLoss writes sha iso (loss_between last restored (before iso writes))
  loss_between-IsLoss last restored hl hr =
      let p : Write → Bool = λ w. leb w.acknowledged iso in
      let q : Write → Bool = λ w. ltb restored.acknowledged w.acknowledged in
      let m : Memᴰ last writes × (p last ≡ true) =
        mem-keep p last writes (last?-mem time_of last (before iso writes) hl) in
      let f : Memᴰ restored (before iso writes) × ((restored.sha =ᵗ sha) ≡ true) =
        first-mem (λ w. w.sha =ᵗ sha) restored (before iso writes) hr in
      let n : Memᴰ restored writes × (p restored ≡ true) = mem-keep p restored writes f.0 in
      let newest : (w : Write)
          → Memᴰ w writes
          → w.acknowledged ≤ iso
          → w.acknowledged ≤ last.acknowledged =
        λ w k l.
          last?-max time_of w last (before iso writes) (keep-IsSorted time_of p writes sorted) hl
            (mem-keep_of p w writes k (le→leb _ _ l)) in
      record {
        last_counts = (m.0, leb→le _ _ m.1);
        last_is_newest = newest;
        restored_counts = (n.0, leb→le _ _ n.1, (eq_iff restored.sha sha).0 f.1);
        lost_exactly = λ w. (
          λ k.
              let (a, b) = mem-keep q w (before iso writes) k in
              let (c, d) = mem-keep p w writes a in (c, leb→le _ _ d, ltb→lt _ _ b),
          λ k.
              mem-keep_of q w (before iso writes) (mem-keep_of p w writes k.0 (le→leb _ _ k.1))
                (lt→ltb _ _ k.2),
        );
        loss_is = sub_ℕ-of_le _ _ (newest restored n.0 (leb→le _ _ n.1));
      }

  loss_of-IsLoss :
      (last restored : Option Write) (r : Loss)
      → last? (before iso writes) ≡ last
      → first (λ w. w.sha =ᵗ sha) (before iso writes) ≡ restored
      → loss_of last restored (before iso writes) sha ≡ ok r
      → IsLoss writes sha iso r
  loss_of-IsLoss none _ r hl hr h = cc
  loss_of-IsLoss (some l) none r hl hr h = cc
  loss_of-IsLoss (some l) (some w) r hl hr h =
      let e : loss_between l w (before iso writes) ≡ r = ok-injective h in
      subst (IsLoss writes sha iso) e (loss_between-IsLoss l w hl hr)

-- Of a log sorted by time, as `read_writes` returns it, a data loss that is reported compares the
-- newest write acknowledged up to the isolation with a write of the restored commit acknowledged up
-- to the isolation: the loss is the time between them and not negative, and the lost writes are
-- exactly the writes of the log acknowledged after the restored one and up to the isolation.
pub data_loss-IsLoss :
    (writes : List Write) (sha : String) (isolated_at : ℕ) (r : Loss)
    → IsSorted time_of writes
    → data_loss writes sha isolated_at ≡ ok r
    → IsLoss writes sha isolated_at r
unfolding data_loss
data_loss-IsLoss writes sha iso r sorted h = loss_of-IsLoss writes sha iso sorted _ _ r refl refl h

before-append_late :
    (iso : ℕ) (writes late : List Write)
    → All (λ w. iso < w.acknowledged) late
    → before iso (writes ++ late) ≡ before iso writes
before-append_late iso [] [] h = refl
before-append_late iso [] (w ∷ late) h = rw (gt→leb _ _ h.0) (before-append_late iso [] late h.1)
before-append_late iso (w ∷ writes) late h = rw (before-append_late iso writes late h)

-- Writes acknowledged after the isolation, which went to the recovery cluster, change nothing in
-- the report, whether it succeeds or fails.
pub data_loss-append_late :
    (writes late : List Write) (sha : String) (isolated_at : ℕ)
    → All (λ w. isolated_at < w.acknowledged) late
    → data_loss (writes ++ late) sha isolated_at ≡ data_loss writes sha isolated_at
unfolding data_loss
data_loss-append_late writes late sha iso h = rw (before-append_late iso writes late h)
