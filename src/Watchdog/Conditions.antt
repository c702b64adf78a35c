-- ===== src/Watchdog/Conditions.antt =====
-- What scripts/watchdog.py has seen where its conditions let a recovery start.
use k8s_dr.Prelude.{
  ℕ, ◌+◌, ◌-◌, ◌≡◌, refl, String, Bool, true, false, not, ◌||◌, Error, lift, raise_if, ◌>>=◌, List,
  [], Result, ok, err, Exec, any, arith,
}
use k8s_dr.Prelude.Keeps.{
  Ensures, OnOk, Ensures-lift, Ensures-raise_if, Ensures-map, bind-Ensures_value, OnOk-weaken,
}
use k8s_dr.Text.{◌<>◌, same_texts}
use k8s_dr.Watchdog.Checkers.{Series, every_checker_failed, window, lag}
use k8s_dr.Watchdog.{
  System, Body, Run, Command, env_get, is_text, is_status, is_active, runs_of, blocks, github,
  resolve, require_switch, require_no_answer, require_unreachable, require_public_name_on_primary,
  require_no_recovery, uptime_series, require_every_checker_failed, local, conditions,
}

module _ {W : Type 0} (sys : System W) (public_host primary_host : String) where
  -- A host whose health check did not answer with 200.
  abbrev pub IsDown : String → Type 0
  IsDown host =
      (w : W) × (is_status (sys.get ("https://" <> host <> "/api/healthz") w).0.status 200 ≡ false)

  -- The addresses that the resolver gave for a host.
  abbrev pub Resolved : String → List String → Type 0
  Resolved host addresses =
      (w : W) × ((resolve sys public_host primary_host host w).0 ≡ ok addresses)

  -- The newest runs of a workflow, as the API listed them.
  abbrev pub Listed : String → List Run → Type 0
  Listed workflow runs =
      (w : W) × (body : Body) × ((github sys public_host primary_host
          ("actions/workflows/" <> workflow <> "/runs?per_page=20") w).0
        ≡ ok body)
      × (runs_of body ≡ ok runs)

  -- The conditions 2 to 4: the switch, both hosts down, the public name on the primary, and no other run.
  pub record Local : Type 0 where
    pub switch : is_text (env_get "AUTO_FAILOVER" sys.environ) "true" ≡ true
    pub public_down : IsDown public_host
    pub primary_down : IsDown primary_host
    pub public : List String
    pub primary : List String
    pub public_resolved : Resolved public_host public
    pub primary_resolved : Resolved primary_host primary
    pub has_address : same_texts public [] ≡ false
    pub same_address : same_texts public primary ≡ true
    pub recoveries : List Run
    pub returns : List Run
    pub recoveries_listed : Listed "recover.yml" recoveries
    pub returns_listed : Listed "return.yml" returns
    pub no_recovery : any is_active recoveries ≡ false
    pub no_block : blocks recoveries returns ≡ false
    pub no_return : any is_active returns ≡ false

  -- What every checker of the uptime check reported.
  pub record Checked : Type 0 where
    pub end : ℕ
    pub series : List Series
    pub clock : (w : W) × ((sys.now w).0 ≡ end)
    pub read :
        (w : W) × ((uptime_series sys public_host primary_host (end - (window + lag)) end w).0
          ≡ ok series)
    pub failed : every_checker_failed end series ≡ ok tt

module _ {W A : Type 0} where
  value_of_action :
      (f : Exec W A) (w v : W) (r : Result A)
      → (f w).0 ≡ r
      → OnOk (λ a _. (w : W) × ((f w).0 ≡ ok a)) r v
  value_of_action f w v (ok a) e = (w, e)
  value_of_action f w v (err x) e = tt

  -- The value of an action, with the world that it ran in.
  Ensures-itself : (f : Exec W A) → Ensures {S = W} (λ a _. (w : W) × ((f w).0 ≡ ok a)) f
  Ensures-itself f = record { at = λ w. value_of_action f w _ _ refl }

module _ {W : Type 0} (sys : System W) (public_host primary_host : String) where
  Ensures-require_switch :
      Ensures {S = W}
        (λ _ _. not (is_text (env_get "AUTO_FAILOVER" sys.environ) "true") ≡ false)
        (require_switch sys public_host primary_host)
  unfolding require_switch
  Ensures-require_switch = Ensures-raise_if _ _

  Ensures-require_no_answer :
      (host : String)
      → Ensures {S = W}
          (λ _ _. IsDown sys public_host primary_host host)
          (require_no_answer sys public_host primary_host host)
  unfolding require_no_answer
  Ensures-require_no_answer host = record {
    at = λ w.
        OnOk-weaken _ (λ _ _. IsDown sys public_host primary_host host) _ _ (λ _ _ h. (w, h))
          ((Ensures-raise_if _ _).at _);
  }

  Ensures-require_unreachable :
      Ensures {S = W}
        (λ _ _.
          IsDown sys public_host primary_host public_host
          × IsDown sys public_host primary_host primary_host)
        (require_unreachable sys public_host primary_host)
  unfolding require_unreachable ◌>>=◌
  Ensures-require_unreachable =
      bind-Ensures_value (λ _. IsDown sys public_host primary_host public_host)
        (require_no_answer sys public_host primary_host public_host)
        (λ _. require_no_answer sys public_host primary_host primary_host)
        (Ensures-require_no_answer public_host)
        (λ _ h. Ensures-map _ _ _ (λ k. (h, k)) (Ensures-require_no_answer primary_host))

  name_checked :
      (public primary : List String) (e : Error)
      → Ensures {S = W}
          (λ _ _. (same_texts public [] ≡ false) × (same_texts public primary ≡ true))
          (raise_if (same_texts public [] || not (same_texts public primary)) e)
  name_checked public primary e =
      Ensures-map _ _ _ (λ h. (ground arith, ground arith)) (Ensures-raise_if _ e)

  abbrev Named : Type 0
  Named =
      (public : List String) × (primary : List String) × Resolved sys public_host primary_host
        public_host public
      × Resolved sys public_host primary_host primary_host primary
      × (same_texts public [] ≡ false)
      × (same_texts public primary ≡ true)

  Ensures-named :
      Ensures {S = W} (λ _ _. Named) (require_public_name_on_primary sys public_host primary_host)
  unfolding require_public_name_on_primary ◌>>=◌
  Ensures-named =
      bind-Ensures_value (Resolved sys public_host primary_host public_host)
        (resolve sys public_host primary_host public_host) _
        (Ensures-itself (resolve sys public_host primary_host public_host))
        (λ public p.
          bind-Ensures_value (Resolved sys public_host primary_host primary_host)
            (resolve sys public_host primary_host primary_host) _
            (Ensures-itself (resolve sys public_host primary_host primary_host))
            (λ primary q.
              Ensures-map _ Named _ (λ h. (public, primary, p, q, h.0, h.1))
                (name_checked public primary _)))

  abbrev Quiet : Type 0
  Quiet =
      (recoveries : List Run) × (returns : List Run) × Listed sys public_host primary_host
        "recover.yml" recoveries
      × Listed sys public_host primary_host "return.yml" returns
      × (any is_active recoveries ≡ false)
      × (blocks recoveries returns ≡ false)
      × (any is_active returns ≡ false)

  Ensures-quiet : Ensures {S = W} (λ _ _. Quiet) (require_no_recovery sys public_host primary_host)
  unfolding require_no_recovery ◌>>=◌ ◌<>◌
  Ensures-quiet =
      bind-Ensures_value _
        (github sys public_host primary_host "actions/workflows/recover.yml/runs?per_page=20") _
        (Ensures-itself _)
        (λ body a. bind-Ensures_value _ (lift (runs_of body)) _ (Ensures-lift _) (λ recoveries l.
          bind-Ensures_value (λ _. any is_active recoveries ≡ false)
            (raise_if (any is_active recoveries) _) _ (Ensures-raise_if _ _)
            (λ _ n.
              bind-Ensures_value _
                (github sys public_host primary_host
                  "actions/workflows/return.yml/runs?per_page=20")
                _ (Ensures-itself _)
                (λ body' a'.
                  bind-Ensures_value _ (lift (runs_of body')) _ (Ensures-lift _) (λ returns l'.
                    bind-Ensures_value (λ _. blocks recoveries returns ≡ false)
                      (raise_if (blocks recoveries returns) _) _ (Ensures-raise_if _ _)
                      (λ _ b.
                        Ensures-map _ Quiet _
                          (λ r. (
                            recoveries,
                            returns,
                            (a.0, body, a.1, l),
                            (a'.0, body', a'.1, l'),
                            n,
                            b,
                            r,
                          ))
                          (Ensures-raise_if _ _)))))))

  Ensures-local :
      Ensures {S = W}
        (λ _ _. Local sys public_host primary_host)
        (local sys public_host primary_host)
  unfolding local ◌>>=◌
  Ensures-local =
      bind-Ensures_value _ (require_switch sys public_host primary_host) _ Ensures-require_switch
        (λ _ s.
          bind-Ensures_value _ (require_unreachable sys public_host primary_host) _
            Ensures-require_unreachable
            (λ _ u.
              bind-Ensures_value _ (require_public_name_on_primary sys public_host primary_host) _
                Ensures-named
                (λ _ n.
                  Ensures-map _ (Local sys public_host primary_host) _
                    (λ q. record {
                      switch = ground arith;
                      public_down = u.0;
                      primary_down = u.1;
                      public = n.0;
                      primary = n.1;
                      public_resolved = n.2;
                      primary_resolved = n.3;
                      has_address = n.4;
                      same_address = n.5;
                      recoveries = q.0;
                      returns = q.1;
                      recoveries_listed = q.2;
                      returns_listed = q.3;
                      no_recovery = q.4;
                      no_block = q.5;
                      no_return = q.6;
                    })
                    Ensures-quiet)))

  Ensures-itself_now :
      Ensures {S = W}
        (λ t _. (w : W) × ((sys.now w).0 ≡ t))
        (λ w. (ok (sys.now w).0, (sys.now w).1))
  Ensures-itself_now = record { at = λ w. (w, refl) }

  Ensures-checked :
      Ensures {S = W}
        (λ _ _. Checked sys public_host primary_host)
        (require_every_checker_failed sys public_host primary_host)
  unfolding require_every_checker_failed ◌>>=◌
  Ensures-checked =
      bind-Ensures_value _ (λ w. (ok (sys.now w).0, (sys.now w).1)) _ Ensures-itself_now
        (λ end c.
          bind-Ensures_value _
            (uptime_series sys public_host primary_host (end - (window + lag)) end) _
            (Ensures-itself _)
            (λ series s.
              Ensures-lifted end series
                (λ f. record { end = end; series = series; clock = c; read = s; failed = f })))
    where
      Ensures-lifted :
          (end : ℕ) (series : List Series)
          → (every_checker_failed end series ≡ ok tt → Checked sys public_host primary_host)
          → Ensures {S = W}
              (λ _ _. Checked sys public_host primary_host)
              (lift (every_checker_failed end series))
      Ensures-lifted end series k = record {
        at = λ s.
            OnOk-weaken (λ a _. every_checker_failed end series ≡ ok a)
              (λ _ _. Checked sys public_host primary_host) _ _ (λ a _ h. k h)
              ((Ensures-lift _).at s);
      }

  pub Ensures-conditions :
      (start : Bool)
      → Ensures {S = W}
          (λ _ _. Local sys public_host primary_host × Checked sys public_host primary_host)
          (conditions sys public_host primary_host (Command.confirm start))
  unfolding conditions ◌>>=◌
  Ensures-conditions start =
      bind-Ensures_value _ (local sys public_host primary_host) _ Ensures-local
        (λ _ l. Ensures-map _ _ _ (λ c. (l, c)) Ensures-checked)
