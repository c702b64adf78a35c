-- ===== src/Drill/Seen.antt =====
-- What scripts/drill.py has seen of the services: commands that ended with 0, and workflow runs that the API listed.
use mathlib.Core.List.{Memᴰ}
use k8s_dr.Prelude.{
  ℕ, ◌≡◌, ◌≤◌, refl, subst, String, true, List, [], ◌∷◌, Error, Result, ok, err, drill_failed,
  value_error, no_start, stage_failed, failed, key_error, os_error, runtime_error, out_of_fuel,
  pure, raise, Exec, All, if◌then◌else◌, leb, arith, Bool-cases, inl, inr, ◌==◌, ==_iff,
}
use k8s_dr.Prelude.Keeps.{
  Ensures, OnOk, Ensures-raise, Ensures-catching, Ensures-lift, Ensures-pure, bind-Ensures_value,
}
use k8s_dr.Text.{◌<>◌, leb_text}
use k8s_dr.Watchdog.{Run, Body, is_bot, runs_of}
use k8s_dr.Watchdog
use k8s_dr.Inventory.Loads.{and_then-ok}
use k8s_dr.Recovery.State.{Completed}
use k8s_dr.Drill.State.{Drill, DrillSystem, with_world}
use k8s_dr.Drill.Commands.{
  parse, bot_runs, insert_run, oldest_first, run, runs_since, no_runs, runs_found,
}

-- A command that ended with 0 and printed `stdout`.
pub record Ran {W : Type 0} (sys : DrillSystem W) (argv : List String) (stdout : String)
    : Type 0 where
  pub world : W
  pub completed : Completed
  pub call : (sys.commands.call argv [] world).0 ≡ ok completed
  pub returncode : completed.returncode ≡ 0
  pub printed : completed.stdout ≡ stdout

-- A run of the workflow that GITHUB_TOKEN dispatched, created at or after `since`, in an answer of the API.
pub record Seen {W : Type 0} (sys : DrillSystem W) (workflow : String) (since : ℕ) (run : Run)
    : Type 0 where
  pub world : W
  pub body : Body
  pub runs : List Run
  pub answer :
      (Watchdog.github sys.requests sys.public_host sys.primary_host
        ("actions/workflows/" <> workflow <> "/runs?event=workflow_dispatch&per_page=20")
        world).0
      ≡ ok body
  pub listed : runs_of body ≡ ok runs
  pub member : Memᴰ run runs
  pub bot : is_bot run.actor ≡ true
  pub time : ℕ
  pub created : parse run.created_at ≡ ok time
  pub late : since ≤ time

-- What the selection of the runs keeps of a run.
record Chosen (since : ℕ) (runs : List Run) (run : Run) : Type 0 where
  member : Memᴰ run runs
  bot : is_bot run.actor ≡ true
  time : ℕ
  created : parse run.created_at ≡ ok time
  late : since ≤ time

All-Chosen :
    (since : ℕ) (first : Run) (runs found : List Run)
    → All (Chosen since runs) found
    → All (Chosen since (first ∷ runs)) found
All-Chosen since first runs [] h = tt
All-Chosen since first runs (r ∷ found) h = (
  record {
    member = Memᴰ.tail h.0.member;
    bot = h.0.bot;
    time = h.0.time;
    created = h.0.created;
    late = h.0.late;
  },
  All-Chosen since first runs found h.1,
)

keep_late :
    (since t : ℕ) (first : Run) (runs rest found : List Run)
    → is_bot first.actor ≡ true
    → parse first.created_at ≡ ok t
    → All (Chosen since runs) rest
    → ok (if leb since t then first ∷ rest else rest) ≡ ok found
    → All (Chosen since (first ∷ runs)) found
keep_late since t first runs rest found b c h e = elim (Bool-cases (leb since t)) [
  | inl late ↦
      let q : first ∷ rest ≡ found = ground arith in
      subst (All (Chosen since (first ∷ runs))) q (
        record { member = Memᴰ.head refl; bot = b; time = t; created = c; late = ground arith },
        All-Chosen since first runs rest h,
      )
  | inr early ↦
      let q : rest ≡ found = ground arith in
      subst (All (Chosen since (first ∷ runs))) q (All-Chosen since first runs rest h)
]

bot_runs-Chosen :
    (since : ℕ) (runs found : List Run)
    → bot_runs since runs ≡ ok found
    → All (Chosen since runs) found
unfolding bot_runs
bot_runs-Chosen since [] found e =
    let q : [] ≡ found = ground arith in subst (All (Chosen since [])) q tt
bot_runs-Chosen since (first ∷ runs) found e = elim (Bool-cases (is_bot first.actor)) [
  | inl b ↦
      let (t, et, e1) = and_then-ok (parse first.created_at) _ found (rw b at e) in
      let (rest, er, e2) = and_then-ok (bot_runs since runs) _ found e1 in
      keep_late since t first runs rest found b et (bot_runs-Chosen since runs rest er) e2
  | inr b ↦ All-Chosen since first runs found (bot_runs-Chosen since runs found (rw b at e))
]

module _ (P : Run → Type 0) where
  All-insert_run : (run : Run) (runs : List Run) → P run → All P runs → All P (insert_run run runs)
  unfolding insert_run
  All-insert_run run [] h hs = (h, tt)
  All-insert_run run (other ∷ runs) h hs =
      elim (Bool-cases (leb_text run.created_at other.created_at)) [
        | inl e ↦ rw e (h, hs)
        | inr e ↦ rw e (hs.0, All-insert_run run runs h hs.1)
      ]

  All-oldest_first : (runs : List Run) → All P runs → All P (oldest_first runs)
  unfolding oldest_first
  All-oldest_first [] hs = tt
  All-oldest_first (run ∷ runs) hs =
      All-insert_run run (oldest_first runs) hs.0 (All-oldest_first runs hs.1)

module _ {W A : Type 0} where
  -- The value of an action of the world, with the world that it ran in.
  with_value :
      (f : Exec W A) (w : W) (r : Result A) (m : Drill W)
      → (f w).0 ≡ r
      → OnOk (λ a _. (w : W) × ((f w).0 ≡ ok a)) r m
  with_value f w (ok a) m e = (w, e)
  with_value f w (err x) m e = tt

  Ensures-with_world :
      (f : Exec W A) → Ensures {S = Drill W} (λ a _. (w : W) × ((f w).0 ≡ ok a)) (with_world f)
  unfolding with_world
  Ensures-with_world f = record { at = λ m. with_value f m.world _ _ refl }

module _ {W : Type 0} ⦃sys : DrillSystem W⦄ where
  ended_with :
      (argv : List String) (c : Completed) (w : W)
      → (sys.commands.call argv [] w).0 ≡ ok c
      → Ensures {S = Drill W}
          (λ out _. Ran sys argv out)
          (if c.returncode == 0
            then pure c.stdout
            else raise (drill_failed "the command exited with an error"))
  ended_with argv c w e = elim (Bool-cases (c.returncode == 0)) [
    | inl z ↦ rw z (
        Ensures-pure (Ran sys argv) c.stdout (record {
          world = w;
          completed = c;
          call = e;
          returncode = (==_iff _ _).0 z;
          printed = refl;
        }))
    | inr z ↦ rw z (Ensures-raise _)
  ]

  pub Ensures-run :
      (argv : List String) → Ensures {S = Drill W} (λ out _. Ran sys argv out) (run argv)
  unfolding run
  Ensures-run argv =
      bind-Ensures_value _ _ _ (Ensures-with_world (sys.commands.call argv []))
        (λ c h. ended_with argv c h.0 h.1)

  Chosen-Seen :
      (workflow : String) (since : ℕ) (w : W) (body : Body) (runs : List Run) (found : List Run)
      → (Watchdog.github sys.requests sys.public_host sys.primary_host
          ("actions/workflows/" <> workflow <> "/runs?event=workflow_dispatch&per_page=20")
          w).0
        ≡ ok body
      → runs_of body ≡ ok runs
      → All (Chosen since runs) found
      → All (Seen sys workflow since) found
  Chosen-Seen workflow since w body runs [] a l h = tt
  Chosen-Seen workflow since w body runs (r ∷ found) a l h = (
    record {
      world = w;
      body = body;
      runs = runs;
      answer = a;
      listed = l;
      member = h.0.member;
      bot = h.0.bot;
      time = h.0.time;
      created = h.0.created;
      late = h.0.late;
    },
    Chosen-Seen workflow since w body runs found a l h.1,
  )

  Ensures-runs_since :
      (workflow : String) (since : ℕ)
      → Ensures {S = Drill W}
          (λ found _. All (Seen sys workflow since) found)
          (runs_since workflow since)
  unfolding runs_since
  Ensures-runs_since workflow since = bind-Ensures_value _ _ _ (Ensures-with_world _) (λ body a.
      bind-Ensures_value _ _ _ (Ensures-lift _) (λ runs l.
        bind-Ensures_value _ _ _ (Ensures-lift _) (λ found b. Ensures-pure _ _ (
          All-oldest_first (Seen sys workflow since) found (
            Chosen-Seen workflow since a.0 body runs found a.1 l
              (bot_runs-Chosen since runs found b))))))

  Ensures-no_runs :
      (P : Run → Type 0) (e : Error) → Ensures {S = Drill W} (λ found _. All P found) (no_runs e)
  unfolding no_runs
  Ensures-no_runs P (no_start m) = Ensures-pure (All P) [] tt
  Ensures-no_runs P (drill_failed m) = Ensures-raise _
  Ensures-no_runs P (stage_failed m) = Ensures-raise _
  Ensures-no_runs P (failed m) = Ensures-raise _
  Ensures-no_runs P (value_error m) = Ensures-raise _
  Ensures-no_runs P (key_error m) = Ensures-raise _
  Ensures-no_runs P (os_error m) = Ensures-raise _
  Ensures-no_runs P (runtime_error m) = Ensures-raise _
  Ensures-no_runs P out_of_fuel = Ensures-raise _

  pub Ensures-runs_found :
      (workflow : String) (since : ℕ)
      → Ensures {S = Drill W}
          (λ found _. All (Seen sys workflow since) found)
          (runs_found workflow since)
  unfolding runs_found
  Ensures-runs_found workflow since =
      Ensures-catching _ _ (Ensures-runs_since workflow since) (Ensures-no_runs _)
