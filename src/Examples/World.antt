-- ===== src/Examples/World.antt =====
-- A small world for the runs: every command prints a space, every request is answered with 200, and
-- the clock moves with the sleeps.
use k8s_dr.Prelude.{ℕ, ◌+◌, none, some, [], ◌∷◌, ok, take}
use k8s_dr.Recovery.State.{State, Machine, System, no_values}
use k8s_dr.Recovery.Run.{Stage, stages}
use k8s_dr.Return.Run.{Phase, phases}

abbrev pub small_system : System ℕ
small_system = record {
  call = λ argv env w. (ok (record { returncode = 0; stdout = "t"; stderr = "" }), w);
  http_status = λ url w. (some 200, w);
  local_addresses = λ host w. ("t" ∷ [], w);
  sleep = λ n w. w + n;
  now = λ w. (w, w);
  decode_plan = λ text. ok [];
  decode_map = λ text. ok [];
  read_inventory = λ w. ok (record { instance_name = "n"; zone = "z"; project = "p" });
  recovery_host = "git-dr.example.org";
  public_host = "git.example.org";
  primary_host = "git-primary.example.org";
}

-- A run that is resumed behind its first two stages.
abbrev pub resumed : Machine ℕ Stage
resumed = record {
  world = 63913017600;
  state = record {
    started = some "2026-05-01T12:00:00Z";
    passed = take 2 stages;
    values = no_values;
  };
  saved = none;
  timeline = "";
}

-- A recovery that is complete, and a return behind its first stage.
abbrev pub recovered : State Stage
recovered = record {
  started = some "2026-05-01T12:00:00Z";
  passed = stages;
  values = record no_values { recovery_address = some "t" };
}

abbrev pub returned : Machine ℕ Phase
returned = record {
  world = 63913020000;
  state = record {
    started = some "2026-05-01T13:00:00Z";
    passed = take 1 phases;
    values = no_values;
  };
  saved = none;
  timeline = "";
}
