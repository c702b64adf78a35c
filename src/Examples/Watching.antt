-- ===== src/Examples/Watching.antt =====
-- A run of the watchdog.
use k8s_dr.Prelude.{ℕ, ◌+◌, ◌≡◌, ◌⊎◌, String, some, none, [], ok, true}
use k8s_dr.Watchdog.{System, Response, Body, Command, main}
use k8s_dr.Watchdog.Dispatch.{with_post, AllHold, main-with_post}

abbrev quiet : System ℕ
quiet = record {
  environ = [];
  get = λ url w. (record { status = none; body = Body.other }, w);
  post = λ url w. (record { status = some 204; body = Body.other }, w + 1);
  access_token = λ w. (ok "t", w);
  now = λ w. (w, w);
}

abbrev counted : String → ℕ → Response × ℕ
counted url w = (record { status = some 500; body = Body.other }, w + 100)

main-with_post_example :
    (main
        (with_post quiet counted)
        "git.example.org"
        "git-primary.example.org"
        (Command.confirm true)
        7
      ≡ main quiet "git.example.org" "git-primary.example.org" (Command.confirm true) 7)
    ⊎ ((Command.confirm true ≡ Command.confirm true)
        × AllHold quiet counted "git.example.org" "git-primary.example.org")
main-with_post_example =
    main-with_post quiet counted "git.example.org" "git-primary.example.org" (Command.confirm true)
      7
