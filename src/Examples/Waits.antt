-- ===== src/Examples/Waits.antt =====
-- A listing of backup sets.
use k8s_dr.Prelude.{◌≡◌, ◌↔◌, String, List, [], ◌∷◌, ok, All}
use k8s_dr.Recovery.Commands.{check_sets}
use k8s_dr.Recovery.Sets.{WrittenBefore, check_sets_iff}

abbrev listing : List String
listing = "20260501T113000Z" ∷ "20260501T114500Z" ∷ []

check_sets_iff_example :
    (check_sets 63913017600 listing ≡ ok tt) ↔ All (WrittenBefore 63913017600) listing
check_sets_iff_example = check_sets_iff 63913017600 listing
