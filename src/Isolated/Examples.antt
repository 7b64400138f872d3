-- ===== src/Isolated/Examples.antt =====
-- The theorems on the isolated host: a grant is reserved, starts, and is revoked meanwhile.
use execenv.Base.{
  ◌≡◌, refl, true, false, some, none, List, [], ◌∷◌, codes, lookup, insert, bytes_beq,
}
use execenv.Errors.{ok}
use execenv.Names.{Spec, network_none}
use execenv.Isolated.{Guest, IsolatedHost, reserve, complete, wait_ensure}
use execenv.Isolated.Invariant.{Inv}
use execenv.Isolated.Run.{
  Section, section_reserve, section_complete, section_revoke, is_started, start, step, run,
  run-start-Inv,
}
use execenv.Isolated.Waiters.{wait_ensure-complete}

abbrev shell : Spec
shell = record { id = codes "env-1"; image = codes "base"; network = network_none }

abbrev guest : Guest
guest = record { image = codes "base"; network = network_none }

abbrev busy_morning : List Section
busy_morning =
    section_reserve shell true none
    ∷ section_revoke (codes "env-1")
    ∷ section_complete 0 (ok guest)
    ∷ section_revoke (codes "env-1")
    ∷ []

abbrev starting : IsolatedHost
starting = run (start (codes "base" ∷ []) 1 false) (section_reserve shell true none ∷ [])

starting-Inv : Inv starting
starting-Inv = run-start-Inv (codes "base" ∷ []) 1 false (section_reserve shell true none ∷ [])

is_started-starting : is_started starting 0 ≡ true
unfolding run step reserve lookup insert bytes_beq
is_started-starting = refl

wait_ensure-complete_example :
    let (result, h') = complete starting 0 (ok guest) in
    wait_ensure (run h' (section_revoke (codes "env-1") ∷ [])) none true 0 ≡ some result
wait_ensure-complete_example =
    wait_ensure-complete starting 0 (ok guest) (section_revoke (codes "env-1") ∷ []) true
      starting-Inv is_started-starting
