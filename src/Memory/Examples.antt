-- ===== src/Memory/Examples.antt =====
-- The theorems on memory's host at small inputs: a host of one slot and one image, and calls that
-- make, use, freeze and revoke an environment.
use execenv.Base.{
  split, contains_byte, bytes_eq, insert, bytes_beq, ◌-◌, suc, length, ◌≢◌, true, ◌<◌, ℕ, ◌≡◌, refl,
  false, List, [], ◌∷◌, none, some, Bytes, codes, arith, lookup, valid_string,
}
use execenv.Errors.{ok, frozen}
use execenv.Names.{Spec, validate_name, name_bytes, name_byte, network_none, validate_spec}
use execenv.Watchlog.{since, new_log}
use execenv.Memory.State.{Window, World, env_at, term_at, obs_at}
use execenv.Memory.Terminal.{default_window, finished, new_terminal}
use execenv.Memory.Env.{attach, watch}
use execenv.Memory.Host.{revoke, has_image, ensure_locked, ensure, new_host}
use execenv.Memory.System.{
  System, Call, call_ensure, call_detach, call_finish, call_attach, call_watch, run, step,
}
use execenv.Memory.Safe.{Safe}
use execenv.Paths.{validate_path, has_suffix_slash, has_prefix_slash, check_segment, check_segments}
use execenv.Memory.Quiet.Run.{usable_when_running}
use execenv.Memory.Grants.{revoke-frees}
use execenv.Memory.Invariant.{Inv}
use execenv.Memory.Reach.{start, run-start-Safe}

abbrev shell : Spec
shell = record { id = codes "env-1"; image = codes "base"; network = network_none }

abbrev window : Window
window = record { cols = 80; rows = 24 }

abbrev host : System
host = start (codes "base" ∷ []) 1 false

abbrev opened : List Call
opened =
    call_ensure none shell (codes "9f03") ∷ call_attach none 0 window ∷ call_watch none 0 [] ∷ []

abbrev torn_down : List Call
torn_down = call_detach (codes "env-1") ∷ call_finish 0 ∷ []

run-start-Safe_example : Safe (run host opened)
run-start-Safe_example = run-start-Safe (codes "base" ∷ []) 1 false opened

abbrev world : World
world = (run host opened).world

facts :
    (world.envs.next ≡ 1)
    × (world.terms.next ≡ 1)
    × (world.observations.next ≡ 1)
    × (finished (term_at world 0) ≡ false)
    × ((obs_at world 0).spent ≡ false)
    × ((env_at world 0).revoked ≡ false)
    × ((env_at world 0).term ≡ some 0)
    × ((env_at world 0).obs ≡ some 0)
    × (lookup (codes "env-1") world.grants ≡ some 0)
    × ((env_at world 0).frozen ≡ false)
    × (validate_path (codes "notes/a.md") ≡ ok tt)
unfolding validate_path has_prefix_slash contains_byte has_suffix_slash split check_segments
    check_segment run step ensure attach watch validate_spec validate_name name_bytes name_byte
    valid_string lookup insert bytes_beq new_host finished new_terminal has_image since new_log
    ensure_locked default_window
facts = (refl, refl, refl, refl, refl, refl, refl, refl, refl, refl, refl)

made : 0 < world.terms.next
made = omega (arith, facts.1)

watched : 0 < world.observations.next
watched = omega (arith, facts.2)

world_Inv : Inv world
world_Inv = run-start-Safe_example.inv

usable_when_running_example :
    let w = (run (start (codes "base" ∷ []) 1 false) opened).world in
    ((t : ℕ)
      → t < w.terms.next
      → finished (term_at w t) ≡ false
      → ((env_at w (term_at w t).env).frozen ≡ false)
        × ((env_at w (term_at w t).env).revoked ≡ false))
    × ((o : ℕ)
        → o < w.observations.next
        → (obs_at w o).spent ≡ false
        → ((env_at w (obs_at w o).env).frozen ≡ false)
          × ((env_at w (obs_at w o).env).revoked ≡ false))
usable_when_running_example = usable_when_running (codes "base" ∷ []) 1 false opened

revoke-frees_example :
    let w' = (revoke world none (codes "env-1")).1 in
    (lookup (codes "env-1") w'.grants ≡ none)
    × ((other : Bytes) → other ≢ codes "env-1" → lookup other w'.grants ≡ lookup other world.grants)
    × ((env_at w' 0).revoked ≡ true)
    × (w'.slots - length w'.grants ≡ suc (world.slots - length world.grants))
revoke-frees_example = revoke-frees world (codes "env-1") 0 world_Inv facts.8
