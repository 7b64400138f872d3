-- ===== src/Memory/GrantExamples.antt =====
-- The theorems on grants and terminals at small inputs: a host of one slot that has granted
-- nothing, and one that has granted an id, revoked it and granted it anew.
use execenv.Base.{
  bytes_eq, insert, delete, bytes_beq, true, ◌≡◌, refl, ◌++◌, nat_eq, false, List, [], ◌∷◌, none,
  some, codes, arith, lookup, valid_string,
}
use execenv.Errors.{ok, sentinel, revoked}
use execenv.Names.{
  Spec, validate_name, name_bytes, name_byte, network_none, network_allowlist, validate_spec,
}
use execenv.Watchlog.{new_log}
use execenv.Memory.State.{Window, World, env_at}
use execenv.Memory.Terminal.{new_terminal}
use execenv.Memory.Terminal.Stream.{Use, use_write, use_read, use_close, use_all, use_all-Fifo}
use execenv.Memory.Env.{attach, revoke_env, drop_term, fail_watch}
use execenv.Memory.Host.{Report, new_host, ensure, ensure_locked, has_image, detach, revoke_handle}
use execenv.Memory.System.{
  System, call_ensure, call_detach, call_finish, run, step, is_pending, forget,
}
use execenv.Memory.Reach.{start}
use execenv.Memory.Handles.{RefusesAll}
use execenv.Memory.Grants.{revoke_handle-stale}
use execenv.Memory.Forever.{run-RefusesAll}

abbrev shell : Spec
shell = record { id = codes "env-1"; image = codes "base"; network = network_none }

abbrev window : Window
window = record { cols = 80; rows = 24 }

abbrev host : System
host = start (codes "base" ∷ []) 1 false

abbrev one_free : Report
one_free = record {
  usable = true;
  images = codes "base" ∷ [];
  networks = network_none ∷ network_allowlist ∷ [];
  slots = 1;
}

abbrev granted : World
granted = (ensure host.world none shell (codes "9f03")).1

granted-ok : ensure host.world none shell (codes "9f03") ≡ (ok 0, granted)
unfolding ensure ensure_locked lookup new_host has_image bytes_beq validate_spec validate_name
    name_bytes name_byte valid_string
granted-ok = refl

abbrev unknown : Spec
unknown = record shell { image = codes "other" }

-- The id granted, revoked, and granted anew: the first environment is at 0, the second at 1.
abbrev again : System
again = run host (
    call_ensure none shell (codes "9f03")
    ∷ call_detach (codes "env-1")
    ∷ call_finish 0
    ∷ call_ensure none shell (codes "c71a")
    ∷ [])

again_facts :
    (again.world.envs.next ≡ 2)
    × ((env_at again.world 0).revoked ≡ true)
    × (lookup (env_at again.world 0).id again.world.grants ≡ some 1)
unfolding run step ensure detach revoke_env drop_term fail_watch is_pending forget validate_spec
    validate_name name_bytes name_byte valid_string lookup insert delete bytes_beq new_host
    has_image new_log ensure_locked
again_facts = (refl, refl, refl)

revoke_handle-stale_example :
    let w' = (revoke_handle again.world none 0).1 in
    ((env_at w' 1).revoked ≡ true) × (env_at w' 0 ≡ env_at again.world 0)
revoke_handle-stale_example =
    revoke_handle-stale again.world 0 1 again_facts.2 (λ e. omega (arith, e))

run-RefusesAll_example :
    RefusesAll (run again (call_ensure none shell (codes "77") ∷ [])).world 0 (sentinel revoked)
run-RefusesAll_example =
    run-RefusesAll again (call_ensure none shell (codes "77") ∷ []) 0 (omega (arith, again_facts.0))
      again_facts.1

abbrev with_terminal : World
with_terminal = (attach granted none 0 window).1

abbrev dialogue : List Use
dialogue =
    use_write (codes "ls") ∷ use_read 1 ∷ use_write (codes "pwd") ∷ use_read 3 ∷ use_close ∷ []

use_all-Fifo_example :
    [] ++ (use_all (new_terminal 0 window) dialogue).0.0
    ≡ (use_all (new_terminal 0 window) dialogue).0.1
      ++ (use_all (new_terminal 0 window) dialogue).1.buf
unfolding new_terminal
use_all-Fifo_example = use_all-Fifo (new_terminal 0 window) dialogue
