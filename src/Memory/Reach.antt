-- ===== src/Memory/Reach.antt =====
-- Every state that memory's Host can reach from New.
use execenv.Base.{ℕ, ◌<◌, ◌≡◌, refl, Bool, false, List, [], Bytes, bytes_eq, lookup, arith, nat_eq}
use execenv.Snapshot.Invariant.{IsProjection-empty}
use execenv.Memory.State.{term_at, obs_at}
use execenv.Memory.Terminal.{finished}
use execenv.Memory.Host.{new_host}
use execenv.Memory.System.{System, Call, run, is_pending}
use execenv.Memory.Safe.{Safe}
use execenv.Memory.Safe.Run.{run-Safe}

-- A Host just made, with no call under way.
abbrev pub start : List Bytes → ℕ → Bool → System
start images slots unusable = record { world = new_host images slots unusable; pending = [] }

start-Safe :
    (images : List Bytes) (slots : ℕ) (unusable : Bool) → Safe (start images slots unusable)
unfolding new_host is_pending lookup
start-Safe images slots unusable = record {
  inv = record {
    distinct = tt;
    bounded = ground arith;
    named = λ id r h. ground arith;
    projected = λ q. IsProjection-empty;
    term_held = λ q t h. ground arith;
    term_live = λ t lt h. ground arith;
    obs_held = λ q o h. ground arith;
    obs_live = λ o lt h. ground arith;
    unmade = λ q le. (refl, refl);
  };
  waiting = λ r h. ground arith;
  tracked = λ r lt live. ground arith;
}

module _ (images : List Bytes) (slots : ℕ) (unusable : Bool) (cs : List Call) where
  -- However the calls of any goroutines interleave, from New on: each id has one grant at most and
  -- there are no more grants than slots; a granted environment carries its grant's id and is not
  -- revoked; every file is under a valid path and within the size limit; a usable terminal or a live
  -- observation is the one its environment holds; an environment that Revoke has removed and not yet
  -- revoked is not reachable by any id; and every environment ever made is granted under its id,
  -- about to be revoked, or revoked.
  pub run-start-Safe : Safe (run (start images slots unusable) cs)
  run-start-Safe = run-Safe (start images slots unusable) cs (start-Safe images slots unusable)

  -- In every state reached from New, two terminals of one environment that are both still usable
  -- (neither closed nor killed) are the same terminal.
  pub one_usable_terminal :
      (t u : ℕ)
      → let w = (run (start images slots unusable) cs).world in
        t < w.terms.next
        → u < w.terms.next
        → finished (term_at w t) ≡ false
        → finished (term_at w u) ≡ false
        → (term_at w t).env ≡ (term_at w u).env
        → t ≡ u
  one_usable_terminal t u lt lu live live' owner = ground (
    arith,
    run-start-Safe.inv.term_live t lt live,
    run-start-Safe.inv.term_live u lu live',
    owner,
  )

  -- In every state reached from New, two observations of one environment that have both not failed
  -- are the same observation.
  pub one_live_observation :
      (o p : ℕ)
      → let w = (run (start images slots unusable) cs).world in
        o < w.observations.next
        → p < w.observations.next
        → (obs_at w o).spent ≡ false
        → (obs_at w p).spent ≡ false
        → (obs_at w o).env ≡ (obs_at w p).env
        → o ≡ p
  one_live_observation o p lo lp live live' owner =
      ground (
        arith,
        run-start-Safe.inv.obs_live o lo live,
        run-start-Safe.inv.obs_live p lp live',
        owner,
      )
