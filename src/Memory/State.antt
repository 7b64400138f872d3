-- ===== src/Memory/State.antt =====
-- The objects of memory/memory.go and memory/tree.go, and the store that holds them. A pointer
-- is an address; every object ever made keeps its address, since callers hold on to handles of
-- revoked environments and closed terminals.
use execenv.Base.{ℕ, suc, Bool, Option, List, Bytes, GoMap, ◌==◌, nat_eq, if◌then◌else◌}
use execenv.Errors.{Error, Result}
use execenv.Names.{Network}
use execenv.Paths.{Event}
use execenv.Snapshot.{Snapshot}
use execenv.Watchlog.{Log}

pub record Window : Type 0 where
  pub cols : ℕ
  pub rows : ℕ

-- buf is what was written and not yet read
pub record Terminal : Type 0 where
  pub env : ℕ
  pub buf : Bytes
  pub win : Window
  pub closed : Bool
  pub dead : Option Error

-- queue and room are the buffered channel; spent is `once`, which also closes the channel
pub record Observation : Type 0 where
  pub env : ℕ
  pub cursor : Bytes
  pub queue : List Event
  pub room : ℕ
  pub failed : Option Error
  pub spent : Bool

pub record Environment : Type 0 where
  pub id : Bytes
  pub image : Bytes
  pub network : Network
  pub frozen : Bool
  pub revoked : Bool
  pub term : Option ℕ
  pub files : Snapshot
  pub obs : Option ℕ
  pub log : Log

-- The objects of one kind, at the addresses below `next`.
pub record Heap (A : Type 0) : Type 0 where
  pub next : ℕ
  pub cell : ℕ → A

pub record World : Type 0 where
  pub images : List Bytes
  pub slots : ℕ
  pub unusable : Bool
  pub grants : GoMap Bytes ℕ
  pub envs : Heap Environment
  pub terms : Heap Terminal
  pub observations : Heap Observation

-- What ctx.Err() returns on entry.
abbrev pub Ctx : Type 0
Ctx = Option Error

abbrev pub update : {A : Type 0} → (ℕ → A) → ℕ → A → ℕ → A
update f r a q = if q == r then a else f q

abbrev pub store : {A : Type 0} → Heap A → ℕ → A → Heap A
store h r a = record h { cell = update h.cell r a }

-- `&T{…}`: the address of a new object
abbrev pub fresh : {A : Type 0} → Heap A → A → Heap A
fresh h a = record { next = suc h.next; cell = update h.cell h.next a }

abbrev pub env_at : World → ℕ → Environment
env_at w r = w.envs.cell r

abbrev pub term_at : World → ℕ → Terminal
term_at w t = w.terms.cell t

abbrev pub obs_at : World → ℕ → Observation
obs_at w o = w.observations.cell o

abbrev pub set_env : World → ℕ → Environment → World
set_env w r e = record w { envs = store w.envs r e }

abbrev pub set_term : World → ℕ → Terminal → World
set_term w t x = record w { terms = store w.terms t x }

abbrev pub set_obs : World → ℕ → Observation → World
set_obs w o x = record w { observations = store w.observations o x }

-- The outcome of a call that may change the world.
abbrev pub Outcome : Type 0 → Type 0
Outcome A = Result A × World
