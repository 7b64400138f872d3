-- ===== src/Agent/Client/Observe.antt =====
-- agent/client.go, clientObs: the methods of one observation, on the object itself.
use execenv.Base.{
  ℕ, Bool, true, false, none, some, List, [], ◌∷◌, ◌++◌, Bytes, codes, length, ltb, ◌==◌, bytes_eq,
  if◌then◌else◌,
}
use execenv.Errors.{Error, sentinel, op_error, closed, ok, err}
use execenv.Paths.{Event}
use execenv.Memory.State.{Ctx}
use execenv.Memory.Observe.{NextResult, waits, returns}
use execenv.Agent.Client.{ClientObs}
use execenv.Watchlog.{default_capacity}

abbrev pub new_obs : ℕ → Bytes → ClientObs
new_obs stream cursor = record {
  stream = stream;
  queue = [];
  errc = none;
  spent = false;
  cursor = cursor;
  failed = none;
}

unfoldable pub set_initial_cursor : Bytes → Bytes → ClientObs → ClientObs
set_initial_cursor cursor after o = if o.cursor == after then record o { cursor = cursor } else o

-- clientObs.fail: under `once`, so the channel of one error has room.
unfoldable pub fail : Error → ClientObs → ClientObs
fail e o = if o.spent then o else record o { failed = some e; errc = some e; spent = true }

pub data Pushed : Type 0 where
  stored : ClientObs → Pushed
  overflows : Pushed
  panics : Pushed

-- The select of clientObs.push: a send on the channel that `fail` has closed panics.
unfoldable pub push : Event → ClientObs → Pushed
push ev o =
    if o.spent
    then panics
    else if ltb (length o.queue) default_capacity
    then stored (record o { queue = o.queue ++ ev ∷ [] })
    else overflows

-- The last select of Next: the error is taken from its channel once.
abbrev pub take_error : ClientObs → NextResult × ClientObs
take_error o = elim o.errc [
  | some e ↦ (returns (err (op_error (codes "watch") e)), record o { errc = none })
  | none ↦ (returns (err (op_error (codes "watch") (sentinel closed))), o)
]

abbrev pub next_received : List Event → ClientObs → NextResult × ClientObs
next_received [] o = if o.spent then take_error o else (waits, o)
next_received (ev ∷ rest) o = (returns (ok ev), record o { queue = rest; cursor = ev.cursor })

abbrev pub is_ready : ClientObs → Bool
is_ready o = elim o.queue [ [] ↦ o.spent | ev ∷ rest ↦ true ]

abbrev pub next_select : Ctx → Bool → ClientObs → NextResult × ClientObs
next_select none chosen o = next_received o.queue o
next_select (some e) chosen o =
    if is_ready o
    then (if chosen
        then (returns (err (op_error (codes "watch") e)), o)
        else next_received o.queue o)
    else (returns (err (op_error (codes "watch") e)), o)

-- clientObs.Next. `chosen` is whether select takes the context's branch where both are ready.
unfoldable pub next_event : Ctx → Bool → ClientObs → NextResult × ClientObs
next_event ctx chosen o = elim o.failed [
  | some e ↦ (returns (err (op_error (codes "watch") e)), o)
  | none ↦ next_select ctx chosen o
]
