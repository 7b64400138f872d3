-- ===== src/Memory/Observe.antt =====
-- The methods of memory/tree.go's observation, on the object itself.
use execenv.Base.{
  Bool, true, false, Option, none, some, List, [], ◌∷◌, ◌++◌, codes, length, ltb, if◌then◌else◌,
}
use execenv.Errors.{Error, sentinel, op_error, closed, Result, ok, err}
use execenv.Paths.{Event}
use execenv.Memory.State.{Observation, Ctx}

-- observation.fail: the first reason stays
unfoldable pub fail_obs : Error → Observation → Observation
fail_obs reason o = if o.spent then o else record o { failed = some reason; spent = true }

-- `o.events <- event` under select: whether the channel had room
unfoldable pub offer : Event → Observation → Bool × Observation
offer event o =
    if ltb (length o.queue) o.room
    then (true, record o { queue = o.queue ++ event ∷ [] })
    else (false, o)

pub data NextResult : Type 0 where
  waits : NextResult
  returns : Result Event → NextResult

abbrev pub next_failed : Option Error → Error
next_failed none = sentinel closed
next_failed (some e) = e

abbrev pub next_received : List Event → Observation → NextResult × Observation
next_received [] o =
    if o.spent
    then (returns (err (op_error (codes "watch") (next_failed o.failed))), o)
    else (waits, o)
next_received (event ∷ rest) o =
    (returns (ok event), record o { queue = rest; cursor = event.cursor })

abbrev pub is_ready : Observation → Bool
is_ready o = elim o.queue [ [] ↦ o.spent | event ∷ rest ↦ true ]

abbrev pub next_select : Ctx → Bool → Observation → NextResult × Observation
next_select none chosen o = next_received o.queue o
next_select (some e) chosen o =
    if is_ready o
    then (if chosen
        then (returns (err (op_error (codes "watch") e)), o)
        else next_received o.queue o)
    else (returns (err (op_error (codes "watch") e)), o)

-- Observation.Next. Where the context has ended and the channel is ready too, `select` may take
-- either branch: `chosen` says whether it took the context's.
unfoldable pub next_event : Ctx → Bool → Observation → NextResult × Observation
next_event ctx chosen o = elim o.failed [
  | some e ↦ (returns (err (op_error (codes "watch") e)), o)
  | none ↦ next_select ctx chosen o
]
