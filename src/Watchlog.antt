-- ===== src/Watchlog.antt =====
-- internal/watchlog/watchlog.go: a bounded replay window for guest-originated events.
-- A stream generation's epoch is drawn at random; here it is an argument.
pub mod Invariant
pub mod Resume
pub mod Replay
pub mod NoGap
mod Examples
use execenv.Base.{
  ℕ, suc, ◌+◌, ◌-◌, ◌%◌, ◌^◌, Bool, true, false, not, ◌||◌, Option, none, some, List, [], ◌∷◌, ◌++◌,
  Bytes, length, drop, ltb, ◌==◌, nat_eq, bytes_eq, format_uint, parse_uint, cut, if◌then◌else◌,
}
use execenv.Errors.{Result, ok, fail, lagged}
use execenv.Paths.{Event, max_cursor_bytes}

abbrev pub default_capacity : ℕ
default_capacity = 64

pub record Log : Type 0 where
  pub epoch : Bytes
  pub next : ℕ
  pub capacity : ℕ
  pub events : List Event

abbrev pub u64_mod : ℕ
u64_mod = 2 ^ 64

-- watchlog.New; a capacity of 0 or less means the default
unfoldable pub new_log : Bytes → ℕ → Log
new_log epoch capacity = record {
  epoch = epoch;
  next = 0;
  capacity = if capacity == 0 then default_capacity else capacity;
  events = [];
}

-- Log.Reset
unfoldable pub reset : Bytes → Log → Log
reset epoch l = record l { epoch = epoch; next = 0; events = [] }

unfoldable pub make_cursor : Bytes → ℕ → Bytes
make_cursor epoch seq = epoch ++ b':' ∷ format_uint seq

-- if len(events) > capacity { keep the last capacity }
unfoldable pub keep_last : ℕ → List Event → List Event
keep_last capacity events =
    if ltb capacity (length events) then drop (length events - capacity) events else events

-- Log.Append: the event as stored, and the log after it
unfoldable pub append : Event → Log → Event × Log
append event l =
    let next' = (l.next + 1) % u64_mod in
    let stored = record event { cursor = make_cursor l.epoch next' } in
    (stored, record l { next = next'; events = keep_last l.capacity (l.events ++ stored ∷ []) })

-- Log.Current
unfoldable pub current : Log → Bytes
current l = make_cursor l.epoch l.next

abbrev pub parse_parts : Option (Bytes × Bytes) → Option (Bytes × ℕ)
parse_parts none = none
parse_parts (some (epoch, raw)) =
    if epoch == [] || raw == []
    then none
    else elim (parse_uint raw) [ none ↦ none | some seq ↦ some (epoch, seq) ]

unfoldable pub parse_cursor : Bytes → Option (Bytes × ℕ)
parse_cursor cursor = parse_parts (cut b':' cursor)

-- Log.Since after the cursor is parsed
abbrev pub since_parsed : Log → Bytes → Option (Bytes × ℕ) → Result (Bytes × List Event)
since_parsed l cursor none = fail lagged
since_parsed l cursor (some (epoch, seq)) =
    if not (epoch == l.epoch) || ltb l.next seq
    then fail lagged
    else let oldest = (l.next + u64_mod - length l.events) % u64_mod in
      if ltb seq oldest then fail lagged else ok (cursor, drop (seq - oldest) l.events)

-- Log.Since: the observation's starting cursor and the events strictly after it
unfoldable pub since : Log → Bytes → Result (Bytes × List Event)
since l cursor =
    if cursor == []
    then ok (current l, [])
    else if ltb max_cursor_bytes (length cursor)
    then fail lagged
    else if cursor == current l
    then ok (cursor, [])
    else since_parsed l cursor (parse_cursor cursor)
