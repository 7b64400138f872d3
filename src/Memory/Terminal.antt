-- ===== src/Memory/Terminal.antt =====
-- The methods of memory/memory.go's terminal, on the object itself.
pub mod Stream
use execenv.Base.{
  ℕ, ◌-◌, Bool, true, false, ◌||◌, Option, none, some, List, [], ◌∷◌, ◌++◌, Bytes, codes, length,
  take, drop, ◌==◌, nat_eq, if◌then◌else◌,
}
use execenv.Errors.{Error, sentinel, op_error, closed, eof, Result, ok, err}
use execenv.Memory.State.{Window, Terminal, Ctx}

-- 80 by 24 where a side is zero
unfoldable pub default_window : Window → Window
default_window win = record {
  cols = if win.cols == 0 then 80 else win.cols;
  rows = if win.rows == 0 then 24 else win.rows;
}

-- newTerminal
unfoldable pub new_terminal : ℕ → Window → Terminal
unfolding default_window
new_terminal env win = record {
  env = env;
  buf = [];
  win = default_window win;
  closed = false;
  dead = none;
}

abbrev pub is_dead : Option Error → Bool
is_dead none = false
is_dead (some e) = true

unfoldable pub finished : Terminal → Bool
finished t = t.closed || is_dead t.dead

unfoldable pub kill : Error → Terminal → Terminal
kill reason t = record t { dead = some reason }

-- A Read that would wait on the condition variable does not return yet.
pub data ReadResult : Type 0 where
  waits : ReadResult
  returns : Result Bytes → ReadResult

abbrev pub read_alive : Terminal → ℕ → ReadResult × Terminal
read_alive t n =
    if length t.buf == 0
    then (if t.closed then (returns (err (sentinel eof)), t) else (waits, t))
    else (returns (ok (take n t.buf)), record t { buf = drop n t.buf })

-- Terminal.Read into a slice of `n` bytes
unfoldable pub read : Terminal → ℕ → ReadResult × Terminal
read t n = elim t.dead [
  | some reason ↦ (returns (err (op_error (codes "read") reason)), t)
  | none ↦ read_alive t n
]

-- Terminal.Write: the count written
unfoldable pub write : Terminal → Bytes → Result ℕ × Terminal
write t p = elim t.dead [
  | some reason ↦ (err (op_error (codes "write") reason), t)
  | none ↦
      if t.closed
      then (err (op_error (codes "write") (sentinel closed)), t)
      else (ok (length p), record t { buf = t.buf ++ p })
]

abbrev pub resize_alive : Terminal → Window → Result (Unit {0}) × Terminal
resize_alive t win =
    if t.closed
    then (err (op_error (codes "resize") (sentinel closed)), t)
    else (ok tt, record t { win = default_window win })

-- Terminal.Resize
unfoldable pub resize : Terminal → Ctx → Window → Result (Unit {0}) × Terminal
resize t (some e) win = (err (op_error (codes "resize") e), t)
resize t none win = elim t.dead [
  | some reason ↦ (err (op_error (codes "resize") reason), t)
  | none ↦ resize_alive t win
]

-- Terminal.Close
unfoldable pub close : Terminal → Terminal
close t = record t { closed = true }
