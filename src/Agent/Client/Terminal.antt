-- ===== src/Agent/Client/Terminal.antt =====
-- agent/client.go, clientTerm: the methods of one terminal, on the object itself.
use execenv.Base.{
  ℕ, Bool, true, false, ◌||◌, Option, none, some, [], ◌++◌, Bytes, codes, length, take, drop, ◌==◌,
  nat_eq, bytes_eq, if◌then◌else◌,
}
use execenv.Errors.{Error, sentinel, op_error, closed, eof, too_large, is, Result, ok, err}
use execenv.Memory.Terminal.{ReadResult, waits, returns, is_dead}
use execenv.Agent.Client.{ClientTerm}

abbrev pub new_term : ℕ → ClientTerm
new_term stream = record { stream = stream; buf = []; closed = false; dead = none }

abbrev pub is_finished : ClientTerm → Bool
is_finished t = t.closed || is_dead t.dead

unfoldable pub push : Bytes → ClientTerm → ClientTerm
push p t = if is_finished t then t else record t { buf = t.buf ++ p }

-- clientTerm.hangup: the first reason stays; a nil one is ErrClosed.
unfoldable pub hangup : Option Error → ClientTerm → ClientTerm
hangup e t =
    if is_dead t.dead
    then t
    else record t { dead = elim e [ none ↦ some (sentinel closed) | some reason ↦ some reason ] }

abbrev pub read_empty : ClientTerm → ReadResult × ClientTerm
read_empty t = elim t.dead [
  | some reason ↦ (returns (err (op_error (codes "read") reason)), t)
  | none ↦ if t.closed then (returns (err (sentinel eof)), t) else (waits, t)
]

-- clientTerm.Read into a slice of `n` bytes: what has arrived is served before the end is told.
unfoldable pub read : ClientTerm → ℕ → ReadResult × ClientTerm
read t n =
    if t.buf == []
    then read_empty t
    else (returns (ok (take n t.buf)), record t { buf = drop n t.buf })

abbrev pub dead_or_closed : Option Error → Error
dead_or_closed none = sentinel closed
dead_or_closed (some e) = e

-- clientTerm.Write, where `sent` is what Send returns
unfoldable pub write : ClientTerm → Option Error → Bytes → Result ℕ
write t sent p =
    if is_finished t then err (op_error (codes "write") (dead_or_closed t.dead)) else elim sent [
      | none ↦ ok (length p)
      | some e ↦
          if is e too_large
          then err (op_error (codes "write") e)
          else err (op_error (codes "write") (sentinel closed))
    ]

abbrev pub close : ClientTerm → ClientTerm
close t = record t { closed = true }
