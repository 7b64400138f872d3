-- ===== src/Agent/Client/Session.antt =====
-- agent/client.go: the read loop, and the sections of the methods that hand out a terminal or an
-- observation. A method that makes a call has a section before it and one after it.
use execenv.Base.{
  ℕ, Bool, true, not, Option, none, some, [], Bytes, codes, ◌==◌, nat_eq, bytes_eq, if◌then◌else◌,
}
use execenv.Errors.{Error, sentinel, closed, frozen, lagged, unavailable, ok, err}
use execenv.Errors.Status.{status_of, error_from_status}
use execenv.Paths.{Event, validate_event}
use execenv.Memory.State.{Ctx, fresh, store}
use execenv.Memory.Terminal.{ReadResult}
use execenv.Memory.Observe.{NextResult}
use execenv.Mux.{Frame, kind_response, kind_pty, kind_watch}
use execenv.Agent.Client.{ClientTerm, ClientObs, Client, is_current}
use execenv.Agent.Client.Calls.{deliver, answer_all, next_seq}
use execenv.Agent.Client.Terminal
use execenv.Agent.Client.Observe

abbrev pub term_at : Client → ℕ → ClientTerm
term_at c t = c.terms.cell t

abbrev pub obs_at : Client → ℕ → ClientObs
obs_at c o = c.observations.cell o

abbrev pub set_term : Client → ℕ → ClientTerm → Client
set_term c t x = record c { terms = store c.terms t x }

abbrev pub set_obs : Client → ℕ → ClientObs → Client
set_obs c o x = record c { observations = store c.observations o x }

abbrev pub hangup_term : Option Error → Option ℕ → Client → Client
hangup_term e none c = c
hangup_term e (some t) c = set_term c t (Terminal.hangup e (term_at c t))

abbrev pub fail_obs : Error → Option ℕ → Client → Client
fail_obs e none c = c
fail_obs e (some o) c = set_obs c o (Observe.fail e (obs_at c o))

-- Client.Hangup
unfoldable pub hangup : Error → Client → Client
hangup e c = fail_obs e c.obs (
    hangup_term (some e) c.term
      (record (answer_all (status_of (some e)) c) { closed = true; term = none; obs = none }))

-- Client.failAll
unfoldable pub fail_all : Client → Client
fail_all c = fail_obs (sentinel closed) c.obs (
    hangup_term (some (sentinel closed)) c.term
      (record (answer_all (codes "unavailable") c) { closed = true; term = none; obs = none }))

-- `if c.obs == obs { c.obs = nil }`, and the same of a terminal
abbrev pub clear_obs : ℕ → Client → Client
clear_obs o c = if is_current o c.obs then record c { obs = none } else c

abbrev pub clear_term : ℕ → Client → Client
clear_term t c = if is_current t c.term then record c { term = none } else c

abbrev pub finish_observation : ℕ → Error → Client → Client
finish_observation o e c = fail_obs e (some o) (clear_obs o c)

abbrev pub deliver_pty : Frame → Client → Option ℕ → Client
deliver_pty f c none = c
deliver_pty f c (some t) =
    if not ((term_at c t).stream == f.stream)
    then c
    else if not (f.status == [])
    then hangup_term (error_from_status f.status) (some t) c
    else set_term c t (Terminal.push f.extra (term_at c t))

abbrev pub status_error : Bytes → Error
status_error status = elim (error_from_status status) [ none ↦ sentinel closed | some e ↦ e ]

-- clientObs.push; abort's call of "unwatch" is another goroutine's.
abbrev pub pushed : ℕ → Observe.Pushed → Client → Client
pushed o (Observe.stored x) c = set_obs c o x
pushed o Observe.overflows c = finish_observation o (sentinel lagged) c
pushed o Observe.panics c = record c { crashed = true }

abbrev pub push_event : ℕ → Event → Client → Client
push_event o ev c = pushed o (Observe.push ev (obs_at c o)) c

-- The JSON of an event is decoded outside the module.
abbrev pub push_decoded : ℕ → Option Event → Client → Client
push_decoded o none c = finish_observation o (sentinel unavailable) c
push_decoded o (some ev) c = elim (validate_event ev) [
  | err e ↦ finish_observation o (sentinel unavailable) c
  | ok done ↦ push_event o ev c
]

abbrev pub deliver_watch : (Bytes → Option Event) → Frame → Client → Option ℕ → Client
deliver_watch decode f c none = c
deliver_watch decode f c (some o) =
    if not ((obs_at c o).stream == f.stream)
    then c
    else if not (f.status == [])
    then finish_observation o (status_error f.status) c
    else push_decoded o (decode f.extra) c

-- readLoop, on a frame
unfoldable pub receive : (Bytes → Option Event) → Frame → Client → Client
receive decode f c =
    if f.kind == kind_response
    then deliver f c
    else if f.kind == kind_pty
    then deliver_pty f c c.term
    else if f.kind == kind_watch
    then deliver_watch decode f c c.obs
    else c

-- Attach and Watch, before the call: the address, unless one is live already
abbrev pub attach_if_free : Client → Option ℕ → Option ℕ × Client
attach_if_free c (some t) = (none, record c { stream = next_seq c.stream })
attach_if_free c none = (
  some c.terms.next,
  record c {
    stream = next_seq c.stream;
    term = some c.terms.next;
    terms = fresh c.terms (Terminal.new_term (next_seq c.stream));
  },
)

unfoldable pub begin_attach : Client → Option ℕ × Client
begin_attach c = attach_if_free c c.term

abbrev pub watch_if_free : Bytes → Client → Option ℕ → Option ℕ × Client
watch_if_free after c (some o) = (none, record c { stream = next_seq c.stream })
watch_if_free after c none = (
  some c.observations.next,
  record c {
    stream = next_seq c.stream;
    obs = some c.observations.next;
    observations = fresh c.observations (Observe.new_obs (next_seq c.stream) after);
  },
)

unfoldable pub begin_watch : Bytes → Client → Option ℕ × Client
begin_watch after c = watch_if_free after c c.obs

-- Attach and Watch, after a call that failed
unfoldable pub attach_failed : Error → ℕ → Client → Client
attach_failed e t c = hangup_term (some e) (some t) (clear_term t c)

unfoldable pub watch_failed : Error → ℕ → Client → Client
watch_failed e o c = fail_obs e (some o) (clear_obs o c)

-- Watch after its call: the answer's cursor, or clientObs.Close where it cannot be decoded
unfoldable pub watch_answered : Bytes → Option Bytes → ℕ → Client → Client
watch_answered after none o c = fail_obs (sentinel closed) (some o) c
watch_answered after (some cursor) o c =
    set_obs c o (Observe.set_initial_cursor cursor after (obs_at c o))

-- Freeze after its call, whatever that answered
unfoldable pub freeze_returned : Client → Client
freeze_returned c = hangup_term (some (sentinel frozen)) c.term (record c { term = none })

-- clientTerm.Close before its call, and clientObs.Close
unfoldable pub close_term : ℕ → Client → Client
close_term t c = set_term c t (Terminal.close (term_at c t))

unfoldable pub close_obs : ℕ → Client → Client
close_obs o c = fail_obs (sentinel closed) (some o) c

abbrev pub read_term : ℕ → ℕ → Client → ReadResult × Client
read_term t n c = let (r, x) = Terminal.read (term_at c t) n in (r, set_term c t x)

abbrev pub next_obs : Ctx → Bool → ℕ → Client → NextResult × Client
next_obs ctx chosen o c =
    let (r, x) = Observe.next_event ctx chosen (obs_at c o) in (r, set_obs c o x)
