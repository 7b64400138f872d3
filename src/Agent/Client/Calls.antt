-- ===== src/Agent/Client/Calls.antt =====
-- agent/client.go, call: a request is numbered, sent, and waited for.
use execenv.Base.{
  ℕ, ◌+◌, ◌%◌, Bool, true, false, ◌||◌, Option, none, some, [], ◌∷◌, Bytes, GoMap, lookup, insert,
  delete, ◌==◌, nat_eq, bytes_eq, if◌then◌else◌,
}
use execenv.Errors.{
  Error, sentinel, op_error, annotate, is, unavailable, too_large, invalid, Result, ok, err,
}
use execenv.Errors.Status.{error_from_status}
use execenv.Watchlog.{u64_mod}
use execenv.Memory.State.{Ctx, update, fresh, store}
use execenv.Mux.{Frame, kind_request}
use execenv.Agent.Server.{data_frame}
use execenv.Agent.Client.{Call, Client}

-- An early return, or the call that was registered
pub data Begun : Type 0 where
  refused : Error → Begun
  begun : ℕ → Begun

abbrev pub next_seq : ℕ → ℕ
next_seq n = (n + 1) % u64_mod

-- Up to the registration in `pending`
unfoldable pub begin_call : Ctx → Bytes → Client → Begun × Client
begin_call (some e) method c = (refused (op_error method e), c)
begin_call none method c =
    if c.closed
    then (refused (op_error method (sentinel unavailable)), record c { seq = next_seq c.seq })
    else (
      begun c.calls.next,
      record c {
        seq = next_seq c.seq;
        pending = insert (next_seq c.seq) c.calls.next c.pending;
        calls =
            fresh c.calls
              (record { seq = next_seq c.seq; method = method; answer = none; returned = false });
      },
    )

abbrev pub request_frame : Call → Bytes → ℕ → Frame
request_frame k extra deadline = record (data_frame kind_request 0 extra) {
  seq = k.seq;
  method = k.method;
  deadline = deadline;
}

abbrev pub call_at : Client → ℕ → Call
call_at c k = c.calls.cell k

abbrev pub set_call : Client → ℕ → Call → Client
set_call c k x = record c { calls = store c.calls k x }

-- The call comes back without its answer.
abbrev pub drop_call : Client → ℕ → Client
drop_call c k = record (set_call c k (record (call_at c k) { returned = true })) {
  pending = delete (call_at c k).seq c.pending;
}

-- After Send, which returned `sent`
unfoldable pub sent_call : Option Error → ℕ → Client → Option Error × Client
sent_call none k c = (none, c)
sent_call (some e) k c = (
  some (
      op_error (call_at c k).method
        (if is e too_large || is e invalid then e else sentinel unavailable)),
  drop_call c k,
)

-- What the answer is to the caller
unfoldable pub result_of : Bytes → Frame → Result Bytes
result_of method f =
    if f.status == []
    then ok f.extra
    else elim (annotate method (error_from_status f.status)) [ none ↦ ok [] | some e ↦ err e ]

abbrev pub abandon : Error → ℕ → Client → Option (Result Bytes) × Client
abandon e k c = (some (err (op_error (call_at c k).method e)), drop_call c k)

-- The select at the end; none is that the call still waits. Where both are ready, `chosen` is
-- whether the context's branch is taken.
unfoldable pub await_call : Ctx → Bool → ℕ → Client → Option (Result Bytes) × Client
await_call ctx chosen k c = elim (call_at c k).answer [
  | none ↦ elim ctx [ none ↦ (none, c) | some e ↦ abandon e k c ]
  | some f ↦
      let answered : Option (Result Bytes) × Client = (
        some (result_of (call_at c k).method f),
        set_call c k (record (call_at c k) { returned = true }),
      ) in
      elim ctx [ none ↦ answered | some e ↦ if chosen then abandon e k c else answered ]
]

-- The read loop, on a response
unfoldable pub deliver : Frame → Client → Client
deliver f c = elim (lookup f.seq c.pending) [
  | none ↦ c
  | some k ↦ record (set_call c k (record (call_at c k) { answer = some f })) {
    pending = delete f.seq c.pending;
  }
]

-- `for seq, ch := range c.pending { ch <- frame{Seq: seq, Status: status} }`
unfoldable pub answer_each : Bytes → GoMap ℕ ℕ → (ℕ → Call) → ℕ → Call
answer_each status [] cell = cell
answer_each status ((seq, k) ∷ rest) cell = answer_each status rest (
    update cell k (record (cell k) {
      answer = some (record (data_frame 0 0 []) { seq = seq; status = status });
    }))

-- The end of every call that waits, in failAll and Hangup
abbrev pub answer_all : Bytes → Client → Client
answer_all status c = record c {
  pending = [];
  calls = record c.calls { cell = answer_each status c.pending c.calls.cell };
}
