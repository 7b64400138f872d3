-- ===== src/Agent/Client/Examples.antt =====
-- The theorems on the agent client, and what a late event does to a closed observation.
use execenv.Base.{
  ◌≡◌, refl, true, some, none, Option, List, [], ◌∷◌, codes, Bytes, lookup, insert, delete,
  bytes_beq, arith, valid_string, split, contains_byte,
}
use execenv.Paths.{
  Event, op_create, validate_event, validate_path, check_segment, check_segments, has_control,
  has_prefix_slash, has_suffix_slash,
}
use execenv.Mux.{Frame, kind_response, kind_watch}
use execenv.Agent.{is_some}
use execenv.Agent.Server.{data_frame}
use execenv.Agent.Client.{ClientTerm, new_client}
use execenv.Agent.Client.Terminal.{new_term}
use execenv.Agent.Client.Calls.{begin_call, deliver, answer_each, call_at}
use execenv.Agent.Client.Session.{fail_all, receive, begin_watch, close_obs}
use execenv.Agent.Client.Observe
use execenv.Agent.Client.Steps.{Step, begins, receives, fails, watches, closes_obs, act, run}
use execenv.Agent.Client.Invariant.{Inv}
use execenv.Agent.Client.Answers.{run-new_client-Inv, ended_answered}

abbrev created : Event
created = record { cursor = codes "9f03:1"; op = op_create; path = codes "a"; from = [] }

abbrev decode : Bytes → Option Event
decode raw = some created

abbrev response_to : Frame
response_to = record (data_frame kind_response 0 (codes "{}")) { seq = 1 }

-- Two calls: one is answered, and the connection ends before the other is.
abbrev two_calls : List Step
two_calls =
    begins none (codes "replace") ∷ begins none (codes "freeze") ∷ receives response_to ∷ fails ∷ []

run-new_client-Inv_example : Inv (run decode new_client two_calls)
run-new_client-Inv_example = run-new_client-Inv decode two_calls (omega arith)

ended_answered_example : is_some (call_at (run decode new_client two_calls) 1).answer ≡ true
unfolding run act begin_call receive deliver fail_all answer_each lookup insert delete
ended_answered_example = ended_answered decode two_calls (omega arith) refl 1 (omega arith) refl

abbrev typed : ClientTerm
typed = record (new_term 1) { buf = codes "hello" }

-- Close fails the observation, which closes its channel, before its call to the agent returns and
-- takes it out of the client: an event that arrives meanwhile is sent on the closed channel.
late_event_panics :
    (run decode new_client
      (watches [] ∷ closes_obs 0 ∷ receives (data_frame kind_watch 1 (codes "{}")) ∷ [])).crashed
    ≡ true
unfolding run act begin_watch close_obs receive Observe.fail Observe.push validate_event
    validate_path valid_string split bytes_beq contains_byte check_segment check_segments
    has_control has_prefix_slash has_suffix_slash
late_event_panics = refl
