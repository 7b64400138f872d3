-- ===== src/Agent/Server/Examples.antt =====
-- The theorems on the agent's session, where the home directory holds one file.
use execenv.Base.{
  ◌≡◌, refl, true, false, some, none, List, [], ◌∷◌, codes, lookup, bytes_beq, Bytes, format_uint,
  digits,
}
use execenv.Errors.{ok}
use execenv.Mux.{Frame, kind_request}
use execenv.Watchlog.{new_log, make_cursor, current, since}
use execenv.Agent.{Scan, has, diff_snap, missing_from, edits}
use execenv.Agent.Server.{
  Server, Machine, data_frame, new_server, post, reset_snap, stop_poll, kill_shell,
}
use execenv.Agent.Server.Poll.{diff_once, diff_loop}
use execenv.Agent.Server.Handle.{
  answer, handle, watch_request, freeze_request, thaw_request, send_replay,
}
use execenv.Agent.Server.Steps.{Step, request, polls, step, run}
use execenv.Agent.Server.Frozen.{Inv}
use execenv.Agent.Server.Reach.{run-new_server-Inv}
use execenv.Agent.Server.Replies.{Replied, handle-Replied}
use execenv.Agent.Server.Guard.{Refuses, frozen-Refuses}

abbrev one_file : Scan
one_file = (codes "a", record { dir = false; hash = codes "h" }) ∷ []

-- A machine on which everything succeeds; the JSON of an event is taken to be its path.
abbrev calm : Scan → Machine
calm scan = record {
  ctx = none;
  epoch = codes "9f03";
  scan = scan;
  send = λ f. none;
  rewrite_home = λ files. none;
  apply_home = λ batch. none;
  open_home = λ path. ok path;
  start_shell = none;
  set_window = none;
  decode_replace = λ raw. some [];
  decode_apply = λ raw. some [];
  decode_open = λ raw. some raw;
  decode_stream = λ raw. some 1;
  decode_window = λ raw. some (record { cols = 80; rows = 24 }, 1);
  decode_watch = λ raw. some (raw, 1);
  encode_event = λ e. ok e.path;
  encode_cursor = λ c. ok c;
  encode_body = λ b. ok b;
}

abbrev ask : Bytes → Frame
ask method = record (data_frame kind_request 0 []) { seq = 7; method = method }

abbrev session : List (Machine × Step)
session =
    (calm [], request (ask (codes "watch")))
    ∷ (calm one_file, polls)
    ∷ (calm one_file, request (ask (codes "attach")))
    ∷ (calm one_file, request (ask (codes "freeze")))
    ∷ []

run-new_server-Inv_example : Inv (run (new_server (codes "9f03")) session)
run-new_server-Inv_example = run-new_server-Inv (codes "9f03") session

handle-Replied_example :
    let s = new_server (codes "9f03") in
    Replied (ask (codes "resize")) s (handle (calm []) (ask (codes "resize")) s)
handle-Replied_example =
    handle-Replied (calm []) (ask (codes "resize")) (new_server (codes "9f03")) refl

abbrev frozen_session : Server
frozen_session = record (new_server (codes "9f03")) { frozen = true }

frozen-Refuses_example :
    Refuses frozen_session (answer (calm []) (ask (codes "open")) frozen_session)
unfolding bytes_beq
frozen-Refuses_example = frozen-Refuses (calm []) (ask (codes "open")) frozen_session refl refl

abbrev observed : Server
observed = record (new_server (codes "9f03")) { watching = true; watch_stream = 1; polling = true }

-- The guest makes a file, and before the next poll the session is frozen, thawed and watched again
-- from where it was. The Watch succeeds, and neither it nor any later poll tells of the file.
abbrev resumed : Server
resumed = run (new_server (codes "9f03")) (
    (calm [], request (ask (codes "watch")))
    ∷ (calm one_file, request (ask (codes "freeze")))
    ∷ (calm one_file, request (ask (codes "thaw")))
    ∷ (calm one_file, request (record (ask (codes "watch")) { extra = codes "9f03:0" }))
    ∷ (calm one_file, polls)
    ∷ [])

never_told :
    (resumed.watching ≡ true) × (resumed.log.events ≡ []) × (has (codes "a") resumed.snap ≡ true)
unfolding run step handle answer watch_request freeze_request thaw_request send_replay reset_snap
    post stop_poll kill_shell diff_once diff_loop diff_snap missing_from edits lookup bytes_beq
    since current new_log make_cursor format_uint digits
never_told = (refl, refl, refl)
