-- ===== src/Watchlog/Examples.antt =====
-- The theorems on the log at a window of two events.
use execenv.Base.{◌≡◌, refl, [], ◌∷◌, codes, arith, contains_byte}
use execenv.Errors.{ok, fail, lagged}
use execenv.Paths.{Event, op_create}
use execenv.Watchlog.{Log, new_log, append, current, since}
use execenv.Watchlog.Invariant.{IsEpoch, IsLog, new_log-IsLog, append-IsLog}
use execenv.Watchlog.NoGap.{NoGap, since-NoGap}
use execenv.Watchlog.Replay.{append_all, since-append_all}

hex-IsEpoch : IsEpoch (codes "9f03")
hex-IsEpoch = record {
  nonempty = λ e. cc e;
  no_colon = unfold contains_byte in refl;
  short = omega arith;
}

abbrev narrow : Log
narrow = new_log (codes "9f03") 2

narrow-IsLog : IsLog narrow
narrow-IsLog = new_log-IsLog (codes "9f03") 2 hex-IsEpoch

abbrev created : Event
created = record { cursor = []; op = op_create; path = codes "a"; from = [] }

since-append_all_example :
    since (append_all (created ∷ created ∷ []) narrow).1 (current narrow)
    ≡ ok (current narrow, (append_all (created ∷ created ∷ []) narrow).0)
unfolding new_log
since-append_all_example =
    since-append_all narrow (created ∷ created ∷ []) narrow-IsLog (omega arith)

overrun :
    since (append_all (created ∷ created ∷ created ∷ []) narrow).1 (current narrow) ≡ fail lagged
unfolding new_log
overrun = since-append_all narrow (created ∷ created ∷ created ∷ []) narrow-IsLog (omega arith)

one_event :
    since (append created narrow).1 (current narrow)
    ≡ ok (current narrow, (append created narrow).0 ∷ [])
unfolding new_log append_all
one_event = since-append_all narrow (created ∷ []) narrow-IsLog (omega arith)

since-NoGap_example :
    NoGap (append created narrow).1 (current narrow) ((append created narrow).0 ∷ [])
since-NoGap_example =
    since-NoGap (append created narrow).1
      (append-IsLog created narrow (unfold new_log in omega arith) narrow-IsLog) (current narrow)
      (current narrow) ((append created narrow).0 ∷ []) one_event
