-- ===== src/Isolated/Waiters.antt =====
-- Everyone who waits for a grant to start gets the answer of the one who starts it.
use execenv.Base.{
  ℕ, ◌<◌, ◌≡◌, refl, Bool, true, none, some, List, [], ◌∷◌, bytes_eq, arith, nat_eq, nat_beq_iff,
}
use execenv.Errors.{Result, ok, err}
use execenv.Isolated.{Guest, EnsureCall, IsolatedHost, reserve, complete, revoke_round, wait_ensure}
use execenv.Isolated.Invariant.{Inv}
use execenv.Isolated.Run.{
  Section, section_reserve, section_complete, section_revoke, is_started, step, run, step-Inv,
  complete-Inv, is_started-lookup,
}

-- The call at c has ended, as `call` says.
record Settled (h : IsolatedHost) (c : ℕ) (call : EnsureCall) : Type 0 where
  made : c < h.calls.next
  ended : call.done ≡ true
  kept : h.calls.cell c ≡ call

step-Settled :
    (h : IsolatedHost) (s : Section) (c : ℕ) (call : EnsureCall)
    → Inv h
    → Settled h c call
    → Settled (step h s) c call
unfolding step reserve complete revoke_round
step-Settled h (section_reserve spec verified x) c call i t = record {
  made = ground (arith, t.made);
  ended = t.ended;
  kept = ground (arith, t.made, t.kept);
}
step-Settled h (section_complete d (ok guest)) c call i t = record {
  made = ground (arith, t.made);
  ended = t.ended;
  kept = ground (arith, t.made, t.kept, t.ended, i.started (h.calls.cell d).spec.id d);
}
step-Settled h (section_complete d (err e)) c call i t = record {
  made = ground (arith, t.made);
  ended = t.ended;
  kept = ground (arith, t.made, t.kept, t.ended, i.started (h.calls.cell d).spec.id d);
}
step-Settled h (section_revoke id) c call i t = record {
  made = ground (arith, t.made);
  ended = t.ended;
  kept = ground (arith, t.made, t.kept, t.ended, i.started id c);
}

run-Settled :
    (h : IsolatedHost) (ss : List Section) (c : ℕ) (call : EnsureCall)
    → Inv h
    → Settled h c call
    → Settled (run h ss) c call
unfolding run
run-Settled h [] c call i t = t
run-Settled h (s ∷ ss) c call i t =
    run-Settled (step h s) ss c call (step-Inv h s i) (step-Settled h s c call i t)

result-complete :
    (h : IsolatedHost) (c : ℕ) (guest : Result Guest)
    → ((complete h c guest).1.calls.cell c).result ≡ (complete h c guest).0
unfolding complete
result-complete h c (ok guest) = rw ((nat_beq_iff c c).1 refl)
result-complete h c (err e) = rw ((nat_beq_iff c c).1 refl)

complete-Settled :
    (h : IsolatedHost) (c : ℕ) (guest : Result Guest)
    → Inv h
    → is_started h c ≡ true
    → Settled (complete h c guest).1 c ((complete h c guest).1.calls.cell c)
unfolding complete
complete-Settled h c (ok guest) i s = record {
  made = (i.started _ c (is_started-lookup h c s)).0;
  ended = rw ((nat_beq_iff c c).1 refl);
  kept = refl;
}
complete-Settled h c (err e) i s = record {
  made = (i.started _ c (is_started-lookup h c s)).0;
  ended = rw ((nat_beq_iff c c).1 refl);
  kept = refl;
}

-- Once the owner of a started call completes it, every caller that waits for it, however late it
-- looks and whatever has happened in between, gets what the owner's Ensure returned, if the caller's
-- own context has not ended.
pub wait_ensure-complete :
    (h : IsolatedHost) (c : ℕ) (guest : Result Guest) (ss : List Section) (chosen : Bool)
    → Inv h
    → is_started h c ≡ true
    → let (result, h') = complete h c guest in wait_ensure (run h' ss) none chosen c ≡ some result
unfolding wait_ensure
wait_ensure-complete h c guest ss chosen i s =
    let t =
      run-Settled (complete h c guest).1 ss c _ (complete-Inv h c guest i s)
        (complete-Settled h c guest i s) in
    rw (t.kept, t.ended, result-complete h c guest)
