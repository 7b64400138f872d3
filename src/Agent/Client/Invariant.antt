-- ===== src/Agent/Client/Invariant.antt =====
-- The calls of the agent client: each waits under its own number until it is answered, and then
-- holds an answer of that number.
use execenv.Base.{
  ℕ, ◌+◌, ◌≤◌, ◌<◌, ◌≡◌, Bool, true, false, Option, none, some, Bytes, lookup, IsDistinct,
  lookup-insert, lookup-delete, insert-IsDistinct, delete-IsDistinct, arith, nat_eq, nat_beq_iff,
  Option-cases, Bool-cases, inl, inr,
}
use execenv.Errors.{Error}
use execenv.Memory.State.{Heap, Ctx}
use execenv.Mux.{Frame}
use execenv.Watchlog.{u64_mod}
use execenv.Agent.Client.{ClientTerm, ClientObs, Client}
use execenv.Agent.Client.Calls.{
  begin_call, next_seq, sent_call, await_call, deliver, drop_call, call_at, set_call,
}

pub record Inv (c : Client) : Type 0 where
  pub distinct : IsDistinct c.pending
  pub registered :
      (seq k : ℕ)
      → lookup seq c.pending ≡ some k
      → (k < c.calls.next)
        × ((call_at c k).seq ≡ seq)
        × ((call_at c k).answer ≡ none)
        × ((call_at c k).returned ≡ false)
  pub waiting :
      (k : ℕ)
      → k < c.calls.next
      → (call_at c k).answer ≡ none
      → (call_at c k).returned ≡ false
      → lookup (call_at c k).seq c.pending ≡ some k
  -- An answer is the answer to the call's own request.
  pub own :
      (k : ℕ) (f : Frame)
      → k < c.calls.next
      → (call_at c k).answer ≡ some f
      → f.seq ≡ (call_at c k).seq
  pub shut : c.closed ≡ true → (seq : ℕ) → lookup seq c.pending ≡ none
  pub numbered : (k : ℕ) → k < c.calls.next → (call_at c k).seq ≤ c.seq
  pub apart :
      (j k : ℕ)
      → j < c.calls.next
      → k < c.calls.next
      → (call_at c j).seq ≡ (call_at c k).seq
      → j ≡ k

-- What the invariant does not speak of.
pub rest-Inv :
    (c : Client) (stream : ℕ) (term obs : Option ℕ) (terms : Heap ClientTerm)
    (observations : Heap ClientObs) (crashed : Bool)
    → Inv c
    → Inv (record c {
      stream = stream;
      term = term;
      obs = obs;
      terms = terms;
      observations = observations;
      crashed = crashed;
    })
rest-Inv c stream term obs terms observations crashed i = record {
  distinct = i.distinct;
  registered = i.registered;
  waiting = i.waiting;
  own = i.own;
  shut = i.shut;
  numbered = i.numbered;
  apart = i.apart;
}

module _ (c : Client) (i : Inv c) where
  pub begin_call-Inv :
      (ctx : Ctx) (method : Bytes) → c.seq + 1 < u64_mod → Inv (begin_call ctx method c).1
  unfolding begin_call
  begin_call-Inv (some e) method room = i
  begin_call-Inv none method room = elim (Bool-cases c.closed) [
    | inl over ↦
        rw (over, begin_call)
          (record {
            distinct = i.distinct;
            registered = i.registered;
            waiting = i.waiting;
            own = i.own;
            shut = λ g. i.shut over;
            numbered = λ k lt. ground (arith, i.numbered k lt, room);
            apart = i.apart;
          })
    | inr live ↦
        rw (live, begin_call)
          (record {
            distinct = insert-IsDistinct (next_seq c.seq) c.calls.next c.pending i.distinct;
            registered = λ seq k e. ground (
              arith,
              lookup-insert (next_seq c.seq) seq c.calls.next c.pending,
              nat_beq_iff (next_seq c.seq) seq,
              nat_beq_iff k c.calls.next,
              i.registered seq k,
              e,
            );
            waiting = λ k lt unanswered still. ground (
              arith,
              lookup-insert (next_seq c.seq) (call_at c k).seq c.calls.next c.pending,
              lookup-insert (next_seq c.seq) (next_seq c.seq) c.calls.next c.pending,
              nat_beq_iff (next_seq c.seq) (next_seq c.seq),
              nat_beq_iff (next_seq c.seq) (call_at c k).seq,
              nat_beq_iff k c.calls.next,
              i.waiting k,
              i.numbered k,
              lt,
              unanswered,
              still,
              room,
            );
            own = λ k f lt e. ground (arith, nat_beq_iff k c.calls.next, i.own k f, lt, e);
            shut = λ g. ground (arith, g, live);
            numbered = λ k lt. ground (arith, nat_beq_iff k c.calls.next, i.numbered k, lt, room);
            apart = λ j k lj lk e. ground (
              arith,
              nat_beq_iff j c.calls.next,
              nat_beq_iff k c.calls.next,
              i.apart j k,
              i.numbered j,
              i.numbered k,
              lj,
              lk,
              e,
              room,
            );
          })
  ]

  drop_call-Inv : (k : ℕ) → k < c.calls.next → Inv (drop_call c k)
  drop_call-Inv k lk = record {
    distinct = delete-IsDistinct (call_at c k).seq c.pending i.distinct;
    registered = λ seq j e. ground (
      arith,
      lookup-delete (call_at c k).seq seq c.pending,
      nat_beq_iff (call_at c k).seq seq,
      nat_beq_iff j k,
      i.registered seq j,
      e,
    );
    waiting = λ j lt unanswered still. ground (
      arith,
      lookup-delete (call_at c k).seq (call_at c j).seq c.pending,
      nat_beq_iff (call_at c k).seq (call_at c j).seq,
      nat_beq_iff j k,
      i.waiting j lt,
      i.apart k j lk lt,
      unanswered,
      still,
    );
    own = λ j f lt e. ground (arith, nat_beq_iff j k, i.own j f lt, e);
    shut =
        λ over seq. ground (arith, lookup-delete (call_at c k).seq seq c.pending, i.shut over seq);
    numbered = λ j lt. ground (arith, nat_beq_iff j k, i.numbered j lt);
    apart = λ h j lh lj e. ground (arith, nat_beq_iff h k, nat_beq_iff j k, i.apart h j lh lj, e);
  }

  -- An answered call comes back.
  returned-Inv :
      (k : ℕ) (f : Frame)
      → k < c.calls.next
      → (call_at c k).answer ≡ some f
      → Inv (set_call c k (record (call_at c k) { returned = true }))
  returned-Inv k f lk answered = record {
    distinct = i.distinct;
    registered = λ seq j e. ground (arith, nat_beq_iff j k, i.registered seq j e, answered);
    waiting =
        λ j lt unanswered still. ground (arith, nat_beq_iff j k, i.waiting j lt, unanswered, still);
    own = λ j g lt e. ground (arith, nat_beq_iff j k, i.own j g lt, e);
    shut = i.shut;
    numbered = λ j lt. ground (arith, nat_beq_iff j k, i.numbered j lt);
    apart = λ h j lh lj e. ground (arith, nat_beq_iff h k, nat_beq_iff j k, i.apart h j lh lj, e);
  }

  pub sent_call-Inv : (sent : Option Error) (k : ℕ) → k < c.calls.next → Inv (sent_call sent k c).1
  unfolding sent_call
  sent_call-Inv none k lk = i
  sent_call-Inv (some e) k lk = drop_call-Inv k lk

  pub await_call-Inv :
      (ctx : Ctx) (chosen : Bool) (k : ℕ) → k < c.calls.next → Inv (await_call ctx chosen k c).1
  unfolding await_call
  await_call-Inv ctx chosen k lk = elim (Option-cases (call_at c k).answer) [
    | inl unanswered ↦ go_on ctx unanswered
    | inr (f, answered) ↦ come_back ctx chosen f answered
  ]
    where
      go_on : (o : Ctx) → (call_at c k).answer ≡ none → Inv (await_call o chosen k c).1
      go_on none unanswered = rw (unanswered, await_call) i
      go_on (some e) unanswered = rw (unanswered, await_call) (drop_call-Inv k lk)

      come_back :
          (o : Ctx) (b : Bool) (f : Frame)
          → (call_at c k).answer ≡ some f
          → Inv (await_call o b k c).1
      come_back none b f answered = rw (answered, await_call) (returned-Inv k f lk answered)
      come_back (some e) true f answered = rw (answered, await_call) (drop_call-Inv k lk)
      come_back (some e) false f answered = rw (answered, await_call) (returned-Inv k f lk answered)

  pub deliver-Inv : (f : Frame) → Inv (deliver f c)
  unfolding deliver
  deliver-Inv f = elim (Option-cases (lookup f.seq c.pending)) [
    | inl unknown ↦ rw (unknown, deliver) i
    | inr (k, known) ↦
        rw (known, deliver)
          (record {
            distinct = delete-IsDistinct f.seq c.pending i.distinct;
            registered = λ seq j e. ground (
              arith,
              lookup-delete f.seq seq c.pending,
              nat_beq_iff f.seq seq,
              nat_beq_iff j k,
              i.registered seq j,
              i.registered f.seq k known,
              e,
            );
            waiting = λ j lt unanswered still. ground (
              arith,
              lookup-delete f.seq (call_at c j).seq c.pending,
              nat_beq_iff f.seq (call_at c j).seq,
              nat_beq_iff j k,
              i.waiting j lt,
              i.registered f.seq k known,
              known,
              unanswered,
              still,
            );
            own = λ j g lt e.
                ground (arith, nat_beq_iff j k, i.own j g lt, i.registered f.seq k known, e);
            shut = λ over seq. ground (arith, lookup-delete f.seq seq c.pending, i.shut over seq);
            numbered = λ j lt. ground (arith, nat_beq_iff j k, i.numbered j lt);
            apart = λ h j lh lj e.
                ground (arith, nat_beq_iff h k, nat_beq_iff j k, i.apart h j lh lj, e);
          })
  ]
