-- ===== src/Agent/Client/Ending.antt =====
-- The answers that every waiting call gets when the connection ends, and the invariant after them.
use execenv.Base.{
  ℕ, ◌≡◌, refl, Bool, true, some, [], ◌∷◌, Bytes, GoMap, lookup, IsDistinct, lookup-Fresh, ◌∙◌,
  arith, ◌==◌, nat_eq, nat_beq_iff, Option-cases, Bool-cases, inl, inr,
}
use execenv.Mux.{Frame}
use execenv.Agent.{is_some}
use execenv.Agent.Client.{Call, Client}
use execenv.Agent.Client.Calls.{answer_each, answer_all, call_at}
use execenv.Agent.Client.Invariant.{Inv}

-- The entries name calls of their numbers.
abbrev Named : GoMap ℕ ℕ → (ℕ → Call) → Type 0
Named m cell = (seq k : ℕ) → lookup seq m ≡ some k → (cell k).seq ≡ seq

answer_each-same :
    (status : Bytes) (m : GoMap ℕ ℕ) (cell : ℕ → Call) (k : ℕ)
    → ((answer_each status m cell k).seq ≡ (cell k).seq)
      × ((answer_each status m cell k).returned ≡ (cell k).returned)
unfolding answer_each
answer_each-same status [] cell k = (refl, refl)
answer_each-same status ((seq, j) ∷ rest) cell k =
    let (same_seq, same_returned) = answer_each-same status rest _ k in
    (same_seq ∙ ground (arith, nat_beq_iff k j), same_returned ∙ ground (arith, nat_beq_iff k j))

answer_each-kept :
    (status : Bytes) (m : GoMap ℕ ℕ) (cell : ℕ → Call) (k : ℕ)
    → is_some ((cell k).answer) ≡ true
    → is_some ((answer_each status m cell k).answer) ≡ true
unfolding answer_each
answer_each-kept status [] cell k h = h
answer_each-kept status ((seq, j) ∷ rest) cell k h =
    answer_each-kept status rest _ k (ground (arith, h))

answer_each-answered :
    (status : Bytes) (m : GoMap ℕ ℕ) (cell : ℕ → Call) (seq k : ℕ)
    → lookup seq m ≡ some k
    → is_some ((answer_each status m cell k).answer) ≡ true
unfolding answer_each lookup
answer_each-answered status [] cell seq k e = absurd (ground (arith, e))
answer_each-answered status ((s, j) ∷ rest) cell seq k e = elim (Bool-cases (s == seq)) [
  | inl here ↦ answer_each-kept status rest _ k (ground (arith, e, here, nat_beq_iff k j))
  | inr there ↦ answer_each-answered status rest _ seq k (ground (arith, e, there))
]

answer_each-own :
    (status : Bytes) (m : GoMap ℕ ℕ) (cell : ℕ → Call) (k : ℕ)
    → IsDistinct m
    → Named m cell
    → ((f : Frame) → (cell k).answer ≡ some f → f.seq ≡ (cell k).seq)
    → (f : Frame) → (answer_each status m cell k).answer ≡ some f
    → f.seq ≡ (cell k).seq
unfolding answer_each lookup
answer_each-own status [] cell k d n own f e = own f e
answer_each-own status ((s, j) ∷ rest) cell k (new, d) n own f e =
    answer_each-own status rest _ k d
      (λ seq h there.
        ground (arith, nat_beq_iff h j, nat_beq_iff s seq, lookup-Fresh s rest new, n seq h, there))
      (λ g answered. ground (arith, nat_beq_iff k j, nat_beq_iff s s, n s j, own g, answered)) f e
    ∙ ground (arith, nat_beq_iff k j)

pub answer_all-Inv :
    (c : Client) (status : Bytes) (over : Bool)
    → Inv c
    → Inv (record (answer_all status c) { closed = over })
unfolding lookup
answer_all-Inv c status over i =
    let same = λ (k : ℕ). answer_each-same status c.pending c.calls.cell k in
    record {
      distinct = tt;
      registered = λ seq k e. absurd (ground (arith, e));
      waiting = λ k lt unanswered still. absurd (
          ground (
            arith,
            same k,
            still,
            unanswered,
            i.waiting k lt,
            answer_each-kept status c.pending c.calls.cell k,
            answer_each-answered status c.pending c.calls.cell (call_at c k).seq k,
            Option-cases (call_at c k).answer,
          ));
      own = λ k f lt e.
          answer_each-own status c.pending c.calls.cell k i.distinct
            (λ seq j there. (i.registered seq j there).1) (λ g. i.own k g lt) f e
          ∙ ground (arith, same k);
      shut = λ _ seq. refl;
      numbered = λ k lt. ground (arith, same k, i.numbered k lt);
      apart = λ j k lj lk e. ground (arith, same j, same k, i.apart j k lj lk, e);
    }
