-- ===== src/Agent/Client.antt =====
-- agent/client.go: the host's side of one agent connection, and the terminals and observations that
-- it hands out. A call, a terminal and an observation are addresses, since callers hold on to them.
pub mod Terminal
pub mod Observe
pub mod Calls
pub mod Session
pub mod Steps
pub mod Invariant
pub mod Ending
pub mod Untouched
pub mod Answers
pub mod Reading
mod Examples
use execenv.Base.{ℕ, Bool, true, false, Option, none, some, List, [], Bytes, GoMap, ◌==◌, nat_eq}
use execenv.Errors.{Error}
use execenv.Paths.{Event}
use execenv.Mux.{Frame}
use execenv.Memory.State.{Heap}

pub record ClientTerm : Type 0 where
  pub stream : ℕ
  pub buf : Bytes
  pub closed : Bool
  pub dead : Option Error

-- queue is the buffered channel; spent is `once`, which closes it; errc is the channel of one error
pub record ClientObs : Type 0 where
  pub stream : ℕ
  pub queue : List Event
  pub errc : Option Error
  pub spent : Bool
  pub cursor : Bytes
  pub failed : Option Error

-- answer is the call's channel; returned is whether the call has come back to its caller.
pub record Call : Type 0 where
  pub seq : ℕ
  pub method : Bytes
  pub answer : Option Frame
  pub returned : Bool

-- crashed is a run-time panic of the read loop, after which nothing happens.
pub record Client : Type 0 where
  pub seq : ℕ
  pub stream : ℕ
  pub pending : GoMap ℕ ℕ
  pub term : Option ℕ
  pub obs : Option ℕ
  pub closed : Bool
  pub calls : Heap Call
  pub terms : Heap ClientTerm
  pub observations : Heap ClientObs
  pub crashed : Bool

abbrev pub is_current : ℕ → Option ℕ → Bool
is_current r none = false
is_current r (some q) = r == q

abbrev pub blank_call : Call
blank_call = record { seq = 0; method = []; answer = none; returned = true }

-- NewClient
abbrev pub new_client : Client
new_client = record {
  seq = 0;
  stream = 0;
  pending = [];
  term = none;
  obs = none;
  closed = false;
  calls = record { next = 0; cell = λ k. blank_call };
  terms = record {
    next = 0;
    cell = λ t. record { stream = 0; buf = []; closed = true; dead = none };
  };
  observations = record {
    next = 0;
    cell = λ o. record {
      stream = 0;
      queue = [];
      errc = none;
      spent = true;
      cursor = [];
      failed = none;
    };
  };
  crashed = false;
}
