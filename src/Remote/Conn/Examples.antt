-- ===== src/Remote/Conn/Examples.antt =====
-- The theorems on a connection, over the in-process host.
use execenv.Base.{
  ◌≡◌, refl, true, false, some, none, List, [], ◌∷◌, codes, Bytes, ℕ, bytes_eq, lookup, bytes_beq,
  arith,
}
use execenv.Errors.{ok}
use execenv.Names.{Spec, network_none}
use execenv.Mux.{Frame, kind_request}
use execenv.Memory.State.{World, term_at}
use execenv.Memory.Host.{new_host}
use execenv.Agent.Server.{data_frame}
use execenv.Remote.Conn.{Codec, Conn, new_conn}
use execenv.Remote.Conn.Handle.{answer, revoke_request}
use execenv.Remote.Conn.Ends.{close}
use execenv.Remote.Conn.Tables.{Inv, Step, request, closes, run, run-new_conn-Inv}
use execenv.Remote.Conn.Others.{SameOf, answer-SameOf}
use execenv.Remote.Conn.Gone.{Refuses, revoke-Refuses}
use execenv.Remote.Conn.Closing.{close-closed}
use execenv.Remote.Conn.OverMemory.{memory_host, memory_host-ClosesWell, is_let_go}

abbrev shell : Spec
shell = record { id = codes "env-1"; image = codes "base"; network = network_none }

-- Every body is taken to be the same arguments.
abbrev json : Codec
json = record {
  decode_ensure = λ raw. some shell;
  decode_attach = λ raw. some (record { cols = 80; rows = 24 }, 1);
  decode_stream = λ raw. some 1;
  decode_replace = λ raw. some [];
  decode_apply = λ raw. some [];
  decode_watch = λ raw. some ([], 2);
  decode_open = λ raw. some (codes "a");
  encode_report = λ report. ok [];
  encode_cursor = λ cursor. ok cursor;
  encode_body = λ body. ok body;
}

abbrev world : World
world = new_host (codes "base" ∷ []) 1 false

abbrev ask : Bytes → Bytes → Frame
ask method grant = record (data_frame kind_request 0 []) { method = method; grant = grant }

abbrev visit : List (Step World)
visit =
    request none (ask (codes "ensure") (codes "env-1"))
    ∷ request none (ask (codes "attach") (codes "env-1"))
    ∷ request none (ask (codes "watch") (codes "env-1"))
    ∷ closes
    ∷ []

run-new_conn-Inv_example :
    Inv (run (memory_host (codes "9f03")) json (λ f. none) (new_conn world) visit)
run-new_conn-Inv_example =
    run-new_conn-Inv (memory_host (codes "9f03")) json (λ f. none) world visit

abbrev open_conn : Conn World
open_conn = record (new_conn world) {
  envs = (codes "env-1", 0) ∷ (codes "env-2", 1) ∷ [];
  terms = (codes "env-2", 4) ∷ [];
  term_streams = (codes "env-2", 1) ∷ [];
  obs = (codes "env-2", 3) ∷ [];
  obs_streams = (codes "env-2", 2) ∷ [];
}

answer-SameOf_example :
    SameOf
      (codes "env-2")
      open_conn
      (answer
        (memory_host (codes "9f03"))
        json
        none
        (ask (codes "revoke") (codes "env-1"))
        open_conn).1
answer-SameOf_example =
    answer-SameOf (codes "env-2") (codes "env-1") (λ e. ground (arith, e)) open_conn
      (memory_host (codes "9f03")) json none (ask (codes "revoke") (codes "env-1")) refl

revoke-Refuses_example :
    let h = memory_host (codes "9f03") in
    let c = (revoke_request h json none (ask (codes "revoke") (codes "env-1")) open_conn).1 in
    Refuses c (answer h json none (ask (codes "attach") (codes "env-1")) c)
unfolding bytes_beq
revoke-Refuses_example =
    revoke-Refuses (memory_host (codes "9f03")) json none none
      (ask (codes "revoke") (codes "env-1")) (ask (codes "attach") (codes "env-1")) open_conn refl
      refl

close-closed_example :
    let w = (close (memory_host (codes "9f03")) open_conn).world in
    ((id : Bytes) (t : ℕ) → lookup id open_conn.terms ≡ some t → (term_at w t).closed ≡ true)
    × ((id : Bytes) (o : ℕ) → lookup id open_conn.obs ≡ some o → is_let_go w o ≡ true)
close-closed_example =
    close-closed (memory_host (codes "9f03")) (λ w t. (term_at w t).closed) is_let_go
      (memory_host-ClosesWell (codes "9f03")) open_conn refl
