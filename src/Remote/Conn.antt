-- ===== src/Remote/Conn.antt =====
-- remote/server.go: the tables of one connection, over any host. The dispatcher runs the handlers
-- of one grant one at a time, so a handler is one step; what close, copyPty and copyWatch do comes
-- between handlers.
pub mod Handle
pub mod Ends
pub mod Rules
pub mod Keeps
pub mod Tables
pub mod Others
pub mod Gone
pub mod Closing
pub mod OverMemory
mod Examples
use execenv.Base.{ℕ, Bool, true, false, Option, none, some, List, [], Bytes, GoMap}
use execenv.Errors.{Result}
use execenv.Names.{Spec}
use execenv.Snapshot.{Tree, Mutation}
use execenv.Mux.{Frame}
use execenv.Memory.State.{Window, Ctx}
use execenv.Memory.Host.{Report}

-- The interfaces Host, Env, Terminal and Observation of execenv.go and tree.go, on a world W. An
-- environment, a terminal and an observation are addresses.
pub record InnerHost (W : Type 0) : Type 0 where
  pub ready : W → Ctx → Result Report
  pub ensure : W → Ctx → Spec → Result ℕ × W
  pub revoke : W → Ctx → Bytes → Result (Unit {0}) × W
  pub attach : W → Ctx → ℕ → Window → Result ℕ × W
  pub freeze : W → Ctx → ℕ → Result (Unit {0}) × W
  pub thaw : W → Ctx → ℕ → Result (Unit {0}) × W
  pub replace_tree : W → Ctx → ℕ → Tree → Result (Unit {0}) × W
  pub apply : W → Ctx → ℕ → List Mutation → Result (Unit {0}) × W
  pub watch : W → Ctx → ℕ → Bytes → Result ℕ × W
  -- Open, and reading its body to the end
  pub open_file : W → Ctx → ℕ → Bytes → Result Bytes
  pub write : W → ℕ → Bytes → W
  pub resize : W → Ctx → ℕ → Window → Result (Unit {0}) × W
  pub close_term : W → ℕ → Result (Unit {0}) × W
  pub close_obs : W → ℕ → Result (Unit {0}) × W
  pub cursor : W → ℕ → Bytes

-- The JSON of the arguments and results is outside the module.
pub record Codec : Type 0 where
  pub decode_ensure : Bytes → Option Spec
  pub decode_attach : Bytes → Option (Window × ℕ)
  pub decode_stream : Bytes → Option ℕ
  pub decode_replace : Bytes → Option Tree
  pub decode_apply : Bytes → Option (List Mutation)
  pub decode_watch : Bytes → Option (Bytes × ℕ)
  pub decode_open : Bytes → Option Bytes
  pub encode_report : Report → Result Bytes
  pub encode_cursor : Bytes → Result Bytes
  pub encode_body : Bytes → Result Bytes

-- serverConn, with the host's world and what was sent
pub record Conn (W : Type 0) : Type 0 where
  pub world : W
  pub closed : Bool
  pub envs : GoMap Bytes ℕ
  pub terms : GoMap Bytes ℕ
  pub term_streams : GoMap Bytes ℕ
  pub obs : GoMap Bytes ℕ
  pub obs_streams : GoMap Bytes ℕ
  pub sent : List Frame

-- serveConn's, before the first frame
abbrev pub new_conn : {W : Type 0} → W → Conn W
new_conn w = record {
  world = w;
  closed = false;
  envs = [];
  terms = [];
  term_streams = [];
  obs = [];
  obs_streams = [];
  sent = [];
}
