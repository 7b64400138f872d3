-- ===== src/Agent/Client/Reading.antt =====
-- What the reader of a client's terminal gets.
use execenv.Base.{
  ℕ, ◌≡◌, false, some, List, [], ◌∷◌, ◌++◌, Bytes, take, arith, ◌==◌, bytes_eq, Option-cases,
}
use execenv.Errors.{Error, ok, err}
use execenv.Memory.Terminal.{ReadResult, waits, returns}
use execenv.Agent.Client.{ClientTerm}
use execenv.Agent.Client.Terminal

abbrev pub octets : ReadResult → Bytes
octets waits = []
octets (returns (ok p)) = p
octets (returns (err e)) = []

-- What reads of these sizes give, one after the other, and the terminal after them.
unfoldable pub read_all : List ℕ → ClientTerm → Bytes × ClientTerm
read_all [] t = ([], t)
read_all (n ∷ ns) t =
    let (r, t') = Terminal.read t n in let (more, t'') = read_all ns t' in (octets r ++ more, t'')

-- A hung-up terminal keeps what had arrived, takes no more, and still serves it.
read-hangup :
    (t : ClientTerm) (e : Error) (n : ℕ) (p : Bytes)
    → let t' = Terminal.hangup (some e) t in
      (t'.buf ≡ t.buf)
      × (Terminal.push p t' ≡ t')
      × ((t.buf == []) ≡ false → octets (Terminal.read t' n).0 ≡ take n t.buf)
unfolding Terminal.read Terminal.hangup Terminal.push
read-hangup t e n p = ground (arith, Option-cases t.dead)
