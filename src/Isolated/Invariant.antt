-- ===== src/Isolated/Invariant.antt =====
-- The well-formedness of the isolated host, and that each locked section keeps it.
use execenv.Base.{
  ℕ, ◌+◌, ◌≤◌, ◌<◌, ◌≡◌, true, false, none, some, Bytes, bytes_eq, bytes_beq_iff, lookup, insert,
  delete, lookup-insert, lookup-delete, insert-IsDistinct, delete-IsDistinct, length-insert_absent,
  length-delete-le, length-delete_held, length-insert-le, IsDistinct, length, leb, arith, nat_eq,
  nat_beq_iff,
}
use execenv.Names.{Spec}
use execenv.Memory.State.{fresh, store}
use execenv.Isolated.{Guest, EnsureCall, IsolatedHost, new_call}

pub record Inv (h : IsolatedHost) : Type 0 where
  pub grants_distinct : IsDistinct h.grants
  pub pending_distinct : IsDistinct h.pending
  -- A grant that is still starting holds its slot.
  pub bounded : length h.grants + length h.pending ≤ h.slots
  -- No id is granted and starting at once.
  pub apart : (id : Bytes) (r : ℕ) → lookup id h.grants ≡ some r → lookup id h.pending ≡ none
  pub granted : (id : Bytes) (r : ℕ) → lookup id h.grants ≡ some r → r < h.envs.next
  -- A call that is waited for exists, is the one for its id, and has not ended.
  pub started :
      (id : Bytes) (c : ℕ)
      → lookup id h.pending ≡ some c
      → (c < h.calls.next) × ((h.calls.cell c).spec.id ≡ id) × ((h.calls.cell c).done ≡ false)

module _ (h : IsolatedHost) (i : Inv h) where
  pub reserved-Inv :
      (spec : Spec)
      → lookup spec.id h.grants ≡ none
      → lookup spec.id h.pending ≡ none
      → leb h.slots (length h.grants + length h.pending) ≡ false
      → Inv (record h {
        pending = insert spec.id h.calls.next h.pending;
        calls = fresh h.calls (new_call spec);
      })
  reserved-Inv spec free idle room = record {
    grants_distinct = i.grants_distinct;
    pending_distinct = insert-IsDistinct spec.id h.calls.next h.pending i.pending_distinct;
    bounded = ground (arith, length-insert_absent spec.id h.calls.next h.pending idle, room);
    apart = λ id r e. ground (
      arith,
      lookup-insert spec.id id h.calls.next h.pending,
      bytes_beq_iff spec.id id,
      i.apart id r e,
      free,
      e,
    );
    granted = i.granted;
    started = λ id c e. ground (
      arith,
      lookup-insert spec.id id h.calls.next h.pending,
      bytes_beq_iff spec.id id,
      i.started id c,
    );
  }

  -- A call's end, or its cancellation; and one id less that is starting.
  pub closed-Inv :
      (id : Bytes) (c : ℕ) (x : EnsureCall)
      → lookup id h.pending ≡ some c
      → Inv (record h { pending = delete id h.pending; calls = store h.calls c x })
  closed-Inv id c x e = record {
    grants_distinct = i.grants_distinct;
    pending_distinct = delete-IsDistinct id h.pending i.pending_distinct;
    bounded = ground (arith, length-delete-le id h.pending, i.bounded);
    apart = λ other r g. ground (arith, lookup-delete id other h.pending, i.apart other r g);
    granted = i.granted;
    started = λ other d g. ground (
      arith,
      lookup-delete id other h.pending,
      bytes_beq_iff id other,
      i.started other d,
      i.started id c e,
    );
  }

  pub cancelled-Inv :
      (c : ℕ)
      → Inv (record h { calls = store h.calls c (record (h.calls.cell c) { cancelled = true }) })
  cancelled-Inv c = record {
    grants_distinct = i.grants_distinct;
    pending_distinct = i.pending_distinct;
    bounded = i.bounded;
    apart = i.apart;
    granted = i.granted;
    started = λ id d e. ground (arith, i.started id d e, nat_beq_iff d c);
  }

  pub completed-Inv :
      (id : Bytes) (c : ℕ) (x : EnsureCall) (guest : Guest)
      → lookup id h.pending ≡ some c
      → Inv (record h {
        pending = delete id h.pending;
        calls = store h.calls c x;
        grants = insert id h.envs.next h.grants;
        envs = fresh h.envs guest;
      })
  completed-Inv id c x guest e = record {
    grants_distinct = insert-IsDistinct id h.envs.next h.grants i.grants_distinct;
    pending_distinct = delete-IsDistinct id h.pending i.pending_distinct;
    bounded = ground (
      arith,
      length-delete_held id h.pending c i.pending_distinct e,
      length-insert-le id h.envs.next h.grants,
      i.bounded,
    );
    apart = λ other r g. ground (
      arith,
      lookup-delete id other h.pending,
      lookup-insert id other h.envs.next h.grants,
      bytes_beq_iff id other,
      i.apart other r,
    );
    granted =
        λ other r g. ground (arith, lookup-insert id other h.envs.next h.grants, i.granted other r);
    started = λ other d g. ground (
      arith,
      lookup-delete id other h.pending,
      bytes_beq_iff id other,
      i.started other d,
      i.started id c e,
    );
  }

  pub removed-Inv : (id : Bytes) → Inv (record h { grants = delete id h.grants })
  removed-Inv id = record {
    grants_distinct = delete-IsDistinct id h.grants i.grants_distinct;
    pending_distinct = i.pending_distinct;
    bounded = ground (arith, length-delete-le id h.grants, i.bounded);
    apart = λ other r g. ground (arith, lookup-delete id other h.grants, i.apart other r);
    granted = λ other r g. ground (arith, lookup-delete id other h.grants, i.granted other r);
    started = i.started;
  }
