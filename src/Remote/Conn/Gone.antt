-- ===== src/Remote/Conn/Gone.antt =====
-- What a connection answers for a grant that it has revoked.
use execenv.Base.{
  ◌≡◌, refl, Bool, true, false, ◌||◌, none, Bytes, codes, bytes_beq, lookup, lookup-delete, arith,
  ◌==◌, nat_eq, bytes_eq, bytes_beq_iff, Option-cases,
}
use execenv.Errors.{Result, ok, err}
use execenv.Mux.{Frame}
use execenv.Memory.State.{Ctx}
use execenv.Remote.Conn.{InnerHost, Codec, Conn}
use execenv.Remote.Conn.Rules.{answer-rule}
use execenv.Remote.Conn.Handle.{
  Answer, revoke_request, attach_request, freeze_request, thaw_request, replace_request,
  apply_request, watch_request, open_request, answer,
}

-- The methods that look the environment up
abbrev pub needs_env : Bytes → Bool
needs_env method =
    method == codes "attach"
    || method == codes "freeze"
    || method == codes "thaw"
    || method == codes "replace"
    || method == codes "apply"
    || method == codes "watch"
    || method == codes "open"

abbrev pub is_refused : Result Bytes → Bool
is_refused (ok extra) = false
is_refused (err e) = true

abbrev pub Refuses : {W : Type 0} → Conn W → Answer W → Type 0
Refuses c a = (a.1 ≡ c) × (is_refused a.0 ≡ true)

module _ {W : Type 0} (h : InnerHost W) (x : Codec) (ctx : Ctx) (f : Frame) (c : Conn W) where
  module _ (gone : lookup f.grant c.envs ≡ none) where
    attach-Refuses : Refuses c (attach_request h x ctx f c)
    unfolding attach_request
    attach-Refuses = ground (arith, gone, Option-cases (x.decode_attach f.extra))

    freeze-Refuses : Refuses c (freeze_request h x ctx f c)
    unfolding freeze_request
    freeze-Refuses = ground (arith, gone)

    thaw-Refuses : Refuses c (thaw_request h x ctx f c)
    unfolding thaw_request
    thaw-Refuses = ground (arith, gone)

    replace-Refuses : Refuses c (replace_request h x ctx f c)
    unfolding replace_request
    replace-Refuses = ground (arith, gone, Option-cases (x.decode_replace f.extra))

    apply-Refuses : Refuses c (apply_request h x ctx f c)
    unfolding apply_request
    apply-Refuses = ground (arith, gone, Option-cases (x.decode_apply f.extra))

    watch-Refuses : Refuses c (watch_request h x ctx f c)
    unfolding watch_request
    watch-Refuses = ground (arith, gone, Option-cases (x.decode_watch f.extra))

    open-Refuses : Refuses c (open_request h x ctx f c)
    unfolding open_request
    open-Refuses = ground (arith, gone, Option-cases (x.decode_open f.extra))

    -- The test of a method that does not look it up is not true of one that does.
    unlisted :
        (method : Bytes)
        → needs_env method ≡ false
        → needs_env f.method ≡ true
        → (f.method == method) ≡ true
        → ⊥
    unlisted method free listed e = ground (arith, free, listed, e, bytes_beq_iff f.method method)

    answer-Refuses : needs_env f.method ≡ true → Refuses c (answer h x ctx f c)
    unfolding bytes_beq
    answer-Refuses listed =
        answer-rule (Refuses c) h x ctx f c (λ e. absurd (unlisted (codes "ready") refl listed e))
          (λ e. absurd (unlisted (codes "ensure") refl listed e))
          (λ e. absurd (unlisted (codes "revoke") refl listed e)) (λ _. attach-Refuses)
          (λ e. absurd (unlisted (codes "detach") refl listed e))
          (λ e. absurd (unlisted (codes "resize") refl listed e)) (λ _. freeze-Refuses)
          (λ _. thaw-Refuses) (λ _. replace-Refuses) (λ _. apply-Refuses) (λ _. watch-Refuses)
          (λ e. absurd (unlisted (codes "unwatch") refl listed e)) (λ _. open-Refuses) (refl, refl)

  revoke-envs : lookup f.grant (revoke_request h x ctx f c).1.envs ≡ none
  unfolding revoke_request
  revoke-envs = ground (arith, lookup-delete f.grant f.grant c.envs, bytes_beq_iff f.grant f.grant)

-- Over any host, once a connection has handled a revoke, whatever the host made of it, it refuses
-- every request of that grant that needs its environment, whatever the request's body, and neither
-- its tables nor the host change. (Until an ensure grants it anew.)
pub revoke-Refuses :
    {W : Type 0} (h : InnerHost W) (x : Codec) (ctx ctx' : Ctx) (f g : Frame) (c : Conn W)
    → g.grant ≡ f.grant
    → needs_env g.method ≡ true
    → let c' = (revoke_request h x ctx f c).1 in Refuses c' (answer h x ctx' g c')
revoke-Refuses h x ctx ctx' f g c own listed =
    let c' = (revoke_request h x ctx f c).1 in
    answer-Refuses h x ctx' g c' (rw own (revoke-envs h x ctx f c)) listed
