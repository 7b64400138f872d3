-- ===== src/Agent/Server/Guard.antt =====
-- What a frozen session refuses.
use execenv.Base.{
  ◌≡◌, refl, Bool, true, false, ◌||◌, Bytes, codes, arith, ◌==◌, nat_eq, bytes_beq, bytes_eq,
  bytes_beq_iff, Option-cases, inl, inr,
}
use execenv.Errors.{Result, Result-cases, ok, err}
use execenv.Paths.{validate_path}
use execenv.Mux.{Frame}
use execenv.Agent.Server.{Server, Machine}
use execenv.Agent.Server.Handle.{
  Answer, replace_request, apply_request, open_request, watch_request, attach_request,
  resize_request, answer,
}
use execenv.Agent.Server.Rules.{answer-rule}

-- The methods that the guard stands before
abbrev pub is_guarded : Bytes → Bool
is_guarded method =
    method == codes "replace"
    || method == codes "apply"
    || method == codes "open"
    || method == codes "watch"
    || method == codes "attach"
    || method == codes "resize"

abbrev pub is_refused : Result Bytes → Bool
is_refused (ok extra) = false
is_refused (err e) = true

abbrev pub Refuses : Server → Answer → Type 0
Refuses s a = (a.1 ≡ s) × (is_refused a.0 ≡ true)

module _ (m : Machine) (f : Frame) (s : Server) (still : s.frozen ≡ true) where
  replace-Refuses : Refuses s (replace_request m f s)
  unfolding replace_request
  replace-Refuses =
      ground (arith, still, Option-cases m.ctx, Option-cases (m.decode_replace f.extra))

  apply-Refuses : Refuses s (apply_request m f s)
  unfolding apply_request
  apply-Refuses = ground (arith, still, Option-cases m.ctx, Option-cases (m.decode_apply f.extra))

  open-Refuses : Refuses s (open_request m f s)
  unfolding open_request
  open-Refuses = elim (Option-cases (m.decode_open f.extra)) [
    | inl unread ↦ ground (arith, unread, Option-cases m.ctx)
    | inr (path, read) ↦
        ground (arith, still, read, Option-cases m.ctx, Result-cases (validate_path path))
  ]

  watch-Refuses : Refuses s (watch_request m f s)
  unfolding watch_request
  watch-Refuses = ground (arith, still, Option-cases m.ctx, Option-cases (m.decode_watch f.extra))

  attach-Refuses : Refuses s (attach_request m f s)
  unfolding attach_request
  attach-Refuses = ground (arith, still, Option-cases m.ctx, Option-cases (m.decode_window f.extra))

  resize-Refuses : Refuses s (resize_request m f s)
  unfolding resize_request
  resize-Refuses = ground (arith, still, Option-cases m.ctx, Option-cases (m.decode_window f.extra))

  -- The test of a method that the guard does not stand before is not true of a guarded one.
  unlisted :
      (method : Bytes)
      → is_guarded method ≡ false
      → is_guarded f.method ≡ true
      → (f.method == method) ≡ true
      → ⊥
  unlisted method free listed e = ground (arith, free, listed, e, bytes_beq_iff f.method method)

  -- A frozen session refuses every request that reads or writes the home directory, watches it, or
  -- opens or resizes a terminal, whatever the request's body, and is left as it was.
  pub frozen-Refuses : is_guarded f.method ≡ true → Refuses s (answer m f s)
  unfolding bytes_beq
  frozen-Refuses listed =
      answer-rule (Refuses s) m f s (λ _. replace-Refuses) (λ _. apply-Refuses) (λ _. open-Refuses)
        (λ _. watch-Refuses) (λ e. absurd (unlisted (codes "unwatch") refl listed e))
        (λ _. attach-Refuses) (λ e. absurd (unlisted (codes "detach") refl listed e))
        (λ _. resize-Refuses) (λ e. absurd (unlisted (codes "freeze") refl listed e))
        (λ e. absurd (unlisted (codes "thaw") refl listed e)) (refl, refl)
