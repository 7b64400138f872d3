-- ===== src/Agent/Server/Rules.antt =====
-- What holds after each branch of a handler holds after the handler.
use execenv.Base.{
  ℕ, ◌≡◌, refl, Bool, true, false, Option, none, some, codes, ◌==◌, nat_eq, bytes_eq, if◌then◌else◌,
  if-either, Option-cases, inl, inr,
}
use execenv.Errors.{Error, sentinel, invalid, frozen, Result, ok, err}
use execenv.Mux.{Frame}
use execenv.Agent.Server.{Server, Machine}
use execenv.Agent.Server.Handle.{
  Answer, refuse, with_ctx, guarded, unless_failed, unless_err, decoded, with_stream,
  replace_request, apply_request, open_request, watch_request, unwatch_request, attach_request,
  detach_request, resize_request, freeze_request, thaw_request, answer,
}

module _ (P : Server → Type 0) (m : Machine) (s : Server) (h : P s) where
  pub with_ctx-rule : (k : Answer) → P k.1 → P (with_ctx m s k).1
  with_ctx-rule k f = elim (Option-cases m.ctx) [
    | inl live ↦ rw (live, with_ctx) f
    | inr (e, over) ↦ rw (over, with_ctx) h
  ]

  pub guarded-rule : (k : Answer) → (s.frozen ≡ false → P k.1) → P (guarded s k).1
  guarded-rule k f = go s.frozen refl
    where
      go : (b : Bool) → s.frozen ≡ b → P (if b then refuse s (sentinel frozen) else k).1
      go true e = h
      go false e = f e

  pub unless_failed-rule : (o : Option Error) (k : Answer) → P k.1 → P (unless_failed s o k).1
  unless_failed-rule none k f = f
  unless_failed-rule (some e) k f = h

  pub decoded-rule :
      {A : Type 0} (o : Option A) (k : A → Answer) → ((a : A) → P (k a).1) → P (decoded s o k).1
  decoded-rule none k f = h
  decoded-rule (some a) k f = f a

  pub with_stream-rule :
      (stream : ℕ) (k : Answer) → ((stream == 0) ≡ false → P k.1) → P (with_stream s stream k).1
  with_stream-rule stream k f = go (stream == 0) refl
    where
      go : (b : Bool) → (stream == 0) ≡ b → P (if b then refuse s (sentinel invalid) else k).1
      go true e = h
      go false e = f e

  pub checked-rule :
      {A : Type 0} (r : Result A) (k : A → Answer) → ((a : A) → P (k a).1) → P (unless_err s r k).1
  checked-rule (ok a) k f = f a
  checked-rule (err e) k f = h

  pub if-rule :
      (b : Bool) (e : Error) (k : Answer) → (b ≡ false → P k.1) → P (if b then refuse s e else k).1
  if-rule true e k f = h
  if-rule false e k f = f refl

-- What every method's handler satisfies, and an unknown method's refusal.
pub answer-rule :
    (P : Answer → Type 0) (m : Machine) (f : Frame) (s : Server)
    → ((f.method == codes "replace") ≡ true → P (replace_request m f s))
    → ((f.method == codes "apply") ≡ true → P (apply_request m f s))
    → ((f.method == codes "open") ≡ true → P (open_request m f s))
    → ((f.method == codes "watch") ≡ true → P (watch_request m f s))
    → ((f.method == codes "unwatch") ≡ true → P (unwatch_request m f s))
    → ((f.method == codes "attach") ≡ true → P (attach_request m f s))
    → ((f.method == codes "detach") ≡ true → P (detach_request m f s))
    → ((f.method == codes "resize") ≡ true → P (resize_request m f s))
    → ((f.method == codes "freeze") ≡ true → P (freeze_request m s))
    → ((f.method == codes "thaw") ≡ true → P (thaw_request m s))
    → P (refuse s (sentinel invalid))
    → P (answer m f s)
unfolding answer
answer-rule P m f s rep app ope wat unw att det res fre tha none_of =
    if-either P (f.method == codes "replace") rep (λ _.
      if-either P (f.method == codes "apply") app (λ _.
        if-either P (f.method == codes "open") ope (λ _.
          if-either P (f.method == codes "watch") wat (λ _.
            if-either P (f.method == codes "unwatch") unw (λ _.
              if-either P (f.method == codes "attach") att (λ _.
                if-either P (f.method == codes "detach") det (λ _.
                  if-either P (f.method == codes "resize") res (λ _.
                    if-either P (f.method == codes "freeze") fre
                      (λ _. if-either P (f.method == codes "thaw") tha (λ _. none_of))))))))))
