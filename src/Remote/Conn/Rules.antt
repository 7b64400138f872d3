-- ===== src/Remote/Conn/Rules.antt =====
-- What holds after each branch of a connection's handler holds after the handler.
use execenv.Base.{ℕ, ◌≡◌, true, false, Option, none, some, codes, ◌==◌, nat_eq, bytes_eq, if-either}
use execenv.Errors.{sentinel, invalid, Result, ok, err}
use execenv.Mux.{Frame}
use execenv.Memory.State.{Ctx}
use execenv.Remote.Conn.{InnerHost, Codec, Conn}
use execenv.Remote.Conn.Handle.{
  Answer, refuse, no_extra, decoded, with_stream, with_env, ready_request, ensure_request,
  revoke_request, attach_request, detach_request, resize_request, freeze_request, thaw_request,
  replace_request, apply_request, watch_request, unwatch_request, open_request, answer,
}

module _ {W : Type 0} (P : Conn W → Type 0) (c : Conn W) (h : P c) where
  pub decoded-rule :
      {A : Type 0} (o : Option A) (k : A → Answer W) → ((a : A) → P (k a).1) → P (decoded c o k).1
  decoded-rule none k f = h
  decoded-rule (some a) k f = f a

  pub with_stream-rule :
      (stream : ℕ) (k : Answer W) → ((stream == 0) ≡ false → P k.1) → P (with_stream c stream k).1
  with_stream-rule stream k f = if-either (λ (a : Answer W). P a.1) (stream == 0) (λ _. h) f

  pub with_env-rule :
      (o : Option ℕ) (k : ℕ → Answer W) → ((r : ℕ) → P (k r).1) → P (with_env c o k).1
  with_env-rule none k f = h
  with_env-rule (some r) k f = f r

  pub no_extra-rule :
      (r : Result (Unit {0}) × W) → ((w : W) → P (record c { world = w })) → P (no_extra c r).1
  no_extra-rule (ok done, w) f = f w
  no_extra-rule (err e, w) f = f w

module _ {W : Type 0} (P : Answer W → Type 0) (i : InnerHost W) (x : Codec) (ctx : Ctx) (f : Frame)
    (c : Conn W) where
  pub answer-rule :
      ((f.method == codes "ready") ≡ true → P (ready_request i x ctx f c))
      → ((f.method == codes "ensure") ≡ true → P (ensure_request i x ctx f c))
      → ((f.method == codes "revoke") ≡ true → P (revoke_request i x ctx f c))
      → ((f.method == codes "attach") ≡ true → P (attach_request i x ctx f c))
      → ((f.method == codes "detach") ≡ true → P (detach_request i x ctx f c))
      → ((f.method == codes "resize") ≡ true → P (resize_request i x ctx f c))
      → ((f.method == codes "freeze") ≡ true → P (freeze_request i x ctx f c))
      → ((f.method == codes "thaw") ≡ true → P (thaw_request i x ctx f c))
      → ((f.method == codes "replace") ≡ true → P (replace_request i x ctx f c))
      → ((f.method == codes "apply") ≡ true → P (apply_request i x ctx f c))
      → ((f.method == codes "watch") ≡ true → P (watch_request i x ctx f c))
      → ((f.method == codes "unwatch") ≡ true → P (unwatch_request i x ctx f c))
      → ((f.method == codes "open") ≡ true → P (open_request i x ctx f c))
      → P (refuse c (sentinel invalid))
      → P (answer i x ctx f c)
  unfolding answer
  answer-rule rea ens rev att det res fre tha rep app wat unw ope none_of =
      if-either P (f.method == codes "ready") rea (λ _.
        if-either P (f.method == codes "ensure") ens (λ _.
          if-either P (f.method == codes "revoke") rev (λ _.
            if-either P (f.method == codes "attach") att (λ _.
              if-either P (f.method == codes "detach") det (λ _.
                if-either P (f.method == codes "resize") res (λ _.
                  if-either P (f.method == codes "freeze") fre (λ _.
                    if-either P (f.method == codes "thaw") tha (λ _.
                      if-either P (f.method == codes "replace") rep (λ _.
                        if-either P (f.method == codes "apply") app (λ _.
                          if-either P (f.method == codes "watch") wat (λ _.
                            if-either P (f.method == codes "unwatch") unw (λ _.
                              if-either P (f.method == codes "open") ope (λ _. none_of)))))))))))))
