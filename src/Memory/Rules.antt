-- ===== src/Memory/Rules.antt =====
-- A property of worlds that an operation's refusals leave alone holds after the operation if its
-- last branch brings it about: one rule for each guard of memory's methods.
use execenv.Base.{
  ◌≡◌, refl, Bool, true, false, none, some, Bytes, Bool-cases, inl, inr, if◌then◌else◌,
}
use execenv.Errors.{Error}
use execenv.Memory.State.{Environment, World, Ctx, Outcome}
use execenv.Memory.Env.{refuse, with_ctx, guarded}

module _ {A : Type 0} (P : World → Type 0) (w : World) (op : Bytes) (k : Outcome A) (h : P w) where
  pub with_ctx-rule : (ctx : Ctx) → (ctx ≡ none → P k.1) → P (with_ctx w op ctx k).1
  with_ctx-rule none f = f refl
  with_ctx-rule (some e) f = h

  pub guarded-rule :
      (e : Environment) → (e.revoked ≡ false → e.frozen ≡ false → P k.1) → P (guarded w op e k).1
  guarded-rule e f = elim (Bool-cases e.revoked) [
    | inl gone ↦ rw gone h
    | inr live ↦ elim (Bool-cases e.frozen) [
      | inl cold ↦ rw (live, cold) h
      | inr warm ↦ rw (live, warm) (f live warm)
    ]
  ]

  pub if-rule : (b : Bool) (e : Error) → (b ≡ false → P k.1) → P (if b then refuse w op e else k).1
  if-rule true e f = h
  if-rule false e f = f refl
