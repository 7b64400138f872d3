-- ===== src/Daemon/Atomic.antt =====
-- What Save of daemon/config.go leaves of the files, however the calls of os go.
use execenv.Base.{
  ◌≡◌, ◌≢◌, ◌⊎◌, inl, inr, refl, ap, ◌∙◌, false, Option, none, some, Bytes, [], ◌∷◌, ◌++◌, codes,
  arith, length, length-append, ◌==◌, bytes_eq, bytes_beq_iff, bytes_beq_self, if-either,
  Bool-cases,
}
use execenv.Errors.{Error, Result, ok, err}
use execenv.Daemon.{ℤ, Config, validate, refused}
use execenv.Daemon.Save.{
  Files, Outcome, set_file, config_error, new_path, finish_save, rename_new, write_new,
  replace_file, save_encoded, save_checked, save,
}

pub set_file-same :
    (files : Files) (path : Bytes) (content : Option Bytes)
    → set_file files path content path ≡ content
unfolding set_file
set_file-same files path content = rw (bytes_beq_self path)

new_path-other : (path : Bytes) → (path == new_path path) ≡ false
unfolding new_path
new_path-other path = elim (Bool-cases (path == (path ++ codes ".new"))) [
  | inr other ↦ other
  | inl same ↦
      absurd (
        ground
          (arith, ap length ((bytes_beq_iff path _).0 same), length-append path (codes ".new")))
]

set_file-new_path :
    (files : Files) (path : Bytes) (content : Option Bytes)
    → set_file files (new_path path) content path ≡ files path
unfolding set_file
set_file-new_path files path content = rw (new_path-other path)

-- Files other than the two that Save writes are left as they are.
abbrev Elsewhere : Files → Bytes → Files → Type 0
Elsewhere files path after = (p : Bytes) → p ≢ path → p ≢ new_path path → after p ≡ files p

set_file-other :
    (files : Files) (path p : Bytes) (content : Option Bytes)
    → p ≢ path
    → set_file files path content p ≡ files p
unfolding set_file
set_file-other files path p content other = elim (Bool-cases (p == path)) [
  | inl same ↦ absurd (other ((bytes_beq_iff p path).0 same))
  | inr e ↦ rw e
]

-- Either the file is as it was and Save fails, or it is the new document and Save fails only where
-- Chmod does.
abbrev Replaced : Files → Option Error → Bytes → Bytes → Result (Unit {0}) × Files → Type 0
Replaced files chmod_failed path raw (result, after) =
    (result ≢ ok tt) × (after path ≡ files path)
    ⊎ (after path ≡ some raw) × ((result ≡ ok tt) ⊎ (chmod_failed ≢ none))

config_error-other : (e : Error) → config_error {A = Unit {0}} e ≢ ok tt
config_error-other e h = ground arith

finish_save-Replaced :
    (before files : Files) (failed : Option Error) (path raw : Bytes)
    → files path ≡ some raw
    → Replaced before failed path raw (finish_save failed files)
finish_save-Replaced before files (some e) path raw now = inr (now, inr (λ h. ground arith))
finish_save-Replaced before files none path raw now = inr (now, inl refl)

rename_new-Replaced :
    (before files : Files) (failed : Option Error) (outcome : Outcome) (path raw : Bytes)
    → files path ≡ before path
    → Replaced before outcome.chmod_failed path raw (rename_new failed outcome files path raw)
rename_new-Replaced before files (some e) outcome path raw kept = inl (
  config_error-other e,
  if-either (λ (after : Files). after path ≡ before path) outcome.removed
      (λ _. set_file-new_path files path none ∙ kept) (λ _. kept),
)
rename_new-Replaced before files none outcome path raw kept =
    finish_save-Replaced before _ outcome.chmod_failed path raw (set_file-same _ path (some raw))

write_new-Replaced :
    (files : Files) (failed : Option Error) (outcome : Outcome) (path raw : Bytes)
    → Replaced files outcome.chmod_failed path raw (write_new failed outcome files path raw)
write_new-Replaced files (some e) outcome path raw =
    inl (config_error-other e, set_file-new_path files path outcome.partial)
write_new-Replaced files none outcome path raw =
    rename_new-Replaced files _ outcome.rename_failed outcome path raw
      (set_file-new_path files path (some raw))

finish_save-files : (failed : Option Error) (files : Files) → (finish_save failed files).1 ≡ files
finish_save-files (some e) files = refl
finish_save-files none files = refl

rename_new-Elsewhere :
    (failed : Option Error) (outcome : Outcome) (files : Files) (path raw : Bytes)
    → Elsewhere files path (rename_new failed outcome files path raw).1
rename_new-Elsewhere (some e) outcome files path raw p not_path not_new =
    if-either (λ (after : Files). after p ≡ files p) outcome.removed
      (λ _. set_file-other files (new_path path) p none not_new) (λ _. refl)
rename_new-Elsewhere none outcome files path raw p not_path not_new =
    ap (λ (after : Files). after p) (finish_save-files outcome.chmod_failed _)
    ∙ set_file-other _ path p (some raw) not_path
    ∙ set_file-other files (new_path path) p none not_new

write_new-Elsewhere :
    (failed : Option Error) (outcome : Outcome) (files : Files) (path raw : Bytes)
    → Elsewhere files path (write_new failed outcome files path raw).1
write_new-Elsewhere (some e) outcome files path raw p not_path not_new =
    set_file-other files (new_path path) p outcome.partial not_new
write_new-Elsewhere none outcome files path raw p not_path not_new =
    rename_new-Elsewhere outcome.rename_failed outcome _ path raw p not_path not_new
    ∙ set_file-other files (new_path path) p (some raw) not_new

-- The document that a checked configuration is encoded as
abbrev Document : (Config → Option Bytes) → Result Config → Bytes → Type 0
Document encode checked raw = (out : Config) × (checked ≡ ok out) × (encode out ≡ some raw)

-- What Save leaves of the files and what it returns.
abbrev pub Saved :
    (Config → Option Bytes)
    → Result Config
    → Files
    → Outcome
    → Bytes
    → Result (Unit {0}) × Files
    → Type 0
Saved encode checked files outcome path (result, after) =
    Elsewhere files path after
    × ((result ≢ ok tt) × (after path ≡ files path)
        ⊎ ((raw : Bytes) × Document encode checked raw
            × (after path ≡ some (raw ++ b'\n' ∷ []))
            × ((result ≡ ok tt) ⊎ (outcome.chmod_failed ≢ none))))

save_encoded-Saved :
    (encode : Config → Option Bytes) (out : Config) (files : Files) (outcome : Outcome)
    (path : Bytes) (encoded : Option Bytes)
    → encode out ≡ encoded
    → Saved encode (ok out) files outcome path (save_encoded files outcome path encoded)
unfolding refused replace_file
save_encoded-Saved encode out files outcome path none e =
    (λ p _ _. refl, inl (config_error-other _, refl))
save_encoded-Saved encode out files outcome path (some raw) e = (
  write_new-Elsewhere outcome.write_failed outcome files path _,
  elim (write_new-Replaced files outcome.write_failed outcome path (raw ++ b'\n' ∷ [])) [
    | inl unchanged ↦ inl unchanged
    | inr (now, returned) ↦ inr (raw, (out, refl, e), now, returned)
  ],
)

save_checked-Saved :
    (encode : Config → Option Bytes) (checked : Result Config) (files : Files) (outcome : Outcome)
    (path : Bytes)
    → Saved encode checked files outcome path (save_checked encode files outcome path checked)
save_checked-Saved encode (err e) files outcome path =
    (λ p _ _. refl, inl (λ h. ground arith, refl))
save_checked-Saved encode (ok out) files outcome path =
    save_encoded-Saved encode out files outcome path (encode out) refl

module _ (fold : Bytes → Bytes) (parse_duration : Bytes → Option ℤ) where
  -- Save touches no file but the path's and the one it renames. It fails and leaves the path's file
  -- as it was, or the path's file is the whole of the document of the checked configuration and
  -- Save fails only where Chmod does.
  pub save-Saved :
      (encode : Config → Option Bytes) (files : Files) (outcome : Outcome) (path : Bytes)
      (cfg : Config)
      → Saved encode
          (validate fold parse_duration cfg)
          files
          outcome
          path
          (save fold parse_duration encode files outcome path cfg)
  unfolding save refused
  save-Saved encode files outcome path cfg =
      if-either (Saved encode (validate fold parse_duration cfg) files outcome path) (path == [])
        (λ _. (λ p _ _. refl, inl (config_error-other _, refl)))
        (λ _. save_checked-Saved encode (validate fold parse_duration cfg) files outcome path)
