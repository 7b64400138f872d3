-- ===== src/Daemon/Save.antt =====
-- daemon/config.go: Load and Save over a file system. The contents of the files are a function of
-- the path; the errors of the calls of os are given, and `encode` and `decode` are json.MarshalIndent
-- and json.Unmarshal. A call that fails to write leaves what `partial` says in the new file.
use execenv.Base.{
  Bool, Option, none, some, Bytes, [], ◌∷◌, ◌++◌, codes, ◌==◌, bytes_eq, if◌then◌else◌,
}
use execenv.Errors.{Error, op_error, Result, ok, err}
use execenv.Daemon.{ℤ, Config, validate, refused}

abbrev pub Files : Type 0
Files = Bytes → Option Bytes

unfoldable pub set_file : Files → Bytes → Option Bytes → Files
set_file files path content = λ p. if p == path then content else files p

-- How the calls of os in Save go.
pub record Outcome : Type 0 where
  pub write_failed : Option Error
  pub partial : Option Bytes
  pub rename_failed : Option Error
  -- os.Remove, whose error is ignored
  pub removed : Bool
  pub chmod_failed : Option Error

abbrev pub config_error {ℓ} : {A : Type ℓ} → Error → Result A
config_error e = err (op_error (codes "config") e)

unfoldable pub new_path : Bytes → Bytes
new_path path = path ++ codes ".new"

abbrev pub finish_save : Option Error → Files → Result (Unit {0}) × Files
finish_save (some e) files = (config_error e, files)
finish_save none files = (ok tt, files)

abbrev pub rename_new : Option Error → Outcome → Files → Bytes → Bytes → Result (Unit {0}) × Files
rename_new (some e) outcome files path raw =
    (config_error e, if outcome.removed then set_file files (new_path path) none else files)
rename_new none outcome files path raw =
    finish_save outcome.chmod_failed
      (set_file (set_file files (new_path path) none) path (some raw))

abbrev pub write_new : Option Error → Outcome → Files → Bytes → Bytes → Result (Unit {0}) × Files
write_new (some e) outcome files path raw =
    (config_error e, set_file files (new_path path) outcome.partial)
write_new none outcome files path raw =
    rename_new outcome.rename_failed outcome (set_file files (new_path path) (some raw)) path raw

-- What Save does with the checked document: WriteFile, Rename and Chmod
unfoldable pub replace_file : Files → Outcome → Bytes → Bytes → Result (Unit {0}) × Files
replace_file files outcome path raw = write_new outcome.write_failed outcome files path raw

abbrev pub save_encoded : Files → Outcome → Bytes → Option Bytes → Result (Unit {0}) × Files
save_encoded files outcome path none = (refused, files)
save_encoded files outcome path (some raw) = replace_file files outcome path (raw ++ b'\n' ∷ [])

abbrev pub save_checked :
    (Config → Option Bytes) → Files → Outcome → Bytes → Result Config → Result (Unit {0}) × Files
save_checked encode files outcome path (err e) = (err e, files)
save_checked encode files outcome path (ok cfg) = save_encoded files outcome path (encode cfg)

module _ (fold : Bytes → Bytes) (parse_duration : Bytes → Option ℤ) where
  -- Save
  unfoldable pub save :
      (Config → Option Bytes) → Files → Outcome → Bytes → Config → Result (Unit {0}) × Files
  save encode files outcome path cfg =
      if path == []
      then (refused, files)
      else save_checked encode files outcome path (validate fold parse_duration cfg)

  -- Load, where `failed` is the error of os.ReadFile for a path that it cannot read
  unfoldable pub load : (Bytes → Option Config) → (Bytes → Error) → Files → Bytes → Result Config
  load decode failed files path = if path == [] then refused else elim (files path) [
    | none ↦ config_error (failed path)
    | some raw ↦ elim (decode raw) [ none ↦ refused | some cfg ↦ validate fold parse_duration cfg ]
  ]
