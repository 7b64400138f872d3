-- ===== src/Daemon/Examples.antt =====
-- A local host's configuration: it is checked, saved and loaded.
use execenv.Base.{
  ◌≡◌, refl, true, false, Option, none, some, Bytes, [], ◌∷◌, bytes_eq, codes, bytes_beq,
}
use execenv.Errors.{Error, sentinel, not_found}
use execenv.Daemon.{ℤ, pos, Config, validate, check_adapter, refused, valid_digest, all_hex_digits}
use execenv.Daemon.Save.{Files, Outcome, save}
use execenv.Daemon.Atomic.{Saved, save-Saved}

abbrev local : Config
local = record {
  listen = codes "127.0.0.1:7000";
  token = codes "s3cret";
  security = codes "Insecure_Local";
  adapter = codes "Memory";
  tls_cert = [];
  tls_key = [];
  tls_client_ca = [];
  work_dir = [];
  device = [];
  runtime = [];
  supervisor = [];
  images = record { id = codes "base"; kernel = []; rootfs = []; hash = [] } ∷ [];
  slots = pos 2;
  cpu_millis = pos 0;
  memory_bytes = pos 0;
  disk_bytes = pos 0;
  network = [];
  allow = [];
  grace = pos 7;
  grace_text = codes "5s";
}

abbrev checked_local : Config
checked_local = record local {
  security = codes "insecure_local";
  adapter = codes "memory";
  network = codes "none";
  grace = pos 5;
}

abbrev five_seconds : Bytes → Option ℤ
five_seconds text = some (pos 5)

abbrev unicode : Bytes → Bytes
unicode s = s

abbrev encode_listen : Config → Option Bytes
encode_listen cfg = some cfg.listen

abbrev decode_local : Bytes → Option Config
decode_local raw = some (record checked_local { grace = pos 0 })

abbrev old_files : Files
old_files path = none

abbrev unreadable : Bytes → Error
unreadable path = sentinel not_found

abbrev all_well : Outcome
all_well = record {
  write_failed = none;
  partial = none;
  rename_failed = none;
  removed = true;
  chmod_failed = none;
}

save-Saved_example :
    Saved encode_listen
      (validate unicode five_seconds local)
      old_files
      all_well
      (codes "host.json")
      (save unicode five_seconds encode_listen old_files all_well (codes "host.json") local)
save-Saved_example =
    save-Saved unicode five_seconds encode_listen old_files all_well (codes "host.json") local

-- The memory adapter is refused where the host is public.
refuses_public_memory : check_adapter (codes "memory") (codes "tls") ≡ refused
unfolding check_adapter bytes_beq
refuses_public_memory = refl

-- Upper case digits are digits of a digest, and 63 of them are none.
takes_upper_case :
    valid_digest (codes "0123456789ABCDEF0123456789ABCDEF0123456789ABCDEF0123456789abcdef") ≡ true
unfolding valid_digest all_hex_digits
takes_upper_case = refl

refuses_odd :
    valid_digest (codes "0123456789ABCDEF0123456789ABCDEF0123456789ABCDEF0123456789abcde") ≡ false
unfolding valid_digest all_hex_digits
refuses_odd = refl
