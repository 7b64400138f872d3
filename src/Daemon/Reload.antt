-- ===== src/Daemon/Reload.antt =====
-- Load of daemon/config.go after Save.
use execenv.Base.{bytes_eq}
