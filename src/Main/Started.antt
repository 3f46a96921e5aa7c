-- ===== src/Main/Started.antt =====
-- The runs of cmd/localsend-nas/main.go from its start.
use localsend_nas.Host.{Host}
use localsend_nas.Settings
use localsend_nas.Receive
