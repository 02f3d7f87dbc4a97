-- ===== src/Server/Commands/Answered.antt =====
-- Which commands get past controlPTZ of internal/cloud/ptz_handlers.go, and why others do not.
use cloud_nvr.Base.{string_eq, nat_eq}
use cloud_nvr.Server.Commands.Accepted.{Accepted}
