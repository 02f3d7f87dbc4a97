-- ===== src/Agent/Dispatch.antt =====
-- cmd/agent/main.go, runPTZCommands: what the agent does with a command that it took, and the result
-- that it reports for it. `text` is the message of an error.
use cloud_nvr.Base.{String, true, false, if◌then◌else◌, ◌==◌, string_eq}
use cloud_nvr.Ptz.{PtzCommand, PtzResult}
use cloud_nvr.Server.Commands.{Velocity}
use cloud_nvr.Agent.Onvif.{
  Camera, Reader, Failure, Result, done, failed, Action, move, set_home, goto_home,
}

unfoldable pub executed :
    {S F : Type 0} → Reader F → Camera S → Velocity F → PtzCommand F → Action S Unit
executed x c v command =
    if command.action == "set_home"
    then set_home x c
    else if command.action == "goto_home"
    then goto_home x c
    else move x c v command.pan command.tilt command.zoom

abbrev pub reported : {F : Type 0} → (Failure → String) → PtzCommand F → Result Unit → PtzResult
reported text command (done _) = record { id = command.id; success = true; message = "" }
reported text command (failed e) = record { id = command.id; success = false; message = text e }
