-- ===== src/Cmds.antt =====
-- router/common_cmds.c and router/app_cmds.c: the commands that the router answers itself. `buf` is
-- the memory from the command on and `len` its length; the two are not the same, and the handlers
-- read their fields before they compare lengths.
pub mod Log
pub mod Msg
pub mod Event
pub mod App
use Log
use Msg
use Event
use App
use diag.Base.{ℕ}
use diag.Bytes.{Bytes}
use diag.World.{
  Handler, handle_logging_configuration, handle_extended_message_configuration,
  handle_event_get_mask, handle_event_set_mask, handle_event_report_control, handle_diag_version,
  handle_diag_version_no, handle_extended_build_id, handle_keep_alive, handle_diag_id,
  handle_hdlc_disable_cmd, DiagCmd,
}
use diag.System.{Run}

-- A call through a `struct diag_cmd`'s callback.
unfoldable pub call_handler : Handler → ℕ → Bytes → ℕ → Run
call_handler handle_logging_configuration = Log.logging_configuration
call_handler handle_extended_message_configuration = Msg.extended_message_configuration
call_handler handle_event_get_mask = Event.event_get_mask
call_handler handle_event_set_mask = Event.event_set_mask
call_handler handle_event_report_control = Event.event_report_control
call_handler handle_diag_version = App.diag_version
call_handler handle_diag_version_no = App.diag_version_no
call_handler handle_extended_build_id = App.extended_build_id
call_handler handle_keep_alive = App.keep_alive
call_handler handle_diag_id = App.diag_id_query
call_handler handle_hdlc_disable_cmd = App.hdlc_disable
