-- ===== src/Daemon/Register.antt =====
-- The tables that main of router/diag.c fills: register_common_cmds of router/common_cmds.c and
-- register_app_cmds of router/app_cmds.c.
use diag.Base.{List}
use diag.World.{
  DiagCmd, handle_logging_configuration, handle_extended_message_configuration,
  handle_event_get_mask, handle_event_set_mask, handle_event_report_control, handle_diag_version,
  handle_diag_version_no, handle_extended_build_id, handle_keep_alive, handle_diag_id,
  handle_hdlc_disable_cmd,
}
use diag.Router.{register_common_cmd, register_fallback_cmd, register_fallback_subsys_cmd}

unfoldable pub register_common_cmds : List DiagCmd → List DiagCmd
unfolding register_common_cmd
register_common_cmds cmds = register_common_cmd 0x60 handle_event_report_control (
    register_common_cmd 0x82 handle_event_set_mask (
      register_common_cmd 0x81 handle_event_get_mask (
        register_common_cmd 0x7d handle_extended_message_configuration
          (register_common_cmd 0x73 handle_logging_configuration cmds))))

unfoldable pub register_app_cmds : List DiagCmd → List DiagCmd
unfolding register_fallback_cmd register_fallback_subsys_cmd
register_app_cmds cmds = register_fallback_subsys_cmd 18 0x218 handle_hdlc_disable_cmd (
    register_fallback_subsys_cmd 18 0x222 handle_diag_id (
      register_fallback_subsys_cmd 50 3 handle_keep_alive (
        register_fallback_cmd 124 handle_extended_build_id (
          register_fallback_cmd 0 handle_diag_version_no
            (register_fallback_cmd 28 handle_diag_version cmds)))))
