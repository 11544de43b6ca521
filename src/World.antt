-- ===== src/World.antt =====
-- The state of the router: its clients, peripherals, command tables, masks and identifiers, and the
-- type of its operations.
use diag.Base.{ℕ, Bool, Option, List}
use diag.Bytes.{Bytes}
use diag.CircBuf.{CircBuf}
use diag.Hdlc.{HdlcDecoder}

-- router/mbuf.h. `payload` is what has been stored behind the header; `flow` names a flow context.
pub record Mbuf : Type 0 where
  pub size : ℕ
  pub offset : ℕ
  pub flow : Option ℕ
  pub payload : Bytes

abbrev pub Queue : Type 0
Queue = List Mbuf

-- Whether the allocator grants a request of so many bytes.
abbrev pub Alloc : Type 0
Alloc = ℕ → Bool

-- `packets` of each flow context.
abbrev pub Flows : Type 0
Flows = ℕ → ℕ

-- `enum diag_encode_type` of router/dm.h.
abbrev pub diag_encode_raw : ℕ
diag_encode_raw = 1

abbrev pub diag_encode_hdlc : ℕ
diag_encode_hdlc = 2

abbrev pub diag_encode_nhdlc : ℕ
diag_encode_nhdlc = 3

-- `struct diag_client` of router/dm.c. `id` stands for its address; `in_fd` is `none` for -1.
pub record DiagClient : Type 0 where
  pub id : ℕ
  pub in_fd : Option ℕ
  pub out_fd : ℕ
  pub encode_type : ℕ
  pub encode_hdlc_reset : Bool
  pub enabled : Bool
  pub recv_buf : CircBuf
  pub outq : Queue

-- `struct peripheral` of router/diag.h. `id` stands for its address; a descriptor is `none` for
-- -1. Its `send` and `close` are those for sockets where `sockets` is set, and else those for rpmsg.
pub record Peripheral : Type 0 where
  pub id : ℕ
  pub features : ℕ
  pub cmdq : Queue
  pub cntlq : Queue
  pub dataq : Queue
  pub cntl_fd : Option ℕ
  pub data_fd : Option ℕ
  pub cmd_fd : Option ℕ
  pub flow : Option ℕ
  pub diag_id : ℕ
  pub sockets : Bool
  pub name : Bytes
  pub cntl_open : Bool
  pub data_open : Bool
  pub recv_buf : CircBuf
  pub recv_decoder : HdlcDecoder

-- The callbacks that a `struct diag_cmd` can hold.
pub data Handler : Type 0 where
  handle_logging_configuration handle_extended_message_configuration : Handler
  handle_event_get_mask handle_event_set_mask handle_event_report_control : Handler
  handle_diag_version handle_diag_version_no handle_extended_build_id : Handler
  handle_keep_alive handle_diag_id handle_hdlc_disable_cmd : Handler

-- `struct diag_cmd`: the peripheral by its `id`, and the callback if there is one.
pub record DiagCmd : Type 0 where
  pub first : ℕ
  pub last : ℕ
  pub peripheral : Option ℕ
  pub cb : Option Handler

-- What a handler returns: 0, or a negative errno.
pub data Ret : Type 0 where
  ok enoent einval emsgsize enomem : Ret
