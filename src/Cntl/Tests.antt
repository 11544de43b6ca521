-- ===== src/Cntl/Tests.antt =====
-- Control packets of one peripheral, and the theorems on its commands and packets.
use diag.Base.{
  ℕ, ◌<◌, ◌≡◌, refl, inl, true, false, Option, none, some, List, [], ◌∷◌, ◌++◌, arith, length,
}
use diag.Bytes.{get32, Bytes, get16}
use diag.World.{DiagCmd, Alloc, Peripheral}
use diag.Masks.{Masks}
use diag.System.{DiagId}
use diag.Cntl.Control.{Session, control}
use diag.Cntl.Others.{Kept, diag_cntl_recv-Kept}
use diag.Cntl.DiagIds.{
  IsName, c_string, same_string, find_diag_id, register_diag_id, find_diag_id-register,
}
use diag.Masks.Memory.{mask_all_enabled, mask_invalid}
use diag.Cntl.{diag_cntl_register}
use diag.Cntl.Recv.{Packet, packets, diag_cntl_recv, recv_loop, control_all, diag_cntl_recv-packets}

abbrev grant : Alloc
grant n = true

abbrev cmd : ℕ → Option ℕ → DiagCmd
cmd key perif = record { first = key; last = key; peripheral = perif; cb = none }

abbrev cmds : List DiagCmd
cmds = cmd 1 (some 5) ∷ cmd 2 none ∷ cmd 3 (some 6) ∷ []

-- A registration of the subsystem 18's commands 0x100 to 0x1ff.
abbrev registration : Bytes
registration =
    1 ∷ 0 ∷ 0 ∷ 0 ∷ 20 ∷ 0 ∷ 0 ∷ 0 ∷ 1 ∷ 0 ∷ 0 ∷ 0 ∷ 0xff ∷ 0 ∷ 18 ∷ 0 ∷ 1 ∷ 0 ∷ 0 ∷ 0 ∷ 0 ∷ 1
    ∷ 0xff ∷ 1 ∷ 0 ∷ 0 ∷ 0 ∷ 0 ∷ []

-- The same range taken back.
abbrev deregistration : Bytes
deregistration =
    2 ∷ 0 ∷ 0 ∷ 0 ∷ 14 ∷ 0 ∷ 0 ∷ 0 ∷ 1 ∷ 0 ∷ 0 ∷ 0 ∷ 0xff ∷ 0 ∷ 18 ∷ 0 ∷ 1 ∷ 0 ∷ 0 ∷ 1 ∷ 0xff ∷ 1
    ∷ []

one_range : 0 < get16 deregistration 16
unfolding get16
one_range = omega arith

abbrev registered : List DiagCmd
registered = diag_cntl_register grant 5 registration cmds

-- A handler that records each packet's command.
abbrev note_cmd : ℕ → Bytes → List ℕ → Option (List ℕ)
note_cmd c pkt seen = some (seen ++ (c ∷ []))

abbrev two_packets : List Packet
two_packets = record { cmd = 8; body = 1 ∷ 2 ∷ 3 ∷ 4 ∷ [] } ∷ record { cmd = 4; body = [] } ∷ []

diag_cntl_recv-packets_example :
    diag_cntl_recv note_cmd (packets two_packets (9 ∷ 0 ∷ [])) []
    ≡ control_all note_cmd two_packets (9 ∷ 0 ∷ []) []
diag_cntl_recv-packets_example =
    diag_cntl_recv-packets note_cmd two_packets (9 ∷ 0 ∷ []) []
      ((omega arith, omega arith), ((omega arith, omega arith), tt)) (inl (omega arith))

abbrev masks : Masks
masks = record {
  msg = record { items = []; status = mask_all_enabled };
  bt = record { items = []; status = mask_invalid };
  log = record { items = []; status = mask_invalid };
  event = record { ptr = []; mask_len = 0; status = mask_invalid; max_num_bits = 0 };
}

abbrev modem : Peripheral
modem = record {
  id = 5;
  features = 0;
  cmdq = [];
  cntlq = [];
  dataq = [];
  cntl_fd = some 9;
  data_fd = none;
  cmd_fd = none;
  flow = none;
  diag_id = 0;
  sockets = false;
  name = [];
  cntl_open = false;
  data_open = false;
  recv_buf = record { buf = []; head = 0; tail = 0 };
  recv_decoder = record { raw = []; escape = 0 };
}

abbrev session : Session
session = record { peripheral = modem; diag_cmds = cmds; ids = record { table = []; last = 1 } }

abbrev registered_session : Session
registered_session = record session { diag_cmds = diag_cntl_register grant 5 registration cmds }

registration_read :
    diag_cntl_recv (control grant (λ i. 0) masks (length registration)) registration session
    ≡ some registered_session
unfolding diag_cntl_recv recv_loop control get32
registration_read = refl

diag_cntl_recv-Kept_example : Kept session registered_session
diag_cntl_recv-Kept_example =
    diag_cntl_recv-Kept grant (λ i. 0) masks registration session registered_session
      registration_read

abbrev name : Bytes
name = b'm' ∷ b'd' ∷ []

name-IsName : IsName name
name-IsName = (omega arith, (omega arith, (omega arith, tt)))

abbrev table : List DiagId
table = record { diag_id = 1; process_name = b'a' ∷ 0 ∷ [] } ∷ []

not_there : find_diag_id name table ≡ none
unfolding find_diag_id same_string c_string
not_there = refl

find_diag_id-register_example : find_diag_id name (register_diag_id grant 7 name 3 table).1 ≡ some 7
find_diag_id-register_example =
    find_diag_id-register grant 7 name table name-IsName (omega arith) refl not_there
