-- ===== src/Cntl.antt =====
-- router/diag_cntl.c: the commands that a peripheral registers and takes back, and the loop over its
-- control packets. The memory of a packet is the list of its bytes from its header on; the packet
-- may be shorter than what is read of it, and then the read is of whatever lies behind.
pub mod Registry
pub mod Send
pub mod Recv
pub mod DiagIds
pub mod Feature
pub mod Control
pub mod Layout
pub mod Others
mod Tests
use diag.Base.{
  ℕ, zero, suc, ◌+◌, ◌*◌, ◌^◌, bit_or, Bool, false, not, ◌&&◌, none, some, List, [], ◌∷◌, ◌++◌,
  ◌==◌, if◌then◌else◌, keep_if,
}
use diag.Bytes.{Bytes, get16, get32, u32}
use diag.World.{DiagCmd, Alloc}
use diag.Queue.{◌>>=◌}

abbrev pub diag_cmd_subsys_dispatch : ℕ
diag_cmd_subsys_dispatch = 75

-- `cmd << 24 | subsys << 16 | code` on `unsigned int`.
unfoldable pub cmd_key : ℕ → ℕ → ℕ → ℕ
cmd_key cmd subsys code = bit_or (bit_or (u32 (cmd * 2 ^ 24)) (u32 (subsys * 2 ^ 16))) code

-- `struct cmd_range_reg` is eight bytes, `struct cmd_range_dereg` four.
pub record CmdRange : Type 0 where
  pub first : ℕ
  pub last : ℕ

unfoldable pub packet_cmd : ℕ → ℕ → ℕ
packet_cmd cmd subsys =
    if cmd == 0xff && not (subsys == 0xff) then diag_cmd_subsys_dispatch else cmd

-- `ranges[i]` of a packet whose ranges begin at `base` and are `stride` bytes each.
unfoldable pub packet_range : Bytes → ℕ → ℕ → ℕ → CmdRange
unfolding packet_cmd cmd_key
packet_range pkt base stride i =
    let cmd = packet_cmd (get16 pkt 12) (get16 pkt 14) in
    record {
      first = cmd_key cmd (get16 pkt 14) (get16 pkt (base + stride * i));
      last = cmd_key cmd (get16 pkt 14) (get16 pkt (base + stride * i + 2));
    }

-- `sizeof(struct diag_cmd)`
abbrev pub sizeof_diag_cmd : ℕ
sizeof_diag_cmd = 40

-- The loop of `diag_cntl_register` with `left` entries to go; it stops where no memory is granted.
unfoldable pub register_from : Alloc → ℕ → Bytes → ℕ → ℕ → List DiagCmd → List DiagCmd
register_from alloc perif pkt zero i cmds = cmds
register_from alloc perif pkt (suc left) i cmds =
    let r = packet_range pkt 20 8 i in
    let dc : DiagCmd = record {
      first = r.first;
      last = r.last;
      peripheral = some perif;
      cb = none;
    } in
    let rest = register_from alloc perif pkt left (i + 1) (cmds ++ (dc ∷ [])) in
    if alloc sizeof_diag_cmd then rest else cmds

unfoldable pub diag_cntl_register : Alloc → ℕ → Bytes → List DiagCmd → List DiagCmd
unfolding register_from
diag_cntl_register alloc perif pkt cmds = register_from alloc perif pkt (get16 pkt 16) 0 cmds

-- Whether a command belongs to a peripheral.
unfoldable pub is_owned : ℕ → DiagCmd → Bool
is_owned perif dc = elim dc.peripheral [ none ↦ false | some p ↦ p == perif ]

-- What one range takes out of `diag_cmds`.
unfoldable pub deregister_range : ℕ → CmdRange → List DiagCmd → List DiagCmd
deregister_range perif r =
    keep_if (λ dc. not (is_owned perif dc && (dc.first == r.first && dc.last == r.last)))

unfoldable pub deregister_from : ℕ → Bytes → ℕ → ℕ → List DiagCmd → List DiagCmd
deregister_from perif pkt zero i cmds = cmds
deregister_from perif pkt (suc left) i cmds =
    deregister_from perif pkt left (i + 1) (deregister_range perif (packet_range pkt 18 4 i) cmds)

unfoldable pub diag_cntl_deregister : ℕ → Bytes → List DiagCmd → List DiagCmd
unfolding deregister_from
diag_cntl_deregister perif pkt cmds = deregister_from perif pkt (get16 pkt 16) 0 cmds

-- Every command of a peripheral that goes away is taken out.
unfoldable pub diag_cntl_close : ℕ → List DiagCmd → List DiagCmd
unfolding is_owned
diag_cntl_close perif = keep_if (λ dc. not (is_owned perif dc))
