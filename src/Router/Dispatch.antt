-- ===== src/Router/Dispatch.antt =====
-- Which registered command answers a packet: the search of the tables in `diag_cmd_dispatch`, and
-- the error reply of `diag_client_handle_command`.
use diag.Base.{
  ℕ, ◌+◌, bit_or, ◌≡◌, refl, ◌∙◌, ◌≢◌, true, false, ◌||◌, none, some, List, [], ◌∷◌, ◌++◌, arith,
  leb, ◌==◌, take, All,
}
use diag.Bytes.{Bytes, byte_at}
use diag.World.{DiagCmd, Handler, ok}
use diag.System.{World, dm_send, returning}
use diag.Cmds.{call_handler}
use diag.Router.{
  dispatch_key, covers, find_cmd, deliver_all, call_cmd, dispatch_fallback, diag_cmd_dispatch,
  diag_rsp_bad_command, bad_code, diag_client_handle_command, register_fallback_cmd,
  register_common_cmd, callback,
}

-- No command of a table covers the key.
abbrev pub NoneCovers : ℕ → List DiagCmd → Type 0
NoneCovers key = All (λ dc. covers key dc ≡ false)

find_cmd-none : (key : ℕ) (cmds : List DiagCmd) → NoneCovers key cmds → find_cmd key cmds ≡ none
unfolding find_cmd
find_cmd-none key [] h = refl
find_cmd-none key (dc ∷ cmds) h = rw h.0 (find_cmd-none key cmds h.1)

find_cmd-append :
    (key : ℕ) (cmds more : List DiagCmd)
    → NoneCovers key cmds
    → find_cmd key (cmds ++ more) ≡ find_cmd key more
unfolding find_cmd
find_cmd-append key [] more h = refl
find_cmd-append key (dc ∷ cmds) more h = rw h.0 (find_cmd-append key cmds more h.1)

deliver_all_none :
    (key : ℕ) (cmds : List DiagCmd) (addr : ℕ) (ptr : Bytes) (len : ℕ) (w : World)
    → NoneCovers key cmds
    → deliver_all key cmds addr ptr len w ≡ some (0, w)
unfolding deliver_all
deliver_all_none key [] addr ptr len w h = refl
deliver_all_none key (dc ∷ cmds) addr ptr len w h =
    rw (h.0, deliver_all) (deliver_all_none key cmds addr ptr len w h.1)

leb_refl : (n : ℕ) → leb n n ≡ true
leb_refl n = ground arith

callback-covers : (key : ℕ) (h : Handler) → covers key (callback key h) ≡ true
callback-covers key h = rw (leb_refl key) refl

find_cmd-callback :
    (key : ℕ) (h : Handler) (cmds : List DiagCmd)
    → NoneCovers key cmds
    → find_cmd key (cmds ++ (callback key h ∷ [])) ≡ some (callback key h)
unfolding find_cmd
find_cmd-callback key h cmds free =
    find_cmd-append key cmds (callback key h ∷ []) free ∙ rw (callback-covers key h) refl

dispatch-common :
    (addr : ℕ) (ptr : Bytes) (len : ℕ) (w : World) (dc : DiagCmd)
    → find_cmd (dispatch_key ptr) w.common_cmds ≡ some dc
    → diag_cmd_dispatch addr ptr len w ≡ call_cmd dc addr ptr len w
unfolding diag_cmd_dispatch
dispatch-common addr ptr len w dc e = rw (e, diag_cmd_dispatch) refl

dispatch-idle :
    (addr : ℕ) (ptr : Bytes) (len : ℕ) (w : World)
    → NoneCovers (dispatch_key ptr) w.common_cmds
    → NoneCovers (dispatch_key ptr) w.diag_cmds
    → diag_cmd_dispatch addr ptr len w ≡ dispatch_fallback (dispatch_key ptr) addr ptr len w
unfolding diag_cmd_dispatch
dispatch-idle addr ptr len w free idle =
    rw
      (
        find_cmd-none (dispatch_key ptr) w.common_cmds free,
        diag_cmd_dispatch,
        deliver_all_none (dispatch_key ptr) w.diag_cmds addr ptr len w idle,
      )
      refl

dispatch_fallback-some :
    (key addr : ℕ) (ptr : Bytes) (len : ℕ) (w : World) (dc : DiagCmd)
    → find_cmd key w.fallback_cmds ≡ some dc
    → dispatch_fallback key addr ptr len w ≡ call_cmd dc addr ptr len w
unfolding dispatch_fallback
dispatch_fallback-some key addr ptr len w dc e = rw (e, dispatch_fallback) refl

-- A packet of at least one byte that is no subsystem's.
abbrev pub IsPlain : Bytes → ℕ → Type 0
IsPlain ptr cmd = (byte_at ptr 0 ≡ cmd) × (cmd ≢ 75) × (cmd ≢ 128)

dispatch_key_plain :
    (ptr : Bytes) (cmd : ℕ) → IsPlain ptr cmd → dispatch_key ptr ≡ bit_or 0xffff0000 cmd
unfolding dispatch_key
dispatch_key_plain ptr cmd h = rw (h.0, test) refl
  where
    test : (cmd == 75) || (cmd == 128) ≡ false
    test = ground (arith, h.1, h.2)

-- A common command that is registered for a code that no earlier one covers answers the packets
-- of that code, whatever the other tables hold.
pub register_common_cmd-dispatch :
    (cmd : ℕ) (h : Handler) (addr : ℕ) (ptr : Bytes) (len : ℕ) (w : World)
    → IsPlain ptr cmd
    → NoneCovers (bit_or 0xffff0000 cmd) w.common_cmds
    → diag_cmd_dispatch addr ptr len
        (record w { common_cmds = register_common_cmd cmd h w.common_cmds })
      ≡ call_handler h addr ptr len
          (record w { common_cmds = register_common_cmd cmd h w.common_cmds })
unfolding register_common_cmd call_cmd
register_common_cmd-dispatch cmd h addr ptr len w plain free =
    dispatch-common addr ptr len
      (record w { common_cmds = register_common_cmd cmd h w.common_cmds })
      (callback (bit_or 0xffff0000 cmd) h)
      (rw (dispatch_key_plain ptr cmd plain)
        (find_cmd-callback (bit_or 0xffff0000 cmd) h w.common_cmds free))

-- A fallback command that is registered for a code answers the packets of that code where no
-- common command, no peripheral's and no earlier fallback covers it.
pub register_fallback_cmd-dispatch :
    (cmd : ℕ) (h : Handler) (addr : ℕ) (ptr : Bytes) (len : ℕ) (w : World)
    → IsPlain ptr cmd
    → NoneCovers (bit_or 0xffff0000 cmd) w.common_cmds
    → NoneCovers (bit_or 0xffff0000 cmd) w.diag_cmds
    → NoneCovers (bit_or 0xffff0000 cmd) w.fallback_cmds
    → diag_cmd_dispatch addr ptr len
        (record w { fallback_cmds = register_fallback_cmd cmd h w.fallback_cmds })
      ≡ call_handler h addr ptr len
          (record w { fallback_cmds = register_fallback_cmd cmd h w.fallback_cmds })
unfolding register_fallback_cmd call_cmd
register_fallback_cmd-dispatch cmd h addr ptr len w plain free idle free' =
    dispatch-idle addr ptr len w' (rw key free) (rw key idle)
    ∙ dispatch_fallback-some (dispatch_key ptr) addr ptr len w' (callback (bit_or 0xffff0000 cmd) h)
        (rw key (find_cmd-callback (bit_or 0xffff0000 cmd) h w.fallback_cmds free'))
  where
    key : dispatch_key ptr ≡ bit_or 0xffff0000 cmd
    key = dispatch_key_plain ptr cmd plain

    w' : World
    w' = record w { fallback_cmds = register_fallback_cmd cmd h w.fallback_cmds }

-- With memory granted, a command that no table covers is answered with the byte 0x13 and the
-- command itself, and changes nothing else.
pub diag_client_handle_command_unknown :
    (addr : ℕ) (ptr : Bytes) (len : ℕ) (w : World)
    → w.alloc (len + 1) ≡ true
    → NoneCovers (dispatch_key ptr) w.common_cmds
    → NoneCovers (dispatch_key ptr) w.diag_cmds
    → NoneCovers (dispatch_key ptr) w.fallback_cmds
    → diag_client_handle_command addr ptr len w
      ≡ returning ok (dm_send addr (0x13 ∷ take len ptr)) w
unfolding diag_client_handle_command diag_cmd_dispatch dispatch_fallback diag_rsp_bad_command
    bad_code returning
diag_client_handle_command_unknown addr ptr len w grant free idle free' =
    rw
      (
        dispatch-idle addr ptr len w free idle,
        diag_client_handle_command,
        find_cmd-none (dispatch_key ptr) w.fallback_cmds free',
        dispatch_fallback,
        grant,
        diag_rsp_bad_command,
      )
      refl
