-- ===== src/Program/Tables.antt =====
-- The command tables that main of router/diag.c leaves.
use diag.Base.{
  ℕ, ◌≡◌, refl, ap, ◌∙◌, inl, inr, Option, none, some, List, [], ◌∷◌, ◌++◌, arith, ◌==◌,
  if◌then◌else◌, Bool-cases, take, drop,
}
use diag.Bytes.{Bytes}
use diag.World.{
  DiagCmd, Handler, Ret, enoent, ok, handle_logging_configuration,
  handle_extended_message_configuration, handle_event_get_mask, handle_event_set_mask,
  handle_event_report_control, handle_diag_version, handle_diag_version_no,
  handle_extended_build_id, handle_keep_alive, handle_diag_id, handle_hdlc_disable_cmd,
}
use diag.System.{World}
use diag.Cmds.{call_handler}
use diag.Queue.{◌>>=◌}
use diag.Daemon.Register.{register_common_cmds, register_app_cmds}
use diag.Router.{
  dispatch_key, covers, find_cmd, deliver_all, call_cmd, dispatch_fallback, diag_cmd_dispatch,
  callback, register_common_cmd, register_fallback_cmd, register_fallback_subsys_cmd,
}

-- The keys of the commands that are answered here: a code below 0xffff0000, or "K" with a subsystem and
-- its code.
abbrev pub builtin_commands : List (ℕ × Handler)
builtin_commands =
    (0xffff0073, handle_logging_configuration)
    ∷ (0xffff007d, handle_extended_message_configuration)
    ∷ (0xffff0081, handle_event_get_mask)
    ∷ (0xffff0082, handle_event_set_mask)
    ∷ (0xffff0060, handle_event_report_control)
    ∷ (0xffff001c, handle_diag_version)
    ∷ (0xffff0000, handle_diag_version_no)
    ∷ (0xffff007c, handle_extended_build_id)
    ∷ (0x4b320003, handle_keep_alive)
    ∷ (0x4b120222, handle_diag_id)
    ∷ (0x4b120218, handle_hdlc_disable_cmd)
    ∷ []

abbrev pub lookup : ℕ → List (ℕ × Handler) → Option Handler
lookup key [] = none
lookup key ((k, h) ∷ table) = if key == k then some h else lookup key table

-- A table as a list of commands.
abbrev callbacks : List (ℕ × Handler) → List DiagCmd
callbacks [] = []
callbacks ((k, h) ∷ table) = callback k h ∷ callbacks table

covers-callback : (key k : ℕ) (h : Handler) → covers key (callback k h) ≡ (key == k)
covers-callback key k h = ground arith

-- What is done with a command that was looked for, and without one.
abbrev pub answered_by :
    Option Handler → Option (Ret × World) → ℕ → Bytes → ℕ → World → Option (Ret × World)
answered_by none other addr ptr len w = other
answered_by (some h) other addr ptr len w = call_handler h addr ptr len w

module _ (key addr : ℕ) (ptr : Bytes) (len : ℕ) (w : World) where
  abbrev call_found : Option DiagCmd → Option (Ret × World) → Option (Ret × World)
  call_found found other = elim found [ none ↦ other | some dc ↦ call_cmd dc addr ptr len w ]

  find_cmd-callbacks :
      (table : List (ℕ × Handler)) (other : Option (Ret × World))
      → call_found (find_cmd key (callbacks table)) other
        ≡ answered_by (lookup key table) other addr ptr len w
  unfolding find_cmd call_cmd
  find_cmd-callbacks [] other = refl
  find_cmd-callbacks ((k, h) ∷ table) other = elim (Bool-cases (key == k)) [
    | inl same ↦ rw (covers-callback key k h, same) refl
    | inr differs ↦ rw (covers-callback key k h, differs) (find_cmd-callbacks table other)
  ]

  answered_by-append :
      (table more : List (ℕ × Handler)) (other : Option (Ret × World))
      → answered_by
          (lookup key table)
          (answered_by (lookup key more) other addr ptr len w)
          addr
          ptr
          len
          w
        ≡ answered_by (lookup key (table ++ more)) other addr ptr len w
  answered_by-append [] more other = refl
  answered_by-append ((k, h) ∷ table) more other = elim (Bool-cases (key == k)) [
    | inl same ↦ rw same refl
    | inr differs ↦ rw differs (answered_by-append table more other)
  ]

-- Where the common commands and the fallback commands are those of two tables and no peripheral has
-- registered any, a packet is answered by the command of its key in either.
dispatch-tables :
    (table more : List (ℕ × Handler)) (addr : ℕ) (ptr : Bytes) (len : ℕ) (w : World)
    → w.common_cmds ≡ callbacks table
    → w.diag_cmds ≡ []
    → w.fallback_cmds ≡ callbacks more
    → diag_cmd_dispatch addr ptr len w
      ≡ answered_by (lookup (dispatch_key ptr) (table ++ more)) (some (enoent, w)) addr ptr len w
unfolding diag_cmd_dispatch dispatch_fallback deliver_all
dispatch-tables table more addr ptr len w common idle fallback =
    ap (λ cmds. call_found key addr ptr len w (find_cmd key cmds) (others w.diag_cmds)) common
    ∙ find_cmd-callbacks key addr ptr len w table (others w.diag_cmds)
    ∙ ap (λ r. answered_by (lookup key table) r addr ptr len w)
        (ap others idle
          ∙ ap (λ cmds. call_found key addr ptr len w (find_cmd key cmds) (some (enoent, w)))
              fallback
          ∙ find_cmd-callbacks key addr ptr len w more (some (enoent, w)))
    ∙ answered_by-append key addr ptr len w table more (some (enoent, w))
  where
    key : ℕ
    key = dispatch_key ptr

    others : List DiagCmd → Option (Ret × World)
    others cmds = deliver_all key cmds addr ptr len w >>= λ r.
        if r.0 == 0 then dispatch_fallback key addr ptr len r.1 else some (ok, r.1)

abbrev common_table : List (ℕ × Handler)
common_table = take 5 builtin_commands

abbrev fallback_table : List (ℕ × Handler)
fallback_table = drop 5 builtin_commands

register_common_cmds-table : register_common_cmds [] ≡ callbacks common_table
unfolding register_common_cmds register_common_cmd
register_common_cmds-table = refl

register_app_cmds-table : register_app_cmds [] ≡ callbacks fallback_table
unfolding register_app_cmds register_fallback_cmd register_fallback_subsys_cmd
register_app_cmds-table = refl

-- The tables of a router that has no other commands than its own.
abbrev pub HasBuiltins : World → Type 0
HasBuiltins w =
    (w.common_cmds ≡ register_common_cmds [])
    × (w.diag_cmds ≡ [])
    × (w.fallback_cmds ≡ register_app_cmds [])

pub dispatch-builtin :
    (addr : ℕ) (ptr : Bytes) (len : ℕ) (w : World)
    → HasBuiltins w
    → diag_cmd_dispatch addr ptr len w
      ≡ answered_by (lookup (dispatch_key ptr) builtin_commands) (some (enoent, w)) addr ptr len w
dispatch-builtin addr ptr len w (common, idle, fallback) =
    dispatch-tables common_table fallback_table addr ptr len w (common ∙ register_common_cmds-table)
      idle (fallback ∙ register_app_cmds-table)
