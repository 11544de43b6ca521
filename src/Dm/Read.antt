-- ===== src/Dm/Read.antt =====
-- What router/dm.c does when a monitor's descriptor can be read: the choice between the encodings,
-- and the loop over unencoded reads. The monitor's encoding and its ring are arguments: the
-- encoding is read once, before a command is handled, and no command's handling works on the ring.
pub mod Laws
mod Tests
use diag.Base.{
  ℕ, zero, suc, ◌+◌, ◌-◌, ◌*◌, ◌/◌, ◌%◌, ◌^◌, ◌≤◌, ◌<◌, min, bit_and, bit_or, bit_xor, ◌≡◌, refl,
  sym, ap, ap₂, ◌∙◌, ◌≢◌, ◌↔◌, ◌⊎◌, inl, inr, Bool, true, false, not, ◌&&◌, ◌||◌, Option, none,
  some, List, [], ◌∷◌, ◌++◌, map, append-nil, append_assoc, arith, ltb, leb, ◌==◌, if◌then◌else◌,
  ltb→lt, ==_iff, ==_refl, Bool-cases, Option-cases, length, get_elem?, get_or, set, take, drop,
  replicate, keep_if, length-append, length-set, length-take, length-drop, length-replicate,
  get_or-set_self, get_or-set_ne, take-append, drop-append, All, All-append, passes_below,
  passes_below-lt, bit_xor_step, bit_xor-zero, bit_xor_fields, bit_xor-lt,
}
use diag.Bytes.{Bytes}
use diag.World.{Ret, ok, einval, diag_encode_raw, diag_encode_hdlc, diag_encode_nhdlc}
use diag.CircBuf.{CircBuf, Kernel, got, failed, drained, error, ReadStatus, circ_read}
use diag.Queue.{◌>>=◌}
use diag.Dm.{dm_recv_hdlc, dm_recv_nhdlc}

abbrev pub eagain : ℕ
eagain = 11

-- How a reader returns: a code of its own, or the error of read(2).
pub data Outcome : Type 0 where
  returned : Ret → Outcome
  read_error : ℕ → Outcome

-- `handle` is `diag_client_handle_command` and `recover` is `diag_start_hdlc_recovery`.
module _ {ℓ} {S : Type ℓ} (handle : Bytes → ℕ → S → Option S) (recover : S → S) where
  unfoldable pub dm_decode_data : ℕ → CircBuf → S → Option (Outcome × CircBuf × S)
  dm_decode_data ty b s =
      if ty == diag_encode_hdlc
      then (do (b', s') ← dm_recv_hdlc handle b s; some (returned ok, b', s'))
      else if ty == diag_encode_nhdlc
      then (do (r, s') ← dm_recv_nhdlc handle recover b s; some (returned r, b, s'))
      else some (returned einval, b, s)

  -- `remove` is `watch_remove_fd` on the monitor's descriptor, and `read` is the kernel.
  module _ (remove : S → S) (read : Kernel) where
    -- Reads go on until one is empty or fails; `none` is a fault of the handling, or that the fuel
    -- ran out.
    unfoldable pub dm_recv_raw : ℕ → ℕ → S → Option (Outcome × S)
    dm_recv_raw zero i s = none
    dm_recv_raw (suc fuel) i s = elim (read i 4096) [
      | got [] ↦ some (returned ok, remove s)
      | got (x ∷ xs) ↦ elim (handle (x ∷ xs) (length (x ∷ xs)) s) [
        | none ↦ none
        | some s' ↦ dm_recv_raw fuel (suc i) s'
      ]
      | failed e ↦ if e == eagain then some (returned ok, s) else some (read_error e, s)
    ]

    unfoldable pub dm_recv_encoded : ℕ → CircBuf → S → Option (Outcome × CircBuf × S)
    dm_recv_encoded ty b s =
        let (status, b') = circ_read read b in
        elim status [
          | drained ↦ dm_decode_data ty b' s
          | error e ↦ if e == eagain then dm_decode_data ty b' s else some (read_error e, b', s)
          | ReadStatus.out_of_fuel ↦ none
        ]

    -- A null client is not modelled: the argument is always a client.
    unfoldable pub dm_recv : ℕ → ℕ → CircBuf → S → Option (Outcome × CircBuf × S)
    dm_recv fuel ty b s =
        if ty == diag_encode_raw
        then (do (r, s') ← dm_recv_raw fuel 0 s; some (r, b, s'))
        else if ty == diag_encode_hdlc || ty == diag_encode_nhdlc
        then dm_recv_encoded ty b s
        else some (returned einval, b, s)
