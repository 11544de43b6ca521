-- ===== src/Cntl/Layout/Modes.antt =====
-- The mode packets of router/diag_cntl.c, read by their structures.
use diag.Base.{
  ℕ, ◌-◌, ◌<◌, ◌≡◌, refl, inl, inr, List, [], ◌∷◌, ◌++◌, arith, ◌==◌, if◌then◌else◌, Bool-cases,
}
use diag.Bytes.{zeros}
use diag.Cntl.Feature.{diag_mode_packet, buffering_mode_packet}
use diag.Cntl.Layout.{
  le, pack, fields, size_of, diag_cntl_cmd_diag_mode, diag_cntl_cmd_diag_mode_v2,
  diag_cntl_cmd_buffering_tx_mode, diag_cntl_cmd_buffering_tx_mode_v2,
}
use diag.Cntl.Layout.Fields.{Fits, AllFit, Fits-word, Fits-byte, le32-le, fields-packet}

-- The structure of a mode packet, its version and the identifier in it, by whether the peripheral has
-- one.
abbrev pub mode_layout : ℕ → List ℕ
mode_layout diag_id = if diag_id == 0 then diag_cntl_cmd_diag_mode else diag_cntl_cmd_diag_mode_v2

abbrev pub buffering_layout : ℕ → List ℕ
buffering_layout diag_id =
    if diag_id == 0 then diag_cntl_cmd_buffering_tx_mode else diag_cntl_cmd_buffering_tx_mode_v2

abbrev pub version : ℕ → ℕ
version diag_id = if diag_id == 0 then 1 else 2

abbrev pub identifier : ℕ → List ℕ
identifier diag_id = if diag_id == 0 then [] else diag_id ∷ []

diag_mode-fields :
    (diag_id mode : ℕ)
    → diag_id < 256
    → mode < 256
    → fields (mode_layout diag_id) (diag_mode_packet diag_id mode)
      ≡ 3
        ∷ (size_of (mode_layout diag_id) - 8)
        ∷ version diag_id
        ∷ mode
        ∷ mode
        ∷ 0
        ∷ 0
        ∷ 0
        ∷ 0
        ∷ 0
        ∷ 0
        ∷ identifier diag_id
unfolding diag_mode_packet pack le zeros size_of AllFit Fits
diag_mode-fields diag_id mode hd hm = elim (Bool-cases (diag_id == 0)) [
  | inl without ↦ rw (without) (
      fields-packet diag_cntl_cmd_diag_mode (3 ∷ 36 ∷ 1 ∷ mode ∷ mode ∷ 0 ∷ 0 ∷ 0 ∷ 0 ∷ 0 ∷ 0 ∷ [])
        _ [] (rw (le32-le 3, le32-le 36, le32-le 1, le32-le mode) refl)
        (refl, (refl, (refl, (word, (word, (refl, (refl, (refl, (refl, (refl, (refl, tt))))))))))))
  | inr with_id ↦ rw (with_id) (
      fields-packet diag_cntl_cmd_diag_mode_v2
        (3 ∷ 37 ∷ 2 ∷ mode ∷ mode ∷ 0 ∷ 0 ∷ 0 ∷ 0 ∷ 0 ∷ 0 ∷ diag_id ∷ []) _ []
        (rw (le32-le 3, le32-le 37, le32-le 2, le32-le mode) refl)
        (
          refl,
          (
            refl,
            (
              refl,
              (
                word,
                (word, (refl, (refl, (refl, (refl, (refl, (refl, (Fits-byte diag_id hd, tt)))))))),
              ),
            ),
          ),
        ))
]
  where
    word : Fits 4 mode
    word = Fits-word mode (omega (arith, hm))

buffering_mode-fields :
    (diag_id mode : ℕ)
    → diag_id < 256
    → mode < 256
    → fields (buffering_layout diag_id) (buffering_mode_packet diag_id mode)
      ≡ 17
        ∷ (size_of (buffering_layout diag_id) - 8)
        ∷ version diag_id
        ∷ (identifier diag_id ++ (0 ∷ mode ∷ []))
unfolding buffering_mode_packet pack le size_of AllFit Fits
buffering_mode-fields diag_id mode hd hm = elim (Bool-cases (diag_id == 0)) [
  | inl without ↦ rw without (
      fields-packet diag_cntl_cmd_buffering_tx_mode (17 ∷ 6 ∷ 1 ∷ 0 ∷ mode ∷ []) _ []
        (rw (le32-le 17, le32-le 6, le32-le 1) refl)
        (refl, (refl, (refl, (refl, (Fits-byte mode hm, tt))))))
  | inr with_id ↦ rw with_id (
      fields-packet diag_cntl_cmd_buffering_tx_mode_v2 (17 ∷ 7 ∷ 2 ∷ diag_id ∷ 0 ∷ mode ∷ []) _ []
        (rw (le32-le 17, le32-le 7, le32-le 2) refl)
        (refl, (refl, (refl, (Fits-byte diag_id hd, (refl, (Fits-byte mode hm, tt)))))))
]

-- The two mode packets, read by the structure of their version, the second where the peripheral has an
-- identifier: the length is that of what follows the header, and the mode and the identifier are those
-- given.
pub mode_packets-fields :
    (diag_id mode : ℕ)
    → diag_id < 256
    → mode < 256
    → (fields (mode_layout diag_id) (diag_mode_packet diag_id mode)
        ≡ 3
          ∷ (size_of (mode_layout diag_id) - 8)
          ∷ version diag_id
          ∷ mode
          ∷ mode
          ∷ 0
          ∷ 0
          ∷ 0
          ∷ 0
          ∷ 0
          ∷ 0
          ∷ identifier diag_id)
      × (fields (buffering_layout diag_id) (buffering_mode_packet diag_id mode)
          ≡ 17
            ∷ (size_of (buffering_layout diag_id) - 8)
            ∷ version diag_id
            ∷ (identifier diag_id ++ (0 ∷ mode ∷ [])))
mode_packets-fields diag_id mode hd hm =
    (diag_mode-fields diag_id mode hd hm, buffering_mode-fields diag_id mode hd hm)
