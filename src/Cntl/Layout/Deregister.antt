-- ===== src/Cntl/Layout/Deregister.antt =====
-- Deregistration packets of router/diag_cntl.c, written by their structures.
use diag.Base.{ℕ, ◌+◌, ◌*◌, ◌<◌, ◌≡◌, refl, ap, ◌∙◌, List, [], ◌∷◌, ◌++◌, arith, length, drop}
use diag.Bytes.{Bytes, get16}
use diag.World.{DiagCmd}
use diag.Cntl.{
  CmdRange, cmd_key, packet_cmd, packet_range, deregister_range, deregister_from,
  diag_cntl_deregister,
}
use diag.Cntl.Layout.{le, pack, diag_cntl_cmd_dereg, cmd_range_dereg}
use diag.Cntl.Layout.Register.{Range, AreHalves, get16-drop, drop-drop}

unfoldable pub pack_deregs : List Range → Bytes
unfolding pack
pack_deregs [] = []
pack_deregs ((first, last, content) ∷ ranges) =
    pack cmd_range_dereg (first ∷ last ∷ []) ++ pack_deregs ranges

-- `struct diag_cntl_cmd_dereg` with its ranges.
unfoldable pub deregistration : ℕ → ℕ → ℕ → List Range → Bytes
unfolding pack pack_deregs
deregistration version cmd subsys ranges =
    pack diag_cntl_cmd_dereg
      (27 ∷ (10 + 4 * length ranges) ∷ version ∷ cmd ∷ subsys ∷ length ranges ∷ [])
    ++ pack_deregs ranges

-- The keys of each range.
abbrev pub keys_of : ℕ → ℕ → List Range → List CmdRange
keys_of cmd subsys [] = []
keys_of cmd subsys ((first, last, content) ∷ ranges) =
    record {
      first = cmd_key (packet_cmd cmd subsys) subsys first;
      last = cmd_key (packet_cmd cmd subsys) subsys last;
    }
    ∷ keys_of cmd subsys ranges

unfoldable pub deregister_all : ℕ → List CmdRange → List DiagCmd → List DiagCmd
deregister_all perif [] cmds = cmds
deregister_all perif (r ∷ rs) cmds = deregister_all perif rs (deregister_range perif r cmds)

dereg-read :
    (first last content : ℕ) (ranges : List Range)
    → first < 65536
    → last < 65536
    → (get16 (pack_deregs ((first, last, content) ∷ ranges)) 0 ≡ first)
      × (get16 (pack_deregs ((first, last, content) ∷ ranges)) 2 ≡ last)
      × (drop 4 (pack_deregs ((first, last, content) ∷ ranges)) ≡ pack_deregs ranges)
unfolding get16 pack_deregs pack le
dereg-read first last content ranges hf hl = (omega (arith, hf), omega (arith, hl), refl)

deregistration-read :
    (version cmd subsys : ℕ) (ranges : List Range)
    → cmd < 65536
    → subsys < 65536
    → length ranges < 65536
    → (get16 (deregistration version cmd subsys ranges) 12 ≡ cmd)
      × (get16 (deregistration version cmd subsys ranges) 14 ≡ subsys)
      × (get16 (deregistration version cmd subsys ranges) 16 ≡ length ranges)
      × (drop (18 + 4 * 0) (deregistration version cmd subsys ranges) ≡ pack_deregs ranges)
unfolding get16 deregistration pack le
deregistration-read version cmd subsys ranges hc hs hl =
    (omega (arith, hc), omega (arith, hs), omega (arith, hl), refl)

deregister_from-ranges :
    (perif : ℕ) (pkt : Bytes) (cmd subsys i : ℕ) (ranges : List Range) (cmds : List DiagCmd)
    → get16 pkt 12 ≡ cmd
    → get16 pkt 14 ≡ subsys
    → drop (18 + 4 * i) pkt ≡ pack_deregs ranges
    → AreHalves ranges
    → deregister_from perif pkt (length ranges) i cmds
      ≡ deregister_all perif (keys_of cmd subsys ranges) cmds
unfolding deregister_from packet_range deregister_all
deregister_from-ranges perif pkt cmd subsys i [] cmds c s e h = refl
deregister_from-ranges perif pkt cmd subsys i ((first, last, content) ∷ ranges) cmds c s e h =
    ap (λ r. deregister_from perif pkt (length ranges) (i + 1) (deregister_range perif r cmds))
      range_is
    ∙ deregister_from-ranges perif pkt cmd subsys (i + 1) ranges (deregister_range perif key cmds) c
        s behind h.1
  where
    key : CmdRange
    key = record {
      first = cmd_key (packet_cmd cmd subsys) subsys first;
      last = cmd_key (packet_cmd cmd subsys) subsys last;
    }

    reads_first : get16 pkt (18 + 4 * i) ≡ first
    reads_first =
        ap (get16 pkt) (omega arith)
        ∙ get16-drop pkt (18 + 4 * i) 0
        ∙ ap (λ s. get16 s 0) e
        ∙ (dereg-read first last content ranges h.0.0 h.0.1).0

    reads_last : get16 pkt (18 + 4 * i + 2) ≡ last
    reads_last =
        get16-drop pkt (18 + 4 * i) 2
        ∙ ap (λ s. get16 s 2) e
        ∙ (dereg-read first last content ranges h.0.0 h.0.1).1

    range_is : packet_range pkt 18 4 i ≡ key
    range_is = rw (c, s, reads_first, reads_last) refl

    behind : drop (18 + 4 * (i + 1)) pkt ≡ pack_deregs ranges
    behind =
        ap (λ n. drop n pkt) (omega arith)
        ∙ drop-drop (18 + 4 * i) 4 pkt
        ∙ ap (drop 4) e
        ∙ (dereg-read first last content ranges h.0.0 h.0.1).2

-- A deregistration takes out what it names.
pub diag_cntl_deregister-packet :
    (perif version cmd subsys : ℕ) (ranges : List Range) (cmds : List DiagCmd)
    → cmd < 65536
    → subsys < 65536
    → length ranges < 65536
    → AreHalves ranges
    → diag_cntl_deregister perif (deregistration version cmd subsys ranges) cmds
      ≡ deregister_all perif (keys_of cmd subsys ranges) cmds
unfolding diag_cntl_deregister
diag_cntl_deregister-packet perif version cmd subsys ranges cmds hc hs hl h =
    let header = deregistration-read version cmd subsys ranges hc hs hl in
    ap (λ n. deregister_from perif (deregistration version cmd subsys ranges) n 0 cmds) header.2
    ∙ deregister_from-ranges perif (deregistration version cmd subsys ranges) cmd subsys 0 ranges
        cmds header.0 header.1 header.3 h
