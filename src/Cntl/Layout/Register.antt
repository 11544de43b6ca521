-- ===== src/Cntl/Layout/Register.antt =====
-- Registration packets of router/diag_cntl.c, written by their structures.
use diag.Base.{
  ℕ, zero, suc, ◌+◌, ◌*◌, ◌<◌, ◌≡◌, refl, sym, ap, ap₂, ◌∙◌, true, none, some, List, [], ◌∷◌, ◌++◌,
  append-nil, append_assoc, arith, length, get_or, drop, All,
}
use diag.Bytes.{Bytes, get16}
use diag.World.{DiagCmd, Alloc}
use diag.Cntl.{
  cmd_key, packet_cmd, packet_range, sizeof_diag_cmd, register_from, diag_cntl_register,
}
use diag.Cntl.Layout.{le, pack, size_of, diag_cntl_cmd_reg, cmd_range_reg}

-- The first and the last code of a range, and its data.
abbrev pub Range : Type 0
Range = ℕ × ℕ × ℕ

unfoldable pub pack_ranges : List Range → Bytes
unfolding pack
pack_ranges [] = []
pack_ranges ((first, last, content) ∷ ranges) =
    pack cmd_range_reg (first ∷ last ∷ content ∷ []) ++ pack_ranges ranges

-- `struct diag_cntl_cmd_reg` with its ranges.
unfoldable pub registration : ℕ → ℕ → ℕ → ℕ → List Range → Bytes
unfolding pack pack_ranges size_of
registration version cmd subsys port ranges =
    pack diag_cntl_cmd_reg
      (1 ∷ (12 + 8 * length ranges) ∷ version ∷ cmd ∷ subsys ∷ length ranges ∷ port ∷ [])
    ++ pack_ranges ranges

-- What each range registers.
abbrev pub commands_of : ℕ → ℕ → ℕ → List Range → List DiagCmd
commands_of perif cmd subsys [] = []
commands_of perif cmd subsys ((first, last, content) ∷ ranges) =
    record {
      first = cmd_key (packet_cmd cmd subsys) subsys first;
      last = cmd_key (packet_cmd cmd subsys) subsys last;
      peripheral = some perif;
      cb = none;
    }
    ∷ commands_of perif cmd subsys ranges

abbrev pub AreHalves : List Range → Type 0
AreHalves = All (λ r. (r.0 < 65536) × (r.1 < 65536))

next : (k j : ℕ) → suc k + j ≡ suc (k + j)
next k j = omega arith

drop-nil : (n : ℕ) → drop {A = ℕ} n [] ≡ []
drop-nil zero = refl
drop-nil (suc n) = refl

get_or-drop : (k j : ℕ) (xs : Bytes) → get_or xs (k + j) 0 ≡ get_or (drop k xs) j 0
get_or-drop zero j xs = ap (λ n. get_or xs n 0) (omega arith)
get_or-drop (suc k) j [] = refl
get_or-drop (suc k) j (x ∷ xs) = ap (λ n. get_or (x ∷ xs) n 0) (next k j) ∙ get_or-drop k j xs

pub drop-drop : (k j : ℕ) (xs : Bytes) → drop (k + j) xs ≡ drop j (drop k xs)
drop-drop zero j xs = ap (λ n. drop n xs) (omega arith)
drop-drop (suc k) j [] = drop-nil (suc k + j) ∙ sym (drop-nil j)
drop-drop (suc k) j (x ∷ xs) = ap (λ n. drop n (x ∷ xs)) (next k j) ∙ drop-drop k j xs

pub get16-drop : (pkt : Bytes) (k j : ℕ) → get16 pkt (k + j) ≡ get16 (drop k pkt) j
unfolding get16
get16-drop pkt k j =
    ap₂ (λ a b. a + b * 256) (get_or-drop k j pkt)
      (ap (λ n. get_or pkt n 0) (omega arith) ∙ get_or-drop k (j + 1) pkt)

halves-read :
    (first last content : ℕ) (ranges : List Range)
    → first < 65536
    → last < 65536
    → (get16 (pack_ranges ((first, last, content) ∷ ranges)) 0 ≡ first)
      × (get16 (pack_ranges ((first, last, content) ∷ ranges)) 2 ≡ last)
unfolding get16 pack_ranges pack le
halves-read first last content ranges hf hl = (omega (arith, hf), omega (arith, hl))

drop-range :
    (first last content : ℕ) (ranges : List Range)
    → drop 8 (pack_ranges ((first, last, content) ∷ ranges)) ≡ pack_ranges ranges
unfolding pack_ranges pack le
drop-range first last content ranges = refl

registration-read :
    (version cmd subsys port : ℕ) (ranges : List Range)
    → cmd < 65536
    → subsys < 65536
    → length ranges < 65536
    → (get16 (registration version cmd subsys port ranges) 12 ≡ cmd)
      × (get16 (registration version cmd subsys port ranges) 14 ≡ subsys)
      × (get16 (registration version cmd subsys port ranges) 16 ≡ length ranges)
      × (drop (20 + 8 * 0) (registration version cmd subsys port ranges) ≡ pack_ranges ranges)
unfolding get16 registration pack le
registration-read version cmd subsys port ranges hc hs hl =
    (omega (arith, hc), omega (arith, hs), omega (arith, hl), refl)

register_from-ranges :
    (alloc : Alloc) (perif : ℕ) (pkt : Bytes) (cmd subsys i : ℕ) (ranges : List Range)
    (cmds : List DiagCmd)
    → alloc sizeof_diag_cmd ≡ true
    → get16 pkt 12 ≡ cmd
    → get16 pkt 14 ≡ subsys
    → drop (20 + 8 * i) pkt ≡ pack_ranges ranges
    → AreHalves ranges
    → register_from alloc perif pkt (length ranges) i cmds
      ≡ cmds ++ commands_of perif cmd subsys ranges
unfolding register_from packet_range
register_from-ranges alloc perif pkt cmd subsys i [] cmds g c s e h = sym (append-nil cmds)
register_from-ranges alloc perif pkt cmd subsys i ((first, last, content) ∷ ranges) cmds g c s e h =
    rw (g, c, s, reads_first, reads_last)
      (register_from-ranges alloc perif pkt cmd subsys (i + 1) ranges (cmds ++ (dc ∷ [])) g c s
          behind h.1
        ∙ append_assoc cmds (dc ∷ []) (commands_of perif cmd subsys ranges))
  where
    dc : DiagCmd
    dc = record {
      first = cmd_key (packet_cmd cmd subsys) subsys first;
      last = cmd_key (packet_cmd cmd subsys) subsys last;
      peripheral = some perif;
      cb = none;
    }

    reads_first : get16 pkt (20 + 8 * i) ≡ first
    reads_first =
        ap (get16 pkt) (omega arith)
        ∙ get16-drop pkt (20 + 8 * i) 0
        ∙ ap (λ s. get16 s 0) e
        ∙ (halves-read first last content ranges h.0.0 h.0.1).0

    reads_last : get16 pkt (20 + 8 * i + 2) ≡ last
    reads_last =
        get16-drop pkt (20 + 8 * i) 2
        ∙ ap (λ s. get16 s 2) e
        ∙ (halves-read first last content ranges h.0.0 h.0.1).1

    behind : drop (20 + 8 * (i + 1)) pkt ≡ pack_ranges ranges
    behind =
        ap (λ n. drop n pkt) (omega arith)
        ∙ drop-drop (20 + 8 * i) 8 pkt
        ∙ ap (drop 8) e
        ∙ drop-range first last content ranges

-- With memory granted, a registration packet that is written by its structures, with at most 65535
-- ranges of 16-bit codes, adds one command for each range, in their order, behind the commands that are
-- there: its keys are those of the packet's command and subsystem with the ends of the range.
pub diag_cntl_register-packet :
    (alloc : Alloc) (perif version cmd subsys port : ℕ) (ranges : List Range) (cmds : List DiagCmd)
    → alloc sizeof_diag_cmd ≡ true
    → cmd < 65536
    → subsys < 65536
    → length ranges < 65536
    → AreHalves ranges
    → diag_cntl_register alloc perif (registration version cmd subsys port ranges) cmds
      ≡ cmds ++ commands_of perif cmd subsys ranges
unfolding diag_cntl_register
diag_cntl_register-packet alloc perif version cmd subsys port ranges cmds g hc hs hl h =
    let header = registration-read version cmd subsys port ranges hc hs hl in
    ap (λ n. register_from alloc perif (registration version cmd subsys port ranges) n 0 cmds)
      header.2
    ∙ register_from-ranges alloc perif (registration version cmd subsys port ranges) cmd subsys 0
        ranges cmds g header.0 header.1 header.3 h
