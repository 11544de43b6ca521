-- ===== src/Cntl/Recv.antt =====
-- `diag_cntl_recv` of router/diag_cntl.c: one handler call for each whole control packet.
use diag.Base.{
  ℕ, zero, suc, ◌+◌, ◌^◌, ◌≤◌, ◌<◌, ◌≡◌, ◌⊎◌, inl, inr, true, false, Option, none, some, List, [],
  ◌∷◌, ◌++◌, arith, ltb, Option-cases, length, drop, length-append, drop-append, All,
}
use diag.Bytes.{Bytes, get32, le32}
use diag.Queue.{◌>>=◌}

-- A control packet: `cmd`, and the bytes that its header's `len` counts.
pub record Packet : Type 0 where
  pub cmd : ℕ
  pub body : Bytes

abbrev pub IsPacket : Packet → Type 0
IsPacket p = (p.cmd < 2 ^ 32) × (length p.body < 2 ^ 32)

unfoldable pub packets : List Packet → Bytes → Bytes
packets [] rest = rest
packets (p ∷ ps) rest = le32 p.cmd ++ (le32 (length p.body) ++ (p.body ++ packets ps rest))

-- The end of a read that holds no whole packet.
abbrev pub IsPartial : Bytes → Type 0
IsPartial rest = (length rest < 8) ⊎ (length rest < 8 + get32 rest 4)

eight_more : (n : ℕ) → 8 + n ≡ suc (suc (suc (suc (suc (suc (suc (suc n)))))))
eight_more n = omega arith

get32-packet :
    (p : Packet) (ps : List Packet) (rest : Bytes)
    → IsPacket p
    → get32 (packets (p ∷ ps) rest) 0 ≡ p.cmd
unfolding packets get32 le32
get32-packet p ps rest v = omega arith

packet_len :
    (p : Packet) (ps : List Packet) (rest : Bytes)
    → IsPacket p
    → get32 (packets (p ∷ ps) rest) 4 ≡ length p.body
unfolding packets get32 le32
packet_len p ps rest v = omega arith

packet_rest :
    (p : Packet) (ps : List Packet) (rest : Bytes)
    → drop (8 + length p.body) (packets (p ∷ ps) rest) ≡ packets ps rest
unfolding packets le32
packet_rest p ps rest = rw (eight_more (length p.body)) (drop-append p.body (packets ps rest))

pub length-packets_cons :
    (p : Packet) (ps : List Packet) (rest : Bytes)
    → length (packets (p ∷ ps) rest) ≡ 8 + length p.body + length (packets ps rest)
unfolding packets le32
length-packets_cons p ps rest = omega (arith, length-append {0} p.body (packets ps rest))

length-packets-ge : (ps : List Packet) (rest : Bytes) → length ps ≤ length (packets ps rest)
length-packets-ge [] rest = omega arith
length-packets-ge (p ∷ ps) rest =
    omega (arith, length-packets_cons p ps rest, length-packets-ge ps rest)

-- `control cmd pkt` is the switch over `hdr->cmd`, on the memory from the packet's header on.
module _ {ℓ} {S : Type ℓ} (control : ℕ → Bytes → S → Option S) where
  -- The loop; the list is the memory from `buf + offset` to `buf + n`. `none` in a round is a fault
  -- of the handler, or that the fuel ran out.
  unfoldable pub recv_loop : ℕ → Bytes → S → Option S
  recv_loop zero buf s = none
  recv_loop (suc fuel) buf s = elim (ltb (length buf) 8) [
    | true ↦ some s
    | false ↦ elim (ltb (length buf) (8 + get32 buf 4)) [
      | true ↦ some s
      | false ↦ elim (control (get32 buf 0) buf s) [
        | none ↦ none
        | some s' ↦ recv_loop fuel (drop (8 + get32 buf 4) buf) s'
      ]
    ]
  ]

  -- Each round takes at least a header off.
  unfoldable pub diag_cntl_recv : Bytes → S → Option S
  diag_cntl_recv buf s = recv_loop (suc (length buf)) buf s

  -- One call for each packet, on the memory from that packet on.
  unfoldable pub control_all : List Packet → Bytes → S → Option S
  control_all [] rest s = some s
  control_all (p ∷ ps) rest s = control p.cmd (packets (p ∷ ps) rest) s >>= control_all ps rest

  ends :
      (fuel : ℕ) (rest : Bytes) (s : S)
      → IsPartial rest
      → recv_loop (suc fuel) (packets [] rest) s ≡ some s
  unfolding recv_loop packets
  ends fuel rest s (inl short) = ground arith
  ends fuel rest s (inr cut) = ground arith

  loop-packets :
      (fuel : ℕ) (ps : List Packet) (rest : Bytes) (s : S)
      → length ps < fuel
      → All IsPacket ps
      → IsPartial rest
      → recv_loop fuel (packets ps rest) s ≡ control_all ps rest s
  unfolding recv_loop control_all
  loop-packets zero ps rest s h v t = absurd (omega arith)
  loop-packets (suc fuel) [] rest s h v t = ends fuel rest s t
  loop-packets (suc fuel) (p ∷ ps) rest s h v t =
      rw (header, recv_loop, packet_len p ps rest v.0, whole, get32-packet p ps rest v.0)
        (elim (Option-cases (control p.cmd (packets (p ∷ ps) rest) s)) [
          | inl fails ↦ rw (fails, recv_loop)
          | inr (t', fine) ↦
              rw (fine, recv_loop, packet_len p ps rest v.0, packet_rest p ps rest)
                (loop-packets fuel ps rest t' (omega arith) v.1 t)
        ])
    where
      header : ltb (length (packets (p ∷ ps) rest)) 8 ≡ false
      header = ground (arith, length-packets_cons p ps rest)

      whole : ltb (length (packets (p ∷ ps) rest)) (8 + length p.body) ≡ false
      whole = ground (arith, length-packets_cons p ps rest)

  -- A read that holds some whole control packets and then no whole one is handled as one call for
  -- each packet, in order, with the memory from that packet on; what follows them is not looked at,
  -- and the loop ends.
  pub diag_cntl_recv-packets :
      (ps : List Packet) (rest : Bytes) (s : S)
      → All IsPacket ps
      → IsPartial rest
      → diag_cntl_recv (packets ps rest) s ≡ control_all ps rest s
  unfolding diag_cntl_recv
  diag_cntl_recv-packets ps rest s v t =
      loop-packets (suc (length (packets ps rest))) ps rest s
        (omega (arith, length-packets-ge ps rest)) v t
