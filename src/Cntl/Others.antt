-- ===== src/Cntl/Others.antt =====
-- What a peripheral sends over its control channel cannot change the commands of the others.
use mathlib.Core.Path.{subst}
use diag.Base.{
  ℕ, zero, suc, ◌+◌, bit_and, ◌≡◌, refl, ap, ◌∙◌, inl, inr, false, ◌||◌, Option, none, some, List,
  [], ◌∷◌, arith, ltb, ◌==◌, Bool-cases, Option-cases, length, drop,
}
use diag.Bytes.{get32, Bytes, get16}
use diag.World.{Alloc, Peripheral, DiagCmd, Ret, ok, enoent, einval, emsgsize, enomem}
use diag.Queue.{◌>>=◌, queue_push_flow}
use diag.Masks.{Masks}
use diag.Masks.Memory.{mask_valid, mask_all_disabled, mask_all_enabled}
use diag.Masks.Msg.{SsidRange, diag_cmd_get_msg_mask, ssid_first_arr, ssid_last_arr}
use diag.Cntl.{diag_cntl_register, diag_cntl_deregister, register_from, sizeof_diag_cmd}
use diag.Cntl.Feature.{
  feature_packet, diag_mode_packet, buffering_mode_packet, local_features, diag_cntl_feature_mask,
  diag_cntl_send_feature_mask, diag_cntl_set_diag_mode, diag_cntl_set_buffering_mode,
}
use diag.Cntl.Send.{push_cntl, diag_cntl_send_masks, diag_cntl_send_msg_mask, send_ranges}
use diag.Cntl.Recv.{recv_loop, diag_cntl_recv}
use diag.Cntl.Registry.{others, others-diag_cntl_deregister, register_from_lem}
use diag.Cntl.Control.{Session, control}
use diag.Cntl.DiagIds.{Ids, answer, name_offset, diag_id_reply, diag_cntl_process_diag_id}

register_refused :
    (alloc : Alloc) (perif : ℕ) (pkt : Bytes) (left : ℕ) (cmds : List DiagCmd)
    → alloc sizeof_diag_cmd ≡ false
    → register_from alloc perif pkt left 0 cmds ≡ cmds
unfolding register_from
register_refused alloc perif pkt zero cmds r = refl
register_refused alloc perif pkt (suc left) cmds r = rw r refl

-- Whether memory is granted or not, a registration leaves the others' commands.
register-others :
    (alloc : Alloc) (perif : ℕ) (pkt : Bytes) (cmds : List DiagCmd)
    → others perif (diag_cntl_register alloc perif pkt cmds) ≡ others perif cmds
unfolding diag_cntl_register
register-others alloc perif pkt cmds = elim (Bool-cases (alloc sizeof_diag_cmd)) [
  | inl granted ↦ (register_from_lem alloc perif pkt (get16 pkt 16) 0 cmds granted).0
  | inr refused ↦ ap (others perif) (register_refused alloc perif pkt (get16 pkt 16) cmds refused)
]

push_cntl-id :
    (alloc : Alloc) (p p' : Peripheral) (pkt : Bytes)
    → push_cntl alloc p pkt ≡ some p'
    → p'.id ≡ p.id
unfolding push_cntl
push_cntl-id alloc p p' pkt h =
    elim (Option-cases (queue_push_flow alloc (p.cntlq, λ g. 0) pkt none)) [
      | inl fails ↦ ground (arith, fails)
      | inr (q, pushed) ↦ ground (arith, pushed)
    ]

-- What a send gives back: the range, and the peripheral.
abbrev with_range : Option SsidRange → Peripheral → Option (Option SsidRange × Peripheral)
with_range x p = some (x, p)

pushed-id :
    (alloc : Alloc) (p p' : Peripheral) (pkt : Bytes) (x y : Option SsidRange)
    → (push_cntl alloc p pkt >>= with_range x) ≡ some (y, p')
    → p'.id ≡ p.id
pushed-id alloc p p' pkt x y h = elim (Option-cases (push_cntl alloc p pkt)) [
  | inl fails ↦ absurd (ground (arith, fails))
  | inr (p1, pushed) ↦
      ap Peripheral.id (same p1 (rw pushed at h)) ∙ push_cntl-id alloc p p1 pkt pushed
]
  where
    same :
        (p1 : Peripheral)
        → ◌≡◌ {A = Option (Option SsidRange × Peripheral)} (some (x, p1)) (some (y, p'))
        → p' ≡ p1
    same p1 e = cc

copied-id :
    (alloc : Alloc) (p p' : Peripheral) (o : Option (Option Bytes)) (pkt : Option Bytes → Bytes)
    (x y : Option SsidRange)
    → (o >>= λ m. (push_cntl alloc p (pkt m) >>= with_range x)) ≡ some (y, p')
    → p'.id ≡ p.id
copied-id alloc p p' none pkt x y h = absurd (ground arith)
copied-id alloc p p' (some m) pkt x y h = pushed-id alloc p p' (pkt m) x y h

msg_mask-id :
    (alloc : Alloc) (junk : ℕ → ℕ) (ms : Masks) (range : SsidRange) (p p' : Peripheral)
    (range' : Option SsidRange)
    → diag_cntl_send_msg_mask alloc junk ms (some range) p ≡ some (range', p')
    → p'.id ≡ p.id
unfolding diag_cntl_send_msg_mask
msg_mask-id alloc junk ms range p p' range' h = elim (Option-cases p.cntl_fd) [
  | inl none_open ↦ ground (arith, none_open)
  | inr (fd, open_fd) ↦ elim (Bool-cases (ms.msg.status == mask_all_disabled)) [
    | inl off ↦
        pushed-id alloc (record p { cntl_fd = some fd }) p' _ _ range' (rw (open_fd, off) at h)
    | inr on ↦
        elim (Bool-cases (ms.msg.status == mask_valid || ms.msg.status == mask_all_enabled)) [
          | inl copies ↦ elim (Option-cases (diag_cmd_get_msg_mask alloc ms.msg range)) [
            | inl fails ↦ absurd (ground (arith, open_fd, on, copies, fails))
            | inr (c, given) ↦
                copied-id alloc (record p { cntl_fd = some fd }) p' _ _ _ range'
                  (rw (open_fd, on, copies, given) at h)
          ]
          | inr unset ↦
              pushed-id alloc (record p { cntl_fd = some fd }) p' _ _ range'
                (rw (open_fd, on, unset) at h)
        ]
  ]
]

ranges-id :
    (alloc : Alloc) (junk : ℕ → ℕ) (ms : Masks) (firsts lasts : List ℕ) (p p' : Peripheral)
    → send_ranges alloc junk ms firsts lasts p ≡ some p'
    → p'.id ≡ p.id
unfolding send_ranges
ranges-id alloc junk ms [] lasts p p' h = ground arith
ranges-id alloc junk ms (first ∷ firsts) [] p p' h = ground arith
ranges-id alloc junk ms (first ∷ firsts) (last ∷ lasts) p p' h =
    elim (Option-cases (
      diag_cntl_send_msg_mask alloc junk ms (some (record { ssid_first = first; ssid_last = last }))
        p)) [
          | inl fails ↦ ground (arith, fails)
          | inr ((r, p1), sent) ↦
              ranges-id alloc junk ms firsts lasts p1 p' (rw sent at h)
              ∙ msg_mask-id alloc junk ms (record { ssid_first = first; ssid_last = last }) p p1 r
                  sent
        ]

modes-id :
    (alloc : Alloc) (p p' : Peripheral)
    → (diag_cntl_set_diag_mode alloc 1 p >>= diag_cntl_set_buffering_mode alloc 0) ≡ some p'
    → p'.id ≡ p.id
unfolding diag_cntl_set_diag_mode diag_cntl_set_buffering_mode
modes-id alloc p p' h = elim (Option-cases (push_cntl alloc p (diag_mode_packet p.diag_id 1))) [
  | inl fails ↦ absurd (ground (arith, fails))
  | inr (p1, pushed) ↦
      push_cntl-id alloc p1 p' (buffering_mode_packet p1.diag_id 0) (rw pushed at h)
      ∙ push_cntl-id alloc p p1 (diag_mode_packet p.diag_id 1) pushed
]

-- The reply behind a choice of the identifier.
replied-id :
    (alloc : Alloc) (p p' : Peripheral) (s' : Ids) (chosen : Ret × Ids) (name : Bytes) (len : ℕ)
    (r : Ret)
    → answer alloc p chosen name len ≡ some (r, p', s')
    → p'.id ≡ p.id
unfolding answer
replied-id alloc p p' s' (ok, s) name len r h =
    elim (Option-cases (push_cntl alloc p (diag_id_reply s.last name len))) [
      | inl fails ↦ absurd (ground (arith, fails))
      | inr (p1, pushed) ↦
          ground (arith, pushed, push_cntl-id alloc p p1 (diag_id_reply s.last name len) pushed)
    ]
replied-id alloc p p' s' (enoent, s) name len r h = ground arith
replied-id alloc p p' s' (einval, s) name len r h = ground arith
replied-id alloc p p' s' (emsgsize, s) name len r h = ground arith
replied-id alloc p p' s' (enomem, s) name len r h = ground arith

process-id :
    (alloc : Alloc) (pkt : Bytes) (n : ℕ) (p p' : Peripheral) (s s' : Ids) (r : Ret)
    → diag_cntl_process_diag_id alloc pkt n (p, s) ≡ some (r, p', s')
    → p'.id ≡ p.id
unfolding diag_cntl_process_diag_id
process-id alloc pkt n p p' s s' r h = elim (Option-cases (name_offset p pkt n)) [
  | inl short ↦ ground (arith, short)
  | inr (offset, long) ↦
      replied-id alloc p p' s' _ _ _ r (rw (long, diag_cntl_process_diag_id) at h)
]

feature_mask-id :
    (alloc : Alloc) (junk : ℕ → ℕ) (ms : Masks) (mask : ℕ) (p p' : Peripheral)
    → diag_cntl_send_feature_mask alloc junk ms mask p ≡ some p'
    → p'.id ≡ p.id
unfolding diag_cntl_send_feature_mask diag_cntl_send_masks
feature_mask-id alloc junk ms mask p p' h = elim (Option-cases p.cntl_fd) [
  | inl none_open ↦ ground (arith, none_open)
  | inr (fd, open_fd) ↦ sent_all p (rw (open_fd, diag_cntl_send_feature_mask) at h)
]
  where
    sent_all :
        (q : Peripheral)
        → (push_cntl alloc q (feature_packet junk mask) >>= λ p1.
            diag_cntl_send_masks alloc junk ms p1 >>= λ p2.
            diag_cntl_set_diag_mode alloc 1 p2 >>= diag_cntl_set_buffering_mode alloc 0)
          ≡ some p'
        → p'.id ≡ q.id
    sent_all q e = elim (Option-cases (push_cntl alloc q (feature_packet junk mask))) [
      | inl fails ↦ absurd (ground (arith, fails))
      | inr (p1, pushed) ↦
          elim (Option-cases (send_ranges alloc junk ms ssid_first_arr ssid_last_arr p1)) [
            | inl fails ↦ absurd (ground (arith, pushed, fails))
            | inr (p2, sent) ↦
                modes-id alloc p2 p' (rw (pushed, sent) at e)
                ∙ ranges-id alloc junk ms ssid_first_arr ssid_last_arr p1 p2 sent
                ∙ push_cntl-id alloc q p1 (feature_packet junk mask) pushed
          ]
    ]

-- The peripheral keeps its address, and the commands that are not its own stay in their order.
pub record Kept (s s' : Session) : Type 0 where
  pub same_id : s'.peripheral.id ≡ s.peripheral.id
  pub same_others : others s.peripheral.id s'.diag_cmds ≡ others s.peripheral.id s.diag_cmds

Kept-trans : {s t u : Session} → Kept s t → Kept t u → Kept s u
Kept-trans {s} {t} {u} k l = record {
  same_id = l.same_id ∙ k.same_id;
  same_others = (rw k.same_id at l.same_others) ∙ k.same_others;
}

Kept-some : (s t s' : Session) → ◌≡◌ {A = Option Session} (some t) (some s') → Kept s t → Kept s s'
Kept-some s t s' e k = subst (λ u. Kept s u) same k
  where
    same : t ≡ s'
    same = cc

control-Kept :
    (alloc : Alloc) (junk : ℕ → ℕ) (ms : Masks) (n cmd : ℕ) (pkt : Bytes) (s s' : Session)
    → control alloc junk ms n cmd pkt s ≡ some s'
    → Kept s s'
unfolding control diag_cntl_feature_mask
control-Kept alloc junk ms n cmd pkt s s' h = elim (Bool-cases (cmd == 1)) [
  | inl registers ↦
      Kept-some s
        (record s { diag_cmds = diag_cntl_register alloc s.peripheral.id pkt s.diag_cmds }) s'
        (rw registers at h)
        (record {
          same_id = refl;
          same_others = register-others alloc s.peripheral.id pkt s.diag_cmds;
        })
  | inr a ↦ elim (Bool-cases (cmd == 8)) [
    | inl tells ↦
        let mask = bit_and (get32 pkt 12) (local_features s.peripheral) in
        elim (Option-cases (
          diag_cntl_send_feature_mask alloc junk ms mask
            (record (s.peripheral) { features = mask }))) [
              | inl fails ↦ absurd (ground (arith, a, tells, fails))
              | inr (p, sent) ↦
                  Kept-some s (record s { peripheral = p }) s' (rw (a, tells, sent) at h)
                    (record {
                      same_id =
                          feature_mask-id alloc junk ms mask
                            (record (s.peripheral) { features = mask }) p sent;
                      same_others = refl;
                    })
            ]
    | inr b ↦ elim (Bool-cases (cmd == 33)) [
      | inl names ↦
          elim (Option-cases (diag_cntl_process_diag_id alloc pkt n (s.peripheral, s.ids))) [
            | inl fails ↦ absurd (ground (arith, a, b, names, fails))
            | inr ((r, p, ids), done_so) ↦
                Kept-some s (record s { peripheral = p; ids = ids }) s'
                  (rw (a, b, names, done_so) at h)
                  (record {
                    same_id = process-id alloc pkt n s.peripheral p s.ids ids r done_so;
                    same_others = refl;
                  })
          ]
      | inr c ↦ elim (Bool-cases (cmd == 27)) [
        | inl takes ↦
            Kept-some s
              (record s { diag_cmds = diag_cntl_deregister s.peripheral.id pkt s.diag_cmds }) s'
              (rw (a, b, c, takes) at h)
              (record {
                same_id = refl;
                same_others = others-diag_cntl_deregister s.peripheral.id pkt s.diag_cmds;
              })
        | inr d ↦
            Kept-some s s s' (rw (a, b, c, d) at h) (record { same_id = refl; same_others = refl })
      ]
    ]
  ]
]

loop-Kept :
    (alloc : Alloc) (junk : ℕ → ℕ) (ms : Masks) (n fuel : ℕ) (buf : Bytes) (s s' : Session)
    → recv_loop (control alloc junk ms n) fuel buf s ≡ some s'
    → Kept s s'
unfolding recv_loop
loop-Kept alloc junk ms n zero buf s s' h = absurd (ground arith)
loop-Kept alloc junk ms n (suc fuel) buf s s' h = elim (Bool-cases (ltb (length buf) 8)) [
  | inl short ↦
      Kept-some s s s' (rw (short, recv_loop) at h) (record { same_id = refl; same_others = refl })
  | inr header ↦ elim (Bool-cases (ltb (length buf) (8 + get32 buf 4))) [
    | inl cut ↦
        Kept-some s s s' (rw (header, recv_loop, cut) at h)
          (record { same_id = refl; same_others = refl })
    | inr whole ↦ elim (Option-cases (control alloc junk ms n (get32 buf 0) buf s)) [
      | inl fails ↦ absurd (ground (arith, header, whole, fails))
      | inr (t, handled) ↦ Kept-trans (control-Kept alloc junk ms n (get32 buf 0) buf s t handled) (
          loop-Kept alloc junk ms n fuel (drop (8 + get32 buf 4) buf) t s'
            (rw (header, recv_loop, whole, handled) at h))
    ]
  ]
]

-- Whatever bytes a peripheral sends over its control channel, if the read is handled without a fault
-- the peripheral keeps its address, and the commands of all others are left as they were.
pub diag_cntl_recv-Kept :
    (alloc : Alloc) (junk : ℕ → ℕ) (ms : Masks) (buf : Bytes) (s s' : Session)
    → diag_cntl_recv (control alloc junk ms (length buf)) buf s ≡ some s'
    → Kept s s'
unfolding diag_cntl_recv
diag_cntl_recv-Kept alloc junk ms buf s s' h =
    loop-Kept alloc junk ms (length buf) (suc (length buf)) buf s s' h
