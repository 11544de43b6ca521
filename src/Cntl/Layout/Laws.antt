-- ===== src/Cntl/Layout/Laws.antt =====
-- The mask packets of router/diag_cntl.c, read by their structures.
use diag.Base.{
  ℕ, ◌+◌, ◌*◌, ◌%◌, ◌<◌, ◌≡◌, refl, inl, inr, ◌||◌, Option, none, some, List, [], ◌∷◌, ◌++◌, arith,
  ◌==◌, if◌then◌else◌, Bool-cases, length,
}
use diag.Bytes.{Bytes}
use diag.Masks.Memory.{unwritten, mask_all_enabled, mask_valid}
use diag.Masks.Msg.{SsidRange}
use diag.Masks.Log.{LogCopy}
use diag.Cntl.Send.{log_mask_packet, msg_mask_packet, event_mask_packet}
use diag.Cntl.Layout.{
  le, pack, fields, diag_cntl_cmd_log_mask, diag_cntl_cmd_msg_mask, diag_cntl_cmd_event_mask,
}
use diag.Cntl.Layout.Fields.{
  Fits, AllFit, Fits-word, Fits-byte, Fits-half, le16-le, le32-le, fields-packet,
}

packed_log :
    (junk : ℕ → ℕ) (status equip_id : ℕ) (c : LogCopy)
    → log_mask_packet junk status equip_id c
      ≡ pack diag_cntl_cmd_log_mask
          (9 ∷ (11 + c.mask_size) ∷ 1 ∷ status ∷ equip_id ∷ c.num_items ∷ c.mask_size ∷ [])
        ++ elim c.mask [ none ↦ unwritten junk 0 c.mask_size | some m ↦ m ]
unfolding log_mask_packet pack le
packed_log junk status equip_id c =
    rw (le32-le 9, le32-le (11 + c.mask_size), le32-le c.num_items, le32-le c.mask_size) refl

-- Behind the two words of the header come the stream, the status, the equipment, its last item and the
-- size of its mask; then the mask.
log_mask_packet-fields :
    (junk : ℕ → ℕ) (status equip_id : ℕ) (c : LogCopy)
    → status < 256
    → equip_id < 256
    → c.num_items < 4294967296
    → 11 + c.mask_size < 4294967296
    → fields diag_cntl_cmd_log_mask (log_mask_packet junk status equip_id c)
      ≡ 9 ∷ (11 + c.mask_size) ∷ 1 ∷ status ∷ equip_id ∷ c.num_items ∷ c.mask_size ∷ []
unfolding log_mask_packet AllFit Fits
log_mask_packet-fields junk status equip_id c hs he hn hm =
    fields-packet diag_cntl_cmd_log_mask values (log_mask_packet junk status equip_id c) mask packed
      (
        refl,
        (
          Fits-word (11 + c.mask_size) hm,
          (
            refl,
            (
              Fits-byte status hs,
              (
                Fits-byte equip_id he,
                (Fits-word c.num_items hn, (Fits-word c.mask_size (omega (arith, hm)), tt)),
              ),
            ),
          ),
        ),
      )
  where
    values : List ℕ
    values = 9 ∷ (11 + c.mask_size) ∷ 1 ∷ status ∷ equip_id ∷ c.num_items ∷ c.mask_size ∷ []

    mask : Bytes
    mask = elim c.mask [ none ↦ unwritten junk 0 c.mask_size | some m ↦ m ]

    packed : log_mask_packet junk status equip_id c ≡ pack diag_cntl_cmd_log_mask values ++ mask
    packed = packed_log junk status equip_id c

packed_msg :
    (junk : ℕ → ℕ) (status num : ℕ) (range : SsidRange) (words : Option Bytes)
    → msg_mask_packet junk status range num words
      ≡ pack diag_cntl_cmd_msg_mask
          (11 ∷ (11 + num * 4) ∷ 1 ∷ status ∷ 0 ∷ range.ssid_first ∷ range.ssid_last ∷ num ∷ [])
        ++ elim words [ none ↦ unwritten junk 0 (num * 4) | some m ↦ m ]
unfolding msg_mask_packet pack le
packed_msg junk status num range words =
    rw
      (
        le32-le 11,
        le32-le (11 + num * 4),
        le32-le num,
        le16-le range.ssid_first,
        le16-le range.ssid_last,
      )
      refl

msg_mask_packet-fields :
    (junk : ℕ → ℕ) (status num : ℕ) (range : SsidRange) (words : Option Bytes)
    → status < 256
    → range.ssid_first < 65536
    → range.ssid_last < 65536
    → 11 + num * 4 < 4294967296
    → fields diag_cntl_cmd_msg_mask (msg_mask_packet junk status range num words)
      ≡ 11 ∷ (11 + num * 4) ∷ 1 ∷ status ∷ 0 ∷ range.ssid_first ∷ range.ssid_last ∷ num ∷ []
unfolding AllFit Fits
msg_mask_packet-fields junk status num range words hs hf hl hn =
    fields-packet diag_cntl_cmd_msg_mask
      (11 ∷ (11 + num * 4) ∷ 1 ∷ status ∷ 0 ∷ range.ssid_first ∷ range.ssid_last ∷ num ∷ [])
      (msg_mask_packet junk status range num words)
      (elim words [ none ↦ unwritten junk 0 (num * 4) | some m ↦ m ])
      (packed_msg junk status num range words)
      (
        refl,
        (
          Fits-word (11 + num * 4) hn,
          (
            refl,
            (
              Fits-byte status hs,
              (
                refl,
                (
                  Fits-half range.ssid_first hf,
                  (Fits-half range.ssid_last hl, (Fits-word num (omega (arith, hn)), tt)),
                ),
              ),
            ),
          ),
        ),
      )

-- `event_config` of an event mask packet.
abbrev pub event_config : ℕ → ℕ
event_config status = if status == mask_all_enabled || status == mask_valid then 1 else 0

config_byte : (status : ℕ) → event_config status % 256 ≡ event_config status
config_byte status = elim (Bool-cases (status == mask_all_enabled || status == mask_valid)) [
  | inl on ↦ rw on refl
  | inr off ↦ rw off refl
]

packed_event :
    (status : ℕ) (mask : Bytes)
    → event_mask_packet status mask
      ≡ pack diag_cntl_cmd_event_mask
          (10 ∷ (7 + length mask) ∷ 1 ∷ status ∷ event_config status ∷ length mask ∷ [])
        ++ mask
unfolding event_mask_packet pack le
packed_event status mask =
    rw (le32-le 10, le32-le (7 + length mask), le32-le (length mask), config_byte status) refl

-- The three mask packets, read by their structures: behind the command and the length of what follows
-- come the stream, the status and the fields that say which mask it is and how long it is.
pub mask_packets-fields :
    (junk : ℕ → ℕ) (status equip_id num : ℕ) (c : LogCopy) (range : SsidRange)
    (words : Option Bytes) (mask : Bytes)
    → status < 256
    → equip_id < 256
    → c.num_items < 4294967296
    → 11 + c.mask_size < 4294967296
    → range.ssid_first < 65536
    → range.ssid_last < 65536
    → 11 + num * 4 < 4294967296
    → 7 + length mask < 4294967296
    → (fields diag_cntl_cmd_log_mask (log_mask_packet junk status equip_id c)
        ≡ 9 ∷ (11 + c.mask_size) ∷ 1 ∷ status ∷ equip_id ∷ c.num_items ∷ c.mask_size ∷ [])
      × (fields diag_cntl_cmd_msg_mask (msg_mask_packet junk status range num words)
          ≡ 11 ∷ (11 + num * 4) ∷ 1 ∷ status ∷ 0 ∷ range.ssid_first ∷ range.ssid_last ∷ num ∷ [])
      × (fields diag_cntl_cmd_event_mask (event_mask_packet status mask)
          ≡ 10 ∷ (7 + length mask) ∷ 1 ∷ status ∷ event_config status ∷ length mask ∷ [])
unfolding AllFit Fits
mask_packets-fields junk status equip_id num c range words mask hs he hn hm hf hl hw hv = (
  log_mask_packet-fields junk status equip_id c hs he hn hm,
  msg_mask_packet-fields junk status num range words hs hf hl hw,
  fields-packet diag_cntl_cmd_event_mask
      (10 ∷ (7 + length mask) ∷ 1 ∷ status ∷ event_config status ∷ length mask ∷ [])
      (event_mask_packet status mask) mask (packed_event status mask)
      (
        refl,
        (
          Fits-word (7 + length mask) hv,
          (
            refl,
            (
              Fits-byte status hs,
              (config status, (Fits-word (length mask) (omega (arith, hv)), tt)),
            ),
          ),
        ),
      ),
)
  where
    config : (status : ℕ) → Fits 1 (event_config status)
    config status = omega (arith, config_byte status)
