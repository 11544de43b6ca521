-- ===== src/Opens/Usb.antt =====
-- The tables that router/usb.c writes to its control endpoint, from line 60 on, with the structures of the
-- kernel's headers as they lie in memory; numbers are written with their low byte first.
use diag.Base.{ℕ, ◌+◌, bit_or, [], ◌∷◌, ◌++◌, length}
use diag.Bytes.{Bytes, le16, le32}

abbrev usb_protocol_diag : ℕ
usb_protocol_diag = 0x30

-- The constants of the kernel's headers.
abbrev functionfs_descriptors_magic_v2 : ℕ
functionfs_descriptors_magic_v2 = 3

abbrev functionfs_strings_magic : ℕ
functionfs_strings_magic = 2

-- FUNCTIONFS_HAS_FS_DESC, FUNCTIONFS_HAS_HS_DESC and FUNCTIONFS_HAS_SS_DESC
abbrev functionfs_has_descs : ℕ
functionfs_has_descs = bit_or 1 (bit_or 2 4)

abbrev usb_dt_interface : ℕ
usb_dt_interface = 4

abbrev usb_dt_endpoint : ℕ
usb_dt_endpoint = 5

abbrev usb_dt_ss_endpoint_comp : ℕ
usb_dt_ss_endpoint_comp = 0x30

abbrev usb_dir_out : ℕ
usb_dir_out = 0

abbrev usb_dir_in : ℕ
usb_dir_in = 0x80

abbrev usb_endpoint_xfer_bulk : ℕ
usb_endpoint_xfer_bulk = 2

-- USB_CLASS_VENDOR_SPEC and USB_SUBCLASS_VENDOR_SPEC
abbrev usb_vendor_spec : ℕ
usb_vendor_spec = 0xff

-- `struct usb_interface_descriptor` of 9 bytes, as all three speeds set it: two endpoints, and the
-- string 1.
unfoldable pub intf : Bytes
intf =
    9 ∷ usb_dt_interface ∷ 0 ∷ 0 ∷ 2 ∷ usb_vendor_spec ∷ usb_vendor_spec ∷ usb_protocol_diag ∷ 1
    ∷ []

-- `struct usb_endpoint_descriptor_no_audio` of 7 bytes, with its address and its wMaxPacketSize.
unfoldable pub endpoint : ℕ → ℕ → Bytes
unfolding le16
endpoint address max_packet =
    (7 ∷ usb_dt_endpoint ∷ address ∷ usb_endpoint_xfer_bulk ∷ []) ++ le16 max_packet ++ (0 ∷ [])

-- `struct usb_ss_ep_comp_descriptor` of 6 bytes.
unfoldable pub endpoint_comp : Bytes
endpoint_comp = 6 ∷ usb_dt_ss_endpoint_comp ∷ 0 ∷ 0 ∷ 0 ∷ 0 ∷ []

unfoldable pub source : ℕ → Bytes
unfolding endpoint
source max_packet = endpoint (bit_or 1 usb_dir_out) max_packet

unfoldable pub sink : ℕ → Bytes
unfolding endpoint
sink max_packet = endpoint (bit_or 2 usb_dir_in) max_packet

unfoldable pub fs_descs : Bytes
unfolding intf source sink
fs_descs = intf ++ source 64 ++ sink 64

unfoldable pub hs_descs : Bytes
unfolding intf source sink
hs_descs = intf ++ source 512 ++ sink 512

unfoldable pub ss_descs : Bytes
unfolding intf source sink endpoint_comp
ss_descs = intf ++ source 1024 ++ endpoint_comp ++ sink 1024 ++ endpoint_comp

-- The header takes 12 bytes, and so do the three counts.
unfoldable pub descriptors : Bytes
unfolding le32 fs_descs hs_descs ss_descs
descriptors =
    let size : ℕ = 24 + length fs_descs + length hs_descs + length ss_descs in
    le32 functionfs_descriptors_magic_v2
    ++ le32 size
    ++ le32 functionfs_has_descs
    ++ le32 3
    ++ le32 3
    ++ le32 5
    ++ fs_descs
    ++ hs_descs
    ++ ss_descs

-- "Diag interface" and its closing zero.
abbrev str_interface : Bytes
str_interface =
    68 ∷ 105 ∷ 97 ∷ 103 ∷ 32 ∷ 105 ∷ 110 ∷ 116 ∷ 101 ∷ 114 ∷ 102 ∷ 97 ∷ 99 ∷ 101 ∷ 0 ∷ []

-- The header takes 16 bytes, and the language 2.
unfoldable pub strings : Bytes
unfolding le32 le16
strings =
    le32 functionfs_strings_magic
    ++ le32 (18 + length str_interface)
    ++ le32 1
    ++ le32 1
    ++ le16 0x0409
    ++ str_interface
