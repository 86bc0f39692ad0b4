-- ===== src/Device/Tables.antt =====
-- The descriptor and feature tables of src/device.rs, byte for byte.
use rp_wheel_bridge.Base.{ℕ, List, [], ◌∷◌, replicate, copy_at}

abbrev pub c269_if0_report_desc : List ℕ
c269_if0_report_desc =
    0x05 ∷ 0x01 ∷ 0x09 ∷ 0x05 ∷ 0xa1 ∷ 0x01 ∷ 0x85 ∷ 0x01 ∷ 0x09 ∷ 0x30 ∷ 0x09 ∷ 0x31 ∷ 0x09 ∷ 0x32
    ∷ 0x09 ∷ 0x35 ∷ 0x15 ∷ 0x00 ∷ 0x26 ∷ 0xff ∷ 0x00 ∷ 0x75 ∷ 0x08 ∷ 0x95 ∷ 0x04 ∷ 0x81 ∷ 0x02
    ∷ 0x09 ∷ 0x39 ∷ 0x15 ∷ 0x00 ∷ 0x25 ∷ 0x07 ∷ 0x35 ∷ 0x00 ∷ 0x46 ∷ 0x3b ∷ 0x01 ∷ 0x65 ∷ 0x14
    ∷ 0x75 ∷ 0x04 ∷ 0x95 ∷ 0x01 ∷ 0x81 ∷ 0x42 ∷ 0x65 ∷ 0x00 ∷ 0x05 ∷ 0x09 ∷ 0x19 ∷ 0x01 ∷ 0x29
    ∷ 0x0d ∷ 0x15 ∷ 0x00 ∷ 0x25 ∷ 0x01 ∷ 0x75 ∷ 0x01 ∷ 0x95 ∷ 0x0d ∷ 0x81 ∷ 0x02 ∷ 0x06 ∷ 0x00
    ∷ 0xff ∷ 0x09 ∷ 0x20 ∷ 0x75 ∷ 0x07 ∷ 0x95 ∷ 0x01 ∷ 0x81 ∷ 0x02 ∷ 0x05 ∷ 0x01 ∷ 0x09 ∷ 0x33
    ∷ 0x09 ∷ 0x34 ∷ 0x15 ∷ 0x00 ∷ 0x26 ∷ 0xff ∷ 0x00 ∷ 0x75 ∷ 0x08 ∷ 0x95 ∷ 0x02 ∷ 0x81 ∷ 0x02
    ∷ 0x06 ∷ 0x00 ∷ 0xff ∷ 0x09 ∷ 0x21 ∷ 0x95 ∷ 0x36 ∷ 0x81 ∷ 0x02 ∷ 0x85 ∷ 0x05 ∷ 0x09 ∷ 0x22
    ∷ 0x95 ∷ 0x1f ∷ 0x91 ∷ 0x02 ∷ 0x85 ∷ 0x03 ∷ 0x0a ∷ 0x21 ∷ 0x27 ∷ 0x95 ∷ 0x2f ∷ 0xb1 ∷ 0x02
    ∷ 0xc0 ∷ 0x06 ∷ 0xf0 ∷ 0xff ∷ 0x09 ∷ 0x40 ∷ 0xa1 ∷ 0x01 ∷ 0x85 ∷ 0xf0 ∷ 0x09 ∷ 0x47 ∷ 0x95
    ∷ 0x3f ∷ 0xb1 ∷ 0x02 ∷ 0x85 ∷ 0xf1 ∷ 0x09 ∷ 0x48 ∷ 0x95 ∷ 0x3f ∷ 0xb1 ∷ 0x02 ∷ 0x85 ∷ 0xf2
    ∷ 0x09 ∷ 0x49 ∷ 0x95 ∷ 0x0f ∷ 0xb1 ∷ 0x02 ∷ 0x85 ∷ 0xf3 ∷ 0x0a ∷ 0x01 ∷ 0x47 ∷ 0x95 ∷ 0x07
    ∷ 0xb1 ∷ 0x02 ∷ 0xc0 ∷ 0x05 ∷ 0x01 ∷ 0x09 ∷ 0x04 ∷ 0xa1 ∷ 0x01 ∷ 0x85 ∷ 0x30 ∷ 0x06 ∷ 0x01
    ∷ 0xff ∷ 0x09 ∷ 0x02 ∷ 0x95 ∷ 0x07 ∷ 0x91 ∷ 0x02 ∷ 0x85 ∷ 0x31 ∷ 0x95 ∷ 0x7e ∷ 0x75 ∷ 0x10
    ∷ 0x05 ∷ 0x10 ∷ 0x19 ∷ 0x01 ∷ 0x2a ∷ 0xff ∷ 0xff ∷ 0xb1 ∷ 0x40 ∷ 0xc0 ∷ []

abbrev pub c272_if0_report_desc : List ℕ
c272_if0_report_desc =
    0x05 ∷ 0x01 ∷ 0x09 ∷ 0x04 ∷ 0xa1 ∷ 0x01 ∷ 0x09 ∷ 0x39 ∷ 0x15 ∷ 0x00 ∷ 0x25 ∷ 0x07 ∷ 0x35 ∷ 0x00
    ∷ 0x46 ∷ 0x3b ∷ 0x01 ∷ 0x65 ∷ 0x14 ∷ 0x75 ∷ 0x04 ∷ 0x95 ∷ 0x01 ∷ 0x81 ∷ 0x42 ∷ 0x05 ∷ 0x09
    ∷ 0x19 ∷ 0x01 ∷ 0x29 ∷ 0x1c ∷ 0x65 ∷ 0x00 ∷ 0x25 ∷ 0x01 ∷ 0x45 ∷ 0x01 ∷ 0x75 ∷ 0x01 ∷ 0x95
    ∷ 0x1c ∷ 0x81 ∷ 0x02 ∷ 0x05 ∷ 0x01 ∷ 0x09 ∷ 0x30 ∷ 0x27 ∷ 0xff ∷ 0xff ∷ 0x00 ∷ 0x00 ∷ 0x47
    ∷ 0xff ∷ 0xff ∷ 0x00 ∷ 0x00 ∷ 0x75 ∷ 0x10 ∷ 0x95 ∷ 0x01 ∷ 0x81 ∷ 0x02 ∷ 0x09 ∷ 0x33 ∷ 0x09
    ∷ 0x34 ∷ 0x09 ∷ 0x35 ∷ 0x09 ∷ 0x32 ∷ 0x09 ∷ 0x36 ∷ 0x09 ∷ 0x37 ∷ 0x65 ∷ 0x00 ∷ 0x75 ∷ 0x10
    ∷ 0x95 ∷ 0x06 ∷ 0x81 ∷ 0x02 ∷ 0x06 ∷ 0x00 ∷ 0xff ∷ 0x25 ∷ 0x01 ∷ 0x45 ∷ 0x01 ∷ 0x19 ∷ 0x00
    ∷ 0x29 ∷ 0x0f ∷ 0x75 ∷ 0x01 ∷ 0x95 ∷ 0x10 ∷ 0x81 ∷ 0x02 ∷ 0x05 ∷ 0x09 ∷ 0x19 ∷ 0x1d ∷ 0x29
    ∷ 0x5c ∷ 0x65 ∷ 0x00 ∷ 0x15 ∷ 0x00 ∷ 0x25 ∷ 0x01 ∷ 0x75 ∷ 0x01 ∷ 0x95 ∷ 0x40 ∷ 0x81 ∷ 0x02
    ∷ 0x05 ∷ 0x01 ∷ 0x09 ∷ 0x31 ∷ 0x27 ∷ 0xff ∷ 0xff ∷ 0x00 ∷ 0x00 ∷ 0x47 ∷ 0xff ∷ 0xff ∷ 0x00
    ∷ 0x00 ∷ 0x65 ∷ 0x00 ∷ 0x75 ∷ 0x10 ∷ 0x95 ∷ 0x01 ∷ 0x81 ∷ 0x02 ∷ 0xc0 ∷ []

abbrev pub hidpp_report_desc : List ℕ
hidpp_report_desc =
    0x06 ∷ 0x43 ∷ 0xff ∷ 0x0a ∷ 0x01 ∷ 0x07 ∷ 0xa1 ∷ 0x01 ∷ 0x85 ∷ 0x10 ∷ 0x75 ∷ 0x08 ∷ 0x95 ∷ 0x06
    ∷ 0x15 ∷ 0x00 ∷ 0x26 ∷ 0xff ∷ 0x00 ∷ 0x09 ∷ 0x01 ∷ 0x81 ∷ 0x00 ∷ 0x09 ∷ 0x01 ∷ 0x91 ∷ 0x00
    ∷ 0xc0 ∷ 0x06 ∷ 0x43 ∷ 0xff ∷ 0x0a ∷ 0x02 ∷ 0x07 ∷ 0xa1 ∷ 0x01 ∷ 0x85 ∷ 0x11 ∷ 0x75 ∷ 0x08
    ∷ 0x95 ∷ 0x13 ∷ 0x15 ∷ 0x00 ∷ 0x26 ∷ 0xff ∷ 0x00 ∷ 0x09 ∷ 0x02 ∷ 0x81 ∷ 0x00 ∷ 0x09 ∷ 0x02
    ∷ 0x91 ∷ 0x00 ∷ 0xc0 ∷ 0x06 ∷ 0x43 ∷ 0xff ∷ 0x0a ∷ 0x04 ∷ 0x07 ∷ 0xa1 ∷ 0x01 ∷ 0x85 ∷ 0x12
    ∷ 0x75 ∷ 0x08 ∷ 0x95 ∷ 0x3f ∷ 0x15 ∷ 0x00 ∷ 0x26 ∷ 0xff ∷ 0x00 ∷ 0x09 ∷ 0x03 ∷ 0x81 ∷ 0x00
    ∷ 0x09 ∷ 0x03 ∷ 0x91 ∷ 0x00 ∷ 0xc0 ∷ []

abbrev pub ffb_report_desc : List ℕ
ffb_report_desc =
    0x06 ∷ 0xfd ∷ 0xff ∷ 0x0a ∷ 0x01 ∷ 0xfd ∷ 0xa1 ∷ 0x01 ∷ 0x85 ∷ 0x01 ∷ 0x15 ∷ 0x00 ∷ 0x26 ∷ 0xff
    ∷ 0x00 ∷ 0x75 ∷ 0x08 ∷ 0x95 ∷ 0x3f ∷ 0x09 ∷ 0x01 ∷ 0x81 ∷ 0x00 ∷ 0x95 ∷ 0x3f ∷ 0x09 ∷ 0x01
    ∷ 0x91 ∷ 0x00 ∷ 0xc0 ∷ []

abbrev pub feature_03 : List ℕ
feature_03 =
    0x03 ∷ 0x21 ∷ 0x27 ∷ 0x04 ∷ 0x10 ∷ 0x06 ∷ 0x00 ∷ 0x00 ∷ 0x00 ∷ 0x00 ∷ 0x00 ∷ 0x00 ∷ 0x00 ∷ 0x00
    ∷ 0x00 ∷ 0x00 ∷ 0x00 ∷ 0x00 ∷ 0x0d ∷ 0x0d ∷ 0x00 ∷ 0x00 ∷ 0x00 ∷ 0x00 ∷ 0x9d ∷ 0x84 ∷ 0x03
    ∷ 0x01 ∷ 0x00 ∷ 0x00 ∷ 0x00 ∷ 0x00 ∷ 0x01 ∷ 0x00 ∷ 0x00 ∷ 0x00 ∷ 0x00 ∷ 0x00 ∷ 0x00 ∷ 0x00
    ∷ 0x00 ∷ 0x00 ∷ 0x00 ∷ 0x00 ∷ 0x00 ∷ 0x00 ∷ 0x00 ∷ 0x00 ∷ []

-- `HEAD` of `FEATURE_31`.
abbrev pub feature_31_head : List ℕ
feature_31_head =
    0x31 ∷ 0x30 ∷ 0x00 ∷ 0x30 ∷ 0x00 ∷ 0x30 ∷ 0x00 ∷ 0x30 ∷ 0x00 ∷ 0x30 ∷ 0x00 ∷ 0x30 ∷ 0x00 ∷ 0x30
    ∷ 0x00 ∷ 0x30 ∷ 0x00 ∷ 0x30 ∷ 0x00 ∷ 0x30 ∷ 0x00 ∷ 0x30 ∷ 0x00 ∷ 0x30 ∷ 0x00 ∷ 0x00 ∷ 0x00
    ∷ 0x00 ∷ 0x00 ∷ 0x00 ∷ 0x00 ∷ 0x00 ∷ 0x00 ∷ 0x00 ∷ 0x00 ∷ 0x00 ∷ 0x00 ∷ 0x00 ∷ 0x00 ∷ 0x00
    ∷ 0x00 ∷ 0x00 ∷ 0x00 ∷ 0x00 ∷ 0x00 ∷ 0x00 ∷ 0x00 ∷ 0x00 ∷ 0x00 ∷ 0x00 ∷ 0x00 ∷ 0x00 ∷ 0x00
    ∷ 0x00 ∷ 0x00 ∷ 0x00 ∷ 0x00 ∷ 0x00 ∷ 0x00 ∷ 0x00 ∷ 0x00 ∷ 0x00 ∷ 0x00 ∷ 0x00 ∷ 0x00 ∷ 0x05
    ∷ 0x09 ∷ 0x04 ∷ 0x02 ∷ 0x00 ∷ 0x02 ∷ 0x03 ∷ 0x00 ∷ 0x00 ∷ 0x00 ∷ 0x09 ∷ 0x21 ∷ 0x11 ∷ 0x01
    ∷ 0x00 ∷ 0x01 ∷ 0x22 ∷ 0x1e ∷ 0x00 ∷ 0x07 ∷ 0x05 ∷ 0x82 ∷ 0x03 ∷ 0x40 ∷ 0x00 ∷ 0x01 ∷ 0x07
    ∷ 0x05 ∷ 0x02 ∷ 0x03 ∷ 0x40 ∷ 0x00 ∷ 0x01 ∷ []

-- The `while` loop copies `HEAD` to the front of 253 zeros.
abbrev pub feature_31 : List ℕ
feature_31 = copy_at (replicate 253 0) 0 feature_31_head
