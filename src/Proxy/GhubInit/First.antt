-- ===== src/Proxy/GhubInit/First.antt =====
-- The first 138 requests of src/ghub_init.rs: milliseconds since the previous request, and the request.
use rp_wheel_bridge.Base.{ℕ, List, [], ◌∷◌}

abbrev pub first_requests : List (ℕ × List ℕ)
first_requests =
    (1, 0x10 ∷ 0xff ∷ 0x00 ∷ 0x1f ∷ 0x00 ∷ 0x00 ∷ 0x00 ∷ [])
    ∷ (2, 0x10 ∷ 0xff ∷ 0x00 ∷ 0x1c ∷ 0x00 ∷ 0x00 ∷ 0x00 ∷ [])
    ∷ (1, 0x10 ∷ 0xff ∷ 0x00 ∷ 0x1f ∷ 0x00 ∷ 0x00 ∷ 0x00 ∷ [])
    ∷ (2, 0x10 ∷ 0xff ∷ 0x00 ∷ 0x1c ∷ 0x00 ∷ 0x00 ∷ 0x00 ∷ [])
    ∷ (297, 0x10 ∷ 0xff ∷ 0x00 ∷ 0x1c ∷ 0x00 ∷ 0x00 ∷ 0x39 ∷ [])
    ∷ (32, 0x10 ∷ 0xff ∷ 0x00 ∷ 0x0c ∷ 0x00 ∷ 0x03 ∷ 0x00 ∷ [])
    ∷ (20, 0x10 ∷ 0xff ∷ 0x02 ∷ 0x0c ∷ 0x00 ∷ 0x00 ∷ 0x00 ∷ [])
    ∷ (48, 0x10 ∷ 0xff ∷ 0x02 ∷ 0x1c ∷ 0x00 ∷ 0x00 ∷ 0x00 ∷ [])
    ∷ (32, 0x10 ∷ 0xff ∷ 0x02 ∷ 0x1c ∷ 0x01 ∷ 0x00 ∷ 0x00 ∷ [])
    ∷ (20, 0x10 ∷ 0xff ∷ 0x00 ∷ 0x1c ∷ 0x00 ∷ 0x00 ∷ 0xf3 ∷ [])
    ∷ (20, 0x10 ∷ 0xff ∷ 0x00 ∷ 0x0c ∷ 0x00 ∷ 0x05 ∷ 0x00 ∷ [])
    ∷ (20, 0x10 ∷ 0xff ∷ 0x03 ∷ 0x2c ∷ 0x00 ∷ 0x00 ∷ 0x00 ∷ [])
    ∷ (20, 0x10 ∷ 0xff ∷ 0x00 ∷ 0x1c ∷ 0x00 ∷ 0x00 ∷ 0x6e ∷ [])
    ∷ (20, 0x10 ∷ 0xff ∷ 0x00 ∷ 0x0c ∷ 0x00 ∷ 0x01 ∷ 0x00 ∷ [])
    ∷ (19, 0x10 ∷ 0xff ∷ 0x00 ∷ 0x1f ∷ 0x00 ∷ 0x00 ∷ 0x00 ∷ [])
    ∷ (3, 0x10 ∷ 0xff ∷ 0x01 ∷ 0x0c ∷ 0x00 ∷ 0x00 ∷ 0x00 ∷ [])
    ∷ (18, 0x10 ∷ 0xff ∷ 0x00 ∷ 0x1f ∷ 0x00 ∷ 0x00 ∷ 0x45 ∷ [])
    ∷ (16, 0x10 ∷ 0xff ∷ 0x00 ∷ 0x1c ∷ 0x00 ∷ 0x00 ∷ 0x74 ∷ [])
    ∷ (16, 0x10 ∷ 0xff ∷ 0x00 ∷ 0x0f ∷ 0x45 ∷ 0x40 ∷ 0x00 ∷ [])
    ∷ (16, 0x10 ∷ 0xff ∷ 0x01 ∷ 0x1c ∷ 0x04 ∷ 0x00 ∷ 0x00 ∷ [])
    ∷ (32, 0x10 ∷ 0xff ∷ 0x00 ∷ 0x1c ∷ 0x00 ∷ 0x00 ∷ 0xe1 ∷ [])
    ∷ (20, 0x10 ∷ 0xff ∷ 0x01 ∷ 0x1c ∷ 0x05 ∷ 0x00 ∷ 0x00 ∷ [])
    ∷ (20, 0x10 ∷ 0xff ∷ 0x00 ∷ 0x1c ∷ 0x00 ∷ 0x00 ∷ 0x8c ∷ [])
    ∷ (20, 0x10 ∷ 0xff ∷ 0x01 ∷ 0x1c ∷ 0x06 ∷ 0x00 ∷ 0x00 ∷ [])
    ∷ (20, 0x10 ∷ 0xff ∷ 0x00 ∷ 0x1c ∷ 0x00 ∷ 0x00 ∷ 0xd6 ∷ [])
    ∷ (20, 0x10 ∷ 0xff ∷ 0x01 ∷ 0x1c ∷ 0x07 ∷ 0x00 ∷ 0x00 ∷ [])
    ∷ (20, 0x10 ∷ 0xff ∷ 0x00 ∷ 0x1c ∷ 0x00 ∷ 0x00 ∷ 0x5e ∷ [])
    ∷ (20, 0x10 ∷ 0xff ∷ 0x01 ∷ 0x1c ∷ 0x08 ∷ 0x00 ∷ 0x00 ∷ [])
    ∷ (20, 0x10 ∷ 0xff ∷ 0x00 ∷ 0x1c ∷ 0x00 ∷ 0x00 ∷ 0x62 ∷ [])
    ∷ (20, 0x10 ∷ 0xff ∷ 0x01 ∷ 0x1c ∷ 0x09 ∷ 0x00 ∷ 0x00 ∷ [])
    ∷ (20, 0x10 ∷ 0xff ∷ 0x00 ∷ 0x1c ∷ 0x00 ∷ 0x00 ∷ 0xf0 ∷ [])
    ∷ (20, 0x10 ∷ 0xff ∷ 0x01 ∷ 0x1c ∷ 0x0a ∷ 0x00 ∷ 0x00 ∷ [])
    ∷ (20, 0x10 ∷ 0xff ∷ 0x00 ∷ 0x1c ∷ 0x00 ∷ 0x00 ∷ 0xc9 ∷ [])
    ∷ (20, 0x10 ∷ 0xff ∷ 0x01 ∷ 0x1c ∷ 0x0b ∷ 0x00 ∷ 0x00 ∷ [])
    ∷ (20, 0x10 ∷ 0xff ∷ 0x00 ∷ 0x1c ∷ 0x00 ∷ 0x00 ∷ 0x51 ∷ [])
    ∷ (20, 0x10 ∷ 0xff ∷ 0x01 ∷ 0x1c ∷ 0x0c ∷ 0x00 ∷ 0x00 ∷ [])
    ∷ (20, 0x10 ∷ 0xff ∷ 0x00 ∷ 0x1c ∷ 0x00 ∷ 0x00 ∷ 0x11 ∷ [])
    ∷ (20, 0x10 ∷ 0xff ∷ 0x01 ∷ 0x1c ∷ 0x0d ∷ 0x00 ∷ 0x00 ∷ [])
    ∷ (20, 0x10 ∷ 0xff ∷ 0x00 ∷ 0x1c ∷ 0x00 ∷ 0x00 ∷ 0x2b ∷ [])
    ∷ (20, 0x10 ∷ 0xff ∷ 0x01 ∷ 0x1c ∷ 0x0e ∷ 0x00 ∷ 0x00 ∷ [])
    ∷ (20, 0x10 ∷ 0xff ∷ 0x00 ∷ 0x1c ∷ 0x00 ∷ 0x00 ∷ 0x89 ∷ [])
    ∷ (20, 0x10 ∷ 0xff ∷ 0x01 ∷ 0x1c ∷ 0x0f ∷ 0x00 ∷ 0x00 ∷ [])
    ∷ (20, 0x10 ∷ 0xff ∷ 0x00 ∷ 0x1c ∷ 0x00 ∷ 0x00 ∷ 0x1b ∷ [])
    ∷ (20, 0x10 ∷ 0xff ∷ 0x01 ∷ 0x1c ∷ 0x10 ∷ 0x00 ∷ 0x00 ∷ [])
    ∷ (20, 0x10 ∷ 0xff ∷ 0x00 ∷ 0x1c ∷ 0x00 ∷ 0x00 ∷ 0x83 ∷ [])
    ∷ (20, 0x10 ∷ 0xff ∷ 0x01 ∷ 0x1c ∷ 0x11 ∷ 0x00 ∷ 0x00 ∷ [])
    ∷ (20, 0x10 ∷ 0xff ∷ 0x00 ∷ 0x1c ∷ 0x00 ∷ 0x00 ∷ 0xc6 ∷ [])
    ∷ (20, 0x10 ∷ 0xff ∷ 0x01 ∷ 0x1c ∷ 0x12 ∷ 0x00 ∷ 0x00 ∷ [])
    ∷ (20, 0x10 ∷ 0xff ∷ 0x00 ∷ 0x1c ∷ 0x00 ∷ 0x00 ∷ 0x2b ∷ [])
    ∷ (20, 0x10 ∷ 0xff ∷ 0x01 ∷ 0x1c ∷ 0x13 ∷ 0x00 ∷ 0x00 ∷ [])
    ∷ (20, 0x10 ∷ 0xff ∷ 0x00 ∷ 0x1c ∷ 0x00 ∷ 0x00 ∷ 0xac ∷ [])
    ∷ (20, 0x10 ∷ 0xff ∷ 0x01 ∷ 0x1c ∷ 0x14 ∷ 0x00 ∷ 0x00 ∷ [])
    ∷ (20, 0x10 ∷ 0xff ∷ 0x00 ∷ 0x1c ∷ 0x00 ∷ 0x00 ∷ 0xf7 ∷ [])
    ∷ (20, 0x10 ∷ 0xff ∷ 0x01 ∷ 0x1c ∷ 0x15 ∷ 0x00 ∷ 0x00 ∷ [])
    ∷ (20, 0x10 ∷ 0xff ∷ 0x00 ∷ 0x1c ∷ 0x00 ∷ 0x00 ∷ 0xdc ∷ [])
    ∷ (20, 0x10 ∷ 0xff ∷ 0x01 ∷ 0x1c ∷ 0x16 ∷ 0x00 ∷ 0x00 ∷ [])
    ∷ (20, 0x10 ∷ 0xff ∷ 0x00 ∷ 0x1c ∷ 0x00 ∷ 0x00 ∷ 0x4e ∷ [])
    ∷ (20, 0x10 ∷ 0xff ∷ 0x01 ∷ 0x1c ∷ 0x17 ∷ 0x00 ∷ 0x00 ∷ [])
    ∷ (20, 0x10 ∷ 0xff ∷ 0x00 ∷ 0x1c ∷ 0x00 ∷ 0x00 ∷ 0xa9 ∷ [])
    ∷ (20, 0x10 ∷ 0xff ∷ 0x01 ∷ 0x1c ∷ 0x18 ∷ 0x00 ∷ 0x00 ∷ [])
    ∷ (20, 0x10 ∷ 0xff ∷ 0x00 ∷ 0x1c ∷ 0x00 ∷ 0x00 ∷ 0x44 ∷ [])
    ∷ (20, 0x10 ∷ 0xff ∷ 0x01 ∷ 0x1c ∷ 0x19 ∷ 0x00 ∷ 0x00 ∷ [])
    ∷ (20, 0x10 ∷ 0xff ∷ 0x00 ∷ 0x1c ∷ 0x00 ∷ 0x00 ∷ 0x9e ∷ [])
    ∷ (20, 0x10 ∷ 0xff ∷ 0x01 ∷ 0x1c ∷ 0x1a ∷ 0x00 ∷ 0x00 ∷ [])
    ∷ (20, 0x10 ∷ 0xff ∷ 0x00 ∷ 0x1c ∷ 0x00 ∷ 0x00 ∷ 0x9d ∷ [])
    ∷ (20, 0x10 ∷ 0xff ∷ 0x01 ∷ 0x1c ∷ 0x1b ∷ 0x00 ∷ 0x00 ∷ [])
    ∷ (20, 0x10 ∷ 0xff ∷ 0x00 ∷ 0x1c ∷ 0x00 ∷ 0x00 ∷ 0xfc ∷ [])
    ∷ (20, 0x10 ∷ 0xff ∷ 0x01 ∷ 0x1c ∷ 0x1c ∷ 0x00 ∷ 0x00 ∷ [])
    ∷ (20, 0x10 ∷ 0xff ∷ 0x00 ∷ 0x1c ∷ 0x00 ∷ 0x00 ∷ 0x36 ∷ [])
    ∷ (20, 0x10 ∷ 0xff ∷ 0x01 ∷ 0x1c ∷ 0x1d ∷ 0x00 ∷ 0x00 ∷ [])
    ∷ (20, 0x10 ∷ 0xff ∷ 0x00 ∷ 0x1c ∷ 0x00 ∷ 0x00 ∷ 0xe7 ∷ [])
    ∷ (20, 0x10 ∷ 0xff ∷ 0x01 ∷ 0x1c ∷ 0x1e ∷ 0x00 ∷ 0x00 ∷ [])
    ∷ (20, 0x10 ∷ 0xff ∷ 0x00 ∷ 0x1c ∷ 0x00 ∷ 0x00 ∷ 0xb7 ∷ [])
    ∷ (32, 0x10 ∷ 0xff ∷ 0x01 ∷ 0x1c ∷ 0x1f ∷ 0x00 ∷ 0x00 ∷ [])
    ∷ (20, 0x10 ∷ 0xff ∷ 0x00 ∷ 0x1c ∷ 0x00 ∷ 0x00 ∷ 0x8e ∷ [])
    ∷ (20, 0x10 ∷ 0xff ∷ 0x01 ∷ 0x1c ∷ 0x20 ∷ 0x00 ∷ 0x00 ∷ [])
    ∷ (20, 0x10 ∷ 0xff ∷ 0x00 ∷ 0x1c ∷ 0x00 ∷ 0x00 ∷ 0x93 ∷ [])
    ∷ (20, 0x10 ∷ 0xff ∷ 0x01 ∷ 0x1c ∷ 0x21 ∷ 0x00 ∷ 0x00 ∷ [])
    ∷ (20, 0x10 ∷ 0xff ∷ 0x00 ∷ 0x1c ∷ 0x00 ∷ 0x00 ∷ 0x22 ∷ [])
    ∷ (20, 0x10 ∷ 0xff ∷ 0x01 ∷ 0x1c ∷ 0x22 ∷ 0x00 ∷ 0x00 ∷ [])
    ∷ (20, 0x10 ∷ 0xff ∷ 0x00 ∷ 0x1c ∷ 0x00 ∷ 0x00 ∷ 0xcd ∷ [])
    ∷ (20, 0x10 ∷ 0xff ∷ 0x01 ∷ 0x1c ∷ 0x23 ∷ 0x00 ∷ 0x00 ∷ [])
    ∷ (20, 0x10 ∷ 0xff ∷ 0x02 ∷ 0x1c ∷ 0x00 ∷ 0x00 ∷ 0x00 ∷ [])
    ∷ (20, 0x10 ∷ 0xff ∷ 0x02 ∷ 0x1c ∷ 0x01 ∷ 0x00 ∷ 0x00 ∷ [])
    ∷ (20, 0x10 ∷ 0xff ∷ 0x02 ∷ 0x1c ∷ 0x02 ∷ 0x00 ∷ 0x00 ∷ [])
    ∷ (20, 0x10 ∷ 0xff ∷ 0x02 ∷ 0x1c ∷ 0x03 ∷ 0x00 ∷ 0x00 ∷ [])
    ∷ (20, 0x10 ∷ 0xff ∷ 0x02 ∷ 0x1c ∷ 0x00 ∷ 0x00 ∷ 0x00 ∷ [])
    ∷ (20, 0x10 ∷ 0xff ∷ 0x02 ∷ 0x1c ∷ 0x01 ∷ 0x00 ∷ 0x00 ∷ [])
    ∷ (20, 0x10 ∷ 0xff ∷ 0x02 ∷ 0x2c ∷ 0x00 ∷ 0x00 ∷ 0x00 ∷ [])
    ∷ (20, 0x10 ∷ 0xff ∷ 0x02 ∷ 0x0c ∷ 0x00 ∷ 0x00 ∷ 0x00 ∷ [])
    ∷ (20, 0x10 ∷ 0xff ∷ 0x02 ∷ 0x1c ∷ 0x00 ∷ 0x00 ∷ 0x00 ∷ [])
    ∷ (20, 0x10 ∷ 0xff ∷ 0x02 ∷ 0x1c ∷ 0x00 ∷ 0x00 ∷ 0x00 ∷ [])
    ∷ (20, 0x10 ∷ 0xff ∷ 0x02 ∷ 0x1c ∷ 0x00 ∷ 0x00 ∷ 0x00 ∷ [])
    ∷ (20, 0x10 ∷ 0xff ∷ 0x02 ∷ 0x1c ∷ 0x01 ∷ 0x00 ∷ 0x00 ∷ [])
    ∷ (20, 0x10 ∷ 0xff ∷ 0x02 ∷ 0x1c ∷ 0x01 ∷ 0x00 ∷ 0x00 ∷ [])
    ∷ (20, 0x10 ∷ 0xff ∷ 0x02 ∷ 0x1c ∷ 0x01 ∷ 0x00 ∷ 0x00 ∷ [])
    ∷ (20, 0x10 ∷ 0xff ∷ 0x02 ∷ 0x1c ∷ 0x00 ∷ 0x00 ∷ 0x00 ∷ [])
    ∷ (20, 0x10 ∷ 0xff ∷ 0x02 ∷ 0x1c ∷ 0x01 ∷ 0x00 ∷ 0x00 ∷ [])
    ∷ (20, 0x10 ∷ 0xff ∷ 0x02 ∷ 0x1c ∷ 0x00 ∷ 0x00 ∷ 0x00 ∷ [])
    ∷ (20, 0x10 ∷ 0xff ∷ 0x02 ∷ 0x1c ∷ 0x01 ∷ 0x00 ∷ 0x00 ∷ [])
    ∷ (20, 0x10 ∷ 0xff ∷ 0x02 ∷ 0x1c ∷ 0x02 ∷ 0x00 ∷ 0x00 ∷ [])
    ∷ (20, 0x10 ∷ 0xff ∷ 0x02 ∷ 0x1c ∷ 0x03 ∷ 0x00 ∷ 0x00 ∷ [])
    ∷ (20, 0x10 ∷ 0xff ∷ 0x02 ∷ 0x1c ∷ 0x03 ∷ 0x00 ∷ 0x00 ∷ [])
    ∷ (20, 0x10 ∷ 0xff ∷ 0x02 ∷ 0x1c ∷ 0x03 ∷ 0x00 ∷ 0x00 ∷ [])
    ∷ (20, 0x10 ∷ 0xff ∷ 0x02 ∷ 0x1c ∷ 0x03 ∷ 0x00 ∷ 0x00 ∷ [])
    ∷ (20, 0x10 ∷ 0xff ∷ 0x03 ∷ 0x0c ∷ 0x00 ∷ 0x00 ∷ 0x00 ∷ [])
    ∷ (20, 0x10 ∷ 0xff ∷ 0x03 ∷ 0x1c ∷ 0x00 ∷ 0x00 ∷ 0x00 ∷ [])
    ∷ (20, 0x10 ∷ 0xff ∷ 0x06 ∷ 0x2c ∷ 0x00 ∷ 0x00 ∷ 0x00 ∷ [])
    ∷ (20, 0x10 ∷ 0xff ∷ 0x06 ∷ 0x2c ∷ 0x00 ∷ 0x00 ∷ 0x00 ∷ [])
    ∷ (96, 0x10 ∷ 0xff ∷ 0x0d ∷ 0x1c ∷ 0x00 ∷ 0x00 ∷ 0x00 ∷ [])
    ∷ (96, 0x10 ∷ 0x01 ∷ 0x00 ∷ 0x1c ∷ 0x00 ∷ 0x00 ∷ 0x00 ∷ [])
    ∷ (12, 0x10 ∷ 0x01 ∷ 0x00 ∷ 0x1c ∷ 0x00 ∷ 0x00 ∷ 0x39 ∷ [])
    ∷ (12, 0x10 ∷ 0x01 ∷ 0x00 ∷ 0x0c ∷ 0x00 ∷ 0x03 ∷ 0x00 ∷ [])
    ∷ (12, 0x10 ∷ 0x01 ∷ 0x02 ∷ 0x0c ∷ 0x00 ∷ 0x00 ∷ 0x00 ∷ [])
    ∷ (12, 0x10 ∷ 0x01 ∷ 0x02 ∷ 0x1c ∷ 0x00 ∷ 0x00 ∷ 0x00 ∷ [])
    ∷ (12, 0x10 ∷ 0x01 ∷ 0x02 ∷ 0x1c ∷ 0x01 ∷ 0x00 ∷ 0x00 ∷ [])
    ∷ (12, 0x10 ∷ 0x01 ∷ 0x00 ∷ 0x1c ∷ 0x00 ∷ 0x00 ∷ 0xf3 ∷ [])
    ∷ (12, 0x10 ∷ 0x01 ∷ 0x00 ∷ 0x0c ∷ 0x00 ∷ 0x05 ∷ 0x00 ∷ [])
    ∷ (12, 0x10 ∷ 0x01 ∷ 0x03 ∷ 0x2c ∷ 0x00 ∷ 0x00 ∷ 0x00 ∷ [])
    ∷ (12, 0x10 ∷ 0x01 ∷ 0x00 ∷ 0x1c ∷ 0x00 ∷ 0x00 ∷ 0x6e ∷ [])
    ∷ (12, 0x10 ∷ 0x01 ∷ 0x00 ∷ 0x0c ∷ 0x00 ∷ 0x01 ∷ 0x00 ∷ [])
    ∷ (12, 0x10 ∷ 0x01 ∷ 0x01 ∷ 0x0c ∷ 0x00 ∷ 0x00 ∷ 0x00 ∷ [])
    ∷ (13, 0x10 ∷ 0x01 ∷ 0x00 ∷ 0x1c ∷ 0x00 ∷ 0x00 ∷ 0x74 ∷ [])
    ∷ (15, 0x10 ∷ 0x01 ∷ 0x01 ∷ 0x1c ∷ 0x04 ∷ 0x00 ∷ 0x00 ∷ [])
    ∷ (12, 0x10 ∷ 0x01 ∷ 0x00 ∷ 0x1c ∷ 0x00 ∷ 0x00 ∷ 0xe1 ∷ [])
    ∷ (12, 0x10 ∷ 0x01 ∷ 0x01 ∷ 0x1c ∷ 0x05 ∷ 0x00 ∷ 0x00 ∷ [])
    ∷ (16, 0x10 ∷ 0x01 ∷ 0x00 ∷ 0x1c ∷ 0x00 ∷ 0x00 ∷ 0x8c ∷ [])
    ∷ (12, 0x10 ∷ 0x01 ∷ 0x01 ∷ 0x1c ∷ 0x06 ∷ 0x00 ∷ 0x00 ∷ [])
    ∷ (12, 0x10 ∷ 0x01 ∷ 0x00 ∷ 0x1c ∷ 0x00 ∷ 0x00 ∷ 0xd6 ∷ [])
    ∷ (12, 0x10 ∷ 0x01 ∷ 0x01 ∷ 0x1c ∷ 0x07 ∷ 0x00 ∷ 0x00 ∷ [])
    ∷ (12, 0x10 ∷ 0x01 ∷ 0x00 ∷ 0x1c ∷ 0x00 ∷ 0x00 ∷ 0x5e ∷ [])
    ∷ (12, 0x10 ∷ 0x01 ∷ 0x01 ∷ 0x1c ∷ 0x08 ∷ 0x00 ∷ 0x00 ∷ [])
    ∷ (12, 0x10 ∷ 0x01 ∷ 0x00 ∷ 0x1c ∷ 0x00 ∷ 0x00 ∷ 0x62 ∷ [])
    ∷ (12, 0x10 ∷ 0x01 ∷ 0x01 ∷ 0x1c ∷ 0x09 ∷ 0x00 ∷ 0x00 ∷ [])
    ∷ (12, 0x10 ∷ 0x01 ∷ 0x00 ∷ 0x1c ∷ 0x00 ∷ 0x00 ∷ 0xf0 ∷ [])
    ∷ (12, 0x10 ∷ 0x01 ∷ 0x01 ∷ 0x1c ∷ 0x0a ∷ 0x00 ∷ 0x00 ∷ [])
    ∷ (12, 0x10 ∷ 0x01 ∷ 0x00 ∷ 0x1c ∷ 0x00 ∷ 0x00 ∷ 0xc9 ∷ [])
    ∷ (12, 0x10 ∷ 0x01 ∷ 0x01 ∷ 0x1c ∷ 0x0b ∷ 0x00 ∷ 0x00 ∷ [])
    ∷ []
