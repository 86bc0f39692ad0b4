-- ===== src/Proxy/GhubInit/Last.antt =====
-- The last 138 requests of src/ghub_init.rs: milliseconds since the previous request, and the request.
use rp_wheel_bridge.Base.{ℕ, List, [], ◌∷◌}

abbrev pub last_requests : List (ℕ × List ℕ)
last_requests =
    (12, 0x10 ∷ 0x01 ∷ 0x02 ∷ 0x1c ∷ 0x00 ∷ 0x00 ∷ 0x00 ∷ [])
    ∷ (12, 0x10 ∷ 0x01 ∷ 0x02 ∷ 0x1c ∷ 0x01 ∷ 0x00 ∷ 0x00 ∷ [])
    ∷ (12, 0x10 ∷ 0x01 ∷ 0x02 ∷ 0x1c ∷ 0x00 ∷ 0x00 ∷ 0x00 ∷ [])
    ∷ (12, 0x10 ∷ 0x01 ∷ 0x02 ∷ 0x1c ∷ 0x01 ∷ 0x00 ∷ 0x00 ∷ [])
    ∷ (12, 0x10 ∷ 0x01 ∷ 0x02 ∷ 0x2c ∷ 0x00 ∷ 0x00 ∷ 0x00 ∷ [])
    ∷ (12, 0x10 ∷ 0x01 ∷ 0x02 ∷ 0x0c ∷ 0x00 ∷ 0x00 ∷ 0x00 ∷ [])
    ∷ (12, 0x10 ∷ 0x01 ∷ 0x02 ∷ 0x1c ∷ 0x00 ∷ 0x00 ∷ 0x00 ∷ [])
    ∷ (12, 0x10 ∷ 0x01 ∷ 0x02 ∷ 0x1c ∷ 0x00 ∷ 0x00 ∷ 0x00 ∷ [])
    ∷ (12, 0x10 ∷ 0x01 ∷ 0x02 ∷ 0x1c ∷ 0x00 ∷ 0x00 ∷ 0x00 ∷ [])
    ∷ (12, 0x10 ∷ 0x01 ∷ 0x02 ∷ 0x1c ∷ 0x01 ∷ 0x00 ∷ 0x00 ∷ [])
    ∷ (12, 0x10 ∷ 0x01 ∷ 0x02 ∷ 0x1c ∷ 0x01 ∷ 0x00 ∷ 0x00 ∷ [])
    ∷ (12, 0x10 ∷ 0x01 ∷ 0x02 ∷ 0x1c ∷ 0x01 ∷ 0x00 ∷ 0x00 ∷ [])
    ∷ (12, 0x10 ∷ 0x01 ∷ 0x02 ∷ 0x1c ∷ 0x00 ∷ 0x00 ∷ 0x00 ∷ [])
    ∷ (12, 0x10 ∷ 0x01 ∷ 0x02 ∷ 0x1c ∷ 0x01 ∷ 0x00 ∷ 0x00 ∷ [])
    ∷ (14, 0x10 ∷ 0x01 ∷ 0x03 ∷ 0x0c ∷ 0x00 ∷ 0x00 ∷ 0x00 ∷ [])
    ∷ (14, 0x10 ∷ 0x01 ∷ 0x03 ∷ 0x1c ∷ 0x00 ∷ 0x00 ∷ 0x00 ∷ [])
    ∷ (12, 0x10 ∷ 0x01 ∷ 0x03 ∷ 0x1c ∷ 0x10 ∷ 0x00 ∷ 0x00 ∷ [])
    ∷ (12, 0x10 ∷ 0x03 ∷ 0x00 ∷ 0x1c ∷ 0x00 ∷ 0x00 ∷ 0x00 ∷ [])
    ∷ (12, 0x10 ∷ 0x03 ∷ 0x00 ∷ 0x1c ∷ 0x00 ∷ 0x00 ∷ 0x39 ∷ [])
    ∷ (12, 0x10 ∷ 0x03 ∷ 0x00 ∷ 0x0c ∷ 0x00 ∷ 0x03 ∷ 0x00 ∷ [])
    ∷ (12, 0x10 ∷ 0x03 ∷ 0x02 ∷ 0x0c ∷ 0x00 ∷ 0x00 ∷ 0x00 ∷ [])
    ∷ (12, 0x10 ∷ 0x03 ∷ 0x02 ∷ 0x1c ∷ 0x00 ∷ 0x00 ∷ 0x00 ∷ [])
    ∷ (12, 0x10 ∷ 0x03 ∷ 0x02 ∷ 0x1c ∷ 0x01 ∷ 0x00 ∷ 0x00 ∷ [])
    ∷ (12, 0x10 ∷ 0x03 ∷ 0x00 ∷ 0x1c ∷ 0x00 ∷ 0x00 ∷ 0xf3 ∷ [])
    ∷ (12, 0x10 ∷ 0x03 ∷ 0x00 ∷ 0x0c ∷ 0x00 ∷ 0x05 ∷ 0x00 ∷ [])
    ∷ (12, 0x10 ∷ 0x03 ∷ 0x03 ∷ 0x2c ∷ 0x00 ∷ 0x00 ∷ 0x00 ∷ [])
    ∷ (12, 0x10 ∷ 0x03 ∷ 0x00 ∷ 0x1c ∷ 0x00 ∷ 0x00 ∷ 0x6e ∷ [])
    ∷ (12, 0x10 ∷ 0x03 ∷ 0x00 ∷ 0x0c ∷ 0x00 ∷ 0x01 ∷ 0x00 ∷ [])
    ∷ (12, 0x10 ∷ 0x03 ∷ 0x01 ∷ 0x0c ∷ 0x00 ∷ 0x00 ∷ 0x00 ∷ [])
    ∷ (12, 0x10 ∷ 0x03 ∷ 0x00 ∷ 0x1c ∷ 0x00 ∷ 0x00 ∷ 0x74 ∷ [])
    ∷ (12, 0x10 ∷ 0x03 ∷ 0x01 ∷ 0x1c ∷ 0x04 ∷ 0x00 ∷ 0x00 ∷ [])
    ∷ (12, 0x10 ∷ 0x03 ∷ 0x00 ∷ 0x1c ∷ 0x00 ∷ 0x00 ∷ 0xe1 ∷ [])
    ∷ (12, 0x10 ∷ 0x03 ∷ 0x01 ∷ 0x1c ∷ 0x05 ∷ 0x00 ∷ 0x00 ∷ [])
    ∷ (12, 0x10 ∷ 0x03 ∷ 0x00 ∷ 0x1c ∷ 0x00 ∷ 0x00 ∷ 0x8c ∷ [])
    ∷ (12, 0x10 ∷ 0x03 ∷ 0x01 ∷ 0x1c ∷ 0x06 ∷ 0x00 ∷ 0x00 ∷ [])
    ∷ (12, 0x10 ∷ 0x03 ∷ 0x00 ∷ 0x1c ∷ 0x00 ∷ 0x00 ∷ 0xd6 ∷ [])
    ∷ (12, 0x10 ∷ 0x03 ∷ 0x01 ∷ 0x1c ∷ 0x07 ∷ 0x00 ∷ 0x00 ∷ [])
    ∷ (12, 0x10 ∷ 0x03 ∷ 0x00 ∷ 0x1c ∷ 0x00 ∷ 0x00 ∷ 0x5e ∷ [])
    ∷ (12, 0x10 ∷ 0x03 ∷ 0x01 ∷ 0x1c ∷ 0x08 ∷ 0x00 ∷ 0x00 ∷ [])
    ∷ (12, 0x10 ∷ 0x03 ∷ 0x00 ∷ 0x1c ∷ 0x00 ∷ 0x00 ∷ 0x62 ∷ [])
    ∷ (12, 0x10 ∷ 0x03 ∷ 0x01 ∷ 0x1c ∷ 0x09 ∷ 0x00 ∷ 0x00 ∷ [])
    ∷ (12, 0x10 ∷ 0x03 ∷ 0x00 ∷ 0x1c ∷ 0x00 ∷ 0x00 ∷ 0xf0 ∷ [])
    ∷ (12, 0x10 ∷ 0x03 ∷ 0x01 ∷ 0x1c ∷ 0x0a ∷ 0x00 ∷ 0x00 ∷ [])
    ∷ (12, 0x10 ∷ 0x03 ∷ 0x00 ∷ 0x1c ∷ 0x00 ∷ 0x00 ∷ 0xc9 ∷ [])
    ∷ (12, 0x10 ∷ 0x03 ∷ 0x01 ∷ 0x1c ∷ 0x0b ∷ 0x00 ∷ 0x00 ∷ [])
    ∷ (12, 0x10 ∷ 0x03 ∷ 0x00 ∷ 0x1c ∷ 0x00 ∷ 0x00 ∷ 0x51 ∷ [])
    ∷ (12, 0x10 ∷ 0x03 ∷ 0x01 ∷ 0x1c ∷ 0x0c ∷ 0x00 ∷ 0x00 ∷ [])
    ∷ (12, 0x10 ∷ 0x03 ∷ 0x00 ∷ 0x1c ∷ 0x00 ∷ 0x00 ∷ 0x11 ∷ [])
    ∷ (12, 0x10 ∷ 0x03 ∷ 0x01 ∷ 0x1c ∷ 0x0d ∷ 0x00 ∷ 0x00 ∷ [])
    ∷ (12, 0x10 ∷ 0x03 ∷ 0x00 ∷ 0x1c ∷ 0x00 ∷ 0x00 ∷ 0x2b ∷ [])
    ∷ (12, 0x10 ∷ 0x03 ∷ 0x01 ∷ 0x1c ∷ 0x0e ∷ 0x00 ∷ 0x00 ∷ [])
    ∷ (12, 0x10 ∷ 0x03 ∷ 0x00 ∷ 0x1c ∷ 0x00 ∷ 0x00 ∷ 0x89 ∷ [])
    ∷ (12, 0x10 ∷ 0x03 ∷ 0x01 ∷ 0x1c ∷ 0x0f ∷ 0x00 ∷ 0x00 ∷ [])
    ∷ (12, 0x10 ∷ 0x03 ∷ 0x02 ∷ 0x1c ∷ 0x00 ∷ 0x00 ∷ 0x00 ∷ [])
    ∷ (12, 0x10 ∷ 0x03 ∷ 0x02 ∷ 0x1c ∷ 0x01 ∷ 0x00 ∷ 0x00 ∷ [])
    ∷ (12, 0x10 ∷ 0x03 ∷ 0x02 ∷ 0x1c ∷ 0x00 ∷ 0x00 ∷ 0x00 ∷ [])
    ∷ (12, 0x10 ∷ 0x03 ∷ 0x02 ∷ 0x1c ∷ 0x01 ∷ 0x00 ∷ 0x00 ∷ [])
    ∷ (12, 0x10 ∷ 0x03 ∷ 0x02 ∷ 0x2c ∷ 0x00 ∷ 0x00 ∷ 0x00 ∷ [])
    ∷ (12, 0x10 ∷ 0x03 ∷ 0x02 ∷ 0x0c ∷ 0x00 ∷ 0x00 ∷ 0x00 ∷ [])
    ∷ (12, 0x10 ∷ 0x03 ∷ 0x02 ∷ 0x1c ∷ 0x00 ∷ 0x00 ∷ 0x00 ∷ [])
    ∷ (12, 0x10 ∷ 0x03 ∷ 0x02 ∷ 0x1c ∷ 0x00 ∷ 0x00 ∷ 0x00 ∷ [])
    ∷ (12, 0x10 ∷ 0x03 ∷ 0x02 ∷ 0x1c ∷ 0x00 ∷ 0x00 ∷ 0x00 ∷ [])
    ∷ (12, 0x10 ∷ 0x03 ∷ 0x02 ∷ 0x1c ∷ 0x01 ∷ 0x00 ∷ 0x00 ∷ [])
    ∷ (12, 0x10 ∷ 0x03 ∷ 0x02 ∷ 0x1c ∷ 0x01 ∷ 0x00 ∷ 0x00 ∷ [])
    ∷ (12, 0x10 ∷ 0x03 ∷ 0x02 ∷ 0x1c ∷ 0x01 ∷ 0x00 ∷ 0x00 ∷ [])
    ∷ (12, 0x10 ∷ 0x03 ∷ 0x02 ∷ 0x1c ∷ 0x00 ∷ 0x00 ∷ 0x00 ∷ [])
    ∷ (12, 0x10 ∷ 0x03 ∷ 0x02 ∷ 0x1c ∷ 0x01 ∷ 0x00 ∷ 0x00 ∷ [])
    ∷ (14, 0x10 ∷ 0x03 ∷ 0x03 ∷ 0x0c ∷ 0x00 ∷ 0x00 ∷ 0x00 ∷ [])
    ∷ (14, 0x10 ∷ 0x03 ∷ 0x03 ∷ 0x1c ∷ 0x00 ∷ 0x00 ∷ 0x00 ∷ [])
    ∷ (12, 0x10 ∷ 0x03 ∷ 0x03 ∷ 0x1c ∷ 0x10 ∷ 0x00 ∷ 0x00 ∷ [])
    ∷ (12, 0x10 ∷ 0x05 ∷ 0x00 ∷ 0x1c ∷ 0x00 ∷ 0x00 ∷ 0x00 ∷ [])
    ∷ (12, 0x10 ∷ 0x05 ∷ 0x00 ∷ 0x1c ∷ 0x00 ∷ 0x00 ∷ 0x39 ∷ [])
    ∷ (12, 0x10 ∷ 0x05 ∷ 0x00 ∷ 0x0c ∷ 0x00 ∷ 0x03 ∷ 0x00 ∷ [])
    ∷ (12, 0x10 ∷ 0x05 ∷ 0x02 ∷ 0x0c ∷ 0x00 ∷ 0x00 ∷ 0x00 ∷ [])
    ∷ (12, 0x10 ∷ 0x05 ∷ 0x02 ∷ 0x1c ∷ 0x00 ∷ 0x00 ∷ 0x00 ∷ [])
    ∷ (12, 0x10 ∷ 0x05 ∷ 0x02 ∷ 0x1c ∷ 0x01 ∷ 0x00 ∷ 0x00 ∷ [])
    ∷ (12, 0x10 ∷ 0x05 ∷ 0x02 ∷ 0x1c ∷ 0x02 ∷ 0x00 ∷ 0x00 ∷ [])
    ∷ (12, 0x10 ∷ 0x05 ∷ 0x00 ∷ 0x1c ∷ 0x00 ∷ 0x00 ∷ 0xf3 ∷ [])
    ∷ (12, 0x10 ∷ 0x05 ∷ 0x00 ∷ 0x0c ∷ 0x00 ∷ 0x05 ∷ 0x00 ∷ [])
    ∷ (12, 0x10 ∷ 0x05 ∷ 0x03 ∷ 0x2c ∷ 0x00 ∷ 0x00 ∷ 0x00 ∷ [])
    ∷ (12, 0x10 ∷ 0x05 ∷ 0x00 ∷ 0x1c ∷ 0x00 ∷ 0x00 ∷ 0x6e ∷ [])
    ∷ (12, 0x10 ∷ 0x05 ∷ 0x00 ∷ 0x0c ∷ 0x00 ∷ 0x01 ∷ 0x00 ∷ [])
    ∷ (12, 0x10 ∷ 0x05 ∷ 0x01 ∷ 0x0c ∷ 0x00 ∷ 0x00 ∷ 0x00 ∷ [])
    ∷ (12, 0x10 ∷ 0x05 ∷ 0x00 ∷ 0x1c ∷ 0x00 ∷ 0x00 ∷ 0x74 ∷ [])
    ∷ (12, 0x10 ∷ 0x05 ∷ 0x01 ∷ 0x1c ∷ 0x04 ∷ 0x00 ∷ 0x00 ∷ [])
    ∷ (12, 0x10 ∷ 0x05 ∷ 0x00 ∷ 0x1c ∷ 0x00 ∷ 0x00 ∷ 0xe1 ∷ [])
    ∷ (12, 0x10 ∷ 0x05 ∷ 0x01 ∷ 0x1c ∷ 0x05 ∷ 0x00 ∷ 0x00 ∷ [])
    ∷ (12, 0x10 ∷ 0x05 ∷ 0x00 ∷ 0x1c ∷ 0x00 ∷ 0x00 ∷ 0x8c ∷ [])
    ∷ (12, 0x10 ∷ 0x05 ∷ 0x01 ∷ 0x1c ∷ 0x06 ∷ 0x00 ∷ 0x00 ∷ [])
    ∷ (12, 0x10 ∷ 0x05 ∷ 0x00 ∷ 0x1c ∷ 0x00 ∷ 0x00 ∷ 0xd6 ∷ [])
    ∷ (12, 0x10 ∷ 0x05 ∷ 0x01 ∷ 0x1c ∷ 0x07 ∷ 0x00 ∷ 0x00 ∷ [])
    ∷ (12, 0x10 ∷ 0x05 ∷ 0x00 ∷ 0x1c ∷ 0x00 ∷ 0x00 ∷ 0x5e ∷ [])
    ∷ (12, 0x10 ∷ 0x05 ∷ 0x01 ∷ 0x1c ∷ 0x08 ∷ 0x00 ∷ 0x00 ∷ [])
    ∷ (12, 0x10 ∷ 0x05 ∷ 0x00 ∷ 0x1c ∷ 0x00 ∷ 0x00 ∷ 0x62 ∷ [])
    ∷ (12, 0x10 ∷ 0x05 ∷ 0x01 ∷ 0x1c ∷ 0x09 ∷ 0x00 ∷ 0x00 ∷ [])
    ∷ (12, 0x10 ∷ 0x05 ∷ 0x00 ∷ 0x1c ∷ 0x00 ∷ 0x00 ∷ 0xf0 ∷ [])
    ∷ (12, 0x10 ∷ 0x05 ∷ 0x01 ∷ 0x1c ∷ 0x0a ∷ 0x00 ∷ 0x00 ∷ [])
    ∷ (12, 0x10 ∷ 0x05 ∷ 0x00 ∷ 0x1c ∷ 0x00 ∷ 0x00 ∷ 0xc9 ∷ [])
    ∷ (12, 0x10 ∷ 0x05 ∷ 0x01 ∷ 0x1c ∷ 0x0b ∷ 0x00 ∷ 0x00 ∷ [])
    ∷ (12, 0x10 ∷ 0x05 ∷ 0x00 ∷ 0x1c ∷ 0x00 ∷ 0x00 ∷ 0x51 ∷ [])
    ∷ (12, 0x10 ∷ 0x05 ∷ 0x01 ∷ 0x1c ∷ 0x0c ∷ 0x00 ∷ 0x00 ∷ [])
    ∷ (12, 0x10 ∷ 0x05 ∷ 0x02 ∷ 0x1c ∷ 0x00 ∷ 0x00 ∷ 0x00 ∷ [])
    ∷ (12, 0x10 ∷ 0x05 ∷ 0x02 ∷ 0x1c ∷ 0x01 ∷ 0x00 ∷ 0x00 ∷ [])
    ∷ (12, 0x10 ∷ 0x05 ∷ 0x02 ∷ 0x1c ∷ 0x02 ∷ 0x00 ∷ 0x00 ∷ [])
    ∷ (62, 0x10 ∷ 0x05 ∷ 0x02 ∷ 0x1c ∷ 0x00 ∷ 0x00 ∷ 0x00 ∷ [])
    ∷ (14, 0x10 ∷ 0x05 ∷ 0x02 ∷ 0x1c ∷ 0x01 ∷ 0x00 ∷ 0x00 ∷ [])
    ∷ (12, 0x10 ∷ 0x05 ∷ 0x02 ∷ 0x1c ∷ 0x02 ∷ 0x00 ∷ 0x00 ∷ [])
    ∷ (62, 0x10 ∷ 0x05 ∷ 0x02 ∷ 0x1c ∷ 0x00 ∷ 0x00 ∷ 0x00 ∷ [])
    ∷ (14, 0x10 ∷ 0x05 ∷ 0x02 ∷ 0x1c ∷ 0x01 ∷ 0x00 ∷ 0x00 ∷ [])
    ∷ (12, 0x10 ∷ 0x05 ∷ 0x02 ∷ 0x1c ∷ 0x02 ∷ 0x00 ∷ 0x00 ∷ [])
    ∷ (62, 0x10 ∷ 0x05 ∷ 0x02 ∷ 0x1c ∷ 0x00 ∷ 0x00 ∷ 0x00 ∷ [])
    ∷ (14, 0x10 ∷ 0x05 ∷ 0x02 ∷ 0x1c ∷ 0x01 ∷ 0x00 ∷ 0x00 ∷ [])
    ∷ (12, 0x10 ∷ 0x05 ∷ 0x02 ∷ 0x1c ∷ 0x02 ∷ 0x00 ∷ 0x00 ∷ [])
    ∷ (63, 0x10 ∷ 0x05 ∷ 0x02 ∷ 0x1c ∷ 0x00 ∷ 0x00 ∷ 0x00 ∷ [])
    ∷ (13, 0x10 ∷ 0x05 ∷ 0x02 ∷ 0x1c ∷ 0x01 ∷ 0x00 ∷ 0x00 ∷ [])
    ∷ (12, 0x10 ∷ 0x05 ∷ 0x02 ∷ 0x1c ∷ 0x02 ∷ 0x00 ∷ 0x00 ∷ [])
    ∷ (63, 0x10 ∷ 0x05 ∷ 0x02 ∷ 0x1c ∷ 0x00 ∷ 0x00 ∷ 0x00 ∷ [])
    ∷ (13, 0x10 ∷ 0x05 ∷ 0x02 ∷ 0x1c ∷ 0x01 ∷ 0x00 ∷ 0x00 ∷ [])
    ∷ (12, 0x10 ∷ 0x05 ∷ 0x02 ∷ 0x1c ∷ 0x02 ∷ 0x00 ∷ 0x00 ∷ [])
    ∷ (12, 0x10 ∷ 0x05 ∷ 0x02 ∷ 0x1c ∷ 0x00 ∷ 0x00 ∷ 0x00 ∷ [])
    ∷ (12, 0x10 ∷ 0x05 ∷ 0x02 ∷ 0x1c ∷ 0x01 ∷ 0x00 ∷ 0x00 ∷ [])
    ∷ (12, 0x10 ∷ 0x05 ∷ 0x02 ∷ 0x1c ∷ 0x02 ∷ 0x00 ∷ 0x00 ∷ [])
    ∷ (12, 0x10 ∷ 0x05 ∷ 0x02 ∷ 0x2c ∷ 0x00 ∷ 0x00 ∷ 0x00 ∷ [])
    ∷ (12, 0x10 ∷ 0x05 ∷ 0x02 ∷ 0x0c ∷ 0x00 ∷ 0x00 ∷ 0x00 ∷ [])
    ∷ (12, 0x10 ∷ 0x05 ∷ 0x02 ∷ 0x1c ∷ 0x00 ∷ 0x00 ∷ 0x00 ∷ [])
    ∷ (12, 0x10 ∷ 0x05 ∷ 0x02 ∷ 0x1c ∷ 0x00 ∷ 0x00 ∷ 0x00 ∷ [])
    ∷ (12, 0x10 ∷ 0x05 ∷ 0x02 ∷ 0x1c ∷ 0x00 ∷ 0x00 ∷ 0x00 ∷ [])
    ∷ (12, 0x10 ∷ 0x05 ∷ 0x02 ∷ 0x1c ∷ 0x01 ∷ 0x00 ∷ 0x00 ∷ [])
    ∷ (12, 0x10 ∷ 0x05 ∷ 0x02 ∷ 0x1c ∷ 0x01 ∷ 0x00 ∷ 0x00 ∷ [])
    ∷ (12, 0x10 ∷ 0x05 ∷ 0x02 ∷ 0x1c ∷ 0x01 ∷ 0x00 ∷ 0x00 ∷ [])
    ∷ (12, 0x10 ∷ 0x05 ∷ 0x02 ∷ 0x1c ∷ 0x02 ∷ 0x00 ∷ 0x00 ∷ [])
    ∷ (12, 0x10 ∷ 0x05 ∷ 0x02 ∷ 0x1c ∷ 0x02 ∷ 0x00 ∷ 0x00 ∷ [])
    ∷ (12, 0x10 ∷ 0x05 ∷ 0x02 ∷ 0x1c ∷ 0x02 ∷ 0x00 ∷ 0x00 ∷ [])
    ∷ (12, 0x10 ∷ 0x05 ∷ 0x02 ∷ 0x1c ∷ 0x00 ∷ 0x00 ∷ 0x00 ∷ [])
    ∷ (12, 0x10 ∷ 0x05 ∷ 0x02 ∷ 0x1c ∷ 0x01 ∷ 0x00 ∷ 0x00 ∷ [])
    ∷ (12, 0x10 ∷ 0x05 ∷ 0x02 ∷ 0x1c ∷ 0x02 ∷ 0x00 ∷ 0x00 ∷ [])
    ∷ (14, 0x10 ∷ 0x05 ∷ 0x03 ∷ 0x0c ∷ 0x00 ∷ 0x00 ∷ 0x00 ∷ [])
    ∷ (14, 0x10 ∷ 0x05 ∷ 0x03 ∷ 0x1c ∷ 0x00 ∷ 0x00 ∷ 0x00 ∷ [])
    ∷ []
