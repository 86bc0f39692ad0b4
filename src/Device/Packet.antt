-- ===== src/Device/Packet.antt =====
-- `Packet` of src/device.rs: one interrupt report in flight between the cores.
use rp_wheel_bridge.Base.{
  ℕ, ◌≤◌, ◌≡◌, sym, ◌∙◌, ap, List, length, min, take, replicate, copy_at, u8, arith, length-take,
  take-copy_at, take-min,
}

abbrev pub max_packet : ℕ
max_packet = 64

pub record Packet : Type 0 where
  pub len : ℕ
  pub buf : List ℕ

-- `Packet::new`
unfoldable pub new : List ℕ → Packet
new bytes_in =
    let n = min (length bytes_in) max_packet in
    record { len = u8 n; buf = copy_at (replicate max_packet 0) 0 (take n bytes_in) }

unfoldable pub bytes : Packet → List ℕ
bytes p = take p.len p.buf

-- The two buffers below are read to the length that is copied into them.
u8_lem : (n : ℕ) → u8 (min n max_packet) ≡ min n max_packet
u8_lem n = omega arith

-- A packet holds the first 64 bytes of what it was made from: nothing is lost of a report that
-- fits an endpoint, and a longer one is cut.
pub bytes-new : (xs : List ℕ) → bytes (new xs) ≡ take max_packet xs
unfolding bytes new
bytes-new xs = rw (u8_lem (length xs)) (
    ap (λ k. take k (copy_at (replicate max_packet 0) 0 src)) (sym len)
    ∙ take-copy_at (replicate max_packet 0) src (omega (arith, len))
    ∙ take-min max_packet xs)
  where
    src : List ℕ
    src = take (min (length xs) max_packet) xs

    len : length src ≡ min (length xs) max_packet
    len = omega (arith, length-take (min (length xs) max_packet) xs)

pub length-bytes-new : (xs : List ℕ) → length (bytes (new xs)) ≤ max_packet
length-bytes-new xs = rw (bytes-new xs) (omega (arith, length-take max_packet xs))
