-- ===== src/UsbHost/Strings.antt =====
-- The string descriptors of src/usb_host.rs: `get_string` and `log_strings`. An index out of range
-- panics; how UTF-16 is shown is left to the standard library.
use mathlib.Core.Option
use rp_wheel_bridge.Base.{
  ℕ, ◌-◌, ◌%◌, min, List, [], ◌∷◌, Option, none, some, Bool, not, ◌&&◌, ◌||◌, ◌==◌, ltb, leb,
  if◌then◌else◌, get_or, slice, length, replicate, u16, le16, Result, ok, err,
}
use rp_wheel_bridge.Platform.Usb.{Host, Setup, PipeError}

abbrev pub string_buf_len : ℕ
string_buf_len = 255

abbrev pub langid_en_us : ℕ
langid_en_us = 0x0409

abbrev pub desc_type_string : ℕ
desc_type_string = 0x03

-- embassy-usb-host's `DeviceDescriptor`, as far as this file reads it.
pub record DeviceDescriptor : Type 0 where
  pub vendor_id : ℕ
  pub product_id : ℕ
  pub device_class : ℕ
  pub manufacturer : ℕ
  pub product : ℕ
  pub serial_number : ℕ

-- `n & !1`
abbrev pub even_part : ℕ → ℕ
even_part n = n - n % 2

-- What `get_string` makes of the transfer.
unfoldable pub string_len : Result ℕ PipeError → List ℕ → Option ℕ
string_len (err e) buf = none
string_len (ok n) buf =
    if ltb n 2 || not (get_or buf 1 0 == desc_type_string)
    then none
    else some (even_part (min (get_or buf 0 0) n))

pub data Label : Type 0 where
  manufacturer product serial : Label

-- A string that is logged: the bytes behind its header, or that it is unreadable.
abbrev pub Line : Type 0
Line = Label × Option (List ℕ)

-- `&buf[2..n]`; `none`: the slice is out of range, and the code panics.
unfoldable pub payload : List ℕ → ℕ → Option (List ℕ)
payload buf n = if leb 2 n && leb n (length buf) then some (slice buf 2 n) else none

unfoldable pub line_of : Label → Option ℕ → List ℕ → Option Line
unfolding payload
line_of label none buf = some (label, none)
line_of label (some n) buf = Option.map (λ bytes. (label, some bytes)) (payload buf n)

-- A line before those of the rest of the loop.
unfoldable pub then_line :
    {World : Type 0} → Option Line → World → Option (List Line) × World → Option (List Line) × World
then_line none v rest = (none, v)
then_line (some l) v rest = (Option.map (λ ls. l ∷ ls) rest.0, rest.1)

-- The LANGID to ask for, from what was read of string 0.
unfoldable pub langid : Option ℕ → List ℕ → ℕ
langid none buf = langid_en_us
langid (some n) buf = if leb 4 n then le16 (get_or buf 2 0) (get_or buf 3 0) else langid_en_us

module _ (host : Host) where
  open host use {World, control_in}

  -- The length of the string, the buffer and the world.
  unfoldable pub get_string : ℕ → ℕ → List ℕ → World → Option ℕ × List ℕ × World
  unfolding string_len
  get_string index lang buf w =
      let setup = Setup.get_descriptor desc_type_string index lang (u16 (length buf)) in
      let r = control_in setup buf w in (string_len r.result r.buf, r.buf, r.world)

  -- The loop over the three strings; `none`: it panics.
  unfoldable pub log_each : List (Label × ℕ) → ℕ → List ℕ → World → Option (List Line) × World
  unfolding get_string line_of then_line
  log_each [] lang buf w = (some [], w)
  log_each ((label, index) ∷ strings) lang buf w =
      let (n, b, v) = get_string index lang buf w in
      let rest = log_each strings lang b v in
      let skipped = log_each strings lang buf w in
      if index == 0 then skipped else then_line (line_of label n b) v rest

  -- `is_open`: EP0 could be opened.
  unfoldable pub log_strings : Bool → DeviceDescriptor → World → Option (List Line) × World
  unfolding get_string log_each langid
  log_strings is_open d w =
      let (n, buf, v) = get_string 0 0 (replicate string_buf_len 0) w in
      let strings =
        (manufacturer, d.manufacturer) ∷ (product, d.product) ∷ (serial, d.serial_number) ∷ [] in
      let logged = log_each strings (langid n buf) buf v in
      if d.manufacturer == 0 && (d.product == 0) && (d.serial_number == 0)
      then (some [], w)
      else if is_open
      then logged
      else (some [], w)
