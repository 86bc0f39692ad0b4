-- ===== src/UsbHost/StringsSafe.antt =====
-- When `log_strings` of src/usb_host.rs stays within its buffer.
use rp_wheel_bridge.Base.{
  ℕ, ◌≢◌, ◌≤◌, ◌<◌, ◌≡◌, refl, ◌∙◌, min, List, [], ◌∷◌, Option, none, some, Bool, true, false, not,
  ◌&&◌, ◌||◌, ◌==◌, ltb, leb, if_intro, get_or, get_or-All, length, length-replicate, replicate,
  All-replicate, u16, Result, ok, err, is_some, arith, IsByte, AllBytes, Option-cases, inl, inr,
}
use rp_wheel_bridge.Platform.Usb.{Host, Setup, Received, PipeError}
use rp_wheel_bridge.UsbHost.Strings.{
  string_buf_len, desc_type_string, DeviceDescriptor, even_part, string_len, Label, manufacturer,
  product, serial, Line, payload, line_of, then_line, langid, get_string, log_each, log_strings,
}

-- A string descriptor that is read has a bLength which counts its own two bytes.
abbrev pub HasHeader : {World : Type 0} → Received World → Type 0
HasHeader r = (n : ℕ) → r.result ≡ ok n → get_or r.buf 1 0 ≡ desc_type_string → 2 ≤ get_or r.buf 0 0

-- What `get_string` gives: an even length, at most what was received and what the descriptor says.
string_len_lem :
    (r : Result ℕ PipeError) (buf : List ℕ) (k : ℕ)
    → string_len r buf ≡ some k
    → (n : ℕ) × (r ≡ ok n)
      × (get_or buf 1 0 ≡ desc_type_string)
      × (2 ≤ n)
      × (k ≡ even_part (min (get_or buf 0 0) n))
unfolding string_len
string_len_lem (err e) buf k h = absurd cc
string_len_lem (ok n) buf k h = (n, refl, ground arith, ground arith, ground arith)

-- A descriptor whose bLength is 0 or 1 makes the slice go out of range.
line_of-none :
    {World : Type 0} (label : Label) (r : Received World) (n : ℕ)
    → r.result ≡ ok n
    → 2 ≤ n
    → get_or r.buf 1 0 ≡ desc_type_string
    → get_or r.buf 0 0 < 2
    → line_of label (string_len r.result r.buf) r.buf ≡ none
unfolding line_of string_len payload
line_of-none label r n got two type short =
    let read : (ltb n 2 || not (get_or r.buf 1 0 == desc_type_string)) ≡ false = ground arith in
    let k = even_part (min (get_or r.buf 0 0) n) in
    let out : (leb 2 k && leb k (length r.buf)) ≡ false = ground arith in rw (got, read, out) refl

-- The buffer keeps its length and holds bytes.
abbrev pub IsBuffer : List ℕ → Type 0
IsBuffer buf = (length buf ≡ string_buf_len) × AllBytes buf

-- A length that was read of a descriptor with a header leaves room for the slice.
line_of-is_some :
    {World : Type 0} (label : Label) (r : Received World)
    → HasHeader r
    → IsBuffer r.buf
    → is_some (line_of label (string_len r.result r.buf) r.buf) ≡ true
unfolding line_of payload
line_of-is_some label r h (len, bytes) = elim (Option-cases (string_len r.result r.buf)) [
  | inl unread ↦ rw unread refl
  | inr (k, read) ↦
      let (n, got, type, two, e) = string_len_lem r.result r.buf k read in
      let first : get_or r.buf 0 0 < 256 = get_or-All IsByte r.buf 0 0 (omega arith) bytes in
      let least : 2 ≤ get_or r.buf 0 0 = h n got type in
      let room : (leb 2 k && leb k (length r.buf)) ≡ true =
        ground (arith, two, e, first, least, len) in
      rw (read, room) refl
]

then_line-is_some :
    {World : Type 0} (o : Option Line) (v : World) (rest : Option (List Line) × World)
    → is_some o ≡ true
    → is_some rest.0 ≡ true
    → is_some (then_line o v rest).0 ≡ true
unfolding then_line
then_line-is_some none v rest h k = absurd cc
then_line-is_some (some l) v (none, x) h k = absurd cc
then_line-is_some (some l) v (some ls, x) h k = refl

module _ (host : Host) where
  open host use {World, control_in}

  control_in-IsBuffer :
      (s : Setup) (buf : List ℕ) (w : World) → IsBuffer buf → IsBuffer (control_in s buf w).buf
  control_in-IsBuffer s buf w (len, bytes) =
      (host.in_length s buf w ∙ len, host.in_bytes s buf w bytes)

  -- Whatever is read of the device has its header.
  abbrev pub HasHeaders : Type 0
  HasHeaders = (s : Setup) (buf : List ℕ) (w : World) → HasHeader (control_in s buf w)

  log_each-is_some :
      (strings : List (Label × ℕ)) (lang : ℕ) (buf : List ℕ) (w : World)
      → HasHeaders
      → IsBuffer buf
      → is_some (log_each host strings lang buf w).0 ≡ true
  unfolding log_each get_string
  log_each-is_some [] lang buf w h b = refl
  log_each-is_some ((label, index) ∷ strings) lang buf w h b =
      let setup = Setup.get_descriptor desc_type_string index lang (u16 (length buf)) in
      let r = control_in setup buf w in
      let kept = control_in-IsBuffer setup buf w b in
      let fine = line_of-is_some label r (h setup buf w) kept in
      let later = log_each-is_some strings lang r.buf r.world h kept in
      let skip = log_each-is_some strings lang buf w h b in
      if_intro (λ (m : Option (List Line) × World). is_some m.0 ≡ true) (index == 0) _ _
        (λ none_there. skip)
        (λ there.
          then_line-is_some (line_of label (string_len r.result r.buf) r.buf) r.world
            (log_each host strings lang r.buf r.world) fine later)

  abbrev empty : List ℕ
  empty = replicate string_buf_len 0

  empty-IsBuffer : IsBuffer (replicate string_buf_len 0)
  empty-IsBuffer = (
    length-replicate {A = ℕ} string_buf_len 0,
    All-replicate IsByte string_buf_len 0 (omega arith),
  )

  -- Reading the strings of a device for the log never slices out of range, as long as each string
  -- descriptor that the device gives has a bLength of at least 2.
  pub log_strings-is_some :
      (is_open : Bool) (d : DeviceDescriptor) (w : World)
      → HasHeaders
      → is_some (log_strings host is_open d w).0 ≡ true
  unfolding log_strings get_string
  log_strings-is_some is_open d w h =
      let setup = Setup.get_descriptor desc_type_string 0 0 string_buf_len in
      let r = control_in setup (replicate string_buf_len 0) w in
      let P : Option (List Line) × World → Type 0 = λ m. is_some m.0 ≡ true in
      if_intro P (d.manufacturer == 0 && (d.product == 0) && (d.serial_number == 0)) _ _
        (λ without. refl)
        (λ with.
          if_intro P is_open _ _
            (λ opened.
              log_each-is_some
                ((manufacturer, d.manufacturer)
                  ∷ (product, d.product)
                  ∷ (serial, d.serial_number)
                  ∷ [])
                (langid (string_len r.result r.buf) r.buf) r.buf r.world h
                (control_in-IsBuffer setup (replicate string_buf_len 0) w empty-IsBuffer))
            (λ closed. refl))

  -- What the device answers for its manufacturer's string, after it was asked for the languages.
  unfoldable pub manufacturer_read : DeviceDescriptor → World → Received World
  unfolding get_string
  manufacturer_read d w =
      let (n, buf, v) = get_string host 0 0 (replicate string_buf_len 0) w in
      control_in
        (Setup.get_descriptor desc_type_string d.manufacturer (langid n buf) (u16 (length buf))) buf
        v

  log_each-none :
      (label : Label) (index : ℕ) (strings : List (Label × ℕ)) (lang : ℕ) (buf : List ℕ) (w : World)
      → index ≢ 0
      → let r =
          control_in (Setup.get_descriptor desc_type_string index lang (u16 (length buf))) buf w in
        line_of label (string_len r.result r.buf) r.buf ≡ none
        → (log_each host ((label, index) ∷ strings) lang buf w).0 ≡ none
  unfolding log_each get_string then_line
  log_each-none label index strings lang buf w named stops =
      if_intro (λ (m : Option (List Line) × World). m.0 ≡ none) (index == 0) _ _
        (λ without. absurd (named (ground arith))) (λ with. rw stops refl)

  -- A device whose manufacturer's string descriptor has a bLength of 0 or 1 stops the bridge: the
  -- slice that logs the string panics.
  pub log_strings-none :
      (d : DeviceDescriptor) (w : World) (n : ℕ)
      → d.manufacturer ≢ 0
      → (manufacturer_read d w).result ≡ ok n
      → 2 ≤ n
      → get_or (manufacturer_read d w).buf 1 0 ≡ desc_type_string
      → get_or (manufacturer_read d w).buf 0 0 < 2
      → (log_strings host true d w).0 ≡ none
  unfolding log_strings log_each get_string manufacturer_read
  log_strings-none d w n named got two type short =
      let r = control_in (Setup.get_descriptor desc_type_string 0 0 string_buf_len) empty w in
      let strings : List (Label × ℕ) = (product, d.product) ∷ (serial, d.serial_number) ∷ [] in
      if_intro (λ (m : Option (List Line) × World). m.0 ≡ none)
        (d.manufacturer == 0 && (d.product == 0) && (d.serial_number == 0)) _ _
        (λ without. absurd (named (ground arith)))
        (λ with.
          log_each-none manufacturer d.manufacturer strings
            (langid (string_len r.result r.buf) r.buf) r.buf r.world named
            (line_of-none manufacturer (manufacturer_read d w) n got two type short))
