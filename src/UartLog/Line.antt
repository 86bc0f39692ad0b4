-- ===== src/UartLog/Line.antt =====
-- `LineBuf` of src/uart_log.rs: a line of bounded length.
use mathlib.Core.List.{append_assoc, append-nil}
use rp_wheel_bridge.Base.{
  ℕ, ◌+◌, ◌-◌, ◌≤◌, ◌≡◌, sym, ap, ◌∙◌, List, [], ◌∷◌, ◌++◌, length, min, take, replicate, copy_at,
  arith, length-copy_at, length-take, take-copy_end, take-min, take_two, length-append,
  length-replicate, take_all,
}

abbrev pub eol : List ℕ
eol = 13 ∷ 10 ∷ []

pub record LineBuf : Type 0 where
  pub buf : List ℕ
  pub len : ℕ

-- The size `N` is the first argument.
unfoldable pub new : ℕ → LineBuf
new size = record { buf = replicate size 0; len = 0 }

unfoldable pub end_line : LineBuf → LineBuf
end_line l = record { buf = copy_at l.buf l.len eol; len = l.len + length eol }

unfoldable pub bytes : LineBuf → List ℕ
bytes l = take l.len l.buf

-- `write_str`: as much of the text as there is room for.
unfoldable pub write_str : ℕ → List ℕ → LineBuf → LineBuf
write_str size text l =
    let room = size - length eol - l.len in
    let n = min (length text) room in
    record { buf = copy_at l.buf l.len (take n text); len = l.len + n }

-- `write!`: `core::fmt` writes the pieces of the formatted text one after the other.
unfoldable pub write_all : ℕ → List (List ℕ) → LineBuf → LineBuf
unfolding write_str
write_all size [] l = l
write_all size (text ∷ texts) l = write_all size texts (write_str size text l)

unfoldable pub concat : List (List ℕ) → List ℕ
concat [] = []
concat (text ∷ texts) = text ++ concat texts

-- There is room for the line ending.
record IsOpen (size : ℕ) (l : LineBuf) : Type 0 where
  whole : length l.buf ≡ size
  room : l.len + 2 ≤ size

write_str_lem :
    (size : ℕ) (text : List ℕ) (l : LineBuf)
    → IsOpen size l
    → IsOpen size (write_str size text l)
      × (bytes (write_str size text l) ≡ bytes l ++ take (size - 2 - l.len) text)
unfolding write_str bytes
write_str_lem size text l o =
    let n = min (length text) (size - 2 - l.len) in
    let len : length (take n text) ≡ n = omega (arith, length-take n text) in
    (
      record {
        whole = length-copy_at l.buf l.len (take n text) ∙ o.whole;
        room = omega (arith, o.room);
      },
      take-copy_end l.buf l.len (take n text) (l.len + n) (omega (arith, len))
            (omega (arith, o.room, o.whole))
          ∙ ap (λ t. take l.len l.buf ++ t) (take-min (size - 2 - l.len) text),
    )

len-write_str :
    (size : ℕ) (text : List ℕ) (l : LineBuf)
    → size - 2 - (write_str size text l).len ≡ size - 2 - l.len - length text
unfolding write_str
len-write_str size text l = omega arith

write_all_lem :
    (size : ℕ) (texts : List (List ℕ)) (l : LineBuf)
    → IsOpen size l
    → IsOpen size (write_all size texts l)
      × (bytes (write_all size texts l) ≡ bytes l ++ take (size - 2 - l.len) (concat texts))
unfolding write_all concat
write_all_lem size [] l o = (
  o,
  sym (append-nil (bytes l))
      ∙ ap (λ t. bytes l ++ t) (sym (take_all (size - 2 - l.len) [] (omega arith))),
)
write_all_lem size (text ∷ texts) l o =
    let (kept, first) = write_str_lem size text l o in
    let (end, more) = write_all_lem size texts (write_str size text l) kept in
    (end, more ∙ joined first)
  where
    joined :
        bytes (write_str size text l) ≡ bytes l ++ take (size - 2 - l.len) text
        → bytes (write_str size text l)
            ++ take (size - 2 - (write_str size text l).len) (concat texts)
          ≡ bytes l ++ take (size - 2 - l.len) (text ++ concat texts)
    joined first =
        rw (first, len-write_str size text l)
          (append_assoc (bytes l) (take (size - 2 - l.len) text)
              (take (size - 2 - l.len - length text) (concat texts))
            ∙ ap (λ t. bytes l ++ t) (sym (take_two (size - 2 - l.len) text (concat texts))))

-- A line as it is sent: the text, cut to the size less two, and the line ending.
unfoldable pub line_of : ℕ → List (List ℕ) → List ℕ
line_of size texts = take (size - 2) (concat texts) ++ eol

-- Whatever pieces are written, the line is the text, cut off where the size leaves room for the
-- line ending alone, and the line ending; its length is the number of its bytes.
pub end_line_lem :
    (size : ℕ) (texts : List (List ℕ))
    → 2 ≤ size
    → let l = end_line (write_all size texts (new size)) in
      (bytes l ≡ line_of size texts) × (l.len ≡ length (line_of size texts)) × (l.len ≤ size)
unfolding end_line bytes new line_of
end_line_lem size texts h =
    let (o, e) =
      write_all_lem size texts (new size)
        (record { whole = length-replicate size 0; room = omega arith }) in
    let l = write_all size texts (new size) in
    let all : bytes (end_line l) ≡ bytes l ++ eol =
      take-copy_end l.buf l.len eol (l.len + 2) (omega arith) (omega (arith, o.room, o.whole)) in
    let count : length (bytes l) ≡ l.len =
      omega (arith, length-take l.len l.buf, o.room, o.whole) in
    let none_off : size - 2 - 0 ≡ size - 2 = omega arith in
    let text : bytes l ≡ take (size - 2) (concat texts) =
      e ∙ ap (λ k. take k (concat texts)) none_off in
    (
      all ∙ ap (λ t. t ++ eol) text,
      omega (arith, length-append (take (size - 2) (concat texts)) eol, ap length text, count),
      o.room,
    )
