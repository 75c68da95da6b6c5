-- ===== src/Screen.antt =====
-- vga_buffer.rs: the text screen, 25 rows of 80 columns, and the buffer for the serial port. The screen's
-- memory is a function of row and column. `none` is a panic on an index out of range.
pub mod Scrolling
pub mod Serial
use mathlib.Core.Option
use ruix.Prelude.{
  ℕ, zero, suc, ◌+◌, ◌-◌, ◌*◌, Bool, true, false, ◌&&◌, ◌||◌, Option, none, some, List, [], ◌∷◌,
  ◌++◌, ltb, leb, if◌then◌else◌, ◌==◌, ◌>>=◌, take, length, min,
}

pub data Color : Type 0 where
  black blue green cyan red magenta brown light_gray : Color
  dark_gray light_blue light_green light_cyan light_red light_magenta yellow white : Color

abbrev color_number : Color → ℕ
color_number black = 0
color_number blue = 1
color_number green = 2
color_number cyan = 3
color_number red = 4
color_number magenta = 5
color_number brown = 6
color_number light_gray = 7
color_number dark_gray = 8
color_number light_blue = 9
color_number light_green = 10
color_number light_cyan = 11
color_number light_red = 12
color_number light_magenta = 13
color_number yellow = 14
color_number white = 15

-- `background << 4 | foreground`, whose bits do not overlap.
unfoldable new_color_code : Color → Color → ℕ
new_color_code foreground background = color_number background * 16 + color_number foreground

pub record ScreenChar : Type 0 where
  pub ascii_character : ℕ
  pub color_code : ℕ

abbrev buffer_height : ℕ
buffer_height = 25

abbrev buffer_width : ℕ
buffer_width = 80

abbrev pub Buffer : Type 0
Buffer = ℕ → ℕ → ScreenChar

abbrev pub put : ℕ → ℕ → ScreenChar → Buffer → Buffer
put row col ch buffer = λ r c. if r == row && c == col then ch else buffer r c

pub record Writer : Type 0 where
  pub column_position : ℕ
  pub color_code : ℕ
  pub buffer : Buffer

-- The loop over the columns from `col` on, `n` of them.
unfoldable pub copy_row : ℕ → ℕ → ℕ → Buffer → Buffer
copy_row zero col row buffer = buffer
copy_row (suc n) col row buffer =
    copy_row n (suc col) row (put (row - 1) col (buffer row col) buffer)

-- The loop over the rows from `row` on, `n` of them.
unfoldable pub copy_rows : ℕ → ℕ → Buffer → Buffer
copy_rows zero row buffer = buffer
copy_rows (suc n) row buffer = copy_rows n (suc row) (copy_row buffer_width 0 row buffer)

unfoldable pub blank_row : ℕ → ℕ → ℕ → ScreenChar → Buffer → Buffer
blank_row zero col row blank buffer = buffer
blank_row (suc n) col row blank buffer = blank_row n (suc col) row blank (put row col blank buffer)

abbrev pub blank_of : Writer → ScreenChar
blank_of w = record { ascii_character = 32; color_code = w.color_code }

unfoldable pub clear_row : ℕ → Writer → Writer
clear_row row w = record w { buffer = blank_row buffer_width 0 row (blank_of w) w.buffer }

unfoldable pub new_line : Writer → Writer
new_line w =
    let copied = record w { buffer = copy_rows (buffer_height - 1) 1 w.buffer } in
    record (clear_row (buffer_height - 1) copied) { column_position = 0 }

-- The character in the last row.
abbrev put_byte : ℕ → Writer → Option Writer
put_byte byte w =
    if ltb w.column_position buffer_width
    then some (record w {
      buffer =
          put (buffer_height - 1) w.column_position
            (record { ascii_character = byte; color_code = w.color_code }) w.buffer;
      column_position = w.column_position + 1;
    })
    else none

unfoldable pub write_byte : ℕ → Writer → Option Writer
write_byte byte w =
    if byte == 10
    then some (new_line w)
    else put_byte byte (if leb buffer_width w.column_position then new_line w else w)

-- The bytes that `write_string` passes on as they are.
abbrev pub printable : ℕ → Bool
printable byte = leb 32 byte && leb byte 126 || byte == 10

unfoldable pub write_string : List ℕ → Writer → Option Writer
write_string [] w = some w
write_string (byte ∷ bytes) w = do
  written ← write_byte (if printable byte then byte else 254) w
  write_string bytes written

-- `BufferWriter`: the whole buffer, and how much of it is written.
pub record BufferWriter : Type 0 where
  pub bytes : List ℕ
  pub pos : ℕ

unfoldable pub drop {ℓ} : {A : Type ℓ} → ℕ → List A → List A
drop zero xs = xs
drop (suc n) [] = []
drop (suc n) (x ∷ xs) = drop n xs

-- `get_mut(pos..end)` finds the slice if it lies in the buffer.
unfoldable pub write_str : List ℕ → BufferWriter → BufferWriter
write_str s w =
    let end = min (w.pos + length s) (length w.bytes) in
    if leb w.pos end
    then record {
      bytes = take w.pos w.bytes ++ take (end - w.pos) s ++ drop end w.bytes;
      pos = end;
    }
    else w

-- The pieces that the formatting machinery passes on, one after the other.
unfoldable pub write_pieces : List (List ℕ) → BufferWriter → BufferWriter
write_pieces [] w = w
write_pieces (s ∷ ss) w = write_pieces ss (write_str s w)

-- The text for the serial port: the written part if the library's `from_utf8` accepts it.
unfoldable pub serial_text : (List ℕ → Bool) → List ℕ → List (List ℕ) → BufferWriter → List ℕ
serial_text is_utf8 invalid ss w =
    let written = write_pieces ss w in
    let text = take written.pos written.bytes in if is_utf8 text then text else invalid
