-- ===== src/Screen/Scrolling.antt =====
-- vga_buffer.rs: what a new line, a byte and a text do to the screen.
use ruix.Prelude.{
  ℕ, zero, suc, ◌+◌, ◌-◌, ◌≡◌, refl, sym, ap, ◌∙◌, subst, ◌⊎◌, inl, inr, Bool, true, false, ◌&&◌,
  some, List, [], ◌∷◌, ltb, leb, if◌then◌else◌, ◌==◌, arith, ◌<◌, ◌≤◌, Bool-cases, lt→ltb, ◌>>=◌,
}
use ruix.Screen.{
  ScreenChar, Buffer, Writer, put, copy_row, copy_rows, blank_row, blank_of, clear_row, new_line,
  write_byte, printable, write_string,
}

copy_row_cell :
    (n col row : ℕ) (b : Buffer) (r c : ℕ)
    → 0 < row
    → copy_row n col row b r c
      ≡ (if r == row - 1 && leb col c && ltb c (col + n) then b row c else b r c)
unfolding copy_row
copy_row_cell zero col row b r c h = ground arith
copy_row_cell (suc n) col row b r c h =
    ground (arith, copy_row_cell n (suc col) row (put (row - 1) col (b row col) b) r c)

copy_rows_cell :
    (n row : ℕ) (b : Buffer) (r c : ℕ)
    → 0 < row
    → c < 80
    → copy_rows n row b r c
      ≡ (if leb row (r + 1) && ltb (r + 1) (row + n) then b (r + 1) c else b r c)
unfolding copy_rows
copy_rows_cell zero row b r c h w = ground arith
copy_rows_cell (suc n) row b r c h w = ground (
  arith,
  copy_rows_cell n (suc row) (copy_row 80 0 row b) r c,
  copy_row_cell 80 0 row b (r + 1) c,
  copy_row_cell 80 0 row b r c,
)

blank_row_cell :
    (n col row : ℕ) (blank : ScreenChar) (b : Buffer) (r c : ℕ)
    → blank_row n col row blank b r c
      ≡ (if r == row && leb col c && ltb c (col + n) then blank else b r c)
unfolding blank_row
blank_row_cell zero col row blank b r c = ground arith
blank_row_cell (suc n) col row blank b r c =
    ground (arith, blank_row_cell n (suc col) row blank (put row col blank b) r c)

-- The screen one row up, with a last row of blanks.
abbrev scrolled : Writer → Buffer
scrolled w = λ r c. if r == 24 then blank_of w else w.buffer (r + 1) c

-- A new line moves every row of the screen up by one, loses the first, fills the last with blanks in the
-- writer's colour, and goes back to the first column.
new_line_lem :
    (w : Writer) (r c : ℕ)
    → r < 25
    → c < 80
    → ((new_line w).buffer r c ≡ scrolled w r c)
      × ((new_line w).column_position ≡ 0)
      × ((new_line w).color_code ≡ w.color_code)
unfolding new_line clear_row
new_line_lem w r c hr hc = (
  ground (
    arith,
    blank_row_cell 80 0 24 (blank_of w) (copy_rows 24 1 w.buffer) r c,
    copy_rows_cell 24 1 w.buffer r c,
  ),
  refl,
  refl,
)

abbrev char_of : ℕ → Writer → ScreenChar
char_of byte w = record { ascii_character = byte; color_code = w.color_code }

-- The screen after a byte was written.
abbrev shown : ℕ → Writer → Buffer
shown byte w =
    if byte == 10
    then scrolled w
    else if leb 80 w.column_position
    then put 24 0 (char_of byte w) (scrolled w)
    else put 24 w.column_position (char_of byte w) w.buffer

-- The writer after a byte that is not a line feed, with the line that it goes to.
abbrev put_in : ℕ → Writer → Writer
put_in byte w = record w {
  buffer = put 24 w.column_position (char_of byte w) w.buffer;
  column_position = w.column_position + 1;
}

put_cell :
    (byte : ℕ) (w : Writer) (r c : ℕ)
    → r < 25
    → c < 80
    → (put_in byte (new_line w)).buffer r c ≡ put 24 0 (char_of byte w) (scrolled w) r c
unfolding new_line clear_row
put_cell byte w r c hr hc =
    ap (λ x. if r == 24 && c == 0 then char_of byte w else x) (new_line_lem w r c hr hc).0

new_line_column : (w : Writer) → (new_line w).column_position ≡ 0
unfolding new_line
new_line_column w = refl

new_line_color : (w : Writer) → (new_line w).color_code ≡ w.color_code
unfolding new_line clear_row
new_line_color w = refl

-- Writing a byte never leaves the screen: a line feed scrolls; a byte in a full row scrolls and goes to
-- the first column of the last row; any other goes behind the last one, and no other cell changes. The
-- column is at most 80 before and after.
write_byte_lem :
    (byte : ℕ) (w : Writer)
    → w.column_position ≤ 80
    → (v : Writer) × (write_byte byte w ≡ some v)
      × (v.column_position ≤ 80)
      × (v.color_code ≡ w.color_code)
      × ((r c : ℕ) → r < 25 → c < 80 → v.buffer r c ≡ shown byte w r c)
unfolding write_byte
write_byte_lem byte w h = elim (Bool-cases (byte == 10)) [
  | inl e ↦ (
    new_line w,
    rw e refl,
    omega (arith, new_line_column w),
    new_line_color w,
    λ r c hr hc. (new_line_lem w r c hr hc).0 ∙ sym (rw e refl),
  )
  | inr e ↦ elim (Bool-cases (leb 80 w.column_position)) [
    | inl full ↦ (
      put_in byte (new_line w),
      rw (e, full, new_line_column w) refl,
      omega (arith, new_line_column w),
      new_line_color w,
      λ r c hr hc. put_cell byte w r c hr hc ∙ sym (rw (e, full) refl),
    )
    | inr room ↦ (
      put_in byte w,
      rw (e, room, lt→ltb w.column_position 80 (ground arith)) refl,
      ground arith,
      refl,
      λ r c hr hc. sym (rw (e, room) refl),
    )
  ]
]

-- What the screen may show: a printable character or the square that stands for the others.
abbrev Displayable : ℕ → Type 0
Displayable a = ((32 ≤ a) × (a ≤ 126)) ⊎ (a ≡ 254)

abbrev pub Printable : Buffer → Type 0
Printable b = (r c : ℕ) → r < 25 → c < 80 → Displayable (b r c).ascii_character

either_holds :
    (P : ScreenChar → Type 0) (b : Bool) (x y : ScreenChar)
    → (b ≡ true → P x)
    → (b ≡ false → P y)
    → P (if b then x else y)
either_holds P true x y h k = h refl
either_holds P false x y h k = k refl

scrolled-Printable : (w : Writer) → Printable w.buffer → Printable (scrolled w)
scrolled-Printable w p r c hr hc =
    either_holds (λ ch. Displayable ch.ascii_character) (r == 24) (blank_of w) (w.buffer (r + 1) c)
      (λ e. inl (omega arith, omega arith)) (λ e. p (r + 1) c (ground arith) hc)

put-Printable :
    (col : ℕ) (ch : ScreenChar) (b : Buffer)
    → Displayable ch.ascii_character
    → Printable b
    → Printable (put 24 col ch b)
put-Printable col ch b d p r c hr hc =
    either_holds (λ x. Displayable x.ascii_character) (r == 24 && c == col) ch (b r c) (λ e. d)
      (λ e. p r c hr hc)

shown-Printable :
    (byte : ℕ) (w : Writer)
    → (byte ≡ 10) ⊎ Displayable byte
    → Printable w.buffer
    → Printable (shown byte w)
shown-Printable byte w d p = elim (Bool-cases (byte == 10)) [
  | inl e ↦ rw e (scrolled-Printable w p)
  | inr e ↦
      let own : Displayable byte = elim d [ inl ten ↦ ground arith | inr shows ↦ shows ] in
      elim (Bool-cases (leb 80 w.column_position)) [
        | inl full ↦
            rw (e, full)
              (put-Printable 0 (char_of byte w) (scrolled w) own (scrolled-Printable w p))
        | inr room ↦ rw (e, room) (put-Printable w.column_position (char_of byte w) w.buffer own p)
      ]
]

-- The byte that `write_string` writes for a byte.
written-Displayable :
    (byte : ℕ)
    → ((if printable byte then byte else 254) ≡ 10)
      ⊎ Displayable (if printable byte then byte else 254)
written-Displayable byte = elim (Bool-cases (printable byte)) [
  | inl e ↦ rw e (elim (Bool-cases (byte == 10)) [
    | inl ten ↦ inl (ground arith)
    | inr c ↦ inr (inl (ground arith, ground arith))
  ])
  | inr e ↦ rw e (inr (inr refl))
]

-- Writing a text never leaves the screen, and a screen that shows only printable characters and squares
-- still does so after any text, whatever its bytes. The column is at most 80 before and after.
pub write_string_lem :
    (bytes : List ℕ) (w : Writer)
    → w.column_position ≤ 80
    → Printable w.buffer
    → (v : Writer) × (write_string bytes w ≡ some v) × (v.column_position ≤ 80) × Printable v.buffer
unfolding write_string
write_string_lem [] w h p = (w, refl, h, p)
write_string_lem (byte ∷ bytes) w h p =
    let shown_byte = if printable byte then byte else 254 in
    let (next, made, h2, color, cells) = write_byte_lem shown_byte w h in
    let (v, e, h3, p3) = write_string_lem bytes next h2 (λ r c hr hc.
      subst (λ (ch : ScreenChar). Displayable ch.ascii_character) (sym (cells r c hr hc))
        (shown-Printable shown_byte w (written-Displayable byte) p r c hr hc)) in
    (v, ap (λ o. o >>= λ x. write_string bytes x) made ∙ e, h3, p3)
