-- ===== src/Screen/Serial.antt =====
-- vga_buffer.rs: what reaches the serial port.
use ruix.Prelude.{
  ℕ, zero, suc, ◌+◌, ◌-◌, ◌≡◌, refl, sym, ap, ◌∙◌, subst, Bool, List, [], ◌∷◌, ◌++◌, if◌then◌else◌,
  arith, ◌≤◌, le→leb, take, length, min, take-append, length-take, length-append, append_assoc,
  append-nil,
}
use ruix.Screen.{BufferWriter, drop, write_str, write_pieces, serial_text}

take_append :
    {A : Type 0} (n : ℕ) (xs ys : List A) → take n (xs ++ ys) ≡ take n xs ++ take (n - length xs) ys
take_append zero xs ys = ground arith
take_append (suc n) [] ys = ground arith
take_append (suc n) (x ∷ xs) ys = ground (arith, take_append n xs ys)

-- How much is taken matters only up to the length.
take_same :
    {A : Type 0} (m n : ℕ) (xs : List A)
    → min m (length xs) ≡ min n (length xs)
    → take m xs ≡ take n xs
take_same zero zero xs h = refl
take_same zero (suc n) [] h = refl
take_same (suc m) zero [] h = refl
take_same (suc m) (suc n) [] h = refl
take_same zero (suc n) (x ∷ xs) h = ground arith
take_same (suc m) zero (x ∷ xs) h = ground arith
take_same (suc m) (suc n) (x ∷ xs) h = ap (λ ys. x ∷ ys) (take_same m n xs (omega (arith, h)))

length-drop : {A : Type 0} (n : ℕ) (xs : List A) → length (drop n xs) ≡ length xs - n
unfolding drop
length-drop zero xs = omega arith
length-drop (suc n) [] = omega arith
length-drop (suc n) (x ∷ xs) = omega (arith, length-drop n xs)

abbrev concat : List (List ℕ) → List ℕ
concat [] = []
concat (s ∷ ss) = s ++ concat ss

-- The first bytes of a text are written, as many as fit.
Written : List ℕ → BufferWriter → Type 0
Written text w =
    (w.pos ≡ min (length text) (length w.bytes)) × (take w.pos w.bytes ≡ take (length w.bytes) text)

-- The buffer after a piece: what was written, the part of the piece that fits, and the rest.
abbrev end_of : List ℕ → BufferWriter → ℕ
end_of s w = min (w.pos + length s) (length w.bytes)

abbrev pieced : List ℕ → BufferWriter → BufferWriter
pieced s w = record {
  bytes = take w.pos w.bytes ++ take (end_of s w - w.pos) s ++ drop (end_of s w) w.bytes;
  pos = end_of s w;
}

write_str_fits :
    (s : List ℕ) (w : BufferWriter) → w.pos ≤ length w.bytes → write_str s w ≡ pieced s w
unfolding write_str
write_str_fits s w h = rw (le→leb w.pos (end_of s w) (omega (arith, h))) refl

length-pieced :
    (s : List ℕ) (w : BufferWriter)
    → w.pos ≤ length w.bytes
    → length (pieced s w).bytes ≡ length w.bytes
length-pieced s w h =
    let a = take w.pos w.bytes in
    let b = take (end_of s w - w.pos) s in
    let c = drop (end_of s w) w.bytes in
    omega (
      arith,
      length-append (a ++ b) c,
      length-append a b,
      length-take w.pos w.bytes,
      length-take (end_of s w - w.pos) s,
      length-drop (end_of s w) w.bytes,
      h,
    )

take-pieced :
    (s : List ℕ) (w : BufferWriter)
    → w.pos ≤ length w.bytes
    → take (end_of s w) (pieced s w).bytes ≡ take w.pos w.bytes ++ take (end_of s w - w.pos) s
take-pieced s w h =
    let a = take w.pos w.bytes in
    let b = take (end_of s w - w.pos) s in
    let c = drop (end_of s w) w.bytes in
    let size : length (a ++ b) ≡ end_of s w = omega (
      arith,
      length-append a b,
      length-take w.pos w.bytes,
      length-take (end_of s w - w.pos) s,
      h,
    ) in
    ap (λ n. take n (a ++ b ++ c)) (sym size) ∙ take-append (a ++ b) c

write_str-Written :
    (text s : List ℕ) (w : BufferWriter)
    → Written text w
    → Written (text ++ s) (write_str s w) × (length (write_str s w).bytes ≡ length w.bytes)
unfolding Written
write_str-Written text s w (at, same) =
    let fits : w.pos ≤ length w.bytes = omega (arith, at) in
    let size = length-pieced s w fits in
    subst (λ v. Written (text ++ s) v × (length v.bytes ≡ length w.bytes))
      (sym (write_str_fits s w fits))
      (
        (
          omega (arith, at, size, length-append text s),
          take-pieced s w fits
              ∙ ap (λ ys. ys ++ take (end_of s w - w.pos) s) same
              ∙ ap (λ ys. take (length w.bytes) text ++ ys)
                  (take_same (end_of s w - w.pos) (length w.bytes - length text) s
                    (omega (arith, at)))
              ∙ sym (take_append (length w.bytes) text s)
              ∙ ap (λ n. take n (text ++ s)) (sym size),
        ),
        size,
      )

write_pieces-Written :
    (text : List ℕ) (ss : List (List ℕ)) (w : BufferWriter)
    → Written text w
    → Written (text ++ concat ss) (write_pieces ss w)
      × (length (write_pieces ss w).bytes ≡ length w.bytes)
unfolding write_pieces
write_pieces-Written text [] w h = (subst (λ t. Written t w) (sym (append-nil text)) h, refl)
write_pieces-Written text (s ∷ ss) w h =
    let (one, size) = write_str-Written text s w h in
    let (all, size2) = write_pieces-Written (text ++ s) ss (write_str s w) one in
    (
      subst (λ t. Written t (write_pieces ss (write_str s w))) (append_assoc text s (concat ss))
          all,
      size2 ∙ size,
    )

take_nil : (n : ℕ) → [] ≡ take {A = ℕ} n []
take_nil zero = refl
take_nil (suc n) = refl

-- Of a text that is printed in pieces, the serial port gets the first bytes, as many as the buffer holds,
-- if they are valid UTF-8, and otherwise the replacement: a text longer than the buffer that is cut
-- within a character is lost as a whole. The buffer is new.
serial_text_lem :
    (is_utf8 : List ℕ → Bool) (invalid bytes : List ℕ) (ss : List (List ℕ))
    → serial_text is_utf8 invalid ss (record { bytes = bytes; pos = 0 }) ≡ (
        if is_utf8 (take (length bytes) (concat ss))
        then take (length bytes) (concat ss)
        else invalid)
unfolding serial_text Written
serial_text_lem is_utf8 invalid bytes ss =
    let start : BufferWriter = record { bytes = bytes; pos = 0 } in
    let ((at, same), size) =
      write_pieces-Written [] ss start (omega arith, take_nil (length bytes)) in
    ap (λ text. if is_utf8 text then text else invalid) (same ∙ ap (λ n. take n (concat ss)) size)
