-- ===== src/Ipc/Message.antt =====
-- ipc.rs: a message carries at most 256 bytes, in an array of that length.
use ruix.Prelude.{
  ℕ, zero, suc, ◌-◌, ◌≡◌, ◌∙◌, List, [], ◌∷◌, ◌++◌, arith, length, take, replicate, min,
  length-append, length-take, length-replicate, take-append, subst, ap,
}

pub record Message : Type 0 where
  pub sender_pid : ℕ
  pub msg_type : ℕ
  pub bytes : List ℕ
  pub data_len : ℕ

abbrev capacity : ℕ
capacity = 256

-- `Message::new`: the array is zeroed, and its first bytes are those of the slice.
unfoldable pub new : ℕ → ℕ → List ℕ → Message
new sender_pid msg_type slice =
    let len = min (length slice) capacity in
    record {
      sender_pid = sender_pid;
      msg_type = msg_type;
      bytes = take len slice ++ replicate (capacity - len) 0;
      data_len = len;
    }

-- `Message::data`
unfoldable payload : Message → List ℕ
payload m = take m.data_len m.bytes

length-take-min : (n : ℕ) (bs : List ℕ) → length (take (min (length bs) n) bs) ≡ min (length bs) n
length-take-min n bs = omega (arith, length-take (min (length bs) n) bs)

take-min : (n : ℕ) (bs : List ℕ) → take (min (length bs) n) bs ≡ take n bs
take-min zero bs =
    let none_left : min (length bs) 0 ≡ 0 = omega arith in ap (λ k. take k bs) none_left
take-min (suc n) [] = let none_left : min 0 (suc n) ≡ 0 = omega arith in rw none_left
take-min (suc n) (b ∷ bs) =
    let less : min (suc (length bs)) (suc n) ≡ suc (min (length bs) n) = omega arith in
    ap (λ k. take k (b ∷ bs)) less ∙ ap (◌∷◌ b) (take-min n bs)

take_prefix :
    (k : ℕ) (bs rest : List ℕ) → length (take k bs) ≡ k → take k (take k bs ++ rest) ≡ take k bs
take_prefix k bs rest h =
    subst (λ n. take n (take k bs ++ rest) ≡ take k bs) h (take-append (take k bs) rest)

-- The receiver reads the first 256 bytes that the sender gave, and the array always has 256 bytes.
payload-new :
    (sender_pid msg_type : ℕ) (slice : List ℕ)
    → let m = new sender_pid msg_type slice in (payload m ≡ take 256 slice) × (length m.bytes ≡ 256)
unfolding payload new
payload-new sender_pid msg_type slice = (first, whole)
  where
    k : ℕ
    k = min (length slice) 256

    padding : List ℕ
    padding = replicate (256 - k) 0

    first : take k (take k slice ++ padding) ≡ take 256 slice
    first = take_prefix k slice padding (length-take-min 256 slice) ∙ take-min 256 slice

    whole : length (take k slice ++ padding) ≡ 256
    whole = omega (
      arith,
      length-append (take k slice) padding,
      length-take-min 256 slice,
      length-replicate {A = ℕ} (256 - k) 0,
    )
