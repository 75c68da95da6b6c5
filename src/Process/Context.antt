-- ===== src/Process/Context.antt =====
-- process/mod.rs: the saved registers of a process, `ProcessContext`, as 20 words of memory. Memory is
-- a function from an address to the 64-bit word there; every address in use is a multiple of 8.
use ruix.Prelude.{
  ℕ, zero, suc, ◌+◌, ◌*◌, ◌≡◌, refl, ◌∙◌, ap, sym, List, [], ◌∷◌, ◌++◌, arith, ◌==◌, if◌then◌else◌,
  length, ◌<◌, ◌≤◌,
}

pub record ProcessContext : Type 0 where
  pub r15 : ℕ
  pub r14 : ℕ
  pub r13 : ℕ
  pub r12 : ℕ
  pub rbp : ℕ
  pub rbx : ℕ
  pub r11 : ℕ
  pub r10 : ℕ
  pub r9 : ℕ
  pub r8 : ℕ
  pub rdi : ℕ
  pub rsi : ℕ
  pub rdx : ℕ
  pub rcx : ℕ
  pub rax : ℕ
  pub rip : ℕ
  pub cs : ℕ
  pub rflags : ℕ
  pub rsp : ℕ
  pub ss : ℕ

abbrev pub Words : Type 0
Words = ℕ → ℕ

abbrev pub write : ℕ → ℕ → Words → Words
write a v mem = λ b. if b == a then v else mem b

-- Words one after the other, from an address upwards.
unfoldable pub store_words : List ℕ → ℕ → Words → Words
store_words [] p mem = mem
store_words (w ∷ ws) p mem = write p w (store_words ws (p + 8) mem)

unfoldable pub load_words : ℕ → ℕ → Words → List ℕ
load_words zero p mem = []
load_words (suc n) p mem = mem p ∷ load_words n (p + 8) mem

-- `repr(C)`: the fields stand in memory in the order of their declaration.
abbrev pub fields : ProcessContext → List ℕ
fields c =
    c.r15 ∷ c.r14 ∷ c.r13 ∷ c.r12 ∷ c.rbp ∷ c.rbx ∷ c.r11 ∷ c.r10 ∷ c.r9 ∷ c.r8 ∷ c.rdi ∷ c.rsi
    ∷ c.rdx ∷ c.rcx ∷ c.rax ∷ c.rip ∷ c.cs ∷ c.rflags ∷ c.rsp ∷ c.ss ∷ []

-- `*context_ptr = …`
unfoldable pub store_context : ℕ → ProcessContext → Words → Words
unfolding store_words
store_context p c mem = store_words (fields c) p mem

-- `*context_ptr`
unfoldable pub load_context : ℕ → Words → ProcessContext
load_context p mem = record {
  r15 = mem p;
  r14 = mem (p + 8);
  r13 = mem (p + 16);
  r12 = mem (p + 24);
  rbp = mem (p + 32);
  rbx = mem (p + 40);
  r11 = mem (p + 48);
  r10 = mem (p + 56);
  r9 = mem (p + 64);
  r8 = mem (p + 72);
  rdi = mem (p + 80);
  rsi = mem (p + 88);
  rdx = mem (p + 96);
  rcx = mem (p + 104);
  rax = mem (p + 112);
  rip = mem (p + 120);
  cs = mem (p + 128);
  rflags = mem (p + 136);
  rsp = mem (p + 144);
  ss = mem (p + 152);
}

pub store_words-below :
    (ws : List ℕ) (p : ℕ) (mem : Words) (a : ℕ) → a < p → store_words ws p mem a ≡ mem a
unfolding store_words
store_words-below [] p mem a h = refl
store_words-below (w ∷ ws) p mem a h = ground (arith, store_words-below ws (p + 8) mem a)

load_words-write :
    (n p q v : ℕ) (mem : Words) → q < p → load_words n p (write q v mem) ≡ load_words n p mem
unfolding load_words
load_words-write zero p q v mem h = refl
load_words-write (suc n) p q v mem h = ground (arith, load_words-write n (p + 8) q v mem)

load_words-store_words :
    (ws : List ℕ) (p : ℕ) (mem : Words) → load_words (length ws) p (store_words ws p mem) ≡ ws
unfolding load_words store_words
load_words-store_words [] p mem = refl
load_words-store_words (w ∷ ws) p mem = ground (
  arith,
  load_words-write (length ws) (p + 8) p w (store_words ws (p + 8) mem),
  load_words-store_words ws (p + 8) mem,
)

pub fields-load_context : (p : ℕ) (mem : Words) → fields (load_context p mem) ≡ load_words 20 p mem
unfolding load_context load_words
fields-load_context p mem = ground arith

pub fields_inj : (c d : ProcessContext) → fields c ≡ fields d → c ≡ d
fields_inj c d e = ground arith

pub load_context-store_context :
    (p : ℕ) (c : ProcessContext) (mem : Words) → load_context p (store_context p c mem) ≡ c
unfolding store_context
load_context-store_context p c mem =
    fields_inj (load_context p (store_context p c mem)) c
      (fields-load_context p (store_context p c mem) ∙ load_words-store_words (fields c) p mem)

length-cons : (w : ℕ) (ws : List ℕ) (k : ℕ) → length (w ∷ ws) + k ≡ suc (length ws + k)
length-cons w ws k = omega arith

pub load_words-above :
    (ws : List ℕ) (k p : ℕ) (mem : Words)
    → load_words (length ws + k) p (store_words ws p mem)
      ≡ ws ++ load_words k (p + 8 * length ws) mem
unfolding load_words store_words
load_words-above [] k p mem = ground arith
load_words-above (w ∷ ws) k p mem =
    ap (λ n. load_words n p (store_words (w ∷ ws) p mem)) (length-cons w ws k)
    ∙ ground (
      arith,
      load_words-write (length ws + k) (p + 8) p w (store_words ws (p + 8) mem),
      load_words-above ws k (p + 8) mem,
    )

pub store_words-above :
    (ws : List ℕ) (p : ℕ) (mem : Words) (a : ℕ)
    → p + 8 * length ws ≤ a
    → store_words ws p mem a ≡ mem a
unfolding store_words
store_words-above [] p mem a h = refl
store_words-above (w ∷ ws) p mem a h = ground (arith, store_words-above ws (p + 8) mem a)

cons-cong : {v w : ℕ} {vs ws : List ℕ} → v ≡ w → vs ≡ ws → v ∷ vs ≡ w ∷ ws
cons-cong e es = cc

-- Contexts are equal where the memories agree on their words.
load_words_agree :
    (n p : ℕ) (mem mem' : Words)
    → ((a : ℕ) → p ≤ a → a < p + 8 * n → mem a ≡ mem' a)
    → load_words n p mem ≡ load_words n p mem'
unfolding load_words
load_words_agree zero p mem mem' h = refl
load_words_agree (suc n) p mem mem' h =
    cons-cong (h p (omega arith) (omega arith))
      (load_words_agree n (p + 8) mem mem' (λ a lo hi. h a (omega arith) (omega arith)))

pub load_context_agree :
    (p : ℕ) (mem mem' : Words)
    → ((a : ℕ) → p ≤ a → a < p + 160 → mem a ≡ mem' a)
    → load_context p mem ≡ load_context p mem'
load_context_agree p mem mem' h = fields_inj (load_context p mem) (load_context p mem') (
    fields-load_context p mem ∙ load_words_agree 20 p mem mem' h ∙ sym (fields-load_context p mem'))
