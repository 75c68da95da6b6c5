-- ===== src/Gdt/Selectors.antt =====
-- gdt.rs: the entries of the descriptor table, in the order in which they are added. The table of the crate
-- `x86_64` is an argument.
use ruix.Prelude.{ℕ, ◌+◌, ◌*◌, ◌%◌, ◌≡◌, ◌/◌}

pub data Descriptor : Type 0 where
  kernel_code_segment kernel_data_segment user_data_segment user_code_segment : Descriptor
  tss_segment : ℕ → Descriptor

-- `GlobalDescriptorTable`: `add_entry` gives the selector of the new entry.
pub record TableOps (T : Type 0) : Type 0 where
  pub new : T
  pub add_entry : Descriptor → T → ℕ × T

-- A selector is eight times the place of its entry and, in the last two bits, a privilege level: zero for
-- the kernel's segments. An entry for a segment takes one place; the first place is left free.
pub record IsTable {T : Type 0} (ops : TableOps T) (places : T → ℕ) : Type 0 where
  pub places-new : places ops.new ≡ 1
  pub selector : (d : Descriptor) (t : T) → (ops.add_entry d t).0 / 4 ≡ 2 * places t
  pub kernel_code : (t : T) → (ops.add_entry kernel_code_segment t).0 % 4 ≡ 0
  pub kernel_data : (t : T) → (ops.add_entry kernel_data_segment t).0 % 4 ≡ 0
  pub places_code : (t : T) → places (ops.add_entry kernel_code_segment t).1 ≡ places t + 1
  pub places_data : (t : T) → places (ops.add_entry kernel_data_segment t).1 ≡ places t + 1
  pub places_user_data : (t : T) → places (ops.add_entry user_data_segment t).1 ≡ places t + 1

pub record Selectors : Type 0 where
  pub code_selector : ℕ
  pub data_selector : ℕ
  pub user_code_selector : ℕ
  pub user_data_selector : ℕ
  pub tss_selector : ℕ

-- `GDT`: the table and the selectors of its entries.
unfoldable pub gdt : {T : Type 0} → TableOps T → ℕ → T × Selectors
gdt ops tss =
    let (code_selector, t1) = ops.add_entry kernel_code_segment ops.new in
    let (data_selector, t2) = ops.add_entry kernel_data_segment t1 in
    let (user_data_selector, t3) = ops.add_entry user_data_segment t2 in
    let (user_code_selector, t4) = ops.add_entry user_code_segment t3 in
    let (tss_selector, t5) = ops.add_entry (tss_segment tss) t4 in
    (
      t5,
      record {
        code_selector = code_selector;
        data_selector = data_selector;
        user_code_selector = user_code_selector;
        user_data_selector = user_data_selector;
        tss_selector = tss_selector;
      },
    )

-- `get_selectors`
unfoldable pub get_selectors : {T : Type 0} → TableOps T → ℕ → Selectors
get_selectors ops tss = (gdt ops tss).1
