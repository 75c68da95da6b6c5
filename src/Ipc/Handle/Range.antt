-- ===== src/Ipc/Handle/Range.antt =====
-- ipc.rs: the pages of a range.
use ruix.Prelude.{◌↔◌, ℕ, ◌+◌, ◌*◌, ◌/◌, ◌^◌, ◌<◌, ◌≤◌, ◌≡◌, ◌↔◌, true, arith}
use ruix.Error.{ok, err, IpcError}
use ruix.Ipc.Handle.{PageRange, page_count, is_valid}

pub page_count_lem :
    (r : PageRange)
    → r.size < 2 ^ 64
    → (2 ^ 64 ≤ r.size + 4095 → page_count r ≡ err IpcError.invalid_range)
      × (r.size + 4095 < 2 ^ 64
          → (n : ℕ) × (page_count r ≡ ok n) × (r.size ≤ n * 4096) × (n * 4096 < r.size + 4096))
      × (is_valid r ≡ true → (n : ℕ) × (page_count r ≡ ok n) × (n * 4096 ≡ r.size) × (0 < n))
unfolding page_count is_valid
page_count_lem r h = (
  λ big. ground arith,
  λ fits. ((r.size + 4095) / 4096, ground arith, omega arith, omega arith),
  λ valid. ((r.size + 4095) / 4096, ground arith, ground arith, ground arith),
)

-- The page count is refused exactly if rounding the size up to pages leaves the 64-bit word.
page_count_refused :
    (r : PageRange) → (page_count r ≡ err IpcError.invalid_range) ↔ (2 ^ 64 ≤ r.size + 4095)
unfolding page_count
page_count_refused r = (λ e. ground arith, λ big. ground arith)

-- A page count that is not refused is the least number of pages that hold the size.
page_count_least :
    (r : PageRange) (n : ℕ) → page_count r ≡ ok n → (r.size ≤ n * 4096) × (n * 4096 < r.size + 4096)
unfolding page_count
page_count_least r n e = (ground arith, ground arith)
