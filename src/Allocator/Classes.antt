-- ===== src/Allocator/Classes.antt =====
-- allocator/fixed_size_block.rs: the class that `list_index` chooses.
use mathlib.Core.Option
use ruix.Prelude.{
  ℕ, zero, suc, ◌≡◌, refl, Bool, true, false, Option, none, some, List, [], ◌∷◌, leb, if◌then◌else◌,
  arith, ◌<◌, ◌≤◌, length,
}
use ruix.Allocator.{Layout, block_sizes, max, position_from, list_index, size_at}

-- The first size that is large enough; or none is.
unfoldable pub FirstFit : ℕ → List ℕ → Option ℕ → Type 0
FirstFit required sizes none = (i : ℕ) → i < length sizes → size_at i sizes < required
FirstFit required sizes (some n) =
    (n < length sizes)
    × (required ≤ size_at n sizes)
    × ((i : ℕ) → i < n → size_at i sizes < required)

all_smaller :
    (required s n : ℕ) (sizes : List ℕ)
    → s < required
    → ((i : ℕ) → i < n → size_at i sizes < required)
    → (i : ℕ) → i < suc n
    → size_at i (s ∷ sizes) < required
unfolding size_at
all_smaller required s n sizes h k zero lt = h
all_smaller required s n sizes h k (suc j) lt = k j (omega (arith, lt))

later :
    (required s : ℕ) (sizes : List ℕ) (o : Option ℕ)
    → s < required
    → FirstFit required sizes o
    → FirstFit required (s ∷ sizes) (Option.map suc o)
unfolding FirstFit size_at
later required s sizes none h k = all_smaller required s (length sizes) sizes h k
later required s sizes (some n) h (lt, fits, small) =
    (omega (arith, lt), fits, all_smaller required s n sizes h small)

either :
    (required s : ℕ) (sizes : List ℕ) (b : Bool) (o : Option ℕ)
    → leb required s ≡ b
    → FirstFit required sizes o
    → FirstFit required (s ∷ sizes) (if b then some 0 else Option.map suc o)
unfolding FirstFit size_at
either required s sizes true o e h = (omega arith, ground arith, λ i below. omega arith)
either required s sizes false o e h = later required s sizes o (ground arith) h

position_from-FirstFit :
    (required : ℕ) (sizes : List ℕ) → FirstFit required sizes (position_from required sizes)
unfolding FirstFit position_from size_at
position_from-FirstFit required [] = λ i h. omega arith
position_from-FirstFit required (s ∷ sizes) =
    either required s sizes (leb required s) (position_from required sizes) refl
      (position_from-FirstFit required sizes)

-- `list_index` finds the smallest class whose blocks hold the layout's size and alignment, and none only
-- if the blocks of no class do.
pub list_index-FirstFit :
    (layout : Layout) → FirstFit (max layout.size layout.align) block_sizes (list_index layout)
unfolding list_index
list_index-FirstFit layout = position_from-FirstFit (max layout.size layout.align) block_sizes
