-- ===== src/Scheduler/Tree.antt =====
-- process/scheduler.rs: `process_tree`, a `BTreeMap` from a process to its parent, as the list of
-- its entries in the order of their keys.
use ruix.Prelude.{
  ℕ, ◌<◌, ◌≤◌, ◌≡◌, ◌≢◌, refl, Bool, false, Option, none, some, List, [], ◌∷◌, arith, ltb, ◌==◌,
  if◌then◌else◌, contains,
}

abbrev pub ProcessTree : Type 0
ProcessTree = List (ℕ × ℕ)

-- `insert`: an entry of the same key is replaced.
unfoldable pub insert : ℕ → ℕ → ProcessTree → ProcessTree
insert k v [] = (k, v) ∷ []
insert k v ((j, w) ∷ t) =
    if ltb k j then (k, v) ∷ (j, w) ∷ t else if k == j then (k, v) ∷ t else (j, w) ∷ insert k v t

-- `remove`
unfoldable pub remove : ℕ → ProcessTree → ProcessTree
remove k [] = []
remove k ((j, w) ∷ t) = if j == k then t else (j, w) ∷ remove k t

-- `get`
unfoldable pub get : ℕ → ProcessTree → Option ℕ
get k [] = none
get k ((j, w) ∷ t) = if j == k then some w else get k t

-- The keys whose value is `parent`, in the order of iteration.
unfoldable pub children_of : ℕ → ProcessTree → List ℕ
children_of parent [] = []
children_of parent ((j, w) ∷ t) =
    if w == parent then j ∷ children_of parent t else children_of parent t

-- The keys rise along the list.
abbrev Above : ℕ → ProcessTree → Type 0
Above k [] = Unit
Above k ((j, w) ∷ t) = (k < j) × Above j t

abbrev pub IsSorted : ProcessTree → Type 0
IsSorted [] = Unit
IsSorted ((j, w) ∷ t) = Above j t

Above-insert : (b k v : ℕ) (t : ProcessTree) → b < k → Above b t → Above b (insert k v t)
unfolding insert
Above-insert b k v [] h a = (h, tt)
Above-insert b k v ((j, w) ∷ t) h a = ground (arith, Above-insert j k v t)

insert-IsSorted : (k v : ℕ) (t : ProcessTree) → IsSorted t → IsSorted (insert k v t)
unfolding insert
insert-IsSorted k v [] s = tt
insert-IsSorted k v ((j, w) ∷ t) s = ground (arith, Above-insert j k v t)

Above-mono : (a b : ℕ) (t : ProcessTree) → a ≤ b → Above b t → Above a t
Above-mono a b [] h s = tt
Above-mono a b ((j, w) ∷ t) h s = (omega arith, s.1)

Above-remove : (b k : ℕ) (t : ProcessTree) → Above b t → Above b (remove k t)
unfolding remove
Above-remove b k [] a = tt
Above-remove b k ((j, w) ∷ t) a = ground (arith, Above-remove j k t a.1, Above-mono b j t)

remove-IsSorted : (k : ℕ) (t : ProcessTree) → IsSorted t → IsSorted (remove k t)
unfolding remove
remove-IsSorted k [] s = tt
remove-IsSorted k ((j, w) ∷ []) s = ground arith
remove-IsSorted k ((j, w) ∷ (i, v) ∷ t) s = ground (arith, Above-remove j k ((i, v) ∷ t) s)

get-Above : (b k : ℕ) (t : ProcessTree) → k ≤ b → Above b t → get k t ≡ none
unfolding get
get-Above b k [] h a = refl
get-Above b k ((j, w) ∷ t) h a = ground (arith, get-Above j k t)

get-insert :
    (i k v : ℕ) (t : ProcessTree) → get i (insert k v t) ≡ (if k == i then some v else get i t)
unfolding get insert
get-insert i k v [] = refl
get-insert i k v ((j, w) ∷ t) = ground (arith, get-insert i k v t)

get-remove_self : (k : ℕ) (t : ProcessTree) → IsSorted t → get k (remove k t) ≡ none
unfolding get remove
get-remove_self k [] s = refl
get-remove_self k ((j, w) ∷ []) s = ground arith
get-remove_self k ((j, w) ∷ (i, v) ∷ t) s =
    ground (arith, get-Above j k ((i, v) ∷ t), get-remove_self k ((i, v) ∷ t) s.1)

abbrev is_parent : ℕ → Option ℕ → Bool
is_parent parent none = false
is_parent parent (some w) = w == parent

children_of-Above :
    (b k parent : ℕ) (t : ProcessTree)
    → k ≤ b
    → Above b t
    → contains k (children_of parent t) ≡ false
unfolding children_of
children_of-Above b k parent [] h a = refl
children_of-Above b k parent ((j, w) ∷ t) h a = ground (arith, children_of-Above j k parent t)

-- The keys found by iteration are those that `get` maps to the parent.
contains-children_of :
    (k parent : ℕ) (t : ProcessTree)
    → IsSorted t
    → contains k (children_of parent t) ≡ is_parent parent (get k t)
unfolding get children_of
contains-children_of k parent [] s = refl
contains-children_of k parent ((j, w) ∷ []) s = ground arith
contains-children_of k parent ((j, w) ∷ (i, v) ∷ t) s = ground (
  arith,
  children_of-Above j k parent ((i, v) ∷ t),
  contains-children_of k parent ((i, v) ∷ t) s.1,
)

-- `insert` of 0 for each key, the part of the orphaning loop that writes to the tree.
unfoldable pub adopt_all : List ℕ → ProcessTree → ProcessTree
adopt_all [] t = t
adopt_all (c ∷ cs) t = adopt_all cs (insert c 0 t)

adopt_all-IsSorted : (cs : List ℕ) (t : ProcessTree) → IsSorted t → IsSorted (adopt_all cs t)
unfolding adopt_all
adopt_all-IsSorted [] t s = s
adopt_all-IsSorted (c ∷ cs) t s = adopt_all-IsSorted cs (insert c 0 t) (insert-IsSorted c 0 t s)

get-adopt_all :
    (k : ℕ) (cs : List ℕ) (t : ProcessTree)
    → get k (adopt_all cs t) ≡ (if contains k cs then some 0 else get k t)
unfolding adopt_all
get-adopt_all k [] t = refl
get-adopt_all k (c ∷ cs) t = ground (arith, get-adopt_all k cs (insert c 0 t), get-insert k c 0 t)

nil_of_contains : (xs : List ℕ) → ((k : ℕ) → contains k xs ≡ false) → xs ≡ []
nil_of_contains [] h = refl
nil_of_contains (x ∷ xs) h = ground (arith, h x)

-- Once its children are given to process 0, a process other than 0 has none.
pub children_of-adopt_all :
    (parent : ℕ) (t : ProcessTree)
    → parent ≢ 0
    → IsSorted t
    → children_of parent (adopt_all (children_of parent t) t) ≡ []
children_of-adopt_all parent t ne s = nil_of_contains _ λ k.
    let cs = children_of parent t in
    ground (
      arith,
      contains-children_of k parent (adopt_all cs t) (adopt_all-IsSorted cs t s),
      get-adopt_all k cs t,
      contains-children_of k parent t s,
    )
