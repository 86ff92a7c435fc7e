-- ===== src/Tracker/Spec.antt =====
-- What the tracker of utils/addrtracker.c keeps: ranges of addresses that do not overlap.
use allocator_bench.Base.{
  ℕ, ◌+◌, ◌^◌, ◌<◌, ◌≤◌, ◌≡◌, ◌≢◌, ◌⊎◌, refl, Bool, true, Option, none, some, List, [], ◌∷◌, ◌++◌,
  arith, ltb, leb, ◌==◌, if◌then◌else◌, ◌&&◌, ◌||◌, if_cases, ==-eq, inl, inr, eq_or_ne,
}
use mathlib.Core.Path.{subst}
use allocator_bench.Avl.{Node}
use allocator_bench.Avl.Spec.{items}
use allocator_bench.Avl.Sorted
use allocator_bench.Avl.Sorted.{
  AllNodes, AllNodes-imp, AllNodes-both, AllNodes-parts, AllNodes-drop_id, IsSorted, insert_sorted,
  drop_id, count_id,
}
use allocator_bench.Tracker.{TrackerNode, Nodes, Tracker, store, end_of}

-- Where the range of a node ends, as a number that does not wrap.
abbrev pub end_at : Nodes → Node → ℕ
end_at nodes x = x.key + (nodes x.id).size

-- A node in the tracker has the key that its memory says, and a range inside the tracker's.
pub record IsInside (nodes : Nodes) (tracker : Tracker) (x : Node) : Type 0 where
  pub key : (nodes x.id).addr ≡ x.key
  pub tracked : (nodes x.id).has_tracker ≡ true
  pub not_empty : 0 < (nodes x.id).size
  pub above : tracker.lo ≤ x.key
  pub below : end_at nodes x ≤ tracker.after_hi

abbrev pub IsApart : Nodes → List Node → Type 0
IsApart nodes [] = Unit
IsApart nodes (x ∷ xs) = AllNodes (λ y. end_at nodes x ≤ y.key) xs × IsApart nodes xs

pub record IsValid (nodes : Nodes) (tracker : Tracker) : Type 0 where
  pub tree : Sorted.IsValid (2 ^ 63) tracker.tree
  pub inside : AllNodes (IsInside nodes tracker) (items tracker.tree.root)
  pub apart : IsApart nodes (items tracker.tree.root)
  pub single : (id : ℕ) → count_id id (items tracker.tree.root) ≤ 1
  pub top : tracker.after_hi ≤ 2 ^ 63

-- The first node of a list that passes a test.
abbrev pub first_with : (Node → Bool) → List Node → Option Node
first_with test [] = none
first_with test (x ∷ xs) = if test x then some x else first_with test xs

abbrev pub contains : Nodes → ℕ → Node → Bool
contains nodes addr x = leb (nodes x.id).addr addr && ltb addr (end_of (nodes x.id))

abbrev pub is_within : Nodes → (lo after_hi : ℕ) → Node → Bool
is_within nodes lo after_hi x = leb lo (nodes x.id).addr && leb (end_of (nodes x.id)) after_hi

-- No node's range reaches into a range.
abbrev pub all_apart : Nodes → (lo after_hi : ℕ) → List Node → Bool
all_apart nodes lo after_hi [] = true
all_apart nodes lo after_hi (x ∷ xs) =
    (leb after_hi (nodes x.id).addr || leb (end_of (nodes x.id)) lo)
    && all_apart nodes lo after_hi xs

-- A range inside a tracker below 2^63 ends where its end says.
pub end_of_lem :
    (nodes : Nodes) (tracker : Tracker) (x : Node)
    → tracker.after_hi ≤ 2 ^ 63
    → IsInside nodes tracker x
    → end_of (nodes x.id) ≡ end_at nodes x
end_of_lem nodes tracker x top i = omega (arith, i.key, i.below)

pub IsApart-parts :
    (nodes : Nodes) (xs : List Node) (x : Node) (ys : List Node)
    → IsApart nodes (xs ++ (x ∷ ys))
    → AllNodes (λ y. end_at nodes y ≤ x.key) xs
      × AllNodes (λ y. end_at nodes x ≤ y.key) ys
      × IsApart nodes xs
      × IsApart nodes ys
IsApart-parts nodes [] x ys a = (tt, a.0, tt, a.1)
IsApart-parts nodes (y ∷ xs) x ys a =
    let rest = IsApart-parts nodes xs x ys a.1 in
    let (low, high) = AllNodes-parts (λ z. end_at nodes y ≤ z.key) xs (x ∷ ys) a.0 in
    ((high.0, rest.0), rest.1, (low, rest.2), rest.3)

-- A node that is in the tracker points to it.
pub has_tracker-inside :
    (nodes : Nodes) (tracker : Tracker) (id : ℕ) (xs : List Node)
    → AllNodes (IsInside nodes tracker) xs
    → 0 < count_id id xs
    → (nodes id).has_tracker ≡ true
has_tracker-inside nodes tracker id [] ins there = absurd (omega arith)
has_tracker-inside nodes tracker id (x ∷ xs) ins there = elim (eq_or_ne x.id id) [
  | inl e ↦ subst (λ i. (nodes i).has_tracker ≡ true) e ins.0.tracked
  | inr ne ↦ has_tracker-inside nodes tracker id xs ins.1 (ground arith)
]

pub drop_id-IsApart :
    (nodes : Nodes) (id : ℕ) (xs : List Node) → IsApart nodes xs → IsApart nodes (drop_id id xs)
drop_id-IsApart nodes id [] a = tt
drop_id-IsApart nodes id (x ∷ xs) a =
    if_cases (IsApart nodes) (x.id == id) (drop_id id xs) (x ∷ drop_id id xs)
      (λ _. drop_id-IsApart nodes id xs a.1)
      (λ _.
        (AllNodes-drop_id (λ z. end_at nodes x ≤ z.key) id xs a.0, drop_id-IsApart nodes id xs a.1))

pub count_id-drop_id : (id id' : ℕ) (xs : List Node) → count_id id (drop_id id' xs) ≤ count_id id xs
count_id-drop_id id id' [] = omega arith
count_id-drop_id id id' (x ∷ xs) = ground (arith, count_id-drop_id id id' xs)

pub AllNodes-insert_sorted :
    (P : Node → Type 0) (x : Node) (xs : List Node)
    → P x
    → AllNodes P xs
    → AllNodes P (insert_sorted x xs)
AllNodes-insert_sorted P x [] p h = (p, tt)
AllNodes-insert_sorted P x (y ∷ ys) p h =
    if_cases (AllNodes P) (ltb x.key y.key) (x ∷ (y ∷ ys)) (y ∷ insert_sorted x ys) (λ _. (p, h))
      (λ _. (h.0, AllNodes-insert_sorted P x ys p h.1))

pub count_id-insert_sorted :
    (id : ℕ) (x : Node) (xs : List Node) → count_id id (insert_sorted x xs) ≡ count_id id (x ∷ xs)
count_id-insert_sorted id x [] = refl
count_id-insert_sorted id x (y ∷ ys) = ground (arith, count_id-insert_sorted id x ys)

-- The memory of other nodes does not matter.
abbrev pub AreOther : ℕ → List Node → Type 0
AreOther id = AllNodes (λ x. x.id ≢ id)

pub absent-AreOther : (id : ℕ) (xs : List Node) → count_id id xs ≡ 0 → AreOther id xs
absent-AreOther id [] h = tt
absent-AreOther id (x ∷ xs) h =
    (λ e. absurd (ground (arith, e)), absent-AreOther id xs (ground arith))

pub store_other :
    (nodes : Nodes) (id other : ℕ) (node : TrackerNode)
    → other ≢ id
    → store nodes id node other ≡ nodes other
store_other nodes id other node ne = ground arith

pub store_here : (nodes : Nodes) (id : ℕ) (node : TrackerNode) → store nodes id node id ≡ node
store_here nodes id node = rw (==-eq id id refl) refl

pub store-IsApart :
    (nodes : Nodes) (id : ℕ) (node : TrackerNode) (xs : List Node)
    → AreOther id xs
    → IsApart nodes xs
    → IsApart (store nodes id node) xs
store-IsApart nodes id node [] o a = tt
store-IsApart nodes id node (x ∷ xs) o a =
    (rw (store_other nodes id x.id node o.0) a.0, store-IsApart nodes id node xs o.1 a.1)

pub store-IsInside :
    (nodes : Nodes) (id : ℕ) (node : TrackerNode) (tracker tracker' : Tracker) (xs : List Node)
    → tracker'.lo ≡ tracker.lo
    → tracker'.after_hi ≡ tracker.after_hi
    → AreOther id xs
    → AllNodes (IsInside nodes tracker) xs
    → AllNodes (IsInside (store nodes id node) tracker') xs
store-IsInside nodes id node tracker tracker' xs same_lo same_hi =
    AllNodes-both (λ x. x.id ≢ id) (IsInside nodes tracker)
      (IsInside (store nodes id node) tracker') xs
      (λ x ne i.
        let kept = store_other nodes id x.id node ne in
        record {
          key = rw kept i.key;
          tracked = rw kept i.tracked;
          not_empty = rw kept i.not_empty;
          above = rw same_lo i.above;
          below = rw (kept, same_hi) i.below;
        })

pub insert_sorted-IsApart :
    (nodes : Nodes) (x : Node) (xs : List Node)
    → 0 < (nodes x.id).size
    → AllNodes (λ y. (end_at nodes x ≤ y.key) ⊎ (end_at nodes y ≤ x.key)) xs
    → IsSorted xs
    → IsApart nodes xs
    → IsApart nodes (insert_sorted x xs)
insert_sorted-IsApart nodes x [] not_empty free s a = (tt, tt)
insert_sorted-IsApart nodes x (y ∷ ys) not_empty free s a =
    if_cases (IsApart nodes) (ltb x.key y.key) (x ∷ (y ∷ ys)) (y ∷ insert_sorted x ys)
      (λ lt. (
        AllNodes-both (λ z. x.key < z.key)
            (λ z. (end_at nodes x ≤ z.key) ⊎ (end_at nodes z ≤ x.key)) (λ z. end_at nodes x ≤ z.key)
            (y ∷ ys) (λ z low apart. omega arith)
            (
              ground arith,
              AllNodes-imp (λ z. y.key < z.key) (λ z. x.key < z.key) ys (λ z low. ground arith) s.0,
            )
            free,
        a,
      ))
      (λ ge. (
        AllNodes-insert_sorted (λ z. end_at nodes y ≤ z.key) x ys (ground (arith, free.0)) a.0,
        insert_sorted-IsApart nodes x ys not_empty free.1 s.1 a.1,
      ))
