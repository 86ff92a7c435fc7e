-- ===== src/Avl/Sorted.antt =====
-- Lists of nodes in the order of their keys: what the trees of utils/avl.c stand for.
use Prim.Native.Nat.{compare}
use allocator_bench.Base.{
  ℕ, ◌+◌, ◌<◌, ◌≡◌, refl, sym, ap, ◌∙◌, Option, none, some, List, [], ◌∷◌, ◌++◌, arith, ltb, leb,
  ◌==◌, if◌then◌else◌, if_cases,
}
use allocator_bench.Avl.{Node, AvlTree, first_some}
use allocator_bench.Avl.Spec.{items, IsAvl}

abbrev pub AllNodes : (Node → Type 0) → List Node → Type 0
AllNodes P [] = Unit
AllNodes P (x ∷ xs) = P x × AllNodes P xs

abbrev pub Below : ℕ → List Node → Type 0
Below k = AllNodes (λ x. x.key < k)

abbrev pub Above : ℕ → List Node → Type 0
Above k = AllNodes (λ x. k < x.key)

abbrev pub IsSorted : List Node → Type 0
IsSorted [] = Unit
IsSorted (x ∷ xs) = Above x.key xs × IsSorted xs

-- The operations on such a list.
abbrev pub find_key : ℕ → List Node → Option Node
find_key key [] = none
find_key key (x ∷ xs) = if x.key == key then some x else find_key key xs

abbrev pub first_geq : ℕ → List Node → Option Node
first_geq key [] = none
first_geq key (x ∷ xs) = if leb key x.key then some x else first_geq key xs

abbrev pub last_leq : ℕ → List Node → Option Node
last_leq key [] = none
last_leq key (x ∷ xs) = first_some (last_leq key xs) (if leb x.key key then some x else none)

abbrev pub insert_sorted : Node → List Node → List Node
insert_sorted x [] = x ∷ []
insert_sorted x (y ∷ ys) = if ltb x.key y.key then x ∷ (y ∷ ys) else y ∷ insert_sorted x ys

abbrev pub drop_id : ℕ → List Node → List Node
drop_id id [] = []
drop_id id (x ∷ xs) = if x.id == id then drop_id id xs else x ∷ drop_id id xs

abbrev pub count_id : ℕ → List Node → ℕ
count_id id [] = 0
count_id id (x ∷ xs) = (if x.id == id then 1 else 0) + count_id id xs

-- A tree whose comparison orders the keys below `bound` as numbers: it is balanced, and its nodes
-- are in the order of their keys, which are below the bound.
pub record IsValid (bound : ℕ) (tree : AvlTree) : Type 0 where
  pub avl : IsAvl tree.root
  pub sorted : IsSorted (items tree.root)
  pub bounded : Below bound (items tree.root)
  pub compares : (a b : ℕ) → a < bound → b < bound → tree.compare a b ≡ compare a b

pub AllNodes-imp :
    (P Q : Node → Type 0) (xs : List Node)
    → ((x : Node) → P x → Q x)
    → AllNodes P xs
    → AllNodes Q xs
AllNodes-imp P Q [] f h = tt
AllNodes-imp P Q (x ∷ xs) f h = (f x h.0, AllNodes-imp P Q xs f h.1)

pub AllNodes-both :
    (P Q R : Node → Type 0) (xs : List Node)
    → ((x : Node) → P x → Q x → R x)
    → AllNodes P xs
    → AllNodes Q xs
    → AllNodes R xs
AllNodes-both P Q R [] f h k = tt
AllNodes-both P Q R (x ∷ xs) f h k = (f x h.0 k.0, AllNodes-both P Q R xs f h.1 k.1)

pub AllNodes-append :
    (P : Node → Type 0) (xs ys : List Node) → AllNodes P xs → AllNodes P ys → AllNodes P (xs ++ ys)
AllNodes-append P [] ys h k = k
AllNodes-append P (x ∷ xs) ys h k = (h.0, AllNodes-append P xs ys h.1 k)

pub AllNodes-parts :
    (P : Node → Type 0) (xs ys : List Node) → AllNodes P (xs ++ ys) → AllNodes P xs × AllNodes P ys
AllNodes-parts P [] ys h = (tt, h)
AllNodes-parts P (x ∷ xs) ys h = let rest = AllNodes-parts P xs ys h.1 in ((h.0, rest.0), rest.1)

-- A list round a node.
pub IsSorted-parts :
    (xs : List Node) (x : Node) (ys : List Node)
    → IsSorted (xs ++ (x ∷ ys))
    → Below x.key xs × Above x.key ys × IsSorted xs × IsSorted ys
IsSorted-parts [] x ys s = (tt, s.0, tt, s.1)
IsSorted-parts (y ∷ xs) x ys s =
    let rest = IsSorted-parts xs x ys s.1 in
    let (low, high) = AllNodes-parts (λ z. y.key < z.key) xs (x ∷ ys) s.0 in
    ((high.0, rest.0), rest.1, (low, rest.2), rest.3)

pub IsSorted-join :
    (xs : List Node) (x : Node) (ys : List Node)
    → Below x.key xs
    → Above x.key ys
    → IsSorted xs
    → IsSorted ys
    → IsSorted (xs ++ (x ∷ ys))
IsSorted-join [] x ys b a s t = (a, t)
IsSorted-join (y ∷ xs) x ys b a s t = (
  AllNodes-append (λ z. y.key < z.key) xs (x ∷ ys) s.0
      (b.0, AllNodes-imp (λ z. x.key < z.key) (λ z. y.key < z.key) ys (λ z lt. omega arith) a),
  IsSorted-join xs x ys b.1 a s.1 t,
)

-- A search skips what is too small, and does not reach what is too large.
pub find_key-Below :
    (key : ℕ) (xs ys : List Node) → Below key xs → find_key key (xs ++ ys) ≡ find_key key ys
find_key-Below key [] ys b = refl
find_key-Below key (x ∷ xs) ys b = ground (arith, find_key-Below key xs ys b.1)

pub find_key-Above : (key : ℕ) (ys : List Node) → Above key ys → find_key key ys ≡ none
find_key-Above key [] a = refl
find_key-Above key (y ∷ ys) a = ground (arith, find_key-Above key ys a.1)

pub find_key-left :
    (key : ℕ) (xs ys : List Node) → Above key ys → find_key key (xs ++ ys) ≡ find_key key xs
find_key-left key [] ys a = find_key-Above key ys a
find_key-left key (x ∷ xs) ys a = ground (arith, find_key-left key xs ys a)

pub insert_sorted-between :
    (x : Node) (xs ys : List Node)
    → Below x.key xs
    → Above x.key ys
    → insert_sorted x (xs ++ ys) ≡ xs ++ (x ∷ ys)
insert_sorted-between x [] [] b a = refl
insert_sorted-between x [] (y ∷ ys) b a = ground arith
insert_sorted-between x (z ∷ xs) ys b a = ground (arith, insert_sorted-between x xs ys b.1 a)

pub drop_id-append :
    (id : ℕ) (xs ys : List Node) → drop_id id (xs ++ ys) ≡ drop_id id xs ++ drop_id id ys
drop_id-append id [] ys = refl
drop_id-append id (x ∷ xs) ys = ground (arith, drop_id-append id xs ys)

pub drop_id-absent : (id : ℕ) (xs : List Node) → count_id id xs ≡ 0 → drop_id id xs ≡ xs
drop_id-absent id [] h = refl
drop_id-absent id (x ∷ xs) h = ground (arith, drop_id-absent id xs)

pub count_id-append :
    (id : ℕ) (xs ys : List Node) → count_id id (xs ++ ys) ≡ count_id id xs + count_id id ys
count_id-append id [] ys = omega arith
count_id-append id (x ∷ xs) ys = omega (arith, count_id-append id xs ys)

-- What is left of a list by drop_id.
pub AllNodes-drop_id :
    (P : Node → Type 0) (id : ℕ) (xs : List Node) → AllNodes P xs → AllNodes P (drop_id id xs)
AllNodes-drop_id P id [] h = tt
AllNodes-drop_id P id (x ∷ xs) h =
    if_cases (AllNodes P) (x.id == id) (drop_id id xs) (x ∷ drop_id id xs)
      (λ _. AllNodes-drop_id P id xs h.1) (λ _. (h.0, AllNodes-drop_id P id xs h.1))

pub drop_id-IsSorted : (id : ℕ) (xs : List Node) → IsSorted xs → IsSorted (drop_id id xs)
drop_id-IsSorted id [] s = tt
drop_id-IsSorted id (x ∷ xs) s =
    if_cases IsSorted (x.id == id) (drop_id id xs) (x ∷ drop_id id xs)
      (λ _. drop_id-IsSorted id xs s.1)
      (λ _. (AllNodes-drop_id (λ z. x.key < z.key) id xs s.0, drop_id-IsSorted id xs s.1))

pub IsSorted-split : (xs ys : List Node) → IsSorted (xs ++ ys) → IsSorted xs × IsSorted ys
IsSorted-split [] ys s = (tt, s)
IsSorted-split (x ∷ xs) ys s =
    let rest = IsSorted-split xs ys s.1 in
    (((AllNodes-parts (λ z. x.key < z.key) xs ys s.0).0, rest.0), rest.1)

pub first_geq-append :
    (key : ℕ) (xs ys : List Node)
    → first_geq key (xs ++ ys) ≡ first_some (first_geq key xs) (first_geq key ys)
first_geq-append key [] ys = refl
first_geq-append key (x ∷ xs) ys = ground (arith, first_geq-append key xs ys)

pub first_geq-Below : (key : ℕ) (xs : List Node) → Below key xs → first_geq key xs ≡ none
first_geq-Below key [] b = refl
first_geq-Below key (x ∷ xs) b = ground (arith, first_geq-Below key xs b.1)

pub first_some_assoc {ℓ} :
    {A : Type ℓ} (a b c : Option A) → first_some (first_some a b) c ≡ first_some a (first_some b c)
first_some_assoc none b c = refl
first_some_assoc (some a) b c = refl

pub first_some-none {ℓ} : {A : Type ℓ} (a : Option A) → first_some a none ≡ a
first_some-none none = refl
first_some-none (some a) = refl

pub last_leq-append :
    (key : ℕ) (xs ys : List Node)
    → last_leq key (xs ++ ys) ≡ first_some (last_leq key ys) (last_leq key xs)
last_leq-append key [] ys = sym (first_some-none (last_leq key ys))
last_leq-append key (x ∷ xs) ys =
    ap (λ a. first_some a (if leb x.key key then some x else none)) (last_leq-append key xs ys)
    ∙ first_some_assoc (last_leq key ys) (last_leq key xs) (if leb x.key key then some x else none)

pub last_leq-Above : (key : ℕ) (xs : List Node) → Above key xs → last_leq key xs ≡ none
last_leq-Above key [] a = refl
last_leq-Above key (x ∷ xs) a = ground (arith, last_leq-Above key xs a.1)
