-- ===== src/KernelLib/List/Chain.antt =====
-- The abstract view of the lists of lib/kernel/list.c: the elements from front to back.
use ee461s_projects.Common.{
  ℕ, ◌+◌, ◌≤◌, ◌≡◌, ◌≢◌, inl, inr, Bool-cases, List, [], ◌∷◌, ◌++◌, count, count-append, arith,
  ◌==◌, if◌then◌else◌,
}
use ee461s_projects.KernelLib.List.{Links, LinkedList}

-- `next` leads from `a` through `xs` to `b`, and `prev` back.
abbrev pub Linked : Links → ℕ → List ℕ → ℕ → Type 0
Linked m a [] b = (m.next a ≡ b) × (m.prev b ≡ a)
Linked m a (x ∷ xs) b = (m.next a ≡ x) × (m.prev x ≡ a) × Linked m x xs b

-- The first of some elements, or the end.
abbrev pub first : List ℕ → ℕ → ℕ
first [] b = b
first (x ∷ xs) b = x

-- The header elements and the elements between them.
abbrev pub nodes : ℕ → List ℕ → ℕ → List ℕ
nodes a xs b = a ∷ (xs ++ (b ∷ []))

-- The list's elements are `xs`.
pub record IsList (m : Links) (list : LinkedList) (xs : List ℕ) : Type 0 where
  pub front_null : m.prev list.head ≡ 0
  pub back_null : m.next list.tail ≡ 0
  pub linked : Linked m list.head xs list.tail
  pub distinct : (a : ℕ) → count a (nodes list.head xs list.tail) ≤ 1
  pub not_null : count 0 (nodes list.head xs list.tail) ≡ 0

-- Links that agree at the elements of a chain.
pub Linked-frame :
    (m m' : Links) (a : ℕ) (xs : List ℕ) (b : ℕ)
    → ((e : ℕ) → count e (a ∷ xs) ≢ 0 → m'.next e ≡ m.next e)
    → ((e : ℕ) → count e (xs ++ (b ∷ [])) ≢ 0 → m'.prev e ≡ m.prev e)
    → Linked m a xs b
    → Linked m' a xs b
Linked-frame m m' a [] b n p l = ground (arith, n a (ground arith), p b (ground arith))
Linked-frame m m' a (x ∷ xs) b n p l = (
  ground (arith, n a (ground arith)),
  ground (arith, p x (ground arith)),
  Linked-frame m m' x xs b (λ e h. n e (ground arith)) (λ e h. p e (ground arith)) l.2,
)

-- What `prev` leads to from a place in the chain stands before that place.
pub prev-before :
    (m : Links) (a : ℕ) (xs ys : List ℕ) (b : ℕ)
    → Linked m a (xs ++ ys) b
    → count (m.prev (first ys b)) (a ∷ xs) ≢ 0
prev-before m a [] [] b l = ground arith
prev-before m a [] (y ∷ ys) b l = ground arith
prev-before m a (x ∷ xs) ys b l = ground (arith, prev-before m x xs ys b l.2)

pub next-after :
    (m : Links) (a : ℕ) (xs ys : List ℕ) (e b : ℕ)
    → Linked m a (xs ++ (e ∷ ys)) b
    → m.next e ≡ first ys b
next-after m a [] [] e b l = ground arith
next-after m a [] (y ∷ ys) e b l = ground arith
next-after m a (x ∷ xs) ys e b l = next-after m x xs ys e b l.2

pub first-count : (ys : List ℕ) (b : ℕ) → count (first ys b) (ys ++ (b ∷ [])) ≢ 0
first-count [] b = ground arith
first-count (y ∷ ys) b = ground arith

pub next-null :
    (m : Links) (a : ℕ) (xs : List ℕ) (b e : ℕ)
    → Linked m a xs b
    → count e (a ∷ xs) ≢ 0
    → count 0 (nodes a xs b) ≡ 0
    → m.next e ≢ 0
next-null m a [] b e l n z = ground arith
next-null m a (x ∷ xs) b e l n z = elim (Bool-cases (e == a)) [
  | inl h ↦ ground arith
  | inr h ↦ next-null m x xs b e l.2 (ground arith) (ground arith)
]

-- How often an address stands in a list with an element put in.
pub nodes-count :
    (e a : ℕ) (xs ys : List ℕ) (b : ℕ)
    → count e (nodes a (xs ++ ys) b)
      ≡ (if e == a then 1 else 0) + (count e xs + (count e ys + (if e == b then 1 else 0)))
nodes-count e a xs ys b = ground (arith, count-append e (xs ++ ys) (b ∷ []), count-append e xs ys)

pub first-next : (m : Links) (a : ℕ) (xs : List ℕ) (b : ℕ) → Linked m a xs b → m.next a ≡ first xs b
first-next m a [] b l = l.0
first-next m a (x ∷ xs) b l = l.0

pub last-prev :
    (m : Links) (a : ℕ) (xs : List ℕ) (x b : ℕ) → Linked m a (xs ++ (x ∷ [])) b → m.prev b ≡ x
last-prev m a [] x b l = l.2.1
last-prev m a (y ∷ xs) x b l = last-prev m y xs x b l.2

-- The first of some elements is not the end.
pub first-ne-end :
    (xs ys : List ℕ) (x b : ℕ) → count b (xs ++ (x ∷ ys)) ≡ 0 → first (xs ++ (x ∷ ys)) b ≢ b
first-ne-end [] ys x b n = ground arith
first-ne-end (y ∷ xs) ys x b n = ground arith
