-- ===== src/Links/Chain.antt =====
-- What the links of a memory stand for: a chain of nodes from one node to another, and the ring
-- of a list head.
use mathlib.Core.Bool.{or_assoc}
use new_explorer_aios.Prelude.{
  ◌≡◌, refl, ◌∙◌, Bool, true, false, ◌||◌, List, [], ◌∷◌, ◌++◌, arith, ◌==◌,
}
use new_explorer_aios.Links.Memory.{Ptr, null, Memory, write}

-- Whether an address is among those of a list.
abbrev pub has : Ptr → List Ptr → Bool
has a [] = false
has a (x ∷ xs) = (a == x) || has a xs

infix 40 ◌∈◌ ◌∉◌
abbrev pub ◌∈◌ : Ptr → List Ptr → Type 0
a ∈ xs = has a xs ≡ true

abbrev pub ◌∉◌ : Ptr → List Ptr → Type 0
a ∉ xs = has a xs ≡ false

abbrev pub Distinct : List Ptr → Type 0
Distinct [] = Unit
Distinct (x ∷ xs) = (x ∉ xs) × Distinct xs

-- From `p` the links lead, forth and back, through `xs` to `q`.
abbrev pub Chain : Memory → Ptr → List Ptr → Ptr → Type 0
Chain m p [] q = (m.next p ≡ q) × (m.prev q ≡ p)
Chain m p (x ∷ xs) q = (m.next p ≡ x) × (m.prev x ≡ p) × Chain m x xs q

-- The list of the head `list` has the nodes `xs`, in order, all different and none of them NULL.
pub record Ring (m : Memory) (list : Ptr) (xs : List Ptr) : Type 0 where
  pub chain : Chain m list xs list
  pub distinct : Distinct (list ∷ xs)
  pub no_null : null ∉ list ∷ xs

-- The last node of a chain, or the node before it, and the first or the node behind it.
abbrev pub last_of : Ptr → List Ptr → Ptr
last_of p [] = p
last_of p (x ∷ xs) = last_of x xs

abbrev pub first_of_chain : List Ptr → Ptr → Ptr
first_of_chain [] q = q
first_of_chain (x ∷ xs) q = x

-- The memory in which `b` follows `a`.
unfoldable pub relink : Ptr → Ptr → Memory → Memory
unfolding write
relink a b m = record { next = write m.next a b; prev = write m.prev b a }

pub has-append : (a : Ptr) (xs ys : List Ptr) → has a (xs ++ ys) ≡ (has a xs || has a ys)
has-append a [] ys = refl
has-append a (x ∷ xs) ys = rw (has-append a xs ys, or_assoc)

pub last_of-mem : (p : Ptr) (xs : List Ptr) → last_of p xs ∈ p ∷ xs
last_of-mem p [] = ground arith
last_of-mem p (x ∷ xs) = ground (arith, last_of-mem x xs)

-- A new address keeps a list distinct wherever it is put, and a list stays distinct without one.
pub Distinct-insert :
    (xs : List Ptr) (a : Ptr) (ys : List Ptr)
    → Distinct (xs ++ ys)
    → a ∉ xs ++ ys
    → Distinct (xs ++ a ∷ ys)
Distinct-insert [] a ys d out = (out, d)
Distinct-insert (x ∷ xs) a ys d out = (
  ground (arith, has-append x xs ys, has-append x xs (a ∷ ys)),
  Distinct-insert xs a ys d.1 (ground arith),
)

pub Distinct-remove :
    (xs : List Ptr) (a : Ptr) (ys : List Ptr)
    → Distinct (xs ++ a ∷ ys)
    → Distinct (xs ++ ys) × (a ∉ xs ++ ys)
Distinct-remove [] a ys d = (d.1, d.0)
Distinct-remove (x ∷ xs) a ys d =
    let (d', out) = Distinct-remove xs a ys d.1 in
    (
      (ground (arith, has-append x xs ys, has-append x xs (a ∷ ys)), d'),
      ground (arith, has-append x xs (a ∷ ys)),
    )

module _ (m : Memory) where
  pub Chain-next :
      (p : Ptr) (xs : List Ptr) (q : Ptr) → Chain m p xs q → m.next p ≡ first_of_chain xs q
  Chain-next p [] q c = c.0
  Chain-next p (x ∷ xs) q c = c.0

  pub Chain-prev : (p : Ptr) (xs : List Ptr) (q : Ptr) → Chain m p xs q → m.prev q ≡ last_of p xs
  Chain-prev p [] q c = c.1
  Chain-prev p (x ∷ xs) q c = Chain-prev x xs q c.2

  -- A chain survives a change that spares the links within it.
  pub Chain-frame :
      (m' : Memory) (p : Ptr) (xs : List Ptr) (q : Ptr)
      → Chain m p xs q
      → ((a : Ptr) → a ∈ p ∷ xs → m'.next a ≡ m.next a)
      → ((a : Ptr) → a ∈ xs ++ q ∷ [] → m'.prev a ≡ m.prev a)
      → Chain m' p xs q
  Chain-frame m' p [] q c same_next same_prev =
      (same_next p (ground arith) ∙ c.0, same_prev q (ground arith) ∙ c.1)
  Chain-frame m' p (x ∷ xs) q c same_next same_prev = (
    same_next p (ground arith) ∙ c.0,
    same_prev x (ground arith) ∙ c.1,
    Chain-frame m' x xs q c.2 (λ a i. same_next a (ground arith))
        (λ a i. same_prev a (ground arith)),
  )

  pub Chain-append :
      (p : Ptr) (xs : List Ptr) (y : Ptr) (ys : List Ptr) (q : Ptr)
      → Chain m p xs y
      → Chain m y ys q
      → Chain m p (xs ++ y ∷ ys) q
  Chain-append p [] y ys q c d = (c.0, c.1, d)
  Chain-append p (x ∷ xs) y ys q c d = (c.0, c.1, Chain-append x xs y ys q c.2 d)

  pub Chain-split :
      (p : Ptr) (xs : List Ptr) (y : Ptr) (ys : List Ptr) (q : Ptr)
      → Chain m p (xs ++ y ∷ ys) q
      → Chain m p xs y × Chain m y ys q
  Chain-split p [] y ys q c = ((c.0, c.1), c.2)
  Chain-split p (x ∷ xs) y ys q c = let (d, e) = Chain-split x xs y ys q c.2 in ((c.0, c.1, d), e)

  -- A new node behind the last one of a chain.
  pub Chain-relink_last :
      (p : Ptr) (xs : List Ptr) (q b : Ptr)
      → Chain m p xs q
      → Distinct (p ∷ xs)
      → b ∉ xs
      → Chain (relink (last_of p xs) b m) p xs b
  unfolding relink write
  Chain-relink_last p [] q b c d out = (ground arith, ground arith)
  Chain-relink_last p (x ∷ xs) q b c d out = (
    ground (arith, last_of-mem x xs),
    ground arith,
    Chain-relink_last x xs q b c.2 d.1 (ground arith),
  )

  pub Chain-relink_outside :
      (a b p : Ptr) (xs : List Ptr) (q : Ptr)
      → Chain m p xs q
      → a ∉ p ∷ xs
      → b ∉ xs ++ q ∷ []
      → Chain (relink a b m) p xs q
  unfolding relink write
  Chain-relink_outside a b p xs q c out out' =
      Chain-frame (relink a b m) p xs q c (λ x i. ground arith) (λ x i. ground arith)
