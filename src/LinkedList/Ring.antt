-- ===== src/LinkedList/Ring.antt =====
-- The ring of headers that a list of list.c stands for, and how adding and deleting a header
-- change it.
use marimba.Base.{◌≡◌, List, [], ◌∷◌, ◌++◌, true, false, arith, has, Distinct, has-append}
use marimba.LinkedList.{Ptr, Memory, add_prev, del}

-- `a` and `b` point at one another.
abbrev pub Link : Memory → Ptr → Ptr → Type 0
Link m a b = ((m a).next ≡ b) × ((m b).prev ≡ a)

-- From `p` the links lead through the headers `xs` to `q`.
abbrev pub Chain : Memory → Ptr → List Ptr → Ptr → Type 0
Chain m p [] q = Link m p q
Chain m p (x ∷ xs) q = Link m p x × Chain m x xs q

-- The list whose own header is at `l` holds the headers `xs`, in order.
pub record IsRing (m : Memory) (l : Ptr) (xs : List Ptr) : Type 0 where
  pub chain : Chain m l xs l
  pub distinct : Distinct (l ∷ xs)

-- The two memories agree outside `xs`.
abbrev pub SameOutside : List Ptr → Memory → Memory → Type 0
SameOutside xs m m' = (a : Ptr) → has a xs ≡ false → m' a ≡ m a

pub Chain-frame :
    (m m' : Memory) (p : Ptr) (xs : List Ptr) (q : Ptr)
    → ((a : Ptr) → has a (p ∷ xs) ≡ true → (m' a).next ≡ (m a).next)
    → ((a : Ptr) → has a (q ∷ xs) ≡ true → (m' a).prev ≡ (m a).prev)
    → Chain m p xs q
    → Chain m' p xs q
Chain-frame m m' p [] q same_next same_prev c = ground (arith, same_next p, same_prev q)
Chain-frame m m' p (x ∷ xs) q same_next same_prev c = (
  ground (arith, same_next p, same_prev x),
  Chain-frame m m' x xs q (λ a h. same_next a (ground arith)) (λ a h. same_prev a (ground arith))
      c.1,
)

-- The last header before `q`, and the first after `p`.
pub prev-mem :
    (m : Memory) (p : Ptr) (xs : List Ptr) (q : Ptr)
    → Chain m p xs q
    → has (m q).prev (p ∷ xs) ≡ true
prev-mem m p [] q c = ground arith
prev-mem m p (x ∷ xs) q c = ground (arith, prev-mem m x xs q c.1)

pub next-mem :
    (m : Memory) (p : Ptr) (xs : List Ptr) (q : Ptr)
    → Chain m p xs q
    → has (m p).next (q ∷ xs) ≡ true
next-mem m p [] q c = ground arith
next-mem m p (x ∷ xs) q c = ground arith

-- A header added before `q` ends the chain to `q`.
pub add_prev-Chain :
    (m : Memory) (n p : Ptr) (xs : List Ptr) (q : Ptr)
    → Chain m p xs q
    → Distinct (p ∷ xs)
    → has q xs ≡ false
    → has n (q ∷ p ∷ xs) ≡ false
    → Chain (add_prev n q m) p (xs ++ n ∷ []) q
unfolding add_prev
add_prev-Chain m n p [] q c d out fresh = ground arith
add_prev-Chain m n p (x ∷ xs) q c d out fresh = (
  ground (arith, prev-mem m x xs q c.1),
  add_prev-Chain m n x xs q c.1 d.1 (ground arith) (ground arith),
)

-- With the first header `x` of the rest taken out, the chain leads past it.
first_gone :
    (m : Memory) (p x : Ptr) (ys : List Ptr) (q : Ptr)
    → Link m p x
    → Chain m x ys q
    → Distinct (x ∷ ys)
    → has q (x ∷ ys) ≡ false
    → has p (x ∷ ys) ≡ false
    → Chain (del x m) p ys q
unfolding del
first_gone m p x [] q l c d out pout = ground arith
first_gone m p x (y ∷ ys) q l c d out pout =
    (ground arith, Chain-frame m (del x m) y ys q (ground arith) (ground arith) c.1)

-- A header taken out of the middle leaves the others linked in their order.
pub del-Chain :
    (m : Memory) (p : Ptr) (xs : List Ptr) (x : Ptr) (ys : List Ptr) (q : Ptr)
    → Chain m p xs x
    → Chain m x ys q
    → Distinct (p ∷ xs ++ x ∷ ys)
    → has q (xs ++ x ∷ ys) ≡ false
    → Chain (del x m) p (xs ++ ys) q
unfolding del
del-Chain m p [] x ys q c e d out = first_gone m p x ys q c e d.1 out d.0
del-Chain m p (a ∷ xs) x ys q c e d out = (
  ground (
    arith,
    prev-mem m a xs x c.1,
    next-mem m x ys q e,
    has-append p xs (x ∷ ys),
    has-append a xs (x ∷ ys),
    has-append q xs (x ∷ ys),
  ),
  del-Chain m a xs x ys q c.1 e d.1 (ground arith),
)

pub Chain-split :
    (m : Memory) (p : Ptr) (xs : List Ptr) (x : Ptr) (ys : List Ptr) (q : Ptr)
    → Chain m p (xs ++ x ∷ ys) q
    → Chain m p xs x × Chain m x ys q
Chain-split m p [] x ys q c = c
Chain-split m p (a ∷ xs) x ys q c = ground (arith, Chain-split m a xs x ys q c.1)
