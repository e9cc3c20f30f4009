-- ===== src/LinkedList/Ops.antt =====
-- What the operations of list.c do to the ring of a list.
use marimba.Base.{
  refl, inr, inl, ◌⊎◌, ap, ℕ, zero, suc, ◌^◌, ◌<◌, ◌≡◌, ◌≢◌, List, [], ◌∷◌, ◌++◌, some, false,
  arith, ◌==◌, has, Distinct, has-append, length, map,
}
use marimba.LinkedList.{
  Ptr, null, Memory, LinkedList, nhead, ndata, del, append, dequeue, init, next_of, for_each,
  for_each_from,
}
use marimba.LinkedList.Ring.{
  Chain, IsRing, SameOutside, add_prev-Chain, del-Chain, Chain-split, prev-mem, next-mem,
}

-- The list holds the structures whose headers are `xs`.
abbrev pub Holds : Memory → LinkedList → List Ptr → Type 0
Holds m list xs = IsRing m list.head xs

-- LL_init makes an empty list and writes only its header.
pub init-Holds :
    (m : Memory) (h offset : Ptr)
    → let (list, m') = init h offset m in Holds m' list [] × SameOutside (h ∷ []) m m'
unfolding init
init-Holds m h offset = ground arith

pub Distinct-append :
    (xs : List Ptr) (n : Ptr) → Distinct xs → has n xs ≡ false → Distinct (xs ++ n ∷ [])
Distinct-append [] n d h = ground arith
Distinct-append (x ∷ xs) n d h = ground (arith, Distinct-append xs n d.1, has-append x xs (n ∷ []))

-- LL_append (LL_enqueue): a structure whose header is not yet in the list becomes its last one, and
-- no header outside the list and the new one changes.
pub append-Holds :
    (m : Memory) (list : LinkedList) (xs : List Ptr) (d : Ptr)
    → Holds m list xs
    → has (nhead list d) (list.head ∷ xs) ≡ false
    → Holds (append list d m) list (xs ++ nhead list d ∷ [])
      × SameOutside (nhead list d ∷ list.head ∷ xs) m (append list d m)
unfolding append
append-Holds m list xs d r fresh = (
  record {
    chain =
        add_prev-Chain m n list.head xs list.head r.chain r.distinct (ground arith) (ground arith);
    distinct = ground (arith, Distinct-append xs n, has-append list.head xs (n ∷ []));
  },
  λ a out. others a out,
)
  where
    n : Ptr
    n = nhead list d

    others : (a : Ptr) → has a (n ∷ list.head ∷ xs) ≡ false → (append list d m) a ≡ m a
    others a out = ground (arith, prev-mem m list.head xs list.head r.chain)

Distinct-delete :
    (xs : List Ptr) (x : Ptr) (ys : List Ptr) → Distinct (xs ++ x ∷ ys) → Distinct (xs ++ ys)
Distinct-delete [] x ys d = d.1
Distinct-delete (a ∷ xs) x ys d =
    ground (arith, Distinct-delete xs x ys d.1, has-append a xs (x ∷ ys), has-append a xs ys)

-- LL_del: the header `x` leaves its list, the others keep their order, `x` points nowhere, and no
-- header outside the list changes.
pub del-Holds :
    (m : Memory) (list : LinkedList) (xs : List Ptr) (x : Ptr) (ys : List Ptr)
    → Holds m list (xs ++ x ∷ ys)
    → Holds (del x m) list (xs ++ ys)
      × (del x m x ≡ record { next = null; prev = null })
      × SameOutside (list.head ∷ xs ++ x ∷ ys) m (del x m)
unfolding del
del-Holds m list xs x ys r =
    let s = Chain-split m list.head xs x ys list.head r.chain in
    (
      record {
        chain = del-Chain m list.head xs x ys list.head s.0 s.1 r.distinct r.distinct.0;
        distinct = ground (
          arith,
          Distinct-delete (list.head ∷ xs) x ys,
          has-append list.head xs (x ∷ ys),
          has-append list.head xs ys,
        );
      },
      ground (arith),
      λ a out. ground (
        arith,
        prev-mem m list.head xs x s.0,
        next-mem m x ys list.head s.1,
        has-append a xs (x ∷ ys),
      ),
    )

dequeue_cons :
    (m : Memory) (list : LinkedList) (x : Ptr) (xs : List Ptr)
    → Holds m list (x ∷ xs)
    → let (d, m') = dequeue list m in
      (d ≡ ndata list x) × Holds m' list xs × SameOutside (list.head ∷ x ∷ xs) m m'
unfolding dequeue
dequeue_cons m list x xs r =
    let gone = del-Holds m list [] x xs r in
    let first : (m list.head).next ≡ x = r.chain.0.0 in
    let full : ((m list.head).next == list.head) ≡ false = ground arith in
    rw full (ap (ndata list) first, rw first gone.0, rw first gone.2)

dequeue_empty : (m : Memory) (list : LinkedList) → Holds m list [] → dequeue list m ≡ (null, m)
unfolding dequeue
dequeue_empty m list r = ground arith

-- LL_dequeue on a list that holds `xs`: if that is empty, it returns null and changes nothing; otherwise it returns the
-- first structure, the list holds the others in their order, and no other memory than the list's own changes.
pub dequeue-Holds :
    (m : Memory) (list : LinkedList) (xs : List Ptr)
    → Holds m list xs
    → let (d, m') = dequeue list m in
      ((xs ≡ []) × (d ≡ null) × (m' ≡ m))
      ⊎ ((x : Ptr) × (rest : List Ptr) × (xs ≡ x ∷ rest)
          × (d ≡ ndata list x)
          × Holds m' list rest
          × SameOutside (list.head ∷ x ∷ rest) m m')
dequeue-Holds m list [] r =
    let same = dequeue_empty m list r in inl (refl, ap (λ p. p.0) same, ap (λ p. p.1) same)
dequeue-Holds m list (x ∷ rest) r =
    let (first, holds, outside) = dequeue_cons m list x rest r in
    inr (x, rest, refl, first, holds, outside)

-- On 64-bit addresses the two translations between a structure and its header are inverse.
pub ndata-nhead :
    (list : LinkedList) (d : Ptr)
    → d < 2 ^ 64
    → list.head_offset < 2 ^ 64
    → ndata list (nhead list d) ≡ d
ndata-nhead list d h k = omega arith

pub nhead-ndata :
    (list : LinkedList) (p : Ptr)
    → p < 2 ^ 64
    → list.head_offset < 2 ^ 64
    → nhead list (ndata list p) ≡ p
nhead-ndata list p h k = omega arith

for_each_from-Chain :
    (fuel : ℕ) (list : LinkedList) (p : Ptr) (xs : List Ptr) (m : Memory)
    → Chain m p xs list.head
    → has list.head xs ≡ false
    → length xs < fuel
    → for_each_from fuel list (m p).next m ≡ some (map (ndata list) xs)
unfolding for_each_from
for_each_from-Chain zero list p xs m c out h = absurd (omega arith)
for_each_from-Chain (suc fuel) list p [] m c out h = ground arith
for_each_from-Chain (suc fuel) list p (x ∷ xs) m c out h =
    ground (arith, for_each_from-Chain fuel list x xs m c.1)

-- LL_for_each visits the structures of a list in their order, each once, and ends.
pub for_each_lem :
    (fuel : ℕ) (list : LinkedList) (xs : List Ptr) (m : Memory)
    → Holds m list xs
    → length xs < fuel
    → for_each fuel list m ≡ some (map (ndata list) xs)
unfolding for_each
for_each_lem fuel list xs m r h =
    for_each_from-Chain fuel list list.head xs m r.chain r.distinct.0 h

-- The structure that LL_next gives for the header `x` among `xs ++ x ∷ ys`: the one behind it,
-- and from the last one the first.
abbrev pub first_or : Ptr → List Ptr → Ptr
first_or d [] = d
first_or d (y ∷ ys) = y

next-Chain :
    (m : Memory) (p : Ptr) (xs : List Ptr) (q : Ptr) → Chain m p xs q → (m p).next ≡ first_or q xs
next-Chain m p [] q c = c.0
next-Chain m p (x ∷ xs) q c = c.0.0

-- The branches of LL_next, from where the two headers that it reads lead.
next_of_step :
    (m : Memory) (list : LinkedList) (x first : Ptr) (ys : List Ptr)
    → nhead list (ndata list x) ≡ x
    → (m list.head).next ≡ first
    → (m x).next ≡ first_or list.head ys
    → first ≢ list.head
    → has list.head ys ≡ false
    → next_of list (ndata list x) m ≡ ndata list (first_or first ys)
unfolding next_of
next_of_step m list x first [] e h n ne out = rw (e, n, h) (ground arith)
next_of_step m list x first (y ∷ ys) e h n ne out = rw (e, n, h) (ground arith)

first-ne : (l x : Ptr) (xs ys : List Ptr) → has l (xs ++ x ∷ ys) ≡ false → first_or x xs ≢ l
first-ne l x [] ys out = ground arith
first-ne l x (a ∷ xs) ys out = ground arith

-- LL_next goes from a structure to the one behind it, and from the last one round to the first.
pub next_of_lem :
    (m : Memory) (list : LinkedList) (xs : List Ptr) (x : Ptr) (ys : List Ptr)
    → Holds m list (xs ++ x ∷ ys)
    → x < 2 ^ 64
    → list.head_offset < 2 ^ 64
    → next_of list (ndata list x) m ≡ ndata list (first_or (first_or x xs) ys)
next_of_lem m list xs x ys r hx ho =
    let s = Chain-split m list.head xs x ys list.head r.chain in
    next_of_step m list x (first_or x xs) ys (nhead-ndata list x hx ho)
      (next-Chain m list.head xs x s.0) (next-Chain m x ys list.head s.1)
      (first-ne list.head x xs ys r.distinct.0)
      (ground (arith, r.distinct.0, has-append list.head xs (x ∷ ys)))
