-- ===== src/LinkedList.antt =====
-- src/list.c and list.h: circular doubly linked lists through headers that stand inside the
-- listed structures. Memory is a total map from addresses to headers; a list is the address of
-- its own header with the offset of the header inside a listed structure.
pub mod Ring
pub mod Ops
mod Tests
use marimba.Base.{
  ℕ, zero, suc, ◌+◌, ◌-◌, ◌%◌, ◌^◌, List, [], ◌∷◌, Option, none, some, Bool, ◌==◌, if◌then◌else◌,
}

abbrev pub Ptr : Type 0
Ptr = ℕ

abbrev pub null : Ptr
null = 0

pub record ListHeader : Type 0 where
  pub next : Ptr
  pub prev : Ptr

abbrev pub Memory : Type 0
Memory = Ptr → ListHeader

-- `head` is the address of the list's own header.
pub record LinkedList : Type 0 where
  pub head : Ptr
  pub head_offset : ℕ

-- `p->next = v` and `p->prev = v`
abbrev pub set_next : Ptr → Ptr → Memory → Memory
set_next p v m a = if a == p then record (m a) { next = v } else m a

abbrev pub set_prev : Ptr → Ptr → Memory → Memory
set_prev p v m a = if a == p then record (m a) { prev = v } else m a

-- `LL_nhead` and `LL_ndata`: between a structure and the header inside it, on 64-bit addresses.
abbrev pub nhead : LinkedList → Ptr → Ptr
nhead list d = (d + list.head_offset) % 2 ^ 64

abbrev pub ndata : LinkedList → Ptr → Ptr
ndata list p = (p + 2 ^ 64 - list.head_offset) % 2 ^ 64

unfoldable pub ll_add : (new prev next : Ptr) → Memory → Memory
ll_add new prev next m =
    set_prev next new (set_next prev new (set_prev new prev (set_next new next m)))

unfoldable pub ll_del : (del prev next : Ptr) → Memory → Memory
ll_del del prev next m =
    let m1 = set_next prev (m del).next m in
    let m2 = set_prev next (m1 del).prev m1 in set_prev del null (set_next del null m2)

unfoldable pub is_empty : LinkedList → Memory → Bool
is_empty list m = (m list.head).next == list.head

unfoldable pub next_of : LinkedList → Ptr → Memory → Ptr
unfolding is_empty
next_of list curr m =
    if is_empty list m
    then null
    else if (m (nhead list curr)).next == list.head
    then ndata list (m list.head).next
    else ndata list (m (nhead list curr)).next

unfoldable pub head_of : LinkedList → Memory → Ptr
unfolding is_empty
head_of list m = if is_empty list m then null else ndata list (m list.head).next

unfoldable pub add : (new cur : Ptr) → Memory → Memory
unfolding ll_add
add new cur m = ll_add new cur (m cur).next m

unfoldable pub del : Ptr → Memory → Memory
unfolding ll_del
del p m = ll_del p (m p).prev (m p).next m

unfoldable pub add_prev : (new cur : Ptr) → Memory → Memory
unfolding ll_add
add_prev new cur m = ll_add new (m cur).prev cur m

unfoldable pub append : LinkedList → Ptr → Memory → Memory
unfolding add_prev
append list d m = add_prev (nhead list d) list.head m

unfoldable pub enqueue : LinkedList → Ptr → Memory → Memory
unfolding append
enqueue list d m = append list d m

-- The removed structure, or null; and the memory after it.
unfoldable pub dequeue : LinkedList → Memory → Ptr × Memory
unfolding is_empty del
dequeue list m =
    if is_empty list m then (null, m) else let p = (m list.head).next in (ndata list p, del p m)

unfoldable pub init : (head : Ptr) (head_offset : ℕ) → Memory → LinkedList × Memory
init h offset m = (record { head = h; head_offset = offset }, set_prev h h (set_next h h m))

-- `LL_for_each`: the structures that the loop visits from the header `p` on; `none` when the fuel
-- runs out.
for_each_from : ℕ → LinkedList → Ptr → Memory → Option (List Ptr)
for_each_from zero list p m = none
for_each_from (suc fuel) list p m =
    let rest = for_each_from fuel list (m p).next m in
    if p == list.head
    then some []
    else elim rest [ none ↦ none | some ds ↦ some (ndata list p ∷ ds) ]

unfoldable pub for_each : ℕ → LinkedList → Memory → Option (List Ptr)
unfolding for_each_from
for_each fuel list m = for_each_from fuel list (m list.head).next m
