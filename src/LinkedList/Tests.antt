-- ===== src/LinkedList/Tests.antt =====
-- A list of two structures, with the operations of list.c run and their theorems applied to it.
use marimba.Base.{List, ◌⊎◌, ◌==◌, if◌then◌else◌, refl, arith, some, ◌∷◌, ◌≡◌}
use marimba.LinkedList.{
  ndata, ℕ, next_of, [], LinkedList, Memory, ListHeader, append, dequeue, for_each, del,
}
use marimba.LinkedList.Ring.{SameOutside}
use marimba.LinkedList.Ops.{
  Holds, append-Holds, del-Holds, dequeue-Holds, for_each_lem, next_of_lem,
}

abbrev list : LinkedList
list = record { head = 1000; head_offset = 16 }

abbrev header : ℕ → ℕ → ListHeader
header n p = record { next = n; prev = p }

abbrev memory : Memory
memory a =
    if a == 1000
    then header 2000 3000
    else if a == 2000
    then header 3000 1000
    else if a == 3000
    then header 1000 2000
    else header 7 7

abbrev empty_memory : Memory
empty_memory a = if a == 1000 then header 1000 1000 else header 7 7

memory-Holds : Holds memory list (2000 ∷ 3000 ∷ [])
memory-Holds = ground arith

empty_memory-Holds : Holds empty_memory list []
empty_memory-Holds = ground arith

visits : for_each 4 list (append list 3984 memory) ≡ some (1984 ∷ 2984 ∷ 3984 ∷ [])
unfolding for_each append
visits = refl

first : (dequeue list memory).0 ≡ 1984
unfolding dequeue
first = refl

append-Holds_example :
    Holds (append list 3984 memory) list (2000 ∷ 3000 ∷ 4000 ∷ [])
    × SameOutside (4000 ∷ 1000 ∷ 2000 ∷ 3000 ∷ []) memory (append list 3984 memory)
append-Holds_example = append-Holds memory list (2000 ∷ 3000 ∷ []) 3984 memory-Holds refl

del-Holds_example :
    Holds (del 2000 memory) list (3000 ∷ [])
    × (del 2000 memory 2000 ≡ header 0 0)
    × SameOutside (1000 ∷ 2000 ∷ 3000 ∷ []) memory (del 2000 memory)
del-Holds_example = del-Holds memory list [] 2000 (3000 ∷ []) memory-Holds

abbrev two : List ℕ
two = 2000 ∷ 3000 ∷ []

dequeue-Holds_example :
    let (d, m') = dequeue list memory in
    ((two ≡ []) × (d ≡ 0) × (m' ≡ memory))
    ⊎ ((x : ℕ) × (rest : List ℕ) × (two ≡ x ∷ rest)
        × (d ≡ ndata list x)
        × Holds m' list rest
        × SameOutside (1000 ∷ x ∷ rest) memory m')
dequeue-Holds_example = dequeue-Holds memory list two memory-Holds

for_each_lem_example : for_each 3 list memory ≡ some (1984 ∷ 2984 ∷ [])
for_each_lem_example = for_each_lem 3 list (2000 ∷ 3000 ∷ []) memory memory-Holds (omega arith)

next_of_lem_example : next_of list 2984 memory ≡ 1984
next_of_lem_example =
    next_of_lem memory list (2000 ∷ []) 3000 [] memory-Holds (omega arith) (omega arith)
