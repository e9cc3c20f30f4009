-- ===== src/Fs/Chars.antt =====
-- The lists of src/fs.c as they start: `files.chars` is initialised with the header of `files.blocks`.
use marimba.Base.{
  ap₂, ℕ, suc, ◌≡◌, ◌≢◌, sym, ap, ◌∙◌, true, false, some, [], ◌∷◌, arith, ◌==◌, if◌then◌else◌,
}
use marimba.LinkedList.{
  Ptr, Memory, LinkedList, nhead, ndata, enqueue, append, add_prev, ll_add, for_each,
}

-- `.chars = LINKED_LIST_INIT(files.blocks, …)`: both headers lead to that of `files.blocks`.
pub record IsInit (blocks chars : LinkedList) (m : Memory) : Type 0 where
  pub of_blocks : m blocks.head ≡ record { next = blocks.head; prev = blocks.head }
  pub of_chars : m chars.head ≡ record { next = blocks.head; prev = blocks.head }

ll_add-next :
    (new prev next x : Ptr) (m : Memory)
    → (ll_add new prev next m x).next
      ≡ (if x == prev then new else if x == new then next else (m x).next)
unfolding ll_add
ll_add-next new prev next x m = ground arith

ll_add-prev :
    (new prev next x : Ptr) (m : Memory)
    → x ≢ new
    → (ll_add new prev next m x).prev ≡ (if x == next then new else (m x).prev)
unfolding ll_add
ll_add-prev new prev next x m other = ground arith

visits_two :
    (fuel : ℕ) (list : LinkedList) (p q : Ptr) (m : Memory)
    → (m list.head).next ≡ p
    → (m p).next ≡ q
    → (m q).next ≡ list.head
    → p ≢ list.head
    → q ≢ list.head
    → for_each (suc (suc (suc fuel))) list m ≡ some (ndata list p ∷ ndata list q ∷ [])
unfolding for_each
visits_two fuel list p q m first second last p_other q_other =
    let p_goes : (p == list.head) ≡ false = ground arith in
    let q_goes : (q == list.head) ≡ false = ground arith in
    let stops : (list.head == list.head) ≡ true = ground arith in
    rw first (
      rw p_goes (
        rw second (
          rw q_goes (
            rw last (
              rw stops (
                ap₂ (λ a b. some (ndata list a ∷ ndata list b ∷ [])) first
                  (ap (λ x. (m x).next) first ∙ second)))))))

-- After a block device and then a character device are registered, a loop over the block devices does
-- not see the block device: it visits what it takes for devices at the character device and at the
-- header of `files.chars`.
pub for_each-enqueue_chars :
    (blocks chars : LinkedList) (d c : Ptr) (m : Memory) (fuel : ℕ)
    → IsInit blocks chars m
    → blocks.head ≢ chars.head
    → nhead blocks d ≢ blocks.head
    → nhead blocks d ≢ chars.head
    → nhead chars c ≢ blocks.head
    → nhead chars c ≢ chars.head
    → nhead chars c ≢ nhead blocks d
    → for_each (suc (suc (suc fuel))) blocks (enqueue chars c (enqueue blocks d m))
      ≡ some (ndata blocks (nhead chars c) ∷ ndata blocks chars.head ∷ [])
unfolding enqueue append add_prev
for_each-enqueue_chars blocks chars d c m fuel start bc db dc cb cc cd =
    let b = blocks.head in
    let h = chars.head in
    let hd = nhead blocks d in
    let hc = nhead chars c in
    let m1 = ll_add hd (m b).prev b m in
    let back : (m1 h).prev ≡ b =
      ground (arith, ll_add-prev hd (m b).prev b h m (λ e. dc (sym e)), start.of_chars) in
    let m2 = ll_add hc (m1 h).prev h m1 in
    let from_b : (m2 b).next ≡ hc = ground (arith, ll_add-next hc (m1 h).prev h b m1, back) in
    let from_c : (m2 hc).next ≡ h = ground (arith, ll_add-next hc (m1 h).prev h hc m1, back) in
    let on : (m1 h).next ≡ b =
      ground (arith, ll_add-next hd (m b).prev b h m, start.of_blocks, start.of_chars) in
    let from_h : (m2 h).next ≡ b = ground (arith, ll_add-next hc (m1 h).prev h h m1, back) in
    visits_two fuel blocks hc h m2 from_b from_c from_h cb (λ e. bc (sym e))
