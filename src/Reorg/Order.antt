-- ===== src/Reorg/Order.antt =====
-- The order of the blocks by number: sorted, and with the same members.
use safe_transaction_service.Common.{
  ℕ, ◌≤◌, ◌⊎◌, inl, inr, List, [], ◌∷◌, arith, leb, All, Any, Bool-cases, leb→le,
}
use safe_transaction_service.Reorg.Database.{Block}
use safe_transaction_service.Reorg.Check.{insert_by_number, order_by_number}

abbrev pub IsOrdered : List Block → Type 0
IsOrdered [] = Unit
IsOrdered (b ∷ bs) = All (λ x. b.number ≤ x.number) bs × IsOrdered bs

module _ (P : Block → Type 0) where
  All-insert : (b : Block) (bs : List Block) → P b → All P bs → All P (insert_by_number b bs)
  unfolding insert_by_number
  All-insert b [] p h = (p, tt)
  All-insert b (x ∷ xs) p h = elim (Bool-cases (leb b.number x.number)) [
    | inl t ↦ rw t (p, h)
    | inr t ↦ rw t (h.0, All-insert b xs p h.1)
  ]

  All-of-insert : (b : Block) (bs : List Block) → All P (insert_by_number b bs) → P b × All P bs
  unfolding insert_by_number
  All-of-insert b [] h = h
  All-of-insert b (x ∷ xs) h = elim (Bool-cases (leb b.number x.number)) [
    | inl t ↦ rw t at h
    | inr t ↦ let h' = (rw t at h) in let (p, rest) = All-of-insert b xs h'.1 in (p, (h'.0, rest))
  ]

  pub All-order : (bs : List Block) → All P bs → All P (order_by_number bs)
  unfolding order_by_number
  All-order [] h = tt
  All-order (b ∷ bs) h = All-insert b (order_by_number bs) h.0 (All-order bs h.1)

  pub All-of-order : (bs : List Block) → All P (order_by_number bs) → All P bs
  unfolding order_by_number
  All-of-order [] h = tt
  All-of-order (b ∷ bs) h =
      let (p, rest) = All-of-insert b (order_by_number bs) h in (p, All-of-order bs rest)

  Any-of-insert : (b : Block) (bs : List Block) → Any P (insert_by_number b bs) → P b ⊎ Any P bs
  unfolding insert_by_number
  Any-of-insert b [] h = h
  Any-of-insert b (x ∷ xs) h = elim (Bool-cases (leb b.number x.number)) [
    | inl t ↦ rw t at h
    | inr t ↦ elim (let k : P x ⊎ Any P (insert_by_number b xs) = (rw t at h) in k) [
      | inl p ↦ inr (inl p)
      | inr rest ↦ elim (Any-of-insert b xs rest) [ inl p ↦ inl p | inr q ↦ inr (inr q) ]
    ]
  ]

  pub Any-of-order : (bs : List Block) → Any P (order_by_number bs) → Any P bs
  unfolding order_by_number
  Any-of-order [] h = h
  Any-of-order (b ∷ bs) h = elim (Any-of-insert b (order_by_number bs) h) [
    | inl p ↦ inl p
    | inr rest ↦ inr (Any-of-order bs rest)
  ]

All-weaken :
    (m n : ℕ) (bs : List Block) → m ≤ n → All (λ x. n ≤ x.number) bs → All (λ x. m ≤ x.number) bs
All-weaken m n [] h k = tt
All-weaken m n (b ∷ bs) h k = (omega arith, All-weaken m n bs h k.1)

insert-IsOrdered : (b : Block) (bs : List Block) → IsOrdered bs → IsOrdered (insert_by_number b bs)
unfolding insert_by_number
insert-IsOrdered b [] h = (tt, tt)
insert-IsOrdered b (x ∷ xs) h = elim (Bool-cases (leb b.number x.number)) [
  | inl t ↦
      let le = leb→le b.number x.number t in rw t ((le, All-weaken b.number x.number xs le h.0), h)
  | inr t ↦
      let le : x.number ≤ b.number = ground arith in
      rw t (All-insert (λ y. x.number ≤ y.number) b xs le h.0, insert-IsOrdered b xs h.1)
]

pub order-IsOrdered : (bs : List Block) → IsOrdered (order_by_number bs)
unfolding order_by_number
order-IsOrdered [] = tt
order-IsOrdered (b ∷ bs) = insert-IsOrdered b (order_by_number bs) (order-IsOrdered bs)
