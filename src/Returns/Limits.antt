-- ===== src/Returns/Limits.antt =====
-- Of no line of an order more is claimed back than was bought: `_used` against the order's quantities,
-- over any sequence of calls.
use fast_api_e_commerce.Prelude.{
  ℕ, ◌-◌, ◌≤◌, true, false, some, List, [], ◌∷◌, ok, ◌≡◌, refl, arith, ◌==◌, find, map, ltb, ==_iff,
  ap, sym, ◌∙◌, Bool-cases, Option-cases, inl, inr, ◌⊎◌,
}
use fast_api_e_commerce.Orders.Types.{Order, OrderItem}
use fast_api_e_commerce.Returns.{
  ReturnRequest, ReturnLine, Store, quantity_of, used, put_return, returnable, check_lines,
  are_valid, has_line, new_item, new_return,
}
use fast_api_e_commerce.Returns.Changes.{
  allowed_change, bought, purchased, IsKeyed, Changed, cancel-Changed, approve-Changed,
  reject-Changed, close-Changed,
}
use fast_api_e_commerce.Returns.Received.{receive-Changed, refund-Changed}
use fast_api_e_commerce.Returns.Runs.{
  Run, start, then_create, then_cancel, then_approve, then_reject, then_receive, then_refund,
  then_close, then_other, create_ok, Run-IsKeyed,
}

-- the quantities of the returns that count, of each line of each order
abbrev pub IsWithin : Store → Type 0
IsWithin s = (order_id line : ℕ) → used order_id line s.returns ≤ purchased order_id line s.db

quantity_of-no_line :
    (line : ℕ) (ls : List ReturnLine)
    → has_line line ls ≡ false
    → quantity_of line (map new_item ls) ≡ 0
quantity_of-no_line line [] h = refl
quantity_of-no_line line (l ∷ ls) h = ground (arith, quantity_of-no_line line ls)

find-bought :
    (line : ℕ) (is : List OrderItem) (i : OrderItem)
    → find (λ x. x.id == line) is ≡ some i
    → (i.id ≡ line) × (bought line is ≡ i.quantity)
find-bought line [] i e = absurd (ground arith)
find-bought line (x ∷ xs) i e = ground (arith, find-bought line xs i)

-- what checked lines ask for fits in what is left
lines_fit :
    (o : Order) (s : Store) (line : ℕ) (ls : List ReturnLine)
    → are_valid ls ≡ true
    → check_lines o s ls ≡ ok tt
    → (quantity_of line (map new_item ls) ≡ 0)
      ⊎ (quantity_of line (map new_item ls) ≤ bought line o.items - used o.id line s.returns)
unfolding are_valid check_lines
lines_fit o s line [] v c = inl refl
lines_fit o s line (l ∷ ls) v c =
    elim (Option-cases (find (λ i. i.id == l.order_item_id) o.items)) [
      | inl n ↦ absurd (ground arith)
      | inr (i, n) ↦
          let b = find-bought l.order_item_id o.items i n in
          let q : i.id ≡ l.order_item_id = b.0 in
          elim (Bool-cases (l.order_item_id == line)) [
            | inr d ↦ let ih = lines_fit o s line ls (ground arith) (ground arith) in ground arith
            | inl d ↦
                let z = quantity_of-no_line l.order_item_id ls (ground arith) in
                let e : l.order_item_id ≡ line = (==_iff l.order_item_id line).0 d in
                let f : ltb (returnable o.id s.returns i) l.quantity ≡ false = ground arith in
                let g : l.quantity ≤ returnable o.id s.returns i = ground arith in
                inr (ground (arith, ap (λ x. used o.id x s.returns) q))
          ]
    ]

used-put_return :
    (order_id line : ℕ) (rs : List ReturnRequest) (r r' : ReturnRequest)
    → find (λ x. x.id == r.id) rs ≡ some r
    → r'.id ≡ r.id
    → r'.order_id ≡ r.order_id
    → allowed_change r.status r'.status ≡ true
    → quantity_of line r'.items ≡ quantity_of line r.items
    → used order_id line (put_return r' rs) ≤ used order_id line rs
unfolding used
used-put_return order_id line [] r r' f i o a q = absurd (ground arith)
used-put_return order_id line (x ∷ xs) r r' f i o a q = elim (Bool-cases (x.id == r.id)) [
  | inr n ↦ let ih = used-put_return order_id line xs r r' in ground (arith, ih)
  | inl n ↦ let h : x ≡ r = ground arith in ground arith
]

Changed-IsWithin : (s s' : Store) → Changed s s' → IsWithin s → IsWithin s'
Changed-IsWithin s s' c w order_id line =
    let u =
      used-put_return order_id line s.returns c.before c.after c.found c.id c.order_id c.status
        (c.items line) in
    let k = c.kept order_id line in let e = c.returns in let b = w order_id line in ground arith

create-IsWithin :
    (new_id user_id : ℕ) (o : Order) (lines : List ReturnLine) (s s' : Store)
    → s.db.orders o.id ≡ some o
    → are_valid lines ≡ true
    → check_lines o s lines ≡ ok tt
    → s' ≡ record s { returns = new_return new_id user_id o.id lines ∷ s.returns }
    → IsWithin s
    → IsWithin s'
unfolding used
create-IsWithin new_id user_id o lines s s' h v c e w order_id line =
    let b = w order_id line in
    let f = lines_fit o s line lines v c in
    elim (Bool-cases (o.id == order_id)) [
      | inr n ↦ ground arith
      | inl n ↦
          let i : o.id ≡ order_id = (==_iff o.id order_id).0 n in
          let g : s.db.orders order_id ≡ some o = ap s.db.orders (sym i) ∙ h in
          let u = ap (λ x. used x line s.returns) i in ground arith
    ]

-- Of no line of an order more units stand in returns that are neither rejected nor cancelled than were
-- bought, after any sequence of calls, with any other transactions in between, if this holds at the
-- start and the orders stand under their own ids.
pub Run-IsWithin : {a b : Store} → IsKeyed a.db → IsWithin a → Run a b → IsWithin b
Run-IsWithin k w start = w
Run-IsWithin k w (then_create {b = b} {c = c} env n u i lines f t e) =
    let (o, h, v, l, q) = create_ok env n u i lines b c e in
    let j : o.id ≡ i = Run-IsKeyed k t i o h in
    create-IsWithin n u o lines b c (rw j h) v l q (Run-IsWithin k w t)
Run-IsWithin k w (then_cancel {b = b} {c = c} u i t e) =
    Changed-IsWithin b c (cancel-Changed u i b c e) (Run-IsWithin k w t)
Run-IsWithin k w (then_approve {b = b} {c = c} i t e) =
    Changed-IsWithin b c (approve-Changed i b c e) (Run-IsWithin k w t)
Run-IsWithin k w (then_reject {b = b} {c = c} i t e) =
    Changed-IsWithin b c (reject-Changed i b c e) (Run-IsWithin k w t)
Run-IsWithin k w (then_receive {b = b} {c = c} i l t e) =
    Changed-IsWithin b c (receive-Changed i l b c (Run-IsKeyed k t) e) (Run-IsWithin k w t)
Run-IsWithin k w (then_refund {b = b} {c = c} i t e) =
    Changed-IsWithin b c (refund-Changed i b c e) (Run-IsWithin k w t)
Run-IsWithin k w (then_close {b = b} {c = c} i x t e) =
    Changed-IsWithin b c (close-Changed i x b c e) (Run-IsWithin k w t)
Run-IsWithin k w (then_other {b = b} {c = c} db p z t e) =
    λ order_id line. ground (arith, Run-IsWithin k w t order_id line, p order_id line)
