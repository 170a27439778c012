-- ===== src/Returns/Runs.antt =====
-- Sequences of the calls on returns, with any other transactions in between, and what holds after them:
-- how a return goes through its statuses, and how much of a line is claimed back.
use fast_api_e_commerce.Prelude.{
  ℕ, ◌≤◌, Bool, true, false, not, none, some, List, [], ◌∷◌, ok, ◌≡◌, refl, sym, ap, ◌∙◌, arith,
  ◌==◌, if◌then◌else◌, find, ltb, raise_if, length, ◌||◌, same_key, bind_ok, inl, inr, Bool-cases,
  ==_iff,
}
use fast_api_e_commerce.Orders.Types.{Order}
use fast_api_e_commerce.Lifecycle.Db.{Db}
use fast_api_e_commerce.Returns.{
  ReturnStatus, requested, approved, rejected, received, closed, cancelled, Resolution,
  ReturnRequest, ReturnLine, Store, Env, quantity_of, put_return, lock_order, check_eligibility,
  check_lines, are_valid, new_return, create, cancel, approve, reject, close, order_not_found,
  invalid_payload,
}
use fast_api_e_commerce.Returns.Receipts.{Arrival, receive, refund}
use fast_api_e_commerce.Returns.Changes.{
  allowed_change, purchased, IsKeyed, Changed, cancel-Changed, approve-Changed, reject-Changed,
  close-Changed,
}
use fast_api_e_commerce.Returns.Received.{receive-Changed, refund-Changed}

-- What other transactions do with the rows of the shop is any change that takes nothing from what was
-- bought of a line. The id of a new return is one that no return has.
pub data Run : Store → Store → Type 0 where
  start : {a : Store} → Run a a
  then_create :
      {a b c : Store} (env : Env) (new_id user_id order_id : ℕ) (lines : List ReturnLine)
      → find (λ r. r.id == new_id) b.returns ≡ none
      → Run a b
      → create env new_id user_id order_id lines b ≡ ok c
      → Run a c
  then_cancel : {a b c : Store} (user_id id : ℕ) → Run a b → cancel user_id id b ≡ ok c → Run a c
  then_approve : {a b c : Store} (id : ℕ) → Run a b → approve id b ≡ ok c → Run a c
  then_reject : {a b c : Store} (id : ℕ) → Run a b → reject id b ≡ ok c → Run a c
  then_receive :
      {a b c : Store} (id : ℕ) (arrivals : List Arrival)
      → Run a b
      → receive id arrivals b ≡ ok c
      → Run a c
  then_refund : {a b c : Store} (id : ℕ) → Run a b → refund id b ≡ ok c → Run a c
  then_close :
      {a b c : Store} (id : ℕ) (resolution : Resolution)
      → Run a b
      → close id resolution b ≡ ok c
      → Run a c
  then_other :
      {a b c : Store} (db : Db)
      → ((order_id line : ℕ) → purchased order_id line b.db ≤ purchased order_id line db)
      → IsKeyed db
      → Run a b
      → record b { db = db } ≡ c
      → Run a c

-- any number of allowed changes
abbrev pub reaches : ReturnStatus → ReturnStatus → Bool
reaches requested _ = true
reaches approved requested = false
reaches approved rejected = false
reaches approved _ = true
reaches received received = true
reaches received closed = true
reaches rejected rejected = true
reaches closed closed = true
reaches cancelled cancelled = true
reaches _ _ = false

reaches_then :
    (a b c : ReturnStatus) → reaches a b ≡ true → allowed_change b c ≡ true → reaches a c ≡ true
reaches_then a b c h k = ground arith

reaches_refl : (a : ReturnStatus) → reaches a a ≡ true
reaches_refl a = ground arith

-- the return of that id now, against what it was
pub record IsLater (r r' : ReturnRequest) : Type 0 where
  pub order_id : r'.order_id ≡ r.order_id
  pub user_id : r'.user_id ≡ r.user_id
  pub status : reaches r.status r'.status ≡ true
  pub items : (line : ℕ) → quantity_of line r'.items ≡ quantity_of line r.items

find-put_return :
    (id : ℕ) (rs : List ReturnRequest) (r q : ReturnRequest)
    → find (λ x. x.id == id) rs ≡ some r
    → find (λ x. x.id == id) (put_return q rs) ≡ some (if id == q.id then q else r)
find-put_return id [] r q e = absurd (ground arith)
find-put_return id (x ∷ xs) r q e = ground (arith, find-put_return id xs r q)

same_found :
    (id j : ℕ) (rs : List ReturnRequest) (p q : ReturnRequest)
    → id ≡ j
    → find (λ x. x.id == j) rs ≡ some p
    → find (λ x. x.id == id) rs ≡ some q
    → p ≡ q
same_found id j rs p q h e f = ground arith

Changed-IsLater :
    (id : ℕ) (r r' : ReturnRequest) (s s' : Store)
    → Changed s s'
    → find (λ x. x.id == id) s.returns ≡ some r'
    → IsLater r r'
    → (q : ReturnRequest) × (find (λ x. x.id == id) s'.returns ≡ some q) × IsLater r q
Changed-IsLater id r r' s s' c f l =
    let p = find-put_return id s.returns r' c.after f in
    let e = c.returns in
    let i = c.id in
    elim (Bool-cases (id == c.before.id)) [
      | inr n ↦ (r', ground arith, l)
      | inl y ↦
          let g = c.found in
          let h : c.before ≡ r' =
            same_found id c.before.id s.returns c.before r' ((==_iff id c.before.id).0 y) g f in
          (
            c.after,
            ground arith,
            record {
              order_id = c.order_id ∙ ap (λ x. x.order_id) h ∙ l.order_id;
              user_id = c.user_id ∙ ap (λ x. x.user_id) h ∙ l.user_id;
              status =
                  reaches_then r.status r'.status c.after.status l.status
                    (let t = c.status in rw h at t);
              items = λ line. c.items line ∙ ap (λ x. quantity_of line x.items) h ∙ l.items line;
            },
          )
    ]

pub create_ok :
    (env : Env) (new_id user_id order_id : ℕ) (lines : List ReturnLine) (s s' : Store)
    → create env new_id user_id order_id lines s ≡ ok s'
    → (o : Order) × (s.db.orders order_id ≡ some o)
      × (are_valid lines ≡ true)
      × (check_lines o s lines ≡ ok tt)
      × (s' ≡ record s { returns = new_return new_id user_id o.id lines ∷ s.returns })
unfolding create
create_ok env new_id user_id order_id lines s s' e =
    let (_, v, e1) =
      bind_ok
        (raise_if (length lines == 0 || ltb 50 (length lines) || not (are_valid lines))
          invalid_payload)
        _ e in
    let (o, l, e2) = bind_ok (lock_order order_id s) _ e1 in
    let (_, _, e3) =
      bind_ok (raise_if (not (same_key o.user_id (some user_id))) order_not_found) _ e2 in
    let (_, _, e4) = bind_ok (check_eligibility env o s) _ e3 in
    let (_, k, e5) = bind_ok (check_lines o s lines) _ e4 in
    (o, ground arith, ground arith, k, ground arith)

pub Run-IsKeyed : {a b : Store} → IsKeyed a.db → Run a b → IsKeyed b.db
Run-IsKeyed k start = k
Run-IsKeyed k (then_create {b = b} {c = c} env n u i lines f r e) =
    let (_, _, _, _, q) = create_ok env n u i lines b c e in rw q (Run-IsKeyed k r)
Run-IsKeyed k (then_cancel {b = b} {c = c} u i r e) =
    (cancel-Changed u i b c e).keyed (Run-IsKeyed k r)
Run-IsKeyed k (then_approve {b = b} {c = c} i r e) =
    (approve-Changed i b c e).keyed (Run-IsKeyed k r)
Run-IsKeyed k (then_reject {b = b} {c = c} i r e) = (reject-Changed i b c e).keyed (Run-IsKeyed k r)
Run-IsKeyed k (then_receive {b = b} {c = c} i l r e) =
    (receive-Changed i l b c (Run-IsKeyed k r) e).keyed (Run-IsKeyed k r)
Run-IsKeyed k (then_refund {b = b} {c = c} i r e) = (refund-Changed i b c e).keyed (Run-IsKeyed k r)
Run-IsKeyed k (then_close {b = b} {c = c} i x r e) =
    (close-Changed i x b c e).keyed (Run-IsKeyed k r)
Run-IsKeyed k (then_other {b = b} {c = c} db p z r e) = λ i o h. ground (arith, z i o)

-- the return of that id is there, later than r
abbrev pub IsStill : ℕ → ReturnRequest → Store → Type 0
IsStill id r s = (q : ReturnRequest) × (find (λ x. x.id == id) s.returns ≡ some q) × IsLater r q

step-IsStill :
    (id : ℕ) (r : ReturnRequest) (s s' : Store) → Changed s s' → IsStill id r s → IsStill id r s'
step-IsStill id r s s' c (q, f, l) = Changed-IsLater id r q s s' c f l

create-IsStill :
    (id new_id : ℕ) (r n : ReturnRequest) (s s' : Store)
    → find (λ x. x.id == new_id) s.returns ≡ none
    → n.id ≡ new_id
    → s' ≡ record s { returns = n ∷ s.returns }
    → IsStill id r s
    → IsStill id r s'
create-IsStill id new_id r n s s' f i e (q, g, l) = elim (Bool-cases (n.id == id)) [
  | inl y ↦ absurd (ground arith)
  | inr y ↦ (q, ground arith, l)
]

-- A return that is there is never lost over a run that starts with orders under their own ids: it keeps
-- its order, its customer and the quantities of its lines, and its status is one that the drawn changes
-- lead to, so a rejected, closed or cancelled return stays so.
pub Run-IsStill :
    (id : ℕ) (r : ReturnRequest) {a b : Store}
    → find (λ x. x.id == id) a.returns ≡ some r
    → IsKeyed a.db
    → Run a b
    → IsStill id r b
Run-IsStill id r f k start = (
  r,
  f,
  record { order_id = refl; user_id = refl; status = reaches_refl r.status; items = λ _. refl },
)
Run-IsStill id r f k (then_create {b = b} {c = c} env n u i lines g t e) =
    let (o, _, _, _, q) = create_ok env n u i lines b c e in
    create-IsStill id n r (new_return n u o.id lines) b c g refl q (Run-IsStill id r f k t)
Run-IsStill id r f k (then_cancel {b = b} {c = c} u i t e) =
    step-IsStill id r b c (cancel-Changed u i b c e) (Run-IsStill id r f k t)
Run-IsStill id r f k (then_approve {b = b} {c = c} i t e) =
    step-IsStill id r b c (approve-Changed i b c e) (Run-IsStill id r f k t)
Run-IsStill id r f k (then_reject {b = b} {c = c} i t e) =
    step-IsStill id r b c (reject-Changed i b c e) (Run-IsStill id r f k t)
Run-IsStill id r f k (then_receive {b = b} {c = c} i l t e) =
    step-IsStill id r b c (receive-Changed i l b c (Run-IsKeyed k t) e) (Run-IsStill id r f k t)
Run-IsStill id r f k (then_refund {b = b} {c = c} i t e) =
    step-IsStill id r b c (refund-Changed i b c e) (Run-IsStill id r f k t)
Run-IsStill id r f k (then_close {b = b} {c = c} i x t e) =
    step-IsStill id r b c (close-Changed i x b c e) (Run-IsStill id r f k t)
Run-IsStill id r f k (then_other {b = b} {c = c} db p z t e) =
    let (q, g, l) = Run-IsStill id r f k t in
    (q, sym (ap (λ x. find (λ y. y.id == id) x.returns) e) ∙ g, l)
