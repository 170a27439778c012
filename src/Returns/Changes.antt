-- ===== src/Returns/Changes.antt =====
-- What a call does to a return that is there: the change of its status, which
-- app/modules/returns/models/return_request.py draws, and what stays.
use mathlib.Core.Path.{subst}
use fast_api_e_commerce.Prelude.{
  ℕ, Bool, true, false, none, some, List, [], ◌∷◌, ok, ◌≡◌, refl, sym, ap, arith, ◌==◌,
  if◌then◌else◌, find, Option-cases, bind_ok, inl, inr,
}
use fast_api_e_commerce.Orders.Types.{Order, OrderItem}
use fast_api_e_commerce.Lifecycle.Db.{Db}
use fast_api_e_commerce.Returns.{
  ReturnStatus, requested, approved, rejected, received, closed, cancelled, Resolution,
  ReturnRequest, Store, quantity_of, get_return, put_return, cancel, approve, reject, close,
}

abbrev pub allowed_change : ReturnStatus → ReturnStatus → Bool
allowed_change requested approved = true
allowed_change requested rejected = true
allowed_change requested cancelled = true
allowed_change approved received = true
allowed_change approved closed = true
allowed_change approved cancelled = true
allowed_change received closed = true
allowed_change _ _ = false

-- how many were bought of a line of an order
abbrev pub bought : ℕ → List OrderItem → ℕ
bought line [] = 0
bought line (i ∷ is) = if i.id == line then i.quantity else bought line is

abbrev pub purchased : ℕ → ℕ → Db → ℕ
purchased order_id line db = elim (db.orders order_id) [ none ↦ 0 | some o ↦ bought line o.items ]

abbrev pub IsKeyed : Db → Type 0
IsKeyed db = (id : ℕ) (o : Order) → db.orders id ≡ some o → o.id ≡ id

-- a call changes one return, in an allowed way, and of what was bought nothing
pub record Changed (s s' : Store) : Type 0 where
  pub before : ReturnRequest
  pub after : ReturnRequest
  pub found : find (λ r. r.id == before.id) s.returns ≡ some before
  pub returns : s'.returns ≡ put_return after s.returns
  pub id : after.id ≡ before.id
  pub order_id : after.order_id ≡ before.order_id
  pub user_id : after.user_id ≡ before.user_id
  pub status : allowed_change before.status after.status ≡ true
  pub items : (line : ℕ) → quantity_of line after.items ≡ quantity_of line before.items
  pub kept : (order_id line : ℕ) → purchased order_id line s'.db ≡ purchased order_id line s.db
  pub keyed : IsKeyed s.db → IsKeyed s'.db

find_id :
    (id : ℕ) (rs : List ReturnRequest) (r : ReturnRequest)
    → find (λ q. q.id == id) rs ≡ some r
    → r.id ≡ id
find_id id [] r e = absurd (ground arith)
find_id id (q ∷ qs) r e = ground (arith, find_id id qs r)

pub get_return_lem :
    (id : ℕ) (s : Store) (r : ReturnRequest)
    → get_return id s ≡ ok r
    → find (λ q. q.id == r.id) s.returns ≡ some r
get_return_lem id s r e = elim (Option-cases (find (λ q. q.id == id) s.returns)) [
  | inl n ↦ absurd (ground arith)
  | inr (q, n) ↦
      let h : q ≡ r = ground arith in
      let n' = rw h at n in
      let i = find_id id s.returns r n' in
      subst (λ x. find (λ q. q.id == x) s.returns ≡ some r) (sym i) n'
]

-- the calls that only change a status
status-Changed :
    (s s' : Store) (r r' : ReturnRequest)
    → find (λ q. q.id == r.id) s.returns ≡ some r
    → s' ≡ record s { returns = put_return r' s.returns }
    → r'.id ≡ r.id
    → r'.order_id ≡ r.order_id
    → r'.user_id ≡ r.user_id
    → r'.items ≡ r.items
    → allowed_change r.status r'.status ≡ true
    → Changed s s'
status-Changed s s' r r' f e i o u t a = record {
  before = r;
  after = r';
  found = f;
  returns = ap (λ x. x.returns) e;
  id = i;
  order_id = o;
  user_id = u;
  status = a;
  items = λ line. rw t refl;
  kept = λ order_id line. rw e refl;
  keyed = λ k. rw e k;
}

pub cancel-Changed : (user_id id : ℕ) (s s' : Store) → cancel user_id id s ≡ ok s' → Changed s s'
unfolding cancel
cancel-Changed user_id id s s' e =
    let (r, g, e1) = bind_ok (get_return id s) _ e in
    status-Changed s s' r (record r { status = cancelled }) (get_return_lem id s r g) (ground arith)
      refl refl refl refl (ground arith)

pub approve-Changed : (id : ℕ) (s s' : Store) → approve id s ≡ ok s' → Changed s s'
unfolding approve
approve-Changed id s s' e =
    let (r, g, e1) = bind_ok (get_return id s) _ e in
    status-Changed s s' r (record r { status = approved }) (get_return_lem id s r g) (ground arith)
      refl refl refl refl (ground arith)

pub reject-Changed : (id : ℕ) (s s' : Store) → reject id s ≡ ok s' → Changed s s'
unfolding reject
reject-Changed id s s' e =
    let (r, g, e1) = bind_ok (get_return id s) _ e in
    status-Changed s s' r (record r { status = rejected }) (get_return_lem id s r g) (ground arith)
      refl refl refl refl (ground arith)

pub close-Changed :
    (id : ℕ) (resolution : Resolution) (s s' : Store) → close id resolution s ≡ ok s' → Changed s s'
unfolding close
close-Changed id resolution s s' e =
    let (r, g, e1) = bind_ok (get_return id s) _ e in
    status-Changed s s' r (record r { status = closed; resolution = some resolution })
      (get_return_lem id s r g) (ground arith) refl refl refl refl (ground arith)
