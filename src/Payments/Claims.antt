-- ===== src/Payments/Claims.antt =====
-- The rows of webhook events under `claim`, `finish` and `record_failed_event`.
use fast_api_e_commerce.Prelude.{
  ℕ, ◌≡◌, true, false, none, some, List, [], ◌∷◌, arith, Option-cases, is_some, inl, inr,
}
use fast_api_e_commerce.Payments.Rows.{
  RowStatus, is_failed, WebhookRow, claim, finish, record_failed_event,
}

pub claim-finish :
    (rows : List WebhookRow) (p i : ℕ) (st : RowStatus) (rows' : List WebhookRow)
    → is_failed st ≡ false
    → claim p i rows ≡ some rows'
    → claim p i (finish p i st rows') ≡ none
unfolding claim finish
claim-finish [] p i st rows' h e = ground arith
claim-finish (w ∷ ws) p i st rows' h e = elim (Option-cases (claim p i ws)) [
  | inl n ↦ ground arith
  | inr (r, n) ↦ let ih = claim-finish ws p i st r h n in ground arith
]

pub claim-none-claim :
    (rows : List WebhookRow) (p i q j : ℕ) (rows' : List WebhookRow)
    → claim q j rows ≡ some rows'
    → claim p i rows ≡ none
    → claim p i rows' ≡ none
unfolding claim
claim-none-claim [] p i q j rows' e h = absurd (ground arith)
claim-none-claim (w ∷ ws) p i q j rows' e h = elim (Option-cases (claim q j ws)) [
  | inl n ↦ ground arith
  | inr (r, n) ↦ ground (arith, claim-none-claim ws p i q j r n)
]

pub finish-claim-none :
    (rows : List WebhookRow) (p i q j : ℕ) (st : RowStatus)
    → is_failed st ≡ false
    → claim p i rows ≡ none
    → claim p i (finish q j st rows) ≡ none
unfolding claim finish
finish-claim-none [] p i q j st f h = h
finish-claim-none (w ∷ ws) p i q j st f h = ground (arith, finish-claim-none ws p i q j st f)

pub record_failed-claim-none :
    (rows : List WebhookRow) (p i q j : ℕ)
    → claim p i rows ≡ none
    → claim p i (record_failed_event q j rows) ≡ none
unfolding claim record_failed_event
record_failed-claim-none [] p i q j h = absurd (ground arith)
record_failed-claim-none (w ∷ ws) p i q j h = ground (arith, record_failed-claim-none ws p i q j)

pub record_failed-claim :
    (rows : List WebhookRow) (p j : ℕ) (rows' : List WebhookRow)
    → claim p j rows ≡ some rows'
    → is_some (claim p j (record_failed_event p j rows)) ≡ true
unfolding claim record_failed_event
record_failed-claim [] p j rows' h = ground arith
record_failed-claim (w ∷ ws) p j rows' h = elim (Option-cases (claim p j ws)) [
  | inl n ↦ ground arith
  | inr (r, n) ↦ ground (arith, record_failed-claim ws p j r n)
]
