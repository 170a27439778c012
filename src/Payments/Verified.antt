-- ===== src/Payments/Verified.antt =====
-- The verification of a webhook: whose secret an accepted event was signed with.
use mathlib.Core.List.{Memᴰ}
use fast_api_e_commerce.Prelude.{
  ℕ, Bool, true, false, Option, none, some, List, [], ◌∷◌, ◌++◌, Result, ok, err, ◌≡◌, ◌⊎◌, inl,
  inr, refl, arith, select, ◌==◌, not, if◌then◌else◌, ==_iff, Result-cases,
}
use fast_api_e_commerce.Payments.Rows.{Event}
use fast_api_e_commerce.Payments.Webhooks.{
  Config, Verifier, VerifyError, provider_not_configured, with_id, webhook_verifiers, try_verifiers,
  verify_webhook,
}

-- one of the configuration's own verifiers accepted the payload, and e is the event that it returned,
-- under that configuration's id and the provider's name
pub record SignedBy {A : Type 0} (name : ℕ) (x : A) (e : Event) (c : Config A) : Type 0 where
  pub verify : Verifier A
  pub parsed : Event
  pub own : (c.secret ≡ some verify) ⊎ (c.previous_secret ≡ some verify)
  pub accepts : verify x ≡ ok parsed
  pub event : e ≡ record parsed { provider = name; config_id = some c.id }

module _ {A : Type 0} (name : ℕ) (x : A) (e : Event) where
  try_with_id :
      (id : ℕ) (o : Option (Verifier A)) (rest : List (ℕ × Verifier A))
      → try_verifiers name x (with_id id o ++ rest) ≡ ok e
      → ((v : Verifier A) × (p : Event) × (o ≡ some v)
          × (v x ≡ ok p)
          × (e ≡ record p { provider = name; config_id = some id }))
        ⊎ (try_verifiers name x rest ≡ ok e)
  unfolding try_verifiers
  try_with_id id none rest h = inr h
  try_with_id id (some v) rest h = elim (Result-cases (v x)) [
    | inr (p, n) ↦ inl (v, p, refl, n, ground arith)
    | inl (y, n) ↦ inr (ground arith)
  ]

  webhook_verifiers-SignedBy :
      (cs : List (Config A))
      → try_verifiers name x (webhook_verifiers cs) ≡ ok e
      → (c : Config A) × Memᴰ c cs × SignedBy name x e c
  unfolding webhook_verifiers
  webhook_verifiers-SignedBy [] h = absurd (unfold try_verifiers in ground arith)
  webhook_verifiers-SignedBy (c ∷ cs) h =
      elim (try_with_id c.id c.secret (with_id c.id c.previous_secret ++ webhook_verifiers cs) h) [
        | inl (v, p, o, a, q) ↦ (
          c,
          Memᴰ.head refl,
          record { verify = v; parsed = p; own = inl o; accepts = a; event = q },
        )
        | inr h' ↦ elim (try_with_id c.id c.previous_secret (webhook_verifiers cs) h') [
          | inl (v, p, o, a, q) ↦ (
            c,
            Memᴰ.head refl,
            record { verify = v; parsed = p; own = inr o; accepts = a; event = q },
          )
          | inr h'' ↦ let (d, m, s) = webhook_verifiers-SignedBy cs h'' in (d, Memᴰ.tail m, s)
        ]
      ]

select_step :
    {A : Type 0} (b : Bool) (c d : A) (rest : List A)
    → Memᴰ c (elim b as (λ _. List A) [ true ↦ d ∷ rest | false ↦ rest ])
    → ((c ≡ d) × (b ≡ true)) ⊎ Memᴰ c rest
select_step false c d rest m = inr m
select_step true c d rest (Memᴰ.head q) = inl (q, refl)
select_step true c d rest (Memᴰ.tail m) = inr m

select-Memᴰ :
    {A : Type 0} (test : A → Bool) (c : A) (cs : List A)
    → Memᴰ c (select test cs)
    → Memᴰ c cs × (test c ≡ true)
select-Memᴰ test c [] m = elim m [ ]
select-Memᴰ test c (d ∷ ds) m = elim (select_step (test d) c d (select test ds) m) [
  | inl (q, t) ↦ (Memᴰ.head q, rw q t)
  | inr r ↦ let (n, t) = select-Memᴰ test c ds r in (Memᴰ.tail n, t)
]

verified :
    {A : Type 0} (env_name : ℕ) (env_verify : Verifier A) (name : ℕ) (x : A) (e : Event)
    (own : List (Config A))
    → (elim own as (λ _. Result VerifyError Event) [
      | c ∷ cs ↦ try_verifiers name x (webhook_verifiers (c ∷ cs))
      | [] ↦ if not (name == env_name) then err provider_not_configured else env_verify x
    ])
      ≡ ok e
    → ((c : Config A) × Memᴰ c own × SignedBy name x e c)
      ⊎ ((own ≡ []) × (name ≡ env_name) × (env_verify x ≡ ok e))
verified env_name env_verify name x e [] h = inr (refl, ground arith, ground arith)
verified env_name env_verify name x e (c ∷ cs) h =
    inl (webhook_verifiers-SignedBy name x e (c ∷ cs) h)

-- A webhook sent to a provider's name is accepted only if one of that provider's own stored
-- configurations verified it, by its secret or the one before, and then it is the event of that
-- configuration; or if the provider has no stored configuration and is that of the environment, which
-- verified it.
pub verify_webhook_sound :
    {A : Type 0} (configs : List (Config A)) (env_name : ℕ) (env_verify : Verifier A) (name : ℕ)
    (x : A) (e : Event)
    → verify_webhook configs env_name env_verify name x ≡ ok e
    → ((c : Config A) × Memᴰ c configs × (c.provider ≡ name) × SignedBy name x e c)
      ⊎ ((select (λ c. c.provider == name) configs ≡ [])
          × (name ≡ env_name)
          × (env_verify x ≡ ok e))
unfolding verify_webhook
verify_webhook_sound configs env_name env_verify name x e h =
    let test = λ (c : Config _). c.provider == name in
    elim (verified env_name env_verify name x e (select test configs) h) [
      | inr r ↦ inr r
      | inl (c, m, s) ↦
          let (n, t) = select-Memᴰ test c configs m in inl (c, n, (==_iff c.provider name).0 t, s)
    ]
