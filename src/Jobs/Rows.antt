-- ===== src/Jobs/Rows.antt =====
-- What the updates of single rows keep.
use fast_api_e_commerce.Prelude.{
  ℕ, suc, ◌+◌, ◌≤◌, ◌<◌, Bool, true, some, List, [], ◌∷◌, map, any, ◌≡◌, inl, inr, refl, arith,
  Option-cases, Bool-cases,
}
use fast_api_e_commerce.Jobs.{Job, is_due, next_due, on_row, before, is_picked}

abbrev pub sum_attempts : List Job → ℕ
sum_attempts [] = 0
sum_attempts (j ∷ js) = j.attempts + sum_attempts js

abbrev pub sum_max_attempts : List Job → ℕ
sum_max_attempts [] = 0
sum_max_attempts (j ∷ js) = j.max_attempts + sum_max_attempts js

-- no job has been tried more often than it may be
unfoldable pub WithinMax : List Job → Type 0
WithinMax [] = Unit
WithinMax (j ∷ js) = (j.attempts ≤ j.max_attempts) × WithinMax js

pub WithinMax-sum : (js : List Job) → WithinMax js → sum_attempts js ≤ sum_max_attempts js
unfolding WithinMax
WithinMax-sum [] w = omega arith
WithinMax-sum (j ∷ js) (a, w) = omega (arith, WithinMax-sum js w)

-- an update that keeps the attempts
pub on_row-kept :
    (p : Job → Bool) (f : Job → Job)
    → ((j : Job) → ((f j).attempts ≡ j.attempts) × ((f j).max_attempts ≡ j.max_attempts))
    → (js : List Job) → WithinMax js
    → (sum_attempts (on_row p f js) ≡ sum_attempts js) × WithinMax (on_row p f js)
unfolding on_row WithinMax
on_row-kept p f k [] w = (refl, tt)
on_row-kept p f k (j ∷ js) (a, w) =
    let (s, t) = on_row-kept p f k js w in let (x, y) = k j in (ground arith, ground arith)

pub map-kept :
    (f : Job → Job)
    → ((j : Job) → ((f j).attempts ≡ j.attempts) × ((f j).max_attempts ≡ j.max_attempts))
    → (js : List Job) → WithinMax js
    → (sum_attempts (map f js) ≡ sum_attempts js) × WithinMax (map f js)
unfolding WithinMax
map-kept f k [] w = (refl, tt)
map-kept f k (j ∷ js) (a, w) =
    let (s, t) = map-kept f k js w in let (x, y) = k j in (omega arith, (omega arith, t))

-- an update that adds an attempt, of a row that may have one more
pub on_row-more :
    (p : Job → Bool) (f : Job → Job)
    → ((j : Job) → ((f j).attempts ≡ suc j.attempts) × ((f j).max_attempts ≡ j.max_attempts))
    → ((j : Job) → p j ≡ true → j.attempts < j.max_attempts)
    → (js : List Job) → any p js ≡ true
    → WithinMax js
    → (sum_attempts (on_row p f js) ≡ suc (sum_attempts js)) × WithinMax (on_row p f js)
unfolding on_row WithinMax
on_row-more p f k less [] h w = absurd (ground arith)
on_row-more p f k less (j ∷ js) h (a, w) = elim (Bool-cases (p j)) [
  | inl e ↦ let (x, y) = k j in let l = less j e in (ground arith, ground arith)
  | inr e ↦ let (s, t) = on_row-more p f k less js (ground arith) w in (ground arith, ground arith)
]

picks_self : (now : ℕ) (j : Job) → is_due now j ≡ true → is_picked now j j ≡ true
picks_self now j e = ground arith

-- the job that is found is there, and is due
pub next_due-there :
    (now : ℕ) (js : List Job) (j : Job)
    → next_due now js ≡ some j
    → (any (is_picked now j) js ≡ true) × (is_due now j ≡ true)
unfolding next_due
next_due-there now [] j h = absurd (ground arith)
next_due-there now (k ∷ ks) j h = elim (Bool-cases (is_due now k)) [
  | inr e ↦ let (a, b) = next_due-there now ks j (ground arith) in (ground arith, b)
  | inl e ↦ elim (Option-cases (next_due now ks)) [
    | inl n ↦
        let same : k ≡ j = ground arith in
        let self = picks_self now k e in (ground arith, rw same at e)
    | inr (m, n) ↦
        let (a, b) = next_due-there now ks m n in
        elim (Bool-cases (before m k)) [
          | inl t ↦
              let same : m ≡ j = ground arith in
              let a' = rw same at a in let b' = rw same at b in (ground arith, b')
          | inr t ↦
              let same : k ≡ j = ground arith in
              let self = picks_self now k e in (ground arith, rw same at e)
        ]
  ]
]
