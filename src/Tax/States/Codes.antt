-- ===== src/Tax/States/Codes.antt =====
-- The codes that names of states resolve to.
use fast_api_e_commerce.Prelude.{
  Bool, true, ◌&&◌, Option, none, some, List, [], ◌∷◌, ◌≡◌, inl, inr, refl, sym, arith,
  Option-cases, Bool-cases,
}
use fast_api_e_commerce.Orders.Types.{Text, same_text}
use fast_api_e_commerce.Tax.States.{
  states, aliases, abbreviations, normalise, lookup_text, by_name, has_code, by_normalised,
  resolve_key, resolve_state,
}

-- every second component is a code of the table
abbrev all_coded : List (Text × Text) → List (Text × Text) → Bool
all_coded table [] = true
all_coded table ((_, v) ∷ rest) = has_code v table && all_coded table rest

lookup_text-coded :
    (table t : List (Text × Text)) (key v : Text)
    → all_coded table t ≡ true
    → lookup_text key t ≡ some v
    → has_code v table ≡ true
unfolding lookup_text
lookup_text-coded table [] key v a h = absurd (ground arith)
lookup_text-coded table ((k, w) ∷ rest) key v a h =
    ground (arith, lookup_text-coded table rest key v)

same_text_refl : (s : Text) → same_text s s ≡ true
same_text_refl [] = refl
same_text_refl (c ∷ s) = ground (arith, same_text_refl s)

-- the codes of a table that begins a longer one are codes of that
by_name-coded :
    (t : List (Text × Text)) (key v : Text) → by_name key t ≡ some v → has_code v t ≡ true
unfolding by_name has_code
by_name-coded [] key v h = absurd (ground arith)
by_name-coded ((c, name) ∷ rest) key v h = elim (Bool-cases (same_text (normalise name) key)) [
  | inl e ↦
      let same : c ≡ v = ground arith in
      let self : same_text c v ≡ true = rw (sym same) (same_text_refl c) in ground arith
  | inr e ↦ let later = by_name-coded rest key v (ground arith) in ground arith
]

aliases_coded : all_coded states aliases ≡ true
unfolding states aliases has_code
aliases_coded = refl

abbreviations_coded : all_coded states abbreviations ≡ true
unfolding states abbreviations has_code
abbreviations_coded = refl

by_normalised-coded : (key v : Text) → by_normalised key ≡ some v → has_code v states ≡ true
unfolding by_normalised
by_normalised-coded key v h = elim (Option-cases (lookup_text key abbreviations)) [
  | inr (w, e) ↦
      let same : w ≡ v = ground arith in
      rw same at (lookup_text-coded states abbreviations key w abbreviations_coded e)
  | inl n ↦ elim (Option-cases (lookup_text key aliases)) [
    | inr (w, e) ↦
        let same : w ≡ v = ground arith in
        rw same at (lookup_text-coded states aliases key w aliases_coded e)
    | inl m ↦ by_name-coded states key v (ground arith)
  ]
]

resolve_key-coded : (key v : Text) → resolve_key key ≡ some v → has_code v states ≡ true
unfolding resolve_key
resolve_key-coded key v h = elim (Bool-cases (has_code key states)) [
  | inl e ↦ let same : key ≡ v = ground arith in rw same at e
  | inr e ↦ by_normalised-coded key v (ground arith)
]

-- Whatever a customer typed, a code that it resolves to is one of the codes of the table of states.
pub resolve_state-has_code :
    (text : Option Text) (v : Text) → resolve_state text ≡ some v → has_code v states ≡ true
unfolding resolve_state
resolve_state-has_code none v h = absurd (ground arith)
resolve_state-has_code (some []) v h = absurd (ground arith)
resolve_state-has_code (some (c ∷ text)) v h = resolve_key-coded (normalise (c ∷ text)) v h
