-- ===== src/Tax/States.antt =====
-- app/modules/tax/gst_states.py: the GST state codes, and the reading of a state that a customer typed.
-- `casefold`, `\s` and the patterns are Python's on ASCII texts.
pub mod Codes
use Prim.Native.Char.{code}
use Prim.Native.String.{String}
use fast_api_e_commerce.Prelude.{
  Bool, false, ◌&&◌, ◌||◌, Option, none, some, List, [], ◌∷◌, ◌++◌, leb, ◌==◌, if◌then◌else◌,
}
use fast_api_e_commerce.Orders.Types.{Text, same_text, lower}

-- the code points of a literal
abbrev pub codes : String → Text
codes String.[] = []
codes (String.◌∷◌ c s) = code c ∷ codes s

-- `STATES`: code and name
pub states : List (Text × Text)
states =
    (codes "01", codes "Jammu and Kashmir")
    ∷ (codes "02", codes "Himachal Pradesh")
    ∷ (codes "03", codes "Punjab")
    ∷ (codes "04", codes "Chandigarh")
    ∷ (codes "05", codes "Uttarakhand")
    ∷ (codes "06", codes "Haryana")
    ∷ (codes "07", codes "Delhi")
    ∷ (codes "08", codes "Rajasthan")
    ∷ (codes "09", codes "Uttar Pradesh")
    ∷ (codes "10", codes "Bihar")
    ∷ (codes "11", codes "Sikkim")
    ∷ (codes "12", codes "Arunachal Pradesh")
    ∷ (codes "13", codes "Nagaland")
    ∷ (codes "14", codes "Manipur")
    ∷ (codes "15", codes "Mizoram")
    ∷ (codes "16", codes "Tripura")
    ∷ (codes "17", codes "Meghalaya")
    ∷ (codes "18", codes "Assam")
    ∷ (codes "19", codes "West Bengal")
    ∷ (codes "20", codes "Jharkhand")
    ∷ (codes "21", codes "Odisha")
    ∷ (codes "22", codes "Chhattisgarh")
    ∷ (codes "23", codes "Madhya Pradesh")
    ∷ (codes "24", codes "Gujarat")
    ∷ (codes "26", codes "Dadra and Nagar Haveli and Daman and Diu")
    ∷ (codes "27", codes "Maharashtra")
    ∷ (codes "29", codes "Karnataka")
    ∷ (codes "30", codes "Goa")
    ∷ (codes "31", codes "Lakshadweep")
    ∷ (codes "32", codes "Kerala")
    ∷ (codes "33", codes "Tamil Nadu")
    ∷ (codes "34", codes "Puducherry")
    ∷ (codes "35", codes "Andaman and Nicobar Islands")
    ∷ (codes "36", codes "Telangana")
    ∷ (codes "37", codes "Andhra Pradesh")
    ∷ (codes "38", codes "Ladakh")
    ∷ (codes "97", codes "Other Territory")
    ∷ []

-- `_ALIASES`: spelling and code
pub aliases : List (Text × Text)
aliases =
    (codes "orissa", codes "21")
    ∷ (codes "uttaranchal", codes "05")
    ∷ (codes "pondicherry", codes "34")
    ∷ (codes "new delhi", codes "07")
    ∷ (codes "nct of delhi", codes "07")
    ∷ (codes "nct delhi", codes "07")
    ∷ (codes "delhi ncr", codes "07")
    ∷ (codes "j and k", codes "01")
    ∷ (codes "jammu kashmir", codes "01")
    ∷ (codes "chattisgarh", codes "22")
    ∷ (codes "telengana", codes "36")
    ∷ (codes "tamilnadu", codes "33")
    ∷ (codes "andaman nicobar", codes "35")
    ∷ (codes "andaman nicobar islands", codes "35")
    ∷ (codes "andaman and nicobar", codes "35")
    ∷ (codes "dadra and nagar haveli", codes "26")
    ∷ (codes "daman and diu", codes "26")
    ∷ (codes "dadra nagar haveli", codes "26")
    ∷ (codes "dnhdd", codes "26")
    ∷ (codes "dnh and dd", codes "26")
    ∷ (codes "andaman and nicobar islands", codes "35")
    ∷ (codes "dadra and nagar haveli and daman and diu", codes "26")
    ∷ (codes "other territory", codes "97")
    ∷ []

-- `_ABBREVIATIONS`
pub abbreviations : List (Text × Text)
abbreviations =
    (codes "an", codes "35")
    ∷ (codes "ap", codes "37")
    ∷ (codes "ar", codes "12")
    ∷ (codes "as", codes "18")
    ∷ (codes "br", codes "10")
    ∷ (codes "ch", codes "04")
    ∷ (codes "ct", codes "22")
    ∷ (codes "cg", codes "22")
    ∷ (codes "dn", codes "26")
    ∷ (codes "dd", codes "26")
    ∷ (codes "dh", codes "26")
    ∷ (codes "dl", codes "07")
    ∷ (codes "ga", codes "30")
    ∷ (codes "gj", codes "24")
    ∷ (codes "hr", codes "06")
    ∷ (codes "hp", codes "02")
    ∷ (codes "jk", codes "01")
    ∷ (codes "jh", codes "20")
    ∷ (codes "ka", codes "29")
    ∷ (codes "kl", codes "32")
    ∷ (codes "la", codes "38")
    ∷ (codes "ld", codes "31")
    ∷ (codes "mp", codes "23")
    ∷ (codes "mh", codes "27")
    ∷ (codes "mn", codes "14")
    ∷ (codes "ml", codes "17")
    ∷ (codes "mz", codes "15")
    ∷ (codes "nl", codes "13")
    ∷ (codes "or", codes "21")
    ∷ (codes "od", codes "21")
    ∷ (codes "py", codes "34")
    ∷ (codes "pb", codes "03")
    ∷ (codes "rj", codes "08")
    ∷ (codes "sk", codes "11")
    ∷ (codes "tn", codes "33")
    ∷ (codes "ts", codes "36")
    ∷ (codes "tg", codes "36")
    ∷ (codes "tr", codes "16")
    ∷ (codes "up", codes "09")
    ∷ (codes "uk", codes "05")
    ∷ (codes "ut", codes "05")
    ∷ (codes "wb", codes "19")
    ∷ []

-- `casefold` and `replace("&", " and ")`; any other character outside a-z, 0-9 is then a space
clean : Text → Text
clean [] = []
clean (c ∷ s) =
    (if c == b'&'
      then codes " and "
      else if (leb b'a' c && leb c b'z') || (leb b'0' c && leb c b'9')
      then c ∷ []
      else b' ' ∷ [])
    ++ clean s

cons_word : Text → List Text → List Text
cons_word [] ws = ws
cons_word (c ∷ w) ws = (c ∷ w) ∷ ws

-- the words between spaces, behind the word read so far
words_from : Text → Text → List Text
unfolding cons_word
words_from word [] = cons_word word []
words_from word (c ∷ s) =
    let rest = words_from (word ++ (c ∷ [])) s in
    let next = words_from [] s in if c == b' ' then cons_word word next else rest

-- the words joined by one space
joined : List Text → Text
joined [] = []
joined (w ∷ []) = w
joined (w ∷ v ∷ ws) = w ++ (b' ' ∷ joined (v ∷ ws))

-- `^(state of|union territory of|ut of)\s+`: there is a word behind
drop_prefix : List Text → List Text
drop_prefix (a ∷ b ∷ c ∷ []) =
    if same_text b (codes "of") && (same_text a (codes "state") || same_text a (codes "ut"))
    then c ∷ []
    else a ∷ b ∷ c ∷ []
drop_prefix (a ∷ b ∷ c ∷ d ∷ ws) =
    if same_text b (codes "of") && (same_text a (codes "state") || same_text a (codes "ut"))
    then c ∷ d ∷ ws
    else if same_text a (codes "union")
        && same_text b (codes "territory")
        && same_text c (codes "of")
    then d ∷ ws
    else a ∷ b ∷ c ∷ d ∷ ws
drop_prefix ws = ws

-- `_normalise`
unfoldable pub normalise : Text → Text
unfolding clean words_from joined drop_prefix
normalise text = joined (drop_prefix (words_from [] (clean (lower text))))

lookup_text : Text → List (Text × Text) → Option Text
lookup_text key [] = none
lookup_text key ((k, v) ∷ rest) =
    let found : Option Text = some v in if same_text k key then found else lookup_text key rest

-- the states by their normalised names
by_name : Text → List (Text × Text) → Option Text
unfolding normalise
by_name key [] = none
by_name key ((code', name) ∷ rest) =
    if same_text (normalise name) key then some code' else by_name key rest

unfoldable pub has_code : Text → List (Text × Text) → Bool
has_code key [] = false
has_code key ((code', _) ∷ rest) = same_text code' key || has_code key rest

abbrev or_else : Option Text → Option Text → Option Text
or_else none b = b
or_else (some a) _ = some a

-- `_BY_NORMALISED.get`: a later update of the dict wins
by_normalised : Text → Option Text
unfolding lookup_text by_name states aliases abbreviations
by_normalised key =
    or_else (lookup_text key abbreviations) (or_else (lookup_text key aliases) (by_name key states))

abbrev resolve_key : Text → Option Text
unfolding has_code by_normalised states
resolve_key key = if has_code key states then some key else by_normalised key

-- `resolve_state`: the code of the state
unfoldable pub resolve_state : Option Text → Option Text
unfolding normalise resolve_key
resolve_state none = none
resolve_state (some []) = none
resolve_state (some (c ∷ text)) = resolve_key (normalise (c ∷ text))
