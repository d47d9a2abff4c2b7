-- ===== src/Json.antt =====
-- What src/ uses of encoding/json to test a text: the scanner that decides whether it is one JSON
-- value, with its stack of open objects and arrays and its limit on nesting.
use mano_reck.Prelude.{
  ℕ, Bool, true, false, ◌&&◌, ◌||◌, leb, ltb, ◌==◌, if◌then◌else◌, List, [], ◌∷◌, Text, codes,
  length, suc, zero,
}

pub data Open : Type 0 where
  object_key object_value array_value : Open

-- The scanner's step functions, named after the source's.
pub data Scan : Type 0 where
  begin_value begin_value_or_empty begin_string_or_empty begin_string : Scan
  in_string in_string_esc : Scan
  in_string_esc_u : ℕ → Scan
  in_literal : Text → Scan
  neg zero_digit digits dot dot_digits exp exp_sign exp_digits : Scan
  end_value end_top failed : Scan

abbrev is_space : ℕ → Bool
is_space c = c == 32 || c == 9 || c == 13 || c == 10

abbrev is_digit : ℕ → Bool
is_digit c = leb b'0' c && leb c b'9'

abbrev is_hex : ℕ → Bool
is_hex c = is_digit c || (leb b'a' c && leb c b'f') || (leb b'A' c && leb c b'F')

abbrev State : Type 0
State = Scan × List Open

-- After a value is complete: what its context expects next. The stack is empty at the top.
after_value : ℕ → List Open → State
after_value c [] = if is_space c then (end_top, []) else (failed, [])
after_value c (object_key ∷ s) =
    if is_space c
    then (end_value, object_key ∷ s)
    else if c == b':'
    then (begin_value, object_value ∷ s)
    else (failed, s)
after_value c (object_value ∷ s) =
    if is_space c
    then (end_value, object_value ∷ s)
    else if c == b','
    then (begin_string, object_key ∷ s)
    else if c == b'}'
    then (if (length s == 0) then end_top else end_value, s)
    else (failed, s)
after_value c (array_value ∷ s) =
    if is_space c
    then (end_value, array_value ∷ s)
    else if c == b','
    then (begin_value, array_value ∷ s)
    else if c == b']'
    then (if (length s == 0) then end_top else end_value, s)
    else (failed, s)

-- The nesting limit is 10000.
push : Scan → Open → List Open → State
push next o s = if leb (suc (length s)) 10000 then (next, o ∷ s) else (failed, s)

start_value : ℕ → List Open → State
unfolding push
start_value c s =
    if is_space c
    then (begin_value, s)
    else if c == b'{'
    then push begin_string_or_empty object_key s
    else if c == b'['
    then push begin_value_or_empty array_value s
    else if c == 34
    then (in_string, s)
    else if c == b'-'
    then (neg, s)
    else if c == b'0'
    then (zero_digit, s)
    else if c == b't'
    then (in_literal (codes "rue"), s)
    else if c == b'f'
    then (in_literal (codes "alse"), s)
    else if c == b'n'
    then (in_literal (codes "ull"), s)
    else if is_digit c
    then (digits, s)
    else (failed, s)

-- The `0` of a number has been read, or its integer digits.
after_zero : ℕ → List Open → State
unfolding after_value
after_zero c s =
    if c == b'.' then (dot, s) else if c == b'e' || c == b'E' then (exp, s) else after_value c s

step : Scan → List Open → ℕ → State
unfolding after_value start_value after_zero
step begin_value s c = start_value c s
step begin_value_or_empty s c =
    if is_space c
    then (begin_value_or_empty, s)
    else if c == b']'
    then after_value c s
    else start_value c s
step begin_string_or_empty [] c = (failed, [])
step begin_string_or_empty (o ∷ s) c =
    if is_space c
    then (begin_string_or_empty, o ∷ s)
    else if c == b'}'
    then after_value c (object_value ∷ s)
    else if c == 34
    then (in_string, o ∷ s)
    else (failed, s)
step begin_string s c =
    if is_space c then (begin_string, s) else if c == 34 then (in_string, s) else (failed, s)
step in_string s c =
    if c == 34
    then (end_value, s)
    else if c == 92
    then (in_string_esc, s)
    else if ltb c 32
    then (failed, s)
    else (in_string, s)
step in_string_esc s c =
    if c == b'b'
      || c == b'f'
      || c == b'n'
      || c == b'r'
      || c == b't'
      || c == 92
      || c == b'/'
      || c == 34
    then (in_string, s)
    else if c == b'u'
    then (in_string_esc_u 3, s)
    else (failed, s)
step (in_string_esc_u zero) s c = if is_hex c then (in_string, s) else (failed, s)
step (in_string_esc_u (suc k)) s c = if is_hex c then (in_string_esc_u k, s) else (failed, s)
step (in_literal []) s c = after_value c s
step (in_literal (l ∷ [])) s c = if c == l then (end_value, s) else (failed, s)
step (in_literal (l ∷ m ∷ r)) s c = if c == l then (in_literal (m ∷ r), s) else (failed, s)
step neg s c =
    if c == b'0' then (zero_digit, s) else if is_digit c then (digits, s) else (failed, s)
step zero_digit s c = after_zero c s
step digits s c = if is_digit c then (digits, s) else after_zero c s
step dot s c = if is_digit c then (dot_digits, s) else (failed, s)
step dot_digits s c =
    if is_digit c
    then (dot_digits, s)
    else if c == b'e' || c == b'E'
    then (exp, s)
    else after_value c s
step exp s c =
    if c == b'+' || c == b'-'
    then (exp_sign, s)
    else if is_digit c
    then (exp_digits, s)
    else (failed, s)
step exp_sign s c = if is_digit c then (exp_digits, s) else (failed, s)
step exp_digits s c = if is_digit c then (exp_digits, s) else after_value c s
step end_value s c = after_value c s
step end_top s c = if is_space c then (end_top, s) else (failed, s)
step failed s c = (failed, s)

is_end_top : Scan → Bool
is_end_top end_top = true
is_end_top _ = false

-- The scan of the bytes, and of one space at the end of the input.
scan : Scan → List Open → Text → Bool
unfolding step is_end_top
scan f s [] = is_end_top f || is_end_top (step f s 32).0
scan f s (c ∷ cs) = let (f', s') = step f s c in scan f' s' cs

-- json.Valid, which json.Unmarshal asks first.
unfoldable pub valid : Text → Bool
unfolding scan
valid text = scan begin_value [] text
