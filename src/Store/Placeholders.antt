-- ===== src/Store/Placeholders.antt =====
-- store/database/sql/instances.go: the claim's subquery is built with placeholders $1 … $n, and
-- FindAndClaim renumbers them in its text to $2 … $n+1, so that $1 is free for the new state.
-- A text is the list of its bytes.
pub mod Shift
use drone_runner_aws.Base.{
  ℕ, zero, suc, ◌+◌, ◌/◌, ◌%◌, ◌-◌, List, [], ◌∷◌, ◌++◌, Bool, true, false, ◌&&◌, ltb, ◌==◌, length,
  if◌then◌else◌, map,
}

-- `%d`, for numbers of at most `fuel` digits.
pub decimal : ℕ → ℕ → List ℕ
decimal zero n = []
decimal (suc fuel) n =
    let rest = decimal fuel (n / 10) in
    if ltb n 10 then (b'0' + n) ∷ [] else rest ++ (b'0' + n % 10) ∷ []

pub starts_with : List ℕ → List ℕ → Bool
starts_with [] text = true
starts_with (p ∷ ps) [] = false
starts_with (p ∷ ps) (c ∷ cs) = p == c && starts_with ps cs

-- strings.ReplaceAll for a non-empty `old`: from left to right, without overlap. `skip` counts the
-- bytes of a match that are still to be passed over.
pub replace_from : List ℕ → List ℕ → ℕ → List ℕ → List ℕ
unfolding starts_with
replace_from old new skip [] = []
replace_from old new (suc skip) (c ∷ cs) = replace_from old new skip cs
replace_from old new zero (c ∷ cs) =
    let after = new ++ replace_from old new (length old - 1) cs in
    let past = c ∷ replace_from old new zero cs in if starts_with old (c ∷ cs) then after else past

pub replace_all : List ℕ → List ℕ → List ℕ → List ℕ
unfolding replace_from
replace_all old new text = replace_from old new 0 text

pub placeholder : ℕ → List ℕ
unfolding decimal
placeholder i = b'$' ∷ decimal 4 i

-- `for i := len(subArgs); i > 0; i--`.
pub shift_placeholders : ℕ → List ℕ → List ℕ
unfolding replace_all placeholder
shift_placeholders zero sql = sql
shift_placeholders (suc i) sql =
    shift_placeholders i (replace_all (placeholder (suc i)) (placeholder (i + 2)) sql)
