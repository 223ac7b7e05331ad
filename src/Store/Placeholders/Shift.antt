-- ===== src/Store/Placeholders/Shift.antt =====
-- The renumbering is right for up to eight arguments, and wrong from nine on.
use drone_runner_aws.Base.{
  ℕ, zero, suc, ◌+◌, ◌≤◌, ◌<◌, List, [], ◌∷◌, ◌++◌, Bool, true, false, leb, ◌==◌, ap₂, ◌≡◌, ◌≢◌,
  refl, ap, subst, ◌∙◌, All, if◌then◌else◌, map, arith, Bool-cases, inl, inr,
}
use drone_runner_aws.Store.Placeholders.{replace_from, replace_all, placeholder, shift_placeholders}

-- A query's text, with its placeholders marked.
pub data Piece : Type 0 where
  plain hole : ℕ → Piece

abbrev pub render : List Piece → List ℕ
render [] = []
render (plain c ∷ ps) = c ∷ render ps
render (hole k ∷ ps) = placeholder k ++ render ps

-- A byte of the text is no `$`, and a placeholder has one of the first `n` numbers.
abbrev pub IsPiece : ℕ → Piece → Type 0
IsPiece n (plain c) = c ≢ b'$'
IsPiece n (hole k) = k ≤ n

abbrev pub renumber : (ℕ → ℕ) → Piece → Piece
renumber f (plain c) = plain c
renumber f (hole k) = hole (f k)

digit : (k : ℕ) → k ≤ 9 → placeholder k ≡ b'$' ∷ (b'0' + k) ∷ []
unfolding placeholder
digit k h = ground arith

replace_plain :
    (i : ℕ) (new cs : List ℕ) (c : ℕ)
    → c ≢ b'$'
    → replace_from (b'$' ∷ (b'0' + i) ∷ []) new 0 (c ∷ cs)
      ≡ c ∷ replace_from (b'$' ∷ (b'0' + i) ∷ []) new 0 cs
unfolding replace_from
replace_plain i new cs c h = ground arith

replace_hole :
    (i k : ℕ) (new cs : List ℕ)
    → replace_from (b'$' ∷ (b'0' + i) ∷ []) new 0 (b'$' ∷ (b'0' + k) ∷ cs)
      ≡ (if k == i then new else b'$' ∷ (b'0' + k) ∷ [])
        ++ replace_from (b'$' ∷ (b'0' + i) ∷ []) new 0 cs
unfolding replace_from
replace_hole i k new cs = ground arith

-- One round turns `$i` into the given text and leaves the rest alone.
abbrev swap : ℕ → ℕ → ℕ → ℕ
swap i j k = if k == i then j else k

placeholder-swap :
    (i j k : ℕ)
    → j ≤ 9
    → k ≤ 9
    → placeholder (swap i j k) ≡ (if k == i then b'$' ∷ (b'0' + j) ∷ [] else b'$' ∷ (b'0' + k) ∷ [])
placeholder-swap i j k hj hk = elim (Bool-cases (k == i)) [
  | inl e ↦ rw e (digit j hj)
  | inr e ↦ rw e (digit k hk)
]

replace_from-render :
    (i j : ℕ) (ps : List Piece)
    → i ≤ 9
    → j ≤ 9
    → All (IsPiece 9) ps
    → replace_from (b'$' ∷ (b'0' + i) ∷ []) (b'$' ∷ (b'0' + j) ∷ []) 0 (render ps)
      ≡ render (map (renumber (swap i j)) ps)
replace_from-render i j [] hi hj w = unfold replace_from in refl
replace_from-render i j (plain c ∷ ps) hi hj w =
    replace_plain i (b'$' ∷ (b'0' + j) ∷ []) (render ps) c w.0
    ∙ ap (λ t. c ∷ t) (replace_from-render i j ps hi hj w.1)
replace_from-render i j (hole k ∷ ps) hi hj w =
    rw (digit k w.0, placeholder-swap i j k hj w.0)
      (replace_hole i k (b'$' ∷ (b'0' + j) ∷ []) (render ps)
        ∙ ap (◌++◌ _) (replace_from-render i j ps hi hj w.1))

replace_render :
    (i j : ℕ) (ps : List Piece)
    → i ≤ 9
    → j ≤ 9
    → All (IsPiece 9) ps
    → replace_all (placeholder i) (placeholder j) (render ps)
      ≡ render (map (renumber (swap i j)) ps)
unfolding replace_all
replace_render i j ps hi hj w = rw (digit i hi, digit j hj) (replace_from-render i j ps hi hj w)

-- What all rounds together should do: $1 … $n become $2 … $n+1, other numbers stay.
abbrev shifted : ℕ → ℕ → ℕ
shifted n k = if k == 0 then 0 else if leb k n then k + 1 else k

-- The pieces after one round: those that the remaining rounds expect.
renumber-swap :
    (n : ℕ) (ps : List Piece)
    → n < 8
    → All (IsPiece 9) ps
    → All (IsPiece 9) (map (renumber (swap (suc n) (n + 2))) ps)
      × (map (renumber (shifted n)) (map (renumber (swap (suc n) (n + 2))) ps)
          ≡ map (renumber (shifted (suc n))) ps)
renumber-swap n [] h w = (tt, refl)
renumber-swap n (plain c ∷ ps) h w =
    let (a, e) = renumber-swap n ps h w.1 in ((w.0, a), ap (λ t. plain c ∷ t) e)
renumber-swap n (hole k ∷ ps) h w =
    let (a, e) = renumber-swap n ps h w.1 in
    ((ground arith, a), ap₂ (λ m t. hole m ∷ t) (ground arith) e)

-- For at most eight arguments the placeholders up to their number move up by one, and nothing else
-- changes. The text holds no `$` of its own, and no placeholder above $9.
shift_placeholders-render :
    (n : ℕ) (ps : List Piece)
    → n ≤ 8
    → All (IsPiece 9) ps
    → shift_placeholders n (render ps) ≡ render (map (renumber (shifted n)) ps)
unfolding shift_placeholders
shift_placeholders-render zero ps h w = same ps
  where
    same : (ps : List Piece) → render ps ≡ render (map (renumber (shifted 0)) ps)
    same [] = refl
    same (plain c ∷ ps) = ap (λ t. c ∷ t) (same ps)
    same (hole k ∷ ps) =
        let e : k ≡ shifted 0 k = ground arith in ap₂ (λ m t. placeholder m ++ t) e (same ps)
shift_placeholders-render (suc n) ps h w =
    let (a, e) = renumber-swap n ps h w in
    ap (shift_placeholders n) (replace_render (suc n) (n + 2) ps (omega arith) (omega arith) w)
    ∙ shift_placeholders-render n (map (renumber (swap (suc n) (n + 2))) ps) (omega arith) a
    ∙ ap render e

-- With nine arguments, `$9` becomes `$10` in the first round, and the last round, which looks for
-- `$1`, makes `$20` of it; the others are renumbered as intended.
abbrev nine : ℕ → ℕ
nine k = if k == 9 then 20 else shifted 8 k

abbrev nine_piece : Bool → ℕ → List Piece
nine_piece true k = hole 1 ∷ plain b'0' ∷ []
nine_piece false k = hole k ∷ []

abbrev split_nine : List Piece → List Piece
split_nine [] = []
split_nine (plain c ∷ ps) = plain c ∷ split_nine ps
split_nine (hole k ∷ ps) = nine_piece (k == 9) k ++ split_nine ps

render-nine_piece :
    (b : Bool) (k : ℕ) (ps : List Piece)
    → k ≤ 9
    → (if b then b'$' ∷ b'1' ∷ b'0' ∷ [] else b'$' ∷ (b'0' + k) ∷ []) ++ render ps
      ≡ render (nine_piece b k ++ ps)
render-nine_piece true k ps h = rw (digit 1 (omega arith))
render-nine_piece false k ps h = rw (digit k h)

first_round :
    (ps : List Piece)
    → All (IsPiece 9) ps
    → replace_from (b'$' ∷ (b'0' + 9) ∷ []) (b'$' ∷ b'1' ∷ b'0' ∷ []) 0 (render ps)
      ≡ render (split_nine ps)
first_round [] w = unfold replace_from in refl
first_round (plain c ∷ ps) w =
    replace_plain 9 (b'$' ∷ b'1' ∷ b'0' ∷ []) (render ps) c w.0
    ∙ ap (λ t. c ∷ t) (first_round ps w.1)
first_round (hole k ∷ ps) w = rw (digit k w.0) (
    replace_hole 9 k (b'$' ∷ b'1' ∷ b'0' ∷ []) (render ps)
    ∙ ap (◌++◌ _) (first_round ps w.1)
    ∙ render-nine_piece (k == 9) k (split_nine ps) w.0)

split_nine-IsPiece : (ps : List Piece) → All (IsPiece 9) ps → All (IsPiece 9) (split_nine ps)
split_nine-IsPiece [] w = tt
split_nine-IsPiece (plain c ∷ ps) w = (w.0, split_nine-IsPiece ps w.1)
split_nine-IsPiece (hole k ∷ ps) w = pieces (k == 9) (split_nine-IsPiece ps w.1)
  where
    pieces :
        (b : Bool)
        → All (IsPiece 9) (split_nine ps)
        → All (IsPiece 9) (nine_piece b k ++ split_nine ps)
    pieces true v = (omega arith, ((λ e. omega arith), v))
    pieces false v = (w.0, v)

renumber-split_nine :
    (ps : List Piece)
    → render (map (renumber (shifted 8)) (split_nine ps)) ≡ render (map (renumber nine) ps)
renumber-split_nine [] = refl
renumber-split_nine (plain c ∷ ps) = ap (λ t. c ∷ t) (renumber-split_nine ps)
renumber-split_nine (hole k ∷ ps) = pieces (k == 9) refl (renumber-split_nine ps)
  where
    pieces :
        (b : Bool)
        → (k == 9) ≡ b
        → render (map (renumber (shifted 8)) (split_nine ps)) ≡ render (map (renumber nine) ps)
        → render (map (renumber (shifted 8)) (nine_piece b k ++ split_nine ps))
          ≡ placeholder (nine k) ++ render (map (renumber nine) ps)
    pieces true e ih = rw (e, ih) (unfold placeholder in refl)
    pieces false e ih = rw (e, ih)

-- With nine arguments $9 becomes $20, and not $10; the placeholders below it move up by one. The
-- text holds no `$` of its own, and no placeholder above $9.
shift_placeholders-nine :
    (ps : List Piece)
    → All (IsPiece 9) ps
    → shift_placeholders 9 (render ps) ≡ render (map (renumber nine) ps)
shift_placeholders-nine ps w =
    unfold shift_placeholders in
    ap (shift_placeholders 8) (first ps w)
    ∙ shift_placeholders-render 8 (split_nine ps) (omega arith) (split_nine-IsPiece ps w)
    ∙ renumber-split_nine ps
  where
    first :
        (ps : List Piece)
        → All (IsPiece 9) ps
        → replace_all (placeholder 9) (placeholder 10) (render ps) ≡ render (split_nine ps)
    first ps w = unfold replace_all placeholder in first_round ps w

-- What becomes of the number of a placeholder in a query with `n` arguments.
abbrev pub moved : ℕ → ℕ → ℕ
moved n = if n == 9 then nine else shifted n

-- For at most eight arguments the placeholders from $1 up to their number move up by one; with nine
-- arguments $1 to $8 do, but $9 becomes $20, and not $10. Nothing else changes. The text holds no `$`
-- of its own, and no placeholder above $9.
pub shift_placeholders-moved :
    (n : ℕ) (ps : List Piece)
    → n ≤ 9
    → All (IsPiece 9) ps
    → shift_placeholders n (render ps) ≡ render (map (renumber (moved n)) ps)
shift_placeholders-moved n ps h w = elim (Bool-cases (n == 9)) [
  | inl e ↦
      let at_nine : 9 ≡ n = ground arith in
      subst (λ m. shift_placeholders m (render ps) ≡ render (map (renumber (moved m)) ps)) at_nine
        (shift_placeholders-nine ps w)
  | inr e ↦ rw e (shift_placeholders-render n ps (ground arith) w)
]
