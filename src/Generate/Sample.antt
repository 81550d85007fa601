-- ===== src/Generate/Sample.antt =====
-- `inkling_generate_options`, `rank_candidate` and `inkling_sample` of src/model/inkling_generate.c.
use mathlib.Core.Option
use Prim.Native.Nat.{bit_xor}
use inkling_in_c.Generate.{Floats, Options, Candidate, u32_max}
use inkling_in_c.Prelude.{
  ◌^◌, Bool, ℕ, List, QSort, not, ◌&&◌, Option, ◌∷◌, ◌+◌, ◌/◌, if◌then◌else◌, some, true, none, ◌%◌,
  ◌*◌, ◌==◌, [], ◌||◌, false, take, leb, length, ltb, bind,
}

-- The steps on `*state` and on `word`.
abbrev pub next_state : ℕ → ℕ
next_state state = (state + 0x9e3779b97f4a7c15) % 2 ^ 64

unfoldable pub mix : ℕ → ℕ
mix state =
    let first = bit_xor state (state / 2 ^ 30) * 0xbf58476d1ce4e5b9 % 2 ^ 64 in
    let second = bit_xor first (first / 2 ^ 27) * 0x94d049bb133111eb % 2 ^ 64 in
    bit_xor second (second / 2 ^ 31)

module _ {F : Type 0} (ops : Floats F) where
  -- `x == 0`, of a number that is finite
  abbrev pub is_zero : F → Bool
  is_zero x = not (ops.less x ops.nought) && not (ops.less ops.nought x)

  abbrev pub options_are_valid : Options F → Bool
  options_are_valid o =
      ops.is_finite o.temperature
      && not (ops.less o.temperature ops.nought)
      && ops.is_finite o.top_p
      && ops.less ops.nought o.top_p
      && not (ops.less ops.one o.top_p)

  -- `inkling_generate_options`, with pointers that are not NULL.
  unfoldable pub generate_options : Options F → ℕ → Option (Options F)
  generate_options o width =
      if width == 0 || ltb u32_max width || not (options_are_valid o)
      then none
      else if is_zero o.temperature
      then some (record o { temperature = ops.nought; top_k = 1; top_p = ops.one })
      else if o.top_k == 0 || ltb width o.top_k
      then some (record o { top_k = width })
      else some o

  -- The first loop, from the index `i` on: `best` is the place of the best logit so far, `top`.
  unfoldable pub find_best : ℕ → ℕ → F → List F → Option ℕ
  find_best i best top [] = some best
  find_best i best top (x ∷ xs) =
      let better = ops.less top x in
      let rest = find_best (i + 1) (if better then i else best) (if better then x else top) xs in
      if ops.is_finite x then rest else none

  -- The candidates, from the index `i` on, before their mass is known.
  unfoldable pub candidates_from : ℕ → List F → List (Candidate F)
  candidates_from i [] = []
  candidates_from i (x ∷ xs) =
      record { logit = x; id = i; mass = ops.nought } ∷ candidates_from (i + 1) xs

  -- `rank_candidate(a, b) <= 0`
  unfoldable pub ranks_first : Candidate F → Candidate F → Bool
  ranks_first a b =
      if ops.less b.logit a.logit
      then true
      else if ops.less a.logit b.logit
      then false
      else leb a.id b.id

  unfoldable pub mass_of : F → F → F → F
  mass_of temperature top logit =
      let gap = ops.subtract top logit in
      if is_zero gap
      then ops.one
      else if ops.less temperature ops.one && ops.less (ops.multiply ops.largest temperature) gap
      then ops.nought
      else ops.exponential (ops.divide (ops.negate_float gap) temperature)

  -- The loop that weighs the first candidates: they with their mass, and the total.
  unfoldable pub weigh : F → F → F → List (Candidate F) → List (Candidate F) × F
  unfolding mass_of
  weigh temperature top total [] = ([], total)
  weigh temperature top total (c ∷ cs) =
      let mass = mass_of temperature top c.logit in
      let (rest, sum) = weigh temperature top (ops.add total mass) cs in
      (record c { mass = mass } ∷ rest, sum)

  -- The loop under `top_p < 1`: the candidates up to the one at which the threshold is reached, and
  -- their total; `none` where it never is.
  unfoldable pub retain : F → F → List (Candidate F) → Option (List (Candidate F) × F)
  retain threshold cumulative [] = none
  retain threshold cumulative (c ∷ cs) =
      let sum = ops.add cumulative c.mass in
      let rest = retain threshold sum cs in
      if not (ops.less sum threshold)
      then some (c ∷ [], sum)
      else Option.map (λ (kept, total). (c ∷ kept, total)) rest

  unfoldable pub nucleus : Options F → List (Candidate F) × F → List (Candidate F) × F
  nucleus o (cs, total) =
      if ops.less o.top_p ops.one
      then elim (retain (ops.multiply o.top_p total) ops.nought cs) [
        | none ↦ (cs, total)
        | some kept ↦ kept
      ]
      else (cs, total)

  -- The last loop: `last` is the last candidate with a mass.
  unfoldable pub pick : F → F → ℕ → List (Candidate F) → ℕ
  pick target cumulative last [] = last
  pick target cumulative last (c ∷ cs) =
      let sum = if is_zero c.mass then cumulative else ops.add cumulative c.mass in
      let rest = pick target sum (if is_zero c.mass then last else c.id) cs in
      if is_zero c.mass then rest else if ops.less target sum then c.id else rest

  -- What follows the sort.
  unfoldable pub draw : Options F → ℕ → List (Candidate F) → Option ℕ
  unfolding mix
  draw o state [] = none
  draw o state (c ∷ cs) =
      let (kept, total) =
        nucleus o (weigh o.temperature c.logit ops.nought (take o.top_k (c ∷ cs))) in
      let target = ops.multiply (ops.unit (mix (next_state state) / 2 ^ 11)) total in
      some (pick target ops.nought c.id kept)

  abbrev pub sample_fits : ℕ → Options F → Bool
  sample_fits width o =
      not (width == 0)
      && leb width u32_max
      && options_are_valid o
      && not (o.top_k == 0)
      && leb o.top_k width

  module _ (qsort : QSort ranks_first) where
    -- `inkling_sample`, with pointers that are not NULL, on the logits of the whole width. The result
    -- is the token and the state that the generator is left in.
    unfoldable pub sample : List F → Options F → ℕ → Option (ℕ × ℕ)
    sample [] o state = none
    sample (x ∷ xs) o state =
        if sample_fits (length (x ∷ xs)) o
        then (bind (find_best 0 0 x (x ∷ xs)) λ best.
            if is_zero o.temperature
            then some (best, state)
            else Option.map (λ id. (id, next_state state))
                (draw o state (qsort.sort (candidates_from 0 (x ∷ xs)))))
        else none
