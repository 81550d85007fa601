-- ===== src/Generate/Vocabulary.antt =====
-- Proofs on the test of tokens in src/model/inkling_generate.c.
use inkling_in_c.Generate.Loop.{in_vocabulary}
use inkling_in_c.Prelude.{ℕ, List, ◌≡◌, true, ◌<◌, ◌++◌, ◌∷◌, [], arith, unless_true, leb}

pub in_vocabulary-snoc :
    (size : ℕ) (ids : List ℕ) (last : ℕ)
    → in_vocabulary size ids ≡ true
    → last < size
    → in_vocabulary size (ids ++ last ∷ []) ≡ true
unfolding in_vocabulary
in_vocabulary-snoc size [] last h l = ground arith
in_vocabulary-snoc size (id ∷ ids) last h l =
    let (inside, rest) = unless_true (leb size id) (in_vocabulary size ids) h in
    rw inside (in_vocabulary-snoc size ids last rest l)
