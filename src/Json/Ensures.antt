-- ===== src/Json/Ensures.antt =====
-- What a step of the parser ensures: a postcondition of its value, a bound on the position of its
-- failure, and that it does not run out of fuel. The rule for `◌>>=◌` composes such facts.
use inkling_in_c.Prelude.{
  length, length-drop, Bytes, ℕ, ◌+◌, ◌≤◌, ◌<◌, ◌≡◌, subst, Bool, true, [], ◌∷◌, arith,
}
use inkling_in_c.Json.Text.{
  Result, ok, fail, ◌>>=◌, Message, Parser, advance, skip_from, skip_whitespace, at_byte,
}

pub data Ensures {ℓ κ} {A : Type ℓ} (t : ℕ) (P : A → Type κ) : Result A → Type (ℓ ⊔ κ) where
  holds : {a : A} → P a → Ensures t P (ok a)
  fails : {n : ℕ} {m : Message} → n ≤ t → Ensures t P (fail n m)

module _ {ℓ κ} {A B : Type ℓ} {t : ℕ} {P : A → Type κ} {Q : B → Type κ} where
  pub Ensures-bind :
      {m : Result A} {f : A → Result B}
      → Ensures t P m
      → ((a : A) → P a → Ensures t Q (f a))
      → Ensures t Q (m >>= f)
  Ensures-bind (holds {a} p) k = k a p
  Ensures-bind (fails h) k = fails h

pub Ensures-mono {ℓ κ} :
    {A : Type ℓ} {t : ℕ} {P Q : A → Type κ} {m : Result A}
    → Ensures t P m
    → ((a : A) → P a → Q a)
    → Ensures t Q m
Ensures-mono (holds {a} p) k = holds (k a p)
Ensures-mono (fails h) k = fails h

ok_injective {ℓ} : {A : Type ℓ} {a b : A} → ok a ≡ ok b → a ≡ b
ok_injective e = cc

pub Ensures-ok {ℓ κ} :
    {A : Type ℓ} {t : ℕ} {P : A → Type κ} {m : Result A} {a : A} → Ensures t P m → m ≡ ok a → P a
Ensures-ok {P = P} (holds p) e = subst P (ok_injective e) p
Ensures-ok (fails h) e = cc

-- `q` is `p` after at least `n` bytes more: nothing but the split of the text has changed.
abbrev pub Later : ℕ → Parser → Parser → Type 0
Later n p q =
    (q.position + length q.rest ≡ p.position + length p.rest) × (length q.rest + n ≤ length p.rest)

-- `p` stands inside a text of `t` bytes.
abbrev pub Inside : ℕ → Parser → Type 0
Inside t p = p.position + length p.rest ≤ t

pub advance-Later : (n : ℕ) (p : Parser) → n ≤ length p.rest → Later n p (advance n p)
advance-Later n p h = omega (arith, length-drop n p.rest)

skip_from-Later :
    (n : ℕ) (cs : Bytes) → Later 0 (record { position = n; rest = cs }) (skip_from n cs)
unfolding skip_from
skip_from-Later n [] = omega arith
skip_from-Later n (c ∷ cs) = ground (arith, skip_from-Later (n + 1) cs)

pub skip_whitespace-Later : (p : Parser) → Later 0 p (skip_whitespace p)
unfolding skip_whitespace
skip_whitespace-Later p = skip_from-Later p.position p.rest

pub at_byte-nonempty : (test : ℕ → Bool) (p : Parser) → at_byte test p ≡ true → 0 < length p.rest
at_byte-nonempty test p h = head_is-nonempty test p.rest h
  where
    head_is-nonempty :
        (f : ℕ → Bool) (cs : Bytes)
        → at_byte f (record { position = 0; rest = cs }) ≡ true
        → 0 < length cs
    head_is-nonempty f [] e = cc
    head_is-nonempty f (c ∷ cs) e = omega arith
