-- ===== src/Json/Lookup.antt =====
-- Proofs on `inkling_json_object_get` and the walk of the members in src/io/inkling_json.c.
use inkling_in_c.Json.Access.{
  find_member, json_object_get, json_object_key_at, json_object_value_at, get_key?, get_value?,
  c_string,
}
use inkling_in_c.Json.Value.{Members, object, member, no_members}
use inkling_in_c.Prelude.{
  Bytes, ℕ, some, ◌≡◌, none, ◌≢◌, Bool-cases, suc, bytes_eq, inl, zero, bytes_eq_iff, inr, refl,
  All, ◌==◌, false, ◌∷◌, ap, arith, ◌∙◌, [],
}
use inkling_in_c.Json.Valid.{IsFresh, IsDictionary, next_key}

find_member-fresh : (ms : Members) (k : Bytes) → IsFresh k ms → find_member ms k ≡ none
unfolding find_member
find_member-fresh no_members k h = refl
find_member-fresh (member j v ms) k h = elim (Bool-cases (bytes_eq j k)) [
  | inl same ↦ absurd (h.0 ((bytes_eq_iff j k).0 same))
  | inr other ↦ rw other (find_member-fresh ms k h.1)
]

IsFresh-get_key? :
    (ms : Members) (j : Bytes) (i : ℕ) {k : Bytes} → IsFresh j ms → get_key? ms i ≡ some k → j ≢ k
IsFresh-get_key? no_members j i h e = cc
IsFresh-get_key? (member l v ms) j zero h e = λ same. h.0 (cc)
IsFresh-get_key? (member l v ms) j (suc i) h e = IsFresh-get_key? ms j i h.1 e

find_member-get_key? :
    {n : ℕ} (ms : Members) (i : ℕ) {k : Bytes}
    → IsDictionary n ms
    → get_key? ms i ≡ some k
    → find_member ms k ≡ get_value? ms i
unfolding find_member
find_member-get_key? no_members i d e = cc
find_member-get_key? (member j v ms) zero {k} d e =
    let same : j ≡ k = cc in rw ((bytes_eq_iff j k).1 same)
find_member-get_key? (member j v ms) (suc i) {k} (next_key u f x d) e =
    elim (Bool-cases (bytes_eq j k)) [
      | inl same ↦ absurd (IsFresh-get_key? ms j i f e ((bytes_eq_iff j k).0 same))
      | inr other ↦ rw other (find_member-get_key? ms i d e)
    ]

not-equal : {m n : ℕ} → m ≢ n → (m == n) ≡ false
not-equal h = ground (arith, h)

c_string-id : (k : Bytes) → All (λ c. c ≢ 0) k → c_string k ≡ k
unfolding c_string
c_string-id [] h = refl
c_string-id (c ∷ cs) h = rw (not-equal h.0) (ap (λ l. c ∷ l) (c_string-id cs h.1))

-- In an object of valid members, no two with one key, looking up the key at a position, if no byte of
-- it is NUL, gives the value at that position.
pub json_object_get-key_at :
    {n : ℕ} (ms : Members) (i : ℕ) {k : Bytes}
    → IsDictionary n ms
    → json_object_key_at (some (object ms)) i ≡ some k
    → All (λ c. c ≢ 0) k
    → json_object_get (some (object ms)) k ≡ json_object_value_at (some (object ms)) i
unfolding json_object_get json_object_key_at json_object_value_at
json_object_get-key_at ms i {k} d e text =
    ap (find_member ms) (c_string-id k text) ∙ find_member-get_key? ms i d e
