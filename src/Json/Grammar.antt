-- ===== src/Json/Grammar.antt =====
-- The number grammar of JSON, and proofs on `parse_number` of src/io/inkling_json.c.
use inkling_in_c.Json.Value.{number}
use inkling_in_c.Prelude.{
  Bytes, ℕ, All, Bool, arith, ◌<◌, ◌≡◌, length, [], ◌∷◌, ◌++◌, true, length-append, Bool-cases, ◌⊎◌,
  ◌+◌, ◌∙◌, within, ap, inl, ◌==◌, sym, inr, append_assoc, ==_iff, ◌||◌, refl, drop, take, ◌-◌,
  size_max,
}
use inkling_in_c.Json.Numbers.{
  digits_from, skip_digits, number_sign, number_integer, some_digits, number_fraction,
  number_exponent, number_end, parse_number, new_value, value_size,
}
use inkling_in_c.Json.Text.{
  Parser, is_digit, at_byte, Result, advance, Message, fraction_no_digits, exponent_no_digits,
}
use inkling_in_c.Json.Ensures.{Later, Inside, Ensures, holds, fails, Ensures-mono, Ensures-bind}
use inkling_in_c.Json.Buffer.{Allocator}

abbrev AllDigits : Bytes → Type 0
AllDigits = All (λ c. is_digit c ≡ true)

abbrev SomeDigits : Bytes → Type 0
SomeDigits ds = AllDigits ds × (0 < length ds)

abbrev IsSign : Bytes → Type 0
IsSign w = (w ≡ []) ⊎ (w ≡ b'-' ∷ [])

-- `0`, or digits of which the first is not 0.
abbrev IsInteger : Bytes → Type 0
IsInteger w =
    (w ≡ b'0' ∷ [])
    ⊎ ((d : ℕ) × (ds : Bytes) × (w ≡ d ∷ ds) × (within b'1' b'9' d ≡ true) × AllDigits ds)

abbrev IsFraction : Bytes → Type 0
IsFraction w = (w ≡ []) ⊎ ((ds : Bytes) × (w ≡ b'.' ∷ ds) × SomeDigits ds)

abbrev IsExponentSign : Bytes → Type 0
IsExponentSign w = (w ≡ []) ⊎ (w ≡ b'+' ∷ []) ⊎ (w ≡ b'-' ∷ [])

abbrev IsExponent : Bytes → Type 0
IsExponent w =
    (w ≡ [])
    ⊎ ((e : ℕ) × (sign : Bytes) × (ds : Bytes) × (w ≡ (e ∷ sign) ++ ds)
        × ((e ≡ b'e') ⊎ (e ≡ b'E'))
        × IsExponentSign sign
        × SomeDigits ds)

-- The grammar of a JSON number (RFC 8259, section 6).
pub record IsNumber (text : Bytes) : Type 0 where
  pub sign : Bytes
  pub integer : Bytes
  pub fraction : Bytes
  pub exponent : Bytes
  pub text_eq : text ≡ ((sign ++ integer) ++ fraction) ++ exponent
  pub is_sign : IsSign sign
  pub is_integer : IsInteger integer
  pub is_fraction : IsFraction fraction
  pub is_exponent : IsExponent exponent

IsInteger-nonempty : (w : Bytes) → IsInteger w → 0 < length w
IsInteger-nonempty w (inl e) = omega (arith, ap length e)
IsInteger-nonempty w (inr (d, ds, e, _, _)) = omega (arith, ap length e)

pub IsNumber-nonempty : (w : Bytes) → IsNumber w → 0 < length w
IsNumber-nonempty w h =
    let parts = length-append ((h.sign ++ h.integer) ++ h.fraction) h.exponent in
    let more_parts = length-append (h.sign ++ h.integer) h.fraction in
    omega (
      arith,
      ap length h.text_eq,
      length-append h.sign h.integer,
      IsInteger-nonempty h.integer h.is_integer,
    )

-- `q` stands behind the bytes `w`, which are the first of `p`.
abbrev pub Takes : Bytes → Parser → Parser → Type 0
Takes w p q = (p.rest ≡ w ++ q.rest) × (q.position ≡ p.position + length w)

pub Takes-trans : (u v : Bytes) (p q r : Parser) → Takes u p q → Takes v q r → Takes (u ++ v) p r
Takes-trans u v p q r (a, b) (c, d) =
    (a ∙ ap (◌++◌ u) c ∙ sym (append_assoc u v r.rest), omega (arith, length-append u v))

pub nothing_taken : (p : Parser) → Takes [] p p
nothing_taken p = (refl, omega arith)

pub Takes-Later : (w : Bytes) (p q : Parser) → Takes w p q → Later (length w) p q
Takes-Later w p q (a, b) = omega (arith, length-append w q.rest, ap length a)

at_first :
    (test : ℕ → Bool) (position : ℕ) (cs : Bytes)
    → let p : Parser = record { position = position; rest = cs } in
      at_byte test p ≡ true → (c : ℕ) × (test c ≡ true) × Takes (c ∷ []) p (advance 1 p)
at_first test position [] h = cc
at_first test position (c ∷ cs) h = (c, h, (refl, omega arith))

pub at_byte-Takes :
    (test : ℕ → Bool) (p : Parser)
    → at_byte test p ≡ true
    → (c : ℕ) × (test c ≡ true) × Takes (c ∷ []) p (advance 1 p)
at_byte-Takes test p h = at_first test p.position p.rest h

digits_from-Takes :
    (n : ℕ) (cs : Bytes)
    → (ds : Bytes) × AllDigits ds × Takes ds (record { position = n; rest = cs }) (digits_from n cs)
unfolding digits_from
digits_from-Takes n [] = ([], tt, (refl, omega arith))
digits_from-Takes n (c ∷ cs) =
    let (ds, digits, taken) = digits_from-Takes (n + 1) cs in
    elim (Bool-cases (is_digit c)) [
      | inl digit ↦ (c ∷ ds, (digit, digits), rw digit (ap (◌∷◌ c) taken.0, omega arith))
      | inr other ↦ ([], tt, rw other (refl, omega arith))
    ]

skip_digits-Takes : (p : Parser) → (ds : Bytes) × AllDigits ds × Takes ds p (skip_digits p)
unfolding skip_digits
skip_digits-Takes p = digits_from-Takes p.position p.rest

-- A part of the grammar, from `p` on, inside a text of `t` bytes.
abbrev Reads : ℕ → (Bytes → Type 0) → Parser → Result Parser → Type 0
Reads t P p = Ensures t (λ q. (w : Bytes) × P w × Takes w p q)

sign_byte : (c : ℕ) → ((c == b'+') || (c == b'-')) ≡ true → IsExponentSign (c ∷ [])
sign_byte c h = ground arith

drop_twice : (cs : Bytes) → drop 1 (drop 1 cs) ≡ drop 2 cs
drop_twice [] = refl
drop_twice (c ∷ []) = refl
drop_twice (c ∷ d ∷ cs) = refl

take-length-append : (w r : Bytes) → take (length w) (w ++ r) ≡ w
take-length-append [] r = refl
take-length-append (c ∷ w) r = ap (◌∷◌ c) (take-length-append w r)

taken_text : (w : Bytes) (p q : Parser) → Takes w p q → take (q.position - p.position) p.rest ≡ w
taken_text w p q (a, b) =
    let count : q.position - p.position ≡ length w = omega arith in
    rw (count, a) (take-length-append w q.rest)

module _ {t : ℕ} where
  number_sign-Reads : (p : Parser) → Inside t p → Reads t IsSign p (number_sign p)
  unfolding number_sign
  number_sign-Reads p i = elim (Bool-cases (at_byte (λ c. c == b'-') p)) [
    | inr none_there ↦ rw none_there (holds ([], inl refl, nothing_taken p))
    | inl minus ↦
        let (c, is_minus, taken) = at_byte-Takes (λ c. c == b'-') p minus in
        let later = Takes-Later (c ∷ []) p (advance 1 p) taken in
        rw minus (elim (Bool-cases (at_byte (λ c. true) (advance 1 p))) [
          | inl some_left ↦
              rw some_left
                (holds (c ∷ [], inr (ap (λ x. x ∷ []) ((==_iff c b'-').0 is_minus)), taken))
          | inr ended ↦ rw ended (fails (omega arith))
        ])
  ]

  number_integer-Reads : (p : Parser) → Inside t p → Reads t IsInteger p (number_integer p)
  unfolding number_integer
  number_integer-Reads p i = elim (Bool-cases (at_byte (λ c. c == b'0') p)) [
    | inl nought ↦
        let (c, is_nought, taken) = at_byte-Takes (λ c. c == b'0') p nought in
        let later = Takes-Later (c ∷ []) p (advance 1 p) taken in
        rw nought (elim (Bool-cases (at_byte is_digit (advance 1 p))) [
          | inl leading ↦ rw leading (fails (omega arith))
          | inr alone ↦
              rw alone (holds (c ∷ [], inl (ap (λ x. x ∷ []) ((==_iff c b'0').0 is_nought)), taken))
        ])
    | inr other ↦ elim (Bool-cases (at_byte (within b'1' b'9') p)) [
      | inr bad ↦ rw (other, bad) (fails (omega arith))
      | inl first ↦
          let (c, is_first, taken) = at_byte-Takes (within b'1' b'9') p first in
          let (ds, digits, more_taken) = skip_digits-Takes (advance 1 p) in
          rw (other, first)
            (holds (
              c ∷ ds,
              inr (c, ds, refl, is_first, digits),
              Takes-trans (c ∷ []) ds p (advance 1 p) (skip_digits (advance 1 p)) taken more_taken,
            ))
    ]
  ]

  some_digits-Reads :
      (m : Message) (p : Parser) → Inside t p → Reads t SomeDigits p (some_digits m p)
  unfolding some_digits
  some_digits-Reads m p i =
      let (ds, digits, taken) = skip_digits-Takes p in
      let later = Takes-Later ds p (skip_digits p) taken in
      elim (Bool-cases ((skip_digits p).position == p.position)) [
        | inl same ↦ rw same (fails (omega arith))
        | inr longer ↦ rw longer (holds (ds, (digits, ground arith), taken))
      ]

  number_fraction-Reads : (p : Parser) → Inside t p → Reads t IsFraction p (number_fraction p)
  unfolding number_fraction
  number_fraction-Reads p i = elim (Bool-cases (at_byte (λ c. c == b'.') p)) [
    | inr none_there ↦ rw none_there (holds ([], inl refl, nothing_taken p))
    | inl point ↦
        let (c, is_point, taken) = at_byte-Takes (λ c. c == b'.') p point in
        let later = Takes-Later (c ∷ []) p (advance 1 p) taken in
        rw point (
          Ensures-mono (some_digits-Reads fraction_no_digits (advance 1 p) (omega arith))
            λ q (ds, digits, more_taken). (
              c ∷ ds,
              inr (ds, ap (λ x. x ∷ ds) ((==_iff c b'.').0 is_point), digits),
              Takes-trans (c ∷ []) ds p (advance 1 p) q taken more_taken,
            ))
  ]

  IsExponent-digits-Reads :
      (p q : Parser) (e : ℕ) (sign : Bytes)
      → Inside t p
      → Takes (e ∷ sign) p q
      → ((e == b'e') || (e == b'E')) ≡ true
      → IsExponentSign sign
      → Reads t IsExponent p (some_digits exponent_no_digits q)
  IsExponent-digits-Reads p q e sign i taken is_e is_sign =
      let later = Takes-Later (e ∷ sign) p q taken in
      Ensures-mono (some_digits-Reads exponent_no_digits q (omega arith))
        λ r (ds, digits, more_taken). (
          (e ∷ sign) ++ ds,
          inr (e, sign, ds, refl, ground arith, is_sign, digits),
          Takes-trans (e ∷ sign) ds p q r taken more_taken,
        )

  number_exponent-Reads : (p : Parser) → Inside t p → Reads t IsExponent p (number_exponent p)
  unfolding number_exponent
  number_exponent-Reads p i = elim (Bool-cases (at_byte (λ c. (c == b'e') || (c == b'E')) p)) [
    | inr none_there ↦ rw none_there (holds ([], inl refl, nothing_taken p))
    | inl there ↦
        let (e, is_e, taken) = at_byte-Takes (λ c. (c == b'e') || (c == b'E')) p there in
        let q = advance 1 p in
        rw there (elim (Bool-cases (at_byte (λ c. (c == b'+') || (c == b'-')) q)) [
          | inr bare ↦ rw bare (IsExponent-digits-Reads p q e [] i taken is_e (inl refl))
          | inl signed ↦
              let (s, is_s, sign_taken) =
                at_byte-Takes (λ c. (c == b'+') || (c == b'-')) q signed in
              let both = Takes-trans (e ∷ []) (s ∷ []) p q (advance 1 q) taken sign_taken in
              rw signed (
                IsExponent-digits-Reads p (advance 2 p) e (s ∷ []) i
                  (both.0 ∙ ap (λ cs. e ∷ s ∷ cs) (drop_twice p.rest), omega arith) is_e
                  (sign_byte s is_s))
        ])
  ]

  -- The bytes that `parse_number` scans are a number of the grammar.
  number_end-Reads : (p : Parser) → Inside t p → Reads t IsNumber p (number_end p)
  unfolding number_end
  number_end-Reads p i = Ensures-bind (number_sign-Reads p i) λ q (sign, is_sign, a).
      let later_q = Takes-Later sign p q a in
      Ensures-bind (number_integer-Reads q (omega arith)) λ r (integer, is_integer, b).
        let later_r = Takes-Later integer q r b in
        Ensures-bind (number_fraction-Reads r (omega arith)) λ s (fraction, is_fraction, c).
          let later_s = Takes-Later fraction r s c in
          Ensures-mono (number_exponent-Reads s (omega arith)) λ u (exponent, is_exponent, d). (
            ((sign ++ integer) ++ fraction) ++ exponent,
            record {
              sign = sign;
              integer = integer;
              fraction = fraction;
              exponent = exponent;
              text_eq = refl;
              is_sign = is_sign;
              is_integer = is_integer;
              is_fraction = is_fraction;
              is_exponent = is_exponent;
            },
            Takes-trans ((sign ++ integer) ++ fraction) exponent p s u
                (Takes-trans (sign ++ integer) fraction p r s (Takes-trans sign integer p q r a b)
                  c)
                d,
          )

  -- From a parser that stands inside a text of `t` bytes, `parse_number` ends: in a failure whose
  -- position is at most `t`, or in a number whose text is the bytes that the parser has passed,
  -- and is a number of the JSON grammar.
  pub parse_number-Ensures :
      (granted : Allocator) (p : Parser)
      → Inside t p
      → Ensures t
          (λ r. (w : Bytes) × (r.0 ≡ number w) × IsNumber w × Takes w p r.1)
          (parse_number granted p)
  unfolding parse_number new_value
  parse_number-Ensures granted p i = Ensures-bind (number_end-Reads p i) λ q (w, is_number, taken).
      let later = Takes-Later w p q taken in
      let count = q.position - p.position in
      elim (Bool-cases (granted q.position value_size)) [
        | inr refused ↦ rw refused (fails (omega arith))
        | inl given ↦ rw given (elim (Bool-cases (count == size_max)) [
          | inl huge ↦ rw huge (fails (omega arith))
          | inr fits ↦ rw fits (elim (Bool-cases (granted q.position (count + 1))) [
            | inr again ↦ rw again (fails (omega arith))
            | inl text ↦ rw text (holds (w, ap number (taken_text w p q taken), is_number, taken))
          ])
        ])
      ]
