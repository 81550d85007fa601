-- ===== src/Json/Sound.antt =====
-- Proofs on `parse_value` and `inkling_json_parse` of src/io/inkling_json.c.
pub use inkling_in_c.Json.Valid.{IsValid}
use inkling_in_c.Json.Numbers.{new_value, value_size, parse_number}
use inkling_in_c.Json.Parse.{
  starts, parse_literal, array_loop, parse_array, parse_member, object_loop, parse_object,
  object_has_key, parse_text, parse_at, parse_value, parse_document, max_levels, start,
}
use inkling_in_c.Prelude.{
  ℕ, Bytes, ◌≡◌, true, ◌∷◌, Bool-cases, length, arith, ◌≤◌, inr, ◌<◌, inl, [], suc, List-cases, ap,
  zero, if◌then◌else◌, ◌==◌, false, subst, sym, ◌||◌,
}
use inkling_in_c.Json.Buffer.{Allocator}
use inkling_in_c.Json.Text.{
  Parser, Result, skip_whitespace, advance, Message, expected_comma_or_bracket, at_byte, ok,
  parser_fail, expected_comma_or_brace, is_digit,
}
use inkling_in_c.Json.Ensures.{
  Inside, Ensures, Later, Ensures-mono, fails, holds, advance-Later, Ensures-bind,
  skip_whitespace-Later, at_byte-nonempty,
}
use inkling_in_c.Json.Value.{
  Value, Items, count_items, array, Members, count_members, object, no_items, no_members, boolean,
  null,
}
use inkling_in_c.Json.Valid.{
  AreValid, AreValid-snoc, is_array, IsDictionary, none_left, is_object, no_keys, IsDictionary-snoc,
  object_has_key-IsFresh, is_string, is_boolean, is_null, is_number,
}
use inkling_in_c.Json.Room.{IsRoomy, append_array_item-Ensures, append_object_member-Ensures}
use inkling_in_c.Json.Texts.{parse_string-Ensures}
use inkling_in_c.Json.Grammar.{parse_number-Ensures, IsNumber-nonempty, Takes-Later}

new_value-Ensures :
    (granted : Allocator) {t : ℕ} (p : Parser)
    → Inside t p
    → Ensures t (λ _. Unit {0}) (new_value granted p)
unfolding new_value
new_value-Ensures granted p i = elim (Bool-cases (granted p.position value_size)) [
  | inl given ↦ rw given (holds tt)
  | inr refused ↦ rw refused (fails (omega arith))
]

starts-length : (w cs : Bytes) → starts w cs ≡ true → length w ≤ length cs
unfolding starts
starts-length [] cs h = omega arith
starts-length (x ∷ w) [] h = cc
starts-length (x ∷ w) (y ∷ cs) h = omega (arith, starts-length w cs (ground arith))

-- A value is read from `p` on: a byte at least is passed, and none beyond the text.
abbrev pub Yields : ℕ → ℕ → Parser → Result (Value × Parser) → Type 0
Yields t n p = Ensures t (λ r. Later 1 p r.1 × IsValid n r.0)

Yields-Later :
    {t n : ℕ} (p q : Parser) {m : Result (Value × Parser)}
    → Later 0 p q
    → Yields t n q m
    → Yields t n p m
Yields-Later p q l h = Ensures-mono h λ r x. (omega arith, x.1)

-- After an element at `s`: the closing byte, a comma with what follows it, or an error.
separator-Yields :
    {t n : ℕ} (p s s' : Parser) (c close : ℕ) (done : Value) (m : Message)
    {again : Result (Value × Parser)}
    → Inside t p
    → Later 1 p s
    → Later 0 s s'
    → IsValid n done
    → Yields t n s' again
    → Yields t n p
        (if c == close then ok (done, s) else if c == b',' then again else parser_fail s m)
separator-Yields p s s' c close done m i l l' h k = elim (Bool-cases (c == close)) [
  | inl closed ↦ rw closed (holds (l, h))
  | inr other ↦ elim (Bool-cases (c == b',')) [
    | inl comma ↦ rw (other, comma) (Yields-Later p s' (omega arith) k)
    | inr bad ↦ rw (other, bad) (fails (omega arith))
  ]
]

module _ (granted : Allocator) {t : ℕ} where
  parse_literal-Yields :
      {n : ℕ} (p : Parser) (c : ℕ) (w : Bytes) (v : Value)
      → Inside t p
      → IsValid n v
      → Yields t n p (parse_literal granted p (c ∷ w) v)
  unfolding parse_literal
  parse_literal-Yields p c w v i h = elim (Bool-cases (starts (c ∷ w) p.rest)) [
    | inr other ↦ rw other (fails (omega arith))
    | inl same ↦
        let behind = advance-Later (length (c ∷ w)) p (starts-length (c ∷ w) p.rest same) in
        rw same (Ensures-bind (new_value-Ensures granted p i) λ _ _. holds (omega arith, h))
  ]

  module _ {n : ℕ} (inner : Parser → Result (Value × Parser))
      (ih : (p : Parser) → Inside t p → Yields t n p (inner p)) where
    array_loop-Yields :
        (f : ℕ) (p : Parser) (items : Items) (capacity : ℕ)
        → Inside t p
        → length p.rest < f
        → AreValid n items
        → IsRoomy 8 (count_items items) capacity
        → Yields t (suc n) p (array_loop granted inner f p items capacity)
    unfolding array_loop
    array_loop-Yields zero p items capacity i fuel h room = absurd (omega arith)
    array_loop-Yields (suc f) p items capacity i fuel h room =
        Ensures-bind (ih p i) λ (v, q) (behind, is_v).
          Ensures-bind (append_array_item-Ensures granted q items capacity v (omega arith) room)
            λ (items', capacity') (same, room').
              let r = skip_whitespace q in
              let spaces = skip_whitespace-Later q in
              let valid' : AreValid n items' = rw same (AreValid-snoc h is_v) in
              elim (List-cases r.rest) [
                | inl ended ↦ rw ended (fails (omega arith))
                | inr (c, cs, e) ↦
                    let s = advance 1 r in
                    let byte : Later 1 r s = advance-Later 1 r (omega (arith, ap length e)) in
                    let more_spaces = skip_whitespace-Later s in
                    rw e (
                      separator-Yields p s (skip_whitespace s) c b']' (array items')
                        expected_comma_or_bracket i (omega arith) more_spaces (is_array valid')
                        (array_loop-Yields f (skip_whitespace s) items' capacity' (omega arith)
                          (omega arith) valid' room'))
              ]

    parse_array-Yields :
        (p : Parser)
        → Inside t p
        → 0 < length p.rest
        → Yields t (suc n) p (parse_array granted inner p)
    unfolding parse_array
    parse_array-Yields p i some_left = Ensures-bind (new_value-Ensures granted p i) λ _ _.
        let byte = advance-Later 1 p some_left in
        let q = skip_whitespace (advance 1 p) in
        let spaces = skip_whitespace-Later (advance 1 p) in
        elim (Bool-cases (at_byte (λ c. c == b']') q)) [
          | inl empty ↦
              let close = advance-Later 1 q (at_byte-nonempty (λ c. c == b']') q empty) in
              rw empty (holds (omega arith, is_array none_left))
          | inr filled ↦ rw filled (
              Yields-Later p q (omega arith) (
                array_loop-Yields (suc (length q.rest)) q no_items 0 (omega arith) (omega arith)
                  none_left (omega arith)))
        ]

    -- A member is read from `p` on, and keeps the members a dictionary.
    parse_member-Ensures :
        (p : Parser) (ms : Members) (capacity : ℕ)
        → Inside t p
        → IsDictionary n ms
        → IsRoomy 24 (count_members ms) capacity
        → Ensures t
            (λ r. Later 1 p r.1 × IsDictionary n r.0.0 × IsRoomy 24 (count_members r.0.0) r.0.1)
            (parse_member granted inner p ms capacity)
    unfolding parse_member
    parse_member-Ensures p ms capacity i h room =
        Ensures-bind (parse_string-Ensures granted p i) λ (key, q) (behind, is_key).
          let r = skip_whitespace q in
          let spaces = skip_whitespace-Later q in
          elim (Bool-cases (object_has_key ms key)) [
            | inl twice ↦ rw twice (fails (omega arith))
            | inr fresh ↦ rw fresh (elim (Bool-cases (at_byte (λ c. c == b':') r)) [
              | inr missing ↦ rw missing (fails (omega arith))
              | inl colon ↦
                  let byte = advance-Later 1 r (at_byte-nonempty (λ c. c == b':') r colon) in
                  rw colon (
                    Ensures-bind (ih (advance 1 r) (omega arith)) λ (v, s) (behind_s, is_v).
                      Ensures-bind
                        (append_object_member-Ensures granted s ms capacity key v (omega arith)
                          room)
                        λ (ms', capacity') (same, room'). holds (
                          omega arith,
                          rw same (
                              IsDictionary-snoc key v h (object_has_key-IsFresh key ms fresh) is_key
                                is_v),
                          room',
                        ))
            ])
          ]

    object_loop-Yields :
        (f : ℕ) (p : Parser) (ms : Members) (capacity : ℕ)
        → Inside t p
        → length p.rest < f
        → IsDictionary n ms
        → IsRoomy 24 (count_members ms) capacity
        → Yields t (suc n) p (object_loop granted inner f p ms capacity)
    unfolding object_loop
    object_loop-Yields zero p ms capacity i fuel h room = absurd (omega arith)
    object_loop-Yields (suc f) p ms capacity i fuel h room =
        Ensures-bind (parse_member-Ensures p ms capacity i h room)
          λ ((ms', capacity'), q) (behind, valid', room').
            let r = skip_whitespace q in
            let spaces = skip_whitespace-Later q in
            elim (List-cases r.rest) [
              | inl ended ↦ rw ended (fails (omega arith))
              | inr (c, cs, e) ↦
                  let s = advance 1 r in
                  let byte : Later 1 r s = advance-Later 1 r (omega (arith, ap length e)) in
                  let more_spaces = skip_whitespace-Later s in
                  rw e (
                    separator-Yields p s (skip_whitespace s) c b'}' (object ms')
                      expected_comma_or_brace i (omega arith) more_spaces (is_object valid')
                      (object_loop-Yields f (skip_whitespace s) ms' capacity' (omega arith)
                        (omega arith) valid' room'))
            ]

    parse_object-Yields :
        (p : Parser)
        → Inside t p
        → 0 < length p.rest
        → Yields t (suc n) p (parse_object granted inner p)
    unfolding parse_object
    parse_object-Yields p i some_left = Ensures-bind (new_value-Ensures granted p i) λ _ _.
        let byte = advance-Later 1 p some_left in
        let q = skip_whitespace (advance 1 p) in
        let spaces = skip_whitespace-Later (advance 1 p) in
        elim (Bool-cases (at_byte (λ c. c == b'}') q)) [
          | inl empty ↦
              let close = advance-Later 1 q (at_byte-nonempty (λ c. c == b'}') q empty) in
              rw empty (holds (omega arith, is_object no_keys))
          | inr filled ↦ rw filled (
              Yields-Later p q (omega arith) (
                object_loop-Yields (suc (length q.rest)) q no_members 0 (omega arith) (omega arith)
                  no_keys (omega arith)))
        ]

    parse_text-Yields : (p : Parser) → Inside t p → Yields t (suc n) p (parse_text granted p)
    unfolding parse_text
    parse_text-Yields p i = Ensures-bind (new_value-Ensures granted p i) λ _ _.
        Ensures-bind (parse_string-Ensures granted p i)
          λ (s, q) (behind, is_text). holds (behind, is_string is_text)

    number-Yields : (p : Parser) → Inside t p → Yields t (suc n) p (parse_number granted p)
    number-Yields p i =
        Ensures-mono (parse_number-Ensures granted p i) λ (v, q) (w, e, is_w, taken).
          let some_bytes = IsNumber-nonempty w is_w in
          let behind = Takes-Later w p q taken in
          (omega arith, subst (IsValid (suc n)) (sym e) (is_number is_w))

    parse_at-Yields :
        (p : Parser) (c : ℕ)
        → Inside t p
        → 0 < length p.rest
        → Yields t (suc n) p (parse_at granted inner p c)
    unfolding parse_at
    parse_at-Yields p c i some_left = elim (Bool-cases (c == b'{')) [
      | inl brace ↦ rw brace (parse_object-Yields p i some_left)
      | inr a ↦ elim (Bool-cases (c == b'[')) [
        | inl bracket ↦ rw (a, bracket) (parse_array-Yields p i some_left)
        | inr b ↦ elim (Bool-cases (c == b'"')) [
          | inl quote ↦ rw (a, b, quote) (parse_text-Yields p i)
          | inr d ↦ elim (Bool-cases (c == b't')) [
            | inl letter ↦
                rw (a, b, d, letter) (parse_literal-Yields p b't' _ (boolean true) i is_boolean)
            | inr e ↦ elim (Bool-cases (c == b'f')) [
              | inl letter ↦
                  rw (a, b, d, e, letter)
                    (parse_literal-Yields p b'f' _ (boolean false) i is_boolean)
              | inr f ↦ elim (Bool-cases (c == b'n')) [
                | inl letter ↦
                    rw (a, b, d, e, f, letter) (parse_literal-Yields p b'n' _ null i is_null)
                | inr g ↦ elim (Bool-cases (c == b'-' || is_digit c)) [
                  | inl digit ↦ rw (a, b, d, e, f, g, digit) (number-Yields p i)
                  | inr other ↦ rw (a, b, d, e, f, g, other) (fails (omega arith))
                ]
              ]
            ]
          ]
        ]
      ]
    ]

  parse_value-Yields : (n : ℕ) (p : Parser) → Inside t p → Yields t n p (parse_value granted n p)
  unfolding parse_value
  parse_value-Yields zero p i = let spaces = skip_whitespace-Later p in fails (omega arith)
  parse_value-Yields (suc n) p i =
      let q = skip_whitespace p in
      let spaces = skip_whitespace-Later p in
      elim (List-cases q.rest) [
        | inl ended ↦ rw (ended, parse_value) (fails (omega arith))
        | inr (c, cs, e) ↦
            rw (e, parse_value)
              (Yields-Later p q spaces (
                parse_at-Yields (parse_value granted n) (parse_value-Yields n) q c (omega arith)
                  (omega (arith, ap length e))))
      ]

-- For every text and every behaviour of the allocator the reader ends: in a value that is valid
-- (at most 257 levels of nesting, numbers of the grammar, strings and keys of well-formed UTF-8,
-- no key twice in an object), or in a failure whose position is at most the length of the text.
pub parse_document-Ensures :
    (granted : Allocator) (text : Bytes)
    → Ensures (length text) (IsValid max_levels) (parse_document granted text)
unfolding parse_document
parse_document-Ensures granted text =
    Ensures-bind (parse_value-Yields granted max_levels (start text) (omega arith))
      λ (root, p) (behind, is_root).
        let spaces = skip_whitespace-Later p in
        elim (Bool-cases (at_byte (λ c. true) (skip_whitespace p))) [
          | inl more_text ↦ rw more_text (fails (omega arith))
          | inr ended ↦ rw ended (holds is_root)
        ]
