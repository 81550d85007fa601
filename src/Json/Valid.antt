-- ===== src/Json/Valid.antt =====
-- The valid values: their nesting is bounded, their numbers keep to the grammar, their strings are
-- UTF-8, and no object has a key twice.
use inkling_in_c.Prelude.{Bytes, ℕ, suc, ◌≢◌, ◌≡◌, sym, false, Bool, arith, bytes_eq_iff}
use inkling_in_c.Json.Value.{
  snoc_item, snoc_member, Members, Value, Items, member, null, boolean, number, string, array,
  object, no_items, item, no_members,
}
use inkling_in_c.Json.Parse.{object_has_key}
use inkling_in_c.Json.Encoding.{IsUtf8}
use inkling_in_c.Json.Grammar.{IsNumber}

-- No member has the key.
abbrev pub IsFresh : Bytes → Members → Type 0
IsFresh k no_members = Unit {0}
IsFresh k (member j v ms) = (j ≢ k) × IsFresh k ms

mutual
  -- A value whose nesting takes at most `n` levels.
  pub data IsValid : ℕ → Value → Type 0 where
    is_null : {n : ℕ} → IsValid (suc n) null
    is_boolean : {n : ℕ} {b : Bool} → IsValid (suc n) (boolean b)
    is_number : {n : ℕ} {w : Bytes} → IsNumber w → IsValid (suc n) (number w)
    is_string : {n : ℕ} {s : Bytes} → IsUtf8 s → IsValid (suc n) (string s)
    is_array : {n : ℕ} {vs : Items} → AreValid n vs → IsValid (suc n) (array vs)
    is_object : {n : ℕ} {ms : Members} → IsDictionary n ms → IsValid (suc n) (object ms)

  pub data AreValid : ℕ → Items → Type 0 where
    none_left : {n : ℕ} → AreValid n no_items
    next_item :
        {n : ℕ} {v : Value} {vs : Items} → IsValid n v → AreValid n vs → AreValid n (item v vs)

  -- Each key is UTF-8, and differs from those behind it.
  pub data IsDictionary : ℕ → Members → Type 0 where
    no_keys : {n : ℕ} → IsDictionary n no_members
    next_key :
        {n : ℕ} {k : Bytes} {v : Value} {ms : Members}
        → IsUtf8 k
        → IsFresh k ms
        → IsValid n v
        → IsDictionary n ms
        → IsDictionary n (member k v ms)

pub AreValid-snoc :
    {n : ℕ} {v : Value} {vs : Items} → AreValid n vs → IsValid n v → AreValid n (snoc_item vs v)
unfolding snoc_item
AreValid-snoc none_left h = next_item h none_left
AreValid-snoc (next_item x xs) h = next_item x (AreValid-snoc xs h)

IsFresh-snoc :
    (j k : Bytes) (v : Value) (ms : Members) → IsFresh j ms → k ≢ j → IsFresh j (snoc_member ms k v)
unfolding snoc_member
IsFresh-snoc j k v no_members h ne = (ne, tt)
IsFresh-snoc j k v (member i w ms) h ne = (h.0, IsFresh-snoc j k v ms h.1 ne)

pub IsDictionary-snoc :
    {n : ℕ} (k : Bytes) (v : Value) {ms : Members}
    → IsDictionary n ms
    → IsFresh k ms
    → IsUtf8 k
    → IsValid n v
    → IsDictionary n (snoc_member ms k v)
unfolding snoc_member
IsDictionary-snoc k v no_keys f u h = next_key u tt h no_keys
IsDictionary-snoc k v (next_key {k = j} {ms = ms} uj fj x xs) f u h =
    next_key uj (IsFresh-snoc j k v ms fj (λ e. f.0 (sym e))) x (IsDictionary-snoc k v xs f.1 u h)

-- `object_has_key` finds a key exactly when a member has it.
pub object_has_key-IsFresh : (k : Bytes) (ms : Members) → object_has_key ms k ≡ false → IsFresh k ms
unfolding object_has_key
object_has_key-IsFresh k no_members h = tt
object_has_key-IsFresh k (member j v ms) h =
    (λ e. ground (arith, (bytes_eq_iff j k).1 e), object_has_key-IsFresh k ms (ground arith))
