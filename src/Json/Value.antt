-- ===== src/Json/Value.antt =====
-- `InklingJsonValue`: the tree that the parser builds. The arrays of pointers of the C structure
-- are the lists `Items` and `Members`, in order.
use inkling_in_c.Prelude.{Bytes, ℕ, suc, Bool, List, [], ◌∷◌}

mutual
  pub data Value : Type 0 where
    null : Value
    boolean : Bool → Value
    number : Bytes → Value
    string : Bytes → Value
    array : Items → Value
    object : Members → Value

  pub data Items : Type 0 where
    no_items : Items
    item : Value → Items → Items

  -- `JsonMember`: a key and its value.
  pub data Members : Type 0 where
    no_members : Members
    member : Bytes → Value → Members → Members

abbrev pub count_items : Items → ℕ
count_items no_items = 0
count_items (item v vs) = suc (count_items vs)

abbrev pub count_members : Members → ℕ
count_members no_members = 0
count_members (member k v ms) = suc (count_members ms)

-- The keys of an object, in order.
abbrev pub keys : Members → List Bytes
keys no_members = []
keys (member k v ms) = k ∷ keys ms

-- A write of `items[count]`.
unfoldable pub snoc_item : Items → Value → Items
snoc_item no_items v = item v no_items
snoc_item (item w vs) v = item w (snoc_item vs v)

-- A write of `members[count]`.
unfoldable pub snoc_member : Members → Bytes → Value → Members
snoc_member no_members k v = member k v no_members
snoc_member (member j w ms) k v = member j w (snoc_member ms k v)
