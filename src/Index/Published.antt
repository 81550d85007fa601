-- ===== src/Index/Published.antt =====
-- Proofs on `bind_tensors` of src/io/inkling_index.c, with the specification of what it leaves.
use mathlib.Core.Option
use inkling_in_c.Index.Table.{Index, find_tensor}
use inkling_in_c.Index.Bind.{with_metadata}
use inkling_in_c.Index.Placed.{IsPlaced, search_entries}
use inkling_in_c.Safetensors.Header.{Tensor}
use inkling_in_c.Prelude.{ℕ, get_elem?, ◌≡◌, some, set, Bytes, Option, none, List, All}

-- An entry is overwritten by one of the same name.
module _ (index : Index) (place : ℕ) (old new : Tensor)
    (here : get_elem? index.entries place ≡ some old) (same : new.name ≡ old.name) where
  abbrev next_index : Index
  next_index = record index { entries = set index.entries place new }

-- The specification of `bind_tensors` for one name: the entry, with the metadata of the tensor of that
-- name where the header has one.
unfoldable pub bound_entry : Option Tensor → Option Tensor → Option Tensor
bound_entry (some t) o = Option.map (λ entry. with_metadata entry t) o
bound_entry none o = o

-- Each tensor of the header has an entry.
abbrev AllKnown : Index → List Tensor → Type 0
AllKnown index = All λ t. (entry : Tensor) × (find_tensor index t.name ≡ some entry)

record IsPublished (index : Index) (ts : List Tensor) (next : Index) : Type 0 where
  is_placed : IsPlaced next
  agrees :
      (name : Bytes)
      → find_tensor next name ≡ bound_entry (search_entries ts name) (find_tensor index name)
