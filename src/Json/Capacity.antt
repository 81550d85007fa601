-- ===== src/Json/Capacity.antt =====
-- Proofs on `reserve_buffer` and `append_bytes` of src/io/inkling_json.c.
use native.Mathlib.Nat.{pow-suc}
use inkling_in_c.Prelude.{
  ltb, leb, ◌==◌, if◌then◌else◌, lt→ltb, leb→le, Bool-cases, length, length-append, Bytes, ℕ, zero,
  suc, ◌+◌, ◌-◌, ◌*◌, ◌/◌, ◌^◌, ◌≤◌, ◌≡◌, refl, inl, inr, ◌++◌, arith, size_max,
}
use inkling_in_c.Json.Text.{Parser}
use inkling_in_c.Json.Buffer.{Allocator, Buffer, grow_capacity, reserve_buffer, append_bytes}
use inkling_in_c.Json.Ensures.{Ensures, holds, fails, Ensures-bind, Inside}

-- With `f` doublings left the capacity can pass the largest `size_t`.
grow_capacity-Ensures :
    {t : ℕ} (f capacity needed : ℕ)
    → 2 ^ 63 ≤ capacity * 2 ^ f
    → Ensures t (λ c. needed ≤ c) (grow_capacity (suc f) capacity needed)
unfolding grow_capacity
grow_capacity-Ensures zero capacity needed h = elim (Bool-cases (ltb capacity needed)) [
  | inl short ↦ rw short (rw (lt→ltb (size_max / 2) capacity (omega arith)) (holds (omega arith)))
  | inr fits ↦ rw fits (holds (ground arith))
]
grow_capacity-Ensures (suc f) capacity needed h = elim (Bool-cases (ltb capacity needed)) [
  | inl short ↦ rw short (elim (Bool-cases (ltb (size_max / 2) capacity)) [
    | inl large ↦ rw large (holds (omega arith))
    | inr small ↦ rw small (
        grow_capacity-Ensures f (capacity * 2) needed
          (let h' : 2 ^ 63 ≤ capacity * (2 ^ f * 2) = rw (pow-suc 2 f) at h in omega arith))
  ])
  | inr fits ↦ rw fits (holds (ground arith))
]

first_capacity : (c : ℕ) → 2 ^ 63 ≤ (if c == 0 then 16 else c) * 2 ^ 63
first_capacity c = ground arith

module _ (granted : Allocator) {t : ℕ} where
  -- Room for `additional` bytes and the final NUL, with the bytes as they were.
  pub reserve_buffer-Ensures :
      (p : Parser) (buffer : Buffer) (additional : ℕ)
      → Inside t p
      → Ensures t
          (λ b. (b.bytes ≡ buffer.bytes) × (length b.bytes + additional + 1 ≤ b.capacity))
          (reserve_buffer granted p buffer additional)
  unfolding reserve_buffer
  reserve_buffer-Ensures p buffer additional h =
      let needed = length buffer.bytes + additional + 1 in
      elim (Bool-cases (ltb (size_max - length buffer.bytes - 1) additional)) [
        | inl large ↦ rw large (fails (omega arith))
        | inr small ↦ rw small (elim (Bool-cases (leb needed buffer.capacity)) [
          | inl fits ↦ rw fits (holds (refl, leb→le needed buffer.capacity fits))
          | inr short ↦ rw short (
              Ensures-bind
                (grow_capacity-Ensures 63 (if buffer.capacity == 0 then 16 else buffer.capacity)
                  needed (first_capacity buffer.capacity))
                λ capacity enough. elim (Bool-cases (granted p.position capacity)) [
                  | inl yes_ ↦ rw yes_ (holds (refl, enough))
                  | inr no_ ↦ rw no_ (fails (omega arith))
                ])
        ])
      ]

  -- From a parser inside a text of `t` bytes, `append_bytes` ends: in a failure whose position is
  -- at most `t`, or in a buffer of the old bytes followed by the new ones, with room for them and
  -- a final NUL in its allocation.
  pub append_bytes-Ensures :
      (p : Parser) (buffer : Buffer) (more : Bytes)
      → Inside t p
      → Ensures t
          (λ b. (b.bytes ≡ buffer.bytes ++ more) × (length b.bytes + 1 ≤ b.capacity))
          (append_bytes granted p buffer more)
  unfolding append_bytes
  append_bytes-Ensures p buffer more h =
      Ensures-bind (reserve_buffer-Ensures p buffer (length more) h)
        λ b (same, room). holds (rw same, omega (arith, length-append b.bytes more))
