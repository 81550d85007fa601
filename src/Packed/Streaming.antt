-- ===== src/Packed/Streaming.antt =====
-- Proofs on `sha_update` of src/model/inkling_packed.c: a call on bytes against a call on each byte.
use inkling_in_c.Packed.Sha.{Sha256, copy, flush, update_loop, sha_update}
use inkling_in_c.Prelude.{
  ℕ, Bytes, ◌≤◌, ◌<◌, set, ◌∷◌, ◌++◌, Bool-cases, ◌≡◌, ◌+◌, arith, length, ◌==◌, [], ap, inl,
  ==_iff, ◌∙◌, inr, ==_false, take, ◌%◌, suc, refl, min, ◌^◌, ◌-◌, sym, drop, length-append,
  length-drop, take-append-drop, length-take, zero,
}

-- The step on one byte.
unfoldable pub absorb : Sha256 → ℕ → Sha256
absorb hash c = flush (record hash { block = set hash.block hash.used c; used = hash.used + 1 })

unfoldable pub feed : Sha256 → Bytes → Sha256
unfolding absorb
feed hash [] = hash
feed hash (c ∷ cs) = feed (absorb hash c) cs

pub feed-append : (hash : Sha256) (xs ys : Bytes) → feed hash (xs ++ ys) ≡ feed (feed hash xs) ys
unfolding feed
feed-append hash [] ys = refl
feed-append hash (c ∷ cs) ys = feed-append (absorb hash c) cs ys

pub flush-used : (hash : Sha256) → hash.used ≤ 64 → (flush hash).used < 64
unfolding flush
flush-used hash h = elim (Bool-cases (hash.used == 64)) [
  | inl e ↦ rw e (omega arith)
  | inr e ↦ rw e (omega (arith, ==_false e))
]

feed-used : (hash : Sha256) (xs : Bytes) → hash.used < 64 → (feed hash xs).used < 64
unfolding feed absorb
feed-used hash [] h = h
feed-used hash (c ∷ cs) h = feed-used (absorb hash c) cs (flush-used _ (omega arith))

flush_small : (hash : Sha256) → hash.used < 64 → flush hash ≡ hash
unfolding flush
flush_small hash h = elim (Bool-cases (hash.used == 64)) [
  | inl e ↦ absurd (omega (arith, (==_iff hash.used 64).0 e))
  | inr e ↦ rw e
]

-- One `memcpy` that stays in the block is the steps on its bytes.
pub feed_piece :
    (hash : Sha256) (c : ℕ) (cs : Bytes)
    → hash.used + length (c ∷ cs) ≤ 64
    → feed hash (c ∷ cs)
      ≡ flush (record hash {
        block = copy hash.block hash.used (c ∷ cs);
        used = hash.used + length (c ∷ cs);
      })
unfolding feed absorb copy
feed_piece hash c [] h = refl
feed_piece hash c (d ∷ ds) h =
    let next : Sha256 = record hash { block = set hash.block hash.used c; used = hash.used + 1 } in
    ap (λ x. feed x (d ∷ ds)) (flush_small next (omega arith))
    ∙ feed_piece next d ds (omega arith)
    ∙ ap (λ n. flush (record hash { block = copy next.block next.used (d ∷ ds); used = n }))
        (omega arith)

feed-take :
    (hash : Sha256) (n : ℕ) (c : ℕ) (cs : Bytes)
    → hash.used + n ≤ 64
    → 0 < n
    → n ≤ length (c ∷ cs)
    → feed hash (take n (c ∷ cs))
      ≡ flush (record hash {
        block = copy hash.block hash.used (take n (c ∷ cs));
        used = hash.used + n;
      })
feed-take hash zero c cs h p l = absurd (omega arith)
feed-take hash (suc n) c cs h p l =
    feed_piece hash c (take n cs) (omega (arith, length-take n cs (omega arith)))
    ∙ ap
        (λ k.
          flush (record hash {
            block = copy hash.block hash.used (c ∷ take n cs);
            used = hash.used + k;
          }))
        (ap suc (length-take n cs (omega arith)))

-- The loop, on fuel that is enough, is the steps on the bytes.
pub update_loop-feed :
    (fuel : ℕ) (hash : Sha256) (input : Bytes)
    → hash.used < 64
    → length input ≤ fuel
    → update_loop fuel hash input ≡ feed hash input
unfolding update_loop feed
update_loop-feed fuel hash [] h l = refl
update_loop-feed zero hash (c ∷ cs) h l = absurd (omega arith)
update_loop-feed (suc fuel) hash (c ∷ cs) h l =
    let n = min (64 - hash.used) (length (c ∷ cs)) in
    let p : 0 < n = omega arith in
    let q : n ≤ length (c ∷ cs) = omega arith in
    let next =
      flush (record hash {
        block = copy hash.block hash.used (take n (c ∷ cs));
        used = hash.used + n;
      }) in
    let same : feed hash (take n (c ∷ cs)) ≡ next = feed-take hash n c cs (omega arith) p q in
    update_loop-feed fuel next (drop n (c ∷ cs)) (flush-used _ (omega arith))
      (omega (arith, length-drop n (c ∷ cs)))
    ∙ ap (λ x. feed x (drop n (c ∷ cs))) (sym same)
    ∙ sym (feed-append hash (take n (c ∷ cs)) (drop n (c ∷ cs)))
    ∙ ap (feed hash) (take-append-drop n (c ∷ cs))

abbrev pub count : Sha256 → ℕ → Sha256
count hash n = record hash { bytes = n }

flush-count : (hash : Sha256) (n : ℕ) → flush (count hash n) ≡ count (flush hash) n
unfolding flush
flush-count hash n = elim (Bool-cases (hash.used == 64)) [ inl e ↦ rw e | inr e ↦ rw e ]

pub feed-count :
    (hash : Sha256) (n : ℕ) (xs : Bytes) → feed (count hash n) xs ≡ count (feed hash xs) n
unfolding feed absorb
feed-count hash n [] = refl
feed-count hash n (c ∷ cs) =
    ap (λ x. feed x cs)
      (flush-count (record hash { block = set hash.block hash.used c; used = hash.used + 1 }) n)
    ∙ feed-count (absorb hash c) n cs

pub sha_update-feed :
    (hash : Sha256) (xs : Bytes)
    → hash.used < 64
    → sha_update hash xs ≡ count (feed hash xs) ((hash.bytes + length xs) % 2 ^ 64)
unfolding sha_update
sha_update-feed hash xs h = update_loop-feed (length xs) _ xs h (omega arith) ∙ feed-count hash _ xs

flush-bytes : (hash : Sha256) → (flush hash).bytes ≡ hash.bytes
unfolding flush
flush-bytes hash = elim (Bool-cases (hash.used == 64)) [ inl e ↦ rw e | inr e ↦ rw e ]

-- A hash of bytes in two pieces is the hash of the pieces together: `sha_update` on one and then on
-- the other leaves the state, the counter, the block and its fill that one call on both leaves.
pub sha_update-append :
    (hash : Sha256) (xs ys : Bytes)
    → hash.used < 64
    → sha_update (sha_update hash xs) ys ≡ sha_update hash (xs ++ ys)
sha_update-append hash xs ys h =
    let m = (hash.bytes + length xs) % 2 ^ 64 in
    ap (λ x. sha_update x ys) (sha_update-feed hash xs h)
    ∙ sha_update-feed (count (feed hash xs) m) ys (feed-used hash xs h)
    ∙ ap (λ x. count x ((m + length ys) % 2 ^ 64)) (feed-count (feed hash xs) m ys)
    ∙ ap (λ x. count x ((m + length ys) % 2 ^ 64)) (sym (feed-append hash xs ys))
    ∙ ap (count (feed hash (xs ++ ys))) (omega (arith, length-append xs ys))
    ∙ sym (sha_update-feed hash (xs ++ ys) h)

pub sha_update-used : (hash : Sha256) (xs : Bytes) → hash.used < 64 → (sha_update hash xs).used < 64
sha_update-used hash xs h =
    omega (arith, ap (λ x. x.used) (sha_update-feed hash xs h), feed-used hash xs h)

pub sha_update-bytes :
    (hash : Sha256) (xs : Bytes) → hash.used < 64 → (sha_update hash xs).bytes < 2 ^ 64
sha_update-bytes hash xs h = omega (arith, ap (λ x. x.bytes) (sha_update-feed hash xs h))

pub sha_update_nothing : (hash : Sha256) → hash.bytes < 2 ^ 64 → sha_update hash [] ≡ hash
unfolding sha_update update_loop
sha_update_nothing hash h =
    let same : (hash.bytes + 0) % 2 ^ 64 ≡ hash.bytes = omega arith in ap (count hash) same
