-- ===== src/Packed/Digest.antt =====
-- Proofs on the digests of src/model/inkling_packed.c, against SHA-256 as FIPS 180-4 defines it: the
-- padded message, in blocks of 64 bytes.
use inkling_in_c.Packed.Sha.{
  Sha256, copy, flush, sha_update, sha_block, big_endian, hex_words, sha_finish, sha_start, suffix,
}
use inkling_in_c.Packed.Standard.{hash_blocks, padded, sha256, octets}
use inkling_in_c.Packed.Compression.{
  sha_block-next_hash, big_endian-octets, initial-sha_start, hex_words-print_hash,
}
use inkling_in_c.Packed.Streaming.{
  feed, feed_piece, feed-append, sha_update-feed, count, absorb, sha_update-append,
}
use inkling_in_c.Prelude.{
  ℕ, Bytes, ◌++◌, length, ◌<◌, ◌+◌, ◌≡◌, ◌∷◌, ◌/◌, take, arith, ◌*◌, suc, drop, replicate, set, sym,
  ◌∙◌, ◌-◌, [], append-nil, ap, length-take, zero, ◌%◌, take_all, take-append-drop, refl, ◌^◌,
  length-set, length-drop, append_assoc, ◌≤◌, ap₂, length-append, if◌then◌else◌, Bool-cases, ltb,
  length-replicate, ◌==◌, inl, ==_iff, inr, ==_false,
}

take-set : (b : Bytes) (n c : ℕ) → n < length b → take (suc n) (set b n c) ≡ take n b ++ c ∷ []
take-set [] n c h = absurd (omega arith)
take-set (x ∷ xs) zero c h = refl
take-set (x ∷ xs) (suc n) c h = ap (λ l. x ∷ l) (take-set xs n c (omega arith))

-- What is copied up to the end of the block follows what stands before.
copy-take : (b : Bytes) (n : ℕ) (p : Bytes) → n + length p ≡ length b → copy b n p ≡ take n b ++ p
unfolding copy
copy-take b n [] h = sym (append-nil (take n b) ∙ ap (λ k. take k b) (omega arith) ∙ take_all b)
copy-take b n (c ∷ cs) h =
    let succ : n + 1 ≡ suc n = omega arith in
    copy-take (set b n c) (n + 1) cs (omega (arith, length-set b n c))
    ∙ ap (λ k. take k (set b n c) ++ cs) succ
    ∙ ap (λ l. l ++ cs) (take-set b n c (omega arith))
    ∙ append_assoc (take n b) (c ∷ []) cs

-- A whole block, at the start of the buffer.
feed_block :
    (hash : Sha256) (piece : Bytes)
    → hash.used ≡ 0
    → length hash.block ≡ 64
    → length piece ≡ 64
    → feed hash piece ≡ record hash { state = sha_block hash.state piece; block = piece; used = 0 }
unfolding flush
feed_block hash [] u b l = absurd (omega arith)
feed_block hash (c ∷ cs) u b l =
    let full : hash.used + length (c ∷ cs) ≡ 64 = omega arith in
    feed_piece hash c cs (omega arith)
    ∙ ap (λ n. flush (record hash { block = copy hash.block hash.used (c ∷ cs); used = n })) full
    ∙ ap (λ p. record hash { state = sha_block hash.state p; block = p; used = 0 })
        (ap (λ n. copy hash.block n (c ∷ cs)) u ∙ copy-take hash.block 0 (c ∷ cs) (omega arith))

feed-blocks :
    (n : ℕ) (hash : Sha256) (message : Bytes)
    → hash.used ≡ 0
    → length hash.block ≡ 64
    → length message ≡ 64 * n
    → ((feed hash message).state ≡ hash_blocks n hash.state message)
unfolding feed hash_blocks
feed-blocks zero hash [] u b l = refl
feed-blocks zero hash (c ∷ cs) u b l = absurd (omega arith)
feed-blocks (suc n) hash message u b l =
    let p = take 64 message in
    let rest = drop 64 message in
    let l' : length p ≡ 64 = length-take 64 message (omega arith) in
    let next : Sha256 = record hash { state = sha_block hash.state p; block = p; used = 0 } in
    ap (λ m. (feed hash m).state) (sym (take-append-drop 64 message))
    ∙ ap (λ h. h.state) (feed-append hash p rest)
    ∙ ap (λ h. (feed h rest).state) (feed_block hash p u b l')
    ∙ feed-blocks n next rest refl l' (omega (arith, length-drop 64 message))
    ∙ ap (λ s. hash_blocks n s rest) (sha_block-next_hash hash.state p l')

flush-used_mod : (hash : Sha256) → hash.used ≤ 64 → (flush hash).used ≡ hash.used % 64
unfolding flush
flush-used_mod hash h = elim (Bool-cases (hash.used == 64)) [
  | inl e ↦ rw e (omega (arith, (==_iff hash.used 64).0 e))
  | inr e ↦ rw e (omega (arith, ==_false e))
]

feed-used_mod :
    (hash : Sha256) (xs : Bytes)
    → hash.used < 64
    → (feed hash xs).used ≡ (hash.used + length xs) % 64
unfolding feed absorb
feed-used_mod hash [] h = omega arith
feed-used_mod hash (c ∷ cs) h =
    let step : (absorb hash c).used ≡ (hash.used + 1) % 64 = flush-used_mod _ (omega arith) in
    feed-used_mod (absorb hash c) cs (omega (arith, step)) ∙ omega (arith, step)

padding_zeros :
    (used n : ℕ)
    → used ≡ n % 64
    → (if ltb used 56 then 56 - used else 120 - used) - 1 ≡ (119 - n % 64) % 64
padding_zeros used n h = ground arith

-- After a message, the suffix is the rest of the padded message.
suffix-padded :
    (message : Bytes) → message ++ suffix (sha_update sha_start message) ≡ padded message
unfolding suffix
suffix-padded message =
    let hash = sha_update sha_start message in
    let same : hash ≡ count (feed sha_start message) ((0 + length message) % 2 ^ 64) =
      sha_update-feed sha_start message (omega arith) in
    let fill : hash.used ≡ (0 + length message) % 64 =
      ap (λ h. h.used) same ∙ feed-used_mod sha_start message (omega arith) in
    let bits : hash.bytes * 8 % 2 ^ 64 ≡ length message * 8 % 2 ^ 64 =
      omega (arith, ap (λ h. h.bytes) same) in
    ap₂ (λ k b. message ++ (128 ∷ replicate k 0 ++ b))
      (padding_zeros hash.used (length message) (omega (arith, fill)))
      (ap (big_endian 8) bits ∙ big_endian-octets (length message * 8))

length-padded : (message : Bytes) → length (padded message) ≡ 64 * (length (padded message) / 64)
length-padded message =
    let zeros : Bytes = replicate ((119 - length message % 64) % 64) 0 in
    let tail = octets (length message * 8) in
    omega (
      arith,
      length-append message (128 ∷ zeros ++ tail),
      length-append zeros tail,
      length-replicate {A = ℕ} ((119 - length message % 64) % 64) 0,
    )

-- The digest of a message is SHA-256 of it as FIPS 180-4 defines it, printed in hexadecimal: the message
-- is padded, and its blocks are hashed one after the other with the functions, the schedule and the
-- steps of the standard, where the constants and the initial hash are the first 32 bits of the
-- fractional parts of the cube roots of the first 64 primes and of the square roots of the first 8.
pub sha_finish-sha256 :
    (message : Bytes) → sha_finish (sha_update sha_start message) ≡ sha256 message
unfolding sha_finish
sha_finish-sha256 message =
    let hash = sha_update sha_start message in
    ap (λ h. hex_words h.state) (sha_update-append sha_start message (suffix hash) (omega arith))
    ∙ ap (λ m. hex_words (sha_update sha_start m).state) (suffix-padded message)
    ∙ ap (λ h. hex_words h.state) (sha_update-feed sha_start (padded message) (omega arith))
    ∙ ap hex_words (feed-blocks _ sha_start (padded message) refl refl (length-padded message))
    ∙ ap (λ s. hex_words (hash_blocks (length (padded message) / 64) s (padded message)))
        (sym initial-sha_start)
    ∙ hex_words-print_hash _
