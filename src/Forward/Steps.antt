-- ===== src/Forward/Steps.antt =====
-- Proofs on the tokens of a prompt in src/model/inkling_forward.c, one after the other.
use inkling_in_c.Forward.Sequence.{
  Sequence, Runner, Kernels, finish_token, token_forward, forward_id, forward_ids, with_logits,
  forward_on, chain, ReadStats,
}
use inkling_in_c.Prelude.{
  ℕ, List, ◌≡◌, Option, Bool, true, some, ◌+◌, false, none, [], if◌then◌else◌, ap, subst, sym, refl,
  ◌∷◌, ◌++◌, length, arith, ◌∙◌,
}
use inkling_in_c.Cache.{increment}

module _ {M : Type 0} where
  -- The context with its sequence at a position, a count of tokens and statistics.
  pub record IsAt (r : Runner M) (n : ℕ) (left : Runner M) : Type 0 where
    pub sequence : Sequence M
    pub processed : ℕ
    pub reads : ReadStats
    pub same :
        left ≡ record r { sequence = some sequence; tokens_processed = processed; reads = reads }
    pub valid : sequence.valid ≡ true
    pub at_position : sequence.position ≡ n

-- Statistics before any read.
abbrev unread : ReadStats
unread = record {
  bytes_read = 0;
  read_calls = 0;
  cache_hits = 0;
  cache_misses = 0;
  cache_evictions = 0;
  cache_bytes = 0;
  cache_peak_bytes = 0;
}

module _ {M H F : Type 0} (kernels : Kernels M H F) where
  -- A property of what a call that succeeds leaves.
  unfoldable pub Leaves : (Runner M → List F → Type 0) → Runner M × Option (List F) → Type 0
  Leaves P (r, none) = Unit
  Leaves P (r, some logits) = P r logits

  with_logits-IsAt :
      (r : Runner M) (s : Sequence M) (processed : ℕ) (reads : ReadStats) (n : ℕ) (m : M)
      (logits : Option (List F))
      → s.valid ≡ true
      → s.position ≡ n
      → Leaves
          (λ left _. IsAt r (n + 1) left)
          (with_logits kernels
            (record r { sequence = some s; tokens_processed = processed; reads = reads })
            s
            m
            logits)
  unfolding with_logits Leaves
  with_logits-IsAt r s processed reads n m none v p = tt
  with_logits-IsAt r s processed reads n m (some logits) v p = record {
    sequence = record s { layers = m; position = s.position + 1 };
    processed = increment processed 1;
    reads = reads;
    same = refl;
    valid = v;
    at_position = ap (λ k. k + 1) p;
  }

  finish_token-IsAt :
      (r : Runner M) (s : Sequence M) (processed : ℕ) (reads : ReadStats) (n : ℕ) (m : M)
      (wanted : Bool) (hidden : Option H)
      → s.valid ≡ true
      → s.position ≡ n
      → Leaves
          (λ left _. IsAt r (n + 1) left)
          (finish_token kernels
            (record r { sequence = some s; tokens_processed = processed; reads = reads })
            s
            m
            wanted
            hidden)
  unfolding finish_token Leaves
  finish_token-IsAt r s processed reads n m wanted none v p = tt
  finish_token-IsAt r s processed reads n m wanted (some h) v p =
      with_logits-IsAt r s processed (if wanted then kernels.head_reads reads h else reads) n m
        (if wanted then kernels.head h else some []) v p

  pub forward_id-IsAt :
      (r left : Runner M) (n id : ℕ) (wanted : Bool)
      → IsAt r n left
      → Leaves (λ after _. IsAt r (n + 1) after) (forward_id kernels left id wanted)
  unfolding forward_on token_forward
  forward_id-IsAt r left n id wanted at =
      let (m, hidden) = kernels.layers at.sequence.layers at.sequence.position id in
      subst (λ l. Leaves (λ after _. IsAt r (n + 1) after) (forward_id kernels l id wanted))
        (sym at.same)
        (finish_token-IsAt r at.sequence at.processed
          (kernels.layers_reads at.reads at.sequence.layers at.sequence.position id) n m wanted
          hidden at.valid at.at_position)

  pub unanswered :
      {left after : Runner M} {logits : List F}
      → ◌≡◌ {A = Runner M × Option (List F)} (left, none) (after, some logits)
      → ⊥
  unanswered e = let wrong = ap (λ x. x.1) e in cc

  -- The same context with other statistics of its reads.
  abbrev with_reads : ReadStats → Runner M → Runner M
  with_reads reads r = record r { reads = reads }

  -- A result without the statistics of the reads.
  abbrev pub but_reads : Runner M × Option (List F) → Runner M × Option (List F)
  but_reads (r, logits) = (with_reads unread r, logits)

  with_logits-reads :
      (r : Runner M) (s : Sequence M) (m : M) (o : Option (List F)) (reads : ReadStats)
      → but_reads (with_logits kernels (with_reads reads r) s m o)
        ≡ but_reads (with_logits kernels r s m o)
  unfolding with_logits
  with_logits-reads r s m none reads = refl
  with_logits-reads r s m (some logits) reads = refl

  finish_token-reads :
      (r : Runner M) (s : Sequence M) (m : M) (wanted : Bool) (hidden : Option H)
      (reads : ReadStats)
      → but_reads (finish_token kernels (with_reads reads r) s m wanted hidden)
        ≡ but_reads (finish_token kernels r s m wanted hidden)
  unfolding finish_token
  finish_token-reads r s m wanted none reads = refl
  finish_token-reads r s m wanted (some h) reads =
      let logits = if wanted then kernels.head h else some [] in
      with_logits-reads r s m logits _ ∙ sym (with_logits-reads r s m logits _)

  -- What a token does depends on the statistics only in these.
  forward_on-reads :
      (r : Runner M) (o : Option (Sequence M)) (id : ℕ) (wanted : Bool) (reads : ReadStats)
      → but_reads (forward_on kernels (with_reads reads r) o id wanted)
        ≡ but_reads (forward_on kernels r o id wanted)
  unfolding forward_on token_forward
  forward_on-reads r none id wanted reads = refl
  forward_on-reads r (some s) id wanted reads =
      let hidden = (kernels.layers s.layers s.position id).1 in
      let m = (kernels.layers s.layers s.position id).0 in
      finish_token-reads r s m wanted hidden _ ∙ sym (finish_token-reads r s m wanted hidden _)

  with_logits-unwanted :
      (r : Runner M) (s : Sequence M) (m : M) (o : Option (List F)) (reads : ReadStats)
      {after : Runner M} {logits : List F}
      → with_logits kernels r s m o ≡ (after, some logits)
      → with_logits kernels (with_reads reads r) s m (some []) ≡ (with_reads reads after, some [])
  unfolding with_logits
  with_logits-unwanted r s m none reads e = absurd (unanswered e)
  with_logits-unwanted r s m (some l) reads e = ap (λ x. (with_reads reads x.0, some [])) e

  finish_token-unwanted :
      (r : Runner M) (s : Sequence M) (m : M) (hidden : Option H) {after : Runner M}
      {logits : List F}
      → finish_token kernels r s m true hidden ≡ (after, some logits)
      → finish_token kernels r s m false hidden ≡ (with_reads r.reads after, some [])
  unfolding finish_token
  finish_token-unwanted r s m none e = absurd (unanswered e)
  finish_token-unwanted r s m (some h) e =
      with_logits-unwanted (with_reads (kernels.head_reads r.reads h) r) s m (kernels.head h)
        r.reads e

  -- Whether the logits are wanted or not, what the token leaves is the same, but for the statistics.
  forward_on-unwanted :
      (r : Runner M) (o : Option (Sequence M)) (id : ℕ) {after : Runner M} {logits : List F}
      → forward_on kernels r o id true ≡ (after, some logits)
      → (reads : ReadStats) × (forward_on kernels r o id false ≡ (with_reads reads after, some []))
  unfolding forward_on token_forward
  forward_on-unwanted r none id e = absurd (unanswered e)
  forward_on-unwanted r (some s) id e =
      let reads = kernels.layers_reads r.reads s.layers s.position id in
      let (m, hidden) = kernels.layers s.layers s.position id in
      (reads, finish_token-unwanted (with_reads reads r) s m hidden e)

  chain-Leaves :
      (P Q : Runner M → List F → Type 0) (step : Runner M × Option (List F))
      (next : Runner M → Runner M × Option (List F))
      → Leaves P step
      → ((r : Runner M) (logits : List F) → P r logits → Leaves Q (next r))
      → Leaves Q (chain kernels step next)
  unfolding chain Leaves
  chain-Leaves P Q (r, none) next h k = tt
  chain-Leaves P Q (r, some logits) next h k = k r logits h

  chain-answered :
      (step : Runner M × Option (List F)) (f g : Runner M → Runner M × Option (List F))
      {after : Runner M} {logits : List F} {z : Runner M × Option (List F)}
      → chain kernels step f ≡ (after, some logits)
      → ((r : Runner M) → f r ≡ (after, some logits) → but_reads (g r) ≡ z)
      → but_reads (chain kernels step g) ≡ z
  unfolding chain
  chain-answered (r, none) f g e k = absurd (unanswered e)
  chain-answered (r, some _) f g e k = k r e

  pub forward_ids-snoc :
      (r : Runner M) (id : ℕ) (ids : List ℕ) (last : ℕ) {after : Runner M} {logits : List F}
      → forward_ids kernels r (id ∷ ids) ≡ (after, some logits)
      → but_reads (forward_ids kernels r (id ∷ ids ++ last ∷ []))
        ≡ but_reads (forward_id kernels after last true)
  unfolding forward_ids chain
  forward_ids-snoc r id [] last {after} e =
      let (reads, unwanted) = forward_on-unwanted r r.sequence id e in
      ap (λ x. but_reads (chain kernels x (λ left. forward_ids kernels left (last ∷ [])))) unwanted
      ∙ forward_on-reads after after.sequence last true reads
  forward_ids-snoc r id (next ∷ ids) last e =
      chain-answered (forward_id kernels r id false) (λ left. forward_ids kernels left (next ∷ ids))
        _ e λ left f. forward_ids-snoc left next ids last f

  -- A call of the loop that succeeds leaves the sequence as many tokens further.
  pub forward_ids-IsAt :
      (r left : Runner M) (n id : ℕ) (ids : List ℕ)
      → IsAt r n left
      → Leaves
          (λ after _. IsAt r (n + length (id ∷ ids)) after)
          (forward_ids kernels left (id ∷ ids))
  unfolding forward_ids chain
  forward_ids-IsAt r left n id [] at = forward_id-IsAt r left n id true at
  forward_ids-IsAt r left n id (next ∷ ids) at =
      let same : n + 1 + length (next ∷ ids) ≡ n + length (id ∷ next ∷ ids) = omega arith in
      chain-Leaves (λ after _. IsAt r (n + 1) after)
        (λ after _. IsAt r (n + length (id ∷ next ∷ ids)) after) (forward_id kernels left id false)
        (λ left. forward_ids kernels left (next ∷ ids)) (forward_id-IsAt r left n id false at)
        λ middle _ h.
          subst (λ k. Leaves (λ after _. IsAt r k after) (forward_ids kernels middle (next ∷ ids)))
            same (forward_ids-IsAt r middle (n + 1) next ids h)
