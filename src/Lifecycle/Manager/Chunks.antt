-- ===== src/Lifecycle/Manager/Chunks.antt =====
-- runner_manager.ts: every worker gets one runner, and no runner gets more workers than it may have.
use Prim.Native.Nat.{◌/◌}
use native.Mathlib.Decide.{ℕ_discrete}
use native.Mathlib.Nat.{div-eq_of_lt, mul-add-div}
use runtime_bridge.Prelude.{
  ℕ, ◌+◌, ◌*◌, ◌≡◌, ◌≤◌, ◌<◌, refl, sym, ap, subst, ◌∙◌, List, [], ◌∷◌, ◌++◌, append-nil,
  append_assoc, length, length-append, concat_map, concat_map-append, All, All-append, All-mono,
  arith,
}
use runtime_bridge.Lifecycle.Manager.{push_at, chunks_from, not_empty, worker_id_groups}

index-div :
    (per_chunk q r : ℕ) → 0 < per_chunk → r < per_chunk → (per_chunk * q + r) / per_chunk ≡ q
index-div per_chunk q r some_chunk lt =
    mul-add-div some_chunk q r ∙ ap (λ z. q + z) (div-eq_of_lt lt) ∙ omega arith

more_full : (p l k index : ℕ) → index ≡ p * l + k → k + 1 ≡ p → index + 1 ≡ p * (l + 1) + 0
more_full p l k index e q = grind arith

module _ {A : Type 0} where
  abbrev pub join : List (List A) → List A
  join = concat_map (λ g. g)

  -- Full chunks, and one that is not full and is left out when it is empty.
  abbrev with_rest : List (List A) → List A → List (List A)
  with_rest full [] = full
  with_rest full (x ∷ xs) = full ++ ((x ∷ xs) ∷ [])

  with_rest-snoc :
      (full : List (List A)) (c : List A) (x : A)
      → with_rest full (c ++ (x ∷ [])) ≡ full ++ ((c ++ (x ∷ [])) ∷ [])
  with_rest-snoc full [] x = refl
  with_rest-snoc full (y ∷ ys) x = refl

  push_at-rest :
      (full : List (List A)) (c : List A) (x : A)
      → push_at (length full) x (with_rest full c) ≡ full ++ ((c ++ (x ∷ [])) ∷ [])
  push_at-rest [] [] x = refl
  push_at-rest [] (y ∷ ys) x = refl
  push_at-rest (f ∷ fs) [] x = ap (λ cs. f ∷ cs) (push_at-rest fs [] x)
  push_at-rest (f ∷ fs) (y ∷ ys) x = ap (λ cs. f ∷ cs) (push_at-rest fs (y ∷ ys) x)

  join-snoc : (full : List (List A)) (c : List A) → join (full ++ (c ∷ [])) ≡ join full ++ c
  join-snoc full c =
      concat_map-append (λ g. g) full (c ∷ []) ∙ ap (λ z. join full ++ z) (append-nil c)

  module _ (per_chunk : ℕ) (some_chunk : 0 < per_chunk) where
    abbrev IsFull : List A → Type 0
    IsFull g = length g ≡ per_chunk

    record Shared (ids : List A) (chunks : List (List A)) : Type 0 where
      full : List (List A)
      rest : List A
      same : chunks ≡ with_rest full rest
      all : All IsFull full
      short : length rest < per_chunk
      joined : join full ++ rest ≡ ids

    shared-next :
        (full : List (List A)) (c : List A) (x : A) (xs : List A) (index : ℕ)
        → index ≡ per_chunk * length full + length c
        → length c < per_chunk
        → chunks_from per_chunk index (with_rest full c) (x ∷ xs)
          ≡ chunks_from per_chunk (index + 1) (full ++ ((c ++ (x ∷ [])) ∷ [])) xs
    unfolding chunks_from
    shared-next full c x xs index e lt =
        ap (λ i. chunks_from per_chunk (index + 1) (push_at i x (with_rest full c)) xs)
          (ap (λ i. i / per_chunk) e ∙ index-div per_chunk (length full) (length c) some_chunk lt)
        ∙ ap (λ cs. chunks_from per_chunk (index + 1) cs xs) (push_at-rest full c x)

    chunks_from-Shared :
        (xs : List A) (full : List (List A)) (c : List A) (index : ℕ)
        → index ≡ per_chunk * length full + length c
        → length c < per_chunk
        → All IsFull full
        → Shared (join full ++ c ++ xs) (chunks_from per_chunk index (with_rest full c) xs)
    unfolding chunks_from
    chunks_from-Shared [] full c index e lt all = record {
      full = full;
      rest = c;
      same = refl;
      all = all;
      short = lt;
      joined = sym (append-nil _);
    }
    chunks_from-Shared (x ∷ xs) full c index e lt all = elim (ℕ_discrete (length c + 1) per_chunk) [
      | yes q ↦
          let c' = c ++ (x ∷ []) in
          let long : IsFull c' = length-append c (x ∷ []) ∙ q in
          let r =
            chunks_from-Shared xs (full ++ (c' ∷ [])) [] (index + 1)
              (more_full per_chunk (length full) (length c) index e q
                ∙ ap (λ l. per_chunk * l + 0) (sym (length-append full (c' ∷ []))))
              some_chunk (All-append IsFull full (c' ∷ []) all (long, tt)) in
          subst (Shared (join full ++ c ++ (x ∷ xs))) (sym (shared-next full c x xs index e lt)) (
            subst (λ ids. Shared ids (chunks_from per_chunk (index + 1) (full ++ (c' ∷ [])) xs))
              (simp (join-snoc full c', append-nil, append_assoc)) r)
      | no q ↦
          let c' = c ++ (x ∷ []) in
          let more : length c' ≡ length c + 1 = length-append c (x ∷ []) in
          let r = chunks_from-Shared xs full c' (index + 1) (omega arith) (omega arith) all in
          subst (Shared (join full ++ c ++ (x ∷ xs))) (sym (shared-next full c x xs index e lt)) (
            subst
              (λ cs. Shared (join full ++ c ++ (x ∷ xs)) (chunks_from per_chunk (index + 1) cs xs))
              (with_rest-snoc full c x)
              (subst (λ ids. Shared ids (chunks_from per_chunk (index + 1) (with_rest full c') xs))
                (simp append_assoc) r))
    ]

    not_empty-full :
        (full : List (List A)) (c : List A)
        → All IsFull full
        → not_empty (with_rest full c) ≡ with_rest full c
    not_empty-full [] [] h = refl
    not_empty-full [] (y ∷ ys) h = refl
    not_empty-full ([] ∷ fs) c h = absurd (omega (arith, h.0))
    not_empty-full ((x ∷ xs) ∷ fs) [] h = ap (λ cs. (x ∷ xs) ∷ cs) (not_empty-full fs [] h.1)
    not_empty-full ((x ∷ xs) ∷ fs) (y ∷ ys) h =
        ap (λ cs. (x ∷ xs) ∷ cs) (not_empty-full fs (y ∷ ys) h.1)

    -- A chunk has a worker, and no more than it may have.
    abbrev pub IsChunk : List A → Type 0
    IsChunk g = (0 < length g) × (length g ≤ per_chunk)

    full-IsChunk : (full : List (List A)) → All IsFull full → All IsChunk full
    full-IsChunk full h = All-mono IsFull IsChunk full (λ g e. (omega arith, omega arith)) h

    rest-IsChunk :
        (full : List (List A)) (c : List A)
        → All IsFull full
        → length c < per_chunk
        → All IsChunk (with_rest full c)
    rest-IsChunk full [] h lt = full-IsChunk full h
    rest-IsChunk full (y ∷ ys) h lt =
        All-append IsChunk full ((y ∷ ys) ∷ []) (full-IsChunk full h)
          ((omega arith, omega arith), tt)

    join-rest : (full : List (List A)) (c : List A) → join (with_rest full c) ≡ join full ++ c
    join-rest full [] = sym (append-nil (join full))
    join-rest full (y ∷ ys) = join-snoc full (y ∷ ys)

    -- The workers are shared out among the runners, each worker to one, in their order: the groups
    -- one after another are all ids. No group is empty, and none has more ids than a runner may have.
    pub worker_id_groups-IsChunk :
        (ids : List A)
        → (join (worker_id_groups per_chunk ids) ≡ ids)
          × All IsChunk (worker_id_groups per_chunk ids)
    unfolding worker_id_groups
    worker_id_groups-IsChunk ids =
        let h = chunks_from-Shared ids [] [] 0 (omega arith) some_chunk tt in
        let same : not_empty (chunks_from per_chunk 0 [] ids) ≡ with_rest h.full h.rest =
          ap not_empty h.same ∙ not_empty-full h.full h.rest h.all in
        (
          ap join same ∙ join-rest h.full h.rest ∙ h.joined,
          subst (All IsChunk) (sym same) (rest-IsChunk h.full h.rest h.all h.short),
        )
