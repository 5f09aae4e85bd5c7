-- ===== src/Runner/Sync/Separated/Settling.antt =====
-- separated_sync.js: how the promise that `startSync` hands out settles, over any schedule.
use runtime_bridge.Prelude.{
  ℕ, ◌≡◌, ◌⊎◌, inl, inr, refl, ap, ◌∙◌, true, none, some, List, [], ◌∷◌, ◌++◌, ◌+◌, leb, if_cases,
}
use runtime_bridge.Iterate.{done, threw}
use runtime_bridge.Runner.Sync.{Info, ok, fails, World, Sync, await}
use runtime_bridge.Runner.Sync.Kept.{IsPending, IsFinished, Kept, do_reject-Kept, await-Kept}
use runtime_bridge.Runner.Sync.Separated.{
  At, next, blob, reply, cooling, informed, ended, Side, header_side, block_side, ask_again, fail,
  turn, Both, Turn, of_headers, of_blocks, take_turn, run, started,
}
use runtime_bridge.Runner.Sync.Separated.Growing.{
  Grows, self-Grows, twice-Grows, IsNext, do_reject-Grows, await-Grows, await-IsNext, IsKeeping,
  header_side-IsKeeping, block_side-IsKeeping,
}

module _ {E : Type 0} (w : World E) where
  -- A loop has ended because it was stopped, or by an error with the promise settled.
  abbrev pub IsAt : {A : Type 0} → At E A → Sync E → Type 0
  IsAt (ended done) s = s.should_stop ≡ true
  IsAt (ended (threw e)) s = s.synched_to_target_finished ≡ true
  IsAt _ s = Unit

  IsAt-grown : {A : Type 0} (at : At E A) (s t : Sync E) → Grows s t → IsAt at s → IsAt at t
  IsAt-grown (ended done) s t g h = g.stopped h
  IsAt-grown (ended (threw e)) s t g h = g.finished h
  IsAt-grown next s t g h = tt
  IsAt-grown (blob a x) s t g h = tt
  IsAt-grown (reply a x) s t g h = tt
  IsAt-grown (cooling a) s t g h = tt
  IsAt-grown (informed a x) s t g h = tt

  module _ {A : Type 0} (side : Side E A) (keeping : IsKeeping side) where
    abbrev Taken : Sync E → At E A × Sync E → Type 0
    Taken s r = IsNext s r.1 × IsAt r.0 r.1

    waits-Taken :
        (at : At E A) (s : Sync E) → IsAt at (await w s) → Kept s → Taken s (at, await w s)
    waits-Taken at s i h = (await-IsNext w s h, i)

    fail-Taken : (attempt : ℕ) (e : E) (s : Sync E) → Kept s → Taken s (fail w side attempt e s)
    unfolding IsNext
    fail-Taken attempt e s h =
        if_cases (Taken s) (leb attempt 5) (λ t. waits-Taken (cooling attempt) s tt h)
          (λ t. let k = do_reject-Kept e s h in ((k.0, do_reject-Grows e s), k.1.0))

    refreshed-Taken :
        (info : Info) (attempt : ℕ) (s : Sync E)
        → Kept s
        → Taken s (ask_again w side attempt (side.refresh info s))
    unfolding IsNext
    refreshed-Taken info attempt s h =
        let k = keeping.refresh info s h in
        (
          (
            await-Kept w _ k.0,
            twice-Grows s (side.refresh info s) (await w (side.refresh info s)) k.1
                (await-Grows w _),
          ),
          tt,
        )

    turn-Taken : (at : At E A) (s : Sync E) → IsAt at s → Kept s → Taken s (turn w side at s)
    unfolding turn IsNext
    turn-Taken next s i h =
        if_cases (Taken s) s.should_stop (λ t. ((h, self-Grows s), t))
          (λ t.
            if_cases (Taken s) (side.must_wait s) (λ q. waits-Taken next s tt h)
              (λ q. waits-Taken (blob 0 (side.ask s)) s tt h))
    turn-Taken (blob a (fails e)) s i h = fail-Taken a e s h
    turn-Taken (blob a (ok none)) s i h = waits-Taken next s tt h
    turn-Taken (blob a (ok (some bytes))) s i h =
        if_cases (Taken s) (side.is_missing bytes) (λ t. waits-Taken next s tt h)
          (λ t. waits-Taken (reply a (side.send bytes s)) s tt h)
    turn-Taken (reply a (fails e)) s i h = fail-Taken a e s h
    turn-Taken (reply a (ok to)) s i h = (keeping.note to s h, tt)
    turn-Taken (cooling a) s i h = waits-Taken (informed a (w.update_info s.awaits)) s tt h
    turn-Taken (informed a (fails e)) s i h = waits-Taken (blob (a + 1) (side.ask s)) s tt h
    turn-Taken (informed a (ok info)) s i h = refreshed-Taken info (a + 1) s h
    turn-Taken (ended o) s i h = ((h, self-Grows s), i)

  record Fine (b : Both E) : Type 0 where
    kept : Kept b.sync
    headers : IsAt b.headers_at b.sync
    blocks : IsAt b.blocks_at b.sync

  take_turn-Fine :
      (t : Turn) (b : Both E)
      → Fine b
      → Fine (take_turn w t b) × Grows b.sync (take_turn w t b).sync
  unfolding take_turn IsNext
  take_turn-Fine of_headers b h =
      let r =
        turn-Taken (header_side w) (header_side-IsKeeping w) b.headers_at b.sync h.headers h.kept in
      (
        record {
          kept = r.0.0;
          headers = r.1;
          blocks = IsAt-grown b.blocks_at b.sync _ r.0.1 h.blocks;
        },
        r.0.1,
      )
  take_turn-Fine of_blocks b h =
      let r =
        turn-Taken (block_side w) (block_side-IsKeeping w) b.blocks_at b.sync h.blocks h.kept in
      (
        record {
          kept = r.0.0;
          headers = IsAt-grown b.headers_at b.sync _ r.0.1 h.headers;
          blocks = r.1;
        },
        r.0.1,
      )

  run-Fine :
      (ts : List Turn) (b : Both E) → Fine b → Fine (run w ts b) × Grows b.sync (run w ts b).sync
  unfolding run
  run-Fine [] b h = (h, self-Grows b.sync)
  run-Fine (t ∷ ts) b h =
      let one = take_turn-Fine t b h in
      let rest = run-Fine ts (take_turn w t b) one.0 in
      (
        rest.0,
        twice-Grows b.sync (take_turn w t b).sync (run w ts (take_turn w t b)).sync one.1 rest.1,
      )

  run-append : (ts us : List Turn) (b : Both E) → run w (ts ++ us) b ≡ run w us (run w ts b)
  unfolding run
  run-append [] us b = refl
  run-append (t ∷ ts) us b = run-append ts us (take_turn w t b)

  -- However the turns of the two loops interleave, whatever is answered and whenever the synching
  -- is stopped, the promise that `startSync` hands out settles once at most, and no later turn
  -- changes how. A rejection stops the synching and the update loop. A loop that has ended was
  -- stopped, or ended by an error and left the promise settled.
  pub run-StaysSettled :
      (ts us : List Turn) (info : Info)
      → (IsPending (run w ts (started info)).sync
          ⊎ (IsFinished (run w ts (started info)).sync
              × ((run w (ts ++ us) (started info)).sync.settled
                  ≡ (run w ts (started info)).sync.settled)))
        × IsAt (run w ts (started info)).headers_at (run w ts (started info)).sync
        × IsAt (run w ts (started info)).blocks_at (run w ts (started info)).sync
  run-StaysSettled ts us info =
      let start : Fine (started info) = record {
        kept = record { stop = refl; once = inl (refl, refl) };
        headers = tt;
        blocks = tt;
      } in
      let h = run-Fine ts (started info) start in
      let g = run-Fine us (run w ts (started info)) h.0 in
      (
        elim h.0.kept.once [
          | inl p ↦ inl p
          | inr p ↦ inr (
            p,
            ap (λ (b : Both E). b.sync.settled) (run-append ts us (started info)) ∙ g.1.settled p.0,
          )
        ],
        h.0.headers,
        h.0.blocks,
      )
