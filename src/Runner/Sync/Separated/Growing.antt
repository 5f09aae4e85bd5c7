-- ===== src/Runner/Sync/Separated/Growing.antt =====
-- separated_sync.js: what no turn of the two loops takes back.
use runtime_bridge.Prelude.{ℕ, ◌≡◌, refl, ◌∙◌, Bool, true, false, not, ◌&&◌, if_cases}
use runtime_bridge.Prelude.Int.{pos, leb_ℤ}
use runtime_bridge.Runner.Sync.{
  Info, World, Sync, stop_sync, do_reject, status, await, note_dispatched,
}
use runtime_bridge.Runner.Sync.Kept.{Kept, await-Kept, note_dispatched-Kept}
use runtime_bridge.Runner.Sync.Separated.{Side, header_side, block_side}

module _ {E : Type 0} where
  -- What is stopped stays stopped, and what is settled stays as it is.
  pub record Grows (s t : Sync E) : Type 0 where
    pub stopped : s.should_stop ≡ true → t.should_stop ≡ true
    pub finished : s.synched_to_target_finished ≡ true → t.synched_to_target_finished ≡ true
    pub settled : s.synched_to_target_finished ≡ true → t.settled ≡ s.settled

  pub self-Grows : (s : Sync E) → Grows s s
  self-Grows s = record { stopped = λ e. e; finished = λ e. e; settled = λ e. refl }

  pub twice-Grows : (s t u : Sync E) → Grows s t → Grows t u → Grows s u
  twice-Grows s t u g h = record {
    stopped = λ e. h.stopped (g.stopped e);
    finished = λ e. h.finished (g.finished e);
    settled = λ e. h.settled (g.finished e) ∙ g.settled e;
  }

  -- Kept, and grown from a state.
  unfoldable pub IsNext : Sync E → Sync E → Type 0
  IsNext s t = Kept t × Grows s t

  pub do_reject-Grows : (e : E) (s : Sync E) → Grows s (do_reject e s)
  unfolding do_reject stop_sync
  do_reject-Grows e s =
      if_cases (Grows s) s.synched_to_target_finished (λ t. self-Grows s)
        (λ t. record {
          stopped = λ q.
              if_cases (λ (u : Sync E). u.should_stop ≡ true) s.has_stop_sync (λ x. refl) (λ x. q);
          finished = λ q. refl;
          settled = λ q. absurd (cc);
        })

  -- What a side notes keeps what is to be kept.
  pub record IsKeeping {A : Type 0} (side : Side E A) : Type 0 where
    pub note : (a : A) (s : Sync E) → Kept s → IsNext s (side.note a s)
    pub refresh : (info : Info) (s : Sync E) → Kept s → IsNext s (side.refresh info s)

  module _ (w : World E) where
    pub await-Grows : (s : Sync E) → Grows s (await w s)
    unfolding await stop_sync
    await-Grows s =
        if_cases (Grows s) (w.stops s.awaits && s.has_stop_sync)
          (λ t. record { stopped = λ q. refl; finished = λ q. q; settled = λ q. refl })
          (λ t. record { stopped = λ q. q; finished = λ q. q; settled = λ q. refl })

    pub await-IsNext : (s : Sync E) → Kept s → IsNext s (await w s)
    unfolding IsNext
    await-IsNext s h = (await-Kept w s h, await-Grows s)

    not_both : (b c : Bool) → not b && c ≡ true → b ≡ true → ⊥
    not_both true c h k = cc
    not_both false c h k = cc

    note_dispatched-Grows : (to : ℕ) (s : Sync E) → Grows s (note_dispatched w to s)
    unfolding note_dispatched
    note_dispatched-Grows to s =
        if_cases (Grows s)
          (not s.synched_to_target_finished && leb_ℤ (status w s).para_processed_height (pos to))
          (λ t. record {
            stopped = λ q. q;
            finished = λ q. refl;
            settled = λ q. absurd (not_both _ _ t q);
          })
          (λ t. record { stopped = λ q. q; finished = λ q. q; settled = λ q. refl })

    pub header_side-IsKeeping : IsKeeping (header_side w)
    unfolding header_side IsNext
    header_side-IsKeeping = record {
      note = λ a s h. (
        record { stop = h.stop; once = h.once },
        record { stopped = λ q. q; finished = λ q. q; settled = λ q. refl },
      );
      refresh = λ a s h. (
        record { stop = h.stop; once = h.once },
        record { stopped = λ q. q; finished = λ q. q; settled = λ q. refl },
      );
    }

    pub block_side-IsKeeping : IsKeeping (block_side w)
    unfolding block_side IsNext
    block_side-IsKeeping = record {
      note = λ to s h. (note_dispatched-Kept w to s h, note_dispatched-Grows to s);
      refresh = λ a s h. (
        record { stop = h.stop; once = h.once },
        record { stopped = λ q. q; finished = λ q. q; settled = λ q. refl },
      );
    }
