-- ===== src/Trade/Manager/Promises.antt =====
-- trader_manager.js: what later events do to the promises of a batch.
use Prim.Native.String.{String}
use runtime_bridge.Prelude.{◌≢◌, ◌≡◌, Option, none, some, ◌⊎◌}
use runtime_bridge.Trade.Manager.{Promise, pending, Entry, Manager}
use runtime_bridge.Trade.Manager.Events.{Event, add}

-- A promise, later: what has settled stays as it settled.
abbrev pub Extends : {A : Type 0} → Promise A → Promise A → Type 0
Extends p q = (p ≡ pending) ⊎ (q ≡ p)

-- An entry, later: it is still there, for the same batch, and its started and finished promises
-- stay as they settled.
abbrev pub Kept : Option Entry → Option Entry → Type 0
Kept none later = Unit
Kept (some e) none = ⊥
Kept (some e) (some e') =
    (e'.batch ≡ e.batch) × Extends e.started e'.started × Extends e.finished e'.finished

-- The event does not add a batch with this id.
abbrev pub IsOther : String → Event → Type 0
IsOther j (add e) = j ≢ e.batch.batch_id
IsOther j _ = Unit
