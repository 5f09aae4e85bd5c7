-- ===== src/Runner/Runtime/Tests.antt =====
-- pruntime.js at concrete answers.
use runtime_bridge.Prelude.{
  ℕ, ◌≡◌, refl, true, false, none, some, [], ◌∷◌, Settles, inl, inr, arith, leb, if◌then◌else◌,
}
use runtime_bridge.Iterate.{done}
use runtime_bridge.Runner.Sync.{Answer, ok, fails}
use runtime_bridge.Runner.Runtime.{
  RuntimeInfo, Setup, Chain, triggers_ra, registers, adds, get_info, init_runtime, ended,
  init_runtime_with, should_register, wait_and_add, register_worker,
}
use runtime_bridge.Runner.Runtime.Registration.{IsPart, register_worker-IsPart}

abbrev setup : Setup
setup = record {
  pid = 3;
  is_proxy = false;
  proxied_account = 0;
  owner = 11;
  min_bench_score = 50;
  enforce_min_bench_score = true;
}

abbrev info : RuntimeInfo
info = record { initialized = true; registered = false; public_key = 99 }

-- The score is enough at the third look.
abbrev chain : Chain ℕ
chain = record {
  current_pool = ok none;
  worker_info = ok (record { initial_score = 0; operator = 0 });
  ra_report = ok tt;
  register_tx = ok tt;
  scores = λ i. if leb 2 i then ok 60 else ok 0;
  add_tx = ok tt;
  other_pool = 1;
}

register_worker-IsPart_example :
    Settles
      (IsPart setup info chain (triggers_ra 11 ∷ registers 3 ∷ adds 3 99 ∷ []))
      (register_worker setup info chain 3 false)
register_worker-IsPart_example =
    register_worker-IsPart setup info chain 3 2 false none
      (record { initial_score = 0; operator = 0 }) (triggers_ra 11 ∷ registers 3 ∷ adds 3 99 ∷ [])
      (inl (inr (inr (inl (omega arith))), refl)) refl refl refl (inr (60, refl, refl))
      (omega arith)

registers_and_adds :
    register_worker setup info chain 3 false
    ≡ some (done, triggers_ra 11 ∷ registers 3 ∷ adds 3 99 ∷ [])
unfolding register_worker should_register wait_and_add
registers_and_adds = refl

-- A worker that is not initialized gets the genesis, and its information is read twice.
initializes :
    init_runtime_with {E = ℕ} setup true 7
      (ok (record info { initialized = false }))
      (ok info)
      (ok 5)
    ≡ ended done (get_info ∷ init_runtime 11 (some 7) ∷ get_info ∷ []) (some 5)
unfolding init_runtime_with
initializes = refl

abbrev answers : ℕ → Answer ℕ RuntimeInfo
answers i = if leb 2 i then fails i else ok info
