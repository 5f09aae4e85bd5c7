-- ===== src/Runner/Connection/Tables.antt =====
-- ptp.ts and the link: what holds of all requests of a map, or of all messages, holds after the map
-- or the messages change.
use runtime_bridge.Prelude.{
  ℕ, ◌≡◌, inl, inr, sym, ap, subst, ◌∙◌, some, List, [], ◌∷◌, All, arith, Bool-cases,
}
use runtime_bridge.Runner.Connection.{eqb_bytes, Request, find_request, set_request, delete_request}
use runtime_bridge.Runner.Connection.Frames.{eqb_bytes-eq}

module _ {Name : Type 0} where
  pub delete-All :
      (P : Request Name → Type 0) (id : List ℕ) (rs : List (Request Name))
      → All P rs
      → All P (delete_request id rs)
  unfolding delete_request
  delete-All P id [] h = tt
  delete-All P id (r ∷ rs) h = elim (Bool-cases (eqb_bytes r.id id)) [
    | inl e ↦ rw e (delete-All P id rs h.1)
    | inr e ↦ rw e (h.0, delete-All P id rs h.1)
  ]

  pub set-All :
      (P : Request Name → Type 0) (r : Request Name) (rs : List (Request Name))
      → P r
      → All P rs
      → All P (set_request r rs)
  unfolding set_request
  set-All P r [] p h = (p, tt)
  set-All P r (q ∷ qs) p h = elim (Bool-cases (eqb_bytes q.id r.id)) [
    | inl e ↦ rw e (p, h.1)
    | inr e ↦ rw e (h.0, set-All P r qs p h.1)
  ]

  pub find-All :
      (P : Request Name → Type 0) (id : List ℕ) (rs : List (Request Name)) (r : Request Name)
      → All P rs
      → find_request id rs ≡ some r
      → P r × (r.id ≡ id)
  unfolding find_request
  find-All P id [] r h e = cc
  find-All P id (q ∷ qs) r h e = elim (Bool-cases (eqb_bytes q.id id)) [
    | inl t ↦
        let same : q ≡ r = ground arith in
        (subst P same h.0, ap (λ (x : Request Name). x.id) (sym same) ∙ eqb_bytes-eq q.id id t)
    | inr t ↦ find-All P id qs r h.1 (ground arith)
  ]
