-- ===== src/Logs/Stream/Superseded.antt =====
-- What the runs that another has superseded can do.
use openshift_console.Prelude.{All, ℕ, zero, suc, ◌≡◌, ◌∷◌, true, List, [], refl, arith, ◌∙◌}
use openshift_console.Logs.Stream.{
  Engine, Phase, Request, View, update, bump, frame_fires, finish, caught, responds, takes_all,
  reads, reads_end, schedule_render, Settled, got_text, settle,
}
use openshift_console.Logs.Stream.Hook.{Hook, late, settle_run, settle_at, settle_late, step}

abbrev pub IsAborted : {D : Type 0} → Request D → Type 0
IsAborted r = r.aborted ≡ true

-- All that comes of a call but the arrival of the whole text.
abbrev pub IsChecked : Settled → Type 0
IsChecked (got_text t) = ⊥
IsChecked _ = Unit

module _ {D : Type 0} (engine : Engine D) where
  -- A step of a run leaves it its key, and neither aborts nor revives it.
  pub settle-same :
      (s : Settled) (p : Phase D) (r : Request D) (v : View)
      → ((settle engine s p r v).1.key ≡ r.key) × ((settle engine s p r v).1.aborted ≡ r.aborted)
  unfolding settle responds caught reads reads_end takes_all finish frame_fires schedule_render
  settle-same s p r v = ground arith

  pub settle-state :
      (s : Settled) (p : Phase D) (r : Request D) (v : View)
      → IsAborted r
      → (settle engine s p r v).0.state ≡ v.state
  unfolding settle responds caught reads reads_end takes_all finish frame_fires schedule_render
      update bump
  settle-state s p r v h = ground arith

  settle-view :
      (s : Settled) (p : Phase D) (r : Request D) (v : View)
      → IsAborted r
      → IsChecked s
      → (settle engine s p r v).0 ≡ v
  unfolding settle responds caught reads reads_end finish frame_fires update bump
  settle-view s p r v h c = ground arith

  pub settle_at-state :
      (i : ℕ) (s : Settled) (rs : List (Request D)) (v : View)
      → All IsAborted rs
      → ((settle_at engine i s rs v).0.state ≡ v.state)
        × All IsAborted (settle_at engine i s rs v).1
  unfolding settle_at settle_run
  settle_at-state i s [] v h = (refl, tt)
  settle_at-state zero s (r ∷ rs) v h =
      (settle-state s r.phase r v h.0, ((settle-same s r.phase r v).1 ∙ h.0, h.1))
  settle_at-state (suc i) s (r ∷ rs) v h =
      let rest = settle_at-state i s rs v h.1 in (rest.0, (h.0, rest.1))

  pub settle_at-view :
      (i : ℕ) (s : Settled) (rs : List (Request D)) (v : View)
      → All IsAborted rs
      → IsChecked s
      → (settle_at engine i s rs v).0 ≡ v
  unfolding settle_at settle_run
  settle_at-view i s [] v h c = refl
  settle_at-view zero s (r ∷ rs) v h c = settle-view s r.phase r v h.0 c
  settle_at-view (suc i) s (r ∷ rs) v h c = settle_at-view i s rs v h.1 c

  pub settle_late-view :
      (i : ℕ) (s : Settled) (h : Hook D)
      → All IsAborted h.superseded
      → IsChecked s
      → (step engine (late i s) h).view ≡ h.view
  unfolding step settle_late
  settle_late-view i s h all c = settle_at-view i s h.superseded h.view all c
