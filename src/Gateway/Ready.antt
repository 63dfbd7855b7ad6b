-- ===== src/Gateway/Ready.antt =====
-- When `/readyz` of gateway/cmd/gateway/main.go says that the gateway is ready.
use llms_chaos.Prelude.{ℕ, ◌≡◌, refl, sym, ap, ◌∙◌, ◌↔◌, String, List, Option, none, some}
use mathlib.Core.Option.{some-injective}
use llms_chaos.Prelude.Dict.{lookup}
use llms_chaos.Router.{Snapshot, Worker, Pool, refresh, update, pick}
use llms_chaos.Router.Membership.{last_snapshot, update_refreshes, IsValid, update-IsValid}
use llms_chaos.Router.Choice.{pick_finds, pick_serves}
use llms_chaos.Gateway.{Gateway, RegistryResponse, poll, readyz, ready, readiness, handle}

-- Some worker's last snapshot in the list is ready.
abbrev pub ListsReady : List Snapshot → Type 0
ListsReady ss =
    (id : String) × (s : Snapshot) × (last_snapshot id ss ≡ some s) × (s.state ≡ "ready")

refresh_state : (o : Option Worker) (s : Snapshot) → (refresh o s).state ≡ s.state
refresh_state none s = refl
refresh_state (some w) s = refl

found_after :
    (p : Pool) (ss : List Snapshot) (id : String) (last : Option Snapshot)
    → last_snapshot id ss ≡ last
    → lookup id (update p ss).workers
      ≡ elim last [ none ↦ none | some s ↦ some (refresh (lookup id p.workers) s) ]
found_after p ss id last h =
    update_refreshes p ss id
    ∙ ap
        (λ (o : Option Snapshot).
          let w : Option Worker = elim o [
            | none ↦ none
            | some s ↦ some (refresh (lookup id p.workers) s)
          ] in
          w)
        h

-- A worker that is ready after an update was last listed as ready.
listed :
    (p : Pool) (ss : List Snapshot) (w : Worker) (last : Option Snapshot)
    → last_snapshot w.id ss ≡ last
    → lookup w.id (update p ss).workers ≡ some w
    → w.state ≡ "ready"
    → ListsReady ss
listed p ss w none h found up = cc (found_after p ss w.id none h)
listed p ss w (some s) h found up =
    let same : refresh (lookup w.id p.workers) s ≡ w =
      some-injective _ w (sym (found_after p ss w.id (some s) h) ∙ found) in
    (w.id, s, h, sym (refresh_state (lookup w.id p.workers) s) ∙ ap Worker.state same ∙ up)

picked_ready :
    (p : Pool) (ss : List Snapshot) (i j : ℕ) (o : Option Worker)
    → IsValid p
    → pick (update p ss) i j ≡ o
    → readiness o ≡ ready
    → ListsReady ss
picked_ready p ss i j none v h r = cc
picked_ready p ss i j (some w) v h r =
    let (found, up) = pick_serves (update p ss) i j w (update-IsValid p ss v) h in
    listed p ss w (last_snapshot w.id ss) refl found up

-- After the registry has been asked, `/readyz` answers that the gateway is ready exactly if the
-- registry's reply has some worker in the state `ready`, in the last entry with its id, whatever the
-- draws are.
pub readyz-iff-ListsReady :
    (g : Gateway) (rr : RegistryResponse) (i j : ℕ)
    → IsValid g.forwarder.pool
    → (handle (poll g (some rr)) readyz i j ≡ some ready) ↔ ListsReady rr.workers
unfolding handle poll
readyz-iff-ListsReady g rr i j v = (
  λ h. picked_ready g.forwarder.pool rr.workers i j _ v refl (some-injective _ ready h),
  λ (id, s, last, up).
      let found = found_after g.forwarder.pool rr.workers id (some s) last in
      let (x, picked) =
        pick_finds (update g.forwarder.pool rr.workers) i j id _ found
          (refresh_state (lookup id g.forwarder.pool.workers) s ∙ up) in
      ap (λ o. some (readiness o)) picked,
)
