-- ===== src/UseCases/Manage/Kept.antt =====
-- What a command of an owner keeps: the resources of others, and the promise of the aggregate.
use mathlib.Core.Path.{subst}
use venue_backend.Common.{
  Bool, Member, Member-append, Member-map, Member-find, ◌==◌, ℕ, ◌==◌, ◌≡◌, ◌≢◌, sym, ap, ◌∙◌, some,
  List, [], ◌∷◌, find, arith, inl, inr,
}
use venue_backend.Resources.Entity.{Resource}
use venue_backend.Resources.Entity.Identity.{mutation-same_owner}
use venue_backend.Resources.Entity.Invariant.{IsResource, mutation-IsResource}
use venue_backend.Store.{World, Outcome, done, fail, raised, get_resource, replace_resource}
use venue_backend.Store.Keeps.{Left}
use venue_backend.UseCases.Create.{Surroundings, CreateResourceCommand, handle_create}
use venue_backend.UseCases.Create.Accepts.{handle_create_accepts}
use venue_backend.UseCases.Manage.{ManageCommand, actor_of, manage}
use venue_backend.UseCases.Manage.Owned.{
  Managed, refused, crashed, changed, find_id, manage-Managed,
}

find-replace_other :
    (id : ℕ) (res' : Resource) (rows : List Resource) (r : Resource)
    → res'.id ≢ id
    → find (λ y. y.id == id) rows ≡ some r
    → find (λ y. y.id == id) (replace_resource res' rows) ≡ some r
find-replace_other id res' [] r d h = cc
find-replace_other id res' (y ∷ rows) r d h = ground (arith, find-replace_other id res' rows r d)

resources_left : Outcome (Unit {0}) → List Resource
resources_left (done u w) = w.resources
resources_left (fail e w) = []
resources_left raised = []

kept_lookup :
    (id actor_id : ℕ) {raises : Bool} (w : World) (other : ℕ) (r : Resource)
    {o : Outcome (Unit {0})} {w' : World}
    → Managed id actor_id raises w o
    → o ≡ done tt w'
    → get_resource other w ≡ some r
    → r.owner_id ≢ actor_id
    → get_resource other w' ≡ some r
unfolding resources_left
kept_lookup id actor_id w other r (refused e) h found foreign = cc
kept_lookup id actor_id w other r (crashed e) h found foreign = cc
kept_lookup id actor_id w other r {w' = w'} (changed res res' is_res owned there m) h found
      foreign =
    let same : res'.id ≡ id = (mutation-same_owner m).0 ∙ find_id id w.resources res is_res in
    let apart : res'.id ≢ other = λ e.
      foreign (owner_of (sym found ∙ ap (λ n. get_resource n w) (sym e ∙ same) ∙ is_res) owned) in
    let left : replace_resource res' w.resources ≡ w'.resources = ap resources_left h in
    rw⁻¹ left (find-replace_other other res' w.resources r apart found)
  where
    owner_of :
        {r res : Resource} → some r ≡ some res → res.owner_id ≡ actor_id → r.owner_id ≡ actor_id
    owner_of e owned = ground arith

-- Whatever command an owner gives, the look-up of a resource of somebody else finds what it found
-- before.
pub manage_others :
    (cmd : ManageCommand) (now : ℕ) (w w' : World) (other : ℕ) (r : Resource)
    → manage cmd now w ≡ done tt w'
    → get_resource other w ≡ some r
    → r.owner_id ≢ actor_of cmd
    → get_resource other w' ≡ some r
manage_others cmd now w w' other r h found foreign =
    kept_lookup _ _ w other r (manage-Managed cmd now w) h found foreign

-- Every resource of the table is well formed.
abbrev pub AreResources : World → Type 0
AreResources w = (r : Resource) → Member r w.resources → IsResource r

-- What a command leaves, whether it is refused or changes a resource, are well-formed resources.
kept_resources :
    (id actor_id : ℕ) {raises : Bool} (w : World) {o : Outcome (Unit {0})}
    → Managed id actor_id raises w o
    → AreResources w
    → Left AreResources o
kept_resources id actor_id w (refused e) all = all
kept_resources id actor_id w (crashed e) all = tt
kept_resources id actor_id w (changed res res' found owned there m) all = λ r row.
    elim (Member-map (λ y. y.id == res'.id) res' w.resources r row) [
      | inl e ↦ subst IsResource (sym e) (
          mutation-IsResource (all res ((Member-find (λ y. y.id == id) w.resources res found).0)) m)
      | inr old ↦ all r old.0
    ]

-- A sequence of commands of any owners at any times, creations among them.
pub data Managing (w : World) : World → Type 0 where
  begin : Managing w w
  then_by :
      {u v : World} (cmd : ManageCommand) (now : ℕ)
      → Managing w u
      → manage cmd now u ≡ done tt v
      → Managing w v
  created_by :
      {u v : World} (env : Surroundings) (cmd : CreateResourceCommand) (r : Resource)
      → Managing w u
      → handle_create env cmd u ≡ done r v
      → Managing w v

create-AreResources :
    (env : Surroundings) (cmd : CreateResourceCommand) (w w' : World) (r : Resource)
    → AreResources w
    → handle_create env cmd w ≡ done r w'
    → AreResources w'
create-AreResources env cmd w w' r all h =
    let (user, rt, can, left) = handle_create_accepts env cmd w w' r h in
    rw left
      λ x m. elim (Member-append w.resources r x m) [ inl old ↦ all x old | inr e ↦ rw e can.whole ]

-- Whatever resources the owners create and whatever commands they give, every resource is well
-- formed: windows on the slot grid, ordered and disjoint; pricing rules placed within them and
-- without clash; distinct attribute keys.
pub manage_keeps_resources : {w w' : World} → AreResources w → Managing w w' → AreResources w'
manage_keeps_resources all begin = all
manage_keeps_resources all (then_by {u} cmd now run h) =
    rw h at (kept_resources _ _ u (manage-Managed cmd now u) (manage_keeps_resources all run))
manage_keeps_resources all (created_by {u} {v} env cmd r run h) =
    create-AreResources env cmd u v r (manage_keeps_resources all run) h
