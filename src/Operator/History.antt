-- ===== src/Operator/History.antt =====
-- The life of one stored custom resource, over any number of reconciliations, with interruptions.
use minio_operator_ext.Base.{
  ◌≡◌, ◌≢◌, refl, subst, ℕ, zero, suc, true, false, Option, none, some, List, [], ◌∷◌, arith,
}
use minio_operator_ext.Api.{NamespacedName}
use minio_operator_ext.Client.{Env, Op, Event}
use minio_operator_ext.Lifecycle.{
  View, Move, Effect, effect_of, written, latest, Allows, IsAllowed, IsTrail,
}
use minio_operator_ext.Reconciler.{Reconciler}
use minio_operator_ext.Operator.Controllers.{
  Controller, reconcile_of, read_view, Server, reconcile_of-IsTrail,
}

abbrev pub drop {ℓ} : {A : Type ℓ} → ℕ → List A → List A
drop zero l = l
drop (suc n) [] = []
drop (suc n) (_ ∷ l) = drop n l

-- While the status says that something was created in MinIO, the finalizer is there.
abbrev pub IsSafe : View → Type 0
IsSafe v = v.managed ≡ true → v.guarded ≡ true

Move-IsSafe : (v w : View) → Move v w → IsSafe v → IsSafe w
Move-IsSafe v w (Move.guard d g e) safe m = rw e refl
Move-IsSafe v w (Move.adopt d g e) safe m = rw e g
Move-IsSafe v w (Move.forget d g e) safe m = rw e g
Move-IsSafe v w (Move.release d e) safe m = absurd (cc)
Move-IsSafe v w (Move.finish d g e) safe m = absurd (cc)

module _ {W : Type 0} (env : Env W) where
  IsAllowed-IsSafe :
      (v : View) (e : Event) (log : List Event)
      → IsAllowed env (latest env v log) e.op
      → IsSafe (latest env v log)
      → IsSafe (latest env v (e ∷ log))
  IsAllowed-IsSafe v e log allowed safe = go (written env e.op) allowed
    where
      go :
          (o : Option View)
          → Allows env (latest env v log) (effect_of e.op) o
          → IsSafe (elim o [ none ↦ latest env v log | some w ↦ w ])
      go none a = safe
      go (some w) a = Move-IsSafe (latest env v log) w a safe

  latest-IsSafe :
      (v : View) (log : List Event) → IsTrail env v log → IsSafe v → IsSafe (latest env v log)
  latest-IsSafe v [] trail safe = safe
  latest-IsSafe v (e ∷ log) trail safe =
      IsAllowed-IsSafe v e log trail.1 (latest-IsSafe v log trail.0 safe)

  drop-IsTrail :
      (v : View) (n : ℕ) (log : List Event) → IsTrail env v log → IsTrail env v (drop n log)
  drop-IsTrail v zero log trail = trail
  drop-IsTrail v (suc n) [] trail = trail
  drop-IsTrail v (suc n) (e ∷ log) trail = drop-IsTrail v n log trail.0

  -- The views that the stored resource of a controller goes through. A reconciliation that read it
  -- as it is stored may stop after any of its calls, or have its last writes refused: the newest `n`
  -- calls of the run are then missing. One that read an older version has its writes refused.
  pub data Reaches (c : Controller) : View → Type 0 where
    -- made by a user, who writes no status
    created : (v : View) → v.managed ≡ false → Reaches c v
    -- deleted by a user
    marked : (v : View) → Reaches c v → Reaches c (record v { deleting = true })
    reconciled :
        (v : View) (r : Reconciler) (req : NamespacedName) (w : W) (n : ℕ)
        → Reaches c v
        → read_view env c req w ≡ some v
        → Reaches c (
            latest env v (drop n (reconcile_of env c r req (record { world = w; log = [] })).1.log))

  pub Reaches-IsSafe : Server env → (c : Controller) (v : View) → Reaches c v → IsSafe v
  Reaches-IsSafe server c v (Reaches.created u unset) = λ m. absurd (cc)
  Reaches-IsSafe server c v (Reaches.marked u past) = Reaches-IsSafe server c u past
  Reaches-IsSafe server c v (Reaches.reconciled u r req w n past e) =
      latest-IsSafe u (drop n _)
        (drop-IsTrail u n _ (reconcile_of-IsTrail env server c r req w u e))
        (Reaches-IsSafe server c u past)

  effect_of-unwritten : (op : Op) → effect_of op ≢ Effect.neither → written env op ≡ none
  effect_of-unwritten op e = ground arith

  -- What a call needs of the view that it is made in: the finalizer, where it makes or removes
  -- something outside the resource.
  abbrev pub Needs : Effect → View → Type 0
  Needs Effect.makes v = v.guarded ≡ true
  Needs Effect.removes v = v.guarded ≡ true
  Needs Effect.neither v = Unit

  abbrev pub IsCovered : View → List Event → Type 0
  IsCovered v [] = Unit
  IsCovered v (e ∷ log) = IsCovered v log × Needs (effect_of e.op) (latest env v log)

  Allows-Needs :
      (v : View) (e : Effect) (o : Option View)
      → Allows env v e o
      → (e ≢ Effect.neither → o ≡ none)
      → IsSafe v
      → Needs e v
  Allows-Needs v Effect.makes o a unwritten safe =
      (subst (Allows env v Effect.makes) (unwritten (λ n. cc)) a).1
  Allows-Needs v Effect.removes o a unwritten safe =
      safe (subst (Allows env v Effect.removes) (unwritten (λ n. cc)) a)
  Allows-Needs v Effect.neither o a unwritten safe = tt

  IsTrail-IsCovered : (v : View) (log : List Event) → IsTrail env v log → IsSafe v → IsCovered v log
  IsTrail-IsCovered v [] trail safe = tt
  IsTrail-IsCovered v (e ∷ log) (trail, allowed) safe = (
    IsTrail-IsCovered v log trail safe,
    Allows-Needs (latest env v log) (effect_of e.op) (written env e.op) allowed
        (effect_of-unwritten e.op) (latest-IsSafe v log trail safe),
  )

  -- Given finalizers that `controllerutil` adds and removes, and an API server that stores what
  -- it accepts: in every state that the stored resource of a controller goes through, from its
  -- creation without a status, over deletion marks and any number of reconciliations, each of
  -- which may be cut short after any of its calls, a resource whose status is set has the
  -- finalizer. So the API server never drops a resource that still says what was created for it.
  pub Reaches-guarded :
      Server env → (c : Controller) (v : View) → Reaches c v → v.managed ≡ true → v.guarded ≡ true
  Reaches-guarded server c v past managed = Reaches-IsSafe server c v past managed

  -- Given finalizers that `controllerutil` adds and removes, and an API server that stores what
  -- it accepts: each call of a reconciliation that makes something in MinIO or in the cluster,
  -- or removes something from MinIO, is made while the resource has the finalizer, if the
  -- resource that was read is one that such a history of creation, deletion marks and
  -- interrupted reconciliations leads to.
  pub reconcile_of-IsCovered :
      Server env
      → (c : Controller) (v : View) → Reaches c v
      → (r : Reconciler) (req : NamespacedName) (w : W) → read_view env c req w ≡ some v
      → IsCovered v (reconcile_of env c r req (record { world = w; log = [] })).1.log
  reconcile_of-IsCovered server c v past r req w e =
      IsTrail-IsCovered v _ (reconcile_of-IsTrail env server c r req w v e)
        (Reaches-IsSafe server c v past)
