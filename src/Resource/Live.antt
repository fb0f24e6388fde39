-- ===== src/Resource/Live.antt =====
-- Between the calls of a reconciliation whose resource has the finalizer and is not being deleted:
-- the log is a trail that ends at the resource, and the resource may be adopted.
use minio_operator_ext.Base.{◌≡◌, true}
use minio_operator_ext.Client.{Env, Run, Io}
use minio_operator_ext.Lifecycle.{View, Move, view, After}
use minio_operator_ext.Reconciler.{zero_time, guarded}
use minio_operator_ext.Resource.{Kind, update}
use minio_operator_ext.Resource.Laws.{KeepsMeta, IsKind, Echoes}
use minio_operator_ext.Resource.Trail.{IsAt, IsAt-log, update-IsTrail, update-IsAt}

module _ {W R S : Type 0} (env : Env W) (k : Kind W R S) where
  abbrev pub IsLive : View → R → Run W → Type 0
  IsLive v x s =
      IsAt env k v x s × ((zero_time env (k.meta x) ≡ true) × (guarded env (k.meta x) ≡ true))

  -- The part `m` leaves the log alone.
  pub quiet-After :
      {A : Type 0} (v : View) (x : R) (s : Run W) (m : Io W A)
      → (m s).1.log ≡ s.log
      → IsLive v x s
      → After env v (λ _ s'. IsLive v x s') (m s)
  quiet-After v x s m e (at, off) =
      let at' = IsAt-log env k v x s (m s).1 e at in (at'.0, λ _ _. (at', off))

  module _ (laws : IsKind env k) (echoes : Echoes env k) where
    -- The resource is written with the metadata it has, and with a status or without one.
    pub write-After :
        (v : View) (x y : R) (s : Run W)
        → k.meta y ≡ k.meta x
        → Move (view env (k.meta x) (k.current_spec x)) (view env (k.meta y) (k.current_spec y))
        → IsLive v x s
        → After env v (λ x' s'. IsLive v x' s') (update env k y s)
    write-After v x y s same move (at, (z, g)) = (
      update-IsTrail env k laws v x y s at move,
      λ x' e.
          let kept : KeepsMeta (k.meta y) (k.meta x') = echoes.meta y x' s.world e in
          (
            update-IsAt env k laws v x y x' s echoes at move e,
            (rw kept.deletion_timestamp (rw same z), rw kept.finalizers (rw same g)),
          ),
    )
