-- ===== src/Operator/Controllers.antt =====
-- The seven reconcilers of internal/operator as one: each controller that the operator registers
-- runs the `Reconcile` of its reconciler, and follows the machine of Lifecycle.
use minio_operator_ext.Base.{◌≡◌, refl, subst, Option, none, some, List, []}
use minio_operator_ext.Api.{NamespacedName}
use minio_operator_ext.Client.{Result, ok, err, Event, Env, Io}
use minio_operator_ext.Lifecycle.{View, view, IsTrail}
use minio_operator_ext.Reconciler.{Reconciler, ReconcileResult}
use minio_operator_ext.Resource.{Kind}
use minio_operator_ext.Resource.Laws.{Finalizers, Echoes}
use minio_operator_ext.Group
use minio_operator_ext.Group.Trail.{reconcile_group-IsTrail}
use minio_operator_ext.GroupBinding
use minio_operator_ext.GroupBinding.Trail.{reconcile_group_binding-IsTrail}
use minio_operator_ext.User
use minio_operator_ext.User.Trail.{reconcile_user-IsTrail}
use minio_operator_ext.Policy
use minio_operator_ext.Policy.Trail.{reconcile_policy-IsTrail}
use minio_operator_ext.PolicyBinding
use minio_operator_ext.PolicyBinding.Trail.{reconcile_policy_binding-IsTrail}
use minio_operator_ext.Bucket
use minio_operator_ext.Bucket.Trail.{reconcile_bucket-IsTrail}
use minio_operator_ext.AccessKey
use minio_operator_ext.AccessKey.Trail.{reconcile_access_key-IsTrail}

-- One for each kind of custom resource.
pub data Controller : Type 0 where
  bucket : Controller
  group : Controller
  group_binding : Controller
  policy : Controller
  policy_binding : Controller
  user : Controller
  access_key : Controller

module _ {W : Type 0} (env : Env W) where
  -- The `Reconcile` that a controller calls for a request.
  unfoldable pub reconcile_of : Controller → Reconciler → NamespacedName → Io W ReconcileResult
  reconcile_of Controller.bucket r req = Bucket.reconcile env r req
  reconcile_of Controller.group r req = Group.reconcile env r req
  reconcile_of Controller.group_binding r req = GroupBinding.reconcile env r req
  reconcile_of Controller.policy r req = Policy.reconcile env r req
  reconcile_of Controller.policy_binding r req = PolicyBinding.reconcile env r req
  reconcile_of Controller.user r req = User.reconcile env r req
  reconcile_of Controller.access_key r req = AccessKey.reconcile env r req

  -- The view of a resource that a call of `Get` answers.
  abbrev pub view_of : {R S : Type 0} → Kind W R S → Result R → Option View
  view_of k (ok x) = some (view env (k.meta x) (k.current_spec x))
  view_of k (err e) = none

  -- The view of the resource that the `Reconcile` of a controller reads first.
  abbrev pub read_view : Controller → NamespacedName → W → Option View
  read_view Controller.bucket req w = view_of (Bucket.kind env) (env.get_bucket req w).0
  read_view Controller.group req w = view_of (Group.kind env) (env.get_group req w).0
  read_view Controller.group_binding req w =
      view_of (GroupBinding.kind env) (env.get_group_binding req w).0
  read_view Controller.policy req w = view_of (Policy.kind env) (env.get_policy req w).0
  read_view Controller.policy_binding req w =
      view_of (PolicyBinding.kind env) (env.get_policy_binding req w).0
  read_view Controller.user req w = view_of (User.kind env) (env.get_user req w).0
  read_view Controller.access_key req w =
      view_of (AccessKey.Actions.kind env) (env.get_access_key req w).0

  -- What is relied on of `controllerutil` and of the API server.
  pub record Server : Type 0 where
    pub finalizers : Finalizers env
    pub buckets : Echoes env (Bucket.kind env)
    pub groups : Echoes env (Group.kind env)
    pub group_bindings : Echoes env (GroupBinding.kind env)
    pub policies : Echoes env (Policy.kind env)
    pub policy_bindings : Echoes env (PolicyBinding.kind env)
    pub users : Echoes env (User.kind env)
    pub access_keys : Echoes env (AccessKey.Actions.kind env)

  view_of-IsTrail :
      {R S : Type 0} (k : Kind W R S) (r : Result R) (log : List Event) (v : View)
      → view_of k r ≡ some v
      → ((x : R) → r ≡ ok x → IsTrail env (view env (k.meta x) (k.current_spec x)) log)
      → IsTrail env v log
  view_of-IsTrail k (ok x) log v e h = subst (λ u. IsTrail env u log) (cc) (h x refl)
  view_of-IsTrail k (err _) log v e h = absurd (cc)

  -- Given finalizers that `controllerutil` adds and removes, and an API server that stores what
  -- it accepts: whichever of the seven controllers runs and whatever else the services answer,
  -- each write of the resource in a reconciliation is a move of the machine of Lifecycle from
  -- the write before it, the first from the resource that was read; something is made in MinIO
  -- or in the cluster only while the resource has the finalizer and is not marked for deletion;
  -- and something is removed from MinIO only while its status is set.
  pub reconcile_of-IsTrail :
      Server
      → (c : Controller) (r : Reconciler) (req : NamespacedName) (w : W) (v : View)
      → read_view c req w ≡ some v
      → IsTrail env v (reconcile_of c r req (record { world = w; log = [] })).1.log
  unfolding reconcile_of
  reconcile_of-IsTrail server Controller.bucket r req w v e =
      view_of-IsTrail (Bucket.kind env) (env.get_bucket req w).0 _ v e
        (reconcile_bucket-IsTrail env r server.finalizers server.buckets req w)
  reconcile_of-IsTrail server Controller.group r req w v e =
      view_of-IsTrail (Group.kind env) (env.get_group req w).0 _ v e
        (reconcile_group-IsTrail env r server.finalizers server.groups req w)
  reconcile_of-IsTrail server Controller.group_binding r req w v e =
      view_of-IsTrail (GroupBinding.kind env) (env.get_group_binding req w).0 _ v e
        (reconcile_group_binding-IsTrail env r server.finalizers server.group_bindings req w)
  reconcile_of-IsTrail server Controller.policy r req w v e =
      view_of-IsTrail (Policy.kind env) (env.get_policy req w).0 _ v e
        (reconcile_policy-IsTrail env r server.finalizers server.policies req w)
  reconcile_of-IsTrail server Controller.policy_binding r req w v e =
      view_of-IsTrail (PolicyBinding.kind env) (env.get_policy_binding req w).0 _ v e
        (reconcile_policy_binding-IsTrail env r server.finalizers server.policy_bindings req w)
  reconcile_of-IsTrail server Controller.user r req w v e =
      view_of-IsTrail (User.kind env) (env.get_user req w).0 _ v e
        (reconcile_user-IsTrail env r server.finalizers server.users req w)
  reconcile_of-IsTrail server Controller.access_key r req w v e =
      view_of-IsTrail (AccessKey.Actions.kind env) (env.get_access_key req w).0 _ v e
        (reconcile_access_key-IsTrail env r server.access_keys server.finalizers req w)
