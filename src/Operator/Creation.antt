-- ===== src/Operator/Creation.antt =====
-- What the creations of the reconcilers have in common: the status is set only behind a call that made
-- the MinIO object.
use minio_operator_ext.Base.{◌≡◌, refl, subst, Option, some, [], true, false}
use minio_operator_ext.Api.{NamespacedName}
use minio_operator_ext.Client.{Error, Result, ok, err, Env, Io}
use minio_operator_ext.Lifecycle.{View, view}
use minio_operator_ext.Reconciler.{Reconciler, ReconcileResult}
use minio_operator_ext.Resource.{Kind}
use minio_operator_ext.Resource.Creation.{IsCreation, Makes}
use minio_operator_ext.Operator.Controllers.{Controller, reconcile_of, view_of, read_view}
use minio_operator_ext.Bucket
use minio_operator_ext.Bucket.Creation.{reconcile_bucket-Makes}
use minio_operator_ext.Group
use minio_operator_ext.Group.Creation.{reconcile_group-Makes}
use minio_operator_ext.GroupBinding
use minio_operator_ext.GroupBinding.Creation.{reconcile_group_binding-Makes}
use minio_operator_ext.Policy
use minio_operator_ext.Policy.Creation.{reconcile_policy-Makes}
use minio_operator_ext.PolicyBinding
use minio_operator_ext.PolicyBinding.Creation.{reconcile_policy_binding-Makes}
use minio_operator_ext.User
use minio_operator_ext.User.Creation.{reconcile_user-Makes}
use minio_operator_ext.AccessKey
use minio_operator_ext.AccessKey.Creation.{reconcile_access_key-Makes}

module _ {W : Type 0} (env : Env W) where
  -- The errors of a call that makes something that a creation lets pass, where `migrate` is set.
  abbrev pub excused_by : Controller → Option Error → Option Error
  excused_by Controller.bucket e = Bucket.Creation.lenient e
  excused_by Controller.group e = Group.Creation.strict e
  excused_by Controller.group_binding e = GroupBinding.Creation.strict e
  excused_by Controller.policy e = Policy.Creation.strict e
  excused_by Controller.policy_binding e = PolicyBinding.Creation.lenient e
  excused_by Controller.user e = User.Creation.strict e
  excused_by Controller.access_key e = AccessKey.Creation.lenient env e

  view_of-Makes :
      {R S : Type 0} (k : Kind W R S) (x : Result R) (judge : Option Error → Option Error)
      (m : Io W ReconcileResult) (w : W) (v : View)
      → view_of env k x ≡ some v
      → ((y : R) → x ≡ ok y → Makes env judge (view env (k.meta y) (k.current_spec y)) m w)
      → Makes env judge v m w
  view_of-Makes k (ok y) judge m w v e h = subst (λ u. Makes env judge u m w) (cc) (h y refl)
  view_of-Makes k (err _) judge m w v e h = absurd (cc)

  reconcile_of-Makes :
      (c : Controller) (r : Reconciler) (req : NamespacedName) (w : W) (v : View)
      → read_view env c req w ≡ some v
      → Makes env (excused_by c) v (reconcile_of env c r req) w
  unfolding reconcile_of
  reconcile_of-Makes Controller.bucket r req w v e =
      view_of-Makes (Bucket.kind env) (env.get_bucket req w).0 Bucket.Creation.lenient
        (Bucket.reconcile env r req) w v e (reconcile_bucket-Makes env r req w)
  reconcile_of-Makes Controller.group r req w v e =
      view_of-Makes (Group.kind env) (env.get_group req w).0 Group.Creation.strict
        (Group.reconcile env r req) w v e (reconcile_group-Makes env r req w)
  reconcile_of-Makes Controller.group_binding r req w v e =
      view_of-Makes (GroupBinding.kind env) (env.get_group_binding req w).0
        GroupBinding.Creation.strict (GroupBinding.reconcile env r req) w v e
        (reconcile_group_binding-Makes env r req w)
  reconcile_of-Makes Controller.policy r req w v e =
      view_of-Makes (Policy.kind env) (env.get_policy req w).0 Policy.Creation.strict
        (Policy.reconcile env r req) w v e (reconcile_policy-Makes env r req w)
  reconcile_of-Makes Controller.policy_binding r req w v e =
      view_of-Makes (PolicyBinding.kind env) (env.get_policy_binding req w).0
        PolicyBinding.Creation.lenient (PolicyBinding.reconcile env r req) w v e
        (reconcile_policy_binding-Makes env r req w)
  reconcile_of-Makes Controller.user r req w v e =
      view_of-Makes (User.kind env) (env.get_user req w).0 User.Creation.strict
        (User.reconcile env r req) w v e (reconcile_user-Makes env r req w)
  reconcile_of-Makes Controller.access_key r req w v e =
      view_of-Makes (AccessKey.Actions.kind env) (env.get_access_key req w).0
        (AccessKey.Creation.lenient env) (AccessKey.reconcile env r req) w v e
        (reconcile_access_key-Makes env r req w)

  -- Whichever of the seven controllers runs: a reconciliation that succeeds on a resource with
  -- the finalizer, without a status and not marked for deletion ends with a write of the
  -- resource that sets the status and is accepted. Before it something was made in MinIO or in
  -- the cluster, by a call that was accepted or was answered with an error that this kind of
  -- resource lets pass, with no call between the two that makes or removes anything.
  pub reconcile_of-IsCreation :
      (c : Controller) (r : Reconciler) (req : NamespacedName) (w : W) (v : View)
      (res : ReconcileResult)
      → read_view env c req w ≡ some v
      → v.deleting ≡ false
      → v.guarded ≡ true
      → v.managed ≡ false
      → (reconcile_of env c r req (record { world = w; log = [] })).0 ≡ ok res
      → IsCreation env
          (excused_by c)
          (record v { managed = true })
          (reconcile_of env c r req (record { world = w; log = [] })).1.log
  reconcile_of-IsCreation c r req w v res e live guarded unset =
      reconcile_of-Makes c r req w v e live guarded unset res
