-- ===== src/Operator/Removal.antt =====
-- What the deletions of the reconcilers have in common: the MinIO object is removed first.
use minio_operator_ext.Base.{◌≡◌, ◌≢◌, refl, subst, Option, some, [], true, false}
use minio_operator_ext.Api.{
  NamespacedName, MinioBucket, MinioGroup, MinioGroupBinding, MinioPolicy, MinioPolicyBinding,
  MinioUser,
}
use minio_operator_ext.Client.{Error, Result, ok, err, Op, Env, Io}
use minio_operator_ext.Lifecycle.{View, view}
use minio_operator_ext.Reconciler.{Reconciler, ReconcileResult}
use minio_operator_ext.Resource.{Kind}
use minio_operator_ext.Resource.Removal.{IsRemoval, IsRemoval-map, Removes}
use minio_operator_ext.Operator.Controllers.{Controller, reconcile_of, view_of, read_view}
use minio_operator_ext.Bucket
use minio_operator_ext.Bucket.Removal.{RemovesBucket, reconcile_bucket-Removes}
use minio_operator_ext.Group
use minio_operator_ext.Group.Removal.{RemovesGroup, reconcile_group-Removes}
use minio_operator_ext.GroupBinding
use minio_operator_ext.GroupBinding.Removal.{RemovesMember, reconcile_group_binding-Removes}
use minio_operator_ext.Policy
use minio_operator_ext.Policy.Removal.{RemovesPolicy, reconcile_policy-Removes}
use minio_operator_ext.PolicyBinding
use minio_operator_ext.PolicyBinding.Removal.{RemovesBinding, reconcile_policy_binding-Removes}
use minio_operator_ext.User
use minio_operator_ext.User.Removal.{RemovesUser, reconcile_user-Removes}

-- The errors of a removal that a deletion lets pass.
abbrev pub judge_of : Controller → Option Error → Option Error
judge_of Controller.bucket e = Bucket.Removal.judge e
judge_of Controller.group e = Group.Removal.judge e
judge_of Controller.group_binding e = GroupBinding.Removal.judge e
judge_of Controller.policy e = Policy.Removal.judge e
judge_of Controller.policy_binding e = PolicyBinding.Removal.judge e
judge_of Controller.user e = User.Removal.judge e
judge_of Controller.access_key e = e

module _ {W : Type 0} (env : Env W) where
  -- What a removal is of: what the status names in the resource that was read.
  abbrev pub IsTarget : Controller → Reconciler → NamespacedName → W → Op → Type 0
  IsTarget Controller.bucket r req w op =
      (b : MinioBucket) × ((env.get_bucket req w).0 ≡ ok b) × RemovesBucket env r b op
  IsTarget Controller.group r req w op =
      (g : MinioGroup) × ((env.get_group req w).0 ≡ ok g) × RemovesGroup env r g op
  IsTarget Controller.group_binding r req w op =
      (gb : MinioGroupBinding) × ((env.get_group_binding req w).0 ≡ ok gb)
      × RemovesMember env r gb op
  IsTarget Controller.policy r req w op =
      (p : MinioPolicy) × ((env.get_policy req w).0 ≡ ok p) × RemovesPolicy env r p op
  IsTarget Controller.policy_binding r req w op =
      (pb : MinioPolicyBinding) × ((env.get_policy_binding req w).0 ≡ ok pb)
      × RemovesBinding env r pb op
  IsTarget Controller.user r req w op =
      (u : MinioUser) × ((env.get_user req w).0 ≡ ok u) × RemovesUser env r u op
  IsTarget Controller.access_key r req w op = ⊥

  view_of-Removes :
      {R S : Type 0} (k : Kind W R S) (x : Result R) (judge : Option Error → Option Error)
      (P : R → Op → Type 0) (m : Io W ReconcileResult) (w : W) (v : View)
      → view_of env k x ≡ some v
      → ((y : R) → x ≡ ok y → Removes env judge (P y) (view env (k.meta y) (k.current_spec y)) m w)
      → Removes env judge (λ op. (y : R) × (x ≡ ok y) × P y op) v m w
  view_of-Removes {R} k (ok y) judge P m w v e h marked managed res done =
      let p : view env (k.meta y) (k.current_spec y) ≡ v = cc in
      IsRemoval-map (λ op target. (y, refl, target))
        (subst (λ u. Removes env judge (P y) u m w) p (h y refl) marked managed res done)
  view_of-Removes k (err _) judge P m w v e h marked managed res done = absurd (cc)

  reconcile_of-Removes :
      (c : Controller) (r : Reconciler) (req : NamespacedName) (w : W) (v : View)
      → c ≢ Controller.access_key
      → read_view env c req w ≡ some v
      → Removes env (judge_of c) (IsTarget c r req w) v (reconcile_of env c r req) w
  unfolding reconcile_of
  reconcile_of-Removes Controller.bucket r req w v _ e =
      view_of-Removes (Bucket.kind env) (env.get_bucket req w).0 Bucket.Removal.judge
        (RemovesBucket env r) (Bucket.reconcile env r req) w v e
        (reconcile_bucket-Removes env r req w)
  reconcile_of-Removes Controller.group r req w v _ e =
      view_of-Removes (Group.kind env) (env.get_group req w).0 Group.Removal.judge
        (RemovesGroup env r) (Group.reconcile env r req) w v e (reconcile_group-Removes env r req w)
  reconcile_of-Removes Controller.group_binding r req w v _ e =
      view_of-Removes (GroupBinding.kind env) (env.get_group_binding req w).0
        GroupBinding.Removal.judge (RemovesMember env r) (GroupBinding.reconcile env r req) w v e
        (reconcile_group_binding-Removes env r req w)
  reconcile_of-Removes Controller.policy r req w v _ e =
      view_of-Removes (Policy.kind env) (env.get_policy req w).0 Policy.Removal.judge
        (RemovesPolicy env r) (Policy.reconcile env r req) w v e
        (reconcile_policy-Removes env r req w)
  reconcile_of-Removes Controller.policy_binding r req w v _ e =
      view_of-Removes (PolicyBinding.kind env) (env.get_policy_binding req w).0
        PolicyBinding.Removal.judge (RemovesBinding env r) (PolicyBinding.reconcile env r req) w v e
        (reconcile_policy_binding-Removes env r req w)
  reconcile_of-Removes Controller.user r req w v _ e =
      view_of-Removes (User.kind env) (env.get_user req w).0 User.Removal.judge (RemovesUser env r)
        (User.reconcile env r req) w v e (reconcile_user-Removes env r req w)
  reconcile_of-Removes Controller.access_key r req w v other e = absurd (other refl)

  -- For each controller but that of the access keys: a reconciliation that succeeds on a
  -- resource that is marked for deletion and has a status made two calls that change something.
  -- The first asked the tenant that the status names to remove what the status names: the
  -- bucket, with its objects exactly where the deletion policy is `Always`; the group; the
  -- member of the group; the policy; the user with the access key of the status; the policy of
  -- the LDAP or else the builtin identity. It was accepted, or answered with an error that this
  -- kind of resource lets pass. The second wrote the resource without a status, and was
  -- accepted.
  pub reconcile_of-IsRemoval :
      (c : Controller) (r : Reconciler) (req : NamespacedName) (w : W) (v : View)
      (res : ReconcileResult)
      → c ≢ Controller.access_key
      → read_view env c req w ≡ some v
      → v.deleting ≡ true
      → v.managed ≡ true
      → (reconcile_of env c r req (record { world = w; log = [] })).0 ≡ ok res
      → IsRemoval env
          (judge_of c)
          (IsTarget c r req w)
          (record v { managed = false })
          []
          (reconcile_of env c r req (record { world = w; log = [] })).1.log
  reconcile_of-IsRemoval c r req w v res other e marked managed =
      reconcile_of-Removes c r req w v other e marked managed res
