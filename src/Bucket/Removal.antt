-- ===== src/Bucket/Removal.antt =====
-- A deletion of a bucket that succeeds removed it from MinIO before it cleared the status.
use minio_operator_ext.Base.{
  Bool, Bool-cases, inl, inr, sym, ◌∙◌, path_of_same, true, ◌↔◌, string_eq, ◌==◌, ◌≡◌, refl, false,
  Option, some,
}
use minio_operator_ext.Api.{NamespacedName, MinioBucket, MinioBucketSpec, Connection}
use minio_operator_ext.Client.{Error, ok, Op, ignore_minio_error_code, Env, Run, Ensures}
use minio_operator_ext.Lifecycle.{view}
use minio_operator_ext.Reconciler.{Reconciler}
use minio_operator_ext.Resource.Removal.{
  IsRemoval, judged-IsRemoval, quiet-IsRemoval, dispatch-IsRemoval, Removes, with_resource-Removes,
}
use minio_operator_ext.Bucket.{
  kind, is_forced, client_of, delete_bucket, reconcile_found, reconcile,
}
use minio_operator_ext.Bucket.Sync.{kind-IsKind}
use minio_operator_ext.Bucket.Trail.{client_of-log}

-- The errors that the deletion lets pass.
abbrev pub judge : Option Error → Option Error
judge e = ignore_minio_error_code e "NoSuchBucket"

-- The call removes what the status of `b` names, from the tenant that the status names.
pub record RemovesBucket {W : Type 0} (env : Env W) (r : Reconciler) (b : MinioBucket) (op : Op)
    : Type 0 where
  pub current : MinioBucketSpec
  pub is_current : b.status.current_spec ≡ some current
  pub mtac : Connection
  pub run : Run W
  pub connected :
      (client_of env current.tenant_ref b.meta.namespace r.minio_operator_namespace run).0 ≡ ok mtac
  -- also with objects in it exactly where the deletion policy is `Always`
  pub force : Bool
  pub forced : (force ≡ true) ↔ (current.deletion_policy ≡ "Always")
  pub is_op : op ≡ Op.remove_bucket mtac current.name force

is_forced_iff :
    (spec : MinioBucketSpec) → (is_forced spec ≡ true) ↔ (spec.deletion_policy ≡ "Always")
unfolding is_forced
is_forced_iff spec = elim (Bool-cases (spec.deletion_policy == "")) [
  | inl e ↦ rw e (
    λ h. absurd (cc),
    λ q.
        let empty : "" ≡ "Always" = sym (path_of_same spec.deletion_policy "" e) ∙ q in
        let bad = (string_eq.same_iff "" "Always").1 empty in absurd (cc),
  )
  | inr e ↦ rw e (string_eq.same_iff spec.deletion_policy "Always")
]

module _ {W : Type 0} (env : Env W) (r : Reconciler) where
  delete_bucket-IsRemoval :
      (b : MinioBucket) (c : MinioBucketSpec) (s : Run W)
      → b.status.current_spec ≡ some c
      → Ensures
          (λ _ s'.
            IsRemoval env judge
              (RemovesBucket env r b)
              (record (view env b.meta b.status.current_spec) { managed = false })
              s.log
              s'.log)
          (delete_bucket env r b c)
          s
  unfolding delete_bucket
  delete_bucket-IsRemoval b c s is_current =
      quiet-IsRemoval env (kind env) (kind-IsKind env) r judge (RemovesBucket env r b) b
        (client_of env c.tenant_ref b.meta.namespace r.minio_operator_namespace) _ s
        (client_of-log env c.tenant_ref b.meta.namespace r.minio_operator_namespace s)
        (λ mtac s1 connected.
          let op = Op.remove_bucket mtac c.name (is_forced c) in
          judged-IsRemoval env (kind env) (kind-IsKind env) r judge (RemovesBucket env r b) b op
            (env.act op) s1 refl
            (record {
              current = c;
              is_current = is_current;
              mtac = mtac;
              run = s;
              connected = connected;
              force = is_forced c;
              forced = is_forced_iff c;
              is_op = refl;
            }))

  pub reconcile_bucket-Removes :
      (req : NamespacedName) (w : W) (b : MinioBucket)
      → (env.get_bucket req w).0 ≡ ok b
      → Removes env judge
          (RemovesBucket env r b)
          (view env b.meta b.status.current_spec)
          (reconcile env r req)
          w
  unfolding reconcile reconcile_found
  reconcile_bucket-Removes req =
      with_resource-Removes env (kind env) judge (RemovesBucket env r) (env.get_bucket req)
        (reconcile_found env r)
        (λ b s.
          dispatch-IsRemoval env (kind env) (kind-IsKind env) r judge (RemovesBucket env r b) b s
            (delete_bucket env r b) _ _ (λ c. delete_bucket-IsRemoval b c s))
