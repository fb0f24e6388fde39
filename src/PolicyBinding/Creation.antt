-- ===== src/PolicyBinding/Creation.antt =====
-- A creation of a policy binding that succeeds made it in MinIO before it set the status.
use minio_operator_ext.Base.{◌≡◌, true, some, none, Option}
use minio_operator_ext.Api.{NamespacedName, MinioPolicyBinding, Connection}
use minio_operator_ext.Client.{
  Error, ok, Op, Env, Run, ◌>>=◌, ◌>>◌, perform, attempt, check, error_of, ignore_madmin_error_code,
}
use minio_operator_ext.Lifecycle.{View, view}
use minio_operator_ext.Reconciler.{Reconciler, succeed}
use minio_operator_ext.Resource.{update}
use minio_operator_ext.Resource.Creation.{
  IsCreation, Creates, >>=-Creates, judged-Made, last-Creates, dispatch-Creates, Makes,
  with_resource-Makes,
}
use minio_operator_ext.Base.{if◌then◌else◌, inl, inr, Bool-cases}
use minio_operator_ext.Base.{arith}
use minio_operator_ext.Tenant.{admin_client_of}
use minio_operator_ext.PolicyBinding.{
  kind, set_current_spec, clear_migrate, is_ldap, association_of, attach_policy_member,
  reconcile_found, reconcile,
}
use minio_operator_ext.PolicyBinding.Trail.{kind-IsKind}

-- The error of a binding that is there already is let pass, for a resource with `migrate`.
abbrev pub lenient : Option Error → Option Error
lenient e = ignore_madmin_error_code e "XMinioAdminPolicyChangeAlreadyApplied"

module _ {W : Type 0} (env : Env W) (r : Reconciler) where
  abbrev made_view : MinioPolicyBinding → View
  made_view pb = record (view env pb.meta pb.status.current_spec) { managed = true }

  abbrev test : MinioPolicyBinding → Option Error → Option Error
  test pb e = if pb.spec.migrate then lenient e else e

  abbrev attach : MinioPolicyBinding → Connection → Op
  attach pb mtac =
      if is_ldap pb.spec
      then Op.attach_policy_ldap mtac (association_of pb.spec)
      else Op.attach_policy mtac (association_of pb.spec)

  abbrev done : MinioPolicyBinding → MinioPolicyBinding
  done pb = set_current_spec env (clear_migrate env pb) (some (clear_migrate env pb).spec)

  test-lenient : (pb : MinioPolicyBinding) (e : Option Error) → test pb e ≡ none → lenient e ≡ none
  test-lenient pb e h = elim (Bool-cases pb.spec.migrate) [
    | inl t ↦ ground (arith, t, h)
    | inr t ↦ ground (arith, t, h)
  ]

  attach_policy_member-Creates :
      (pb : MinioPolicyBinding) (s : Run W)
      → Creates env lenient (made_view pb) (attach_policy_member env r pb) s
  unfolding attach_policy_member
  attach_policy_member-Creates pb s =
      >>=-Creates env lenient (made_view pb)
        (admin_client_of env pb.spec.tenant_ref pb.meta.namespace r.minio_operator_namespace)
        (λ mtac. attempt (perform (attach pb mtac) (env.act (attach pb mtac))) >>= λ made.
          check (test pb (error_of made)) >> (update env (kind env) (done pb) >>= λ _. succeed r))
        s
        (λ mtac s1.
          judged-Made env lenient (λ _ s'. IsCreation env lenient (made_view pb) s'.log) (test pb)
            (attach pb mtac) (env.act (attach pb mtac))
            (update env (kind env) (done pb) >>= λ _. succeed r) s1 (ground arith) (test-lenient pb)
            (λ s2 made. last-Creates env lenient (kind env) (kind-IsKind env) r (done pb) s2 made))

  pub reconcile_policy_binding-Makes :
      (req : NamespacedName) (w : W) (pb : MinioPolicyBinding)
      → (env.get_policy_binding req w).0 ≡ ok pb
      → Makes env lenient (view env pb.meta pb.status.current_spec) (reconcile env r req) w
  unfolding reconcile reconcile_found
  reconcile_policy_binding-Makes req =
      with_resource-Makes env lenient (kind env) (env.get_policy_binding req)
        (reconcile_found env r)
        (λ pb s.
          dispatch-Creates env lenient (kind env) pb (made_view pb) s _ _ _ _
            (attach_policy_member env r pb) (attach_policy_member-Creates pb s))
