-- ===== src/Policy/Creation.antt =====
-- A creation of a policy that succeeds made it in MinIO before it set the status.
use minio_operator_ext.Base.{◌≡◌, refl, true, false, some, Option}
use minio_operator_ext.Api.{NamespacedName, MinioPolicy, Connection}
use minio_operator_ext.Client.{
  Error, ok, Op, Env, Io, Run, ◌>>=◌, query, attempt, Result, err, message, lift, throw,
}
use minio_operator_ext.Lifecycle.{View, view}
use minio_operator_ext.Reconciler.{Reconciler, ReconcileResult}
use minio_operator_ext.Resource.Creation.{
  Creates, >>=-Creates, make_and_set, make_and_set-Creates, dispatch-Creates, Makes,
  with_resource-Makes,
}
use minio_operator_ext.Base.{String, Bool, not, ◌&&◌, ◌++◌, if◌then◌else◌}
use minio_operator_ext.Tenant.{admin_client_of}
use minio_operator_ext.Policy.{
  kind, set_current_spec, clear_migrate, create_policy, reconcile_found, reconcile,
}
use minio_operator_ext.Policy.Trail.{kind-IsKind}

-- Every error of the call ends the creation.
abbrev pub strict : Option Error → Option Error
strict e = e

module _ {W : Type 0} (env : Env W) (r : Reconciler) where
  abbrev made_view : MinioPolicy → View
  made_view p = record (view env p.meta p.status.current_spec) { managed = true }

  abbrev make : MinioPolicy → Connection → String → Io W ReconcileResult
  make p mtac text =
      make_and_set env strict (kind env) r (Op.add_canned_policy mtac p.spec.name text)
        (set_current_spec env (clear_migrate env p) (some (clear_migrate env p).spec))

  abbrev write : MinioPolicy → Connection → Io W ReconcileResult
  write p mtac = lift (env.marshal_policy p.spec.statement p.spec.version) >>= make p mtac

  write-Creates :
      (p : MinioPolicy) (mtac : Connection) (s : Run W)
      → Creates env strict (made_view p) (write p mtac) s
  write-Creates p mtac s =
      >>=-Creates env strict (made_view p)
        (lift (env.marshal_policy p.spec.statement p.spec.version)) (make p mtac) s
        (λ text s1. make_and_set-Creates env strict (kind env) (kind-IsKind env) r _ _ s1 refl refl)

  unless-Creates :
      (t : Bool) (e : Error) (p : MinioPolicy) (mtac : Connection) (s : Run W)
      → Creates env strict (made_view p) (if t then throw e else write p mtac) s
  unless-Creates true e p mtac s = λ res h. absurd (cc)
  unless-Creates false e p mtac s = write-Creates p mtac s

  abbrev exists : Result String → Bool
  exists info = elim info [ ok _ ↦ true | err _ ↦ false ]

  abbrev taken : MinioPolicy → Error
  taken p = message ("policy " ++ p.spec.name ++ " already exists")

  create_policy-Creates :
      (p : MinioPolicy) (s : Run W) → Creates env strict (made_view p) (create_policy env r p) s
  unfolding create_policy
  create_policy-Creates p s =
      >>=-Creates env strict (made_view p)
        (admin_client_of env p.spec.tenant_ref p.meta.namespace r.minio_operator_namespace) _ s
        (λ mtac s1.
          >>=-Creates env strict (made_view p)
            (attempt (query (env.info_canned_policy mtac p.spec.name)))
            (λ info. if exists info && not p.spec.migrate then throw (taken p) else write p mtac) s1
            (λ info s2. unless-Creates (exists info && not p.spec.migrate) (taken p) p mtac s2))

  pub reconcile_policy-Makes :
      (req : NamespacedName) (w : W) (p : MinioPolicy)
      → (env.get_policy req w).0 ≡ ok p
      → Makes env strict (view env p.meta p.status.current_spec) (reconcile env r req) w
  unfolding reconcile reconcile_found
  reconcile_policy-Makes req =
      with_resource-Makes env strict (kind env) (env.get_policy req) (reconcile_found env r) (λ p s.
        dispatch-Creates env strict (kind env) p (made_view p) s _ _ _ _ (create_policy env r p)
          (create_policy-Creates p s))
