-- ===== src/Group/Creation.antt =====
-- A creation of a group that succeeds made it in MinIO before it set the status.
use minio_operator_ext.Base.{◌≡◌, refl, true, false, some, [], Option}
use minio_operator_ext.Api.{NamespacedName, MinioGroup, GroupDesc, Connection}
use minio_operator_ext.Client.{
  Error, ok, Op, Env, Io, Run, ◌>>=◌, query, attempt, check, Result, err, error_of, message,
  ignore_madmin_error_code,
}
use minio_operator_ext.Lifecycle.{View, view}
use minio_operator_ext.Reconciler.{Reconciler, ReconcileResult}
use minio_operator_ext.Resource.Creation.{
  Creates, >>=-Creates, make_and_set, make_and_set-Creates, dispatch-Creates, Makes,
  with_resource-Makes,
}
use minio_operator_ext.Base.{Bool, not, ◌&&◌, ◌++◌, if◌then◌else◌}
use minio_operator_ext.Tenant.{admin_client_of}
use minio_operator_ext.Group.{
  kind, set_current_spec, clear_migrate, create_group, reconcile_found, reconcile,
}
use minio_operator_ext.Group.Trail.{kind-IsKind}

-- Every error of the call ends the creation.
abbrev pub strict : Option Error → Option Error
strict e = e

module _ {W : Type 0} (env : Env W) (r : Reconciler) where
  abbrev made_view : MinioGroup → View
  made_view g = record (view env g.meta g.status.current_spec) { managed = true }

  abbrev make : MinioGroup → Connection → Io W ReconcileResult
  make g mtac =
      make_and_set env strict (kind env) r
        (Op.update_group_members mtac
          (record { group = g.spec.name; members = []; is_remove = false }))
        (set_current_spec env (clear_migrate env g) (some (clear_migrate env g).spec))

  abbrev judge : MinioGroup → Result GroupDesc → Option Error
  judge g described =
      let exists : Bool = elim described [ ok _ ↦ true | err _ ↦ false ] in
      let e =
        if exists && not g.spec.migrate
        then some (message ("group " ++ g.spec.name ++ " already exists"))
        else error_of described in
      ignore_madmin_error_code e "XMinioAdminNoSuchGroup"

  create_group-Creates :
      (g : MinioGroup) (s : Run W) → Creates env strict (made_view g) (create_group env r g) s
  unfolding create_group
  create_group-Creates g s =
      >>=-Creates env strict (made_view g)
        (admin_client_of env g.spec.tenant_ref g.meta.namespace r.minio_operator_namespace) _ s
        (λ mtac s1.
          >>=-Creates env strict (made_view g)
            (attempt (query (env.get_group_description mtac g.spec.name)))
            (λ described. check (judge g described) >>= λ _. make g mtac) s1
            (λ described s2.
              >>=-Creates env strict (made_view g) (check (judge g described)) (λ _. make g mtac) s2
                (λ _ s3.
                  make_and_set-Creates env strict (kind env) (kind-IsKind env) r _ _ s3 refl refl)))

  pub reconcile_group-Makes :
      (req : NamespacedName) (w : W) (g : MinioGroup)
      → (env.get_group req w).0 ≡ ok g
      → Makes env strict (view env g.meta g.status.current_spec) (reconcile env r req) w
  unfolding reconcile reconcile_found
  reconcile_group-Makes req =
      with_resource-Makes env strict (kind env) (env.get_group req) (reconcile_found env r) (λ g s.
        dispatch-Creates env strict (kind env) g (made_view g) s _ _ _ _ (create_group env r g)
          (create_group-Creates g s))
