-- ===== src/GroupBinding/Creation.antt =====
-- A creation of a group binding that succeeds made it in MinIO before it set the status.
use minio_operator_ext.Base.{◌≡◌, refl, true, false, some, [], ◌∷◌, Option}
use minio_operator_ext.Api.{NamespacedName, MinioGroupBinding, Connection}
use minio_operator_ext.Client.{Error, ok, Op, Env, Io, Run, query, message, throw}
use minio_operator_ext.Lifecycle.{View, view}
use minio_operator_ext.Reconciler.{Reconciler, ReconcileResult}
use minio_operator_ext.Resource.Creation.{
  Creates, >>=-Creates, make_and_set, make_and_set-Creates, dispatch-Creates, Makes,
  with_resource-Makes,
}
use minio_operator_ext.Base.{Bool, not, ◌&&◌, ◌++◌, if◌then◌else◌}
use minio_operator_ext.Base.{contains, string_eq}
use minio_operator_ext.Tenant.{admin_client_of}
use minio_operator_ext.GroupBinding.{
  kind, set_current_spec, clear_migrate, add_group_member, reconcile_found, reconcile,
}
use minio_operator_ext.GroupBinding.Trail.{kind-IsKind}

-- Every error of the call ends the creation.
abbrev pub strict : Option Error → Option Error
strict e = e

module _ {W : Type 0} (env : Env W) (r : Reconciler) where
  abbrev made_view : MinioGroupBinding → View
  made_view gb = record (view env gb.meta gb.status.current_spec) { managed = true }

  abbrev make : MinioGroupBinding → Connection → Io W ReconcileResult
  make gb mtac =
      make_and_set env strict (kind env) r
        (Op.update_group_members mtac
          (record { group = gb.spec.group; members = gb.spec.user ∷ []; is_remove = false }))
        (set_current_spec env (clear_migrate env gb) (some (clear_migrate env gb).spec))

  unless-Creates :
      (t : Bool) (e : Error) (gb : MinioGroupBinding) (mtac : Connection) (s : Run W)
      → Creates env strict (made_view gb) (if t then throw e else make gb mtac) s
  unless-Creates true e gb mtac s = λ res h. absurd (cc)
  unless-Creates false e gb mtac s =
      make_and_set-Creates env strict (kind env) (kind-IsKind env) r _ _ s refl refl

  abbrev taken : MinioGroupBinding → Error
  taken gb = message ("user " ++ gb.spec.user ++ " already member of group " ++ gb.spec.group)

  add_group_member-Creates :
      (gb : MinioGroupBinding) (s : Run W)
      → Creates env strict (made_view gb) (add_group_member env r gb) s
  unfolding add_group_member
  add_group_member-Creates gb s =
      >>=-Creates env strict (made_view gb)
        (admin_client_of env gb.spec.tenant_ref gb.meta.namespace r.minio_operator_namespace) _ s
        (λ mtac s1.
          >>=-Creates env strict (made_view gb)
            (query (env.get_group_description mtac gb.spec.group))
            (λ gd.
              if contains gd.members gb.spec.user && not gb.spec.migrate
              then throw (taken gb)
              else make gb mtac)
            s1
            (λ gd s2.
              unless-Creates (contains gd.members gb.spec.user && not gb.spec.migrate) (taken gb) gb
                mtac s2))

  pub reconcile_group_binding-Makes :
      (req : NamespacedName) (w : W) (gb : MinioGroupBinding)
      → (env.get_group_binding req w).0 ≡ ok gb
      → Makes env strict (view env gb.meta gb.status.current_spec) (reconcile env r req) w
  unfolding reconcile reconcile_found
  reconcile_group_binding-Makes req =
      with_resource-Makes env strict (kind env) (env.get_group_binding req) (reconcile_found env r)
        (λ gb s.
          dispatch-Creates env strict (kind env) gb (made_view gb) s _ _ _ _
            (add_group_member env r gb) (add_group_member-Creates gb s))
