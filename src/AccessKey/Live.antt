-- ===== src/AccessKey/Live.antt =====
-- The calls of the access key reconciler, made for a resource that has the finalizer and is not
-- being deleted, write the resource as the machine of Lifecycle allows.
use minio_operator_ext.Base.{
  ◌≡◌, ◌≢◌, ◌∙◌, refl, sym, arith, String, some, none, Option, ◌==◌, not, string_eq, if◌then◌else◌,
}
use minio_operator_ext.Api.{
  MinioAccessKey, MinioAccessKeySpec, Secret, Connection, InfoServiceAccountResp,
}
use minio_operator_ext.Client.{
  Result, error_of, Env, Run, ◌>>=◌, ◌>>◌, pure, lift, deref, attempt, query, check,
  is_madmin_error_code, ignore_madmin_error_code,
}
use minio_operator_ext.Lifecycle.{View, Move, After, >>=-After, deref-After, if-After, pure-After}
use minio_operator_ext.Reconciler.{Reconciler}
use minio_operator_ext.Resource.{update}
use minio_operator_ext.Resource.Laws.{Echoes}
use minio_operator_ext.Resource.Live.{IsLive, quiet-After, write-After}
use minio_operator_ext.Tenant.{admin_client_of}
use minio_operator_ext.Tenant.ReadOnly.{admin_client_of-log}
use minio_operator_ext.AccessKey.Credentials.{get_credentials_from_secret}
use minio_operator_ext.AccessKey.Actions.{
  set_current_spec, clear_migrate, drop_migrate, find_secret, create_credentials_secret,
  rename_secret, keep_secret, replace_secret, delete_old_secret, delete_current_secret,
  refresh_secret, update_credentials_secret, forget_access_key, restore_access_key, apply_spec,
  sync_access_key, look_up_access_key, update_access_key, kind,
}
use minio_operator_ext.AccessKey.Quiet.{
  kind-IsKind, check-log, find_secret-log, create_credentials_secret-IsLive, refresh_secret-IsLive,
  delete_old_secret-IsLive, delete_current_secret-IsLive, restore_access_key-IsLive,
  apply_spec-IsLive,
}

module _ {W : Type 0} (env : Env W) where
  -- Live, with the status set.
  abbrev pub IsManaged : View → MinioAccessKey → Run W → Type 0
  IsManaged v ak s = IsLive env (kind env) v ak s × (ak.status.current_spec ≢ none)

  module _ (echoes : Echoes env (kind env)) where
    -- The resource is written with a status.
    pub write-IsManaged-After :
        (v : View) (ak y : MinioAccessKey) (s : Run W)
        → y.meta ≡ ak.meta
        → y.status.current_spec ≢ none
        → IsLive env (kind env) v ak s
        → After env v (λ ak' s'. IsManaged v ak' s') (update env (kind env) y s)
    write-IsManaged-After v ak y s same some_spec live =
        let written =
          write-After env (kind env) (kind-IsKind env) echoes v ak y s same
            (Move.adopt (rw live.1.0) live.1.1 (grind (arith, same))) live in
        (
          written.0,
          λ ak' e. (written.1 ak' e, λ n. some_spec (sym (echoes.status y ak' s.world e) ∙ n)),
        )

    drop_migrate-After :
        (v : View) (ak : MinioAccessKey) (s : Run W)
        → IsManaged v ak s
        → After env v (λ ak' s'. IsManaged v ak' s') (drop_migrate env ak s)
    unfolding drop_migrate
    drop_migrate-After v ak s (live, managed) =
        if-After env v (λ ak' s'. IsManaged v ak' s') ak.spec.migrate
          (update env (kind env) (clear_migrate env ak)) (pure ak) s
          (λ _. write-IsManaged-After v ak (clear_migrate env ak) s refl managed live)
          (λ _. pure-After env v (λ ak' s'. IsManaged v ak' s') ak s live.0.0 (live, managed))

    rename_secret-After :
        (v : View) (ak : MinioAccessKey) (c : MinioAccessKeySpec) (found : Option Secret)
        (s : Run W)
        → IsLive env (kind env) v ak s
        → After env v (λ ak' s'. IsManaged v ak' s') (rename_secret env ak c found s)
    unfolding rename_secret
    rename_secret-After v ak c found s live =
        let ak' = set_current_spec ak (some (record c { secret_name = ak.spec.secret_name })) in
        let deleted = delete_old_secret-IsLive env v ak s live found in
        >>=-After env v (λ _ s'. IsLive env (kind env) v ak s') (λ ak' s'. IsManaged v ak' s')
          (delete_old_secret env found) (λ _. update env (kind env) ak') s
          (deleted.0.0, λ _ _. deleted)
          (λ _ s' live'. write-IsManaged-After v ak ak' s' refl (λ e. cc) live')

    forget_access_key-After :
        (r : Reconciler) (v : View) (ak : MinioAccessKey) (c : MinioAccessKeySpec) (s : Run W)
        → IsLive env (kind env) v ak s
        → After env v (λ ak' s'. IsLive env (kind env) v ak' s') (forget_access_key env r ak c s)
    unfolding forget_access_key
    forget_access_key-After r v ak c s live =
        let deleted = delete_current_secret-IsLive env v ak s live r c in
        >>=-After env v (λ _ s'. IsLive env (kind env) v ak s')
          (λ ak' s'. IsLive env (kind env) v ak' s') (delete_current_secret env r ak c)
          (λ _. update env (kind env) (set_current_spec ak none)) s (deleted.0.0, λ _ _. deleted)
          (λ _ s' live'.
            write-After env (kind env) (kind-IsKind env) echoes v ak (set_current_spec ak none) s'
              refl (Move.forget (rw live'.1.0) live'.1.1 refl) live')

    -- The secret as it was found, refreshed or made.
    keep_secret-After :
        (v : View) (ak : MinioAccessKey) (found : Option Secret) (s : Run W)
        → IsManaged v ak s
        → After env v
            (λ (x : Secret × MinioAccessKey) s'. IsManaged v x.1 s')
            (keep_secret env ak found s)
    unfolding keep_secret
    keep_secret-After v ak none s (live, managed) =
        let made = create_credentials_secret-IsLive env v ak s live ak in
        >>=-After env v (λ _ s'. IsLive env (kind env) v ak s') (λ x s'. IsManaged v x.1 s')
          (create_credentials_secret env ak) (λ secret. pure (secret, ak)) s (made.0.0, λ _ _. made)
          (λ secret s' live'.
            pure-After env v (λ x s'. IsManaged v x.1 s') (secret, ak) s' live'.0.0
              (live', managed))
    keep_secret-After v ak (some old) s (live, managed) =
        let made = refresh_secret-IsLive env v ak s live old in
        >>=-After env v (λ _ s'. IsLive env (kind env) v ak s') (λ x s'. IsManaged v x.1 s')
          (refresh_secret env ak old) (λ secret. pure (secret, ak)) s (made.0.0, λ _ _. made)
          (λ secret s' live'.
            pure-After env v (λ x s'. IsManaged v x.1 s') (secret, ak) s' live'.0.0
              (live', managed))

    replace_secret-After :
        (v : View) (ak : MinioAccessKey) (c : MinioAccessKeySpec) (found : Option Secret)
        (s : Run W)
        → IsManaged v ak s
        → After env v
            (λ (x : Secret × MinioAccessKey) s'. IsManaged v x.1 s')
            (replace_secret env ak c found s)
    unfolding replace_secret
    replace_secret-After v ak c found s (live, managed) =
        >>=-After env v (λ ak' s'. IsManaged v ak' s') (λ x s'. IsManaged v x.1 s')
          (rename_secret env ak c found)
          (λ ak'. create_credentials_secret env ak' >>= λ secret. pure (secret, ak')) s
          (rename_secret-After v ak c found s live)
          (λ ak' s1 (live1, managed1).
            let made = create_credentials_secret-IsLive env v ak' s1 live1 ak' in
            >>=-After env v (λ _ s'. IsLive env (kind env) v ak' s') (λ x s'. IsManaged v x.1 s')
              (create_credentials_secret env ak') (λ secret. pure (secret, ak')) s1
              (made.0.0, λ _ _. made)
              (λ secret s' live'.
                pure-After env v (λ x s'. IsManaged v x.1 s') (secret, ak') s' live'.0.0
                  (live', managed1)))

    pub update_credentials_secret-After :
        (v : View) (ak : MinioAccessKey) (s : Run W)
        → IsManaged v ak s
        → After env v
            (λ (x : Secret × MinioAccessKey) s'. IsManaged v x.1 s')
            (update_credentials_secret env ak s)
    unfolding update_credentials_secret
    update_credentials_secret-After v ak s (live, managed) =
        let rest = λ (c : MinioAccessKeySpec) (found : Option Secret).
          if not (ak.spec.secret_name == c.secret_name)
          then replace_secret env ak c found
          else keep_secret env ak found in
        deref-After env v (λ x s'. IsManaged v x.1 s') ak.status.current_spec
          (λ c. find_secret env ak.meta c.secret_name >>= rest c) s live.0.0
          (λ c _.
            >>=-After env v (λ _ s'. IsLive env (kind env) v ak s') (λ x s'. IsManaged v x.1 s')
              (find_secret env ak.meta c.secret_name) (rest c) s
              (quiet-After env (kind env) v ak s (find_secret env ak.meta c.secret_name)
                (find_secret-log env ak.meta c.secret_name s) live)
              (λ found s' live'.
                if-After env v (λ x s'. IsManaged v x.1 s')
                  (not (ak.spec.secret_name == c.secret_name)) (replace_secret env ak c found)
                  (keep_secret env ak found) s'
                  (λ _. replace_secret-After v ak c found s' (live', managed))
                  (λ _. keep_secret-After v ak found s' (live', managed))))

    module _ (r : Reconciler) where
      sync_access_key-After :
          (mtac : Connection) (secret : Secret) (v : View) (ak : MinioAccessKey)
          (c : MinioAccessKeySpec) (msa : InfoServiceAccountResp) (s : Run W)
          → IsLive env (kind env) v ak s
          → After env v
              (λ ak' s'. IsLive env (kind env) v ak' s')
              (sync_access_key env r mtac secret ak c msa s)
      unfolding sync_access_key
      sync_access_key-After mtac secret v ak c msa s live =
          let P = λ (x : MinioAccessKey) (s' : Run W). IsLive env (kind env) v x s' in
          let creds = get_credentials_from_secret secret in
          let restored = restore_access_key-IsLive env v ak s live r mtac creds msa c in
          >>=-After env v (λ _ s'. P ak s') P (restore_access_key env r mtac creds msa c)
            (λ _. apply_spec env r mtac creds secret ak c >> pure ak) s
            (restored.0.0, λ _ _. restored)
            (λ _ s1 live1.
              let applied = apply_spec-IsLive env v ak s1 live1 r mtac creds secret c in
              >>=-After env v (λ _ s'. P ak s') P (apply_spec env r mtac creds secret ak c)
                (λ _. pure ak) s1 (applied.0.0, λ _ _. applied)
                (λ _ s2 live2. pure-After env v P ak s2 live2.0.0 live2))

      look_up_access_key-After :
          (mtac : Connection) (secret : Secret) (v : View) (ak : MinioAccessKey)
          (c : MinioAccessKeySpec) (s : Run W)
          → IsLive env (kind env) v ak s
          → After env v
              (λ ak' s'. IsLive env (kind env) v ak' s')
              (look_up_access_key env r mtac secret ak c s)
      unfolding look_up_access_key
      look_up_access_key-After mtac secret v ak c s live =
          let P = λ (x : MinioAccessKey) (s' : Run W). IsLive env (kind env) v x s' in
          let code : String = "XMinioInvalidIAMCredentials" in
          let asked = attempt (
            query
              (env.info_service_account mtac (get_credentials_from_secret secret).access_key)) in
          let found = λ (info : Result InfoServiceAccountResp).
            if is_madmin_error_code (error_of info) code
            then forget_access_key env r ak c
            else (lift info >>= sync_access_key env r mtac secret ak c) in
          let checked = λ (info : Result InfoServiceAccountResp).
            check (ignore_madmin_error_code (error_of info) code) in
          >>=-After env v (λ _ s'. P ak s') P asked (λ info. checked info >>= λ _. found info) s
            (quiet-After env (kind env) v ak s asked refl live)
            (λ info s1 live1.
              >>=-After env v (λ _ s'. P ak s') P (checked info) (λ _. found info) s1
                (quiet-After env (kind env) v ak s1 (checked info)
                  (check-log env (ignore_madmin_error_code (error_of info) code) s1) live1)
                (λ _ s2 live2.
                  if-After env v P (is_madmin_error_code (error_of info) code)
                    (forget_access_key env r ak c)
                    (lift info >>= sync_access_key env r mtac secret ak c) s2
                    (λ _. forget_access_key-After r v ak c s2 live2)
                    (λ _.
                      >>=-After env v (λ _ s'. P ak s') P (lift info)
                        (sync_access_key env r mtac secret ak c) s2
                        (quiet-After env (kind env) v ak s2 (lift info) refl live2)
                        (λ msa s3 live3. sync_access_key-After mtac secret v ak c msa s3 live3))))

      pub update_access_key-After :
          (v : View) (ak : MinioAccessKey) (secret : Secret) (s : Run W)
          → IsManaged v ak s
          → After env v
              (λ ak' s'. IsLive env (kind env) v ak' s')
              (update_access_key env r ak secret s)
      unfolding update_access_key
      update_access_key-After v ak secret s managed =
          let P = λ (x : MinioAccessKey) (s' : Run W). IsLive env (kind env) v x s' in
          let client = λ (x : MinioAccessKey) (c : MinioAccessKeySpec).
            admin_client_of env c.tenant_ref x.meta.namespace r.minio_operator_namespace in
          let rest = λ (x : MinioAccessKey) (c : MinioAccessKeySpec).
            client x c >>= λ mtac. look_up_access_key env r mtac secret x c in
          >>=-After env v (λ ak' s'. IsManaged v ak' s') P (drop_migrate env ak)
            (λ ak'. deref ak'.status.current_spec >>= rest ak') s
            (drop_migrate-After v ak s managed)
            (λ ak' s1 (live1, _).
              deref-After env v P ak'.status.current_spec (rest ak') s1 live1.0.0 (λ c _.
                >>=-After env v (λ _ s'. P ak' s') P (client ak' c)
                  (λ mtac. look_up_access_key env r mtac secret ak' c) s1
                  (quiet-After env (kind env) v ak' s1 (client ak' c)
                    (admin_client_of-log env c.tenant_ref ak'.meta.namespace
                      r.minio_operator_namespace s1)
                    live1)
                  (λ mtac s2 live2. look_up_access_key-After mtac secret v ak' c s2 live2)))
