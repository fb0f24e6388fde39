-- ===== src/Policy/Sync.antt =====
-- How a policy whose status is set is brought up to date.
use minio_operator_ext.Base.{
  String, ◌≡◌, ◌≢◌, refl, sym, subst, Bool, true, false, not, ◌||◌, none, some, List, ◌∷◌,
  if◌then◌else◌, ◌==◌, string_eq, path_of_same, list_eq, arith, Bool-cases, inl, inr,
}
use minio_operator_ext.Api.{MinioPolicy, MinioPolicySpec, Connection, statement_eq}
use minio_operator_ext.Client.{
  Op, Event, Result, ok, err, error_of, is_madmin_error_code, ignore_madmin_error_code, Env, Io,
  Run, ◌>>=◌, ◌>>◌, lift, check, Ensures, >>=-Ensures, pure-Ensures,
}
use minio_operator_ext.Reconciler.{Reconciler, ReconcileResult}
use minio_operator_ext.Resource.{clear_status}
use minio_operator_ext.Tenant.{admin_client_of}
use minio_operator_ext.Tenant.ReadOnly.{admin_client_of-log}
use minio_operator_ext.Policy.{kind, set_current_spec, update_policy, restore_policy, check_policy}
use minio_operator_ext.Policy.Hash.{policy_spec_hash}

-- The statement or the version of the spec is not the one of the status.
abbrev pub is_outdated : MinioPolicySpec → MinioPolicySpec → Bool
is_outdated current spec =
    not (current.version == spec.version) || not (current.statement == spec.statement)

-- A call that was accepted.
abbrev pub accepted : Op → Event
accepted op = record { op = op; failure = none }

module _ {W : Type 0} (env : Env W) where
  -- The statement and the version of a policy as MinIO takes them.
  abbrev pub IsText : MinioPolicySpec → String → Type 0
  IsText spec text = env.marshal_policy spec.statement spec.version ≡ ok text

  -- The policy with the statement and the version of the spec in its status.
  abbrev pub followed : MinioPolicy → MinioPolicySpec → MinioPolicy
  followed p current =
      set_current_spec env p
        (some (record current { statement = p.spec.statement; version = p.spec.version }))

  -- What a check did behind the answer `info` of MinIO, between the logs `before` and `after`.
  pub data Checked (mtac : Connection) (current : MinioPolicySpec) (p : MinioPolicy)
      (info : Result String) (before after : List Event) : Type 0 where
    -- MinIO does not have the policy: the status is cleared
    gone :
        is_madmin_error_code (error_of info) "XMinioAdminNoSuchPolicy" ≡ true
        → after ≡ accepted (Op.update_policy (set_current_spec env p none)) ∷ before
        → Checked mtac current p info before after
    -- the spec was changed: it is sent, and then noted in the status
    changed :
        is_outdated current p.spec ≡ true
        → (text : String) → IsText p.spec text
        → after
          ≡ accepted (Op.update_policy (followed p current))
            ∷ accepted (Op.add_canned_policy mtac current.name text)
            ∷ before
        → Checked mtac current p info before after
    -- MinIO has another policy: that of the status is sent
    restored :
        is_outdated current p.spec ≡ false
        → (mp : String) → info ≡ ok mp
        → (remote : MinioPolicySpec) → env.unmarshal_policy_spec mp ≡ ok remote
        → policy_spec_hash env remote ≢ policy_spec_hash env current
        → (text : String) → IsText current text
        → after ≡ accepted (Op.add_canned_policy mtac current.name text) ∷ before
        → Checked mtac current p info before after
    -- MinIO has the policy of the status, and that is the spec's
    kept :
        is_outdated current p.spec ≡ false
        → (mp : String) → info ≡ ok mp
        → (remote : MinioPolicySpec) → env.unmarshal_policy_spec mp ≡ ok remote
        → policy_spec_hash env remote ≡ policy_spec_hash env current
        → after ≡ before
        → Checked mtac current p info before after

  module _ (r : Reconciler) (mtac : Connection) (current : MinioPolicySpec) (p : MinioPolicy)
      (info : Result String) where
    abbrev Checks : Io W ReconcileResult → Run W → Type 0
    Checks m s = Ensures (λ _ s'. Checked mtac current p info s.log s'.log) m s

    clear_status-Checks :
        (s : Run W)
        → is_madmin_error_code (error_of info) "XMinioAdminNoSuchPolicy" ≡ true
        → Checks (clear_status env (kind env) r p) s
    unfolding clear_status
    clear_status-Checks s lost = λ res e. Checked.gone lost (grind arith)

    update_policy-Checks :
        (s : Run W)
        → is_outdated current p.spec ≡ true
        → Checks (update_policy env r mtac current p) s
    unfolding update_policy
    update_policy-Checks s outdated =
        let P = λ (_ : ReconcileResult) (s' : Run W). Checked mtac current p info s.log s'.log in
        >>=-Ensures (λ text s'. (IsText p.spec text) × (s'.log ≡ s.log)) P
          (lift (env.marshal_policy p.spec.statement p.spec.version)) _ s (λ text e. (e, refl))
          (λ text s1 (is_text, quiet) res e. Checked.changed outdated text is_text (grind (arith)))

    restore_policy-Checks :
        (mp : String) (s : Run W)
        → is_outdated current p.spec ≡ false
        → info ≡ ok mp
        → Checks (restore_policy env r mtac current mp) s
    unfolding restore_policy
    restore_policy-Checks mp s same got =
        let P = λ (_ : ReconcileResult) (s' : Run W). Checked mtac current p info s.log s'.log in
        let marshal : Io W String = lift (env.marshal_policy current.statement current.version) in
        >>=-Ensures (λ remote s'. (env.unmarshal_policy_spec mp ≡ ok remote) × (s'.log ≡ s.log)) P
          (lift (env.unmarshal_policy_spec mp)) _ s (λ remote e. (e, refl))
          (λ remote s1 (read, quiet).
            elim (Bool-cases (policy_spec_hash env remote == policy_spec_hash env current)) [
              | inl t ↦ rw t (
                  pure-Ensures P _ s1
                    (Checked.kept same mp got remote read (path_of_same _ _ t) quiet))
              | inr t ↦ rw t (
                  >>=-Ensures (λ text s'. (IsText current text) × (s'.log ≡ s.log)) P marshal _ s1
                    (λ text e. (e, quiet))
                    (λ text s2 (is_text, quiet2) res e.
                      Checked.restored same mp got remote read
                        (λ eq. absurd (
                          ground (
                            arith,
                            t,
                            eq,
                            string_eq.same_iff (policy_spec_hash env remote)
                                (policy_spec_hash env current),
                          )))
                        text is_text (grind (arith))))
            ])

    -- What MinIO answers decides what is done.
    abbrev answered : Io W ReconcileResult
    answered =
        check (ignore_madmin_error_code (error_of info) "XMinioAdminNoSuchPolicy")
        >> (if not (not (is_madmin_error_code (error_of info) "XMinioAdminNoSuchPolicy"))
            then clear_status env (kind env) r p
            else if is_outdated current p.spec
            then update_policy env r mtac current p
            else (lift info >>= λ mp. restore_policy env r mtac current mp))

    answered_there :
        (x : Result String)
        → info ≡ x
        → (s : Run W)
        → Checks
            (check (error_of x)
              >> (if is_outdated current p.spec
                  then update_policy env r mtac current p
                  else (lift x >>= λ mp. restore_policy env r mtac current mp)))
            s
    answered_there (ok mp) got s = elim (Bool-cases (is_outdated current p.spec)) [
      | inl o ↦ rw o (update_policy-Checks s o)
      | inr o ↦ rw o (restore_policy-Checks mp s o got)
    ]
    answered_there (err e) got s = λ res h. absurd (cc)

    answered-Checks : (s : Run W) → Checks answered s
    answered-Checks s =
        elim (Bool-cases (is_madmin_error_code (error_of info) "XMinioAdminNoSuchPolicy")) [
          | inl t ↦ rw t (clear_status-Checks s t)
          | inr t ↦ rw t (answered_there info refl s)
        ]

  pub check_policy-Checked :
      (r : Reconciler) (p : MinioPolicy) (current : MinioPolicySpec) (mtac : Connection)
      (res : ReconcileResult) (s : Run W)
      → p.status.current_spec ≡ some current
      → (admin_client_of env current.tenant_ref p.meta.namespace r.minio_operator_namespace s).0
        ≡ ok mtac
      → (check_policy env r p s).0 ≡ ok res
      → Checked mtac current p
          (env.info_canned_policy mtac current.name
            (admin_client_of env current.tenant_ref p.meta.namespace r.minio_operator_namespace
              s).1.world).0
          s.log
          (check_policy env r p s).1.log
  unfolding check_policy
  check_policy-Checked r p current mtac res s at connected =
      let run =
        admin_client_of env current.tenant_ref p.meta.namespace r.minio_operator_namespace s in
      let got = env.info_canned_policy mtac current.name run.1.world in
      let quiet =
        admin_client_of-log env current.tenant_ref p.meta.namespace r.minio_operator_namespace s in
      let s2 : Run W = record { world = got.1; log = run.1.log } in
      let ran : check_policy env r p s ≡ answered r mtac current p got.0 s2 =
        simp (at, connected) in
      subst (λ x. x.0 ≡ ok res → Checked mtac current p got.0 s.log x.1.log) (sym ran)
        (subst
          (λ l.
            (answered r mtac current p got.0 s2).0 ≡ ok res
            → Checked mtac current p got.0 l (answered r mtac current p got.0 s2).1.log)
          quiet (answered-Checks r mtac current p got.0 s2 res))
