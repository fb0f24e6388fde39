-- ===== src/Resource/Progress.antt =====
-- How near a resource is to what its user asked for, and that the shared operations bring it nearer.
use minio_operator_ext.Base.{
  ◌≡◌, sym, subst, ◌∙◌, ℕ, ◌<◌, true, false, not, none, some, [], if◌then◌else◌, arith,
}
use minio_operator_ext.Client.{ok, Env, Io, Run, ◌>>=◌, Call, Ensures, >>=-Ensures}
use minio_operator_ext.Reconciler.{
  finalizer, Reconciler, ReconcileResult, succeed, dispatch, dispatch_elim, zero_time, guarded,
  with_resource,
}
use minio_operator_ext.Lifecycle.{View, view, latest}
use minio_operator_ext.Resource.{Kind, update, add_finalizer, clear_finalizer, clear_status}
use minio_operator_ext.Resource.Laws.{Finalizers, IsKind}

-- The successful reconciliations that a resource needs at most: on deletion, to remove the MinIO
-- object and then the finalizer; before, to add the finalizer and then make the MinIO object.
abbrev pub rank : View → ℕ
rank v =
    if v.deleting
    then (if v.managed then 2 else if v.guarded then 1 else 0)
    else if not v.guarded
    then 2
    else if v.managed
    then 0
    else 1

-- Nearer, with the deletion mark as it was.
abbrev pub IsCloser : View → View → Type 0
IsCloser v w = (w.deleting ≡ v.deleting) × (rank w < rank v)

module _ {W : Type 0} (env : Env W) where
  -- An answer leaves the resource in the view `w`.
  abbrev pub Leaves : {A : Type 0} → View → View → Io W A → Run W → Type 0
  Leaves v w m s = Ensures (λ _ s'. latest env v s'.log ≡ w) m s

  module _ {R S : Type 0} (k : Kind W R S) (laws : IsKind env k) (r : Reconciler) (v : View) where
    update-latest :
        (y : R) (s : Run W)
        → latest env v (update env k y s).1.log ≡ view env (k.meta y) (k.current_spec y)
    update-latest y s = ground (arith, laws.writes y)

    pub last_update-Leaves :
        (y : R) (s : Run W)
        → Leaves v (view env (k.meta y) (k.current_spec y)) (update env k y >>= λ _. succeed r) s
    last_update-Leaves y s =
        >>=-Ensures (λ _ s'. latest env v s'.log ≡ view env (k.meta y) (k.current_spec y))
          (λ _ s'. latest env v s'.log ≡ view env (k.meta y) (k.current_spec y)) (update env k y)
          (λ _. succeed r) s (λ _ _. update-latest y s) (λ _ s' at _ _. at)

    pub clear_status-Leaves :
        (x : R) (s : Run W)
        → Leaves v
            (record (view env (k.meta x) (k.current_spec x)) { managed = false })
            (clear_status env k r x)
            s
    unfolding clear_status
    clear_status-Leaves x s res e =
        last_update-Leaves (k.set_current_spec x none) s res e
        ∙ ground (arith, laws.meta_of_status x none, laws.current_of_status x none)

    add_finalizer-Leaves :
        Finalizers env
        → (x : R) (s : Run W)
        → Leaves v
            (record (view env (k.meta x) (k.current_spec x)) { guarded = true })
            (add_finalizer env k r x)
            s
    unfolding add_finalizer
    add_finalizer-Leaves fin x s res e =
        let fs = env.add_finalizer (k.meta x).finalizers finalizer in
        last_update-Leaves (k.set_finalizers x fs) s res e
        ∙ ground (
          arith,
          laws.meta_of_finalizers x fs,
          laws.current_of_finalizers x fs,
          fin.added (k.meta x).finalizers,
        )

    pub clear_finalizer-Leaves :
        Finalizers env
        → (x : R) (s : Run W)
        → Leaves v
            (record (view env (k.meta x) (k.current_spec x)) { guarded = false })
            (clear_finalizer env k r x)
            s
    unfolding clear_finalizer
    clear_finalizer-Leaves fin x s res e =
        let fs = env.remove_finalizer (k.meta x).finalizers finalizer in
        last_update-Leaves (k.set_finalizers x fs) s res e
        ∙ ground (
          arith,
          laws.meta_of_finalizers x fs,
          laws.current_of_finalizers x fs,
          fin.removed (k.meta x).finalizers,
        )

  -- An answer leaves the resource nearer.
  abbrev pub Nears : {A : Type 0} → View → Io W A → Run W → Type 0
  Nears v m s = Ensures (λ _ s'. IsCloser v (latest env v s'.log)) m s

  pub Leaves-Nears :
      {A : Type 0} (v w : View) (m : Io W A) (s : Run W)
      → IsCloser v w
      → Leaves v w m s
      → Nears v m s
  Leaves-Nears v w m s closer leaves a e = subst (IsCloser v) (sym (leaves a e)) closer

  module _ {R S : Type 0} (k : Kind W R S) (laws : IsKind env k) (fin : Finalizers env)
      (r : Reconciler) (x : R) where
    abbrev here : View
    here = view env (k.meta x) (k.current_spec x)

    -- A reconciliation whose own branches make progress does.
    pub dispatch-Nears :
        (s : Run W) (on_delete : S → Io W ReconcileResult) (on_released : Io W ReconcileResult)
        (on_managed : S → Io W ReconcileResult) (on_new : Io W ReconcileResult)
        → ((c : S)
            → zero_time env (k.meta x) ≡ false
            → k.current_spec x ≡ some c
            → Nears here (on_delete c) s)
        → (zero_time env (k.meta x) ≡ false
            → guarded env (k.meta x) ≡ true
            → k.current_spec x ≡ none
            → Nears here on_released s)
        → (zero_time env (k.meta x) ≡ true
            → guarded env (k.meta x) ≡ true
            → k.current_spec x ≡ none
            → Nears here on_new s)
        → 0 < rank here
        → Nears here
            (dispatch env
              (k.meta x)
              (k.current_spec x)
              on_delete
              on_released
              (add_finalizer env k r x)
              on_managed
              on_new)
            s
    dispatch-Nears s on_delete on_released on_managed on_new delete release new unsettled =
        dispatch_elim env {R = Io W ReconcileResult} (λ m. Nears here m s) (k.meta x)
          (k.current_spec x) delete (λ z n. release z (ground (arith, z, n, unsettled)) n)
          (λ z g.
            Leaves-Nears here (record here { guarded = true }) (add_finalizer env k r x) s
              (ground (arith, z, g)) (add_finalizer-Leaves k laws r here fin x s))
          (λ c z g n. absurd (ground (arith, z, g, n, unsettled))) new

    -- The same where deletion and creation end with one write of the status.
    pub dispatch-Nears_by_status :
        (s : Run W) (on_delete : S → Io W ReconcileResult) (on_managed : S → Io W ReconcileResult)
        (on_new : Io W ReconcileResult)
        → ((c : S) → Leaves here (record here { managed = false }) (on_delete c) s)
        → Leaves here (record here { managed = true }) on_new s
        → 0 < rank here
        → Nears here
            (dispatch env
              (k.meta x)
              (k.current_spec x)
              on_delete
              (clear_finalizer env k r x)
              (add_finalizer env k r x)
              on_managed
              on_new)
            s
    dispatch-Nears_by_status s on_delete on_managed on_new delete new =
        dispatch-Nears s on_delete (clear_finalizer env k r x) on_managed on_new
          (λ c z n.
            Leaves-Nears here (record here { managed = false }) (on_delete c) s
              (ground (arith, z, n)) (delete c))
          (λ z g n.
            Leaves-Nears here (record here { guarded = false }) (clear_finalizer env k r x) s
              (ground (arith, z, g, n)) (clear_finalizer-Leaves k laws r here fin x s))
          (λ z g n.
            Leaves-Nears here (record here { managed = true }) on_new s (ground (arith, z, g, n))
              new)

-- From the object that `r.Get` found, with an empty log.
pub with_resource-Nears :
    {W R S : Type 0} (env : Env W) (k : Kind W R S) (get : Call W R)
    (found : R → Io W ReconcileResult)
    → ((x : R) (s : Run W)
        → 0 < rank (view env (k.meta x) (k.current_spec x))
        → Nears env (view env (k.meta x) (k.current_spec x)) (found x) s)
    → (w : W) (x : R) → (get w).0 ≡ ok x
    → 0 < rank (view env (k.meta x) (k.current_spec x))
    → Nears env
        (view env (k.meta x) (k.current_spec x))
        (with_resource env get found)
        (record { world = w; log = [] })
with_resource-Nears env k get found h w x e unsettled =
    rw e (h x (record { world = (get w).1; log = [] }) unsettled)
