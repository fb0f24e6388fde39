-- ===== src/Resource/Trail.antt =====
-- The shared operations write the resource as the machine of Lifecycle allows, and so does a
-- reconciliation whose own branches do.
use minio_operator_ext.Base.{
  some, ◌≡◌, ◌≢◌, ◌⊎◌, refl, inl, inr, Bool-cases, true, false, none, [], arith,
}
use minio_operator_ext.Client.{ok, Env, Io, Run, ◌>>=◌, Call}
use minio_operator_ext.Reconciler.{
  finalizer, Reconciler, ReconcileResult, succeed, dispatch, dispatch_elim, zero_time, guarded,
  with_resource,
}
use minio_operator_ext.Lifecycle.{View, Move, Move-IsAllowed, view, latest, IsTrail, >>=-IsTrail}
use minio_operator_ext.Resource.{
  Kind, update, drop_migrate, add_finalizer, clear_finalizer, clear_status,
}
use minio_operator_ext.Resource.Laws.{Finalizers, IsKind, Echoes}

module _ {W R S : Type 0} (env : Env W) (k : Kind W R S) where
  -- Between the calls of a run: the log is a trail that ends at `x`.
  abbrev pub IsAt : View → R → Run W → Type 0
  IsAt v x s = IsTrail env v s.log × (latest env v s.log ≡ view env (k.meta x) (k.current_spec x))

  pub IsAt-log : (v : View) (x : R) (s s' : Run W) → s'.log ≡ s.log → IsAt v x s → IsAt v x s'
  IsAt-log v x s s' e at = (rw e at.0, rw e at.1)

  echo-view :
      Echoes env k
      → (x x' : R) (w : W) → (k.call x w).0 ≡ ok x'
      → view env (k.meta x') (k.current_spec x') ≡ view env (k.meta x) (k.current_spec x)
  echo-view echoes x x' w e = ground (arith, echoes.meta x x' w e, echoes.status x x' w e)

  module _ (laws : IsKind env k) where
    pub update-IsTrail :
        (v : View) (x y : R) (s : Run W)
        → IsAt v x s
        → Move (view env (k.meta x) (k.current_spec x)) (view env (k.meta y) (k.current_spec y))
        → IsTrail env v (update env k y s).1.log
    update-IsTrail v x y s (trail, now) m = (
      trail,
      Move-IsAllowed env (latest env v s.log) (view env (k.meta y) (k.current_spec y)) (k.op y)
          (laws.writes y) (rw now m),
    )

    pub update-IsAt :
        (v : View) (x y y' : R) (s : Run W)
        → Echoes env k
        → IsAt v x s
        → Move (view env (k.meta x) (k.current_spec x)) (view env (k.meta y) (k.current_spec y))
        → (update env k y s).0 ≡ ok y'
        → IsAt v y' (update env k y s).1
    update-IsAt v x y y' s echoes at m e = (
      update-IsTrail v x y s at m,
      ground (arith, laws.writes y, echo-view echoes y y' s.world e),
    )

    -- An update that is the last thing of a reconciliation.
    pub last_update-IsTrail :
        (r : Reconciler) (v : View) (x y : R) (s : Run W)
        → IsAt v x s
        → Move (view env (k.meta x) (k.current_spec x)) (view env (k.meta y) (k.current_spec y))
        → IsTrail env v ((update env k y >>= λ _. succeed r) s).1.log
    last_update-IsTrail r v x y s at m =
        let trail = update-IsTrail v x y s at m in
        >>=-IsTrail env v (update env k y) (λ _. succeed r) s trail (λ _ _. trail)

    pub add_finalizer-IsTrail :
        (r : Reconciler) (v : View) (x : R) (s : Run W)
        → Finalizers env
        → IsAt v x s
        → zero_time env (k.meta x) ≡ true
        → guarded env (k.meta x) ≡ false
        → IsTrail env v (add_finalizer env k r x s).1.log
    unfolding add_finalizer
    add_finalizer-IsTrail r v x s fin at z g =
        let fs = env.add_finalizer (k.meta x).finalizers finalizer in
        last_update-IsTrail r v x (k.set_finalizers x fs) s at (
          Move.guard (rw z) g (
            ground (
              arith,
              laws.meta_of_finalizers x fs,
              laws.current_of_finalizers x fs,
              fin.added (k.meta x).finalizers,
            )))

    pub clear_finalizer-IsTrail :
        (r : Reconciler) (v : View) (x : R) (s : Run W)
        → Finalizers env
        → IsAt v x s
        → zero_time env (k.meta x) ≡ false
        → k.current_spec x ≡ none
        → IsTrail env v (clear_finalizer env k r x s).1.log
    unfolding clear_finalizer
    clear_finalizer-IsTrail r v x s fin at z n =
        let fs = env.remove_finalizer (k.meta x).finalizers finalizer in
        last_update-IsTrail r v x (k.set_finalizers x fs) s at (
          Move.finish (rw z) (rw n) (
            ground (
              arith,
              laws.meta_of_finalizers x fs,
              laws.current_of_finalizers x fs,
              fin.removed (k.meta x).finalizers,
            )))

    -- On deletion, or where the MinIO object is gone.
    pub clear_status-IsTrail :
        (r : Reconciler) (v : View) (x : R) (s : Run W)
        → IsAt v x s
        → (zero_time env (k.meta x) ≡ false)
          ⊎ ((zero_time env (k.meta x) ≡ true) × (guarded env (k.meta x) ≡ true))
        → IsTrail env v (clear_status env k r x s).1.log
    unfolding clear_status
    clear_status-IsTrail r v x s at c =
        last_update-IsTrail r v x (k.set_current_spec x none) s at (elim c [
          | inl z ↦
              Move.release (rw z)
                (ground (arith, laws.meta_of_status x none, laws.current_of_status x none))
          | inr (z, g) ↦
              Move.forget (rw z) g
                (ground (arith, laws.meta_of_status x none, laws.current_of_status x none))
        ])

    clear_migrate-Move :
        (x : R)
        → zero_time env (k.meta x) ≡ true
        → guarded env (k.meta x) ≡ true
        → k.current_spec x ≢ none
        → Move
            (view env (k.meta x) (k.current_spec x))
            (view env (k.meta (k.clear_migrate x)) (k.current_spec (k.clear_migrate x)))
    clear_migrate-Move x z g c =
        Move.adopt (rw z) g (ground (arith, laws.meta_of_migrate x, laws.current_of_migrate x))

    pub drop_migrate-IsTrail :
        (v : View) (x : R) (s : Run W)
        → IsAt v x s
        → zero_time env (k.meta x) ≡ true
        → guarded env (k.meta x) ≡ true
        → k.current_spec x ≢ none
        → IsTrail env v (drop_migrate env k x s).1.log
    unfolding drop_migrate
    drop_migrate-IsTrail v x s at z g c = elim (Bool-cases (k.migrate x)) [
      | inl m ↦ rw m (update-IsTrail v x (k.clear_migrate x) s at (clear_migrate-Move x z g c))
      | inr m ↦ rw m at.0
    ]

    pub drop_migrate-IsAt :
        (v : View) (x x' : R) (s : Run W)
        → Echoes env k
        → IsAt v x s
        → zero_time env (k.meta x) ≡ true
        → guarded env (k.meta x) ≡ true
        → k.current_spec x ≢ none
        → (drop_migrate env k x s).0 ≡ ok x'
        → IsAt v x' (drop_migrate env k x s).1
          × (zero_time env (k.meta x') ≡ true)
          × (guarded env (k.meta x') ≡ true)
    unfolding drop_migrate
    drop_migrate-IsAt v x x' s echoes at z g c e = elim (Bool-cases (k.migrate x)) [
      | inl m ↦ ground (
        arith,
        m,
        update-IsAt v x (k.clear_migrate x) x' s echoes at (clear_migrate-Move x z g c),
        echoes.meta (k.clear_migrate x) x' s.world,
        laws.meta_of_migrate x,
      )
      | inr m ↦ ground (arith, m)
    ]

-- A whole reconciliation, from what its own three branches do.
module _ {W R S : Type 0} (env : Env W) (k : Kind W R S) (laws : IsKind env k)
    (fin : Finalizers env) (echoes : Echoes env k) (r : Reconciler)
    (on_delete : R → S → Io W ReconcileResult) (on_managed on_new : R → Io W ReconcileResult)
    (on_delete-IsTrail : (v : View) (x : R) (c : S) (s : Run W)
      → IsAt env k v x s
      → zero_time env (k.meta x) ≡ false
      → k.current_spec x ≡ some c
      → IsTrail env v (on_delete x c s).1.log)
    (on_managed-IsTrail : (v : View) (x : R) (s : Run W)
      → IsAt env k v x s
      → zero_time env (k.meta x) ≡ true
      → guarded env (k.meta x) ≡ true
      → IsTrail env v (on_managed x s).1.log)
    (on_new-IsTrail : (v : View) (x : R) (s : Run W)
      → IsAt env k v x s
      → zero_time env (k.meta x) ≡ true
      → guarded env (k.meta x) ≡ true
      → IsTrail env v (on_new x s).1.log) where
  managed-IsTrail :
      (v : View) (x : R) (s : Run W)
      → IsAt env k v x s
      → zero_time env (k.meta x) ≡ true
      → guarded env (k.meta x) ≡ true
      → k.current_spec x ≢ none
      → IsTrail env v ((drop_migrate env k x >>= on_managed) s).1.log
  managed-IsTrail v x s at z g c =
      >>=-IsTrail env v (drop_migrate env k x) on_managed s
        (drop_migrate-IsTrail env k laws v x s at z g c)
        (λ x' e.
          let (at', z', g') = drop_migrate-IsAt env k laws v x x' s echoes at z g c e in
          on_managed-IsTrail v x' (drop_migrate env k x s).1 at' z' g')

  pub dispatch-IsTrail :
      (v : View) (x : R) (s : Run W)
      → IsAt env k v x s
      → IsTrail env v
          (dispatch env
            (k.meta x)
            (k.current_spec x)
            (on_delete x)
            (clear_finalizer env k r x)
            (add_finalizer env k r x)
            (λ _. drop_migrate env k x >>= on_managed)
            (on_new x)
            s).1.log
  dispatch-IsTrail v x s at =
      dispatch_elim env {R = Io W ReconcileResult} (λ m. IsTrail env v (m s).1.log) (k.meta x)
        (k.current_spec x) (λ c z e. on_delete-IsTrail v x c s at z e)
        (clear_finalizer-IsTrail env k laws r v x s fin at)
        (add_finalizer-IsTrail env k laws r v x s fin at)
        (λ c z g e. managed-IsTrail v x s at z g (λ n. cc)) (λ z g _. on_new-IsTrail v x s at z g)

-- From the object that `r.Get` found, with an empty log.
pub with_resource-IsTrail :
    {W R S : Type 0} (env : Env W) (k : Kind W R S) (get : Call W R)
    (found : R → Io W ReconcileResult)
    → ((v : View) (x : R) (s : Run W) → IsAt env k v x s → IsTrail env v (found x s).1.log)
    → (w : W) (x : R) → (get w).0 ≡ ok x
    → IsTrail env
        (view env (k.meta x) (k.current_spec x))
        (with_resource env get found (record { world = w; log = [] })).1.log
with_resource-IsTrail env k get found h w x e =
    rw e (h _ x (record { world = (get w).1; log = [] }) (tt, refl))
