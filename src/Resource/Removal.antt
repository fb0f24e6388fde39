-- ===== src/Resource/Removal.antt =====
-- What a deletion that succeeds did: the removal in MinIO came first, and then the write that clears
-- the status.
use minio_operator_ext.Base.{
  ◌≡◌, refl, subst, ◌∙◌, Option, none, List, [], ◌∷◌, arith, false, true, some,
}
use minio_operator_ext.Client.{
  Error, Result, ok, error_of, Op, Event, Env, Io, Run, Call, ◌>>=◌, ◌>>◌, perform, attempt, check,
  Ensures, >>=-Ensures,
}
use minio_operator_ext.Lifecycle.{View, Effect, effect_of, view, written}
use minio_operator_ext.Reconciler.{
  Reconciler, ReconcileResult, dispatch, dispatch_elim, with_resource,
}
use minio_operator_ext.Resource.{Kind, add_finalizer, clear_finalizer, clear_status}
use minio_operator_ext.Resource.Laws.{IsKind}

-- The calls behind `before`: a removal of the `IsTarget`, whose error the test `judge` lets pass, and
-- a write that leaves the resource in the view `w`.
pub record IsRemoval {W : Type 0} (env : Env W) (judge : Option Error → Option Error)
    (IsTarget : Op → Type 0) (w : View) (before after : List Event) : Type 0 where
  pub removal : Event
  pub write : Event
  pub calls : after ≡ write ∷ removal ∷ before
  pub removes : effect_of removal.op ≡ Effect.removes
  pub target : IsTarget removal.op
  pub excused : judge removal.failure ≡ none
  pub clears : written env write.op ≡ some w
  pub stored : write.failure ≡ none

module _ {W R S : Type 0} (env : Env W) (k : Kind W R S) (laws : IsKind env k) (r : Reconciler)
    (judge : Option Error → Option Error) (IsTarget : Op → Type 0) (x : R) where
  abbrev cleared : View
  cleared = record (view env (k.meta x) (k.current_spec x)) { managed = false }

  clear_status-log :
      (s : Run W) (res : ReconcileResult)
      → (clear_status env k r x s).0 ≡ ok res
      → (clear_status env k r x s).1.log
        ≡ record { op = k.op (k.set_current_spec x none); failure = none } ∷ s.log
  unfolding clear_status
  clear_status-log s res e = ground (arith, e)

  checked-log :
      (removed : Result (Unit {0})) (s : Run W) (res : ReconcileResult)
      → ((check (judge (error_of removed)) >> clear_status env k r x) s).0 ≡ ok res
      → (judge (error_of removed) ≡ none)
        × (((check (judge (error_of removed)) >> clear_status env k r x) s).1.log
            ≡ record { op = k.op (k.set_current_spec x none); failure = none } ∷ s.log)
  checked-log removed s res e = go (judge (error_of removed)) e
    where
      go :
          (o : Option Error)
          → ((check o >> clear_status env k r x) s).0 ≡ ok res
          → (o ≡ none)
            × (((check o >> clear_status env k r x) s).1.log
                ≡ record { op = k.op (k.set_current_spec x none); failure = none } ∷ s.log)
      go none h = (refl, clear_status-log s res h)
      go (some f) h = absurd (cc)

  -- `err = remove(…); err = judge(err); if err != nil { … }`, and the status is cleared.
  pub judged-IsRemoval :
      (op : Op) (f : Call W (Unit {0})) (s : Run W)
      → effect_of op ≡ Effect.removes
      → IsTarget op
      → Ensures
          (λ _ s'. IsRemoval env judge IsTarget cleared s.log s'.log)
          (attempt (perform op f) >>= λ removed.
            check (judge (error_of removed)) >> clear_status env k r x)
          s
  judged-IsRemoval op f s removes target res e =
      let (judged, log) = checked-log (f s.world).0 (perform op f s).1 res e in
      record {
        removal = record { op = op; failure = error_of (f s.world).0 };
        write = record { op = k.op (k.set_current_spec x none); failure = none };
        calls = log;
        removes = removes;
        target = target;
        excused = judged;
        clears = ground (
          arith,
          laws.writes (k.set_current_spec x none),
          laws.meta_of_status x none,
          laws.current_of_status x none,
        );
        stored = refl;
      }

  -- The same where every error of the removal is returned.
  pub strict-IsRemoval :
      (op : Op) (f : Call W (Unit {0})) (s : Run W)
      → effect_of op ≡ Effect.removes
      → IsTarget op
      → judge none ≡ none
      → Ensures
          (λ _ s'. IsRemoval env judge IsTarget cleared s.log s'.log)
          (perform op f >> clear_status env k r x)
          s
  strict-IsRemoval op f s removes target lax =
      >>=-Ensures (λ _ s1. s1.log ≡ record { op = op; failure = none } ∷ s.log)
        (λ _ s'. IsRemoval env judge IsTarget cleared s.log s'.log) (perform op f)
        (λ _. clear_status env k r x) s (λ _ e. ground (arith, e))
        (λ _ s1 log res e. record {
          removal = record { op = op; failure = none };
          write = record { op = k.op (k.set_current_spec x none); failure = none };
          calls =
              clear_status-log s1 res e
              ∙ (λ i. record { op = k.op (k.set_current_spec x none); failure = none } ∷ log i);
          removes = removes;
          target = target;
          excused = lax;
          clears = ground (
            arith,
            laws.writes (k.set_current_spec x none),
            laws.meta_of_status x none,
            laws.current_of_status x none,
          );
          stored = refl;
        })

  -- The same behind a part that leaves the log alone.
  pub quiet-IsRemoval :
      {A : Type 0} (m : Io W A) (n : A → Io W ReconcileResult) (s : Run W)
      → (m s).1.log ≡ s.log
      → ((a : A) (s' : Run W)
          → (m s).0 ≡ ok a
          → Ensures (λ _ s''. IsRemoval env judge IsTarget cleared s'.log s''.log) (n a) s')
      → Ensures (λ _ s'. IsRemoval env judge IsTarget cleared s.log s'.log) (m >>= n) s
  quiet-IsRemoval m n s quiet rest =
      >>=-Ensures (λ a s1. ((m s).0 ≡ ok a) × (s1.log ≡ s.log))
        (λ _ s'. IsRemoval env judge IsTarget cleared s.log s'.log) m n s (λ a e. (e, quiet))
        (λ a s1 (answer, log) b e.
          subst (λ before. IsRemoval env judge IsTarget cleared before (n a s1).1.log) log
            (rest a s1 answer b e))

  -- A reconciliation of a resource that is marked for deletion and has a status.
  pub dispatch-IsRemoval :
      (s : Run W) (on_delete : S → Io W ReconcileResult) (on_managed : S → Io W ReconcileResult)
      (on_new : Io W ReconcileResult)
      → ((c : S)
          → k.current_spec x ≡ some c
          → Ensures (λ _ s'. IsRemoval env judge IsTarget cleared s.log s'.log) (on_delete c) s)
      → (view env (k.meta x) (k.current_spec x)).deleting ≡ true
      → (view env (k.meta x) (k.current_spec x)).managed ≡ true
      → Ensures
          (λ _ s'. IsRemoval env judge IsTarget cleared s.log s'.log)
          (dispatch env
            (k.meta x)
            (k.current_spec x)
            on_delete
            (clear_finalizer env k r x)
            (add_finalizer env k r x)
            on_managed
            on_new)
          s
  dispatch-IsRemoval s on_delete on_managed on_new delete marked managed =
      dispatch_elim env {R = Io W ReconcileResult}
        (λ m. Ensures (λ _ s'. IsRemoval env judge IsTarget cleared s.log s'.log) m s) (k.meta x)
        (k.current_spec x) (λ c _ is_current. delete c is_current)
        (λ z n. absurd (ground (arith, n, managed))) (λ z _. absurd (ground (arith, z, marked)))
        (λ c z _ _. absurd (ground (arith, z, marked)))
        (λ z _ _. absurd (ground (arith, z, marked)))

-- The same for another description of what is removed.
pub IsRemoval-map :
    {W : Type 0} {env : Env W} {judge : Option Error → Option Error} {P Q : Op → Type 0} {w : View}
    {before after : List Event}
    → ((op : Op) → P op → Q op)
    → IsRemoval env judge P w before after
    → IsRemoval env judge Q w before after
IsRemoval-map f d = record {
  removal = d.removal;
  write = d.write;
  calls = d.calls;
  removes = d.removes;
  target = f d.removal.op d.target;
  excused = d.excused;
  clears = d.clears;
  stored = d.stored;
}

-- A reconciliation that answers removed the MinIO object and cleared the status.
abbrev pub Removes :
    {W : Type 0}
    → Env W
    → (Option Error → Option Error)
    → (Op → Type 0)
    → View
    → Io W ReconcileResult
    → W
    → Type 0
Removes env judge IsTarget v m w =
    v.deleting ≡ true
    → v.managed ≡ true
    → Ensures (λ _ s'. IsRemoval env judge IsTarget (record v { managed = false }) [] s'.log) m
        (record { world = w; log = [] })

pub with_resource-Removes :
    {W R S : Type 0} (env : Env W) (k : Kind W R S) (judge : Option Error → Option Error)
    (IsTarget : R → Op → Type 0) (get : Call W R) (found : R → Io W ReconcileResult)
    → ((x : R) (s : Run W)
        → (view env (k.meta x) (k.current_spec x)).deleting ≡ true
        → (view env (k.meta x) (k.current_spec x)).managed ≡ true
        → Ensures
            (λ _ s'.
              IsRemoval env judge
                (IsTarget x)
                (record (view env (k.meta x) (k.current_spec x)) { managed = false })
                s.log
                s'.log)
            (found x)
            s)
    → (w : W) (x : R) → (get w).0 ≡ ok x
    → Removes env judge
        (IsTarget x)
        (view env (k.meta x) (k.current_spec x))
        (with_resource env get found)
        w
with_resource-Removes env k judge IsTarget get found h w x e marked managed =
    rw e (h x (record { world = (get w).1; log = [] }) marked managed)
