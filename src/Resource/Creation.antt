-- ===== src/Resource/Creation.antt =====
-- What a creation that succeeds did: something was made in MinIO before the status was set.
use mathlib.Core.List.{◌++◌ as append}
use minio_operator_ext.Base.{◌≡◌, refl, Option, none, some, List, [], ◌∷◌, All, true, false, arith}
use minio_operator_ext.Client.{
  Error, ok, error_of, Op, Event, Env, Io, Run, Call, ◌>>=◌, ◌>>◌, perform, attempt, check, Ensures,
  >>=-Ensures,
}
use minio_operator_ext.Lifecycle.{View, Effect, effect_of, view, written}
use minio_operator_ext.Reconciler.{
  Reconciler, ReconcileResult, succeed, dispatch, dispatch_elim, with_resource,
}
use minio_operator_ext.Resource.{Kind, update}
use minio_operator_ext.Resource.Laws.{IsKind}

-- The calls so far, newest first: one that made something, with no error but one that the test
-- `judge` lets pass, and behind it none that makes or removes anything.
pub record Made (judge : Option Error → Option Error) (log : List Event) : Type 0 where
  pub make : Event
  pub between : List Event
  pub earlier : List Event
  pub calls : log ≡ append between (make ∷ earlier)
  pub makes : effect_of make.op ≡ Effect.makes
  pub excused : judge make.failure ≡ none
  pub quiet : All (λ e. effect_of e.op ≡ Effect.neither) between

-- The same, and a last call that wrote the resource in the view `w`.
pub record IsCreation {W : Type 0} (env : Env W) (judge : Option Error → Option Error) (w : View)
    (log : List Event) : Type 0 where
  pub write : Event
  pub before : List Event
  pub calls : log ≡ write ∷ before
  pub made : Made judge before
  pub adopts : written env write.op ≡ some w
  pub stored : write.failure ≡ none

module _ {W : Type 0} (env : Env W) (judge : Option Error → Option Error) where
  abbrev pub Creates : {A : Type 0} → View → Io W A → Run W → Type 0
  Creates w m s = Ensures (λ _ s'. IsCreation env judge w s'.log) m s

  -- A part before anything is made.
  pub >>=-Creates :
      {A B : Type 0} (w : View) (m : Io W A) (k : A → Io W B) (s : Run W)
      → ((a : A) (s' : Run W) → Creates w (k a) s')
      → Creates w (m >>= k) s
  >>=-Creates w m k s rest =
      >>=-Ensures (λ _ _. Unit {0}) (λ _ s'. IsCreation env judge w s'.log) m k s (λ _ _. tt)
        (λ a s' _. rest a s')

  pub Made-cons :
      (op : Op) (failure : Option Error) (log : List Event)
      → effect_of op ≡ Effect.makes
      → judge failure ≡ none
      → Made judge (record { op = op; failure = failure } ∷ log)
  Made-cons op failure log makes excused = record {
    make = record { op = op; failure = failure };
    between = [];
    earlier = log;
    calls = refl;
    makes = makes;
    excused = excused;
    quiet = tt;
  }

  -- Something is made, and any error ends the creation.
  pub perform-Made :
      (op : Op) (f : Call W (Unit {0})) (s : Run W)
      → effect_of op ≡ Effect.makes
      → judge none ≡ none
      → Ensures (λ _ s'. Made judge s'.log) (perform op f) s
  perform-Made op f s makes lax u e =
      Made-cons op (error_of (f s.world).0) s.log makes (ground (arith, e, lax))

  -- Something is made, and its error is judged.
  pub judged-Made :
      {B : Type 0} (P : B → Run W → Type 0) (test : Option Error → Option Error) (op : Op)
      (f : Call W (Unit {0})) (k : Io W B) (s : Run W)
      → effect_of op ≡ Effect.makes
      → ((e : Option Error) → test e ≡ none → judge e ≡ none)
      → ((s' : Run W) → Made judge s'.log → Ensures P k s')
      → Ensures P (attempt (perform op f) >>= λ made. check (test (error_of made)) >> k) s
  judged-Made {B} P test op f k s makes lax rest =
      go (test (error_of (f s.world).0)) (lax (error_of (f s.world).0))
    where
      s1 : Run W
      s1 = (perform op f s).1

      go :
          (o : Option Error)
          → (o ≡ none → judge (error_of (f s.world).0) ≡ none)
          → Ensures P (check o >> k) s1
      go none excused = rest s1 (Made-cons op (error_of (f s.world).0) s.log makes (excused refl))
      go (some e) excused = λ b h. absurd (cc)

  -- A call that makes nothing.
  pub neither-Made :
      (op : Op) (f : Call W (Unit {0})) (s : Run W)
      → effect_of op ≡ Effect.neither
      → Made judge s.log
      → Ensures (λ _ s'. Made judge s'.log) (perform op f) s
  neither-Made op f s neither m u e = record {
    make = m.make;
    between = record { op = op; failure = error_of (f s.world).0 } ∷ m.between;
    earlier = m.earlier;
    calls = λ i. record { op = op; failure = error_of (f s.world).0 } ∷ m.calls i;
    makes = m.makes;
    excused = m.excused;
    quiet = (neither, m.quiet);
  }

  -- The status is set.
  pub last-Creates :
      {R S : Type 0} (k : Kind W R S) (laws : IsKind env k) (r : Reconciler) (y : R) (s : Run W)
      → Made judge s.log
      → Creates (view env (k.meta y) (k.current_spec y)) (update env k y >>= λ _. succeed r) s
  last-Creates k laws r y s made =
      let w = view env (k.meta y) (k.current_spec y) in
      >>=-Ensures (λ _ s'. IsCreation env judge w s'.log) (λ _ s'. IsCreation env judge w s'.log)
        (update env k y) (λ _. succeed r) s
        (λ x e. record {
          write = record { op = k.op y; failure = none };
          before = s.log;
          calls = ground (arith, e);
          made = made;
          adopts = laws.writes y;
          stored = refl;
        })
        (λ _ s' done _ _. done)

  -- A reconciliation of a resource with the finalizer and without a status.
  pub dispatch-Creates :
      {R S : Type 0} (k : Kind W R S) (x : R) (w : View) (s : Run W)
      (on_delete on_managed : S → Io W ReconcileResult)
      (on_released on_unguarded on_new : Io W ReconcileResult)
      → Creates w on_new s
      → (view env (k.meta x) (k.current_spec x)).deleting ≡ false
      → (view env (k.meta x) (k.current_spec x)).guarded ≡ true
      → (view env (k.meta x) (k.current_spec x)).managed ≡ false
      → Creates w
          (dispatch env
            (k.meta x)
            (k.current_spec x)
            on_delete
            on_released
            on_unguarded
            on_managed
            on_new)
          s
  dispatch-Creates k x w s on_delete on_managed on_released on_unguarded on_new new live guarded
        unset =
      dispatch_elim env {R = Io W ReconcileResult} (λ m. Creates w m s) (k.meta x)
        (k.current_spec x) (λ c z _. absurd (ground (arith, z, live)))
        (λ z _. absurd (ground (arith, z, live))) (λ _ g. absurd (ground (arith, g, guarded)))
        (λ c _ _ n. absurd (ground (arith, n, unset))) (λ _ _ _. new)

  -- From an empty log: the MinIO object was made and the status set.
  abbrev pub Makes : View → Io W ReconcileResult → W → Type 0
  Makes v m w =
      v.deleting ≡ false
      → v.guarded ≡ true
      → v.managed ≡ false
      → Creates (record v { managed = true }) m (record { world = w; log = [] })

  pub with_resource-Makes :
      {R S : Type 0} (k : Kind W R S) (get : Call W R) (found : R → Io W ReconcileResult)
      → ((x : R) (s : Run W)
          → (view env (k.meta x) (k.current_spec x)).deleting ≡ false
          → (view env (k.meta x) (k.current_spec x)).guarded ≡ true
          → (view env (k.meta x) (k.current_spec x)).managed ≡ false
          → Creates
              (record (view env (k.meta x) (k.current_spec x)) { managed = true })
              (found x)
              s)
      → (w : W) (x : R) → (get w).0 ≡ ok x
      → Makes (view env (k.meta x) (k.current_spec x)) (with_resource env get found) w
  with_resource-Makes k get found h w x e live guarded unset =
      rw e (h x (record { world = (get w).1; log = [] }) live guarded unset)

  -- Something is made, where any error ends the creation, and then the status is set.
  abbrev pub make_and_set : {R S : Type 0} → Kind W R S → Reconciler → Op → R → Io W ReconcileResult
  make_and_set k r op y = perform op (env.act op) >>= λ _. update env k y >>= λ _. succeed r

  pub make_and_set-Creates :
      {R S : Type 0} (k : Kind W R S) (laws : IsKind env k) (r : Reconciler) (op : Op) (y : R)
      (s : Run W)
      → effect_of op ≡ Effect.makes
      → judge none ≡ none
      → Creates (view env (k.meta y) (k.current_spec y)) (make_and_set k r op y) s
  make_and_set-Creates k laws r op y s makes lax =
      let w = view env (k.meta y) (k.current_spec y) in
      >>=-Ensures (λ _ s'. Made judge s'.log) (λ _ s'. IsCreation env judge w s'.log)
        (perform op (env.act op)) (λ _. update env k y >>= λ _. succeed r) s
        (perform-Made op (env.act op) s makes lax) (λ _ s' made. last-Creates k laws r y s' made)
