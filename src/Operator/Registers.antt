-- ===== src/Operator/Registers.antt =====
-- What a start of the operator asks of the manager, and where it stops.
use mathlib.Core.List.{◌++◌}
use minio_operator_ext.Base.{
  subst, sym, ℕ, String, ◌≡◌, ◌≢◌, ◌⊎◌, refl, ap, ◌∙◌, List, [], ◌∷◌, Bool, Bool-cases, inl, inr,
  true, false, arith, ◌==◌, string_eq, if◌then◌else◌, path_of_same,
}
use minio_operator_ext.Client.{
  Error, message, Result, ok, err, Run, throw, pure, ◌>>=◌, >>=-Ensures, query, lift, proceed,
}
use minio_operator_ext.Reconciler.{Reconciler}
use minio_operator_ext.Operator.Controllers.{Controller}
use minio_operator_ext.Operator.Host.{Step, Host, Boot, ask}
use minio_operator_ext.Operator.Register.{
  register, register_bucket, register_group, register_group_binding, register_policy,
  register_policy_binding, register_user, register_access_key,
}
use minio_operator_ext.Operator.Startup.{
  OperatorOpts, Operator, controllers, interval_of, namespace_file, file_namespace, namespace_of,
  build_scheme, build_manager, register_all, new_operator,
}

-- The steps that register controllers for a reconciler's settings, newest first, on top of others.
abbrev pub builds : Reconciler → List Controller → List Step → List Step
builds r [] steps = steps
builds r (c ∷ cs) steps = builds r cs (Step.build c r ∷ steps)

-- The steps that set the manager up.
abbrev pub served : List Step → List Step
served before =
    Step.add_readyz_check "readyz" ∷ Step.add_healthz_check "healthz" ∷ Step.new_manager ∷ before

-- After a start from the steps `before`, with the option `given` for the namespace and the interval
-- `interval`.
abbrev pub IsServing : String → ℕ → List Step → List Step → Type 0
IsServing given interval before after =
    (mon : String) × (mon ≢ "")
    × ((mon ≡ given) ⊎ (given ≡ ""))
    × (after
        ≡ builds (record { minio_operator_namespace = mon; sync_interval = interval }) controllers
            (served before))

-- How a loop of registrations ended: with all of them, or at the first that failed.
pub data Ended (r : Reconciler) (cs : List Controller) (before : List Step)
    : Result (Unit {0}) → List Step → Type 0 where
  all : (u : Unit {0}) → Ended r cs before (ok u) (builds r cs before)
  at :
      (e : Error) (done : List Controller) (c : Controller) (rest : List Controller)
      → cs ≡ done ++ c ∷ rest
      → Ended r cs before (err e) (builds r (done ++ c ∷ []) before)

Ended-later :
    (r : Reconciler) (c : Controller) (cs : List Controller) (before : List Step)
    (x : Result (Unit {0})) (steps : List Step)
    → Ended r cs (Step.build c r ∷ before) x steps
    → Ended r (c ∷ cs) before x steps
Ended-later r c cs before x steps (Ended.all u) = Ended.all u
Ended-later r c cs before x steps (Ended.at e done d rest same) =
    Ended.at e (c ∷ done) d rest (λ i. c ∷ same i)

Ended-ok :
    (r : Reconciler) (cs : List Controller) (before : List Step) (x : Result (Unit {0}))
    (steps : List Step) (u : Unit {0})
    → Ended r cs before x steps
    → x ≡ ok u
    → steps ≡ builds r cs before
Ended-ok r cs before x steps u (Ended.all v) e = refl
Ended-ok r cs before x steps u (Ended.at f done c rest same) e = absurd (cc)

abbrev pub undefined : Error
undefined = message "minio operator namespace is not defined"

module _ {W Config Scheme Manager : Type 0} (host : Host W Config Scheme Manager) where
  register-steps :
      (m : Manager) (r : Reconciler) (c : Controller) (s : Run (Boot W))
      → (register host m r c s).1.world.steps ≡ Step.build c r ∷ s.world.steps
  unfolding register register_bucket register_group register_group_binding register_policy
      register_policy_binding register_user register_access_key
  register-steps m r Controller.bucket s = refl
  register-steps m r Controller.group s = refl
  register-steps m r Controller.group_binding s = refl
  register-steps m r Controller.policy s = refl
  register-steps m r Controller.policy_binding s = refl
  register-steps m r Controller.user s = refl
  register-steps m r Controller.access_key s = refl

  pub register_all-Ended :
      (m : Manager) (r : Reconciler) (cs : List Controller) (s : Run (Boot W))
      → Ended r cs s.world.steps
          (register_all host m r cs s).0
          (register_all host m r cs s).1.world.steps
  unfolding register_all
  register_all-Ended m r [] s = Ended.all tt
  register_all-Ended m r (c ∷ cs) s = go (register host m r c s).0 (
      subst
        (λ steps.
          Ended r cs steps (register_all host m r cs (register host m r c s).1).0
            (register_all host m r cs (register host m r c s).1).1.world.steps)
        (register-steps m r c s) (register_all-Ended m r cs (register host m r c s).1))
    where
      go :
          (x : Result (Unit {0}))
          → Ended r cs
              (Step.build c r ∷ s.world.steps)
              (register_all host m r cs (register host m r c s).1).0
              (register_all host m r cs (register host m r c s).1).1.world.steps
          → Ended r
              (c ∷ cs)
              s.world.steps
              (proceed (λ _. register_all host m r cs) x (register host m r c s).1).0
              (proceed (λ _. register_all host m r cs) x (register host m r c s).1).1.world.steps
      go (ok u) later = Ended-later r c cs s.world.steps _ _ later
      go (err e) later =
          subst (λ steps. Ended r (c ∷ cs) s.world.steps (err e) steps)
            (sym (register-steps m r c s)) (Ended.at e [] c cs refl)

  register_all-steps :
      (m : Manager) (r : Reconciler) (cs : List Controller) (s : Run (Boot W)) (u : Unit {0})
      → (register_all host m r cs s).0 ≡ ok u
      → (register_all host m r cs s).1.world.steps ≡ builds r cs s.world.steps
  register_all-steps m r cs s u e =
      Ended-ok r cs s.world.steps _ _ u (register_all-Ended m r cs s) e

  build_manager-steps :
      (c : Config) (k : Scheme) (s : Run (Boot W)) (m : Manager)
      → (build_manager host c k s).0 ≡ ok m
      → (build_manager host c k s).1.world.steps ≡ served s.world.steps
  unfolding build_manager
  build_manager-steps c k s m e = ground arith

  namespace_of-steps :
      (given : String) (s : Run (Boot W))
      → (namespace_of host given s).1.world.steps ≡ s.world.steps
  unfolding namespace_of file_namespace
  namespace_of-steps given s = ground arith

  not_empty :
      (mon : String) (s : Run (Boot W)) (e : Error) (text : String)
      → ((if mon == "" then throw e else pure mon) s).0 ≡ ok text
      → (text ≢ "") × (text ≡ mon)
  not_empty mon s e text h = elim (Bool-cases (mon == "")) [
    | inl t ↦ absurd (ground (arith, t))
    | inr t ↦ ground (arith, t, string_eq.same_iff mon "")
  ]

  chosen :
      (t : Bool) (given : String) (s : Run (Boot W)) (e : Error) (mon : String)
      → (((if t then file_namespace host else pure given) >>= λ m.
            if m == "" then throw e else pure m)
          s).0
        ≡ ok mon
      → (mon ≢ "") × (t ≡ false → mon ≡ given)
  unfolding file_namespace
  chosen true given s e mon h =
      let text : String = elim (host.read_file namespace_file s.world.outside).0 [
        | ok t ↦ t
        | err _ ↦ ""
      ] in
      ((not_empty text _ e mon h).0, λ f. absurd (cc))
  chosen false given s e mon h = let (n, p) = not_empty given s e mon h in (n, λ _. p)

  namespace_of-ok :
      (given : String) (s : Run (Boot W)) (mon : String)
      → (namespace_of host given s).0 ≡ ok mon
      → (mon ≢ "") × ((mon ≡ given) ⊎ (given ≡ ""))
  unfolding namespace_of
  namespace_of-ok given s mon h =
      let (n, p) = chosen (given == "") given s _ mon h in
      (
        n,
        elim (Bool-cases (given == "")) [
          | inl t ↦ inr (path_of_same given "" t)
          | inr t ↦ inl (p t)
        ],
      )

  pub new_operator-IsServing :
      (o : OperatorOpts) (s : Run (Boot W)) (op : Operator Manager)
      → (new_operator host o s).0 ≡ ok op
      → IsServing o.minio_operator_namespace
          (interval_of o.sync_interval)
          s.world.steps
          (new_operator host o s).1.world.steps
  unfolding new_operator
  new_operator-IsServing o s =
      let before = s.world.steps in
      let settings : String → Reconciler = λ mon. record {
        minio_operator_namespace = mon;
        sync_interval = interval_of o.sync_interval;
      } in
      let Q : Operator Manager → Run (Boot W) → Type 0 = λ _ s'.
        IsServing o.minio_operator_namespace (interval_of o.sync_interval) before s'.world.steps in
      >>=-Ensures (λ _ s1. s1.world.steps ≡ before) Q
        (query (ask (host.build_config_from_flags "" o.kube_config))) _ s (λ _ _. refl)
        (λ c s1 e1.
          >>=-Ensures
            (λ mon s2.
              (s2.world.steps ≡ before)
              × (mon ≢ "")
              × ((mon ≡ o.minio_operator_namespace) ⊎ (o.minio_operator_namespace ≡ "")))
            Q (namespace_of host o.minio_operator_namespace) _ s1
            (λ mon e.
              let (given, kept) = namespace_of-ok _ s1 mon e in
              (namespace_of-steps o.minio_operator_namespace s1 ∙ e1, given, kept))
            (λ mon s2 at2.
              >>=-Ensures (λ _ s3. s3.world.steps ≡ before) Q (lift (build_scheme host)) _ s2
                (λ _ _. at2.0)
                (λ k s3 e3.
                  >>=-Ensures (λ _ s4. s4.world.steps ≡ served before) Q (build_manager host c k) _
                    s3 (λ m e. build_manager-steps c k s3 m e ∙ ap served e3)
                    (λ m s4 e4.
                      >>=-Ensures
                        (λ _ s5. s5.world.steps ≡ builds (settings mon) controllers (served before))
                        Q (register_all host m (settings mon) controllers) _ s4
                        (λ u e.
                          register_all-steps m (settings mon) controllers s4 u e
                          ∙ ap (builds (settings mon) controllers) e4)
                        (λ _ s5 e5 op _. (mon, at2.1, at2.2, e5))))))

  namespace_of-undefined :
      (s : Run (Boot W))
      → ((text : String) (w : W) → (host.read_file namespace_file w).0 ≡ ok text → text ≡ "")
      → (namespace_of host "" s).0 ≡ err undefined
  unfolding namespace_of file_namespace
  namespace_of-undefined s empty =
      go (host.read_file namespace_file s.world.outside).0 (λ text e. empty text s.world.outside e)
        (file_namespace host s).1
    where
      go :
          (r : Result String)
          → ((text : String) → r ≡ ok text → text ≡ "")
          → (s' : Run (Boot W))
          → ((λ (m : String). if m == "" then throw {W = Boot W} undefined else pure m)
              (elim r [ ok text ↦ text | err _ ↦ "" ])
              s').0
            ≡ err undefined
      go (ok text) h s' = rw (h text refl) refl
      go (err e) h s' = refl

  -- Given a client configuration that can be built: without the namespace option, and with a
  -- file of the service account that cannot be read or is empty, the operator is not built; the
  -- error says so, and no call was made on a manager.
  pub new_operator-undefined :
      (o : OperatorOpts) (s : Run (Boot W)) (c : Config)
      → (host.build_config_from_flags "" o.kube_config s.world.outside).0 ≡ ok c
      → o.minio_operator_namespace ≡ ""
      → ((text : String) (w : W) → (host.read_file namespace_file w).0 ≡ ok text → text ≡ "")
      → ((new_operator host o s).0 ≡ err undefined)
        × ((new_operator host o s).1.world.steps ≡ s.world.steps)
  unfolding new_operator
  new_operator-undefined o s c configured unset empty =
      let s1 = (query (ask (host.build_config_from_flags "" o.kube_config)) s).1 in
      let fails : (namespace_of host o.minio_operator_namespace s1).0 ≡ err undefined =
        rw unset (namespace_of-undefined s1 empty) in
      let quiet = namespace_of-steps o.minio_operator_namespace s1 in
      grind (arith, configured, fails, quiet)
