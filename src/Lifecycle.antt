-- ===== src/Lifecycle.antt =====
-- What the seven reconcilers have in common: each custom resource carries a deletion mark, a
-- finalizer and the record of what was created in MinIO (`status.currentSpec`). An abstract machine
-- over these three says which writes of the resource may follow one another, and when something may
-- be made for it or removed.
use minio_operator_ext.Base.{
  ◌≡◌, subst, sym, Bool, true, false, not, Option, none, some, refl, List, [], ◌∷◌, if◌then◌else◌,
  bool_eq,
}
use minio_operator_ext.Api.{ObjectMeta}
use minio_operator_ext.Client.{Op, Event, Env, Result, ok, err, Io, Run, proceed, ◌>>=◌, deref}
use minio_operator_ext.Reconciler.{finalizer}

pub record View : Type 0 where
  pub deleting : Bool
  pub guarded : Bool
  pub managed : Bool

abbrev pub is_some : {A : Type 0} → Option A → Bool
is_some none = false
is_some (some _) = true

-- The writes that the machine allows.
pub data Move (v w : View) : Type 0 where
  -- the finalizer is added to a resource that is not being deleted
  guard : v.deleting ≡ false → v.guarded ≡ false → w ≡ record v { guarded = true } → Move v w
  -- the MinIO object exists, and the status says so
  adopt : v.deleting ≡ false → v.guarded ≡ true → w ≡ record v { managed = true } → Move v w
  -- the MinIO object is gone
  forget : v.deleting ≡ false → v.guarded ≡ true → w ≡ record v { managed = false } → Move v w
  -- on deletion, the MinIO object was removed
  release : v.deleting ≡ true → w ≡ record v { managed = false } → Move v w
  -- on deletion, with nothing left in MinIO, the finalizer is removed
  finish : v.deleting ≡ true → v.managed ≡ false → w ≡ record v { guarded = false } → Move v w

-- What a call does outside the resource itself.
pub data Effect : Type 0 where
  makes : Effect
  removes : Effect
  neither : Effect

abbrev pub membership : Bool → Effect
membership true = Effect.removes
membership false = Effect.makes

abbrev pub effect_of : Op → Effect
effect_of (Op.create_secret s) = Effect.makes
effect_of (Op.update_group_members c req) = membership req.is_remove
effect_of (Op.add_user c key secret) = Effect.makes
effect_of (Op.remove_user c key) = Effect.removes
effect_of (Op.add_canned_policy c name text) = Effect.makes
effect_of (Op.remove_canned_policy c name) = Effect.removes
effect_of (Op.attach_policy c req) = Effect.makes
effect_of (Op.attach_policy_ldap c req) = Effect.makes
effect_of (Op.detach_policy c req) = Effect.removes
effect_of (Op.detach_policy_ldap c req) = Effect.removes
effect_of (Op.add_service_account c req) = Effect.makes
effect_of (Op.add_service_account_ldap c req) = Effect.makes
effect_of (Op.delete_service_account c key) = Effect.removes
effect_of (Op.make_bucket c name) = Effect.makes
effect_of (Op.remove_bucket c name force) = Effect.removes
effect_of _ = Effect.neither

module _ {W : Type 0} (env : Env W) where
  abbrev pub view : {A : Type 0} → ObjectMeta → Option A → View
  view meta current = record {
    deleting = not (env.is_zero meta.deletion_timestamp);
    guarded = env.contains_finalizer meta.finalizers finalizer;
    managed = is_some current;
  }

  -- The view of the resource that a call writes.
  abbrev pub written : Op → Option View
  written (Op.update_group x) = some (view x.meta x.status.current_spec)
  written (Op.update_group_binding x) = some (view x.meta x.status.current_spec)
  written (Op.update_user x) = some (view x.meta x.status.current_spec)
  written (Op.update_policy x) = some (view x.meta x.status.current_spec)
  written (Op.update_policy_binding x) = some (view x.meta x.status.current_spec)
  written (Op.update_bucket x) = some (view x.meta x.status.current_spec)
  written (Op.update_access_key x) = some (view x.meta x.status.current_spec)
  written _ = none

  -- The view after the writes of a log, newest first, from `v`.
  abbrev pub latest : View → List Event → View
  latest v [] = v
  latest v (e ∷ log) = elim (written e.op) [ none ↦ latest v log | some w ↦ w ]

  -- What a call may be in a view: a write of the resource is a move, and something is made in MinIO
  -- or in the cluster only for a resource that has the finalizer and is not being deleted, and
  -- removed from MinIO only for a resource that has a status.
  abbrev pub Allows : View → Effect → Option View → Type 0
  Allows v effect (some w) = Move v w
  Allows v Effect.makes none = (v.deleting ≡ false) × (v.guarded ≡ true)
  Allows v Effect.removes none = v.managed ≡ true
  Allows v Effect.neither none = Unit

  abbrev pub IsAllowed : View → Op → Type 0
  IsAllowed v op = Allows v (effect_of op) (written op)

  pub Move-IsAllowed : (v w : View) (op : Op) → written op ≡ some w → Move v w → IsAllowed v op
  Move-IsAllowed v w op e move = subst (λ o. Allows v (effect_of op) o) (sym e) move

  -- Each call of the log is allowed in the view of the calls before it, the first one in `v`.
  abbrev pub IsTrail : View → List Event → Type 0
  IsTrail v [] = Unit
  IsTrail v (e ∷ log) = IsTrail v log × IsAllowed (latest v log) e.op

module _ {W : Type 0} (env : Env W) (v : View) where
  proceed-IsTrail :
      {A B : Type 0} (k : A → Io W B) (r : Result A) (s : Run W)
      → IsTrail env v s.log
      → ((a : A) → r ≡ ok a → IsTrail env v (k a s).1.log)
      → IsTrail env v (proceed k r s).1.log
  proceed-IsTrail k (ok a) s first rest = rest a refl
  proceed-IsTrail k (err e) s first rest = first

  -- A trail of a bind: of its first part, and of its second part from every result of the first.
  pub >>=-IsTrail :
      {A B : Type 0} (m : Io W A) (k : A → Io W B) (s : Run W)
      → IsTrail env v (m s).1.log
      → ((a : A) → (m s).0 ≡ ok a → IsTrail env v (k a (m s).1).1.log)
      → IsTrail env v ((m >>= k) s).1.log
  >>=-IsTrail m k s first rest = proceed-IsTrail k (m s).0 (m s).1 first rest

  -- The same where the first part leaves the log alone.
  pub >>=-IsTrail_quiet :
      {A B : Type 0} (m : Io W A) (k : A → Io W B) (s : Run W)
      → (m s).1.log ≡ s.log
      → IsTrail env v s.log
      → ((a : A) (s' : Run W) → (m s).0 ≡ ok a → s'.log ≡ s.log → IsTrail env v (k a s').1.log)
      → IsTrail env v ((m >>= k) s).1.log
  >>=-IsTrail_quiet m k s quiet trail rest =
      >>=-IsTrail m k s (rw quiet trail) (λ a e. rest a (m s).1 e quiet)

  -- The same where the first part is a pointer that is dereferenced.
  pub deref-IsTrail :
      {A B : Type 0} (o : Option A) (k : A → Io W B) (s : Run W)
      → IsTrail env v s.log
      → ((a : A) → o ≡ some a → IsTrail env v (k a s).1.log)
      → IsTrail env v ((deref o >>= k) s).1.log
  deref-IsTrail none k s trail rest = trail
  deref-IsTrail (some a) k s trail rest = rest a refl

  -- What holds after a part of a reconciliation: the log is a trail, and `Q` holds of an answer.
  abbrev pub After : {A : Type 0} → (A → Run W → Type 0) → Result A × Run W → Type 0
  After {A} Q r = IsTrail env v r.1.log × ((a : A) → r.0 ≡ ok a → Q a r.1)

  pub >>=-After :
      {A B : Type 0} (Q : A → Run W → Type 0) (P : B → Run W → Type 0) (m : Io W A) (k : A → Io W B)
      (s : Run W)
      → After Q (m s)
      → ((a : A) (s' : Run W) → Q a s' → After P (k a s'))
      → After P ((m >>= k) s)
  >>=-After {A} Q P m k s first rest = go (m s).0 first.1
    where
      go : (r : Result A) → ((a : A) → r ≡ ok a → Q a (m s).1) → After P (proceed k r (m s).1)
      go (ok a) q = rest a (m s).1 (q a refl)
      go (err e) q = (first.0, λ b n. cc)

  pub deref-After :
      {A B : Type 0} (P : B → Run W → Type 0) (o : Option A) (k : A → Io W B) (s : Run W)
      → IsTrail env v s.log
      → ((a : A) → o ≡ some a → After P (k a s))
      → After P ((deref o >>= k) s)
  deref-After P none k s trail rest = (trail, λ b n. cc)
  deref-After P (some a) k s trail rest = rest a refl

  -- A test, and an answer.
  pub if-After :
      {A : Type 0} (P : A → Run W → Type 0) (t : Bool) (m n : Io W A) (s : Run W)
      → (t ≡ true → After P (m s))
      → (t ≡ false → After P (n s))
      → After P ((if t then m else n) s)
  if-After P true m n s first second = first refl
  if-After P false m n s first second = second refl

  pub pure-After :
      {A : Type 0} (P : A → Run W → Type 0) (a : A) (s : Run W)
      → IsTrail env v s.log
      → P a s
      → After P (ok a, s)
  pure-After P a s trail p = (trail, λ b e. subst (λ x. P x s) (cc) p)
