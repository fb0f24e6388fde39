-- ===== src/Client/Monad.antt =====
-- The monad of a reconciliation: an early return with an error, the world outside, and the calls
-- made so far that change something. An error keeps what was done before it.
use minio_operator_ext.Base.{◌≡◌, refl, subst, Option, none, some, List, ◌∷◌}
use minio_operator_ext.Client.Errors.{Error, Result, ok, err, error_of}
use minio_operator_ext.Client.Calls.{Op, Event}
use minio_operator_ext.Client.Services.{Call}

pub record Run (W : Type 0) : Type 0 where
  pub world : W
  pub log : List Event

abbrev pub Io : Type 0 → Type 0 → Type 0
Io W A = Run W → Result A × Run W

module _ {W : Type 0} where
  -- What follows a call that answered `r`.
  abbrev pub proceed : {A B : Type 0} → (A → Io W B) → Result A → Io W B
  proceed k (ok a) s = k a s
  proceed k (err e) s = (err e, s)

  infixl 5 ◌>>=◌ ◌>>◌
  abbrev pub ◌>>=◌ : {A B : Type 0} → Io W A → (A → Io W B) → Io W B
  ◌>>=◌ m k s = let (r, s') = m s in proceed k r s'

  abbrev pub ◌>>◌ : {A B : Type 0} → Io W A → Io W B → Io W B
  m >> k = m >>= λ _. k

  module _ {A : Type 0} where
    abbrev pub pure : A → Io W A
    pure a s = (ok a, s)

    abbrev pub throw : Error → Io W A
    throw e s = (err e, s)

    -- A function that cannot touch the world.
    abbrev pub lift : Result A → Io W A
    lift r s = (r, s)

    -- A nil pointer is dereferenced.
    abbrev pub deref : Option A → Io W A
    deref none s = (err Error.nil_dereference, s)
    deref (some a) s = (ok a, s)

    -- A call that reads.
    abbrev pub query : Call W A → Io W A
    query f s = let (r, w) = f s.world in (r, record s { world = w })

    -- A call that changes something: it is recorded with its error.
    abbrev pub perform : Op → Call W A → Io W A
    perform op f s =
        let (r, w) = f s.world in
        (r, record { world = w; log = record { op = op; failure = error_of r } ∷ s.log })

    -- `x, err := f()` where the code looks at `err` before it returns it. A part that can panic is
    -- followed by a test of `is_panic`.
    abbrev pub attempt : Io W A → Io W (Result A)
    attempt m s = let (r, s') = m s in (ok r, s')

  -- `if err != nil { return err }`
  abbrev pub check : Option Error → Io W (Unit {0})
  check none s = (ok tt, s)
  check (some e) s = (err e, s)

  -- A bind that answers: both parts did.
  pub >>=-ok :
      {A B : Type 0} (m : Io W A) (k : A → Io W B) (s : Run W) (b : B)
      → ((m >>= k) s).0 ≡ ok b
      → (a : A) × ((k a (m s).1).0 ≡ ok b)
  >>=-ok {A} {B} m k s b e = go (m s).0 e
    where
      go : (r : Result A) → (proceed k r (m s).1).0 ≡ ok b → (a : A) × ((k a (m s).1).0 ≡ ok b)
      go (ok a) h = (a, h)
      go (err x) h = absurd (cc)

  -- `P` holds of an answer and of the run behind it.
  abbrev pub Ensures : {A : Type 0} → (A → Run W → Type 0) → Io W A → Run W → Type 0
  Ensures P m s = (a : _) → (m s).0 ≡ ok a → P a (m s).1

  pub >>=-Ensures :
      {A B : Type 0} (Q : A → Run W → Type 0) (P : B → Run W → Type 0) (m : Io W A) (k : A → Io W B)
      (s : Run W)
      → Ensures Q m s
      → ((a : A) (s' : Run W) → Q a s' → Ensures P (k a) s')
      → Ensures P (m >>= k) s
  >>=-Ensures {A} {B} Q P m k s first rest = go (m s).0 first
    where
      go :
          (r : Result A)
          → ((a : A) → r ≡ ok a → Q a (m s).1)
          → (b : B) → (proceed k r (m s).1).0 ≡ ok b
          → P b (proceed k r (m s).1).1
      go (ok a) q b e = rest a (m s).1 (q a refl) b e
      go (err x) q b e = absurd (cc)

  pub pure-Ensures :
      {A : Type 0} (P : A → Run W → Type 0) (a : A) (s : Run W) → P a s → Ensures P (pure a) s
  pure-Ensures P a s p b e = subst (λ x. P x s) (cc) p
