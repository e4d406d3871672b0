-- ===== src/Api/Exec.antt =====
-- How a service method runs: it reads and writes the database and may throw. What it wrote before
-- it threw stays written, but for what a transaction wrote, which is rolled back.
-- `DomainException` is services/api/src/common/errors/domain.exception.ts; its message and details
-- are left out, its code is packages/shared/src/common/api-error.ts.
pub mod Guarantee
use gachinol.Prelude.{
  ◌≡◌, refl, Bool, true, false, Option, none, some, List, [], ◌∷◌, if◌then◌else◌,
}

pub data ApiErrorCode : Type 0 where
  validation_failed unauthorized forbidden not_found conflict invalid_transition internal :
      ApiErrorCode

pub data Result {ℓ} (A : Type ℓ) : Type ℓ where
  ok : A → Result A
  err : ApiErrorCode → Result A

abbrev pub Exec {ℓ} : Type ℓ → Type ℓ → Type ℓ
Exec S A = S → Result A × S

-- `null` answers 404, `if (!row) throw new DomainException('not_found')`.
abbrev pub or_404 {ℓ} : {A : Type ℓ} → Option A → Result A
or_404 none = err not_found
or_404 (some a) = ok a

module _ {ℓ} {S A : Type ℓ} where
  unfoldable pub pure : A → Exec S A
  pure a s = (ok a, s)

  unfoldable pub throw : ApiErrorCode → Exec S A
  throw e s = (err e, s)

  -- A computation that touches no state.
  unfoldable pub lift : Result A → Exec S A
  lift r s = (r, s)

  unfoldable pub gets : (S → A) → Exec S A
  gets f s = (ok (f s), s)

  abbrev keep_or_undo : S → Result A × S → Result A × S
  keep_or_undo s (ok a, s') = (ok a, s')
  keep_or_undo s (err e, s') = (err e, s)

  -- `try { … } catch (e) { log }`: the error is dropped, what was written stays.
  unfoldable pub attempt : Exec S A → Exec S (Unit {ℓ})
  attempt m s = (ok tt, (m s).1)

  -- `prisma.$transaction(async (tx) => …)`
  unfoldable pub transaction : Exec S A → Exec S A
  transaction m s = keep_or_undo s (m s)

-- `if (test) await m;`
unfoldable pub when {ℓ} : {S : Type ℓ} → Bool → Exec S (Unit {ℓ}) → Exec S (Unit {ℓ})
unfolding pure
when test m = if test then m else pure tt

module _ {ℓ} {S A B : Type ℓ} where
  abbrev pub continue : (A → Exec S B) → Result A × S → Result B × S
  continue f (ok a, s) = f a s
  continue f (err e, s) = (err e, s)

  infixl 5 ◌>>=◌ ◌>>◌
  -- Opening this opens the ways to build a method too.
  unfoldable pub ◌>>=◌ : Exec S A → (A → Exec S B) → Exec S B
  unfolding pure throw lift gets attempt transaction when
  ◌>>=◌ m f s = continue f (m s)

  abbrev pub ◌>>◌ : Exec S A → Exec S B → Exec S B
  m >> n = m >>= λ _. n

-- `for (const a of as) await f(a);`
unfoldable pub for_each {ℓ} : {S A : Type ℓ} → List A → (A → Exec S (Unit {ℓ})) → Exec S (Unit {ℓ})
unfolding pure ◌>>=◌
for_each [] f = pure tt
for_each (a ∷ rest) f = f a >> for_each rest f

-- `if (!test) throw new DomainException(code)`
abbrev pub require : Bool → ApiErrorCode → Result (Unit {0})
require true e = ok tt
require false e = err e

-- Statements in sequence, of a computation that touches no state.
abbrev pub then_check : Result (Unit {0}) → Result (Unit {0}) → Result (Unit {0})
then_check (ok _) r = r
then_check (err e) r = err e
