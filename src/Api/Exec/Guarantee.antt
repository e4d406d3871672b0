-- ===== src/Api/Exec/Guarantee.antt =====
-- What a method does to the state, whatever it returns: one rule for each way to build a method.
-- `R` relates the state before and after; `P` is what is known before and stays true along `R`.
use gachinol.Prelude.{◌≡◌, refl, Bool, true, false, List, [], ◌∷◌, if◌then◌else◌}
use gachinol.Api.Exec.{
  ApiErrorCode, Result, ok, err, Exec, pure, throw, lift, gets, attempt, transaction, when,
  keep_or_undo, continue, ◌>>=◌, for_each,
}

pub record Preorder {ℓ} {S : Type ℓ} (R : S → S → Type ℓ) : Type ℓ where
  pub reflexive : (s : S) → R s s
  pub transitive : (s t u : S) → R s t → R t u → R s u

abbrev pub Stable {ℓ} : {S : Type ℓ} → (S → S → Type ℓ) → (S → Type ℓ) → Type ℓ
Stable {S = S} R P = (s t : S) → R s t → P s → P t

pub record Guarantee {ℓ} {S A : Type ℓ} (R : S → S → Type ℓ) (P : S → Type ℓ) (m : Exec S A)
    : Type ℓ where
  pub at : (s : S) → P s → R s (m s).1

module _ {ℓ} {S : Type ℓ} {R : S → S → Type ℓ} (order : Preorder R) where
  keep_or_undo-R : {A : Type ℓ} (s : S) (o : Result A × S) → R s o.1 → R s (keep_or_undo s o).1
  keep_or_undo-R s (ok a, t) h = h
  keep_or_undo-R s (err e, t) h = order.reflexive s

  module _ {A : Type ℓ} {P : S → Type ℓ} where
    pub Guarantee-pure : (a : A) → Guarantee R P (pure a)
    unfolding pure
    Guarantee-pure a = record { at = λ s h. order.reflexive s }

    pub Guarantee-lift : (r : Result A) → Guarantee R P (lift r)
    unfolding lift
    Guarantee-lift r = record { at = λ s h. order.reflexive s }

    pub Guarantee-transaction : (m : Exec S A) → Guarantee R P m → Guarantee R P (transaction m)
    unfolding transaction
    Guarantee-transaction m g = record { at = λ s h. keep_or_undo-R s (m s) (g.at s h) }

    pub Guarantee-throw : (e : ApiErrorCode) → Guarantee R P (throw {A = A} e)
    unfolding throw
    Guarantee-throw e = record { at = λ s h. order.reflexive s }

    pub Guarantee-gets : (f : S → A) → Guarantee R P (gets f)
    unfolding gets
    Guarantee-gets f = record { at = λ s h. order.reflexive s }

    pub Guarantee-attempt : (m : Exec S A) → Guarantee R P m → Guarantee R P (attempt m)
    unfolding attempt
    Guarantee-attempt m g = record { at = λ s h. g.at s h }

    pub Guarantee-if :
        (b : Bool) (m n : Exec S A)
        → (b ≡ true → Guarantee R P m)
        → (b ≡ false → Guarantee R P n)
        → Guarantee R P (if b then m else n)
    Guarantee-if true m n g k = g refl
    Guarantee-if false m n g k = k refl

  pub Guarantee-when :
      {P : S → Type ℓ} (b : Bool) (m : Exec S (Unit {ℓ}))
      → Guarantee R P m
      → Guarantee R P (when b m)
  unfolding when
  Guarantee-when b m g = Guarantee-if b _ _ (λ _. g) (λ _. Guarantee-pure tt)

  module _ {A B : Type ℓ} {P : S → Type ℓ} where
    -- the rest may use that the check passed
    pub Guarantee-check :
        (r : Result A) (f : A → Exec S B)
        → ((a : A) → r ≡ ok a → Guarantee R P (f a))
        → Guarantee R P (lift r >>= f)
    unfolding ◌>>=◌
    Guarantee-check (ok a) f g = record { at = λ s h. (g a refl).at s h }
    Guarantee-check (err e) f g = record { at = λ s h. order.reflexive s }

    continue-R :
        (s : S) (o : Result A × S) (f : A → Exec S B)
        → R s o.1
        → P o.1
        → ((a : A) → Guarantee R P (f a))
        → R s (continue f o).1
    continue-R s (ok a, t) f h p g = order.transitive s t _ h ((g a).at t p)
    continue-R s (err e, t) f h p g = h

    pub Guarantee-bind :
        (m : Exec S A) (f : A → Exec S B)
        → Stable R P
        → Guarantee R P m
        → ((a : A) → Guarantee R P (f a))
        → Guarantee R P (m >>= f)
    unfolding ◌>>=◌
    Guarantee-bind m f stable g k = record {
      at = λ s h. continue-R s (m s) f (g.at s h) (stable s (m s).1 (g.at s h) h) k;
    }

  pub Guarantee-for_each :
      {A : Type ℓ} {P : S → Type ℓ} (xs : List A) (f : A → Exec S (Unit {ℓ}))
      → Stable R P
      → ((a : A) → Guarantee R P (f a))
      → Guarantee R P (for_each xs f)
  unfolding for_each
  Guarantee-for_each [] f stable g = Guarantee-pure tt
  Guarantee-for_each (a ∷ rest) f stable g =
      Guarantee-bind (f a) _ stable (g a) (λ _. Guarantee-for_each rest f stable g)
