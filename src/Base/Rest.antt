-- ===== src/Base/Rest.antt =====
-- What is left of a table when the rows of a key are deleted.
use Prim.Native.Nat.{◌+◌, ◌≤◌}
use mathlib.Core.Path.{◌≡◌, refl, subst}
use mathlib.Core.Logic.{inl, inr}
use mathlib.Core.Bool.{Bool, true, false}
use mathlib.Core.Option.{some}
use mathlib.Core.List.{List, [], ◌∷◌}
use native.Mathlib.Omega.{arith}
use aca_social.Base.Tests.{if◌then◌else◌, Bool-cases}
use aca_social.Base.Lists.{All}
use aca_social.Base.Tables.{find?, delete, count, any}
use aca_social.Base.Laws.{count-delete_le}

module _ {ℓ} {A : Type ℓ} where
  pub count_none : (q : A → Bool) (xs : List A) → any q xs ≡ false → count q xs ≡ 0
  unfolding any count
  count_none q [] h = refl
  count_none q (x ∷ xs) h = ground (arith, count_none q xs)

  pub count-delete_found :
      (p q : A → Bool) (xs : List A) (y : A)
      → find? p xs ≡ some y
      → q y ≡ true
      → count q (delete p xs) + 1 ≤ count q xs
  unfolding find? delete count
  count-delete_found p q [] y found h = absurd (cc)
  count-delete_found p q (x ∷ xs) y found h =
      ground (arith, count-delete_found p q xs y, count-delete_le p q xs)

module _ {ℓ κ} {A : Type ℓ} (P : A → Type κ) where
  pub All-find? : (p : A → Bool) (xs : List A) (y : A) → find? p xs ≡ some y → All P xs → P y
  unfolding find?
  All-find? p [] y found all = absurd (cc)
  All-find? p (x ∷ xs) y found (first, rest) = elim (Bool-cases (p x)) [
    | inl holds ↦ let same : x ≡ y = cc (rw holds at found) in subst P same first
    | inr fails ↦ All-find? p xs y (rw fails at found) rest
  ]

-- Where no row that is left passes `q`, nor `r` if `b`, what holds of the rows may use that.
module _ {ℓ κ μ} {A : Type ℓ} {P : A → Type κ} {Q : A → Type μ} (p q r : A → Bool) (b : Bool) where
  pub All-delete :
      (xs : List A)
      → ((x : A) → q x ≡ false → (b ≡ true → r x ≡ false) → P x → Q x)
      → count q (delete p xs) ≡ 0
      → (b ≡ true → count r (delete p xs) ≡ 0)
      → All P xs
      → All Q (delete p xs)
  unfolding delete count
  All-delete [] keeps no_q no_r all = tt
  All-delete (x ∷ xs) keeps no_q no_r (first, rest) =
      go (λ q_rest r_rest. All-delete xs keeps q_rest r_rest rest) (p x) no_q no_r
    where
      go :
          (count q (delete p xs) ≡ 0 → (b ≡ true → count r (delete p xs) ≡ 0) → All Q (delete p xs))
          → (c : Bool) → count q (if c then delete p xs else x ∷ delete p xs) ≡ 0
          → (b ≡ true → count r (if c then delete p xs else x ∷ delete p xs) ≡ 0)
          → All Q (if c then delete p xs else x ∷ delete p xs)
      go others true no_q no_r = others no_q no_r
      go others false no_q no_r =
          let fails : q x ≡ false = ground arith in
          (
            keeps x fails (λ e. let none_r = no_r e in ground (arith, none_r)) first,
            others (omega (arith, no_q)) (λ e. let none_r = no_r e in omega (arith, none_r)),
          )
