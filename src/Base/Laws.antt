-- ===== src/Base/Laws.antt =====
-- Laws of the table operations, each with the test as a variable.
use Prim.Native.Nat.{◌+◌, ◌≤◌, ◌<◌}
use mathlib.Core.Path.{◌≡◌, refl}
use mathlib.Core.Bool.{Bool, true, false}
use mathlib.Core.Option.{none, some}
use mathlib.Core.List.{List, [], ◌∷◌, ◌++◌}
use native.Mathlib.Omega.{arith}
use aca_social.Base.Tests.{if◌then◌else◌}
use aca_social.Base.Lists.{All}
use aca_social.Base.Tables.{bit, find?, replace, count, delete, update, select}

module _ {ℓ} {A : Type ℓ} where
  pub find?-satisfies : (p : A → Bool) (xs : List A) (y : A) → find? p xs ≡ some y → p y ≡ true
  unfolding find?
  find?-satisfies p [] y h = cc
  find?-satisfies p (x ∷ xs) y h = ground (arith, find?-satisfies p xs y)

  pub find?-replace :
      (p : A → Bool) (z : A) (xs : List A) (y : A)
      → find? p xs ≡ some y
      → p z ≡ true
      → find? p (replace p z xs) ≡ some z
  unfolding find? replace
  find?-replace p z [] y h e = cc
  find?-replace p z (x ∷ xs) y h e = ground (arith, find?-replace p z xs y)

  -- Writing a row over leaves alone what is found by a test that fails on both versions.
  pub find?-replace_other :
      (p q : A → Bool) (z : A) (xs : List A) (y : A)
      → find? p xs ≡ some y
      → q y ≡ false
      → q z ≡ false
      → find? q (replace p z xs) ≡ find? q xs
  unfolding find? replace
  find?-replace_other p q z [] y h ey ez = refl
  find?-replace_other p q z (x ∷ xs) y h ey ez = ground (arith, find?-replace_other p q z xs y)

  pub find?-append :
      (p : A → Bool) (z : A) (xs : List A)
      → find? p xs ≡ none
      → p z ≡ true
      → find? p (xs ++ z ∷ []) ≡ some z
  unfolding find?
  find?-append p z [] h e = ground arith
  find?-append p z (x ∷ xs) h e = ground (arith, find?-append p z xs)

  pub find?-append_some :
      (p : A → Bool) (z : A) (xs : List A) (y : A)
      → find? p xs ≡ some y
      → find? p (xs ++ z ∷ []) ≡ some y
  unfolding find?
  find?-append_some p z [] y h = cc
  find?-append_some p z (x ∷ xs) y h = ground (arith, find?-append_some p z xs y)

  pub find?-append_other :
      (p : A → Bool) (z : A) (xs : List A) → p z ≡ false → find? p (xs ++ z ∷ []) ≡ find? p xs
  unfolding find?
  find?-append_other p z [] e = ground arith
  find?-append_other p z (x ∷ xs) e = ground (arith, find?-append_other p z xs)

  pub count-replace :
      (p q : A → Bool) (z : A) (xs : List A) (y : A)
      → find? p xs ≡ some y
      → count q (replace p z xs) + bit (q y) ≡ count q xs + bit (q z)
  unfolding find? replace count
  count-replace p q z [] y h = cc
  count-replace p q z (x ∷ xs) y h = ground (arith, count-replace p q z xs y)

  pub count-append :
      (q : A → Bool) (z : A) (xs : List A) → count q (xs ++ z ∷ []) ≡ count q xs + bit (q z)
  unfolding count
  count-append q z [] = omega arith
  count-append q z (x ∷ xs) = omega (arith, count-append q z xs)

  pub count_zero : (p : A → Bool) (xs : List A) → find? p xs ≡ none → count p xs ≡ 0
  unfolding find? count
  count_zero p [] h = refl
  count_zero p (x ∷ xs) h = ground (arith, count_zero p xs)

  pub count_pos : (p : A → Bool) (xs : List A) (y : A) → find? p xs ≡ some y → 0 < count p xs
  unfolding find? count
  count_pos p [] y h = cc
  count_pos p (x ∷ xs) y h = ground (arith, count_pos p xs y)

  -- An update after which no row that passed still passes.
  pub count-update_none :
      (p : A → Bool) (f : A → A) (xs : List A)
      → ((x : A) → p (f x) ≡ false)
      → count p (update p f xs) ≡ 0
  unfolding count update
  count-update_none p f [] h = refl
  count-update_none p f (x ∷ xs) h = ground (arith, h x, count-update_none p f xs h)

  pub count-update_same :
      (p q : A → Bool) (f : A → A) (xs : List A)
      → ((x : A) → p x ≡ true → q (f x) ≡ q x)
      → count q (update p f xs) ≡ count q xs
  unfolding count update
  count-update_same p q f [] h = refl
  count-update_same p q f (x ∷ xs) h = ground (arith, h x, count-update_same p q f xs h)

  -- A row that is missed by a test stays missed, when the row written over agrees on the test.
  pub find?-replace_absent :
      (p q : A → Bool) (z : A) (xs : List A) (y : A)
      → find? p xs ≡ some y
      → q z ≡ q y
      → find? q xs ≡ none
      → find? q (replace p z xs) ≡ none
  unfolding find? replace
  find?-replace_absent p q z [] y h e n = n
  find?-replace_absent p q z (x ∷ xs) y h e n = ground (arith, find?-replace_absent p q z xs y)

  pub count-append_le : (q : A → Bool) (z : A) (xs : List A) → count q xs ≤ count q (xs ++ z ∷ [])
  count-append_le q z xs = omega (arith, count-append q z xs)

  pub count-delete_other :
      (p q : A → Bool) (xs : List A)
      → ((x : A) → p x ≡ true → q x ≡ false)
      → count q (delete p xs) ≡ count q xs
  unfolding count delete
  count-delete_other p q [] h = refl
  count-delete_other p q (x ∷ xs) h = ground (arith, h x, count-delete_other p q xs h)

  pub find?-delete : (p : A → Bool) (xs : List A) → find? p (delete p xs) ≡ none
  unfolding find? delete
  find?-delete p [] = refl
  find?-delete p (x ∷ xs) = ground (arith, find?-delete p xs)

  pub count-delete : (p : A → Bool) (xs : List A) → count p (delete p xs) ≡ 0
  count-delete p xs = count_zero p (delete p xs) (find?-delete p xs)

  pub count-delete_le : (p q : A → Bool) (xs : List A) → count q (delete p xs) ≤ count q xs
  unfolding count delete
  count-delete_le p q [] = omega arith
  count-delete_le p q (x ∷ xs) = ground (arith, count-delete_le p q xs)

  pub count-eq : (p q : A → Bool) (xs : List A) → ((x : A) → p x ≡ q x) → count p xs ≡ count q xs
  unfolding count
  count-eq p q [] h = refl
  count-eq p q (x ∷ xs) h = ground (arith, h x, count-eq p q xs h)

  -- A row that passes another test is found by it, or one before it is.
  pub find?-found :
      (p q : A → Bool) (xs : List A) (y : A)
      → find? q xs ≡ some y
      → p y ≡ true
      → (z : A) × (find? p xs ≡ some z)
  unfolding find?
  find?-found p q [] y h e = absurd (cc)
  find?-found p q (x ∷ xs) y h e = first (p x) (q x) h refl λ found. find?-found p q xs y found e
    where
      first :
          (b c : Bool)
          → (if c then some x else find? q xs) ≡ some y
          → p x ≡ b
          → (find? q xs ≡ some y → (z : A) × (find? p xs ≡ some z))
          → (z : A) × ((if b then some x else find? p xs) ≡ some z)
      first true c found is rest = (x, refl)
      first false true found is rest = absurd (cc)
      first false false found is rest = rest found

  -- A row found by two tests, and written over by one, is found by the other.
  pub find?-replace_both :
      (p q : A → Bool) (z : A) (xs : List A) (y : A)
      → find? p xs ≡ some y
      → find? q xs ≡ some y
      → q z ≡ true
      → find? q (replace p z xs) ≡ some z
  unfolding find? replace
  find?-replace_both p q z [] y h g e = cc
  find?-replace_both p q z (x ∷ xs) y h g e = ground (
    arith,
    find?-replace_both p q z xs y,
    find?-satisfies p (x ∷ xs) y h,
    find?-satisfies q (x ∷ xs) y g,
  )

  -- An update of other rows leaves alone what is found.
  pub find?-update_other :
      (p q : A → Bool) (f : A → A) (xs : List A)
      → ((x : A) → p x ≡ true → q x ≡ false)
      → ((x : A) → p x ≡ true → q (f x) ≡ false)
      → find? q (update p f xs) ≡ find? q xs
  unfolding find? update
  find?-update_other p q f [] h g = refl
  find?-update_other p q f (x ∷ xs) h g = ground (arith, h x, g x, find?-update_other p q f xs h g)

  pub update-absent :
      (p : A → Bool) (f : A → A) (xs : List A) → All (λ x. p x ≡ false) xs → update p f xs ≡ xs
  unfolding update
  update-absent p f [] h = refl
  update-absent p f (x ∷ xs) h = ground (arith, h.0, update-absent p f xs h.1)

module _ {ℓ κ μ} {A : Type ℓ} {P : A → Type κ} {Q : A → Type μ} where
  pub All-map : (xs : List A) → ((x : A) → P x → Q x) → All P xs → All Q xs
  All-map [] h a = tt
  All-map (x ∷ xs) h a = (h x a.0, All-map xs h a.1)

  pub All-update :
      (p : A → Bool) (f : A → A) (xs : List A)
      → ((x : A) → p x ≡ true → P x → Q (f x))
      → ((x : A) → p x ≡ false → P x → Q x)
      → All P xs
      → All Q (update p f xs)
  unfolding update
  All-update p f [] yes_row no_row a = tt
  All-update p f (x ∷ xs) yes_row no_row a =
      (updated (p x) refl, All-update p f xs yes_row no_row a.1)
    where
      updated : (b : Bool) → p x ≡ b → Q (if b then f x else x)
      updated true e = yes_row x e a.0
      updated false e = no_row x e a.0

module _ {ℓ κ} {A : Type ℓ} (P : A → Type κ) where
  pub All-select : (p : A → Bool) (xs : List A) → All P xs → All P (select p xs)
  unfolding select
  All-select p [] a = tt
  All-select p (x ∷ xs) a = kept (p x) (All-select p xs a.1)
    where
      kept :
          (b : Bool)
          → All P (select p xs)
          → let rest = select p xs in All P (if b then x ∷ rest else rest)
      kept true rest = (a.0, rest)
      kept false rest = rest

  pub All_satisfies :
      (p : A → Bool) (xs : List A) → ((x : A) → p x ≡ true → P x) → All P (select p xs)
  unfolding select
  All_satisfies p [] h = tt
  All_satisfies p (x ∷ xs) h = kept (p x) refl (All_satisfies p xs h)
    where
      kept :
          (b : Bool)
          → p x ≡ b
          → All P (select p xs)
          → let rest = select p xs in All P (if b then x ∷ rest else rest)
      kept true e rest = (h x e, rest)
      kept false e rest = rest
