-- ===== src/Presenter/Anonymity.antt =====
-- What a reader learns about the author of an anonymous or deleted item.
use aca_social.Base.{
  ℕ, ◌≡◌, refl, sym, ◌∙◌, ap, true, false, not, List, [], ◌∷◌, select, map, is_id, ◌⊎◌, inl, inr,
  Bool-cases,
}
use aca_social.Store.{GatewayUser, Vote, TargetType}
use aca_social.Policy.{can_manage}
use aca_social.Presenter.{
  Item, Profile, Profiles, is_hidden, author_ids, profiles_of, own_votes, present, many, distinct,
}

-- The items differ at most in the author, of one that is anonymous or deleted, and the reader wrote
-- neither.
pub record IsDisguised (user : GatewayUser) (i j : Item) : Type 0 where
  pub hidden : is_hidden i ≡ true
  pub not_mine : is_id user.id i.author_id ≡ false
  pub not_mine_either : is_id user.id j.author_id ≡ false
  pub same : j ≡ record i { author_id = j.author_id }

abbrev pub LooksLike : GatewayUser → Item → Item → Type 0
LooksLike user i j = (i ≡ j) ⊎ IsDisguised user i j

-- Two lists, item by item.
abbrev pub AllLookLike : GatewayUser → List Item → List Item → Type 0
AllLookLike user [] [] = Unit
AllLookLike user (i ∷ is) (j ∷ js) = LooksLike user i j × AllLookLike user is js
AllLookLike user _ _ = ⊥

can_manage-other :
    (a b : ℕ) (user : GatewayUser)
    → is_id user.id a ≡ false
    → is_id user.id b ≡ false
    → can_manage a user ≡ can_manage b user
unfolding can_manage
can_manage-other a b user ea eb = rw (ea, eb) refl

present-other :
    (votes : List Vote) (profiles : List Profile) (user : GatewayUser) (type : TargetType)
    (i : Item) (author : ℕ)
    → is_hidden i ≡ true
    → is_id user.id i.author_id ≡ false
    → is_id user.id author ≡ false
    → present votes profiles user type i
      ≡ present votes profiles user type (record i { author_id = author })
unfolding present
present-other votes profiles user type i author hidden other either =
    let managed = can_manage-other i.author_id author user other either in
    rw (hidden, other, either, managed) refl

present-LooksLike :
    (votes : List Vote) (profiles : List Profile) (user : GatewayUser) (type : TargetType)
    (i j : Item)
    → LooksLike user i j
    → present votes profiles user type i ≡ present votes profiles user type j
present-LooksLike votes profiles user type i j (inl same) =
    ap (present votes profiles user type) same
present-LooksLike votes profiles user type i j (inr d) =
    present-other votes profiles user type i j.author_id d.hidden d.not_mine d.not_mine_either
    ∙ sym (ap (present votes profiles user type) d.same)

map-LooksLike :
    (votes : List Vote) (profiles : List Profile) (user : GatewayUser) (type : TargetType)
    (is js : List Item)
    → AllLookLike user is js
    → map (present votes profiles user type) is ≡ map (present votes profiles user type) js
map-LooksLike votes profiles user type [] [] a = refl
map-LooksLike votes profiles user type [] (j ∷ js) a = absurd a
map-LooksLike votes profiles user type (i ∷ is) [] a = absurd a
map-LooksLike votes profiles user type (i ∷ is) (j ∷ js) a =
    ap (λ v. v ∷ map (present votes profiles user type) is)
      (present-LooksLike votes profiles user type i j a.0)
    ∙ ap (λ vs. present votes profiles user type j ∷ vs)
        (map-LooksLike votes profiles user type is js a.1)

abbrev named : List Item → List ℕ
named items = map (λ i. i.author_id) (select (λ i. not (is_hidden i)) items)

named-hidden : (i : Item) (is : List Item) → is_hidden i ≡ true → named (i ∷ is) ≡ named is
unfolding select
named-hidden i is h = rw h refl

named-LooksLike :
    (user : GatewayUser) (is js : List Item) → AllLookLike user is js → named is ≡ named js
unfolding select
named-LooksLike user [] [] a = refl
named-LooksLike user [] (j ∷ js) a = absurd a
named-LooksLike user (i ∷ is) [] a = absurd a
named-LooksLike user (i ∷ is) (j ∷ js) (inl same, rest) =
    named_cons i is js (named-LooksLike user is js rest) ∙ ap (λ k. named (k ∷ js)) same
  where
    named_cons :
        (i : Item) (is js : List Item) → named is ≡ named js → named (i ∷ is) ≡ named (i ∷ js)
    named_cons i is js e = elim (Bool-cases (is_hidden i)) [
      | inl h ↦ rw h e
      | inr h ↦ rw h (ap (λ ids. i.author_id ∷ ids) e)
    ]
named-LooksLike user (i ∷ is) (j ∷ js) (inr d, rest) =
    named-hidden i is d.hidden
    ∙ named-LooksLike user is js rest
    ∙ sym (named-hidden j js (ap is_hidden d.same ∙ d.hidden))

-- Anonymity. Lists of items that differ only in the authors of anonymous or deleted items, neither of
-- which the reader is, are shown in the same way.
pub many-LooksLike :
    (profiles : Profiles) (votes : List Vote) (user : GatewayUser) (type : TargetType)
    (is js : List Item)
    → AllLookLike user is js
    → many profiles votes user type is ≡ many profiles votes user type js
unfolding many
many-LooksLike profiles votes user type is js alike =
    let asked =
      ap (λ ids. profiles_of profiles (distinct ids)) (named-LooksLike user is js alike) in
    map-LooksLike (own_votes user.id type votes) (profiles_of profiles (author_ids is)) user type is
      js alike
    ∙ ap (λ ps. map (present (own_votes user.id type votes) ps user type) js) asked
