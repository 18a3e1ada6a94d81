-- ===== src/Acceptance/Saving.antt =====
-- A post that is saved is the one that is found.
use aca_social.Base.{
  ℕ, ◌≡◌, sym, subst, true, false, some, List, ◌==◌, arith, find?, replace, find?-satisfies,
  find?-replace, find?-replace_other,
}
use aca_social.Store.{Discussion, post_is}

-- A found post has the identifier it was found by.
pub post_is-id : (id : ℕ) (p : Discussion) → post_is id p ≡ true → (p.id ≡ id) × (p.deleted ≡ false)
post_is-id id p h = ground arith

module _ (id : ℕ) (p p' : Discussion) (posts : List Discussion)
    (found : find? (post_is id) posts ≡ some p) (same_id : p'.id ≡ p.id) where
  pub saved_key : p'.id ≡ id
  saved_key = ground (arith, post_is-id id p (find?-satisfies (post_is id) posts p found))

  pub find?-save_post :
      p'.deleted ≡ p.deleted → find? (post_is id) (replace (post_is p'.id) p' posts) ≡ some p'
  find?-save_post same_deleted =
      subst (λ k. find? (post_is id) (replace (post_is k) p' posts) ≡ some p') (sym saved_key)
        (find?-replace (post_is id) p' posts p found
          (ground (arith, saved_key, post_is-id id p (find?-satisfies (post_is id) posts p found))))

  pub find?-save_post_other :
      (other : ℕ)
      → (other == id) ≡ false
      → find? (post_is other) (replace (post_is p'.id) p' posts) ≡ find? (post_is other) posts
  find?-save_post_other other differs =
      subst
        (λ k. find? (post_is other) (replace (post_is k) p' posts) ≡ find? (post_is other) posts)
        (sym saved_key)
        (find?-replace_other (post_is id) (post_is other) p' posts p found
          (ground (arith, saved_key, post_is-id id p (find?-satisfies (post_is id) posts p found)))
          (ground (arith, saved_key, post_is-id id p (find?-satisfies (post_is id) posts p found))))
