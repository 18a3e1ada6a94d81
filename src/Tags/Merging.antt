-- ===== src/Tags/Merging.antt =====
-- What merging two tags does to the posts and to the counters.
use aca_social.Base.{
  ℕ, ◌≡◌, refl, sym, ◌∙◌, ap, subst, Bool, true, false, not, ◌&&◌, ◌||◌, some, List, [], ◌∷◌, ◌++◌,
  ◌==◌, arith, find?, replace, count, delete, map, includes, Bool-cases, inl, inr, find?-satisfies,
  find?-replace, find?-replace_other, ==_iff, ◌⊎◌,
}
use aca_social.Store.{
  Db, Tag, Discussion, tag_is, Result, ok, err, Ends, throw_if-Ends, transaction-Ends, fetch-Ends,
  modify-Ends, gets-Ends, pure-Ends,
}
use aca_social.Tags.Admin.{
  merge, move_tag, save_tag, merged_source, counted_target, also_tag, untag, without_tag, uses,
  is_merged,
}

includes-without_tag :
    (id k : ℕ) (ids : List ℕ) → includes (without_tag id ids) k ≡ (includes ids k && not (k == id))
unfolding delete
includes-without_tag id k [] = refl
includes-without_tag id k (x ∷ xs) = ground (arith, includes-without_tag id k xs)

includes-append :
    (k x : ℕ) (ids : List ℕ) → includes (ids ++ x ∷ []) k ≡ (includes ids k || (x == k))
includes-append k x [] = ground arith
includes-append k x (y ∷ ys) = ground (arith, includes-append k x ys)

uses-also_tag :
    (source target k : ℕ) (p : Discussion)
    → uses k (also_tag source target p) ≡ (uses k p || ((target == k) && uses source p))
uses-also_tag source target k p = elim (Bool-cases (uses source p && not (uses target p))) [
  | inl both ↦ rw both (includes-append k target p.tags ∙ ground arith)
  | inr kept ↦
      let same : uses k p ≡ (uses k p || ((target == k) && uses source p)) =
        present k kept (Bool-cases (target == k)) in
      rw kept same
]
  where
    present :
        (k : ℕ)
        → (uses source p && not (uses target p)) ≡ false
        → ((target == k) ≡ true) ⊎ ((target == k) ≡ false)
        → uses k p ≡ (uses k p || ((target == k) && uses source p))
    present k kept (inl e) =
        let same : target ≡ k = ground arith in
        subst (λ i. uses i p ≡ (uses i p || ((target == i) && uses source p))) same (ground arith)
    present k kept (inr e) = ground arith

-- The post after the two statements.
abbrev moved : ℕ → ℕ → Discussion → Discussion
moved source target p = untag source (also_tag source target p)

uses-moved :
    (source target k : ℕ) (p : Discussion)
    → uses k (moved source target p)
      ≡ ((uses k p || ((target == k) && uses source p)) && not (k == source))
uses-moved source target k p =
    includes-without_tag source k (also_tag source target p).tags
    ∙ ap (λ b. b && not (k == source)) (uses-also_tag source target k p)

map-moved :
    (source target k : ℕ) (f : Discussion → Bool) (ps : List Discussion)
    → ((p : Discussion) → uses k (moved source target p) ≡ f p)
    → map (uses k) (map (moved source target) ps) ≡ map f ps
map-moved source target k f [] h = refl
map-moved source target k f (p ∷ ps) h =
    ap (λ b. b ∷ map (uses k) (map (moved source target) ps)) (h p)
    ∙ ap (λ bs. f p ∷ bs) (map-moved source target k f ps h)

-- The posts afterwards: the target is on those that had either tag, the source on none, and every
-- other tag where it was.
pub record PostsMerged (source target : ℕ) (ps ps' : List Discussion) : Type 0 where
  pub to_target : map (uses target) ps' ≡ map (λ p. uses target p || uses source p) ps
  pub no_source : map (uses source) ps' ≡ map (λ p. false) ps
  pub others :
      (k : ℕ) → (k == source) ≡ false → (k == target) ≡ false → map (uses k) ps' ≡ map (uses k) ps

move_tag-PostsMerged :
    (source target : ℕ) (ps : List Discussion)
    → (source == target) ≡ false
    → PostsMerged source target ps (map (moved source target) ps)
move_tag-PostsMerged source target ps differ = record {
  to_target =
      map-moved source target target (λ p. uses target p || uses source p) ps
        λ p. uses-moved source target target p ∙ ground arith;
  no_source =
      map-moved source target source (λ p. false) ps
        λ p. uses-moved source target source p ∙ ground arith;
  others = λ k not_source not_target.
      map-moved source target k (uses k) ps λ p. uses-moved source target k p ∙ ground arith;
}

-- The tags afterwards.
pub record TagsMerged (source target : ℕ) (db : Db) : Type 0 where
  pub source_row : Tag
  pub source_found : find? (tag_is source) db.tags ≡ some source_row
  pub source_merged : is_merged source_row.status ≡ true
  pub source_into : source_row.merged_into_tag_id ≡ some target
  pub source_unused : source_row.usage_count ≡ 0
  pub target_row : Tag
  pub target_found : find? (tag_is target) db.tags ≡ some target_row
  pub target_counted : target_row.usage_count ≡ count (uses target) db.discussions

abbrev pub Merges : ℕ → ℕ → Db → Result (Tag × Tag) → Db → Type 0
Merges source target db (err e) db' = db' ≡ db
Merges source target db (ok _) db' =
    PostsMerged source target db.discussions db'.discussions × TagsMerged source target db'

abbrev saved_both : ℕ → Tag → Tag → List Tag → List Tag
saved_both target s t tags =
    replace (tag_is t.id) t (replace (tag_is s.id) (merged_source target s) tags)

both_found :
    (source target n : ℕ) (s t : Tag) (tags : List Tag)
    → (source == target) ≡ false
    → find? (tag_is source) tags ≡ some s
    → find? (tag_is target) tags ≡ some t
    → let tags' =
        replace
          (tag_is t.id)
          (record t { usage_count = n })
          (replace (tag_is s.id) (merged_source target s) tags) in
      (find? (tag_is source) tags' ≡ some (merged_source target s))
      × (find? (tag_is target) tags' ≡ some (record t { usage_count = n }))
both_found source target n s t tags differ found_s found_t =
    let is_s = find?-satisfies (tag_is source) tags s found_s in
    let is_t = find?-satisfies (tag_is target) tags t found_t in
    let id_s : s.id ≡ source = (==_iff s.id source).0 is_s in
    let id_t : t.id ≡ target = (==_iff t.id target).0 is_t in
    let merged = replace (tag_is source) (merged_source target s) tags in
    let s_there : find? (tag_is source) merged ≡ some (merged_source target s) =
      find?-replace (tag_is source) (merged_source target s) tags s found_s is_s in
    let t_there : find? (tag_is target) merged ≡ some t =
      find?-replace_other (tag_is source) (tag_is target) (merged_source target s) tags s found_s
        (ground arith) (ground arith)
      ∙ found_t in
    subst
      (λ i.
        let tags' =
          replace (tag_is t.id) (record t { usage_count = n })
            (replace (tag_is i) (merged_source target s) tags) in
        (find? (tag_is source) tags' ≡ some (merged_source target s))
        × (find? (tag_is target) tags' ≡ some (record t { usage_count = n })))
      (sym id_s)
      (subst
        (λ i.
          let tags' = replace (tag_is i) (record t { usage_count = n }) merged in
          (find? (tag_is source) tags' ≡ some (merged_source target s))
          × (find? (tag_is target) tags' ≡ some (record t { usage_count = n })))
        (sym id_t)
        (
          find?-replace_other (tag_is target) (tag_is source) (record t { usage_count = n }) merged
                t t_there (ground arith) (ground arith)
              ∙ s_there,
          find?-replace (tag_is target) (record t { usage_count = n }) merged t t_there is_t,
        ))

-- A merge of a tag into another that returns leaves the target on exactly the posts that had either
-- tag, the source on none, and every other tag where it was. The source is marked as merged into the
-- target, with no uses, and the counter of the target is the number of posts that have it. A merge
-- that throws writes nothing.
pub merge-Merges :
    (source target : ℕ) (db : Db)
    → let (r, db') = merge source target db in Merges source target db r db'
unfolding merge move_tag save_tag
merge-Merges source target db =
    let ends : Ends (Merges source target db) (merge source target db) =
      throw_if-Ends _ _ _ _ refl λ differ.
        transaction-Ends _ _ (λ e. refl)
          (fetch-Ends _ _ _ _ tt λ s found_s. fetch-Ends _ _ _ _ tt λ t found_t.
            throw_if-Ends _ _ _ _ tt λ allowed. modify-Ends _ _ _ (
              modify-Ends _ _ _ (
                gets-Ends _ _ _
                  (modify-Ends _ _ _ (pure-Ends _ _ (merged s t differ found_s found_t)))))) in
    ends.holds
  where
    merged :
        (s t : Tag)
        → (source == target) ≡ false
        → find? (tag_is source) db.tags ≡ some s
        → find? (tag_is target) db.tags ≡ some t
        → let moved_db = move_tag source target db in
          let saved = save_tag (merged_source target s) moved_db in
          let db' = save_tag (counted_target target t saved) saved in
          PostsMerged source target db.discussions db'.discussions × TagsMerged source target db'
    merged s t differ found_s found_t =
        let n = count (uses target) (map (moved source target) db.discussions) in
        let (s_row, t_row) = both_found source target n s t db.tags differ found_s found_t in
        (
          move_tag-PostsMerged source target db.discussions differ,
          record {
            source_row = merged_source target s;
            source_found = s_row;
            source_merged = refl;
            source_into = refl;
            source_unused = refl;
            target_row = record t { usage_count = n };
            target_found = t_row;
            target_counted = refl;
          },
        )
