-- ===== src/Tests/Tagging.antt =====
-- The theorems on tags at concrete inputs.
use aca_social.Base.{
  ℕ, ◌≡◌, refl, ◌⊎◌, true, none, some, Option, String, [], ◌∷◌, map, find?, replace, count, delete,
}
use aca_social.Mentions.{codes}
use aca_social.Tags.Admin.{
  merge, slug_of, is_slug, dash_runs, trim_start, trim_end, move_tag, save_tag, CreateTagDto,
  Unicode, slug_for, generate_slug, spell, slug_text, write_char,
}
use aca_social.Tags.Slugs.{slug_of-is_slug}
use aca_social.Tags.Merging.{Merges, merge-Merges}
use aca_social.Tests.Sample.{sample, question}
use aca_social.Store.{Db, Tag, TagStatus, steps}

slug_of-is_slug_example :
    (slug_of (codes "  c# & .net ") ≡ []) ⊎ (is_slug (slug_of (codes "  c# & .net ")) ≡ true)
slug_of-is_slug_example = slug_of-is_slug (codes "  c# & .net ")

slug_of_text : slug_of (codes " web dev ") ≡ codes "web-dev"
unfolding slug_of dash_runs trim_start trim_end
slug_of_text = refl

-- Texts in lower case and without accents, to which Unicode does nothing.
abbrev plain : Unicode
plain = record { lower = λ s. s; nfd = λ s. s }

abbrev named : String → Option String → CreateTagDto
named name slug = record { name = name; slug = slug; description = none }

generated :
    (slug_for plain (named "c++ & c#" none) ≡ "cpp-csharp")
    × (slug_for plain (named "c++ & c#" (some "")) ≡ "cpp-csharp")
    × (slug_for plain (named "c++ & c#" (some "c")) ≡ "c")
unfolding slug_for generate_slug spell slug_text write_char slug_of dash_runs trim_start trim_end
    delete
generated = (refl, refl, refl)

abbrev tag : ℕ → ℕ → Tag
tag id n = record {
  id = id;
  name = "t";
  slug = "t";
  description = none;
  usage_count = n;
  status = TagStatus.active;
  merged_into_tag_id = none;
}

-- One post with both tags, and one with the first only.
abbrev tagged : Db
tagged = record sample {
  tags = tag 1 2 ∷ tag 2 1 ∷ [];
  discussions =
      record question { tags = 1 ∷ 2 ∷ [] } ∷ record question { id = 6; tags = 1 ∷ [] } ∷ [];
}

merge-Merges_example : let (r, db') = merge 1 2 tagged in Merges 1 2 tagged r db'
merge-Merges_example = merge-Merges 1 2 tagged

both_posts : map (λ t. t.usage_count) (merge 1 2 tagged).1.tags ≡ 0 ∷ 2 ∷ []
unfolding merge move_tag save_tag steps find? replace count delete
both_posts = refl
