-- ===== src/Mentions.antt =====
-- services/discussion-service/src/common/mention.service.ts: the users whom a text names get an
-- event each, but for its author.
use Prim.Native.Char.{code}
use Prim.Native.String.{String}
use aca_social.Base.{
  ℕ, ◌-◌, Bool, true, false, not, ◌&&◌, ◌||◌, Option, none, some, List, [], ◌∷◌, ◌++◌, ◌==◌, leb,
  if◌then◌else◌, length,
}
use aca_social.Store.{Action, mention_created, pure, when, ◌>>◌}
use aca_social.Outbox.{emit}

abbrev pub codes : String → List ℕ
codes String.[] = []
codes (String.◌∷◌ c s) = code c ∷ codes s

-- `\s`
abbrev pub is_space : ℕ → Bool
is_space c =
    (leb 9 c && leb c 13)
    || ((c == 32)
        || ((c == 160)
            || ((c == 5760)
                || ((leb 8192 c && leb c 8202)
                    || ((c == 8232)
                        || ((c == 8233)
                            || ((c == 8239)
                                || ((c == 8287) || ((c == 12288) || (c == 65279))))))))))

-- `[a-zA-Z0-9_]`
abbrev pub is_word : ℕ → Bool
is_word c =
    (leb 97 c && leb c 122) || ((leb 65 c && leb c 90) || ((leb 48 c && leb c 57) || (c == 95)))

abbrev pub same_text : List ℕ → List ℕ → Bool
same_text [] [] = true
same_text (a ∷ xs) (b ∷ ys) = (a == b) && same_text xs ys
same_text _ _ = false

abbrev pub has_text : List ℕ → List (List ℕ) → Bool
has_text t [] = false
has_text t (u ∷ us) = same_text t u || has_text t us

-- The scan stands at the start or after a space, in other text, or in the name after an `@`.
pub data Scan : Type 0 where
  fresh other : Scan
  name : List ℕ → Scan

-- A name counts if its run of word characters has 3 to 20 of them.
abbrev pub keep_name : List ℕ → List (List ℕ) → List (List ℕ)
keep_name n found =
    if leb 3 (length n) && (leb (length n) 20 && not (has_text n found))
    then found ++ n ∷ []
    else found

-- `[...new Set([...content.matchAll(/(?:^|\s)@([a-zA-Z0-9_]{3,20})\b/g)].map((m) => m[1]))]`
unfoldable pub scan : Scan → List (List ℕ) → List ℕ → List (List ℕ)
scan (name n) found [] = keep_name n found
scan fresh found [] = found
scan other found [] = found
scan fresh found (c ∷ cs) =
    scan (if c == 64 then name [] else if is_space c then fresh else other) found cs
scan other found (c ∷ cs) = scan (if is_space c then fresh else other) found cs
scan (name n) found (c ∷ cs) =
    scan (if is_word c then name (n ++ c ∷ []) else if is_space c then fresh else other)
      (if is_word c then found else keep_name n found) cs

abbrev pub take : List (List ℕ) → ℕ → List (List ℕ)
take [] n = []
take (x ∷ xs) n = if n == 0 then [] else x ∷ take xs (n - 1)

unfoldable pub usernames : String → List (List ℕ)
unfolding scan
usernames content = take (scan fresh [] (codes content)) 20

-- The identity service's answer to `resolve-usernames`: the identifiers of the users that exist, or
-- nothing if it failed.
abbrev pub Identity : Type 0
Identity = List (List ℕ) → Option (List ℕ)

unfoldable pub emit_each : List ℕ → ℕ → ℕ → ℕ → Action (Unit {0})
emit_each [] author entity post = pure tt
emit_each (user ∷ users) author entity post = do
  when (not (user == author)) (emit (mention_created entity post user author))
  emit_each users author entity post

unfoldable pub emit_resolved : Option (List ℕ) → ℕ → ℕ → ℕ → Action (Unit {0})
emit_resolved none author entity post = pure tt
emit_resolved (some users) author entity post = emit_each users author entity post

abbrev pub resolve : Identity → List (List ℕ) → Option (List ℕ)
resolve identity [] = none
resolve identity (n ∷ ns) = identity (n ∷ ns)

unfoldable pub emit_mentions : Identity → String → ℕ → ℕ → ℕ → Action (Unit {0})
emit_mentions identity content author entity post =
    emit_resolved (resolve identity (usernames content)) author entity post
