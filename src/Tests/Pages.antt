-- ===== src/Tests/Pages.antt =====
-- The theorems on the refreshes of a page at concrete inputs.
use aca_social.Base.{◌≡◌, refl, true, some, [], ◌∷◌, ◌++◌}
use aca_social.Client.{Outcome, Answer, Page, Turn, run}
use aca_social.Client.Refreshing.{
  IsAwaiting, IsSettled, unauthorized_turns, requests, run-IsSettled, unreachable-blocks,
}

-- Request 1 refreshes, and request 2 waits.
abbrev page : Page
page = record {
  access_token = some 5;
  refresh_token = some 6;
  is_refreshing = true;
  pending_queue = 2 ∷ [];
  leader = some 1;
  settled = [];
}

page-IsAwaiting : IsAwaiting 1 page
page-IsAwaiting = record { refreshing = refl; awaited = refl }

abbrev answer : Answer
answer = Answer.refreshed (record { access_token = 7; refresh_token = 8 })

run-IsSettled_example :
    IsSettled Outcome.retried 1
      (2 ∷ 3 ∷ [])
      page
      (run (unauthorized_turns (3 ∷ []) ++ Turn.ended answer ∷ []) page)
run-IsSettled_example = run-IsSettled (3 ∷ []) 1 answer Outcome.retried page page-IsAwaiting refl

unreachable-blocks_example :
    let ts = Turn.unauthorized 4 ∷ Turn.ended answer ∷ [] in
    let p' = run (Turn.ended Answer.unreachable ∷ ts) page in
    (p'.settled ≡ (1, Outcome.rejected) ∷ []) × (p'.pending_queue ≡ 2 ∷ requests ts)
unreachable-blocks_example =
    unreachable-blocks 1 6 page (Turn.unauthorized 4 ∷ Turn.ended answer ∷ []) page-IsAwaiting refl
