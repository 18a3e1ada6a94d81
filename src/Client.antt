-- ===== src/Client.antt =====
-- frontend/src/lib/api/client.ts: how requests of a page that are answered with 401 share one refresh
-- of the access token. A step is a turn of the event loop.
pub mod Refreshing
use aca_social.Base.{
  ℕ, Bool, true, false, Option, none, some, List, [], ◌∷◌, ◌++◌, map, if◌then◌else◌,
}

-- What becomes of a request: it is sent again, or its promise is rejected.
pub data Outcome : Type 0 where
  retried rejected : Outcome

pub record Tokens : Type 0 where
  pub access_token : ℕ
  pub refresh_token : ℕ

-- The answer of /api/auth/refresh: none that can be read, so that `refreshAccessToken` throws, an error
-- status, a body without an access token (with the refresh token that it may have), or new tokens.
pub data Answer : Type 0 where
  unreachable refused : Answer
  tokenless : Option ℕ → Answer
  refreshed : Tokens → Answer

-- The variables of the module and the stored tokens. `leader` is the request whose call of
-- `refreshAccessToken` is awaited, and `settled` what became of the requests so far.
pub record Page : Type 0 where
  pub access_token : Option ℕ
  pub refresh_token : Option ℕ
  pub is_refreshing : Bool
  pub pending_queue : List ℕ
  pub leader : Option ℕ
  pub settled : List (ℕ × Outcome)

-- A request that is no retry is answered with 401, or the awaited refresh ends.
pub data Turn : Type 0 where
  unauthorized : ℕ → Turn
  ended : Answer → Turn

-- `apiFetch` after a 401
unfoldable pub on_unauthorized : ℕ → Page → Page
on_unauthorized id p =
    if p.is_refreshing
    then record p { pending_queue = p.pending_queue ++ id ∷ [] }
    else record p { is_refreshing = true; leader = some id }

abbrev pub all_with : Outcome → List ℕ → List (ℕ × Outcome)
all_with o ids = map (λ id. (id, o)) ids

-- The queue is settled in its order, and then the leader.
unfoldable pub settle_all : Outcome → ℕ → Page → Page
settle_all o leader p = record p {
  is_refreshing = false;
  pending_queue = [];
  leader = none;
  settled = p.settled ++ (all_with o p.pending_queue ++ (leader, o) ∷ []);
}

-- What `refreshAccessToken` does with the answer; without a refresh token it asks for none.
unfoldable pub on_answer : Option ℕ → Answer → ℕ → Page → Page
on_answer none answer leader p = settle_all Outcome.rejected leader p
on_answer (some _) Answer.refused leader p =
    settle_all Outcome.rejected leader (record p { access_token = none; refresh_token = none })
on_answer (some _) (Answer.tokenless token) leader p =
    settle_all Outcome.rejected leader (record p { access_token = none; refresh_token = token })
on_answer (some _) (Answer.refreshed t) leader p =
    settle_all Outcome.retried leader
      (record p { access_token = some t.access_token; refresh_token = some t.refresh_token })
on_answer (some _) Answer.unreachable leader p = record p {
  leader = none;
  settled = p.settled ++ (leader, Outcome.rejected) ∷ [];
}

unfoldable pub on_ended : Answer → Option ℕ → Page → Page
on_ended answer none p = p
on_ended answer (some leader) p = on_answer p.refresh_token answer leader p

unfoldable pub step : Turn → Page → Page
step (Turn.unauthorized id) p = on_unauthorized id p
step (Turn.ended answer) p = on_ended answer p.leader p

unfoldable pub run : List Turn → Page → Page
run [] p = p
run (t ∷ ts) p = run ts (step t p)
