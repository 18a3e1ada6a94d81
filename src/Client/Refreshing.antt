-- ===== src/Client/Refreshing.antt =====
-- What becomes of the requests that wait for a refresh.
use aca_social.Base.{
  ℕ, ◌≡◌, refl, sym, ◌∙◌, ap, subst, true, false, Option, none, some, List, [], ◌∷◌, ◌++◌, if-true,
}
use aca_social.Client.{
  Outcome, Answer, Page, Turn, on_unauthorized, all_with, settle_all, on_answer, on_ended, step,
  run,
}

-- The requests of these turns, in order.
unfoldable pub requests : List Turn → List ℕ
requests [] = []
requests (Turn.unauthorized id ∷ ts) = id ∷ requests ts
requests (Turn.ended _ ∷ ts) = requests ts

-- A refresh is awaited, by this request.
pub record IsAwaiting (leader : ℕ) (p : Page) : Type 0 where
  pub refreshing : p.is_refreshing ≡ true
  pub awaited : p.leader ≡ some leader

-- Requests that are answered with 401 meanwhile.
abbrev pub unauthorized_turns : List ℕ → List Turn
unauthorized_turns [] = []
unauthorized_turns (id ∷ ids) = Turn.unauthorized id ∷ unauthorized_turns ids

-- What the requests learn from an answer, none if there is no connection.
abbrev pub outcome_of : Option ℕ → Answer → Option Outcome
outcome_of none answer = some Outcome.rejected
outcome_of (some _) Answer.refused = some Outcome.rejected
outcome_of (some _) (Answer.tokenless token) = some Outcome.rejected
outcome_of (some _) (Answer.refreshed t) = some Outcome.retried
outcome_of (some _) Answer.unreachable = none

append_assoc : (xs ys zs : List ℕ) → (xs ++ ys) ++ zs ≡ xs ++ (ys ++ zs)
append_assoc [] ys zs = refl
append_assoc (x ∷ xs) ys zs = ap (λ r. x ∷ r) (append_assoc xs ys zs)

append_nil : (xs : List ℕ) → xs ++ [] ≡ xs
append_nil [] = refl
append_nil (x ∷ xs) = ap (λ r. x ∷ r) (append_nil xs)

queued :
    (id : ℕ) (p : Page)
    → p.is_refreshing ≡ true
    → on_unauthorized id p ≡ record p { pending_queue = p.pending_queue ++ id ∷ [] }
unfolding on_unauthorized
queued id p busy = if-true p.is_refreshing _ _ busy

ended_step :
    (answer : Answer) (leader : Option ℕ) (p : Page)
    → p.leader ≡ leader
    → step (Turn.ended answer) p ≡ on_ended answer leader p
unfolding step
ended_step answer leader p is = ap (λ l. on_ended answer l p) is

-- The page once all that waited has this outcome.
pub record IsSettled (o : Outcome) (leader : ℕ) (waiting : List ℕ) (p p' : Page) : Type 0 where
  pub idle : p'.is_refreshing ≡ false
  pub empty : p'.pending_queue ≡ []
  pub outcomes : p'.settled ≡ p.settled ++ (all_with o waiting ++ (leader, o) ∷ [])

on_answer-IsSettled :
    (token : Option ℕ) (answer : Answer) (o : Outcome) (leader : ℕ) (p : Page)
    → outcome_of token answer ≡ some o
    → IsSettled o leader p.pending_queue p (on_answer token answer leader p)
unfolding on_answer settle_all
on_answer-IsSettled none answer o leader p is =
    let same : Outcome.rejected ≡ o = cc in
    record {
      idle = refl;
      empty = refl;
      outcomes = ap (λ x. p.settled ++ (all_with x p.pending_queue ++ (leader, x) ∷ [])) same;
    }
on_answer-IsSettled (some _) Answer.refused o leader p is =
    let same : Outcome.rejected ≡ o = cc in
    record {
      idle = refl;
      empty = refl;
      outcomes = ap (λ x. p.settled ++ (all_with x p.pending_queue ++ (leader, x) ∷ [])) same;
    }
on_answer-IsSettled (some _) (Answer.tokenless token) o leader p is =
    let same : Outcome.rejected ≡ o = cc in
    record {
      idle = refl;
      empty = refl;
      outcomes = ap (λ x. p.settled ++ (all_with x p.pending_queue ++ (leader, x) ∷ [])) same;
    }
on_answer-IsSettled (some _) (Answer.refreshed t) o leader p is =
    let same : Outcome.retried ≡ o = cc in
    record {
      idle = refl;
      empty = refl;
      outcomes = ap (λ x. p.settled ++ (all_with x p.pending_queue ++ (leader, x) ∷ [])) same;
    }
on_answer-IsSettled (some _) Answer.unreachable o leader p is = absurd (cc)

-- When a refresh ends with an answer, every request that waits for it is settled. The requests that
-- were queued before, and those that are answered with 401 meanwhile, get the outcome of the refresh in
-- their order, and then the request that asked for it; the queue is empty, and the next 401 starts a
-- new refresh.
pub run-IsSettled :
    (ids : List ℕ) (leader : ℕ) (answer : Answer) (o : Outcome) (p : Page)
    → IsAwaiting leader p
    → outcome_of p.refresh_token answer ≡ some o
    → IsSettled o leader
        (p.pending_queue ++ ids)
        p
        (run (unauthorized_turns ids ++ Turn.ended answer ∷ []) p)
unfolding run step on_ended
run-IsSettled [] leader answer o p waits is =
    subst (λ x. IsSettled o leader (p.pending_queue ++ []) p x)
      (sym (ended_step answer (some leader) p waits.awaited))
      (subst (λ ws. IsSettled o leader ws p (on_answer p.refresh_token answer leader p))
        (sym (append_nil p.pending_queue))
        (on_answer-IsSettled p.refresh_token answer o leader p is))
run-IsSettled (id ∷ ids) leader answer o p waits is =
    let q : Page = record p { pending_queue = p.pending_queue ++ id ∷ [] } in
    let later : IsSettled o leader ((p.pending_queue ++ id ∷ []) ++ ids) q
        (run (unauthorized_turns ids ++ Turn.ended answer ∷ []) q) =
      run-IsSettled ids leader answer o q
        (record { refreshing = waits.refreshing; awaited = waits.awaited }) is in
    subst
      (λ x.
        IsSettled o leader (p.pending_queue ++ id ∷ ids) p
          (run (unauthorized_turns ids ++ Turn.ended answer ∷ []) x))
      (sym (queued id p waits.refreshing))
      (record {
        idle = later.idle;
        empty = later.empty;
        outcomes =
            later.outcomes
            ∙ ap (λ ws. p.settled ++ (all_with o ws ++ (leader, o) ∷ []))
                (append_assoc p.pending_queue (id ∷ []) ids);
      })

-- No refresh is awaited, and yet none is started.
record IsBlocked (p : Page) : Type 0 where
  refreshing : p.is_refreshing ≡ true
  nobody : p.leader ≡ none

blocked :
    (ts : List Turn) (p : Page)
    → IsBlocked p
    → ((run ts p).settled ≡ p.settled) × ((run ts p).pending_queue ≡ p.pending_queue ++ requests ts)
unfolding run step requests on_ended
blocked [] p b = (refl, sym (append_nil p.pending_queue))
blocked (Turn.unauthorized id ∷ ts) p b =
    let q : Page = record p { pending_queue = p.pending_queue ++ id ∷ [] } in
    let (same, longer) = blocked ts q (record { refreshing = b.refreshing; nobody = b.nobody }) in
    subst
      (λ x.
        ((run ts x).settled ≡ p.settled)
        × ((run ts x).pending_queue ≡ p.pending_queue ++ id ∷ requests ts))
      (sym (queued id p b.refreshing))
      ((same, longer ∙ append_assoc p.pending_queue (id ∷ []) (requests ts)))
blocked (Turn.ended answer ∷ ts) p b =
    subst
      (λ x.
        ((run ts x).settled ≡ p.settled)
        × ((run ts x).pending_queue ≡ p.pending_queue ++ requests ts))
      (sym (ended_step answer none p b.nobody)) (blocked ts p b)

-- When a refresh ends without a connection, only the request that asked for it is settled. Whatever
-- happens after that on the page, the requests that waited for the refresh, and all later ones that are
-- answered with 401, stay in the queue and are never settled.
pub unreachable-blocks :
    (leader token : ℕ) (p : Page) (ts : List Turn)
    → IsAwaiting leader p
    → p.refresh_token ≡ some token
    → let p' = run (Turn.ended Answer.unreachable ∷ ts) p in
      (p'.settled ≡ p.settled ++ (leader, Outcome.rejected) ∷ [])
      × (p'.pending_queue ≡ p.pending_queue ++ requests ts)
unfolding run step on_ended on_answer
unreachable-blocks leader token p ts waits stored =
    let q : Page = record p {
      leader = none;
      settled = p.settled ++ (leader, Outcome.rejected) ∷ [];
    } in
    let after : step (Turn.ended Answer.unreachable) p ≡ q =
      ended_step Answer.unreachable (some leader) p waits.awaited
      ∙ ap (λ t. on_answer t Answer.unreachable leader p) stored in
    subst
      (λ x.
        ((run ts x).settled ≡ p.settled ++ (leader, Outcome.rejected) ∷ [])
        × ((run ts x).pending_queue ≡ p.pending_queue ++ requests ts))
      (sym after) (blocked ts q (record { refreshing = waits.refreshing; nobody = refl }))
