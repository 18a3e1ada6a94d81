-- ===== src/Academic/StatusCalls.antt =====
-- Overlapping calls of updateCurriculumStatus, services/academic-service/src/academic.service.ts: the
-- method has no transaction and no lock, so other calls may write between its checks and its write.
use aca_social.Base.{ℕ, Bool, false, Option, none, some, List, [], ◌∷◌, ◌==◌, find?, delete, any}
use aca_social.Service.{Result, ok, err}
use aca_social.Academic.{
  Curriculum, CurriculumStatus, Catalogue, curriculum_is, check_status, save_status,
}

-- A call that passed its checks and has not written yet.
pub record Waiting : Type 0 where
  pub call : ℕ
  pub row : Curriculum
  pub status : CurriculumStatus

pub record Calls : Type 0 where
  pub catalogue : Catalogue
  pub waiting : List Waiting

-- A call, with its number, the curriculum and the status, does its checks; or it writes.
pub data Step : Type 0 where
  checks : ℕ → ℕ → CurriculumStatus → Step
  saves : ℕ → Step

abbrev pub is_call : ℕ → Waiting → Bool
is_call n w = w.call == n

abbrev pub on_major : ℕ → Waiting → Bool
on_major major w = w.row.major_id == major

-- A call that throws is over.
unfoldable pub checked : ℕ → CurriculumStatus → Result Curriculum → Calls → Calls
checked n status (err e) s = s
checked n status (ok c) s = record s {
  waiting = record { call = n; row = c; status = status } ∷ s.waiting;
}

unfoldable pub saved : ℕ → Option Waiting → Calls → Calls
saved n none s = s
saved n (some w) s = record s {
  catalogue = save_status w.row w.status s.catalogue;
  waiting = delete (is_call n) s.waiting;
}

unfoldable pub step : Step → Calls → Calls
step (Step.checks n id status) s = checked n status (check_status id status s.catalogue).0 s
step (Step.saves n) s = saved n (find? (is_call n) s.waiting) s

unfoldable pub run : List Step → Calls → Calls
run [] s = s
run (t ∷ ts) s = run ts (step t s)

abbrev pub idle : Catalogue → Calls
idle db = record { catalogue = db; waiting = [] }

-- A call on the major of the curriculum waits.
abbrev pub is_waited_for : Option Curriculum → List Waiting → Bool
is_waited_for none ws = false
is_waited_for (some c) ws = any (on_major c.major_id) ws

-- The step starts a call while another one on the same major waits.
abbrev pub overlaps : Step → Calls → Bool
overlaps (Step.saves n) s = false
overlaps (Step.checks n id status) s =
    is_waited_for (find? (curriculum_is id) s.catalogue.curricula) s.waiting
