-- ===== src/Applications/Examples.antt =====
-- Runs of the application methods on small sessions.
use mathlib.Core.List.{map-append}
use mathlib.Core.Option
use job_ping.Base.{
  ℕ, ◌≡◌, refl, ◌+◌, Bool, true, false, ◌&&◌, none, some, [], ◌∷◌, map, arith, codes, is_space, leb,
  if◌then◌else◌, elem, nat_eq, Option, contains, ◌⊎◌, All, ok, err,
}
use job_ping.Applications.Models.{Status, Stage, Attempt, Job, Status-discrete, status_eq}
use job_ping.Applications.Secrets.Codes.{
  Unicode, has_code, contains_verification_secret, mentions, instruction_has_code,
}
use job_ping.Applications.Secrets.Strip.{UnicodeLaws}
use job_ping.Applications.Repository.Store.{Session, find_attempt, new_attempt, invalid_transition}
use job_ping.Applications.Service.{perform, Call, start_application}
use job_ping.Applications.Secrets.Runs.{has_code_run, digit_runs, has_code-runs}
use job_ping.Applications.Repository.Transition.{
  has_secret, apply_transition, no_details, transition_application,
}
use job_ping.Applications.Repository.Checkpoint.{at_checkpoint, update_application_checkpoint}
use job_ping.Applications.Lifecycle.Effect.{Moved, transition_err, transition_ok}
use job_ping.Applications.Lifecycle.Reach.{Reach, called, Reach-History, begin}
use job_ping.Applications.Lifecycle.Terminal.{submitted_forever}
use job_ping.Applications.Lifecycle.History.{History}
use job_ping.Applications.Lifecycle.Consistent.{IsConsistent, service-IsConsistent}
use job_ping.Applications.Lifecycle.Secrecy.{HoldsNoSecret, service_stores_no_secret}
use job_ping.Applications.Repository.Queue.{
  get_next_application, is_eligible, list_application_queue, eligible_jobs, is_newer,
}
use job_ping.Applications.Lifecycle.Order.{next_is_newest, IsWaiting, IsNoNewer}
use mathlib.Core.List.{Mem}

-- ASCII in place of the Unicode database.
abbrev ascii_decimal : ℕ → Bool
ascii_decimal c = leb 48 c && leb c 57

abbrev ascii_lower : ℕ → ℕ
ascii_lower c = if leb 65 c && leb c 90 then c + 32 else c

abbrev ascii : Unicode
ascii = record { is_decimal = ascii_decimal; casefold = map ascii_lower }

ascii_laws : UnicodeLaws ascii
unfolding is_space
ascii_laws = record {
  space_is_not_decimal = λ c h. ground arith;
  casefold-append = λ s t. map-append ascii_lower s t;
}

abbrev posting : Job
posting = record {
  id = 7;
  company = codes "Acme";
  title = codes "Intern";
  location = codes "Remote";
  apply_url = codes "https://acme.test/7";
  description = none;
  is_closed = false;
  created_at = 100;
}

abbrev closed_posting : Job
closed_posting = record posting { id = 8; is_closed = true }

abbrev empty_session : Session
empty_session = record {
  jobs = posting ∷ closed_posting ∷ [];
  attempts = [];
  answers = [];
  next_attempt_id = 1;
  next_answer_id = 1;
}

abbrev started : Session
started = perform ascii 5 7 (Call.start none) empty_session

-- Opens all that a run computes with.
abbrev first_row : Session → Option Status
first_row s = Option.map (λ (a : Attempt). a.status) (find_attempt 7 s.attempts)

started_row : first_row started ≡ some Status.in_progress
unfolding perform start_application elem Status-discrete has_secret instruction_has_code
    contains_verification_secret apply_transition at_checkpoint
started_row = refl

code_found : contains_verification_secret ascii (some (codes "OTP 123456")) ≡ true
unfolding contains_verification_secret has_code mentions contains
code_found = refl

abbrev row : Attempt
unfolding apply_transition
row = apply_transition 5 Status.in_progress no_details (new_attempt 1 7 5)

abbrev moved_session : Session
moved_session = record empty_session { attempts = row ∷ []; next_attempt_id = 2 }

start_returns :
    transition_application ascii 5 7 Status.in_progress no_details empty_session
    ≡ (ok row, moved_session)
unfolding transition_application elem Status-discrete has_secret instruction_has_code
    contains_verification_secret apply_transition
start_returns = refl

transition_ok_example :
    Moved ascii 5 7 Status.in_progress no_details empty_session row moved_session
transition_ok_example =
    transition_ok ascii 5 7 Status.in_progress no_details row empty_session moved_session
      start_returns

abbrev queued_session : Session
queued_session = record empty_session { attempts = new_attempt 1 7 5 ∷ []; next_attempt_id = 2 }

submit_raises :
    transition_application ascii 5 7 Status.submitted no_details empty_session
    ≡ (err invalid_transition, queued_session)
unfolding transition_application elem Status-discrete
submit_raises = refl

transition_err_example :
    (queued_session ≡ empty_session)
    ⊎ (find_attempt 7 [] ≡ none)
      × (queued_session
          ≡ record empty_session { attempts = new_attempt 1 7 5 ∷ []; next_attempt_id = 2 })
transition_err_example =
    transition_err ascii 5 7 Status.submitted no_details invalid_transition empty_session
      queued_session submit_raises

abbrev submitted_row : Attempt
submitted_row = record (new_attempt 1 7 5) {
  status = Status.submitted;
  checkpoint_stage = some Stage.submitted;
  submitted_at = some 9;
  attempt_count = 1;
  started_at = some 5;
}

abbrev submitted_session : Session
submitted_session = record queued_session { attempts = submitted_row ∷ [] }

after_reset : Reach ascii submitted_session (perform ascii 9 7 Call.reset submitted_session)
after_reset = called 9 7 Call.reset begin

submitted_forever_example :
    find_attempt 7 (perform ascii 9 7 Call.reset submitted_session).attempts ≡ some submitted_row
submitted_forever_example =
    submitted_forever 7 submitted_row submitted_session
      (perform ascii 9 7 Call.reset submitted_session) refl refl after_reset

Reach-History_example :
    History ascii submitted_session.attempts
      (perform ascii 9 7 Call.reset submitted_session).attempts
Reach-History_example = Reach-History after_reset

service-IsConsistent_example : All IsConsistent started.attempts
service-IsConsistent_example =
    service-IsConsistent empty_session started tt (called 5 7 (Call.start none) begin)

service_stores_no_secret_example : All (HoldsNoSecret ascii) started.attempts
service_stores_no_secret_example =
    service_stores_no_secret ascii ascii_laws empty_session started tt
      (called 5 7 (Call.start none) begin)

abbrev failed_row : Attempt
unfolding apply_transition
failed_row = apply_transition 5 Status.failed no_details (new_attempt 1 8 5)

fail_returns :
    transition_application ascii 5 8 Status.failed no_details empty_session
    ≡ (ok failed_row, record empty_session { attempts = failed_row ∷ []; next_attempt_id = 2 })
unfolding transition_application elem Status-discrete has_secret instruction_has_code
    contains_verification_secret apply_transition
fail_returns = refl

next_returns :
    get_next_application 5 empty_session ≡ (ok (some (new_attempt 1 7 5)), queued_session)
unfolding get_next_application elem Status-discrete eligible_jobs is_eligible is_newer
next_returns = refl

next_is_newest_example :
    (job : Job) × Mem job empty_session.jobs
    × IsWaiting empty_session job
    × All (λ j. IsWaiting empty_session j → IsNoNewer job j) empty_session.jobs
    × (7 ≡ job.id)
    × (Status.queued ≡ Status.queued)
    × (find_attempt job.id queued_session.attempts ≡ some (new_attempt 1 7 5))
next_is_newest_example =
    next_is_newest 5 (new_attempt 1 7 5) empty_session queued_session next_returns

list_returns :
    list_application_queue 5 empty_session ≡ (ok (new_attempt 1 7 5 ∷ []), queued_session)
unfolding list_application_queue elem Status-discrete eligible_jobs is_eligible is_newer
list_returns = refl

abbrev at_form : Attempt
unfolding at_checkpoint
at_form = at_checkpoint 6 none (some Stage.application_form) row

checkpoint_returns :
    update_application_checkpoint 6 7 none (some Stage.application_form) moved_session
    ≡ (ok at_form, record moved_session { attempts = at_form ∷ [] })
unfolding update_application_checkpoint elem Status-discrete at_checkpoint apply_transition
checkpoint_returns = refl

has_code-runs_example :
    has_code ascii_decimal (codes "PIN 4821")
    ≡ has_code_run (digit_runs ascii_decimal 0 (codes "PIN 4821"))
has_code-runs_example = has_code-runs ascii_decimal (codes "PIN 4821")
