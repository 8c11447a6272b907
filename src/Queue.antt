-- ===== src/Queue.antt =====
-- src/modules/queue: the port (application/queue.port.ts) by its in-memory adapter
-- (infrastructure/queue.adapter.fake.ts). A job id is a prefix and the text of one or two values; two
-- of them are equal as texts exactly where prefix and values are.
use wedding_planner_backend.Prelude.{
  ℕ, List, Bool, any, ◌++◌, [], false, if◌then◌else◌, ◌∷◌, ◌==◌, true, ◌&&◌,
}

pub data JobId : Type 0 where
  invitation_job : ℕ → JobId
  rsvp_job : ℕ → ℕ → JobId
  verify_email_job : ℕ → JobId
  password_reset_job : ℕ → JobId
  password_changed_job : ℕ → JobId
  registration_notice_job : ℕ → JobId
  event_invite_job : ℕ → JobId

abbrev pub job_eq : JobId → JobId → Bool
job_eq (invitation_job a) (invitation_job b) = a == b
job_eq (rsvp_job a t) (rsvp_job b u) = a == b && t == u
job_eq (verify_email_job a) (verify_email_job b) = a == b
job_eq (password_reset_job a) (password_reset_job b) = a == b
job_eq (password_changed_job a) (password_changed_job b) = a == b
job_eq (registration_notice_job a) (registration_notice_job b) = a == b
job_eq (event_invite_job a) (event_invite_job b) = a == b
job_eq _ _ = false

pub record Encolado (D : Type 0) : Type 0 where
  pub job_id : JobId
  pub datos : D

module _ {D : Type 0} where
  unfoldable pub enqueue : JobId → D → List (Encolado D) → Bool × List (Encolado D)
  enqueue id datos cola =
      if any (λ e. job_eq e.job_id id) cola
      then (true, cola)
      else (true, cola ++ record { job_id = id; datos = datos } ∷ [])
