-- ===== src/Overview/Refresh/Stuck.antt =====
-- A refresh of the overview model that throws, and the calls of onRefresh after it.
use wazuh_dashboard_security.Base.{
  ℕ, String, Bool, true, false, List, [], ◌∷◌, ◌≡◌, refl, sym, ap, ◌∙◌, subst, if◌then◌else◌, arith,
}
use wazuh_dashboard_security.Json.{Json}
use wazuh_dashboard_security.Server.Client.{Outcome, return, throw}
use wazuh_dashboard_security.Overview.{Actor, Page, full_update}
use wazuh_dashboard_security.Overview.Refresh.{
  Step, and_next, followed_by, update_results, run_steps, steps, complete, on_refresh,
}
use wazuh_dashboard_security.Overview.Refresh.Frame.{
  steps-Keep, run_steps-Keeps, update_results-Keeps,
}

-- A call of onRefresh, and what answers it.
pub record Call : Type 0 where
  pub page : Page
  pub start : String
  pub stop : String
  pub aborted : ℕ → Bool

unfoldable pub refresh_all : List Call → Actor → Actor
unfolding on_refresh
refresh_all [] a = a
refresh_all (c ∷ cs) a = refresh_all cs (on_refresh c.page c.start c.stop c.aborted a).1

-- What the page shows, what was reported, and whom it was reported to, are the same.
pub record IsUntouched (before after : Actor) : Type 0 where
  pub model : after.overview_view_model ≡ before.overview_view_model
  pub notices : after.notices ≡ before.notices
  pub updates : after.updates ≡ before.updates
  pub progress : after.in_progress ≡ true

on_refresh-busy :
    (page : Page) (start stop : String) (aborted : ℕ → Bool) (a : Actor)
    → a.in_progress ≡ true
    → on_refresh page start stop aborted a
      ≡ (return tt, record a { start_time = start; end_time = stop })
unfolding on_refresh
on_refresh-busy page start stop aborted a busy =
    ap
      (λ b.
        if b
        then (return tt, record a { start_time = start; end_time = stop })
        else and_next
            (run_steps aborted 0 (steps page)
              (record a { start_time = start; end_time = stop; in_progress = true }))
            (followed_by (update_results full_update 0 page.full_handlers) complete))
      busy

refresh_all-IsUntouched :
    (cs : List Call) (a : Actor) → a.in_progress ≡ true → IsUntouched a (refresh_all cs a)
unfolding refresh_all on_refresh
refresh_all-IsUntouched [] a busy = record {
  model = refl;
  notices = refl;
  updates = refl;
  progress = busy;
}
refresh_all-IsUntouched (c ∷ cs) a busy =
    let asked : Actor = record a { start_time = c.start; end_time = c.stop } in
    let later = refresh_all-IsUntouched cs asked busy in
    let busy_call = on_refresh-busy c.page c.start c.stop c.aborted a busy in
    subst (λ r. IsUntouched a (refresh_all cs r.1)) (sym busy_call)
      (record {
        model = later.model;
        notices = later.notices;
        updates = later.updates;
        progress = later.progress;
      })

module _ (page : Page) (start stop : String) (aborted : ℕ → Bool) (a : Actor) where
  -- Once a refresh throws (the detectors service rejects, or refuses without a reason, or a handler
  -- throws), no later call of onRefresh changes the model, reports anything or calls a handler,
  -- whatever its arguments and the services' answers: the actor stays in progress.
  pub on_refresh_stuck :
      (error : Json) (cs : List Call)
      → (on_refresh page start stop aborted a).0 ≡ throw error
      → IsUntouched
          (on_refresh page start stop aborted a).1
          (refresh_all cs (on_refresh page start stop aborted a).1)
  unfolding on_refresh
  on_refresh_stuck error cs thrown =
      refresh_all-IsUntouched cs (on_refresh page start stop aborted a).1
        (busy a.in_progress thrown)
    where
      asked : Actor
      asked = record a { start_time = start; end_time = stop }

      started : Actor
      started = record asked { in_progress = true }

      finish : Step
      finish = followed_by (update_results full_update 0 page.full_handlers) complete

      ends_busy :
          (r : Outcome (Unit {0}) × Actor)
          → r.1.in_progress ≡ true
          → (and_next r complete).0 ≡ throw error
          → (and_next r complete).1.in_progress ≡ true
      ends_busy (return done, b) h e = absurd (ground (arith, e))
      ends_busy (throw thrown, b) h e = h

      steps_busy :
          (r : Outcome (Unit {0}) × Actor)
          → r.1.in_progress ≡ true
          → (and_next r finish).0 ≡ throw error
          → (and_next r finish).1.in_progress ≡ true
      steps_busy (return done, b) h e =
          ends_busy (update_results full_update 0 page.full_handlers b)
            ((update_results-Keeps full_update 0 page.full_handlers b).progress ∙ h) e
      steps_busy (throw thrown, b) h e = h

      busy :
          (b : Bool)
          → (if b
              then (return tt, asked)
              else and_next (run_steps aborted 0 (steps page) started) finish).0
            ≡ throw error
          → (if b
              then (return tt, asked)
              else and_next (run_steps aborted 0 (steps page) started) finish).1.in_progress
            ≡ true
      busy true e = absurd (ground (arith, e))
      busy false e =
          steps_busy (run_steps aborted 0 (steps page) started)
            (run_steps-Keeps aborted 0 (steps page) (steps-Keep page) started).progress e
