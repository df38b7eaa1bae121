-- ===== src/QueueService/Renew.antt =====
-- `_renew_visibility_loop` of queue_service.py. The loop is a recursion on its wake-ups: for each,
-- the seconds since it started, as the event loop's clock reads them. It ends early when it is
-- cancelled, which is the end of the list. The flag is read before the sleep in the source, and here
-- after it, as nothing else writes it during the loop.
use claimsintelligence.Base.{
  ℕ, ◌*◌, ◌/◌, String, Bool, true, false, not, Option, none, some, List, [], ◌∷◌, leb, max,
  if◌then◌else◌, nat_key,
}
use claimsintelligence.Exec.{
  Exec, is_not_found, is_cancelled, pure, gets, modify, raise, catch, ◌>>=◌, ◌>>◌,
}
use claimsintelligence.Dict
use claimsintelligence.QueueService.State.{Config, update_message, Env, Service, perform}
use claimsintelligence.QueueService.Finalise.{new_receipt, track}

-- `visibility_s`, `sleep_s` and `max_lifetime_s`. The timeout is 30 or a multiple of 60, for which
-- `int(visibility_s * 0.6)` is exact.
unfoldable pub visibility_seconds : Config → ℕ
visibility_seconds c = max 30 (c.visibility_timeout_minutes * 60)

unfoldable pub renewal_sleep : Config → ℕ
unfolding visibility_seconds
renewal_sleep c = max 10 (visibility_seconds c * 3 / 5)

unfoldable pub max_lifetime : Config → ℕ
unfolding visibility_seconds
max_lifetime c = max (visibility_seconds c) (c.message_timeout_minutes * 60)

abbrev pub store_receipt : ℕ → String → Option String → Exec Service (Unit {0})
store_receipt w i (some p) = modify (track w i p)
store_receipt w i none = pure tt

module _ (env : Env) (w : ℕ) where
  -- One renewal; whether the loop goes on.
  unfoldable pub renew_once : Option (String × String) → Exec Service Bool
  renew_once none = pure true
  renew_once (some (i, p)) =
      catch
        (do
          config ← gets (λ (s : Service). s.config)
          r ← perform env (update_message i p (visibility_seconds config))
          store_receipt w i (new_receipt r)
          pure true)
        λ e. if is_not_found e then pure false else if is_cancelled e then raise e else pure true

  unfoldable pub renew_tracked : Exec Service Bool
  renew_tracked s =
      if s.main_queue then renew_once (Dict.get s.inflight_message w) s else pure true s

  unfoldable pub renew_visibility_loop : List ℕ → Exec Service (Unit {0})
  renew_visibility_loop [] = pure tt
  renew_visibility_loop (elapsed ∷ wakes) =
      let rest = renew_visibility_loop wakes in
      do
        config ← gets (λ (s : Service). s.config)
        running ← gets (λ (s : Service). s.is_running)
        if not running
            then pure tt
            else if leb (max_lifetime config) elapsed
            then pure tt
            else do go_on ← renew_tracked; if go_on then rest else pure tt
