-- ===== src/Controllers/FlinkClient/Polling.antt =====
-- The polling loop of `TakeSavepoint`: the calls it makes, and what its answer rests on.
use flink_on_k8s_operator.Base.{
  ◌↔◌, ℕ, zero, suc, ◌≤◌, String, Option, none, some, Bool, true, false, ◌≡◌, refl, sym, ap, ◌∙◌,
  ◌⊎◌, inl, inr, List, [], ◌∷◌, ◌++◌, arith, eq_iff,
}
use Prim.Native.String.{◌++◌ as str_append}
use mathlib.Core.Path.{subst}
use mathlib.Core.List.{append_assoc, append-nil}
use flink_on_k8s_operator.Base.Run.{Yields, Yields-of_Yields}
use flink_on_k8s_operator.Controllers.Effects.{
  Result, ok, err, Call, OperationJson, SavepointJson, Env,
}
use flink_on_k8s_operator.Controllers.FlinkClient.{
  SavepointStatus, Polled, new_status, job_url, trigger_savepoint, read_failure_cause,
  read_location, read_operation, read_status, read_reply, savepoint_url, get_savepoint_status,
  is_completed, poll_turn, poll_savepoint, await_savepoint, take_savepoint,
}

-- A completed status without an error.
abbrev pub IsCompleted : Polled → Type 0
IsCompleted (status, e) = (status.completed ≡ true) × (e ≡ none)

is_completed_iff : (polled : Polled) → (is_completed polled ≡ true) ↔ IsCompleted polled
unfolding is_completed
is_completed_iff (status, none) = ground arith
is_completed_iff (status, some e) = ground arith

module _ (url : String) where
  -- A poll and a pause of five seconds, n times over.
  abbrev pub waits : ℕ → List Call
  waits zero = []
  waits (suc n) = Call.poll_savepoint url ∷ Call.sleep 5 ∷ waits n

  -- Flink answered that the savepoint is completed, when asked after the calls of log.
  abbrev pub SaysCompleted : Env → List Call → Type 0
  SaysCompleted env log =
      (json : SavepointJson) × (env.poll log url ≡ ok json) × (json.status ≡ some (ok "COMPLETED"))

  -- Fewer than n polls without success, then one with it.
  abbrev pub Succeeds : Env → ℕ → List Call → Polled × List Call → Type 0
  Succeeds env n log (polled, log') =
      (k : ℕ) × (suc k ≤ n)
      × (log' ≡ log ++ waits k ++ Call.poll_savepoint url ∷ [])
      × IsCompleted polled
      × SaysCompleted env (log ++ waits k)

  abbrev pub GivesUp : ℕ → List Call → Polled × List Call → Type 0
  GivesUp n log (polled, log') = (log' ≡ log ++ waits n) × (¬ IsCompleted polled)

is_completed-read_operation :
    (status : SavepointStatus) (operation : Option (Result OperationJson))
    → is_completed (read_operation status operation) ≡ true
    → status.completed ≡ true
unfolding is_completed read_operation read_location read_failure_cause
is_completed-read_operation status operation h = ground arith

is_completed-read_status :
    (start : SavepointStatus) (status : Option (Result String))
    (operation : Option (Result OperationJson))
    → start.completed ≡ false
    → is_completed (read_status start (record { status = status; operation = operation })) ≡ true
    → status ≡ some (ok "COMPLETED")
unfolding is_completed read_status
is_completed-read_status start none operation e h =
    absurd (ground (arith, is_completed-read_operation start operation h))
is_completed-read_status start (some (err e')) operation e h = cc
is_completed-read_status start (some (ok id)) operation e h =
    ap (λ t. some (ok t)) ((eq_iff _ _).0 (is_completed-read_operation _ operation h))

is_completed-read_reply :
    (job_id trigger_id : String) (reply : Result SavepointJson)
    → is_completed (read_reply (new_status job_id trigger_id) reply) ≡ true
    → (json : SavepointJson) × (reply ≡ ok json) × (json.status ≡ some (ok "COMPLETED"))
unfolding is_completed read_reply
is_completed-read_reply job_id trigger_id (err e) h = cc
is_completed-read_reply job_id trigger_id (ok json) h =
    (json, refl, is_completed-read_status _ json.status json.operation refl h)

module _ (api_base_url job_id trigger_id : String) (env : Env) where
  abbrev url : String
  url = savepoint_url api_base_url job_id trigger_id

  abbrev Polls : ℕ → List Call → Polled × List Call → Type 0
  Polls n log end = Succeeds url env n log end ⊎ GivesUp url n log end

  shift :
      (log : List Call) (k : ℕ)
      → log ++ Call.poll_savepoint url ∷ [] ++ Call.sleep 5 ∷ [] ++ waits url k
        ≡ log ++ waits url (suc k)
  shift log k =
      append_assoc (log ++ Call.poll_savepoint url ∷ []) (Call.sleep 5 ∷ []) (waits url k)
      ∙ append_assoc log (Call.poll_savepoint url ∷ []) (Call.sleep 5 ∷ waits url k)

  Polls-suc :
      (n : ℕ) (log : List Call) (end : Polled × List Call)
      → Polls n (log ++ Call.poll_savepoint url ∷ [] ++ Call.sleep 5 ∷ []) end
      → Polls (suc n) log end
  Polls-suc n log end (inl (k, m, e, c, says)) = inl (
    suc k,
    ground arith,
    e ∙ ap (λ l. l ++ Call.poll_savepoint url ∷ []) (shift log k),
    c,
    subst (SaysCompleted url env) (shift log k) says,
  )
  Polls-suc n log end (inr (e, c)) = inr (e ∙ shift log n, c)

  poll_turn-Polls :
      (n : ℕ) (b : Bool) (polled : Polled) (log : List Call)
      → is_completed polled ≡ b
      → (b ≡ true → SaysCompleted url env log)
      → ((log' : List Call)
          → b ≡ false
          → Yields (Polls n log') (poll_savepoint n api_base_url job_id trigger_id polled env log'))
      → Yields (Polls (suc n) log) (
          poll_turn b polled
            (poll_savepoint n api_base_url job_id trigger_id polled)
            env
            (log ++ Call.poll_savepoint url ∷ []))
  unfolding poll_turn
  poll_turn-Polls n true polled log e says rest = inl (
    0,
    ground arith,
    ap (λ l. l ++ Call.poll_savepoint url ∷ []) (sym (append-nil log)),
    (is_completed_iff polled).0 e,
    rw append-nil (says refl),
  )
  poll_turn-Polls n false polled log e says rest =
      Yields-of_Yields (Polls n _) (Polls (suc n) log) _ (rest _ refl)
        λ end p. Polls-suc n log end p

  poll_savepoint-Polls :
      (n : ℕ) (last : Polled) (log : List Call)
      → is_completed last ≡ false
      → Yields (Polls n log) (poll_savepoint n api_base_url job_id trigger_id last env log)
  unfolding poll_savepoint get_savepoint_status
  poll_savepoint-Polls zero last log h =
      inr (sym (append-nil log), λ c. cc (h, (is_completed_iff last).1 c))
  poll_savepoint-Polls (suc n) last log h =
      poll_turn-Polls n _ (read_reply (new_status job_id trigger_id) (env.poll log url)) log refl
        (is_completed-read_reply job_id trigger_id _) λ log' e. poll_savepoint-Polls n _ log' e

-- The answer to the trigger, the calls from then on, and the result.
abbrev pub IsAwaited :
    String → String → Env → List Call → Result String → Polled × List Call → Type 0
IsAwaited api_base_url job_id env log (err e) (polled, log') = (log' ≡ log) × (polled.1 ≡ some e)
IsAwaited api_base_url job_id env log (ok id) end = Polls api_base_url job_id id env 12 log end

await_savepoint-IsAwaited :
    (api_base_url job_id : String) (env : Env) (log : List Call) (triggered : Result String)
    → Yields
        (IsAwaited api_base_url job_id env log triggered)
        (await_savepoint api_base_url job_id triggered env log)
unfolding await_savepoint
await_savepoint-IsAwaited api_base_url job_id env log (err e) = (refl, refl)
await_savepoint-IsAwaited api_base_url job_id env log (ok id) =
    poll_savepoint-Polls api_base_url job_id id env 12 (new_status job_id "", none) log refl

abbrev pub IsSavepoint : String → String → String → Env → List Call → Polled × List Call → Type 0
IsSavepoint api_base_url job_id dir env log =
    let url = str_append (job_url api_base_url job_id) "/savepoints" in
    IsAwaited api_base_url job_id env (log ++ Call.trigger_savepoint url dir ∷ [])
      (env.trigger log url dir)

-- Taking a savepoint ends without a panic after one trigger, whose error is returned with no poll;
-- or after it, fewer than twelve polls, each with its pause of five seconds, then one more poll to
-- which Flink answered that the savepoint is completed, and a completed status with no error is
-- returned; or after twelve polls with their pauses, and what is returned is not a completed status
-- without an error.
pub take_savepoint-IsSavepoint :
    (api_base_url job_id dir : String) (env : Env) (log : List Call)
    → Yields
        (IsSavepoint api_base_url job_id dir env log)
        (take_savepoint api_base_url job_id dir env log)
unfolding take_savepoint trigger_savepoint
take_savepoint-IsSavepoint api_base_url job_id dir env log =
    await_savepoint-IsAwaited api_base_url job_id env _ _
