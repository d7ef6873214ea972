-- ===== src/Controllers/Reconciler/Round/Guards.antt =====
-- Every call that the step of the job can make, controllers/flinkcluster_reconciler.go.
use mathlib.Core.List.{append-nil, append_assoc}
use flink_on_k8s_operator.Base.{
  ℕ, zero, suc, String, Option, none, some, Bool, true, false, ◌≡◌, refl, sym, ap, ◌∙◌, inl, inr,
  List, [], ◌∷◌, ◌++◌, map, All, All-append, arith, ◌&&◌,
}
use flink_on_k8s_operator.Base.Run.{done, Yields-of_Yields}
use flink_on_k8s_operator.Api.{JobStatus, FlinkCluster}
use flink_on_k8s_operator.Controllers.Util.{get_flink_api_base_url}
use flink_on_k8s_operator.Controllers.Effects.{Error, Result, ok, err, Call, Env, M, pure, and_then}
use flink_on_k8s_operator.Controllers.FlinkClient.{Polled}
use flink_on_k8s_operator.Controllers.FlinkClient.Polling.{waits, IsAwaited, IsSavepoint}
use flink_on_k8s_operator.Controllers.Calls.{Added, Calls, Calls->>=}
use flink_on_k8s_operator.Controllers.Reconciler.Savepoints.{
  can_take_savepoint, save_job, stop_flink_job, save_first, cancel_flink_job,
}
use flink_on_k8s_operator.Controllers.Reconciler.Savepoints.Cancellation.{
  stop_call, IsFinished, IsSaved, save_job-IsSaved, stop_flink_job-stop, can_take_savepoint-has_dir,
}

-- The calls of savepoints and cancellations.
abbrev pub IsFlinkCall : Call → Type 0
IsFlinkCall (Call.stop_job url) = Unit
IsFlinkCall (Call.trigger_savepoint url dir) = Unit
IsFlinkCall (Call.poll_savepoint url) = Unit
IsFlinkCall (Call.sleep n) = Unit
IsFlinkCall (Call.update_status cluster) = Unit
IsFlinkCall _ = ⊥

module _ (P : Call → Type 0) (flink : (c : Call) → IsFlinkCall c → P c) where
  waits-All : (url : String) (n : ℕ) → All P (waits url n)
  waits-All url zero = tt
  waits-All url (suc n) =
      (flink (Call.poll_savepoint url) tt, (flink (Call.sleep 5) tt, waits-All url n))

  pub stop_calls-All : (url : String) (ids : List String) → All P (map (stop_call url) ids)
  stop_calls-All url [] = tt
  stop_calls-All url (id ∷ ids) = (flink (stop_call url id) tt, stop_calls-All url ids)

  -- One call more.
  Added-append :
      {A B : Type 0} (log middle log' : List Call) (a : A) (b : B) (calls : List Call)
      → Added P log (a, middle)
      → log' ≡ middle ++ calls
      → All P calls
      → Added P log (b, log')
  Added-append log middle log' a b calls (xs, e, all) f all' = (
    xs ++ calls,
    f ∙ ap (λ l. l ++ calls) e ∙ append_assoc log xs calls,
    All-append P xs calls all all',
  )

  IsSavepoint-Added :
      (url id dir : String) (env : Env) (log : List Call) (end : Polled × List Call)
      → IsSavepoint url id dir env log end
      → Added P log end
  IsSavepoint-Added url id dir env log (polled, log') saved = from _ (env.trigger log _ dir) saved
    where
      trigger : String → Call
      trigger u = Call.trigger_savepoint u dir

      from :
          (u : String) (r : Result String)
          → IsAwaited url id env (log ++ Call.trigger_savepoint u dir ∷ []) r (polled, log')
          → Added P log (polled, log')
      from u (err e) (f, g) = (trigger u ∷ [], f, (flink (trigger u) tt, tt))
      from u (ok i) (inl (k, m, f, c, says)) =
          Added-append log (log ++ trigger u ∷ [] ++ waits _ k) log' polled polled
            (Call.poll_savepoint _ ∷ [])
            (Added-append log (log ++ trigger u ∷ []) (log ++ trigger u ∷ [] ++ waits _ k) polled
              polled (waits _ k) (trigger u ∷ [], refl, (flink (trigger u) tt, tt)) refl
              (waits-All _ k))
            f (flink _ tt, tt)
      from u (ok i) (inr (f, c)) =
          Added-append log (log ++ trigger u ∷ []) log' polled polled (waits _ 12)
            (trigger u ∷ [], refl, (flink (trigger u) tt, tt)) f (waits-All _ 12)

  pub Calls-pure : {A : Type 0} (a : A) (env : Env) (log : List Call) → Calls P (pure a) env log
  Calls-pure a env log = ([], sym (append-nil log), tt)

  pub Calls-and_then :
      (e : Option Error) (m : M (Option Error)) (env : Env) (log : List Call)
      → Calls P m env log
      → Calls P (and_then e m) env log
  Calls-and_then none m env log h = h
  Calls-and_then (some e) m env log h = Calls-pure (some e) env log

  module _ (cluster : FlinkCluster) (url : String)
      (at : get_flink_api_base_url cluster ≡ done url) where
    stop_flink_job-Calls :
        (id : String) (env : Env) (log : List Call) → Calls P (stop_flink_job cluster id) env log
    stop_flink_job-Calls id env log =
        rw (stop_flink_job-stop cluster url at id env log)
          (stop_call url id ∷ [], refl, (flink (stop_call url id) tt, tt))

    IsFinished-Added :
        (job : JobStatus) (recorded : cluster.status.components.job ≡ some job) (env : Env)
        (polled : Polled) (log middle : List Call) (end : Option Error × List Call)
        → Added P log (polled, middle)
        → IsFinished cluster url at job recorded env polled middle end
        → Added P log end
    IsFinished-Added job recorded env polled log middle (e, log') h (inl (f, g, (c, saved, k, l))) =
        Added-append log middle log' polled e _ h k (flink _ tt, tt)
    IsFinished-Added job recorded env polled log middle (e, log') (xs, f, all) (inr (g, k, l)) =
        (xs, g ∙ f, all)

    pub save_job-Calls :
        (job : JobStatus) (id : String) (env : Env) (log : List Call)
        → cluster.status.components.job ≡ some job
        → can_take_savepoint cluster ≡ true
        → Calls P (save_job cluster id) env log
    save_job-Calls job id env log recorded can =
        let (spec, dir, given, there) =
          can_take_savepoint-has_dir cluster url at job recorded can in
        Yields-of_Yields (IsSaved cluster url at job recorded spec dir given there id env log)
          (Added P log) _
          (save_job-IsSaved cluster url at job recorded spec dir given there id env log)
          λ end (polled, middle, saved, finished).
            IsFinished-Added job recorded env polled log middle end
              (IsSavepoint-Added url id dir env log (polled, middle) saved) finished

    pub cancel_flink_job-Calls :
        (job : JobStatus) (id : String) (save : Bool) (env : Env) (log : List Call)
        → cluster.status.components.job ≡ some job
        → Calls P (cancel_flink_job cluster id save) env log
    unfolding cancel_flink_job
    cancel_flink_job-Calls job id save env log recorded =
        Calls->>= P (save_first cluster id (save && can_take_savepoint cluster))
          (λ e. and_then e (stop_flink_job cluster id)) env log (saved_first _ (λ h. ground arith))
          λ e log'.
            Calls-and_then e (stop_flink_job cluster id) env log' (stop_flink_job-Calls id env log')
      where
        saved_first :
            (b : Bool)
            → (b ≡ true → can_take_savepoint cluster ≡ true)
            → Calls P (save_first cluster id b) env log
        saved_first true h = save_job-Calls job id env log recorded (h refl)
        saved_first false h = Calls-pure {A = Option Error} none env log
