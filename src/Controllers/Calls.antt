-- ===== src/Controllers/Calls.antt =====
-- Sequences of calls: what it means to make them in order up to the first error, and which calls an
-- action makes. They describe the reconciler from outside; they are not part of its code.
use mathlib.Core.List.{append-nil, append_assoc}
use flink_on_k8s_operator.Base.{
  Option, none, some, Bool, true, false, if◌then◌else◌, ◌≡◌, refl, sym, ap, ◌∙◌, ◌⊎◌, inl, inr,
  List, [], ◌∷◌, ◌++◌, All, All-append,
}
use flink_on_k8s_operator.Base.Run
use flink_on_k8s_operator.Base.Run.{
  Run, done, panic, deref, Yields, Yields->>=, Yields-of_Yields, >>=-cong,
}
use flink_on_k8s_operator.Controllers.Effects.{
  Error, Call, Env, M, pure, ◌>>=◌, lift, and_then, ignore_not_found,
}

-- How the reconciler reads the answer to a call.
abbrev pub answer : Env → List Call → Call → Option Error
answer env log (Call.stop_job url) = env.stop log url
answer env log (Call.delete kind namespace name) =
    ignore_not_found (env.write log (Call.delete kind namespace name))
answer env log c = env.write log c

abbrev pub ask : Call → M (Option Error)
ask c env log = done (answer env log c, log ++ c ∷ [])

-- The calls in order, up to the first error.
unfoldable pub perform : List Call → M (Option Error)
perform [] = pure none
perform (c ∷ calls) = ask c >>= λ e. and_then e (perform calls)

pub perform-append :
    (xs ys : List Call) (env : Env) (log : List Call)
    → perform (xs ++ ys) env log ≡ (perform xs >>= λ e. and_then e (perform ys)) env log
unfolding perform
perform-append [] ys env log = refl
perform-append (c ∷ xs) ys env log =
    perform-append_from (perform-append xs ys env (log ++ c ∷ [])) (answer env log c)
  where
    perform-append_from :
        perform (xs ++ ys) env (log ++ c ∷ [])
          ≡ (perform xs >>= λ e. and_then e (perform ys)) env (log ++ c ∷ [])
        → (e : Option Error)
        → and_then e (perform (xs ++ ys)) env (log ++ c ∷ [])
          ≡ ((λ env log. and_then e (perform xs) env log) >>= λ e. and_then e (perform ys)) env
              (log ++ c ∷ [])
    perform-append_from h none = h
    perform-append_from h (some e) = refl

-- Two actions with the same runs.
abbrev pub Same : {A : Type 0} → M A → M A → Type 0
Same m n = (env : Env) (log : List Call) → m env log ≡ n env log

pub perform_nil : Same (pure none) (perform [])
unfolding perform
perform_nil env log = refl

pub perform_one : (c : Call) → Same (perform (c ∷ [])) (ask c)
unfolding perform
perform_one c env log = from (answer env log c)
  where
    from : (e : Option Error) → and_then e (pure none) env (log ++ c ∷ []) ≡ done (e, log ++ c ∷ [])
    from none = refl
    from (some e) = refl

-- Two steps that perform calls, the second only if the first had no error.
pub perform->>= :
    (m n : M (Option Error)) (xs ys : List Call)
    → Same m (perform xs)
    → Same n (perform ys)
    → Same (m >>= λ e. and_then e n) (perform (xs ++ ys))
perform->>= m n xs ys h k env log =
    ap (λ r. Run.◌>>=◌ r (λ (e, log'). and_then e n env log')) (h env log)
    ∙ >>=-cong (perform xs env log) (λ (e, log'). and_then e n env log')
        (λ (e, log'). and_then e (perform ys) env log') (λ (e, log'). then_same e log')
    ∙ sym (perform-append xs ys env log)
  where
    then_same :
        (e : Option Error) (log' : List Call)
        → and_then e n env log' ≡ and_then e (perform ys) env log'
    then_same none log' = k env log'
    then_same (some e) log' = refl

-- All the calls were made without an error, or those up to the one that failed.
abbrev pub IsPerformed : List Call → Env → List Call → Option Error × List Call → Type 0
IsPerformed calls env log (e, log') =
    ((e ≡ none) × (log' ≡ log ++ calls))
    ⊎ ((before after : List Call) × (c : Call) × (x : Error) × (calls ≡ before ++ c ∷ after)
        × (answer env (log ++ before) c ≡ some x)
        × (e ≡ some x)
        × (log' ≡ log ++ before ++ c ∷ []))

pub perform-IsPerformed :
    (calls : List Call) (env : Env) (log : List Call)
    → Yields (IsPerformed calls env log) (perform calls env log)
unfolding perform
perform-IsPerformed [] env log = inl (refl, sym (append-nil log))
perform-IsPerformed (c ∷ calls) env log =
    from (perform-IsPerformed calls env (log ++ c ∷ [])) (answer env log c) refl
  where
    later :
        (end : Option Error × List Call)
        → IsPerformed calls env (log ++ c ∷ []) end
        → IsPerformed (c ∷ calls) env log end
    later end (inl (f, g)) = inl (f, g ∙ append_assoc log (c ∷ []) calls)
    later end (inr (before, after, d, x, f, g, h, i)) = inr (
      c ∷ before,
      after,
      d,
      x,
      ap (λ l. c ∷ l) f,
      ap (λ l. answer env l d) (sym (append_assoc log (c ∷ []) before)) ∙ g,
      h,
      i ∙ ap (λ l. l ++ d ∷ []) (append_assoc log (c ∷ []) before),
    )

    from :
        Yields (IsPerformed calls env (log ++ c ∷ [])) (perform calls env (log ++ c ∷ []))
        → (e : Option Error) → answer env log c ≡ e
        → Yields (IsPerformed (c ∷ calls) env log) (and_then e (perform calls) env (log ++ c ∷ []))
    from k none h =
        Yields-of_Yields (IsPerformed calls env (log ++ c ∷ [])) (IsPerformed (c ∷ calls) env log) _
          k later
    from k (some x) h = inr (
      [],
      calls,
      c,
      x,
      refl,
      ap (λ l. answer env l c) (append-nil log) ∙ h,
      refl,
      ap (λ l. l ++ c ∷ []) (sym (append-nil log)),
    )

-- The action ends without a panic, and every call it makes has a property.
abbrev pub Added : {A : Type 0} → (Call → Type 0) → List Call → A × List Call → Type 0
Added P log (a, log') = (calls : List Call) × (log' ≡ log ++ calls) × All P calls

abbrev pub Calls : {A : Type 0} → (Call → Type 0) → M A → Env → List Call → Type 0
Calls P m env log = Yields (Added P log) (m env log)

pub Calls->>= :
    {A B : Type 0} (P : Call → Type 0) (m : M A) (k : A → M B) (env : Env) (log : List Call)
    → Calls P m env log
    → ((a : A) (log' : List Call) → Calls P (k a) env log')
    → Calls P (m >>= k) env log
Calls->>= P m k env log h next =
    Yields->>= (Added P log) (Added P log) (m env log) (λ (a, log'). k a env log') h
      λ (a, log') (xs, e, all).
        Yields-of_Yields (Added P log') (Added P log) (k a env log') (next a log')
          λ (b, log'') (ys, f, all'). (
            xs ++ ys,
            f ∙ ap (λ l. l ++ ys) e ∙ append_assoc log xs ys,
            All-append P xs ys all all',
          )

pub perform-Calls :
    (P : Call → Type 0) (calls : List Call) (env : Env) (log : List Call)
    → All P calls
    → Calls P (perform calls) env log
unfolding perform
perform-Calls P [] env log all = ([], sym (append-nil log), tt)
perform-Calls P (c ∷ calls) env log all =
    Calls->>= P (ask c) (λ e. and_then e (perform calls)) env log (c ∷ [], refl, (all.0, tt))
      λ e log'. after (λ log'. perform-Calls P calls env log' all.1) e log'
  where
    after :
        ((log' : List Call) → Calls P (perform calls) env log')
        → (e : Option Error) (log' : List Call) → Calls P (and_then e (perform calls)) env log'
    after k none log' = k log'
    after k (some e) log' = ([], sym (append-nil log'), tt)

-- A test between two actions.
pub Yields-if :
    {A : Type 0} (Q : A × List Call → Type 0) (b : Bool) (m n : M A) (env : Env) (log : List Call)
    → (b ≡ true → Yields Q (m env log))
    → (b ≡ false → Yields Q (n env log))
    → Yields Q ((if b then m else n) env log)
Yields-if Q true m n env log h k = h refl
Yields-if Q false m n env log h k = k refl

-- A dereference that does not panic.
pub deref_found :
    {A B : Type 0} (Q : B × List Call → Type 0) (o : Option A) (a : A) (k : A → M B) (env : Env)
    (log : List Call)
    → o ≡ some a
    → Yields Q (k a env log)
    → Yields Q ((lift (deref o) >>= k) env log)
deref_found Q o a k env log e h = rw e h
