-- ===== src/Server/Held.antt =====
-- cmd/server/main.go: what a step of the process has opened and not closed.
use go_passkey_auth.Prelude.{
  ℕ, Bool, true, false, ◌≡◌, refl, ap, ◌∙◌, Option, none, some, List, [], ◌∷◌, ◌++◌, if◌then◌else◌,
  nat_beq,
}
use mathlib.Core.Option.{some-injective}
use go_passkey_auth.Config.{Config, Loaded, loaded, invalid, ServiceConfigErr}
use go_passkey_auth.Server.{
  Resource, migration_db, pool, redis_client, listener, Action, opened, closed, Failure,
  config_error, up_error, service_error, Outcome, done, failed, Proc, pinged, ◌>>=◌, ◌>>◌, finish,
  fail, need, perform, deferred, migrating, UpOutcome, migrated, no_change, up_failed, loading,
  built, listening,
}

abbrev code_of : Resource → ℕ
code_of migration_db = 0
code_of pool = 1
code_of redis_client = 2
code_of listener = 3

-- The stack of what is held, after one action. Only its top may be closed.
abbrev pub after_action : Action → List Resource → Option (List Resource)
after_action (opened r) s = some (r ∷ s)
after_action (closed r) [] = none
after_action (closed r) (q ∷ s) = if nat_beq (code_of r) (code_of q) then some s else none

-- What a sequence of actions leaves on a stack; `none` if one closes what is not on top.
abbrev pub held : List Resource → List Action → Option (List Resource)
held s [] = some s
held s (a ∷ t) = elim (after_action a s) [ none ↦ none | some u ↦ held u t ]

pub held-append :
    (s : List Resource) (t : List Action) (a : Action) {u : List Resource}
    → held s t ≡ some u
    → held s (t ++ a ∷ []) ≡ after_action a u
held-append s [] a {u} h = eta (after_action a s) ∙ ap (after_action a) (some-injective _ _ h)
  where
    eta : (o : Option (List Resource)) → (elim o [ none ↦ none | some v ↦ some v ]) ≡ o
    eta none = refl
    eta (some v) = refl
held-append s (b ∷ t) a {u} h = go (after_action b s) (λ v. held-append v t a) h
  where
    go :
        (o : Option (List Resource))
        → ((v : List Resource) → held v t ≡ some u → held v (t ++ a ∷ []) ≡ after_action a u)
        → let r : Option (List Resource) = elim o [ none ↦ none | some v ↦ held v t ] in
          r ≡ some u
          → let q : Option (List Resource) = elim o [
            | none ↦ none
            | some v ↦ held v (t ++ a ∷ [])
          ] in
            q ≡ after_action a u
    go none rest h = cc
    go (some v) rest h = rest v h

pub closed-top : (r : Resource) (s : List Resource) → after_action (closed r) (r ∷ s) ≡ some s
closed-top migration_db s = refl
closed-top pool s = refl
closed-top redis_client s = refl
closed-top listener s = refl

-- A part that gives back what it opened, on every path.
pub record Neutral {A : Type 0} (m : Proc A) : Type 0 where
  pub at : (t : List Action) (s : List Resource) → held [] t ≡ some s → held [] (m t).1 ≡ some s

abbrev pub Holds : {A : Type 0} → Resource → List Resource → Outcome A × List Action → Type 0
Holds r s (done _, t) = held [] t ≡ some (r ∷ s)
Holds r s (failed _, t) = held [] t ≡ some s

-- A part that opens one resource, or fails and holds nothing more.
pub record Opens {A : Type 0} (r : Resource) (m : Proc A) : Type 0 where
  pub at : (t : List Action) (s : List Resource) → held [] t ≡ some s → Holds r s (m t)

pub Neutral-bind :
    {A B : Type 0} {m : Proc A} {f : A → Proc B}
    → Neutral m
    → ((a : A) → Neutral (f a))
    → Neutral (m >>= f)
unfolding ◌>>=◌
Neutral-bind {A} {B} {m} {f} hm hf = record { at = λ t s h. go (m t) s (hm.at t s h) }
  where
    go :
        (x : Outcome A × List Action) (s : List Resource)
        → held [] x.1 ≡ some s
        → let r : Outcome B × List Action = elim x.0 [
          | done a ↦ f a x.1
          | failed e ↦ (failed e, x.1)
        ] in
          held [] r.1 ≡ some s
    go (done a, t) s h = (hf a).at t s h
    go (failed e, t) s h = h

pub Neutral-seq :
    {A B : Type 0} {m : Proc A} {k : Proc B} → Neutral m → Neutral k → Neutral (m >> k)
unfolding ◌>>◌
Neutral-seq hm hk = Neutral-bind hm (λ _. hk)

pub Neutral-finish : {A : Type 0} (a : A) → Neutral (finish a)
Neutral-finish a = record { at = λ t s h. h }

pub Neutral-fail : {A : Type 0} (e : Failure) → Neutral {A = A} (fail e)
Neutral-fail e = record { at = λ t s h. h }

pub Neutral-need : (b : Bool) (e : Failure) → Neutral (need b e)
Neutral-need true e = record { at = λ t s h. h }
Neutral-need false e = record { at = λ t s h. h }

pub Opens-perform : (r : Resource) → Opens r (perform (opened r))
Opens-perform r = record { at = λ t s h. held-append [] t (opened r) h }

pub Opens-seq :
    {A B : Type 0} {r : Resource} {m : Proc A} {k : Proc B}
    → Neutral m
    → Opens r k
    → Opens r (m >> k)
unfolding ◌>>◌ ◌>>=◌
Opens-seq {A} {B} {r} {m} {k} hm hk = record { at = λ t s h. go (m t) s (hm.at t s h) }
  where
    go :
        (x : Outcome A × List Action) (s : List Resource)
        → held [] x.1 ≡ some s
        → let y : Outcome B × List Action = elim x.0 [
          | done a ↦ k x.1
          | failed e ↦ (failed e, x.1)
        ] in
          Holds r s y
    go (done a, t) s h = hk.at t s h
    go (failed e, t) s h = h

-- Opened, and given back at once if the ping fails.
pub Opens-pinged :
    (r : Resource) (up : Bool) (e : Failure) → Opens r (perform (opened r) >> pinged r up e)
unfolding pinged ◌>>◌ ◌>>=◌
Opens-pinged r true e = Opens-perform r
Opens-pinged r false e = record {
  at = λ t s h.
      held-append [] (t ++ opened r ∷ []) (closed r) (held-append [] t (opened r) h)
      ∙ closed-top r s;
}

-- What is opened, and closed after the rest.
pub Neutral-deferred :
    {A B : Type 0} {r : Resource} {m : Proc A} {body : Proc B}
    → Opens r m
    → Neutral body
    → Neutral (m >> deferred r body)
unfolding ◌>>◌ ◌>>=◌
Neutral-deferred {A} {B} {r} {m} {body} hm hb = record { at = λ t s h. go (m t) s (hm.at t s h) }
  where
    go :
        (x : Outcome A × List Action) (s : List Resource)
        → Holds r s x
        → let y : Outcome B × List Action = elim x.0 [
          | done a ↦ deferred r body x.1
          | failed e ↦ (failed e, x.1)
        ] in
          held [] y.1 ≡ some s
    go (done a, t) s h = held-append [] (body t).1 (closed r) (hb.at t (r ∷ s) h) ∙ closed-top r s
    go (failed e, t) s h = h

pub Neutral-migrating : (u : UpOutcome) → Neutral (migrating u)
Neutral-migrating migrated = Neutral-finish tt
Neutral-migrating no_change = Neutral-finish tt
Neutral-migrating up_failed = Neutral-fail up_error

pub Neutral-loading : (l : Loaded Config) → Neutral (loading l)
Neutral-loading (loaded c) = Neutral-finish c
Neutral-loading (invalid e) = Neutral-fail (config_error e)

pub Neutral-built : (o : Option ServiceConfigErr) → Neutral (built o)
Neutral-built none = Neutral-finish tt
Neutral-built (some e) = Neutral-fail (service_error e)

pub Neutral-listening : Neutral listening
unfolding listening ◌>>◌ ◌>>=◌
Neutral-listening = record {
  at = λ t s h.
      held-append [] (t ++ opened listener ∷ []) (closed listener)
        (held-append [] t (opened listener) h)
      ∙ closed-top listener s;
}
