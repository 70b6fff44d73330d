-- ===== src/Api/Http/Ensures.antt =====
-- What a handler ensures, rule by rule: a property `Q` of the world that every path keeps, and a
-- property `R` of every response that a path ends in.
use go_passkey_auth.Prelude.{ℕ, Option, none, some, ◌≢◌, refl, List, ◌++◌, string_eq}
use go_passkey_auth.Domain.{Result, ok, err, Err}
use go_passkey_auth.Platform as Go
use go_passkey_auth.Platform.{Platform, World, Call, LogLine}
use go_passkey_auth.Api.Http.{
  Body, Response, Step, next, respond, Handler, ◌>>=◌, ◌>>◌, write_json, or_else, attempt, obtain,
  gets, gets_call, modify,
}
use go_passkey_auth.Platform.{error_line}

module _ {P : Platform} where
  abbrev pub Answers : {A : Type 0} → (Response P.lib → Type 0) → Step P A → Type 0
  Answers R (next _) = Unit
  Answers R (respond r) = R r

  abbrev pub Yields : {A : Type 0} → (Response P.lib → Type 0) → (A → Type 0) → Step P A → Type 0
  Yields R T (next a) = T a
  Yields R T (respond r) = R r

  -- What only responds yields whatever is wanted.
  pub Yields-of_Answers :
      {A : Type 0} (R : Response P.lib → Type 0) (T : A → Type 0) (s : Step P A)
      → ((a : A) → s ≢ next a)
      → Answers R s
      → Yields R T s
  Yields-of_Answers R T (next a) ends h = absurd (ends a refl)
  Yields-of_Answers R T (respond r) ends h = h

  pub record Ensures {A : Type 0} (Q : World P → Type 0) (R : Response P.lib → Type 0)
      (m : Handler P A) : Type 0 where
    pub at : (w : World P) → Q w → Q (m w).1 × Answers R (m w).0

  -- A call or an update of the world that keeps `Q`.
  pub record Preserves {A : Type 0} (Q : World P → Type 0) (m : World P → A × World P)
      : Type 0 where
    pub at : (w : World P) → Q w → Q (m w).1

  pub record Keeps (Q : World P → Type 0) (f : World P → World P) : Type 0 where
    pub at : (w : World P) → Q w → Q (f w)

  -- Logging is not seen by `Q`.
  pub record IgnoresLog (Q : World P → Type 0) : Type 0 where
    pub at : (lines : List LogLine) (w : World P) → Q w → Q (record w { log = w.log ++ lines })

  -- The bind of store calls.
  pub Preserves-bind :
      {A B : Type 0} {Q : World P → Type 0} (m : Call P A) (f : A → Call P B)
      → Preserves Q m
      → ((a : A) → Preserves Q (f a))
      → Preserves Q (Go.◌>>=◌ m f)
  Preserves-bind {A} {B} {Q} m f hm hf = record { at = λ w q. go (m w) (hm.at w q) }
    where
      go :
          (s : Result A × World P)
          → Q s.1
          → let r : Result B × World P = elim s.0 [ ok a ↦ f a s.1 | err e ↦ (err e, s.1) ] in Q r.1
      go (ok a, w) q = (hf a).at w q
      go (err e, w) q = q

  module _ {Q : World P → Type 0} {R : Response P.lib → Type 0} where
    pub Ensures-bind :
        {A B : Type 0} {m : Handler P A} {f : A → Handler P B}
        → Ensures Q R m
        → ((a : A) → Ensures Q R (f a))
        → Ensures Q R (m >>= f)
    unfolding ◌>>=◌
    Ensures-bind {A} {B} {m} {f} hm hf = record { at = λ w q. go (m w) (hm.at w q) }
      where
        go :
            (s : Step P A × World P)
            → Q s.1 × Answers R s.0
            → let r : Step P B × World P = elim s.0 [
              | next a ↦ f a s.1
              | respond r ↦ (respond r, s.1)
            ] in
              Q r.1 × Answers R r.0
        go (next a, w) h = (hf a).at w h.0
        go (respond r, w) h = h

    -- The bind where the first part's value has a property too.
    pub Ensures-bind_with :
        {A B : Type 0} (T : A → Type 0) (m : Handler P A) (f : A → Handler P B)
        → ((w : World P) → Q w → Q (m w).1 × Yields R T (m w).0)
        → ((a : A) → T a → Ensures Q R (f a))
        → Ensures Q R (m >>= f)
    unfolding ◌>>=◌
    Ensures-bind_with {A} {B} T m f hm hf = record { at = λ w q. go (m w) (hm w q) }
      where
        go :
            (s : Step P A × World P)
            → Q s.1 × Yields R T s.0
            → let r : Step P B × World P = elim s.0 [
              | next a ↦ f a s.1
              | respond r ↦ (respond r, s.1)
            ] in
              Q r.1 × Answers R r.0
        go (next a, w) h = (hf a h.1).at w h.0
        go (respond r, w) h = h

    pub Ensures-seq :
        {A B : Type 0} {m : Handler P A} {k : Handler P B}
        → Ensures Q R m
        → Ensures Q R k
        → Ensures Q R (m >> k)
    unfolding ◌>>◌
    Ensures-seq hm hk = Ensures-bind hm (λ _. hk)

    pub Ensures-write_json :
        {A : Type 0} (status : ℕ) (body : Body P.lib)
        → R (record { status = status; body = body })
        → Ensures {A = A} Q R (write_json status body)
    unfolding write_json
    Ensures-write_json status body h = record { at = λ w q. (q, h) }

    pub Ensures-gets : {A : Type 0} (f : World P → A) → Ensures Q R (gets f)
    unfolding gets
    Ensures-gets f = record { at = λ w q. (q, tt) }

    pub Ensures-modify : {f : World P → World P} → Keeps Q f → Ensures Q R (modify f)
    unfolding modify
    Ensures-modify h = record { at = λ w q. (h.at w q, tt) }

    pub Ensures-gets_call :
        {A : Type 0} {call : World P → A × World P}
        → Preserves Q call
        → Ensures Q R (gets_call call)
    unfolding gets_call
    Ensures-gets_call h = record { at = λ w q. (h.at w q, tt) }

    pub Ensures-or_else :
        {A : Type 0} (o : Option A) {failed : Handler P A}
        → Ensures Q R failed
        → Ensures Q R (or_else o failed)
    unfolding or_else
    Ensures-or_else none h = h
    Ensures-or_else (some a) h = record { at = λ w q. (q, tt) }

    pub Ensures-obtain :
        {A : Type 0} {call : World P → Option A × World P} {failed : Handler P A}
        → Preserves Q call
        → Ensures Q R failed
        → Ensures Q R (obtain call failed)
    unfolding obtain
    Ensures-obtain {call} {failed} hc hf = record {
      at = λ w q. (Ensures-or_else (call w).0 hf).at (call w).1 (hc.at w q);
    }

    pub Ensures-attempt :
        {A : Type 0} {call : Call P A} {on_error : Err → Handler P A}
        → Preserves Q call
        → ((e : Err) → Ensures Q R (on_error e))
        → Ensures Q R (attempt call on_error)
    unfolding attempt
    Ensures-attempt {A} {call} {on_error} hc he = record { at = λ w q. go (call w) (hc.at w q) }
      where
        go :
            (s : Result A × World P)
            → Q s.1
            → let r : Step P A × World P = elim s.0 [
              | ok a ↦ (next a, s.1)
              | err e ↦ on_error e s.1
            ] in
              Q r.1 × Answers R r.0
        go (ok a, w) q = (q, tt)
        go (err e, w) q = (he e).at w q
