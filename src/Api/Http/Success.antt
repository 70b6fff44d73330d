-- ===== src/Api/Http/Success.antt =====
-- What a handler did if its response is no error: each step that could have responded went on.
use go_passkey_auth.Prelude.{
  ℕ, Bool, true, false, ◌≡◌, ◌≢◌, refl, ap, String, Option, none, some, Option-cases, inl, inr, ◌⊎◌,
  arith,
}
use go_passkey_auth.Domain.{Result, ok, err, Err}
use go_passkey_auth.Platform.{Platform, World, Call, LogLine}
use go_passkey_auth.Platform.Library.{WebauthnLib}
use go_passkey_auth.Api.Http.{
  Body, Step, next, respond, Handler, ◌>>=◌, ◌>>◌, write_json, write_error, log_error,
  internal_error, refuse_if, or_else, attempt, message_of, code_messages, error_body, outcome,
  logged, gets,
}
use go_passkey_auth.Api.Http.Ensures.{Ensures, Answers, Ensures-or_else, Ensures-attempt}

abbrev pub is_error : {L : WebauthnLib} → Body L → Bool
is_error (error_body _ _) = true
is_error _ = false

abbrev pub Fails : {P : Platform} {A : Type 0} → Handler P A → Type 0
Fails {P} m = Ensures {P = P} (λ _. Unit {0}) (λ r. is_error r.body ≡ true) m

abbrev pub Succeeds : {P : Platform} → Step P ⊥ → Type 0
Succeeds s = is_error (outcome s).body ≡ false

module _ {P : Platform} where
  pub write_error-Fails :
      {A : Type 0} (status : ℕ) (code : String) → Fails {P = P} {A = A} (write_error status code)
  unfolding write_error write_json
  write_error-Fails {A = A} status code = record {
    at = λ w q. go (Option-cases (message_of code code_messages)) w;
  }
    where
      go :
          (message_of code code_messages ≡ none)
            ⊎ ((m : String) × (message_of code code_messages ≡ some m))
          → (w : World P)
          → Unit {0}
            × Answers {P = P} {A = A} (λ r. is_error r.body ≡ true) (write_error status code w).0
      go (inl e) w = (tt, rw (e, write_error) refl)
      go (inr (m, e)) w = (tt, rw (e, write_error) refl)

  pub log_error-Fails :
      {A : Type 0} (line : LogLine) (status : ℕ) (code : String)
      → Fails {P = P} {A = A} (log_error line status code)
  unfolding log_error
  log_error-Fails line status code = record {
    at = λ w q. (write_error-Fails status code).at (logged line w) q;
  }

  pub internal_error-Fails :
      {A : Type 0} (line : String) → Fails {P = P} {A = A} (internal_error line)
  unfolding internal_error
  internal_error-Fails line = log_error-Fails _ 500 "internal_error"

  -- A bind that yields a value ran both its parts to a value.
  pub bind-next :
      {A B : Type 0} (m : Handler P A) (f : A → Handler P B) (w : World P) {b : B}
      → ((m >>= f) w).0 ≡ next b
      → (a : A) × ((m w).0 ≡ next a)
        × ((f a (m w).1).0 ≡ next b)
        × (((m >>= f) w).1 ≡ (f a (m w).1).1)
  unfolding ◌>>=◌
  bind-next {A} {B} m f w {b} h = go (m w) h
    where
      go :
          (s : Step P A × World P)
          → let r : Step P B × World P = elim s.0 [
            | next a ↦ f a s.1
            | respond r ↦ (respond r, s.1)
          ] in
            r.0 ≡ next b → (a : A) × (s.0 ≡ next a) × ((f a s.1).0 ≡ next b) × (r.1 ≡ (f a s.1).1)
      go (next a, w) h = (a, refl, h, refl)
      go (respond r, w) h = cc

  pub seq-next :
      {A B : Type 0} (m : Handler P A) (k : Handler P B) (w : World P) {b : B}
      → ((m >> k) w).0 ≡ next b
      → (a : A) × ((m w).0 ≡ next a) × ((k (m w).1).0 ≡ next b) × (((m >> k) w).1 ≡ (k (m w).1).1)
  unfolding ◌>>◌
  seq-next m k w h = bind-next m (λ _. k) w h

  -- A handler that succeeds got past each step that fails by its response, and went on from there.
  pub bind-Runs :
      {A : Type 0} {m : Handler P A} (f : A → Handler P ⊥) (w : World P)
      → Fails m
      → Succeeds ((m >>= f) w).0
      → (a : A) × ((m w).0 ≡ next a) × Succeeds (f a (m w).1).0 × ((m >>= f) w ≡ f a (m w).1)
  unfolding ◌>>=◌
  bind-Runs {A} {m} f w fails h = go (m w) (fails.at w tt).1 h
    where
      go :
          (s : Step P A × World P)
          → Answers {P = P} (λ r. is_error r.body ≡ true) s.0
          → let r : Step P ⊥ × World P = elim s.0 [
            | next a ↦ f a s.1
            | respond r ↦ (respond r, s.1)
          ] in
            Succeeds r.0 → (a : A) × (s.0 ≡ next a) × Succeeds (f a s.1).0 × (r ≡ f a s.1)
      go (next a, w) k h = (a, refl, h, refl)
      go (respond r, w) k h = ground arith

  pub bind-Succeeds :
      {A : Type 0} {m : Handler P A} (f : A → Handler P ⊥) (w : World P)
      → Fails m
      → Succeeds ((m >>= f) w).0
      → (a : A) × ((m w).0 ≡ next a)
        × Succeeds (f a (m w).1).0
        × (((m >>= f) w).0 ≡ (f a (m w).1).0)
  bind-Succeeds f w fails h = let (a, e, k, s) = bind-Runs f w fails h in (a, e, k, ap (λ x. x.0) s)

  pub seq-Runs :
      {A : Type 0} {m : Handler P A} (k : Handler P ⊥) (w : World P)
      → Fails m
      → Succeeds ((m >> k) w).0
      → (a : A) × ((m w).0 ≡ next a) × Succeeds (k (m w).1).0 × ((m >> k) w ≡ k (m w).1)
  unfolding ◌>>◌
  seq-Runs k w fails h = bind-Runs (λ _. k) w fails h

  pub seq-Succeeds :
      {A : Type 0} {m : Handler P A} (k : Handler P ⊥) (w : World P)
      → Fails m
      → Succeeds ((m >> k) w).0
      → (a : A) × ((m w).0 ≡ next a) × Succeeds (k (m w).1).0 × (((m >> k) w).0 ≡ (k (m w).1).0)
  seq-Succeeds k w fails h =
      let (a, e, s, same) = seq-Runs k w fails h in (a, e, s, ap (λ x. x.0) same)

  -- What never yields a value.
  abbrev pub Ends : {A : Type 0} → Handler P A → Type 0
  Ends {A} m = (w : World P) (a : A) → (m w).0 ≢ next a

  pub write_error-Ends :
      {A : Type 0} (status : ℕ) (code : String) → Ends {A = A} (write_error status code)
  unfolding write_error write_json
  write_error-Ends status code w a h = elim (Option-cases (message_of code code_messages)) [
    | inl e ↦ ground (arith, e)
    | inr (m, e) ↦ ground (arith, e)
  ]

  pub log_error-Ends :
      {A : Type 0} (line : LogLine) (status : ℕ) (code : String)
      → Ends {A = A} (log_error line status code)
  unfolding log_error
  log_error-Ends line status code w = write_error-Ends status code (logged line w)

  pub internal_error-Ends : {A : Type 0} (line : String) → Ends {A = A} (internal_error line)
  unfolding internal_error
  internal_error-Ends line = log_error-Ends _ 500 "internal_error"

  pub or_else-next :
      {A : Type 0} (o : Option A) (failed : Handler P A) (w : World P) {a : A}
      → Ends failed
      → (or_else o failed w).0 ≡ next a
      → (o ≡ some a) × ((or_else o failed w).1 ≡ w)
  unfolding or_else
  or_else-next none failed w ends h = absurd (ends w _ h)
  or_else-next (some b) failed w ends h = (ground arith, refl)

  pub attempt-next :
      {A : Type 0} (call : Call P A) (on_error : Err → Handler P A) (w : World P) {a : A}
      → ((e : Err) → Ends (on_error e))
      → (attempt call on_error w).0 ≡ next a
      → ((call w).0 ≡ ok a) × ((attempt call on_error w).1 ≡ (call w).1)
  unfolding attempt
  attempt-next {A} call on_error w {a} ends h = go (call w) h
    where
      go :
          (s : Result A × World P)
          → let r : Step P A × World P = elim s.0 [
            | ok a ↦ (next a, s.1)
            | err e ↦ on_error e s.1
          ] in
            r.0 ≡ next a → (s.0 ≡ ok a) × (r.1 ≡ s.1)
      go (ok b, w) h = (ground arith, refl)
      go (err e, w) h = absurd (ends e w _ h)

  pub or_else-Fails :
      {A : Type 0} (o : Option A) {failed : Handler P A} → Fails failed → Fails (or_else o failed)
  or_else-Fails = λ o. Ensures-or_else o

  pub attempt-Fails :
      {A : Type 0} (call : Call P A) {on_error : Err → Handler P A}
      → ((e : Err) → Fails (on_error e))
      → Fails (attempt call on_error)
  attempt-Fails call h = Ensures-attempt (record { at = λ w q. tt }) h

  pub refuse_if-Fails :
      (b : Bool) (status : ℕ) (code : String) → Fails {P = P} (refuse_if b status code)
  unfolding refuse_if
  refuse_if-Fails true status code = write_error-Fails status code
  refuse_if-Fails false status code = record { at = λ w q. (q, tt) }

  pub refuse_if-next :
      (b : Bool) (status : ℕ) (code : String) (w : World P) {a : Unit {0}}
      → (refuse_if b status code w).0 ≡ next a
      → (b ≡ false) × ((refuse_if b status code w).1 ≡ w)
  unfolding refuse_if
  refuse_if-next true status code w h = absurd (write_error-Ends status code w _ h)
  refuse_if-next false status code w h = (refl, refl)

  pub gets-next :
      {A : Type 0} (f : World P → A) (w : World P) {a : A}
      → (gets f w).0 ≡ next a
      → (f w ≡ a) × ((gets f w).1 ≡ w)
  unfolding gets
  gets-next f w h = (ground arith, refl)
