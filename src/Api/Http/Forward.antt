-- ===== src/Api/Http/Forward.antt =====
-- A handler run step by step, from what each call returns.
use go_passkey_auth.Prelude.{◌≡◌, refl, ap, ◌∙◌, Option, some, arith}
use go_passkey_auth.Domain.{Result, ok, err, Err}
use go_passkey_auth.Platform.{Platform, World, Call}
use go_passkey_auth.Api.Http.{
  Response, Handler, Step, next, respond, ◌>>=◌, ◌>>◌, attempt, or_else, obtain,
}

module _ {P : Platform} where
  -- A step that goes on.
  pub bind_next :
      {A B : Type 0} (m : Handler P A) (f : A → Handler P B) (w : World P) {a : A} {u : World P}
      → m w ≡ (next a, u)
      → (m >>= f) w ≡ f a u
  unfolding ◌>>=◌
  bind_next {A} {B} m f w {a} {u} e = ap go e
    where
      go : Step P A × World P → Step P B × World P
      go s = elim s.0 [ next x ↦ f x s.1 | respond r ↦ (respond r, s.1) ]

  -- A step that responds ends the rest.
  pub bind_respond :
      {A B : Type 0} (m : Handler P A) (f : A → Handler P B) (w : World P) {x : Response P.lib}
      {u : World P}
      → m w ≡ (respond x, u)
      → (m >>= f) w ≡ (respond x, u)
  unfolding ◌>>=◌
  bind_respond {A} {B} m f w e = ap go e
    where
      go : Step P A × World P → Step P B × World P
      go s = elim s.0 [ next x ↦ f x s.1 | respond r ↦ (respond r, s.1) ]

  pub seq_next :
      {A B : Type 0} (m : Handler P A) (k : Handler P B) (w : World P) {a : A} {u : World P}
      → m w ≡ (next a, u)
      → (m >> k) w ≡ k u
  unfolding ◌>>◌
  seq_next m k w e = bind_next m (λ _. k) w e

  pub seq_respond :
      {A B : Type 0} (m : Handler P A) (k : Handler P B) (w : World P) {x : Response P.lib}
      {u : World P}
      → m w ≡ (respond x, u)
      → (m >> k) w ≡ (respond x, u)
  unfolding ◌>>◌
  seq_respond m k w e = bind_respond m (λ _. k) w e

  unfoldable pub attempted :
      {A : Type 0} → (Err → Handler P A) → Result A × World P → Step P A × World P
  attempted f (ok a, u) = (next a, u)
  attempted f (err e, u) = f e u

  pub attempt_run :
      {A : Type 0} (m : Call P A) (f : Err → Handler P A) (w : World P) {s : Result A × World P}
      → m w ≡ s
      → attempt m f w ≡ attempted f s
  unfolding attempt attempted
  attempt_run {A} m f w e = go (m w) ∙ ap (attempted f) e
    where
      go :
          (s : Result A × World P)
          → let t : Step P A × World P = elim s.0 [ ok a ↦ (next a, s.1) | err e ↦ f e s.1 ] in
            t ≡ attempted f s
      go (ok a, u) = refl
      go (err e, u) = refl

  pub or_else_run :
      {A : Type 0} (o : Option A) (f : Handler P A) (w : World P) {a : A}
      → o ≡ some a
      → or_else o f w ≡ (next a, w)
  unfolding or_else
  or_else_run o f w e = ground (arith, e)

  pub obtain_run :
      {A : Type 0} (call : World P → Option A × World P) (f : Handler P A) (w : World P) {a : A}
      {u : World P}
      → call w ≡ (some a, u)
      → obtain call f w ≡ (next a, u)
  unfolding obtain or_else
  obtain_run call f w e = ap (λ s. or_else s.0 f s.1) e
