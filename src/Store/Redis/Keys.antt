-- ===== src/Store/Redis/Keys.antt =====
-- The three prefixes keep the keys of challenges, sessions and guests apart, and a key determines
-- what follows its prefix.
use Prim.Native.Char.{Char, code}
use Prim.Native.String.{◌++◌, ◌∷◌}
use text.Mathlib.TextLemmas.{cons-append, append_cancel_left}
use go_passkey_auth.Prelude.{String, ◌≡◌, ◌≢◌, sym, ap, ◌∙◌, arith}
use go_passkey_auth.Store.Redis.Challenge.{challenge_key}
use go_passkey_auth.Store.Redis.Session.{session_key}
use go_passkey_auth.Store.Redis.Guest.{guest_key}

-- Texts that differ in their first characters differ.
head_differs : (c d : Char) (p q s t : String) → code c ≢ code d → (c ∷ p) ++ s ≢ (d ∷ q) ++ t
head_differs c d p q s t ne e =
    ne (ap code (heads (sym (cons-append c p s) ∙ e ∙ cons-append d q t)))
  where
    heads : {a b : String} → ◌≡◌ {A = String} (c ∷ a) (d ∷ b) → c ≡ d
    heads h = cc

pub challenge_key_ne : (s t : String) → s ≢ t → challenge_key s ≢ challenge_key t
challenge_key_ne s t ne e = ne (append_cancel_left _ _ _ e)

pub session_key_ne : (s t : String) → s ≢ t → session_key s ≢ session_key t
session_key_ne s t ne e = ne (append_cancel_left _ _ _ e)

pub session_key-ne-guest_key : (s t : String) → session_key s ≢ guest_key t
session_key-ne-guest_key s t = head_differs _ _ _ _ s t (λ e. omega arith)

pub session_key-ne-challenge_key : (s t : String) → session_key s ≢ challenge_key t
session_key-ne-challenge_key s t = head_differs _ _ _ _ s t (λ e. omega arith)

pub guest_key-ne-challenge_key : (s t : String) → guest_key s ≢ challenge_key t
guest_key-ne-challenge_key s t = head_differs _ _ _ _ s t (λ e. omega arith)
