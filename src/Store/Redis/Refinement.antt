-- ===== src/Store/Redis/Refinement.antt =====
-- internal/store/redis/challenge.go: the challenge store against what it promises, a map from session
-- ids to payloads with deadlines, from which a payload is taken once.
use go_passkey_auth.Prelude.{
  ℕ, ◌+◌, ◌≤◌, true, false, String, Option, none, some, ◌≡◌, ◌≢◌, refl, sym, ap, ◌∙◌, arith, inl,
  inr, ◌⊎◌, Bool-cases, List, [], ◌∷◌, All, ◌==◌, string_eq, eq_iff,
}
use go_passkey_auth.Domain.{other}
use go_passkey_auth.Platform.{Platform, World}
use go_passkey_auth.Platform.Redis.{Reply, value, nil, failed, IsRedis}
use go_passkey_auth.Store.Redis.Challenge.{save, take, saved, taken, challenge_key}
use go_passkey_auth.Store.Redis.Keys.{challenge_key_ne}
use go_passkey_auth.Store.Redis.Spec.{
  Challenges, live_at, put, Command, HasLifetime, saving, taking, waiting, refused_with,
  answer_taken, spec_step, spec_run, save_answer, take_answer, store_step, store_run, Answered,
}

-- From now on, the server holds what the map holds.
pub record Represents {P : Platform} (L : IsRedis P.redis) (w : World P) (m : Challenges)
    : Type 0 where
  pub at :
      (u : ℕ) (sid : String) → w.now ≤ u → L.view w.redis u (challenge_key sid) ≡ live_at u (m sid)

ne_of : (s t : String) → (s == t) ≡ false → s ≢ t
ne_of s t h e = ground (arith, eq_iff s t)

put_same :
    (sid key : String) (entry : Option (String × ℕ)) (m : Challenges)
    → (sid == key) ≡ true
    → put sid entry m key ≡ entry
put_same sid key entry m e = rw e refl

put_other :
    (sid key : String) (entry : Option (String × ℕ)) (m : Challenges)
    → (sid == key) ≡ false
    → put sid entry m key ≡ m key
put_other sid key entry m e = rw e refl

saved_reply : (r : Reply (Unit {0})) → save_answer (saved r) ≢ refused_with other → r ≡ value tt
saved_reply (value tt) good = refl
saved_reply nil good = absurd (good refl)
saved_reply failed good = absurd (good refl)

taken_cases :
    (r : Reply String)
    → take_answer (taken r) ≢ refused_with other
    → ((v : String) × (r ≡ value v)) ⊎ (r ≡ nil)
taken_cases (value v) good = inl (v, refl)
taken_cases nil good = inr refl
taken_cases failed good = absurd (good refl)

module _ {P : Platform} (L : IsRedis P.redis) where
  step-Represents :
      (c : Command) (w : World P) (m : Challenges)
      → Represents L w m
      → HasLifetime c
      → Answered (store_step c w).0
      → let s = spec_step c w.now m in
        ((store_step c w).0 ≡ s.0)
        × ((store_step c w).1.now ≡ s.1)
        × Represents L (store_step c w).1 s.2
  unfolding save take
  step-Represents (waiting n) w m h lasts good =
      (refl, refl, record { at = λ u sid (after : w.now + n ≤ u). h.at u sid (omega arith) })
  step-Represents (saving ttl sid p) w m h lasts good =
      let stored = saved_reply (P.redis.set w.now (challenge_key sid) p ttl w.redis).0 good.0 in
      (
        ap (λ r. save_answer (saved r) ∷ []) stored,
        refl,
        record { at = λ u key after. held stored u key after },
      )
    where
      held :
          (P.redis.set w.now (challenge_key sid) p ttl w.redis).0 ≡ value tt
          → (u : ℕ) (key : String) → w.now ≤ u
          → L.view (P.redis.set w.now (challenge_key sid) p ttl w.redis).1 u (challenge_key key)
            ≡ live_at u (put sid (some (p, w.now + ttl)) m key)
      held stored u key after = elim (Bool-cases (sid == key)) [
        | inl same ↦
            ap
              (λ k.
                L.view (P.redis.set w.now (challenge_key sid) p ttl w.redis).1 u (challenge_key k))
              (sym ((eq_iff sid key).0 same))
            ∙ L.set_value w.now u ttl (challenge_key sid) p w.redis lasts stored after
            ∙ ap (live_at u) (sym (put_same sid key (some (p, w.now + ttl)) m same))
        | inr differs ↦
            L.set_frame w.now u ttl (challenge_key sid) p (challenge_key key) w.redis
              (challenge_key_ne sid key (ne_of sid key differs))
            ∙ h.at u key after
            ∙ ap (live_at u) (sym (put_other sid key (some (p, w.now + ttl)) m differs))
      ]
  step-Represents (taking sid) w m h lasts good =
      let r = (P.redis.get_del w.now (challenge_key sid) w.redis).0 in
      elim (taken_cases r good.0) [
        | inl (v, e) ↦
            let (was, _) =
              L.get_del_value w.now w.now (challenge_key sid) v w.redis e (omega arith) in
            (
              ap (λ x. take_answer (taken x) ∷ []) e
                  ∙ ap (λ o. answer_taken o ∷ []) (sym was ∙ h.at w.now sid (omega arith)),
              refl,
              record {
                at =
                    held (λ u after.
                      (L.get_del_value w.now u (challenge_key sid) v w.redis e after).1);
              },
            )
        | inr e ↦
            let (was, _) = L.get_del_nil w.now w.now (challenge_key sid) w.redis e (omega arith) in
            (
              ap (λ x. take_answer (taken x) ∷ []) e
                  ∙ ap (λ o. answer_taken o ∷ []) (sym was ∙ h.at w.now sid (omega arith)),
              refl,
              record {
                at =
                    held (λ u after. (L.get_del_nil w.now u (challenge_key sid) w.redis e after).1);
              },
            )
      ]
    where
      held :
          ((u : ℕ)
            → w.now ≤ u
            → L.view (P.redis.get_del w.now (challenge_key sid) w.redis).1 u (challenge_key sid)
              ≡ none)
          → (u : ℕ) (key : String) → w.now ≤ u
          → L.view (P.redis.get_del w.now (challenge_key sid) w.redis).1 u (challenge_key key)
            ≡ live_at u (put sid none m key)
      held gone u key after = elim (Bool-cases (sid == key)) [
        | inl same ↦
            ap
              (λ k.
                L.view (P.redis.get_del w.now (challenge_key sid) w.redis).1 u (challenge_key k))
              (sym ((eq_iff sid key).0 same))
            ∙ gone u after
            ∙ ap (live_at u) (sym (put_same sid key none m same))
        | inr differs ↦
            L.get_del_frame w.now u (challenge_key sid) (challenge_key key) w.redis
              (challenge_key_ne sid key (ne_of sid key differs))
            ∙ h.at u key after
            ∙ ap (live_at u) (sym (put_other sid key none m differs))
      ]

  -- Over a server that behaves as documented and holds at the start what the map holds, a sequence
  -- of saves with lifetimes that are not zero, takes and waits, no call of which fails, gets the
  -- answers of the map: each payload until its deadline, and once.
  pub store_run-spec_run :
      (cs : List Command) (w : World P) (m : Challenges)
      → Represents L w m
      → All HasLifetime cs
      → All Answered (store_run cs w)
      → store_run cs w ≡ spec_run cs w.now m
  store_run-spec_run [] w m h lasts good = refl
  store_run-spec_run (c ∷ cs) w m h (lasts, last) (now, later) =
      let (same, clock, next) = step-Represents c w m h lasts now in
      ap (λ a. a ∷ store_run cs (store_step c w).1) same
      ∙ ap (λ rest. (spec_step c w.now m).0 ∷ rest)
          (store_run-spec_run cs (store_step c w).1 (spec_step c w.now m).2 next last later
            ∙ ap (λ t. spec_run cs t (spec_step c w.now m).2) clock)
