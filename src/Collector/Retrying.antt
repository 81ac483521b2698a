-- ===== src/Collector/Retrying.antt =====
-- How long the agent waits between its attempts to connect.
use monis_agent.Common.{
  ℕ, zero, suc, ◌-◌, ◌≤◌, min, ◌≡◌, refl, ap, sym, ◌∙◌, List, [], ◌∷◌, ◌++◌, ◌||◌, some, Bool, true,
  false, if◌then◌else◌, arith, length, take, replicate,
}
use monis_agent.CollectorResponse
use monis_agent.CollectorResponse.{CollectorResponse}
use monis_agent.Collector.{
  nth, backoffs, Answer, Attempts, connect, done, again, is_success, is_final, back_off, conclude,
  count_error, retry, attempt_all,
}

-- The waits of a number of attempts, from one of them on.
waits : ℕ → ℕ → List ℕ
waits attempts zero = []
waits attempts (suc n) = nth (min attempts 6 - 1) backoffs ∷ waits (suc attempts) n

long_waits : (attempts n : ℕ) → 6 ≤ attempts → waits attempts n ≡ replicate n 300
unfolding waits
long_waits attempts zero h = refl
long_waits attempts (suc n) h =
    let index : min attempts 6 - 1 ≡ 5 = omega arith in
    rw (index, long_waits (suc attempts) n (omega arith)) refl

take-replicate : (n m a : ℕ) → n ≤ m → take n (replicate m a) ≡ replicate n a
take-replicate zero m a h = refl
take-replicate (suc n) zero a h = absurd (omega (arith, h))
take-replicate (suc n) (suc m) a h = ap (λ l. a ∷ l) (take-replicate n m a (omega (arith, h)))

-- The first of the waits are those of the list, and the others are of five minutes.
first_waits : (n : ℕ) → waits 1 n ≡ take n (15 ∷ 15 ∷ 30 ∷ 60 ∷ 120 ∷ replicate n 300)
unfolding waits
first_waits zero = refl
first_waits (suc zero) = refl
first_waits (suc (suc zero)) = refl
first_waits (suc (suc (suc zero))) = refl
first_waits (suc (suc (suc (suc zero)))) = refl
first_waits (suc (suc (suc (suc (suc n))))) =
    ap (λ l. 15 ∷ 15 ∷ 30 ∷ 60 ∷ 120 ∷ l)
      (long_waits 6 n (omega arith)
        ∙ sym (take-replicate n (suc (suc (suc (suc (suc n))))) 300 (omega arith)))

count_error-kept :
    (b : Bool) (ctx : Attempts)
    → ((count_error b ctx).max ≡ ctx.max) × ((count_error b ctx).attempts ≡ ctx.attempts)
count_error-kept true ctx = (refl, refl)
count_error-kept false ctx = (refl, refl)

module _ {P : Type 0} where
  -- Answers that neither end in success nor in a shutdown.
  abbrev pub AreRetried : List (Answer P) → Type 0
  AreRetried [] = Unit
  AreRetried (a ∷ answers) = (is_success a ≡ false) × (is_final a ≡ false) × AreRetried answers

  -- An answer to retry is retried after the wait of its attempt.
  retry-again :
      (ctx : Attempts) (a : Answer P)
      → ctx.max ≡ 6
      → is_success a ≡ false
      → is_final a ≡ false
      → (next : Attempts) × (next.max ≡ 6)
        × (next.attempts ≡ suc ctx.attempts)
        × (retry ctx a ≡ again (nth (min ctx.attempts 6 - 1) backoffs) next)
  unfolding retry conclude back_off
  retry-again ctx a m s f =
      let counted = count_error a.is_error ctx in
      let kept = count_error-kept a.is_error ctx in
      (
        record counted { attempts = suc counted.attempts },
        kept.0 ∙ m,
        ap suc kept.1,
        ap (λ b. conclude b (is_final a) counted a) s
            ∙ ap (λ b. conclude false b counted a) f
            ∙ ap
                (λ i.
                  again (nth (min i counted.max - 1) backoffs)
                    (record counted { attempts = suc counted.attempts }))
                kept.1
            ∙ ap
                (λ i.
                  again (nth (min ctx.attempts i - 1) backoffs)
                    (record counted { attempts = suc counted.attempts }))
                (kept.0 ∙ m),
      )

  -- The attempts are retried until one that is not.
  attempts-waits :
      (failures rest : List (Answer P)) (a : Answer P) (response : CollectorResponse P)
      (ctx : Attempts)
      → ctx.max ≡ 6
      → AreRetried failures
      → ((next : Attempts) → retry next a ≡ done response)
      → attempt_all ctx (failures ++ a ∷ rest)
        ≡ (waits ctx.attempts (length failures), some response)
  unfolding attempt_all waits
  attempts-waits [] rest a response ctx m h e = rw (e ctx, attempt_all) refl
  attempts-waits (b ∷ failures) rest a response ctx m h e =
      let one = retry-again ctx b m h.0 h.1 in
      rw (one.3, attempt_all)
        (ap (λ r. (nth (min ctx.attempts 6 - 1) backoffs ∷ r.0, r.1))
            (attempts-waits failures rest a response one.0 one.1 h.2 e)
          ∙ ap
              (λ i.
                (nth (min ctx.attempts 6 - 1) backoffs ∷ waits i (length failures), some response))
              one.2)

  concludes :
      (success final : Bool) (ctx : Attempts) (a : Answer P)
      → (success || final) ≡ true
      → conclude success final ctx a
        ≡ done (
            if success
            then CollectorResponse.success a.payload
            else CollectorResponse.fatal a.payload)
  unfolding conclude
  concludes true final ctx a e = refl
  concludes false true ctx a e = refl
  concludes false false ctx a e = cc

  ends :
      (ctx : Attempts) (a : Answer P)
      → (is_success a || is_final a) ≡ true
      → retry ctx a
        ≡ done (
            if is_success a
            then CollectorResponse.success a.payload
            else CollectorResponse.fatal a.payload)
  unfolding retry
  ends ctx a e = concludes (is_success a) (is_final a) (count_error a.is_error ctx) a e

  -- However often an attempt to connect fails with an answer that is not a shutdown, the agent tries
  -- again: the callback is called only after the first attempt that succeeds or is answered by a
  -- shutdown, with a response that says which, and the waits in between are 15, 15, 30, 60 and 120
  -- seconds, and then five minutes each.
  pub connect-attempts :
      (failures rest : List (Answer P)) (a : Answer P)
      → AreRetried failures
      → (is_success a || is_final a) ≡ true
      → attempt_all connect (failures ++ a ∷ rest) ≡ (
        take (length failures) (15 ∷ 15 ∷ 30 ∷ 60 ∷ 120 ∷ replicate (length failures) 300),
        some (
            if is_success a
            then CollectorResponse.success a.payload
            else CollectorResponse.fatal a.payload),
      )
  unfolding connect
  connect-attempts failures rest a h last =
      attempts-waits failures rest a _ connect refl h (λ next. ends next a last)
      ∙ ap
          (λ l. (
            l,
            some (
                if is_success a
                then CollectorResponse.success a.payload
                else CollectorResponse.fatal a.payload),
          ))
          (first_waits (length failures))
