-- ===== src/Retry/Attempts.antt =====
-- shared/sqlite_util.py: which attempt ends `run_with_retry`, and how many it makes.
use smart_trucks.Base.{
  ℕ, zero, suc, ◌+◌, ◌-◌, ◌≤◌, ◌<◌, Bool, true, false, [], ◌∷◌, ◌≡◌, ◌⊎◌, inl, inr, refl, arith,
  length, sym, ap, subst, ◌∙◌,
}
use smart_trucks.Retry.{
  Attempt, returned, operational_error, other_error, Ended, attempts_of, after_attempt,
  attempt_loop, run_with_retry,
}

abbrev pub is_locked {ℓ} : {A : Type ℓ} → Attempt A → Bool
is_locked (returned a) = false
is_locked (operational_error locked) = locked
is_locked other_error = false

module _ {ℓ} {A : Type ℓ} (operation : ℕ → Attempt A) where
  -- An end after attempts from number `n` on, of `limit` at most: the last call's answer is the end; each
  -- call before it met a lock; a lock at the end means that the attempts ran out; and there was a
  -- delay behind every call but the last.
  pub record IsRetried (limit n : ℕ) (e : Ended A) : Type ℓ where
    pub at_least_one : 1 ≤ e.calls
    pub at_most : e.calls ≤ limit
    pub answer : e.last ≡ operation (n + e.calls - 1)
    pub locked_before : (k : ℕ) → suc k < e.calls → is_locked (operation (n + k)) ≡ true
    pub exhausted : (is_locked e.last ≡ false) ⊎ (e.calls ≡ limit)
    pub slept : suc (length e.delays) ≡ e.calls

  one_call :
      (limit n : ℕ) (x : Attempt A)
      → operation n ≡ x
      → 1 ≤ limit
      → (is_locked x ≡ false) ⊎ (limit ≡ 1)
      → IsRetried limit n (record { last = x; calls = 1; delays = [] })
  one_call limit n x e b h = record {
    at_least_one = omega arith;
    at_most = b;
    answer = sym e ∙ ap operation (omega arith);
    locked_before = λ k l. absurd (omega arith);
    exhausted = elim h [ inl f ↦ inl f | inr l ↦ inr (sym l) ];
    slept = refl;
  }

  -- A lock, and what came of the attempts behind it.
  locked_call :
      (limit n : ℕ) (rest : Ended A)
      → is_locked (operation n) ≡ true
      → IsRetried limit (suc n) rest
      → IsRetried
          (suc limit)
          n
          (record { last = rest.last; calls = suc rest.calls; delays = n ∷ rest.delays })
  locked_call limit n rest e r = record {
    at_least_one = omega arith;
    at_most = omega (arith, r.at_most);
    answer = r.answer ∙ ap operation (omega arith);
    locked_before = earlier;
    exhausted = elim r.exhausted [ inl f ↦ inl f | inr l ↦ inr (ap suc l) ];
    slept = ap suc r.slept;
  }
    where
      earlier : (k : ℕ) → suc k < suc rest.calls → is_locked (operation (n + k)) ≡ true
      earlier zero l = ap (λ m. is_locked (operation m)) (omega arith) ∙ e
      earlier (suc k) l =
          ap (λ m. is_locked (operation m)) (omega arith) ∙ r.locked_before k (omega arith)

  attempt_loop-IsRetried : (left n : ℕ) → IsRetried (suc left) n (attempt_loop operation left n)
  unfolding attempt_loop
  attempt_loop-IsRetried zero n = one_call 1 n (operation n) refl (omega arith) (inr refl)
  attempt_loop-IsRetried (suc left) n = go (operation n) refl (attempt_loop-IsRetried left (suc n))
    where
      go :
          (x : Attempt A)
          → operation n ≡ x
          → IsRetried (suc left) (suc n) (attempt_loop operation left (suc n))
          → IsRetried (suc (suc left)) n (after_attempt n (attempt_loop operation left (suc n)) x)
      go (returned a) e r = one_call _ n (returned a) e (omega arith) (inl refl)
      go (operational_error true) e r = locked_call _ n _ (ap is_locked e) r
      go (operational_error false) e r =
          one_call _ n (operational_error false) e (omega arith) (inl refl)
      go other_error e r = one_call _ n other_error e (omega arith) (inl refl)

  attempts_pos :
      (negative : Bool) (count : ℕ)
      → suc (attempts_of negative count - 1) ≡ attempts_of negative count
  unfolding attempts_of
  attempts_pos negative count = ground arith

  -- Whatever the operation does at each attempt and whatever the retry count: at least one call is made
  -- and at most the attempts of the setting; the end is the last call's answer; every call before it
  -- met a lock; a lock at the end means that all attempts were made; and a delay lies behind each
  -- call but the last.
  pub run_with_retry-IsRetried :
      (negative : Bool) (count : ℕ)
      → IsRetried (attempts_of negative count) 1 (run_with_retry negative count operation)
  unfolding run_with_retry
  run_with_retry-IsRetried negative count =
      subst (λ limit. IsRetried limit 1 (attempt_loop operation (attempts_of negative count - 1) 1))
        (attempts_pos negative count) (attempt_loop-IsRetried (attempts_of negative count - 1) 1)
