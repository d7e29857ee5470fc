-- ===== src/Env/Literals.antt =====
-- shared/env.py: a literal that was not expanded gives its default, and a minimum holds whatever was set.
use smart_trucks.Base.{
  ℕ, true, false, Option, none, some, if◌then◌else◌, [], ◌∷◌, ◌++◌, ◌≡◌, refl, ap, ◌∙◌, arith,
  Bool-cases, inl, inr,
}
use smart_trucks.Base.Float.{FloatOps, max}
use smart_trucks.Base.Text.{Text, is_space, lstrip, rstrip, strip, free_of}
use smart_trucks.Env.{
  ends_with_brace, drop_last, fallback_of, nonempty, expand, sanitize_env_value, read_number_env,
}

rstrip-end : (s : Text) (c : ℕ) → is_space c ≡ false → rstrip (s ++ c ∷ []) ≡ s ++ c ∷ []
unfolding rstrip
rstrip-end [] c h = ground arith
rstrip-end (x ∷ []) c h =
    ap
      (λ (t : Text). elim t as (λ _. Text) [
        | [] ↦ if is_space x then [] else x ∷ []
        | y ∷ u ↦ x ∷ y ∷ u
      ])
      (rstrip-end [] c h)
rstrip-end (x ∷ y ∷ s) c h = rw (rstrip-end (y ∷ s) c h) refl

ends_with_brace-end : (s : Text) → ends_with_brace (s ++ b'}' ∷ []) ≡ true
unfolding ends_with_brace
ends_with_brace-end [] = refl
ends_with_brace-end (x ∷ []) = refl
ends_with_brace-end (x ∷ y ∷ s) = ends_with_brace-end (y ∷ s)

drop_last-end : (s : Text) (c : ℕ) → drop_last (s ++ c ∷ []) ≡ s
unfolding drop_last
drop_last-end [] c = refl
drop_last-end (x ∷ []) c = refl
drop_last-end (x ∷ y ∷ s) c = ap (λ t. x ∷ t) (drop_last-end (y ∷ s) c)

fallback_of-free :
    (name default : Text)
    → free_of b':' name ≡ true
    → fallback_of (name ++ b':' ∷ b'-' ∷ default) ≡ some default
unfolding fallback_of
fallback_of-free [] default h = refl
fallback_of-free (c ∷ name) default h = ground (arith, fallback_of-free name default)

-- "${name:-default}"
abbrev pub literal : Text → Text → Text
literal name default = b'$' ∷ b'{' ∷ ((name ++ b':' ∷ b'-' ∷ default) ++ b'}' ∷ [])

strip-literal : (name default : Text) → strip (literal name default) ≡ literal name default
unfolding strip lstrip is_space
strip-literal name default =
    ap lstrip
      (rstrip-end (b'$' ∷ b'{' ∷ (name ++ b':' ∷ b'-' ∷ default)) b'}' (unfold is_space in refl))

expand-literal :
    (name default : Text)
    → free_of b':' name ≡ true
    → expand (literal name default) ≡ nonempty (strip default)
unfolding expand
expand-literal name default h =
    rw
      (
        ends_with_brace-end (b'$' ∷ b'{' ∷ (name ++ b':' ∷ b'-' ∷ default)),
        drop_last-end (name ++ b':' ∷ b'-' ∷ default) b'}',
        fallback_of-free name default h,
      )
      refl

-- The literal "${name:-default}", for a name without a colon and any default, reads as the default without
-- its outer spaces, or as unset if nothing is left of it.
pub sanitize-literal :
    (name default : Text)
    → free_of b':' name ≡ true
    → sanitize_env_value (some (literal name default)) ≡ nonempty (strip default)
unfolding sanitize_env_value
sanitize-literal name default h =
    ap expand (strip-literal name default) ∙ expand-literal name default h

module _ (fl : FloatOps) (asym : (a b : fl.Float) → fl.lt a b ≡ true → fl.lt b a ≡ false)
    (parse : Text → Option fl.Float) where
  open fl use {Float, lt}

  max_bounded : (a b : Float) → lt (max fl a b) a ≡ false
  max_bounded a b = elim (Bool-cases (lt a b)) [
    | inl above ↦ rw above (asym a b above)
    | inr below ↦ rw below (elim (Bool-cases (lt a a)) [ inl bad ↦ asym a a bad | inr good ↦ good ])
  ]

  -- If `<` never holds both ways, a number that is read with a minimum is not below it, whatever the
  -- variable holds and whatever the default is.
  read_number_env_bounded :
      (raw : Option Text) (default minimum : Float)
      → lt (read_number_env fl parse raw default (some minimum)) minimum ≡ false
  unfolding read_number_env
  read_number_env_bounded raw default minimum = go (sanitize_env_value raw)
    where
      parsed :
          (p : Option Float)
          → lt (elim p [ none ↦ max fl minimum default | some x ↦ max fl minimum x ]) minimum
            ≡ false
      parsed none = max_bounded minimum default
      parsed (some x) = max_bounded minimum x

      go :
          (v : Option Text)
          → lt
              (elim v as (λ _. Float) [
                | none ↦ max fl minimum default
                | some value ↦ elim (parse value) as (λ _. Float) [
                  | none ↦ max fl minimum default
                  | some x ↦ max fl minimum x
                ]
              ])
              minimum
            ≡ false
      go none = max_bounded minimum default
      go (some value) = parsed (parse value)
