-- ===== src/Qcloud/Client/Retry.antt =====
-- How `ExponentialRetryCall` ends.
use native.Mathlib.Nat.{pow-suc}
use fadvisor.Prelude.{
  ℕ, zero, suc, ◌+◌, ◌*◌, ◌^◌, ◌≤◌, ◌<◌, ◌≡◌, refl, sym, subst, ◌⊎◌, inl, inr, List, [], ◌∷◌, arith,
  String, ◌==◌, Bool-cases,
}
use fadvisor.Qcloud.Client.{Retried, retry_from, exponential_retry_call}

abbrev pub sum : List ℕ → ℕ
sum [] = 0
sum (n ∷ ns) = n + sum ns

-- What `rand.IntnRange` documents: a number from `lo` on, below `hi`.
abbrev pub InRange : (ℕ → ℕ → ℕ) → Type 0
InRange int_range = (lo hi : ℕ) → lo < hi → (lo ≤ int_range lo hi) × (int_range lo hi < hi)

pow_step : (i : ℕ) → (2 ^ (i + 1) ≡ 2 * 2 ^ i) × (2 ^ (i + 2) ≡ 4 * 2 ^ i)
pow_step i =
    let one : i + 1 ≡ suc i = omega arith in
    let two : i + 2 ≡ suc (suc i) = omega arith in
    rw (one, two) (omega (arith, pow-suc 2 i, pow-suc 2 (suc i)))

module _ {R : Type 0} where
  abbrev pub Fails : String ⊎ R → Type 0
  Fails (inl e) = Unit
  Fails (inr r) = ⊥

  -- The attempts from `i` on to before `n` all fail.
  abbrev pub FailsFrom : (ℕ → String ⊎ R) → ℕ → ℕ → Type 0
  FailsFrom attempt i n = (k : ℕ) → i ≤ k → k < n → Fails (attempt k)

  -- How a call with up to `n` retries ends: with the answer of the attempt that is made last, all
  -- before it having failed, or with an error after `n + 1` attempts that failed.
  abbrev pub IsEnd : (ℕ → String ⊎ R) → ℕ → ℕ → ℕ → String ⊎ R → Type 0
  IsEnd attempt n i calls (inr r) =
      (k : ℕ) × (calls ≡ k + 1) × (k ≤ n) × (attempt k ≡ inr r) × FailsFrom attempt i k
  IsEnd attempt n i calls (inl e) = (calls ≡ n + 1) × FailsFrom attempt i (n + 1)

  FailsFrom-next :
      (attempt : ℕ → String ⊎ R) (i n : ℕ) {e : String}
      → attempt i ≡ inl e
      → FailsFrom attempt (i + 1) n
      → FailsFrom attempt i n
  FailsFrom-next attempt i n a later k le lt = elim (Bool-cases (k == i)) [
    | inl same ↦ let equal : k ≡ i = ground arith in rw (equal, a) tt
    | inr differ ↦ later k (ground arith) lt
  ]

  IsEnd-next :
      (attempt : ℕ → String ⊎ R) (n i calls : ℕ) {e : String}
      → attempt i ≡ inl e
      → (r : String ⊎ R) → IsEnd attempt n (i + 1) calls r
      → IsEnd attempt n i calls r
  IsEnd-next attempt n i calls a (inr r) (k, c, le, answer, fails) =
      (k, c, le, answer, FailsFrom-next attempt i k a fails)
  IsEnd-next attempt n i calls a (inl e) (c, fails) = (c, FailsFrom-next attempt i (n + 1) a fails)

  Sum-cases : (a : String ⊎ R) → ((e : String) × (a ≡ inl e)) ⊎ ((r : R) × (a ≡ inr r))
  Sum-cases (inl e) = inl (e, refl)
  Sum-cases (inr r) = inr (r, refl)

  -- What a call that ends with `r` has done so far, when it was at round `i`.
  abbrev EndsWell : (ℕ → String ⊎ R) → ℕ → ℕ → Retried R → Type 0
  EndsWell attempt n i r = IsEnd attempt n i r.calls r.result

  -- Bounds for the sum of the pauses from round `i` on.
  abbrev IsPaced : ℕ → Retried R → Type 0
  IsPaced i r =
      (2 ^ (r.calls + 1) ≤ sum r.sleeps + 2 ^ (i + 1))
      × (sum r.sleeps + 2 ^ (i + 2) ≤ 2 ^ (r.calls + 2))

  module _ (int_range : ℕ → ℕ → ℕ) (retry_failed : ℕ → String → String) (n : ℕ)
      (attempt : ℕ → String ⊎ R) where
    abbrev pause : ℕ → ℕ
    pause i = int_range (2 * 2 ^ i) (2 * 2 ^ (i + 1) + 1)

    retry_from-answer :
        (left i : ℕ) (e : String) {r : R}
        → attempt i ≡ inr r
        → retry_from int_range retry_failed n attempt (suc left) i e
          ≡ record { result = inr r; calls = i + 1; sleeps = pause i ∷ [] }
    unfolding retry_from
    retry_from-answer left i e a = ground (arith, a)

    retry_from-error :
        (left i : ℕ) (e : String) {e' : String}
        → attempt i ≡ inl e'
        → let rest = retry_from int_range retry_failed n attempt left (i + 1) e' in
          retry_from int_range retry_failed n attempt (suc left) i e
          ≡ record rest { sleeps = pause i ∷ rest.sleeps }
    unfolding retry_from
    retry_from-error left i e a = ground (arith, a)

    retry_from_lem :
        (left i : ℕ) (e : String)
        → i + left ≡ n + 1
        → EndsWell attempt n i (retry_from int_range retry_failed n attempt left i e)
    retry_from_lem zero i e h = unfold retry_from in (omega arith, λ k le lt. absurd (omega arith))
    retry_from_lem (suc left) i e h = elim (Sum-cases (attempt i)) [
      | inr (r, a) ↦
          subst (EndsWell attempt n i) (sym (retry_from-answer left i e a))
            (i, refl, omega arith, a, λ k le lt. absurd (omega arith))
      | inl (e', a) ↦
          subst (EndsWell attempt n i) (sym (retry_from-error left i e a))
            (IsEnd-next attempt n i _ a _ (retry_from_lem left (i + 1) e' (omega arith)))
    ]

    first_answer :
        {r : R}
        → attempt 0 ≡ inr r
        → exponential_retry_call int_range retry_failed n attempt
          ≡ record { result = inr r; calls = 1; sleeps = [] }
    unfolding exponential_retry_call
    first_answer a = ground (arith, a)

    first_error :
        {e : String}
        → attempt 0 ≡ inl e
        → exponential_retry_call int_range retry_failed n attempt
          ≡ retry_from int_range retry_failed n attempt n 1 e
    unfolding exponential_retry_call
    first_error a = ground (arith, a)

    -- The service is called until it answers, at most once more than the number of retries: the
    -- result is the answer of the last call, all before it having failed, or it is an error and all
    -- `n + 1` calls failed.
    pub exponential_retry_call_lem :
        let r = exponential_retry_call int_range retry_failed n attempt in
        IsEnd attempt n 0 r.calls r.result
    exponential_retry_call_lem = elim (Sum-cases (attempt 0)) [
      | inr (r, a) ↦
          subst (EndsWell attempt n 0) (sym (first_answer a))
            (0, refl, omega arith, a, λ k le lt. absurd (omega arith))
      | inl (e, a) ↦
          subst (EndsWell attempt n 0) (sym (first_error a))
            (IsEnd-next attempt n 0 _ a _ (retry_from_lem n 1 e (omega arith)))
    ]

    module _ (range : InRange int_range) where
      retry_from_sleeps :
          (left i : ℕ) (e : String)
          → IsPaced i (retry_from int_range retry_failed n attempt left i e)
      retry_from_sleeps zero i e = unfold retry_from in omega arith
      retry_from_sleeps (suc left) i e =
          let (low, high) = range (2 * 2 ^ i) (2 * 2 ^ (i + 1) + 1) (omega (arith, pow_step i)) in
          elim (Sum-cases (attempt i)) [
            | inr (r, a) ↦
                subst (IsPaced i) (sym (retry_from-answer left i e a))
                  (omega (arith, pow_step i, pow_step (i + 1)))
            | inl (e', a) ↦
                let (least, most) = retry_from_sleeps left (i + 1) e' in
                subst (IsPaced i) (sym (retry_from-error left i e a))
                  (omega (arith, pow_step i, pow_step (i + 1)))
          ]

      -- If the random numbers are in their range, the pauses of a call that makes `c` attempts are
      -- at least `2 ^ (c + 1) - 4` and at most `2 ^ (c + 2) - 8` seconds together.
      pub exponential_retry_call_sleeps :
          let r = exponential_retry_call int_range retry_failed n attempt in
          (2 ^ (r.calls + 1) ≤ sum r.sleeps + 4) × (sum r.sleeps + 8 ≤ 2 ^ (r.calls + 2))
      exponential_retry_call_sleeps = elim (Sum-cases (attempt 0)) [
        | inr (r, a) ↦
            subst
              (λ (r : Retried R).
                (2 ^ (r.calls + 1) ≤ sum r.sleeps + 4) × (sum r.sleeps + 8 ≤ 2 ^ (r.calls + 2)))
              (sym (first_answer a)) (omega arith)
        | inl (e, a) ↦
            subst
              (λ (r : Retried R).
                (2 ^ (r.calls + 1) ≤ sum r.sleeps + 4) × (sum r.sleeps + 8 ≤ 2 ^ (r.calls + 2)))
              (sym (first_error a)) (omega (arith, retry_from_sleeps n 1 e))
      ]
