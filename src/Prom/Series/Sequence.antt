-- ===== src/Prom/Series/Sequence.antt =====
-- A description of the merge without loops: the samples in the order in which the loops reach them,
-- and of each run of one time stamp the first.
use fadvisor.Prelude.{
  ℕ, zero, suc, ◌+◌, ◌≤◌, ◌≡◌, refl, sym, ap, ◌∙◌, true, false, Option, none, some, inl, inr, List,
  [], ◌∷◌, ◌++◌, arith, length, leb, ltb, Bool-cases,
}
use mathlib.Core.List.{append_assoc, append-nil}
use fadvisor.Prom.Series.{
  Sample, last?, is_duplicated, append_sample, take_first, take_second, append_rest, merge_loop,
  merge_samples,
}

module _ {V : Type 0} where
  unfoldable pub interleave : List (Sample V) → List (Sample V) → List (Sample V)
  interleave [] ys = ys
  interleave (x ∷ xs) [] = x ∷ xs
  interleave (x ∷ xs) (y ∷ ys) = elim (leb x.timestamp y.timestamp) [
    | true ↦ x ∷ interleave xs (y ∷ ys)
    | false ↦ y ∷ interleave (x ∷ xs) ys
  ]

  -- `prev` is the sample that was kept last.
  unfoldable pub first_of_runs : Option (Sample V) → List (Sample V) → List (Sample V)
  first_of_runs prev [] = []
  first_of_runs prev (s ∷ ss) = elim (is_duplicated prev s) [
    | true ↦ first_of_runs prev ss
    | false ↦ s ∷ first_of_runs (some s) ss
  ]

  last?-append : (out : List (Sample V)) (s : Sample V) → last? (out ++ (s ∷ [])) ≡ some s
  last?-append [] s = refl
  last?-append (a ∷ []) s = refl
  last?-append (a ∷ b ∷ out) s = last?-append (b ∷ out) s

  append_rest-eq-append :
      (ss out : List (Sample V)) → append_rest ss out ≡ out ++ first_of_runs (last? out) ss
  unfolding append_rest append_sample first_of_runs
  append_rest-eq-append [] out = sym (append-nil out)
  append_rest-eq-append (s ∷ ss) out = elim (Bool-cases (is_duplicated (last? out) s)) [
    | inl dup ↦ rw (dup, first_of_runs) (append_rest-eq-append ss out)
    | inr new ↦
        rw (new, first_of_runs, append_rest-eq-append ss (out ++ (s ∷ [])), last?-append out s)
          (append_assoc out (s ∷ []) (first_of_runs (some s) ss))
  ]

  interleave-nil : (xs : List (Sample V)) → interleave xs [] ≡ xs
  unfolding interleave
  interleave-nil [] = refl
  interleave-nil (x ∷ xs) = refl

  -- What the inner loops leave, appended in order, is what there was to append before them.
  take_first_lem :
      (xs : List (Sample V)) (y : Sample V) (ys out : List (Sample V))
      → let (xs', out') = take_first xs (y ∷ ys) out in
        append_rest (interleave xs' (y ∷ ys)) out' ≡ append_rest (interleave xs (y ∷ ys)) out
  unfolding take_first interleave append_rest
  take_first_lem [] y ys out = refl
  take_first_lem (x ∷ xs) y ys out = ground (arith, take_first_lem xs y ys (append_sample out x))

  take_second_lem :
      (xs ys out : List (Sample V))
      → let (ys', out') = take_second xs ys out in
        append_rest (interleave xs ys') out' ≡ append_rest (interleave xs ys) out
  unfolding take_second interleave append_rest
  take_second_lem xs [] out = refl
  take_second_lem [] (y ∷ ys) out = refl
  take_second_lem (x ∷ xs) (y ∷ ys) out =
      ground (arith, take_second_lem (x ∷ xs) ys (append_sample out y))

  length-take_first : (xs ys out : List (Sample V)) → length (take_first xs ys out).0 ≤ length xs
  unfolding take_first
  length-take_first [] ys out = omega arith
  length-take_first (x ∷ xs) [] out = omega arith
  length-take_first (x ∷ xs) (y ∷ ys) out =
      ground (arith, length-take_first xs (y ∷ ys) (append_sample out x))

  length-take_second : (xs ys out : List (Sample V)) → length (take_second xs ys out).0 ≤ length ys
  unfolding take_second
  length-take_second xs [] out = omega arith
  length-take_second [] (y ∷ ys) out = omega arith
  length-take_second (x ∷ xs) (y ∷ ys) out =
      ground (arith, length-take_second (x ∷ xs) ys (append_sample out y))

  -- One round of the outer loop takes at least one sample.
  round_takes :
      (x : Sample V) (xs : List (Sample V)) (y : Sample V) (ys out : List (Sample V))
      → let (xs', out') = take_first (x ∷ xs) (y ∷ ys) out in
        length xs' + length (take_second xs' (y ∷ ys) out').0 ≤ length xs + suc (length ys)
  unfolding take_first take_second
  round_takes x xs y ys out = elim (Bool-cases (leb x.timestamp y.timestamp)) [
    | inl le ↦
        let (xs', out') = take_first xs (y ∷ ys) (append_sample out x) in
        rw le (
          omega (
            arith,
            length-take_first xs (y ∷ ys) (append_sample out x),
            length-take_second xs' (y ∷ ys) out',
          ))
    | inr gt ↦
        let lt : ltb y.timestamp x.timestamp ≡ true = ground arith in
        rw (gt, lt) (omega (arith, length-take_second (x ∷ xs) ys (append_sample out y)))
  ]

  merge_loop_lem :
      (fuel : ℕ) (xs ys out : List (Sample V))
      → length xs + length ys ≤ fuel
      → merge_loop fuel xs ys out ≡ some (append_rest (interleave xs ys) out)
  unfolding merge_loop
  merge_loop_lem fuel [] ys out h = unfold interleave in refl
  merge_loop_lem fuel (x ∷ xs) [] out h = rw (interleave-nil (x ∷ xs))
  merge_loop_lem zero (x ∷ xs) (y ∷ ys) out h = absurd (omega arith)
  merge_loop_lem (suc fuel) (x ∷ xs) (y ∷ ys) out h =
      let (xs', out') = take_first (x ∷ xs) (y ∷ ys) out in
      let (ys', out'') = take_second xs' (y ∷ ys) out' in
      merge_loop_lem fuel xs' ys' out'' (omega (arith, round_takes x xs y ys out))
      ∙ ap some (take_second_lem xs' (y ∷ ys) out' ∙ take_first_lem (x ∷ xs) y ys out)

  -- The loops end within the fuel, and yield the first sample of each run of the merged sequence.
  pub merge_samples-eq-first_of_runs :
      (xs ys : List (Sample V)) → merge_samples xs ys ≡ some (first_of_runs none (interleave xs ys))
  unfolding merge_samples
  merge_samples-eq-first_of_runs xs ys =
      merge_loop_lem (length xs + length ys) xs ys [] (omega arith)
      ∙ ap some (append_rest-eq-append (interleave xs ys) [])
