-- ===== src/Comparator/Recommend/Limits.antt =====
-- The limits of a container in the recommendations of pkg/cost-comparator/comparator.go.
use mathlib.Core.Option.{map as map_option}
use fadvisor.Prelude.{◌≡◌, refl, ap, ◌∙◌, false, some, String, ◌=s=◌, arith, eq_iff}
use fadvisor.Prelude.Dict.{Dict, lookup, lookup-insert}
use fadvisor.Float.{Float}
use fadvisor.Kube.{Quantity, Container}
use fadvisor.Comparator.Recommend.{
  req_lim_ratio, cpu_req_lim_ratio, mem_req_lim_ratio, replace_limit, set_resources,
  recommend_container,
}

module _ {Q : Type 0} where
  lookup-replace_limit :
      (k : String) (q old : Q) (m : Dict Q)
      → lookup k m ≡ some old
      → lookup k (replace_limit k q m) ≡ some q
  unfolding replace_limit
  lookup-replace_limit k q old m e = ground (arith, e, eq_iff k k, lookup-insert k k q m)

  lookup-replace_limit_other :
      (j k : String) (q : Q) (m : Dict Q)
      → (k =s= j) ≡ false
      → lookup j (replace_limit k q m) ≡ lookup j m
  unfolding replace_limit
  lookup-replace_limit_other j k q m e = ground (arith, e, lookup-insert j k q m)

module _ {F Q : Type 0} ⦃fl : Float F⦄ ⦃qu : Quantity Q⦄ where
  open fl use {mul, div, of_int, to_int}
  open qu use {milli_value, of_value}

  mem_req_lim_ratio-eq :
      (c : Container Q) (reqs lims : Dict Q) (req lim : Q)
      → c.requests ≡ some reqs
      → c.limits ≡ some lims
      → lookup "cpu" reqs ≡ some req
      → lookup "cpu" lims ≡ some lim
      → mem_req_lim_ratio c ≡ div (of_int (milli_value lim)) (of_int (milli_value req))
  unfolding mem_req_lim_ratio req_lim_ratio
  mem_req_lim_ratio-eq c reqs lims req lim r l cr cl = ground (arith, r, l, cr, cl)

  -- The recommended memory limit is the recommended memory times the limit of the CPU divided by the
  -- request of the CPU, whatever the requested memory is, for a container with a memory limit and
  -- with a request and a limit of CPU.
  pub memory_limit_from_cpu :
      (c : Container Q) (cpu mem : F) (reqs lims : Dict Q) (req lim old : Q)
      → c.requests ≡ some reqs
      → c.limits ≡ some lims
      → lookup "cpu" reqs ≡ some req
      → lookup "cpu" lims ≡ some lim
      → lookup "memory" lims ≡ some old
      → map_option (lookup "memory") ((recommend_container (some cpu) (some mem) c c).limits)
        ≡ some (
            some (
              of_value
                (to_int (mul mem (div (of_int (milli_value lim)) (of_int (milli_value req)))))))
  unfolding recommend_container set_resources
  memory_limit_from_cpu c cpu mem reqs lims req lim old r l cr cl ml =
      let ratio = mem_req_lim_ratio-eq c reqs lims req lim r l cr cl in
      let new_cpu = qu.of_milli (to_int (mul (mul cpu (cpu_req_lim_ratio c)) (of_int 1000))) in
      let new_mem = of_value (to_int (mul mem (mem_req_lim_ratio c))) in
      let kept = lookup-replace_limit_other "memory" "cpu" new_cpu lims refl ∙ ml in
      ap
        (λ m.
          map_option (lookup "memory")
            (map_option (λ x. replace_limit "memory" new_mem (replace_limit "cpu" new_cpu x)) m))
        l
      ∙ ap some (lookup-replace_limit "memory" new_mem old (replace_limit "cpu" new_cpu lims) kept)
      ∙ ap (λ x. some (some (of_value (to_int (mul mem x))))) ratio
