-- ===== src/Comparator/Checkpoint/Keys.antt =====
-- Maps of maps: what is found after a store, and after all the stores of a loop.
use mathlib.Core.Option.{get_or, or_else, map as map_option}
use fadvisor.Prelude.{
  ◌≡◌, refl, true, Option, none, some, [], ◌∷◌, String, ◌&&◌, ◌=s=◌, arith, eq_iff, if◌then◌else◌,
}
use fadvisor.Prelude.Dict.{Dict, lookup, insert, lookup-insert}
use fadvisor.Comparator.{NamespacedName, NameMap, same_name, lookup_name, insert_name}
use fadvisor.Comparator.Checkpoint.Load.{store_name, store_container}

pub or_else-none : {A : Type 0} (o : Option A) → or_else o none ≡ o
unfolding or_else
or_else-none none = refl
or_else-none (some a) = refl

pub same_name_eq : (a b : NamespacedName) → same_name a b ≡ true → a ≡ b
unfolding same_name
same_name_eq a b e = ground (arith, eq_iff a.namespace b.namespace, eq_iff a.name b.name)

same_name_trans : (a b c : NamespacedName) → same_name a b ≡ true → same_name a c ≡ same_name b c
unfolding same_name
same_name_trans a b c e = ground (arith, eq_iff a.namespace b.namespace, eq_iff a.name b.name)

same_name_comm : (a b : NamespacedName) → same_name a b ≡ same_name b a
unfolding same_name
same_name_comm a b = ground (
  arith,
  eq_iff a.namespace b.namespace,
  eq_iff a.name b.name,
  eq_iff b.namespace a.namespace,
  eq_iff b.name a.name,
)

module _ {V : Type 0} where
  pub lookup_name-insert_name :
      (j k : NamespacedName) (v : V) (m : NameMap V)
      → lookup_name j (insert_name k v m) ≡ (if same_name k j then some v else lookup_name j m)
  unfolding lookup_name insert_name
  lookup_name-insert_name j k v [] = refl
  lookup_name-insert_name j k v ((i, w) ∷ m) = ground (
    arith,
    same_name_trans i k j,
    same_name_trans k j i,
    same_name_comm i k,
    same_name_comm i j,
    lookup_name-insert_name j k v m,
  )

  -- `m[kind][nn]`
  unfoldable pub find_name : String → NamespacedName → Dict (NameMap V) → Option V
  find_name kind nn m = lookup_name nn (get_or (lookup kind m) [])

  -- `m[kind][nn][container]`
  unfoldable pub find_container :
      String → NamespacedName → String → Dict (NameMap (Dict V)) → Option V
  find_container kind nn container m =
      lookup container (get_or (lookup_name nn (get_or (lookup kind m) [])) [])

  find_name-store_name :
      (kind k : String) (nn n : NamespacedName) (v : V) (m : Dict (NameMap V))
      → find_name k n (store_name kind nn v m)
        ≡ (if kind =s= k && same_name nn n then some v else find_name k n m)
  unfolding find_name store_name
  find_name-store_name kind k nn n v m =
      let names = insert_name nn v (get_or (lookup kind m) []) in
      ground (
        arith,
        eq_iff kind k,
        lookup-insert k kind names m,
        lookup_name-insert_name n nn v (get_or (lookup kind m) []),
      )

module _ {V : Type 0} where
  find_container-store_container :
      (kind k : String) (nn n : NamespacedName) (container c : String) (v : V)
      (m : Dict (NameMap (Dict V)))
      → find_container k n c (store_container kind nn container v m) ≡ (
          if kind =s= k && same_name nn n && container =s= c
          then some v
          else find_container k n c m)
  unfolding find_container store_container
  find_container-store_container kind k nn n container c v m =
      let names = get_or (lookup kind m) [] in
      let containers = get_or (lookup_name nn names) [] in
      let filled = insert container v containers in
      ground (
        arith,
        eq_iff kind k,
        same_name_eq nn n,
        lookup-insert k kind (insert_name nn filled names) m,
        lookup_name-insert_name n nn filled names,
        lookup-insert c container v containers,
      )

module _ {V : Type 0} where
  -- No key stands twice.
  abbrev pub HasKeysOnce : Dict V → Type 0
  HasKeysOnce [] = Unit
  HasKeysOnce ((k, v) ∷ m) = (lookup k m ≡ none) × HasKeysOnce m

  -- No key stands twice, at any level.
  abbrev pub HaveKeysOnce : NameMap (Dict V) → Type 0
  HaveKeysOnce [] = Unit
  HaveKeysOnce ((nn, cs) ∷ names) =
      (lookup_name nn names ≡ none) × HasKeysOnce cs × HaveKeysOnce names

  abbrev pub IsMap : Dict (NameMap (Dict V)) → Type 0
  IsMap [] = Unit
  IsMap ((kind, names) ∷ kinds) = (lookup kind kinds ≡ none) × HaveKeysOnce names × IsMap kinds

module _ {V W : Type 0} (f : V → W) where
  -- The stores of the three loops, one inside the other.
  abbrev pub store_containers :
      String → NamespacedName → Dict V → Dict (NameMap (Dict W)) → Dict (NameMap (Dict W))
  store_containers kind nn [] m = m
  store_containers kind nn ((c, v) ∷ cs) m =
      store_containers kind nn cs (store_container kind nn c (f v) m)

  abbrev pub store_names :
      String → NameMap (Dict V) → Dict (NameMap (Dict W)) → Dict (NameMap (Dict W))
  store_names kind [] m = m
  store_names kind ((nn, cs) ∷ names) m = store_names kind names (store_containers kind nn cs m)

  abbrev pub store_kinds :
      Dict (NameMap (Dict V)) → Dict (NameMap (Dict W)) → Dict (NameMap (Dict W))
  store_kinds [] m = m
  store_kinds ((kind, names) ∷ kinds) m = store_kinds kinds (store_names kind names m)

  find-store_containers :
      (kind k : String) (nn n : NamespacedName) (c : String) (cs : Dict V)
      (m : Dict (NameMap (Dict W)))
      → HasKeysOnce cs
      → find_container k n c (store_containers kind nn cs m) ≡ (
          if kind =s= k && same_name nn n
          then or_else (map_option f (lookup c cs)) (find_container k n c m)
          else find_container k n c m)
  unfolding lookup or_else
  find-store_containers kind k nn n c [] m h = ground arith
  find-store_containers kind k nn n c ((c0, v) ∷ cs) m h = ground (
    arith,
    eq_iff c0 c,
    h.0,
    find-store_containers kind k nn n c cs (store_container kind nn c0 (f v) m) h.1,
    find_container-store_container kind k nn n c0 c (f v) m,
  )

  find-store_names :
      (kind k : String) (n : NamespacedName) (c : String) (names : NameMap (Dict V))
      (m : Dict (NameMap (Dict W)))
      → HaveKeysOnce names
      → find_container k n c (store_names kind names m) ≡ (
          if kind =s= k
          then or_else
              (map_option f (lookup c (get_or (lookup_name n names) [])))
              (find_container k n c m)
          else find_container k n c m)
  unfolding lookup_name or_else lookup
  find-store_names kind k n c [] m h = ground arith
  find-store_names kind k n c ((nn, cs) ∷ names) m (fresh, once, rest) = ground (
    arith,
    same_name_eq nn n,
    fresh,
    find-store_names kind k n c names (store_containers kind nn cs m) rest,
    find-store_containers kind k nn n c cs m once,
  )

  pub find-store_kinds :
      (k : String) (n : NamespacedName) (c : String) (kinds : Dict (NameMap (Dict V)))
      (m : Dict (NameMap (Dict W)))
      → IsMap kinds
      → find_container k n c (store_kinds kinds m)
        ≡ or_else (map_option f (find_container k n c kinds)) (find_container k n c m)
  unfolding lookup or_else lookup_name find_container
  find-store_kinds k n c [] m h = refl
  find-store_kinds k n c ((kind, names) ∷ kinds) m (fresh, once, rest) = ground (
    arith,
    eq_iff kind k,
    fresh,
    find-store_kinds k n c kinds (store_names kind names m) rest,
    find-store_names kind k n c names m once,
  )

module _ {V : Type 0} where
  -- No key stands twice, at both levels.
  abbrev pub HaveNamesOnce : NameMap V → Type 0
  HaveNamesOnce [] = Unit
  HaveNamesOnce ((nn, v) ∷ names) = (lookup_name nn names ≡ none) × HaveNamesOnce names

  abbrev pub IsNameMap : Dict (NameMap V) → Type 0
  IsNameMap [] = Unit
  IsNameMap ((kind, names) ∷ kinds) =
      (lookup kind kinds ≡ none) × HaveNamesOnce names × IsNameMap kinds

module _ {V W : Type 0} (f : V → W) where
  -- The stores of two loops.
  abbrev pub store_each : String → NameMap V → Dict (NameMap W) → Dict (NameMap W)
  store_each kind [] m = m
  store_each kind ((nn, v) ∷ names) m = store_each kind names (store_name kind nn (f v) m)

  abbrev pub store_all : Dict (NameMap V) → Dict (NameMap W) → Dict (NameMap W)
  store_all [] m = m
  store_all ((kind, names) ∷ kinds) m = store_all kinds (store_each kind names m)

  find-store_each :
      (kind k : String) (n : NamespacedName) (names : NameMap V) (m : Dict (NameMap W))
      → HaveNamesOnce names
      → find_name k n (store_each kind names m) ≡ (
          if kind =s= k
          then or_else (map_option f (lookup_name n names)) (find_name k n m)
          else find_name k n m)
  unfolding lookup_name or_else
  find-store_each kind k n [] m h = ground arith
  find-store_each kind k n ((nn, v) ∷ names) m h = ground (
    arith,
    same_name_eq nn n,
    h.0,
    find-store_each kind k n names (store_name kind nn (f v) m) h.1,
    find_name-store_name kind k nn n (f v) m,
  )

  pub find-store_all :
      (k : String) (n : NamespacedName) (kinds : Dict (NameMap V)) (m : Dict (NameMap W))
      → IsNameMap kinds
      → find_name k n (store_all kinds m)
        ≡ or_else (map_option f (find_name k n kinds)) (find_name k n m)
  unfolding lookup or_else lookup_name find_name
  find-store_all k n [] m h = refl
  find-store_all k n ((kind, names) ∷ kinds) m (fresh, once, rest) = ground (
    arith,
    eq_iff kind k,
    fresh,
    find-store_all k n kinds (store_each kind names m) rest,
    find-store_each kind k n names m once,
  )
