-- ===== src/Qcloud/Regions/Laws.antt =====
-- The two tables of regions, compared.
use mathlib.Core.Path.{subst₂}
use mathlib.Core.Option.{some-injective}
use fadvisor.Prelude.{inl, inr, Bool-cases, ◌≡◌, some, [], ◌∷◌, arith, String, ◌=s=◌, eq_iff}
use fadvisor.Prelude.Dict.{Dict, lookup}
use fadvisor.Qcloud.Regions.{Region, short_name2region, region2short_name_region}

abbrev AllEntries : (String → Region → Type 0) → Dict Region → Type 0
AllEntries P [] = Unit
AllEntries P ((k, r) ∷ m) = P k r × AllEntries P m

lookup-AllEntries :
    (P : String → Region → Type 0) (m : Dict Region) (k : String) {r : Region}
    → AllEntries P m
    → lookup k m ≡ some r
    → P k r
unfolding lookup
lookup-AllEntries P [] k h e = cc
lookup-AllEntries P ((j, s) ∷ m) k {r} h e = elim (Bool-cases (j =s= k)) [
  | inl hit ↦
      let same : s ≡ r = some-injective s r (rw hit at e) in subst₂ P ((eq_iff j k).0 hit) same h.0
  | inr miss ↦ lookup-AllEntries P m k h.1 (rw miss at e)
]

abbrev IsShort : String → Region → Type 0
IsShort k r = (lookup r.region region2short_name_region ≡ some r) × (r.region_short_name ≡ k)

abbrev IsLong : String → Region → Type 0
IsLong k r = (lookup r.region_short_name short_name2region ≡ some r) × (r.region ≡ k)

IsShort-entries : AllEntries IsShort short_name2region
unfolding lookup short_name2region region2short_name_region
IsShort-entries = ground arith

IsLong-entries : AllEntries IsLong region2short_name_region
unfolding lookup short_name2region region2short_name_region
IsLong-entries = ground arith

-- A region that `ShortName2region` has under a short name has that short name, and
-- `Region2shortNameRegion` has it under its full name.
pub short_name_inverse :
    (k : String) {r : Region}
    → lookup k short_name2region ≡ some r
    → (lookup r.region region2short_name_region ≡ some r) × (r.region_short_name ≡ k)
short_name_inverse k e = lookup-AllEntries IsShort short_name2region k IsShort-entries e

-- A region that `Region2shortNameRegion` has under a full name has that full name, and
-- `ShortName2region` has it under its short name.
pub full_name_inverse :
    (k : String) {r : Region}
    → lookup k region2short_name_region ≡ some r
    → (lookup r.region_short_name short_name2region ≡ some r) × (r.region ≡ k)
full_name_inverse k e = lookup-AllEntries IsLong region2short_name_region k IsLong-entries e
