-- ===== src/Tree/Definition.antt =====
-- The `Object` map of an `unstructured.Unstructured`: a JSON object, `map[string]interface{}`.
-- A scalar is kept as its text. The code reads and deletes keys, and never looks into a list.
use boxroom_cloud_native.Base.{
  String, false, Option, none, some, ◌==◌, ◌≡◌, refl, arith, eq_iff, if◌then◌else◌,
}

mutual
  pub data Value : Type 0 where
    scalar : String → Value
    list : Values → Value
    obj : Fields → Value

  pub data Values : Type 0 where
    nil : Values
    cons : Value → Values → Values

  pub data Fields : Type 0 where
    end : Fields
    field : String → Value → Fields → Fields

-- `m[k]`
unfoldable pub get_field : String → Fields → Option Value
get_field k end = none
get_field k (field j v fs) = if j == k then some v else get_field k fs

-- `delete(m, k)`
unfoldable pub delete_field : String → Fields → Fields
delete_field k end = end
delete_field k (field j v fs) =
    let rest = delete_field k fs in if j == k then rest else field j v rest

-- A write through the map that `m[k]` holds. Where `m[k]` is missing or no map, Go's type
-- assertion gives a nil map, on which `delete` does nothing.
unfoldable pub update_map : String → (Fields → Fields) → Fields → Fields
update_map k f end = end
update_map k f (field j (obj m) fs) =
    let rest = update_map k f fs in if j == k then field j (obj (f m)) fs else field j (obj m) rest
update_map k f (field j v fs) =
    let rest = update_map k f fs in if j == k then field j v fs else field j v rest

-- `m, _ := v.(map[string]interface{})`
abbrev pub as_map : Option Value → Fields
as_map (some (obj m)) = m
as_map (some (scalar t)) = end
as_map (some (list vs)) = end
as_map none = end

pub get_field-delete_field :
    (k j : String) (fs : Fields)
    → get_field j (delete_field k fs) ≡ (if k == j then none else get_field j fs)
unfolding get_field delete_field
get_field-delete_field k j end = ground arith
get_field-delete_field k j (field i v fs) =
    ground (arith, eq_iff i k, eq_iff i j, eq_iff k j, get_field-delete_field k j fs)

pub get_field-update_map_ne :
    (k j : String) (f : Fields → Fields) (fs : Fields)
    → (k == j) ≡ false
    → get_field j (update_map k f fs) ≡ get_field j fs
unfolding get_field update_map
get_field-update_map_ne k j f end h = refl
get_field-update_map_ne k j f (field i (obj m) fs) h =
    ground (arith, eq_iff i k, eq_iff i j, eq_iff k j, get_field-update_map_ne k j f fs h)
get_field-update_map_ne k j f (field i (scalar t) fs) h =
    ground (arith, eq_iff i k, eq_iff i j, eq_iff k j, get_field-update_map_ne k j f fs h)
get_field-update_map_ne k j f (field i (list t) fs) h =
    ground (arith, eq_iff i k, eq_iff i j, eq_iff k j, get_field-update_map_ne k j f fs h)

-- After the write the key holds the new map.
pub as_map-update_map :
    (k : String) (f : Fields → Fields) (fs : Fields)
    → f end ≡ end
    → as_map (get_field k (update_map k f fs)) ≡ f (as_map (get_field k fs))
unfolding get_field update_map
as_map-update_map k f end h = ground arith
as_map-update_map k f (field i (obj m) fs) h =
    ground (arith, eq_iff i k, as_map-update_map k f fs h)
as_map-update_map k f (field i (scalar t) fs) h =
    ground (arith, eq_iff i k, as_map-update_map k f fs h)
as_map-update_map k f (field i (list t) fs) h =
    ground (arith, eq_iff i k, as_map-update_map k f fs h)
