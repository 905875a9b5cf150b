-- ===== src/Normalizer/Attrs/Extra.antt =====
-- Which attributes of a span the adapters keep, and under which text.
use mathlib.Core.Option
use halley.Common.{
  String, ◌≡◌, ◌∙◌, none, List, [], ◌∷◌, contains, if◌then◌else◌, or_else, arith, eq_iff,
}
use halley.Common.BTreeMap.{BTreeMap, get, get_last, insert}
use halley.Common.BTreeMap.Laws.{get-insert, get_last-eq-get, IsSorted, insert-IsSorted}
use halley.External.{External}
use halley.Domain.OtlpSpan.{to_attr_string}
use halley.Normalizer.Attrs.{Attributes, extra_from, extra_attributes}

module _ (ext : External) (consumed : List String) where
  get-extra_from :
      (acc : BTreeMap String) (attrs : Attributes) (k : String)
      → get (extra_from ext consumed acc attrs) k ≡ (
          if contains consumed k
          then get acc k
          else or_else (Option.map (to_attr_string ext) (get_last attrs k)) (get acc k))
  unfolding extra_from get_last
  get-extra_from acc [] k = ground arith
  get-extra_from acc ((j, v) ∷ attrs) k =
      let acc' : BTreeMap String =
        if contains consumed j then acc else insert j (to_attr_string ext v) acc in
      get-extra_from acc' attrs k
      ∙ ground (arith, eq_iff j k, get-insert j k (to_attr_string ext v) acc)

  -- Of a span's attributes, each of which has one entry, exactly those are kept whose keys the
  -- adapter does not consume, each as its text.
  pub get-extra_attributes :
      (attrs : Attributes) (k : String)
      → IsSorted attrs
      → get (extra_attributes ext consumed attrs) k
        ≡ (if contains consumed k then none else Option.map (to_attr_string ext) (get attrs k))
  unfolding extra_attributes get
  get-extra_attributes attrs k s =
      get-extra_from [] attrs k ∙ ground (arith, get_last-eq-get attrs k s)

  extra_from-IsSorted :
      (acc : BTreeMap String) (attrs : Attributes)
      → IsSorted acc
      → IsSorted (extra_from ext consumed acc attrs)
  unfolding extra_from
  extra_from-IsSorted acc [] s = s
  extra_from-IsSorted acc ((k, v) ∷ attrs) s =
      extra_from-IsSorted (if contains consumed k then acc else insert k (to_attr_string ext v) acc)
        attrs (ground (arith, insert-IsSorted k (to_attr_string ext v) acc s))

  pub extra_attributes-IsSorted :
      (attrs : Attributes) → IsSorted (extra_attributes ext consumed attrs)
  unfolding extra_attributes
  extra_attributes-IsSorted attrs = extra_from-IsSorted [] attrs tt
