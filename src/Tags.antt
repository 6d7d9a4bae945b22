-- ===== src/Tags.antt =====
-- webui/frontend/src/lib/geoip.ts: which tags may be edited.
pub mod Laws
pub mod Tests
use mathlib.Core.Bool.{Bool, true, false, not, ◌&&◌, ◌||◌}
use mathlib.Core.Option.{Option, none, some}
use mathlib.Core.List.{List, map}
use native.Mathlib.Omega.{arith}
use frpc_multi.Base.Tests.{◌==◌, or_else}
use frpc_multi.Base.Lists.{any, filter}
use frpc_multi.Base.Text.{Text, ◌===◌}
use frpc_multi.Base.Assoc.{text_eq, contains, distinct}

pub data TagSource : Type 0 where
  manual geoip : TagSource

-- `TagCategory` and `ManagedTag`, in the fields that are read; an absent property is `none`.
pub record TagCategory : Type 0 where
  pub read_only : Option Bool
  pub source : Option TagSource
  pub id : Text

pub record ManagedTag : Type 0 where
  pub read_only : Option Bool
  pub source : Option TagSource
  pub category_id : Text
  pub name : Text

abbrev pub is_true : Option Bool → Bool
is_true none = false
is_true (some b) = b

abbrev pub is_geoip : Option TagSource → Bool
is_geoip (some geoip) = true
is_geoip _ = false

unfoldable pub is_read_only_tag : ManagedTag → List TagCategory → Text → Bool
is_read_only_tag item categories category_id =
    is_true item.read_only
    || is_geoip item.source
    || any
        (λ category.
          category.id === category_id && (is_true category.read_only || is_geoip category.source))
        categories

unfoldable pub editable_tags : List ManagedTag → List TagCategory → List ManagedTag
editable_tags tags categories =
    filter (λ tag. not (is_read_only_tag tag categories tag.category_id)) tags

unfoldable pub names_of : List ManagedTag → List Text
names_of tags = map (λ tag. tag.name) tags

-- A `Set` in insertion order.
unfoldable pub read_only_tag_names : List ManagedTag → List TagCategory → List Text
read_only_tag_names tags categories =
    let manual_names = names_of (editable_tags tags categories) in
    distinct (
      names_of (
        filter
          (λ tag.
            is_read_only_tag tag categories tag.category_id && not (contains tag.name manual_names))
          tags))

unfoldable pub manual_geo_labels : List Text → Option (List Text) → List Text
manual_geo_labels labels manual_labels = or_else manual_labels labels
