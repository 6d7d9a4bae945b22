-- ===== src/Tags/Tests.antt =====
-- The theorem on tags at concrete tags.
use mathlib.Core.Option.{none, some}
use mathlib.Core.List.{List, [], ◌∷◌}
use frpc_multi.Base.Text.{codes}
use frpc_multi.Base.Assoc.{text_eq}
use frpc_multi.Tags.{ManagedTag, geoip, manual}

abbrev tag : ManagedTag
tag = record { read_only = none; source = some geoip; category_id = codes "c"; name = codes "US" }

abbrev tags : List ManagedTag
tags = tag ∷ record tag { source = some manual } ∷ record tag { name = codes "DE" } ∷ []
