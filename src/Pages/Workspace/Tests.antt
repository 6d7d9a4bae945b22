-- ===== src/Pages/Workspace/Tests.antt =====
-- The theorems on the workspace at concrete instances.
use frpc_multi.Base.Assoc.{nat_eq}
use frpc_multi.Base.Text.{codes}
use frpc_multi.Console.{InstanceRef, node_health}
use frpc_multi.Console.Health.{health_at}
use frpc_multi.Pages.Workspace.{node_summary}
use frpc_multi.Pages.Workspace.Laws.{node_summary-node_health}
use mathlib.Core.Path.{◌≡◌}
use mathlib.Core.Bool.{true, false}
use mathlib.Core.List.{[], ◌∷◌}

abbrev web : InstanceRef
web = record { name = codes "web"; node_id = 1; node_name = codes "n"; enabled = true }

abbrev db : InstanceRef
db = record { name = codes "db"; node_id = 2; node_name = codes "m"; enabled = false }

node_summary-node_health_example :
    let shown = node_summary [] (web ∷ db ∷ []) 2 in
    let h = health_at 2 (node_health [] (web ∷ db ∷ []) []) in
    (shown.total ≡ h.total)
    × (shown.running ≡ h.running)
    × (shown.stopped ≡ h.stopped)
    × (shown.error ≡ h.error)
    × (shown.disabled ≡ h.disabled)
node_summary-node_health_example = node_summary-node_health [] (web ∷ db ∷ []) 2
