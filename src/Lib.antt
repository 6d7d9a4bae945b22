-- ===== src/Lib.antt =====
-- frpc-multi: the logic of the web console (webui/frontend/src), which edits frpc configurations and
-- drives a library of servers through an HTTP interface.
--
-- The parts, their files here, and the code that they model. A function keeps its name, in snake case.
--   Toml         webui/frontend/src/lib/proxyToml.ts: the editor of frpc.toml. Toml/Value reads and
--                writes single values, Toml/Draft the proxy blocks, Toml/Config the whole file,
--                Toml/Validate the checks that both share.
--   Servers      webui/frontend/src/pages/probe/useServers.ts: the hook of the server library.
--                Servers/Query is the query and its copy in the address, Servers/Update the setters,
--                Servers/Address the effects that keep the address in step, Servers/Cursor the pages behind
--                a cursor, Servers/Selection the selection across pages, Servers/Requests the requests
--                that race.
--   Views        webui/frontend/src/pages/probe/serverViews.ts: saved queries of that hook.
--   Import       webui/frontend/src/pages/probe/useServerImport.ts: imports as jobs.
--   Bulk         webui/frontend/src/pages/probe/useServerBulk.ts: bulk changes as jobs.
--   Discovery    webui/frontend/src/pages/probe/useDiscovery.ts: the hook of the discovery page.
--   Domains      webui/frontend/src/lib/lbDomainView.ts: the rows and filters of the domain page.
--   Console      webui/frontend/src/context/ConsoleContext.tsx and part of
--                webui/frontend/src/lib/format.ts: summary, running actions, health of the nodes.
--   Session      webui/frontend/src/lib/auth.ts and `api` of webui/frontend/src/lib/api.ts.
--   Format       the labels of webui/frontend/src/lib/format.ts and the conditions of
--                webui/frontend/src/pages/probe/serverBulkUi.ts.
--   Endpoint     webui/frontend/src/lib/probeEndpoint.ts: the host of an endpoint.
--   Tags, Nav    webui/frontend/src/lib/geoip.ts and webui/frontend/src/lib/nav.ts.
--   Pages        the pages that keep logic of their own, webui/frontend/src/pages. Pages/TestNodes is
--                TestNodesPage.tsx, Pages/TestCreate is TestCreatePage.tsx (Targets is what is tested,
--                Submit the call), Pages/CreateInstance is CreateInstance.tsx, Pages/LbPage is LbPage.tsx
--                (Dialog is its dialogs), Pages/Candidates is DomainCandidatesDialog.tsx (Library is the servers
--                that may be added), Pages/Jobs is probe/ProbeJobsPanel.tsx, Pages/Workspace is
--                Overview.tsx, Pages/Detail is Detail.tsx, Pages/SavedViews is the part of
--                Probe.tsx that keeps the saved views.
--   Base         texts, decimals, JSON strings, maps in insertion order, and lemmas on lists.
--   Samples      an instance of the number interface for the runs.
--
-- State and calls. The state of a hook (its useState and useRef cells, and what it stores) is a record.
-- An asynchronous function is two definitions: `x_start` up to its `await`, with the request that it
-- sends, and `x_answer` behind it, with the result of the call as an argument. Whatever happens between
-- the two is a sequence of other steps: Servers/Requests/Latest, Import/Locks and Pages/Candidates/Steps give the steps of the
-- calls in flight as relations. A random key, the clock, the visibility of the tab and whether the
-- session storage accepts a write are arguments. Callbacks read the state of the last render, which is
-- taken to be the state at the call; what an effect captures for its answer is a ticket.
--
-- Numbers and texts. A text is the list of its codes. JavaScript's numbers are the interface Numbers of
-- Base/Decimal, with laws that hold for naturals below 2 ^ 53, where floating point is exact. `decimal`
-- divides by ten on fuel n + 1, which is enough as every division makes the number smaller.
-- `strip_from` of Pages/Detail has the length of the line as fuel, as each round takes a character.
-- `toLowerCase`, `Number.parseFloat` and `JSON.parse` of an error body are parameters.
--
-- Not modelled: React's rendering and timers, the markup of the pages, the pages and components that are not listed, the endpoints of api.ts, dates
-- and Intl in format.ts and geoip.ts, and the Python services, whose answers are arguments here.
pub mod Base
pub mod Session
pub mod Tags
pub mod Nav
pub mod Endpoint
pub mod Format
pub mod Toml
pub mod Servers
pub mod Import
pub mod Bulk
pub mod Samples
pub mod Views
pub mod Domains
pub mod Console
pub mod Discovery
pub mod Pages
