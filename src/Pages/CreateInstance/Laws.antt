-- ===== src/Pages/CreateInstance/Laws.antt =====
-- What the form sends, and the choice of the node.
use frpc_multi.Base.Decimal.{Numbers}
use frpc_multi.Base.Text.{Text, ◌===◌, ===_iff, trim}
use frpc_multi.Console.{Node, InstanceRef}
use frpc_multi.Toml.Draft.{ProxyDraft}
use frpc_multi.Toml.Config.{parse_frpc_config, FrpcError}
use frpc_multi.Toml.Config.Valid.{IsValid, validate_frpc_draft-IsValid}
use frpc_multi.Pages.CreateInstance.{
  is_lower, is_name_tail, Form, Payload, create_start, name_error, is_instance_name,
  structured_errors, follow_node, has_node, resolved_initial_node_id, first_online, payload_of,
}
use Prim.Native.Nat.{ℕ, ◌≤◌}
use mathlib.Core.Path.{◌≡◌, refl, sym, ap, ◌∙◌}
use mathlib.Core.Logic.{◌⊎◌, ◌≢◌, inl, inr}
use mathlib.Core.Bool.{Bool, true, false, ◌&&◌}
use mathlib.Core.Option.{Option, some}
use mathlib.Core.List.{List, [], ◌∷◌, ◌++◌}
use native.Mathlib.Omega.{arith}
use frpc_multi.Base.Tests.{Bool-cases, ◌==◌, ==_refl, is_some}
use frpc_multi.Base.Lists.{length, last?, All, is_empty, any}

named :
    (instances : List InstanceRef) (s : Form)
    → is_some (name_error instances s) ≡ false
    → (is_instance_name (trim s.name) ≡ true)
      × (any
            (λ (item : InstanceRef). item.node_id == s.node_id && item.name === trim s.name)
            instances
          ≡ false)
unfolding name_error
named instances s h = (ground arith, ground arith)

no_errors : (errors : List FrpcError) → is_empty errors ≡ true → errors ≡ []
no_errors [] h = refl
no_errors (e ∷ errors) h = absurd (ground arith)

-- A small letter, a digit or a dash.
abbrev pub IsNameCode : ℕ → Type 0
IsNameCode c = ((b'a' ≤ c) × (c ≤ b'z')) ⊎ (((48 ≤ c) × (c ≤ 57)) ⊎ (c ≡ b'-'))

-- Three to forty of them, with no dash at the ends.
pub record IsName (t : Text) : Type 0 where
  pub low : 3 ≤ length t
  pub high : length t ≤ 40
  pub plain : All IsNameCode t
  pub first : (rest : Text) → t ≢ b'-' ∷ rest
  pub last : last? t ≢ some b'-'

is_lower-IsNameCode : (c : ℕ) → is_lower c ≡ true → IsNameCode c
is_lower-IsNameCode c h = ground arith

is_name_tail-All : (t : Text) → is_name_tail t ≡ true → All IsNameCode t
unfolding is_name_tail
is_name_tail-All [] h = tt
is_name_tail-All (c ∷ []) h = (is_lower-IsNameCode c h, tt)
is_name_tail-All (c ∷ d ∷ t) h = (ground arith, is_name_tail-All (d ∷ t) (ground arith))

is_name_tail-last : (t : Text) → is_name_tail t ≡ true → last? t ≢ some b'-'
unfolding is_name_tail
is_name_tail-last [] h = ground arith
is_name_tail-last (c ∷ []) h = λ e. ground arith
is_name_tail-last (c ∷ d ∷ t) h = is_name_tail-last (d ∷ t) (ground arith)

last?-cons : (c : ℕ) (t : Text) → 2 ≤ length t → last? (c ∷ t) ≡ last? t
last?-cons c [] h = ground arith
last?-cons c (d ∷ t) h = refl

is_instance_name-IsName : (t : Text) → is_instance_name t ≡ true → IsName t
unfolding is_instance_name
is_instance_name-IsName [] h = ground arith
is_instance_name-IsName (c ∷ t) h =
    let tail : is_name_tail t ≡ true = ground arith in
    let long : 2 ≤ length t = ground arith in
    record {
      low = omega arith;
      high = ground arith;
      plain = (is_lower-IsNameCode c (ground arith), is_name_tail-All t tail);
      first = λ rest e. ground arith;
      last = λ e. is_name_tail-last t tail (sym (last?-cons c t long) ∙ e);
    }

-- No instance of the node has the name.
abbrev pub IsFree : ℕ → Text → List InstanceRef → Type 0
IsFree node_id name = All (λ (item : InstanceRef). (item.node_id ≢ node_id) ⊎ (item.name ≢ name))

any-IsFree :
    (node_id : ℕ) (name : Text) (instances : List InstanceRef)
    → any (λ (item : InstanceRef). item.node_id == node_id && item.name === name) instances ≡ false
    → IsFree node_id name instances
any-IsFree node_id name [] h = tt
any-IsFree node_id name (item ∷ instances) h = (
  elim (Bool-cases (item.node_id == node_id)) [
    | inl e ↦ inr (λ same. ground (arith, (===_iff item.name name).1 same))
    | inr e ↦ inl (λ same. ground arith)
  ],
  any-IsFree node_id name instances (ground arith),
)

module _ (js : Numbers) where
  -- What the form sends to be created has a name of three to forty small letters, digits and dashes, with
  -- no dash at its ends, that no instance of its node has, and a text whose proxies, as the editor reads
  -- them, each have a name, a type, ports that are blank or an integer above 0 and below 65536, and, if of
  -- type tcp, a remote port.
  pub create_start-IsValid :
      (now : Bool) (instances : List InstanceRef) (nodes : List Node) (s : Form) (node_id : ℕ)
      (payload : Payload) (before : List ProxyDraft) (d : ProxyDraft) (after : List ProxyDraft)
      → (create_start js now instances nodes s).0 ≡ some (node_id, payload)
      → (parse_frpc_config js payload.config_text).proxies ≡ before ++ d ∷ after
      → IsName payload.name × IsFree node_id payload.name instances × IsValid js d
  unfolding create_start structured_errors payload_of
  create_start-IsValid now instances nodes s node_id payload before d after h e =
      let no_name_error : is_some (name_error instances s) ≡ false = ground arith in
      let no_draft_error : is_empty (structured_errors js s) ≡ true = ground arith in
      let of_node : s.node_id ≡ node_id = ground arith in
      let same : payload_of now s ≡ payload = ground arith in
      let of_name : trim s.name ≡ payload.name = ap (λ (p : Payload). p.name) same in
      let of_text : s.config_text ≡ payload.config_text =
        ap (λ (p : Payload). p.config_text) same in
      let (is_name, free) = named instances s no_name_error in
      (
        rw (← of_name) (is_instance_name-IsName (trim s.name) is_name),
        rw (← of_name, ← of_node) (any-IsFree s.node_id (trim s.name) instances free),
        validate_frpc_draft-IsValid js (parse_frpc_config js payload.config_text) before d after
            (rw (← of_text) (no_errors (structured_errors js s) no_draft_error)) e,
      )

first_online_listed :
    (nodes : List Node) → (first_online nodes ≡ 0) ⊎ (has_node (first_online nodes) nodes ≡ true)
unfolding first_online
first_online_listed [] = inl refl
first_online_listed (node ∷ nodes) = ground (arith, first_online_listed nodes, ==_refl node.id)

resolved_listed :
    (workspace : Option ℕ) (nodes : List Node)
    → is_empty nodes ≡ false
    → has_node (resolved_initial_node_id workspace nodes) nodes ≡ true
unfolding resolved_initial_node_id
resolved_listed workspace [] h = absurd (ground arith)
resolved_listed workspace (node ∷ nodes) h =
    ground (arith, first_online_listed (node ∷ nodes), ==_refl node.id)

-- The effect that keeps the node leaves one that is listed, if any node is and nobody chose node 0.
pub follow_node_listed :
    (workspace : Option ℕ) (nodes : List Node) (s : Form)
    → is_empty nodes ≡ false
    → (s.node_dirty && s.node_id == 0) ≡ false
    → has_node (follow_node workspace nodes s).node_id nodes ≡ true
unfolding follow_node
follow_node_listed workspace nodes s h k = ground (arith, resolved_listed workspace nodes h)
