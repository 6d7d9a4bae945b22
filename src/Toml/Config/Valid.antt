-- ===== src/Toml/Config/Valid.antt =====
-- What a draft without validation errors guarantees.
use Prim.Native.Nat.{ℕ, suc, ◌+◌}
use mathlib.Core.Path.{◌≡◌, refl, sym, ap, ◌∙◌, subst}
use mathlib.Core.Logic.{inl, inr, ◌≢◌, ◌⊎◌}
use mathlib.Core.Bool.{Bool, true, false, not, ◌&&◌}
use mathlib.Core.List.{List, [], ◌∷◌, ◌++◌, append_assoc}
use native.Mathlib.Omega.{arith}
use frpc_multi.Base.Tests.{if◌then◌else◌, Bool-cases}
use frpc_multi.Base.Lists.{length, is_empty, any}
use frpc_multi.Base.Text.{Text, codes, ◌===◌, ===_iff, trim}
use frpc_multi.Base.Decimal.{Numbers}
use frpc_multi.Toml.Draft.{ProxyDraft}
use frpc_multi.Toml.Validate.{validate_proxy, name_taken, others_than, is_port_string}
use frpc_multi.Toml.Config.{FrpcConfigDraft, proxy_errors, validate_frpc_draft}

others_than-append :
    {A : Type 0} (before : List A) (x : A) (after : List A)
    → others_than (length before) (before ++ x ∷ after) ≡ before ++ after
unfolding others_than
others_than-append [] x after = refl
others_than-append (y ∷ before) x after = ap (λ ys. y ∷ ys) (others_than-append before x after)

any-false :
    {A : Type 0} (p : A → Bool) (before : List A) (x : A) (after : List A)
    → any p (before ++ x ∷ after) ≡ false
    → p x ≡ false
any-false p [] x after h = ground arith
any-false p (y ∷ before) x after h = any-false p before x after (ground arith)

no_issues :
    {A B : Type 0} (issues : List A) (x : B) (rest : List B)
    → ((if is_empty issues then [] else x ∷ []) ++ rest) ≡ []
    → (issues ≡ []) × (rest ≡ [])
no_issues [] x rest h = (refl, h)
no_issues (i ∷ issues) x rest h = ground arith

append-nil_right : {A : Type 0} (xs ys : List A) → xs ++ ys ≡ [] → ys ≡ []
append-nil_right [] ys h = h
append-nil_right (x ∷ xs) ys h = ground arith

is_empty-true : (t : Text) → is_empty t ≡ true → t ≡ []
is_empty-true [] h = refl
is_empty-true (c ∷ t) h = ground arith

is_empty-false : (t : Text) → is_empty t ≡ false → t ≢ []
is_empty-false [] h = ground arith
is_empty-false (c ∷ t) h = ground arith

module _ (js : Numbers) where
  open js use {Num, parse, is_integer, lt, of_ℕ}

  proxy_errors-at :
      (ps before : List ProxyDraft) (index : ℕ) (d : ProxyDraft) (after : List ProxyDraft)
      → proxy_errors js ps index (before ++ d ∷ after) ≡ []
      → validate_proxy js d (index + length before) ps ≡ []
  unfolding proxy_errors
  proxy_errors-at ps [] index d after h =
      subst (λ i. validate_proxy js d i ps ≡ []) (omega arith)
        (no_issues (validate_proxy js d index ps) _ _ h).0
  proxy_errors-at ps (x ∷ before) index d after h =
      subst (λ i. validate_proxy js d i ps ≡ []) (omega arith)
        (proxy_errors-at ps before (suc index) d after
          (no_issues (validate_proxy js x index ps) _ _ h).1)

  -- An integer above 0 and below 65536.
  pub record IsPort (num : Num) : Type 0 where
    pub whole : is_integer num ≡ true
    pub above : lt (of_ℕ 0) num ≡ true
    pub below : lt num (of_ℕ 65536) ≡ true

  -- Blank, or the text of a port.
  abbrev pub IsPortText : Text → Type 0
  IsPortText t = (trim t ≡ []) ⊎ IsPort (parse (trim t))

  -- A proxy that has a name, a type, no bad port, and a remote port if it is of type tcp.
  pub record IsValid (d : ProxyDraft) : Type 0 where
    pub name : trim d.name ≢ []
    pub type : d.type ≢ []
    pub local : IsPortText d.local_port
    pub remote : IsPortText d.remote_port
    pub tcp : (d.type ≢ codes "tcp") ⊎ (trim d.remote_port ≢ [])

  is_port_string-IsPort : (t : Text) → is_port_string js t ≡ true → IsPort (parse (trim t))
  unfolding is_port_string
  is_port_string-IsPort t h = record {
    whole = ground arith;
    above = ground arith;
    below = ground arith;
  }

  port_text :
      (t : Text) → (not (is_empty (trim t)) && not (is_port_string js t)) ≡ false → IsPortText t
  port_text t h = elim (Bool-cases (is_empty (trim t))) [
    | inl e ↦ inl (is_empty-true (trim t) e)
    | inr e ↦ inr (is_port_string-IsPort t (ground arith))
  ]

  tcp_remote :
      (type remote : Text)
      → (type === codes "tcp" && is_empty remote) ≡ false
      → (type ≢ codes "tcp") ⊎ (remote ≢ [])
  tcp_remote type remote h = elim (Bool-cases (is_empty remote)) [
    | inl e ↦ inl (λ same. ground (arith, (===_iff type (codes "tcp")).1 same))
    | inr e ↦ inr (is_empty-false remote e)
  ]

  validate_proxy-nil :
      (d : ProxyDraft) (own : ℕ) (ps : List ProxyDraft)
      → validate_proxy js d own ps ≡ []
      → IsValid d × (name_taken (trim d.name) own ps ≡ false)
  unfolding validate_proxy
  validate_proxy-nil d own ps h = (
    record {
      name = is_empty-false (trim d.name) (ground arith);
      type = is_empty-false d.type (ground arith);
      local = port_text d.local_port (ground arith);
      remote = port_text d.remote_port (ground arith);
      tcp = tcp_remote d.type (trim d.remote_port) (ground arith);
    },
    ground arith,
  )

  draft_errors-at :
      (draft : FrpcConfigDraft) (before : List ProxyDraft) (d : ProxyDraft)
      (after : List ProxyDraft)
      → validate_frpc_draft js draft ≡ []
      → draft.proxies ≡ before ++ d ∷ after
      → validate_proxy js d (length before) draft.proxies ≡ []
  unfolding validate_frpc_draft
  draft_errors-at draft before d after h e =
      subst (λ i. validate_proxy js d i draft.proxies ≡ []) (omega arith)
        (proxy_errors-at draft.proxies before 0 d after (
          ap (proxy_errors js draft.proxies 0) (sym e)
          ∙ append-nil_right _ _ (append-nil_right _ _ h)))

  -- If a draft of a configuration has no validation errors, then each of its proxies has a name, a type,
  -- ports that are blank or an integer above 0 and below 65536, and, if it is of type tcp, a remote port.
  pub validate_frpc_draft-IsValid :
      (draft : FrpcConfigDraft) (before : List ProxyDraft) (d : ProxyDraft)
      (after : List ProxyDraft)
      → validate_frpc_draft js draft ≡ []
      → draft.proxies ≡ before ++ d ∷ after
      → IsValid d
  validate_frpc_draft-IsValid draft before d after h e =
      (validate_proxy-nil d (length before) draft.proxies
        (draft_errors-at draft before d after h e)).0

  -- If a draft of a configuration has no validation errors, then no two of its proxies have the same
  -- name, blanks at the ends aside.
  pub validate_frpc_draft-names :
      (draft : FrpcConfigDraft) (before : List ProxyDraft) (d : ProxyDraft)
      (middle : List ProxyDraft) (d' : ProxyDraft) (after : List ProxyDraft)
      → validate_frpc_draft js draft ≡ []
      → draft.proxies ≡ before ++ d ∷ (middle ++ d' ∷ after)
      → trim d'.name ≢ trim d.name
  unfolding name_taken
  validate_frpc_draft-names draft before d middle d' after h e same =
      let rest = middle ++ d' ∷ after in
      let free =
        (validate_proxy-nil d (length before) draft.proxies
          (draft_errors-at draft before d rest h e)).1 in
      let others = ap (others_than (length before)) e ∙ others_than-append before d rest in
      let apart =
        any-false (λ other. trim other.name === trim d.name) (before ++ middle) d' after
          (ap (any (λ other. trim other.name === trim d.name))
              (append_assoc before middle (d' ∷ after) ∙ sym others)
            ∙ free) in
      ground (arith, ===_iff (trim d'.name) (trim d.name))
