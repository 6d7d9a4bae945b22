-- ===== src/Toml/Draft/Blocks.antt =====
-- Reading the lines of one block.
use Prim.Native.Nat.{ℕ, ◌^◌, ◌<◌}
use Prim.Native.String.{String}
use mathlib.Core.Path.{◌≡◌, refl, sym, ap, ◌∙◌}
use mathlib.Core.Logic.{◌≢◌, ◌⊎◌, inl, inr}
use mathlib.Core.Bool.{false}
use mathlib.Core.Option.{some}
use mathlib.Core.List.{List, [], ◌∷◌, ◌++◌, append_assoc}
use native.Mathlib.Omega.{arith}
use frpc_multi.Base.Lists.{is_empty, All}
use frpc_multi.Base.Text.{
  Text, codes, trim, trim_start, trim_end, is_space, starts_with, join, ◌===◌,
}
use frpc_multi.Base.Decimal.{Numbers, decimal, decimal-ne-nil}
use frpc_multi.Base.Digits.{trim-decimal}
use frpc_multi.Toml.Value.{toml_string}
use frpc_multi.Toml.Value.Strings.{parse_toml_string-toml_string}
use frpc_multi.Toml.Value.Ints.{parse_toml_int-decimal}
use frpc_multi.Toml.Value.Arrays.{comma, array_text, IsItem, parse_toml_string_array-array_text}
use frpc_multi.Toml.Draft.{
  ProxyDraft, Reader, create_empty_proxy, header, is_proxy_block, set_field, read_line, read_lines,
  assign, drafts_of, string_line, port_line, domains_line, block_lines,
}
use frpc_multi.Toml.Draft.Domains.{IsDomain, domains_of-join}
use frpc_multi.Toml.Draft.Lines.{IsKey, IsValue, read_line-assign}
use frpc_multi.Toml.Draft.Canonical.{
  IsPortText, IsClean, IsCanonical, toml_string-IsValue, decimal-IsValue, array_text-IsValue,
}

abbrev pub draft_of : Text → Text → Text → Text → Text → Text → Text → ProxyDraft
draft_of name type ip local remote sub domains = record {
  name = name;
  type = type;
  local_ip = ip;
  local_port = local;
  remote_port = remote;
  subdomain = sub;
  custom_domains = domains;
}

abbrev pub reading : List ProxyDraft → ProxyDraft → Reader
reading closed draft = record { closed = closed; current = some draft }

IsItem-IsDomain : (ds : List Text) → All IsDomain ds → All IsItem ds
IsItem-IsDomain [] h = tt
IsItem-IsDomain (d ∷ ds) (k, h) = (k.item, IsItem-IsDomain ds h)

not_empty : (s : Text) → s ≢ [] → is_empty s ≡ false
not_empty [] h = absurd (h refl)
not_empty (c ∷ s) h = refl

empty_cases : (s : Text) → (s ≡ []) ⊎ (is_empty s ≡ false)
empty_cases [] = inl refl
empty_cases (c ∷ s) = inr refl

module _ (js : Numbers) where
  open js use {show, parse, is_finite, of_ℕ, parse-decimal, show-of_ℕ, of_ℕ-is_finite}

  pub read_lines-append :
      (xs ys : List Text) (r : Reader)
      → read_lines js (xs ++ ys) r ≡ read_lines js ys (read_lines js xs r)
  unfolding read_lines
  read_lines-append [] ys r = refl
  read_lines-append (x ∷ xs) ys r = read_lines-append xs ys (read_line js x r)

  -- The header starts a draft.
  read_line-header : (r : Reader) → read_line js header r ≡ reading (drafts_of r) create_empty_proxy
  unfolding read_line is_proxy_block trim trim_start trim_end is_space starts_with
  read_line-header r = refl

  read_assign :
      (key : String) (v : Text) (rest : List Text) (closed : List ProxyDraft) (d : ProxyDraft)
      → IsKey (codes key)
      → IsValue v
      → read_lines js (assign key v ∷ rest) (reading closed d)
        ≡ read_lines js rest (reading closed (set_field js (codes key) v d))
  unfolding read_lines
  read_assign key v rest closed d k h =
      ap (read_lines js rest) (read_line-assign js (codes key) v d (reading closed d) k h refl)

  pub port_line-decimal :
      (key : String) (n : ℕ)
      → n < 2 ^ 53
      → port_line js key (decimal n) ≡ assign key (decimal n) ∷ []
  unfolding port_line
  port_line-decimal key n h = rw (
    trim-decimal n,
    not_empty (decimal n) (decimal-ne-nil n),
    parse-decimal n h,
    of_ℕ-is_finite n,
    show-of_ℕ n h,
  )

  pub port_line_empty : (key : String) → port_line js key [] ≡ []
  unfolding port_line trim trim_start trim_end
  port_line_empty key = refl

  module _ (rest : List Text) (closed : List ProxyDraft)
      (name type ip local remote sub : Text) where
    read_name :
        IsClean name
        → read_lines js
            (assign "name" (toml_string name) ∷ rest)
            (reading closed create_empty_proxy)
          ≡ read_lines js rest
              (reading closed (draft_of name (codes "tcp") (codes "127.0.0.1") [] [] [] []))
    unfolding set_field ◌===◌ create_empty_proxy
    read_name (t, p) =
        read_assign "name" (toml_string name) rest closed create_empty_proxy (omega arith)
          (toml_string-IsValue name)
        ∙ rw (parse_toml_string-toml_string name p)

    read_type :
        IsClean type
        → read_lines js
            (assign "type" (toml_string type) ∷ rest)
            (reading closed (draft_of name (codes "tcp") ip [] [] [] []))
          ≡ read_lines js rest (reading closed (draft_of name type ip [] [] [] []))
    unfolding set_field ◌===◌
    read_type (t, p) =
        read_assign "type" (toml_string type) rest closed _ (omega arith) (toml_string-IsValue type)
        ∙ rw (parse_toml_string-toml_string type p)

    read_local_ip :
        IsClean ip
        → is_empty ip ≡ false
        → read_lines js
            (string_line "localIP" ip ++ rest)
            (reading closed (draft_of name type (codes "127.0.0.1") [] [] [] []))
          ≡ read_lines js rest (reading closed (draft_of name type ip [] [] [] []))
    unfolding set_field ◌===◌ string_line
    read_local_ip (t, p) e =
        rw (t, e)
          (read_assign "localIP" (toml_string ip) rest closed _ (omega arith)
              (toml_string-IsValue ip)
            ∙ rw (parse_toml_string-toml_string ip p))

    read_local_port :
        IsPortText local
        → read_lines js
            (port_line js "localPort" local ++ rest)
            (reading closed (draft_of name type ip [] [] [] []))
          ≡ read_lines js rest (reading closed (draft_of name type ip local [] [] []))
    unfolding set_field ◌===◌
    read_local_port (inl e) = rw (e, port_line_empty "localPort")
    read_local_port (inr (n, h, e)) =
        rw (e, port_line-decimal "localPort" n h)
          (read_assign "localPort" (decimal n) rest closed _ (omega arith) (decimal-IsValue n)
            ∙ rw (parse_toml_int-decimal js n h, show-of_ℕ n h))

    read_remote_port :
        IsPortText remote
        → read_lines js
            (port_line js "remotePort" remote ++ rest)
            (reading closed (draft_of name type ip local [] [] []))
          ≡ read_lines js rest (reading closed (draft_of name type ip local remote [] []))
    unfolding set_field ◌===◌
    read_remote_port (inl e) = rw (e, port_line_empty "remotePort")
    read_remote_port (inr (n, h, e)) =
        rw (e, port_line-decimal "remotePort" n h)
          (read_assign "remotePort" (decimal n) rest closed _ (omega arith) (decimal-IsValue n)
            ∙ rw (parse_toml_int-decimal js n h, show-of_ℕ n h))

    read_subdomain :
        IsClean sub
        → read_lines js
            (string_line "subdomain" sub ++ rest)
            (reading closed (draft_of name type ip local remote [] []))
          ≡ read_lines js rest (reading closed (draft_of name type ip local remote sub []))
    unfolding set_field ◌===◌ string_line
    read_subdomain (t, p) = elim (empty_cases sub) [
      | inl e ↦ rw (t, e)
      | inr e ↦
          rw (t, e)
            (read_assign "subdomain" (toml_string sub) rest closed _ (omega arith)
                (toml_string-IsValue sub)
              ∙ rw (parse_toml_string-toml_string sub p))
    ]

    read_domains :
        (ds : List Text)
        → All IsDomain ds
        → read_lines js
            (domains_line ds ++ rest)
            (reading closed (draft_of name type ip local remote sub []))
          ≡ read_lines js rest
              (reading closed (draft_of name type ip local remote sub (join comma ds)))
    unfolding set_field ◌===◌ domains_line
    read_domains [] h = unfold join in refl
    read_domains (d ∷ ds) h =
        read_assign "customDomains" (array_text (d ∷ ds)) rest closed _ (omega arith)
          (array_text-IsValue (d ∷ ds))
        ∙ rw (parse_toml_string_array-array_text (d ∷ ds) (IsItem-IsDomain (d ∷ ds) h))

  -- The lines behind the header of a canonical draft.
  abbrev pub fields : ProxyDraft → List Text → List Text
  fields d domains =
      assign "name" (toml_string d.name)
      ∷ assign "type" (toml_string d.type)
      ∷ (string_line "localIP" d.local_ip
          ++ (port_line js "localPort" d.local_port
              ++ (port_line js "remotePort" d.remote_port
                  ++ (string_line "subdomain" d.subdomain ++ domains_line domains))))

  pub block_lines-fields :
      (d : ProxyDraft) (c : IsCanonical d) → block_lines js d ≡ header ∷ fields d c.domains
  unfolding block_lines
  block_lines-fields d c = rw (
    c.name.0,
    c.type_given,
    c.type.0,
    c.custom_domains,
    domains_of-join c.domains c.domains_IsDomain,
  )

  lines_apart :
      (d : ProxyDraft) (rest : List Text) (c : IsCanonical d)
      → block_lines js d ++ rest
        ≡ header
          ∷ assign "name" (toml_string d.name)
          ∷ assign "type" (toml_string d.type)
          ∷ (string_line "localIP" d.local_ip
              ++ (port_line js "localPort" d.local_port
                  ++ (port_line js "remotePort" d.remote_port
                      ++ (string_line "subdomain" d.subdomain
                          ++ (domains_line c.domains ++ rest)))))
  lines_apart d rest c = rw (block_lines-fields d c) (simp append_assoc)

  -- The lines of a block, read behind other drafts, give the draft back.
  pub read_lines-block_lines :
      (d : ProxyDraft) (rest : List Text) (r : Reader)
      → IsCanonical d
      → read_lines js (block_lines js d ++ rest) r ≡ read_lines js rest (reading (drafts_of r) d)
  unfolding read_lines
  read_lines-block_lines d rest r c =
      let closed = drafts_of r in
      let ds = c.domains in
      let l7 = domains_line ds ++ rest in
      let l6 = string_line "subdomain" d.subdomain ++ l7 in
      let l5 = port_line js "remotePort" d.remote_port ++ l6 in
      let l4 = port_line js "localPort" d.local_port ++ l5 in
      let l3 = string_line "localIP" d.local_ip ++ l4 in
      let l2 = assign "type" (toml_string d.type) ∷ l3 in
      let l1 = assign "name" (toml_string d.name) ∷ l2 in
      let n = d.name in
      let t = d.type in
      let ip = d.local_ip in
      let lp = d.local_port in
      let rp = d.remote_port in
      let sd = d.subdomain in
      ap (λ x. read_lines js x r) (lines_apart d rest c)
      ∙ ap (read_lines js l1) (read_line-header r)
      ∙ read_name l2 closed n t ip lp rp sd c.name
      ∙ read_type l3 closed n t (codes "127.0.0.1") lp rp sd c.type
      ∙ read_local_ip l4 closed n t ip lp rp sd c.local_ip c.local_ip_given
      ∙ read_local_port l5 closed n t ip lp rp sd c.local_port
      ∙ read_remote_port l6 closed n t ip lp rp sd c.remote_port
      ∙ read_subdomain l7 closed n t ip lp rp sd c.subdomain
      ∙ read_domains rest closed n t ip lp rp sd ds c.domains_IsDomain
      ∙ ap (λ x. read_lines js rest (reading closed (draft_of n t ip lp rp sd x)))
          (sym c.custom_domains)
