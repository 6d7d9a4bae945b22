-- ===== src/Toml/Draft/RoundTrip.antt =====
-- `parseProxies` undoes `serializeProxies`.
use Prim.Native.Nat.{ℕ}
use Prim.Native.String.{String}
use mathlib.Core.Path.{◌≡◌, refl, sym, ap, ◌∙◌}
use mathlib.Core.Logic.{inl, inr}
use mathlib.Core.Bool.{Bool, true, false}
use mathlib.Core.List.{List, [], ◌∷◌, ◌++◌, map, append-nil, append_assoc}
use native.Mathlib.Omega.{arith}
use frpc_multi.Base.Tests.{if◌then◌else◌}
use frpc_multi.Base.Lists.{is_empty, All, All-append}
use frpc_multi.Base.Text.{Text, codes, trim, trim_start, trim_end, is_space, join, split_lines}
use frpc_multi.Base.Text.Lines.{IsLine, split_lines-append, split_lines-join}
use frpc_multi.Base.Decimal.{Numbers, decimal}
use frpc_multi.Toml.Value.{toml_string}
use frpc_multi.Toml.Value.Strings.{IsPlain}
use frpc_multi.Toml.Draft.{
  ProxyDraft, Reader, header, newline, read_line, read_lines, assign, drafts_of, start,
  parse_proxies, string_line, port_line, domains_line, block_lines, serialize_proxies,
}
use frpc_multi.Toml.Draft.Lines.{line_of}
use frpc_multi.Toml.Value.Arrays.{array_text}
use frpc_multi.Toml.Draft.Domains.{IsDomain}
use frpc_multi.Toml.Draft.Canonical.{
  IsPortText, IsClean, IsCanonical, IsLine-IsPlain, toml_string-IsPlain, decimal-IsPlain,
  array_text-IsPlain, line_of-IsPlain,
}
use frpc_multi.Toml.Draft.Blocks.{
  reading, fields, block_lines-fields, read_lines-block_lines, port_line_empty, port_line-decimal,
}

-- Lines behind a header.
abbrev block_text : List Text → Text
block_text ls = join newline ls

split_lines-block :
    (l : Text) (ls : List Text) (rest : Text)
    → All IsLine (l ∷ ls)
    → split_lines (block_text (l ∷ ls) ++ b'\n' ∷ rest) ≡ (l ∷ ls) ++ split_lines rest
unfolding join
split_lines-block l [] rest (h, _) = split_lines-append l rest h
split_lines-block l (m ∷ ls) rest (h, hs) =
    ap split_lines (append_assoc l (b'\n' ∷ block_text (m ∷ ls)) (b'\n' ∷ rest))
    ∙ split_lines-append l (block_text (m ∷ ls) ++ b'\n' ∷ rest) h
    ∙ ap (◌∷◌ l) (split_lines-block m ls rest hs)

empty_line : (s : Text) → split_lines (b'\n' ∷ s) ≡ [] ∷ split_lines s
unfolding split_lines
empty_line s = refl

nonempty_trim : (c : ℕ) (s : Text) → is_space c ≡ false → is_empty (trim (c ∷ s)) ≡ false
unfolding trim trim_start trim_end
nonempty_trim c s h = rw h (rw h)

bracket-not-space : is_space b'[' ≡ false
unfolding is_space
bracket-not-space = refl

assign-IsLine : (key : String) (v : Text) → IsPlain (codes key) → IsPlain v → IsLine (assign key v)
assign-IsLine key v k h = IsLine-IsPlain (line_of (codes key) v) (line_of-IsPlain (codes key) v k h)

string_line-IsLine :
    (key : String) (s : Text) → IsPlain (codes key) → IsClean s → All IsLine (string_line key s)
unfolding string_line
string_line-IsLine key s k (t, p) = rw t (lines (is_empty s))
  where
    lines : (b : Bool) → All IsLine (if b then [] else assign key (toml_string s) ∷ [])
    lines true = tt
    lines false = (assign-IsLine key (toml_string s) k (toml_string-IsPlain s p), tt)

module _ (js : Numbers) where
  open js use {show, parse, is_finite}

  port_line-IsLine :
      (key : String) (t : Text)
      → IsPlain (codes key)
      → IsPortText t
      → All IsLine (port_line js key t)
  port_line-IsLine key t k (inl e) = rw (e, port_line_empty js key) tt
  port_line-IsLine key t k (inr (n, h, e)) =
      rw (e, port_line-decimal js key n h) (assign-IsLine key (decimal n) k (decimal-IsPlain n), tt)

  domains_line-IsLine : (ds : List Text) → All IsDomain ds → All IsLine (domains_line ds)
  unfolding domains_line
  domains_line-IsLine [] h = tt
  domains_line-IsLine (d ∷ ds) h = (
    assign-IsLine "customDomains" (array_text (d ∷ ds)) (omega arith)
        (array_text-IsPlain (d ∷ ds) h),
    tt,
  )

  -- The lines of a block behind its header.
  fields-IsLine : (d : ProxyDraft) (c : IsCanonical d) → All IsLine (fields js d c.domains)
  fields-IsLine d c = (
    assign-IsLine "name" (toml_string d.name) (omega arith) (toml_string-IsPlain d.name c.name.1),
    (
      assign-IsLine "type" (toml_string d.type) (omega arith) (toml_string-IsPlain d.type c.type.1),
      All-append IsLine (string_line "localIP" d.local_ip) _
          (string_line-IsLine "localIP" d.local_ip (omega arith) c.local_ip)
          (All-append IsLine (port_line js "localPort" d.local_port) _
            (port_line-IsLine "localPort" d.local_port (omega arith) c.local_port)
            (All-append IsLine (port_line js "remotePort" d.remote_port) _
              (port_line-IsLine "remotePort" d.remote_port (omega arith) c.remote_port)
              (All-append IsLine (string_line "subdomain" d.subdomain) _
                (string_line-IsLine "subdomain" d.subdomain (omega arith) c.subdomain)
                (domains_line-IsLine c.domains c.domains_IsDomain)))),
    ),
  )

  header-IsLine : IsLine header
  header-IsLine = IsLine-IsPlain header (omega arith)

  pub split_lines-block_lines :
      (d : ProxyDraft) (rest : Text)
      → IsCanonical d
      → split_lines (join newline (block_lines js d) ++ b'\n' ∷ rest)
        ≡ block_lines js d ++ split_lines rest
  split_lines-block_lines d rest c =
      rw (block_lines-fields js d c)
        (split_lines-block header (fields js d c.domains) rest (header-IsLine, fields-IsLine d c))

  split_lines-last :
      (d : ProxyDraft)
      → IsCanonical d
      → split_lines (join newline (block_lines js d)) ≡ block_lines js d
  split_lines-last d c =
      rw (block_lines-fields js d c)
        (split_lines-join header (fields js d c.domains) header-IsLine (fields-IsLine d c))

  skip_empty : (r : Reader) → read_line js [] r ≡ r
  unfolding read_line trim trim_start trim_end
  skip_empty r = refl

  abbrev block : ProxyDraft → Text
  block d = join newline (block_lines js d)

  abbrev blocks : List ProxyDraft → Text
  blocks ds = join (codes "\n\n") (map block ds)

  pub read_blocks :
      (d : ProxyDraft) (ds : List ProxyDraft) (r : Reader)
      → All IsCanonical (d ∷ ds)
      → drafts_of (read_lines js (split_lines (blocks (d ∷ ds))) r) ≡ drafts_of r ++ d ∷ ds
  unfolding join read_lines
  read_blocks d [] r (c, _) =
      ap (λ ls. drafts_of (read_lines js ls r)) (split_lines-last d c ∙ sym (append-nil _))
      ∙ ap drafts_of (read_lines-block_lines js d [] r c)
  read_blocks d (e ∷ ds) r (c, h) =
      let rest = split_lines (blocks (e ∷ ds)) in
      ap (λ ls. drafts_of (read_lines js ls r))
        (split_lines-block_lines d (b'\n' ∷ blocks (e ∷ ds)) c
          ∙ ap (λ x. block_lines js d ++ x) (empty_line (blocks (e ∷ ds))))
      ∙ ap drafts_of (read_lines-block_lines js d ([] ∷ rest) r c)
      ∙ ap (λ x. drafts_of (read_lines js rest x)) (skip_empty (reading (drafts_of r) d))
      ∙ read_blocks e ds (reading (drafts_of r) d) h
      ∙ append_assoc (drafts_of r) (d ∷ []) (e ∷ ds)

  blocks_not_empty :
      (d : ProxyDraft) (ds : List ProxyDraft) → is_empty (trim (blocks (d ∷ ds))) ≡ false
  unfolding block_lines join
  blocks_not_empty d [] = nonempty_trim b'[' _ bracket-not-space
  blocks_not_empty d (e ∷ ds) = nonempty_trim b'[' _ bracket-not-space

  parse_proxies-blocks :
      (d : ProxyDraft) (ds : List ProxyDraft)
      → All IsCanonical (d ∷ ds)
      → parse_proxies js (blocks (d ∷ ds)) ≡ d ∷ ds
  unfolding parse_proxies
  parse_proxies-blocks d ds h = rw (blocks_not_empty d ds) (read_blocks d ds start h)

  parse_proxies-nil : parse_proxies js [] ≡ []
  unfolding parse_proxies trim trim_start trim_end
  parse_proxies-nil = refl

  -- For every list of canonical drafts, parsing the text that `serializeProxies` writes gives the
  -- same drafts in the same order.
  pub parse_proxies-serialize_proxies :
      (ds : List ProxyDraft) → All IsCanonical ds → parse_proxies js (serialize_proxies js ds) ≡ ds
  unfolding serialize_proxies
  parse_proxies-serialize_proxies [] h = unfold join in parse_proxies-nil
  parse_proxies-serialize_proxies (d ∷ ds) h = parse_proxies-blocks d ds h
