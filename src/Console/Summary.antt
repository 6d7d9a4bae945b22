-- ===== src/Console/Summary.antt =====
-- The recent load that a poll keeps, and the actions that run.
use Prim.Native.Nat.{ℕ, zero, suc, ◌-◌, ◌≤◌}
use mathlib.Core.Path.{◌≡◌, refl, ap, ◌∙◌}
use mathlib.Core.Logic.{◌⊎◌, ◌≢◌, inl, inr}
use mathlib.Core.Option.{Option, none, some}
use mathlib.Core.List.{List, [], ◌∷◌, ◌++◌}
use native.Mathlib.Omega.{arith}
use frpc_multi.Base.Tests.{if◌then◌else◌, Bool-cases, or_else}
use frpc_multi.Base.Lists.{All, length, drop, last?, length-append}
use frpc_multi.Base.Text.{Text, ===_iff, ◌===◌}
use frpc_multi.Base.Assoc.{text_eq, get, put, get-put, get-delete}
use frpc_multi.Console.{
  add_stat, SummaryItem, InstanceStats, InstanceRef, Node, SummaryResponse, ConsoleState, recent,
  stats_history_len, parse_percent, stats_history, stat_map, summary_answer, action_start,
  action_end, instance_key,
}

length-drop : {A : Type 0} (n : ℕ) (xs : List A) → length (drop n xs) ≡ length xs - n
length-drop zero xs = omega arith
length-drop (suc n) [] = omega arith
length-drop (suc n) (x ∷ xs) = omega (arith, length-drop n xs)

last?-append : {A : Type 0} (xs : List A) (x : A) → last? (xs ++ x ∷ []) ≡ some x
last?-append [] x = refl
last?-append (y ∷ []) x = refl
last?-append (y ∷ z ∷ xs) x = last?-append (z ∷ xs) x

drop-append :
    {A : Type 0} (n : ℕ) (xs : List A) (x : A)
    → n ≤ length xs
    → drop n (xs ++ x ∷ []) ≡ drop n xs ++ x ∷ []
drop-append zero xs x h = refl
drop-append (suc n) [] x h = ground arith
drop-append (suc n) (y ∷ xs) x h = drop-append n xs x (omega arith)

recent-length : {A : Type 0} (points : List A) → length (recent points) ≤ 12
unfolding recent stats_history_len
recent-length points = omega (arith, length-drop (length points - 12) points)

last?-recent : {A : Type 0} (xs : List A) (x : A) → last? (recent (xs ++ x ∷ [])) ≡ some x
unfolding recent stats_history_len
last?-recent xs x =
    let n = length (xs ++ x ∷ []) - 12 in
    ap last? (drop-append n xs x (omega (arith, length-append xs (x ∷ []))))
    ∙ last?-append (drop n xs) x

abbrev pub key_of_item : SummaryItem → Text
key_of_item item = instance_key (or_else item.node_id 0) item.name

-- No entry of the answer shows data for the key.
abbrev pub ShowsNone : Text → List SummaryItem → Type 0
ShowsNone key = All (λ (item : SummaryItem). (key_of_item item ≢ key) ⊎ (item.runtime ≡ none))

-- The last entry that shows data for the key shows this.
pub record Shows (key : Text) (stat : InstanceStats) (items : List SummaryItem) : Type 0 where
  pub before : List SummaryItem
  pub item : SummaryItem
  pub after : List SummaryItem
  pub place : items ≡ before ++ item ∷ after
  pub own : key_of_item item ≡ key
  pub data_of : item.runtime ≡ some stat
  pub last : ShowsNone key after

get-add_stat :
    (key own : Text) (runtime : Option InstanceStats) (m : List (Text × InstanceStats))
    → (((own ≢ key) ⊎ (runtime ≡ none)) × (get key (add_stat own runtime m) ≡ get key m))
      ⊎ ((stat : InstanceStats) × (own ≡ key)
          × (runtime ≡ some stat)
          × (get key (add_stat own runtime m) ≡ some stat))
get-add_stat key own none m = inl (inr refl, refl)
get-add_stat key own (some stat) m = elim (Bool-cases (own === key)) [
  | inl e ↦ inr (stat, (===_iff own key).0 e, refl, get-put own key stat m ∙ rw e refl)
  | inr e ↦
      inl
        (inl (λ same. ground (arith, (===_iff own key).1 same)), get-put own key stat m ∙ rw e refl)
]

get-stat_map :
    (key : Text) (items : List SummaryItem) (m : List (Text × InstanceStats))
    → (ShowsNone key items × (get key (stat_map items m) ≡ get key m))
      ⊎ ((stat : InstanceStats) × Shows key stat items × (get key (stat_map items m) ≡ some stat))
unfolding stat_map
get-stat_map key [] m = inl (tt, refl)
get-stat_map key (item ∷ items) m =
    elim (get-stat_map key items (add_stat (key_of_item item) item.runtime m)) [
      | inr (stat, shown, h) ↦ inr (
        stat,
        record {
          before = item ∷ shown.before;
          item = shown.item;
          after = shown.after;
          place = ap (λ xs. item ∷ xs) shown.place;
          own = shown.own;
          data_of = shown.data_of;
          last = shown.last;
        },
        h,
      )
      | inl (none_later, h) ↦ elim (get-add_stat key (key_of_item item) item.runtime m) [
        | inl (out, k) ↦ inl ((out, none_later), h ∙ k)
        | inr (stat, own, shown, k) ↦ inr (
          stat,
          record {
            before = [];
            item = item;
            after = items;
            place = refl;
            own = own;
            data_of = shown;
            last = none_later;
          },
          h ∙ k,
        )
      ]
    ]

module _ {Num : Type 0} (zero_num : Num) (parse_float : Text → Option Num) where
  -- what is kept for an instance
  get-stats_history :
      (stats : List (Text × InstanceStats)) (prev : List (Text × List (Num × Num))) (key : Text)
      → get key (stats_history zero_num parse_float stats prev) ≡ elim (get key stats) [
        | none ↦ none
        | some stat ↦ some (
            recent (
              or_else (get key prev) []
              ++ (
                parse_percent zero_num parse_float stat.cpu_percent,
                parse_percent zero_num parse_float stat.mem_percent,
              )
                ∷ []))
      ]
  unfolding get stats_history
  get-stats_history [] prev key = refl
  get-stats_history ((k, stat) ∷ stats) prev key =
      ground (arith, ===_iff k key, get-stats_history stats prev key)

  -- After a poll that succeeds, the recent load is kept for just the instances that the answer shows
  -- running data for, the last entry with data counting: at most 12 points each, the last of which is
  -- the load that this entry shows.
  pub summary_answer-history :
      (node_list : List Node) (response : SummaryResponse) (s : ConsoleState Num) (key : Text)
      → let history =
          (summary_answer zero_num parse_float (some (node_list, response)) s).history in
        (ShowsNone key response.instances × (get key history ≡ none))
        ⊎ ((stat : InstanceStats) × (points : List (Num × Num)) × Shows key stat response.instances
            × (get key history ≡ some points)
            × (length points ≤ 12)
            × (last? points
                ≡ some (
                  parse_percent zero_num parse_float stat.cpu_percent,
                  parse_percent zero_num parse_float stat.mem_percent,
                )))
  unfolding summary_answer get
  summary_answer-history node_list response s key =
      let e = get-stats_history (stat_map response.instances []) s.history key in
      elim (get-stat_map key response.instances []) [
        | inl (out, n) ↦ inl (out, ground arith)
        | inr (stat, shown, h) ↦
            let point : Num × Num = (
              parse_percent zero_num parse_float stat.cpu_percent,
              parse_percent zero_num parse_float stat.mem_percent,
            ) in
            let before : List (Num × Num) = or_else (get key s.history) [] in
            inr (
              stat,
              recent (before ++ point ∷ []),
              shown,
              ground arith,
              recent-length (before ++ point ∷ []),
              last?-recent before point,
            )
      ]

  -- However an action changes the state between its start and its end, as long as it leaves the running
  -- actions alone, it is no longer running after its end, and what is known of the other keys is as before.
  pub action_end-action_start :
      (item : InstanceRef) (verb key : Text) (s s' : ConsoleState Num)
      → s'.pending_action ≡ (action_start zero_num parse_float item verb s).pending_action
      → let own = instance_key item.node_id item.name in
        get key (action_end zero_num parse_float item s').pending_action
        ≡ (if own === key then none else get key s.pending_action)
  unfolding action_start action_end
  action_end-action_start item verb key s s' e =
      let own = instance_key item.node_id item.name in
      rw e (
        ground (
          arith,
          get-delete own key (put own verb s.pending_action),
          get-put own key verb s.pending_action,
        ))
