-- ===== src/Pages/CreateInstance/Name.antt =====
-- The name that the form proposes: its number is read back, it is new, and it is a name.
use frpc_multi.Pages.CreateInstance.{
  client_number, maximum, pad_start, zeros, client_numbers, next_number, is_name_tail,
  next_client_name, name_error, follow_name,
}
use frpc_multi.Base.Assoc.{nat_eq, contains}
use frpc_multi.Base.Decimal.{decimal, decimal_from, decimal-IsDigit, IsDigit}
use frpc_multi.Base.Digits.{read_digits, read_digits-decimal}
use frpc_multi.Base.Text.{Text, codes, ◌===◌, ===_iff, starts_with, is_space, trim}
use frpc_multi.Pages.CreateInstance.{is_lower, Form, is_name_tail, is_instance_name}
use frpc_multi.Base.Text.Trim.{HasNoSpace, trim-HasNoSpace}
use frpc_multi.Base.Digits.{HasNoSpace-IsDigit}
use frpc_multi.Console.{InstanceRef}
use Prim.Native.Nat.{ℕ, zero, suc, ◌+◌, ◌-◌, ◌*◌, ◌/◌, ◌%◌, ◌≤◌, ◌<◌, max}
use mathlib.Core.Path.{◌≡◌, refl, ap, ◌∙◌}
use mathlib.Core.Logic.{inl, inr}
use mathlib.Core.Bool.{Bool, true, false, ◌&&◌, ◌||◌}
use mathlib.Core.Option.{none, some}
use mathlib.Core.List.{List, [], ◌∷◌, ◌++◌}
use native.Mathlib.Omega.{arith}
use frpc_multi.Base.Tests.{◌==◌, if◌then◌else◌, Bool-cases}
use frpc_multi.Base.Lists.{length, is_empty, any, length-append, All, All-append}

-- `10 ^ (k + 1)`
abbrev ten_to : ℕ → ℕ
ten_to zero = 10
ten_to (suc k) = 10 * ten_to k

length-decimal_from : (f n k : ℕ) → n < ten_to k → length (decimal_from f n) ≤ suc k
unfolding decimal_from
length-decimal_from zero n k h = omega arith
length-decimal_from (suc f) n zero h = ground arith
length-decimal_from (suc f) n (suc k) h = ground (
  arith,
  length-append (decimal_from f (n / 10)) ((n % 10 + 48) ∷ []),
  length-decimal_from f (n / 10) k,
)

length-decimal : (n k : ℕ) → n < ten_to k → length (decimal n) ≤ suc k
unfolding decimal
length-decimal n k h = length-decimal_from (suc n) n k h

read_digits-zeros : (k : ℕ) (t : Text) → read_digits 0 (zeros k ++ t) ≡ read_digits 0 t
unfolding read_digits
read_digits-zeros zero t = refl
read_digits-zeros (suc k) t = read_digits-zeros k t

length-zeros : (k : ℕ) → length (zeros k) ≡ k
length-zeros zero = refl
length-zeros (suc k) = ap suc (length-zeros k)

length-pad_start : (n : ℕ) (t : Text) → length (pad_start n t) ≡ max n (length t)
unfolding pad_start
length-pad_start n t =
    ground (arith, length-append (zeros (n - length t)) t, length-zeros (n - length t))

pad_start_reads : (n : ℕ) → read_digits 0 (pad_start 3 (decimal n)) ≡ some n
unfolding pad_start
pad_start_reads n = read_digits-zeros (3 - length (decimal n)) (decimal n) ∙ read_digits-decimal n

client_number-prefix :
    (n : ℕ) → n < 1000000 → client_number (codes "client-" ++ pad_start 3 (decimal n)) ≡ some n
unfolding client_number starts_with
client_number-prefix n h =
    ground (arith, pad_start_reads n, length-pad_start 3 (decimal n), length-decimal n 5 h)

contains-client_numbers :
    (instances : List InstanceRef) (name : Text) (k : ℕ)
    → client_number name ≡ some k
    → any (λ (item : InstanceRef). item.name === name) instances ≡ true
    → contains k (client_numbers instances) ≡ true
unfolding client_numbers contains
contains-client_numbers [] name k h m = absurd (ground arith)
contains-client_numbers (item ∷ items) name k h m = ground (
  arith,
  contains-client_numbers items name k h,
  ===_iff item.name name,
  λ (same : item.name ≡ name). ap client_number same,
)

le-maximum : (n : ℕ) (ns : List ℕ) → n ≤ maximum n ns
unfolding maximum
le-maximum n [] = omega arith
le-maximum n (m ∷ ms) = ground (arith, le-maximum n ms, le-maximum m ms)

contains-maximum : (k n : ℕ) (ns : List ℕ) → contains k ns ≡ true → k ≤ maximum n ns
unfolding maximum contains
contains-maximum k n [] h = absurd (ground arith)
contains-maximum k n (m ∷ ms) h =
    ground
      (arith, contains-maximum k n ms, contains-maximum k m ms, le-maximum n ms, le-maximum m ms)

contains-next_number : (k : ℕ) (ns : List ℕ) → contains k ns ≡ true → k < next_number ns
unfolding next_number contains
contains-next_number k [] h = absurd (ground arith)
contains-next_number k (n ∷ ns) h = ground (arith, contains-maximum k n ns, le-maximum n ns)

-- Below a million the proposed name is that of no instance.
pub next_client_name_new :
    (instances : List InstanceRef)
    → next_number (client_numbers instances) < 1000000
    → any (λ (item : InstanceRef). item.name === next_client_name instances) instances ≡ false
unfolding next_client_name
next_client_name_new instances h =
    let n = next_number (client_numbers instances) in
    let name = codes "client-" ++ pad_start 3 (decimal n) in
    elim (Bool-cases (any (λ (item : InstanceRef). item.name === name) instances)) [
      | inl taken ↦
          let used = contains-client_numbers instances name n (client_number-prefix n h) taken in
          let less = contains-next_number n (client_numbers instances) used in absurd (omega arith)
      | inr free ↦ free
    ]

is_name_tail-cons :
    (c : ℕ) (t : Text)
    → (is_lower c || c == b'-') ≡ true
    → is_name_tail t ≡ true
    → is_name_tail (c ∷ t) ≡ true
unfolding is_name_tail
is_name_tail-cons c [] h k = absurd (ground arith)
is_name_tail-cons c (d ∷ t) h k = ground arith

is_name_tail-IsDigit : (t : Text) → All IsDigit t → is_empty t ≡ false → is_name_tail t ≡ true
unfolding is_name_tail
is_name_tail-IsDigit [] h k = absurd (ground arith)
is_name_tail-IsDigit (c ∷ []) (h, _) k = ground arith
is_name_tail-IsDigit (c ∷ d ∷ t) (h, rest) k =
    ground (arith, is_name_tail-IsDigit (d ∷ t) rest refl)

zeros-IsDigit : (k : ℕ) → All IsDigit (zeros k)
zeros-IsDigit zero = tt
zeros-IsDigit (suc k) = ((omega arith, omega arith), zeros-IsDigit k)

pad_start-IsDigit : (n : ℕ) → All IsDigit (pad_start 3 (decimal n))
unfolding pad_start
pad_start-IsDigit n =
    All-append IsDigit (zeros (3 - length (decimal n))) (decimal n)
      (zeros-IsDigit (3 - length (decimal n))) (decimal-IsDigit n)

not_empty : (t : Text) → 3 ≤ length t → is_empty t ≡ false
not_empty [] h = absurd (omega arith)
not_empty (c ∷ t) h = refl

is_instance_name-prefix :
    (n : ℕ) → n < 1000000 → is_instance_name (codes "client-" ++ pad_start 3 (decimal n)) ≡ true
unfolding is_instance_name
is_instance_name-prefix n h =
    let t = pad_start 3 (decimal n) in
    let long : 3 ≤ length t = omega (arith, length-pad_start 3 (decimal n)) in
    let short : length t ≤ 6 =
      omega (arith, length-pad_start 3 (decimal n), length-decimal n 5 h) in
    let digits = is_name_tail-IsDigit t (pad_start-IsDigit n) (not_empty t long) in
    let tail = is_name_tail-cons b'l' _ refl (
      is_name_tail-cons b'i' _ refl (
        is_name_tail-cons b'e' _ refl (
          is_name_tail-cons b'n' _ refl
            (is_name_tail-cons b't' _ refl (is_name_tail-cons b'-' t refl digits))))) in
    ground arith

prefix-HasNoSpace : (n : ℕ) → HasNoSpace (codes "client-" ++ pad_start 3 (decimal n))
unfolding is_space
prefix-HasNoSpace n =
    let digits = HasNoSpace-IsDigit (pad_start 3 (decimal n)) (pad_start-IsDigit n) in
    (refl, (refl, (refl, (refl, (refl, (refl, (refl, digits)))))))

is_instance_name_given : (name : Text) → is_instance_name name ≡ true → is_empty name ≡ false
unfolding is_instance_name
is_instance_name_given [] h = absurd (ground arith)
is_instance_name_given (c ∷ s) h = refl

not_on_node :
    (id : ℕ) (name : Text) (instances : List InstanceRef)
    → any (λ (item : InstanceRef). item.name === name) instances ≡ false
    → any (λ (item : InstanceRef). item.node_id == id && item.name === name) instances ≡ false
not_on_node id name [] h = refl
not_on_node id name (item ∷ items) h = ground (arith, not_on_node id name items)

no_error :
    (instances : List InstanceRef) (s : Form)
    → trim s.name ≡ s.name
    → is_instance_name s.name ≡ true
    → any (λ (item : InstanceRef). item.name === s.name) instances ≡ false
    → name_error instances s ≡ none
unfolding name_error
no_error instances s e named free =
    let given = is_instance_name_given s.name named in
    let here_free = not_on_node s.node_id s.name instances free in
    rw (e, given, named, here_free) refl

proposed : List InstanceRef → Form → Form
proposed instances s = record s { name = next_client_name instances }

proposed-no_error :
    (instances : List InstanceRef) (s : Form)
    → next_number (client_numbers instances) < 1000000
    → name_error instances (proposed instances s) ≡ none
unfolding proposed next_client_name
proposed-no_error instances s k =
    let n = next_number (client_numbers instances) in
    no_error instances (proposed instances s)
      (trim-HasNoSpace (codes "client-" ++ pad_start 3 (decimal n)) (prefix-HasNoSpace n))
      (is_instance_name-prefix n k) (next_client_name_new instances k)

-- The name that the form proposes, while nobody edited the name, has no error as long as the number in
-- it is below a million: it is a name, and no instance of the node has it.
pub name_error-follow_name :
    (instances : List InstanceRef) (s : Form)
    → s.name_dirty ≡ false
    → next_number (client_numbers instances) < 1000000
    → name_error instances (follow_name instances s) ≡ none
unfolding follow_name proposed
name_error-follow_name instances s h k =
    ap (λ (dirty : Bool). name_error instances (if dirty then s else proposed instances s)) h
    ∙ proposed-no_error instances s k
