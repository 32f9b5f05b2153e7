-- ===== src/Base/Decimal.antt =====
-- `strconv.ParseInt(s, 10, 64)`, `strconv.Atoi` and the verb `%d`, over 64-bit integers.
use Prim.Native.Nat.{ℕ, zero, suc, ◌+◌, ◌-◌, ◌*◌, ◌/◌, ◌%◌, ◌≤◌}
use mathlib.Core.Path.{◌≡◌, refl}
use mathlib.Core.Logic.{◌≢◌, inl, inr}
use mathlib.Core.Bool.{Bool, true, false}
use mathlib.Core.Option.{Option, none, some}
use mathlib.Core.List.{[], ◌∷◌, ◌++◌, cons-ne-nil}
use native.Mathlib.Omega.{arith}
use dnn_node.Base.Tests.{leb, ◌==◌, if◌then◌else◌, in_range, Bool-cases}
use dnn_node.Base.Lists.{All}
use dnn_node.Base.Int.{ℤ, pos, negsuc, max_int64}
use dnn_node.Base.Bytes.{Bytes}

abbrev pub is_digit : ℕ → Bool
is_digit c = in_range b'0' b'9' c

abbrev pub IsDigit : ℕ → Type 0
IsDigit c = (b'0' ≤ c) × (c ≤ b'9')

-- The digits of `n`, in front of `acc`; `n` rounds are enough.
digits_loop : ℕ → ℕ → Bytes → Bytes
digits_loop zero n acc = acc
digits_loop (suc fuel) n acc = elim (n == 0) [
  | true ↦ acc
  | false ↦ digits_loop fuel (n / 10) ((b'0' + n % 10) ∷ acc)
]

pub format_ℕ : ℕ → Bytes
format_ℕ n = if n == 0 then b'0' ∷ [] else digits_loop n n []

-- `%d`
unfoldable pub format_int : ℤ → Bytes
unfolding format_ℕ digits_loop
format_int (pos n) = format_ℕ n
format_int (negsuc n) = b'-' ∷ format_ℕ (suc n)

pub scan : Bytes → ℕ → Option ℕ
scan [] v = some v
scan (c ∷ s) v = if is_digit c then scan s (v * 10 + (c - b'0')) else none

-- The magnitude: one or more digits.
pub parse_ℕ : Bytes → Option ℕ
parse_ℕ [] = none
parse_ℕ (c ∷ s) = scan (c ∷ s) 0

abbrev positive : Option ℕ → Option ℤ
positive none = none
positive (some n) = if leb n max_int64 then some (pos n) else none

abbrev negative : Option ℕ → Option ℤ
negative none = none
negative (some zero) = some (pos 0)
negative (some (suc n)) = if leb n max_int64 then some (negsuc n) else none

-- An optional sign; `none` for a syntax error or a value out of range.
unfoldable pub parse_int : Bytes → Option ℤ
unfolding parse_ℕ scan
parse_int [] = none
parse_int (c ∷ s) =
    if c == b'+'
    then positive (parse_ℕ s)
    else if c == b'-'
    then negative (parse_ℕ s)
    else positive (parse_ℕ (c ∷ s))

abbrev limit_of : ℤ → Option ℕ → ℤ
limit_of limit none = pos 0
limit_of limit (some n) = limit

-- A number out of range stands for the nearest one in it, any other text for 0.
abbrev nearest : Bytes → ℤ
nearest [] = pos 0
nearest (c ∷ s) =
    if c == b'+'
    then limit_of (pos max_int64) (parse_ℕ s)
    else if c == b'-'
    then limit_of (negsuc max_int64) (parse_ℕ s)
    else limit_of (pos max_int64) (parse_ℕ (c ∷ s))

abbrev or_nearest : Bytes → Option ℤ → ℤ
or_nearest s none = nearest s
or_nearest s (some n) = n

-- The value that ParseInt returns, beside an error or not.
unfoldable pub int_value : Bytes → ℤ
int_value s = or_nearest s (parse_int s)

suc_not_zero : (n : ℕ) → (suc n == 0) ≡ false
suc_not_zero n = ground arith

scan_last : (n : ℕ) (acc : Bytes) → scan ((b'0' + n % 10) ∷ acc) (n / 10) ≡ scan acc n
unfolding scan
scan_last n acc = ground arith

scan-digits_loop :
    (fuel n : ℕ) (acc : Bytes) → n ≤ fuel → scan (digits_loop fuel n acc) 0 ≡ scan acc n
unfolding digits_loop
scan-digits_loop zero n acc h = let e : n ≡ 0 = omega arith in rw e
scan-digits_loop (suc fuel) n acc h =
    ground (arith, scan_last n acc, scan-digits_loop fuel (n / 10) ((b'0' + n % 10) ∷ acc))

-- What a printed number looks like: one or more digits.
abbrev pub IsNumeral : Bytes → Type 0
IsNumeral s = (s ≢ []) × All IsDigit s

digits_loop-IsNumeral :
    (fuel n : ℕ) (acc : Bytes) → IsNumeral acc → IsNumeral (digits_loop fuel n acc)
unfolding digits_loop
digits_loop-IsNumeral zero n acc h = h
digits_loop-IsNumeral (suc fuel) n acc h = elim (Bool-cases (n == 0)) [
  | inl e ↦ rw (e, digits_loop) h
  | inr e ↦
      rw (e, digits_loop)
        (digits_loop-IsNumeral fuel (n / 10) _ (cons-ne-nil _ _, (omega arith, h.1)))
]

digits_loop_first :
    (n : ℕ) → digits_loop (suc n) (suc n) [] ≡ digits_loop n (suc n / 10) ((b'0' + suc n % 10) ∷ [])
unfolding digits_loop
digits_loop_first n = ground arith

pub format_ℕ-IsNumeral : (n : ℕ) → IsNumeral (format_ℕ n)
unfolding format_ℕ
format_ℕ-IsNumeral zero = (cons-ne-nil _ _, omega arith)
format_ℕ-IsNumeral (suc n) =
    rw (suc_not_zero n, digits_loop_first n)
      (digits_loop-IsNumeral n _ _ (cons-ne-nil _ _, omega arith))

pub scan-format_ℕ : (n : ℕ) → scan (format_ℕ n) 0 ≡ some n
unfolding format_ℕ
scan-format_ℕ zero = unfold scan in refl
scan-format_ℕ (suc n) =
    rw (suc_not_zero n, scan-digits_loop (suc n) (suc n) [] (omega arith)) (unfold scan in refl)

parse_ℕ-scan : (s : Bytes) → s ≢ [] → parse_ℕ s ≡ scan s 0
unfolding parse_ℕ
parse_ℕ-scan [] h = absurd (h refl)
parse_ℕ-scan (c ∷ s) h = refl

pub parse_ℕ-format_ℕ : (n : ℕ) → parse_ℕ (format_ℕ n) ≡ some n
parse_ℕ-format_ℕ n = rw (parse_ℕ-scan _ (format_ℕ-IsNumeral n).0) (scan-format_ℕ n)

parse_int-IsNumeral : (s : Bytes) → IsNumeral s → parse_int s ≡ positive (parse_ℕ s)
parse_int-IsNumeral [] h = absurd (h.0 refl)
parse_int-IsNumeral (c ∷ s) h = unfold parse_int in ground arith

-- A printed number is read back.
pub parse_int-format_ℕ : (n : ℕ) → n ≤ max_int64 → parse_int (format_ℕ n) ≡ some (pos n)
parse_int-format_ℕ n h =
    rw (parse_int-IsNumeral _ (format_ℕ-IsNumeral n), parse_ℕ-format_ℕ n) (ground arith)

abbrev pub IsInt64 : ℤ → Type 0
IsInt64 (pos n) = n ≤ max_int64
IsInt64 (negsuc n) = n ≤ max_int64

pub parse_int-format_int : (i : ℤ) → IsInt64 i → parse_int (format_int i) ≡ some i
unfolding format_int
parse_int-format_int (pos n) h = parse_int-format_ℕ n h
parse_int-format_int (negsuc n) h = unfold parse_int in rw (parse_ℕ-format_ℕ (suc n)) (ground arith)

scan-trailing :
    (s : Bytes) (c v : ℕ) → All IsDigit s → is_digit c ≡ false → scan (s ++ (c ∷ [])) v ≡ none
unfolding scan
scan-trailing [] c v h k = rw k
scan-trailing (d ∷ s) c v h k =
    let digit : is_digit d ≡ true = ground arith in
    rw digit (scan-trailing s c (v * 10 + (d - b'0')) h.1 k)

-- A numeral with another character behind it is refused.
pub parse_int-trailing :
    (s : Bytes) (c : ℕ) → IsNumeral s → is_digit c ≡ false → parse_int (s ++ (c ∷ [])) ≡ none
parse_int-trailing [] c h k = absurd (h.0 refl)
parse_int-trailing (d ∷ s) c h k =
    let bad : parse_ℕ (d ∷ (s ++ (c ∷ []))) ≡ none =
      unfold parse_ℕ in scan-trailing (d ∷ s) c 0 h.1 k in
    let plus : (d == b'+') ≡ false = ground arith in
    let minus : (d == b'-') ≡ false = ground arith in unfold parse_int in rw (plus, minus, bad)
