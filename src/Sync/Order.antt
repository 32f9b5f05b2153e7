-- ===== src/Sync/Order.antt =====
-- The order of the valid transactions of a block: `less` is a strict order on the ids.
use dnn_node.Base.{
  ℕ, zero, suc, ◌≡◌, refl, sym, ◌∙◌, ◌⊎◌, inl, inr, Bool, true, false, ◌||◌, [], ◌∷◌, map, ltb,
  ◌==◌, in_range, if◌then◌else◌, length, arith, All, all, Bool-cases,
}
use dnn_node.Base.Bytes.{Bytes}
use dnn_node.Base.Int.{ℤ, sub_ℕ, ltb_ℤ, pos, negsuc}
use dnn_node.Sync.{
  hex_char_to_int, compare_digits, compare_txids_by_digit, break_tie, less, ValidDnnTransaction,
}
use dnn_node.Sync.Sorting.{IsStrictWeakOrder, ReadsKeys}
use dnn_node.Validation.{Runtime, to_lower, lower_byte}

-- A small digit of base 16.
abbrev pub IsHexDigit : ℕ → Type 0
IsHexDigit c = (in_range b'0' b'9' c || in_range b'a' b'f' c) ≡ true

-- A transaction id as Bitcoin prints it.
abbrev pub IsTxId : Bytes → Type 0
IsTxId s = (length s ≡ 64) × All IsHexDigit s

hex_char_to_int_injective :
    (c d : ℕ) → IsHexDigit c → IsHexDigit d → hex_char_to_int c ≡ hex_char_to_int d → c ≡ d
hex_char_to_int_injective c d hc hd e = ground arith

all_ascii : (s : Bytes) → All IsHexDigit s → all (λ c. ltb c 128) s ≡ true
all_ascii [] h = refl
all_ascii (c ∷ s) h =
    let rest = all_ascii s h.1 in
    let first : ltb c 128 ≡ true = ground (arith, h.0) in rw first rest

map_lower : (s : Bytes) → All IsHexDigit s → map lower_byte s ≡ s
map_lower [] h = refl
map_lower (c ∷ s) h =
    let rest = map_lower s h.1 in let first : lower_byte c ≡ c = ground (arith, h.0) in cc

pub to_lower_hex : (go : Runtime) (s : Bytes) → All IsHexDigit s → to_lower go s ≡ s
unfolding to_lower
to_lower_hex go s h = rw (all_ascii s h) (map_lower s h)

-- The first digits that differ decide.
abbrev pub exceeds : Bytes → Bytes → Bool
exceeds (c ∷ s) (d ∷ t) =
    let rest = exceeds s t in
    if hex_char_to_int c == hex_char_to_int d
    then rest
    else ltb (hex_char_to_int d) (hex_char_to_int c)
exceeds [] t = false
exceeds (c ∷ s) [] = false

sub_ℕ-positive : (a b : ℕ) → ltb_ℤ (pos 0) (sub_ℕ a b) ≡ ltb b a
sub_ℕ-positive a b = ground arith

digit_round :
    (a b p : ℕ) (rest : ℤ × ℕ × ℕ × ℕ) (e : Bool)
    → ltb_ℤ (pos 0) rest.0 ≡ e
    → ltb_ℤ (pos 0) (if a == b then rest else (sub_ℕ a b, p, a, b)).0
      ≡ (if a == b then e else ltb b a)
digit_round a b p rest e h = elim (Bool-cases (a == b)) [
  | inl k ↦ rw (k) h
  | inr k ↦ rw (k) (sub_ℕ-positive a b)
]

compare_digits-exceeds :
    (s t : Bytes) (p : ℕ) → ltb_ℤ (pos 0) (compare_digits s t (pos 0) p).0 ≡ exceeds s t
unfolding compare_digits
compare_digits-exceeds [] t p = refl
compare_digits-exceeds (c ∷ s) [] p = refl
compare_digits-exceeds (c ∷ s) (d ∷ t) p =
    digit_round (hex_char_to_int c) (hex_char_to_int d) p (compare_digits s t (pos 0) (suc p))
      (exceeds s t) (compare_digits-exceeds s t (suc p))

exceeds_asym : (s t : Bytes) → exceeds s t ≡ true → exceeds t s ≡ false
exceeds_asym [] t h = absurd (cc)
exceeds_asym (c ∷ s) [] h = absurd (cc)
exceeds_asym (c ∷ s) (d ∷ t) h = elim (Bool-cases (exceeds s t)) [
  | inl k ↦ let back = exceeds_asym s t k in ground arith
  | inr k ↦ ground arith
]

exceeds_cotrans :
    (r s t : Bytes)
    → length r ≡ length s
    → exceeds r t ≡ true
    → (exceeds r s ≡ true) ⊎ (exceeds s t ≡ true)
exceeds_cotrans [] s t l h = absurd (cc)
exceeds_cotrans (b ∷ r) [] t l h = absurd (omega (arith, l))
exceeds_cotrans (b ∷ r) (c ∷ s) [] l h = absurd (cc)
exceeds_cotrans (b ∷ r) (c ∷ s) (d ∷ t) l h = elim (Bool-cases (exceeds r t)) [
  | inl k ↦ elim (exceeds_cotrans r s t (omega (arith, l)) k) [
    | inl m ↦ ground arith
    | inr m ↦ ground arith
  ]
  | inr k ↦ ground arith
]

exceeds_connected :
    (s t : Bytes)
    → length s ≡ length t
    → All IsHexDigit s
    → All IsHexDigit t
    → exceeds s t ≡ false
    → exceeds t s ≡ false
    → s ≡ t
exceeds_connected [] [] l hs ht h k = refl
exceeds_connected [] (d ∷ t) l hs ht h k = absurd (omega (arith, l))
exceeds_connected (c ∷ s) [] l hs ht h k = absurd (omega (arith, l))
exceeds_connected (c ∷ s) (d ∷ t) l hs ht h k =
    let e : hex_char_to_int c ≡ hex_char_to_int d = ground arith in
    let first = hex_char_to_int_injective c d hs.0 ht.0 e in
    let rest = exceeds_connected s t (omega (arith, l)) hs.1 ht.1 (ground arith) (ground arith) in
    cc

-- What the order reads of a transaction: the digit sum and the id.
abbrev pub key : ValidDnnTransaction → ℕ × Bytes
key tx = (tx.tx_idns.sum, tx.tx_id)

abbrev pub HasTxId : ℕ × Bytes → Type 0
HasTxId k = IsTxId k.1

-- The larger digit sum first; among equal sums, the larger id.
abbrev pub before : ℕ × Bytes → ℕ × Bytes → Bool
before (m, s) (n, t) = if m == n then exceeds s t else ltb n m

break_tie_keeps :
    (c : ℤ × ℕ × ℕ × ℕ) (x y : ValidDnnTransaction)
    → (key (break_tie c x y).1 ≡ key x) × (key (break_tie c x y).2 ≡ key y)
break_tie_keeps (pos zero, p, d, e) x y = (refl, refl)
break_tie_keeps (pos (suc n), p, d, e) x y = (refl, refl)
break_tie_keeps (negsuc n, p, d, e) x y = (refl, refl)

break_tie_answers :
    (c : ℤ × ℕ × ℕ × ℕ) (x y : ValidDnnTransaction) → (break_tie c x y).0 ≡ ltb_ℤ (pos 0) c.0
break_tie_answers (pos zero, p, d, e) x y = refl
break_tie_answers (pos (suc n), p, d, e) x y = ground arith
break_tie_answers (negsuc n, p, d, e) x y = ground arith

less_keeps :
    (go : Runtime) (x y : ValidDnnTransaction)
    → (key (less go x y).1 ≡ key x) × (key (less go x y).2 ≡ key y)
unfolding less
less_keeps go x y = elim (Bool-cases (x.tx_idns.sum == y.tx_idns.sum)) [
  | inl k ↦ rw (k) (break_tie_keeps (compare_txids_by_digit go x.tx_id y.tx_id) x y)
  | inr k ↦ rw (k) (refl, refl)
]

compare_txids :
    (go : Runtime) (s t : Bytes)
    → IsTxId s
    → IsTxId t
    → ltb_ℤ (pos 0) (compare_txids_by_digit go s t).0 ≡ exceeds s t
unfolding compare_txids_by_digit
compare_txids go s t hs ht =
    let lengths : sub_ℕ (length s) (length t) ≡ pos 0 = ground (arith, hs.0, ht.0) in
    rw (to_lower_hex go s hs.1, to_lower_hex go t ht.1, lengths) (compare_digits-exceeds s t 1)

less_answers :
    (go : Runtime) (x y : ValidDnnTransaction)
    → HasTxId (key x)
    → HasTxId (key y)
    → (less go x y).0 ≡ before (key x) (key y)
unfolding less
less_answers go x y hx hy = elim (Bool-cases (x.tx_idns.sum == y.tx_idns.sum)) [
  | inl k ↦
      let c = compare_txids_by_digit go x.tx_id y.tx_id in
      rw (k) (break_tie_answers c x y ∙ compare_txids go x.tx_id y.tx_id hx hy)
  | inr k ↦ rw (k) refl
]

pub less-ReadsKeys : (go : Runtime) → ReadsKeys key HasTxId before (less go)
less-ReadsKeys go = record {
  answers = less_answers go;
  keeps_first = λ x y. (less_keeps go x y).0;
  keeps_second = λ x y. (less_keeps go x y).1;
}

cotrans_cases :
    (l m n : ℕ) (r s t : Bytes)
    → length r ≡ length s
    → before (l, r) (n, t) ≡ true
    → (before (l, r) (m, s) ≡ true) ⊎ (before (m, s) (n, t) ≡ true)
cotrans_cases l m n r s t e h = elim (Bool-cases (exceeds r t)) [
  | inl k ↦ elim (exceeds_cotrans r s t e k) [ inl j ↦ ground arith | inr j ↦ ground arith ]
  | inr k ↦ ground arith
]

pub before-IsStrictWeakOrder : IsStrictWeakOrder HasTxId before
before-IsStrictWeakOrder = record {
  asym = λ (m, s) (n, t) hx hy h. let back = exceeds_asym s t in ground arith;
  cotrans = λ (l, r) (m, s) (n, t) hx hy hz h. cotrans_cases l m n r s t (hx.0 ∙ sym hy.0) h;
}

pub before_connected :
    (x y : ℕ × Bytes) → HasTxId x → HasTxId y → before x y ≡ false → before y x ≡ false → x ≡ y
before_connected (m, s) (n, t) hx hy h k =
    let sums : m ≡ n = ground arith in
    let ids : s ≡ t =
      exceeds_connected s t (hx.0 ∙ sym hy.0) hx.1 hy.1 (ground arith) (ground arith) in
    cc

pub before_irrefl : (x : ℕ × Bytes) → HasTxId x → before x x ≡ false
before_irrefl (m, s) h = elim (Bool-cases (exceeds s s)) [
  | inl k ↦ let k' = exceeds_asym s s k in ground arith
  | inr k ↦ ground arith
]
