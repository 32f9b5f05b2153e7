-- ===== src/Base/Bytes.antt =====
-- Go strings as lists of bytes, and what the program calls of the package `strings`.
use Prim.Native.Char.{code}
use Prim.Native.Nat.{ℕ, ◌-◌}
use Prim.Native.String.{String}
use mathlib.Core.Path.{◌≡◌, refl}
use mathlib.Core.Logic.{◌↔◌, ◌≢◌, inl, inr}
use mathlib.Core.Bool.{Bool, true, false, ◌&&◌, ◌||◌}
use mathlib.Core.List.{List, [], ◌∷◌, ◌++◌}
use native.Mathlib.Omega.{arith}
use dnn_node.Base.Tests.{leb, in_range, ◌==◌, ==_iff, if◌then◌else◌, Bool-cases}
use dnn_node.Base.Lists.{length, take, drop, All}

abbrev pub Bytes : Type 0
Bytes = List ℕ

-- The code points of a literal: its bytes, if it is ASCII.
abbrev pub codes : String → Bytes
codes String.[] = []
codes (String.◌∷◌ c s) = code c ∷ codes s

-- A letter of ASCII.
abbrev pub is_letter : ℕ → Bool
is_letter c = in_range b'a' b'z' c || in_range b'A' b'Z' c

abbrev pub bytes_eq : Bytes → Bytes → Bool
bytes_eq [] [] = true
bytes_eq [] (d ∷ t) = false
bytes_eq (c ∷ s) [] = false
bytes_eq (c ∷ s) (d ∷ t) = c == d && bytes_eq s t

pub bytes_eq_sound : (s t : Bytes) → bytes_eq s t ≡ true → s ≡ t
bytes_eq_sound [] [] h = refl
bytes_eq_sound [] (d ∷ t) h = cc
bytes_eq_sound (c ∷ s) [] h = cc
bytes_eq_sound (c ∷ s) (d ∷ t) h = ground (arith, bytes_eq_sound s t)

pub bytes_eq_refl : (s : Bytes) → bytes_eq s s ≡ true
bytes_eq_refl [] = refl
bytes_eq_refl (c ∷ s) = ground (arith, bytes_eq_refl s)

pub bytes_eq_iff : (s t : Bytes) → (bytes_eq s t ≡ true) ↔ (s ≡ t)
bytes_eq_iff s t = (bytes_eq_sound s t, λ e. rw e (bytes_eq_refl t))

-- strings.HasPrefix(s, prefix)
abbrev pub has_prefix : Bytes → Bytes → Bool
has_prefix s [] = true
has_prefix [] (d ∷ t) = false
has_prefix (c ∷ s) (d ∷ t) = c == d && has_prefix s t

-- strings.TrimPrefix
abbrev pub trim_prefix : Bytes → Bytes → Bytes
trim_prefix s p = if has_prefix s p then drop (length p) s else s

-- strings.HasSuffix(s, suffix)
abbrev pub has_suffix : Bytes → Bytes → Bool
has_suffix s t = leb (length t) (length s) && bytes_eq (drop (length s - length t) s) t

-- strings.TrimSuffix
abbrev pub trim_suffix : Bytes → Bytes → Bytes
trim_suffix s t = if has_suffix s t then take (length s - length t) s else s

-- strings.Contains(s, sub)
unfoldable pub contains : Bytes → Bytes → Bool
contains [] sub = has_prefix [] sub
contains (c ∷ s) sub = has_prefix (c ∷ s) sub || contains s sub

abbrev pub cons_head : ℕ → List Bytes → List Bytes
cons_head c [] = (c ∷ []) ∷ []
cons_head c (p ∷ ps) = (c ∷ p) ∷ ps

-- strings.Split(s, sep) for a separator of one byte. There is always a part.
unfoldable pub split : Bytes → ℕ → List Bytes
split [] sep = [] ∷ []
split (c ∷ s) sep = let parts = split s sep in if c == sep then [] ∷ parts else cons_head c parts

-- strings.Join(parts, sep)
unfoldable pub join : List Bytes → ℕ → Bytes
join [] sep = []
join (p ∷ []) sep = p
join (p ∷ q ∷ ps) sep = p ++ (sep ∷ join (q ∷ ps) sep)

abbrev pub Lacks : ℕ → Bytes → Type 0
Lacks b = All (λ c. c ≢ b)

pub has_prefix-append : (p s : Bytes) → has_prefix (p ++ s) p ≡ true
has_prefix-append [] s = refl
has_prefix-append (c ∷ p) s = ground (arith, has_prefix-append p s)

-- A text without the separator is one part.
pub split-Lacks : (p : Bytes) (sep : ℕ) → Lacks sep p → split p sep ≡ p ∷ []
unfolding split
split-Lacks [] sep h = refl
split-Lacks (c ∷ p) sep h = ground (arith, split-Lacks p sep h.1)

-- The part before the first separator is split off.
pub split-append :
    (p s : Bytes) (sep : ℕ) → Lacks sep p → split (p ++ (sep ∷ s)) sep ≡ p ∷ split s sep
unfolding split
split-append [] s sep h = ground arith
split-append (c ∷ p) s sep h = ground (arith, split-append p s sep h.1)

cons_head_cases :
    (b : Bool) (c : ℕ) (parts : List Bytes)
    → (p : Bytes) × (ps : List Bytes) × ((if b then [] ∷ parts else cons_head c parts) ≡ p ∷ ps)
cons_head_cases true c parts = ([], parts, refl)
cons_head_cases false c [] = (c ∷ [], [], refl)
cons_head_cases false c (p ∷ ps) = (c ∷ p, ps, refl)

-- There is always a first part.
pub split_cases : (s : Bytes) (sep : ℕ) → (p : Bytes) × (ps : List Bytes) × (split s sep ≡ p ∷ ps)
unfolding split
split_cases [] sep = ([], [], refl)
split_cases (c ∷ s) sep = cons_head_cases (c == sep) c (split s sep)

join-cons_head :
    (c sep : ℕ) (p : Bytes) (ps : List Bytes)
    → join (cons_head c (p ∷ ps)) sep ≡ c ∷ join (p ∷ ps) sep
unfolding join
join-cons_head c sep p [] = refl
join-cons_head c sep p (q ∷ ps) = refl

join_round :
    (b : Bool) (c sep : ℕ) (s : Bytes) (parts : List Bytes) (p : Bytes) (ps : List Bytes)
    → parts ≡ p ∷ ps
    → (b ≡ true → c ≡ sep)
    → join parts sep ≡ s
    → join (if b then [] ∷ parts else cons_head c parts) sep ≡ c ∷ s
unfolding join
join_round true c sep s parts p ps e h ih = ground (arith, h refl)
join_round false c sep s parts p ps e h ih = rw (e, join-cons_head c sep p ps) (cc)

-- Joining the parts gives the text back.
pub join-split : (s : Bytes) (sep : ℕ) → join (split s sep) sep ≡ s
unfolding split
join-split [] sep = unfold join in refl
join-split (c ∷ s) sep =
    let (p, ps, e) = split_cases s sep in
    join_round (c == sep) c sep s (split s sep) p ps e (λ h. (==_iff c sep).0 h) (join-split s sep)

pub has_prefix_sound : (s p : Bytes) → has_prefix s p ≡ true → (q : Bytes) × (s ≡ p ++ q)
has_prefix_sound s [] h = (s, refl)
has_prefix_sound [] (d ∷ p) h = absurd (cc)
has_prefix_sound (c ∷ s) (d ∷ p) h =
    let (q, e) = has_prefix_sound s p (ground arith) in let same : c ≡ d = ground arith in (q, cc)

contains-first : (s sub : Bytes) → has_prefix s sub ≡ true → contains s sub ≡ true
unfolding contains
contains-first [] sub h = h
contains-first (c ∷ s) sub h = ground arith

contains-append : (p sub q : Bytes) → contains (p ++ (sub ++ q)) sub ≡ true
unfolding contains
contains-append [] sub q = contains-first (sub ++ q) sub (has_prefix-append sub q)
contains-append (c ∷ p) sub q = ground (arith, contains-append p sub q)

contains_sound :
    (s sub : Bytes) → contains s sub ≡ true → (p : Bytes) × (q : Bytes) × (s ≡ p ++ (sub ++ q))
unfolding contains
contains_sound [] sub h = let (q, e) = has_prefix_sound [] sub h in ([], q, e)
contains_sound (c ∷ s) sub h = elim (Bool-cases (has_prefix (c ∷ s) sub)) [
  | inl k ↦ let (q, e) = has_prefix_sound (c ∷ s) sub k in ([], q, e)
  | inr k ↦
      let later : contains s sub ≡ true = ground arith in
      let (p, q, e) = contains_sound s sub later in (c ∷ p, q, cc)
]

-- `strings.Contains` finds a part exactly when the text has it.
pub contains_iff :
    (s sub : Bytes) → (contains s sub ≡ true) ↔ ((p : Bytes) × (q : Bytes) × (s ≡ p ++ (sub ++ q)))
contains_iff s sub = (contains_sound s sub, λ (p, q, e). rw e (contains-append p sub q))
