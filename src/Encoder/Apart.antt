-- ===== src/Encoder/Apart.antt =====
-- What the encoding needs of its word list: no word is the beginning of another one. A word list in
-- alphabetical order has this as soon as it holds of neighbours, so one pass over the list shows it.
use dnn_node.Base.{
  ◌≤◌, ◌≡◌, refl, ◌≢◌, Bool, true, false, not, ◌&&◌, ◌||◌, List, [], ◌∷◌, ◌++◌, arith, ltb, ◌==◌,
  in_range, length, is_nil, all, All,
}
use dnn_node.Base.Bytes.{Bytes, bytes_eq, has_prefix}
use dnn_node.Encoder.Words.{bip39_english_wordlist}

-- The first difference stands inside both texts, and `u` has the smaller byte there.
abbrev pub diverges : Bytes → Bytes → Bool
diverges [] v = false
diverges (c ∷ u) [] = false
diverges (c ∷ u) (d ∷ v) = ltb c d || (c == d && diverges u v)

diverges_trans : (u v w : Bytes) → diverges u v ≡ true → diverges v w ≡ true → diverges u w ≡ true
diverges_trans [] v w h k = cc
diverges_trans (c ∷ u) [] w h k = cc
diverges_trans (c ∷ u) (d ∷ v) [] h k = cc
diverges_trans (c ∷ u) (d ∷ v) (e ∷ w) h k = ground (arith, diverges_trans u v w)

-- Of two words that diverge neither is the beginning of a text that begins with the other.
pub has_prefix_later : (u v t : Bytes) → diverges u v ≡ true → has_prefix (u ++ t) v ≡ false
has_prefix_later [] v t h = cc
has_prefix_later (c ∷ u) [] t h = cc
has_prefix_later (c ∷ u) (d ∷ v) t h = ground (arith, has_prefix_later u v t)

pub has_prefix_earlier : (u v t : Bytes) → diverges u v ≡ true → has_prefix (v ++ t) u ≡ false
has_prefix_earlier [] v t h = cc
has_prefix_earlier (c ∷ u) [] t h = cc
has_prefix_earlier (c ∷ u) (d ∷ v) t h = ground (arith, has_prefix_earlier u v t)

pub bytes_eq_apart : (u v : Bytes) → diverges u v ≡ true → bytes_eq u v ≡ false
bytes_eq_apart [] v h = cc
bytes_eq_apart (c ∷ u) [] h = cc
bytes_eq_apart (c ∷ u) (d ∷ v) h = ground (arith, bytes_eq_apart u v)

abbrev pub After : Bytes → List Bytes → Type 0
After w = All (λ v. diverges w v ≡ true)

abbrev pub Increasing : List Bytes → Type 0
Increasing [] = Unit {0}
Increasing (w ∷ ws) = After w ws × Increasing ws

increasing_from : Bytes → List Bytes → Bool
increasing_from w [] = true
increasing_from w (v ∷ ws) = diverges w v && increasing_from v ws

After-trans : (u v : Bytes) (ws : List Bytes) → diverges u v ≡ true → After v ws → After u ws
After-trans u v [] h a = tt
After-trans u v (w ∷ ws) h a = (diverges_trans u v w h a.0, After-trans u v ws h a.1)

Increasing-sound : (w : Bytes) (ws : List Bytes) → increasing_from w ws ≡ true → Increasing (w ∷ ws)
unfolding increasing_from
Increasing-sound w [] h = (tt, tt)
Increasing-sound w (v ∷ ws) h =
    let first : diverges w v ≡ true = ground arith in
    let rest : Increasing (v ∷ ws) = Increasing-sound v ws (ground arith) in
    ((first, After-trans w v ws first rest.0), rest)

-- A word: one or more small letters.
abbrev pub IsWord : Bytes → Type 0
IsWord w = (w ≢ []) × All (λ c. (b'a' ≤ c) × (c ≤ b'z')) w

is_word : Bytes → Bool
is_word w = not (is_nil w) && all (in_range b'a' b'z') w

all_letters : (w : Bytes) → all (in_range b'a' b'z') w ≡ true → All (λ c. (b'a' ≤ c) × (c ≤ b'z')) w
all_letters [] h = tt
all_letters (c ∷ w) h = (ground arith, all_letters w (ground arith))

is_word_sound : (w : Bytes) → is_word w ≡ true → IsWord w
unfolding is_word
is_word_sound [] h = cc
is_word_sound (c ∷ w) h = (λ e. cc e, all_letters (c ∷ w) h)

all_words : (ws : List Bytes) → all is_word ws ≡ true → All IsWord ws
all_words [] h = tt
all_words (w ∷ ws) h = (is_word_sound w (ground arith), all_words ws (ground arith))

pub record IsWordlist (ws : List Bytes) : Type 0 where
  pub increasing : Increasing ws
  pub words : All IsWord ws

is_wordlist : List Bytes → Bool
is_wordlist [] = true
is_wordlist (w ∷ ws) = increasing_from w ws && all is_word (w ∷ ws)

is_wordlist_sound : (ws : List Bytes) → is_wordlist ws ≡ true → IsWordlist ws
unfolding is_wordlist
is_wordlist_sound [] h = record { increasing = tt; words = tt }
is_wordlist_sound (w ∷ ws) h = record {
  increasing = Increasing-sound w ws (ground arith);
  words = all_words (w ∷ ws) (ground arith);
}

-- The list of the source: 1999 words, none of which is the beginning of another one.
pub bip39_english_wordlist-IsWordlist :
    (length bip39_english_wordlist ≡ 1999) × IsWordlist bip39_english_wordlist
unfolding bip39_english_wordlist is_wordlist increasing_from is_word
bip39_english_wordlist-IsWordlist = (refl, is_wordlist_sound bip39_english_wordlist refl)
