-- ===== src/Prelude/Library.antt =====
-- What the code calls in Go's standard library: `sort.Slice`, string order, and, as a parameter,
-- `encoding/json`, `crypto/sha256`, `strings` and `fmt`.
use Prim.Native.Nat.{ℕ, ◌+◌}
use Prim.Native.Char.{code}
use Prim.Native.String.{String, ◌++◌}
use mathlib.Core.Bool.{Bool, true, false}
use mathlib.Core.List.{List, [], ◌∷◌}
use control_center_stable.Prelude.Time.{Time}
use control_center_stable.Prelude.Tests.{ltb, nat_eq, if◌then◌else◌}

-- Functions of the standard library that the model does not look into.
pub record Library : Type 0 where
  -- `json.Valid`
  pub json_valid : String → Bool
  -- `hex.EncodeToString(sha256.Sum256(…))`
  pub sha256_hex : String → String
  -- `strings.TrimSpace`
  pub trim_space : String → String
  -- `fmt.Sprintf("%d", n)`
  pub decimal : ℕ → String
  -- `fmt.Sprintf("%d", t.UnixNano())`
  pub unix_nano : Time → String

-- The code points of a text: its bytes, if it is ASCII.
abbrev pub codes : String → List ℕ
codes String.[] = []
codes (String.◌∷◌ c s) = code c ∷ codes s

abbrev utf8_width : ℕ → ℕ
utf8_width c = if ltb c 128 then 1 else if ltb c 2048 then 2 else if ltb c 65536 then 3 else 4

-- `len(s)`, in bytes
unfoldable pub byte_length : String → ℕ
byte_length String.[] = 0
byte_length (String.◌∷◌ c s) = utf8_width (code c) + byte_length s

-- `a < b` on strings
unfoldable pub text_before : String → String → Bool
text_before String.[] String.[] = false
text_before String.[] (String.◌∷◌ d t) = true
text_before (String.◌∷◌ c s) String.[] = false
text_before (String.◌∷◌ c s) (String.◌∷◌ d t) =
    let rest = text_before s t in if nat_eq (code c) (code d) then rest else ltb (code c) (code d)

-- The concatenation of texts, as `fmt.Sprintf` and the writes to one hash make it.
unfoldable pub concat : List String → String
concat [] = ""
concat (s ∷ rest) = s ++ concat rest

-- `[]byte{0}`
abbrev pub nul : String
nul = "\0"

-- `sort.Slice` with a comparison that orders any two elements of the slice.
module _ {ℓ} {A : Type ℓ} (less : A → A → Bool) where
  unfoldable pub insert_sorted : A → List A → List A
  insert_sorted x [] = x ∷ []
  insert_sorted x (y ∷ ys) = if less x y then x ∷ y ∷ ys else y ∷ insert_sorted x ys

  unfoldable pub sort_slice : List A → List A
  unfolding insert_sorted
  sort_slice [] = []
  sort_slice (x ∷ xs) = insert_sorted x (sort_slice xs)
