-- ===== src/Mutations/Texts.antt =====
-- The constraints on texts that the models of src/intent_engineering/mutations/models.py share.
use Prim.Native.Char.{code}
use Prim.Native.String.{String, [], ◌∷◌, ◌++◌}
use intent_engineer.Base.{
  ℕ, zero, suc, Bool, true, false, not, ◌&&◌, ◌||◌, Option, none, some, eqb, ltb, if◌then◌else◌,
}
use intent_engineer.Base.Text.{is_blank, is_hex_text}

-- `f"{s}{t}"`
abbrev pub joined : String → String → String
joined s t = s ++ t

-- `len(s) <= n`
unfoldable pub fits : ℕ → String → Bool
fits n [] = true
fits zero (c ∷ s) = false
fits (suc n) (c ∷ s) = fits n s

-- `_CONTROL.search(s)`
unfoldable pub has_control : String → Bool
has_control [] = false
has_control (c ∷ s) = ltb (code c) 32 || eqb (code c) 127 || has_control s

-- What `_text` accepts.
unfoldable pub is_text : String → Bool
unfolding fits has_control is_blank
is_text s = not (is_blank s) && (fits 2048 s && not (has_control s))

-- What stands behind a prefix.
unfoldable pub after_prefix : String → String → Option String
after_prefix [] s = some s
after_prefix (c ∷ p) [] = none
after_prefix (c ∷ p) (d ∷ s) = if eqb (code c) (code d) then after_prefix p s else none

-- A prefix and a digest of 64 hexadecimal digits
unfoldable pub is_digest_with : String → String → Bool
unfolding after_prefix is_hex_text
is_digest_with prefix s = elim (after_prefix prefix s) [
  | none ↦ false
  | some digits ↦ is_hex_text 64 digits
]
